-- ===== src/Repo/Store/Walk.antt =====
-- The walks over the parents of operations: the pushing of the parents that were not visited, and what is reached.
use jj_mesh.Prelude.{
  nat_ord, bool_ord, pair_ord, list_ord, option_ord, reverse_ord, if◌then◌else◌, keep, ◌≡◌, refl,
  true, not, ◌&&◌, ◌||◌, List, [], ◌∷◌, arith,
}
use jj_mesh.Config.Membership.Peers.{peer_register}
use jj_mesh.Config.Membership.Repos.{repo_register}
use jj_mesh.Config.Machine.{text_eq, text_eq_sound}
use jj_mesh.Config.Claims.{claims_register}
use jj_mesh.Repo.Codec.Messages.{CommitId}
use jj_mesh.Repo.Codec.Ids.{has_id}
use jj_mesh.Repo.Sets.{Subset, has_id-append}
use jj_mesh.Repo.Store.Defs.{rev}

-- The ids that can be reached from the first ones along `next`
pub data Reached (next : CommitId → List CommitId) (from : List CommitId) : CommitId → Type 0 where
  start : {x : CommitId} → has_id x from ≡ true → Reached next from x
  step : {u v : CommitId} → Reached next from u → has_id v (next u) ≡ true → Reached next from v

pub Reached-closed :
    (next : CommitId → List CommitId) (from set : List CommitId)
    → Subset from set
    → ((u v : CommitId) → has_id u set ≡ true → has_id v (next u) ≡ true → has_id v set ≡ true)
    → {x : CommitId} → Reached next from x
    → has_id x set ≡ true
Reached-closed edges from set s c (start {x} h) = s x h
Reached-closed edges from set s c (step {u} {v} r h) = c u v (Reached-closed edges from set s c r) h

-- The parents that a walk follows
abbrev pub rootless : CommitId → List CommitId → List CommitId
rootless root ids = keep (λ p. not (text_eq p root)) ids

pub record Frontier : Type 0 where
  pub visited : List CommitId
  pub stack : List CommitId

-- `if parent != root && visited.insert(parent) { stack.push(parent) }`, for each parent
unfoldable pub push_parents : CommitId → Frontier → List CommitId → Frontier
push_parents root f [] = f
push_parents root f (p ∷ ps) =
    push_parents root
      (if not (text_eq p root) && not (has_id p f.visited)
        then record { visited = p ∷ f.visited; stack = p ∷ f.stack }
        else f)
      ps

pub has_id-rootless :
    (root x : CommitId) (ids : List CommitId)
    → has_id x (rootless root ids) ≡ (has_id x ids && not (text_eq x root))
has_id-rootless root x [] = refl
has_id-rootless root x (p ∷ ps) = ground (arith, has_id-rootless root x ps, text_eq_sound x p)

pub visited-push :
    (root x : CommitId) (f : Frontier) (ps : List CommitId)
    → has_id x (push_parents root f ps).visited
      ≡ (has_id x f.visited || has_id x (rootless root ps))
unfolding push_parents
visited-push root x f [] = ground arith
visited-push root x f (p ∷ ps) = ground (
  arith,
  visited-push root x f ps,
  visited-push root x (record { visited = p ∷ f.visited; stack = p ∷ f.stack }) ps,
  text_eq_sound x p,
)

-- What was visited is waiting, or was left alone.
pub stack-push :
    (root x : CommitId) (f : Frontier) (ps : List CommitId)
    → has_id x (push_parents root f ps).stack
      ≡ (has_id x f.stack || (has_id x (rootless root ps) && not (has_id x f.visited)))
unfolding push_parents
stack-push root x f [] = ground arith
stack-push root x f (p ∷ ps) = ground (
  arith,
  stack-push root x f ps,
  stack-push root x (record { visited = p ∷ f.visited; stack = p ∷ f.stack }) ps,
  text_eq_sound x p,
)

pub has_id-rev : (x : CommitId) (ids : List CommitId) → has_id x (rev ids) ≡ has_id x ids
has_id-rev x [] = refl
has_id-rev x (y ∷ ys) = ground (arith, has_id-rev x ys, has_id-append x (rev ys) (y ∷ []))
