-- ===== src/Daemon/Hub/Orphans.antt =====
-- src/daemon/hub/orphans.rs: what the peers announce under names that are not registered here. The
-- functions take the map `orphans` of the hub's state.
use jj_mesh.Prelude.{
  Result, ok, err, total, BTreeMap, get, contains_key, insert, remove, Ord, nat_ord, bool_ord,
  pair_ord, list_ord, option_ord, reverse_ord, leb, if◌then◌else◌, is_empty, all, keep, ℕ, Bool,
  true, false, not, ◌&&◌, Option, none, some, List, [], ◌∷◌, map,
}
use jj_mesh.Config.Name.{Text}
use jj_mesh.Config.RepoId.{RepoId}
use jj_mesh.Config.Membership.Peers.{peer_register}
use jj_mesh.Config.Membership.Repos.{repo_register}
use jj_mesh.Config.Machine.{text_eq}
use jj_mesh.Config.Claims.{claims_register}
use jj_mesh.Daemon.Hub.Inbox.{Heads}

-- `MAX_ORPHAN_REPOS_PER_PEER`
abbrev pub max_orphan_repos_per_peer : ℕ
max_orphan_repos_per_peer = 64

pub record OrphanAnnounce : Type 0 where
  pub id : RepoId
  pub heads : Heads

pub record CloneSource (E : Type 0) : Type 0 where
  pub from : E
  pub heads : Heads

abbrev pub Orphans : Type 0 → Type 0
Orphans E = BTreeMap Text (BTreeMap E OrphanAnnounce)

-- `unwrap_or_default` and `entry(name).or_default()`
abbrev pub or_default : {K V : Type 0} → Option (BTreeMap K V) → BTreeMap K V
or_default none = []
or_default (some m) = m

-- The two failures of `clone_sources`
pub data CloneError : Type 0 where
  nobody_announces peers_disagree : CloneError

abbrev pub source_of : {E : Type 0} → E × OrphanAnnounce → CloneSource E
source_of e = record { from = e.0; heads = e.1.heads }

-- The `ensure!` that the peers agree
abbrev pub agreed :
    {E : Type 0}
    → Bool
    → RepoId
    → List (CloneSource E)
    → Result CloneError (RepoId × List (CloneSource E))
agreed true id sources = ok (id, sources)
agreed false id sources = err peers_disagree

abbrev pub sources_of :
    {E : Type 0} → List (E × OrphanAnnounce) → Result CloneError (RepoId × List (CloneSource E))
sources_of [] = err nobody_announces
sources_of (first ∷ rest) =
    agreed (all (λ e. text_eq e.1.id first.1.id) (first ∷ rest)) first.1.id
      (map source_of (first ∷ rest))

module _ {E : Type 0} ⦃oe : Ord E⦄ where
  abbrev pub held_in : E → BTreeMap E OrphanAnnounce → ℕ
  held_in from peers = if contains_key from peers then 1 else 0

  abbrev pub orphans_held_by : Orphans E → E → ℕ
  orphans_held_by orphans from = total (held_in from) orphans

  unfoldable pub remember_orphan : Orphans E → E → Text → OrphanAnnounce → Orphans E × Bool
  remember_orphan orphans from name announce =
      let known = contains_key from (or_default (get name orphans)) in
      if not known && leb max_orphan_repos_per_peer (orphans_held_by orphans from)
      then (orphans, false)
      else (insert name (insert from announce (or_default (get name orphans))) orphans, true)

  -- A repo's announcements, unless there are none
  abbrev put_back : Text → BTreeMap E OrphanAnnounce → Orphans E → Orphans E
  put_back name peers orphans =
      if is_empty peers then remove name orphans else insert name peers orphans

  unfoldable pub forget_orphan : Orphans E → Text → E → Orphans E
  forget_orphan orphans name from = elim (get name orphans) [
    | none ↦ orphans
    | some peers ↦ put_back name (remove from peers) orphans
  ]

  unfoldable pub forget_orphan_peer : Orphans E → E → Orphans E
  forget_orphan_peer [] from = []
  forget_orphan_peer (e ∷ orphans) from =
      let rest = forget_orphan_peer orphans from in
      if is_empty (remove from (e.1)) then rest else (e.0, remove from (e.1)) ∷ rest

  -- `take_orphans`: what is left, and what was held
  abbrev pub take_orphans : Orphans E → Text → Orphans E × BTreeMap E OrphanAnnounce
  take_orphans orphans name = (remove name orphans, or_default (get name orphans))

  -- `clone_sources`, where `connected` says which peers are
  unfoldable pub clone_sources :
      (E → Bool) → Orphans E → Text → Result CloneError (RepoId × List (CloneSource E))
  clone_sources connected orphans name =
      sources_of (keep (λ e. connected e.0) (or_default (get name orphans)))
