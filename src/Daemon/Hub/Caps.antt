-- ===== src/Daemon/Hub/Caps.antt =====
-- The orphan store: its order, and the cap of every peer.
use jj_mesh.Prelude.{
  measured, total-insert, total-remove-le, BTreeMap, get, insert, remove, Above, Sorted, get-insert,
  get-remove, insert-Sorted, remove-Sorted, eqb, eqb_sound, Ord, nat_ord, bool_ord, pair_ord,
  list_ord, option_ord, reverse_ord, if◌then◌else◌, Option-cases, is_empty, ◌+◌, ◌≤◌, ◌≡◌, refl,
  sym, ap, ◌∙◌, inl, inr, true, Option, none, some, List, [], ◌∷◌, arith,
}
use jj_mesh.Config.Name.{Text}
use jj_mesh.Config.RepoId.{RepoId}
use jj_mesh.Config.Membership.Peers.{peer_register}
use jj_mesh.Config.Membership.Repos.{repo_register}
use jj_mesh.Config.Claims.{claims_register}
use jj_mesh.Daemon.Hub.Inbox.{Heads}
use jj_mesh.Daemon.Hub.Orphans.{
  max_orphan_repos_per_peer, Orphans, or_default, held_in, orphans_held_by, remember_orphan,
  forget_orphan, forget_orphan_peer, OrphanAnnounce,
}
use jj_mesh.Daemon.Hub.Router.{demote}

module _ {E : Type 0} ⦃oe : Ord E⦄ where
  pub record IsCapped (orphans : Orphans E) : Type 0 where
    pub sorted : Sorted orphans
    pub capped : (p : E) → orphans_held_by orphans p ≤ max_orphan_repos_per_peer

  held_in-insert :
      (p from : E) (a : OrphanAnnounce) (peers : BTreeMap E OrphanAnnounce)
      → held_in p (insert from a peers) ≡ (if eqb from p then 1 else held_in p peers)
  held_in-insert p from a peers = ground (arith, get-insert p from a peers)

  held_in-remove :
      (p from : E) (peers : BTreeMap E OrphanAnnounce)
      → held_in p (remove from peers) ≤ held_in p peers
  held_in-remove p from peers = ground (arith, get-remove p from peers)

  held_in-empty :
      (p : E) (peers : BTreeMap E OrphanAnnounce) → is_empty peers ≡ true → held_in p peers ≡ 0
  unfolding get
  held_in-empty p [] h = refl
  held_in-empty p (e ∷ peers) h = ground arith

  held_default :
      (p : E) (peers : Option (BTreeMap E OrphanAnnounce))
      → measured (held_in p) peers ≡ held_in p (or_default peers)
  unfolding get
  held_default p none = refl
  held_default p (some peers) = refl

  held-insert :
      (orphans : Orphans E) (name : Text) (peers : BTreeMap E OrphanAnnounce) (p : E)
      → Sorted orphans
      → orphans_held_by (insert name peers orphans) p + held_in p (or_default (get name orphans))
        ≡ orphans_held_by orphans p + held_in p peers
  held-insert orphans name peers p s =
      ap (λ n. orphans_held_by (insert name peers orphans) p + n)
        (sym (held_default p (get name orphans)))
      ∙ total-insert (held_in p) name peers orphans s

  remembered_capped :
      (orphans : Orphans E) (from : E) (name : Text) (a : OrphanAnnounce) (p : E)
      → Sorted orphans
      → orphans_held_by orphans p ≤ max_orphan_repos_per_peer
      → orphans_held_by (remember_orphan orphans from name a).0 p ≤ max_orphan_repos_per_peer
  unfolding remember_orphan
  remembered_capped orphans from name a p s c =
      let old = or_default (get name orphans) in
      ground (
        arith,
        held-insert orphans name (insert from a old) p s,
        held_in-insert p from a old,
        eqb_sound from p,
      )

  -- A peer is never tracked under more names than the cap, whatever it announces.
  pub remember_orphan-IsCapped :
      (orphans : Orphans E) (from : E) (name : Text) (a : OrphanAnnounce)
      → IsCapped orphans
      → IsCapped (remember_orphan orphans from name a).0
  unfolding remember_orphan
  remember_orphan-IsCapped orphans from name a c = record {
    sorted = ground (
      arith,
      insert-Sorted name (insert from a (or_default (get name orphans))) orphans c.sorted,
      c.sorted,
    );
    capped = λ p. remembered_capped orphans from name a p c.sorted (c.capped p);
  }

  pub forget_orphan-IsCapped :
      (orphans : Orphans E) (name : Text) (from : E)
      → IsCapped orphans
      → IsCapped (forget_orphan orphans name from)
  unfolding forget_orphan
  forget_orphan-IsCapped orphans name from c = elim (Option-cases (get name orphans)) [
    | inl absent ↦ rw (absent, forget_orphan) c
    | inr (peers, held) ↦
        rw (held, forget_orphan)
          (record {
            sorted = ground (
              arith,
              insert-Sorted name (remove from peers) orphans c.sorted,
              remove-Sorted name orphans c.sorted,
            );
            capped = λ p. ground (
              arith,
              held-insert orphans name (remove from peers) p c.sorted,
              held_in-remove p from peers,
              total-remove-le (held_in p) name orphans,
              c.capped p,
            );
          })
  ]

  forget_orphan_peer-Above :
      (k : Text) (orphans : Orphans E) (from : E)
      → Above k orphans
      → Above k (forget_orphan_peer orphans from)
  unfolding forget_orphan_peer
  forget_orphan_peer-Above k [] from h = tt
  forget_orphan_peer-Above k (e ∷ orphans) from h =
      ground (arith, forget_orphan_peer-Above k orphans from h.1)

  forget_orphan_peer-Sorted :
      (orphans : Orphans E) (from : E) → Sorted orphans → Sorted (forget_orphan_peer orphans from)
  unfolding forget_orphan_peer
  forget_orphan_peer-Sorted [] from s = tt
  forget_orphan_peer-Sorted (e ∷ orphans) from s = ground (
    arith,
    forget_orphan_peer-Sorted orphans from s.1,
    forget_orphan_peer-Above (e.0) orphans from s.0,
  )

  held-forget_orphan_peer :
      (orphans : Orphans E) (from p : E)
      → orphans_held_by (forget_orphan_peer orphans from) p ≤ orphans_held_by orphans p
  unfolding forget_orphan_peer
  held-forget_orphan_peer [] from p = omega arith
  held-forget_orphan_peer (e ∷ orphans) from p =
      ground (arith, held-forget_orphan_peer orphans from p, held_in-remove p from (e.1))

  pub forget_orphan_peer-IsCapped :
      (orphans : Orphans E) (from : E)
      → IsCapped orphans
      → IsCapped (forget_orphan_peer orphans from)
  forget_orphan_peer-IsCapped orphans from c = record {
    sorted = forget_orphan_peer-Sorted orphans from c.sorted;
    capped = λ p. omega (arith, held-forget_orphan_peer orphans from p, c.capped p);
  }

  pub remove-IsCapped :
      (orphans : Orphans E) (name : Text) → IsCapped orphans → IsCapped (remove name orphans)
  remove-IsCapped orphans name c = record {
    sorted = remove-Sorted name orphans c.sorted;
    capped = λ p. omega (arith, total-remove-le (held_in p) name orphans, c.capped p);
  }

  pub demote-IsCapped :
      (id : RepoId) (name : Text) (orphans : Orphans E) (last : List (E × Heads))
      → IsCapped orphans
      → IsCapped (demote id name orphans last)
  unfolding demote
  demote-IsCapped id name orphans [] c = c
  demote-IsCapped id name orphans (e ∷ last) c =
      demote-IsCapped id name
        (remember_orphan orphans (e.0) name (record { id = id; heads = e.1 })).0 last
        (remember_orphan-IsCapped orphans (e.0) name (record { id = id; heads = e.1 }) c)
