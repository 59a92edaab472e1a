-- ===== src/Daemon/Hub/Names.antt =====
-- Which names the orphan store holds after each operation.
use jj_mesh.Prelude.{
  get, contains_key, insert, remove, get-insert, get-remove, Ord, nat_ord, bool_ord, pair_ord,
  list_ord, option_ord, reverse_ord, ◌≡◌, ◌⊎◌, inl, inr, true, List, [], ◌∷◌, arith,
}
use jj_mesh.Config.Name.{Text}
use jj_mesh.Config.RepoId.{RepoId}
use jj_mesh.Config.Membership.Peers.{peer_register}
use jj_mesh.Config.Membership.Repos.{repo_register}
use jj_mesh.Config.Machine.{text_eq_sound}
use jj_mesh.Config.Claims.{claims_register}
use jj_mesh.Daemon.Hub.Inbox.{Heads}
use jj_mesh.Daemon.Hub.Orphans.{
  Orphans, or_default, remember_orphan, forget_orphan, forget_orphan_peer, OrphanAnnounce,
}
use jj_mesh.Daemon.Hub.Router.{demote}

module _ {E : Type 0} ⦃oe : Ord E⦄ where
  pub contains-forget_orphan_peer :
      (orphans : Orphans E) (from : E) (name : Text)
      → contains_key name (forget_orphan_peer orphans from) ≡ true
      → contains_key name orphans ≡ true
  unfolding forget_orphan_peer get
  contains-forget_orphan_peer [] from name h = ground arith
  contains-forget_orphan_peer (e ∷ orphans) from name h =
      ground (arith, contains-forget_orphan_peer orphans from name)

  pub contains-forget_orphan :
      (orphans : Orphans E) (from : E) (other name : Text)
      → contains_key name (forget_orphan orphans other from) ≡ true
      → contains_key name orphans ≡ true
  unfolding forget_orphan
  contains-forget_orphan orphans from other name h =
      let peers = or_default (get other orphans) in
      ground (
        arith,
        get-remove name other orphans,
        get-insert name other (remove from peers) orphans,
        text_eq_sound other name,
      )

  pub contains-remember_orphan :
      (orphans : Orphans E) (from : E) (other : Text) (a : OrphanAnnounce) (name : Text)
      → contains_key name (remember_orphan orphans from other a).0 ≡ true
      → (contains_key name orphans ≡ true) ⊎ (other ≡ name)
  unfolding remember_orphan
  contains-remember_orphan orphans from other a name h =
      let peers = or_default (get other orphans) in
      ground (arith, get-insert name other (insert from a peers) orphans, text_eq_sound other name)

  pub contains-demote :
      (id : RepoId) (other : Text) (orphans : Orphans E) (last : List (E × Heads)) (name : Text)
      → contains_key name (demote id other orphans last) ≡ true
      → (contains_key name orphans ≡ true) ⊎ (other ≡ name)
  unfolding demote
  contains-demote id other orphans [] name h = inl h
  contains-demote id other orphans (e ∷ last) name h =
      elim (contains-demote id other
        (remember_orphan orphans (e.0) other (record { id = id; heads = e.1 })).0 last name h) [
          | inl before ↦
              contains-remember_orphan orphans (e.0) other (record { id = id; heads = e.1 }) name
                before
          | inr same ↦ inr same
        ]
