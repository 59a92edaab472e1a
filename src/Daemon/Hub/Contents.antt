-- ===== src/Daemon/Hub/Contents.antt =====
-- What the hub passes on, and what it forgets.
use jj_mesh.Prelude.{
  is_ok, BTreeMap, get, remove, get-insert, get-remove, eqb_refl, Ord, nat_ord, bool_ord, pair_ord,
  list_ord, option_ord, reverse_ord, is_empty, ◌<◌, ◌≡◌, refl, sym, ap, ◌∙◌, ◌≢◌, true, false,
  Option, none, some, [], ◌∷◌, arith,
}
use jj_mesh.Config.Error.{Kind}
use jj_mesh.Config.Name.{Text, validate_name}
use jj_mesh.Config.Membership.Peers.{peer_register}
use jj_mesh.Config.Membership.Repos.{repo_register}
use jj_mesh.Config.Machine.{text_eq_sound}
use jj_mesh.Config.Claims.{claims_register}
use jj_mesh.Daemon.Hub.Inbox.{advance, seq_or_zero}
use jj_mesh.Daemon.Hub.Outbox.{Announce}
use jj_mesh.Daemon.Hub.Values.{mapped, get-map_values}
use jj_mesh.Daemon.Hub.Orphans.{Orphans, or_default, forget_orphan_peer}
use jj_mesh.Daemon.Hub.Router.{conn_of, forget_in_entry, connection, RepoEntry, HubState}
use jj_mesh.Daemon.Hub.Inbound.{route_entry, peer_disconnected, route}

module _ {E : Type 0} ⦃oe : Ord E⦄ where
  get-forget_orphan_peer :
      (orphans : Orphans E) (from : E) (name : Text)
      → get from (or_default (get name (forget_orphan_peer orphans from))) ≡ none
  unfolding forget_orphan_peer get
  get-forget_orphan_peer [] from name = refl
  get-forget_orphan_peer (e ∷ orphans) from name =
      ground
        (arith, get-forget_orphan_peer orphans from name, get-remove from from (e.1), eqb_refl from)

  get-removed : {V : Type 0} (from : E) (m : BTreeMap E V) → get from (remove from m) ≡ none
  get-removed from m = ground (arith, get-remove from from m, eqb_refl from)

  forgotten_entry :
      {R : Type 0} (from : E) (held : Option (RepoEntry E R)) (entry : RepoEntry E R)
      → mapped (forget_in_entry from) held ≡ some entry
      → (get from entry.inbox.slots ≡ none) × (get from entry.conflicts ≡ none)
  forgotten_entry from none entry h = ground arith
  forgotten_entry from (some old) entry h =
      ground (arith, get-removed from old.inbox.slots, get-removed from old.conflicts)

  route_entry_offer :
      {R : Type 0} (entry : RepoEntry E R) (from : E) (announce : Announce)
      → is_empty announce.heads ≡ false
      → announce.id ≡ entry.id
      → seq_or_zero (get from entry.inbox.slots) < announce.seq
      → let new = route_entry entry from announce in
        (get from new.inbox.slots
          ≡ some (record { seq = announce.seq; heads = announce.heads; drained = false }))
        × (new.inbox.notified ≡ true)
        × (get from new.conflicts ≡ none)
  unfolding route_entry advance
  route_entry_offer entry from announce heads same later = ground (
    arith,
    get-insert from from (record { seq = announce.seq; heads = announce.heads; drained = false })
        entry.inbox.slots,
    get-removed from entry.conflicts,
    eqb_refl from,
    eqb_refl ⦃o = list_ord⦄ entry.id,
  )

  route_entry_contest :
      {R : Type 0} (entry : RepoEntry E R) (from : E) (announce : Announce)
      → is_empty announce.heads ≡ false
      → announce.id ≢ entry.id
      → let new = route_entry entry from announce in
        (new.inbox ≡ entry.inbox) × (get from new.conflicts ≡ some announce.id)
  unfolding route_entry
  route_entry_contest entry from announce heads differs = ground (
    arith,
    get-insert from from announce.id entry.conflicts,
    eqb_refl from,
    text_eq_sound entry.id announce.id,
  )

module _ {E C R : Type 0} ⦃oe : Ord E⦄ where
  routed :
      (state : HubState E C R) (from : E) (announce : Announce) (entry : RepoEntry E R)
      → is_ok (validate_name Kind.repo announce.name) ≡ true
      → get announce.name state.repos ≡ some entry
      → get announce.name (route state from announce).repos ≡ some (route_entry entry from announce)
  unfolding route
  routed state from announce entry valid held = ground (
    arith,
    get-insert announce.name announce.name (route_entry entry from announce) state.repos,
    eqb_refl ⦃o = list_ord⦄ announce.name,
  )

  -- An announcement, with heads and a valid name, of a registered repo under its own id reaches the repo's inbox when it is newer than all that the
  -- peer sent before; one under another id does not, and is a conflict.
  pub route_lem :
      (state : HubState E C R) (from : E) (announce : Announce) (entry : RepoEntry E R)
      → is_ok (validate_name Kind.repo announce.name) ≡ true
      → get announce.name state.repos ≡ some entry
      → is_empty announce.heads ≡ false
      → (new : RepoEntry E R) × (get announce.name (route state from announce).repos ≡ some new)
        × (announce.id ≡ entry.id
            → seq_or_zero (get from entry.inbox.slots) < announce.seq
            → (get from new.inbox.slots
                ≡ some (record { seq = announce.seq; heads = announce.heads; drained = false }))
              × (new.inbox.notified ≡ true)
              × (get from new.conflicts ≡ none))
        × (announce.id ≢ entry.id
            → (new.inbox ≡ entry.inbox) × (get from new.conflicts ≡ some announce.id))
  route_lem state from announce entry valid held heads =
      let new = route_entry entry from announce in
      (
        new,
        routed state from announce entry valid held,
        λ same later. route_entry_offer entry from announce heads same later,
        λ differs. route_entry_contest entry from announce heads differs,
      )

  -- Nothing that a peer sent stays behind when its connection goes: no slot, no conflict, no orphan, no
  -- report, and no outbox.
  pub peer_disconnected_lem :
      (state : HubState E C R) (from : E)
      → let t = (peer_disconnected state from).0 in
        ((name : Text) (entry : RepoEntry E R)
          → get name t.repos ≡ some entry
          → (get from entry.inbox.slots ≡ none) × (get from entry.conflicts ≡ none))
        × ((name : Text) → get from (or_default (get name t.orphans)) ≡ none)
        × (get from t.reports ≡ none)
        × (connection t from ≡ none)
  unfolding peer_disconnected connection
  peer_disconnected_lem state from = (
    λ name entry h.
        forgotten_entry from (get name state.repos) entry
          (sym (get-map_values (forget_in_entry from) state.repos name) ∙ h),
    λ name. get-forget_orphan_peer state.orphans from name,
    get-removed from state.reports,
    ap conn_of (get-removed from state.peers),
  )
