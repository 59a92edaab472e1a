-- ===== src/Daemon/Hub/Contested.antt =====
-- The conflicts of a repo and its own id.
use jj_mesh.Prelude.{
  BTreeMap, get, get-insert, get-remove, eqb_refl, Ord, nat_ord, bool_ord, pair_ord, list_ord,
  option_ord, reverse_ord, ◌≡◌, false, some, [], ◌∷◌, foldl, arith,
}
use jj_mesh.Config.RepoId.{RepoId}
use jj_mesh.Config.Membership.Peers.{peer_register}
use jj_mesh.Config.Membership.Repos.{repo_register}
use jj_mesh.Config.Machine.{text_eq, text_eq_sound}
use jj_mesh.Config.Claims.{claims_register}
use jj_mesh.Daemon.Hub.Outbox.{Announce}
use jj_mesh.Daemon.Hub.Orphans.{OrphanAnnounce}
use jj_mesh.Daemon.Hub.Router.{forget_in_entry, note_conflict, RepoEntry}
use jj_mesh.Daemon.Hub.Inbound.{route_entry}

-- The ids that contest a name are not the id of the repo here.
abbrev pub IsContested : {E R : Type 0} ⦃oe : Ord E⦄ → RepoEntry E R → Type 0
IsContested {E} entry =
    (p : E) (id : RepoId) → get p entry.conflicts ≡ some id → text_eq entry.id id ≡ false

module _ {E R : Type 0} ⦃oe : Ord E⦄ where
  pub IsContested-forget :
      (entry : RepoEntry E R) (from : E)
      → IsContested entry
      → IsContested (forget_in_entry from entry)
  IsContested-forget entry from c p id h = ground (arith, c p id, get-remove p from entry.conflicts)

  pub IsContested-route_entry :
      (entry : RepoEntry E R) (from : E) (announce : Announce)
      → IsContested entry
      → IsContested (route_entry entry from announce)
  unfolding route_entry
  IsContested-route_entry entry from announce c p id h = ground (
    arith,
    c p id,
    get-remove p from entry.conflicts,
    get-insert p from announce.id entry.conflicts,
  )

module _ {E : Type 0} ⦃oe : Ord E⦄ where
  noted :
      (id : RepoId) (conflicts : BTreeMap E RepoId) (e : E × OrphanAnnounce)
      → ((p : E) (other : RepoId) → get p conflicts ≡ some other → text_eq id other ≡ false)
      → (p : E) (other : RepoId) → get p (note_conflict id conflicts e) ≡ some other
      → text_eq id other ≡ false
  noted id conflicts e c p other h = ground (
    arith,
    c p other,
    get-insert p (e.0) (e.1.id) conflicts,
    text_eq_sound id (e.1.id),
    eqb_refl ⦃o = list_ord⦄ id,
  )

  pub contested-note_conflict :
      (id : RepoId) (held : BTreeMap E OrphanAnnounce) (conflicts : BTreeMap E RepoId)
      → ((p : E) (other : RepoId) → get p conflicts ≡ some other → text_eq id other ≡ false)
      → (p : E) (other : RepoId) → get p (foldl (note_conflict id) conflicts held) ≡ some other
      → text_eq id other ≡ false
  contested-note_conflict id [] conflicts c p other h = c p other h
  contested-note_conflict id (e ∷ held) conflicts c p other h =
      contested-note_conflict id held (note_conflict id conflicts e) (noted id conflicts e c) p
        other h
