-- ===== src/Daemon/Hub/WellFormed.antt =====
-- The invariant of the hub.
use jj_mesh.Prelude.{
  is_ok, get, contains_key, get-remove, Ord, nat_ord, bool_ord, pair_ord, list_ord, option_ord,
  reverse_ord, Bool-cases, Option-cases, ◌≡◌, inl, inr, true, false, some, arith,
}
use jj_mesh.Config.Error.{Kind}
use jj_mesh.Config.Name.{Text, validate_name}
use jj_mesh.Config.Membership.Peers.{peer_register}
use jj_mesh.Config.Membership.Repos.{repo_register}
use jj_mesh.Config.Claims.{claims_register}
use jj_mesh.Daemon.Hub.Values.{get-map_values}
use jj_mesh.Daemon.Hub.Orphans.{forget_orphan_peer}
use jj_mesh.Daemon.Hub.Router.{forget_in_entry, forget_peer, RepoEntry, HubState}
use jj_mesh.Daemon.Hub.Caps.{forget_orphan_peer-IsCapped, IsCapped}
use jj_mesh.Daemon.Hub.Names.{contains-forget_orphan_peer}
use jj_mesh.Daemon.Hub.Contested.{IsContested, IsContested-forget}

module _ {E C R : Type 0} ⦃oe : Ord E⦄ where
  pub record IsRouting (state : HubState E C R) : Type 0 where
    pub contested :
        (name : Text) (entry : RepoEntry E R)
        → get name state.repos ≡ some entry
        → IsContested entry
    pub valid_repos :
        (name : Text)
        → contains_key name state.repos ≡ true
        → is_ok (validate_name Kind.repo name) ≡ true
    pub valid_orphans :
        (name : Text)
        → contains_key name state.orphans ≡ true
        → is_ok (validate_name Kind.repo name) ≡ true
    pub apart :
        (name : Text)
        → contains_key name state.repos ≡ true
        → contains_key name state.orphans ≡ false
    pub orphans_capped : IsCapped state.orphans
    pub reporting :
        (p : E) → contains_key p state.reports ≡ true → contains_key p state.peers ≡ true

  forgotten-IsContested :
      (state : HubState E C R) (from : E)
      → ((name : Text) (entry : RepoEntry E R)
          → get name state.repos ≡ some entry
          → IsContested entry)
      → (name : Text) (entry : RepoEntry E R) → get name (forget_peer state from).repos ≡ some entry
      → IsContested entry
  forgotten-IsContested state from c name entry h = elim (Option-cases (get name state.repos)) [
    | inl absent ↦ ground (arith, get-map_values (forget_in_entry from) state.repos name)
    | inr (old, held) ↦
        let e : forget_in_entry from old ≡ entry =
          ground (arith, get-map_values (forget_in_entry from) state.repos name) in
        rw (← e) (IsContested-forget old from (c name old held))
  ]

  forgotten_apart :
      (state : HubState E C R) (from : E)
      → ((name : Text)
          → contains_key name state.repos ≡ true
          → contains_key name state.orphans ≡ false)
      → (name : Text) → contains_key name (forget_peer state from).repos ≡ true
      → contains_key name (forget_orphan_peer state.orphans from) ≡ false
  forgotten_apart state from a name h =
      elim (Bool-cases (contains_key name (forget_orphan_peer state.orphans from))) [
        | inr free ↦ free
        | inl there ↦ ground (
          arith,
          contains-forget_orphan_peer state.orphans from name there,
          a name,
          get-map_values (forget_in_entry from) state.repos name,
        )
      ]

  pub forget_peer-IsRouting :
      (state : HubState E C R) (from : E) → IsRouting state → IsRouting (forget_peer state from)
  forget_peer-IsRouting state from w = record {
    contested = λ name entry h. forgotten-IsContested state from w.contested name entry h;
    valid_repos = λ name h.
        w.valid_repos name (ground (arith, get-map_values (forget_in_entry from) state.repos name));
    valid_orphans =
        λ name h. w.valid_orphans name (contains-forget_orphan_peer state.orphans from name h);
    apart = λ name h. forgotten_apart state from w.apart name h;
    orphans_capped = forget_orphan_peer-IsCapped state.orphans from w.orphans_capped;
    reporting = λ p h. w.reporting p (ground (arith, get-remove p from state.reports));
  }
