-- ===== src/Daemon/Hub/Invariant.antt =====
-- Registration and publication, and the hub's invariant.
use jj_mesh.Prelude.{
  is_ok, get, contains_key, insert, remove, get-insert, get-remove, eqb_refl, Ord, nat_ord,
  bool_ord, pair_ord, list_ord, option_ord, reverse_ord, is_some, Bool-cases, Option-cases, ℕ, ◌≡◌,
  inl, inr, true, false, Option, none, some, [], foldl, arith,
}
use jj_mesh.Config.Error.{Kind}
use jj_mesh.Config.Name.{Text, validate_name}
use jj_mesh.Config.RepoId.{RepoId}
use jj_mesh.Config.Membership.Register.{add_u64}
use jj_mesh.Config.Membership.Peers.{peer_register}
use jj_mesh.Config.Membership.Repos.{repo_register}
use jj_mesh.Config.Machine.{text_eq, text_eq_sound}
use jj_mesh.Config.Claims.{claims_register}
use jj_mesh.Daemon.Hub.Inbox.{Heads, empty_inbox, snapshot}
use jj_mesh.Daemon.Hub.Outbox.{push_announce, Outbox}
use jj_mesh.Daemon.Hub.Values.{get-map_values}
use jj_mesh.Daemon.Hub.Orphans.{or_default}
use jj_mesh.Daemon.Hub.Router.{
  with_id, push_to, note_conflict, demote, broadcast, register_repo, hub_unregister_repo, publish,
  RepoEntry, HubState,
}
use jj_mesh.Daemon.Hub.Caps.{remove-IsCapped, demote-IsCapped}
use jj_mesh.Daemon.Hub.Names.{contains-demote}
use jj_mesh.Daemon.Hub.Contested.{IsContested, contested-note_conflict}
use jj_mesh.Daemon.Hub.WellFormed.{IsRouting}

no_conflicts :
    {E : Type 0} ⦃oe : Ord E⦄ (id : RepoId) (p : E) (other : RepoId)
    → get {V = RepoId} p [] ≡ some other
    → text_eq id other ≡ false
unfolding get
no_conflicts id p other h = ground arith

pub with_id_sound :
    {E R : Type 0} (id : RepoId) (held : Option (RepoEntry E R)) (entry : RepoEntry E R)
    → with_id id held ≡ some entry
    → held ≡ some entry
with_id_sound id held entry h = ground arith

-- How an operation treats the repos and the orphans that it does not name
module _ {E C R : Type 0} ⦃oe : Ord E⦄ where
  put-IsContested :
      (state : HubState E C R) (name : Text) (new : RepoEntry E R)
      → ((other : Text) (entry : RepoEntry E R)
          → get other state.repos ≡ some entry
          → IsContested entry)
      → IsContested new
      → (other : Text) (entry : RepoEntry E R)
      → get other (insert name new state.repos) ≡ some entry
      → IsContested entry
  put-IsContested state name new old c other entry h = elim (Bool-cases (text_eq name other)) [
    | inl same ↦
        let e : new ≡ entry = ground (arith, get-insert other name new state.repos) in rw (← e) c
    | inr differs ↦ old other entry (ground (arith, get-insert other name new state.repos))
  ]

  -- A repo's entry is replaced by one of the same id whose conflicts are right.
  pub put_entry-IsRouting :
      (state : HubState E C R) (name : Text) (old new : RepoEntry E R)
      → IsRouting state
      → get name state.repos ≡ some old
      → IsContested new
      → IsRouting (record state { repos = insert name new state.repos })
  put_entry-IsRouting state name old new w held c = record {
    contested = put-IsContested state name new w.contested c;
    valid_repos = λ other h.
        w.valid_repos other
          (ground (arith, get-insert other name new state.repos, text_eq_sound name other));
    valid_orphans = w.valid_orphans;
    apart = λ other h.
        w.apart other
          (ground (arith, get-insert other name new state.repos, text_eq_sound name other));
    orphans_capped = w.orphans_capped;
    reporting = w.reporting;
  }

  -- The outboxes and the sequence are not part of the invariant.
  pub broadcast-IsRouting :
      (state : HubState E C R) (push : Outbox E → Outbox E)
      → IsRouting state
      → IsRouting (broadcast state push)
  broadcast-IsRouting state push w = record {
    contested = w.contested;
    valid_repos = w.valid_repos;
    valid_orphans = w.valid_orphans;
    apart = w.apart;
    orphans_capped = w.orphans_capped;
    reporting = λ p h. ground (arith, w.reporting p h, get-map_values (push_to push) state.peers p);
  }

  sequenced-IsRouting :
      (state : HubState E C R) (seq : ℕ)
      → IsRouting state
      → IsRouting (record state { announce_seq = seq })
  sequenced-IsRouting state seq w = record {
    contested = w.contested;
    valid_repos = w.valid_repos;
    valid_orphans = w.valid_orphans;
    apart = w.apart;
    orphans_capped = w.orphans_capped;
    reporting = w.reporting;
  }

  pub register_repo-IsRouting :
      (state : HubState E C R) (name : Text) (id : RepoId)
      → is_ok (validate_name Kind.repo name) ≡ true
      → IsRouting state
      → IsRouting (register_repo state name id)
  unfolding register_repo
  register_repo-IsRouting state name id valid w =
      let entry : RepoEntry E R = record {
        id = id;
        seq = 0;
        published = none;
        inbox = empty_inbox;
        conflicts = foldl (note_conflict id) [] (or_default (get name state.orphans));
        serving = none;
      } in
      record {
        contested =
            put-IsContested state name entry w.contested (
              contested-note_conflict id (or_default (get name state.orphans)) []
                (no_conflicts id));
        valid_repos = λ other h. ground (
          arith,
          w.valid_repos other,
          get-insert other name entry state.repos,
          text_eq_sound name other,
        );
        valid_orphans =
            λ other h. w.valid_orphans other (ground (arith, get-remove other name state.orphans));
        apart = λ other h. ground (
          arith,
          w.apart other,
          get-insert other name entry state.repos,
          get-remove other name state.orphans,
        );
        orphans_capped = remove-IsCapped state.orphans name w.orphans_capped;
        reporting = w.reporting;
      }

  abbrev demoted : HubState E C R → Text → RepoEntry E R → HubState E C R
  demoted state name entry = record state {
    repos = remove name state.repos;
    orphans = demote entry.id name state.orphans (snapshot entry.inbox);
  }

  demoted_apart :
      (state : HubState E C R) (name : Text) (entry : RepoEntry E R)
      → ((other : Text)
          → contains_key other state.repos ≡ true
          → contains_key other state.orphans ≡ false)
      → (other : Text) → contains_key other (remove name state.repos) ≡ true
      → contains_key other (demote entry.id name state.orphans (snapshot entry.inbox)) ≡ false
  demoted_apart state name entry a other h =
      let after = demote entry.id name state.orphans (snapshot entry.inbox) in
      elim (Bool-cases (contains_key other after)) [
        | inr free ↦ free
        | inl there ↦ ground (
          arith,
          contains-demote entry.id name state.orphans (snapshot entry.inbox) other there,
          a other,
          get-remove other name state.repos,
          eqb_refl ⦃o = list_ord⦄ name,
        )
      ]

  demoted-IsRouting :
      (state : HubState E C R) (name : Text) (entry : RepoEntry E R)
      → get name state.repos ≡ some entry
      → IsRouting state
      → IsRouting (demoted state name entry)
  demoted-IsRouting state name entry held w = record {
    contested =
        λ other e h. w.contested other e (ground (arith, get-remove other name state.repos));
    valid_repos =
        λ other h. w.valid_repos other (ground (arith, get-remove other name state.repos));
    valid_orphans = λ other h. ground (
      arith,
      contains-demote entry.id name state.orphans (snapshot entry.inbox) other h,
      w.valid_orphans other,
      w.valid_repos name,
    );
    apart = λ other h. demoted_apart state name entry w.apart other h;
    orphans_capped =
        demote-IsCapped entry.id name state.orphans (snapshot entry.inbox) w.orphans_capped;
    reporting = w.reporting;
  }

  pub hub_unregister_repo-IsRouting :
      (state : HubState E C R) (name : Text)
      → IsRouting state
      → IsRouting (hub_unregister_repo state name)
  unfolding hub_unregister_repo
  hub_unregister_repo-IsRouting state name w = elim (Option-cases (get name state.repos)) [
    | inl absent ↦ rw (absent, hub_unregister_repo) w
    | inr (entry, held) ↦
        let d = demoted-IsRouting state name entry held w in
        let seq = add_u64 state.announce_seq 1 in
        elim (Bool-cases (is_some entry.published)) [
          | inl published ↦
              rw (held, hub_unregister_repo, published)
                (broadcast-IsRouting (record (demoted state name entry) { announce_seq = seq })
                  (λ outbox.
                    push_announce outbox
                      (record { name = name; id = entry.id; seq = seq; heads = [] }))
                  (sequenced-IsRouting (demoted state name entry) seq d))
          | inr never ↦ rw (held, hub_unregister_repo, never) d
        ]
  ]

  pub publish-IsRouting :
      (state : HubState E C R) (name : Text) (id : RepoId) (heads : Heads)
      → IsRouting state
      → IsRouting (publish state name id heads)
  unfolding publish
  publish-IsRouting state name id heads w =
      elim (Option-cases (with_id id (get name state.repos))) [
        | inl absent ↦ rw (absent, publish) w
        | inr (entry, found) ↦
            let held : get name state.repos ≡ some entry =
              with_id_sound id (get name state.repos) entry found in
            let seq = add_u64 state.announce_seq 1 in
            let new : RepoEntry E R = record entry { seq = seq; published = some heads } in
            rw (found, publish)
              (broadcast-IsRouting
                (record state { announce_seq = seq; repos = insert name new state.repos })
                (λ outbox.
                  push_announce outbox
                    (record { name = name; id = entry.id; seq = seq; heads = heads }))
                (sequenced-IsRouting (record state { repos = insert name new state.repos }) seq
                  (put_entry-IsRouting state name entry new w held (w.contested name entry held))))
      ]
