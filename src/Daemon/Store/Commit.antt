-- ===== src/Daemon/Store/Commit.antt =====
-- The lemmas on `update`.
use jj_mesh.Prelude.{
  is_ok, Result, ok, err, Ord, nat_ord, bool_ord, pair_ord, list_ord, option_ord, reverse_ord,
  if◌then◌else◌, Bool-cases, ◌≡◌, refl, sym, ap, ◌∙◌, ◌≢◌, ◌⊎◌, inl, inr, false, [], ◌∷◌, arith,
}
use jj_mesh.Config.Error.{Error}
use jj_mesh.Config.Membership.Peers.{peer_register}
use jj_mesh.Config.Membership.Repos.{repo_register}
use jj_mesh.Config.Claims.{claims_register}
use jj_mesh.Config.State.Defs.{membership, MeshState}
use jj_mesh.Config.State.Equality.{
  membership_differs, same_state, membership_differs_sound, same_state_sound, same_state_refl,
}
use jj_mesh.Daemon.Store.{
  mutation_failed, commit, update, sync_peers, sync_repos, publish_to_hub, MeshStore, Outcome,
  SaveResult, save_failed, save_then_commit,
}

module _ {E : Type 0} ⦃oe : Ord E⦄ where
  -- What is in memory is what is on disk, and the gossip is its membership.
  pub record IsInStep (store : MeshStore E) : Type 0 where
    pub saved : store.on_disk ≡ store.state
    pub published : store.gossiped ≡ membership store.state store.local

  commit-IsInStep :
      {T : Type 0} (store : MeshStore E) (next : MeshState E) (value : T)
      → IsInStep store
      → IsInStep (commit store next value).store
  commit-IsInStep store next value w = elim (Bool-cases (membership_differs next store.state)) [
    | inl differs ↦ record {
      saved = refl;
      published = ap (λ b. if b then membership next store.local else store.gossiped) differs;
    }
    | inr same ↦ record {
      saved = refl;
      published =
          ap (λ b. if b then membership next store.local else store.gossiped) same
          ∙ (w.published ∙ sym (membership_differs_sound next store.state store.local same));
    }
  ]

  -- The save of the next state failed when the directory was synced: the file has the next state, memory and
  -- gossip are as before, nobody is told and the update fails.
  pub record IsUnsynced {T : Type 0} (save : MeshState E → SaveResult) (store : MeshStore E)
      (result : Result Error (MeshState E × T)) (outcome : Outcome E T) : Type 0 where
    pub next : MeshState E
    pub value : T
    pub mutated : result ≡ ok (next, value)
    pub not_synced : save next ≡ SaveResult.not_synced
    pub left :
        outcome
        ≡ record { store = record store { on_disk = next }; effects = []; value = err save_failed }

  saved_or_not :
      {T : Type 0} (save : MeshState E → SaveResult) (store : MeshStore E) (next : MeshState E)
      (value : T) (how : SaveResult)
      → save next ≡ how
      → IsInStep store
      → let o = save_then_commit how store next value in
        IsInStep o.store ⊎ IsUnsynced save store (ok (next, value)) o
  saved_or_not save store next value SaveResult.saved h w = inl (commit-IsInStep store next value w)
  saved_or_not save store next value SaveResult.not_written h w = inl w
  saved_or_not save store next value SaveResult.not_synced h w =
      inr (record { next = next; value = value; mutated = refl; not_synced = h; left = refl })

  -- By cases on what the mutation returned
  updated_lem :
      {T : Type 0} (save : MeshState E → SaveResult) (store : MeshStore E)
      (result : Result Error (MeshState E × T))
      → IsInStep store
      → let o = update save store (λ state. result) in
        IsInStep o.store ⊎ IsUnsynced save store result o
  unfolding update
  updated_lem save store (err e) w = inl w
  updated_lem save store (ok (next, value)) w = elim (Bool-cases (same_state next store.state)) [
    | inl same ↦ rw same (inl w)
    | inr differs ↦ rw differs (saved_or_not save store next value (save next) refl w)
  ]

  -- An update that fails, in the mutation or in the save, leaves memory and gossip and tells nobody.
  update_fails :
      {T : Type 0} (save : MeshState E → SaveResult) (store : MeshStore E)
      (mutate : MeshState E → Result Error (MeshState E × T))
      → is_ok (update save store mutate).value ≡ false
      → ((update save store mutate).store.state ≡ store.state)
        × ((update save store mutate).store.gossiped ≡ store.gossiped)
        × ((update save store mutate).effects ≡ [])
  unfolding update
  update_fails save store mutate h = ground arith

  -- A mutation that changes nothing writes nothing and tells nobody, whatever `save` would say; one that
  -- changes the state and is saved tells the peer set and the repo set, and then the hub if what is gossiped
  -- changed.
  update_lem :
      {T : Type 0} (save : MeshState E → SaveResult) (store : MeshStore E)
      (mutate : MeshState E → Result Error (MeshState E × T)) {next : MeshState E} {value : T}
      → mutate store.state ≡ ok (next, value)
      → (next ≡ store.state
          → update save store mutate ≡ record { store = store; effects = []; value = ok value })
        × (next ≢ store.state
            → save next ≡ SaveResult.saved
            → ((update save store mutate).store.state ≡ next)
              × ((update save store mutate).value ≡ ok value)
              × ((update save store mutate).effects
                  ≡ sync_peers next
                    ∷ sync_repos next
                    ∷ (if membership_differs next store.state
                        then publish_to_hub (membership next store.local) ∷ []
                        else [])))
  unfolding update
  update_lem save store mutate {next} {value} h = (
    λ same. rw (h, update) (ground (arith, same_state_refl store.state)),
    λ differs saved. rw (h, update) (ground (arith, same_state_sound next store.state)),
  )

  -- An update of a store whose memory, disk and gossip are in step leaves them in step, unless the save of the
  -- next state fails at the sync of the directory: then the disk has the next state, memory and gossip are as
  -- before, nobody is told, and the update fails. A mutation that fails, or changes nothing, changes nothing here
  -- and tells nobody; when a changed state is saved, it is the state, its value is returned, and the peer set and
  -- the repo set are told, and then the hub if what is gossiped changed.
  pub update-IsInStep :
      {T : Type 0} (save : MeshState E → SaveResult) (store : MeshStore E)
      (mutate : MeshState E → Result Error (MeshState E × T))
      → IsInStep store
      → let o = update save store mutate in
        (IsInStep o.store ⊎ IsUnsynced save store (mutate store.state) o)
        × ((e : Error)
            → mutate store.state ≡ err e
            → o ≡ record { store = store; effects = []; value = err (mutation_failed e) })
        × ((next : MeshState E) (value : T)
            → mutate store.state ≡ ok (next, value)
            → (next ≡ store.state → o ≡ record { store = store; effects = []; value = ok value })
              × (next ≢ store.state
                  → save next ≡ SaveResult.saved
                  → (o.store.state ≡ next)
                    × (o.value ≡ ok value)
                    × (o.effects
                        ≡ sync_peers next
                          ∷ sync_repos next
                          ∷ (if membership_differs next store.state
                              then publish_to_hub (membership next store.local) ∷ []
                              else []))))
  unfolding update
  update-IsInStep save store mutate w = (
    updated_lem save store (mutate store.state) w,
    λ e h. rw (h, update) refl,
    λ next value h. update_lem save store mutate h,
  )
