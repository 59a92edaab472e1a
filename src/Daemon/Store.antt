-- ===== src/Daemon/Store.antt =====
-- src/daemon/store.rs: the owner of the mesh state. `save` says how the write of a state to `mesh.json` goes,
-- whose contents stand in the store; the hub's cached membership stands in the store too, and what the peer
-- set and the repo set are told is a list of effects in order.
pub mod Commit
use jj_mesh.Prelude.{
  Result, ok, err, Ord, nat_ord, bool_ord, pair_ord, list_ord, option_ord, reverse_ord,
  if◌then◌else◌, is_some, Bool, not, List, [], ◌∷◌, ◌>>=◌, ◌>>◌,
}
use jj_mesh.Config.Error.{Error}
use jj_mesh.Config.Name.{Text}
use jj_mesh.Config.Membership.Peers.{peer_register}
use jj_mesh.Config.Membership.Repos.{repo_register}
use jj_mesh.Config.Claims.{claims_register}
use jj_mesh.Config.State.Defs.{paired_name, membership, MeshState, Membership}
use jj_mesh.Config.State.Ops.{add_peer}
use jj_mesh.Config.State.Merge.{merge_membership}
use jj_mesh.Config.State.Equality.{membership_differs, same_state}

pub data Effect (E : Type 0) : Type 0 where
  sync_peers : MeshState E → Effect E
  sync_repos : MeshState E → Effect E
  publish_to_hub : Membership E → Effect E

pub data StoreError : Type 0 where
  mutation_failed : Error → StoreError
  save_failed : StoreError

-- How `MeshState::save` goes: the state is written and synced, `mesh.json` is left as it was, or the new file
-- has its name and the sync of the directory fails.
pub data SaveResult : Type 0 where
  saved not_written not_synced : SaveResult

pub record MeshStore (E : Type 0) : Type 0 where
  pub local : E
  pub state : MeshState E
  pub on_disk : MeshState E
  pub gossiped : Membership E

-- What an update leaves: the store, the effects, and the value or the failure
pub record Outcome (E T : Type 0) : Type 0 where
  pub store : MeshStore E
  pub effects : List (Effect E)
  pub value : Result StoreError T

module _ {E : Type 0} ⦃oe : Ord E⦄ where
  -- `MeshStore::new`, on the state that was loaded
  unfoldable pub new_store : E → MeshState E → MeshStore E × List (Effect E)
  new_store local state = (
    record { local = local; state = state; on_disk = state; gossiped = membership state local },
    publish_to_hub (membership state local) ∷ sync_peers state ∷ sync_repos state ∷ [],
  )

  -- `republish_membership`
  unfoldable pub republish_membership : MeshStore E → MeshStore E × List (Effect E)
  republish_membership store =
      let m = membership store.state store.local in
      (record store { gossiped = m }, publish_to_hub m ∷ [])

  -- The part of `update` after the save
  abbrev pub commit : {T : Type 0} → MeshStore E → MeshState E → T → Outcome E T
  commit store next value =
      let differs = membership_differs next store.state in
      let m = membership next store.local in
      record {
        store = record store {
          state = next;
          on_disk = next;
          gossiped = if differs then m else store.gossiped;
        };
        effects =
            sync_peers next ∷ sync_repos next ∷ (if differs then publish_to_hub m ∷ [] else []);
        value = ok value;
      }

  -- `update` from the save on. A write that was not synced has replaced the file.
  abbrev pub save_then_commit :
      {T : Type 0} → SaveResult → MeshStore E → MeshState E → T → Outcome E T
  save_then_commit SaveResult.saved store next value = commit store next value
  save_then_commit SaveResult.not_written store next value = record {
    store = store;
    effects = [];
    value = err save_failed;
  }
  save_then_commit SaveResult.not_synced store next value = record {
    store = record store { on_disk = next };
    effects = [];
    value = err save_failed;
  }

  unfoldable pub update :
      {T : Type 0}
      → (MeshState E → SaveResult)
      → MeshStore E
      → (MeshState E → Result Error (MeshState E × T))
      → Outcome E T
  update save store mutate = elim (mutate store.state) [
    | err e ↦ record { store = store; effects = []; value = err (mutation_failed e) }
    | ok (next, value) ↦
        if same_state next store.state
        then record { store = store; effects = []; value = ok value }
        else save_then_commit (save next) store next value
  ]

  -- `MeshStore::merge_membership`, with the names of the repos that it reports
  unfoldable pub merge_gossip :
      (MeshState E → SaveResult) → MeshStore E → Membership E → Outcome E (List Text)
  merge_gossip save store remote =
      update save store (λ state. ok (merge_membership state remote store.local))

  abbrev pub pair_in : E → Text → MeshState E → Result Error (MeshState E × Unit {0})
  pair_in endpoint name state =
      if is_some (paired_name state endpoint)
      then ok (state, tt)
      else do state' ← add_peer state endpoint name; ok (state', tt)

  unfoldable pub add_paired_peer :
      (MeshState E → SaveResult) → MeshStore E → E → Text → Outcome E (Unit {0})
  add_paired_peer save store endpoint name = update save store (pair_in endpoint name)
