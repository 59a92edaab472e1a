-- ===== src/Tests/Data.antt =====
-- A mesh of three machines, with the endpoint ids 1, 2 and 3, and what the first of them holds and hears.
use jj_mesh.Prelude.{
  ok, get, insert, nat_ord, bool_ord, pair_ord, list_ord, option_ord, reverse_ord, ℕ, ◌≡◌, refl,
  true, Option, none, some, [], ◌∷◌, arith,
}
use jj_mesh.Config.Name.{Text, is_confusable, validate_name}
use jj_mesh.Config.RepoId.{RepoId, Repo}
use jj_mesh.Config.Membership.Register.{next_version, bumped_version}
use jj_mesh.Config.Membership.Peers.{peer_register, PeerStatus, Peer}
use jj_mesh.Config.Membership.Repos.{repo_register, MeshRepoStatus}
use jj_mesh.Config.Claims.{claims_register}
use jj_mesh.Config.State.Defs.{default_state, find_id, find_path, MeshState, Membership}
use jj_mesh.Config.State.Ops.{
  validate_new_peer, validate_new_repo, ensure_mesh_id, add_peer, add_repo,
}
use jj_mesh.Config.State.Loops.{valid_repo}
use jj_mesh.Config.State.WellFormed.{IsWellFormed}
use jj_mesh.Config.State.Reachable.{Reach-IsWellFormed, peer_added, repo_added, Reach, here, next}

abbrev pub alice : Text
alice = b'a' ∷ []

abbrev pub bob : Text
bob = b'b' ∷ []

abbrev pub docs : Text
docs = b'd' ∷ []

abbrev pub docs_id : RepoId
docs_id = b'0' ∷ b'1' ∷ []

abbrev pub parse : Text → Option ℕ
parse t = none

abbrev pub canonical : Text → Text
canonical path = path

abbrev pub start : MeshState ℕ
start = default_state alice

abbrev pub docs_repo : Repo
docs_repo = record { id = docs_id; path = b'/' ∷ [] }

abbrev pub bob_record : Peer
bob_record = record { version = 1; status = PeerStatus.alive bob }

abbrev pub with_bob : MeshState ℕ
with_bob = record start { peers = (2, bob_record) ∷ [] }

pub add_bob : add_peer start 2 bob ≡ ok with_bob
unfolding add_peer validate_new_peer validate_name is_confusable bumped_version next_version get
    insert
add_bob = refl

abbrev pub with_docs : MeshState ℕ
with_docs = record with_bob {
  repos = (docs, docs_repo) ∷ [];
  mesh_repos = (docs, record { version = 1; status = MeshRepoStatus.present docs_id }) ∷ [];
}

pub add_docs : add_repo canonical with_bob docs docs_repo ≡ ok with_docs
unfolding add_repo validate_new_repo ensure_mesh_id validate_name is_confusable bumped_version
    next_version get insert find_path find_id
add_docs = refl

pub local_run : Reach parse canonical 1 start with_docs
local_run =
    next (next here (peer_added 2 bob (λ e. ground arith) add_bob))
      (repo_added docs docs_repo add_docs)

pub with_docs-IsWellFormed : IsWellFormed 1 with_docs
with_docs-IsWellFormed = Reach-IsWellFormed parse canonical 1 alice local_run

pub docs_valid :
    valid_repo docs (record { version = 1; status = MeshRepoStatus.present docs_id }) ≡ true
unfolding validate_name is_confusable
docs_valid = refl

pub held_bob : get 2 with_docs.peers ≡ some bob_record
unfolding get
held_bob = refl

-- Two memberships that bob and a third machine send
abbrev pub carol : Text
carol = b'c' ∷ []

abbrev pub carol_record : Peer
carol_record = record { version = 1; status = PeerStatus.alive carol }

abbrev pub from_bob : Membership ℕ
from_bob = record {
  peers = (2, record { version = 4; status = PeerStatus.alive alice }) ∷ (3, carol_record) ∷ [];
  repos = (docs, record { version = 2; status = MeshRepoStatus.removed }) ∷ [];
  claims = [];
}

abbrev pub from_carol : Membership ℕ
from_carol = record {
  peers = (1, record { version = 7; status = PeerStatus.removed }) ∷ (2, bob_record) ∷ [];
  repos = (docs, record { version = 2; status = MeshRepoStatus.present docs_id }) ∷ [];
  claims = [];
}

abbrev pub bobs : MeshState ℕ
bobs = record (default_state bob) {
  peers = (1, record { version = 0; status = PeerStatus.alive alice }) ∷ [];
}
