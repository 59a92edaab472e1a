-- ===== src/Daemon/Hub/Outbox/Defs.antt =====
-- `Outbox` and its operations; the messages of net/sync.rs. The permit of `tokio::sync::Notify` is a Boolean.
use jj_mesh.Prelude.{
  BTreeMap, insert, nat_ord, bool_ord, pair_ord, list_ord, option_ord, reverse_ord, ℕ, zero, suc,
  Bool, true, false, Option, none, some, List, [], ◌∷◌,
}
use jj_mesh.Config.Name.{Text}
use jj_mesh.Config.RepoId.{RepoId}
use jj_mesh.Config.Membership.Peers.{peer_register}
use jj_mesh.Config.Membership.Repos.{repo_register}
use jj_mesh.Config.Claims.{claims_register}
use jj_mesh.Config.State.Defs.{Membership}
use jj_mesh.Daemon.Hub.Inbox.{Heads}

pub record Announce : Type 0 where
  pub name : Text
  pub id : RepoId
  pub seq : ℕ
  pub heads : Heads

pub data RepoHealthState : Type 0 where
  healthy failed missing : RepoHealthState

pub record RepoHealth : Type 0 where
  pub name : Text
  pub state : RepoHealthState

pub record StatusReport : Type 0 where
  pub daemon_version : Text
  pub jj_version : Option Text
  pub repos : List RepoHealth

pub data UniMessage (E : Type 0) : Type 0 where
  announce_message : Announce → UniMessage E
  membership_message : Membership E → UniMessage E
  status_message : StatusReport → UniMessage E

-- `OutboxState` with the permit
pub record Outbox (E : Type 0) : Type 0 where
  pub membership : Option (Membership E)
  pub status : Option StatusReport
  pub announces : BTreeMap Text Announce
  pub notified : Bool

-- `Outbox::default`
abbrev pub empty_outbox : {E : Type 0} → Outbox E
empty_outbox = record { membership = none; status = none; announces = []; notified = false }

module _ {E : Type 0} where
  abbrev pub push_announce : Outbox E → Announce → Outbox E
  push_announce outbox announce = record outbox {
    announces = insert announce.name announce outbox.announces;
    notified = true;
  }

  abbrev pub push_membership : Outbox E → Membership E → Outbox E
  push_membership outbox membership = record outbox {
    membership = some membership;
    notified = true;
  }

  abbrev pub push_status : Outbox E → StatusReport → Outbox E
  push_status outbox report = record outbox { status = some report; notified = true }

  -- `pop_first` on the announcements
  abbrev pop_announce : Outbox E → BTreeMap Text Announce → Outbox E × Option (UniMessage E)
  pop_announce outbox [] = (outbox, none)
  pop_announce outbox (e ∷ rest) =
      (record outbox { announces = rest }, some (announce_message (e.1)))

  abbrev pop_status : Outbox E → Option StatusReport → Outbox E × Option (UniMessage E)
  pop_status outbox none = pop_announce outbox outbox.announces
  pop_status outbox (some report) = (record outbox { status = none }, some (status_message report))

  abbrev pop_membership : Outbox E → Option (Membership E) → Outbox E × Option (UniMessage E)
  pop_membership outbox none = pop_status outbox outbox.status
  pop_membership outbox (some m) =
      (record outbox { membership = none }, some (membership_message m))

  unfoldable pub pop : Outbox E → Outbox E × Option (UniMessage E)
  pop outbox = pop_membership outbox outbox.membership

  -- The loop of `run_sender` up to its next wait, on a connection that takes every message: the outbox
  -- that is left, what was sent, and whether the fuel was enough.
  unfoldable pub send_all : ℕ → Outbox E → Outbox E × (List (UniMessage E) × Bool)
  send_all zero outbox = (outbox, ([], false))
  send_all (suc fuel) outbox =
      let popped = pop outbox in
      let rest = send_all fuel popped.0 in
      elim popped.1 [
        | none ↦ (popped.0, ([], true))
        | some message ↦ (rest.0, (message ∷ rest.1.0, rest.1.1))
      ]
