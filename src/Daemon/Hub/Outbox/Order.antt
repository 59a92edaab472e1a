-- ===== src/Daemon/Hub/Outbox/Order.antt =====
-- The lemmas on `pop` and `send_all`.
use jj_mesh.Prelude.{
  BTreeMap, nat_ord, bool_ord, pair_ord, list_ord, option_ord, reverse_ord, length, ℕ, zero, suc,
  ◌<◌, ◌≡◌, refl, true, Option, none, some, List, [], ◌∷◌, ◌++◌, arith,
}
use jj_mesh.Config.Name.{Text}
use jj_mesh.Config.Membership.Peers.{peer_register}
use jj_mesh.Config.Membership.Repos.{repo_register}
use jj_mesh.Config.Claims.{claims_register}
use jj_mesh.Config.State.Defs.{Membership}
use jj_mesh.Daemon.Hub.Outbox.Defs.{
  pop, send_all, UniMessage, announce_message, membership_message, status_message, Announce,
  StatusReport, Outbox,
}

-- What waits, in the order of the source
abbrev pub announce_messages : {E : Type 0} → BTreeMap Text Announce → List (UniMessage E)
announce_messages [] = []
announce_messages (e ∷ m) = announce_message (e.1) ∷ announce_messages m

abbrev pub membership_messages : {E : Type 0} → Option (Membership E) → List (UniMessage E)
membership_messages none = []
membership_messages (some m) = membership_message m ∷ []

abbrev pub status_messages : {E : Type 0} → Option StatusReport → List (UniMessage E)
status_messages none = []
status_messages (some report) = status_message report ∷ []

abbrev pub pending : {E : Type 0} → Outbox E → List (UniMessage E)
pending outbox =
    membership_messages outbox.membership
    ++ (status_messages outbox.status ++ announce_messages outbox.announces)

module _ {E : Type 0} where
  -- What one `pop` takes is the first of what waits.
  abbrev pub PopsFirst : Outbox E → Outbox E × Option (UniMessage E) → Type 0
  PopsFirst outbox (left, none) = (pending outbox ≡ []) × (left ≡ outbox)
  PopsFirst outbox (left, some message) = pending outbox ≡ message ∷ pending left

  popped :
      (outbox : Outbox E) (m : Option (Membership E)) (s : Option StatusReport)
      (a : BTreeMap Text Announce)
      → PopsFirst
          (record outbox { membership = m; status = s; announces = a })
          (pop (record outbox { membership = m; status = s; announces = a }))
  unfolding pop
  popped outbox (some m) s a = refl
  popped outbox none (some s) a = refl
  popped outbox none none [] = (refl, refl)
  popped outbox none none (e ∷ a) = refl

  pub pop-PopsFirst : (outbox : Outbox E) → PopsFirst outbox (pop outbox)
  pop-PopsFirst outbox = popped outbox outbox.membership outbox.status outbox.announces

  -- The sender sends everything that waits: the membership first, then the status report, then the
  -- announcements by repo name; one round for each message and one more are enough, and nothing is left.
  pub send_all_lem :
      (outbox : Outbox E) (fuel : ℕ)
      → length (pending outbox) < fuel
      → ((send_all fuel outbox).1 ≡ (pending outbox, true))
        × (pending (send_all fuel outbox).0 ≡ [])
  unfolding send_all
  send_all_lem outbox zero h = absurd (omega arith)
  send_all_lem outbox (suc fuel) h = (
    ground (arith, pop-PopsFirst outbox, send_all_lem (pop outbox).0 fuel),
    ground (arith, pop-PopsFirst outbox, send_all_lem (pop outbox).0 fuel),
  )
