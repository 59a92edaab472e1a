-- ===== src/Daemon/Hub/Inbox/Watermark.antt =====
-- The watermarks of the slots, and announcements out of order.
use jj_mesh.Prelude.{
  BTreeMap, get, insert, Above, Sorted, get-insert, insert-Sorted, ext, eqb, eqb_refl, eqb_sound,
  Ord, nat_ord, bool_ord, pair_ord, list_ord, option_ord, reverse_ord, if◌then◌else◌, ℕ, ◌≤◌, ◌<◌,
  ◌≡◌, refl, ◌≢◌, true, false, Option, none, some, [], ◌∷◌, arith,
}
use jj_mesh.Config.Membership.Peers.{peer_register}
use jj_mesh.Config.Membership.Repos.{repo_register}
use jj_mesh.Config.Claims.{claims_register}
use jj_mesh.Daemon.Hub.Inbox.Defs.{
  Heads, holds, drain_slots, drain, advance, offer, retract, requeue_slots, requeue, Slot, Inbox,
}

abbrev pub seq_or_zero : Option Slot → ℕ
seq_or_zero none = 0
seq_or_zero (some slot) = slot.seq

-- The slot of a peer after one of its announcements
abbrev pub latest : Option Slot → Slot → Option Slot
latest held slot = if holds held slot.seq then held else some slot

latest_comm :
    (held : Option Slot) (a b : Slot)
    → a.seq ≢ b.seq
    → latest (latest held a) b ≡ latest (latest held b) a
latest_comm none a b ne = ground arith
latest_comm (some h) a b ne = ground arith

-- A drained slot
abbrev pub marked : Option Slot → Option Slot
marked none = none
marked (some slot) = some (record slot { drained = true })

seq_marked : (held : Option Slot) → seq_or_zero held ≤ seq_or_zero (marked held)
seq_marked none = omega arith
seq_marked (some slot) = omega arith

marked_self : (slot : Slot) → slot.drained ≡ true → record slot { drained = true } ≡ slot
marked_self slot h = ground arith

module _ {E : Type 0} ⦃oe : Ord E⦄ where
  pub get-advance :
      (slots : BTreeMap E Slot) (from : E) (slot : Slot) (j : E)
      → get j (advance slots from slot).0
        ≡ (if eqb from j then latest (get j slots) slot else get j slots)
  unfolding advance
  get-advance slots from slot j =
      ground (arith, get-insert j from slot slots, eqb_sound from j, eqb_refl from)

  pub advance-Sorted :
      (slots : BTreeMap E Slot) (from : E) (slot : Slot)
      → Sorted slots
      → Sorted (advance slots from slot).0
  unfolding advance
  advance-Sorted slots from slot s = ground (arith, insert-Sorted from slot slots s)

  pub requeue_slots-Sorted :
      (slots : BTreeMap E Slot) (from : E) (seq : ℕ) (heads : Heads)
      → Sorted slots
      → Sorted (requeue_slots slots from seq heads)
  unfolding requeue_slots
  requeue_slots-Sorted slots from seq heads s =
      ground
        (arith, insert-Sorted from (record { seq = seq; heads = heads; drained = false }) slots s)

  pub get-drain_slots :
      (slots : BTreeMap E Slot) (j : E) → get j (drain_slots slots).0 ≡ marked (get j slots)
  unfolding drain_slots get
  get-drain_slots [] j = refl
  get-drain_slots (e ∷ slots) j = ground (arith, get-drain_slots slots j, marked_self (e.1))

  -- Announcements and retractions of different sequence numbers may arrive in any order, from one peer or
  -- from two: the slots come out the same.
  pub advance_order :
      (slots : BTreeMap E Slot) (p q : E) (a b : Slot)
      → Sorted slots
      → a.seq ≢ b.seq
      → (advance (advance slots p a).0 q b).0 ≡ (advance (advance slots q b).0 p a).0
  advance_order slots p q a b s ne =
      ext (advance (advance slots p a).0 q b).0 (advance (advance slots q b).0 p a).0
        (advance-Sorted (advance slots p a).0 q b (advance-Sorted slots p a s))
        (advance-Sorted (advance slots q b).0 p a (advance-Sorted slots q b s))
        (λ j. ground (
          arith,
          get-advance (advance slots p a).0 q b j,
          get-advance slots p a j,
          get-advance (advance slots q b).0 p a j,
          get-advance slots q b j,
          latest_comm (get j slots) a b ne,
        ))

  -- After a retraction nothing that the peer announced up to it comes in, and everything after it does.
  pub retract_lem :
      (inbox : Inbox E) (from : E) (seq late : ℕ) (heads : Heads)
      → seq_or_zero (get from inbox.slots) < seq
      → (late ≤ seq
          → (offer (retract inbox from seq) from late heads).slots ≡ (retract inbox from seq).slots)
        × (seq < late
            → get from (offer (retract inbox from seq) from late heads).slots
              ≡ some (record { seq = late; heads = heads; drained = false }))
  unfolding advance
  retract_lem inbox from seq late heads h = ground (
    arith,
    get-insert from from (record { seq = seq; heads = []; drained = true }) inbox.slots,
    get-insert from from (record { seq = late; heads = heads; drained = false })
        (insert from (record { seq = seq; heads = []; drained = true }) inbox.slots),
    eqb_refl from,
  )

  latest_grows :
      (slots : BTreeMap E Slot) (from : E) (slot : Slot) (j : E)
      → seq_or_zero (get j slots) ≤ seq_or_zero (get j (advance slots from slot).0)
  latest_grows slots from slot j = ground (arith, get-advance slots from slot j)

  -- No operation but a new connection lowers the watermark of a peer.
  pub watermark_grows :
      (inbox : Inbox E) (from j : E) (seq : ℕ) (heads : Heads)
      → let before = seq_or_zero (get j inbox.slots) in
        (before ≤ seq_or_zero (get j (offer inbox from seq heads).slots))
        × (before ≤ seq_or_zero (get j (retract inbox from seq).slots))
        × (before ≤ seq_or_zero (get j (requeue inbox from seq heads).slots))
        × (before ≤ seq_or_zero (get j (drain inbox).0.slots))
  unfolding requeue_slots
  watermark_grows inbox from j seq heads = (
    latest_grows inbox.slots from (record { seq = seq; heads = heads; drained = false }) j,
    latest_grows inbox.slots from (record { seq = seq; heads = []; drained = true }) j,
    ground (
      arith,
      get-insert j from (record { seq = seq; heads = heads; drained = false }) inbox.slots,
      eqb_sound from j,
    ),
    rw (get-drain_slots inbox.slots j) (seq_marked (get j inbox.slots)),
  )

  drain_slots-Above :
      (k : E) (slots : BTreeMap E Slot) → Above k slots → Above k (drain_slots slots).0
  unfolding drain_slots
  drain_slots-Above k [] h = tt
  drain_slots-Above k (e ∷ slots) h = ground (arith, drain_slots-Above k slots h.1)

  pub drain_slots-Sorted : (slots : BTreeMap E Slot) → Sorted slots → Sorted (drain_slots slots).0
  unfolding drain_slots
  drain_slots-Sorted [] s = tt
  drain_slots-Sorted (e ∷ slots) s =
      ground (arith, drain_slots-Sorted slots s.1, drain_slots-Above (e.0) slots s.0)
