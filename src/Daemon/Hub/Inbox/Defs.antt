-- ===== src/Daemon/Hub/Inbox/Defs.antt =====
-- `Inbox` and its operations. The permit of `tokio::sync::Notify` is a Boolean.
use jj_mesh.Prelude.{
  BTreeMap, get, insert, remove, Ord, nat_ord, bool_ord, pair_ord, list_ord, option_ord,
  reverse_ord, leb, ◌==◌, if◌then◌else◌, is_empty, ℕ, Bool, true, false, ◌&&◌, ◌||◌, Option, none,
  some, List, [], ◌∷◌,
}
use jj_mesh.Config.Membership.Peers.{peer_register}
use jj_mesh.Config.Membership.Repos.{repo_register}
use jj_mesh.Config.Claims.{claims_register}

-- The op heads of a repo: raw id bytes
abbrev pub Heads : Type 0
Heads = List (List ℕ)

pub record PeerAnnounce (E : Type 0) : Type 0 where
  pub from : E
  pub seq : ℕ
  pub heads : Heads

pub record Slot : Type 0 where
  pub seq : ℕ
  pub heads : Heads
  pub drained : Bool

pub record Inbox (E : Type 0) : Type 0 where
  pub slots : BTreeMap E Slot
  pub notified : Bool

-- `Inbox::default`
abbrev pub empty_inbox : {E : Type 0} → Inbox E
empty_inbox = record { slots = []; notified = false }

abbrev pub holds : Option Slot → ℕ → Bool
holds none seq = false
holds (some held) seq = leb seq held.seq

abbrev pub with_heads : {E : Type 0} → List (E × Slot) → List (E × Heads)
with_heads [] = []
with_heads (e ∷ es) =
    if is_empty (e.1.heads) then with_heads es else (e.0, e.1.heads) ∷ with_heads es

abbrev pub announced : {E : Type 0} → E × Slot → PeerAnnounce E
announced e = record { from = e.0; seq = e.1.seq; heads = e.1.heads }

-- The announcements that a drain takes, and the slots that it leaves
unfoldable pub drain_slots :
    {E : Type 0} → BTreeMap E Slot → BTreeMap E Slot × List (PeerAnnounce E)
drain_slots [] = ([], [])
drain_slots (e ∷ m) =
    let (slots, taken) = drain_slots m in
    if e.1.drained
    then (e ∷ slots, taken)
    else ((e.0, record (e.1) { drained = true }) ∷ slots, announced e ∷ taken)

-- `snapshot`
unfoldable pub snapshot : {E : Type 0} → Inbox E → List (E × Heads)
snapshot inbox = with_heads inbox.slots

-- `Inbox::drain`
abbrev pub drain : {E : Type 0} → Inbox E → Inbox E × List (PeerAnnounce E)
drain inbox =
    let (slots, taken) = drain_slots inbox.slots in (record inbox { slots = slots }, taken)

-- The test of `requeue`
abbrev pub awaits : Option Slot → ℕ → Bool
awaits none seq = false
awaits (some slot) seq = (slot.seq == seq) && slot.drained

module _ {E : Type 0} ⦃oe : Ord E⦄ where
  -- `advance`: the slots afterwards, and whether the watermark advanced
  unfoldable pub advance : BTreeMap E Slot → E → Slot → BTreeMap E Slot × Bool
  advance slots from slot =
      if holds (get from slots) slot.seq then (slots, false) else (insert from slot slots, true)

  abbrev pub offer : Inbox E → E → ℕ → Heads → Inbox E
  offer inbox from seq heads =
      let slot : Slot = record { seq = seq; heads = heads; drained = false } in
      let (slots, advanced) = advance inbox.slots from slot in
      record { slots = slots; notified = inbox.notified || advanced }

  -- `Inbox::forget`
  abbrev pub forget : Inbox E → E → Inbox E
  forget inbox from = record inbox { slots = remove from inbox.slots }

  abbrev pub retract : Inbox E → E → ℕ → Inbox E
  retract inbox from seq =
      let slot : Slot = record { seq = seq; heads = []; drained = true } in
      record inbox { slots = (advance inbox.slots from slot).0 }

  unfoldable pub requeue_slots : BTreeMap E Slot → E → ℕ → Heads → BTreeMap E Slot
  requeue_slots slots from seq heads =
      if awaits (get from slots) seq
      then insert from (record { seq = seq; heads = heads; drained = false }) slots
      else slots

  abbrev pub requeue : Inbox E → E → ℕ → Heads → Inbox E
  requeue inbox from seq heads = record inbox { slots = requeue_slots inbox.slots from seq heads }
