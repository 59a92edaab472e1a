-- ===== src/Daemon/Hub/Inbox/Delivery.antt =====
-- The lemmas on `drain` and `requeue`.
use jj_mesh.Prelude.{
  BTreeMap, get, Sorted, get-insert, get-Above, eqb, eqb_refl, eqb_sound, Ord, nat_ord, bool_ord,
  pair_ord, list_ord, option_ord, reverse_ord, if◌then◌else◌, ℕ, ◌≡◌, refl, ap, ◌∙◌, ◌≢◌, true,
  false, Option, none, some, List, [], ◌∷◌, arith,
}
use jj_mesh.Config.Membership.Peers.{peer_register}
use jj_mesh.Config.Membership.Repos.{repo_register}
use jj_mesh.Config.Claims.{claims_register}
use jj_mesh.Daemon.Hub.Inbox.Defs.{
  Heads, with_heads, announced, drain_slots, snapshot, drain, requeue_slots, requeue, PeerAnnounce,
  Slot, Inbox,
}
use jj_mesh.Daemon.Hub.Inbox.Watermark.{
  marked, requeue_slots-Sorted, get-drain_slots, drain_slots-Sorted,
}

-- A slot with the same contents, before and after a drain
pub with_heads-drain_slots :
    {E : Type 0} (slots : BTreeMap E Slot) → with_heads (drain_slots slots).0 ≡ with_heads slots
unfolding drain_slots
with_heads-drain_slots [] = refl
with_heads-drain_slots (e ∷ slots) = ground (arith, with_heads-drain_slots slots)

-- A drain changes nothing that the peers last announced: the announcements that move to the orphan store on
-- unregistration are the same before and after it.
pub snapshot-drain : {E : Type 0} (inbox : Inbox E) → snapshot (drain inbox).0 ≡ snapshot inbox
unfolding snapshot
snapshot-drain inbox = with_heads-drain_slots inbox.slots

drain_slots_again :
    {E : Type 0} (slots : BTreeMap E Slot)
    → drain_slots (drain_slots slots).0 ≡ ((drain_slots slots).0, [])
unfolding drain_slots
drain_slots_again [] = refl
drain_slots_again (e ∷ slots) = ground (arith, drain_slots_again slots)

-- A second drain finds nothing and changes nothing.
pub drain_again : {E : Type 0} (inbox : Inbox E) → drain (drain inbox).0 ≡ ((drain inbox).0, [])
drain_again inbox = ground (arith, drain_slots_again inbox.slots)

-- What a drain takes from a slot
abbrev pub undrained : {E : Type 0} → E → Option Slot → Option (PeerAnnounce E)
undrained j none = none
undrained j (some slot) = if slot.drained then none else some (announced (j, slot))

module _ {E : Type 0} ⦃oe : Ord E⦄ where
  -- The announcement of a peer among those taken
  abbrev pub taken_from : E → List (PeerAnnounce E) → Option (PeerAnnounce E)
  taken_from j [] = none
  taken_from j (a ∷ rest) = if eqb a.from j then some a else taken_from j rest

  taken_from_absent :
      (j : E) (slots : BTreeMap E Slot)
      → get j slots ≡ none
      → taken_from j (drain_slots slots).1 ≡ none
  unfolding drain_slots get
  taken_from_absent j [] h = refl
  taken_from_absent j (e ∷ slots) h = ground (arith, taken_from_absent j slots)

  taken_from-drain_slots :
      (j : E) (slots : BTreeMap E Slot)
      → Sorted slots
      → taken_from j (drain_slots slots).1 ≡ undrained j (get j slots)
  unfolding drain_slots get
  taken_from-drain_slots j [] s = refl
  taken_from-drain_slots j (e ∷ slots) s = ground (
    arith,
    taken_from-drain_slots j slots s.1,
    taken_from_absent (e.0) slots (get-Above (e.0) slots s.0),
    eqb_sound (e.0) j,
  )

  drain_taken :
      (inbox : Inbox E) (j : E)
      → Sorted inbox.slots
      → taken_from j (drain inbox).1 ≡ undrained j (get j inbox.slots)
  drain_taken inbox j s = taken_from-drain_slots j inbox.slots s

  -- When the slots are in key order, a drain delivers of every peer the announcement in its slot, unless that
  -- was delivered before, and marks the slot as delivered, with its contents kept; a second drain delivers nothing
  -- and changes nothing.
  pub drain_lem :
      (inbox : Inbox E) (j : E)
      → Sorted inbox.slots
      → (taken_from j (drain inbox).1 ≡ undrained j (get j inbox.slots))
        × (get j (drain inbox).0.slots ≡ marked (get j inbox.slots))
        × (drain (drain inbox).0 ≡ ((drain inbox).0, []))
  drain_lem inbox j s = (drain_taken inbox j s, get-drain_slots inbox.slots j, drain_again inbox)

  requeue_drained :
      (slots : BTreeMap E Slot) (j : E) (slot : Slot)
      → get j slots ≡ some (record slot { drained = true })
      → get j (requeue_slots slots j slot.seq slot.heads) ≡ some (record slot { drained = false })
  unfolding requeue_slots
  requeue_drained slots j slot h =
      ground (arith, get-insert j j (record slot { drained = false }) slots, eqb_refl j)

  requeue_stale :
      (inbox : Inbox E) (j : E) (slot : Slot) (seq : ℕ) (heads : Heads)
      → get j inbox.slots ≡ some slot
      → seq ≢ slot.seq
      → requeue inbox j seq heads ≡ inbox
  unfolding requeue_slots
  requeue_stale inbox j slot seq heads h ne = ground arith

  -- When the slots are in key order, an announcement that a fetch failed to apply is delivered again by the next drain, and put back it
  -- displaces nothing that came in meanwhile: a slot of another sequence number stays as it is.
  pub requeue_lem :
      (inbox : Inbox E) (j : E) (slot : Slot)
      → Sorted inbox.slots
      → get j inbox.slots ≡ some slot
      → (taken_from j (drain (requeue (drain inbox).0 j slot.seq slot.heads)).1
          ≡ some (announced (j, slot)))
        × ((seq : ℕ) (heads : Heads) → seq ≢ slot.seq → requeue inbox j seq heads ≡ inbox)
  requeue_lem inbox j slot s h =
      let held : get j (drain inbox).0.slots ≡ some (record slot { drained = true }) =
        rw (get-drain_slots inbox.slots j, h) in
      let back = requeue (drain inbox).0 j slot.seq slot.heads in
      let restored : get j back.slots ≡ some (record slot { drained = false }) =
        requeue_drained (drain inbox).0.slots j slot held in
      (
        drain_taken back j (
              requeue_slots-Sorted (drain inbox).0.slots j slot.seq slot.heads
                (drain_slots-Sorted inbox.slots s))
            ∙ ap (undrained j) restored,
        λ seq heads ne. requeue_stale inbox j slot seq heads h ne,
      )
