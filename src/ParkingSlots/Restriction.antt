-- ===== src/ParkingSlots/Restriction.antt =====
-- The restriction of one slot and of a selection, in parking-slot.service.ts.
use smart_parking_management.Prelude.{
  true, false, ◌≡◌, refl, List, [], ◌∷◌, arith, length, find_many, update_many, any, Forall₂,
  Bool-cases, inl, inr, if◌then◌else◌,
}
use smart_parking_management.Schema.{Db, ParkingSlot}
use smart_parking_management.Action.{ok, Succeeds}
use smart_parking_management.Environment.{AuthenticatedUser}
use smart_parking_management.ParkingSlots.{
  BulkUpdateSlotStatusDto, restrict, is_in_use, is_selected, selected, bulk_update_status,
}

-- A slot before and after a restriction of a selection.
abbrev pub Restricted : BulkUpdateSlotStatusDto → ParkingSlot → ParkingSlot → Type 0
Restricted dto a b =
    (b ≡ (if is_selected dto a then restrict dto.update a else a))
    × (is_in_use a.status ≡ true → b ≡ a)

Restricted-update :
    (dto : BulkUpdateSlotStatusDto) (slots : List ParkingSlot)
    → any (λ s. is_in_use s.status) (find_many (is_selected dto) slots) ≡ false
    → Forall₂ (Restricted dto) slots (update_many (is_selected dto) (restrict dto.update) slots)
Restricted-update dto [] h = tt
Restricted-update dto (s ∷ ss) h = elim (Bool-cases (is_selected dto s)) [
  | inl chosen ↦ ((refl, λ used. absurd (ground arith)), Restricted-update dto ss (ground arith))
  | inr left ↦ ((refl, λ used. rw left), Restricted-update dto ss (ground arith))
]

module _ (dto : BulkUpdateSlotStatusDto) (requester : AuthenticatedUser) (db : Db) where
  bulk_guards :
      Succeeds (bulk_update_status dto requester db).0
      → ((bulk_update_status dto requester db).0 ≡ ok (length dto.slot_ids))
        × ((bulk_update_status dto requester db).1.slots
            ≡ update_many (is_selected dto) (restrict dto.update) db.slots)
        × (any (λ s. is_in_use s.status) (selected dto db) ≡ false)
  unfolding bulk_update_status
  bulk_guards h = ground arith

  -- A selection that is updated is updated as a whole: the call reports as many slots as were asked
  -- for, gives every selected one the new status and reason, and leaves every other slot, and every
  -- slot that is in use, as it was.
  pub bulk_update_status_done :
      Succeeds (bulk_update_status dto requester db).0
      → ((bulk_update_status dto requester db).0 ≡ ok (length dto.slot_ids))
        × Forall₂ (Restricted dto) db.slots (bulk_update_status dto requester db).1.slots
  bulk_update_status_done h =
      let (done, rows, idle) = bulk_guards h in
      (done, rw rows (Restricted-update dto db.slots idle))
