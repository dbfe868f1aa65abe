-- ===== src/Storage/Recovery.antt =====
-- `RecoverSlots` of compiler/storagefmt/format.go. The index `i`, which only moves forward, is the
-- suffix `slots[i:]`.
pub mod Log
pub mod Classify
pub mod Refines
use wrela.Prelude.{
  ℕ, zero, suc, ◌+◌, Bool, true, false, not, ◌&&◌, ◌||◌, List, [], ◌∷◌, Option, none, some, ◌==◌,
  ltb, if◌then◌else◌, length, take, drop, add64, sub64,
}
use wrela.Storage.Slot.{Slot, slot_checksum_valid, is_reserved_empty_slot}

pub data RecoveryStopReason : Type 0 where
  clean_eof checksum_mismatch incomplete_atomic_group invalid_empty_slot : RecoveryStopReason

pub record RecoveryResult : Type 0 where
  pub visible_events : ℕ
  pub next_event_id : ℕ
  pub last_committed_group_end : ℕ
  pub stop_reason : RecoveryStopReason

abbrev pub storage_max_atomic_group_slots : ℕ
storage_max_atomic_group_slots = 32

-- What one round of the outer loop finds at the head of the suffix.
pub data Head : Type 0 where
  stop : RecoveryStopReason → Head
  empty_slot : Head
  group : ℕ → Head

-- The loop over the members `slots[i+j]`, from index `j` on.
unfoldable pub check_members : ℕ → ℕ → ℕ → List Slot → Option RecoveryStopReason
check_members group_len expected j [] = none
check_members group_len expected j (m ∷ ms) =
    let rest = check_members group_len expected (j + 1) ms in
    let h = m.header in
    if not (h.event_id == add64 expected j) || not (slot_checksum_valid m)
    then some checksum_mismatch
    else if h.event_type_id == 0
        || not (h.atomic_group_len == group_len)
        || not (h.atomic_group_index == j)
    then some incomplete_atomic_group
    else rest

head_of_check : ℕ → Option RecoveryStopReason → Head
head_of_check n none = group n
head_of_check n (some why) = stop why

-- The tests of one round, in the order of the source.
unfoldable pub classify : ℕ → Slot → List Slot → Head
unfolding head_of_check
classify expected x xs =
    let h = x.header in
    let n = h.atomic_group_len in
    if not (slot_checksum_valid x)
    then stop checksum_mismatch
    else if h.event_type_id == 0
    then (if not (is_reserved_empty_slot h)
        then stop invalid_empty_slot
        else if not (h.event_id == expected)
        then stop checksum_mismatch
        else empty_slot)
    else if not (h.event_id == expected)
    then stop checksum_mismatch
    else if n == 0 || ltb storage_max_atomic_group_slots n || ltb (length (x ∷ xs)) n
    then stop incomplete_atomic_group
    else head_of_check n (check_members n expected 0 (take n (x ∷ xs)))

abbrev pub after_empty : RecoveryResult → RecoveryResult
after_empty r = record r { next_event_id = add64 r.next_event_id 1 }

abbrev pub after_group : ℕ → RecoveryResult → RecoveryResult
after_group n r = record r {
  visible_events = add64 r.visible_events n;
  next_event_id = add64 r.next_event_id n;
  last_committed_group_end = sub64 (add64 r.next_event_id n) 1;
}

-- The outer loop, on fuel; `none` means that the fuel ran out. `expectedEventID` is always the
-- `NextEventID` that the result holds, so it is no variable of its own.
unfoldable pub recover_loop : ℕ → List Slot → RecoveryResult → Option RecoveryResult
recover_loop fuel [] r = some (record r { stop_reason = clean_eof })
recover_loop zero (x ∷ xs) r = none
recover_loop (suc fuel) (x ∷ xs) r = elim (classify r.next_event_id x xs) [
  | stop why ↦ some (record r { stop_reason = why })
  | empty_slot ↦ recover_loop fuel xs (after_empty r)
  | group n ↦ recover_loop fuel (drop n (x ∷ xs)) (after_group n r)
]

abbrev pub recovery_start : RecoveryResult
recovery_start = record {
  visible_events = 0;
  next_event_id = 0;
  last_committed_group_end = 0;
  stop_reason = clean_eof;
}

-- Every round takes a slot at least, so one unit of fuel for each slot is enough.
unfoldable pub recover_slots : List Slot → Option RecoveryResult
unfolding recover_loop
recover_slots slots = recover_loop (length slots) slots recovery_start
