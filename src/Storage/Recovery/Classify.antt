-- ===== src/Storage/Recovery/Classify.antt =====
-- `classify` finds a unit of the log exactly where one stands.
use wrela.Prelude.{
  ℕ, ◌+◌, ◌==◌, true, ◌↔◌, ◌≤◌, ◌<◌, ◌≡◌, ◌≢◌, refl, sym, subst, false, ◌⊎◌, inl, inr, List, [],
  ◌∷◌, ◌++◌, none, some, length, take, length-take, length-append, take-append, add64, IsU64, arith,
}
use Prim.Native.Nat.{bit_and}
use wrela.Storage.Slot.{
  Slot, EventSlotHeader, slot_checksum, slot_checksum_valid, is_reserved_empty_slot,
}
use wrela.Storage.Recovery.{
  RecoveryStopReason, clean_eof, checksum_mismatch, Head, stop, empty_slot, group, check_members,
  classify, storage_max_atomic_group_slots,
}
use wrela.Storage.Recovery.Log.{IsEmptyAt, AreMembers, IsGroupAt}

eq_iff : (a b : ℕ) → ((a == b) ≡ true) ↔ (a ≡ b)
eq_iff a b = ground arith

pub slot_checksum_valid_iff :
    (x : Slot) → (slot_checksum_valid x ≡ true) ↔ (x.header.checksum32 ≡ slot_checksum x)
unfolding slot_checksum_valid
slot_checksum_valid_iff x = eq_iff x.header.checksum32 (slot_checksum x)

-- The test of a reserved slot, field by field.
reserved_iff :
    (h : EventSlotHeader)
    → (is_reserved_empty_slot h ≡ true) ↔ (
        (h.event_type_id ≡ 0)
        × (h.payload_layout_id ≡ 0)
        × (h.stream_id ≡ 0)
        × (h.stream_sequence ≡ 0)
        × (h.atomic_group_len ≡ 0)
        × (h.atomic_group_index ≡ 0)
        × (h.payload_length ≡ 0)
        × (bit_and h.flags 1 ≢ 0))
unfolding is_reserved_empty_slot
reserved_iff h = ground arith

check_members_sound :
    (n e j : ℕ) (xs : List Slot) → check_members n e j xs ≡ none → AreMembers n e j xs
unfolding check_members
check_members_sound n e j [] h = tt
check_members_sound n e j (x ∷ xs) h =
    ground (arith, slot_checksum_valid_iff x, check_members_sound n e (j + 1) xs)

check_members_complete :
    (n e j : ℕ) (xs : List Slot) → AreMembers n e j xs → check_members n e j xs ≡ none
unfolding check_members
check_members_complete n e j [] h = refl
check_members_complete n e j (x ∷ xs) h =
    ground (arith, slot_checksum_valid_iff x, check_members_complete n e (j + 1) xs)

pub classify_empty_sound :
    (e : ℕ) (x : Slot) (xs : List Slot) → classify e x xs ≡ empty_slot → IsEmptyAt e x
unfolding classify
classify_empty_sound e x xs h = ground (arith, slot_checksum_valid_iff x, reserved_iff x.header)

pub classify_empty_complete :
    (e : ℕ) (x : Slot) (xs : List Slot) → IsEmptyAt e x → classify e x xs ≡ empty_slot
unfolding classify
classify_empty_complete e x xs h = ground (arith, slot_checksum_valid_iff x, reserved_iff x.header)

-- What the tests of a round leave open when a group is found.
classify_group :
    (e : ℕ) (x : Slot) (xs : List Slot) (n : ℕ)
    → classify e x xs ≡ group n
    → (0 < n)
      × (n ≤ storage_max_atomic_group_slots)
      × (n ≤ length (x ∷ xs))
      × (check_members n e 0 (take n (x ∷ xs)) ≡ none)
unfolding classify
classify_group e x xs n h = ground arith

pub classify_group_sound :
    (e : ℕ) (x : Slot) (xs : List Slot) (n : ℕ)
    → classify e x xs ≡ group n
    → (length (take n (x ∷ xs)) ≡ n) × IsGroupAt e (take n (x ∷ xs))
classify_group_sound e x xs n h =
    let (pos, small, fits, clean) = classify_group e x xs n h in
    let size : length (take n (x ∷ xs)) ≡ n = omega (arith, length-take n (x ∷ xs)) in
    (
      size,
      record {
        nonempty = omega arith;
        bounded = omega arith;
        members =
            subst (λ k. AreMembers k e 0 (take n (x ∷ xs))) (sym size)
              (check_members_sound n e 0 (take n (x ∷ xs)) clean);
      },
    )

pub classify_group_complete :
    (e : ℕ) (x : Slot) (ys rest : List Slot)
    → IsU64 e
    → IsGroupAt e (x ∷ ys)
    → classify e x (ys ++ rest) ≡ group (length (x ∷ ys))
unfolding classify
classify_group_complete e x ys rest u g =
    let all : List Slot = x ∷ ys in
    let cut : take (length all) (all ++ rest) ≡ all = take-append all rest (length all) refl in
    let clean = check_members_complete (length all) e 0 all g.members in
    let count = length-append all rest in
    let bounded = g.bounded in
    let head = g.members.0 in
    let sized : x.header.atomic_group_len ≡ length all = head.sized in
    let first : x.header.event_id ≡ add64 e 0 = head.numbered in
    let valid = (slot_checksum_valid_iff x).1 head.checked in ground arith

check_members-ne-clean_eof : (n e j : ℕ) (xs : List Slot) → check_members n e j xs ≢ some clean_eof
unfolding check_members
check_members-ne-clean_eof n e j [] h = cc
check_members-ne-clean_eof n e j (x ∷ xs) h =
    ground (arith, check_members-ne-clean_eof n e (j + 1) xs)

-- A stop is never reported as a clean end.
pub classify-ne-clean_eof : (e : ℕ) (x : Slot) (xs : List Slot) → classify e x xs ≢ stop clean_eof
unfolding classify
classify-ne-clean_eof e x xs h = ground (
  arith,
  check_members-ne-clean_eof x.header.atomic_group_len e 0
      (take x.header.atomic_group_len (x ∷ xs)),
)

-- A slot that fails its checksum stops the recovery with that reason.
pub classify_torn :
    (e : ℕ) (x : Slot) (xs : List Slot)
    → slot_checksum_valid x ≡ false
    → classify e x xs ≡ stop checksum_mismatch
unfolding classify
classify_torn e x xs h = ground arith

pub Head-cases :
    (h : Head)
    → ((why : RecoveryStopReason) × (h ≡ stop why)) ⊎ (h ≡ empty_slot) ⊎ ((n : ℕ) × (h ≡ group n))
Head-cases (stop why) = inl (why, refl)
Head-cases empty_slot = inr (inl refl)
Head-cases (group n) = inr (inr (n, refl))
