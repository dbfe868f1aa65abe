-- ===== src/Storage/Packing/Batch.antt =====
-- A finished batch fills whole blocks with as few empty slots as possible; a segment is found
-- where one holds the event.
use wrela.Prelude.{
  ℕ, ◌+◌, ◌-◌, ◌*◌, ◌/◌, ◌%◌, ◌≤◌, ◌<◌, ◌≡◌, refl, inl, inr, List, [], ◌∷◌, ◌++◌, Option, none,
  some, IsU64, All, false, ◌&&◌, if◌then◌else◌, ap, ==_iff, arith, leb, ◌==◌, Bool-cases,
}
use wrela.Storage.Packing.{finish_batch, EventSegment, find_segment_for_event_id}
use wrela.Storage.Slot.{event_slot_size}
use native.Mathlib.Nat.{div-add-mod, mod-lt, mul-mod_right, mul-le-mul_left}
use native.Mathlib.Decide.{dec_lt}

-- `n` raised to a multiple of `k`.
raise : ℕ → ℕ → ℕ
raise k n = if n % k == 0 then n else n + (k - n % k)

raise_multiple : (k n : ℕ) → 0 < k → raise k n % k ≡ 0
unfolding raise
raise_multiple k n h = elim (Bool-cases (n % k == 0)) [
  | inl exact ↦ rw exact ((==_iff _ _).0 exact)
  | inr more ↦
      let next : n + (k - n % k) ≡ k * (n / k + 1) = omega (arith, div-add-mod n k, mod-lt n h) in
      rw (more, next) (mul-mod_right k (n / k + 1))
]

raise_least : (k n m : ℕ) → 0 < k → n ≤ m → m % k ≡ 0 → raise k n ≤ m
unfolding raise
raise_least k n m h le e = elim (Bool-cases (n % k == 0)) [
  | inl exact ↦ rw exact le
  | inr more ↦ rw more (elim (dec_lt (n / k) (m / k)) [
    | yes p ↦ omega (arith, div-add-mod n k, div-add-mod m k, mod-lt n h, mul-le-mul_left k p)
    | no p ↦ absurd (
        omega
          (arith, positive more, div-add-mod n k, div-add-mod m k, mul-le-mul_left k (at_most p)))
  ])
]
  where
    positive : (n % k == 0) ≡ false → 0 < n % k
    positive b = ground arith

    at_most : ¬ (n / k < m / k) → m / k ≤ n / k
    at_most q = omega arith

raise_bounds : (k n : ℕ) → 0 < k → (n ≤ raise k n) × (raise k n < n + k)
unfolding raise
raise_bounds k n h = ground (arith, mod-lt n h)

finish_batch-raise :
    (lba n : ℕ)
    → IsU64 (n + lba)
    → 0 < lba / event_slot_size
    → finish_batch lba n ≡ record {
      semantic_slots = n;
      reserved_empty_slots = raise (lba / event_slot_size) n - n;
      total_slot_positions = raise (lba / event_slot_size) n;
    }
unfolding finish_batch raise
finish_batch-raise lba n u h = ground (arith, mod-lt n h)

-- With blocks of at least one slot, and no overflow of 64 bits, the total is a multiple of the slots per block, and it is the
-- slots of the batch and the empty ones, which are fewer than the slots of a block.
pub finish_batch_lem :
    (lba n : ℕ)
    → IsU64 (n + lba)
    → event_slot_size ≤ lba
    → let b = finish_batch lba n in
      let per = lba / event_slot_size in
      (b.total_slot_positions % per ≡ 0)
      × (b.total_slot_positions ≡ n + b.reserved_empty_slots)
      × (b.reserved_empty_slots < per)
finish_batch_lem lba n u h =
    let per = lba / event_slot_size in
    let positive : 0 < per = omega arith in
    let bounds = raise_bounds per n positive in
    rw (finish_batch-raise lba n u positive)
      (raise_multiple per n positive, omega arith, omega arith)

-- With blocks of at least one slot, and no overflow of 64 bits, no multiple of the slots per block that holds the batch is smaller than
-- the total.
pub finish_batch_least :
    (lba n m : ℕ)
    → IsU64 (n + lba)
    → event_slot_size ≤ lba
    → n ≤ m
    → m % (lba / event_slot_size) ≡ 0
    → (finish_batch lba n).total_slot_positions ≤ m
finish_batch_least lba n m u h le e =
    let positive : 0 < lba / event_slot_size = omega arith in
    rw (finish_batch-raise lba n u positive) (raise_least (lba / event_slot_size) n m positive le e)

abbrev pub Holds : ℕ → EventSegment → Type 0
Holds id s = (s.first_event_id ≤ id) × (id ≤ s.last_event_id)

abbrev pub Finds : ℕ → List EventSegment → Option EventSegment → Type 0
Finds id ss none = All (λ s. ¬ Holds id s) ss
Finds id ss (some s) =
    Holds id s
    × ((front : List EventSegment) × (back : List EventSegment) × (ss ≡ front ++ s ∷ back)
        × All (λ x. ¬ Holds id x) front)

-- The first segment that holds the event id is found, and none only if no segment holds it.
pub find_segment-Finds :
    (ss : List EventSegment) (id : ℕ) → Finds id ss (find_segment_for_event_id ss id)
unfolding find_segment_for_event_id
find_segment-Finds [] id = tt
find_segment-Finds (s ∷ ss) id =
    elim (Bool-cases (leb s.first_event_id id && leb id s.last_event_id)) [
      | inl here ↦ rw here (ground arith, ([], ss, refl, tt))
      | inr past ↦ rw past (later (find_segment_for_event_id ss id) (find_segment-Finds ss id) past)
    ]
  where
    later :
        (o : Option EventSegment)
        → Finds id ss o
        → (leb s.first_event_id id && leb id s.last_event_id) ≡ false
        → Finds id (s ∷ ss) o
    later none h past = (λ k. ground arith, h)
    later (some x) (holds, (front, back, splits, none_before)) past =
        (holds, (s ∷ front, back, ap (◌∷◌ s) splits, (λ k. ground arith, none_before)))
