-- ===== src/Topic/Queues.antt =====
-- The sizes of interrupt queues.
use wrela.Prelude.{ℕ, ◌+◌, ◌-◌, ◌*◌, ◌≤◌, ◌≡◌, ◌↔◌, inl, inr, Bool-cases, some, ◌==◌, arith}
use native.Mathlib.Nat.{le-div_iff_mul-le}
use wrela.Topic.{InterruptQueueLayout, interrupt_queue_data_size}

-- An interrupt queue has a size exactly if its header of 32 bytes and its slots take at most
-- 2^63 - 1 bytes, without wrap-around, and then that is its size.
pub interrupt_queue_data_size_iff :
    (q : InterruptQueueLayout) (size : ℕ)
    → (interrupt_queue_data_size q ≡ some size)
      ↔ ((32 + q.capacity * q.payload_size ≡ size) × (size ≤ 9223372036854775807))
unfolding interrupt_queue_data_size
interrupt_queue_data_size_iff q size = elim (Bool-cases (q.payload_size == 0)) [
  | inl e ↦ let empty : q.payload_size ≡ 0 = ground arith in rw empty (ground arith)
  | inr e ↦
      let fits =
        le-div_iff_mul-le {k = q.payload_size} {x = q.capacity} {y = 18446744073709551615 - 32}
          (ground (arith, e)) in
      ground (arith, fits)
]
