-- ===== src/Pecoff/Align.antt =====
-- Rounding up to a power of two, by masks.
use wrela.Prelude.{ℕ, ◌+◌, ◌-◌, ◌%◌, ◌≤◌, ◌<◌, ◌≡◌, IsU64, arith}
use wrela.Masks.{bit_and-ones}
use wrela.Pecoff.{align_up, section_alignment}

-- A whole number of pages, the least that is enough.
pub align_up_page :
    (value : ℕ)
    → IsU64 (value + 4096)
    → (value ≤ align_up value section_alignment)
      × (align_up value section_alignment < value + 4096)
      × (align_up value section_alignment % 4096 ≡ 0)
unfolding align_up
align_up_page value u = ground (arith, bit_and-ones 12 (value + 4096 - 1))
