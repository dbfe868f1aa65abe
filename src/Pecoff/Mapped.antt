-- ===== src/Pecoff/Mapped.antt =====
-- The sections of the image in memory: page-aligned, apart, and within the image size.
use wrela.Prelude.{
  ℕ, ◌+◌, ◌%◌, ◌≤◌, ◌<◌, ◌≡◌, refl, ap, true, List, [], ◌∷◌, map, length, All, IsU64, add64, ltb,
  ◌==◌, if◌then◌else◌, arith,
}
use wrela.Pecoff.{
  Section, align_up, section_alignment, section_size, section_limit, assign_rvas_from,
  assign_section_rvas, image_end_from, compute_image_size,
}
use wrela.Pecoff.Align.{align_up_page}

-- The pages that the sections take, from page-aligned addresses on.
abbrev pub room : List Section → ℕ
room [] = 0
room (s ∷ ss) = length s.bytes + 4096 + room ss

-- The first section, if there is one, begins behind `at`.
abbrev pub BeginsAfter : ℕ → List Section → Type 0
BeginsAfter at [] = Unit
BeginsAfter at (s ∷ ss) = at < s.rva

-- Each section begins on a page at or behind `low`; the next one begins behind its first address,
-- and not before the end of its bytes.
abbrev pub Mapped : ℕ → List Section → Type 0
Mapped low [] = Unit
Mapped low (s ∷ ss) =
    (low ≤ s.rva) × (s.rva % 4096 ≡ 0) × BeginsAfter s.rva ss × Mapped (s.rva + length s.bytes) ss

abbrev pub Unplaced : Section → Type 0
Unplaced s = s.rva ≡ 0

Mapped-le : (low high : ℕ) (ss : List Section) → low ≤ high → Mapped high ss → Mapped low ss
Mapped-le low high [] h m = tt
Mapped-le low high (s ∷ ss) h m = (omega (arith, m.0), m.1, m.2, m.3)

Mapped-BeginsAfter : (at low : ℕ) (ss : List Section) → at < low → Mapped low ss → BeginsAfter at ss
Mapped-BeginsAfter at low [] h m = tt
Mapped-BeginsAfter at low (s ∷ ss) h m = omega (arith, m.0)

assign_rvas_from-Mapped :
    (next : ℕ) (ss : List Section)
    → All Unplaced ss
    → next % 4096 ≡ 0
    → IsU64 (next + room ss + 4096)
    → Mapped next (assign_rvas_from next ss)
unfolding assign_rvas_from
assign_rvas_from-Mapped next [] h a u = tt
assign_rvas_from-Mapped next (s ∷ ss) (fresh, h) a u =
    let here : (s.rva == 0) ≡ true = ground arith in
    let size : section_size s ≤ length s.bytes + 1 = ground arith in
    let sum : add64 next (section_size s) ≡ next + section_size s = omega (arith, size) in
    let (up, near, exact) = align_up_page (next + section_size s) (omega (arith, size)) in
    let some_room : 0 < section_size s = ground arith in
    let whole : length s.bytes ≤ section_size s = ground arith in
    let after = align_up (next + section_size s) section_alignment in
    let rest = assign_rvas_from-Mapped after ss h exact (omega (arith, size, near)) in
    rw (here, sum)
      (
        omega arith,
        a,
        Mapped-BeginsAfter next after _ (omega (arith, up, some_room)) rest,
        Mapped-le (next + length s.bytes) after _ (omega (arith, up, whole)) rest,
      )

-- No section reaches behind `top`.
abbrev EndBefore : ℕ → List Section → Type 0
EndBefore top ss = All (λ s. s.rva + length s.bytes ≤ top) ss

EndBefore-le :
    (top more : ℕ) (ss : List Section) → top ≤ more → EndBefore top ss → EndBefore more ss
EndBefore-le top more [] h e = tt
EndBefore-le top more (s ∷ ss) h e = (omega (arith, e.0), EndBefore-le top more ss h e.1)

assign_rvas_from-EndBefore :
    (next : ℕ) (ss : List Section)
    → All Unplaced ss
    → IsU64 (next + room ss + 4096)
    → EndBefore (next + room ss) (assign_rvas_from next ss)
unfolding assign_rvas_from
assign_rvas_from-EndBefore next [] h u = tt
assign_rvas_from-EndBefore next (s ∷ ss) (fresh, h) u =
    let here : (s.rva == 0) ≡ true = ground arith in
    let size : section_size s ≤ length s.bytes + 1 = ground arith in
    let sum : add64 next (section_size s) ≡ next + section_size s = omega (arith, size) in
    let (up, near, exact) = align_up_page (next + section_size s) (omega (arith, size)) in
    let after = align_up (next + section_size s) section_alignment in
    rw (here, sum)
      (
        omega arith,
        EndBefore-le (after + room ss) (next + room (s ∷ ss)) _ (omega (arith, size, near))
            (assign_rvas_from-EndBefore after ss h (omega (arith, size, near))),
      )

image_end_from-covers :
    (end top : ℕ) (ss : List Section)
    → EndBefore top ss
    → IsU64 (top + 8192)
    → end ≤ top + 4096
    → (end ≤ image_end_from end ss)
      × (image_end_from end ss ≤ top + 4096)
      × EndBefore (image_end_from end ss) ss
unfolding image_end_from
image_end_from-covers end top [] e u h = (omega arith, h, tt)
image_end_from-covers end top (s ∷ ss) (e, more) u h =
    let sum : add64 s.rva (length s.bytes) ≡ s.rva + length s.bytes = omega (arith, e) in
    let (up, near, exact) = align_up_page (s.rva + length s.bytes) (omega (arith, e)) in
    let limit : section_limit s ≡ align_up (s.rva + length s.bytes) section_alignment =
      ap (λ n. align_up n section_alignment) sum in
    let further = if ltb end (section_limit s) then section_limit s else end in
    let further_old : end ≤ further = ground arith in
    let further_new : section_limit s ≤ further = ground arith in
    let further_top : further ≤ top + 4096 = ground (arith, limit, near, e, h) in
    let (low, high, rest) = image_end_from-covers further top ss more u further_top in
    (omega (arith, low, further_old), high, (omega (arith, low, further_new, limit, up), rest))

-- Sections that have no address yet, and fit a 64-bit address space with a page to spare for each,
-- keep their bytes and their order; each gets an address on a page of its own, behind the end of
-- the one before it. The image size is a whole number of pages, and no section reaches behind it.
pub assign_section_rvas-Mapped :
    (sections : List Section)
    → All Unplaced sections
    → IsU64 (room sections + 16384)
    → let mapped = assign_section_rvas sections in
      Mapped 4096 mapped
      × All (λ s. s.rva + length s.bytes ≤ compute_image_size mapped) mapped
      × (compute_image_size mapped % 4096 ≡ 0)
      × (map (λ s. s.bytes) mapped ≡ map (λ s. s.bytes) sections)
unfolding assign_section_rvas compute_image_size
assign_section_rvas-Mapped sections h u =
    let mapped = assign_rvas_from 4096 sections in
    let ends = assign_rvas_from-EndBefore 4096 sections h (omega arith) in
    let (low, high, all) =
      image_end_from-covers 0 (4096 + room sections) mapped ends (omega arith) (omega arith) in
    let (up, near, exact) = align_up_page (image_end_from 0 mapped) (omega (arith, high)) in
    (
      assign_rvas_from-Mapped 4096 sections h refl (omega arith),
      EndBefore-le (image_end_from 0 mapped) (align_up (image_end_from 0 mapped) section_alignment)
          mapped up all,
      exact,
      same_bytes sections 4096,
    )
  where
    same_bytes :
        (ss : List Section) (next : ℕ)
        → map (λ s. s.bytes) (assign_rvas_from next ss) ≡ map (λ s. s.bytes) ss
    same_bytes [] next = unfold assign_rvas_from in refl
    same_bytes (s ∷ ss) next = unfold assign_rvas_from in ap (◌∷◌ s.bytes) (same_bytes ss _)
