-- ===== src/Layout.antt =====
-- Record layout: compiler/layout/record.go. Offsets and sizes are Go's `int`, which 16 bytes a field
-- do not exceed, so they are plain numbers; they are never negative.
pub mod Placement
use wrela.Prelude.{
  ℕ, ◌+◌, ◌-◌, ◌%◌, Bool, true, false, List, [], ◌∷◌, Option, none, some, ◌==◌, ltb, leb,
  if◌then◌else◌,
}
use wrela.Bytes.{Bytes, bytes_eq}

pub record Field : Type 0 where
  pub name : Bytes
  pub type_name : Bytes

pub record FieldLayout : Type 0 where
  pub offset : ℕ
  pub size : ℕ
  pub align : ℕ

-- The map `Fields` is the list of its assignments, the latest first.
pub record Record : Type 0 where
  pub fields : List (Bytes × FieldLayout)
  pub size : ℕ
  pub align : ℕ

-- `AlignUp`
unfoldable pub align_up : ℕ → ℕ → ℕ
align_up value align =
    if leb align 1
    then value
    else if value % align == 0
    then value
    else value + (align - value % align)

abbrev known_types : List (Bytes × ℕ × ℕ)
known_types =
    ((b'B' ∷ b'o' ∷ b'o' ∷ b'l' ∷ []), 1, 1)
    ∷ ((b'U' ∷ b'8' ∷ []), 1, 1)
    ∷ ((b'U' ∷ b'1' ∷ b'6' ∷ []), 2, 2)
    ∷ ((b'U' ∷ b'3' ∷ b'2' ∷ []), 4, 4)
    ∷ ((b'U' ∷ b'6' ∷ b'4' ∷ []), 8, 8)
    ∷ ((b'I' ∷ b'6' ∷ b'4' ∷ []), 8, 8)
    ∷ (
      (b'P' ∷ b'h' ∷ b'y' ∷ b's' ∷ b'i' ∷ b'c' ∷ b'a' ∷ b'l' ∷ b'A' ∷ b'd' ∷ b'd' ∷ b'r' ∷ b'e'
          ∷ b's' ∷ b's' ∷ []),
      8,
      8,
    )
    ∷ (
      (b'V' ∷ b'i' ∷ b'r' ∷ b't' ∷ b'u' ∷ b'a' ∷ b'l' ∷ b'A' ∷ b'd' ∷ b'd' ∷ b'r' ∷ b'e' ∷ b's'
          ∷ b's' ∷ []),
      8,
      8,
    )
    ∷ (
      (b'S' ∷ b't' ∷ b'r' ∷ b'i' ∷ b'n' ∷ b'g' ∷ b'L' ∷ b'i' ∷ b't' ∷ b'e' ∷ b'r' ∷ b'a' ∷ b'l'
          ∷ []),
      16,
      8,
    )
    ∷ ((b'd' ∷ b'a' ∷ b't' ∷ b'a' ∷ []), 8, 8)
    ∷ ((b'c' ∷ b'l' ∷ b'a' ∷ b's' ∷ b's' ∷ []), 8, 8)
    ∷ ((b'd' ∷ b'r' ∷ b'i' ∷ b'v' ∷ b'e' ∷ b'r' ∷ []), 8, 8)
    ∷ ((b'p' ∷ b'a' ∷ b't' ∷ b'h' ∷ []), 8, 8)
    ∷ ((b'e' ∷ b'x' ∷ b'e' ∷ b'c' ∷ b'u' ∷ b't' ∷ b'o' ∷ b'r' ∷ []), 8, 8)
    ∷ []

abbrev pub size_align_in : List (Bytes × ℕ × ℕ) → Bytes → ℕ × ℕ
size_align_in [] type_name = (8, 8)
size_align_in ((known, size, align) ∷ more) type_name =
    if bytes_eq known type_name then (size, align) else size_align_in more type_name

-- `SizeAlign`; it gives an error for no name.
unfoldable pub size_align : Bytes → Option (ℕ × ℕ)
size_align type_name = some (size_align_in known_types type_name)

-- The loop of `Compute`: the fields so far, the offset and the alignment of the record.
pub record Progress : Type 0 where
  pub fields : List (Bytes × FieldLayout)
  pub offset : ℕ
  pub align : ℕ

unfoldable pub place : Progress → Field → ℕ × ℕ → Progress
place p f (size, align) =
    let offset = align_up p.offset align in
    record {
      fields = (f.name, record { offset = offset; size = size; align = align }) ∷ p.fields;
      offset = offset + size;
      align = if ltb p.align align then align else p.align;
    }

unfoldable pub compute_loop : Progress → List Field → Option Progress
compute_loop p [] = some p
compute_loop p (f ∷ fs) = elim (size_align f.type_name) [
  | none ↦ none
  | some sized ↦ compute_loop (place p f sized) fs
]

abbrev pub start : Progress
start = record { fields = []; offset = 0; align = 1 }

abbrev pub finished : Option Progress → Option Record
finished none = none
finished (some p) =
    some (record { fields = p.fields; size = align_up p.offset p.align; align = p.align })

-- `Compute`
unfoldable pub compute : List Field → Option Record
unfolding compute_loop
compute fields = finished (compute_loop start fields)
