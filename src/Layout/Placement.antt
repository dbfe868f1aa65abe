-- ===== src/Layout/Placement.antt =====
-- The fields of a record do not overlap and are aligned.
use wrela.Prelude.{
  ℕ, ◌+◌, ◌%◌, ◌≤◌, ◌<◌, ◌≡◌, ◌⊎◌, inl, inr, refl, ap, ◌∙◌, Bool-cases, List, [], ◌∷◌, some, ltb,
  map, All, if◌then◌else◌, arith,
}
use wrela.Bytes.{Bytes, bytes_eq}
use wrela.Layout.{
  Field, FieldLayout, Record, Progress, align_up, size_align, size_align_in, known_types, place,
  compute_loop, start, finished, compute,
}

-- The alignments that occur.
abbrev pub IsAlign : ℕ → Type 0
IsAlign a = (a ≡ 1) ⊎ (a ≡ 2) ⊎ (a ≡ 4) ⊎ (a ≡ 8)

align_up_bounds :
    (value align : ℕ)
    → IsAlign align
    → (value ≤ align_up value align)
      × (align_up value align < value + align)
      × (align_up value align % align ≡ 0)
unfolding align_up
align_up_bounds value align h = ground arith

abbrev IsSized : Bytes × ℕ × ℕ → Type 0
IsSized entry = (0 < entry.1) × IsAlign entry.2

size_align_in-IsSized :
    (table : List (Bytes × ℕ × ℕ)) (type_name : Bytes)
    → All IsSized table
    → (0 < (size_align_in table type_name).0) × IsAlign (size_align_in table type_name).1
size_align_in-IsSized [] type_name h = ground arith
size_align_in-IsSized (entry ∷ more) type_name h = elim (Bool-cases (bytes_eq entry.0 type_name)) [
  | inl e ↦ rw e h.0
  | inr e ↦ rw e (size_align_in-IsSized more type_name h.1)
]

known_types-IsSized : All IsSized known_types
known_types-IsSized = ground arith

-- The fields, the latest first: each is aligned, not empty, and ends before `limit` and before the
-- field that was placed after it; no alignment exceeds that of the record.
abbrev pub Placed : ℕ → ℕ → List (Bytes × FieldLayout) → Type 0
Placed limit align [] = Unit
Placed limit align ((name, f) ∷ fs) =
    (f.offset + f.size ≤ limit)
    × (0 < f.size)
    × (f.offset % f.align ≡ 0)
    × (f.align ≤ align)
    × IsAlign f.align
    × Placed f.offset align fs

Placed-le :
    (limit more align wider : ℕ) (fs : List (Bytes × FieldLayout))
    → limit ≤ more
    → align ≤ wider
    → Placed limit align fs
    → Placed more wider fs
Placed-le limit more align wider [] h k p = tt
Placed-le limit more align wider ((name, f) ∷ fs) h k p = (
  omega arith,
  p.1,
  p.2,
  omega (arith, p.3),
  p.4,
  Placed-le f.offset f.offset align wider fs (omega arith) k p.5,
)

record IsProgress (p : Progress) : Type 0 where
  placed : Placed p.offset p.align p.fields
  alignment : IsAlign p.align

place-IsProgress :
    (p : Progress) (f : Field) (sized : ℕ × ℕ)
    → 0 < sized.0
    → IsAlign sized.1
    → IsProgress p
    → IsProgress (place p f sized)
unfolding place
place-IsProgress p f (size, align) pos a w =
    let (up, near, exact) = align_up_bounds p.offset align a in
    let wider = if ltb p.align align then align else p.align in
    let own : align ≤ wider = ground arith in
    let old : p.align ≤ wider = ground arith in
    record {
      placed = (
        omega arith,
        pos,
        exact,
        own,
        a,
        Placed-le p.offset (align_up p.offset align) p.align wider p.fields up old w.placed,
      );
      alignment = ground (arith, w.alignment);
    }

-- The names of the fields, the latest first.
abbrev pub names_onto : List Bytes → List Field → List Bytes
names_onto names [] = names
names_onto names (f ∷ fs) = names_onto (f.name ∷ names) fs

-- A record with all of its fields placed.
pub record IsRecord (fields : List Field) (r : Record) : Type 0 where
  pub placed : Placed r.size r.align r.fields
  pub alignment : IsAlign r.align
  pub whole : r.size % r.align ≡ 0
  pub complete : map (λ f. f.0) r.fields ≡ names_onto [] fields

compute_loop-IsProgress :
    (p : Progress) (fs : List Field)
    → IsProgress p
    → (q : Progress) × (compute_loop p fs ≡ some q)
      × IsProgress q
      × (map (λ f. f.0) q.fields ≡ names_onto (map (λ f. f.0) p.fields) fs)
unfolding compute_loop size_align
compute_loop-IsProgress p [] w = (p, refl, w, refl)
compute_loop-IsProgress p (f ∷ fs) w =
    let sized = size_align_in known_types f.type_name in
    let (pos, a) = size_align_in-IsSized known_types f.type_name known_types-IsSized in
    let (q, e, good, names) =
      compute_loop-IsProgress (place p f sized) fs (place-IsProgress p f sized pos a w) in
    (q, e, good, names ∙ unfold place in refl)

-- Every list of fields has a layout. It has an entry for each field, the latest first; the entries
-- are aligned, none overlaps another or reaches behind the end of the record, and the size of the
-- record is a multiple of its alignment.
pub compute-IsRecord :
    (fields : List Field) → (r : Record) × (compute fields ≡ some r) × IsRecord fields r
unfolding compute
compute-IsRecord fields =
    let (q, e, w, names) =
      compute_loop-IsProgress start fields (record { placed = tt; alignment = inl refl }) in
    let (up, near, exact) = align_up_bounds q.offset q.align w.alignment in
    let r : Record = record {
      fields = q.fields;
      size = align_up q.offset q.align;
      align = q.align;
    } in
    (
      r,
      ap finished e,
      record {
        placed = Placed-le q.offset r.size q.align q.align q.fields up (omega arith) w.placed;
        alignment = w.alignment;
        whole = exact;
        complete = names;
      },
    )
