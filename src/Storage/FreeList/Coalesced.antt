-- ===== src/Storage/FreeList/Coalesced.antt =====
-- What sorting and coalescing do to the blocks of a free list.
use wrela.Prelude.{
  ℕ, suc, ◌+◌, ◌≤◌, ◌<◌, ◌≡◌, inl, inr, refl, ◌∙◌, Bool-cases, List, [], ◌∷◌, IsU64, length, leb,
  ◌==◌, add64, arith,
}
use wrela.Prelude.Sorting.{insert_by, sort_by}
use wrela.Storage.FreeList.{Extent, start_of, coalesce_onto, coalesce}
use wrela.Storage.FreeList.Spaced.{end_of, Ascends, IsApart, Ascends-le, covers}

-- An extent that `free` may be given.
pub record IsExtent (e : Extent) : Type 0 where
  pub positive : 0 < e.block_count
  pub ends : IsU64 (end_of e)

IsApart-insert_by :
    (e x : Extent) (xs : List Extent) → IsApart e (x ∷ xs) → IsApart e (insert_by start_of x xs)
unfolding insert_by
IsApart-insert_by e x [] h = h
IsApart-insert_by e x (y ∷ ys) h = elim (Bool-cases (leb x.start_lba y.start_lba)) [
  | inl b ↦ rw b h
  | inr b ↦ rw b (h.1.0, IsApart-insert_by e x ys (h.0, h.1.1))
]

insert_by-Ascends :
    (low : ℕ) (e : Extent) (xs : List Extent)
    → IsExtent e
    → low ≤ e.start_lba
    → IsApart e xs
    → Ascends 0 low xs
    → Ascends 0 low (insert_by start_of e xs)
unfolding insert_by
insert_by-Ascends low e [] v h k a = (h, v.positive, v.ends, tt)
insert_by-Ascends low e (x ∷ xs) v h k a = elim (Bool-cases (leb e.start_lba x.start_lba)) [
  | inl b ↦ rw b (h, v.positive, v.ends, (ground arith, a.1, a.2, a.3))
  | inr b ↦ rw b (a.0, a.1, a.2, insert_by-Ascends (end_of x + 0) e xs v (ground arith) k.1 a.3)
]

insert_by-covers :
    (lba : ℕ) (e : Extent) (xs : List Extent)
    → covers lba (insert_by start_of e xs) ≡ covers lba (e ∷ xs)
unfolding insert_by covers
insert_by-covers lba e [] = refl
insert_by-covers lba e (x ∷ xs) = ground (arith, insert_by-covers lba e xs)

-- Extents that are pairwise apart.
abbrev pub ArePairwiseApart : List Extent → Type 0
ArePairwiseApart [] = Unit
ArePairwiseApart (e ∷ es) = IsExtent e × IsApart e es × ArePairwiseApart es

sort_by-IsApart : (e : Extent) (xs : List Extent) → IsApart e xs → IsApart e (sort_by start_of xs)
unfolding sort_by
sort_by-IsApart e [] h = tt
sort_by-IsApart e (x ∷ xs) h =
    IsApart-insert_by e x (sort_by start_of xs) (h.0, sort_by-IsApart e xs h.1)

pub sort_by-Ascends : (xs : List Extent) → ArePairwiseApart xs → Ascends 0 0 (sort_by start_of xs)
unfolding sort_by
sort_by-Ascends [] h = tt
sort_by-Ascends (x ∷ xs) (v, k, h) =
    insert_by-Ascends 0 x (sort_by start_of xs) v (omega arith) (sort_by-IsApart x xs k)
      (sort_by-Ascends xs h)

pub covers-cons :
    (lba : ℕ) (e : Extent) (xs ys : List Extent)
    → covers lba xs ≡ covers lba ys
    → covers lba (e ∷ xs) ≡ covers lba (e ∷ ys)
unfolding covers
covers-cons lba e xs ys h = ground arith

-- Two extents that meet cover what their union covers.
covers_merged :
    (lba n : ℕ) (e x : Extent) (xs : List Extent)
    → n ≡ e.block_count + x.block_count
    → end_of e ≡ x.start_lba
    → covers lba (record e { block_count = n } ∷ xs) ≡ covers lba (e ∷ x ∷ xs)
unfolding covers
covers_merged lba n e x xs h m = ground arith

pub sort_by-covers : (lba : ℕ) (xs : List Extent) → covers lba (sort_by start_of xs) ≡ covers lba xs
unfolding sort_by
sort_by-covers lba [] = refl
sort_by-covers lba (x ∷ xs) =
    insert_by-covers lba x (sort_by start_of xs)
    ∙ covers-cons lba x (sort_by start_of xs) xs (sort_by-covers lba xs)

coalesce_onto-Ascends :
    (low : ℕ) (e : Extent) (xs : List Extent)
    → Ascends 0 low (e ∷ xs)
    → Ascends 1 low (coalesce_onto e xs)
unfolding coalesce_onto
coalesce_onto-Ascends low e [] a = (a.0, a.1, a.2, tt)
coalesce_onto-Ascends low e (x ∷ xs) a =
    elim (Bool-cases (add64 e.start_lba e.block_count == x.start_lba)) [
      | inl b ↦
          let size : add64 e.block_count x.block_count ≡ e.block_count + x.block_count =
            omega (arith, a) in
          let meet : end_of e ≡ x.start_lba = ground arith in
          rw (b, size)
            (coalesce_onto-Ascends low _ xs
              (a.0, omega arith, omega (arith, a), Ascends-le 0 _ _ xs (omega (arith, a)) a.3.3))
      | inr b ↦
          let gap : end_of e + 1 ≤ x.start_lba = ground arith in
          rw b (a.0, a.1, a.2, coalesce_onto-Ascends (end_of e + 1) x xs (gap, a.3.1, a.3.2, a.3.3))
    ]

coalesce_onto-covers :
    (lba low : ℕ) (e : Extent) (xs : List Extent)
    → Ascends 0 low (e ∷ xs)
    → covers lba (coalesce_onto e xs) ≡ covers lba (e ∷ xs)
unfolding coalesce_onto
coalesce_onto-covers lba low e [] a = refl
coalesce_onto-covers lba low e (x ∷ xs) a =
    elim (Bool-cases (add64 e.start_lba e.block_count == x.start_lba)) [
      | inl b ↦
          let size : add64 e.block_count x.block_count ≡ e.block_count + x.block_count =
            omega (arith, a) in
          let meet : end_of e ≡ x.start_lba = ground arith in
          rw (b, size)
            (coalesce_onto-covers lba low _ xs
                (a.0, omega arith, omega (arith, a), Ascends-le 0 _ _ xs (omega (arith, a)) a.3.3)
              ∙ covers_merged lba _ e x xs refl meet)
      | inr b ↦ rw b (
          covers-cons lba e (coalesce_onto x xs) (x ∷ xs)
            (coalesce_onto-covers lba (end_of e + 0) x xs a.3))
    ]

pub coalesce_lem :
    (lba : ℕ) (xs : List Extent)
    → Ascends 0 0 xs
    → Ascends 1 0 (coalesce xs) × (covers lba (coalesce xs) ≡ covers lba xs)
unfolding coalesce
coalesce_lem lba [] a = (tt, refl)
coalesce_lem lba (x ∷ xs) a = (coalesce_onto-Ascends 0 x xs a, coalesce_onto-covers lba 0 x xs a)

length-coalesce_onto :
    (e : Extent) (xs : List Extent) → length (coalesce_onto e xs) ≤ suc (length xs)
unfolding coalesce_onto
length-coalesce_onto e [] = omega arith
length-coalesce_onto e (x ∷ xs) = ground (
  arith,
  length-coalesce_onto x xs,
  length-coalesce_onto (record e { block_count = add64 e.block_count x.block_count }) xs,
)

pub length-coalesce : (xs : List Extent) → length (coalesce xs) ≤ length xs
unfolding coalesce
length-coalesce [] = omega arith
length-coalesce (x ∷ xs) = length-coalesce_onto x xs

length-insert_by :
    (e : Extent) (xs : List Extent) → length (insert_by start_of e xs) ≡ suc (length xs)
unfolding insert_by
length-insert_by e [] = refl
length-insert_by e (x ∷ xs) = ground (arith, length-insert_by e xs)

pub length-sort_by : (xs : List Extent) → length (sort_by start_of xs) ≡ length xs
unfolding sort_by
length-sort_by [] = refl
length-sort_by (x ∷ xs) = omega (arith, length-insert_by x (sort_by start_of xs), length-sort_by xs)
