-- ===== src/Storage/Regions/Valid.antt =====
-- `validate_regions` decides that the regions are nonempty, lie on the disk and do not overlap.
use wrela.Prelude.{
  ℕ, ◌+◌, ◌≤◌, ◌<◌, ◌≡◌, ◌⊎◌, inl, inr, ◌↔◌, refl, subst, true, add64, Bool-cases, List, [], ◌∷◌,
  IsU64, All, leb, arith,
}
use wrela.Prelude.Sorting.{insert_by, sort_by, AscendsFrom, sort_by-AscendsFrom, All-sort_by}
use wrela.Storage.Regions.{
  Region, offset_of, storage_disk_bytes, validate_ordered, validate_regions,
}

abbrev pub end_of : Region → ℕ
end_of r = r.offset + r.size

-- A region that the disk can hold.
abbrev pub IsOnDisk : Region → Type 0
IsOnDisk r = (0 < r.size) × (end_of r ≤ storage_disk_bytes)

-- No byte of `r` is a byte of one of the regions.
abbrev pub IsApart : Region → List Region → Type 0
IsApart r [] = Unit
IsApart r (x ∷ xs) = ((end_of r ≤ x.offset) ⊎ (end_of x ≤ r.offset)) × IsApart r xs

abbrev pub AreRegions : List Region → Type 0
AreRegions [] = Unit
AreRegions (r ∷ rs) = IsOnDisk r × IsApart r rs × AreRegions rs

-- The fields are `uint64`.
abbrev pub IsRegion : Region → Type 0
IsRegion r = IsU64 r.offset × IsU64 r.size

IsApart-insert_by :
    (r x : Region) (xs : List Region) → IsApart r (insert_by offset_of x xs) ↔ IsApart r (x ∷ xs)
unfolding insert_by
IsApart-insert_by r x [] = (λ h. h, λ h. h)
IsApart-insert_by r x (y ∷ ys) = elim (Bool-cases (leb x.offset y.offset)) [
  | inl b ↦ rw b (λ h. h, λ h. h)
  | inr b ↦
      let (there, back) = IsApart-insert_by r x ys in
      rw b (λ h. ((there h.1).0, (h.0, (there h.1).1)), λ h. (h.1.0, back (h.0, h.1.1)))
]

IsApart-sort_by : (r : Region) (xs : List Region) → IsApart r (sort_by offset_of xs) ↔ IsApart r xs
unfolding sort_by
IsApart-sort_by r [] = (λ h. h, λ h. h)
IsApart-sort_by r (x ∷ xs) =
    let (there, back) = IsApart-insert_by r x (sort_by offset_of xs) in
    let (there', back') = IsApart-sort_by r xs in
    (λ h. let k = there h in (k.0, there' k.1), λ h. back (h.0, back' h.1))

IsApart_symm :
    (r x : Region)
    → (end_of r ≤ x.offset) ⊎ (end_of x ≤ r.offset)
    → (end_of x ≤ r.offset) ⊎ (end_of r ≤ x.offset)
IsApart_symm r x (inl h) = inr h
IsApart_symm r x (inr h) = inl h

AreRegions-insert_by :
    (r : Region) (xs : List Region) → AreRegions (insert_by offset_of r xs) ↔ AreRegions (r ∷ xs)
unfolding insert_by
AreRegions-insert_by r [] = (λ h. h, λ h. h)
AreRegions-insert_by r (x ∷ xs) = elim (Bool-cases (leb r.offset x.offset)) [
  | inl b ↦ rw b (λ h. h, λ h. h)
  | inr b ↦
      let (there, back) = AreRegions-insert_by r xs in
      let (apart, join) = IsApart-insert_by x r xs in
      rw b (
        λ h.
            let a = apart h.1 in
            let k = there h.2 in (k.0, (IsApart_symm x r a.0, k.1), (h.0, a.1, k.2)),
        λ h. (h.2.0, join (IsApart_symm r x h.1.0, h.2.1), back (h.0, h.1.1, h.2.2)),
      )
]

AreRegions-sort_by : (xs : List Region) → AreRegions (sort_by offset_of xs) ↔ AreRegions xs
unfolding sort_by
AreRegions-sort_by [] = (λ h. h, λ h. h)
AreRegions-sort_by (x ∷ xs) =
    let (there, back) = AreRegions-insert_by x (sort_by offset_of xs) in
    let (there', back') = AreRegions-sort_by xs in
    let (apart, join) = IsApart-sort_by x xs in
    (λ h. let k = there h in (k.0, apart k.1, there' k.2), λ h. back (h.0, join h.1, back' h.2))

-- Each region begins at or behind the end of the one before it.
abbrev IsChain : ℕ → List Region → Type 0
IsChain prev_end [] = Unit
IsChain prev_end (r ∷ rs) = (prev_end ≤ r.offset) × IsOnDisk r × IsChain (end_of r) rs

validate_ordered_sound :
    (prev_end : ℕ) (rs : List Region)
    → All IsRegion rs
    → validate_ordered prev_end rs ≡ true
    → IsChain prev_end rs
unfolding validate_ordered
validate_ordered_sound prev_end [] w h = tt
validate_ordered_sound prev_end (r ∷ rs) w h =
    let (end, below, fits, rest) = first in
    (
      below,
      fits,
      validate_ordered_sound (end_of r) rs w.1 (subst (λ e. validate_ordered e rs ≡ true) end rest),
    )
  where
    first :
        (add64 r.offset r.size ≡ end_of r)
        × (prev_end ≤ r.offset)
        × IsOnDisk r
        × (validate_ordered (add64 r.offset r.size) rs ≡ true)
    first = ground arith

validate_ordered_complete :
    (prev_end : ℕ) (rs : List Region) → IsChain prev_end rs → validate_ordered prev_end rs ≡ true
unfolding validate_ordered
validate_ordered_complete prev_end [] c = refl
validate_ordered_complete prev_end (r ∷ rs) c =
    let end : add64 r.offset r.size ≡ end_of r = omega (arith, c) in
    rw end (ground (arith, validate_ordered_complete (end_of r) rs c.2))

IsChain-IsApart :
    (r : Region) (low : ℕ) (rs : List Region) → end_of r ≤ low → IsChain low rs → IsApart r rs
IsChain-IsApart r low [] h c = tt
IsChain-IsApart r low (x ∷ xs) h c =
    (inl (omega arith), IsChain-IsApart r (end_of x) xs (omega arith) c.2)

IsChain-AreRegions : (low : ℕ) (rs : List Region) → IsChain low rs → AreRegions rs
IsChain-AreRegions low [] c = tt
IsChain-AreRegions low (r ∷ rs) c =
    (c.1, IsChain-IsApart r (end_of r) rs (omega arith) c.2, IsChain-AreRegions (end_of r) rs c.2)

IsChain-le : (low high : ℕ) (rs : List Region) → low ≤ high → IsChain high rs → IsChain low rs
IsChain-le low high [] h c = tt
IsChain-le low high (r ∷ rs) h c = (omega arith, c.1, c.2)

-- The regions ascend, so what is apart from `r` and does not begin before it begins behind it.
AreRegions-IsChain :
    (r : Region) (rs : List Region)
    → AscendsFrom offset_of r.offset rs
    → AreRegions (r ∷ rs)
    → IsChain (end_of r) rs
AreRegions-IsChain r [] up h = tt
AreRegions-IsChain r (x ∷ xs) up h =
    (ground (arith, h.1.0), h.2.0, AreRegions-IsChain x xs up.1 h.2)

IsChain-sorted : (rs : List Region) → AscendsFrom offset_of 0 rs → AreRegions rs → IsChain 0 rs
IsChain-sorted [] up h = tt
IsChain-sorted (r ∷ rs) up h = (omega arith, h.0, AreRegions-IsChain r rs up.1 h)

-- On regions whose fields are 64-bit numbers, `ValidateRegions` returns nil exactly when every region is nonempty and ends on the disk, and no
-- two regions share a byte, in whatever order they are given.
pub validate_regions_iff :
    (rs : List Region) → All IsRegion rs → (validate_regions rs ≡ true) ↔ AreRegions rs
unfolding validate_regions
validate_regions_iff rs w =
    let sorted = sort_by offset_of rs in
    (
      λ h. (AreRegions-sort_by rs).0 (
          IsChain-AreRegions 0 sorted
            (validate_ordered_sound 0 sorted (All-sort_by offset_of IsRegion rs w) h)),
      λ h.
          validate_ordered_complete 0 sorted (
            IsChain-sorted sorted (sort_by-AscendsFrom offset_of rs) ((AreRegions-sort_by rs).1 h)),
    )
