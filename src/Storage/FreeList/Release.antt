-- ===== src/Storage/FreeList/Release.antt =====
-- What `free` gives back.
use wrela.Prelude.{
  ℕ, zero, suc, ◌+◌, ◌≤◌, ◌<◌, ◌≡◌, ◌⊎◌, inl, inr, refl, sym, ap, ◌∙◌, true, false, ◌||◌, List, [],
  ◌∷◌, ◌++◌, length, length-append, length-take, take, ◌==◌, arith,
}
use wrela.Prelude.Sorting.{sort_by}
use wrela.Storage.FreeList.{Extent, FreeExtentList, start_of, coalesce, free}
use wrela.Storage.FreeList.Spaced.{
  end_of, Ascends, IsFreeList, IsApart, Ascends-IsApart, covers, covers-append, IsApart-append,
}
use wrela.Storage.FreeList.Allocation.{covers_one}
use wrela.Storage.FreeList.Coalesced.{
  IsExtent, ArePairwiseApart, sort_by-Ascends, sort_by-covers, coalesce_lem, length-coalesce,
  length-sort_by,
}

take-Ascends : (gap low n : ℕ) (xs : List Extent) → Ascends gap low xs → Ascends gap low (take n xs)
take-Ascends gap low zero xs a = tt
take-Ascends gap low (suc n) [] a = tt
take-Ascends gap low (suc n) (x ∷ xs) a =
    (a.0, a.1, a.2, take-Ascends gap (end_of x + gap) n xs a.3)

take_all {ℓ} : {A : Type ℓ} (n : ℕ) (xs : List A) → length xs ≤ n → take n xs ≡ xs
take_all zero [] h = refl
take_all zero (x ∷ xs) h = absurd (omega arith)
take_all (suc n) [] h = refl
take_all (suc n) (x ∷ xs) h = ap (◌∷◌ x) (take_all n xs (omega arith))

covers-take : (lba n : ℕ) (xs : List Extent) → covers lba (take n xs) ≡ true → covers lba xs ≡ true
unfolding covers
covers-take lba zero xs h = cc
covers-take lba (suc n) [] h = h
covers-take lba (suc n) (x ∷ xs) h = ground (arith, covers-take lba n xs)

IsApart_symm :
    (e x : Extent)
    → (end_of e ≤ x.start_lba) ⊎ (end_of x ≤ e.start_lba)
    → (end_of x ≤ e.start_lba) ⊎ (end_of e ≤ x.start_lba)
IsApart_symm e x (inl h) = inr h
IsApart_symm e x (inr h) = inl h

ArePairwiseApart-append :
    (low : ℕ) (e : Extent) (xs : List Extent)
    → Ascends 1 low xs
    → IsExtent e
    → IsApart e xs
    → ArePairwiseApart (xs ++ e ∷ [])
ArePairwiseApart-append low e [] a v h = (v, tt, tt)
ArePairwiseApart-append low e (x ∷ xs) a v h = (
  record { positive = a.1; ends = a.2 },
  IsApart-append x xs (e ∷ []) (Ascends-IsApart 1 (end_of x + 1) x xs (omega arith) a.3)
      (IsApart_symm e x h.0, tt),
  ArePairwiseApart-append (end_of x + 1) e xs a.3 v h.1,
)

merged-covers :
    (lba : ℕ) (l : FreeExtentList) (e : Extent)
    → Ascends 0 0 (sort_by start_of (l.extents ++ e ∷ []))
    → covers lba (coalesce (sort_by start_of (l.extents ++ e ∷ [])))
      ≡ (covers lba l.extents || covers_one lba e)
merged-covers lba l e up =
    (coalesce_lem lba (sort_by start_of (l.extents ++ e ∷ [])) up).1
    ∙ sort_by-covers lba (l.extents ++ e ∷ [])
    ∙ covers-append lba l.extents (e ∷ [])

-- What `free` has done with an extent.
pub record Releases (l : FreeExtentList) (e : Extent) (l' : FreeExtentList) : Type 0 where
  pub invariant : IsFreeList l'
  pub invents_nothing :
      (lba : ℕ) → covers lba l'.extents ≡ true → (covers lba l.extents || covers_one lba e) ≡ true

-- On a list with the invariant and a nonzero capacity, freeing a nonempty extent that ends below
-- 2^64 and is apart from the free ones keeps the invariant, and only blocks
-- of the extent or of the old list are free after it.
pub free-Releases :
    (l : FreeExtentList) (e : Extent)
    → IsFreeList l
    → IsExtent e
    → IsApart e l.extents
    → 0 < l.capacity
    → Releases l e (free l e)
unfolding free
free-Releases l e i v h c =
    let all = l.extents ++ e ∷ [] in
    let sorted = sort_by start_of all in
    let up = sort_by-Ascends all (ArePairwiseApart-append 0 e l.extents i.spaced v h) in
    let merged = coalesce sorted in
    let guard : (e.block_count == 0 || l.capacity == 0) ≡ false = ground (arith, v.positive) in
    rw guard (record {
      invariant = record {
        spaced = take-Ascends 1 0 l.capacity merged (coalesce_lem 0 sorted up).0;
        bounded = omega (arith, length-take l.capacity merged);
      };
      invents_nothing =
          λ lba t. sym (merged-covers lba l e up) ∙ covers-take lba l.capacity merged t;
    })

-- While a list with the invariant has room for one more extent, freeing one that is nonempty, ends
-- below 2^64 and is apart from the free ones makes exactly its blocks free besides those that were.
pub free-covers :
    (l : FreeExtentList) (e : Extent) (lba : ℕ)
    → IsFreeList l
    → IsExtent e
    → IsApart e l.extents
    → length l.extents < l.capacity
    → covers lba (free l e).extents ≡ (covers lba l.extents || covers_one lba e)
unfolding free
free-covers l e lba i v h room =
    let all = l.extents ++ e ∷ [] in
    let sorted = sort_by start_of all in
    let up = sort_by-Ascends all (ArePairwiseApart-append 0 e l.extents i.spaced v h) in
    let merged = coalesce sorted in
    let size : length merged ≤ length l.extents + 1 =
      omega (arith, length-coalesce sorted, length-sort_by all, length-append l.extents (e ∷ [])) in
    let guard : (e.block_count == 0 || l.capacity == 0) ≡ false = ground (arith, v.positive) in
    rw guard (rw (take_all l.capacity merged (omega arith)) (merged-covers lba l e up))
