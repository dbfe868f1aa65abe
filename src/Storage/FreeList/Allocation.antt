-- ===== src/Storage/FreeList/Allocation.antt =====
-- What `allocate` takes, and what it leaves.
use wrela.Prelude.{
  ℕ, ◌+◌, ◌≤◌, ◌<◌, ◌≡◌, ◌⊎◌, inl, inr, refl, false, Bool, ◌||◌, Bool-cases, List, [], ◌∷◌, Option,
  none, some, All, length, ltb, ◌==◌, arith,
}
use wrela.Storage.FreeList.{
  Extent, FreeExtentList, allocate_in, allocate, keep_front, no_extent, allocated_or_none,
}
use wrela.Storage.FreeList.Spaced.{
  end_of, Ascends, IsFreeList, IsApart, Ascends-le, Ascends-IsApart, covers,
}

abbrev pub covers_one : ℕ → Extent → Bool
covers_one lba e = covers lba (e ∷ [])

-- `none`: no extent is large enough. Otherwise the allocated extent has the size asked for, and
-- the free blocks before are those allocated and those free after, which are apart.
abbrev Allocates : ℕ → ℕ → List Extent → Option (Extent × List Extent) → Type 0
Allocates low count es none = All (λ e. e.block_count < count) es
Allocates low count es (some (a, rest)) =
    Ascends 1 low rest
    × (length rest ≤ length es)
    × (a.block_count ≡ count)
    × (low ≤ a.start_lba)
    × IsApart a rest
    × ((lba : ℕ) → covers lba es ≡ (covers_one lba a || covers lba rest))

keep_front-Allocates :
    (low count : ℕ) (x : Extent) (xs : List Extent) (o : Option (Extent × List Extent))
    → x.block_count < count
    → Ascends 1 low (x ∷ xs)
    → Allocates (end_of x + 1) count xs o
    → Allocates low count (x ∷ xs) (keep_front x o)
unfolding covers
keep_front-Allocates low count x xs none h a s = (h, s)
keep_front-Allocates low count x xs (some (e, rest)) h a (s, l, c, b, d, f) = (
  (a.0, a.1, a.2, s),
  omega arith,
  c,
  omega arith,
  (inr (omega arith), d),
  λ lba. ground (arith, f lba),
)

allocate_in-Allocates :
    (low count : ℕ) (es : List Extent)
    → 0 < count
    → Ascends 1 low es
    → Allocates low count es (allocate_in es count)
unfolding allocate_in covers
allocate_in-Allocates low count [] h a = tt
allocate_in-Allocates low count (x ∷ xs) h a = elim (Bool-cases (ltb x.block_count count)) [
  | inl small ↦ rw small (
      keep_front-Allocates low count x xs (allocate_in xs count) (ground arith) a
        (allocate_in-Allocates (end_of x + 1) count xs h a.3))
  | inr large ↦ elim (Bool-cases (x.block_count == count)) [
    | inl same ↦
        rw (large, same)
          (
            Ascends-le 1 low (end_of x + 1) xs (omega arith) a.3,
            omega arith,
            refl,
            a.0,
            Ascends-IsApart 1 (end_of x + 1)
                (record { start_lba = x.start_lba; block_count = count }) xs (ground arith) a.3,
            λ lba. ground arith,
          )
    | inr more ↦
        rw (large, more)
          (
            (
              ground arith,
              ground arith,
              ground arith,
              Ascends-le 1 _ (end_of x + 1) xs (ground arith) a.3,
            ),
            omega arith,
            refl,
            a.0,
            (
              ground arith,
              Ascends-IsApart 1 (end_of x + 1)
                  (record { start_lba = x.start_lba; block_count = count }) xs (ground arith) a.3,
            ),
            λ lba. ground arith,
          )
  ]
]

abbrev pub AllocatesFrom : FreeExtentList → ℕ → FreeExtentList × Extent → Type 0
AllocatesFrom l count (l', a) =
    IsFreeList l'
    × (l'.capacity ≡ l.capacity)
    × (((a ≡ no_extent) × (l' ≡ l) × All (λ e. e.block_count < count) l.extents)
        ⊎ ((a.block_count ≡ count)
            × IsApart a l'.extents
            × ((lba : ℕ) → covers lba l.extents ≡ (covers_one lba a || covers lba l'.extents))))

AllocatesFrom-of_Allocates :
    (l : FreeExtentList) (count : ℕ) (o : Option (Extent × List Extent))
    → IsFreeList l
    → Allocates 0 count l.extents o
    → AllocatesFrom l count (allocated_or_none l o)
unfolding allocated_or_none
AllocatesFrom-of_Allocates l count none i s = (i, refl, inl (refl, refl, s))
AllocatesFrom-of_Allocates l count (some (a, rest)) i (s, n, c, b, d, f) =
    (record { spaced = s; bounded = omega (arith, i.bounded) }, refl, inr (c, d, f))

-- For a request of at least one block, on a list within its capacity whose extents are sorted and
-- apart, this invariant is kept, and either the extent that is
-- returned has the size asked for, is apart from what stays free, and each block that was free
-- is either in it or still free, and no other is; or the answer is the zero extent, no free extent
-- was large enough, and nothing has changed.
pub allocate-AllocatesFrom :
    (l : FreeExtentList) (count : ℕ)
    → 0 < count
    → IsFreeList l
    → AllocatesFrom l count (allocate l count)
unfolding allocate
allocate-AllocatesFrom l count h i =
    let positive : (count == 0) ≡ false = ground arith in
    rw positive (
      AllocatesFrom-of_Allocates l count (allocate_in l.extents count) i
        (allocate_in-Allocates 0 count l.extents h i.spaced))
