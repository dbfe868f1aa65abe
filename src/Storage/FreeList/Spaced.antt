-- ===== src/Storage/FreeList/Spaced.antt =====
-- The invariant of the free list: its extents ascend, with a gap between neighbours.
use wrela.Prelude.{
  ℕ, ◌+◌, ◌≤◌, ◌<◌, ◌≡◌, ◌⊎◌, inl, refl, false, Bool, ◌&&◌, ◌||◌, List, [], ◌∷◌, ◌++◌, IsU64,
  length, leb, ltb, arith,
}
use wrela.Storage.FreeList.{Extent, FreeExtentList}

abbrev pub end_of : Extent → ℕ
end_of e = e.start_lba + e.block_count

-- Ascending from `low` on; `gap` is 1 where neighbours may not touch, and 0 where they may.
abbrev pub Ascends : ℕ → ℕ → List Extent → Type 0
Ascends gap low [] = Unit
Ascends gap low (e ∷ es) =
    (low ≤ e.start_lba) × (0 < e.block_count) × IsU64 (end_of e) × Ascends gap (end_of e + gap) es

pub record IsFreeList (l : FreeExtentList) : Type 0 where
  pub spaced : Ascends 1 0 l.extents
  pub bounded : length l.extents ≤ l.capacity

-- No block of `e` is a block of one of the extents.
abbrev pub IsApart : Extent → List Extent → Type 0
IsApart e [] = Unit
IsApart e (x ∷ xs) = ((end_of e ≤ x.start_lba) ⊎ (end_of x ≤ e.start_lba)) × IsApart e xs

pub Ascends-le :
    (gap low high : ℕ) (es : List Extent) → low ≤ high → Ascends gap high es → Ascends gap low es
Ascends-le gap low high [] h a = tt
Ascends-le gap low high (e ∷ es) h a = (omega arith, a.1, a.2, a.3)

-- What ascends behind the end of an extent is apart from it.
pub Ascends-IsApart :
    (gap low : ℕ) (e : Extent) (es : List Extent)
    → end_of e ≤ low
    → Ascends gap low es
    → IsApart e es
Ascends-IsApart gap low e [] h a = tt
Ascends-IsApart gap low e (x ∷ xs) h a =
    (inl (omega arith), Ascends-IsApart gap (end_of x + gap) e xs (omega arith) a.3)

in_extent : ℕ → Extent → Bool
in_extent lba e = leb e.start_lba lba && ltb lba (end_of e)

-- Is the block free?
unfoldable pub covers : ℕ → List Extent → Bool
unfolding in_extent
covers lba [] = false
covers lba (e ∷ es) = in_extent lba e || covers lba es

pub covers-append :
    (lba : ℕ) (xs ys : List Extent) → covers lba (xs ++ ys) ≡ (covers lba xs || covers lba ys)
unfolding covers
covers-append lba [] ys = refl
covers-append lba (x ∷ xs) ys = ground (arith, covers-append lba xs ys)

pub IsApart-append :
    (e : Extent) (xs ys : List Extent) → IsApart e xs → IsApart e ys → IsApart e (xs ++ ys)
IsApart-append e [] ys h k = k
IsApart-append e (x ∷ xs) ys h k = (h.0, IsApart-append e xs ys h.1 k)
