-- ===== src/Storage/FreeList.antt =====
-- The free-extent list of compiler/storagefmt/format.go: first-fit allocation, and release with
-- coalescing and a bound on the number of extents.
pub mod Spaced
pub mod Allocation
pub mod Coalesced
pub mod Release
use wrela.Prelude.{
  ℕ, ◌+◌, ◌-◌, Bool, ◌||◌, List, [], ◌∷◌, ◌++◌, Option, none, some, ◌==◌, ltb, if◌then◌else◌, take,
  add64,
}
use wrela.Prelude.Sorting.{sort_by}

pub record Extent : Type 0 where
  pub start_lba : ℕ
  pub block_count : ℕ

pub record FreeExtentList : Type 0 where
  pub capacity : ℕ
  pub extents : List Extent

abbrev pub no_extent : Extent
no_extent = record { start_lba = 0; block_count = 0 }

abbrev pub new_free_extent_list : ℕ → FreeExtentList
new_free_extent_list capacity = record { capacity = capacity; extents = [] }

abbrev keep_front {ℓ} : {A : Type ℓ} → Extent → Option (A × List Extent) → Option (A × List Extent)
keep_front e none = none
keep_front e (some (a, rest)) = some (a, e ∷ rest)

-- The loop of `Allocate`: what is allocated, and the extents that are left.
unfoldable pub allocate_in : List Extent → ℕ → Option (Extent × List Extent)
allocate_in [] count = none
allocate_in (e ∷ es) count =
    let later = keep_front e (allocate_in es count) in
    let allocated : Extent = record { start_lba = e.start_lba; block_count = count } in
    if ltb e.block_count count
    then later
    else if e.block_count == count
    then some (allocated, es)
    else some (
      allocated,
      record { start_lba = add64 e.start_lba count; block_count = e.block_count - count } ∷ es,
    )

allocated_or_none : FreeExtentList → Option (Extent × List Extent) → FreeExtentList × Extent
allocated_or_none l none = (l, no_extent)
allocated_or_none l (some (e, rest)) = (record l { extents = rest }, e)

-- `Allocate`; the zero extent means that nothing was allocated.
unfoldable pub allocate : FreeExtentList → ℕ → FreeExtentList × Extent
unfolding allocate_in allocated_or_none
allocate l count =
    if count == 0 then (l, no_extent) else allocated_or_none l (allocate_in l.extents count)

-- The coalescing loop of `Free`, behind the first extent; `last` is the end of `coalesced`.
unfoldable pub coalesce_onto : Extent → List Extent → List Extent
coalesce_onto last [] = last ∷ []
coalesce_onto last (current ∷ rest) =
    let merged =
      coalesce_onto (record last { block_count = add64 last.block_count current.block_count })
        rest in
    let apart = last ∷ coalesce_onto current rest in
    if add64 last.start_lba last.block_count == current.start_lba then merged else apart

unfoldable pub coalesce : List Extent → List Extent
unfolding coalesce_onto
coalesce [] = []
coalesce (e ∷ es) = coalesce_onto e es

abbrev pub start_of : Extent → ℕ
start_of e = e.start_lba

-- `Free`
unfoldable pub free : FreeExtentList → Extent → FreeExtentList
unfolding sort_by coalesce
free l extent = if extent.block_count == 0 || l.capacity == 0 then l else record l {
  extents = take l.capacity (coalesce (sort_by start_of (l.extents ++ extent ∷ [])));
}
