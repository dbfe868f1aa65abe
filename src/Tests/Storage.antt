-- ===== src/Tests/Storage.antt =====
-- The writer, the free list, the regions and the superblocks (compiler/storagefmt/format.go) at
-- concrete inputs.
use wrela.Prelude.{
  ℕ, ◌+◌, ◌%◌, ◌<◌, ◌≤◌, ◌≡◌, ◌⊎◌, inl, inr, refl, ◌||◌, ◌↔◌, true, false, [], ◌∷◌, All, arith,
}
use wrela.Storage.Writer.{
  WriterPolicy, CommitToken, enqueue_atomic_group_with_reserved, on_durability_completed, sem0114,
  sem0116, rejected, storage_max_atomic_group_slots, storage_max_batch_slots,
}
use wrela.Storage.Writer.Batches.{
  IsBounded, Accepts, enqueue_run, IdsAscend, enqueue_cases, enqueue_run-IdsAscend,
}
use wrela.Storage.Writer.Durability.{IsDurable, on_durability_completed_cases}
use wrela.Storage.FreeList.{Extent, FreeExtentList, allocate, free}
use wrela.Storage.FreeList.Spaced.{IsFreeList, covers}
use wrela.Storage.FreeList.Allocation.{AllocatesFrom, allocate-AllocatesFrom, covers_one}
use wrela.Storage.FreeList.Coalesced.{IsExtent}
use wrela.Storage.FreeList.Release.{Releases, free-Releases, free-covers}
use wrela.Storage.Regions.{default_regions, validate_regions}
use wrela.Storage.Regions.Valid.{AreRegions, IsRegion, validate_regions_iff}
use wrela.Storage.Superblock.{
  Superblock, superblock_checksum, valid, choose_superblock, Chooses, choose_superblock-Chooses,
}
use wrela.Storage.Packing.{EventSegment, finish_batch}
use wrela.Storage.Packing.Batch.{finish_batch_lem}

abbrev writer : WriterPolicy
writer = record {
  next_event_id = 10;
  next_stream_id = 3;
  open_batch_slots = 60;
  durable_frontier = 5;
}

abbrev events : ℕ
events = 20

enqueue_cases_example :
    let (w', r) = enqueue_atomic_group_with_reserved writer events 2 in
    IsBounded w'
    × (((r.accepted ≡ true) × Accepts writer events 2 w' r)
        ⊎ ((r ≡ rejected sem0114)
            × (w' ≡ writer)
            × ((events ≡ 0)
                ⊎ (storage_max_atomic_group_slots < events)
                ⊎ (storage_max_batch_slots < events + 2))))
enqueue_cases_example =
    enqueue_cases writer events 2 (omega arith) (omega arith) (omega arith) (omega arith)

enqueue_run-IdsAscend_example :
    let (w', rs) = enqueue_run writer ((3, 1) ∷ (0, 0) ∷ (32, 0) ∷ []) in
    IsBounded w' × (10 ≤ w'.next_event_id) × IdsAscend 10 rs
enqueue_run-IdsAscend_example =
    enqueue_run-IdsAscend writer ((3, 1) ∷ (0, 0) ∷ (32, 0) ∷ []) (omega arith)
      ((omega arith, omega arith), ((omega arith, omega arith), ((omega arith, omega arith), tt)))
      (omega arith)

abbrev token : CommitToken
token = record {
  first_event_id = 6;
  last_event_id = 8;
  pending_write_count = 2;
  completed_write_count = 2;
  batch_submitted = true;
  flush_required = true;
  flush_completed = true;
  durability_failed = false;
}

on_durability_completed_cases_example :
    let (w', r) = on_durability_completed writer token in
    (writer.durable_frontier ≤ w'.durable_frontier)
    × ((IsDurable token
          × (r.accepted ≡ true)
          × (8 ≤ w'.durable_frontier)
          × ((w'.durable_frontier ≡ 8) ⊎ (w'.durable_frontier ≡ 5))
          × (w'.open_batch_slots ≡ 0)
          × (w'.next_event_id ≡ 10))
        ⊎ ((¬ IsDurable token) × (r.accepted ≡ false) × (r.reject_code ≡ sem0116) × (w' ≡ writer)))
on_durability_completed_cases_example = on_durability_completed_cases writer token

abbrev free_list : FreeExtentList
free_list = record {
  capacity = 3;
  extents =
      record { start_lba = 0; block_count = 4 } ∷ record { start_lba = 10; block_count = 6 } ∷ [];
}

free_list-IsFreeList : IsFreeList free_list
free_list-IsFreeList = record {
  spaced = (omega arith, omega arith, omega arith, (omega arith, omega arith, omega arith, tt));
  bounded = omega arith;
}

-- The gap between the two free extents.
abbrev gap : Extent
gap = record { start_lba = 4; block_count = 6 }

gap-IsExtent : IsExtent gap
gap-IsExtent = record { positive = omega arith; ends = omega arith }

allocate-AllocatesFrom_example : AllocatesFrom free_list 5 (allocate free_list 5)
allocate-AllocatesFrom_example =
    allocate-AllocatesFrom free_list 5 (omega arith) free_list-IsFreeList

free-Releases_example : Releases free_list gap (free free_list gap)
free-Releases_example =
    free-Releases free_list gap free_list-IsFreeList gap-IsExtent
      (inr (omega arith), (inl (omega arith), tt)) (omega arith)

free-covers_example :
    covers 7 (free free_list gap).extents ≡ (covers 7 free_list.extents || covers_one 7 gap)
free-covers_example =
    free-covers free_list gap 7 free_list-IsFreeList gap-IsExtent
      (inr (omega arith), (inl (omega arith), tt)) (omega arith)

default_regions-All : All IsRegion default_regions
default_regions-All = ground arith

validate_regions_iff_example :
    (validate_regions default_regions ≡ true) ↔ AreRegions default_regions
validate_regions_iff_example = validate_regions_iff default_regions default_regions-All

abbrev copy_a : Superblock
copy_a = record { generation = 7; checksum32 = superblock_checksum 7 }

abbrev torn_copy : Superblock
torn_copy = record { generation = 8; checksum32 = 1 }

copy_a-valid : valid copy_a ≡ true
unfolding valid superblock_checksum
copy_a-valid = refl

torn_copy-valid : valid torn_copy ≡ false
unfolding valid superblock_checksum
torn_copy-valid = refl

choose_superblock-Chooses_example : Chooses copy_a torn_copy (choose_superblock copy_a torn_copy)
choose_superblock-Chooses_example = choose_superblock-Chooses copy_a torn_copy

finish_batch_lem_example :
    let b = finish_batch 4096 13 in
    (b.total_slot_positions % 8 ≡ 0)
    × (b.total_slot_positions ≡ 13 + b.reserved_empty_slots)
    × (b.reserved_empty_slots < 8)
finish_batch_lem_example = finish_batch_lem 4096 13 (omega arith) (omega arith)

abbrev segment : ℕ → ℕ → EventSegment
segment first last = record {
  first_event_id = first;
  last_event_id = last;
  state = 0;
  zone_start_lba = 0;
  zone_block_count = 8;
}
