-- ===== src/Storage/Blob.antt =====
-- Blob references, their relocation and the collection of orphans (compiler/storagefmt/format.go).
pub mod Relocation
pub mod Orphans
use wrela.Prelude.{
  ℕ, ◌+◌, Bool, true, false, not, ◌&&◌, ◌||◌, List, [], ◌∷◌, Option, none, some, ◌==◌,
  if◌then◌else◌, u64,
}
use wrela.Storage.FreeList.{Extent}
use wrela.Storage.Writer.{WriterPolicy, EnqueueResult, RejectCode, sem0118, accepted_code, rejected}

pub record BlobRef : Type 0 where
  pub blob_id : ℕ
  pub start_lba : ℕ
  pub block_count : ℕ

abbrev pub blob_ref_for_extent : ℕ → ℕ → BlobRef
blob_ref_for_extent start_lba block_count = record {
  blob_id = 0;
  start_lba = start_lba;
  block_count = block_count;
}

pub record BlobTruth : Type 0 where
  pub version : ℕ
  pub ref : BlobRef

pub record RelocateBlobProposal : Type 0 where
  pub blob_id : ℕ
  pub old_ref : BlobRef
  pub new_ref : BlobRef
  pub observed_version : ℕ

-- `==` on the Go structs.
abbrev pub blob_ref_eq : BlobRef → BlobRef → Bool
blob_ref_eq a b =
    a.blob_id == b.blob_id && a.start_lba == b.start_lba && a.block_count == b.block_count

-- `BlobTruth.AcceptRelocate`
unfoldable pub accept_relocate : BlobTruth → RelocateBlobProposal → BlobTruth × Bool
accept_relocate t p =
    if not (p.blob_id == t.ref.blob_id)
    then (t, false)
    else if not (blob_ref_eq p.old_ref t.ref)
    then (t, false)
    else if not (p.observed_version == t.version)
    then (t, false)
    else (record t { ref = p.new_ref; version = u64 (t.version + 1) }, true)

-- `WriterPolicy.AcceptRelocateBlob`, on a pointer that may be nil.
unfoldable pub accept_relocate_blob :
    WriterPolicy → Option BlobTruth → RelocateBlobProposal → Option BlobTruth × EnqueueResult
unfolding accept_relocate
accept_relocate_blob w none p =
    (none, record (rejected sem0118) { open_batch_slots = w.open_batch_slots })
accept_relocate_blob w (some t) p =
    let (t', accepted) = accept_relocate t p in
    if not accepted
    then (some t', record (rejected sem0118) { open_batch_slots = w.open_batch_slots })
    else (
      some t',
      record (rejected accepted_code) { accepted = true; open_batch_slots = w.open_batch_slots },
    )

abbrev pub extent_eq : Extent → Extent → Bool
extent_eq a b = a.start_lba == b.start_lba && a.block_count == b.block_count

-- The Go map is a set of extents, here a list in which an extent may be repeated.
pub record OrphanCollector : Type 0 where
  pub allocated : List Extent
  pub acknowledged_refs : List Extent

unfoldable pub has_extent : List Extent → Extent → Bool
has_extent [] e = false
has_extent (x ∷ xs) e = extent_eq x e || has_extent xs e

unfoldable pub delete_extent : List Extent → Extent → List Extent
delete_extent [] e = []
delete_extent (x ∷ xs) e = let rest = delete_extent xs e in if extent_eq x e then rest else x ∷ rest

unfoldable pub new_orphan_collector : List Extent → OrphanCollector
new_orphan_collector allocated = record { allocated = allocated; acknowledged_refs = [] }

abbrev pub extent_of : BlobRef → Extent
extent_of ref = record { start_lba = ref.start_lba; block_count = ref.block_count }

unfoldable pub mark_acknowledged : OrphanCollector → BlobRef → OrphanCollector
mark_acknowledged c ref = record c { acknowledged_refs = extent_of ref ∷ c.acknowledged_refs }

unfoldable pub mark_unacknowledged : OrphanCollector → BlobRef → OrphanCollector
unfolding delete_extent
mark_unacknowledged c ref = record c {
  acknowledged_refs = delete_extent c.acknowledged_refs (extent_of ref);
}

-- The loop of `Reclaimable`.
unfoldable pub unacknowledged : List Extent → List Extent → List Extent
unfolding has_extent
unacknowledged acknowledged [] = []
unacknowledged acknowledged (e ∷ es) =
    let rest = unacknowledged acknowledged es in
    if has_extent acknowledged e then rest else e ∷ rest

unfoldable pub reclaimable : OrphanCollector → List Extent
unfolding unacknowledged
reclaimable c = unacknowledged c.acknowledged_refs c.allocated
