-- ===== src/Tests/Projections.antt =====
-- Blobs, the directory and the streams (compiler/storagefmt/format.go) at concrete inputs.
use wrela.Prelude.{ℕ, ◌+◌, ◌≡◌, ◌⊎◌, refl, ◌&&◌, not, true, false, List, [], ◌∷◌, some, arith}
use wrela.Storage.FreeList.{Extent}
use wrela.Storage.Writer.{WriterPolicy, sem0118}
use wrela.Storage.Blob.{
  BlobTruth, RelocateBlobProposal, blob_ref_for_extent, accept_relocate, accept_relocate_blob,
  has_extent, reclaimable, new_orphan_collector,
}
use wrela.Storage.Blob.Relocation.{IsCurrent, accept_relocate_blob_cases}
use wrela.Storage.Blob.Orphans.{
  Mark, acknowledge, unacknowledge, mark_all, acknowledged_after, reclaimable_iff,
}
use wrela.Storage.Directory.{
  CommittedGroup, Event, DirectoryProjection, lookup, apply_group, no_blob,
}
use wrela.Storage.Directory.Replay.{events_of, file_history, is_deleted, lookup-apply_group}
use wrela.Storage.Streams.{StreamDirectory}

abbrev writer : WriterPolicy
writer = record {
  next_event_id = 10;
  next_stream_id = 3;
  open_batch_slots = 60;
  durable_frontier = 5;
}

abbrev truth : BlobTruth
truth = record { version = 3; ref = blob_ref_for_extent 5 8 }

abbrev proposal : RelocateBlobProposal
proposal = record {
  blob_id = 5;
  old_ref = blob_ref_for_extent 5 8;
  new_ref = blob_ref_for_extent 77 8;
  observed_version = 3;
}

accept_relocate_blob_cases_example :
    let (o, r) = accept_relocate_blob writer (some truth) proposal in
    (r.open_batch_slots ≡ 60)
    × ((IsCurrent truth proposal
          × (r.accepted ≡ true)
          × (o ≡ some (record truth { ref = proposal.new_ref; version = 3 + 1 })))
        ⊎ ((¬ IsCurrent truth proposal)
            × (r.accepted ≡ false)
            × (r.reject_code ≡ sem0118)
            × (o ≡ some truth)))
accept_relocate_blob_cases_example = accept_relocate_blob_cases writer truth proposal (omega arith)

abbrev current : RelocateBlobProposal
current = record proposal { blob_id = truth.ref.blob_id }

current-accepted : (accept_relocate truth current).1 ≡ true
unfolding accept_relocate
current-accepted = refl

abbrev extent : ℕ → Extent
extent lba = record { start_lba = lba; block_count = 8 }

abbrev marks : List Mark
marks =
    acknowledge (blob_ref_for_extent 0 8)
    ∷ acknowledge (blob_ref_for_extent 8 8)
    ∷ unacknowledge (blob_ref_for_extent 0 8)
    ∷ []

reclaimable_iff_example :
    has_extent
      (reclaimable (mark_all (new_orphan_collector (extent 0 ∷ extent 8 ∷ [])) marks))
      (extent 8)
    ≡ (has_extent (extent 0 ∷ extent 8 ∷ []) (extent 8)
        && not (acknowledged_after false (extent 8) marks))
reclaimable_iff_example = reclaimable_iff (extent 0 ∷ extent 8 ∷ []) marks (extent 8)

abbrev event : ℕ → ℕ → Event
event type_id file_id = record {
  type_id = type_id;
  file_id = file_id;
  parent_id = 1;
  name_ref = 2;
  blob_ref = no_blob;
  stream_sequence = 1;
}

abbrev empty_directory : DirectoryProjection
empty_directory = record { files = []; watermark = 0 }

abbrev committed : ℕ → CommittedGroup
committed n = record { last_event_id = n }

lookup-apply_group_example :
    lookup 4 (apply_group empty_directory (committed 2) (event 1001 4 ∷ event 1002 5 ∷ [])).files
    ≡ file_history (lookup 4 []) (events_of 4 (event 1001 4 ∷ event 1002 5 ∷ []))
lookup-apply_group_example =
    lookup-apply_group empty_directory (committed 2) (event 1001 4 ∷ event 1002 5 ∷ []) 4

-- A directory whose file 4 was created and deleted.
abbrev after_deletion : DirectoryProjection
after_deletion = record {
  files =
      (
        4,
        record {
          current_blob_ref = no_blob;
          name_ref = 2;
          parent_id = 1;
          deleted = true;
          stream_sequence = 1;
        },
      )
      ∷ [];
  watermark = 2;
}

file_deleted : is_deleted (lookup 4 after_deletion.files) ≡ true
unfolding lookup
file_deleted = refl

abbrev directory : StreamDirectory
directory = record { next_stream_id = 6 }
