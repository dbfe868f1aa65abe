-- ===== src/Storage/Directory.antt =====
-- The directory projection, a fold over committed event groups (compiler/storagefmt/format.go).
pub mod Replay
use wrela.Prelude.{ℕ, Bool, true, false, List, [], ◌∷◌, Option, none, some, ◌==◌, if◌then◌else◌}
use wrela.Storage.Blob.{BlobRef}

pub record CommittedGroup : Type 0 where
  pub last_event_id : ℕ

pub record Event : Type 0 where
  pub type_id : ℕ
  pub file_id : ℕ
  pub parent_id : ℕ
  pub name_ref : ℕ
  pub blob_ref : BlobRef
  pub stream_sequence : ℕ

pub record FileState : Type 0 where
  pub current_blob_ref : BlobRef
  pub name_ref : ℕ
  pub parent_id : ℕ
  pub deleted : Bool
  pub stream_sequence : ℕ

abbrev pub no_blob : BlobRef
no_blob = record { blob_id = 0; start_lba = 0; block_count = 0 }

-- What a Go map of `FileState` gives for a missing key.
abbrev pub no_file : FileState
no_file = record {
  current_blob_ref = no_blob;
  name_ref = 0;
  parent_id = 0;
  deleted = false;
  stream_sequence = 0;
}

-- The map, as an association list; the nil map is the empty one.
abbrev pub Files : Type 0
Files = List (ℕ × FileState)

unfoldable pub lookup : ℕ → Files → Option FileState
lookup k [] = none
lookup k ((j, v) ∷ m) = if j == k then some v else lookup k m

unfoldable pub insert : ℕ → FileState → Files → Files
insert k v [] = (k, v) ∷ []
insert k v ((j, w) ∷ m) = if j == k then (k, v) ∷ m else (j, w) ∷ insert k v m

abbrev pub or_no_file : Option FileState → FileState
or_no_file none = no_file
or_no_file (some s) = s

pub record DirectoryProjection : Type 0 where
  pub files : Files
  pub watermark : ℕ

-- The body of the loop of `ApplyGroup`, on the map.
unfoldable pub apply_event : Files → Event → Files
apply_event m event =
    let state = or_no_file (lookup event.file_id m) in
    if event.type_id == 1001
    then insert event.file_id
        (record {
          current_blob_ref = event.blob_ref;
          name_ref = event.name_ref;
          parent_id = event.parent_id;
          deleted = false;
          stream_sequence = event.stream_sequence;
        })
        m
    else if event.type_id == 1002
    then insert event.file_id
        (record state {
          parent_id = event.parent_id;
          name_ref = event.name_ref;
          stream_sequence = event.stream_sequence;
        })
        m
    else if event.type_id == 1003
    then insert event.file_id
        (record state {
          current_blob_ref = event.blob_ref;
          stream_sequence = event.stream_sequence;
        })
        m
    else if event.type_id == 1004
    then insert event.file_id
        (record state { deleted = true; stream_sequence = event.stream_sequence }) m
    else m

unfoldable pub apply_events : Files → List Event → Files
apply_events m [] = m
apply_events m (e ∷ es) = apply_events (apply_event m e) es

-- `ApplyGroup`
unfoldable pub apply_group : DirectoryProjection → CommittedGroup → List Event → DirectoryProjection
apply_group p group events = record p {
  files = apply_events p.files events;
  watermark = group.last_event_id;
}
