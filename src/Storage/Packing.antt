-- ===== src/Storage/Packing.antt =====
-- Batches padded to whole blocks, and slots packed into a sealed segment with a sparse index
-- (compiler/storagefmt/format.go).
pub mod Batch
pub mod Packed
pub mod Seek
use wrela.Prelude.{
  ℕ, ◌+◌, ◌-◌, ◌/◌, ◌%◌, ◌≤◌, Bool, ◌&&◌, List, [], ◌∷◌, ◌++◌, Option, none, some, ◌==◌, ltb, leb,
  if◌then◌else◌, length, take, u64, sub64, add64,
}
use wrela.Bytes.{Bytes}
use wrela.Storage.Slot.{Slot, slot_bytes, event_slot_size, event_header_size, event_payload_bytes}

pub record BatchPacking : Type 0 where
  pub semantic_slots : ℕ
  pub reserved_empty_slots : ℕ
  pub total_slot_positions : ℕ

-- `FinishBatch`
unfoldable pub finish_batch : ℕ → ℕ → BatchPacking
finish_batch active_lba_size semantic_slots =
    let slots_per_lba = active_lba_size / event_slot_size in
    let remainder = semantic_slots % slots_per_lba in
    let total =
      if ltb 0 slots_per_lba
      then (if remainder == 0
          then semantic_slots
          else add64 semantic_slots (sub64 slots_per_lba remainder))
      else semantic_slots in
    record {
      semantic_slots = semantic_slots;
      reserved_empty_slots = sub64 total semantic_slots;
      total_slot_positions = total;
    }

pub record SegmentIndexEntry : Type 0 where
  pub event_id_delta : ℕ
  pub byte_offset : ℕ

pub record PackedSegment : Type 0 where
  pub base_event_id : ℕ
  pub bytes : Bytes
  pub index : List SegmentIndexEntry

abbrev pub packed_payload_length : Slot → ℕ
packed_payload_length s =
    if ltb event_payload_bytes s.header.payload_length
    then event_payload_bytes
    else s.header.payload_length

-- `raw[:EventHeaderSize+payloadLength]`
unfoldable pub packed_bytes : Slot → Bytes
packed_bytes s =
    take (event_header_size + packed_payload_length s) (slot_bytes s s.header.checksum32)

-- The loop of `PackSlots` for a stride that is not 0.
unfoldable pub pack_loop : ℕ → ℕ → List Slot → Bytes → List SegmentIndexEntry → PackedSegment
pack_loop base stride [] bytes index = record { base_event_id = base; bytes = bytes; index = index }
pack_loop base stride (s ∷ ss) bytes index =
    let delta = sub64 s.header.event_id base in
    let entry : SegmentIndexEntry = record {
      event_id_delta = delta;
      byte_offset = u64 (length bytes);
    } in
    pack_loop base stride ss (bytes ++ packed_bytes s)
      (if delta % stride == 0 then index ++ entry ∷ [] else index)

-- `PackSlots`
unfoldable pub pack_slots : List Slot → ℕ → PackedSegment
pack_slots [] stride = record { base_event_id = 0; bytes = []; index = [] }
pack_slots (s ∷ ss) stride =
    pack_loop s.header.event_id (if stride == 0 then 1 else stride) (s ∷ ss) [] []

pub record EventSegment : Type 0 where
  pub first_event_id : ℕ
  pub last_event_id : ℕ
  pub state : ℕ
  pub zone_start_lba : ℕ
  pub zone_block_count : ℕ

-- `FindSegmentForEventID`; `none` is the pair with `false`.
unfoldable pub find_segment_for_event_id : List EventSegment → ℕ → Option EventSegment
find_segment_for_event_id [] event_id = none
find_segment_for_event_id (s ∷ ss) event_id =
    let rest = find_segment_for_event_id ss event_id in
    if leb s.first_event_id event_id && leb event_id s.last_event_id then some s else rest
