-- ===== src/Storage/Slot.antt =====
-- Event slots: their header, their 512 bytes, and the checksum (compiler/storagefmt/format.go).
pub mod Layout
use Prim.Native.Nat.{bit_and}
use wrela.Prelude.{
  ℕ, ◌+◌, ◌<◌, ◌≡◌, Bool, true, not, ◌&&◌, List, [], ◌==◌, replicate, length, IsU16, IsU32, IsU64,
  All, IsU8,
}
use wrela.Bytes.{Bytes, le_bytes, write_at, crc32c}

abbrev pub event_slot_size : ℕ
event_slot_size = 512

abbrev pub event_header_size : ℕ
event_header_size = 64

abbrev pub event_payload_bytes : ℕ
event_payload_bytes = 448

abbrev pub event_type_id_offset : ℕ
event_type_id_offset = 24

abbrev pub payload_layout_id_offset : ℕ
payload_layout_id_offset = 28

abbrev pub checksum32_offset : ℕ
checksum32_offset = 48

abbrev pub storage_slot_reserved_empty : ℕ
storage_slot_reserved_empty = 1

pub record EventSlotHeader : Type 0 where
  pub event_id : ℕ
  pub stream_id : ℕ
  pub stream_sequence : ℕ
  pub event_type_id : ℕ
  pub payload_layout_id : ℕ
  pub atomic_group_len : ℕ
  pub atomic_group_index : ℕ
  pub payload_length : ℕ
  pub flags : ℕ
  pub checksum32 : ℕ
  pub header_version : ℕ
  pub reserved16 : ℕ
  pub reserved64 : ℕ

pub record Slot : Type 0 where
  pub header : EventSlotHeader
  pub payload : Bytes

-- The widths that the Go types give the fields.
pub record IsHeader (h : EventSlotHeader) : Type 0 where
  pub event_id_fits : IsU64 h.event_id
  pub stream_id_fits : IsU64 h.stream_id
  pub stream_sequence_fits : IsU64 h.stream_sequence
  pub event_type_id_fits : IsU32 h.event_type_id
  pub payload_layout_id_fits : IsU32 h.payload_layout_id
  pub atomic_group_len_fits : IsU32 h.atomic_group_len
  pub atomic_group_index_fits : IsU32 h.atomic_group_index
  pub payload_length_fits : IsU32 h.payload_length
  pub flags_fits : IsU32 h.flags
  pub checksum32_fits : IsU32 h.checksum32
  pub header_version_fits : IsU16 h.header_version
  pub reserved16_fits : IsU16 h.reserved16
  pub reserved64_fits : IsU64 h.reserved64

pub record IsSlot (s : Slot) : Type 0 where
  pub header_fits : IsHeader s.header
  pub payload_size : length s.payload ≡ event_payload_bytes
  pub payload_fits : All IsU8 s.payload

-- `slotBytes`: the fields are written into a zeroed buffer one after the other.
unfoldable pub slot_bytes : Slot → ℕ → Bytes
unfolding le_bytes write_at
slot_bytes s checksum =
    let h = s.header in
    let b0 = replicate event_slot_size 0 in
    let b1 = write_at 0 (le_bytes 8 h.event_id) b0 in
    let b2 = write_at 8 (le_bytes 8 h.stream_id) b1 in
    let b3 = write_at 16 (le_bytes 8 h.stream_sequence) b2 in
    let b4 = write_at 24 (le_bytes 4 h.event_type_id) b3 in
    let b5 = write_at 28 (le_bytes 4 h.payload_layout_id) b4 in
    let b6 = write_at 32 (le_bytes 4 h.atomic_group_len) b5 in
    let b7 = write_at 36 (le_bytes 4 h.atomic_group_index) b6 in
    let b8 = write_at 40 (le_bytes 4 h.payload_length) b7 in
    let b9 = write_at 44 (le_bytes 4 h.flags) b8 in
    let b10 = write_at 48 (le_bytes 4 checksum) b9 in
    let b11 = write_at 52 (le_bytes 2 h.header_version) b10 in
    let b12 = write_at 54 (le_bytes 2 h.reserved16) b11 in
    let b13 = write_at 56 (le_bytes 8 h.reserved64) b12 in write_at event_header_size s.payload b13

unfoldable pub slot_checksum : Slot → ℕ
unfolding slot_bytes crc32c
slot_checksum s = crc32c (slot_bytes s 0)

unfoldable pub slot_checksum_valid : Slot → Bool
unfolding slot_checksum
slot_checksum_valid s = s.header.checksum32 == slot_checksum s

unfoldable pub is_reserved_empty_slot : EventSlotHeader → Bool
is_reserved_empty_slot h =
    h.event_type_id == 0
    && h.payload_layout_id == 0
    && h.stream_id == 0
    && h.stream_sequence == 0
    && h.atomic_group_len == 0
    && h.atomic_group_index == 0
    && h.payload_length == 0
    && not (bit_and h.flags storage_slot_reserved_empty == 0)

abbrev pub with_checksum : Slot → ℕ → Slot
with_checksum s c = record s { header = record (s.header) { checksum32 = c } }

-- `RefreshSlotChecksum`
unfoldable pub refresh_slot_checksum : Slot → Slot
unfolding slot_checksum
refresh_slot_checksum s =
    let zeroed = with_checksum s 0 in with_checksum zeroed (slot_checksum zeroed)

abbrev zero_header : EventSlotHeader
zero_header = record {
  event_id = 0;
  stream_id = 0;
  stream_sequence = 0;
  event_type_id = 0;
  payload_layout_id = 0;
  atomic_group_len = 0;
  atomic_group_index = 0;
  payload_length = 0;
  flags = 0;
  checksum32 = 0;
  header_version = 0;
  reserved16 = 0;
  reserved64 = 0;
}

abbrev zero_payload : Bytes
zero_payload = replicate event_payload_bytes 0

unfoldable pub valid_slot_for_test : ℕ → Slot
unfolding refresh_slot_checksum
valid_slot_for_test event_id = refresh_slot_checksum (record {
  header = record zero_header {
    event_id = event_id;
    stream_id = 7;
    stream_sequence = event_id;
    event_type_id = 1001;
    payload_layout_id = 1;
    atomic_group_len = 1;
    header_version = 1;
  };
  payload = zero_payload;
})

unfoldable pub reserved_empty_slot_for_test : ℕ → Slot
unfolding refresh_slot_checksum
reserved_empty_slot_for_test event_id = refresh_slot_checksum (record {
  header = record zero_header {
    event_id = event_id;
    flags = storage_slot_reserved_empty;
    header_version = 1;
  };
  payload = zero_payload;
})
