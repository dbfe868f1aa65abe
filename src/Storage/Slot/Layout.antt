-- ===== src/Storage/Slot/Layout.antt =====
-- Where the fields of a slot stand in its 512 bytes: an independent reader of the layout.
use wrela.Prelude.{ℕ, ◌≡◌, refl, ap, length, drop, length-drop, arith, IsU32, true, ==_refl}
use wrela.Bytes.{Bytes, read_le}
use wrela.Bytes.Laws.{le_value-le_bytes, overlay-same_length}
use wrela.Storage.Slot.{
  Slot, EventSlotHeader, slot_bytes, IsSlot, with_checksum, event_header_size, event_slot_size,
  event_type_id_offset, payload_layout_id_offset, checksum32_offset, slot_checksum,
  slot_checksum_valid, refresh_slot_checksum,
}

-- The header that a reader of the documented offsets finds in a slot's bytes.
unfoldable pub header_of_bytes : Bytes → EventSlotHeader
unfolding read_le
header_of_bytes bs = record {
  event_id = read_le 0 8 bs;
  stream_id = read_le 8 8 bs;
  stream_sequence = read_le 16 8 bs;
  event_type_id = read_le event_type_id_offset 4 bs;
  payload_layout_id = read_le payload_layout_id_offset 4 bs;
  atomic_group_len = read_le 32 4 bs;
  atomic_group_index = read_le 36 4 bs;
  payload_length = read_le 40 4 bs;
  flags = read_le 44 4 bs;
  checksum32 = read_le checksum32_offset 4 bs;
  header_version = read_le 52 2 bs;
  reserved16 = read_le 54 2 bs;
  reserved64 = read_le 56 8 bs;
}

unfoldable pub slot_of_bytes : Bytes → Slot
unfolding header_of_bytes
slot_of_bytes bs = record { header = header_of_bytes bs; payload = drop event_header_size bs }

pub header_of_bytes-slot_bytes :
    (s : Slot) (c : ℕ)
    → IsSlot s
    → IsU32 c
    → header_of_bytes (slot_bytes s c) ≡ (with_checksum s c).header
unfolding header_of_bytes slot_bytes
header_of_bytes-slot_bytes s c w hc =
    let h = s.header in
    let f = w.header_fits in
    λ i. record {
      event_id = le_value-le_bytes 8 h.event_id f.event_id_fits i;
      stream_id = le_value-le_bytes 8 h.stream_id f.stream_id_fits i;
      stream_sequence = le_value-le_bytes 8 h.stream_sequence f.stream_sequence_fits i;
      event_type_id = le_value-le_bytes 4 h.event_type_id f.event_type_id_fits i;
      payload_layout_id = le_value-le_bytes 4 h.payload_layout_id f.payload_layout_id_fits i;
      atomic_group_len = le_value-le_bytes 4 h.atomic_group_len f.atomic_group_len_fits i;
      atomic_group_index = le_value-le_bytes 4 h.atomic_group_index f.atomic_group_index_fits i;
      payload_length = le_value-le_bytes 4 h.payload_length f.payload_length_fits i;
      flags = le_value-le_bytes 4 h.flags f.flags_fits i;
      checksum32 = le_value-le_bytes 4 c hc i;
      header_version = le_value-le_bytes 2 h.header_version f.header_version_fits i;
      reserved16 = le_value-le_bytes 2 h.reserved16 f.reserved16_fits i;
      reserved64 = le_value-le_bytes 8 h.reserved64 f.reserved64_fits i;
    }

pub payload_at_end :
    (s : Slot) (c : ℕ) → IsSlot s → drop event_header_size (slot_bytes s c) ≡ s.payload
unfolding slot_bytes
payload_at_end s c w = overlay-same_length s.payload _ w.payload_size

-- The bytes of a slot whose fields fit their Go widths are 512, and reading them at the documented
-- offsets gives the slot back, with the checksum that was written.
pub slot_of_bytes-slot_bytes :
    (s : Slot) (c : ℕ)
    → IsSlot s
    → IsU32 c
    → (slot_of_bytes (slot_bytes s c) ≡ with_checksum s c)
      × (length (slot_bytes s c) ≡ event_slot_size)
unfolding slot_of_bytes
slot_of_bytes-slot_bytes s c w hc = (
  λ i. record { header = header_of_bytes-slot_bytes s c w hc i; payload = payload_at_end s c w i },
  size,
)
  where
    size : length (slot_bytes s c) ≡ event_slot_size
    size = omega (
      arith,
      length-drop event_header_size (slot_bytes s c),
      ap length (payload_at_end s c w),
      w.payload_size,
    )

-- A refreshed slot passes its own check and keeps every field but the checksum.
pub refresh-slot_checksum_valid :
    (s : Slot)
    → (slot_checksum_valid (refresh_slot_checksum s) ≡ true)
      × (refresh_slot_checksum s ≡ with_checksum s (slot_checksum s))
unfolding refresh_slot_checksum slot_checksum_valid
refresh-slot_checksum_valid s = (==_refl (slot_checksum s), refl)
