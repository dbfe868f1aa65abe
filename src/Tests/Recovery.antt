-- ===== src/Tests/Recovery.antt =====
-- Slots and recovery (compiler/storagefmt/format.go) at concrete logs.
use wrela.Prelude.{
  ℕ, zero, suc, ◌≡◌, refl, true, false, List, [], ◌∷◌, ◌++◌, some, length, ◌<◌, All, replicate,
  IsU64, arith, map, sub64,
}
use wrela.Storage.Slot.{
  Slot, EventSlotHeader, IsSlot, IsHeader, event_slot_size, event_payload_bytes, slot_bytes,
  slot_checksum, slot_checksum_valid, refresh_slot_checksum, valid_slot_for_test,
  reserved_empty_slot_for_test, with_checksum,
}
use wrela.Storage.Slot.Layout.{slot_of_bytes, slot_of_bytes-slot_bytes}
use wrela.Storage.Recovery.{
  RecoveryResult, clean_eof, checksum_mismatch, recovery_start, recover_slots,
}
use wrela.Storage.Recovery.Classify.{slot_checksum_valid_iff}
use wrela.Storage.Recovery.Log.{Commits, done, skip, commit}
use wrela.Storage.Recovery.Refines.{Recovers, recover_slots-Recovers, recover_slots_torn}
use wrela.Storage.Packing.{pack_slots, pack_loop, packed_bytes}
use wrela.Storage.Packing.Seek.{SeeksTo, multiples, pack_slots-SeeksTo}

abbrev sample_header : EventSlotHeader
sample_header = record {
  event_id = 1;
  stream_id = 7;
  stream_sequence = 1;
  event_type_id = 1001;
  payload_layout_id = 1;
  atomic_group_len = 1;
  atomic_group_index = 0;
  payload_length = 3;
  flags = 0;
  checksum32 = 0;
  header_version = 1;
  reserved16 = 0;
  reserved64 = 0;
}

abbrev sample : Slot
sample = record { header = sample_header; payload = replicate event_payload_bytes 5 }

fives-All : (n : ℕ) → All (λ b. b < 256) (replicate n 5)
fives-All zero = tt
fives-All (suc n) = (omega arith, fives-All n)

sample-IsHeader : IsHeader sample_header
sample-IsHeader = record {
  event_id_fits = omega arith;
  stream_id_fits = omega arith;
  stream_sequence_fits = omega arith;
  event_type_id_fits = omega arith;
  payload_layout_id_fits = omega arith;
  atomic_group_len_fits = omega arith;
  atomic_group_index_fits = omega arith;
  payload_length_fits = omega arith;
  flags_fits = omega arith;
  checksum32_fits = omega arith;
  header_version_fits = omega arith;
  reserved16_fits = omega arith;
  reserved64_fits = omega arith;
}

sample-IsSlot : IsSlot sample
sample-IsSlot = record {
  header_fits = sample-IsHeader;
  payload_size = refl;
  payload_fits = fives-All event_payload_bytes;
}

slot_of_bytes-slot_bytes_example :
    (slot_of_bytes (slot_bytes sample 9) ≡ with_checksum sample 9)
    × (length (slot_bytes sample 9) ≡ event_slot_size)
slot_of_bytes-slot_bytes_example = slot_of_bytes-slot_bytes sample 9 sample-IsSlot (omega arith)

-- One event and the empty slot behind it.
abbrev log : List Slot
log = valid_slot_for_test 0 ∷ reserved_empty_slot_for_test 1 ∷ []

abbrev recovered : RecoveryResult
recovered = record {
  visible_events = 1;
  next_event_id = 2;
  last_committed_group_end = 0;
  stop_reason = clean_eof;
}

first-checked : slot_checksum_valid (valid_slot_for_test 0) ≡ true
unfolding valid_slot_for_test slot_checksum_valid slot_checksum slot_bytes
first-checked = refl

second-checked : slot_checksum_valid (reserved_empty_slot_for_test 1) ≡ true
unfolding reserved_empty_slot_for_test slot_checksum_valid slot_checksum slot_bytes
second-checked = refl

first-summed : (valid_slot_for_test 0).header.checksum32 ≡ slot_checksum (valid_slot_for_test 0)
first-summed = (slot_checksum_valid_iff (valid_slot_for_test 0)).0 first-checked

second-summed :
    (reserved_empty_slot_for_test 1).header.checksum32
    ≡ slot_checksum (reserved_empty_slot_for_test 1)
second-summed = (slot_checksum_valid_iff (reserved_empty_slot_for_test 1)).0 second-checked

log-Commits : Commits recovery_start log recovered
unfolding valid_slot_for_test reserved_empty_slot_for_test refresh_slot_checksum
log-Commits =
    commit (valid_slot_for_test 0 ∷ []) (reserved_empty_slot_for_test 1 ∷ []) refl
      (record {
        nonempty = omega arith;
        bounded = omega arith;
        members = (
          record {
            checked = first-summed;
            typed = ground arith;
            numbered = refl;
            sized = refl;
            placed = refl;
          },
          tt,
        );
      })
      (skip
        (record {
          checked = second-summed;
          untyped = refl;
          no_layout = refl;
          no_stream = refl;
          no_sequence = refl;
          no_group = refl;
          no_place = refl;
          no_payload = refl;
          flagged = ground arith;
          numbered = refl;
        })
        (done refl))

recover_slots-Recovers_example : Recovers log recovery_start (recover_slots log)
recover_slots-Recovers_example = recover_slots-Recovers log

-- A slot whose checksum was not written.
torn-unchecked : slot_checksum_valid sample ≡ false
unfolding slot_checksum_valid slot_checksum slot_bytes
torn-unchecked = refl

recover_slots_torn_example :
    recover_slots (log ++ sample ∷ log)
    ≡ some (record recovered { stop_reason = checksum_mismatch })
recover_slots_torn_example = recover_slots_torn log recovered sample log log-Commits torn-unchecked

two-length : length (pack_slots (sample ∷ sample ∷ []) 2).bytes ≡ 134
unfolding pack_slots pack_loop packed_bytes slot_bytes
two-length = refl

two-IsU64 : IsU64 (length (pack_slots (sample ∷ sample ∷ []) 2).bytes)
two-IsU64 = omega (arith, two-length)

pack_slots-SeeksTo_example :
    let p = pack_slots (sample ∷ sample ∷ []) 2 in
    (map (λ e. e.event_id_delta) p.index
      ≡ multiples 2 (map (λ s. sub64 s.header.event_id 1) (sample ∷ sample ∷ [])))
    × All (SeeksTo (sample ∷ sample ∷ []) p) p.index
pack_slots-SeeksTo_example =
    pack_slots-SeeksTo sample (sample ∷ []) 2 (ground arith) (sample-IsSlot, (sample-IsSlot, tt))
      two-IsU64
