-- ===== src/Topic/Objects.antt =====
-- The first contents of a topic's memory.
use wrela.Prelude.{
  ℕ, zero, suc, ◌+◌, ◌*◌, ◌≤◌, ◌<◌, ◌≡◌, refl, ap, ◌∙◌, inl, inr, List, [], ◌∷◌, take, drop, length,
  All, arith,
}
use wrela.Bytes.{Bytes, le_bytes, le_value, write_at, read_le}
use wrela.Bytes.Laws.{length-le_bytes}
use wrela.Bytes.Writes.{length-write_at, read_le-write_at, read_le-write_at_apart}
use wrela.Topic.{
  TopicLayout, TopicDataSubscriberLayout, topic_waitline_disarmed_bits, topic_slot_size,
  plan_topic_data, zeros, disarm_waitlines, topic_data_object,
}
use wrela.Topic.Planned.{Lines, plan_topic_data-Lines}

pub length-zeros : (n : ℕ) → length (zeros n) ≡ n
length-zeros zero = refl
length-zeros (suc n) = ap suc (length-zeros n)

take-zeros : (width n : ℕ) → le_value (take width (zeros n)) ≡ 0
unfolding le_value
take-zeros zero n = refl
take-zeros (suc width) zero = refl
take-zeros (suc width) (suc n) = omega (arith, take-zeros width n)

drop-zeros : (at width n : ℕ) → le_value (take width (drop at (zeros n))) ≡ 0
unfolding le_value
drop-zeros zero width n = take-zeros width n
drop-zeros (suc at) zero zero = refl
drop-zeros (suc at) (suc width) zero = refl
drop-zeros (suc at) width (suc n) = drop-zeros at width n

-- Every number in fresh memory is zero.
pub read_le-zeros : (at width n : ℕ) → read_le at width (zeros n) ≡ 0
unfolding read_le
read_le-zeros at width n = drop-zeros at width n

-- One write of the disarmed bits: the number there, and what stays.
record Disarms (at : ℕ) (before after : Bytes) : Type 0 where
  size : length after ≡ length before
  armed : read_le at 8 after ≡ topic_waitline_disarmed_bits
  below :
      (other width : ℕ)
      → other + width ≤ at
      → read_le other width after ≡ read_le other width before
  above :
      (other width : ℕ) → at + 8 ≤ other → read_le other width after ≡ read_le other width before

write-Disarms :
    (at : ℕ) (bytes : Bytes)
    → at + 8 ≤ length bytes
    → Disarms at bytes (write_at at (le_bytes 8 topic_waitline_disarmed_bits) bytes)
write-Disarms at bytes h =
    let word : Bytes = le_bytes 8 topic_waitline_disarmed_bits in
    let size : length word ≡ 8 = length-le_bytes 8 topic_waitline_disarmed_bits in
    record {
      size = length-write_at at word bytes;
      armed = read_le-write_at at 8 topic_waitline_disarmed_bits bytes h (omega arith);
      below = λ other width k. read_le-write_at_apart other width at word bytes (inl k);
      above = λ other width k.
          read_le-write_at_apart other width at word bytes (inr (omega (arith, size, k)));
    }

-- The words of a subscriber, in memory that held zero at its cursor.
abbrev pub Waits : Bytes → TopicDataSubscriberLayout → Type 0
Waits bytes s =
    (read_le s.waitline_offset 8 bytes ≡ topic_waitline_disarmed_bits)
    × (read_le s.cursor_offset 8 bytes ≡ 0)

record AllDisarmed (next limit : ℕ) (before after : Bytes)
    (subscribers : List TopicDataSubscriberLayout) : Type 0 where
  size : length after ≡ length before
  below :
      (other width : ℕ)
      → other + width ≤ next
      → read_le other width after ≡ read_le other width before
  above : (other width : ℕ) → limit ≤ other → read_le other width after ≡ read_le other width before
  waits : All (Waits after) subscribers

Lines-le :
    (next limit : ℕ) (subscribers : List TopicDataSubscriberLayout)
    → Lines next limit subscribers
    → next ≤ limit
Lines-le next limit [] h = omega (arith, h)
Lines-le next limit (s ∷ more) h = omega (arith, Lines-le (next + 128) limit more h.2)

disarm-AllDisarmed :
    (next limit : ℕ) (subscribers : List TopicDataSubscriberLayout) (bytes : Bytes)
    → Lines next limit subscribers
    → limit ≤ length bytes
    → ((other : ℕ) → next ≤ other → read_le other 8 bytes ≡ 0)
    → AllDisarmed next limit bytes (disarm_waitlines subscribers bytes) subscribers
unfolding disarm_waitlines
disarm-AllDisarmed next limit [] bytes l h zero_from = record {
  size = refl;
  below = λ other width k. refl;
  above = λ other width k. refl;
  waits = tt;
}
disarm-AllDisarmed next limit (s ∷ more) bytes l h zero_from =
    let behind = Lines-le (next + 128) limit more l.2 in
    let at = s.waitline_offset in
    let written = write_at at (le_bytes 8 topic_waitline_disarmed_bits) bytes in
    let one = write-Disarms at bytes (omega (arith, l.1, behind, h)) in
    let rest =
      disarm-AllDisarmed (next + 128) limit more written l.2 (omega (arith, one.size, h))
        (λ other k.
          one.above other 8 (omega (arith, l.1, k)) ∙ zero_from other (omega (arith, k))) in
    record {
      size = rest.size ∙ one.size;
      below = λ other width k.
          rest.below other width (omega (arith, k)) ∙ one.below other width (omega (arith, k, l.1));
      above = λ other width k.
          rest.above other width k ∙ one.above other width (omega (arith, k, l.1, behind));
      waits = (
        (
          rest.below at 8 (omega (arith, l.1)) ∙ one.armed,
          rest.below s.cursor_offset 8 (omega (arith, l.0))
              ∙ one.below s.cursor_offset 8 (omega (arith, l.0, l.1))
              ∙ zero_from s.cursor_offset (omega (arith, l.0)),
        ),
        rest.waits,
      );
    }

-- The memory of a topic that does not overflow 64 bits is as long as planned. In it the waiting
-- lines of the producers and of every subscriber are disarmed, and the head, every cursor and
-- every number in the slots are zero.
pub topic_data_object-Waits :
    (topic : TopicLayout) (slot_offset : ℕ)
    → topic.payload_size + 71 < 18446744073709551616
    → 128 + 128 * length topic.subscribers + topic.depth * topic_slot_size topic.payload_size
      < 18446744073709551616
    → (plan_topic_data topic).slots_offset ≤ slot_offset
    → (length (topic_data_object (plan_topic_data topic)).bytes
        ≡ (plan_topic_data topic).total_size)
      × (read_le 64 8 (topic_data_object (plan_topic_data topic)).bytes
          ≡ topic_waitline_disarmed_bits)
      × All
          (Waits (topic_data_object (plan_topic_data topic)).bytes)
          (plan_topic_data topic).subscribers
      × (read_le 0 8 (topic_data_object (plan_topic_data topic)).bytes ≡ 0)
      × (read_le slot_offset 8 (topic_data_object (plan_topic_data topic)).bytes ≡ 0)
unfolding topic_data_object plan_topic_data
topic_data_object-Waits topic slot_offset small fits slots =
    let l = plan_topic_data topic in
    let p = plan_topic_data-Lines topic small fits in
    let fresh = write_at 64 (le_bytes 8 topic_waitline_disarmed_bits) (zeros l.total_size) in
    let size = length-zeros l.total_size in
    let room : l.slots_offset ≤ l.total_size = omega (arith, p) in
    let one = write-Disarms 64 (zeros l.total_size) (omega (arith, size, room, p)) in
    let all =
      disarm-AllDisarmed 128 l.slots_offset l.subscribers fresh p.2
        (omega (arith, one.size, size, room))
        (λ other k. one.above other 8 (omega (arith, k)) ∙ read_le-zeros other 8 l.total_size) in
    (
      all.size ∙ one.size ∙ size,
      all.below 64 8 (omega arith) ∙ one.armed,
      all.waits,
      all.below 0 8 (omega arith) ∙ one.below 0 8 (omega arith) ∙ read_le-zeros 0 8 l.total_size,
      all.above slot_offset 8 slots
          ∙ one.above slot_offset 8 (omega (arith, slots, p))
          ∙ read_le-zeros slot_offset 8 l.total_size,
    )
