-- ===== src/Topic/Planned.antt =====
-- The places of a topic's parts.
use wrela.Prelude.{
  ℕ, ◌+◌, ◌*◌, ◌/◌, ◌%◌, ◌≤◌, ◌<◌, ◌≡◌, refl, sym, ap, subst, ◌∙◌, List, [], ◌∷◌, length, add64,
  mul64, arith,
}
use native.Mathlib.Nat.{mul_left_comm, mul-mod_right}
use wrela.Bytes.{Bytes}
use wrela.Topic.{
  TopicLayout, TopicDataSubscriberLayout, align_up_64, topic_slot_size, plan_subscribers,
  plan_topic_data,
}

-- Two cache lines for each subscriber, one behind the other from `next` on to `limit`.
abbrev pub Lines : ℕ → ℕ → List TopicDataSubscriberLayout → Type 0
Lines next limit [] = next ≡ limit
Lines next limit (s ∷ more) =
    (s.cursor_offset ≡ next) × (s.waitline_offset ≡ next + 64) × Lines (next + 128) limit more

subscribers-Lines :
    (next : ℕ) (subscribers : List Bytes)
    → next + 128 * length subscribers < 18446744073709551616
    → Lines next (plan_subscribers next subscribers).1 (plan_subscribers next subscribers).0
      × ((plan_subscribers next subscribers).1 ≡ next + 128 * length subscribers)
unfolding plan_subscribers
subscribers-Lines next [] h = (refl, omega arith)
subscribers-Lines next (s ∷ more) h =
    let step : add64 next 128 ≡ next + 128 = omega (arith, h) in
    let line : add64 next 64 ≡ next + 64 = omega (arith, h) in
    let rest = subscribers-Lines (next + 128) more (omega (arith, h)) in
    rw (step, line) ((refl, refl, rest.0), omega (arith, rest.1))

align_up_64-multiple :
    (value : ℕ)
    → value + 63 < 18446744073709551616
    → (align_up_64 value % 64 ≡ 0) × (value ≤ align_up_64 value) × (align_up_64 value < value + 64)
unfolding align_up_64
align_up_64-multiple value h = ground arith

slots-multiple : (depth slot : ℕ) → slot % 64 ≡ 0 → depth * slot % 64 ≡ 0
slots-multiple depth slot h =
    let whole : slot ≡ 64 * (slot / 64) = omega (arith, h) in
    ap (λ s. depth * s % 64) whole
    ∙ ap (λ n. n % 64) (mul_left_comm depth 64 (slot / 64))
    ∙ mul-mod_right 64 (depth * (slot / 64))

align_up_64-same : (value : ℕ) → value % 64 ≡ 0 → align_up_64 value ≡ value
unfolding align_up_64
align_up_64-same value h = ground (arith, h)

topic_slot_size-multiple :
    (payload_size : ℕ)
    → payload_size + 71 < 18446744073709551616
    → (topic_slot_size payload_size % 64 ≡ 0)
      × (8 + payload_size ≤ topic_slot_size payload_size)
      × (topic_slot_size payload_size < 72 + payload_size)
unfolding topic_slot_size
topic_slot_size-multiple payload_size h =
    let exact : add64 8 payload_size ≡ 8 + payload_size = omega (arith, h) in
    let m = align_up_64-multiple (8 + payload_size) (omega (arith, h)) in
    rw exact (m.0, m.1, omega (arith, m.2))

-- The parts of a topic's memory do not overlap: the head stands at 0 and the producers' waiting
-- line at 64; from 128 on stand two lines of 64 bytes for each subscriber, the cursor and the
-- waiting line, one behind the other, and behind them the slots. A slot has room for its sequence number and the payload, takes whole
-- lines and less than 64 bytes more than it needs, and the slots end with the memory. This holds
-- if the payload's size and the whole do not overflow 64 bits.
pub plan_topic_data-Lines :
    (topic : TopicLayout)
    → topic.payload_size + 71 < 18446744073709551616
    → 128 + 128 * length topic.subscribers + topic.depth * topic_slot_size topic.payload_size
      < 18446744073709551616
    → ((plan_topic_data topic).head_offset ≡ 0)
      × ((plan_topic_data topic).producer_waitline_offset ≡ 64)
      × Lines 128 (plan_topic_data topic).slots_offset (plan_topic_data topic).subscribers
      × ((plan_topic_data topic).slots_offset ≡ 128 + 128 * length topic.subscribers)
      × ((plan_topic_data topic).slot_size % 64 ≡ 0)
      × (8 + topic.payload_size ≤ (plan_topic_data topic).slot_size)
      × ((plan_topic_data topic).slot_size < 72 + topic.payload_size)
      × ((plan_topic_data topic).total_size
          ≡ (plan_topic_data topic).slots_offset + topic.depth * (plan_topic_data topic).slot_size)
unfolding plan_topic_data
plan_topic_data-Lines topic small fits =
    let n = length topic.subscribers in
    let slot = topic_slot_size topic.payload_size in
    let lines = subscribers-Lines 128 topic.subscribers (omega (arith, fits)) in
    let sizes = topic_slot_size-multiple topic.payload_size small in
    let slots = slots-multiple topic.depth slot sizes.0 in
    let start : align_up_64 (plan_subscribers 128 topic.subscribers).1 ≡ 128 + 128 * n =
      ap align_up_64 lines.1 ∙ align_up_64-same (128 + 128 * n) (omega arith) in
    let area : mul64 topic.depth slot ≡ topic.depth * slot = omega (arith, fits) in
    let whole : add64 (128 + 128 * n) (topic.depth * slot) ≡ 128 + 128 * n + topic.depth * slot =
      omega (arith, fits) in
    let total : align_up_64 (128 + 128 * n + topic.depth * slot)
        ≡ 128 + 128 * n + topic.depth * slot =
      align_up_64-same (128 + 128 * n + topic.depth * slot) (omega (arith, slots)) in
    (
      refl,
      refl,
      subst (λ limit. Lines 128 limit (plan_subscribers 128 topic.subscribers).0)
          (lines.1 ∙ sym start) lines.0,
      start,
      sizes.0,
      sizes.1,
      sizes.2,
      rw (start, area, whole) total,
    )
