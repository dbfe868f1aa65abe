-- ===== src/Topic.antt =====
-- The memory of topics and of interrupt queues: compiler/codegen/topic_data.go and
-- compiler/codegen/interrupt_queue.go.
pub mod Planned
pub mod Objects
pub mod Queues
use wrela.Prelude.{
  ℕ, zero, suc, ◌+◌, ◌-◌, ◌*◌, ◌/◌, ◌%◌, Bool, true, false, ◌&&◌, ◌||◌, not, List, [], ◌∷◌, ◌++◌,
  map, Option, none, some, ◌==◌, ltb, leb, if◌then◌else◌, length, u64, add64, mul64,
}
use wrela.Bytes.{Bytes, bytes_eq, le_bytes, write_at}
use wrela.Lex.Utf8.{decode_rune}
use Prim.Native.Nat.{bit_and}

abbrev pub cache_line_size : ℕ
cache_line_size = 64

-- `topicWaitlineDisarmedBits`
abbrev pub topic_waitline_disarmed_bits : ℕ
topic_waitline_disarmed_bits = 18446744073709551615

-- `ir.TopicLayout`
pub record TopicLayout : Type 0 where
  pub label : Bytes
  pub kind : Bytes
  pub depth : ℕ
  pub payload_size : ℕ
  pub payload_align : ℕ
  pub producers : List Bytes
  pub subscribers : List Bytes

pub record TopicDataSubscriberLayout : Type 0 where
  pub label : Bytes
  pub cursor_offset : ℕ
  pub waitline_offset : ℕ

pub record TopicDataLayout : Type 0 where
  pub label : Bytes
  pub kind : Bytes
  pub depth : ℕ
  pub head_offset : ℕ
  pub producer_waitline_offset : ℕ
  pub slots_offset : ℕ
  pub payload_size : ℕ
  pub slot_size : ℕ
  pub producers : List Bytes
  pub subscribers : List TopicDataSubscriberLayout
  pub total_size : ℕ

-- `alignUp64`
unfoldable pub align_up_64 : ℕ → ℕ
align_up_64 value = if value % 64 == 0 then value else u64 (value + 64 - value % 64)

-- `topicSlotSize`
unfoldable pub topic_slot_size : ℕ → ℕ
topic_slot_size payload_size = align_up_64 (add64 8 payload_size)

abbrev reliable : Bytes
reliable = b'r' ∷ b'e' ∷ b'l' ∷ b'i' ∷ b'a' ∷ b'b' ∷ b'l' ∷ b'e' ∷ []

-- `isReliableTopicKind`
unfoldable pub is_reliable_topic_kind : Bytes → Bool
is_reliable_topic_kind kind =
    bytes_eq kind reliable || bytes_eq kind (reliable ++ b'_' ∷ b'u' ∷ b'6' ∷ b'4' ∷ [])

-- The loop over the subscribers: their places, and the value of `next` behind it.
unfoldable pub plan_subscribers : ℕ → List Bytes → List TopicDataSubscriberLayout × ℕ
plan_subscribers next [] = ([], next)
plan_subscribers next (subscriber ∷ more) =
    let (places, after) = plan_subscribers (add64 next (2 * cache_line_size)) more in
    (
      record {
        label = subscriber;
        cursor_offset = next;
        waitline_offset = add64 next cache_line_size;
      }
          ∷ places,
      after,
    )

-- `planTopicData`
unfoldable pub plan_topic_data : TopicLayout → TopicDataLayout
plan_topic_data topic =
    let (places, next) = plan_subscribers (2 * cache_line_size) topic.subscribers in
    let slot_size = topic_slot_size topic.payload_size in
    let slots_offset = align_up_64 next in
    record {
      label = topic.label;
      kind = topic.kind;
      depth = topic.depth;
      head_offset = 0;
      producer_waitline_offset = cache_line_size;
      slots_offset = slots_offset;
      payload_size = topic.payload_size;
      slot_size = slot_size;
      producers = topic.producers;
      subscribers = places;
      total_size = align_up_64 (add64 slots_offset (mul64 topic.depth slot_size));
    }

-- The diagnostics SEM0066, SEM0046 and CG0001.
pub data TopicError : Type 0 where
  layout_unknown depth_not_power_of_two no_subscriber : TopicError

pub data TopicPlan {ℓ} (A : Type ℓ) : Type ℓ where
  planned : A → TopicPlan A
  rejected : TopicError → TopicPlan A

-- `planTopicDataChecked`
unfoldable pub plan_topic_data_checked : TopicLayout → TopicPlan TopicDataLayout
plan_topic_data_checked topic =
    if topic.payload_size == 0 || topic.payload_align == 0
    then rejected layout_unknown
    else if topic.depth == 0 || not (bit_and topic.depth (topic.depth - 1) == 0)
    then rejected depth_not_power_of_two
    else if is_reliable_topic_kind topic.kind && length topic.subscribers == 0
    then rejected no_subscriber
    else planned (plan_topic_data topic)

-- `ir.DataObject`
pub record DataObject : Type 0 where
  pub symbol : Bytes
  pub bytes : Bytes
  pub align : ℕ

-- `make([]byte, n)`
abbrev pub zeros : ℕ → Bytes
zeros zero = []
zeros (suc n) = 0 ∷ zeros n

abbrev is_symbol_char : ℕ → Bool
is_symbol_char c =
    leb b'A' c && leb c b'Z' || leb b'a' c && leb c b'z' || leb b'0' c && leb c b'9' || c == b'_'

-- `sanitizeSymbol`: a rune at a time, `skip` bytes of the last one are still to be passed.
unfoldable pub sanitize_loop : ℕ → Bytes → Bytes
sanitize_loop skip [] = []
sanitize_loop (suc skip) (c ∷ cs) = sanitize_loop skip cs
sanitize_loop zero (c ∷ cs) =
    let (rune, width) = decode_rune (c ∷ cs) in
    (if is_symbol_char rune then rune else b'_') ∷ sanitize_loop (width - 1) cs

unfoldable pub sanitize_symbol : Bytes → Bytes
unfolding sanitize_loop
sanitize_symbol label = sanitize_loop 0 label

-- The loop of `topicDataObjects` over the subscribers.
unfoldable pub disarm_waitlines : List TopicDataSubscriberLayout → Bytes → Bytes
disarm_waitlines [] bytes = bytes
disarm_waitlines (s ∷ more) bytes =
    disarm_waitlines more
      (write_at s.waitline_offset (le_bytes 8 topic_waitline_disarmed_bits) bytes)

abbrev topic_prefix : Bytes
topic_prefix =
    b'_' ∷ b'w' ∷ b'r' ∷ b'e' ∷ b'l' ∷ b'a' ∷ b'_' ∷ b't' ∷ b'o' ∷ b'p' ∷ b'i' ∷ b'c' ∷ b'_' ∷ []

-- The body of the loop of `topicDataObjects` over the layouts.
unfoldable pub topic_data_object : TopicDataLayout → DataObject
topic_data_object layout =
    let fresh =
      write_at layout.producer_waitline_offset (le_bytes 8 topic_waitline_disarmed_bits)
        (zeros layout.total_size) in
    record {
      symbol = topic_prefix ++ sanitize_symbol layout.label;
      bytes = disarm_waitlines layout.subscribers fresh;
      align = cache_line_size;
    }

-- The order of Go's strings.
abbrev comes_before : Bytes → Bytes → Bool
comes_before [] [] = false
comes_before [] (d ∷ ds) = true
comes_before (c ∷ cs) [] = false
comes_before (c ∷ cs) (d ∷ ds) = ltb c d || c == d && comes_before cs ds

unfoldable pub insert_by_label : TopicLayout → List TopicLayout → List TopicLayout
insert_by_label topic [] = topic ∷ []
insert_by_label topic (t ∷ ts) =
    if comes_before t.label topic.label then t ∷ insert_by_label topic ts else topic ∷ t ∷ ts

-- `sort.Slice` by the labels. Of topics with equal labels it may give any order; this is one.
unfoldable pub sort_by_label : List TopicLayout → List TopicLayout
unfolding insert_by_label
sort_by_label [] = []
sort_by_label (topic ∷ more) = insert_by_label topic (sort_by_label more)

-- The loop of `orderedTopicDataLayouts` over the sorted topics.
unfoldable pub plan_all : List TopicLayout → TopicPlan (List TopicDataLayout)
plan_all [] = planned []
plan_all (topic ∷ more) =
    let rest = plan_all more in
    elim (plan_topic_data_checked topic) [
      | rejected e ↦ rejected e
      | planned layout ↦ elim rest [
        | rejected e ↦ rejected e
        | planned layouts ↦ planned (layout ∷ layouts)
      ]
    ]

-- `orderedTopicDataLayouts`
unfoldable pub ordered_topic_data_layouts : List TopicLayout → TopicPlan (List TopicDataLayout)
ordered_topic_data_layouts topics = plan_all (sort_by_label topics)

abbrev objects_of : TopicPlan (List TopicDataLayout) → TopicPlan (List DataObject)
objects_of (rejected e) = rejected e
objects_of (planned layouts) = planned (map topic_data_object layouts)

-- `topicDataObjects`
unfoldable pub topic_data_objects : List TopicLayout → TopicPlan (List DataObject)
topic_data_objects topics = objects_of (ordered_topic_data_layouts topics)

-- `ir.InterruptQueueLayout`, the fields that the size depends on.
pub record InterruptQueueLayout : Type 0 where
  pub label : Bytes
  pub capacity : ℕ
  pub payload_size : ℕ
  pub payload_align : ℕ

-- `interruptQueueDataSize`, on a machine with 64-bit `int`.
unfoldable pub interrupt_queue_data_size : InterruptQueueLayout → Option ℕ
interrupt_queue_data_size q =
    if not (q.payload_size == 0) && ltb ((18446744073709551615 - 32) / q.payload_size) q.capacity
    then none
    else (let size = add64 32 (mul64 q.capacity q.payload_size) in
        if ltb 9223372036854775807 size then none else some size)

abbrev queue_prefix : Bytes
queue_prefix =
    b'_' ∷ b'w' ∷ b'r' ∷ b'e' ∷ b'l' ∷ b'a' ∷ b'_' ∷ b'i' ∷ b'n' ∷ b't' ∷ b'e' ∷ b'r' ∷ b'r' ∷ b'u'
    ∷ b'p' ∷ b't' ∷ b'_' ∷ b'q' ∷ b'u' ∷ b'e' ∷ b'u' ∷ b'e' ∷ b'_' ∷ []

abbrev queue_object_of_size : InterruptQueueLayout → Option ℕ → Option DataObject
queue_object_of_size q none = none
queue_object_of_size q (some size) = some (record {
  symbol = queue_prefix ++ sanitize_symbol q.label;
  bytes = write_at 16 (le_bytes 8 q.capacity) (zeros size);
  align = if q.payload_align == 0 then 8 else q.payload_align;
})

-- `interruptQueueDataObject`
unfoldable pub interrupt_queue_data_object : InterruptQueueLayout → Option DataObject
interrupt_queue_data_object q = queue_object_of_size q (interrupt_queue_data_size q)
