-- ===== src/Tests/Memory.antt =====
-- The memory of topics and queues, and the arenas.
use wrela.Prelude.{
  ℕ, ◌+◌, ◌*◌, ◌%◌, ◌≤◌, ◌<◌, ◌≡◌, refl, ◌↔◌, ◌⊎◌, inr, List, [], ◌∷◌, some, length, All, arith,
}
use wrela.Bytes.{Bytes, read_le}
use wrela.Masks.{span}
use wrela.Topic.{
  TopicLayout, topic_waitline_disarmed_bits, plan_topic_data, plan_subscribers, align_up_64,
  topic_slot_size, topic_data_object, InterruptQueueLayout, interrupt_queue_data_size,
}
use wrela.Topic.Planned.{Lines, plan_topic_data-Lines}
use wrela.Topic.Objects.{Waits, topic_data_object-Waits}
use wrela.Topic.Queues.{interrupt_queue_data_size_iff}
use wrela.Arena.{
  ArenaNode, child_arena, dma_buffer, LocalOrigin, arena_ranges_overlap, next_end, later_end,
  implicit_arena_allocation, next_implicit_arena_offset, align_arena_offset, validate_arena_graph,
  duplicates, overlaps, overlaps_with, overlapping_placement,
}
use wrela.Arena.Allocation.{EndsBy, EndsAt, implicit_arena_allocation-apart}
use wrela.Arena.Checks.{Pairwise, HaveOneLabel, validate_arena_graph_iff}
use wrela.Arena.Siblings.{Collide}

abbrev topic : TopicLayout
topic = record {
  label = b't' ∷ [];
  kind = b't' ∷ [];
  depth = 4;
  payload_size = 57;
  payload_align = 8;
  producers = [];
  subscribers = (b'a' ∷ []) ∷ (b'b' ∷ []) ∷ [];
}

topic_sizes :
    ((plan_topic_data topic).slots_offset ≡ 384)
    × ((plan_topic_data topic).slot_size ≡ 128)
    × ((plan_topic_data topic).total_size ≡ 896)
unfolding plan_topic_data plan_subscribers align_up_64 topic_slot_size
topic_sizes = (refl, refl, refl)

slot_size-small :
    128 + 128 * length topic.subscribers + topic.depth * topic_slot_size topic.payload_size
    < 18446744073709551616
unfolding topic_slot_size align_up_64
slot_size-small = omega arith

slot_two : (plan_topic_data topic).slots_offset ≤ 640
unfolding plan_topic_data plan_subscribers align_up_64 topic_slot_size
slot_two = omega arith

plan_topic_data-Lines_example :
    ((plan_topic_data topic).head_offset ≡ 0)
    × ((plan_topic_data topic).producer_waitline_offset ≡ 64)
    × Lines 128 (plan_topic_data topic).slots_offset (plan_topic_data topic).subscribers
    × ((plan_topic_data topic).slots_offset ≡ 128 + 128 * length topic.subscribers)
    × ((plan_topic_data topic).slot_size % 64 ≡ 0)
    × (8 + topic.payload_size ≤ (plan_topic_data topic).slot_size)
    × ((plan_topic_data topic).slot_size < 72 + topic.payload_size)
    × ((plan_topic_data topic).total_size
        ≡ (plan_topic_data topic).slots_offset + topic.depth * (plan_topic_data topic).slot_size)
plan_topic_data-Lines_example = plan_topic_data-Lines topic (omega arith) slot_size-small

topic_data_object-Waits_example :
    (length (topic_data_object (plan_topic_data topic)).bytes ≡ (plan_topic_data topic).total_size)
    × (read_le 64 8 (topic_data_object (plan_topic_data topic)).bytes
        ≡ topic_waitline_disarmed_bits)
    × All
        (Waits (topic_data_object (plan_topic_data topic)).bytes)
        (plan_topic_data topic).subscribers
    × (read_le 0 8 (topic_data_object (plan_topic_data topic)).bytes ≡ 0)
    × (read_le 640 8 (topic_data_object (plan_topic_data topic)).bytes ≡ 0)
topic_data_object-Waits_example =
    topic_data_object-Waits topic 640 (omega arith) slot_size-small slot_two

abbrev queue : InterruptQueueLayout
queue = record { label = b'q' ∷ []; capacity = 8; payload_size = 24; payload_align = 8 }

interrupt_queue_data_size_iff_example :
    (interrupt_queue_data_size queue ≡ some 224)
    ↔ ((32 + queue.capacity * queue.payload_size ≡ 224) × (224 ≤ 9223372036854775807))
interrupt_queue_data_size_iff_example = interrupt_queue_data_size_iff queue 224

abbrev child : Bytes → ℕ → ℕ → ArenaNode
child label offset bytes = record {
  label = label;
  parent = b'r' ∷ [];
  base = 4096 + offset;
  offset = offset;
  bytes = bytes;
  align = 1;
  owner = [];
  kind = child_arena;
}

abbrev arenas : List ArenaNode
arenas = child (b'a' ∷ []) 0 100 ∷ child (b'b' ∷ []) 200 50 ∷ []

abbrev root : LocalOrigin
root = record {
  arena_label = b'r' ∷ [];
  arena_base = 4096;
  arena_bytes = 65536;
  arena_align = 4096;
}

placed : (implicit_arena_allocation arenas root (b'd' ∷ []) [] dma_buffer 64 64).offset ≡ 256
unfolding implicit_arena_allocation next_implicit_arena_offset align_arena_offset next_end later_end
placed = refl

abbrev new : ArenaNode
new = implicit_arena_allocation arenas root (b'd' ∷ []) [] dma_buffer 64 (span 6)

implicit_arena_allocation-apart_example :
    (new.parent ≡ root.arena_label)
    × All (EndsBy root.arena_label new.offset) arenas
    × (new.base % span 6 ≡ 0)
    × ((end : ℕ) × ((end ≡ 0) ⊎ EndsAt root.arena_label end arenas)
        × (end ≤ new.offset)
        × (new.offset < end + span 6))
implicit_arena_allocation-apart_example =
    implicit_arena_allocation-apart arenas root (b'd' ∷ []) [] dma_buffer 64 58 6 refl (omega arith)
      (omega arith) (inr (omega arith), (inr (omega arith), tt))

overlapping :
    validate_arena_graph (child (b'c' ∷ []) 210 10 ∷ arenas)
    ≡ overlapping_placement (child (b'b' ∷ []) 200 50) ∷ []
unfolding validate_arena_graph duplicates overlaps overlaps_with arena_ranges_overlap
overlapping = refl

validate_arena_graph_iff_example :
    (validate_arena_graph arenas ≡ []) ↔ (Pairwise HaveOneLabel arenas × Pairwise Collide arenas)
validate_arena_graph_iff_example = validate_arena_graph_iff arenas (omega arith, (omega arith, tt))
