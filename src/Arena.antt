-- ===== src/Arena.antt =====
-- The arenas of an image: compiler/sem/memory_graph.go.
pub mod Allocation
pub mod Checks
pub mod Siblings
use wrela.Prelude.{
  ℕ, zero, suc, ◌+◌, ◌-◌, ◌*◌, ◌/◌, Bool, true, false, ◌&&◌, ◌||◌, not, List, [], ◌∷◌, ◌++◌, map,
  Option, none, some, ◌==◌, ltb, if◌then◌else◌, u64, add64, sub64,
}
use wrela.Bytes.{Bytes, bytes_eq}
use Prim.Native.Nat.{bit_and}

-- The values of `ArenaNode.Kind`.
pub data ArenaKind : Type 0 where
  root_arena child_arena executor_memory cache_memory dma_buffer interrupt_queue : ArenaKind

-- `ArenaNode`, without its place in the source.
pub record ArenaNode : Type 0 where
  pub label : Bytes
  pub parent : Bytes
  pub base : ℕ
  pub offset : ℕ
  pub bytes : ℕ
  pub align : ℕ
  pub owner : Bytes
  pub kind : ArenaKind

-- `arenaHasStaticRange`
abbrev has_static_range_kind : ArenaKind → Bool
has_static_range_kind root_arena = false
has_static_range_kind _ = true

abbrev pub arena_has_static_range : ArenaNode → Bool
arena_has_static_range arena = has_static_range_kind arena.kind

-- `arenaRangesOverlap`
unfoldable pub arena_ranges_overlap : ArenaNode → ArenaNode → Bool
arena_ranges_overlap a b =
    if not (arena_has_static_range a) || not (arena_has_static_range b)
    then false
    else if bytes_eq a.parent [] || bytes_eq b.parent [] || not (bytes_eq a.parent b.parent)
    then false
    else (ltb a.offset (add64 b.offset b.bytes) && ltb b.offset (add64 a.offset a.bytes))

-- `alignArenaOffset`
unfoldable pub align_arena_offset : ℕ → ℕ → ℕ
align_arena_offset offset align =
    if align == 0 then offset else bit_and (sub64 (add64 offset align) 1) (sub64 0 align)

-- The body of the loop of `nextImplicitArenaOffset`.
unfoldable pub later_end : Bytes → ℕ → ArenaNode → ℕ
later_end parent next arena =
    if not (bytes_eq arena.parent parent) || not (arena_has_static_range arena)
    then next
    else if ltb next (add64 arena.offset arena.bytes)
    then add64 arena.offset arena.bytes
    else next

-- The loop: the largest end of a static range below the parent.
unfoldable pub next_end : Bytes → ℕ → List ArenaNode → ℕ
next_end parent next [] = next
next_end parent next (arena ∷ more) = next_end parent (later_end parent next arena) more

-- `nextImplicitArenaOffset`
unfoldable pub next_implicit_arena_offset : List ArenaNode → ℕ → Bytes → ℕ → ℕ
next_implicit_arena_offset arenas parent_base parent align =
    sub64 (align_arena_offset (add64 parent_base (next_end parent 0 arenas)) align) parent_base

-- The arena that a method is called on, as the checker knows it.
pub record LocalOrigin : Type 0 where
  pub arena_label : Bytes
  pub arena_base : ℕ
  pub arena_bytes : ℕ
  pub arena_align : ℕ

-- `implicitArenaAllocation`
unfoldable pub implicit_arena_allocation :
    List ArenaNode → LocalOrigin → Bytes → Bytes → ArenaKind → ℕ → ℕ → ArenaNode
implicit_arena_allocation arenas receiver label owner kind length align =
    let offset = next_implicit_arena_offset arenas receiver.arena_base receiver.arena_label align in
    record {
      label = label;
      parent = receiver.arena_label;
      base = add64 receiver.arena_base offset;
      offset = offset;
      bytes = length;
      align = align;
      owner = owner;
      kind = kind;
    }

-- The literal arguments `offset`, `length` and `align` of a call, none where one is missing.
pub record Placement : Type 0 where
  pub offset : ℕ
  pub length : ℕ
  pub align : ℕ

-- The calls that add an arena, with their literal arguments; 0 and the empty label stand for
-- arguments that are none.
pub data ArenaCall : Type 0 where
  create_arena : Bytes → ArenaCall
  child_at : Bytes → Option Placement → ArenaCall
  executor_memory_call : Bytes → ℕ → ℕ → ArenaCall
  cache_arena_call : Bytes → ℕ → ℕ → ArenaCall
  dma_buffer_call : Bytes → Bytes → ℕ → ℕ → ArenaCall

abbrev child_node : LocalOrigin → Bytes → Option Placement → ArenaNode
child_node receiver label none = record {
  label = label;
  parent = receiver.arena_label;
  base = 0;
  offset = 0;
  bytes = 0;
  align = 0;
  owner = [];
  kind = child_arena;
}
child_node receiver label (some p) =
    let base = align_arena_offset (add64 receiver.arena_base p.offset) p.align in
    record {
      label = label;
      parent = receiver.arena_label;
      base = base;
      offset = sub64 base receiver.arena_base;
      bytes = p.length;
      align = p.align;
      owner = [];
      kind = child_arena;
    }

-- The node that `recordCreateArenaFromRegion`, `recordRootArenaChildAt`,
-- `recordChildArenaChildAt`, `recordRootArenaExecutorMemory`, `recordRootArenaCacheArena` or
-- `recordRootArenaDMA` adds.
unfoldable pub node_of_call : List ArenaNode → LocalOrigin → ArenaCall → ArenaNode
node_of_call arenas receiver (create_arena label) = record {
  label = label;
  parent = [];
  base = receiver.arena_base;
  offset = 0;
  bytes = receiver.arena_bytes;
  align = receiver.arena_align;
  owner = [];
  kind = root_arena;
}
node_of_call arenas receiver (child_at label placement) = child_node receiver label placement
node_of_call arenas receiver (executor_memory_call owner length align) =
    implicit_arena_allocation arenas receiver [] owner executor_memory length align
node_of_call arenas receiver (cache_arena_call label length align) =
    implicit_arena_allocation arenas receiver label receiver.arena_label cache_memory length align
node_of_call arenas receiver (dma_buffer_call label owner length align) =
    implicit_arena_allocation arenas receiver label owner dma_buffer length align

unfoldable pub record_call : List ArenaNode → LocalOrigin → ArenaCall → List ArenaNode
record_call arenas receiver call = arenas ++ node_of_call arenas receiver call ∷ []

-- The diagnostics SEM0057 with the label and SEM0058 with the node that they point at.
pub data ArenaError : Type 0 where
  duplicate_identity : Bytes → ArenaError
  overlapping_placement : ArenaNode → ArenaError

abbrev pub seen_in : List Bytes → Bytes → Bool
seen_in [] label = false
seen_in (l ∷ ls) label = bytes_eq l label || seen_in ls label

-- The first loop of `validateArenaGraph`.
unfoldable pub duplicates : List Bytes → List ArenaNode → List ArenaError
duplicates seen [] = []
duplicates seen (arena ∷ more) =
    let rest = duplicates (arena.label ∷ seen) more in
    let unlabelled = duplicates seen more in
    if bytes_eq arena.label []
    then unlabelled
    else if seen_in seen arena.label
    then duplicate_identity arena.label ∷ rest
    else rest

-- The second one: every later arena against the one at hand.
unfoldable pub overlaps_with : ArenaNode → List ArenaNode → List ArenaError
overlaps_with a [] = []
overlaps_with a (b ∷ more) =
    let rest = overlaps_with a more in
    if arena_ranges_overlap a b then overlapping_placement b ∷ rest else rest

unfoldable pub overlaps : List ArenaNode → List ArenaError
overlaps [] = []
overlaps (a ∷ more) = overlaps_with a more ++ overlaps more

-- `validateArenaGraph`
unfoldable pub validate_arena_graph : List ArenaNode → List ArenaError
validate_arena_graph arenas = duplicates [] arenas ++ overlaps arenas

-- `interruptQueuePayloadBytes`
unfoldable pub interrupt_queue_payload_bytes : ℕ → ℕ → Option ℕ
interrupt_queue_payload_bytes capacity payload_size =
    if not (payload_size == 0) && ltb (18446744073709551615 / payload_size) capacity
    then none
    else some (u64 (capacity * payload_size))
