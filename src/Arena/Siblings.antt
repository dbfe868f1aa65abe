-- ===== src/Arena/Siblings.antt =====
-- Arenas below one parent, in plain terms: `arenaHasStaticRange` and the tests on the parent.
use wrela.Prelude.{◌+◌, ◌<◌, ◌≡◌, ◌≢◌, ◌↔◌, refl, true, ◌&&◌, [], IsU64, arith}
use wrela.Bytes.{Bytes, bytes_eq}
use wrela.Bytes.Laws.{bytes_eq_iff}
use wrela.Arena.{
  ArenaKind, root_arena, child_arena, executor_memory, cache_memory, dma_buffer, interrupt_queue,
  ArenaNode, arena_has_static_range, arena_ranges_overlap,
}

-- The arena lies at a place of its own below the parent.
abbrev pub IsSibling : Bytes → ArenaNode → Type 0
IsSibling parent arena = (arena.parent ≡ parent) × (arena.kind ≢ root_arena)

-- Both lie below one parent, which has a name, and each range begins before the other ends.
abbrev pub Collide : ArenaNode → ArenaNode → Type 0
Collide a b =
    (a.parent ≢ [])
    × (a.parent ≡ b.parent)
    × (a.kind ≢ root_arena)
    × (b.kind ≢ root_arena)
    × (a.offset < b.offset + b.bytes)
    × (b.offset < a.offset + a.bytes)

pub arena_has_static_range_iff :
    (arena : ArenaNode) → (arena_has_static_range arena ≡ true) ↔ (arena.kind ≢ root_arena)
arena_has_static_range_iff arena = by_kind arena.kind
  where
    by_kind :
        (kind : ArenaKind)
        → (arena_has_static_range (record arena { kind = kind }) ≡ true) ↔ (kind ≢ root_arena)
    by_kind root_arena = (λ h. absurd cc, λ h. absurd (h refl))
    by_kind child_arena = (λ h e. absurd cc, λ h. refl)
    by_kind executor_memory = (λ h e. absurd cc, λ h. refl)
    by_kind cache_memory = (λ h e. absurd cc, λ h. refl)
    by_kind dma_buffer = (λ h e. absurd cc, λ h. refl)
    by_kind interrupt_queue = (λ h e. absurd cc, λ h. refl)

pub below_parent_iff :
    (parent : Bytes) (arena : ArenaNode)
    → ((bytes_eq arena.parent parent && arena_has_static_range arena) ≡ true)
      ↔ IsSibling parent arena
below_parent_iff parent arena =
    ground (arith, bytes_eq_iff arena.parent parent, arena_has_static_range_iff arena)

pub arena_ranges_overlap-Collide :
    (a b : ArenaNode)
    → IsU64 (a.offset + a.bytes)
    → IsU64 (b.offset + b.bytes)
    → (arena_ranges_overlap a b ≡ true) ↔ Collide a b
unfolding arena_ranges_overlap
arena_ranges_overlap-Collide a b u w = ground (
  arith,
  bytes_eq_iff a.parent [],
  bytes_eq_iff b.parent [],
  bytes_eq_iff a.parent b.parent,
  arena_has_static_range_iff a,
  arena_has_static_range_iff b,
)
