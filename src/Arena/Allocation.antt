-- ===== src/Arena/Allocation.antt =====
-- Where implicit allocations are placed.
use wrela.Prelude.{
  ℕ, zero, suc, ◌+◌, ◌-◌, ◌/◌, ◌%◌, ◌≤◌, ◌<◌, ◌≡◌, ◌⊎◌, refl, sym, subst, inl, inr, ap, Bool-cases,
  ◌∙◌, false, ◌&&◌, List, [], ◌∷◌, ◌==◌, All, All-mono, IsU64, add64, sub64, arith,
}
use native.Mathlib.Nat.{mod-add-div', mod-lt, mul-mod_left}
use wrela.Masks.{span, bit_and-high}
use wrela.Bytes.{Bytes, bytes_eq}
use wrela.Arena.Siblings.{IsSibling, below_parent_iff}
use wrela.Arena.{
  ArenaNode, ArenaKind, LocalOrigin, arena_has_static_range, align_arena_offset, later_end,
  next_end, next_implicit_arena_offset, implicit_arena_allocation,
}

span_positive : (k : ℕ) → 0 < span k
span_positive zero = omega arith
span_positive (suc k) = omega (arith, span_positive k)

-- Rounding up to a power of two.
align_arena_offset-rounds :
    (offset j k : ℕ)
    → j + k ≡ 64
    → offset + span k ≤ 18446744073709551616
    → IsU64 (span k)
    → (offset ≤ align_arena_offset offset (span k))
      × (align_arena_offset offset (span k) < offset + span k)
      × (align_arena_offset offset (span k) % span k ≡ 0)
unfolding align_arena_offset
align_arena_offset-rounds offset j k whole h small =
    let s = span k in
    let p = span_positive k in
    let a = offset + s - 1 in
    let two_64 : span (j + k) ≡ 18446744073709551616 = ap span whole in
    let masked = bit_and-high k a j (omega (arith, two_64, h, p)) in
    let left : sub64 (add64 offset s) 1 ≡ a = omega (arith, h, p) in
    let right : sub64 0 s ≡ span (j + k) - s = omega (arith, two_64, p, small) in
    let proper : (s == 0) ≡ false = ground (arith, p) in
    let parts = mod-add-div' a s in
    let low = mod-lt a p in
    rw (proper, left, right, masked)
      (omega (arith, parts, low, p), omega (arith, parts, low, p), mul-mod_left (a / s) s)

next_end-le :
    (parent : Bytes) (arenas : List ArenaNode) (next : ℕ) → next ≤ next_end parent next arenas
unfolding next_end later_end
next_end-le parent [] next = omega arith
next_end-le parent (arena ∷ more) next =
    ground (arith, next_end-le parent more (later_end parent next arena))

-- An arena below the parent ends before the limit.
abbrev pub EndsBy : Bytes → ℕ → ArenaNode → Type 0
EndsBy parent limit arena = (¬ IsSibling parent arena) ⊎ (arena.offset + arena.bytes ≤ limit)

-- Behind an arena below the parent `room` bytes are left of the 2^64 addresses.
abbrev pub LeavesRoom : ℕ → ℕ → Bytes → ArenaNode → Type 0
LeavesRoom base room parent arena =
    (¬ IsSibling parent arena) ⊎ (base + (arena.offset + arena.bytes) + room ≤ 18446744073709551616)

-- An arena below the parent that reaches to `end`.
abbrev pub EndsAt : Bytes → ℕ → List ArenaNode → Type 0
EndsAt parent end [] = ⊥
EndsAt parent end (arena ∷ more) =
    (IsSibling parent arena × (arena.offset + arena.bytes ≡ end)) ⊎ EndsAt parent end more

-- One round: an arena below the parent counts with its end, any other does not.
later_end-cases :
    (base room : ℕ) (parent : Bytes) (next : ℕ) (arena : ArenaNode)
    → 0 < room
    → LeavesRoom base room parent arena
    → ((¬ IsSibling parent arena) × (later_end parent next arena ≡ next))
      ⊎ (IsSibling parent arena
          × (base + (arena.offset + arena.bytes) + room ≤ 18446744073709551616)
          × (((arena.offset + arena.bytes ≤ next) × (later_end parent next arena ≡ next))
              ⊎ ((next < arena.offset + arena.bytes)
                  × (later_end parent next arena ≡ arena.offset + arena.bytes))))
unfolding later_end
later_end-cases base room parent next arena pos leaves =
    elim (Bool-cases (bytes_eq arena.parent parent && arena_has_static_range arena)) [
      | inl below ↦ elim leaves [
        | inl apart ↦ absurd (apart ((below_parent_iff parent arena).0 below))
        | inr fits ↦
            inr ((below_parent_iff parent arena).0 below, fits, ground (arith, below, fits, pos))
      ]
      | inr apart ↦
          inl
            ((λ sibling. let below = (below_parent_iff parent arena).1 sibling in cc), ground arith)
    ]

record Finds (base room : ℕ) (parent : Bytes) (next : ℕ) (arenas : List ArenaNode) (end : ℕ)
    : Type 0 where
  behind : All (EndsBy parent end) arenas
  reached : (end ≡ next) ⊎ EndsAt parent end arenas
  room_left : base + end + room ≤ 18446744073709551616

next_end-Finds :
    (base room : ℕ) (parent : Bytes) (next : ℕ) (arenas : List ArenaNode)
    → 0 < room
    → All (LeavesRoom base room parent) arenas
    → base + next + room ≤ 18446744073709551616
    → Finds base room parent next arenas (next_end parent next arenas)
unfolding next_end
next_end-Finds base room parent next [] pos h u = record {
  behind = tt;
  reached = inl refl;
  room_left = u;
}
next_end-Finds base room parent next (arena ∷ more) pos h u =
    let found : ℕ → Type 0 =
      λ n. Finds base room parent next (arena ∷ more) (next_end parent n more) in
    elim (later_end-cases base room parent next arena pos h.0) [
      | inl (apart, e) ↦
          let rest = next_end-Finds base room parent next more pos h.1 u in
          subst found (sym e) (record {
            behind = (inl apart, rest.behind);
            reached = later rest.reached;
            room_left = rest.room_left;
          })
      | inr (sibling, fits, inl (short, e)) ↦
          let rest = next_end-Finds base room parent next more pos h.1 u in
          let low = next_end-le parent more next in
          subst found (sym e) (record {
            behind = (inr (omega (arith, short, low)), rest.behind);
            reached = later rest.reached;
            room_left = rest.room_left;
          })
      | inr (sibling, fits, inr (further, e)) ↦
          let end = arena.offset + arena.bytes in
          let rest = next_end-Finds base room parent end more pos h.1 fits in
          let low = next_end-le parent more end in
          subst found (sym e) (record {
            behind = (inr low, rest.behind);
            reached = inr (from_here sibling rest.reached);
            room_left = rest.room_left;
          })
    ]
  where
    later :
        {end : ℕ}
        → (end ≡ next) ⊎ EndsAt parent end more
        → (end ≡ next) ⊎ EndsAt parent end (arena ∷ more)
    later (inl e) = inl e
    later (inr e) = inr (inr e)

    from_here :
        {end : ℕ}
        → IsSibling parent arena
        → (end ≡ arena.offset + arena.bytes) ⊎ EndsAt parent end more
        → EndsAt parent end (arena ∷ more)
    from_here sibling (inl e) = inl (sibling, sym e)
    from_here sibling (inr e) = inr e

EndsBy-le :
    (parent : Bytes) (low high : ℕ)
    → low ≤ high
    → (arena : ArenaNode) → EndsBy parent low arena
    → EndsBy parent high arena
EndsBy-le parent low high h arena (inl apart) = inl apart
EndsBy-le parent low high h arena (inr ends) = inr (omega (arith, h, ends))

-- The offset behind all static ranges, rounded up so that the address is a multiple of the
-- alignment.
next_offset-rounds :
    (arenas : List ArenaNode) (base : ℕ) (parent : Bytes) (j k : ℕ)
    → j + k ≡ 64
    → IsU64 (span k)
    → base + next_end parent 0 arenas + span k ≤ 18446744073709551616
    → (next_end parent 0 arenas ≤ next_implicit_arena_offset arenas base parent (span k))
      × (base + next_implicit_arena_offset arenas base parent (span k)
          ≡ align_arena_offset (base + next_end parent 0 arenas) (span k))
unfolding next_implicit_arena_offset
next_offset-rounds arenas base parent j k whole small fits =
    let e = next_end parent 0 arenas in
    let p = span_positive k in
    let exact : add64 base e ≡ base + e = omega (arith, fits, p) in
    let r = align_arena_offset-rounds (base + e) j k whole (omega (arith, fits)) small in
    rw exact (omega (arith, r.0, r.1, fits), omega (arith, r.0, r.1, fits))

-- An implicit allocation with an alignment that is a power of two below 2^64: it lies behind the
-- end of every arena below the same parent that is not a root, its address is a multiple of the
-- alignment, and it is placed less than the alignment behind 0 or behind the end of one of those
-- arenas. It is supposed that behind each of them, and behind the parent's first address,
-- there is room for the alignment below 2^64.
pub implicit_arena_allocation-apart :
    (arenas : List ArenaNode) (receiver : LocalOrigin) (label owner : Bytes) (kind : ArenaKind)
    (length j k : ℕ)
    → j + k ≡ 64
    → IsU64 (span k)
    → receiver.arena_base + span k ≤ 18446744073709551616
    → All (LeavesRoom receiver.arena_base (span k) receiver.arena_label) arenas
    → let new = implicit_arena_allocation arenas receiver label owner kind length (span k) in
      (new.parent ≡ receiver.arena_label)
      × All (EndsBy receiver.arena_label new.offset) arenas
      × (new.base % span k ≡ 0)
      × ((end : ℕ) × ((end ≡ 0) ⊎ EndsAt receiver.arena_label end arenas)
          × (end ≤ new.offset)
          × (new.offset < end + span k))
unfolding implicit_arena_allocation
implicit_arena_allocation-apart arenas receiver label owner kind length j k whole small base_room
      leaves =
    let base = receiver.arena_base in
    let parent = receiver.arena_label in
    let e = next_end parent 0 arenas in
    let new = implicit_arena_allocation arenas receiver label owner kind length (span k) in
    let found =
      next_end-Finds base (span k) parent 0 arenas (span_positive k) leaves
        (omega (arith, base_room)) in
    let fits = found.room_left in
    let n = next_offset-rounds arenas base parent j k whole small fits in
    let r = align_arena_offset-rounds (base + e) j k whole fits small in
    let exact : add64 base new.offset ≡ align_arena_offset (base + e) (span k) =
      omega (arith, n.1, r.1, fits) in
    (
      refl,
      All-mono (EndsBy-le parent e new.offset n.0) arenas found.behind,
      ap (λ x. x % span k) exact ∙ r.2,
      (e, found.reached, n.0, omega (arith, n.1, r.1)),
    )
