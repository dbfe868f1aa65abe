-- ===== src/Nvme/Completion.antt =====
-- Completion queues of compiler/nvmefmt/nvme.go: a ring with a phase bit.
pub mod Ring
pub mod Drain
use wrela.Prelude.{
  ℕ, zero, suc, ◌+◌, ◌<◌, Bool, true, false, not, ◌&&◌, ◌||◌, List, [], ◌∷◌, Option, none, some,
  ◌==◌, ltb, leb, bool_eq, if◌then◌else◌, length, get_elem?, u16,
}

pub record CompletionQueue : Type 0 where
  pub queue_id : ℕ
  pub depth : ℕ
  pub head : ℕ
  pub phase : Bool

abbrev advance_one : CompletionQueue → CompletionQueue
advance_one q =
    let next = u16 (q.head + 1) in
    if next == q.depth then record q { head = 0; phase = not q.phase } else record q { head = next }

-- `Advance`
unfoldable pub advance : CompletionQueue → ℕ → CompletionQueue
advance q zero = q
advance q (suc count) = advance (advance_one q) count

pub record CompletionEntry : Type 0 where
  pub command_id : ℕ
  pub phase : Bool
  pub success : Bool

pub record CompletionInterrupt : Type 0 where
  pub queue_id : ℕ
  pub completed_count : ℕ

-- A call of `ringDoorbell` with its arguments; `none` is no call, also where the callback is nil.
abbrev pub Doorbell : Type 0
Doorbell = Option (ℕ × ℕ)

abbrev ring : Bool → CompletionQueue → Doorbell
ring has_doorbell q = if has_doorbell then some (q.queue_id, q.head) else none

-- The guard that both readers begin with.
abbrev pub unusable : CompletionQueue → List CompletionEntry → Bool
unusable q entries = q.depth == 0 || leb q.depth q.head || ltb (length entries) q.depth

-- The phase test on the entry at the head, which is within the entries.
abbrev pub is_new : Option CompletionEntry → Bool → Bool
is_new none phase = false
is_new (some e) phase = bool_eq e.phase phase

-- The loop of `DrainCompletions`, on the rounds left to `q.Depth`; it counts the entries it takes.
unfoldable pub drain_loop : ℕ → CompletionQueue → List CompletionEntry → ℕ → CompletionQueue × ℕ
drain_loop zero q entries completed = (q, completed)
drain_loop (suc rounds) q entries completed =
    let rest = drain_loop rounds (advance q 1) entries (u16 (completed + 1)) in
    if is_new (get_elem? entries q.head) q.phase then rest else (q, completed)

-- `DrainCompletions`
unfoldable pub drain_completions :
    CompletionQueue → List CompletionEntry → Bool → CompletionQueue × CompletionInterrupt × Doorbell
drain_completions q entries has_doorbell =
    let (q', completed) = drain_loop q.depth q entries 0 in
    if unusable q entries
    then (q, record { queue_id = q.queue_id; completed_count = 0 }, none)
    else (
      q',
      record { queue_id = q.queue_id; completed_count = completed },
      if ltb 0 completed then ring has_doorbell q' else none,
    )

unfoldable pub consume_entry :
    CompletionQueue → Option CompletionEntry → ℕ → Bool → CompletionQueue × Bool × Doorbell
consume_entry q none command_id has_doorbell = (q, false, none)
consume_entry q (some entry) command_id has_doorbell =
    let q' = advance q 1 in
    if not (entry.command_id == command_id)
      || not entry.success
      || not (bool_eq entry.phase q.phase)
    then (q, false, none)
    else (q', true, ring has_doorbell q')

-- `ConsumeCompletion`
unfoldable pub consume_completion :
    CompletionQueue → List CompletionEntry → ℕ → Bool → CompletionQueue × Bool × Doorbell
consume_completion q entries command_id has_doorbell =
    let taken = consume_entry q (get_elem? entries q.head) command_id has_doorbell in
    if unusable q entries then (q, false, none) else taken
