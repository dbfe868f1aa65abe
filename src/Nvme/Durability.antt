-- ===== src/Nvme/Durability.antt =====
-- `DurabilityState` of compiler/nvmefmt/nvme.go: writes and flushes of one durable request.
pub mod Traces
use wrela.Prelude.{
  ℕ, ◌+◌, Bool, true, false, not, ◌||◌, List, [], ◌∷◌, ◌==◌, ltb, if◌then◌else◌, u32,
}
use wrela.Nvme.Identify.{Mode, fua, write_plus_flush, other}

-- The set of command ids is a list without repetitions; the nil map is the empty list.
pub record DurabilityState : Type 0 where
  pub mode : Mode
  pub pending_writes : ℕ
  pub completed_writes : ℕ
  pub flush_completed : Bool
  pub completed_command_ids : List ℕ
  pub failed : Bool

unfoldable pub has_id : ℕ → List ℕ → Bool
has_id i [] = false
has_id i (x ∷ xs) = x == i || has_id i xs

-- `CompleteWrite`
unfoldable pub complete_write : DurabilityState → ℕ → Bool → DurabilityState
complete_write s command_id success =
    if not success
    then record s { failed = true }
    else if has_id command_id s.completed_command_ids
    then s
    else if ltb s.completed_writes s.pending_writes
    then record s {
      completed_command_ids = command_id ∷ s.completed_command_ids;
      completed_writes = u32 (s.completed_writes + 1);
    }
    else s

-- `CompleteFlush`
unfoldable pub complete_flush : DurabilityState → Bool → DurabilityState
complete_flush s success =
    if not success then record s { failed = true } else record s { flush_completed = true }

abbrev pub is_write_plus_flush : Mode → Bool
is_write_plus_flush write_plus_flush = true
is_write_plus_flush _ = false

-- `DurabilityState.Acknowledged`
unfoldable pub acknowledged : DurabilityState → Bool
acknowledged s =
    if s.failed || ltb s.completed_writes s.pending_writes
    then false
    else if is_write_plus_flush s.mode
    then s.flush_completed
    else true
