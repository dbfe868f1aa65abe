-- ===== src/Tests/Nvme.antt =====
-- The NVMe rules (compiler/nvmefmt/nvme.go) at concrete inputs.
use wrela.Prelude.{
  ℕ, ◌≡◌, inl, refl, ◌&&◌, ◌||◌, not, leb, true, false, List, [], ◌∷◌, ◌++◌, length, replicate, All,
  zero, suc, arith, ◌<◌,
}
use wrela.Nvme.Identify.{
  DurabilityMode, ok, sized, shift_one, parse_identify_namespace, select_durability,
  write_plus_flush,
}
use wrela.Nvme.Identify.Parse.{select_durability-parse}
use wrela.Nvme.Durability.{acknowledged, complete_write, complete_flush, has_id}
use wrela.Nvme.Durability.Traces.{
  Completion, write, flush, complete, complete_all, needs_flush, fresh, written, any_failed,
  any_flushed, acknowledged-complete_all,
}
use wrela.Nvme.Command.{build_data_command, nvme_opcode_write}
use wrela.Nvme.Command.Fields.{Builds, build_data_command-Builds}
use wrela.Nvme.Completion.{CompletionQueue, CompletionEntry, drain_completions}
use wrela.Nvme.Completion.Ring.{IsQueue}
use wrela.Nvme.Completion.Drain.{Takes, drained, drain_completions_lem}

-- Format 0, whose LBADS byte is 12.
abbrev identify : List ℕ
identify = replicate 130 0 ++ 12 ∷ []

zeros-All : (n : ℕ) (xs : List ℕ) → All (λ b. b < 256) xs → All (λ b. b < 256) (replicate n 0 ++ xs)
zeros-All zero xs h = h
zeros-All (suc n) xs h = (omega arith, zeros-All n xs h)

identify_parsed : parse_identify_namespace identify ≡ ok (sized 4096)
unfolding parse_identify_namespace shift_one
identify_parsed = refl

select_durability-parse_example :
    (m : DurabilityMode) × (select_durability (record (sized 4096) { supports_fua = false }) ≡ ok m)
    × (m.use_fua ≡ false)
    × (m.requires_flush ≡ true)
select_durability-parse_example =
    select_durability-parse identify false (zeros-All 130 (12 ∷ []) (omega arith, tt))
      identify_parsed

-- A flush that completes before the only write counts.
early_flush :
    acknowledged (complete_all (fresh write_plus_flush 1) (flush true ∷ write 4 true ∷ [])) ≡ true
unfolding complete_all complete complete_write complete_flush acknowledged has_id
early_flush = refl

abbrev completions : List Completion
completions = write 4 true ∷ write 4 true ∷ write 5 true ∷ flush true ∷ []

acknowledged-complete_all_example :
    acknowledged (complete_all (fresh write_plus_flush 2) completions) ≡ (
      not (any_failed completions)
      && leb 2 (length (written [] completions))
      && (not (needs_flush write_plus_flush) || any_flushed completions))
acknowledged-complete_all_example =
    acknowledged-complete_all write_plus_flush 2 completions (omega arith)

build_data_command-Builds_example :
    Builds 5000000000 8 512 true (build_data_command nvme_opcode_write 1 5000000000 8 4096 512 true)
build_data_command-Builds_example =
    build_data_command-Builds nvme_opcode_write 1 5000000000 8 4096 512 true (inl refl)
      (omega arith) (omega arith)

abbrev queue : CompletionQueue
queue = record { queue_id = 1; depth = 2; head = 1; phase = true }

queue-IsQueue : IsQueue queue
queue-IsQueue = record { inside = omega arith; width = omega arith }

abbrev entries : List CompletionEntry
entries =
    record { command_id = 3; phase = true; success = true }
    ∷ record { command_id = 2; phase = true; success = true }
    ∷ []

drain_completions_lem_example :
    (n : ℕ) × Takes 2 queue entries n
    × (drain_completions queue entries true ≡ drained queue true n)
drain_completions_lem_example = drain_completions_lem queue entries true queue-IsQueue (omega arith)
