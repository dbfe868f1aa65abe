-- ===== src/Storage/Writer.antt =====
-- The writer policy, commit tokens and projection truth of compiler/storagefmt/format.go.
pub mod Batches
pub mod Durability
use wrela.Prelude.{
  ℕ, ◌+◌, ◌-◌, ◌≤◌, Bool, true, false, not, ◌&&◌, ◌||◌, Option, none, some, ◌==◌, ltb, leb,
  if◌then◌else◌, add64, sub64,
}

abbrev pub storage_target_batch_slots : ℕ
storage_target_batch_slots = 64

abbrev pub storage_max_batch_slots : ℕ
storage_max_batch_slots = 72

abbrev pub storage_max_atomic_group_slots : ℕ
storage_max_atomic_group_slots = 32

pub record WriterPolicy : Type 0 where
  pub next_event_id : ℕ
  pub next_stream_id : ℕ
  pub open_batch_slots : ℕ
  pub durable_frontier : ℕ

-- The reject codes "SEM0114", "SEM0116" and "SEM0118"; `accepted_code` is the empty string.
pub data RejectCode : Type 0 where
  accepted_code sem0114 sem0116 sem0118 : RejectCode

pub record EnqueueResult : Type 0 where
  pub accepted : Bool
  pub first_event_id : ℕ
  pub last_event_id : ℕ
  pub open_batch_slots : ℕ
  pub flush_requested : Bool
  pub reject_code : RejectCode

pub record CommitToken : Type 0 where
  pub first_event_id : ℕ
  pub last_event_id : ℕ
  pub pending_write_count : ℕ
  pub completed_write_count : ℕ
  pub batch_submitted : Bool
  pub flush_required : Bool
  pub flush_completed : Bool
  pub durability_failed : Bool

abbrev pub rejected : RejectCode → EnqueueResult
rejected code = record {
  accepted = false;
  first_event_id = 0;
  last_event_id = 0;
  open_batch_slots = 0;
  flush_requested = false;
  reject_code = code;
}

-- `AssignEventIDs`
unfoldable pub assign_event_ids : ℕ → ℕ → ℕ × ℕ
assign_event_ids first count = (first, sub64 (add64 first count) 1)

-- The `switch` on the combined slots: the open slots that follow, and whether a flush is asked for.
unfoldable pub batch_after : ℕ → ℕ → ℕ × Bool
batch_after combined consumed =
    if ltb combined storage_target_batch_slots
    then (combined, false)
    else if leb combined storage_max_batch_slots
    then (combined, true)
    else (consumed, true)

-- `EnqueueAtomicGroupWithReserved`
unfoldable pub enqueue_atomic_group_with_reserved :
    WriterPolicy → ℕ → ℕ → WriterPolicy × EnqueueResult
unfolding assign_event_ids batch_after
enqueue_atomic_group_with_reserved w semantic_slots reserved_empty_slots =
    let consumed_slots = add64 semantic_slots reserved_empty_slots in
    let (first, last) = assign_event_ids w.next_event_id semantic_slots in
    let combined = add64 w.open_batch_slots consumed_slots in
    let (open_slots, flush) = batch_after combined consumed_slots in
    if semantic_slots == 0 || ltb storage_max_atomic_group_slots semantic_slots
    then (w, rejected sem0114)
    else if ltb consumed_slots semantic_slots || ltb storage_max_batch_slots consumed_slots
    then (w, rejected sem0114)
    else (
      record w { next_event_id = add64 first consumed_slots; open_batch_slots = open_slots },
      record {
        accepted = true;
        first_event_id = first;
        last_event_id = last;
        open_batch_slots = open_slots;
        flush_requested = flush;
        reject_code = accepted_code;
      },
    )

-- `EnqueueAtomicGroup`
unfoldable pub enqueue_atomic_group : WriterPolicy → ℕ → WriterPolicy × EnqueueResult
unfolding enqueue_atomic_group_with_reserved
enqueue_atomic_group w semantic_slots = enqueue_atomic_group_with_reserved w semantic_slots 0

-- `CommitToken.Acknowledged`
unfoldable pub acknowledged : CommitToken → Bool
acknowledged t =
    if t.durability_failed
    then false
    else if ltb t.completed_write_count t.pending_write_count
    then false
    else if t.flush_required && not t.flush_completed
    then false
    else true

-- `OnDurabilityCompleted`
unfoldable pub on_durability_completed : WriterPolicy → CommitToken → WriterPolicy × EnqueueResult
on_durability_completed w token =
    let frontier =
      if ltb w.durable_frontier token.last_event_id
      then token.last_event_id
      else w.durable_frontier in
    let open_slots = if token.batch_submitted then 0 else w.open_batch_slots in
    if not (acknowledged token)
    then (
      w,
      record {
        accepted = false;
        first_event_id = token.first_event_id;
        last_event_id = token.last_event_id;
        open_batch_slots = w.open_batch_slots;
        flush_requested = false;
        reject_code = sem0116;
      },
    )
    else (
      record w { durable_frontier = frontier; open_batch_slots = open_slots },
      record {
        accepted = true;
        first_event_id = token.first_event_id;
        last_event_id = token.last_event_id;
        open_batch_slots = open_slots;
        flush_requested = token.flush_required;
        reject_code = accepted_code;
      },
    )

-- `ProjectionTruth.AcceptAdvance`: the frontier, and the event id that the advance goes through.
pub record AdvanceProjection : Type 0 where
  pub projection_id : ℕ
  pub through_event_id : ℕ
  pub checkpoint_root : ℕ

pub record ProjectionTruth : Type 0 where
  pub atomic_group_frontier : ℕ

unfoldable pub accept_advance : ProjectionTruth → AdvanceProjection → Bool
accept_advance p advance = leb advance.through_event_id p.atomic_group_frontier
