-- ===== src/Nvme/Durability/Traces.antt =====
-- What a request's acknowledgement depends on, over every sequence of completions.
use wrela.Prelude.{
  ℕ, ◌≤◌, ◌<◌, ◌≡◌, refl, ◌∙◌, ap, inl, inr, Bool, true, false, not, ◌&&◌, ◌||◌, ◌==◌, List, [],
  ◌∷◌, leb, if◌then◌else◌, length, IsU32, arith, min, Bool-cases,
}
use native.Mathlib.Decide.{dec_le}
use wrela.Nvme.Identify.{Mode, fua, write_plus_flush, other}
use wrela.Nvme.Durability.{
  DurabilityState, has_id, complete_write, complete_flush, acknowledged, is_write_plus_flush,
}

pub data Completion : Type 0 where
  write : ℕ → Bool → Completion
  flush : Bool → Completion

unfoldable pub complete : DurabilityState → Completion → DurabilityState
complete s (write i success) = complete_write s i success
complete s (flush success) = complete_flush s success

unfoldable pub complete_all : DurabilityState → List Completion → DurabilityState
complete_all s [] = s
complete_all s (c ∷ cs) = complete_all (complete s c) cs

-- The id occurs in the list.
abbrev pub is_among : ℕ → List ℕ → Bool
is_among i [] = false
is_among i (x ∷ xs) = if x == i then true else is_among i xs

has_id-is_among : (i : ℕ) (xs : List ℕ) → has_id i xs ≡ is_among i xs
unfolding has_id
has_id-is_among i [] = refl
has_id-is_among i (x ∷ xs) = ground (arith, has_id-is_among i xs)

-- The mode in which a flush has to complete.
abbrev pub needs_flush : Mode → Bool
needs_flush fua = false
needs_flush write_plus_flush = true
needs_flush other = false

is_write_plus_flush-needs_flush : (mode : Mode) → is_write_plus_flush mode ≡ needs_flush mode
is_write_plus_flush-needs_flush fua = refl
is_write_plus_flush-needs_flush write_plus_flush = refl
is_write_plus_flush-needs_flush other = refl

-- The ids that were written with success, each once, behind those in `seen`.
abbrev pub written : List ℕ → List Completion → List ℕ
written seen [] = seen
written seen (write i true ∷ cs) = written (if is_among i seen then seen else i ∷ seen) cs
written seen (write i false ∷ cs) = written seen cs
written seen (flush b ∷ cs) = written seen cs

abbrev pub any_failed : List Completion → Bool
any_failed [] = false
any_failed (write i b ∷ cs) = not b || any_failed cs
any_failed (flush b ∷ cs) = not b || any_failed cs

abbrev pub any_flushed : List Completion → Bool
any_flushed [] = false
any_flushed (write i b ∷ cs) = any_flushed cs
any_flushed (flush b ∷ cs) = b || any_flushed cs

-- The state after the completions that made `seen`: the writes are counted up to the pending
-- number, and the ids are known until it is reached.
record Counts (s : DurabilityState) (seen : List ℕ) : Type 0 where
  counted : s.completed_writes ≡ min s.pending_writes (length seen)
  known : length seen ≤ s.pending_writes → s.completed_command_ids ≡ seen
  width : IsU32 s.pending_writes

-- Once more ids are written than are pending, nothing is counted any more.
Counts-saturated :
    (s : DurabilityState) (seen longer : List ℕ)
    → s.pending_writes < length seen
    → length seen ≤ length longer
    → Counts s seen
    → Counts s longer
Counts-saturated s seen longer over le c = record {
  counted = omega (arith, c.counted);
  known = λ h. absurd (omega arith);
  width = c.width;
}

complete_write-full :
    (s : DurabilityState) (i : ℕ)
    → s.pending_writes ≤ s.completed_writes
    → complete_write s i true ≡ s
unfolding complete_write
complete_write-full s i h = ground arith

length-written_one :
    (i : ℕ) (seen : List ℕ) → length seen ≤ length (if is_among i seen then seen else i ∷ seen)
length-written_one i seen = ground arith

complete_write-Counts :
    (s : DurabilityState) (seen : List ℕ) (i : ℕ)
    → Counts s seen
    → Counts (complete_write s i true) (if is_among i seen then seen else i ∷ seen)
complete_write-Counts s seen i c = elim (dec_le (length seen) s.pending_writes) [
  | yes le ↦
      let ids = ap (has_id i) (c.known le) ∙ has_id-is_among i seen in
      elim (Bool-cases (is_among i seen)) [
        | inl old ↦ rw old (rw (repeated (ids ∙ old)) c)
        | inr new ↦ rw new (fresh le (ids ∙ new))
      ]
  | no more ↦
      let full : s.pending_writes ≤ s.completed_writes = omega (arith, c.counted) in
      rw (complete_write-full s i full)
        (Counts-saturated s seen _ (omega arith) (length-written_one i seen) c)
]
  where
    repeated : has_id i s.completed_command_ids ≡ true → complete_write s i true ≡ s
    repeated e = unfold complete_write in ground arith

    fresh :
        length seen ≤ s.pending_writes
        → has_id i s.completed_command_ids ≡ false
        → Counts (complete_write s i true) (i ∷ seen)
    fresh le e = unfold complete_write in ground (arith, c)

-- What the fields are after a run.
record Summary (s : DurabilityState) (seen : List ℕ) (cs : List Completion) (t : DurabilityState)
    : Type 0 where
  counts : Counts t (written seen cs)
  fails : t.failed ≡ (s.failed || any_failed cs)
  flushes : t.flush_completed ≡ (s.flush_completed || any_flushed cs)
  keeps_mode : t.mode ≡ s.mode
  keeps_pending : t.pending_writes ≡ s.pending_writes

complete-Summary :
    (s : DurabilityState) (seen : List ℕ) (c : Completion)
    → Counts s seen
    → Summary s seen (c ∷ []) (complete s c)
unfolding complete
complete-Summary s seen (write i true) c = record {
  counts = complete_write-Counts s seen i c;
  fails = unfold complete_write in ground arith;
  flushes = unfold complete_write in ground arith;
  keeps_mode = unfold complete_write in ground arith;
  keeps_pending = unfold complete_write in ground arith;
}
complete-Summary s seen (write i false) c =
    unfold complete_write in
    record {
      counts = record { counted = c.counted; known = c.known; width = c.width };
      fails = ground arith;
      flushes = ground arith;
      keeps_mode = refl;
      keeps_pending = refl;
    }
complete-Summary s seen (flush true) c =
    unfold complete_flush in
    record {
      counts = record { counted = c.counted; known = c.known; width = c.width };
      fails = ground arith;
      flushes = ground arith;
      keeps_mode = refl;
      keeps_pending = refl;
    }
complete-Summary s seen (flush false) c =
    unfold complete_flush in
    record {
      counts = record { counted = c.counted; known = c.known; width = c.width };
      fails = ground arith;
      flushes = ground arith;
      keeps_mode = refl;
      keeps_pending = refl;
    }

written-cons :
    (seen : List ℕ) (c : Completion) (cs : List Completion)
    → written seen (c ∷ cs) ≡ written (written seen (c ∷ [])) cs
written-cons seen (write i true) cs = refl
written-cons seen (write i false) cs = refl
written-cons seen (flush b) cs = refl

any-cons :
    (c : Completion) (cs : List Completion)
    → (any_failed (c ∷ cs) ≡ (any_failed (c ∷ []) || any_failed cs))
      × (any_flushed (c ∷ cs) ≡ (any_flushed (c ∷ []) || any_flushed cs))
any-cons (write i b) cs = ground arith
any-cons (flush b) cs = ground arith

complete_all-Summary :
    (cs : List Completion) (s : DurabilityState) (seen : List ℕ)
    → Counts s seen
    → Summary s seen cs (complete_all s cs)
unfolding complete_all
complete_all-Summary [] s seen c = record {
  counts = c;
  fails = ground arith;
  flushes = ground arith;
  keeps_mode = refl;
  keeps_pending = refl;
}
complete_all-Summary (x ∷ cs) s seen c =
    let one = complete-Summary s seen x c in
    let rest = complete_all-Summary cs (complete s x) (written seen (x ∷ [])) one.counts in
    let any = any-cons x cs in
    record {
      counts = rw (written-cons seen x cs) rest.counts;
      fails = ground (arith, any, one.fails, rest.fails);
      flushes = ground (arith, any, one.flushes, rest.flushes);
      keeps_mode = rest.keeps_mode ∙ one.keeps_mode;
      keeps_pending = rest.keeps_pending ∙ one.keeps_pending;
    }

abbrev pub fresh : Mode → ℕ → DurabilityState
fresh mode pending = record {
  mode = mode;
  pending_writes = pending;
  completed_writes = 0;
  flush_completed = false;
  completed_command_ids = [];
  failed = false;
}

-- A fresh request for `n` writes is acknowledged after a sequence of completions exactly when none
-- of them failed, at least `n` different command ids were written, and, in the write-plus-flush
-- mode, a flush was completed at some point, be it before the writes or after them. Repeated ids
-- are not counted twice, and a failure is never forgotten.
pub acknowledged-complete_all :
    (mode : Mode) (n : ℕ) (cs : List Completion)
    → IsU32 n
    → acknowledged (complete_all (fresh mode n) cs) ≡ (
        not (any_failed cs)
        && leb n (length (written [] cs))
        && (not (needs_flush mode) || any_flushed cs))
unfolding acknowledged
acknowledged-complete_all mode n cs u =
    let s = fresh mode n in
    let sum =
      complete_all-Summary cs s []
        (record { counted = omega arith; known = λ h. refl; width = u }) in
    ground (
      arith,
      sum.counts.counted,
      sum.fails,
      sum.flushes,
      sum.keeps_pending,
      ap is_write_plus_flush sum.keeps_mode ∙ is_write_plus_flush-needs_flush mode,
    )
