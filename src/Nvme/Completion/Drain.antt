-- ===== src/Nvme/Completion/Drain.antt =====
-- What draining and consuming take from the ring.
use wrela.Prelude.{
  ℕ, zero, suc, ◌+◌, ◌/◌, ◌%◌, ◌↔◌, ◌≤◌, ◌<◌, ◌≡◌, refl, sym, ◌∙◌, ap, ◌⊎◌, inl, inr, Bool, true,
  false, List, Option, none, some, ltb, bool_eq_iff, if◌then◌else◌, length, get_elem?, u16, IsU16,
  arith, Bool-cases,
}
use wrela.Nvme.Completion.{
  CompletionQueue, CompletionEntry, CompletionInterrupt, Doorbell, is_new, unusable, consume_entry,
  advance, advance_one, drain_loop, drain_completions, consume_completion,
}
use wrela.Nvme.Completion.Ring.{
  IsQueue, flips, at, at_start, at_shift, advance_lem, advance_one-IsQueue,
}

abbrev head_is_new : List CompletionEntry → CompletionQueue → Bool
head_is_new entries q = is_new (get_elem? entries q.head) q.phase

abbrev new_at : CompletionQueue → List CompletionEntry → ℕ → Bool
new_at q entries n = head_is_new entries (at q (q.head + n))

-- The entry is there and carries the phase.
abbrev pub Carries : Bool → Option CompletionEntry → Type 0
Carries phase none = ⊥
Carries phase (some e) = e.phase ≡ phase

-- The entry `n` places ahead of the head, going round at the depth, carries the phase that the
-- queue will then have: the present one, turned once for each time round.
abbrev pub IsNew : CompletionQueue → List CompletionEntry → ℕ → Type 0
IsNew q entries n =
    Carries (flips q.phase ((q.head + n) / q.depth)) (get_elem? entries ((q.head + n) % q.depth))

is_new_iff : (o : Option CompletionEntry) (phase : Bool) → (is_new o phase ≡ true) ↔ Carries phase o
is_new_iff none phase = ground arith
is_new_iff (some e) phase = bool_eq_iff e.phase phase

-- The entries up to the first that is not new, and at most `rounds`.
pub record Takes (rounds : ℕ) (q : CompletionQueue) (entries : List CompletionEntry) (n : ℕ)
    : Type 0 where
  pub within : n ≤ rounds
  pub all_new : (i : ℕ) → i < n → IsNew q entries i
  pub stopped : n < rounds → ¬ IsNew q entries n

-- The same by the test of the loop.
record Ran (rounds : ℕ) (q : CompletionQueue) (entries : List CompletionEntry) (n : ℕ)
    : Type 0 where
  within : n ≤ rounds
  all_new : (i : ℕ) → i < n → new_at q entries i ≡ true
  stopped : n < rounds → new_at q entries n ≡ false

new_at_iff :
    (q : CompletionQueue) (entries : List CompletionEntry) (n : ℕ)
    → (new_at q entries n ≡ true) ↔ IsNew q entries n
new_at_iff q entries n =
    is_new_iff (get_elem? entries ((q.head + n) % q.depth)) (flips q.phase ((q.head + n) / q.depth))

Ran-Takes :
    (rounds : ℕ) (q : CompletionQueue) (entries : List CompletionEntry) (n : ℕ)
    → Ran rounds q entries n
    → Takes rounds q entries n
Ran-Takes rounds q entries n r = record {
  within = r.within;
  all_new = λ i h. (new_at_iff q entries i).0 (r.all_new i h);
  stopped = λ h m.
      let new : new_at q entries n ≡ true = (new_at_iff q entries n).1 m in
      let old : new_at q entries n ≡ false = r.stopped h in cc;
}

at_zero : (q : CompletionQueue) → IsQueue q → at q (q.head + 0) ≡ q
at_zero q w = ap (at q) (omega arith) ∙ at_start q w

Ran-suc :
    (rounds n : ℕ) (q : CompletionQueue) (entries : List CompletionEntry)
    → IsQueue q
    → head_is_new entries q ≡ true
    → Ran rounds (advance_one q) entries n
    → Ran (suc rounds) q entries (suc n)
Ran-suc rounds n q entries w new t = record {
  within = omega (arith, t.within);
  all_new = all_new;
  stopped = λ h. sym (shift n) ∙ t.stopped (omega arith);
}
  where
    shift : (i : ℕ) → new_at (advance_one q) entries i ≡ new_at q entries (suc i)
    shift i = ap (head_is_new entries) (at_shift q i w)

    all_new : (i : ℕ) → i < suc n → new_at q entries i ≡ true
    all_new zero h = ap (head_is_new entries) (at_zero q w) ∙ new
    all_new (suc i) h = sym (shift i) ∙ t.all_new i (omega arith)

abbrev Drains : ℕ → ℕ → CompletionQueue → List CompletionEntry → Type 0
Drains rounds completed q entries =
    (n : ℕ) × Ran rounds q entries n
    × (drain_loop rounds q entries completed ≡ (at q (q.head + n), completed + n))

pair_eq {ℓ κ} :
    {A : Type ℓ} {B : Type κ} {a c : A} {b d : B} → a ≡ c → b ≡ d → ◌≡◌ {A = A × B} (a, b) (c, d)
pair_eq p q = λ i. (p i, q i)

drain_loop-Drains :
    (rounds completed : ℕ) (q : CompletionQueue) (entries : List CompletionEntry)
    → IsQueue q
    → IsU16 (completed + rounds)
    → Drains rounds completed q entries
unfolding drain_loop advance
drain_loop-Drains zero completed q entries w u = (
  0,
  record {
    within = omega arith;
    all_new = λ i h. absurd (omega arith);
    stopped = λ h. absurd (omega arith);
  },
  pair_eq (sym (at_zero q w)) (omega arith),
)
drain_loop-Drains (suc rounds) completed q entries w u = elim (Bool-cases (head_is_new entries q)) [
  | inr old ↦ (
    0,
    record {
      within = omega arith;
      all_new = λ i h. absurd (omega arith);
      stopped = λ h. ap (head_is_new entries) (at_zero q w) ∙ old;
    },
    rw old (pair_eq (sym (at_zero q w)) (omega arith)),
  )
  | inl new ↦
      let (n, t, e) =
        drain_loop-Drains rounds (u16 (completed + 1)) (advance_one q) entries
          (advance_one-IsQueue q w) (omega arith) in
      (
        suc n,
        Ran-suc rounds n q entries w new t,
        rw new (e ∙ pair_eq (at_shift q n w) (omega arith)),
      )
]

abbrev pub drained : CompletionQueue → Bool → ℕ → CompletionQueue × CompletionInterrupt × Doorbell
drained q has_doorbell n =
    let q' = at q (q.head + n) in
    (
      q',
      record { queue_id = q.queue_id; completed_count = n },
      if ltb 0 n then (if has_doorbell then some (q.queue_id, q'.head) else none) else none,
    )

usable :
    (q : CompletionQueue) (entries : List CompletionEntry)
    → IsQueue q
    → q.depth ≤ length entries
    → unusable q entries ≡ false
usable q entries w h = ground (arith, w)

-- On a queue whose head lies in the ring, with an entry for each place: draining takes the entries
-- ahead of the head up to the first whose phase is not the one expected there, and at most the
-- whole ring. The head and the phase move on by as many places, the interrupt carries their
-- number, and the doorbell, if there is one, is rung once with the new head, unless nothing
-- was taken.
pub drain_completions_lem :
    (q : CompletionQueue) (entries : List CompletionEntry) (has_doorbell : Bool)
    → IsQueue q
    → q.depth ≤ length entries
    → (n : ℕ) × Takes q.depth q entries n
      × (drain_completions q entries has_doorbell ≡ drained q has_doorbell n)
unfolding drain_completions
drain_completions_lem q entries has_doorbell w h =
    let (n, t, e) = drain_loop-Drains q.depth 0 q entries w (omega (arith, w.width)) in
    let zero_add : 0 + n ≡ n = omega arith in
    (n, Ran-Takes q.depth q entries n t, rw (usable q entries w h, e, zero_add))

-- The entry is the successful completion of the command, in the expected phase.
abbrev pub IsMatch : CompletionQueue → ℕ → Option CompletionEntry → Type 0
IsMatch q id none = ⊥
IsMatch q id (some e) = (e.command_id ≡ id) × (e.success ≡ true) × (e.phase ≡ q.phase)

abbrev pub Outcome : Type 0
Outcome = CompletionQueue × Bool × Doorbell

abbrev pub consumed : CompletionQueue → Bool → Outcome
consumed q has_doorbell =
    let q' = at q (q.head + 1) in
    (q', true, if has_doorbell then some (q.queue_id, q'.head) else none)

consume_entry-cases :
    (q : CompletionQueue) (o : Option CompletionEntry) (id : ℕ) (has_doorbell : Bool)
    → IsQueue q
    → (IsMatch q id o × (consume_entry q o id has_doorbell ≡ consumed q has_doorbell))
      ⊎ ((¬ IsMatch q id o) × (consume_entry q o id has_doorbell ≡ (q, false, none)))
unfolding consume_entry
consume_entry-cases q none id has_doorbell w = inr (λ h. h, refl)
consume_entry-cases q (some e) id has_doorbell w =
    ground (arith, advance_lem 1 q w, bool_eq_iff e.phase q.phase)

-- On a queue whose head lies in the ring, with an entry for each place: a completion is consumed
-- exactly when the entry at the head has the command id, was successful and carries the expected
-- phase: then the queue advances by one place and the doorbell is rung with the new head; otherwise
-- nothing happens.
pub consume_completion_lem :
    (q : CompletionQueue) (entries : List CompletionEntry) (id : ℕ) (has_doorbell : Bool)
    → IsQueue q
    → q.depth ≤ length entries
    → (IsMatch q id (get_elem? entries q.head)
        × (consume_completion q entries id has_doorbell ≡ consumed q has_doorbell))
      ⊎ ((¬ IsMatch q id (get_elem? entries q.head))
          × (consume_completion q entries id has_doorbell ≡ (q, false, none)))
unfolding consume_completion
consume_completion_lem q entries id has_doorbell w h =
    rw (usable q entries w h) (consume_entry-cases q (get_elem? entries q.head) id has_doorbell w)
