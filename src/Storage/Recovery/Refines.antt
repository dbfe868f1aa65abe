-- ===== src/Storage/Recovery/Refines.antt =====
-- `recover_slots` against the abstract log.
use wrela.Prelude.{
  ℕ, zero, suc, ◌≤◌, ◌≡◌, ◌≢◌, refl, sym, ap, subst, ◌∙◌, ◌⊎◌, inl, inr, false, List, [], ◌∷◌, ◌++◌,
  Option, some, length, take, drop, length-append, length-drop, IsU64, drop-append,
  take-append-drop, append-nil, append_assoc, arith,
}
use wrela.Storage.Slot.{Slot, slot_checksum_valid}
use wrela.Storage.Recovery.{
  RecoveryStopReason, clean_eof, checksum_mismatch, RecoveryResult, stop, classify, after_empty,
  after_group, recover_loop, recovery_start, recover_slots,
}
use wrela.Storage.Recovery.Log.{
  IsEmptyAt, IsGroupAt, past_empty, past_group, Commits, done, skip, commit, IsBlocked,
}
use wrela.Storage.Recovery.Classify.{
  classify_empty_sound, classify_empty_complete, classify_group_sound, classify_group_complete,
  classify-ne-clean_eof, classify_torn, Head-cases,
}

-- The state that the loop goes on with is the one that the log prescribes.
after_empty-past : (r : RecoveryResult) → past_empty r ≡ after_empty r
after_empty-past r = refl

after_group-past :
    (n : ℕ) (xs : List Slot) (r : RecoveryResult)
    → length xs ≡ n
    → past_group xs r ≡ after_group n r
after_group-past n xs r size = λ i. record r {
  visible_events = seen i;
  next_event_id = next i;
  last_committed_group_end = end i;
}
  where
    seen : (past_group xs r).visible_events ≡ (after_group n r).visible_events
    seen = omega (arith, size)

    next : (past_group xs r).next_event_id ≡ (after_group n r).next_event_id
    next = omega (arith, size)

    end : (past_group xs r).last_committed_group_end ≡ (after_group n r).last_committed_group_end
    end = omega (arith, size)

-- Two amounts of fuel that suffice give one result.
fuel_irrelevant :
    (f g : ℕ) (xs : List Slot) (r : RecoveryResult)
    → length xs ≤ f
    → length xs ≤ g
    → recover_loop f xs r ≡ recover_loop g xs r
unfolding recover_loop
fuel_irrelevant zero zero [] r h k = refl
fuel_irrelevant zero (suc g) [] r h k = refl
fuel_irrelevant (suc f) zero [] r h k = refl
fuel_irrelevant (suc f) (suc g) [] r h k = refl
fuel_irrelevant zero g (x ∷ xs) r h k = absurd (omega arith)
fuel_irrelevant (suc f) zero (x ∷ xs) r h k = absurd (omega arith)
fuel_irrelevant (suc f) (suc g) (x ∷ xs) r h k = elim (Head-cases (classify r.next_event_id x xs)) [
  | inl (why, e) ↦ rw (e, recover_loop)
  | inr (inl e) ↦
      rw (e, recover_loop) (fuel_irrelevant f g xs (after_empty r) (omega arith) (omega arith))
  | inr (inr (n, e)) ↦
      let (size, unit) = classify_group_sound r.next_event_id x xs n e in
      let left = length-drop n (x ∷ xs) in
      let pos = unit.nonempty in
      rw (e, recover_loop)
        (fuel_irrelevant f g (drop n (x ∷ xs)) (after_group n r) (omega arith) (omega arith))
]

-- How a run ends that has read the log up to `t` and is left with the slots `rest`.
abbrev pub Ends : RecoveryResult → List Slot → Option RecoveryResult → Type 0
Ends t rest o =
    ((rest ≡ []) × (o ≡ some t))
    ⊎ (IsBlocked t.next_event_id rest
        × ((why : RecoveryStopReason) × (o ≡ some (record t { stop_reason = why }))
            × (why ≢ clean_eof)))

pub record Recovers (slots : List Slot) (r : RecoveryResult) (o : Option RecoveryResult)
    : Type 0 where
  pub front : List Slot
  pub rest : List Slot
  pub last : RecoveryResult
  pub splits : slots ≡ front ++ rest
  pub commits : Commits r front last
  pub ends : Ends last rest o

blocked :
    (e : ℕ) (x : Slot) (xs : List Slot) (why : RecoveryStopReason)
    → IsU64 e
    → classify e x xs ≡ stop why
    → IsBlocked e (x ∷ xs)
blocked e x xs why u h = record { nonempty = omega arith; no_empty = no_empty; no_group = no_group }
  where
    no_empty : (y : Slot) (rest : List Slot) → x ∷ xs ≡ y ∷ rest → ¬ IsEmptyAt e y
    no_empty y rest p m = cc (classify_empty_complete e y rest m)

    no_group : (ys rest : List Slot) → x ∷ xs ≡ ys ++ rest → ¬ IsGroupAt e ys
    no_group [] rest p m = absurd (omega (arith, m.nonempty))
    no_group (y ∷ ys) rest p m = cc (classify_group_complete e y ys rest u m)

same_reason :
    (r : RecoveryResult) → r.stop_reason ≡ clean_eof → record r { stop_reason = clean_eof } ≡ r
same_reason r c = λ i. record r { stop_reason = sym c i }

Recovers-nil :
    (f : ℕ) (r : RecoveryResult) → r.stop_reason ≡ clean_eof → Recovers [] r (recover_loop f [] r)
unfolding recover_loop
Recovers-nil f r c = record {
  front = [];
  rest = [];
  last = r;
  splits = refl;
  commits = done refl;
  ends = inl (refl, ap some (same_reason r c));
}

recover_loop-Recovers :
    (f : ℕ) (xs : List Slot) (r : RecoveryResult)
    → length xs ≤ f
    → IsU64 r.next_event_id
    → r.stop_reason ≡ clean_eof
    → Recovers xs r (recover_loop f xs r)
unfolding recover_loop
recover_loop-Recovers f [] r h u c = Recovers-nil f r c
recover_loop-Recovers zero (x ∷ xs) r h u c = absurd (omega arith)
recover_loop-Recovers (suc f) (x ∷ xs) r h u c = elim (Head-cases (classify r.next_event_id x xs)) [
  | inl (why, e) ↦
      rw (e, recover_loop)
        (record {
          front = [];
          rest = x ∷ xs;
          last = r;
          splits = refl;
          commits = done refl;
          ends = inr (
            blocked r.next_event_id x xs why u e,
            (why, refl, λ q. classify-ne-clean_eof r.next_event_id x xs (e ∙ ap stop q)),
          );
        })
  | inr (inl e) ↦
      let sub = recover_loop-Recovers f xs (after_empty r) (omega arith) (omega arith) c in
      rw (e, recover_loop)
        (record {
          front = x ∷ sub.front;
          rest = sub.rest;
          last = sub.last;
          splits = ap (◌∷◌ x) sub.splits;
          commits =
              skip (classify_empty_sound r.next_event_id x xs e)
                (subst (λ s. Commits s sub.front sub.last) (sym (after_empty-past r)) sub.commits);
          ends = sub.ends;
        })
  | inr (inr (n, e)) ↦
      let (size, unit) = classify_group_sound r.next_event_id x xs n e in
      let left = length-drop n (x ∷ xs) in
      let pos = unit.nonempty in
      let sub =
        recover_loop-Recovers f (drop n (x ∷ xs)) (after_group n r) (omega arith) (omega arith) c in
      rw (e, recover_loop)
        (record {
          front = take n (x ∷ xs) ++ sub.front;
          rest = sub.rest;
          last = sub.last;
          splits =
              sym (take-append-drop n (x ∷ xs))
              ∙ ap (λ l. take n (x ∷ xs) ++ l) sub.splits
              ∙ sym (append_assoc (take n (x ∷ xs)) sub.front sub.rest);
          commits = commit (take n (x ∷ xs)) sub.front refl unit (
              subst (λ s. Commits s sub.front sub.last)
                (sym (after_group-past n (take n (x ∷ xs)) r size)) sub.commits);
          ends = sub.ends;
        })
]

-- `recover_slots` always gives a result, and it is that of the abstract log: the slots split into a
-- log and a rest. In the log each event of a group counts as visible, each event and each reserved
-- slot uses up one id, and the last group ends with the id of its last event, all modulo 2^64. The
-- rest is empty and the reason a clean end, or no unit of a log stands at its head and the reason
-- is another.
pub recover_slots-Recovers :
    (slots : List Slot) → Recovers slots recovery_start (recover_slots slots)
unfolding recover_slots
recover_slots-Recovers slots =
    recover_loop-Recovers (length slots) slots recovery_start (omega arith) (omega arith) refl

abbrev recover_all : List Slot → RecoveryResult → Option RecoveryResult
recover_all xs r = recover_loop (length xs) xs r

recover_all_empty :
    (x : Slot) (xs : List Slot) (r : RecoveryResult)
    → IsEmptyAt r.next_event_id x
    → recover_all (x ∷ xs) r ≡ recover_all xs (past_empty r)
unfolding recover_loop
recover_all_empty x xs r m = rw (classify_empty_complete r.next_event_id x xs m, recover_loop)

recover_all_group :
    (xs rest : List Slot) (r : RecoveryResult)
    → IsU64 r.next_event_id
    → IsGroupAt r.next_event_id xs
    → recover_all (xs ++ rest) r ≡ recover_all rest (past_group xs r)
unfolding recover_loop
recover_all_group [] rest r u g = absurd (omega (arith, g.nonempty))
recover_all_group (x ∷ xs) rest r u g =
    rw
      (
        after_group-past (length (x ∷ xs)) (x ∷ xs) r refl,
        classify_group_complete r.next_event_id x xs rest u g,
        recover_loop,
      )
      (rw (drop-append xs rest (length xs) refl) (
        fuel_irrelevant (length (xs ++ rest)) (length rest) rest (after_group (length (x ∷ xs)) r)
          (omega (arith, length-append xs rest)) (omega arith)))

-- The loop reads a log that stands in front of any other slots.
recover_all-Commits :
    {r t : RecoveryResult} {p : List Slot} (q : List Slot)
    → IsU64 r.next_event_id
    → Commits r p t
    → recover_all (p ++ q) r ≡ recover_all q t
recover_all-Commits q u (done e) = ap (recover_all q) e
recover_all-Commits {r = r} q u (skip {x = x} {xs = xs} m c) =
    recover_all_empty x (xs ++ q) r m ∙ recover_all-Commits q (omega arith) c
recover_all-Commits {r = r} q u (commit xs rest e g c) =
    rw e (rw (append_assoc xs rest q) (recover_all_group xs (rest ++ q) r u g))
    ∙ recover_all-Commits q (omega arith) c

Commits-same_reason :
    {r t : RecoveryResult} {p : List Slot} → Commits r p t → r.stop_reason ≡ t.stop_reason
Commits-same_reason (done e) = ap (λ r. r.stop_reason) e
Commits-same_reason (skip m c) = Commits-same_reason c
Commits-same_reason (commit xs rest e g c) = Commits-same_reason c

-- All events of a log are recovered, and the end is clean.
pub recover_slots-Commits :
    (p : List Slot) (t : RecoveryResult) → Commits recovery_start p t → recover_slots p ≡ some t
unfolding recover_slots
recover_slots-Commits p t c =
    rw append-nil at (recover_all-Commits [] (omega arith) c)
    ∙ unfold recover_loop in ap some (same_reason t (sym (Commits-same_reason c)))

-- A torn tail: a log, then a slot whose checksum fails, then anything. The events of the log, and
-- no others, are recovered and counted, and the reason is the checksum.
pub recover_slots_torn :
    (p : List Slot) (t : RecoveryResult) (x : Slot) (q : List Slot)
    → Commits recovery_start p t
    → slot_checksum_valid x ≡ false
    → recover_slots (p ++ x ∷ q) ≡ some (record t { stop_reason = checksum_mismatch })
unfolding recover_slots
recover_slots_torn p t x q c bad =
    recover_all-Commits (x ∷ q) (omega arith) c
    ∙ unfold recover_loop in rw (classify_torn t.next_event_id x q bad, recover_loop)
