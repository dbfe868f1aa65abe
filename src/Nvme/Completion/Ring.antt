-- ===== src/Nvme/Completion/Ring.antt =====
-- Where the head of a ring stands after any number of steps.
use wrela.Prelude.{
  ℕ, zero, suc, ◌+◌, ◌*◌, ◌/◌, ◌%◌, ◌<◌, ◌≡◌, refl, sym, ◌∙◌, ap, Bool, not, ◌==◌, u16, IsU16,
  arith, inl, inr, Bool-cases,
}
use wrela.Nvme.Completion.{CompletionQueue, advance, advance_one}
use native.Mathlib.Nat.{mod-eq_of_lt, div-eq_of_lt, mul-add-div, mul-add-mod_self_left}

pub record IsQueue (q : CompletionQueue) : Type 0 where
  pub inside : q.head < q.depth
  pub width : IsU16 q.depth

-- The phase after `n` wraps.
abbrev pub flips : Bool → ℕ → Bool
flips phase zero = phase
flips phase (suc n) = not (flips phase n)

-- The queue whose head has moved to position `p`, counted on from the start of the ring.
abbrev pub at : CompletionQueue → ℕ → CompletionQueue
at q p = record q { head = p % q.depth; phase = flips q.phase (p / q.depth) }

pub advance_one-IsQueue : (q : CompletionQueue) → IsQueue q → IsQueue (advance_one q)
advance_one-IsQueue q w = ground arith

flips-not : (phase : Bool) (n : ℕ) → flips (not phase) n ≡ not (flips phase n)
flips-not phase zero = refl
flips-not phase (suc n) = ap not (flips-not phase n)

pub at_start : (q : CompletionQueue) → IsQueue q → at q q.head ≡ q
at_start q w =
    let h : q.head % q.depth ≡ q.head = mod-eq_of_lt w.inside in
    let k : q.head / q.depth ≡ 0 = div-eq_of_lt w.inside in
    λ i. record q { head = h i; phase = flips q.phase (k i) }

pub at_shift :
    (q : CompletionQueue) (n : ℕ)
    → IsQueue q
    → at (advance_one q) ((advance_one q).head + n) ≡ at q (q.head + suc n)
at_shift q n w = elim (Bool-cases (u16 (q.head + 1) == q.depth)) [
  | inl wrap ↦
      let sum : q.head + suc n ≡ q.depth * 1 + n = ground (arith, w) in
      let moved : (0 + n) % q.depth ≡ (q.head + suc n) % q.depth =
        rw (sum, mul-add-mod_self_left q.depth 1 n) (ap (λ k. k % q.depth) (omega arith)) in
      let laps : suc ((0 + n) / q.depth) ≡ (q.head + suc n) / q.depth =
        rw (sum, mul-add-div {m = q.depth} (omega (arith, w.inside)) 1 n) (laps_one n) in
      let flipped : flips (not q.phase) ((0 + n) / q.depth)
          ≡ flips q.phase ((q.head + suc n) / q.depth) =
        flips-not q.phase ((0 + n) / q.depth) ∙ ap (flips q.phase) laps in
      rw wrap (λ i. record q { head = moved i; phase = flipped i })
  | inr on ↦
      let sum : u16 (q.head + 1) + n ≡ q.head + suc n = omega (arith, w) in rw on (ap (at q) sum)
]
  where
    laps_one : (n : ℕ) → suc ((0 + n) / q.depth) ≡ 1 + n / q.depth
    laps_one n = ground arith

pub advance-IsQueue : (n : ℕ) (q : CompletionQueue) → IsQueue q → IsQueue (advance q n)
unfolding advance
advance-IsQueue zero q w = w
advance-IsQueue (suc n) q w = advance-IsQueue n (advance_one q) (advance_one-IsQueue q w)

-- On a queue whose head lies in the ring, advancing by `n` moves the head `n` places round the ring and flips the phase once for each wrap.
pub advance_lem : (n : ℕ) (q : CompletionQueue) → IsQueue q → advance q n ≡ at q (q.head + n)
unfolding advance
advance_lem zero q w = sym (at_start q w) ∙ ap (at q) (omega arith)
advance_lem (suc n) q w = advance_lem n (advance_one q) (advance_one-IsQueue q w) ∙ at_shift q n w
