-- ===== src/Lex/Placed.antt =====
-- Where the tokens and the diagnostics stand in the source.
use wrela.Prelude.{
  ℕ, zero, suc, ◌+◌, ◌-◌, ◌≤◌, ◌<◌, ◌≡◌, ◌⊎◌, refl, sym, ap, ◌∙◌, inl, inr, List, [], ◌∷◌, ◌++◌,
  length, length-append, append_assoc, take, drop, drop-append, All, All-append, arith,
}
use wrela.Bytes.{Bytes}
use wrela.Lex.{Diagnostic, next_step, all_loop, all, eof_token}
use wrela.Lex.Tokens.{Token, string}
use wrela.Lex.Scan.{Unicode}
use wrela.Lex.Steps.{AreTokensAt, next_step-IsStepAt}

-- The text is that of the source from the start to the end of the token, but for a string literal.
abbrev pub IsSpelled : Bytes → Token → Type 0
IsSpelled src t = (t.kind ≡ string) ⊎ (t.text ≡ take (t.stop - t.start) (drop t.start src))

-- The tokens stand in the source one behind the other, from the position `low` on.
abbrev pub Follow : Bytes → ℕ → List Token → Type 0
Follow src low [] = Unit
Follow src low (t ∷ ts) =
    (low ≤ t.start)
    × (t.start < t.stop)
    × (t.stop ≤ length src)
    × IsSpelled src t
    × Follow src t.stop ts

abbrev pub IsWithin : Bytes → Diagnostic → Type 0
IsWithin src d = (d.start < d.stop) × (d.stop ≤ length src)

Follow-step :
    (src pre bs : Bytes) (i width : ℕ) (here more : List Token)
    → src ≡ pre ++ bs
    → i ≡ length pre
    → 1 ≤ width
    → width ≤ length bs
    → AreTokensAt i width bs here
    → Follow src (i + width) more
    → Follow src i (here ++ more)
Follow-step src pre bs i width [] more e at p h placed f = lower i more f
  where
    lower : (low : ℕ) (ts : List Token) → Follow src (low + width) ts → Follow src low ts
    lower low [] g = tt
    lower low (t ∷ ts) g = (omega (arith, g.0), g.1, g.2, g.3, g.4)
Follow-step src pre bs i width (t ∷ []) more e at p h (start, stop, spelled) f = (
  omega arith,
  omega arith,
  omega (arith, ap length e, length-append pre bs),
  spell spelled,
  rw stop f,
)
  where
    there : drop t.start src ≡ bs
    there = rw (e, start, at) (drop-append pre bs (length pre) refl)

    size : t.stop - t.start ≡ width
    size = omega arith

    spell : (t.kind ≡ string) ⊎ (t.text ≡ take width bs) → IsSpelled src t
    spell (inl k) = inl k
    spell (inr k) = inr (rw (there, size) k)
Follow-step src pre bs i width (t ∷ s ∷ rest) more e at p h placed f = absurd placed

diagnostics-IsWithin :
    (src : Bytes) (i width : ℕ) (ds : List Diagnostic)
    → 1 ≤ width
    → i + width ≤ length src
    → All (λ d. (d.start ≡ i) × (d.stop ≡ i + width)) ds
    → All (IsWithin src) ds
diagnostics-IsWithin src i width [] p h a = tt
diagnostics-IsWithin src i width (d ∷ ds) p h ((start, stop), a) =
    ((omega arith, omega arith), diagnostics-IsWithin src i width ds p h a)

abbrev LoopPlaces : Bytes → ℕ → List Token × List Diagnostic → Type 0
LoopPlaces src low r = Follow src low r.0 × All (IsWithin src) r.1

all_loop-places :
    (u : Unicode) (src pre bs : Bytes) (skip i : ℕ)
    → src ≡ pre ++ bs
    → i ≡ length pre
    → skip ≤ length bs
    → LoopPlaces src (i + skip) (all_loop u skip i bs)
unfolding all_loop
all_loop-places u src pre [] skip i e at h = (tt, tt)
all_loop-places u src pre (b ∷ bs) (suc skip) i e at h =
    let next : i + suc skip ≡ suc i + skip = omega arith in
    rw next (
      all_loop-places u src (pre ++ b ∷ []) bs skip (suc i) (e ∙ sym (append_assoc pre (b ∷ []) bs))
        (omega (arith, length-append pre (b ∷ []))) (omega arith))
all_loop-places u src pre (b ∷ bs) zero i e at h =
    let s = next_step u i b bs in
    let w = next_step-IsStepAt u i b bs in
    let rest =
      all_loop-places u src (pre ++ b ∷ []) bs (s.width - 1) (suc i)
        (e ∙ sym (append_assoc pre (b ∷ []) bs)) (omega (arith, length-append pre (b ∷ [])))
        (omega (arith, w.inside)) in
    let next : suc i + (s.width - 1) ≡ i + s.width = omega (arith, w.positive) in
    let here : i + 0 ≡ i = omega arith in
    let ends : i + s.width ≤ length src =
      omega (arith, w.inside, ap length e, length-append pre (b ∷ bs)) in
    (
      rw here (
          Follow-step src pre (b ∷ bs) i s.width s.tokens _ e at w.positive w.inside w.tokens_placed
            (rw next at rest.0)),
      All-append (IsWithin src) s.diagnostics _
          (diagnostics-IsWithin src i s.width s.diagnostics w.positive ends w.diagnostics_placed)
          rest.1,
    )

-- On every source the lexer gives tokens that stand in it one behind the other, none of them empty,
-- and one more for the end. Each carries the bytes of the source between its two positions, but for
-- string literals, whose text is unescaped. The diagnostics lie within the source.
pub all-Follow :
    (u : Unicode) (src : Bytes)
    → (body : List Token) × ((all u src).0 ≡ body ++ eof_token src ∷ [])
      × Follow src 0 body
      × All (IsWithin src) (all u src).1
unfolding all
all-Follow u src =
    let (follow, inside) = all_loop-places u src [] src 0 0 refl refl (omega arith) in
    ((all_loop u 0 0 src).0, refl, follow, inside)
