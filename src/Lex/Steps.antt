-- ===== src/Lex/Steps.antt =====
-- What one round of the lexer appends stands on the bytes that it passes.
use wrela.Prelude.{
  ℕ, ◌+◌, ◌≤◌, ◌≡◌, ◌⊎◌, refl, inl, inr, List, [], ◌∷◌, Option, none, some, length, take, All,
  Bool-cases, Option-cases, arith, ◌==◌,
}
use wrela.Bytes.{Bytes}
use wrela.Lex.{
  Step, Diagnostic, skips, takes, string_step, rune_step, single_step, operator_step, next_step,
}
use wrela.Lex.Tokens.{Kind, Token, string, two_char_operator_at, single_char_token}
use wrela.Lex.Utf8.{decode_rune, decode_rune-width}
use wrela.Lex.Scan.{
  Unicode, Literal, is_whitespace, is_line_comment, is_ident_start_rune, lex_ident, lex_int,
  string_loop,
}
use wrela.Lex.Widths.{
  lex_int-width, lex_ident-width, string_loop-width, comment-width, two_char_operator_at-width,
}

-- At most one token, over all the bytes that are passed.
abbrev pub AreTokensAt : ℕ → ℕ → Bytes → List Token → Type 0
AreTokensAt i width bs [] = Unit
AreTokensAt i width bs (t ∷ []) =
    (t.start ≡ i) × (t.stop ≡ i + width) × ((t.kind ≡ string) ⊎ (t.text ≡ take width bs))
AreTokensAt i width bs (t ∷ more ∷ rest) = ⊥

pub record IsStepAt (i : ℕ) (bs : Bytes) (s : Step) : Type 0 where
  pub positive : 1 ≤ s.width
  pub inside : s.width ≤ length bs
  pub tokens_placed : AreTokensAt i s.width bs s.tokens
  pub diagnostics_placed :
      All (λ (d : Diagnostic). (d.start ≡ i) × (d.stop ≡ i + s.width)) s.diagnostics

takes-IsStepAt :
    (kind : Kind) (width i : ℕ) (bs : Bytes)
    → 1 ≤ width
    → width ≤ length bs
    → IsStepAt i bs (takes kind width i bs)
takes-IsStepAt kind width i bs p h = record {
  positive = p;
  inside = h;
  tokens_placed = (refl, refl, inr refl);
  diagnostics_placed = tt;
}

skips-IsStepAt :
    (width i : ℕ) (bs : Bytes) → 1 ≤ width → width ≤ length bs → IsStepAt i bs (skips width)
skips-IsStepAt width i bs p h = record {
  positive = p;
  inside = h;
  tokens_placed = tt;
  diagnostics_placed = tt;
}

string_step-IsStepAt :
    (i : ℕ) (b : ℕ) (bs : Bytes) (l : Literal)
    → l.width ≤ length bs
    → IsStepAt i (b ∷ bs) (string_step i l)
unfolding string_step
string_step-IsStepAt i b bs l h = record {
  positive = omega arith;
  inside = omega arith;
  tokens_placed = (refl, refl, inl refl);
  diagnostics_placed = elim (Bool-cases l.closed) [
    | inl e ↦ rw e tt
    | inr e ↦ rw e ((refl, refl), tt)
  ];
}

rune_step-IsStepAt :
    (u : Unicode) (i b : ℕ) (bs : Bytes) → IsStepAt i (b ∷ bs) (rune_step u i (b ∷ bs))
unfolding rune_step
rune_step-IsStepAt u i b bs = elim (Bool-cases (u.is_digit (decode_rune (b ∷ bs)).0)) [
  | inl e ↦
      let (p, h) = lex_int-width u b bs e in
      rw e (takes-IsStepAt _ (lex_int u (b ∷ bs)) i (b ∷ bs) p h)
  | inr e ↦ rw e (elim (Bool-cases (is_ident_start_rune u (decode_rune (b ∷ bs)).0)) [
    | inl word ↦
        let (p, h) = lex_ident-width u b bs word in
        rw word (takes-IsStepAt _ (lex_ident u (b ∷ bs)) i (b ∷ bs) p h)
    | inr other ↦
        let (p, h) = decode_rune-width b bs in
        rw other (record {
          positive = p;
          inside = h;
          tokens_placed = tt;
          diagnostics_placed = ((refl, refl), tt);
        })
  ])
]

single_step-IsStepAt :
    (u : Unicode) (i b : ℕ) (bs : Bytes) (o : Option Kind)
    → IsStepAt i (b ∷ bs) (single_step u i b (b ∷ bs) o)
unfolding single_step
single_step-IsStepAt u i b bs (some kind) =
    takes-IsStepAt kind 1 i (b ∷ bs) (omega arith) (omega arith)
single_step-IsStepAt u i b bs none = elim (Bool-cases (b == b'"')) [
  | inl e ↦ rw e (string_step-IsStepAt i b bs (string_loop 0 bs) (string_loop-width 0 bs))
  | inr e ↦ rw e (rune_step-IsStepAt u i b bs)
]

pub next_step-IsStepAt :
    (u : Unicode) (i b : ℕ) (bs : Bytes) → IsStepAt i (b ∷ bs) (next_step u i b bs)
unfolding next_step operator_step
next_step-IsStepAt u i b bs = elim (Bool-cases (is_whitespace b)) [
  | inl e ↦ rw e (skips-IsStepAt 1 i (b ∷ bs) (omega arith) (omega arith))
  | inr e ↦ rw e (elim (Bool-cases (b == b'\n')) [
    | inl line ↦ rw line (takes-IsStepAt _ 1 i (b ∷ bs) (omega arith) (omega arith))
    | inr on ↦ rw on (elim (Bool-cases (is_line_comment (b ∷ bs))) [
      | inl c ↦ rw c (skips-IsStepAt _ i (b ∷ bs) (omega arith) (comment-width (b ∷ bs) c))
      | inr c ↦ rw c (elim (Option-cases (two_char_operator_at (b ∷ bs))) [
        | inl single ↦ rw single (single_step-IsStepAt u i b bs (single_char_token b))
        | inr (kind, is) ↦ rw is (
            takes-IsStepAt kind 2 i (b ∷ bs) (omega arith)
              (two_char_operator_at-width (b ∷ bs) kind is))
      ])
    ])
  ])
]
