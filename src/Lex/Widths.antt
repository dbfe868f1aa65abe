-- ===== src/Lex/Widths.antt =====
-- Each round of the lexer passes at least one byte, and no more than there are.
use wrela.Prelude.{ℕ, zero, suc, ◌+◌, ◌-◌, ◌≤◌, ◌≡◌, Bool, true, [], ◌∷◌, some, length, drop, arith}
use wrela.Bytes.{Bytes}
use wrela.Lex.Tokens.{Kind, two_char_operator_at}
use wrela.Lex.Utf8.{decode_rune}
use wrela.Lex.Scan.{
  Unicode, is_line_comment, line_width, runes_width, is_ident_start_rune, is_ident_continue_rune,
  hex_width, lex_ident, lex_int, string_loop,
}

pub line_width-le : (bs : Bytes) → line_width bs ≤ length bs
unfolding line_width
line_width-le [] = omega arith
line_width-le (b ∷ bs) = ground (arith, line_width-le bs)

pub hex_width-le : (u : Unicode) (bs : Bytes) → hex_width u bs ≤ length bs
unfolding hex_width
hex_width-le u [] = omega arith
hex_width-le u (b ∷ bs) = ground (arith, hex_width-le u bs)

pub runes_width-le :
    (test : ℕ → Bool) (skip : ℕ) (bs : Bytes) → runes_width test skip bs ≤ length bs
unfolding runes_width
runes_width-le test skip [] = omega arith
runes_width-le test (suc skip) (b ∷ bs) = omega (arith, runes_width-le test skip bs)
runes_width-le test zero (b ∷ bs) =
    ground (arith, runes_width-le test ((decode_rune (b ∷ bs)).1 - 1) bs)

-- A first rune that passes the test is passed.
pub runes_width_positive :
    (test : ℕ → Bool) (b : ℕ) (bs : Bytes)
    → test (decode_rune (b ∷ bs)).0 ≡ true
    → 1 ≤ runes_width test 0 (b ∷ bs)
unfolding runes_width
runes_width_positive test b bs h = rw h (omega arith)

pub string_loop-width : (skip : ℕ) (bs : Bytes) → (string_loop skip bs).width ≤ length bs
unfolding string_loop
string_loop-width skip [] = omega arith
string_loop-width (suc skip) (b ∷ bs) = omega (arith, string_loop-width skip bs)
string_loop-width zero (b ∷ bs) =
    ground (arith, string_loop-width 1 bs, string_loop-width ((decode_rune (b ∷ bs)).1 - 1) bs)

pub lex_int-width :
    (u : Unicode) (b : ℕ) (bs : Bytes)
    → u.is_digit (decode_rune (b ∷ bs)).0 ≡ true
    → (1 ≤ lex_int u (b ∷ bs)) × (lex_int u (b ∷ bs) ≤ length (b ∷ bs))
unfolding lex_int
lex_int-width u b [] h =
    (runes_width_positive u.is_digit b [] h, runes_width-le u.is_digit 0 (b ∷ []))
lex_int-width u b (c ∷ bs) h = ground (
  arith,
  hex_width-le u bs,
  runes_width_positive u.is_digit b (c ∷ bs) h,
  runes_width-le u.is_digit 0 (b ∷ c ∷ bs),
)

pub lex_ident-width :
    (u : Unicode) (b : ℕ) (bs : Bytes)
    → is_ident_start_rune u (decode_rune (b ∷ bs)).0 ≡ true
    → (1 ≤ lex_ident u (b ∷ bs)) × (lex_ident u (b ∷ bs) ≤ length (b ∷ bs))
unfolding lex_ident
lex_ident-width u b bs h = (
  runes_width_positive (is_ident_continue_rune u) b bs (ground arith),
  runes_width-le (is_ident_continue_rune u) 0 (b ∷ bs),
)

pub comment-width :
    (bs : Bytes) → is_line_comment bs ≡ true → 2 + line_width (drop 2 bs) ≤ length bs
unfolding is_line_comment
comment-width [] h = absurd cc
comment-width (a ∷ []) h = absurd cc
comment-width (a ∷ b ∷ rest) h = omega (arith, line_width-le rest)

pub two_char_operator_at-width :
    (bs : Bytes) (kind : Kind) → two_char_operator_at bs ≡ some kind → 2 ≤ length bs
unfolding two_char_operator_at
two_char_operator_at-width [] kind h = absurd cc
two_char_operator_at-width (a ∷ []) kind h = absurd cc
two_char_operator_at-width (a ∷ b ∷ rest) kind h = omega arith
