-- ===== src/Lex.antt =====
-- The lexer: compiler/lex/lexer.go. A source string is the list of its bytes.
pub mod Tokens
pub mod Utf8
pub mod Scan
pub mod Widths
pub mod Steps
pub mod Placed
use wrela.Prelude.{
  ℕ, zero, suc, ◌+◌, ◌-◌, Bool, true, false, not, List, [], ◌∷◌, ◌++◌, Option, none, some, ◌==◌,
  if◌then◌else◌, take, drop, length,
}
use wrela.Bytes.{Bytes}
use wrela.Lex.Tokens.{
  Kind, Token, eof, newline, identifier, integer, string, keyword_kind, two_char_operator_at,
  single_char_token,
}
use wrela.Lex.Utf8.{decode_rune}
use wrela.Lex.Scan.{
  Unicode, Literal, is_whitespace, is_line_comment, line_width, is_ident_start_rune, lex_ident,
  lex_int, string_loop,
}

-- The two messages of the lexer; phase and code are the same for both.
pub data Message : Type 0 where
  unterminated_string_literal invalid_character : Message

pub record Diagnostic : Type 0 where
  pub start : ℕ
  pub stop : ℕ
  pub message : Message

-- What one round of the loop of `All` passes, and what it appends.
pub record Step : Type 0 where
  pub width : ℕ
  pub tokens : List Token
  pub diagnostics : List Diagnostic

abbrev pub skips : ℕ → Step
skips width = record { width = width; tokens = []; diagnostics = [] }

-- A token whose text is the next `width` bytes.
abbrev pub takes : Kind → ℕ → ℕ → Bytes → Step
takes kind width i bs = record {
  width = width;
  tokens = record { kind = kind; text = take width bs; start = i; stop = i + width } ∷ [];
  diagnostics = [];
}

-- `lexString` at an opening quote, with its diagnostic.
unfoldable pub string_step : ℕ → Literal → Step
string_step i l = record {
  width = suc l.width;
  tokens = record { kind = string; text = l.text; start = i; stop = i + suc l.width } ∷ [];
  diagnostics =
      if l.closed
      then []
      else record { start = i; stop = i + suc l.width; message = unterminated_string_literal } ∷ [];
}

-- The kind of an identifier's text.
unfoldable pub kind_of_word : Option Kind → Kind
kind_of_word none = identifier
kind_of_word (some kind) = kind

-- The tests on the decoded rune.
unfoldable pub rune_step : Unicode → ℕ → Bytes → Step
unfolding kind_of_word
rune_step u i bs =
    let (r, width) = decode_rune bs in
    let word = lex_ident u bs in
    if u.is_digit r
    then takes integer (lex_int u bs) i bs
    else if is_ident_start_rune u r
    then takes (kind_of_word (keyword_kind (take word bs))) word i bs
    else record {
      width = width;
      tokens = [];
      diagnostics = record { start = i; stop = i + width; message = invalid_character } ∷ [];
    }

unfoldable pub single_step : Unicode → ℕ → ℕ → Bytes → Option Kind → Step
unfolding rune_step string_step
single_step u i ch bs (some kind) = takes kind 1 i bs
single_step u i ch bs none =
    if ch == b'"' then string_step i (string_loop 0 (drop 1 bs)) else rune_step u i bs

unfoldable pub operator_step : Unicode → ℕ → ℕ → Bytes → Option Kind → Step
unfolding single_step
operator_step u i ch bs (some kind) = takes kind 2 i bs
operator_step u i ch bs none = single_step u i ch bs (single_char_token ch)

-- One round of the loop, at the byte `ch` with position `i`.
unfoldable pub next_step : Unicode → ℕ → ℕ → Bytes → Step
unfolding operator_step
next_step u i ch rest =
    let bs = ch ∷ rest in
    if is_whitespace ch
    then skips 1
    else if ch == b'\n'
    then takes newline 1 i bs
    else if is_line_comment bs
    then skips (2 + line_width (drop 2 bs))
    else operator_step u i ch bs (two_char_operator_at bs)

-- The loop of `All`; `skip` counts the bytes of the round at hand that are still to be passed.
unfoldable pub all_loop : Unicode → ℕ → ℕ → Bytes → List Token × List Diagnostic
all_loop u skip i [] = ([], [])
all_loop u (suc skip) i (b ∷ bs) = all_loop u skip (suc i) bs
all_loop u zero i (b ∷ bs) =
    let step = next_step u i b bs in
    let (tokens, diagnostics) = all_loop u (step.width - 1) (suc i) bs in
    (step.tokens ++ tokens, step.diagnostics ++ diagnostics)

abbrev pub eof_token : Bytes → Token
eof_token src = record { kind = eof; text = []; start = length src; stop = length src }

-- `All`
unfoldable pub all : Unicode → Bytes → List Token × List Diagnostic
unfolding all_loop
all u src =
    let (tokens, diagnostics) = all_loop u 0 0 src in (tokens ++ eof_token src ∷ [], diagnostics)
