-- ===== src/Lex/Tokens.antt =====
-- Token kinds and the fixed spellings of compiler/lex/token.go.
use wrela.Prelude.{ℕ, List, [], ◌∷◌, Option, none, some, if◌then◌else◌}
use wrela.Bytes.{Bytes, bytes_eq}

pub data Kind : Type 0 where
  eof identifier integer string l_paren r_paren l_brace r_brace l_bracket r_bracket colon : Kind
  comma dot plus minus star slash percent less less_equal greater greater_equal equal : Kind
  equal_equal bang bang_equal amp pipe caret arrow fat_arrow shift_left shift_right : Kind
  keyword_module keyword_use keyword_from keyword_data keyword_class keyword_unique : Kind
  keyword_driver keyword_path keyword_executor keyword_interrupt keyword_receiver keyword_on : Kind
  keyword_image keyword_transitions keyword_phase keyword_fn keyword_asm keyword_start : Kind
  keyword_let keyword_return keyword_if keyword_else keyword_while keyword_with keyword_for : Kind
  keyword_in keyword_enum keyword_trait keyword_impl keyword_where keyword_const : Kind
  keyword_static_assert keyword_event keyword_projection keyword_match keyword_sizeof : Kind
  keyword_alignof keyword_true keyword_false keyword_never semicolon newline : Kind

pub record Token : Type 0 where
  pub kind : Kind
  pub text : Bytes
  pub start : ℕ
  pub stop : ℕ

-- A Go map from strings, as the list of its entries; no key stands in one twice.
abbrev find_kind : List (Bytes × Kind) → Bytes → Option Kind
find_kind [] text = none
find_kind ((spelling, kind) ∷ more) text =
    if bytes_eq spelling text then some kind else find_kind more text

abbrev pub keyword_kinds : List (Bytes × Kind)
keyword_kinds =
    (b'm' ∷ b'o' ∷ b'd' ∷ b'u' ∷ b'l' ∷ b'e' ∷ [], keyword_module)
    ∷ (b'u' ∷ b's' ∷ b'e' ∷ [], keyword_use)
    ∷ (b'f' ∷ b'r' ∷ b'o' ∷ b'm' ∷ [], keyword_from)
    ∷ (b'd' ∷ b'a' ∷ b't' ∷ b'a' ∷ [], keyword_data)
    ∷ (b'c' ∷ b'l' ∷ b'a' ∷ b's' ∷ b's' ∷ [], keyword_class)
    ∷ (b'u' ∷ b'n' ∷ b'i' ∷ b'q' ∷ b'u' ∷ b'e' ∷ [], keyword_unique)
    ∷ (b'd' ∷ b'r' ∷ b'i' ∷ b'v' ∷ b'e' ∷ b'r' ∷ [], keyword_driver)
    ∷ (b'p' ∷ b'a' ∷ b't' ∷ b'h' ∷ [], keyword_path)
    ∷ (b'e' ∷ b'x' ∷ b'e' ∷ b'c' ∷ b'u' ∷ b't' ∷ b'o' ∷ b'r' ∷ [], keyword_executor)
    ∷ (b'i' ∷ b'n' ∷ b't' ∷ b'e' ∷ b'r' ∷ b'r' ∷ b'u' ∷ b'p' ∷ b't' ∷ [], keyword_interrupt)
    ∷ (b'r' ∷ b'e' ∷ b'c' ∷ b'e' ∷ b'i' ∷ b'v' ∷ b'e' ∷ b'r' ∷ [], keyword_receiver)
    ∷ (b'o' ∷ b'n' ∷ [], keyword_on)
    ∷ (b'i' ∷ b'm' ∷ b'a' ∷ b'g' ∷ b'e' ∷ [], keyword_image)
    ∷ (
      b't' ∷ b'r' ∷ b'a' ∷ b'n' ∷ b's' ∷ b'i' ∷ b't' ∷ b'i' ∷ b'o' ∷ b'n' ∷ b's' ∷ [],
      keyword_transitions,
    )
    ∷ (b'p' ∷ b'h' ∷ b'a' ∷ b's' ∷ b'e' ∷ [], keyword_phase)
    ∷ (b'f' ∷ b'n' ∷ [], keyword_fn)
    ∷ (b'a' ∷ b's' ∷ b'm' ∷ [], keyword_asm)
    ∷ (b's' ∷ b't' ∷ b'a' ∷ b'r' ∷ b't' ∷ [], keyword_start)
    ∷ (b'l' ∷ b'e' ∷ b't' ∷ [], keyword_let)
    ∷ (b'r' ∷ b'e' ∷ b't' ∷ b'u' ∷ b'r' ∷ b'n' ∷ [], keyword_return)
    ∷ (b'i' ∷ b'f' ∷ [], keyword_if)
    ∷ (b'e' ∷ b'l' ∷ b's' ∷ b'e' ∷ [], keyword_else)
    ∷ (b'w' ∷ b'h' ∷ b'i' ∷ b'l' ∷ b'e' ∷ [], keyword_while)
    ∷ (b'w' ∷ b'i' ∷ b't' ∷ b'h' ∷ [], keyword_with)
    ∷ (b'f' ∷ b'o' ∷ b'r' ∷ [], keyword_for)
    ∷ (b'e' ∷ b'n' ∷ b'u' ∷ b'm' ∷ [], keyword_enum)
    ∷ (b't' ∷ b'r' ∷ b'a' ∷ b'i' ∷ b't' ∷ [], keyword_trait)
    ∷ (b'i' ∷ b'm' ∷ b'p' ∷ b'l' ∷ [], keyword_impl)
    ∷ (b'i' ∷ b'n' ∷ [], keyword_in)
    ∷ (b'w' ∷ b'h' ∷ b'e' ∷ b'r' ∷ b'e' ∷ [], keyword_where)
    ∷ (b'c' ∷ b'o' ∷ b'n' ∷ b's' ∷ b't' ∷ [], keyword_const)
    ∷ (
      b's' ∷ b't' ∷ b'a' ∷ b't' ∷ b'i' ∷ b'c' ∷ b'_' ∷ b'a' ∷ b's' ∷ b's' ∷ b'e' ∷ b'r' ∷ b't' ∷ [],
      keyword_static_assert,
    )
    ∷ (b'e' ∷ b'v' ∷ b'e' ∷ b'n' ∷ b't' ∷ [], keyword_event)
    ∷ (b'p' ∷ b'r' ∷ b'o' ∷ b'j' ∷ b'e' ∷ b'c' ∷ b't' ∷ b'i' ∷ b'o' ∷ b'n' ∷ [], keyword_projection)
    ∷ (b'm' ∷ b'a' ∷ b't' ∷ b'c' ∷ b'h' ∷ [], keyword_match)
    ∷ (b's' ∷ b'i' ∷ b'z' ∷ b'e' ∷ b'o' ∷ b'f' ∷ [], keyword_sizeof)
    ∷ (b'a' ∷ b'l' ∷ b'i' ∷ b'g' ∷ b'n' ∷ b'o' ∷ b'f' ∷ [], keyword_alignof)
    ∷ (b't' ∷ b'r' ∷ b'u' ∷ b'e' ∷ [], keyword_true)
    ∷ (b'f' ∷ b'a' ∷ b'l' ∷ b's' ∷ b'e' ∷ [], keyword_false)
    ∷ (b'n' ∷ b'e' ∷ b'v' ∷ b'e' ∷ b'r' ∷ [], keyword_never)
    ∷ []

-- `keywordKinds[text]`
unfoldable pub keyword_kind : Bytes → Option Kind
keyword_kind text = find_kind keyword_kinds text

abbrev pub two_char_operators : List (Bytes × Kind)
two_char_operators =
    (b'-' ∷ b'>' ∷ [], arrow)
    ∷ (b'=' ∷ b'>' ∷ [], fat_arrow)
    ∷ (b'=' ∷ b'=' ∷ [], equal_equal)
    ∷ (b'!' ∷ b'=' ∷ [], bang_equal)
    ∷ (b'<' ∷ b'=' ∷ [], less_equal)
    ∷ (b'>' ∷ b'=' ∷ [], greater_equal)
    ∷ (b'<' ∷ b'<' ∷ [], shift_left)
    ∷ (b'>' ∷ b'>' ∷ [], shift_right)
    ∷ []

-- `twoCharOperatorAt`, on the bytes that are left.
unfoldable pub two_char_operator_at : Bytes → Option Kind
two_char_operator_at [] = none
two_char_operator_at (a ∷ []) = none
two_char_operator_at (a ∷ b ∷ rest) = find_kind two_char_operators (a ∷ b ∷ [])

abbrev pub single_char_tokens : List (Bytes × Kind)
single_char_tokens =
    (b'(' ∷ [], l_paren)
    ∷ (b')' ∷ [], r_paren)
    ∷ (b'{' ∷ [], l_brace)
    ∷ (b'}' ∷ [], r_brace)
    ∷ (b'[' ∷ [], l_bracket)
    ∷ (b']' ∷ [], r_bracket)
    ∷ (b':' ∷ [], colon)
    ∷ (b',' ∷ [], comma)
    ∷ (b'.' ∷ [], dot)
    ∷ (b'+' ∷ [], plus)
    ∷ (b'-' ∷ [], minus)
    ∷ (b'*' ∷ [], star)
    ∷ (b'/' ∷ [], slash)
    ∷ (b'%' ∷ [], percent)
    ∷ (b'<' ∷ [], less)
    ∷ (b'>' ∷ [], greater)
    ∷ (b'=' ∷ [], equal)
    ∷ (b'!' ∷ [], bang)
    ∷ (b'&' ∷ [], amp)
    ∷ (b'|' ∷ [], pipe)
    ∷ (b'^' ∷ [], caret)
    ∷ (b';' ∷ [], semicolon)
    ∷ []

-- `singleCharTokens[ch]`
unfoldable pub single_char_token : ℕ → Option Kind
single_char_token ch = find_kind single_char_tokens (ch ∷ [])
