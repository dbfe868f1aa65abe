-- ===== src/Lex/Scan.antt =====
-- The loops of compiler/lex/lexer.go that read one token. Each takes the bytes that are left and
-- gives the number of bytes that it passes. The loops move on by whole runes: `skip` counts the
-- bytes of the rune at hand that are still to be passed.
use wrela.Prelude.{
  ℕ, zero, suc, ◌+◌, ◌-◌, Bool, true, false, ◌&&◌, ◌||◌, [], ◌∷◌, ◌++◌, leb, ◌==◌, if◌then◌else◌,
  drop,
}
use wrela.Bytes.{Bytes}
use wrela.Lex.Utf8.{decode_rune, encode_rune}

-- `isWhitespace`
unfoldable pub is_whitespace : ℕ → Bool
is_whitespace ch = ch == b' ' || ch == b'\t' || ch == b'\r' || ch == 12

-- `isLineComment`
unfoldable pub is_line_comment : Bytes → Bool
is_line_comment (a ∷ b ∷ rest) = a == b'/' && b == b'/'
is_line_comment (a ∷ []) = false
is_line_comment [] = false

-- The bytes up to the end of the line.
unfoldable pub line_width : Bytes → ℕ
line_width [] = 0
line_width (b ∷ bs) = let rest = line_width bs in if b == b'\n' then 0 else suc rest

-- The width of the runes that pass the test.
unfoldable pub runes_width : (ℕ → Bool) → ℕ → Bytes → ℕ
runes_width test skip [] = 0
runes_width test (suc skip) (b ∷ bs) = suc (runes_width test skip bs)
runes_width test zero (b ∷ bs) =
    let (r, width) = decode_rune (b ∷ bs) in
    let rest = runes_width test (width - 1) bs in if test r then suc rest else 0

-- The tables of the package `unicode`: `IsLetter` and `IsDigit`.
pub record Unicode : Type 0 where
  pub is_letter : ℕ → Bool
  pub is_digit : ℕ → Bool

-- `isIdentStartRune`
abbrev pub is_ident_start_rune : Unicode → ℕ → Bool
is_ident_start_rune u r = r == b'_' || u.is_letter r

-- `isIdentContinueRune`
abbrev pub is_ident_continue_rune : Unicode → ℕ → Bool
is_ident_continue_rune u r = is_ident_start_rune u r || u.is_digit r

-- `isHexDigit`
abbrev pub is_hex_digit : Unicode → ℕ → Bool
is_hex_digit u ch = u.is_digit ch || (leb b'a' ch && leb ch b'f') || (leb b'A' ch && leb ch b'F')

unfoldable pub hex_width : Unicode → Bytes → ℕ
hex_width u [] = 0
hex_width u (b ∷ bs) = let rest = hex_width u bs in if is_hex_digit u b then suc rest else 0

abbrev has_hex_prefix : Bytes → Bool
has_hex_prefix (a ∷ b ∷ rest) = a == b'0' && (b == b'x' || b == b'X')
has_hex_prefix (a ∷ []) = false
has_hex_prefix [] = false

-- `lexIdent`
unfoldable pub lex_ident : Unicode → Bytes → ℕ
lex_ident u bs = runes_width (is_ident_continue_rune u) 0 bs

-- `lexInt`
unfoldable pub lex_int : Unicode → Bytes → ℕ
lex_int u bs =
    if has_hex_prefix bs then 2 + hex_width u (drop 2 bs) else runes_width u.is_digit 0 bs

-- The text of a string literal, the bytes that it takes, and whether it is closed.
pub record Literal : Type 0 where
  pub text : Bytes
  pub width : ℕ
  pub closed : Bool

-- The `switch` on the byte behind a backslash.
abbrev unescape : ℕ → ℕ
unescape ch =
    if ch == b'n' then b'\n' else if ch == b'r' then b'\r' else if ch == b't' then b'\t' else ch

abbrev escaped_text : Bytes → Bytes
escaped_text [] = []
escaped_text (ch ∷ rest) = unescape ch ∷ []

abbrev behind : Bytes → Literal → Literal
behind text l = record l { text = text ++ l.text; width = suc l.width }

-- The loop of `lexString`, behind the opening quote.
unfoldable pub string_loop : ℕ → Bytes → Literal
string_loop skip [] = record { text = []; width = 0; closed = false }
string_loop (suc skip) (b ∷ bs) = behind [] (string_loop skip bs)
string_loop zero (b ∷ bs) =
    let (r, width) = decode_rune (b ∷ bs) in
    let escape = behind (escaped_text bs) (string_loop 1 bs) in
    let plain = behind (encode_rune r) (string_loop (width - 1) bs) in
    if b == b'\\'
    then escape
    else if b == b'"'
    then record { text = []; width = 1; closed = true }
    else if b == b'\n'
    then record { text = []; width = 0; closed = false }
    else plain
