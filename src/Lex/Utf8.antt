-- ===== src/Lex/Utf8.antt =====
-- `utf8.DecodeRuneInString` and `utf8.AppendRune` of the Go library, as the lexer uses them.
use wrela.Prelude.{
  ℕ, suc, ◌+◌, ◌*◌, ◌/◌, ◌%◌, ◌≤◌, Bool, ◌&&◌, ◌||◌, [], ◌∷◌, ltb, leb, ◌==◌, if◌then◌else◌, length,
  arith,
}
use wrela.Bytes.{Bytes}

abbrev within : ℕ → ℕ → ℕ → Bool
within low high b = leb low b && leb b high

-- `(RuneError, 1)`
abbrev bad_rune : ℕ × ℕ
bad_rune = (65533, 1)

unfoldable decode_two : ℕ → Bytes → ℕ × ℕ
decode_two a [] = bad_rune
decode_two a (b ∷ rest) = if within 0x80 0xBF b then (a % 32 * 64 + b % 64, 2) else bad_rune

-- The second byte has a narrower range behind some first bytes.
unfoldable decode_three : ℕ → Bytes → ℕ × ℕ
decode_three a (b ∷ c ∷ rest) =
    let low = if a == 0xE0 then 0xA0 else 0x80 in
    let high = if a == 0xED then 0x9F else 0xBF in
    if within low high b && within 0x80 0xBF c
    then (a % 16 * 4096 + b % 64 * 64 + c % 64, 3)
    else bad_rune
decode_three a (b ∷ []) = bad_rune
decode_three a [] = bad_rune

unfoldable decode_four : ℕ → Bytes → ℕ × ℕ
decode_four a (b ∷ c ∷ d ∷ rest) =
    let low = if a == 0xF0 then 0x90 else 0x80 in
    let high = if a == 0xF4 then 0x8F else 0xBF in
    if within low high b && within 0x80 0xBF c && within 0x80 0xBF d
    then (a % 8 * 262144 + b % 64 * 4096 + c % 64 * 64 + d % 64, 4)
    else bad_rune
decode_four a (b ∷ c ∷ []) = bad_rune
decode_four a (b ∷ []) = bad_rune
decode_four a [] = bad_rune

-- The rune and its width; the width is 0 at the end only.
unfoldable pub decode_rune : Bytes → ℕ × ℕ
unfolding decode_two decode_three decode_four
decode_rune [] = (65533, 0)
decode_rune (a ∷ rest) =
    if ltb a 0x80
    then (a, 1)
    else if within 0xC2 0xDF a
    then decode_two a rest
    else if within 0xE0 0xEF a
    then decode_three a rest
    else if within 0xF0 0xF4 a
    then decode_four a rest
    else bad_rune

unfoldable pub encode_rune : ℕ → Bytes
encode_rune r =
    if ltb r 0x80
    then r ∷ []
    else if ltb r 0x800
    then (0xC0 + r / 64) ∷ (0x80 + r % 64) ∷ []
    else if ltb 0x10FFFF r || within 0xD800 0xDFFF r
    then 0xEF ∷ 0xBF ∷ 0xBD ∷ []
    else if ltb r 0x10000
    then (0xE0 + r / 4096) ∷ (0x80 + r / 64 % 64) ∷ (0x80 + r % 64) ∷ []
    else (0xF0 + r / 262144) ∷ (0x80 + r / 4096 % 64) ∷ (0x80 + r / 64 % 64) ∷ (0x80 + r % 64) ∷ []

decode_two-width :
    (a : ℕ) (rest : Bytes)
    → (1 ≤ (decode_two a rest).1) × ((decode_two a rest).1 ≤ suc (length rest))
unfolding decode_two
decode_two-width a [] = ground arith
decode_two-width a (b ∷ rest) = ground arith

decode_three-width :
    (a : ℕ) (rest : Bytes)
    → (1 ≤ (decode_three a rest).1) × ((decode_three a rest).1 ≤ suc (length rest))
unfolding decode_three
decode_three-width a [] = ground arith
decode_three-width a (b ∷ []) = ground arith
decode_three-width a (b ∷ c ∷ rest) = ground arith

decode_four-width :
    (a : ℕ) (rest : Bytes)
    → (1 ≤ (decode_four a rest).1) × ((decode_four a rest).1 ≤ suc (length rest))
unfolding decode_four
decode_four-width a [] = ground arith
decode_four-width a (b ∷ []) = ground arith
decode_four-width a (b ∷ c ∷ []) = ground arith
decode_four-width a (b ∷ c ∷ d ∷ rest) = ground arith

-- A rune takes at least one byte, and no more than there are.
pub decode_rune-width :
    (a : ℕ) (rest : Bytes)
    → (1 ≤ (decode_rune (a ∷ rest)).1) × ((decode_rune (a ∷ rest)).1 ≤ suc (length rest))
unfolding decode_rune
decode_rune-width a rest =
    ground (arith, decode_two-width a rest, decode_three-width a rest, decode_four-width a rest)
