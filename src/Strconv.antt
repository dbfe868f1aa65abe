-- ===== src/Strconv.antt =====
-- `ParseUint(s, 0, 64)` and `ParseInt(s, 0, 64)` of Go's package strconv, for the literals in
-- compiler/sem/const.go and compiler/asm/parse.go: the number, or none for an error.
pub mod Value
use wrela.Prelude.{
  ℕ, ◌+◌, ◌-◌, ◌*◌, ◌/◌, Bool, true, false, not, ◌&&◌, ◌||◌, List, [], ◌∷◌, Option, none, some,
  ◌==◌, ltb, leb, if◌then◌else◌, u64,
}
use wrela.Bytes.{Bytes}

-- `c | 0x20`, as far as letters are concerned.
abbrev pub lower_letter : ℕ → ℕ
lower_letter c = if leb b'A' c && leb c b'Z' then c + 32 else c

-- The value of a digit, if the byte is one in base 36.
unfoldable pub digit_value : ℕ → Option ℕ
digit_value c =
    if leb b'0' c && leb c b'9'
    then some (c - b'0')
    else if leb b'a' (lower_letter c) && leb (lower_letter c) b'z'
    then some (lower_letter c - b'a' + 10)
    else none

-- One round: the digit is appended, unless it is not one of the base or the value overflows.
unfoldable pub append_digit : ℕ → ℕ → Option ℕ → Option ℕ
append_digit base n none = none
append_digit base n (some d) =
    let n1 = u64 (u64 (n * base) + d) in
    if leb base d || leb (18446744073709551615 / base + 1) n || ltb n1 (u64 (n * base))
    then none
    else some n1

abbrev pub take_byte : ℕ → ℕ → ℕ → Option ℕ
take_byte base n c = if c == b'_' then some n else append_digit base n (digit_value c)

-- The loop over the digits.
unfoldable pub digits_loop : ℕ → Option ℕ → Bytes → Option ℕ
digits_loop base none cs = none
digits_loop base (some n) [] = some n
digits_loop base (some n) (c ∷ cs) = digits_loop base (take_byte base n c) cs

-- What stands before a byte: the beginning, a digit, an underscore, or anything else.
pub data Seen : Type 0 where
  beginning digit underscore other : Seen

abbrev pub is_digit : Bool → ℕ → Bool
is_digit hex c =
    leb b'0' c && leb c b'9' || hex && leb b'a' (lower_letter c) && leb (lower_letter c) b'f'

-- Underscores stand between digits only; the prefix of the base counts as a digit.
unfoldable pub underscores_loop : Bool → Seen → Bytes → Bool
underscores_loop hex underscore [] = false
underscores_loop hex beginning [] = true
underscores_loop hex digit [] = true
underscores_loop hex other [] = true
underscores_loop hex seen (c ∷ cs) =
    let after_digit = underscores_loop hex digit cs in
    let after_underscore = underscores_loop hex underscore cs in
    let after_other = underscores_loop hex other cs in
    if is_digit hex c then after_digit else elim seen [
      | digit ↦ if c == b'_' then after_underscore else after_other
      | underscore ↦ false
      | _ ↦ if c == b'_' then false else after_other
    ]

abbrev pub has_underscore : Bytes → Bool
has_underscore [] = false
has_underscore (c ∷ cs) = c == b'_' || has_underscore cs

-- The base that the beginning of a literal names, the state of the underscore rule there, and the
-- rest of the literal.
pub record Prefixed : Type 0 where
  pub base : ℕ
  pub seen : Seen
  pub digits : Bytes

abbrev prefixed_by : ℕ → Bytes → Prefixed
prefixed_by x rest =
    if x == b'b'
    then record { base = 2; seen = digit; digits = rest }
    else if x == b'o'
    then record { base = 8; seen = digit; digits = rest }
    else if x == b'x'
    then record { base = 16; seen = digit; digits = rest }
    else record { base = 8; seen = digit; digits = rest }

-- A literal that starts with 0 and has a letter for the base and a digit is prefixed; any other
-- that starts with 0 is octal.
unfoldable pub split_base : Bytes → Prefixed
split_base (c ∷ x ∷ d ∷ rest) =
    if c == b'0'
    then (if lower_letter x == b'b' || lower_letter x == b'o' || lower_letter x == b'x'
        then prefixed_by (lower_letter x) (d ∷ rest)
        else record { base = 8; seen = digit; digits = x ∷ d ∷ rest })
    else record { base = 10; seen = beginning; digits = c ∷ x ∷ d ∷ rest }
split_base (c ∷ rest) =
    if c == b'0'
    then record { base = 8; seen = digit; digits = rest }
    else record { base = 10; seen = beginning; digits = c ∷ rest }
split_base [] = record { base = 10; seen = beginning; digits = [] }

-- `ParseUint(s, 0, 64)`
unfoldable pub parse_uint : Bytes → Option ℕ
parse_uint [] = none
parse_uint (c ∷ cs) =
    let p = split_base (c ∷ cs) in
    if has_underscore p.digits && not (underscores_loop (p.base == 16) p.seen p.digits)
    then none
    else digits_loop p.base (some 0) p.digits

abbrev signed : Bool → Option ℕ → Option ℕ
signed negative none = none
signed false (some n) = if leb 9223372036854775808 n then none else some n
signed true (some n) =
    if ltb 9223372036854775808 n then none else some (u64 (18446744073709551616 - n))

-- `ParseInt(s, 0, 64)`, as a two's complement. An overflow of `ParseUint` is one here as well.
unfoldable pub parse_int : Bytes → Option ℕ
parse_int [] = none
parse_int (c ∷ cs) =
    if c == b'+'
    then signed false (parse_uint cs)
    else if c == b'-'
    then signed true (parse_uint cs)
    else signed false (parse_uint (c ∷ cs))
