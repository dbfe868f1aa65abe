-- ===== src/Strconv/Value.antt =====
-- The number that a literal is read as.
use wrela.Prelude.{
  ℕ, ◌+◌, ◌*◌, ◌≤◌, ◌≡◌, refl, sym, ap, ◌∙◌, ◌⊎◌, inl, inr, ◌&&◌, not, [], ◌∷◌, Option, none, some,
  Bool-cases, ◌==◌, ltb, if◌then◌else◌, IsU64, arith,
}
use wrela.Bytes.{Bytes}
use wrela.Strconv.{
  digit_value, append_digit, take_byte, digits_loop, split_base, has_underscore, underscores_loop,
  parse_uint,
}

-- The number in exact arithmetic: none, if a byte is neither a digit of the base nor `_`.
abbrev append_exactly : ℕ → ℕ → Option ℕ → Option ℕ
append_exactly base n none = none
append_exactly base n (some d) = if ltb d base then some (n * base + d) else none

abbrev take_exactly : ℕ → ℕ → ℕ → Option ℕ
take_exactly base n c = if c == b'_' then some n else append_exactly base n (digit_value c)

unfoldable pub exact_value : ℕ → Option ℕ → Bytes → Option ℕ
exact_value base none cs = none
exact_value base (some n) [] = some n
exact_value base (some n) (c ∷ cs) = exact_value base (take_exactly base n c) cs

-- The numbers of 64 bits.
abbrev pub limited : Option ℕ → Option ℕ
limited none = none
limited (some n) = if ltb n 18446744073709551616 then some n else none

abbrev pub IsBase : ℕ → Type 0
IsBase base = (base ≡ 2) ⊎ ((base ≡ 8) ⊎ ((base ≡ 10) ⊎ (base ≡ 16)))

append_digit-limited :
    (base n : ℕ) (o : Option ℕ)
    → IsBase base
    → IsU64 n
    → append_digit base n o ≡ limited (append_exactly base n o)
unfolding append_digit
append_digit-limited base n none b h = refl
append_digit-limited base n (some d) (inl two) h = rw two (ground arith)
append_digit-limited base n (some d) (inr (inl eight)) h = rw eight (ground arith)
append_digit-limited base n (some d) (inr (inr (inl ten))) h = rw ten (ground arith)
append_digit-limited base n (some d) (inr (inr (inr sixteen))) h = rw sixteen (ground arith)

-- Behind an overflow the number stays too large.
IsTooLarge : Option ℕ → Type 0
IsTooLarge none = Unit
IsTooLarge (some n) = 18446744073709551616 ≤ n

append_exactly-IsTooLarge :
    (base n : ℕ) (o : Option ℕ)
    → IsBase base
    → 18446744073709551616 ≤ n
    → IsTooLarge (append_exactly base n o)
unfolding IsTooLarge
append_exactly-IsTooLarge base n none b h = tt
append_exactly-IsTooLarge base n (some d) (inl two) h = rw two (ground arith)
append_exactly-IsTooLarge base n (some d) (inr (inl eight)) h = rw eight (ground arith)
append_exactly-IsTooLarge base n (some d) (inr (inr (inl ten))) h = rw ten (ground arith)
append_exactly-IsTooLarge base n (some d) (inr (inr (inr sixteen))) h = rw sixteen (ground arith)

take_exactly-IsTooLarge :
    (base n c : ℕ) → IsBase base → 18446744073709551616 ≤ n → IsTooLarge (take_exactly base n c)
unfolding IsTooLarge
take_exactly-IsTooLarge base n c b h =
    ground (arith, append_exactly-IsTooLarge base n (digit_value c) b h)

take_byte-limited :
    (base n c : ℕ) → IsBase base → IsU64 n → take_byte base n c ≡ limited (take_exactly base n c)
take_byte-limited base n c b h = elim (Bool-cases (c == b'_')) [
  | inl e ↦ rw e (ground arith)
  | inr e ↦ rw e (append_digit-limited base n (digit_value c) b h)
]

exact_value-none :
    (base : ℕ) (o : Option ℕ) (cs : Bytes)
    → IsBase base
    → IsTooLarge o
    → limited (exact_value base o cs) ≡ none
unfolding exact_value IsTooLarge
exact_value-none base none cs b h = refl
exact_value-none base (some n) [] b h = ground arith
exact_value-none base (some n) (c ∷ cs) b h =
    exact_value-none base (take_exactly base n c) cs b (take_exactly-IsTooLarge base n c b h)

-- The loop computes the exact number, unless that does not fit 64 bits.
pub digits_loop-exact :
    (base : ℕ) (o : Option ℕ) (cs : Bytes)
    → IsBase base
    → digits_loop base (limited o) cs ≡ limited (exact_value base o cs)
unfolding digits_loop exact_value IsTooLarge
digits_loop-exact base none cs b = refl
digits_loop-exact base (some n) [] b = ground arith
digits_loop-exact base (some n) (c ∷ cs) b = elim (Bool-cases (ltb n 18446744073709551616)) [
  | inl fits ↦
      let h : IsU64 n = ground arith in
      rw fits (
        ap (λ o. digits_loop base o cs) (take_byte-limited base n c b h)
        ∙ digits_loop-exact base (take_exactly base n c) cs b)
  | inr large ↦ rw large (sym (exact_value-none base (some n) (c ∷ cs) b (ground arith)))
]

split_base-IsBase : (cs : Bytes) → IsBase (split_base cs).base
unfolding split_base
split_base-IsBase [] = omega arith
split_base-IsBase (c ∷ []) = ground arith
split_base-IsBase (c ∷ x ∷ []) = ground arith
split_base-IsBase (c ∷ x ∷ d ∷ cs) = ground arith

-- The text of a literal stands for a number if its underscores stand between digits: the exact
-- value in its base.
abbrev pub literal_value : Bytes → Option ℕ
literal_value [] = none
literal_value (c ∷ cs) =
    let p = split_base (c ∷ cs) in
    if has_underscore p.digits && not (underscores_loop (p.base == 16) p.seen p.digits)
    then none
    else exact_value p.base (some 0) p.digits

pub parse_uint-exact : (cs : Bytes) → parse_uint cs ≡ limited (literal_value cs)
unfolding parse_uint
parse_uint-exact [] = refl
parse_uint-exact (c ∷ cs) =
    let p = split_base (c ∷ cs) in
    elim (Bool-cases
      (has_underscore p.digits && not (underscores_loop (p.base == 16) p.seen p.digits))) [
        | inl bad ↦ rw bad refl
        | inr good ↦
            rw good (digits_loop-exact p.base (some 0) p.digits (split_base-IsBase (c ∷ cs)))
      ]
