-- ===== src/Masks.antt =====
-- The low bits and the high bits of a number, as `&` with a mask takes them.
use Prim.Native.Nat.{bit_and, digits, bit_and-bitwise}
use wrela.Prelude.{
  ℕ, zero, suc, ◌+◌, ◌-◌, ◌*◌, ◌/◌, ◌%◌, ◌≤◌, ◌<◌, ◌≡◌, refl, sym, ap, subst, ◌∙◌, min, arith,
}
use native.Mathlib.Nat.{
  mod-lt, mod-add-div, mod-eq_of_lt, mul-add-mod_self_left, mod-one, mul-one, one-mul, zero-mul,
  div-one, zero-div, zero-mod, mul_assoc, mul_comm, mul_right_comm, add-mul, div-div-eq-div-mul,
  div-lt_iff_lt-mul,
}

-- A mask of `k` ones, and the power of two above it.
abbrev pub ones : ℕ → ℕ
ones zero = 0
ones (suc k) = ones k * 2 + 1

abbrev pub span : ℕ → ℕ
span zero = 1
span (suc k) = span k * 2

span_positive : (k : ℕ) → 0 < span k
span_positive zero = omega arith
span_positive (suc k) = omega (arith, span_positive k)

-- The remainder by twice a number, from that of the half.
mod_twice : (a s : ℕ) → 0 < s → a % (s * 2) ≡ a / 2 % s * 2 + a % 2
mod_twice a s h =
    ap (λ n. n % (s * 2)) whole ∙ mul-add-mod_self_left (s * 2) (a / 2 / s) low ∙ mod-eq_of_lt small
  where
    low : ℕ
    low = a / 2 % s * 2 + a % 2

    small : low < s * 2
    small = omega (arith, mod-lt (a / 2) h)

    whole : a ≡ s * 2 * (a / 2 / s) + low
    whole = omega (arith, mod-add-div (a / 2) s)

abbrev common : ℕ → ℕ → ℕ → ℕ
common n a b = digits (λ b. zero) min n a b

common-zero : (n a : ℕ) → common n a 0 ≡ 0
common-zero zero a = refl
common-zero (suc n) zero = refl
common-zero (suc n) (suc a) = omega (arith, common-zero n (suc a / 2))

common-ones : (k n a : ℕ) → a ≤ n → common n a (ones k) ≡ a % span k
common-ones zero n a h = common-zero n a ∙ sym (mod-one a)
common-ones (suc k) zero a h =
    let none : a ≡ 0 = omega arith in rw none (sym (mod-eq_of_lt (omega (arith, span_positive k))))
common-ones (suc k) (suc n) zero h = sym (mod-eq_of_lt (omega (arith, span_positive k)))
common-ones (suc k) (suc n) (suc a) h =
    let half : (ones k * 2 + 1) / 2 ≡ ones k = omega arith in
    rw half (
      omega (
        arith,
        common-ones k n (suc a / 2) (omega arith),
        mod_twice (suc a) (span k) (span_positive k),
      ))

pub bit_and-ones : (k a : ℕ) → bit_and a (ones k) ≡ a % span k
bit_and-ones k a = bit_and-bitwise a (ones k) ∙ common-ones k a a (omega arith)

-- A mask whose lowest bit is clear.
common-none : (n c : ℕ) → common n 0 c ≡ 0
common-none zero c = refl
common-none (suc n) c = refl

common-even : (n a c : ℕ) → common (suc n) a (c * 2) ≡ common n (a / 2) c * 2
common-even n zero c = ap (λ x. x * 2) (sym (common-none n c))
common-even n (suc a) c =
    let half : c * 2 / 2 ≡ c = omega arith in
    let low : c * 2 % 2 ≡ 0 = omega arith in rw (half, low) (omega (arith, min-zero (suc a % 2)))
  where
    min-zero : (b : ℕ) → min b 0 ≡ 0
    min-zero b = omega arith

common-high : (k n a j : ℕ) → a ≤ n → common n a (ones j * span k) ≡ a / span k % span j * span k
common-high zero n a j h =
    ap (common n a) (mul-one (ones j))
    ∙ common-ones j n a h
    ∙ ap (λ x. x % span j) (sym (div-one a))
    ∙ sym (mul-one (a / 1 % span j))
common-high (suc k) zero a j h =
    let none : a ≡ 0 = omega arith in
    rw none (
      sym (
        ap (λ x. x % span j * (span k * 2)) (zero-div (span k * 2))
        ∙ ap (λ x. x * (span k * 2)) (zero-mod (span j))
        ∙ zero-mul (span k * 2)))
common-high (suc k) (suc n) a j h =
    ap (common (suc n) a) (sym (mul_assoc (ones j) (span k) 2))
    ∙ common-even n a (ones j * span k)
    ∙ ap (λ x. x * 2) (common-high k n (a / 2) j (omega arith))
    ∙ ap (λ x. x % span j * span k * 2)
        (div-div-eq-div-mul a 2 (span k) ∙ ap (λ x. a / x) (mul_comm 2 (span k)))
    ∙ mul_assoc (a / (span k * 2) % span j) (span k) 2

ones-span : (j : ℕ) → ones j + 1 ≡ span j
ones-span zero = refl
ones-span (suc j) = omega (arith, ones-span j)

pub span-add : (j k : ℕ) → span (j + k) ≡ span j * span k
span-add zero k = let e : 0 + k ≡ k = omega arith in ap span e ∙ sym (one-mul (span k))
span-add (suc j) k =
    let e : suc j + k ≡ suc (j + k) = omega arith in
    ap span e ∙ ap (λ s. s * 2) (span-add j k) ∙ mul_right_comm (span j) (span k) 2

-- A mask of ones above `k` zeros.
pub bit_and-high :
    (k a j : ℕ) → a < span (j + k) → bit_and a (span (j + k) - span k) ≡ a / span k * span k
bit_and-high k a j h =
    let product = span-add j k in
    let ones_above : span j * span k ≡ ones j * span k + 1 * span k =
      ap (λ s. s * span k) (sym (ones-span j)) ∙ add-mul (ones j) 1 (span k) in
    let whole : span (j + k) - span k ≡ ones j * span k = omega (arith, product, ones_above) in
    let small : a / span k < span j =
      (div-lt_iff_lt-mul (span_positive k)).1 (subst (λ s. a < s) product h) in
    rw whole (
      bit_and-bitwise a (ones j * span k)
      ∙ common-high k a a j (omega arith)
      ∙ ap (λ x. x * span k) (mod-eq_of_lt small))
