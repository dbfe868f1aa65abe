-- ===== src/Bytes/Laws.antt =====
-- A number read back from its little-endian bytes, and copies into a buffer.
use wrela.Prelude.{
  true, ℕ, zero, suc, ◌+◌, ◌*◌, ◌/◌, ◌%◌, ◌^◌, ◌<◌, ◌≡◌, ◌↔◌, true, refl, ap, [], ◌∷◌, ◌++◌, length,
  take-append, drop-append, arith, All, IsU8,
}
use wrela.Bytes.{Bytes, bytes_eq, le_bytes, le_value, overlay, read_le}
use native.Mathlib.Nat.{pow-suc}

pub length-le_bytes : (n v : ℕ) → length (le_bytes n v) ≡ n
unfolding le_bytes
length-le_bytes zero v = refl
length-le_bytes (suc n) v = ap suc (length-le_bytes n (v / 256))

pub le_bytes-IsU8 : (n v : ℕ) → All IsU8 (le_bytes n v)
unfolding le_bytes
le_bytes-IsU8 zero v = tt
le_bytes-IsU8 (suc n) v = (omega arith, le_bytes-IsU8 n (v / 256))

pub le_value-le_bytes : (n v : ℕ) → v < 256 ^ n → le_value (le_bytes n v) ≡ v
unfolding le_bytes le_value
le_value-le_bytes zero v h = omega arith
le_value-le_bytes (suc n) v h =
    let k : v < 256 * 256 ^ n = omega (arith, h, pow-suc 256 n) in
    omega (arith, le_value-le_bytes n (v / 256) (omega (arith, k)))

pub le_bytes-le_value : (bs : Bytes) → All IsU8 bs → le_bytes (length bs) (le_value bs) ≡ bs
unfolding le_bytes le_value
le_bytes-le_value [] h = refl
le_bytes-le_value (b ∷ bs) h =
    let low : (b + 256 * le_value bs) % 256 ≡ b = omega arith in
    let high : (b + 256 * le_value bs) / 256 ≡ le_value bs = omega arith in
    rw (low, high) (ap (◌∷◌ b) (le_bytes-le_value bs h.1))

pub overlay-same_length : (bs buf : Bytes) → length bs ≡ length buf → overlay bs buf ≡ bs
unfolding overlay
overlay-same_length [] [] h = refl
overlay-same_length [] (c ∷ buf) h = absurd (omega arith)
overlay-same_length (b ∷ bs) [] h = absurd (omega arith)
overlay-same_length (b ∷ bs) (c ∷ buf) h = ap (◌∷◌ b) (overlay-same_length bs buf (omega arith))

-- A number in the middle of a byte string is read back at its offset.
pub read_le-middle :
    (front back : Bytes) (off width v : ℕ)
    → length front ≡ off
    → v < 256 ^ width
    → read_le off width (front ++ (le_bytes width v ++ back)) ≡ v
unfolding read_le
read_le-middle front back off width v hf hv =
    rw (drop-append front (le_bytes width v ++ back) off hf) (
      rw (take-append (le_bytes width v) back width (length-le_bytes width v))
        (le_value-le_bytes width v hv))

pub bytes_eq_refl : (bs : Bytes) → bytes_eq bs bs ≡ true
bytes_eq_refl [] = refl
bytes_eq_refl (b ∷ bs) = grind (arith, bytes_eq_refl bs)

pub bytes_eq→≡ : (xs ys : Bytes) → bytes_eq xs ys ≡ true → xs ≡ ys
bytes_eq→≡ [] [] h = refl
bytes_eq→≡ [] (y ∷ ys) h = absurd cc
bytes_eq→≡ (x ∷ xs) [] h = absurd cc
bytes_eq→≡ (x ∷ xs) (y ∷ ys) h = grind (arith, bytes_eq→≡ xs ys)

pub bytes_eq_iff : (xs ys : Bytes) → (bytes_eq xs ys ≡ true) ↔ (xs ≡ ys)
bytes_eq_iff xs ys = (bytes_eq→≡ xs ys, λ e. rw e (bytes_eq_refl ys))
