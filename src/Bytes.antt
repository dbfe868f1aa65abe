-- ===== src/Bytes.antt =====
-- Little-endian byte strings, as `encoding/binary` and `copy` of the Go library treat them, and
-- the CRC of `hash/crc32` with the Castagnoli polynomial.
pub mod Laws
pub mod Writes
use Prim.Native.Nat.{bit_xor}
use wrela.Prelude.{
  Bool, true, false, ◌&&◌, ℕ, zero, suc, ◌+◌, ◌*◌, ◌/◌, ◌%◌, List, [], ◌∷◌, ◌==◌, if◌then◌else◌,
  take, drop, u32,
}

abbrev pub Bytes : Type 0
Bytes = List ℕ

-- `==` on strings.
abbrev pub bytes_eq : Bytes → Bytes → Bool
bytes_eq [] [] = true
bytes_eq (x ∷ xs) (y ∷ ys) = x == y && bytes_eq xs ys
bytes_eq [] (y ∷ ys) = false
bytes_eq (x ∷ xs) [] = false

-- `strings.HasPrefix(bs, prefix)`
abbrev pub has_prefix : Bytes → Bytes → Bool
has_prefix [] bs = true
has_prefix (x ∷ xs) [] = false
has_prefix (x ∷ xs) (b ∷ bs) = x == b && has_prefix xs bs

-- `binary.LittleEndian.PutUint16/32/64` writes these bytes, at widths 2, 4 and 8.
unfoldable pub le_bytes : ℕ → ℕ → Bytes
le_bytes zero v = []
le_bytes (suc n) v = (v % 256) ∷ le_bytes n (v / 256)

unfoldable pub le_value : Bytes → ℕ
le_value [] = 0
le_value (b ∷ bs) = b + 256 * le_value bs

-- `copy(buf, bs)`: the shorter of the two ends the copy.
unfoldable pub overlay : Bytes → Bytes → Bytes
overlay [] buf = buf
overlay (b ∷ bs) [] = []
overlay (b ∷ bs) (c ∷ buf) = b ∷ overlay bs buf

-- `copy(buf[off:], bs)`, for an `off` within the buffer.
unfoldable pub write_at : ℕ → Bytes → Bytes → Bytes
unfolding overlay
write_at zero bs buf = overlay bs buf
write_at (suc off) bs [] = []
write_at (suc off) bs (c ∷ buf) = c ∷ write_at off bs buf

-- The number of `width` bytes that starts at `off`.
unfoldable pub read_le : ℕ → ℕ → Bytes → ℕ
unfolding le_value
read_le off width bs = le_value (take width (drop off bs))

-- One bit of the reflected CRC.
crc_bit : ℕ → ℕ
crc_bit c = if c % 2 == 1 then bit_xor (c / 2) 0x82f63b78 else c / 2

crc_bits : ℕ → ℕ → ℕ
unfolding crc_bit
crc_bits zero c = c
crc_bits (suc n) c = crc_bits n (crc_bit c)

crc_loop : ℕ → Bytes → ℕ
unfolding crc_bits
crc_loop c [] = c
crc_loop c (b ∷ bs) = crc_loop (crc_bits 8 (bit_xor c b)) bs

-- `CRC32C`
unfoldable pub crc32c : Bytes → ℕ
unfolding crc_loop
crc32c bs = u32 (bit_xor (crc_loop 0xffffffff bs) 0xffffffff)
