-- ===== src/Nvme/Identify/Parse.antt =====
-- What `parse_identify_namespace` accepts, and that its facts select a durability mode.
use Prim.Native.Nat.{bit_and}
use wrela.Prelude.{
  ℕ, zero, suc, ◌+◌, ◌*◌, ◌%◌, ◌<◌, ◌≡◌, refl, ◌⊎◌, Bool, true, false, bool_eq, [], ◌∷◌, ◌==◌,
  length, All, IsU8, arith, ==_iff, not, ◌&&◌, leb, if◌then◌else◌,
}
use wrela.Prelude.Tables.{passes_below, passes_below_at}
use wrela.Bytes.{Bytes}
use wrela.Nvme.Identify.{
  NamespaceFacts, ok, err, unsupported_lba, invalid_identify_namespace, shift_one, byte_at, sized,
  parse_identify_namespace, fua, write_plus_flush, DurabilityMode, select_durability,
}

nibble_table : passes_below (λ x. bit_and x 0x0f == x % 16) 256 ≡ true
unfolding passes_below
nibble_table = refl

nibble : (x : ℕ) → x < 256 → bit_and x 0x0f ≡ x % 16
nibble x h = (==_iff _ _).0 (passes_below_at _ 256 x h nibble_table)

shift_512_table : passes_below (λ x. bool_eq (shift_one x == 512) (x == 9)) 256 ≡ true
unfolding passes_below shift_one
shift_512_table = refl

shift_4096_table : passes_below (λ x. bool_eq (shift_one x == 4096) (x == 12)) 256 ≡ true
unfolding passes_below shift_one
shift_4096_table = refl

bool_eq_sound : (a b : Bool) → bool_eq a b ≡ true → a ≡ b
bool_eq_sound a b h = ground arith

shift_512 : (x : ℕ) → x < 256 → (shift_one x == 512) ≡ (x == 9)
shift_512 x h = bool_eq_sound _ _ (passes_below_at _ 256 x h shift_512_table)

shift_4096 : (x : ℕ) → x < 256 → (shift_one x == 4096) ≡ (x == 12)
shift_4096 x h = bool_eq_sound _ _ (passes_below_at _ 256 x h shift_4096_table)

byte_at-IsU8 : (bs : Bytes) (i : ℕ) → All IsU8 bs → byte_at bs i < 256
byte_at-IsU8 [] i h = omega arith
byte_at-IsU8 (b ∷ bs) zero h = h.0
byte_at-IsU8 (b ∷ bs) (suc i) h = byte_at-IsU8 bs i h.1

-- The place of the LBADS byte of the format that is in use.
abbrev pub lbads_at : Bytes → ℕ
lbads_at bs = 128 + byte_at bs 26 % 16 * 4 + 2

size_outcome :
    (x : ℕ)
    → x < 256
    → (if not (shift_one x == 512) && not (shift_one x == 4096)
        then err unsupported_lba
        else ok (sized (shift_one x)))
      ≡ (if x == 9
          then ok (sized 512)
          else if x == 12
          then ok (sized 4096)
          else err unsupported_lba)
size_outcome x h = ground (arith, shift_512 x h, shift_4096 x h)

-- The outcome on bytes: the format byte and the LBADS byte of its format must be there, the block
-- size is 512 where that is 9 and 4096 where it is 12, and any other is refused.
pub parse_identify_namespace_lem :
    (bs : Bytes)
    → All IsU8 bs
    → parse_identify_namespace bs ≡ (
        if leb (length bs) 26
        then err invalid_identify_namespace
        else if leb (length bs) (lbads_at bs)
        then err invalid_identify_namespace
        else if byte_at bs (lbads_at bs) == 9
        then ok (sized 512)
        else if byte_at bs (lbads_at bs) == 12
        then ok (sized 4096)
        else err unsupported_lba)
unfolding parse_identify_namespace
parse_identify_namespace_lem bs h =
    rw (nibble (byte_at bs 26) (byte_at-IsU8 bs 26 h))
      (rw (size_outcome (byte_at bs (lbads_at bs)) (byte_at-IsU8 bs (lbads_at bs) h)))

-- Facts that were parsed from a namespace select a durability mode, without error, that asks for
-- FUA or for a flush and not for both.
pub select_durability-parse :
    (bs : Bytes) {ns : NamespaceFacts} (fua_supported : Bool)
    → All IsU8 bs
    → parse_identify_namespace bs ≡ ok ns
    → (m : DurabilityMode) × (select_durability (record ns { supports_fua = fua_supported }) ≡ ok m)
      × (m.use_fua ≡ fua_supported)
      × (m.requires_flush ≡ not fua_supported)
select_durability-parse bs {ns} supported h e = chosen supported
  where
    size : (ns.logical_block_size ≡ 512) ⊎ (ns.logical_block_size ≡ 4096)
    size = ground (arith, parse_identify_namespace_lem bs h)

    chosen :
        (b : Bool)
        → (m : DurabilityMode) × (select_durability (record ns { supports_fua = b }) ≡ ok m)
          × (m.use_fua ≡ b)
          × (m.requires_flush ≡ not b)
    chosen true = (
      record { mode = fua; requires_flush = false; use_fua = true },
      unfold select_durability in ground (arith, size),
      refl,
      refl,
    )
    chosen false = (
      record { mode = write_plus_flush; requires_flush = true; use_fua = false },
      unfold select_durability in ground (arith, size),
      refl,
      refl,
    )
