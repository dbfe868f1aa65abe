-- ===== src/Nvme/Identify.antt =====
-- `ParseIdentifyNamespace`, `ParseIdentifyController` and `SelectDurability` of
-- compiler/nvmefmt/nvme.go.
pub mod Parse
use Prim.Native.Nat.{bit_and}
use wrela.Prelude.{
  ℕ, ◌+◌, ◌*◌, ◌^◌, ◌≤◌, ◌<◌, ◌≡◌, refl, ◌⊎◌, inl, inr, Bool, true, false, not, ◌&&◌, ◌||◌, List,
  Option, none, some, ◌==◌, ltb, leb, if◌then◌else◌, length, get_or, u64, arith,
}
use wrela.Bytes.{Bytes, read_le}

pub record NamespaceFacts : Type 0 where
  pub logical_block_size : ℕ
  pub supports_fua : Bool
  pub volatile_write_cache : Bool
  pub power_fail_atomic_write_unit_blocks : ℕ
  pub atomic_write_unit_blocks : ℕ

pub data Error : Type 0 where
  unsupported_lba transfer_too_large invalid_block_count invalid_identify_namespace : Error

-- Go's (value, error) pair; `panic` is the run-time panic of a division by zero.
pub data Result {ℓ} (A : Type ℓ) : Type ℓ where
  ok : A → Result A
  err : Error → Result A
  panic : Result A

-- `uint64(1) << lbads`, which is 0 for shifts of 64 and more.
unfoldable pub shift_one : ℕ → ℕ
shift_one n = if ltb n 64 then 2 ^ n else 0

abbrev pub sized : ℕ → NamespaceFacts
sized size = record {
  logical_block_size = size;
  supports_fua = false;
  volatile_write_cache = false;
  power_fail_atomic_write_unit_blocks = 0;
  atomic_write_unit_blocks = 0;
}

-- The index is within the data where it is read.
abbrev pub byte_at : Bytes → ℕ → ℕ
byte_at bs i = get_or bs i 0

-- `ParseIdentifyNamespace`
unfoldable pub parse_identify_namespace : Bytes → Result NamespaceFacts
parse_identify_namespace bs =
    let format = bit_and (byte_at bs 26) 0x0f in
    let size = shift_one (byte_at bs (128 + format * 4 + 2)) in
    if leb (length bs) 26
    then err invalid_identify_namespace
    else if leb (length bs) (128 + format * 4 + 2)
    then err invalid_identify_namespace
    else if not (size == 512) && not (size == 4096)
    then err unsupported_lba
    else ok (sized size)

-- `ParseIdentifyController`
unfoldable pub parse_identify_controller : Bytes → NamespaceFacts
unfolding read_le
parse_identify_controller bs = record {
  logical_block_size = 0;
  supports_fua = true;
  volatile_write_cache = ltb 256 (length bs) && not (bit_and (byte_at bs 256) 1 == 0);
  atomic_write_unit_blocks = if leb 514 (length bs) then read_le 512 2 bs + 1 else 1;
  power_fail_atomic_write_unit_blocks = if leb 516 (length bs) then read_le 514 2 bs + 1 else 1;
}

-- The two modes of the source, and any other string.
pub data Mode : Type 0 where
  fua write_plus_flush other : Mode

pub record DurabilityMode : Type 0 where
  pub mode : Mode
  pub requires_flush : Bool
  pub use_fua : Bool

-- `SelectDurability`
unfoldable pub select_durability : NamespaceFacts → Result DurabilityMode
select_durability ns =
    if not (ns.logical_block_size == 512) && not (ns.logical_block_size == 4096)
    then err unsupported_lba
    else if ns.supports_fua
    then ok (record { mode = fua; requires_flush = false; use_fua = true })
    else ok (record { mode = write_plus_flush; requires_flush = true; use_fua = false })
