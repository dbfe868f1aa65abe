-- ===== src/Nvme/Command/Fields.antt =====
-- A device reads back from the command dwords what the command was built for.
use Prim.Native.Nat.{bit_or}
use wrela.Prelude.{
  ℕ, ◌+◌, ◌-◌, ◌*◌, ◌/◌, ◌%◌, ◌^◌, ◌≤◌, ◌<◌, ◌≡◌, refl, ◌⊎◌, Bool, true, ◌==◌, if◌then◌else◌, IsU32,
  IsU64, ==_iff, arith,
}
use wrela.Prelude.Tables.{passes_below, passes_below_at}
use wrela.Nvme.Identify.{Result, ok, err, invalid_block_count, transfer_too_large}
use wrela.Nvme.Command.{Command, max_prp_transfer_bytes, write_command_dword12, build_data_command}

fua_table : passes_below (λ x. bit_or x (2 ^ 30) == x + 2 ^ 30) 256 ≡ true
unfolding passes_below
fua_table = refl

fua_bit : (x : ℕ) → x < 256 → bit_or x (2 ^ 30) ≡ x + 2 ^ 30
fua_bit x h = (==_iff _ _).0 (passes_below_at _ 256 x h fua_table)

-- The fields as a device takes them from the dwords.
pub record Encodes (c : Command) (lba count : ℕ) (fua : Bool) : Type 0 where
  pub address : c.cdw10 + 2 ^ 32 * c.cdw11 ≡ lba
  pub low : c.cdw10 < 2 ^ 32
  pub high : c.cdw11 < 2 ^ 32
  pub blocks : c.cdw12 % 2 ^ 16 + 1 ≡ count
  pub durable : (c.cdw12 / 2 ^ 30) ≡ (if fua then 1 else 0)
  pub same_blocks : c.block_count_minus_one + 1 ≡ count
  pub same_lba : c.start_lba ≡ lba

abbrev pub Builds : ℕ → ℕ → ℕ → Bool → Result Command → Type 0
Builds lba count size fua (ok c) =
    (0 < count) × (count * size ≤ max_prp_transfer_bytes) × Encodes c lba count fua
Builds lba count size fua (err invalid_block_count) = count ≡ 0
Builds lba count size fua (err transfer_too_large) = max_prp_transfer_bytes < count * size
Builds lba count size fua _ = ⊥

-- For a block size of 512 or 4096: the command is built when there is a block and the transfer
-- fits the PRP limit, and then its dwords decode to the address, the block count and the FUA flag;
-- otherwise the error says which of the two failed.
pub build_data_command-Builds :
    (opcode ns lba count prp1 size : ℕ) (fua : Bool)
    → (size ≡ 512) ⊎ (size ≡ 4096)
    → IsU64 lba
    → IsU32 count
    → Builds lba count size fua (build_data_command opcode ns lba count prp1 size fua)
unfolding build_data_command write_command_dword12
build_data_command-Builds opcode ns lba count prp1 size fua s l c =
    ground (arith, fua_bit (count - 1))
