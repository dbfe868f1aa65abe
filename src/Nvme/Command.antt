-- ===== src/Nvme/Command.antt =====
-- Data commands of compiler/nvmefmt/nvme.go.
pub mod Fields
use Prim.Native.Nat.{bit_or}
use wrela.Prelude.{ℕ, ◌+◌, ◌-◌, ◌/◌, ◌^◌, Bool, true, false, ◌==◌, ltb, if◌then◌else◌, u32}
use wrela.Nvme.Identify.{Result, ok, err, panic, invalid_block_count, transfer_too_large}

abbrev pub nvme_opcode_flush : ℕ
nvme_opcode_flush = 0

abbrev pub nvme_opcode_write : ℕ
nvme_opcode_write = 1

abbrev pub nvme_opcode_read : ℕ
nvme_opcode_read = 2

abbrev pub nvme_opcode_zone_append : ℕ
nvme_opcode_zone_append = 0x7d

abbrev pub max_prp_transfer_bytes : ℕ
max_prp_transfer_bytes = 131072

pub record Command : Type 0 where
  pub opcode : ℕ
  pub namespace_id : ℕ
  pub start_lba : ℕ
  pub block_count_minus_one : ℕ
  pub prp1 : ℕ
  pub cdw10 : ℕ
  pub cdw11 : ℕ
  pub cdw12 : ℕ

-- `WriteCommandDword12`
unfoldable pub write_command_dword12 : ℕ → Bool → ℕ
write_command_dword12 block_count fua =
    let dword = u32 (block_count + 4294967296 - 1) in if fua then bit_or dword (2 ^ 30) else dword

-- `buildDataCommand`; a block size of 0 is a division by zero.
unfoldable pub build_data_command : ℕ → ℕ → ℕ → ℕ → ℕ → ℕ → Bool → Result Command
build_data_command opcode namespace_id start_lba block_count prp1 logical_block_size fua =
    if block_count == 0
    then err invalid_block_count
    else if logical_block_size == 0
    then panic
    else if ltb (max_prp_transfer_bytes / logical_block_size) block_count
    then err transfer_too_large
    else ok (record {
      opcode = opcode;
      namespace_id = namespace_id;
      start_lba = start_lba;
      block_count_minus_one = u32 (block_count + 4294967296 - 1);
      prp1 = prp1;
      cdw10 = u32 start_lba;
      cdw11 = u32 (start_lba / 2 ^ 32);
      cdw12 = write_command_dword12 block_count fua;
    })

unfoldable pub build_read_command : ℕ → ℕ → ℕ → ℕ → ℕ → Result Command
unfolding build_data_command
build_read_command ns lba count prp1 size =
    build_data_command nvme_opcode_read ns lba count prp1 size false

unfoldable pub build_write_command : ℕ → ℕ → ℕ → ℕ → ℕ → Bool → Result Command
unfolding build_data_command
build_write_command ns lba count prp1 size fua =
    build_data_command nvme_opcode_write ns lba count prp1 size fua

unfoldable pub build_zone_append_command : ℕ → ℕ → ℕ → ℕ → ℕ → Bool → Result Command
unfolding build_data_command
build_zone_append_command ns lba count prp1 size fua =
    build_data_command nvme_opcode_zone_append ns lba count prp1 size fua

unfoldable pub build_flush_command : ℕ → Result Command
build_flush_command ns = ok (record {
  opcode = nvme_opcode_flush;
  namespace_id = ns;
  start_lba = 0;
  block_count_minus_one = 0;
  prp1 = 0;
  cdw10 = 0;
  cdw11 = 0;
  cdw12 = 0;
})
