-- ===== src/Asm/Forms.antt =====
-- Which bytes an instruction is encoded as: the switch of `encode` in compiler/asm/encode.go.
use wrela.Prelude.{ℕ, ◌+◌, true, false, List, [], ◌∷◌, ◌++◌, Option, none, some, if◌then◌else◌}
use wrela.Bytes.{Bytes, bytes_eq}
use wrela.Asm.{Instruction, reg_operand, label_ref, mem_operand, to_lower}
use wrela.Asm.Regs.{no_reg}
use wrela.Asm.Operands.{modrm, rex_for_operand, encode_mem_modrm}
use wrela.Asm.Moves.{
  encode_mov, encode_binary_imm, encode_binary_reg_reg, encode_binary_reg_mem, encode_push_pop,
  encode_shift_imm, encode_desc, encode_out, encode_in,
}

-- The cases of the switch; a conditional branch carries its entry of `condOpcode`.
pub data Form : Type 0 where
  nothing out_form in_form mov_form add_form and_form sub_form cmp_form shr_form : Form
  call_form jmp_form push_form pop_form lgdt_form lidt_form : Form
  fixed : Bytes → Form
  branch_form : ℕ → Form

abbrev pub forms : List (Bytes × Form)
forms =
    ([], nothing)
    ∷ (b'h' ∷ b'l' ∷ b't' ∷ [], fixed (0xF4 ∷ []))
    ∷ (b'p' ∷ b'a' ∷ b'u' ∷ b's' ∷ b'e' ∷ [], fixed (0xF3 ∷ 0x90 ∷ []))
    ∷ (b'r' ∷ b'e' ∷ b't' ∷ [], fixed (0xC3 ∷ []))
    ∷ (b'r' ∷ b'e' ∷ b't' ∷ b'f' ∷ b'q' ∷ [], fixed (0x48 ∷ 0xCB ∷ []))
    ∷ (b'i' ∷ b'r' ∷ b'e' ∷ b't' ∷ b'q' ∷ [], fixed (0x48 ∷ 0xCF ∷ []))
    ∷ (b'c' ∷ b'l' ∷ b'i' ∷ [], fixed (0xFA ∷ []))
    ∷ (b's' ∷ b't' ∷ b'i' ∷ [], fixed (0xFB ∷ []))
    ∷ (b'o' ∷ b'u' ∷ b't' ∷ [], out_form)
    ∷ (b'i' ∷ b'n' ∷ [], in_form)
    ∷ (b'm' ∷ b'o' ∷ b'v' ∷ [], mov_form)
    ∷ (b'a' ∷ b'd' ∷ b'd' ∷ [], add_form)
    ∷ (b'a' ∷ b'n' ∷ b'd' ∷ [], and_form)
    ∷ (b's' ∷ b'u' ∷ b'b' ∷ [], sub_form)
    ∷ (b'c' ∷ b'm' ∷ b'p' ∷ [], cmp_form)
    ∷ (b's' ∷ b'h' ∷ b'r' ∷ [], shr_form)
    ∷ (b'c' ∷ b'a' ∷ b'l' ∷ b'l' ∷ [], call_form)
    ∷ (b'j' ∷ b'm' ∷ b'p' ∷ [], jmp_form)
    ∷ (b'j' ∷ b'e' ∷ [], branch_form 0x84)
    ∷ (b'j' ∷ b'n' ∷ b'e' ∷ [], branch_form 0x85)
    ∷ (b'j' ∷ b'b' ∷ [], branch_form 0x82)
    ∷ (b'j' ∷ b'b' ∷ b'e' ∷ [], branch_form 0x86)
    ∷ (b'j' ∷ b'l' ∷ [], branch_form 0x8c)
    ∷ (b'j' ∷ b'l' ∷ b'e' ∷ [], branch_form 0x8e)
    ∷ (b'j' ∷ b'g' ∷ [], branch_form 0x8f)
    ∷ (b'j' ∷ b'g' ∷ b'e' ∷ [], branch_form 0x8d)
    ∷ (b'p' ∷ b'u' ∷ b's' ∷ b'h' ∷ [], push_form)
    ∷ (b'p' ∷ b'o' ∷ b'p' ∷ [], pop_form)
    ∷ (b'l' ∷ b'g' ∷ b'd' ∷ b't' ∷ [], lgdt_form)
    ∷ (b'l' ∷ b'i' ∷ b'd' ∷ b't' ∷ [], lidt_form)
    ∷ []

unfoldable pub find_form : Bytes → List (Bytes × Form) → Option Form
find_form name [] = none
find_form name ((known, form) ∷ more) =
    if bytes_eq known name then some form else find_form name more

unfoldable pub form_of : Bytes → Option Form
form_of mnemonic = find_form (to_lower mnemonic) forms

-- `branchFixup`
pub record BranchFixup : Type 0 where
  pub mnemonic : Bytes
  pub rel_pos : ℕ
  pub target : Bytes
  pub next_pc : ℕ

-- The bytes of an instruction, and the fixup that a branch appends.
pub record Emitted : Type 0 where
  pub bytes : Bytes
  pub fixups : List BranchFixup

abbrev pub plain : Option Bytes → Option Emitted
plain none = none
plain (some bytes) = some (record { bytes = bytes; fixups = [] })

abbrev pub or_else {ℓ} : {A : Type ℓ} → Option A → Option A → Option A
or_else none other = other
or_else (some a) other = some a

-- `encodeNearBranch` with `cond` false, at the position `start`.
unfoldable pub encode_near_branch : Instruction → ℕ → ℕ → ℕ → Option Emitted
encode_near_branch ins start size opcode = elim ins.operands [
  | label_ref target ∷ [] ↦ some (record {
    bytes = opcode ∷ 0 ∷ 0 ∷ 0 ∷ 0 ∷ [];
    fixups =
        record {
          mnemonic = ins.mnemonic;
          rel_pos = start + 1;
          target = target;
          next_pc = start + size;
        }
        ∷ [];
  })
  | _ ↦ none
]

-- `encodeNearBranch` with `cond` true.
unfoldable pub encode_cond_branch : Instruction → ℕ → ℕ → ℕ → Option Emitted
encode_cond_branch ins start size opcode = elim ins.operands [
  | label_ref target ∷ [] ↦ some (record {
    bytes = 0x0F ∷ opcode ∷ 0 ∷ 0 ∷ 0 ∷ 0 ∷ [];
    fixups =
        record {
          mnemonic = ins.mnemonic;
          rel_pos = start + 2;
          target = target;
          next_pc = start + size;
        }
        ∷ [];
  })
  | _ ↦ none
]

-- `encodeCall`
unfoldable pub encode_call : Instruction → ℕ → Option Emitted
encode_call ins start = elim ins.operands [
  | reg_operand reg ∷ [] ↦
      plain (some (rex_for_operand false no_reg reg ++ 0xFF ∷ modrm 3 2 reg.low3 ∷ []))
  | mem_operand mem ∷ [] ↦
      plain (some (rex_for_operand false no_reg mem.base ++ 0xFF ∷ encode_mem_modrm 2 mem))
  | _ ↦ encode_near_branch ins start 5 0xE8
]

-- One case of the switch.
unfoldable pub encode_form : Form → Instruction → ℕ → Option Emitted
encode_form nothing ins start = plain (some [])
encode_form (fixed bytes) ins start = plain (some bytes)
encode_form out_form ins start = plain (encode_out ins.operands)
encode_form in_form ins start = plain (encode_in ins.operands)
encode_form mov_form ins start = plain (encode_mov ins.operands)
encode_form add_form ins start = plain (
    or_else (encode_binary_reg_reg ins.operands 0x01) (
      or_else (encode_binary_reg_mem ins.operands 0x03)
        (encode_binary_imm ins.operands 0 0x83 0x81)))
encode_form and_form ins start = plain (encode_binary_reg_reg ins.operands 0x21)
encode_form sub_form ins start =
    plain (
      or_else (encode_binary_reg_mem ins.operands 0x2B)
        (encode_binary_imm ins.operands 5 0x83 0x81))
encode_form cmp_form ins start = plain (
    or_else (encode_binary_reg_reg ins.operands 0x39) (
      or_else (encode_binary_reg_mem ins.operands 0x3B)
        (encode_binary_imm ins.operands 7 0x83 0x81)))
encode_form shr_form ins start = plain (encode_shift_imm ins.operands 5)
encode_form call_form ins start = encode_call ins start
encode_form jmp_form ins start = encode_near_branch ins start 5 0xE9
encode_form (branch_form opcode) ins start = encode_cond_branch ins start 6 opcode
encode_form push_form ins start = plain (encode_push_pop ins.operands true)
encode_form pop_form ins start = plain (encode_push_pop ins.operands false)
encode_form lgdt_form ins start = plain (encode_desc ins.operands 2)
encode_form lidt_form ins start = plain (encode_desc ins.operands 3)
