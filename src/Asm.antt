-- ===== src/Asm.antt =====
-- The assembler: compiler/asm/ast.go, with what the encoder (compiler/asm/encode.go) reads of it.
pub mod Regs
pub mod Operands
pub mod Moves
pub mod Forms
pub mod Encode
pub mod Memory
pub mod Short
pub mod Sizes
pub mod Slots
pub mod Branches
pub mod Jumps
pub mod Leads
pub mod Places
pub mod Syntax
pub mod Literal
pub mod Parse
pub mod Accepted
use wrela.Prelude.{
  ℕ, zero, suc, ◌+◌, Bool, true, false, ◌&&◌, ◌||◌, List, [], ◌∷◌, leb, ltb, if◌then◌else◌,
}
use wrela.Bytes.{Bytes, has_prefix}
use wrela.Asm.Regs.{Reg}

-- An `int64` is its two's complement, a number below 2^64.
pub record MemOperand : Type 0 where
  pub base : Reg
  pub disp : ℕ
  pub width : ℕ

pub data Operand : Type 0 where
  reg_operand : Reg → Operand
  imm_operand : ℕ → Operand
  label_ref : Bytes → Operand
  field_operand : Bytes → Bytes → Operand
  param_operand : Bytes → Operand
  mem_operand : MemOperand → Operand
  field_offset_mem_operand : Reg → Bytes → Bytes → ℕ → Operand

pub record Instruction : Type 0 where
  pub mnemonic : Bytes
  pub operands : List Operand
  pub label : Bytes

-- `-128 <= v && v <= 127`
abbrev pub is_int8 : ℕ → Bool
is_int8 v = ltb v 128 || leb 18446744073709551488 v

abbrev lower : ℕ → ℕ
lower ch = if leb b'A' ch && leb ch b'Z' then ch + 32 else ch

-- `strings.ToLower`, for the comparison with spellings in ASCII: the letters of ASCII, and the two
-- others that become one, U+0130 and U+212A. Any other rune stays outside of ASCII, and is kept.
unfoldable pub lower_loop : ℕ → Bytes → Bytes
lower_loop skip [] = []
lower_loop (suc skip) (b ∷ bs) = lower_loop skip bs
lower_loop zero (b ∷ bs) =
    if has_prefix (0xC4 ∷ 0xB0 ∷ []) (b ∷ bs)
    then b'i' ∷ lower_loop 1 bs
    else if has_prefix (0xE2 ∷ 0x84 ∷ 0xAA ∷ []) (b ∷ bs)
    then b'k' ∷ lower_loop 2 bs
    else lower b ∷ lower_loop 0 bs

unfoldable pub to_lower : Bytes → Bytes
unfolding lower_loop
to_lower bs = lower_loop 0 bs
