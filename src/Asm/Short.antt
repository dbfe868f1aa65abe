-- ===== src/Asm/Short.antt =====
-- How long the encodings of the single instructions are at most.
use wrela.Prelude.{ℕ, ◌≤◌, Bool, List, [], ◌∷◌, Option, none, some, length, length-append, arith}
use wrela.Bytes.{Bytes}
use wrela.Bytes.Laws.{length-le_bytes}
use wrela.Asm.{Operand, reg_operand, imm_operand, mem_operand, MemOperand}
use wrela.Asm.Regs.{Reg}
use wrela.Asm.Operands.{rex_for_operand, encode_mem_disp, encode_mem_modrm}
use wrela.Asm.Moves.{
  encode_mov, encode_mov_to_reg, encode_mov_segment_reg, encode_mov_control_reg,
  encode_mov_reg_control, encode_mov_reg_reg, encode_mov_reg_imm, encode_mov_reg_mem,
  encode_mov_mem_reg, encode_mov_mem_imm, sized, word_prefix, then_bytes, encode_binary_imm,
  encode_binary_reg_reg, encode_binary_reg_mem, encode_push_pop, encode_shift_imm, encode_desc,
  encode_out, encode_in,
}

abbrev pub IsShort : Option Bytes → Type 0
IsShort none = Unit
IsShort (some bytes) = length bytes ≤ 15

pub length-rex : (w : Bool) (reg rm : Reg) → length (rex_for_operand w reg rm) ≤ 1
unfolding rex_for_operand
length-rex w reg rm = ground arith

length-disp : (mem : MemOperand) → length (encode_mem_disp mem).1 ≤ 4
unfolding encode_mem_disp
length-disp mem = ground arith

pub length-mem_modrm :
    (reg_field : ℕ) (mem : MemOperand) → length (encode_mem_modrm reg_field mem) ≤ 6
unfolding encode_mem_modrm
length-mem_modrm reg_field mem = ground (arith, length-disp mem)

sized-IsShort :
    (width : ℕ) (p : Bytes) (op8 op : ℕ) (operands : Bytes)
    → length p ≤ 1
    → length operands ≤ 10
    → IsShort (sized width p op8 op operands)
unfolding sized
sized-IsShort width p op8 op operands h k = grind (arith, length-append)

then_bytes-IsShort :
    (width : ℕ) (p bytes : Bytes)
    → length p ≤ 1
    → length bytes ≤ 10
    → IsShort (then_bytes (word_prefix width p) bytes)
then_bytes-IsShort width p bytes h k = grind (arith, length-append)

pub encode_out-IsShort : (ops : List Operand) → IsShort (encode_out ops)
unfolding encode_out
encode_out-IsShort (reg_operand a ∷ reg_operand b ∷ []) = ground arith
encode_out-IsShort _ = tt

pub encode_in-IsShort : (ops : List Operand) → IsShort (encode_in ops)
unfolding encode_in
encode_in-IsShort (reg_operand a ∷ reg_operand b ∷ []) = ground arith
encode_in-IsShort _ = tt

encode_mov_reg_imm-IsShort : (dst : Reg) (value : ℕ) → IsShort (encode_mov_reg_imm dst value)
unfolding encode_mov_reg_imm
encode_mov_reg_imm-IsShort dst value = grind (arith, length-append, length-le_bytes, length-rex)

encode_mov_reg_reg-IsShort : (dst src : Reg) → IsShort (encode_mov_reg_reg dst src)
unfolding encode_mov_reg_reg
encode_mov_reg_reg-IsShort dst src = grind (arith, length-append, length-rex)

encode_mov_segment_reg-IsShort : (dst src : Reg) → IsShort (encode_mov_segment_reg dst src)
unfolding encode_mov_segment_reg
encode_mov_segment_reg-IsShort dst src = ground arith

encode_mov_control_reg-IsShort : (dst src : Reg) → IsShort (encode_mov_control_reg dst src)
unfolding encode_mov_control_reg
encode_mov_control_reg-IsShort dst src = ground arith

encode_mov_reg_control-IsShort : (dst src : Reg) → IsShort (encode_mov_reg_control dst src)
unfolding encode_mov_reg_control
encode_mov_reg_control-IsShort dst src = ground arith

encode_mov_reg_mem-IsShort : (reg : Reg) (mem : MemOperand) → IsShort (encode_mov_reg_mem reg mem)
unfolding encode_mov_reg_mem
encode_mov_reg_mem-IsShort reg mem =
    sized-IsShort _ _ _ _ _ (length-rex _ _ _) (omega (arith, length-mem_modrm reg.low3 mem))

encode_mov_mem_reg-IsShort : (mem : MemOperand) (reg : Reg) → IsShort (encode_mov_mem_reg mem reg)
unfolding encode_mov_mem_reg
encode_mov_mem_reg-IsShort mem reg =
    sized-IsShort _ _ _ _ _ (length-rex _ _ _) (omega (arith, length-mem_modrm reg.low3 mem))

encode_mov_mem_imm-IsShort : (mem : MemOperand) (value : ℕ) → IsShort (encode_mov_mem_imm mem value)
unfolding encode_mov_mem_imm
encode_mov_mem_imm-IsShort mem value =
    sized-IsShort _ _ _ _ _ (length-rex _ _ _)
      (grind (arith, length-append, length-le_bytes, length-mem_modrm))

encode_mov_to_reg-IsShort : (dst : Reg) (right : Operand) → IsShort (encode_mov_to_reg dst right)
unfolding encode_mov_to_reg
encode_mov_to_reg-IsShort dst (reg_operand src) = ground (
  arith,
  encode_mov_segment_reg-IsShort dst src,
  encode_mov_control_reg-IsShort dst src,
  encode_mov_reg_control-IsShort dst src,
  encode_mov_reg_reg-IsShort dst src,
)
encode_mov_to_reg-IsShort dst (imm_operand value) =
    ground (arith, encode_mov_reg_imm-IsShort dst value)
encode_mov_to_reg-IsShort dst (mem_operand mem) = ground (arith, encode_mov_reg_mem-IsShort dst mem)
encode_mov_to_reg-IsShort dst _ = tt

pub encode_mov-IsShort : (ops : List Operand) → IsShort (encode_mov ops)
unfolding encode_mov
encode_mov-IsShort (reg_operand dst ∷ right ∷ []) = encode_mov_to_reg-IsShort dst right
encode_mov-IsShort (mem_operand dst ∷ reg_operand src ∷ []) = encode_mov_mem_reg-IsShort dst src
encode_mov-IsShort (mem_operand dst ∷ imm_operand value ∷ []) = encode_mov_mem_imm-IsShort dst value
encode_mov-IsShort _ = tt

pub encode_binary_imm-IsShort :
    (ops : List Operand) (ext op8 op32 : ℕ) → IsShort (encode_binary_imm ops ext op8 op32)
unfolding encode_binary_imm
encode_binary_imm-IsShort (reg_operand reg ∷ imm_operand value ∷ []) ext op8 op32 =
    grind (arith, length-append, length-le_bytes, length-rex)
encode_binary_imm-IsShort _ ext op8 op32 = tt

pub encode_binary_reg_reg-IsShort :
    (ops : List Operand) (opcode : ℕ) → IsShort (encode_binary_reg_reg ops opcode)
unfolding encode_binary_reg_reg
encode_binary_reg_reg-IsShort (reg_operand dst ∷ reg_operand src ∷ []) opcode =
    grind (arith, length-append, length-rex)
encode_binary_reg_reg-IsShort _ opcode = tt

pub encode_binary_reg_mem-IsShort :
    (ops : List Operand) (opcode : ℕ) → IsShort (encode_binary_reg_mem ops opcode)
unfolding encode_binary_reg_mem
encode_binary_reg_mem-IsShort (reg_operand dst ∷ mem_operand src ∷ []) opcode =
    grind (arith, length-append, length-rex, length-mem_modrm)
encode_binary_reg_mem-IsShort _ opcode = tt

pub encode_push_pop-IsShort :
    (ops : List Operand) (is_push : Bool) → IsShort (encode_push_pop ops is_push)
unfolding encode_push_pop
encode_push_pop-IsShort (imm_operand value ∷ []) is_push = ground arith
encode_push_pop-IsShort (reg_operand reg ∷ []) is_push = grind (arith, length-append, length-rex)
encode_push_pop-IsShort _ is_push = tt

pub encode_shift_imm-IsShort : (ops : List Operand) (ext : ℕ) → IsShort (encode_shift_imm ops ext)
unfolding encode_shift_imm
encode_shift_imm-IsShort (reg_operand reg ∷ imm_operand value ∷ []) ext =
    grind (arith, length-append, length-rex)
encode_shift_imm-IsShort _ ext = tt

pub encode_desc-IsShort : (ops : List Operand) (reg_field : ℕ) → IsShort (encode_desc ops reg_field)
unfolding encode_desc
encode_desc-IsShort (mem_operand mem ∷ []) reg_field =
    grind (arith, length-append, length-rex, length-mem_modrm)
encode_desc-IsShort _ reg_field = tt
