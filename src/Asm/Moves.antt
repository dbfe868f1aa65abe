-- ===== src/Asm/Moves.antt =====
-- The encodings that take operands, but for branches (compiler/asm/encode.go).
use wrela.Prelude.{
  ℕ, ◌+◌, Bool, true, false, not, ◌&&◌, ◌||◌, List, [], ◌∷◌, ◌++◌, Option, none, some, ◌==◌, ltb,
  if◌then◌else◌, u8,
}
use wrela.Bytes.{Bytes, bytes_eq, le_bytes}
use wrela.Asm.{Operand, reg_operand, imm_operand, mem_operand, MemOperand, is_int8, to_lower}
use wrela.Asm.Regs.{Reg, no_reg}
use wrela.Asm.Operands.{modrm, rex_for_operand, encode_mem_modrm, default_width, max_width}

abbrev pub is_named : Reg → Bytes → Bool
is_named r name = bytes_eq (to_lower r.name) name

-- `encodeOut`
unfoldable pub encode_out : List Operand → Option Bytes
encode_out (reg_operand a ∷ reg_operand b ∷ []) =
    if is_named a (b'd' ∷ b'x' ∷ []) && is_named b (b'a' ∷ b'l' ∷ [])
    then some (0xEE ∷ [])
    else if is_named a (b'd' ∷ b'x' ∷ []) && is_named b (b'a' ∷ b'x' ∷ [])
    then some (0x66 ∷ 0xEF ∷ [])
    else if is_named a (b'd' ∷ b'x' ∷ []) && is_named b (b'e' ∷ b'a' ∷ b'x' ∷ [])
    then some (0xEF ∷ [])
    else none
encode_out _ = none

-- `encodeIn`
unfoldable pub encode_in : List Operand → Option Bytes
encode_in (reg_operand a ∷ reg_operand b ∷ []) =
    if is_named a (b'a' ∷ b'l' ∷ []) && is_named b (b'd' ∷ b'x' ∷ [])
    then some (0xEC ∷ [])
    else if is_named a (b'e' ∷ b'a' ∷ b'x' ∷ []) && is_named b (b'd' ∷ b'x' ∷ [])
    then some (0xED ∷ [])
    else none
encode_in _ = none

-- `encodeMovSegmentReg`
unfoldable pub encode_mov_segment_reg : Reg → Reg → Option Bytes
encode_mov_segment_reg dst src =
    if not dst.segment || not (is_named src (b'a' ∷ b'x' ∷ []))
    then none
    else some (0x8E ∷ modrm 3 dst.low3 src.low3 ∷ [])

-- `encodeMovRegReg`
unfoldable pub encode_mov_reg_reg : Reg → Reg → Option Bytes
encode_mov_reg_reg dst src =
    let width = max_width dst.width src.width in
    let p = rex_for_operand (width == 64) dst src in
    let operands = modrm 3 dst.low3 src.low3 ∷ [] in
    if width == 8
    then some (p ++ 0x8A ∷ operands)
    else if width == 16
    then some (0x66 ∷ p ++ 0x8B ∷ operands)
    else if width == 32 || width == 64
    then some (p ++ 0x8B ∷ operands)
    else none

-- `encodeMovRegControl`
unfoldable pub encode_mov_reg_control : Reg → Reg → Option Bytes
encode_mov_reg_control dst src =
    if not src.control then none else some (0x0F ∷ 0x20 ∷ modrm 3 src.low3 dst.low3 ∷ [])

-- `encodeMovControlReg`
unfoldable pub encode_mov_control_reg : Reg → Reg → Option Bytes
encode_mov_control_reg dst src =
    if not dst.control then none else some (0x0F ∷ 0x22 ∷ modrm 3 dst.low3 src.low3 ∷ [])

-- `encodeMovRegImm`
unfoldable pub encode_mov_reg_imm : Reg → ℕ → Option Bytes
encode_mov_reg_imm dst value =
    let p = rex_for_operand false no_reg dst in
    if dst.width == 8
    then some (p ++ u8 (0xB0 + dst.low3) ∷ le_bytes 1 value)
    else if dst.width == 16
    then some (0x66 ∷ p ++ u8 (0xB8 + dst.low3) ∷ le_bytes 2 value)
    else if dst.width == 32
    then some (p ++ u8 (0xB8 + dst.low3) ∷ le_bytes 4 value)
    else if dst.width == 64
    then some (rex_for_operand true no_reg dst ++ u8 (0xB8 + dst.low3) ∷ le_bytes 8 value)
    else none

-- The `switch` on the width that the encodings of a memory operand share: the opcode of the 8-bit
-- case and that of the others.
unfoldable pub sized : ℕ → Bytes → ℕ → ℕ → Bytes → Option Bytes
sized width p op8 op operands =
    if width == 8
    then some (p ++ op8 ∷ operands)
    else if width == 16
    then some (0x66 ∷ p ++ op ∷ operands)
    else if width == 32 || width == 64
    then some (p ++ op ∷ operands)
    else none

-- `encodeMovMemReg`
unfoldable pub encode_mov_mem_reg : MemOperand → Reg → Option Bytes
encode_mov_mem_reg mem reg =
    let width = default_width mem.width reg.width in
    sized width (rex_for_operand (width == 64) reg mem.base) 0x88 0x89
      (encode_mem_modrm reg.low3 mem)

-- `encodeMovRegMem`
unfoldable pub encode_mov_reg_mem : Reg → MemOperand → Option Bytes
encode_mov_reg_mem reg mem =
    let width = default_width mem.width reg.width in
    sized width (rex_for_operand (width == 64) reg mem.base) 0x8A 0x8B
      (encode_mem_modrm reg.low3 mem)

-- `encodeMovMemImm`; the 16-bit case has an immediate of 32 bits.
unfoldable pub encode_mov_mem_imm : MemOperand → ℕ → Option Bytes
encode_mov_mem_imm mem value =
    let width = default_width mem.width 64 in
    let operands = encode_mem_modrm 0 mem in
    sized width (rex_for_operand (width == 64) no_reg mem.base) 0xC6 0xC7
      (operands ++ (if width == 8 then le_bytes 1 value else le_bytes 4 value))

-- The cases of `encodeMov` whose left operand is a register.
unfoldable pub encode_mov_to_reg : Reg → Operand → Option Bytes
encode_mov_to_reg dst (reg_operand src) =
    if dst.segment
    then encode_mov_segment_reg dst src
    else if dst.control
    then encode_mov_control_reg dst src
    else if src.control
    then encode_mov_reg_control dst src
    else encode_mov_reg_reg dst src
encode_mov_to_reg dst (imm_operand value) =
    if dst.segment || dst.control then none else encode_mov_reg_imm dst value
encode_mov_to_reg dst (mem_operand mem) =
    if dst.segment || dst.control then none else encode_mov_reg_mem dst mem
encode_mov_to_reg dst _ = none

-- `encodeMov`
unfoldable pub encode_mov : List Operand → Option Bytes
encode_mov (reg_operand dst ∷ right ∷ []) = encode_mov_to_reg dst right
encode_mov (mem_operand dst ∷ reg_operand src ∷ []) = encode_mov_mem_reg dst src
encode_mov (mem_operand dst ∷ imm_operand value ∷ []) = encode_mov_mem_imm dst value
encode_mov _ = none

-- The prefix of the encodings without an 8-bit case, if there is one for the width.
abbrev pub word_prefix : ℕ → Bytes → Option Bytes
word_prefix width p =
    if width == 16 then some (0x66 ∷ p) else if width == 32 || width == 64 then some p else none

abbrev pub then_bytes : Option Bytes → Bytes → Option Bytes
then_bytes none bytes = none
then_bytes (some p) bytes = some (p ++ bytes)

-- `encodeBinaryImm`
unfoldable pub encode_binary_imm : List Operand → ℕ → ℕ → ℕ → Option Bytes
encode_binary_imm (reg_operand reg ∷ imm_operand value ∷ []) ext op8 op32 =
    let width = reg.width in
    let opcode = if is_int8 value then op8 else op32 in
    let emit =
      if is_int8 value
      then le_bytes 1 value
      else if width == 16
      then le_bytes 2 value
      else le_bytes 4 value in
    then_bytes (word_prefix width (rex_for_operand (width == 64) no_reg reg))
      (opcode ∷ modrm 3 ext reg.low3 ∷ emit)
encode_binary_imm _ ext op8 op32 = none

-- `encodeBinaryRegReg`
unfoldable pub encode_binary_reg_reg : List Operand → ℕ → Option Bytes
encode_binary_reg_reg (reg_operand dst ∷ reg_operand src ∷ []) opcode =
    let width = max_width dst.width src.width in
    then_bytes (word_prefix width (rex_for_operand (width == 64) src dst))
      (opcode ∷ modrm 3 src.low3 dst.low3 ∷ [])
encode_binary_reg_reg _ opcode = none

-- `encodeBinaryRegMem`
unfoldable pub encode_binary_reg_mem : List Operand → ℕ → Option Bytes
encode_binary_reg_mem (reg_operand dst ∷ mem_operand src ∷ []) opcode =
    let width = default_width src.width dst.width in
    then_bytes (word_prefix width (rex_for_operand (width == 64) dst src.base))
      (opcode ∷ encode_mem_modrm dst.low3 src)
encode_binary_reg_mem _ opcode = none

-- `encodePushPop`
unfoldable pub encode_push_pop : List Operand → Bool → Option Bytes
encode_push_pop (imm_operand value ∷ []) is_push =
    if not is_push || not (is_int8 value) then none else some (0x6A ∷ u8 value ∷ [])
encode_push_pop (reg_operand reg ∷ []) is_push = some (
    rex_for_operand false no_reg reg
    ++ (if is_push then u8 (0x50 + reg.low3) else u8 (0x58 + reg.low3)) ∷ [])
encode_push_pop _ is_push = none

-- `encodeShiftImm`
unfoldable pub encode_shift_imm : List Operand → ℕ → Option Bytes
encode_shift_imm (reg_operand reg ∷ imm_operand value ∷ []) ext =
    if ltb 255 value
    then none
    else then_bytes (word_prefix reg.width (rex_for_operand (reg.width == 64) no_reg reg))
        (0xC1 ∷ modrm 3 ext reg.low3 ∷ u8 value ∷ [])
encode_shift_imm _ ext = none

-- `encodeDesc`
unfoldable pub encode_desc : List Operand → ℕ → Option Bytes
encode_desc (mem_operand mem ∷ []) reg_field = some (
    rex_for_operand (mem.width == 64) no_reg mem.base
    ++ 0x0F ∷ 0x01 ∷ encode_mem_modrm reg_field mem)
encode_desc _ reg_field = none
