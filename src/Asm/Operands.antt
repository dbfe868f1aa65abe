-- ===== src/Asm/Operands.antt =====
-- ModRM, SIB, displacement and REX bytes: the helpers of compiler/asm/encode.go.
use Prim.Native.Nat.{bit_or}
use wrela.Prelude.{ℕ, ◌*◌, Bool, not, ◌&&◌, [], ◌∷◌, ◌==◌, ltb, if◌then◌else◌, u8}
use wrela.Bytes.{Bytes, le_bytes}
use wrela.Asm.{MemOperand, is_int8}
use wrela.Asm.Regs.{Reg}

-- `modrm`
unfoldable pub modrm : ℕ → ℕ → ℕ → ℕ
modrm mode reg rm = u8 (bit_or (bit_or (mode * 64) (reg * 8)) rm)

-- `sib`
unfoldable pub sib : ℕ → ℕ → ℕ → ℕ
sib scale index base = u8 (bit_or (bit_or (scale * 64) (index * 8)) base)

-- `rexForOperand`
unfoldable pub rex_for_operand : Bool → Reg → Reg → Bytes
rex_for_operand w reg rm =
    let p0 = if w then bit_or 0x40 8 else 0x40 in
    let p1 = if reg.high then bit_or p0 4 else p0 in
    let p2 = if rm.high then bit_or p1 1 else p1 in
    if not w && not reg.high && not rm.high && not reg.rex && not rm.rex then [] else p2 ∷ []

-- `encodeMemDisp`: the `mod` field, and the bytes of the displacement.
unfoldable pub encode_mem_disp : MemOperand → ℕ × Bytes
unfolding le_bytes
encode_mem_disp mem =
    if mem.disp == 0 && not (mem.base.low3 == 5)
    then (0, [])
    else if is_int8 mem.disp
    then (1, u8 mem.disp ∷ [])
    else (2, le_bytes 4 mem.disp)

-- `encodeMemModRM`
unfoldable pub encode_mem_modrm : ℕ → MemOperand → Bytes
encode_mem_modrm reg_field mem =
    let (mode, disp) = encode_mem_disp mem in
    let rm = mem.base.low3 in
    if rm == 4 then modrm mode reg_field 4 ∷ sib 0 4 rm ∷ disp else modrm mode reg_field rm ∷ disp

-- `defaultWidth`
abbrev pub default_width : ℕ → ℕ → ℕ
default_width a b = if a == 0 then b else a

-- `max`
abbrev pub max_width : ℕ → ℕ → ℕ
max_width a b = if ltb b a then a else b
