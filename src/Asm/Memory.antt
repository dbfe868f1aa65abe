-- ===== src/Asm/Memory.antt =====
-- A processor reads a memory operand back from its ModRM, SIB and displacement bytes.
use wrela.Prelude.{
  ℕ, ◌+◌, ◌*◌, ◌/◌, ◌%◌, ◌≤◌, ◌<◌, ◌≡◌, refl, ap, ◌∙◌, ◌⊎◌, inl, inr, true, not, ◌&&◌, [], ◌∷◌,
  ◌++◌, Option, none, some, ◌==◌, ==_iff, ltb, if◌then◌else◌, Bool-cases, arith,
}
use wrela.Prelude.Tables.{passes_below, passes_below_at}
use wrela.Bytes.{Bytes}
use wrela.Asm.{MemOperand, is_int8}
use wrela.Asm.Operands.{modrm, sib, encode_mem_disp, encode_mem_modrm}

modrm_table : passes_below (λ x. modrm (x / 64) (x / 8 % 8) (x % 8) == x) 256 ≡ true
unfolding passes_below modrm
modrm_table = refl

pub modrm_lem :
    (mode reg rm : ℕ) → mode < 4 → reg < 8 → rm < 8 → modrm mode reg rm ≡ mode * 64 + reg * 8 + rm
modrm_lem mode reg rm hm hr hb =
    let x = mode * 64 + reg * 8 + rm in
    let m : x / 64 ≡ mode = omega arith in
    let r : x / 8 % 8 ≡ reg = omega arith in
    let b : x % 8 ≡ rm = omega arith in
    let t = (==_iff _ _).0 (
      passes_below_at (λ x. modrm (x / 64) (x / 8 % 8) (x % 8) == x) 256 x (omega arith)
        modrm_table) in
    rw (m, r, b) at t

-- The low byte or the low four bytes of a displacement, extended by its sign to 64 bits.
abbrev pub sign_extend_8 : ℕ → ℕ
sign_extend_8 d = if ltb d 128 then d else d + 18446744073709551360

abbrev pub sign_extend_32 : ℕ → ℕ
sign_extend_32 d = if ltb d 2147483648 then d else d + 18446744069414584320

-- The register field, the base register, the displacement, and the bytes behind the operand.
abbrev pub Decoded : Type 0
Decoded = Option (ℕ × ℕ × ℕ × Bytes)

abbrev decode_byte : ℕ → ℕ → Bytes → Decoded
decode_byte reg base [] = none
decode_byte reg base (d ∷ bs) = some (reg, base, sign_extend_8 d, bs)

abbrev decode_long : ℕ → ℕ → Bytes → Decoded
decode_long reg base (a ∷ b ∷ c ∷ d ∷ bs) =
    some (reg, base, sign_extend_32 (a + 256 * (b + 256 * (c + 256 * d))), bs)
decode_long reg base _ = none

-- The displacement by the mode; mode 0 with base 5 has another meaning, and mode 3 is a register.
unfoldable pub decode_disp : ℕ → ℕ → ℕ → Bytes → Decoded
decode_disp mode reg base bs =
    if mode == 0
    then (if base == 5 then none else some (reg, base, 0, bs))
    else if mode == 1
    then decode_byte reg base bs
    else if mode == 2
    then decode_long reg base bs
    else none

-- Behind a SIB byte, which has no index here.
unfoldable pub decode_sib : ℕ → ℕ → Bytes → Decoded
unfolding decode_disp
decode_sib mode reg [] = none
decode_sib mode reg (s ∷ bs) = if s / 8 % 8 == 4 then decode_disp mode reg (s % 8) bs else none

unfoldable pub decode_mem : Bytes → Decoded
unfolding decode_sib decode_disp
decode_mem [] = none
decode_mem (b ∷ bs) =
    if b % 8 == 4
    then decode_sib (b / 64) (b / 8 % 8) bs
    else decode_disp (b / 64) (b / 8 % 8) (b % 8) bs

-- A displacement that 32 bits hold with their sign, as its two's complement.
abbrev pub IsDisp : ℕ → Type 0
IsDisp d = (d < 2147483648) ⊎ ((18446744071562067968 ≤ d) × (d < 18446744073709551616))

-- The mode and the displacement bytes are read back.
disp-decodes :
    (reg : ℕ) (mem : MemOperand) (rest : Bytes)
    → mem.base.low3 < 8
    → IsDisp mem.disp
    → let (mode, disp) = encode_mem_disp mem in
      (mode < 3)
      × (decode_disp mode reg mem.base.low3 (disp ++ rest)
          ≡ some (reg, mem.base.low3, mem.disp, rest))
unfolding encode_mem_disp decode_disp
disp-decodes reg mem rest h d = elim (Bool-cases (mem.disp == 0 && not (mem.base.low3 == 5))) [
  | inl e ↦ rw e (omega arith, ground arith)
  | inr e ↦ rw e (elim (Bool-cases (is_int8 mem.disp)) [
    | inl small ↦
        let same : sign_extend_8 (mem.disp % 256) ≡ mem.disp = ground arith in
        rw small (omega arith, ap (λ v. some (reg, mem.base.low3, v, rest)) same)
    | inr large ↦
        let low : mem.disp % 256
              + 256
                * (mem.disp / 256 % 256
                    + 256 * (mem.disp / 256 / 256 % 256 + 256 * (mem.disp / 256 / 256 / 256 % 256)))
            ≡ mem.disp % 4294967296 =
          omega arith in
        let same : sign_extend_32 (mem.disp % 4294967296) ≡ mem.disp = ground arith in
        rw large
          (omega arith, ap (λ v. some (reg, mem.base.low3, v, rest)) (ap sign_extend_32 low ∙ same))
  ])
]

-- With a register field and a base register of three bits, and a displacement that 32 bits hold,
-- the bytes of a memory operand are read back as these three, and what follows is left.
pub encode_mem_modrm-decodes :
    (reg_field : ℕ) (mem : MemOperand) (rest : Bytes)
    → reg_field < 8
    → mem.base.low3 < 8
    → IsDisp mem.disp
    → decode_mem (encode_mem_modrm reg_field mem ++ rest)
      ≡ some (reg_field, mem.base.low3, mem.disp, rest)
unfolding encode_mem_modrm decode_mem decode_sib
encode_mem_modrm-decodes reg_field mem rest hr h d =
    let (mode, e) = disp-decodes reg_field mem rest h d in
    let m = (encode_mem_disp mem).0 in
    elim (Bool-cases (mem.base.low3 == 4)) [
      | inl four ↦
          let b : modrm m reg_field 4 ≡ m * 64 + reg_field * 8 + 4 =
            modrm_lem m reg_field 4 (omega arith) hr (omega arith) in
          let is_four : mem.base.low3 ≡ 4 = ground arith in
          let whole : sib 0 4 4 ≡ 36 = unfold sib in refl in
          let s : sib 0 4 mem.base.low3 ≡ 32 + mem.base.low3 =
            ap (sib 0 4) is_four ∙ whole ∙ omega arith in
          let low : (32 + mem.base.low3) % 8 ≡ mem.base.low3 = omega arith in
          let no_index : (32 + mem.base.low3) / 8 % 8 ≡ 4 = omega arith in
          let rm : (m * 64 + reg_field * 8 + 4) % 8 ≡ 4 = omega arith in
          let md : (m * 64 + reg_field * 8 + 4) / 64 ≡ m = omega arith in
          let rg : (m * 64 + reg_field * 8 + 4) / 8 % 8 ≡ reg_field = omega arith in
          rw (four, b, s, rm, md, rg, no_index, low) e
      | inr other ↦
          let base = mem.base.low3 in
          let b : modrm m reg_field base ≡ m * 64 + reg_field * 8 + base =
            modrm_lem m reg_field base (omega arith) hr h in
          let rm : (m * 64 + reg_field * 8 + base) % 8 ≡ base = omega arith in
          let md : (m * 64 + reg_field * 8 + base) / 64 ≡ m = omega arith in
          let rg : (m * 64 + reg_field * 8 + base) / 8 % 8 ≡ reg_field = omega arith in
          rw (other, b, rm, md, rg, other) e
    ]
