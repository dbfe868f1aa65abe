-- ===== src/Asm/Sizes.antt =====
-- No instruction is longer than the 15 bytes that a processor takes.
use wrela.Prelude.{
  ℕ, ◌≤◌, ◌≡◌, subst, true, false, List, [], ◌∷◌, Option, none, some, length, length-append, All,
  arith,
}
use wrela.Bytes.{Bytes}
use wrela.Asm.{Operand, reg_operand, label_ref, mem_operand, Instruction, to_lower}
use wrela.Asm.Forms.{
  Form, Emitted, plain, or_else, forms, find_form, form_of, encode_form, encode_call,
  encode_near_branch, encode_cond_branch, nothing, fixed, out_form, in_form, mov_form, add_form,
  and_form, sub_form, cmp_form, shr_form, call_form, jmp_form, push_form, pop_form, lgdt_form,
  lidt_form, branch_form,
}
use wrela.Asm.Short.{
  IsShort, length-rex, length-mem_modrm, encode_out-IsShort, encode_in-IsShort, encode_mov-IsShort,
  encode_binary_imm-IsShort, encode_binary_reg_reg-IsShort, encode_binary_reg_mem-IsShort,
  encode_push_pop-IsShort, encode_shift_imm-IsShort, encode_desc-IsShort,
}

-- An instruction's bytes: at most 15.
abbrev IsShortEmit : Option Emitted → Type 0
IsShortEmit none = Unit
IsShortEmit (some e) = length e.bytes ≤ 15

plain-IsShortEmit : (o : Option Bytes) → IsShort o → IsShortEmit (plain o)
plain-IsShortEmit none h = tt
plain-IsShortEmit (some bytes) h = h

or_else-IsShort : (a b : Option Bytes) → IsShort a → IsShort b → IsShort (or_else a b)
or_else-IsShort none b h k = k
or_else-IsShort (some a) b h k = h

encode_near_branch-IsShortEmit :
    (ins : Instruction) (start size opcode : ℕ)
    → IsShortEmit (encode_near_branch ins start size opcode)
unfolding encode_near_branch
encode_near_branch-IsShortEmit ins start size opcode = near ins.operands
  where
    near :
        (ops : List Operand)
        → IsShortEmit (encode_near_branch (record ins { operands = ops }) start size opcode)
    near (label_ref target ∷ []) = omega arith
    near _ = tt

encode_cond_branch-IsShortEmit :
    (ins : Instruction) (start size opcode : ℕ)
    → IsShortEmit (encode_cond_branch ins start size opcode)
unfolding encode_cond_branch
encode_cond_branch-IsShortEmit ins start size opcode = cond ins.operands
  where
    cond :
        (ops : List Operand)
        → IsShortEmit (encode_cond_branch (record ins { operands = ops }) start size opcode)
    cond (label_ref target ∷ []) = omega arith
    cond _ = tt

encode_call-IsShortEmit : (ins : Instruction) (start : ℕ) → IsShortEmit (encode_call ins start)
unfolding encode_call
encode_call-IsShortEmit ins start = call ins.operands
  where
    call : (ops : List Operand) → IsShortEmit (encode_call (record ins { operands = ops }) start)
    call (reg_operand reg ∷ []) = grind (arith, length-append, length-rex)
    call (mem_operand mem ∷ []) = grind (arith, length-append, length-rex, length-mem_modrm)
    call _ = encode_near_branch-IsShortEmit _ start 5 0xE8

IsShortForm : Form → Type 0
IsShortForm (fixed bytes) = length bytes ≤ 15
IsShortForm _ = Unit

encode_form-IsShortEmit :
    (form : Form) (ins : Instruction) (start : ℕ)
    → IsShortForm form
    → IsShortEmit (encode_form form ins start)
unfolding encode_form IsShortForm
encode_form-IsShortEmit nothing ins start h = omega arith
encode_form-IsShortEmit (fixed bytes) ins start h = h
encode_form-IsShortEmit out_form ins start h = plain-IsShortEmit _ (encode_out-IsShort ins.operands)
encode_form-IsShortEmit in_form ins start h = plain-IsShortEmit _ (encode_in-IsShort ins.operands)
encode_form-IsShortEmit mov_form ins start h = plain-IsShortEmit _ (encode_mov-IsShort ins.operands)
encode_form-IsShortEmit add_form ins start h = plain-IsShortEmit _ (
    or_else-IsShort _ _ (encode_binary_reg_reg-IsShort ins.operands 0x01) (
      or_else-IsShort _ _ (encode_binary_reg_mem-IsShort ins.operands 0x03)
        (encode_binary_imm-IsShort ins.operands 0 0x83 0x81)))
encode_form-IsShortEmit and_form ins start h =
    plain-IsShortEmit _ (encode_binary_reg_reg-IsShort ins.operands 0x21)
encode_form-IsShortEmit sub_form ins start h = plain-IsShortEmit _ (
    or_else-IsShort _ _ (encode_binary_reg_mem-IsShort ins.operands 0x2B)
      (encode_binary_imm-IsShort ins.operands 5 0x83 0x81))
encode_form-IsShortEmit cmp_form ins start h = plain-IsShortEmit _ (
    or_else-IsShort _ _ (encode_binary_reg_reg-IsShort ins.operands 0x39) (
      or_else-IsShort _ _ (encode_binary_reg_mem-IsShort ins.operands 0x3B)
        (encode_binary_imm-IsShort ins.operands 7 0x83 0x81)))
encode_form-IsShortEmit shr_form ins start h =
    plain-IsShortEmit _ (encode_shift_imm-IsShort ins.operands 5)
encode_form-IsShortEmit call_form ins start h = encode_call-IsShortEmit ins start
encode_form-IsShortEmit jmp_form ins start h = encode_near_branch-IsShortEmit ins start 5 0xE9
encode_form-IsShortEmit (branch_form opcode) ins start h =
    encode_cond_branch-IsShortEmit ins start 6 opcode
encode_form-IsShortEmit push_form ins start h =
    plain-IsShortEmit _ (encode_push_pop-IsShort ins.operands true)
encode_form-IsShortEmit pop_form ins start h =
    plain-IsShortEmit _ (encode_push_pop-IsShort ins.operands false)
encode_form-IsShortEmit lgdt_form ins start h =
    plain-IsShortEmit _ (encode_desc-IsShort ins.operands 2)
encode_form-IsShortEmit lidt_form ins start h =
    plain-IsShortEmit _ (encode_desc-IsShort ins.operands 3)

find_form-All :
    (name : Bytes) (table : List (Bytes × Form)) (form : Form)
    → All (λ entry. IsShortForm entry.1) table
    → find_form name table ≡ some form
    → IsShortForm form
unfolding find_form
find_form-All name [] form h e = absurd cc
find_form-All name (entry ∷ more) form h e = ground (arith, find_form-All name more form)

forms-All : All (λ entry. IsShortForm entry.1) forms
unfolding IsShortForm
forms-All = ground arith

-- Whatever the operands, an instruction that is encoded takes at most 15 bytes.
pub encode_form-length :
    (ins : Instruction) (start : ℕ) (form : Form) (e : Emitted)
    → form_of ins.mnemonic ≡ some form
    → encode_form form ins start ≡ some e
    → length e.bytes ≤ 15
unfolding form_of
encode_form-length ins start form e known encoded = subst IsShortEmit encoded (
    encode_form-IsShortEmit form ins start
      (find_form-All (to_lower ins.mnemonic) forms form forms-All known))
