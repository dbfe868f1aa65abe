-- ===== src/Asm/Slots.antt =====
-- Where the branches leave room for their displacements.
use wrela.Prelude.{
  ℕ, ◌+◌, true, false, ◌≤◌, ◌≡◌, refl, sym, ap, ◌∙◌, List, [], ◌∷◌, ◌++◌, Option, none, some,
  length, length-append, append-nil, append_assoc, arith,
}
use wrela.Bytes.{Bytes}
use wrela.Asm.{Operand, label_ref, Instruction}
use wrela.Asm.Moves.{
  encode_mov, encode_binary_imm, encode_binary_reg_reg, encode_binary_reg_mem, encode_push_pop,
  encode_shift_imm, encode_desc, encode_out, encode_in,
}
use wrela.Asm.Forms.{
  BranchFixup, Emitted, Form, plain, or_else, encode_form, encode_call, encode_near_branch,
  encode_cond_branch, form_of, nothing, fixed, out_form, in_form, mov_form, add_form, and_form,
  sub_form, cmp_form, shr_form, call_form, jmp_form, push_form, pop_form, lgdt_form, lidt_form,
  branch_form,
}
use wrela.Asm.{reg_operand, mem_operand}
use wrela.Asm.Encode.{Assembly, assemble_one, assemble, with_label, with_form, with_emitted}

-- The four-byte slots of the fixups stand one behind the other between two positions, and each
-- ends where its branch ends.
abbrev pub Slots : ℕ → ℕ → List BranchFixup → Type 0
Slots low limit [] = low ≤ limit
Slots low limit (f ∷ fs) =
    (low ≤ f.rel_pos) × (f.next_pc ≡ f.rel_pos + 4) × Slots f.next_pc limit fs

pub Slots-le : (low limit : ℕ) (fs : List BranchFixup) → Slots low limit fs → low ≤ limit
Slots-le low limit [] s = s
Slots-le low limit (f ∷ fs) s = omega (arith, s.0, s.1, Slots-le f.next_pc limit fs s.2)

Slots-widened :
    (low limit lower higher : ℕ) (fs : List BranchFixup)
    → lower ≤ low
    → limit ≤ higher
    → Slots low limit fs
    → Slots lower higher fs
Slots-widened low limit lower higher [] h k s = omega arith
Slots-widened low limit lower higher (f ∷ fs) h k s =
    (omega (arith, s.0), s.1, Slots-widened f.next_pc limit f.next_pc higher fs (omega arith) k s.2)

Slots-append :
    (low middle limit : ℕ) (fs gs : List BranchFixup)
    → Slots low middle fs
    → Slots middle limit gs
    → Slots low limit (fs ++ gs)
Slots-append low middle limit [] gs s t = Slots-widened middle limit low limit gs s (omega arith) t
Slots-append low middle limit (f ∷ fs) gs s t =
    (s.0, s.1, Slots-append f.next_pc middle limit fs gs s.2 t)

-- The slots of an instruction at `start` lie within its bytes.
abbrev Fits : ℕ → Option Emitted → Type 0
Fits start none = Unit
Fits start (some e) = Slots start (start + length e.bytes) e.fixups

plain-Fits : (start : ℕ) (o : Option Bytes) → Fits start (plain o)
plain-Fits start none = tt
plain-Fits start (some bytes) = omega arith

encode_near_branch-Fits :
    (ins : Instruction) (start opcode : ℕ) → Fits start (encode_near_branch ins start 5 opcode)
unfolding encode_near_branch
encode_near_branch-Fits ins start opcode = near ins.operands
  where
    near :
        (ops : List Operand)
        → Fits start (encode_near_branch (record ins { operands = ops }) start 5 opcode)
    near (label_ref target ∷ []) = (omega arith, omega arith, omega arith)
    near _ = tt

encode_cond_branch-Fits :
    (ins : Instruction) (start opcode : ℕ) → Fits start (encode_cond_branch ins start 6 opcode)
unfolding encode_cond_branch
encode_cond_branch-Fits ins start opcode = cond ins.operands
  where
    cond :
        (ops : List Operand)
        → Fits start (encode_cond_branch (record ins { operands = ops }) start 6 opcode)
    cond (label_ref target ∷ []) = (omega arith, omega arith, omega arith)
    cond _ = tt

encode_call-Fits : (ins : Instruction) (start : ℕ) → Fits start (encode_call ins start)
unfolding encode_call
encode_call-Fits ins start = call ins.operands
  where
    call : (ops : List Operand) → Fits start (encode_call (record ins { operands = ops }) start)
    call (reg_operand reg ∷ []) = omega arith
    call (mem_operand mem ∷ []) = omega arith
    call _ = encode_near_branch-Fits _ start 0xE8

encode_form-Fits :
    (form : Form) (ins : Instruction) (start : ℕ) → Fits start (encode_form form ins start)
unfolding encode_form
encode_form-Fits call_form ins start = encode_call-Fits ins start
encode_form-Fits jmp_form ins start = encode_near_branch-Fits ins start 0xE9
encode_form-Fits (branch_form opcode) ins start = encode_cond_branch-Fits ins start opcode
encode_form-Fits nothing ins start = plain-Fits start (some [])
encode_form-Fits (fixed bytes) ins start = plain-Fits start (some bytes)
encode_form-Fits out_form ins start = plain-Fits start (encode_out ins.operands)
encode_form-Fits in_form ins start = plain-Fits start (encode_in ins.operands)
encode_form-Fits mov_form ins start = plain-Fits start (encode_mov ins.operands)
encode_form-Fits and_form ins start = plain-Fits start (encode_binary_reg_reg ins.operands 0x21)
encode_form-Fits shr_form ins start = plain-Fits start (encode_shift_imm ins.operands 5)
encode_form-Fits push_form ins start = plain-Fits start (encode_push_pop ins.operands true)
encode_form-Fits pop_form ins start = plain-Fits start (encode_push_pop ins.operands false)
encode_form-Fits lgdt_form ins start = plain-Fits start (encode_desc ins.operands 2)
encode_form-Fits lidt_form ins start = plain-Fits start (encode_desc ins.operands 3)
encode_form-Fits add_form ins start = plain-Fits start (
    or_else (encode_binary_reg_reg ins.operands 0x01) (
      or_else (encode_binary_reg_mem ins.operands 0x03)
        (encode_binary_imm ins.operands 0 0x83 0x81)))
encode_form-Fits sub_form ins start =
    plain-Fits start (
      or_else (encode_binary_reg_mem ins.operands 0x2B)
        (encode_binary_imm ins.operands 5 0x83 0x81))
encode_form-Fits cmp_form ins start = plain-Fits start (
    or_else (encode_binary_reg_reg ins.operands 0x39) (
      or_else (encode_binary_reg_mem ins.operands 0x3B)
        (encode_binary_imm ins.operands 7 0x83 0x81)))

-- All slots lie within the code.
abbrev pub HasSlots : Assembly → Type 0
HasSlots s = Slots 0 (length s.out) s.fixups

-- The code, the fixups and the slots only grow.
pub record Grows (s t : Assembly) : Type 0 where
  pub code : Bytes
  pub extends : t.out ≡ s.out ++ code
  pub later : List BranchFixup
  pub adds : t.fixups ≡ s.fixups ++ later
  pub slots : HasSlots t

with_emitted-Grows :
    (s : Assembly) (form : Form) (o : Option Emitted)
    → HasSlots s
    → Fits (length s.out) o
    → Grows s (with_emitted s form o)
with_emitted-Grows s form none h f = record {
  code = [];
  extends = sym (append-nil s.out);
  later = [];
  adds = sym (append-nil s.fixups);
  slots = h;
}
with_emitted-Grows s form (some e) h f = record {
  code = e.bytes;
  extends = refl;
  later = e.fixups;
  adds = refl;
  slots =
      let size = length-append s.out e.bytes in
      rw size (Slots-append 0 (length s.out) (length s.out + length e.bytes) s.fixups e.fixups h f);
}

with_form-Grows :
    (s : Assembly) (ins : Instruction) (o : Option Form) → HasSlots s → Grows s (with_form s ins o)
with_form-Grows s ins none h = record {
  code = [];
  extends = sym (append-nil s.out);
  later = [];
  adds = sym (append-nil s.fixups);
  slots = h;
}
with_form-Grows s ins (some form) h =
    with_emitted-Grows s form _ h (encode_form-Fits form ins (length s.out))

pub with_label-same :
    (s : Assembly) (label : Bytes)
    → ((with_label s label).out ≡ s.out) × ((with_label s label).fixups ≡ s.fixups)
with_label-same s [] = (refl, refl)
with_label-same s (ch ∷ label) = (refl, refl)

pub assemble_one-Grows :
    (s : Assembly) (ins : Instruction) → HasSlots s → Grows s (assemble_one s ins)
unfolding assemble_one
assemble_one-Grows s ins h = labelled ins.label
  where
    labelled : (label : Bytes) → Grows s (with_form (with_label s label) ins (form_of ins.mnemonic))
    labelled [] = with_form-Grows s ins (form_of ins.mnemonic) h
    labelled (ch ∷ label) =
        let g = with_form-Grows (with_label s (ch ∷ label)) ins (form_of ins.mnemonic) h in
        record {
          code = g.code;
          extends = g.extends;
          later = g.later;
          adds = g.adds;
          slots = g.slots;
        }

pub assemble-Grows :
    (s : Assembly) (more : List Instruction) → HasSlots s → Grows s (assemble s more)
unfolding assemble
assemble-Grows s [] h = record {
  code = [];
  extends = sym (append-nil s.out);
  later = [];
  adds = sym (append-nil s.fixups);
  slots = h;
}
assemble-Grows s (ins ∷ more) h =
    let g = assemble_one-Grows s ins h in
    let rest = assemble-Grows (assemble_one s ins) more g.slots in
    record {
      code = g.code ++ rest.code;
      extends =
          rest.extends ∙ ap (λ l. l ++ rest.code) g.extends ∙ append_assoc s.out g.code rest.code;
      later = g.later ++ rest.later;
      adds =
          rest.adds ∙ ap (λ l. l ++ rest.later) g.adds ∙ append_assoc s.fixups g.later rest.later;
      slots = rest.slots;
    }
