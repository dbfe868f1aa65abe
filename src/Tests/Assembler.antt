-- ===== src/Tests/Assembler.antt =====
-- The assembler on a short loop with a call.
use wrela.Prelude.{
  inl, ◌+◌, ◌≤◌, ◌≡◌, refl, true, false, List, [], ◌∷◌, ◌++◌, some, length, inr, arith,
}
use wrela.Bytes.{Bytes, le_bytes, write_at, overlay}
use wrela.Asm.{
  Instruction, Operand, reg_operand, label_ref, mem_operand, MemOperand, to_lower, lower_loop,
}
use wrela.Asm.Regs.{Reg}
use wrela.Asm.Operands.{modrm, sib, rex_for_operand, encode_mem_disp, encode_mem_modrm}
use wrela.Asm.Moves.{encode_mov, encode_mov_to_reg, encode_mov_reg_mem, sized}
use wrela.Asm.Forms.{
  mov_form, Emitted, find_form, form_of, encode_form, encode_near_branch, encode_cond_branch,
  encode_call,
}
use wrela.Asm.Encode.{
  find_label, assemble_one, assemble, start, is_external_call_branch, resolve_at, resolve, encode,
}
use wrela.Asm.Memory.{decode_mem, encode_mem_modrm-decodes}
use wrela.Asm.Sizes.{encode_form-length}
use wrela.Asm.Leads.{LeadsTo, encode-LeadsTo}
use wrela.Asm.Places.{assemble-label}

abbrev pub rax : Reg
rax = record {
  name = b'r' ∷ b'a' ∷ b'x' ∷ [];
  width = 64;
  low3 = 0;
  high = false;
  rex = false;
  control = false;
  segment = false;
}

abbrev pub rbp : Reg
rbp = record {
  name = b'r' ∷ b'b' ∷ b'p' ∷ [];
  width = 64;
  low3 = 5;
  high = false;
  rex = false;
  control = false;
  segment = false;
}

abbrev top : Bytes
top = b't' ∷ b'o' ∷ b'p' ∷ []

abbrev helper : Bytes
helper = b'_' ∷ b'w' ∷ b'r' ∷ b'e' ∷ b'l' ∷ b'a' ∷ b'_' ∷ b'x' ∷ []

abbrev instruction : Bytes → List Operand → Instruction
instruction mnemonic operands = record { mnemonic = mnemonic; operands = operands; label = [] }

abbrev at_rbp : MemOperand
at_rbp = record { base = rbp; disp = 0; width = 0 }

abbrev load : Instruction
load = instruction (b'm' ∷ b'o' ∷ b'v' ∷ []) (reg_operand rax ∷ mem_operand at_rbp ∷ [])

abbrev tail : List Instruction
tail =
    load
    ∷ instruction (b'j' ∷ b'n' ∷ b'e' ∷ []) (label_ref top ∷ [])
    ∷ instruction (b'c' ∷ b'a' ∷ b'l' ∷ b'l' ∷ []) (label_ref helper ∷ [])
    ∷ []

abbrev mark : Instruction
mark = record { mnemonic = []; operands = []; label = top }

abbrev program : List Instruction
program = instruction (b'c' ∷ b'l' ∷ b'i' ∷ []) [] ∷ mark ∷ tail

-- The loop goes back by ten bytes, and the call becomes a relocation.
program_encoded : encode program true ≡ record {
  out =
      0xFA ∷ 0x48 ∷ 0x8B ∷ 0x45 ∷ 0x00 ∷ 0x0F ∷ 0x85 ∷ 0xF6 ∷ 0xFF ∷ 0xFF ∷ 0xFF ∷ 0xE8 ∷ 0 ∷ 0 ∷ 0
      ∷ 0 ∷ [];
  relocs = record { offset = 12; symbol = helper } ∷ [];
  diags = [];
}
unfolding encode assemble assemble_one form_of find_form to_lower lower_loop encode_form encode_mov
    encode_mov_to_reg encode_mov_reg_mem sized encode_mem_modrm encode_mem_disp modrm sib
    rex_for_operand encode_cond_branch encode_near_branch encode_call resolve resolve_at find_label
    is_external_call_branch write_at overlay le_bytes
program_encoded = refl

abbrev earlier : List Instruction
earlier = instruction (b'c' ∷ b'l' ∷ b'i' ∷ []) [] ∷ mark ∷ load ∷ []

abbrev loop : Instruction
loop = instruction (b'j' ∷ b'n' ∷ b'e' ∷ []) (label_ref top ∷ [])

abbrev last : List Instruction
last = instruction (b'c' ∷ b'a' ∷ b'l' ∷ b'l' ∷ []) (label_ref helper ∷ []) ∷ []

encode-LeadsTo_example :
    let s = assemble start (earlier ++ loop ∷ last) in
    let code = (encode (earlier ++ loop ∷ last) true).out in
    (length code ≡ length s.out)
    × LeadsTo code (length (assemble start earlier).out + 2) (find_label top s.labels)
encode-LeadsTo_example =
    encode-LeadsTo earlier last loop true 2 top (inr (inr (inl refl), refl)) refl

assemble-label_example :
    find_label top (assemble start program).labels
    ≡ some (length (assemble start (instruction (b'c' ∷ b'l' ∷ b'i' ∷ []) [] ∷ [])).out)
assemble-label_example =
    assemble-label (instruction (b'c' ∷ b'l' ∷ b'i' ∷ []) [] ∷ []) tail mark refl
      (refl, (refl, (refl, tt)))

abbrev loaded : Emitted
loaded = record { bytes = 0x48 ∷ 0x8B ∷ 0x45 ∷ 0x00 ∷ []; fixups = [] }

load-form : form_of load.mnemonic ≡ some mov_form
unfolding form_of find_form to_lower lower_loop
load-form = refl

load-encoded : encode_form mov_form load 1 ≡ some loaded
unfolding encode_form encode_mov encode_mov_to_reg encode_mov_reg_mem sized encode_mem_modrm
    encode_mem_disp modrm sib rex_for_operand
load-encoded = refl

encode_form-length_example : length loaded.bytes ≤ 15
encode_form-length_example = encode_form-length load 1 mov_form loaded load-form load-encoded

abbrev far_back : MemOperand
far_back = record { base = rbp; disp = 18446744073709551416; width = 0 }

encode_mem_modrm-decodes_example :
    decode_mem (encode_mem_modrm 2 far_back ++ 0x90 ∷ [])
    ≡ some (2, 5, 18446744073709551416, 0x90 ∷ [])
encode_mem_modrm-decodes_example =
    encode_mem_modrm-decodes 2 far_back (0x90 ∷ []) (omega arith) (omega arith)
      (inr (omega arith, omega arith))
