-- ===== src/Asm/Accepted.antt =====
-- What the parser accepts, the encoder knows.
use wrela.Prelude.{
  ◌≡◌, refl, inl, inr, subst, true, Bool-cases, List, [], ◌∷◌, map, length, Option, none, some,
  Option-cases, is_some, All, All-append, arith,
}
use wrela.Bytes.{Bytes, bytes_eq}
use wrela.Bytes.Laws.{bytes_eq→≡}
use wrela.Strings.{CaseTables, lower_text, trim_space}
use wrela.Asm.{Instruction, to_lower, lower_loop}
use wrela.Asm.Forms.{Form, Emitted, form_of, find_form, encode_form}
use wrela.Asm.Encode.{
  AsmError, unsupported_form, unknown_instruction, Assembly, with_label, with_emitted, with_form,
  assemble_one, assemble, start,
}
use wrela.Asm.Parse.{parse_instruction, parse_statement, parse_statements, parse_body}
use wrela.Asm.Syntax.{valid_instructions, is_among, split_opcode, split_label, split_statements}

All-is_among {κ} :
    (P : Bytes → Type κ) (known : List Bytes) (text : Bytes)
    → All P known
    → is_among known text ≡ true
    → P text
unfolding is_among
All-is_among P [] text p h = absurd cc
All-is_among P (k ∷ more) text p h = elim (Bool-cases (bytes_eq k text)) [
  | inl e ↦ subst P (bytes_eq→≡ k text e) p.0
  | inr e ↦ All-is_among P more text p.1 (rw e at h)
]

-- The encoder has a form for the mnemonic.
abbrev pub IsKnown : Bytes → Type 0
IsKnown mnemonic = is_some (form_of mnemonic) ≡ true

valid-IsKnown : All IsKnown valid_instructions
unfolding form_of find_form to_lower lower_loop
valid-IsKnown = ground arith

empty-IsKnown : IsKnown []
unfolding form_of find_form to_lower lower_loop
empty-IsKnown = refl

AllKnown : List Instruction → Type 0
AllKnown instructions = All (λ ins. IsKnown ins.mnemonic) instructions

parse_instruction-AllKnown :
    (u : CaseTables) (params : List Bytes) (stmt : Bytes)
    → AllKnown (parse_instruction u params stmt).0
unfolding parse_instruction AllKnown
parse_instruction-AllKnown u params stmt =
    let mnemonic = lower_text u (split_opcode stmt).0 in
    elim (Bool-cases (is_among valid_instructions mnemonic)) [
      | inl e ↦ ground (arith, e, All-is_among IsKnown valid_instructions mnemonic valid-IsKnown e)
      | inr e ↦ ground (arith, e)
    ]

parse_statement-AllKnown :
    (u : CaseTables) (params : List Bytes) (stmt : Bytes)
    → AllKnown (parse_statement u params stmt).0
unfolding parse_statement AllKnown
parse_statement-AllKnown u params stmt = elim (Option-cases (split_label u (trim_space stmt))) [
  | inl e ↦ rw e (ground (arith, parse_instruction-AllKnown u params (trim_space stmt)))
  | inr ((label, remainder), e) ↦
      rw e
        (ground (arith, empty-IsKnown, parse_instruction-AllKnown u params (trim_space remainder)))
]

parse_statements-AllKnown :
    (u : CaseTables) (params stmts : List Bytes) → AllKnown (parse_statements u params stmts).0
unfolding parse_statements AllKnown
parse_statements-AllKnown u params [] = tt
parse_statements-AllKnown u params (stmt ∷ more) =
    All-append (λ ins. IsKnown ins.mnemonic) (parse_statement u params stmt).0
      (parse_statements u params more).0 (parse_statement-AllKnown u params stmt)
      (parse_statements-AllKnown u params more)

-- Any diagnostic but that an instruction is unknown.
abbrev pub IsNotUnknown : AsmError → Type 0
IsNotUnknown (unknown_instruction mnemonic) = ⊥
IsNotUnknown _ = Unit

AllNotUnknown : List AsmError → Type 0
AllNotUnknown errors = All IsNotUnknown errors

with_emitted-AllNotUnknown :
    (s : Assembly) (form : Form) (o : Option Emitted)
    → AllNotUnknown s.diags
    → AllNotUnknown (with_emitted s form o).diags
unfolding AllNotUnknown
with_emitted-AllNotUnknown s form none h =
    All-append IsNotUnknown s.diags (unsupported_form form ∷ []) h (tt, tt)
with_emitted-AllNotUnknown s form (some e) h = h

with_form-AllNotUnknown :
    (s : Assembly) (ins : Instruction) (o : Option Form)
    → is_some o ≡ true
    → AllNotUnknown s.diags
    → AllNotUnknown (with_form s ins o).diags
with_form-AllNotUnknown s ins none known h = absurd cc
with_form-AllNotUnknown s ins (some form) known h =
    with_emitted-AllNotUnknown s form (encode_form form ins (length s.out)) h

with_label-AllNotUnknown :
    (s : Assembly) (label : Bytes)
    → AllNotUnknown s.diags
    → AllNotUnknown (with_label s label).diags
with_label-AllNotUnknown s [] h = h
with_label-AllNotUnknown s (ch ∷ label) h = h

assemble-AllNotUnknown :
    (s : Assembly) (instructions : List Instruction)
    → AllKnown instructions
    → AllNotUnknown s.diags
    → AllNotUnknown (assemble s instructions).diags
unfolding assemble assemble_one AllKnown
assemble-AllNotUnknown s [] known h = h
assemble-AllNotUnknown s (ins ∷ more) known h =
    assemble-AllNotUnknown (assemble_one s ins) more known.1 (
      with_form-AllNotUnknown (with_label s ins.label) ins (form_of ins.mnemonic) known.0
        (with_label-AllNotUnknown s ins.label h))

-- Whatever the source and the parameters of an assembly body, the encoder has a form for the
-- mnemonic of every instruction that the parser gives, so its pass over the instructions reports
-- no unknown instruction.
pub parse_body-IsKnown :
    (u : CaseTables) (source : Bytes) (params : List Bytes)
    → All (λ ins. IsKnown ins.mnemonic) (parse_body u source params).0
      × All IsNotUnknown (assemble start (parse_body u source params).0).diags
unfolding parse_body AllKnown AllNotUnknown
parse_body-IsKnown u source params =
    let known =
      parse_statements-AllKnown u (map (λ p. lower_text u (trim_space p)) params)
        (split_statements source) in
    (known, assemble-AllNotUnknown start (parse_body u source params).0 known tt)
