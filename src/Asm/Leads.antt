-- ===== src/Asm/Leads.antt =====
-- Every branch of a program, in the code of `encode` in compiler/asm/encode.go.
use wrela.Prelude.{
  ℕ, ◌+◌, ◌≤◌, ◌<◌, ◌≡◌, refl, sym, ap, subst, ◌∙◌, ◌↔◌, ◌⊎◌, inl, inr, Bool, true, List, [], ◌∷◌,
  ◌++◌, Option, none, some, length, length-append, drop-append, append_assoc, All, u32, arith,
}
use wrela.Bytes.{Bytes, le_value, read_le}
use wrela.Asm.{label_ref, Instruction}
use wrela.Asm.Forms.{Form, BranchFixup, Emitted, form_of, encode_form}
use wrela.Asm.Encode.{
  find_label, Assembly, assemble, assemble_one, start, in_range, with_label, with_form, encode,
}
use wrela.Asm.Slots.{assemble_one-Grows, assemble-Grows}
use wrela.Asm.Places.{assemble-append}
use wrela.Asm.Branches.{Resolves, encode-Resolves}
use wrela.Asm.Jumps.{IsBranch, IsBranch-Encodes}

-- The way from `next` to `target` fits 32 bits, as a signed number.
abbrev pub IsWithinReach : ℕ → ℕ → Type 0
IsWithinReach next target = (next ≤ target + 2147483648) × (target < next + 2147483648)

-- The four bytes at `slot` lead from behind them to the target, modulo 2^32. They are zero if
-- there is no target or the way does not fit 32 bits.
abbrev pub LeadsTo : Bytes → ℕ → Option ℕ → Type 0
LeadsTo code slot none = read_le slot 4 code ≡ 0
LeadsTo code slot (some target) =
    (IsWithinReach (slot + 4) target × (u32 (slot + 4 + read_le slot 4 code) ≡ u32 target))
    ⊎ ((¬ IsWithinReach (slot + 4) target) × (read_le slot 4 code ≡ 0))

in_range_iff :
    (f : BranchFixup) (target : ℕ) → (in_range f target ≡ true) ↔ IsWithinReach f.next_pc target
in_range_iff f target = ground arith

-- An instruction that is encoded appends its bytes and its fixups.
assemble_one-appends :
    (s : Assembly) (ins : Instruction) (form : Form) (e : Emitted)
    → form_of ins.mnemonic ≡ some form
    → encode_form form ins (length s.out) ≡ some e
    → ((assemble_one s ins).out ≡ s.out ++ e.bytes)
      × ((assemble_one s ins).fixups ≡ s.fixups ++ e.fixups)
unfolding assemble_one
assemble_one-appends s ins form e named encoded = labelled ins.label
  where
    labelled :
        (label : Bytes)
        → ((with_form (with_label s label) ins (form_of ins.mnemonic)).out ≡ s.out ++ e.bytes)
          × ((with_form (with_label s label) ins (form_of ins.mnemonic)).fixups
              ≡ s.fixups ++ e.fixups)
    labelled [] = rw (named, encoded) (refl, refl)
    labelled (ch ∷ label) = rw (named, encoded) (refl, refl)

All-middle {ℓ κ} :
    {A : Type ℓ} (P : A → Type κ) (xs : List A) (y : A) (ys : List A) → All P (xs ++ y ∷ ys) → P y
All-middle P [] y ys h = h.0
All-middle P (x ∷ xs) y ys h = All-middle P xs y ys h.1

-- The slot of a branch holds zeros before the branches are resolved.
read_le-zeros :
    (front opcode back : Bytes) (lead : ℕ)
    → length opcode ≡ lead
    → read_le (length front + lead) 4 ((front ++ (opcode ++ 0 ∷ 0 ∷ 0 ∷ 0 ∷ [])) ++ back) ≡ 0
unfolding read_le le_value
read_le-zeros front opcode back lead sized =
    let size : length (front ++ opcode) ≡ length front + lead =
      length-append front opcode ∙ ap (λ n. length front + n) sized in
    rw
      (
        append_assoc front (opcode ++ 0 ∷ 0 ∷ 0 ∷ 0 ∷ []) back,
        append_assoc opcode (0 ∷ 0 ∷ 0 ∷ 0 ∷ []) back,
        ← append_assoc front opcode (0 ∷ 0 ∷ 0 ∷ 0 ∷ back),
        drop-append (front ++ opcode) (0 ∷ 0 ∷ 0 ∷ 0 ∷ back) (length front + lead) size,
      )
      refl

Resolves-LeadsTo :
    (old code : Bytes) (f : BranchFixup) (o : Option ℕ) (slot : ℕ)
    → f.rel_pos ≡ slot
    → f.next_pc ≡ slot + 4
    → read_le slot 4 old ≡ 0
    → Resolves old code f o
    → LeadsTo code slot o
Resolves-LeadsTo old code f none slot placed ends zero r =
    ap (λ p. read_le p 4 code) (sym placed) ∙ r ∙ ap (λ p. read_le p 4 old) placed ∙ zero
Resolves-LeadsTo old code f (some target) slot placed ends zero (inl (near, reaches)) = inl (
  subst (λ n. IsWithinReach n target) ends ((in_range_iff f target).0 near),
  ap (λ n. u32 (n + read_le slot 4 code)) (sym ends)
      ∙ ap (λ p. u32 (f.next_pc + read_le p 4 code)) (sym placed)
      ∙ reaches,
)
Resolves-LeadsTo old code f (some target) slot placed ends zero (inr (far, same)) = inr (
  λ near.
      let within =
        (in_range_iff f target).1 (subst (λ n. IsWithinReach n target) (sym ends) near) in
      cc,
  ap (λ p. read_le p 4 code) (sym placed) ∙ same ∙ ap (λ p. read_le p 4 old) placed ∙ zero,
)

-- Every call or jump of a program to a label, spelt in lower case, whatever stands before and
-- after it: in the finished code the four bytes behind its opcode, which begins where the code of
-- the instructions before it ends and takes one byte for a call or an unconditional jump and two
-- for a conditional one, lead from the end of the branch to the label, modulo 2^32; and they are
-- zero if the label is unknown or too far for 32 bits. The finished code is as long as the code of
-- the one pass.
pub encode-LeadsTo :
    (before after : List Instruction) (ins : Instruction) (external : Bool) (lead : ℕ)
    (target : Bytes)
    → IsBranch ins.mnemonic lead
    → ins.operands ≡ label_ref target ∷ []
    → let s = assemble start (before ++ ins ∷ after) in
      let code = (encode (before ++ ins ∷ after) external).out in
      (length code ≡ length s.out)
      × LeadsTo code (length (assemble start before).out + lead) (find_label target s.labels)
unfolding assemble
encode-LeadsTo before after ins external lead target branch to =
    let s = assemble start (before ++ ins ∷ after) in
    let s1 = assemble start before in
    let s2 = assemble_one s1 ins in
    let slots = (assemble-Grows start before (omega arith)).slots in
    let (form, e, named, encoded, c) = IsBranch-Encodes ins (length s1.out) target to lead branch in
    let (out, fixups) = assemble_one-appends s1 ins form e named encoded in
    let g = assemble-Grows s2 after (assemble_one-Grows s1 ins slots).slots in
    let split : s ≡ assemble s2 after = assemble-append start before (ins ∷ after) in
    let recorded : s.fixups ≡ s1.fixups ++ c.fixup ∷ g.later =
      ap (λ x. x.fixups) split
      ∙ g.adds
      ∙ ap (λ l. l ++ g.later) (fixups ∙ ap (λ l. s1.fixups ++ l) c.fixed)
      ∙ append_assoc s1.fixups (c.fixup ∷ []) g.later in
    let emitted : s.out ≡ (s1.out ++ (c.opcode ++ 0 ∷ 0 ∷ 0 ∷ 0 ∷ [])) ++ g.code =
      ap (λ x. x.out) split
      ∙ g.extends
      ∙ ap (λ l. l ++ g.code) (out ∙ ap (λ l. s1.out ++ l) c.bytes) in
    let (size, all) = encode-Resolves (before ++ ins ∷ after) external in
    let code = (encode (before ++ ins ∷ after) external).out in
    let resolved : Resolves s.out code c.fixup (find_label c.fixup.target s.labels) =
      All-middle (λ f. Resolves s.out code f (find_label f.target s.labels)) s1.fixups c.fixup
        g.later
        (subst (All (λ f. Resolves s.out code f (find_label f.target s.labels))) recorded all) in
    (
      size,
      Resolves-LeadsTo s.out code c.fixup (find_label target s.labels) (length s1.out + lead)
          c.placed c.ends
          (ap (read_le (length s1.out + lead) 4) emitted
            ∙ read_le-zeros s1.out c.opcode g.code lead c.sized)
          (subst (λ l. Resolves s.out code c.fixup (find_label l s.labels)) c.leads resolved),
    )
