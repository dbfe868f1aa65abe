-- ===== src/Asm/Places.antt =====
-- Which position a label has.
use wrela.Prelude.{
  ◌≡◌, refl, ap, ◌∙◌, true, false, List, [], ◌∷◌, ◌++◌, Option, none, some, length, All, ltb,
}
use wrela.Bytes.{Bytes, bytes_eq}
use wrela.Bytes.Laws.{bytes_eq_refl}
use wrela.Asm.{Instruction}
use wrela.Asm.Forms.{Form, Emitted, form_of, encode_form}
use wrela.Asm.Encode.{
  find_label, Assembly, with_label, with_form, with_emitted, assemble_one, assemble, start,
}

pub assemble-append :
    (s : Assembly) (xs ys : List Instruction) → assemble s (xs ++ ys) ≡ assemble (assemble s xs) ys
unfolding assemble
assemble-append s [] ys = refl
assemble-append s (x ∷ xs) ys = assemble-append (assemble_one s x) xs ys

with_emitted-labels :
    (s : Assembly) (form : Form) (o : Option Emitted) → (with_emitted s form o).labels ≡ s.labels
with_emitted-labels s form none = refl
with_emitted-labels s form (some e) = refl

with_form-labels :
    (s : Assembly) (ins : Instruction) (o : Option Form) → (with_form s ins o).labels ≡ s.labels
with_form-labels s ins none = refl
with_form-labels s ins (some form) =
    with_emitted-labels s form (encode_form form ins (length s.out))

assemble_one-labels :
    (s : Assembly) (ins : Instruction)
    → (assemble_one s ins).labels ≡ (with_label s ins.label).labels
unfolding assemble_one
assemble_one-labels s ins = with_form-labels (with_label s ins.label) ins (form_of ins.mnemonic)

with_label-keeps :
    (s : Assembly) (label name : Bytes)
    → bytes_eq label name ≡ false
    → find_label name (with_label s label).labels ≡ find_label name s.labels
unfolding find_label
with_label-keeps s [] name h = refl
with_label-keeps s (ch ∷ label) name h = rw h refl

assemble-keeps :
    (s : Assembly) (more : List Instruction) (name : Bytes)
    → All (λ ins. bytes_eq ins.label name ≡ false) more
    → find_label name (assemble s more).labels ≡ find_label name s.labels
unfolding assemble
assemble-keeps s [] name h = refl
assemble-keeps s (ins ∷ more) name h =
    assemble-keeps (assemble_one s ins) more name h.1
    ∙ ap (find_label name) (assemble_one-labels s ins)
    ∙ with_label-keeps s ins.label name h.0

with_label-finds :
    (s : Assembly) (label : Bytes)
    → ltb 0 (length label) ≡ true
    → find_label label (with_label s label).labels ≡ some (length s.out)
unfolding find_label
with_label-finds s [] h = absurd cc
with_label-finds s (ch ∷ label) h = rw (bytes_eq_refl (ch ∷ label)) refl

-- A label that is not empty and not given again later stands for the length of the code before
-- its instruction.
pub assemble-label :
    (before after : List Instruction) (ins : Instruction)
    → ltb 0 (length ins.label) ≡ true
    → All (λ later. bytes_eq later.label ins.label ≡ false) after
    → find_label ins.label (assemble start (before ++ ins ∷ after)).labels
      ≡ some (length (assemble start before).out)
unfolding assemble
assemble-label before after ins named unique =
    ap (λ s. find_label ins.label s.labels) (assemble-append start before (ins ∷ after))
    ∙ assemble-tail (assemble start before)
  where
    assemble-tail :
        (s : Assembly)
        → find_label ins.label (assemble s (ins ∷ after)).labels ≡ some (length s.out)
    assemble-tail s =
        assemble-keeps (assemble_one s ins) after ins.label unique
        ∙ ap (find_label ins.label) (assemble_one-labels s ins)
        ∙ with_label-finds s ins.label named
