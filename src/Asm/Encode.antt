-- ===== src/Asm/Encode.antt =====
-- `encode` of compiler/asm/encode.go: one pass over the instructions, then the branches.
use wrela.Prelude.{
  ℕ, ◌+◌, ◌-◌, Bool, ◌&&◌, ◌||◌, List, [], ◌∷◌, ◌++◌, Option, none, some, ltb, leb, if◌then◌else◌,
  u32, length,
}
use wrela.Bytes.{Bytes, bytes_eq, has_prefix, le_bytes, write_at}
use wrela.Asm.{Instruction, to_lower}
use wrela.Asm.Forms.{Form, form_of, BranchFixup, Emitted, encode_form}

-- The diagnostics, without their texts.
pub data AsmError : Type 0 where
  unsupported_form : Form → AsmError
  unknown_instruction unknown_label branch_out_of_range : Bytes → AsmError

-- The map `labels` is the list of its assignments, the latest first.
abbrev pub Labels : Type 0
Labels = List (Bytes × ℕ)

unfoldable pub find_label : Bytes → Labels → Option ℕ
find_label name [] = none
find_label name ((label, position) ∷ more) =
    if bytes_eq label name then some position else find_label name more

pub record Assembly : Type 0 where
  pub out : Bytes
  pub labels : Labels
  pub fixups : List BranchFixup
  pub diags : List AsmError

abbrev pub with_label : Assembly → Bytes → Assembly
with_label s [] = s
with_label s (ch ∷ label) = record s { labels = (ch ∷ label, length s.out) ∷ s.labels }

abbrev pub with_error : Assembly → AsmError → Assembly
with_error s e = record s { diags = s.diags ++ e ∷ [] }

abbrev pub with_emitted : Assembly → Form → Option Emitted → Assembly
with_emitted s form none = with_error s (unsupported_form form)
with_emitted s form (some e) = record s { out = s.out ++ e.bytes; fixups = s.fixups ++ e.fixups }

abbrev pub with_form : Assembly → Instruction → Option Form → Assembly
with_form s ins none = with_error s (unknown_instruction ins.mnemonic)
with_form s ins (some form) = with_emitted s form (encode_form form ins (length s.out))

-- The body of the loop over the instructions.
unfoldable pub assemble_one : Assembly → Instruction → Assembly
assemble_one s ins = with_form (with_label s ins.label) ins (form_of ins.mnemonic)

unfoldable pub assemble : Assembly → List Instruction → Assembly
assemble s [] = s
assemble s (ins ∷ more) = assemble (assemble_one s ins) more

abbrev pub start : Assembly
start = record { out = []; labels = []; fixups = []; diags = [] }

pub record ExternalCallReloc : Type 0 where
  pub offset : ℕ
  pub symbol : Bytes

pub record Assembled : Type 0 where
  pub out : Bytes
  pub relocs : List ExternalCallReloc
  pub diags : List AsmError

-- `isExternalCallBranch`
unfoldable pub is_external_call_branch : BranchFixup → Bool
is_external_call_branch fix =
    (bytes_eq (to_lower fix.mnemonic) (b'c' ∷ b'a' ∷ b'l' ∷ b'l' ∷ [])
      || bytes_eq (to_lower fix.mnemonic) (b'j' ∷ b'm' ∷ b'p' ∷ []))
    && has_prefix (b'_' ∷ b'w' ∷ b'r' ∷ b'e' ∷ b'l' ∷ b'a' ∷ b'_' ∷ []) fix.target

-- `target - fix.nextPC` fits 32 bits, as a signed number.
abbrev pub in_range : BranchFixup → ℕ → Bool
in_range fix target = leb fix.next_pc (target + 2147483648) && ltb target (fix.next_pc + 2147483648)

-- The displacement as its two's complement.
abbrev pub displacement : BranchFixup → ℕ → ℕ
displacement fix target = u32 (target + 18446744073709551616 - fix.next_pc)

abbrev pub unresolved : Bool → Assembled → BranchFixup → Assembled
unresolved external r fix =
    if external && is_external_call_branch fix
    then record r { relocs = r.relocs ++ record { offset = fix.rel_pos; symbol = fix.target } ∷ [] }
    else record r { diags = r.diags ++ unknown_label fix.target ∷ [] }

-- The body of the loop over the fixups, with the label's position.
unfoldable pub resolve_at : Bool → Assembled → BranchFixup → Option ℕ → Assembled
resolve_at external r fix none = unresolved external r fix
resolve_at external r fix (some target) =
    if in_range fix target
    then record r { out = write_at fix.rel_pos (le_bytes 4 (displacement fix target)) r.out }
    else record r { diags = r.diags ++ branch_out_of_range fix.target ∷ [] }

unfoldable pub resolve : Bool → Labels → Assembled → List BranchFixup → Assembled
resolve external labels r [] = r
resolve external labels r (fix ∷ more) =
    resolve external labels (resolve_at external r fix (find_label fix.target labels)) more

abbrev pub unpatched : Assembly → Assembled
unpatched s = record { out = s.out; relocs = []; diags = s.diags }

-- `encode`
unfoldable pub encode : List Instruction → Bool → Assembled
encode instructions external =
    let s = assemble start instructions in resolve external s.labels (unpatched s) s.fixups
