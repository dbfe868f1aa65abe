-- ===== src/Asm/Syntax.antt =====
-- How the text of an assembly body is split: the first half of compiler/asm/parse.go.
use wrela.Prelude.{
  ℕ, zero, suc, ◌-◌, Bool, true, false, ◌&&◌, ◌||◌, List, [], ◌∷◌, ◌++◌, Option, none, some, ◌==◌,
  if◌then◌else◌,
}
use wrela.Bytes.{Bytes, bytes_eq}
use wrela.Lex.Utf8.{decode_rune, encode_rune}
use wrela.Strings.{CaseTables, trim_space, split_on, split_first, cut_comment}

-- `validInstructions`
abbrev pub valid_instructions : List Bytes
valid_instructions =
    (b'h' ∷ b'l' ∷ b't' ∷ [])
    ∷ (b'p' ∷ b'a' ∷ b'u' ∷ b's' ∷ b'e' ∷ [])
    ∷ (b'r' ∷ b'e' ∷ b't' ∷ [])
    ∷ (b'r' ∷ b'e' ∷ b't' ∷ b'f' ∷ b'q' ∷ [])
    ∷ (b'i' ∷ b'r' ∷ b'e' ∷ b't' ∷ b'q' ∷ [])
    ∷ (b'c' ∷ b'l' ∷ b'i' ∷ [])
    ∷ (b's' ∷ b't' ∷ b'i' ∷ [])
    ∷ (b'o' ∷ b'u' ∷ b't' ∷ [])
    ∷ (b'i' ∷ b'n' ∷ [])
    ∷ (b'm' ∷ b'o' ∷ b'v' ∷ [])
    ∷ (b'a' ∷ b'd' ∷ b'd' ∷ [])
    ∷ (b'a' ∷ b'n' ∷ b'd' ∷ [])
    ∷ (b's' ∷ b'u' ∷ b'b' ∷ [])
    ∷ (b'c' ∷ b'm' ∷ b'p' ∷ [])
    ∷ (b's' ∷ b'h' ∷ b'r' ∷ [])
    ∷ (b'c' ∷ b'a' ∷ b'l' ∷ b'l' ∷ [])
    ∷ (b'j' ∷ b'm' ∷ b'p' ∷ [])
    ∷ (b'j' ∷ b'e' ∷ [])
    ∷ (b'j' ∷ b'n' ∷ b'e' ∷ [])
    ∷ (b'j' ∷ b'b' ∷ [])
    ∷ (b'j' ∷ b'b' ∷ b'e' ∷ [])
    ∷ (b'j' ∷ b'l' ∷ [])
    ∷ (b'j' ∷ b'l' ∷ b'e' ∷ [])
    ∷ (b'j' ∷ b'g' ∷ [])
    ∷ (b'j' ∷ b'g' ∷ b'e' ∷ [])
    ∷ (b'p' ∷ b'u' ∷ b's' ∷ b'h' ∷ [])
    ∷ (b'p' ∷ b'o' ∷ b'p' ∷ [])
    ∷ (b'l' ∷ b'g' ∷ b'd' ∷ b't' ∷ [])
    ∷ (b'l' ∷ b'i' ∷ b'd' ∷ b't' ∷ [])
    ∷ []

-- `branchOps`
abbrev pub branch_ops : List Bytes
branch_ops =
    (b'j' ∷ b'm' ∷ b'p' ∷ [])
    ∷ (b'j' ∷ b'e' ∷ [])
    ∷ (b'j' ∷ b'n' ∷ b'e' ∷ [])
    ∷ (b'j' ∷ b'b' ∷ [])
    ∷ (b'j' ∷ b'b' ∷ b'e' ∷ [])
    ∷ (b'j' ∷ b'l' ∷ [])
    ∷ (b'j' ∷ b'l' ∷ b'e' ∷ [])
    ∷ (b'j' ∷ b'g' ∷ [])
    ∷ (b'j' ∷ b'g' ∷ b'e' ∷ [])
    ∷ (b'c' ∷ b'a' ∷ b'l' ∷ b'l' ∷ [])
    ∷ []

-- Membership in a set of strings.
unfoldable pub is_among : List Bytes → Bytes → Bool
is_among [] text = false
is_among (known ∷ more) text = bytes_eq known text || is_among more text

-- The loop of `isIdentifier` over the runes behind the first byte.
unfoldable pub is_identifier_rest : CaseTables → ℕ → Bytes → Bool
is_identifier_rest u skip [] = true
is_identifier_rest u (suc skip) (b ∷ bs) = is_identifier_rest u skip bs
is_identifier_rest u zero (b ∷ bs) =
    let (rune, width) = decode_rune (b ∷ bs) in
    (rune == b'_' || u.is_letter rune || u.is_digit rune) && is_identifier_rest u (width - 1) bs

-- `isIdentifier`. The first byte is taken for a rune.
unfoldable pub is_identifier : CaseTables → Bytes → Bool
is_identifier u [] = false
is_identifier u (b ∷ bs) = (b == b'_' || u.is_letter b) && is_identifier_rest u 0 bs

unfoldable pub are_identifiers : CaseTables → List Bytes → Bool
are_identifiers u [] = true
are_identifiers u (part ∷ parts) = is_identifier u part && are_identifiers u parts

-- `isDottedIdentifier`
unfoldable pub is_dotted_identifier : CaseTables → Bytes → Bool
is_dotted_identifier u s = are_identifiers u (split_on b'.' s)

abbrev pub is_empty : Bytes → Bool
is_empty [] = true
is_empty (b ∷ bs) = false

-- The pieces of one line, trimmed, without the empty ones.
unfoldable pub statements_of : List Bytes → List Bytes
statements_of [] = []
statements_of (piece ∷ pieces) =
    let rest = statements_of pieces in
    if is_empty (trim_space piece) then rest else trim_space piece ∷ rest

unfoldable pub statements_of_lines : List Bytes → List Bytes
statements_of_lines [] = []
statements_of_lines (line ∷ lines) =
    statements_of (split_on b';' (cut_comment line)) ++ statements_of_lines lines

-- `splitStatements`
unfoldable pub split_statements : Bytes → List Bytes
split_statements source = statements_of_lines (split_on 10 source)

abbrev label_of : CaseTables → Option (Bytes × Bytes) → Option (Bytes × Bytes)
label_of u none = none
label_of u (some (before, behind)) =
    if is_identifier u (trim_space before)
    then some (trim_space before, trim_space behind)
    else none

-- `splitLabel`: the label and the rest.
unfoldable pub split_label : CaseTables → Bytes → Option (Bytes × Bytes)
split_label u stmt = label_of u (split_first (λ b. b == b':') stmt)

-- `splitOpcode`
unfoldable pub split_opcode : Bytes → Bytes × Bytes
split_opcode stmt = elim (split_first (λ b. b == 32 || b == 9) stmt) [
  | none ↦ (stmt, [])
  | some (before, behind) ↦ (trim_space before, trim_space behind)
]

abbrev depth_behind : ℕ → ℕ → ℕ
depth_behind rune depth =
    if rune == b'[' then suc depth else if rune == b']' then depth - 1 else depth

-- The loop of `splitOperands`: commas outside of brackets separate.
unfoldable pub operands_loop : ℕ → ℕ → Bytes → Bytes → List Bytes
operands_loop skip depth cur [] = if is_empty (trim_space cur) then [] else trim_space cur ∷ []
operands_loop (suc skip) depth cur (b ∷ bs) = operands_loop skip depth cur bs
operands_loop zero depth cur (b ∷ bs) =
    let (rune, width) = decode_rune (b ∷ bs) in
    let separates = rune == b',' && depth == 0 in
    let rest =
      operands_loop (width - 1) (depth_behind rune depth)
        (if separates then [] else cur ++ encode_rune rune) bs in
    if separates then trim_space cur ∷ rest else rest

-- `splitOperands`
unfoldable pub split_operands : Bytes → List Bytes
split_operands text = if is_empty (trim_space text) then [] else operands_loop 0 0 [] text
