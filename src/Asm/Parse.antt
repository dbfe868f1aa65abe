-- ===== src/Asm/Parse.antt =====
-- The parser of assembly bodies: compiler/asm/parse.go.
use wrela.Prelude.{Bool, List, [], ◌∷◌, ◌++◌, map, none, some, if◌then◌else◌}
use wrela.Bytes.{Bytes}
use wrela.Strings.{CaseTables, trim_space, lower_text}
use wrela.Asm.{Operand, Instruction}
use wrela.Asm.Syntax.{
  valid_instructions, branch_ops, is_among, is_empty, split_statements, split_label, split_opcode,
  split_operands,
}
use wrela.Asm.Literal.{parse_operand}

-- The diagnostics ASM0001 (malformed, unknown) and ASM0002.
pub data ParseError : Type 0 where
  malformed_instruction : ParseError
  unknown_mnemonic invalid_operand : Bytes → ParseError

abbrev operand_behind : Operand → List Operand × List ParseError → List Operand × List ParseError
operand_behind op (ops, []) = (op ∷ ops, [])
operand_behind op (ops, e ∷ es) = ([], e ∷ es)

-- The loop over the operands: at the first bad one there are no operands.
unfoldable pub parse_operands :
    CaseTables → List Bytes → Bool → List Bytes → List Operand × List ParseError
parse_operands u params branch_target [] = ([], [])
parse_operands u params branch_target (raw ∷ more) =
    let rest = parse_operands u params branch_target more in
    if is_empty (trim_space raw)
    then rest
    else elim (parse_operand u (trim_space raw) params branch_target) [
      | none ↦ ([], invalid_operand (trim_space raw) ∷ [])
      | some op ↦ operand_behind op rest
    ]

-- A statement without a label.
unfoldable pub parse_instruction :
    CaseTables → List Bytes → Bytes → List Instruction × List ParseError
parse_instruction u params stmt =
    let (opcode, operands) = split_opcode stmt in
    let mnemonic = lower_text u opcode in
    if is_empty opcode
    then ([], malformed_instruction ∷ [])
    else if is_among valid_instructions mnemonic
    then (let (ops, errors) =
          parse_operands u params (is_among branch_ops mnemonic) (split_operands operands) in
        (record { mnemonic = mnemonic; operands = ops; label = [] } ∷ [], errors))
    else ([], unknown_mnemonic mnemonic ∷ [])

abbrev pub label_only : Bytes → Instruction
label_only label = record { mnemonic = []; operands = []; label = label }

-- The body of the loop over the statements.
unfoldable pub parse_statement :
    CaseTables → List Bytes → Bytes → List Instruction × List ParseError
parse_statement u params raw =
    let stmt = trim_space raw in
    if is_empty stmt then ([], []) else elim (split_label u stmt) [
      | none ↦ parse_instruction u params stmt
      | some (label, remainder) ↦
          let (instructions, errors) = parse_instruction u params (trim_space remainder) in
          if is_empty (trim_space remainder)
          then (label_only label ∷ [], [])
          else (label_only label ∷ instructions, errors)
    ]

unfoldable pub parse_statements :
    CaseTables → List Bytes → List Bytes → List Instruction × List ParseError
parse_statements u params [] = ([], [])
parse_statements u params (stmt ∷ more) =
    let (first, errors) = parse_statement u params stmt in
    let (rest, later) = parse_statements u params more in (first ++ rest, errors ++ later)

-- `ParseBody`
unfoldable pub parse_body : CaseTables → Bytes → List Bytes → List Instruction × List ParseError
parse_body u source params =
    parse_statements u (map (λ p. lower_text u (trim_space p)) params) (split_statements source)
