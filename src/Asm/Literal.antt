-- ===== src/Asm/Literal.antt =====
-- The operands in an assembly body: `parseOperand` of compiler/asm/parse.go.
use wrela.Prelude.{
  ℕ, ◌-◌, Bool, false, not, ◌&&◌, ◌||◌, List, [], ◌∷◌, Option, none, some, ◌==◌, if◌then◌else◌,
  length, take, drop,
}
use wrela.Bytes.{Bytes, bytes_eq, has_prefix}
use wrela.Strconv.{parse_int, parse_uint}
use wrela.Strings.{CaseTables, trim_space, lower_text, split_first, split_last, remove_blanks}
use wrela.Asm.{
  Operand, reg_operand, imm_operand, label_ref, field_operand, param_operand, mem_operand,
  field_offset_mem_operand,
}
use wrela.Asm.Regs.{lookup}
use wrela.Asm.Syntax.{is_among, is_identifier, is_dotted_identifier, is_empty}

abbrev or_number : Option ℕ → Option ℕ → Option ℕ
or_number none other = other
or_number (some n) other = some n

abbrev is_signed : Bytes → Bool
is_signed text = has_prefix (b'-' ∷ []) text || has_prefix (b'+' ∷ []) text

-- `parseIntLiteral`, as a two's complement.
unfoldable pub parse_int_literal : Bytes → Option ℕ
parse_int_literal raw =
    let text = trim_space raw in
    or_number (parse_int text) (if is_signed text then none else parse_uint text)

abbrev without_plus : Bytes → Bytes
without_plus [] = []
without_plus (b ∷ bs) = if b == b'+' then bs else b ∷ bs

abbrev field_reference : CaseTables → Option (Bytes × Bytes) → Option (Bytes × Bytes)
field_reference u none = none
field_reference u (some (type_name, field)) =
    if is_empty type_name
      || is_empty field
      || not (is_dotted_identifier u type_name)
      || not (is_identifier u field)
    then none
    else some (type_name, field)

-- `parseFieldOffsetReference`
unfoldable pub parse_field_offset_reference : CaseTables → Bytes → Option (Bytes × Bytes)
parse_field_offset_reference u text = field_reference u (split_last b'.' (without_plus text))

abbrev is_sign : ℕ → Bool
is_sign b = b == b'+' || b == b'-'

-- A base register without a displacement.
unfoldable pub parse_base : CaseTables → Bytes → Option Operand
parse_base u text = elim (lookup (lower_text u text)) [
  | none ↦ none
  | some base ↦ some (mem_operand (record { base = base; disp = 0; width = 0 }))
]

-- The displacement of `[base + displacement]`, a number or a field.
unfoldable pub parse_displacement : CaseTables → Bytes → Bytes → Option Operand
parse_displacement u base_text disp_text = elim (lookup (lower_text u base_text)) [
  | none ↦ none
  | some base ↦
      let compact = remove_blanks disp_text in
      elim (or_number (parse_int disp_text) (parse_int compact)) [
        | some delta ↦ some (mem_operand (record { base = base; disp = delta; width = 0 }))
        | none ↦ elim (parse_field_offset_reference u compact) [
          | some (type_name, field) ↦ some (field_offset_mem_operand base type_name field 0)
          | none ↦ none
        ]
      ]
]

-- `parseMemOperand`: the base ends at the first sign.
unfoldable pub parse_mem_operand : CaseTables → Bytes → Option Operand
parse_mem_operand u raw =
    let text = trim_space raw in
    if is_empty text then none else elim (split_first is_sign text) [
      | none ↦ parse_base u text
      | some (before, behind) ↦
          let base_text = trim_space before in
          if is_empty base_text
          then none
          else parse_displacement u base_text (trim_space (drop (length before) text))
    ]

abbrev in_brackets : Bytes → Bool
in_brackets text = elim text [
  | [] ↦ false
  | b ∷ bs ↦ b == b'[' && bytes_eq (drop (length bs) (b ∷ bs)) (b']' ∷ [])
]

abbrev self_prefix : Bytes
self_prefix = b's' ∷ b'e' ∷ b'l' ∷ b'f' ∷ b'.' ∷ []

abbrev literal_operand : Option ℕ → Option Operand
literal_operand none = none
literal_operand (some value) = some (imm_operand value)

-- `parseOperand`
unfoldable pub parse_operand : CaseTables → Bytes → List Bytes → Bool → Option Operand
parse_operand u raw params branch_target =
    let lower = lower_text u raw in
    if is_empty raw
    then none
    else if has_prefix self_prefix lower
    then (let field = trim_space (drop 5 lower) in
        if is_empty field || not (is_identifier u field)
        then none
        else some (field_operand (b's' ∷ b'e' ∷ b'l' ∷ b'f' ∷ []) field))
    else if in_brackets lower
    then parse_mem_operand u (trim_space (take (length raw - 2) (drop 1 raw)))
    else elim (lookup lower) [
      | some r ↦ some (reg_operand r)
      | none ↦
          if is_among params lower
          then some (param_operand lower)
          else if branch_target && is_identifier u lower
          then some (label_ref lower)
          else literal_operand (parse_int_literal raw)
    ]
