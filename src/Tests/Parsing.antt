-- ===== src/Tests/Parsing.antt =====
-- The parser of assembly bodies on a short one.
use wrela.Prelude.{◌+◌, ◌≡◌, refl, ◌&&◌, ◌||◌, [], ◌∷◌, All, leb, if◌then◌else◌}
use wrela.Bytes.{Bytes}
use wrela.Lex.Utf8.{decode_rune, encode_rune}
use wrela.Strconv.{
  parse_int, parse_uint, split_base, digits_loop, append_digit, digit_value, underscores_loop,
}
use wrela.Strings.{
  CaseTables, trim_space, trim_start, trim_end, lower_text, lower_text_loop, split_on, split_first,
  split_last, cut_comment, remove_blanks,
}
use wrela.Asm.{reg_operand, mem_operand, label_ref}
use wrela.Asm.Regs.{lookup, find_reg}
use wrela.Asm.Parse.{
  parse_body, parse_statements, parse_statement, parse_instruction, parse_operands, label_only,
  unknown_mnemonic,
}
use wrela.Asm.Syntax.{
  split_operands, operands_loop, split_opcode, split_label, split_statements, statements_of_lines,
  statements_of, is_identifier, is_identifier_rest, is_among,
}
use wrela.Asm.Literal.{
  parse_operand, parse_mem_operand, parse_base, parse_displacement, parse_int_literal,
}
use wrela.Asm.Encode.{assemble, start}
use wrela.Asm.Accepted.{IsKnown, IsNotUnknown, parse_body-IsKnown}
use wrela.Tests.Assembler.{rax, rbp}

-- The letters and digits of ASCII.
abbrev ascii : CaseTables
ascii = record {
  is_letter = λ r. leb b'A' r && leb r b'Z' || leb b'a' r && leb r b'z';
  is_digit = λ r. leb b'0' r && leb r b'9';
  lower_rune = λ r. if leb b'A' r && leb r b'Z' then r + 32 else r;
}

-- "Up: mov rax, [rbp+8]; jne Up; nop // x"
abbrev source : Bytes
source =
    b'U' ∷ b'p' ∷ b':' ∷ 32 ∷ b'm' ∷ b'o' ∷ b'v' ∷ 32 ∷ b'r' ∷ b'a' ∷ b'x' ∷ b',' ∷ 32 ∷ b'[' ∷ b'r'
    ∷ b'b' ∷ b'p' ∷ b'+' ∷ b'8' ∷ b']' ∷ b';' ∷ b'j' ∷ b'n' ∷ b'e' ∷ 32 ∷ b'U' ∷ b'p' ∷ b';' ∷ b'n'
    ∷ b'o' ∷ b'p' ∷ 32 ∷ b'/' ∷ b'/' ∷ b'x' ∷ []

-- The label keeps its case, the name in the branch does not.
parsed : parse_body ascii source [] ≡ (
  label_only (b'U' ∷ b'p' ∷ [])
      ∷ record {
        mnemonic = b'm' ∷ b'o' ∷ b'v' ∷ [];
        operands = reg_operand rax ∷ mem_operand (record { base = rbp; disp = 8; width = 0 }) ∷ [];
        label = [];
      }
      ∷ record {
        mnemonic = b'j' ∷ b'n' ∷ b'e' ∷ [];
        operands = label_ref (b'u' ∷ b'p' ∷ []) ∷ [];
        label = [];
      }
      ∷ [],
  unknown_mnemonic (b'n' ∷ b'o' ∷ b'p' ∷ []) ∷ [],
)
unfolding parse_body parse_statements parse_statement parse_instruction parse_operands parse_operand
    parse_mem_operand parse_base parse_displacement parse_int_literal split_operands operands_loop
    split_opcode split_label split_statements statements_of_lines statements_of is_identifier
    is_identifier_rest is_among trim_space trim_start trim_end lower_text lower_text_loop split_on
    split_first split_last cut_comment remove_blanks parse_int parse_uint split_base digits_loop
    append_digit digit_value underscores_loop decode_rune encode_rune lookup find_reg
parsed = refl

parse_body-IsKnown_example :
    All (λ ins. IsKnown ins.mnemonic) (parse_body ascii source []).0
    × All IsNotUnknown (assemble start (parse_body ascii source []).0).diags
parse_body-IsKnown_example = parse_body-IsKnown ascii source []
