-- ===== src/Tests/Compiler.antt =====
-- The lexer, the record layout and the image writer at concrete inputs.
use mathlib.Core.List.{Perm}
use wrela.Prelude.{
  is_some, ◌+◌, ◌%◌, ◌≤◌, ◌≡◌, refl, ◌&&◌, ◌||◌, leb, List, [], ◌∷◌, ◌++◌, some, map, length, All,
  arith,
}
use wrela.Bytes.{Bytes}
use wrela.Lex.{
  all, eof_token, all_loop, next_step, operator_step, single_step, rune_step, string_step,
  kind_of_word,
}
use wrela.Lex.Utf8.{decode_rune, encode_rune}
use wrela.Lex.Tokens.{
  Token, keyword_let, identifier, equal, string, eof, two_char_operator_at, single_char_token,
  keyword_kind,
}
use wrela.Lex.Scan.{
  Unicode, is_whitespace, is_line_comment, line_width, lex_ident, lex_int, runes_width, string_loop,
}
use wrela.Lex.Placed.{Follow, IsWithin, all-Follow}
use wrela.Layout.{Field, Record, compute}
use wrela.Layout.Placement.{IsRecord, compute-IsRecord}
use wrela.Pecoff.{
  Section, text_name, data_name, normalize_and_order_sections, assign_section_rvas,
  compute_image_size,
}
use wrela.Pecoff.Mapped.{Mapped, assign_section_rvas-Mapped}
use wrela.Pecoff.Relocs.{find_symbol}
use wrela.Pecoff.Efi.{write_efi}
use wrela.Pecoff.Order.{by_name, normalize_and_order_sections-Perm}
use wrela.Pecoff.Outcome.{is_written, all_found, write_efi-written}

-- The letters and digits of ASCII.
abbrev ascii : Unicode
ascii = record {
  is_letter = λ r. (leb b'a' r && leb r b'z') || (leb b'A' r && leb r b'Z');
  is_digit = λ r. leb b'0' r && leb r b'9';
}

-- let x = "a\n" // end
abbrev source : Bytes
source =
    b'l' ∷ b'e' ∷ b't' ∷ b' ' ∷ b'x' ∷ b' ' ∷ b'=' ∷ b' ' ∷ b'"' ∷ b'a' ∷ b'\\' ∷ b'n' ∷ b'"' ∷ b' '
    ∷ b'/' ∷ b'/' ∷ b'e' ∷ b'n' ∷ b'd' ∷ []

all-Follow_example :
    (body : List Token) × ((all ascii source).0 ≡ body ++ eof_token source ∷ [])
    × Follow source 0 body
    × All (IsWithin source) (all ascii source).1
all-Follow_example = all-Follow ascii source

-- The fields x: U8 and y: U32.
abbrev fields : List Field
fields =
    record { name = b'x' ∷ []; type_name = b'U' ∷ b'8' ∷ [] }
    ∷ record { name = b'y' ∷ []; type_name = b'U' ∷ b'3' ∷ b'2' ∷ [] }
    ∷ []

compute-IsRecord_example : (r : Record) × (compute fields ≡ some r) × IsRecord fields r
compute-IsRecord_example = compute-IsRecord fields

abbrev sections : List Section
sections =
    record { name = data_name; bytes = 1 ∷ 2 ∷ []; rva = 0; characteristics = 0 }
    ∷ record { name = text_name; bytes = 195 ∷ []; rva = 0; characteristics = 0 }
    ∷ []

assign_section_rvas-Mapped_example :
    let mapped = assign_section_rvas sections in
    Mapped 4096 mapped
    × All (λ s. s.rva + length s.bytes ≤ compute_image_size mapped) mapped
    × (compute_image_size mapped % 4096 ≡ 0)
    × (map (λ s. s.bytes) mapped ≡ map (λ s. s.bytes) sections)
assign_section_rvas-Mapped_example =
    assign_section_rvas-Mapped sections (refl, (refl, tt)) (omega arith)

normalize_and_order_sections-Perm_example :
    (normalize_and_order_sections sections ≡ by_name sections)
    × Perm (normalize_and_order_sections sections) sections
normalize_and_order_sections-Perm_example = normalize_and_order_sections-Perm sections

write_efi-written_example :
    is_written (
      write_efi (
        some (record {
          entry_symbol = b'e' ∷ [];
          sections = sections;
          symbols = some ((b'e' ∷ [], 4096) ∷ []);
          relocs = record { kind = 10; offset = 0; symbol = b'f' ∷ [] } ∷ [];
        })))
    ≡ (is_some (find_symbol (b'e' ∷ []) ((b'e' ∷ [], 4096) ∷ []))
        && all_found
            ((b'e' ∷ [], 4096) ∷ [])
            (record { kind = 10; offset = 0; symbol = b'f' ∷ [] } ∷ []))
write_efi-written_example =
    write_efi-written (b'e' ∷ []) sections ((b'e' ∷ [], 4096) ∷ [])
      (record { kind = 10; offset = 0; symbol = b'f' ∷ [] } ∷ [])

source_kinds :
    map (λ t. t.kind) (all ascii source).0 ≡ keyword_let ∷ identifier ∷ equal ∷ string ∷ eof ∷ []
unfolding all all_loop next_step operator_step single_step rune_step string_step kind_of_word
    is_whitespace is_line_comment line_width two_char_operator_at single_char_token keyword_kind
    decode_rune lex_ident lex_int runes_width string_loop encode_rune
source_kinds = refl
