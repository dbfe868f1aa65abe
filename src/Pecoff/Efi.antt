-- ===== src/Pecoff/Efi.antt =====
-- `WriteEFI` of compiler/pecoff/write.go.
use wrela.Prelude.{
  ℕ, ◌+◌, ◌*◌, List, [], ◌∷◌, Option, none, some, ◌==◌, if◌then◌else◌, length, replicate, add64,
}
use wrela.Bytes.{Bytes, bytes_eq, write_at}
use wrela.Pecoff.{
  Section, align_up, file_alignment, reloc_name, normalize_and_order_sections,
  assign_section_characteristics, assign_section_rvas, compute_data_sizes, compute_image_size,
  locate_reloc_directory,
}
use wrela.Pecoff.Headers.{
  Sizes, section_header_size, write_dos_headers, write_coff_header, write_optional_header,
  write_section_headers,
}
use wrela.Pecoff.Relocs.{Reloc, Symbols, find_symbol, build_reloc_data}

-- The part of `codegen.Image` that the writer reads; a nil map is `none`.
pub record Image : Type 0 where
  pub entry_symbol : Bytes
  pub sections : List Section
  pub symbols : Option Symbols
  pub relocs : List Reloc

pub data WriteError : Type 0 where
  nil_image nil_symbols entry_symbol_not_found relocation_symbol_not_found : WriteError

pub data Written : Type 0 where
  written : Bytes → Written
  failed : WriteError → Written

-- The data of the first section named `.reloc` is replaced, or the section is appended.
unfoldable pub with_reloc_section : Bytes → List Section → List Section
with_reloc_section bytes [] =
    record { name = reloc_name; bytes = bytes; rva = 0; characteristics = 0x42000040 } ∷ []
with_reloc_section bytes (s ∷ ss) =
    if bytes_eq s.name reloc_name
    then record s { bytes = bytes } ∷ ss
    else s ∷ with_reloc_section bytes ss

-- Each section with its raw pointer and raw size, and the end of the file.
unfoldable pub raw_places : ℕ → List Section → List (Section × ℕ × ℕ) × ℕ
raw_places next [] = ([], next)
raw_places next (s ∷ ss) =
    let raw_size = align_up (length s.bytes) file_alignment in
    let (places, end) = raw_places (add64 next raw_size) ss in ((s, next, raw_size) ∷ places, end)

unfoldable pub copy_sections : List (Section × ℕ × ℕ) → Bytes → Bytes
unfolding write_at
copy_sections [] out = out
copy_sections ((s, raw_pointer, raw_size) ∷ more) out =
    copy_sections more (write_at raw_pointer s.bytes out)

abbrev section_table_offset : ℕ
section_table_offset = 0x188

-- The bytes of the file, from the sections in their order and the address of the entry point.
unfoldable pub write_image : ℕ → List Section → Bytes
unfolding write_dos_headers write_coff_header write_optional_header write_section_headers
    copy_sections raw_places
write_image entry_point ordered =
    let size_of_headers =
      align_up (section_table_offset + length ordered * section_header_size) file_alignment in
    let (places, end) = raw_places size_of_headers ordered in
    let (code, other) = compute_data_sizes ordered in
    let (reloc_rva, reloc_size) = locate_reloc_directory ordered in
    let sizes : Sizes = record {
      entry_point = entry_point;
      size_of_code = code;
      size_of_data = other;
      size_of_headers = size_of_headers;
      image_size = compute_image_size ordered;
      reloc_rva = reloc_rva;
      reloc_size = reloc_size;
    } in
    copy_sections places (
      write_section_headers section_table_offset places (
        write_optional_header ordered sizes
          (write_coff_header (length ordered) (write_dos_headers (replicate end 0)))))

abbrev pub finish : ℕ → List Section → Written
finish entry_point sections = written (
    write_image entry_point (
      assign_section_rvas (assign_section_characteristics (normalize_and_order_sections sections))))

abbrev pub with_relocs : ℕ → List Section → Option Bytes → Written
with_relocs entry_point sections none = failed relocation_symbol_not_found
with_relocs entry_point sections (some bytes) =
    finish entry_point (with_reloc_section bytes sections)

abbrev pub with_entry : Image → Symbols → Option ℕ → Written
with_entry img symbols none = failed entry_symbol_not_found
with_entry img symbols (some entry_point) =
    if length img.relocs == 0
    then finish entry_point img.sections
    else with_relocs entry_point img.sections (build_reloc_data symbols img.relocs)

abbrev pub with_symbols : Image → Option Symbols → Written
with_symbols img none = failed nil_symbols
with_symbols img (some symbols) = with_entry img symbols (find_symbol img.entry_symbol symbols)

-- `WriteEFI`; a nil pointer is `none`.
unfoldable pub write_efi : Option Image → Written
write_efi none = failed nil_image
write_efi (some img) = with_symbols img img.symbols
