-- ===== src/Pecoff/Headers.antt =====
-- The headers of the image (compiler/pecoff/write.go), written into the zeroed file.
use wrela.Prelude.{ℕ, zero, suc, ◌+◌, ◌&&◌, List, [], ◌∷◌, ◌==◌, if◌then◌else◌, length, replicate}
use wrela.Bytes.{Bytes, le_bytes, write_at}
use wrela.Pecoff.{Section, file_alignment, section_alignment, base_code_rva}

abbrev pub pe_signature_offset : ℕ
pe_signature_offset = 0x80

abbrev pub optional_header_size : ℕ
optional_header_size = 0xF0

abbrev pub section_header_size : ℕ
section_header_size = 0x28

-- Little-endian fields, each an offset, a width and a value, in the order they are written.
unfoldable pub put_all : List (ℕ × ℕ × ℕ) → Bytes → Bytes
unfolding le_bytes write_at
put_all [] out = out
put_all ((offset, width, value) ∷ more) out =
    put_all more (write_at offset (le_bytes width value) out)

-- `writeDosHeaders`
unfoldable pub write_dos_headers : Bytes → Bytes
unfolding put_all
write_dos_headers out =
    write_at pe_signature_offset (b'P' ∷ b'E' ∷ 0 ∷ 0 ∷ [])
      (put_all ((0, 2, 0x5a4d) ∷ (0x3c, 4, pe_signature_offset) ∷ []) out)

-- `writeCoffHeader`
unfoldable pub write_coff_header : ℕ → Bytes → Bytes
unfolding put_all
write_coff_header number_of_sections out =
    let offset = pe_signature_offset + 4 in
    put_all
      ((offset, 2, 0x8664)
        ∷ (offset + 2, 2, number_of_sections)
        ∷ (offset + 16, 2, optional_header_size)
        ∷ (offset + 18, 2, 0x2022)
        ∷ [])
      out

-- The numbers that the optional header carries.
pub record Sizes : Type 0 where
  pub entry_point : ℕ
  pub size_of_code : ℕ
  pub size_of_data : ℕ
  pub size_of_headers : ℕ
  pub image_size : ℕ
  pub reloc_rva : ℕ
  pub reloc_size : ℕ

abbrev optional_header_offset : ℕ
optional_header_offset = 0x98

abbrev zero_directories : ℕ → ℕ → List (ℕ × ℕ × ℕ)
zero_directories zero offset = []
zero_directories (suc n) offset =
    (offset, 4, 0) ∷ (offset + 4, 4, 0) ∷ zero_directories n (offset + 8)

unfoldable pub optional_fields : List Section → Sizes → ℕ → List (ℕ × ℕ × ℕ)
unfolding base_code_rva
optional_fields sections z offset =
    (offset + 0, 2, 0x20B)
    ∷ (offset + 2, 1, 0)
    ∷ (offset + 3, 1, 0)
    ∷ (offset + 4, 4, z.size_of_code)
    ∷ (offset + 8, 4, z.size_of_data)
    ∷ (offset + 16, 4, z.entry_point)
    ∷ (offset + 20, 4, base_code_rva sections)
    ∷ (offset + 24, 8, 0x100000)
    ∷ (offset + 32, 4, section_alignment)
    ∷ (offset + 36, 4, file_alignment)
    ∷ (offset + 40, 2, 0)
    ∷ (offset + 42, 2, 0)
    ∷ (offset + 44, 2, 0)
    ∷ (offset + 46, 2, 0)
    ∷ (offset + 48, 2, 2)
    ∷ (offset + 50, 2, 0)
    ∷ (offset + 52, 4, 0)
    ∷ (offset + 56, 4, z.image_size)
    ∷ (offset + 60, 4, z.size_of_headers)
    ∷ (offset + 68, 2, 10)
    ∷ (offset + 72, 8, 0x100000)
    ∷ (offset + 80, 8, 0x1000)
    ∷ (offset + 88, 8, 0)
    ∷ (offset + 96, 8, 0)
    ∷ (offset + 104, 4, 0)
    ∷ (offset + 108, 4, 16)
    ∷ zero_directories 16 (offset + 0x70)

-- `writeOptionalHeader`
unfoldable pub write_optional_header : List Section → Sizes → Bytes → Bytes
unfolding put_all optional_fields
write_optional_header sections z out =
    let offset = optional_header_offset in
    let written = put_all (optional_fields sections z offset) out in
    if z.reloc_rva == 0 && z.reloc_size == 0
    then written
    else put_all ((offset + 0x98, 4, z.reloc_rva) ∷ (offset + 0x9C, 4, z.reloc_size) ∷ []) written

-- `encodeSectionName`
unfoldable pub encode_section_name : Bytes → Bytes
unfolding write_at
encode_section_name name = write_at 0 name (replicate 8 0)

-- `writeSectionHeaders`, from the header at `offset` on; each section with its raw pointer and size.
unfoldable pub write_section_headers : ℕ → List (Section × ℕ × ℕ) → Bytes → Bytes
unfolding put_all encode_section_name
write_section_headers offset [] out = out
write_section_headers offset ((s, raw_pointer, raw_size) ∷ more) out =
    write_section_headers (offset + section_header_size) more (
      put_all
        ((offset + 8, 4, length s.bytes)
          ∷ (offset + 12, 4, s.rva)
          ∷ (offset + 16, 4, raw_size)
          ∷ (offset + 20, 4, raw_pointer)
          ∷ (offset + 32, 2, 0)
          ∷ (offset + 34, 2, 0)
          ∷ (offset + 36, 4, s.characteristics)
          ∷ [])
        (write_at offset (encode_section_name s.name) out))
