-- ===== src/Pecoff.antt =====
-- The PE/COFF image: the sections of compiler/pecoff/write.go, their order, addresses and sizes.
pub mod Headers
pub mod Relocs
pub mod Efi
pub mod Align
pub mod Mapped
pub mod Outcome
pub mod Order
use Prim.Native.Nat.{bit_and}
use wrela.Prelude.{
  ℕ, ◌+◌, ◌-◌, Bool, true, false, List, [], ◌∷◌, map, Option, none, some, ◌==◌, ltb, if◌then◌else◌,
  length, add64, sub64,
}
use wrela.Prelude.Sorting.{sort_by}
use wrela.Bytes.{Bytes, bytes_eq}

abbrev pub file_alignment : ℕ
file_alignment = 0x200

abbrev pub section_alignment : ℕ
section_alignment = 0x1000

-- `codegen.Section`
pub record Section : Type 0 where
  pub name : Bytes
  pub bytes : Bytes
  pub rva : ℕ
  pub characteristics : ℕ

-- `alignUp`; `x &^ m` clears in `x` the bits of `m`.
unfoldable pub align_up : ℕ → ℕ → ℕ
align_up value alignment =
    let x = sub64 (add64 value alignment) 1 in
    if alignment == 0 then value else x - bit_and x (sub64 alignment 1)

abbrev pub text_name : Bytes
text_name = (b'.' ∷ b't' ∷ b'e' ∷ b'x' ∷ b't' ∷ [])

abbrev pub rdata_name : Bytes
rdata_name = (b'.' ∷ b'r' ∷ b'd' ∷ b'a' ∷ b't' ∷ b'a' ∷ [])

abbrev pub data_name : Bytes
data_name = (b'.' ∷ b'd' ∷ b'a' ∷ b't' ∷ b'a' ∷ [])

abbrev pub reloc_name : Bytes
reloc_name = (b'.' ∷ b'r' ∷ b'e' ∷ b'l' ∷ b'o' ∷ b'c' ∷ [])

-- The map `sectionCharacteristics`.
unfoldable pub section_characteristics : Bytes → Option ℕ
section_characteristics name =
    if bytes_eq name text_name
    then some 0x60000020
    else if bytes_eq name rdata_name
    then some 0x40000040
    else if bytes_eq name data_name
    then some 0xC0000040
    else if bytes_eq name reloc_name
    then some 0x42000040
    else none

unfoldable pub priority : Bytes → ℕ
priority name =
    if bytes_eq name text_name
    then 0
    else if bytes_eq name rdata_name
    then 1
    else if bytes_eq name data_name
    then 2
    else if bytes_eq name reloc_name
    then 3
    else 4

abbrev pub rank : Section → ℕ
unfolding priority
rank s = priority s.name

-- `normalizeAndOrderSections`; the sort is stable.
unfoldable pub normalize_and_order_sections : List Section → List Section
unfolding sort_by
normalize_and_order_sections sections = sort_by rank sections

abbrev with_characteristics : Section → Option ℕ → Section
with_characteristics s none = s
with_characteristics s (some c) = record s { characteristics = c }

-- `assignSectionCharacteristics`
unfoldable pub assign_section_characteristics : List Section → List Section
unfolding section_characteristics
assign_section_characteristics [] = []
assign_section_characteristics (s ∷ ss) =
    (if s.characteristics == 0 then with_characteristics s (section_characteristics s.name) else s)
    ∷ assign_section_characteristics ss

-- The bytes of address space that a section takes: at least one.
abbrev pub section_size : Section → ℕ
section_size s = if length s.bytes == 0 then 1 else length s.bytes

-- The loop of `assignSectionRVAs`.
unfoldable pub assign_rvas_from : ℕ → List Section → List Section
assign_rvas_from next [] = []
assign_rvas_from next (s ∷ ss) =
    let rva = if s.rva == 0 then next else s.rva in
    record s { rva = rva }
    ∷ assign_rvas_from (align_up (add64 rva (section_size s)) section_alignment) ss

-- `assignSectionRVAs`
unfoldable pub assign_section_rvas : List Section → List Section
unfolding assign_rvas_from
assign_section_rvas sections = assign_rvas_from 0x1000 sections

-- `computeDataSizes`, on the sizes so far.
unfoldable pub data_sizes_onto : ℕ × ℕ → List Section → ℕ × ℕ
data_sizes_onto sizes [] = sizes
data_sizes_onto (code, other) (s ∷ ss) =
    let size = align_up (length s.bytes) section_alignment in
    if bytes_eq s.name text_name
    then data_sizes_onto (size, other) ss
    else data_sizes_onto (code, add64 other size) ss

unfoldable pub compute_data_sizes : List Section → ℕ × ℕ
unfolding data_sizes_onto
compute_data_sizes sections = data_sizes_onto (0, 0) sections

abbrev pub section_limit : Section → ℕ
section_limit s = align_up (add64 s.rva (length s.bytes)) section_alignment

-- The loop of `computeImageSize`.
unfoldable pub image_end_from : ℕ → List Section → ℕ
image_end_from end [] = end
image_end_from end (s ∷ ss) =
    image_end_from (if ltb end (section_limit s) then section_limit s else end) ss

-- `computeImageSize`
unfoldable pub compute_image_size : List Section → ℕ
unfolding image_end_from
compute_image_size sections = align_up (image_end_from 0 sections) section_alignment

-- `locateRelocDirectory`
unfoldable pub locate_reloc_directory : List Section → ℕ × ℕ
locate_reloc_directory [] = (0, 0)
locate_reloc_directory (s ∷ ss) =
    if bytes_eq s.name reloc_name then (s.rva, length s.bytes) else locate_reloc_directory ss

-- `baseCodeRVA`
unfoldable pub base_code_rva : List Section → ℕ
base_code_rva [] = 0x1000
base_code_rva (s ∷ ss) = if bytes_eq s.name text_name then s.rva else base_code_rva ss
