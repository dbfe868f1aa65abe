-- ===== src/Pecoff/Relocs.antt =====
-- The base relocations: `buildRelocData` of compiler/pecoff/write.go.
use Prim.Native.Nat.{bit_and, bit_or}
use wrela.Prelude.{
  ℕ, ◌-◌, ◌*◌, ◌%◌, List, [], ◌∷◌, ◌++◌, Option, none, some, ◌==◌, if◌then◌else◌, length, replicate,
  add64, u16, u32,
}
use wrela.Prelude.Sorting.{sort_by}
use wrela.Bytes.{Bytes, bytes_eq, le_bytes, write_at}

-- `codegen.Reloc`
pub record Reloc : Type 0 where
  pub kind : ℕ
  pub offset : ℕ
  pub symbol : Bytes

-- The map `Symbols`.
abbrev pub Symbols : Type 0
Symbols = List (Bytes × ℕ)

unfoldable pub find_symbol : Bytes → Symbols → Option ℕ
find_symbol name [] = none
find_symbol name ((symbol, rva) ∷ more) =
    if bytes_eq symbol name then some rva else find_symbol name more

-- The entries of each page, a page once.
abbrev pub Pages : Type 0
Pages = List (ℕ × List ℕ)

-- `entriesByPage[page] = append(entriesByPage[page], entry)`
unfoldable pub append_entry : ℕ → ℕ → Pages → Pages
append_entry page entry [] = (page, entry ∷ []) ∷ []
append_entry page entry ((p, entries) ∷ more) =
    if p == page
    then (p, entries ++ entry ∷ []) ∷ more
    else (p, entries) ∷ append_entry page entry more

unfoldable pub entries_by_page : Symbols → List Reloc → Pages → Option Pages
unfolding append_entry find_symbol
entries_by_page symbols [] pages = some pages
entries_by_page symbols (r ∷ rs) pages = elim (find_symbol r.symbol symbols) [
  | none ↦ none
  | some symbol_rva ↦
      let location = add64 symbol_rva r.offset in
      let low = bit_and location 0xFFF in
      entries_by_page symbols rs
        (append_entry (u32 (location - low)) (bit_or (u16 (u16 r.kind * 4096)) (u16 low)) pages)
]

unfoldable pub entry_bytes : List ℕ → Bytes
unfolding le_bytes
entry_bytes [] = []
entry_bytes (entry ∷ entries) = le_bytes 2 entry ++ entry_bytes entries

abbrev padding : Bytes → Bytes
padding block = if length block % 4 == 0 then [] else replicate (4 - length block % 4) 0

-- The block of one page.
unfoldable pub page_block : ℕ → List ℕ → Bytes
unfolding entry_bytes write_at
page_block page entries =
    let raw = replicate 8 0 ++ entry_bytes (sort_by (λ entry. entry) entries) in
    let block = raw ++ padding raw in
    write_at 4 (le_bytes 4 (length block)) (write_at 0 (le_bytes 4 page) block)

unfoldable pub page_blocks : Pages → Bytes
unfolding page_block
page_blocks [] = []
page_blocks ((page, entries) ∷ more) = page_block page entries ++ page_blocks more

-- `buildRelocData`; `none` is the error that a symbol is not found.
unfoldable pub build_reloc_data : Symbols → List Reloc → Option Bytes
unfolding entries_by_page page_blocks
build_reloc_data symbols relocs = elim (entries_by_page symbols relocs []) [
  | none ↦ none
  | some pages ↦ some (page_blocks (sort_by (λ p. p.0) pages))
]
