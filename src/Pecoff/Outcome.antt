-- ===== src/Pecoff/Outcome.antt =====
-- When the writer of compiler/pecoff/write.go gives a file.
use wrela.Prelude.{
  is_some, ℕ, ◌≡◌, refl, sym, ap, ◌∙◌, true, false, Bool, ◌&&◌, List, [], ◌∷◌, Option, none, some,
  Option-cases, inl, inr, arith, length, ◌==◌,
}
use wrela.Pecoff.{Section}
use wrela.Pecoff.Relocs.{Reloc, Symbols, Pages, find_symbol, entries_by_page, build_reloc_data}
use wrela.Pecoff.Efi.{Written, written, failed, write_efi, with_relocs}

abbrev pub is_written : Written → Bool
is_written (written file) = true
is_written (failed why) = false

abbrev pub all_found : Symbols → List Reloc → Bool
all_found symbols [] = true
all_found symbols (r ∷ rs) = is_some (find_symbol r.symbol symbols) && all_found symbols rs

entries_by_page-found :
    (symbols : Symbols) (relocs : List Reloc) (pages : Pages)
    → is_some (entries_by_page symbols relocs pages) ≡ all_found symbols relocs
unfolding entries_by_page
entries_by_page-found symbols [] pages = refl
entries_by_page-found symbols (r ∷ rs) pages = elim (Option-cases (find_symbol r.symbol symbols)) [
  | inl missing ↦ rw (missing, entries_by_page) refl
  | inr (rva, found) ↦ rw (found, entries_by_page) (entries_by_page-found symbols rs _)
]

build_reloc_data-found :
    (symbols : Symbols) (relocs : List Reloc)
    → is_some (build_reloc_data symbols relocs) ≡ all_found symbols relocs
unfolding build_reloc_data
build_reloc_data-found symbols relocs = elim (Option-cases (entries_by_page symbols relocs [])) [
  | inl missing ↦
      let all = sym (entries_by_page-found symbols relocs []) ∙ ap is_some missing in
      rw (all, missing, build_reloc_data) refl
  | inr (pages, found) ↦
      let all = sym (entries_by_page-found symbols relocs []) ∙ ap is_some found in
      rw (all, found, build_reloc_data) refl
]

with_relocs-written :
    (entry_point : ℕ) (sections : List Section) (o : Option (List ℕ))
    → is_written (with_relocs entry_point sections o) ≡ is_some o
with_relocs-written entry_point sections none = refl
with_relocs-written entry_point sections (some bytes) = refl

-- An image with a symbol map is written exactly when the map has the entry symbol and the symbol
-- of each relocation.
pub write_efi-written :
    (entry : List ℕ) (sections : List Section) (symbols : Symbols) (relocs : List Reloc)
    → is_written (
        write_efi (
          some (record {
            entry_symbol = entry;
            sections = sections;
            symbols = some symbols;
            relocs = relocs;
          })))
      ≡ (is_some (find_symbol entry symbols) && all_found symbols relocs)
unfolding write_efi
write_efi-written entry sections symbols [] = elim (Option-cases (find_symbol entry symbols)) [
  | inl missing ↦ rw missing refl
  | inr (rva, found) ↦ rw found refl
]
write_efi-written entry sections symbols (r ∷ rs) =
    elim (Option-cases (find_symbol entry symbols)) [
      | inl missing ↦ rw missing refl
      | inr (rva, found) ↦
          let some_relocs : (length (r ∷ rs) == 0) ≡ false = ground arith in
          rw found (
            rw some_relocs (
              with_relocs-written rva sections (build_reloc_data symbols (r ∷ rs))
              ∙ build_reloc_data-found symbols (r ∷ rs)))
    ]
