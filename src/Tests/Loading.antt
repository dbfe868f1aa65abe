-- ===== src/Tests/Loading.antt =====
-- The loader on two files, and on two that import each other.
use wrela.Prelude.{
  ℕ, ◌≡◌, refl, inl, inr, Bool-cases, true, List, [], ◌∷◌, ◌++◌, some, if◌then◌else◌, All, arith,
}
use wrela.Bytes.{Bytes, bytes_eq}
use wrela.Lex.Utf8.{decode_rune}
use wrela.Strings.{
  trim_space, trim_start, trim_end, cut_comment, split_on, split_first, fields, fields_loop,
}
use wrela.Loader.{
  loaded, failed, import_cycle, unreadable, File, find_file, load_imports, load_file, load_module,
  among,
}
use wrela.Loader.Closed.{IsIn, HasImports}
use wrela.Loader.Ends.{ended}
use wrela.Loader.Header.{
  FileSystem, contents, missing, extract_header, header_of_read, scan_lines, scan_line, import_line,
  match_module, match_import, name_to_end, drop_blanks, all_names, all_name_bytes, contains,
  join_blank, relative_path, resolve_module, sources_of, load_graph,
}
use wrela.Loader.Graphs.{load_graph-HasImports, load_graph-ends}

abbrev module_line : ℕ → Bytes
module_line name = b'm' ∷ b'o' ∷ b'd' ∷ b'u' ∷ b'l' ∷ b'e' ∷ 32 ∷ name ∷ 32 ∷ b'/' ∷ b'/' ∷ 10 ∷ []

-- An import over two lines.
abbrev use_line : ℕ → Bytes
use_line name =
    b'u' ∷ b's' ∷ b'e' ∷ 32 ∷ b'{' ∷ 32 ∷ b'X' ∷ b',' ∷ 10 ∷ 32 ∷ b'Y' ∷ b'}' ∷ 32 ∷ b'f' ∷ b'r'
    ∷ b'o' ∷ b'm' ∷ 32 ∷ name ∷ 10 ∷ []

abbrev file_name : ℕ → Bytes
file_name name = name ∷ b'.' ∷ b'w' ∷ b'r' ∷ b'e' ∷ b'l' ∷ b'a' ∷ []

abbrev source_a : Bytes
source_a = module_line b'a' ++ use_line b'b' ++ b'd' ∷ b'a' ∷ b't' ∷ b'a' ∷ []

-- `a` imports `b`, and `b` is the given source.
abbrev disk : Bytes → FileSystem
disk source_b = record {
  read_file = λ path.
      if bytes_eq path (file_name b'a')
      then contents source_a
      else if bytes_eq path (file_name b'b')
      then contents source_b
      else missing;
  join = λ root path. path;
  clean = λ path. path;
}

abbrev plain_b : Bytes
plain_b = module_line b'b'

abbrev cyclic_b : Bytes
cyclic_b = module_line b'b' ++ use_line b'a'

abbrev both : List File
both =
    record { id = 1; path = file_name b'a'; module_name = b'a' ∷ [] }
    ∷ record { id = 2; path = file_name b'b'; module_name = b'b' ∷ [] }
    ∷ []

both-loaded : load_graph 3 (disk plain_b) ([] ∷ []) (file_name b'a') ≡ loaded both
unfolding load_graph load_module load_file load_imports find_file resolve_module relative_path
    extract_header scan_lines scan_line import_line match_module match_import name_to_end
    drop_blanks all_names all_name_bytes contains join_blank trim_space trim_start trim_end
    cut_comment split_on split_first fields fields_loop decode_rune
both-loaded = refl

cycle_found :
    load_graph 3 (disk cyclic_b) ([] ∷ []) (file_name b'a') ≡ failed (import_cycle (b'a' ∷ []))
unfolding load_graph load_module load_file load_imports find_file resolve_module relative_path
    extract_header scan_lines scan_line import_line match_module match_import name_to_end
    drop_blanks all_names all_name_bytes contains join_blank trim_space trim_start trim_end
    cut_comment split_on split_first fields fields_loop decode_rune
cycle_found = refl

load_graph-HasImports_example :
    ((header : Bytes × List Bytes) × (header_of_read (file_name b'a') (contents source_a)
        ≡ loaded header)
      × IsIn both header.0)
    × All (HasImports (sources_of (disk plain_b) ([] ∷ [])) both) both
load_graph-HasImports_example =
    load_graph-HasImports 3 (disk plain_b) ([] ∷ []) b'a'
      (b'.' ∷ b'w' ∷ b'r' ∷ b'e' ∷ b'l' ∷ b'a' ∷ []) both both-loaded

abbrev names : List Bytes
names = (b'a' ∷ []) ∷ (b'b' ∷ []) ∷ []

extracted_a : extract_header source_a ≡ some (b'a' ∷ [], (b'b' ∷ []) ∷ [])
unfolding extract_header scan_lines scan_line import_line match_module match_import name_to_end
    drop_blanks all_names all_name_bytes contains join_blank trim_space trim_start trim_end
    cut_comment split_on split_first fields fields_loop decode_rune
extracted_a = refl

extracted_b : extract_header cyclic_b ≡ some (b'b' ∷ [], (b'a' ∷ []) ∷ [])
unfolding extract_header scan_lines scan_line import_line match_module match_import name_to_end
    drop_blanks all_names all_name_bytes contains join_blank trim_space trim_start trim_end
    cut_comment split_on split_first fields fields_loop decode_rune
extracted_b = refl

imports_named :
    (path actual : Bytes) (imports : List Bytes)
    → header_of_read path ((disk cyclic_b).read_file path) ≡ loaded (actual, imports)
    → All (λ name. among names name ≡ true) imports
imports_named path actual imports h = elim (Bool-cases (bytes_eq path (file_name b'a'))) [
  | inl e ↦
      let known : loaded (b'a' ∷ [], (b'b' ∷ []) ∷ []) ≡ loaded (actual, imports) =
        rw (e, extracted_a) at h in
      ground (arith, known)
  | inr e ↦ elim (Bool-cases (bytes_eq path (file_name b'b'))) [
    | inl k ↦
        let known : loaded (b'b' ∷ [], (b'a' ∷ []) ∷ []) ≡ loaded (actual, imports) =
          rw (e, k, extracted_b) at h in
        ground (arith, known)
    | inr k ↦
        let none_known : failed (unreadable path) ≡ loaded (actual, imports) = rw (e, k) at h in
        absurd cc
  ]
]

root_named :
    (actual : Bytes) (imports : List Bytes)
    → header_of_read (file_name b'a') (contents source_a) ≡ loaded (actual, imports)
    → among names actual ≡ true
root_named actual imports h =
    let known : loaded (b'a' ∷ [], (b'b' ∷ []) ∷ []) ≡ loaded (actual, imports) =
      rw extracted_a at h in
    ground (arith, known)

load_graph-ends_example : ended (load_graph 3 (disk cyclic_b) ([] ∷ []) (file_name b'a')) ≡ true
load_graph-ends_example =
    load_graph-ends 3 (disk cyclic_b) ([] ∷ []) names (file_name b'a') imports_named root_named
      (omega arith)
