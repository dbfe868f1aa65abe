-- ===== src/Loader/Header.antt =====
-- The headers of files and the search for modules: `ExtractHeader`, `resolveModulePath` and
-- `LoadGraph` of compiler/source/graph.go.
use wrela.Prelude.{
  ℕ, Bool, true, false, ◌&&◌, ◌||◌, List, [], ◌∷◌, ◌++◌, map, Option, none, some, ◌==◌, leb,
  if◌then◌else◌,
}
use wrela.Bytes.{Bytes, has_prefix}
use wrela.Strings.{trim_space, cut_comment, split_on, split_first, fields}
use wrela.Loader.{
  Sources, Loaded, loaded, failed, bad_header, unreadable, and_load, File, load_module,
}

abbrev is_empty : Bytes → Bool
is_empty [] = true
is_empty (b ∷ bs) = false

-- `\s` of a regular expression.
abbrev is_blank : ℕ → Bool
is_blank b = b == 9 || b == 10 || b == 12 || b == 13 || b == 32

unfoldable pub drop_blanks : Bytes → Bytes
drop_blanks [] = []
drop_blanks (b ∷ bs) = let rest = drop_blanks bs in if is_blank b then rest else b ∷ bs

-- `\s+` at the beginning.
abbrev some_blanks : Bytes → Option Bytes
some_blanks [] = none
some_blanks (b ∷ bs) = if is_blank b then some (drop_blanks bs) else none

abbrev is_letter : ℕ → Bool
is_letter b = leb b'A' b && leb b b'Z' || leb b'a' b && leb b b'z' || b == b'_'

unfoldable pub all_name_bytes : Bytes → Bool
all_name_bytes [] = true
all_name_bytes (b ∷ bs) = (is_letter b || leb b'0' b && leb b b'9') && all_name_bytes bs

abbrev is_name : Bytes → Bool
is_name [] = false
is_name (b ∷ bs) = is_letter b && all_name_bytes bs

unfoldable pub all_names : List Bytes → Bool
all_names [] = true
all_names (part ∷ parts) = is_name part && all_names parts

-- A dotted name with blanks behind it, up to the end.
unfoldable pub name_to_end : Bytes → Option Bytes
name_to_end text = elim (split_first is_blank text) [
  | none ↦ if all_names (split_on b'.' text) then some text else none
  | some (name, behind) ↦
      if all_names (split_on b'.' name) && is_empty (drop_blanks behind) then some name else none
]

abbrev then_match {ℓ} : {A : Type ℓ} → Option A → (A → Option Bytes) → Option Bytes
then_match none next = none
then_match (some a) next = next a

abbrev pub strip : Bytes → Bytes → Option Bytes
strip [] text = some text
strip (x ∷ xs) [] = none
strip (x ∷ xs) (b ∷ bs) = if x == b then strip xs bs else none

-- `modulePattern`: the name of the module.
unfoldable pub match_module : Bytes → Option Bytes
match_module line =
    then_match (strip (b'm' ∷ b'o' ∷ b'd' ∷ b'u' ∷ b'l' ∷ b'e' ∷ []) line)
      (λ rest. then_match (some_blanks rest) name_to_end)

-- `importPattern`: the name behind `from`.
unfoldable pub match_import : Bytes → Option Bytes
match_import line = then_match (strip (b'u' ∷ b's' ∷ b'e' ∷ []) line) (λ after_use.
    then_match (some_blanks after_use) (λ opening. then_match (strip (b'{' ∷ []) opening) (λ names.
      then_match (split_first (λ b. b == b'}') names) (λ (inside, closing).
        then_match (some_blanks closing) (λ from.
          then_match (strip (b'f' ∷ b'r' ∷ b'o' ∷ b'm' ∷ []) from)
            (λ rest. then_match (some_blanks rest) name_to_end))))))

-- `strings.Contains`
unfoldable pub contains : Bytes → Bytes → Bool
contains part [] = is_empty part
contains part (b ∷ bs) = has_prefix part (b ∷ bs) || contains part bs

abbrev from_word : Bytes
from_word = b'f' ∷ b'r' ∷ b'o' ∷ b'm' ∷ []

-- An import that may go on over several lines is whole with its `from`.
abbrev is_whole : Bytes → Bool
is_whole line = contains (32 ∷ from_word ++ 32 ∷ []) line || contains (b'}' ∷ 32 ∷ from_word) line

unfoldable pub join_blank : List Bytes → Bytes
join_blank [] = []
join_blank (word ∷ []) = word
join_blank (word ∷ next ∷ words) = word ++ 32 ∷ join_blank (next ∷ words)

-- Where the loop over the lines stands: before the module line, behind it, or within an import.
pub data Header : Type 0 where
  no_module : Header
  in_header : Bytes → List Bytes → Header
  in_import : Bytes → List Bytes → Bytes → Header

pub data Scan : Type 0 where
  go_on : Header → Scan
  stop_with : Bytes → List Bytes → Scan
  stop_bad : Scan

abbrev end_import : Bytes → List Bytes → Option Bytes → Scan
end_import name imports none = stop_bad
end_import name imports (some imported) = go_on (in_header name (imports ++ imported ∷ []))

-- An import line so far.
unfoldable pub import_line : Bytes → List Bytes → Bytes → Scan
import_line name imports line =
    if is_whole line
    then end_import name imports (match_import (join_blank (fields line)))
    else go_on (in_import name imports line)

abbrev module_line : Option Bytes → Scan
module_line none = stop_bad
module_line (some name) = go_on (in_header name [])

-- One line, trimmed and without its comment.
unfoldable pub scan_line : Header → Bytes → Scan
scan_line no_module line =
    if is_empty line then go_on no_module else module_line (match_module line)
scan_line (in_header name imports) line =
    if is_empty line
    then go_on (in_header name imports)
    else if has_prefix (b'u' ∷ b's' ∷ b'e' ∷ 32 ∷ []) line
    then import_line name imports line
    else stop_with name imports
scan_line (in_import name imports before) line =
    if is_empty line
    then go_on (in_import name imports before)
    else import_line name imports (before ++ 32 ∷ line)

unfoldable pub scan_lines : Header → List Bytes → Option (Bytes × List Bytes)
scan_lines no_module [] = none
scan_lines (in_header name imports) [] = some (name, imports)
scan_lines (in_import name imports line) [] = none
scan_lines h (raw ∷ lines) = elim (scan_line h (trim_space (cut_comment raw))) [
  | go_on next ↦ scan_lines next lines
  | stop_with name imports ↦ some (name, imports)
  | stop_bad ↦ none
]

-- `ExtractHeader`: the module and its imports, or none for an error.
unfoldable pub extract_header : Bytes → Option (Bytes × List Bytes)
extract_header source = scan_lines no_module (split_on 10 source)

-- `os.ReadFile`
pub data FileRead : Type 0 where
  contents : Bytes → FileRead
  missing read_error : FileRead

-- The files, and `filepath.Join` and `filepath.Clean`.
pub record FileSystem : Type 0 where
  pub read_file : Bytes → FileRead
  pub join : Bytes → Bytes → Bytes
  pub clean : Bytes → Bytes

abbrev pub header_or_error : Bytes → Option (Bytes × List Bytes) → Loaded (Bytes × List Bytes)
header_or_error path none = failed (bad_header path)
header_or_error path (some header) = loaded header

abbrev pub header_of_read : Bytes → FileRead → Loaded (Bytes × List Bytes)
header_of_read path (contents source) = header_or_error path (extract_header source)
header_of_read path missing = failed (unreadable path)
header_of_read path read_error = failed (unreadable path)

-- A module's path below an import root.
unfoldable pub relative_path : Bytes → Bytes
relative_path name =
    map (λ b. if b == b'.' then b'/' else b) name ++ b'.' ∷ b'w' ∷ b'r' ∷ b'e' ∷ b'l' ∷ b'a' ∷ []

abbrev pub or_next : Bytes → FileRead → Loaded (Option Bytes) → Loaded (Option Bytes)
or_next candidate (contents source) rest = loaded (some candidate)
or_next candidate missing rest = rest
or_next candidate read_error rest = failed (unreadable candidate)

-- `resolveModulePath`
unfoldable pub resolve_module : FileSystem → List Bytes → Bytes → Loaded (Option Bytes)
resolve_module fs [] name = loaded none
resolve_module fs (root ∷ roots) name =
    or_next (fs.join root (relative_path name)) (fs.read_file (fs.join root (relative_path name)))
      (resolve_module fs roots name)

abbrev pub sources_of : FileSystem → List Bytes → Sources
sources_of fs roots = record {
  read_header = λ path. header_of_read path (fs.read_file path);
  resolve_module_path = resolve_module fs roots;
  clean = fs.clean;
}

-- `LoadGraph`, with the fuel for the recursion.
unfoldable pub load_graph : ℕ → FileSystem → List Bytes → Bytes → Loaded (List File)
load_graph fuel fs roots root_path =
    let path = fs.clean root_path in
    let env = sources_of fs roots in
    if is_empty root_path
    then failed (bad_header [])
    else and_load (env.read_header path) (λ header. load_module fuel env [] [] header.0 path)
