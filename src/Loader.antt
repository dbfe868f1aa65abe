-- ===== src/Loader.antt =====
-- How the modules of a program are loaded: `loadModule` of compiler/source/graph.go.
pub mod Closed
pub mod Ends
pub mod Header
pub mod Graphs
use wrela.Prelude.{
  ℕ, zero, suc, ◌+◌, Bool, true, false, not, ◌||◌, List, [], ◌∷◌, ◌++◌, Option, none, some,
  if◌then◌else◌, length,
}
use wrela.Bytes.{Bytes, bytes_eq}

-- The errors by their codes: SRC0001 to SRC0005.
pub data LoadError : Type 0 where
  unreadable module_not_found import_cycle duplicate_module module_mismatch bad_header :
      Bytes → LoadError

pub data Loaded {ℓ} (A : Type ℓ) : Type ℓ where
  loaded : A → Loaded A
  failed : LoadError → Loaded A
  out_of_fuel : Loaded A

-- A file as the graph holds it.
pub record File : Type 0 where
  pub id : ℕ
  pub path : Bytes
  pub module_name : Bytes

-- What stands around the loader: the headers of the files, as `os.ReadFile` and `ExtractHeader`
-- give them, the search for a module below the import roots (`resolveModulePath`), and
-- `filepath.Clean`.
pub record Sources : Type 0 where
  pub read_header : Bytes → Loaded (Bytes × List Bytes)
  pub resolve_module_path : Bytes → Loaded (Option Bytes)
  pub clean : Bytes → Bytes

abbrev pub among : List Bytes → Bytes → Bool
among [] name = false
among (n ∷ ns) name = bytes_eq n name || among ns name

-- The map `loaded`, which has the files of the graph by their modules.
unfoldable pub find_file : Bytes → List File → Option File
find_file name [] = none
find_file name (f ∷ fs) = if bytes_eq f.module_name name then some f else find_file name fs

abbrev pub and_load {ℓ κ} : {A : Type ℓ} → {B : Type κ} → Loaded A → (A → Loaded B) → Loaded B
and_load (loaded a) next = next a
and_load (failed e) next = failed e
and_load out_of_fuel next = out_of_fuel

-- A call of `loadModule` on the graph's files, for a module and its path.
abbrev pub Load : Type 0
Load = List File → Bytes → Bytes → Loaded (List File)

abbrev pub at_path : Load → List File → Bytes → Option Bytes → Loaded (List File)
at_path load files name none = failed (module_not_found name)
at_path load files name (some path) = load files name path

-- The loop over the imports.
unfoldable pub load_imports : Sources → Load → List File → List Bytes → Loaded (List File)
load_imports env load files [] = loaded files
load_imports env load files (name ∷ more) =
    and_load (env.resolve_module_path name) (λ found.
      and_load (at_path load files name found) (λ after. load_imports env load after more))

abbrev has_other_path : Sources → Bytes → Option File → Bool
has_other_path env path none = false
has_other_path env path (some f) = not (bytes_eq (env.clean f.path) (env.clean path))

-- The part of `loadModule` behind the header, for a module that is neither loaded nor in progress.
-- `load` is the call for an import.
unfoldable pub load_file :
    Sources → Load → List File → Bytes → Bytes → Bytes × List Bytes → Loaded (List File)
load_file env load files name path (actual, imports) =
    if has_other_path env path (find_file actual files)
    then failed (duplicate_module actual)
    else if not (bytes_eq actual name)
    then failed (module_mismatch actual)
    else load_imports env load
        (files ++ record { id = suc (length files); path = path; module_name = actual } ∷ [])
        imports

abbrev pub load_found :
    Sources → List File → Bytes → Bytes → Loaded (List File) → Option File → Loaded (List File)
load_found env files name path fresh none = fresh
load_found env files name path fresh (some f) =
    if bytes_eq (env.clean f.path) (env.clean path)
    then loaded files
    else failed (duplicate_module f.module_name)

-- `loadModule`. The modules in progress are those of the calls around this one. The first file
-- has the id 1, and there is one id for each file.
unfoldable pub load_module : ℕ → Sources → List Bytes → Load
load_module zero env in_progress files name path = out_of_fuel
load_module (suc fuel) env in_progress files name path =
    let fresh = and_load (env.read_header path) (λ header.
      load_file env (load_module fuel env (name ∷ in_progress)) files name path header) in
    if among in_progress name
    then failed (import_cycle name)
    else load_found env files name path fresh (find_file name files)
