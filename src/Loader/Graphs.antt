-- ===== src/Loader/Graphs.antt =====
-- What `LoadGraph` gives on a file system.
use wrela.Prelude.{ℕ, ◌<◌, ◌≡◌, refl, inl, inr, true, List, [], ◌∷◌, Option-cases, length, All}
use wrela.Bytes.{Bytes}
use wrela.Loader.{loaded, File, among}
use wrela.Loader.Closed.{IsIn, HasImports, and_load-loaded, load_module-HasImports}
use wrela.Loader.Ends.{IsBounded, ended, ended-and_load, load_module-ends}
use wrela.Loader.Header.{
  FileSystem, FileRead, contents, missing, read_error, extract_header, header_of_read, or_next,
  relative_path, resolve_module, sources_of, load_graph,
}

-- If a graph is loaded, every one of its files has the header of its module, as `ExtractHeader`
-- reads it, and the graph holds each module that the header imports, and the module that the root
-- file names. This is so whatever the fuel.
pub load_graph-HasImports :
    (fuel : ℕ) (fs : FileSystem) (roots : List Bytes) (b : ℕ) (root_path : Bytes)
    (files : List File)
    → load_graph fuel fs roots (b ∷ root_path) ≡ loaded files
    → ((header : Bytes × List Bytes) × (header_of_read
            (fs.clean (b ∷ root_path))
            (fs.read_file (fs.clean (b ∷ root_path)))
          ≡ loaded header)
        × IsIn files header.0)
      × All (HasImports (sources_of fs roots) files) files
unfolding load_graph
load_graph-HasImports fuel fs roots b root_path files h =
    let path = fs.clean (b ∷ root_path) in
    let (header, read, loads) =
      and_load-loaded (header_of_read path (fs.read_file path)) _ files h in
    let (root, closed) =
      load_module-HasImports fuel (sources_of fs roots) header.0 path files loads in
    ((header, read, root), closed)

header_of_read-ended : (path : Bytes) (r : FileRead) → ended (header_of_read path r) ≡ true
header_of_read-ended path (contents source) = elim (Option-cases (extract_header source)) [
  | inl e ↦ rw e refl
  | inr (header, e) ↦ rw e refl
]
header_of_read-ended path missing = refl
header_of_read-ended path read_error = refl

resolve_module-ended :
    (fs : FileSystem) (roots : List Bytes) (name : Bytes)
    → ended (resolve_module fs roots name) ≡ true
unfolding resolve_module
resolve_module-ended fs [] name = refl
resolve_module-ended fs (root ∷ roots) name =
    next (fs.read_file (fs.join root (relative_path name))) (resolve_module-ended fs roots name)
  where
    next :
        (r : FileRead)
        → ended (resolve_module fs roots name) ≡ true
        → ended (or_next (fs.join root (relative_path name)) r (resolve_module fs roots name))
          ≡ true
    next (contents source) rest = refl
    next missing rest = rest
    next read_error rest = refl

-- If the names of the modules are finitely many, those that the files import and that the root
-- file names, the loading ends with a graph or an error, import cycles included, with any fuel
-- above their number.
pub load_graph-ends :
    (fuel : ℕ) (fs : FileSystem) (roots names : List Bytes) (root_path : Bytes)
    → ((path actual : Bytes) (imports : List Bytes)
        → header_of_read path (fs.read_file path) ≡ loaded (actual, imports)
        → All (λ name. among names name ≡ true) imports)
    → ((actual : Bytes) (imports : List Bytes)
        → header_of_read (fs.clean root_path) (fs.read_file (fs.clean root_path))
          ≡ loaded (actual, imports)
        → among names actual ≡ true)
    → length names < fuel
    → ended (load_graph fuel fs roots root_path) ≡ true
unfolding load_graph
load_graph-ends fuel fs roots names [] known root h = refl
load_graph-ends fuel fs roots names (b ∷ root_path) known root h =
    let path = fs.clean (b ∷ root_path) in
    let bounded : IsBounded (sources_of fs roots) names = record {
      reads = λ p. header_of_read-ended p (fs.read_file p);
      resolves = resolve_module-ended fs roots;
      imports_known = known;
    } in
    ended-and_load (header_of_read path (fs.read_file path)) _
      (header_of_read-ended path (fs.read_file path))
      (λ header read.
        load_module-ends fuel (sources_of fs roots) names header.0 path bounded
          (root header.0 header.1 read) h)
