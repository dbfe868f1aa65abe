-- ===== src/Loader/Ends.antt =====
-- The loading ends, also on modules that import each other.
use wrela.Prelude.{
  ℕ, zero, suc, ◌+◌, ◌≤◌, ◌<◌, ◌≡◌, refl, inl, inr, Bool, true, false, Bool-cases, List, [], ◌∷◌,
  ◌++◌, Option, none, some, if◌then◌else◌, length, All, arith,
}
use wrela.Bytes.{Bytes, bytes_eq}
use wrela.Bytes.Laws.{bytes_eq_refl, bytes_eq→≡}
use wrela.Loader.{
  Sources, Loaded, loaded, failed, out_of_fuel, File, Load, find_file, and_load, at_path,
  load_imports, load_file, load_found, load_module, among,
}

-- How many names are not in progress.
abbrev pub waiting : List Bytes → List Bytes → ℕ
waiting [] in_progress = 0
waiting (name ∷ names) in_progress =
    (if among in_progress name then 0 else 1) + waiting names in_progress

waiting-le_length : (names in_progress : List Bytes) → waiting names in_progress ≤ length names
waiting-le_length [] in_progress = omega arith
waiting-le_length (n ∷ names) in_progress = ground (arith, waiting-le_length names in_progress)

waiting-le :
    (names : List Bytes) (name : Bytes) (in_progress : List Bytes)
    → waiting names (name ∷ in_progress) ≤ waiting names in_progress
waiting-le [] name in_progress = omega arith
waiting-le (n ∷ names) name in_progress = ground (arith, waiting-le names name in_progress)

waiting-lt :
    (names : List Bytes) (name : Bytes) (in_progress : List Bytes)
    → among names name ≡ true
    → among in_progress name ≡ false
    → waiting names (name ∷ in_progress) < waiting names in_progress
waiting-lt [] name in_progress h k = absurd cc
waiting-lt (n ∷ names) name in_progress h k = elim (Bool-cases (bytes_eq n name)) [
  | inl e ↦
      let same : n ≡ name = bytes_eq→≡ n name e in
      let here = bytes_eq_refl name in
      rw same (ground (arith, k, here, waiting-le names name in_progress))
  | inr e ↦
      ground
        (arith, waiting-lt names name in_progress (rw e at h) k, waiting-le names name in_progress)
]

abbrev pub ended {ℓ} : {A : Type ℓ} → Loaded A → Bool
ended out_of_fuel = false
ended _ = true

pub ended-and_load {ℓ κ} :
    {A : Type ℓ}
    → {B : Type κ} → (o : Loaded A) → (next : A → Loaded B) → ended o ≡ true
    → ((a : A) → o ≡ loaded a → ended (next a) ≡ true)
    → ended (and_load o next) ≡ true
ended-and_load (loaded a) next h k = k a refl
ended-and_load (failed e) next h k = refl
ended-and_load out_of_fuel next h k = absurd cc

-- What stands around the loader ends, and imports are among the names.
pub record IsBounded (env : Sources) (names : List Bytes) : Type 0 where
  pub reads : (path : Bytes) → ended (env.read_header path) ≡ true
  pub resolves : (name : Bytes) → ended (env.resolve_module_path name) ≡ true
  pub imports_known :
      (path actual : Bytes) (imports : List Bytes)
      → env.read_header path ≡ loaded (actual, imports)
      → All (λ name. among names name ≡ true) imports

AllEnd : Load → List Bytes → Type 0
AllEnd load names =
    (files : List File) (name path : Bytes)
    → among names name ≡ true
    → ended (load files name path) ≡ true

load_imports-ended :
    (env : Sources) (load : Load) (names : List Bytes) (files : List File) (imports : List Bytes)
    → IsBounded env names
    → AllEnd load names
    → All (λ name. among names name ≡ true) imports
    → ended (load_imports env load files imports) ≡ true
unfolding load_imports AllEnd
load_imports-ended env load names files [] b all known = refl
load_imports-ended env load names files (name ∷ more) b all known =
    ended-and_load (env.resolve_module_path name) _ (b.resolves name) (λ found resolved.
      ended-and_load (at_path load files name found) _ (at_path_lem found)
        (λ after first. load_imports-ended env load names after more b all known.1))
  where
    at_path_lem : (found : Option Bytes) → ended (at_path load files name found) ≡ true
    at_path_lem none = refl
    at_path_lem (some path) = all files name path known.0

load_file-ended :
    (env : Sources) (load : Load) (names : List Bytes) (files : List File)
    (name path actual : Bytes) (imports : List Bytes)
    → IsBounded env names
    → AllEnd load names
    → All (λ name. among names name ≡ true) imports
    → ended (load_file env load files name path (actual, imports)) ≡ true
unfolding load_file
load_file-ended env load names files name path actual imports b all known =
    let f : File = record { id = suc (length files); path = path; module_name = actual } in
    ground (arith, load_imports-ended env load names (files ++ f ∷ []) imports b all known)

load_found-ended :
    (env : Sources) (files : List File) (name path : Bytes) (fresh : Loaded (List File))
    (o : Option File)
    → ended fresh ≡ true
    → ended (load_found env files name path fresh o) ≡ true
load_found-ended env files name path fresh none h = h
load_found-ended env files name path fresh (some f) h = ground (arith, h)

load_module-AllEnd :
    (fuel : ℕ) (env : Sources) (names in_progress : List Bytes)
    → IsBounded env names
    → waiting names in_progress < fuel
    → AllEnd (load_module fuel env in_progress) names
unfolding load_module AllEnd
load_module-AllEnd zero env names in_progress b h files name path known = absurd (omega arith)
load_module-AllEnd (suc fuel) env names in_progress b h files name path known =
    elim (Bool-cases (among in_progress name)) [
      | inl busy ↦ rw busy refl
      | inr free ↦
          let less = waiting-lt names name in_progress known free in
          let nested = load_module fuel env (name ∷ in_progress) in
          let all =
            load_module-AllEnd fuel env names (name ∷ in_progress) b (omega (arith, less, h)) in
          rw free (
            load_found-ended env files name path
              (and_load (env.read_header path)
                (λ header. load_file env nested files name path header))
              (find_file name files)
              (ended-and_load (env.read_header path) _ (b.reads path) (λ header read.
                load_file-ended env nested names files name path header.0 header.1 b all
                  (b.imports_known path header.0 header.1 read))))
    ]

-- If the modules that can be imported are finitely many, and reading and searching files ends, the
-- loading ends: with more fuel than there are names it gives a graph or an error.
pub load_module-ends :
    (fuel : ℕ) (env : Sources) (names : List Bytes) (root path : Bytes)
    → IsBounded env names
    → among names root ≡ true
    → length names < fuel
    → ended (load_module fuel env [] [] root path) ≡ true
unfolding AllEnd
load_module-ends fuel env names root path b known h =
    load_module-AllEnd fuel env names [] b (omega (arith, h, waiting-le_length names [])) [] root
      path known
