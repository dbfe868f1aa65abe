-- ===== src/Loader/Closed.antt =====
-- The graph holds every import of its files.
use wrela.Prelude.{
  ℕ, zero, suc, ◌≡◌, refl, sym, ap, subst, ◌∙◌, inl, inr, true, Bool-cases, List, [], ◌∷◌, ◌++◌,
  Option, none, some, Option-cases, is_some, length, All, All-mono, All-append, append-nil,
  append_assoc, arith,
}
use wrela.Bytes.{Bytes, bytes_eq}
use wrela.Bytes.Laws.{bytes_eq_refl, bytes_eq→≡}
use wrela.Loader.{
  import_cycle, Sources, Loaded, loaded, failed, out_of_fuel, File, Load, find_file, and_load,
  at_path, load_imports, load_file, load_found, load_module, among,
}

abbrev pub IsIn : List File → Bytes → Type 0
IsIn files name = is_some (find_file name files) ≡ true

IsIn-append : (files more : List File) (name : Bytes) → IsIn files name → IsIn (files ++ more) name
unfolding find_file
IsIn-append [] more name h = absurd cc
IsIn-append (f ∷ fs) more name h = ground (arith, IsIn-append fs more name)

IsIn-last : (files : List File) (f : File) → IsIn (files ++ f ∷ []) f.module_name
unfolding find_file
IsIn-last [] f = ground (arith, bytes_eq_refl f.module_name)
IsIn-last (g ∷ fs) f = ground (arith, IsIn-last fs f)

-- The file has the header of its module, and the graph holds all of its imports.
pub record HasImports (env : Sources) (files : List File) (f : File) : Type 0 where
  pub imports : List Bytes
  pub header : env.read_header f.path ≡ loaded (f.module_name, imports)
  pub held : All (IsIn files) imports

HasImports-append :
    (env : Sources) (files more : List File) (f : File)
    → HasImports env files f
    → HasImports env (files ++ more) f
HasImports-append env files more f h = record {
  imports = h.imports;
  header = h.header;
  held = All-mono (λ name k. IsIn-append files more name k) h.imports h.held;
}

-- The files that were added are complete.
record Adds (env : Sources) (before after : List File) : Type 0 where
  more : List File
  extends : after ≡ before ++ more
  complete : All (HasImports env after) more

Adds-nil : (env : Sources) (files : List File) → Adds env files files
Adds-nil env files = record { more = []; extends = sym (append-nil files); complete = tt }

Adds-trans : (env : Sources) (a b c : List File) → Adds env a b → Adds env b c → Adds env a c
Adds-trans env a b c h k = record {
  more = h.more ++ k.more;
  extends = k.extends ∙ ap (λ l. l ++ k.more) h.extends ∙ append_assoc a h.more k.more;
  complete =
      All-append (HasImports env c) h.more k.more
        (All-mono
          (λ f r.
            subst (λ l. HasImports env l f) (sym k.extends) (HasImports-append env b k.more f r))
          h.more h.complete)
        k.complete;
}

IsIn-Adds :
    (env : Sources) (before after : List File) (name : Bytes)
    → Adds env before after
    → IsIn before name
    → IsIn after name
IsIn-Adds env before after name h k =
    subst (λ l. IsIn l name) (sym h.extends) (IsIn-append before h.more name k)

-- What stands before a step that gave a result.
pub and_load-loaded {ℓ κ} :
    {A : Type ℓ}
    → {B : Type κ} → (o : Loaded A) → (next : A → Loaded B) → (b : B) → and_load o next ≡ loaded b
    → (a : A) × (o ≡ loaded a) × (next a ≡ loaded b)
and_load-loaded (loaded a) next b h = (a, refl, h)
and_load-loaded (failed e) next b h = absurd cc
and_load-loaded out_of_fuel next b h = absurd cc

IsGoodLoad : Sources → Load → Type 0
IsGoodLoad env load =
    (files : List File) (name path : Bytes) (after : List File)
    → load files name path ≡ loaded after
    → Adds env files after × IsIn after name

load_imports-Adds :
    (env : Sources) (load : Load) (files : List File) (names : List Bytes) (after : List File)
    → IsGoodLoad env load
    → load_imports env load files names ≡ loaded after
    → Adds env files after × All (IsIn after) names
unfolding load_imports IsGoodLoad
load_imports-Adds env load files [] after good h =
    let same : files ≡ after = ground (arith, h) in
    (subst (Adds env files) same (Adds-nil env files), tt)
load_imports-Adds env load files (name ∷ more) after good h =
    let (found, resolved, rest) = and_load-loaded (env.resolve_module_path name) _ after h in
    let (middle, first, later) = and_load-loaded (at_path load files name found) _ after rest in
    let (added, held) = at_path_lem found middle first in
    let (added_later, held_later) = load_imports-Adds env load middle more after good later in
    (
      Adds-trans env files middle after added added_later,
      (IsIn-Adds env middle after name added_later held, held_later),
    )
  where
    at_path_lem :
        (found : Option Bytes) (middle : List File)
        → at_path load files name found ≡ loaded middle
        → Adds env files middle × IsIn middle name
    at_path_lem none middle e = absurd cc
    at_path_lem (some path) middle e = good files name path middle e

load_file-Adds :
    (env : Sources) (load : Load) (files : List File) (name path actual : Bytes)
    (imports : List Bytes) (after : List File)
    → IsGoodLoad env load
    → env.read_header path ≡ loaded (actual, imports)
    → load_file env load files name path (actual, imports) ≡ loaded after
    → Adds env files after × IsIn after name
unfolding load_file
load_file-Adds env load files name path actual imports after good read h =
    let f : File = record { id = suc (length files); path = path; module_name = actual } in
    let started = files ++ f ∷ [] in
    let loads : load_imports env load started imports ≡ loaded after = ground (arith, h) in
    let (added, held) = load_imports-Adds env load started imports after good loads in
    let same : bytes_eq actual name ≡ true = ground (arith, h) in
    let named : actual ≡ name = bytes_eq→≡ actual name same in
    (
      record {
        more = f ∷ added.more;
        extends = added.extends ∙ append_assoc files (f ∷ []) added.more;
        complete = (record { imports = imports; header = read; held = held }, added.complete);
      },
      subst (IsIn after) named (IsIn-Adds env started after actual added (IsIn-last files f)),
    )

load_fresh-Adds :
    (env : Sources) (load : Load) (files : List File) (name path : Bytes) (after : List File)
    → IsGoodLoad env load
    → and_load (env.read_header path) (λ header. load_file env load files name path header)
      ≡ loaded after
    → Adds env files after × IsIn after name
load_fresh-Adds env load files name path after good h =
    let (header, read, rest) = and_load-loaded (env.read_header path) _ after h in
    load_file-Adds env load files name path header.0 header.1 after good read rest

-- A module that is loaded already adds nothing.
load_found-Adds :
    (env : Sources) (files : List File) (name path : Bytes) (fresh : Loaded (List File))
    (after : List File)
    → (fresh ≡ loaded after → Adds env files after × IsIn after name)
    → load_found env files name path fresh (find_file name files) ≡ loaded after
    → Adds env files after × IsIn after name
load_found-Adds env files name path fresh after new h = elim (Option-cases (find_file name files)) [
  | inl e ↦ new (rw e at h)
  | inr (f, e) ↦
      let kept : load_found env files name path fresh (some f) ≡ loaded after = rw e at h in
      let same : files ≡ after = ground (arith, kept) in
      let held : IsIn files name = rw e refl in
      (subst (Adds env files) same (Adds-nil env files), subst (λ l. IsIn l name) same held)
]

load_module-IsGoodLoad :
    (fuel : ℕ) (env : Sources) (in_progress : List Bytes)
    → IsGoodLoad env (load_module fuel env in_progress)
unfolding load_module IsGoodLoad
load_module-IsGoodLoad zero env in_progress files name path after h = absurd cc
load_module-IsGoodLoad (suc fuel) env in_progress files name path after h =
    let good = load_module-IsGoodLoad fuel env (name ∷ in_progress) in
    let nested = load_module fuel env (name ∷ in_progress) in
    let fresh =
      and_load (env.read_header path) (λ header. load_file env nested files name path header) in
    elim (Bool-cases (among in_progress name)) [
      | inl busy ↦ let cycle : failed (import_cycle name) ≡ loaded after = rw busy at h in absurd cc
      | inr free ↦
          load_found-Adds env files name path fresh after
            (load_fresh-Adds env nested files name path after good) (rw free at h)
    ]

-- If the loading of a program gives a graph, the graph holds the root, every file has the header
-- of its module, and the graph holds the modules that it imports. This is so whatever the fuel.
pub load_module-HasImports :
    (fuel : ℕ) (env : Sources) (root path : Bytes) (files : List File)
    → load_module fuel env [] [] root path ≡ loaded files
    → IsIn files root × All (HasImports env files) files
unfolding IsGoodLoad
load_module-HasImports fuel env root path files h =
    let (added, held) = load_module-IsGoodLoad fuel env [] [] root path files h in
    (held, subst (All (HasImports env files)) (sym added.extends) added.complete)
