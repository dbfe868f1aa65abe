-- ===== src/Arena/Checks.antt =====
-- When the checks of the arenas pass.
use wrela.Prelude.{
  ◌+◌, ◌≡◌, ◌≢◌, refl, ◌↔◌, IsU64, inl, inr, Bool, true, false, Bool-cases, not, List, [], ◌∷◌,
  ◌++◌, if◌then◌else◌, All, arith,
}
use wrela.Bytes.{Bytes, bytes_eq}
use wrela.Bytes.Laws.{bytes_eq_iff}
use wrela.Arena.Siblings.{Collide, arena_ranges_overlap-Collide}
use wrela.Arena.{
  ArenaNode, arena_ranges_overlap, seen_in, duplicates, overlaps_with, overlaps,
  validate_arena_graph,
}

-- No two elements are related.
abbrev pub Pairwise {ℓ κ} : {A : Type ℓ} → (A → A → Type κ) → List A → Type κ
Pairwise Related [] = Unit
Pairwise Related (x ∷ xs) = All (λ y. ¬ Related x y) xs × Pairwise Related xs

-- Both have the same label, which is not empty.
abbrev pub HaveOneLabel : ArenaNode → ArenaNode → Type 0
HaveOneLabel a b = (a.label ≢ []) × (a.label ≡ b.label)

-- The end of the arena is below 2^64.
abbrev pub HasEnd : ArenaNode → Type 0
HasEnd arena = IsU64 (arena.offset + arena.bytes)

-- No two elements pass the test.
abbrev Untested {ℓ} : {A : Type ℓ} → (A → A → Bool) → List A → Type 0
Untested related [] = Unit
Untested related (x ∷ xs) = All (λ y. related x y ≡ false) xs × Untested related xs

-- The test that the first loop comes to.
abbrev same_identity : ArenaNode → ArenaNode → Bool
same_identity a b = if bytes_eq a.label [] then false else bytes_eq a.label b.label

overlaps_with_iff :
    (a : ArenaNode) (arenas : List ArenaNode)
    → (overlaps_with a arenas ≡ []) ↔ All (λ b. arena_ranges_overlap a b ≡ false) arenas
unfolding overlaps_with
overlaps_with_iff a [] = (λ e. tt, λ h. refl)
overlaps_with_iff a (b ∷ more) = ground (arith, overlaps_with_iff a more)

append-nil_iff {ℓ} : {A : Type ℓ} (xs ys : List A) → (xs ++ ys ≡ []) ↔ ((xs ≡ []) × (ys ≡ []))
append-nil_iff [] ys = ground arith
append-nil_iff (x ∷ xs) ys = ground arith

overlaps_iff :
    (arenas : List ArenaNode) → (overlaps arenas ≡ []) ↔ Untested arena_ranges_overlap arenas
unfolding overlaps
overlaps_iff [] = (λ e. tt, λ h. refl)
overlaps_iff (a ∷ more) = ground (
  arith,
  append-nil_iff (overlaps_with a more) (overlaps more),
  overlaps_with_iff a more,
  overlaps_iff more,
)

-- A label that the first loop has not seen, or none at all.
fresh : List Bytes → Bytes → Bool
fresh seen label = if bytes_eq label [] then true else not (seen_in seen label)

fresh_iff :
    (first : Bytes) (seen : List Bytes) (label : Bytes)
    → bytes_eq first [] ≡ false
    → (fresh (first ∷ seen) label ≡ true)
      ↔ ((fresh seen label ≡ true) × (bytes_eq first label ≡ false))
unfolding fresh
fresh_iff first seen [] named = ground (arith, named)
fresh_iff first seen (c ∷ cs) named = ground arith

AllFresh : List Bytes → List ArenaNode → Type 0
AllFresh seen arenas = All (λ a. fresh seen a.label ≡ true) arenas

AllFresh-iff :
    (first : Bytes) (seen : List Bytes) (arenas : List ArenaNode)
    → bytes_eq first [] ≡ false
    → AllFresh (first ∷ seen) arenas
      ↔ (AllFresh seen arenas × All (λ a. bytes_eq first a.label ≡ false) arenas)
unfolding AllFresh
AllFresh-iff first seen [] named = ground arith
AllFresh-iff first seen (a ∷ more) named =
    ground (arith, fresh_iff first seen a.label named, AllFresh-iff first seen more named)

unnamed-apart :
    (a : ArenaNode) (arenas : List ArenaNode)
    → bytes_eq a.label [] ≡ true
    → All (λ b. same_identity a b ≡ false) arenas
unnamed-apart a [] unnamed = tt
unnamed-apart a (b ∷ more) unnamed = (rw unnamed refl, unnamed-apart a more unnamed)

named-apart_iff :
    (a : ArenaNode) (arenas : List ArenaNode)
    → bytes_eq a.label [] ≡ false
    → All (λ b. same_identity a b ≡ false) arenas
      ↔ All (λ b. bytes_eq a.label b.label ≡ false) arenas
named-apart_iff a arenas named = rw named ((λ h. h), (λ h. h))

duplicates_iff :
    (arenas : List ArenaNode) (seen : List Bytes)
    → (duplicates seen arenas ≡ []) ↔ (AllFresh seen arenas × Untested same_identity arenas)
unfolding duplicates AllFresh fresh
duplicates_iff [] seen = ground arith
duplicates_iff (a ∷ more) seen = elim (Bool-cases (bytes_eq a.label [])) [
  | inl unnamed ↦ ground (arith, unnamed, duplicates_iff more seen, unnamed-apart a more unnamed)
  | inr named ↦ ground (
    arith,
    named,
    duplicates_iff more (a.label ∷ seen),
    AllFresh-iff a.label seen more named,
    named-apart_iff a more named,
  )
]

AllFresh-start : (arenas : List ArenaNode) → AllFresh [] arenas
unfolding AllFresh fresh
AllFresh-start [] = tt
AllFresh-start (a ∷ more) = (ground arith, AllFresh-start more)

-- A test that decides a relation, on elements of a kind.
module _ {ℓ} {A : Type ℓ} (P : A → Type 0) (test : A → A → Bool) (Related : A → A → Type 0)
    (decides : (a b : A) → P a → P b → (test a b ≡ true) ↔ Related a b) where
  one_iff : (a b : A) → P a → P b → (test a b ≡ false) ↔ ¬ Related a b
  one_iff a b p q = elim (Bool-cases (test a b)) [
    | inl passes ↦ (λ e. absurd cc, λ apart. absurd (apart ((decides a b p q).0 passes)))
    | inr fails ↦ (λ e r. let passes = (decides a b p q).1 r in cc, λ apart. fails)
  ]

  all_iff :
      (a : A) (xs : List A)
      → P a
      → All P xs
      → All (λ b. test a b ≡ false) xs ↔ All (λ b. ¬ Related a b) xs
  all_iff a [] p h = (λ e. tt, λ e. tt)
  all_iff a (b ∷ xs) p h =
      let one = one_iff a b p h.0 in
      let rest = all_iff a xs p h.1 in (λ t. (one.0 t.0, rest.0 t.1), λ t. (one.1 t.0, rest.1 t.1))

  Untested-Pairwise : (xs : List A) → All P xs → Untested test xs ↔ Pairwise Related xs
  Untested-Pairwise [] h = (λ e. tt, λ e. tt)
  Untested-Pairwise (a ∷ xs) h =
      let one = all_iff a xs h.0 h.1 in
      let rest = Untested-Pairwise xs h.1 in
      (λ t. (one.0 t.0, rest.0 t.1), λ t. (one.1 t.0, rest.1 t.1))

same_identity-HaveOneLabel :
    (a b : ArenaNode) → HasEnd a → HasEnd b → (same_identity a b ≡ true) ↔ HaveOneLabel a b
same_identity-HaveOneLabel a b u w =
    ground (arith, bytes_eq_iff a.label [], bytes_eq_iff a.label b.label)

-- For arenas that end below 2^64, the checks report nothing exactly if no two have the same
-- label, unless it is empty, and there are no two arenas other than roots, below one parent that
-- has a name, whose ranges each begin before the other ends.
pub validate_arena_graph_iff :
    (arenas : List ArenaNode)
    → All HasEnd arenas
    → (validate_arena_graph arenas ≡ []) ↔ (Pairwise HaveOneLabel arenas × Pairwise Collide arenas)
unfolding validate_arena_graph
validate_arena_graph_iff arenas ends = ground (
  arith,
  append-nil_iff (duplicates [] arenas) (overlaps arenas),
  duplicates_iff arenas [],
  AllFresh-start arenas,
  overlaps_iff arenas,
  Untested-Pairwise HasEnd same_identity HaveOneLabel same_identity-HaveOneLabel arenas ends,
  Untested-Pairwise HasEnd arena_ranges_overlap Collide arena_ranges_overlap-Collide arenas ends,
)
