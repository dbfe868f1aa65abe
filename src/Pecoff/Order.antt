-- ===== src/Pecoff/Order.antt =====
-- The order of the sections: `normalizeAndOrderSections` of compiler/pecoff/write.go.
use mathlib.Core.List.{Perm}
use wrela.Prelude.{
  ℕ, ◌<◌, ◌≡◌, refl, sym, subst, ap, ap₂, ◌∙◌, true, Bool, Bool-cases, not, ◌||◌, inl, inr, List,
  [], ◌∷◌, ◌++◌, ◌==◌, if◌then◌else◌, append-nil, All, arith,
}
use wrela.Prelude.Sorting.{sort_by-perm, sort_by-buckets, keyed}
use wrela.Bytes.{Bytes, bytes_eq}
use wrela.Bytes.Laws.{bytes_eq→≡}
use wrela.Pecoff.{Section, rank, priority, normalize_and_order_sections}

-- The sections that pass a test of their name, in their order.
abbrev pub where_name : (Bytes → Bool) → List Section → List Section
where_name test [] = []
where_name test (s ∷ ss) = if test s.name then s ∷ where_name test ss else where_name test ss

abbrev pub is_text : Bytes → Bool
is_text name = bytes_eq name (b'.' ∷ b't' ∷ b'e' ∷ b'x' ∷ b't' ∷ [])

abbrev pub is_rdata : Bytes → Bool
is_rdata name = bytes_eq name (b'.' ∷ b'r' ∷ b'd' ∷ b'a' ∷ b't' ∷ b'a' ∷ [])

abbrev pub is_data : Bytes → Bool
is_data name = bytes_eq name (b'.' ∷ b'd' ∷ b'a' ∷ b't' ∷ b'a' ∷ [])

abbrev pub is_reloc : Bytes → Bool
is_reloc name = bytes_eq name (b'.' ∷ b'r' ∷ b'e' ∷ b'l' ∷ b'o' ∷ b'c' ∷ [])

abbrev pub is_custom : Bytes → Bool
is_custom name = not (is_text name || is_rdata name || is_data name || is_reloc name)

-- The sections name by name.
abbrev pub by_name : List Section → List Section
by_name sections =
    where_name is_text sections
    ++ (where_name is_rdata sections
        ++ (where_name is_data sections
            ++ (where_name is_reloc sections ++ where_name is_custom sections)))

keyed-where_name :
    (k : ℕ) (test : Bytes → Bool)
    → ((name : Bytes) → (priority name == k) ≡ test name)
    → (ss : List Section) → keyed rank k ss ≡ where_name test ss
unfolding rank
keyed-where_name k test agree [] = refl
keyed-where_name k test agree (s ∷ ss) = elim (Bool-cases (test s.name)) [
  | inl passes ↦ rw (agree s.name ∙ passes, passes) (ap (◌∷◌ s) (keyed-where_name k test agree ss))
  | inr fails ↦ rw (agree s.name ∙ fails, fails) (keyed-where_name k test agree ss)
]

abbrev Agrees : Bytes → Type 0
Agrees name =
    ((priority name == 0) ≡ is_text name)
    × ((priority name == 1) ≡ is_rdata name)
    × ((priority name == 2) ≡ is_data name)
    × ((priority name == 3) ≡ is_reloc name)
    × ((priority name == 4) ≡ is_custom name)
    × (priority name < 5)

-- The first name that the switch comes to is the only one.
priority-Agrees : (name : Bytes) → Agrees name
unfolding priority
priority-Agrees name = elim (Bool-cases (is_text name)) [
  | inl e ↦ known _ e (refl, refl, refl, refl, refl, omega arith)
  | inr not_text ↦ elim (Bool-cases (is_rdata name)) [
    | inl e ↦ known _ e (refl, refl, refl, refl, refl, omega arith)
    | inr not_rdata ↦ elim (Bool-cases (is_data name)) [
      | inl e ↦ known _ e (refl, refl, refl, refl, refl, omega arith)
      | inr not_data ↦ elim (Bool-cases (is_reloc name)) [
        | inl e ↦ known _ e (refl, refl, refl, refl, refl, omega arith)
        | inr not_reloc ↦ ground (arith, not_text, not_rdata, not_data, not_reloc)
      ]
    ]
  ]
]
  where
    known : (literal : Bytes) → bytes_eq name literal ≡ true → Agrees literal → Agrees name
    known literal e a = subst Agrees (sym (bytes_eq→≡ name literal e)) a

rank-small : (ss : List Section) → All (λ s. rank s < 5) ss
unfolding rank
rank-small [] = tt
rank-small (s ∷ ss) = ((priority-Agrees s.name).5, rank-small ss)

-- The ordered sections are the given ones: first those named `.text`, then `.rdata`, `.data` and
-- `.reloc`, then all others; the sections of one name, and the others, keep their order.
pub normalize_and_order_sections-Perm :
    (sections : List Section)
    → (normalize_and_order_sections sections ≡ by_name sections)
      × Perm (normalize_and_order_sections sections) sections
unfolding normalize_and_order_sections
normalize_and_order_sections-Perm sections = (
  sort_by-buckets rank 5 sections (rank-small sections)
      ∙ ap₂ ◌++◌ (keyed-where_name 0 is_text (λ n. (priority-Agrees n).0) sections) (
          ap₂ ◌++◌ (keyed-where_name 1 is_rdata (λ n. (priority-Agrees n).1) sections) (
            ap₂ ◌++◌ (keyed-where_name 2 is_data (λ n. (priority-Agrees n).2) sections) (
              ap₂ ◌++◌ (keyed-where_name 3 is_reloc (λ n. (priority-Agrees n).3) sections) (
                append-nil (keyed rank 4 sections)
                ∙ keyed-where_name 4 is_custom (λ n. (priority-Agrees n).4) sections)))),
  sort_by-perm rank sections,
)
