-- ===== src/Payload/Fuel.antt =====
-- The fuel is enough: the recursion over the types ends.
use wrela.Prelude.{
  ℕ, zero, suc, ◌+◌, ◌≤◌, ◌<◌, ◌≡◌, refl, ap, inl, inr, Bool, true, false, Bool-cases, List, [],
  ◌∷◌, none, some, Option-cases, if◌then◌else◌, length, arith,
}
use wrela.Bytes.{Bytes}
use wrela.Bytes.Laws.{bytes_eq_refl}
use wrela.Payload.{
  Outcome, sized, unsized, out_of_fuel, and_then, SizeAlign, FieldLayout, SemType, Kind, Ref, Store,
  Field, EnumVariant, type_at, deref, visits, is_primitive, kind_data, kind_class, kind_enum,
  primitive_payload_layout, semantic_field_size, variant_loop, semantic_variant_payload_size,
  enum_loop, enum_layout, fields_loop, record_layout, layout_by_kind, size_align_found,
  size_align_seen, semantic_size_align,
}

-- How many types of the store are not being visited.
abbrev pub unvisited : Store → List Bytes → ℕ
unvisited [] visiting = 0
unvisited (t ∷ ts) visiting = (if visits visiting t.key then 0 else 1) + unvisited ts visiting

pub unvisited-le_length :
    (store : Store) (visiting : List Bytes) → unvisited store visiting ≤ length store
unvisited-le_length [] visiting = omega arith
unvisited-le_length (t ∷ ts) visiting = ground (arith, unvisited-le_length ts visiting)

unvisited-le :
    (store : Store) (key : Bytes) (visiting : List Bytes)
    → unvisited store (key ∷ visiting) ≤ unvisited store visiting
unvisited-le [] key visiting = omega arith
unvisited-le (t ∷ ts) key visiting = ground (arith, unvisited-le ts key visiting)

-- A visit of a type leaves one less.
unvisited-lt :
    (store : Store) (n : ℕ) (t : SemType) (visiting : List Bytes)
    → type_at store n ≡ some t
    → visits visiting t.key ≡ false
    → unvisited store (t.key ∷ visiting) < unvisited store visiting
unvisited-lt [] n t visiting h k = absurd cc
unvisited-lt (u ∷ ts) zero t visiting h k =
    let same : u ≡ t = cc in
    let seen = bytes_eq_refl t.key in
    let rest = unvisited-le ts t.key visiting in rw same (ground (arith, seen, rest, k))
unvisited-lt (u ∷ ts) (suc n) t visiting h k = ground (arith, unvisited-lt ts n t visiting h k)

abbrev pub ended {ℓ} : {A : Type ℓ} → Outcome A → Bool
ended out_of_fuel = false
ended _ = true

ended-and_then {ℓ κ} :
    {A : Type ℓ}
    → {B : Type κ} → (o : Outcome A) → (next : A → Outcome B) → ended o ≡ true
    → ((a : A) → ended (next a) ≡ true)
    → ended (and_then o next) ≡ true
ended-and_then (sized a) next h k = k a
ended-and_then unsized next h k = refl
ended-and_then out_of_fuel next h k = absurd cc

AllEnd : (Ref → Outcome SizeAlign) → Type 0
AllEnd size_of = (ref : Ref) → ended (size_of ref) ≡ true

field-ended :
    (store : Store) (size_of : Ref → Outcome SizeAlign) (ref : Ref)
    → AllEnd size_of
    → ended (semantic_field_size store size_of ref) ≡ true
unfolding semantic_field_size AllEnd
field-ended store size_of none h = refl
field-ended store size_of (some n) h = ended-and_then (size_of (some n)) _ (h (some n)) (λ l. refl)

variant_loop-ended :
    (store : Store) (size_of : Ref → Outcome SizeAlign) (fields : List Field) (offset align : ℕ)
    → AllEnd size_of
    → ended (variant_loop store size_of fields offset align) ≡ true
unfolding variant_loop
variant_loop-ended store size_of [] offset align h = refl
variant_loop-ended store size_of (field ∷ fields) offset align h =
    ended-and_then (semantic_field_size store size_of field.field_type) _
      (field-ended store size_of field.field_type h)
      (λ l. variant_loop-ended store size_of fields _ _ h)

variant-ended :
    (store : Store) (size_of : Ref → Outcome SizeAlign) (fields : List Field)
    → AllEnd size_of
    → ended (semantic_variant_payload_size store size_of fields) ≡ true
unfolding semantic_variant_payload_size
variant-ended store size_of fields h =
    ended-and_then (variant_loop store size_of fields 8 1) _
      (variant_loop-ended store size_of fields 8 1 h) (λ r. refl)

enum_loop-ended :
    (store : Store) (size_of : Ref → Outcome SizeAlign) (variants : List EnumVariant)
    (size align : ℕ)
    → AllEnd size_of
    → ended (enum_loop store size_of variants size align) ≡ true
unfolding enum_loop
enum_loop-ended store size_of [] size align h = refl
enum_loop-ended store size_of (variant ∷ variants) size align h =
    ended-and_then (semantic_variant_payload_size store size_of variant.fields) _
      (variant-ended store size_of variant.fields h)
      (λ r. enum_loop-ended store size_of variants _ _ h)

fields_loop-ended :
    (store : Store) (size_of : Ref → Outcome SizeAlign) (fields : List Field) (size align : ℕ)
    (layouts : List FieldLayout)
    → AllEnd size_of
    → ended (fields_loop store size_of fields size align layouts) ≡ true
unfolding fields_loop
fields_loop-ended store size_of [] size align layouts h = refl
fields_loop-ended store size_of (field ∷ fields) size align layouts h =
    ended-and_then (semantic_field_size store size_of field.field_type) _
      (field-ended store size_of field.field_type h)
      (λ l. fields_loop-ended store size_of fields _ _ _ h)

record-ended :
    (store : Store) (size_of : Ref → Outcome SizeAlign) (fields : List Field)
    → AllEnd size_of
    → ended (record_layout store size_of fields) ≡ true
unfolding record_layout
record-ended store size_of [] h = refl
record-ended store size_of (field ∷ fields) h =
    ended-and_then (fields_loop store size_of (field ∷ fields) 0 0 []) _
      (fields_loop-ended store size_of (field ∷ fields) 0 0 [] h) (λ r. refl)

by_kind-ended :
    (store : Store) (size_of : Ref → Outcome SizeAlign) (t : SemType)
    → AllEnd size_of
    → ended (layout_by_kind store size_of t) ≡ true
unfolding layout_by_kind enum_layout
by_kind-ended store size_of t h = kinds t.kind
  where
    kinds : (kind : Kind) → ended (layout_by_kind store size_of (record t { kind = kind })) ≡ true
    kinds kind_enum =
        ended-and_then (enum_loop store size_of t.enum_variants 8 8) _
          (enum_loop-ended store size_of t.enum_variants 8 8 h) (λ r. refl)
    kinds kind_data = record-ended store size_of t.fields h
    kinds kind_class = record-ended store size_of t.fields h
    kinds _ = refl

primitive-ended : (name : Bytes) → ended (primitive_payload_layout name) ≡ true
unfolding primitive_payload_layout
primitive-ended name = ground arith

-- The nested layout is needed only where one type less is left.
found-ended :
    (store : Store) (visiting : List Bytes) (ref : Ref) (nested : SemType → Outcome SizeAlign)
    → ((t : SemType)
        → unvisited store (t.key ∷ visiting) < unvisited store visiting
        → ended (nested t) ≡ true)
    → ended (size_align_found visiting (deref store ref) nested) ≡ true
found-ended store visiting none nested h = refl
found-ended store visiting (some n) nested h = elim (Option-cases (type_at store n)) [
  | inl e ↦ rw e refl
  | inr (t, e) ↦ rw e (elim (Bool-cases (visits visiting t.key)) [
    | inl v ↦ rw v (ground (arith, primitive-ended t.name))
    | inr v ↦
        rw v (ground (arith, primitive-ended t.name, h t (unvisited-lt store n t visiting e v)))
  ])
]

size_align-ended :
    (fuel : ℕ) (store : Store) (visiting : List Bytes) (ref : Ref)
    → unvisited store visiting < fuel
    → ended (size_align_seen fuel store visiting ref) ≡ true
unfolding size_align_seen AllEnd
size_align-ended zero store visiting ref h = absurd (omega arith)
size_align-ended (suc fuel) store visiting ref h =
    found-ended store visiting ref
      (λ t. layout_by_kind store (size_align_seen fuel store (t.key ∷ visiting)) t)
      (λ t less.
        by_kind-ended store (size_align_seen fuel store (t.key ∷ visiting)) t
          (λ r. size_align-ended fuel store (t.key ∷ visiting) r (omega (arith, less, h))))

found-same :
    (store : Store) (visiting : List Bytes) (ref : Ref) (nested other : SemType → Outcome SizeAlign)
    → ((t : SemType)
        → unvisited store (t.key ∷ visiting) < unvisited store visiting
        → nested t ≡ other t)
    → size_align_found visiting (deref store ref) nested
      ≡ size_align_found visiting (deref store ref) other
found-same store visiting none nested other h = refl
found-same store visiting (some n) nested other h = elim (Option-cases (type_at store n)) [
  | inl e ↦ rw e refl
  | inr (t, e) ↦ rw e (elim (Bool-cases (visits visiting t.key)) [
    | inl v ↦ rw v refl
    | inr v ↦ rw v (
        ap (λ l. if is_primitive t.kind then primitive_payload_layout t.name else l)
          (h t (unvisited-lt store n t visiting e v)))
  ])
]

size_align-same :
    (fuel other : ℕ) (store : Store) (visiting : List Bytes) (ref : Ref)
    → unvisited store visiting < fuel
    → unvisited store visiting < other
    → size_align_seen fuel store visiting ref ≡ size_align_seen other store visiting ref
unfolding size_align_seen
size_align-same zero other store visiting ref h k = absurd (omega arith)
size_align-same (suc fuel) zero store visiting ref h k = absurd (omega arith)
size_align-same (suc fuel) (suc other) store visiting ref h k =
    found-same store visiting ref
      (λ t. layout_by_kind store (size_align_seen fuel store (t.key ∷ visiting)) t)
      (λ t. layout_by_kind store (size_align_seen other store (t.key ∷ visiting)) t)
      (λ t less.
        ap (λ size_of. layout_by_kind store size_of t)
          (λ i r.
            size_align-same fuel other store (t.key ∷ visiting) r (omega (arith, less, h))
              (omega (arith, less, k)) i))

-- The computation of a type's layout ends on every store of types, those that contain themselves
-- included: with more fuel than there are types it gives a layout or refuses, and the same as with
-- one more than there are.
pub semantic_size_align-ends :
    (fuel : ℕ) (store : Store) (ref : Ref)
    → length store < fuel
    → (ended (semantic_size_align store ref) ≡ true)
      × (size_align_seen fuel store [] ref ≡ size_align_seen (suc (length store)) store [] ref)
unfolding semantic_size_align
semantic_size_align-ends fuel store ref h =
    let all = unvisited-le_length store [] in
    (
      ended-and_then (size_align_seen (suc (length store)) store [] ref) _
          (size_align-ended (suc (length store)) store [] ref (omega (arith, all))) (λ l. refl),
      size_align-same fuel (suc (length store)) store [] ref (omega (arith, all, h))
          (omega (arith, all)),
    )
