-- ===== src/Payload/Aligned.antt =====
-- Sizes are multiples of alignments.
use wrela.Prelude.{
  ℕ, zero, suc, ◌%◌, ◌≡◌, refl, ◌⊎◌, inl, inr, Bool-cases, List, [], ◌∷◌, Option, none, some, ◌==◌,
  ltb, if◌then◌else◌, arith,
}
use wrela.Bytes.{Bytes}
use wrela.Payload.{
  Outcome, sized, unsized, out_of_fuel, and_then, SizeAlign, FieldLayout, SemType, Kind, Ref, Store,
  Field, EnumVariant, deref, max, kind_data, kind_class, kind_enum, align_payload_offset,
  primitive_payload_layout, semantic_field_size, variant_loop, semantic_variant_payload_size,
  enum_loop, enum_layout, fields_loop, storage_loop, record_layout, layout_by_kind, size_align_seen,
  size_align_found,
}

-- What holds of the layout, if there is one.
abbrev pub Every {ℓ κ} : {A : Type ℓ} → (A → Type κ) → Outcome A → Type κ
Every P (sized a) = P a
Every P unsized = Unit
Every P out_of_fuel = Unit

pub Every-and_then {ℓ κ μ ν} :
    {A : Type ℓ}
    → {B : Type κ} → (P : A → Type μ) → (Q : B → Type ν) → (o : Outcome A) → (next : A → Outcome B)
    → Every P o
    → ((a : A) → P a → Every Q (next a))
    → Every Q (and_then o next)
Every-and_then P Q (sized a) next p q = q a p
Every-and_then P Q unsized next p q = tt
Every-and_then P Q out_of_fuel next p q = tt

abbrev pub IsAlign : ℕ → Type 0
IsAlign a = (a ≡ 1) ⊎ ((a ≡ 2) ⊎ ((a ≡ 4) ⊎ (a ≡ 8)))

abbrev pub IsLaidOut : SizeAlign → Type 0
IsLaidOut l = IsAlign l.align × (l.value_size % l.align ≡ 0) × (l.storage_size % l.align ≡ 0)

align-multiple : (offset align : ℕ) → IsAlign align → align_payload_offset offset align % align ≡ 0
unfolding align_payload_offset
align-multiple offset align (inl one) = rw one (ground arith)
align-multiple offset align (inr (inl two)) = rw two (ground arith)
align-multiple offset align (inr (inr (inl four))) = rw four (ground arith)
align-multiple offset align (inr (inr (inr eight))) = rw eight (ground arith)

max-IsAlign : (a b : ℕ) → IsAlign a → IsAlign b → IsAlign (max a b)
max-IsAlign a b h k = elim (Bool-cases (ltb b a)) [ inl e ↦ rw e h | inr e ↦ rw e k ]

scalars-IsLaidOut : (name : Bytes) → Every IsLaidOut (primitive_payload_layout name)
unfolding primitive_payload_layout
scalars-IsLaidOut name = ground arith

LaysOut : (Ref → Outcome SizeAlign) → Type 0
LaysOut size_of = (ref : Ref) → Every IsLaidOut (size_of ref)

-- A field that is a handle keeps its storage size, so only the value is known to be aligned.
IsFieldAligned : SizeAlign → Type 0
IsFieldAligned l = IsAlign l.align

field-IsFieldAligned :
    (store : Store) (size_of : Ref → Outcome SizeAlign) (ref : Ref)
    → LaysOut size_of
    → Every IsFieldAligned (semantic_field_size store size_of ref)
unfolding semantic_field_size LaysOut IsFieldAligned
field-IsFieldAligned store size_of none h = tt
field-IsFieldAligned store size_of (some n) h =
    Every-and_then IsLaidOut IsFieldAligned (size_of (some n)) _ (h (some n))
      (λ l k. ground (arith, k.0))

variant_loop-IsAlign :
    (store : Store) (size_of : Ref → Outcome SizeAlign) (fields : List Field) (offset align : ℕ)
    → LaysOut size_of
    → IsAlign align
    → Every (λ r. IsAlign r.1) (variant_loop store size_of fields offset align)
unfolding variant_loop IsFieldAligned
variant_loop-IsAlign store size_of [] offset align h a = a
variant_loop-IsAlign store size_of (field ∷ fields) offset align h a =
    Every-and_then IsFieldAligned (λ r. IsAlign r.1)
      (semantic_field_size store size_of field.field_type) _
      (field-IsFieldAligned store size_of field.field_type h)
      (λ l k. variant_loop-IsAlign store size_of fields _ _ h (max-IsAlign l.align align k a))

variant-IsAlign :
    (store : Store) (size_of : Ref → Outcome SizeAlign) (fields : List Field)
    → LaysOut size_of
    → Every (λ r. IsAlign r.1) (semantic_variant_payload_size store size_of fields)
unfolding semantic_variant_payload_size
variant-IsAlign store size_of fields h =
    Every-and_then (λ r. IsAlign r.1) (λ r. IsAlign r.1) (variant_loop store size_of fields 8 1) _
      (variant_loop-IsAlign store size_of fields 8 1 h (inl refl)) (λ r k. k)

enum_loop-IsAlign :
    (store : Store) (size_of : Ref → Outcome SizeAlign) (variants : List EnumVariant)
    (size align : ℕ)
    → LaysOut size_of
    → IsAlign align
    → Every (λ r. IsAlign r.1) (enum_loop store size_of variants size align)
unfolding enum_loop
enum_loop-IsAlign store size_of [] size align h a = a
enum_loop-IsAlign store size_of (variant ∷ variants) size align h a =
    Every-and_then (λ r. IsAlign r.1) (λ r. IsAlign r.1)
      (semantic_variant_payload_size store size_of variant.fields) _
      (variant-IsAlign store size_of variant.fields h)
      (λ r k. enum_loop-IsAlign store size_of variants _ _ h (max-IsAlign r.1 align k a))

eight_multiple : (align : ℕ) → IsAlign align → 8 % align ≡ 0
eight_multiple align (inl one) = rw one refl
eight_multiple align (inr (inl two)) = rw two refl
eight_multiple align (inr (inr (inl four))) = rw four refl
eight_multiple align (inr (inr (inr eight))) = rw eight refl

enum-IsLaidOut :
    (store : Store) (size_of : Ref → Outcome SizeAlign) (variants : List EnumVariant)
    → LaysOut size_of
    → Every IsLaidOut (enum_layout store size_of variants)
unfolding enum_layout
enum-IsLaidOut store size_of variants h =
    Every-and_then (λ r. IsAlign r.1) IsLaidOut (enum_loop store size_of variants 8 8) _
      (enum_loop-IsAlign store size_of variants 8 8 h (inr (inr (inr refl))))
      (λ r k. elim (Bool-cases (align_payload_offset r.0 r.1 == 0)) [
        | inl e ↦ rw e (k, eight_multiple r.1 k, eight_multiple r.1 k)
        | inr e ↦ rw e (k, align-multiple r.0 r.1 k, align-multiple r.0 r.1 k)
      ])

abbrev IsFieldsAlign : ℕ → Type 0
IsFieldsAlign a = (a ≡ 0) ⊎ IsAlign a

fields_loop-IsAlign :
    (store : Store) (size_of : Ref → Outcome SizeAlign) (fields : List Field) (size align : ℕ)
    (layouts : List FieldLayout)
    → LaysOut size_of
    → IsFieldsAlign align
    → Every (λ r. IsFieldsAlign r.1) (fields_loop store size_of fields size align layouts)
unfolding fields_loop IsFieldAligned
fields_loop-IsAlign store size_of [] size align layouts h a = a
fields_loop-IsAlign store size_of (field ∷ fields) size align layouts h a =
    Every-and_then IsFieldAligned (λ r. IsFieldsAlign r.1)
      (semantic_field_size store size_of field.field_type) _
      (field-IsFieldAligned store size_of field.field_type h)
      (λ l k. fields_loop-IsAlign store size_of fields _ _ _ h (larger l.align k a))
  where
    larger : (b : ℕ) → IsAlign b → IsFieldsAlign align → IsFieldsAlign (max b align)
    larger b k (inl zero_align) = rw zero_align (inr (ground (arith, k)))
    larger b k (inr known) = inr (max-IsAlign b align k known)

known-IsAlign : (a : ℕ) → IsFieldsAlign a → IsAlign (if a == 0 then 8 else a)
known-IsAlign a (inl zero_align) = rw zero_align (inr (inr (inr refl)))
known-IsAlign a (inr h) = ground (arith, h)

record-IsLaidOut :
    (store : Store) (size_of : Ref → Outcome SizeAlign) (fields : List Field)
    → LaysOut size_of
    → Every IsLaidOut (record_layout store size_of fields)
unfolding record_layout
record-IsLaidOut store size_of [] h = (inr (inr (inr refl)), refl, refl)
record-IsLaidOut store size_of (field ∷ fields) h =
    Every-and_then (λ r. IsFieldsAlign r.1) IsLaidOut
      (fields_loop store size_of (field ∷ fields) 0 0 []) _
      (fields_loop-IsAlign store size_of (field ∷ fields) 0 0 [] h (inl refl))
      (λ r k.
        let align = if r.1 == 0 then 8 else r.1 in
        let a : IsAlign align = known-IsAlign r.1 k in
        let value = align_payload_offset r.0 align in
        let storage = align_payload_offset (storage_loop r.2 value) align in
        let v = align-multiple r.0 align a in
        let s = align-multiple (storage_loop r.2 value) align a in
        (a, v, elim (Bool-cases (storage == 0)) [ inl e ↦ rw e v | inr e ↦ rw e s ]))

by_kind-IsLaidOut :
    (store : Store) (size_of : Ref → Outcome SizeAlign) (t : SemType)
    → LaysOut size_of
    → Every IsLaidOut (layout_by_kind store size_of t)
unfolding layout_by_kind
by_kind-IsLaidOut store size_of t h = kinds t.kind
  where
    kinds :
        (kind : Kind) → Every IsLaidOut (layout_by_kind store size_of (record t { kind = kind }))
    kinds kind_enum = enum-IsLaidOut store size_of t.enum_variants h
    kinds kind_data = record-IsLaidOut store size_of t.fields h
    kinds kind_class = record-IsLaidOut store size_of t.fields h
    kinds _ = tt

-- If a type has a layout, its alignment is 1, 2, 4 or 8, and both of its sizes are multiples of
-- it. This holds of every store of types, whatever the fuel and the keys that are being visited.
pub size_align-IsLaidOut :
    (fuel : ℕ) (store : Store) (visiting : List Bytes) (ref : Ref)
    → Every IsLaidOut (size_align_seen fuel store visiting ref)
unfolding size_align_seen LaysOut
size_align-IsLaidOut zero store visiting ref = tt
size_align-IsLaidOut (suc fuel) store visiting ref = found (deref store ref) (λ t.
    by_kind-IsLaidOut store (size_align_seen fuel store (t.key ∷ visiting)) t
      (size_align-IsLaidOut fuel store (t.key ∷ visiting)))
  where
    found :
        (o : Option SemType)
        → ((t : SemType)
            → Every IsLaidOut
                (layout_by_kind store (size_align_seen fuel store (t.key ∷ visiting)) t))
        → Every IsLaidOut (
            size_align_found visiting o
              (λ t. layout_by_kind store (size_align_seen fuel store (t.key ∷ visiting)) t))
    found none nested = tt
    found (some t) nested = ground (arith, nested t, scalars-IsLaidOut t.name)
