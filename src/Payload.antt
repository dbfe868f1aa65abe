-- ===== src/Payload.antt =====
-- Sizes and alignments of types: compiler/sem/topic_payload.go.
pub mod Fuel
pub mod Aligned
use wrela.Prelude.{
  ℕ, zero, suc, ◌+◌, ◌-◌, ◌%◌, Bool, true, false, ◌&&◌, ◌||◌, not, List, [], ◌∷◌, ◌++◌, Option,
  none, some, ◌==◌, ltb, if◌then◌else◌, length, u64, add64, sub64,
}
use wrela.Bytes.{Bytes, bytes_eq}

pub data Kind : Type 0 where
  kind_primitive kind_data kind_class kind_driver kind_driver_path kind_executor : Kind
  kind_image kind_enum kind_trait kind_type_param kind_event kind_projection : Kind

-- A pointer to a type, or nil: the types stand in a store.
abbrev pub Ref : Type 0
Ref = Option ℕ

pub record Field : Type 0 where
  pub name : Bytes
  pub field_type : Ref

pub record EnumVariant : Type 0 where
  pub name : Bytes
  pub fields : List Field

-- The fields of `Type` that its layout depends on. `key` is the value of `Key`.
pub record SemType : Type 0 where
  pub key : Bytes
  pub name : Bytes
  pub kind : Kind
  pub fields : List Field
  pub enum_variants : List EnumVariant

abbrev pub Store : Type 0
Store = List SemType

abbrev pub type_at : Store → ℕ → Option SemType
type_at [] n = none
type_at (t ∷ ts) zero = some t
type_at (t ∷ ts) (suc n) = type_at ts n

abbrev pub deref : Store → Ref → Option SemType
deref store none = none
deref store (some n) = type_at store n

-- What a call gives: a layout, `ok` false, or nothing yet when the fuel is used up.
pub data Outcome {ℓ} (A : Type ℓ) : Type ℓ where
  sized : A → Outcome A
  unsized out_of_fuel : Outcome A

abbrev pub and_then {ℓ κ} : {A : Type ℓ} → {B : Type κ} → Outcome A → (A → Outcome B) → Outcome B
and_then (sized a) next = next a
and_then unsized next = unsized
and_then out_of_fuel next = out_of_fuel

pub record SizeAlign : Type 0 where
  pub value_size : ℕ
  pub align : ℕ
  pub storage_size : ℕ

-- `alignPayloadOffset`
unfoldable pub align_payload_offset : ℕ → ℕ → ℕ
align_payload_offset offset align =
    if align == 0 || offset % align == 0 then offset else u64 (offset + align - offset % align)

abbrev scalar : ℕ → Outcome SizeAlign
scalar size = sized (record { value_size = size; align = size; storage_size = size })

-- `primitivePayloadLayout`
unfoldable pub primitive_payload_layout : Bytes → Outcome SizeAlign
primitive_payload_layout name =
    if bytes_eq name (b'B' ∷ b'o' ∷ b'o' ∷ b'l' ∷ []) || bytes_eq name (b'U' ∷ b'8' ∷ [])
    then scalar 1
    else if bytes_eq name (b'U' ∷ b'1' ∷ b'6' ∷ [])
    then scalar 2
    else if bytes_eq name (b'U' ∷ b'3' ∷ b'2' ∷ [])
    then scalar 4
    else if bytes_eq name (b'U' ∷ b'6' ∷ b'4' ∷ [])
        || bytes_eq name (b'I' ∷ b'6' ∷ b'4' ∷ [])
        || bytes_eq name (
            b'P' ∷ b'h' ∷ b'y' ∷ b's' ∷ b'i' ∷ b'c' ∷ b'a' ∷ b'l' ∷ b'A' ∷ b'd' ∷ b'd' ∷ b'r' ∷ b'e'
            ∷ b's' ∷ b's' ∷ [])
        || bytes_eq name (
            b'V' ∷ b'i' ∷ b'r' ∷ b't' ∷ b'u' ∷ b'a' ∷ b'l' ∷ b'A' ∷ b'd' ∷ b'd' ∷ b'r' ∷ b'e' ∷ b's'
            ∷ b's' ∷ [])
    then scalar 8
    else unsized

-- The test of `isSemanticHandleValue`
abbrev pub is_handle_kind : Kind → Bool
is_handle_kind kind_data = true
is_handle_kind kind_class = true
is_handle_kind kind_driver = true
is_handle_kind kind_driver_path = true
is_handle_kind kind_executor = true
is_handle_kind _ = false

abbrev pub is_data_kind : Kind → Bool
is_data_kind kind_data = true
is_data_kind _ = false

abbrev pub is_semantic_handle_value : Option SemType → Bool
is_semantic_handle_value none = false
is_semantic_handle_value (some t) = is_handle_kind t.kind

-- `semanticFieldSizeAndStorage`, with the recursive call `size_of`.
unfoldable pub semantic_field_size : Store → (Ref → Outcome SizeAlign) → Ref → Outcome SizeAlign
semantic_field_size store size_of none = unsized
semantic_field_size store size_of (some n) = and_then (size_of (some n)) (λ l. sized (
    if is_semantic_handle_value (deref store (some n))
    then record { value_size = 8; align = 8; storage_size = l.storage_size }
    else l))

abbrev pub max : ℕ → ℕ → ℕ
max a b = if ltb b a then a else b

-- `semanticVariantPayloadSize`: the offset and the alignment over the fields.
unfoldable pub variant_loop :
    Store → (Ref → Outcome SizeAlign) → List Field → ℕ → ℕ → Outcome (ℕ × ℕ)
variant_loop store size_of [] offset align = sized (offset, align)
variant_loop store size_of (field ∷ fields) offset align =
    and_then (semantic_field_size store size_of field.field_type) (λ l.
      variant_loop store size_of fields (add64 (align_payload_offset offset l.align) l.storage_size)
        (max l.align align))

unfoldable pub semantic_variant_payload_size :
    Store → (Ref → Outcome SizeAlign) → List Field → Outcome (ℕ × ℕ)
semantic_variant_payload_size store size_of fields =
    and_then (variant_loop store size_of fields 8 1)
      (λ (offset, align). sized (align_payload_offset (sub64 offset 8) align, align))

-- The loop over the variants, with the size and the alignment of the enum.
unfoldable pub enum_loop :
    Store → (Ref → Outcome SizeAlign) → List EnumVariant → ℕ → ℕ → Outcome (ℕ × ℕ)
enum_loop store size_of [] size align = sized (size, align)
enum_loop store size_of (variant ∷ variants) size align =
    and_then (semantic_variant_payload_size store size_of variant.fields)
      (λ (variant_size, variant_align).
        enum_loop store size_of variants (max (add64 8 variant_size) size)
          (max variant_align align))

unfoldable pub enum_layout :
    Store → (Ref → Outcome SizeAlign) → List EnumVariant → Outcome SizeAlign
enum_layout store size_of variants =
    and_then (enum_loop store size_of variants 8 8) (λ (size, align).
      let aligned = align_payload_offset size align in
      let whole = if aligned == 0 then 8 else aligned in
      sized (record { value_size = whole; align = align; storage_size = whole }))

-- `semanticFieldLayout`
pub record FieldLayout : Type 0 where
  pub layout : SizeAlign
  pub is_data : Bool

abbrev pub refers_to_data : Option SemType → Bool
refers_to_data none = false
refers_to_data (some t) = is_data_kind t.kind

-- The loop over the fields of a record: the size so far, the alignment, and the fields' layouts.
unfoldable pub fields_loop :
    Store
    → (Ref → Outcome SizeAlign)
    → List Field
    → ℕ
    → ℕ
    → List FieldLayout
    → Outcome (ℕ × ℕ × List FieldLayout)
fields_loop store size_of [] size align layouts = sized (size, align, layouts)
fields_loop store size_of (field ∷ fields) size align layouts =
    and_then (semantic_field_size store size_of field.field_type) (λ l.
      fields_loop store size_of fields (add64 (align_payload_offset size l.align) l.value_size)
        (max l.align align)
        (layouts
          ++ record { layout = l; is_data = refers_to_data (deref store field.field_type) } ∷ []))

-- The loop that places the storage of the fields behind the value.
unfoldable pub storage_loop : List FieldLayout → ℕ → ℕ
storage_loop [] offset = offset
storage_loop (f ∷ fs) offset =
    let storage_align = if f.layout.align == 0 then 8 else f.layout.align in
    storage_loop fs (
      if f.is_data
      then add64 (align_payload_offset offset storage_align) f.layout.storage_size
      else offset)

unfoldable pub record_layout : Store → (Ref → Outcome SizeAlign) → List Field → Outcome SizeAlign
record_layout store size_of [] = scalar 8
record_layout store size_of (field ∷ fields) =
    and_then (fields_loop store size_of (field ∷ fields) 0 0 []) (λ (size, field_align, layouts).
      let align = if field_align == 0 then 8 else field_align in
      let value_size = align_payload_offset size align in
      let storage = align_payload_offset (storage_loop layouts value_size) align in
      sized (record {
        value_size = value_size;
        align = align;
        storage_size = if storage == 0 then value_size else storage;
      }))

-- The layout of a type by its kind, for a type whose key is not being visited.
unfoldable pub layout_by_kind : Store → (Ref → Outcome SizeAlign) → SemType → Outcome SizeAlign
layout_by_kind store size_of t = elim t.kind [
  | kind_enum ↦ enum_layout store size_of t.enum_variants
  | kind_data ↦ record_layout store size_of t.fields
  | kind_class ↦ record_layout store size_of t.fields
  | _ ↦ unsized
]

abbrev pub visits : List Bytes → Bytes → Bool
visits [] key = false
visits (k ∷ ks) key = bytes_eq k key || visits ks key

abbrev pub is_primitive : Kind → Bool
is_primitive kind_primitive = true
is_primitive _ = false

-- The type at hand, with its layout if it is neither primitive nor being visited.
abbrev pub size_align_found :
    List Bytes → Option SemType → (SemType → Outcome SizeAlign) → Outcome SizeAlign
size_align_found visiting none nested = unsized
size_align_found visiting (some t) nested =
    if is_primitive t.kind
    then primitive_payload_layout t.name
    else if visits visiting t.key
    then unsized
    else nested t

-- `semanticSizeAlignAndStorageSeen`. A nested call visits one key more, and the caller's set is as
-- before when it returns.
unfoldable pub size_align_seen : ℕ → Store → List Bytes → Ref → Outcome SizeAlign
size_align_seen zero store visiting ref = out_of_fuel
size_align_seen (suc fuel) store visiting ref =
    size_align_found visiting (deref store ref)
      (λ t. layout_by_kind store (size_align_seen fuel store (t.key ∷ visiting)) t)

-- `semanticSizeAlign`, which is `payloadLayoutFromType` as well: it gives the storage as the size.
-- The fuel is one more than the types that can be visited.
unfoldable pub semantic_size_align : Store → Ref → Outcome (ℕ × ℕ)
semantic_size_align store ref =
    and_then (size_align_seen (suc (length store)) store [] ref)
      (λ l. sized (l.storage_size, l.align))
