-- ===== src/Tests/Constants.antt =====
-- Constant expressions and type layouts.
use wrela.Prelude.{ℕ, suc, ◌≡◌, refl, ◌↔◌, true, [], ◌∷◌, none, some, length, arith}
use wrela.Bytes.{Bytes}
use wrela.Strconv.{
  parse_uint, split_base, digits_loop, append_digit, digit_value, underscores_loop, parse_int,
}
use wrela.Payload.{
  kind_primitive, kind_data, kind_enum, Store, Field, sized, unsized, size_align_seen,
  semantic_size_align, layout_by_kind, record_layout, enum_layout, enum_loop, fields_loop,
  storage_loop, variant_loop, semantic_variant_payload_size, semantic_field_size,
  align_payload_offset, primitive_payload_layout,
}
use wrela.Payload.Aligned.{Every, IsLaidOut, size_align-IsLaidOut}
use wrela.Payload.Fuel.{ended, semantic_size_align-ends}
use wrela.Const.{
  ConstExpr, name_expr, size_of_expr, binary_expr, ConstIndex, value, eval_const_expr, apply_op,
  op_of,
}
use wrela.Const.Rules.{Evaluates, eval-Evaluates}

abbrev field : Bytes → ℕ → Field
field name n = record { name = name; field_type = some n }

-- U32, a record of two of them and itself in an enum, and a record that contains itself.
abbrev types : Store
types =
    record {
      key = b'U' ∷ [];
      name = b'U' ∷ b'3' ∷ b'2' ∷ [];
      kind = kind_primitive;
      fields = [];
      enum_variants = [];
    }
    ∷ record {
      key = b'P' ∷ [];
      name = b'P' ∷ [];
      kind = kind_data;
      fields = field (b'a' ∷ []) 0 ∷ field (b'b' ∷ []) 0 ∷ [];
      enum_variants = [];
    }
    ∷ record {
      key = b'E' ∷ [];
      name = b'E' ∷ [];
      kind = kind_enum;
      fields = [];
      enum_variants =
          record { name = b'n' ∷ []; fields = [] }
          ∷ record { name = b'p' ∷ []; fields = field (b'p' ∷ []) 1 ∷ field (b'q' ∷ []) 0 ∷ [] }
          ∷ [];
    }
    ∷ record {
      key = b'L' ∷ [];
      name = b'L' ∷ [];
      kind = kind_data;
      fields = field (b'l' ∷ []) 3 ∷ [];
      enum_variants = [];
    }
    ∷ []

layouts :
    (semantic_size_align types (some 1) ≡ sized (8, 4))
    × (semantic_size_align types (some 2) ≡ sized (24, 8))
    × (semantic_size_align types (some 3) ≡ unsized)
unfolding semantic_size_align size_align_seen layout_by_kind record_layout enum_layout enum_loop
    fields_loop storage_loop variant_loop semantic_variant_payload_size semantic_field_size
    align_payload_offset primitive_payload_layout
layouts = (refl, refl, refl)

size_align-IsLaidOut_example : Every IsLaidOut (size_align_seen 5 types [] (some 2))
size_align-IsLaidOut_example = size_align-IsLaidOut 5 types [] (some 2)

semantic_size_align-ends_example :
    (ended (semantic_size_align types (some 3)) ≡ true)
    × (size_align_seen 9 types [] (some 3) ≡ size_align_seen (suc (length types)) types [] (some 3))
semantic_size_align-ends_example = semantic_size_align-ends 9 types (some 3) (omega arith)

literals :
    (parse_uint (b'0' ∷ b'x' ∷ b'F' ∷ b'_' ∷ b'f' ∷ []) ≡ some 255)
    × (parse_uint (b'0' ∷ b'1' ∷ b'0' ∷ []) ≡ some 8)
    × (parse_uint (b'1' ∷ b'_' ∷ []) ≡ none)
    × (parse_int (b'-' ∷ b'1' ∷ []) ≡ some 18446744073709551615)
unfolding parse_int parse_uint split_base digits_loop append_digit digit_value underscores_loop
literals = (refl, refl, refl, refl)

abbrev index : ConstIndex ℕ
index = record {
  scope = (b'n' ∷ [], 5) ∷ [];
  lookup_const = λ name. none;
  lookup_type_ref = λ n. some (some n);
  types = types;
}

-- n << sizeof(P)
abbrev shifted : ConstExpr ℕ
shifted = binary_expr (b'<' ∷ b'<' ∷ []) (name_expr (b'n' ∷ [])) (size_of_expr 1)

evaluated : eval_const_expr index shifted ≡ value 1280
unfolding eval_const_expr apply_op op_of semantic_size_align size_align_seen layout_by_kind
    record_layout enum_layout enum_loop fields_loop storage_loop variant_loop
    semantic_variant_payload_size semantic_field_size align_payload_offset primitive_payload_layout
evaluated = refl

eval-Evaluates_example : (eval_const_expr index shifted ≡ value 1280) ↔ Evaluates index shifted 1280
eval-Evaluates_example = eval-Evaluates index shifted 1280
