-- ===== src/Const.antt =====
-- Constant expressions: compiler/sem/const.go.
pub mod Rules
use wrela.Prelude.{
  ℕ, ◌+◌, ◌-◌, ◌*◌, ◌/◌, ◌^◌, Bool, true, false, List, [], ◌∷◌, Option, none, some, ◌==◌, ltb, leb,
  if◌then◌else◌, u64,
}
use wrela.Bytes.{Bytes, bytes_eq}
use wrela.Strconv.{parse_uint}
use wrela.Payload.{Store, Ref, Outcome, sized, unsized, out_of_fuel, semantic_size_align}
use Prim.Native.Nat.{bit_and, bit_or}

-- An expression of the syntax tree, with type references `R`. `not_constant` stands for every
-- expression that is none of these.
pub data ConstExpr {ℓ} (R : Type ℓ) : Type ℓ where
  int_literal name_expr : Bytes → ConstExpr R
  size_of_expr align_of_expr : R → ConstExpr R
  binary_expr : Bytes → ConstExpr R → ConstExpr R → ConstExpr R
  not_constant : ConstExpr R

-- The diagnostics by their codes: SEM0086, SEM0087, SEM0088, and those of `LookupTypeRef`.
pub data ConstError : Type 0 where
  overflows not_allowed unsized_type no_type : ConstError

pub data Evaluation : Type 0 where
  value : ℕ → Evaluation
  refused : ConstError → Evaluation

-- What the checker knows: the scope, the constants of the module that have a type, and what the
-- references to types stand for, none for a diagnostic.
pub record ConstIndex {ℓ} (R : Type ℓ) : Type ℓ where
  pub scope : List (Bytes × ℕ)
  pub lookup_const : Bytes → Option ℕ
  pub lookup_type_ref : R → Option Ref
  pub types : Store

abbrev pub find_value : List (Bytes × ℕ) → Bytes → Option ℕ
find_value [] name = none
find_value ((known, v) ∷ more) name = if bytes_eq known name then some v else find_value more name

abbrev pub or_refuse : ConstError → Option ℕ → Evaluation
or_refuse e none = refused e
or_refuse e (some v) = value v

abbrev pub scoped : Option ℕ → Option ℕ → Option ℕ
scoped none outer = outer
scoped (some v) outer = some v

pub data Op : Type 0 where
  add_op sub_op mul_op shl_op shr_op and_op or_op eq_op ne_op lt_op le_op gt_op ge_op unknown_op :
      Op

-- The cases of the switch on the operator.
unfoldable pub op_of : Bytes → Op
op_of (c ∷ []) =
    if c == b'+'
    then add_op
    else if c == b'-'
    then sub_op
    else if c == b'*'
    then mul_op
    else if c == b'&'
    then and_op
    else if c == b'|'
    then or_op
    else if c == b'<'
    then lt_op
    else if c == b'>'
    then gt_op
    else unknown_op
op_of (c ∷ d ∷ []) =
    if bytes_eq (c ∷ d ∷ []) (b'<' ∷ b'<' ∷ [])
    then shl_op
    else if bytes_eq (c ∷ d ∷ []) (b'>' ∷ b'>' ∷ [])
    then shr_op
    else if bytes_eq (c ∷ d ∷ []) (b'=' ∷ b'=' ∷ [])
    then eq_op
    else if bytes_eq (c ∷ d ∷ []) (b'!' ∷ b'=' ∷ [])
    then ne_op
    else if bytes_eq (c ∷ d ∷ []) (b'<' ∷ b'=' ∷ [])
    then le_op
    else if bytes_eq (c ∷ d ∷ []) (b'>' ∷ b'=' ∷ [])
    then ge_op
    else unknown_op
op_of _ = unknown_op

abbrev one_if : Bool → Evaluation
one_if b = value (if b then 1 else 0)

-- The switch on the operator, with both operands evaluated. `bits.Add64` and `bits.Mul64` give the
-- sum and the product with their high words.
unfoldable pub apply_op : Op → ℕ → ℕ → Evaluation
apply_op add_op left right =
    let carry = (left + right) / 18446744073709551616 in
    if carry == 0 then value (u64 (left + right)) else refused overflows
apply_op sub_op left right = if ltb left right then refused overflows else value (left - right)
apply_op mul_op left right =
    let hi = left * right / 18446744073709551616 in
    if hi == 0 then value (u64 (left * right)) else refused overflows
apply_op shl_op left right =
    if leb 64 right then refused overflows else value (u64 (left * 2 ^ right))
apply_op shr_op left right = if leb 64 right then refused overflows else value (left / 2 ^ right)
apply_op and_op left right = value (bit_and left right)
apply_op or_op left right = value (bit_or left right)
apply_op eq_op left right = one_if (left == right)
apply_op ne_op left right = one_if (if left == right then false else true)
apply_op lt_op left right = one_if (ltb left right)
apply_op le_op left right = one_if (leb left right)
apply_op gt_op left right = one_if (ltb right left)
apply_op ge_op left right = one_if (leb right left)
apply_op unknown_op left right = refused not_allowed

abbrev pub pick_size : (ℕ × ℕ → ℕ) → Outcome (ℕ × ℕ) → Evaluation
pick_size pick (sized l) = value (pick l)
pick_size pick unsized = refused unsized_type
pick_size pick out_of_fuel = refused unsized_type

abbrev pub measured : (ℕ × ℕ → ℕ) → Store → Option Ref → Evaluation
measured pick store none = refused no_type
measured pick store (some ref) = pick_size pick (semantic_size_align store ref)

abbrev pub operand : Evaluation → (ℕ → Evaluation) → Evaluation
operand (refused e) next = refused e
operand (value v) next = next v

-- `evalConstExpr`
unfoldable pub eval_const_expr {ℓ} : {R : Type ℓ} → ConstIndex R → ConstExpr R → Evaluation
eval_const_expr index (int_literal text) = or_refuse overflows (parse_uint text)
eval_const_expr index (name_expr name) =
    or_refuse not_allowed (scoped (find_value index.scope name) (index.lookup_const name))
eval_const_expr index (size_of_expr type_ref) =
    measured (λ l. l.0) index.types (index.lookup_type_ref type_ref)
eval_const_expr index (align_of_expr type_ref) =
    measured (λ l. l.1) index.types (index.lookup_type_ref type_ref)
eval_const_expr index (binary_expr op left right) =
    operand (eval_const_expr index left)
      (λ l. operand (eval_const_expr index right) (λ r. apply_op (op_of op) l r))
eval_const_expr index not_constant = refused not_allowed
