-- ===== src/Const/Rules.antt =====
-- Constant expressions by rules over unbounded numbers.
use wrela.Prelude.{
  ℕ, ◌+◌, [], ◌∷◌, ◌*◌, ◌/◌, ◌%◌, ◌^◌, ◌≤◌, ◌<◌, ◌≡◌, refl, sym, ap, subst, ◌∙◌, ◌↔◌, ◌⊎◌, inl, inr,
  Option, none, some, Option-cases, IsU64, arith,
}
use wrela.Bytes.{Bytes}
use wrela.Strconv.{parse_uint}
use wrela.Strconv.Value.{literal_value, limited, parse_uint-exact}
use wrela.Payload.{Store, Ref, Outcome, sized, unsized, out_of_fuel, semantic_size_align}
use wrela.Const.{
  ConstExpr, int_literal, name_expr, size_of_expr, align_of_expr, binary_expr, not_constant,
  ConstError, overflows, not_allowed, unsized_type, Evaluation, value, refused, ConstIndex,
  find_value, Op, op_of, apply_op, pick_size, measured, eval_const_expr, or_refuse, add_op, sub_op,
  mul_op, shl_op, shr_op, and_op, or_op, eq_op, ne_op, lt_op, le_op, gt_op, ge_op, unknown_op,
}
use Prim.Native.Nat.{bit_and, bit_or}

-- 1 or 0, as a statement holds.
abbrev Decides : Type 0 → Type 0 → ℕ → Type 0
Decides P Q v = (P × (v ≡ 1)) ⊎ (Q × (v ≡ 0))

-- What an operator gives: the exact result, where 64 bits hold it. A shift to the left drops what
-- leaves the 64 bits.
abbrev pub Computes : Op → ℕ → ℕ → ℕ → Type 0
Computes add_op a b v = (a + b ≡ v) × IsU64 v
Computes sub_op a b v = b + v ≡ a
Computes mul_op a b v = (a * b ≡ v) × IsU64 v
Computes shl_op a b v = (b < 64) × (a * 2 ^ b % 18446744073709551616 ≡ v)
Computes shr_op a b v = (b < 64) × (a / 2 ^ b ≡ v)
Computes and_op a b v = bit_and a b ≡ v
Computes or_op a b v = bit_or a b ≡ v
Computes eq_op a b v = Decides (a ≡ b) ((a < b) ⊎ (b < a)) v
Computes ne_op a b v = Decides ((a < b) ⊎ (b < a)) (a ≡ b) v
Computes lt_op a b v = Decides (a < b) (b ≤ a) v
Computes le_op a b v = Decides (a ≤ b) (b < a) v
Computes gt_op a b v = Decides (b < a) (a ≤ b) v
Computes ge_op a b v = Decides (b ≤ a) (a < b) v
Computes unknown_op a b v = ⊥

apply_op-Computes : (op : Op) (a b v : ℕ) → (apply_op op a b ≡ value v) ↔ Computes op a b v
unfolding apply_op
apply_op-Computes add_op a b v = ground arith
apply_op-Computes sub_op a b v = ground arith
apply_op-Computes mul_op a b v = ground arith
apply_op-Computes shl_op a b v = ground arith
apply_op-Computes shr_op a b v = ground arith
apply_op-Computes and_op a b v = ground arith
apply_op-Computes or_op a b v = ground arith
apply_op-Computes eq_op a b v = ground arith
apply_op-Computes ne_op a b v = ground arith
apply_op-Computes lt_op a b v = ground arith
apply_op-Computes le_op a b v = ground arith
apply_op-Computes gt_op a b v = ground arith
apply_op-Computes ge_op a b v = ground arith
apply_op-Computes unknown_op a b v = ground arith

-- How each operator is written.
abbrev pub Spells : Op → Bytes → Type 0
Spells add_op text = text ≡ b'+' ∷ []
Spells sub_op text = text ≡ b'-' ∷ []
Spells mul_op text = text ≡ b'*' ∷ []
Spells shl_op text = text ≡ b'<' ∷ b'<' ∷ []
Spells shr_op text = text ≡ b'>' ∷ b'>' ∷ []
Spells and_op text = text ≡ b'&' ∷ []
Spells or_op text = text ≡ b'|' ∷ []
Spells eq_op text = text ≡ b'=' ∷ b'=' ∷ []
Spells ne_op text = text ≡ b'!' ∷ b'=' ∷ []
Spells lt_op text = text ≡ b'<' ∷ []
Spells le_op text = text ≡ b'<' ∷ b'=' ∷ []
Spells gt_op text = text ≡ b'>' ∷ []
Spells ge_op text = text ≡ b'>' ∷ b'=' ∷ []
Spells unknown_op text = ⊥

op_of-Spells : (o : Op) (text : Bytes) → op_of text ≡ o → (o ≡ unknown_op) ⊎ Spells o text
unfolding op_of
op_of-Spells o (c ∷ []) h = ground arith
op_of-Spells o (c ∷ d ∷ []) h = ground arith
op_of-Spells o _ h = inl (sym h)

Spells-op_of : (o : Op) (text : Bytes) → Spells o text → op_of text ≡ o
unfolding op_of
Spells-op_of add_op text h = ap op_of h
Spells-op_of sub_op text h = ap op_of h
Spells-op_of mul_op text h = ap op_of h
Spells-op_of shl_op text h = ap op_of h
Spells-op_of shr_op text h = ap op_of h
Spells-op_of and_op text h = ap op_of h
Spells-op_of or_op text h = ap op_of h
Spells-op_of eq_op text h = ap op_of h
Spells-op_of ne_op text h = ap op_of h
Spells-op_of lt_op text h = ap op_of h
Spells-op_of le_op text h = ap op_of h
Spells-op_of gt_op text h = ap op_of h
Spells-op_of ge_op text h = ap op_of h
Spells-op_of unknown_op text h = absurd h

-- The rules: a literal has its exact value, a name that of the scope or else of its constant, and
-- an operator computes on the values of its operands.
pub data Evaluates {ℓ} {R : Type ℓ} (index : ConstIndex R) : ConstExpr R → ℕ → Type ℓ where
  evaluates_literal :
      (text : Bytes) (v : ℕ)
      → limited (literal_value text) ≡ some v
      → Evaluates index (int_literal text) v
  evaluates_scope :
      (name : Bytes) (v : ℕ)
      → find_value index.scope name ≡ some v
      → Evaluates index (name_expr name) v
  evaluates_const :
      (name : Bytes) (v : ℕ)
      → find_value index.scope name ≡ none
      → index.lookup_const name ≡ some v
      → Evaluates index (name_expr name) v
  evaluates_size :
      (type_ref : R) (ref : Ref) (size align : ℕ)
      → index.lookup_type_ref type_ref ≡ some ref
      → semantic_size_align index.types ref ≡ sized (size, align)
      → Evaluates index (size_of_expr type_ref) size
  evaluates_align :
      (type_ref : R) (ref : Ref) (size align : ℕ)
      → index.lookup_type_ref type_ref ≡ some ref
      → semantic_size_align index.types ref ≡ sized (size, align)
      → Evaluates index (align_of_expr type_ref) align
  evaluates_binary :
      (op : Op) (text : Bytes) (left right : ConstExpr R) (l r v : ℕ)
      → Spells op text
      → Evaluates index left l
      → Evaluates index right r
      → Computes op l r v
      → Evaluates index (binary_expr text left right) v

-- A text that computes anything spells an operator.
computing-Spells :
    (text : Bytes) (l r v : ℕ) → Computes (op_of text) l r v → Spells (op_of text) text
computing-Spells text l r v c = elim (op_of-Spells (op_of text) text refl) [
  | inl unknown ↦ absurd (subst (λ o. Computes o l r v) unknown c)
  | inr spelt ↦ spelt
]

Evaluation-cases :
    (e : Evaluation) → ((v : ℕ) × (e ≡ value v)) ⊎ ((c : ConstError) × (e ≡ refused c))
Evaluation-cases (value v) = inl (v, refl)
Evaluation-cases (refused c) = inr (c, refl)

Outcome-cases {ℓ} :
    {A : Type ℓ} (o : Outcome A) → ((a : A) × (o ≡ sized a)) ⊎ ((o ≡ unsized) ⊎ (o ≡ out_of_fuel))
Outcome-cases (sized a) = inl (a, refl)
Outcome-cases unsized = inr (inl refl)
Outcome-cases out_of_fuel = inr (inr refl)

or_refuse_iff : (e : ConstError) (o : Option ℕ) (v : ℕ) → (or_refuse e o ≡ value v) ↔ (o ≡ some v)
or_refuse_iff e none v = ground arith
or_refuse_iff e (some w) v = ground arith

-- A size is measured of a type that is found and has a layout.
measured-sized :
    (pick : ℕ × ℕ → ℕ) (store : Store) (o : Option Ref) (v : ℕ)
    → measured pick store o ≡ value v
    → (ref : Ref) × (l : ℕ × ℕ) × (o ≡ some ref)
      × (semantic_size_align store ref ≡ sized l)
      × (pick l ≡ v)
measured-sized pick store none v h = absurd cc
measured-sized pick store (some ref) v h = elim (Outcome-cases (semantic_size_align store ref)) [
  | inl (l, e) ↦
      let got : value (pick l) ≡ value v = ap (pick_size pick) (sym e) ∙ h in
      (ref, l, refl, e, ground (arith, got))
  | inr (inl e) ↦
      let got : refused unsized_type ≡ value v = ap (pick_size pick) (sym e) ∙ h in absurd cc
  | inr (inr e) ↦
      let got : refused unsized_type ≡ value v = ap (pick_size pick) (sym e) ∙ h in absurd cc
]

eval_sound {ℓ} :
    {R : Type ℓ} (index : ConstIndex R) (e : ConstExpr R) (v : ℕ)
    → eval_const_expr index e ≡ value v
    → Evaluates index e v
unfolding eval_const_expr
eval_sound index (int_literal text) v h =
    evaluates_literal text v
      (sym (parse_uint-exact text) ∙ (or_refuse_iff overflows (parse_uint text) v).0 h)
eval_sound index (name_expr name) v h = elim (Option-cases (find_value index.scope name)) [
  | inl e ↦ evaluates_const name v e ((or_refuse_iff not_allowed _ v).0 (rw e at h))
  | inr (w, e) ↦ evaluates_scope name v (e ∙ (or_refuse_iff not_allowed (some w) v).0 (rw e at h))
]
eval_sound index (size_of_expr type_ref) v h =
    let (ref, l, found, laid, picked) =
      measured-sized (λ l. l.0) index.types (index.lookup_type_ref type_ref) v h in
    subst (Evaluates index (size_of_expr type_ref)) picked
      (evaluates_size type_ref ref l.0 l.1 found laid)
eval_sound index (align_of_expr type_ref) v h =
    let (ref, l, found, laid, picked) =
      measured-sized (λ l. l.1) index.types (index.lookup_type_ref type_ref) v h in
    subst (Evaluates index (align_of_expr type_ref)) picked
      (evaluates_align type_ref ref l.0 l.1 found laid)
eval_sound index (binary_expr op left right) v h =
    elim (Evaluation-cases (eval_const_expr index left)) [
      | inl (l, el) ↦ elim (Evaluation-cases (eval_const_expr index right)) [
        | inl (r, er) ↦
            let computes : Computes (op_of op) l r v =
              (apply_op-Computes (op_of op) l r v).0 (rw (el, er) at h) in
            evaluates_binary (op_of op) op left right l r v (computing-Spells op l r v computes)
              (eval_sound index left l el) (eval_sound index right r er) computes
        | inr (c, er) ↦ let got : refused c ≡ value v = rw (el, er) at h in absurd cc
      ]
      | inr (c, el) ↦ let got : refused c ≡ value v = rw el at h in absurd cc
    ]
eval_sound index not_constant v h = absurd cc

eval_complete {ℓ} :
    {R : Type ℓ} (index : ConstIndex R) (e : ConstExpr R) (v : ℕ)
    → Evaluates index e v
    → eval_const_expr index e ≡ value v
unfolding eval_const_expr
eval_complete index _ _ (evaluates_literal text v h) =
    (or_refuse_iff overflows (parse_uint text) v).1 (parse_uint-exact text ∙ h)
eval_complete index _ _ (evaluates_scope name v h) = rw h refl
eval_complete index _ _ (evaluates_const name v h k) = rw (h, k) refl
eval_complete index _ _ (evaluates_size type_ref ref size align h k) = rw (h, k) refl
eval_complete index _ _ (evaluates_align type_ref ref size align h k) = rw (h, k) refl
eval_complete index _ _ (evaluates_binary op text left right l r v spelt hl hr c) =
    let el = eval_complete index left l hl in
    let er = eval_complete index right r hr in
    rw (el, er, Spells-op_of op text spelt) ((apply_op-Computes op l r v).1 c)

-- A constant expression is accepted with a value exactly if the rules over unbounded numbers give
-- it that value: no overflow but that of a shift to the left is passed over, and nothing that the
-- rules allow is refused.
pub eval-Evaluates {ℓ} :
    {R : Type ℓ} (index : ConstIndex R) (e : ConstExpr R) (v : ℕ)
    → (eval_const_expr index e ≡ value v) ↔ Evaluates index e v
eval-Evaluates index e v = (eval_sound index e v, eval_complete index e v)
