-- ===== src/Asm/Jumps.antt =====
-- How the calls and jumps to a label are encoded: `encodeNearBranch` of compiler/asm/encode.go.
use wrela.Prelude.{
  ℕ, ◌+◌, ◌≡◌, refl, sym, ap, subst, ◌⊎◌, inl, inr, [], ◌∷◌, ◌++◌, some, length, arith,
}
use wrela.Bytes.{Bytes}
use wrela.Asm.{label_ref, Instruction, to_lower, lower_loop}
use wrela.Asm.Forms.{
  Form, BranchFixup, Emitted, form_of, find_form, encode_form, encode_call, encode_near_branch,
  encode_cond_branch, call_form, jmp_form, branch_form,
}

-- The jumps and the call, whose displacement stands behind one byte.
abbrev pub IsNear : Bytes → Type 0
IsNear name = (name ≡ b'c' ∷ b'a' ∷ b'l' ∷ b'l' ∷ []) ⊎ (name ≡ b'j' ∷ b'm' ∷ b'p' ∷ [])

-- The conditional jumps, whose displacement stands behind two bytes.
abbrev pub IsConditional : Bytes → Type 0
IsConditional name =
    (name ≡ b'j' ∷ b'e' ∷ [])
    ⊎ (name ≡ b'j' ∷ b'n' ∷ b'e' ∷ [])
    ⊎ (name ≡ b'j' ∷ b'b' ∷ [])
    ⊎ (name ≡ b'j' ∷ b'b' ∷ b'e' ∷ [])
    ⊎ (name ≡ b'j' ∷ b'l' ∷ [])
    ⊎ (name ≡ b'j' ∷ b'l' ∷ b'e' ∷ [])
    ⊎ (name ≡ b'j' ∷ b'g' ∷ [])
    ⊎ (name ≡ b'j' ∷ b'g' ∷ b'e' ∷ [])

-- A branch whose displacement stands behind `lead` bytes.
abbrev pub IsBranch : Bytes → ℕ → Type 0
IsBranch name lead = (IsNear name × (lead ≡ 1)) ⊎ (IsConditional name × (lead ≡ 2))

-- What a branch to `target` at the position `start` is encoded as.
pub record IsBranchCode (at lead : ℕ) (target : Bytes) (e : Emitted) : Type 0 where
  pub opcode : Bytes
  pub sized : length opcode ≡ lead
  pub bytes : e.bytes ≡ opcode ++ 0 ∷ 0 ∷ 0 ∷ 0 ∷ []
  pub fixup : BranchFixup
  pub fixed : e.fixups ≡ fixup ∷ []
  pub placed : fixup.rel_pos ≡ at + lead
  pub ends : fixup.next_pc ≡ at + lead + 4
  pub leads : fixup.target ≡ target

abbrev pub Encodes : Instruction → ℕ → ℕ → Bytes → Type 0
Encodes ins at lead target =
    (form : Form) × (e : Emitted) × (form_of ins.mnemonic ≡ some form)
    × (encode_form form ins at ≡ some e)
    × IsBranchCode at lead target e

module _ (ins : Instruction) (at : ℕ) (target : Bytes)
    (to : ins.operands ≡ label_ref target ∷ []) where
  abbrev near_code : ℕ → Emitted
  near_code opcode = record {
    bytes = opcode ∷ 0 ∷ 0 ∷ 0 ∷ 0 ∷ [];
    fixups =
        record { mnemonic = ins.mnemonic; rel_pos = at + 1; target = target; next_pc = at + 5 }
        ∷ [];
  }

  abbrev conditional_code : ℕ → Emitted
  conditional_code opcode = record {
    bytes = 0x0F ∷ opcode ∷ 0 ∷ 0 ∷ 0 ∷ 0 ∷ [];
    fixups =
        record { mnemonic = ins.mnemonic; rel_pos = at + 2; target = target; next_pc = at + 6 }
        ∷ [];
  }

  near_code-IsBranchCode : (opcode : ℕ) → IsBranchCode at 1 target (near_code opcode)
  near_code-IsBranchCode opcode = record {
    opcode = opcode ∷ [];
    sized = refl;
    bytes = refl;
    fixup = _;
    fixed = refl;
    placed = refl;
    ends = omega arith;
    leads = refl;
  }

  conditional_code-IsBranchCode : (opcode : ℕ) → IsBranchCode at 2 target (conditional_code opcode)
  conditional_code-IsBranchCode opcode = record {
    opcode = 0x0F ∷ opcode ∷ [];
    sized = refl;
    bytes = refl;
    fixup = _;
    fixed = refl;
    placed = refl;
    ends = omega arith;
    leads = refl;
  }

  encode_call-near : encode_form call_form ins at ≡ some (near_code 0xE8)
  unfolding encode_form encode_call encode_near_branch
  encode_call-near = rw to refl

  encode_jmp-near : encode_form jmp_form ins at ≡ some (near_code 0xE9)
  unfolding encode_form encode_near_branch
  encode_jmp-near = rw to refl

  encode_branch-conditional :
      (opcode : ℕ) → encode_form (branch_form opcode) ins at ≡ some (conditional_code opcode)
  unfolding encode_form encode_cond_branch
  encode_branch-conditional opcode = rw to refl

  conditional :
      (opcode : ℕ) → form_of ins.mnemonic ≡ some (branch_form opcode) → Encodes ins at 2 target
  conditional opcode named = (
    branch_form opcode,
    conditional_code opcode,
    named,
    encode_branch-conditional opcode,
    conditional_code-IsBranchCode opcode,
  )

  -- Each of the names has its form.
  conditional-Encodes : IsConditional ins.mnemonic → Encodes ins at 2 target
  unfolding form_of find_form to_lower lower_loop
  conditional-Encodes (inl e) = conditional 0x84 (ap form_of e)
  conditional-Encodes (inr (inl e)) = conditional 0x85 (ap form_of e)
  conditional-Encodes (inr (inr (inl e))) = conditional 0x82 (ap form_of e)
  conditional-Encodes (inr (inr (inr (inl e)))) = conditional 0x86 (ap form_of e)
  conditional-Encodes (inr (inr (inr (inr (inl e))))) = conditional 0x8c (ap form_of e)
  conditional-Encodes (inr (inr (inr (inr (inr (inl e)))))) = conditional 0x8e (ap form_of e)
  conditional-Encodes (inr (inr (inr (inr (inr (inr (inl e))))))) = conditional 0x8f (ap form_of e)
  conditional-Encodes (inr (inr (inr (inr (inr (inr (inr e))))))) = conditional 0x8d (ap form_of e)

  near-Encodes : IsNear ins.mnemonic → Encodes ins at 1 target
  unfolding form_of find_form to_lower lower_loop
  near-Encodes (inl e) =
      (call_form, near_code 0xE8, ap form_of e, encode_call-near, near_code-IsBranchCode 0xE8)
  near-Encodes (inr e) =
      (jmp_form, near_code 0xE9, ap form_of e, encode_jmp-near, near_code-IsBranchCode 0xE9)

  pub IsBranch-Encodes : (lead : ℕ) → IsBranch ins.mnemonic lead → Encodes ins at lead target
  IsBranch-Encodes lead (inl (near, one)) =
      subst (λ n. Encodes ins at n target) (sym one) (near-Encodes near)
  IsBranch-Encodes lead (inr (jumps, two)) =
      subst (λ n. Encodes ins at n target) (sym two) (conditional-Encodes jumps)
