-- ===== src/Asm/Branches.antt =====
-- The displacements of the branches lead to their labels.
use wrela.Prelude.{
  ℕ, ◌+◌, ◌≤◌, ◌≡◌, refl, sym, subst, ap, ◌∙◌, ◌⊎◌, inl, inr, Bool, true, false, Bool-cases, List,
  [], ◌∷◌, ◌++◌, Option, none, some, length, All, u32, arith,
}
use wrela.Bytes.{Bytes, le_bytes, write_at, read_le}
use wrela.Bytes.Laws.{length-le_bytes}
use wrela.Bytes.Writes.{length-write_at, read_le-write_at, read_le-write_at_apart}
use wrela.Asm.{Instruction}
use wrela.Asm.Forms.{BranchFixup}
use wrela.Asm.Encode.{
  branch_out_of_range, Labels, find_label, Assembled, assemble, start, in_range, displacement,
  unresolved, unpatched, resolve_at, resolve, encode,
}
use wrela.Asm.Slots.{Slots, Slots-le, assemble-Grows}

-- The slot of a fixup, before and after: for a label in range the displacement that leads from
-- the end of the branch to the label, modulo 2^32, and the old value otherwise.
abbrev pub Resolves : Bytes → Bytes → BranchFixup → Option ℕ → Type 0
Resolves before after f none = read_le f.rel_pos 4 after ≡ read_le f.rel_pos 4 before
Resolves before after f (some target) =
    ((in_range f target ≡ true) × (u32 (f.next_pc + read_le f.rel_pos 4 after) ≡ u32 target))
    ⊎ ((in_range f target ≡ false) × (read_le f.rel_pos 4 after ≡ read_le f.rel_pos 4 before))

-- Outside of the slots from `low` on nothing changes.
abbrev KeepsBelow : ℕ → Bytes → Bytes → Type 0
KeepsBelow low before after =
    (at width : ℕ) → at + width ≤ low → read_le at width after ≡ read_le at width before

record ResolvesAt (before : Bytes) (r : Assembled) (f : BranchFixup) (o : Option ℕ) : Type 0 where
  size : length r.out ≡ length before
  below : KeepsBelow f.rel_pos before r.out
  above : (at width : ℕ) → f.next_pc ≤ at → read_le at width r.out ≡ read_le at width before
  resolved : Resolves before r.out f o

same-ResolvesAt :
    (r t : Assembled) (f : BranchFixup) (o : Option ℕ)
    → t.out ≡ r.out
    → Resolves r.out r.out f o
    → ResolvesAt r.out t f o
same-ResolvesAt r t f o e h = record {
  size = ap length e;
  below = λ at width k. ap (read_le at width) e;
  above = λ at width k. ap (read_le at width) e;
  resolved = rw e h;
}

-- The displacement leads from the end of the branch to its label.
displacement-reaches :
    (f : BranchFixup) (target : ℕ)
    → f.next_pc ≤ target + 2147483648
    → u32 (f.next_pc + displacement f target) ≡ u32 target
displacement-reaches f target h = omega arith

in_range-le :
    (f : BranchFixup) (target : ℕ) → in_range f target ≡ true → f.next_pc ≤ target + 2147483648
in_range-le f target h = ground arith

patched-ResolvesAt :
    (external : Bool) (r : Assembled) (f : BranchFixup) (target : ℕ)
    → f.rel_pos + 4 ≤ length r.out
    → f.next_pc ≡ f.rel_pos + 4
    → in_range f target ≡ true
    → ResolvesAt r.out
        (record r { out = write_at f.rel_pos (le_bytes 4 (displacement f target)) r.out })
        f
        (some target)
patched-ResolvesAt external r f target room ends near =
    let bytes : Bytes = le_bytes 4 (displacement f target) in
    let size : length bytes ≡ 4 = length-le_bytes 4 (displacement f target) in
    let written = read_le-write_at f.rel_pos 4 (displacement f target) r.out room (omega arith) in
    record {
      size = length-write_at f.rel_pos bytes r.out;
      below = λ at width h. read_le-write_at_apart at width f.rel_pos bytes r.out (inl h);
      above = λ at width h.
          read_le-write_at_apart at width f.rel_pos bytes r.out
            (inr (omega (arith, size, h, ends)));
      resolved = inl (
        near,
        ap (λ v. u32 (f.next_pc + v)) written
            ∙ displacement-reaches f target (in_range-le f target near),
      );
    }

unresolved-out :
    (external : Bool) (r : Assembled) (f : BranchFixup) → (unresolved external r f).out ≡ r.out
unresolved-out external r f = ground arith

resolve_at-ResolvesAt :
    (external : Bool) (r : Assembled) (f : BranchFixup) (o : Option ℕ)
    → f.rel_pos + 4 ≤ length r.out
    → f.next_pc ≡ f.rel_pos + 4
    → ResolvesAt r.out (resolve_at external r f o) f o
unfolding resolve_at
resolve_at-ResolvesAt external r f none room ends =
    same-ResolvesAt r (unresolved external r f) f none (unresolved-out external r f) refl
resolve_at-ResolvesAt external r f (some target) room ends = elim (Bool-cases (in_range f target)) [
  | inl near ↦ rw near (patched-ResolvesAt external r f target room ends near)
  | inr far ↦ rw far (
      same-ResolvesAt r (record r { diags = r.diags ++ branch_out_of_range f.target ∷ [] }) f
        (some target) refl (inr (far, refl)))
]

-- Only the old and the new number in the slot count.
Resolves-moved :
    (before after older newer : Bytes) (f : BranchFixup) (o : Option ℕ)
    → read_le f.rel_pos 4 older ≡ read_le f.rel_pos 4 before
    → read_le f.rel_pos 4 newer ≡ read_le f.rel_pos 4 after
    → Resolves before after f o
    → Resolves older newer f o
Resolves-moved before after older newer f none h k r = k ∙ r ∙ sym h
Resolves-moved before after older newer f (some target) h k (inl (near, reaches)) =
    inl (near, ap (λ v. u32 (f.next_pc + v)) k ∙ reaches)
Resolves-moved before after older newer f (some target) h k (inr (far, same)) =
    inr (far, k ∙ same ∙ sym h)

AllResolve : Labels → Bytes → Bytes → List BranchFixup → Type 0
AllResolve labels before after fs =
    All (λ f. Resolves before after f (find_label f.target labels)) fs

AllResolve-moved :
    (labels : Labels) (low limit : ℕ) (before after older : Bytes) (fs : List BranchFixup)
    → Slots low limit fs
    → ((at width : ℕ) → low ≤ at → read_le at width before ≡ read_le at width older)
    → AllResolve labels before after fs
    → AllResolve labels older after fs
unfolding AllResolve
AllResolve-moved labels low limit before after older [] s same h = h
AllResolve-moved labels low limit before after older (f ∷ fs) s same h = (
  Resolves-moved before after older after f (find_label f.target labels)
      (sym (same f.rel_pos 4 s.0)) refl h.0,
  AllResolve-moved labels f.next_pc limit before after older fs s.2
      (λ at width k. same at width (omega (arith, k, s.0, s.1))) h.1,
)

record ResolvedBy (labels : Labels) (low : ℕ) (r t : Assembled) (fs : List BranchFixup)
    : Type 0 where
  size : length t.out ≡ length r.out
  below : KeepsBelow low r.out t.out
  resolved : AllResolve labels r.out t.out fs

resolve-ResolvedBy :
    (external : Bool) (labels : Labels) (low : ℕ) (r : Assembled) (fs : List BranchFixup)
    → Slots low (length r.out) fs
    → ResolvedBy labels low r (resolve external labels r fs) fs
unfolding AllResolve resolve
resolve-ResolvedBy external labels low r [] s = record {
  size = refl;
  below = λ at width h. refl;
  resolved = tt;
}
resolve-ResolvedBy external labels low r (f ∷ fs) s =
    let o = find_label f.target labels in
    let room = Slots-le f.next_pc (length r.out) fs s.2 in
    let step = resolve_at-ResolvesAt external r f o (omega (arith, room, s.1)) s.1 in
    let next = resolve_at external r f o in
    let t = resolve external labels next fs in
    let rest =
      resolve-ResolvedBy external labels f.next_pc next fs
        (subst (λ n. Slots f.next_pc n fs) (sym step.size) s.2) in
    record {
      size = rest.size ∙ step.size;
      below = λ at width h.
          rest.below at width (omega (arith, h, s.0, s.1))
          ∙ step.below at width (omega (arith, h, s.0));
      resolved = (
        Resolves-moved r.out next.out r.out t.out f o refl
            (rest.below f.rel_pos 4 (omega (arith, s.1))) step.resolved,
        AllResolve-moved labels f.next_pc (length r.out) next.out t.out r.out fs s.2 step.above
            rest.resolved,
      );
    }

-- The finished code is as long as the code of the one pass, and every fixup is resolved in it.
pub encode-Resolves :
    (instructions : List Instruction) (external : Bool)
    → (length (encode instructions external).out ≡ length (assemble start instructions).out)
      × All
          (λ f.
            Resolves
              (assemble start instructions).out
              (encode instructions external).out
              f
              (find_label f.target (assemble start instructions).labels))
          (assemble start instructions).fixups
unfolding encode AllResolve
encode-Resolves instructions external =
    let s = assemble start instructions in
    let t =
      resolve-ResolvedBy external s.labels 0 (unpatched s) s.fixups
        (assemble-Grows start instructions (omega arith)).slots in
    (t.size, t.resolved)
