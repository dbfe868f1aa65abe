-- ===== src/Storage/Superblock.antt =====
-- The two superblock copies (compiler/storagefmt/format.go).
use wrela.Prelude.{
  ℕ, ◌≤◌, ◌≡◌, refl, ◌⊎◌, inl, inr, Bool, true, false, ◌&&◌, Option, none, some, ◌==◌, ltb,
  if◌then◌else◌, arith, Bool-cases,
}
use wrela.Bytes.{le_bytes, crc32c}

pub record Superblock : Type 0 where
  pub generation : ℕ
  pub checksum32 : ℕ

-- `SuperblockChecksum`
unfoldable pub superblock_checksum : ℕ → ℕ
unfolding le_bytes crc32c
superblock_checksum generation = crc32c (le_bytes 8 generation)

-- `Superblock.Valid`
unfoldable pub valid : Superblock → Bool
unfolding superblock_checksum
valid s = s.checksum32 == superblock_checksum s.generation

-- `ChooseSuperblock`; `none` is `ErrNoValidSuperblock`.
unfoldable pub choose_superblock : Superblock → Superblock → Option Superblock
choose_superblock a b =
    if valid a && valid b && ltb a.generation b.generation
    then some b
    else if valid a
    then some a
    else if valid b
    then some b
    else none

-- One of the copies, and no older than a valid other one.
pub record IsNewest (a b s : Superblock) : Type 0 where
  pub intact : valid s ≡ true
  pub one_of : (s ≡ a) ⊎ (s ≡ b)
  pub newest_a : valid a ≡ true → a.generation ≤ s.generation
  pub newest_b : valid b ≡ true → b.generation ≤ s.generation

abbrev pub Chooses : Superblock → Superblock → Option Superblock → Type 0
Chooses a b (some s) = IsNewest a b s
Chooses a b none = (valid a ≡ false) × (valid b ≡ false)

Chooses-b :
    (a b : Superblock)
    → valid b ≡ true
    → (valid a ≡ true → a.generation ≤ b.generation)
    → IsNewest a b b
Chooses-b a b v h = record {
  intact = v;
  one_of = inr refl;
  newest_a = h;
  newest_b = λ k. omega arith;
}

Chooses-a :
    (a b : Superblock)
    → valid a ≡ true
    → (valid b ≡ true → b.generation ≤ a.generation)
    → IsNewest a b a
Chooses-a a b v h = record {
  intact = v;
  one_of = inl refl;
  newest_a = λ k. omega arith;
  newest_b = h;
}

-- The choice is a valid copy of the highest generation among the valid ones, whichever of the two
-- it is, and fails only if neither is valid.
pub choose_superblock-Chooses : (a b : Superblock) → Chooses a b (choose_superblock a b)
unfolding choose_superblock
choose_superblock-Chooses a b = elim (Bool-cases (valid a)) [
  | inl va ↦ elim (Bool-cases (valid b)) [
    | inl vb ↦ elim (Bool-cases (ltb a.generation b.generation)) [
      | inl l ↦ rw (va, vb, l) (Chooses-b a b vb (λ k. ground arith))
      | inr l ↦ rw (va, vb, l) (Chooses-a a b va (λ k. ground arith))
    ]
    | inr vb ↦ rw (va, vb) (Chooses-a a b va (λ k. cc))
  ]
  | inr va ↦ elim (Bool-cases (valid b)) [
    | inl vb ↦ rw (va, vb) (Chooses-b a b vb (λ k. cc))
    | inr vb ↦ rw (va, vb) (va, vb)
  ]
]

-- A torn write of one copy: the other, valid, copy is chosen, on either side.
pub choose_superblock_torn :
    (a b : Superblock)
    → valid a ≡ true
    → valid b ≡ false
    → (choose_superblock a b ≡ some a) × (choose_superblock b a ≡ some a)
unfolding choose_superblock
choose_superblock_torn a b va vb = ground arith
