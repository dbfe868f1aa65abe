-- ===== src/Prelude/Sorting.antt =====
-- `sort.Slice` by a key: insertion into a sorted list. Its result is ascending and a permutation.
use Prim.Native.Nat.{ℕ, zero, suc, ◌+◌, ◌≤◌, ◌<◌}
use mathlib.Core.Path.{◌≡◌, refl, sym, ap, ◌∙◌}
use mathlib.Core.Bool.{true, false}
use mathlib.Core.List.{List, [], ◌∷◌, ◌++◌, Perm}
use mathlib.Core.List.Perm
use native.Mathlib.Omega.{arith}
use wrela.Prelude.Tests.{leb, ◌==◌, if◌then◌else◌, Bool-cases}
use wrela.Prelude.Lists.{All, All-append, All-mono}
use mathlib.Core.Logic.{inl, inr}

module _ {ℓ} {A : Type ℓ} (key : A → ℕ) where
  unfoldable pub insert_by : A → List A → List A
  insert_by x [] = x ∷ []
  insert_by x (y ∷ ys) = if leb (key x) (key y) then x ∷ y ∷ ys else y ∷ insert_by x ys

  unfoldable pub sort_by : List A → List A
  unfolding insert_by
  sort_by [] = []
  sort_by (x ∷ xs) = insert_by x (sort_by xs)

  -- The key of no element is below `k`, and the keys ascend.
  abbrev pub AscendsFrom : ℕ → List A → Type 0
  AscendsFrom k [] = Unit
  AscendsFrom k (x ∷ xs) = (k ≤ key x) × AscendsFrom (key x) xs

  insert_by-AscendsFrom :
      (k : ℕ) (x : A) (xs : List A) → k ≤ key x → AscendsFrom k xs → AscendsFrom k (insert_by x xs)
  unfolding insert_by
  insert_by-AscendsFrom k x [] h a = (h, tt)
  insert_by-AscendsFrom k x (y ∷ ys) h a = ground (arith, insert_by-AscendsFrom (key y) x ys)

  pub sort_by-AscendsFrom : (xs : List A) → AscendsFrom 0 (sort_by xs)
  unfolding sort_by
  sort_by-AscendsFrom [] = tt
  sort_by-AscendsFrom (x ∷ xs) =
      insert_by-AscendsFrom 0 x (sort_by xs) (omega arith) (sort_by-AscendsFrom xs)

  pub All-insert_by {κ} :
      (P : A → Type κ) (x : A) (xs : List A) → P x → All P xs → All P (insert_by x xs)
  unfolding insert_by
  All-insert_by P x [] h k = (h, tt)
  All-insert_by P x (y ∷ ys) h k = elim (Bool-cases (leb (key x) (key y))) [
    | inl b ↦ rw b (h, k)
    | inr b ↦ rw b (k.0, All-insert_by P x ys h k.1)
  ]

  pub All-sort_by {κ} : (P : A → Type κ) (xs : List A) → All P xs → All P (sort_by xs)
  unfolding sort_by
  All-sort_by P [] h = tt
  All-sort_by P (x ∷ xs) h = All-insert_by P x (sort_by xs) h.0 (All-sort_by P xs h.1)

  pub insert_by-perm : (x : A) (xs : List A) → Perm (insert_by x xs) (x ∷ xs)
  unfolding insert_by
  insert_by-perm x [] = Perm.rfl
  insert_by-perm x (y ∷ ys) =
      elim (leb (key x) (key y))
        as (λ b. Perm (if b then x ∷ y ∷ ys else y ∷ insert_by x ys) (x ∷ y ∷ ys)) [
          | true ↦ Perm.rfl
          | false ↦ Perm.trans (Perm.cons y (insert_by-perm x ys)) (Perm.swap x y ys)
        ]

  pub sort_by-perm : (xs : List A) → Perm (sort_by xs) xs
  unfolding sort_by
  sort_by-perm [] = Perm.rfl
  sort_by-perm (x ∷ xs) = Perm.trans (insert_by-perm x (sort_by xs)) (Perm.cons x (sort_by-perm xs))

  -- The elements with one key, in their order, and those with `n` keys from `k` on, key by key.
  abbrev pub keyed : ℕ → List A → List A
  keyed k [] = []
  keyed k (x ∷ xs) = if key x == k then x ∷ keyed k xs else keyed k xs

  abbrev pub buckets : ℕ → ℕ → List A → List A
  buckets zero k xs = []
  buckets (suc n) k xs = keyed k xs ++ buckets n (k + 1) xs

  insert_by-front : (x : A) (ys : List A) → All (λ y. key x ≤ key y) ys → insert_by x ys ≡ x ∷ ys
  unfolding insert_by
  insert_by-front x [] h = refl
  insert_by-front x (y ∷ ys) h = ground (arith, h.0)

  insert_by-append :
      (x : A) (xs ys : List A)
      → All (λ y. key y < key x) xs
      → insert_by x (xs ++ ys) ≡ xs ++ insert_by x ys
  unfolding insert_by
  insert_by-append x [] ys h = refl
  insert_by-append x (y ∷ xs) ys h = ground (arith, h.0, insert_by-append x xs ys h.1)

  keyed-All : (k : ℕ) (xs : List A) → All (λ y. key y ≡ k) (keyed k xs)
  keyed-All k [] = tt
  keyed-All k (x ∷ xs) = elim (Bool-cases (key x == k)) [
    | inl same ↦ rw same (ground arith, keyed-All k xs)
    | inr apart ↦ rw apart (keyed-All k xs)
  ]

  buckets-All : (n k : ℕ) (xs : List A) → All (λ y. k ≤ key y) (buckets n k xs)
  buckets-All zero k xs = tt
  buckets-All (suc n) k xs =
      All-append (λ y. k ≤ key y) (keyed k xs) (buckets n (k + 1) xs)
        (All-mono (λ y e. omega (arith, e)) (keyed k xs) (keyed-All k xs))
        (All-mono (λ y h. omega (arith, h)) (buckets n (k + 1) xs) (buckets-All n (k + 1) xs))

  -- An element whose key is below all of them is in none.
  buckets-below :
      (n k : ℕ) (x : A) (xs : List A) → key x < k → buckets n k (x ∷ xs) ≡ buckets n k xs
  buckets-below zero k x xs h = refl
  buckets-below (suc n) k x xs h =
      let apart : (key x == k) ≡ false = ground (arith, h) in
      rw (apart, buckets-below n (k + 1) x xs (omega (arith, h))) refl

  insert_by-buckets :
      (n k : ℕ) (x : A) (xs : List A)
      → k ≤ key x
      → key x < k + n
      → insert_by x (buckets n k xs) ≡ buckets n k (x ∷ xs)
  insert_by-buckets zero k x xs h g = absurd (omega (arith, h, g))
  insert_by-buckets (suc n) k x xs h g = elim (Bool-cases (key x == k)) [
    | inl same ↦
        let here : key x ≡ k = ground (arith, same) in
        rw (same, buckets-below n (k + 1) x xs (omega (arith, here)))
          (insert_by-front x (buckets (suc n) k xs) (
            All-mono (λ y low. omega (arith, low, here)) (buckets (suc n) k xs)
              (buckets-All (suc n) k xs)))
    | inr apart ↦
        let later : k < key x = ground (arith, apart, h) in
        rw apart (
          insert_by-append x (keyed k xs) (buckets n (k + 1) xs)
            (All-mono (λ y e. omega (arith, e, later)) (keyed k xs) (keyed-All k xs))
          ∙ ap (λ l. keyed k xs ++ l)
              (insert_by-buckets n (k + 1) x xs (omega (arith, later)) (omega (arith, g))))
  ]

  buckets-nil : (n k : ℕ) → buckets n k [] ≡ []
  buckets-nil zero k = refl
  buckets-nil (suc n) k = buckets-nil n (k + 1)

  -- The sort is stable: it puts the elements with each key in their order.
  pub sort_by-buckets :
      (n : ℕ) (xs : List A) → All (λ x. key x < n) xs → sort_by xs ≡ buckets n 0 xs
  unfolding sort_by
  sort_by-buckets n [] h = sym (buckets-nil n 0)
  sort_by-buckets n (x ∷ xs) h =
      ap (insert_by x) (sort_by-buckets n xs h.1)
      ∙ insert_by-buckets n 0 x xs (omega arith) (omega (arith, h.0))
