-- ===== src/Bytes/Writes.antt =====
-- What a copy into a buffer changes, and what it keeps.
use wrela.Prelude.{
  ℕ, zero, suc, ◌+◌, ◌^◌, ◌≤◌, ◌<◌, ◌≡◌, refl, ap, sym, ◌∙◌, ◌⊎◌, inl, inr, [], ◌∷◌, length, take,
  drop, arith,
}
use wrela.Bytes.{Bytes, le_bytes, le_value, overlay, write_at, read_le}
use wrela.Bytes.Laws.{length-le_bytes, le_value-le_bytes}

length-overlay : (bs buf : Bytes) → length (overlay bs buf) ≡ length buf
unfolding overlay
length-overlay [] buf = refl
length-overlay (b ∷ bs) [] = refl
length-overlay (b ∷ bs) (c ∷ buf) = ap suc (length-overlay bs buf)

pub length-write_at : (off : ℕ) (bs buf : Bytes) → length (write_at off bs buf) ≡ length buf
unfolding write_at
length-write_at zero bs buf = length-overlay bs buf
length-write_at (suc off) bs [] = refl
length-write_at (suc off) bs (c ∷ buf) = ap suc (length-write_at off bs buf)

take-overlay : (bs buf : Bytes) → length bs ≤ length buf → take (length bs) (overlay bs buf) ≡ bs
unfolding overlay
take-overlay [] buf h = refl
take-overlay (b ∷ bs) [] h = absurd (omega arith)
take-overlay (b ∷ bs) (c ∷ buf) h = ap (◌∷◌ b) (take-overlay bs buf (omega arith))

drop-overlay : (n : ℕ) (bs buf : Bytes) → length bs ≤ n → drop n (overlay bs buf) ≡ drop n buf
unfolding overlay
drop-overlay n [] buf h = refl
drop-overlay n (b ∷ bs) [] h = refl
drop-overlay zero (b ∷ bs) (c ∷ buf) h = absurd (omega arith)
drop-overlay (suc n) (b ∷ bs) (c ∷ buf) h = drop-overlay n bs buf (omega arith)

take-write_at : (n off : ℕ) (bs buf : Bytes) → n ≤ off → take n (write_at off bs buf) ≡ take n buf
unfolding write_at
take-write_at zero off bs buf h = refl
take-write_at (suc n) zero bs buf h = absurd (omega arith)
take-write_at (suc n) (suc off) bs [] h = refl
take-write_at (suc n) (suc off) bs (c ∷ buf) h =
    ap (◌∷◌ c) (take-write_at n off bs buf (omega arith))

slice_written :
    (off : ℕ) (bs buf : Bytes)
    → off + length bs ≤ length buf
    → take (length bs) (drop off (write_at off bs buf)) ≡ bs
unfolding write_at
slice_written zero bs buf h = take-overlay bs buf (omega arith)
slice_written (suc off) bs [] h = absurd (omega arith)
slice_written (suc off) bs (c ∷ buf) h = slice_written off bs buf (omega arith)

slice_below :
    (at width off : ℕ) (bs buf : Bytes)
    → at + width ≤ off
    → take width (drop at (write_at off bs buf)) ≡ take width (drop at buf)
unfolding write_at
slice_below zero width off bs buf h = take-write_at width off bs buf (omega arith)
slice_below (suc at) width zero bs buf h = absurd (omega arith)
slice_below (suc at) width (suc off) bs [] h = refl
slice_below (suc at) width (suc off) bs (c ∷ buf) h = slice_below at width off bs buf (omega arith)

drop-write_at :
    (at off : ℕ) (bs buf : Bytes)
    → off + length bs ≤ at
    → drop at (write_at off bs buf) ≡ drop at buf
unfolding write_at
drop-write_at at zero bs buf h = drop-overlay at bs buf (omega arith)
drop-write_at zero (suc off) bs buf h = absurd (omega arith)
drop-write_at (suc at) (suc off) bs [] h = refl
drop-write_at (suc at) (suc off) bs (c ∷ buf) h = drop-write_at at off bs buf (omega arith)

-- A number that was written within the buffer is read back.
pub read_le-write_at :
    (off width v : ℕ) (buf : Bytes)
    → off + width ≤ length buf
    → v < 256 ^ width
    → read_le off width (write_at off (le_bytes width v) buf) ≡ v
unfolding read_le
read_le-write_at off width v buf h hv =
    let size : length (le_bytes width v) ≡ width = length-le_bytes width v in
    let slice = slice_written off (le_bytes width v) buf (omega (arith, size)) in
    ap le_value
      (ap (λ n. take n (drop off (write_at off (le_bytes width v) buf))) (sym size) ∙ slice)
    ∙ le_value-le_bytes width v hv

-- A number that lies apart from what was written keeps its value.
pub read_le-write_at_apart :
    (at width off : ℕ) (bs buf : Bytes)
    → (at + width ≤ off) ⊎ (off + length bs ≤ at)
    → read_le at width (write_at off bs buf) ≡ read_le at width buf
unfolding read_le
read_le-write_at_apart at width off bs buf (inl h) = ap le_value (slice_below at width off bs buf h)
read_le-write_at_apart at width off bs buf (inr h) =
    ap (λ l. le_value (take width l)) (drop-write_at at off bs buf h)
