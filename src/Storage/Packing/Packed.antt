-- ===== src/Storage/Packing/Packed.antt =====
-- A reader of the slot layout on the packed bytes of a slot.
use wrela.Prelude.{
  ℕ, zero, suc, ◌+◌, ◌≤◌, ◌≡◌, refl, sym, ap, ◌∙◌, List, [], ◌∷◌, ◌++◌, append_assoc, length, take,
  drop, drop-append, arith,
}
use wrela.Bytes.{Bytes}
use wrela.Storage.Slot.{Slot, IsSlot, slot_bytes, event_header_size}
use wrela.Storage.Slot.Layout.{header_of_bytes, header_of_bytes-slot_bytes, payload_at_end}
use wrela.Storage.Packing.{packed_payload_length, packed_bytes}

take-nil {ℓ} : {A : Type ℓ} (n : ℕ) → take {A = A} n [] ≡ []
take-nil zero = refl
take-nil (suc n) = refl

take-add {ℓ} :
    {A : Type ℓ} (m n : ℕ) (xs : List A) → take (m + n) xs ≡ take m xs ++ take n (drop m xs)
take-add zero n xs = ap (λ k. take k xs) (omega arith)
take-add (suc m) n [] = take-nil (suc m + n) ∙ sym (take-nil n)
take-add (suc m) n (x ∷ xs) =
    let next : suc m + n ≡ suc (m + n) = omega arith in rw next (ap (◌∷◌ x) (take-add m n xs))

-- A reader of the packed bytes finds the slot's header, and the payload up to its length.
abbrev pub Reads : Slot → Bytes → Type 0
Reads s bs =
    (header_of_bytes bs ≡ s.header)
    × (take (packed_payload_length s) (drop event_header_size bs)
        ≡ take (packed_payload_length s) s.payload)

take-take_append {ℓ} :
    {A : Type ℓ} (n : ℕ) (xs ys : List A) → n ≤ length xs → take n (take n xs ++ ys) ≡ take n xs
take-take_append zero xs ys h = refl
take-take_append (suc n) [] ys h = absurd (omega arith)
take-take_append (suc n) (x ∷ xs) ys h = ap (◌∷◌ x) (take-take_append n xs ys (omega arith))

packed_payload_length-le : (s : Slot) → packed_payload_length s ≤ 448
packed_payload_length-le s = ground arith

pub packed_bytes-Reads : (s : Slot) (more : Bytes) → IsSlot s → Reads s (packed_bytes s ++ more)
packed_bytes-Reads s more w = rw cut (
  unfold header_of_bytes slot_bytes in
      header_of_bytes-slot_bytes s s.header.checksum32 w w.header_fits.checksum32_fits,
  payload,
)
  where
    n : ℕ
    n = packed_payload_length s

    raw : Bytes
    raw = slot_bytes s s.header.checksum32

    tail : Bytes
    tail = drop event_header_size raw

    parts : packed_bytes s ≡ take event_header_size raw ++ take n tail
    parts = unfold packed_bytes in take-add event_header_size n raw

    cut : packed_bytes s ++ more ≡ take event_header_size raw ++ (take n tail ++ more)
    cut = ap (λ bs. bs ++ more) parts ∙ append_assoc (take event_header_size raw) (take n tail) more

    whole : tail ≡ s.payload
    whole = payload_at_end s s.header.checksum32 w

    width : length (take event_header_size raw) ≡ event_header_size
    width = unfold slot_bytes in refl

    payload :
        take n (drop event_header_size (take event_header_size raw ++ (take n tail ++ more)))
        ≡ take n s.payload
    payload =
        ap (take n)
          (drop-append (take event_header_size raw) (take n tail ++ more) event_header_size width)
        ∙ take-take_append n tail more
            (omega (arith, packed_payload_length-le s, ap length whole, w.payload_size))
        ∙ ap (take n) whole
