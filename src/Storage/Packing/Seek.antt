-- ===== src/Storage/Packing/Seek.antt =====
-- The sparse index of a packed segment leads to whole slots.
use wrela.Prelude.{
  ℕ, ◌+◌, ◌%◌, ◌≡◌, refl, sym, ap, subst, ◌∙◌, false, Bool-cases, inl, inr, List, [], ◌∷◌, ◌++◌,
  map, ◌≢◌, append-nil, append_assoc, length, length-append, drop, drop-append, All, IsU64, u64,
  sub64, ◌==◌, if◌then◌else◌, arith,
}
use wrela.Bytes.{Bytes}
use wrela.Storage.Slot.{Slot, IsSlot}
use wrela.Storage.Packing.{SegmentIndexEntry, PackedSegment, packed_bytes, pack_loop, pack_slots}
use wrela.Storage.Packing.Packed.{Reads, packed_bytes-Reads}

-- The bytes of the slots, one behind the other.
unfoldable pub flat : List Slot → Bytes
flat [] = []
flat (s ∷ ss) = packed_bytes s ++ flat ss

pack_loop-bytes :
    (base stride : ℕ) (ss : List Slot) (bytes : Bytes) (index : List SegmentIndexEntry)
    → (pack_loop base stride ss bytes index).bytes ≡ bytes ++ flat ss
unfolding pack_loop flat
pack_loop-bytes base stride [] bytes index = sym (append-nil bytes)
pack_loop-bytes base stride (s ∷ ss) bytes index =
    pack_loop-bytes base stride ss _ _ ∙ append_assoc bytes (packed_bytes s) (flat ss)

-- The entries for the slots `ss`, whose bytes begin at `off`.
unfoldable pub index_from : ℕ → ℕ → ℕ → List Slot → List SegmentIndexEntry
index_from base stride off [] = []
index_from base stride off (s ∷ ss) =
    let rest = index_from base stride (off + length (packed_bytes s)) ss in
    let entry : SegmentIndexEntry = record {
      event_id_delta = sub64 s.header.event_id base;
      byte_offset = u64 off;
    } in
    if sub64 s.header.event_id base % stride == 0 then entry ∷ rest else rest

pack_loop-index :
    (base stride : ℕ) (ss : List Slot) (bytes : Bytes) (index : List SegmentIndexEntry) (off : ℕ)
    → length bytes ≡ off
    → (pack_loop base stride ss bytes index).index ≡ index ++ index_from base stride off ss
unfolding pack_loop index_from
pack_loop-index base stride [] bytes index off h = sym (append-nil index)
pack_loop-index base stride (s ∷ ss) bytes index off h =
    let delta = sub64 s.header.event_id base in
    let more = length-append bytes (packed_bytes s) in
    let next = length bytes + length (packed_bytes s) in
    let entry : SegmentIndexEntry = record {
      event_id_delta = delta;
      byte_offset = u64 (length bytes);
    } in
    elim (Bool-cases (delta % stride == 0)) [
      | inl b ↦
          rw (b, ← h, pack_loop)
            (pack_loop-index base stride ss (bytes ++ packed_bytes s) (index ++ entry ∷ []) next
                more
              ∙ append_assoc index (entry ∷ []) (index_from base stride next ss))
      | inr b ↦
          rw (b, ← h, pack_loop)
            (pack_loop-index base stride ss (bytes ++ packed_bytes s) index next more)
    ]

-- The entry belongs to a slot of `ss`, and counts the bytes in front of it from `off` on.
abbrev Points : ℕ → ℕ → List Slot → SegmentIndexEntry → Type 0
Points base off ss e =
    (s : Slot) × (front : List Slot) × (back : List Slot) × (ss ≡ front ++ s ∷ back)
    × (e.event_id_delta ≡ sub64 s.header.event_id base)
    × (e.byte_offset ≡ u64 (off + length (flat front)))

Points-cons :
    (base off : ℕ) (x : Slot) (ss : List Slot) (es : List SegmentIndexEntry)
    → All (Points base (off + length (packed_bytes x)) ss) es
    → All (Points base off (x ∷ ss)) es
unfolding flat
Points-cons base off x ss [] h = tt
Points-cons base off x ss (e ∷ es) ((s, front, back, splits, delta, place), h) = (
  (
    s,
    x ∷ front,
    back,
    ap (◌∷◌ x) splits,
    delta,
    place ∙ ap u64 (omega (arith, length-append (packed_bytes x) (flat front))),
  ),
  Points-cons base off x ss es h,
)

index_from-Points :
    (base stride off : ℕ) (ss : List Slot)
    → All (Points base off ss) (index_from base stride off ss)
unfolding index_from
index_from-Points base stride off [] = tt
index_from-Points base stride off (s ∷ ss) =
    let later =
      Points-cons base off s ss _
        (index_from-Points base stride (off + length (packed_bytes s)) ss) in
    elim (Bool-cases (sub64 s.header.event_id base % stride == 0)) [
      | inl b ↦ rw b ((s, [], ss, refl, refl, unfold flat in ap u64 (omega arith)), later)
      | inr b ↦ rw b later
    ]

-- The entry's byte offset leads to the packed bytes of a slot with the entry's event id.
pub record SeeksTo (slots : List Slot) (p : PackedSegment) (e : SegmentIndexEntry) : Type 0 where
  pub slot : Slot
  pub front : List Slot
  pub back : List Slot
  pub splits : slots ≡ front ++ slot ∷ back
  pub numbered : e.event_id_delta ≡ sub64 slot.header.event_id p.base_event_id
  pub placed : drop e.byte_offset p.bytes ≡ packed_bytes slot ++ flat back
  pub reads : Reads slot (drop e.byte_offset p.bytes)

All-map {ℓ κ μ} :
    {A : Type ℓ} {P : A → Type κ} {Q : A → Type μ} (xs : List A)
    → ((x : A) → P x → Q x)
    → All P xs
    → All Q xs
All-map [] f h = tt
All-map (x ∷ xs) f h = (f x h.0, All-map xs f h.1)

flat-append : (xs ys : List Slot) → flat (xs ++ ys) ≡ flat xs ++ flat ys
unfolding flat
flat-append [] ys = refl
flat-append (x ∷ xs) ys =
    ap (λ l. packed_bytes x ++ l) (flat-append xs ys)
    ∙ sym (append_assoc (packed_bytes x) (flat xs) (flat ys))

All-split {ℓ κ} :
    {A : Type ℓ} (P : A → Type κ) (xs : List A) (y : A) (ys : List A) → All P (xs ++ y ∷ ys) → P y
All-split P [] y ys h = h.0
All-split P (x ∷ xs) y ys h = All-split P xs y ys h.1

SeeksTo-of_Points :
    (slots : List Slot) (p : PackedSegment) (base : ℕ) (e : SegmentIndexEntry)
    → All IsSlot slots
    → p.base_event_id ≡ base
    → p.bytes ≡ flat slots
    → IsU64 (length p.bytes)
    → Points base 0 slots e
    → SeeksTo slots p e
SeeksTo-of_Points slots p base e w based whole fits (s, front, back, splits, delta, place) =
    record {
      slot = s;
      front = front;
      back = back;
      splits = splits;
      numbered = rw based delta;
      placed = placed;
      reads =
          rw placed
            (packed_bytes-Reads s (flat back) (All-split IsSlot front s back (rw splits at w)));
    }
  where
    parts : p.bytes ≡ flat front ++ (packed_bytes s ++ flat back)
    parts = whole ∙ ap flat splits ∙ flat-append front (s ∷ back) ∙ unfold flat in refl

    start : e.byte_offset ≡ length (flat front)
    start =
        omega
          (arith, place, ap length parts, length-append (flat front) (packed_bytes s ++ flat back))

    placed : drop e.byte_offset p.bytes ≡ packed_bytes s ++ flat back
    placed =
        rw (parts, start)
          (drop-append (flat front) (packed_bytes s ++ flat back) (length (flat front)) refl)

pack_loop-base :
    (base stride : ℕ) (ss : List Slot) (bytes : Bytes) (index : List SegmentIndexEntry)
    → (pack_loop base stride ss bytes index).base_event_id ≡ base
unfolding pack_loop
pack_loop-base base stride [] bytes index = refl
pack_loop-base base stride (s ∷ ss) bytes index = pack_loop-base base stride ss _ _

-- The multiples of `stride` in a list of numbers.
abbrev pub multiples : ℕ → List ℕ → List ℕ
multiples stride [] = []
multiples stride (d ∷ ds) = if d % stride == 0 then d ∷ multiples stride ds else multiples stride ds

index_from-multiples :
    (base stride off : ℕ) (ss : List Slot)
    → map (λ e. e.event_id_delta) (index_from base stride off ss)
      ≡ multiples stride (map (λ s. sub64 s.header.event_id base) ss)
unfolding index_from
index_from-multiples base stride off [] = refl
index_from-multiples base stride off (s ∷ ss) =
    let later = index_from-multiples base stride (off + length (packed_bytes s)) ss in
    elim (Bool-cases (sub64 s.header.event_id base % stride == 0)) [
      | inl b ↦ rw b (ap (◌∷◌ (sub64 s.header.event_id base)) later)
      | inr b ↦ rw b later
    ]

-- For well-formed slots and a nonzero stride: the index of the packed segment has an entry for
-- each slot whose event id lies a multiple of the stride above that of the first slot, and each
-- entry leads to its slot. The bytes at its offset are those of the slot and of the slots behind
-- it, and a reader of the slot layout finds there the slot's header and its payload up to the
-- length that the header gives. The segment has less than 2^64 bytes.
pub pack_slots-SeeksTo :
    (first : Slot) (more : List Slot) (stride : ℕ)
    → stride ≢ 0
    → All IsSlot (first ∷ more)
    → IsU64 (length (pack_slots (first ∷ more) stride).bytes)
    → let p = pack_slots (first ∷ more) stride in
      (map (λ e. e.event_id_delta) p.index
        ≡ multiples stride
            (map (λ s. sub64 s.header.event_id first.header.event_id) (first ∷ more)))
      × All (SeeksTo (first ∷ more) p) p.index
unfolding pack_slots
pack_slots-SeeksTo first more stride h w fits =
    let slots = first ∷ more in
    let base = first.header.event_id in
    let step : (stride == 0) ≡ false = ground arith in
    let p = pack_loop base stride slots [] [] in
    let fits' : IsU64 (length p.bytes) = rw step at fits in
    let index = pack_loop-index base stride slots [] [] 0 refl in
    let there =
      All-map (index_from base stride 0 slots)
        (λ e.
          SeeksTo-of_Points slots p base e w (pack_loop-base base stride slots [] [])
            (pack_loop-bytes base stride slots [] []) fits')
        (index_from-Points base stride 0 slots) in
    rw step (
      ap (map (λ e. e.event_id_delta)) index ∙ index_from-multiples base stride 0 slots,
      subst (All (SeeksTo slots p)) (sym index) there,
    )
