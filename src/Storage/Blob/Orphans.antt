-- ===== src/Storage/Blob/Orphans.antt =====
-- Which extents the collector hands back.
use wrela.Prelude.{
  ◌≡◌, refl, ap, ◌∙◌, inl, inr, Bool-cases, true, false, not, Bool, ◌&&◌, ◌||◌, List, [], ◌∷◌,
  arith,
}
use wrela.Storage.FreeList.{Extent}
use wrela.Storage.Blob.{
  BlobRef, OrphanCollector, extent_eq, extent_of, has_extent, delete_extent, mark_acknowledged,
  mark_unacknowledged, unacknowledged, reclaimable, new_orphan_collector,
}

has_extent-delete :
    (xs : List Extent) (e x : Extent)
    → has_extent (delete_extent xs e) x ≡ (has_extent xs x && not (extent_eq e x))
unfolding has_extent delete_extent
has_extent-delete [] e x = refl
has_extent-delete (y ∷ ys) e x = ground (arith, has_extent-delete ys e x)

extent_eq_sound : (a b : Extent) → extent_eq a b ≡ true → a ≡ b
extent_eq_sound a b h = ground arith

has_extent-unacknowledged :
    (acked es : List Extent) (x : Extent)
    → has_extent (unacknowledged acked es) x ≡ (has_extent es x && not (has_extent acked x))
unfolding unacknowledged
has_extent-unacknowledged acked [] x = refl
has_extent-unacknowledged acked (e ∷ es) x = elim (Bool-cases (extent_eq e x)) [
  | inl same ↦
      let joined = ap (has_extent acked) (extent_eq_sound e x same) in
      ground (arith, same, joined, has_extent-unacknowledged acked es x)
  | inr other ↦ ground (arith, other, has_extent-unacknowledged acked es x)
]

-- What a history of acknowledgements amounts to: is the last mark of the extent an acknowledgement?
pub data Mark : Type 0 where
  acknowledge unacknowledge : BlobRef → Mark

unfoldable pub mark : OrphanCollector → Mark → OrphanCollector
unfolding mark_acknowledged mark_unacknowledged
mark c (acknowledge ref) = mark_acknowledged c ref
mark c (unacknowledge ref) = mark_unacknowledged c ref

unfoldable pub mark_all : OrphanCollector → List Mark → OrphanCollector
unfolding mark
mark_all c [] = c
mark_all c (m ∷ ms) = mark_all (mark c m) ms

-- The state of `e` after the marks, if it was `before`.
abbrev pub acknowledged_after : Bool → Extent → List Mark → Bool
acknowledged_after before e [] = before
acknowledged_after before e (acknowledge ref ∷ ms) =
    acknowledged_after (extent_eq (extent_of ref) e || before) e ms
acknowledged_after before e (unacknowledge ref ∷ ms) =
    acknowledged_after (before && not (extent_eq (extent_of ref) e)) e ms

mark_all-acknowledged :
    (c : OrphanCollector) (e : Extent) (ms : List Mark)
    → (has_extent (mark_all c ms).acknowledged_refs e
        ≡ acknowledged_after (has_extent c.acknowledged_refs e) e ms)
      × ((mark_all c ms).allocated ≡ c.allocated)
unfolding mark_all
mark_all-acknowledged c e [] = (refl, refl)
mark_all-acknowledged c e (acknowledge ref ∷ ms) =
    let (acked, same) = mark_all-acknowledged (mark_acknowledged c ref) e ms in
    (acked ∙ unfold has_extent mark_acknowledged in refl, same ∙ unfold mark_acknowledged in refl)
mark_all-acknowledged c e (unacknowledge ref ∷ ms) =
    let (acked, same) = mark_all-acknowledged (mark_unacknowledged c ref) e ms in
    (
      acked
          ∙ ap (λ b. acknowledged_after b e ms)
              (has_extent-delete c.acknowledged_refs (extent_of ref) e),
      same,
    )

-- After any history of marks the collector hands back exactly the allocated extents whose last
-- mark, if any, is not an acknowledgement.
pub reclaimable_iff :
    (allocated : List Extent) (ms : List Mark) (e : Extent)
    → has_extent (reclaimable (mark_all (new_orphan_collector allocated) ms)) e
      ≡ (has_extent allocated e && not (acknowledged_after false e ms))
unfolding reclaimable new_orphan_collector
reclaimable_iff allocated ms e =
    let c = new_orphan_collector allocated in
    let (acked, same) = mark_all-acknowledged c e ms in
    let found =
      has_extent-unacknowledged (mark_all c ms).acknowledged_refs (mark_all c ms).allocated e in
    found ∙ rw (same, acked)
