-- ===== src/Storage/Writer/Durability.antt =====
-- The durable frontier.
use wrela.Prelude.{
  if◌then◌else◌, ◌≤◌, ◌≡◌, refl, ◌⊎◌, inl, inr, ◌↔◌, true, false, arith, Bool-cases,
}
use wrela.Storage.Writer.{WriterPolicy, CommitToken, acknowledged, on_durability_completed, sem0116}

-- Nothing failed, all writes are complete, and a flush that is needed is complete.
pub record IsDurable (t : CommitToken) : Type 0 where
  pub unfailed : t.durability_failed ≡ false
  pub written : t.pending_write_count ≤ t.completed_write_count
  pub flushed : (t.flush_required ≡ false) ⊎ (t.flush_completed ≡ true)

pub acknowledged_iff : (t : CommitToken) → (acknowledged t ≡ true) ↔ IsDurable t
unfolding acknowledged
acknowledged_iff t = (λ h. ground arith, λ h. ground arith)

not_IsDurable : (t : CommitToken) → acknowledged t ≡ false → ¬ IsDurable t
not_IsDurable t h d = cc ((acknowledged_iff t).1 d)

-- A token whose writes and flush are complete, with no failure, raises the durable frontier to its
-- last event if that is higher, and closes the open batch if that was submitted. Any other token
-- is rejected with SEM0116 and changes nothing. The frontier never falls.
pub on_durability_completed_cases :
    (w : WriterPolicy) (t : CommitToken)
    → let (w', r) = on_durability_completed w t in
      (w.durable_frontier ≤ w'.durable_frontier)
      × ((IsDurable t
            × (r.accepted ≡ true)
            × (t.last_event_id ≤ w'.durable_frontier)
            × ((w'.durable_frontier ≡ t.last_event_id) ⊎ (w'.durable_frontier ≡ w.durable_frontier))
            × (w'.open_batch_slots ≡ (if t.batch_submitted then 0 else w.open_batch_slots))
            × (w'.next_event_id ≡ w.next_event_id))
          ⊎ ((¬ IsDurable t) × (r.accepted ≡ false) × (r.reject_code ≡ sem0116) × (w' ≡ w)))
unfolding on_durability_completed
on_durability_completed_cases w t = elim (Bool-cases (acknowledged t)) [
  | inl e ↦ rw e (
    ground arith,
    inl ((acknowledged_iff t).0 e, refl, ground arith, ground arith, ground arith, refl),
  )
  | inr e ↦ rw e (omega arith, inr (not_IsDurable t e, refl, refl, refl))
]
