-- ===== src/Storage/Blob/Relocation.antt =====
-- Relocation is an optimistic update: it compares, swaps and counts the version.
use wrela.Prelude.{◌+◌, ◌≡◌, ◌⊎◌, true, false, IsU64, some, arith}
use wrela.Storage.Blob.{BlobTruth, RelocateBlobProposal, accept_relocate, accept_relocate_blob}
use wrela.Storage.Writer.{WriterPolicy, sem0118}

-- The proposal was made for the reference and the version that the truth has.
pub record IsCurrent (t : BlobTruth) (p : RelocateBlobProposal) : Type 0 where
  pub same_blob : p.blob_id ≡ t.ref.blob_id
  pub same_ref : p.old_ref ≡ t.ref
  pub same_version : p.observed_version ≡ t.version

-- While the version is below 2^64 - 1, a proposal is accepted exactly when it is current, and then installs its reference under the
-- next version; any other changes nothing. The writer answers SEM0118 to those.
pub accept_relocate_blob_cases :
    (w : WriterPolicy) (t : BlobTruth) (p : RelocateBlobProposal)
    → IsU64 (t.version + 1)
    → let (o, r) = accept_relocate_blob w (some t) p in
      (r.open_batch_slots ≡ w.open_batch_slots)
      × ((IsCurrent t p
            × (r.accepted ≡ true)
            × (o ≡ some (record t { ref = p.new_ref; version = t.version + 1 })))
          ⊎ ((¬ IsCurrent t p) × (r.accepted ≡ false) × (r.reject_code ≡ sem0118) × (o ≡ some t)))
unfolding accept_relocate_blob
accept_relocate_blob_cases w t p u = ground arith

-- While the version is below 2^64 - 1, of two proposals that were made for the same version one at
-- most is accepted: once one is, the
-- other is refused and changes nothing.
pub accept_relocate_once :
    (t : BlobTruth) (p q : RelocateBlobProposal)
    → IsU64 (t.version + 1)
    → p.observed_version ≡ q.observed_version
    → (accept_relocate t p).1 ≡ true
    → let t' = (accept_relocate t p).0 in
      ((accept_relocate t' q).1 ≡ false) × ((accept_relocate t' q).0 ≡ t')
unfolding accept_relocate
accept_relocate_once t p q u e a = ground arith
