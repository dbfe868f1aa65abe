-- ===== src/Storage/Writer/Batches.antt =====
-- Batches stay within their bound, and the groups of a run of requests get disjoint event ids.
use wrela.Prelude.{
  ℕ, ◌+◌, ◌*◌, ◌≤◌, ◌<◌, ◌≡◌, ap, ◌⊎◌, inl, inr, true, false, List, [], ◌∷◌, IsU64, All, arith,
  length,
}
use wrela.Storage.Writer.{
  WriterPolicy, EnqueueResult, storage_max_batch_slots, storage_max_atomic_group_slots,
  storage_target_batch_slots, enqueue_atomic_group_with_reserved, sem0114, rejected,
}

abbrev pub IsBounded : WriterPolicy → Type 0
IsBounded w = w.open_batch_slots ≤ storage_max_batch_slots

-- What an accepted request for `n` events and `k` reserved slots has done.
pub record Accepts (w : WriterPolicy) (n k : ℕ) (w' : WriterPolicy) (r : EnqueueResult)
    : Type 0 where
  pub positive : 0 < n
  pub small : n ≤ storage_max_atomic_group_slots
  pub fits : n + k ≤ storage_max_batch_slots
  pub first : r.first_event_id ≡ w.next_event_id
  pub last : r.last_event_id + 1 ≡ w.next_event_id + n
  pub next : w'.next_event_id ≡ w.next_event_id + n + k
  pub joined :
      ((r.open_batch_slots ≡ w.open_batch_slots + n + k))
      ⊎ ((r.open_batch_slots ≡ n + k) × (storage_max_batch_slots < w.open_batch_slots + n + k))
  pub flushed :
      (r.flush_requested ≡ true) ⊎ (w.open_batch_slots + n + k < storage_target_batch_slots)
  pub kept : w'.durable_frontier ≡ w.durable_frontier
  pub reported : w'.open_batch_slots ≡ r.open_batch_slots

-- On a writer whose open batch is within 72 slots, while the ids stay below 2^64, a request is
-- accepted exactly when it asks for 1 to 32 events and at most 72 slots in all; then
-- its ids are the next ones and its slots join the open batch or, if they do not fit, open a new
-- one. A rejected request changes nothing.
pub enqueue_cases :
    (w : WriterPolicy) (n k : ℕ)
    → IsBounded w
    → IsU64 n
    → IsU64 k
    → IsU64 (w.next_event_id + storage_max_batch_slots)
    → let (w', r) = enqueue_atomic_group_with_reserved w n k in
      IsBounded w'
      × (((r.accepted ≡ true) × Accepts w n k w' r)
          ⊎ ((r ≡ rejected sem0114)
              × (w' ≡ w)
              × ((n ≡ 0)
                  ⊎ (storage_max_atomic_group_slots < n)
                  ⊎ (storage_max_batch_slots < n + k))))
unfolding enqueue_atomic_group_with_reserved
enqueue_cases w n k b hn hk hw = ground arith

-- A run of requests, each for some events and some reserved slots, and its results in order.
unfoldable pub enqueue_run : WriterPolicy → List (ℕ × ℕ) → WriterPolicy × List EnqueueResult
enqueue_run w [] = (w, [])
enqueue_run w ((n, k) ∷ rest) =
    let (w', r) = enqueue_atomic_group_with_reserved w n k in
    let (w'', rs) = enqueue_run w' rest in (w'', r ∷ rs)

-- The accepted results take ids from `low` on, each range behind the one before it.
abbrev pub IdsAscend : ℕ → List EnqueueResult → Type 0
IdsAscend low [] = Unit
IdsAscend low (r ∷ rs) =
    ((r.accepted ≡ false) × IdsAscend low rs)
    ⊎ ((r.accepted ≡ true)
        × (low ≤ r.first_event_id)
        × (r.first_event_id ≤ r.last_event_id)
        × (r.last_event_id < r.first_event_id + storage_max_atomic_group_slots)
        × IdsAscend (r.last_event_id + 1) rs)

IdsAscend-le :
    (low high : ℕ) (rs : List EnqueueResult) → low ≤ high → IdsAscend high rs → IdsAscend low rs
IdsAscend-le low high [] h a = tt
IdsAscend-le low high (r ∷ rs) h (inl (no_ids, a)) = inl (no_ids, IdsAscend-le low high rs h a)
IdsAscend-le low high (r ∷ rs) h (inr (yes_ids, a, b, c, d)) = inr (yes_ids, omega arith, b, c, d)

-- From a writer whose open batch is within 72 slots, through any run of requests, the open batch keeps within 72 slots and no two groups share an
-- event id, as long as the ids stay below 2^64.
pub enqueue_run-IdsAscend :
    (w : WriterPolicy) (requests : List (ℕ × ℕ))
    → IsBounded w
    → All (λ q. IsU64 q.0 × IsU64 q.1) requests
    → IsU64 (w.next_event_id + storage_max_batch_slots * length requests)
    → let (w', rs) = enqueue_run w requests in
      IsBounded w' × (w.next_event_id ≤ w'.next_event_id) × IdsAscend w.next_event_id rs
unfolding enqueue_run
enqueue_run-IdsAscend w [] b h u = (b, omega arith, tt)
enqueue_run-IdsAscend w ((n, k) ∷ rest) b h u =
    let (b', cases) = enqueue_cases w n k b h.0.0 h.0.1 (omega arith) in
    let w' = (enqueue_atomic_group_with_reserved w n k).0 in
    elim cases [
      | inl (e, a) ↦
          let next = a.next in
          let fits = a.fits in
          let (b'', grows, ids) = enqueue_run-IdsAscend w' rest b' h.1 (omega arith) in
          (
            b'',
            omega arith,
            inr (
              e,
              omega (arith, a),
              omega (arith, a),
              omega (arith, a),
              IdsAscend-le _ _ _ (omega (arith, a)) ids,
            ),
          )
      | inr (e, same, why) ↦
          let next : w'.next_event_id ≡ w.next_event_id = ap (λ v. v.next_event_id) same in
          let (b'', grows, ids) = enqueue_run-IdsAscend w' rest b' h.1 (omega arith) in
          (b'', omega arith, inl (ap (λ r. r.accepted) e, IdsAscend-le _ _ _ (omega arith) ids))
    ]
