-- ===== src/Storage/Recovery/Log.antt =====
-- The abstract log: reserved empty slots and complete atomic groups, one after the other, with
-- consecutive event ids. It is what `recover_slots` is meant to accept.
use wrela.Prelude.{ℕ, ◌+◌, ◌%◌, ◌≤◌, ◌<◌, ◌≡◌, ◌≢◌, List, [], ◌∷◌, ◌++◌, length}
use Prim.Native.Nat.{bit_and}
use wrela.Storage.Slot.{Slot, slot_checksum}
use wrela.Storage.Recovery.{RecoveryResult}

-- A reserved empty slot that carries the event id `e`: the flag is set, and there is no event, no
-- stream, no group and no payload.
pub record IsEmptyAt (e : ℕ) (x : Slot) : Type 0 where
  pub checked : x.header.checksum32 ≡ slot_checksum x
  pub untyped : x.header.event_type_id ≡ 0
  pub no_layout : x.header.payload_layout_id ≡ 0
  pub no_stream : x.header.stream_id ≡ 0
  pub no_sequence : x.header.stream_sequence ≡ 0
  pub no_group : x.header.atomic_group_len ≡ 0
  pub no_place : x.header.atomic_group_index ≡ 0
  pub no_payload : x.header.payload_length ≡ 0
  pub flagged : bit_and x.header.flags 1 ≢ 0
  pub numbered : x.header.event_id ≡ e

-- Member `j` of a group of `n` events, whose first event has the id `e`.
pub record IsMember (n e j : ℕ) (x : Slot) : Type 0 where
  pub checked : x.header.checksum32 ≡ slot_checksum x
  pub typed : x.header.event_type_id ≢ 0
  pub numbered : x.header.event_id ≡ (e + j) % 18446744073709551616
  pub sized : x.header.atomic_group_len ≡ n
  pub placed : x.header.atomic_group_index ≡ j

abbrev pub AreMembers : ℕ → ℕ → ℕ → List Slot → Type 0
AreMembers n e j [] = Unit
AreMembers n e j (x ∷ xs) = IsMember n e j x × AreMembers n e (j + 1) xs

-- A whole atomic group.
pub record IsGroupAt (e : ℕ) (xs : List Slot) : Type 0 where
  pub nonempty : 0 < length xs
  pub bounded : length xs ≤ 32
  pub members : AreMembers (length xs) e 0 xs

-- A reserved slot uses up one event id, and no event becomes visible.
abbrev pub past_empty : RecoveryResult → RecoveryResult
past_empty r = record r { next_event_id = (r.next_event_id + 1) % 18446744073709551616 }

-- Each event of a group uses up one id and becomes visible, and the end of the group is the id of
-- its last event. All of it is counted modulo 2^64.
abbrev pub past_group : List Slot → RecoveryResult → RecoveryResult
past_group xs r = record r {
  visible_events = (r.visible_events + length xs) % 18446744073709551616;
  next_event_id = (r.next_event_id + length xs) % 18446744073709551616;
  last_committed_group_end =
      (r.next_event_id + length xs + 18446744073709551615) % 18446744073709551616;
}

-- `Commits r xs t`: from the state `r` the slots `xs` are a log that leads to `t`.
pub data Commits : RecoveryResult → List Slot → RecoveryResult → Type 0 where
  done : {r t : RecoveryResult} → r ≡ t → Commits r [] t
  skip :
      {r t : RecoveryResult} {x : Slot} {xs : List Slot}
      → IsEmptyAt r.next_event_id x
      → Commits (past_empty r) xs t
      → Commits r (x ∷ xs) t
  commit :
      {r t : RecoveryResult} {all : List Slot} (xs rest : List Slot)
      → all ≡ xs ++ rest
      → IsGroupAt r.next_event_id xs
      → Commits (past_group xs r) rest t
      → Commits r all t

-- No unit of a log stands at the head of `xs`.
pub record IsBlocked (e : ℕ) (xs : List Slot) : Type 0 where
  pub nonempty : 0 < length xs
  pub no_empty : (x : Slot) (rest : List Slot) → xs ≡ x ∷ rest → ¬ IsEmptyAt e x
  pub no_group : (ys rest : List Slot) → xs ≡ ys ++ rest → ¬ IsGroupAt e ys
