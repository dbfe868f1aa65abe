-- ===== src/Storage/Streams.antt =====
-- The stream directory, its cache counters and the checkpoints (compiler/storagefmt/format.go).
pub mod Laws
use wrela.Prelude.{ℕ, ◌+◌, ◌*◌, ◌/◌, Bool, ◌==◌, ltb, if◌then◌else◌, u64, add64, mul64}

pub record StreamDirectory : Type 0 where
  pub next_stream_id : ℕ

unfoldable pub entry_offset : StreamDirectory → ℕ → ℕ
entry_offset d stream_id = mul64 stream_id 32

unfoldable pub exists : StreamDirectory → ℕ → Bool
exists d stream_id = ltb stream_id d.next_stream_id

-- `AllocateStreamID`
unfoldable pub allocate_stream_id : StreamDirectory → StreamDirectory × ℕ
allocate_stream_id d = (record { next_stream_id = add64 d.next_stream_id 1 }, d.next_stream_id)

pub record StreamDirectoryEntry : Type 0 where
  pub latest_sequence : ℕ
  pub latest_event_id : ℕ
  pub latest_checkpoint_ref : ℕ
  pub flags : ℕ

unfoldable pub expects_sequence : StreamDirectoryEntry → ℕ → Bool
expects_sequence e sequence = sequence == add64 e.latest_sequence 1

pub record StreamCheckpoint : Type 0 where
  pub current_layout_id : ℕ
  pub state_layout_id : ℕ

unfoldable pub applies : StreamCheckpoint → Bool
applies c = c.state_layout_id == c.current_layout_id

pub record StreamDirectoryCache : Type 0 where
  pub hits : ℕ
  pub misses : ℕ

unfoldable pub record_hit : StreamDirectoryCache → StreamDirectoryCache
record_hit c = record c { hits = add64 c.hits 1 }

unfoldable pub record_miss : StreamDirectoryCache → StreamDirectoryCache
record_miss c = record c { misses = add64 c.misses 1 }

-- `HitRateX1000`
unfoldable pub hit_rate_x1000 : StreamDirectoryCache → ℕ
hit_rate_x1000 c =
    let total = add64 c.hits c.misses in if total == 0 then 0 else mul64 c.hits 1000 / total
