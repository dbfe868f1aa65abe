-- ===== src/Storage/Streams/Laws.antt =====
-- Stream ids are fresh and their directory entries apart; the hit rate counts what was recorded.
use wrela.Prelude.{
  ◌⊎◌, false, ℕ, suc, ◌+◌, ◌*◌, ◌/◌, ◌≤◌, ◌<◌, ◌≡◌, ◌≢◌, refl, add64, mul64, Bool, true, false,
  ◌||◌, List, [], ◌∷◌, ◌==◌, length, IsU64, arith, if◌then◌else◌,
}
use wrela.Storage.Streams.{
  StreamDirectory, entry_offset, exists, allocate_stream_id, StreamDirectoryCache, record_hit,
  record_miss, hit_rate_x1000,
}
use native.Mathlib.Nat.{div-le_of_le-mul}

-- While the directory ends below 2^64, allocation gives an id that did not exist; after it that id exists, and of the others those that
-- did. The 32 bytes of its directory entry lie behind those of every stream that existed.
pub allocate_stream_id_fresh :
    (d : StreamDirectory) (s : ℕ)
    → IsU64 (d.next_stream_id * 32 + 32)
    → let (d', id) = allocate_stream_id d in
      (exists d id ≡ false)
      × (exists d' s ≡ (s == id || exists d s))
      × ((exists d s ≡ false) ⊎ (entry_offset d s + 32 ≤ entry_offset d' id))
unfolding allocate_stream_id exists entry_offset
allocate_stream_id_fresh d s u = ground arith

-- A history of lookups, `true` for a hit.
unfoldable pub record_all : StreamDirectoryCache → List Bool → StreamDirectoryCache
record_all c [] = c
record_all c (b ∷ bs) = record_all (if b then record_hit c else record_miss c) bs

abbrev pub count_hits : List Bool → ℕ
count_hits [] = 0
count_hits (true ∷ bs) = suc (count_hits bs)
count_hits (false ∷ bs) = count_hits bs

count_hits-le : (bs : List Bool) → count_hits bs ≤ length bs
count_hits-le [] = omega arith
count_hits-le (true ∷ bs) = omega (arith, count_hits-le bs)
count_hits-le (false ∷ bs) = omega (arith, count_hits-le bs)

record_all-counts :
    (bs : List Bool) (c : StreamDirectoryCache)
    → IsU64 (c.hits + c.misses + length bs)
    → ((record_all c bs).hits ≡ c.hits + count_hits bs)
      × ((record_all c bs).hits + (record_all c bs).misses ≡ c.hits + c.misses + length bs)
unfolding record_all record_hit record_miss
record_all-counts [] c u = omega arith
record_all-counts (true ∷ bs) c u =
    let next = record_all-counts bs (record_hit c) (omega arith) in omega (arith, next)
record_all-counts (false ∷ bs) c u =
    let next = record_all-counts bs (record_miss c) (omega arith) in omega (arith, next)

rate_lem :
    (c : StreamDirectoryCache) (h n : ℕ)
    → c.hits ≡ h
    → c.hits + c.misses ≡ n
    → 0 < n
    → h ≤ n
    → IsU64 (n * 1000)
    → (hit_rate_x1000 c ≡ h * 1000 / n) × (hit_rate_x1000 c ≤ 1000)
unfolding hit_rate_x1000
rate_lem c h n eh en pos le u =
    let total : add64 c.hits c.misses ≡ n = omega arith in
    let product : mul64 c.hits 1000 ≡ h * 1000 = omega arith in
    let positive : (n == 0) ≡ false = ground arith in
    let small : h * 1000 / n ≤ 1000 = div-le_of_le-mul n (omega arith) in
    rw (total, positive, product) (refl, small)

-- After any nonempty history from empty counters the rate is the share of hits in thousandths,
-- rounded down, and at most 1000. The history is short enough for the 64-bit product.
pub hit_rate_of_history :
    (bs : List Bool)
    → bs ≢ []
    → IsU64 (length bs * 1000)
    → let c = record_all (record { hits = 0; misses = 0 }) bs in
      (hit_rate_x1000 c ≡ count_hits bs * 1000 / length bs) × (hit_rate_x1000 c ≤ 1000)
hit_rate_of_history [] ne u = absurd (ne refl)
hit_rate_of_history (b ∷ bs) ne u =
    let all = b ∷ bs in
    let start : StreamDirectoryCache = record { hits = 0; misses = 0 } in
    let (hits, total) = record_all-counts all start (omega arith) in
    rate_lem (record_all start all) (count_hits all) (length all) (omega arith) (omega arith)
      (omega arith) (count_hits-le all) u
