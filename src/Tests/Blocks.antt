-- ===== src/Tests/Blocks.antt =====
-- The block cache on concrete data (src/gdrive_blockcache.cpp).
use duckdb_gdrive.Assoc.{erase, find}
use duckdb_gdrive.Base.Decimal.{to_string}
use duckdb_gdrive.Base.{ℕ, ◌≤◌, ◌≡◌, ◌≢◌, ◌⊎◌, refl, true, some, List, [], ◌∷◌, arith, All}
use duckdb_gdrive.Base.Text.{eqb, Bytes, codes}
use duckdb_gdrive.BlockCache.{
  Request, fetch_start, fetch_length, Entry, value, Cache, is_ready, evict_locked, Event, call,
  fetch_returns, fetch_throws, settles, wakes, sets_capacity, returned, run, initial_system, threw,
}
use duckdb_gdrive.BlockCache.Eviction.{
  InFlight, IsOldest, Accounts, evict_locked-bound, evict_locked-IsOldest,
}
use duckdb_gdrive.BlockCache.Content.{run_returns_block}

-- The fetch returns the last byte of the key as often as it was asked for.
abbrev one_byte : Bytes → ℕ → ℕ → Bytes
one_byte key start len = start ∷ len ∷ []

abbrev ten : Bytes → ℕ
ten _ = 10

abbrev second_block : Request
second_block = record { key = codes "k"; block_index = 1; block_size = 4; file_size = 10 }

abbrev last_block : Request
last_block = record { key = codes "k"; block_index = 2; block_size = 4; file_size = 10 }

-- Two threads ask for one block, and the second waits for the first.
abbrev shared : List Event
shared =
    sets_capacity 100
    ∷ call 0 second_block
    ∷ call 1 second_block
    ∷ fetch_returns 0
    ∷ settles 0
    ∷ wakes 1
    ∷ []

shared_returns : (run one_byte shared initial_system).threads 1 ≡ returned second_block (4 ∷ 4 ∷ [])
unfolding run find evict_locked eqb to_string
shared_returns = refl

run_returns_block_example :
    4 ∷ 4 ∷ [] ≡ one_byte second_block.key (fetch_start second_block) (fetch_length second_block)
run_returns_block_example =
    run_returns_block one_byte ten shared 1 second_block (4 ∷ 4 ∷ [])
      (tt, (refl, (refl, (tt, (tt, (tt, tt)))))) shared_returns

-- The last block of a file of ten bytes has two.
last_length : fetch_length last_block ≡ 2
unfolding fetch_length
last_length = refl

-- A fetch that throws reaches the thread that waits for it.
failing_fetch :
    (run one_byte
        (sets_capacity 100
          ∷ call 0 second_block
          ∷ call 1 second_block
          ∷ fetch_throws 0
          ∷ settles 0
          ∷ wakes 1
          ∷ [])
        initial_system).threads
      1
    ≡ threw second_block
unfolding run find evict_locked eqb to_string
failing_fetch = refl

abbrev older_block : Entry
older_block = record { bytes = 4; used_at = 1; generation = 1 }

abbrev newer_block : Entry
newer_block = record { bytes = 4; used_at = 2; generation = 2 }

abbrev crowded : Cache
crowded = record {
  blocks = (codes "a", newer_block) ∷ (codes "b", older_block) ∷ [];
  capacity_bytes = 5;
  cached_bytes = 8;
  clock = 2;
  next_generation = 2;
  promises = λ g. value [];
}

crowded-Accounts : Accounts crowded
unfolding find eqb
crowded-Accounts = record { counted = refl; distinct = (refl, (refl, tt)) }

has_capacity : crowded.capacity_bytes ≢ 0
has_capacity e = omega arith

evict_locked-bound_example :
    Accounts (evict_locked crowded)
    × (((evict_locked crowded).cached_bytes ≤ 5)
        ⊎ All (InFlight crowded.promises) (evict_locked crowded).blocks)
evict_locked-bound_example = evict_locked-bound crowded has_capacity crowded-Accounts

older_stands : find (codes "b") crowded.blocks ≡ some older_block
unfolding find eqb
older_stands = refl

evict_locked-IsOldest_example :
    (find (codes "b") (evict_locked crowded).blocks ≡ some older_block)
    ⊎ ((is_ready crowded.promises older_block ≡ true)
        × All (IsOldest crowded.promises older_block) (evict_locked crowded).blocks)
evict_locked-IsOldest_example =
    evict_locked-IsOldest crowded (codes "b") older_block has_capacity crowded-Accounts older_stands

-- The older block goes and the newer one stays.
crowded_evicts : (evict_locked crowded).blocks ≡ (codes "a", newer_block) ∷ []
unfolding evict_locked erase eqb
crowded_evicts = refl
