-- ===== src/BlockCache.antt =====
-- src/gdrive_blockcache.cpp and src/include/gdrive_blockcache.hpp: the shared cache of file blocks.
-- A call of GetBlock is cut at its critical sections: each of them, and each fetch, wait and promise,
-- is one event of a schedule, so that the events of many threads interleave freely. A shared_future is
-- the generation of its entry, which names a promise; used_at, generations and byte counts do not wrap.
pub mod Map
pub mod Keys
pub mod Eviction
pub mod Books
pub mod Content
use duckdb_gdrive.Base.{
  ℕ, zero, suc, ◌+◌, ◌-◌, ◌*◌, ◌%◌, ◌^◌, min, Bool, true, false, not, ◌&&◌, ◌||◌, Option, none,
  some, List, [], ◌∷◌, ◌++◌, ltb, ◌==◌, if◌then◌else◌, length,
}
use duckdb_gdrive.Base.Text.{Bytes}
use duckdb_gdrive.Assoc.{Assoc, find, erase, modify}
use duckdb_gdrive.Base.Decimal.{to_string}

pub record Request : Type 0 where
  pub key : Bytes
  pub block_index : ℕ
  pub block_size : ℕ
  pub file_size : ℕ

unfoldable pub full_key : Request → Bytes
full_key r = r.key ++ (31 ∷ (to_string r.block_size ++ (31 ∷ to_string r.block_index)))

unfoldable pub fetch_start : Request → ℕ
fetch_start r = (r.block_index * r.block_size) % 2 ^ 64

unfoldable pub fetch_length : Request → ℕ
unfolding fetch_start
fetch_length r =
    min r.block_size (if ltb (fetch_start r) r.file_size then r.file_size - fetch_start r else 0)

pub record Entry : Type 0 where
  pub bytes : ℕ
  pub used_at : ℕ
  pub generation : ℕ

pub data Promise : Type 0 where
  pending : Promise
  value : Bytes → Promise
  exception : Promise

abbrev pub Blocks : Type 0
Blocks = Assoc Entry

pub record Cache : Type 0 where
  pub blocks : Blocks
  pub capacity_bytes : ℕ
  pub cached_bytes : ℕ
  pub clock : ℕ
  pub next_generation : ℕ
  pub promises : ℕ → Promise

abbrev pub is_pending : Promise → Bool
is_pending pending = true
is_pending _ = false

-- wait_for(0) == ready
abbrev pub is_ready : (ℕ → Promise) → Entry → Bool
is_ready promises e = not (is_pending (promises e.generation))

older : Option (Bytes × Entry) → Bytes × Entry → Option (Bytes × Entry)
older none candidate = some candidate
older (some victim) candidate =
    if ltb candidate.1.used_at victim.1.used_at then some candidate else some victim

-- The scan of EvictLocked for the completed entry that was used longest ago.
unfoldable pub scan : (ℕ → Promise) → Option (Bytes × Entry) → Blocks → Option (Bytes × Entry)
unfolding older
scan promises victim [] = victim
scan promises victim (candidate ∷ blocks) =
    scan promises (if is_ready promises candidate.1 then older victim candidate else victim) blocks

unfoldable pub evict_loop : ℕ → Cache → Cache
unfolding scan
evict_loop zero c = c
evict_loop (suc fuel) c =
    if ltb c.capacity_bytes c.cached_bytes
    then elim (scan c.promises none c.blocks) [
      | none ↦ c
      | some (key, victim) ↦
          evict_loop fuel
            (record c { cached_bytes = c.cached_bytes - victim.bytes; blocks = erase key c.blocks })
    ]
    else c

-- Each round takes one entry away.
unfoldable pub evict_locked : Cache → Cache
unfolding evict_loop
evict_locked c =
    if c.capacity_bytes == 0
    then record c { blocks = []; cached_bytes = 0 }
    else evict_loop (length c.blocks + 1) c

unfoldable pub set_capacity : ℕ → Cache → Cache
set_capacity bytes c = evict_locked (record c { capacity_bytes = bytes })

unfoldable pub clear : Cache → Cache
clear c = record c { blocks = []; cached_bytes = 0 }

-- The first critical section of GetBlock: whether the caller has to fetch, and the future's generation.
unfoldable pub look_up : Bytes → Cache → Bool × ℕ × Cache
look_up key c = elim (find key c.blocks) [
  | some e ↦ (
    false,
    e.generation,
    record c {
      blocks = modify key (λ (x : Entry). record x { used_at = c.clock + 1 }) c.blocks;
      clock = c.clock + 1;
    },
  )
  | none ↦ (
    true,
    c.next_generation + 1,
    record c {
      blocks =
          (key, record { bytes = 0; used_at = c.clock + 1; generation = c.next_generation + 1 })
          ∷ c.blocks;
      clock = c.clock + 1;
      next_generation = c.next_generation + 1;
    },
  )
]

-- it != blocks.end() && it->second.generation == my_generation
unfoldable pub owns : Bytes → ℕ → Blocks → Option Entry
owns key generation blocks = elim (find key blocks) [
  | none ↦ none
  | some e ↦ if e.generation == generation then some e else none
]

-- The critical section after a fetch that succeeded.
unfoldable pub store : Bytes → ℕ → Bytes → Cache → Cache
unfolding owns
store key generation stored c = evict_locked (elim (owns key generation c.blocks) [
  | none ↦ c
  | some e ↦ record c {
    blocks = modify key (λ (x : Entry). record x { bytes = length stored }) c.blocks;
    cached_bytes = c.cached_bytes + length stored;
  }
])

-- The critical section after a fetch that threw.
unfoldable pub discard : Bytes → ℕ → Cache → Cache
unfolding owns
discard key generation c = elim (owns key generation c.blocks) [
  | none ↦ c
  | some e ↦ record c { cached_bytes = c.cached_bytes - e.bytes; blocks = erase key c.blocks }
]

unfoldable pub settle : ℕ → Promise → Cache → Cache
settle generation outcome c = record c {
  promises = λ g. if g == generation then outcome else c.promises g;
}

-- Where a thread stands in a call of GetBlock.
pub data Thread : Type 0 where
  idle : Thread
  fetching : Request → ℕ → Thread
  storing : Request → ℕ → Bytes → Thread
  throwing : Request → ℕ → Thread
  waiting : Request → ℕ → Thread
  returned : Request → Bytes → Thread
  threw : Request → Thread

pub record System : Type 0 where
  pub cache : Cache
  pub threads : ℕ → Thread

pub data Event : Type 0 where
  call : ℕ → Request → Event
  fetch_returns fetch_throws settles wakes : ℕ → Event
  sets_capacity : ℕ → Event
  clears : Event

set_thread : ℕ → Thread → Cache → System → System
set_thread t state c s = record { cache = c; threads = λ u. if u == t then state else s.threads u }

begin_call : ℕ → Request → Thread → System → System
unfolding set_thread look_up full_key
begin_call t r idle s =
    let (mine, generation, c) = look_up (full_key r) s.cache in
    set_thread t (if mine then fetching r generation else waiting r generation) c s
begin_call t r _ s = s

module _ (fetch : Bytes → ℕ → ℕ → Bytes) where
  after_fetch : ℕ → Thread → System → System
  unfolding set_thread store fetch_start fetch_length
  after_fetch t (fetching r generation) s =
      let stored = fetch r.key (fetch_start r) (fetch_length r) in
      set_thread t (storing r generation stored) (store (full_key r) generation stored s.cache) s
  after_fetch t _ s = s

  after_throw : ℕ → Thread → System → System
  unfolding set_thread discard
  after_throw t (fetching r generation) s =
      set_thread t (throwing r generation) (discard (full_key r) generation s.cache) s
  after_throw t _ s = s

  -- set_value or set_exception, and the return of the call.
  after_settle : ℕ → Thread → System → System
  unfolding set_thread settle
  after_settle t (storing r generation stored) s =
      set_thread t (returned r stored) (settle generation (value stored) s.cache) s
  after_settle t (throwing r generation) s =
      set_thread t (threw r) (settle generation exception s.cache) s
  after_settle t _ s = s

  -- future.get
  woken : ℕ → Request → Promise → System → System
  unfolding set_thread
  woken t r pending s = s
  woken t r (value stored) s = set_thread t (returned r stored) s.cache s
  woken t r exception s = set_thread t (threw r) s.cache s

  after_wake : ℕ → Thread → System → System
  unfolding woken
  after_wake t (waiting r generation) s = woken t r (s.cache.promises generation) s
  after_wake t _ s = s

  -- One event. An event that its thread is not ready for changes nothing.
  unfoldable pub step : Event → System → System
  unfolding begin_call after_fetch after_throw after_settle after_wake set_capacity clear
  step (call t r) s = begin_call t r (s.threads t) s
  step (fetch_returns t) s = after_fetch t (s.threads t) s
  step (fetch_throws t) s = after_throw t (s.threads t) s
  step (settles t) s = after_settle t (s.threads t) s
  step (wakes t) s = after_wake t (s.threads t) s
  step (sets_capacity bytes) s = record s { cache = set_capacity bytes s.cache }
  step clears s = record s { cache = clear s.cache }

  unfoldable pub run : List Event → System → System
  unfolding step
  run [] s = s
  run (e ∷ es) s = run es (step e s)

abbrev pub empty_cache : Cache
empty_cache = record {
  blocks = [];
  capacity_bytes = 0;
  cached_bytes = 0;
  clock = 0;
  next_generation = 0;
  promises = λ g. pending;
}

abbrev pub initial_system : System
initial_system = record { cache = empty_cache; threads = λ t. idle }
