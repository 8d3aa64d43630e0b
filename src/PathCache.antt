-- ===== src/PathCache.antt =====
-- src/gdrive_path_cache.cpp and src/include/gdrive_filesystem.hpp: the cache from paths to metadata that
-- all contexts share. A method holds the lock, and is one step; the query generation of the calling thread
-- is an argument. Clocks do not wrap. MAXIMUM_QUERY_ID is DuckDB's, a parameter.
pub mod Order
pub mod Eviction
pub mod Invalidation
pub mod Invariant
pub mod Reading
use duckdb_gdrive.Base.{
  ℕ, zero, suc, ◌+◌, Bool, true, false, not, ◌&&◌, ◌||◌, Option, none, some, List, [], ◌∷◌, ◌++◌,
  ltb, ◌==◌, if◌then◌else◌, length,
}
use duckdb_gdrive.Base.Text.{Bytes, codes, eqb, strip_prefix?}
use duckdb_gdrive.Assoc.{Assoc, find, erase, modify, assign, erase_if}
use duckdb_gdrive.Client.{DriveFileMeta}

pub record CacheKey : Type 0 where
  pub identity : Bytes
  pub drive_id : Bytes
  pub root_folder_id : Bytes
  pub canonical_path : Bytes

-- '\x1f'
abbrev pub separator : ℕ
separator = 31

-- The part of a key that says whose it is, with a separator after each field.
unfoldable pub identity_prefix : CacheKey → Bytes
identity_prefix key =
    key.identity ++ separator ∷ (key.drive_id ++ separator ∷ (key.root_folder_id ++ separator ∷ []))

-- ToString
unfoldable pub key_text : CacheKey → Bytes
unfolding identity_prefix
key_text key = identity_prefix key ++ key.canonical_path

unfoldable pub metadata_prefix : CacheKey → Bytes
unfolding identity_prefix
metadata_prefix key = identity_prefix key ++ codes "meta" ++ separator ∷ []

unfoldable pub metadata_key : CacheKey → Bytes → Bytes
unfolding metadata_prefix
metadata_key identity file_id = metadata_prefix identity ++ file_id

pub record PathEntry : Type 0 where
  pub meta : DriveFileMeta
  pub used_at : ℕ
  pub fresh_generation : ℕ

-- What a metadata fetch has come to. The file that is absent is none.
pub data Fetched : Type 0 where
  pending : Fetched
  settled : Option DriveFileMeta → Fetched
  thrown : Fetched

-- The future of a metadata entry is the number of its promise.
pub record PathCache : Type 0 where
  pub entries : Assoc PathEntry
  pub max_entries : ℕ
  pub path_clock : ℕ
  pub metadata_entries : Assoc ℕ
  pub metadata_generation : ℕ
  pub next_promise : ℕ
  pub promises : ℕ → Fetched

-- The scan of EvictPathsLocked for the entry that was used longest ago.
unfoldable pub coldest : Bytes × PathEntry → Assoc PathEntry → Bytes × PathEntry
coldest victim [] = victim
coldest victim (candidate ∷ entries) =
    coldest (if ltb candidate.1.used_at victim.1.used_at then candidate else victim) entries

-- Each round takes one entry away, so their number is fuel.
unfoldable pub evict_loop : ℕ → ℕ → Assoc PathEntry → Assoc PathEntry
unfolding coldest erase
evict_loop zero max_entries entries = entries
evict_loop (suc fuel) max_entries [] = []
evict_loop (suc fuel) max_entries (e ∷ entries) =
    let rest = evict_loop fuel max_entries (erase (coldest e (e ∷ entries)).0 (e ∷ entries)) in
    if ltb max_entries (length (e ∷ entries)) then rest else e ∷ entries

unfoldable pub evict_paths_locked : PathCache → PathCache
unfolding evict_loop
evict_paths_locked c =
    if c.max_entries == 0
    then c
    else record c { entries = evict_loop (length c.entries) c.max_entries c.entries }

unfoldable pub set_max_entries : ℕ → PathCache → PathCache
unfolding evict_paths_locked
set_max_entries max_entries c = evict_paths_locked (record c { max_entries = max_entries })

module _ (maximum_query_id : ℕ) where
  unfoldable pub is_fresh : ℕ → PathEntry → Bool
  is_fresh generation e =
      not (generation == 0)
      && (not (generation == maximum_query_id) && e.fresh_generation == generation)

  -- The metadata and whether it is fresh, none for a miss.
  unfoldable pub try_get : ℕ → CacheKey → PathCache → Option (DriveFileMeta × Bool) × PathCache
  unfolding key_text is_fresh
  try_get generation key c = elim (find (key_text key) c.entries) [
    | none ↦ (none, c)
    | some e ↦ (
      some (e.meta, is_fresh generation e),
      record c {
        entries =
            modify (key_text key) (λ (x : PathEntry). record x { used_at = c.path_clock + 1 })
              c.entries;
        path_clock = c.path_clock + 1;
      },
    )
  ]

unfoldable pub put : ℕ → CacheKey → DriveFileMeta → PathCache → PathCache
unfolding key_text evict_paths_locked
put generation key meta c = evict_paths_locked (record c {
  entries =
      assign (key_text key)
        (record { meta = meta; used_at = c.path_clock + 1; fresh_generation = generation })
        c.entries;
  path_clock = c.path_clock + 1;
})

unfoldable pub begin_query : ℕ → PathCache → PathCache
begin_query generation c =
    if generation == c.metadata_generation
    then c
    else record c { metadata_entries = []; metadata_generation = generation }

-- k.compare(0, prefix.size(), prefix) == 0
abbrev pub starts_with : Bytes → Bytes → Bool
starts_with prefix s = elim (strip_prefix? prefix s) [ none ↦ false | some _ ↦ true ]

unfoldable pub falls_under : CacheKey → Bytes → Bool
unfolding identity_prefix key_text
falls_under key k =
    starts_with (identity_prefix key) k
    && (eqb k (key_text key) || starts_with (key_text key ++ codes "/") k)

unfoldable pub invalidate_prefix : CacheKey → PathCache → PathCache
unfolding falls_under metadata_prefix
invalidate_prefix key c = record c {
  metadata_entries = erase_if (starts_with (metadata_prefix key)) c.metadata_entries;
  entries = erase_if (falls_under key) c.entries;
}

unfoldable pub clear : PathCache → PathCache
clear c = record c { entries = []; metadata_entries = [] }

-- The first section of GetOrFetchMetadata: go to Drive and keep nothing, wait for a promise, or fetch and
-- keep it.
pub data Flight : Type 0 where
  uncached : Flight
  waits fetches : ℕ → Flight

unfoldable pub look_up_metadata : CacheKey → Bytes → PathCache → Flight × PathCache
unfolding metadata_key
look_up_metadata identity file_id c =
    if c.metadata_generation == 0
    then (uncached, c)
    else elim (find (metadata_key identity file_id) c.metadata_entries) [
      | some promise ↦ (waits promise, c)
      | none ↦ (
        fetches (c.next_promise + 1),
        record c {
          metadata_entries =
              assign (metadata_key identity file_id) (c.next_promise + 1) c.metadata_entries;
          next_promise = c.next_promise + 1;
        },
      )
    ]

abbrev pub found_file : Fetched → Bool
found_file (settled (some meta)) = true
found_file _ = false

-- What follows a fetch: an entry without a file is erased, and the promise is kept.
unfoldable pub settle_metadata : CacheKey → Bytes → ℕ → Fetched → PathCache → PathCache
unfolding metadata_key
settle_metadata identity file_id promise outcome c = record c {
  metadata_entries =
      if found_file outcome
      then c.metadata_entries
      else erase (metadata_key identity file_id) c.metadata_entries;
  promises = λ p. if p == promise then outcome else c.promises p;
}

-- GetOrFetchMetadata of a thread that no other one interrupts: pending where it waits for another one.
unfoldable pub get_or_fetch_metadata : CacheKey → Bytes → Fetched → PathCache → Fetched × PathCache
unfolding look_up_metadata settle_metadata
get_or_fetch_metadata identity file_id fetch c = elim (look_up_metadata identity file_id c).0 [
  | uncached ↦ (fetch, c)
  | waits promise ↦ (c.promises promise, c)
  | fetches promise ↦ (
    fetch,
    settle_metadata identity file_id promise fetch (look_up_metadata identity file_id c).1,
  )
]

abbrev pub empty_cache : PathCache
empty_cache = record {
  entries = [];
  max_entries = 0;
  path_clock = 0;
  metadata_entries = [];
  metadata_generation = 0;
  next_promise = 0;
  promises = λ p. pending;
}
