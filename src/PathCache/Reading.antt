-- ===== src/PathCache/Reading.antt =====
-- What a lookup in the path cache of src/gdrive_path_cache.cpp finds after a Put.
use duckdb_gdrive.Base.{
  ℕ, ◌+◌, ◌≤◌, ◌≡◌, refl, inl, inr, not, ◌&&◌, some, [], ◌∷◌, arith, ◌==◌, length, All, Bool-cases,
}
use duckdb_gdrive.Base.Text.{Bytes}
use duckdb_gdrive.Client.{DriveFileMeta}
use duckdb_gdrive.Assoc.{Assoc, find, Distinct, assign}
use duckdb_gdrive.Assoc.Assigning.{find-assign_self, assign-Distinct, All-assign}
use duckdb_gdrive.PathCache.{
  CacheKey, PathEntry, PathCache, key_text, is_fresh, evict_paths_locked, try_get, put,
}
use duckdb_gdrive.PathCache.Order.{Newest}
use duckdb_gdrive.PathCache.Eviction.{evict_loop-Newest}
use duckdb_gdrive.PathCache.Invariant.{IsBounded}

module _ (clock : ℕ) (key : Bytes) (n : PathEntry) (recent : n.used_at ≡ clock + 1) where
  assign-Newest :
      (entries : Assoc PathEntry)
      → All (λ x. x.1.used_at ≤ clock) entries
      → Newest key n (assign key n entries)
  assign-Newest entries past = All-assign _ key n entries (inl refl) (All-older entries past)
    where
      All-older : (xs : Assoc PathEntry) → All (λ x. x.1.used_at ≤ clock) xs → Newest key n xs
      All-older [] h = tt
      All-older (x ∷ xs) h = (inr (omega (arith, h.0, recent)), All-older xs h.1)

module _ (maximum_query_id : ℕ) where
  evict-Newest :
      (key : Bytes) (n : PathEntry) (c : PathCache)
      → Distinct c.entries
      → find key c.entries ≡ some n
      → Newest key n c.entries
      → find key (evict_paths_locked c).entries ≡ some n
  unfolding evict_paths_locked
  evict-Newest key n c d h newest = elim (Bool-cases (c.max_entries == 0)) [
    | inl any ↦ rw (any, evict_paths_locked) h
    | inr some_max ↦
        rw (some_max, evict_paths_locked)
          (evict_loop-Newest c.max_entries (length c.entries) key n c.entries (ground arith) d h
            newest)
  ]

  -- A lookup after a Put finds what was put: the eviction of the Put never takes it, however few entries
  -- are allowed. It counts as fresh in the query of the Put alone, and never where the thread has no query
  -- of its own, which is generation 0 or MAXIMUM_QUERY_ID.
  pub try_get-put :
      (put_in read_in : ℕ) (key : CacheKey) (meta : DriveFileMeta) (c : PathCache)
      → IsBounded c
      → (try_get maximum_query_id read_in key (put put_in key meta c)).0
        ≡ some
            (meta, put_in == read_in && (not (read_in == 0) && not (read_in == maximum_query_id)))
  unfolding try_get put is_fresh
  try_get-put put_in read_in key meta c b =
      let found : find (key_text key) (evict_paths_locked written).entries ≡ some entry =
        evict-Newest (key_text key) entry written
          (assign-Distinct (key_text key) entry c.entries b.distinct)
          (find-assign_self (key_text key) entry c.entries)
          (assign-Newest c.path_clock (key_text key) entry refl c.entries b.in_past) in
      rw (found, try_get) (ground arith)
    where
      entry : PathEntry
      entry = record { meta = meta; used_at = c.path_clock + 1; fresh_generation = put_in }

      written : PathCache
      written = record c {
        entries = assign (key_text key) entry c.entries;
        path_clock = c.path_clock + 1;
      }
