-- ===== src/PathCache/Invariant.antt =====
-- What the path cache of src/gdrive_path_cache.cpp keeps over any sequence of its operations.
use duckdb_gdrive.Base.{
  ℕ, ◌+◌, ◌≤◌, ◌≡◌, refl, ◌⊎◌, inl, inr, List, [], ◌∷◌, arith, ◌==◌, length, All, Bool-cases,
  Option-cases,
}
use duckdb_gdrive.Base.Text.{Bytes}
use duckdb_gdrive.Client.{DriveFileMeta}
use duckdb_gdrive.Assoc.{Assoc, find, Distinct, modify-Distinct, All-modify, length-modify}
use duckdb_gdrive.Assoc.Assigning.{
  assign-Distinct, All-assign, erase_if-Distinct, All-erase_if, length-erase_if,
}
use duckdb_gdrive.PathCache.{
  CacheKey, PathEntry, PathCache, Fetched, key_text, metadata_key, evict_paths_locked,
  set_max_entries, try_get, put, falls_under, begin_query, invalidate_prefix, clear,
  look_up_metadata, settle_metadata, get_or_fetch_metadata, uncached, waits, fetches, Flight,
}
use duckdb_gdrive.PathCache.Eviction.{All-evict_loop, evict_loop-Distinct, evict_loop-bound}

-- The calls of the cache, with the query generation of the thread where that is read.
pub data Operation : Type 0 where
  gets : ℕ → CacheKey → Operation
  puts : ℕ → CacheKey → DriveFileMeta → Operation
  invalidates : CacheKey → Operation
  sets_max_entries begins_query : ℕ → Operation
  fetches_metadata : CacheKey → Bytes → Fetched → Operation
  clears : Operation

module _ (maximum_query_id : ℕ) where
  unfoldable pub operate : Operation → PathCache → PathCache
  unfolding try_get put invalidate_prefix set_max_entries begin_query get_or_fetch_metadata clear
  operate (gets generation key) c = (try_get maximum_query_id generation key c).1
  operate (puts generation key meta) c = put generation key meta c
  operate (invalidates key) c = invalidate_prefix key c
  operate (sets_max_entries n) c = set_max_entries n c
  operate (begins_query generation) c = begin_query generation c
  operate (fetches_metadata key file_id fetch) c = (get_or_fetch_metadata key file_id fetch c).1
  operate clears c = clear c

  unfoldable pub run : List Operation → PathCache → PathCache
  unfolding operate
  run [] c = c
  run (o ∷ os) c = run os (operate o c)

-- One entry for a key, none used in the future, and no more entries than are allowed, where 0 allows any
-- number.
pub record IsBounded (c : PathCache) : Type 0 where
  pub distinct : Distinct c.entries
  pub in_past : All (λ x. x.1.used_at ≤ c.path_clock) c.entries
  pub bounded : (c.max_entries ≡ 0) ⊎ (length c.entries ≤ c.max_entries)

evict_paths_locked-IsBounded :
    (c : PathCache)
    → Distinct c.entries
    → All (λ x. x.1.used_at ≤ c.path_clock) c.entries
    → IsBounded (evict_paths_locked c)
unfolding evict_paths_locked
evict_paths_locked-IsBounded c d past = elim (Bool-cases (c.max_entries == 0)) [
  | inl any ↦
      rw (any, evict_paths_locked)
        (record { distinct = d; in_past = past; bounded = inl (ground arith) })
  | inr some_max ↦
      rw (some_max, evict_paths_locked)
        (record {
          distinct = evict_loop-Distinct c.max_entries (length c.entries) c.entries d;
          in_past = All-evict_loop c.max_entries _ (length c.entries) c.entries past;
          bounded =
              inr (evict_loop-bound c.max_entries (length c.entries) c.entries d (omega arith));
        })
]

module _ (n : ℕ) where
  All-later :
      (entries : Assoc PathEntry)
      → All (λ x. x.1.used_at ≤ n) entries
      → All (λ x. x.1.used_at ≤ n + 1) entries
  All-later [] h = tt
  All-later (x ∷ entries) h = (omega (arith, h.0), All-later entries h.1)

put-IsBounded :
    (generation : ℕ) (key : CacheKey) (meta : DriveFileMeta) (c : PathCache)
    → IsBounded c
    → IsBounded (put generation key meta c)
unfolding put
put-IsBounded generation key meta c b =
    evict_paths_locked-IsBounded _ (assign-Distinct (key_text key) _ c.entries b.distinct) (
      All-assign _ (key_text key) _ c.entries (omega arith)
        (All-later c.path_clock c.entries b.in_past))

invalidate_prefix-IsBounded :
    (key : CacheKey) (c : PathCache) → IsBounded c → IsBounded (invalidate_prefix key c)
unfolding invalidate_prefix
invalidate_prefix-IsBounded key c b = record {
  distinct = erase_if-Distinct (falls_under key) c.entries b.distinct;
  in_past = All-erase_if _ (falls_under key) c.entries b.in_past;
  bounded = elim b.bounded [
    | inl any ↦ inl any
    | inr most ↦ inr (omega (arith, length-erase_if (falls_under key) c.entries))
  ];
}

module _ (maximum_query_id : ℕ) where
  try_get-IsBounded :
      (generation : ℕ) (key : CacheKey) (c : PathCache)
      → IsBounded c
      → IsBounded (try_get maximum_query_id generation key c).1
  unfolding try_get
  try_get-IsBounded generation key c b = elim (Option-cases (find (key_text key) c.entries)) [
    | inl miss ↦ rw (miss, try_get) b
    | inr (e, hit) ↦
        rw (hit, try_get)
          (record {
            distinct = modify-Distinct (key_text key) _ c.entries b.distinct;
            in_past =
                All-modify _ (key_text key) _ c.entries (λ k x h. omega arith)
                  (All-later c.path_clock c.entries b.in_past);
            bounded =
                rw
                  (length-modify (key_text key)
                    (λ (x : PathEntry). record x { used_at = c.path_clock + 1 }) c.entries)
                  b.bounded;
          })
  ]

  begin_query-IsBounded :
      (generation : ℕ) (c : PathCache) → IsBounded c → IsBounded (begin_query generation c)
  unfolding begin_query
  begin_query-IsBounded generation c b = elim (Bool-cases (generation == c.metadata_generation)) [
    | inl same ↦ rw (same, begin_query) b
    | inr other ↦
        rw (other, begin_query)
          (record { distinct = b.distinct; in_past = b.in_past; bounded = b.bounded })
  ]

  look_up_metadata-IsBounded :
      (key : CacheKey) (file_id : Bytes) (c : PathCache)
      → IsBounded c
      → IsBounded (look_up_metadata key file_id c).1
  unfolding look_up_metadata
  look_up_metadata-IsBounded key file_id c b = elim (Bool-cases (c.metadata_generation == 0)) [
    | inl unscoped ↦ rw (unscoped, look_up_metadata) b
    | inr scoped ↦ elim (Option-cases (find (metadata_key key file_id) c.metadata_entries)) [
      | inr (promise, hit) ↦ rw (scoped, hit, look_up_metadata) b
      | inl miss ↦
          rw (scoped, miss, look_up_metadata)
            (record { distinct = b.distinct; in_past = b.in_past; bounded = b.bounded })
    ]
  ]

  settle_metadata-IsBounded :
      (key : CacheKey) (file_id : Bytes) (promise : ℕ) (fetch : Fetched) (c : PathCache)
      → IsBounded c
      → IsBounded (settle_metadata key file_id promise fetch c)
  unfolding settle_metadata
  settle_metadata-IsBounded key file_id promise fetch c b = record {
    distinct = b.distinct;
    in_past = b.in_past;
    bounded = b.bounded;
  }

  Flight-cases :
      (f : Flight) → ((f ≡ uncached) ⊎ ((p : ℕ) × (f ≡ waits p))) ⊎ ((p : ℕ) × (f ≡ fetches p))
  Flight-cases uncached = inl (inl refl)
  Flight-cases (waits p) = inl (inr (p, refl))
  Flight-cases (fetches p) = inr (p, refl)

  get_or_fetch_metadata-IsBounded :
      (key : CacheKey) (file_id : Bytes) (fetch : Fetched) (c : PathCache)
      → IsBounded c
      → IsBounded (get_or_fetch_metadata key file_id fetch c).1
  unfolding get_or_fetch_metadata
  get_or_fetch_metadata-IsBounded key file_id fetch c b =
      elim (Flight-cases (look_up_metadata key file_id c).0) [
        | inl (inl e) ↦ rw (e, get_or_fetch_metadata) b
        | inl (inr (p, e)) ↦ rw (e, get_or_fetch_metadata) b
        | inr (p, e) ↦
            rw (e, get_or_fetch_metadata)
              (settle_metadata-IsBounded key file_id p fetch _
                (look_up_metadata-IsBounded key file_id c b))
      ]

  -- An operation keeps the cache bounded.
  operate-IsBounded :
      (o : Operation) (c : PathCache) → IsBounded c → IsBounded (operate maximum_query_id o c)
  unfolding operate set_max_entries clear
  operate-IsBounded (gets generation key) c b = try_get-IsBounded generation key c b
  operate-IsBounded (puts generation key meta) c b = put-IsBounded generation key meta c b
  operate-IsBounded (invalidates key) c b = invalidate_prefix-IsBounded key c b
  operate-IsBounded (sets_max_entries n) c b = evict_paths_locked-IsBounded _ b.distinct b.in_past
  operate-IsBounded (begins_query generation) c b = begin_query-IsBounded generation c b
  operate-IsBounded (fetches_metadata key file_id fetch) c b =
      get_or_fetch_metadata-IsBounded key file_id fetch c b
  operate-IsBounded clears c b = record { distinct = tt; in_past = tt; bounded = inr (omega arith) }

  -- Whatever is done to a path cache, it holds one entry for a key and, after any of its operations, no
  -- more entries than it is allowed to; 0 allows any number.
  pub run-IsBounded :
      (os : List Operation) (c : PathCache) → IsBounded c → IsBounded (run maximum_query_id os c)
  unfolding run
  run-IsBounded [] c b = b
  run-IsBounded (o ∷ os) c b =
      run-IsBounded os (operate maximum_query_id o c) (operate-IsBounded o c b)
