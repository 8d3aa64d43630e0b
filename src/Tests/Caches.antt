-- ===== src/Tests/Caches.antt =====
-- The path cache on concrete data (src/gdrive_path_cache.cpp).
use duckdb_gdrive.Base.{
  ◌≡◌, refl, true, none, some, List, [], ◌∷◌, inl, ◌&&◌, not, ◌==◌, if◌then◌else◌, length,
}
use duckdb_gdrive.Base.Text.{strip_prefix?, eqb, Bytes, codes}
use duckdb_gdrive.Base.Int.{pos}
use duckdb_gdrive.Client.{DriveFileMeta}
use duckdb_gdrive.Assoc.{modify, assign, erase_if, find}
use duckdb_gdrive.PathCache.{
  CacheKey, PathCache, key_text, put, try_get, invalidate_prefix, empty_cache,
  get_or_fetch_metadata, begin_query, settled,
}
use duckdb_gdrive.PathCache.Invariant.{
  Operation, gets, puts, sets_max_entries, begins_query, run, IsBounded, run-IsBounded,
}
use duckdb_gdrive.PathCache.Reading.{try_get-put}
use duckdb_gdrive.PathCache.Invalidation.{same_identity, at_or_below, find-invalidate_prefix}

abbrev key : Bytes → CacheKey
key path = record {
  identity = codes "me";
  drive_id = [];
  root_folder_id = codes "root";
  canonical_path = path;
}

abbrev file : Bytes → DriveFileMeta
file id = record {
  id = id;
  name = codes "x";
  mime_type = codes "text/plain";
  size = pos 1;
  modified_time = [];
  head_revision_id = [];
}

-- One entry at most.
abbrev operations : List Operation
operations =
    sets_max_entries 1
    ∷ begins_query 7
    ∷ puts 7 (key (codes "a")) (file (codes "1"))
    ∷ puts 7 (key (codes "a/b")) (file (codes "2"))
    ∷ gets 7 (key (codes "a/b"))
    ∷ []

abbrev small : PathCache
small = run 1000 operations empty_cache

empty_cache-IsBounded : IsBounded empty_cache
empty_cache-IsBounded = record { distinct = tt; in_past = tt; bounded = inl refl }

run-IsBounded_example : IsBounded (run 1000 operations empty_cache)
run-IsBounded_example = run-IsBounded 1000 operations empty_cache empty_cache-IsBounded

one_left : length small.entries ≡ 1
unfolding run find assign eqb modify
one_left = refl

try_get-put_example :
    (try_get 1000 8 (key (codes "c")) (put 7 (key (codes "c")) (file (codes "3")) small)).0
    ≡ some (file (codes "3"), 7 == 8 && (not (8 == 0) && not (8 == 1000)))
try_get-put_example =
    try_get-put 1000 7 8 (key (codes "c")) (file (codes "3")) small run-IsBounded_example

abbrev filled : PathCache
filled = put 7 (key (codes "a/b")) (file (codes "2")) (
    put 7 (key (codes "ab")) (file (codes "3"))
      (put 7 (key (codes "a")) (file (codes "1")) empty_cache))

sibling_stays :
    (try_get 1000 7 (key (codes "ab")) (invalidate_prefix (key (codes "a")) filled)).0
    ≡ some (file (codes "3"), true)
unfolding try_get find invalidate_prefix erase_if put assign eqb strip_prefix?
sibling_stays = refl

child_goes :
    (try_get 1000 7 (key (codes "a/b")) (invalidate_prefix (key (codes "a")) filled)).0 ≡ none
unfolding try_get find invalidate_prefix erase_if put assign eqb strip_prefix?
child_goes = refl

-- Under the root there are paths, but they do not go on after its path with a slash.
root_keeps_all : (invalidate_prefix (key []) filled).entries ≡ filled.entries
unfolding put invalidate_prefix assign erase_if eqb strip_prefix?
root_keeps_all = refl

find-invalidate_prefix_example :
    find (key_text (key (codes "a/b"))) (invalidate_prefix (key (codes "a")) filled).entries ≡ (
      if same_identity (key (codes "a")) (key (codes "a/b"))
        && at_or_below (codes "a") (codes "a/b")
      then none
      else find (key_text (key (codes "a/b"))) filled.entries)
find-invalidate_prefix_example =
    find-invalidate_prefix (key (codes "a")) (key (codes "a/b")) filled
      (((refl, (refl, tt)), tt, (refl, (refl, (refl, (refl, tt))))))
      (((refl, (refl, tt)), tt, (refl, (refl, (refl, (refl, tt))))))

fetched_once :
    (get_or_fetch_metadata
      (key [])
      (codes "f")
      (settled none)
      (get_or_fetch_metadata
        (key [])
        (codes "f")
        (settled (some (file (codes "f"))))
        (begin_query 7 empty_cache)).1).0
    ≡ settled (some (file (codes "f")))
unfolding get_or_fetch_metadata begin_query find assign eqb
fetched_once = refl
