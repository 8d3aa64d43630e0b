-- ===== src/Tests/Mutations.antt =====
-- Renaming and path resolution on concrete data (src/gdrive_mutate.cpp, src/gdrive_filesystem.cpp).
use duckdb_gdrive.Base.{
  ◌≡◌, ◌≢◌, ◌⊎◌, refl, true, false, none, some, List, [], ◌∷◌, ◌++◌, All, ◌>>=◌, length, ◌+◌,
}
use duckdb_gdrive.Base.Text.{eqb, Bytes, codes, strip_prefix?}
use duckdb_gdrive.Json.{Parser, Json, Items, nil, item, end, field, text, array, object}
use duckdb_gdrive.Client.{parse_file_meta_object, file_entries, DriveResponse, no_error}
use duckdb_gdrive.Uri.{GDriveUri, path}
use duckdb_gdrive.Assoc.{find}
use duckdb_gdrive.PathCache.{empty_cache, key_text}
use duckdb_gdrive.Actions.{
  FsCall, lists, gets_metadata, moves, deletes, creates_folder, DriveClient, answered, World,
  Result, returns,
}
use duckdb_gdrive.Actions.Traces.{IsRead}
use duckdb_gdrive.Resolve.{Auth, cache_key, canonical_path_of, name_query}
use duckdb_gdrive.Resolve.Query.{read_literal, query_end, name_query_roundtrip}
use duckdb_gdrive.Mutate.{MovePlan, move_file, create_directory}
use duckdb_gdrive.Mutate.Finding.{IsFoundPlan}
use duckdb_gdrive.Mutate.Moving.{moved, IsMoveRun, IsHonest, move_file-IsMoveRun}
use duckdb_gdrive.Mutate.Forgetting.{move_file_forgets}

abbrev entry : Bytes → Json
entry id = object (field (codes "id") (text id) (field (codes "name") (text (codes "n")) end))

abbrev listing : Items → Json
listing items = object (field (codes "files") (array items) end)

-- "1" stands for a listing of the file 1, "2" for one of the file 2, and "3" for metadata of the root.
abbrev by_body : Parser
by_body [] = none
by_body (c ∷ s) = some (listing (item (entry (c ∷ [])) nil))

abbrev root_json : Json
root_json = entry (codes "root")

abbrev parser : Parser
parser [] = some root_json
parser (c ∷ s) = by_body (c ∷ s)

abbrev answer : Bytes → DriveResponse
answer body = record { ok = true; http_status = 200; body = body; error = no_error; location = [] }

-- The file 1 is found first, and the file 2 after it, where it goes.
abbrev drive : DriveClient
drive [] (lists query token) = answered (answer (codes "1"))
drive (_ ∷ _) (lists query token) = answered (answer (codes "2"))
drive calls (gets_metadata id) = answered (answer [])
drive calls (moves id parent name old) = answered (answer [])
drive calls (deletes id permanent) = answered (answer [])
drive calls (creates_folder parent name) = answered (answer [])

abbrev auth : Auth
auth = record { identity = codes "me"; drive_id = []; root_folder_id = [] }

abbrev at : Bytes → GDriveUri
at name = record { kind = path; file_id = []; segments = name ∷ [] }

abbrev start : World
start = record { cache = empty_cache; calls = [] }

-- The move of gdrive://a to gdrive://b, where there is a file already.
abbrev move_over : World → Result (Unit {0}) × World
move_over w = moved parser drive 3 1000 7 auth (at (codes "a")) (at (codes "b")) false w

move_over_done : (move_over start).0 ≡ returns tt
unfolding move_file find duckdb_gdrive.Json.find eqb file_entries parse_file_meta_object
    strip_prefix?
move_over_done = refl

move_over_calls :
    (move_over start).1.calls
    ≡ lists (name_query (codes "root") (codes "a") false) []
      ∷ gets_metadata (codes "root")
      ∷ gets_metadata (codes "root")
      ∷ lists (name_query (codes "root") (codes "b") false) []
      ∷ moves (codes "1") (codes "root") (codes "b") (codes "root")
      ∷ deletes (codes "2") false
      ∷ []
unfolding move_file name_query find duckdb_gdrive.Json.find eqb file_entries parse_file_meta_object
    strip_prefix?
move_over_calls = refl

move_file-IsMoveRun_example :
    (reads : List FsCall) × All IsRead reads
    × ((((move_over start).1.calls ≡ [] ++ reads) × ((move_over start).0 ≢ returns tt))
        ⊎ ((plan : MovePlan) × (calls : List FsCall) × IsFoundPlan parser drive 3 1000 7 auth
              (at (codes "a"))
              (at (codes "b"))
              start
              plan
            × ((move_over start).1.calls ≡ ([] ++ reads) ++ calls)
            × IsMoveRun drive ([] ++ reads) false plan calls
            × IsHonest parser drive 3 1000 7 auth
                (at (codes "a"))
                (at (codes "b"))
                false
                ([] ++ reads)
                plan
                (move_over start).0))
move_file-IsMoveRun_example =
    move_file-IsMoveRun parser drive 3 1000 7 auth (at (codes "a")) (at (codes "b")) false start

move_file_forgets_example :
    find (key_text (cache_key auth (codes "a/x"))) (move_over start).1.cache.entries ≡ none
unfolding eqb canonical_path_of strip_prefix?
move_file_forgets_example =
    move_file_forgets parser drive 3 1000 7 auth (at (codes "a")) (at (codes "b")) false start
      (codes "a/x") ((refl, (refl, tt)), tt, tt) refl refl move_over_done refl

name_query_roundtrip_example :
    (strip_prefix?
        (codes "'" ++ codes "p" ++ codes "' in parents and name='")
        (name_query (codes "p") (codes "o'neil\\") true)
      >>= read_literal (length (codes "o'neil\\") + 1))
    ≡ some (codes "o'neil\\", query_end true)
name_query_roundtrip_example = name_query_roundtrip (codes "p") (codes "o'neil\\") true

-- The invalidation of a new directory's parent has the whole URI for its path, so that the parent's entry
-- stays.
parent_is_kept :
    length
      (create_directory parser drive 3 1000 7 auth
        (record { kind = path; file_id = []; segments = codes "b" ∷ codes "d" ∷ [] })
        (move_over start).1).1.cache.entries
    ≡ 1
unfolding create_directory strip_prefix? eqb find move_file duckdb_gdrive.Json.find file_entries
    parse_file_meta_object duckdb_gdrive.Assoc.erase_if duckdb_gdrive.Assoc.assign
parent_is_kept = refl
