-- ===== src/Tests/Openings.antt =====
-- Opening a file for writing on concrete data (src/gdrive_filesystem.cpp).
use duckdb_gdrive.Base.{◌≡◌, refl, true, false, some, List, [], ◌∷◌}
use duckdb_gdrive.Base.Text.{eqb, Bytes, codes}
use duckdb_gdrive.Json.{Parser, Json, Items, nil, end, field, text, array, object}
use duckdb_gdrive.Client.{parse_file_meta_object, file_entries, DriveResponse, no_error}
use duckdb_gdrive.Uri.{GDriveUri, path, initial}
use duckdb_gdrive.PathCache.{empty_cache}
use duckdb_gdrive.Actions.{
  lists, gets_metadata, moves, deletes, creates_folder, DriveClient, answered, World, Result,
  returns,
}
use duckdb_gdrive.Resolve.{Auth, name_query}
use duckdb_gdrive.Opening.{WriteTarget, open_for_writing}
use duckdb_gdrive.Opening.Creations.{IsOpening, open_for_writing-IsOpening}

-- An empty text stands for a listing without files, and another one for the metadata of that file.
abbrev parser : Parser
parser [] = some (object (field (codes "files") (array nil) end))
parser (c ∷ s) =
    some (object (field (codes "id") (text (c ∷ s)) (field (codes "name") (text (codes "n")) end)))

abbrev answer : Bytes → DriveResponse
answer body = record { ok = true; http_status = 200; body = body; error = no_error; location = [] }

-- A Drive without files, where the id of a new folder is its name.
abbrev bare : DriveClient
bare calls (creates_folder parent name) = answered (answer name)
bare calls (lists query token) = answered (answer [])
bare calls (gets_metadata id) = answered (answer [])
bare calls (moves id parent name old) = answered (answer [])
bare calls (deletes id permanent) = answered (answer [])

abbrev auth : Auth
auth = record { identity = codes "me"; drive_id = []; root_folder_id = [] }

abbrev start : World
start = record { cache = empty_cache; calls = [] }

abbrev nested : GDriveUri
nested = record { kind = path; file_id = []; segments = codes "a" ∷ codes "b" ∷ codes "f.csv" ∷ [] }

abbrev opened : World → Result WriteTarget × World
opened w = open_for_writing parser bare 3 1000 7 auth nested (codes "gdrive://a/b/f.csv") w

open_for_writing-IsOpening_example : IsOpening (initial nested.segments) start (opened start)
open_for_writing-IsOpening_example =
    open_for_writing-IsOpening parser bare 3 1000 7 auth (codes "gdrive://a/b/f.csv") nested start

-- The first segment is looked for twice, as a folder and as a file; the second one is not looked for.
opened_calls :
    (opened start).1.calls
    ≡ lists (name_query (codes "root") (codes "a") true) []
      ∷ lists (name_query (codes "root") (codes "a") false) []
      ∷ creates_folder (codes "root") (codes "a")
      ∷ creates_folder (codes "a") (codes "b")
      ∷ []
unfolding open_for_writing name_query duckdb_gdrive.Assoc.find duckdb_gdrive.Json.find
    duckdb_gdrive.Base.Text.eqb duckdb_gdrive.Client.file_entries
    duckdb_gdrive.Client.parse_file_meta_object duckdb_gdrive.Base.Text.strip_prefix?
    duckdb_gdrive.Uri.file_name initial duckdb_gdrive.Assoc.assign
opened_calls = refl

opened_target :
    (opened start).0
    ≡ returns (record { parent_id = codes "b"; name = codes "f.csv"; existing_id = [] })
unfolding open_for_writing name_query duckdb_gdrive.Assoc.find duckdb_gdrive.Json.find
    duckdb_gdrive.Base.Text.eqb duckdb_gdrive.Client.file_entries
    duckdb_gdrive.Client.parse_file_meta_object duckdb_gdrive.Base.Text.strip_prefix?
    duckdb_gdrive.Uri.file_name initial duckdb_gdrive.Assoc.assign
opened_target = refl
