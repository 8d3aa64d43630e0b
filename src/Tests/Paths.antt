-- ===== src/Tests/Paths.antt =====
-- URIs on concrete data (src/gdrive_uri.cpp).
use duckdb_gdrive.Base.{◌≡◌, ◌≢◌, ◌↔◌, refl, true, false, List, [], ◌∷◌, All, Any}
use duckdb_gdrive.Base.Text.{Bytes, Lacks, strip_prefix?, split_at?, eqb, codes}
use duckdb_gdrive.Uri.{
  GDriveUri, path, file_id, ok, error, dot_dot_segment, parse_gdrive_uri, to_string,
  path_matches_any_prefix, is_file_id_fallback_glob_probe, initial, join,
}
use duckdb_gdrive.Uri.RoundTrip.{LeadsWithId, reparse_iff}
use duckdb_gdrive.Uri.Entries.{joined}
use duckdb_gdrive.Uri.Cleaning.{IsCleaned}
use duckdb_gdrive.Uri.Prefixes.{LiesUnder, path_matches_any_prefix_iff}

abbrev two_levels : GDriveUri
two_levels = record { kind = path; file_id = []; segments = codes "a" ∷ codes "b" ∷ [] }

two_levels_parse : parse_gdrive_uri (codes "gdrive://a//b/") ≡ ok two_levels
unfolding parse_gdrive_uri strip_prefix? eqb
two_levels_parse = refl

reparse_iff_example :
    (parse_gdrive_uri (to_string two_levels) ≡ ok two_levels) ↔ (¬ LeadsWithId two_levels.segments)
reparse_iff_example = reparse_iff (codes "gdrive://a//b/") two_levels two_levels_parse

-- A path that is written like a file id parses as a path, and its text as a file id.
abbrev id_path : GDriveUri
id_path = record { kind = path; file_id = []; segments = codes "id:x" ∷ [] }

id_path_parse : parse_gdrive_uri (codes "gdrive:///id:x") ≡ ok id_path
unfolding parse_gdrive_uri strip_prefix? eqb
id_path_parse = refl

id_path_reparse :
    parse_gdrive_uri (to_string id_path)
    ≡ ok (record { kind = file_id; file_id = codes "x"; segments = [] })
unfolding parse_gdrive_uri to_string strip_prefix? split_at?
id_path_reparse = refl

dot_dot : parse_gdrive_uri (codes "gdrive://a/../b") ≡ error dot_dot_segment
unfolding parse_gdrive_uri strip_prefix? eqb
dot_dot = refl

starts_with_a : ¬ LeadsWithId (initial (codes "a" ∷ codes "b" ∷ []))
unfolding initial join
starts_with_a (id, e) = cc

probe_seen : is_file_id_fallback_glob_probe (codes "gdrive://id:X/**/*.csv") ≡ true
unfolding is_file_id_fallback_glob_probe strip_prefix? split_at? eqb
probe_seen = refl

path_matches_any_prefix_iff_example :
    (path_matches_any_prefix (codes "gdrive://data/x") (codes "gdrive://tmp, gdrive://data/")
      ≡ true)
    ↔ ((codes "gdrive://tmp, gdrive://data/" ≢ [])
        × (codes "gdrive://data/x" ≢ [])
        × ((entries : List Bytes) × (joined entries ≡ codes "gdrive://tmp, gdrive://data/")
            × All (Lacks b',') entries
            × Any
                (λ entry.
                  (prefix : Bytes) × IsCleaned entry prefix
                  × LiesUnder (codes "gdrive://data/x") prefix)
                entries))
path_matches_any_prefix_iff_example =
    path_matches_any_prefix_iff (codes "gdrive://data/x") (codes "gdrive://tmp, gdrive://data/")

prefix_seen :
    path_matches_any_prefix (codes "gdrive://data/x") (codes "gdrive://tmp, gdrive://data/") ≡ true
unfolding path_matches_any_prefix eqb strip_prefix?
prefix_seen = refl

-- A neighbour whose name begins alike is not under the prefix.
neighbour : path_matches_any_prefix (codes "gdrive://database") (codes "gdrive://data") ≡ false
unfolding path_matches_any_prefix eqb strip_prefix?
neighbour = refl
