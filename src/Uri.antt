-- ===== src/Uri.antt =====
-- src/gdrive_uri.cpp and src/include/gdrive_uri.hpp: gdrive:// URIs and path prefixes.
pub mod Segments
pub mod RoundTrip
pub mod Probe
pub mod Entries
pub mod Cleaning
pub mod Prefixes
use duckdb_gdrive.Base.{
  ℕ, ◌+◌, Bool, true, false, not, ◌&&◌, ◌||◌, Option, none, some, List, [], ◌∷◌, ◌++◌, ltb, ◌==◌,
  if◌then◌else◌, length,
}
use duckdb_gdrive.Base.Text.{
  Bytes, codes, eqb, is_empty, strip_prefix?, split_at?, drop_while, drop_while_back,
}

pub data GDriveUriKind : Type 0 where
  path file_id : GDriveUriKind

pub record GDriveUri : Type 0 where
  pub kind : GDriveUriKind
  pub file_id : Bytes
  pub segments : List Bytes

-- The reasons for which a text is no URI; the messages of the source name these, and the text.
pub data UriError : Type 0 where
  not_a_gdrive_uri id_with_segments empty_file_id dot_segment dot_dot_segment : UriError

pub data GDriveUriParse : Type 0 where
  ok : GDriveUri → GDriveUriParse
  error : UriError → GDriveUriParse

abbrev pub gdrive_scheme : Bytes
gdrive_scheme = codes "gdrive://"

-- The two inner loops of SplitSegments: over a run of slashes, and over a segment.
mutual
  skip_slashes : Bytes → List Bytes
  skip_slashes [] = []
  skip_slashes (c ∷ s) = elim (c == b'/') [
    | true ↦ skip_slashes s
    | false ↦ read_segment (c ∷ []) s
  ]

  read_segment : Bytes → Bytes → List Bytes
  read_segment start [] = start ∷ []
  read_segment start (c ∷ s) = elim (c == b'/') [
    | true ↦ start ∷ skip_slashes s
    | false ↦ read_segment (start ++ c ∷ []) s
  ]

unfoldable pub split_segments : Bytes → List Bytes
unfolding skip_slashes read_segment
split_segments rest = skip_slashes rest

unfoldable pub is_gdrive_uri : Bytes → Bool
is_gdrive_uri uri = elim (strip_prefix? gdrive_scheme uri) [ none ↦ false | some _ ↦ true ]

unfoldable pub join : List Bytes → Bytes
join [] = []
join (x ∷ []) = x
join (x ∷ y ∷ xs) = x ++ b'/' ∷ join (y ∷ xs)

uri_text : GDriveUriKind → Bytes → List Bytes → Bytes
uri_text file_id id segments = gdrive_scheme ++ (codes "id:" ++ id)
uri_text path id segments = gdrive_scheme ++ join segments

unfoldable pub to_string : GDriveUri → Bytes
unfolding join uri_text
to_string uri = uri_text uri.kind uri.file_id uri.segments

-- All but the last.
unfoldable pub initial : List Bytes → List Bytes
initial [] = []
initial (x ∷ []) = []
initial (x ∷ y ∷ xs) = x ∷ initial (y ∷ xs)

unfoldable pub last : List Bytes → Bytes
last [] = []
last (x ∷ []) = x
last (x ∷ y ∷ xs) = last (y ∷ xs)

unfoldable pub parent_path : GDriveUri → Bytes
unfolding join initial
parent_path uri = elim uri.kind [
  | path ↦ gdrive_scheme ++ join (initial uri.segments)
  | file_id ↦ gdrive_scheme
]

unfoldable pub file_name : GDriveUri → Bytes
unfolding last
file_name uri = elim uri.kind [ path ↦ last uri.segments | file_id ↦ [] ]

-- The first segment that is refused.
bad_segment : List Bytes → Option UriError
bad_segment [] = none
bad_segment (seg ∷ segs) =
    let rest = bad_segment segs in
    if eqb seg (codes ".")
    then some dot_segment
    else if eqb seg (codes "..")
    then some dot_dot_segment
    else rest

parse_path : Bytes → GDriveUriParse
unfolding split_segments bad_segment
parse_path rest =
    let segments = split_segments rest in
    elim (bad_segment segments) [
      | some e ↦ error e
      | none ↦ ok (record { kind = path; file_id = []; segments = segments })
    ]

parse_file_id : Bytes → GDriveUriParse
parse_file_id id = elim (split_at? b'/' id) [
  | some _ ↦ error id_with_segments
  | none ↦
      if is_empty id
      then error empty_file_id
      else ok (record { kind = file_id; file_id = id; segments = [] })
]

parse_rest : Bytes → GDriveUriParse
unfolding parse_file_id parse_path
parse_rest rest = elim (strip_prefix? (codes "id:") rest) [
  | some id ↦ parse_file_id id
  | none ↦ parse_path rest
]

unfoldable pub parse_gdrive_uri : Bytes → GDriveUriParse
unfolding parse_rest
parse_gdrive_uri uri = elim (strip_prefix? gdrive_scheme uri) [
  | none ↦ error not_a_gdrive_uri
  | some rest ↦ parse_rest rest
]

-- "*.<ext>"
is_extension_glob : Bytes → Bool
is_extension_glob s = elim (strip_prefix? (codes "*.") s) [
  | none ↦ false
  | some ext ↦ not (is_empty ext)
]

-- Exactly one segment, and that "*.<ext>".
is_last_glob : Bytes → Bool
unfolding is_extension_glob
is_last_glob s = elim (split_at? b'/' s) [ none ↦ is_extension_glob s | some _ ↦ false ]

-- "**/*.<ext>"
is_probe_tail : Bytes → Bool
unfolding is_last_glob
is_probe_tail remainder = elim (split_at? b'/' remainder) [
  | none ↦ false
  | some (first_seg, second_seg) ↦ eqb first_seg (codes "**") && is_last_glob second_seg
]

is_probe_rest : Bytes → Bool
unfolding is_probe_tail
is_probe_rest id_and_more = elim (split_at? b'/' id_and_more) [
  | none ↦ false
  | some (id, remainder) ↦ not (is_empty id) && is_probe_tail remainder
]

unfoldable pub is_file_id_fallback_glob_probe : Bytes → Bool
unfolding is_probe_rest
is_file_id_fallback_glob_probe uri = elim (strip_prefix? gdrive_scheme uri) [
  | none ↦ false
  | some rest ↦ elim (strip_prefix? (codes "id:") rest) [
    | none ↦ false
    | some more ↦ is_probe_rest more
  ]
]

abbrev is_ascii_space : ℕ → Bool
is_ascii_space c = c == 32 || (c == 9 || (c == 13 || c == 10))

unfoldable pub trim_ascii : Bytes → Bytes
unfolding drop_while drop_while_back
trim_ascii s = drop_while_back is_ascii_space (drop_while is_ascii_space s)

-- Slashes go from the end, but the first character stays.
drop_trailing_slashes : Bytes → Bytes
drop_trailing_slashes [] = []
drop_trailing_slashes (c ∷ s) = c ∷ drop_while_back (λ d. d == b'/') s

-- What follows the prefix begins with a slash.
at_boundary : Option Bytes → Bool
at_boundary none = false
at_boundary (some []) = false
at_boundary (some (c ∷ _)) = c == b'/'

unfoldable pub matches_prefix : Bytes → Bytes → Bool
unfolding at_boundary
matches_prefix location prefix =
    not (is_empty prefix) && (eqb location prefix || at_boundary (strip_prefix? prefix location))

-- The entries of a comma-separated text, at least one.
unfoldable pub split_commas : Bytes → List Bytes
split_commas [] = [] ∷ []
split_commas (c ∷ s) =
    let rest = split_commas s in
    if c == b','
    then [] ∷ rest
    else elim rest [ [] ↦ (c ∷ []) ∷ [] | entry ∷ more ↦ (c ∷ entry) ∷ more ]

unfoldable pub clean_entry : Bytes → Bytes
unfolding trim_ascii drop_trailing_slashes
clean_entry entry = drop_trailing_slashes (trim_ascii entry)

unfoldable pub any_prefix : Bytes → List Bytes → Bool
unfolding matches_prefix clean_entry
any_prefix location [] = false
any_prefix location (entry ∷ entries) =
    matches_prefix location (clean_entry entry) || any_prefix location entries

unfoldable pub path_matches_any_prefix : Bytes → Bytes → Bool
unfolding any_prefix split_commas
path_matches_any_prefix location csv_prefixes =
    not (is_empty csv_prefixes)
    && (not (is_empty location) && any_prefix location (split_commas csv_prefixes))
