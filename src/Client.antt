-- ===== src/Client.antt =====
-- src/gdrive_client.cpp and src/include/gdrive_client.hpp: file metadata, the payload parsers and the
-- responses of the client. The JSON parser is picojson's, a parameter.
pub mod Integers
use duckdb_gdrive.Base.{
  ℕ, ◌+◌, ◌-◌, ◌/◌, ◌%◌, ◌^◌, Bool, true, false, not, ◌&&◌, ◌||◌, Option, none, some, List, [], ◌∷◌,
  ltb, leb, ◌==◌, if◌then◌else◌, ◌>>=◌, ◌>>◌, guard,
}
use duckdb_gdrive.Base.Text.{Bytes, codes, eqb, is_empty, strip_prefix?}
use duckdb_gdrive.Base.Decimal.{value}
use duckdb_gdrive.Base.Int.{ℤ, pos, negsuc}
use duckdb_gdrive.Json.{Json, Items, nil, item, Fields, Parser, find, as_text, as_array, as_object}
use duckdb_gdrive.Errors.{GDriveError, unknown}

pub record DriveFileMeta : Type 0 where
  pub id : Bytes
  pub name : Bytes
  pub mime_type : Bytes
  pub size : ℤ
  pub modified_time : Bytes
  pub head_revision_id : Bytes

pub record DriveResponse : Type 0 where
  pub ok : Bool
  pub http_status : ℕ
  pub body : Bytes
  pub error : GDriveError
  pub location : Bytes

-- Drive's answer to one request, with the headers that the client reads.
pub record RawResult : Type 0 where
  pub transport_ok : Bool
  pub status : ℕ
  pub body : Bytes
  pub retry_after : Bytes
  pub range : Bytes
  pub location : Bytes

abbrev pub no_error : GDriveError
no_error = record {
  kind = unknown;
  http_status = 0;
  reason = [];
  message = [];
  retry_after_seconds = pos 0;
}

abbrev pub folder_mime_type : Bytes
folder_mime_type = codes "application/vnd.google-apps.folder"

unfoldable pub is_folder : DriveFileMeta → Bool
is_folder meta = eqb meta.mime_type folder_mime_type

unfoldable pub is_native_google_format : DriveFileMeta → Bool
is_native_google_format meta =
    elim (strip_prefix? (codes "application/vnd.google-apps.") meta.mime_type) [
      | none ↦ false
      | some _ ↦ not (eqb meta.mime_type folder_mime_type)
    ]

abbrev pub is_digit : ℕ → Bool
is_digit c = leb b'0' c && leb c b'9'

abbrev pub is_alnum : ℕ → Bool
is_alnum c = is_digit c || (leb b'A' c && leb c b'Z' || leb b'a' c && leb c b'z')

abbrev pub hex_digit : ℕ → ℕ
hex_digit n = if ltb n 10 then b'0' + n else b'A' + (n - 10)

abbrev pub is_unreserved : ℕ → Bool
is_unreserved c = is_alnum c || (c == b'-' || (c == b'_' || (c == b'.' || c == b'~')))

unfoldable pub url_encode : Bytes → Bytes
url_encode [] = []
url_encode (c ∷ s) =
    let rest = url_encode s in
    if is_unreserved c then c ∷ rest else b'%' ∷ hex_digit (c / 16 % 16) ∷ hex_digit (c % 16) ∷ rest

-- GetString
abbrev get_string : Bytes → Fields → Option Bytes
get_string key fs = find key fs >>= as_text

abbrev string_or_empty : Option Bytes → Bytes
string_or_empty none = []
string_or_empty (some s) = s

-- strtoll in base ten: white space, a sign, digits; none where no digit stands or the value does not
-- fit in 64 bits.
abbrev pub is_space : ℕ → Bool
is_space c = c == 32 || (leb 9 c && leb c 13)

skip_space : Bytes → Bytes
skip_space [] = []
skip_space (c ∷ s) = if is_space c then skip_space s else c ∷ s

leading_digits : Bytes → Bytes
leading_digits [] = []
leading_digits (c ∷ s) = if is_digit c then c ∷ leading_digits s else []

unsigned_part : Bytes → Option ℕ
unfolding leading_digits
unsigned_part s = let ds = leading_digits s in if is_empty ds then none else some (value ds)

signed_value : Bool → ℕ → Option ℤ
signed_value negative n =
    if negative
    then if ltb (2 ^ 63) n then none else some (if n == 0 then pos 0 else negsuc (n - 1))
    else if ltb n (2 ^ 63)
    then some (pos n)
    else none

after_sign : Bytes → Option ℤ
unfolding unsigned_part signed_value
after_sign [] = none
after_sign (c ∷ s) =
    if c == b'-'
    then unsigned_part s >>= signed_value true
    else if c == b'+'
    then unsigned_part s >>= signed_value false
    else unsigned_part (c ∷ s) >>= signed_value false

unfoldable pub strtoll : Bytes → Option ℤ
unfolding skip_space after_sign
strtoll s = after_sign (skip_space s)

unfoldable pub get_int64_from_string : Bytes → Fields → Option ℤ
unfolding strtoll
get_int64_from_string key fs = do s ← get_string key fs; guard (not (is_empty s)); strtoll s

unfoldable pub parse_file_meta_object : Fields → Option DriveFileMeta
unfolding get_int64_from_string
parse_file_meta_object fs = do
  id ← get_string (codes "id") fs
  some (record {
    id = id;
    name = string_or_empty (get_string (codes "name") fs);
    mime_type = string_or_empty (get_string (codes "mimeType") fs);
    size = elim (get_int64_from_string (codes "size") fs) [ none ↦ negsuc 0 | some n ↦ n ];
    modified_time = string_or_empty (get_string (codes "modifiedTime") fs);
    head_revision_id = string_or_empty (get_string (codes "headRevisionId") fs);
  })

unfoldable pub parse_file_meta : Parser → Bytes → Option DriveFileMeta
parse_file_meta parse json = do top ← parse json >>= as_object; parse_file_meta_object top

first_text : Items → Option Bytes
first_text nil = none
first_text (item v _) = as_text v

unfoldable pub parse_generated_file_id : Parser → Bytes → Option Bytes
unfolding first_text
parse_generated_file_id parse json = do
  top ← parse json >>= as_object
  ids ← find (codes "ids") top >>= as_array
  out ← first_text ids
  guard (not (is_empty out))
  some out

-- The entries that are file resources, in order; any other is passed over.
unfoldable pub file_entries : Items → List DriveFileMeta
file_entries nil = []
file_entries (item v rest) = elim (as_object v >>= parse_file_meta_object) [
  | none ↦ file_entries rest
  | some meta ↦ meta ∷ file_entries rest
]

files_of : Option Json → Option (List DriveFileMeta)
files_of none = some []
files_of (some v) = as_array v >>= λ xs. some (file_entries xs)

-- The listing and the token of the next page, empty where there is none.
unfoldable pub parse_file_list : Parser → Bytes → Option (List DriveFileMeta × Bytes)
unfolding files_of
parse_file_list parse json = do
  top ← parse json >>= as_object
  files ← files_of (find (codes "files") top)
  some (files, string_or_empty (get_string (codes "nextPageToken") top))
