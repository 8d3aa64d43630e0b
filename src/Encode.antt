-- ===== src/Encode.antt =====
-- The text of requests in src/gdrive_client.cpp: field masks, the Range header, JSON strings and
-- multipart bodies. The boundary of a multipart body is random, and a parameter.
pub mod RoundTrip
use duckdb_gdrive.Base.{
  ℕ, ◌+◌, ◌-◌, ◌%◌, ◌/◌, Bool, true, false, not, ◌&&◌, ◌||◌, Option, none, some, List, [], ◌∷◌,
  ◌++◌, ltb, ◌==◌, if◌then◌else◌,
}
use duckdb_gdrive.Base.Text.{Bytes, codes, eqb, is_empty}
use duckdb_gdrive.Base.Decimal.{to_string}
use duckdb_gdrive.Base.Int.{ℤ, pos, negsuc}
use duckdb_gdrive.Errors.{unknown}
use duckdb_gdrive.Client.{DriveResponse, no_error, folder_mime_type, url_encode}
use duckdb_gdrive.UploadPlan.{drive_session_path}
use duckdb_gdrive.Send.{HttpMethod, get, post, patch, delete, Headers, Call}

abbrev pub file_fields_mask : Bytes
file_fields_mask = codes "id,name,mimeType,size,modifiedTime,headRevisionId"

abbrev pub list_fields_mask : Bytes
list_fields_mask = codes "nextPageToken,files(" ++ file_fields_mask ++ codes ")"

-- std::to_string on int64_t
unfoldable pub int64_text : ℤ → Bytes
int64_text (pos n) = to_string n
int64_text (negsuc n) = b'-' ∷ to_string (n + 1)

unfoldable pub build_range_header : ℤ → ℤ → Bytes
unfolding int64_text
build_range_header start end =
    codes "bytes="
    ++ int64_text start
    ++ codes "-"
    ++ (elim end [ pos n ↦ to_string n | negsuc n ↦ [] ])

abbrev pub all_drives_params : Bytes
all_drives_params = codes "supportsAllDrives=true&includeItemsFromAllDrives=true"

-- Hexadecimal in lower case, as %x prints it.
abbrev pub lower_hex_digit : ℕ → ℕ
lower_hex_digit n = if ltb n 10 then b'0' + n else b'a' + (n - 10)

unfoldable pub escape_byte : ℕ → Bytes
escape_byte c =
    if c == b'"'
    then codes "\\\""
    else if c == b'\\'
    then codes "\\\\"
    else if c == 10
    then codes "\\n"
    else if c == 13
    then codes "\\r"
    else if c == 9
    then codes "\\t"
    else if ltb c 32
    then codes "\\u00" ++ lower_hex_digit (c / 16) ∷ lower_hex_digit (c % 16) ∷ []
    else c ∷ []

unfoldable pub json_escape : Bytes → Bytes
unfolding escape_byte
json_escape [] = []
json_escape (c ∷ s) = escape_byte c ++ json_escape s

-- "\r\n"
abbrev pub crlf : Bytes
crlf = 13 ∷ 10 ∷ []

abbrev pub or_octet_stream : Bytes → Bytes
or_octet_stream content_type =
    if is_empty content_type then codes "application/octet-stream" else content_type

unfoldable pub build_multipart_body : Bytes → Bytes → Bytes → Bytes → Bytes
build_multipart_body boundary metadata_json content_type payload =
    codes "--"
    ++ boundary
    ++ crlf
    ++ codes "Content-Type: application/json; charset=UTF-8"
    ++ crlf
    ++ crlf
    ++ metadata_json
    ++ crlf
    ++ codes "--"
    ++ boundary
    ++ crlf
    ++ codes "Content-Type: "
    ++ or_octet_stream content_type
    ++ crlf
    ++ crlf
    ++ payload
    ++ crlf
    ++ codes "--"
    ++ boundary
    ++ codes "--"
    ++ crlf
