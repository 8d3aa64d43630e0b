-- ===== src/Requests.antt =====
-- What the methods of GDriveClientImpl in src/gdrive_client.cpp send: one call of ExecuteWithRetry each.
use duckdb_gdrive.Base.{ℕ, Bool, true, false, not, ◌&&◌, List, [], ◌∷◌, ◌++◌, if◌then◌else◌}
use duckdb_gdrive.Base.Text.{Bytes, codes, eqb, is_empty}
use duckdb_gdrive.Base.Int.{ℤ}
use duckdb_gdrive.Client.{folder_mime_type, url_encode}
use duckdb_gdrive.Encode.{
  file_fields_mask, list_fields_mask, build_range_header, all_drives_params, json_escape,
  or_octet_stream, build_multipart_body,
}
use duckdb_gdrive.Send.{HttpMethod, get, post, patch, delete, Headers, Call}

abbrev pub get_call : Bytes → Headers → List ℕ → Call
get_call path_and_query headers success_statuses = record {
  method = get;
  path_and_query = path_and_query;
  extra_headers = headers;
  body = [];
  content_type = [];
  success_statuses = success_statuses;
  retry_non_idempotent = false;
}

-- A POST or PATCH, which succeeds with 200.
abbrev pub write_call : HttpMethod → Bytes → Headers → Bytes → Bytes → Bool → Call
write_call method path_and_query headers body content_type retry_non_idempotent = record {
  method = method;
  path_and_query = path_and_query;
  extra_headers = headers;
  body = body;
  content_type = content_type;
  success_statuses = 200 ∷ [];
  retry_non_idempotent = retry_non_idempotent;
}

abbrev fields_param : Bytes
fields_param = codes "fields=" ++ url_encode file_fields_mask

abbrev file_path : Bytes → Bytes
file_path file_id = codes "/drive/v3/files/" ++ url_encode file_id

unfoldable pub get_metadata_call : Bytes → Call
unfolding url_encode
get_metadata_call file_id =
    get_call (file_path file_id ++ codes "?" ++ fields_param ++ codes "&" ++ all_drives_params) []
      (200 ∷ [])

unfoldable pub list_call : Bytes → Bytes → Bytes → Call
unfolding url_encode
list_call drive_id query token =
    get_call
      (codes "/drive/v3/files?q="
        ++ url_encode query
        ++ codes "&pageSize=1000&fields="
        ++ url_encode list_fields_mask
        ++ codes "&"
        ++ all_drives_params
        ++ (if is_empty drive_id
            then []
            else codes "&corpora=drive&driveId=" ++ url_encode drive_id)
        ++ (if is_empty token then [] else codes "&pageToken=" ++ url_encode token))
      [] (200 ∷ [])

unfoldable pub download_call : Bytes → ℤ → ℤ → Call
unfolding url_encode build_range_header
download_call file_id start last =
    get_call (file_path file_id ++ codes "?alt=media&" ++ all_drives_params)
      ((codes "Range", build_range_header start last) ∷ []) (200 ∷ 206 ∷ [])

unfoldable pub export_call : Bytes → Bytes → Call
unfolding url_encode
export_call file_id mime_type =
    get_call
      (file_path file_id
        ++ codes "/export?mimeType="
        ++ url_encode mime_type
        ++ codes "&"
        ++ all_drives_params)
      [] (200 ∷ [])

abbrev pub generate_file_id_call : Call
generate_file_id_call =
    get_call (codes "/drive/v3/files/generateIds?count=1&space=drive&" ++ all_drives_params) []
      (200 ∷ [])

-- "key":"value"
unfoldable pub text_member : Bytes → Bytes → Bytes
unfolding json_escape
text_member key value = codes "\"" ++ key ++ codes "\":\"" ++ json_escape value ++ codes "\""

abbrev member_if : Bool → Bytes → List Bytes
member_if true member = member ∷ []
member_if false member = []

comma_separated : List Bytes → Bytes
comma_separated [] = []
comma_separated (x ∷ []) = x
comma_separated (x ∷ y ∷ rest) = x ++ codes "," ++ comma_separated (y ∷ rest)

-- The members that have a value, in order, with a comma before each but the first.
unfoldable pub metadata_json : List Bytes → Bytes
unfolding comma_separated
metadata_json members = codes "{" ++ comma_separated members ++ codes "}"

abbrev name_member : Bytes → List Bytes
name_member name = member_if (not (is_empty name)) (text_member (codes "name") name)

-- Only a create has parents.
abbrev parents_member : Bytes → Bytes → List Bytes
parents_member file_id parent_id =
    member_if (not (is_empty parent_id) && is_empty file_id)
      (codes "\"parents\":[\"" ++ json_escape parent_id ++ codes "\"]")

unfoldable pub upload_metadata : Bytes → Bytes → Bytes → Bytes → Bytes → Bytes
unfolding metadata_json text_member json_escape
upload_metadata file_id parent_id name content_type reserved_id = metadata_json (
    name_member name
    ++ parents_member file_id parent_id
    ++ member_if (eqb content_type folder_mime_type) (text_member (codes "mimeType") content_type)
    ++ member_if (not (is_empty reserved_id) && is_empty file_id)
        (text_member (codes "id") reserved_id))

-- The call of Upload, which has three shapes: a folder, a new file, and new content of a file.
unfoldable pub upload_call : Bytes → Bytes → Bytes → Bytes → Bytes → Bytes → Bytes → Call
unfolding upload_metadata build_multipart_body url_encode
upload_call boundary file_id parent_id name content_type payload reserved_id =
    let metadata = upload_metadata file_id parent_id name content_type reserved_id in
    let params = fields_param ++ codes "&" ++ all_drives_params in
    let body = build_multipart_body boundary metadata content_type payload in
    let multipart = codes "multipart/related; boundary=" ++ boundary in
    if eqb content_type folder_mime_type
    then write_call post (codes "/drive/v3/files?" ++ params) [] metadata
        (codes "application/json; charset=UTF-8") false
    else if is_empty file_id
    then write_call post (codes "/upload/drive/v3/files?uploadType=multipart&" ++ params) [] body
        multipart (not (is_empty reserved_id))
    else write_call patch
        (codes "/upload" ++ file_path file_id ++ codes "?uploadType=multipart&" ++ params) [] body
        multipart false

unfoldable pub start_resumable_call : Bytes → Bytes → Bytes → Bytes → Call
unfolding metadata_json text_member json_escape url_encode
start_resumable_call file_id parent_id name content_type =
    write_call (if is_empty file_id then post else patch)
      (codes "/upload/drive/v3/files"
        ++ (if is_empty file_id then [] else codes "/" ++ url_encode file_id)
        ++ codes "?uploadType=resumable&"
        ++ fields_param
        ++ codes "&"
        ++ all_drives_params)
      ((codes "X-Upload-Content-Type", or_octet_stream content_type) ∷ [])
      (metadata_json (name_member name ++ parents_member file_id parent_id))
      (codes "application/json; charset=UTF-8") true

unfoldable pub delete_call : Bytes → Bool → Call
unfolding url_encode
delete_call file_id true =
    record (get_call (file_path file_id ++ codes "?" ++ all_drives_params) [] (204 ∷ [])) {
      method = delete;
    }
delete_call file_id false =
    write_call patch
      (file_path file_id ++ codes "?" ++ all_drives_params ++ codes "&" ++ fields_param) []
      (codes "{\"trashed\":true}") (codes "application/json") false

unfoldable pub move_call : Bytes → Bytes → Bytes → Bytes → Call
unfolding url_encode text_member metadata_json
move_call file_id new_parent_id new_name old_parent_id =
    write_call patch
      (file_path file_id
        ++ codes "?"
        ++ fields_param
        ++ codes "&"
        ++ all_drives_params
        ++ (if is_empty new_parent_id then [] else codes "&addParents=" ++ url_encode new_parent_id)
        ++ (if is_empty old_parent_id
            then []
            else codes "&removeParents=" ++ url_encode old_parent_id))
      [] (metadata_json (name_member new_name)) (codes "application/json") false
