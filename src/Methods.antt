-- ===== src/Methods.antt =====
-- The methods of GDriveClientImpl in src/gdrive_client.cpp that look at the answer of a call, or make
-- several calls: Upload, StartResumableUpload and List. picojson's serializer is a parameter.
pub mod Listing
pub mod Sessions
pub mod Reserved
pub mod Rewritten
use duckdb_gdrive.Base.{
  ℕ, zero, suc, ◌+◌, Bool, true, false, not, ◌&&◌, Option, none, some, List, [], ◌∷◌, ◌++◌, ◌==◌,
  if◌then◌else◌, ◌>>=◌, length, map,
}
use duckdb_gdrive.Base.Text.{Bytes, codes, eqb, is_empty}
use duckdb_gdrive.Base.Int.{ℤ, pos, negsuc}
use duckdb_gdrive.Base.Decimal.{to_string}
use duckdb_gdrive.Json.{Json, Items, nil, item, Fields, end, field, text, array, object, Parser}
use duckdb_gdrive.Errors.{unknown}
use duckdb_gdrive.Client.{
  DriveFileMeta, DriveResponse, RawResult, no_error, folder_mime_type, parse_file_list,
}
use duckdb_gdrive.UploadPlan.{drive_session_path}
use duckdb_gdrive.Send.{HttpRequest, Call, TokenSource, execute_with_retry}
use duckdb_gdrive.Requests.{get_metadata_call, list_call, upload_call, start_resumable_call}

-- What a method gives: the response, none while Drive still owes an answer, the requests made and the
-- answers not read.
abbrev pub Outcome : Type 0
Outcome = Option DriveResponse × List HttpRequest × List RawResult

-- Another call follows the first.
abbrev pub and_then : List HttpRequest → Outcome → Outcome
and_then sent (response, sent', unread) = (response, sent ++ sent', unread)

abbrev no_session_text : Bytes
no_session_text =
    codes "Drive returned no usable resumable-session URI (expected an https Location on "
    ++ codes "www.googleapis.com)"

unfoldable pub check_session : DriveResponse → DriveResponse
check_session r = elim (drive_session_path r.location) [
  | some _ ↦ r
  | none ↦
      if r.ok
      then record r {
        ok = false;
        error = record r.error { kind = unknown; message = no_session_text };
      }
      else r
]

abbrev pub malformed : DriveResponse → DriveResponse
malformed last = record {
  ok = false;
  http_status = last.http_status;
  body = [];
  error = record no_error { message = codes "malformed files.list response body" };
  location = [];
}

-- A size below zero is left out.
abbrev pub size_field : ℤ → Fields
size_field (pos n) = field (codes "size") (text (to_string n)) end
size_field (negsuc n) = end

-- The entry of a file in a listing that is written again; an object holds its keys in order.
unfoldable pub file_entry : DriveFileMeta → Json
file_entry f = object (
    field (codes "headRevisionId") (text f.head_revision_id) (
      field (codes "id") (text f.id) (
        field (codes "mimeType") (text f.mime_type) (
          field (codes "modifiedTime") (text f.modified_time)
            (field (codes "name") (text f.name) (size_field f.size))))))

unfoldable pub file_items : List DriveFileMeta → Items
unfolding file_entry
file_items [] = nil
file_items (f ∷ files) = item (file_entry f) (file_items files)

unfoldable pub listing_json : List DriveFileMeta → Json
unfolding file_items
listing_json files = object (field (codes "files") (array (file_items files)) end)

-- 409 for a file that was to be created under a reserved id: it is there already.
abbrev pub is_conflict : Bytes → Bytes → Bytes → DriveResponse → Bool
is_conflict content_type file_id reserved_id r =
    not (eqb content_type folder_mime_type)
    && (is_empty file_id && (not (is_empty reserved_id) && (not r.ok && r.http_status == 409)))

module _ (parse : Parser) (serialize : Json → Bytes) (quota : Bytes) (tokens : TokenSource) where
  abbrev pub execute : Call → ℕ → List RawResult → Outcome
  execute call time answers = execute_with_retry parse quota tokens call time answers

  unfoldable pub start_resumable_upload :
      Bytes → Bytes → Bytes → Bytes → ℕ → List RawResult → Outcome
  unfolding start_resumable_call execute_with_retry check_session
  start_resumable_upload file_id parent_id name content_type time answers =
      let (response, sent, unread) =
        execute (start_resumable_call file_id parent_id name content_type) time answers in
      (response >>= λ r. some (check_session r), sent, unread)

  -- A create under a reserved id that meets a file of that id has been carried out before.
  unfoldable pub upload :
      Bytes → Bytes → Bytes → Bytes → Bytes → Bytes → Bytes → ℕ → List RawResult → Outcome
  unfolding upload_call get_metadata_call execute_with_retry
  upload boundary file_id parent_id name content_type payload reserved_id time answers =
      let (response, sent, unread) =
        execute (upload_call boundary file_id parent_id name content_type payload reserved_id) time
          answers in
      elim response [
        | none ↦ (none, sent, unread)
        | some r ↦
            if is_conflict content_type file_id reserved_id r
            then and_then sent (execute (get_metadata_call reserved_id) (time + length sent) unread)
            else (some r, sent, unread)
      ]

  module _ (drive_id query : Bytes) where
    -- A page that came: the listing ends with it, or goes on with the token of the next.
    unfoldable pub after_page :
        List DriveFileMeta
        → DriveResponse
        → (List DriveFileMeta → Bytes → Option DriveResponse × List HttpRequest × List RawResult)
        → List HttpRequest
        → List RawResult
        → Outcome
    unfolding parse_file_list listing_json
    after_page all_files last next sent unread =
        if not last.ok then (some last, sent, unread) else elim (parse_file_list parse last.body) [
          | none ↦ (some (malformed last), sent, unread)
          | some (files, token) ↦
              if is_empty token
              then (
                some (record {
                  ok = true;
                  http_status = 200;
                  body = serialize (listing_json (all_files ++ files));
                  error = no_error;
                  location = [];
                }),
                sent,
                unread,
              )
              else and_then sent (next (all_files ++ files) token)
        ]

    -- The loop of List, on fuel: each round reads an answer at least.
    unfoldable pub list_loop : ℕ → List DriveFileMeta → Bytes → ℕ → List RawResult → Outcome
    unfolding after_page list_call execute_with_retry
    list_loop zero all_files token time answers = (none, [], answers)
    list_loop (suc fuel) all_files token time answers =
        let (response, sent, unread) = execute (list_call drive_id query token) time answers in
        elim response [
          | none ↦ (none, sent, unread)
          | some last ↦
              after_page all_files last
                (λ files next. list_loop fuel files next (time + length sent) unread) sent unread
        ]

    unfoldable pub list : Bytes → ℕ → List RawResult → Outcome
    unfolding list_loop
    list page_token time answers = list_loop (length answers + 1) [] page_token time answers
