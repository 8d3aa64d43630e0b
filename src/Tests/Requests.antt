-- ===== src/Tests/Requests.antt =====
-- Requests on concrete data (src/gdrive_client.cpp).
use duckdb_gdrive.Base.Decimal.{to_string}
use duckdb_gdrive.Errors.{classify_from_status, classify_drive_error}
use duckdb_gdrive.Base.{
  ℕ, ◌-◌, ◌≤◌, ◌≡◌, ◌↔◌, refl, true, false, none, some, List, [], ◌∷◌, ◌++◌, arith, length, take,
  map, suc, All, Option,
}
use duckdb_gdrive.Base.Text.{eqb, Bytes, codes}
use duckdb_gdrive.Base.Int.{pos, negsuc}
use duckdb_gdrive.Json.{Parser, Json}
use duckdb_gdrive.Client.{
  DriveFileMeta, DriveResponse, RawResult, no_error, url_encode, parse_file_list,
}
use duckdb_gdrive.Encode.{json_escape, build_range_header}
use duckdb_gdrive.Encode.RoundTrip.{json_unescape, json_escape_roundtrip}
use duckdb_gdrive.Send.{HttpRequest, Call, TokenSource, do_http, execute_with_retry, is_repeatable}
use duckdb_gdrive.Send.Attempts.{
  IsUnauthenticated, execute_with_retry_returns, execute_with_retry_once,
}
use duckdb_gdrive.Send.Outcome.{Concludes, execute_with_retry_answered}
use duckdb_gdrive.Requests.{get_metadata_call, move_call, upload_metadata}
use duckdb_gdrive.Methods.{list, upload, listing_json}
use duckdb_gdrive.Methods.Listing.{Pages, listed, list_iff}
use duckdb_gdrive.Methods.Reserved.{upload_once}
use duckdb_gdrive.Methods.Rewritten.{relisted, listing_json_roundtrip}

abbrev no_parser : Parser
no_parser _ = none

abbrev raw : ℕ → RawResult
raw status = record {
  transport_ok = true;
  status = status;
  body = codes "{}";
  retry_after = [];
  range = [];
  location = [];
}

abbrev lost : RawResult
lost = record (raw 0) { transport_ok = false }

abbrev tokens : TokenSource
tokens = record { token = λ time. codes "old"; refresh = λ time rejected. codes "new" }

abbrev reading : Call
reading = get_metadata_call (codes "f")

abbrev moving : Call
moving = move_call (codes "f") (codes "d") (codes "n") (codes "e")

abbrev flaky : List RawResult
flaky = lost ∷ raw 503 ∷ raw 401 ∷ raw 200 ∷ lost ∷ lost ∷ []

abbrev expired : List RawResult
expired = raw 401 ∷ raw 503 ∷ raw 200 ∷ []

abbrev done : DriveResponse
done = record { ok = true; http_status = 200; body = codes "{}"; error = no_error; location = [] }

flaky_sent : length (execute_with_retry no_parser [] tokens reading 0 flaky).1 ≡ 4
unfolding execute_with_retry get_metadata_call classify_drive_error eqb classify_from_status
flaky_sent = refl

flaky-done : (execute_with_retry no_parser [] tokens reading 0 flaky).0 ≡ some done
unfolding execute_with_retry get_metadata_call classify_drive_error eqb classify_from_status
flaky-done = refl

expired_sent :
    (execute_with_retry no_parser [] tokens moving 0 expired).1
    ≡ do_http [] moving (codes "old") ∷ do_http [] moving (codes "new") ∷ []
unfolding execute_with_retry move_call classify_drive_error eqb classify_from_status
expired_sent = refl

execute_with_retry_returns_example :
    (r : DriveResponse) × ((execute_with_retry no_parser [] tokens reading 0 flaky).0 ≡ some r)
    × (length (execute_with_retry no_parser [] tokens reading 0 flaky).1 ≤ 6)
execute_with_retry_returns_example =
    execute_with_retry_returns no_parser [] tokens reading 0 flaky (omega arith)

execute_with_retry_once_example :
    (length (execute_with_retry no_parser [] tokens moving 0 expired).1 ≤ 2)
    × All
        (IsUnauthenticated no_parser)
        (take (length (execute_with_retry no_parser [] tokens moving 0 expired).1 - 1) expired)
unfolding is_repeatable move_call
execute_with_retry_once_example = execute_with_retry_once no_parser [] tokens moving 0 expired refl

execute_with_retry_answered_example :
    (before : List RawResult) × (answer : RawResult) × (flaky
      ≡ before ++ answer ∷ (execute_with_retry no_parser [] tokens reading 0 flaky).2)
    × (length (execute_with_retry no_parser [] tokens reading 0 flaky).1 ≡ suc (length before))
    × Concludes no_parser reading answer done
execute_with_retry_answered_example =
    execute_with_retry_answered no_parser [] tokens reading 0 flaky done flaky-done

abbrev odd_name : Bytes
odd_name = codes "a\"b\\c" ++ 10 ∷ 31 ∷ []

odd_name_escaped : json_escape odd_name ≡ codes "a\\\"b\\\\c\\n\\u001f"
unfolding json_escape
odd_name_escaped = refl

json_escape_roundtrip_example : json_unescape 8 (json_escape odd_name) ≡ some odd_name
json_escape_roundtrip_example = json_escape_roundtrip odd_name 8 (omega arith)

space_encoded : url_encode (codes "a b/&") ≡ codes "a%20b%2F%26"
unfolding url_encode
space_encoded = refl

from_ten : build_range_header (pos 10) (negsuc 0) ≡ codes "bytes=10-"
unfolding build_range_header to_string
from_ten = refl

ten_to_twenty : build_range_header (pos 10) (pos 20) ≡ codes "bytes=10-20"
unfolding build_range_header to_string
ten_to_twenty = refl

reserved_metadata :
    upload_metadata [] (codes "p") (codes "n") (codes "text/plain") (codes "r")
    ≡ codes "{\"name\":\"n\",\"parents\":[\"p\"],\"id\":\"r\"}"
unfolding upload_metadata eqb
reserved_metadata = refl

abbrev two_files : List DriveFileMeta
two_files =
    record {
      id = codes "1";
      name = codes "x";
      mime_type = codes "text/plain";
      size = pos 42;
      modified_time = [];
      head_revision_id = codes "r";
    }
    ∷ record {
      id = codes "2";
      name = codes "y";
      mime_type = codes "text/plain";
      size = negsuc 6;
      modified_time = [];
      head_revision_id = codes "s";
    }
    ∷ []

-- Reads any text as the listing of the two files.
abbrev listing_parser : Parser
listing_parser _ = some (listing_json two_files)

abbrev fixed_text : Json → Bytes
fixed_text _ = codes "{}"

listing_json_roundtrip_example :
    parse_file_list listing_parser (codes "{}") ≡ some (map relisted two_files, [])
listing_json_roundtrip_example =
    listing_json_roundtrip listing_parser (codes "{}") two_files (omega arith, (omega arith, tt))
      refl

abbrev one_page : List RawResult
one_page = raw 503 ∷ raw 200 ∷ []

list_iff_example :
    (((list listing_parser fixed_text [] tokens [] (codes "q") [] 0 one_page).0 ≡ some done)
      × (done.ok ≡ true))
    ↔ ((files : List DriveFileMeta) × Pages listing_parser fixed_text [] tokens []
          (codes "q")
          []
          0
          one_page
          files
        × (done ≡ listed listing_parser fixed_text [] tokens [] (codes "q") files))
list_iff_example = list_iff listing_parser fixed_text [] tokens [] (codes "q") [] 0 one_page done

abbrev uploaded : Option DriveResponse × List HttpRequest × List RawResult
uploaded =
    upload no_parser fixed_text [] tokens (codes "b") (codes "f") [] [] (codes "text/plain")
      (codes "data") [] 0 expired

upload_once_example :
    (length uploaded.1 ≤ 2)
    × All (IsUnauthenticated no_parser) (take (length uploaded.1 - 1) expired)
unfolding eqb
upload_once_example =
    upload_once no_parser fixed_text [] tokens (codes "b") (codes "f") [] [] (codes "text/plain")
      (codes "data") [] 0 expired refl
