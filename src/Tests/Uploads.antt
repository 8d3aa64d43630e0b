-- ===== src/Tests/Uploads.antt =====
-- Chunked uploads on concrete data (src/gdrive_upload_plan.cpp, UploadChunk).
use duckdb_gdrive.Base.Decimal.{to_string}
use duckdb_gdrive.Base.{
  ℕ, zero, suc, ◌+◌, ◌%◌, ◌≤◌, ◌<◌, ◌≡◌, ◌↔◌, ◌⊎◌, refl, true, false, none, some, List, [], ◌∷◌,
  ◌++◌, arith, length, take,
}
use duckdb_gdrive.Base.Text.{strip_prefix?, Bytes, codes}
use duckdb_gdrive.Json.{Parser}
use duckdb_gdrive.Client.{DriveResponse, RawResult, no_error}
use duckdb_gdrive.UploadPlan.{
  ChunkedUploadBuffer, fill, parse_drive_range_next, resume_skip, drive_upload_chunk_multiple,
  drive_session_path, content_range,
}
use duckdb_gdrive.UploadPlan.RangeHeader.{Acknowledges, parse_drive_range_next_iff}
use duckdb_gdrive.UploadStep.{
  on_acknowledged, on_error, UploadReply, done, send, next_upload_step, initial_state,
}
use duckdb_gdrive.UploadStep.Verdicts.{done_iff, send_resumes}
use duckdb_gdrive.UploadChunk.{reply_of, upload_chunk, may_be_applied}
use duckdb_gdrive.UploadChunk.Outcome.{
  NeverForgets, any_lost, upload_chunk_returns, upload_chunk_ok, upload_chunk_ambiguous,
}

abbrev no_parser : Parser
no_parser _ = none

abbrev session : Bytes
session = codes "https://www.googleapis.com/u"

abbrev small_tail : ChunkedUploadBuffer
small_tail = record {
  chunk = 262144;
  pending = codes "ab";
  offset = 262144;
  peak = 2;
  sent_any = true;
}

abbrev empty_tail : ChunkedUploadBuffer
empty_tail = record { chunk = 262144; pending = []; offset = 0; peak = 0; sent_any = false }

abbrev dropped : RawResult
dropped = record {
  transport_ok = false;
  status = 0;
  body = [];
  retry_after = [];
  range = [];
  location = [];
}

abbrev holding : RawResult
holding = record {
  transport_ok = true;
  status = 308;
  body = [];
  retry_after = [];
  range = codes "bytes=0-262144";
  location = [];
}

abbrev created : RawResult
created = record {
  transport_ok = true;
  status = 201;
  body = codes "{}";
  retry_after = [];
  range = [];
  location = [];
}

abbrev resumed : List RawResult
resumed = dropped ∷ holding ∷ created ∷ []

abbrev repeat : ℕ → RawResult → List RawResult
repeat zero raw = []
repeat (suc n) raw = raw ∷ repeat n raw

session_accepted : drive_session_path session ≡ some (codes "/u")
unfolding drive_session_path strip_prefix?
session_accepted = refl

abbrev created_response : DriveResponse
created_response = record {
  ok = true;
  http_status = 201;
  body = codes "{}";
  error = no_error;
  location = [];
}

-- A lost answer, a status request that finds one byte at Drive, and the rest.
resumed_result : (upload_chunk no_parser session small_tail true resumed).0 ≡ some created_response
unfolding upload_chunk drive_session_path strip_prefix? next_upload_step reply_of on_error
    parse_drive_range_next resume_skip on_acknowledged
resumed_result = refl

upload_chunk_ok_example :
    (before : List RawResult) × (answer : RawResult) × (unread : List RawResult) × (resumed
      ≡ before ++ answer ∷ unread)
    × (length (upload_chunk no_parser session small_tail true resumed).1 ≡ suc (length before))
    × (answer.transport_ok ≡ true)
    × (((true ≡ true)
          × ((answer.status ≡ 200) ⊎ (answer.status ≡ 201))
          × (created_response.body ≡ answer.body))
        ⊎ ((true ≡ false)
            × (answer.status ≡ 308)
            × (parse_drive_range_next answer.range
                ≡ some (small_tail.offset + length small_tail.pending))))
upload_chunk_ok_example =
    upload_chunk_ok no_parser session (codes "/u") small_tail true resumed session_accepted
      created_response (omega arith) resumed_result refl

abbrev lost_response : DriveResponse
lost_response = record {
  ok = false;
  http_status = 0;
  body = [];
  error = may_be_applied;
  location = [];
}

lost_result :
    (upload_chunk no_parser session small_tail true (repeat 6 dropped)).0 ≡ some lost_response
unfolding upload_chunk drive_session_path strip_prefix? next_upload_step reply_of on_error
lost_result = refl

lost_all :
    any_lost no_parser (
      take
        (length (upload_chunk no_parser session small_tail true (repeat 6 dropped)).1)
        (repeat 6 dropped))
    ≡ true
unfolding upload_chunk drive_session_path strip_prefix? next_upload_step reply_of on_error
lost_all = refl

upload_chunk_ambiguous_example : lost_response.error ≡ may_be_applied
upload_chunk_ambiguous_example =
    upload_chunk_ambiguous no_parser session (codes "/u") small_tail true (repeat 6 dropped)
      session_accepted lost_response refl lost_result refl lost_all

dropped-NeverForgets : (n : ℕ) → NeverForgets no_parser 0 (repeat n dropped)
unfolding reply_of
dropped-NeverForgets zero = tt
dropped-NeverForgets (suc n) = (omega arith, dropped-NeverForgets n)

upload_chunk_returns_example :
    (r : DriveResponse) × ((upload_chunk no_parser session empty_tail true (repeat 11 dropped)).0
      ≡ some r)
upload_chunk_returns_example =
    upload_chunk_returns no_parser session (codes "/u") empty_tail true (repeat 11 dropped)
      session_accepted (omega arith) (dropped-NeverForgets 11) (omega arith)

abbrev one_held : UploadReply
one_held = record {
  transport_ok = true;
  status = 308;
  range = codes "bytes=0-262144";
  retryable = false;
}

abbrev all_held : UploadReply
all_held = record {
  transport_ok = true;
  status = 308;
  range = codes "bytes=0-262145";
  retryable = false;
}

one_held_range : parse_drive_range_next (codes "bytes=0-262144") ≡ some 262145
unfolding parse_drive_range_next strip_prefix?
one_held_range = refl

one_held_goes_on : (next_upload_step small_tail true initial_state one_held).0.kind ≡ send
unfolding next_upload_step parse_drive_range_next strip_prefix? resume_skip on_acknowledged
one_held_goes_on = refl

done_iff_example : ((next_upload_step small_tail true initial_state one_held).0.kind ≡ done) ↔ (
    (true ≡ true)
    × (one_held.transport_ok ≡ true)
    × ((one_held.status ≡ 200) ⊎ (one_held.status ≡ 201)))
done_iff_example = done_iff small_tail true initial_state one_held

send_resumes_example :
    let skip = (next_upload_step small_tail true initial_state one_held).1.skip in
    (parse_drive_range_next one_held.range ≡ some (262144 + skip))
    × (skip ≤ length small_tail.pending)
    × ((true ≡ true)
        ⊎ ((skip < length small_tail.pending)
            × ((262144 + skip) % drive_upload_chunk_multiple ≡ 0)))
send_resumes_example =
    send_resumes small_tail true initial_state one_held (omega arith) one_held_goes_on

parse_drive_range_next_iff_example :
    (parse_drive_range_next (codes "bytes=0-262144") ≡ some 262145)
    ↔ Acknowledges (codes "bytes=0-262144") 262145
parse_drive_range_next_iff_example = parse_drive_range_next_iff b'b' (codes "ytes=0-262144") 262145

abbrev one_byte_left : ChunkedUploadBuffer
one_byte_left = record { chunk = 3; pending = codes "ab"; offset = 0; peak = 2; sent_any = false }

fill_takes_one :
    fill one_byte_left (codes "cd") ≡ (1, record one_byte_left { pending = codes "abc"; peak = 3 })
unfolding fill
fill_takes_one = refl

final_content_range : content_range small_tail true 1 ≡ codes "bytes 262145-262145/262146"
unfolding content_range to_string
final_content_range = refl

-- A range that does not start at byte 0 is refused.
later_range : parse_drive_range_next (codes "bytes=1-9") ≡ none
unfolding parse_drive_range_next strip_prefix?
later_range = refl
