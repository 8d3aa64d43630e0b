-- ===== src/Tests/Handles.antt =====
-- Write handles on concrete data (src/gdrive_upload.cpp, src/gdrive_file_handle.cpp).
use duckdb_gdrive.Base.{
  ℕ, zero, suc, ◌+◌, ◌≤◌, ◌≡◌, refl, inr, true, false, Option, none, some, List, [], ◌∷◌, ◌++◌,
  arith, length, ◌∙◌, subst,
}
use duckdb_gdrive.Base.Text.{Bytes, codes, is_empty}
use duckdb_gdrive.Base.Int.{negsuc}
use duckdb_gdrive.Json.{Parser}
use duckdb_gdrive.Client.{
  parse_generated_file_id, parse_file_meta, DriveFileMeta, DriveResponse, no_error,
}
use duckdb_gdrive.UploadPlan.{on_close, fill, ChunkedUploadBuffer, full, new_buffer}
use duckdb_gdrive.WriteHandle.{
  upload, generate_file_id, octet_stream, answered, thrown, DriveClient, World, WriteError,
  client_threw, write, close, make_room, send_upload_chunk, open_session, started, call, write_loop,
  after_loop, writes, closes, cancels, operate_all, open_for_write,
}
use duckdb_gdrive.WriteHandle.Calls.{published_count}
use duckdb_gdrive.WriteHandle.Once.{may_publish, operate_all-published}
use duckdb_gdrive.WriteHandle.Streaming.{Streams, write-Streams}
use duckdb_gdrive.WriteHandle.Sessions.{GivesSessions}
use duckdb_gdrive.WriteHandle.Publishing.{IsPublished, open_for_write-Streams}
use duckdb_gdrive.WriteHandle.Lifecycle.{write_all, flatten, write_all-IsPublished}
use duckdb_gdrive.WriteHandle.Failing.{write_failure-unpublished}

abbrev no_json : Parser
no_json _ = none

abbrev fine : DriveResponse
fine = record {
  ok = true;
  http_status = 200;
  body = [];
  error = no_error;
  location = codes "https://www.googleapis.com/u";
}

-- Drive accepts every call.
abbrev accepting : DriveClient
accepting calls c = answered fine

-- No call gets through.
abbrev refusing : DriveClient
refusing calls c = thrown

abbrev new_file : DriveFileMeta
new_file = record {
  id = [];
  name = [];
  mime_type = [];
  size = negsuc 0;
  modified_time = [];
  head_revision_id = [];
}

abbrev opened : World
opened = open_for_write 0 (codes "gdrive://d/f") new_file (codes "d") (codes "f")

abbrev two_writes : List Bytes
two_writes = codes "ab" ∷ codes "c" ∷ []

two_writes_return : (write_all accepting two_writes opened).0 ≡ none
unfolding write_all open_for_write full new_buffer fill
two_writes_return = refl

close_returns : (close accepting no_json (write_all accepting two_writes opened).1).0 ≡ none
unfolding close write_all open_for_write full new_buffer fill on_close parse_generated_file_id
close_returns = refl

accepting_gives : GivesSessions accepting
accepting_gives calls id parent name mime r h o =
    let same : fine ≡ r = cc in subst (λ (a : DriveResponse). is_empty a.location ≡ false) same refl

write_all-IsPublished_example :
    IsPublished accepting no_json []
      (codes "d")
      (codes "f")
      (flatten accepting two_writes)
      (close accepting no_json (write_all accepting two_writes opened).1).1.calls
write_all-IsPublished_example =
    write_all-IsPublished accepting no_json 0 (codes "gdrive://d/f") new_file (codes "d")
      (codes "f") two_writes accepting_gives two_writes_return close_returns

-- A small file goes up in one request, with an id reserved first.
small_file_calls :
    (close accepting no_json (write_all accepting two_writes opened).1).1.calls
    ≡ generate_file_id ∷ upload [] (codes "d") (codes "f") octet_stream (codes "abc") [] ∷ []
unfolding close write_all open_for_write full new_buffer fill on_close parse_generated_file_id
small_file_calls = refl

write_returns : (write accepting (codes "ab") opened).0 ≡ none
unfolding write open_for_write full new_buffer fill
write_returns = refl

write-Streams_example :
    ((write accepting (codes "ab") opened).1.handle.is_write ≡ true)
    × (buf' : ChunkedUploadBuffer) × Streams
        ([] ++ codes "ab")
        buf'
        (write accepting (codes "ab") opened).1
unfolding open_for_write
write-Streams_example =
    write-Streams accepting (codes "ab") [] (new_buffer 0) opened refl
      (open_for_write-Streams 0 (codes "gdrive://d/f") new_file (codes "d") (codes "f"))
      write_returns

-- Closing twice publishes once.
operate_all-published_example :
    let w' = operate_all accepting no_json (writes (codes "a") ∷ closes ∷ closes ∷ []) opened in
    published_count w'.calls + may_publish w'.handle
    ≤ published_count opened.calls + may_publish opened.handle
operate_all-published_example =
    operate_all-published accepting no_json (writes (codes "a") ∷ closes ∷ closes ∷ []) opened

closed_twice :
    published_count
      (operate_all accepting no_json (writes (codes "a") ∷ closes ∷ closes ∷ []) opened).calls
    ≡ 1
unfolding operate_all open_for_write full new_buffer on_close fill parse_generated_file_id
    parse_file_meta
closed_twice = refl

cancelled :
    published_count
      (operate_all accepting no_json (writes (codes "a") ∷ cancels ∷ closes ∷ []) opened).calls
    ≡ 0
unfolding operate_all open_for_write full new_buffer
cancelled = refl

unfoldable zeros : ℕ → Bytes
zeros zero = []
zeros (suc n) = 0 ∷ zeros n

length-zeros : (n : ℕ) → length (zeros n) ≡ n
unfolding zeros
length-zeros zero = refl
length-zeros (suc n) = omega (arith, length-zeros n)

abbrev full_buffer : ChunkedUploadBuffer
full_buffer = record {
  chunk = 262144;
  pending = zeros 262144;
  offset = 0;
  peak = 262144;
  sent_any = false;
}

abbrev full_handle : World
full_handle = record {
  handle = record {
    path = codes "gdrive://d/f";
    is_write = true;
    write_failed = false;
    buffer = some full_buffer;
    upload_session = [];
    meta = new_file;
    write_parent_id = codes "d";
    write_name = codes "f";
    position = 262144;
  };
  calls = [];
}

full_handle-Streams : Streams (zeros 262144) full_buffer full_handle
full_handle-Streams = record {
  held = refl;
  shape = record {
    chunk_aligned = omega arith;
    chunk_least = omega arith;
    chunk_most = omega arith;
    within = omega (arith, length-zeros 262144);
    peak_most = omega arith;
    offset_aligned = omega arith;
  };
  not_failed = refl;
  stream = refl;
  placed = omega arith;
  in_order = tt;
  unpublished = refl;
  first_chunk = inr refl;
}

full_buffer-full : full full_buffer ≡ true
unfolding full
full_buffer-full = ground (arith, length-zeros 262144)

no_room : (make_room refusing (some full_buffer) full_handle).0 ≡ some client_threw
unfolding make_room send_upload_chunk open_session started call
no_room = rw (full_buffer-full, make_room) refl

loop_throws : (write_loop refusing 1 (codes "a") full_handle).0 ≡ some client_threw
unfolding write_loop
loop_throws = rw (no_room, write_loop) refl

first_of :
    (input : Bytes) (res : Option WriteError × World) → (after_loop refusing input res).0 ≡ res.0
unfolding after_loop
first_of input (none, w) = refl
first_of input (some e, w) = refl

write_throws : (write refusing (codes "a") full_handle).0 ≡ some client_threw
unfolding write
write_throws = first_of (codes "a") (write_loop refusing 1 (codes "a") full_handle) ∙ loop_throws

write_failure-unpublished_example :
    published_count
      (operate_all refusing no_json (closes ∷ []) (write refusing (codes "a") full_handle).1).calls
    ≡ 0
write_failure-unpublished_example =
    write_failure-unpublished refusing no_json (closes ∷ []) (codes "a") (zeros 262144) full_buffer
      full_handle client_threw refl full_handle-Streams write_throws
