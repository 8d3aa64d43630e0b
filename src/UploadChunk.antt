-- ===== src/UploadChunk.antt =====
-- GDriveClientImpl::UploadChunk of src/gdrive_client.cpp: the loop that sends one chunk of a resumable
-- session. Drive's answers are given as a list, in the order of the requests; the sleep between two
-- rounds and the call counters are left out.
pub mod Outcome
use duckdb_gdrive.Base.{
  ℕ, ◌+◌, Bool, true, false, not, ◌&&◌, ◌||◌, Option, none, some, List, [], ◌∷◌, ◌++◌, ltb, leb,
  ◌==◌, if◌then◌else◌, length, drop,
}
use duckdb_gdrive.Base.Text.{Bytes, codes}
use duckdb_gdrive.Base.Decimal.{to_string}
use duckdb_gdrive.Json.{Parser}
use duckdb_gdrive.Errors.{GDriveError, classify_drive_error, is_retryable, transient, unknown}
use duckdb_gdrive.Client.{DriveResponse, RawResult, no_error}
use duckdb_gdrive.UploadPlan.{ChunkedUploadBuffer, drive_session_path, content_range, total}
use duckdb_gdrive.UploadStep.{
  UploadReply, ChunkUploadState, UploadStep, UploadStepKind, done, accepted, send, ask_status, fail,
  UploadFailure, completed_early, bad_range, outside_chunk, no_progress, misaligned, no_response,
  rejected, initial_state, plain_step, next_upload_step,
}

-- A PUT to the session: its path, its Content-Range and the bytes that it carries.
pub record SessionPut : Type 0 where
  pub path : Bytes
  pub content_range : Bytes
  pub payload : Bytes

unfoldable pub failure_text : UploadFailure → Bytes
failure_text completed_early =
    codes "resumable upload: Drive completed the upload before its final chunk"
failure_text bad_range =
    codes "resumable upload: Drive answered with a Range header that is not \"bytes=0-N\""
failure_text outside_chunk =
    codes "resumable upload: Drive reports holding bytes outside the chunk still in memory; the "
    ++ codes "upload cannot be resumed"
failure_text no_progress = codes "resumable upload made no progress after repeated attempts"
failure_text misaligned =
    codes "resumable upload: Drive acknowledged a non-final chunk up to a byte that is not a "
    ++ codes "multiple of 256 KiB; the rest cannot be sent as a valid chunk"
failure_text no_response =
    codes "network transport failure uploading a chunk (no response from Drive)"
failure_text (rejected status) =
    codes "resumable upload chunk rejected with HTTP " ++ to_string status

abbrev pub may_be_applied_text : Bytes
may_be_applied_text =
    codes
      "the final chunk of a resumable upload got no usable answer from Drive; the change may or "
    ++ codes "may not have been applied. Check the destination before retrying."

abbrev pub may_be_applied : GDriveError
may_be_applied = record no_error { kind = transient; message = may_be_applied_text }

abbrev is_error_status : RawResult → Bool
is_error_status raw =
    raw.transport_ok && (not (raw.status == 308) && (ltb raw.status 200 || leb 300 raw.status))

module _ (parse : Parser) where
  abbrev pub raw_error : RawResult → GDriveError
  raw_error raw = classify_drive_error parse raw.status raw.body raw.retry_after

  unfoldable pub reply_of : RawResult → UploadReply
  reply_of raw = record {
    transport_ok = raw.transport_ok;
    status = raw.status;
    range = raw.range;
    retryable = is_error_status raw && is_retryable (raw_error raw).kind;
  }

  text_of : Option UploadFailure → Bytes
  unfolding failure_text
  text_of none = []
  text_of (some why) = failure_text why

  unfoldable pub failure_error : RawResult → UploadStep → GDriveError
  unfolding text_of
  failure_error raw step =
      if step.ambiguous
      then may_be_applied
      else if is_error_status raw
      then raw_error raw
      else record no_error {
        kind = if raw.transport_ok then unknown else transient;
        message = text_of step.error;
      }

  -- What the loop returns for a step, or none where it goes round again.
  unfoldable pub response_of : RawResult → UploadStep → UploadStepKind → Option DriveResponse
  unfolding failure_error
  response_of raw step done = some (record {
    ok = true;
    http_status = raw.status;
    body = raw.body;
    error = no_error;
    location = [];
  })
  response_of raw step accepted =
      some (record { ok = true; http_status = 308; body = []; error = no_error; location = [] })
  response_of raw step fail = some (record {
    ok = false;
    http_status = if raw.transport_ok then raw.status else 0;
    body = raw.body;
    error = failure_error raw step;
    location = [];
  })
  response_of raw step send = none
  response_of raw step ask_status = none

  module _ (path : Bytes) (buf : ChunkedUploadBuffer) (final : Bool) where
    abbrev is_send : UploadStepKind → Bool
    is_send send = true
    is_send _ = false

    unfoldable pub session_put : ChunkUploadState → UploadStepKind → SessionPut
    session_put state kind =
        if is_send kind && ltb state.skip (length buf.pending)
        then record {
          path = path;
          content_range = content_range buf final state.skip;
          payload = drop state.skip buf.pending;
        }
        else record {
          path = path;
          content_range = codes "bytes */" ++ (if final then to_string (total buf) else codes "*");
          payload = [];
        }

    -- The response, none while Drive still owes an answer, and the requests made.
    unfoldable pub chunk_loop :
        List RawResult → ChunkUploadState → UploadStepKind → Option DriveResponse × List SessionPut
    unfolding session_put response_of
    chunk_loop [] state kind = (none, session_put state kind ∷ [])
    chunk_loop (raw ∷ raws) state kind =
        let (step, state') = next_upload_step buf final state (reply_of raw) in
        let (later, puts) = chunk_loop raws state' step.kind in
        elim (response_of raw step step.kind) [
          | none ↦ (later, session_put state kind ∷ puts)
          | some response ↦ (some response, session_put state kind ∷ [])
        ]

  abbrev pub refused_session : DriveResponse
  refused_session = record {
    ok = false;
    http_status = 0;
    body = [];
    error = record no_error {
      kind = unknown;
      message =
          codes "refusing to upload to a resumable-session URI that is not https on "
          ++ codes "www.googleapis.com";
    };
    location = [];
  }

  unfoldable pub upload_chunk :
      Bytes → ChunkedUploadBuffer → Bool → List RawResult → Option DriveResponse × List SessionPut
  unfolding chunk_loop
  upload_chunk session_uri buf final answers = elim (drive_session_path session_uri) [
    | none ↦ (some refused_session, [])
    | some path ↦ chunk_loop path buf final answers initial_state send
  ]
