-- ===== src/UploadStep.antt =====
-- NextUploadStep of src/gdrive_upload_plan.cpp: how one chunk of a resumable upload is retried and
-- resumed. The text of an error is a constructor of UploadFailure; the lambda `fail` is `fail_step`.
pub mod Verdicts
pub mod Progress
use duckdb_gdrive.Base.{
  ℕ, ◌+◌, ◌%◌, Bool, true, false, not, ◌&&◌, ◌||◌, Option, none, some, ltb, leb, ◌==◌,
  if◌then◌else◌, length,
}
use duckdb_gdrive.Base.Text.{Bytes}
use duckdb_gdrive.UploadPlan.{
  ChunkedUploadBuffer, parse_drive_range_next, resume_skip, drive_upload_chunk_multiple,
}

pub record UploadReply : Type 0 where
  pub transport_ok : Bool
  pub status : ℕ
  pub range : Bytes
  pub retryable : Bool

pub record ChunkUploadState : Type 0 where
  pub skip : ℕ
  pub stalls : ℕ
  pub failures : ℕ
  pub final_maybe_sent : Bool

pub data UploadStepKind : Type 0 where
  done accepted send ask_status fail : UploadStepKind

pub data UploadFailure : Type 0 where
  completed_early bad_range outside_chunk no_progress misaligned no_response : UploadFailure
  rejected : ℕ → UploadFailure

pub record UploadStep : Type 0 where
  pub kind : UploadStepKind
  pub backoff : Bool
  pub ambiguous : Bool
  pub error : Option UploadFailure

abbrev pub initial_state : ChunkUploadState
initial_state = record { skip = 0; stalls = 0; failures = 0; final_maybe_sent = false }

abbrev pub max_chunk_attempts : ℕ
max_chunk_attempts = 5

abbrev pub plain_step : UploadStepKind → Bool → UploadStep
plain_step kind backoff = record { kind = kind; backoff = backoff; ambiguous = false; error = none }

abbrev pub fail_step : Bool → ChunkUploadState → Bool → UploadFailure → UploadStep
fail_step final state backoff why = record {
  kind = fail;
  backoff = backoff;
  ambiguous = final && state.final_maybe_sent;
  error = some why;
}

-- A 308 whose Range puts `skip` bytes of the pending chunk at the server.
unfoldable pub on_acknowledged :
    ChunkedUploadBuffer → Bool → ChunkUploadState → ℕ → UploadStep × ChunkUploadState
on_acknowledged buf final state skip =
    let pending = length buf.pending in
    let moved = ltb state.skip skip || (skip == pending && not final) in
    let stalls = if moved then 0 else state.stalls + 1 in
    let stalled = record state { stalls = stalls } in
    let state' = record state { stalls = stalls; skip = skip } in
    let backoff = ltb 0 stalls in
    if not moved && ltb max_chunk_attempts stalls
    then (fail_step final stalled false no_progress, stalled)
    else if skip == pending && not final
    then (plain_step accepted backoff, state')
    else if not final
        && (ltb skip pending && not ((buf.offset + skip) % drive_upload_chunk_multiple == 0))
    then (fail_step final state' backoff misaligned, state')
    else (plain_step send backoff, state')

-- The reply's next byte, and where it lies in the pending chunk.
on_next_byte :
    ChunkedUploadBuffer → Bool → ChunkUploadState → Option ℕ → UploadStep × ChunkUploadState
on_next_byte buf final state none = (fail_step final state false outside_chunk, state)
on_next_byte buf final state (some skip) = on_acknowledged buf final state skip

on_range : ChunkedUploadBuffer → Bool → ChunkUploadState → Option ℕ → UploadStep × ChunkUploadState
unfolding on_next_byte
on_range buf final state none = (fail_step final state false bad_range, state)
on_range buf final state (some next) = on_next_byte buf final state (resume_skip buf next)

-- No response, or an error status.
unfoldable pub on_error : Bool → ChunkUploadState → UploadReply → UploadStep × ChunkUploadState
on_error final state reply =
    let retryable = not reply.transport_ok || reply.retryable in
    let lost = final && (not reply.transport_ok || leb 500 reply.status) in
    let failures = if retryable then state.failures + 1 else state.failures in
    let state' = record state {
      failures = failures;
      final_maybe_sent = state.final_maybe_sent || lost;
    } in
    if retryable && leb failures max_chunk_attempts
    then (plain_step ask_status true, state')
    else if not reply.transport_ok
    then (fail_step final state' false no_response, state')
    else (fail_step final state' false (rejected reply.status), state')

unfoldable pub next_upload_step :
    ChunkedUploadBuffer → Bool → ChunkUploadState → UploadReply → UploadStep × ChunkUploadState
unfolding on_range on_next_byte
next_upload_step buf final state reply =
    if reply.transport_ok && (reply.status == 200 || reply.status == 201)
    then if final
      then (plain_step done false, state)
      else (fail_step final state false completed_early, state)
    else if reply.transport_ok && reply.status == 308
    then on_range buf final state (parse_drive_range_next reply.range)
    else on_error final state reply
