-- ===== src/UploadStep/Progress.antt =====
-- Why the retries of one chunk end (NextUploadStep).
use duckdb_gdrive.Base.{
  ℕ, ◌+◌, ◌-◌, ◌*◌, ◌^◌, ◌≤◌, ◌<◌, ◌≡◌, Bool, true, false, none, some, arith, length, Option-cases,
  ◌&&◌, ◌==◌, if◌then◌else◌, inl, inr,
}
use duckdb_gdrive.UploadPlan.{ChunkedUploadBuffer, parse_drive_range_next, resume_skip}
use duckdb_gdrive.UploadPlan.Filling.{resume_skip_iff}
use duckdb_gdrive.UploadStep.{
  UploadReply, ChunkUploadState, UploadStepKind, send, ask_status, on_acknowledged, on_error,
  next_upload_step, max_chunk_attempts,
}

-- The caller's loop goes round again.
abbrev pub goes_on : UploadStepKind → Bool
goes_on send = true
goes_on ask_status = true
goes_on _ = false

-- The state of a chunk that is still under way.
pub record IsUnderway (buf : ChunkedUploadBuffer) (state : ChunkUploadState) : Type 0 where
  pub skip_within : state.skip ≤ length buf.pending
  pub stalls_within : state.stalls ≤ max_chunk_attempts
  pub failures_within : state.failures ≤ max_chunk_attempts

-- How many bytes of the upload Drive has acknowledged, after this reply.
abbrev pub held_after : ℕ → UploadReply → ℕ
held_after held reply =
    if reply.transport_ok && reply.status == 308
    then elim (parse_drive_range_next reply.range) [ none ↦ held | some next ↦ next ]
    else held

-- An upper bound on the rounds that are left.
abbrev pub rounds_left : ChunkedUploadBuffer → ChunkUploadState → ℕ
rounds_left buf state =
    (max_chunk_attempts - state.failures)
    + (max_chunk_attempts + 1) * (length buf.pending - state.skip)
    + (max_chunk_attempts - state.stalls)

-- A round that goes on keeps the chunk under way, resumes where Drive says that it is, and uses up the
-- bound on the rounds, as long as Drive takes nothing back and the upload has less than 2 ^ 64 bytes.
pub next_upload_step-progress :
    (buf : ChunkedUploadBuffer) (final : Bool) (state : ChunkUploadState) (reply : UploadReply)
    → buf.offset + length buf.pending < 2 ^ 64
    → IsUnderway buf state
    → buf.offset + state.skip ≤ held_after (buf.offset + state.skip) reply
    → goes_on (next_upload_step buf final state reply).0.kind ≡ true
    → let state' = (next_upload_step buf final state reply).1 in
      IsUnderway buf state'
      × (buf.offset + state'.skip ≡ held_after (buf.offset + state.skip) reply)
      × (rounds_left buf state' < rounds_left buf state)
unfolding next_upload_step on_acknowledged on_error
next_upload_step-progress buf final state reply fits v keeps h =
    elim (Option-cases (parse_drive_range_next reply.range)) [
      | inl e ↦ ground arith
      | inr (next, e) ↦ elim (Option-cases (resume_skip buf next)) [
        | inl f ↦ ground arith
        | inr (skip, f) ↦ ground (arith, resume_skip_iff buf next skip fits)
      ]
    ]
