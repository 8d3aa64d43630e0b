-- ===== src/UploadStep/Verdicts.antt =====
-- What a step of the upload state machine tells its caller (NextUploadStep).
use duckdb_gdrive.Base.{
  ◌+◌, ◌%◌, ◌^◌, ◌≤◌, ◌<◌, ◌≡◌, ◌↔◌, ◌⊎◌, inl, inr, Bool, true, false, not, ◌&&◌, ◌||◌, some, arith,
  length, leb, Option-cases,
}
use duckdb_gdrive.UploadPlan.{
  ChunkedUploadBuffer, parse_drive_range_next, resume_skip, drive_upload_chunk_multiple,
}
use duckdb_gdrive.UploadPlan.Filling.{resume_skip_iff}
use duckdb_gdrive.UploadStep.{
  UploadReply, ChunkUploadState, done, accepted, send, fail, on_acknowledged, on_error,
  next_upload_step,
}

-- The reply tells nothing of what Drive did with the request.
abbrev pub lost : UploadReply → Bool
lost reply = not reply.transport_ok || leb 500 reply.status

-- The step says that the file is published exactly when the chunk was the final one and Drive
-- answered 200 or 201.
pub done_iff :
    (buf : ChunkedUploadBuffer) (final : Bool) (state : ChunkUploadState) (reply : UploadReply)
    → ((next_upload_step buf final state reply).0.kind ≡ done) ↔ (
        (final ≡ true)
        × (reply.transport_ok ≡ true)
        × ((reply.status ≡ 200) ⊎ (reply.status ≡ 201)))
unfolding next_upload_step on_acknowledged on_error
done_iff buf final state reply = (λ h. ground arith, λ h. ground arith)

-- A failure is reported as ambiguous exactly when the chunk was the final one and this reply or an
-- earlier one was lost, and the step remembers that.
pub ambiguous_iff :
    (buf : ChunkedUploadBuffer) (final : Bool) (state : ChunkUploadState) (reply : UploadReply)
    → let (step, state') = next_upload_step buf final state reply in
      (state'.final_maybe_sent ≡ (state.final_maybe_sent || (final && lost reply)))
      × ((step.ambiguous ≡ true)
          ↔ ((step.kind ≡ fail) × (final ≡ true) × (state'.final_maybe_sent ≡ true)))
unfolding next_upload_step on_acknowledged on_error
ambiguous_iff buf final state reply = ground arith

-- The step accepts the chunk exactly when it was not the final one and Drive answered 308 with all of
-- it held, for an upload of less than 2 ^ 64 bytes.
pub accepted_iff :
    (buf : ChunkedUploadBuffer) (final : Bool) (state : ChunkUploadState) (reply : UploadReply)
    → buf.offset + length buf.pending < 2 ^ 64
    → ((next_upload_step buf final state reply).0.kind ≡ accepted) ↔ (
        (final ≡ false)
        × (reply.transport_ok ≡ true)
        × (reply.status ≡ 308)
        × (parse_drive_range_next reply.range ≡ some (buf.offset + length buf.pending)))
unfolding next_upload_step on_acknowledged on_error
accepted_iff buf final state reply fits = (
  λ h. elim (Option-cases (parse_drive_range_next reply.range)) [
    | inl e ↦ ground arith
    | inr (next, e) ↦ elim (Option-cases (resume_skip buf next)) [
      | inl f ↦ ground arith
      | inr (skip, f) ↦ ground (arith, resume_skip_iff buf next skip fits)
    ]
  ],
  λ h.
      ground
        (arith, resume_skip_iff buf (buf.offset + length buf.pending) (length buf.pending) fits),
)

-- When the step asks for the chunk to be sent on, for an upload of less than 2 ^ 64 bytes, Drive's Range
-- header says that it holds exactly the bytes that are skipped; of a chunk that is not the final one,
-- some are left and they start at a multiple of 256 KiB.
pub send_resumes :
    (buf : ChunkedUploadBuffer) (final : Bool) (state : ChunkUploadState) (reply : UploadReply)
    → buf.offset + length buf.pending < 2 ^ 64
    → (next_upload_step buf final state reply).0.kind ≡ send
    → let skip = (next_upload_step buf final state reply).1.skip in
      (parse_drive_range_next reply.range ≡ some (buf.offset + skip))
      × (skip ≤ length buf.pending)
      × ((final ≡ true)
          ⊎ ((skip < length buf.pending) × ((buf.offset + skip) % drive_upload_chunk_multiple ≡ 0)))
unfolding next_upload_step on_acknowledged on_error
send_resumes buf final state reply fits h =
    elim (Option-cases (parse_drive_range_next reply.range)) [
      | inl e ↦ ground arith
      | inr (next, e) ↦ elim (Option-cases (resume_skip buf next)) [
        | inl f ↦ ground arith
        | inr (skip, f) ↦ ground (arith, resume_skip_iff buf next skip fits)
      ]
    ]
