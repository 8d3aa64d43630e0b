-- ===== src/UploadPlan/Filling.antt =====
-- The one-chunk buffer of a streaming write: what Fill and MarkChunkSent keep.
use mathlib.Core.List.{append_assoc}
use duckdb_gdrive.Base.{
  ℕ, ◌+◌, ◌-◌, ◌%◌, ◌^◌, ◌≤◌, ◌<◌, ◌≡◌, refl, true, false, some, ◌++◌, arith, length, take, drop,
  length-append, length-take, min, take-append-drop, append-nil, ◌↔◌, sym, ap, ◌∙◌, Bool-cases, inl,
  inr, ltb,
}
use duckdb_gdrive.Base.Text.{Bytes}
use duckdb_gdrive.UploadPlan.{
  ChunkedUploadBuffer, new_buffer, fill, full, mark_chunk_sent, total, resume_skip,
  drive_upload_chunk_multiple, drive_upload_chunk_max,
}
use duckdb_gdrive.UploadPlan.Bounds.{normalize_bounds}

-- What holds of the buffer of an open write handle.
pub record IsBuffer (buf : ChunkedUploadBuffer) : Type 0 where
  pub chunk_aligned : buf.chunk % drive_upload_chunk_multiple ≡ 0
  pub chunk_least : drive_upload_chunk_multiple ≤ buf.chunk
  pub chunk_most : buf.chunk ≤ drive_upload_chunk_max
  pub within : length buf.pending ≤ buf.peak
  pub peak_most : buf.peak ≤ buf.chunk
  pub offset_aligned : buf.offset % drive_upload_chunk_multiple ≡ 0

pub new_buffer-IsBuffer : (chunk_bytes : ℕ) → IsBuffer (new_buffer chunk_bytes)
unfolding new_buffer
new_buffer-IsBuffer chunk_bytes = omega (arith, normalize_bounds chunk_bytes)

-- Fill keeps the buffer well formed: within one chunk, which is a multiple of 256 KiB of at most 1 GiB.
pub fill-IsBuffer :
    (buf : ChunkedUploadBuffer) (input : Bytes) → IsBuffer buf → IsBuffer (fill buf input).1
unfolding fill
fill-IsBuffer buf input v =
    let room = min (buf.chunk - min buf.chunk (length buf.pending)) (length input) in
    ground (arith, length-append buf.pending (take room input), length-take room input)

-- The bytes that Fill takes go to the end of the pending chunk, in order, and no other field but the
-- peak changes; it takes at least one byte unless the chunk is full or there is none.
pub fill_lem :
    (buf : ChunkedUploadBuffer) (input : Bytes)
    → ((fill buf input).1.pending ≡ buf.pending ++ take (fill buf input).0 input)
      × ((fill buf input).0 ≤ length input)
      × ((fill buf input).1.offset ≡ buf.offset)
      × ((fill buf input).1.sent_any ≡ buf.sent_any)
      × ((fill buf input).1.chunk ≡ buf.chunk)
unfolding fill
fill_lem buf input =
    elim (Bool-cases
      (ltb 0 (min (buf.chunk - min buf.chunk (length buf.pending)) (length input)))) [
        | inl some_taken ↦ rw some_taken (refl, omega arith, refl, refl, refl)
        | inr none_taken ↦
            let nothing : min (buf.chunk - min buf.chunk (length buf.pending)) (length input) ≡ 0 =
              ground arith in
            rw none_taken (rw nothing (sym (append-nil buf.pending)), omega arith, refl, refl, refl)
      ]

pub fill-progress :
    (buf : ChunkedUploadBuffer) (input : Bytes)
    → full buf ≡ false
    → 0 < length input
    → 0 < (fill buf input).0
unfolding fill full
fill-progress buf input room h = ground arith

-- The bytes already pending and the bytes offered are, in order, those pending after Fill and those
-- left over.
pub fill-append :
    (buf : ChunkedUploadBuffer) (input : Bytes)
    → (fill buf input).1.pending ++ drop (fill buf input).0 input ≡ buf.pending ++ input
fill-append buf input =
    let (grown, _, _, _, _) = fill_lem buf input in
    let taken = (fill buf input).0 in
    ap (λ (front : Bytes). front ++ drop taken input) grown
    ∙ append_assoc buf.pending (take taken input) (drop taken input)
    ∙ ap (◌++◌ buf.pending) (take-append-drop taken input)

-- A full chunk that was sent leaves an empty buffer at the next aligned offset.
pub mark_chunk_sent-IsBuffer :
    (buf : ChunkedUploadBuffer)
    → IsBuffer buf
    → full buf ≡ true
    → IsBuffer (mark_chunk_sent buf) × (length buf.pending ≡ buf.chunk)
unfolding mark_chunk_sent full
mark_chunk_sent-IsBuffer buf v f = ground arith

-- A resume point that is accepted lies within the pending chunk, and none is accepted outside it.
pub resume_skip_iff :
    (buf : ChunkedUploadBuffer) (next skip : ℕ)
    → buf.offset + length buf.pending < 2 ^ 64
    → (resume_skip buf next ≡ some skip)
      ↔ ((next ≡ buf.offset + skip) × (skip ≤ length buf.pending))
unfolding resume_skip total
resume_skip_iff buf next skip fits = (λ e. ground arith, λ p. ground arith)
