-- ===== src/UploadPlan/Bounds.antt =====
-- The chunk size that a session uses (NormalizeDriveChunkSize).
use duckdb_gdrive.Base.{ℕ, ◌%◌, ◌≤◌, ◌≡◌, arith}
use duckdb_gdrive.UploadPlan.{
  normalize_drive_chunk_size, drive_upload_chunk_multiple, drive_upload_chunk_max,
}

-- The chunk size is a positive multiple of 256 KiB of at most 1 GiB.
pub normalize_bounds :
    (requested : ℕ)
    → let size = normalize_drive_chunk_size requested in
      (size % drive_upload_chunk_multiple ≡ 0)
      × (drive_upload_chunk_multiple ≤ size)
      × (size ≤ drive_upload_chunk_max)
unfolding normalize_drive_chunk_size
normalize_bounds requested = ground arith

-- The chunk size is the largest multiple of 256 KiB of at most 1 GiB within the request, whenever the
-- request is at least 256 KiB.
pub normalize_greatest :
    (requested size : ℕ)
    → size % drive_upload_chunk_multiple ≡ 0
    → size ≤ requested
    → size ≤ drive_upload_chunk_max
    → drive_upload_chunk_multiple ≤ requested
    → (size ≤ normalize_drive_chunk_size requested)
      × (normalize_drive_chunk_size requested ≤ requested)
unfolding normalize_drive_chunk_size
normalize_greatest requested size aligned within capped enough = ground arith
