-- ===== src/Reading.antt =====
-- The read path of src/gdrive_filesystem.cpp: the positional Read through blocks and by an exact range, the
-- read of an exported buffer, and the sequential Read. none stands for an exception. GetBlock is an
-- argument, and so is the positional read that the sequential one makes.
pub mod Slices
pub mod ByBlocks
pub mod ExactRange
pub mod Sequential
use duckdb_gdrive.Base.{
  ℕ, zero, suc, ◌+◌, ◌-◌, ◌*◌, ◌/◌, ◌^◌, min, Bool, true, false, not, ◌&&◌, ◌||◌, Option, none,
  some, [], ◌∷◌, ◌++◌, ltb, leb, ◌==◌, if◌then◌else◌, ◌>>=◌, ◌>>◌, guard, length, take, drop,
}
use duckdb_gdrive.Base.Text.{Bytes}
use duckdb_gdrive.Client.{DriveFileMeta, DriveResponse}
use duckdb_gdrive.Resolve.{Auth}

unfoldable pub build_block_key : Auth → DriveFileMeta → Bytes
build_block_key auth meta =
    auth.identity
    ++ 31
      ∷ (auth.drive_id
          ++ 31 ∷ (auth.root_folder_id ++ 31 ∷ (meta.id ++ 31 ∷ meta.head_revision_id)))

-- What the fetch of a block keeps of a response that is ok: a 200 is the whole file.
unfoldable pub block_of_response : ℕ → ℕ → DriveResponse → Option Bytes
block_of_response start len r =
    if r.http_status == 200 && ltb 0 start
    then if leb (length r.body) start then none else some (take len (drop start r.body))
    else some r.body

-- The loop of ReadViaBlockCache on fuel, the bytes asked for, from a position on.
unfoldable pub read_via_block_cache : (ℕ → Option Bytes) → ℕ → ℕ → ℕ → ℕ → Option Bytes
read_via_block_cache get_block block_size fuel pos zero = some []
read_via_block_cache get_block block_size zero pos (suc remaining) = none
read_via_block_cache get_block block_size (suc fuel) pos (suc remaining) = do
  block ← get_block (pos / block_size)
  let within = pos - pos / block_size * block_size
  guard (ltb within (length block))
  let taken = min (suc remaining) (length block - within)
  rest ← read_via_block_cache get_block block_size fuel (pos + taken) (suc remaining - taken)
  some (take taken (drop within block) ++ rest)

-- ReadExactRangeTail
unfoldable pub read_exact_range_tail : ℕ → ℕ → DriveResponse → Option Bytes
read_exact_range_tail nr_bytes location r =
    let whole = r.http_status == 200 && ltb 0 location in
    let src = if whole then drop location r.body else r.body in
    if whole && leb (length r.body) location
    then none
    else if ltb (length src) nr_bytes
    then none
    else some (take nr_bytes src)

-- The read of an exported buffer: all of the bytes, or an exception.
unfoldable pub read_export : Bytes → ℕ → ℕ → Option Bytes
read_export export_buffer nr_bytes location =
    let avail =
      if ltb location (length export_buffer) then length export_buffer - location else 0 in
    let to_copy = min nr_bytes avail in
    if ltb to_copy nr_bytes then none else some (take to_copy (drop location export_buffer))

-- The guard of the positional Read against ranges that int64_t does not hold.
unfoldable pub in_range : ℕ → ℕ → Bool
in_range nr_bytes location = leb location (2 ^ 63 - 1) && leb location (2 ^ 63 - 1 - nr_bytes)

-- The sequential Read: the bytes, and the position after it.
unfoldable pub read_on : (ℕ → ℕ → Option Bytes) → ℕ → ℕ → ℕ → Option (Bytes × ℕ)
read_on read_at size position nr_bytes =
    let remaining = if ltb position size then size - position else 0 in
    let to_read = min remaining nr_bytes in
    if to_read == 0
    then some ([], position)
    else read_at to_read position >>= λ bytes. some (bytes, position + to_read)
