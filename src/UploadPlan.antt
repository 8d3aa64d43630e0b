-- ===== src/UploadPlan.antt =====
-- src/gdrive_upload_plan.cpp and src/include/gdrive_upload_plan.hpp: the chunk size, the Range
-- header of a 308 reply, the session URI, and the one-chunk buffer of a streaming write.
-- A std::string is a list of bytes, and a position in it is the list that is left from there.
-- The buffer's calls of reserve, which change no byte, are left out.
pub mod Bounds
pub mod RangeHeader
pub mod Filling
use duckdb_gdrive.Base.{
  ℕ, ◌+◌, ◌-◌, ◌*◌, ◌/◌, ◌%◌, ◌^◌, min, max, Bool, true, false, not, ◌&&◌, ◌||◌, Option, none, some,
  [], ◌∷◌, ◌++◌, ltb, leb, ◌==◌, if◌then◌else◌, ◌>>=◌, ◌>>◌, guard, length, take, drop,
}
use duckdb_gdrive.Base.Text.{Bytes, codes, is_empty, strip_prefix?}
use duckdb_gdrive.Base.Decimal.{to_string}

-- Arithmetic of std::uint64_t.
abbrev pub wrap64 : ℕ → ℕ
wrap64 n = n % 2 ^ 64

abbrev pub uint64_max : ℕ
uint64_max = 2 ^ 64 - 1

abbrev pub drive_upload_chunk_multiple : ℕ
drive_upload_chunk_multiple = 262144

abbrev pub drive_upload_chunk_max : ℕ
drive_upload_chunk_max = 4096 * drive_upload_chunk_multiple

unfoldable pub normalize_drive_chunk_size : ℕ → ℕ
normalize_drive_chunk_size requested =
    let rounded = requested / drive_upload_chunk_multiple * drive_upload_chunk_multiple in
    if ltb drive_upload_chunk_max requested
    then drive_upload_chunk_max
    else if rounded == 0
    then drive_upload_chunk_multiple
    else rounded

abbrev pub is_digit : ℕ → Bool
is_digit c = leb b'0' c && leb c b'9'

-- The loop of ParseDigits: `taken` is pos - start. The result holds the digits taken, their value
-- and what follows them.
parse_digits_loop : ℕ → ℕ → Bytes → Option (ℕ × ℕ × Bytes)
parse_digits_loop taken value [] = some (taken, value, [])
parse_digits_loop taken value (c ∷ s) =
    let onward = parse_digits_loop (taken + 1) (wrap64 (value * 10 + (c - b'0'))) s in
    if is_digit c then if leb 19 taken then none else onward else some (taken, value, c ∷ s)

unfoldable pub parse_digits : Bytes → Option (ℕ × Bytes)
unfolding parse_digits_loop
parse_digits s = do
  (taken, value, rest) ← parse_digits_loop 0 0 s
  guard (not (taken == 0))
  some (value, rest)

-- What follows "bytes=first-".
range_tail : ℕ → Bytes → Option ℕ
range_tail first tail = do
  (last, rest) ← parse_digits tail
  guard (is_empty rest && not (ltb last first))
  guard (first == 0 && not (last == uint64_max))
  some (wrap64 (last + 1))

unfoldable pub parse_drive_range_next : Bytes → Option ℕ
unfolding range_tail parse_digits
parse_drive_range_next [] = some 0
parse_drive_range_next (c ∷ cs) = do
  digits ← strip_prefix? (codes "bytes=") (c ∷ cs)
  (first, dash) ← parse_digits digits
  tail ← strip_prefix? (codes "-") dash
  range_tail first tail

abbrev pub drive_origin : Bytes
drive_origin = codes "https://www.googleapis.com/"

unfoldable pub drive_session_path : Bytes → Option Bytes
drive_session_path session_uri = do
  guard (not (leb (length session_uri) (length drive_origin)))
  _ ← strip_prefix? drive_origin session_uri
  some (drop (length drive_origin - 1) session_uri)

pub record ChunkedUploadBuffer : Type 0 where
  pub chunk : ℕ
  pub pending : Bytes
  pub offset : ℕ
  pub peak : ℕ
  pub sent_any : Bool

pub data CloseAction : Type 0 where
  single_request final_chunk : CloseAction

unfoldable pub new_buffer : ℕ → ChunkedUploadBuffer
unfolding normalize_drive_chunk_size
new_buffer chunk_bytes = record {
  chunk = normalize_drive_chunk_size chunk_bytes;
  pending = [];
  offset = 0;
  peak = 0;
  sent_any = false;
}

-- The number of bytes taken, and the buffer that holds them.
unfoldable pub fill : ChunkedUploadBuffer → Bytes → ℕ × ChunkedUploadBuffer
fill buf input =
    let room = buf.chunk - min buf.chunk (length buf.pending) in
    let taken = min room (length input) in
    let pending' = buf.pending ++ take taken input in
    if ltb 0 taken
    then (taken, record buf { pending = pending'; peak = max buf.peak (length pending') })
    else (taken, buf)

unfoldable pub full : ChunkedUploadBuffer → Bool
full buf = leb buf.chunk (length buf.pending)

unfoldable pub mark_chunk_sent : ChunkedUploadBuffer → ChunkedUploadBuffer
mark_chunk_sent buf = record buf {
  offset = wrap64 (buf.offset + length buf.pending);
  pending = [];
  sent_any = true;
}

unfoldable pub on_close : ChunkedUploadBuffer → CloseAction
on_close buf = if buf.sent_any then final_chunk else single_request

unfoldable pub total : ChunkedUploadBuffer → ℕ
total buf = wrap64 (buf.offset + length buf.pending)

unfoldable pub content_range : ChunkedUploadBuffer → Bool → ℕ → Bytes
unfolding total
content_range buf final skip =
    let start = wrap64 (buf.offset + skip) in
    let end = wrap64 (buf.offset + length buf.pending + uint64_max) in
    codes "bytes "
    ++ (to_string start
        ++ (codes "-"
            ++ (to_string end
                ++ (codes "/" ++ (if final then to_string (total buf) else codes "*")))))

unfoldable pub resume_skip : ChunkedUploadBuffer → ℕ → Option ℕ
unfolding total
resume_skip buf next_expected =
    if ltb next_expected buf.offset || ltb (total buf) next_expected
    then none
    else some (next_expected - buf.offset)
