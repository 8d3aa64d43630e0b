-- ===== src/Tests/Readings.antt =====
-- Reads on concrete data (src/gdrive_filesystem.cpp).
use duckdb_gdrive.Base.{
  ℕ, ◌+◌, ◌-◌, ◌*◌, ◌≡◌, refl, true, none, some, [], ◌∷◌, arith, inl, inr, min, leb, length,
  if◌then◌else◌, Option,
}
use duckdb_gdrive.Base.Text.{Bytes, codes}
use duckdb_gdrive.Client.{DriveResponse, no_error}
use duckdb_gdrive.Reading.{
  read_via_block_cache, block_of_response, read_exact_range_tail, read_export,
}
use duckdb_gdrive.Reading.Slices.{slice}
use duckdb_gdrive.Reading.ByBlocks.{read_blocks_of_drive}
use duckdb_gdrive.Reading.ExactRange.{read_exact_range_tail_bytes}
use duckdb_gdrive.Reading.Sequential.{read_all, total, read_all_bytes}

abbrev content : Bytes
content = codes "abcdefghij"

-- A server that ignores the range of every request.
abbrev whole : DriveResponse
whole = record { ok = true; http_status = 200; body = content; error = no_error; location = [] }

abbrev part : ℕ → ℕ → DriveResponse
part start len = record whole { http_status = 206; body = slice start len content }

read_blocks_of_drive_example :
    read_via_block_cache
      (λ i.
        block_of_response
          (i * 4)
          (min 4 (length content - i * 4))
          (part (i * 4) (min 4 (length content - i * 4))))
      4
      7
      2
      7
    ≡ some (slice 2 7 content)
read_blocks_of_drive_example =
    read_blocks_of_drive content part 4 2 7 (omega arith) (λ start len. inl (refl, refl))
      (omega arith)

read_exact_range_tail_bytes_example :
    read_exact_range_tail 3 5 whole
    ≡ (if leb (5 + 3) (length content) then some (slice 5 3 content) else none)
read_exact_range_tail_bytes_example =
    read_exact_range_tail_bytes content 3 5 whole (omega arith) (inr (refl, refl))

exact_bytes : read_exact_range_tail 3 5 whole ≡ some (codes "fgh")
unfolding read_exact_range_tail
exact_bytes = refl

past_the_end : read_exact_range_tail 3 8 whole ≡ none
unfolding read_exact_range_tail
past_the_end = refl

export_is_short : read_export content 3 8 ≡ none
unfolding read_export
export_is_short = refl

abbrev exactly : ℕ → ℕ → Option Bytes
exactly len start = some (slice start len content)

read_all_bytes_example :
    read_all content exactly 1 (4 ∷ 3 ∷ 9 ∷ [])
    ≡ some (
      slice 1 (min (length content - 1) (total content exactly (4 ∷ 3 ∷ 9 ∷ []))) content,
      1 + min (length content - 1) (total content exactly (4 ∷ 3 ∷ 9 ∷ [])),
    )
read_all_bytes_example =
    read_all_bytes content exactly (4 ∷ 3 ∷ 9 ∷ []) 1 (λ len start h k. refl) (omega arith)
