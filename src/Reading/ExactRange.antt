-- ===== src/Reading/ExactRange.antt =====
-- The read of an exact range in src/gdrive_filesystem.cpp.
use duckdb_gdrive.Base.{
  ℕ, ◌+◌, ◌<◌, ◌≡◌, refl, inl, inr, true, false, none, some, arith, ltb, leb, ◌==◌, length, take,
  drop, length-take, length-drop, Bool-cases, ap, sym, ◌∙◌, if◌then◌else◌, not,
}
use duckdb_gdrive.Base.Text.{Bytes}
use duckdb_gdrive.Client.{DriveResponse}
use duckdb_gdrive.Reading.{read_exact_range_tail}
use duckdb_gdrive.Reading.Slices.{slice, take-take}
use duckdb_gdrive.Reading.ByBlocks.{Serves}

-- The bytes from a place on, where there are as many.
exact-slice :
    (content src : Bytes) (nr_bytes location : ℕ)
    → take nr_bytes src ≡ slice location nr_bytes content
    → ltb (length src) nr_bytes ≡ not (leb (location + nr_bytes) (length content))
    → (if ltb (length src) nr_bytes then none else some (take nr_bytes src)) ≡ (
        if leb (location + nr_bytes) (length content)
        then some (slice location nr_bytes content)
        else none)
exact-slice content src nr_bytes location same short = rw (short, same) (ground arith)

-- A read of an exact range, which is not empty, gives the bytes of the file that were asked for, whether
-- Drive answers with them or with the whole file, and fails where the range goes past the file's end.
pub read_exact_range_tail_bytes :
    (content : Bytes) (nr_bytes location : ℕ) (r : DriveResponse)
    → 0 < nr_bytes
    → Serves content location nr_bytes r
    → read_exact_range_tail nr_bytes location r ≡ (
        if leb (location + nr_bytes) (length content)
        then some (slice location nr_bytes content)
        else none)
unfolding read_exact_range_tail
read_exact_range_tail_bytes content nr_bytes location r some_bytes (inl (partial, body)) =
    let status : (r.http_status == 200) ≡ false = ground (arith, partial) in
    rw (status, read_exact_range_tail)
      (exact-slice content r.body nr_bytes location
        (ap (take nr_bytes) body
          ∙ take-take nr_bytes nr_bytes (drop location content) (omega arith))
        (ground (
          arith,
          ap length body,
          length-take nr_bytes (drop location content),
          length-drop location content,
        )))
read_exact_range_tail_bytes content nr_bytes location r some_bytes (inr (whole, body)) =
    let status : (r.http_status == 200) ≡ true = ground (arith, whole) in
    let size : length r.body ≡ length content = ap length body in
    elim (Bool-cases (ltb 0 location)) [
      | inr first ↦
          let start : location ≡ 0 = ground arith in
          rw (status, first, read_exact_range_tail)
            (exact-slice content r.body nr_bytes location
              (ap (take nr_bytes) body ∙ ap (λ (k : ℕ). slice k nr_bytes content) (sym start))
              (ground (arith, size)))
      | inl later ↦ elim (Bool-cases (leb (length r.body) location)) [
        | inl past ↦
            let outside : leb (location + nr_bytes) (length content) ≡ false =
              ground (arith, size) in
            rw (status, later, past, outside, read_exact_range_tail) refl
        | inr within ↦
            rw (status, later, within, read_exact_range_tail)
              (exact-slice content (drop location r.body) nr_bytes location
                (ap (λ (b : Bytes). take nr_bytes (drop location b)) body)
                (ground (arith, size, length-drop location r.body)))
      ]
    ]
