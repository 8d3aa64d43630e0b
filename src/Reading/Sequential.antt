-- ===== src/Reading/Sequential.antt =====
-- The sequential Read of src/gdrive_filesystem.cpp, which moves the position of the handle.
use duckdb_gdrive.Base.{
  ℕ, ◌+◌, ◌-◌, ◌≤◌, ◌<◌, ◌≡◌, refl, inl, inr, Option, some, List, [], ◌∷◌, ◌++◌, arith, min, ltb,
  ◌==◌, length, take, drop, Bool-cases, ap, sym, ◌∙◌, ◌>>=◌, if◌then◌else◌,
}
use duckdb_gdrive.Base.Text.{Bytes}
use duckdb_gdrive.Reading.{read_on}
use duckdb_gdrive.Reading.Slices.{slice, drop-drop, take-join}

module _ (content : Bytes) (read_at : ℕ → ℕ → Option Bytes) where
  -- Several reads one after the other: their bytes together, and the position after the last.
  unfoldable pub read_all : ℕ → List ℕ → Option (Bytes × ℕ)
  unfolding read_on
  read_all position [] = some ([], position)
  read_all position (n ∷ ns) = read_on read_at (length content) position n >>= λ (p : Bytes × ℕ).
      (read_all p.1 ns >>= λ (q : Bytes × ℕ). some (p.0 ++ q.0, q.1))

  abbrev pub total : List ℕ → ℕ
  total [] = 0
  total (n ∷ ns) = n + total ns

  -- The positional read gives the bytes of a range that lies in the file and is not empty.
  abbrev pub IsPositional : Type 0
  IsPositional =
      (len start : ℕ)
      → 0 < len
      → start + len ≤ length content
      → read_at len start ≡ some (slice start len content)

  read_on-slice :
      (position n : ℕ)
      → IsPositional
      → position ≤ length content
      → read_on read_at (length content) position n
        ≡ some (
          slice position (min (length content - position) n) content,
          position + min (length content - position) n,
        )
  unfolding read_on
  read_on-slice position n reads inside =
      let k = min (length content - position) n in
      let same : min (if ltb position (length content) then length content - position else 0) n
          ≡ k =
        ground (arith, inside) in
      elim (Bool-cases (k == 0)) [
        | inl none_left ↦
            let zero_left : 0 ≡ k = ground arith in
            let stays : position ≡ position + 0 = omega arith in
            rw (read_on, same, none_left)
              (ap (λ (m : ℕ). some (take 0 content, m)) stays
                ∙ ap (λ (m : ℕ). some (slice position m content, position + m)) zero_left)
        | inr some_left ↦
            rw (read_on, same, some_left, reads k position (ground arith) (omega (arith, inside)))
              refl
      ]

  -- Sequential reads, of whatever lengths, give the file from the position of the handle on, without a gap
  -- and without an overlap, to its end at most, and leave the position behind the last byte given.
  pub read_all_bytes :
      (ns : List ℕ) (position : ℕ)
      → IsPositional
      → position ≤ length content
      → read_all position ns
        ≡ some (
          slice position (min (length content - position) (total ns)) content,
          position + min (length content - position) (total ns),
        )
  unfolding read_all
  read_all_bytes [] position reads inside =
      let none_asked : 0 ≡ min (length content - position) 0 = omega arith in
      let stays : position ≡ position + 0 = omega arith in
      ap (λ (m : ℕ). some (take 0 content, m)) stays
      ∙ ap (λ (m : ℕ). some (slice position m content, position + m)) none_asked
  read_all_bytes (n ∷ ns) position reads inside =
      let k = min (length content - position) n in
      let more = min (length content - (position + k)) (total ns) in
      let rest = read_all_bytes ns (position + k) reads (omega (arith, inside)) in
      let all : k + more ≡ min (length content - position) (n + total ns) = omega arith in
      let bytes : slice position k content ++ slice (position + k) more content
          ≡ slice position (k + more) content =
        ap (λ (x : Bytes). slice position k content ++ take more x)
          (sym (drop-drop k position content))
        ∙ take-join k more (drop position content) in
      let place : position + k + more ≡ position + (k + more) = omega arith in
      rw (read_all, read_on-slice position n reads inside, rest, bytes, place, all) refl
