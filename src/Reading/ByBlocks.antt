-- ===== src/Reading/ByBlocks.antt =====
-- The positional Read of src/gdrive_filesystem.cpp gives the bytes of the file that were asked for.
use duckdb_gdrive.Base.{
  ℕ, zero, suc, ◌+◌, ◌-◌, ◌*◌, ◌/◌, ◌≤◌, ◌<◌, ◌≡◌, refl, ◌⊎◌, inl, inr, true, false, some, ◌++◌,
  arith, min, ltb, leb, ◌==◌, length, take, drop, length-take, length-drop, Bool-cases, ap, sym,
  ◌∙◌, Option,
}
use native.Mathlib.Nat.{div-mul-le_self, lt-div-mul-add}
use duckdb_gdrive.Base.Text.{Bytes}
use duckdb_gdrive.Client.{DriveResponse}
use duckdb_gdrive.Reading.{block_of_response, read_via_block_cache}
use duckdb_gdrive.Reading.Slices.{slice, drop-drop, take-join, take-take, drop-take, take-all}

-- Drive's answer to a Range request for these bytes of a file: a 206 with them, or a 200 with the whole file.
abbrev pub Serves : Bytes → ℕ → ℕ → DriveResponse → Type 0
Serves content start len r =
    ((r.http_status ≡ 206) × (r.body ≡ slice start len content))
    ⊎ ((r.http_status ≡ 200) × (r.body ≡ content))

-- The bytes from the start of a block on, up to its end at least, or to that of the file.
abbrev pub IsBlock : Bytes → ℕ → ℕ → Bytes → Type 0
IsBlock content block_size i block =
    (n : ℕ) × (block ≡ slice (i * block_size) n content) × (block_size ≤ n)

module _ (content : Bytes) (block_size : ℕ) where
  -- One round of the loop takes the next bytes of the file.
  round-slice :
      (pos : ℕ) (block : Bytes) (k : ℕ)
      → 0 < block_size
      → IsBlock content block_size (pos / block_size) block
      → k ≤ length block - (pos - pos / block_size * block_size)
      → take k (drop (pos - pos / block_size * block_size) block) ≡ slice pos k content
  round-slice pos block k some_size (n, e, whole) h =
      let within = pos - pos / block_size * block_size in
      let start = pos / block_size * block_size in
      let first : start ≤ pos = div-mul-le_self pos block_size in
      let long : length block ≤ n =
        omega (arith, ap length e, length-take n (drop start content)) in
      let there : start + within ≡ pos = omega (arith, first) in
      ap (λ (b : Bytes). take k (drop within b)) e
      ∙ ap (take k) (drop-take within n (drop start content))
      ∙ ap (λ (b : Bytes). take k (take (n - within) b)) (drop-drop within start content)
      ∙ take-take k (n - within) (drop (start + within) content) (omega (arith, long, h))
      ∙ ap (λ (p : ℕ). slice p k content) there

  -- A block reaches past the position that it is read for.
  reaches :
      (pos : ℕ) (block : Bytes)
      → 0 < block_size
      → pos < length content
      → IsBlock content block_size (pos / block_size) block
      → pos - pos / block_size * block_size < length block
  reaches pos block some_size inside (n, e, whole) =
      let first = div-mul-le_self pos block_size in
      let last = lt-div-mul-add {a = pos} some_size in
      omega (
        arith,
        first,
        last,
        ap length e,
        length-take n (drop (pos / block_size * block_size) content),
        length-drop (pos / block_size * block_size) content,
      )

  -- Where GetBlock gives each block of the file, ReadViaBlockCache gives exactly the bytes that were asked
  -- for, and comes to an end in as many rounds as there are bytes, at the most; the range lies in the file.
  pub read_via_block_cache_bytes :
      (get_block : ℕ → Option Bytes) (fuel pos remaining : ℕ)
      → 0 < block_size
      → ((i : ℕ)
          → i * block_size < length content
          → (block : Bytes) × (get_block i ≡ some block) × IsBlock content block_size i block)
      → remaining ≤ fuel
      → pos + remaining ≤ length content
      → read_via_block_cache get_block block_size fuel pos remaining
        ≡ some (slice pos remaining content)
  unfolding read_via_block_cache
  read_via_block_cache_bytes get_block fuel pos zero some_size blocks enough inside = refl
  read_via_block_cache_bytes get_block zero pos (suc remaining) some_size blocks enough inside =
      absurd (omega arith)
  read_via_block_cache_bytes get_block (suc fuel) pos (suc remaining) some_size blocks enough
        inside =
      let first = div-mul-le_self pos block_size in
      let (block, got, is_block) = blocks (pos / block_size) (omega (arith, first)) in
      let within = pos - pos / block_size * block_size in
      let reach = reaches pos block some_size (omega arith) is_block in
      let taken = min (suc remaining) (length block - within) in
      let here : ltb within (length block) ≡ true = ground (arith, reach) in
      let rest =
        read_via_block_cache_bytes get_block fuel (pos + taken) (suc remaining - taken) some_size
          blocks (omega (arith, reach)) (omega arith) in
      rw (got, here, rest, read_via_block_cache)
        (ap some (
          ap (λ (b : Bytes). b ++ slice (pos + taken) (suc remaining - taken) content)
            (round-slice pos block taken some_size is_block (omega arith))
          ∙ let all : taken + (suc remaining - taken) ≡ suc remaining = omega arith in
            ap (λ (x : Bytes). slice pos taken content ++ take (suc remaining - taken) x)
              (sym (drop-drop taken pos content))
            ∙ take-join taken (suc remaining - taken) (drop pos content)
            ∙ ap (λ (k : ℕ). take k (drop pos content)) all))

  -- The bytes of a block, where the file may end within it.
  cut :
      (start : ℕ)
      → take (min block_size (length content - start)) (drop start content)
        ≡ slice start block_size content
  cut start = elim (Bool-cases (leb block_size (length content - start))) [
    | inl long ↦
        let e : min block_size (length content - start) ≡ block_size = ground arith in
        ap (λ (k : ℕ). take k (drop start content)) e
    | inr short ↦
        let left = length-drop start content in
        take-all (min block_size (length content - start)) (drop start content)
          (ground (arith, left))
        ∙ sym (take-all block_size (drop start content) (ground (arith, left)))
  ]

  block_of_response-IsBlock :
      (i : ℕ) (r : DriveResponse)
      → i * block_size < length content
      → Serves content (i * block_size) (min block_size (length content - i * block_size)) r
      → (block : Bytes) × (block_of_response
            (i * block_size)
            (min block_size (length content - i * block_size))
            r
          ≡ some block)
        × IsBlock content block_size i block
  unfolding block_of_response
  block_of_response-IsBlock i r inside (inl (partial, body)) =
      let status : (r.http_status == 200) ≡ false = ground (arith, partial) in
      (
        r.body,
        rw (status, block_of_response) refl,
        (block_size, body ∙ cut (i * block_size), omega arith),
      )
  block_of_response-IsBlock i r inside (inr (whole, body)) =
      let status : (r.http_status == 200) ≡ true = ground (arith, whole) in
      elim (Bool-cases (ltb 0 (i * block_size))) [
        | inl later ↦
            let long : leb (length r.body) (i * block_size) ≡ false =
              ground (arith, inside, ap length body) in
            (
              take (min block_size (length content - i * block_size))
                  (drop (i * block_size) r.body),
              rw (status, later, long, block_of_response) refl,
              (
                block_size,
                ap
                      (λ (b : Bytes).
                        take (min block_size (length content - i * block_size))
                          (drop (i * block_size) b))
                      body
                    ∙ cut (i * block_size),
                omega arith,
              ),
            )
        | inr first ↦
            let start : 0 ≡ i * block_size = ground arith in
            (
              r.body,
              rw (status, first, block_of_response) refl,
              (
                block_size + length content,
                body
                    ∙ sym (take-all (block_size + length content) content (omega arith))
                    ∙ ap (λ (k : ℕ). slice k (block_size + length content) content) start,
                omega arith,
              ),
            )
      ]

-- A positional Read in blocks gives exactly the bytes of the file that were asked for, whether Drive
-- answers the requests for its blocks with a part of the file or ignores the range and answers with the
-- whole of it. The range lies in the file, whose size is known.
pub read_blocks_of_drive :
    (content : Bytes) (download : ℕ → ℕ → DriveResponse) (block_size pos nr_bytes : ℕ)
    → 0 < block_size
    → ((start len : ℕ) → Serves content start len (download start len))
    → pos + nr_bytes ≤ length content
    → read_via_block_cache
        (λ i.
          block_of_response
            (i * block_size)
            (min block_size (length content - i * block_size))
            (download (i * block_size) (min block_size (length content - i * block_size))))
        block_size
        nr_bytes
        pos
        nr_bytes
      ≡ some (slice pos nr_bytes content)
read_blocks_of_drive content download block_size pos nr_bytes some_size serves inside =
    read_via_block_cache_bytes content block_size _ nr_bytes pos nr_bytes some_size
      (λ i within.
        block_of_response-IsBlock content block_size i _ within
          (serves (i * block_size) (min block_size (length content - i * block_size))))
      (omega arith) inside
