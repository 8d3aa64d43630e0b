-- ===== src/GlobPath.antt =====
-- MatchSegments and MatchPath of src/gdrive_glob.cpp: a pattern of several segments against a path. The
-- table of results is a function; an index comes with the segments that are left from there.
pub mod Memo
use duckdb_gdrive.Base.{
  ℕ, zero, suc, ◌+◌, Bool, true, false, ◌&&◌, ◌||◌, Option, none, some, List, [], ◌∷◌, ◌==◌,
  if◌then◌else◌, length,
}
use duckdb_gdrive.Base.Text.{Bytes, codes, eqb}
use duckdb_gdrive.Glob.{split_on_slash}
use duckdb_gdrive.GlobMatch.{match_segment}

-- -1 in the source's table is none.
abbrev pub Memo : Type 0
Memo = ℕ → ℕ → Option Bool

abbrev pub any_segments : Bytes
any_segments = codes "**"

abbrev pub no_segments : List Bytes → Bool
no_segments [] = true
no_segments (s ∷ segments) = false

unfoldable pub remember : ℕ → ℕ → Bool × Memo → Bool × Memo
remember pi si (result, memo) =
    (result, λ i j. if i == pi && j == si then some result else memo i j)

unfoldable pub match_segments : ℕ → List Bytes → List Bytes → ℕ → ℕ → Memo → Bool × Memo
unfolding remember
match_segments zero patterns segments pi si memo = (false, memo)
match_segments (suc fuel) [] segments pi si memo = (no_segments segments, memo)
match_segments (suc fuel) (p ∷ patterns) [] pi si memo =
    let none_left = match_segments fuel patterns [] (suc pi) si memo in
    elim (memo pi si) [
      | some cached ↦ (cached, memo)
      | none ↦ remember pi si (if eqb p any_segments then none_left else (false, memo))
    ]
match_segments (suc fuel) (p ∷ patterns) (s ∷ segments) pi si memo =
    let zero_segments = match_segments fuel patterns (s ∷ segments) (suc pi) si memo in
    let one_more = match_segments fuel (p ∷ patterns) segments pi (suc si) zero_segments.1 in
    let next = match_segments fuel patterns segments (suc pi) (suc si) memo in
    elim (memo pi si) [
      | some cached ↦ (cached, memo)
      | none ↦ remember pi si (
          if eqb p any_segments
          then if zero_segments.0 then zero_segments else one_more
          else if match_segment p s
          then next
          else (false, memo))
    ]

abbrev pub empty_memo : Memo
empty_memo i j = none

-- Each call goes on with fewer segments on one side at least.
unfoldable pub match_path : Bytes → Bytes → Bool
unfolding match_segments
match_path pattern path =
    let patterns = split_on_slash pattern in
    let segments = split_on_slash path in
    (match_segments (length patterns + length segments + 1) patterns segments 0 0 empty_memo).0
