-- ===== src/GlobMatch.antt =====
-- MatchSegment of src/gdrive_glob.cpp: one segment of a glob pattern against one name. An index into a
-- text is the text that is left from there. `char` is signed, as on the x86 and arm64 macOS builds, so
-- that a range compares bytes from 128 up as below the others.
pub mod Relation
pub mod Classes
pub mod Tokens
pub mod Backtracking
pub mod Decision
use duckdb_gdrive.Base.{
  ℕ, zero, suc, ◌+◌, ◌*◌, ◌%◌, Bool, true, false, not, ◌&&◌, ◌||◌, Option, none, some, [], ◌∷◌, leb,
  ◌==◌, if◌then◌else◌, length,
}
use duckdb_gdrive.Base.Text.{Bytes}

-- The order of signed chars.
abbrev pub char_key : ℕ → ℕ
char_key c = (c + 128) % 256

abbrev pub in_range : ℕ → ℕ → ℕ → Bool
in_range lo hi c = leb (char_key lo) (char_key c) && leb (char_key c) (char_key hi)

-- The loop of TryMatchClass: whether the byte is a member, and what follows the class; none where the
-- class has no end.
unfoldable pub class_loop : ℕ → Bool → Bool → Bool → Bytes → Option (Bool × Bytes)
class_loop c negate found first [] = none
class_loop c negate found first (x ∷ []) =
    if x == b']' && not first then some (if negate then not found else found, []) else none
class_loop c negate found first (x ∷ y ∷ []) =
    let along = class_loop c negate (found || x == c) false (y ∷ []) in
    if x == b']' && not first then some (if negate then not found else found, y ∷ []) else along
class_loop c negate found first (x ∷ y ∷ z ∷ s) =
    let along = class_loop c negate (found || x == c) false (y ∷ z ∷ s) in
    let ranged = class_loop c negate (found || in_range x z c) false s in
    if x == b']' && not first
    then some (if negate then not found else found, y ∷ z ∷ s)
    else if y == b'-' && not (z == b']')
    then ranged
    else along

unfoldable pub try_match_class : ℕ → Bytes → Option (Bool × Bytes)
unfolding class_loop
try_match_class c [] = none
try_match_class c (x ∷ s) =
    if x == b'!' || x == b'^'
    then class_loop c true false true s
    else class_loop c false false true (x ∷ s)

-- A class that is not closed is a literal bracket.
class_step : ℕ → Bytes → Option (Bool × Bytes) → Option Bytes
class_step c p (some (matched, rest)) = if matched then some rest else none
class_step c p none = if c == b'[' then some p else none

-- The body of the loop for a pattern character that is no star: what is left of the pattern where the
-- byte matches.
unfoldable pub match_one : Bytes → ℕ → Option Bytes
unfolding class_step try_match_class
match_one [] c = none
match_one (x ∷ p) c =
    if x == b'*'
    then none
    else if x == b'?'
    then some p
    else if x == b'['
    then class_step c p (try_match_class c p)
    else if c == x
    then some p
    else none

unfoldable pub skip_stars : Bytes → Bytes
skip_stars [] = []
skip_stars (x ∷ p) = if x == b'*' then skip_stars p else x ∷ p

abbrev pub is_star : Bytes → Bool
is_star [] = false
is_star (x ∷ p) = x == b'*'

abbrev pub is_nil : Bytes → Bool
is_nil [] = true
is_nil (x ∷ p) = false

-- star_pidx and star_sidx, none where they are npos.
abbrev pub Star : Type 0
Star = Option (Bytes × Bytes)

abbrev pub tail : Bytes → Bytes
tail [] = []
tail (c ∷ s) = s

-- One round for each byte of the pattern and the name, from each start of the last star.
unfoldable pub match_loop : ℕ → Bytes → Bytes → Star → Bool
unfolding match_one skip_stars
match_loop fuel p [] star = is_nil (skip_stars p)
match_loop zero p (c ∷ s) star = false
match_loop (suc fuel) p (c ∷ s) star =
    let starred = match_loop fuel (skip_stars p) (c ∷ s) (some (skip_stars p, c ∷ s)) in
    if is_star p then is_nil (skip_stars p) || starred else elim (match_one p c) [
      | some rest ↦ match_loop fuel rest s star
      | none ↦ elim star [
        | none ↦ false
        | some (star_p, star_s) ↦ match_loop fuel star_p (tail star_s) (some (star_p, tail star_s))
      ]
    ]

abbrev pub enough_rounds : Bytes → Bytes → ℕ
enough_rounds pattern name = (length name + 2) * (length pattern + length name + 2)

unfoldable pub match_segment : Bytes → Bytes → Bool
unfolding match_loop
match_segment pattern name = match_loop (enough_rounds pattern name) pattern name none
