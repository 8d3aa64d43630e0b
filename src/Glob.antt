-- ===== src/Glob.antt =====
-- src/gdrive_glob.cpp: how a glob pattern is split at its first wildcard, and how its braces expand.
-- A position in a pattern is the text that is left from there, and the text before it.
pub mod Splitting
pub mod Expansion
pub mod Budget
pub mod Groups
pub mod Alternatives
pub mod Choices
use duckdb_gdrive.Base.{
  ℕ, zero, suc, ◌+◌, ◌-◌, Bool, true, false, not, ◌&&◌, ◌||◌, Option, none, some, List, [], ◌∷◌,
  ◌++◌, ltb, ◌==◌, if◌then◌else◌, ◌>>=◌, length,
}
use duckdb_gdrive.Base.Text.{Bytes, codes, contains}
use duckdb_gdrive.Uri.{join}

abbrev pub is_metacharacter : ℕ → Bool
is_metacharacter c = c == b'*' || (c == b'?' || (c == b'[' || c == b'{'))

unfoldable pub has_glob_metacharacters : Bytes → Bool
has_glob_metacharacters [] = false
has_glob_metacharacters (c ∷ s) = is_metacharacter c || has_glob_metacharacters s

prepend : ℕ → List Bytes → List Bytes
prepend c [] = (c ∷ []) ∷ []
prepend c (segment ∷ more) = (c ∷ segment) ∷ more

unfoldable pub split_on_slash : Bytes → List Bytes
unfolding prepend
split_on_slash [] = [] ∷ []
split_on_slash (c ∷ s) =
    let rest = split_on_slash s in if c == b'/' then [] ∷ rest else prepend c rest

pub record GlobSplit : Type 0 where
  pub literal_prefix : Bytes
  pub pattern_tail : Bytes
  pub recursive : Bool

-- The segments before the first that has a metacharacter, and the others.
unfoldable pub break_at_glob : List Bytes → List Bytes × List Bytes
unfolding has_glob_metacharacters
break_at_glob [] = ([], [])
break_at_glob (segment ∷ segments) =
    let (front, back) = break_at_glob segments in
    if has_glob_metacharacters segment then ([], segment ∷ segments) else (segment ∷ front, back)

unfoldable pub split_glob : Bytes → GlobSplit
unfolding break_at_glob split_on_slash has_glob_metacharacters
split_glob pattern =
    let (front, back) = break_at_glob (split_on_slash pattern) in
    if not (has_glob_metacharacters pattern)
    then record { literal_prefix = pattern; pattern_tail = []; recursive = false }
    else record {
      literal_prefix = join front;
      pattern_tail = join back;
      recursive = ltb 1 (length back) || contains (codes "**") (join back);
    }

abbrev pub max_brace_pattern_length : ℕ
max_brace_pattern_length = 4096

abbrev pub max_brace_expansions : ℕ
max_brace_expansions = 1024

abbrev pub max_brace_depth : ℕ
max_brace_depth = 64

-- The rest of a group that is open `depth` braces deep: what stands in it, and what follows it.
unfoldable pub find_close : Bytes → ℕ → Bytes → Option (Bytes × Bytes)
find_close inner depth [] = none
find_close inner depth (c ∷ s) =
    let deeper = find_close (inner ++ c ∷ []) (depth + 1) s in
    let shallower = find_close (inner ++ c ∷ []) (depth - 1) s in
    let along = find_close (inner ++ c ∷ []) depth s in
    if c == b'{'
    then deeper
    else if c == b'}'
    then if depth == 1 then some (inner, s) else shallower
    else along

-- The first top-level group: what stands before, in and after it. An opening brace that is never
-- closed leaves no group.
unfoldable pub find_group : Bytes → Bytes → Option (Bytes × Bytes × Bytes)
unfolding find_close
find_group before [] = none
find_group before (c ∷ s) =
    let along = find_group (before ++ c ∷ []) s in
    if c == b'{' then (find_close [] 1 s >>= λ group. some (before, group.0, group.1)) else along

-- The top-level commas of a group separate its alternatives. A group is balanced, so that the depth
-- does not fall below 0.
unfoldable pub split_alternatives : Bytes → ℕ → Bytes → List Bytes
split_alternatives current depth [] = current ∷ []
split_alternatives current depth (c ∷ s) =
    let deeper = split_alternatives (current ++ c ∷ []) (depth + 1) s in
    let shallower = split_alternatives (current ++ c ∷ []) (depth - 1) s in
    let along = split_alternatives (current ++ c ∷ []) depth s in
    let next = split_alternatives [] depth s in
    if c == b'{'
    then deeper
    else if c == b'}'
    then shallower
    else if c == b',' && depth == 0
    then current ∷ next
    else along

-- What was pushed, and the budget that is left.
abbrev pub Expanded : Type 0
Expanded = List Bytes × ℕ

unfoldable pub push_suffixes : Bytes → List Bytes → ℕ → Option Expanded
push_suffixes head [] budget = some ([], budget)
push_suffixes head (suffix ∷ suffixes) budget =
    let rest = push_suffixes head suffixes (budget - 1) in
    if budget == 0 then none else rest >>= λ done. some ((head ++ suffix) ∷ done.0, done.1)

unfoldable pub push_products : Bytes → List Bytes → List Bytes → ℕ → Option Expanded
unfolding push_suffixes
push_products prefix [] suffixes budget = some ([], budget)
push_products prefix (alternative ∷ alternatives) suffixes budget = do
  (first, left) ← push_suffixes (prefix ++ alternative) suffixes budget
  (rest, left') ← push_products prefix alternatives suffixes left
  some (first ++ rest, left')

-- The loop over the alternatives of a group.
unfoldable pub expand_alternatives :
    (Bytes → ℕ → Option Expanded) → Bytes → List Bytes → List Bytes → ℕ → Option Expanded
unfolding push_products
expand_alternatives expand prefix [] suffixes budget = some ([], budget)
expand_alternatives expand prefix (alternative ∷ alternatives) suffixes budget = do
  (expanded, left) ← expand alternative budget
  (first, left') ← push_products prefix expanded suffixes left
  (rest, left'') ← expand_alternatives expand prefix alternatives suffixes left'
  some (first ++ rest, left'')

-- `levels` is the number of levels of recursion that the depth leaves.
unfoldable pub expand_braces_into : ℕ → Bytes → ℕ → Option Expanded
unfolding find_group split_alternatives expand_alternatives
expand_braces_into zero pattern budget = none
expand_braces_into (suc levels) pattern budget = elim (find_group [] pattern) [
  | none ↦ if budget == 0 then none else some (pattern ∷ [], budget - 1)
  | some (prefix, inner, suffix) ↦ expand_braces_into levels suffix budget >>= λ suffixes.
      expand_alternatives (λ p b. expand_braces_into levels p b) prefix
        (split_alternatives [] 0 inner) suffixes.0 suffixes.1
]

-- The empty list rejects the pattern.
unfoldable pub expand_braces : Bytes → List Bytes
unfolding expand_braces_into
expand_braces pattern =
    if ltb max_brace_pattern_length (length pattern)
    then []
    else elim (expand_braces_into (max_brace_depth + 1) pattern max_brace_expansions) [
      | none ↦ []
      | some (result, left) ↦ result
    ]
