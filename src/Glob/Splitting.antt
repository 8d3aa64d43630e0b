-- ===== src/Glob/Splitting.antt =====
-- The literal prefix and the tail of a pattern (SplitOnSlash, SplitGlob).
use duckdb_gdrive.Base.{
  ℕ, ◌≡◌, ◌⊎◌, refl, sym, ap, ◌∙◌, Bool, true, false, ◌||◌, List, [], ◌∷◌, ◌++◌, ltb, ◌==◌, length,
  All, arith, Bool-cases, inl, inr,
}
use duckdb_gdrive.Base.Text.{Bytes, codes, contains}
use duckdb_gdrive.Uri.{join}
use duckdb_gdrive.Glob.{
  has_glob_metacharacters, is_metacharacter, split_on_slash, GlobSplit, break_at_glob, split_glob,
  prepend,
}

abbrev any_glob : List Bytes → Bool
any_glob [] = false
any_glob (segment ∷ segments) = has_glob_metacharacters segment || any_glob segments

split_on_slash-some : (s : Bytes) → (x : Bytes) × (xs : List Bytes) × (split_on_slash s ≡ x ∷ xs)
unfolding split_on_slash prepend
split_on_slash-some [] = ([], [], refl)
split_on_slash-some (c ∷ s) =
    let (x, xs, e) = split_on_slash-some s in
    elim (Bool-cases (c == b'/')) [
      | inl slash ↦ rw (slash, split_on_slash) ([], split_on_slash s, refl)
      | inr other ↦ rw (other, split_on_slash, e) (c ∷ x, xs, refl)
    ]

join-prepend : (c : ℕ) (segs : List Bytes) → join (prepend c segs) ≡ c ∷ join segs
unfolding join prepend
join-prepend c [] = refl
join-prepend c (x ∷ []) = refl
join-prepend c (x ∷ y ∷ segs) = refl

any_glob-prepend :
    (c : ℕ) (segs : List Bytes) → any_glob (prepend c segs) ≡ (is_metacharacter c || any_glob segs)
unfolding prepend has_glob_metacharacters
any_glob-prepend c [] = ground arith
any_glob-prepend c (x ∷ segs) = ground arith

-- Splitting a pattern on its slashes loses nothing, and no metacharacter.
join-split_on_slash : (s : Bytes) → join (split_on_slash s) ≡ s
unfolding split_on_slash join
join-split_on_slash [] = refl
join-split_on_slash (c ∷ s) = elim (Bool-cases (c == b'/')) [
  | inl slash ↦
      let (x, xs, e) = split_on_slash-some s in
      let c_slash : c ≡ b'/' = ground arith in
      rw (slash, split_on_slash, e, c_slash) (ap (◌∷◌ b'/') (rw e at (join-split_on_slash s)))
  | inr other ↦
      rw (other, split_on_slash)
        (join-prepend c (split_on_slash s) ∙ ap (◌∷◌ c) (join-split_on_slash s))
]

any_glob-split_on_slash : (s : Bytes) → any_glob (split_on_slash s) ≡ has_glob_metacharacters s
unfolding split_on_slash has_glob_metacharacters
any_glob-split_on_slash [] = refl
any_glob-split_on_slash (c ∷ s) = elim (Bool-cases (c == b'/')) [
  | inl slash ↦ ground (arith, any_glob-split_on_slash s)
  | inr other ↦
      rw (other, split_on_slash)
        (ground (arith, any_glob-prepend c (split_on_slash s), any_glob-split_on_slash s))
]

abbrev pub IsLiteral : Bytes → Type 0
IsLiteral segment = has_glob_metacharacters segment ≡ false

-- How a pattern with a metacharacter is cut.
pub record Cut (pattern : Bytes) (cut : GlobSplit) : Type 0 where
  pub front : List Bytes
  pub first : Bytes
  pub more : List Bytes
  pub whole : pattern ≡ join (front ++ first ∷ more)
  pub literal_front : All IsLiteral front
  pub glob_first : has_glob_metacharacters first ≡ true
  pub prefix_front : cut.literal_prefix ≡ join front
  pub tail_back : cut.pattern_tail ≡ join (first ∷ more)
  pub one_folder : (cut.recursive ≡ true) ⊎ (more ≡ [])

break_lem :
    (segs : List Bytes)
    → any_glob segs ≡ true
    → (first : Bytes) × (more : List Bytes) × ((break_at_glob segs).1 ≡ first ∷ more)
      × (segs ≡ (break_at_glob segs).0 ++ first ∷ more)
      × All IsLiteral (break_at_glob segs).0
      × (has_glob_metacharacters first ≡ true)
unfolding break_at_glob
break_lem [] h = cc
break_lem (x ∷ segs) h = elim (Bool-cases (has_glob_metacharacters x)) [
  | inl here ↦ rw (here, break_at_glob) (x, segs, refl, refl, tt, here)
  | inr later ↦
      let (first, more, e, split, lits, glob) = break_lem segs (ground arith) in
      rw (later, break_at_glob) (first, more, e, ap (◌∷◌ x) split, (later, lits), glob)
]

-- A pattern with a metacharacter is cut before the first segment that has one: the prefix joins the
-- segments before it, which have none, and the tail the others; a listing of one folder is asked for
-- only where one segment is left.
pub split_glob-Cut :
    (pattern : Bytes) → has_glob_metacharacters pattern ≡ true → Cut pattern (split_glob pattern)
unfolding split_glob
split_glob-Cut pattern h =
    let (first, more, e, split, lits, glob) =
      break_lem (split_on_slash pattern) (any_glob-split_on_slash pattern ∙ h) in
    rw (h, split_glob)
      (record {
        front = (break_at_glob (split_on_slash pattern)).0;
        first = first;
        more = more;
        whole = sym (join-split_on_slash pattern) ∙ ap join split;
        literal_front = lits;
        glob_first = glob;
        prefix_front = refl;
        tail_back = ap join e;
        one_folder = rw e (short first more);
      })
  where
    short :
        (x : Bytes) (xs : List Bytes)
        → ((ltb 1 (length (x ∷ xs)) || contains (codes "**") (join (x ∷ xs))) ≡ true) ⊎ (xs ≡ [])
    short x [] = inr refl
    short x (y ∷ xs) = inl (ground arith)
