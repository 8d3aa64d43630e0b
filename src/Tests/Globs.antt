-- ===== src/Tests/Globs.antt =====
-- Glob patterns on concrete data (src/gdrive_glob.cpp).
use duckdb_gdrive.Uri.{join}
use duckdb_gdrive.Base.{◌≡◌, ◌≢◌, ◌↔◌, refl, true, [], ◌∷◌}
use duckdb_gdrive.Base.Text.{eqb, codes}
use duckdb_gdrive.Glob.{has_glob_metacharacters, split_glob, expand_braces}
use duckdb_gdrive.Glob.Expansion.{In}
use duckdb_gdrive.Glob.Choices.{StandsFor, expand_braces_iff}
use duckdb_gdrive.Base.{false}
use duckdb_gdrive.Glob.{split_on_slash}
use duckdb_gdrive.GlobMatch.{match_segment}
use duckdb_gdrive.GlobMatch.Decision.{MatchesName, match_segment_iff}
use duckdb_gdrive.GlobPath.{match_path}
use duckdb_gdrive.GlobPath.Memo.{MatchesPath, match_path_iff}

has_star : has_glob_metacharacters (codes "a/b/*.csv") ≡ true
unfolding has_glob_metacharacters
has_star = refl

split_star : (split_glob (codes "a/b/*.csv")).literal_prefix ≡ codes "a/b"
unfolding split_glob join
split_star = refl

expand_nested : expand_braces (codes "{a,b{1,2}}x") ≡ codes "ax" ∷ codes "b1x" ∷ codes "b2x" ∷ []
unfolding expand_braces
expand_nested = refl

-- A brace that is never closed is literal.
unclosed : expand_braces (codes "a{b") ≡ codes "a{b" ∷ []
unfolding expand_braces
unclosed = refl

not_rejected : expand_braces (codes "{a,b{1,2}}x") ≢ []
unfolding expand_braces
not_rejected e = cc

expand_braces_iff_example :
    In (codes "b2x") (expand_braces (codes "{a,b{1,2}}x"))
    ↔ StandsFor (codes "{a,b{1,2}}x") (codes "b2x")
expand_braces_iff_example = expand_braces_iff (codes "{a,b{1,2}}x") (codes "b2x") not_rejected

match_segment_iff_example :
    (match_segment (codes "*.t[a-x]t") (codes "a.t.txt") ≡ true)
    ↔ MatchesName (codes "*.t[a-x]t") (codes "a.t.txt")
match_segment_iff_example = match_segment_iff (codes "*.t[a-x]t") (codes "a.t.txt")

-- The star is tried again after the first dot.
backtracks : match_segment (codes "*.t[a-x]t") (codes "a.t.txt") ≡ true
unfolding match_segment
backtracks = refl

-- A bracket that is not closed is a literal.
open_bracket : match_segment (codes "a[b") (codes "a[b") ≡ true
unfolding match_segment
open_bracket = refl

negated : match_segment (codes "[!a-c]") (codes "b") ≡ false
unfolding match_segment
negated = refl

match_path_iff_example :
    (match_path (codes "a/**/*.csv") (codes "a/b/c/d.csv") ≡ true)
    ↔ MatchesPath (split_on_slash (codes "a/**/*.csv")) (split_on_slash (codes "a/b/c/d.csv"))
match_path_iff_example = match_path_iff (codes "a/**/*.csv") (codes "a/b/c/d.csv")

any_depth : match_path (codes "a/**/*.csv") (codes "a/b/c/d.csv") ≡ true
unfolding match_path split_on_slash eqb match_segment
any_depth = refl
