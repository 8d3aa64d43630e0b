-- ===== src/Tests/Tokens.antt =====
-- Tokens on concrete data (src/gdrive_token_policy.cpp).
use duckdb_gdrive.Base.{◌≡◌, ◌↔◌, refl, true, some, arith}
use duckdb_gdrive.Base.Text.{codes}
use duckdb_gdrive.Base.Int.{◌+ℤ◌, pos}
use duckdb_gdrive.TokenPolicy.{
  CachedTokenState, token_is_fresh, normalize_max_age_seconds, reuse_cached, mint,
  decide_after_rejection, int64_max,
}
use duckdb_gdrive.TokenPolicy.Freshness.{
  Fresh, Replaced, token_is_fresh_iff, decide_after_rejection_iff,
}

abbrev pasted : CachedTokenState
pasted = record { access_token = codes "t"; expires_at_unix = int64_max; minted_at_unix = pos 1000 }

token_is_fresh_iff_example :
    (token_is_fresh pasted (pos 1000) (pos 61) ≡ true) ↔ Fresh pasted (pos 1000) (pos 61)
token_is_fresh_iff_example =
    token_is_fresh_iff pasted (pos 1000) (pos 61) (omega arith, omega arith)
      (omega arith, omega arith) (omega arith, omega arith) (omega arith, omega arith)

smallest_age : normalize_max_age_seconds (pos 1) ≡ some (pos 61)
unfolding normalize_max_age_seconds ◌+ℤ◌
smallest_age = refl

decide_after_rejection_iff_example :
    let action = decide_after_rejection (some pasted) (codes "old") (pos 1000) (pos 0) true in
    ((action ≡ reuse_cached) ↔ Replaced (some pasted) (codes "old") (pos 1000) (pos 0))
    × ((action ≡ mint)
        ↔ ((true ≡ true) × (¬ Replaced (some pasted) (codes "old") (pos 1000) (pos 0))))
decide_after_rejection_iff_example =
    decide_after_rejection_iff (some pasted) (codes "old") (pos 1000) (pos 0) true
