-- ===== src/TokenPolicy/Freshness.antt =====
-- When a token is fresh (TokenIsFresh, NormalizeMaxAgeSeconds, DecideAfterRejection).
use duckdb_gdrive.Base.{
  ◌≡◌, sym, ◌∙◌, Bool-cases, ◌≢◌, ◌↔◌, ◌⊎◌, inl, inr, Bool, true, false, Option, none, some, arith,
}
use duckdb_gdrive.Base.Text.{Bytes, eqb, eqb_iff}
use duckdb_gdrive.Base.Int.{ℤ, pos, ◌+ℤ◌, ◌-ℤ◌, ◌<ℤ◌, ◌≤ℤ◌, IsInt64}
use duckdb_gdrive.TokenPolicy.{
  CachedTokenState, saturating_add, token_is_fresh, normalize_max_age_seconds, reuse_cached, mint,
  decide_after_rejection, token_refresh_slack_seconds,
}

-- A fresh token, told in unbounded arithmetic: it outlives the slack, and so does its age limit.
abbrev pub Fresh : CachedTokenState → ℤ → ℤ → Type 0
Fresh token now max_age =
    (now +ℤ token_refresh_slack_seconds <ℤ token.expires_at_unix)
    × ((max_age ≤ℤ pos 0) ⊎ (now +ℤ token_refresh_slack_seconds <ℤ token.minted_at_unix +ℤ max_age))

-- The saturating sums make no difference: a token is fresh exactly when it is so in unbounded
-- arithmetic, for times and an age limit of int64_t.
pub token_is_fresh_iff :
    (token : CachedTokenState) (now max_age : ℤ)
    → IsInt64 token.expires_at_unix
    → IsInt64 token.minted_at_unix
    → IsInt64 now
    → IsInt64 max_age
    → (token_is_fresh token now max_age ≡ true) ↔ Fresh token now max_age
unfolding token_is_fresh saturating_add ◌+ℤ◌ ◌-ℤ◌
token_is_fresh_iff token now max_age he hm hn ha = (λ h. ground arith, λ h. ground arith)

-- Whatever age limit the setting allows, a token that was minted this second and outlives the slack is
-- fresh, so that no request mints a token that the next one refuses.
pub normalize_max_age-fresh :
    (requested effective now : ℤ) (token : CachedTokenState)
    → normalize_max_age_seconds requested ≡ some effective
    → IsInt64 requested
    → IsInt64 now
    → IsInt64 token.expires_at_unix
    → token.minted_at_unix ≡ now
    → now +ℤ token_refresh_slack_seconds <ℤ token.expires_at_unix
    → token_is_fresh token now effective ≡ true
unfolding normalize_max_age_seconds token_is_fresh saturating_add ◌+ℤ◌ ◌-ℤ◌
normalize_max_age-fresh requested effective now token e hr hn he m outlives = ground (arith, m)

-- The cache holds a token that another request has minted since, and that is still fresh.
abbrev pub Replaced : Option CachedTokenState → Bytes → ℤ → ℤ → Type 0
Replaced none rejected now max_age = ⊥
Replaced (some token) rejected now max_age =
    (token.access_token ≢ rejected) × (token_is_fresh token now max_age ≡ true)

-- After a 401, the cached token is used exactly when it is not the rejected one and is fresh; else one
-- is minted exactly when that is possible.
pub decide_after_rejection_iff :
    (cached : Option CachedTokenState) (rejected : Bytes) (now max_age : ℤ) (can_mint : Bool)
    → let action = decide_after_rejection cached rejected now max_age can_mint in
      ((action ≡ reuse_cached) ↔ Replaced cached rejected now max_age)
      × ((action ≡ mint) ↔ ((can_mint ≡ true) × (¬ Replaced cached rejected now max_age)))
unfolding decide_after_rejection
decide_after_rejection_iff none rejected now max_age can_mint =
    ((λ h. ground arith, λ u. absurd u), (λ h. (ground arith, λ u. u), λ h. ground arith))
decide_after_rejection_iff (some token) rejected now max_age can_mint =
    let same = eqb_iff token.access_token rejected in
    (
      (λ h. (ground (arith, same), ground arith), λ u. ground (arith, same, u.0, u.1)),
      (
        λ h. (ground arith, λ u. ground (arith, same, u.0, u.1)),
        λ h. elim (Bool-cases (eqb token.access_token rejected)) [
          | inl e ↦ ground arith
          | inr e ↦ elim (Bool-cases (token_is_fresh token now max_age)) [
            | inl f ↦ absurd (h.1 (λ q. absurd (clash (sym e ∙ same.1 q)), f))
            | inr f ↦ ground arith
          ]
        ],
      ),
    )
  where
    clash : false ≡ true → ⊥
    clash e = cc
