-- ===== src/TokenPolicy.antt =====
-- src/gdrive_token_policy.cpp and src/include/gdrive_token_policy.hpp: when a cached token is used,
-- and what follows a 401. A value of int64_t is an integer; the sums below stay in its range.
pub mod Freshness
use duckdb_gdrive.Base.{
  ℕ, ◌+◌, ◌-◌, ◌^◌, Bool, true, false, not, ◌&&◌, ◌||◌, Option, none, some, if◌then◌else◌, ltb, leb,
}
use duckdb_gdrive.Base.Text.{Bytes, eqb, is_empty}
use duckdb_gdrive.Base.Int.{ℤ, pos, negsuc, ◌+ℤ◌, ◌-ℤ◌, ltb_ℤ, leb_ℤ}

abbrev pub int64_max : ℤ
int64_max = pos (2 ^ 63 - 1)

abbrev pub token_refresh_slack_seconds : ℤ
token_refresh_slack_seconds = pos 60

pub record CachedTokenState : Type 0 where
  pub access_token : Bytes
  pub expires_at_unix : ℤ
  pub minted_at_unix : ℤ

unfoldable pub saturating_add : ℤ → ℤ → ℤ
saturating_add a b = if ltb_ℤ (int64_max -ℤ b) a then int64_max else a +ℤ b

unfoldable pub token_is_fresh : CachedTokenState → ℤ → ℤ → Bool
unfolding saturating_add
token_is_fresh token now_unix max_age_seconds =
    let horizon = saturating_add now_unix token_refresh_slack_seconds in
    if leb_ℤ token.expires_at_unix horizon
    then false
    else leb_ℤ max_age_seconds (pos 0)
      || ltb_ℤ horizon (saturating_add token.minted_at_unix max_age_seconds)

unfoldable pub normalize_max_age_seconds : ℤ → Option ℤ
normalize_max_age_seconds requested =
    if ltb_ℤ requested (pos 0)
    then none
    else some (
        if ltb_ℤ (pos 0) requested && leb_ℤ requested token_refresh_slack_seconds
        then token_refresh_slack_seconds +ℤ pos 1
        else requested)

pub data RejectionAction : Type 0 where
  reuse_cached mint give_up : RejectionAction

-- The cached token is none where has_cached is false.
unfoldable pub decide_after_rejection :
    Option CachedTokenState → Bytes → ℤ → ℤ → Bool → RejectionAction
decide_after_rejection none rejected now_unix max_age_seconds can_mint =
    if can_mint then mint else give_up
decide_after_rejection (some cached) rejected now_unix max_age_seconds can_mint =
    if not (eqb cached.access_token rejected) && token_is_fresh cached now_unix max_age_seconds
    then reuse_cached
    else if can_mint
    then mint
    else give_up

unfoldable pub should_resend_after_401 : Bool → Bytes → Bytes → Bool
should_resend_after_401 already_refreshed rejected replacement =
    not already_refreshed && (not (is_empty replacement) && not (eqb replacement rejected))
