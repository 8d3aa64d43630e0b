-- ===== src/Errors/Classes.antt =====
-- What the classification promises (ClassifyDriveError, IsRetryable, ParseRetryAfterSeconds).
use duckdb_gdrive.Base.{
  ℕ, ◌^◌, ◌≤◌, ◌<◌, ◌≡◌, ◌≢◌, refl, ◌↔◌, ◌⊎◌, inl, inr, true, none, [], ◌∷◌, ◌++◌, arith, All, ◌∙◌,
}
use duckdb_gdrive.Base.Text.{Bytes, codes, eqb, eqb_iff, is_empty, drop_while, drop_while_back}
use duckdb_gdrive.Base.Decimal.{value, IsDigit}
use duckdb_gdrive.Base.Int.{pos, to_int32}
use duckdb_gdrive.Json.{Parser}
use duckdb_gdrive.Errors.{
  rate_limit, transient, unknown, ParsedBody, parse_error_body, classify_from_reason,
  classify_from_status, classify_kind, classify_drive_error, is_retryable, is_blank, trim_front,
  trim_back, all_digits, parse_retry_after_seconds, read_error,
}

abbrev pub RateReasons : Bytes → Type 0
RateReasons r = (r ≡ codes "rateLimitExceeded") ⊎ (r ≡ codes "userRateLimitExceeded")

at_rate : classify_from_reason (codes "rateLimitExceeded") ≡ rate_limit
unfolding classify_from_reason eqb
at_rate = refl

at_user : classify_from_reason (codes "userRateLimitExceeded") ≡ rate_limit
unfolding classify_from_reason eqb
at_user = refl

rate_limit_iff : (r : Bytes) → (classify_from_reason r ≡ rate_limit) ↔ RateReasons r
unfolding classify_from_reason
rate_limit_iff r = (
  λ h.
      ground
        (arith, eqb_iff r (codes "rateLimitExceeded"), eqb_iff r (codes "userRateLimitExceeded")),
  λ h. elim h [ inl e ↦ rw e at_rate | inr e ↦ rw e at_user ],
)

reason_not_transient : (r : Bytes) → classify_from_reason r ≢ transient
unfolding classify_from_reason
reason_not_transient r = ground arith

no_reason : classify_from_reason [] ≡ unknown
unfolding classify_from_reason eqb
no_reason = refl

-- When a retry can help, told from the status and the two reasons of the body: the token does not
-- lack a scope, and Drive answered 429, or gave a rate limit as the reason, or answered 5xx with no
-- reason that says otherwise.
abbrev pub CanRetry : ℕ → ParsedBody → Type 0
CanRetry status parsed =
    (parsed.detail_reason ≢ codes "ACCESS_TOKEN_SCOPE_INSUFFICIENT")
    × ((status ≡ 429)
        ⊎ RateReasons parsed.reason
        ⊎ ((classify_from_reason parsed.reason ≡ unknown) × (500 ≤ status) × (status < 600)))

empty_reason : (r : Bytes) → is_empty r ≡ true → classify_from_reason r ≡ unknown
empty_reason [] h = no_reason
empty_reason (c ∷ r) h = cc

classify_kind-CanRetry :
    (status : ℕ) (parsed : ParsedBody)
    → (is_retryable (classify_kind status parsed) ≡ true) ↔ CanRetry status parsed
unfolding classify_kind classify_from_status is_retryable
classify_kind-CanRetry status parsed = (
  λ h. ground (
    arith,
    eqb_iff parsed.detail_reason (codes "ACCESS_TOKEN_SCOPE_INSUFFICIENT"),
    rate_limit_iff parsed.reason,
    reason_not_transient parsed.reason,
    empty_reason parsed.reason,
  ),
  λ h. ground (
    arith,
    eqb_iff parsed.detail_reason (codes "ACCESS_TOKEN_SCOPE_INSUFFICIENT"),
    rate_limit_iff parsed.reason,
    empty_reason parsed.reason,
  ),
)

-- An error is retryable exactly when a retry can help: the token does not lack a scope, and Drive
-- answered 429, or gave a rate limit as the reason, or answered 5xx with no reason that says otherwise.
pub retryable_iff :
    (parse : Parser) (status : ℕ) (body header : Bytes)
    → (is_retryable (classify_drive_error parse status body header).kind ≡ true)
      ↔ CanRetry status (parse_error_body parse body)
unfolding classify_drive_error
retryable_iff parse status body header = classify_kind-CanRetry status (parse_error_body parse body)

-- A body that is empty or no JSON leaves the kind to the status alone, with no reason and no message.
pub classify_no_json :
    (parse : Parser) (status : ℕ) (body header : Bytes)
    → (body ≡ []) ⊎ (parse body ≡ none)
    → let error = classify_drive_error parse status body header in
      (error.kind ≡ classify_from_status status) × (error.reason ≡ []) × (error.message ≡ [])
unfolding classify_drive_error parse_error_body read_error classify_from_status eqb
classify_no_json parse status [] header h = ground arith
classify_no_json parse status (c ∷ cs) header h = ground arith

abbrev pub IsBlank : ℕ → Type 0
IsBlank c = is_blank c ≡ true

trim_front-blanks : (pad s : Bytes) → All IsBlank pad → trim_front (pad ++ s) ≡ trim_front s
unfolding drop_while
trim_front-blanks [] s h = refl
trim_front-blanks (c ∷ pad) s h = ground (arith, trim_front-blanks pad s h.1)

trim_back-blanks : (pad : Bytes) → All IsBlank pad → trim_back pad ≡ []
unfolding drop_while_back
trim_back-blanks [] h = refl
trim_back-blanks (c ∷ pad) h = ground (arith, trim_back-blanks pad h.1)

trim_back-digits : (ds pad : Bytes) → All IsDigit ds → All IsBlank pad → trim_back (ds ++ pad) ≡ ds
unfolding drop_while_back
trim_back-digits [] pad hd hp = trim_back-blanks pad hp
trim_back-digits (c ∷ ds) pad hd hp = ground (arith, trim_back-digits ds pad hd.1 hp)

all_digits-IsDigit : (ds : Bytes) → All IsDigit ds → all_digits ds ≡ true
unfolding all_digits
all_digits-IsDigit [] h = refl
all_digits-IsDigit (c ∷ ds) h = ground (arith, all_digits-IsDigit ds h.1)

trimmed_digits :
    (before : Bytes) (c : ℕ) (ds pad : Bytes)
    → All IsBlank before
    → All IsDigit (c ∷ ds)
    → All IsBlank pad
    → trim_back (trim_front (before ++ (c ∷ ds ++ pad))) ≡ c ∷ ds
unfolding drop_while
trimmed_digits before c ds pad hb hd hp =
    let front : trim_front (before ++ (c ∷ ds ++ pad)) ≡ c ∷ ds ++ pad =
      trim_front-blanks before (c ∷ ds ++ pad) hb ∙ ground arith in
    rw front (trim_back-digits (c ∷ ds) pad hd hp)

-- A number of seconds in a Retry-After header, blanks around it or not, is the delay that the error
-- carries exactly when it is below 2 ^ 31, for numbers below 2 ^ 63.
pub retry_after_iff :
    (before : Bytes) (c : ℕ) (ds pad : Bytes)
    → All IsBlank before
    → All IsDigit (c ∷ ds)
    → All IsBlank pad
    → value (c ∷ ds) < 2 ^ 63
    → (parse_retry_after_seconds (before ++ (c ∷ ds ++ pad)) ≡ pos (value (c ∷ ds)))
      ↔ (value (c ∷ ds) < 2 ^ 31)
unfolding parse_retry_after_seconds to_int32
retry_after_iff before c ds pad hb hd hp small =
    rw (trimmed_digits before c ds pad hb hd hp, all_digits-IsDigit (c ∷ ds) hd)
      (λ h. ground arith, λ h. ground arith)
