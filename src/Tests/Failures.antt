-- ===== src/Tests/Failures.antt =====
-- Classification of Drive's errors on concrete data (src/gdrive_errors.cpp).
use duckdb_gdrive.Base.{◌<◌, ◌-◌, ◌≡◌, ◌↔◌, ◌^◌, refl, some, true, [], ◌++◌, arith}
use duckdb_gdrive.Base.Text.{eqb, codes}
use duckdb_gdrive.Base.Decimal.{value}
use duckdb_gdrive.Base.Int.{pos, negsuc}
use duckdb_gdrive.Json.{find, Parser, object, field, end, text, array, item, nil}
use duckdb_gdrive.Errors.{
  classify_from_reason, classify_drive_error, is_retryable, parse_error_body,
  parse_retry_after_seconds, rate_limit,
}
use duckdb_gdrive.Errors.Classes.{CanRetry, retryable_iff, retry_after_iff}

-- The body {"error": {"errors": [{"reason": "rateLimitExceeded"}]}}, whatever its text.
abbrev limited : Parser
limited _ = some (
    object (
      field (codes "error")
        (object (
          field (codes "errors")
            (array
              (item (object (field (codes "reason") (text (codes "rateLimitExceeded")) end)) nil))
            end))
        end))

retryable_iff_example :
    (is_retryable (classify_drive_error limited 403 (codes "{}") []).kind ≡ true)
    ↔ CanRetry 403 (parse_error_body limited (codes "{}"))
retryable_iff_example = retryable_iff limited 403 (codes "{}") []

limited_kind : (classify_drive_error limited 403 (codes "{}") []).kind ≡ rate_limit
unfolding classify_drive_error eqb find classify_from_reason
limited_kind = refl

retry_after_iff_example :
    (parse_retry_after_seconds (codes " " ++ (codes "30" ++ codes " ")) ≡ pos (value (codes "30")))
    ↔ (value (codes "30") < 2 ^ 31)
retry_after_iff_example =
    retry_after_iff (codes " ") b'3' (codes "0") (codes " ") (refl, tt)
      ((omega arith, omega arith), ((omega arith, omega arith), tt)) (refl, tt) (omega arith)

-- Above 2 ^ 31 - 1 the conversion to int wraps.
wrapped_delay : parse_retry_after_seconds (codes "2147483648") ≡ negsuc (2 ^ 31 - 1)
unfolding parse_retry_after_seconds
wrapped_delay = refl
