-- ===== src/Message.antt =====
-- FormatUserMessage of src/gdrive_errors.cpp: the text that a user is shown for a failed request.
pub mod Shown
use duckdb_gdrive.Base.{ℕ, Bool, true, false, not, ◌&&◌, [], ◌∷◌, ◌++◌, List, ltb, if◌then◌else◌}
use duckdb_gdrive.Base.Text.{Bytes, codes, is_empty}
use duckdb_gdrive.Base.Decimal.{to_string}
use duckdb_gdrive.Base.Int.{ℤ, pos, negsuc}
use duckdb_gdrive.Errors.{
  GDriveErrorKind, not_found, unauthenticated, permission_denied, insufficient_scope, storage_quota,
  rate_limit, transient, invalid_request, not_downloadable, unknown, GDriveError,
}
use duckdb_gdrive.Redact.{redact_credentials}

-- A line and its end.
line : Bytes → Bytes → Bytes
line text rest = text ++ (10 ∷ rest)

retry_advice : ℤ → Bytes
retry_advice (pos n) =
    if ltb 0 n
    then codes " and can be retried after " ++ to_string n ++ codes " second(s)"
    else codes "; retry with backoff"
retry_advice (negsuc n) = codes "; retry with backoff"

scope_advice : Bytes
unfolding line
scope_advice =
    line
      (codes
        ": the access token was not granted a Google Drive scope. This is not a file-sharing problem.")
      (line (codes "If the credential came from gcloud, request the Drive scope explicitly:") (
        line (codes "  gcloud auth application-default login " ++ (92 ∷ [])) (
          line (codes "    --scopes=openid,https://www.googleapis.com/auth/drive") (
            line (codes "(gcloud's default scope, cloud-platform, does not include Drive.)") (
              codes "For a gdrive secret, set DRIVE_SCOPE to a Drive scope such as "
              ++ codes "'https://www.googleapis.com/auth/drive'.")))))

explanation : GDriveErrorKind → ℤ → Bytes → Bytes
unfolding retry_advice scope_advice
explanation not_found after context = codes "no such file: " ++ context
explanation unauthenticated after context =
    codes "authentication failed for "
    ++ context
    ++ codes ": the credential is missing, malformed, or expired; "
    ++ codes "re-authenticate (recreate the gdrive access configuration) and retry"
explanation permission_denied after context =
    codes "permission denied for "
    ++ context
    ++ codes ": the authenticated identity does not have sufficient access to this file"
explanation insufficient_scope after context =
    codes "insufficient OAuth scope for " ++ context ++ scope_advice
explanation storage_quota after context =
    codes "Drive storage quota exceeded while accessing "
    ++ context
    ++ codes ": the account has no storage quota available to complete this write "
    ++ codes "(service accounts do not have storage quota outside a Shared Drive)"
explanation rate_limit after context =
    codes "Drive API quota exceeded while accessing "
    ++ context
    ++ codes ": this request was rate-limited"
    ++ retry_advice after
explanation transient after context =
    codes "temporary Drive API failure while accessing " ++ context ++ codes ": retry with backoff"
explanation invalid_request after context =
    codes "invalid Drive API request for "
    ++ context
    ++ codes " (internal error, not a user mistake)"
explanation not_downloadable after context =
    context ++ codes " has no downloadable content (a native Google format); export it instead"
explanation unknown after context = codes "Drive API request failed for " ++ context

is_unauthenticated : GDriveErrorKind → Bool
is_unauthenticated unauthenticated = true
is_unauthenticated _ = false

-- Drive's own words, where they may be shown.
drive_words : GDriveErrorKind → Bytes → Bytes
unfolding redact_credentials is_unauthenticated
drive_words kind message =
    if not (is_empty message) && not (is_unauthenticated kind)
    then codes " (" ++ redact_credentials message ++ codes ")"
    else []

unfoldable pub format_user_message : GDriveError → Bytes → Bytes
unfolding redact_credentials explanation drive_words
format_user_message error context = redact_credentials (
    explanation error.kind error.retry_after_seconds context
    ++ drive_words error.kind error.message)
