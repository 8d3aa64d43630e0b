-- ===== src/Errors.antt =====
-- src/gdrive_errors.cpp and src/include/gdrive_errors.hpp: the classification of a failed Drive
-- request. The JSON parser is a parameter.
pub mod Classes
use duckdb_gdrive.Base.{
  ℕ, ◌+◌, ◌-◌, ◌^◌, min, Bool, true, false, not, ◌&&◌, ◌||◌, Option, none, some, [], ◌∷◌, ltb, leb,
  ◌==◌, if◌then◌else◌, ◌>>=◌, List,
}
use duckdb_gdrive.Base.Text.{Bytes, codes, eqb, is_empty, drop_while, drop_while_back}
use duckdb_gdrive.Base.Decimal.{value}
use duckdb_gdrive.Base.Int.{ℤ, pos, to_int32}
use duckdb_gdrive.Json.{Json, Items, nil, item, Fields, Parser, find, as_text, as_array, as_object}

pub data GDriveErrorKind : Type 0 where
  not_found unauthenticated permission_denied insufficient_scope storage_quota : GDriveErrorKind
  rate_limit transient invalid_request not_downloadable unknown : GDriveErrorKind

pub record GDriveError : Type 0 where
  pub kind : GDriveErrorKind
  pub http_status : ℕ
  pub reason : Bytes
  pub message : Bytes
  pub retry_after_seconds : ℤ

pub record ParsedBody : Type 0 where
  pub reason : Bytes
  pub message : Bytes
  pub detail_reason : Bytes
  pub ok : Bool

abbrev pub empty_body : ParsedBody
empty_body = record { reason = []; message = []; detail_reason = []; ok = false }

-- The string under a key, or the empty string where there is none.
text_field : Bytes → Fields → Bytes
text_field key fs = elim (find key fs >>= as_text) [ none ↦ [] | some s ↦ s ]

-- errors[0].reason
first_reason : Items → Bytes
unfolding text_field
first_reason nil = []
first_reason (item v rest) = elim (as_object v) [
  | none ↦ []
  | some fs ↦ text_field (codes "reason") fs
]

-- The first string `reason` among the details.
detail_reason : Items → Bytes
detail_reason nil = []
detail_reason (item v rest) = elim (as_object v >>= λ fs. find (codes "reason") fs >>= as_text) [
  | none ↦ detail_reason rest
  | some s ↦ s
]

under : Bytes → (Items → Bytes) → Fields → Bytes
under key read fs = elim (find key fs >>= as_array) [ none ↦ [] | some xs ↦ read xs ]

read_error : Option Fields → ParsedBody
unfolding text_field first_reason detail_reason under
read_error none = empty_body
read_error (some fs) = record {
  reason = under (codes "errors") first_reason fs;
  message = text_field (codes "message") fs;
  detail_reason = under (codes "details") detail_reason fs;
  ok = true;
}

unfoldable pub parse_error_body : Parser → Bytes → ParsedBody
unfolding read_error
parse_error_body parse [] = empty_body
parse_error_body parse (c ∷ cs) =
    read_error (parse (c ∷ cs) >>= as_object >>= λ top. find (codes "error") top >>= as_object)

-- find_first_not_of and find_last_not_of over " \t"
abbrev is_blank : ℕ → Bool
is_blank c = c == b' ' || c == 9

abbrev trim_front : Bytes → Bytes
trim_front = drop_while is_blank

abbrev trim_back : Bytes → Bytes
trim_back = drop_while_back is_blank

abbrev is_digit : ℕ → Bool
is_digit c = leb b'0' c && leb c b'9'

all_digits : Bytes → Bool
all_digits [] = true
all_digits (c ∷ s) = is_digit c && all_digits s

-- strtol in base ten stops at the largest value of a 64-bit long.
unfoldable pub parse_retry_after_seconds : Bytes → ℤ
unfolding drop_while drop_while_back all_digits to_int32
parse_retry_after_seconds header =
    let trimmed = trim_back (trim_front header) in
    if is_empty trimmed || not (all_digits trimmed)
    then pos 0
    else to_int32 (min (value trimmed) (2 ^ 63 - 1))

unfoldable pub classify_from_reason : Bytes → GDriveErrorKind
classify_from_reason reason =
    if eqb reason (codes "notFound")
    then not_found
    else if eqb reason (codes "authError") || eqb reason (codes "required")
    then unauthenticated
    else if eqb reason (codes "insufficientPermissions")
        || eqb reason (codes "insufficientFilePermissions")
    then permission_denied
    else if eqb reason (codes "storageQuotaExceeded")
    then storage_quota
    else if eqb reason (codes "rateLimitExceeded") || eqb reason (codes "userRateLimitExceeded")
    then rate_limit
    else if eqb reason (codes "fileNotDownloadable")
        || eqb reason (codes "cannotDownloadAbusiveFile")
    then not_downloadable
    else if eqb reason (codes "invalidParameter") || eqb reason (codes "invalid")
    then invalid_request
    else unknown

unfoldable pub classify_from_status : ℕ → GDriveErrorKind
classify_from_status http_status =
    if http_status == 404
    then not_found
    else if http_status == 401
    then unauthenticated
    else if http_status == 400
    then invalid_request
    else if http_status == 429
    then rate_limit
    else if leb 500 http_status && ltb http_status 600
    then transient
    else unknown

unfoldable pub is_retryable : GDriveErrorKind → Bool
is_retryable rate_limit = true
is_retryable transient = true
is_retryable _ = false

-- The kind by the body's reason, where that decides it.
known_kind : GDriveErrorKind → GDriveErrorKind → GDriveErrorKind
known_kind unknown other = other
known_kind kind other = kind

unfoldable pub classify_kind : ℕ → ParsedBody → GDriveErrorKind
unfolding known_kind
classify_kind http_status parsed =
    if eqb parsed.detail_reason (codes "ACCESS_TOKEN_SCOPE_INSUFFICIENT")
    then insufficient_scope
    else if http_status == 429
    then rate_limit
    else if not (is_empty parsed.reason)
    then known_kind (classify_from_reason parsed.reason) (classify_from_status http_status)
    else classify_from_status http_status

unfoldable pub classify_drive_error : Parser → ℕ → Bytes → Bytes → GDriveError
unfolding classify_kind parse_error_body parse_retry_after_seconds
classify_drive_error parse http_status body retry_after_header =
    let parsed = parse_error_body parse body in
    record {
      kind = classify_kind http_status parsed;
      http_status = http_status;
      reason = parsed.reason;
      message = parsed.message;
      retry_after_seconds = parse_retry_after_seconds retry_after_header;
    }

pub data GDriveExceptionType : Type 0 where
  io permission invalid_input : GDriveExceptionType

unfoldable pub exception_type_for : GDriveErrorKind → GDriveExceptionType
exception_type_for permission_denied = permission
exception_type_for insufficient_scope = permission
exception_type_for invalid_request = invalid_input
exception_type_for _ = io
