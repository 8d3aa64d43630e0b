-- ===== src/Send.antt =====
-- GDriveClientImpl::ExecuteWithRetry of src/gdrive_client.cpp, with the request that DoHttp makes of
-- it: one logical call, its retries and its single refresh of the token. Drive's answers are given as a
-- list, in the order of the requests. The wait between two rounds and the call counters are left out.
pub mod Attempts
pub mod Outcome
use duckdb_gdrive.Base.{
  ℕ, suc, Bool, true, false, not, ◌&&◌, ◌||◌, Option, none, some, List, [], ◌∷◌, ◌++◌, ltb, ◌==◌,
  if◌then◌else◌, ◌≡◌, refl, ◌⊎◌, inl, inr,
}
use duckdb_gdrive.Base.Text.{Bytes, codes, is_empty}
use duckdb_gdrive.Json.{Parser}
use duckdb_gdrive.Errors.{
  GDriveErrorKind, unauthenticated, transient, GDriveError, classify_drive_error, is_retryable,
}
use duckdb_gdrive.Client.{DriveResponse, RawResult, no_error}
use duckdb_gdrive.TokenPolicy.{should_resend_after_401}

pub data HttpMethod : Type 0 where
  get post patch delete put : HttpMethod

unfoldable pub is_idempotent : HttpMethod → Bool
is_idempotent get = true
is_idempotent delete = true
is_idempotent _ = false

abbrev pub Headers : Type 0
Headers = List (Bytes × Bytes)

pub record HttpRequest : Type 0 where
  pub method : HttpMethod
  pub path_and_query : Bytes
  pub headers : Headers
  pub body : Bytes
  pub content_type : Bytes

-- The arguments of ExecuteWithRetry.
pub record Call : Type 0 where
  pub method : HttpMethod
  pub path_and_query : Bytes
  pub extra_headers : Headers
  pub body : Bytes
  pub content_type : Bytes
  pub success_statuses : List ℕ
  pub retry_non_idempotent : Bool

-- A source of tokens: what Token and Refresh answer after a number of requests.
pub record TokenSource : Type 0 where
  pub token : ℕ → Bytes
  pub refresh : ℕ → Bytes → Bytes

abbrev pub max_attempts : ℕ
max_attempts = 5

abbrev carries_body : HttpMethod → Bool
carries_body get = false
carries_body delete = false
carries_body _ = true

-- DoHttp with with_auth: Get and Delete take no body.
unfoldable pub do_http : Bytes → Call → Bytes → HttpRequest
do_http quota_project_id call access_token = record {
  method = call.method;
  path_and_query = call.path_and_query;
  headers =
      (codes "Authorization", codes "Bearer " ++ access_token)
      ∷ ((if is_empty quota_project_id
            then []
            else (codes "x-goog-user-project", quota_project_id) ∷ [])
          ++ call.extra_headers);
  body = if carries_body call.method then call.body else [];
  content_type = if carries_body call.method then call.content_type else [];
}

abbrev pub found : ℕ → List ℕ → Bool
found status [] = false
found status (s ∷ statuses) = s == status || found status statuses

-- May the call be repeated when it is open what Drive did with it?
unfoldable pub is_repeatable : Call → Bool
unfolding is_idempotent
is_repeatable call = call.retry_non_idempotent || is_idempotent call.method

abbrev pub no_response_text : Bytes
no_response_text = codes "network transport failure (no response from Drive)"

abbrev pub may_be_changed_text : Bytes
may_be_changed_text =
    codes
      "network transport failure with no response from Drive; the change may or may not have been "
    ++ codes
        "applied. It was NOT retried automatically, because repeating a write whose outcome is unknown "
    ++ codes
        "can create a second file with the same name (a path with duplicate names cannot be addressed). "
    ++ codes "Check the destination before retrying."

unfoldable pub transport_failure : Call → DriveResponse
unfolding is_repeatable
transport_failure call = record {
  ok = false;
  http_status = 0;
  body = [];
  error = record no_error {
    kind = transient;
    message = if is_repeatable call then no_response_text else may_be_changed_text;
  };
  location = [];
}

-- What a round of the loop ends with: a response, another attempt, or a request with another token.
pub data Action : Type 0 where
  respond : DriveResponse → Action
  retry : Action
  resend : Bytes → Action

pub Action-cases :
    (a : Action)
    → ((r : DriveResponse) × (a ≡ respond r)) ⊎ ((a ≡ retry) ⊎ ((t : Bytes) × (a ≡ resend t)))
Action-cases (respond r) = inl (r, refl)
Action-cases retry = inr (inl refl)
Action-cases (resend t) = inr (inr (t, refl))

abbrev pub is_unauthenticated : GDriveErrorKind → Bool
is_unauthenticated unauthenticated = true
is_unauthenticated _ = false

module _ (parse : Parser) (quota_project_id : Bytes) (refresh : Bytes → Bytes) (call : Call) where
  -- A status that is no success.
  unfoldable pub rejected_action : RawResult → GDriveError → ℕ → Bytes → Bool → Action
  unfolding is_repeatable should_resend_after_401 is_retryable
  rejected_action raw err attempt access_token refreshed =
      if is_unauthenticated err.kind
        && (not refreshed && should_resend_after_401 refreshed access_token (refresh access_token))
      then resend (refresh access_token)
      else if is_retryable err.kind && (ltb attempt max_attempts && is_repeatable call)
      then retry
      else respond (record {
        ok = false;
        http_status = raw.status;
        body = raw.body;
        error = err;
        location = [];
      })

  unfoldable pub round : RawResult → ℕ → Bytes → Bool → Action
  unfolding rejected_action transport_failure is_repeatable
  round raw attempt access_token refreshed =
      if not raw.transport_ok
      then if is_repeatable call && ltb attempt max_attempts
        then retry
        else respond (transport_failure call)
      else if found raw.status call.success_statuses
      then respond (record {
        ok = true;
        http_status = raw.status;
        body = raw.body;
        error = no_error;
        location = raw.location;
      })
      else rejected_action raw (classify_drive_error parse raw.status raw.body raw.retry_after)
          attempt access_token refreshed

  -- The response, none while Drive still owes an answer, the requests made and the answers not read.
  unfoldable pub send_loop :
      List RawResult → ℕ → Bytes → Bool → Option DriveResponse × List HttpRequest × List RawResult
  unfolding round do_http
  send_loop [] attempt access_token refreshed =
      (none, do_http quota_project_id call access_token ∷ [], [])
  send_loop (raw ∷ raws) attempt access_token refreshed =
      elim (round raw attempt access_token refreshed) [
        | respond response ↦ (some response, do_http quota_project_id call access_token ∷ [], raws)
        | retry ↦
            let (response, sent, unread) = send_loop raws (suc attempt) access_token refreshed in
            (response, do_http quota_project_id call access_token ∷ sent, unread)
        | resend replacement ↦
            let (response, sent, unread) = send_loop raws attempt replacement true in
            (response, do_http quota_project_id call access_token ∷ sent, unread)
      ]

-- The source of tokens is asked at the time of the call, and once more after a 401.
unfoldable pub execute_with_retry :
    Parser
    → Bytes
    → TokenSource
    → Call
    → ℕ
    → List RawResult
    → Option DriveResponse × List HttpRequest × List RawResult
unfolding send_loop
execute_with_retry parse quota_project_id tokens call time answers =
    send_loop parse quota_project_id (tokens.refresh time) call answers 1 (tokens.token time) false
