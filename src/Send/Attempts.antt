-- ===== src/Send/Attempts.antt =====
-- How often ExecuteWithRetry sends a call, and when it sends one again.
use duckdb_gdrive.Base.{
  ℕ, zero, suc, ◌+◌, ◌-◌, ◌≤◌, ◌<◌, ◌≡◌, ◌⊎◌, inl, inr, Bool, true, false, some, List, [], ◌∷◌,
  arith, if◌then◌else◌, length, take, All, ap, ◌∙◌,
}
use duckdb_gdrive.Base.Text.{Bytes}
use duckdb_gdrive.Json.{Parser}
use duckdb_gdrive.Errors.{GDriveErrorKind, unauthenticated, classify_drive_error}
use duckdb_gdrive.Client.{DriveResponse, RawResult}
use duckdb_gdrive.Send.{
  HttpRequest, do_http, Call, TokenSource, Action-cases, retry, resend, is_repeatable,
  is_unauthenticated, rejected_action, round, send_loop, execute_with_retry,
}

-- A 401, or whatever else the classification takes for one: Drive has done nothing.
abbrev pub IsUnauthenticated : Parser → RawResult → Type 0
IsUnauthenticated parse raw =
    (raw.transport_ok ≡ true)
    × ((classify_drive_error parse raw.status raw.body raw.retry_after).kind ≡ unauthenticated)

All-take-pred :
    (P : RawResult → Type 0) (x : RawResult) (xs : List RawResult) (n : ℕ)
    → P x
    → All P (take (n - 1) xs)
    → All P (take (suc n - 1) (x ∷ xs))
All-take-pred P x xs zero h hs = tt
All-take-pred P x xs (suc n) h hs =
    let here : suc (suc n) - 1 ≡ suc n = omega arith in
    let less : suc n - 1 ≡ n = omega arith in rw here (h, rw less at hs)

is_unauthenticated-eq :
    (kind : GDriveErrorKind) → is_unauthenticated kind ≡ true → kind ≡ unauthenticated
is_unauthenticated-eq kind h = ground arith

module _ (parse : Parser) (quota : Bytes) (refresh : Bytes → Bytes) (call : Call) where
  pub round-retry :
      (raw : RawResult) (attempt : ℕ) (token : Bytes) (refreshed : Bool)
      → round parse quota refresh call raw attempt token refreshed ≡ retry
      → (attempt < 5) × (is_repeatable call ≡ true)
  unfolding round rejected_action
  round-retry raw attempt token refreshed h = ground arith

  pub round-resend :
      (raw : RawResult) (attempt : ℕ) (token replacement : Bytes) (refreshed : Bool)
      → round parse quota refresh call raw attempt token refreshed ≡ resend replacement
      → (refreshed ≡ false) × IsUnauthenticated parse raw × (replacement ≡ refresh token)
  unfolding round rejected_action
  round-resend raw attempt token replacement refreshed h = ground (
    arith,
    is_unauthenticated-eq (classify_drive_error parse raw.status raw.body raw.retry_after).kind,
  )

  -- What may still be sent: the attempts that are left, and the one request after a 401.
  abbrev requests_left : ℕ → Bool → ℕ
  requests_left attempt refreshed = 6 - attempt + (if refreshed then 0 else 1)

  send_loop-bound :
      (raws : List RawResult) (attempt : ℕ) (token : Bytes) (refreshed : Bool)
      → attempt ≤ 5
      → length (send_loop parse quota refresh call raws attempt token refreshed).1
        ≤ requests_left attempt refreshed
  unfolding send_loop
  send_loop-bound [] attempt token refreshed h = omega arith
  send_loop-bound (raw ∷ raws) attempt token refreshed h =
      elim (Action-cases (round parse quota refresh call raw attempt token refreshed)) [
        | inl (r, e) ↦ rw (e, send_loop) (omega arith)
        | inr (inl e) ↦
            let more = round-retry raw attempt token refreshed e in
            rw (e, send_loop)
              (omega (arith, send_loop-bound raws (suc attempt) token refreshed more.0))
        | inr (inr (t, e)) ↦
            let once = round-resend raw attempt token t refreshed e in
            rw (e, send_loop, once.0) (omega (arith, send_loop-bound raws attempt t true h))
      ]

  send_loop-returns :
      (raws : List RawResult) (attempt : ℕ) (token : Bytes) (refreshed : Bool)
      → attempt ≤ 5
      → requests_left attempt refreshed ≤ length raws
      → (r : DriveResponse) × ((send_loop parse quota refresh call raws attempt token refreshed).0
          ≡ some r)
  unfolding send_loop
  send_loop-returns [] attempt token refreshed h enough = absurd (omega arith)
  send_loop-returns (raw ∷ raws) attempt token refreshed h enough =
      elim (Action-cases (round parse quota refresh call raw attempt token refreshed)) [
        | inl (r, e) ↦ (r, rw (e, send_loop))
        | inr (inl e) ↦
            let more = round-retry raw attempt token refreshed e in
            rw (e, send_loop)
              (send_loop-returns raws (suc attempt) token refreshed more.0 (omega arith))
        | inr (inr (t, e)) ↦
            let once = round-resend raw attempt token t refreshed e in
            rw (e, send_loop)
              (send_loop-returns raws attempt t true h (omega (arith, rw once.0 at enough)))
      ]

  send_loop-once :
      (raws : List RawResult) (attempt : ℕ) (token : Bytes) (refreshed : Bool)
      → is_repeatable call ≡ false
      → (length (send_loop parse quota refresh call raws attempt token refreshed).1
          ≤ 1 + (if refreshed then 0 else 1))
        × All (IsUnauthenticated parse) (
            take
              (length (send_loop parse quota refresh call raws attempt token refreshed).1 - 1)
              raws)
  unfolding send_loop
  send_loop-once [] attempt token refreshed h = (omega arith, tt)
  send_loop-once (raw ∷ raws) attempt token refreshed h =
      elim (Action-cases (round parse quota refresh call raw attempt token refreshed)) [
        | inl (r, e) ↦ rw (e, send_loop) (omega arith, tt)
        | inr (inl e) ↦ absurd (ground (arith, round-retry raw attempt token refreshed e))
        | inr (inr (t, e)) ↦
            let once = round-resend raw attempt token t refreshed e in
            let rest = send_loop-once raws attempt t true h in
            rw (e, send_loop, once.0)
              (
                omega (arith, rest.0),
                All-take-pred (IsUnauthenticated parse) raw raws
                    (length (send_loop parse quota refresh call raws attempt t true).1) once.1
                    rest.1,
              )
      ]

  abbrev pub IsRequest : Bytes → HttpRequest → Type 0
  IsRequest token q = (q ≡ do_http quota call token) ⊎ (q ≡ do_http quota call (refresh token))

  -- The token in use is the first one, or has taken its place.
  abbrev InUse : Bytes → Bytes → Bool → Type 0
  InUse first token refreshed = if refreshed then token ≡ refresh first else token ≡ first

  InUse-IsRequest :
      (first token : Bytes) (refreshed : Bool)
      → InUse first token refreshed
      → IsRequest first (do_http quota call token)
  InUse-IsRequest first token true h = inr (ap (do_http quota call) h)
  InUse-IsRequest first token false h = inl (ap (do_http quota call) h)

  send_loop-requests :
      (raws : List RawResult) (attempt : ℕ) (first token : Bytes) (refreshed : Bool)
      → InUse first token refreshed
      → All (IsRequest first) (send_loop parse quota refresh call raws attempt token refreshed).1
  unfolding send_loop
  send_loop-requests [] attempt first token refreshed h =
      (InUse-IsRequest first token refreshed h, tt)
  send_loop-requests (raw ∷ raws) attempt first token refreshed h =
      elim (Action-cases (round parse quota refresh call raw attempt token refreshed)) [
        | inl (r, e) ↦ rw (e, send_loop) (InUse-IsRequest first token refreshed h, tt)
        | inr (inl e) ↦
            rw (e, send_loop)
              (
                InUse-IsRequest first token refreshed h,
                send_loop-requests raws (suc attempt) first token refreshed h,
              )
        | inr (inr (t, e)) ↦
            let once = round-resend raw attempt token t refreshed e in
            let first_one : token ≡ first = rw once.0 at h in
            rw (e, send_loop)
              (
                InUse-IsRequest first token refreshed h,
                send_loop-requests raws attempt first t true (once.2 ∙ ap refresh first_one),
              )
      ]

module _ (parse : Parser) (quota : Bytes) (tokens : TokenSource) (call : Call) (time : ℕ)
    (answers : List RawResult) where
  -- ExecuteWithRetry returns once Drive has answered six requests of a call, at the latest, and it makes
  -- no more than six.
  pub execute_with_retry_returns :
      6 ≤ length answers
      → (r : DriveResponse) × ((execute_with_retry parse quota tokens call time answers).0 ≡ some r)
        × (length (execute_with_retry parse quota tokens call time answers).1 ≤ 6)
  unfolding execute_with_retry
  execute_with_retry_returns enough =
      let refresh = tokens.refresh time in
      let (r, returned) =
        send_loop-returns parse quota refresh call answers 1 (tokens.token time) false (omega arith)
          enough in
      (
        r,
        returned,
        send_loop-bound parse quota refresh call answers 1 (tokens.token time) false (omega arith),
      )

  -- A call that Drive may not get twice, since neither its method nor its caller allows it, is sent at
  -- most twice, and a second time only after Drive has refused the first for want of a valid token.
  pub execute_with_retry_once :
      is_repeatable call ≡ false
      → (length (execute_with_retry parse quota tokens call time answers).1 ≤ 2)
        × All
            (IsUnauthenticated parse)
            (take (length (execute_with_retry parse quota tokens call time answers).1 - 1) answers)
  unfolding execute_with_retry
  execute_with_retry_once h =
      send_loop-once parse quota (tokens.refresh time) call answers 1 (tokens.token time) false h

  -- The requests of one call are the same but for the token, which is the first one of the source or the
  -- one that it gives in its place after a 401.
  pub execute_with_retry_requests :
      All
        (IsRequest parse quota (tokens.refresh time) call (tokens.token time))
        (execute_with_retry parse quota tokens call time answers).1
  unfolding execute_with_retry
  execute_with_retry_requests =
      send_loop-requests parse quota (tokens.refresh time) call answers 1 (tokens.token time)
        (tokens.token time) false (λ i. tokens.token time)
