-- ===== src/Send/Outcome.antt =====
-- What the response of ExecuteWithRetry says of Drive's answers.
use duckdb_gdrive.Base.{
  ℕ, suc, ◌≡◌, refl, ◌⊎◌, inl, inr, Bool, true, false, none, some, List, [], ◌∷◌, ◌++◌, arith,
  length, ap, All, ◌||◌, Bool-cases,
}
use duckdb_gdrive.Base.Text.{Bytes}
use duckdb_gdrive.Json.{Parser}
use duckdb_gdrive.Errors.{transient, classify_drive_error}
use duckdb_gdrive.Client.{DriveResponse, RawResult}
use duckdb_gdrive.Send.{
  Call, TokenSource, Action-cases, respond, found, transport_failure, rejected_action, round,
  send_loop, execute_with_retry, HttpMethod, get, post, patch, delete, put, HttpRequest, do_http,
  is_idempotent, is_repeatable, no_response_text, may_be_changed_text,
}

-- The answer carries out the call: its status is one of those that the call asks for.
abbrev pub Succeeds : Call → RawResult → DriveResponse → Type 0
Succeeds call raw r =
    (raw.transport_ok ≡ true)
    × (found raw.status call.success_statuses ≡ true)
    × (r.ok ≡ true)
    × (r.http_status ≡ raw.status)
    × (r.body ≡ raw.body)
    × (r.location ≡ raw.location)

abbrev pub Fails : Parser → Call → RawResult → DriveResponse → Type 0
Fails parse call raw r =
    (raw.transport_ok ≡ true)
    × (found raw.status call.success_statuses ≡ false)
    × (r.ok ≡ false)
    × (r.http_status ≡ raw.status)
    × (r.error ≡ classify_drive_error parse raw.status raw.body raw.retry_after)

-- It does no harm to send the call again: it reads or deletes, or its caller says so.
abbrev pub MayRepeat : Call → Type 0
MayRepeat call = (call.retry_non_idempotent ≡ true) ⊎ ((call.method ≡ get) ⊎ (call.method ≡ delete))

-- No answer came: the failure says that nothing came where the call may be repeated, and else that the
-- change may or may not have been made.
abbrev pub Drops : Call → RawResult → DriveResponse → Type 0
Drops call raw r =
    (raw.transport_ok ≡ false)
    × (r.ok ≡ false)
    × (r.http_status ≡ 0)
    × (r.error.kind ≡ transient)
    × ((MayRepeat call × (r.error.message ≡ no_response_text))
        ⊎ ((¬ MayRepeat call) × (r.error.message ≡ may_be_changed_text)))

abbrev pub Concludes : Parser → Call → RawResult → DriveResponse → Type 0
Concludes parse call raw r = Succeeds call raw r ⊎ (Fails parse call raw r ⊎ Drops call raw r)

module _ (parse : Parser) (quota : Bytes) (refresh : Bytes → Bytes) (call : Call) where
  is_repeatable-cases :
      ((is_repeatable call ≡ true) × MayRepeat call)
      ⊎ ((is_repeatable call ≡ false) × (¬ MayRepeat call))
  unfolding is_repeatable is_idempotent
  is_repeatable-cases = by_parts call.retry_non_idempotent call.method
    where
      by_parts :
          (again : Bool) (m : HttpMethod)
          → (((again || is_idempotent m) ≡ true) × ((again ≡ true) ⊎ ((m ≡ get) ⊎ (m ≡ delete))))
            ⊎ (((again || is_idempotent m) ≡ false)
                × (¬ ((again ≡ true) ⊎ ((m ≡ get) ⊎ (m ≡ delete)))))
      by_parts true m = inl (refl, inl refl)
      by_parts false get = inl (refl, inr (inl refl))
      by_parts false delete = inl (refl, inr (inr refl))
      by_parts false post =
          inr (refl, λ h. elim h [ inl e ↦ cc | inr (inl e) ↦ cc | inr (inr e) ↦ cc ])
      by_parts false patch =
          inr (refl, λ h. elim h [ inl e ↦ cc | inr (inl e) ↦ cc | inr (inr e) ↦ cc ])
      by_parts false put =
          inr (refl, λ h. elim h [ inl e ↦ cc | inr (inl e) ↦ cc | inr (inr e) ↦ cc ])

  transport_failure-Drops :
      (raw : RawResult) (r : DriveResponse)
      → raw.transport_ok ≡ false
      → r ≡ transport_failure call
      → Drops call raw r
  unfolding transport_failure
  transport_failure-Drops raw r lost e = elim is_repeatable-cases [
    | inl (again, may) ↦ rw e (lost, refl, refl, refl, inl (may, rw again refl))
    | inr (once, never) ↦ rw e (lost, refl, refl, refl, inr (never, rw once refl))
  ]

  round-respond :
      (raw : RawResult) (attempt : ℕ) (token : Bytes) (refreshed : Bool) (r : DriveResponse)
      → round parse quota refresh call raw attempt token refreshed ≡ respond r
      → Concludes parse call raw r
  unfolding round rejected_action
  round-respond raw attempt token refreshed r h = elim (Bool-cases raw.transport_ok) [
    | inl came ↦ ground (arith, came)
    | inr lost ↦ inr (inr (transport_failure-Drops raw r lost (ground arith)))
  ]

  -- Every request of a call is one for its path.
  send_loop-path :
      (raws : List RawResult) (attempt : ℕ) (token : Bytes) (refreshed : Bool)
      → All
          (λ (sent : HttpRequest).
            (sent.method ≡ call.method) × (sent.path_and_query ≡ call.path_and_query))
          (send_loop parse quota refresh call raws attempt token refreshed).1
  unfolding send_loop do_http
  send_loop-path [] attempt token refreshed = ((refl, refl), tt)
  send_loop-path (raw ∷ raws) attempt token refreshed =
      elim (Action-cases (round parse quota refresh call raw attempt token refreshed)) [
        | inl (r, e) ↦ rw (e, send_loop) ((refl, refl), tt)
        | inr (inl e) ↦
            rw (e, send_loop) ((refl, refl), send_loop-path raws (suc attempt) token refreshed)
        | inr (inr (t, e)) ↦ rw (e, send_loop) ((refl, refl), send_loop-path raws attempt t true)
      ]

  send_loop-Concludes :
      (raws : List RawResult) (attempt : ℕ) (token : Bytes) (refreshed : Bool) (r : DriveResponse)
      → (send_loop parse quota refresh call raws attempt token refreshed).0 ≡ some r
      → (before : List RawResult) × (answer : RawResult) × (raws
          ≡ before ++ answer ∷ (send_loop parse quota refresh call raws attempt token refreshed).2)
        × (length (send_loop parse quota refresh call raws attempt token refreshed).1
            ≡ suc (length before))
        × Concludes parse call answer r
  unfolding send_loop
  send_loop-Concludes [] attempt token refreshed r h = cc
  send_loop-Concludes (raw ∷ raws) attempt token refreshed r h =
      elim (Action-cases (round parse quota refresh call raw attempt token refreshed)) [
        | inl (r', e) ↦
            let same : some r' ≡ some r = rw (e, send_loop) at h in
            rw (e, send_loop)
              ([], raw, refl, refl, round-respond raw attempt token refreshed r (cc))
        | inr (inl e) ↦
            let (before, answer, split, count, verdict) =
              send_loop-Concludes raws (suc attempt) token refreshed r (rw (e, send_loop) at h) in
            rw (e, send_loop) (raw ∷ before, answer, ap (◌∷◌ raw) split, ap suc count, verdict)
        | inr (inr (t, e)) ↦
            let (before, answer, split, count, verdict) =
              send_loop-Concludes raws attempt t true r (rw (e, send_loop) at h) in
            rw (e, send_loop) (raw ∷ before, answer, ap (◌∷◌ raw) split, ap suc count, verdict)
      ]

  send_loop-owes :
      (raws : List RawResult) (attempt : ℕ) (token : Bytes) (refreshed : Bool)
      → (send_loop parse quota refresh call raws attempt token refreshed).0 ≡ none
      → (send_loop parse quota refresh call raws attempt token refreshed).2 ≡ []
  unfolding send_loop
  send_loop-owes [] attempt token refreshed h = refl
  send_loop-owes (raw ∷ raws) attempt token refreshed h =
      elim (Action-cases (round parse quota refresh call raw attempt token refreshed)) [
        | inl (r, e) ↦ absurd (cc (rw (e, send_loop) at h))
        | inr (inl e) ↦
            rw (e, send_loop)
              (send_loop-owes raws (suc attempt) token refreshed (rw (e, send_loop) at h))
        | inr (inr (t, e)) ↦
            rw (e, send_loop) (send_loop-owes raws attempt t true (rw (e, send_loop) at h))
      ]

-- Every request of ExecuteWithRetry is one for the path of its call.
pub execute_with_retry_path :
    (parse : Parser) (quota : Bytes) (tokens : TokenSource) (call : Call) (time : ℕ)
    (answers : List RawResult)
    → All
        (λ (sent : HttpRequest).
          (sent.method ≡ call.method) × (sent.path_and_query ≡ call.path_and_query))
        (execute_with_retry parse quota tokens call time answers).1
unfolding execute_with_retry
execute_with_retry_path parse quota tokens call time answers =
    send_loop-path parse quota (tokens.refresh time) call answers 1 (tokens.token time) false

pub execute_with_retry_owes :
    (parse : Parser) (quota : Bytes) (tokens : TokenSource) (call : Call) (time : ℕ)
    (answers : List RawResult)
    → (execute_with_retry parse quota tokens call time answers).0 ≡ none
    → (execute_with_retry parse quota tokens call time answers).2 ≡ []
unfolding execute_with_retry
execute_with_retry_owes parse quota tokens call time answers =
    send_loop-owes parse quota (tokens.refresh time) call answers 1 (tokens.token time) false

-- The response of ExecuteWithRetry is that of Drive's answer to its last request: a success has one of
-- the statuses that the call asks for, and the answer's body and Location; a status of another kind is
-- reported with its classification; where no answer came, the failure says that none came, for a call that may
-- be repeated, and else that the change may or may not have been made.
pub execute_with_retry_answered :
    (parse : Parser) (quota : Bytes) (tokens : TokenSource) (call : Call) (time : ℕ)
    (answers : List RawResult) (r : DriveResponse)
    → (execute_with_retry parse quota tokens call time answers).0 ≡ some r
    → (before : List RawResult) × (answer : RawResult) × (answers
        ≡ before ++ answer ∷ (execute_with_retry parse quota tokens call time answers).2)
      × (length (execute_with_retry parse quota tokens call time answers).1 ≡ suc (length before))
      × Concludes parse call answer r
unfolding execute_with_retry
execute_with_retry_answered parse quota tokens call time answers r h =
    send_loop-Concludes parse quota (tokens.refresh time) call answers 1 (tokens.token time) false r
      h
