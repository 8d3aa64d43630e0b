-- ===== src/UploadChunk/Outcome.antt =====
-- How UploadChunk ends: after how many answers, with which verdict, and what it then knows of Drive.
use duckdb_gdrive.Base.{
  ℕ, suc, ◌+◌, ◌*◌, ◌^◌, ◌≤◌, ◌<◌, ◌≡◌, refl, ◌⊎◌, inl, inr, Bool, true, false, ◌&&◌, ◌||◌, none,
  some, List, [], ◌∷◌, ◌++◌, arith, length, take, Option-cases, ap, ◌∙◌, subst,
}
use duckdb_gdrive.Base.Text.{Bytes}
use duckdb_gdrive.Json.{Parser}
use duckdb_gdrive.Client.{DriveResponse, RawResult}
use duckdb_gdrive.UploadPlan.{ChunkedUploadBuffer, parse_drive_range_next, drive_session_path}
use duckdb_gdrive.UploadStep.{
  ChunkUploadState, UploadStep, UploadStepKind, done, accepted, send, ask_status, fail,
  next_upload_step, initial_state,
}
use duckdb_gdrive.UploadStep.Progress.{
  goes_on, IsUnderway, held_after, rounds_left, next_upload_step-progress,
}
use duckdb_gdrive.UploadStep.Verdicts.{lost, done_iff, accepted_iff, ambiguous_iff}
use duckdb_gdrive.UploadChunk.{
  reply_of, response_of, failure_error, chunk_loop, upload_chunk, may_be_applied,
}

module _ (parse : Parser) where
  -- Drive never acknowledges fewer bytes than it did before.
  abbrev pub NeverForgets : ℕ → List RawResult → Type 0
  NeverForgets held [] = Unit
  NeverForgets held (raw ∷ raws) =
      (held ≤ held_after held (reply_of parse raw))
      × NeverForgets (held_after held (reply_of parse raw)) raws

  response_of-none :
      (raw : RawResult) (step : UploadStep) (kind : UploadStepKind)
      → response_of parse raw step kind ≡ none
      → goes_on kind ≡ true
  unfolding response_of
  response_of-none raw step done h = cc
  response_of-none raw step accepted h = cc
  response_of-none raw step send h = refl
  response_of-none raw step ask_status h = refl
  response_of-none raw step fail h = cc

  module _ (path : Bytes) (buf : ChunkedUploadBuffer) (final : Bool)
      (fits : buf.offset + length buf.pending < 2 ^ 64) where
    chunk_loop_ends :
        (raws : List RawResult) (state : ChunkUploadState) (kind : UploadStepKind)
        → IsUnderway buf state
        → NeverForgets (buf.offset + state.skip) raws
        → rounds_left buf state < length raws
        → (r : DriveResponse) × ((chunk_loop parse path buf final raws state kind).0 ≡ some r)
    unfolding chunk_loop
    chunk_loop_ends [] state kind v keeps h = absurd (omega arith)
    chunk_loop_ends (raw ∷ raws) state kind v keeps h =
        elim (Option-cases (response_of parse raw step step.kind)) [
          | inr (r, e) ↦ (r, rw (e, chunk_loop))
          | inl e ↦
              let (v', moved, fewer) =
                next_upload_step-progress buf final state (reply_of parse raw) fits v keeps.0
                  (response_of-none raw step step.kind e) in
              let (r, result) =
                chunk_loop_ends raws state' step.kind v' (rw moved keeps.1) (omega arith) in
              (r, rw (e, chunk_loop) result)
        ]
      where
        step : UploadStep
        step = (next_upload_step buf final state (reply_of parse raw)).0

        state' : ChunkUploadState
        state' = (next_upload_step buf final state (reply_of parse raw)).1

  failure_error_ambiguous :
      (raw : RawResult) (step : UploadStep)
      → step.ambiguous ≡ true
      → failure_error parse raw step ≡ may_be_applied
  unfolding failure_error
  failure_error_ambiguous raw step h = rw h

  -- Some of these answers left it open what Drive did with the request.
  abbrev pub any_lost : List RawResult → Bool
  any_lost [] = false
  any_lost (raw ∷ raws) = lost (reply_of parse raw) || any_lost raws

  module _ (path : Bytes) (buf : ChunkedUploadBuffer) (final : Bool) where
    abbrev after : ChunkUploadState → RawResult → UploadStep × ChunkUploadState
    after state raw = next_upload_step buf final state (reply_of parse raw)

    -- The answer at which the loop stopped, and the state that it met.
    record Stop (raws : List RawResult) (state : ChunkUploadState) (rounds : ℕ) (r : DriveResponse)
        : Type 0 where
      before : List RawResult
      answer : RawResult
      unread : List RawResult
      met : ChunkUploadState
      split : raws ≡ before ++ answer ∷ unread
      count : rounds ≡ suc (length before)
      verdict : response_of parse answer (after met answer).0 (after met answer).0.kind ≡ some r
      memory : met.final_maybe_sent ≡ (state.final_maybe_sent || (final && any_lost before))

    chunk_loop-Stop :
        (raws : List RawResult) (state : ChunkUploadState) (kind : UploadStepKind)
        (r : DriveResponse)
        → (chunk_loop parse path buf final raws state kind).0 ≡ some r
        → Stop raws state (length (chunk_loop parse path buf final raws state kind).1) r
    unfolding chunk_loop
    chunk_loop-Stop [] state kind r h = cc
    chunk_loop-Stop (raw ∷ raws) state kind r h =
        elim (Option-cases (response_of parse raw step step.kind)) [
          | inr (r', e) ↦
              rw (e, chunk_loop)
                (record {
                  before = [];
                  answer = raw;
                  unread = raws;
                  met = state;
                  split = refl;
                  count = omega arith;
                  verdict = e ∙ rw (e, chunk_loop) at h;
                  memory = ground arith;
                })
          | inl e ↦
              let s = chunk_loop-Stop raws state' step.kind r (rw (e, chunk_loop) at h) in
              rw (e, chunk_loop)
                (record {
                  before = raw ∷ s.before;
                  answer = s.answer;
                  unread = s.unread;
                  met = s.met;
                  split = ap (◌∷◌ raw) s.split;
                  count = omega (arith, s.count);
                  verdict = s.verdict;
                  memory =
                      ground (arith, s.memory, ambiguous_iff buf final state (reply_of parse raw));
                })
        ]
      where
        step : UploadStep
        step = (after state raw).0

        state' : ChunkUploadState
        state' = (after state raw).1

    response_ok :
        (raw : RawResult) (step : UploadStep) (kind : UploadStepKind) (r : DriveResponse)
        → response_of parse raw step kind ≡ some r
        → r.ok ≡ true
        → ((kind ≡ done) × (r.body ≡ raw.body)) ⊎ (kind ≡ accepted)
    unfolding response_of
    response_ok raw step done r e h = inl (refl, ground arith)
    response_ok raw step accepted r e h = inr refl
    response_ok raw step send r e h = cc
    response_ok raw step ask_status r e h = cc
    response_ok raw step fail r e h = ground arith

    response_failed :
        (raw : RawResult) (step : UploadStep) (kind : UploadStepKind) (r : DriveResponse)
        → response_of parse raw step kind ≡ some r
        → r.ok ≡ false
        → (kind ≡ fail) × (r.error ≡ failure_error parse raw step)
    unfolding response_of
    response_failed raw step done r e h = ground arith
    response_failed raw step accepted r e h = ground arith
    response_failed raw step send r e h = cc
    response_failed raw step ask_status r e h = cc
    response_failed raw step fail r e h = (refl, ground arith)

    any_lost-stop :
        (before : List RawResult) (raw : RawResult) (unread : List RawResult)
        → any_lost (take (suc (length before)) (before ++ raw ∷ unread))
          ≡ (any_lost before || lost (reply_of parse raw))
    any_lost-stop [] raw unread = ground arith
    any_lost-stop (x ∷ before) raw unread = ground (arith, any_lost-stop before raw unread)

    Stop-ambiguous :
        (raws : List RawResult) (n : ℕ) (r : DriveResponse)
        → Stop raws initial_state n r
        → r.ok ≡ false
        → final ≡ true
        → any_lost (take n raws) ≡ true
        → r.error ≡ may_be_applied
    Stop-ambiguous raws n r s h f some_lost =
        let step = (after s.met s.answer).0 in
        let failed : (step.kind ≡ fail) × (r.error ≡ failure_error parse s.answer step) =
          response_failed s.answer step step.kind r s.verdict h in
        failed.1
        ∙ failure_error_ambiguous s.answer step (
            ground (
              arith,
              s.memory,
              seen,
              any_lost-stop s.before s.answer s.unread,
              ambiguous_iff buf final s.met (reply_of parse s.answer),
            ))
      where
        seen : any_lost (take (suc (length s.before)) (s.before ++ s.answer ∷ s.unread)) ≡ true
        seen =
            subst (λ (xs : List RawResult). any_lost (take (suc (length s.before)) xs) ≡ true)
              s.split (subst (λ (k : ℕ). any_lost (take k raws) ≡ true) s.count some_lost)

module _ (parse : Parser) (session_uri path : Bytes) (buf : ChunkedUploadBuffer) (final : Bool)
    (answers : List RawResult) (accepted_uri : drive_session_path session_uri ≡ some path) where
  -- UploadChunk returns once Drive has answered more than 10 + 6 n times for a chunk of n bytes, at the
  -- latest, as long as the session URI is accepted, Drive takes no acknowledgement back and the upload
  -- has less than 2 ^ 64 bytes.
  pub upload_chunk_returns :
      buf.offset + length buf.pending < 2 ^ 64
      → NeverForgets parse buf.offset answers
      → 10 + 6 * length buf.pending < length answers
      → (r : DriveResponse) × ((upload_chunk parse session_uri buf final answers).0 ≡ some r)
  unfolding upload_chunk
  upload_chunk_returns fits keeps enough =
      let start : buf.offset + 0 ≡ buf.offset = omega arith in
      rw (accepted_uri, upload_chunk)
        (chunk_loop_ends parse path buf final fits answers initial_state send
          (record {
            skip_within = omega arith;
            stalls_within = omega arith;
            failures_within = omega arith;
          })
          (rw start keeps) (omega arith))

  -- On a session URI that is accepted, for an upload of less than 2 ^ 64 bytes, a success of UploadChunk
  -- is Drive's own word, in the answer to the last request: the final chunk was answered 200 or 201 and
  -- the response is that answer's body; any other chunk is held by Drive to its last byte.
  pub upload_chunk_ok :
      (r : DriveResponse)
      → buf.offset + length buf.pending < 2 ^ 64
      → (upload_chunk parse session_uri buf final answers).0 ≡ some r
      → r.ok ≡ true
      → (before : List RawResult) × (answer : RawResult) × (unread : List RawResult) × (answers
          ≡ before ++ answer ∷ unread)
        × (length (upload_chunk parse session_uri buf final answers).1 ≡ suc (length before))
        × (answer.transport_ok ≡ true)
        × (((final ≡ true)
              × ((answer.status ≡ 200) ⊎ (answer.status ≡ 201))
              × (r.body ≡ answer.body))
            ⊎ ((final ≡ false)
                × (answer.status ≡ 308)
                × (parse_drive_range_next answer.range ≡ some (buf.offset + length buf.pending))))
  unfolding upload_chunk reply_of
  upload_chunk_ok r fits e h =
      let s =
        chunk_loop-Stop parse path buf final answers initial_state send r
          (rw (accepted_uri, upload_chunk) at e) in
      rw (accepted_uri, upload_chunk)
        (
          s.before,
          s.answer,
          s.unread,
          s.split,
          s.count,
          ground (
            arith,
            response_ok parse path buf final s.answer _ _ r s.verdict h,
            done_iff buf final s.met (reply_of parse s.answer),
            accepted_iff buf final s.met (reply_of parse s.answer) fits,
          ),
          ground (
            arith,
            response_ok parse path buf final s.answer _ _ r s.verdict h,
            done_iff buf final s.met (reply_of parse s.answer),
            accepted_iff buf final s.met (reply_of parse s.answer) fits,
          ),
        )

  -- On a session URI that is accepted, a final chunk that fails after one of its requests got no answer,
  -- or a 5xx, is reported as one that may have been applied.
  pub upload_chunk_ambiguous :
      (r : DriveResponse)
      → final ≡ true
      → (upload_chunk parse session_uri buf final answers).0 ≡ some r
      → r.ok ≡ false
      → any_lost parse (take (length (upload_chunk parse session_uri buf final answers).1) answers)
        ≡ true
      → r.error ≡ may_be_applied
  unfolding upload_chunk
  upload_chunk_ambiguous r f e h some_lost =
      Stop-ambiguous parse path buf final answers _ r
        (chunk_loop-Stop parse path buf final answers initial_state send r
          (rw (accepted_uri, upload_chunk) at e))
        h f (rw (accepted_uri, upload_chunk) at some_lost)
