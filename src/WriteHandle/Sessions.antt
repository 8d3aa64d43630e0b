-- ===== src/WriteHandle/Sessions.antt =====
-- To which upload session a write handle sends its chunks (Write, SendUploadChunk).
use duckdb_gdrive.Base.{
  ℕ, zero, suc, ◌≡◌, refl, sym, ap, subst, not, ◌||◌, ◌∙◌, ◌⊎◌, inl, inr, Bool, true, false,
  if◌then◌else◌, Option, none, some, List, [], ◌∷◌, ◌++◌, All, All-append, append_assoc, Bool-cases,
  Option-cases, drop, length,
}
use duckdb_gdrive.Base.Text.{Bytes, is_empty}
use duckdb_gdrive.Client.{DriveResponse}
use duckdb_gdrive.UploadPlan.{ChunkedUploadBuffer, full}
use duckdb_gdrive.UploadPlan.Filling.{fill_lem}
use duckdb_gdrive.WriteHandle.{
  ClientCall, sends_chunk, start_resumable_upload, Reply, answered, thrown, DriveClient, World,
  WriteError, call, started, open_session, chunk_sent, send_upload_chunk, fill_handle, make_room,
  write_loop, after_loop, write, octet_stream, has_buffer, not_opened_for_writing,
  write_already_failed,
}

abbrev pub NoChunk : ClientCall → Type 0
NoChunk (sends_chunk session buf final) = ⊥
NoChunk _ = Unit

-- A chunk goes to this session, and no other session is opened.
abbrev pub KeepsTo : Bytes → ClientCall → Type 0
KeepsTo session (sends_chunk s buf final) = s ≡ session
KeepsTo session (start_resumable_upload id parent name mime) = ⊥
KeepsTo session _ = Unit

-- A session that the client says it has opened has an address, which StartResumableUpload sees to.
abbrev pub GivesSessions : DriveClient → Type 0
GivesSessions client =
    (calls : List ClientCall) (id parent name mime : Bytes) (r : DriveResponse)
    → client calls (start_resumable_upload id parent name mime) ≡ answered r
    → r.ok ≡ true
    → is_empty r.location ≡ false

module _ (client : DriveClient) (id parent name : Bytes) where
  abbrev pub start_call : ClientCall
  start_call = start_resumable_upload id parent name octet_stream

  -- Drive opened the session for this file before the first chunk was sent, and every chunk went to it.
  pub record IsOpened (session : Bytes) (calls : List ClientCall) : Type 0 where
    pub before : List ClientCall
    pub after : List ClientCall
    pub answer : DriveResponse
    pub split : calls ≡ before ++ (start_call ∷ after)
    pub unsent : All NoChunk before
    pub given : client before start_call ≡ answered answer
    pub opened : answer.ok ≡ true
    pub address : session ≡ answer.location
    pub nonempty : is_empty session ≡ false
    pub kept : All (KeepsTo session) after

  -- No chunk was sent, or all of them to one session.
  abbrev pub OneSession : List ClientCall → Type 0
  OneSession calls = All NoChunk calls ⊎ ((session : Bytes) × IsOpened session calls)

  pub IsOpened-append :
      (session : Bytes) (calls : List ClientCall) (c : ClientCall)
      → KeepsTo session c
      → IsOpened session calls
      → IsOpened session (calls ++ c ∷ [])
  IsOpened-append session calls c k o = record {
    before = o.before;
    after = o.after ++ c ∷ [];
    answer = o.answer;
    split =
        ap (λ (x : List ClientCall). x ++ c ∷ []) o.split
        ∙ append_assoc o.before (start_call ∷ o.after) (c ∷ []);
    unsent = o.unsent;
    given = o.given;
    opened = o.opened;
    address = o.address;
    nonempty = o.nonempty;
    kept = All-append (KeepsTo session) o.after (c ∷ []) o.kept (k, tt);
  }

  abbrev Unsent : Option ChunkedUploadBuffer → Type 0
  Unsent none = Unit
  Unsent (some buf) = buf.sent_any ≡ false

  -- The handle of this file: it has no session and has sent nothing, or it has the one that was opened.
  pub record Sessions (w : World) : Type 0 where
    pub same_id : w.handle.meta.id ≡ id
    pub same_parent : w.handle.write_parent_id ≡ parent
    pub same_name : w.handle.write_name ≡ name
    pub state :
        ((w.handle.upload_session ≡ []) × (All NoChunk w.calls × Unsent w.handle.buffer))
        ⊎ IsOpened w.handle.upload_session w.calls

  record Ready (w : World) : Type 0 where
    same_id : w.handle.meta.id ≡ id
    same_parent : w.handle.write_parent_id ≡ parent
    same_name : w.handle.write_name ≡ name
    ready : IsOpened w.handle.upload_session w.calls

  failed : {x : WriteError} → some x ≡ none → ⊥
  failed e = cc

  module _ (gives : GivesSessions client) where
    started-Ready :
        (r : Reply) (w : World)
        → client w.calls start_call ≡ r
        → All NoChunk w.calls
        → w.handle.meta.id ≡ id
        → w.handle.write_parent_id ≡ parent
        → w.handle.write_name ≡ name
        → let w' = record w { calls = w.calls ++ start_call ∷ [] } in
          (started client r w').0 ≡ none → Ready (started client r w').1
    unfolding started
    started-Ready thrown w e none_sent i p n h = cc
    started-Ready (answered r) w e none_sent i p n h = elim (Bool-cases r.ok) [
      | inr f ↦ absurd (failed (rw (f, started) at h))
      | inl f ↦
          rw (f, started)
            (record {
              same_id = i;
              same_parent = p;
              same_name = n;
              ready = record {
                before = w.calls;
                after = [];
                answer = r;
                split = refl;
                unsent = none_sent;
                given = e;
                opened = f;
                address = refl;
                nonempty = gives w.calls id parent name octet_stream r e f;
                kept = tt;
              };
            })
    ]

    open_session-Ready :
        (w : World)
        → Sessions w
        → (open_session client w).0 ≡ none
        → Ready (open_session client w).1
    unfolding open_session started call
    open_session-Ready w s h = elim (Bool-cases (is_empty w.handle.upload_session)) [
      | inr e ↦ elim s.state [
        | inl (no_session, _) ↦ absurd (cc (sym e ∙ ap is_empty no_session))
        | inr o ↦
            rw (e, open_session)
              (record {
                same_id = s.same_id;
                same_parent = s.same_parent;
                same_name = s.same_name;
                ready = o;
              })
      ]
      | inl e ↦ elim s.state [
        | inr o ↦ absurd (cc (sym e ∙ o.nonempty))
        | inl (_, (none_sent, _)) ↦
            let begin = λ (c : ClientCall).
              started client (client w.calls c) (record w { calls = w.calls ++ c ∷ [] }) in
            let same : start_resumable_upload w.handle.meta.id w.handle.write_parent_id
                  w.handle.write_name octet_stream
                ≡ start_call =
              rw (s.same_id, s.same_parent, s.same_name) refl in
            rw (e, open_session)
              (subst (λ (c : ClientCall). (begin c).0 ≡ none → Ready (begin c).1) (sym same)
                (started-Ready (client w.calls start_call) w refl none_sent s.same_id s.same_parent
                  s.same_name)
                (rw (e, open_session) at h))
      ]
    ]

    chunk_sent-Sessions :
        (r : Reply) (buf : ChunkedUploadBuffer) (w : World)
        → Ready w
        → (chunk_sent client buf r
            (call client (sends_chunk w.handle.upload_session buf false) w).1).0
          ≡ none
        → Sessions
            (chunk_sent client buf r
              (call client (sends_chunk w.handle.upload_session buf false) w).1).1
    unfolding chunk_sent call
    chunk_sent-Sessions thrown buf w s h = cc
    chunk_sent-Sessions (answered r) buf w s h = elim (Bool-cases r.ok) [
      | inr e ↦ absurd (failed (rw (e, chunk_sent) at h))
      | inl e ↦
          rw (e, chunk_sent)
            (record {
              same_id = s.same_id;
              same_parent = s.same_parent;
              same_name = s.same_name;
              state = inr (
                  IsOpened-append w.handle.upload_session w.calls
                    (sends_chunk w.handle.upload_session buf false) refl s.ready);
            })
    ]

    send_upload_chunk-Sessions :
        (buf : ChunkedUploadBuffer) (w : World)
        → Sessions w
        → (send_upload_chunk client buf w).0 ≡ none
        → Sessions (send_upload_chunk client buf w).1
    unfolding send_upload_chunk
    send_upload_chunk-Sessions buf w s h =
        let opened = open_session client w in
        elim (Option-cases opened.0) [
          | inr (e, k) ↦ absurd (failed (rw (k, send_upload_chunk) at h))
          | inl k ↦
              rw (k, send_upload_chunk)
                (chunk_sent-Sessions
                  (call client (sends_chunk opened.1.handle.upload_session buf false) opened.1).0
                  buf opened.1 (open_session-Ready w s k) (rw (k, send_upload_chunk) at h))
        ]

    make_room-Sessions :
        (b : Option ChunkedUploadBuffer) (w : World)
        → Sessions w
        → (make_room client b w).0 ≡ none
        → Sessions (make_room client b w).1
    unfolding make_room
    make_room-Sessions none w s h = s
    make_room-Sessions (some buf) w s h = elim (Bool-cases (full buf)) [
      | inl f ↦ rw (f, make_room) (send_upload_chunk-Sessions buf w s (rw (f, make_room) at h))
      | inr f ↦ rw (f, make_room) s
    ]

    fill_handle-Sessions :
        (b : Option ChunkedUploadBuffer) (input : Bytes) (w : World)
        → w.handle.buffer ≡ b
        → Sessions w
        → Sessions (fill_handle client b input w).1
    unfolding fill_handle
    fill_handle-Sessions none input w e s = s
    fill_handle-Sessions (some buf) input w e s =
        let (grown, within, same_offset, same_sent, same_chunk) = fill_lem buf input in
        record {
          same_id = s.same_id;
          same_parent = s.same_parent;
          same_name = s.same_name;
          state = elim s.state [
            | inl (no_session, (no_chunk, unsent)) ↦
                inl (no_session, (no_chunk, same_sent ∙ (rw e at unsent)))
            | inr o ↦ inr o
          ];
        }

    write_loop-Sessions :
        (fuel : ℕ) (input : Bytes) (w : World)
        → Sessions w
        → (write_loop client fuel input w).0 ≡ none
        → Sessions (write_loop client fuel input w).1
    unfolding write_loop
    write_loop-Sessions zero input w s h = s
    write_loop-Sessions (suc fuel) [] w s h = s
    write_loop-Sessions (suc fuel) (c ∷ input) w s h =
        let room = make_room client w.handle.buffer w in
        elim (Option-cases room.0) [
          | inr (e, k) ↦ absurd (failed (rw (k, write_loop) at h))
          | inl k ↦
              let filled = fill_handle client room.1.handle.buffer (c ∷ input) room.1 in
              rw (k, write_loop)
                (write_loop-Sessions fuel (drop filled.0 (c ∷ input)) filled.1
                  (fill_handle-Sessions room.1.handle.buffer (c ∷ input) room.1 refl
                    (make_room-Sessions w.handle.buffer w s k))
                  (rw (k, write_loop) at h))
        ]

    after_loop-Sessions :
        (input : Bytes) (res : Option WriteError × World)
        → (res.0 ≡ none → Sessions res.1)
        → (after_loop client input res).0 ≡ none
        → Sessions (after_loop client input res).1
    unfolding after_loop
    after_loop-Sessions input (some e, w) f h = cc
    after_loop-Sessions input (none, w) f h =
        let s = f refl in
        record {
          same_id = s.same_id;
          same_parent = s.same_parent;
          same_name = s.same_name;
          state = s.state;
        }

    -- Where a Write returns, all chunks have gone to one session.
    pub write-Sessions :
        (input : Bytes) (w : World)
        → Sessions w
        → (write client input w).0 ≡ none
        → Sessions (write client input w).1
    unfolding write
    write-Sessions input w s h =
        guarded (not w.handle.is_write || not (has_buffer w.handle.buffer)) w.handle.write_failed w
          not_opened_for_writing write_already_failed _
          (after_loop-Sessions input (write_loop client (length input) input w)
            (write_loop-Sessions (length input) input w s))
          h
      where
        guarded :
            (a b : Bool) (w : World) (e f : WriteError) (z : Option WriteError × World)
            → (z.0 ≡ none → Sessions z.1)
            → (let res : Option WriteError × World =
                  if a then (some e, w) else if b then (some f, w) else z in
                res.0 ≡ none → Sessions res.1)
        guarded true b w e f z k h = absurd (failed h)
        guarded false true w e f z k h = absurd (failed h)
        guarded false false w e f z k h = k h
