-- ===== src/WriteHandle/Streaming.antt =====
-- A streaming write: what is sent and what is held in memory are the bytes written (Write).
use duckdb_gdrive.Base.{
  ℕ, zero, suc, ◌≤◌, ◌<◌, ◌≡◌, refl, sym, ap, ◌∙◌, subst, ◌⊎◌, inl, inr, true, false, Option, none,
  some, [], ◌∷◌, ◌++◌, arith, append_assoc, append-nil, Bool-cases, Option-cases, length,
  length-append, length-drop, take, drop, take-append-drop,
}
use duckdb_gdrive.Base.Text.{Bytes, is_empty}
use duckdb_gdrive.UploadPlan.{ChunkedUploadBuffer, fill, full, mark_chunk_sent, wrap64}
use duckdb_gdrive.UploadPlan.Filling.{
  IsBuffer, fill_lem, fill-IsBuffer, fill-progress, mark_chunk_sent-IsBuffer,
}
use duckdb_gdrive.WriteHandle.{
  ClientCall, sends_chunk, start_resumable_upload, Reply, answered, thrown, DriveClient, World,
  WriteError, call, started, open_session, chunk_sent, send_upload_chunk, fill_handle, make_room,
  write_loop, after_loop, write, octet_stream,
}
use duckdb_gdrive.WriteHandle.Calls.{
  publishes, carried, delivered, published_count, InOrder, delivered-append, published_count-append,
  InOrder-append,
}
use duckdb_gdrive.WriteHandle.Quiet.{write_loop-Quiet}

-- A handle into which `written` was written, byte for byte.
pub record Streams (written : Bytes) (buf : ChunkedUploadBuffer) (w : World) : Type 0 where
  pub held : w.handle.buffer ≡ some buf
  pub shape : IsBuffer buf
  pub not_failed : w.handle.write_failed ≡ false
  pub stream : delivered w.calls ++ buf.pending ≡ written
  pub placed : buf.offset ≡ wrap64 (length (delivered w.calls))
  pub in_order : InOrder 0 w.calls
  pub unpublished : published_count w.calls ≡ 0
  pub first_chunk : (buf.sent_any ≡ true) ⊎ (delivered w.calls ≡ [])

module _ (client : DriveClient) where
  -- A call that carries no bytes.
  pub call-Streams :
      (c : ClientCall) (written : Bytes) (buf : ChunkedUploadBuffer) (w : World)
      → carried c ≡ []
      → publishes c ≡ false
      → ((n : ℕ) → InOrder n (c ∷ []))
      → Streams written buf w
      → Streams written buf (call client c w).1
  unfolding call
  call-Streams c written buf w no_bytes no_publish any_place s =
      let same : delivered (w.calls ++ c ∷ []) ≡ delivered w.calls =
        delivered-append w.calls c
        ∙ ap (◌++◌ (delivered w.calls)) no_bytes
        ∙ append-nil (delivered w.calls) in
      record {
        held = s.held;
        shape = s.shape;
        not_failed = s.not_failed;
        stream = rw same s.stream;
        placed = rw same s.placed;
        in_order = InOrder-append 0 w.calls c s.in_order (any_place _);
        unpublished = ground (arith, published_count-append w.calls c, s.unpublished);
        first_chunk = rw same s.first_chunk;
      }

  started-Streams :
      (r : Reply) (written : Bytes) (buf : ChunkedUploadBuffer) (w : World)
      → Streams written buf w
      → Streams written buf (started client r w).1
  unfolding started
  started-Streams thrown written buf w s = s
  started-Streams (answered r) written buf w s = elim (Bool-cases r.ok) [
    | inl e ↦
        rw (e, started)
          (record {
            held = s.held;
            shape = s.shape;
            not_failed = s.not_failed;
            stream = s.stream;
            placed = s.placed;
            in_order = s.in_order;
            unpublished = s.unpublished;
            first_chunk = s.first_chunk;
          })
    | inr e ↦ rw (e, started) s
  ]

  open_session-Streams :
      (written : Bytes) (buf : ChunkedUploadBuffer) (w : World)
      → Streams written buf w
      → Streams written buf (open_session client w).1
  unfolding open_session
  open_session-Streams written buf w s =
      let h = w.handle in
      let c = start_resumable_upload h.meta.id h.write_parent_id h.write_name octet_stream in
      elim (Bool-cases (is_empty w.handle.upload_session)) [
        | inl e ↦
            rw (e, open_session)
              (started-Streams (call client c w).0 written buf (call client c w).1
                (call-Streams c written buf w refl refl (λ n. tt) s))
        | inr e ↦ rw (e, open_session) s
      ]

  -- The chunk that is sent leaves memory and stands among the calls.
  chunk_sent-Streams :
      (r : Reply) (session written : Bytes) (buf : ChunkedUploadBuffer) (w : World)
      → Streams written buf w
      → full buf ≡ true
      → (chunk_sent client buf r (call client (sends_chunk session buf false) w).1).0 ≡ none
      → Streams written
          (mark_chunk_sent buf)
          (chunk_sent client buf r (call client (sends_chunk session buf false) w).1).1
  unfolding chunk_sent call mark_chunk_sent
  chunk_sent-Streams thrown session written buf w s f h = cc
  chunk_sent-Streams (answered r) session written buf w s f h = elim (Bool-cases r.ok) [
    | inr e ↦ absurd (failed (rw (e, chunk_sent) at h))
    | inl e ↦
        let c = sends_chunk session buf false in
        let more : delivered (w.calls ++ c ∷ []) ≡ delivered w.calls ++ buf.pending =
          delivered-append w.calls c in
        rw (e, chunk_sent)
          (record {
            held = refl;
            shape = (mark_chunk_sent-IsBuffer buf s.shape f).0;
            not_failed = s.not_failed;
            stream = append-nil (delivered (w.calls ++ c ∷ [])) ∙ more ∙ s.stream;
            placed =
                omega
                  (arith, ap length more, length-append (delivered w.calls) buf.pending, s.placed);
            in_order = InOrder-append 0 w.calls c s.in_order (omega (arith, s.placed), tt);
            unpublished = ground (arith, published_count-append w.calls c, s.unpublished);
            first_chunk = inl refl;
          })
  ]
    where
      failed : {x : WriteError} → some x ≡ none → ⊥
      failed e = cc

  send_upload_chunk-Streams :
      (written : Bytes) (buf : ChunkedUploadBuffer) (w : World)
      → Streams written buf w
      → full buf ≡ true
      → (send_upload_chunk client buf w).0 ≡ none
      → Streams written (mark_chunk_sent buf) (send_upload_chunk client buf w).1
  unfolding send_upload_chunk
  send_upload_chunk-Streams written buf w s f h =
      let opened = open_session client w in
      elim (Option-cases opened.0) [
        | inr (e, k) ↦ absurd (failed (rw (k, send_upload_chunk) at h))
        | inl k ↦
            rw (k, send_upload_chunk)
              (chunk_sent-Streams
                (call client (sends_chunk opened.1.handle.upload_session buf false) opened.1).0
                opened.1.handle.upload_session written buf opened.1
                (open_session-Streams written buf w s) f (rw (k, send_upload_chunk) at h))
      ]
    where
      failed : {x : WriteError} → some x ≡ none → ⊥
      failed e = cc

  make_room-Streams :
      (b : Option ChunkedUploadBuffer) (written : Bytes) (buf : ChunkedUploadBuffer) (w : World)
      → b ≡ some buf
      → Streams written buf w
      → (make_room client b w).0 ≡ none
      → (buf' : ChunkedUploadBuffer) × (full buf' ≡ false)
        × Streams written buf' (make_room client b w).1
  unfolding make_room full mark_chunk_sent
  make_room-Streams none written buf w e s h = cc
  make_room-Streams (some b) written buf w e s h =
      let it : b ≡ buf = cc in
      elim (Bool-cases (full buf)) [
        | inl f ↦
            rw (it, f, make_room)
              (
                mark_chunk_sent buf,
                emptied,
                send_upload_chunk-Streams written buf w s f (rw (it, f, make_room) at h),
              )
        | inr f ↦ rw (it, f, make_room) (buf, f, s)
      ]
    where
      emptied : full (mark_chunk_sent buf) ≡ false
      emptied = ground (arith, s.shape.chunk_least)

  fill_handle-Streams :
      (b : Option ChunkedUploadBuffer) (input written : Bytes) (buf : ChunkedUploadBuffer)
      (w : World)
      → b ≡ some buf
      → Streams written buf w
      → ((fill_handle client b input w).0 ≡ (fill buf input).0)
        × Streams
            (written ++ take (fill buf input).0 input)
            (fill buf input).1
            (fill_handle client b input w).1
  unfolding fill_handle
  fill_handle-Streams none input written buf w e s = cc
  fill_handle-Streams (some b) input written buf w e s =
      let it : b ≡ buf = cc in
      let (grown, within, same_offset, same_sent, same_chunk) = fill_lem buf input in
      rw it (
        refl,
        record {
          held = refl;
          shape = fill-IsBuffer buf input s.shape;
          not_failed = s.not_failed;
          stream =
              ap (◌++◌ (delivered w.calls)) grown
              ∙ sym (append_assoc (delivered w.calls) buf.pending (take (fill buf input).0 input))
              ∙ ap (λ (front : Bytes). front ++ take (fill buf input).0 input) s.stream;
          placed = same_offset ∙ s.placed;
          in_order = s.in_order;
          unpublished = s.unpublished;
          first_chunk = rw same_sent s.first_chunk;
        },
      )

  -- The number of bytes is enough fuel: where the loop returns, all of them went in.
  pub write_loop-Streams :
      (fuel : ℕ) (input written : Bytes) (buf : ChunkedUploadBuffer) (w : World)
      → length input ≤ fuel
      → Streams written buf w
      → (write_loop client fuel input w).0 ≡ none
      → (buf' : ChunkedUploadBuffer) × Streams
          (written ++ input)
          buf'
          (write_loop client fuel input w).1
  unfolding write_loop
  write_loop-Streams zero [] written buf w le s h =
      (buf, subst (λ (d : Bytes). Streams d buf w) (sym (append-nil written)) s)
  write_loop-Streams zero (c ∷ input) written buf w le s h = absurd (omega arith)
  write_loop-Streams (suc fuel) [] written buf w le s h =
      (buf, subst (λ (d : Bytes). Streams d buf w) (sym (append-nil written)) s)
  write_loop-Streams (suc fuel) (c ∷ input) written buf w le s h =
      let room = make_room client w.handle.buffer w in
      elim (Option-cases room.0) [
        | inr (e, k) ↦ absurd (failed (rw (k, write_loop) at h))
        | inl k ↦
            let (buf1, free, s1) = make_room-Streams w.handle.buffer written buf w s.held s k in
            let (same, s2) =
              fill_handle-Streams room.1.handle.buffer (c ∷ input) written buf1 room.1 s1.held s1 in
            let took = (fill buf1 (c ∷ input)).0 in
            let some_taken : 0 < took = fill-progress buf1 (c ∷ input) free (omega arith) in
            let filled = fill_handle client room.1.handle.buffer (c ∷ input) room.1 in
            let (buf3, s3) =
              write_loop-Streams fuel (drop took (c ∷ input)) (written ++ take took (c ∷ input))
                (fill buf1 (c ∷ input)).1 filled.1 (omega (arith, length-drop took (c ∷ input))) s2
                (rw (k, write_loop, same) at h) in
            rw (k, write_loop, same)
              (
                buf3,
                subst
                    (λ (d : Bytes).
                      Streams d buf3 (write_loop client fuel (drop took (c ∷ input)) filled.1).1)
                    (append_assoc written (take took (c ∷ input)) (drop took (c ∷ input))
                      ∙ ap (◌++◌ written) (take-append-drop took (c ∷ input)))
                    s3,
              )
      ]
    where
      failed : {x : WriteError} → some x ≡ none → ⊥
      failed e = cc

  -- Where a Write to an open handle returns, the handle is open and holds what was written before and
  -- then these bytes, all of them: sent in order up to a multiple of 256 KiB, or still in the buffer of
  -- one chunk.
  pub write-Streams :
      (input written : Bytes) (buf : ChunkedUploadBuffer) (w : World)
      → w.handle.is_write ≡ true
      → Streams written buf w
      → (write client input w).0 ≡ none
      → ((write client input w).1.handle.is_write ≡ true)
        × (buf' : ChunkedUploadBuffer) × Streams (written ++ input) buf' (write client input w).1
  unfolding write after_loop
  write-Streams input written buf w o s h =
      simp (o, s.not_failed, s.held)
        (go (write_loop client (length input) input w) refl (simp (o, s.not_failed, s.held) at h))
    where
      go :
          (res : Option WriteError × World)
          → write_loop client (length input) input w ≡ res
          → (after_loop client input res).0 ≡ none
          → ((after_loop client input res).1.handle.is_write ≡ true)
            × (buf' : ChunkedUploadBuffer) × Streams
                (written ++ input)
                buf'
                (after_loop client input res).1
      go (some e, w') k h' = cc
      go (none, w') k h' =
          let (buf', s') =
            write_loop-Streams (length input) input written buf w (omega arith) s (rw k) in
          let t : Streams (written ++ input) buf' w' = rw k at s' in
          let q : w'.handle.is_write ≡ w.handle.is_write =
            rw k at (write_loop-Quiet client (length input) input w).same_is_write in
          (
            q ∙ o,
            buf',
            record {
              held = t.held;
              shape = t.shape;
              not_failed = t.not_failed;
              stream = t.stream;
              placed = t.placed;
              in_order = t.in_order;
              unpublished = t.unpublished;
              first_chunk = t.first_chunk;
            },
          )
