-- ===== src/WriteHandle/Quiet.antt =====
-- What the steps of a write handle that publish nothing leave as it was.
use duckdb_gdrive.Base.{
  ℕ, zero, suc, ◌≡◌, refl, false, Option, none, some, [], ◌∷◌, arith, Bool-cases, Option-cases, inl,
  inr, drop, ◌∙◌,
}
use duckdb_gdrive.Base.Text.{Bytes, is_empty}
use duckdb_gdrive.Json.{Parser}
use duckdb_gdrive.UploadPlan.{ChunkedUploadBuffer, full}
use duckdb_gdrive.WriteHandle.{
  ClientCall, sends_chunk, cancel_upload, generate_file_id, start_resumable_upload, Reply, answered,
  thrown, DriveClient, World, call, abort_upload, started, open_session, chunk_sent,
  send_upload_chunk, fill_handle, make_room, write_loop, reserve, octet_stream,
}
use duckdb_gdrive.WriteHandle.Calls.{publishes, published_count, published_count-append}

-- No publishing call was made, and the handle's flags are the same.
pub record Quiet (w w' : World) : Type 0 where
  pub same_count : published_count w'.calls ≡ published_count w.calls
  pub same_is_write : w'.handle.is_write ≡ w.handle.is_write
  pub same_failed : w'.handle.write_failed ≡ w.handle.write_failed

pub Quiet-refl : (w : World) → Quiet w w
Quiet-refl w = record { same_count = refl; same_is_write = refl; same_failed = refl }

pub Quiet-trans : (u v w : World) → Quiet u v → Quiet v w → Quiet u w
Quiet-trans u v w p q = record {
  same_count = q.same_count ∙ p.same_count;
  same_is_write = q.same_is_write ∙ p.same_is_write;
  same_failed = q.same_failed ∙ p.same_failed;
}

module _ (client : DriveClient) where
  pub call-Quiet : (c : ClientCall) (w : World) → publishes c ≡ false → Quiet w (call client c w).1
  unfolding call
  call-Quiet c w h = record {
    same_count = ground (arith, published_count-append w.calls c);
    same_is_write = refl;
    same_failed = refl;
  }

  pub abort_upload-Quiet : (w : World) → Quiet w (abort_upload client w)
  unfolding abort_upload call
  abort_upload-Quiet w = elim (Bool-cases (is_empty w.handle.upload_session)) [
    | inl e ↦ rw (e, abort_upload) (Quiet-refl w)
    | inr e ↦
        rw (e, abort_upload)
          (record {
            same_count =
                ground
                  (arith, published_count-append w.calls (cancel_upload w.handle.upload_session));
            same_is_write = refl;
            same_failed = refl;
          })
  ]

  started-Quiet : (r : Reply) (w : World) → Quiet w (started client r w).1
  unfolding started
  started-Quiet thrown w = Quiet-refl w
  started-Quiet (answered r) w = elim (Bool-cases r.ok) [
    | inl e ↦
        rw (e, started) (record { same_count = refl; same_is_write = refl; same_failed = refl })
    | inr e ↦ rw (e, started) (Quiet-refl w)
  ]

  open_session-Quiet : (w : World) → Quiet w (open_session client w).1
  unfolding open_session
  open_session-Quiet w =
      let h = w.handle in
      let c = start_resumable_upload h.meta.id h.write_parent_id h.write_name octet_stream in
      elim (Bool-cases (is_empty w.handle.upload_session)) [
        | inl e ↦
            rw (e, open_session)
              (Quiet-trans w (call client c w).1 _ (call-Quiet c w refl)
                (started-Quiet (call client c w).0 (call client c w).1))
        | inr e ↦ rw (e, open_session) (Quiet-refl w)
      ]

  chunk_sent-Quiet :
      (buf : ChunkedUploadBuffer) (r : Reply) (w : World) → Quiet w (chunk_sent client buf r w).1
  unfolding chunk_sent
  chunk_sent-Quiet buf thrown w = Quiet-refl w
  chunk_sent-Quiet buf (answered r) w = elim (Bool-cases r.ok) [
    | inl e ↦
        rw (e, chunk_sent) (record { same_count = refl; same_is_write = refl; same_failed = refl })
    | inr e ↦ rw (e, chunk_sent) (Quiet-refl w)
  ]

  send_upload_chunk-Quiet :
      (buf : ChunkedUploadBuffer) (w : World) → Quiet w (send_upload_chunk client buf w).1
  unfolding send_upload_chunk
  send_upload_chunk-Quiet buf w =
      let opened = open_session client w in
      let c = sends_chunk opened.1.handle.upload_session buf false in
      elim (Option-cases opened.0) [
        | inr (e, f) ↦ rw (f, send_upload_chunk) (open_session-Quiet w)
        | inl f ↦
            rw (f, send_upload_chunk)
              (Quiet-trans w opened.1 _ (open_session-Quiet w) (
                Quiet-trans opened.1 (call client c opened.1).1 _ (call-Quiet c opened.1 refl)
                  (chunk_sent-Quiet buf (call client c opened.1).0 (call client c opened.1).1)))
      ]

  fill_handle-Quiet :
      (b : Option ChunkedUploadBuffer) (input : Bytes) (w : World)
      → Quiet w (fill_handle client b input w).1
  unfolding fill_handle
  fill_handle-Quiet none input w = Quiet-refl w
  fill_handle-Quiet (some buf) input w = record {
    same_count = refl;
    same_is_write = refl;
    same_failed = refl;
  }

  make_room-Quiet : (b : Option ChunkedUploadBuffer) (w : World) → Quiet w (make_room client b w).1
  unfolding make_room
  make_room-Quiet none w = Quiet-refl w
  make_room-Quiet (some buf) w = elim (Bool-cases (full buf)) [
    | inl f ↦ rw (f, make_room) (send_upload_chunk-Quiet buf w)
    | inr f ↦ rw (f, make_room) (Quiet-refl w)
  ]

  pub write_loop-Quiet :
      (fuel : ℕ) (input : Bytes) (w : World) → Quiet w (write_loop client fuel input w).1
  unfolding write_loop
  write_loop-Quiet zero input w = Quiet-refl w
  write_loop-Quiet (suc fuel) [] w = Quiet-refl w
  write_loop-Quiet (suc fuel) (c ∷ input) w =
      let room = make_room client w.handle.buffer w in
      let filled = fill_handle client room.1.handle.buffer (c ∷ input) room.1 in
      elim (Option-cases room.0) [
        | inr (e, f) ↦ rw (f, write_loop) (make_room-Quiet w.handle.buffer w)
        | inl f ↦
            rw (f, write_loop)
              (Quiet-trans w room.1 _ (make_room-Quiet w.handle.buffer w) (
                Quiet-trans room.1 filled.1 _
                  (fill_handle-Quiet room.1.handle.buffer (c ∷ input) room.1)
                  (write_loop-Quiet fuel (drop filled.0 (c ∷ input)) filled.1)))
      ]

  module _ (parse : Parser) where
    pub reserve-Quiet : (w : World) → Quiet w (reserve client parse w).1
    unfolding reserve
    reserve-Quiet w = elim (Bool-cases (is_empty w.handle.meta.id)) [
      | inl e ↦ rw (e, reserve) (call-Quiet generate_file_id w refl)
      | inr e ↦ rw (e, reserve) (Quiet-refl w)
    ]
