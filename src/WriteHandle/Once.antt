-- ===== src/WriteHandle/Once.antt =====
-- A file is published at most once, and never after a failure (Close, CancelWrite, Write).
use duckdb_gdrive.Base.{
  ℕ, ◌+◌, ◌≤◌, ◌≡◌, refl, Bool, true, false, not, ◌&&◌, Option, none, some, List, [], ◌∷◌, arith,
  if◌then◌else◌, Option-cases, inl, inr, length, ◌∙◌,
}
use duckdb_gdrive.Base.Text.{Bytes}
use duckdb_gdrive.Json.{Parser}
use duckdb_gdrive.Client.{parse_file_meta}
use duckdb_gdrive.UploadPlan.{
  ChunkedUploadBuffer, CloseAction, single_request, final_chunk, on_close,
}
use duckdb_gdrive.WriteHandle.{
  ClientCall, sends_chunk, upload, Reply, answered, thrown, DriveClient, FileHandle, World,
  WriteError, call, abort_upload, write_loop, after_loop, write, reserve, published, publish,
  upload_handle_contents, upload_buffer, after_upload, close, cancel_write, Operation, writes,
  closes, cancels, destroys, operate, operate_all, mark_failed, stop_writing, octet_stream,
}
use duckdb_gdrive.WriteHandle.Calls.{published_count, published_count-append}
use duckdb_gdrive.WriteHandle.Quiet.{Quiet, abort_upload-Quiet, write_loop-Quiet, reserve-Quiet}

-- The publishing calls made, and whether the handle may still make one.
abbrev pub may_publish : FileHandle → ℕ
may_publish h = if h.is_write && not h.write_failed then 1 else 0

module _ (client : DriveClient) where
  -- What a handle has published, and may still publish, never grows.
  abbrev potential : World → ℕ
  potential w = published_count w.calls + may_publish w.handle

  Quiet-potential : (w w' : World) → Quiet w w' → potential w' ≤ potential w
  Quiet-potential w w' q = ground (arith, q.same_count, q.same_is_write, q.same_failed)

  abort_upload-potential : (w : World) → potential (abort_upload client w) ≤ potential w
  abort_upload-potential w = Quiet-potential w (abort_upload client w) (abort_upload-Quiet client w)

  after_loop-potential :
      (input : Bytes) (res : Option WriteError × World)
      → potential (after_loop client input res).1 ≤ potential res.1
  unfolding after_loop
  after_loop-potential input (some e, w) =
      let le = abort_upload-potential (mark_failed w) in ground arith
  after_loop-potential input (none, w) = omega arith

  write-potential : (input : Bytes) (w : World) → potential (write client input w).1 ≤ potential w
  unfolding write
  write-potential input w = ground (
    arith,
    after_loop-potential input (write_loop client (length input) input w),
    Quiet-potential w (write_loop client (length input) input w).1
        (write_loop-Quiet client (length input) input w),
  )

  module _ (parse : Parser) where
    published-count :
        (consumed : Bool) (r : Reply) (w : World)
        → published_count (published client parse consumed r w).1.calls ≡ published_count w.calls
    unfolding published
    published-count consumed thrown w = refl
    published-count consumed (answered r) w = ground arith

    call-count :
        (c : ClientCall) (w : World)
        → published_count (call client c w).1.calls ≤ published_count w.calls + 1
    unfolding call
    call-count c w = ground (arith, published_count-append w.calls c)

    publish-count :
        (action : CloseAction) (buf : ChunkedUploadBuffer) (w : World)
        → published_count (publish client parse action buf w).1.calls ≤ published_count w.calls + 1
    unfolding publish
    publish-count final_chunk buf w =
        let c = sends_chunk w.handle.upload_session buf true in
        omega (arith, published-count true (call client c w).0 (call client c w).1, call-count c w)
    publish-count single_request buf w =
        let h = w.handle in
        let kept = reserve-Quiet client parse w in
        let w' = (reserve client parse w).1 in
        elim (Option-cases (reserve client parse w).0) [
          | inl e ↦ rw (e, publish) (omega (arith, kept.same_count))
          | inr (id, e) ↦
              let c = upload h.meta.id h.write_parent_id h.write_name octet_stream buf.pending id in
              rw (e, publish)
                (omega (
                  arith,
                  kept.same_count,
                  published-count false (call client c w').0 (call client c w').1,
                  call-count c w',
                ))
        ]

    published-is_write :
        (consumed : Bool) (r : Reply) (w : World)
        → (published client parse consumed r w).1.handle.is_write ≡ w.handle.is_write
    unfolding published
    published-is_write consumed thrown w = refl
    published-is_write consumed (answered r) w =
        elim (Option-cases (parse_file_meta parse r.body)) [
          | inl e ↦ ground arith
          | inr (meta, e) ↦ ground arith
        ]

    publish-is_write :
        (action : CloseAction) (buf : ChunkedUploadBuffer) (w : World)
        → (publish client parse action buf w).1.handle.is_write ≡ w.handle.is_write
    unfolding publish call
    publish-is_write final_chunk buf w = published-is_write true _ _
    publish-is_write single_request buf w = elim (Option-cases (reserve client parse w).0) [
      | inl e ↦ rw (e, publish) (reserve-Quiet client parse w).same_is_write
      | inr (id, e) ↦
          rw (e, publish)
            (published-is_write false _ _ ∙ (reserve-Quiet client parse w).same_is_write)
    ]

    -- What an upload leaves of a handle that is already marked as closed.
    record Uploaded (w w' : World) : Type 0 where
      most_one : published_count w'.calls ≤ published_count w.calls + 1
      kept_is_write : w'.handle.is_write ≡ w.handle.is_write

    upload_buffer-Uploaded :
        (b : Option ChunkedUploadBuffer) (w : World) → Uploaded w (upload_buffer client parse b w).1
    unfolding upload_buffer
    upload_buffer-Uploaded none w = record { most_one = omega arith; kept_is_write = refl }
    upload_buffer-Uploaded (some buf) w = record {
      most_one = publish-count (on_close buf) buf w;
      kept_is_write = publish-is_write (on_close buf) buf w;
    }

    after_upload-potential :
        (res : Option WriteError × World)
        → res.1.handle.is_write ≡ false
        → potential (after_upload client parse res).1 ≤ published_count res.1.calls
    unfolding after_upload
    after_upload-potential (some e, w) h =
        let le = abort_upload-potential (mark_failed w) in ground arith
    after_upload-potential (none, w) h = ground arith

    upload_handle_contents-Uploaded :
        (w : World) → Uploaded w (upload_handle_contents client parse w).1
    unfolding upload_handle_contents
    upload_handle_contents-Uploaded w =
        let u = upload_buffer-Uploaded w.handle.buffer w in
        record {
          most_one = ground (arith, u.most_one);
          kept_is_write = ground (arith, u.kept_is_write);
        }

    close-potential : (w : World) → potential (close client parse w).1 ≤ potential w
    unfolding close
    close-potential w =
        let stopped = stop_writing w in
        let u = upload_handle_contents-Uploaded stopped in
        ground (
          arith,
          u.most_one,
          abort_upload-potential stopped,
          after_upload-potential (upload_handle_contents client parse stopped) u.kept_is_write,
        )

    cancel_write-potential : (w : World) → potential (cancel_write client parse w) ≤ potential w
    unfolding cancel_write
    cancel_write-potential w = ground (arith, abort_upload-potential (mark_failed (stop_writing w)))

    operate-potential :
        (o : Operation) (w : World) → potential (operate client parse o w) ≤ potential w
    unfolding operate
    operate-potential (writes input) w = write-potential input w
    operate-potential closes w = close-potential w
    operate-potential cancels w = cancel_write-potential w
    operate-potential destroys w = abort_upload-potential w

    -- Whatever is done with a handle, the publishing calls and the one that it may still make, if it is
    -- open for writing and no write has failed, are no more than before. So an open handle publishes at
    -- most once, and one that is closed, cancelled or has failed never again.
    pub operate_all-published :
        (os : List (Operation)) (w : World)
        → let w' = operate_all client parse os w in
          published_count w'.calls + may_publish w'.handle
          ≤ published_count w.calls + may_publish w.handle
    unfolding operate_all
    operate_all-published [] w = omega arith
    operate_all-published (o ∷ os) w =
        omega (arith, operate_all-published os (operate client parse o w), operate-potential o w)
