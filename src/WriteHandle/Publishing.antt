-- ===== src/WriteHandle/Publishing.antt =====
-- What a Close that returns has published.
use duckdb_gdrive.Base.{
  ℕ, ◌+◌, ◌≡◌, refl, ap, sym, All-append, ◌∙◌, inl, inr, Bool, true, false, not, Option, none, some,
  List, [], ◌∷◌, ◌++◌, arith, if◌then◌else◌, Bool-cases, Option-cases, length,
}
use duckdb_gdrive.Base.Text.{Bytes, is_empty}
use duckdb_gdrive.Json.{Parser}
use duckdb_gdrive.Client.{DriveFileMeta, DriveResponse}
use duckdb_gdrive.UploadPlan.{
  ChunkedUploadBuffer, CloseAction, single_request, final_chunk, on_close, new_buffer,
}
use duckdb_gdrive.UploadPlan.Filling.{new_buffer-IsBuffer}
use duckdb_gdrive.WriteHandle.{
  ClientCall, sends_chunk, upload, generate_file_id, Reply, answered, thrown, DriveClient, World,
  WriteError, call, reserve, published, publish, upload_buffer, upload_handle_contents,
  after_upload, close, stop_writing, open_for_write, octet_stream,
}
use duckdb_gdrive.WriteHandle.Calls.{
  publishes, carried, delivered, published_count, InOrder, delivered-append, published_count-append,
  InOrder-append,
}
use duckdb_gdrive.WriteHandle.Sessions.{Sessions, OneSession, NoChunk, KeepsTo, IsOpened-append}
use duckdb_gdrive.WriteHandle.Streaming.{Streams, call-Streams}

module _ (client : DriveClient) (parse : Parser) (id parent name : Bytes) where
  -- The call creates or replaces the file in one request, or ends an upload.
  abbrev pub IsForFile : ClientCall → Type 0
  IsForFile (upload i p n mime body reserved) = (i ≡ id) × ((p ≡ parent) × (n ≡ name))
  IsForFile _ = Unit

  -- The file is at Drive: its bytes were carried in order, its chunks to one session that Drive opened for
  -- it, and the last call, which published it, was the only one to do so and was accepted.
  pub record IsPublished (written : Bytes) (calls : List ClientCall) : Type 0 where
    pub content : delivered calls ≡ written
    pub in_order : InOrder 0 calls
    pub one_session : OneSession client id parent name calls
    pub once : published_count calls ≡ 1
    pub before : List ClientCall
    pub last : ClientCall
    pub answer : DriveResponse
    pub split : calls ≡ before ++ last ∷ []
    pub publishing : publishes last ≡ true
    pub for_file : IsForFile last
    pub accepted : client before last ≡ answered answer
    pub success : answer.ok ≡ true

  -- The publishing call of an open handle.
  published-IsPublished :
      (consumed : Bool) (c : ClientCall) (written : Bytes) (buf : ChunkedUploadBuffer) (w : World)
      → carried c ≡ buf.pending
      → publishes c ≡ true
      → InOrder (length (delivered w.calls)) (c ∷ [])
      → delivered w.calls ++ buf.pending ≡ written
      → InOrder 0 w.calls
      → published_count w.calls ≡ 0
      → OneSession client id parent name (w.calls ++ c ∷ [])
      → IsForFile c
      → (published client parse consumed (call client c w).0 (call client c w).1).0 ≡ none
      → IsPublished written
          (published client parse consumed (call client c w).0 (call client c w).1).1.calls
  unfolding published call
  published-IsPublished consumed c written buf w bytes final place stream order quiet one file h =
      go (client w.calls c) refl h
    where
      w' : World
      w' = (call client c w).1

      go :
          (r : Reply)
          → client w.calls c ≡ r
          → (published client parse consumed r w').0 ≡ none
          → IsPublished written (published client parse consumed r w').1.calls
      go thrown e k = cc
      go (answered r) e k = elim (Bool-cases r.ok) [
        | inr f ↦ absurd (failed (rw (f, published) at k))
        | inl f ↦
            rw (f, published)
              (record {
                content = delivered-append w.calls c ∙ ap (◌++◌ (delivered w.calls)) bytes ∙ stream;
                in_order = InOrder-append 0 w.calls c order (
                    let n : 0 + length (delivered w.calls) ≡ length (delivered w.calls) =
                      omega arith in
                    rw n place);
                one_session = one;
                once = ground (arith, published_count-append w.calls c, quiet, final);
                before = w.calls;
                last = c;
                answer = r;
                split = refl;
                publishing = final;
                for_file = file;
                accepted = e;
                success = f;
              })
      ]
        where
          failed : {x : WriteError} → some x ≡ none → ⊥
          failed j = cc

  publish-IsPublished :
      (action : CloseAction) (written : Bytes) (buf : ChunkedUploadBuffer) (w : World)
      → on_close buf ≡ action
      → Streams written buf w
      → Sessions client id parent name w
      → (publish client parse action buf w).0 ≡ none
      → IsPublished written (publish client parse action buf w).1.calls
  unfolding publish on_close reserve
  publish-IsPublished final_chunk written buf w a s t h =
      published-IsPublished true (sends_chunk w.handle.upload_session buf true) written buf w refl
        refl (s.placed, tt) s.stream s.in_order s.unpublished one tt h
    where
      sent : buf.sent_any ≡ true
      sent = ground (arith, a)

      one :
          OneSession client id parent name
            (w.calls ++ sends_chunk w.handle.upload_session buf true ∷ [])
      one = elim t.state [
        | inl (_, (_, unsent)) ↦ absurd (cc (sym sent ∙ (rw s.held at unsent)))
        | inr o ↦ inr (
          w.handle.upload_session,
          IsOpened-append client id parent name w.handle.upload_session w.calls
              (sends_chunk w.handle.upload_session buf true) refl o,
        )
      ]
  publish-IsPublished single_request written buf w a s t h =
      elim (Option-cases (reserve client parse w).0) [
        | inl e ↦ absurd (failed (rw (e, publish) at h))
        | inr (id, e) ↦
            rw (e, publish)
              (published-IsPublished false
                (upload w.handle.meta.id w.handle.write_parent_id w.handle.write_name octet_stream
                  buf.pending id)
                written buf (reserve client parse w).1 refl refl (at_start, tt) kept.stream
                kept.in_order kept.unpublished (one reserved_one _ tt (λ s. tt))
                (t.same_id, (t.same_parent, t.same_name)) (rw (e, publish) at h))
      ]
    where
      failed : {x : WriteError} → some x ≡ none → ⊥
      failed e = cc

      one :
          {calls : List ClientCall}
          → OneSession client id parent name calls
          → (c : ClientCall) → NoChunk c
          → ((session : Bytes) → KeepsTo session c)
          → OneSession client id parent name (calls ++ c ∷ [])
      one {calls} (inl quiet) c n k = inl (All-append NoChunk calls (c ∷ []) quiet (n, tt))
      one {calls} (inr (session, o)) c n k =
          inr (session, IsOpened-append client id parent name session calls c (k session) o)

      now : OneSession client id parent name w.calls
      now = elim t.state [
        | inl (_, (quiet, _)) ↦ inl quiet
        | inr o ↦ inr (w.handle.upload_session, o)
      ]

      reserved_one : OneSession client id parent name (reserve client parse w).1.calls
      reserved_one = elim (Bool-cases (is_empty w.handle.meta.id)) [
        | inl e ↦ rw (e, reserve) (one now generate_file_id tt (λ s. tt))
        | inr e ↦ rw (e, reserve) now
      ]

      kept : Streams written buf (reserve client parse w).1
      kept = elim (Bool-cases (is_empty w.handle.meta.id)) [
        | inl e ↦
            rw (e, reserve)
              (call-Streams client generate_file_id written buf w refl refl (λ n. tt) s)
        | inr e ↦ rw (e, reserve) s
      ]

      at_start : length (delivered (reserve client parse w).1.calls) ≡ 0
      at_start = elim kept.first_chunk [
        | inl sent ↦ absurd (clash (rw sent at a))
        | inr nothing ↦ rw nothing
      ]
        where
          clash : final_chunk ≡ single_request → ⊥
          clash e = cc

  upload_buffer-IsPublished :
      (b : Option ChunkedUploadBuffer) (written : Bytes) (buf : ChunkedUploadBuffer) (w : World)
      → b ≡ some buf
      → Streams written buf w
      → Sessions client id parent name w
      → (upload_buffer client parse b w).0 ≡ none
      → IsPublished written (upload_buffer client parse b w).1.calls
  unfolding upload_buffer
  upload_buffer-IsPublished none written buf w e s t h = cc
  upload_buffer-IsPublished (some b) written buf w e s t h =
      let it : b ≡ buf = cc in
      rw it (publish-IsPublished (on_close buf) written buf w refl s t (rw it at h))

  stop_writing-Streams :
      (written : Bytes) (buf : ChunkedUploadBuffer) (w : World)
      → Streams written buf w
      → Streams written buf (stop_writing w)
  stop_writing-Streams written buf w s = record {
    held = s.held;
    shape = s.shape;
    not_failed = s.not_failed;
    stream = s.stream;
    placed = s.placed;
    in_order = s.in_order;
    unpublished = s.unpublished;
    first_chunk = s.first_chunk;
  }

  after_upload-IsPublished :
      (written : Bytes) (res : Option WriteError × World)
      → (res.0 ≡ none → IsPublished written res.1.calls)
      → (after_upload client parse res).0 ≡ none
      → IsPublished written (after_upload client parse res).1.calls
  unfolding after_upload
  after_upload-IsPublished written (some e, w) f h = cc
  after_upload-IsPublished written (none, w) f h = f refl

  -- The branch of Close that uploads.
  close_upload :
      (w : World)
      → w.handle.is_write ≡ true
      → w.handle.write_failed ≡ false
      → close client parse w
        ≡ after_upload client parse (upload_buffer client parse w.handle.buffer (stop_writing w))
  unfolding close upload_handle_contents
  close_upload w o f =
      else_else w.handle.is_write w.handle.write_failed o f _ _ _
      ∙ ap (after_upload client parse) (else_branch w.handle.write_failed f _ _)
    where
      else_branch : {A : Type 0} (b : Bool) → b ≡ false → (x y : A) → (if b then x else y) ≡ y
      else_branch b e x y = rw e

      else_else :
          {A : Type 0} (a b : Bool)
          → a ≡ true
          → b ≡ false
          → (x y z : A) → (if not a then x else if b then y else z) ≡ z
      else_else a b d e x y z = rw (d, e)

  -- Where Close returns on an open handle, the file is published: exactly the bytes written, each chunk
  -- at its offset in the one session that Drive opened for the file, by one call, the last, which Drive
  -- accepted.
  pub close-IsPublished :
      (written : Bytes) (buf : ChunkedUploadBuffer) (w : World)
      → w.handle.is_write ≡ true
      → Streams written buf w
      → Sessions client id parent name w
      → (close client parse w).0 ≡ none
      → IsPublished written (close client parse w).1.calls
  close-IsPublished written buf w o s t h =
      let path = close_upload w o s.not_failed in
      let stopped = stop_writing-Streams written buf w s in
      rw path (
        after_upload-IsPublished written
          (upload_buffer client parse w.handle.buffer (stop_writing w))
          (upload_buffer-IsPublished w.handle.buffer written buf (stop_writing w) s.held stopped
            (record {
              same_id = t.same_id;
              same_parent = t.same_parent;
              same_name = t.same_name;
              state = t.state;
            }))
          (rw path at h))

-- A handle that was just opened holds nothing.
pub open_for_write-Streams :
    (chunk_bytes : ℕ) (path : Bytes) (meta : DriveFileMeta) (parent name : Bytes)
    → Streams [] (new_buffer chunk_bytes) (open_for_write chunk_bytes path meta parent name)
unfolding open_for_write new_buffer
open_for_write-Streams chunk_bytes path meta parent name = record {
  held = refl;
  shape = new_buffer-IsBuffer chunk_bytes;
  not_failed = refl;
  stream = refl;
  placed = omega arith;
  in_order = tt;
  unpublished = refl;
  first_chunk = inr refl;
}

-- A handle that was just opened has no session.
pub open_for_write-Sessions :
    (client : DriveClient) (chunk_bytes : ℕ) (path : Bytes) (meta : DriveFileMeta)
    (parent name : Bytes)
    → Sessions client meta.id parent name (open_for_write chunk_bytes path meta parent name)
unfolding open_for_write new_buffer
open_for_write-Sessions client chunk_bytes path meta parent name = record {
  same_id = refl;
  same_parent = refl;
  same_name = refl;
  state = inl (refl, (tt, refl));
}
