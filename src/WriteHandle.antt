-- ===== src/WriteHandle.antt =====
-- The write handle: src/gdrive_upload.cpp, src/gdrive_file_handle.cpp and the sequential Write of
-- src/gdrive_filesystem.cpp. The client is any object that answers each call from the calls before it;
-- a call may throw. Exceptions are values: none where a method returns.
pub mod Calls
pub mod Quiet
pub mod Once
pub mod Streaming
pub mod Sessions
pub mod Publishing
pub mod Lifecycle
pub mod Failing
use duckdb_gdrive.Base.{
  ℕ, zero, suc, ◌+◌, Bool, true, false, not, ◌&&◌, ◌||◌, Option, none, some, List, [], ◌∷◌, ◌++◌,
  if◌then◌else◌, length, drop,
}
use duckdb_gdrive.Base.Text.{Bytes, codes, is_empty, contains}
use duckdb_gdrive.Json.{Parser}
use duckdb_gdrive.Errors.{GDriveErrorKind, GDriveError, not_found}
use duckdb_gdrive.Client.{DriveFileMeta, DriveResponse, parse_file_meta, parse_generated_file_id}
use duckdb_gdrive.UploadPlan.{
  ChunkedUploadBuffer, CloseAction, single_request, final_chunk, new_buffer, fill, full,
  mark_chunk_sent, on_close,
}

-- The calls of GDriveClient that a write handle makes: Upload and StartResumableUpload with the
-- existing id, the parent, the name and the MIME type, Upload with the body and the reserved id too.
pub data ClientCall : Type 0 where
  start_resumable_upload : Bytes → Bytes → Bytes → Bytes → ClientCall
  sends_chunk : Bytes → ChunkedUploadBuffer → Bool → ClientCall
  cancel_upload : Bytes → ClientCall
  generate_file_id : ClientCall
  upload : Bytes → Bytes → Bytes → Bytes → Bytes → Bytes → ClientCall

pub data Reply : Type 0 where
  answered : DriveResponse → Reply
  thrown : Reply

-- The answer to a call, after the calls before it.
abbrev pub DriveClient : Type 0
DriveClient = List ClientCall → ClientCall → Reply

pub record FileHandle : Type 0 where
  pub path : Bytes
  pub is_write : Bool
  pub write_failed : Bool
  pub buffer : Option ChunkedUploadBuffer
  pub upload_session : Bytes
  pub meta : DriveFileMeta
  pub write_parent_id : Bytes
  pub write_name : Bytes
  pub position : ℕ

-- The handle, and the calls that were made so far.
pub record World : Type 0 where
  pub handle : FileHandle
  pub calls : List ClientCall

pub data WriteError : Type 0 where
  not_opened_for_writing write_already_failed destination_folder_gone client_threw : WriteError
  drive_error : GDriveError → WriteError

abbrev pub octet_stream : Bytes
octet_stream = codes "application/octet-stream"

is_not_found : GDriveErrorKind → Bool
is_not_found not_found = true
is_not_found _ = false

-- ThrowUploadError
unfoldable pub upload_error : GDriveError → FileHandle → WriteError
unfolding contains is_not_found
upload_error error handle =
    if is_not_found error.kind
      && (not (is_empty handle.write_parent_id) && contains handle.write_parent_id error.message)
    then destination_folder_gone
    else drive_error error

abbrev pub with_handle : FileHandle → World → World
with_handle h w = record w { handle = h }

abbrev pub mark_failed : World → World
mark_failed w = with_handle (record w.handle { write_failed = true }) w

abbrev pub has_buffer : Option ChunkedUploadBuffer → Bool
has_buffer none = false
has_buffer (some _) = true

abbrev pub stop_writing : World → World
stop_writing w = with_handle (record w.handle { is_write = false }) w

abbrev pub drop_buffer : World → World
drop_buffer w = with_handle (record w.handle { buffer = none }) w

-- What a user of the handle does, the destructor included.
pub data Operation : Type 0 where
  writes : Bytes → Operation
  closes cancels destroys : Operation

module _ (client : DriveClient) where
  unfoldable pub call : ClientCall → World → Reply × World
  call c w = (client w.calls c, record w { calls = w.calls ++ c ∷ [] })

  unfoldable pub abort_upload : World → World
  unfolding call
  abort_upload w =
      if is_empty w.handle.upload_session
      then w
      else (call (cancel_upload w.handle.upload_session)
          (with_handle (record w.handle { upload_session = [] }) w)).1

  unfoldable pub started : Reply → World → Option WriteError × World
  started thrown w = (some client_threw, w)
  started (answered start) w =
      if start.ok
      then (none, with_handle (record w.handle { upload_session = start.location }) w)
      else (some (upload_error start.error w.handle), w)

  -- The session that SendUploadChunk opens, once.
  unfoldable pub open_session : World → Option WriteError × World
  unfolding started call
  open_session w =
      let h = w.handle in
      let (start, w') =
        call (start_resumable_upload h.meta.id h.write_parent_id h.write_name octet_stream) w in
      if is_empty h.upload_session then started start w' else (none, w)

  unfoldable pub chunk_sent : ChunkedUploadBuffer → Reply → World → Option WriteError × World
  chunk_sent buf thrown w = (some client_threw, w)
  chunk_sent buf (answered resp) w =
      if resp.ok
      then (none, with_handle (record w.handle { buffer = some (mark_chunk_sent buf) }) w)
      else (some (upload_error resp.error w.handle), w)

  unfoldable pub send_upload_chunk : ChunkedUploadBuffer → World → Option WriteError × World
  unfolding open_session chunk_sent call
  send_upload_chunk buf w =
      let (failure, w') = open_session w in
      let (resp, w'') = call (sends_chunk w'.handle.upload_session buf false) w' in
      elim failure [ some e ↦ (some e, w') | none ↦ chunk_sent buf resp w'' ]

  -- Fill, on the handle's buffer.
  unfoldable pub fill_handle : Option ChunkedUploadBuffer → Bytes → World → ℕ × World
  fill_handle none input w = (0, w)
  fill_handle (some buf) input w =
      let (took, buf') = fill buf input in
      (took, with_handle (record w.handle { buffer = some buf' }) w)

  unfoldable pub make_room : Option ChunkedUploadBuffer → World → Option WriteError × World
  unfolding send_upload_chunk
  make_room none w = (none, w)
  make_room (some buf) w = if full buf then send_upload_chunk buf w else (none, w)

  -- The loop of Write. Each round takes a byte at least, so the number of bytes is enough fuel.
  unfoldable pub write_loop : ℕ → Bytes → World → Option WriteError × World
  unfolding make_room fill_handle
  write_loop zero input w = (none, w)
  write_loop (suc fuel) [] w = (none, w)
  write_loop (suc fuel) (c ∷ input) w =
      let (failure, w') = make_room w.handle.buffer w in
      let (took, w'') = fill_handle w'.handle.buffer (c ∷ input) w' in
      elim failure [ some e ↦ (some e, w') | none ↦ write_loop fuel (drop took (c ∷ input)) w'' ]

  unfoldable pub after_loop : Bytes → Option WriteError × World → Option WriteError × World
  unfolding abort_upload
  after_loop input (some e, w) = (some e, abort_upload (mark_failed w))
  after_loop input (none, w) =
      (none, with_handle (record w.handle { position = w.handle.position + length input }) w)

  -- Write returns the number of bytes that it was given, whenever it returns.
  unfoldable pub write : Bytes → World → Option WriteError × World
  unfolding write_loop after_loop
  write input w =
      if not w.handle.is_write || not (has_buffer w.handle.buffer)
      then (some not_opened_for_writing, w)
      else if w.handle.write_failed
      then (some write_already_failed, w)
      else after_loop input (write_loop (length input) input w)

  module _ (parse : Parser) where
    unfoldable pub reserved_id : Reply → Option Bytes
    reserved_id thrown = none
    reserved_id (answered r) =
        if r.ok
        then elim (parse_generated_file_id parse r.body) [ none ↦ some [] | some id ↦ some id ]
        else some []

    -- The id that a create reserves first, empty where there is none; none where the call throws.
    unfoldable pub reserve : World → Option Bytes × World
    unfolding reserved_id call
    reserve w =
        let (reply, w') = call generate_file_id w in
        if is_empty w.handle.meta.id then (reserved_id reply, w') else (some [], w)

    unfoldable pub published : Bool → Reply → World → Option WriteError × World
    published consumed thrown w = (some client_threw, w)
    published consumed (answered resp) w =
        let h = if consumed then record w.handle { upload_session = [] } else w.handle in
        if resp.ok
        then (
          none,
          with_handle
              (elim (parse_file_meta parse resp.body) [
                | none ↦ h
                | some uploaded ↦ record h { meta = uploaded }
              ])
              w,
        )
        else (some (upload_error resp.error w.handle), w)

    unfoldable pub publish : CloseAction → ChunkedUploadBuffer → World → Option WriteError × World
    unfolding reserve published call
    publish final_chunk buf w =
        let (resp, w') = call (sends_chunk w.handle.upload_session buf true) w in
        published true resp w'
    publish single_request buf w =
        let h = w.handle in
        let (reserved, w') = reserve w in
        elim reserved [
          | none ↦ (some client_threw, w')
          | some id ↦
              let (resp, w'') =
                call (upload h.meta.id h.write_parent_id h.write_name octet_stream buf.pending id)
                  w' in
              published false resp w''
        ]

    unfoldable pub upload_buffer : Option ChunkedUploadBuffer → World → Option WriteError × World
    unfolding publish
    upload_buffer none w = (none, w)
    upload_buffer (some buf) w = publish (on_close buf) buf w

    unfoldable pub upload_handle_contents : World → Option WriteError × World
    unfolding upload_buffer
    upload_handle_contents w =
        if w.handle.write_failed then (none, w) else upload_buffer w.handle.buffer w

    unfoldable pub after_upload : Option WriteError × World → Option WriteError × World
    unfolding abort_upload
    after_upload (some e, w) = (some e, abort_upload (mark_failed w))
    after_upload (none, w) = (none, with_handle (record w.handle { buffer = none }) w)

    unfoldable pub close : World → Option WriteError × World
    unfolding upload_handle_contents after_upload abort_upload
    close w =
        if not w.handle.is_write
        then (none, w)
        else if w.handle.write_failed
        then (none, abort_upload (stop_writing w))
        else after_upload (upload_handle_contents (stop_writing w))

    unfoldable pub cancel_write : World → World
    unfolding abort_upload
    cancel_write w =
        if not w.handle.is_write
        then w
        else drop_buffer (abort_upload (mark_failed (stop_writing w)))

    unfoldable pub operate : Operation → World → World
    unfolding write close cancel_write abort_upload
    operate (writes input) w = (write input w).1
    operate closes w = (close w).1
    operate cancels w = cancel_write w
    operate destroys w = abort_upload w

    unfoldable pub operate_all : List Operation → World → World
    unfolding operate
    operate_all [] w = w
    operate_all (o ∷ os) w = operate_all os (operate o w)

-- A handle that OpenFile has opened for writing.
unfoldable pub open_for_write : ℕ → Bytes → DriveFileMeta → Bytes → Bytes → World
open_for_write chunk_bytes path meta parent name = record {
  handle = record {
    path = path;
    is_write = true;
    write_failed = false;
    buffer = some (new_buffer chunk_bytes);
    upload_session = [];
    meta = meta;
    write_parent_id = parent;
    write_name = name;
    position = 0;
  };
  calls = [];
}
