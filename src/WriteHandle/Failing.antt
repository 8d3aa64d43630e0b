-- ===== src/WriteHandle/Failing.antt =====
-- After a write that throws (Write, and whatever follows it).
use duckdb_gdrive.Base.{◌≡◌, refl, ◌∙◌, true, Option, none, some, List, arith, length}
use duckdb_gdrive.Base.Text.{Bytes}
use duckdb_gdrive.Json.{Parser}
use duckdb_gdrive.UploadPlan.{ChunkedUploadBuffer}
use duckdb_gdrive.WriteHandle.{
  DriveClient, World, WriteError, mark_failed, write_loop, after_loop, write, Operation,
  operate_all,
}
use duckdb_gdrive.WriteHandle.Calls.{published_count}
use duckdb_gdrive.WriteHandle.Quiet.{abort_upload-Quiet, write_loop-Quiet}
use duckdb_gdrive.WriteHandle.Once.{may_publish, operate_all-published}
use duckdb_gdrive.WriteHandle.Streaming.{Streams}

module _ (client : DriveClient) where
  write_failure :
      (input written : Bytes) (buf : ChunkedUploadBuffer) (w : World) (e : WriteError)
      → w.handle.is_write ≡ true
      → Streams written buf w
      → (write client input w).0 ≡ some e
      → ((write client input w).1.handle.write_failed ≡ true)
        × (published_count (write client input w).1.calls ≡ 0)
  unfolding write after_loop
  write_failure input written buf w e o s h =
      simp (o, s.not_failed, s.held)
        (go (write_loop client (length input) input w) refl (simp (o, s.not_failed, s.held) at h))
    where
      go :
          (res : Option WriteError × World)
          → write_loop client (length input) input w ≡ res
          → (after_loop client input res).0 ≡ some e
          → ((after_loop client input res).1.handle.write_failed ≡ true)
            × (published_count (after_loop client input res).1.calls ≡ 0)
      go (none, w') k h' = cc
      go (some f, w') k h' =
          let q = abort_upload-Quiet client (mark_failed w') in
          let before : published_count w'.calls ≡ published_count w.calls =
            rw k at (write_loop-Quiet client (length input) input w).same_count in
          (q.same_failed, q.same_count ∙ before ∙ s.unpublished)

  -- Once a write to an open handle has thrown, nothing is published, whatever is done with the handle
  -- after it: further writes, Close, CancelWrite or the destructor.
  pub write_failure-unpublished :
      (parse : Parser) (os : List Operation) (input written : Bytes) (buf : ChunkedUploadBuffer)
      (w : World) (e : WriteError)
      → w.handle.is_write ≡ true
      → Streams written buf w
      → (write client input w).0 ≡ some e
      → published_count (operate_all client parse os (write client input w).1).calls ≡ 0
  write_failure-unpublished parse os input written buf w e o s h =
      let (failed, count) = write_failure input written buf w e o s h in
      let after : may_publish (write client input w).1.handle ≡ 0 = ground (arith, failed) in
      omega (arith, operate_all-published client parse os (write client input w).1, count, after)
