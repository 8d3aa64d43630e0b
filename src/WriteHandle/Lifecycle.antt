-- ===== src/WriteHandle/Lifecycle.antt =====
-- A file from OpenFile to Close (Write, Close).
use duckdb_gdrive.Base.{
  ℕ, ◌≡◌, refl, sym, subst, inl, inr, true, Option, none, some, List, [], ◌∷◌, ◌++◌, append-nil,
  append_assoc, Option-cases,
}
use duckdb_gdrive.Base.Text.{Bytes}
use duckdb_gdrive.Json.{Parser}
use duckdb_gdrive.Client.{DriveFileMeta}
use duckdb_gdrive.UploadPlan.{ChunkedUploadBuffer, new_buffer}
use duckdb_gdrive.WriteHandle.{DriveClient, World, WriteError, close, write, open_for_write}
use duckdb_gdrive.WriteHandle.Streaming.{Streams, write-Streams}
use duckdb_gdrive.WriteHandle.Publishing.{
  IsPublished, close-IsPublished, open_for_write-Streams, open_for_write-Sessions,
}
use duckdb_gdrive.WriteHandle.Sessions.{GivesSessions, Sessions, write-Sessions}

module _ (client : DriveClient) where
  -- The writes of one file, up to the first that throws.
  unfoldable pub write_all : List Bytes → World → Option WriteError × World
  unfolding write
  write_all [] w = (none, w)
  write_all (input ∷ inputs) w =
      let (failure, w') = write client input w in
      elim failure [ some e ↦ (some e, w') | none ↦ write_all inputs w' ]

  abbrev pub flatten : List Bytes → Bytes
  flatten [] = []
  flatten (x ∷ xs) = x ++ flatten xs

  write_all-Streams :
      (inputs : List Bytes) (written : Bytes) (buf : ChunkedUploadBuffer) (w : World)
      → w.handle.is_write ≡ true
      → Streams written buf w
      → (write_all inputs w).0 ≡ none
      → ((write_all inputs w).1.handle.is_write ≡ true)
        × (buf' : ChunkedUploadBuffer) × Streams
            (written ++ flatten inputs)
            buf'
            (write_all inputs w).1
  unfolding write_all
  write_all-Streams [] written buf w o s h =
      (o, buf, subst (λ (d : Bytes). Streams d buf w) (sym (append-nil written)) s)
  write_all-Streams (input ∷ inputs) written buf w o s h =
      elim (Option-cases (write client input w).0) [
        | inr (e, k) ↦ absurd (failed (rw (k, write_all) at h))
        | inl k ↦
            let (o1, buf1, s1) = write-Streams client input written buf w o s k in
            let (o2, buf2, s2) =
              write_all-Streams inputs (written ++ input) buf1 (write client input w).1 o1 s1
                (rw (k, write_all) at h) in
            rw (k, write_all)
              (
                o2,
                buf2,
                subst (λ (d : Bytes). Streams d buf2 (write_all inputs (write client input w).1).1)
                    (append_assoc written input (flatten inputs)) s2,
              )
      ]
    where
      failed : {x : WriteError} → some x ≡ none → ⊥
      failed e = cc

  write_all-Sessions :
      (id parent name : Bytes) (inputs : List Bytes) (w : World)
      → GivesSessions client
      → Sessions client id parent name w
      → (write_all inputs w).0 ≡ none
      → Sessions client id parent name (write_all inputs w).1
  unfolding write_all
  write_all-Sessions id parent name [] w gives s h = s
  write_all-Sessions id parent name (input ∷ inputs) w gives s h =
      elim (Option-cases (write client input w).0) [
        | inr (e, k) ↦ absurd (failed (rw (k, write_all) at h))
        | inl k ↦
            rw (k, write_all)
              (write_all-Sessions id parent name inputs (write client input w).1 gives
                (write-Sessions client id parent name gives input w s k) (rw (k, write_all) at h))
      ]
    where
      failed : {x : WriteError} → some x ≡ none → ⊥
      failed e = cc

  -- From OpenFile to Close, over a client whose upload sessions have an address: where all the writes
  -- and Close return, the file at Drive is the bytes written, in order: either one request has carried them,
  -- or all the chunks went, each to its offset, to the one session that Drive opened for this file. One call
  -- published it, the last, which Drive accepted.
  pub write_all-IsPublished :
      (parse : Parser) (chunk_bytes : ℕ) (path : Bytes) (meta : DriveFileMeta) (parent name : Bytes)
      (inputs : List Bytes)
      → let opened = open_for_write chunk_bytes path meta parent name in
        GivesSessions client
        → (write_all inputs opened).0 ≡ none
        → (close client parse (write_all inputs opened).1).0 ≡ none
        → IsPublished client parse meta.id parent name
            (flatten inputs)
            (close client parse (write_all inputs opened).1).1.calls
  unfolding open_for_write
  write_all-IsPublished parse chunk_bytes path meta parent name inputs gives all_written closed =
      let opened = open_for_write chunk_bytes path meta parent name in
      let (o, buf, s) =
        write_all-Streams inputs [] (new_buffer chunk_bytes) opened refl
          (open_for_write-Streams chunk_bytes path meta parent name) all_written in
      let t =
        write_all-Sessions meta.id parent name inputs opened gives
          (open_for_write-Sessions client chunk_bytes path meta parent name) all_written in
      close-IsPublished client parse meta.id parent name (flatten inputs) buf
        (write_all inputs opened).1 o s t closed
