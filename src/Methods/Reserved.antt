-- ===== src/Methods/Reserved.antt =====
-- Upload in src/gdrive_client.cpp: how often a file is created, with an id that was reserved and without.
use duckdb_gdrive.Base.{
  ℕ, ◌+◌, ◌-◌, ◌≤◌, ◌≡◌, ◌⊎◌, inl, inr, Bool, true, false, not, ◌&&◌, some, List, arith, length,
  take, All, Bool-cases, Option-cases, ◌==◌, ◌∙◌,
}
use duckdb_gdrive.Base.Text.{Bytes, eqb, is_empty}
use duckdb_gdrive.Json.{Json, Parser}
use duckdb_gdrive.Client.{DriveResponse, RawResult, folder_mime_type}
use duckdb_gdrive.Send.{Call, TokenSource, is_repeatable, is_idempotent}
use duckdb_gdrive.Send.Attempts.{IsUnauthenticated, execute_with_retry_once}
use duckdb_gdrive.Requests.{upload_call, get_metadata_call}
use duckdb_gdrive.Methods.{execute, upload, is_conflict}

module _ (parse : Parser) (serialize : Json → Bytes) (quota : Bytes) (tokens : TokenSource)
    (boundary file_id parent_id name content_type payload reserved_id : Bytes) (time : ℕ)
    (answers : List RawResult) where
  abbrev pub create : Call
  create = upload_call boundary file_id parent_id name content_type payload reserved_id

  -- A file is created under the reserved id.
  abbrev pub creates_reserved : Bool
  creates_reserved =
      not (eqb content_type folder_mime_type) && (is_empty file_id && not (is_empty reserved_id))

  upload_call-repeatable : is_repeatable create ≡ creates_reserved
  unfolding upload_call is_repeatable is_idempotent
  upload_call-repeatable = ground arith

  -- Without a reserved id the upload, of a folder, of a new file or of new content, is sent at most
  -- twice, and a second time only after Drive has refused the first for want of a valid token: no retry
  -- makes a second file.
  pub upload_once :
      creates_reserved ≡ false
      → (length
            (upload parse serialize quota tokens boundary file_id parent_id name content_type
              payload reserved_id time answers).1
          ≤ 2)
        × All (IsUnauthenticated parse) (
            take
              (length
                  (upload parse serialize quota tokens boundary file_id parent_id name content_type
                    payload reserved_id time answers).1
                - 1)
              answers)
  unfolding upload
  upload_once h = elim (Option-cases (execute parse serialize quota tokens create time answers).0) [
    | inl e ↦
        rw (e, upload)
          (execute_with_retry_once parse quota tokens create time answers
            (upload_call-repeatable ∙ h))
    | inr (r, e) ↦
        let plain : is_conflict content_type file_id reserved_id r ≡ false = ground arith in
        rw (e, upload, plain)
          (execute_with_retry_once parse quota tokens create time answers
            (upload_call-repeatable ∙ h))
  ]

  -- With a reserved id an upload succeeds with the answer to its create, or, where Drive refuses the
  -- create with 409 since the file is there already, with the metadata of that file.
  pub upload_reserved :
      (r : DriveResponse)
      → creates_reserved ≡ true
      → (upload parse serialize quota tokens boundary file_id parent_id name content_type payload
          reserved_id time answers).0
        ≡ some r
      → r.ok ≡ true
      → ((execute parse serialize quota tokens create time answers).0 ≡ some r)
        ⊎ ((c : DriveResponse) × ((execute parse serialize quota tokens create time answers).0
              ≡ some c)
            × (c.http_status ≡ 409)
            × ((execute parse serialize quota tokens
                  (get_metadata_call reserved_id)
                  (time + length (execute parse serialize quota tokens create time answers).1)
                  (execute parse serialize quota tokens create time answers).2).0
                ≡ some r))
  unfolding upload
  upload_reserved r h e ok =
      elim (Option-cases (execute parse serialize quota tokens create time answers).0) [
        | inl none_yet ↦ absurd (cc (rw (none_yet, upload) at e))
        | inr (c, got) ↦ elim (Bool-cases (not c.ok && c.http_status == 409)) [
          | inl conflict ↦
              let plain : is_conflict content_type file_id reserved_id c ≡ true = ground arith in
              inr (c, got, ground arith, rw (got, upload, plain) at e)
          | inr fine ↦
              let plain : is_conflict content_type file_id reserved_id c ≡ false = ground arith in
              inl (got ∙ rw (got, upload, plain) at e)
        ]
      ]
