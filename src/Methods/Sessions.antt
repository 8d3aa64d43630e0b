-- ===== src/Methods/Sessions.antt =====
-- StartResumableUpload in src/gdrive_client.cpp: a session that it says it has opened has an address.
use duckdb_gdrive.Base.{
  ℕ, ◌≡◌, refl, inl, inr, Bool-cases, Option-cases, true, false, none, some, List, [], ◌∷◌, sym,
  ◌∙◌, >>=-eq-some, subst,
}
use mathlib.Core.Option.{some-injective}
use duckdb_gdrive.Base.Text.{Bytes, is_empty}
use duckdb_gdrive.Json.{Json, Parser}
use duckdb_gdrive.Client.{DriveResponse, RawResult}
use duckdb_gdrive.UploadPlan.{drive_session_path}
use duckdb_gdrive.Send.{TokenSource}
use duckdb_gdrive.Requests.{start_resumable_call}
use duckdb_gdrive.Methods.{execute, check_session, start_resumable_upload}

abbrev HasAddress : DriveResponse → Type 0
HasAddress r = r.ok ≡ true → is_empty r.location ≡ false

no_path : (s : Bytes) → is_empty s ≡ true → drive_session_path s ≡ none
unfolding drive_session_path
no_path [] e = refl
no_path (c ∷ s) e = cc

address : (s path : Bytes) → drive_session_path s ≡ some path → is_empty s ≡ false
address s path h = elim (Bool-cases (is_empty s)) [
  | inl empty ↦ absurd (cc (sym (no_path s empty) ∙ h))
  | inr e ↦ e
]

check_session-HasAddress : (r : DriveResponse) → HasAddress (check_session r)
unfolding check_session
check_session-HasAddress r = elim (Option-cases (drive_session_path r.location)) [
  | inr (path, e) ↦ rw (e, check_session) (λ _. address r.location path e)
  | inl e ↦ elim (Bool-cases r.ok) [
    | inl ok ↦ rw (e, ok, check_session) (λ h. absurd (cc h))
    | inr bad ↦ rw (e, bad, check_session) (λ h. absurd (cc h))
  ]
]

pub start_resumable_upload-HasAddress :
    (parse : Parser) (serialize : Json → Bytes) (quota : Bytes) (tokens : TokenSource)
    (file_id parent_id name content_type : Bytes) (time : ℕ) (answers : List RawResult)
    (r : DriveResponse)
    → (start_resumable_upload parse serialize quota tokens file_id parent_id name content_type time
        answers).0
      ≡ some r
    → HasAddress r
unfolding start_resumable_upload
start_resumable_upload-HasAddress parse serialize quota tokens file_id parent_id name content_type
      time answers r h =
    let (raw, e, k) =
      >>=-eq-some
        (execute parse serialize quota tokens
          (start_resumable_call file_id parent_id name content_type) time answers).0
        _ h in
    subst HasAddress (some-injective _ _ k) (check_session-HasAddress raw)
