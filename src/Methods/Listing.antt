-- ===== src/Methods/Listing.antt =====
-- List in src/gdrive_client.cpp, which follows the pages of a listing to the last one.
use duckdb_gdrive.Base.{
  ℕ, zero, suc, ◌+◌, ◌<◌, ◌≡◌, refl, sym, ◌↔◌, inl, inr, true, false, none, some, List, [], ◌∷◌,
  ◌++◌, arith, length, length-append, Bool-cases, Option-cases, ap, ◌∙◌, append_assoc, append-nil,
  All, if◌then◌else◌,
}
use mathlib.Core.Option.{some-injective}
use duckdb_gdrive.Base.Text.{Bytes, codes, is_empty}
use duckdb_gdrive.Json.{Json, Parser}
use duckdb_gdrive.Client.{
  DriveFileMeta, DriveResponse, RawResult, no_error, parse_file_list, url_encode,
}
use duckdb_gdrive.Encode.{list_fields_mask, all_drives_params}
use duckdb_gdrive.Send.{TokenSource, HttpRequest, get}
use duckdb_gdrive.Send.Outcome.{
  execute_with_retry_answered, execute_with_retry_owes, execute_with_retry_path,
}
use duckdb_gdrive.Requests.{list_call}
use duckdb_gdrive.Methods.{Outcome, execute, after_page, list_loop, list, listing_json}

is_empty-nil : (s : Bytes) → is_empty s ≡ true → s ≡ []
is_empty-nil [] h = refl
is_empty-nil (c ∷ s) h = cc

module _ (parse : Parser) (serialize : Json → Bytes) (quota : Bytes) (tokens : TokenSource)
    (drive_id query : Bytes) where
  abbrev page : Bytes → ℕ → List RawResult → Outcome
  page token time answers =
      execute parse serialize quota tokens (list_call drive_id query token) time answers

  -- The address of the listing, but for its page.
  abbrev pub listing_path : Bytes
  listing_path =
      codes "/drive/v3/files?q="
      ++ url_encode query
      ++ codes "&pageSize=1000&fields="
      ++ url_encode list_fields_mask
      ++ codes "&"
      ++ all_drives_params
      ++ (if is_empty drive_id then [] else codes "&corpora=drive&driveId=" ++ url_encode drive_id)

  -- The request asks for the page of that token, and for the first page without a token.
  abbrev pub Asks : Bytes → HttpRequest → Type 0
  Asks [] sent = (sent.method ≡ get) × (sent.path_and_query ≡ listing_path)
  Asks (c ∷ token) sent =
      (sent.method ≡ get)
      × (sent.path_and_query ≡ listing_path ++ (codes "&pageToken=" ++ url_encode (c ∷ token)))

  list_call-Asks :
      (token : Bytes) (sent : List HttpRequest)
      → All
          (λ (x : HttpRequest).
            (x.method ≡ get) × (x.path_and_query ≡ (list_call drive_id query token).path_and_query))
          sent
      → All (Asks token) sent
  unfolding list_call
  list_call-Asks token [] h = tt
  list_call-Asks [] (x ∷ sent) (h, more) =
      ((h.0, h.1 ∙ append-nil listing_path), list_call-Asks [] sent more)
  list_call-Asks (c ∷ token) (x ∷ sent) (h, more) = (h, list_call-Asks (c ∷ token) sent more)

  page-Asks :
      (token : Bytes) (time : ℕ) (answers : List RawResult)
      → All (Asks token) (page token time answers).1
  unfolding list_call
  page-Asks token time answers =
      list_call-Asks token (page token time answers).1
        (execute_with_retry_path parse quota tokens (list_call drive_id query token) time answers)

  -- The pages that Drive gives from a token on: each was asked for by the token of the one before it, was
  -- answered and could be read, and only the last one has no token.
  pub data Pages : Bytes → ℕ → List RawResult → List DriveFileMeta → Type 0 where
    last_page :
        {token : Bytes} {time : ℕ} {answers : List RawResult} {files : List DriveFileMeta}
        (r : DriveResponse)
        → All (Asks token) (page token time answers).1
        → (page token time answers).0 ≡ some r
        → r.ok ≡ true
        → parse_file_list parse r.body ≡ some (files, [])
        → Pages token time answers files
    next_page :
        {token : Bytes} {time : ℕ} {answers : List RawResult} (files rest : List DriveFileMeta)
        (next : Bytes) (r : DriveResponse)
        → All (Asks token) (page token time answers).1
        → (page token time answers).0 ≡ some r
        → r.ok ≡ true
        → parse_file_list parse r.body ≡ some (files, next)
        → is_empty next ≡ false
        → Pages next (time + length (page token time answers).1) (page token time answers).2 rest
        → Pages token time answers (files ++ rest)

  -- The response to a listing of these files.
  abbrev pub listed : List DriveFileMeta → DriveResponse
  listed files = record {
    ok = true;
    http_status = 200;
    body = serialize (listing_json files);
    error = no_error;
    location = [];
  }

  list_loop-Pages :
      (fuel : ℕ) (all_files : List DriveFileMeta) (token : Bytes) (time : ℕ)
      (answers : List RawResult) (r : DriveResponse)
      → (list_loop parse serialize quota tokens drive_id query fuel all_files token time answers).0
        ≡ some r
      → r.ok ≡ true
      → (files : List DriveFileMeta) × Pages token time answers files
        × (r ≡ listed (all_files ++ files))
  unfolding list_loop after_page
  list_loop-Pages zero all_files token time answers r h ok = cc
  list_loop-Pages (suc fuel) all_files token time answers r h ok =
      elim (Option-cases (page token time answers).0) [
        | inl e ↦ absurd (cc (rw (e, list_loop) at h))
        | inr (last, e) ↦ elim (Bool-cases last.ok) [
          | inr bad ↦ absurd (ground (arith, rw (e, list_loop, after_page, bad) at h))
          | inl good ↦ elim (Option-cases (parse_file_list parse last.body)) [
            | inl p ↦ absurd (ground (arith, rw (e, list_loop, after_page, good, p) at h))
            | inr ((files, next), p) ↦ elim (Bool-cases (is_empty next)) [
              | inl ends ↦
                  let same : some (listed (all_files ++ files)) ≡ some r =
                    rw (e, list_loop, after_page, good, p, ends) at h in
                  let none_left = ap (λ (x : Bytes). some (files, x)) (is_empty-nil next ends) in
                  (
                    files,
                    last_page last (page-Asks token time answers) e good (p ∙ none_left),
                    sym (some-injective _ _ same),
                  )
              | inr more ↦
                  let (rest, pages, same) =
                    list_loop-Pages fuel (all_files ++ files) next _ _ r
                      (rw (e, list_loop, after_page, good, p, more) at h) ok in
                  (
                    files ++ rest,
                    next_page files rest next last (page-Asks token time answers) e good p more
                        pages,
                    same ∙ ap listed (append_assoc all_files files rest),
                  )
            ]
          ]
        ]
      ]

  page-reads :
      (token : Bytes) (time : ℕ) (answers : List RawResult) (r : DriveResponse)
      → (page token time answers).0 ≡ some r
      → length (page token time answers).2 < length answers
  page-reads token time answers r h =
      let (before, answer, split, count, verdict) =
        execute_with_retry_answered parse quota tokens (list_call drive_id query token) time answers
          r h in
      omega (arith, ap length split, length-append before (answer ∷ (page token time answers).2))

  Pages-list_loop :
      (fuel : ℕ) (all_files files : List DriveFileMeta) (token : Bytes) (time : ℕ)
      (answers : List RawResult)
      → Pages token time answers files
      → length answers < fuel
      → (list_loop parse serialize quota tokens drive_id query fuel all_files token time answers).0
        ≡ some (listed (all_files ++ files))
  unfolding list_loop after_page
  Pages-list_loop zero all_files files token time answers pages h = absurd (omega arith)
  Pages-list_loop (suc fuel) all_files files token time answers (last_page r asked e good p) h =
      rw (e, list_loop, after_page, good, p) refl
  Pages-list_loop (suc fuel) all_files _ token time answers
        (next_page files rest next r asked e good p more pages) h =
      rw (e, list_loop, after_page, good, p, more)
        (Pages-list_loop fuel (all_files ++ files) rest next _ _ pages
            (omega (arith, page-reads token time answers r e))
          ∙ ap (λ (x : List DriveFileMeta). some (listed x)) (append_assoc all_files files rest))

  -- List succeeds exactly where Drive gives every page of the listing, to the last one, each
  -- asked for by the token of the page before it, and then its response holds the files of all the pages in
  -- their order: a listing is never cut short.
  pub list_iff :
      (page_token : Bytes) (time : ℕ) (answers : List RawResult) (r : DriveResponse)
      → (((list parse serialize quota tokens drive_id query page_token time answers).0 ≡ some r)
          × (r.ok ≡ true))
        ↔ ((files : List DriveFileMeta) × Pages page_token time answers files × (r ≡ listed files))
  unfolding list
  list_iff page_token time answers r = (
    λ (e, ok). list_loop-Pages (length answers + 1) [] page_token time answers r e ok,
    λ (files, pages, same). (
      Pages-list_loop (length answers + 1) [] files page_token time answers pages (omega arith)
          ∙ ap some (sym same),
      rw same refl,
    ),
  )

  list_loop-owes :
      (fuel : ℕ) (all_files : List DriveFileMeta) (token : Bytes) (time : ℕ)
      (answers : List RawResult)
      → length answers < fuel
      → (list_loop parse serialize quota tokens drive_id query fuel all_files token time answers).0
        ≡ none
      → (list_loop parse serialize quota tokens drive_id query fuel all_files token time answers).2
        ≡ []
  unfolding list_loop after_page
  list_loop-owes zero all_files token time answers h e = absurd (omega arith)
  list_loop-owes (suc fuel) all_files token time answers h e =
      elim (Option-cases (page token time answers).0) [
        | inl none_yet ↦
            rw (none_yet, list_loop)
              (execute_with_retry_owes parse quota tokens (list_call drive_id query token) time
                answers none_yet)
        | inr (last, got) ↦ elim (Bool-cases last.ok) [
          | inr bad ↦ absurd (cc (rw (got, list_loop, after_page, bad) at e))
          | inl good ↦ elim (Option-cases (parse_file_list parse last.body)) [
            | inl p ↦ absurd (cc (rw (got, list_loop, after_page, good, p) at e))
            | inr ((files, next), p) ↦ elim (Bool-cases (is_empty next)) [
              | inl ends ↦ absurd (cc (rw (got, list_loop, after_page, good, p, ends) at e))
              | inr more ↦
                  rw (got, list_loop, after_page, good, p, more)
                    (list_loop-owes fuel (all_files ++ files) next _ _
                      (omega (arith, page-reads token time answers last got))
                      (rw (got, list_loop, after_page, good, p, more) at e))
            ]
          ]
        ]
      ]

  -- List comes to an end: where it has no response yet, Drive's answers have run out.
  pub list_returns :
      (page_token : Bytes) (time : ℕ) (answers : List RawResult)
      → (list parse serialize quota tokens drive_id query page_token time answers).0 ≡ none
      → (list parse serialize quota tokens drive_id query page_token time answers).2 ≡ []
  unfolding list
  list_returns page_token time answers =
      list_loop-owes (length answers + 1) [] page_token time answers (omega arith)
