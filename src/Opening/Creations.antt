-- ===== src/Opening/Creations.antt =====
-- What OpenFile of src/gdrive_filesystem.cpp changes in Drive before a byte is written.
use duckdb_gdrive.Base.{
  ℕ, ◌≡◌, refl, sym, ap, ◌∙◌, ◌⊎◌, inl, inr, Bool, true, false, List, [], ◌∷◌, ◌++◌, if◌then◌else◌,
  All, All-append, drop, append_assoc, append-nil,
}
use duckdb_gdrive.Base.Text.{Bytes, is_empty}
use duckdb_gdrive.Json.{Parser}
use duckdb_gdrive.Client.{DriveFileMeta}
use duckdb_gdrive.Actions.{
  FsCall, DriveClient, World, Result, returns, throws, unfinished, Action, go_on, ◌>>=◌, throw,
  names_no_file,
}
use duckdb_gdrive.Actions.Traces.{IsRead, Reads, >>=-Reads, pure-Reads}
use duckdb_gdrive.Uri.{GDriveUri, GDriveUriKind, path, file_id, initial, file_name}
use duckdb_gdrive.Resolve.{Auth, root_folder_for, list_by_name}
use duckdb_gdrive.Resolve.Reads.{list_by_name-Reads}
use duckdb_gdrive.Opening.{
  Parent, ensure_parents, existing_file, of_same_name, open_path, write_to, WriteTarget,
  open_for_writing,
}
use duckdb_gdrive.Opening.Walk.{AreCreated, IsWalked, ensure-IsWalked}

-- Reads, and then the creation of folders for the segments from one of them on.
pub record IsOpening {A : Type 0} (segments : List Bytes) (w : World) (o : Result A × World)
    : Type 0 where
  pub reads : List FsCall
  pub creates : List FsCall
  pub grown : o.1.calls ≡ (w.calls ++ reads) ++ creates
  pub all_reads : All IsRead reads
  pub first : ℕ
  pub created : AreCreated creates (drop first segments)

if-IsOpening :
    {A : Type 0} {segments : List Bytes} (b : Bool) (m k : Action A) (w : World)
    → IsOpening segments w (m w)
    → IsOpening segments w (k w)
    → IsOpening segments w ((if b then m else k) w)
if-IsOpening true m k w h h' = h
if-IsOpening false m k w h h' = h'

kind_cases : (k : GDriveUriKind) → (k ≡ file_id) ⊎ (k ≡ path)
kind_cases file_id = inl refl
kind_cases path = inr refl

go_on-Opening :
    {A : Type 0} (segments : List Bytes) (w w' : World) (r : Result Parent) (f : Parent → Action A)
    → IsWalked segments w (r, w')
    → ((id : Bytes) (x : World) → (f (id, true) x).1.calls ≡ x.calls)
    → ((id : Bytes) → Reads (f (id, false)))
    → IsOpening segments w (go_on r w' f)
go_on-Opening segments w w' (returns (id, true)) f h k l = record {
  reads = h.reads;
  creates = h.creates;
  grown = k id w' ∙ h.grown;
  all_reads = h.all_reads;
  first = h.first;
  created = h.created;
}
go_on-Opening segments w w' (returns (id, false)) f h k l =
    let (more, e, all) = (l id).only_reads w' in
    record {
      reads = h.reads ++ more;
      creates = [];
      grown =
          e
          ∙ ap (λ (c : List FsCall). c ++ more)
              (h.grown
                ∙ ap (λ (c : List FsCall). (w.calls ++ h.reads) ++ c)
                    (h.none_made (id, false) refl refl)
                ∙ append-nil (w.calls ++ h.reads))
          ∙ append_assoc w.calls h.reads more
          ∙ sym (append-nil (w.calls ++ (h.reads ++ more)));
      all_reads = All-append IsRead h.reads more h.all_reads all;
      first = 0;
      created = tt;
    }
go_on-Opening segments w w' (throws e) f h k l = record {
  reads = h.reads;
  creates = h.creates;
  grown = h.grown;
  all_reads = h.all_reads;
  first = h.first;
  created = h.created;
}
go_on-Opening segments w w' unfinished f h k l = record {
  reads = h.reads;
  creates = h.creates;
  grown = h.grown;
  all_reads = h.all_reads;
  first = h.first;
  created = h.created;
}

module _ (parse : Parser) (client : DriveClient) (pages maximum_query_id generation : ℕ)
    (auth : Auth) (context : Bytes) where
  abbrev ensure : List Bytes → Bytes → Parent → Action Parent
  ensure segments accum parent =
      ensure_parents parse client pages maximum_query_id generation auth context segments accum
        parent

  existing-Reads :
      (name id : Bytes)
      → Reads
          (existing_file parse client pages maximum_query_id generation context name (id, false))
  unfolding existing_file of_same_name
  existing-Reads name id =
      >>=-Reads (list_by_name parse client pages id name false context) _
        (list_by_name-Reads parse client pages id name false context) (λ metas. same_name metas)
    where
      same_name :
          (metas : List DriveFileMeta)
          → Reads (of_same_name parse client pages maximum_query_id generation context metas)
      same_name [] = pure-Reads _
      same_name (meta ∷ []) = pure-Reads _
      same_name (meta ∷ other ∷ more) = pure-Reads _

  quiet :
      {A : Type 0} (segments : List Bytes) (w : World) (r : Result A) → IsOpening segments w (r, w)
  quiet segments w r = record {
    reads = [];
    creates = [];
    grown = sym (append-nil (w.calls ++ []) ∙ append-nil w.calls);
    all_reads = tt;
    first = 0;
    created = tt;
  }

  open_path-IsOpening :
      (uri : GDriveUri) (w : World)
      → IsOpening
          (initial uri.segments)
          w
          (open_path parse client pages maximum_query_id generation auth uri context w)
  unfolding open_path existing_file write_to
  open_path-IsOpening uri w =
      let walked = ensure (initial uri.segments) [] (root_folder_for auth, false) in
      let next : Parent → Action WriteTarget = λ p.
        existing_file parse client pages maximum_query_id generation context (file_name uri) p
        >>= write_to parse client pages maximum_query_id generation (file_name uri) p in
      let named : IsOpening (initial uri.segments) w ((walked >>= next) w) =
        go_on-Opening (initial uri.segments) w (walked w).1 (walked w).0 next
          (ensure-IsWalked parse client pages maximum_query_id generation auth context
            (initial uri.segments) [] (root_folder_for auth) w)
          (λ id x. refl)
          (λ id. >>=-Reads _ _ (existing-Reads (file_name uri) id) (λ found. pure-Reads _)) in
      if-IsOpening (is_empty (file_name uri)) (throw (names_no_file context)) (walked >>= next) w
        (quiet (initial uri.segments) w (throws (names_no_file context))) named

  -- Before a byte is written, OpenFile only reads, and then it creates folders that have the names of
  -- successive segments of the path, the file's own name left out; after the first creation it reads
  -- nothing.
  pub open_for_writing-IsOpening :
      (uri : GDriveUri) (w : World)
      → IsOpening
          (initial uri.segments)
          w
          (open_for_writing parse client pages maximum_query_id generation auth uri context w)
  unfolding open_for_writing
  open_for_writing-IsOpening uri w = elim (kind_cases uri.kind) [
    | inl by_id ↦
        rw (open_for_writing, by_id)
          (quiet (initial uri.segments) w
            (returns (record { parent_id = []; name = []; existing_id = uri.file_id })))
    | inr by_path ↦ rw (open_for_writing, by_path) (open_path-IsOpening uri w)
  ]
