-- ===== src/Resolve.antt =====
-- Path resolution in src/gdrive_filesystem.cpp: listing by name, TryResolvePath and ResolvePath, and the
-- text of the queries. A loop over the pages of a listing runs on fuel, the number of its pages; the query
-- generation is that of the calling thread.
pub mod Query
pub mod Reads
use duckdb_gdrive.Base.{
  ℕ, zero, suc, Bool, true, false, not, ◌&&◌, ◌||◌, Option, none, some, List, [], ◌∷◌, ◌++◌, ◌==◌,
  if◌then◌else◌, map,
}
use duckdb_gdrive.Base.Text.{Bytes, codes, is_empty}
use duckdb_gdrive.Json.{Parser}
use duckdb_gdrive.Errors.{GDriveErrorKind, not_found}
use duckdb_gdrive.Client.{DriveFileMeta, DriveResponse, parse_file_meta, parse_file_list}
use duckdb_gdrive.Uri.{GDriveUri, GDriveUriKind, path, file_id, join, to_string}
use duckdb_gdrive.PathCache.{
  CacheKey, PathCache, Fetched, pending, settled, thrown, Flight, uncached, waits, fetches, try_get,
  put, look_up_metadata, settle_metadata,
}
use duckdb_gdrive.Actions.{
  FsCall, lists, gets_metadata, DriveClient, World, drive_error, malformed_listing,
  malformed_metadata, no_such_file, ambiguous, fetch_threw, Result, returns, throws, unfinished,
  Action, go_on, ◌>>=◌, ◌>>◌, pure, throw, never, change, with_cache, request, require_ok,
}

unfoldable pub escape_drive_query_literal : Bytes → Bytes
escape_drive_query_literal [] = []
escape_drive_query_literal (c ∷ s) =
    let rest = escape_drive_query_literal s in
    if c == b'\\' || c == b'\'' then b'\\' ∷ c ∷ rest else c ∷ rest

unfoldable pub children_query : Bytes → Bytes
children_query parent_id = codes "'" ++ parent_id ++ codes "' in parents and trashed=false"

unfoldable pub name_query : Bytes → Bytes → Bool → Bytes
unfolding escape_drive_query_literal
name_query parent_id name require_folder =
    codes "'"
    ++ parent_id
    ++ codes "' in parents and name='"
    ++ escape_drive_query_literal name
    ++ codes "' and trashed=false"
    ++ (if require_folder then codes " and mimeType='application/vnd.google-apps.folder'" else [])

-- GDriveAuthContext: whose Drive it is.
pub record Auth : Type 0 where
  pub identity : Bytes
  pub drive_id : Bytes
  pub root_folder_id : Bytes

unfoldable pub root_folder_for : Auth → Bytes
root_folder_for auth =
    if not (is_empty auth.root_folder_id)
    then auth.root_folder_id
    else if not (is_empty auth.drive_id)
    then auth.drive_id
    else codes "root"

abbrev pub cache_key : Auth → Bytes → CacheKey
cache_key auth canonical_path = record {
  identity = auth.identity;
  drive_id = auth.drive_id;
  root_folder_id = auth.root_folder_id;
  canonical_path = canonical_path;
}

unfoldable pub canonical_path_of : GDriveUri → Bytes
unfolding join
canonical_path_of uri = elim uri.kind [ path ↦ join uri.segments | file_id ↦ [] ]

-- canonical += (canonical.empty() ? "" : "/") + segment
abbrev pub extend : Bytes → Bytes → Bytes
extend canonical segment = if is_empty canonical then segment else canonical ++ b'/' ∷ segment

abbrev pub is_not_found : GDriveErrorKind → Bool
is_not_found not_found = true
is_not_found _ = false

abbrev pub outcome_of : Result (Option DriveFileMeta) → Fetched
outcome_of (returns file) = settled file
outcome_of (throws e) = thrown
outcome_of unfinished = pending

abbrev pub waited : Fetched → Result (Option DriveFileMeta)
waited (settled file) = returns file
waited thrown = throws fetch_threw
waited pending = unfinished

module _ (parse : Parser) (client : DriveClient) (pages : ℕ) where
  -- The do-while loop of ListByName and ListChildren.
  unfoldable pub list_pages :
      ℕ → Bytes → Bytes → Bytes → List DriveFileMeta → Action (List DriveFileMeta)
  unfolding request require_ok parse_file_list
  list_pages zero query token context matches = never
  list_pages (suc fuel) query token context matches = do
    resp ← request client (lists query token)
    require_ok context resp
    elim (parse_file_list parse resp.body) [
      | none ↦ throw (malformed_listing context)
      | some (page, next) ↦
          if is_empty next
          then pure (matches ++ page)
          else list_pages fuel query next context (matches ++ page)
    ]

  unfoldable pub list_by_name : Bytes → Bytes → Bool → Bytes → Action (List DriveFileMeta)
  unfolding list_pages name_query
  list_by_name parent_id name require_folder context =
      list_pages pages (name_query parent_id name require_folder) [] context []

  unfoldable pub list_children : Bytes → Bytes → Action (List DriveFileMeta)
  unfolding list_pages children_query
  list_children parent_id context = list_pages pages (children_query parent_id) [] context []

  after_get : DriveResponse → Bytes → Action (Option DriveFileMeta)
  unfolding parse_file_meta
  after_get resp context =
      if resp.ok
      then elim (parse_file_meta parse resp.body) [
        | none ↦ throw (malformed_metadata context)
        | some meta ↦ pure (some meta)
      ]
      else if is_not_found resp.error.kind
      then pure none
      else throw (drive_error resp.error context)

  -- One files.get; none where Drive has no such file.
  unfoldable pub fetch_metadata : Bytes → Bytes → Action (Option DriveFileMeta)
  unfolding request after_get
  fetch_metadata id context = do resp ← request client (gets_metadata id); after_get resp context

  -- GetOrFetchMetadata around that call, for the id: form of a URI.
  after_look_up : CacheKey → Bytes → Bytes → Flight → Action (Option DriveFileMeta)
  unfolding fetch_metadata settle_metadata
  after_look_up key id context uncached w = fetch_metadata id context w
  after_look_up key id context (waits promise) w = (waited (w.cache.promises promise), w)
  after_look_up key id context (fetches promise) w =
      let (result, w') = fetch_metadata id context w in
      (result, record w' { cache = settle_metadata key id promise (outcome_of result) w'.cache })

  unfoldable pub metadata_by_id : Auth → Bytes → Bytes → Action (Option DriveFileMeta)
  unfolding look_up_metadata after_look_up
  metadata_by_id auth id context = do
    flight ← with_cache (look_up_metadata (cache_key auth []) id)
    after_look_up (cache_key auth []) id context flight

  module _ (maximum_query_id generation : ℕ) where
    -- A file, and whether its metadata are of this query.
    abbrev pub Found : Type 0
    Found = Option (DriveFileMeta × Bool)

    -- The matches for a segment that the cache does not know.
    unfoldable pub single_match : Auth → Bytes → Bytes → List DriveFileMeta → Action Found
    unfolding put
    single_match auth canonical context [] = pure none
    single_match auth canonical context (meta ∷ []) =
        change (put generation (cache_key auth canonical) meta) >> pure (some (meta, true))
    single_match auth canonical context (meta ∷ other ∷ more) =
        throw (ambiguous (map (λ (m : DriveFileMeta). m.id) (meta ∷ other ∷ more)) context)

    -- One segment: from the cache, or by a listing.
    unfoldable pub find_segment : Auth → Bytes → Bytes → Bytes → Bool → Bytes → Action Found
    unfolding try_get list_by_name single_match
    find_segment auth canonical parent_id segment is_last context = do
      cached ← with_cache (try_get maximum_query_id generation (cache_key auth canonical))
      elim cached [
        | some hit ↦ pure (some hit)
        | none ↦ do
          matches ← list_by_name parent_id segment (not is_last) context
          single_match auth canonical context matches
      ]

    abbrev pub no_more : List Bytes → Bool
    no_more [] = true
    no_more (_ ∷ _) = false

    unfoldable pub walk : Auth → Bytes → List Bytes → Bytes → Bytes → Found → Action Found
    unfolding find_segment fetch_metadata
    walk auth context [] canonical parent_id (some meta) = pure (some meta)
    walk auth context [] canonical parent_id none = do
      root ← fetch_metadata parent_id context
      pure (elim root [ none ↦ none | some meta ↦ some (meta, false) ])
    walk auth context (segment ∷ segments) canonical parent_id have = do
      found ←
          find_segment auth (extend canonical segment) parent_id segment (no_more segments) context
      elim found [
        | none ↦ pure none
        | some hit ↦ walk auth context segments (extend canonical segment) hit.0.id (some hit)
      ]

    unfoldable pub try_resolve_path : Auth → GDriveUri → Action Found
    unfolding metadata_by_id walk root_folder_for to_string
    try_resolve_path auth uri = elim uri.kind [
      | file_id ↦ do
        file ← metadata_by_id auth uri.file_id (to_string uri)
        pure (elim file [ none ↦ none | some meta ↦ some (meta, false) ])
      | path ↦ walk auth (to_string uri) uri.segments [] (root_folder_for auth) none
    ]

    unfoldable pub resolve_path : Auth → GDriveUri → Action DriveFileMeta
    unfolding try_resolve_path
    resolve_path auth uri = do
      found ← try_resolve_path auth uri
      elim found [ none ↦ throw (no_such_file (to_string uri)) | some hit ↦ pure hit.0 ]
