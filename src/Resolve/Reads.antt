-- ===== src/Resolve/Reads.antt =====
-- Resolving a path (src/gdrive_filesystem.cpp) changes nothing in Drive.
use duckdb_gdrive.Base.{
  ℕ, zero, suc, Bool, true, false, Option, none, some, List, [], ◌∷◌, not, refl, ◌++◌,
}
use duckdb_gdrive.Base.Text.{Bytes, is_empty}
use duckdb_gdrive.Json.{Parser}
use duckdb_gdrive.Client.{DriveFileMeta, DriveResponse, parse_file_list, parse_file_meta}
use duckdb_gdrive.Uri.{GDriveUri, GDriveUriKind, path, file_id, to_string}
use duckdb_gdrive.PathCache.{
  CacheKey, Flight, uncached, waits, fetches, try_get, put, look_up_metadata,
}
use duckdb_gdrive.Actions.{
  lists, gets_metadata, DriveClient, returns, unfinished, request, change, with_cache, ◌>>=◌, pure,
}
use duckdb_gdrive.Actions.Traces.{
  Reads, >>=-Reads, pure-Reads, request-Reads, require_ok-Reads, if-Reads, Option-Reads,
  change-Reads, with_cache-Reads, OnlyReads-refl,
}
use duckdb_gdrive.Resolve.{
  Auth, cache_key, extend, is_not_found, list_pages, list_by_name, after_get, fetch_metadata,
  after_look_up, metadata_by_id, single_match, find_segment, walk, try_resolve_path, resolve_path,
  no_more, Found, root_folder_for, name_query,
}

module _ (parse : Parser) (client : DriveClient) (pages : ℕ) where
  list_pages-Reads :
      (fuel : ℕ) (query token context : Bytes) (matches : List DriveFileMeta)
      → Reads (list_pages parse client pages fuel query token context matches)
  unfolding list_pages
  list_pages-Reads zero query token context matches = pure-Reads unfinished
  list_pages-Reads (suc fuel) query token context matches =
      >>=-Reads (request client (lists query token)) _ (request-Reads client (lists query token) tt)
        (λ resp. >>=-Reads _ _ (require_ok-Reads context resp) (λ done.
          Option-Reads (parse_file_list parse resp.body) _ _ (pure-Reads _) (λ p.
            if-Reads (is_empty p.1) _ _ (pure-Reads _)
              (list_pages-Reads fuel query p.1 context (matches ++ p.0)))))

  pub list_by_name-Reads :
      (parent_id name : Bytes) (require_folder : Bool) (context : Bytes)
      → Reads (list_by_name parse client pages parent_id name require_folder context)
  unfolding list_by_name
  list_by_name-Reads parent_id name require_folder context =
      list_pages-Reads pages (name_query parent_id name require_folder) [] context []

  after_get-Reads :
      (resp : DriveResponse) (context : Bytes) → Reads (after_get parse client pages resp context)
  unfolding after_get
  after_get-Reads resp context =
      if-Reads resp.ok _ _
        (Option-Reads (parse_file_meta parse resp.body) _ _ (pure-Reads _) (λ meta. pure-Reads _))
        (if-Reads (is_not_found resp.error.kind) _ _ (pure-Reads _) (pure-Reads _))

  fetch_metadata-Reads : (id context : Bytes) → Reads (fetch_metadata parse client pages id context)
  unfolding fetch_metadata
  fetch_metadata-Reads id context =
      >>=-Reads (request client (gets_metadata id)) _ (request-Reads client (gets_metadata id) tt)
        (λ resp. after_get-Reads resp context)

  after_look_up-Reads :
      (key : CacheKey) (id context : Bytes) (flight : Flight)
      → Reads (after_look_up parse client pages key id context flight)
  unfolding after_look_up
  after_look_up-Reads key id context uncached = fetch_metadata-Reads id context
  after_look_up-Reads key id context (waits promise) = record {
    only_reads = λ w. OnlyReads-refl w w refl;
  }
  after_look_up-Reads key id context (fetches promise) = record {
    only_reads = (fetch_metadata-Reads id context).only_reads;
  }

  metadata_by_id-Reads :
      (auth : Auth) (id context : Bytes) → Reads (metadata_by_id parse client pages auth id context)
  unfolding metadata_by_id
  metadata_by_id-Reads auth id context =
      >>=-Reads (with_cache (look_up_metadata (cache_key auth []) id)) _ (with_cache-Reads _)
        (λ flight. after_look_up-Reads (cache_key auth []) id context flight)

  module _ (maximum_query_id generation : ℕ) where
    single_match-Reads :
        (auth : Auth) (canonical context : Bytes) (matches : List DriveFileMeta)
        → Reads (
            single_match parse client pages maximum_query_id generation auth canonical context
              matches)
    unfolding single_match
    single_match-Reads auth canonical context [] = pure-Reads _
    single_match-Reads auth canonical context (meta ∷ []) =
        >>=-Reads (change (put generation (cache_key auth canonical) meta)) _ (change-Reads _)
          (λ done. pure-Reads (returns (some (meta, true))))
    single_match-Reads auth canonical context (meta ∷ other ∷ more) = pure-Reads _

    find_segment-Reads :
        (auth : Auth) (canonical parent_id segment : Bytes) (is_last : Bool) (context : Bytes)
        → Reads (
            find_segment parse client pages maximum_query_id generation auth canonical parent_id
              segment is_last context)
    unfolding find_segment
    find_segment-Reads auth canonical parent_id segment is_last context =
        >>=-Reads (with_cache (try_get maximum_query_id generation (cache_key auth canonical))) _
          (with_cache-Reads _)
          (λ cached.
            Option-Reads cached _ _
              (>>=-Reads (list_by_name parse client pages parent_id segment (not is_last) context) _
                (list_by_name-Reads parent_id segment (not is_last) context)
                (λ matches. single_match-Reads auth canonical context matches))
              (λ hit. pure-Reads (returns (some hit))))

    walk-Reads :
        (auth : Auth) (context : Bytes) (segments : List Bytes) (canonical parent_id : Bytes)
        (have : Found parse client pages maximum_query_id generation)
        → Reads (
            walk parse client pages maximum_query_id generation auth context segments canonical
              parent_id have)
    unfolding walk
    walk-Reads auth context [] canonical parent_id (some meta) = pure-Reads _
    walk-Reads auth context [] canonical parent_id none =
        >>=-Reads (fetch_metadata parse client pages parent_id context) _
          (fetch_metadata-Reads parent_id context)
          (λ root.
            pure-Reads (returns (elim root [ none ↦ none | some meta ↦ some (meta, false) ])))
    walk-Reads auth context (segment ∷ segments) canonical parent_id have =
        >>=-Reads
          (find_segment parse client pages maximum_query_id generation auth
            (extend canonical segment) parent_id segment
            (no_more parse client pages maximum_query_id generation segments) context)
          _ (find_segment-Reads auth (extend canonical segment) parent_id segment _ context)
          (λ found. Option-Reads found _ _ (pure-Reads _) (λ hit.
            walk-Reads auth context segments (extend canonical segment) hit.0.id (some hit)))

    try_resolve_path-Reads :
        (auth : Auth) (uri : GDriveUri)
        → Reads (try_resolve_path parse client pages maximum_query_id generation auth uri)
    unfolding try_resolve_path
    try_resolve_path-Reads auth uri = by_kind uri.kind
      where
        by_kind :
            (k : GDriveUriKind)
            → Reads (elim k [
              | file_id ↦
                  (metadata_by_id parse client pages auth uri.file_id (to_string uri)
                    >>= λ (file : Option DriveFileMeta).
                        pure (elim file [ none ↦ none | some meta ↦ some (meta, false) ]))
              | path ↦
                  walk parse client pages maximum_query_id generation auth
                    (to_string uri)
                    uri.segments
                    []
                    (root_folder_for auth)
                    none
            ])
        by_kind file_id =
            >>=-Reads (metadata_by_id parse client pages auth uri.file_id (to_string uri)) _
              (metadata_by_id-Reads auth uri.file_id (to_string uri))
              (λ file.
                pure-Reads (returns (elim file [ none ↦ none | some meta ↦ some (meta, false) ])))
        by_kind path = walk-Reads auth (to_string uri) uri.segments [] (root_folder_for auth) none

    -- Resolving a path only lists and reads metadata.
    pub resolve_path-Reads :
        (auth : Auth) (uri : GDriveUri)
        → Reads (resolve_path parse client pages maximum_query_id generation auth uri)
    unfolding resolve_path
    resolve_path-Reads auth uri =
        >>=-Reads (try_resolve_path parse client pages maximum_query_id generation auth uri) _
          (try_resolve_path-Reads auth uri)
          (λ found. Option-Reads found _ _ (pure-Reads _) (λ hit. pure-Reads (returns hit.0)))
