-- ===== src/Mutate.antt =====
-- src/gdrive_mutate.cpp: removal, renaming and the creation of directories.
pub mod Plan
pub mod Finding
pub mod Moving
pub mod Forgetting
use duckdb_gdrive.Base.{
  ℕ, Bool, true, false, not, ◌||◌, Option, none, some, List, [], ◌∷◌, ◌++◌, if◌then◌else◌, map,
}
use duckdb_gdrive.Base.Text.{Bytes, eqb, is_empty}
use duckdb_gdrive.Json.{Parser}
use duckdb_gdrive.Client.{DriveFileMeta, is_folder}
use duckdb_gdrive.Uri.{
  GDriveUri, GDriveUriKind, path, file_id, GDriveUriParse, to_string, parent_path, file_name,
  parse_gdrive_uri,
}
use duckdb_gdrive.PathCache.{PathCache, invalidate_prefix}
use duckdb_gdrive.Actions.{
  FsCall, moves, deletes, creates_folder, DriveClient, ambiguous, is_directory, not_directory,
  invalid_uri, names_no_file, names_no_folder, target_is_id, Action, ◌>>=◌, ◌>>◌, pure, throw,
  change, request, require_ok,
}
use duckdb_gdrive.Resolve.{
  Auth, cache_key, canonical_path_of, root_folder_for, list_by_name, resolve_path,
}

abbrev pub is_path : GDriveUriKind → Bool
is_path path = true
is_path file_id = false

-- The entries of the URI's path and of the paths below it, for a URI that has a path.
unfoldable pub forget : Auth → GDriveUri → PathCache → PathCache
unfolding invalidate_prefix canonical_path_of
forget auth uri c =
    if is_path uri.kind then invalidate_prefix (cache_key auth (canonical_path_of uri)) c else c

-- remove_if over the ids
unfoldable pub without_id : Bytes → List DriveFileMeta → List DriveFileMeta
without_id id [] = []
without_id id (m ∷ metas) = let rest = without_id id metas in if eqb m.id id then rest else m ∷ rest

-- What MoveFile has found out before it changes anything.
pub record MovePlan : Type 0 where
  pub source_id : Bytes
  pub new_parent_id : Bytes
  pub new_name : Bytes
  pub old_parent_id : Bytes
  pub replaced : Option Bytes

module _ (parse : Parser) (client : DriveClient) (pages maximum_query_id generation : ℕ)
    (auth : Auth) where
  unfoldable pub resolve_parent_id : Bytes → Action Bytes
  unfolding root_folder_for parse_gdrive_uri resolve_path
  resolve_parent_id parent =
      if is_empty parent then pure (root_folder_for auth) else elim (parse_gdrive_uri parent) [
        | GDriveUriParse.error e ↦ throw (invalid_uri parent)
        | GDriveUriParse.ok uri ↦ do
          meta ← resolve_path parse client pages maximum_query_id generation auth uri
          pure meta.id
      ]

  -- The end of RemoveFile and RemoveDirectory.
  unfoldable pub delete_and_forget : GDriveUri → Bool → Bytes → Action Unit
  unfolding request require_ok forget to_string
  delete_and_forget uri permanent id = do
    resp ← request client (deletes id permanent)
    require_ok (to_string uri) resp
    change (forget auth uri)

  unfoldable pub remove_file : GDriveUri → Bool → Action Unit
  unfolding resolve_path delete_and_forget is_folder to_string
  remove_file uri permanent = do
    meta ← resolve_path parse client pages maximum_query_id generation auth uri
    if is_folder meta
        then throw (is_directory (to_string uri))
        else delete_and_forget uri permanent meta.id

  unfoldable pub remove_directory : GDriveUri → Bool → Action Unit
  unfolding resolve_path delete_and_forget is_folder to_string
  remove_directory uri permanent = do
    meta ← resolve_path parse client pages maximum_query_id generation auth uri
    if is_folder meta
        then delete_and_forget uri permanent meta.id
        else throw (not_directory (to_string uri))

  -- The id of the one file in the way, if there is one; more than one is an error.
  unfoldable pub replaced_file : GDriveUri → List DriveFileMeta → Action (Option Bytes)
  unfolding to_string
  replaced_file target [] = pure none
  replaced_file target (m ∷ []) = pure (some m.id)
  replaced_file target (m ∷ m' ∷ more) =
      throw (ambiguous (map (λ (x : DriveFileMeta). x.id) (m ∷ m' ∷ more)) (to_string target))

  unfoldable pub old_parent : GDriveUri → Action Bytes
  unfolding resolve_parent_id parent_path
  old_parent source =
      if is_path source.kind then resolve_parent_id (parent_path source) else pure []

  -- The part of MoveFile before the move.
  unfoldable pub plan_move : GDriveUri → GDriveUri → Action MovePlan
  unfolding resolve_path resolve_parent_id old_parent list_by_name replaced_file without_id
      file_name parent_path to_string
  plan_move source target =
      if not (is_path target.kind) then throw (target_is_id (to_string target)) else (do
        meta ← resolve_path parse client pages maximum_query_id generation auth source
        old_parent_id ← old_parent source
        if is_empty (file_name target) then throw (names_no_file (to_string target)) else (do
          new_parent_id ← resolve_parent_id (parent_path target)
          existing ←
              list_by_name parse client pages new_parent_id (file_name target) false
                (to_string target)
          replaced ← replaced_file target (without_id meta.id existing)
          pure (record {
            source_id = meta.id;
            new_parent_id = new_parent_id;
            new_name = file_name target;
            old_parent_id = old_parent_id;
            replaced = replaced;
          })))

  unfoldable pub delete_replaced : GDriveUri → Bool → Option Bytes → Action Unit
  unfolding request require_ok to_string
  delete_replaced target permanent none = pure tt
  delete_replaced target permanent (some id) = do
    resp ← request client (deletes id permanent)
    require_ok (to_string target) resp

  -- The move, then the deletion of what it replaces.
  unfoldable pub carry_out : GDriveUri → GDriveUri → Bool → MovePlan → Action Unit
  unfolding request require_ok delete_replaced forget to_string
  carry_out source target permanent plan = do
    resp ← request client (moves plan.source_id plan.new_parent_id plan.new_name plan.old_parent_id)
    require_ok (to_string source) resp
    delete_replaced target permanent plan.replaced
    change (forget auth source)
    change (forget auth target)

  unfoldable pub move_file : GDriveUri → GDriveUri → Bool → Action Unit
  unfolding plan_move carry_out
  move_file source target permanent = do
    plan ← plan_move source target
    carry_out source target permanent plan

  has_segments : List Bytes → Bool
  has_segments [] = false
  has_segments (_ ∷ _) = true

  -- The key of the invalidation is the parent's whole URI, as the source has it.
  unfoldable pub create_directory : GDriveUri → Action Unit
  unfolding has_segments resolve_parent_id request require_ok invalidate_prefix parent_path
      file_name to_string
  create_directory uri =
      if not (is_path uri.kind) || not (has_segments uri.segments)
      then throw (names_no_folder (to_string uri))
      else (do
        parent_id ← resolve_parent_id (parent_path uri)
        resp ← request client (creates_folder parent_id (file_name uri))
        require_ok (to_string uri) resp
        change (invalidate_prefix (cache_key auth (parent_path uri))))
