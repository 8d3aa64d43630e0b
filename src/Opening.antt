-- ===== src/Opening.antt =====
-- The write path of GDriveFileSystem::OpenFile in src/gdrive_filesystem.cpp: where a file that is opened
-- for writing goes, with the creation of the folders that are missing on the way.
pub mod Steps
pub mod Walk
pub mod Creations
use duckdb_gdrive.Base.{
  ℕ, Bool, true, false, not, Option, none, some, List, [], ◌∷◌, ◌++◌, if◌then◌else◌, map,
}
use duckdb_gdrive.Base.Text.{Bytes, is_empty}
use duckdb_gdrive.Json.{Parser}
use duckdb_gdrive.Client.{DriveFileMeta, is_folder, parse_file_meta}
use duckdb_gdrive.Uri.{GDriveUri, GDriveUriKind, path, file_id, file_name, initial}
use duckdb_gdrive.PathCache.{CacheKey, try_get, put, invalidate_prefix}
use duckdb_gdrive.Actions.{
  creates_folder, DriveClient, ambiguous, malformed_metadata, names_no_file, file_in_the_way,
  Action, ◌>>=◌, ◌>>◌, pure, throw, change, with_cache, request, require_ok,
}
use duckdb_gdrive.Resolve.{Auth, cache_key, extend, root_folder_for, list_by_name}

-- The folder and the name that Close writes to, or the file whose content it replaces.
pub record WriteTarget : Type 0 where
  pub parent_id : Bytes
  pub name : Bytes
  pub existing_id : Bytes

-- A folder's id, and whether the folder was created a moment ago.
abbrev pub Parent : Type 0
Parent = Bytes × Bool

-- A loop that assigns each entry of a kind to a pointer: the last one stays.
abbrev last_such :
    (DriveFileMeta → Bool) → Option DriveFileMeta → List DriveFileMeta → Option DriveFileMeta
last_such kind so_far [] = so_far
last_such kind so_far (m ∷ metas) = last_such kind (if kind m then some m else so_far) metas

abbrev ids : List DriveFileMeta → List Bytes
ids metas = map (λ (m : DriveFileMeta). m.id) metas

module _ (parse : Parser) (client : DriveClient) (pages maximum_query_id generation : ℕ) where
  adopt : CacheKey → DriveFileMeta → Action Parent
  unfolding put
  adopt key meta = change (put generation key meta) >> pure (meta.id, false)

  unfoldable pub create_parent : CacheKey → Bytes → Bytes → Bytes → Action Parent
  unfolding request require_ok put parse_file_meta
  create_parent key parent_id segment context = do
    resp ← request client (creates_folder parent_id segment)
    require_ok context resp
    elim (parse_file_meta parse resp.body) [
      | none ↦ throw (malformed_metadata context)
      | some created ↦ change (put generation key created) >> pure (created.id, true)
    ]

  -- There is no folder of the name: a file of the name is an error, a folder that came up meanwhile is
  -- taken, and else the folder is created.
  of_any_kind : CacheKey → Bytes → Bytes → Bytes → List DriveFileMeta → Action Parent
  unfolding adopt create_parent is_folder
  of_any_kind key parent_id segment context metas =
      elim (last_such (λ m. not (is_folder m)) none metas) [
        | some file ↦ throw (file_in_the_way segment)
        | none ↦ elim (last_such is_folder none metas) [
          | some folder ↦ adopt key folder
          | none ↦ create_parent key parent_id segment context
        ]
      ]

  of_folders : CacheKey → Bytes → Bytes → Bytes → List DriveFileMeta → Action Parent
  unfolding adopt of_any_kind list_by_name
  of_folders key parent_id segment context [] = do
    any_kind ← list_by_name parse client pages parent_id segment false context
    of_any_kind key parent_id segment context any_kind
  of_folders key parent_id segment context (meta ∷ []) = adopt key meta
  of_folders key parent_id segment context (meta ∷ other ∷ more) =
      throw (ambiguous (ids (meta ∷ other ∷ more)) context)

  probe : CacheKey → Bytes → Bytes → Bytes → Action Parent
  unfolding of_folders list_by_name
  probe key parent_id segment context = do
    matches ← list_by_name parse client pages parent_id segment true context
    of_folders key parent_id segment context matches

  -- A segment of the path to a file, in a folder that was not created a moment ago.
  unfoldable pub find_or_create : CacheKey → Bytes → Bytes → Bytes → Action Parent
  unfolding try_get probe is_folder invalidate_prefix
  find_or_create key parent_id segment context = do
    cached ← with_cache (try_get maximum_query_id generation key)
    elim cached [
      | none ↦ probe key parent_id segment context
      | some hit ↦
          if is_folder hit.0
          then pure (hit.0.id, false)
          else (change (invalidate_prefix key) >> probe key parent_id segment context)
    ]

  unfoldable pub ensure_parents : Auth → Bytes → List Bytes → Bytes → Parent → Action Parent
  unfolding find_or_create create_parent
  ensure_parents auth context [] accum parent = pure parent
  ensure_parents auth context (segment ∷ segments) accum (parent_id, parent_is_new) = do
    next ←
        (if parent_is_new
          then create_parent (cache_key auth (extend accum segment)) parent_id segment context
          else find_or_create (cache_key auth (extend accum segment)) parent_id segment context)
    ensure_parents auth context segments (extend accum segment) next

  of_same_name : Bytes → List DriveFileMeta → Action Bytes
  of_same_name context [] = pure []
  of_same_name context (meta ∷ []) = pure meta.id
  of_same_name context (meta ∷ other ∷ more) = throw (ambiguous (ids (meta ∷ other ∷ more)) context)

  -- The file that is there already, if any; a folder created a moment ago holds none.
  unfoldable pub existing_file : Bytes → Bytes → Parent → Action Bytes
  unfolding list_by_name of_same_name
  existing_file context name (parent_id, true) = pure []
  existing_file context name (parent_id, false) = do
    matches ← list_by_name parse client pages parent_id name false context
    of_same_name context matches

  write_to : Bytes → Parent → Bytes → Action WriteTarget
  write_to name parent existing_id =
      pure (record { parent_id = parent.0; name = name; existing_id = existing_id })

  unfoldable pub open_path : Auth → GDriveUri → Bytes → Action WriteTarget
  unfolding ensure_parents existing_file write_to file_name initial root_folder_for
  open_path auth uri context =
      if is_empty (file_name uri) then throw (names_no_file context) else (do
        parent ← ensure_parents auth context (initial uri.segments) [] (root_folder_for auth, false)
        existing_id ← existing_file context (file_name uri) parent
        write_to (file_name uri) parent existing_id)

  unfoldable pub open_for_writing : Auth → GDriveUri → Bytes → Action WriteTarget
  unfolding open_path
  open_for_writing auth uri context = elim uri.kind [
    | file_id ↦ pure (record { parent_id = []; name = []; existing_id = uri.file_id })
    | path ↦ open_path auth uri context
  ]
