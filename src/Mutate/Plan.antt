-- ===== src/Mutate/Plan.antt =====
-- What MoveFile of src/gdrive_mutate.cpp does before the move: it only reads.
use duckdb_gdrive.Base.{ℕ, false, not, none, some, List, [], ◌∷◌}
use duckdb_gdrive.Base.Text.{Bytes, is_empty}
use duckdb_gdrive.Json.{Parser}
use duckdb_gdrive.Client.{DriveFileMeta}
use duckdb_gdrive.Uri.{
  GDriveUri, GDriveUriParse, parse_gdrive_uri, file_name, parent_path, to_string,
}
use duckdb_gdrive.Actions.{
  DriveClient, returns, throws, Action, pure, throw, ◌>>=◌, target_is_id, names_no_file,
  invalid_uri,
}
use duckdb_gdrive.Actions.Traces.{Reads, >>=-Reads, pure-Reads, if-Reads}
use duckdb_gdrive.Resolve.{Auth, resolve_path, list_by_name, root_folder_for}
use duckdb_gdrive.Resolve.Reads.{resolve_path-Reads, list_by_name-Reads}
use duckdb_gdrive.Mutate.{
  is_path, without_id, resolve_parent_id, old_parent, replaced_file, plan_move,
}

module _ (parse : Parser) (client : DriveClient) (pages maximum_query_id generation : ℕ)
    (auth : Auth) where
  abbrev pub resolve : GDriveUri → Action DriveFileMeta
  resolve uri = resolve_path parse client pages maximum_query_id generation auth uri

  abbrev pub parent_id_of : Bytes → Action Bytes
  parent_id_of parent = resolve_parent_id parse client pages maximum_query_id generation auth parent

  parsed-Reads :
      (parent : Bytes) (p : GDriveUriParse)
      → Reads (elim p [
        | GDriveUriParse.error e ↦ throw (invalid_uri parent)
        | GDriveUriParse.ok uri ↦ (resolve uri >>= λ (meta : DriveFileMeta). pure meta.id)
      ])
  parsed-Reads parent (GDriveUriParse.error e) = pure-Reads (throws (invalid_uri parent))
  parsed-Reads parent (GDriveUriParse.ok uri) =
      >>=-Reads (resolve uri) _
        (resolve_path-Reads parse client pages maximum_query_id generation auth uri)
        (λ meta. pure-Reads (returns meta.id))

  pub resolve_parent_id-Reads : (parent : Bytes) → Reads (parent_id_of parent)
  unfolding resolve_parent_id
  resolve_parent_id-Reads parent =
      if-Reads (is_empty parent) _ _ (pure-Reads (returns (root_folder_for auth)))
        (parsed-Reads parent (parse_gdrive_uri parent))

  pub old_parent-Reads :
      (source : GDriveUri)
      → Reads (old_parent parse client pages maximum_query_id generation auth source)
  unfolding old_parent
  old_parent-Reads source =
      if-Reads (is_path source.kind) _ _ (resolve_parent_id-Reads (parent_path source))
        (pure-Reads (returns []))

  pub replaced_file-Reads :
      (target : GDriveUri) (files : List DriveFileMeta)
      → Reads (replaced_file parse client pages maximum_query_id generation auth target files)
  unfolding replaced_file
  replaced_file-Reads target [] = pure-Reads (returns none)
  replaced_file-Reads target (m ∷ []) = pure-Reads (returns (some m.id))
  replaced_file-Reads target (m ∷ m' ∷ more) = pure-Reads _

  pub plan_move-Reads :
      (source target : GDriveUri)
      → Reads (plan_move parse client pages maximum_query_id generation auth source target)
  unfolding plan_move
  plan_move-Reads source target =
      if-Reads (not (is_path target.kind)) _ _
        (pure-Reads (throws (target_is_id (to_string target))))
        (>>=-Reads (resolve source) _
          (resolve_path-Reads parse client pages maximum_query_id generation auth source)
          (λ meta.
            >>=-Reads (old_parent parse client pages maximum_query_id generation auth source) _
              (old_parent-Reads source)
              (λ old_parent_id.
                if-Reads (is_empty (file_name target)) _ _
                  (pure-Reads (throws (names_no_file (to_string target))))
                  (>>=-Reads (parent_id_of (parent_path target)) _
                    (resolve_parent_id-Reads (parent_path target))
                    (λ new_parent_id.
                      >>=-Reads
                        (list_by_name parse client pages new_parent_id (file_name target) false
                          (to_string target))
                        _
                        (list_by_name-Reads parse client pages new_parent_id (file_name target)
                          false (to_string target))
                        (λ existing.
                          >>=-Reads
                            (replaced_file parse client pages maximum_query_id generation auth
                              target (without_id meta.id existing))
                            _ (replaced_file-Reads target (without_id meta.id existing))
                            (λ replaced. pure-Reads (
                              returns (record {
                                source_id = meta.id;
                                new_parent_id = new_parent_id;
                                new_name = file_name target;
                                old_parent_id = old_parent_id;
                                replaced = replaced;
                              })))))))))
