-- ===== src/Actions.antt =====
-- The calls that src/gdrive_filesystem.cpp and src/gdrive_mutate.cpp make of the Drive client, as actions
-- on the path cache and the calls made so far. The client is any object that answers each call from the
-- calls before it, and may throw; an exception is a value.
pub mod Traces
pub mod Results
use duckdb_gdrive.Base.{Bool, true, false, List, [], ◌∷◌, ◌++◌, if◌then◌else◌}
use duckdb_gdrive.Base.Text.{Bytes}
use duckdb_gdrive.Errors.{GDriveError}
use duckdb_gdrive.Client.{DriveResponse}
use duckdb_gdrive.PathCache.{PathCache}

-- List with the query and the page token, GetMetadata, Move with the new parent, the new name and the
-- old parent, Delete with whether it is permanent, Upload of a folder with the parent and the name.
pub data FsCall : Type 0 where
  lists : Bytes → Bytes → FsCall
  gets_metadata : Bytes → FsCall
  moves : Bytes → Bytes → Bytes → Bytes → FsCall
  deletes : Bytes → Bool → FsCall
  creates_folder : Bytes → Bytes → FsCall

pub data Reply : Type 0 where
  answered : DriveResponse → Reply
  thrown : Reply

abbrev pub DriveClient : Type 0
DriveClient = List FsCall → FsCall → Reply

pub record World : Type 0 where
  pub cache : PathCache
  pub calls : List FsCall

-- What is thrown, with the path or the ids that its message names.
pub data FsError : Type 0 where
  drive_error : GDriveError → Bytes → FsError
  malformed_listing malformed_metadata no_such_file is_directory not_directory : Bytes → FsError
  ambiguous : List Bytes → Bytes → FsError
  invalid_uri names_no_file names_no_folder target_is_id file_in_the_way : Bytes → FsError
  client_threw fetch_threw : FsError

-- unfinished is a loop that has not come to its end, or a wait for another thread.
pub data Result {ℓ} (A : Type ℓ) : Type ℓ where
  returns : A → Result A
  throws : FsError → Result A
  unfinished : Result A

abbrev pub Action : Type 0 → Type 0
Action A = World → Result A × World

-- What follows a result.
abbrev pub go_on : {A B : Type 0} → Result A → World → (A → Action B) → Result B × World
go_on (returns a) w f = f a w
go_on (throws e) w f = (throws e, w)
go_on unfinished w f = (unfinished, w)

infixl 5 ◌>>=◌ ◌>>◌
abbrev pub ◌>>=◌ : {A B : Type 0} → Action A → (A → Action B) → Action B
(m >>= f) w = go_on (m w).0 (m w).1 f

abbrev pub ◌>>◌ : {B : Type 0} → Action Unit → Action B → Action B
m >> k = m >>= λ _. k

abbrev pub pure : {A : Type 0} → A → Action A
pure a w = (returns a, w)

abbrev pub throw : {A : Type 0} → FsError → Action A
throw e w = (throws e, w)

abbrev pub never : {A : Type 0} → Action A
never w = (unfinished, w)

-- A change of the path cache.
abbrev pub change : (PathCache → PathCache) → Action Unit
change f w = (returns tt, record w { cache = f w.cache })

-- An operation of the path cache that has a result.
abbrev pub with_cache : {A : Type 0} → (PathCache → A × PathCache) → Action A
with_cache f w = (returns (f w.cache).0, record w { cache = (f w.cache).1 })

reply_of : Reply → Result DriveResponse
reply_of (answered r) = returns r
reply_of thrown = throws client_threw

unfoldable pub request : DriveClient → FsCall → Action DriveResponse
unfolding reply_of
request client call w = (reply_of (client w.calls call), record w { calls = w.calls ++ call ∷ [] })

-- if (!resp.ok) ThrowGDriveError(resp.error, context)
unfoldable pub require_ok : Bytes → DriveResponse → Action Unit
require_ok context r =
    if r.ok then (λ w. (returns tt, w)) else (λ w. (throws (drive_error r.error context), w))
