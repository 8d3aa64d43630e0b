-- ===== src/Lib.antt =====
-- Verification of the gdrive extension: the parts of src/ that decide what is read from and
-- written to Google Drive, modelled as the sources state them. Text is a list of bytes, an
-- unsigned 64-bit number is a native natural number whose wrap-around is written out, and
-- int64_t is an integer with its range as a hypothesis. Mutexes, futures and attempts are
-- explicit: a method that holds a lock is one step, a thread is a state, and the answers of the
-- outside world are a list.
--
-- - Base: Boolean tests, lists, byte strings, decimal numbers and integers, shared by all.
-- - Json: the JSON values as picojson holds them. Its parser is a parameter.
-- - Errors: src/gdrive_errors.cpp, what a failed request means.
-- - Redact: RedactCredentials in src/gdrive_errors.cpp, with the rules that cover tokens, keys
--   and PEM blocks. Its searches run on fuel, one round more than the text has bytes, which is
--   enough.
-- - Message: FormatUserMessage in src/gdrive_errors.cpp.
-- - Client: src/gdrive_client.cpp, file metadata, payload parsers and responses.
-- - UploadPlan: src/gdrive_upload_plan.cpp, chunk sizes, the Range header, session paths and the
--   buffer of one chunk.
-- - UploadStep: NextUploadStep in src/gdrive_upload_plan.cpp, the retry state machine of a
--   chunk.
-- - UploadChunk: GDriveClientImpl::UploadChunk in src/gdrive_client.cpp, the loop that runs that
--   machine. It reads Drive's answers from a list, so it is structural; a list of more than 10 +
--   6 n answers is enough for a chunk of n bytes.
-- - Send: GDriveClientImpl::ExecuteWithRetry in src/gdrive_client.cpp, the attempts of one call
--   and the single refresh of the token after a 401. It reads Drive's answers from a list; six
--   are enough for one call.
-- - Encode: JsonEscape, the field masks, the Range header and the multipart bodies of
--   src/gdrive_client.cpp.
-- - Requests: the request that each method of GDriveClientImpl sends.
-- - Methods: the methods of GDriveClientImpl that look at the answer of a call, or make several
--   calls. The page loop of List runs on fuel, one round more than there are answers, which is
--   enough since each page takes one.
-- - Assoc: the lookups, insertions and erasures of an unordered map that the two caches use.
-- - PathCache: src/gdrive_path_cache.cpp, the entries by path and by file, the listings and
--   their removal.
-- - Actions: the calls of a client as a program of questions, so that a theorem speaks of every
--   Drive; a failure is an exception.
-- - Resolve: the resolution of a path to a file in src/gdrive_filesystem.cpp, segment by segment
--   through the cache, and the pages of a folder, which are read on fuel.
-- - Mutate: src/gdrive_mutate.cpp, removal, moving and the creation of folders.
-- - Opening: the write path of OpenFile in src/gdrive_filesystem.cpp, which creates the folders
--   that are missing.
-- - Reading: the Read methods of src/gdrive_filesystem.cpp. The sequential loop runs on fuel,
--   the bytes asked for, which is enough since each round takes one.
-- - Uri: src/gdrive_uri.cpp, the gdrive:// paths and the prefix settings.
-- - BlockCache: src/gdrive_blockcache.cpp, the cache of blocks that many threads share. Eviction
--   runs on fuel, one round for each entry, which is enough since each round takes one entry
--   away.
-- - WriteHandle: src/gdrive_upload.cpp, src/gdrive_file_handle.cpp and the sequential Write of
--   src/gdrive_filesystem.cpp. The client is an object that answers each call from the calls
--   before it, so that a theorem speaks of every client. Where a theorem speaks of what a file
--   holds in the end, an upload session that the client says it has opened has an address, as
--   StartResumableUpload makes sure. The loop of Write runs on fuel, the number of bytes, which
--   is enough since each round takes one.
-- - TokenPolicy: src/gdrive_token_policy.cpp, when a token is fresh and what follows a 401.
-- - Glob: src/gdrive_glob.cpp, the split of a pattern at its first wildcard and the expansion of
--   braces, whose levels of recursion are the 65 that the depth limit leaves.
-- - GlobMatch: MatchSegment of src/gdrive_glob.cpp, the matcher of one segment, which goes back
--   to the last star. It runs on fuel, the number of its starts times the most rounds that each
--   can take.
-- - GlobPath: MatchSegments and MatchPath of src/gdrive_glob.cpp, with the table of earlier
--   results. Its fuel is the number of segments on both sides.
-- - Tests: the theorems at concrete inputs.
--
-- Not modelled: the transport, the wait between two attempts, statistics and tracing, the DuckDB
-- registration of functions, settings and secrets, and the cryptography of service accounts,
-- which are calls of libraries; the opening of a file for reading, the recovery of a stale
-- handle, the walk of a glob over folders, and the sources of credentials. The counters of the
-- cache do not wrap, and allocation does not fail.
pub mod Base
pub mod Assoc
pub mod Json
pub mod Errors
pub mod Redact
pub mod Message
pub mod Client
pub mod Send
pub mod Encode
pub mod Requests
pub mod Methods
pub mod PathCache
pub mod Actions
pub mod Resolve
pub mod Mutate
pub mod Opening
pub mod Reading
pub mod UploadPlan
pub mod UploadStep
pub mod UploadChunk
pub mod Uri
pub mod BlockCache
pub mod WriteHandle
pub mod TokenPolicy
pub mod Glob
pub mod GlobMatch
pub mod GlobPath
pub mod Tests
