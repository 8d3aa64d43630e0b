-- ===== src/Opening/Steps.antt =====
-- One segment of the way to a file that is opened for writing (src/gdrive_filesystem.cpp): it is found by
-- reading, or reading comes before its creation.
use duckdb_gdrive.Base.{
  ℕ, ◌≡◌, refl, sym, ap, ◌⊎◌, inl, inr, Bool, true, false, not, Option, none, some, List, [], ◌∷◌,
  if◌then◌else◌,
}
use duckdb_gdrive.Base.Text.{Bytes}
use duckdb_gdrive.Json.{Parser}
use duckdb_gdrive.Client.{DriveFileMeta, is_folder}
use duckdb_gdrive.PathCache.{CacheKey, try_get, put, invalidate_prefix}
use duckdb_gdrive.Actions.{
  DriveClient, World, FsError, Result, returns, throws, unfinished, Action, go_on, ◌>>=◌, pure,
  throw, change, with_cache,
}
use duckdb_gdrive.Actions.Traces.{
  OnlyReads, OnlyReads-refl, OnlyReads-trans, Reads, change-Reads, with_cache-Reads,
}
use duckdb_gdrive.Resolve.{list_by_name}
use duckdb_gdrive.Resolve.Reads.{list_by_name-Reads}
use duckdb_gdrive.Opening.{
  Parent, adopt, create_parent, of_any_kind, of_folders, probe, find_or_create, last_such,
}

-- The result is a folder that was there, or there is none.
abbrev pub IsOld : Result Parent → Type 0
IsOld r = (p : Parent) → r ≡ returns p → p.1 ≡ false

-- An action only reads, and finds a folder that was there if it returns; or it reads and then is the
-- creation.
pub record Steps (creation m : Action Parent) : Type 0 where
  pub step :
      (w : World)
      → (OnlyReads w (m w).1 × IsOld (m w).0)
        ⊎ ((mid : World) × OnlyReads w mid × (m w ≡ creation mid))

old :
    (creation : Action Parent) (id : Bytes) (w w' : World)
    → OnlyReads w w'
    → OnlyReads w w' × IsOld (returns (id, false))
old creation id w w' h = (h, λ p e. ap (λ (r : Result Parent). second r) (sym e))
  where
    second : Result Parent → Bool
    second (returns p) = p.1
    second (throws e) = false
    second unfinished = false

module _ (creation : Action Parent) where
  go_on-Steps :
      {A : Type 0} (r : Result A) (w w' : World) (f : A → Action Parent)
      → OnlyReads w w'
      → ((a : A) → Steps creation (f a))
      → (OnlyReads w (go_on r w' f).1 × IsOld (go_on r w' f).0)
        ⊎ ((mid : World) × OnlyReads w mid × (go_on r w' f ≡ creation mid))
  go_on-Steps (returns a) w w' f h k = elim ((k a).step w') [
    | inl (more, is_old) ↦ inl (OnlyReads-trans w w' (f a w').1 h more, is_old)
    | inr (mid, more, e) ↦ inr (mid, OnlyReads-trans w w' mid h more, e)
  ]
  go_on-Steps (throws e) w w' f h k = inl (h, λ p eq. absurd (cc eq))
  go_on-Steps unfinished w w' f h k = inl (h, λ p eq. absurd (cc eq))

  >>=-Steps :
      {A : Type 0} (m : Action A) (f : A → Action Parent)
      → Reads m
      → ((a : A) → Steps creation (f a))
      → Steps creation (m >>= f)
  >>=-Steps m f h k = record { step = λ w. go_on-Steps (m w).0 w (m w).1 f (h.only_reads w) k }

  throw-Steps : (e : FsError) → Steps creation (throw e)
  throw-Steps e = record { step = λ w. inl (OnlyReads-refl w w refl, λ p eq. absurd (cc eq)) }

  found-Steps : (id : Bytes) → Steps creation (pure (id, false))
  found-Steps id = record { step = λ w. inl (old creation id w w (OnlyReads-refl w w refl)) }

  itself-Steps : Steps creation creation
  itself-Steps = record { step = λ w. inr (w, OnlyReads-refl w w refl, refl) }

  Option-Steps :
      {A : Type 0} (o : Option A) (m : Action Parent) (f : A → Action Parent)
      → Steps creation m
      → ((a : A) → Steps creation (f a))
      → Steps creation (elim o [ none ↦ m | some a ↦ f a ])
  Option-Steps none m f h k = h
  Option-Steps (some a) m f h k = k a

  if-Steps :
      (b : Bool) (m k : Action Parent)
      → Steps creation m
      → Steps creation k
      → Steps creation (if b then m else k)
  if-Steps true m k h h' = h
  if-Steps false m k h h' = h'

module _ (parse : Parser) (client : DriveClient) (pages maximum_query_id generation : ℕ) where
  module _ (key : CacheKey) (parent_id segment context : Bytes) where
    abbrev creation : Action Parent
    creation =
        create_parent parse client pages maximum_query_id generation key parent_id segment context

    adopt-Steps :
        (meta : DriveFileMeta)
        → Steps creation (adopt parse client pages maximum_query_id generation key meta)
    unfolding adopt
    adopt-Steps meta =
        >>=-Steps creation (change (put generation key meta)) _ (change-Reads _)
          (λ done. found-Steps creation meta.id)

    of_any_kind-Steps :
        (metas : List DriveFileMeta)
        → Steps creation (
            of_any_kind parse client pages maximum_query_id generation key parent_id segment context
              metas)
    unfolding of_any_kind
    of_any_kind-Steps metas =
        Option-Steps creation (last_such (λ m. not (is_folder m)) none metas) _ _
          (Option-Steps creation (last_such is_folder none metas) _ _ (itself-Steps creation)
            (λ folder. adopt-Steps folder))
          (λ file. throw-Steps creation _)

    of_folders-Steps :
        (metas : List DriveFileMeta)
        → Steps creation (
            of_folders parse client pages maximum_query_id generation key parent_id segment context
              metas)
    unfolding of_folders
    of_folders-Steps [] =
        >>=-Steps creation (list_by_name parse client pages parent_id segment false context) _
          (list_by_name-Reads parse client pages parent_id segment false context)
          (λ metas. of_any_kind-Steps metas)
    of_folders-Steps (meta ∷ []) = adopt-Steps meta
    of_folders-Steps (meta ∷ other ∷ more) = throw-Steps creation _

    probe-Steps :
        Steps creation
          (probe parse client pages maximum_query_id generation key parent_id segment context)
    unfolding probe
    probe-Steps =
        >>=-Steps creation (list_by_name parse client pages parent_id segment true context) _
          (list_by_name-Reads parse client pages parent_id segment true context)
          (λ metas. of_folders-Steps metas)

    pub find_or_create-Steps : Steps creation (
        find_or_create parse client pages maximum_query_id generation key parent_id segment context)
    unfolding find_or_create
    find_or_create-Steps =
        >>=-Steps creation (with_cache (try_get maximum_query_id generation key)) _
          (with_cache-Reads _)
          (λ cached. Option-Steps creation cached _ _ probe-Steps (λ hit.
            if-Steps creation (is_folder hit.0) _ _ (found-Steps creation hit.0.id) (
              >>=-Steps creation (change (invalidate_prefix key)) _ (change-Reads _)
                (λ done. probe-Steps))))
