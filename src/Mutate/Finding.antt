-- ===== src/Mutate/Finding.antt =====
-- What MoveFile of src/gdrive_mutate.cpp has found out when it asks for the move: the file, the parents, and
-- the file that has the new name.
use duckdb_gdrive.Base.{
  ℕ, true, false, not, subst, Option, none, some, List, [], ◌∷◌, ◌≡◌, ◌≢◌, refl, ◌⊎◌, inl, inr, All,
  Any, Bool-cases, sym, ◌∙◌, ap,
}
use mathlib.Core.Option.{some-injective}
use duckdb_gdrive.Base.Text.{Bytes, eqb, eqb_iff, is_empty}
use duckdb_gdrive.Json.{Parser}
use duckdb_gdrive.Client.{DriveFileMeta}
use duckdb_gdrive.Uri.{GDriveUri, file_name, parent_path, to_string}
use duckdb_gdrive.Actions.{DriveClient, World, Result, FsError, returns, throws, Action}
use duckdb_gdrive.Actions.Results.{Gives, returns-injective, go_on-returns}
use duckdb_gdrive.Resolve.{Auth, list_by_name}
use duckdb_gdrive.Mutate.{MovePlan, is_path, without_id, old_parent, replaced_file, plan_move}
use duckdb_gdrive.Mutate.Plan.{resolve, parent_id_of}

-- Of the files of a name, each is the one that is moved or the one that is replaced; and what is replaced is
-- one of them, and not the one that is moved.
pub record IsChoice (id : Bytes) (existing : List DriveFileMeta) (replaced : Option Bytes)
    : Type 0 where
  pub taken : All (λ (m : DriveFileMeta). (m.id ≡ id) ⊎ (replaced ≡ some m.id)) existing
  pub other :
      (x : Bytes) → replaced ≡ some x → (x ≢ id) × Any (λ (m : DriveFileMeta). m.id ≡ x) existing

All-map :
    {P Q : DriveFileMeta → Type 0} (xs : List DriveFileMeta)
    → ((x : DriveFileMeta) → P x → Q x)
    → All P xs
    → All Q xs
All-map [] f h = tt
All-map (x ∷ xs) f h = (f x h.0, All-map xs f h.1)

-- Each of the files is that of the id, or has its id among the others.
abbrev Covers : Bytes → List DriveFileMeta → List DriveFileMeta → Type 0
Covers id kept files =
    All (λ (m : DriveFileMeta). (m.id ≡ id) ⊎ Any (λ (k : DriveFileMeta). k.id ≡ m.id) kept) files

Covers-more :
    (id : Bytes) (k : DriveFileMeta) (kept files : List DriveFileMeta)
    → Covers id kept files
    → Covers id (k ∷ kept) files
Covers-more id k kept [] h = tt
Covers-more id k kept (m ∷ files) (inl e, more) = (inl e, Covers-more id k kept files more)
Covers-more id k kept (m ∷ files) (inr at, more) = (inr (inr at), Covers-more id k kept files more)

without_id-Covers :
    (id : Bytes) (files : List DriveFileMeta) → Covers id (without_id id files) files
unfolding without_id
without_id-Covers id [] = tt
without_id-Covers id (m ∷ files) = elim (Bool-cases (eqb m.id id)) [
  | inl same ↦
      let step : without_id id (m ∷ files) ≡ without_id id files = rw (same, without_id) refl in
      subst (λ (kept : List DriveFileMeta). Covers id kept (m ∷ files)) (sym step)
        (inl ((eqb_iff m.id id).0 same), without_id-Covers id files)
  | inr other ↦
      let step : without_id id (m ∷ files) ≡ m ∷ without_id id files =
        rw (other, without_id) refl in
      subst (λ (kept : List DriveFileMeta). Covers id kept (m ∷ files)) (sym step)
        (inr (inl refl), Covers-more id m (without_id id files) files (without_id-Covers id files))
]

without_id-from :
    (id : Bytes) (files : List DriveFileMeta)
    → All
        (λ (k : DriveFileMeta). (k.id ≢ id) × Any (λ (m : DriveFileMeta). m.id ≡ k.id) files)
        (without_id id files)
unfolding without_id
without_id-from id [] = tt
without_id-from id (m ∷ files) =
    let later =
      All-map
        {P = λ (k : DriveFileMeta). (k.id ≢ id) × Any (λ (x : DriveFileMeta). x.id ≡ k.id) files}
        {Q = λ (k : DriveFileMeta).
          (k.id ≢ id) × Any (λ (x : DriveFileMeta). x.id ≡ k.id) (m ∷ files)}
        (without_id id files) (λ k h. (h.0, inr h.1)) (without_id-from id files) in
    elim (Bool-cases (eqb m.id id)) [
      | inl same ↦ rw (same, without_id) later
      | inr other ↦
          rw (other, without_id)
            (((λ e. cc (sym ((eqb_iff m.id id).1 e) ∙ other)), inl refl), later)
    ]

module _ (parse : Parser) (client : DriveClient) (pages maximum_query_id generation : ℕ)
    (auth : Auth) (source target : GDriveUri) (start : World) where
  abbrev listed : Bytes → Action (List DriveFileMeta)
  listed parent_id =
      list_by_name parse client pages parent_id (file_name target) false (to_string target)

  abbrev resolve_uri : GDriveUri → Action DriveFileMeta
  resolve_uri uri = resolve parse client pages maximum_query_id generation auth uri

  abbrev parent_of : Bytes → Action Bytes
  parent_of parent = parent_id_of parse client pages maximum_query_id generation auth parent

  -- The parent of the source, where that is a path, is found from the one world on.
  abbrev IsSourceParent : World → Bytes → World → Type 0
  IsSourceParent w id w' =
      (is_path source.kind ≡ true → Gives (parent_of (parent_path source)) w id w')
      × (is_path source.kind ≡ false → (id ≡ []) × (w ≡ w'))

  -- The plan is what resolving the source, then the parents, and then listing the target's name in its new
  -- parent have given, each in the world that the one before has left.
  pub record IsFoundPlan (plan : MovePlan) : Type 0 where
    pub source_file : DriveFileMeta
    pub existing : List DriveFileMeta
    pub at_source : World
    pub at_old_parent : World
    pub at_new_parent : World
    pub at_listing : World
    pub source_found : Gives (resolve_uri source) start source_file at_source
    pub source_is : plan.source_id ≡ source_file.id
    pub old_parent_is : IsSourceParent at_source plan.old_parent_id at_old_parent
    pub new_name_is : plan.new_name ≡ file_name target
    pub new_parent_found :
        Gives (parent_of (parent_path target)) at_old_parent plan.new_parent_id at_new_parent
    pub name_listed : Gives (listed plan.new_parent_id) at_new_parent existing at_listing
    pub choice : IsChoice plan.source_id existing plan.replaced

  abbrev replaced_among : List DriveFileMeta → Action (Option Bytes)
  replaced_among kept =
      replaced_file parse client pages maximum_query_id generation auth target kept

  replaced_file-IsChoice :
      (id : Bytes) (existing kept : List DriveFileMeta) (w : World) (found : Option Bytes)
      → without_id id existing ≡ kept
      → (replaced_among kept w).0 ≡ returns found
      → IsChoice id existing found
  unfolding replaced_file
  replaced_file-IsChoice id existing [] w found e h =
      let covers = without_id-Covers id existing in
      subst (IsChoice id existing) (returns-injective none found h) (record {
        taken =
            All-map existing (λ m c. elim c [ inl same ↦ inl same | inr k ↦ absurd k ])
              (rw e at covers);
        other = λ x none_is. absurd (cc none_is);
      })
  replaced_file-IsChoice id existing (k ∷ []) w found e h =
      let covers = without_id-Covers id existing in
      let from = without_id-from id existing in
      let it : (k.id ≢ id) × Any (λ (m : DriveFileMeta). m.id ≡ k.id) existing = (rw e at from).0 in
      subst (IsChoice id existing) (returns-injective (some k.id) found h) (record {
        taken =
            All-map existing
              (λ m c. elim c [
                | inl same ↦ inl same
                | inr (inl same) ↦ inr (ap some same)
                | inr (inr none_is) ↦ absurd none_is
              ])
              (rw e at covers);
        other = λ x some_is.
            let same = some-injective _ _ some_is in
            subst (λ (y : Bytes). (y ≢ id) × Any (λ (m : DriveFileMeta). m.id ≡ y) existing) same
              it;
      })
  replaced_file-IsChoice id existing (k ∷ k' ∷ more) w found e h = absurd (cc h)

  abbrev old_parent_found : Action Bytes
  old_parent_found = old_parent parse client pages maximum_query_id generation auth source

  old_parent-IsSourceParent :
      (w : World) (id : Bytes)
      → (old_parent_found w).0 ≡ returns id
      → IsSourceParent w id (old_parent_found w).1
  unfolding old_parent
  old_parent-IsSourceParent w id h = elim (Bool-cases (is_path source.kind)) [
    | inl it ↦ rw (it, old_parent) ((λ _. (rw (it, old_parent) at h, refl)), λ f. absurd (cc f))
    | inr other ↦
        rw (other, old_parent)
          (
            (λ f. absurd (cc f)),
            λ _. (sym (returns-injective [] id (rw (other, old_parent) at h)), refl),
          )
  ]

  abbrev planned : World → Result MovePlan × World
  planned w = plan_move parse client pages maximum_query_id generation auth source target w

  pub plan_move-IsFoundPlan :
      (plan : MovePlan) → (planned start).0 ≡ returns plan → IsFoundPlan plan
  unfolding plan_move
  plan_move-IsFoundPlan plan h = elim (Bool-cases (not (is_path target.kind))) [
    | inl bad ↦ absurd (threw (rw (bad, plan_move) at h))
    | inr good ↦
        let found = resolve_uri source start in
        let (meta, e1, h1) = go_on-returns found.0 found.1 _ plan (rw (good, plan_move) at h) in
        let old = old_parent_found found.1 in
        let (old_parent_id, e2, h2) = go_on-returns old.0 old.1 _ plan h1 in
        elim (Bool-cases (is_empty (file_name target))) [
          | inl bad ↦ absurd (threw (rw bad at h2))
          | inr named ↦
              let new_parent = parent_of (parent_path target) old.1 in
              let (new_parent_id, e3, h3) =
                go_on-returns new_parent.0 new_parent.1 _ plan (rw named at h2) in
              let names = listed new_parent_id new_parent.1 in
              let (existing, e4, h4) = go_on-returns names.0 names.1 _ plan h3 in
              let chosen = replaced_among (without_id meta.id existing) names.1 in
              let (replaced, e5, h5) = go_on-returns chosen.0 chosen.1 _ plan h4 in
              subst IsFoundPlan (returns-injective _ plan h5) (record {
                source_file = meta;
                existing = existing;
                at_source = found.1;
                at_old_parent = old.1;
                at_new_parent = new_parent.1;
                at_listing = names.1;
                source_found = (e1, refl);
                source_is = refl;
                old_parent_is = old_parent-IsSourceParent found.1 old_parent_id e2;
                new_name_is = refl;
                new_parent_found = (e3, refl);
                name_listed = (e4, refl);
                choice =
                    replaced_file-IsChoice meta.id existing (without_id meta.id existing) names.1
                      replaced refl e5;
              })
        ]
  ]
    where
      threw : {e : FsError} → throws e ≡ returns plan → ⊥
      threw e = cc
