-- ===== src/Uri/RoundTrip.antt =====
-- Parsing and printing (ParseGDriveUri, ToString, ParentPath, FileName).
use duckdb_gdrive.Base.{
  ◌≡◌, ◌≢◌, ◌↔◌, refl, sym, ap, ◌∙◌, inl, inr, none, List, [], ◌∷◌, ◌++◌, arith, All, Option-cases,
  subst, if◌then◌else◌,
}
use duckdb_gdrive.Base.Text.{
  Bytes, codes, eqb_iff, is_empty, Lacks, strip_prefix?, strip_prefix?-append,
  strip_prefix?-eq-some, split_at?, split_at?-none, split_at?-Lacks,
}
use duckdb_gdrive.Uri.{
  empty_file_id, GDriveUri, GDriveUriKind, path, file_id, ok, error, UriError, gdrive_scheme,
  split_segments, join, uri_text, to_string, initial, last, parent_path, file_name, bad_segment,
  parse_path, parse_file_id, parse_rest, parse_gdrive_uri,
}
use duckdb_gdrive.Uri.Segments.{IsSegment, split_segments-IsSegment, split_segments-join}

abbrev pub IsAllowed : Bytes → Type 0
IsAllowed seg = (seg ≢ codes ".") × (seg ≢ codes "..")

-- What a parsed URI looks like: a file id with no slash, or segments with a name each.
abbrev pub IsUri : GDriveUri → Type 0
IsUri uri = elim uri.kind [
  | file_id ↦ (uri.segments ≡ []) × (uri.file_id ≢ []) × Lacks b'/' uri.file_id
  | path ↦ (uri.file_id ≡ []) × All IsSegment uri.segments × All IsAllowed uri.segments
]

-- No text of this form: a path whose text begins like a file id.
abbrev pub LeadsWithId : List Bytes → Type 0
LeadsWithId segments = (id : Bytes) × (join segments ≡ codes "id:" ++ id)

bad_segment-IsAllowed : (segs : List Bytes) → bad_segment segs ≡ none → All IsAllowed segs
unfolding bad_segment
bad_segment-IsAllowed [] h = tt
bad_segment-IsAllowed (seg ∷ segs) h =
    ground (arith, eqb_iff seg (codes "."), eqb_iff seg (codes ".."), bad_segment-IsAllowed segs)

IsAllowed-bad_segment : (segs : List Bytes) → All IsAllowed segs → bad_segment segs ≡ none
unfolding bad_segment
IsAllowed-bad_segment [] h = refl
IsAllowed-bad_segment (seg ∷ segs) h =
    ground
      (arith, eqb_iff seg (codes "."), eqb_iff seg (codes ".."), IsAllowed-bad_segment segs h.1)

ok-injective : {u v : GDriveUri} → ok u ≡ ok v → u ≡ v
ok-injective h = cc

parse_path-IsUri : (rest : Bytes) (uri : GDriveUri) → parse_path rest ≡ ok uri → IsUri uri
unfolding parse_path
parse_path-IsUri rest uri h = elim (Option-cases (bad_segment (split_segments rest))) [
  | inr (e, bad) ↦ absurd (impossible (rw (bad, parse_path) at h))
  | inl good ↦
      subst IsUri (ok-injective (rw (good, parse_path) at h))
        (refl, split_segments-IsSegment rest, bad_segment-IsAllowed (split_segments rest) good)
]
  where
    impossible : {e : UriError} → error e ≡ ok uri → ⊥
    impossible k = cc

parse_file_id-IsUri : (id : Bytes) (uri : GDriveUri) → parse_file_id id ≡ ok uri → IsUri uri
unfolding parse_file_id
parse_file_id-IsUri id uri h = elim (Option-cases (split_at? b'/' id)) [
  | inr (p, slash) ↦ absurd (impossible (rw (slash, parse_file_id) at h))
  | inl none_found ↦ go id (split_at?-none b'/' id none_found) (rw (none_found, parse_file_id) at h)
]
  where
    impossible : {e : UriError} → error e ≡ ok uri → ⊥
    impossible k = cc

    go :
        (t : Bytes)
        → Lacks b'/' t
        → (if is_empty t
            then error empty_file_id
            else ok (record { kind = file_id; file_id = t; segments = [] }))
          ≡ ok uri
        → IsUri uri
    go [] l k = absurd (impossible k)
    go (c ∷ t) l k = subst IsUri (ok-injective k) (refl, λ e. cc, l)

-- Every URI that parses is well formed: a file id that is not empty and holds no slash, or segments that
-- are not empty, hold no slash and are neither "." nor "..".
pub parse_gdrive_uri-IsUri : (s : Bytes) (uri : GDriveUri) → parse_gdrive_uri s ≡ ok uri → IsUri uri
unfolding parse_gdrive_uri parse_rest
parse_gdrive_uri-IsUri s uri h = elim (Option-cases (strip_prefix? gdrive_scheme s)) [
  | inl e ↦ absurd (impossible (rw (e, parse_gdrive_uri) at h))
  | inr (rest, e) ↦ elim (Option-cases (strip_prefix? (codes "id:") rest)) [
    | inl f ↦ parse_path-IsUri rest uri (rw (e, f, parse_gdrive_uri, parse_rest) at h)
    | inr (id, f) ↦ parse_file_id-IsUri id uri (rw (e, f, parse_gdrive_uri, parse_rest) at h)
  ]
]
  where
    impossible : {e : UriError} → error e ≡ ok uri → ⊥
    impossible k = cc

parse-scheme : (rest : Bytes) → parse_gdrive_uri (gdrive_scheme ++ rest) ≡ parse_rest rest
unfolding parse_gdrive_uri
parse-scheme rest = rw (parse_gdrive_uri, strip_prefix?-append gdrive_scheme rest)

parse_file_id-id :
    (id : Bytes)
    → id ≢ []
    → Lacks b'/' id
    → parse_file_id id ≡ ok (record { kind = file_id; file_id = id; segments = [] })
unfolding parse_file_id
parse_file_id-id [] h l = absurd (h refl)
parse_file_id-id (c ∷ id) h l = rw (split_at?-Lacks b'/' (c ∷ id) l, parse_file_id)

parse_path-join :
    (segs : List Bytes)
    → All IsSegment segs
    → All IsAllowed segs
    → parse_path (join segs) ≡ ok (record { kind = path; file_id = []; segments = segs })
unfolding parse_path
parse_path-join segs hs ha =
    rw (parse_path, split_segments-join segs hs, IsAllowed-bad_segment segs ha)
      (ap (λ (xs : List Bytes). ok (record { kind = path; file_id = []; segments = xs }))
        (split_segments-join segs hs))

parse_file_id-kind : (id : Bytes) (uri : GDriveUri) → parse_file_id id ≡ ok uri → uri.kind ≡ file_id
unfolding parse_file_id
parse_file_id-kind id uri h = elim (Option-cases (split_at? b'/' id)) [
  | inr (p, slash) ↦ cc (rw (slash, parse_file_id) at h)
  | inl none_found ↦ ground arith
]

not_leading :
    (segs : List Bytes) → ¬ LeadsWithId segs → strip_prefix? (codes "id:") (join segs) ≡ none
not_leading segs h = elim (Option-cases (strip_prefix? (codes "id:") (join segs))) [
  | inl e ↦ e
  | inr (id, e) ↦ absurd (h (id, strip_prefix?-eq-some (codes "id:") (join segs) id e))
]

parse-path_text :
    (segs : List Bytes)
    → All IsSegment segs
    → All IsAllowed segs
    → ¬ LeadsWithId segs
    → parse_gdrive_uri (gdrive_scheme ++ join segs)
      ≡ ok (record { kind = path; file_id = []; segments = segs })
unfolding parse_rest
parse-path_text segs hs ha free =
    parse-scheme (join segs) ∙ rw (parse_rest, not_leading segs free) (parse_path-join segs hs ha)

parse-id_text :
    (id : Bytes) → parse_gdrive_uri (gdrive_scheme ++ (codes "id:" ++ id)) ≡ parse_file_id id
unfolding parse_rest
parse-id_text id =
    parse-scheme (codes "id:" ++ id) ∙ rw (parse_rest, strip_prefix?-append (codes "id:") id)

reparse_parts :
    (kind : GDriveUriKind) (id : Bytes) (segs : List Bytes)
    → let uri : GDriveUri = record { kind = kind; file_id = id; segments = segs } in
      IsUri uri → (parse_gdrive_uri (to_string uri) ≡ ok uri) ↔ (¬ LeadsWithId segs)
unfolding to_string uri_text
reparse_parts path id segs (no_id, hs, ha) = (
  λ back leads. absurd (
      other_kind (
        parse_file_id-kind leads.0 _ (
          sym (parse-id_text leads.0)
          ∙ ap (λ (t : Bytes). parse_gdrive_uri (gdrive_scheme ++ t)) (sym leads.1)
          ∙ back))),
  λ free. rw no_id (parse-path_text segs hs ha free),
)
  where
    other_kind : path ≡ file_id → ⊥
    other_kind e = cc
reparse_parts file_id id segs (none_left, hid, lid) = (
  λ back leads. not_empty (subst (λ (xs : List Bytes). LeadsWithId xs) none_left leads),
  λ free. parse-id_text id ∙ rw none_left (parse_file_id-id id hid lid),
)
  where
    not_empty : LeadsWithId [] → ⊥
    not_empty (id', e) = cc

-- The text of a parsed URI parses to the same URI exactly when the text of its path does not begin
-- with "id:".
pub reparse_iff :
    (s : Bytes) (uri : GDriveUri)
    → parse_gdrive_uri s ≡ ok uri
    → (parse_gdrive_uri (to_string uri) ≡ ok uri) ↔ (¬ LeadsWithId uri.segments)
reparse_iff s uri h =
    reparse_parts uri.kind uri.file_id uri.segments (parse_gdrive_uri-IsUri s uri h)

initial-last :
    (seg : Bytes) (segs : List Bytes) → initial (seg ∷ segs) ++ last (seg ∷ segs) ∷ [] ≡ seg ∷ segs
unfolding initial last
initial-last seg [] = refl
initial-last seg (x ∷ xs) = ap (◌∷◌ seg) (initial-last x xs)

All-initial : (P : Bytes → Type 0) (segs : List Bytes) → All P segs → All P (initial segs)
unfolding initial
All-initial P [] h = tt
All-initial P (x ∷ []) h = tt
All-initial P (x ∷ y ∷ xs) h = (h.0, All-initial P (y ∷ xs) h.1)

-- The parent path of a well-formed path URI parses to its folder, and the file name completes it, as
-- long as the folder's text does not begin with "id:".
pub parent_path-parse :
    (seg : Bytes) (segs : List Bytes)
    → let uri : GDriveUri = record { kind = path; file_id = []; segments = seg ∷ segs } in
      IsUri uri
      → ¬ LeadsWithId (initial (seg ∷ segs))
      → (folder : List Bytes) × (parse_gdrive_uri (parent_path uri)
          ≡ ok (record { kind = path; file_id = []; segments = folder }))
        × (folder ++ file_name uri ∷ [] ≡ seg ∷ segs)
unfolding parent_path file_name
parent_path-parse seg segs (_, hs, ha) free = (
  initial (seg ∷ segs),
  parse-path_text (initial (seg ∷ segs)) (All-initial IsSegment (seg ∷ segs) hs)
      (All-initial IsAllowed (seg ∷ segs) ha) free,
  initial-last seg segs,
)
