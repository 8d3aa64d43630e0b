-- ===== src/Uri/Probe.antt =====
-- The directory probe that DuckDB derives from a file id (IsFileIdFallbackGlobProbe).
use duckdb_gdrive.Base.{
  ◌≡◌, ◌↔◌, refl, ap, ◌∙◌, true, inl, inr, ◌∷◌, ◌++◌, arith, Option-cases, not, subst,
}
use duckdb_gdrive.Base.Text.{
  Bytes, codes, eqb_iff, eqb_refl, is_empty, Lacks, strip_prefix?, strip_prefix?-append,
  strip_prefix?-eq-some, split_at?, split_at?-some, split_at?-none, split_at?-append,
  split_at?-Lacks,
}
use duckdb_gdrive.Uri.{
  gdrive_scheme, is_extension_glob, is_last_glob, is_probe_tail, is_probe_rest,
  is_file_id_fallback_glob_probe,
}

-- The exact shape: a file id, "**", and "*." with an extension.
pub record FallbackProbe (uri : Bytes) : Type 0 where
  pub id : Bytes
  pub extension : Bytes
  pub id_nonempty : not (is_empty id) ≡ true
  pub id_whole : Lacks b'/' id
  pub extension_nonempty : not (is_empty extension) ≡ true
  pub extension_whole : Lacks b'/' extension
  pub shape : uri ≡ gdrive_scheme ++ (codes "id:" ++ (id ++ (codes "/**/*." ++ extension)))

extension_glob :
    (s : Bytes)
    → is_extension_glob s ≡ true
    → (ext : Bytes) × (s ≡ codes "*." ++ ext) × (not (is_empty ext) ≡ true)
unfolding is_extension_glob
extension_glob s h = elim (Option-cases (strip_prefix? (codes "*.") s)) [
  | inl e ↦ cc (rw (e, is_extension_glob) at h)
  | inr (ext, e) ↦ (ext, strip_prefix?-eq-some (codes "*.") s ext e, rw (e, is_extension_glob) at h)
]

last_glob :
    (s : Bytes)
    → is_last_glob s ≡ true
    → (ext : Bytes) × (s ≡ codes "*." ++ ext) × (not (is_empty ext) ≡ true) × Lacks b'/' ext
unfolding is_last_glob
last_glob s h = elim (Option-cases (split_at? b'/' s)) [
  | inr (p, e) ↦ cc (rw (e, is_last_glob) at h)
  | inl e ↦
      let (ext, shape, some_ext) = extension_glob s (rw (e, is_last_glob) at h) in
      let whole : Lacks b'/' (codes "*." ++ ext) =
        subst (Lacks b'/') shape (split_at?-none b'/' s e) in
      (ext, shape, some_ext, whole.1.1)
]

probe_tail :
    (s : Bytes)
    → is_probe_tail s ≡ true
    → (ext : Bytes) × (s ≡ codes "**/*." ++ ext) × (not (is_empty ext) ≡ true) × Lacks b'/' ext
unfolding is_probe_tail
probe_tail s h = elim (Option-cases (split_at? b'/' s)) [
  | inl e ↦ cc (rw (e, is_probe_tail) at h)
  | inr ((first, second), e) ↦
      let stars : first ≡ codes "**" = ground (arith, eqb_iff first (codes "**")) in
      let (ext, shape, some_ext, whole) = last_glob second (ground arith) in
      let (split, _) = split_at?-some b'/' s first second e in
      (
        ext,
        split
            ∙ ap (λ (t : Bytes). t ++ b'/' ∷ second) stars
            ∙ ap (λ (t : Bytes). codes "**" ++ b'/' ∷ t) shape,
        some_ext,
        whole,
      )
]

probe_sound : (uri : Bytes) → is_file_id_fallback_glob_probe uri ≡ true → FallbackProbe uri
unfolding is_file_id_fallback_glob_probe is_probe_rest
probe_sound uri h = elim (Option-cases (strip_prefix? gdrive_scheme uri)) [
  | inl e ↦ cc (rw (e, is_file_id_fallback_glob_probe) at h)
  | inr (rest, e) ↦ elim (Option-cases (strip_prefix? (codes "id:") rest)) [
    | inl f ↦ ground arith
    | inr (more, f) ↦ elim (Option-cases (split_at? b'/' more)) [
      | inl g ↦ ground arith
      | inr ((id, remainder), g) ↦
          let (ext, shape, some_ext, whole) = probe_tail remainder (ground arith) in
          let (split, id_whole) = split_at?-some b'/' more id remainder g in
          record {
            id = id;
            extension = ext;
            id_nonempty = ground arith;
            id_whole = id_whole;
            extension_nonempty = some_ext;
            extension_whole = whole;
            shape =
                strip_prefix?-eq-some gdrive_scheme uri rest e
                ∙ ap (◌++◌ gdrive_scheme) (strip_prefix?-eq-some (codes "id:") rest more f)
                ∙ ap (λ (t : Bytes). gdrive_scheme ++ (codes "id:" ++ t)) split
                ∙ ap (λ (t : Bytes). gdrive_scheme ++ (codes "id:" ++ (id ++ b'/' ∷ t))) shape;
          }
    ]
  ]
]

probe_complete : (uri : Bytes) → FallbackProbe uri → is_file_id_fallback_glob_probe uri ≡ true
unfolding is_file_id_fallback_glob_probe is_probe_rest is_probe_tail is_last_glob is_extension_glob
probe_complete uri p = rw (
  p.shape,
  is_file_id_fallback_glob_probe,
  strip_prefix?-append gdrive_scheme (codes "id:" ++ (p.id ++ (codes "/**/*." ++ p.extension))),
  strip_prefix?-append (codes "id:") (p.id ++ (codes "/**/*." ++ p.extension)),
  is_probe_rest,
  split_at?-append b'/' p.id (codes "**/*." ++ p.extension) p.id_whole,
  p.id_nonempty,
  is_probe_tail,
  split_at?-append b'/' (codes "**") (codes "*." ++ p.extension) (refl, (refl, tt)),
  eqb_refl (codes "**"),
  is_last_glob,
  split_at?-Lacks b'/' (codes "*." ++ p.extension) (refl, (refl, p.extension_whole)),
  is_extension_glob,
  strip_prefix?-append (codes "*.") p.extension,
  p.extension_nonempty,
)

-- The test accepts exactly the texts "gdrive://id:<id>/**/*.<ext>", where id and ext are not empty
-- and hold no slash.
pub is_file_id_fallback_glob_probe_iff :
    (uri : Bytes) → (is_file_id_fallback_glob_probe uri ≡ true) ↔ FallbackProbe uri
is_file_id_fallback_glob_probe_iff uri = (probe_sound uri, probe_complete uri)
