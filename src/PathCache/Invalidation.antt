-- ===== src/PathCache/Invalidation.antt =====
-- InvalidatePrefix of src/gdrive_path_cache.cpp: which entries go.
use duckdb_gdrive.Base.{
  ◌≡◌, refl, inl, inr, Bool, true, false, ◌&&◌, ◌||◌, none, some, [], ◌∷◌, ◌++◌, arith,
  if◌then◌else◌, Bool-cases, Option-cases, append_assoc, ap, sym, ◌∙◌,
}
use mathlib.Core.Option.{some-injective}
use duckdb_gdrive.Base.Text.{
  Bytes, codes, eqb, eqb_iff, eqb_refl, strip_prefix?, strip_prefix?-append, strip_prefix?-eq-some,
  Lacks, split_at?, split_at?-append,
}
use duckdb_gdrive.Assoc.{find}
use duckdb_gdrive.Assoc.Assigning.{find-erase_if}
use duckdb_gdrive.PathCache.{
  CacheKey, PathCache, separator, identity_prefix, key_text, starts_with, falls_under,
  invalidate_prefix,
}

-- The separator stands in no field but the path.
abbrev pub IsIdentity : CacheKey → Type 0
IsIdentity key =
    Lacks separator key.identity × Lacks separator key.drive_id × Lacks separator key.root_folder_id

abbrev pub same_identity : CacheKey → CacheKey → Bool
same_identity a b =
    eqb a.identity b.identity
    && (eqb a.drive_id b.drive_id && eqb a.root_folder_id b.root_folder_id)

-- The path itself, or one that goes on after it with a slash.
abbrev pub at_or_below : Bytes → Bytes → Bool
at_or_below path p = eqb p path || starts_with (path ++ codes "/") p

field_injective :
    (a b s t : Bytes)
    → Lacks separator a
    → Lacks separator b
    → a ++ separator ∷ s ≡ b ++ separator ∷ t
    → (a ≡ b) × (s ≡ t)
field_injective a b s t la lb e =
    let both : some (a, s) ≡ some (b, t) =
      sym (split_at?-append separator a s la)
      ∙ ap (split_at? separator) e
      ∙ split_at?-append separator b t lb in
    let pair = some-injective _ _ both in
    (ap (λ (p : Bytes × Bytes). p.0) pair, ap (λ (p : Bytes × Bytes). p.1) pair)

strip_prefix?-common : (p a b : Bytes) → strip_prefix? (p ++ a) (p ++ b) ≡ strip_prefix? a b
unfolding strip_prefix?
strip_prefix?-common [] a b = refl
strip_prefix?-common (c ∷ p) a b = ground (arith, strip_prefix?-common p a b)

eqb-common : (p a b : Bytes) → eqb (p ++ a) (p ++ b) ≡ eqb a b
unfolding eqb
eqb-common [] a b = refl
eqb-common (c ∷ p) a b = ground (arith, eqb-common p a b)

identity_prefix-append :
    (key : CacheKey) (s : Bytes)
    → identity_prefix key ++ s
      ≡ key.identity
        ++ separator ∷ (key.drive_id ++ separator ∷ (key.root_folder_id ++ separator ∷ s))
unfolding identity_prefix
identity_prefix-append key s =
    append_assoc key.identity _ s
    ∙ ap (λ (x : Bytes). key.identity ++ separator ∷ x) (append_assoc key.drive_id _ s)
    ∙ ap (λ (x : Bytes). key.identity ++ separator ∷ (key.drive_id ++ separator ∷ x))
        (append_assoc key.root_folder_id _ s)

identity_prefix_injective :
    (a b : CacheKey) (s t : Bytes)
    → IsIdentity a
    → IsIdentity b
    → identity_prefix a ++ s ≡ identity_prefix b ++ t
    → same_identity a b ≡ true
identity_prefix_injective a b s t ia ib e =
    let whole = sym (identity_prefix-append a s) ∙ e ∙ identity_prefix-append b t in
    let (first, rest) = field_injective a.identity b.identity _ _ ia.0 ib.0 whole in
    let (second, rest') = field_injective a.drive_id b.drive_id _ _ ia.1 ib.1 rest in
    let (third, _) = field_injective a.root_folder_id b.root_folder_id _ _ ia.2 ib.2 rest' in
    rw (first, second, third, eqb_refl b.identity, eqb_refl b.drive_id, eqb_refl b.root_folder_id)
      refl

same_identity-prefix :
    (a b : CacheKey) → same_identity a b ≡ true → identity_prefix a ≡ identity_prefix b
unfolding identity_prefix
same_identity-prefix a b h =
    let first : eqb a.identity b.identity ≡ true = ground arith in
    let second : eqb a.drive_id b.drive_id ≡ true = ground arith in
    let third : eqb a.root_folder_id b.root_folder_id ≡ true = ground arith in
    rw ((eqb_iff _ _).0 first, (eqb_iff _ _).0 second, (eqb_iff _ _).0 third) refl

combine : (x y y' z z' : Bool) → x ≡ true → y ≡ y' → z ≡ z' → (x && (y || z)) ≡ (y' || z')
combine x y y' z z' hx hy hz = rw (hx, hy, hz) refl

under_prefix :
    (p a b : Bytes)
    → (starts_with p (p ++ b)
        && (eqb (p ++ b) (p ++ a) || starts_with ((p ++ a) ++ codes "/") (p ++ b)))
      ≡ at_or_below a b
under_prefix p a b =
    let whole : starts_with p (p ++ b) ≡ true = rw (starts_with, strip_prefix?-append p b) refl in
    let below : starts_with ((p ++ a) ++ codes "/") (p ++ b) ≡ starts_with (a ++ codes "/") b =
      ap (λ (x : Bytes). starts_with x (p ++ b)) (append_assoc p a (codes "/"))
      ∙ rw (starts_with, strip_prefix?-common p (a ++ codes "/") b) refl in
    let same = eqb-common p b a in combine _ _ _ _ _ whole same below

falls_under_iff :
    (key j : CacheKey)
    → IsIdentity key
    → IsIdentity j
    → falls_under key (key_text j)
      ≡ (same_identity key j && at_or_below key.canonical_path j.canonical_path)
unfolding falls_under key_text
falls_under_iff key j ik ij = elim (Bool-cases (same_identity key j)) [
  | inl same ↦
      rw (same, same_identity-prefix key j same)
        (under_prefix (identity_prefix j) key.canonical_path j.canonical_path)
  | inr other ↦
      elim (Option-cases
        (strip_prefix? (identity_prefix key) (identity_prefix j ++ j.canonical_path))) [
          | inl e ↦
              let none_here : starts_with (identity_prefix key) (key_text j) ≡ false =
                rw (starts_with, e) refl in
              rw (other, none_here) refl
          | inr (r, e) ↦
              let whole = strip_prefix?-eq-some (identity_prefix key) _ r e in
              absurd (
                ground
                  (arith, identity_prefix_injective key j r j.canonical_path ik ij (sym whole)))
        ]
]

-- InvalidatePrefix drops the entry of the path and of each path below it, of the same identity, and
-- leaves every other entry as it was: neither a sibling whose name begins alike nor another identity
-- loses anything. No field of an identity holds the separator. Below is what goes on with a slash, so
-- that nothing but the root itself is below the empty path of the root.
pub find-invalidate_prefix :
    (key j : CacheKey) (c : PathCache)
    → IsIdentity key
    → IsIdentity j
    → find (key_text j) (invalidate_prefix key c).entries ≡ (
        if same_identity key j && at_or_below key.canonical_path j.canonical_path
        then none
        else find (key_text j) c.entries)
unfolding invalidate_prefix
find-invalidate_prefix key j c ik ij =
    find-erase_if (falls_under key) (key_text j) c.entries
    ∙ ap (λ (b : Bool). if b then none else find (key_text j) c.entries)
        (falls_under_iff key j ik ij)
