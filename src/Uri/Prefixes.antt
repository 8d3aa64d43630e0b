-- ===== src/Uri/Prefixes.antt =====
-- Prefix matching on whole segments (PathMatchesAnyPrefix).
use duckdb_gdrive.Uri.Entries.{joined, joined-split_commas, split_commas-joined, split_commas-Lacks}
use duckdb_gdrive.Uri.Cleaning.{IsCleaned, clean_entry-IsCleaned, IsCleaned-clean_entry}
use duckdb_gdrive.Base.{
  ◌≡◌, ◌≢◌, ◌↔◌, ◌⊎◌, refl, true, inl, inr, Option, none, some, List, [], ◌∷◌, ◌++◌, arith, Any,
  All, sym, ap, ◌∙◌, Bool-cases, not,
}
use duckdb_gdrive.Base.Text.{
  Bytes, Lacks, eqb_iff, is_empty, strip_prefix?, strip_prefix?-append, strip_prefix?-eq-some,
}
use duckdb_gdrive.Uri.{
  at_boundary, matches_prefix, clean_entry, any_prefix, split_commas, path_matches_any_prefix,
}

-- The location is the directory of that name, or lies below it.
abbrev pub LiesUnder : Bytes → Bytes → Type 0
LiesUnder location prefix =
    (prefix ≢ []) × ((location ≡ prefix) ⊎ ((rest : Bytes) × (location ≡ prefix ++ b'/' ∷ rest)))

at_boundary-some :
    (o : Option Bytes) → at_boundary o ≡ true → (rest : Bytes) × (o ≡ some (b'/' ∷ rest))
unfolding at_boundary
at_boundary-some none h = cc
at_boundary-some (some []) h = cc
at_boundary-some (some (c ∷ rest)) h = (rest, ground arith)

below_sound :
    (location prefix : Bytes)
    → at_boundary (strip_prefix? prefix location) ≡ true
    → (rest : Bytes) × (location ≡ prefix ++ b'/' ∷ rest)
below_sound location prefix h =
    let (rest, e) = at_boundary-some (strip_prefix? prefix location) h in
    (rest, strip_prefix?-eq-some prefix location (b'/' ∷ rest) e)

below_complete :
    (prefix rest : Bytes) → at_boundary (strip_prefix? prefix (prefix ++ b'/' ∷ rest)) ≡ true
unfolding at_boundary
below_complete prefix rest = rw (strip_prefix?-append prefix (b'/' ∷ rest))

nonempty_iff : (s : Bytes) → (not (is_empty s) ≡ true) ↔ (s ≢ [])
nonempty_iff [] = (λ h. cc, λ h. absurd (h refl))
nonempty_iff (c ∷ s) = (λ h e. cc, λ h. refl)

-- A prefix matches the directory that it names and what lies below it, and no neighbour whose name
-- merely begins alike.
pub matches_prefix_iff :
    (location prefix : Bytes) → (matches_prefix location prefix ≡ true) ↔ LiesUnder location prefix
unfolding matches_prefix
matches_prefix_iff location prefix = (sound, complete)
  where
    sound : matches_prefix location prefix ≡ true → LiesUnder location prefix
    sound h =
        ground (arith, nonempty_iff prefix, eqb_iff location prefix, below_sound location prefix)

    complete : LiesUnder location prefix → matches_prefix location prefix ≡ true
    complete (h, inl e) = ground (arith, nonempty_iff prefix, eqb_iff location prefix)
    complete (h, inr (rest, e)) =
        rw e (ground (arith, nonempty_iff prefix, below_complete prefix rest))

any_prefix_sound :
    (location : Bytes) (entries : List Bytes)
    → any_prefix location entries ≡ true
    → Any (λ entry. (prefix : Bytes) × IsCleaned entry prefix × LiesUnder location prefix) entries
unfolding any_prefix
any_prefix_sound location [] h = cc
any_prefix_sound location (entry ∷ entries) h =
    let here = matches_prefix_iff location (clean_entry entry) in
    elim (Bool-cases (matches_prefix location (clean_entry entry))) [
      | inl e ↦ inl (clean_entry entry, clean_entry-IsCleaned entry, here.0 e)
      | inr e ↦ inr (any_prefix_sound location entries (ground arith))
    ]

any_prefix_complete :
    (location : Bytes) (entries : List Bytes)
    → Any (λ entry. (prefix : Bytes) × IsCleaned entry prefix × LiesUnder location prefix) entries
    → any_prefix location entries ≡ true
unfolding any_prefix
any_prefix_complete location [] h = absurd h
any_prefix_complete location (entry ∷ entries) (inl (prefix, cleaned, under)) =
    let same = IsCleaned-clean_entry entry prefix cleaned in
    rw (same, (matches_prefix_iff location prefix).1 under) refl
any_prefix_complete location (entry ∷ entries) (inr more) =
    ground (arith, any_prefix_complete location entries more)

some_entry : (P : Bytes → Type 0) (entries : List Bytes) → Any P entries → entries ≢ []
some_entry P [] h e = absurd h
some_entry P (x ∷ xs) h e = cc

-- The setting matches a path exactly when the path lies at or under one of its comma-separated
-- entries, without the blanks around the entry and without slashes at its end; an empty setting or path
-- matches nothing.
pub path_matches_any_prefix_iff :
    (location csv : Bytes)
    → (path_matches_any_prefix location csv ≡ true) ↔ (
        (csv ≢ [])
        × (location ≢ [])
        × ((entries : List Bytes) × (joined entries ≡ csv)
            × All (Lacks b',') entries
            × Any
                (λ entry. (prefix : Bytes) × IsCleaned entry prefix × LiesUnder location prefix)
                entries))
unfolding path_matches_any_prefix
path_matches_any_prefix_iff location csv =
    let setting = nonempty_iff csv in
    let named = nonempty_iff location in
    (
      λ h. (
        ground arith,
        ground arith,
        (
          split_commas csv,
          joined-split_commas csv,
          split_commas-Lacks csv,
          any_prefix_sound location (split_commas csv) (ground arith),
        ),
      ),
      λ (p, q, (entries, e, no_commas, under)).
          let same : split_commas csv ≡ entries =
            ap split_commas (sym e)
            ∙ split_commas-joined entries no_commas (some_entry _ entries under) in
          let found : any_prefix location (split_commas csv) ≡ true =
            rw same (any_prefix_complete location entries under) in
          ground (arith, setting.1 p, named.1 q, found),
    )
