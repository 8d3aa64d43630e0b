-- ===== src/Uri/Entries.antt =====
-- The entries of a setting, between its commas (PathMatchesAnyPrefix).
use duckdb_gdrive.Base.{
  ℕ, ◌≡◌, ◌≢◌, refl, sym, ap, ◌∙◌, inl, inr, List, [], ◌∷◌, ◌++◌, ◌==◌, arith, All, Bool-cases,
}
use duckdb_gdrive.Base.Text.{Bytes, Lacks}
use duckdb_gdrive.Uri.{split_commas}

-- Texts with a comma between each and the next.
abbrev pub joined : List Bytes → Bytes
joined [] = []
joined (x ∷ []) = x
joined (x ∷ y ∷ more) = x ++ (b',' ∷ joined (y ∷ more))

split_commas-some : (s : Bytes) → (x : Bytes) × (more : List Bytes) × (split_commas s ≡ x ∷ more)
unfolding split_commas
split_commas-some [] = ([], [], refl)
split_commas-some (c ∷ s) =
    let (x, more, e) = split_commas-some s in
    elim (Bool-cases (c == b',')) [
      | inl it ↦ rw (it, split_commas) ([], split_commas s, refl)
      | inr other ↦ rw (other, e, split_commas) (c ∷ x, more, refl)
    ]

joined-cons :
    (c : ℕ) (x : Bytes) (more : List Bytes) → joined ((c ∷ x) ∷ more) ≡ c ∷ joined (x ∷ more)
joined-cons c x [] = refl
joined-cons c x (y ∷ more) = refl

pub joined-split_commas : (csv : Bytes) → joined (split_commas csv) ≡ csv
unfolding split_commas
joined-split_commas [] = refl
joined-split_commas (c ∷ s) =
    let (x, more, e) = split_commas-some s in
    let rest : joined (x ∷ more) ≡ s = ap joined (sym e) ∙ joined-split_commas s in
    elim (Bool-cases (c == b',')) [
      | inl it ↦
          let comma : b',' ≡ c = ground arith in
          rw (it, e, split_commas) (ap (◌∷◌ b',') rest ∙ ap (λ (d : ℕ). d ∷ s) comma)
      | inr other ↦ rw (other, e, split_commas) (joined-cons c x more ∙ ap (◌∷◌ c) rest)
    ]

pub split_commas-Lacks : (csv : Bytes) → All (Lacks b',') (split_commas csv)
unfolding split_commas
split_commas-Lacks [] = (tt, tt)
split_commas-Lacks (c ∷ s) =
    let (x, more, e) = split_commas-some s in
    let before = split_commas-Lacks s in
    let all : All (Lacks b',') (x ∷ more) = rw e at before in
    elim (Bool-cases (c == b',')) [
      | inl it ↦ rw (it, e, split_commas) (tt, all)
      | inr other ↦ rw (other, e, split_commas) ((other, all.0), all.1)
    ]

split_commas-one : (x : Bytes) → Lacks b',' x → split_commas x ≡ x ∷ []
unfolding split_commas
split_commas-one [] h = refl
split_commas-one (c ∷ x) (other, h) = rw (other, split_commas-one x h, split_commas) refl

split_commas-comma :
    (x t : Bytes) → Lacks b',' x → split_commas (x ++ (b',' ∷ t)) ≡ x ∷ split_commas t
unfolding split_commas
split_commas-comma [] t h = refl
split_commas-comma (c ∷ x) t (other, h) = rw (other, split_commas-comma x t h, split_commas) refl

pub split_commas-joined :
    (entries : List Bytes)
    → All (Lacks b',') entries
    → entries ≢ []
    → split_commas (joined entries) ≡ entries
split_commas-joined [] h some = absurd (some refl)
split_commas-joined (x ∷ []) (h, _) some = split_commas-one x h
split_commas-joined (x ∷ y ∷ more) (h, all) some =
    split_commas-comma x (joined (y ∷ more)) h
    ∙ ap (◌∷◌ x) (split_commas-joined (y ∷ more) all (λ e. cc e))
