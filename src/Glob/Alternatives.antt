-- ===== src/Glob/Alternatives.antt =====
-- What the alternatives of a group are (ExpandBracesInto), by the nesting of its braces.
use duckdb_gdrive.Base.{
  ℕ, zero, suc, ◌+◌, ◌-◌, ◌≡◌, ◌≢◌, refl, sym, ap, ◌∙◌, subst, inl, inr, false, List, [], ◌∷◌, ◌++◌,
  ◌==◌, arith, Bool-cases, All, append_assoc, append-nil,
}
use duckdb_gdrive.Base.Text.{Bytes}
use duckdb_gdrive.Glob.{split_alternatives}
use duckdb_gdrive.Glob.Groups.{Nested, done, opens, closes, plain}
use duckdb_gdrive.Uri.Entries.{joined}

-- With so many braces open before the text: the braces in it match, none is open at its end, and every comma in it
-- stands in braces.
pub data Alternative : ℕ → Bytes → Type 0 where
  ends : Alternative zero []
  opening : {d : ℕ} {s : Bytes} → Alternative (suc d) s → Alternative d (b'{' ∷ s)
  closing : {d : ℕ} {s : Bytes} → Alternative d s → Alternative (suc d) (b'}' ∷ s)
  inside : {d : ℕ} {s : Bytes} → Alternative (suc d) s → Alternative (suc d) (b',' ∷ s)
  other :
      {d c : ℕ} {s : Bytes}
      → c ≢ b'{'
      → c ≢ b'}'
      → c ≢ b','
      → Alternative d s
      → Alternative d (c ∷ s)

split_opens :
    (cur s : Bytes) (d : ℕ)
    → split_alternatives cur d (b'{' ∷ s) ≡ split_alternatives (cur ++ b'{' ∷ []) (suc d) s
unfolding split_alternatives
split_opens cur s d =
    let e : d + 1 ≡ suc d = omega arith in
    ap (λ (n : ℕ). split_alternatives (cur ++ b'{' ∷ []) n s) e

split_closes :
    (cur s : Bytes) (d : ℕ)
    → split_alternatives cur (suc d) (b'}' ∷ s) ≡ split_alternatives (cur ++ b'}' ∷ []) d s
unfolding split_alternatives
split_closes cur s d =
    let e : suc d - 1 ≡ d = omega arith in
    ap (λ (n : ℕ). split_alternatives (cur ++ b'}' ∷ []) n s) e

split_inside :
    (cur s : Bytes) (d : ℕ)
    → split_alternatives cur (suc d) (b',' ∷ s) ≡ split_alternatives (cur ++ b',' ∷ []) (suc d) s
unfolding split_alternatives
split_inside cur s d = let deep : (suc d == 0) ≡ false = ground arith in rw deep refl

split_comma :
    (cur s : Bytes) → split_alternatives cur zero (b',' ∷ s) ≡ cur ∷ split_alternatives [] zero s
unfolding split_alternatives
split_comma cur s = refl

split_other :
    (cur s : Bytes) (d c : ℕ)
    → c ≢ b'{'
    → c ≢ b'}'
    → c ≢ b','
    → split_alternatives cur d (c ∷ s) ≡ split_alternatives (cur ++ c ∷ []) d s
unfolding split_alternatives
split_other cur s d c a b e =
    let no_open : (c == b'{') ≡ false = ground (arith, a) in
    let no_close : (c == b'}') ≡ false = ground (arith, b) in
    let no_comma : (c == b',') ≡ false = ground (arith, e) in rw (no_open, no_close, no_comma) refl

regroup :
    (cur x t : Bytes) (c : ℕ)
    → split_alternatives ((cur ++ c ∷ []) ++ x) zero t ≡ split_alternatives (cur ++ (c ∷ x)) zero t
regroup cur x t c = ap (λ (k : Bytes). split_alternatives k zero t) (append_assoc cur (c ∷ []) x)

-- An alternative is read to its end.
split_alternatives-Alternative :
    (cur x t : Bytes) (d : ℕ)
    → Alternative d x
    → split_alternatives cur d (x ++ t) ≡ split_alternatives (cur ++ x) zero t
split_alternatives-Alternative cur x t d ends =
    ap (λ (k : Bytes). split_alternatives k zero t) (sym (append-nil cur))
split_alternatives-Alternative cur x t d (opening {s = s} a) =
    split_opens cur (s ++ t) d
    ∙ split_alternatives-Alternative (cur ++ b'{' ∷ []) s t (suc d) a
    ∙ regroup cur s t b'{'
split_alternatives-Alternative cur x t d (closing {d = e} {s = s} a) =
    split_closes cur (s ++ t) e
    ∙ split_alternatives-Alternative (cur ++ b'}' ∷ []) s t e a
    ∙ regroup cur s t b'}'
split_alternatives-Alternative cur x t d (inside {d = e} {s = s} a) =
    split_inside cur (s ++ t) e
    ∙ split_alternatives-Alternative (cur ++ b',' ∷ []) s t (suc e) a
    ∙ regroup cur s t b','
split_alternatives-Alternative cur x t d (other {c = c} {s = s} no_open no_close no_comma a) =
    split_other cur (s ++ t) d c no_open no_close no_comma
    ∙ split_alternatives-Alternative (cur ++ c ∷ []) s t d a
    ∙ regroup cur s t c

split_alternatives-nil : (cur : Bytes) (d : ℕ) → split_alternatives cur d [] ≡ cur ∷ []
unfolding split_alternatives
split_alternatives-nil cur d = refl

pub split_alternatives-joined :
    (pieces : List Bytes)
    → All (Alternative zero) pieces
    → pieces ≢ []
    → split_alternatives [] zero (joined pieces) ≡ pieces
split_alternatives-joined [] all some = absurd (some refl)
split_alternatives-joined (x ∷ []) (a, _) some =
    ap (split_alternatives [] zero) (sym (append-nil x))
    ∙ split_alternatives-Alternative [] x [] zero a
    ∙ split_alternatives-nil x zero
split_alternatives-joined (x ∷ y ∷ more) (a, all) some =
    split_alternatives-Alternative [] x (b',' ∷ joined (y ∷ more)) zero a
    ∙ split_comma x (joined (y ∷ more))
    ∙ ap (◌∷◌ x) (split_alternatives-joined (y ∷ more) all (λ e. cc e))

-- The pieces are alternatives, and the text with its beginning is they with commas between.
abbrev IsSplit : Bytes → Bytes → List Bytes → Type 0
IsSplit cur s pieces = (joined pieces ≡ cur ++ s) × All (Alternative zero) pieces

-- What is still to be read completes the alternative that is being read.
abbrev Completes : Bytes → ℕ → Type 0
Completes cur d = (x : Bytes) → Alternative d x → Alternative zero (cur ++ x)

step-IsSplit :
    (cur s : Bytes) (c : ℕ) (pieces : List Bytes)
    → IsSplit (cur ++ c ∷ []) s pieces
    → IsSplit cur (c ∷ s) pieces
step-IsSplit cur s c pieces (e, all) = (e ∙ append_assoc cur (c ∷ []) s, all)

step-Completes :
    (cur : Bytes) (d d' c : ℕ)
    → ((x : Bytes) → Alternative d' x → Alternative d (c ∷ x))
    → Completes cur d
    → Completes (cur ++ c ∷ []) d'
step-Completes cur d d' c one full x a =
    subst (Alternative zero) (sym (append_assoc cur (c ∷ []) x)) (full (c ∷ x) (one x a))

split_alternatives-some : (cur s : Bytes) (d : ℕ) → Nested d s → split_alternatives cur d s ≢ []
split_alternatives-some cur s d done e = cc (sym (split_alternatives-nil cur zero) ∙ e)
split_alternatives-some cur s d (opens {s = t} n) e =
    split_alternatives-some (cur ++ b'{' ∷ []) t (suc d) n (sym (split_opens cur t d) ∙ e)
split_alternatives-some cur s d (closes {d = k} {s = t} n) e =
    split_alternatives-some (cur ++ b'}' ∷ []) t k n (sym (split_closes cur t k) ∙ e)
split_alternatives-some cur s zero (plain {c = c} {s = t} a b n) e = elim (Bool-cases (c == b',')) [
  | inl comma ↦
      let is : c ≡ b',' = ground arith in
      cc
        (sym (split_comma cur t) ∙ ap (λ (k : ℕ). split_alternatives cur zero (k ∷ t)) (sym is) ∙ e)
  | inr no_comma ↦
      split_alternatives-some (cur ++ c ∷ []) t zero n
        (sym (split_other cur t zero c a b (λ k. ground (arith, k))) ∙ e)
]
split_alternatives-some cur s (suc d) (plain {c = c} {s = t} a b n) e =
    elim (Bool-cases (c == b',')) [
      | inl comma ↦
          let is : c ≡ b',' = ground arith in
          split_alternatives-some (cur ++ b',' ∷ []) t (suc d) n (
            sym (split_inside cur t d)
            ∙ ap (λ (k : ℕ). split_alternatives cur (suc d) (k ∷ t)) (sym is)
            ∙ e)
      | inr no_comma ↦
          split_alternatives-some (cur ++ c ∷ []) t (suc d) n
            (sym (split_other cur t (suc d) c a b (λ k. ground (arith, k))) ∙ e)
    ]

joined-comma :
    (cur s : Bytes) (pieces : List Bytes)
    → pieces ≢ []
    → joined pieces ≡ s
    → joined (cur ∷ pieces) ≡ cur ++ (b',' ∷ s)
joined-comma cur s [] some e = absurd (some refl)
joined-comma cur s (y ∷ more) some e = ap (λ (t : Bytes). cur ++ (b',' ∷ t)) e

split_alternatives-IsSplit :
    (cur s : Bytes) (d : ℕ)
    → Nested d s
    → Completes cur d
    → IsSplit cur s (split_alternatives cur d s)
split_alternatives-IsSplit cur s d done full =
    subst (IsSplit cur []) (sym (split_alternatives-nil cur zero))
      (sym (append-nil cur), (subst (Alternative zero) (append-nil cur) (full [] ends), tt))
split_alternatives-IsSplit cur s d (opens {s = t} n) full =
    subst (IsSplit cur (b'{' ∷ t)) (sym (split_opens cur t d)) (
      step-IsSplit cur t b'{' _ (
        split_alternatives-IsSplit (cur ++ b'{' ∷ []) t (suc d) n
          (step-Completes cur d (suc d) b'{' (λ x a. opening a) full)))
split_alternatives-IsSplit cur s d (closes {d = k} {s = t} n) full =
    subst (IsSplit cur (b'}' ∷ t)) (sym (split_closes cur t k)) (
      step-IsSplit cur t b'}' _ (
        split_alternatives-IsSplit (cur ++ b'}' ∷ []) t k n
          (step-Completes cur d k b'}' (λ x a. closing a) full)))
split_alternatives-IsSplit cur s zero (plain {c = c} {s = t} a b n) full =
    elim (Bool-cases (c == b',')) [
      | inl comma ↦
          let is : c ≡ b',' = ground arith in
          let (e, all) = split_alternatives-IsSplit [] t zero n (λ x k. k) in
          subst (λ (k : ℕ). IsSplit cur (k ∷ t) (split_alternatives cur zero (k ∷ t))) (sym is)
            (subst (IsSplit cur (b',' ∷ t)) (sym (split_comma cur t)) (
              joined-comma cur t (split_alternatives [] zero t)
                  (split_alternatives-some [] t zero n) e,
              (subst (Alternative zero) (append-nil cur) (full [] ends), all),
            ))
      | inr no_comma ↦
          subst (IsSplit cur (c ∷ t)) (sym (split_other cur t zero c a b (λ k. ground (arith, k))))
            (step-IsSplit cur t c _ (
              split_alternatives-IsSplit (cur ++ c ∷ []) t zero n (
                step-Completes cur zero zero c (λ x k. other a b (λ e. ground (arith, e)) k) full)))
    ]
split_alternatives-IsSplit cur s (suc d) (plain {c = c} {s = t} a b n) full =
    elim (Bool-cases (c == b',')) [
      | inl comma ↦
          let is : c ≡ b',' = ground arith in
          subst (λ (k : ℕ). IsSplit cur (k ∷ t) (split_alternatives cur (suc d) (k ∷ t))) (sym is)
            (subst (IsSplit cur (b',' ∷ t)) (sym (split_inside cur t d)) (
              step-IsSplit cur t b',' _ (
                split_alternatives-IsSplit (cur ++ b',' ∷ []) t (suc d) n
                  (step-Completes cur (suc d) (suc d) b',' (λ x k. inside k) full))))
      | inr no_comma ↦
          subst (IsSplit cur (c ∷ t))
            (sym (split_other cur t (suc d) c a b (λ k. ground (arith, k))))
            (step-IsSplit cur t c _ (
              split_alternatives-IsSplit (cur ++ c ∷ []) t (suc d) n (
                step-Completes cur (suc d) (suc d) c (λ x k. other a b (λ e. ground (arith, e)) k)
                  full)))
    ]

-- The pieces of a group.
pub group_pieces :
    (inner : Bytes)
    → Nested zero inner
    → (joined (split_alternatives [] zero inner) ≡ inner)
      × All (Alternative zero) (split_alternatives [] zero inner)
group_pieces inner n = split_alternatives-IsSplit [] inner zero n (λ x a. a)
