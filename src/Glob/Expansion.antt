-- ===== src/Glob/Expansion.antt =====
-- What brace expansion yields (ExpandBracesInto, ExpandBraces).
use duckdb_gdrive.Base.{
  ℕ, zero, suc, ◌-◌, ◌≡◌, refl, Option, none, some, List, [], ◌∷◌, ◌++◌, ◌==◌, >>=-eq-some, All,
  All-append, Any, Bool-cases, Option-cases, inl, inr,
}
use duckdb_gdrive.Base.Text.{Bytes}
use duckdb_gdrive.Glob.{
  find_group, split_alternatives, Expanded, push_suffixes, push_products, expand_alternatives,
  expand_braces_into,
}

abbrev pub In : Bytes → List Bytes → Type 0
In x xs = Any (λ y. y ≡ x) xs

-- A pattern with no group stands for itself; one with a group for every choice of an alternative,
-- expanded, between the text before the group and the rest, expanded.
pub data Expands : Bytes → Bytes → Type 0 where
  itself : {p : Bytes} → find_group [] p ≡ none → Expands p p
  choice :
      {p before inner rest alternative a s : Bytes}
      → find_group [] p ≡ some (before, inner, rest)
      → In alternative (split_alternatives [] 0 inner)
      → Expands alternative a
      → Expands rest s
      → Expands p ((before ++ a) ++ s)

module _ (Q : Bytes → Type 0) where
  push_suffixes-All :
      (head : Bytes) (suffixes : List Bytes) (budget : ℕ) (out : Expanded)
      → All (λ s. Q (head ++ s)) suffixes
      → push_suffixes head suffixes budget ≡ some out
      → All Q out.0
  unfolding push_suffixes
  push_suffixes-All head [] budget out q h = let e : [] ≡ out.0 = cc in rw (← e) tt
  push_suffixes-All head (x ∷ xs) budget out q h = elim (Bool-cases (budget == 0)) [
    | inl empty ↦ cc (rw (empty, push_suffixes) at h)
    | inr more ↦
        let (rest, e, k) =
          >>=-eq-some (push_suffixes head xs (budget - 1)) _ (rw (more, push_suffixes) at h) in
        let o : (head ++ x) ∷ rest.0 ≡ out.0 = cc in
        rw (← o) (q.0, push_suffixes-All head xs (budget - 1) rest q.1 e)
  ]

  push_products-All :
      (before : Bytes) (alternatives suffixes : List Bytes) (budget : ℕ) (out : Expanded)
      → All (λ a. All (λ s. Q ((before ++ a) ++ s)) suffixes) alternatives
      → push_products before alternatives suffixes budget ≡ some out
      → All Q out.0
  unfolding push_products
  push_products-All before [] suffixes budget out q h = let e : [] ≡ out.0 = cc in rw (← e) tt
  push_products-All before (a ∷ alternatives) suffixes budget out q h =
      let (first, e1, k1) = >>=-eq-some (push_suffixes (before ++ a) suffixes budget) _ h in
      let (rest, e2, k2) = >>=-eq-some (push_products before alternatives suffixes first.1) _ k1 in
      let o : first.0 ++ rest.0 ≡ out.0 = cc in
      rw (← o) (
        All-append Q first.0 rest.0 (push_suffixes-All (before ++ a) suffixes budget first q.0 e1)
          (push_products-All before alternatives suffixes first.1 rest q.1 e2))

  All-map : {P : Bytes → Type 0} (xs : List Bytes) → ((x : Bytes) → P x → Q x) → All P xs → All Q xs
  All-map [] f h = tt
  All-map (x ∷ xs) f h = (f x h.0, All-map xs f h.1)

-- What one expansion of an alternative yields.
abbrev pub Sound : (Bytes → ℕ → Option Expanded) → Type 0
Sound expand =
    (p : Bytes) (budget : ℕ) (out : Expanded) → expand p budget ≡ some out → All (Expands p) out.0

expand_alternatives-All :
    (Q : Bytes → Type 0) (expand : Bytes → ℕ → Option Expanded) (before rest : Bytes)
    (alternatives suffixes : List Bytes) (budget : ℕ) (out : Expanded)
    → Sound expand
    → All (Expands rest) suffixes
    → ((alt a s : Bytes)
        → In alt alternatives
        → Expands alt a
        → Expands rest s
        → Q ((before ++ a) ++ s))
    → expand_alternatives expand before alternatives suffixes budget ≡ some out
    → All Q out.0
unfolding expand_alternatives
expand_alternatives-All Q expand before rest [] suffixes budget out sound tails q h =
    let e : [] ≡ out.0 = cc in rw (← e) tt
expand_alternatives-All Q expand before rest (alt ∷ alts) suffixes budget out sound tails q h =
    let (expanded, e1, k1) = >>=-eq-some (expand alt budget) _ h in
    let (first, e2, k2) = >>=-eq-some (push_products before expanded.0 suffixes expanded.1) _ k1 in
    let (others, e3, k3) =
      >>=-eq-some (expand_alternatives expand before alts suffixes first.1) _ k2 in
    let o : first.0 ++ others.0 ≡ out.0 = cc in
    let products =
      All-map (λ a. All (λ s. Q ((before ++ a) ++ s)) suffixes) {P = Expands alt} expanded.0
        (λ a ea.
          All-map (λ s. Q ((before ++ a) ++ s)) {P = Expands rest} suffixes
            (λ s es. q alt a s (inl refl) ea es) tails)
        (sound alt budget expanded e1) in
    rw (← o) (
      All-append Q first.0 others.0
        (push_products-All Q before expanded.0 suffixes expanded.1 first products e2)
        (expand_alternatives-All Q expand before rest alts suffixes first.1 others sound tails
          (λ b a s m. q b a s (inr m)) e3))

pub expand_braces_into-Expands : (levels : ℕ) → Sound (λ p b. expand_braces_into levels p b)
unfolding expand_braces_into
expand_braces_into-Expands zero p budget out h = cc
expand_braces_into-Expands (suc levels) p budget out h = elim (Option-cases (find_group [] p)) [
  | inl e ↦ elim (Bool-cases (budget == 0)) [
    | inl f ↦ absurd (failed (rw (e, f, expand_braces_into) at h))
    | inr f ↦
        let k : some (p ∷ [], budget - 1) ≡ some out = rw (e, f, expand_braces_into) at h in
        let o : p ∷ [] ≡ out.0 = cc in rw (← o) (itself e, tt)
  ]
  | inr ((before, inner, rest), e) ↦
      let (suffixes, e1, k1) =
        >>=-eq-some (expand_braces_into levels rest budget) _ (rw (e, expand_braces_into) at h) in
      expand_alternatives-All (Expands p) (λ q b. expand_braces_into levels q b) before rest
        (split_alternatives [] 0 inner) suffixes.0 suffixes.1 out
        (expand_braces_into-Expands levels)
        (expand_braces_into-Expands levels rest budget suffixes e1)
        (λ alt a s m ea es. choice e m ea es) k1
]
  where
    failed : {x : Expanded} → none ≡ some x → ⊥
    failed e = cc
