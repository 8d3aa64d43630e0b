-- ===== src/Glob/Budget.antt =====
-- How much brace expansion yields, and when it gives up (ExpandBracesInto, ExpandBraces).
use duckdb_gdrive.Base.{
  ℕ, zero, suc, ◌+◌, ◌-◌, ◌≤◌, ◌<◌, ◌≡◌, ◌↔◌, refl, ap, Bool, true, false, Option, none, some, List,
  [], ◌∷◌, ◌++◌, ltb, ◌==◌, if◌then◌else◌, >>=-eq-some, length, length-append, All, arith,
  Bool-cases, Option-cases, ◌⊎◌, inl, inr,
}
use duckdb_gdrive.Base.Text.{Bytes}
use duckdb_gdrive.Glob.{
  find_group, split_alternatives, Expanded, push_suffixes, push_products, expand_alternatives,
  expand_braces_into, expand_braces, max_brace_pattern_length, max_brace_expansions,
  max_brace_depth,
}
use duckdb_gdrive.Glob.Expansion.{Expands, expand_braces_into-Expands}

push_suffixes_paid :
    (head : Bytes) (suffixes : List Bytes) (budget : ℕ) (out : Expanded)
    → push_suffixes head suffixes budget ≡ some out
    → (length out.0 ≡ length suffixes) × (length out.0 + out.1 ≡ budget)
unfolding push_suffixes
push_suffixes_paid head [] budget out h =
    let o : [] ≡ out.0 = cc in
    let b : budget ≡ out.1 = cc in (omega (arith, ap length o), omega (arith, ap length o, b))
push_suffixes_paid head (x ∷ xs) budget out h = elim (Bool-cases (budget == 0)) [
  | inl empty ↦ cc (rw (empty, push_suffixes) at h)
  | inr more ↦
      let (rest, e, k) =
        >>=-eq-some (push_suffixes head xs (budget - 1)) _ (rw (more, push_suffixes) at h) in
      let (count, paid) = push_suffixes_paid head xs (budget - 1) rest e in
      let o : (head ++ x) ∷ rest.0 ≡ out.0 = cc in
      let b : rest.1 ≡ out.1 = cc in
      let one : 0 < budget = ground arith in
      (omega (arith, ap length o, count), omega (arith, ap length o, b, paid))
]

push_products_paid :
    (before : Bytes) (alternatives suffixes : List Bytes) (budget : ℕ) (out : Expanded)
    → push_products before alternatives suffixes budget ≡ some out
    → (1 ≤ length alternatives → 1 ≤ length suffixes → 1 ≤ length out.0)
      × (length out.0 + out.1 ≡ budget)
unfolding push_products
push_products_paid before [] suffixes budget out h =
    let o : [] ≡ out.0 = cc in
    let b : budget ≡ out.1 = cc in ((λ n m. absurd (omega arith)), omega (arith, ap length o, b))
push_products_paid before (a ∷ alternatives) suffixes budget out h =
    let (first, e1, k1) = >>=-eq-some (push_suffixes (before ++ a) suffixes budget) _ h in
    let (rest, e2, k2) = >>=-eq-some (push_products before alternatives suffixes first.1) _ k1 in
    let (count, paid) = push_suffixes_paid (before ++ a) suffixes budget first e1 in
    let (some_rest, paid') = push_products_paid before alternatives suffixes first.1 rest e2 in
    let o : first.0 ++ rest.0 ≡ out.0 = cc in
    let b : rest.1 ≡ out.1 = cc in
    let n = length-append first.0 rest.0 in
    ((λ k m. omega (arith, n, ap length o, count)), omega (arith, n, ap length o, b, paid, paid'))

-- One expansion yields something, and pays for it.
abbrev Pays : (Bytes → ℕ → Option Expanded) → Type 0
Pays expand =
    (p : Bytes) (budget : ℕ) (out : Expanded)
    → expand p budget ≡ some out
    → (1 ≤ length out.0) × (length out.0 + out.1 ≤ budget)

expand_alternatives_paid :
    (expand : Bytes → ℕ → Option Expanded) (before : Bytes) (alternatives suffixes : List Bytes)
    (budget : ℕ) (out : Expanded)
    → Pays expand
    → 1 ≤ length suffixes
    → expand_alternatives expand before alternatives suffixes budget ≡ some out
    → (1 ≤ length alternatives → 1 ≤ length out.0) × (length out.0 + out.1 ≤ budget)
unfolding expand_alternatives
expand_alternatives_paid expand before [] suffixes budget out pays m h =
    let o : [] ≡ out.0 = cc in
    let b : budget ≡ out.1 = cc in ((λ n. absurd (omega arith)), omega (arith, ap length o, b))
expand_alternatives_paid expand before (alt ∷ alts) suffixes budget out pays m h =
    let (expanded, e1, k1) = >>=-eq-some (expand alt budget) _ h in
    let (first, e2, k2) = >>=-eq-some (push_products before expanded.0 suffixes expanded.1) _ k1 in
    let (others, e3, k3) =
      >>=-eq-some (expand_alternatives expand before alts suffixes first.1) _ k2 in
    let (some_expanded, paid1) = pays alt budget expanded e1 in
    let (some_first, paid2) = push_products_paid before expanded.0 suffixes expanded.1 first e2 in
    let (_, paid3) =
      expand_alternatives_paid expand before alts suffixes first.1 others pays m e3 in
    let o : first.0 ++ others.0 ≡ out.0 = cc in
    let b : others.1 ≡ out.1 = cc in
    let n = length-append first.0 others.0 in
    let one = some_first some_expanded m in
    (
      (λ k. omega (arith, n, ap length o, one)),
      omega (arith, n, ap length o, b, paid1, paid2, paid3),
    )

some_alternative :
    (current : Bytes) (depth : ℕ) (s : Bytes) → 1 ≤ length (split_alternatives current depth s)
unfolding split_alternatives
some_alternative current depth [] = omega arith
some_alternative current depth (c ∷ s) = ground (
  arith,
  some_alternative (current ++ c ∷ []) (depth + 1) s,
  some_alternative (current ++ c ∷ []) (depth - 1) s,
  some_alternative (current ++ c ∷ []) depth s,
)

expand_braces_into_paid : (levels : ℕ) → Pays (λ p b. expand_braces_into levels p b)
unfolding expand_braces_into
expand_braces_into_paid zero p budget out h = cc
expand_braces_into_paid (suc levels) p budget out h = elim (Option-cases (find_group [] p)) [
  | inl e ↦ elim (Bool-cases (budget == 0)) [
    | inl f ↦ absurd (failed (rw (e, f, expand_braces_into) at h))
    | inr f ↦
        let k : some (p ∷ [], budget - 1) ≡ some out = rw (e, f, expand_braces_into) at h in
        let o : p ∷ [] ≡ out.0 = cc in
        let b : budget - 1 ≡ out.1 = cc in
        let one : 0 < budget = ground arith in
        (omega (arith, ap length o), omega (arith, ap length o, b))
  ]
  | inr ((before, inner, rest), e) ↦
      let (suffixes, e1, k1) =
        >>=-eq-some (expand_braces_into levels rest budget) _ (rw (e, expand_braces_into) at h) in
      let (some_suffix, paid) = expand_braces_into_paid levels rest budget suffixes e1 in
      let (some_out, paid') =
        expand_alternatives_paid (λ q b. expand_braces_into levels q b) before
          (split_alternatives [] 0 inner) suffixes.0 suffixes.1 out (expand_braces_into_paid levels)
          some_suffix k1 in
      (some_out (some_alternative [] 0 inner), omega (arith, paid, paid'))
]
  where
    failed : {x : Expanded} → none ≡ some x → ⊥
    failed e = cc

-- The expansion of a pattern is at most 1024 texts, and each is one that the braces stand for.
pub expand_braces-Expands :
    (pattern : Bytes)
    → (length (expand_braces pattern) ≤ max_brace_expansions)
      × All (Expands pattern) (expand_braces pattern)
unfolding expand_braces
expand_braces-Expands pattern = elim (Bool-cases (ltb max_brace_pattern_length (length pattern))) [
  | inl long ↦ rw (long, expand_braces) (omega arith, tt)
  | inr short ↦
      elim (Option-cases (expand_braces_into (max_brace_depth + 1) pattern max_brace_expansions)) [
        | inl e ↦ rw (short, e, expand_braces) (omega arith, tt)
        | inr (out, e) ↦
            let (_, paid) =
              expand_braces_into_paid (max_brace_depth + 1) pattern max_brace_expansions out e in
            rw (short, e, expand_braces)
              (
                omega (arith, paid),
                expand_braces_into-Expands (max_brace_depth + 1) pattern max_brace_expansions out e,
              )
      ]
]

-- The empty list is returned exactly for a pattern that is rejected: longer than 4096 bytes, or with
-- too many expansions or too deep a nesting.
pub expand_braces_nil_iff :
    (pattern : Bytes)
    → (expand_braces pattern ≡ []) ↔ (
        (max_brace_pattern_length < length pattern)
        ⊎ (expand_braces_into (max_brace_depth + 1) pattern max_brace_expansions ≡ none))
unfolding expand_braces
expand_braces_nil_iff pattern = (
  λ h. elim (Bool-cases (ltb max_brace_pattern_length (length pattern))) [
    | inl long ↦ inl (ground arith)
    | inr short ↦
        elim (Option-cases
          (expand_braces_into (max_brace_depth + 1) pattern max_brace_expansions)) [
            | inl e ↦ inr e
            | inr (out, e) ↦
                let (one, _) =
                  expand_braces_into_paid (max_brace_depth + 1) pattern max_brace_expansions out
                    e in
                let nothing : out.0 ≡ [] = rw (short, e, expand_braces) at h in
                absurd (omega (arith, ap length nothing, one))
          ]
  ],
  λ h. elim h [
    | inl long ↦ ground arith
    | inr e ↦ rw (e, expand_braces) (same (ltb max_brace_pattern_length (length pattern)) [] refl)
  ],
)
  where
    same : (b : Bool) (r : List Bytes) → r ≡ [] → (if b then [] else r) ≡ []
    same true r e = refl
    same false r e = e
