-- ===== src/Glob/Choices.antt =====
-- Brace expansion leaves no choice out (ExpandBracesInto, ExpandBraces).
use duckdb_gdrive.Base.{
  ℕ, zero, suc, ◌+◌, ◌-◌, ◌≡◌, ◌≢◌, ◌↔◌, ◌∙◌, refl, sym, ap, subst, Option, none, some, List, [],
  ◌∷◌, ◌++◌, ltb, ◌==◌, >>=-eq-some, length, All, Bool-cases, Option-cases, inl, inr,
}
use duckdb_gdrive.Base.Text.{Bytes}
use duckdb_gdrive.Glob.{
  split_alternatives, Expanded, push_suffixes, push_products, expand_alternatives, find_group,
  expand_braces_into, expand_braces, max_brace_pattern_length, max_brace_expansions,
  max_brace_depth,
}
use duckdb_gdrive.Glob.Groups.{IsGroup, find_group-IsGroup, IsGroup-find_group}
use duckdb_gdrive.Glob.Alternatives.{Alternative, group_pieces, split_alternatives-joined}
use duckdb_gdrive.Uri.Entries.{joined}
use duckdb_gdrive.Glob.Expansion.{In, Expands, itself, choice, expand_braces_into-Expands}

In-append_left : (x : Bytes) (xs ys : List Bytes) → In x xs → In x (xs ++ ys)
In-append_left x [] ys h = absurd h
In-append_left x (y ∷ xs) ys (inl e) = inl e
In-append_left x (y ∷ xs) ys (inr m) = inr (In-append_left x xs ys m)

In-append_right : (x : Bytes) (xs ys : List Bytes) → In x ys → In x (xs ++ ys)
In-append_right x [] ys h = h
In-append_right x (y ∷ xs) ys h = inr (In-append_right x xs ys h)

push_suffixes-In :
    (head s : Bytes) (suffixes : List Bytes) (budget : ℕ) (out : Expanded)
    → In s suffixes
    → push_suffixes head suffixes budget ≡ some out
    → In (head ++ s) out.0
unfolding push_suffixes
push_suffixes-In head s [] budget out m h = absurd m
push_suffixes-In head s (x ∷ xs) budget out m h = elim (Bool-cases (budget == 0)) [
  | inl empty ↦ cc (rw (empty, push_suffixes) at h)
  | inr more ↦
      let (rest, e, k) =
        >>=-eq-some (push_suffixes head xs (budget - 1)) _ (rw (more, push_suffixes) at h) in
      let o : (head ++ x) ∷ rest.0 ≡ out.0 = cc in
      subst (In (head ++ s)) o (elim m [
        | inl here ↦ inl (ap (◌++◌ head) here)
        | inr later ↦ inr (push_suffixes-In head s xs (budget - 1) rest later e)
      ])
]

push_products-In :
    (before a s : Bytes) (alternatives suffixes : List Bytes) (budget : ℕ) (out : Expanded)
    → In a alternatives
    → In s suffixes
    → push_products before alternatives suffixes budget ≡ some out
    → In ((before ++ a) ++ s) out.0
unfolding push_products
push_products-In before a s [] suffixes budget out m n h = absurd m
push_products-In before a s (b ∷ alternatives) suffixes budget out m n h =
    let (first, e1, k1) = >>=-eq-some (push_suffixes (before ++ b) suffixes budget) _ h in
    let (rest, e2, k2) = >>=-eq-some (push_products before alternatives suffixes first.1) _ k1 in
    let o : first.0 ++ rest.0 ≡ out.0 = cc in
    subst (In ((before ++ a) ++ s)) o (elim m [
      | inl here ↦ In-append_left ((before ++ a) ++ s) first.0 rest.0 (
          subst (λ (t : Bytes). In ((before ++ t) ++ s) first.0) here
            (push_suffixes-In (before ++ b) s suffixes budget first n e1))
      | inr later ↦
          In-append_right ((before ++ a) ++ s) first.0 rest.0
            (push_products-In before a s alternatives suffixes first.1 rest later n e2)
    ])

-- What one expansion of an alternative must yield.
abbrev Complete : (Bytes → ℕ → Option Expanded) → Type 0
Complete expand =
    (p : Bytes) (budget : ℕ) (out : Expanded) (x : Bytes)
    → Expands p x
    → expand p budget ≡ some out
    → In x out.0

expand_alternatives-In :
    (expand : Bytes → ℕ → Option Expanded) (before alt a s : Bytes)
    (alternatives suffixes : List Bytes) (budget : ℕ) (out : Expanded)
    → Complete expand
    → In alt alternatives
    → Expands alt a
    → In s suffixes
    → expand_alternatives expand before alternatives suffixes budget ≡ some out
    → In ((before ++ a) ++ s) out.0
unfolding expand_alternatives
expand_alternatives-In expand before alt a s [] suffixes budget out full m ea n h = absurd m
expand_alternatives-In expand before alt a s (b ∷ alts) suffixes budget out full m ea n h =
    let (expanded, e1, k1) = >>=-eq-some (expand b budget) _ h in
    let (first, e2, k2) = >>=-eq-some (push_products before expanded.0 suffixes expanded.1) _ k1 in
    let (others, e3, k3) =
      >>=-eq-some (expand_alternatives expand before alts suffixes first.1) _ k2 in
    let o : first.0 ++ others.0 ≡ out.0 = cc in
    subst (In ((before ++ a) ++ s)) o (elim m [
      | inl here ↦ In-append_left ((before ++ a) ++ s) first.0 others.0 (
          push_products-In before a s expanded.0 suffixes expanded.1 first
            (full b budget expanded a (subst (λ (t : Bytes). Expands t a) (sym here) ea) e1) n e2)
      | inr later ↦ In-append_right ((before ++ a) ++ s) first.0 others.0 (
          expand_alternatives-In expand before alt a s alts suffixes first.1 others full later ea n
            e3)
    ])

expand_braces_into-In : (levels : ℕ) → Complete (λ p b. expand_braces_into levels p b)
unfolding expand_braces_into
expand_braces_into-In zero p budget out x w h = cc
expand_braces_into-In (suc levels) p budget out x (itself e) h = elim (Bool-cases (budget == 0)) [
  | inl f ↦ absurd (failed (rw (e, f, expand_braces_into) at h))
  | inr f ↦
      let k : some (p ∷ [], budget - 1) ≡ some out = rw (e, f, expand_braces_into) at h in
      let o : p ∷ [] ≡ out.0 = cc in subst (In p) o (inl refl)
]
  where
    failed : {y : Expanded} → none ≡ some y → ⊥
    failed j = cc
expand_braces_into-In (suc levels) p budget out x
      (choice {before = before} {inner = inner} {rest = rest} {alternative = alt} {a = a} {s = s} e
        m ea es)
      h =
    let (suffixes, e1, k1) =
      >>=-eq-some (expand_braces_into levels rest budget) _ (rw (e, expand_braces_into) at h) in
    expand_alternatives-In (λ q b. expand_braces_into levels q b) before alt a s
      (split_alternatives [] 0 inner) suffixes.0 suffixes.1 out (expand_braces_into-In levels) m ea
      (expand_braces_into-In levels rest budget suffixes s es e1) k1

All-In : (P : Bytes → Type 0) (x : Bytes) (xs : List Bytes) → All P xs → In x xs → P x
All-In P x [] h m = absurd m
All-In P x (y ∷ xs) h (inl e) = subst P e h.0
All-In P x (y ∷ xs) h (inr m) = All-In P x xs h.1 m

In-expand_braces :
    (pattern x : Bytes)
    → expand_braces pattern ≢ []
    → In x (expand_braces pattern) ↔ Expands pattern x
unfolding expand_braces
In-expand_braces pattern x kept =
    elim (Bool-cases (ltb max_brace_pattern_length (length pattern))) [
      | inl long ↦ absurd (kept (rw (long, expand_braces)))
      | inr short ↦
          elim (Option-cases
            (expand_braces_into (max_brace_depth + 1) pattern max_brace_expansions)) [
              | inl e ↦ absurd (kept (rw (short, e, expand_braces)))
              | inr (out, e) ↦
                  rw (short, e, expand_braces)
                    (
                      All-In (Expands pattern) x out.0 (
                          expand_braces_into-Expands (max_brace_depth + 1) pattern
                            max_brace_expansions out e),
                      λ w.
                          expand_braces_into-In (max_brace_depth + 1) pattern max_brace_expansions
                            out x w e,
                    )
            ]
    ]

-- A pattern with no group stands for itself. In one with a group, the commas that are not in its inner braces
-- separate the alternatives: the pattern stands for the text before the group, then a text that one of the
-- alternatives stands for, then a text that the rest stands for.
pub data StandsFor : Bytes → Bytes → Type 0 where
  alone :
      {p : Bytes} → ((before inner rest : Bytes) → ¬ IsGroup p before inner rest) → StandsFor p p
  chosen :
      {p before inner rest alternative a s : Bytes}
      → (pieces : List Bytes) → IsGroup p before inner rest
      → joined pieces ≡ inner
      → All (Alternative zero) pieces
      → In alternative pieces
      → StandsFor alternative a
      → StandsFor rest s
      → StandsFor p ((before ++ a) ++ s)

In-some : (x : Bytes) (xs : List Bytes) → In x xs → xs ≢ []
In-some x [] m e = absurd m
In-some x (y ∷ xs) m e = cc

IsGroup-unfold :
    (p before inner rest : Bytes)
    → IsGroup p before inner rest
    → find_group [] p ≡ some (before, inner, rest)
IsGroup-unfold p before inner rest g =
    ap (find_group []) g.whole ∙ IsGroup-find_group [] before inner rest g.first g.nested

unfold-IsGroup :
    (p before inner rest : Bytes)
    → find_group [] p ≡ some (before, inner, rest)
    → IsGroup p before inner rest
unfold-IsGroup p before inner rest h =
    let (x, e, g) = find_group-IsGroup [] p before inner rest h in
    subst (λ (b : Bytes). IsGroup p b inner rest) (sym e) g

Expands-StandsFor : (p x : Bytes) → Expands p x → StandsFor p x
Expands-StandsFor p x (itself e) =
    alone (λ before inner rest g. cc (sym e ∙ IsGroup-unfold p before inner rest g))
Expands-StandsFor p x
      (choice {before = before} {inner = inner} {rest = rest} {alternative = alt} {a = a} {s = s} e
        m ea es) =
    let g = unfold-IsGroup p before inner rest e in
    let (whole, all) = group_pieces inner g.nested in
    chosen (split_alternatives [] zero inner) g whole all m (Expands-StandsFor alt a ea)
      (Expands-StandsFor rest s es)

StandsFor-Expands : (p x : Bytes) → StandsFor p x → Expands p x
StandsFor-Expands p x (alone none_of) = elim (Option-cases (find_group [] p)) [
  | inl e ↦ itself e
  | inr (group, e) ↦
      absurd (none_of group.0 group.1 group.2 (unfold-IsGroup p group.0 group.1 group.2 e))
]
StandsFor-Expands p x
      (chosen {before = before} {inner = inner} {rest = rest} {alternative = alt} {a = a} {s = s}
        pieces g whole all m sa ss) =
    let same : split_alternatives [] zero inner ≡ pieces =
      ap (split_alternatives [] zero) (sym whole)
      ∙ split_alternatives-joined pieces all (In-some alt pieces m) in
    choice (IsGroup-unfold p before inner rest g) (subst (In alt) (sym same) m)
      (StandsFor-Expands alt a sa) (StandsFor-Expands rest s ss)

-- The expansion of a pattern that is not rejected holds exactly the texts that its braces stand for: one
-- for every choice of an alternative in each group, where the braces of a group match and only the commas outside its
-- inner groups separate its alternatives, nested groups included.
pub expand_braces_iff :
    (pattern x : Bytes)
    → expand_braces pattern ≢ []
    → In x (expand_braces pattern) ↔ StandsFor pattern x
expand_braces_iff pattern x kept =
    let (to, back) = In-expand_braces pattern x kept in
    (λ m. Expands-StandsFor pattern x (to m), λ w. back (StandsFor-Expands pattern x w))
