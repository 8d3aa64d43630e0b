-- ===== src/Glob/Groups.antt =====
-- What a top-level group of braces is (ExpandBracesInto), by the nesting of its braces.
use duckdb_gdrive.Base.{
  ℕ, zero, suc, ◌+◌, ◌-◌, ◌≡◌, ◌≢◌, refl, sym, ap, ◌∙◌, subst, inl, inr, false, Option, some, [],
  ◌∷◌, ◌++◌, ◌==◌, >>=-eq-some, arith, Bool-cases, append_assoc, append-nil,
}
use duckdb_gdrive.Base.Text.{Bytes, Lacks}
use duckdb_gdrive.Glob.{find_close, find_group}

-- With so many braces open before the text, each closing brace in it has its opening one, and at its end none
-- is open.
pub data Nested : ℕ → Bytes → Type 0 where
  done : Nested zero []
  opens : {d : ℕ} {s : Bytes} → Nested (suc d) s → Nested d (b'{' ∷ s)
  closes : {d : ℕ} {s : Bytes} → Nested d s → Nested (suc d) (b'}' ∷ s)
  plain : {d c : ℕ} {s : Bytes} → c ≢ b'{' → c ≢ b'}' → Nested d s → Nested d (c ∷ s)

-- The first opening brace of the pattern begins a group, in which the braces match.
pub record IsGroup (p before inner rest : Bytes) : Type 0 where
  pub whole : p ≡ before ++ (b'{' ∷ (inner ++ (b'}' ∷ rest)))
  pub first : Lacks b'{' before
  pub nested : Nested zero inner

close_opens :
    (acc s : Bytes) (d : ℕ) → find_close acc d (b'{' ∷ s) ≡ find_close (acc ++ b'{' ∷ []) (suc d) s
unfolding find_close
close_opens acc s d =
    let e : d + 1 ≡ suc d = omega arith in ap (λ (n : ℕ). find_close (acc ++ b'{' ∷ []) n s) e

close_closes :
    (acc s : Bytes) (d : ℕ)
    → find_close acc (suc (suc d)) (b'}' ∷ s) ≡ find_close (acc ++ b'}' ∷ []) (suc d) s
unfolding find_close
close_closes acc s d =
    let e : suc (suc d) - 1 ≡ suc d = omega arith in
    let deep : (suc (suc d) == 1) ≡ false = ground arith in rw (deep, e) refl

close_ends : (acc s : Bytes) → find_close acc (suc zero) (b'}' ∷ s) ≡ some (acc, s)
unfolding find_close
close_ends acc s = refl

close_plain :
    (acc s : Bytes) (d c : ℕ)
    → c ≢ b'{'
    → c ≢ b'}'
    → find_close acc d (c ∷ s) ≡ find_close (acc ++ c ∷ []) d s
unfolding find_close
close_plain acc s d c a b =
    let no_open : (c == b'{') ≡ false = ground (arith, a) in
    let no_close : (c == b'}') ≡ false = ground (arith, b) in rw (no_open, no_close) refl

grown :
    (acc x rest : Bytes) (c : ℕ)
    → ◌≡◌ {A = Option (Bytes × Bytes)}
        (some ((acc ++ c ∷ []) ++ x, rest))
        (some (acc ++ (c ∷ x), rest))
grown acc x rest c = ap (λ (t : Bytes). some (t, rest)) (append_assoc acc (c ∷ []) x)

find_close-Nested :
    (acc x rest : Bytes) (d : ℕ)
    → Nested d x
    → find_close acc (suc d) (x ++ (b'}' ∷ rest)) ≡ some (acc ++ x, rest)
find_close-Nested acc x rest d done =
    close_ends acc rest ∙ ap (λ (t : Bytes). some (t, rest)) (sym (append-nil acc))
find_close-Nested acc x rest d (opens {s = s} n) =
    close_opens acc (s ++ (b'}' ∷ rest)) (suc d)
    ∙ find_close-Nested (acc ++ b'{' ∷ []) s rest (suc d) n
    ∙ grown acc s rest b'{'
find_close-Nested acc x rest d (closes {d = e} {s = s} n) =
    close_closes acc (s ++ (b'}' ∷ rest)) e
    ∙ find_close-Nested (acc ++ b'}' ∷ []) s rest e n
    ∙ grown acc s rest b'}'
find_close-Nested acc x rest d (plain {c = c} {s = s} a b n) =
    close_plain acc (s ++ (b'}' ∷ rest)) (suc d) c a b
    ∙ find_close-Nested (acc ++ c ∷ []) s rest d n
    ∙ grown acc s rest c

-- What the search has found, from a depth and with what it had read before.
abbrev Found : ℕ → Bytes → Bytes → Bytes → Bytes → Type 0
Found d acc s inner rest = (x : Bytes) × (inner ≡ acc ++ x) × (s ≡ x ++ (b'}' ∷ rest)) × Nested d x

found_more :
    (d d' : ℕ) (acc s inner rest : Bytes) (c : ℕ)
    → ((x : Bytes) → Nested d' x → Nested d (c ∷ x))
    → Found d' (acc ++ c ∷ []) s inner rest
    → Found d acc (c ∷ s) inner rest
found_more d d' acc s inner rest c more (x, e, f, n) =
    (c ∷ x, e ∙ append_assoc acc (c ∷ []) x, ap (◌∷◌ c) f, more x n)

closing :
    (acc s inner rest : Bytes) (d : ℕ)
    → ((e : ℕ)
        → find_close (acc ++ b'}' ∷ []) (suc e) s ≡ some (inner, rest)
        → Found e (acc ++ b'}' ∷ []) s inner rest)
    → find_close acc (suc d) (b'}' ∷ s) ≡ some (inner, rest)
    → Found d acc (b'}' ∷ s) inner rest
closing acc s inner rest zero again at =
    let same_inner : acc ≡ inner = cc (sym (close_ends acc s) ∙ at) in
    let same_rest : s ≡ rest = cc (sym (close_ends acc s) ∙ at) in
    ([], sym same_inner ∙ sym (append-nil acc), ap (◌∷◌ b'}') same_rest, done)
closing acc s inner rest (suc d) again at =
    found_more (suc d) d acc s inner rest b'}' (λ x n. closes n)
      (again d (sym (close_closes acc s d) ∙ at))

Nested-find_close :
    (acc s inner rest : Bytes) (d : ℕ)
    → find_close acc (suc d) s ≡ some (inner, rest)
    → Found d acc s inner rest
unfolding find_close
Nested-find_close acc [] inner rest d h = cc
Nested-find_close acc (c ∷ s) inner rest d h = elim (Bool-cases (c == b'{')) [
  | inl is_open ↦
      let e : c ≡ b'{' = ground arith in
      let at : find_close acc (suc d) (b'{' ∷ s) ≡ some (inner, rest) = rw e at h in
      subst (λ (b : ℕ). Found d acc (b ∷ s) inner rest) (sym e)
        (found_more d (suc d) acc s inner rest b'{' (λ x n. opens n)
          (Nested-find_close (acc ++ b'{' ∷ []) s inner rest (suc d)
            (sym (close_opens acc s (suc d)) ∙ at)))
  | inr no_open ↦ elim (Bool-cases (c == b'}')) [
    | inl is_close ↦
        let e : c ≡ b'}' = ground arith in
        let at : find_close acc (suc d) (b'}' ∷ s) ≡ some (inner, rest) = rw e at h in
        subst (λ (b : ℕ). Found d acc (b ∷ s) inner rest) (sym e)
          (closing acc s inner rest d (λ k. Nested-find_close (acc ++ b'}' ∷ []) s inner rest k) at)
    | inr no_close ↦
        found_more d d acc s inner rest c
          (λ x n. plain (λ e. ground (arith, e)) (λ e. ground (arith, e)) n)
          (Nested-find_close (acc ++ c ∷ []) s inner rest d (
            sym (close_plain acc s (suc d) c (λ e. ground (arith, e)) (λ e. ground (arith, e)))
            ∙ h))
  ]
]

pub find_group-IsGroup :
    (acc s before inner rest : Bytes)
    → find_group acc s ≡ some (before, inner, rest)
    → (x : Bytes) × (before ≡ acc ++ x) × IsGroup s x inner rest
unfolding find_group
find_group-IsGroup acc [] before inner rest h = cc
find_group-IsGroup acc (c ∷ s) before inner rest h = elim (Bool-cases (c == b'{')) [
  | inl is_open ↦
      let e : c ≡ b'{' = ground arith in
      let (group, found, same) =
        >>=-eq-some (find_close [] 1 s) _ (rw (is_open, find_group) at h) in
      let (x, whole, at, n) = Nested-find_close [] s group.0 group.1 zero found in
      let same_before : acc ≡ before = cc in
      let same_inner : group.0 ≡ inner = cc in
      let same_rest : group.1 ≡ rest = cc in
      (
        [],
        sym same_before ∙ sym (append-nil acc),
        record {
          whole =
              ap (λ (b : ℕ). b ∷ s) e
              ∙ ap (◌∷◌ b'{') (
                  at
                  ∙ ap (λ (t : Bytes). t ++ (b'}' ∷ group.1)) (sym whole ∙ same_inner)
                  ∙ ap (λ (t : Bytes). inner ++ (b'}' ∷ t)) same_rest);
          first = tt;
          nested = subst (Nested zero) (sym whole ∙ same_inner) n;
        },
      )
  | inr other ↦
      let (x, e, g) =
        find_group-IsGroup (acc ++ c ∷ []) s before inner rest (rw (other, find_group) at h) in
      (
        c ∷ x,
        e ∙ append_assoc acc (c ∷ []) x,
        record { whole = ap (◌∷◌ c) g.whole; first = (other, g.first); nested = g.nested },
      )
]

pub IsGroup-find_group :
    (acc x inner rest : Bytes)
    → Lacks b'{' x
    → Nested zero inner
    → find_group acc (x ++ (b'{' ∷ (inner ++ (b'}' ∷ rest)))) ≡ some (acc ++ x, inner, rest)
unfolding find_group
IsGroup-find_group acc [] inner rest lacks n =
    rw (find_close-Nested [] inner rest zero n, append-nil acc) refl
IsGroup-find_group acc (c ∷ x) inner rest (other, lacks) n =
    rw (other, find_group)
      (IsGroup-find_group (acc ++ c ∷ []) x inner rest lacks n
        ∙ ap (λ (t : Bytes). some (t, inner, rest)) (append_assoc acc (c ∷ []) x))
