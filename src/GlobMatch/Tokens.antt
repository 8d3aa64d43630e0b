-- ===== src/GlobMatch/Tokens.antt =====
-- What a token of a glob segment stands for, and that MatchSegmentImpl and TryMatchClass read it so.
use duckdb_gdrive.Base.{
  ℕ, ◌≡◌, ◌≢◌, ◌↔◌, ◌⊎◌, inl, inr, refl, sym, ◌∙◌, ap, subst, Bool, true, false, not, ◌||◌, Option,
  none, some, List, [], ◌∷◌, ◌==◌, if◌then◌else◌, arith, Any, Bool-cases, Option-cases,
}
use duckdb_gdrive.Base.Text.{Bytes}
use duckdb_gdrive.GlobMatch.{try_match_class, class_step, match_one}
use duckdb_gdrive.GlobMatch.Classes.{
  Holds, Item, Items, Items-class_loop, class_loop-Items, holds_any, holds_any_iff, verdict,
}

-- A class behind its opening bracket: whether it is negated, its items, and what follows it.
pub data Class : Bytes → Bool → List Item → Bytes → Type 0 where
  plain :
      {x : ℕ} {s rest : Bytes} {items : List Item}
      → x ≢ b'!'
      → x ≢ b'^'
      → Items true (x ∷ s) items rest
      → Class (x ∷ s) false items rest
  negated :
      {x : ℕ} {s rest : Bytes} {items : List Item}
      → (x ≡ b'!') ⊎ (x ≡ b'^')
      → Items true s items rest
      → Class (x ∷ s) true items rest

-- The pattern begins with a token that stands for the byte, and goes on with the second text. A bracket whose
-- class is not closed stands for itself.
pub data Token : Bytes → ℕ → Bytes → Type 0 where
  any_byte : {c : ℕ} {p : Bytes} → Token (b'?' ∷ p) c p
  literal : {c : ℕ} {p : Bytes} → c ≢ b'*' → c ≢ b'?' → c ≢ b'[' → Token (c ∷ p) c p
  member :
      {c : ℕ} {p q : Bytes} {items : List Item}
      → Class p false items q
      → Any (Holds c) items
      → Token (b'[' ∷ p) c q
  non_member :
      {c : ℕ} {p q : Bytes} {items : List Item}
      → Class p true items q
      → (¬ Any (Holds c) items)
      → Token (b'[' ∷ p) c q
  bracket :
      {p : Bytes}
      → ((n : Bool) (items : List Item) (q : Bytes) → ¬ Class p n items q)
      → Token (b'[' ∷ p) b'[' p

Class-try_match_class :
    (c : ℕ) (p q : Bytes) (n : Bool) (items : List Item)
    → Class p n items q
    → try_match_class c p ≡ some (verdict n (holds_any c items), q)
unfolding try_match_class
Class-try_match_class c p q n items (plain {x = x} {s = s} a b more) =
    let other : (x == b'!' || x == b'^') ≡ false = ground (arith, a, b) in
    rw (other, try_match_class) (class_loop-Items c false false true (x ∷ s) q items more)
Class-try_match_class c p q n items (negated {x = x} {s = s} o more) =
    let mark : (x == b'!' || x == b'^') ≡ true = elim o [ inl e ↦ rw e refl | inr e ↦ rw e refl ] in
    rw (mark, try_match_class) (class_loop-Items c true false true s q items more)

try_match_class-Class :
    (c : ℕ) (p q : Bytes) (m : Bool)
    → try_match_class c p ≡ some (m, q)
    → (n : Bool) × (items : List Item) × Class p n items q
unfolding try_match_class
try_match_class-Class c [] q m h = cc
try_match_class-Class c (x ∷ s) q m h = elim (Bool-cases (x == b'!' || x == b'^')) [
  | inl mark ↦
      let (items, more) =
        Items-class_loop c true false true m s q (rw (mark, try_match_class) at h) in
      (true, items, negated (marks mark) more)
  | inr other ↦
      let (items, more) =
        Items-class_loop c false false true m (x ∷ s) q (rw (other, try_match_class) at h) in
      (false, items, plain (λ e. ground (arith, e)) (λ e. ground (arith, e)) more)
]
  where
    marks : (x == b'!' || x == b'^') ≡ true → (x ≡ b'!') ⊎ (x ≡ b'^')
    marks e = elim (Bool-cases (x == b'!')) [
      | inl f ↦ inl (ground arith)
      | inr f ↦ inr (ground arith)
    ]

bracket-Token :
    (c : ℕ) (p q : Bytes) → try_match_class c p ≡ none → c ≡ b'[' → p ≡ q → Token (b'[' ∷ p) c q
bracket-Token c p q unclosed here same =
    let alone : Token (b'[' ∷ p) b'[' p =
      bracket (λ n items r k. none_some (sym unclosed ∙ Class-try_match_class c p r n items k)) in
    subst (λ (r : Bytes). Token (b'[' ∷ p) c r) same
      (subst (λ (d : ℕ). Token (b'[' ∷ p) d p) (sym here) alone)
  where
    none_some : {x : Bool × Bytes} → none ≡ some x → ⊥
    none_some e = cc

Class-Token :
    (c : ℕ) (p q : Bytes) (n : Bool) (items : List Item)
    → Class p n items q
    → verdict n (holds_any c items) ≡ true
    → Token (b'[' ∷ p) c q
Class-Token c p q false items k v = member k ((holds_any_iff c items).0 v)
Class-Token c p q true items k v = non_member k (λ h.
    let not_taken : not (holds_any c items) ≡ false = ap not ((holds_any_iff c items).1 h) in
    true_false (sym v ∙ not_taken))
  where
    true_false : true ≡ false → ⊥
    true_false e = cc

class_step-Token :
    (c : ℕ) (p q : Bytes) → class_step c p (try_match_class c p) ≡ some q → Token (b'[' ∷ p) c q
unfolding class_step
class_step-Token c p q h = elim (Option-cases (try_match_class c p)) [
  | inl unclosed ↦
      let stays : (if c == b'[' then some p else none) ≡ some q = rw (unclosed, class_step) at h in
      bracket-Token c p q unclosed (ground arith) (ground arith)
  | inr ((m, rest), e) ↦
      let (n, items, k) = try_match_class-Class c p rest m e in
      let taken : (if m then some rest else none) ≡ some q = rw (e, class_step) at h in
      let yes_m : m ≡ true = ground arith in
      let same : rest ≡ q = ground arith in
      let verdict_is : verdict n (holds_any c items) ≡ true =
        pair_first (sym (Class-try_match_class c p rest n items k) ∙ e) ∙ yes_m in
      subst (λ (r : Bytes). Token (b'[' ∷ p) c r) same (Class-Token c p rest n items k verdict_is)
]
  where
    pair_first :
        {a b : Bool} {r t : Bytes}
        → (let x : Option (Bool × Bytes) = some (a, r) in
            let y : Option (Bool × Bytes) = some (b, t) in x ≡ y)
        → a ≡ b
    pair_first e = cc

class_step-taken :
    (c : ℕ) (p q : Bytes) (n : Bool) (items : List Item)
    → Class p n items q
    → verdict n (holds_any c items) ≡ true
    → class_step c p (try_match_class c p) ≡ some q
unfolding class_step
class_step-taken c p q n items k v =
    let e = Class-try_match_class c p q n items k in rw (e, v, class_step) refl

class_step-bracket :
    (p : Bytes)
    → ((n : Bool) (items : List Item) (q : Bytes) → ¬ Class p n items q)
    → class_step b'[' p (try_match_class b'[' p) ≡ some p
unfolding class_step
class_step-bracket p none_closed = elim (Option-cases (try_match_class b'[' p)) [
  | inl e ↦ rw (e, class_step) refl
  | inr ((m, rest), e) ↦
      let (n, items, k) = try_match_class-Class b'[' p rest m e in
      absurd (none_closed n items rest k)
]

Token-match_one : (p : Bytes) (c : ℕ) (q : Bytes) → Token p c q → match_one p c ≡ some q
unfolding match_one
Token-match_one p c q any_byte = refl
Token-match_one p c q (literal a b d) = ground (arith, a, b, d)
Token-match_one p c q (member {p = r} {items = is} k h) =
    class_step-taken c r q false is k ((holds_any_iff c is).1 h)
Token-match_one p c q (non_member {p = r} {items = is} k h) =
    class_step-taken c r q true is k (elim (Bool-cases (holds_any c is)) [
      | inl e ↦ absurd (h ((holds_any_iff c is).0 e))
      | inr e ↦ rw e refl
    ])
Token-match_one p c q (bracket {p = r} h) = class_step-bracket r h

match_one-Token : (p : Bytes) (c : ℕ) (q : Bytes) → match_one p c ≡ some q → Token p c q
unfolding match_one
match_one-Token [] c q h = cc
match_one-Token (x ∷ p) c q h = elim (Bool-cases (x == b'?')) [
  | inl mark ↦
      let e : x ≡ b'?' = ground arith in
      let same : p ≡ q = ground (arith, h) in
      subst (λ (y : ℕ). Token (y ∷ p) c q) (sym e)
        (subst (λ (r : Bytes). Token (b'?' ∷ p) c r) same any_byte)
  | inr no_mark ↦ elim (Bool-cases (x == b'[')) [
    | inl opening ↦
        let e : x ≡ b'[' = ground arith in
        let step : class_step c p (try_match_class c p) ≡ some q = ground (arith, h) in
        subst (λ (y : ℕ). Token (y ∷ p) c q) (sym e) (class_step-Token c p q step)
    | inr no_bracket ↦
        let no_star : (x == b'*') ≡ false = ground (arith, h) in
        let here : c ≡ x = ground (arith, h) in
        let same : p ≡ q = ground (arith, h) in
        subst (λ (y : ℕ). Token (x ∷ p) y q) (sym here)
          (subst (λ (r : Bytes). Token (x ∷ p) x r) same
            (literal (λ f. ground (arith, f)) (λ f. ground (arith, f)) (λ f. ground (arith, f))))
  ]
]

-- A round of the loop reads a token exactly where one stands for the byte.
pub match_one_iff : (p : Bytes) (c : ℕ) (q : Bytes) → (match_one p c ≡ some q) ↔ Token p c q
match_one_iff p c q = (match_one-Token p c q, Token-match_one p c q)
