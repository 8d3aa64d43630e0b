-- ===== src/GlobMatch/Classes.antt =====
-- What a class of a glob segment holds, and that TryMatchClass reads its items so.
use duckdb_gdrive.Base.{
  ℕ, ◌+◌, ◌-◌, ◌%◌, ◌≡◌, ◌≢◌, ◌≤◌, ◌↔◌, ◌⊎◌, inl, inr, refl, sym, ◌∙◌, ap, subst, Bool, true, false,
  not, ◌||◌, ◌&&◌, some, List, [], ◌∷◌, ◌==◌, ltb, if◌then◌else◌, arith, Any, Bool-cases,
}
use duckdb_gdrive.Base.Text.{Bytes}
use duckdb_gdrive.GlobMatch.{char_key, in_range, class_loop}

-- The place of a byte in the order of signed chars, which has the bytes from 128 up before the others.
abbrev pub signed_rank : ℕ → ℕ
signed_rank c = if ltb (c % 256) 128 then c % 256 + 128 else c % 256 - 128

-- What stands in a class: a byte, or a span from a byte to a byte.
pub data Item : Type 0 where
  byte : ℕ → Item
  span : ℕ → ℕ → Item

abbrev pub Holds : ℕ → Item → Type 0
Holds c (byte x) = x ≡ c
Holds c (span lo hi) = (signed_rank lo ≤ signed_rank c) × (signed_rank c ≤ signed_rank hi)

-- What follows a byte makes a span of it: a hyphen, and a byte that does not close the class.
abbrev pub StartsSpan : Bytes → Type 0
StartsSpan (y ∷ z ∷ s) = (y ≡ b'-') × (z ≢ b']')
StartsSpan _ = ⊥

-- The items of a class up to the bracket that closes it, and what follows it. A closing bracket that is the
-- first byte of a class is an item.
pub data Items : Bool → Bytes → List Item → Bytes → Type 0 where
  closes_class : {rest : Bytes} → Items false (b']' ∷ rest) [] rest
  spans :
      {first : Bool} {x z : ℕ} {s rest : Bytes} {items : List Item}
      → (first ≡ true) ⊎ (x ≢ b']')
      → z ≢ b']'
      → Items false s items rest
      → Items first (x ∷ b'-' ∷ z ∷ s) (span x z ∷ items) rest
  single :
      {first : Bool} {x : ℕ} {s rest : Bytes} {items : List Item}
      → (first ≡ true) ⊎ (x ≢ b']')
      → ¬ StartsSpan s
      → Items false s items rest
      → Items first (x ∷ s) (byte x ∷ items) rest

holds : ℕ → Item → Bool
holds c (byte x) = x == c
holds c (span lo hi) = in_range lo hi c

pub holds_any : ℕ → List Item → Bool
unfolding holds
holds_any c [] = false
holds_any c (i ∷ items) = holds c i || holds_any c items

char_key_rank : (c : ℕ) → char_key c ≡ signed_rank c
char_key_rank c = ground arith

holds_iff : (c : ℕ) (i : Item) → (holds c i ≡ true) ↔ Holds c i
unfolding holds
holds_iff c (byte x) = (λ h. ground arith, λ h. ground arith)
holds_iff c (span lo hi) =
    let e = char_key_rank c in
    let l = char_key_rank lo in
    let r = char_key_rank hi in (λ h. ground (arith, e, l, r), λ h. ground (arith, e, l, r))

or_right : (a b : Bool) → b ≡ true → (a || b) ≡ true
or_right true b e = refl
or_right false b e = e

or_none : (a : Bool) → (a || false) ≡ a
or_none true = refl
or_none false = refl

or_assoc : (a b c : Bool) → (a || b || c) ≡ (a || (b || c))
or_assoc true b c = refl
or_assoc false b c = refl

pub holds_any_iff : (c : ℕ) (items : List Item) → (holds_any c items ≡ true) ↔ Any (Holds c) items
unfolding holds_any
holds_any_iff c [] = (λ h. cc, λ h. absurd h)
holds_any_iff c (i ∷ items) = (
  λ h. elim (Bool-cases (holds c i)) [
    | inl e ↦ inl ((holds_iff c i).0 e)
    | inr e ↦ inr ((holds_any_iff c items).0 (ground arith))
  ],
  λ h. elim h [
    | inl e ↦ rw ((holds_iff c i).1 e) refl
    | inr e ↦ or_right (holds c i) (holds_any c items) ((holds_any_iff c items).1 e)
  ],
)

-- What the loop says of a byte.
abbrev pub verdict : Bool → Bool → Bool
verdict negate found = if negate then not found else found

loop_closes :
    (c : ℕ) (negate found : Bool) (rest : Bytes)
    → class_loop c negate found false (b']' ∷ rest) ≡ some (verdict negate found, rest)
unfolding class_loop
loop_closes c negate found [] = refl
loop_closes c negate found (y ∷ []) = refl
loop_closes c negate found (y ∷ z ∷ s) = refl

is_item : (first : Bool) (x : ℕ) → (first ≡ true) ⊎ (x ≢ b']') → (x == b']' && not first) ≡ false
is_item true x o = elim (Bool-cases (x == b']')) [ inl e ↦ rw e refl | inr e ↦ rw e refl ]
is_item false x (inl e) = cc
is_item false x (inr o) = ground (arith, o)

loop_spans :
    (c : ℕ) (negate found first : Bool) (x z : ℕ) (s : Bytes)
    → (first ≡ true) ⊎ (x ≢ b']')
    → z ≢ b']'
    → class_loop c negate found first (x ∷ b'-' ∷ z ∷ s)
      ≡ class_loop c negate (found || in_range x z c) false s
unfolding class_loop
loop_spans c negate found first x z s o n =
    let item = is_item first x o in
    let other : (z == b']') ≡ false = ground (arith, n) in rw (item, other) refl

loop_single :
    (c : ℕ) (negate found first : Bool) (x : ℕ) (s : Bytes)
    → (first ≡ true) ⊎ (x ≢ b']')
    → ¬ StartsSpan s
    → class_loop c negate found first (x ∷ s) ≡ class_loop c negate (found || x == c) false s
unfolding class_loop
loop_single c negate found first x [] o n = let item = is_item first x o in rw item refl
loop_single c negate found first x (y ∷ []) o n = let item = is_item first x o in rw item refl
loop_single c negate found first x (y ∷ z ∷ s) o n =
    let item = is_item first x o in
    elim (Bool-cases (y == b'-' && not (z == b']'))) [
      | inl e ↦ absurd (n (ground arith, λ f. ground (arith, f)))
      | inr e ↦ rw (item, e) refl
    ]

pub class_loop-Items :
    (c : ℕ) (negate found first : Bool) (s rest : Bytes) (items : List Item)
    → Items first s items rest
    → class_loop c negate found first s ≡ some (verdict negate (found || holds_any c items), rest)
unfolding holds_any holds
class_loop-Items c negate found first s rest items closes_class =
    loop_closes c negate found rest
    ∙ ap (λ (f : Bool). some (verdict negate f, rest)) (sym (or_none found))
class_loop-Items c negate found first s rest items
      (spans {x = x} {z = z} {s = s'} {items = is} o n more) =
    loop_spans c negate found first x z s' o n
    ∙ class_loop-Items c negate (found || in_range x z c) false s' rest is more
    ∙ ap (λ (f : Bool). some (verdict negate f, rest))
        (or_assoc found (in_range x z c) (holds_any c is))
class_loop-Items c negate found first s rest items (single {x = x} {s = s'} {items = is} o n more) =
    loop_single c negate found first x s' o n
    ∙ class_loop-Items c negate (found || x == c) false s' rest is more
    ∙ ap (λ (f : Bool). some (verdict negate f, rest)) (or_assoc found (x == c) (holds_any c is))

-- A byte of a class closes it, or is an item.
byte_cases : (first : Bool) (x : ℕ) → ((x ≡ b']') × (first ≡ false)) ⊎ ((first ≡ true) ⊎ (x ≢ b']'))
byte_cases true x = inr (inl refl)
byte_cases false x = elim (Bool-cases (x == b']')) [
  | inl e ↦ inl (ground arith, refl)
  | inr e ↦ inr (inr (λ f. ground (arith, f)))
]

StartsSpan-cases : (s : Bytes) → StartsSpan s ⊎ (¬ StartsSpan s)
StartsSpan-cases [] = inr (λ h. h)
StartsSpan-cases (y ∷ []) = inr (λ h. h)
StartsSpan-cases (y ∷ z ∷ s) = elim (Bool-cases (y == b'-' && not (z == b']'))) [
  | inl e ↦ inl (ground arith, λ f. ground (arith, f))
  | inr e ↦ inr (λ (h, k). ground (arith, h, k))
]

Items-close :
    (first : Bool) (x : ℕ) (s : Bytes) → x ≡ b']' → first ≡ false → Items first (x ∷ s) [] s
Items-close first x s e f = rw (e, f) closes_class

closing_item :
    (c : ℕ) (negate found first m : Bool) (x : ℕ) (s rest : Bytes)
    → x ≡ b']'
    → first ≡ false
    → class_loop c negate found first (x ∷ s) ≡ some (m, rest)
    → (items : List Item) × Items first (x ∷ s) items rest
closing_item c negate found first m x s rest e f h =
    let at : class_loop c negate found false (b']' ∷ s) ≡ some (m, rest) = rw (e, f) at h in
    let same : s ≡ rest = cc (sym (loop_closes c negate found s) ∙ at) in
    ([], subst (λ (r : Bytes). Items first (x ∷ s) [] r) same (Items-close first x s e f))

pub Items-class_loop :
    (c : ℕ) (negate found first m : Bool) (s rest : Bytes)
    → class_loop c negate found first s ≡ some (m, rest)
    → (items : List Item) × Items first s items rest
unfolding class_loop
Items-class_loop c negate found first m [] rest h = cc
Items-class_loop c negate found first m (x ∷ []) rest h = elim (byte_cases first x) [
  | inl (e, f) ↦ closing_item c negate found first m x ([]) rest e f h
  | inr o ↦ absurd (cc (sym (loop_single c negate found first x [] o (λ n. n)) ∙ h))
]
Items-class_loop c negate found first m (x ∷ y ∷ []) rest h = elim (byte_cases first x) [
  | inl (e, f) ↦ closing_item c negate found first m x (y ∷ []) rest e f h
  | inr o ↦
      let (items, more) =
        Items-class_loop c negate (found || x == c) false m (y ∷ []) rest
          (sym (loop_single c negate found first x (y ∷ []) o (λ n. n)) ∙ h) in
      (byte x ∷ items, single o (λ n. n) more)
]
Items-class_loop c negate found first m (x ∷ y ∷ z ∷ s) rest h = elim (byte_cases first x) [
  | inl (e, f) ↦ closing_item c negate found first m x (y ∷ z ∷ s) rest e f h
  | inr o ↦ elim (StartsSpan-cases (y ∷ z ∷ s)) [
    | inr n ↦
        let (items, more) =
          Items-class_loop c negate (found || x == c) false m (y ∷ z ∷ s) rest
            (sym (loop_single c negate found first x (y ∷ z ∷ s) o n) ∙ h) in
        (byte x ∷ items, single o n more)
    | inl (hyphen, n) ↦
        let at : class_loop c negate found first (x ∷ b'-' ∷ z ∷ s) ≡ some (m, rest) =
          ap (λ (d : ℕ). class_loop c negate found first (x ∷ d ∷ z ∷ s)) (sym hyphen) ∙ h in
        let (items, more) =
          Items-class_loop c negate (found || in_range x z c) false m s rest
            (sym (loop_spans c negate found first x z s o n) ∙ at) in
        (
          span x z ∷ items,
          subst (λ (d : ℕ). Items first (x ∷ d ∷ z ∷ s) (span x z ∷ items) rest) (sym hyphen)
              (spans o n more),
        )
  ]
]
