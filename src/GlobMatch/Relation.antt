-- ===== src/GlobMatch/Relation.antt =====
-- What a glob segment matches, and the shape of one step (MatchSegmentImpl, TryMatchClass).
use duckdb_gdrive.Base.{
  ℕ, zero, suc, ◌≡◌, ◌≤◌, ◌<◌, refl, sym, Bool, true, false, ◌||◌, Option, none, some, [], ◌∷◌,
  arith, ◌==◌, length, drop, subst,
}
use duckdb_gdrive.Base.Text.{Bytes}
use duckdb_gdrive.GlobMatch.{class_loop, try_match_class, class_step, match_one, in_range, tail}

-- A star matches any run of bytes, any other token one byte.
pub data Matches : Bytes → Bytes → Type 0 where
  empty : Matches [] []
  leave : {p s : Bytes} → Matches p s → Matches (b'*' ∷ p) s
  take : {c : ℕ} {p s : Bytes} → Matches (b'*' ∷ p) s → Matches (b'*' ∷ p) (c ∷ s)
  one : {c : ℕ} {p q s : Bytes} → match_one p c ≡ some q → Matches q s → Matches p (c ∷ s)

abbrev ends : Option (Bool × Bytes) → Option Bytes
ends none = none
ends (some (matched, rest)) = some rest

-- Where a class ends does not depend on the byte that it is tried on.
class_loop-ends :
    (c d : ℕ) (negate f g first : Bool) (s : Bytes)
    → ends (class_loop c negate f first s) ≡ ends (class_loop d negate g first s)
unfolding class_loop
class_loop-ends c d negate f g first [] = refl
class_loop-ends c d negate f g first (x ∷ []) = ground arith
class_loop-ends c d negate f g first (x ∷ y ∷ []) =
    ground (arith, class_loop-ends c d negate (f || x == c) (g || x == d) false (y ∷ []))
class_loop-ends c d negate f g first (x ∷ y ∷ z ∷ s) = ground (
  arith,
  class_loop-ends c d negate (f || x == c) (g || x == d) false (y ∷ z ∷ s),
  class_loop-ends c d negate (f || in_range x z c) (g || in_range x z d) false s,
)

try_match_class-ends :
    (c d : ℕ) (p : Bytes) → ends (try_match_class c p) ≡ ends (try_match_class d p)
unfolding try_match_class
try_match_class-ends c d [] = refl
try_match_class-ends c d (x ∷ p) = ground (
  arith,
  class_loop-ends c d true false false true p,
  class_loop-ends c d false false false true (x ∷ p),
)

class_step_rest :
    (c d : ℕ) (p q r : Bytes) (a b : Option (Bool × Bytes))
    → ends a ≡ ends b
    → class_step c p a ≡ some q
    → class_step d p b ≡ some r
    → q ≡ r
unfolding class_step
class_step_rest c d p q r none none e h k = ground arith
class_step_rest c d p q r none (some (m, x)) e h k = cc
class_step_rest c d p q r (some (m, x)) none e h k = cc
class_step_rest c d p q r (some (m, x)) (some (n, y)) e h k =
    let same : x ≡ y = cc in ground (arith, same)

-- What a step leaves of the pattern does not depend on the byte that it takes.
pub match_one_rest :
    (p : Bytes) (c d : ℕ) (q r : Bytes) → match_one p c ≡ some q → match_one p d ≡ some r → q ≡ r
unfolding match_one
match_one_rest [] c d q r h k = cc
match_one_rest (x ∷ p) c d q r h k = ground (
  arith,
  class_step_rest c d p q r (try_match_class c p) (try_match_class d p)
      (try_match_class-ends c d p),
)

class_loop-length :
    (c : ℕ) (negate found first m : Bool) (s rest : Bytes)
    → class_loop c negate found first s ≡ some (m, rest)
    → length rest < length s
unfolding class_loop
class_loop-length c negate found first m [] rest h = cc
class_loop-length c negate found first m (x ∷ []) rest h = ground arith
class_loop-length c negate found first m (x ∷ y ∷ []) rest h =
    ground (arith, class_loop-length c negate (found || x == c) false m (y ∷ []) rest)
class_loop-length c negate found first m (x ∷ y ∷ z ∷ s) rest h = ground (
  arith,
  class_loop-length c negate (found || x == c) false m (y ∷ z ∷ s) rest,
  class_loop-length c negate (found || in_range x z c) false m s rest,
)

class_step-length :
    (c : ℕ) (p q : Bytes) (a : Option (Bool × Bytes))
    → ((m : Bool) (rest : Bytes) → a ≡ some (m, rest) → length rest ≤ length p)
    → class_step c p a ≡ some q
    → length q ≤ length p
unfolding class_step
class_step-length c p q none f h = ground arith
class_step-length c p q (some (m, rest)) f h = ground (arith, f m rest refl)

try_match_class-length :
    (c : ℕ) (p : Bytes) (m : Bool) (rest : Bytes)
    → try_match_class c p ≡ some (m, rest)
    → length rest ≤ length p
unfolding try_match_class
try_match_class-length c [] m rest h = cc
try_match_class-length c (x ∷ p) m rest h = ground (
  arith,
  class_loop-length c true false true m p rest,
  class_loop-length c false false true m (x ∷ p) rest,
)

-- A step takes something from the pattern.
pub match_one-length :
    (p : Bytes) (c : ℕ) (q : Bytes) → match_one p c ≡ some q → length q < length p
unfolding match_one
match_one-length [] c q h = cc
match_one-length (x ∷ p) c q h =
    ground (arith, class_step-length c p q (try_match_class c p) (try_match_class-length c p))

-- A pattern at a star or at its end takes no step.
pub not-match_one-star : (p : Bytes) (c : ℕ) → match_one (b'*' ∷ p) c ≡ none
unfolding match_one
not-match_one-star p c = refl

-- The pattern `q` is what `n` steps leave of `p`.
pub data Walk : Bytes → ℕ → Bytes → Type 0 where
  still : {p : Bytes} → Walk p 0 p
  onward : {p q r : Bytes} {n : ℕ} (c : ℕ) → Walk p n q → match_one q c ≡ some r → Walk p (suc n) r

pub drop-suc : (n : ℕ) (t : Bytes) → drop (suc n) t ≡ tail (drop n t)
drop-suc zero [] = refl
drop-suc zero (x ∷ t) = refl
drop-suc (suc n) [] = refl
drop-suc (suc n) (x ∷ t) = drop-suc n t

pub after_one : (q r t : Bytes) (c : ℕ) → Matches q t → match_one q c ≡ some r → Matches r (tail t)
unfolding match_one
after_one q r t c empty h = cc
after_one q r t c (leave m) h = cc
after_one q r t c (take m) h = cc
after_one q r t c (one {c = d} {q = r'} {s = s} e m) h =
    subst (λ (x : Bytes). Matches x s) (match_one_rest q d c r' r e h) m

-- What the pattern matches, its remainder matches after as many bytes.
pub Walk-Matches :
    (p : Bytes) (n : ℕ) (q t : Bytes) → Walk p n q → Matches p t → Matches q (drop n t)
Walk-Matches p n q t still m = m
Walk-Matches p n r t (onward {q = q} {n = k} c w e) m =
    subst (Matches r) (sym (drop-suc k t)) (after_one q r (drop k t) c (Walk-Matches p k q t w m) e)
