-- ===== src/Reading/Slices.antt =====
-- Runs of a byte string, cut out of it and joined again.
use duckdb_gdrive.Base.{
  ℕ, zero, suc, ◌+◌, ◌-◌, ◌≤◌, ◌≡◌, refl, [], ◌∷◌, ◌++◌, arith, length, take, drop, ap, ◌∙◌, sym,
  length-drop, length-take,
}
use duckdb_gdrive.Base.Text.{Bytes}

-- The bytes from a position on.
abbrev pub slice : ℕ → ℕ → Bytes → Bytes
slice start len xs = take len (drop start xs)

take-nil : (n : ℕ) → take {A = ℕ} n [] ≡ []
take-nil zero = refl
take-nil (suc n) = refl

drop-nil : (n : ℕ) → drop {A = ℕ} n [] ≡ []
drop-nil zero = refl
drop-nil (suc n) = refl

pub drop-drop : (m n : ℕ) (xs : Bytes) → drop m (drop n xs) ≡ drop (n + m) xs
drop-drop m zero xs = let e : m ≡ zero + m = omega arith in ap (λ (k : ℕ). drop k xs) e
drop-drop m (suc n) [] = drop-nil m ∙ sym (drop-nil (suc n + m))
drop-drop m (suc n) (x ∷ xs) =
    let e : suc (n + m) ≡ suc n + m = omega arith in
    drop-drop m n xs ∙ ap (λ (k : ℕ). drop k (x ∷ xs)) e

pub take-join : (m n : ℕ) (xs : Bytes) → take m xs ++ take n (drop m xs) ≡ take (m + n) xs
take-join zero n xs = let e : n ≡ zero + n = omega arith in ap (λ (k : ℕ). take k xs) e
take-join (suc m) n [] = take-nil n ∙ sym (take-nil (suc m + n))
take-join (suc m) n (x ∷ xs) =
    let e : suc (m + n) ≡ suc m + n = omega arith in
    ap (◌∷◌ x) (take-join m n xs) ∙ ap (λ (k : ℕ). take k (x ∷ xs)) e

pub take-take : (m n : ℕ) (xs : Bytes) → m ≤ n → take m (take n xs) ≡ take m xs
take-take zero n xs h = refl
take-take (suc m) zero xs h = absurd (omega arith)
take-take (suc m) (suc n) [] h = refl
take-take (suc m) (suc n) (x ∷ xs) h = ap (◌∷◌ x) (take-take m n xs (omega arith))

pub drop-take : (m n : ℕ) (xs : Bytes) → drop m (take n xs) ≡ take (n - m) (drop m xs)
drop-take zero n xs = let e : n ≡ n - zero = omega arith in ap (λ (k : ℕ). take k xs) e
drop-take (suc m) zero xs =
    let e : zero ≡ zero - suc m = omega arith in ap (λ (k : ℕ). take k (drop (suc m) xs)) e
drop-take (suc m) (suc n) [] = sym (take-nil (suc n - suc m))
drop-take (suc m) (suc n) (x ∷ xs) =
    let e : n - m ≡ suc n - suc m = omega arith in
    drop-take m n xs ∙ ap (λ (k : ℕ). take k (drop m xs)) e

pub length-slice :
    (start len : ℕ) (xs : Bytes) → start + len ≤ length xs → length (slice start len xs) ≡ len
length-slice start len xs h = omega (arith, length-take len (drop start xs), length-drop start xs)

pub take-all : (n : ℕ) (xs : Bytes) → length xs ≤ n → take n xs ≡ xs
take-all zero [] h = refl
take-all zero (x ∷ xs) h = absurd (omega arith)
take-all (suc n) [] h = refl
take-all (suc n) (x ∷ xs) h = ap (◌∷◌ x) (take-all n xs (omega arith))
