-- ===== src/Redact/Search.antt =====
-- Where a needle occurs in a text, and in what a replacement makes of it.
use duckdb_gdrive.Base.{
  ℕ, zero, suc, ◌≡◌, refl, ◌∙◌, Bool, false, ◌||◌, [], ◌∷◌, ◌++◌, arith, take, drop,
  take-append-drop,
}
use duckdb_gdrive.Base.Text.{Bytes, codes, is_empty, Lacks}
use duckdb_gdrive.Redact.{is_prefix, redacted, replace}

abbrev pub occurs : Bytes → Bytes → Bool
occurs p [] = is_prefix p []
occurs p (c ∷ s) = is_prefix p (c ∷ s) || occurs p s

-- A needle that "[redacted]" cannot be a part of, nor it a part of "redacted".
pub record IsApart (p : Bytes) : Type 0 where
  pub nonempty : is_empty p ≡ false
  pub opening : Lacks b'[' p
  pub closing : Lacks b']' p
  pub inside : occurs p (codes "redacted") ≡ false

is_prefix-break :
    (d : ℕ) (p xs ys : Bytes) → Lacks d p → is_prefix p (xs ++ d ∷ ys) ≡ is_prefix p xs
is_prefix-break d [] xs ys h = refl
is_prefix-break d (c ∷ p) [] ys h = ground arith
is_prefix-break d (c ∷ p) (x ∷ xs) ys h = ground (arith, is_prefix-break d p xs ys h.1)

occurs-break :
    (d : ℕ) (p xs ys : Bytes)
    → is_empty p ≡ false
    → Lacks d p
    → occurs p (xs ++ d ∷ ys) ≡ (occurs p xs || occurs p ys)
occurs-break d p [] ys h l = ground (arith, is_prefix-break d p [] ys l)
occurs-break d p (x ∷ xs) ys h l =
    ground (arith, is_prefix-break d p (x ∷ xs) ys l, occurs-break d p xs ys h l)

pub is_prefix-append : (p xs ys : Bytes) → is_prefix p (xs ++ ys) ≡ false → is_prefix p xs ≡ false
is_prefix-append [] xs ys h = h
is_prefix-append (c ∷ p) [] ys h = refl
is_prefix-append (c ∷ p) (x ∷ xs) ys h = ground (arith, is_prefix-append p xs ys)

occurs-take : (n : ℕ) (p xs : Bytes) → occurs p xs ≡ false → occurs p (take n xs) ≡ false
occurs-take zero p [] h = h
occurs-take zero p (x ∷ xs) h = is_prefix-append p [] (x ∷ xs) (ground arith)
occurs-take (suc n) p [] h = h
occurs-take (suc n) p (x ∷ xs) h =
    let here : is_prefix p (x ∷ take n xs) ≡ false =
      is_prefix-append p (x ∷ take n xs) (drop n xs) (rw (take-append-drop n xs) (ground arith)) in
    ground (arith, occurs-take n p xs)

pub occurs-drop :
    (n : ℕ) (p xs : Bytes) → is_empty p ≡ false → occurs p xs ≡ false → occurs p (drop n xs) ≡ false
occurs-drop zero p xs e h = h
occurs-drop (suc n) p [] e h = h
occurs-drop (suc n) p (x ∷ xs) e h = occurs-drop n p xs e (ground arith)

-- The text before a mark, the mark and the rest.
pub occurs-redacted :
    (p a b : Bytes) → IsApart p → occurs p (a ++ (redacted ++ b)) ≡ (occurs p a || occurs p b)
occurs-redacted p a b h =
    let outer : occurs p (a ++ (redacted ++ b))
        ≡ (occurs p a || occurs p (codes "redacted" ++ b']' ∷ b)) =
      occurs-break b'[' p a (codes "redacted" ++ b']' ∷ b) h.nonempty h.opening in
    let inner : occurs p (codes "redacted" ++ b']' ∷ b)
        ≡ (occurs p (codes "redacted") || occurs p b) =
      occurs-break b']' p (codes "redacted") b h.nonempty h.closing in
    let split : redacted ++ b ≡ b'[' ∷ (codes "redacted" ++ b']' ∷ b) = refl in
    rw split (outer ∙ rw inner (rw h.inside refl))

pub occurs-replace :
    (p out : Bytes) (start end : ℕ)
    → IsApart p
    → occurs p out ≡ false
    → occurs p (replace out start end) ≡ false
occurs-replace p out start end h l =
    rw
      (
        occurs-redacted p (take start out) (drop end out) h,
        occurs-take start p out l,
        occurs-drop end p out h.nonempty l,
      )
      refl
