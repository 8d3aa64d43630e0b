-- ===== src/Base/Text.antt =====
-- Byte strings: std::string as a list of bytes, with the member functions that the sources use.
use Prim.Native.Nat.{ℕ}
use Prim.Native.Char.{code}
use Prim.Native.String.{String}
use mathlib.Core.Path.{◌≡◌, refl}
use mathlib.Core.Logic.{◌↔◌, inl, inr}
use mathlib.Core.Bool.{Bool, true, false, ◌&&◌}
use mathlib.Core.Option.{Option, none, some}
use mathlib.Core.List.{List, [], ◌∷◌, ◌++◌}
use native.Mathlib.Omega.{arith}
use duckdb_gdrive.Base.Tests.{◌==◌, if◌then◌else◌, Bool-cases, Option-cases}

abbrev pub Bytes : Type 0
Bytes = List ℕ

-- The bytes of an ASCII literal.
abbrev pub codes : String → Bytes
codes String.[] = []
codes (String.◌∷◌ c s) = code c ∷ codes s

-- operator== on std::string
unfoldable pub eqb : Bytes → Bytes → Bool
eqb [] [] = true
eqb [] (_ ∷ _) = false
eqb (_ ∷ _) [] = false
eqb (x ∷ xs) (y ∷ ys) = (x == y) && eqb xs ys

pub eqb→eq : (xs ys : Bytes) → eqb xs ys ≡ true → xs ≡ ys
unfolding eqb
eqb→eq [] [] h = refl
eqb→eq [] (y ∷ ys) h = cc
eqb→eq (x ∷ xs) [] h = cc
eqb→eq (x ∷ xs) (y ∷ ys) h = ground (arith, eqb→eq xs ys)

pub eqb_refl : (xs : Bytes) → eqb xs xs ≡ true
unfolding eqb
eqb_refl [] = refl
eqb_refl (x ∷ xs) = ground (arith, eqb_refl xs)

pub eqb_iff : (xs ys : Bytes) → (eqb xs ys ≡ true) ↔ (xs ≡ ys)
eqb_iff xs ys = (eqb→eq xs ys, λ e. rw e (eqb_refl ys))

-- s.compare(0, p.size(), p) == 0, followed by s.substr(p.size()): what is left after a prefix.
unfoldable pub strip_prefix? : Bytes → Bytes → Option Bytes
strip_prefix? [] s = some s
strip_prefix? (p ∷ ps) [] = none
strip_prefix? (p ∷ ps) (c ∷ s) = if p == c then strip_prefix? ps s else none

pub strip_prefix?-append : (p s : Bytes) → strip_prefix? p (p ++ s) ≡ some s
unfolding strip_prefix?
strip_prefix?-append [] s = refl
strip_prefix?-append (c ∷ p) s = ground (arith, strip_prefix?-append p s)

pub strip_prefix?-eq-some : (p s r : Bytes) → strip_prefix? p s ≡ some r → s ≡ p ++ r
unfolding strip_prefix?
strip_prefix?-eq-some [] s r h = ground arith
strip_prefix?-eq-some (p ∷ ps) [] r h = cc
strip_prefix?-eq-some (p ∷ ps) (c ∷ s) r h = ground (arith, strip_prefix?-eq-some ps s r)

abbrev pub is_empty : Bytes → Bool
is_empty [] = true
is_empty (_ ∷ _) = false

-- find_first_not_of and find_last_not_of, followed by substr: what is left without the characters
-- of a kind at the front, or at the back.
unfoldable pub drop_while : (ℕ → Bool) → Bytes → Bytes
drop_while p [] = []
drop_while p (c ∷ s) = if p c then drop_while p s else c ∷ s

unfoldable pub drop_while_back : (ℕ → Bool) → Bytes → Bytes
drop_while_back p [] = []
drop_while_back p (c ∷ s) =
    let rest = drop_while_back p s in if is_empty rest && p c then [] else c ∷ rest

-- s.find(d): what stands before the first occurrence of d, and what stands after it.
unfoldable pub split_at? : ℕ → Bytes → Option (Bytes × Bytes)
split_at? d [] = none
split_at? d (c ∷ s) =
    let rest = split_at? d s in
    if c == d
    then some ([], s)
    else elim rest [ none ↦ none | some (before, after) ↦ some (c ∷ before, after) ]

-- The byte does not occur.
abbrev pub Lacks : ℕ → Bytes → Type 0
Lacks d [] = Unit
Lacks d (c ∷ s) = ((c == d) ≡ false) × Lacks d s

pub split_at?-some :
    (d : ℕ) (s before after : Bytes)
    → split_at? d s ≡ some (before, after)
    → (s ≡ before ++ d ∷ after) × Lacks d before
unfolding split_at?
split_at?-some d [] before after h = cc
split_at?-some d (c ∷ s) before after h = elim (Bool-cases (c == d)) [
  | inl here ↦ ground arith
  | inr later ↦ elim (Option-cases (split_at? d s)) [
    | inl e ↦ ground arith
    | inr ((b, a), e) ↦ ground (arith, split_at?-some d s b a)
  ]
]

pub split_at?-none : (d : ℕ) (s : Bytes) → split_at? d s ≡ none → Lacks d s
unfolding split_at?
split_at?-none d [] h = tt
split_at?-none d (c ∷ s) h = elim (Option-cases (split_at? d s)) [
  | inl e ↦ ground (arith, split_at?-none d s)
  | inr (p, e) ↦ ground arith
]

pub split_at?-append :
    (d : ℕ) (before after : Bytes)
    → Lacks d before
    → split_at? d (before ++ d ∷ after) ≡ some (before, after)
unfolding split_at?
split_at?-append d [] after h = ground arith
split_at?-append d (c ∷ before) after h = ground (arith, split_at?-append d before after h.1)

pub split_at?-Lacks : (d : ℕ) (s : Bytes) → Lacks d s → split_at? d s ≡ none
unfolding split_at?
split_at?-Lacks d [] h = refl
split_at?-Lacks d (c ∷ s) h = ground (arith, split_at?-Lacks d s h.1)

pub Lacks-append : (d : ℕ) (s t : Bytes) → Lacks d s → Lacks d t → Lacks d (s ++ t)
Lacks-append d [] t hs ht = ht
Lacks-append d (c ∷ s) t hs ht = (hs.0, Lacks-append d s t hs.1 ht)

-- std::string::find(needle) != npos
unfoldable pub contains : Bytes → Bytes → Bool
contains needle [] = is_empty needle
contains needle (c ∷ s) = elim (strip_prefix? needle (c ∷ s)) [
  | some _ ↦ true
  | none ↦ contains needle s
]
