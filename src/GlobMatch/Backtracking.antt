-- ===== src/GlobMatch/Backtracking.antt =====
-- Going back to the last star only loses no match (MatchSegmentImpl).
use duckdb_gdrive.Base.{
  ℕ, zero, suc, ◌+◌, ◌*◌, ◌≡◌, ◌≤◌, ◌<◌, ◌↔◌, ◌⊎◌, refl, sym, ap, ◌∙◌, subst, true, false, none,
  some, [], ◌∷◌, arith, ◌==◌, Bool-cases, inl, inr, length, drop, length-drop,
}
use duckdb_gdrive.Base.Text.{Bytes}
use duckdb_gdrive.GlobMatch.{match_one, skip_stars, is_star, is_nil, tail, Star}
use duckdb_gdrive.GlobMatch.Relation.{
  Matches, empty, leave, take, one, Walk, onward, Walk-Matches, drop-suc, after_one,
}

-- The last star may still match more bytes than it did.
abbrev pub Alternatives : Star → Type 0
Alternatives none = ⊥
Alternatives (some (star_p, star_s)) = (k : ℕ) × Matches star_p (drop (suc k) star_s)

-- How the loop came from the last star to where it stands, in a pattern of P bytes and a name of N.
abbrev pub Reached : ℕ → ℕ → Star → Bytes → Bytes → Type 0
Reached P N none p s = Unit
Reached P N (some (star_p, star_s)) p s =
    (length star_p ≤ P) × (length star_s ≤ N) × (n : ℕ) × (s ≡ drop n star_s) × Walk star_p n p

abbrev pub starts_left : ℕ → Star → ℕ
starts_left N none = N + 1
starts_left N (some (star_p, star_s)) = length star_s

pub skip_stars-length : (p : Bytes) → length (skip_stars p) ≤ length p
unfolding skip_stars
skip_stars-length [] = omega arith
skip_stars-length (x ∷ p) = ground (arith, skip_stars-length p)

pub skip_star-length : (p : Bytes) → is_star p ≡ true → length (skip_stars p) < length p
unfolding skip_stars
skip_star-length [] h = cc
skip_star-length (x ∷ p) h = ground (arith, skip_stars-length p)

-- Stars in a row are one star.
unskip : (p s : Bytes) → Matches (skip_stars p) s → Matches p s
unfolding skip_stars
unskip [] s m = m
unskip (x ∷ p) s m = elim (Bool-cases (x == b'*')) [
  | inl star ↦
      let e : x ≡ b'*' = ground arith in rw e (leave (unskip p s (rw (star, skip_stars) at m)))
  | inr other ↦ rw (other, skip_stars) at m
]

star_take : (c : ℕ) (p s : Bytes) → is_star p ≡ true → Matches p s → Matches p (c ∷ s)
star_take c [] s h m = cc
star_take c (x ∷ p) s h m = let e : x ≡ b'*' = ground arith in rw e (take (rw e at m))

-- A star matches what the rest matches, on some end of the name.
star_drop :
    (p s : Bytes) (k : ℕ) → is_star p ≡ true → Matches (skip_stars p) (drop k s) → Matches p s
star_drop p s zero h m = unskip p s m
star_drop p [] (suc k) h m = unskip p [] m
star_drop p (c ∷ s) (suc k) h m = star_take c p s h (star_drop p s k h m)

pub one_skips : (p : Bytes) (c : ℕ) (q : Bytes) → match_one p c ≡ some q → is_star p ≡ false
unfolding match_one
one_skips [] c q h = refl
one_skips (x ∷ p) c q h = ground arith

skip_self : (p : Bytes) → is_star p ≡ false → skip_stars p ≡ p
unfolding skip_stars
skip_self [] h = refl
skip_self (x ∷ p) h = rw (h, skip_stars) refl

skip_matches : (p s : Bytes) → Matches p s → (k : ℕ) × Matches (skip_stars p) (drop k s)
unfolding skip_stars
skip_matches p s empty = (0, empty)
skip_matches p s (leave {p = p'} m) = skip_matches p' s m
skip_matches p s (take {p = p'} {s = s'} m) =
    let (k, more) = skip_matches (b'*' ∷ p') s' m in (suc k, more)
skip_matches p s (one {c = c} {q = q} {s = s'} e m) =
    (0, subst (λ (x : Bytes). Matches x s) (sym (skip_self p (one_skips p c q e))) (one e m))

skip_stars-none : (p : Bytes) → is_star (skip_stars p) ≡ false
unfolding skip_stars
skip_stars-none [] = refl
skip_stars-none (x ∷ p) = elim (Bool-cases (x == b'*')) [
  | inl star ↦ rw (star, skip_stars) (skip_stars-none p)
  | inr other ↦ rw (other, skip_stars) other
]

nil_iff : (q : Bytes) → is_star q ≡ false → (is_nil q ≡ true) ↔ Matches q []
nil_iff [] h = (λ e. empty, λ m. refl)
nil_iff (x ∷ q) h = (λ e. cc, λ m. go (x ∷ q) [] refl refl h m)
  where
    go :
        (p s : Bytes) → p ≡ x ∷ q → s ≡ [] → is_star p ≡ false → Matches p s → is_nil (x ∷ q) ≡ true
    go p s e f h empty = cc
    go p s e f h (leave m) = cc
    go p s e f h (take m) = cc
    go p s e f h (one g m) = cc

abbrev empty_text : Bytes
empty_text = []

drop-nil : (k : ℕ) → drop k empty_text ≡ empty_text
drop-nil zero = refl
drop-nil (suc k) = refl

drop-all : (s : Bytes) → drop (length s) s ≡ []
drop-all [] = refl
drop-all (c ∷ s) = drop-all s

drop-tail : (k : ℕ) (s : Bytes) → drop (suc k) s ≡ drop k (tail s)
drop-tail k [] = sym (drop-nil k)
drop-tail k (c ∷ s) = refl

drop-drop : (n m : ℕ) (s : Bytes) → drop n (drop m s) ≡ drop m (drop n s)
drop-drop n zero s = refl
drop-drop n (suc m) s =
    ap (drop n) (drop-tail m s)
    ∙ drop-drop n m (tail s)
    ∙ ap (drop m) (sym (drop-tail n s) ∙ drop-suc n s)
    ∙ sym (drop-tail m (drop n s))

-- A pattern at its end, but for stars, matches the end of the name and nothing else does.
ends_iff : (p : Bytes) → (is_nil (skip_stars p) ≡ true) ↔ Matches p []
ends_iff p = (
  λ e. unskip p [] ((nil_iff (skip_stars p) (skip_stars-none p)).0 e),
  λ m.
      let (k, more) = skip_matches p [] m in
      (nil_iff (skip_stars p) (skip_stars-none p)).1
        (subst (Matches (skip_stars p)) (drop-nil k) more),
)

pub no_match :
    (p : Bytes) (c : ℕ) (s : Bytes) → is_star p ≡ false → match_one p c ≡ none → ¬ Matches p (c ∷ s)
no_match p c s h e (leave m) = cc
no_match p c s h e (take m) = cc
no_match p c s h e (one g m) = cc

-- What the last star may still match, it may match from here.
alternative_here :
    (P N : ℕ) (star : Star) (p s : Bytes)
    → Reached P N star p s
    → Alternatives star
    → (k : ℕ) × Matches p (drop (suc k) s)
alternative_here P N none p s r a = absurd a
alternative_here P N (some (star_p, star_s)) p s (_, _, n, e, w) (k, m) = (
  k,
  subst (Matches p) (drop-drop n (suc k) star_s ∙ ap (drop (suc k)) (sym e))
      (Walk-Matches star_p n p (drop (suc k) star_s) w m),
)

star_extend : (p s : Bytes) (k : ℕ) → is_star p ≡ true → Matches p (drop k s) → Matches p s
star_extend p s zero h m = m
star_extend p [] (suc k) h m = m
star_extend p (c ∷ s) (suc k) h m = star_take c p s h (star_extend p s k h m)

-- What the loop has yet to find.
abbrev pub Goal : Bytes → Bytes → Star → Type 0
Goal p s star = Matches p s ⊎ Alternatives star

abbrev pub measure : ℕ → ℕ → Bytes → Bytes → Star → ℕ
measure P N p s star = starts_left N star * (P + N + 2) + (length p + length s)

pub end_iff :
    (P N : ℕ) (star : Star) (p : Bytes)
    → Reached P N star p []
    → (is_nil (skip_stars p) ≡ true) ↔ Goal p [] star
end_iff P N star p r = (
  λ e. inl ((ends_iff p).0 e),
  λ g.
      (ends_iff p).1
        (elim g [ inl m ↦ m | inr a ↦ let (k, m) = alternative_here P N star p [] r a in m ]),
)

-- A star that is met takes the place of the last one.
pub star_iff :
    (P N : ℕ) (star : Star) (p s : Bytes)
    → Reached P N star p s
    → is_star p ≡ true
    → Goal p s star
      ↔ ((is_nil (skip_stars p) ≡ true) ⊎ Goal (skip_stars p) s (some (skip_stars p, s)))
star_iff P N star p s r h = (
  λ g. elim g [
    | inl m ↦ inr (split (skip_matches p s m))
    | inr a ↦
        let (k, m) = alternative_here P N star p s r a in
        inr (split (skip_matches p s (star_extend p s (suc k) h m)))
  ],
  λ g. elim g [
    | inl e ↦ inl (
        star_drop p s (length s) h (
          subst (Matches (skip_stars p)) (sym (drop-all s))
            ((nil_iff (skip_stars p) (skip_stars-none p)).0 e)))
    | inr (inl m) ↦ inl (star_drop p s 0 h m)
    | inr (inr (k, m)) ↦ inl (star_drop p s (suc k) h m)
  ],
)
  where
    split :
        (k : ℕ) × Matches (skip_stars p) (drop k s) → Goal (skip_stars p) s (some (skip_stars p, s))
    split (zero, m) = inl m
    split (suc k, m) = inr (k, m)

-- The last star takes one byte more.
pub back_iff :
    (p s star_p star_s : Bytes)
    → ¬ Matches p s
    → Goal p s (some (star_p, star_s)) ↔ Goal star_p (tail star_s) (some (star_p, tail star_s))
back_iff p s star_p star_s fails = (
  λ g. elim g [
    | inl m ↦ absurd (fails m)
    | inr (k, m) ↦ again k (subst (Matches star_p) (drop-tail k star_s) m)
  ],
  λ g. elim g [
    | inl m ↦ inr (0, subst (Matches star_p) (sym (drop-tail 0 star_s)) m)
    | inr (k, m) ↦ inr (suc k, subst (Matches star_p) (sym (drop-tail (suc k) star_s)) m)
  ],
)
  where
    again :
        (k : ℕ)
        → Matches star_p (drop k (tail star_s))
        → Goal star_p (tail star_s) (some (star_p, tail star_s))
    again zero m = inl m
    again (suc k) m = inr (k, m)

pub one_iff :
    (star : Star) (p rest s : Bytes) (c : ℕ)
    → match_one p c ≡ some rest
    → Goal p (c ∷ s) star ↔ Goal rest s star
one_iff star p rest s c e = (
  λ g. elim g [ inl m ↦ inl (after_one p rest (c ∷ s) c m e) | inr a ↦ inr a ],
  λ g. elim g [ inl m ↦ inl (one e m) | inr a ↦ inr a ],
)

pub Reached-one :
    (P N : ℕ) (star : Star) (p rest s : Bytes) (c : ℕ)
    → match_one p c ≡ some rest
    → Reached P N star p (c ∷ s)
    → Reached P N star rest s
Reached-one P N none p rest s c e r = tt
Reached-one P N (some (star_p, star_s)) p rest s c e (hp, hs, n, at, w) =
    (hp, hs, suc n, sym (drop-suc n star_s ∙ ap tail (sym at)), onward c w e)

pub starts_left-Reached :
    (P N : ℕ) (star : Star) (p s : Bytes)
    → Reached P N star p s
    → length s ≤ N
    → length s ≤ starts_left N star
starts_left-Reached P N none p s r h = omega arith
starts_left-Reached P N (some (star_p, star_s)) p s (hp, hs, n, at, w) h =
    omega (arith, ap length at, length-drop n star_s)
