-- ===== src/GlobMatch/Decision.antt =====
-- MatchSegment decides the relation, and always comes to an end.
use native.Mathlib.Nat.{mul-le-mul_right}
use duckdb_gdrive.Base.{
  ℕ, zero, suc, ◌+◌, ◌*◌, ◌≡◌, ◌≤◌, ◌<◌, ◌↔◌, ◌⊎◌, refl, ap, Bool, true, false, ◌||◌, none, some,
  [], ◌∷◌, arith, Bool-cases, Option-cases, inl, inr, length, drop,
}
use duckdb_gdrive.Base.Text.{Bytes}
use duckdb_gdrive.GlobMatch.{
  match_one, skip_stars, is_star, is_nil, tail, Star, match_loop, match_segment, enough_rounds,
}
use duckdb_gdrive.GlobMatch.Relation.{Matches, empty, leave, take, one, still, match_one-length}
use duckdb_gdrive.GlobMatch.Tokens.{Token, match_one_iff}
use duckdb_gdrive.GlobMatch.Backtracking.{
  Reached, Goal, measure, skip_star-length, no_match, end_iff, star_iff, back_iff, one_iff,
  Reached-one, starts_left-Reached,
}

iff_trans : {A B C : Type 0} → A ↔ B → B ↔ C → A ↔ C
iff_trans f g = (λ a. g.0 (f.0 a), λ c. f.1 (g.1 c))

iff_sym : {A B : Type 0} → A ↔ B → B ↔ A
iff_sym f = (f.1, f.0)

or_iff : {A : Type 0} (a b : Bool) → (b ≡ true) ↔ A → ((a || b) ≡ true) ↔ ((a ≡ true) ⊎ A)
or_iff true b f = (λ e. inl refl, λ s. refl)
or_iff false b f = (λ e. inr (f.0 e), λ s. elim s [ inl e ↦ cc | inr a ↦ f.1 a ])

length-tail : (n : ℕ) (c : ℕ) (s t : Bytes) → c ∷ s ≡ drop n t → suc (length (tail t)) ≡ length t
length-tail zero c s [] e = cc
length-tail (suc n) c s [] e = cc
length-tail n c s (x ∷ t) e = refl

-- The loop is right, on so much fuel.
abbrev Decides : ℕ → ℕ → ℕ → Type 0
Decides P N fuel =
    (p s : Bytes) (star : Star)
    → length p ≤ P
    → length s ≤ N
    → Reached P N star p s
    → measure P N p s star < fuel
    → (match_loop fuel p s star ≡ true) ↔ Goal p s star

-- A round that goes back to the last star.
back-Decides :
    (P N fuel c : ℕ) (p s : Bytes) (star : Star)
    → Decides P N fuel
    → Reached P N star p (c ∷ s)
    → measure P N p (c ∷ s) star < suc fuel
    → ¬ Matches p (c ∷ s)
    → (elim star [
      | none ↦ false
      | some (star_p, star_s) ↦ match_loop fuel star_p (tail star_s) (some (star_p, tail star_s))
    ]
        ≡ true)
      ↔ Goal p (c ∷ s) star
back-Decides P N fuel c p s none loop r m fails =
    (λ e. cc, λ g. elim g [ inl x ↦ absurd (fails x) | inr a ↦ absurd a ])
back-Decides P N fuel c p s (some (star_p, star_s)) loop (hsp, hss, n, at, w) m fails =
    let one_less = length-tail n c s star_s at in
    let product = ap (λ (x : ℕ). x * (P + N + 2)) one_less in
    iff_trans
      (loop star_p (tail star_s) (some (star_p, tail star_s)) hsp (omega arith)
        (hsp, omega arith, 0, refl, still) (omega (arith, product)))
      (iff_sym (back_iff p (c ∷ s) star_p star_s fails))

match_loop_iff : (P N fuel : ℕ) → Decides P N fuel
unfolding match_loop
match_loop_iff P N zero p s star hp hs r m = absurd (omega arith)
match_loop_iff P N (suc fuel) p [] star hp hs r m = end_iff P N star p r
match_loop_iff P N (suc fuel) p (c ∷ s) star hp hs r m = elim (Bool-cases (is_star p)) [
  | inl h ↦
      let q = skip_stars p in
      let shorter = skip_star-length p h in
      let le = mul-le-mul_right (P + N + 2) (starts_left-Reached P N star p (c ∷ s) r hs) in
      rw (h, match_loop)
        (iff_trans
          (or_iff (is_nil q) (match_loop fuel q (c ∷ s) (some (q, c ∷ s))) (
            match_loop_iff P N fuel q (c ∷ s) (some (q, c ∷ s)) (omega arith) hs
              (omega arith, hs, 0, refl, still) (omega (arith, le))))
          (iff_sym (star_iff P N star p (c ∷ s) r h)))
  | inr h ↦ elim (Option-cases (match_one p c)) [
    | inr (rest, e) ↦
        let shorter = match_one-length p c rest e in
        rw (h, e, match_loop)
          (iff_trans
            (match_loop_iff P N fuel rest s star (omega arith) (omega arith)
              (Reached-one P N star p rest s c e r) (omega arith))
            (iff_sym (one_iff star p rest s c e)))
    | inl e ↦
        rw (h, e, match_loop)
          (back-Decides P N fuel c p s star (match_loop_iff P N fuel) r m (no_match p c s h e))
  ]
]

match_segment-Matches :
    (pattern name : Bytes) → (match_segment pattern name ≡ true) ↔ Matches pattern name
unfolding match_segment
match_segment-Matches pattern name =
    iff_trans
      (match_loop_iff (length pattern) (length name) (enough_rounds pattern name) pattern name none
        (omega arith) (omega arith) tt (omega arith))
      (λ g. elim g [ inl m ↦ m | inr a ↦ absurd a ], λ m. inl m)

-- A star matches any run of bytes, any other token one byte that it stands for.
pub data MatchesName : Bytes → Bytes → Type 0 where
  ended : MatchesName [] []
  past : {p s : Bytes} → MatchesName p s → MatchesName (b'*' ∷ p) s
  takes : {c : ℕ} {p s : Bytes} → MatchesName (b'*' ∷ p) s → MatchesName (b'*' ∷ p) (c ∷ s)
  token : {c : ℕ} {p q s : Bytes} → Token p c q → MatchesName q s → MatchesName p (c ∷ s)

Matches-MatchesName : (p s : Bytes) → Matches p s → MatchesName p s
Matches-MatchesName p s empty = ended
Matches-MatchesName p s (leave {p = q} m) = past (Matches-MatchesName q s m)
Matches-MatchesName p s (take {p = q} {s = t} m) = takes (Matches-MatchesName (b'*' ∷ q) t m)
Matches-MatchesName p s (one {c = c} {q = q} {s = t} e m) =
    token ((match_one_iff p c q).0 e) (Matches-MatchesName q t m)

MatchesName-Matches : (p s : Bytes) → MatchesName p s → Matches p s
MatchesName-Matches p s ended = empty
MatchesName-Matches p s (past {p = q} m) = leave (MatchesName-Matches q s m)
MatchesName-Matches p s (takes {p = q} {s = t} m) = take (MatchesName-Matches (b'*' ∷ q) t m)
MatchesName-Matches p s (token {c = c} {q = q} {s = t} e m) =
    one ((match_one_iff p c q).1 e) (MatchesName-Matches q t m)

-- MatchSegment is true exactly where the pattern matches the name: each star some run of bytes, each
-- other token one byte. "?" stands for every byte, a class for the bytes and the spans of its items, or for
-- all the others where it begins with "!" or "^"; a class that is not closed is a bracket, and any other byte
-- stands for itself. The rounds of MatchSegment always come to an end.
pub match_segment_iff :
    (pattern name : Bytes) → (match_segment pattern name ≡ true) ↔ MatchesName pattern name
match_segment_iff pattern name =
    iff_trans (match_segment-Matches pattern name)
      (Matches-MatchesName pattern name, MatchesName-Matches pattern name)
