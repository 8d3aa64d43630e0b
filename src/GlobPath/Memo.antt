-- ===== src/GlobPath/Memo.antt =====
-- What a path pattern matches, and that the table of results changes nothing (MatchSegments, MatchPath).
use duckdb_gdrive.Base.{
  ℕ, zero, suc, ◌+◌, ◌≡◌, ◌≢◌, ◌<◌, ◌↔◌, ◌⊎◌, refl, sym, ◌∙◌, subst, Bool, true, false, ◌&&◌, none,
  some, List, [], ◌∷◌, arith, ◌==◌, if◌then◌else◌, Bool-cases, Option-cases, inl, inr, length, drop,
}
use duckdb_gdrive.Base.Text.{Bytes, eqb, eqb_iff}
use duckdb_gdrive.Glob.{split_on_slash}
use duckdb_gdrive.GlobMatch.{match_segment}
use duckdb_gdrive.GlobMatch.Decision.{MatchesName, match_segment_iff}
use duckdb_gdrive.GlobPath.{
  Memo, any_segments, no_segments, remember, match_segments, match_path, empty_memo,
}

-- "**" matches any run of segments, any other pattern one segment.
pub data MatchesPath : List Bytes → List Bytes → Type 0 where
  finished : MatchesPath [] []
  skip : {ps ss : List Bytes} → MatchesPath ps ss → MatchesPath (any_segments ∷ ps) ss
  consume :
      {ps ss : List Bytes} {s : Bytes}
      → MatchesPath (any_segments ∷ ps) ss
      → MatchesPath (any_segments ∷ ps) (s ∷ ss)
  segment :
      {p s : Bytes} {ps ss : List Bytes}
      → p ≢ any_segments
      → MatchesName p s
      → MatchesPath ps ss
      → MatchesPath (p ∷ ps) (s ∷ ss)

drop_next : (n : ℕ) (x : Bytes) (xs ys : List Bytes) → x ∷ xs ≡ drop n ys → xs ≡ drop (suc n) ys
drop_next zero x xs [] e = cc
drop_next zero x xs (y ∷ ys) e = cc
drop_next (suc n) x xs [] e = cc
drop_next (suc n) x xs (y ∷ ys) e = drop_next n x xs ys e

at_end : (ss : List Bytes) → (no_segments ss ≡ true) ↔ MatchesPath [] ss
at_end [] = (λ e. finished, λ m. refl)
at_end (s ∷ ss) = (λ e. cc, λ m. elim m [ ])

any_iff :
    (p : Bytes) (ps ss : List Bytes) (s : Bytes)
    → p ≡ any_segments
    → MatchesPath (p ∷ ps) (s ∷ ss)
    → MatchesPath ps (s ∷ ss) ⊎ MatchesPath (p ∷ ps) ss
any_iff p ps ss s e (skip m) = inl m
any_iff p ps ss s e (consume m) = inr m
any_iff p ps ss s e (segment no_any m rest) = absurd (no_any e)

any_end :
    (p : Bytes) (ps : List Bytes) → MatchesPath (p ∷ ps) [] → (p ≡ any_segments) × MatchesPath ps []
any_end p ps (skip m) = (refl, m)

one_iff :
    (p : Bytes) (ps ss : List Bytes) (s : Bytes)
    → p ≢ any_segments
    → MatchesPath (p ∷ ps) (s ∷ ss)
    → MatchesName p s × MatchesPath ps ss
one_iff p ps ss s n (skip m) = absurd (n refl)
one_iff p ps ss s n (consume m) = absurd (n refl)
one_iff p ps ss s n (segment no_any m rest) = (m, rest)

module _ (patterns segments : List Bytes) where
  -- Every result in the table is right.
  abbrev Sound : Memo → Type 0
  Sound memo =
      (i j : ℕ) (b : Bool)
      → memo i j ≡ some b
      → (b ≡ true) ↔ MatchesPath (drop i patterns) (drop j segments)

  abbrev Right : List Bytes → List Bytes → Bool × Memo → Type 0
  Right ps ss res = ((res.0 ≡ true) ↔ MatchesPath ps ss) × Sound res.1

  remember-Right :
      (i j : ℕ) (ps ss : List Bytes) (res : Bool × Memo)
      → ps ≡ drop i patterns
      → ss ≡ drop j segments
      → Right ps ss res
      → Right ps ss (remember i j res)
  unfolding remember
  remember-Right i j ps ss (b, memo) e f (iff, sound) = (
    iff,
    λ x y c h. elim (Bool-cases ((x == i) && (y == j))) [
      | inr other ↦ sound x y c (rw other at h)
      | inl here ↦
          let xi : x ≡ i = ground arith in
          let yj : y ≡ j = ground arith in
          let found : some b ≡ some c = rw here at h in
          let bc : b ≡ c = cc in rw (xi, yj, ← bc, ← e, ← f) iff
    ],
  )

  any_case :
      (p s : Bytes) (ps ss : List Bytes)
      → p ≡ any_segments
      → (zero_segments one_more : Bool × Memo) → Right ps (s ∷ ss) zero_segments
      → Right (p ∷ ps) ss one_more
      → Right (p ∷ ps) (s ∷ ss) (if zero_segments.0 then zero_segments else one_more)
  any_case p s ps ss same (true, memo) more (iff, sound) r = (
    (
      λ h. subst (λ (x : Bytes). MatchesPath (x ∷ ps) (s ∷ ss)) (sym same) (skip (iff.0 h)),
      λ m. refl,
    ),
    sound,
  )
  any_case p s ps ss same (false, memo) more (iff, sound) (iff', sound') = (
    (
      λ h.
          subst (λ (x : Bytes). MatchesPath (x ∷ ps) (s ∷ ss)) (sym same)
            (consume (subst (λ (x : Bytes). MatchesPath (x ∷ ps) ss) same (iff'.0 h))),
      λ m. elim (any_iff p ps ss s same m) [
        | inl here ↦ cc (iff.1 here)
        | inr there ↦ iff'.1 there
      ],
    ),
    sound',
  )

  one_case :
      (p s : Bytes) (ps ss : List Bytes) (memo : Memo)
      → eqb p any_segments ≡ false
      → Sound memo
      → (next : Bool × Memo) → Right ps ss next
      → Right (p ∷ ps) (s ∷ ss) (if match_segment p s then next else (false, memo))
  one_case p s ps ss memo other sound next (iff, sound') =
      let differs : p ≢ any_segments = λ q. clash (sym other ∙ (eqb_iff p any_segments).1 q) in
      elim (Bool-cases (match_segment p s)) [
        | inl yes_here ↦ rw yes_here (
          (
            λ h. segment differs ((match_segment_iff p s).0 yes_here) (iff.0 h),
            λ m. iff.1 (one_iff p ps ss s differs m).1,
          ),
          sound',
        )
        | inr not_here ↦ rw not_here (
          (
            λ h. cc,
            λ m.
                absurd (
                  clash (sym not_here ∙ (match_segment_iff p s).1 (one_iff p ps ss s differs m).0)),
          ),
          sound,
        )
      ]
    where
      clash : false ≡ true → ⊥
      clash h = cc

  match_segments-Right :
      (fuel i j : ℕ) (ps ss : List Bytes) (memo : Memo)
      → length ps + length ss < fuel
      → ps ≡ drop i patterns
      → ss ≡ drop j segments
      → Sound memo
      → Right ps ss (match_segments fuel ps ss i j memo)
  unfolding match_segments
  match_segments-Right zero i j ps ss memo le e f sound = absurd (omega arith)
  match_segments-Right (suc fuel) i j [] ss memo le e f sound = (at_end ss, sound)
  match_segments-Right (suc fuel) i j (p ∷ ps) [] memo le e f sound =
      elim (Option-cases (memo i j)) [
        | inr (b, hit) ↦ rw (hit, match_segments) (rw (e, f) (sound i j b hit), sound)
        | inl miss ↦
            rw (miss, match_segments)
              (remember-Right i j (p ∷ ps) [] _ e f (elim (Bool-cases (eqb p any_segments)) [
                | inl any ↦
                    let same : p ≡ any_segments = (eqb_iff p any_segments).0 any in
                    let (iff, sound') =
                      match_segments-Right fuel (suc i) j ps [] memo (omega arith)
                        (drop_next i p ps patterns e) f sound in
                    rw any (
                      (
                        λ h.
                            subst (λ (x : Bytes). MatchesPath (x ∷ ps) []) (sym same)
                              (skip (iff.0 h)),
                        λ m. iff.1 (any_end p ps m).1,
                      ),
                      sound',
                    )
                | inr other ↦ rw other (
                  (
                    λ h. cc,
                    λ m. absurd (clash (sym other ∙ (eqb_iff p any_segments).1 (any_end p ps m).0)),
                  ),
                  sound,
                )
              ]))
      ]
    where
      clash : false ≡ true → ⊥
      clash h = cc
  match_segments-Right (suc fuel) i j (p ∷ ps) (s ∷ ss) memo le e f sound =
      let e' = drop_next i p ps patterns e in
      let f' = drop_next j s ss segments f in
      elim (Option-cases (memo i j)) [
        | inr (b, hit) ↦ rw (hit, match_segments) (rw (e, f) (sound i j b hit), sound)
        | inl miss ↦
            rw (miss, match_segments)
              (remember-Right i j (p ∷ ps) (s ∷ ss) _ e f (elim (Bool-cases (eqb p any_segments)) [
                | inl any ↦
                    let same : p ≡ any_segments = (eqb_iff p any_segments).0 any in
                    let none_here =
                      match_segments-Right fuel (suc i) j ps (s ∷ ss) memo (omega arith) e' f
                        sound in
                    let zero_segments = match_segments fuel ps (s ∷ ss) (suc i) j memo in
                    let one_here =
                      match_segments-Right fuel i (suc j) (p ∷ ps) ss zero_segments.1 (omega arith)
                        e f' none_here.1 in
                    rw any (
                      any_case p s ps ss same zero_segments
                        (match_segments fuel (p ∷ ps) ss i (suc j) zero_segments.1) none_here
                        one_here)
                | inr other ↦
                    let next =
                      match_segments-Right fuel (suc i) (suc j) ps ss memo (omega arith) e' f'
                        sound in
                    rw other (
                      one_case p s ps ss memo other sound
                        (match_segments fuel ps ss (suc i) (suc j) memo) next)
              ]))
      ]

-- MatchPath is true exactly where the segments of the pattern match those of the path: each "**" any run
-- of segments, each other one a segment. The table of earlier results changes no answer.
pub match_path_iff :
    (pattern path : Bytes)
    → (match_path pattern path ≡ true) ↔ MatchesPath (split_on_slash pattern) (split_on_slash path)
unfolding match_path
match_path_iff pattern path =
    let ps = split_on_slash pattern in
    let ss = split_on_slash path in
    (match_segments-Right ps ss (length ps + length ss + 1) 0 0 ps ss empty_memo (omega arith) refl
      refl (λ i j b h. absurd (nothing h))).0
  where
    nothing : {b : Bool} → none ≡ some b → ⊥
    nothing h = cc
