-- ===== src/PathCache/Order.antt =====
-- The entry that EvictPathsLocked of src/gdrive_path_cache.cpp picks, and the one that it cannot pick.
use duckdb_gdrive.Base.{
  ◌≤◌, ◌<◌, ◌≡◌, refl, ◌⊎◌, inl, inr, false, none, some, [], ◌∷◌, arith, ltb, All, Any, Bool-cases,
  ap, sym, ◌∙◌, subst,
}
use mathlib.Core.Option.{some-injective}
use duckdb_gdrive.Base.Text.{Bytes, eqb, eqb_iff, eqb_refl}
use duckdb_gdrive.Assoc.{Assoc, find, Distinct, find-member}
use duckdb_gdrive.PathCache.{PathEntry, coldest}

coldest_victim :
    (victim : Bytes × PathEntry) (entries : Assoc PathEntry)
    → (coldest victim entries).1.used_at ≤ victim.1.used_at
unfolding coldest
coldest_victim victim [] = omega arith
coldest_victim victim (candidate ∷ entries) =
    elim (Bool-cases (ltb candidate.1.used_at victim.1.used_at)) [
      | inl less ↦ rw (less, coldest) (ground (arith, coldest_victim candidate entries))
      | inr not_less ↦ rw (not_less, coldest) (coldest_victim victim entries)
    ]

pub coldest_least :
    (victim : Bytes × PathEntry) (entries : Assoc PathEntry)
    → All (λ x. (coldest victim entries).1.used_at ≤ x.1.used_at) entries
unfolding coldest
coldest_least victim [] = tt
coldest_least victim (candidate ∷ entries) =
    elim (Bool-cases (ltb candidate.1.used_at victim.1.used_at)) [
      | inl less ↦
          let it : coldest victim (candidate ∷ entries) ≡ coldest candidate entries =
            rw (less, coldest) refl in
          subst
            (λ (m : Bytes × PathEntry). All (λ x. m.1.used_at ≤ x.1.used_at) (candidate ∷ entries))
            (sym it) (coldest_victim candidate entries, coldest_least candidate entries)
      | inr not_less ↦
          let it : coldest victim (candidate ∷ entries) ≡ coldest victim entries =
            rw (not_less, coldest) refl in
          let older : victim.1.used_at ≤ candidate.1.used_at = ground arith in
          subst
            (λ (m : Bytes × PathEntry). All (λ x. m.1.used_at ≤ x.1.used_at) (candidate ∷ entries))
            (sym it) (omega (arith, coldest_victim victim entries), coldest_least victim entries)
    ]

pub coldest_member :
    (victim : Bytes × PathEntry) (entries : Assoc PathEntry)
    → Any (λ x. x ≡ coldest victim entries) (victim ∷ entries)
unfolding coldest
coldest_member victim [] = inl refl
coldest_member victim (candidate ∷ entries) =
    elim (Bool-cases (ltb candidate.1.used_at victim.1.used_at)) [
      | inl less ↦
          let it : coldest victim (candidate ∷ entries) ≡ coldest candidate entries =
            rw (less, coldest) refl in
          subst (λ (m : Bytes × PathEntry). Any (λ x. x ≡ m) (victim ∷ candidate ∷ entries))
            (sym it) (inr (coldest_member candidate entries))
      | inr not_less ↦
          let it : coldest victim (candidate ∷ entries) ≡ coldest victim entries =
            rw (not_less, coldest) refl in
          subst (λ (m : Bytes × PathEntry). Any (λ x. x ≡ m) (victim ∷ candidate ∷ entries))
            (sym it)
            (elim (coldest_member victim entries) [
              | inl here ↦ inl here
              | inr later ↦ inr (inr later)
            ])
    ]

-- The entry that EvictPathsLocked picks from a table.
abbrev pub pick : Bytes × PathEntry → Assoc PathEntry → Bytes × PathEntry
pick e entries = coldest e (e ∷ entries)

pub find-pick :
    (e : Bytes × PathEntry) (entries : Assoc PathEntry)
    → Distinct (e ∷ entries)
    → find (pick e entries).0 (e ∷ entries) ≡ some (pick e entries).1
find-pick e entries d =
    find-member (pick e entries).0 (pick e entries).1 (e ∷ entries) d
      (elim (coldest_member e (e ∷ entries)) [ inl here ↦ inl here | inr later ↦ later ])

-- Every other entry was used before.
abbrev pub Newest : Bytes → PathEntry → Assoc PathEntry → Type 0
Newest key e = All (λ x. (x.0 ≡ key) ⊎ (x.1.used_at < e.used_at))

two_of_one :
    (e e' : Bytes × PathEntry) (entries : Assoc PathEntry)
    → find e.0 (e' ∷ entries) ≡ none
    → e.0 ≡ e'.0
    → ⊥
unfolding find
two_of_one (k, x) (k', x') entries h same = ground (arith, eqb_refl k')

-- The entry that was used last is not picked while there is another one.
pub pick_other :
    (key : Bytes) (n : PathEntry) (e e' : Bytes × PathEntry) (entries : Assoc PathEntry)
    → Distinct (e ∷ e' ∷ entries)
    → find key (e ∷ e' ∷ entries) ≡ some n
    → Newest key n (e ∷ e' ∷ entries)
    → eqb key (pick e (e' ∷ entries)).0 ≡ false
unfolding find
pick_other key n e e' entries d h newest = elim (Bool-cases (eqb key (pick e (e' ∷ entries)).0)) [
  | inr other ↦ other
  | inl same ↦
      let it : key ≡ (pick e (e' ∷ entries)).0 = (eqb_iff key _).0 same in
      let found : some n ≡ some (pick e (e' ∷ entries)).1 =
        sym h ∙ ap (λ (k : Bytes). find k (e ∷ e' ∷ entries)) it ∙ find-pick e (e' ∷ entries) d in
      let least = coldest_least e (e ∷ e' ∷ entries) in
      let recent : n.used_at ≡ (pick e (e' ∷ entries)).1.used_at =
        ap PathEntry.used_at (some-injective _ _ found) in
      let first : e.0 ≡ key = elim newest.0 [
        | inl k ↦ k
        | inr less ↦ absurd (omega (arith, least.0))
      ] in
      let second : e'.0 ≡ key = elim newest.1.0 [
        | inl k ↦ k
        | inr less ↦ absurd (omega (arith, least.1.0))
      ] in
      absurd (two_of_one e e' entries d.0 (first ∙ sym second))
]
