-- ===== src/PathCache/Eviction.antt =====
-- The eviction of the path cache (EvictPathsLocked of src/gdrive_path_cache.cpp).
use duckdb_gdrive.Base.{
  ℕ, zero, suc, ◌≤◌, ◌<◌, ◌≡◌, inl, inr, false, none, some, [], ◌∷◌, arith, ltb, length, All,
  Bool-cases, ap, sym, ◌∙◌,
}
use mathlib.Core.Option.{some-injective}
use duckdb_gdrive.Base.Text.{Bytes, eqb, eqb_iff}
use duckdb_gdrive.Assoc.{
  Assoc, find, erase, Distinct, length-erase, erase-Distinct, All-erase, All-find, find-erase_ne,
}
use duckdb_gdrive.PathCache.{PathEntry, evict_loop}
use duckdb_gdrive.PathCache.Order.{pick, find-pick, Newest, pick_other, coldest_least}

module _ (max_entries : ℕ) where
  abbrev loop : ℕ → Assoc PathEntry → Assoc PathEntry
  loop fuel entries = evict_loop fuel max_entries entries

  pub All-evict_loop :
      (P : Bytes × PathEntry → Type 0) (fuel : ℕ) (entries : Assoc PathEntry)
      → All P entries
      → All P (loop fuel entries)
  unfolding evict_loop
  All-evict_loop P zero entries h = h
  All-evict_loop P (suc fuel) [] h = tt
  All-evict_loop P (suc fuel) (e ∷ entries) h =
      elim (Bool-cases (ltb max_entries (length (e ∷ entries)))) [
        | inl over ↦
            rw (over, evict_loop)
              (All-evict_loop P fuel _ (All-erase P (pick e entries).0 (e ∷ entries) h))
        | inr within ↦ rw (within, evict_loop) h
      ]

  pub evict_loop-Distinct :
      (fuel : ℕ) (entries : Assoc PathEntry) → Distinct entries → Distinct (loop fuel entries)
  unfolding evict_loop
  evict_loop-Distinct zero entries d = d
  evict_loop-Distinct (suc fuel) [] d = tt
  evict_loop-Distinct (suc fuel) (e ∷ entries) d =
      elim (Bool-cases (ltb max_entries (length (e ∷ entries)))) [
        | inl over ↦
            rw (over, evict_loop)
              (evict_loop-Distinct fuel _ (erase-Distinct (pick e entries).0 (e ∷ entries) d))
        | inr within ↦ rw (within, evict_loop) d
      ]

  pub evict_loop-bound :
      (fuel : ℕ) (entries : Assoc PathEntry)
      → Distinct entries
      → length entries ≤ fuel
      → length (loop fuel entries) ≤ max_entries
  unfolding evict_loop
  evict_loop-bound zero [] d h = omega arith
  evict_loop-bound zero (e ∷ entries) d h = absurd (omega arith)
  evict_loop-bound (suc fuel) [] d h = omega arith
  evict_loop-bound (suc fuel) (e ∷ entries) d h =
      elim (Bool-cases (ltb max_entries (length (e ∷ entries)))) [
        | inl over ↦
            rw (over, evict_loop)
              (evict_loop-bound fuel _ (erase-Distinct (pick e entries).0 (e ∷ entries) d) (
                omega
                  (arith, length-erase (pick e entries).0 (e ∷ entries) _ (find-pick e entries d))))
        | inr within ↦ rw (within, evict_loop) (ground arith)
      ]

  -- The entry that was used last stays, as long as one entry may.
  pub evict_loop-Newest :
      (fuel : ℕ) (key : Bytes) (n : PathEntry) (entries : Assoc PathEntry)
      → 0 < max_entries
      → Distinct entries
      → find key entries ≡ some n
      → Newest key n entries
      → find key (loop fuel entries) ≡ some n
  unfolding evict_loop
  evict_loop-Newest zero key n entries one d h newest = h
  evict_loop-Newest (suc fuel) key n [] one d h newest = h
  evict_loop-Newest (suc fuel) key n (e ∷ []) one d h newest =
      let within : ltb max_entries 1 ≡ false = ground arith in rw (within, evict_loop) h
  evict_loop-Newest (suc fuel) key n (e ∷ e' ∷ entries) one d h newest =
      elim (Bool-cases (ltb max_entries (length (e ∷ e' ∷ entries)))) [
        | inl over ↦
            let victim = (pick e (e' ∷ entries)).0 in
            rw (over, evict_loop)
              (evict_loop-Newest fuel key n _ one (erase-Distinct victim (e ∷ e' ∷ entries) d)
                (find-erase_ne key victim (e ∷ e' ∷ entries)
                    (pick_other key n e e' entries d h newest)
                  ∙ h)
                (All-erase _ victim (e ∷ e' ∷ entries) newest))
        | inr within ↦ rw (within, evict_loop) h
      ]

  -- What is erased was not used after what stays.
  pub evict_loop_order :
      (fuel : ℕ) (j k : Bytes) (x y : PathEntry) (entries : Assoc PathEntry)
      → Distinct entries
      → find j entries ≡ some x
      → find j (loop fuel entries) ≡ none
      → find k (loop fuel entries) ≡ some y
      → x.used_at ≤ y.used_at
  unfolding evict_loop
  evict_loop_order zero j k x y entries d was gone stays = absurd (cc)
  evict_loop_order (suc fuel) j k x y [] d was gone stays = absurd (cc)
  evict_loop_order (suc fuel) j k x y (e ∷ entries) d was gone stays =
      elim (Bool-cases (ltb max_entries (length (e ∷ entries)))) [
        | inr within ↦ absurd (cc (rw (within, evict_loop) at gone))
        | inl over ↦
            let victim = (pick e entries).0 in
            let left = erase victim (e ∷ entries) in
            let stays' : find k (loop fuel left) ≡ some y = rw (over, evict_loop) at stays in
            elim (Bool-cases (eqb j victim)) [
              | inr other ↦
                  evict_loop_order fuel j k x y left (erase-Distinct victim (e ∷ entries) d)
                    (find-erase_ne j victim (e ∷ entries) other ∙ was)
                    (rw (over, evict_loop) at gone) stays'
              | inl same ↦
                  let it : j ≡ victim = (eqb_iff j victim).0 same in
                  let found : some x ≡ some (pick e entries).1 =
                    sym was ∙ ap (λ (b : Bytes). find b (e ∷ entries)) it ∙ find-pick e entries d in
                  let all =
                    All-evict_loop (λ z. (pick e entries).1.used_at ≤ z.1.used_at) fuel left
                      (All-erase _ victim (e ∷ entries) (coldest_least e (e ∷ entries))) in
                  let least =
                    All-find (λ z. (pick e entries).1.used_at ≤ z.1.used_at) k (loop fuel left) y
                      all stays' in
                  omega (arith, least, ap PathEntry.used_at (some-injective _ _ found))
            ]
      ]
