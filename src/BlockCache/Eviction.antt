-- ===== src/BlockCache/Eviction.antt =====
-- Least-recently-used eviction (EvictLocked).
use duckdb_gdrive.Assoc.{
  All-erase, Distinct, erase, erase-Distinct, find, find-erase_ne, find-member, length-erase,
}
use duckdb_gdrive.Base.{
  ℕ, zero, suc, ◌+◌, ◌-◌, ◌≤◌, ◌<◌, ◌≡◌, ◌≢◌, refl, ◌⊎◌, inl, inr, true, false, none, some, [], ◌∷◌,
  arith, All, Any, length, Bool-cases, Option-cases, ltb, ltb→lt, sym, ◌∙◌, subst, ◌==◌,
}
use duckdb_gdrive.Base.Text.{Bytes, eqb, eqb_iff}
use duckdb_gdrive.BlockCache.{
  Entry, Blocks, Cache, Promise, is_ready, older, scan, evict_loop, evict_locked,
}
use duckdb_gdrive.BlockCache.Map.{sum_bytes, sum-erase}

module _ (promises : ℕ → Promise) where
  -- A completed entry is no more recent than any other.
  abbrev pub IsOldest : Entry → Bytes × Entry → Type 0
  IsOldest e x = is_ready promises x.1 ≡ true → e.used_at ≤ x.1.used_at

  abbrev pub InFlight : Bytes × Entry → Type 0
  InFlight x = is_ready promises x.1 ≡ false

  -- The scan returns its candidate so far, or a completed entry of the list that is older.
  scan-some :
      (v : Bytes × Entry) (blocks : Blocks)
      → (w : Bytes × Entry) × (scan promises (some v) blocks ≡ some w)
        × (w.1.used_at ≤ v.1.used_at)
        × All (IsOldest w.1) blocks
        × ((w ≡ v) ⊎ (Any (λ x. x ≡ w) blocks × (is_ready promises w.1 ≡ true)))
  unfolding scan older
  scan-some v [] = (v, refl, omega arith, tt, inl refl)
  scan-some v (x ∷ blocks) = elim (Bool-cases (is_ready promises x.1)) [
    | inr busy ↦
        let (w, e, le, all, from) = scan-some v blocks in
        (
          w,
          rw (busy, scan) e,
          le,
          ((λ r. absurd (false_true (sym busy ∙ r))), all),
          elim from [ inl same ↦ inl same | inr (m, r) ↦ inr (inr m, r) ],
        )
    | inl ready ↦ elim (Bool-cases (ltb x.1.used_at v.1.used_at)) [
      | inl less ↦
          let (w, e, le, all, from) = scan-some x blocks in
          (
            w,
            rw (ready, scan, older, less) e,
            omega (arith, ltb→lt x.1.used_at v.1.used_at less),
            ((λ r. le), all),
            elim from [
              | inl same ↦ inr (inl (sym same), rw same ready)
              | inr (m, r) ↦ inr (inr m, r)
            ],
          )
      | inr more ↦
          let (w, e, le, all, from) = scan-some v blocks in
          (
            w,
            rw (ready, scan, older, more) e,
            le,
            ((λ r. omega (arith, not_less more)), all),
            elim from [ inl same ↦ inl same | inr (m, r) ↦ inr (inr m, r) ],
          )
    ]
  ]
    where
      false_true : false ≡ true → ⊥
      false_true e = cc

      not_less : ltb x.1.used_at v.1.used_at ≡ false → v.1.used_at ≤ x.1.used_at
      not_less h = ground arith

  -- From no candidate: nothing where every fetch is under way, else the oldest completed entry.
  pub scan-none :
      (blocks : Blocks)
      → ((scan promises none blocks ≡ none) × All InFlight blocks)
        ⊎ ((w : Bytes × Entry) × (scan promises none blocks ≡ some w)
            × Any (λ x. x ≡ w) blocks
            × (is_ready promises w.1 ≡ true)
            × All (IsOldest w.1) blocks)
  unfolding scan older
  scan-none [] = inl (refl, tt)
  scan-none (x ∷ blocks) = elim (Bool-cases (is_ready promises x.1)) [
    | inr busy ↦ elim (scan-none blocks) [
      | inl (e, all) ↦ inl (rw (busy, scan) e, (busy, all))
      | inr (w, e, m, r, all) ↦
          inr (
            w,
            rw (busy, scan) e,
            inr m,
            r,
            ((λ ready. absurd (false_true (sym busy ∙ ready))), all),
          )
    ]
    | inl ready ↦
        let (w, e, le, all, from) = scan-some x blocks in
        inr (
          w,
          rw (ready, scan, older) e,
          elim from [ inl same ↦ inl (sym same) | inr (m, r) ↦ inr m ],
          elim from [ inl same ↦ rw same ready | inr (m, r) ↦ r ],
          ((λ r. le), all),
        )
  ]
    where
      false_true : false ≡ true → ⊥
      false_true e = cc

-- The byte count is the sum over the entries, and no key stands twice.
pub record Accounts (c : Cache) : Type 0 where
  pub counted : c.cached_bytes ≡ sum_bytes c.blocks
  pub distinct : Distinct c.blocks

-- What eviction promises of the cache that it leaves.
pub record Evicted (c c' : Cache) : Type 0 where
  pub accounts : Accounts c'
  pub same_capacity : c'.capacity_bytes ≡ c.capacity_bytes
  pub same_clock : c'.clock ≡ c.clock
  pub same_generation : c'.next_generation ≡ c.next_generation
  pub same_promises : c'.promises ≡ c.promises
  -- The limit holds, unless only fetches under way are left.
  pub bound : (c'.cached_bytes ≤ c.capacity_bytes) ⊎ All (InFlight c.promises) c'.blocks
  -- An entry stays, or it was complete and none that stays and is complete was used before it.
  pub oldest_first :
      (key : Bytes) (e : Entry)
      → find key c.blocks ≡ some e
      → (find key c'.blocks ≡ some e)
        ⊎ ((is_ready c.promises e ≡ true) × All (IsOldest c.promises e) c'.blocks)

All-evict_loop :
    (P : Bytes × Entry → Type 0) (fuel : ℕ) (c : Cache)
    → All P c.blocks
    → All P (evict_loop fuel c).blocks
unfolding evict_loop
All-evict_loop P zero c h = h
All-evict_loop P (suc fuel) c h = elim (Bool-cases (ltb c.capacity_bytes c.cached_bytes)) [
  | inr fits ↦ rw (fits, evict_loop) h
  | inl over ↦ elim (Option-cases (scan c.promises none c.blocks)) [
    | inl e ↦ rw (over, e, evict_loop) h
    | inr ((key, victim), e) ↦
        rw (over, e, evict_loop) (All-evict_loop P fuel _ (All-erase P key c.blocks h))
  ]
]

-- Eviction only takes entries away.
pub All-evict_locked :
    (P : Bytes × Entry → Type 0) (c : Cache) → All P c.blocks → All P (evict_locked c).blocks
unfolding evict_locked
All-evict_locked P c h = elim (Bool-cases (c.capacity_bytes == 0)) [
  | inl off ↦ rw (off, evict_locked) tt
  | inr on ↦ rw (on, evict_locked) (All-evict_loop P (length c.blocks + 1) c h)
]

evict_loop-Evicted :
    (fuel : ℕ) (c : Cache) → Accounts c → length c.blocks < fuel → Evicted c (evict_loop fuel c)
unfolding evict_loop
evict_loop-Evicted zero c a h = absurd (omega arith)
evict_loop-Evicted (suc fuel) c a h = elim (Bool-cases (ltb c.capacity_bytes c.cached_bytes)) [
  | inr fits ↦
      rw (fits, evict_loop)
        (record {
          accounts = a;
          same_capacity = refl;
          same_clock = refl;
          same_generation = refl;
          same_promises = refl;
          bound = inl (within fits);
          oldest_first = λ key e f. inl f;
        })
  | inl over ↦ elim (scan-none c.promises c.blocks) [
    | inl (e, all) ↦
        rw (over, e, evict_loop)
          (record {
            accounts = a;
            same_capacity = refl;
            same_clock = refl;
            same_generation = refl;
            same_promises = refl;
            bound = inr all;
            oldest_first = λ key e f. inl f;
          })
    | inr ((key, victim), e, m, ready, oldest) ↦
        let found : find key c.blocks ≡ some victim =
          find-member key victim c.blocks a.distinct m in
        let rest =
          evict_loop-Evicted fuel
            (record c { cached_bytes = c.cached_bytes - victim.bytes; blocks = erase key c.blocks })
            (record {
              counted = omega (arith, a.counted, sum-erase key c.blocks victim found);
              distinct = erase-Distinct key c.blocks a.distinct;
            })
            (omega (arith, length-erase key c.blocks victim found)) in
        rw (over, e, evict_loop)
          (record {
            accounts = rest.accounts;
            same_capacity = rest.same_capacity;
            same_clock = rest.same_clock;
            same_generation = rest.same_generation;
            same_promises = rest.same_promises;
            bound = rest.bound;
            oldest_first = λ j x f. elim (Bool-cases (eqb j key)) [
              | inr other ↦ rest.oldest_first j x (find-erase_ne j key c.blocks other ∙ f)
              | inl same ↦
                  let it : victim ≡ x = same_entry (
                    sym found
                    ∙ subst (λ (k : Bytes). find k c.blocks ≡ some x) ((eqb_iff j key).0 same) f) in
                  inr (
                    rw (← it) ready,
                    rw (← it) (
                        All-evict_loop (IsOldest c.promises victim) fuel _
                          (All-erase (IsOldest c.promises victim) key c.blocks oldest)),
                  )
            ];
          })
  ]
]
  where
    within : ltb c.capacity_bytes c.cached_bytes ≡ false → c.cached_bytes ≤ c.capacity_bytes
    within f = ground arith

    same_entry : {x y : Entry} → some x ≡ some y → x ≡ y
    same_entry e = cc

-- With a capacity, EvictLocked keeps the count right and brings it under the capacity unless only
-- fetches under way are left; it drops no fetch under way, and the least recently used blocks first.
pub evict_locked-Evicted :
    (c : Cache) → c.capacity_bytes ≢ 0 → Accounts c → Evicted c (evict_locked c)
unfolding evict_locked
evict_locked-Evicted c on a =
    let test : (c.capacity_bytes == 0) ≡ false = ground arith in
    rw (test, evict_locked) (evict_loop-Evicted (length c.blocks + 1) c a (omega arith))

-- What no eviction changes.
pub record SameBook (c c' : Cache) : Type 0 where
  pub same_next : c'.next_generation ≡ c.next_generation
  pub same_outcomes : c'.promises ≡ c.promises

evict_loop-SameBook : (fuel : ℕ) (c : Cache) → SameBook c (evict_loop fuel c)
unfolding evict_loop
evict_loop-SameBook zero c = record { same_next = refl; same_outcomes = refl }
evict_loop-SameBook (suc fuel) c = elim (Bool-cases (ltb c.capacity_bytes c.cached_bytes)) [
  | inr fits ↦ rw (fits, evict_loop) (record { same_next = refl; same_outcomes = refl })
  | inl over ↦ elim (Option-cases (scan c.promises none c.blocks)) [
    | inl e ↦ rw (over, e, evict_loop) (record { same_next = refl; same_outcomes = refl })
    | inr ((key, victim), e) ↦
        let rest = evict_loop-SameBook fuel (record c {
          cached_bytes = c.cached_bytes - victim.bytes;
          blocks = erase key c.blocks;
        }) in
        rw (over, e, evict_loop)
          (record { same_next = rest.same_next; same_outcomes = rest.same_outcomes })
  ]
]

pub evict_locked-SameBook : (c : Cache) → SameBook c (evict_locked c)
unfolding evict_locked
evict_locked-SameBook c = elim (Bool-cases (c.capacity_bytes == 0)) [
  | inl off ↦ rw (off, evict_locked) (record { same_next = refl; same_outcomes = refl })
  | inr on ↦ rw (on, evict_locked) (evict_loop-SameBook (length c.blocks + 1) c)
]

-- With a capacity and a right byte count, EvictLocked leaves a right byte count, at most the capacity
-- unless only entries whose fetch is under way are left.
pub evict_locked-bound :
    (c : Cache)
    → c.capacity_bytes ≢ 0
    → Accounts c
    → Accounts (evict_locked c)
      × (((evict_locked c).cached_bytes ≤ c.capacity_bytes)
          ⊎ All (InFlight c.promises) (evict_locked c).blocks)
evict_locked-bound c on a = let e = evict_locked-Evicted c on a in (e.accounts, e.bound)

-- With a capacity and a right byte count, an entry stays through EvictLocked, or its fetch was complete
-- and no completed entry that stays was used before it.
pub evict_locked-IsOldest :
    (c : Cache) (key : Bytes) (e : Entry)
    → c.capacity_bytes ≢ 0
    → Accounts c
    → find key c.blocks ≡ some e
    → (find key (evict_locked c).blocks ≡ some e)
      ⊎ ((is_ready c.promises e ≡ true) × All (IsOldest c.promises e) (evict_locked c).blocks)
evict_locked-IsOldest c key e on a f = (evict_locked-Evicted c on a).oldest_first key e f
