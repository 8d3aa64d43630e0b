-- ===== src/BlockCache/Books.antt =====
-- Which key each future of the cache was made for, and that what it delivers is that key's block.
use duckdb_gdrive.Assoc.{All-erase, All-find, All-modify, find, modify}
use duckdb_gdrive.Base.{
  ℕ, ◌+◌, ◌≤◌, ◌<◌, ◌≡◌, refl, sym, ap, ◌∙◌, subst, inl, inr, Bool, false, List, [], ◌∷◌, arith,
  All, Bool-cases, Option-cases, ◌==◌, ==_iff, if◌then◌else◌, length, ltb, ltb→lt,
}
use duckdb_gdrive.Base.Text.{Bytes}
use duckdb_gdrive.BlockCache.{
  Request, full_key, fetch_start, fetch_length, Entry, Promise, pending, value, Cache, evict_locked,
  look_up, owns, store, discard, settle, Event, call,
}
use duckdb_gdrive.BlockCache.Eviction.{All-evict_locked, evict_locked-SameBook}
use duckdb_gdrive.BlockCache.Keys.{full_key_injective}

-- The size that a caller gives is the one that its key, which names a revision, determines.
abbrev pub IsHonest : (Bytes → ℕ) → Request → Type 0
IsHonest size_of r = r.file_size ≡ size_of r.key

abbrev pub HonestEvent : (Bytes → ℕ) → Event → Type 0
HonestEvent size_of (call t r) = IsHonest size_of r
HonestEvent size_of _ = Unit

module _ (fetch : Bytes → ℕ → ℕ → Bytes) (size_of : Bytes → ℕ) where
  -- The block that a request asks for.
  abbrev pub block : Request → Bytes
  block r = fetch r.key (fetch_start r) (fetch_length r)

  pub block-full_key :
      (r q : Request)
      → IsHonest size_of r
      → IsHonest size_of q
      → full_key r ≡ full_key q
      → block r ≡ block q
  unfolding fetch_length fetch_start
  block-full_key r q hr hq e =
      let (key, size, index) = full_key_injective r q e in
      let file : r.file_size ≡ q.file_size = hr ∙ ap size_of key ∙ sym hq in
      rw (key, size, index, file)

  -- The books of the cache: which key each generation was made for.
  pub record Books (owner : ℕ → Bytes) (c : Cache) : Type 0 where
    pub owned :
        All
          (λ (x : Bytes × Entry).
            (owner x.1.generation ≡ x.0) × (x.1.generation ≤ c.next_generation))
          c.blocks
    pub fresh : (g : ℕ) → c.next_generation < g → c.promises g ≡ pending
    pub delivered :
        (g : ℕ) (d : Bytes) (r : Request)
        → c.promises g ≡ value d
        → IsHonest size_of r
        → owner g ≡ full_key r
        → d ≡ block r

  -- A cache with the same books and no other entries.
  pub Books-evict : (owner : ℕ → Bytes) (c : Cache) → Books owner c → Books owner (evict_locked c)
  Books-evict owner c b =
      let same = evict_locked-SameBook c in
      record {
        owned = rw same.same_next (All-evict_locked _ c b.owned);
        fresh = λ g h. rw same.same_outcomes (b.fresh g (rw same.same_next at h));
        delivered = λ g d r h. b.delivered g d r (rw same.same_outcomes at h);
      }

  pub Books-store :
      (owner : ℕ → Bytes) (key : Bytes) (g : ℕ) (d : Bytes) (c : Cache)
      → Books owner c
      → Books owner (store key g d c) × ((store key g d c).next_generation ≡ c.next_generation)
  unfolding store
  Books-store owner key g d c b = elim (Option-cases (owns key g c.blocks)) [
    | inl e ↦ rw (e, store) (Books-evict owner c b, (evict_locked-SameBook c).same_next)
    | inr (x, e) ↦
        let c' : Cache = record c {
          blocks = modify key (λ (y : Entry). record y { bytes = length d }) c.blocks;
          cached_bytes = c.cached_bytes + length d;
        } in
        let b' : Books owner c' = record {
          owned = All-modify _ key _ c.blocks (λ k y p. p) b.owned;
          fresh = b.fresh;
          delivered = b.delivered;
        } in
        rw (e, store) (Books-evict owner c' b', (evict_locked-SameBook c').same_next)
  ]

  pub Books-discard :
      (owner : ℕ → Bytes) (key : Bytes) (g : ℕ) (c : Cache)
      → Books owner c
      → Books owner (discard key g c) × ((discard key g c).next_generation ≡ c.next_generation)
  unfolding discard
  Books-discard owner key g c b = elim (Option-cases (owns key g c.blocks)) [
    | inl e ↦ rw (e, discard) (b, refl)
    | inr (x, e) ↦
        rw (e, discard)
          (
            record {
              owned = All-erase _ key c.blocks b.owned;
              fresh = b.fresh;
              delivered = b.delivered;
            },
            refl,
          )
  ]

  pub Books-settle :
      (owner : ℕ → Bytes) (g : ℕ) (outcome : Promise) (c : Cache)
      → Books owner c
      → g ≤ c.next_generation
      → ((d : Bytes) (r : Request)
          → outcome ≡ value d
          → IsHonest size_of r
          → owner g ≡ full_key r
          → d ≡ block r)
      → Books owner (settle g outcome c)
  unfolding settle
  Books-settle owner g outcome c b le right = record {
    owned = b.owned;
    fresh = λ j h. ground (arith, b.fresh j h);
    delivered = λ j d r h honest own. elim (Bool-cases (j == g)) [
      | inl same ↦
          right d r (rw same at h) honest
            (subst (λ (k : ℕ). owner k ≡ full_key r) ((==_iff j g).0 same) own)
      | inr other ↦ b.delivered j d r (rw other at h) honest own
    ];
  }

  -- What a lookup hands to its caller.
  pub record LooksUp (owner : ℕ → Bytes) (key : Bytes) (c : Cache) (res : Bool × ℕ × Cache)
      : Type 0 where
    pub owner' : ℕ → Bytes
    pub books' : Books owner' res.2
    pub agrees : (g : ℕ) → g ≤ c.next_generation → owner' g ≡ owner g
    pub grows : c.next_generation ≤ res.2.next_generation
    pub mine : owner' res.1 ≡ key
    pub within : res.1 ≤ res.2.next_generation

  new_owner : (ℕ → Bytes) → ℕ → Bytes → ℕ → Bytes
  new_owner owner n key g = if g == n then key else owner g

  new_owner-below :
      (owner : ℕ → Bytes) (n : ℕ) (key : Bytes) (g : ℕ)
      → g ≤ n
      → new_owner owner (n + 1) key g ≡ owner g
  unfolding new_owner
  new_owner-below owner n key g h = ground arith

  new_owner_self : (owner : ℕ → Bytes) (n : ℕ) (key : Bytes) → new_owner owner n key n ≡ key
  unfolding new_owner
  new_owner_self owner n key = ground arith

  All-owned :
      (owner : ℕ → Bytes) (n : ℕ) (key : Bytes) (blocks : List (Bytes × Entry))
      → All (λ (x : Bytes × Entry). (owner x.1.generation ≡ x.0) × (x.1.generation ≤ n)) blocks
      → All
          (λ (x : Bytes × Entry).
            (new_owner owner (n + 1) key x.1.generation ≡ x.0) × (x.1.generation ≤ n + 1))
          blocks
  All-owned owner n key [] h = tt
  All-owned owner n key ((k, e) ∷ blocks) ((own, le), more) = (
    (new_owner-below owner n key e.generation le ∙ own, omega arith),
    All-owned owner n key blocks more,
  )

  pub look_up-LooksUp :
      (owner : ℕ → Bytes) (key : Bytes) (c : Cache)
      → Books owner c
      → LooksUp owner key c (look_up key c)
  unfolding look_up
  look_up-LooksUp owner key c b = elim (Option-cases (find key c.blocks)) [
    | inr (e, found) ↦
        let p = All-find _ key c.blocks e b.owned found in
        rw (found, look_up)
          (record {
            owner' = owner;
            books' = record {
              owned = All-modify _ key _ c.blocks (λ k y q. q) b.owned;
              fresh = b.fresh;
              delivered = b.delivered;
            };
            agrees = λ g h. refl;
            grows = omega arith;
            mine = p.0;
            within = p.1;
          })
    | inl missing ↦
        let n = c.next_generation in
        rw (missing, look_up)
          (record {
            owner' = new_owner owner (n + 1) key;
            books' = record {
              owned = (
                (new_owner_self owner (n + 1) key, omega arith),
                All-owned owner n key c.blocks b.owned,
              );
              fresh = λ g h. b.fresh g (omega arith);
              delivered = λ g d r h honest own. elim (Bool-cases (ltb n g)) [
                | inl above ↦ absurd (never (sym (b.fresh g (ltb→lt n g above)) ∙ h))
                | inr below ↦
                    b.delivered g d r h honest
                      (sym (new_owner-below owner n key g (not_above n g below)) ∙ own)
              ];
            };
            agrees = λ g h. new_owner-below owner n key g h;
            grows = omega arith;
            mine = new_owner_self owner (n + 1) key;
            within = omega arith;
          })
  ]
    where
      never : {d : Bytes} → pending ≡ value d → ⊥
      never e = cc

      not_above : (n g : ℕ) → ltb n g ≡ false → g ≤ n
      not_above n g h = ground arith
