-- ===== src/BlockCache/Content.antt =====
-- Every call of GetBlock that returns has the bytes of its own block, however the calls interleave.
use duckdb_gdrive.Base.{
  ℕ, ◌≤◌, ◌≡◌, refl, sym, ◌∙◌, subst, inl, inr, Bool, true, false, List, [], ◌∷◌, arith, All,
  Bool-cases, ◌==◌, if◌then◌else◌,
}
use duckdb_gdrive.Base.Text.{Bytes}
use duckdb_gdrive.BlockCache.{
  Request, full_key, fetch_start, fetch_length, Promise, pending, value, exception, Cache, look_up,
  settle, Thread, idle, fetching, storing, throwing, waiting, returned, threw, System, Event, call,
  fetch_returns, fetch_throws, settles, wakes, sets_capacity, clears, set_thread, begin_call,
  after_fetch, after_throw, after_settle, woken, after_wake, step, run, initial_system,
}
use duckdb_gdrive.BlockCache.Eviction.{evict_locked-SameBook}
use duckdb_gdrive.BlockCache.Books.{
  IsHonest, HonestEvent, block, Books, block-full_key, Books-store, Books-discard, Books-evict,
  Books-settle, look_up-LooksUp,
}

module _ (fetch : Bytes → ℕ → ℕ → Bytes) (size_of : Bytes → ℕ) where
  abbrev Holds : (ℕ → Bytes) → ℕ → Request → ℕ → Type 0
  Holds owner next r g = IsHonest size_of r × (owner g ≡ full_key r) × (g ≤ next)

  abbrev pub ThreadOk : (ℕ → Bytes) → ℕ → Thread → Type 0
  ThreadOk owner next idle = Unit
  ThreadOk owner next (fetching r g) = Holds owner next r g
  ThreadOk owner next (storing r g d) = Holds owner next r g × (d ≡ block fetch size_of r)
  ThreadOk owner next (throwing r g) = Holds owner next r g
  ThreadOk owner next (waiting r g) = Holds owner next r g
  ThreadOk owner next (returned r d) = d ≡ block fetch size_of r
  ThreadOk owner next (threw r) = Unit

  record Inv (s : System) : Type 0 where
    owner : ℕ → Bytes
    books : Books fetch size_of owner s.cache
    threads_ok : (t : ℕ) → ThreadOk owner s.cache.next_generation (s.threads t)

  ThreadOk-mono :
      (owner owner' : ℕ → Bytes) (n n' : ℕ) (th : Thread)
      → ((g : ℕ) → g ≤ n → owner' g ≡ owner g)
      → n ≤ n'
      → ThreadOk owner n th
      → ThreadOk owner' n' th
  ThreadOk-mono owner owner' n n' idle agree le h = tt
  ThreadOk-mono owner owner' n n' (fetching r g) agree le (hr, own, b) =
      (hr, agree g b ∙ own, omega arith)
  ThreadOk-mono owner owner' n n' (storing r g d) agree le ((hr, own, b), e) =
      ((hr, agree g b ∙ own, omega arith), e)
  ThreadOk-mono owner owner' n n' (throwing r g) agree le (hr, own, b) =
      (hr, agree g b ∙ own, omega arith)
  ThreadOk-mono owner owner' n n' (waiting r g) agree le (hr, own, b) =
      (hr, agree g b ∙ own, omega arith)
  ThreadOk-mono owner owner' n n' (returned r d) agree le h = h
  ThreadOk-mono owner owner' n n' (threw r) agree le h = tt

  -- One thread moves, the others stay; the cache keeps its books.
  Inv-set :
      (s : System) (owner owner' : ℕ → Bytes) (t : ℕ) (th : Thread) (c : Cache)
      → ((u : ℕ) → ThreadOk owner s.cache.next_generation (s.threads u))
      → Books fetch size_of owner' c
      → ((g : ℕ) → g ≤ s.cache.next_generation → owner' g ≡ owner g)
      → s.cache.next_generation ≤ c.next_generation
      → ThreadOk owner' c.next_generation th
      → Inv (set_thread t th c s)
  unfolding set_thread
  Inv-set s owner owner' t th c old b agree le new = record {
    owner = owner';
    books = b;
    threads_ok = λ u. elim (Bool-cases (u == t)) [
      | inl same ↦ rw same new
      | inr other ↦ rw other (
          ThreadOk-mono owner owner' s.cache.next_generation c.next_generation (s.threads u) agree
            le (old u))
    ];
  }

  ThreadOk-either :
      (owner : ℕ → Bytes) (n : ℕ) (r : Request) (g : ℕ) (mine : Bool)
      → Holds owner n r g
      → ThreadOk owner n (if mine then fetching r g else waiting r g)
  ThreadOk-either owner n r g true h = h
  ThreadOk-either owner n r g false h = h

  Inv-begin_call :
      (t : ℕ) (r : Request) (s : System) (th : Thread)
      → IsHonest size_of r
      → Inv s
      → Inv (begin_call t r th s)
  unfolding begin_call
  Inv-begin_call t r s idle honest v =
      let res = look_up (full_key r) s.cache in
      let l = look_up-LooksUp fetch size_of v.owner (full_key r) s.cache v.books in
      Inv-set s v.owner l.owner' t (if res.0 then fetching r res.1 else waiting r res.1) res.2
        v.threads_ok l.books' l.agrees l.grows
        (ThreadOk-either l.owner' res.2.next_generation r res.1 res.0 (honest, l.mine, l.within))
  Inv-begin_call t r s _ honest v = v

  -- A thread moves on in a cache of the same generations.
  Inv-keep :
      (s : System) (v : Inv s) (t : ℕ) (th : Thread) (c : Cache)
      → Books fetch size_of v.owner c
      → c.next_generation ≡ s.cache.next_generation
      → ThreadOk v.owner s.cache.next_generation th
      → Inv (set_thread t th c s)
  Inv-keep s v t th c b e ok =
      Inv-set s v.owner v.owner t th c v.threads_ok b (λ g h. refl) (omega arith) (rw e ok)

  Inv-after_fetch :
      (t : ℕ) (s : System) (v : Inv s) (th : Thread)
      → ThreadOk v.owner s.cache.next_generation th
      → Inv (after_fetch fetch t th s)
  unfolding after_fetch
  Inv-after_fetch t s v (fetching r g) ok =
      let (b, e) =
        Books-store fetch size_of v.owner (full_key r) g (block fetch size_of r) s.cache v.books in
      Inv-keep s v t (storing r g (block fetch size_of r)) _ b e (ok, refl)
  Inv-after_fetch t s v _ ok = v

  Inv-after_throw :
      (t : ℕ) (s : System) (v : Inv s) (th : Thread)
      → ThreadOk v.owner s.cache.next_generation th
      → Inv (after_throw fetch t th s)
  unfolding after_throw
  Inv-after_throw t s v (fetching r g) ok =
      let (b, e) = Books-discard fetch size_of v.owner (full_key r) g s.cache v.books in
      Inv-keep s v t (throwing r g) _ b e ok
  Inv-after_throw t s v _ ok = v

  Inv-after_settle :
      (t : ℕ) (s : System) (v : Inv s) (th : Thread)
      → ThreadOk v.owner s.cache.next_generation th
      → Inv (after_settle fetch t th s)
  unfolding after_settle
  Inv-after_settle t s v (storing r g d) ((honest, own, le), e) =
      Inv-keep s v t (returned r d) _
        (Books-settle fetch size_of v.owner g (value d) s.cache v.books le (λ d' q same hq own'.
          value_injective (sym same)
          ∙ e
          ∙ block-full_key fetch size_of r q honest hq (sym own ∙ own')))
        (same_next g (value d)) e
    where
      value_injective : {a b : Bytes} → value a ≡ value b → a ≡ b
      value_injective h = cc

      same_next :
          (j : ℕ) (o : Promise) → (settle j o s.cache).next_generation ≡ s.cache.next_generation
      same_next j o = refl
  Inv-after_settle t s v (throwing r g) (honest, own, le) =
      Inv-keep s v t (threw r) _
        (Books-settle fetch size_of v.owner g exception s.cache v.books le
          (λ d' q same hq own'. absurd (never same)))
        refl tt
    where
      never : {d : Bytes} → exception ≡ value d → ⊥
      never h = cc
  Inv-after_settle t s v _ ok = v

  Inv-woken :
      (t : ℕ) (r : Request) (g : ℕ) (s : System) (v : Inv s) (p : Promise)
      → s.cache.promises g ≡ p
      → Holds v.owner s.cache.next_generation r g
      → Inv (woken fetch t r p s)
  unfolding woken
  Inv-woken t r g s v pending e ok = v
  Inv-woken t r g s v (value d) e (honest, own, le) =
      Inv-keep s v t (returned r d) s.cache v.books refl (v.books.delivered g d r e honest own)
  Inv-woken t r g s v exception e ok = Inv-keep s v t (threw r) s.cache v.books refl tt

  Inv-after_wake :
      (t : ℕ) (s : System) (v : Inv s) (th : Thread)
      → ThreadOk v.owner s.cache.next_generation th
      → Inv (after_wake fetch t th s)
  unfolding after_wake
  Inv-after_wake t s v (waiting r g) ok = Inv-woken t r g s v (s.cache.promises g) refl ok
  Inv-after_wake t s v _ ok = v

  Inv-step : (e : Event) (s : System) → HonestEvent size_of e → Inv s → Inv (step fetch e s)
  unfolding step
  Inv-step (call t r) s honest v = Inv-begin_call t r s (s.threads t) honest v
  Inv-step (fetch_returns t) s honest v = Inv-after_fetch t s v (s.threads t) (v.threads_ok t)
  Inv-step (fetch_throws t) s honest v = Inv-after_throw t s v (s.threads t) (v.threads_ok t)
  Inv-step (settles t) s honest v = Inv-after_settle t s v (s.threads t) (v.threads_ok t)
  Inv-step (wakes t) s honest v = Inv-after_wake t s v (s.threads t) (v.threads_ok t)
  Inv-step (sets_capacity bytes) s honest v =
      let c : Cache = record s.cache { capacity_bytes = bytes } in
      let b : Books fetch size_of v.owner c = record {
        owned = v.books.owned;
        fresh = v.books.fresh;
        delivered = v.books.delivered;
      } in
      record {
        owner = v.owner;
        books = Books-evict fetch size_of v.owner c b;
        threads_ok = rw ((evict_locked-SameBook c).same_next) v.threads_ok;
      }
  Inv-step clears s honest v = record {
    owner = v.owner;
    books = record { owned = tt; fresh = v.books.fresh; delivered = v.books.delivered };
    threads_ok = v.threads_ok;
  }

  Inv-run :
      (es : List Event) (s : System) → All (HonestEvent size_of) es → Inv s → Inv (run fetch es s)
  unfolding run
  Inv-run [] s h v = v
  Inv-run (e ∷ es) s h v = Inv-run es (step fetch e s) h.1 (Inv-step e s h.0 v)

  Inv-initial : Inv initial_system
  Inv-initial = record {
    owner = λ g. [];
    books = record { owned = tt; fresh = λ g h. refl; delivered = λ g d r h. absurd (never h) };
    threads_ok = λ t. tt;
  }
    where
      never : {d : Bytes} → pending ≡ value d → ⊥
      never h = cc

  -- After any schedule of calls, fetches, evictions and clears, a call that has returned has the bytes
  -- that a fetch of its own block delivers, as long as the callers of one key agree on the file size.
  pub run_returns_block :
      (es : List Event) (t : ℕ) (r : Request) (d : Bytes)
      → All (HonestEvent size_of) es
      → (run fetch es initial_system).threads t ≡ returned r d
      → d ≡ fetch r.key (fetch_start r) (fetch_length r)
  run_returns_block es t r d honest h =
      let v = Inv-run es initial_system honest Inv-initial in
      subst (ThreadOk v.owner (run fetch es initial_system).cache.next_generation) h
        (v.threads_ok t)
