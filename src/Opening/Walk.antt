-- ===== src/Opening/Walk.antt =====
-- The walk of OpenFile in src/gdrive_filesystem.cpp to the folder of a file: what it adds to the calls.
use duckdb_gdrive.Base.{
  ℕ, suc, ◌≡◌, refl, sym, ap, ◌∙◌, subst, inl, inr, Bool, true, false, Option, none, some, List, [],
  ◌∷◌, ◌++◌, if◌then◌else◌, All, All-append, drop, append_assoc, append-nil,
}
use duckdb_gdrive.Base.Text.{Bytes}
use duckdb_gdrive.Json.{Parser}
use duckdb_gdrive.Client.{DriveFileMeta, DriveResponse, parse_file_meta}
use duckdb_gdrive.PathCache.{CacheKey, put}
use duckdb_gdrive.Actions.{
  FsCall, creates_folder, DriveClient, World, Result, returns, throws, unfinished, Action, go_on,
  ◌>>◌, pure, throw, change, request, require_ok, drive_error, malformed_metadata,
}
use duckdb_gdrive.Actions.Traces.{IsRead, OnlyReads}
use duckdb_gdrive.Resolve.{Auth, cache_key, extend}
use duckdb_gdrive.Opening.{Parent, create_parent, find_or_create, ensure_parents}
use duckdb_gdrive.Opening.Steps.{IsOld, find_or_create-Steps}

-- No call is made, and a folder is new where there is one.
IsFresh : World → Result Parent × World → Type 0
IsFresh w o = (o.1.calls ≡ w.calls) × ((p : Parent) → o.0 ≡ returns p → p.1 ≡ true)

go_on-IsFresh :
    {A : Type 0} (r : Result A) (w w' : World) (f : A → Action Parent)
    → w'.calls ≡ w.calls
    → ((a : A) (w'' : World) → w''.calls ≡ w.calls → IsFresh w (f a w''))
    → IsFresh w (go_on r w' f)
unfolding IsFresh
go_on-IsFresh (returns a) w w' f h k = k a w' h
go_on-IsFresh (throws e) w w' f h k = (h, λ p eq. absurd (cc eq))
go_on-IsFresh unfinished w w' f h k = (h, λ p eq. absurd (cc eq))

require_ok-calls :
    (context : Bytes) (r : DriveResponse) (w : World) → (require_ok context r w).1.calls ≡ w.calls
unfolding require_ok
require_ok-calls context r w = by_ok r.ok
  where
    by_ok :
        (b : Bool)
        → (let m : Action Unit =
              if b
              then (λ x. (returns tt, x))
              else (λ x. (throws (drive_error r.error context), x)) in
            (m w).1.calls ≡ w.calls)
    by_ok true = refl
    by_ok false = refl

module _ (parse : Parser) (client : DriveClient) (pages maximum_query_id generation : ℕ) where
  created-IsFresh :
      (key : CacheKey) (context : Bytes) (w w' : World) (o : Option DriveFileMeta)
      → w'.calls ≡ w.calls
      → (let m : Action Parent = elim o [
        | none ↦ throw (malformed_metadata context)
        | some meta ↦ change (put generation key meta) >> pure (meta.id, true)
      ] in
          IsFresh w (m w'))
  unfolding IsFresh
  created-IsFresh key context w w' none h = (h, λ p eq. absurd (cc eq))
  created-IsFresh key context w w' (some meta) h = (h, λ p e. ap new_one (sym e))
    where
      new_one : Result Parent → Bool
      new_one (returns p) = p.1
      new_one (throws e) = true
      new_one unfinished = true

  -- A creation is one call, and its folder is new where it returns.
  create_parent-IsFresh :
      (key : CacheKey) (parent_id segment context : Bytes) (w : World)
      → IsFresh
          (record w { calls = w.calls ++ creates_folder parent_id segment ∷ [] })
          (create_parent parse client pages maximum_query_id generation key parent_id segment
            context w)
  unfolding create_parent request
  create_parent-IsFresh key parent_id segment context w =
      let after : World = record w { calls = w.calls ++ creates_folder parent_id segment ∷ [] } in
      go_on-IsFresh (request client (creates_folder parent_id segment) w).0 after after _ refl
        (λ resp w1 h1.
          go_on-IsFresh (require_ok context resp w1).0 after (require_ok context resp w1).1 _
            (require_ok-calls context resp w1 ∙ h1)
            (λ done w2 h2.
              created-IsFresh key context after w2 (parse_file_meta parse resp.body) h2))

-- Folders that are created, by the names of segments in their order from the first of them on.
abbrev pub AreCreated : List FsCall → List Bytes → Type 0
AreCreated [] segments = Unit
AreCreated (creates_folder parent_id name ∷ calls) (segment ∷ segments) =
    (name ≡ segment) × AreCreated calls segments
AreCreated _ _ = ⊥

-- The same behind a folder that is new: no reads, and the last folder is new as well.
record Creating (segments : List Bytes) (w : World) (o : Result Parent × World) : Type 0 where
  creates : List FsCall
  grown : o.1.calls ≡ w.calls ++ creates
  created : AreCreated creates segments
  fresh : (p : Parent) → o.0 ≡ returns p → p.1 ≡ true

-- The walk to the last folder: where that is not new, none was created.
pub record IsWalked (segments : List Bytes) (w : World) (o : Result Parent × World) : Type 0 where
  pub reads : List FsCall
  pub creates : List FsCall
  pub grown : o.1.calls ≡ (w.calls ++ reads) ++ creates
  pub all_reads : All IsRead reads
  pub first : ℕ
  pub created : AreCreated creates (drop first segments)
  pub none_made : (p : Parent) → o.0 ≡ returns p → p.1 ≡ false → creates ≡ []

go_on-Creating :
    (parent_id segment : Bytes) (segments : List Bytes) (w w' : World) (r : Result Parent)
    (f : Parent → Action Parent)
    → IsFresh (record w { calls = w.calls ++ creates_folder parent_id segment ∷ [] }) (r, w')
    → ((id : Bytes) (x : World) → Creating segments x (f (id, true) x))
    → Creating (segment ∷ segments) w (go_on r w' f)
unfolding IsFresh
go_on-Creating parent_id segment segments w w' (returns (id, true)) f h k =
    let rest = k id w' in
    record {
      creates = creates_folder parent_id segment ∷ rest.creates;
      grown =
          rest.grown
          ∙ ap (λ (c : List FsCall). c ++ rest.creates) h.0
          ∙ append_assoc w.calls (creates_folder parent_id segment ∷ []) rest.creates;
      created = (refl, rest.created);
      fresh = rest.fresh;
    }
go_on-Creating parent_id segment segments w w' (returns (id, false)) f h k =
    absurd (cc (h.1 (id, false) refl))
go_on-Creating parent_id segment segments w w' (throws e) f h k = record {
  creates = creates_folder parent_id segment ∷ [];
  grown = h.0;
  created = (refl, tt);
  fresh = λ p eq. absurd (cc eq);
}
go_on-Creating parent_id segment segments w w' unfinished f h k = record {
  creates = creates_folder parent_id segment ∷ [];
  grown = h.0;
  created = (refl, tt);
  fresh = λ p eq. absurd (cc eq);
}

go_on-IsWalked :
    (segment : Bytes) (segments : List Bytes) (w w' : World) (r : Result Parent)
    (f : Parent → Action Parent)
    → OnlyReads w w'
    → IsOld r
    → ((id : Bytes) (x : World) → IsWalked segments x (f (id, false) x))
    → IsWalked (segment ∷ segments) w (go_on r w' f)
go_on-IsWalked segment segments w w' (returns (id, false)) f (more, e, all) h k =
    let rest = k id w' in
    record {
      reads = more ++ rest.reads;
      creates = rest.creates;
      grown =
          rest.grown
          ∙ ap (λ (c : List FsCall). (c ++ rest.reads) ++ rest.creates) e
          ∙ ap (λ (c : List FsCall). c ++ rest.creates) (append_assoc w.calls more rest.reads);
      all_reads = All-append IsRead more rest.reads all rest.all_reads;
      first = suc rest.first;
      created = rest.created;
      none_made = rest.none_made;
    }
go_on-IsWalked segment segments w w' (returns (id, true)) f reads h k =
    absurd (cc (h (id, true) refl))
go_on-IsWalked segment segments w w' (throws e) f (more, grown, all) h k = record {
  reads = more;
  creates = [];
  grown = grown ∙ sym (append-nil (w.calls ++ more));
  all_reads = all;
  first = 0;
  created = tt;
  none_made = λ p eq is_old. refl;
}
go_on-IsWalked segment segments w w' unfinished f (more, grown, all) h k = record {
  reads = more;
  creates = [];
  grown = grown ∙ sym (append-nil (w.calls ++ more));
  all_reads = all;
  first = 0;
  created = tt;
  none_made = λ p eq is_old. refl;
}

abbrev is_new : Result Parent → Bool
is_new (returns p) = p.1
is_new (throws e) = true
is_new unfinished = true

module _ (parse : Parser) (client : DriveClient) (pages maximum_query_id generation : ℕ)
    (auth : Auth) (context : Bytes) where
  abbrev ensure : List Bytes → Bytes → Parent → Action Parent
  ensure segments accum parent =
      ensure_parents parse client pages maximum_query_id generation auth context segments accum
        parent

  ensure-Creating :
      (segments : List Bytes) (accum id : Bytes) (w : World)
      → Creating segments w (ensure segments accum (id, true) w)
  unfolding ensure_parents
  ensure-Creating [] accum id w = record {
    creates = [];
    grown = sym (append-nil w.calls);
    created = tt;
    fresh = λ p eq. ap (λ (r : Result Parent). is_new r) (sym eq);
  }
  ensure-Creating (segment ∷ segments) accum id w =
      let key = cache_key auth (extend accum segment) in
      let made =
        create_parent parse client pages maximum_query_id generation key id segment context w in
      go_on-Creating id segment segments w made.1 made.0 _
        (create_parent-IsFresh parse client pages maximum_query_id generation key id segment context
          w)
        (λ id' x. ensure-Creating segments (extend accum segment) id' x)

  pub ensure-IsWalked :
      (segments : List Bytes) (accum id : Bytes) (w : World)
      → IsWalked segments w (ensure segments accum (id, false) w)
  unfolding ensure_parents
  ensure-IsWalked [] accum id w = record {
    reads = [];
    creates = [];
    grown = sym (append-nil (w.calls ++ []) ∙ append-nil w.calls);
    all_reads = tt;
    first = 0;
    created = tt;
    none_made = λ p eq is_old. refl;
  }
  ensure-IsWalked (segment ∷ segments) accum id w =
      let key = cache_key auth (extend accum segment) in
      let seek =
        find_or_create parse client pages maximum_query_id generation key id segment context in
      let make =
        create_parent parse client pages maximum_query_id generation key id segment context in
      let next : Parent → Action Parent = λ p. ensure segments (extend accum segment) p in
      elim ((find_or_create-Steps parse client pages maximum_query_id generation key id segment
          context).step
        w) [
          | inl (reads, is_old) ↦
              go_on-IsWalked segment segments w (seek w).1 (seek w).0 next reads is_old
                (λ id' x. ensure-IsWalked segments (extend accum segment) id' x)
          | inr (mid, (more, e, all), same) ↦
              let made =
                go_on-Creating id segment segments mid (make mid).1 (make mid).0 next
                  (create_parent-IsFresh parse client pages maximum_query_id generation key id
                    segment context mid)
                  (λ id' x. ensure-Creating segments (extend accum segment) id' x) in
              let o : IsWalked (segment ∷ segments) w (go_on (make mid).0 (make mid).1 next) =
                record {
                  reads = more;
                  creates = made.creates;
                  grown = made.grown ∙ ap (λ (c : List FsCall). c ++ made.creates) e;
                  all_reads = all;
                  first = 0;
                  created = made.created;
                  none_made = λ p eq is_old. absurd (cc (sym (made.fresh p eq) ∙ is_old));
                } in
              subst
                (λ (x : Result Parent × World).
                  IsWalked (segment ∷ segments) w (go_on x.0 x.1 next))
                (sym same) o
        ]
