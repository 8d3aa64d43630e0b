-- ===== src/Mutate/Forgetting.antt =====
-- What MoveFile of src/gdrive_mutate.cpp leaves in the path cache.
use duckdb_gdrive.Base.{
  ℕ, Bool, true, ◌||◌, Option, none, some, ◌≡◌, refl, inl, inr, ap, ◌∙◌, arith, Bool-cases, ◌∷◌, [],
  ◌++◌,
}
use duckdb_gdrive.Base.Text.{Bytes, eqb_refl}
use duckdb_gdrive.Json.{Parser}
use duckdb_gdrive.Uri.{GDriveUri}
use duckdb_gdrive.Assoc.{find}
use duckdb_gdrive.Assoc.Assigning.{find-erase_if}
use duckdb_gdrive.PathCache.{PathCache, key_text, invalidate_prefix, falls_under}
use duckdb_gdrive.PathCache.Invalidation.{
  IsIdentity, same_identity, at_or_below, find-invalidate_prefix,
}
use duckdb_gdrive.Actions.{DriveClient, deletes, World, returns, request, require_ok}
use duckdb_gdrive.Resolve.{Auth, cache_key, canonical_path_of}
use duckdb_gdrive.Mutate.{MovePlan, is_path, forget, delete_replaced, carry_out, move_file}
use duckdb_gdrive.Mutate.Moving.{Reply-cases, Result-cases, move_call, after_move, moved, planned}

module _ (auth : Auth) (whose : IsIdentity (cache_key auth [])) where
  forget-find :
      (uri : GDriveUri) (p : Bytes) (c : PathCache)
      → is_path uri.kind ≡ true
      → at_or_below (canonical_path_of uri) p ≡ true
      → find (key_text (cache_key auth p)) (forget auth uri c).entries ≡ none
  unfolding forget
  forget-find uri p c kind below =
      let same : same_identity (cache_key auth (canonical_path_of uri)) (cache_key auth p) ≡ true =
        rw (eqb_refl auth.identity, eqb_refl auth.drive_id, eqb_refl auth.root_folder_id) refl in
      rw (kind, forget)
        (find-invalidate_prefix (cache_key auth (canonical_path_of uri)) (cache_key auth p) c whose
            whose
          ∙ rw (same, below) refl)

forget-none :
    (auth : Auth) (uri : GDriveUri) (k : Bytes) (c : PathCache)
    → find k c.entries ≡ none
    → find k (forget auth uri c).entries ≡ none
unfolding forget invalidate_prefix
forget-none auth uri k c h = elim (Bool-cases (is_path uri.kind)) [
  | inl kind ↦
      rw (kind, forget)
        (find-erase_if (falls_under (cache_key auth (canonical_path_of uri))) k c.entries
          ∙ ground (arith, h))
  | inr other ↦ rw (other, forget) h
]

module _ (parse : Parser) (client : DriveClient) (pages maximum_query_id generation : ℕ)
    (auth : Auth) (source target : GDriveUri) (permanent : Bool) where
  abbrev Forgotten : PathCache → Type 0
  Forgotten c' = (c : PathCache) × (c' ≡ forget auth target (forget auth source c))

  after_move-Forgotten :
      (replaced : Option Bytes) (w : World)
      → (after_move parse client pages maximum_query_id generation auth source target permanent
          replaced w).0
        ≡ returns tt
      → Forgotten
          (after_move parse client pages maximum_query_id generation auth source target permanent
            replaced w).1.cache
  unfolding delete_replaced request require_ok
  after_move-Forgotten none w h = (w.cache, refl)
  after_move-Forgotten (some id) w h = elim (Reply-cases (client w.calls (deletes id permanent))) [
    | inl e ↦ absurd (cc (rw (e, request) at h))
    | inr (r, e) ↦ elim (Bool-cases r.ok) [
      | inl good ↦ rw (e, request, require_ok, good) (w.cache, refl)
      | inr bad ↦ absurd (cc (rw (e, request, require_ok, bad) at h))
    ]
  ]

  carry_out-Forgotten :
      (plan : MovePlan) (w : World)
      → (carry_out parse client pages maximum_query_id generation auth source target permanent plan
          w).0
        ≡ returns tt
      → Forgotten
          (carry_out parse client pages maximum_query_id generation auth source target permanent
            plan w).1.cache
  unfolding carry_out request require_ok
  carry_out-Forgotten plan w h = elim (Reply-cases (client w.calls (move_call plan))) [
    | inl e ↦ absurd (cc (rw (e, carry_out, request) at h))
    | inr (r, e) ↦ elim (Bool-cases r.ok) [
      | inr bad ↦ absurd (cc (rw (e, carry_out, request, require_ok, bad) at h))
      | inl good ↦
          rw (e, carry_out, request, require_ok, good)
            (after_move-Forgotten plan.replaced
              (record w { calls = w.calls ++ move_call plan ∷ [] })
              (rw (e, carry_out, request, require_ok, good) at h))
    ]
  ]

  -- After a MoveFile that returns, the path cache knows nothing at or below the source or the target, where
  -- those are paths: no later lookup is served the file that was replaced, or finds the one that has gone.
  -- No field of the identity holds the separator of keys.
  pub move_file_forgets :
      (w : World) (p : Bytes)
      → IsIdentity (cache_key auth [])
      → is_path source.kind ≡ true
      → is_path target.kind ≡ true
      → (moved parse client pages maximum_query_id generation auth source target permanent w).0
        ≡ returns tt
      → (at_or_below (canonical_path_of source) p || at_or_below (canonical_path_of target) p)
        ≡ true
      → find
          (key_text (cache_key auth p))
          (moved parse client pages maximum_query_id generation auth source target permanent
            w).1.cache.entries
        ≡ none
  unfolding move_file
  move_file_forgets w p whose from to h below =
      elim (Result-cases
        (planned parse client pages maximum_query_id generation auth source target permanent w).0) [
          | inl (plan, e) ↦
              let (c, gone) =
                carry_out-Forgotten plan
                  (planned parse client pages maximum_query_id generation auth source target
                    permanent w).1
                  (rw (e, move_file) at h) in
              rw (e, move_file)
                (ap (λ (x : PathCache). find (key_text (cache_key auth p)) x.entries) gone
                  ∙ elim (Bool-cases (at_or_below (canonical_path_of target) p)) [
                    | inl there ↦ forget-find auth whose target p _ to there
                    | inr elsewhere ↦
                        forget-none auth target (key_text (cache_key auth p)) _ (
                          forget-find auth whose source p c from (ground (arith, below, elsewhere)))
                  ])
          | inr (inl (why, e)) ↦ absurd (cc (rw (e, move_file) at h))
          | inr (inr e) ↦ absurd (cc (rw (e, move_file) at h))
        ]
