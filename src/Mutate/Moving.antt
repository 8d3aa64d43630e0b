-- ===== src/Mutate/Moving.antt =====
-- MoveFile of src/gdrive_mutate.cpp: which calls it makes, and in which order.
use duckdb_gdrive.Base.{
  ℕ, Bool, true, Option, none, some, List, [], ◌∷◌, ◌++◌, ◌≡◌, ◌≢◌, refl, ◌⊎◌, inl, inr, All, subst,
  ap, ◌∙◌, append_assoc, Bool-cases,
}
use duckdb_gdrive.Base.Text.{Bytes}
use duckdb_gdrive.Json.{Parser}
use duckdb_gdrive.Client.{DriveResponse}
use duckdb_gdrive.Uri.{GDriveUri}
use duckdb_gdrive.Actions.{
  FsCall, FsError, moves, deletes, DriveClient, Reply, answered, thrown, World, Result, returns,
  throws, unfinished, Action, ◌>>=◌, change, request, require_ok,
}
use duckdb_gdrive.Actions.Traces.{IsRead}
use duckdb_gdrive.Resolve.{Auth}
use duckdb_gdrive.Mutate.{MovePlan, plan_move, carry_out, delete_replaced, forget, move_file}
use duckdb_gdrive.Mutate.Plan.{plan_move-Reads}
use duckdb_gdrive.Mutate.Finding.{plan_move-IsFoundPlan, IsFoundPlan}

abbrev pub move_call : MovePlan → FsCall
move_call plan = moves plan.source_id plan.new_parent_id plan.new_name plan.old_parent_id

-- Drive has done what it was asked for.
abbrev pub IsDone : Reply → Type 0
IsDone (answered r) = r.ok ≡ true
IsDone thrown = ⊥

-- The calls that follow the reads: none; the move; or the move, which Drive has carried out, and the deletion
-- of the one other file that had the name.
abbrev pub IsMoveRun : DriveClient → List FsCall → Bool → MovePlan → List FsCall → Type 0
IsMoveRun client before permanent plan calls =
    (calls ≡ move_call plan ∷ [])
    ⊎ ((replaced : Bytes) × (calls ≡ move_call plan ∷ deletes replaced permanent ∷ [])
        × (plan.replaced ≡ some replaced)
        × (replaced ≢ plan.source_id)
        × IsDone (client before (move_call plan)))

pub Reply-cases : (reply : Reply) → (reply ≡ thrown) ⊎ ((r : DriveResponse) × (reply ≡ answered r))
Reply-cases (answered r) = inr (r, refl)
Reply-cases thrown = inl refl

pub Result-cases :
    {A : Type 0} (r : Result A)
    → ((a : A) × (r ≡ returns a)) ⊎ (((e : FsError) × (r ≡ throws e)) ⊎ (r ≡ unfinished))
Result-cases (returns a) = inl (a, refl)
Result-cases (throws e) = inr (inl (e, refl))
Result-cases unfinished = inr (inr refl)

module _ (parse : Parser) (client : DriveClient) (pages maximum_query_id generation : ℕ)
    (auth : Auth) (source target : GDriveUri) (permanent : Bool) where
  -- What follows a move that Drive has carried out.
  abbrev pub after_move : Option Bytes → Action Unit
  after_move replaced =
      delete_replaced parse client pages maximum_query_id generation auth target permanent replaced
      >>= λ _. change (forget auth source) >>= λ _. change (forget auth target)

  after_move-some :
      (id : Bytes) (w : World)
      → (after_move (some id) w).1.calls ≡ w.calls ++ deletes id permanent ∷ []
  unfolding delete_replaced request require_ok
  after_move-some id w = elim (Reply-cases (client w.calls (deletes id permanent))) [
    | inl e ↦ rw (e, request) refl
    | inr (r, e) ↦ elim (Bool-cases r.ok) [
      | inl good ↦ rw (e, request, require_ok, good) refl
      | inr bad ↦ rw (e, request, require_ok, bad) refl
    ]
  ]

  after_move-calls :
      (replaced : Option Bytes) (w : World)
      → ((after_move replaced w).1.calls ≡ w.calls)
        ⊎ ((id : Bytes) × (replaced ≡ some id)
            × ((after_move replaced w).1.calls ≡ w.calls ++ deletes id permanent ∷ []))
  unfolding delete_replaced
  after_move-calls none w = inl refl
  after_move-calls (some id) w = inr (id, refl, after_move-some id w)

  -- What carry_out adds to the calls, and what it says when it returns.
  -- The action has come to its end, which it does only after Drive has carried out the move.
  abbrev pub IsHonest : List FsCall → MovePlan → Result (Unit {0}) → Type 0
  IsHonest before plan result = (result ≢ returns tt) ⊎ IsDone (client before (move_call plan))

  carry_out-IsMove :
      (plan : MovePlan) (w : World)
      → ((x : Bytes) → plan.replaced ≡ some x → x ≢ plan.source_id)
      → (calls : List FsCall) × ((carry_out parse client pages maximum_query_id generation auth
            source target permanent plan w).1.calls
          ≡ w.calls ++ calls)
        × IsMoveRun client w.calls permanent plan calls
        × IsHonest w.calls plan
            (carry_out parse client pages maximum_query_id generation auth source target permanent
              plan w).0
  unfolding carry_out request require_ok delete_replaced
  carry_out-IsMove plan w other = elim (Reply-cases (client w.calls (move_call plan))) [
    | inl e ↦ rw (e, carry_out, request) (move_call plan ∷ [], refl, inl refl, inl (λ h. cc h))
    | inr (r, e) ↦ elim (Bool-cases r.ok) [
      | inr bad ↦
          rw (e, carry_out, request, require_ok, bad)
            (move_call plan ∷ [], refl, inl refl, inl (λ h. cc h))
      | inl good ↦
          let w' = record w { calls = w.calls ++ move_call plan ∷ [] } in
          rw (e, carry_out, request, require_ok, good)
            (elim (after_move-calls plan.replaced w') [
              | inl none_more ↦ (move_call plan ∷ [], none_more, inl refl, inr refl)
              | inr (id, found, more) ↦ (
                move_call plan ∷ deletes id permanent ∷ [],
                more ∙ append_assoc w.calls _ _,
                inr (id, refl, found, other id found, refl),
                inr refl,
              )
            ])
    ]
  ]

  abbrev pub moved : World → Result (Unit {0}) × World
  moved w = move_file parse client pages maximum_query_id generation auth source target permanent w

  abbrev pub planned : World → Result MovePlan × World
  planned w = plan_move parse client pages maximum_query_id generation auth source target w

  -- MoveFile first only reads. Then it fails without a change, or it asks Drive for one move: of the file
  -- that the source resolves to, from the source's parent into that of the target, under the target's name.
  -- It deletes nothing but, after Drive has carried out that move, the one other file that Drive listed
  -- under that name in that parent; where Drive lists two others, it asks for no move. It returns only where
  -- Drive has carried out the move.
  pub move_file-IsMoveRun :
      (w : World)
      → (reads : List FsCall) × All IsRead reads
        × ((((moved w).1.calls ≡ w.calls ++ reads) × ((moved w).0 ≢ returns tt))
            ⊎ ((plan : MovePlan) × (calls : List FsCall) × IsFoundPlan parse client pages
                  maximum_query_id generation auth source target w plan
                × ((moved w).1.calls ≡ (w.calls ++ reads) ++ calls)
                × IsMoveRun client (w.calls ++ reads) permanent plan calls
                × IsHonest (w.calls ++ reads) plan (moved w).0))
  unfolding move_file
  move_file-IsMoveRun w =
      let (reads, added, only) =
        (plan_move-Reads parse client pages maximum_query_id generation auth source
            target).only_reads
          w in
      elim (Result-cases (planned w).0) [
        | inl (plan, e) ↦
            let right =
              plan_move-IsFoundPlan parse client pages maximum_query_id generation auth source
                target w plan e in
            let (calls, then_calls, shape, honest) =
              carry_out-IsMove plan (planned w).1 (λ x f. (right.choice.other x f).0) in
            (
              reads,
              only,
              inr (
                plan,
                calls,
                right,
                rw (e, move_file) (then_calls ∙ ap (λ (x : List FsCall). x ++ calls) added),
                subst (λ (x : List FsCall). IsMoveRun client x permanent plan calls) added shape,
                rw (e, move_file)
                    (subst
                      (λ (x : List FsCall).
                        IsHonest x plan
                          (carry_out parse client pages maximum_query_id generation auth source
                            target permanent plan (planned w).1).0)
                      added honest),
              ),
            )
        | inr (inl (why, e)) ↦
            (reads, only, inl (rw (e, move_file) added, rw (e, move_file) (λ h. cc h)))
        | inr (inr e) ↦ (reads, only, inl (rw (e, move_file) added, rw (e, move_file) (λ h. cc h)))
      ]
