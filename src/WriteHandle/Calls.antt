-- ===== src/WriteHandle/Calls.antt =====
-- What the calls of a write handle amount to at Drive (the interface GDriveClient).
use duckdb_gdrive.Base.{
  ℕ, ◌+◌, ◌≡◌, ap, sym, ◌∙◌, Bool, true, false, List, [], ◌∷◌, ◌++◌, append_assoc, append-nil,
  arith, length, length-append, if◌then◌else◌,
}
use duckdb_gdrive.Base.Text.{Bytes}
use duckdb_gdrive.UploadPlan.{wrap64}
use duckdb_gdrive.WriteHandle.{
  ClientCall, start_resumable_upload, sends_chunk, cancel_upload, generate_file_id, upload,
}

-- A call that makes the file visible, if Drive accepts it.
abbrev pub publishes : ClientCall → Bool
publishes (sends_chunk session buf final) = final
publishes (upload id parent name mime body reserved) = true
publishes _ = false

-- The bytes of the file that a call carries.
abbrev pub carried : ClientCall → Bytes
carried (sends_chunk session buf final) = buf.pending
carried (upload id parent name mime body reserved) = body
carried _ = []

abbrev pub delivered : List ClientCall → Bytes
delivered [] = []
delivered (c ∷ cs) = carried c ++ delivered cs

abbrev pub published_count : List ClientCall → ℕ
published_count [] = 0
published_count (c ∷ cs) = (if publishes c then 1 else 0) + published_count cs

-- Every chunk is sent to the offset at which the bytes before it end, `n` of them before the first,
-- and a single request carries the file from its first byte.
abbrev pub InOrder : ℕ → List ClientCall → Type 0
InOrder n [] = Unit
InOrder n (sends_chunk session buf final ∷ cs) =
    (buf.offset ≡ wrap64 n) × InOrder (n + length buf.pending) cs
InOrder n (upload id parent name mime body reserved ∷ cs) = (n ≡ 0) × InOrder (n + length body) cs
InOrder n (_ ∷ cs) = InOrder n cs

pub delivered-append :
    (cs : List ClientCall) (c : ClientCall) → delivered (cs ++ c ∷ []) ≡ delivered cs ++ carried c
delivered-append [] c = append-nil (carried c)
delivered-append (x ∷ cs) c =
    ap (◌++◌ (carried x)) (delivered-append cs c)
    ∙ sym (append_assoc (carried x) (delivered cs) (carried c))

pub published_count-append :
    (cs : List ClientCall) (c : ClientCall)
    → published_count (cs ++ c ∷ []) ≡ published_count cs + (if publishes c then 1 else 0)
published_count-append [] c = omega arith
published_count-append (x ∷ cs) c = omega (arith, published_count-append cs c)

pub InOrder-append :
    (n : ℕ) (cs : List ClientCall) (c : ClientCall)
    → InOrder n cs
    → InOrder (n + length (delivered cs)) (c ∷ [])
    → InOrder n (cs ++ c ∷ [])
InOrder-append n [] c h k = let e : n + 0 ≡ n = omega arith in rw e at k
InOrder-append n (sends_chunk session buf final ∷ cs) c (here, rest) k =
    let e : n + length buf.pending + length (delivered cs)
        ≡ n + length (buf.pending ++ delivered cs) =
      omega (arith, length-append buf.pending (delivered cs)) in
    (here, InOrder-append (n + length buf.pending) cs c rest (rw (← e) at k))
InOrder-append n (upload id parent name mime body reserved ∷ cs) c (here, rest) k =
    let e : n + length body + length (delivered cs) ≡ n + length (body ++ delivered cs) =
      omega (arith, length-append body (delivered cs)) in
    (here, InOrder-append (n + length body) cs c rest (rw (← e) at k))
InOrder-append n (start_resumable_upload id parent name mime ∷ cs) c h k = InOrder-append n cs c h k
InOrder-append n (cancel_upload session ∷ cs) c h k = InOrder-append n cs c h k
InOrder-append n (generate_file_id ∷ cs) c h k = InOrder-append n cs c h k
