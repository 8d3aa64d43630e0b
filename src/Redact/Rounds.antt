-- ===== src/Redact/Rounds.antt =====
-- The rounds of a search in src/gdrive_errors.cpp: what they cannot bring back, and that they end.
use duckdb_gdrive.Base.{
  ℕ, zero, suc, ◌+◌, ◌-◌, ◌<◌, ◌≤◌, ◌≡◌, refl, inl, inr, false, Option, some, ◌++◌, Option-cases,
  arith, length, take, drop, length-append, length-take, length-drop,
}
use duckdb_gdrive.Base.Text.{Bytes}
use duckdb_gdrive.Redact.{redacted, replace, Verdict, pass, cover, follow, redact_each}
use duckdb_gdrive.Redact.Search.{occurs, IsApart, occurs-replace}

-- The position behind the bytes that a verdict has dealt with.
abbrev pub dealt_with : Verdict → ℕ
dealt_with (pass next) = next
dealt_with (cover start end) = end

-- A match lies in the text, at or behind the position searched from, and its verdict deals with it.
abbrev pub IsMoving : (Bytes → ℕ → Option ℕ) → (Bytes → ℕ → Verdict) → Type 0
IsMoving seek judge =
    (out : Bytes) (from at : ℕ)
    → seek out from ≡ some at
    → (from ≤ at) × (at < length out) × (at < dealt_with (judge out at))

follow-occurs :
    (p : Bytes) (again : Bytes → ℕ → Bytes) (out : Bytes) (v : Verdict)
    → ((s : Bytes) (n : ℕ) → occurs p s ≡ false → occurs p (again s n) ≡ false)
    → IsApart p
    → occurs p out ≡ false
    → occurs p (follow again out v) ≡ false
follow-occurs p again out (pass next) keeps h l = keeps out next l
follow-occurs p again out (cover start end) keeps h l =
    keeps (replace out start end) (start + length redacted) (occurs-replace p out start end h l)

pub redact_each-occurs :
    (p : Bytes) (seek : Bytes → ℕ → Option ℕ) (judge : Bytes → ℕ → Verdict) (fuel : ℕ) (out : Bytes)
    (at : ℕ)
    → IsApart p
    → occurs p out ≡ false
    → occurs p (redact_each seek judge fuel out at) ≡ false
unfolding redact_each
redact_each-occurs p seek judge zero out at h l = l
redact_each-occurs p seek judge (suc fuel) out at h l = elim (Option-cases (seek out at)) [
  | inl e ↦ rw (redact_each, e) l
  | inr (found, e) ↦
      rw (redact_each, e)
        (follow-occurs p (redact_each seek judge fuel) out (judge out found)
          (λ s n. redact_each-occurs p seek judge fuel s n h) h l)
]

-- What is left behind the position after a replacement.
length-replace :
    (out : Bytes) (start end at : ℕ)
    → at < end
    → at < length out
    → length (replace out start end) - (start + length redacted) < length out - at
length-replace out start end at h l = ground (
  arith,
  length-append (take start out) (redacted ++ drop end out),
  length-append redacted (drop end out),
  length-take start out,
  length-drop end out,
)

follow_enough :
    (a b : Bytes → ℕ → Bytes) (left : ℕ) (out : Bytes) (at : ℕ) (v : Verdict)
    → ((s : Bytes) (n : ℕ) → length s - n < left → a s n ≡ b s n)
    → length out - at ≤ left
    → at < length out
    → at < dealt_with v
    → follow a out v ≡ follow b out v
follow_enough a b left out at (pass next) same h l m = same out next (omega arith)
follow_enough a b left out at (cover start end) same h l m =
    let less = length-replace out start end at m l in
    same (replace out start end) (start + length redacted) (omega arith)

-- From one round more than the text has bytes behind the position on, more rounds change nothing.
pub redact_each_enough :
    (seek : Bytes → ℕ → Option ℕ) (judge : Bytes → ℕ → Verdict) (f g : ℕ) (out : Bytes) (at : ℕ)
    → IsMoving seek judge
    → length out - at < f
    → length out - at < g
    → redact_each seek judge f out at ≡ redact_each seek judge g out at
unfolding redact_each
redact_each_enough seek judge zero g out at m hf hg = absurd (omega arith)
redact_each_enough seek judge (suc f) zero out at m hf hg = absurd (omega arith)
redact_each_enough seek judge (suc f) (suc g) out at m hf hg = elim (Option-cases (seek out at)) [
  | inl e ↦ rw (redact_each, e) refl
  | inr (found, e) ↦
      let (low, high, far) = m out at found e in
      rw (redact_each, e)
        (follow_enough (redact_each seek judge f) (redact_each seek judge g) (length out - at) out
          found (judge out found)
          (λ s n fewer. redact_each_enough seek judge f g s n m (omega arith) (omega arith))
          (omega arith) high far)
]
