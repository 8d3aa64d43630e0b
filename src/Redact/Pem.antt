-- ===== src/Redact/Pem.antt =====
-- The removal of PEM blocks in src/gdrive_errors.cpp. Every round takes a hyphen away, so that one round
-- more than the text has hyphens is enough.
use duckdb_gdrive.Base.{
  ℕ, zero, suc, ◌+◌, ◌-◌, ◌<◌, ◌≤◌, ◌≡◌, refl, sym, ap, ◌∙◌, inl, inr, true, false, some, [], ◌∷◌,
  ◌++◌, ◌==◌, if◌then◌else◌, Option-cases, arith, length, take, drop, take-append-drop,
}
use duckdb_gdrive.Base.Text.{Bytes, codes}
use duckdb_gdrive.Redact.{
  is_prefix, find_first, find, redacted, replace, pem_begin, pem_end, redact_pem,
}
use duckdb_gdrive.Redact.Search.{occurs}
use duckdb_gdrive.Redact.Prefixed.{find_first-none, find_first-some}

abbrev pub hyphens : Bytes → ℕ
hyphens [] = 0
hyphens (c ∷ s) = let rest = hyphens s in if c == b'-' then suc rest else rest

hyphens-append : (xs ys : Bytes) → hyphens (xs ++ ys) ≡ hyphens xs + hyphens ys
hyphens-append [] ys = omega arith
hyphens-append (x ∷ xs) ys = ground (arith, hyphens-append xs ys)

pub hyphens_bound : (s : Bytes) → hyphens s ≤ length s
hyphens_bound [] = omega arith
hyphens_bound (c ∷ s) = ground (arith, hyphens_bound s)

hyphens-drop : (n : ℕ) (s : Bytes) → hyphens (drop n s) ≤ hyphens s
hyphens-drop zero s = omega arith
hyphens-drop (suc n) [] = omega arith
hyphens-drop (suc n) (c ∷ s) = ground (arith, hyphens-drop n s)

drop-nil : (n : ℕ) → drop {A = ℕ} n [] ≡ []
drop-nil zero = refl
drop-nil (suc n) = refl

pub drop-drop : (k n : ℕ) (s : Bytes) → drop (k + n) s ≡ drop n (drop k s)
drop-drop zero n s = let e : 0 + n ≡ n = omega arith in ap (λ (m : ℕ). drop m s) e
drop-drop (suc k) n [] = drop-nil (suc k + n) ∙ sym (drop-nil n)
drop-drop (suc k) n (c ∷ s) =
    let e : suc k + n ≡ suc (k + n) = omega arith in
    ap (λ (m : ℕ). drop m (c ∷ s)) e ∙ drop-drop k n s

hyphens_fewer :
    (n : ℕ) (s : Bytes) → is_prefix pem_begin s ≡ true → hyphens (drop (suc n) s) < hyphens s
hyphens_fewer n [] h = cc
hyphens_fewer n (c ∷ s) h = ground (arith, hyphens-drop n s)

hyphens-replace :
    (out : Bytes) (k e : ℕ)
    → is_prefix pem_begin (drop k out) ≡ true
    → k < e
    → hyphens (replace out k e) < hyphens out
hyphens-replace out k e h l =
    let n = e - k - 1 in
    let further : e ≡ k + suc n = omega arith in
    let rest : drop e out ≡ drop (suc n) (drop k out) =
      ap (λ (m : ℕ). drop m out) further ∙ drop-drop k (suc n) out in
    let fewer : hyphens (drop e out) < hyphens (drop k out) =
      rw rest (hyphens_fewer n (drop k out) h) in
    let whole : hyphens out ≡ hyphens (take k out) + hyphens (drop k out) =
      ap hyphens (sym (take-append-drop k out)) ∙ hyphens-append (take k out) (drop k out) in
    let new : hyphens (replace out k e) ≡ hyphens (take k out) + hyphens (drop e out) =
      hyphens-append (take k out) (redacted ++ drop e out) in
    omega arith

find_from : (p out : Bytes) (from at : ℕ) → find p out from ≡ some at → from ≤ at
find_from p out from at h = elim (Option-cases (find_first (is_prefix p) (drop from out))) [
  | inl e ↦ ground arith
  | inr (k, e) ↦ ground arith
]

pem_end_later : (out : Bytes) (k : ℕ) → k < length out → k < pem_end out k
unfolding pem_end
pem_end_later out k l = elim (Option-cases (find (codes "-----END") out k)) [
  | inl e ↦ rw (pem_end, e) l
  | inr (marker, e) ↦ elim (Option-cases (find (codes "-----") out (marker + 8))) [
    | inl f ↦ rw (pem_end, e, f) l
    | inr (trailer, f) ↦
        let low : k ≤ marker = find_from (codes "-----END") out k marker e in
        let high : marker + 8 ≤ trailer = find_from (codes "-----") out (marker + 8) trailer f in
        rw (pem_end, e, f) (omega arith)
  ]
]

-- With enough rounds, no start of a PEM block is left.
pub redact_pem-occurs :
    (fuel : ℕ) (out : Bytes) → hyphens out < fuel → occurs pem_begin (redact_pem fuel out) ≡ false
unfolding redact_pem
redact_pem-occurs zero out l = absurd (omega arith)
redact_pem-occurs (suc fuel) out l = elim (Option-cases (find_first (is_prefix pem_begin) out)) [
  | inl e ↦ rw (redact_pem, e) (find_first-none pem_begin out e)
  | inr (k, e) ↦
      let (before, there, inside) = find_first-some pem_begin out k refl e in
      let e0 : 0 + k ≡ k = omega arith in
      let fewer : hyphens (replace out k (pem_end out k)) < hyphens out =
        hyphens-replace out k (pem_end out k) there (pem_end_later out k inside) in
      rw (redact_pem, e, e0) (redact_pem-occurs fuel (replace out k (pem_end out k)) (omega arith))
]
