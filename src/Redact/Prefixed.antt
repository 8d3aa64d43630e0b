-- ===== src/Redact/Prefixed.antt =====
-- What the searches for a token's prefix and for a PEM block in src/gdrive_errors.cpp leave.
use duckdb_gdrive.Base.{
  ℕ, zero, suc, ◌+◌, ◌<◌, ◌≡◌, refl, ap, ◌∙◌, subst, inl, inr, Bool, true, false, none, some, [],
  ◌∷◌, ◌++◌, Option-cases, Bool-cases, arith, length, take, drop, length-append, length-take,
  length-drop, take-append-drop, append_assoc,
}
use duckdb_gdrive.Base.Text.{Bytes, is_empty}
use duckdb_gdrive.Redact.{
  is_prefix, find_first, find, redacted, replace, run_length, redact_each, is_token_char,
  prefixed_run, redact_prefixed_run,
}
use duckdb_gdrive.Redact.Search.{occurs, IsApart, occurs-redacted, is_prefix-append}

pub find_first-none : (p s : Bytes) → find_first (is_prefix p) s ≡ none → occurs p s ≡ false
find_first-none p [] h = ground arith
find_first-none p (c ∷ s) h = elim (Option-cases (find_first (is_prefix p) s)) [
  | inl e ↦ ground (arith, find_first-none p s e)
  | inr (k, e) ↦ ground arith
]

pub find_first-some :
    (p s : Bytes) (k : ℕ)
    → is_empty p ≡ false
    → find_first (is_prefix p) s ≡ some k
    → (occurs p (take k s) ≡ false) × (is_prefix p (drop k s) ≡ true) × (k < length s)
find_first-some p [] k e h = ground arith
find_first-some p (c ∷ s) k e h = elim (Bool-cases (is_prefix p (c ∷ s))) [
  | inl here ↦ ground arith
  | inr later ↦ elim (Option-cases (find_first (is_prefix p) s)) [
    | inl none_here ↦ ground arith
    | inr (j, found) ↦
        let (before, there, inside) = find_first-some p s j e found in
        let k_is : k ≡ suc j = ground arith in
        let first : is_prefix p (c ∷ take j s) ≡ false =
          is_prefix-append p (c ∷ take j s) (drop j s) (rw (take-append-drop j s) later) in
        rw k_is (ground arith)
  ]
]

pub drop-append : (xs ys : Bytes) (n : ℕ) → drop (length xs + n) (xs ++ ys) ≡ drop n ys
drop-append [] ys n = let e : 0 + n ≡ n = omega arith in ap (λ (m : ℕ). drop m ys) e
drop-append (x ∷ xs) ys n =
    let e : length (x ∷ xs) + n ≡ suc (length xs + n) = omega arith in
    ap (λ (m : ℕ). drop m (x ∷ xs ++ ys)) e ∙ drop-append xs ys n

pub take-append : (xs ys : Bytes) (n : ℕ) → take (length xs + n) (xs ++ ys) ≡ xs ++ take n ys
take-append [] ys n = let e : 0 + n ≡ n = omega arith in ap (λ (m : ℕ). take m ys) e
take-append (x ∷ xs) ys n =
    let e : length (x ∷ xs) + n ≡ suc (length xs + n) = omega arith in
    ap (λ (m : ℕ). take m (x ∷ xs ++ ys)) e ∙ ap (λ (s : Bytes). x ∷ s) (take-append xs ys n)

-- Whatever follows such a text, the needle occurs in the whole only where it occurs behind it.
abbrev IsSealed : Bytes → Bytes → Type 0
IsSealed p done = (zs : Bytes) → occurs p (done ++ zs) ≡ occurs p zs

IsSealed-next :
    (p done before : Bytes)
    → IsApart p
    → IsSealed p done
    → occurs p before ≡ false
    → IsSealed p ((done ++ before) ++ redacted)
IsSealed-next p done before h sealed l zs =
    rw
      (
        append_assoc (done ++ before) redacted zs,
        append_assoc done before (redacted ++ zs),
        sealed (before ++ (redacted ++ zs)),
        occurs-redacted p before zs h,
        l,
      )
      refl

replaced :
    (done rest : Bytes) (k m : ℕ)
    → replace (done ++ rest) (length done + k) (length done + k + m)
      ≡ (((done ++ take k rest) ++ redacted) ++ drop (k + m) rest)
replaced done rest k m =
    let e : length done + k + m ≡ length done + (k + m) = omega arith in
    rw
      (
        append_assoc (done ++ take k rest) redacted (drop (k + m) rest),
        take-append done rest k,
        e,
        drop-append done rest (k + m),
      )
      refl

replaced_length :
    (done rest : Bytes) (k : ℕ)
    → k < length rest
    → length done + k + length redacted ≡ length ((done ++ take k rest) ++ redacted)
replaced_length done rest k h = ground (
  arith,
  length-append (done ++ take k rest) redacted,
  length-append done (take k rest),
  length-take k rest,
)

-- The needle starts with a character of a token.
abbrev pub leads : Bytes → Bool
leads [] = false
leads (c ∷ _) = is_token_char c

pub starts_run :
    (p s : Bytes) → leads p ≡ true → is_prefix p s ≡ true → 0 < run_length is_token_char s
starts_run [] s e h = cc
starts_run (c ∷ p) [] e h = cc
starts_run (c ∷ p) (x ∷ s) e h =
    let same : c ≡ x = ground arith in
    let token : is_token_char x ≡ true = subst (λ (y : ℕ). is_token_char y ≡ true) same e in
    rw token (omega arith)

runs_from :
    (p : Bytes) (fuel : ℕ) (done rest : Bytes)
    → IsApart p
    → leads p ≡ true
    → IsSealed p done
    → length rest < fuel
    → occurs p (redact_each (find p) prefixed_run fuel (done ++ rest) (length done)) ≡ false
unfolding redact_each
runs_from p zero done rest h e sealed l = absurd (omega arith)
runs_from p (suc fuel) done rest h e sealed l =
    let behind : drop (length done) (done ++ rest) ≡ rest =
      (let e0 : length done ≡ length done + 0 = omega arith in
        ap (λ (m : ℕ). drop m (done ++ rest)) e0 ∙ drop-append done rest 0) in
    elim (Option-cases (find_first (is_prefix p) rest)) [
      | inl absent ↦ rw (redact_each, behind, absent) (sealed rest ∙ find_first-none p rest absent)
      | inr (k, found) ↦
          let (before, there, inside) = find_first-some p rest k h.nonempty found in
          let m = run_length is_token_char (drop k rest) in
          let some_run : 0 < m = starts_run p (drop k rest) e there in
          let shorter : length (drop (k + m) rest) < fuel =
            rw (length-drop (k + m) rest) (omega arith) in
          rw
            (
              redact_each,
              behind,
              found,
              drop-append done rest k,
              replaced done rest k m,
              replaced_length done rest k inside,
            )
            (runs_from p fuel ((done ++ take k rest) ++ redacted) (drop (k + m) rest) h e
              (IsSealed-next p done (take k rest) h sealed before) shorter)
    ]

-- After the search for a needle that starts like a token, the needle is nowhere in the text.
pub redact_prefixed_run-occurs :
    (p out : Bytes) → IsApart p → leads p ≡ true → occurs p (redact_prefixed_run p out) ≡ false
unfolding redact_prefixed_run
redact_prefixed_run-occurs p out h e =
    runs_from p (suc (length out)) [] out h e (λ zs. refl) (omega arith)
