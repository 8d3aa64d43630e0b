-- ===== src/Redact/Rules.antt =====
-- The rules of the searches in src/gdrive_errors.cpp deal with every match, so that the searches end.
use duckdb_gdrive.Base.{
  ℕ, suc, ◌+◌, ◌<◌, ◌≤◌, ◌≡◌, refl, inl, inr, Bool, true, false, not, ◌||◌, ◌==◌, some, [], ◌∷◌,
  if◌then◌else◌, Option-cases, Bool-cases, arith, length, drop, length-drop,
}
use duckdb_gdrive.Base.Text.{Bytes, codes}
use duckdb_gdrive.Client.{is_space}
use duckdb_gdrive.Redact.{
  find_first, find_case_insensitive, is_prefix_lower, shift, keyword_token, key_value,
  authorization_value, prefixed_run, find, redact_each, redact_keyword_token, redact_key_value,
  redact_authorization_header, redact_prefixed_run, Verdict, pass, cover, skip, is_blank,
  is_delimiter, is_value_char, before_is, byte_is, is_identifier_char, is_token_char, is_prefix,
}
use duckdb_gdrive.Redact.Pem.{drop-drop}
use duckdb_gdrive.Redact.Prefixed.{starts_run}
use duckdb_gdrive.Redact.Rounds.{IsMoving, dealt_with, redact_each_enough}

find_first_inside :
    (test : Bytes → Bool) (s : Bytes) (k : ℕ)
    → test [] ≡ false
    → find_first test s ≡ some k
    → k < length s
find_first_inside test [] k e h = ground arith
find_first_inside test (c ∷ s) k e h = elim (Bool-cases (test (c ∷ s))) [
  | inl here ↦ ground arith
  | inr later ↦ elim (Option-cases (find_first test s)) [
    | inl none_here ↦ ground arith
    | inr (j, found) ↦ ground (arith, find_first_inside test s j e found)
  ]
]

found_inside :
    (test : Bytes → Bool) (out : Bytes) (from at : ℕ)
    → test [] ≡ false
    → shift from (find_first test (drop from out)) ≡ some at
    → (from ≤ at) × (at < length out)
found_inside test out from at e h = elim (Option-cases (find_first test (drop from out))) [
  | inl f ↦ ground arith
  | inr (k, f) ↦ ground (arith, find_first_inside test (drop from out) k e f, length-drop from out)
]

found_first :
    (test : Bytes → Bool) (s : Bytes) (k : ℕ)
    → test [] ≡ false
    → find_first test s ≡ some k
    → test (drop k s) ≡ true
found_first test [] k e h = ground arith
found_first test (c ∷ s) k e h = elim (Bool-cases (test (c ∷ s))) [
  | inl here ↦ (let zero_is : k ≡ 0 = ground arith in rw zero_is here)
  | inr later ↦ elim (Option-cases (find_first test s)) [
    | inl none_here ↦ ground arith
    | inr (j, found) ↦
        (let next_is : k ≡ suc j = ground arith in rw next_is (found_first test s j e found))
  ]
]

found_there :
    (test : Bytes → Bool) (out : Bytes) (from at : ℕ)
    → test [] ≡ false
    → shift from (find_first test (drop from out)) ≡ some at
    → test (drop at out) ≡ true
found_there test out from at e h = elim (Option-cases (find_first test (drop from out))) [
  | inl f ↦ ground arith
  | inr (k, f) ↦
      let at_is : at ≡ from + k = ground arith in
      rw (at_is, drop-drop from k out) (found_first test (drop from out) k e f)
]

dealt_with-if :
    (b : Bool) (x y : Verdict) (at : ℕ)
    → at < dealt_with x
    → at < dealt_with y
    → at < dealt_with (if b then x else y)
dealt_with-if true x y at h k = h
dealt_with-if false x y at h k = k

keyword_token-IsMoving :
    (c : ℕ) (keyword : Bytes)
    → IsMoving (find_case_insensitive (c ∷ keyword)) (keyword_token (c ∷ keyword))
unfolding keyword_token
keyword_token-IsMoving c keyword out from at h =
    let (low, high) = found_inside (is_prefix_lower (c ∷ keyword)) out from at refl h in
    (
      low,
      high,
      let after = at + length (c ∷ keyword) in
          let start = skip is_blank out after in
          let end = skip (λ d. not (is_space d)) out start in
          dealt_with-if (start == after) (pass after)
            (if end == start then pass after else cover start end) at (omega arith)
            (dealt_with-if (end == start) (pass after) (cover start end) at (omega arith)
              (omega arith)),
    )

key_value-IsMoving :
    (c : ℕ) (key : Bytes) → IsMoving (find_case_insensitive (c ∷ key)) (key_value (c ∷ key))
unfolding key_value
key_value-IsMoving c key out from at h =
    let (low, high) = found_inside (is_prefix_lower (c ∷ key)) out from at refl h in
    (
      low,
      high,
      let match_end = at + length (c ∷ key) in
          let start = skip is_delimiter out match_end in
          let end = skip is_value_char out start in
          let before = not (before_is is_identifier_char out at) in
          let after = not (byte_is is_identifier_char (drop match_end out)) in
          dealt_with-if (not before || not after) (pass match_end)
            (if start == match_end
              then pass match_end
              else if end == start
              then pass match_end
              else cover start end)
            at (omega arith)
            (dealt_with-if (start == match_end) (pass match_end)
              (if end == start then pass match_end else cover start end) at (omega arith)
              (dealt_with-if (end == start) (pass match_end) (cover start end) at (omega arith)
                (omega arith))),
    )

authorization_value-IsMoving :
    IsMoving (find_case_insensitive (codes "authorization")) authorization_value
unfolding authorization_value
authorization_value-IsMoving out from at h =
    let (low, high) = found_inside (is_prefix_lower (codes "authorization")) out from at refl h in
    (
      low,
      high,
      let scheme_start = skip (λ c. c == b':' || is_blank c) out (at + 13) in
          let scheme_end = skip (λ c. not (is_space c)) out scheme_start in
          let start = skip is_blank out scheme_end in
          let end = skip (λ c. not (is_space c)) out start in
          dealt_with-if (scheme_end == scheme_start) (pass scheme_start)
            (if start == scheme_end
              then pass scheme_end
              else if end == start
              then pass scheme_end
              else cover start end)
            at (omega arith)
            (dealt_with-if (start == scheme_end) (pass scheme_end)
              (if end == start then pass scheme_end else cover start end) at (omega arith)
              (dealt_with-if (end == start) (pass scheme_end) (cover start end) at (omega arith)
                (omega arith))),
    )

pub prefixed_run-IsMoving :
    (c : ℕ) (prefix : Bytes) → is_token_char c ≡ true → IsMoving (find (c ∷ prefix)) prefixed_run
prefixed_run-IsMoving c prefix token out from at h =
    let (low, high) = found_inside (is_prefix (c ∷ prefix)) out from at refl h in
    let there = found_there (is_prefix (c ∷ prefix)) out from at refl h in
    let run = starts_run (c ∷ prefix) (drop at out) token there in (low, high, omega arith)

-- Each of the searches has done its work after one round more than the text has bytes: with more
-- rounds it gives the same.
pub redact_keyword_token_enough :
    (c : ℕ) (keyword out : Bytes) (fuel : ℕ)
    → length out < fuel
    → redact_keyword_token (c ∷ keyword) out
      ≡ redact_each (find_case_insensitive (c ∷ keyword)) (keyword_token (c ∷ keyword)) fuel out 0
unfolding redact_keyword_token
redact_keyword_token_enough c keyword out fuel l =
    redact_each_enough (find_case_insensitive (c ∷ keyword)) (keyword_token (c ∷ keyword))
      (suc (length out)) fuel out 0 (keyword_token-IsMoving c keyword) (omega arith) (omega arith)

pub redact_key_value_enough :
    (c : ℕ) (key out : Bytes) (fuel : ℕ)
    → length out < fuel
    → redact_key_value (c ∷ key) out
      ≡ redact_each (find_case_insensitive (c ∷ key)) (key_value (c ∷ key)) fuel out 0
unfolding redact_key_value
redact_key_value_enough c key out fuel l =
    redact_each_enough (find_case_insensitive (c ∷ key)) (key_value (c ∷ key)) (suc (length out))
      fuel out 0 (key_value-IsMoving c key) (omega arith) (omega arith)

pub redact_authorization_header_enough :
    (out : Bytes) (fuel : ℕ)
    → length out < fuel
    → redact_authorization_header out
      ≡ redact_each (find_case_insensitive (codes "authorization")) authorization_value fuel out 0
unfolding redact_authorization_header
redact_authorization_header_enough out fuel l =
    redact_each_enough (find_case_insensitive (codes "authorization")) authorization_value
      (suc (length out)) fuel out 0 authorization_value-IsMoving (omega arith) (omega arith)

pub redact_prefixed_run_enough :
    (c : ℕ) (prefix out : Bytes) (fuel : ℕ)
    → is_token_char c ≡ true
    → length out < fuel
    → redact_prefixed_run (c ∷ prefix) out ≡ redact_each (find (c ∷ prefix)) prefixed_run fuel out 0
unfolding redact_prefixed_run
redact_prefixed_run_enough c prefix out fuel token l =
    redact_each_enough (find (c ∷ prefix)) prefixed_run (suc (length out)) fuel out 0
      (prefixed_run-IsMoving c prefix token) (omega arith) (omega arith)
