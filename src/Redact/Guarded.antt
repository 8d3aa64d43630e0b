-- ===== src/Redact/Guarded.antt =====
-- What the result of RedactCredentials in src/gdrive_errors.cpp cannot contain.
use duckdb_gdrive.Base.{List, [], ◌∷◌, suc, ◌≤◌, ◌≡◌, refl, false, arith, length}
use duckdb_gdrive.Base.Text.{Bytes, codes}
use duckdb_gdrive.Redact.{
  pem_begin, redact_pem, redact_authorization_header, redact_keyword_token, redact_prefixed_run,
  redact_key_value, redact_keys, secret_keys, redact_credentials, keyword_token, key_value,
  authorization_value, find_case_insensitive, prefixed_run, find,
}
use duckdb_gdrive.Redact.Search.{occurs, IsApart}
use duckdb_gdrive.Redact.Rounds.{redact_each-occurs}
use duckdb_gdrive.Redact.Prefixed.{redact_prefixed_run-occurs}
use duckdb_gdrive.Redact.Pem.{hyphens, hyphens_bound, redact_pem-occurs}

-- No PEM block starts in the text, and neither start of a token of Google's stands in it.
pub record IsGuarded (out : Bytes) : Type 0 where
  pub pem : occurs pem_begin out ≡ false
  pub access : occurs (codes "ya29.") out ≡ false
  pub refresh : occurs (codes "1//") out ≡ false

pem-IsApart : IsApart pem_begin
pem-IsApart = record {
  nonempty = refl;
  opening = ground arith;
  closing = ground arith;
  inside = refl;
}

access-IsApart : IsApart (codes "ya29.")
access-IsApart = record {
  nonempty = refl;
  opening = ground arith;
  closing = ground arith;
  inside = refl;
}

refresh-IsApart : IsApart (codes "1//")
refresh-IsApart = record {
  nonempty = refl;
  opening = ground arith;
  closing = ground arith;
  inside = refl;
}

authorization-occurs :
    (p out : Bytes)
    → IsApart p
    → occurs p out ≡ false
    → occurs p (redact_authorization_header out) ≡ false
unfolding redact_authorization_header
authorization-occurs p out =
    redact_each-occurs p (find_case_insensitive (codes "authorization")) authorization_value
      (suc (length out)) out 0

keyword-occurs :
    (p keyword out : Bytes)
    → IsApart p
    → occurs p out ≡ false
    → occurs p (redact_keyword_token keyword out) ≡ false
unfolding redact_keyword_token
keyword-occurs p keyword out =
    redact_each-occurs p (find_case_insensitive keyword) (keyword_token keyword) (suc (length out))
      out 0

prefixed-occurs :
    (p prefix out : Bytes)
    → IsApart p
    → occurs p out ≡ false
    → occurs p (redact_prefixed_run prefix out) ≡ false
unfolding redact_prefixed_run
prefixed-occurs p prefix out =
    redact_each-occurs p (find prefix) prefixed_run (suc (length out)) out 0

key-occurs :
    (p key out : Bytes)
    → IsApart p
    → occurs p out ≡ false
    → occurs p (redact_key_value key out) ≡ false
unfolding redact_key_value
key-occurs p key out =
    redact_each-occurs p (find_case_insensitive key) (key_value key) (suc (length out)) out 0

keys-occurs :
    (p : Bytes) (keys : List Bytes) (out : Bytes)
    → IsApart p
    → occurs p out ≡ false
    → occurs p (redact_keys keys out) ≡ false
unfolding redact_keys
keys-occurs p [] out h l = l
keys-occurs p (key ∷ keys) out h l =
    keys-occurs p keys (redact_key_value key out) h (key-occurs p key out h l)

pub redact_credentials-IsGuarded : (input : Bytes) → IsGuarded (redact_credentials input)
unfolding redact_credentials
redact_credentials-IsGuarded input =
    let bare = redact_pem (suc (length input)) input in
    let headed = redact_authorization_header bare in
    let borne = redact_keyword_token (codes "bearer") headed in
    let accessed = redact_prefixed_run (codes "ya29.") borne in
    let refreshed = redact_prefixed_run (codes "1//") accessed in
    let enough : suc (hyphens input) ≤ suc (length input) =
      (let bound = hyphens_bound input in omega arith) in
    record {
      pem = keys-occurs pem_begin secret_keys refreshed pem-IsApart (
          prefixed-occurs pem_begin (codes "1//") accessed pem-IsApart (
            prefixed-occurs pem_begin (codes "ya29.") borne pem-IsApart (
              keyword-occurs pem_begin (codes "bearer") headed pem-IsApart (
                authorization-occurs pem_begin bare pem-IsApart
                  (redact_pem-occurs (suc (length input)) input enough)))));
      access = keys-occurs (codes "ya29.") secret_keys refreshed access-IsApart (
          prefixed-occurs (codes "ya29.") (codes "1//") accessed access-IsApart
            (redact_prefixed_run-occurs (codes "ya29.") borne access-IsApart refl));
      refresh =
          keys-occurs (codes "1//") secret_keys refreshed refresh-IsApart
            (redact_prefixed_run-occurs (codes "1//") accessed refresh-IsApart refl);
    }
