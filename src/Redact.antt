-- ===== src/Redact.antt =====
-- RedactCredentials of src/gdrive_errors.cpp: what a message loses before it is shown. A search and its
-- replacements run on fuel, one round more than the text has bytes. Characters are those of the C locale.
pub mod Search
pub mod Rounds
pub mod Prefixed
pub mod Pem
pub mod Guarded
pub mod Rules
use duckdb_gdrive.Base.{
  ℕ, zero, suc, ◌+◌, Bool, true, false, not, ◌&&◌, ◌||◌, Option, none, some, [], ◌∷◌, ◌++◌, List,
  leb, ◌==◌, if◌then◌else◌, length, take, drop,
}
use duckdb_gdrive.Base.Text.{Bytes, codes, is_empty}
use duckdb_gdrive.Client.{is_alnum, is_space}

abbrev pub is_prefix : Bytes → Bytes → Bool
is_prefix [] s = true
is_prefix (p ∷ ps) [] = false
is_prefix (p ∷ ps) (c ∷ s) = (p == c) && is_prefix ps s

-- The first position from which the text passes a test.
abbrev pub find_first : (Bytes → Bool) → Bytes → Option ℕ
find_first test [] = if test [] then some 0 else none
find_first test (c ∷ s) =
    let later = find_first test s in
    if test (c ∷ s) then some 0 else elim later [ none ↦ none | some k ↦ some (suc k) ]

abbrev pub shift : ℕ → Option ℕ → Option ℕ
shift n none = none
shift n (some k) = some (n + k)

-- std::string::find(needle, from)
abbrev pub find : Bytes → Bytes → ℕ → Option ℕ
find needle out from = shift from (find_first (is_prefix needle) (drop from out))

-- std::tolower
abbrev to_lower : ℕ → ℕ
to_lower c = if leb b'A' c && leb c b'Z' then c + 32 else c

abbrev pub is_prefix_lower : Bytes → Bytes → Bool
is_prefix_lower [] s = true
is_prefix_lower (p ∷ ps) [] = false
is_prefix_lower (p ∷ ps) (c ∷ s) = (to_lower c == p) && is_prefix_lower ps s

abbrev pub find_case_insensitive : Bytes → Bytes → ℕ → Option ℕ
find_case_insensitive needle_lower out from =
    shift from (find_first (is_prefix_lower needle_lower) (drop from out))

abbrev is_identifier_char : ℕ → Bool
is_identifier_char c = is_alnum c || c == b'_'

abbrev pub redacted : Bytes
redacted = codes "[redacted]"

-- The bytes at the front that are of a kind.
abbrev pub run_length : (ℕ → Bool) → Bytes → ℕ
run_length kind [] = 0
run_length kind (c ∷ s) = let rest = run_length kind s in if kind c then suc rest else 0

-- A loop that moves a position past the bytes of a kind.
abbrev pub skip : (ℕ → Bool) → Bytes → ℕ → ℕ
skip kind out at = at + run_length kind (drop at out)

-- out.replace(start, end - start, kRedacted)
abbrev pub replace : Bytes → ℕ → ℕ → Bytes
replace out start end = take start out ++ (redacted ++ drop end out)

-- What a round of a search does with its match: it goes on at a position, or covers the bytes from
-- start up to end and goes on behind them.
pub data Verdict : Type 0 where
  pass : ℕ → Verdict
  cover : ℕ → ℕ → Verdict

abbrev pub follow : (Bytes → ℕ → Bytes) → Bytes → Verdict → Bytes
follow again out (pass next) = again out next
follow again out (cover start end) = again (replace out start end) (start + length redacted)

unfoldable pub redact_each : (Bytes → ℕ → Option ℕ) → (Bytes → ℕ → Verdict) → ℕ → Bytes → ℕ → Bytes
redact_each seek judge zero out at = out
redact_each seek judge (suc fuel) out at = elim (seek out at) [
  | none ↦ out
  | some found ↦ follow (redact_each seek judge fuel) out (judge out found)
]

abbrev redact_all : (Bytes → ℕ → Option ℕ) → (Bytes → ℕ → Verdict) → Bytes → Bytes
redact_all seek judge out = redact_each seek judge (suc (length out)) out 0

abbrev is_blank : ℕ → Bool
is_blank c = c == b' ' || c == 9

unfoldable pub keyword_token : Bytes → Bytes → ℕ → Verdict
keyword_token keyword_lower out at =
    let after_keyword = at + length keyword_lower in
    let token_start = skip is_blank out after_keyword in
    let token_end = skip (λ c. not (is_space c)) out token_start in
    if token_start == after_keyword
    then pass after_keyword
    else if token_end == token_start
    then pass after_keyword
    else cover token_start token_end

unfoldable pub redact_keyword_token : Bytes → Bytes → Bytes
unfolding redact_each keyword_token
redact_keyword_token keyword_lower =
    redact_all (find_case_insensitive keyword_lower) (keyword_token keyword_lower)

abbrev pub is_token_char : ℕ → Bool
is_token_char c = is_alnum c || c == b'.' || c == b'-' || c == b'_' || c == b'/'

abbrev pub prefixed_run : Bytes → ℕ → Verdict
prefixed_run out at = cover at (skip is_token_char out at)

unfoldable pub redact_prefixed_run : Bytes → Bytes → Bytes
unfolding redact_each
redact_prefixed_run prefix = redact_all (find prefix) prefixed_run

-- out[at], where there is one.
byte_is : (ℕ → Bool) → Bytes → Bool
byte_is kind [] = false
byte_is kind (c ∷ _) = kind c

before_is : (ℕ → Bool) → Bytes → ℕ → Bool
unfolding byte_is
before_is kind out zero = false
before_is kind out (suc at) = byte_is kind (drop at out)

is_delimiter : ℕ → Bool
is_delimiter c = c == b'"' || c == 39 || c == b':' || c == b'=' || c == b' ' || c == 9

is_value_char : ℕ → Bool
is_value_char c = not (c == b'"' || c == 39 || c == b',' || c == b'}' || c == b'&' || is_space c)

unfoldable pub key_value : Bytes → Bytes → ℕ → Verdict
unfolding byte_is before_is is_delimiter is_value_char
key_value key_lower out at =
    let match_end = at + length key_lower in
    let boundary_before = not (before_is is_identifier_char out at) in
    let boundary_after = not (byte_is is_identifier_char (drop match_end out)) in
    let value_start = skip is_delimiter out match_end in
    let value_end = skip is_value_char out value_start in
    if not boundary_before || not boundary_after
    then pass match_end
    else if value_start == match_end
    then pass match_end
    else if value_end == value_start
    then pass match_end
    else cover value_start value_end

unfoldable pub redact_key_value : Bytes → Bytes → Bytes
unfolding redact_each key_value
redact_key_value key_lower = redact_all (find_case_insensitive key_lower) (key_value key_lower)

unfoldable pub authorization_value : Bytes → ℕ → Verdict
authorization_value out at =
    let scheme_start =
      skip (λ c. c == b':' || is_blank c) out (at + length (codes "authorization")) in
    let scheme_end = skip (λ c. not (is_space c)) out scheme_start in
    let value_start = skip is_blank out scheme_end in
    let value_end = skip (λ c. not (is_space c)) out value_start in
    if scheme_end == scheme_start
    then pass scheme_start
    else if value_start == scheme_end
    then pass scheme_end
    else if value_end == value_start
    then pass scheme_end
    else cover value_start value_end

unfoldable pub redact_authorization_header : Bytes → Bytes
unfolding redact_each authorization_value
redact_authorization_header =
    redact_all (find_case_insensitive (codes "authorization")) authorization_value

abbrev pub pem_begin : Bytes
pem_begin = codes "-----BEGIN"

-- Where the block ends that starts at a position.
unfoldable pub pem_end : Bytes → ℕ → ℕ
pem_end out begin_pos = elim (find (codes "-----END") out begin_pos) [
  | none ↦ length out
  | some end_marker ↦ elim (find (codes "-----") out (end_marker + 8)) [
    | none ↦ length out
    | some trailer ↦ trailer + 5
  ]
]

unfoldable pub redact_pem : ℕ → Bytes → Bytes
unfolding pem_end
redact_pem zero out = out
redact_pem (suc fuel) out = elim (find pem_begin out 0) [
  | none ↦ out
  | some begin_pos ↦ redact_pem fuel (replace out begin_pos (pem_end out begin_pos))
]

abbrev pub secret_keys : List Bytes
secret_keys =
    codes "access_token"
    ∷ codes "refresh_token"
    ∷ codes "private_key"
    ∷ codes "client_secret"
    ∷ codes "id_token"
    ∷ []

unfoldable pub redact_keys : List Bytes → Bytes → Bytes
unfolding redact_key_value
redact_keys [] out = out
redact_keys (key ∷ keys) out = redact_keys keys (redact_key_value key out)

unfoldable pub redact_credentials : Bytes → Bytes
unfolding redact_pem redact_authorization_header redact_keyword_token redact_prefixed_run
    redact_keys
redact_credentials input =
    let out = redact_pem (suc (length input)) input in
    let out = redact_authorization_header out in
    let out = redact_keyword_token (codes "bearer") out in
    let out = redact_prefixed_run (codes "ya29.") out in
    let out = redact_prefixed_run (codes "1//") out in redact_keys secret_keys out
