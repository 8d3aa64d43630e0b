-- ===== src/Encode/RoundTrip.antt =====
-- The escapes of the client in src/gdrive_client.cpp against decoders of JSON strings (RFC 8259) and of
-- percent-encoding (RFC 3986).
use duckdb_gdrive.Base.{
  ℕ, zero, suc, ◌+◌, ◌-◌, ◌*◌, ◌/◌, ◌%◌, ◌<◌, ◌≡◌, refl, ◌⊎◌, inl, inr, true, false, ◌&&◌, ◌||◌,
  Option, none, some, [], ◌∷◌, ◌++◌, arith, ltb, leb, ◌==◌, if◌then◌else◌, ◌>>=◌, length, All,
  Bool-cases, ==_iff, ltb→lt,
}
use duckdb_gdrive.Base.Text.{Bytes}
use duckdb_gdrive.Client.{is_unreserved, hex_digit, url_encode}
use duckdb_gdrive.Encode.{lower_hex_digit, escape_byte, json_escape}

-- The value of a hexadecimal digit of either case.
abbrev pub hex_value : ℕ → Option ℕ
hex_value c =
    if leb b'0' c && leb c b'9'
    then some (c - b'0')
    else if leb b'a' c && leb c b'f'
    then some (c - b'a' + 10)
    else if leb b'A' c && leb c b'F'
    then some (c - b'A' + 10)
    else none

abbrev pub hex_byte : ℕ → ℕ → Option ℕ
hex_byte a b = do high ← hex_value a; low ← hex_value b; some (16 * high + low)

-- \u00 and two digits
unicode_escape : Bytes → Option (ℕ × Bytes)
unicode_escape (z ∷ z' ∷ a ∷ b ∷ s) =
    if z == b'0' && z' == b'0' then hex_byte a b >>= (λ c. some (c, s)) else none
unicode_escape _ = none

-- What follows a backslash, and the rest of the text.
escaped : Bytes → Option (ℕ × Bytes)
unfolding unicode_escape
escaped [] = none
escaped (c ∷ s) =
    if c == b'"' || c == b'\\'
    then some (c, s)
    else if c == b'n'
    then some (10, s)
    else if c == b'r'
    then some (13, s)
    else if c == b't'
    then some (9, s)
    else if c == b'u'
    then unicode_escape s
    else none

-- The characters of a JSON string, read back: a quotation mark or a control character ends the string
-- and is refused.
unfoldable pub json_unescape : ℕ → Bytes → Option Bytes
unfolding escaped
json_unescape zero s = none
json_unescape (suc fuel) [] = some []
json_unescape (suc fuel) (c ∷ s) =
    if c == b'\\'
    then escaped s >>= (λ (p : ℕ × Bytes). json_unescape fuel p.1 >>= λ t. some (p.0 ∷ t))
    else if c == b'"' || ltb c 32
    then none
    else json_unescape fuel s >>= λ t. some (c ∷ t)

hex_value-lower_hex_digit : (n : ℕ) → n < 16 → hex_value (lower_hex_digit n) ≡ some n
hex_value-lower_hex_digit n h = ground arith

hex_byte-control :
    (c : ℕ) → c < 32 → hex_byte (lower_hex_digit (c / 16)) (lower_hex_digit (c % 16)) ≡ some c
hex_byte-control c h =
    let whole : 16 * (c / 16) + c % 16 ≡ c = omega arith in
    rw (
      hex_value-lower_hex_digit (c / 16) (omega arith),
      hex_value-lower_hex_digit (c % 16) (omega arith),
      whole,
    )

json_unescape-escape_byte :
    (fuel c : ℕ) (s : Bytes)
    → json_unescape (suc fuel) (escape_byte c ++ s) ≡ (json_unescape fuel s >>= λ t. some (c ∷ t))
unfolding json_unescape escaped unicode_escape escape_byte
json_unescape-escape_byte fuel c s = elim (Bool-cases (c == b'"')) [
  | inl e ↦ rw ((==_iff c b'"').0 e) refl
  | inr e0 ↦ elim (Bool-cases (c == b'\\')) [
    | inl e ↦ rw ((==_iff c b'\\').0 e) refl
    | inr e1 ↦ elim (Bool-cases (c == 10)) [
      | inl e ↦ rw ((==_iff c 10).0 e) refl
      | inr e2 ↦ elim (Bool-cases (c == 13)) [
        | inl e ↦ rw ((==_iff c 13).0 e) refl
        | inr e3 ↦ elim (Bool-cases (c == 9)) [
          | inl e ↦ rw ((==_iff c 9).0 e) refl
          | inr e4 ↦ elim (Bool-cases (ltb c 32)) [
            | inl e ↦
                rw (escape_byte, e0, e1, e2, e3, e4, e)
                  (rw (hex_byte-control c (ltb→lt c 32 e)) refl)
            | inr e ↦ rw (escape_byte, e0, e1, e2, e3, e4, e) (rw (json_unescape, e1, e0, e) refl)
          ]
        ]
      ]
    ]
  ]
]

-- A string that JsonEscape writes is read back as it was by a reader of JSON strings, which refuses an
-- unescaped quotation mark or control character.
pub json_escape_roundtrip :
    (s : Bytes) (fuel : ℕ) → length s < fuel → json_unescape fuel (json_escape s) ≡ some s
unfolding json_escape json_unescape
json_escape_roundtrip [] (suc fuel) h = refl
json_escape_roundtrip (c ∷ s) (suc fuel) h =
    rw
      (json_unescape-escape_byte fuel c (json_escape s), json_escape_roundtrip s fuel (omega arith))
json_escape_roundtrip s zero h = absurd (omega arith)

-- The two digits after a percent sign, and the rest of the text.
percent_byte : Bytes → Option (ℕ × Bytes)
percent_byte (a ∷ b ∷ s) = hex_byte a b >>= λ c. some (c, s)
percent_byte _ = none

-- Percent-decoding.
unfoldable pub url_decode : ℕ → Bytes → Option Bytes
unfolding percent_byte
url_decode zero s = none
url_decode (suc fuel) [] = some []
url_decode (suc fuel) (c ∷ s) =
    if c == b'%'
    then percent_byte s >>= (λ (p : ℕ × Bytes). url_decode fuel p.1 >>= λ t. some (p.0 ∷ t))
    else url_decode fuel s >>= λ t. some (c ∷ t)

hex_value-hex_digit : (n : ℕ) → n < 16 → hex_value (hex_digit n) ≡ some n
hex_value-hex_digit n h = ground arith

hex_byte-hex_digit :
    (c : ℕ) → c < 256 → hex_byte (hex_digit (c / 16 % 16)) (hex_digit (c % 16)) ≡ some c
hex_byte-hex_digit c h =
    let whole : 16 * (c / 16 % 16) + c % 16 ≡ c = omega arith in
    rw (
      hex_value-hex_digit (c / 16 % 16) (omega arith),
      hex_value-hex_digit (c % 16) (omega arith),
      whole,
    )

-- A byte that stands for itself in the query of a URL, or begins an escape.
abbrev pub IsUrlByte : ℕ → Type 0
IsUrlByte c = (is_unreserved c ≡ true) ⊎ (c ≡ b'%')

hex_digit-IsUrlByte : (n : ℕ) → n < 16 → IsUrlByte (hex_digit n)
hex_digit-IsUrlByte n h = inl (ground arith)

pub url_encode-IsUrlByte : (s : Bytes) → All IsUrlByte (url_encode s)
unfolding url_encode
url_encode-IsUrlByte [] = tt
url_encode-IsUrlByte (c ∷ s) = elim (Bool-cases (is_unreserved c)) [
  | inl plain ↦ rw (plain, url_encode) (inl plain, url_encode-IsUrlByte s)
  | inr escape ↦
      rw (escape, url_encode)
        (
          inr refl,
          (
            hex_digit-IsUrlByte (c / 16 % 16) (omega arith),
            (hex_digit-IsUrlByte (c % 16) (omega arith), url_encode-IsUrlByte s),
          ),
        )
]

url_decode-encode :
    (s : Bytes) (fuel : ℕ)
    → All (λ c. c < 256) s
    → length s < fuel
    → url_decode fuel (url_encode s) ≡ some s
unfolding url_encode url_decode percent_byte
url_decode-encode s zero bytes h = absurd (omega arith)
url_decode-encode [] (suc fuel) bytes h = refl
url_decode-encode (c ∷ s) (suc fuel) bytes h = elim (Bool-cases (is_unreserved c)) [
  | inl plain ↦
      let other : (c == b'%') ≡ false = ground arith in
      rw (plain, url_encode, url_decode, other, url_decode-encode s fuel bytes.1 (omega arith))
  | inr escape ↦ rw (
    escape,
    url_encode,
    url_decode,
    percent_byte,
    hex_byte-hex_digit c bytes.0,
    url_decode-encode s fuel bytes.1 (omega arith),
  )
]

-- UrlEncode writes only unreserved characters and percent signs, so that no byte of a value ends a
-- parameter or begins another, and percent-decoding gives the bytes of the value back.
pub url_encode_roundtrip :
    (s : Bytes)
    → All (λ c. c < 256) s
    → All IsUrlByte (url_encode s) × (url_decode (length s + 1) (url_encode s) ≡ some s)
url_encode_roundtrip s bytes =
    (url_encode-IsUrlByte s, url_decode-encode s (length s + 1) bytes (omega arith))
