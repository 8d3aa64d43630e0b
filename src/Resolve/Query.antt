-- ===== src/Resolve/Query.antt =====
-- The queries of src/gdrive_filesystem.cpp against a reader of Drive's string literals.
use duckdb_gdrive.Base.{
  ℕ, zero, suc, ◌+◌, ◌<◌, ◌≡◌, refl, inl, inr, Bool, false, ◌||◌, Option, none, some, [], ◌∷◌, ◌++◌,
  arith, ◌==◌, if◌then◌else◌, ◌>>=◌, length, Bool-cases, append_assoc, ap, ◌∙◌,
}
use duckdb_gdrive.Base.Text.{Bytes, codes, strip_prefix?, strip_prefix?-append}
use duckdb_gdrive.Resolve.{escape_drive_query_literal, name_query}

abbrev pub add_first : ℕ → Option (Bytes × Bytes) → Option (Bytes × Bytes)
add_first c none = none
add_first c (some (value, rest)) = some (c ∷ value, rest)

-- The inside of a literal up to its closing quotation mark, and what follows that: a backslash makes an
-- ordinary character of the one after it.
unfoldable pub read_literal : ℕ → Bytes → Option (Bytes × Bytes)
read_literal zero s = none
read_literal (suc fuel) [] = none
read_literal (suc fuel) (c ∷ []) = if c == b'\'' then some ([], []) else none
read_literal (suc fuel) (c ∷ d ∷ s) =
    if c == b'\''
    then some ([], d ∷ s)
    else if c == b'\\'
    then add_first d (read_literal fuel s)
    else add_first c (read_literal fuel (d ∷ s))

read_literal-plain :
    (fuel c : ℕ) (s rest : Bytes)
    → (c == b'\'') ≡ false
    → (c == b'\\') ≡ false
    → read_literal (suc fuel) (c ∷ (s ++ b'\'' ∷ rest))
      ≡ add_first c (read_literal fuel (s ++ b'\'' ∷ rest))
unfolding read_literal
read_literal-plain fuel c [] rest q b = rw (q, b) refl
read_literal-plain fuel c (d ∷ s) rest q b = rw (q, b) refl

read_literal-escape :
    (fuel : ℕ) (s rest : Bytes)
    → length s < fuel
    → read_literal fuel (escape_drive_query_literal s ++ b'\'' ∷ rest) ≡ some (s, rest)
unfolding read_literal escape_drive_query_literal
read_literal-escape zero s rest h = absurd (omega arith)
read_literal-escape (suc fuel) [] [] h = refl
read_literal-escape (suc fuel) [] (c ∷ rest) h = refl
read_literal-escape (suc fuel) (c ∷ s) rest h = elim (Bool-cases (c == b'\\' || c == b'\'')) [
  | inl special ↦
      rw
        (
          special,
          escape_drive_query_literal,
          read_literal,
          read_literal-escape fuel s rest (omega arith),
        )
        refl
  | inr plain ↦
      let quote : (c == b'\'') ≡ false = ground arith in
      let backslash : (c == b'\\') ≡ false = ground arith in
      rw (plain, escape_drive_query_literal)
        (read_literal-plain fuel c (escape_drive_query_literal s) rest quote backslash
          ∙ ap (add_first c) (read_literal-escape fuel s rest (omega arith)))
]

-- What the query says after the name.
abbrev pub query_end : Bool → Bytes
query_end require_folder =
    codes " and trashed=false"
    ++ (if require_folder then codes " and mimeType='application/vnd.google-apps.folder'" else [])

-- The query for a name asks for that name and no other: Drive's reader of literals takes the name out of
-- it as it was, quotation marks and backslashes included, and finds after it the rest of the query as it
-- was meant.
pub name_query_roundtrip :
    (parent_id name : Bytes) (require_folder : Bool)
    → (strip_prefix?
          (codes "'" ++ parent_id ++ codes "' in parents and name='")
          (name_query parent_id name require_folder)
        >>= read_literal (length name + 1))
      ≡ some (name, query_end require_folder)
unfolding name_query
name_query_roundtrip parent_id name require_folder =
    let before = codes "'" ++ parent_id ++ codes "' in parents and name='" in
    let name_text = escape_drive_query_literal name in
    let shape : name_query parent_id name require_folder
        ≡ before ++ (name_text ++ b'\'' ∷ query_end require_folder) =
      append_assoc (before ++ name_text) (codes "' and trashed=false") _
      ∙ append_assoc before name_text _ in
    ap (λ (q : Bytes). strip_prefix? before q >>= read_literal (length name + 1)) shape
    ∙ rw (strip_prefix?-append before (name_text ++ b'\'' ∷ query_end require_folder))
        (read_literal-escape (length name + 1) name (query_end require_folder) (omega arith))
