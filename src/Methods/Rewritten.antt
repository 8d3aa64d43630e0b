-- ===== src/Methods/Rewritten.antt =====
-- The listing that List writes again, read by ParseFileList (src/gdrive_client.cpp).
use duckdb_gdrive.Base.{◌^◌, ◌<◌, ◌≡◌, refl, none, some, List, [], ◌∷◌, ap, All, map, ◌>>=◌}
use duckdb_gdrive.Base.Text.{Bytes, codes, eqb}
use duckdb_gdrive.Base.Int.{ℤ, pos, negsuc, pos_part}
use duckdb_gdrive.Json.{Parser, find, as_object}
use duckdb_gdrive.Client.{
  DriveFileMeta, parse_file_meta_object, get_int64_from_string, file_entries, parse_file_list,
}
use duckdb_gdrive.Client.Integers.{strtoll-to_string}
use duckdb_gdrive.Base.Decimal.{to_string_nonempty}
use duckdb_gdrive.Methods.{size_field, file_entry, file_items, listing_json}

-- A size that int64_t holds.
abbrev pub Fits : DriveFileMeta → Type 0
Fits f = pos_part f.size < 2 ^ 63

-- A size below zero is an unknown one, and comes back as -1.
abbrev pub known_size : ℤ → ℤ
known_size (pos n) = pos n
known_size (negsuc n) = negsuc 0

abbrev pub relisted : DriveFileMeta → DriveFileMeta
relisted f = record f { size = known_size f.size }

size-read :
    (i : ℤ)
    → pos_part i < 2 ^ 63
    → elim (get_int64_from_string (codes "size") (size_field i)) [ none ↦ negsuc 0 | some n ↦ n ]
      ≡ known_size i
unfolding get_int64_from_string find eqb
size-read (negsuc n) h = refl
size-read (pos n) h = rw (get_int64_from_string, find, to_string_nonempty n, strtoll-to_string n h)

file_entry-read :
    (f : DriveFileMeta)
    → Fits f
    → (as_object (file_entry f) >>= parse_file_meta_object) ≡ some (relisted f)
unfolding file_entry parse_file_meta_object get_int64_from_string find eqb
file_entry-read f h = ap (λ (i : ℤ). some (record f { size = i })) (size-read f.size h)

file_items-read :
    (files : List DriveFileMeta)
    → All Fits files
    → file_entries (file_items files) ≡ map relisted files
unfolding file_items file_entries
file_items-read [] h = refl
file_items-read (f ∷ files) h =
    rw (file_items, file_entries, file_entry-read f h.0, file_items-read files h.1)

-- Where the parser gives back the value that List has written, ParseFileList reads from it the files of
-- the listing, in order and with no further page: all fields are kept, an unknown size as -1.
pub listing_json_roundtrip :
    (parse : Parser) (body : Bytes) (files : List DriveFileMeta)
    → All Fits files
    → parse body ≡ some (listing_json files)
    → parse_file_list parse body ≡ some (map relisted files, [])
unfolding listing_json parse_file_list find eqb
listing_json_roundtrip parse body files h read = rw (read, file_items-read files h)
