-- ===== src/Client/Integers.antt =====
-- strtoll on what std::to_string writes (src/gdrive_client.cpp reads the size of a file with it).
use duckdb_gdrive.Base.{ℕ, ◌^◌, ◌<◌, ◌≡◌, refl, false, some, [], ◌∷◌, arith, All, ap, ◌∙◌}
use duckdb_gdrive.Base.Text.{Bytes, is_empty}
use duckdb_gdrive.Base.Decimal.{
  IsDigit, to_string, value, value-to_string, to_string_nonempty, to_string-IsDigit,
}
use duckdb_gdrive.Base.Int.{pos}
use duckdb_gdrive.Client.{
  is_space, skip_space, leading_digits, unsigned_part, signed_value, after_sign, strtoll,
}

leading_digits-all : (s : Bytes) → All IsDigit s → leading_digits s ≡ s
unfolding leading_digits
leading_digits-all [] h = refl
leading_digits-all (c ∷ s) h = ground (arith, leading_digits-all s h.1)

strtoll-digits :
    (s : Bytes)
    → All IsDigit s
    → is_empty s ≡ false
    → value s < 2 ^ 63
    → strtoll s ≡ some (pos (value s))
unfolding strtoll skip_space after_sign unsigned_part signed_value
strtoll-digits [] h e small = cc
strtoll-digits (c ∷ s) h e small =
    let plain : is_space c ≡ false = ground (arith, h.0) in
    let all = leading_digits-all (c ∷ s) h in ground (arith, plain, all, h.0)

pub strtoll-to_string : (n : ℕ) → n < 2 ^ 63 → strtoll (to_string n) ≡ some (pos n)
strtoll-to_string n h =
    strtoll-digits (to_string n) (to_string-IsDigit n) (to_string_nonempty n)
      (rw (value-to_string n) h)
    ∙ ap (λ m. some (pos m)) (value-to_string n)
