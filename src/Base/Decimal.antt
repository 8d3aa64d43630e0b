-- ===== src/Base/Decimal.antt =====
-- std::to_string on unsigned numbers, and the value of a run of decimal digits.
use Prim.Native.Nat.{ℕ, zero, suc, ◌+◌, ◌-◌, ◌*◌, ◌/◌, ◌%◌, ◌≤◌, ◌<◌}
use mathlib.Core.Path.{◌≡◌, refl}
use mathlib.Core.Bool.{false}
use mathlib.Core.List.{[], ◌∷◌, ◌++◌}
use native.Mathlib.Omega.{arith}
use duckdb_gdrive.Base.Tests.{ltb, if◌then◌else◌}
use duckdb_gdrive.Base.Lists.{All, All-append}
use duckdb_gdrive.Base.Text.{Bytes, is_empty}

abbrev pub IsDigit : ℕ → Type 0
IsDigit c = (48 ≤ c) × (c ≤ 57)

-- The digits of n, most significant first; each round drops the last one, so n itself is fuel.
digits : ℕ → ℕ → Bytes
digits zero n = []
digits (suc f) n =
    let front = digits f (n / 10) in if ltb n 10 then (48 + n) ∷ [] else front ++ (48 + n % 10) ∷ []

unfoldable pub to_string : ℕ → Bytes
unfolding digits
to_string n = digits (n + 1) n

-- The number that a run of digits denotes, read from the left onto an accumulator.
abbrev pub value_from : ℕ → Bytes → ℕ
value_from acc [] = acc
value_from acc (c ∷ cs) = value_from (acc * 10 + (c - 48)) cs

abbrev pub value : Bytes → ℕ
value cs = value_from 0 cs

value_from-append :
    (acc : ℕ) (xs ys : Bytes) → value_from acc (xs ++ ys) ≡ value_from (value_from acc xs) ys
value_from-append acc [] ys = refl
value_from-append acc (x ∷ xs) ys = value_from-append (acc * 10 + (x - 48)) xs ys

digits-value : (f n : ℕ) → n < f → value (digits f n) ≡ n
unfolding digits
digits-value zero n h = absurd (omega arith)
digits-value (suc f) n h =
    ground
      (arith, value_from-append 0 (digits f (n / 10)) ((48 + n % 10) ∷ []), digits-value f (n / 10))

digits-IsDigit : (f n : ℕ) → All IsDigit (digits f n)
unfolding digits
digits-IsDigit zero n = tt
digits-IsDigit (suc f) n = ground (
  arith,
  All-append IsDigit (digits f (n / 10)) ((48 + n % 10) ∷ []) (digits-IsDigit f (n / 10))
      (omega arith),
)

pub value-to_string : (n : ℕ) → value (to_string n) ≡ n
unfolding to_string
value-to_string n = digits-value (n + 1) n (omega arith)

pub to_string-IsDigit : (n : ℕ) → All IsDigit (to_string n)
unfolding to_string
to_string-IsDigit n = digits-IsDigit (n + 1) n

is_empty-append : (s : Bytes) (c : ℕ) → is_empty (s ++ c ∷ []) ≡ false
is_empty-append [] c = refl
is_empty-append (d ∷ s) c = refl

digits_nonempty : (f n : ℕ) → 0 < f → is_empty (digits f n) ≡ false
unfolding digits
digits_nonempty zero n h = absurd (omega arith)
digits_nonempty (suc f) n h = ground (arith, is_empty-append (digits f (n / 10)) (48 + n % 10))

pub to_string_nonempty : (n : ℕ) → is_empty (to_string n) ≡ false
unfolding to_string
to_string_nonempty n = digits_nonempty (n + 1) n (omega arith)
