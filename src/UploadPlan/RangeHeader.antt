-- ===== src/UploadPlan/RangeHeader.antt =====
-- The Range header of a 308 reply (ParseDigits, ParseDriveRangeNext).
use native.Mathlib.Nat.{pow-le-pow_right, pow-suc}
use duckdb_gdrive.Base.{
  ℕ, suc, ◌+◌, ◌-◌, ◌*◌, ◌^◌, ◌≤◌, ◌<◌, ◌≡◌, refl, ◌↔◌, inl, inr, false, ◌&&◌, some, [], ◌∷◌, ◌++◌,
  append-nil, arith, All, length, ◌>>=◌, ◌>>◌, guard, >>=-eq-some, Bool-cases, not, ltb, ◌==◌, sym,
  ap, ◌∙◌,
}
use duckdb_gdrive.Base.Text.{
  Bytes, codes, is_empty, strip_prefix?, strip_prefix?-append, strip_prefix?-eq-some,
}
use duckdb_gdrive.Base.Decimal.{IsDigit, value, value_from}
use duckdb_gdrive.UploadPlan.{
  parse_digits_loop, parse_digits, range_tail, parse_drive_range_next, wrap64, uint64_max, is_digit,
}

-- The text goes on with something that is no digit, or ends.
abbrev pub Stops : Bytes → Type 0
Stops [] = Unit {0}
Stops (c ∷ s) = is_digit c ≡ false

-- A decimal number of at most nineteen digits, which is below 2 ^ 64.
pub record IsNumber (ds : Bytes) : Type 0 where
  pub all_digits : All IsDigit ds
  pub some_digit : 1 ≤ length ds
  pub few_digits : length ds ≤ 19

pow-step : (n : ℕ) → 10 ^ (n + 1) ≡ 10 ^ n * 10
pow-step n = let e : n + 1 ≡ suc n = omega arith in rw e (pow-suc 10 n)

-- One more digit stays within nineteen, so the 64-bit arithmetic does not wrap.
next_value_lt :
    (taken v c : ℕ)
    → v < 10 ^ taken
    → taken < 19
    → IsDigit c
    → (v * 10 + (c - 48) < 10 ^ (taken + 1)) × (wrap64 (v * 10 + (c - 48)) ≡ v * 10 + (c - 48))
next_value_lt taken v c hv ht hc =
    let bound : 10 ^ taken ≤ 10 ^ 18 = pow-le-pow_right (omega arith) {j = 18} (omega arith) in
    (omega (arith, pow-step taken), omega arith)

-- What a run of the digit loop has read.
abbrev Reads : ℕ → ℕ → Bytes → ℕ → ℕ → Bytes → Type 0
Reads taken v s n v' rest =
    (ds : Bytes) × (s ≡ ds ++ rest)
    × All IsDigit ds
    × (n ≡ taken + length ds)
    × (n ≤ 19)
    × (v' ≡ value_from v ds)

loop-Reads :
    (taken v : ℕ) (s : Bytes) (n v' : ℕ) (rest : Bytes)
    → v < 10 ^ taken
    → taken ≤ 19
    → parse_digits_loop taken v s ≡ some (n, v', rest)
    → Reads taken v s n v' rest
unfolding parse_digits_loop
loop-Reads taken v [] n v' rest hv ht h =
    ([], ground arith, tt, ground arith, ground arith, ground arith)
loop-Reads taken v (c ∷ s) n v' rest hv ht h = elim (Bool-cases (is_digit c)) [
  | inr stop ↦ ([], ground arith, tt, ground arith, ground arith, ground arith)
  | inl digit ↦
      let room : taken < 19 = ground arith in
      let here : IsDigit c = ground arith in
      let (bound, fits) = next_value_lt taken v c hv room here in
      let onward : parse_digits_loop (taken + 1) (v * 10 + (c - 48)) s ≡ some (n, v', rest) =
        ground arith in
      let (ds, e, all, count, most, val) =
        loop-Reads (taken + 1) (v * 10 + (c - 48)) s n v' rest bound (omega arith) onward in
      (c ∷ ds, cc, (here, all), omega arith, most, val)
]

loop-digits :
    (taken v : ℕ) (ds rest : Bytes)
    → v < 10 ^ taken
    → All IsDigit ds
    → taken + length ds ≤ 19
    → Stops rest
    → parse_digits_loop taken v (ds ++ rest) ≡ some (taken + length ds, value_from v ds, rest)
unfolding parse_digits_loop
loop-digits taken v [] [] hv hd hl stop = ground arith
loop-digits taken v [] (c ∷ rest) hv hd hl stop = ground arith
loop-digits taken v (c ∷ ds) rest hv (here, more) hl stop =
    let (bound, fits) = next_value_lt taken v c hv (omega arith) here in
    rw fits (
      ground
        (arith, loop-digits (taken + 1) (v * 10 + (c - 48)) ds rest bound more (omega arith) stop))

value_from-lt :
    (taken v : ℕ) (ds : Bytes)
    → v < 10 ^ taken
    → All IsDigit ds
    → value_from v ds < 10 ^ (taken + length ds)
value_from-lt taken v [] hv hd = let e : taken + 0 ≡ taken = omega arith in rw e hv
value_from-lt taken v (c ∷ ds) hv (here, more) =
    let e : taken + suc (length ds) ≡ taken + 1 + length ds = omega arith in
    rw e (value_from-lt (taken + 1) (v * 10 + (c - 48)) ds (omega (arith, pow-step taken)) more)

value-lt : (ds : Bytes) → IsNumber ds → value ds < 10 ^ 19
value-lt ds n =
    let small : value ds < 10 ^ (0 + length ds) = value_from-lt 0 0 ds (omega arith) n.all_digits in
    let e : 0 + length ds ≡ length ds = omega arith in
    let most : 10 ^ length ds ≤ 10 ^ 19 = pow-le-pow_right (omega arith) {j = 19} n.few_digits in
    let small' : value ds < 10 ^ length ds = rw e at small in omega arith

-- ParseDigits accepts a number of one to nineteen digits, and stops right behind it.
pub parse_digits-IsNumber :
    (s : Bytes) (v : ℕ) (rest : Bytes)
    → parse_digits s ≡ some (v, rest)
    → (ds : Bytes) × (s ≡ ds ++ rest) × IsNumber ds × (v ≡ value ds)
unfolding parse_digits
parse_digits-IsNumber s v rest h =
    let (read, e, k) = >>=-eq-some (parse_digits_loop 0 0 s) _ h in
    let (ds, split, all, count, most, val) =
      loop-Reads 0 0 s read.0 read.1 read.2 (omega arith) (omega arith) e in
    (
      ds,
      ground arith,
      record { all_digits = all; some_digit = ground arith; few_digits = omega arith },
      ground arith,
    )

pub parse_digits-number :
    (ds rest : Bytes) → IsNumber ds → Stops rest → parse_digits (ds ++ rest) ≡ some (value ds, rest)
unfolding parse_digits
parse_digits-number ds rest n stop =
    rw (loop-digits 0 0 ds rest (omega arith) n.all_digits (omega arith) stop) (ground arith)

-- A header "bytes=0-N" in which both numbers have at most nineteen digits.
pub record Acknowledges (header : Bytes) (next : ℕ) : Type 0 where
  pub first : Bytes
  pub last : Bytes
  pub spelling : header ≡ codes "bytes=" ++ (first ++ (codes "-" ++ last))
  pub first_number : IsNumber first
  pub last_number : IsNumber last
  pub from_zero : value first ≡ 0
  pub next_byte : next ≡ value last + 1

range_tail_checks :
    (first last : ℕ) (rest : Bytes) (next : ℕ)
    → (guard (is_empty rest && not (ltb last first))
        >> (guard (first == 0 && not (last == uint64_max)) >> some (wrap64 (last + 1))))
      ≡ some next
    → (rest ≡ []) × (first ≡ 0) × (next ≡ wrap64 (last + 1))
range_tail_checks first last [] next h = ground arith
range_tail_checks first last (c ∷ rest) next h = cc

range_tail-IsNumber :
    (first : ℕ) (tail : Bytes) (next : ℕ)
    → range_tail first tail ≡ some next
    → IsNumber tail × (first ≡ 0) × (next ≡ value tail + 1)
unfolding range_tail
range_tail-IsNumber first tail next h = go (>>=-eq-some (parse_digits tail) _ h)
  where
    go :
        (q : ℕ × Bytes) × (parse_digits tail ≡ some q)
          × ((guard (is_empty q.1 && not (ltb q.0 first))
                >> (guard (first == 0 && not (q.0 == uint64_max)) >> some (wrap64 (q.0 + 1))))
              ≡ some next)
        → IsNumber tail × (first ≡ 0) × (next ≡ value tail + 1)
    go ((last, rest), e, k) =
        let (none_left, zero_first, result) = range_tail_checks first last rest next k in
        let (ds, split, number, val) = parse_digits-IsNumber tail last rest e in
        let whole : tail ≡ ds = split ∙ ap (◌++◌ ds) none_left ∙ append-nil ds in
        let small : value ds < 10 ^ 19 = value-lt ds number in
        (rw whole number, zero_first, rw whole (omega arith))

range_tail-value : (tail : Bytes) → IsNumber tail → range_tail 0 tail ≡ some (value tail + 1)
unfolding range_tail
range_tail-value tail n =
    let small : value tail < 10 ^ 19 = value-lt tail n in
    let whole : parse_digits tail ≡ some (value tail, []) =
      rw append-nil at (parse_digits-number tail [] n tt) in
    rw whole (ground arith)

parse_range_sound :
    (c : ℕ) (cs : Bytes) (next : ℕ)
    → parse_drive_range_next (c ∷ cs) ≡ some next
    → Acknowledges (c ∷ cs) next
unfolding parse_drive_range_next
parse_range_sound c cs next h = prefix (>>=-eq-some (strip_prefix? (codes "bytes=") (c ∷ cs)) _ h)
  where
    after_dash :
        (digits : Bytes)
        → c ∷ cs ≡ codes "bytes=" ++ digits
        → (v : ℕ) (dash : Bytes) → parse_digits digits ≡ some (v, dash)
        → (tail : Bytes) × (strip_prefix? (codes "-") dash ≡ some tail)
          × (range_tail v tail ≡ some next)
        → Acknowledges (c ∷ cs) next
    after_dash digits e v dash e1 (tail, e2, k) =
        let (first, split, number, val) = parse_digits-IsNumber digits v dash e1 in
        let (last_number, zero_first, result) = range_tail-IsNumber v tail next k in
        record {
          first = first;
          last = tail;
          spelling =
              e
              ∙ ap (◌++◌ (codes "bytes="))
                  (split ∙ ap (◌++◌ first) (strip_prefix?-eq-some (codes "-") dash tail e2));
          first_number = number;
          last_number = last_number;
          from_zero = sym val ∙ zero_first;
          next_byte = result;
        }

    numbers :
        (digits : Bytes)
        → c ∷ cs ≡ codes "bytes=" ++ digits
        → (p : ℕ × Bytes) × (parse_digits digits ≡ some p)
          × ((strip_prefix? (codes "-") p.1 >>= λ tail. range_tail p.0 tail) ≡ some next)
        → Acknowledges (c ∷ cs) next
    numbers digits e ((v, dash), e1, k) =
        after_dash digits e v dash e1 (>>=-eq-some (strip_prefix? (codes "-") dash) _ k)

    prefix :
        (digits : Bytes) × (strip_prefix? (codes "bytes=") (c ∷ cs) ≡ some digits)
          × ((parse_digits digits >>= λ p.
                strip_prefix? (codes "-") p.1 >>= λ tail. range_tail p.0 tail)
              ≡ some next)
        → Acknowledges (c ∷ cs) next
    prefix (digits, e, k) =
        numbers digits (strip_prefix?-eq-some (codes "bytes=") (c ∷ cs) digits e)
          (>>=-eq-some (parse_digits digits) _ k)

-- A Range header that is present yields the next byte exactly when it is "bytes=0-N" with numbers of at
-- most nineteen digits, and then N + 1.
pub parse_drive_range_next_iff :
    (c : ℕ) (cs : Bytes) (next : ℕ)
    → (parse_drive_range_next (c ∷ cs) ≡ some next) ↔ Acknowledges (c ∷ cs) next
unfolding parse_drive_range_next
parse_drive_range_next_iff c cs next = (parse_range_sound c cs next, accepts)
  where
    accepts : Acknowledges (c ∷ cs) next → parse_drive_range_next (c ∷ cs) ≡ some next
    accepts r = rw (
      r.spelling,
      strip_prefix?-append (codes "bytes=") (r.first ++ (codes "-" ++ r.last)),
      parse_digits-number r.first (codes "-" ++ r.last) r.first_number refl,
      strip_prefix?-append (codes "-") r.last,
      r.from_zero,
      range_tail-value r.last r.last_number,
      r.next_byte,
    )
