-- ===== src/Uri/Cleaning.antt =====
-- An entry of a setting without its blanks and trailing slashes (TrimAscii, PathMatchesAnyPrefix).
use duckdb_gdrive.Base.{
  ℕ, ◌≡◌, refl, sym, ap, ◌∙◌, inl, inr, Bool, true, false, ◌||◌, ◌&&◌, [], ◌∷◌, ◌++◌, ◌==◌, arith,
  All, All-append, Bool-cases,
}
use duckdb_gdrive.Base.Text.{Bytes, drop_while, drop_while_back, is_empty}
use duckdb_gdrive.Uri.{clean_entry, trim_ascii, drop_trailing_slashes}

-- A space, a tab or the end of a line.
abbrev pub blank : ℕ → Bool
blank c = c == b' ' || (c == 9 || (c == 13 || c == 10))

abbrev pub slash : ℕ → Bool
slash c = c == b'/'

abbrev pub Every : (ℕ → Bool) → Bytes → Type 0
Every p s = All (λ c. p c ≡ true) s

-- The text does not begin, or does not end, with such a byte.
abbrev pub BeginsWithout : (ℕ → Bool) → Bytes → Type 0
BeginsWithout p [] = Unit
BeginsWithout p (c ∷ s) = p c ≡ false

abbrev pub EndsWithout : (ℕ → Bool) → Bytes → Type 0
EndsWithout p [] = Unit
EndsWithout p (c ∷ []) = p c ≡ false
EndsWithout p (c ∷ d ∷ s) = EndsWithout p (d ∷ s)

-- The entry without the blanks around it.
pub record IsTrimmed (entry core : Bytes) : Type 0 where
  pub front : Bytes
  pub back : Bytes
  pub whole : entry ≡ front ++ (core ++ back)
  pub front_blank : Every blank front
  pub back_blank : Every blank back
  pub begins : BeginsWithout blank core
  pub ends : EndsWithout blank core

-- The text without the slashes at its end, of which a first character is none.
abbrev pub IsUnslashed : Bytes → Bytes → Type 0
IsUnslashed [] prefix = prefix ≡ []
IsUnslashed (c ∷ core) prefix =
    (rest : Bytes) × (slashes : Bytes) × (prefix ≡ c ∷ rest)
    × (core ≡ rest ++ slashes)
    × Every slash slashes
    × EndsWithout slash rest

pub record IsCleaned (entry prefix : Bytes) : Type 0 where
  pub core : Bytes
  pub trimmed : IsTrimmed entry core
  pub unslashed : IsUnslashed core prefix

module _ (p : ℕ → Bool) where
  -- What is dropped from the front.
  front_of : (s : Bytes) → (front : Bytes) × (s ≡ front ++ drop_while p s) × Every p front
  unfolding drop_while
  front_of [] = ([], refl, tt)
  front_of (c ∷ s) = elim (Bool-cases (p c)) [
    | inl it ↦
        let (front, e, all) = front_of s in rw (it, drop_while) (c ∷ front, ap (◌∷◌ c) e, (it, all))
    | inr other ↦ rw (other, drop_while) ([], refl, tt)
  ]

  drop_while-BeginsWithout : (s : Bytes) → BeginsWithout p (drop_while p s)
  unfolding drop_while
  drop_while-BeginsWithout [] = tt
  drop_while-BeginsWithout (c ∷ s) = elim (Bool-cases (p c)) [
    | inl it ↦ rw (it, drop_while) (drop_while-BeginsWithout s)
    | inr other ↦ rw (other, drop_while) other
  ]

  drop_while-front :
      (front s : Bytes) → Every p front → BeginsWithout p s → drop_while p (front ++ s) ≡ s
  unfolding drop_while
  drop_while-front [] [] h b = refl
  drop_while-front [] (c ∷ s) h b = rw (b, drop_while) refl
  drop_while-front (c ∷ front) s (it, h) b = rw (it, drop_while) (drop_while-front front s h b)

  drop_while-Every : (s : Bytes) → Every p s → drop_while p s ≡ []
  unfolding drop_while
  drop_while-Every [] h = refl
  drop_while-Every (c ∷ s) (it, h) = rw (it, drop_while) (drop_while-Every s h)

  is_empty-nil : (s : Bytes) → is_empty s ≡ true → s ≡ []
  is_empty-nil [] h = refl
  is_empty-nil (c ∷ s) h = cc

  back_of : (s : Bytes) → (back : Bytes) × (s ≡ drop_while_back p s ++ back) × Every p back
  unfolding drop_while_back
  back_of [] = ([], refl, tt)
  back_of (c ∷ s) =
      let (back, e, all) = back_of s in
      elim (Bool-cases (is_empty (drop_while_back p s) && p c)) [
        | inl gone ↦
            let nothing : drop_while_back p s ≡ [] =
              is_empty-nil (drop_while_back p s) (ground arith) in
            rw (gone, drop_while_back)
              (
                c ∷ back,
                ap (◌∷◌ c) (e ∙ ap (λ (x : Bytes). x ++ back) nothing),
                (ground arith, all),
              )
        | inr stays ↦ rw (stays, drop_while_back) (back, ap (◌∷◌ c) e, all)
      ]

  EndsWithout-cons :
      (c : ℕ) (s : Bytes)
      → (is_empty s ≡ true → p c ≡ false)
      → EndsWithout p s
      → EndsWithout p (c ∷ s)
  EndsWithout-cons c [] h e = h refl
  EndsWithout-cons c (d ∷ s) h e = e

  drop_while_back-EndsWithout : (s : Bytes) → EndsWithout p (drop_while_back p s)
  unfolding drop_while_back
  drop_while_back-EndsWithout [] = tt
  drop_while_back-EndsWithout (c ∷ s) = elim (Bool-cases (is_empty (drop_while_back p s) && p c)) [
    | inl gone ↦ rw (gone, drop_while_back) tt
    | inr stays ↦
        rw (stays, drop_while_back)
          (EndsWithout-cons c (drop_while_back p s) (λ e. ground (arith, e))
            (drop_while_back-EndsWithout s))
  ]

  drop_while_back-nil : (back : Bytes) → Every p back → drop_while_back p back ≡ []
  unfolding drop_while_back
  drop_while_back-nil [] h = refl
  drop_while_back-nil (c ∷ back) (it, h) = ground (arith, drop_while_back-nil back h, it)

  drop_while_back-back :
      (s back : Bytes) → Every p back → EndsWithout p s → drop_while_back p (s ++ back) ≡ s
  unfolding drop_while_back
  drop_while_back-back [] back h b = drop_while_back-nil back h
  drop_while_back-back (c ∷ []) back h b =
      let nothing = drop_while_back-nil back h in rw (nothing, b, drop_while_back) refl
  drop_while_back-back (c ∷ d ∷ s) back h b =
      let same = drop_while_back-back (d ∷ s) back h b in rw (drop_while_back, same) refl

  -- What begins without such a byte still does when others go from its end.
  drop_while_back-BeginsWithout :
      (s : Bytes) → BeginsWithout p s → BeginsWithout p (drop_while_back p s)
  unfolding drop_while_back
  drop_while_back-BeginsWithout [] h = tt
  drop_while_back-BeginsWithout (c ∷ s) h =
      elim (Bool-cases (is_empty (drop_while_back p s) && p c)) [
        | inl gone ↦ rw (gone, drop_while_back) tt
        | inr stays ↦ rw (stays, drop_while_back) h
      ]

pub clean_entry-IsCleaned : (entry : Bytes) → IsCleaned entry (clean_entry entry)
unfolding clean_entry trim_ascii drop_trailing_slashes
clean_entry-IsCleaned entry =
    let (front, whole, front_blank) = front_of blank entry in
    let rest = drop_while blank entry in
    let (back, tail, back_blank) = back_of blank rest in
    record {
      core = drop_while_back blank rest;
      trimmed = record {
        front = front;
        back = back;
        whole = whole ∙ ap (◌++◌ front) tail;
        front_blank = front_blank;
        back_blank = back_blank;
        begins = drop_while_back-BeginsWithout blank rest (drop_while-BeginsWithout blank entry);
        ends = drop_while_back-EndsWithout blank rest;
      };
      unslashed = unslash (drop_while_back blank rest);
    }
  where
    unslash : (core : Bytes) → IsUnslashed core (drop_trailing_slashes core)
    unslash [] = refl
    unslash (c ∷ core) =
        let (slashes, e, all) = back_of slash core in
        (drop_while_back slash core, slashes, refl, e, all, drop_while_back-EndsWithout slash core)

unslashed_is : (core prefix : Bytes) → IsUnslashed core prefix → drop_trailing_slashes core ≡ prefix
unfolding drop_trailing_slashes
unslashed_is [] prefix e = sym e
unslashed_is (c ∷ core) prefix (rest, slashes, e, f, all, ends) =
    ap (λ (x : Bytes). c ∷ drop_while_back slash x) f
    ∙ ap (◌∷◌ c) (drop_while_back-back slash rest slashes all ends)
    ∙ sym e

trimmed_is : (entry core : Bytes) → IsTrimmed entry core → trim_ascii entry ≡ core
unfolding trim_ascii
trimmed_is entry core t =
    ap (λ (x : Bytes). drop_while_back blank (drop_while blank x)) t.whole
    ∙ both core t.begins t.ends
  where
    both :
        (x : Bytes)
        → BeginsWithout blank x
        → EndsWithout blank x
        → drop_while_back blank (drop_while blank (t.front ++ (x ++ t.back))) ≡ x
    both [] b e = ap (drop_while_back blank) (
        drop_while-Every blank (t.front ++ t.back)
          (All-append (λ c. blank c ≡ true) t.front t.back t.front_blank t.back_blank))
    both (c ∷ x) b e =
        ap (drop_while_back blank)
          (drop_while-front blank t.front ((c ∷ x) ++ t.back) t.front_blank b)
        ∙ drop_while_back-back blank (c ∷ x) t.back t.back_blank e

pub IsCleaned-clean_entry :
    (entry prefix : Bytes) → IsCleaned entry prefix → clean_entry entry ≡ prefix
unfolding clean_entry
IsCleaned-clean_entry entry prefix c =
    ap drop_trailing_slashes (trimmed_is entry c.core c.trimmed)
    ∙ unslashed_is c.core prefix c.unslashed
