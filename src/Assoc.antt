-- ===== src/Assoc.antt =====
-- Maps from byte strings (std::unordered_map) as lists of entries, with the lookups and changes that the
-- sources make in them.
pub mod Assigning
use duckdb_gdrive.Base.{
  suc, ◌≡◌, refl, inl, inr, Bool, false, Option, none, some, List, [], ◌∷◌, arith, All, Any, sym,
  length, Bool-cases, ap, if◌then◌else◌,
}
use duckdb_gdrive.Base.Text.{Bytes, eqb, eqb_iff, eqb_refl}

abbrev pub Assoc : Type 0 → Type 0
Assoc A = List (Bytes × A)

module _ {A : Type 0} where
  unfoldable pub find : Bytes → Assoc A → Option A
  find key [] = none
  find key ((k, e) ∷ entries) = if eqb k key then some e else find key entries

  unfoldable pub erase : Bytes → Assoc A → Assoc A
  erase key [] = []
  erase key ((k, e) ∷ entries) =
      let rest = erase key entries in if eqb k key then entries else (k, e) ∷ rest

  -- A write through the iterator that find returned.
  unfoldable pub modify : Bytes → (A → A) → Assoc A → Assoc A
  modify key f [] = []
  modify key f ((k, e) ∷ entries) =
      let rest = modify key f entries in if eqb k key then (k, f e) ∷ entries else (k, e) ∷ rest

  -- operator[] on the left of an assignment
  unfoldable pub assign : Bytes → A → Assoc A → Assoc A
  assign key e [] = (key, e) ∷ []
  assign key e ((k, x) ∷ entries) =
      let rest = assign key e entries in if eqb k key then (k, e) ∷ entries else (k, x) ∷ rest

  -- A walk that erases each entry whose key passes a test.
  unfoldable pub erase_if : (Bytes → Bool) → Assoc A → Assoc A
  erase_if test [] = []
  erase_if test ((k, e) ∷ entries) =
      let rest = erase_if test entries in if test k then rest else (k, e) ∷ rest

  -- No key stands twice.
  abbrev pub Distinct : Assoc A → Type 0
  Distinct [] = Unit
  Distinct ((k, e) ∷ entries) = (find k entries ≡ none) × Distinct entries

  pub length-erase :
      (key : Bytes) (entries : Assoc A) (e : A)
      → find key entries ≡ some e
      → length entries ≡ suc (length (erase key entries))
  unfolding find erase
  length-erase key [] e h = cc
  length-erase key ((k, x) ∷ entries) e h = ground (arith, length-erase key entries e)

  pub find-erase-none :
      (j key : Bytes) (entries : Assoc A)
      → find j entries ≡ none
      → find j (erase key entries) ≡ none
  unfolding find erase
  find-erase-none j key [] h = refl
  find-erase-none j key ((k, x) ∷ entries) h = ground (arith, find-erase-none j key entries)

  pub erase-Distinct :
      (key : Bytes) (entries : Assoc A) → Distinct entries → Distinct (erase key entries)
  unfolding erase
  erase-Distinct key [] d = tt
  erase-Distinct key ((k, x) ∷ entries) d =
      ground (arith, find-erase-none k key entries d.0, erase-Distinct key entries d.1)

  pub find-modify-none :
      (j key : Bytes) (f : A → A) (entries : Assoc A)
      → find j entries ≡ none
      → find j (modify key f entries) ≡ none
  unfolding find modify
  find-modify-none j key f [] h = refl
  find-modify-none j key f ((k, x) ∷ entries) h = ground (arith, find-modify-none j key f entries)

  pub modify-Distinct :
      (key : Bytes) (f : A → A) (entries : Assoc A)
      → Distinct entries
      → Distinct (modify key f entries)
  unfolding modify
  modify-Distinct key f [] d = tt
  modify-Distinct key f ((k, x) ∷ entries) d =
      ground (arith, find-modify-none k key f entries d.0, modify-Distinct key f entries d.1)

  module _ (P : Bytes × A → Type 0) where
    pub All-erase : (key : Bytes) (entries : Assoc A) → All P entries → All P (erase key entries)
    unfolding erase
    All-erase key [] h = tt
    All-erase key ((k, x) ∷ entries) h = elim (Bool-cases (eqb k key)) [
      | inl same ↦ rw (same, erase) h.1
      | inr other ↦ rw (other, erase) (h.0, All-erase key entries h.1)
    ]

    pub All-find :
        (key : Bytes) (entries : Assoc A) (e : A)
        → All P entries
        → find key entries ≡ some e
        → P (key, e)
    unfolding find
    All-find key [] e h f = cc
    All-find key ((k, x) ∷ entries) e h f = elim (Bool-cases (eqb k key)) [
      | inl same ↦
          let here : some x ≡ some e = rw (same, find) at f in
          let it : x ≡ e = cc in rw (sym ((eqb_iff k key).0 same), ← it) h.0
      | inr other ↦ All-find key entries e h.1 (rw (other, find) at f)
    ]

    pub All-modify :
        (key : Bytes) (f : A → A) (entries : Assoc A)
        → ((k : Bytes) (e : A) → P (k, e) → P (k, f e))
        → All P entries
        → All P (modify key f entries)
    unfolding modify
    All-modify key f [] keep h = tt
    All-modify key f ((k, x) ∷ entries) keep h = elim (Bool-cases (eqb k key)) [
      | inl same ↦ rw (same, modify) (keep k x h.0, h.1)
      | inr other ↦ rw (other, modify) (h.0, All-modify key f entries keep h.1)
    ]

  pub find-member :
      (key : Bytes) (e : A) (entries : Assoc A)
      → Distinct entries
      → Any (λ x. x ≡ (key, e)) entries
      → find key entries ≡ some e
  unfolding find
  find-member key e [] d h = absurd h
  find-member key e ((k, x) ∷ entries) d (inl here) =
      let same : k ≡ key = ap (λ (p : Bytes × A). p.0) here in
      let it : x ≡ e = ap (λ (p : Bytes × A). p.1) here in
      rw (find, same, eqb_refl key) (ap some it)
  find-member key e ((k, x) ∷ entries) d (inr later) =
      let found : find key entries ≡ some e = find-member key e entries d.1 later in
      ground (arith, eqb_iff k key, found, d.0)

  pub find-erase_ne :
      (j key : Bytes) (entries : Assoc A)
      → eqb j key ≡ false
      → find j (erase key entries) ≡ find j entries
  unfolding find erase
  find-erase_ne j key [] h = refl
  find-erase_ne j key ((k, x) ∷ entries) h =
      ground (arith, eqb_iff k key, eqb_iff k j, eqb_iff j key, find-erase_ne j key entries h)

  pub find-erase_self :
      (key : Bytes) (entries : Assoc A) → Distinct entries → find key (erase key entries) ≡ none
  unfolding find erase
  find-erase_self key [] d = refl
  find-erase_self key ((k, x) ∷ entries) d =
      ground (arith, eqb_iff k key, find-erase_self key entries d.1)

  pub length-modify :
      (key : Bytes) (f : A → A) (entries : Assoc A) → length (modify key f entries) ≡ length entries
  unfolding modify
  length-modify key f [] = refl
  length-modify key f ((k, x) ∷ entries) = ground (arith, length-modify key f entries)
