-- ===== src/Assoc/Assigning.antt =====
-- The laws of assign and erase_if.
use duckdb_gdrive.Base.{
  ◌≤◌, ◌≡◌, ◌∙◌, refl, inl, inr, Bool, false, none, some, [], ◌∷◌, arith, All, length, Bool-cases,
  if◌then◌else◌,
}
use duckdb_gdrive.Base.Text.{Bytes, eqb, eqb_iff, eqb_refl}
use duckdb_gdrive.Assoc.{Assoc, find, assign, erase_if, Distinct}

module _ {A : Type 0} where
  pub find-assign_self :
      (key : Bytes) (e : A) (entries : Assoc A) → find key (assign key e entries) ≡ some e
  unfolding find assign
  find-assign_self key e [] = rw (eqb_refl key)
  find-assign_self key e ((k, x) ∷ entries) = ground (arith, find-assign_self key e entries)

  pub find-assign_ne :
      (j key : Bytes) (e : A) (entries : Assoc A)
      → eqb key j ≡ false
      → find j (assign key e entries) ≡ find j entries
  unfolding find assign
  find-assign_ne j key e [] h = rw h
  find-assign_ne j key e ((k, x) ∷ entries) h =
      ground (arith, eqb_iff k key, find-assign_ne j key e entries h)

  pub assign-Distinct :
      (key : Bytes) (e : A) (entries : Assoc A) → Distinct entries → Distinct (assign key e entries)
  unfolding assign find
  assign-Distinct key e [] d = (refl, tt)
  assign-Distinct key e ((k, x) ∷ entries) d = elim (Bool-cases (eqb k key)) [
    | inl same ↦ rw (same, assign) d
    | inr other ↦
        rw (other, assign)
          (
            find-assign_ne k key e entries (ground (arith, eqb_iff k key, eqb_iff key k)) ∙ d.0,
            assign-Distinct key e entries d.1,
          )
  ]

  pub All-assign :
      (P : Bytes × A → Type 0) (key : Bytes) (e : A) (entries : Assoc A)
      → P (key, e)
      → All P entries
      → All P (assign key e entries)
  unfolding assign
  All-assign P key e [] p h = (p, tt)
  All-assign P key e ((k, x) ∷ entries) p h = elim (Bool-cases (eqb k key)) [
    | inl same ↦ rw (same, assign) (rw ((eqb_iff k key).0 same) p, h.1)
    | inr other ↦ rw (other, assign) (h.0, All-assign P key e entries p h.1)
  ]

  pub find-erase_if :
      (test : Bytes → Bool) (key : Bytes) (entries : Assoc A)
      → find key (erase_if test entries) ≡ (if test key then none else find key entries)
  unfolding find erase_if
  find-erase_if test key [] = ground arith
  find-erase_if test key ((k, x) ∷ entries) = elim (Bool-cases (eqb k key)) [
    | inl same ↦
        let it : k ≡ key = (eqb_iff k key).0 same in
        rw it (ground (arith, find-erase_if test key entries, eqb_refl key))
    | inr other ↦ ground (arith, find-erase_if test key entries)
  ]

  pub erase_if-Distinct :
      (test : Bytes → Bool) (entries : Assoc A)
      → Distinct entries
      → Distinct (erase_if test entries)
  unfolding erase_if
  erase_if-Distinct test [] d = tt
  erase_if-Distinct test ((k, x) ∷ entries) d =
      ground (arith, find-erase_if test k entries, erase_if-Distinct test entries d.1, d.0)

  pub All-erase_if :
      (P : Bytes × A → Type 0) (test : Bytes → Bool) (entries : Assoc A)
      → All P entries
      → All P (erase_if test entries)
  unfolding erase_if
  All-erase_if P test [] h = tt
  All-erase_if P test ((k, x) ∷ entries) h = elim (Bool-cases (test k)) [
    | inl hit ↦ rw (hit, erase_if) (All-erase_if P test entries h.1)
    | inr other ↦ rw (other, erase_if) (h.0, All-erase_if P test entries h.1)
  ]

  pub length-erase_if :
      (test : Bytes → Bool) (entries : Assoc A) → length (erase_if test entries) ≤ length entries
  unfolding erase_if
  length-erase_if test [] = omega arith
  length-erase_if test ((k, x) ∷ entries) = ground (arith, length-erase_if test entries)
