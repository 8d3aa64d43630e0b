-- ===== src/BlockCache/Keys.antt =====
-- The key under which a block is cached (the first lines of GetBlock).
use duckdb_gdrive.Base.{ℕ, ◌≡◌, refl, sym, ap, ◌∙◌, [], ◌∷◌, ◌++◌, append_assoc, arith, All}
use duckdb_gdrive.Base.Text.{Bytes, Lacks}
use duckdb_gdrive.Base.Decimal.{IsDigit, to_string, value, value-to_string, to_string-IsDigit}
use duckdb_gdrive.BlockCache.{Request, full_key}

digits-Lacks : (ds : Bytes) → All IsDigit ds → Lacks 31 ds
digits-Lacks [] h = tt
digits-Lacks (c ∷ ds) h = (ground arith, digits-Lacks ds h.1)

not-Lacks-middle : (d : ℕ) (s t : Bytes) → ¬ Lacks d (s ++ d ∷ t)
not-Lacks-middle d [] t l = ground arith
not-Lacks-middle d (c ∷ s) t l = not-Lacks-middle d s t l.1

-- The last separator splits a text in one way only.
split_last :
    (d : ℕ) (a b x y : Bytes) → Lacks d x → Lacks d y → a ++ d ∷ x ≡ b ++ d ∷ y → (a ≡ b) × (x ≡ y)
split_last d [] [] x y hx hy e = (refl, cc)
split_last d [] (c ∷ b) x y hx hy e =
    let tail : x ≡ b ++ d ∷ y = cc in absurd (not-Lacks-middle d b y (rw tail at hx))
split_last d (c ∷ a) [] x y hx hy e =
    let tail : a ++ d ∷ x ≡ y = cc in absurd (not-Lacks-middle d a x (rw (← tail) at hy))
split_last d (c ∷ a) (c' ∷ b) x y hx hy e =
    let (front, back) = split_last d a b x y hx hy (cc) in let first : c ≡ c' = cc in (cc, back)

to_string_injective : (m n : ℕ) → to_string m ≡ to_string n → m ≡ n
to_string_injective m n e = sym (value-to_string m) ∙ ap value e ∙ value-to_string n

separated :
    (r : Request)
    → full_key r ≡ (r.key ++ 31 ∷ to_string r.block_size) ++ 31 ∷ to_string r.block_index
unfolding full_key
separated r = sym (append_assoc r.key (31 ∷ to_string r.block_size) (31 ∷ to_string r.block_index))

-- Requests with the same full key ask for the same block of the same content, whatever bytes the
-- caller's key holds.
pub full_key_injective :
    (r q : Request)
    → full_key r ≡ full_key q
    → (r.key ≡ q.key) × (r.block_size ≡ q.block_size) × (r.block_index ≡ q.block_index)
full_key_injective r q e =
    let no_sep = λ (n : ℕ). digits-Lacks (to_string n) (to_string-IsDigit n) in
    let (front, index) =
      split_last 31 (r.key ++ 31 ∷ to_string r.block_size) (q.key ++ 31 ∷ to_string q.block_size)
        (to_string r.block_index) (to_string q.block_index) (no_sep r.block_index)
        (no_sep q.block_index) (sym (separated r) ∙ e ∙ separated q) in
    let (key, size) =
      split_last 31 r.key q.key (to_string r.block_size) (to_string q.block_size)
        (no_sep r.block_size) (no_sep q.block_size) front in
    (
      key,
      to_string_injective r.block_size q.block_size size,
      to_string_injective r.block_index q.block_index index,
    )
