-- ===== src/BlockCache/Map.antt =====
-- The bytes that the blocks of src/gdrive_blockcache.cpp hold together.
use duckdb_gdrive.Base.{ℕ, ◌+◌, ◌≡◌, inl, inr, some, [], ◌∷◌, arith, Bool-cases}
use duckdb_gdrive.Base.Text.{Bytes, eqb}
use duckdb_gdrive.Assoc.{find, erase, modify}
use duckdb_gdrive.BlockCache.{Entry, Blocks}

abbrev pub sum_bytes : Blocks → ℕ
sum_bytes [] = 0
sum_bytes ((k, e) ∷ blocks) = e.bytes + sum_bytes blocks

pub sum-erase :
    (key : Bytes) (blocks : Blocks) (e : Entry)
    → find key blocks ≡ some e
    → sum_bytes blocks ≡ e.bytes + sum_bytes (erase key blocks)
unfolding find erase
sum-erase key [] e h = cc
sum-erase key ((k, x) ∷ blocks) e h = ground (arith, sum-erase key blocks e)

pub sum-modify :
    (key : Bytes) (f : Entry → Entry) (blocks : Blocks) (e : Entry)
    → find key blocks ≡ some e
    → sum_bytes (modify key f blocks) + e.bytes ≡ sum_bytes blocks + (f e).bytes
unfolding find modify
sum-modify key f [] e h = cc
sum-modify key f ((k, x) ∷ blocks) e h = elim (Bool-cases (eqb k key)) [
  | inl same ↦
      let here : some x ≡ some e = rw (same, find) at h in
      let it : x ≡ e = cc in rw (same, modify, it) (omega arith)
  | inr other ↦
      rw (other, modify) (omega (arith, sum-modify key f blocks e (rw (other, find) at h)))
]
