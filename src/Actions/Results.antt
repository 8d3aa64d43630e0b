-- ===== src/Actions/Results.antt =====
-- Actions one after the other: what the first gave, where the whole returns.
use duckdb_gdrive.Base.{◌≡◌, refl}
use duckdb_gdrive.Actions.{World, Result, returns, throws, unfinished, Action, go_on}

pub returns-injective : {A : Type 0} (a b : A) → returns a ≡ returns b → a ≡ b
returns-injective a b e = cc e

pub go_on-returns :
    {A B : Type 0} (r : Result A) (w : World) (f : A → Action B) (b : B)
    → (go_on r w f).0 ≡ returns b
    → (a : A) × (r ≡ returns a) × ((f a w).0 ≡ returns b)
go_on-returns (returns a) w f b h = (a, refl, h)
go_on-returns (throws e) w f b h = absurd (cc h)
go_on-returns unfinished w f b h = absurd (cc h)

-- From the first world, the action returns this and leaves the second one.
abbrev pub Gives : {A : Type 0} → Action A → World → A → World → Type 0
Gives m w a w' = ((m w).0 ≡ returns a) × ((m w).1 ≡ w')
