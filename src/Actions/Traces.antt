-- ===== src/Actions/Traces.antt =====
-- Which calls an action adds to those made before it.
use duckdb_gdrive.Base.{
  ◌≡◌, refl, Bool, true, false, Option, none, some, List, [], ◌∷◌, ◌++◌, append_assoc, append-nil,
  All, All-append, ap, sym, ◌∙◌, if◌then◌else◌,
}
use duckdb_gdrive.Base.Text.{Bytes}
use duckdb_gdrive.Client.{DriveResponse}
use duckdb_gdrive.PathCache.{PathCache}
use duckdb_gdrive.Actions.{
  FsCall, lists, gets_metadata, DriveClient, World, drive_error, Result, returns, throws,
  unfinished, Action, go_on, ◌>>=◌, request, require_ok, change, with_cache,
}

-- A call that changes nothing in Drive.
abbrev pub IsRead : FsCall → Type 0
IsRead (lists _ _) = Unit
IsRead (gets_metadata _) = Unit
IsRead _ = ⊥

-- The calls of the second world are those of the first and some reads.
abbrev pub OnlyReads : World → World → Type 0
OnlyReads w w' = (extra : List FsCall) × (w'.calls ≡ w.calls ++ extra) × All IsRead extra

pub record Reads {A : Type 0} (m : Action A) : Type 0 where
  pub only_reads : (w : World) → OnlyReads w (m w).1

pub OnlyReads-refl : (w w' : World) → w'.calls ≡ w.calls → OnlyReads w w'
OnlyReads-refl w w' e = ([], e ∙ sym (append-nil w.calls), tt)

pub OnlyReads-trans : (a b c : World) → OnlyReads a b → OnlyReads b c → OnlyReads a c
OnlyReads-trans a b c (x, ex, rx) (y, ey, ry) = (
  x ++ y,
  ey ∙ ap (λ (s : List FsCall). s ++ y) ex ∙ append_assoc a.calls x y,
  All-append IsRead x y rx ry,
)

go_on-Reads :
    {A B : Type 0} (w : World) (r : Result A) (w' : World) (f : A → Action B)
    → OnlyReads w w'
    → ((a : A) → Reads (f a))
    → OnlyReads w (go_on r w' f).1
go_on-Reads w (returns a) w' f h k = OnlyReads-trans w w' (f a w').1 h ((k a).only_reads w')
go_on-Reads w (throws e) w' f h k = h
go_on-Reads w unfinished w' f h k = h

pub >>=-Reads :
    {A B : Type 0} (m : Action A) (f : A → Action B)
    → Reads m
    → ((a : A) → Reads (f a))
    → Reads (m >>= f)
>>=-Reads m f h k = record { only_reads = λ w. go_on-Reads w (m w).0 (m w).1 f (h.only_reads w) k }

pub pure-Reads : {A : Type 0} (r : Result A) → Reads (λ w. (r, w))
pure-Reads r = record { only_reads = λ w. OnlyReads-refl w w refl }

pub change-Reads : (f : PathCache → PathCache) → Reads (change f)
change-Reads f = record { only_reads = λ w. OnlyReads-refl w (change f w).1 refl }

pub with_cache-Reads : {A : Type 0} (f : PathCache → A × PathCache) → Reads (with_cache f)
with_cache-Reads f = record { only_reads = λ w. OnlyReads-refl w (with_cache f w).1 refl }

pub request-Reads :
    (client : DriveClient) (call : FsCall) → IsRead call → Reads (request client call)
unfolding request
request-Reads client call h = record { only_reads = λ w. (call ∷ [], refl, (h, tt)) }

pub Option-Reads :
    {A B : Type 0} (o : Option A) (m : Action B) (f : A → Action B)
    → Reads m
    → ((a : A) → Reads (f a))
    → Reads (elim o [ none ↦ m | some a ↦ f a ])
Option-Reads none m f h k = h
Option-Reads (some a) m f h k = k a

pub if-Reads :
    {A : Type 0} (b : Bool) (m k : Action A) → Reads m → Reads k → Reads (if b then m else k)
if-Reads true m k h h' = h
if-Reads false m k h h' = h'

pub require_ok-Reads : (context : Bytes) (r : DriveResponse) → Reads (require_ok context r)
unfolding require_ok
require_ok-Reads context r =
    if-Reads r.ok (λ w. (returns tt, w)) (λ w. (throws (drive_error r.error context), w))
      (pure-Reads {A = Unit} (returns tt))
      (pure-Reads {A = Unit} (throws (drive_error r.error context)))
