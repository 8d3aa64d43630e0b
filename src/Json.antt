-- ===== src/Json.antt =====
-- JSON values as picojson::value holds them, and the lookups that the sources make in them. The
-- parser is picojson's, and a parameter of the models that use it.
use duckdb_gdrive.Base.{Bool, Option, none, some, if◌then◌else◌}
use duckdb_gdrive.Base.Text.{Bytes, eqb}

mutual
  pub data Json : Type 0 where
    null : Json
    boolean : Bool → Json
    number : Bytes → Json
    text : Bytes → Json
    array : Items → Json
    object : Fields → Json

  pub data Items : Type 0 where
    nil : Items
    item : Json → Items → Items

  pub data Fields : Type 0 where
    end : Fields
    field : Bytes → Json → Fields → Fields

-- picojson::parse: a value, or none for a text that it refuses.
abbrev pub Parser : Type 0
Parser = Bytes → Option Json

-- object::find
unfoldable pub find : Bytes → Fields → Option Json
find key end = none
find key (field k v fs) = if eqb k key then some v else find key fs

abbrev pub as_text : Json → Option Bytes
as_text (text s) = some s
as_text _ = none

abbrev pub as_array : Json → Option Items
as_array (array xs) = some xs
as_array _ = none

abbrev pub as_object : Json → Option Fields
as_object (object fs) = some fs
as_object _ = none
