-- ===== src/Json.antt =====
-- JSON values, as the cache stores them and the job runners read them. Texts and counts are all that
-- the modelled code looks at, so other numbers are left to `number`, by their text.
use datasets_server.Prelude.{ℕ, Bool, text_eq, ◌==◌, String, Option, none, some, if◌then◌else◌}

mutual
  pub data Json : Type 0 where
    null : Json
    boolean : Bool → Json
    natural : ℕ → Json
    number : String → Json
    text : String → Json
    array : Items → Json
    object : Fields → Json

  pub data Items : Type 0 where
    nil : Items
    cons : Json → Items → Items

  pub data Fields : Type 0 where
    end : Fields
    field : String → Json → Fields → Fields

-- `value[key]` of a dictionary
abbrev pub get_field : String → Fields → Option Json
get_field key end = none
get_field key (field other value rest) = if other == key then some value else get_field key rest

-- `value[key]` of any value: `none` is the `KeyError`, or the `TypeError` of another type.
abbrev pub get_item : String → Json → Option Json
get_item key (object fields) = get_field key fields
get_item key _ = none
