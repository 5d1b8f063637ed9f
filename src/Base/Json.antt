-- ===== src/Base/Json.antt =====
-- The values that `json.loads` returns.
pub mod Order
use Prim.Native.Nat.{ℕ, ◌^◌}
use Prim.Native.String.{String}
use mathlib.Core.Bool.{Bool, true, false}
use mathlib.Core.Option.{Option, none, some}
use mathlib.Core.List.{List, [], ◌∷◌}
use text.Mathlib.Text.{◌==◌ as str_eq}
use hp_lj_1020_driver.Base.Tests.{if◌then◌else◌}

-- `negative n` is the integer -(n + 1). A finite float is a sign and a multiple of 2 ^ -1074, which
-- every double is; `json.loads` also accepts `Infinity`, `-Infinity` and `NaN`.
pub data Number : Type 0 where
  whole negative : ℕ → Number
  real negative_real : ℕ → Number
  infinite negative_infinite nan : Number

-- An object is its items; a `dict` has each key once.
mutual
  pub data Json : Type 0 where
    null : Json
    boolean : Bool → Json
    number : Number → Json
    string : String → Json
    array : Items → Json
    object : Fields → Json

  pub data Items : Type 0 where
    end : Items
    item : Json → Items → Items

  -- The items of a `dict`, in order; each key is there once.
  pub data Fields : Type 0 where
    empty : Fields
    field : String → Json → Fields → Fields

-- How many units a float of value 1 has.
abbrev pub float_one : ℕ
float_one = 2 ^ 1074

-- `fields.get(key)`; `None` is `null`.
abbrev pub get : Fields → String → Json
get empty key = null
get (field name value fields) key = if str_eq name key then value else get fields key

abbrev pub keys : Fields → List String
keys empty = []
keys (field name value fields) = name ∷ keys fields

-- `fields[key]`, where `none` is a `KeyError`; `key in fields` is whether it is there.
abbrev pub find : Fields → String → Option Json
find empty key = none
find (field name value fields) key = if str_eq name key then some value else find fields key

abbrev pub is_there : Option Json → Bool
is_there none = false
is_there (some value) = true

abbrev pub has_key : Fields → String → Bool
has_key fields key = is_there (find fields key)

abbrev pub elements : Items → List Json
elements end = []
elements (item value items) = value ∷ elements items

abbrev pub entries : Fields → List (String × Json)
entries empty = []
entries (field name value fields) = (name, value) ∷ entries fields
