-- ===== src/Schema/Members.antt =====
-- The keywords for objects, arrays, texts and numbers (scripts/json_schema.py). What is not of the
-- keyword's type passes.
use hp_lj_1020_driver.Base.{
  ℕ, suc, String, Bool, true, false, not, ◌&&◌, Option, none, some, List, [], ◌∷◌, keep, length,
  ◌==◌, if◌then◌else◌,
}
use Prim.Native.Char.{code}
use Prim.Native.String.{count, ◌++◌ as ◌<>◌}
use hp_lj_1020_driver.Base.Prog.{ok, err}
use hp_lj_1020_driver.Base.Checked.{◌>>=◌, ◌>>◌}
use hp_lj_1020_driver.Base.Json.{
  Number, whole, Json, null, boolean, number, string, array, object, end, Fields, empty, find,
  has_key, keys, entries,
}
use hp_lj_1020_driver.Base.Json.Order.{json_eq, number_lt, has_repeats}
use hp_lj_1020_driver.Schema.Reference.{
  in_field, at_index, in_name, missing_property, additional_property, few_properties, few_items,
  duplicate_items, short_string, no_match, bad_date, no_timezone, below_minimum, crash, Checked,
  raise_if,
}
use hp_lj_1020_driver.Schema.Keywords.{at, Check, list_of, fields_of, is_below}

abbrev pub items_or_none : Option Json → Checked (List Json)
items_or_none none = ok []
items_or_none (some value) = list_of value

abbrev pub fields_or_none : Option Json → Checked Fields
fields_or_none none = ok empty
fields_or_none (some value) = fields_of value

-- `field not in value`, where a list or a dictionary cannot be a key
abbrev pub require_field : Fields → Json → Checked (Unit {0})
require_field value (string name) =
    raise_if (not (has_key value name)) (missing_property (string name))
require_field value (array items) = err crash
require_field value (object fields) = err crash
require_field value other = raise_if true (missing_property other)

unfoldable pub check_required : Fields → List Json → Checked (Unit {0})
check_required value [] = ok tt
check_required value (name ∷ names) = require_field value name >> check_required value names

unfoldable pub check_required_of : Fields → Fields → Checked (Unit {0})
check_required_of value schema = items_or_none (find schema "required") >>= check_required value

-- The part of an object with the keys that `properties` does not name.
abbrev pub undeclared : Fields → Fields → List (String × Json)
undeclared value properties =
    keep (λ (e : String × Json). not (has_key properties e.0)) (entries value)

unfoldable pub check_few_properties : Fields → Fields → Checked (Unit {0})
check_few_properties value schema =
    is_below (length (keys value)) (find schema "minProperties") >>= λ below.
    raise_if below few_properties

unfoldable pub check_few_items : List Json → Fields → Checked (Unit {0})
check_few_items value schema =
    is_below (length value) (find schema "minItems") >>= λ below. raise_if below few_items

-- `bool(value)`
abbrev pub is_truthy : Json → Bool
is_truthy null = false
is_truthy (boolean b) = b
is_truthy (number (whole n)) = not (n == 0)
is_truthy (number (Number.real n)) = not (n == 0)
is_truthy (number (Number.negative_real n)) = not (n == 0)
is_truthy (number _) = true
is_truthy (string String.[]) = false
is_truthy (string _) = true
is_truthy (array end) = false
is_truthy (array _) = true
is_truthy (object empty) = false
is_truthy (object _) = true

abbrev pub asks_unique : Option Json → Bool
asks_unique none = false
asks_unique (some value) = is_truthy value

unfoldable pub check_unique : List Json → Fields → Checked (Unit {0})
check_unique value schema =
    raise_if (asks_unique (find schema "uniqueItems") && has_repeats value) duplicate_items

module _ (check : Check) where
  abbrev pub check_property : String → Json → Option Json → Checked (Unit {0})
  check_property name child none = ok tt
  check_property name child (some v) = at (in_field name) (check v child)

  unfoldable pub check_properties : Fields → List (String × Json) → Checked (Unit {0})
  check_properties value [] = ok tt
  check_properties value ((name, child) ∷ properties) =
      check_property name child (find value name) >> check_properties value properties

  -- `set(value) - set(properties)` has no order; here it is that of the value.
  abbrev pub check_undeclared : Option Json → String → Json → Checked (Unit {0})
  check_undeclared (some (boolean false)) name v = raise_if true (additional_property name)
  check_undeclared (some (object schema)) name v = at (in_field name) (check v (object schema))
  check_undeclared _ name v = ok tt

  unfoldable pub check_additional : Option Json → List (String × Json) → Checked (Unit {0})
  check_additional additional [] = ok tt
  check_additional additional ((name, v) ∷ more) =
      check_undeclared additional name v >> check_additional additional more

  unfoldable pub check_each_name : Json → List String → Checked (Unit {0})
  check_each_name schema [] = ok tt
  check_each_name schema (name ∷ names) =
      at in_name (check (string name) schema) >> check_each_name schema names

  abbrev pub check_names_of : List String → Option Json → Checked (Unit {0})
  check_names_of names none = ok tt
  check_names_of names (some schema) = check_each_name schema names

  unfoldable pub check_names : Fields → Fields → Checked (Unit {0})
  check_names value schema = check_names_of (keys value) (find schema "propertyNames")

  abbrev pub check_declared_and_more : Fields → Option Json → Fields → Checked (Unit {0})
  check_declared_and_more value additional properties =
      check_properties value (entries properties)
      >> check_additional additional (undeclared value properties)

  unfoldable pub check_properties_of : Fields → Fields → Checked (Unit {0})
  check_properties_of value schema =
      fields_or_none (find schema "properties")
      >>= check_declared_and_more value (find schema "additionalProperties")

  unfoldable pub check_object : Fields → Fields → Checked (Unit {0})
  check_object value schema = do
    check_required_of value schema
    check_properties_of value schema
    check_few_properties value schema
    check_names value schema

  unfoldable pub check_each_item : ℕ → Json → List Json → Checked (Unit {0})
  check_each_item index schema [] = ok tt
  check_each_item index schema (x ∷ xs) =
      at (at_index index) (check x schema) >> check_each_item (suc index) schema xs

  abbrev pub check_items_of : List Json → Option Json → Checked (Unit {0})
  check_items_of value none = ok tt
  check_items_of value (some schema) = check_each_item 0 schema value

  unfoldable pub check_items : List Json → Fields → Checked (Unit {0})
  check_items value schema = check_items_of value (find schema "items")

  unfoldable pub check_array : List Json → Fields → Checked (Unit {0})
  check_array value schema = do
    check_few_items value schema
    check_unique value schema
    check_items value schema

-- `value.replace("Z", "+00:00")`
abbrev pub with_offset : String → String
with_offset String.[] = String.[]
with_offset (String.◌∷◌ c s) =
    let rest = with_offset s in if code c == b'Z' then "+00:00" <> rest else String.◌∷◌ c rest

-- `search pattern text`, where `none` is the exception of a bad pattern, and `from_iso text`, where
-- `none` is a `ValueError` and the flag says that there is a time zone.
module _ (search : String → String → Option Bool) (from_iso : String → Option Bool) where
  abbrev pub found : Option Bool → Checked Bool
  found none = err crash
  found (some b) = ok b

  abbrev check_pattern_of : String → Option Json → Checked (Unit {0})
  check_pattern_of value none = ok tt
  check_pattern_of value (some (string pattern)) =
      found (search pattern value) >>= λ matched. raise_if (not matched) no_match
  check_pattern_of value (some _) = err crash

  unfoldable pub check_pattern : String → Fields → Checked (Unit {0})
  check_pattern value schema = check_pattern_of value (find schema "pattern")

  abbrev check_date : Option Bool → Checked (Unit {0})
  check_date none = raise_if true bad_date
  check_date (some zoned) = raise_if (not zoned) no_timezone

  abbrev check_format_of : String → Option Json → Checked (Unit {0})
  check_format_of value none = ok tt
  check_format_of value (some format) =
      if json_eq format (string "date-time")
      then check_date (from_iso (with_offset value))
      else ok tt

  unfoldable pub check_format : String → Fields → Checked (Unit {0})
  check_format value schema = check_format_of value (find schema "format")

  unfoldable pub check_string : String → Fields → Checked (Unit {0})
  check_string value schema = do
    short ← is_below (count value) (find schema "minLength")
    raise_if short short_string
    check_pattern value schema
    check_format value schema

abbrev is_less : Number → Option Json → Checked Bool
is_less x none = ok false
is_less x (some (number bound)) = ok (number_lt x bound)
is_less x (some (boolean true)) = ok (number_lt x (whole 1))
is_less x (some (boolean false)) = ok (number_lt x (whole 0))
is_less x (some _) = err crash

unfoldable pub check_number : Number → Fields → Checked (Unit {0})
check_number x schema = is_less x (find schema "minimum") >>= λ below. raise_if below below_minimum
