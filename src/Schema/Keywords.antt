-- ===== src/Schema/Keywords.antt =====
-- The keywords of a schema (scripts/json_schema.py), each as a check of its own. A recursive call of
-- `validate` is the argument `check`, and `search` and `from_iso` stand for Python's `re.search` and
-- `datetime.fromisoformat`: `none` is the exception that they raise. `crash` is any exception but a
-- `SchemaError`.
use hp_lj_1020_driver.Base.{
  ℕ, suc, String, Bool, true, false, not, Option, none, some, List, [], ◌∷◌, elem, any, map, ◌==◌,
}
use hp_lj_1020_driver.Base.Text.{contains, characters}
use hp_lj_1020_driver.Base.Prog.{ok, err}
use hp_lj_1020_driver.Base.Checked.{◌>>=◌, ◌>>◌}
use hp_lj_1020_driver.Base.Json.{
  whole, negative, Json, null, boolean, number, string, array, object, Fields, find, elements,
  has_key, keys,
}
use hp_lj_1020_driver.Base.Json.Order.{json_eq, member_eq, number_lt}
use hp_lj_1020_driver.Schema.Reference.{
  Step, bad_type, not_const, not_in_enum, not_exactly_one, forbidden, Error, schema_error, crash,
  Checked, raise_if, resolve,
}

-- The type names that `_matches_type` answers with true.
abbrev types_of : Json → List String
types_of null = "null" ∷ []
types_of (boolean b) = "boolean" ∷ []
types_of (number (whole n)) = "integer" ∷ "number" ∷ []
types_of (number (negative n)) = "integer" ∷ "number" ∷ []
types_of (number _) = "number" ∷ []
types_of (string s) = "string" ∷ []
types_of (array xs) = "array" ∷ []
types_of (object fs) = "object" ∷ []

-- `_matches_type`
abbrev pub matches_type : Json → String → Bool
matches_type value expected = elem expected (types_of value)

abbrev pub names_type : Json → Json → Bool
names_type value (string expected) = matches_type value expected
names_type value _ = false

abbrev pub type_fits : Json → Json → Bool
type_fits value (string expected) = matches_type value expected
type_fits value (array expected) = any (names_type value) (elements expected)
type_fits value _ = false

-- `schema.get("type")`; a `null` counts as absent.
abbrev pub check_type_of : Json → Option Json → Checked (Unit {0})
check_type_of value none = ok tt
check_type_of value (some null) = ok tt
check_type_of value (some expected) = raise_if (not (type_fits value expected)) bad_type

unfoldable pub check_type : Json → Fields → Checked (Unit {0})
check_type value schema = check_type_of value (find schema "type")

abbrev pub check_const_of : Json → Option Json → Checked (Unit {0})
check_const_of value none = ok tt
check_const_of value (some expected) = raise_if (not (json_eq value expected)) not_const

unfoldable pub check_const : Json → Fields → Checked (Unit {0})
check_const value schema = check_const_of value (find schema "const")

-- `value in text`
abbrev check_part : Json → String → Checked (Unit {0})
check_part (string s) text = raise_if (not (contains text s)) not_in_enum
check_part _ text = err crash

-- `value in fields`; a list or a dictionary has no hash.
abbrev check_key : Json → Fields → Checked (Unit {0})
check_key (string s) members = raise_if (not (has_key members s)) not_in_enum
check_key (array xs) members = err crash
check_key (object fs) members = err crash
check_key _ members = raise_if true not_in_enum

abbrev pub check_enum_of : Json → Option Json → Checked (Unit {0})
check_enum_of value none = ok tt
check_enum_of value (some (array members)) =
    raise_if (not (any (λ m. member_eq m value) (elements members))) not_in_enum
check_enum_of value (some (string text)) = check_part value text
check_enum_of value (some (object members)) = check_key value members
check_enum_of value (some _) = err crash

unfoldable pub check_enum : Json → Fields → Checked (Unit {0})
check_enum value schema = check_enum_of value (find schema "enum")

-- The prefix that a recursive call gives its path.
abbrev add_step : Step → Error → Error
add_step s (schema_error path problem) = schema_error (s ∷ path) problem
add_step s crash = crash
add_step s Error.exhausted = Error.exhausted

abbrev pub at : Step → Checked (Unit {0}) → Checked (Unit {0})
at s (ok _) = ok tt
at s (err e) = err (add_step s e)

-- `_is_valid`: a `SchemaError` is false, and any other exception goes on.
abbrev pub as_test : Checked (Unit {0}) → Checked Bool
as_test (ok _) = ok true
as_test (err (schema_error path problem)) = ok false
as_test (err crash) = err crash
as_test (err Error.exhausted) = err Error.exhausted

abbrev pub Check : Type 0
Check = Json → Json → Checked (Unit {0})

abbrev pub add_match : Bool → ℕ → Checked ℕ
add_match true n = ok (suc n)
add_match false n = ok n

-- What `for x in value` goes over: the items, the keys, or the characters.
abbrev pub list_of : Json → Checked (List Json)
list_of (array items) = ok (elements items)
list_of (object fields) = ok (map string (keys fields))
list_of (string text) = ok (map string (characters text))
list_of _ = err crash

abbrev pub fields_of : Json → Checked Fields
fields_of (object fields) = ok fields
fields_of _ = err crash

-- `len(xs) < bound` of Python, for the value of a keyword that may be absent
abbrev pub is_below : ℕ → Option Json → Checked Bool
is_below n none = ok false
is_below n (some (number bound)) = ok (number_lt (whole n) bound)
is_below n (some (boolean true)) = ok (n == 0)
is_below n (some (boolean false)) = ok false
is_below n (some _) = err crash

module _ (check : Check) where
  abbrev pub check_reference_of : Fields → Json → Option Json → Checked (Unit {0})
  check_reference_of root value none = ok tt
  check_reference_of root value (some reference) =
      resolve root reference >>= λ target. check value (object target)

  unfoldable pub check_reference : Fields → Json → Fields → Checked (Unit {0})
  check_reference root value schema = check_reference_of root value (find schema "$ref")

  -- `sum(_is_valid(value, branch, root) for branch in branches)`
  unfoldable pub count_matches : Json → List Json → Checked ℕ
  count_matches value [] = ok 0
  count_matches value (branch ∷ branches) = as_test (check value branch) >>= λ matched.
      count_matches value branches >>= λ n. add_match matched n

  abbrev pub check_one_of_in : Json → Option Json → Checked (Unit {0})
  check_one_of_in value none = ok tt
  check_one_of_in value (some branches) = list_of branches >>= λ them.
      count_matches value them >>= λ n. raise_if (not (n == 1)) not_exactly_one

  unfoldable pub check_one_of : Json → Fields → Checked (Unit {0})
  check_one_of value schema = check_one_of_in value (find schema "oneOf")

  abbrev pub check_not_of : Json → Option Json → Checked (Unit {0})
  check_not_of value none = ok tt
  check_not_of value (some branch) =
      as_test (check value branch) >>= λ matched. raise_if matched forbidden

  unfoldable pub check_not : Json → Fields → Checked (Unit {0})
  check_not value schema = check_not_of value (find schema "not")

  -- `allOf`
  unfoldable pub check_each : Json → List Json → Checked (Unit {0})
  check_each value [] = ok tt
  check_each value (branch ∷ branches) = check value branch >> check_each value branches

  abbrev pub check_all_of_in : Json → Option Json → Checked (Unit {0})
  check_all_of_in value none = ok tt
  check_all_of_in value (some branches) = list_of branches >>= λ them. check_each value them

  unfoldable pub check_all_of : Json → Fields → Checked (Unit {0})
  check_all_of value schema = check_all_of_in value (find schema "allOf")

  abbrev pub check_then : Json → Option Json → Bool → Checked (Unit {0})
  check_then value (some consequence) true = check value consequence
  check_then value _ _ = ok tt

  abbrev pub check_if_of : Json → Option Json → Option Json → Checked (Unit {0})
  check_if_of value none consequence = ok tt
  check_if_of value (some condition) consequence =
      as_test (check value condition) >>= check_then value consequence

  unfoldable pub check_if : Json → Fields → Checked (Unit {0})
  check_if value schema = check_if_of value (find schema "if") (find schema "then")
