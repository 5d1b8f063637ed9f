-- ===== src/Schema/Reference.antt =====
-- The errors of the validator, and `_resolve` (scripts/json_schema.py).
use hp_lj_1020_driver.Base.{
  ℕ, String, Bool, true, false, Option, none, some, List, [], ◌∷◌, ◌==◌, ◌&&◌, starts_with,
  if◌then◌else◌,
}
use Prim.Native.Char.{Char, code}
use Prim.Native.String.{len, slice}
use hp_lj_1020_driver.Base.Prog.{Outcome, ok, err}
use hp_lj_1020_driver.Base.Json.{Json, string, object, Fields, find}

-- A step of an error's path: `.field`, `[index]` or ` property name`.
pub data Step : Type 0 where
  in_field : String → Step
  at_index : ℕ → Step
  in_name : Step

-- What the message of a `SchemaError` says.
pub data Problem : Type 0 where
  unsupported_reference unresolved_reference reference_not_object : String → Problem
  bad_type not_const not_in_enum not_exactly_one forbidden : Problem
  missing_property : Json → Problem
  additional_property : String → Problem
  few_properties few_items duplicate_items : Problem
  short_string no_match bad_date no_timezone below_minimum : Problem

-- `crash` is any other exception, which a schema that is not well formed may raise; `exhausted` says
-- that the fuel ran out, as the stack does for a schema that refers to itself.
pub data Error : Type 0 where
  schema_error : List Step → Problem → Error
  crash exhausted : Error

abbrev pub Checked : Type 0 → Type 0
Checked A = Outcome Error A

abbrev pub raise_if : Bool → Problem → Checked (Unit {0})
raise_if true problem = err (schema_error [] problem)
raise_if false problem = ok tt

abbrev cons_first : Char → List String → List String
cons_first c [] = String.◌∷◌ c String.[] ∷ []
cons_first c (part ∷ parts) = String.◌∷◌ c part ∷ parts

-- `s.split("/")`
unfoldable pub split_slash : String → List String
split_slash String.[] = String.[] ∷ []
split_slash (String.◌∷◌ c s) =
    let parts = split_slash s in if code c == b'/' then String.[] ∷ parts else cons_first c parts

-- `s.replace("~d", "r")`, for a digit `d` and a character `r`
pub unescape : ℕ → Char → String → String
unescape d r String.[] = String.[]
unescape d r (String.◌∷◌ c String.[]) = String.◌∷◌ c String.[]
unescape d r (String.◌∷◌ c (String.◌∷◌ e s)) =
    let after = unescape d r s in
    let rest = unescape d r (String.◌∷◌ e s) in
    if code c == b'~' && code e == d then String.◌∷◌ r after else String.◌∷◌ c rest

-- One round of the loop of `_resolve`
abbrev step_into : String → Json → Option Json
step_into part (object fields) = find fields (unescape b'0' "~" (unescape b'1' "/" part))
step_into part _ = none

abbrev follow : List String → Option Json → Option Json
follow [] current = current
follow (part ∷ parts) none = none
follow (part ∷ parts) (some current) = follow parts (step_into part current)

abbrev target_of : String → Option Json → Checked Fields
target_of reference none = err (schema_error [] (unresolved_reference reference))
target_of reference (some (object fields)) = ok fields
target_of reference (some _) = err (schema_error [] (reference_not_object reference))

-- `_resolve`; a reference that is no text raises another exception.
pub resolve : Fields → Json → Checked Fields
resolve root (string reference) =
    if starts_with reference "#/"
    then target_of reference
        (follow (split_slash (slice reference 2 (len reference))) (some (object root)))
    else err (schema_error [] (unsupported_reference reference))
resolve root _ = err crash
