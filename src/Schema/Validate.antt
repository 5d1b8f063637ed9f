-- ===== src/Schema/Validate.antt =====
-- `validate` (scripts/json_schema.py). The fuel bounds how deep the calls nest; the path of an error is
-- put together on the way out, where the source hands it down.
use hp_lj_1020_driver.Base.{ℕ, zero, suc, String, Bool, Option}
use hp_lj_1020_driver.Base.Prog.{ok, err}
use hp_lj_1020_driver.Base.Checked.{◌>>◌}
use hp_lj_1020_driver.Base.Json.{
  Json, null, boolean, number, string, array, object, Fields, elements,
}
use hp_lj_1020_driver.Schema.Reference.{crash, exhausted, Checked}
use hp_lj_1020_driver.Schema.Keywords.{
  Check, check_reference, check_type, check_const, check_enum, check_one_of, check_not,
  check_all_of, check_if,
}
use hp_lj_1020_driver.Schema.Members.{check_object, check_array, check_string, check_number}

module _ (search : String → String → Option Bool) (from_iso : String → Option Bool) where
  -- The four parts for the types of values; a Boolean is no number here.
  unfoldable pub check_members : Check → Json → Fields → Checked (Unit {0})
  check_members check (object value) schema = check_object check value schema
  check_members check (array value) schema = check_array check (elements value) schema
  check_members check (string value) schema = check_string search from_iso value schema
  check_members check (number value) schema = check_number value schema
  check_members check null schema = ok tt
  check_members check (boolean value) schema = ok tt

  -- One call, less its recursive calls.
  unfoldable pub validate_with : Check → Fields → Json → Fields → Checked (Unit {0})
  validate_with check root value schema = do
    check_reference check root value schema
    check_type value schema
    check_const value schema
    check_enum value schema
    check_one_of check value schema
    check_not check value schema
    check_members check value schema
    check_all_of check value schema
    check_if check value schema

  unfoldable pub validate : ℕ → Fields → Check
  validate zero root value schema = err exhausted
  validate (suc fuel) root value (object schema) =
      validate_with (validate fuel root) root value schema
  validate (suc fuel) root value null = err crash
  validate (suc fuel) root value (boolean b) = err crash
  validate (suc fuel) root value (number x) = err crash
  validate (suc fuel) root value (string s) = err crash
  validate (suc fuel) root value (array xs) = err crash
