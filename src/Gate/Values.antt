-- ===== src/Gate/Values.antt =====
-- The checks of single values (scripts/validation_gate.py): `_sha`, `_commit`, `_object_list`, `_ids`,
-- `_check_intermittency`, `_validate_redacted_strings`, `_validate_environment`, `_validate_printer`.
use hp_lj_1020_driver.Base.{
  ℕ, String, Bool, true, false, not, ◌&&◌, ◌||◌, leb, ◌==◌, none, some, List, [], ◌∷◌, any, all,
  elem, is_empty, if◌then◌else◌,
}
use hp_lj_1020_driver.Base.Text.{is_hex, strip, is_nonempty}
use hp_lj_1020_driver.Base.Prog.{Outcome, ok, err}
use hp_lj_1020_driver.Base.Checked.{◌>>=◌, ◌>>◌}
use hp_lj_1020_driver.Base.Json.{
  Json, null, boolean, number, string, array, object, whole, Items, end, item, Fields, empty, field,
  get, find,
}
use hp_lj_1020_driver.Base.Json.Order.{json_eq}

-- `crash` is a `TypeError`, `KeyError` or `AttributeError`, none of which `main` catches.
pub data Error : Type 0 where
  invalid : String → Error
  crash : Error

abbrev pub Checked : Type 0 → Type 0
Checked A = Outcome Error A

abbrev pub reject_if : Bool → String → Checked (Unit {0})
reject_if true message = err (invalid message)
reject_if false message = ok tt

-- `fields[key]`
abbrev pub index : Fields → String → Checked Json
index fields key = elim (find fields key) [ none ↦ err crash | some value ↦ ok value ]

abbrev pub is_true : Json → Bool
is_true (boolean b) = b
is_true _ = false

abbrev pub is_text : (String → Bool) → Json → Bool
is_text p (string s) = p s
is_text p _ = false

-- `isinstance(value, str) and value`
abbrev pub is_full_text : Json → Bool
is_full_text = is_text is_nonempty

abbrev pub says : Json → String → Bool
says value s = json_eq value (string s)

unfoldable pub sha : Json → Checked String
sha (string s) = if is_hex 64 s then ok s else err (invalid "not a SHA-256")
sha _ = err (invalid "not a SHA-256")

unfoldable pub commit : Json → Checked String
commit (string s) = if is_hex 40 s then ok s else err (invalid "not a full Git commit")
commit _ = err (invalid "not a full Git commit")

abbrev pub objects : Items → Checked (List Fields)
objects end = ok []
objects (item (object fields) items) = objects items >>= λ rest. ok (fields ∷ rest)
objects (item _ items) = err (invalid "must be an array of objects")

unfoldable pub object_list : Json → Checked (List Fields)
object_list (array items) = objects items
object_list _ = err (invalid "must be an array of objects")

abbrev texts_from : Items → String → Checked (List String)
texts_from end message = ok []
texts_from (item (string s) items) message = texts_from items message >>= λ rest. ok (s ∷ rest)
texts_from (item _ items) message = err (invalid message)

-- A list of texts
abbrev pub texts : Json → String → Checked (List String)
texts (array items) message = texts_from items message
texts _ message = err (invalid message)

abbrev pub has_duplicates : List String → Bool
has_duplicates [] = false
has_duplicates (s ∷ ss) = elem s ss || has_duplicates ss

-- `set(xs) <= set(ys)` and `set(xs) == set(ys)`
abbrev pub is_subset : List String → List String → Bool
is_subset xs ys = all (λ x. elem x ys) xs

abbrev pub same_set : List String → List String → Bool
same_set xs ys = is_subset xs ys && is_subset ys xs

unfoldable pub ids : Json → List String → Checked (List String)
ids value known = do
  listed ← texts value "must contain requirement IDs"
  reject_if (is_empty listed) "must contain requirement IDs"
  reject_if (not (is_subset listed known)) "contains an unknown requirement"
  reject_if (has_duplicates listed) "contains duplicate requirement IDs"
  ok listed

-- A value that is looked for in a set: a list and a dictionary cannot be.
abbrev pub in_set : Json → List String → Checked Bool
in_set (array items) allowed = err crash
in_set (object fields) allowed = err crash
in_set value allowed = ok (any (says value) allowed)

abbrev elem_number : ℕ → List ℕ → Bool
elem_number n = any (λ m. n == m)

abbrev attempt_number : Json → List ℕ → Checked ℕ
attempt_number (number (whole n)) numbers =
    reject_if (not (leb 1 n) || elem_number n numbers) "invalid attempt numbering" >> ok n
attempt_number _ numbers = err (invalid "invalid attempt numbering")

-- The outcomes of the attempts; `numbers` are those before.
abbrev check_attempts : List Fields → List ℕ → Checked (List Json)
check_attempts [] numbers = ok []
check_attempts (attempt ∷ attempts) numbers = do
  n ← attempt_number (get attempt "attempt") numbers
  known ← in_set (get attempt "outcome") ("passed" ∷ "failed" ∷ [])
  reject_if (not known) "invalid attempt outcome"
  reject_if (not (is_full_text (get attempt "observedAt"))) "attempt has no timestamp"
  reject_if (not (is_full_text (get attempt "summary"))) "attempt has no result summary"
  rest ← check_attempts attempts (n ∷ numbers)
  ok (get attempt "outcome" ∷ rest)

-- `len(outcomes) > 1`, for the outcomes as a set
abbrev differ : List Json → Bool
differ [] = false
differ (outcome ∷ outcomes) = any (λ other. not (json_eq other outcome)) outcomes

unfoldable pub check_intermittency : Json → Json → Checked (List Fields)
check_intermittency attempts explanation = do
  rows ← object_list attempts
  outcomes ← check_attempts rows []
  reject_if (differ outcomes && not (is_text (λ s. is_nonempty (strip s)) explanation))
      "unexplained intermittency"
  ok rows

unfoldable pub check_environment : Json → Checked Fields
check_environment (object environment) = do
  known ←
      in_set (get environment "kind")
        ("hosted-ci" ∷ "local-host" ∷ "reference-mac" ∷ "supplementary-vm" ∷ [])
  reject_if (not known) "validation environment has an invalid kind"
  reject_if (not (is_full_text (get environment "macOSVersion"))) "has no macOSVersion"
  reject_if (not (is_full_text (get environment "macOSBuild"))) "has no macOSBuild"
  reject_if (not (says (get environment "architecture") "arm64")) "is not arm64"
  ok environment
check_environment _ = err (invalid "validation environment must be an object")

unfoldable pub check_printer : Json → Checked Fields
check_printer (object printer) = do
  reject_if
      (not (says (get printer "model") "HP LaserJet 1020")
        || not (says (get printer "vendorProduct") "03f0:2b17"))
      "printer identity is not the reference printer model"
  sha (get printer "serialSha256")
  let firmware = get printer "firmwareVersion"
  reject_if (not (json_eq firmware null) && not (is_full_text firmware))
      "printer firmware identity is invalid"
  ok printer
check_printer _ = err (invalid "printer identity must be an object")

-- `PRIVATE_SOURCE_PATH`, `EXPOSED_SECRET` and `FIRMWARE_NAME`, as searches
module _ (private_path exposed_secret firmware_name : String → Bool) where
  unfoldable pub check_content : String → Checked (Unit {0})
  check_content content = do
    reject_if (private_path content) "retains a private source filename"
    reject_if (exposed_secret content) "retains credentials or user identity"
    reject_if (firmware_name content) "retains firmware identity"

  unfoldable mutual
    pub check_redacted : Json → Checked (Unit {0})
    check_redacted (object fields) = redacted_fields fields
    check_redacted (array items) = redacted_items items
    check_redacted (string s) = check_content s
    check_redacted null = ok tt
    check_redacted (boolean b) = ok tt
    check_redacted (number x) = ok tt

    pub redacted_fields : Fields → Checked (Unit {0})
    redacted_fields empty = ok tt
    redacted_fields (field name value fields) = check_redacted value >> redacted_fields fields

    pub redacted_items : Items → Checked (Unit {0})
    redacted_items end = ok tt
    redacted_items (item value items) = check_redacted value >> redacted_items items
