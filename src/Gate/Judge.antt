-- ===== src/Gate/Judge.antt =====
-- What a required scenario and a claim need (scripts/validation_gate.py): the bodies of the loops of
-- `validate_gate` over the results, the required scenarios and the claims, and `_check_reliability`.
use hp_lj_1020_driver.Base.{
  String, Bool, false, not, ◌||◌, Option, none, some, List, [], ◌∷◌, ◌++◌, any, elem, if◌then◌else◌,
}
use hp_lj_1020_driver.Base.Prog.{ok, err}
use hp_lj_1020_driver.Base.Checked.{◌>>=◌, ◌>>◌}
use hp_lj_1020_driver.Base.Json.{
  Number, whole, negative, Json, null, number, string, array, object, Fields, empty, field, get,
  elements,
}
use hp_lj_1020_driver.Base.Json.Order.{json_eq, number_lt}
use hp_lj_1020_driver.Schema.Members.{is_truthy}
use hp_lj_1020_driver.Gate.Values.{
  crash, invalid, Checked, reject_if, index, is_full_text, says, ids, in_set, same_set,
  check_intermittency, check_printer,
}
use hp_lj_1020_driver.Gate.Rows.{Table, lookup, row_names, states}

-- `value` as the key of a dictionary or in a set: `none` where it is no text
abbrev pub key_of : Json → Checked (Option String)
key_of (array items) = err crash
key_of (object fields) = err crash
key_of (string s) = ok (some s)
key_of _ = ok none

abbrev pub list_or_crash : Json → Checked (List Json)
list_or_crash (array items) = ok (elements items)
list_or_crash _ = err crash

abbrev pub objects_or_crash : List Json → Checked (List Fields)
objects_or_crash [] = ok []
objects_or_crash (object fields ∷ values) = objects_or_crash values >>= λ rest. ok (fields ∷ rest)
objects_or_crash (_ ∷ values) = err crash

abbrev pub strings_or_crash : List Json → Checked (List String)
strings_or_crash [] = ok []
strings_or_crash (string s ∷ values) = strings_or_crash values >>= λ rest. ok (s ∷ rest)
strings_or_crash (_ ∷ values) = err crash

-- `row[key]`, of a row that was found in the map; the types are those that the map has checked.
abbrev pub attempts_of : Fields → Checked (List Fields)
attempts_of row = index row "attempts" >>= list_or_crash >>= objects_or_crash

abbrev pub texts_at : Fields → String → Checked (List String)
texts_at row key = index row key >>= list_or_crash >>= strings_or_crash

-- `any(attempt["outcome"] != "passed" for attempt in attempts)`
abbrev pub has_failed : List Fields → Bool
has_failed = any (λ attempt. not (says (get attempt "outcome") "passed"))

abbrev pub known_scenario : Table → Option String → Checked (String × Fields)
known_scenario scenarios none = err (invalid "manifest references unknown scenario")
known_scenario scenarios (some name) = elim (lookup scenarios name) [
  | none ↦ err (invalid "manifest references unknown scenario")
  | some row ↦ ok (name, row)
]

-- One round of the loop over the results of a passing manifest; the result is the scenario's name.
unfoldable pub check_result : Table → List String → Table → Fields → Checked String
check_result scenarios known before result = do
  key ← key_of (get result "scenarioId")
  (name, row) ← known_scenario scenarios key
  reject_if (elem name (row_names before)) "manifest duplicates scenario result"
  claimed ← ids (get result "requirementIds") known
  required ← texts_at row "requirementIds"
  reject_if (not (same_set claimed required)) "requirement IDs differ from the matrix"
  check_intermittency (get result "attempts") (get result "intermittencyExplanation")
  stated ← in_set (get result "state") states
  reject_if (not stated) "result has an invalid state"
  reject_if (not (says (get result "state") "verified"))
      "passing manifest contains non-verified result"
  reject_if (not (is_full_text (get result "summary"))) "result has no summary"
  reject_if (not (is_full_text (get result "observedAt"))) "result has no timestamp"
  attempts ← index result "attempts"
  reject_if (not (is_truthy attempts)) "verified scenario result has no attempts"
  ok name

unfoldable pub check_results : Table → List String → Table → List Fields → Checked Table
check_results scenarios known before [] = ok before
check_results scenarios known before (result ∷ rest) = do
  name ← check_result scenarios known before result
  check_results scenarios known (before ++ ((name, result) ∷ [])) rest

-- An integer that is no Boolean
abbrev integer : Json → String → Checked Number
integer (number (whole n)) message = ok (whole n)
integer (number (negative n)) message = ok (negative n)
integer _ message = err (invalid message)

abbrev pub object_or : Json → String → Checked Fields
object_or (object fields) message = ok fields
object_or _ message = err (invalid message)

abbrev check_passes : Fields → Fields → Checked (Unit {0})
check_passes empty observed = ok tt
check_passes (field path minimum required) observed = do
  least ← integer minimum "lacks five passing repetitions"
  seen ← integer (get observed path) "lacks five passing repetitions"
  reject_if (number_lt seen least) "lacks five passing repetitions"
  check_passes required observed

abbrev check_counters : Fields → Fields → Checked (Unit {0})
check_counters requirements observations = do
  let wrong : String = "has invalid reliability counters"
  minimum_soak ← integer (get requirements "mixedDocumentSoakJobs") wrong
  minimum_cycles ← integer (get requirements "lifecycleCycles") wrong
  maximum_restarts ← integer (get requirements "maximumServiceRestartsDuringSoak") wrong
  observed_soak ← integer (get observations "mixedDocumentSoakJobs") wrong
  observed_cycles ← integer (get observations "lifecycleCycles") wrong
  observed_restarts ← integer (get observations "serviceRestartsDuringSoak") wrong
  reject_if (number_lt observed_soak minimum_soak) "lacks the 20-job mixed-document soak"
  reject_if (number_lt observed_cycles minimum_cycles) "lacks three complete lifecycle cycles"
  reject_if (number_lt maximum_restarts observed_restarts) "restarted the service during the soak"

abbrev reliability_of : Json → Json → Checked (Unit {0})
reliability_of null observations = ok tt
reliability_of requirements observations = do
  needed ← object_or requirements "lacks reliability observations"
  seen ← object_or observations "lacks reliability observations"
  let passes : String = "criticalTransitionPassesPerConnectionPath"
  required_passes ← object_or (get needed passes) "lacks per-path repetition counts"
  observed_passes ← object_or (get seen passes) "lacks per-path repetition counts"
  check_passes required_passes observed_passes
  check_counters needed seen

unfoldable pub check_reliability : Fields → Fields → Checked (Unit {0})
check_reliability row result =
    reliability_of (get row "reliabilityRequirements") (get result "reliabilityObservations")

abbrev pub paths_for : Json → Checked (List String)
paths_for (string path) =
    if says (string path) "both"
    then ok ("ugreen-thunderbolt-4-dock" ∷ "direct-usb-a-to-usb-c" ∷ [])
    else if elem path ("host-only" ∷ "ugreen-thunderbolt-4-dock" ∷ "direct-usb-a-to-usb-c" ∷ [])
    then ok (path ∷ [])
    else err crash
paths_for _ = err crash

abbrev pub same_field : Fields → Fields → String → Bool
same_field row manifest name = json_eq (get row name) (get manifest name)

abbrev pub check_printers : Fields → Fields → Checked (Unit {0})
check_printers row manifest = do
  used ← check_printer (get row "printer")
  named ← check_printer (get manifest "printer")
  reject_if (not (json_eq (object used) (object named))) "lacks exact printer and firmware identity"

-- The identities of a scope in the manifest and in the matrix
abbrev pub same_scopes : Fields → Fields → List String → Checked (Unit {0})
same_scopes manifest_scopes matrix_scopes [] = ok tt
same_scopes manifest_scopes matrix_scopes (scope ∷ scopes) = do
  current ← index matrix_scopes scope
  reject_if (not (json_eq (get manifest_scopes scope) current))
      "expired evidence for affected scope"
  same_scopes manifest_scopes matrix_scopes scopes

abbrev pub is_bound : String → Json → Bool
is_bound name (array items) = any (λ bound. says bound name) (elements items)
is_bound name _ = false

abbrev pub entry_binds : String → Option Fields → Bool
entry_binds name none = false
entry_binds name (some entry) = is_bound name (get entry "scenarioIds")

abbrev pub binds : Table → String → String → Bool
binds evidence name digest = entry_binds name (lookup evidence digest)

abbrev pub is_picture : Table → String → Bool
is_picture evidence digest = elim (lookup evidence digest) [
  | none ↦ false
  | some entry ↦ says (get entry "kind") "scan" || says (get entry "kind") "photograph"
]

abbrev pub keys_of : List Json → Checked (List String)
keys_of [] = ok []
keys_of (value ∷ values) = do
  first ← key_of value
  rest ← keys_of values
  elim first [ none ↦ err (invalid "lacks passing immutable evidence") | some s ↦ ok (s ∷ rest) ]

-- The digests that a result points to
abbrev pub pointers_of : Json → Checked (List String)
pointers_of (array items) = keys_of (elements items)
pointers_of _ = err (invalid "lacks passing immutable evidence")
