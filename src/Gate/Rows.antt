-- ===== src/Gate/Rows.antt =====
-- The rows of the capability matrix (scripts/validation_gate.py): `_scenario_map`.
use hp_lj_1020_driver.Base.{
  String, Bool, true, false, not, ◌||◌, Option, none, some, List, [], ◌∷◌, ◌++◌, elem, map, str_eq,
  starts_with, if◌then◌else◌,
}
use hp_lj_1020_driver.Base.Text.{is_nonempty}
use hp_lj_1020_driver.Base.Prog.{ok, err}
use hp_lj_1020_driver.Base.Checked.{◌>>=◌, ◌>>◌}
use hp_lj_1020_driver.Base.Json.{
  Json, null, number, string, array, object, whole, Items, end, item, Fields, empty, field, get,
  has_key,
}
use hp_lj_1020_driver.Base.Json.Order.{json_eq}
use hp_lj_1020_driver.Schema.Members.{is_truthy}
use hp_lj_1020_driver.Gate.Values.{
  crash, invalid, Checked, reject_if, index, is_text, says, sha, commit, object_list, texts, ids,
  in_set, check_intermittency,
}

-- Rows, results and evidence, each under its name
abbrev pub Table : Type 0
Table = List (String × Fields)

abbrev pub lookup : Table → String → Option Fields
lookup [] name = none
lookup ((n, row) ∷ rows) name = if str_eq n name then some row else lookup rows name

abbrev pub row_names : Table → List String
row_names = map (λ e. e.0)

abbrev pub milestones : List String
milestones = "BASIC" ∷ "PERSONAL" ∷ "CAPABILITY" ∷ "PUBLIC" ∷ []

abbrev pub states : List String
states = "verified" ∷ "unverified" ∷ "unsupported" ∷ "deferred" ∷ []

abbrev pub check_identities : Fields → Checked (Unit {0})
check_identities empty = ok tt
check_identities (field name identity fields) =
    reject_if (not (is_nonempty name)) "invalid affected scope"
    >> sha identity
    >> check_identities fields

abbrev check_scope : Fields → Json → Checked (Unit {0})
check_scope scopes (array items) = err crash
check_scope scopes (object fields) = err crash
check_scope scopes (string s) =
    reject_if (not (has_key scopes s)) "unknown or missing affected scope"
check_scope scopes _ = err (invalid "unknown or missing affected scope")

abbrev check_scopes : Fields → Items → Checked (Unit {0})
check_scopes scopes end = ok tt
check_scopes scopes (item scope items) = check_scope scopes scope >> check_scopes scopes items

abbrev pub check_affected : Fields → Json → Checked (Unit {0})
check_affected scopes (array (item scope items)) = check_scopes scopes (item scope items)
check_affected scopes _ = err (invalid "unknown or missing affected scope")

abbrev is_blank : Json → Bool
is_blank value = json_eq value null || says value ""

abbrev require_all : Fields → List String → Checked (Unit {0})
require_all row [] = ok tt
require_all row (name ∷ names) =
    reject_if (is_blank (get row name)) "verified scenario is missing a field"
    >> require_all row names

abbrev is_object : Json → Bool
is_object (object fields) = true
is_object _ = false

abbrev check_digests : Items → Checked (Unit {0})
check_digests end = ok tt
check_digests (item value items) = sha value >> check_digests items

abbrev check_evidence_list : Json → Checked (Unit {0})
check_evidence_list (array (item value items)) = check_digests (item value items)
check_evidence_list _ = err (invalid "verified scenario has no evidence")

unfoldable pub check_verified : Fields → Checked (Unit {0})
check_verified row = do
  require_all row (
      "environment" ∷ "sourceCommit" ∷ "dependencyLockSha256" ∷ "observedResult" ∷ "executedAt"
      ∷ [])
  source ← index row "sourceCommit"
  commit source
  lock ← index row "dependencyLockSha256"
  sha lock
  environment ← index row "environment"
  reject_if (not (is_object environment)) "verified scenario has invalid environment"
  attempts ← index row "attempts"
  reject_if (not (is_truthy attempts)) "verified scenario has no attempts"
  check_evidence_list (get row "evidence")

abbrev pub row_name : Json → Checked String
row_name (string s) =
    if starts_with s "SCN-"
    then ok s
    else err (invalid "capability matrix has an invalid scenario ID")
row_name _ = err (invalid "capability matrix has an invalid scenario ID")

-- One round of the loop over the rows, with the rows before it
unfoldable pub check_row : Fields → List String → Table → Fields → Checked String
check_row scopes known before row = do
  name ← row_name (get row "scenarioId")
  reject_if (elem name (row_names before)) "duplicate capability matrix scenario"
  ids (get row "requirementIds") known
  let milestone = get row "milestone"
  reject_if (not (is_text (λ s. elem s milestones) milestone)) "has an invalid milestone"
  stated ← in_set (get row "state") states
  reject_if (not stated) "has an invalid state"
  check_affected scopes (get row "affectedScopes")
  texts (get row "invalidatedBy") "has invalid invalidation records"
  check_intermittency (get row "attempts") (get row "intermittencyExplanation")
  state ← index row "state"
  (if says state "verified" then check_verified row else ok tt)
  ok name

unfoldable pub check_rows : Fields → List String → Table → List Fields → Checked Table
check_rows scopes known before [] = ok before
check_rows scopes known before (row ∷ rows) = do
  name ← check_row scopes known before row
  check_rows scopes known (before ++ ((name, row) ∷ [])) rows

abbrev pub object_or : Json → String → Checked Fields
object_or (object fields) message = ok fields
object_or _ message = err (invalid message)

unfoldable pub scenario_map : Fields → List String → Checked Table
scenario_map matrix known = do
  reject_if
      (not (says (get matrix "schemaVersion") "1.0.0")
        || not (json_eq (get matrix "matrixVersion") (number (whole 1))))
      "unsupported capability matrix version"
  scopes ← object_or (get matrix "scopeIdentities") "capability matrix has no scope identities"
  check_identities scopes
  rows ← object_list (get matrix "scenarios")
  check_rows scopes known [] rows
