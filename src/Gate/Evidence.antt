-- ===== src/Gate/Evidence.antt =====
-- The sealed evidence (scripts/validation_gate.py): `_verify_evidence`, `_validate_output_measurement`,
-- `_validate_private_bytes` and `_validate_utf8_text`. What the files are like is given by name.
pub mod Vouched
use hp_lj_1020_driver.Base.{
  String, Bool, false, not, ◌&&◌, ◌||◌, Option, none, some, List, [], ◌∷◌, ◌++◌, elem, is_empty,
  str_eq, starts_with, if◌then◌else◌,
}
use hp_lj_1020_driver.Base.Text.{is_nonempty}
use hp_lj_1020_driver.Base.Prog.{ok, err}
use hp_lj_1020_driver.Base.Checked.{◌>>=◌, ◌>>◌}
use hp_lj_1020_driver.Base.Json.{Json, string, object, Fields, get}
use hp_lj_1020_driver.Measurement.Reading.{measurement_error, overflow_error}
use hp_lj_1020_driver.Measurement.Criteria.{validate_measurement}
use hp_lj_1020_driver.Schema.Reference.{split_slash}
use hp_lj_1020_driver.Gate.Values.{
  crash, invalid, Checked, reject_if, index, is_true, says, sha, object_list, texts, is_subset,
  same_set, in_set, check_content,
}
use hp_lj_1020_driver.Gate.Rows.{Table, row_names}

-- A file under the evidence root, by its path there: whether it is inside the root when resolved and
-- is a file, its digest, whether anybody may write it, its bytes as Latin-1 text where it can be
-- read, whether it is UTF-8 text, and the value that `json.loads` gives for it.
pub record Evidence : Type 0 where
  pub is_inside : String → Bool
  pub is_file : String → Bool
  pub digest : String → String
  pub is_writable : String → Bool
  pub content : String → Option String
  pub is_utf8 : String → Bool
  pub document : String → Option Json

-- `str(document["scenarioId"])`, of a valid measurement
abbrev measured_scenario : Json → Checked String
measured_scenario (object fields) =
    index fields "scenarioId" >>= elim [ string s ↦ ok s | _ ↦ err crash ]
measured_scenario _ = err crash

abbrev check_measurement : Option Json → Checked String
check_measurement none = err (invalid "invalid output measurement")
check_measurement (some document) = elim (validate_measurement document) [
  | ok x ↦ measured_scenario document
  | err (measurement_error message) ↦ err (invalid "invalid output measurement")
  | err overflow_error ↦ err crash
]

abbrev pub relative_path : Json → Checked String
relative_path (string s) =
    if not (is_nonempty s)
    then err (invalid "validation evidence has no path")
    else if starts_with s "/" || elem ".." (split_slash s)
    then err (invalid "evidence path is not safely relative")
    else ok s
relative_path _ = err (invalid "validation evidence has no path")

abbrev pub kinds : List String
kinds = "sanitized-log" ∷ "measurement" ∷ "scan" ∷ "photograph" ∷ "summary" ∷ "manifest" ∷ []

module _ (files : Evidence) (private_path exposed_secret firmware_name : String → Bool) where
  abbrev pub check_private : Option String → Checked (Unit {0})
  check_private none = err (invalid "cannot inspect evidence privacy")
  check_private (some content) = check_content private_path exposed_secret firmware_name content

  -- What depends on the kind
  abbrev pub check_kind : String → List String → Json → Checked (Unit {0})
  check_kind path bindings kind =
      if says kind "measurement"
      then (check_measurement (files.document path) >>= λ measured.
          reject_if (not (same_set bindings (measured ∷ [])))
            "measurement does not match its binding")
      else if says kind "sanitized-log" || says kind "summary"
      then reject_if (not (files.is_utf8 path)) "text evidence is not UTF-8"
      else ok tt

  -- The file of an evidence: in the root, with the recorded digest, not writable, and nothing private
  unfoldable pub check_file : String → String → Checked (Unit {0})
  check_file path digest = do
    reject_if (not (files.is_inside path)) "evidence path escapes its root"
    reject_if (not (files.is_file path && str_eq (files.digest path) digest))
        "evidence checksum mismatch"
    reject_if (files.is_writable path) "immutable evidence is writable"
    check_private (files.content path)

  -- One round of the loop; the result is the digest.
  unfoldable pub check_evidence : List String → Table → Fields → Checked String
  check_evidence scenarios before evidence = do
    path ← relative_path (get evidence "path")
    digest ← sha (get evidence "sha256")
    reject_if (not (is_true (get evidence "immutable"))) "evidence is not marked immutable"
    reject_if (not (says (get evidence "result") "passed")) "evidence did not pass"
    reject_if (not (is_true (get evidence "privacyChecked"))) "evidence lacks privacy review"
    bindings ← texts (get evidence "scenarioIds") "evidence has no scenario binding"
    reject_if (is_empty bindings) "evidence has no scenario binding"
    reject_if (not (is_subset bindings scenarios)) "evidence has unknown scenario binding"
    check_file path digest
    known ← in_set (get evidence "kind") kinds
    reject_if (not known) "evidence has an invalid kind"
    check_kind path bindings (get evidence "kind")
    reject_if (elem digest (row_names before)) "duplicate evidence digest"
    ok digest

  unfoldable pub check_each : List String → Table → List Fields → Checked Table
  check_each scenarios before [] = ok before
  check_each scenarios before (evidence ∷ rest) = do
    digest ← check_evidence scenarios before evidence
    check_each scenarios (before ++ ((digest, evidence) ∷ [])) rest

  abbrev pub has_kind : Table → String → Bool
  has_kind [] kind = false
  has_kind ((digest, evidence) ∷ rest) kind = says (get evidence "kind") kind || has_kind rest kind

  unfoldable pub verify_evidence : Fields → List String → Checked Table
  verify_evidence manifest scenarios = do
    listed ← object_list (get manifest "evidence")
    table ← check_each scenarios [] listed
    reject_if
        (not (
          has_kind table "sanitized-log"
          && has_kind table "measurement"
          && has_kind table "summary"))
        "validation run lacks an evidence kind"
    ok table
