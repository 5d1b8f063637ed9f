-- ===== src/Gate/Decision.antt =====
-- The decision of the gate (scripts/validation_gate.py): `validate_gate`, `requirements_for_milestone`
-- and `main`. `required` stands for the set of the required scenarios; its order only says which
-- rejection is told first.
pub mod Scenario
pub mod Support
use hp_lj_1020_driver.Base.{
  ℕ, zero, suc, String, Bool, true, false, not, ◌&&◌, ◌||◌, ◌==◌, leb, Option, none, some, List, [],
  ◌∷◌, ◌++◌, any, all, elem, map, is_empty, str_eq, if◌then◌else◌,
}
use hp_lj_1020_driver.Base.Prog.{Outcome, ok, err}
use hp_lj_1020_driver.Base.Checked.{◌>>=◌, ◌>>◌}
use hp_lj_1020_driver.Base.Json.{
  Json, null, number, string, array, object, Items, end, item, Fields, empty, field, get, elements,
}
use hp_lj_1020_driver.Base.Json.Order.{json_eq}
use hp_lj_1020_driver.Schema.Members.{is_truthy}
use hp_lj_1020_driver.Schema.Reference.{
  Error as SchemaError, schema_error, crash as schema_crash, exhausted,
}
use hp_lj_1020_driver.Schema.Validate.{validate}
use hp_lj_1020_driver.Gate.Values.{
  Error, crash, invalid, Checked, reject_if, index, is_true, is_text, is_full_text, says, sha,
  commit, object_list, texts, in_set, is_subset, check_environment, check_redacted,
}
use hp_lj_1020_driver.Gate.Rows.{Table, lookup, row_names, milestones, scenario_map}
use hp_lj_1020_driver.Gate.Evidence.{Evidence, verify_evidence}
use hp_lj_1020_driver.Gate.Judge.{
  attempts_of, texts_at, has_failed, check_results, check_reliability, paths_for, same_field,
  check_printers, same_scopes, binds, is_picture, pointers_of, object_or,
}

-- The row and the result of a required scenario, both verified; the row is there since it was looked
-- for before.
abbrev pub pair_of : Option Fields → Option Fields → Checked (Fields × Fields)
pair_of none result = err crash
pair_of (some row) none = err (invalid "required scenario is not verified")
pair_of (some row) (some result) =
    reject_if (not (says (get row "state") "verified" && says (get result "state") "verified"))
      "required scenario is not verified"
    >> ok (row, result)

unfoldable pub verified_pair : Table → Table → String → Checked (Fields × Fields)
verified_pair scenarios results name = pair_of (lookup scenarios name) (lookup results name)

unfoldable pub check_outcomes : Fields → Fields → Checked (Unit {0})
check_outcomes row result = do
  row_attempts ← attempts_of row
  reject_if (has_failed row_attempts) "required scenario has a failed attempt"
  result_attempts ← attempts_of result
  reject_if (has_failed result_attempts) "required scenario result has a failed attempt"

abbrev pub same_surroundings : Fields → Fields → Bool
same_surroundings row_environment environment =
    all (same_field row_environment environment)
      ("kind" ∷ "macOSVersion" ∷ "macOSBuild" ∷ "architecture" ∷ [])

unfoldable pub check_surroundings : Fields → Fields → List String → Fields → Checked (Unit {0})
check_surroundings manifest environment paths row = do
  recorded ← index row "environment"
  row_environment ← check_environment recorded
  reject_if (not (same_surroundings row_environment environment))
      "expired evidence for environment identity"
  path ← index row "connectionPath"
  required_paths ← paths_for path
  reject_if (not (is_subset required_paths paths)) "lacks its required connection path evidence"
  if says path "host-only" then ok tt else check_printers row manifest

unfoldable pub check_current : Fields → Fields → Fields → Fields → Checked (Unit {0})
check_current manifest manifest_scopes matrix_scopes row = do
  invalidations ← index row "invalidatedBy"
  reject_if (is_truthy invalidations) "expired evidence"
  affected ← texts_at row "affectedScopes"
  same_scopes manifest_scopes matrix_scopes affected
  source ← index row "sourceCommit"
  reject_if (not (json_eq source (get manifest "sourceCommit")))
      "expired evidence for source identity"
  lock ← index row "dependencyLockSha256"
  reject_if (not (json_eq lock (get manifest "dependencyLockSha256")))
      "expired evidence for dependency identity"

unfoldable pub check_pointers : Table → String → Fields → Fields → Checked (Unit {0})
check_pointers evidence name row result = do
  digests ← pointers_of (get result "evidenceSha256")
  reject_if (is_empty digests || not (is_subset digests (row_names evidence)))
      "lacks passing immutable evidence"
  reject_if (not (all (binds evidence name) digests)) "evidence is bound to another scenario"
  pictured ← index row "requiresArtifactEvidence"
  reject_if (is_truthy pictured && not (any (is_picture evidence) digests))
      "requires scan or photograph evidence"
  listed ← texts_at row "evidence"
  reject_if (not (is_subset listed digests)) "matrix evidence is absent from the manifest"

abbrev pub check_claim : List String → Table → Fields → Checked (Unit {0})
check_claim required results claim = do
  gated ← in_set (get claim "scenarioId") required
  reject_if (not gated || not (is_full_text (get claim "statement")))
      "support claim references ungated scenario"
  result ← elim (get claim "scenarioId") [
    | string name ↦ elim (lookup results name) [ none ↦ err crash | some result ↦ ok result ]
    | _ ↦ err crash
  ]
  reject_if (not (says (get result "state") "verified")) "support claim has no passing evidence"

abbrev pub check_claims : List String → Table → List Fields → Checked (Unit {0})
check_claims required results [] = ok tt
check_claims required results (claim ∷ claims) =
    check_claim required results claim >> check_claims required results claims

abbrev pub fields_or_crash : Json → Checked Fields
fields_or_crash (object fields) = ok fields
fields_or_crash _ = err crash

-- `json_schema.validate`, whose errors are rejections
abbrev accepted : Outcome SchemaError (Unit {0}) → Checked (Unit {0})
accepted (ok x) = ok tt
accepted (err (schema_error path problem)) = err (invalid "schema validation failed")
accepted (err schema_crash) = err crash
accepted (err exhausted) = err crash

abbrev pub is_path : Json → Bool
is_path =
    is_text (λ s. elem s ("host-only" ∷ "ugreen-thunderbolt-4-dock" ∷ "direct-usb-a-to-usb-c" ∷ []))

-- What the gate takes from its surroundings: the two schemas, where they can be read, the searches,
-- `datetime.fromisoformat`, the digest of the canonical text of a document, the evidence, and how deep
-- the calls of the schema validation may nest.
pub record Surroundings : Type 0 where
  pub matrix_schema : Option Json
  pub manifest_schema : Option Json
  pub search : String → String → Option Bool
  pub from_iso : String → Option Bool
  pub private_path : String → Bool
  pub exposed_secret : String → Bool
  pub firmware_name : String → Bool
  pub canonical_sha256 : Json → String
  pub evidence : Evidence
  pub depth : ℕ

abbrev given : Option Json → Checked Json
given none = err (invalid "schema validation failed")
given (some value) = ok value

abbrev pub scopes_of : Fields → String → Checked Fields
scopes_of document message = object_or (get document "scopeIdentities") message

module _ (at : Surroundings) where
  abbrev check_schema : Json → Json → Checked (Unit {0})
  check_schema value schema = fields_or_crash schema >>= λ root.
      accepted (validate at.search at.from_iso at.depth root value schema)

  abbrev pub check_schemas : Json → Json → Checked (Unit {0})
  check_schemas matrix manifest = do
    matrix_schema ← given at.matrix_schema
    manifest_schema ← given at.manifest_schema
    check_schema matrix matrix_schema
    check_schema manifest manifest_schema

  -- The manifest as a whole: its environment and connection paths
  unfoldable pub check_seal : Fields → List Fields → Checked (Fields × List String)
  check_seal manifest claims = do
    reject_if (not (is_true (get manifest "redacted"))) "validation manifest is not redacted"
    let passed : Bool = says (get manifest "result") "passed"
    let sealed : Bool = is_true (get manifest "sealed")
    reject_if (not (is_empty claims) && not (passed && sealed))
        "support claim requires a passing, sealed, redacted manifest"
    reject_if (not passed || not sealed) "gate requires a passing sealed manifest"
    environment ← check_environment (get manifest "environment")
    reject_if (says (get environment "kind") "supplementary-vm")
        "supplementary VM evidence cannot establish support"
    reject_if (not (is_empty claims) && not (says (get environment "kind") "reference-mac"))
        "support claims require reference-Mac evidence"
    listed ← texts (get environment "connectionPaths") "has no connection paths"
    reject_if (not (all (λ s. is_path (string s)) listed)) "has no connection paths"
    ok (environment, listed)

  -- The identities that the manifest records
  unfoldable pub check_identities : Json → Fields → Option String → Checked Fields
  check_identities matrix manifest matrix_sha256 = do
    recorded ← sha (get manifest "capabilityMatrixSha256")
    commit (get manifest "sourceCommit")
    commit (get manifest "specificationCommit")
    sha (get manifest "dependencyLockSha256")
    sha (get manifest "buildManifestSha256")
    let actual : String = elim matrix_sha256 [
      | none ↦ at.canonical_sha256 matrix
      | some s ↦ if str_eq s "" then at.canonical_sha256 matrix else s
    ]
    reject_if (not (str_eq recorded actual)) "capability matrix identity does not match"
    scopes_of manifest "validation manifest has no affected-scope identities"

  -- One round of the loop over the required scenarios
  unfoldable pub judge :
      Fields
      → Fields
      → Fields
      → Fields
      → List String
      → Table
      → Table
      → Table
      → String
      → Checked (Unit {0})
  judge manifest manifest_scopes matrix_scopes environment paths scenarios results evidence name =
      do
        (row, result) ← verified_pair scenarios results name
        check_outcomes row result
        check_surroundings manifest environment paths row
        check_current manifest manifest_scopes matrix_scopes row
        check_pointers evidence name row result
        check_reliability row result

  unfoldable pub judge_all :
      Fields
      → Fields
      → Fields
      → Fields
      → List String
      → Table
      → Table
      → Table
      → List String
      → Checked (Unit {0})
  judge_all manifest manifest_scopes matrix_scopes environment paths scenarios results evidence [] =
      ok tt
  judge_all manifest manifest_scopes matrix_scopes environment paths scenarios results evidence
        (name ∷ names) =
      judge manifest manifest_scopes matrix_scopes environment paths scenarios results evidence name
      >> judge_all manifest manifest_scopes matrix_scopes environment paths scenarios results
          evidence names

  -- `validate_gate`, from the rows of the matrix on
  unfoldable pub decide :
      Json → Fields → Fields → List String → List String → Option String → Checked (Unit {0})
  decide document matrix manifest known required matrix_sha256 = do
    scenarios ← scenario_map matrix known
    reject_if (not (is_subset required (row_names scenarios))) "missing required scenario row"
    claims ← object_list (get manifest "supportClaims")
    (environment, paths) ← check_seal manifest claims
    manifest_scopes ← check_identities document manifest matrix_sha256
    listed ← object_list (get manifest "scenarioResults")
    results ← check_results scenarios known [] listed
    evidence ←
        verify_evidence at.evidence at.private_path at.exposed_secret at.firmware_name manifest
          (row_names scenarios)
    matrix_scopes ← scopes_of matrix "capability matrix has no scope identities"
    judge_all manifest manifest_scopes matrix_scopes environment paths scenarios results evidence
        required
    check_claims required results claims

  unfoldable pub validate_gate :
      Json → Json → List String → List String → String → Option String → Checked (Unit {0})
  validate_gate matrix manifest known required milestone matrix_sha256 = do
    reject_if (not (elem milestone milestones)) "unknown milestone"
    check_schemas matrix manifest
    check_redacted at.private_path at.exposed_secret at.firmware_name manifest
    matrix_fields ← fields_or_crash matrix
    manifest_fields ← fields_or_crash manifest
    decide matrix matrix_fields manifest_fields known required matrix_sha256

-- A requirement of the specification, as scripts/check_implementation_spec.py reads it
pub record Requirement : Type 0 where
  pub identity : String
  pub milestone : String
  pub status : String
  pub coverage : List String

-- `MILESTONES.index(milestone)`; a `ValueError` is a rejection.
abbrev position : String → List String → Checked ℕ
position name [] = err (invalid "unknown milestone")
position name (m ∷ ms) = if str_eq m name then ok 0 else position name ms >>= λ i. ok (suc i)

-- The scenarios that cover what is due at a milestone, without repetitions
abbrev add_new : List String → List String → List String
add_new [] names = names
add_new (s ∷ ss) names = if elem s names then add_new ss names else s ∷ add_new ss names

abbrev required_by : ℕ → List Requirement → Checked (List String)
required_by maximum [] = ok []
required_by maximum (r ∷ rs) =
    if str_eq r.status "DEFERRED"
    then required_by maximum rs
    else position r.milestone milestones >>= λ i. required_by maximum rs >>= λ rest.
        ok (if leb i maximum then add_new r.coverage rest else rest)

unfoldable pub requirements_for_milestone :
    List Requirement → String → Checked (List String × List String)
requirements_for_milestone requirements milestone = do
  maximum ← position milestone milestones
  required ← required_by maximum requirements
  ok (map (λ r. r.identity) requirements, required)

-- The files of a run: whether the manifest may be written, the two documents where they can be read
-- and parsed, the digest of the matrix, and the requirements where the specification is in order.
pub record Inputs : Type 0 where
  pub is_writable : Bool
  pub matrix : Option Json
  pub manifest : Option Json
  pub matrix_sha256 : String
  pub requirements : Option (List Requirement)

abbrev readable : {A : Type 0} → Option A → Checked A
readable none = err (invalid "cannot be read")
readable (some value) = ok value

unfoldable pub run_gate : Surroundings → Inputs → String → Checked (Unit {0})
run_gate at inputs milestone = do
  reject_if inputs.is_writable "sealed validation manifest is writable"
  matrix ← readable inputs.matrix
  manifest ← readable inputs.manifest
  requirements ← readable inputs.requirements
  (known, required) ← requirements_for_milestone requirements milestone
  validate_gate at matrix manifest known required milestone (some inputs.matrix_sha256)

-- The exit status; a crash leaves the program with a traceback.
abbrev status_of : Checked (Unit {0}) → Outcome Error ℕ
status_of (ok x) = ok 0
status_of (err (invalid message)) = ok 1
status_of (err crash) = err crash

unfoldable pub main : Surroundings → Inputs → String → Outcome Error ℕ
main at inputs milestone = status_of (run_gate at inputs milestone)
