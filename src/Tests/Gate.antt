-- ===== src/Tests/Gate.antt =====
-- A gate that accepts, and the theorem on it.
use hp_lj_1020_driver.Base.{
  ◌≡◌, refl, String, ◌<>◌, true, false, none, some, List, [], ◌∷◌, str_eq, All, if◌then◌else◌,
}
use hp_lj_1020_driver.Base.Prog.{ok}
use hp_lj_1020_driver.Base.Json.{
  Json, Fields, Items, whole, null, boolean, number, string, array, object, end, item, empty, field,
}
use hp_lj_1020_driver.Gate.Decision.{Surroundings, validate_gate}
use hp_lj_1020_driver.Gate.Decision.Support.{Establishes, validate_gate_supported}
use hp_lj_1020_driver.Gate.Rows.{Table}
use hp_lj_1020_driver.Gate.Evidence.{verify_evidence}
use hp_lj_1020_driver.Gate.Evidence.Vouched.{IsVouched, verify_evidence-All}
use hp_lj_1020_driver.Tests.{measurement}

abbrev commit_id : String
commit_id = "0123456789abcdef0123456789abcdef01234567"

abbrev sum_of_log : String
sum_of_log = "1111111111111111111111111111111111111111111111111111111111111111"

abbrev sum_of_measurement : String
sum_of_measurement = "2222222222222222222222222222222222222222222222222222222222222222"

abbrev sum_of_summary : String
sum_of_summary = "3333333333333333333333333333333333333333333333333333333333333333"

abbrev only_text : String → Json
only_text s = array (item (string s) end)

abbrev attempts : Json
attempts = array (
    item
      (object (
        field "attempt" (number (whole 1)) (
          field "outcome" (string "passed")
            (field "observedAt" (string "2026-01-01") (field "summary" (string "fine") empty)))))
      end)

abbrev environment : Json
environment = object (
    field "kind" (string "reference-mac") (
      field "macOSVersion" (string "26.0") (
        field "macOSBuild" (string "25A1") (
          field "architecture" (string "arm64")
            (field "connectionPaths" (only_text "host-only") empty)))))

abbrev scopes : Json
scopes = object (field "core" (string sum_of_log) empty)

abbrev row : Fields
row = field "scenarioId" (string "SCN-1") (
    field "requirementIds" (only_text "R-1") (
      field "milestone" (string "BASIC") (
        field "state" (string "verified") (
          field "affectedScopes" (only_text "core") (
            field "invalidatedBy" (array end) (
              field "attempts" attempts (
                field "environment" environment (
                  field "sourceCommit" (string commit_id) (
                    field "dependencyLockSha256" (string sum_of_log) (
                      field "observedResult" (string "printed") (
                        field "executedAt" (string "2026-01-01") (
                          field "evidence" (only_text sum_of_log) (
                            field "connectionPath" (string "host-only")
                              (field "requiresArtifactEvidence" (boolean false) empty))))))))))))))

abbrev matrix : Fields
matrix = field "schemaVersion" (string "1.0.0") (
    field "matrixVersion" (number (whole 1))
      (field "scopeIdentities" scopes (field "scenarios" (array (item (object row) end)) empty)))

abbrev evidence_fields : String → String → String → Fields
evidence_fields path sum kind = field "path" (string path) (
    field "sha256" (string sum) (
      field "immutable" (boolean true) (
        field "result" (string "passed") (
          field "privacyChecked" (boolean true)
            (field "scenarioIds" (only_text "SCN-1") (field "kind" (string kind) empty))))))

abbrev evidence_of : String → String → String → Json
evidence_of path sum kind = object (evidence_fields path sum kind)

abbrev result : Fields
result = field "scenarioId" (string "SCN-1") (
    field "requirementIds" (only_text "R-1") (
      field "attempts" attempts (
        field "state" (string "verified") (
          field "summary" (string "fine") (
            field "observedAt" (string "2026-01-01")
              (field "evidenceSha256" (only_text sum_of_log) empty))))))

abbrev manifest : Fields
manifest = field "redacted" (boolean true) (
    field "result" (string "passed") (
      field "sealed" (boolean true) (
        field "environment" environment (
          field "capabilityMatrixSha256" (string sum_of_summary) (
            field "sourceCommit" (string commit_id) (
              field "specificationCommit" (string commit_id) (
                field "dependencyLockSha256" (string sum_of_log) (
                  field "buildManifestSha256" (string sum_of_log) (
                    field "scopeIdentities" scopes (
                      field "scenarioResults" (array (item (object result) end)) (
                        field "supportClaims"
                          (array (
                            item
                              (object (
                                field "scenarioId" (string "SCN-1")
                                  (field "statement" (string "It prints.") empty)))
                              end))
                          (field "evidence"
                            (array (
                              item (evidence_of "log" sum_of_log "sanitized-log") (
                                item (evidence_of "measurement" sum_of_measurement "measurement")
                                  (item (evidence_of "summary" sum_of_summary "summary") end))))
                            empty))))))))))))

abbrev at : Surroundings
at = record {
  matrix_schema = some (object empty);
  manifest_schema = some (object empty);
  search = λ pattern s. some true;
  from_iso = λ s. some true;
  private_path = λ s. false;
  exposed_secret = λ s. false;
  firmware_name = λ s. false;
  canonical_sha256 = λ document. "";
  evidence = record {
    is_inside = λ path. true;
    is_file = λ path. true;
    digest = λ path.
        if str_eq path "log"
        then sum_of_log
        else if str_eq path "measurement"
        then sum_of_measurement
        else sum_of_summary;
    is_writable = λ path. false;
    content = λ path. some "";
    is_utf8 = λ path. true;
    document = λ path. some (object measurement);
  };
  depth = 1;
}

accepts :
    validate_gate at
      (object matrix)
      (object manifest)
      ("R-1" ∷ [])
      ("SCN-1" ∷ [])
      "BASIC"
      (some sum_of_summary)
    ≡ ok tt
unfolding hp_lj_1020_driver.Base.Text.is_hex hp_lj_1020_driver.Base.Json.Order.items_eq
    hp_lj_1020_driver.Schema.Reference.split_slash hp_lj_1020_driver.Schema.Keywords.check_type
    hp_lj_1020_driver.Schema.Keywords.check_const hp_lj_1020_driver.Schema.Keywords.check_enum
    hp_lj_1020_driver.Schema.Keywords.check_reference hp_lj_1020_driver.Schema.Keywords.check_one_of
    hp_lj_1020_driver.Schema.Keywords.check_not hp_lj_1020_driver.Schema.Keywords.check_all_of
    hp_lj_1020_driver.Schema.Keywords.check_if hp_lj_1020_driver.Schema.Members.check_required
    hp_lj_1020_driver.Schema.Members.check_required_of
    hp_lj_1020_driver.Schema.Members.check_few_properties
    hp_lj_1020_driver.Schema.Members.check_properties
    hp_lj_1020_driver.Schema.Members.check_additional hp_lj_1020_driver.Schema.Members.check_names
    hp_lj_1020_driver.Schema.Members.check_properties_of
    hp_lj_1020_driver.Schema.Members.check_object hp_lj_1020_driver.Schema.Validate.check_members
    hp_lj_1020_driver.Schema.Validate.validate_with hp_lj_1020_driver.Schema.Validate.validate
    hp_lj_1020_driver.Measurement.Reading.exact_fields
    hp_lj_1020_driver.Measurement.Reading.object_of
    hp_lj_1020_driver.Measurement.Reading.integer_list
    hp_lj_1020_driver.Measurement.Reading.to_float hp_lj_1020_driver.Measurement.Reading.number_of
    hp_lj_1020_driver.Measurement.Reading.boolean_of
    hp_lj_1020_driver.Measurement.Reading.count_from
    hp_lj_1020_driver.Measurement.Reading.check_identity
    hp_lj_1020_driver.Measurement.Reading.read_pages
    hp_lj_1020_driver.Measurement.Reading.read_quality
    hp_lj_1020_driver.Measurement.Reading.read_inspection
    hp_lj_1020_driver.Measurement.Reading.check_privacy hp_lj_1020_driver.Measurement.Reading.read
    hp_lj_1020_driver.Measurement.Criteria.failures
    hp_lj_1020_driver.Measurement.Criteria.check_result
    hp_lj_1020_driver.Measurement.Criteria.validate_measurement hp_lj_1020_driver.Gate.Values.sha
    hp_lj_1020_driver.Gate.Values.commit hp_lj_1020_driver.Gate.Values.object_list
    hp_lj_1020_driver.Gate.Values.ids hp_lj_1020_driver.Gate.Values.check_intermittency
    hp_lj_1020_driver.Gate.Values.check_environment hp_lj_1020_driver.Gate.Values.check_content
    hp_lj_1020_driver.Gate.Values.redacted_items hp_lj_1020_driver.Gate.Rows.check_verified
    hp_lj_1020_driver.Gate.Rows.check_row hp_lj_1020_driver.Gate.Rows.check_rows
    hp_lj_1020_driver.Gate.Rows.scenario_map hp_lj_1020_driver.Gate.Evidence.check_file
    hp_lj_1020_driver.Gate.Evidence.check_evidence hp_lj_1020_driver.Gate.Evidence.check_each
    hp_lj_1020_driver.Gate.Evidence.verify_evidence hp_lj_1020_driver.Gate.Judge.check_result
    hp_lj_1020_driver.Gate.Judge.check_results hp_lj_1020_driver.Gate.Judge.check_reliability
    hp_lj_1020_driver.Gate.Decision.verified_pair hp_lj_1020_driver.Gate.Decision.check_outcomes
    hp_lj_1020_driver.Gate.Decision.check_surroundings hp_lj_1020_driver.Gate.Decision.check_current
    hp_lj_1020_driver.Gate.Decision.check_pointers hp_lj_1020_driver.Gate.Decision.check_seal
    hp_lj_1020_driver.Gate.Decision.check_identities hp_lj_1020_driver.Gate.Decision.judge
    hp_lj_1020_driver.Gate.Decision.judge_all hp_lj_1020_driver.Gate.Decision.decide
    hp_lj_1020_driver.Gate.Decision.validate_gate
accepts = refl

validate_gate_supported_example : Establishes at matrix manifest ("SCN-1" ∷ [])
validate_gate_supported_example =
    validate_gate_supported at matrix manifest ("R-1" ∷ []) ("SCN-1" ∷ []) "BASIC"
      (some sum_of_summary) accepts

abbrev seen : Table
seen =
    (sum_of_log, evidence_fields "log" sum_of_log "sanitized-log")
    ∷ (sum_of_measurement, evidence_fields "measurement" sum_of_measurement "measurement")
    ∷ (sum_of_summary, evidence_fields "summary" sum_of_summary "summary")
    ∷ []

verifies :
    verify_evidence at.evidence at.private_path at.exposed_secret at.firmware_name manifest
      ("SCN-1" ∷ [])
    ≡ ok seen
unfolding hp_lj_1020_driver.Base.Text.is_hex hp_lj_1020_driver.Base.Json.Order.items_eq
    hp_lj_1020_driver.Schema.Reference.split_slash
    hp_lj_1020_driver.Measurement.Reading.exact_fields
    hp_lj_1020_driver.Measurement.Reading.object_of
    hp_lj_1020_driver.Measurement.Reading.integer_list
    hp_lj_1020_driver.Measurement.Reading.to_float hp_lj_1020_driver.Measurement.Reading.number_of
    hp_lj_1020_driver.Measurement.Reading.boolean_of
    hp_lj_1020_driver.Measurement.Reading.count_from
    hp_lj_1020_driver.Measurement.Reading.check_identity
    hp_lj_1020_driver.Measurement.Reading.read_pages
    hp_lj_1020_driver.Measurement.Reading.read_quality
    hp_lj_1020_driver.Measurement.Reading.read_inspection
    hp_lj_1020_driver.Measurement.Reading.check_privacy hp_lj_1020_driver.Measurement.Reading.read
    hp_lj_1020_driver.Measurement.Criteria.failures
    hp_lj_1020_driver.Measurement.Criteria.check_result
    hp_lj_1020_driver.Measurement.Criteria.validate_measurement hp_lj_1020_driver.Gate.Values.sha
    hp_lj_1020_driver.Gate.Values.commit hp_lj_1020_driver.Gate.Values.object_list
    hp_lj_1020_driver.Gate.Values.ids hp_lj_1020_driver.Gate.Values.check_intermittency
    hp_lj_1020_driver.Gate.Values.check_environment hp_lj_1020_driver.Gate.Values.check_content
    hp_lj_1020_driver.Gate.Values.redacted_items hp_lj_1020_driver.Gate.Evidence.check_file
    hp_lj_1020_driver.Gate.Evidence.check_evidence hp_lj_1020_driver.Gate.Evidence.check_each
    hp_lj_1020_driver.Gate.Evidence.verify_evidence
verifies = refl

verify_evidence-All_example :
    All (IsVouched at.evidence at.private_path at.exposed_secret at.firmware_name) seen
verify_evidence-All_example =
    verify_evidence-All at.evidence at.private_path at.exposed_secret at.firmware_name manifest
      ("SCN-1" ∷ []) seen verifies
