-- ===== src/Tests.antt =====
-- Concrete runs and instances of the theorems, on small inputs.
mod Gate
use hp_lj_1020_driver.Base.Text.{is_hex}
use hp_lj_1020_driver.Base.{
  ◌+◌, ◌≤◌, ◌↔◌, ◌⊎◌, ◌≡◌, refl, true, false, none, List, [], ◌∷◌, ◌++◌, map, reverse, arith,
}
use mathlib.Core.List.{Perm}
use hp_lj_1020_driver.Base.Prog.{Holds, ok}
use hp_lj_1020_driver.Duplex.Plan.{Plan, plan, range, is_binding, is_orientation}
use hp_lj_1020_driver.Duplex.Plan.Sheets.{
  sheets, front, back, printed, plan-sheets, plan_prints_each_page_once, plan_succeeds_iff,
}
use hp_lj_1020_driver.Duplex.Workflow.{ticks, run_workflow}
use hp_lj_1020_driver.Duplex.Workflow.Watch.{watch, start}
use hp_lj_1020_driver.Duplex.Workflow.Watch.Safety.{Ends, run_workflow_safe}
use hp_lj_1020_driver.Duplex.Workflow.Deadline.{timer, Returns, run_workflow-Returns}
use hp_lj_1020_driver.Update.Calls.{Journal, update, migrating}
use hp_lj_1020_driver.Install.Lifecycle.{disable}
use hp_lj_1020_driver.Install.Lifecycle.Quiescent.{looks, Disables, disable_quiescent}
use hp_lj_1020_driver.Base.Json.{
  whole, Json, boolean, number, string, array, object, null, end, item, Fields, empty, field, get,
}
use hp_lj_1020_driver.Measurement.Reading.{
  Reading, exact_fields, object_of, integer_list, to_float, number_of, boolean_of, count_from,
  check_identity, read_pages, read_quality, read_inspection, check_privacy, read,
}
use hp_lj_1020_driver.Measurement.Criteria.{failures, check_result, validate_measurement}
use hp_lj_1020_driver.Measurement.Truth.{Meets, validate_measurement_truthful}
use hp_lj_1020_driver.Install.Preview.{op_uninstall}
use hp_lj_1020_driver.Install.Command.{Options, main}
use hp_lj_1020_driver.Install.Command.Consent.{bystander, Any, main_changes_nothing_unasked}
use hp_lj_1020_driver.Reconcile.{reconcile}
use hp_lj_1020_driver.Reconcile.Guard.{guard, unknown, Converges, reconcile_guarded}
use hp_lj_1020_driver.Base.{String, ◌<>◌, str_eq, is_empty}
use hp_lj_1020_driver.Schema.Validate.{validate}
use hp_lj_1020_driver.Release.Calls.{
  run, run_with, blob, signature, exists, is_file, is_symlink, is_writable, any_writable, digest,
  read_json, read_text, read_bytes, list_tree, list_directory, is_within, relative_to, resolve,
  read_plist, read_archive, source_override, read_version, new_id, now, new_temporary,
  build_manifest, source_scopes, run_gate, owned_installation,
}
use hp_lj_1020_driver.Release.World.{World, Sees}
use hp_lj_1020_driver.Release.Records.{stages, run_directory, records}
use hp_lj_1020_driver.Release.Records.Chain.{IsChain, records-IsChain}
use hp_lj_1020_driver.Release.Tag.{tag_release}
use hp_lj_1020_driver.Release.Tag.Steps.{watch as watch_tag, start as unlisted, Ends as EndsTag}
use hp_lj_1020_driver.Release.Tag.Once.{tag_of, head_of, trust_of, tag_release_once}

abbrev five_pages : Plan
five_pages = record { fronts = 1 ∷ 3 ∷ 5 ∷ []; backs = 0 ∷ 4 ∷ 2 ∷ []; back_rotation = 180 }

plan_of_five : plan 5 "long-edge" "portrait" ≡ ok five_pages
unfolding plan
plan_of_five = refl

plan-sheets_example :
    (five_pages.fronts ≡ map front (sheets 1 5))
    × (five_pages.backs ≡ reverse (map back (sheets 1 5)))
plan-sheets_example = plan-sheets 5 "long-edge" "portrait" {p = five_pages} plan_of_five

plan_prints_each_page_once_example :
    Perm (five_pages.fronts ++ printed five_pages.backs) (range 1 (5 + 1) 1)
plan_prints_each_page_once_example =
    plan_prints_each_page_once 5 "long-edge" "portrait" {p = five_pages} plan_of_five

run_workflow_safe_example :
    Holds
      (watch "fronts.pwg" "backs.pwg")
      (run_workflow 4 "fronts.pwg" "backs.pwg" (ticks 3))
      start
      Ends
run_workflow_safe_example = run_workflow_safe 4 "fronts.pwg" "backs.pwg" (ticks 3)

abbrev interrupted : Journal
interrupted = record {
  run_id = "0123456789abcdef0123456789abcdef";
  tag = "v1.0.0";
  commit = "0123456789abcdef0123456789abcdef01234567";
  operation = update;
  phase = migrating;
  failed_phase = none;
  recovery_outcome = none;
}

disable_quiescent_example :
    Holds looks
      (disable false)
      (record { unloaded = false; tcp_silent = false; socket_silent = false; overridden = false })
      Disables
disable_quiescent_example =
    disable_quiescent false
      (record { unloaded = false; tcp_silent = false; socket_silent = false; overridden = false })

run_workflow-Returns_example :
    Holds timer (run_workflow 3 "fronts.pwg" "backs.pwg" (ticks 2)) 10 Returns
run_workflow-Returns_example = run_workflow-Returns 3 2 10 "fronts.pwg" "backs.pwg" (omega arith)

abbrev short_edge : String
short_edge = "short-edge"

abbrev landscape : String
landscape = "landscape"

plan_succeeds_iff_example : ((p : Plan) × (plan 200 "short-edge" landscape ≡ ok p)) ↔ (
    (2 ≤ 200)
    × (200 ≤ 200)
    × ((short_edge ≡ "long-edge") ⊎ (short_edge ≡ "short-edge"))
    × ((landscape ≡ "portrait") ⊎ (landscape ≡ "landscape")))
plan_succeeds_iff_example = plan_succeeds_iff 200 short_edge landscape

abbrev two_pages : Json
two_pages = array (item (number (whole 1)) (item (number (whole 2)) end))

abbrev no_pages : Json
no_pages = array end

abbrev observed : Fields
observed = field "pageCount" (number (whole 2)) (
    field "pageOrder" two_pages (
      field "blankPages" no_pages (
        field "partialPages" no_pages (
          field "missingPages" no_pages (
            field "duplicatePages" no_pages (
              field "scaleErrorPercent" (number (whole 0)) (
                field "maximumFiducialDisplacementMm" (number (whole 1)) (
                  field "clippingInsidePrintableRegion" (boolean false) (
                    field "orientationCorrect" (boolean true)
                      (field "mediaCorrect" (boolean true) empty))))))))))

abbrev measurement : Fields
measurement =
    field "$schema"
      (string
        "https://bartekpapierski.github.io/HP-LJ-1020-driver/schemas/output-measurement-1.0.0.json")
      (field "schemaVersion" (string "1.0.0") (
        field "measurementId" (string "M-1") (
          field "scenarioId" (string "SCN-1") (
            field "sourceDocumentSha256"
              (string "0123456789abcdef0123456789abcdef0123456789abcdef0123456789abcdef")
              (field "measuredAt" (string "2025-01-01T00:00:00Z") (
                field "expected"
                  (object
                    (field "pageCount" (number (whole 2)) (field "pageOrder" two_pages empty)))
                  (field "observed" (object observed) (
                    field "visualInspection"
                      (object (
                        field "performed" (boolean true) (
                          field "finePatternsReadable" (boolean true) (
                            field "visibleCorruption" (boolean false)
                              (field "densityDiscontinuity" (boolean false) empty)))))
                      (field "privacy"
                        (object (
                          field "documentContentsRetained" (boolean false) (
                            field "rasterPayloadRetained" (boolean false)
                              (field "zjStreamPayloadRetained" (boolean false) empty))))
                        (field "result" (string "passed") empty))))))))))

measurement_is_accepted : validate_measurement (object measurement) ≡ ok tt
unfolding validate_measurement read check_identity exact_fields object_of read_pages count_from
    integer_list read_quality number_of to_float boolean_of read_inspection check_privacy failures
    check_result
measurement_is_accepted = refl

validate_measurement_truthful_example : validate_measurement (object measurement) ≡ ok tt ↔ (
    (m : Reading) × (read measurement ≡ ok m)
    × (((get measurement "result" ≡ string "passed") × Meets m)
        ⊎ ((get measurement "result" ≡ string "failed") × (¬ Meets m))))
validate_measurement_truthful_example = validate_measurement_truthful measurement

abbrev uninstall_preview : Options
uninstall_preview = record {
  operation = op_uninstall;
  tag = none;
  apply = true;
  dry_run = false;
  yes = false;
  output = none;
}

main_changes_nothing_unasked_example :
    Holds bystander (main "/usr/bin/python3" "/src" uninstall_preview) tt Any
main_changes_nothing_unasked_example =
    main_changes_nothing_unasked "/usr/bin/python3" "/src" uninstall_preview refl refl

reconcile_guarded_example :
    Holds
      (guard "HP_LaserJet_1020" "ipp://127.0.0.1:8631/ipp/print" true)
      (reconcile "HP_LaserJet_1020" "ipp://127.0.0.1:8631/ipp/print" true)
      unknown
      (Converges "HP_LaserJet_1020" "ipp://127.0.0.1:8631/ipp/print" true)
reconcile_guarded_example =
    reconcile_guarded "HP_LaserJet_1020" "ipp://127.0.0.1:8631/ipp/print" true

abbrev run_name : String
run_name = "0123456789abcdef0123456789abcdef"

abbrev prepared : Json
prepared = object (
    field "stage" (string "prepared") (
      field "runId" (string run_name) (
        field "commit" (string "c0ffee") (
          field "version" (string "1.2.0")
            (field "previousSha256" null (field "outputs" (object empty) empty))))))

-- An archive with one record and no failure
abbrev one_record : World
one_record (run command) = ""
one_record (run_with input command) = ""
one_record (blob oid) = ""
one_record (signature path) = ""
one_record (exists path) =
    str_eq path "/archive/runs/0123456789abcdef0123456789abcdef/prepared.json"
one_record (is_file path) = true
one_record (is_symlink path) = false
one_record (is_writable path) = false
one_record (any_writable path) = false
one_record (digest path) = "5e1f"
one_record (read_json path) = prepared
one_record (read_text path) = ""
one_record (read_bytes path) = ""
one_record (list_tree path) = []
one_record (list_directory path) = []
one_record (is_within path root) = true
one_record (relative_to path root) = path
one_record (resolve path) = path
one_record (read_plist path) = null
one_record (read_archive path) = []
one_record source_override = none
one_record read_version = "1.2.0"
one_record new_id = run_name
one_record now = "2026-01-01T00:00:00+00:00"
one_record (new_temporary directory) = "/tmp/t"
one_record (build_manifest commit version inputs) = null
one_record source_scopes = null
one_record (run_gate arguments) = 0
one_record owned_installation = true
one_record _ = tt

records-IsChain_example : Sees one_record (records "/archive" (λ value. "") run_name) (λ found.
    (is_hex 32 run_name ≡ true)
    × IsChain one_record "/archive" (λ value. "") run_name stages none none found
    × (is_empty found ≡ false)
    × (one_record (exists (run_directory "/archive" run_name <> "/failed.json")) ≡ false))
records-IsChain_example = records-IsChain one_record "/archive" (λ value. "") run_name

-- A run up to the seal
abbrev sealed_run : List Json
sealed_run =
    prepared
    ∷ prepared
    ∷ prepared
    ∷ object (field "data" (object (field "bundle" (string "releases/v1.2.0") empty)) empty)
    ∷ []

tag_release_once_example :
    Holds
      (watch_tag
        (tag_of "/archive" (λ value. "") sealed_run)
        (head_of "/archive" (λ value. "") sealed_run)
        "/keys/allowed"
        (trust_of "/archive" (λ path. "5e1f") (λ text. "signed") sealed_run)
        "allowed")
      (tag_release "/archive" (λ value. "") sealed_run "key" "allowed")
      unlisted
      (EndsTag
        (tag_of "/archive" (λ value. "") sealed_run)
        (head_of "/archive" (λ value. "") sealed_run)
        "/keys/allowed"
        (trust_of "/archive" (λ path. "5e1f") (λ text. "signed") sealed_run))
tag_release_once_example =
    tag_release_once "/archive" (λ value. "") sealed_run "key" "/keys/allowed" (λ path. "5e1f")
      (λ text. "signed") "allowed"
