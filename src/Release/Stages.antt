-- ===== src/Release/Stages.antt =====
-- The stages of a release and the command (scripts/personal_release.py): `prepare`, `seal`, `advance`
-- and `main`, over parsed arguments.
use hp_lj_1020_driver.Base.{
  ℕ, String, ◌<>◌, Bool, true, false, not, ◌&&◌, ltb, ◌==◌, Option, none, some, List, [], ◌∷◌, map,
  length, any, str_eq, if◌then◌else◌,
}
use hp_lj_1020_driver.Base.Text.{contains}
use hp_lj_1020_driver.Base.Prog.{ret, raise, try_catch, ◌>>=◌, ◌>>◌}
use hp_lj_1020_driver.Base.Json.{Json, string, object, Fields, empty, field}
use hp_lj_1020_driver.Base.Json.Order.{json_eq}
use hp_lj_1020_driver.Release.Calls.{
  Error, release_error, command_failed, install_error, os_error, value_error, key_error, type_error,
  other, Inventory, run, exists, read_json, read_text, list_directory, is_within, new_id,
  write_json, write_text, make_directory, make_parents, copy_file, copy_tree, rename, set_mode,
  resolve, check_artifacts, check_redacted, stage_and_sign, build_manifest, print, lock,
  with_temporary, Work, ask, raise_if, index, as_text,
}
use hp_lj_1020_driver.Release.Files.{inventory, readonly, private_check}
use hp_lj_1020_driver.Release.Records.{
  stages, position, nth, shown, run_directory, run_path, git, records, record_stage, failure,
}
use hp_lj_1020_driver.Release.Bundle.{
  base_name, same_inventory, check_payload, verify_seal, data_at, sealed_bundle, verify_installed,
}
use hp_lj_1020_driver.Release.Checks.{
  candidate, merged, ci, source_bundle, verify_pointer, validate,
}
use hp_lj_1020_driver.Release.Tag.{tag_release}

-- What the code knows of its surroundings: the checkout, `sys.executable`, the template, staged and
-- installed application, `json.loads`, the text of a value, and the searches.
pub record Place : Type 0 where
  pub root : String
  pub python : String
  pub template : String
  pub staged_app : String
  pub installed_app : String
  pub load : String → Option Json
  pub str : Json → String
  pub is_private : String → Bool
  pub has_secret : String → Bool
  pub is_forbidden : String → Bool
  pub is_firmware : String → Bool

pub record Arguments : Type 0 where
  pub ci_run : String
  pub manifest : String
  pub matrix : String
  pub evidence_root : String
  pub notes : String
  pub signing_key : String
  pub allowed_signers : String

abbrev notes_fields : List String
notes_fields =
    "Changes" ∷ "Support claims" ∷ "Known limitations" ∷ "Firmware requirements"
    ∷ "Lifecycle instructions" ∷ "Validation results" ∷ "Dependency changes" ∷ "Checksums" ∷ []

-- `value[key] = item`, for a dictionary
abbrev set_field : Fields → String → Json → Fields
set_field empty key value = field key value empty
set_field (field name old fields) key value =
    let rest = set_field fields key value in
    if str_eq name key then field name value fields else field name old rest

abbrev set_key : Json → String → Json → Work Json
set_key (object fields) key value = ret (object (set_field fields key value))
set_key _ key value = raise type_error

abbrev nth_record : List Json → ℕ → Work Json
nth_record records i = elim (nth records i) [ none ↦ raise other | some entry ↦ ret entry ]

abbrev same_candidate : Json → String × String → Work (Unit {0})
same_candidate prepared (commit, version) = do
  recorded ← index prepared "commit"
  named ← index prepared "version"
  raise_if (not (json_eq (string commit) recorded && json_eq (string version) named))
      "candidate identity changed"

-- The lines of `SHA256SUMS`
abbrev sums_of : Inventory → String
sums_of [] = ""
sums_of ((name, sum) ∷ es) = sum <> "  " <> name <> "\n" <> sums_of es

abbrev set_modes : String → List String → Work (Unit {0})
set_modes directory [] = ret tt
set_modes directory (name ∷ listed) =
    ask (set_mode (directory <> "/" <> name) 0o644) >> set_modes directory listed

module _ (place : Place) (archive : String) where
  abbrev again : List Json → Work (Unit {0})
  again found = do
    (if ltb (length found) 3
        then ret tt
        else data_at found 2 "validation" >>= λ pointer. verify_pointer place.root pointer)
    if ltb (length found) 4
        then ret tt
        else (sealed_bundle archive found >>= λ bundle. verify_seal bundle)

  -- A new run of `prepare`, from `path.mkdir`
  unfoldable pub prepare_new : String → String × String → Work (Unit {0})
  prepare_new run_id (commit, version) = do
    let inputs = run_directory archive run_id <> "/inputs"
    ask (make_parents (run_directory archive run_id))
    ask (make_directory inputs)
    source_bundle place.is_private place.has_secret place.is_forbidden place.is_firmware
        (inputs <> "/source.bundle") commit
    ask stage_and_sign
    check_payload place.is_private place.has_secret place.template place.staged_app version
    ask (
        run (
          "/usr/bin/ditto"
          ∷ "-c"
          ∷ "-k"
          ∷ "--sequesterRsrc"
          ∷ "--keepParent"
          ∷ place.staged_app
          ∷ (inputs <> "/HP-LJ-1020.app.zip")
          ∷ []))
    ask (copy_file (place.root <> "/dependencies.lock.json") (inputs <> "/dependencies.lock.json"))
    ask (copy_file (place.root <> "/THIRD_PARTY_NOTICES.md") (inputs <> "/THIRD_PARTY_NOTICES.md"))
    ask (
        run (
          place.python
          ∷ "scripts/generate_sbom.py"
          ∷ "--output"
          ∷ (inputs <> "/sbom.spdx.json")
          ∷ []))
    manifest ← ask (build_manifest commit version inputs)
    ask (write_json (inputs <> "/build-manifest.json") manifest)
    check_payload place.is_private place.has_secret place.template place.staged_app version
    (now_commit, now_version) ← candidate place.python
    raise_if (not (str_eq now_commit commit && str_eq now_version version))
        "source changed during preparation"
    readonly inputs
    listed ← ask (list_directory inputs)
    record_stage archive place.str run_id "prepared"
        (map (λ name. "runs/" <> run_id <> "/inputs/" <> name) listed)
        (field "commit" (string commit) (field "version" (string version) empty))

  abbrev prepare_again : String → String × String → Work (Unit {0})
  prepare_again run_id identity = do
    found ← records archive place.str run_id
    prepared ← nth_record found 0
    same_candidate prepared identity
    again found

  unfoldable pub prepare : String → Work (Unit {0})
  prepare run_id = do
    (commit, version) ← candidate place.python
    merged place.load commit
    path ← run_path archive run_id
    there ← ask (exists path)
    if there then prepare_again run_id (commit, version) else prepare_new run_id (commit, version)

  -- The copy of the inputs becomes the sealed directory, or has to be equal to the one that is there.
  unfoldable pub seal_copy : String → List Json → Json → String → String → String → Work (Unit {0})
  seal_copy run_id found pointer text destination temporary = do
    let stage = temporary <> "/bundle"
    ask (copy_tree (run_directory archive run_id <> "/inputs") stage)
    listed ← ask (list_directory stage)
    set_modes stage listed
    ask (set_mode stage 0o755)
    manifest ← ask (read_json (stage <> "/build-manifest.json"))
    hosted ← data_at found 1 "ci"
    sealed ← set_key manifest "ciRun" hosted
    ask (rename (stage <> "/build-manifest.json") (stage <> "/validated-build-manifest.json"))
    ask (write_json (stage <> "/build-manifest.json") sealed)
    ask (write_json (stage <> "/validation-pointer.json") pointer)
    ask (write_text (stage <> "/RELEASE-NOTES.md") text)
    ask (check_artifacts stage)
    contents ← inventory stage
    ask (write_text (stage <> "/SHA256SUMS") (sums_of contents))
    there ← ask (exists destination)
    if there
        then (inventory destination >>= λ old. inventory stage >>= λ new.
            raise_if (not (same_inventory old new)) "conflicting sealed version"
            >> (readonly destination >> verify_seal destination))
        else (ask (rename stage destination) >> readonly destination)

  unfoldable pub seal : String → List Json → String → Work (Unit {0})
  seal run_id found notes = do
    pointer ← data_at found 2 "validation"
    verify_pointer place.root pointer
    private_check place.is_private place.has_secret notes (base_name notes)
    text ← ask (read_text notes)
    ask (check_redacted text)
    raise_if (any (λ name. not (contains ("## " <> name) text)) notes_fields)
        "release notes are missing required sections"
    prepared ← nth_record found 0
    version ← index prepared "version"
    let bundle = "releases/v" <> shown place.str version
    ask (make_parents (archive <> "/releases"))
    with_temporary (some (archive <> "/releases"))
        (seal_copy run_id found pointer text (archive <> "/" <> bundle))
    listed ← ask (list_directory (archive <> "/" <> bundle))
    record_stage archive place.str run_id "sealed" (map (λ name. bundle <> "/" <> name) listed)
        (field "bundle" (string bundle) empty)

  abbrev ci_again : String → List Json → Work Fields
  ci_again commit found = do
    hosted ← data_at found 1 "ci"
    number ← index hosted "runId"
    text ← as_text number
    ci place.load commit text

  abbrev validate_first : List Json → Arguments → Work Json
  validate_first found options = nth_record found 0 >>= λ prepared.
      validate place.root archive prepared options.manifest options.matrix options.evidence_root

  -- A stage that is recorded already is checked again.
  unfoldable pub recheck : String → String × String → List Json → Arguments → Work (Unit {0})
  recheck stage (commit, version) found options = do
    again found
    if str_eq stage "hosted-ci-passed"
        then (ci_again commit found >> ret tt)
        else if str_eq stage "locally-validated"
        then (validate_first found options >> ret tt)
        else if str_eq stage "tagged"
        then tag_release archive place.str found options.signing_key options.allowed_signers
        else if str_eq stage "installed"
        then (verify_installed archive place.installed_app found >> ret tt)
        else ret tt

  unfoldable pub tag_stage : String → String × String → List Json → Arguments → Work (Unit {0})
  tag_stage run_id (commit, version) found options = do
    ci_again commit found
    pointer ← data_at found 2 "validation"
    verify_pointer place.root pointer
    validated ← validate_first found options
    raise_if (not (json_eq validated pointer)) "tag validation differs from sealed validation"
    tag_release archive place.str found options.signing_key options.allowed_signers
    object_id ← git ("rev-parse" ∷ ("refs/tags/v" <> version) ∷ [])
    record_stage archive place.str run_id "tagged" []
        (field "tag" (string ("v" <> version)) (field "tagObject" (string object_id) empty))

  -- The stage that is due
  unfoldable pub take_stage :
      String → String → String × String → List Json → Arguments → Work (Unit {0})
  take_stage run_id stage (commit, version) found options =
      if str_eq stage "hosted-ci-passed"
      then (ci place.load commit options.ci_run >>= λ hosted.
          record_stage archive place.str run_id stage [] (field "ci" (object hosted) empty))
      else if str_eq stage "locally-validated"
      then (validate_first found options >>= λ pointer.
          record_stage archive place.str run_id stage [] (field "validation" pointer empty))
      else if str_eq stage "sealed"
      then seal run_id found options.notes
      else if str_eq stage "tagged"
      then tag_stage run_id (commit, version) found options
      else if str_eq stage "installed"
      then (verify_installed archive place.installed_app found >>= λ sum.
          record_stage archive place.str run_id stage [] (field "payloadSha256" (string sum) empty))
      else ret tt

  unfoldable pub advance : String → String → Arguments → Work (Unit {0})
  advance run_id stage options = do
    found ← records archive place.str run_id
    (commit, version) ← candidate place.python
    prepared ← nth_record found 0
    same_candidate prepared (commit, version)
    i ← position stage stages
    if ltb i (length found)
        then recheck stage (commit, version) found options
        else (raise_if (not (length found == i)) "stage out of order"
            >> take_stage run_id stage (commit, version) found options)

  abbrev reason_for : Error → Option String
  reason_for (release_error message) = some "policy-check-failed"
  reason_for command_failed = some "host-command-failed"
  reason_for install_error = some "host-command-failed"
  reason_for os_error = some "file-operation-failed"
  reason_for value_error = some "invalid-record"
  reason_for key_error = some "invalid-record"
  reason_for type_error = some "invalid-record"
  reason_for other = none

  abbrev reject : String → String → Error → Work ℕ
  reject run_id stage e = elim (reason_for e) [
    | none ↦ raise e
    | some reason ↦ failure archive place.str run_id stage reason >>= λ failed.
        ask (print ("personal release rejected; immutable redacted failure " <> failed)) >> ret 1
  ]

  unfoldable pub perform : String → String → Arguments → Work (Unit {0})
  perform run_id stage options =
      if str_eq stage "prepared"
      then (ask (print ("candidate run: " <> run_id)) >> prepare run_id)
      else advance run_id stage options

  -- What follows the checks of the arguments: the lock is held to the end.
  unfoldable pub operate : String → String → Arguments → Work ℕ
  operate run_id stage options = do
    ask (make_parents archive)
    ask lock
    status ← try_catch (perform run_id stage options >> ret 0) (reject run_id stage)
    (if status == 0 then ask (print (stage <> ": " <> run_id)) else ret tt)
    ret status

-- A usage error ends with the status 2; `identity` is the argument --run-id.
unfoldable pub main : Place → String → Option String → String → Arguments → Work ℕ
main place archive_root identity stage options = do
  run_id ← elim identity [
    | none ↦ ask new_id
    | some text ↦ if str_eq text "" then ask new_id else ret text
  ]
  archive ← ask (resolve archive_root)
  within ← ask (is_within archive place.root)
  accepted ←
      (if within
        then ret false
        else try_catch (run_path archive run_id >> ret true) (λ e. ret false))
  (if accepted then operate place archive run_id stage options else ret 2)
