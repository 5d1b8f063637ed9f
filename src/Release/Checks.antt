-- ===== src/Release/Checks.antt =====
-- The checks of a candidate (scripts/personal_release.py): `candidate`, `merged`, `ci`,
-- `source_bundle`, `verify_pointer` and `validate`. `load` is `json.loads`, `python` is `sys.executable`.
use hp_lj_1020_driver.Base.{
  String, ◌<>◌, Bool, true, false, not, ◌&&◌, ◌||◌, ◌==◌, Option, none, some, List, [], ◌∷◌, map,
  any, str_eq, if◌then◌else◌,
}
use hp_lj_1020_driver.Base.Text.{is_hex, strip, split_lines, is_digits, is_nonempty}
use hp_lj_1020_driver.Base.Prog.{ret, raise, ◌>>=◌, ◌>>◌}
use hp_lj_1020_driver.Base.Json.{
  Json, null, boolean, number, string, array, object, Fields, empty, field, elements, keys,
}
use hp_lj_1020_driver.Base.Json.Order.{json_eq}
use hp_lj_1020_driver.Release.Calls.{
  value_error, type_error, run, blob, digest, read_json, is_within, relative_to, resolve,
  source_override, read_version, source_scopes, run_gate, Work, ask, raise_if, index, as_text,
  items_of,
}
use hp_lj_1020_driver.Release.Files.{safe_file}
use hp_lj_1020_driver.Release.Bundle.{split_once}
use hp_lj_1020_driver.Release.Records.{demand, run_path, git}

abbrev characters : String → List Json
characters String.[] = []
characters (String.◌∷◌ c s) = string (String.◌∷◌ c String.[]) ∷ characters s

-- `for x in value`
abbrev iterate : Json → Work (List Json)
iterate (array xs) = ret (elements xs)
iterate (object fields) = ret (map string (keys fields))
iterate (string s) = ret (characters s)
iterate null = raise type_error
iterate (boolean b) = raise type_error
iterate (number x) = raise type_error

-- A value that is put in a set or looked for in one: a list and a dictionary cannot be.
abbrev hashed : Json → Work Json
hashed (array xs) = raise type_error
hashed (object fields) = raise type_error
hashed value = ret value

abbrev in_set : Json → List String → Bool
in_set value allowed = any (λ s. json_eq value (string s)) allowed

-- `json.loads` of a command's output
abbrev loaded : Option Json → Work Json
loaded none = raise value_error
loaded (some value) = ret value

abbrev ci_refusal : String
ci_refusal = "hosted CI does not pass for the exact merged commit"

abbrev identity_refusal : String
identity_refusal = "validation identity mismatch"

unfoldable pub candidate : String → Work (String × String)
candidate python = do
  status ← git ("status" ∷ "--porcelain" ∷ "--untracked-files=all" ∷ [])
  raise_if (is_nonempty status) "candidate worktree must be clean"
  override ← ask source_override
  raise_if (elim override [ none ↦ false | some s ↦ is_nonempty s ])
      "source overrides are prohibited"
  commit ← git ("rev-parse" ∷ "HEAD" ∷ [])
  raise_if (not (is_hex 40 commit)) "invalid source commit"
  ask (run (python ∷ "scripts/build" ∷ "--personal-release" ∷ "--verify-lock" ∷ []))
  version ← ask read_version
  ret (commit, version)

module _ (load : String → Option Json) where
  abbrev gh : String → Work Json
  gh address = ask (run ("gh" ∷ "api" ∷ address ∷ [])) >>= λ output. loaded (load (strip output))

  unfoldable pub merged : String → Work (Unit {0})
  merged commit = do
    result ← gh ("repos/{owner}/{repo}/compare/" <> commit <> "...main")
    status ← index result "status"
    value ← hashed status
    raise_if (not (in_set value ("ahead" ∷ "identical" ∷ []))) "candidate is not merged into main"

  -- `[job for job in jobs if job["name"] == "host-checks"]`
  abbrev host_checks : List Json → Work (List Json)
  host_checks [] = ret []
  host_checks (job ∷ jobs) = index job "name" >>= λ name. host_checks jobs >>= λ rest.
      ret (if json_eq name (string "host-checks") then job ∷ rest else rest)

  abbrev only_check : List Json → Work (Unit {0})
  only_check (check ∷ []) =
      demand check "conclusion" (string "success") "required hosted check did not pass"
  only_check [] = raise_if true "required hosted check did not pass"
  only_check (check ∷ other ∷ checks) = raise_if true "required hosted check did not pass"

  unfoldable pub ci : String → String → Work Fields
  ci commit ci_run = do
    raise_if (not (is_digits ci_run)) "invalid hosted CI run ID"
    let base = "repos/{owner}/{repo}/actions/runs/" <> ci_run
    hosted ← gh base
    demand hosted "head_sha" (string commit) ci_refusal
    demand hosted "head_branch" (string "main") ci_refusal
    demand hosted "event" (string "push") ci_refusal
    demand hosted "path" (string ".github/workflows/ci.yml") ci_refusal
    demand hosted "status" (string "completed") ci_refusal
    demand hosted "conclusion" (string "success") ci_refusal
    listing ← gh (base <> "/jobs?per_page=100")
    jobs ← index listing "jobs"
    listed ← iterate jobs
    checks ← host_checks listed
    only_check checks
    ret (
        field "provider" (string "github-actions")
          (field "runId" (string ci_run) (field "commit" (string commit) empty)))

-- One line of `git rev-list --objects` is an object and, after a blank, a name.
abbrev object_line : String → String × String
object_line line = elim (split_once " " line) [ none ↦ (line, "") | some parts ↦ parts ]

-- `PRIVATE.search`, `SECRET.search`, `check_artifacts.name_is_forbidden` and whether a content is a
-- known firmware
module _ (is_private has_secret is_forbidden is_firmware : String → Bool) where
  abbrev check_blob : String → Work (Unit {0})
  check_blob oid = ask (blob oid) >>= λ content.
      raise_if (has_secret content || is_firmware content) "prohibited content in source history"

  abbrev check_object : String → Work (Unit {0})
  check_object line = do
    let (oid, name) = object_line line
    raise_if (is_nonempty name && (is_private name || is_forbidden name))
        "prohibited path in source history"
    kind ← git ("cat-file" ∷ "-t" ∷ oid ∷ [])
    if str_eq kind "blob" then check_blob oid else ret tt

  abbrev check_objects : List String → Work (Unit {0})
  check_objects [] = ret tt
  check_objects (line ∷ lines) = check_object line >> check_objects lines

  unfoldable pub source_bundle : String → String → Work (Unit {0})
  source_bundle output commit = do
    listing ← git ("rev-list" ∷ "--objects" ∷ commit ∷ [])
    check_objects (split_lines listing)
    git ("bundle" ∷ "create" ∷ output ∷ "HEAD" ∷ [])
    git ("bundle" ∷ "verify" ∷ output ∷ [])
    ret tt

module _ (root : String) where
  abbrev check_pointers : List (String × Json) → Work (Unit {0})
  check_pointers [] = ret tt
  check_pointers ((name, pointer) ∷ pointers) = do
    path ← index pointer "path"
    relative ← as_text path
    file ← safe_file root relative
    sum ← ask (digest file)
    demand pointer "sha256" (string sum) "validation pointer changed"
    check_pointers pointers

  unfoldable pub verify_pointer : Json → Work (Unit {0})
  verify_pointer pointer = items_of pointer >>= λ pointers. check_pointers pointers

module _ (root archive : String) where
  abbrev pointer_to : String → Work Json
  pointer_to path = do
    relative ← ask (relative_to path root)
    sum ← ask (digest path)
    ret (object (field "path" (string relative) (field "sha256" (string sum) empty)))

  unfoldable pub validate : Json → String → String → String → Work Json
  validate prepared manifest_file matrix_file evidence = do
    manifest_path ← ask (resolve manifest_file)
    matrix ← ask (resolve matrix_file)
    manifest_within ← ask (is_within manifest_path root)
    raise_if (not manifest_within) "validation pointers must be repository relative"
    matrix_within ← ask (is_within matrix root)
    raise_if (not matrix_within) "validation pointers must be repository relative"
    manifest ← ask (read_json manifest_path)
    run_id ← index prepared "runId"
    run_text ← as_text run_id
    run_at ← run_path archive run_text
    source ← index manifest "sourceCommit"
    commit ← index prepared "commit"
    raise_if (not (json_eq source commit)) identity_refusal
    specification ← index manifest "specificationCommit"
    raise_if (not (json_eq specification commit)) identity_refusal
    locked ← index manifest "dependencyLockSha256"
    lock_sum ← ask (digest (run_at <> "/inputs/dependencies.lock.json"))
    raise_if (not (json_eq locked (string lock_sum))) identity_refusal
    built ← index manifest "buildManifestSha256"
    build_sum ← ask (digest (run_at <> "/inputs/build-manifest.json"))
    raise_if (not (json_eq built (string build_sum))) identity_refusal
    environment ← index manifest "environment"
    demand environment "kind" (string "reference-mac") identity_refusal
    scopes ← ask source_scopes
    expected ← index scopes "scopeIdentities"
    matrix_document ← ask (read_json matrix)
    demand matrix_document "scopeIdentities" expected "validation source scopes changed"
    status ← ask (
        run_gate (
          "--matrix"
          ∷ matrix
          ∷ "--manifest"
          ∷ manifest_path
          ∷ "--milestone"
          ∷ "PERSONAL"
          ∷ "--evidence-root"
          ∷ evidence
          ∷ "--spec"
          ∷ (root <> "/docs/IMPLEMENTATION-SPEC.md")
          ∷ []))
    raise_if (not (status == 0)) "personal validation contract rejected"
    manifest_pointer ← pointer_to manifest_path
    matrix_pointer ← pointer_to matrix
    ret (object (field "manifest" manifest_pointer (field "matrix" matrix_pointer empty)))
