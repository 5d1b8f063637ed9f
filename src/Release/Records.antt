-- ===== src/Release/Records.antt =====
-- The records of a release's stages (scripts/personal_release.py): `run_path`, `records`, `record` and
-- `failure`. `archive` is the archive's resolved
-- directory.
pub mod Contents
pub mod Chain
use hp_lj_1020_driver.Base.{
  ℕ, zero, suc, String, ◌<>◌, Bool, true, false, not, ◌&&◌, ◌||◌, leb, ◌==◌, Option, none, some,
  List, [], ◌∷◌, length, all, is_empty, str_eq, if◌then◌else◌,
}
use hp_lj_1020_driver.Base.Text.{is_hex, codes, strip}
use hp_lj_1020_driver.Base.Prog.{ret, raise, try_catch, ◌>>=◌, ◌>>◌}
use hp_lj_1020_driver.Base.Json.{Json, null, boolean, string, object, Fields, empty, field}
use hp_lj_1020_driver.Base.Json.Order.{json_eq}
use hp_lj_1020_driver.Release.Calls.{
  command_failed, value_error, other, Inventory, run, exists, is_file, is_symlink, is_writable,
  digest, read_json, new_id, now, write_json, make_parents, Work, ask, raise_if, index, items_of,
}
use hp_lj_1020_driver.Release.Files.{inventory, readonly, safe_file}

abbrev pub stages : List String
stages =
    "prepared" ∷ "hosted-ci-passed" ∷ "locally-validated" ∷ "sealed" ∷ "tagged" ∷ "installed" ∷ []

-- `value[key] != expected`, which raises the error that the caller names
unfoldable pub demand : Json → String → Json → String → Work (Unit {0})
demand value key expected message =
    index value key >>= λ found. raise_if (not (json_eq found expected)) message

abbrev pub text_or_null : Option String → Json
text_or_null none = null
text_or_null (some s) = string s

-- A dictionary of an inventory, each name with a prefix
abbrev pub fields_from : String → Inventory → Fields
fields_from prefix [] = empty
fields_from prefix ((name, sum) ∷ es) = field (prefix <> name) (string sum) (fields_from prefix es)

abbrev pub position : String → List String → Work ℕ
position stage [] = raise value_error
position stage (s ∷ ss) = if str_eq s stage then ret 0 else position stage ss >>= λ i. ret (suc i)

-- `xs[i]`, for a list of records that the caller has measured; `other` is an `IndexError`.
abbrev pub nth {ℓ} : {A : Type ℓ} → List A → ℕ → Option A
nth [] i = none
nth (x ∷ xs) zero = some x
nth (x ∷ xs) (suc i) = nth xs i

-- The text of a value in a formatted text; `str` is its text where it is no text itself.
abbrev pub shown : (Json → String) → Json → String
shown str (string s) = s
shown str value = str value

unfoldable pub git : List String → Work String
git arguments = ask (run ("git" ∷ arguments)) >>= λ output. ret (strip output)

module _ (archive : String) where
  abbrev pub run_directory : String → String
  run_directory run_id = archive <> "/runs/" <> run_id

  unfoldable pub run_path : String → Work String
  run_path run_id = raise_if (not (is_hex 32 run_id)) "invalid run ID" >> ret (run_directory run_id)

module _ (archive : String) (str : Json → String) where
  -- One output of a record: it is there, nobody may write it, and it has the recorded checksum.
  unfoldable pub check_output : String × Json → Work (Unit {0})
  check_output (name, checksum) = do
    output ← safe_file archive name
    there ← ask (is_file output)
    raise_if (not there) "stage output checksum or immutability mismatch"
    writable ← ask (is_writable output)
    raise_if writable "stage output checksum or immutability mismatch"
    sum ← ask (digest output)
    raise_if (not (json_eq (string sum) checksum)) "stage output checksum or immutability mismatch"

  unfoldable pub check_outputs : List (String × Json) → Work (Unit {0})
  check_outputs [] = ret tt
  check_outputs (e ∷ es) = check_output e >> check_outputs es

  unfoldable pub same_value : Json → Json → String → Work (Unit {0})
  same_value entry first key = index entry key >>= λ a.
      index first key >>= λ b. raise_if (not (json_eq a b)) "stage identity mismatch"

  unfoldable pub check_identity : Option Json → Json → Work (Unit {0})
  check_identity none entry = ret tt
  check_identity (some first) entry =
      same_value entry first "commit" >> same_value entry first "version"

  unfoldable pub check_prepared : String → Json → Work (Unit {0})
  check_prepared run_id entry = do
    inputs ← inventory (run_directory archive run_id <> "/inputs")
    outputs ← index entry "outputs"
    raise_if (not (json_eq (object (fields_from ("runs/" <> run_id <> "/inputs/") inputs)) outputs))
        "prepared inventory mismatch"

  unfoldable pub check_tagged : Json → Work (Unit {0})
  check_tagged entry = do
    data_of ← index entry "data"
    tag ← index data_of "tag"
    object_id ← git ("rev-parse" ∷ ("refs/tags/" <> shown str tag) ∷ [])
    recorded ← index data_of "tagObject"
    raise_if (not (json_eq (string object_id) recorded)) "immutable tag changed"

  abbrev check_special : String → String → Json → Work (Unit {0})
  check_special stage run_id entry =
      if str_eq stage "prepared"
      then check_prepared run_id entry
      else if str_eq stage "tagged"
      then check_tagged entry
      else ret tt

  abbrev pub stage_file : String → String → String
  stage_file run_id stage = run_directory archive run_id <> "/" <> stage <> ".json"

  -- What `records` checks of one record, before it takes it.
  unfoldable pub check_record :
      String → String → Option String → Option Json → Json → Work (Unit {0})
  check_record run_id stage previous first entry = do
    demand entry "stage" (string stage) "broken stage chain"
    demand entry "runId" (string run_id) "broken stage chain"
    demand entry "previousSha256" (text_or_null previous) "broken stage chain"
    outputs ← index entry "outputs"
    listed ← items_of outputs
    check_outputs listed
    check_identity first entry
    check_special stage run_id entry

  unfoldable pub read_record : String → String → Work Json
  read_record run_id stage = do
    linked ← ask (is_symlink (stage_file run_id stage))
    raise_if linked "stage record is writable or unsafe"
    writable ← ask (is_writable (stage_file run_id stage))
    raise_if writable "stage record is writable or unsafe"
    ask (read_json (stage_file run_id stage))

  abbrev pub first_of : Option Json → Json → Json
  first_of none entry = entry
  first_of (some first) entry = first

  -- The loop over the stages: the records from here on, given the digest of the previous file and
  -- the first record.
  unfoldable pub read_records :
      String → List String → Option String → Option Json → Work (List Json)
  read_records run_id [] previous first = ret []
  read_records run_id (stage ∷ later) previous first =
      ask (exists (stage_file run_id stage)) >>= λ there. elim there [
        | false ↦ ret []
        | true ↦ do
          entry ← read_record run_id stage
          check_record run_id stage previous first entry
          sum ← ask (digest (stage_file run_id stage))
          rest ← read_records run_id later (some sum) (some (first_of first entry))
          ret (entry ∷ rest)
      ]

  unfoldable pub records : String → Work (List Json)
  records run_id = do
    run_path archive run_id
    found ← read_records run_id stages none none
    raise_if (is_empty found) "run is not prepared"
    failed ← ask (exists (run_directory archive run_id <> "/failed.json"))
    raise_if failed "failed runs require a new run ID"
    ret found

  abbrev take_outputs : List String → Work Fields
  take_outputs [] = ret empty
  take_outputs (name ∷ names) = ask (digest (archive <> "/" <> name)) >>= λ sum.
      take_outputs names >>= λ rest. ret (field name (string sum) rest)

  -- The base record and the digest of the file before, for the stage of an index
  unfoldable pub base_of : String → ℕ → Json → Work (Json × Option String)
  base_of run_id zero data_of = ret (data_of, none)
  base_of run_id (suc i) data_of = do
    prior ← records run_id
    raise_if (not (length prior == suc i)) "stage out of order"
    base ← elim (nth prior 0) [ none ↦ raise other | some first ↦ ret first ]
    stage ← elim (nth stages i) [ none ↦ raise other | some name ↦ ret name ]
    sum ← ask (digest (stage_file run_id stage))
    ret (base, some sum)

  -- The outputs are given by their paths in the archive.
  unfoldable pub record_stage : String → String → List String → Fields → Work (Unit {0})
  record_stage run_id stage outputs data_of = do
    run_path archive run_id
    i ← position stage stages
    (base, previous) ← base_of run_id i (object data_of)
    commit ← index base "commit"
    version ← index base "version"
    time ← ask now
    sums ← take_outputs outputs
    ask (
        write_json (stage_file run_id stage) (
          object (
            field "stage" (string stage) (
              field "runId" (string run_id) (
                field "commit" commit (
                  field "version" version (
                    field "recordedAt" (string time) (
                      field "previousSha256" (text_or_null previous) (
                        field "outputs" (object sums) (field "data" (object data_of) empty))))))))))

  -- `except subprocess.CalledProcessError: commit = None`
  abbrev head_commit : Work Json
  head_commit =
      try_catch (git ("rev-parse" ∷ "HEAD" ∷ []) >>= λ commit. ret (string commit))
        (λ e. elim e [ command_failed ↦ ret null | failed ↦ raise failed ])

  unfoldable pub mark_failed : String → String → Work (Unit {0})
  mark_failed path failure_id = do
    there ← ask (exists path)
    marked ← (if there then ask (exists (path <> "/failed.json")) else ret true)
    if marked
        then ret tt
        else ask (
            write_json (path <> "/failed.json")
              (object (field "failureId" (string failure_id) empty)))

  unfoldable pub failure : String → String → String → Work String
  failure run_id stage reason = do
    failure_id ← ask new_id
    let directory = archive <> "/failed/" <> failure_id
    ask (make_parents directory)
    commit ← head_commit
    time ← ask now
    ask (
        write_json (directory <> "/summary.json") (
          object (
            field "runId" (string failure_id) (
              field "attemptRunId" (string run_id) (
                field "sourceCommit" commit (
                  field "stage" (string stage) (
                    field "result" (string "failed") (
                      field "reason" (string reason) (
                        field "redacted" (boolean true)
                          (field "recordedAt" (string time) empty))))))))))
    sum ← ask (digest (directory <> "/summary.json"))
    ask (
        write_json (directory <> "/checksums.json")
          (object (field "summary.json" (string sum) empty)))
    readonly directory
    path ← run_path archive run_id
    mark_failed path failure_id
    ret failure_id
