-- ===== src/Update/Runtime.antt =====
-- `MacRuntime` (scripts/personal_update.py), over the calls of the command host. `durable_json` is
-- the call `write_json`; a temporary file is a call that takes its text and gives its name.
use hp_lj_1020_driver.Base.{
  ℕ, ◌*◌, String, ◌<>◌, Bool, true, false, not, ◌&&◌, Option, none, some, [], ◌∷◌, ◌==◌, length,
  str_eq, if◌then◌else◌,
}
use hp_lj_1020_driver.Base.Text.{strip, is_nonempty}
use hp_lj_1020_driver.Base.Prog.{ret, ◌>>=◌, ◌>>◌}
use hp_lj_1020_driver.Base.Json.{
  whole, real, float_one, Json, boolean, number, string, array, object, end, item, empty, field,
  get, keys,
}
use hp_lj_1020_driver.Install.Host.{
  Completed, Work, raise_if, on_files, is_file, exists, write_json, read_json, read_text,
  read_identifier, write_temporary, unlink, sync_file, sync_directory, run, admin, state_root,
  installed_app, service_plist, service_label, service_target, queue, queue_uri, receipt,
}
use hp_lj_1020_driver.Install.Ownership.{validate_existing_installation}
use hp_lj_1020_driver.Install.Service.{validate_queue_ownership}
use hp_lj_1020_driver.Install.Lifecycle.{wait_ready, disable}

abbrev test_head : String → String
test_head operation =
    "{\nOPERATION " <> operation <> "\nGROUP operation-attributes-tag\n"
    <> "ATTR charset attributes-charset utf-8\n" <> "ATTR language attributes-natural-language en\n"
    <> "ATTR uri printer-uri $uri\nATTR name requesting-user-name root\n"

abbrev which_jobs : Bool → String
which_jobs true =
    "ATTR keyword which-jobs not-completed\n"
    <> "ATTR boolean my-jobs false\nATTR keyword requested-attributes job-id\n"
which_jobs false = ""

abbrev no_job_expected : Bool → String
no_job_expected true = "EXPECT !job-id\n"
no_job_expected false = ""

abbrev accepting_expected : Bool → String
accepting_expected true = "EXPECT printer-is-accepting-jobs OF-TYPE boolean WITH-VALUE true\n"
accepting_expected false = ""

-- The arguments after the operation are `empty`, `accepting` and `uri`.
pub ipp : String → Bool → Bool → String → Work Completed
ipp operation no_jobs_left accepting uri = do
  name ← on_files (
      write_temporary (
        test_head operation
        <> which_jobs no_jobs_left
        <> "STATUS successful-ok\n"
        <> no_job_expected no_jobs_left
        <> accepting_expected accepting
        <> "}\n"))
  run ("/usr/bin/ipptool" ∷ "-T" ∷ "5" ∷ "-t" ∷ uri ∷ name ∷ [])

pub no_jobs : Work (Unit {0})
no_jobs = do
  result ← run ("/usr/bin/lpstat" ∷ "-W" ∷ "not-completed" ∷ "-o" ∷ queue ∷ [])
  raise_if (is_nonempty (strip result.stdout)) "update deferred: macOS queue has unfinished jobs"
  ipp "Get-Jobs" true false queue_uri
  ret tt

-- `value == n` of Python, where a Boolean is a number
abbrev equals : ℕ → Json → Bool
equals n (number (whole m)) = m == n
equals n (number (real m)) = m == n * float_one
equals n (boolean b) = if b then n == 1 else n == 0
equals n _ = false

abbrev reads_both : Json → Bool
reads_both (array (item a (item b end))) = equals 0 a && equals 1 b
reads_both _ = false

-- `value == STATE_CONTRACT`
abbrev is_contract : Json → Bool
is_contract (object fields) =
    length (keys fields) == 3
    && equals 1 (get fields "version")
    && reads_both (get fields "readableVersions")
    && equals 1 (get fields "startupAdmissionGate")
is_contract _ = false

abbrev read_contract : String → Bool → Work Bool
read_contract path true = on_files (read_json path) >>= λ value. ret (is_contract value)
read_contract path false = ret false

pub contract : String → Work (Unit {0})
contract app = do
  there ← on_files (is_file (app <> "/Contents/Resources/state-schema.json"))
  compatible ← read_contract (app <> "/Contents/Resources/state-schema.json") there
  raise_if (not compatible)
      "payload lacks compatible state and startup admission contract; establish a clean installation first"

pub preflight : Work (Unit {0})
preflight = do
  owned ← validate_existing_installation
  raise_if (not owned) "update requires an owned installation"
  queue_owned ← validate_queue_ownership
  raise_if (not queue_owned) "update requires the existing product queue"
  contract installed_app
  wait_ready true
  ipp "Get-Printer-Attributes" false true queue_uri
  ipp "Get-Printer-Attributes" false true ("ipp://127.0.0.1:631/printers/" <> queue)
  no_jobs

abbrev pub hold_marker : String
hold_marker = state_root <> "/system.state.update-held"

pub hold : Work (Unit {0})
hold = on_files (write_json hold_marker (object (field "held" (boolean true) empty)))

pub close_admission : Work (Unit {0})
close_admission = do
  hold
  admin ("/usr/sbin/cupsreject" ∷ queue ∷ [])
  ipp "Disable-Printer" false false queue_uri
  no_jobs

pub stop : Work (Unit {0})
stop = disable true

pub start : Work (Unit {0})
start = do
  hold
  admin ("/bin/launchctl" ∷ "enable" ∷ service_target ∷ [])
  admin ("/bin/launchctl" ∷ "bootstrap" ∷ "system" ∷ service_plist ∷ [])
  wait_ready false

pub health : Work (Unit {0})
health = do
  wait_ready false
  queue_owned ← validate_queue_ownership
  raise_if (not queue_owned) "existing queue disappeared during activation"

pub release : Work (Unit {0})
release = do
  on_files (unlink hold_marker)
  on_files (sync_directory state_root)
  ipp "Enable-Printer" false false queue_uri
  admin ("/usr/sbin/cupsenable" ∷ queue ∷ [])
  admin ("/usr/sbin/cupsaccept" ∷ queue ∷ [])
  wait_ready true

pub copy : String → String → Work Completed
copy from destination = admin ("/usr/bin/ditto" ∷ from ∷ destination ∷ [])

abbrev ppd : String
ppd = "/etc/cups/ppd/" <> queue <> ".ppd"

abbrev queue_document : String → Json
queue_document options = object (
    field "name" (string queue) (
      field "uri" (string queue_uri) (
        field "enabled" (boolean true)
          (field "accepting" (boolean true) (field "options" (string options) empty)))))

pub backup_queue : String → Work (Unit {0})
backup_queue destination = do
  options ← run ("/usr/bin/lpoptions" ∷ "-p" ∷ queue ∷ [])
  on_files (write_json (destination <> "/queue.json") (queue_document options.stdout))
  there ← on_files (exists ppd)
  elim there [
    | false ↦ ret tt
    | true ↦ do
      copy ppd (destination <> "/queue.ppd")
      on_files (sync_file (destination <> "/queue.ppd"))
  ]

abbrev is_receipt : Option String → Bool
is_receipt none = false
is_receipt (some s) = str_eq s receipt

pub validate : String → Work (Unit {0})
validate app = do
  identifier ← on_files (read_identifier (app <> "/Contents/Info.plist"))
  marker ← on_files (read_text (app <> "/Contents/Resources/product-id"))
  raise_if (not (is_receipt identifier && str_eq (strip marker) receipt))
      "replacement identity mismatch"
  contract app
  admin ("/usr/bin/codesign" ∷ "--verify" ∷ "--strict" ∷ "--deep" ∷ app ∷ [])
  admin (
      "/usr/bin/plutil"
      ∷ "-lint"
      ∷ (app <> "/Contents/Library/LaunchDaemons/" <> service_label <> ".plist")
      ∷ [])
  ret tt
