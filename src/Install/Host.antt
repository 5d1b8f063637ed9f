-- ===== src/Install/Host.antt =====
-- `CommandHost` and the product's names and paths (scripts/personal_install.py). Commands are calls;
-- their audit log is left out.
use hp_lj_1020_driver.Base.{
  ℕ, String, ◌<>◌, Bool, true, false, Option, List, [], ◌∷◌, ◌++◌, map, ◌==◌, if◌then◌else◌,
}
use hp_lj_1020_driver.Base.Text.{strip, or_text, decimal}
use hp_lj_1020_driver.Base.Json.{Json}
use hp_lj_1020_driver.Base.Prog.{Prog, ret, raise, call, ◌>>=◌}

-- A `CompletedProcess`; the negative code of a signal is some number other than 0.
pub record Completed : Type 0 where
  pub returncode : ℕ
  pub stdout : String
  pub stderr : String

pub data Error : Type 0 where
  install_error : String → Error
  os_error : String → Error

-- What `plistlib.loads` finds: the text entries, and the `ProgramArguments` if they are a list.
pub record Plist : Type 0 where
  pub entry : String → Option String
  pub arguments : Option (List String)

-- Python's file operations, and those of modules of the repository on its own files.
pub data FileCall : Type 0 where
  is_file is_symlink is_owned : String → FileCall
  resolve : String → FileCall
  read_version : String → FileCall
  remove_tree make_directory make_executable : String → FileCall
  copy_tree copy_file : String → String → FileCall
  set_versions : String → String → FileCall
  exists : String → FileCall
  write_json : String → Json → FileCall
  read_json : String → FileCall
  read_text read_identifier : String → FileCall
  write_temporary : String → FileCall
  unlink sync_file sync_directory : String → FileCall

abbrev pub FileAnswer : FileCall → Type 0
FileAnswer (is_file path) = Bool
FileAnswer (is_symlink path) = Bool
FileAnswer (is_owned path) = Bool
FileAnswer (resolve path) = String
FileAnswer (read_version root) = String
FileAnswer (exists path) = Bool
FileAnswer (read_json path) = Json
FileAnswer (read_text path) = String
FileAnswer (read_identifier path) = Option String
FileAnswer (write_temporary body) = String
FileAnswer _ = Unit

-- `runner(command)`, `time.sleep`, `plistlib.loads`, file operations, `print` and the audit log of
-- `main`, and the two functions of scripts/diagnostics.py.
pub data Call : Type 0 where
  execute : List String → Call
  sleep : Call
  parse_plist : String → Call
  file : FileCall → Call
  print : String → Call
  audit : String → Call
  print_status : Call
  create_bundle : String → Call

pub data Reply (A : Type 0) : Type 0 where
  got : A → Reply A
  raised : Error → Reply A

-- A `none` of `parse_plist` is one of the exceptions that the code catches there.
abbrev pub Replies : Call → Type 0
Replies (execute command) = Reply Completed
Replies (parse_plist text) = Reply (Option Plist)
Replies (file f) = Reply (FileAnswer f)
Replies _ = Reply (Unit {0})

abbrev pub Work : Type 0 → Type 0
Work A = Prog Call Replies Error A

abbrev pub answer : {A : Type 0} → Reply A → Work A
answer (got a) = ret a
answer (raised e) = raise e

abbrev pub on_files : (f : FileCall) → Work (FileAnswer f)
on_files f = call (file f) answer

abbrev pub raise_if : Bool → String → Work (Unit {0})
raise_if true message = raise (install_error message)
raise_if false message = ret tt

abbrev pub succeeded : Completed → Bool
succeeded c = c.returncode == 0

abbrev pub detail_of : Completed → String
detail_of c = or_text (strip c.stderr) (or_text (strip c.stdout) ("exit " <> decimal c.returncode))

abbrev pub last_of : List String → String
last_of [] = ""
last_of (x ∷ []) = x
last_of (x ∷ y ∷ xs) = last_of (y ∷ xs)

-- `run(command, check=False)`
abbrev pub try_run : List String → Work Completed
try_run command = call (execute command) answer

pub check : List String → Completed → Work Completed
check command c =
    if succeeded c
    then ret c
    else raise (install_error ("command failed: " <> last_of command <> ": " <> detail_of c))

-- `run(command)`
pub run : List String → Work Completed
run command = try_run command >>= check command

abbrev pub privileged : List String → List String
privileged arguments = "/usr/bin/sudo" ∷ arguments

-- `admin(*arguments)` and `admin(*arguments, check=False)`
pub admin : List String → Work Completed
admin arguments = run (privileged arguments)

abbrev pub try_admin : List String → Work Completed
try_admin arguments = try_run (privileged arguments)

abbrev pub service_user : String
service_user = "_hplj1020"

abbrev pub service_real_name : String
service_real_name = "HP LaserJet 1020 Service"

abbrev pub service_label : String
service_label = "com.bartekpapierski.hplj1020.service"

abbrev pub service_target : String
service_target = "system/com.bartekpapierski.hplj1020.service"

abbrev pub queue : String
queue = "HP_LaserJet_1020"

abbrev pub queue_uri : String
queue_uri = "ipp://127.0.0.1:8631/ipp/print"

abbrev pub install_root_path : String
install_root_path = "/Library/Application Support/HP-LJ-1020"

abbrev pub below_root : String → String
below_root name = install_root_path <> "/" <> name

abbrev pub installed_app : String
installed_app = below_root "HP-LJ-1020.app"

abbrev pub state_root : String
state_root = below_root "state"

abbrev pub log_root : String
log_root = "/Library/Logs/HP-LJ-1020"

abbrev pub service_plist : String
service_plist = "/Library/LaunchDaemons/com.bartekpapierski.hplj1020.service.plist"

abbrev pub receipt : String
receipt = "com.bartekpapierski.hplj1020"

pub record Artifact : Type 0 where
  pub path : String
  pub owner : String
  pub group : String
  pub mode : String

abbrev pub metadata : Artifact → String
metadata a = a.owner <> ":" <> a.group <> ":" <> a.mode

abbrev pub root_owned : String → String → Artifact
root_owned mode path = record { path = path; owner = "root"; group = "wheel"; mode = mode }

abbrev service_owned : String → String → Artifact
service_owned mode path = record {
  path = path;
  owner = service_user;
  group = service_user;
  mode = mode;
}

abbrev pub private_directories : List Artifact
private_directories = map (service_owned "700") (
    state_root
    ∷ below_root "config"
    ∷ below_root "spool"
    ∷ below_root "firmware"
    ∷ below_root "cache"
    ∷ below_root "run"
    ∷ below_root "home"
    ∷ below_root "home/Library"
    ∷ below_root "home/Library/Application Support"
    ∷ log_root
    ∷ [])

abbrev pub log_files : List Artifact
log_files =
    map (λ name. service_owned "600" (log_root <> "/" <> name))
      ("service.log" ∷ "daemon.stdout.log" ∷ "daemon.stderr.log" ∷ [])

-- The paths of `REMOVAL_ARTIFACTS`, in order.
abbrev pub removal_paths : List String
removal_paths =
    service_plist
    ∷ installed_app
    ∷ below_root ".product-id"
    ∷ state_root
    ∷ below_root "config"
    ∷ below_root "spool"
    ∷ below_root "firmware"
    ∷ below_root "cache"
    ∷ below_root "run"
    ∷ below_root "home"
    ∷ install_root_path
    ∷ (map (λ (a : Artifact). a.path) log_files ++ log_root ∷ [])
