-- ===== src/Install/Removal.antt =====
-- `uninstall` (scripts/personal_install.py).
use hp_lj_1020_driver.Base.{
  String, ◌<>◌, Bool, true, false, not, Option, none, some, List, [], ◌∷◌, ◌++◌, ◌&&◌, all, keep,
  elem, is_empty, str_eq, if◌then◌else◌,
}
use hp_lj_1020_driver.Base.Text.{join}
use hp_lj_1020_driver.Base.Prog.{ret, raise, try_catch, ◌>>=◌, ◌>>◌}
use hp_lj_1020_driver.Install.Host.{
  Error, install_error, os_error, Completed, Work, succeeded, detail_of, try_run, try_admin,
  install_root_path, log_root, service_plist, service_label, service_target, service_user, queue,
  receipt, removal_paths,
}
use hp_lj_1020_driver.Install.Account.{
  user, group, account_record, validate_account_state, users_path, groups_path,
}
use hp_lj_1020_driver.Install.Ownership.{
  has_product_ownership_evidence, validate_existing_installation,
}
use hp_lj_1020_driver.Install.Service.{queue_lines, validate_queue_ownership}
use hp_lj_1020_driver.Install.Lifecycle.{disable, service_disable_override_present_in, fails_if}

abbrev clear_override : List String
clear_override = "/bin/launchctl" ∷ "enable" ∷ service_target ∷ []

abbrev set_override : List String
set_override = "/bin/launchctl" ∷ "disable" ∷ service_target ∷ []

abbrev forget_receipt : List String
forget_receipt = "/usr/sbin/pkgutil" ∷ "--forget" ∷ receipt ∷ []

abbrev receipt_info : List String
receipt_info = "/usr/sbin/pkgutil" ∷ "--pkg-info" ∷ receipt ∷ []

abbrev remove_tree : String → List String
remove_tree path = "/bin/rm" ∷ "-rf" ∷ path ∷ []

abbrev remove_queue : List String
remove_queue = "/usr/sbin/lpadmin" ∷ "-x" ∷ queue ∷ []

abbrev remove_plist : List String
remove_plist = "/bin/rm" ∷ "-f" ∷ service_plist ∷ []

abbrev delete_account : String → List String
delete_account path = "/usr/bin/dscl" ∷ "." ∷ "-delete" ∷ path ∷ []

-- What a failed step adds to the failures.
abbrev step_failure : String → Completed → List String
step_failure description c =
    fails_if (not (succeeded c)) (description <> " failed: " <> detail_of c)

pub attempt_removal_step : List String → String → Work (List String)
attempt_removal_step command description =
    try_admin command >>= λ c. ret (step_failure description c)

-- `if not failures: attempt_removal_step(...)`
pub unless_failed : List String → List String → String → Work (List String)
unless_failed [] command description = attempt_removal_step command description
unless_failed (f ∷ failures) command description = ret (f ∷ failures)

pub step_when : Bool → List String → String → Work (List String)
step_when true command description = attempt_removal_step command description
step_when false command description = ret []

pub existing_paths : List String → Work (List String)
existing_paths [] = ret []
existing_paths (path ∷ paths) = do
  there ← try_admin ("/bin/test" ∷ "-e" ∷ path ∷ [])
  rest ← existing_paths paths
  ret (fails_if (succeeded there) path ++ rest)

pub service_residue : Bool → Work (List String)
service_residue false = ret []
service_residue true = do
  loaded ← try_admin ("/bin/launchctl" ∷ "print" ∷ service_target ∷ [])
  disabled ← try_admin ("/bin/launchctl" ∷ "print-disabled" ∷ "system" ∷ [])
  ret (
      fails_if (succeeded loaded) ("launchd:" <> service_label)
      ++ fails_if (service_disable_override_present_in disabled.stdout)
          ("launchd-disabled:" <> service_label))

abbrev is_some : Option String → Bool
is_some none = false
is_some (some s) = true

pub receipt_residue : Bool → Work (List String)
receipt_residue false = ret []
receipt_residue true =
    try_run receipt_info >>= λ c. ret (fails_if (succeeded c) ("receipt:" <> receipt))

abbrev residue_paths : Bool → List String
residue_paths true = removal_paths
residue_paths false = keep (λ path. not (str_eq path service_plist)) removal_paths

pub find_removal_residue : Bool → Bool → Work (List String)
find_removal_residue include_service_registration include_receipt = do
  paths ← existing_paths (residue_paths include_service_registration)
  service ← service_residue include_service_registration
  queues ← try_run ("/usr/bin/lpstat" ∷ "-v" ∷ [])
  u ← account_record user
  g ← account_record group
  kept ← receipt_residue include_receipt
  ret (
      paths
      ++ (service
          ++ (fails_if (not (is_empty (queue_lines queues))) ("queue:" <> queue)
              ++ (fails_if (is_some u) ("user:" <> service_user)
                  ++ (fails_if (is_some g) ("group:" <> service_user) ++ kept)))))

abbrev residue_note : List String → List String
residue_note [] = []
residue_note (r ∷ residue) = ("removal residue: " <> join ", " (r ∷ residue)) ∷ []

pub raise_removal_failure : List String → Work (Unit {0})
raise_removal_failure failures = do
  residue ← find_removal_residue true true
  raise (install_error (join "; " (failures ++ residue_note residue)))

pub verify_clean_removal : Work (Unit {0})
verify_clean_removal = do
  residue ← find_removal_residue true true
  if is_empty residue then ret tt else (try_admin set_override >> raise_removal_failure [])

abbrev message_of : Error → List String
message_of (install_error m) = m ∷ []
message_of (os_error m) = m ∷ []

-- `try: disable(host)` with the failure kept.
abbrev keep_failure : Error → Work (List String)
keep_failure (install_error m) = ret (m ∷ [])
keep_failure (os_error m) = raise (os_error m)

abbrev trying : Work (Unit {0}) → Work (List String)
trying m = try_catch (m >> ret []) keep_failure

-- The first handler of `uninstall`: without evidence the exception goes on.
pub refuse_foreign : Bool → Error → Work Bool
refuse_foreign evidence (os_error m) = raise (os_error m)
refuse_foreign false (install_error m) = raise (install_error m)
refuse_foreign true (install_error m) = do
  failures ← trying (disable false)
  raise_removal_failure (m ∷ failures)
  ret false

-- The end of both ways: the override is set again if a step failed.
pub close_removal : List String → Work (Unit {0})
close_removal [] = verify_clean_removal
close_removal (f ∷ failures) = try_admin set_override >> raise_removal_failure (f ∷ failures)

abbrev recovery_residue : List String
recovery_residue = ("receipt:" <> receipt) ∷ ("launchd-disabled:" <> service_label) ∷ []

-- Without ownership, only the receipt and the override may be cleared.
pub remove_unowned : Completed → List String → Work (Unit {0})
remove_unowned kept residue =
    if succeeded kept && all (λ r. elem r recovery_residue) residue
    then (do
      cleared ←
          attempt_removal_step clear_override ("clear service disable override " <> service_label)
      failures ← unless_failed cleared forget_receipt ("forget receipt " <> receipt)
      close_removal failures)
    else raise_removal_failure ("refusing uninstall without verified product ownership" ∷ [])

-- `any(test -e)` over the product's root and its logs
pub data_remains : Work Bool
data_remains = do
  root ← try_admin ("/bin/test" ∷ "-e" ∷ install_root_path ∷ [])
  elim (succeeded root) [
    | true ↦ ret true
    | false ↦ try_admin ("/bin/test" ∷ "-e" ∷ log_root ∷ []) >>= λ logs. ret (succeeded logs)
  ]

pub remove_accounts : Bool → Option String → Option String → Work (List String)
remove_accounts true u g = ret []
remove_accounts false u g = do
  of_user ← step_when (is_some u) (delete_account users_path) ("remove user " <> service_user)
  of_group ← step_when (is_some g) (delete_account groups_path) ("remove group " <> service_user)
  ret (of_user ++ of_group)

-- From the removal of the queue to that of the account.
pub remove_data : Bool → Option String → Option String → Work (List String)
remove_data queue_owned u g = do
  of_queue ← step_when queue_owned remove_queue ("remove queue " <> queue)
  of_logs ← attempt_removal_step (remove_tree log_root) ("remove logs " <> log_root)
  of_root ←
      unless_failed (of_queue ++ of_logs) (remove_tree install_root_path)
        ("remove product root " <> install_root_path)
  remaining ← data_remains
  of_accounts ← remove_accounts remaining u g
  ret (of_root ++ of_accounts)

abbrev raise_unless_clear : List String → List String → Work (Unit {0})
raise_unless_clear [] [] = ret tt
raise_unless_clear [] (r ∷ residue) = raise_removal_failure []
raise_unless_clear (f ∷ failures) residue = raise_removal_failure (f ∷ failures)

-- The registration of the service, and last the receipt.
pub remove_registration : Bool → Work (Unit {0})
remove_registration receipt_kept = do
  cleared ← attempt_removal_step clear_override ("clear service disable override " <> service_label)
  of_plist ← unless_failed cleared remove_plist ("remove LaunchDaemon plist " <> service_plist)
  failures ←
      if receipt_kept
      then unless_failed of_plist forget_receipt ("forget receipt " <> receipt)
      else ret of_plist
  close_removal failures

abbrev raise_if_failed : List String → Work (Unit {0})
raise_if_failed [] = ret tt
raise_if_failed (f ∷ failures) = raise_removal_failure (f ∷ failures)

pub remove_owned : Completed → Option String → Option String → Work (Unit {0})
remove_owned kept u g = do
  trying (disable false) >>= raise_if_failed
  trying (validate_account_state true) >>= raise_if_failed
  queue_owned ← validate_queue_ownership
  failures ← remove_data queue_owned u g
  blocking ← find_removal_residue false false
  raise_unless_clear failures blocking
  remove_registration (succeeded kept)

pub uninstall : Work (Unit {0})
uninstall = do
  evidence ← has_product_ownership_evidence
  product_owned ← try_catch validate_existing_installation (refuse_foreign evidence)
  kept ← try_run receipt_info
  u ← account_record user
  g ← account_record group
  residue ← find_removal_residue true true
  elim residue [
    | [] ↦ ret tt
    | r ∷ rest ↦ elim product_owned [
      | true ↦ remove_owned kept u g
      | false ↦ remove_unowned kept (r ∷ rest)
    ]
  ]
