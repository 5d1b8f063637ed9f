-- ===== src/Install/Lifecycle.antt =====
-- Waiting for the service, disabling and enabling it, and the first installation
-- (scripts/personal_install.py).
pub mod Quiescent
use hp_lj_1020_driver.Base.{
  ℕ, zero, suc, String, ◌<>◌, Bool, true, false, not, Option, none, some, List, [], ◌∷◌, ◌++◌, ◌&&◌,
  ◌||◌, any, is_empty, str_eq, starts_with, ◌==◌, if◌then◌else◌,
}
use hp_lj_1020_driver.Base.Text.{
  strip, split_lines, contains, lower_contains, is_digits, is_nonempty, join, or_text, after_equals,
  right_strip_semicolons,
}
use hp_lj_1020_driver.Base.Prog.{ret, raise, call, try_catch, ◌>>=◌, ◌>>◌}
use Prim.Native.String.{len, slice}
use hp_lj_1020_driver.Install.Host.{
  Error, install_error, os_error, Completed, sleep, Work, answer, raise_if, succeeded, try_run, run,
  admin, try_admin, below_root, installed_app, service_plist, service_label, service_target,
  service_user, queue, queue_uri,
}
use hp_lj_1020_driver.Install.Staging.{staged_app, stage_and_sign}
use hp_lj_1020_driver.Install.Account.{validate_account_state, ensure_account}
use hp_lj_1020_driver.Install.Ownership.{validate_existing_installation}
use hp_lj_1020_driver.Install.Service.{
  install_paths, install_root, install_payload, queue_prefix, validate_queue_ownership,
  reconcile_queue,
}

abbrev pid_in : List String → String
pid_in [] = ""
pid_in (line ∷ lines) =
    if starts_with (strip line) "pid =" then strip (after_equals line) else pid_in lines

abbrev first_stripped : List String → String
first_stripped [] = ""
first_stripped (x ∷ xs) = strip x

abbrev run_if : Bool → List String → Work String
run_if true command = try_run command >>= λ c. ret c.stdout
run_if false command = ret ""

abbrev is_foreign : String → Bool
is_foreign line =
    contains "TCP" line
    && contains "8631" line
    && not (contains "127.0.0.1:8631" line)
    && not (contains "[::1]:8631" line)

-- The provider listens on both loopback addresses and on nothing else at the port.
abbrev listens_locally : String → Bool
listens_locally listeners =
    contains "127.0.0.1:8631" listeners
    && contains "[::1]:8631" listeners
    && not (any is_foreign (split_lines listeners))

abbrev queue_is_ready : Completed → Completed → Bool
queue_is_ready status devices =
    succeeded status
    && lower_contains "enabled" status.stdout
    && not (lower_contains "disabled" status.stdout)
    && contains (queue_prefix <> queue_uri) devices.stdout

pub queue_ready : Bool → Work Bool
queue_ready false = ret true
queue_ready true = do
  status ← try_run ("/usr/bin/lpstat" ∷ "-p" ∷ queue ∷ [])
  devices ← try_run ("/usr/bin/lpstat" ∷ "-v" ∷ [])
  ret (queue_is_ready status devices)

abbrev owner_command : String → List String
owner_command pid = "/bin/ps" ∷ "-o" ∷ "uid=" ∷ "-p" ∷ pid ∷ []

abbrev listeners_command : String → List String
listeners_command pid =
    "/usr/bin/sudo" ∷ "/usr/sbin/lsof" ∷ "-nP" ∷ "-a" ∷ "-p" ∷ pid ∷ "-iTCP:8631" ∷ "-sTCP:LISTEN"
    ∷ []

-- One look at a supervisor that runs: whether it is ready, and what was seen.
pub look : String → Bool → String → Work (Bool × String)
look expected_uid require_queue pid = do
  observed ← try_run (owner_command pid)
  provider ← try_run ("/usr/bin/pgrep" ∷ "-P" ∷ pid ∷ "-x" ∷ "hplj1020" ∷ [])
  let provider_pid = first_stripped (split_lines provider.stdout)
  provider_owner ← run_if (is_digits provider_pid) (owner_command provider_pid)
  listeners ← run_if (is_digits provider_pid) (listeners_command provider_pid)
  let provider_uid = strip provider_owner
  ready ←
      elim (str_eq (strip observed.stdout) expected_uid
        && str_eq provider_uid expected_uid
        && listens_locally listeners) [ true ↦ queue_ready require_queue | false ↦ ret false ]
  ret (
    ready,
    "supervisor="
        <> or_text pid "missing"
        <> " provider="
        <> or_text provider_pid "missing"
        <> " uid="
        <> or_text provider_uid (or_text (strip observed.stdout) "missing"),
  )

-- One round of the loop; `last` is what the latest look at a running supervisor saw.
pub attempt_ready : String → Bool → String → Work (Bool × String)
attempt_ready expected_uid require_queue last = do
  job ← try_admin ("/bin/launchctl" ∷ "print" ∷ service_target ∷ [])
  let pid = pid_in (split_lines job.stdout)
  elim (is_digits pid) [ true ↦ look expected_uid require_queue pid | false ↦ ret (false, last) ]

pub wait_attempts : ℕ → String → Bool → String → Work (Unit {0})
wait_attempts zero expected_uid require_queue last =
    raise (install_error ("service readiness timed out (" <> last <> ")"))
wait_attempts (suc n) expected_uid require_queue last = do
  (ready, seen) ← attempt_ready expected_uid require_queue last
  elim ready [
    | true ↦ ret tt
    | false ↦ call sleep answer >> wait_attempts n expected_uid require_queue seen
  ]

pub wait_ready : Bool → Work (Unit {0})
wait_ready require_queue = do
  expected ← run ("/usr/bin/id" ∷ "-u" ∷ service_user ∷ [])
  wait_attempts 60 (strip expected.stdout) require_queue "launchd job did not reach the provider"

-- The failures that `disable` collects; each part returns those that it adds.
abbrev pub fails_if : Bool → String → List String
fails_if true message = message ∷ []
fails_if false message = []

abbrev found_or_failure : Error → Work (Bool × List String)
found_or_failure (install_error m) = ret (false, m ∷ [])
found_or_failure (os_error m) = raise (os_error m)

pub owned_queue : Work (Bool × List String)
owned_queue = try_catch (validate_queue_ownership >>= λ owned. ret (owned, [])) found_or_failure

pub set_policy : Bool → Work (List String)
set_policy true = ret []
set_policy false = do
  policy ← try_admin (
      "/usr/sbin/lpadmin" ∷ "-p" ∷ queue ∷ "-o" ∷ "printer-is-shared=false" ∷ "-o"
      ∷ "printer-error-policy=stop-printer" ∷ [])
  ret (fails_if (not (succeeded policy)) "queue policy update failed")

pub hold_queue : Bool → Bool → Work (List String)
hold_queue false preserve_queue_policy = ret []
hold_queue true preserve_queue_policy = do
  policy ← set_policy preserve_queue_policy
  held ← try_admin ("/usr/sbin/cupsdisable" ∷ queue ∷ [])
  status ← try_run ("/usr/bin/lpstat" ∷ "-p" ∷ queue ∷ [])
  ret (
      policy
      ++ (fails_if (not (succeeded held)) "queue hold failed"
          ++ fails_if (not (lower_contains "disabled" status.stdout))
              ("queue remains enabled: " <> queue)))

-- The sleep after every round but the last.
abbrev pub pause_before : ℕ → Work (Unit {0})
pause_before zero = ret tt
pause_before (suc n) = call sleep answer

pub wait_unloaded : ℕ → Work (List String)
wait_unloaded zero = ret (("service remains loaded: " <> service_label) ∷ [])
wait_unloaded (suc n) = do
  loaded ← try_admin ("/bin/launchctl" ∷ "print" ∷ service_target ∷ [])
  elim (succeeded loaded) [ false ↦ ret [] | true ↦ pause_before n >> wait_unloaded n ]

abbrev pub is_listener : String → Bool
is_listener line = is_nonempty (strip line) && not (starts_with line "COMMAND")

abbrev pub has_listener : Completed → Bool
has_listener c = any is_listener (split_lines c.stdout)

-- The two flags are those of the latest look.
pub wait_silent : ℕ → Bool → Bool → Work (List String)
wait_silent zero tcp_active socket_active = ret (
    fails_if tcp_active "loopback listener remains active on port 8631"
    ++ fails_if socket_active "product socket listener remains active")
wait_silent (suc n) _ _ = do
  tcp ← try_admin ("/usr/sbin/lsof" ∷ "-nP" ∷ "-iTCP:8631" ∷ "-sTCP:LISTEN" ∷ [])
  socket ← try_admin ("/usr/sbin/lsof" ∷ "-nP" ∷ below_root "run/service.sock" ∷ [])
  elim (not (has_listener tcp) && not (has_listener socket)) [
    | true ↦ ret []
    | false ↦ pause_before n >> wait_silent n (has_listener tcp) (has_listener socket)
  ]

abbrev override_prefix : String
override_prefix = "\"" <> service_label <> "\" => "

abbrev is_override : String → Bool
is_override line =
    let state =
      right_strip_semicolons (slice (strip line) (len override_prefix) (len (strip line))) in
    starts_with (strip line) override_prefix && (str_eq state "true" || str_eq state "disabled")

pub service_disable_override_present_in : String → Bool
service_disable_override_present_in output = any is_override (split_lines output)

abbrev pub raise_failures : List String → Work (Unit {0})
raise_failures failures =
    raise_if (not (is_empty failures)) ("disable incomplete: " <> join ", " failures)

pub stop_service : Work (List String)
stop_service = do
  override ← try_admin ("/bin/launchctl" ∷ "disable" ∷ service_target ∷ [])
  try_admin ("/bin/launchctl" ∷ "bootout" ∷ service_target ∷ [])
  loaded ← wait_unloaded 50
  listening ← wait_silent 150 false false
  disabled ← try_admin ("/bin/launchctl" ∷ "print-disabled" ∷ "system" ∷ [])
  ret (
      fails_if (not (succeeded override)) "service disable override failed"
      ++ (loaded
          ++ (listening
              ++ fails_if (not (service_disable_override_present_in disabled.stdout))
                  ("service disable override is missing: " <> service_label))))

pub disable : Bool → Work (Unit {0})
disable preserve_queue_policy = do
  (owned, collision) ← owned_queue
  held ← hold_queue owned preserve_queue_policy
  stopped ← stop_service
  raise_failures (collision ++ (held ++ stopped))

pub enable : Work (Unit {0})
enable = do
  try_admin ("/bin/launchctl" ∷ "bootout" ∷ service_target ∷ [])
  install_paths
  admin ("/bin/launchctl" ∷ "enable" ∷ service_target ∷ [])
  admin ("/bin/launchctl" ∷ "bootstrap" ∷ "system" ∷ service_plist ∷ [])
  wait_ready false
  reconcile_queue
  admin ("/usr/sbin/cupsenable" ∷ queue ∷ [])
  wait_ready true

-- The `try` at the end of `install`.
pub start_installed : Work (Unit {0})
start_installed = do
  try_admin ("/bin/launchctl" ∷ "bootout" ∷ service_target ∷ [])
  admin ("/bin/launchctl" ∷ "enable" ∷ service_target ∷ [])
  admin ("/bin/launchctl" ∷ "bootstrap" ∷ "system" ∷ service_plist ∷ [])
  wait_ready false
  reconcile_queue
  wait_ready true

abbrev disable_again : Error → Work (Unit {0})
disable_again (install_error m) = disable false >> raise (install_error m)
disable_again (os_error m) = raise (os_error m)

pub install : String → Work (Unit {0})
install root = do
  stage_and_sign root false
  admin ("-v" ∷ [])
  product_owned ← validate_existing_installation
  there ← try_admin ("/bin/test" ∷ "-e" ∷ installed_app ∷ [])
  raise_if (succeeded there) "existing payload requires update --tag; install cannot overwrite it"
  validate_account_state product_owned
  queue_owned ← validate_queue_ownership
  raise_if (queue_owned && not product_owned) ("refusing unmarked queue collision for " <> queue)
  install_root
  install_payload (staged_app root)
  disable false
  ensure_account true
  install_paths
  validate_existing_installation
  try_catch start_installed disable_again
