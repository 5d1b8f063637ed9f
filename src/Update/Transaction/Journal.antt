-- ===== src/Update/Transaction/Journal.antt =====
-- The journal of `Transaction` (scripts/personal_update.py): phases, `recover` and `execute`.
use hp_lj_1020_driver.Base.{
  ℕ, String, ◌<>◌, Bool, true, false, not, Option, none, some, ◌&&◌, ◌||◌, all, length, leb, ◌==◌,
  if◌then◌else◌,
}
use hp_lj_1020_driver.Base.Text.{codes}
use hp_lj_1020_driver.Base.Prog.{ret, raise, call, ◌>>=◌, ◌>>◌, try_catch}
use hp_lj_1020_driver.Update.Calls.{
  Error, install_error, os_error, FilePath, root, plist, source, child, Phase, preparing, admission,
  stopping, backed_up, migrating, starting, healthy, committed, restoring, Operation, update,
  rollback, Journal, previous_doc, result_doc, preflight, close_admission, stop, start, health,
  release, validate, durable_json, read_previous, write_journal, has_journal, read_journal,
  remove_journal, mkdir, sync_directory, protect_tree, store_is_safe, lock, new_run_id, Work,
  answer, answer_written, raise_if, Failure, during,
}
use hp_lj_1020_driver.Update.Transaction.{
  payload, store, mark, inventory, copy_verified, snapshot, verify, replace, migrate, restore,
}

abbrev pub phase_name : Phase → String
phase_name preparing = "preparing"
phase_name admission = "admission"
phase_name stopping = "stopping"
phase_name backed_up = "backed-up"
phase_name migrating = "migrating"
phase_name starting = "starting"
phase_name healthy = "healthy"
phase_name committed = "committed"
phase_name restoring = "restoring"

abbrev pub in_phase : Journal → Phase → Journal
in_phase r p = record r { phase = p }

-- `Transaction.phase`, once `record["phase"]` is set
unfoldable pub save_phase : Journal → Work Error (Unit {0})
save_phase r = call (write_journal r) answer_written >> mark (phase_name r.phase)

unfoldable pub finish : Journal → String → Work Error (Unit {0})
finish r outcome = do
  call (durable_json (child store "last-result.json") (result_doc r outcome)) answer_written
  call remove_journal answer
  call (sync_directory store) answer

abbrev pub is_hex : ℕ → Bool
is_hex c = (leb b'0' c && leb c b'9') || (leb b'a' c && leb c b'f')

abbrev pub is_run_id : String → Bool
is_run_id name = length (codes name) == 32 && all is_hex (codes name)

unfoldable pub run_path : String → Work Error FilePath
run_path name =
    raise_if (not (is_run_id name)) "invalid transaction identity" >> ret (child store name)

abbrev pub operation_name : Operation → String
operation_name update = "update"
operation_name rollback = "rollback"

abbrev pub recorded_outcome : Journal → String
recorded_outcome r = elim r.recovery_outcome [
  | some outcome ↦ outcome
  | none ↦ operation_name r.operation <> "-complete"
]

abbrev pub recovered : Journal → String → Journal
recovered r outcome = record r { phase = committed; recovery_outcome = some outcome }

-- `recover` in the phase `stopping`
unfoldable pub restart_unchanged : Journal → Work Error Bool
restart_unchanged r = do
  call stop answer
  call start answer
  call health answer
  save_phase (recovered r "unchanged")
  call release answer
  finish (recovered r "unchanged") "unchanged"
  ret true

-- `recover` in the phases after `stopping`
unfoldable pub roll_back : Journal → FilePath → Work Error Bool
roll_back r run = do
  call stop answer
  save_phase (in_phase r restoring)
  restore (child run "before")
  call start answer
  call health answer
  mark "restored-health"
  save_phase (recovered r "rolled-back")
  call release answer
  mark "recovery-released"
  finish (recovered r "rolled-back") "rolled-back"
  ret true

unfoldable pub resume : Phase → Journal → FilePath → Work Error Bool
resume committed r run = do
  call health answer
  call release answer
  finish r (recorded_outcome r)
  ret true
resume preparing r run = finish r "prepare-failed" >> ret true
resume admission r run = do call release answer; finish r "deferred"; ret true
resume stopping r run = restart_unchanged r
resume _ r run = roll_back r run

unfoldable pub recover_from : Journal → Work Error Bool
recover_from r = run_path r.run_id >>= λ run. resume r.phase r run

unfoldable pub recover : Work Error Bool
recover = do
  pending ← call has_journal answer
  if pending then call read_journal answer >>= recover_from else ret false

-- A pending journal that is not committed stops the service; the result says that it is committed.
unfoldable pub settle : Phase → Work Error Bool
settle committed = ret true
settle _ = call stop answer >> ret false

-- What both handlers of `execute` do when recovery fails; a journal that is gone counts as
-- committed.
unfoldable pub stop_unless_committed : Work Error Bool
stop_unless_committed = do
  pending ← call has_journal answer
  if pending then (call read_journal answer >>= λ r. settle r.phase) else ret true

abbrev pub enter : Journal → Phase → Work Failure (Unit {0})
enter r p = during (in_phase r p) (save_phase (in_phase r p))

unfoldable pub prepare : Bool → FilePath → Work Error (Unit {0})
prepare false run = ret tt
prepare true run = do
  inventory source
  copy_verified source (child run payload)
  inventory (child run payload)
  call (protect_tree (child run payload)) answer
  call (validate (child run payload)) answer

abbrev pub installed_plist : FilePath
installed_plist =
    child (child (child root payload) "Contents/Library/LaunchDaemons")
      "com.bartekpapierski.hplj1020.service.plist"

unfoldable pub back_up : FilePath → Work Error (Unit {0})
back_up run = do call stop answer; snapshot (child run "before"); verify (child run "before")

unfoldable pub replace_payload : FilePath → Work Error (Unit {0})
replace_payload run = do
  replace (child run payload) (child root payload) payload
  mark "payload-replaced"
  replace installed_plist plist "com.bartekpapierski.hplj1020.service.plist"

-- The replacement, or the restoring of the retained state; the result is the phase it ends in.
unfoldable pub change : Journal → FilePath → Option FilePath → Work Failure (Unit {0})
change r run none = do
  during (in_phase r backed_up) (replace_payload run)
  enter r migrating
  during (in_phase r migrating) migrate
change r run (some before) = during (in_phase r backed_up) (restore before)

unfoldable pub start_and_check : Work Error (Unit {0})
start_and_check = call start answer >> call health answer

abbrev pub final_outcome : Option FilePath → String
final_outcome none = "updated"
final_outcome (some before) = "rolled-back"

unfoldable pub conclude : Journal → Option FilePath → Work Error (Unit {0})
conclude r before = do call release answer; mark "released"; finish r (final_outcome before)

unfoldable pub keep_pointer : Journal → Work Error (Unit {0})
keep_pointer r =
    call (durable_json (child store "previous.json") (previous_doc r.run_id)) answer_written

-- The end of that `try`, from the phase `starting` on.
unfoldable pub activate : Journal → Option FilePath → Work Failure (Unit {0})
activate r before = do
  enter r starting
  during (in_phase r starting) start_and_check
  enter r healthy
  during (in_phase r healthy) (keep_pointer r)
  enter r committed
  during (in_phase r committed) (conclude (in_phase r committed) before)

-- The body of the second `try` of `execute`.
unfoldable pub transact : Journal → Bool → FilePath → Option FilePath → Work Failure (Unit {0})
transact r updating run before = do
  enter r preparing
  during (in_phase r preparing) (prepare updating run)
  enter r admission
  during (in_phase r admission) (call close_admission answer)
  enter r stopping
  during (in_phase r stopping) (back_up run)
  enter r backed_up
  change r run before
  activate r before

abbrev pub message_of : Error → String
message_of (install_error m) = m
message_of (os_error m) = m

unfoldable pub incomplete_with : Error → Bool → Work Error (Unit {0})
incomplete_with e done = raise (
    install_error (
      (if done then "finalization incomplete" else "rollback incomplete; service disabled")
      <> "; rerun rollback: "
      <> message_of e))

unfoldable pub incomplete : Error → Work Error (Unit {0})
incomplete e = stop_unless_committed >>= incomplete_with e

-- The handler of that `try`.
unfoldable pub undo : Failure → Work Error (Unit {0})
undo (r, e) = do
  call (write_journal (record r { failed_phase = some r.phase })) answer_written
  try_catch (recover >> ret tt) incomplete
  raise e

unfoldable pub retained : Bool → Work Error (Option FilePath)
retained true = ret none
retained false = do
  name ← call read_previous answer
  run ← run_path name
  verify (child run "before")
  ret (some (child run "before"))

unfoldable pub begin : Bool → String → String → Work Error (Unit {0})
begin updating tag commit = do
  call preflight answer
  before ← retained updating
  run_id ← call new_run_id answer
  run ← run_path run_id
  call (mkdir run) answer
  try_catch
      (transact
        (record {
          run_id = run_id;
          tag = tag;
          commit = commit;
          operation = if updating then update else rollback;
          phase = preparing;
          failed_phase = none;
          recovery_outcome = none;
        })
        updating run before)
      undo

unfoldable pub give_up : Error → Work Error (Unit {0})
give_up e = stop_unless_committed >> raise e

-- `updating` says that a staged payload is given.
unfoldable pub execute : Bool → String → String → Work Error (Unit {0})
execute updating tag commit = do
  call (mkdir store) answer
  safe ← call store_is_safe answer
  raise_if (not safe) "unsafe transaction store"
  call lock answer
  pending ← call has_journal answer
  if pending then try_catch (recover >> ret tt) give_up else begin updating tag commit
