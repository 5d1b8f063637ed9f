-- ===== src/Reconcile.antt =====
-- The creation of the one macOS queue (scripts/reconcile_macos_queue.py). The runner's commands are
-- calls.
pub mod Guard
use hp_lj_1020_driver.Base.{
  ℕ, String, ◌<>◌, Bool, true, false, not, Option, none, some, List, [], ◌∷◌, elem, keep,
  starts_with, texts_eq, if◌then◌else◌,
}
use hp_lj_1020_driver.Base.Text.{strip, split_lines}
use hp_lj_1020_driver.Base.Prog.{Prog, ret, raise, call, try_catch, ◌>>=◌, ◌>>◌}
use hp_lj_1020_driver.Install.Host.{Completed, succeeded}

-- What `main` catches; `called_process_error` is that of `check=True`.
pub data Error : Type 0 where
  os_error runtime_error : String → Error
  called_process_error : Error

pub data Call : Type 0 where
  execute : List String → Call
  print : String → Call

pub data Reply (A : Type 0) : Type 0 where
  got : A → Reply A
  raised : Error → Reply A

abbrev pub Replies : Call → Type 0
Replies (execute command) = Reply Completed
Replies (print line) = Reply (Unit {0})

abbrev pub Work : Type 0 → Type 0
Work A = Prog Call Replies Error A

abbrev pub answer : {A : Type 0} → Reply A → Work A
answer (got a) = ret a
answer (raised e) = raise e

abbrev raise_if : Bool → String → Work (Unit {0})
raise_if true message = raise (runtime_error message)
raise_if false message = ret tt

abbrev run : List String → Work Completed
run command = call (execute command) answer

abbrev checked : Completed → Work Completed
checked c = if succeeded c then ret c else raise called_process_error

-- `runner(command, check=True)`
abbrev run_checked : List String → Work Completed
run_checked command = run command >>= checked

abbrev pub list_queues : List String
list_queues = "/usr/bin/lpstat" ∷ "-v" ∷ []

abbrev pub create_queue : String → String → List String
create_queue queue_name device_uri =
    "/usr/sbin/lpadmin" ∷ "-p" ∷ queue_name ∷ "-v" ∷ device_uri ∷ "-m" ∷ "everywhere" ∷ "-E" ∷ []

abbrev pub prefix : String → String
prefix queue_name = "device for " <> queue_name <> ": "

abbrev pub matches_in : String → Completed → List String
matches_in queue_name c = keep (λ line. starts_with line (prefix queue_name)) (split_lines c.stdout)

-- The first `if` of `reconcile`; a result is one that it returns.
unfoldable pub examine : String → String → Bool → List String → Work (Option String)
examine queue_name device_uri apply [] = ret none
examine queue_name device_uri apply (found ∷ more) = do
  raise_if (not (texts_eq (found ∷ more) ((prefix queue_name <> device_uri) ∷ [])))
      ("refusing foreign queue collision for " <> queue_name <> ": " <> found)
  ret (if apply then none else some ("would verify " <> queue_name <> " as enabled IPP Everywhere"))

unfoldable pub verified : String → String → Completed → Work String
verified queue_name device_uri listed = do
  raise_if (not (elem (prefix queue_name <> device_uri) (split_lines listed.stdout)))
      "queue creation did not converge to the requested device URI"
  ret "reconciled"

-- From the creation of the queue on.
unfoldable pub create : String → String → Work String
create queue_name device_uri = do
  run_checked (create_queue queue_name device_uri)
  listed ← run_checked list_queues
  verified queue_name device_uri listed

unfoldable pub proceed : String → String → Bool → Option String → Work String
proceed queue_name device_uri apply (some outcome) = ret outcome
proceed queue_name device_uri false none =
    ret ("would create " <> queue_name <> " -> " <> device_uri <> " using IPP Everywhere")
proceed queue_name device_uri true none = create queue_name device_uri

-- What follows the query, from its lines on the queue.
unfoldable pub examined : String → String → Bool → List String → Work String
examined queue_name device_uri apply matches =
    examine queue_name device_uri apply matches >>= λ early.
    proceed queue_name device_uri apply early

unfoldable pub reconcile : String → String → Bool → Work String
reconcile queue_name device_uri apply = do
  query ← run list_queues
  raise_if (not (succeeded query)) ("could not inspect CUPS queues: " <> strip query.stderr)
  examined queue_name device_uri apply (matches_in queue_name query)

abbrev message_of : Error → String
message_of (os_error m) = m
message_of (runtime_error m) = m
message_of called_process_error = "command failed"

abbrev rejected : Error → Work ℕ
rejected e = call (print ("queue reconciliation failed: " <> message_of e)) answer >> ret 1

-- `main`, from the parsed arguments to the exit status
pub main : String → String → Bool → Work ℕ
main queue_name device_uri apply =
    try_catch
      (do outcome ← reconcile queue_name device_uri apply; call (print outcome) answer; ret 0)
      rejected
