-- ===== src/Duplex/Workflow.antt =====
-- `run_workflow` (scripts/manual_duplex.py), over the backend, the clock and the operator as calls.
-- Times are naturals of some unit; the wait for a job takes fuel, and `none` means that it ran out.
mod Rules
pub mod Watch
pub mod Deadline
use hp_lj_1020_driver.Base.{
  ℕ, zero, suc, ◌+◌, String, ◌<>◌, Bool, true, false, not, ◌||◌, Option, none, some, leb, ◌==◌,
  str_eq, if◌then◌else◌,
}
use hp_lj_1020_driver.Base.Prog.{Prog, ret, raise, call, ◌>>=◌, ◌>>◌, try_catch}

-- The exceptions that the handlers tell apart; `other` is any other `BaseException`, such as a
-- keyboard interrupt.
pub data Error : Type 0 where
  os_error value_error runtime_error subprocess_error other : String → Error

-- A number of seconds as `--timeout` gives it.
pub data Duration : Type 0 where
  ticks : ℕ → Duration
  negative : Duration
  not_finite : Duration

pub data Pass : Type 0 where
  fronts backs : Pass

pub data Message : Type 0 where
  waiting_for_reinsertion completed incomplete : Message
  printing : Pass → Message
  prior_service_stopped : ℕ → Message
  cancellation_unconfirmed : ℕ → Message

-- `backend.instance()` and the other methods, `confirm`, `clock`, `sleep(0.25)` and `publish`.
pub data Call : Type 0 where
  instance_id create clock sleep : Call
  send : ℕ → String → ℕ → Call
  state : ℕ → Call
  cancel : ℕ → Call
  confirm : ℕ → Call
  publish : Message → Call

pub data Reply (A : Type 0) : Type 0 where
  got : A → Reply A
  raised : Error → Reply A

abbrev pub Answer : Call → Type 0
Answer instance_id = String
Answer create = ℕ
Answer clock = ℕ
Answer sleep = Unit
Answer (send job raster timeout) = Unit
Answer (state job) = ℕ
Answer (cancel job) = Unit
Answer (confirm timeout) = Bool
Answer (publish message) = Unit

abbrev pub Replies : Call → Type 0
Replies c = Reply (Answer c)

abbrev pub Work : Type 0 → Type 0 → Type 0
Work E A = Prog Call Replies E A

abbrev answer : {A : Type 0} → Reply A → Work Error A
answer (got a) = ret a
answer (raised e) = raise e

abbrev pub ask : (c : Call) → Work Error (Answer c)
ask c = call c answer

abbrev pub raise_if : Bool → String → Work Error (Unit {0})
raise_if true message = raise (runtime_error message)
raise_if false message = ret tt

-- What the outer handler sees: the exception, and the job that is active.
abbrev pub Failure : Type 0
Failure = Option ℕ × Error

abbrev pub tag : {A : Type 0} → Option ℕ → Error → Work Failure A
tag active e = raise (active, e)

abbrev pub within : {A : Type 0} → Option ℕ → Work Error A → Work Failure A
within active m = try_catch m (tag active)

pub check_instance : String → Work Error (Unit {0})
check_instance instance_name = do
  current ← ask instance_id
  raise_if (not (str_eq current instance_name)) "provider restarted; start again with fresh paper"

abbrev pub is_pending : ℕ → Bool
is_pending s = s == 3 || s == 4 || s == 5 || s == 6

-- The `while True` loop; `false` means that the fuel ran out.
pub wait_for_job : ℕ → String → ℕ → ℕ → Work Error Bool
unfolding check_instance
wait_for_job zero instance_name job deadline = ret false
wait_for_job (suc fuel) instance_name job deadline = do
  check_instance instance_name
  s ← ask (state job)
  elim (s == 9) [
    | true ↦ ret true
    | false ↦ do
      raise_if (not (is_pending s)) "job unsuccessful"
      now ← ask clock
      raise_if (leb deadline now) "job timed out"
      ask sleep
      wait_for_job fuel instance_name job deadline
  ]

-- The wait between the passes: `confirm`, and the front job looked at again.
pub reinsertion : String → ℕ → ℕ → Work Error (Unit {0})
unfolding check_instance
reinsertion instance_name timeout job = do
  ask (publish waiting_for_reinsertion)
  start ← ask clock
  confirmed ← ask (confirm timeout)
  expired ← elim confirmed [
    | true ↦ ask clock >>= λ now. ret (leb (start + timeout) now)
    | false ↦ ret true
  ]
  raise_if expired "reinsertion canceled or timed out"
  check_instance instance_name
  s ← ask (state job)
  raise_if (not (s == 9)) "front job no longer completed; start again with fresh paper"

-- From `publish(f"printing-{name}")` to the job ID, before any document transmission.
pub begin_pass : String → Pass → Work Error ℕ
unfolding check_instance
begin_pass instance_name pass = do
  ask (publish (printing pass))
  check_instance instance_name
  ask create

-- From the second check to the end of one round of the `for` loop.
pub send_document : ℕ → String → ℕ → String → ℕ → Work Error (Option ℕ)
unfolding check_instance wait_for_job
send_document fuel instance_name timeout raster job = do
  check_instance instance_name
  start ← ask clock
  ask (send job raster timeout)
  done ← wait_for_job fuel instance_name job (start + timeout)
  ret (if done then some job else none)

-- One round of the `for` loop, less the wait before the backs. The result is the job of the pass.
pub print_pass : ℕ → String → ℕ → Pass → String → Option ℕ → Work Failure (Option ℕ)
unfolding begin_pass send_document
print_pass fuel instance_name timeout pass raster active = do
  job ← within active (begin_pass instance_name pass)
  within (some job) (send_document fuel instance_name timeout raster job)

-- The end of the outer `try`.
pub finish : Option ℕ → Work Failure (Option (Unit {0}))
finish none = ret none
finish (some job) = within (some job) (ask (publish completed) >> ret (some tt))

-- The second round of the `for` loop.
pub after_fronts : ℕ → String → ℕ → String → Option ℕ → Work Failure (Option (Unit {0}))
unfolding print_pass reinsertion finish
after_fronts fuel instance_name timeout back none = ret none
after_fronts fuel instance_name timeout back (some job) = do
  within (some job) (reinsertion instance_name timeout job)
  second ← print_pass fuel instance_name timeout backs back (some job)
  finish second

-- The body of the outer `try`.
pub both_passes : ℕ → String → ℕ → String → String → Work Failure (Option (Unit {0}))
unfolding print_pass after_fronts
both_passes fuel instance_name timeout front back = do
  first ← print_pass fuel instance_name timeout fronts front none
  after_fronts fuel instance_name timeout back first

-- The inner `try`: whatever else its body raises replaces the first exception.
abbrev pub is_reported : Error → Bool
is_reported (os_error m) = true
is_reported (value_error m) = true
is_reported (runtime_error m) = true
is_reported (subprocess_error m) = true
is_reported (other m) = false

pub cancel_active : String → ℕ → Work Error (Unit {0})
cancel_active instance_name job = do
  current ← ask instance_id
  elim (str_eq current instance_name) [
    | true ↦ ask (cancel job)
    | false ↦ ask (publish (prior_service_stopped job))
  ]

pub report : ℕ → Error → Work Error (Unit {0})
report job e = elim (is_reported e) [
  | true ↦ ask (publish (cancellation_unconfirmed job))
  | false ↦ raise e
]

pub give_up : String → Failure → Work Error (Option (Unit {0}))
unfolding cancel_active report
give_up instance_name (none, e) = ask (publish incomplete) >> raise e
give_up instance_name (some job, e) = do
  try_catch (cancel_active instance_name job) (report job)
  ask (publish incomplete)
  raise e

abbrev valid_timeout : Duration → Option ℕ
valid_timeout (ticks zero) = none
valid_timeout (ticks (suc n)) = some (suc n)
valid_timeout negative = none
valid_timeout not_finite = none

unfoldable pub run_workflow : ℕ → String → String → Duration → Work Error (Option (Unit {0}))
unfolding both_passes give_up
run_workflow fuel front back duration = elim (valid_timeout duration) [
  | none ↦ raise (value_error "timeout must be finite and positive")
  | some timeout ↦ do
    instance_name ← ask instance_id
    try_catch (both_passes fuel instance_name timeout front back) (give_up instance_name)
]
