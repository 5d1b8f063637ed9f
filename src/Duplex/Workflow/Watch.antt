-- ===== src/Duplex/Workflow/Watch.antt =====
-- What the workflow does to the printer, in every run: a monitor follows the calls of
-- `run_workflow` (scripts/manual_duplex.py) and says when each may be made.
mod Steps
pub mod Safety
use hp_lj_1020_driver.Base.{
  ℕ, ◌≡◌, String, Bool, true, false, Option, none, some, ◌==◌, str_eq, if◌then◌else◌,
}
use hp_lj_1020_driver.Base.Prog.{Monitor}
use hp_lj_1020_driver.Duplex.Workflow.{
  Pass, fronts, backs, Call, instance_id, create, clock, sleep, send, state, cancel, confirm,
  publish, got, raised, Replies,
}

-- How far the run has got, as its calls show: a job is created, its document is sent, it is seen
-- completed (state 9); then the operator confirms and the front job is seen completed again.
pub data Stage : Type 0 where
  nothing_sent : Stage
  created sent printed : Pass → ℕ → Stage
  confirmed reverified : ℕ → Stage

-- `origin` is the provider instance of the run's first call; `fresh` says that the latest call,
-- not counting the clock, showed the same instance.
pub record Watch : Type 0 where
  pub origin : Option String
  pub fresh : Bool
  pub stage : Stage

abbrev pub Owns : Stage → ℕ → Type 0
Owns nothing_sent job = ⊥
Owns (created p j) job = j ≡ job
Owns (sent p j) job = j ≡ job
Owns (printed p j) job = j ≡ job
Owns (confirmed j) job = j ≡ job
Owns (reverified j) job = j ≡ job

abbrev pub MayCreate : Stage → Type 0
MayCreate nothing_sent = Unit
MayCreate (reverified j) = Unit
MayCreate _ = ⊥

abbrev pub MaySend : String → String → Stage → ℕ → String → Type 0
MaySend front back (created fronts j) job raster = (j ≡ job) × (raster ≡ front)
MaySend front back (created backs j) job raster = (j ≡ job) × (raster ≡ back)
MaySend front back _ job raster = ⊥

abbrev pub Allowed : String → String → Watch → Call → Type 0
Allowed front back w create = (w.fresh ≡ true) × MayCreate w.stage
Allowed front back w (send job raster timeout) =
    (w.fresh ≡ true) × MaySend front back w.stage job raster
Allowed front back w (state job) = (w.fresh ≡ true) × Owns w.stage job
Allowed front back w (cancel job) = (w.fresh ≡ true) × Owns w.stage job
Allowed front back w _ = Unit

abbrev pub see_instance : Option String → String → Stage → Watch
see_instance none s st = record { origin = some s; fresh = true; stage = st }
see_instance (some o) s st = record { origin = some o; fresh = str_eq s o; stage = st }

abbrev pub see_created : Stage → ℕ → Stage
see_created (reverified i) job = created backs job
see_created _ job = created fronts job

abbrev pub see_sent : Stage → Stage
see_sent (created p j) = sent p j
see_sent st = st

abbrev pub see_completed : Stage → Stage
see_completed (sent p j) = printed p j
see_completed (confirmed j) = reverified j
see_completed st = st

abbrev pub see_confirmed : Stage → Stage
see_confirmed (printed fronts j) = confirmed j
see_confirmed st = st

abbrev pub stale : Watch → Stage → Watch
stale w st = record w { fresh = false; stage = st }

abbrev pub Next : Watch → (c : Call) → Replies c → Watch
Next w instance_id (got s) = see_instance w.origin s w.stage
Next w instance_id (raised e) = stale w w.stage
Next w create (got job) = stale w (see_created w.stage job)
Next w create (raised e) = stale w w.stage
Next w clock r = w
Next w (send job raster timeout) r = stale w (see_sent w.stage)
Next w (state job) (got s) = stale w (if s == 9 then see_completed w.stage else w.stage)
Next w (state job) (raised e) = stale w w.stage
Next w (confirm timeout) (got b) = stale w (if b then see_confirmed w.stage else w.stage)
Next w (confirm timeout) (raised e) = stale w w.stage
Next w sleep r = stale w w.stage
Next w (cancel job) r = stale w w.stage
Next w (publish m) r = stale w w.stage

-- Any reply is legal.
abbrev pub watch : String → String → Monitor Watch Call Replies
watch front back = record { allowed = Allowed front back; legal = λ w c r. Unit; next = Next }

abbrev pub start : Watch
start = record { origin = none; fresh = false; stage = nothing_sent }

abbrev pub Active : Stage → Option ℕ → Type 0
Active st none = Unit
Active st (some job) = Owns st job

abbrev pub at : String → Bool → Stage → Watch
at o fresh st = record { origin = some o; fresh = fresh; stage = st }
