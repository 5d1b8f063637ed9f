-- ===== src/Duplex/Backend.antt =====
-- `Backend` and `confirmation` (scripts/manual_duplex.py), over the runs of the native helper and the
-- terminal. Times are naturals of seconds.
use hp_lj_1020_driver.Base.{
  ℕ, suc, ◌+◌, String, ◌<>◌, Bool, true, false, List, [], ◌∷◌, ◌==◌, str_eq, if◌then◌else◌,
}
use hp_lj_1020_driver.Base.Text.{strip, or_text, decimal, is_digits, to_number}
use hp_lj_1020_driver.Base.Prog.{Prog, ret, raise, call, ◌>>=◌, ◌>>◌}
use Prim.Native.Char.{code}
use hp_lj_1020_driver.Duplex.Workflow.{Error, value_error, runtime_error}

-- How a run of the helper ends: with its output, with a status other than 0 and its errors, or with
-- another exception, such as a timeout.
pub data Ended : Type 0 where
  printed : String → Ended
  failed : ℕ → String → Ended
  broken : Error → Ended

-- `helper` has the arguments after the program and the outer timeout; `ready` is `select`.
pub data Call : Type 0 where
  helper : List String → ℕ → Call
  instruct : Call
  ready : ℕ → Call
  read_line : Call

pub data Reply (A : Type 0) : Type 0 where
  got : A → Reply A
  raised : Error → Reply A

abbrev pub Replies : Call → Type 0
Replies (helper arguments timeout) = Ended
Replies instruct = Reply (Unit {0})
Replies (ready timeout) = Reply Bool
Replies read_line = Reply String

abbrev pub Work : Type 0 → Type 0
Work A = Prog Call Replies Error A

abbrev answer : {A : Type 0} → Reply A → Work A
answer (got a) = ret a
answer (raised e) = raise e

abbrev finish : String → Ended → Work String
finish name (printed output) = ret (strip output)
finish name (failed status errors) = raise (
    runtime_error (
      "duplex helper "
      <> name
      <> " failed: "
      <> or_text (strip errors) ("exit status " <> decimal status)))
finish name (broken e) = raise e

-- `call`; the first argument names the operation.
pub call_helper : String → List String → ℕ → Work String
call_helper name arguments timeout = call (helper (name ∷ arguments) timeout) (finish name)

pub data Integer : Type 0 where
  plus minus : ℕ → Integer

abbrev digits_to : (ℕ → Integer) → String → Work Integer
digits_to sign s =
    if is_digits s
    then ret (sign (to_number s))
    else raise (value_error "invalid literal for int()")

-- `int(s)`, for ASCII digits without underscores
pub to_integer : String → Work Integer
to_integer String.[] = raise (value_error "invalid literal for int()")
to_integer (String.◌∷◌ c s) =
    if code c == b'-'
    then digits_to minus s
    else if code c == b'+'
    then digits_to plus s
    else digits_to plus (String.◌∷◌ c s)

module _ (port : String) where
  pub instance_of : Work String
  instance_of = call_helper "instance" (port ∷ []) 120

  abbrev positive : Integer → Work ℕ
  positive (plus (suc n)) = ret (suc n)
  positive _ = raise (runtime_error "provider did not return a job ID")

  pub create : Work ℕ
  create = call_helper "create" (port ∷ []) 120 >>= λ s. to_integer s >>= positive

  -- The helper has the time of the pass, and the watchdog five seconds more.
  pub send : ℕ → String → ℕ → Work (Unit {0})
  send job raster timeout =
      call_helper "send" (port ∷ decimal job ∷ raster ∷ decimal timeout ∷ []) (timeout + 5)
      >> ret tt

  pub state : ℕ → Work Integer
  state job = call_helper "state" (port ∷ decimal job ∷ []) 120 >>= to_integer

  pub cancel : ℕ → Work (Unit {0})
  cancel job = call_helper "cancel" (port ∷ decimal job ∷ []) 120 >> ret tt

pub confirmation : ℕ → Work Bool
confirmation timeout = do
  call instruct answer
  waiting ← call (ready timeout) answer
  elim waiting [
    | false ↦ ret false
    | true ↦ call read_line answer >>= λ line. ret (str_eq (strip line) "REINSERTED")
  ]
