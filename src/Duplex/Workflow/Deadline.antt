-- ===== src/Duplex/Workflow/Deadline.antt =====
-- The waits of `run_workflow` (scripts/manual_duplex.py) against a clock: a monitor that keeps the
-- latest time, under which the polling loop is followed to its end.
use hp_lj_1020_driver.Base.{
  ℕ, zero, suc, ◌+◌, ◌≤◌, ◌<◌, ◌≢◌, refl, String, Bool, true, false, not, Option, none, some, leb,
  ◌==◌, arith, str_eq, Bool-cases, inl, inr, if◌then◌else◌,
}
use hp_lj_1020_driver.Base.Prog.{
  Prog, Outcome, ok, err, Monitor, Holds, Holds->>=, Holds-mono, Holds-try_catch, Then, Catch,
  raise, ret, try_catch, call, ◌>>=◌, ◌>>◌,
}
use hp_lj_1020_driver.Duplex.Workflow.Rules
use hp_lj_1020_driver.Duplex.Workflow.{
  Error, Failure, ticks, Pass, fronts, backs, tag, ask, publish, incomplete, cancel_active, report,
  Call, clock, sleep, got, raised, Replies, Work, is_pending, within, check_instance, wait_for_job,
  send_document, begin_pass, reinsertion, print_pass, after_fronts, both_passes, give_up,
  run_workflow, finish,
}

-- The monitor's state is a time that has been reached.
abbrev pub Timely : ℕ → (c : Call) → Replies c → Type 0
Timely now clock (got t) = now ≤ t
Timely now _ _ = Unit

abbrev pub time_after : ℕ → (c : Call) → Replies c → ℕ
time_after now clock (got t) = t
time_after now sleep (got _) = suc now
time_after now _ _ = now

abbrev pub timer : Monitor ℕ Call Replies
timer = record { allowed = λ now c. Unit; legal = Timely; next = time_after }

any-Holds :
    {E A : Type 0} (m : Prog Call Replies E A) (now : ℕ) (Q : ℕ → Outcome E A → Type 0)
    → ((now : ℕ) (r : Outcome E A) → Q now r)
    → Holds timer m now Q
any-Holds (ret a) now Q h = h now (ok a)
any-Holds (raise e) now Q h = h now (err e)
any-Holds (call c k) now Q h = (tt, λ r _. any-Holds (k r) (time_after now c r) Q h)

-- The result is not the one that stands for spent fuel.
abbrev pub Returns : {E A : Type 0} → ℕ → Outcome E (Option A) → Type 0
Returns now r = r ≢ ok none

module _ {E A B : Type 0} where
  after-any :
      (m : Prog Call Replies E A) (f : A → Prog Call Replies E (Option B)) (now : ℕ)
      → ((now : ℕ) (a : A) → Holds timer (f a) now Returns)
      → Holds timer (m >>= f) now Returns
  after-any m f now h = Holds->>= timer m f now Returns (any-Holds m now _ go)
    where
      go : (now : ℕ) (r : Outcome E A) → Then timer f Returns now r
      go now (ok a) = h now a
      go now (err e) = λ e. cc

  after-Returns :
      (m : Prog Call Replies E (Option A)) (f : Option A → Prog Call Replies E (Option B)) (now : ℕ)
      → Holds timer m now Returns
      → ((now : ℕ) (a : A) → Holds timer (f (some a)) now Returns)
      → Holds timer (m >>= f) now Returns
  after-Returns m f now first h = Holds->>= timer m f now Returns (Holds-mono timer m now go first)
    where
      go : (now : ℕ) (r : Outcome E (Option A)) → Returns now r → Then timer f Returns now r
      go now (ok none) spent = absurd (spent refl)
      go now (ok (some a)) _ = h now a
      go now (err e) _ = λ e. cc

within-Returns :
    {A : Type 0} (active : Option ℕ) (m : Work Error (Option A)) (now : ℕ)
    → Holds timer m now Returns
    → Holds timer (within active m) now Returns
within-Returns {A} active m now h =
    Rules.within-Holds timer active m now Returns (Holds-mono timer m now go h)
  where
    go :
        (now : ℕ) (r : Outcome Error (Option A))
        → Returns now r
        → Catch timer (tag {A = Option A} active) Returns now r
    go now (ok none) spent = absurd (spent refl)
    go now (ok (some a)) _ = λ e. cc
    go now (err e) _ = λ e. cc

module _ (o : String) where
  wait_for_job-Holds :
      (fuel job deadline now : ℕ)
      → now ≤ deadline
      → deadline < now + fuel
      → Holds timer (wait_for_job fuel o job deadline) now (λ _ r. r ≢ ok false)
  unfolding wait_for_job check_instance
  wait_for_job-Holds zero job deadline now reached enough = absurd (omega arith)
  wait_for_job-Holds (suc fuel) job deadline now reached enough = (
    tt,
    elim [
      | raised e ↦ λ _ h. cc
      | got current ↦ λ _.
          Rules.raise_if-Holds timer (not (str_eq current o)) _ _ now _
            (λ _. (
              tt,
              elim [
                | raised e ↦ λ _ h. cc
                | got s ↦ λ _. elim (Bool-cases (s == 9)) [
                  | inl nine ↦ rw nine (λ h. cc)
                  | inr other ↦ rw other (
                      Rules.raise_if-Holds timer (not (is_pending s)) _ _ now _
                        (λ _. (
                          tt,
                          elim [
                            | raised e ↦ λ _ h. cc
                            | got t ↦ λ later.
                                Rules.raise_if-Holds timer (leb deadline t) _ _ t _
                                  (λ early. (
                                    tt,
                                    elim [
                                      | raised e ↦ λ _ h. cc
                                      | got _ ↦ λ _.
                                          wait_for_job-Holds fuel job deadline (suc t)
                                            (ground arith) (omega arith)
                                    ],
                                  ))
                                  (λ e h. cc)
                          ],
                        ))
                        (λ e h. cc))
                ]
              ],
            ))
            (λ e h. cc)
    ],
  )

  send_document-Holds :
      (fuel timeout now job : ℕ) (raster : String)
      → timeout < fuel
      → Holds timer (send_document fuel o timeout raster job) now Returns
  unfolding send_document check_instance
  send_document-Holds fuel timeout now job raster enough = (
    tt,
    elim [
      | raised e ↦ λ _ h. cc
      | got current ↦ λ _.
          Rules.raise_if-Holds timer (not (str_eq current o)) _ _ now _
            (λ _. (
              tt,
              elim [
                | raised e ↦ λ _ h. cc
                | got t ↦ λ _. (
                  tt,
                  elim [
                    | raised e ↦ λ _ h. cc
                    | got _ ↦ λ _.
                        Holds->>= timer (wait_for_job fuel o job (t + timeout))
                          (λ d. ret (if d then some job else none)) t _
                          (Holds-mono timer (wait_for_job fuel o job (t + timeout)) t completed (
                            wait_for_job-Holds fuel job (t + timeout) t (omega arith)
                              (omega arith)))
                  ],
                )
              ],
            ))
            (λ e h. cc)
    ],
  )
    where
      completed :
          (s : ℕ) (r : Outcome Error Bool)
          → r ≢ ok false
          → Then timer (λ d. ret (if d then some job else none)) Returns s r
      completed s (ok true) h = λ e. cc
      completed s (ok false) h = absurd (h refl)
      completed s (err e) h = λ e. cc

  print_pass-Holds :
      (fuel timeout now : ℕ) (p : Pass) (raster : String) (active : Option ℕ)
      → timeout < fuel
      → Holds timer (print_pass fuel o timeout p raster active) now Returns
  unfolding print_pass
  print_pass-Holds fuel timeout now p raster active enough =
      after-any (within active (begin_pass o p))
        (λ j. within (some j) (send_document fuel o timeout raster j)) now
        (λ now j.
          within-Returns (some j) (send_document fuel o timeout raster j) now
            (send_document-Holds fuel timeout now j raster enough))

  finish-Holds : (now job : ℕ) → Holds timer (finish (some job)) now Returns
  unfolding finish
  finish-Holds now job = (tt, elim [ got _ ↦ λ _ h. cc | raised e ↦ λ _ h. cc ])

  after_fronts-Holds :
      (fuel timeout now job : ℕ) (back : String)
      → timeout < fuel
      → Holds timer (after_fronts fuel o timeout back (some job)) now Returns
  unfolding after_fronts
  after_fronts-Holds fuel timeout now job back enough =
      after-any (within (some job) (reinsertion o timeout job))
        (λ _. print_pass fuel o timeout backs back (some job) >>= finish) now
        (λ now _.
          after-Returns (print_pass fuel o timeout backs back (some job)) finish now
            (print_pass-Holds fuel timeout now backs back (some job) enough) finish-Holds)

  both_passes-Holds :
      (fuel timeout now : ℕ) (front back : String)
      → timeout < fuel
      → Holds timer (both_passes fuel o timeout front back) now Returns
  unfolding both_passes after_fronts
  both_passes-Holds fuel timeout now front back enough =
      after-Returns (print_pass fuel o timeout fronts front none) (after_fronts fuel o timeout back)
        now (print_pass-Holds fuel timeout now fronts front none enough)
        (λ now job. after_fronts-Holds fuel timeout now job back enough)

give_up-Holds : (o : String) (f : Failure) (now : ℕ) → Holds timer (give_up o f) now Returns
unfolding give_up
give_up-Holds o (none, e) now = (tt, elim [ got _ ↦ λ _ h. cc | raised x ↦ λ _ h. cc ])
give_up-Holds o (some job, e) now =
    after-any (try_catch (cancel_active o job) (report job))
      (λ _. ask (publish incomplete) >> raise e) now
      (λ now _. (tt, elim [ got _ ↦ λ _ h. cc | raised x ↦ λ _ h. cc ]))

-- With a clock that never runs backwards and moves on by at least one with each sleep, a run whose
-- fuel is above the timeout never stops for lack of fuel: it completes or raises.
pub run_workflow-Returns :
    (fuel timeout now : ℕ) (front back : String)
    → timeout < fuel
    → Holds timer (run_workflow fuel front back (ticks timeout)) now Returns
unfolding run_workflow
run_workflow-Returns fuel zero now front back enough = λ h. cc
run_workflow-Returns fuel (suc timeout) now front back enough = (
  tt,
  elim [
    | raised e ↦ λ _ h. cc
    | got o ↦ λ _.
        Holds-try_catch timer (both_passes fuel o (suc timeout) front back) (give_up o) now Returns
          (Holds-mono timer (both_passes fuel o (suc timeout) front back) now (caught o)
            (both_passes-Holds o fuel (suc timeout) now front back enough))
  ],
)
  where
    caught :
        (o : String) (now : ℕ) (r : Outcome Failure (Option (Unit {0})))
        → Returns now r
        → Catch timer (give_up o) Returns now r
    caught o now (ok none) h = absurd (h refl)
    caught o now (ok (some _)) h = λ e. cc
    caught o now (err f) h = give_up-Holds o f now
