-- ===== src/Duplex/Workflow/Watch/Steps.antt =====
-- The parts of the workflow under the monitor, from the check of the instance to the wait between
-- the passes (scripts/manual_duplex.py).
use hp_lj_1020_driver.Base.{
  ℕ, zero, suc, ◌+◌, ◌≡◌, refl, String, Bool, true, false, not, Option, none, some, leb, ◌==◌,
  arith, str_eq, Bool-cases, inl, inr, if◌then◌else◌,
}
use hp_lj_1020_driver.Base.Prog.{Outcome, ok, err, Monitor, Holds, Holds->>=, ret, ◌>>◌}
use hp_lj_1020_driver.Duplex.Workflow.{
  Error, Pass, fronts, Call, got, raised, Replies, Work, check_instance, wait_for_job, reinsertion,
  is_pending, begin_pass, send_document,
}
use hp_lj_1020_driver.Duplex.Workflow.Rules
use hp_lj_1020_driver.Duplex.Workflow.Watch.{
  Watch, Stage, sent, printed, confirmed, reverified, Owns, MayCreate, MaySend, created,
  see_created, at, watch,
}

module _ (front back o : String) where
  abbrev pub M : Monitor Watch Call Replies
  M = watch front back

  -- A check that passes leaves the instance freshly seen.
  pub check_instance-Holds :
      {A : Type 0} (b : Bool) (st : Stage) (k : Work Error A) (Q : Watch → Outcome Error A → Type 0)
      → Holds M k (at o true st) Q
      → ((b : Bool) (e : Error) → Q (at o b st) (err e))
      → Holds M (check_instance o >> k) (at o b st) Q
  unfolding check_instance
  check_instance-Holds b st k Q good bad = (
    tt,
    elim [
      | got s ↦ λ _.
          Rules.raise_if-Holds M (not (str_eq s o)) _ k (at o (str_eq s o) st) Q
            (λ e. let same : str_eq s o ≡ true = ground arith in rw same good) (bad (str_eq s o))
      | raised e ↦ λ _. bad false e
    ],
  )

  -- The wait ends with the job seen completed, by running out of fuel, or by an exception, and
  -- sends nothing.
  pub wait_for_job-Holds :
      (fuel : ℕ) (b : Bool) (p : Pass) (job deadline : ℕ) (Q : Watch → Outcome Error Bool → Type 0)
      → Q (at o false (printed p job)) (ok true)
      → ((b : Bool) → Q (at o b (sent p job)) (ok false))
      → ((b : Bool) (e : Error) → Q (at o b (sent p job)) (err e))
      → Holds M (wait_for_job fuel o job deadline) (at o b (sent p job)) Q
  unfolding wait_for_job
  wait_for_job-Holds zero b p job deadline Q done spent bad = spent b
  wait_for_job-Holds (suc fuel) b p job deadline Q done spent bad =
      check_instance-Holds b (sent p job) _ Q
        (
          (refl, refl),
          elim [
            | got s ↦ λ _. elim (Bool-cases (s == 9)) [
              | inl nine ↦ rw nine done
              | inr other ↦ rw other (
                  Rules.raise_if-Holds M (not (is_pending s)) _ _ (at o false (sent p job)) Q
                    (λ _. (
                      tt,
                      elim [
                        | got now ↦ λ _.
                            Rules.raise_if-Holds M (leb deadline now) _ _ (at o false (sent p job))
                              Q
                              (λ _. (
                                tt,
                                elim [
                                  | got _ ↦ λ _.
                                      wait_for_job-Holds fuel false p job deadline Q done spent bad
                                  | raised e ↦ λ _. bad false e
                                ],
                              ))
                              (bad false)
                        | raised e ↦ λ _. bad false e
                      ],
                    ))
                    (bad false))
            ]
            | raised e ↦ λ _. bad false e
          ],
        )
        bad

  -- After the wait between the passes the operator has confirmed, and the front job has been seen
  -- completed once more.
  pub reinsertion-Holds :
      (b : Bool) (timeout job : ℕ) (Q : Watch → Outcome Error (Unit {0}) → Type 0)
      → Q (at o false (reverified job)) (ok tt)
      → ((b : Bool) (st : Stage) (e : Error) → Owns st job → Q (at o b st) (err e))
      → Holds M (reinsertion o timeout job) (at o b (printed fronts job)) Q
  unfolding reinsertion
  reinsertion-Holds b timeout job Q good bad = (
    tt,
    elim [
      | raised e ↦ λ _. bad false (printed fronts job) e refl
      | got _ ↦ λ _. (
        tt,
        elim [
          | raised e ↦ λ _. bad false (printed fronts job) e refl
          | got begin ↦ λ _. (
            tt,
            elim [
              | raised e ↦ λ _. bad false (printed fronts job) e refl
              | got false ↦ λ _. bad false (printed fronts job) _ refl
              | got true ↦ λ _. (
                tt,
                elim [
                  | raised e ↦ λ _. bad false (confirmed job) e refl
                  | got now ↦ λ _.
                      Rules.raise_if-Holds M (leb (begin + timeout) now) _ _
                        (at o false (confirmed job)) Q
                        (λ _.
                          check_instance-Holds false (confirmed job) _ Q
                            (
                              (refl, refl),
                              elim [
                                | raised e ↦ λ _. bad false (confirmed job) e refl
                                | got s ↦ λ _. elim (Bool-cases (s == 9)) [
                                  | inl nine ↦ rw nine good
                                  | inr other ↦ rw other (bad false (confirmed job) _ refl)
                                ]
                              ],
                            )
                            (λ b e. bad b (confirmed job) e refl))
                        (λ e. bad false (confirmed job) e refl)
                ],
              )
            ],
          )
        ],
      )
    ],
  )

  pub begin_pass-Holds :
      (p : Pass) (b : Bool) (st : Stage) (Q : Watch → Outcome Error ℕ → Type 0)
      → MayCreate st
      → ((j : ℕ) → Q (at o false (see_created st j)) (ok j))
      → ((b : Bool) (e : Error) → Q (at o b st) (err e))
      → Holds M (begin_pass o p) (at o b st) Q
  unfolding begin_pass
  begin_pass-Holds p b st Q may good bad = (
    tt,
    elim [
      | raised e ↦ λ _. bad false e
      | got _ ↦ λ _.
          check_instance-Holds false st _ Q
            ((refl, may), elim [ got j ↦ λ _. good j | raised e ↦ λ _. bad false e ]) bad
    ],
  )

  pub send_document-Holds :
      (fuel timeout : ℕ) (p : Pass) (raster : String) (j : ℕ) (b : Bool)
      (Q : Watch → Outcome Error (Option ℕ) → Type 0)
      → MaySend front back (created p j) j raster
      → Q (at o false (printed p j)) (ok (some j))
      → ((b : Bool) → Q (at o b (sent p j)) (ok none))
      → ((b : Bool) (st : Stage) (e : Error) → Owns st j → Q (at o b st) (err e))
      → Holds M (send_document fuel o timeout raster j) (at o b (created p j)) Q
  unfolding send_document
  send_document-Holds fuel timeout p raster j b Q may done spent bad =
      check_instance-Holds b (created p j) _ Q
        (
          tt,
          elim [
            | raised e ↦ λ _. bad true (created p j) e refl
            | got begin ↦ λ _. (
              (refl, may),
              elim [
                | raised e ↦ λ _. bad false (sent p j) e refl
                | got _ ↦ λ _.
                    Holds->>= M (wait_for_job fuel o j (begin + timeout))
                      (λ d. ret (if d then some j else none)) (at o false (sent p j)) Q
                      (wait_for_job-Holds fuel false p j (begin + timeout) _ done spent
                        (λ b e. bad b (sent p j) e refl))
              ],
            )
          ],
        )
        (λ b e. bad b (created p j) e refl)
