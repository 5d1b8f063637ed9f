-- ===== src/Duplex/Workflow/Watch/Safety.antt =====
-- The two passes, the handler and the whole of `run_workflow` under the monitor
-- (scripts/manual_duplex.py).
use hp_lj_1020_driver.Base.{
  ℕ, zero, suc, ◌≡◌, refl, String, Bool, true, false, Option, none, some, str_eq, Bool-cases, inl,
  inr,
}
use hp_lj_1020_driver.Base.Prog.{
  Outcome, ok, err, Holds, Holds->>=, Holds-mono, Holds-try_catch, Then, Catch, raise, try_catch,
  ◌>>=◌, ◌>>◌,
}
use hp_lj_1020_driver.Duplex.Workflow.{
  Error, Duration, ticks, negative, not_finite, Pass, fronts, backs, got, raised, Failure,
  reinsertion, print_pass, both_passes, give_up, run_workflow, is_reported, within, begin_pass,
  send_document, finish, after_fronts, cancel_active, report, ask, publish, incomplete,
}
use hp_lj_1020_driver.Duplex.Workflow.Rules
use hp_lj_1020_driver.Duplex.Workflow.Watch.{
  Watch, Stage, nothing_sent, created, sent, printed, reverified, Owns, Active, at, watch, start,
  MayCreate, MaySend, see_created,
}
use hp_lj_1020_driver.Duplex.Workflow.Watch.Steps.{
  M, reinsertion-Holds, begin_pass-Holds, send_document-Holds,
}

module _ (front back o : String) where
  print_pass-Holds :
      (fuel timeout : ℕ) (p : Pass) (raster : String) (active : Option ℕ) (b : Bool) (st : Stage)
      (Q : Watch → Outcome Failure (Option ℕ) → Type 0)
      → MayCreate st
      → ((j : ℕ) → see_created st j ≡ created p j)
      → ((j : ℕ) → MaySend front back (created p j) j raster)
      → Active st active
      → ((j : ℕ) → Q (at o false (printed p j)) (ok (some j)))
      → ((b : Bool) (j : ℕ) → Q (at o b (sent p j)) (ok none))
      → ((b : Bool) (st : Stage) (a : Option ℕ) (e : Error)
          → Active st a
          → Q (at o b st) (err (a, e)))
      → Holds (M front back o) (print_pass fuel o timeout p raster active) (at o b st) Q
  unfolding print_pass
  print_pass-Holds fuel timeout p raster active b st Q may made may_send owned done spent bad =
      Holds->>= (M front back o) (within active (begin_pass o p))
        (λ j. within (some j) (send_document fuel o timeout raster j)) (at o b st) Q
        (Rules.within-Holds (M front back o) active (begin_pass o p) (at o b st) _ (
          begin_pass-Holds front back o p b st _ may
            (λ j. rw (made j) (
              Rules.within-Holds (M front back o) (some j) (send_document fuel o timeout raster j)
                (at o false (created p j)) Q
                (send_document-Holds front back o fuel timeout p raster j false _ (may_send j)
                  (done j) (λ b. spent b j) (λ b st e own. bad b st (some j) e own))))
            (λ b e. bad b st active e owned)))

  -- How the body of the outer `try` may end.
  abbrev End : Watch → Outcome Failure (Option (Unit {0})) → Type 0
  End w (ok none) = Unit
  End w (ok (some _)) = (j : ℕ) × (w.stage ≡ printed backs j)
  End w (err (a, e)) = (w.origin ≡ some o) × Active w.stage a

  finish-Holds :
      (b : Bool) (j : ℕ) → Holds (M front back o) (finish (some j)) (at o b (printed backs j)) End
  unfolding finish
  finish-Holds b j = (tt, elim [ got _ ↦ λ _. (j, refl) | raised e ↦ λ _. (refl, refl) ])

  after_fronts-Holds :
      (fuel timeout j : ℕ) (b : Bool)
      → Holds
          (M front back o)
          (after_fronts fuel o timeout back (some j))
          (at o b (printed fronts j))
          End
  unfolding after_fronts
  after_fronts-Holds fuel timeout j b =
      Holds->>= (M front back o) (within (some j) (reinsertion o timeout j))
        (λ _. print_pass fuel o timeout backs back (some j) >>= finish) (at o b (printed fronts j))
        End
        (Rules.within-Holds (M front back o) (some j) (reinsertion o timeout j)
          (at o b (printed fronts j)) _
          (reinsertion-Holds front back o b timeout j _
            (Holds->>= (M front back o) (print_pass fuel o timeout backs back (some j)) finish
              (at o false (reverified j)) End
              (print_pass-Holds fuel timeout backs back (some j) false (reverified j) _ tt
                (λ i. refl) (λ i. (refl, refl)) refl (λ i. finish-Holds false i) (λ b i. tt)
                (λ b st a e own. (refl, own))))
            (λ b st e own. (refl, own))))

  both_passes-Holds :
      (fuel timeout : ℕ)
      → Holds (M front back o) (both_passes fuel o timeout front back) (at o true nothing_sent) End
  unfolding both_passes after_fronts
  both_passes-Holds fuel timeout =
      Holds->>= (M front back o) (print_pass fuel o timeout fronts front none)
        (after_fronts fuel o timeout back) (at o true nothing_sent) End
        (print_pass-Holds fuel timeout fronts front none true nothing_sent _ tt (λ j. refl)
          (λ j. (refl, refl)) tt (λ j. after_fronts-Holds fuel timeout j false) (λ b j. tt)
          (λ b st a e own. (refl, own)))

  cancel_active-Holds :
      (w : Watch) (j : ℕ) (Q : Watch → Outcome Error (Unit {0}) → Type 0)
      → w.origin ≡ some o
      → Owns w.stage j
      → ((w : Watch) (r : Outcome Error (Unit {0})) → Q w r)
      → Holds (M front back o) (cancel_active o j) w Q
  unfolding cancel_active
  cancel_active-Holds w j Q e own any = (
    tt,
    elim [
      | raised x ↦ λ _. any _ _
      | got s ↦ λ _. rw e (elim (Bool-cases (str_eq s o)) [
        | inl same ↦ rw same ((refl, own), elim [ got _ ↦ λ _. any _ _ | raised x ↦ λ _. any _ _ ])
        | inr differs ↦ rw differs (tt, elim [ got _ ↦ λ _. any _ _ | raised x ↦ λ _. any _ _ ])
      ])
    ],
  )

  closing-Holds :
      (j : ℕ) (e : Error) (Q : Watch → Outcome Error (Option (Unit {0})) → Type 0)
      → ((w : Watch) (e : Error) → Q w (err e))
      → (w : Watch) (r : Outcome Error (Unit {0}))
      → Catch
          (M front back o)
          (report j)
          (Then (M front back o) (λ _. ask (publish incomplete) >> raise e) Q)
          w
          r
  unfolding report
  closing-Holds j e Q any w (ok _) = (tt, elim [ got _ ↦ λ _. any _ _ | raised x ↦ λ _. any _ _ ])
  closing-Holds j e Q any w (err x) = elim (Bool-cases (is_reported x)) [
    | inl reported ↦
        rw (report, reported)
          (
            tt,
            elim [
              | got _ ↦ λ _. (tt, elim [ got _ ↦ λ _. any _ _ | raised y ↦ λ _. any _ _ ])
              | raised y ↦ λ _. any _ _
            ],
          )
    | inr unreported ↦ rw (report, unreported) (any _ _)
  ]

  give_up-Holds :
      (w : Watch) (f : Failure) (Q : Watch → Outcome Error (Option (Unit {0})) → Type 0)
      → w.origin ≡ some o
      → Active w.stage f.0
      → ((w : Watch) (e : Error) → Q w (err e))
      → Holds (M front back o) (give_up o f) w Q
  unfolding give_up
  give_up-Holds w (none, e) Q same own any =
      (tt, elim [ got _ ↦ λ _. any _ _ | raised x ↦ λ _. any _ _ ])
  give_up-Holds w (some j, e) Q same own any =
      Holds->>= (M front back o) (try_catch (cancel_active o j) (report j))
        (λ _. ask (publish incomplete) >> raise e) w Q
        (Holds-try_catch (M front back o) (cancel_active o j) (report j) w _
          (cancel_active-Holds w j _ same own (closing-Holds j e Q any)))

-- How a run may end: without an exception, both passes have been seen completed.
abbrev pub Ends : Watch → Outcome Error (Option (Unit {0})) → Type 0
Ends w (ok none) = Unit
Ends w (ok (some _)) = (j : ℕ) × (w.stage ≡ printed backs j)
Ends w (err e) = Unit

caught :
    (front back o : String) (w : Watch) (r : Outcome Failure (Option (Unit {0})))
    → End front back o w r
    → Catch (watch front back) (give_up o) Ends w r
caught front back o w (ok none) h = tt
caught front back o w (ok (some _)) h = h
caught front back o w (err f) (same, own) = give_up-Holds front back o w f Ends same own (λ w e. tt)

-- In every run, whatever the calls reply: a job is created, sent to, looked at or canceled only
-- right after the provider has shown the instance of the run's first call; the fronts are sent to
-- the first job, once; the backs are sent to the second job, once, and only after the front job
-- was seen completed, the operator confirmed, and the front job was seen completed again; only the
-- job of the current pass is canceled; and without an exception both jobs were seen completed.
pub run_workflow_safe :
    (fuel : ℕ) (front back : String) (duration : Duration)
    → Holds (watch front back) (run_workflow fuel front back duration) start Ends
unfolding run_workflow
run_workflow_safe fuel front back negative = tt
run_workflow_safe fuel front back not_finite = tt
run_workflow_safe fuel front back (ticks zero) = tt
run_workflow_safe fuel front back (ticks (suc n)) = (
  tt,
  elim [
    | raised e ↦ λ _. tt
    | got o ↦ λ _.
        Holds-try_catch (watch front back) (both_passes fuel o (suc n) front back) (give_up o)
          (at o true nothing_sent) Ends
          (Holds-mono (watch front back) (both_passes fuel o (suc n) front back)
            (at o true nothing_sent) (caught front back o)
            (both_passes-Holds front back o fuel (suc n)))
  ],
)
