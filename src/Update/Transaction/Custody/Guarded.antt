-- ===== src/Update/Transaction/Custody/Guarded.antt =====
-- The journal's operations under the custody monitor: `recover` and `execute`
-- (scripts/personal_update.py).
use hp_lj_1020_driver.Base.{refl, String, true, false, Option, some, List, Bool-cases, inl, inr}
use hp_lj_1020_driver.Base.Prog.{Holds}
use hp_lj_1020_driver.Update.Calls.{FilePath, Journal, got, raised, written, failed}
use hp_lj_1020_driver.Update.Transaction.{mark}
use hp_lj_1020_driver.Update.Transaction.Journal.{
  save_phase, finish, run_path, start_and_check, is_run_id,
}
use hp_lj_1020_driver.Update.Transaction.Custody.{
  Custody, Look, at, custody, OnJournal, Ends, Starts,
}
use hp_lj_1020_driver.Update.Transaction.Custody.Leads.{Done, Leads}
use hp_lj_1020_driver.Update.Transaction.Custody.Retained.{held}

-- A phase that has been saved is the phase of the journal.
pub save_phase-Leads :
    (r : Journal) (s : Custody) → Leads (save_phase r) s (record s { journal = some r })
unfolding save_phase mark
save_phase-Leads r s = (
  tt,
  elim [
    | failed replaced e ↦ λ _. tt
    | written ↦ λ _. (tt, elim [ got _ ↦ λ _. refl | raised e ↦ λ _. tt ])
  ],
)

pub finish-Done :
    (r : Journal) (outcome : String) (s : Custody)
    → OnJournal Ends s.journal
    → Holds custody (finish r outcome) s Done
unfolding finish
finish-Done r outcome s over = (
  (λ h. cc),
  elim [
    | failed replaced e ↦ λ _. tt
    | written ↦ λ _. (
      over,
      elim [
        | raised e ↦ λ _. tt
        | got _ ↦ λ _. (tt, elim [ got _ ↦ λ _. refl | raised e ↦ λ _. tt ])
      ],
    )
  ],
)

pub run_path-Leads : (name : String) (s : Custody) → Leads (run_path name) s s
unfolding run_path
run_path-Leads name s = elim (Bool-cases (is_run_id name)) [
  | inl good ↦ rw good refl
  | inr bad ↦ rw bad tt
]

-- The service is started where the rule lets it be.
pub start_and_check-Leads :
    (j : Option Journal) (looks : List Look) (taken : List FilePath)
    → OnJournal (Starts true) j
    → Leads start_and_check (held j looks taken true) (at false j)
unfolding start_and_check
start_and_check-Leads j looks taken may = (
  (refl, may),
  elim [ raised e ↦ λ _. tt | got _ ↦ λ _. (tt, elim [ got _ ↦ λ _. refl | raised e ↦ λ _. tt ]) ],
)
