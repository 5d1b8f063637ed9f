-- ===== src/Update/Transaction/Custody/Execution.antt =====
-- `execute` under the custody monitor (scripts/personal_update.py): the body of its `try`, the
-- handlers, and the whole.
use hp_lj_1020_driver.Base.{◌≡◌, Bool, true, Option, some, List, [], ◌∷◌}
use hp_lj_1020_driver.Base.Prog.{Outcome, raise}
use hp_lj_1020_driver.Update.Calls.{Error, FilePath, Phase, Journal, Work}
use hp_lj_1020_driver.Update.Transaction.Journal.{in_phase, retained as find_retained}
use hp_lj_1020_driver.Update.Transaction.Custody.{Custody, Look, retained, inventory_of}
use hp_lj_1020_driver.Update.Transaction.Custody.Quiet.{Quiet}
use hp_lj_1020_driver.Update.Transaction.Custody.Leads.{Leads}
use hp_lj_1020_driver.Update.Transaction.Custody.Retained.{held}

-- The own run's snapshot was taken and verified.
abbrev backed : Journal → Phase → Look → Bool → Custody
backed r p look placed =
    held (some (in_phase r p)) (look ∷ []) (inventory_of (retained r) ∷ []) placed

-- After `change` the plist is in place; where the journal is.
abbrev Changed : Custody → Type 0
Changed s =
    (j : Option Journal) × (looks : List Look) × (taken : List FilePath) × (s
      ≡ held j looks taken true)

abbrev Any : {E A : Type 0} → Custody → Outcome E A → Type 0
Any s o = Unit

abbrev raise_unit : Error → Work Error (Unit {0})
raise_unit e = raise e
