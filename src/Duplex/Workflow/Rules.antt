-- ===== src/Duplex/Workflow/Rules.antt =====
-- Rules for the small helpers of the workflow (scripts/manual_duplex.py), under any monitor.
use hp_lj_1020_driver.Base.{◌≡◌, refl, String, Bool, true, false, Option}
use Prim.Native.Nat.{ℕ}
use hp_lj_1020_driver.Base.Prog.{Outcome, err, Monitor, Holds, Holds-try_catch, Catch, ◌>>◌}
use hp_lj_1020_driver.Duplex.Workflow.{Error, Failure, Call, Replies, Work, raise_if, tag, within}

module _ {S : Type 0} (M : Monitor S Call Replies) where
  pub raise_if-Holds :
      {A : Type 0} (b : Bool) (m : String) (k : Work Error A) (w : S)
      (Q : S → Outcome Error A → Type 0)
      → (b ≡ false → Holds M k w Q)
      → ((e : Error) → Q w (err e))
      → Holds M (raise_if b m >> k) w Q
  raise_if-Holds true m k w Q good bad = bad _
  raise_if-Holds false m k w Q good bad = good refl

  pub within-Holds :
      {A : Type 0} (active : Option ℕ) (m : Work Error A) (w : S)
      (Q : S → Outcome Failure A → Type 0)
      → Holds M m w (Catch M (tag active) Q)
      → Holds M (within active m) w Q
  within-Holds active m w Q h = Holds-try_catch M m (tag active) w Q h
