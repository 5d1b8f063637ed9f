-- ===== src/Gate/Passed.antt =====
-- What it means that a check of the gate has passed.
use hp_lj_1020_driver.Base.{◌≡◌, refl, String, Bool, true, false, not, ◌&&◌, ◌||◌}
use hp_lj_1020_driver.Base.Prog.{ok}
use hp_lj_1020_driver.Base.Checked.{◌>>◌}
use hp_lj_1020_driver.Gate.Values.{Checked, reject_if}

pub unless_rejected :
    {A : Type 0} (b : Bool) (message : String) (k : Checked A) {a : A}
    → (reject_if b message >> k) ≡ ok a
    → (b ≡ false) × (k ≡ ok a)
unless_rejected true message k h = cc
unless_rejected false message k h = (refl, h)

pub accepted_if :
    (b : Bool) (message : String) {x : Unit {0}} → reject_if b message ≡ ok x → b ≡ false
accepted_if true message h = cc
accepted_if false message h = refl

pub true_unless : (b : Bool) → not b ≡ false → b ≡ true
true_unless true h = refl
true_unless false h = cc

pub both : (a b : Bool) → (a && b) ≡ true → (a ≡ true) × (b ≡ true)
both true b h = (refl, h)
both false b h = cc

pub neither : (a b : Bool) → (a || b) ≡ false → (a ≡ false) × (b ≡ false)
neither true b h = cc
neither false b h = (refl, h)
