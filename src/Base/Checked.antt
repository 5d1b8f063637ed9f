-- ===== src/Base/Checked.antt =====
-- Functions that return or raise, in sequence.
use mathlib.Core.Path.{◌≡◌, refl}
use hp_lj_1020_driver.Base.Prog.{Outcome, ok, err}

module _ {ℓ} {E : Type ℓ} where
  infixl 5 ◌>>=◌ ◌>>◌
  abbrev pub ◌>>=◌ : {A B : Type ℓ} → Outcome E A → (A → Outcome E B) → Outcome E B
  ok a >>= f = f a
  err e >>= f = err e

  abbrev pub ◌>>◌ : {A B : Type ℓ} → Outcome E A → Outcome E B → Outcome E B
  m >> n = m >>= λ _. n

  -- A sequence that returns: its first part did, and so did the rest on the result.
  pub split_ok :
      {A B : Type ℓ} (m : Outcome E A) (f : A → Outcome E B) {b : B}
      → (m >>= f) ≡ ok b
      → (a : A) × (m ≡ ok a) × (f a ≡ ok b)
  split_ok (ok a) f h = (a, refl, h)
  split_ok (err e) f h = cc
