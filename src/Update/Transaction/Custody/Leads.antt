-- ===== src/Update/Transaction/Custody/Leads.antt =====
-- How the parts of a transaction follow each other under the custody monitor
-- (scripts/personal_update.py).
use hp_lj_1020_driver.Base.{◌≡◌, none}
use hp_lj_1020_driver.Base.Prog.{
  Outcome, ok, err, Holds, Holds-mono, Holds-then, Holds-try_catch, Catch, ◌>>=◌,
}
use hp_lj_1020_driver.Update.Calls.{Error, Journal, Work, tag_with, during}
use hp_lj_1020_driver.Update.Transaction.Custody.{Custody, custody}
use hp_lj_1020_driver.Update.Transaction.Custody.Quiet.{Quiet, calm}

-- If the program returns, `P` holds of the monitor's state and the result.
abbrev pub Ending : {E A : Type 0} → (Custody → A → Type 0) → Custody → Outcome E A → Type 0
Ending P s (ok a) = P s a
Ending P s (err e) = Unit

-- A program that returns leaves no journal behind.
abbrev pub Done : {E A : Type 0} → Custody → Outcome E A → Type 0
Done s o = Ending (λ s' a. s'.journal ≡ none) s o

-- From `s` every call is allowed; if the program returns, the monitor is in `t`.
abbrev pub Leads : {E A : Type 0} → Work E A → Custody → Custody → Type 0
Leads m s t = Holds custody m s (Ending (λ s' a. s' ≡ t))

pub Ending-then :
    {E A B : Type 0} (m : Work E A) (f : A → Work E B) (s : Custody) (P : Custody → A → Type 0)
    (Q : Custody → B → Type 0)
    → Holds custody m s (Ending P)
    → ((s' : Custody) (a : A) → P s' a → Holds custody (f a) s' (Ending Q))
    → Holds custody (m >>= f) s (Ending Q)
Ending-then m f s P Q h k = Holds-then custody m f s (Ending P) (Ending Q) h k (λ s' e _. tt)

pub Leads-Ending :
    {E A B : Type 0} (m : Work E A) (f : A → Work E B) (s t : Custody) (Q : Custody → B → Type 0)
    → Leads m s t
    → ((a : A) → Holds custody (f a) t (Ending Q))
    → Holds custody (m >>= f) s (Ending Q)
Leads-Ending m f s t Q h k = Ending-then m f s (λ s' a. s' ≡ t) Q h (λ s' a e. rw e (k a))

pub Leads-then :
    {E A B : Type 0} (m : Work E A) (f : A → Work E B) (s t : Custody)
    → Leads m s t
    → ((a : A) → Holds custody (f a) t Done)
    → Holds custody (m >>= f) s Done
Leads-then m f s t h k = Leads-Ending m f s t (λ s' a. s'.journal ≡ none) h k

pub Leads-bind :
    {E A B : Type 0} (m : Work E A) (f : A → Work E B) (s t u : Custody)
    → Leads m s t
    → ((a : A) → Leads (f a) t u)
    → Leads (m >>= f) s u
Leads-bind m f s t u h k = Leads-Ending m f s t (λ s' a. s' ≡ u) h k

pub Quiet-Leads :
    {A : Type 0} (m : Work Error A) (s : Custody) → Quiet m s → Leads m (calm s) (calm s)
Quiet-Leads {A} m s h = Holds-mono custody m (calm s) go h
  where
    go : (s' : Custody) (o : Outcome Error A) → s' ≡ calm s → Ending (λ s' a. s' ≡ calm s) s' o
    go s' (ok a) e = e
    go s' (err x) e = tt

pub during-Ending :
    {A : Type 0} (r : Journal) (m : Work Error A) (s : Custody) (P : Custody → A → Type 0)
    → Holds custody m s (Ending P)
    → Holds custody (during r m) s (Ending P)
during-Ending {A} r m s P h =
    Holds-try_catch custody m (tag_with r) s (Ending P) (Holds-mono custody m s go h)
  where
    go :
        (s' : Custody) (o : Outcome Error A)
        → Ending P s' o
        → Catch custody (tag_with {A = A} r) (Ending P) s' o
    go s' (ok a) e = e
    go s' (err x) e = tt
