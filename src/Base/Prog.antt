-- ===== src/Base/Prog.antt =====
-- Programs with effects, and what holds of every run of one. A program is a tree: it returns,
-- raises, or makes a call to its environment (a command, a file operation, the printer's service)
-- and goes on with the reply. The code fixes the tree; the environment chooses the replies.
use mathlib.Core.Path.{◌≡◌, refl}
use mathlib.Core.Bool.{Bool, true, false}

pub data Outcome {ℓ} (E A : Type ℓ) : Type ℓ where
  ok : A → Outcome E A
  err : E → Outcome E A

abbrev pub is_ok {ℓ} : {E A : Type ℓ} → Outcome E A → Bool
is_ok (ok a) = true
is_ok (err e) = false

pub is_ok_iff {ℓ} : {E A : Type ℓ} (o : Outcome E A) → is_ok o ≡ true → (a : A) × (o ≡ ok a)
is_ok_iff (ok a) h = (a, refl)
is_ok_iff (err e) h = cc

pub data Prog {ℓ} (C : Type ℓ) (R : C → Type ℓ) (E A : Type ℓ) : Type ℓ where
  ret : A → Prog C R E A
  raise : E → Prog C R E A
  call : (c : C) → (R c → Prog C R E A) → Prog C R E A

module _ {ℓ} {C : Type ℓ} {R : C → Type ℓ} {E : Type ℓ} where
  infixl 5 ◌>>=◌ ◌>>◌
  abbrev pub ◌>>=◌ : {A B : Type ℓ} → Prog C R E A → (A → Prog C R E B) → Prog C R E B
  ret a >>= f = f a
  raise e >>= f = raise e
  call c k >>= f = call c (λ r. k r >>= f)

  abbrev pub ◌>>◌ : {A B : Type ℓ} → Prog C R E A → Prog C R E B → Prog C R E B
  m >> n = m >>= λ _. n

  -- `try: m except E as e: handler(e)`; the handler may raise errors of another type.
  abbrev pub try_catch : {F A : Type ℓ} → Prog C R E A → (E → Prog C R F A) → Prog C R F A
  try_catch (ret a) h = ret a
  try_catch (raise e) h = h e
  try_catch (call c k) h = call c (λ r. try_catch (k r) h)

  -- The program against an environment that keeps a state of its own.
  abbrev pub run : {A W : Type ℓ} → (W → (c : C) → R c × W) → Prog C R E A → W → Outcome E A × W
  run answer (ret a) w = (ok a, w)
  run answer (raise e) w = (err e, w)
  run answer (call c k) w = run answer (k (answer w c).0) (answer w c).1

-- A monitor watches the calls: in state `s` the call `c` has to be `allowed`, the replies that the
-- environment may give are `legal`, and a reply takes the monitor to its `next` state.
pub record Monitor {ℓ} (S C : Type ℓ) (R : C → Type ℓ) : Type (ℓ + 1) where
  pub allowed : S → C → Type ℓ
  pub legal : S → (c : C) → R c → Type ℓ
  pub next : S → (c : C) → R c → S

module _ {ℓ} {S C : Type ℓ} {R : C → Type ℓ} (M : Monitor S C R) where
  -- From monitor state `s`, every call that the program makes is allowed, whatever the replies
  -- before it, and at the end `Q` holds of the monitor's state and of how the program ended.
  -- The calls made so far by a program that is cut off are allowed too.
  abbrev pub Holds : {E A : Type ℓ} → Prog C R E A → S → (S → Outcome E A → Type ℓ) → Type ℓ
  Holds (ret a) s Q = Q s (ok a)
  Holds (raise e) s Q = Q s (err e)
  Holds (call c k) s Q = M.allowed s c × ((r : R c) → M.legal s c r → Holds (k r) (M.next s c r) Q)

  -- What must hold between a program and the one that follows it.
  abbrev pub Then :
      {E A B : Type ℓ} → (A → Prog C R E B) → (S → Outcome E B → Type ℓ) → S → Outcome E A → Type ℓ
  Then f Q s (ok a) = Holds (f a) s Q
  Then f Q s (err e) = Q s (err e)

  abbrev pub Catch :
      {E F A : Type ℓ} → (E → Prog C R F A) → (S → Outcome F A → Type ℓ) → S → Outcome E A → Type ℓ
  Catch h Q s (ok a) = Q s (ok a)
  Catch h Q s (err e) = Holds (h e) s Q

  pub Holds-mono :
      {E A : Type ℓ} (m : Prog C R E A) (s : S) {P Q : S → Outcome E A → Type ℓ}
      → ((s : S) (o : Outcome E A) → P s o → Q s o)
      → Holds m s P
      → Holds m s Q
  Holds-mono (ret a) s i h = i s (ok a) h
  Holds-mono (raise e) s i h = i s (err e) h
  Holds-mono (call c k) s i (a, h) = (a, λ r l. Holds-mono (k r) (M.next s c r) i (h r l))

  pub Holds->>= :
      {E A B : Type ℓ} (m : Prog C R E A) (f : A → Prog C R E B) (s : S)
      (Q : S → Outcome E B → Type ℓ)
      → Holds m s (Then f Q)
      → Holds (m >>= f) s Q
  Holds->>= (ret a) f s Q h = h
  Holds->>= (raise e) f s Q h = h
  Holds->>= (call c k) f s Q (a, h) = (a, λ r l. Holds->>= (k r) f (M.next s c r) Q (h r l))

  pub Holds-try_catch :
      {E F A : Type ℓ} (m : Prog C R E A) (t : E → Prog C R F A) (s : S)
      (Q : S → Outcome F A → Type ℓ)
      → Holds m s (Catch t Q)
      → Holds (try_catch m t) s Q
  Holds-try_catch (ret a) t s Q h = h
  Holds-try_catch (raise e) t s Q h = h
  Holds-try_catch (call c k) t s Q (a, h) =
      (a, λ r l. Holds-try_catch (k r) t (M.next s c r) Q (h r l))

  -- One program after another: what the first establishes is what the second needs.
  pub Holds-then :
      {E A B : Type ℓ} (m : Prog C R E A) (f : A → Prog C R E B) (s : S)
      (P : S → Outcome E A → Type ℓ) (Q : S → Outcome E B → Type ℓ)
      → Holds m s P
      → ((s : S) (a : A) → P s (ok a) → Holds (f a) s Q)
      → ((s : S) (e : E) → P s (err e) → Q s (err e))
      → Holds (m >>= f) s Q
  Holds-then (ret a) f s P Q h next stop = next s a h
  Holds-then (raise e) f s P Q h next stop = stop s e h
  Holds-then (call c k) f s P Q (a, h) next stop =
      (a, λ r l. Holds-then (k r) f (M.next s c r) P Q (h r l) next stop)
