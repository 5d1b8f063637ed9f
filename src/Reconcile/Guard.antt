-- ===== src/Reconcile/Guard.antt =====
-- When `reconcile` may create a queue (scripts/reconcile_macos_queue.py).
use hp_lj_1020_driver.Base.{
  ◌≡◌, refl, String, ◌<>◌, Bool, true, false, ◌||◌, Option, none, some, List, [], ◌∷◌, elem,
  is_empty, texts_eq, Bool-cases, inl, inr, if◌then◌else◌,
}
use hp_lj_1020_driver.Base.Text.{split_lines}
use hp_lj_1020_driver.Base.Prog.{Outcome, ok, err, Monitor, Holds}
use hp_lj_1020_driver.Install.Host.{Completed, succeeded}
use hp_lj_1020_driver.Reconcile.{
  Error, Call, execute, print, got, raised, Replies, list_queues, create_queue, prefix, matches_in,
  examine, verified, create, proceed, examined, reconcile,
}

-- The latest listing of the queues, whether the creation was attempted, whether its command
-- succeeded, and the latest listing after that, with its exit status.
pub record Known : Type 0 where
  pub listing : Option Completed
  pub attempted : Bool
  pub created : Bool
  pub confirmed : Option Completed

-- A listing after the creation is a confirmation.
abbrev pub hear_list : Known → Completed → Known
hear_list s c = record s { listing = some c; confirmed = if s.created then some c else s.confirmed }

abbrev pub hear_creation : Known → Completed → Known
hear_creation s c = record s { attempted = true; created = succeeded c; confirmed = none }

-- No queue of that name was listed, or just the one with the device that is asked for.
abbrev pub IsFree : String → String → Option Completed → Type 0
IsFree queue_name device_uri none = ⊥
IsFree queue_name device_uri (some c) =
    (succeeded c ≡ true)
    × ((is_empty (matches_in queue_name c)
          || texts_eq (matches_in queue_name c) ((prefix queue_name <> device_uri) ∷ []))
        ≡ true)

module _ (queue_name device_uri : String) (apply : Bool) where
  -- The two commands; the second only with `--apply`, once, and on a free name.
  abbrev pub Allowed : Known → Call → Type 0
  Allowed s (print line) = Unit
  Allowed s (execute command) =
      if texts_eq command list_queues
      then Unit
      else ((command ≡ create_queue queue_name device_uri)
          × (apply ≡ true)
          × (s.attempted ≡ false)
          × IsFree queue_name device_uri s.listing)

  abbrev pub Next : Known → (c : Call) → Replies c → Known
  Next s (execute command) (got c) =
      if texts_eq command list_queues then hear_list s c else hear_creation s c
  Next s (execute command) (raised e) =
      if texts_eq command list_queues then s else record s { attempted = true }
  Next s _ _ = s

  abbrev pub guard : Monitor Known Call Replies
  guard = record { allowed = Allowed; legal = λ s c r. Unit; next = Next }

  abbrev pub Shows : Option Completed → Type 0
  Shows none = ⊥
  Shows (some c) =
      (succeeded c ≡ true) × (elem (prefix queue_name <> device_uri) (split_lines c.stdout) ≡ true)

  -- With `--apply` a result means that the creation succeeded, and that the latest listing after it
  -- succeeded and shows the queue with its device.
  abbrev pub Converges : Known → Outcome Error String → Type 0
  Converges s (err e) = Unit
  Converges s (ok outcome) = apply ≡ true → (s.created ≡ true) × Shows s.confirmed

abbrev pub unknown : Known
unknown = record { listing = none; attempted = false; created = false; confirmed = none }

abbrev listed_free : Completed → Known
listed_free c = record { listing = some c; attempted = false; created = false; confirmed = none }

abbrev listed_again : Completed → Known
listed_again c = record { listing = some c; attempted = true; created = true; confirmed = some c }

module _ (queue_name device_uri : String) where
  verified-Converges :
      (apply : Bool) (listed : Completed)
      → succeeded listed ≡ true
      → Holds
          (guard queue_name device_uri apply)
          (verified queue_name device_uri listed)
          (listed_again listed)
          (Converges queue_name device_uri apply)
  unfolding verified
  verified-Converges apply listed fine =
      elim (Bool-cases (elem (prefix queue_name <> device_uri) (split_lines listed.stdout))) [
        | inl shown ↦ rw shown (λ _. (refl, (fine, shown)))
        | inr hidden ↦ rw hidden tt
      ]

  create-Converges :
      (apply : Bool) (c : Completed)
      → apply ≡ true
      → IsFree queue_name device_uri (some c)
      → Holds
          (guard queue_name device_uri apply)
          (create queue_name device_uri)
          (listed_free c)
          (Converges queue_name device_uri apply)
  unfolding create
  create-Converges apply c applied free = (
    (refl, applied, refl, free),
    elim [
      | raised e ↦ λ _. tt
      | got made ↦ λ _. elim (Bool-cases (succeeded made)) [
        | inr bad ↦ rw bad tt
        | inl good ↦ rw good (
          tt,
          elim [
            | raised e ↦ λ _. tt
            | got listed ↦ λ _. elim (Bool-cases (succeeded listed)) [
              | inr bad ↦ rw bad tt
              | inl fine ↦ rw fine (verified-Converges apply listed fine)
            ]
          ],
        )
      ]
    ],
  )

  proceed-Converges :
      (apply : Bool) (c : Completed)
      → IsFree queue_name device_uri (some c)
      → Holds
          (guard queue_name device_uri apply)
          (proceed queue_name device_uri apply none)
          (listed_free c)
          (Converges queue_name device_uri apply)
  unfolding proceed
  proceed-Converges true c free = create-Converges true c refl free
  proceed-Converges false c free = λ h. cc

  examined-Converges :
      (apply : Bool) (c : Completed) (lines : List String)
      → succeeded c ≡ true
      → matches_in queue_name c ≡ lines
      → Holds
          (guard queue_name device_uri apply)
          (examined queue_name device_uri apply lines)
          (listed_free c)
          (Converges queue_name device_uri apply)
  unfolding examined examine proceed
  examined-Converges apply c [] good same = proceed-Converges apply c (good, rw same refl)
  examined-Converges apply c (found ∷ more) good same =
      elim (Bool-cases (texts_eq (found ∷ more) ((prefix queue_name <> device_uri) ∷ []))) [
        | inr foreign ↦ rw foreign tt
        | inl own ↦ elim (Bool-cases apply) [
          | inl applied ↦ rw (own, applied) (proceed-Converges true c (good, rw same own))
          | inr previewed ↦ rw (own, previewed) (λ h. cc)
        ]
      ]

-- In every run of `reconcile`, whatever the commands reply: besides listing the queues it only
-- creates the named queue, with `--apply`, once, and after a successful listing that showed no queue
-- of that name, or just the one with the device that is asked for. With `--apply`, a result means that
-- the creating command succeeded, and that the latest listing after it succeeded and showed the queue
-- with its device.
pub reconcile_guarded :
    (queue_name device_uri : String) (apply : Bool)
    → Holds
        (guard queue_name device_uri apply)
        (reconcile queue_name device_uri apply)
        unknown
        (Converges queue_name device_uri apply)
unfolding reconcile
reconcile_guarded queue_name device_uri apply = (
  tt,
  elim [
    | raised e ↦ λ _. tt
    | got c ↦ λ _. elim (Bool-cases (succeeded c)) [
      | inr bad ↦ rw bad tt
      | inl good ↦
          rw good
            (examined-Converges queue_name device_uri apply c (matches_in queue_name c) good refl)
    ]
  ],
)
