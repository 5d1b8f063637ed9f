-- ===== src/Install/Lifecycle/Quiescent.antt =====
-- What `disable` makes sure of before it returns (scripts/personal_install.py).
use hp_lj_1020_driver.Base.{
  ℕ, zero, suc, ◌≡◌, refl, ◌∙◌, String, Bool, true, false, not, List, [], ◌∷◌, ◌++◌, ◌&&◌, ◌||◌,
  arith, texts_eq, Bool-cases, inl, inr, if◌then◌else◌,
}
use hp_lj_1020_driver.Base.Prog.{
  Outcome, ok, err, Monitor, Holds, Holds-then, ret, raise, call, ◌>>◌,
}
use hp_lj_1020_driver.Install.Host.{
  Error, Completed, Call, execute, Replies, got, raised, Work, succeeded, service_target,
  below_root,
}
use hp_lj_1020_driver.Install.Lifecycle.{
  wait_unloaded, wait_silent, has_listener, pause_before, stop_service, disable,
  service_disable_override_present_in, owned_queue, hold_queue, raise_failures, fails_if,
}

-- What the latest looks showed: the launchd job, the listeners at the port and at the socket, and
-- the disable override.
pub record Looks : Type 0 where
  pub unloaded : Bool
  pub tcp_silent : Bool
  pub socket_silent : Bool
  pub overridden : Bool

abbrev print_service : List String
print_service = "/usr/bin/sudo" ∷ "/bin/launchctl" ∷ "print" ∷ service_target ∷ []

abbrev list_tcp : List String
list_tcp = "/usr/bin/sudo" ∷ "/usr/sbin/lsof" ∷ "-nP" ∷ "-iTCP:8631" ∷ "-sTCP:LISTEN" ∷ []

abbrev list_socket : List String
list_socket = "/usr/bin/sudo" ∷ "/usr/sbin/lsof" ∷ "-nP" ∷ below_root "run/service.sock" ∷ []

abbrev print_disabled : List String
print_disabled = "/usr/bin/sudo" ∷ "/bin/launchctl" ∷ "print-disabled" ∷ "system" ∷ []

abbrev see : Looks → List String → Completed → Looks
see s command c =
    if texts_eq command print_service
    then record s { unloaded = not (succeeded c) }
    else if texts_eq command list_tcp
    then record s { tcp_silent = not (has_listener c) }
    else if texts_eq command list_socket
    then record s { socket_silent = not (has_listener c) }
    else if texts_eq command print_disabled
    then record s { overridden = service_disable_override_present_in c.stdout }
    else s

abbrev Next : Looks → (c : Call) → Replies c → Looks
Next s (execute command) (got c) = see s command c
Next s _ _ = s

abbrev pub looks : Monitor Looks Call Replies
looks = record { allowed = λ s c. Unit; legal = λ s c r. Unit; next = Next }

abbrev pub IsQuiescent : Looks → Type 0
IsQuiescent s =
    (s.unloaded ≡ true) × (s.tcp_silent ≡ true) × (s.socket_silent ≡ true) × (s.overridden ≡ true)

-- No failure means that the job was last seen unloaded.
abbrev Unloads : Looks → Outcome Error (List String) → Type 0
Unloads s (ok fs) = fs ≡ [] → s.unloaded ≡ true
Unloads s (err e) = Unit

pause-then :
    (n : ℕ) (k : Work (List String)) (s : Looks) (Q : Looks → Outcome Error (List String) → Type 0)
    → Holds looks k s Q
    → ((e : Error) → Q s (err e))
    → Holds looks (pause_before n >> k) s Q
pause-then zero k s Q h bad = h
pause-then (suc n) k s Q h bad = (tt, elim [ got _ ↦ λ _. h | raised e ↦ λ _. bad e ])

wait_unloaded-Unloads : (n : ℕ) (s : Looks) → Holds looks (wait_unloaded n) s Unloads
unfolding wait_unloaded
wait_unloaded-Unloads zero s = λ h. cc
wait_unloaded-Unloads (suc n) s = (
  tt,
  elim [
    | raised e ↦ λ _. tt
    | got c ↦ λ _. elim (Bool-cases (succeeded c)) [
      | inr gone ↦ rw gone (λ _. refl)
      | inl there ↦ rw there (
          pause-then n (wait_unloaded n) _ Unloads
            (wait_unloaded-Unloads n (record s { unloaded = false })) (λ e. tt))
    ]
  ],
)

-- No failure means that neither listener was seen last, and the job is as it was.
abbrev Silences : Bool → Looks → Outcome Error (List String) → Type 0
Silences u s (ok fs) =
    (s.unloaded ≡ u) × (fs ≡ [] → (s.tcp_silent ≡ true) × (s.socket_silent ≡ true))
Silences u s (err e) = Unit

wait_silent-Silences :
    (n : ℕ) (tcp socket : Bool) (s : Looks)
    → (n ≡ zero → (tcp || socket) ≡ true)
    → Holds looks (wait_silent n tcp socket) s (Silences s.unloaded)
unfolding wait_silent
wait_silent-Silences zero tcp socket s active = (refl, λ h. ground (arith, active refl))
wait_silent-Silences (suc n) tcp socket s active = (
  tt,
  elim [
    | raised e ↦ λ _. tt
    | got t ↦ λ _. (
      tt,
      elim [
        | raised e ↦ λ _. tt
        | got u ↦ λ _. elim (Bool-cases (not (has_listener t) && not (has_listener u))) [
          | inl silent ↦ rw silent (refl, λ _. ground arith)
          | inr seen ↦ rw seen (
              pause-then n (wait_silent n (has_listener t) (has_listener u)) _ (Silences s.unloaded)
                (wait_silent-Silences n (has_listener t) (has_listener u) _ (λ _. ground arith))
                (λ e. tt))
        ]
      ],
    )
  ],
)

abbrev Stops : Looks → Outcome Error (List String) → Type 0
Stops s (ok fs) = fs ≡ [] → IsQuiescent s
Stops s (err e) = Unit

append-eq-nil {ℓ} : {A : Type ℓ} (xs ys : List A) → xs ++ ys ≡ [] → (xs ≡ []) × (ys ≡ [])
append-eq-nil [] ys h = (refl, h)
append-eq-nil (x ∷ xs) ys h = cc

fails_if-eq-nil : (b : Bool) (m : String) → fails_if (not b) m ≡ [] → b ≡ true
fails_if-eq-nil true m h = refl
fails_if-eq-nil false m h = cc

stop_service-Stops : (s : Looks) → Holds looks stop_service s Stops
unfolding stop_service
stop_service-Stops s = (
  tt,
  elim [
    | raised e ↦ λ _. tt
    | got o ↦ λ _. (
      tt,
      elim [
        | raised e ↦ λ _. tt
        | got _ ↦ λ _.
            Holds-then looks (wait_unloaded 50) _ s Unloads Stops (wait_unloaded-Unloads 50 s)
              (λ s₁ loaded unloads.
                Holds-then looks (wait_silent 150 false false) _ s₁ (Silences s₁.unloaded) Stops
                  (wait_silent-Silences 150 false false s₁ (λ h. absurd (omega arith)))
                  (λ s₂ listening silences. (
                    tt,
                    elim [
                      | raised e ↦ λ _. tt
                      | got c ↦ λ _ none_failed.
                          let parts =
                            (append-eq-nil (fails_if (not (succeeded o)) _) _ none_failed).1 in
                          let (none_loaded, rest) = append-eq-nil loaded _ parts in
                          let (none_listening, last) = append-eq-nil listening _ rest in
                          let (tcp, socket) = silences.1 none_listening in
                          (
                            silences.0 ∙ unloads none_loaded,
                            tcp,
                            socket,
                            fails_if-eq-nil (service_disable_override_present_in c.stdout) _ last,
                          )
                    ],
                  ))
                  (λ s₂ e _. tt))
              (λ s₁ e _. tt)
      ],
    )
  ],
)

-- A way of disabling that returns has last seen the service unloaded, nothing listening, and the
-- override in place; otherwise it raises.
abbrev pub Disables : Looks → Outcome Error (Unit {0}) → Type 0
Disables s (ok _) = IsQuiescent s
Disables s (err e) = Unit

any-Holds : {A : Type 0} (m : Work A) (s : Looks) → Holds looks m s (λ s' o. Unit)
any-Holds (ret a) s = tt
any-Holds (raise e) s = tt
any-Holds (call c k) s = (tt, λ r _. any-Holds (k r) (Next s c r))

raise_failures-Disables :
    (fs : List String) (s : Looks)
    → (fs ≡ [] → IsQuiescent s)
    → Holds looks (raise_failures fs) s Disables
raise_failures-Disables [] s h = h refl
raise_failures-Disables (f ∷ fs) s h = tt

-- In every run, whatever the commands reply: if `disable` returns, then the latest
-- `launchctl print` failed, the latest `lsof` looks at the port and at the socket showed no
-- listener, and the latest `print-disabled` showed the service's override.
pub disable_quiescent :
    (preserve_queue_policy : Bool) (s : Looks)
    → Holds looks (disable preserve_queue_policy) s Disables
unfolding disable
disable_quiescent preserve s =
    Holds-then looks owned_queue _ s _ Disables (any-Holds owned_queue s)
      (λ s₁ found _.
        Holds-then looks (hold_queue found.0 preserve) _ s₁ _ Disables
          (any-Holds (hold_queue found.0 preserve) s₁)
          (λ s₂ held _.
            Holds-then looks stop_service _ s₂ Stops Disables (stop_service-Stops s₂)
              (λ s₃ stopped stops.
                raise_failures-Disables (found.1 ++ (held ++ stopped)) s₃ (λ none_failed.
                  stops
                    (append-eq-nil held stopped
                      (append-eq-nil found.1 (held ++ stopped) none_failed).1).1))
              (λ s₃ e _. tt))
          (λ s₂ e _. tt))
      (λ s₁ e _. tt)
