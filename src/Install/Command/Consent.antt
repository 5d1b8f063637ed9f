-- ===== src/Install/Command/Consent.antt =====
-- What `main` does without the operator's consent (scripts/personal_install.py).
use hp_lj_1020_driver.Base.{
  ◌≡◌, refl, String, ◌<>◌, texts_eq, Bool, true, false, not, ◌||◌, ◌&&◌, List, [], ◌∷◌, str_eq,
  is_empty, arith, Bool-cases, inl, inr,
}
use hp_lj_1020_driver.Base.Prog.{Outcome, Monitor, Holds, Holds-then, call, ◌>>=◌, ◌>>◌, ret}
use hp_lj_1020_driver.Install.Host.{
  queue_uri, Call, execute, print, got, raised, Replies, Work, answer,
}
use hp_lj_1020_driver.Install.Account.{Kind, user, group, account_record}
use hp_lj_1020_driver.Install.Service.{queue_prefix, validate_queue_ownership, check_queue}
use hp_lj_1020_driver.Install.Preview.{
  Operation, op_uninstall, op_status, op_diagnostics, show_found, print_items, present_paths,
  preview, preview_uninstall,
}
use hp_lj_1020_driver.Install.Command.{Options, is_mistagged, show_preview, change, dispatch, main}

-- The commands that only look, and without privileges.
abbrev pub looks_only : List String → Bool
looks_only (program ∷ argument ∷ arguments) =
    (str_eq program "/bin/test" && str_eq argument "-e")
    || (str_eq program "/bin/launchctl" && str_eq argument "print")
    || (str_eq program "/usr/bin/lpstat" && str_eq argument "-v")
    || (str_eq program "/usr/bin/dscacheutil" && str_eq argument "-q")
    || (str_eq program "/usr/sbin/pkgutil" && str_eq argument "--pkg-info")
looks_only _ = false

abbrev Allowed : Unit {0} → Call → Type 0
Allowed s (execute command) = looks_only command ≡ true
Allowed s (print line) = Unit
Allowed s _ = ⊥

abbrev pub bystander : Monitor (Unit {0}) Call Replies
bystander = record { allowed = Allowed; legal = λ s c r. Unit; next = λ s c r. s }

abbrev pub Any : {E A : Type 0} → Unit {0} → Outcome E A → Type 0
Any s o = Unit

abbrev Looks : {A : Type 0} → Work A → Type 0
Looks m = Holds bystander m tt Any

looks-then :
    {A B : Type 0} (m : Work A) (f : A → Work B)
    → Looks m
    → ((a : A) → Looks (f a))
    → Looks (m >>= f)
looks-then m f h next = Holds-then bystander m f tt Any Any h (λ s a _. next a) (λ s e _. tt)

print_items-Looks : (xs : List String) → Looks (print_items xs)
unfolding print_items
print_items-Looks [] = tt
print_items-Looks (x ∷ xs) = (tt, elim [ raised e ↦ λ _. tt | got _ ↦ λ _. print_items-Looks xs ])

preview-Looks : (op : Operation) → Looks (preview op)
unfolding preview
preview-Looks op = (
  tt,
  elim [
    | raised e ↦ λ _. tt
    | got _ ↦ λ _.
        looks-then (print_items _) _ (print_items-Looks _)
          (λ _. (tt, elim [ raised e ↦ λ _. tt | got _ ↦ λ _. tt ]))
  ],
)

present_paths-Looks : (paths : List String) → Looks (present_paths paths)
unfolding present_paths
present_paths-Looks [] = tt
present_paths-Looks (path ∷ paths) = (
  refl,
  elim [
    | raised e ↦ λ _. tt
    | got c ↦ λ _. looks-then (present_paths paths) _ (present_paths-Looks paths) (λ _. tt)
  ],
)

account_record-Looks : (kind : Kind) → Looks (account_record kind)
unfolding account_record
account_record-Looks kind = (refl, elim [ raised e ↦ λ _. tt | got c ↦ λ _. tt ])

check_queue-Looks : (lines : List String) → Looks (check_queue lines)
unfolding check_queue
check_queue-Looks lines =
    elim (Bool-cases
      (not (is_empty lines) && not (texts_eq lines ((queue_prefix <> queue_uri) ∷ [])))) [
        | inl foreign ↦ rw foreign tt
        | inr own ↦ rw own tt
      ]

validate_queue_ownership-Looks : Looks validate_queue_ownership
unfolding validate_queue_ownership
validate_queue_ownership-Looks =
    (refl, elim [ raised e ↦ λ _. tt | got c ↦ λ _. check_queue-Looks _ ])

-- A last line that is printed, and a value after it.
last-Looks : {A : Type 0} (line : String) (a : A) → Looks (call (print line) answer >> ret a)
last-Looks line a = (tt, elim [ raised e ↦ λ _. tt | got _ ↦ λ _. tt ])

show_found-Looks : (found : List String) → Looks (show_found found)
unfolding show_found
show_found-Looks [] = (
  tt,
  elim [
    | raised e ↦ λ _. tt
    | got _ ↦ λ _. (
      tt,
      elim [
        | raised e ↦ λ _. tt
        | got _ ↦ λ _. (tt, elim [ raised e ↦ λ _. tt | got _ ↦ λ _. tt ])
      ],
    )
  ],
)
show_found-Looks (x ∷ xs) = preview-Looks op_uninstall

preview_uninstall-Looks : Looks preview_uninstall
unfolding preview_uninstall
preview_uninstall-Looks = looks-then (present_paths _) _ (present_paths-Looks _) (λ paths. (
  refl,
  elim [
    | raised e ↦ λ _. tt
    | got loaded ↦ λ _.
        looks-then validate_queue_ownership _ validate_queue_ownership-Looks (λ owned.
          looks-then (account_record user) _ (account_record-Looks user) (λ u.
            looks-then (account_record group) _ (account_record-Looks group)
              (λ g. (refl, elim [ raised e ↦ λ _. tt | got kept ↦ λ _. show_found-Looks _ ]))))
  ],
))

show_preview-Looks : (op : Operation) → Looks (show_preview op)
unfolding show_preview
show_preview-Looks op_uninstall = looks-then preview_uninstall _ preview_uninstall-Looks (λ _. tt)
show_preview-Looks _ = looks-then (preview _) _ (preview-Looks _) (λ _. tt)

change-Looks :
    (python root : String) (o : Options)
    → (o.apply && o.yes && not o.dry_run) ≡ false
    → Looks (change python root o)
unfolding change
change-Looks python root o no_consent = elim (Bool-cases (o.dry_run || not o.apply)) [
  | inl shown ↦ rw shown (show_preview-Looks o.operation)
  | inr asked ↦
      let no_yes : not o.yes ≡ true = ground (arith, no_consent, asked) in
      rw (asked, no_yes) (last-Looks "" 2)
]

-- The operations that --apply concerns: all but the status and the diagnostics, which
-- scripts/diagnostics.py carries out.
abbrev pub is_change : Operation → Bool
is_change op_status = false
is_change op_diagnostics = false
is_change _ = true

dispatch-Looks :
    (python root : String) (o : Options) (op : Operation)
    → is_change op ≡ true
    → (o.apply && o.yes && not o.dry_run) ≡ false
    → Looks (dispatch python root o op)
unfolding dispatch
dispatch-Looks python root o op_diagnostics a_change no_consent = cc
dispatch-Looks python root o op_status a_change no_consent = cc
dispatch-Looks python root o _ a_change no_consent = change-Looks python root o no_consent

-- For every operation but the status and the diagnostics: without both --apply and --yes, or with
-- --dry-run, no run of `main`, whatever the replies, uses `sudo` or touches a file of the repository
-- or the audit log. All its commands are `test -e`, `launchctl print`, `lpstat -v`, `dscacheutil -q`
-- and `pkgutil --pkg-info`, and besides those it only prints.
pub main_changes_nothing_unasked :
    (python root : String) (o : Options)
    → is_change o.operation ≡ true
    → (o.apply && o.yes && not o.dry_run) ≡ false
    → Holds bystander (main python root o) tt Any
unfolding main
main_changes_nothing_unasked python root o a_change no_consent =
    elim (Bool-cases (is_mistagged o)) [
      | inl bad ↦ rw bad tt
      | inr good ↦ elim (Bool-cases (o.apply && o.dry_run)) [
        | inl both ↦ rw (good, both) (last-Looks "" 2)
        | inr one ↦ rw (good, one) (dispatch-Looks python root o o.operation a_change no_consent)
      ]
    ]
