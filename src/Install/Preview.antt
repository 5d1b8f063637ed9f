-- ===== src/Install/Preview.antt =====
-- The previews of the lifecycle operations (scripts/personal_install.py).
use hp_lj_1020_driver.Base.{
  String, ◌<>◌, Bool, true, false, Option, none, some, List, [], ◌∷◌, ◌++◌,
}
use hp_lj_1020_driver.Base.Prog.{ret, call, ◌>>=◌, ◌>>◌}
use hp_lj_1020_driver.Install.Host.{
  print, Work, answer, succeeded, try_run, install_root_path, log_root, service_plist,
  service_label, service_target, service_user, queue, receipt, removal_paths,
}
use hp_lj_1020_driver.Install.Account.{user, group, account_record}
use hp_lj_1020_driver.Install.Service.{validate_queue_ownership}
use hp_lj_1020_driver.Install.Lifecycle.{fails_if}

pub data Operation : Type 0 where
  op_install op_disable op_enable op_uninstall op_status op_diagnostics op_update op_rollback :
      Operation

abbrev pub operation_name : Operation → String
operation_name op_install = "install"
operation_name op_disable = "disable"
operation_name op_enable = "enable"
operation_name op_uninstall = "uninstall"
operation_name op_status = "status"
operation_name op_diagnostics = "diagnostics"
operation_name op_update = "update"
operation_name op_rollback = "rollback"

-- The first halves of `REMOVAL_ARTIFACTS`.
abbrev descriptions : List String
descriptions =
    "LaunchDaemon plist" ∷ "provider app" ∷ "ownership marker" ∷ "state" ∷ "configuration" ∷ "spool"
    ∷ "firmware and metadata" ∷ "cache" ∷ "runtime socket state" ∷ "private service home"
    ∷ "remaining product root" ∷ "log" ∷ "log" ∷ "log" ∷ "logs" ∷ []

abbrev lines_of : List String → List String → List String
lines_of (d ∷ ds) (path ∷ paths) = ("remove " <> d <> " " <> path) ∷ lines_of ds paths
lines_of _ _ = []

abbrev removal_lines : List String
removal_lines = lines_of descriptions removal_paths

-- `PREVIEWS`
abbrev pub previews : Operation → List String
previews op_update =
    "require a clean checkout of the explicitly selected version tag"
    ∷ "build, validate, and sign the replacement without privilege"
    ∷ "refuse unfinished jobs in the macOS queue and provider"
    ∷ "close job admission; stop service; retain exact payload, plist, and compatible state"
    ∷ "activate and migrate under a durable transaction journal; check bounded service health"
    ∷ "restore exact retained payload and state on failure; preserve existing queue options" ∷ []
previews op_rollback =
    "recover an interrupted transaction first, or restore the exact retained previous payload and state"
    ∷ "refuse unfinished jobs; close admission; retain current payload and state"
    ∷ "restore without rebuilding; check service health before releasing the existing queue" ∷ []
previews op_install =
    "build and validate pinned sources without privilege"
    ∷ "ad-hoc sign nested provider code and app with hardened runtime without privilege"
    ∷ "create dedicated account _hplj1020" ∷ "create private state hierarchy"
    ∷ "install root-owned provider app" ∷ "install root-owned LaunchDaemon plist"
    ∷ "bootstrap LaunchDaemon" ∷ "create or reconcile queue HP_LaserJet_1020"
    ∷ "wait for final service UID, loopback listeners, and queue health"
    ∷ "no privileged USB helper is created" ∷ []
previews op_disable =
    "hold queue HP_LaserJet_1020"
    ∷ "disable and stop LaunchDaemon com.bartekpapierski.hplj1020.service"
    ∷ "preserve configuration, state, spool, firmware, cache, and logs" ∷ []
previews op_enable =
    "restore private directories and missing log files"
    ∷ "enable and bootstrap LaunchDaemon com.bartekpapierski.hplj1020.service"
    ∷ "wait for final service UID and loopback listeners"
    ∷ "enable and verify queue HP_LaserJet_1020" ∷ []
previews op_uninstall =
    ("disable service " <> service_label <> " and hold queue " <> queue <> " first")
    ∷ ("remove queue " <> queue)
    ∷ ("remove LaunchDaemon job " <> service_label)
    ∷ (removal_lines
        ++ ("remove product-created account and group " <> service_user
            <> " only when ownership markers match")
          ∷ ("forget product receipt " <> receipt <> " if present")
          ∷ "audit every product-owned artifact as absent"
          ∷ [])
previews _ = []

abbrev pub say : String → Work (Unit {0})
say line = call (print line) answer

unfoldable pub print_items : List String → Work (Unit {0})
print_items [] = ret tt
print_items (x ∷ xs) = say ("- " <> x) >> print_items xs

unfoldable pub preview : Operation → Work (Unit {0})
preview operation = do
  say ("Preview: " <> operation_name operation)
  print_items (previews operation)
  say "No changes made. Re-run with --apply --yes to authorize this exact plan."

abbrev is_some : Option String → Bool
is_some none = false
is_some (some s) = true

-- `[path for path in ... if test -e]`, without privileges
unfoldable pub present_paths : List String → Work (List String)
present_paths [] = ret []
present_paths (path ∷ paths) = do
  there ← try_run ("/bin/test" ∷ "-e" ∷ path ∷ [])
  rest ← present_paths paths
  ret (fails_if (succeeded there) path ++ rest)

unfoldable pub show_found : List String → Work (Unit {0})
show_found [] = do
  say "Preview: uninstall"
  say "- no product-owned artifacts detected; run the absence audit only"
  say "No changes made."
show_found (x ∷ found) = preview op_uninstall

unfoldable pub preview_uninstall : Work (Unit {0})
preview_uninstall = do
  paths ← present_paths (service_plist ∷ install_root_path ∷ log_root ∷ [])
  loaded ← try_run ("/bin/launchctl" ∷ "print" ∷ service_target ∷ [])
  queue_owned ← validate_queue_ownership
  u ← account_record user
  g ← account_record group
  kept ← try_run ("/usr/sbin/pkgutil" ∷ "--pkg-info" ∷ receipt ∷ [])
  let found =
      paths
      ++ (fails_if (succeeded loaded) ("launchd:" <> service_label)
          ++ (fails_if queue_owned ("queue:" <> queue)
              ++ (fails_if (is_some u) ("user:" <> service_user)
                  ++ (fails_if (is_some g) ("group:" <> service_user)
                      ++ fails_if (succeeded kept) ("receipt:" <> receipt)))))
  show_found found
