-- ===== src/Install/Command.antt =====
-- `update` and `main` (scripts/personal_install.py). The result of `main` is its exit status, and 2
-- also where the argument parser exits.
pub mod Consent
use hp_lj_1020_driver.Base.{
  ℕ, String, ◌<>◌, Bool, true, false, not, ◌||◌, ◌&&◌, Option, none, some, List, [], ◌∷◌,
  starts_with, str_eq, if◌then◌else◌,
}
use hp_lj_1020_driver.Base.Text.{strip, split_lines, is_nonempty}
use hp_lj_1020_driver.Base.Prog.{ret, raise, call, try_catch, ◌>>=◌, ◌>>◌}
use Prim.Native.String.{len, slice}
use hp_lj_1020_driver.Install.Host.{
  Error, install_error, os_error, Completed, audit, print_status, create_bundle, Work, answer,
  raise_if, succeeded, on_files, read_version, make_directory, run, admin, try_admin, below_root,
}
use hp_lj_1020_driver.Install.Staging.{staged_app, stage_and_sign}
use hp_lj_1020_driver.Install.Ownership.{validate_existing_installation}
use hp_lj_1020_driver.Install.Lifecycle.{disable, enable, install}
use hp_lj_1020_driver.Install.Removal.{uninstall}
use hp_lj_1020_driver.Install.Preview.{
  Operation, op_install, op_disable, op_enable, op_uninstall, op_status, op_diagnostics, op_update,
  op_rollback, operation_name, say, preview, preview_uninstall,
}

abbrev outcome_prefix : String
outcome_prefix = "transaction-outcome="

abbrev outcome_in : List String → String
outcome_in [] = "transaction-complete"
outcome_in (line ∷ lines) =
    if starts_with line outcome_prefix
    then slice line (len outcome_prefix) (len line)
    else outcome_in lines

pub transaction_outcome : Completed → String
transaction_outcome result = outcome_in (split_lines result.stdout)

-- The nested `git`
pub git : String → List String → Work String
git root arguments = do
  result ← run ("/usr/bin/git" ∷ "-C" ∷ root ∷ arguments)
  ret (strip result.stdout)

abbrev status_arguments : List String
status_arguments = "status" ∷ "--porcelain" ∷ "--untracked-files=all" ∷ []

abbrev tag_reference : String → String
tag_reference tag = "refs/tags/" <> tag

-- The commit and the tag object of a checkout that is clean and at the tag.
pub verify_checkout : String → String → Work (String × String)
verify_checkout root tag = do
  version ← on_files (read_version root)
  raise_if (not (str_eq tag ("v" <> version)))
      "selected tag must be vVERSION in its checked-out source revision"
  changes ← git root status_arguments
  raise_if (is_nonempty changes) "tagged-source update requires a clean checkout"
  commit ← git root ("rev-parse" ∷ "HEAD" ∷ [])
  tagged ← git root ("rev-parse" ∷ (tag_reference tag <> "^{commit}") ∷ [])
  raise_if (not (str_eq tagged commit)) "checkout must match the explicitly selected tag"
  tag_object ← git root ("rev-parse" ∷ tag_reference tag ∷ [])
  ret (commit, tag_object)

-- The disjunction after the staging, each part asked only if those before it are false.
pub has_changed : String → String → String → String → Work Bool
has_changed root tag commit tag_object = do
  changes ← git root status_arguments
  elim (is_nonempty changes) [
    | true ↦ ret true
    | false ↦ do
      head ← git root ("rev-parse" ∷ "HEAD" ∷ [])
      elim (str_eq head commit) [
        | false ↦ ret true
        | true ↦ do
          tagged ← git root ("rev-parse" ∷ tag_reference tag ∷ [])
          ret (not (str_eq tagged tag_object))
      ]
  ]

-- `sys.executable` is a parameter.
pub update : String → String → String → Work String
update python root tag = do
  (commit, tag_object) ← verify_checkout root tag
  stage_and_sign root true
  changed ← has_changed root tag commit tag_object
  raise_if changed "tagged source changed during staging"
  result ← admin (
      python
      ∷ "-B"
      ∷ (root <> "/scripts/personal_update.py")
      ∷ "update"
      ∷ "--staged"
      ∷ staged_app root
      ∷ "--tag"
      ∷ tag
      ∷ "--commit"
      ∷ commit
      ∷ [])
  ret (transaction_outcome result)

-- The parsed arguments.
pub record Options : Type 0 where
  pub operation : Operation
  pub tag : Option String
  pub apply : Bool
  pub dry_run : Bool
  pub yes : Bool
  pub output : Option String

abbrev audit_log : String → String
audit_log root = root <> "/build/personal-install/audit.jsonl"

abbrev note : String → Work (Unit {0})
note event = call (audit event) answer

-- `enable` and `uninstall` are refused while a transaction of an update is pending.
pub refuse_pending : Operation → Work (Unit {0})
refuse_pending op_enable = do
  pending ← try_admin ("/bin/test" ∷ "-e" ∷ below_root "transactions/pending.json" ∷ [])
  raise_if (succeeded pending)
      "pending update transaction: run rollback --apply --yes to recover first"
refuse_pending op_uninstall = do
  pending ← try_admin ("/bin/test" ∷ "-e" ∷ below_root "transactions/pending.json" ∷ [])
  raise_if (succeeded pending)
      "pending update transaction: run rollback --apply --yes to recover first"
refuse_pending _ = ret tt

abbrev tag_of : Options → String
tag_of o = elim o.tag [ none ↦ "" | some tag ↦ tag ]

-- The operation itself; the result is `state`.
pub perform : String → String → Options → Operation → Work String
perform python root o op_install = install root >> ret "enabled"
perform python root o op_disable = do
  owned ← validate_existing_installation
  raise_if (not owned) "refusing disable without the signed product ownership marker"
  disable false
  ret "disabled"
perform python root o op_enable = do
  owned ← validate_existing_installation
  raise_if (not owned) "refusing enable without the signed product ownership marker"
  enable
  ret "enabled"
perform python root o op_update = update python root (tag_of o)
perform python root o op_rollback = do
  result ← admin (python ∷ "-B" ∷ (root <> "/scripts/personal_update.py") ∷ "rollback" ∷ [])
  ret (transaction_outcome result)
perform python root o _ = uninstall >> ret "clean"

-- The body of the last `try`.
unfoldable pub apply_operation : String → String → Options → Work ℕ
apply_operation python root o = do
  note "start"
  refuse_pending o.operation
  state ← perform python root o o.operation
  note "complete"
  say ("state=" <> state)
  say ("audit=" <> audit_log root)
  ret 0

abbrev ignored : Error → Work (Unit {0})
ignored e = ret tt

-- A failed `enable` or `disable` leaves the service disabled if it can.
pub disable_after : Operation → Work (Unit {0})
disable_after op_disable = try_catch (disable false) ignored
disable_after op_enable = try_catch (disable false) ignored
disable_after _ = ret tt

abbrev ignore_os_error : Error → Work (Unit {0})
ignore_os_error (os_error m) = ret tt
ignore_os_error (install_error m) = raise (install_error m)

abbrev failure_state : Operation → String
failure_state op_uninstall = "removal-incomplete"
failure_state op = operation_name op <> "-incomplete"

-- The repository's path is not replaced in the message.
abbrev message_of : Error → String
message_of (install_error m) = m
message_of (os_error m) = m

pub report_failure : String → Operation → Error → Work ℕ
report_failure root op e = do
  disable_after op
  try_catch (note "failure") ignore_os_error
  say ("state=" <> failure_state op)
  say ("error=" <> message_of e)
  say ("audit=" <> audit_log root)
  ret 1

-- An `os_error` stands here for a `ValueError` too.
abbrev bundle_failed : Error → Work ℕ
bundle_failed (install_error m) = raise (install_error m)
bundle_failed (os_error m) =
    say "diagnostics failed: check destination permissions and use a new output file" >> ret 1

-- `create_diagnostic_bundle` of scripts/diagnostics.py is one call: the commands that it runs and the
-- file that it writes are not modelled.
abbrev bundle : String → Work ℕ
bundle path = do
  call (create_bundle path) answer
  say "Private redacted diagnostic bundle created locally; review before sharing."
  ret 0

unfoldable pub diagnose : Option String → Bool → Work ℕ
diagnose (some path) false = try_catch (bundle path) bundle_failed
diagnose _ _ = say "diagnostics requires --output NEW_FILE and no --dry-run" >> ret 2

abbrev is_some : Option String → Bool
is_some none = false
is_some (some t) = true

abbrev pub is_mistagged : Options → Bool
is_mistagged o = elim o.operation [ op_update ↦ not (is_some o.tag) | _ ↦ is_some o.tag ]

unfoldable pub show_preview : Operation → Work ℕ
show_preview op_uninstall = preview_uninstall >> ret 0
show_preview op = preview op >> ret 0

-- The operations that may change the installation.
unfoldable pub change : String → String → Options → Work ℕ
change python root o =
    if o.dry_run || not o.apply
    then show_preview o.operation
    else if not o.yes
    then (say "Refusing mutation without --yes after reviewing the preview." >> ret 2)
    else on_files (make_directory (root <> "/build/personal-install"))
      >> try_catch (apply_operation python root o) (report_failure root o.operation)

-- The status is the one call `print_status`, which stands for `collect_status` of
-- scripts/diagnostics.py and for printing what it gives.
unfoldable pub dispatch : String → String → Options → Operation → Work ℕ
dispatch python root o op_diagnostics = diagnose o.output o.dry_run
dispatch python root o op_status = call print_status answer >> ret 0
dispatch python root o _ = change python root o

unfoldable pub main : String → String → Options → Work ℕ
main python root o =
    if is_mistagged o
    then ret 2
    else if o.apply && o.dry_run
    then (say "--apply and --dry-run are mutually exclusive" >> ret 2)
    else dispatch python root o o.operation
