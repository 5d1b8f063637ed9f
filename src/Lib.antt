-- ===== src/Lib.antt =====
-- Verification of the Python programs that install, update and drive the HP LaserJet 1020 provider.
--
-- The parts, by the files of the repository that they stand for:
--
--   scripts/manual_duplex.py
--     Duplex/Plan.antt: `Plan` and `plan`. Duplex/Plan/Sheets.antt describes the printed sheets
--     without reference to the code.
--     Duplex/Workflow.antt: `run_workflow`. `backend.instance`, `create`, `send`, `state`, `cancel`,
--     `clock`, `sleep`, `confirm` and `publish` are the constructors of `Call`; the body of the
--     outer `try` is `both_passes`, with `print_pass` for a round of the `for` loop, `reinsertion`
--     for what precedes the backs and `wait_for_job` for the `while True` loop; the handler is
--     `give_up`. Watch.antt and Deadline.antt hold the monitors that its runs are held against.
--     Duplex/Backend.antt: `Backend` and `confirmation`, over runs of the native helper.
--   scripts/personal_update.py
--     Update/Calls.antt: the journal, the inventories, and the calls to `MacRuntime` and to the
--     file system, each of which may raise. Update/Transaction.antt: `inventory`, `copy`,
--     `snapshot`, `verify`, `remove`, `replace`, `migrate`, `restore`.
--     Update/Transaction/Journal.antt: `phase`, `finish`, `recover`, `run_path` and `execute`; the
--     body of the second `try` of `execute` is `transact` (with `prepare`, `back_up`, `change` and
--     `activate`) and its handler is `undo`. Update/Transaction/Custody.antt is the monitor, and
--     Update/Transaction/Inventories.antt says what it means that two inventories agree.
--     Update/Durable.antt: `durable_json` and `sync_directory`, file operation by file operation.
--     Update/Runtime.antt: `MacRuntime`, over the command host of Install.
--   scripts/personal_install.py
--     Install/Host.antt: the command host and the constants. Install/Account.antt: the service's
--     user and group. Install/Ownership.antt: the checks of what is installed already.
--     Install/Staging.antt: `stage_and_sign` and the bundling of libraries. Install/Service.antt:
--     directories and queue. Install/Lifecycle.antt: `wait_ready`, `disable`, `enable`, `install`.
--     Install/Removal.antt: `uninstall`. Install/Preview.antt: the previews. Install/Command.antt:
--     `update` and `main`; Install/Command/Consent.antt is the monitor of its commands.
--   scripts/output_measurement.py
--     Base/Json.antt: the values of `json.loads`. Measurement/Reading.antt: the checks of
--     `validate_measurement` that raise. Measurement/Criteria.antt: the failures that it collects,
--     and `validate_measurement` itself. Measurement/Truth.antt: the criteria as propositions.
--   scripts/json_schema.py
--     Base/Json/Order.antt: comparisons of values. Schema/Reference.antt: `_resolve` and the errors.
--     Schema/Keywords.antt: `_matches_type`, `_is_valid` and the keywords for any value.
--     Schema/Members.antt: those for objects, arrays, texts and numbers. Schema/Validate.antt:
--     `validate`.
--   scripts/validation_gate.py
--     Gate/Values.antt: `_sha`, `_commit`, `_object_list`, `_ids`, `_check_intermittency`,
--     `_validate_redacted_strings`, `_validate_environment`, `_validate_printer`. Gate/Rows.antt:
--     `_scenario_map`. Gate/Evidence.antt: `_verify_evidence`, on what the files are like at one
--     moment, with `validate_measurement` for the measurements. Gate/Judge.antt: the results and
--     `_check_reliability`. Gate/Decision.antt: `validate_gate` with the schema validation,
--     `requirements_for_milestone` and `main`. Gate/Decision/Scenario.antt says what stands
--     behind a scenario, Gate/Decision/Support.antt what an accepted manifest has,
--     Gate/Evidence/Vouched.antt what accepted evidence has, Gate/Listed.antt and
--     Gate/Tables.antt how the tables stand in the documents, and Gate/Passed.antt what a check that
--     passed means.
--   scripts/personal_release.py
--     Release/Calls.antt: what it asks of its environment. Release/Files.antt: `inventory`,
--     `readonly`, `safe_file`, `private_check`. Release/Records.antt: `run_path`, `records`, `record`
--     (`record_stage`), `failure`. Release/Bundle.antt: `check_payload`, `verify_seal`,
--     `verify_installed`. Release/Checks.antt: `candidate`, `merged`, `ci`, `source_bundle`,
--     `verify_pointer`, `validate`. Release/Tag.antt: `tag`. Release/Stages.antt: `prepare`, `seal`,
--     `advance`, `main`. Release/World.antt and Release/Looks.antt are for programs that only read;
--     Release/Records/Contents.antt and Release/Records/Chain.antt describe a chain of records;
--     Release/Tag/Sealed.antt says where the bundle is, Release/Tag/Steps.antt
--     is the monitor of `tag`, and Release/Tag/Once.antt holds `tag` against it.
--   scripts/reconcile_macos_queue.py
--     Reconcile.antt: `reconcile` and `main`. Reconcile/Guard.antt is the monitor of its commands.
--
-- Every program is a tree (Base/Prog.antt): it returns, raises, or makes a call and goes on with the
-- reply. The code fixes the tree, and nothing is assumed of the replies but what a monitor calls
-- legal. A monitor keeps a state over the calls and says which are allowed in it; `Holds` says that
-- every call of every run is allowed, those of a run that is cut off included, and that a
-- predicate holds of the end. Exceptions are values; where a handler reads a variable that the
-- body of its `try` has assigned, the exception carries that variable's value.
--
-- Bounds and fuel. `wait_for_job` takes fuel, since the source loops until a deadline; the result
-- `none` stands for spent fuel. The fuel is measured against a clock that advances by at least one
-- unit with each sleep, under which a deadline is that many rounds away at most. The loops of scripts/personal_install.py are
-- bounded in the source, and the model recurses on the same bounds (60, 50 and 150 rounds). `validate`
-- takes fuel for the depth of its calls, since a schema may refer to itself, and has an error of its
-- own where the fuel is spent; nothing is stated of it.
--
-- Not modelled: the text of a few messages; the command events of the audit log, and what the
-- other events hold besides their names; the link from the calls of `Transaction` to `MacRuntime`
-- and from those of `run_workflow` to `Backend`; time as floats (natural numbers of ticks); text
-- outside ASCII in `isdigit`, `int` and `lower`; the parsing of command lines; `build_manifest` of
-- scripts/personal_release.py, which is a call; the reading of the specification by
-- scripts/check_implementation_spec.py, whose requirements the gate is given. The methods of `MacRuntime`
-- are single calls of a transaction, so what `close_admission`, `start` and `release` do to the hold
-- marker is not among the file operations that its monitor sees. The status and the diagnostic bundle
-- of scripts/personal_install.py are single calls too: the commands that scripts/diagnostics.py runs for
-- them, `sudo` among them, and the file that it writes are not modelled. A float is an exact multiple of 2 ^ -1074, an infinity or NaN. The other scripts, the
-- provider in C and the third-party code are not modelled.
pub mod Base
pub mod Duplex
pub mod Update
pub mod Install
pub mod Measurement
pub mod Schema
pub mod Gate
pub mod Release
pub mod Reconcile
pub mod Tests
