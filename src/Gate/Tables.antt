-- ===== src/Gate/Tables.antt =====
-- The tables of the gate and the lists that they are read from (scripts/validation_gate.py).
use hp_lj_1020_driver.Base.{
  ◌≡◌, ap, ◌∙◌, String, Bool, true, false, not, ◌||◌, ◌&&◌, Option, none, some, List, [], ◌∷◌, ◌++◌,
  All, elem, starts_with, if◌then◌else◌,
}
use mathlib.Core.Path.{subst}
use hp_lj_1020_driver.Base.Prog.{ok, err}
use hp_lj_1020_driver.Base.Checked.{split_ok}
use hp_lj_1020_driver.Base.Json.{
  Json, null, boolean, number, whole, string, array, object, Fields, get,
}
use hp_lj_1020_driver.Base.Json.Order.{json_eq}
use hp_lj_1020_driver.Gate.Values.{
  invalid, Checked, is_text, is_full_text, says, ids, texts, in_set, same_set, index,
  check_intermittency, object_list,
}
use hp_lj_1020_driver.Schema.Members.{is_truthy}
use hp_lj_1020_driver.Gate.Passed.{unless_rejected}
use hp_lj_1020_driver.Gate.Rows.{
  Table, lookup, row_names, row_name, milestones, states, check_identities, check_affected,
  check_verified, check_row, check_rows, scenario_map, object_or,
}
use hp_lj_1020_driver.Gate.Judge.{key_of, known_scenario, texts_at, check_result, check_results}
use hp_lj_1020_driver.Gate.Evidence.{
  Evidence, check_evidence, check_each, has_kind, verify_evidence,
}
use hp_lj_1020_driver.Gate.Evidence.Vouched.{All-snoc}
use hp_lj_1020_driver.Gate.Listed.{IsIn, All-self, Objects, object_list_lem, key_lem}

-- An object of the list, with the identifier under which it stands
abbrev pub IsNamed : List Fields → String × Fields → Type 0
IsNamed listed (name, row) = IsIn row listed × (get row "scenarioId" ≡ string name)

named :
    (b : Bool) (s name : String) (m : String)
    → (if b then ok s else err (invalid m)) ≡ ok name
    → s ≡ name
named true s name m h = cc
named false s name m h = cc

row_name_lem : (v : Json) (name : String) → row_name v ≡ ok name → v ≡ string name
row_name_lem (string s) name h = ap string (named (starts_with s "SCN-") s name _ h)
row_name_lem null name h = cc
row_name_lem (boolean b) name h = cc
row_name_lem (number x) name h = cc
row_name_lem (array xs) name h = cc
row_name_lem (object fs) name h = cc

row_lem :
    (scopes : Fields) (known : List String) (before : Table) (row : Fields) (name : String)
    → check_row scopes known before row ≡ ok name
    → get row "scenarioId" ≡ string name
unfolding check_row
row_lem scopes known before row name h =
    let (found, there, h₁) = split_ok (row_name (get row "scenarioId")) _ h in
    let (x, h₂) = unless_rejected (elem found (row_names before)) _ _ h₁ in
    let (x, y, h₃) = split_ok (ids (get row "requirementIds") known) _ h₂ in
    let (x, h₄) =
      unless_rejected (not (is_text (λ s. elem s milestones) (get row "milestone"))) _ _ h₃ in
    let (stated, y, h₅) = split_ok (in_set (get row "state") states) _ h₄ in
    let (x, h₆) = unless_rejected (not stated) _ _ h₅ in
    let (x, y, h₇) = split_ok (check_affected scopes (get row "affectedScopes")) _ h₆ in
    let (x, y, h₈) = split_ok (texts (get row "invalidatedBy") _) _ h₇ in
    let (x, y, h₉) =
      split_ok (check_intermittency (get row "attempts") (get row "intermittencyExplanation")) _
        h₈ in
    let (state, y, h₁₀) = split_ok (index row "state") _ h₉ in
    let (x, y, h₁₁) =
      split_ok (if says state "verified" then check_verified row else ok tt) _ h₁₀ in
    let same : found ≡ name = cc in row_name_lem (get row "scenarioId") name (there ∙ ap ok same)

pub rows_lem :
    (listed : List Fields) (scopes : Fields) (known : List String) (before : Table)
    (rows : List Fields) (table : Table)
    → All (λ row. IsIn row listed) rows
    → All (IsNamed listed) before
    → check_rows scopes known before rows ≡ ok table
    → All (IsNamed listed) table
unfolding check_rows
rows_lem listed scopes known before [] table inside known_before h =
    let same : before ≡ table = cc in subst (All (IsNamed listed)) same known_before
rows_lem listed scopes known before (row ∷ rows) table (here, inside) known_before h =
    let (name, checked, rest) = split_ok (check_row scopes known before row) _ h in
    rows_lem listed scopes known (before ++ ((name, row) ∷ [])) rows table inside
      (All-snoc (IsNamed listed) before (name, row) known_before
        (here, row_lem scopes known before row name checked))
      rest

abbrev known_from : String → Option Fields → Checked (String × Fields)
known_from s o = elim o [
  | none ↦ err (invalid "manifest references unknown scenario")
  | some row ↦ ok (s, row)
]

known_lem :
    (scenarios : Table) (key : Option String) (name : String) (row : Fields)
    → known_scenario scenarios key ≡ ok (name, row)
    → key ≡ some name
known_lem scenarios none name row h = cc
known_lem scenarios (some s) name row h = ap some (go (lookup scenarios s) h)
  where
    go : (o : Option Fields) → known_from s o ≡ ok (name, row) → s ≡ name
    go none h = cc
    go (some r) h = cc

result_lem :
    (scenarios : Table) (known : List String) (before : Table) (result : Fields) (name : String)
    → check_result scenarios known before result ≡ ok name
    → get result "scenarioId" ≡ string name
unfolding check_result
result_lem scenarios known before result name h =
    let (key, there, h₁) = split_ok (key_of (get result "scenarioId")) _ h in
    let ((found, row), here, h₂) = split_ok (known_scenario scenarios key) _ h₁ in
    let (x, h₃) = unless_rejected (elem found (row_names before)) _ _ h₂ in
    let (claimed, y, h₄) = split_ok (ids (get result "requirementIds") known) _ h₃ in
    let (required, y, h₅) = split_ok (texts_at row "requirementIds") _ h₄ in
    let (x, h₆) = unless_rejected (not (same_set claimed required)) _ _ h₅ in
    let (x, y, h₇) =
      split_ok (check_intermittency (get result "attempts") (get result "intermittencyExplanation"))
        _ h₆ in
    let (stated, y, h₈) = split_ok (in_set (get result "state") states) _ h₇ in
    let (x, h₉) = unless_rejected (not stated) _ _ h₈ in
    let (x, h₁₀) = unless_rejected (not (says (get result "state") "verified")) _ _ h₉ in
    let (x, h₁₁) = unless_rejected (not (is_full_text (get result "summary"))) _ _ h₁₀ in
    let (x, h₁₂) = unless_rejected (not (is_full_text (get result "observedAt"))) _ _ h₁₁ in
    let (attempts, y, h₁₃) = split_ok (index result "attempts") _ h₁₂ in
    let (x, h₁₄) = unless_rejected (not (is_truthy attempts)) _ _ h₁₃ in
    let same : found ≡ name = cc in
    key_lem (get result "scenarioId") name
      (there ∙ ap ok (known_lem scenarios key found row here ∙ ap some same))

pub results_lem :
    (listed : List Fields) (scenarios : Table) (known : List String) (before : Table)
    (results : List Fields) (table : Table)
    → All (λ result. IsIn result listed) results
    → All (IsNamed listed) before
    → check_results scenarios known before results ≡ ok table
    → All (IsNamed listed) table
unfolding check_results
results_lem listed scenarios known before [] table inside known_before h =
    let same : before ≡ table = cc in subst (All (IsNamed listed)) same known_before
results_lem listed scenarios known before (result ∷ results) table (here, inside) known_before h =
    let (name, checked, rest) = split_ok (check_result scenarios known before result) _ h in
    results_lem listed scenarios known (before ++ ((name, result) ∷ [])) results table inside
      (All-snoc (IsNamed listed) before (name, result) known_before
        (here, result_lem scenarios known before result name checked))
      rest

-- A piece of evidence of the list
abbrev pub IsKept : List Fields → String × Fields → Type 0
IsKept listed (digest, entry) = IsIn entry listed

pub each_lem :
    (files : Evidence) (private_path exposed_secret firmware_name : String → Bool)
    (listed : List Fields) (scenarios : List String) (before : Table) (entries : List Fields)
    (table : Table)
    → All (λ entry. IsIn entry listed) entries
    → All (IsKept listed) before
    → check_each files private_path exposed_secret firmware_name scenarios before entries ≡ ok table
    → All (IsKept listed) table
unfolding check_each
each_lem files p e f listed scenarios before [] table inside known_before h =
    let same : before ≡ table = cc in subst (All (IsKept listed)) same known_before
each_lem files p e f listed scenarios before (entry ∷ entries) table (here, inside) known_before h =
    let (digest, checked, rest) =
      split_ok (check_evidence files p e f scenarios before entry) _ h in
    each_lem files p e f listed scenarios (before ++ ((digest, entry) ∷ [])) entries table inside
      (All-snoc (IsKept listed) before (digest, entry) known_before here) rest

-- The rows of the matrix
pub scenarios_lem :
    (matrix : Fields) (known : List String) (table : Table)
    → scenario_map matrix known ≡ ok table
    → (rows : List Fields) × Objects (get matrix "scenarios") rows × All (IsNamed rows) table
unfolding scenario_map
scenarios_lem matrix known table h =
    let (x, h₁) =
      unless_rejected
        (not (says (get matrix "schemaVersion") "1.0.0")
          || not (json_eq (get matrix "matrixVersion") (number (whole 1))))
        _ _ h in
    let (scopes, y, h₂) = split_ok (object_or (get matrix "scopeIdentities") _) _ h₁ in
    let (x, y, h₃) = split_ok (check_identities scopes) _ h₂ in
    let (rows, there, h₄) = split_ok (object_list (get matrix "scenarios")) _ h₃ in
    (
      rows,
      object_list_lem (get matrix "scenarios") rows there,
      rows_lem rows scopes known [] rows table (All-self rows) tt h₄,
    )

-- The evidence of the manifest
pub evidence_lem :
    (files : Evidence) (private_path exposed_secret firmware_name : String → Bool)
    (manifest : Fields) (scenarios : List String) (table : Table)
    → verify_evidence files private_path exposed_secret firmware_name manifest scenarios ≡ ok table
    → (entries : List Fields) × Objects (get manifest "evidence") entries
      × All (IsKept entries) table
unfolding verify_evidence
evidence_lem files p e f manifest scenarios table h =
    let (entries, there, h₁) = split_ok (object_list (get manifest "evidence")) _ h in
    let (taken, each, h₂) = split_ok (check_each files p e f scenarios [] entries) _ h₁ in
    let (x, h₃) =
      unless_rejected
        (not (
          has_kind files p e f taken "sanitized-log"
          && has_kind files p e f taken "measurement"
          && has_kind files p e f taken "summary"))
        _ _ h₂ in
    let same : taken ≡ table = cc in
    (
      entries,
      object_list_lem (get manifest "evidence") entries there,
      subst (All (IsKept entries)) same
          (each_lem files p e f entries scenarios [] entries taken (All-self entries) tt each),
    )
