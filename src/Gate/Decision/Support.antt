-- ===== src/Gate/Decision/Support.antt =====
-- What the gate has established when it accepts (scripts/validation_gate.py).
use hp_lj_1020_driver.Base.{
  ◌≡◌, ◌≢◌, sym, ap, ◌∙◌, String, Bool, true, false, not, ◌&&◌, ◌||◌, Option, List, [], ◌∷◌, All,
  all, elem, is_empty,
}
use hp_lj_1020_driver.Base.Prog.{ok}
use hp_lj_1020_driver.Base.Checked.{split_ok}
use hp_lj_1020_driver.Base.Json.{Json, null, boolean, number, string, array, object, Fields, get}
use hp_lj_1020_driver.Base.Json.Order.{json_eq}
use hp_lj_1020_driver.Gate.Values.{
  is_true, texts, says, sha, commit, is_full_text, in_set, check_redacted, is_subset, object_list,
  check_environment,
}
use hp_lj_1020_driver.Gate.Passed.{unless_rejected, true_unless, neither}
use hp_lj_1020_driver.Gate.Rows.{Table, lookup, row_names, milestones, scenario_map}
use hp_lj_1020_driver.Gate.Evidence.{verify_evidence}
use hp_lj_1020_driver.Gate.Evidence.Vouched.{IsVouched, verify_evidence-All}
use hp_lj_1020_driver.Gate.Judge.{check_results, object_or}
use hp_lj_1020_driver.Gate.Listed.{
  IsIn, All-self, Objects, object_list_lem, AllPassed, says_lem, is_true_lem, lookup_lem,
  in_set_lem,
}
use hp_lj_1020_driver.Gate.Tables.{IsNamed, IsKept, scenarios_lem, results_lem, evidence_lem}
use hp_lj_1020_driver.Gate.Decision.{
  verified_pair, check_outcomes, check_surroundings, check_current, check_pointers, Surroundings,
  is_path, check_claim, check_claims, check_schemas, check_seal, check_identities, scopes_of, judge,
  judge_all, decide, validate_gate,
}
use hp_lj_1020_driver.Gate.Decision.Scenario.{
  pair_lem, outcomes_lem, environment_lem, SameSurroundings, surroundings_lem, IsCurrent,
  current_lem, HasEvidence, evidence_there,
}

-- The manifest is redacted, passed and sealed, and its environment is no virtual machine.
abbrev pub IsSealed : Fields → Fields → Type 0
IsSealed manifest environment =
    (get manifest "redacted" ≡ boolean true)
    × (get manifest "result" ≡ string "passed")
    × (get manifest "sealed" ≡ boolean true)
    × (get manifest "environment" ≡ object environment)
    × (get environment "kind" ≢ string "supplementary-vm")

object_or_lem :
    (v : Json) (message : String) (fields : Fields)
    → object_or v message ≡ ok fields
    → v ≡ object fields
object_or_lem (object fs) message fields h = let e : fs ≡ fields = cc in ap object e
object_or_lem null message fields h = cc
object_or_lem (boolean b) message fields h = cc
object_or_lem (number x) message fields h = cc
object_or_lem (string t) message fields h = cc
object_or_lem (array xs) message fields h = cc

no_machine : (v : Json) → says v "supplementary-vm" ≡ false → v ≢ string "supplementary-vm"
unfolding json_eq
no_machine v h e = let bad : true ≡ false = sym (ap (λ u. says u "supplementary-vm") e) ∙ h in cc

module _ (at : Surroundings) where
  seal_lem :
      (manifest : Fields) (claims : List Fields) (environment : Fields) (paths : List String)
      → check_seal at manifest claims ≡ ok (environment, paths)
      → IsSealed manifest environment
  unfolding check_seal
  seal_lem manifest claims environment paths h =
      let redacted : Bool = is_true (get manifest "redacted") in
      let passed : Bool = says (get manifest "result") "passed" in
      let sealed : Bool = is_true (get manifest "sealed") in
      let (clean, h₁) = unless_rejected (not redacted) _ _ h in
      let (x, h₂) = unless_rejected (not (is_empty claims) && not (passed && sealed)) _ _ h₁ in
      let (fine, h₃) = unless_rejected (not passed || not sealed) _ _ h₂ in
      let (good, shut) = neither (not passed) (not sealed) fine in
      let (found, valid, h₄) = split_ok (check_environment (get manifest "environment")) _ h₃ in
      let (real, h₅) = unless_rejected (says (get found "kind") "supplementary-vm") _ _ h₄ in
      let (y, h₆) =
        unless_rejected (not (is_empty claims) && not (says (get found "kind") "reference-mac")) _ _
          h₅ in
      let (listed, texts_there, h₇) = split_ok (texts (get found "connectionPaths") _) _ h₆ in
      let (z, h₈) = unless_rejected (not (all (λ s. is_path (string s)) listed)) _ _ h₇ in
      let same : found ≡ environment = cc in
      (
        is_true_lem (get manifest "redacted") (true_unless _ clean),
        says_lem (get manifest "result") "passed" (true_unless _ good),
        is_true_lem (get manifest "sealed") (true_unless _ shut),
        environment_lem (get manifest "environment") environment (valid ∙ ap ok same),
        no_machine (get environment "kind") (rw (sym same) real),
      )

  -- What stands behind a required scenario: a row of the matrix and a result of the manifest
  abbrev pub IsSupported :
      Fields → Fields → Fields → Fields → List Fields → List Fields → List Fields → String → Type 0
  IsSupported manifest manifest_scopes matrix_scopes environment rows listed entries name =
      (row : Fields) × (result : Fields) × IsNamed rows (name, row)
      × IsNamed listed (name, result)
      × (get row "state" ≡ string "verified")
      × (get result "state" ≡ string "verified")
      × AllPassed row
      × AllPassed result
      × SameSurroundings environment row
      × IsCurrent manifest manifest_scopes matrix_scopes row
      × HasEvidence at.evidence at.private_path at.exposed_secret at.firmware_name entries name row
          result

  module _ (manifest manifest_scopes matrix_scopes environment : Fields)
      (rows listed entries : List Fields) (scenarios results evidence : Table)
      (in_rows : All (IsNamed rows) scenarios) (in_listed : All (IsNamed listed) results)
      (in_entries : All (IsKept entries) evidence)
      (vouched : All
        (IsVouched at.evidence at.private_path at.exposed_secret at.firmware_name)
        evidence) where
    judge_lem :
        (paths : List String) (name : String)
        → judge at manifest manifest_scopes matrix_scopes environment paths scenarios results
            evidence name
          ≡ ok tt
        → IsSupported manifest manifest_scopes matrix_scopes environment rows listed entries name
    unfolding judge verified_pair
    judge_lem paths name h =
        let (pair, verified, h₁) = split_ok (verified_pair scenarios results name) _ h in
        let (row, result) = pair in
        let (x, tried, h₂) = split_ok (check_outcomes row result) _ h₁ in
        let (y, placed, h₃) = split_ok (check_surroundings manifest environment paths row) _ h₂ in
        let (z, current, h₄) =
          split_ok (check_current manifest manifest_scopes matrix_scopes row) _ h₃ in
        let (w, pointed, h₅) = split_ok (check_pointers evidence name row result) _ h₄ in
        let (row_there, result_there, row_good, result_good) =
          pair_lem (lookup scenarios name) (lookup results name) row result verified in
        let (row_passed, result_passed) = outcomes_lem row result tried in
        (
          row,
          result,
          lookup_lem (IsNamed rows) scenarios name row in_rows row_there,
          lookup_lem (IsNamed listed) results name result in_listed result_there,
          says_lem (get row "state") "verified" row_good,
          says_lem (get result "state") "verified" result_good,
          row_passed,
          result_passed,
          surroundings_lem manifest environment paths row placed,
          current_lem manifest manifest_scopes matrix_scopes row current,
          evidence_there at.evidence at.private_path at.exposed_secret at.firmware_name entries
              evidence name row result in_entries vouched pointed,
        )

    judge_all_lem :
        (paths : List String) (names : List String)
        → judge_all at manifest manifest_scopes matrix_scopes environment paths scenarios results
            evidence names
          ≡ ok tt
        → All
            (IsSupported manifest manifest_scopes matrix_scopes environment rows listed entries)
            names
    unfolding judge_all
    judge_all_lem paths [] h = tt
    judge_all_lem paths (name ∷ names) h =
        let (x, one, rest) =
          split_ok
            (judge at manifest manifest_scopes matrix_scopes environment paths scenarios results
              evidence name)
            _ h in
        (judge_lem paths name one, judge_all_lem paths names rest)

  -- A claim is about a required scenario.
  abbrev pub IsGated : List String → Fields → Type 0
  IsGated required claim =
      (name : String) × IsIn name required × (get claim "scenarioId" ≡ string name)

  claims_lem :
      (required : List String) (results : Table) (claims : List Fields)
      → check_claims required results claims ≡ ok tt
      → All (IsGated required) claims
  claims_lem required results [] h = tt
  claims_lem required results (claim ∷ claims) h =
      let (x, one, rest) = split_ok (check_claim required results claim) _ h in
      let (gated, there, h₁) = split_ok (in_set (get claim "scenarioId") required) _ one in
      let (fine, h₂) =
        unless_rejected (not gated || not (is_full_text (get claim "statement"))) _ _ h₁ in
      let (inside, said) = neither (not gated) _ fine in
      (
        in_set_lem (get claim "scenarioId") required (there ∙ ap ok (true_unless gated inside)),
        claims_lem required results claims rest,
      )

  -- The scopes of the manifest
  identities_lem :
      (document : Json) (manifest : Fields) (matrix_sha256 : Option String) (scopes : Fields)
      → check_identities at document manifest matrix_sha256 ≡ ok scopes
      → get manifest "scopeIdentities" ≡ object scopes
  unfolding check_identities
  identities_lem document manifest matrix_sha256 scopes h =
      let (recorded, x, h₁) = split_ok (sha (get manifest "capabilityMatrixSha256")) _ h in
      let (x, y, h₂) = split_ok (commit (get manifest "sourceCommit")) _ h₁ in
      let (x, y, h₃) = split_ok (commit (get manifest "specificationCommit")) _ h₂ in
      let (x, y, h₄) = split_ok (sha (get manifest "dependencyLockSha256")) _ h₃ in
      let (x, y, h₅) = split_ok (sha (get manifest "buildManifestSha256")) _ h₄ in
      let (x, h₆) = unless_rejected _ _ _ h₅ in
      object_or_lem (get manifest "scopeIdentities") _ scopes h₆

  -- What the gate has established of a matrix and a manifest.
  abbrev pub Establishes : Fields → Fields → List String → Type 0
  Establishes matrix manifest required =
      (environment : Fields) × IsSealed manifest environment
      × (manifest_scopes : Fields) × (get manifest "scopeIdentities" ≡ object manifest_scopes)
      × (matrix_scopes : Fields) × (get matrix "scopeIdentities" ≡ object matrix_scopes)
      × (rows : List Fields) × Objects (get matrix "scenarios") rows
      × (listed : List Fields) × Objects (get manifest "scenarioResults") listed
      × (entries : List Fields) × Objects (get manifest "evidence") entries
      × All (IsSupported manifest manifest_scopes matrix_scopes environment rows listed entries)
          required
      × (claims : List Fields) × Objects (get manifest "supportClaims") claims
      × All (IsGated required) claims

  decide_lem :
      (document : Json) (matrix manifest : Fields) (known required : List String)
      (matrix_sha256 : Option String)
      → decide at document matrix manifest known required matrix_sha256 ≡ ok tt
      → Establishes matrix manifest required
  unfolding decide
  decide_lem document matrix manifest known required matrix_sha256 h =
      let (scenarios, mapped, h₁) = split_ok (scenario_map matrix known) _ h in
      let (inside, h₂) = unless_rejected (not (is_subset required (row_names scenarios))) _ _ h₁ in
      let (claims, claimed, h₃) = split_ok (object_list (get manifest "supportClaims")) _ h₂ in
      let (pair, sealed, h₄) = split_ok (check_seal at manifest claims) _ h₃ in
      let (environment, paths) = pair in
      let (manifest_scopes, identified, h₅) =
        split_ok (check_identities at document manifest matrix_sha256) _ h₄ in
      let (listed, there, h₆) = split_ok (object_list (get manifest "scenarioResults")) _ h₅ in
      let (results, checked, h₇) = split_ok (check_results scenarios known [] listed) _ h₆ in
      let (evidence, vouched, h₈) =
        split_ok
          (verify_evidence at.evidence at.private_path at.exposed_secret at.firmware_name manifest
            (row_names scenarios))
          _ h₇ in
      let (matrix_scopes, scoped, h₉) =
        split_ok (scopes_of matrix "capability matrix has no scope identities") _ h₈ in
      let (x, judged, gated) =
        split_ok
          (judge_all at manifest manifest_scopes matrix_scopes environment paths scenarios results
            evidence required)
          _ h₉ in
      let (rows, in_matrix, in_rows) = scenarios_lem matrix known scenarios mapped in
      let (entries, in_manifest, in_entries) =
        evidence_lem at.evidence at.private_path at.exposed_secret at.firmware_name manifest
          (row_names scenarios) evidence vouched in
      (
        environment,
        seal_lem manifest claims environment paths sealed,
        manifest_scopes,
        identities_lem document manifest matrix_sha256 manifest_scopes identified,
        matrix_scopes,
        object_or_lem (get matrix "scopeIdentities") _ matrix_scopes scoped,
        rows,
        in_matrix,
        listed,
        object_list_lem (get manifest "scenarioResults") listed there,
        entries,
        in_manifest,
        judge_all_lem manifest manifest_scopes matrix_scopes environment rows listed entries
            scenarios results evidence in_rows
            (results_lem listed scenarios known [] listed results (All-self listed) tt checked)
            in_entries
            (verify_evidence-All at.evidence at.private_path at.exposed_secret at.firmware_name
              manifest (row_names scenarios) evidence vouched)
            paths required judged,
        claims,
        object_list_lem (get manifest "supportClaims") claims claimed,
        claims_lem required results claims gated,
      )

  -- If the gate accepts, then the manifest is marked redacted and sealed, has passed, and comes from an
  -- environment that is no virtual machine. For every required scenario the matrix has a row and the
  -- manifest a result with its identifier, both in the state `verified` and with passed attempts only;
  -- the row is not invalidated, and its kind of environment, macOS version and build, architecture,
  -- affected scopes, source and dependencies are those of the manifest; the result names at least one
  -- digest, under each of which the manifest has evidence that names the scenario, is marked
  -- immutable, passed and reviewed, and whose file is in the evidence root, has that digest and cannot
  -- be written; and the row names no other digest. Every claim is about a required scenario.
  pub validate_gate_supported :
      (matrix manifest : Fields) (known required : List String) (milestone : String)
      (matrix_sha256 : Option String)
      → validate_gate at (object matrix) (object manifest) known required milestone matrix_sha256
        ≡ ok tt
      → Establishes matrix manifest required
  unfolding validate_gate
  validate_gate_supported matrix manifest known required milestone matrix_sha256 h =
      let (named, h₁) = unless_rejected (not (elem milestone milestones)) _ _ h in
      let (x, shaped, h₂) = split_ok (check_schemas at (object matrix) (object manifest)) _ h₁ in
      let (y, redacted, h₃) =
        split_ok
          (check_redacted at.private_path at.exposed_secret at.firmware_name (object manifest)) _
          h₂ in
      decide_lem (object matrix) matrix manifest known required matrix_sha256 h₃
