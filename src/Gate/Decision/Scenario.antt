-- ===== src/Gate/Decision/Scenario.antt =====
-- What stands behind a scenario whose checks passed (scripts/validation_gate.py).
use hp_lj_1020_driver.Base.{
  ◌≡◌, ◌≢◌, sym, ap, ◌∙◌, String, Bool, true, false, not, ◌&&◌, ◌||◌, Option, none, some, List, [],
  ◌∷◌, All, all, any, is_empty,
}
use mathlib.Core.Path.{subst}
use hp_lj_1020_driver.Base.Prog.{ok}
use hp_lj_1020_driver.Base.Checked.{split_ok}
use hp_lj_1020_driver.Base.Json.{
  Json, null, boolean, number, string, array, object, Items, item, Fields, get,
}
use hp_lj_1020_driver.Base.Json.Order.{json_eq}
use hp_lj_1020_driver.Schema.Members.{is_truthy}
use hp_lj_1020_driver.Gate.Values.{index, says, is_full_text, in_set, is_subset, check_environment}
use hp_lj_1020_driver.Gate.Passed.{unless_rejected, accepted_if, true_unless, both, neither}
use hp_lj_1020_driver.Gate.Rows.{Table, lookup, row_names}
use hp_lj_1020_driver.Gate.Judge.{
  attempts_of, texts_at, has_failed, same_scopes, same_field, binds, is_picture, pointers_of,
}
use hp_lj_1020_driver.Gate.Evidence.{Evidence}
use hp_lj_1020_driver.Gate.Evidence.Vouched.{IsVouched}
use hp_lj_1020_driver.Gate.Listed.{
  IsIn, AllPassed, all_passed_lem, index_lem, Texts, texts_at_lem, pointers_lem, Names, binds_lem,
  lookup_lem, subset_lem,
}
use hp_lj_1020_driver.Gate.Tables.{IsKept}
use hp_lj_1020_driver.Gate.Decision.{
  pair_of, check_outcomes, same_surroundings, check_surroundings, check_current, check_pointers,
}

pub pair_lem :
    (a b : Option Fields) (row result : Fields)
    → pair_of a b ≡ ok (row, result)
    → (a ≡ some row)
      × (b ≡ some result)
      × (says (get row "state") "verified" ≡ true)
      × (says (get result "state") "verified" ≡ true)
pair_lem none b row result h = cc
pair_lem (some r) none row result h = cc
pair_lem (some r) (some s) row result h =
    let (stated, same) =
      unless_rejected (not (says (get r "state") "verified" && says (get s "state") "verified")) _ _
        h in
    let (one, two) =
      both (says (get r "state") "verified") (says (get s "state") "verified")
        (true_unless _ stated) in
    let first : r ≡ row = cc in
    let second : s ≡ result = cc in
    (ap some first, ap some second, rw (sym first) one, rw (sym second) two)

pub outcomes_lem :
    (row result : Fields) → check_outcomes row result ≡ ok tt → AllPassed row × AllPassed result
unfolding check_outcomes
outcomes_lem row result h =
    let (tries, there, h₁) = split_ok (attempts_of row) _ h in
    let (passed, h₂) = unless_rejected (has_failed tries) _ _ h₁ in
    let (tries', there', h₃) = split_ok (attempts_of result) _ h₂ in
    (
      all_passed_lem row tries there passed,
      all_passed_lem result tries' there' (accepted_if (has_failed tries') _ h₃),
    )

pub environment_lem :
    (v : Json) (environment : Fields)
    → check_environment v ≡ ok environment
    → v ≡ object environment
unfolding check_environment
environment_lem (object fields) environment h =
    let (known, x, h₁) =
      split_ok
        (in_set (get fields "kind")
          ("hosted-ci" ∷ "local-host" ∷ "reference-mac" ∷ "supplementary-vm" ∷ []))
        _ h in
    let (x, h₂) = unless_rejected (not known) _ _ h₁ in
    let (x, h₃) = unless_rejected (not (is_full_text (get fields "macOSVersion"))) _ _ h₂ in
    let (x, h₄) = unless_rejected (not (is_full_text (get fields "macOSBuild"))) _ _ h₃ in
    let (x, h₅) = unless_rejected (not (says (get fields "architecture") "arm64")) _ _ h₄ in
    let same : fields ≡ environment = cc in ap object same
environment_lem null environment h = cc
environment_lem (boolean b) environment h = cc
environment_lem (number x) environment h = cc
environment_lem (string s) environment h = cc
environment_lem (array xs) environment h = cc

-- Python's `==`
abbrev pub Equal : Json → Json → Type 0
Equal a b = json_eq a b ≡ true

-- The environment of the row is that of the manifest.
abbrev pub SameSurroundings : Fields → Fields → Type 0
SameSurroundings environment row =
    (recorded : Fields) × (get row "environment" ≡ object recorded)
    × Equal (get recorded "kind") (get environment "kind")
    × Equal (get recorded "macOSVersion") (get environment "macOSVersion")
    × Equal (get recorded "macOSBuild") (get environment "macOSBuild")
    × Equal (get recorded "architecture") (get environment "architecture")

pub surroundings_lem :
    (manifest environment : Fields) (paths : List String) (row : Fields)
    → check_surroundings manifest environment paths row ≡ ok tt
    → SameSurroundings environment row
unfolding check_surroundings
surroundings_lem manifest environment paths row h =
    let (value, there, h₁) = split_ok (index row "environment") _ h in
    let (recorded, valid, h₂) = split_ok (check_environment value) _ h₁ in
    let (same, h₃) = unless_rejected (not (same_surroundings recorded environment)) _ _ h₂ in
    let (kind, rest₁) = both (same_field recorded environment "kind") _ (true_unless _ same) in
    let (version, rest₂) = both (same_field recorded environment "macOSVersion") _ rest₁ in
    let (build, rest₃) = both (same_field recorded environment "macOSBuild") _ rest₂ in
    let (architecture, rest₄) = both (same_field recorded environment "architecture") _ rest₃ in
    (
      recorded,
      index_lem row "environment" value there ∙ environment_lem value recorded valid,
      kind,
      version,
      build,
      architecture,
    )

-- Each affected scope has the same identity in the manifest as in the matrix.
abbrev pub SameScope : Fields → Fields → String → Type 0
SameScope manifest_scopes matrix_scopes scope =
    Equal (get manifest_scopes scope) (get matrix_scopes scope)

scopes_lem :
    (manifest_scopes matrix_scopes : Fields) (scopes : List String)
    → same_scopes manifest_scopes matrix_scopes scopes ≡ ok tt
    → All (SameScope manifest_scopes matrix_scopes) scopes
scopes_lem manifest_scopes matrix_scopes [] h = tt
scopes_lem manifest_scopes matrix_scopes (scope ∷ scopes) h =
    let (current, there, h₁) = split_ok (index matrix_scopes scope) _ h in
    let (same, h₂) = unless_rejected (not (json_eq (get manifest_scopes scope) current)) _ _ h₁ in
    (
      subst (λ v. Equal (get manifest_scopes scope) v)
          (sym (index_lem matrix_scopes scope current there)) (true_unless _ same),
      scopes_lem manifest_scopes matrix_scopes scopes h₂,
    )

-- The row was not invalidated, and was taken from the scopes, source and dependencies of the manifest.
abbrev pub IsCurrent : Fields → Fields → Fields → Fields → Type 0
IsCurrent manifest manifest_scopes matrix_scopes row =
    ((x : Json) (xs : Items) → get row "invalidatedBy" ≢ array (item x xs))
    × ((affected : List String) × Texts (get row "affectedScopes") affected
        × All (SameScope manifest_scopes matrix_scopes) affected)
    × Equal (get row "sourceCommit") (get manifest "sourceCommit")
    × Equal (get row "dependencyLockSha256") (get manifest "dependencyLockSha256")

not_invalidated : (v : Json) (x : Json) (xs : Items) → is_truthy v ≡ false → v ≢ array (item x xs)
not_invalidated v x xs h e = let bad : true ≡ false = sym (ap is_truthy e) ∙ h in cc

pub current_lem :
    (manifest manifest_scopes matrix_scopes row : Fields)
    → check_current manifest manifest_scopes matrix_scopes row ≡ ok tt
    → IsCurrent manifest manifest_scopes matrix_scopes row
unfolding check_current
current_lem manifest manifest_scopes matrix_scopes row h =
    let (invalidations, there₁, h₁) = split_ok (index row "invalidatedBy") _ h in
    let (none_known, h₂) = unless_rejected (is_truthy invalidations) _ _ h₁ in
    let (affected, there₂, h₃) = split_ok (texts_at row "affectedScopes") _ h₂ in
    let (x, same, h₄) = split_ok (same_scopes manifest_scopes matrix_scopes affected) _ h₃ in
    let (source, there₃, h₅) = split_ok (index row "sourceCommit") _ h₄ in
    let (same_source, h₆) =
      unless_rejected (not (json_eq source (get manifest "sourceCommit"))) _ _ h₅ in
    let (lock, there₄, h₇) = split_ok (index row "dependencyLockSha256") _ h₆ in
    (
      (λ x xs.
          not_invalidated (get row "invalidatedBy") x xs
            (ap is_truthy (index_lem row "invalidatedBy" invalidations there₁) ∙ none_known)),
      (
        affected,
        texts_at_lem row "affectedScopes" affected there₂,
        scopes_lem manifest_scopes matrix_scopes affected same,
      ),
      subst (λ v. Equal v (get manifest "sourceCommit"))
          (sym (index_lem row "sourceCommit" source there₃)) (true_unless _ same_source),
      subst (λ v. Equal v (get manifest "dependencyLockSha256"))
          (sym (index_lem row "dependencyLockSha256" lock there₄))
          (true_unless _
            (accepted_if (not (json_eq lock (get manifest "dependencyLockSha256"))) _ h₇)),
    )

module _ (files : Evidence) (private_path exposed_secret firmware_name : String → Bool) where
  -- A digest under which the manifest has a piece of evidence whose file was checked, and which
  -- names the scenario
  abbrev pub IsBacked : List Fields → String → String → Type 0
  IsBacked entries name digest =
      (entry : Fields) × IsIn entry entries
      × IsVouched files private_path exposed_secret firmware_name (digest, entry)
      × Names name entry

  backed_lem :
      (entries : List Fields) (evidence : Table) (name : String) (digests : List String)
      → All (IsKept entries) evidence
      → All (IsVouched files private_path exposed_secret firmware_name) evidence
      → all (binds evidence name) digests ≡ true
      → All (IsBacked entries name) digests
  backed_lem entries evidence name [] kept vouched h = tt
  backed_lem entries evidence name (digest ∷ digests) kept vouched h =
      let (first, rest) = both (binds evidence name digest) _ h in
      let (entry, there, names) = binds_lem name (lookup evidence digest) first in
      (
        (
          entry,
          lookup_lem (IsKept entries) evidence digest entry kept there,
          lookup_lem (IsVouched files private_path exposed_secret firmware_name) evidence digest
              entry vouched there,
          names,
        ),
        backed_lem entries evidence name digests kept vouched rest,
      )

  -- The result points to evidence, at least one, all of it backed, and the row to no other.
  abbrev pub HasEvidence : List Fields → String → Fields → Fields → Type 0
  HasEvidence entries name row result =
      (digests : List String) × Texts (get result "evidenceSha256") digests
      × (digests ≢ [])
      × All (IsBacked entries name) digests
      × ((listed : List String) × Texts (get row "evidence") listed
          × All (λ digest. IsIn digest digests) listed)

  not_empty : (digests : List String) → is_empty digests ≡ false → digests ≢ []
  not_empty [] h = cc
  not_empty (d ∷ ds) h = λ e. cc

  pub evidence_there :
      (entries : List Fields) (evidence : Table) (name : String) (row result : Fields)
      → All (IsKept entries) evidence
      → All (IsVouched files private_path exposed_secret firmware_name) evidence
      → check_pointers evidence name row result ≡ ok tt
      → HasEvidence entries name row result
  unfolding check_pointers
  evidence_there entries evidence name row result kept vouched h =
      let (digests, there, h₁) = split_ok (pointers_of (get result "evidenceSha256")) _ h in
      let (known, h₂) =
        unless_rejected (is_empty digests || not (is_subset digests (row_names evidence))) _ _ h₁ in
      let (some_there, inside) = neither (is_empty digests) _ known in
      let (bound, h₃) = unless_rejected (not (all (binds evidence name) digests)) _ _ h₂ in
      let (pictured, there', h₄) = split_ok (index row "requiresArtifactEvidence") _ h₃ in
      let (shown, h₅) =
        unless_rejected (is_truthy pictured && not (any (is_picture evidence) digests)) _ _ h₄ in
      let (listed, there'', h₆) = split_ok (texts_at row "evidence") _ h₅ in
      (
        digests,
        pointers_lem (get result "evidenceSha256") digests there,
        not_empty digests some_there,
        backed_lem entries evidence name digests kept vouched (true_unless _ bound),
        (
          listed,
          texts_at_lem row "evidence" listed there'',
          subset_lem listed digests
              (true_unless _ (accepted_if (not (is_subset listed digests)) _ h₆)),
        ),
      )
