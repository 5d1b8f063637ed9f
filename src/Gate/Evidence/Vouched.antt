-- ===== src/Gate/Evidence/Vouched.antt =====
-- What `_verify_evidence` has seen of each file (scripts/validation_gate.py).
use hp_lj_1020_driver.Base.{
  ◌≡◌, sym, ap, ◌∙◌, String, Bool, true, false, not, ◌&&◌, ◌||◌, List, [], ◌∷◌, ◌++◌, All, elem,
  is_empty, str_eq, starts_with, if◌then◌else◌,
}
use hp_lj_1020_driver.Base.Text.{is_nonempty}
use hp_lj_1020_driver.Base.Prog.{ok, err}
use hp_lj_1020_driver.Base.Checked.{split_ok}
use hp_lj_1020_driver.Base.Json.{Json, null, boolean, number, string, array, object, Fields, get}
use hp_lj_1020_driver.Schema.Reference.{split_slash}
use hp_lj_1020_driver.Gate.Values.{
  invalid, is_true, says, sha, object_list, texts, is_subset, in_set,
}
use hp_lj_1020_driver.Gate.Passed.{unless_rejected, true_unless, both}
use hp_lj_1020_driver.Gate.Rows.{Table, row_names}
use hp_lj_1020_driver.Gate.Evidence.{
  Evidence, relative_path, kinds, check_kind, check_file, check_evidence, check_each, has_kind,
  verify_evidence,
}

pub All-snoc {ℓ κ} :
    {A : Type ℓ} (P : A → Type κ) (xs : List A) (x : A) → All P xs → P x → All P (xs ++ (x ∷ []))
All-snoc P [] x h p = (p, tt)
All-snoc P (y ∷ ys) x (q, h) p = (q, All-snoc P ys x h p)

chosen :
    (b c : Bool) (d e : String) (s path : String)
    → (if b then err (invalid d) else if c then err (invalid e) else ok s) ≡ ok path
    → s ≡ path
chosen true c d e s path h = cc
chosen false true d e s path h = cc
chosen false false d e s path h = cc

relative_lem : (value : Json) (path : String) → relative_path value ≡ ok path → value ≡ string path
relative_lem (string s) path h =
    ap string
      (chosen (not (is_nonempty s)) (starts_with s "/" || elem ".." (split_slash s)) _ _ s path h)
relative_lem null path h = cc
relative_lem (boolean b) path h = cc
relative_lem (number x) path h = cc
relative_lem (array xs) path h = cc
relative_lem (object fs) path h = cc

module _ (files : Evidence) (private_path exposed_secret firmware_name : String → Bool) where
  -- A piece of evidence as the manifest gives it, under its digest: marked immutable, passed and
  -- reviewed; and its file is in the root, has that digest, and nobody may write it.
  abbrev pub IsVouched : String × Fields → Type 0
  IsVouched (digest, evidence) =
      (path : String) × (get evidence "path" ≡ string path)
      × (sha (get evidence "sha256") ≡ ok digest)
      × (is_true (get evidence "immutable") ≡ true)
      × (says (get evidence "result") "passed" ≡ true)
      × (is_true (get evidence "privacyChecked") ≡ true)
      × (files.is_inside path ≡ true)
      × (files.is_file path ≡ true)
      × (str_eq (files.digest path) digest ≡ true)
      × (files.is_writable path ≡ false)

  file_lem :
      (path digest : String)
      → check_file files private_path exposed_secret firmware_name path digest ≡ ok tt
      → (files.is_inside path ≡ true)
        × (files.is_file path ≡ true)
        × (str_eq (files.digest path) digest ≡ true)
        × (files.is_writable path ≡ false)
  unfolding check_file
  file_lem path digest h =
      let (inside, h₁) = unless_rejected (not (files.is_inside path)) _ _ h in
      let (same, h₂) =
        unless_rejected (not (files.is_file path && str_eq (files.digest path) digest)) _ _ h₁ in
      let (there, equal) = both (files.is_file path) _ (true_unless _ same) in
      let (fixed, h₃) = unless_rejected (files.is_writable path) _ _ h₂ in
      (true_unless _ inside, there, equal, fixed)

  evidence_lem :
      (scenarios : List String) (before : Table) (evidence : Fields) (digest : String)
      → check_evidence files private_path exposed_secret firmware_name scenarios before evidence
        ≡ ok digest
      → IsVouched (digest, evidence)
  unfolding check_evidence
  evidence_lem scenarios before evidence digest h =
      let (path, at, h₁) = split_ok (relative_path (get evidence "path")) _ h in
      let (sum, summed, h₂) = split_ok (sha (get evidence "sha256")) _ h₁ in
      let (fixed, h₃) = unless_rejected (not (is_true (get evidence "immutable"))) _ _ h₂ in
      let (passed, h₄) = unless_rejected (not (says (get evidence "result") "passed")) _ _ h₃ in
      let (reviewed, h₅) = unless_rejected (not (is_true (get evidence "privacyChecked"))) _ _ h₄ in
      let (bindings, bound, h₆) = split_ok (texts (get evidence "scenarioIds") _) _ h₅ in
      let (x, h₇) = unless_rejected (is_empty bindings) _ _ h₆ in
      let (y, h₈) = unless_rejected (not (is_subset bindings scenarios)) _ _ h₇ in
      let (z, checked, h₉) =
        split_ok (check_file files private_path exposed_secret firmware_name path sum) _ h₈ in
      let (known, of_kind, h₁₀) = split_ok (in_set (get evidence "kind") kinds) _ h₉ in
      let (u, h₁₁) = unless_rejected (not known) _ _ h₁₀ in
      let (v, fits, h₁₂) =
        split_ok
          (check_kind files private_path exposed_secret firmware_name path bindings
            (get evidence "kind"))
          _ h₁₁ in
      let (w, h₁₃) = unless_rejected (elem sum (row_names before)) _ _ h₁₂ in
      let same : sum ≡ digest = cc in
      let (inside, there, equal, shut) = file_lem path sum checked in
      (
        path,
        relative_lem (get evidence "path") path at,
        summed ∙ ap ok same,
        true_unless _ fixed,
        true_unless _ passed,
        true_unless _ reviewed,
        inside,
        there,
        rw (sym same) equal,
        shut,
      )

  each_lem :
      (scenarios : List String) (before : Table) (listed : List Fields) (table : Table)
      → All IsVouched before
      → check_each files private_path exposed_secret firmware_name scenarios before listed
        ≡ ok table
      → All IsVouched table
  unfolding check_each
  each_lem scenarios before [] table known h = let same : before ≡ table = cc in rw (sym same) known
  each_lem scenarios before (evidence ∷ rest) table known h =
      let (digest, checked, h₁) =
        split_ok
          (check_evidence files private_path exposed_secret firmware_name scenarios before evidence)
          _ h in
      each_lem scenarios (before ++ ((digest, evidence) ∷ [])) rest table
        (All-snoc IsVouched before (digest, evidence) known
          (evidence_lem scenarios before evidence digest checked))
        h₁

  -- The evidence that the verification accepts, each piece under its digest, is marked immutable,
  -- passed and reviewed, and its file is in the evidence root, has that digest, and nobody may
  -- write it.
  pub verify_evidence-All :
      (manifest : Fields) (scenarios : List String) (table : Table)
      → verify_evidence files private_path exposed_secret firmware_name manifest scenarios
        ≡ ok table
      → All IsVouched table
  unfolding verify_evidence
  verify_evidence-All manifest scenarios table h =
      let (listed, there, h₁) = split_ok (object_list (get manifest "evidence")) _ h in
      let (taken, each, h₂) =
        split_ok (check_each files private_path exposed_secret firmware_name scenarios [] listed) _
          h₁ in
      let (kinds_there, h₃) =
        unless_rejected
          (not (
            has_kind files private_path exposed_secret firmware_name taken "sanitized-log"
            && has_kind files private_path exposed_secret firmware_name taken "measurement"
            && has_kind files private_path exposed_secret firmware_name taken "summary"))
          _ _ h₂ in
      let same : taken ≡ table = cc in rw (sym same) (each_lem scenarios [] listed taken tt each)
