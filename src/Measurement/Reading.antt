-- ===== src/Measurement/Reading.antt =====
-- The checks of `validate_measurement` that raise (scripts/output_measurement.py), in the order of
-- the source, and the values that they pass on to the criteria.
use Prim.Native.Nat.{◌^◌}
use hp_lj_1020_driver.Base.{
  ℕ, suc, ◌-◌, ◌<>◌, String, Bool, true, false, not, ◌&&◌, ◌||◌, Option, none, some, List, [], ◌∷◌,
  ◌++◌, ltb, leb, ◌==◌, length, any, all, keep, elem, is_empty, starts_with, str_eq, if◌then◌else◌,
}
use hp_lj_1020_driver.Base.Text.{codes, join, is_nonempty}
use hp_lj_1020_driver.Base.Prog.{Outcome, ok, err}
use hp_lj_1020_driver.Base.Checked.{◌>>=◌, ◌>>◌}
use hp_lj_1020_driver.Base.Json.{
  Number, whole, Json, boolean, number, string, array, object, Items, end, item, Fields, get, keys,
}

-- `overflow_error`: `float` of an integer that is too large.
pub data Error : Type 0 where
  measurement_error : String → Error
  overflow_error : Error

abbrev pub Checked : Type 0 → Type 0
Checked A = Outcome Error A

abbrev pub reject_if : Bool → String → Checked (Unit {0})
reject_if true message = err (measurement_error message)
reject_if false message = ok tt

-- The order of texts, by code points.
abbrev codes_leb : List ℕ → List ℕ → Bool
codes_leb [] ys = true
codes_leb (x ∷ xs) [] = false
codes_leb (x ∷ xs) (y ∷ ys) = ltb x y || (x == y && codes_leb xs ys)

abbrev insert : String → List String → List String
insert s [] = s ∷ []
insert s (t ∷ ts) =
    let rest = insert s ts in if codes_leb (codes s) (codes t) then s ∷ t ∷ ts else t ∷ rest

-- `sorted(names)`
abbrev pub sorted : List String → List String
sorted [] = []
sorted (s ∷ ss) = insert s (sorted ss)

abbrev pub detail : String → List String → List String
detail kind [] = []
detail kind (n ∷ names) = (kind <> " fields " <> join ", " (sorted (n ∷ names))) ∷ []

unfoldable pub exact_fields : Fields → List String → String → Checked (Unit {0})
exact_fields value expected name =
    let unknown = keep (λ key. not (elem key expected)) (keys value) in
    let missing = keep (λ key. not (elem key (keys value))) expected in
    reject_if (not (is_empty unknown && is_empty missing))
      (name <> " has " <> join "; " (detail "unknown" unknown ++ detail "missing" missing))

unfoldable pub object_of : Json → String → Checked Fields
object_of (object fields) name = ok fields
object_of _ name = err (measurement_error (name <> " must be an object"))

-- One item of a page list: a positive integer.
abbrev pub page_number : Json → Option ℕ
page_number (number (whole (suc n))) = some (suc n)
page_number _ = none

abbrev cons_page : Option ℕ → Option (List ℕ) → Option (List ℕ)
cons_page (some page) (some pages) = some (page ∷ pages)
cons_page _ _ = none

abbrev pub page_numbers : Items → Option (List ℕ)
page_numbers end = some []
page_numbers (item x items) = cons_page (page_number x) (page_numbers items)

-- `len(set(pages)) != len(pages)`
abbrev pub has_duplicates : List ℕ → Bool
has_duplicates [] = false
has_duplicates (page ∷ pages) = any (λ other. other == page) pages || has_duplicates pages

abbrev checked_pages : Option (List ℕ) → String → Checked (List ℕ)
checked_pages none name = err (measurement_error (name <> " must contain positive page numbers"))
checked_pages (some pages) name =
    reject_if (has_duplicates pages) (name <> " contains duplicate page numbers") >> ok pages

unfoldable pub integer_list : Json → String → Checked (List ℕ)
integer_list (array items) name = checked_pages (page_numbers items) name
integer_list _ name = err (measurement_error (name <> " must contain positive page numbers"))

-- From here on an integer rounds to an infinite float.
abbrev too_large : ℕ
too_large = 2 ^ 1024 - 2 ^ 970

-- `float(value)`. An integer that fits is kept as it is: rounding it moves it across neither 0, 1
-- nor 2, which are all that it is compared with.
unfoldable pub to_float : Number → Checked Number
to_float (whole n) = if leb too_large n then err overflow_error else ok (whole n)
to_float (Number.negative n) =
    if leb too_large (suc n) then err overflow_error else ok (Number.negative n)
to_float x = ok x

unfoldable pub number_of : Json → String → Checked Number
number_of (number x) name = to_float x
number_of _ name = err (measurement_error (name <> " must be a number"))

unfoldable pub boolean_of : Json → String → Checked Bool
boolean_of (boolean b) message = ok b
boolean_of _ message = err (measurement_error message)

unfoldable pub count_from : ℕ → Json → String → Checked ℕ
count_from least (number (whole n)) message = reject_if (ltb n least) message >> ok n
count_from least _ message = err (measurement_error message)

abbrev is_text : (String → Bool) → Json → Bool
is_text p (string s) = p s
is_text p _ = false

abbrev is_hex : ℕ → Bool
is_hex c = (leb b'0' c && leb c b'9') || (leb b'a' c && leb c b'f')

abbrev is_sha256 : String → Bool
is_sha256 s = length (codes s) == 64 && all is_hex (codes s)

abbrev schema_id : String
schema_id =
    "https://bartekpapierski.github.io/HP-LJ-1020-driver/schemas/output-measurement-1.0.0.json"

abbrev document_fields : List String
document_fields =
    "$schema" ∷ "schemaVersion" ∷ "measurementId" ∷ "scenarioId" ∷ "sourceDocumentSha256"
    ∷ "measuredAt" ∷ "expected" ∷ "observed" ∷ "visualInspection" ∷ "privacy" ∷ "result" ∷ []

abbrev observed_fields : List String
observed_fields =
    "pageCount" ∷ "pageOrder" ∷ "blankPages" ∷ "partialPages" ∷ "missingPages" ∷ "duplicatePages"
    ∷ "scaleErrorPercent" ∷ "maximumFiducialDisplacementMm" ∷ "clippingInsidePrintableRegion"
    ∷ "orientationCorrect" ∷ "mediaCorrect" ∷ []

abbrev inspection_fields : List String
inspection_fields =
    "performed" ∷ "finePatternsReadable" ∷ "visibleCorruption" ∷ "densityDiscontinuity" ∷ []

abbrev privacy_fields : List String
privacy_fields =
    "documentContentsRetained" ∷ "rasterPayloadRetained" ∷ "zjStreamPayloadRetained" ∷ []

-- The document's own fields, less the result.
unfoldable pub check_identity : Fields → Checked (Unit {0})
check_identity document = do
  exact_fields document document_fields "measurement"
  reject_if
      (not (is_text (str_eq schema_id) (get document "$schema"))
        || not (is_text (str_eq "1.0.0") (get document "schemaVersion")))
      "unsupported output measurement schema"
  reject_if (not (is_text is_nonempty (get document "measurementId"))) "measurementId is required"
  reject_if (not (is_text (λ s. starts_with s "SCN-") (get document "scenarioId")))
      "scenarioId is invalid"
  reject_if (not (is_text is_sha256 (get document "sourceDocumentSha256")))
      "sourceDocumentSha256 is invalid"
  reject_if (not (is_text is_nonempty (get document "measuredAt"))) "measuredAt is required"

pub record Pages : Type 0 where
  pub expected_count : ℕ
  pub observed_count : ℕ
  pub expected_order : List ℕ
  pub observed_order : List ℕ
  pub blank : List ℕ
  pub partial : List ℕ
  pub missing : List ℕ
  pub duplicate : List ℕ

pub record Quality : Type 0 where
  pub scale_error : Number
  pub displacement : Number
  pub clipping : Bool
  pub orientation : Bool
  pub media : Bool

pub record Inspection : Type 0 where
  pub performed : Bool
  pub readable : Bool
  pub corruption : Bool
  pub discontinuity : Bool

pub record Reading : Type 0 where
  pub pages : Pages
  pub quality : Quality
  pub inspection : Inspection

unfoldable pub read_pages : Fields → Fields → Checked Pages
read_pages expected observed = do
  expected_count ← count_from 1 (get expected "pageCount") "expected page count must be positive"
  observed_count ←
      count_from 0 (get observed "pageCount") "observed page count must be non-negative"
  expected_order ← integer_list (get expected "pageOrder") "expected page order"
  observed_order ← integer_list (get observed "pageOrder") "observed page order"
  reject_if (not (length expected_order == expected_count)) "expected page count and order disagree"
  blank ← integer_list (get observed "blankPages") "blank pages"
  partial ← integer_list (get observed "partialPages") "partial pages"
  missing ← integer_list (get observed "missingPages") "missing pages"
  duplicate ← integer_list (get observed "duplicatePages") "duplicate pages"
  ok (record {
    expected_count = expected_count;
    observed_count = observed_count;
    expected_order = expected_order;
    observed_order = observed_order;
    blank = blank;
    partial = partial;
    missing = missing;
    duplicate = duplicate;
  })

unfoldable pub read_quality : Fields → Checked Quality
read_quality observed = do
  scale_error ← number_of (get observed "scaleErrorPercent") "scale error"
  displacement ← number_of (get observed "maximumFiducialDisplacementMm") "fiducial displacement"
  clipping ←
      boolean_of (get observed "clippingInsidePrintableRegion")
        "clipping inside printable region must be boolean"
  orientation ← boolean_of (get observed "orientationCorrect") "orientation must be boolean"
  media ← boolean_of (get observed "mediaCorrect") "media selection must be boolean"
  ok (record {
    scale_error = scale_error;
    displacement = displacement;
    clipping = clipping;
    orientation = orientation;
    media = media;
  })

abbrev inspected : Fields → String → Checked Bool
inspected inspection field =
    boolean_of (get inspection field) ("visual inspection " <> field <> " must be boolean")

unfoldable pub read_inspection : Json → Checked Inspection
read_inspection value = do
  inspection ← object_of value "visualInspection"
  exact_fields inspection inspection_fields "visualInspection"
  performed ← inspected inspection "performed"
  readable ← inspected inspection "finePatternsReadable"
  corruption ← inspected inspection "visibleCorruption"
  discontinuity ← inspected inspection "densityDiscontinuity"
  ok (record {
    performed = performed;
    readable = readable;
    corruption = corruption;
    discontinuity = discontinuity;
  })

abbrev is_false : Json → Bool
is_false (boolean b) = not b
is_false _ = false

unfoldable pub check_privacy : Json → Checked (Unit {0})
check_privacy value = do
  privacy ← object_of value "privacy"
  exact_fields privacy privacy_fields "privacy"
  reject_if (not (is_false (get privacy "documentContentsRetained")))
      "privacy contract forbids retaining document contents"
  reject_if (not (is_false (get privacy "rasterPayloadRetained")))
      "privacy contract forbids retaining raster payload"
  reject_if (not (is_false (get privacy "zjStreamPayloadRetained")))
      "privacy contract forbids retaining ZjStream payload"

-- All the checks but that of the result; the criteria raise nothing, so they can come after.
unfoldable pub read : Fields → Checked Reading
read document = do
  check_identity document
  expected ← object_of (get document "expected") "expected"
  observed ← object_of (get document "observed") "observed"
  exact_fields expected ("pageCount" ∷ "pageOrder" ∷ []) "expected"
  exact_fields observed observed_fields "observed"
  pages ← read_pages expected observed
  quality ← read_quality observed
  inspection ← read_inspection (get document "visualInspection")
  check_privacy (get document "privacy")
  ok (record { pages = pages; quality = quality; inspection = inspection })
