-- ===== src/Measurement/Criteria.antt =====
-- The criteria of `validate_measurement` and the comparison with the result
-- (scripts/output_measurement.py).
use hp_lj_1020_driver.Base.{
  ℕ, suc, ◌*◌, ◌<>◌, String, Bool, true, false, not, Option, none, some, ◌&&◌, ◌||◌, List, [], ◌∷◌,
  ◌++◌, ltb, ◌==◌, length, is_empty, str_eq, if◌then◌else◌,
}
use hp_lj_1020_driver.Base.Prog.{Outcome, ok, err}
use hp_lj_1020_driver.Base.Checked.{◌>>=◌}
use hp_lj_1020_driver.Base.Json.{
  Number, whole, real, negative_real, infinite, negative_infinite, nan, float_one, Json, string,
  object, get,
}
use hp_lj_1020_driver.Measurement.Reading.{
  measurement_error, overflow_error, Checked, reject_if, Pages, Quality, Inspection, Reading, read,
}

-- `x > bound` of floats, for a natural bound
abbrev pub exceeds : ℕ → Number → Bool
exceeds bound (whole n) = ltb bound n
exceeds bound (Number.negative n) = false
exceeds bound (real m) = ltb (bound * float_one) m
exceeds bound (negative_real m) = false
exceeds bound infinite = true
exceeds bound negative_infinite = false
exceeds bound nan = false

-- `x < 0`
abbrev pub is_below_zero : Number → Bool
is_below_zero (Number.negative n) = true
is_below_zero (negative_real m) = ltb 0 m
is_below_zero negative_infinite = true
is_below_zero _ = false

-- `abs(x)`
abbrev pub magnitude : Number → Number
magnitude (Number.negative n) = whole (suc n)
magnitude (negative_real m) = real m
magnitude negative_infinite = infinite
magnitude x = x

-- `xs == ys`, for page numbers
abbrev pub pages_eq : List ℕ → List ℕ → Bool
pages_eq [] [] = true
pages_eq [] (y ∷ ys) = false
pages_eq (x ∷ xs) [] = false
pages_eq (x ∷ xs) (y ∷ ys) = x == y && pages_eq xs ys

-- A criterion: whether it fails, and the label that is then appended to `failures`.
abbrev pub Criterion : Type 0
Criterion = Bool × String

abbrev pub page_criteria : Pages → List Criterion
page_criteria p =
    (not (length p.observed_order == p.observed_count), "observed page count and order disagree")
    ∷ (not (p.observed_count == p.expected_count), "page count")
    ∷ (not (pages_eq p.observed_order p.expected_order), "page order")
    ∷ (not (is_empty p.blank), "blank pages")
    ∷ (not (is_empty p.partial), "partial pages")
    ∷ (not (is_empty p.missing), "missing pages")
    ∷ (not (is_empty p.duplicate), "duplicate pages")
    ∷ []

abbrev pub quality_criteria : Quality → List Criterion
quality_criteria q =
    (exceeds 1 (magnitude q.scale_error), "scale error exceeds 1 percent")
    ∷ (
      is_below_zero q.displacement || exceeds 2 q.displacement,
      "fiducial displacement exceeds 2 mm",
    )
    ∷ (q.clipping, "clipping inside printable region")
    ∷ (not q.orientation, "orientation")
    ∷ (not q.media, "media selection")
    ∷ []

abbrev pub inspection_criteria : Inspection → List Criterion
inspection_criteria i =
    (not i.performed, "visual inspection was not performed")
    ∷ (not i.readable, "fine patterns are not readable")
    ∷ (i.corruption, "visible corruption")
    ∷ (i.discontinuity, "density discontinuity")
    ∷ []

abbrev pub failing : List Criterion → List String
failing [] = []
failing ((fails, label) ∷ criteria) =
    let rest = failing criteria in if fails then label ∷ rest else rest

unfoldable pub failures : Reading → List String
failures m =
    failing (page_criteria m.pages)
    ++ (failing (quality_criteria m.quality) ++ failing (inspection_criteria m.inspection))

abbrev pub result_is : String → Json → Bool
result_is expected (string s) = str_eq s expected
result_is expected _ = false

unfoldable pub check_result : Json → List String → Checked (Unit {0})
check_result result [] =
    reject_if (not (result_is "passed" result))
      "result does not match measurement: all output criteria passed"
check_result result (failure ∷ more) =
    reject_if (not (result_is "failed" result)) ("result does not match measurement: " <> failure)

unfoldable pub validate_measurement : Json → Checked (Unit {0})
validate_measurement (object document) = do
  measured ← read document
  check_result (get document "result") (failures measured)
validate_measurement _ = err (measurement_error "measurement must be an object")

-- What `main` ends with: the exit status and the line that it prints.
pub record Exit : Type 0 where
  pub status : ℕ
  pub line : String

abbrev verdict : Checked (Unit {0}) → Option Exit
verdict (ok _) = some (record { status = 0; line = "output measurement accepted" })
verdict (err (measurement_error message)) =
    some (record { status = 1; line = "output measurement rejected: " <> message })
verdict (err overflow_error) = none

-- `main`, on what reading and `json.loads` give: a document, or the message of an error that is
-- caught. An `OverflowError` is not caught, and `none` stands for it.
pub main : Outcome String Json → Option Exit
main (ok document) = verdict (validate_measurement document)
main (err message) = some (record { status = 1; line = "output measurement rejected: " <> message })
