-- ===== src/Measurement/Truth.antt =====
-- An accepted measurement tells the truth (scripts/output_measurement.py): the criteria as
-- propositions, and the result held against them.
use hp_lj_1020_driver.Base.{
  ℕ, suc, ◌*◌, ◌≤◌, ◌≡◌, refl, ap, ◌⊎◌, inl, inr, ◌↔◌, String, Bool, true, false, not, ◌||◌, List,
  [], ◌∷◌, ◌++◌, length, is_empty, eq_iff, arith, All, Bool-cases,
}
use hp_lj_1020_driver.Base.Prog.{ok}
use hp_lj_1020_driver.Base.Checked.{split_ok}
use hp_lj_1020_driver.Base.Json.{
  Number, whole, real, negative_real, infinite, negative_infinite, nan, float_one, Json, null,
  boolean, number, string, array, object, Fields, get,
}
use hp_lj_1020_driver.Measurement.Reading.{Pages, Quality, Inspection, Reading, read}
use hp_lj_1020_driver.Measurement.Criteria.{
  exceeds, is_below_zero, magnitude, pages_eq, page_criteria, quality_criteria, inspection_criteria,
  Criterion, failing, failures, result_is, check_result, validate_measurement,
}

-- A number of that size at most; `NaN` counts as one.
abbrev pub AtMost : ℕ → Number → Type 0
AtMost bound (whole n) = n ≤ bound
AtMost bound (Number.negative n) = suc n ≤ bound
AtMost bound (real m) = m ≤ bound * float_one
AtMost bound (negative_real m) = m ≤ bound * float_one
AtMost bound infinite = ⊥
AtMost bound negative_infinite = ⊥
AtMost bound nan = Unit

-- Not below zero; `NaN` is not, nor is the negative zero.
abbrev pub NonNegative : Number → Type 0
NonNegative (Number.negative n) = ⊥
NonNegative (negative_real m) = m ≡ 0
NonNegative negative_infinite = ⊥
NonNegative _ = Unit

abbrev pub PagesMeet : Pages → Type 0
PagesMeet p =
    (length p.observed_order ≡ p.observed_count)
    × (p.observed_count ≡ p.expected_count)
    × (p.observed_order ≡ p.expected_order)
    × (p.blank ≡ [])
    × (p.partial ≡ [])
    × (p.missing ≡ [])
    × (p.duplicate ≡ [])

abbrev pub QualityMeets : Quality → Type 0
QualityMeets q =
    AtMost 1 q.scale_error
    × (NonNegative q.displacement × AtMost 2 q.displacement)
    × (q.clipping ≡ false)
    × (q.orientation ≡ true)
    × (q.media ≡ true)

abbrev pub InspectionMeets : Inspection → Type 0
InspectionMeets i =
    (i.performed ≡ true) × (i.readable ≡ true) × (i.corruption ≡ false) × (i.discontinuity ≡ false)

abbrev pub Meets : Reading → Type 0
Meets m = PagesMeet m.pages × QualityMeets m.quality × InspectionMeets m.inspection

failing_iff : (cs : List Criterion) → failing cs ≡ [] ↔ All (λ c. c.0 ≡ false) cs
failing_iff [] = (λ h. tt, λ h. refl)
failing_iff ((true, label) ∷ cs) = (λ h. cc, λ h. cc)
failing_iff ((false, label) ∷ cs) = (λ h. (refl, (failing_iff cs).0 h), λ h. (failing_iff cs).1 h.1)

pages_eq_iff : (xs ys : List ℕ) → not (pages_eq xs ys) ≡ false ↔ xs ≡ ys
pages_eq_iff [] [] = (λ h. refl, λ h. refl)
pages_eq_iff [] (y ∷ ys) = (λ h. cc, λ h. cc)
pages_eq_iff (x ∷ xs) [] = (λ h. cc, λ h. cc)
pages_eq_iff (x ∷ xs) (y ∷ ys) =
    (λ h. ground (arith, (pages_eq_iff xs ys).0), λ h. ground (arith, (pages_eq_iff xs ys).1))

is_empty_iff : (xs : List ℕ) → not (is_empty xs) ≡ false ↔ xs ≡ []
is_empty_iff [] = (λ h. refl, λ h. refl)
is_empty_iff (x ∷ xs) = (λ h. cc, λ h. cc)

scale_iff : (x : Number) → exceeds 1 (magnitude x) ≡ false ↔ AtMost 1 x
scale_iff (whole n) = (λ h. ground arith, λ h. ground arith)
scale_iff (Number.negative n) = (λ h. ground arith, λ h. ground arith)
scale_iff (real m) = (λ h. ground arith, λ h. ground arith)
scale_iff (negative_real m) = (λ h. ground arith, λ h. ground arith)
scale_iff infinite = (λ h. cc, λ h. absurd h)
scale_iff negative_infinite = (λ h. cc, λ h. absurd h)
scale_iff nan = (λ h. tt, λ h. refl)

displacement_iff :
    (x : Number) → (is_below_zero x || exceeds 2 x) ≡ false ↔ (NonNegative x × AtMost 2 x)
displacement_iff (whole n) = (λ h. (tt, ground arith), λ h. ground (arith, h.1))
displacement_iff (Number.negative n) = (λ h. cc, λ h. absurd h.0)
displacement_iff (real m) = (λ h. (tt, ground arith), λ h. ground (arith, h.1))
displacement_iff (negative_real m) = (λ h. (ground arith, ground arith), λ h. ground (arith, h.0))
displacement_iff infinite = (λ h. cc, λ h. absurd h.1)
displacement_iff negative_infinite = (λ h. cc, λ h. absurd h.0)
displacement_iff nan = (λ h. (tt, tt), λ h. refl)

pages_iff : (p : Pages) → failing (page_criteria p) ≡ [] ↔ PagesMeet p
pages_iff p = (forth, back)
  where
    forth : failing (page_criteria p) ≡ [] → PagesMeet p
    forth h =
        let (count, (expected, (order, (blank, (partial, (missing, (duplicate, _))))))) =
          (failing_iff (page_criteria p)).0 h in
        (
          ground (arith, count),
          ground (arith, expected),
          (pages_eq_iff p.observed_order p.expected_order).0 order,
          (is_empty_iff p.blank).0 blank,
          (is_empty_iff p.partial).0 partial,
          (is_empty_iff p.missing).0 missing,
          (is_empty_iff p.duplicate).0 duplicate,
        )

    back : PagesMeet p → failing (page_criteria p) ≡ []
    back (count, expected, order, blank, partial, missing, duplicate) =
        (failing_iff (page_criteria p)).1 (
          ground (arith, count),
          (
            ground (arith, expected),
            (
              (pages_eq_iff p.observed_order p.expected_order).1 order,
              (
                (is_empty_iff p.blank).1 blank,
                (
                  (is_empty_iff p.partial).1 partial,
                  (
                    (is_empty_iff p.missing).1 missing,
                    ((is_empty_iff p.duplicate).1 duplicate, tt),
                  ),
                ),
              ),
            ),
          ),
        )

Not-iff : (b : Bool) → not b ≡ false ↔ b ≡ true
Not-iff true = (λ h. refl, λ h. refl)
Not-iff false = (λ h. cc, λ h. cc)

quality_iff : (q : Quality) → failing (quality_criteria q) ≡ [] ↔ QualityMeets q
quality_iff q = (forth, back)
  where
    forth : failing (quality_criteria q) ≡ [] → QualityMeets q
    forth h =
        let (scale, (displacement, (clipping, (orientation, (media, _))))) =
          (failing_iff (quality_criteria q)).0 h in
        (
          (scale_iff q.scale_error).0 scale,
          (displacement_iff q.displacement).0 displacement,
          clipping,
          (Not-iff q.orientation).0 orientation,
          (Not-iff q.media).0 media,
        )

    back : QualityMeets q → failing (quality_criteria q) ≡ []
    back (scale, displacement, clipping, orientation, media) =
        (failing_iff (quality_criteria q)).1 (
          (scale_iff q.scale_error).1 scale,
          (
            (displacement_iff q.displacement).1 displacement,
            (clipping, ((Not-iff q.orientation).1 orientation, ((Not-iff q.media).1 media, tt))),
          ),
        )

inspection_iff : (i : Inspection) → failing (inspection_criteria i) ≡ [] ↔ InspectionMeets i
inspection_iff i = (forth, back)
  where
    forth : failing (inspection_criteria i) ≡ [] → InspectionMeets i
    forth h =
        let (performed, (readable, (corruption, (discontinuity, _)))) =
          (failing_iff (inspection_criteria i)).0 h in
        (
          (Not-iff i.performed).0 performed,
          (Not-iff i.readable).0 readable,
          corruption,
          discontinuity,
        )

    back : InspectionMeets i → failing (inspection_criteria i) ≡ []
    back (performed, readable, corruption, discontinuity) =
        (failing_iff (inspection_criteria i)).1 (
          (Not-iff i.performed).1 performed,
          ((Not-iff i.readable).1 readable, (corruption, (discontinuity, tt))),
        )

append-eq-nil : (xs ys : List String) → xs ++ ys ≡ [] ↔ (xs ≡ []) × (ys ≡ [])
append-eq-nil [] ys = (λ h. (refl, h), λ h. h.1)
append-eq-nil (x ∷ xs) ys = (λ h. cc, λ h. cc)

-- No criterion fails just when the reading meets all of them.
pub failures_iff : (m : Reading) → failures m ≡ [] ↔ Meets m
unfolding failures
failures_iff m = (forth, back)
  where
    forth : failures m ≡ [] → Meets m
    forth h =
        let (pages, rest) = (append-eq-nil (failing (page_criteria m.pages)) _).0 h in
        let (quality, inspection) =
          (append-eq-nil (failing (quality_criteria m.quality)) _).0 rest in
        (
          (pages_iff m.pages).0 pages,
          (quality_iff m.quality).0 quality,
          (inspection_iff m.inspection).0 inspection,
        )

    back : Meets m → failures m ≡ []
    back (pages, quality, inspection) = (append-eq-nil (failing (page_criteria m.pages)) _).1 (
      (pages_iff m.pages).1 pages,
      (append-eq-nil (failing (quality_criteria m.quality)) _).1
          ((quality_iff m.quality).1 quality, (inspection_iff m.inspection).1 inspection),
    )

result_is_iff : (s : String) (j : Json) → result_is s j ≡ true → j ≡ string s
result_is_iff s (string t) h = ap string ((eq_iff t s).0 h)
result_is_iff s null h = cc
result_is_iff s (boolean b) h = cc
result_is_iff s (number x) h = cc
result_is_iff s (array xs) h = cc
result_is_iff s (object fs) h = cc

abbrev Says : Json → Type 0 → Type 0
Says result P = ((result ≡ string "passed") × P) ⊎ ((result ≡ string "failed") × (¬ P))

abbrev none_failed : List String
none_failed = []

check_result_iff : (j : Json) (fs : List String) → check_result j fs ≡ ok tt ↔ Says j (fs ≡ [])
unfolding check_result
check_result_iff j [] = (forth, back)
  where
    forth : check_result j [] ≡ ok tt → Says j (none_failed ≡ [])
    forth h = elim (Bool-cases (result_is "passed" j)) [
      | inl same ↦ inl (result_is_iff "passed" j same, refl)
      | inr other ↦ absurd (ground (arith, other))
    ]

    back : Says j (none_failed ≡ []) → check_result j [] ≡ ok tt
    back (inl (e, _)) = rw e refl
    back (inr (e, some_failed)) = absurd (some_failed refl)
check_result_iff j (f ∷ fs) = (forth, back)
  where
    forth : check_result j (f ∷ fs) ≡ ok tt → Says j (f ∷ fs ≡ [])
    forth h = elim (Bool-cases (result_is "failed" j)) [
      | inl same ↦ inr (result_is_iff "failed" j same, λ e. cc)
      | inr other ↦ absurd (ground (arith, other))
    ]

    back : Says j (f ∷ fs ≡ []) → check_result j (f ∷ fs) ≡ ok tt
    back (inl (e, empty_list)) = cc
    back (inr (e, _)) = rw e refl

Says-map : (j : Json) {P Q : Type 0} → (P → Q) → (Q → P) → Says j P → Says j Q
Says-map j f g (inl (e, p)) = inl (e, f p)
Says-map j f g (inr (e, fails)) = inr (e, λ q. fails (g q))

-- A record is accepted just when its checks give a reading and its result says truly whether that
-- reading meets the criteria.
pub validate_measurement_truthful :
    (document : Fields)
    → validate_measurement (object document) ≡ ok tt ↔ (
        (m : Reading) × (read document ≡ ok m)
        × (((get document "result" ≡ string "passed") × Meets m)
            ⊎ ((get document "result" ≡ string "failed") × (¬ Meets m))))
unfolding validate_measurement
validate_measurement_truthful document = (
  (λ h.
      let (m, is_read, checked) = split_ok (read document) _ h in
      (
        m,
        is_read,
        Says-map (get document "result") (failures_iff m).0 (failures_iff m).1
            ((check_result_iff (get document "result") (failures m)).0 checked),
      )),
  λ h. rw h.1 (
      (check_result_iff (get document "result") (failures h.0)).1
        (Says-map (get document "result") (failures_iff h.0).1 (failures_iff h.0).0 h.2)),
)
