-- ===== src/Duplex/Plan.antt =====
-- `plan` (scripts/manual_duplex.py). Page counts are naturals: a negative count fails the same
-- range test. A `ValueError` is its message.
pub mod Sheets
use hp_lj_1020_driver.Base.{
  ℕ, zero, suc, ◌+◌, ◌-◌, ◌/◌, String, Bool, not, ◌&&◌, ◌||◌, List, [], ◌∷◌, map, reverse, ltb, leb,
  str_eq, bool_eq, if◌then◌else◌,
}
use hp_lj_1020_driver.Base.Prog.{Outcome, ok, err}

-- Zero in `backs` is an intentional blank, which consumes the odd sheet.
pub record Plan : Type 0 where
  pub fronts : List ℕ
  pub backs : List ℕ
  pub back_rotation : ℕ

abbrev pub count_up : ℕ → ℕ → ℕ → List ℕ
count_up zero start step = []
count_up (suc n) start step = start ∷ count_up n (start + step) step

-- `range(start, stop, step)` for a positive step
abbrev pub range : ℕ → ℕ → ℕ → List ℕ
range start stop step = count_up ((stop - start + step - 1) / step) start step

abbrev pub is_binding : String → Bool
is_binding b = str_eq b "long-edge" || str_eq b "short-edge"

abbrev pub is_orientation : String → Bool
is_orientation o = str_eq o "portrait" || str_eq o "landscape"

abbrev back_of : ℕ → ℕ → ℕ
back_of pages page = if ltb page pages then page + 1 else 0

unfoldable pub plan : ℕ → String → String → Outcome String Plan
plan pages binding orientation =
    if not (leb 2 pages && leb pages 200)
    then err "manual duplex requires 2..200 PDF pages (at most 100 sheets)"
    else if not (is_binding binding) || not (is_orientation orientation)
    then err "invalid binding or orientation"
    else let fronts = range 1 (pages + 1) 2 in
      let rotate = not (bool_eq (str_eq binding "long-edge") (str_eq orientation "landscape")) in
      ok (record {
        fronts = fronts;
        backs = map (back_of pages) (reverse fronts);
        back_rotation = if rotate then 180 else 0;
      })
