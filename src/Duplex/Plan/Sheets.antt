-- ===== src/Duplex/Plan/Sheets.antt =====
-- What `plan` achieves on paper: an independent description of the printed sheets.
use mathlib.Core.List.{map-append, reverse-cons, reverse_perm, perm_middle, Perm, filter}
use mathlib.Core.List.Perm
use mathlib.Core.Logic.{if_pos, if_neg}
use native.Mathlib.Decide.{dec_lt}
use hp_lj_1020_driver.Base.{
  ℕ, zero, suc, ◌+◌, ◌-◌, ◌/◌, ◌≤◌, ◌<◌, ◌≡◌, refl, ap, ◌∙◌, ◌↔◌, ◌⊎◌, inl, inr, sym, String, ◌||◌,
  str_eq, eq_iff, Bool-cases, true, List, [], ◌∷◌, ◌++◌, map, reverse, arith,
}
use hp_lj_1020_driver.Base.Prog.{ok, is_ok, is_ok_iff}
use hp_lj_1020_driver.Duplex.Plan.{Plan, count_up, range, back_of, plan}

-- The sheets of `n` pages that begin with page `k`: a front and a back each, and after an odd last
-- page a blank.
abbrev pub sheets : ℕ → ℕ → List (ℕ × ℕ)
sheets k zero = []
sheets k (suc zero) = (k, 0) ∷ []
sheets k (suc (suc n)) = (k, k + 1) ∷ sheets (k + 2) n

abbrev pub front : ℕ × ℕ → ℕ
front (f, b) = f

abbrev pub back : ℕ × ℕ → ℕ
back (f, b) = b

map-reverse {ℓ κ} :
    {A : Type ℓ} {B : Type κ} (f : A → B) (l : List A) → map f (reverse l) ≡ reverse (map f l)
map-reverse f [] = refl
map-reverse f (x ∷ l) = rw (reverse-cons, reverse-cons, map-append, map-reverse f l)

count_up-sheets : (k n : ℕ) → count_up ((n + 1) / 2) k 2 ≡ map front (sheets k n)
count_up-sheets k zero = refl
count_up-sheets k (suc zero) = refl
count_up-sheets k (suc (suc n)) =
    let e : (suc (suc n) + 1) / 2 ≡ suc ((n + 1) / 2) = omega arith in
    rw e (ap (λ (l : List ℕ). k ∷ l) (count_up-sheets (k + 2) n))

back_of-sheets :
    (k n pages : ℕ)
    → pages + 1 ≡ k + n
    → map (back_of pages) (map front (sheets k n)) ≡ map back (sheets k n)
back_of-sheets k zero pages e = refl
back_of-sheets k (suc zero) pages e = ground arith
back_of-sheets k (suc (suc n)) pages e = ground (arith, back_of-sheets (k + 2) n pages)

range-sheets : (n : ℕ) → range 1 (n + 1) 2 ≡ map front (sheets 1 n)
range-sheets n =
    let e : (n + 1 - 1 + 2 - 1) / 2 ≡ (n + 1) / 2 = omega arith in rw e (count_up-sheets 1 n)

-- On success the fronts are the fronts of the sheets in reading order, and the backs are their
-- backs in the reverse order, in which the reinserted stack feeds.
pub plan-sheets :
    (pages : ℕ) (binding orientation : String) {p : Plan}
    → plan pages binding orientation ≡ ok p
    → (p.fronts ≡ map front (sheets 1 pages)) × (p.backs ≡ reverse (map back (sheets 1 pages)))
unfolding plan
plan-sheets pages binding orientation {p} h = (fronts_are, backs_are)
  where
    fronts_are : p.fronts ≡ map front (sheets 1 pages)
    fronts_are = ground (arith, range-sheets pages)

    back_list : p.backs ≡ map (back_of pages) (reverse (range 1 (pages + 1) 2))
    back_list = ground arith

    backs_are : p.backs ≡ reverse (map back (sheets 1 pages))
    backs_are =
        back_list
        ∙ rw (range-sheets pages, map-reverse (back_of pages))
            (ap reverse (back_of-sheets 1 pages pages (omega arith)))

-- The page numbers that a pass prints: all but the blanks.
abbrev pub printed : List ℕ → List ℕ
printed = filter (λ page. dec_lt 0 page)

printed-sheets :
    (k n : ℕ)
    → 1 ≤ k
    → Perm (map front (sheets k n) ++ printed (map back (sheets k n))) (count_up n k 1)
printed-sheets k zero h = Perm.refl []
printed-sheets k (suc zero) h =
    let none_left : ¬ (0 < 0) = omega arith in rw (if_neg _ none_left) (Perm.refl (k ∷ []))
printed-sheets k (suc (suc n)) h =
    let there : 0 < k + 1 = omega arith in
    let next : k + 1 + 1 ≡ k + 2 = omega arith in
    rw (if_pos _ there, next)
      (Perm.cons k (
        Perm.trans (perm_middle (map front (sheets (k + 2) n)) _)
          (Perm.cons (k + 1) (printed-sheets (k + 2) n (omega arith)))))

-- The two passes together print every page from 1 to the last, once each.
pub plan_prints_each_page_once :
    (pages : ℕ) (binding orientation : String) {p : Plan}
    → plan pages binding orientation ≡ ok p
    → Perm (p.fronts ++ printed p.backs) (range 1 (pages + 1) 1)
plan_prints_each_page_once pages binding orientation {p} h =
    let (fronts_are, backs_are) = plan-sheets pages binding orientation h in
    let all_pages : (pages + 1 - 1 + 1 - 1) / 1 ≡ pages = omega arith in
    rw (fronts_are, backs_are, all_pages)
      (Perm.trans
        (Perm.append (Perm.refl (map front (sheets 1 pages)))
          (Perm.filter (λ page. dec_lt 0 page) (reverse_perm (map back (sheets 1 pages)))))
        (printed-sheets 1 pages (omega arith)))

-- A text that is tested for being one of two is one of them.
one_of_lem : (s a b : String) → (str_eq s a || str_eq s b) ≡ true ↔ ((s ≡ a) ⊎ (s ≡ b))
one_of_lem s a b = (
  λ h. elim (Bool-cases (str_eq s a)) [
    | inl e ↦ inl ((eq_iff s a).0 e)
    | inr e ↦ inr ((eq_iff s b).0 (rw (sym h, e) refl))
  ],
  elim [ inl e ↦ rw ((eq_iff s a).1 e) refl | inr e ↦ ground (arith, (eq_iff s b).1 e) ],
)

plan_iff :
    (pages : ℕ) (binding orientation : String)
    → is_ok (plan pages binding orientation) ≡ true ↔ (
        (2 ≤ pages)
        × (pages ≤ 200)
        × ((str_eq binding "long-edge" || str_eq binding "short-edge") ≡ true)
        × ((str_eq orientation "portrait" || str_eq orientation "landscape") ≡ true))
unfolding plan
plan_iff pages binding orientation = ground arith

-- `plan` succeeds on 2 to 200 pages with the binding `long-edge` or `short-edge` and the orientation
-- `portrait` or `landscape`, and on nothing else.
pub plan_succeeds_iff :
    (pages : ℕ) (binding orientation : String)
    → ((p : Plan) × (plan pages binding orientation ≡ ok p)) ↔ (
        (2 ≤ pages)
        × (pages ≤ 200)
        × ((binding ≡ "long-edge") ⊎ (binding ≡ "short-edge"))
        × ((orientation ≡ "portrait") ⊎ (orientation ≡ "landscape")))
unfolding plan
plan_succeeds_iff pages binding orientation =
    let succeeds = plan_iff pages binding orientation in
    let binds = one_of_lem binding "long-edge" "short-edge" in
    let lies = one_of_lem orientation "portrait" "landscape" in
    (
      λ (p, h).
          let (low, high, known, laid) = succeeds.0 (rw h refl) in
          (low, high, binds.0 known, lies.0 laid),
      λ (low, high, known, laid). is_ok_iff _ (succeeds.1 (low, high, binds.1 known, lies.1 laid)),
    )
