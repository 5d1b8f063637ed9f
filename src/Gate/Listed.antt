-- ===== src/Gate/Listed.antt =====
-- The values, lists and tables that the gate reads (scripts/validation_gate.py), as they stand in the
-- documents.
use hp_lj_1020_driver.Base.{
  ◌≡◌, refl, sym, ap, ◌∙◌, ◌⊎◌, inl, inr, String, Bool, true, false, not, str_eq, eq_iff, Option,
  none, some, List, [], ◌∷◌, All, any, elem, map, Bool-cases, ◌||◌, if◌then◌else◌,
}
use mathlib.Core.Path.{subst}
use hp_lj_1020_driver.Base.Prog.{ok, err}
use hp_lj_1020_driver.Base.Checked.{split_ok, ◌>>=◌}
use hp_lj_1020_driver.Base.Json.{
  Json, null, boolean, number, string, array, object, Items, end, item, Fields, empty, field, get,
  find, elements,
}
use hp_lj_1020_driver.Base.Json.Order.{json_eq}
use hp_lj_1020_driver.Gate.Values.{
  crash, invalid, Checked, index, is_true, says, object_list, objects, is_subset, in_set,
}
use hp_lj_1020_driver.Gate.Passed.{both, neither, true_unless}
use hp_lj_1020_driver.Gate.Rows.{Table, lookup}
use hp_lj_1020_driver.Gate.Judge.{
  list_or_crash, objects_or_crash, strings_or_crash, texts_at, attempts_of, keys_of, key_of,
  pointers_of, has_failed, is_bound, entry_binds,
}

abbrev pub IsIn : {A : Type 0} → A → List A → Type 0
IsIn a [] = ⊥
IsIn a (x ∷ xs) = (a ≡ x) ⊎ IsIn a xs

pub All-mono {ℓ κ} :
    {A : Type ℓ} (P Q : A → Type κ) (xs : List A) → ((a : A) → P a → Q a) → All P xs → All Q xs
All-mono P Q [] i h = tt
All-mono P Q (x ∷ xs) i (p, h) = (i x p, All-mono P Q xs i h)

pub All-self : {A : Type 0} (xs : List A) → All (λ x. IsIn x xs) xs
All-self [] = tt
All-self (x ∷ xs) =
    (inl refl, All-mono (λ a. IsIn a xs) (λ a. IsIn a (x ∷ xs)) xs (λ a h. inr h) (All-self xs))

pub says_lem : (v : Json) (s : String) → says v s ≡ true → v ≡ string s
unfolding json_eq
says_lem (string t) s h = ap string ((eq_iff t s).0 h)
says_lem null s h = cc
says_lem (boolean b) s h = cc
says_lem (number x) s h = cc
says_lem (array xs) s h = cc
says_lem (object fs) s h = cc

pub is_true_lem : (v : Json) → is_true v ≡ true → v ≡ boolean true
is_true_lem (boolean b) h = ap boolean h
is_true_lem null h = cc
is_true_lem (string s) h = cc
is_true_lem (number x) h = cc
is_true_lem (array xs) h = cc
is_true_lem (object fs) h = cc

abbrev value_or_crash : Option Json → Checked Json
value_or_crash o = elim o [ none ↦ err crash | some x ↦ ok x ]

index_field :
    (b : Bool) (value other v : Json) (o : Option Json)
    → (value_or_crash o ≡ ok v → other ≡ v)
    → value_or_crash (if b then some value else o) ≡ ok v
    → (if b then value else other) ≡ v
index_field true value other v o k h = cc
index_field false value other v o k h = k h

pub index_lem :
    (fields : Fields) (key : String) (v : Json) → index fields key ≡ ok v → get fields key ≡ v
index_lem empty key v h = cc
index_lem (field name value fields) key v h =
    index_field (str_eq name key) value (get fields key) v (find fields key)
      (index_lem fields key v) h

-- The objects of a list
abbrev pub Objects : Json → List Fields → Type 0
Objects value listed =
    (items : Items) × (value ≡ array items) × (elements items ≡ map object listed)

objects_lem :
    (items : Items) (listed : List Fields)
    → objects items ≡ ok listed
    → elements items ≡ map object listed
objects_lem end listed h = let e : [] ≡ listed = cc in rw (sym e) refl
objects_lem (item (object fields) items) listed h =
    let (rest, there, same) = split_ok (objects items) _ h in
    let e : fields ∷ rest ≡ listed = cc in rw (sym e, objects_lem items rest there) refl
objects_lem (item null items) listed h = cc
objects_lem (item (boolean b) items) listed h = cc
objects_lem (item (number x) items) listed h = cc
objects_lem (item (string s) items) listed h = cc
objects_lem (item (array xs) items) listed h = cc

pub object_list_lem :
    (v : Json) (listed : List Fields) → object_list v ≡ ok listed → Objects v listed
unfolding object_list
object_list_lem (array items) listed h = (items, refl, objects_lem items listed h)
object_list_lem null listed h = cc
object_list_lem (boolean b) listed h = cc
object_list_lem (number x) listed h = cc
object_list_lem (string s) listed h = cc
object_list_lem (object fs) listed h = cc

attempts_lem :
    (values : List Json) (listed : List Fields)
    → objects_or_crash values ≡ ok listed
    → values ≡ map object listed
attempts_lem [] listed h = let e : [] ≡ listed = cc in rw (sym e) refl
attempts_lem (object fields ∷ values) listed h =
    let (rest, there, same) = split_ok (objects_or_crash values) _ h in
    let e : fields ∷ rest ≡ listed = cc in rw (sym e, attempts_lem values rest there) refl
attempts_lem (null ∷ values) listed h = cc
attempts_lem (boolean b ∷ values) listed h = cc
attempts_lem (number x ∷ values) listed h = cc
attempts_lem (string s ∷ values) listed h = cc
attempts_lem (array xs ∷ values) listed h = cc

list_lem :
    (v : Json) (values : List Json)
    → list_or_crash v ≡ ok values
    → (items : Items) × (v ≡ array items) × (elements items ≡ values)
list_lem (array items) values h = let e : elements items ≡ values = cc in (items, refl, e)
list_lem null values h = cc
list_lem (boolean b) values h = cc
list_lem (number x) values h = cc
list_lem (string s) values h = cc
list_lem (object fs) values h = cc

-- Every attempt that is recorded passed.
abbrev pub AllPassed : Fields → Type 0
AllPassed row =
    (attempts : List Fields) × Objects (get row "attempts") attempts
    × All (λ attempt. get attempt "outcome" ≡ string "passed") attempts

passed_lem :
    (attempts : List Fields)
    → has_failed attempts ≡ false
    → All (λ attempt. get attempt "outcome" ≡ string "passed") attempts
passed_lem [] h = tt
passed_lem (attempt ∷ attempts) h =
    let (first, rest) = neither (not (says (get attempt "outcome") "passed")) _ h in
    (says_lem (get attempt "outcome") "passed" (true_unless _ first), passed_lem attempts rest)

pub all_passed_lem :
    (row : Fields) (attempts : List Fields)
    → attempts_of row ≡ ok attempts
    → has_failed attempts ≡ false
    → AllPassed row
all_passed_lem row attempts h passed =
    let (values, listed, objs) = split_ok (index row "attempts" >>= list_or_crash) _ h in
    let (value, there, is_list) = split_ok (index row "attempts") _ listed in
    let (items, e, same) = list_lem value values is_list in
    (
      attempts,
      (items, index_lem row "attempts" value there ∙ e, same ∙ attempts_lem values attempts objs),
      passed_lem attempts passed,
    )

pub key_lem : (v : Json) (s : String) → key_of v ≡ ok (some s) → v ≡ string s
key_lem (string t) s h = let e : t ≡ s = cc in ap string e
key_lem null s h = cc
key_lem (boolean b) s h = cc
key_lem (number x) s h = cc
key_lem (array xs) s h = cc
key_lem (object fs) s h = cc

found_lem :
    (b : Bool) (P : Fields → Type 0) (r row : Fields) (o : Option Fields)
    → (if b then some r else o) ≡ some row
    → (b ≡ true → P r)
    → (o ≡ some row → P row)
    → P row
found_lem true P r row o h here later = let e : r ≡ row = cc in subst P e (here refl)
found_lem false P r row o h here later = later h

second : (a b : Bool) → a ≡ false → (a || b) ≡ true → b ≡ true
second true b e h = cc
second false b e h = h

pub lookup_lem :
    (P : String × Fields → Type 0) (table : Table) (name : String) (row : Fields)
    → All P table
    → lookup table name ≡ some row
    → P (name, row)
lookup_lem P [] name row all_of h = cc
lookup_lem P ((n, r) ∷ table) name row (first, rest) h =
    found_lem (str_eq n name) (λ f. P (name, f)) r row (lookup table name) h
      (λ e. subst (λ m. P (m, r)) ((eq_iff n name).0 e) first) (lookup_lem P table name row rest)

bound_lem :
    (name : String) (values : List Json)
    → any (λ bound. says bound name) values ≡ true
    → IsIn (string name) values
bound_lem name [] h = cc
bound_lem name (value ∷ values) h = elim (Bool-cases (says value name)) [
  | inl e ↦ inl (sym (says_lem value name e))
  | inr e ↦ inr (bound_lem name values (second _ _ e h))
]

-- A piece of evidence that names a scenario
abbrev pub Names : String → Fields → Type 0
Names name entry =
    (bindings : Items) × (get entry "scenarioIds" ≡ array bindings)
    × IsIn (string name) (elements bindings)

is_bound_lem :
    (name : String) (v : Json)
    → is_bound name v ≡ true
    → (bindings : Items) × (v ≡ array bindings) × IsIn (string name) (elements bindings)
is_bound_lem name (array items) h = (items, refl, bound_lem name (elements items) h)
is_bound_lem name null h = cc
is_bound_lem name (boolean b) h = cc
is_bound_lem name (number x) h = cc
is_bound_lem name (string s) h = cc
is_bound_lem name (object fs) h = cc

pub binds_lem :
    (name : String) (o : Option Fields)
    → entry_binds name o ≡ true
    → (entry : Fields) × (o ≡ some entry) × Names name entry
binds_lem name none h = cc
binds_lem name (some entry) h = (entry, refl, is_bound_lem name (get entry "scenarioIds") h)

key_then :
    (o : Option String) (rest digests : List String)
    → elim o [ none ↦ err (invalid "lacks passing immutable evidence") | some s ↦ ok (s ∷ rest) ]
      ≡ ok digests
    → (s : String) × (o ≡ some s) × (s ∷ rest ≡ digests)
key_then none rest digests h = cc
key_then (some s) rest digests h = let e : s ∷ rest ≡ digests = cc in (s, refl, e)

keys_lem :
    (values : List Json) (digests : List String)
    → keys_of values ≡ ok digests
    → values ≡ map string digests
keys_lem [] digests h = let e : [] ≡ digests = cc in rw (sym e) refl
keys_lem (value ∷ values) digests h =
    let (first, one, h₁) = split_ok (key_of value) _ h in
    let (rest, more, h₂) = split_ok (keys_of values) _ h₁ in
    let (s, e, same) = key_then first rest digests h₂ in
    let head : value ≡ string s = key_lem value s (one ∙ ap ok e) in
    rw (sym same, head, keys_lem values rest more) refl

-- The texts of a list
abbrev pub Texts : Json → List String → Type 0
Texts value listed = (items : Items) × (value ≡ array items) × (elements items ≡ map string listed)

pub pointers_lem : (v : Json) (digests : List String) → pointers_of v ≡ ok digests → Texts v digests
pointers_lem (array items) digests h = (items, refl, keys_lem (elements items) digests h)
pointers_lem null digests h = cc
pointers_lem (boolean b) digests h = cc
pointers_lem (number x) digests h = cc
pointers_lem (string s) digests h = cc
pointers_lem (object fs) digests h = cc

strings_lem :
    (values : List Json) (listed : List String)
    → strings_or_crash values ≡ ok listed
    → values ≡ map string listed
strings_lem [] listed h = let e : [] ≡ listed = cc in rw (sym e) refl
strings_lem (string s ∷ values) listed h =
    let (rest, there, same) = split_ok (strings_or_crash values) _ h in
    let e : s ∷ rest ≡ listed = cc in rw (sym e, strings_lem values rest there) refl
strings_lem (null ∷ values) listed h = cc
strings_lem (boolean b ∷ values) listed h = cc
strings_lem (number x ∷ values) listed h = cc
strings_lem (array xs ∷ values) listed h = cc
strings_lem (object fs ∷ values) listed h = cc

pub texts_at_lem :
    (row : Fields) (key : String) (listed : List String)
    → texts_at row key ≡ ok listed
    → Texts (get row key) listed
texts_at_lem row key listed h =
    let (values, read, strings) = split_ok (index row key >>= list_or_crash) _ h in
    let (value, there, is_list) = split_ok (index row key) _ read in
    let (items, e, same) = list_lem value values is_list in
    (items, index_lem row key value there ∙ e, same ∙ strings_lem values listed strings)

elem_lem : (s : String) (texts : List String) → elem s texts ≡ true → IsIn s texts
elem_lem s [] h = cc
elem_lem s (t ∷ texts) h = elim (Bool-cases (str_eq s t)) [
  | inl e ↦ inl ((eq_iff s t).0 e)
  | inr e ↦ inr (elem_lem s texts (second _ _ e h))
]

pub subset_lem : (xs ys : List String) → is_subset xs ys ≡ true → All (λ x. IsIn x ys) xs
subset_lem [] ys h = tt
subset_lem (x ∷ xs) ys h =
    let (first, rest) = both (elem x ys) _ h in (elem_lem x ys first, subset_lem xs ys rest)

any_lem :
    (v : Json) (allowed : List String)
    → any (says v) allowed ≡ true
    → (name : String) × IsIn name allowed × (v ≡ string name)
any_lem v [] h = cc
any_lem v (s ∷ allowed) h = elim (Bool-cases (says v s)) [
  | inl e ↦ (s, inl refl, says_lem v s e)
  | inr e ↦
      let (name, inside, same) = any_lem v allowed (second _ _ e h) in (name, inr inside, same)
]

pub in_set_lem :
    (v : Json) (allowed : List String)
    → in_set v allowed ≡ ok true
    → (name : String) × IsIn name allowed × (v ≡ string name)
in_set_lem (array xs) allowed h = cc
in_set_lem (object fs) allowed h = cc
in_set_lem null allowed h = any_lem null allowed cc
in_set_lem (boolean b) allowed h = any_lem (boolean b) allowed cc
in_set_lem (number x) allowed h = any_lem (number x) allowed cc
in_set_lem (string s) allowed h = any_lem (string s) allowed cc
