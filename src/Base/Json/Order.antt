-- ===== src/Base/Json/Order.antt =====
-- Python's comparisons of the values of `json.loads`.
use hp_lj_1020_driver.Base.{
  ℕ, suc, ◌*◌, String, Bool, true, false, ◌&&◌, ◌||◌, none, some, List, [], ◌∷◌, ltb, ◌==◌, length,
  any, str_eq, bool_eq, if◌then◌else◌,
}
use hp_lj_1020_driver.Base.Json.{
  Number, whole, negative, real, negative_real, infinite, negative_infinite, nan, float_one, Json,
  null, boolean, number, string, array, object, Items, end, item, Fields, empty, field, find, keys,
}

-- The magnitude of a finite number, in units of 2 ^ -1074.
abbrev units : Number → ℕ
units (whole n) = n * float_one
units (negative n) = suc n * float_one
units (real m) = m
units (negative_real m) = m
units _ = 0

-- `a < b`, for a number from 0 on and one that is negative or the negative zero
abbrev is_signed : Number → Bool
is_signed (negative n) = true
is_signed (negative_real m) = true
is_signed negative_infinite = true
is_signed _ = false

abbrev finite_lt : Number → Number → Bool
finite_lt a b =
    if is_signed a
    then (if is_signed b then ltb (units b) (units a) else (ltb 0 (units a) || ltb 0 (units b)))
    else (if is_signed b then false else ltb (units a) (units b))

-- `a < b`
pub number_lt : Number → Number → Bool
number_lt nan b = false
number_lt infinite b = false
number_lt negative_infinite nan = false
number_lt negative_infinite negative_infinite = false
number_lt negative_infinite b = true
number_lt a nan = false
number_lt a infinite = true
number_lt a negative_infinite = false
number_lt a b = finite_lt a b

-- `a == b`; `nan` equals nothing.
abbrev number_eq : Number → Number → Bool
number_eq nan b = false
number_eq a nan = false
number_eq infinite infinite = true
number_eq infinite b = false
number_eq a infinite = false
number_eq negative_infinite negative_infinite = true
number_eq negative_infinite b = false
number_eq a negative_infinite = false
number_eq a b = units a == units b && (bool_eq (is_signed a) (is_signed b) || units a == 0)

-- A Boolean is the number 0 or 1.
abbrev boolean_number : Bool → Number
boolean_number true = whole 1
boolean_number false = whole 0

abbrev is_number : Json → Number → Bool
is_number (number y) x = number_eq x y
is_number (boolean b) x = number_eq x (boolean_number b)
is_number _ x = false

abbrev is_null : Json → Bool
is_null null = true
is_null _ = false

abbrev is_string : Json → String → Bool
is_string (string t) s = str_eq s t
is_string _ s = false

abbrev is_nan : Json → Bool
is_nan (number nan) = true
is_nan _ = false

-- `a == b`. Members of lists and dictionaries are taken as equal also where they are the same object,
-- as every `NaN` of `json.loads` is.
unfoldable mutual
  pub json_eq : Json → Json → Bool
  json_eq null b = is_null b
  json_eq (boolean c) b = is_number b (boolean_number c)
  json_eq (number x) b = is_number b x
  json_eq (string s) b = is_string b s
  json_eq (array xs) (array ys) = items_eq xs ys
  json_eq (array xs) b = false
  json_eq (object fs) (object gs) = length (keys fs) == length (keys gs) && fields_eq fs gs
  json_eq (object fs) b = false

  pub items_eq : Items → Items → Bool
  items_eq end end = true
  items_eq end (item y ys) = false
  items_eq (item x xs) end = false
  items_eq (item x xs) (item y ys) = ((is_nan x && is_nan y) || json_eq x y) && items_eq xs ys

  pub fields_eq : Fields → Fields → Bool
  fields_eq empty gs = true
  fields_eq (field name x fs) gs = elim (find gs name) [
    | none ↦ false
    | some y ↦ ((is_nan x && is_nan y) || json_eq x y) && fields_eq fs gs
  ]

-- The comparison of `a in [b]`
abbrev pub member_eq : Json → Json → Bool
member_eq a b = (is_nan a && is_nan b) || json_eq a b

-- `json.dumps` writes two numbers alike: no integer is written like a float.
abbrev same_number : Number → Number → Bool
same_number (whole n) (whole m) = n == m
same_number (negative n) (negative m) = n == m
same_number (real n) (real m) = n == m
same_number (negative_real n) (negative_real m) = n == m
same_number infinite infinite = true
same_number negative_infinite negative_infinite = true
same_number nan nan = true
same_number _ _ = false

abbrev same_scalar : Json → Json → Bool
same_scalar null null = true
same_scalar (boolean a) (boolean b) = bool_eq a b
same_scalar (number x) (number y) = same_number x y
same_scalar (string s) (string t) = str_eq s t
same_scalar _ _ = false

-- `json.dumps(a, sort_keys=True) == json.dumps(b, sort_keys=True)`
unfoldable mutual
  pub same_text : Json → Json → Bool
  same_text (array xs) (array ys) = same_items xs ys
  same_text (array xs) b = false
  same_text (object fs) (object gs) = length (keys fs) == length (keys gs) && same_fields fs gs
  same_text (object fs) b = false
  same_text null b = same_scalar null b
  same_text (boolean c) b = same_scalar (boolean c) b
  same_text (number x) b = same_scalar (number x) b
  same_text (string s) b = same_scalar (string s) b

  pub same_items : Items → Items → Bool
  same_items end end = true
  same_items end (item y ys) = false
  same_items (item x xs) end = false
  same_items (item x xs) (item y ys) = same_text x y && same_items xs ys

  pub same_fields : Fields → Fields → Bool
  same_fields empty gs = true
  same_fields (field name x fs) gs = elim (find gs name) [
    | none ↦ false
    | some y ↦ same_text x y && same_fields fs gs
  ]

-- `len(set(map(json.dumps, values))) != len(values)`
pub has_repeats : List Json → Bool
has_repeats [] = false
has_repeats (x ∷ xs) = any (same_text x) xs || has_repeats xs
