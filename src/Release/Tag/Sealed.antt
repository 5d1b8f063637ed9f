-- ===== src/Release/Tag/Sealed.antt =====
-- Where the sealed bundle of a chain of records is (scripts/personal_release.py).
use hp_lj_1020_driver.Base.{
  ℕ, ◌≡◌, refl, sym, ap, ◌∙◌, String, ◌<>◌, Bool, true, false, not, Option, none, some, List,
}
use mathlib.Core.Path.{subst}
use hp_lj_1020_driver.Base.Prog.{ret, raise, call, ◌>>=◌}
use hp_lj_1020_driver.Base.Json.{Json, null, boolean, number, string, array, object, find}
use hp_lj_1020_driver.Release.Calls.{
  other, Replies, Work, got, raised, raise_if, index, as_text, found,
}
use hp_lj_1020_driver.Release.Files.{is_unsafe, safe_file}
use hp_lj_1020_driver.Release.Records.{nth}
use hp_lj_1020_driver.Release.World.{value_at}
use hp_lj_1020_driver.Release.Bundle.{data_at, sealed_bundle}
use hp_lj_1020_driver.Release.Looks.{is_look}

-- A program that only looks, and gives what `P` says, if anything.
abbrev pub LooksFor : {A : Type 0} → (A → Type 0) → Work A → Type 0
LooksFor P (ret a) = P a
LooksFor P (raise e) = Unit
LooksFor P (call c k) = (is_look c ≡ true) × ((r : Replies c) → LooksFor P (k r))

LooksFor-then :
    {A B : Type 0} (m : Work A) (f : A → Work B) (P : A → Type 0) (Q : B → Type 0)
    → LooksFor P m
    → ((a : A) → P a → LooksFor Q (f a))
    → LooksFor Q (m >>= f)
LooksFor-then (ret a) f P Q h next = next a h
LooksFor-then (raise e) f P Q h next = tt
LooksFor-then (call c k) f P Q (l, h) next = (l, λ r. LooksFor-then (k r) f P Q (h r) next)

index_lem :
    (value : Json) (key : String) → LooksFor (λ v. value_at value key ≡ some v) (index value key)
unfolding index
index_lem (object fields) key = go (find fields key)
  where
    go : (o : Option Json) → LooksFor (λ v. o ≡ some v) (found o)
    go none = tt
    go (some v) = refl
index_lem null key = tt
index_lem (boolean b) key = tt
index_lem (number x) key = tt
index_lem (string s) key = tt
index_lem (array xs) key = tt

abbrev at_key : Option Json → String → Option Json
at_key none key = none
at_key (some value) key = value_at value key

-- `records[i]["data"][key]`
abbrev pub kept_at : List Json → ℕ → String → Option Json
kept_at records i key = at_key (at_key (nth records i) "data") key

entry_lem :
    (o : Option Json) (key : String)
    → LooksFor
        (λ v. at_key (at_key o "data") key ≡ some v)
        (elim o [
          | none ↦ raise other
          | some entry ↦ index entry "data" >>= λ data_of. index data_of key
        ])
entry_lem none key = tt
entry_lem (some entry) key =
    LooksFor-then (index entry "data") _ _ _ (index_lem entry "data") (λ data_of has.
      subst (λ o. LooksFor (λ v. at_key o key ≡ some v) (index data_of key)) (sym has)
        (index_lem data_of key))

data_at_lem :
    (records : List Json) (i : ℕ) (key : String)
    → LooksFor (λ v. kept_at records i key ≡ some v) (data_at records i key)
unfolding data_at
data_at_lem records i key = entry_lem (nth records i) key

as_text_lem : (value : Json) → LooksFor (λ t. value ≡ string t) (as_text value)
unfolding as_text
as_text_lem (string s) = refl
as_text_lem null = tt
as_text_lem (boolean b) = tt
as_text_lem (number x) = tt
as_text_lem (array xs) = tt
as_text_lem (object fs) = tt

raise_if_lem :
    {A : Type 0} (b : Bool) (m : String) (k : Work A) (P : A → Type 0)
    → LooksFor P k
    → LooksFor P (raise_if b m >>= λ x. k)
raise_if_lem true m k P h = tt
raise_if_lem false m k P h = h

safe_file_lem :
    (root relative : String) → LooksFor (λ p. p ≡ root <> "/" <> relative) (safe_file root relative)
unfolding safe_file
safe_file_lem root relative = raise_if_lem (is_unsafe relative) _ _ _ (
  refl,
  elim [
    | raised e ↦ tt
    | got linked ↦
        raise_if_lem linked _ _ _
          (refl, elim [ raised e ↦ tt | got within ↦ raise_if_lem (not within) _ _ _ refl ])
  ],
)

abbrev text_or_empty : Option Json → String
text_or_empty (some (string t)) = t
text_or_empty _ = ""

-- The bundle that the fourth record names
abbrev pub bundle_of : String → List Json → String
bundle_of archive records = archive <> "/" <> text_or_empty (kept_at records 3 "bundle")

pub sealed_bundle_lem :
    (archive : String) (records : List Json)
    → LooksFor (λ p. p ≡ bundle_of archive records) (sealed_bundle archive records)
unfolding sealed_bundle
sealed_bundle_lem archive records =
    LooksFor-then (data_at records 3 "bundle") _ _ _ (data_at_lem records 3 "bundle") (λ value has.
      LooksFor-then (as_text value) _ _ _ (as_text_lem value) (λ relative is_text.
        subst (λ name. LooksFor (λ p. p ≡ archive <> "/" <> name) (safe_file archive relative))
          (sym (ap text_or_empty (has ∙ ap (λ v. some v) is_text)))
          (safe_file_lem archive relative)))
