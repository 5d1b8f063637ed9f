-- ===== src/Release/Records/Contents.antt =====
-- What a directory contains, and what a record says (scripts/personal_release.py).
use hp_lj_1020_driver.Base.{
  ◌≡◌, refl, sym, ap, ◌∙◌, String, ◌<>◌, Bool, true, false, not, some, List, [], ◌∷◌, str_eq,
  eq_iff,
}
use mathlib.Core.Bool.{true≢false}
use hp_lj_1020_driver.Base.Json.{Json}
use hp_lj_1020_driver.Base.Json.Order.{json_eq}
use hp_lj_1020_driver.Release.Calls.{
  Kind, plain, folder, link, special, Inventory, digest, list_tree, ask, raise_if, index,
}
use hp_lj_1020_driver.Release.Files.{sorted, take_inventory, inventory}
use hp_lj_1020_driver.Release.World.{
  World, value_at, Sees, sees_then, sees_ask, sees_raise_if, sees_index, sees_mono,
}
use hp_lj_1020_driver.Release.Records.{demand}

pub so_if_refuted : (b : Bool) → not b ≡ false → b ≡ true
so_if_refuted true h = refl
so_if_refuted false h = cc

abbrev pub broken : String
broken = "broken stage chain"

abbrev pub unsafe : String
unsafe = "stage record is writable or unsafe"

pub impossible {ℓ} : {A : Type ℓ} → true ≡ false → A
impossible h = absurd (true≢false h)

pub differs {ℓ} : {A : Type ℓ} {s t : String} → str_eq s t ≡ false → s ≡ t → A
differs {s} {t} e h = impossible (sym ((eq_iff s t).1 h) ∙ e)

pub not_both {ℓ} : {A : Type ℓ} (s : String) → str_eq s "prepared" ≡ true → s ≡ "tagged" → A
not_both s e h = impossible (sym (sym (ap (λ u. str_eq u "prepared") h) ∙ e))

module _ (world : World) where
  -- The plain files below a directory, with the checksums of their contents
  abbrev pub files_of : String → List (String × Kind) → Inventory
  files_of path [] = []
  files_of path ((name, plain) ∷ listed) =
      (name, world (digest (path <> "/" <> name))) ∷ files_of path listed
  files_of path ((name, folder) ∷ listed) = files_of path listed
  files_of path ((name, link) ∷ listed) = []
  files_of path ((name, special) ∷ listed) = []

  pub take_inventory_lem :
      (path : String) (listed : List (String × Kind))
      → Sees world (take_inventory path listed) (λ es. es ≡ files_of path listed)
  unfolding take_inventory
  take_inventory_lem path [] = refl
  take_inventory_lem path ((name, plain) ∷ listed) =
      sees_then world (ask (digest (path <> "/" <> name))) _ _ _
        (sees_ask world (digest (path <> "/" <> name)) refl)
        (λ sum p.
          sees_then world (take_inventory path listed) _ _ _ (take_inventory_lem path listed)
            (λ es q. cc))
  take_inventory_lem path ((name, folder) ∷ listed) = take_inventory_lem path listed
  take_inventory_lem path ((name, link) ∷ listed) = tt
  take_inventory_lem path ((name, special) ∷ listed) = tt

  -- The inventory of a directory
  abbrev pub contents_of : String → Inventory
  contents_of path = sorted (files_of path (world (list_tree path)))

  pub inventory_lem : (path : String) → Sees world (inventory path) (λ es. es ≡ contents_of path)
  unfolding inventory
  inventory_lem path =
      sees_then world (ask (list_tree path)) _ _ _ (sees_ask world (list_tree path) refl)
        (λ listed p.
          sees_then world (take_inventory path listed) _ _ _ (take_inventory_lem path listed)
            (λ es q. cc))

  -- A value has a key, with a value that Python takes for equal to the expected one.
  abbrev pub Says : Json → String → Json → Type 0
  Says value key expected = (v : Json) × (value_at value key ≡ some v) × (json_eq v expected ≡ true)

  pub demand_lem :
      (value : Json) (key : String) (expected : Json) (message : String)
      → Sees world (demand value key expected message) (λ x. Says value key expected)
  unfolding demand
  demand_lem value key expected message =
      sees_then world (index value key) _ _ _ (sees_index world value key) (λ v p.
        sees_mono world (raise_if (not (json_eq v expected)) message) _ _
          (sees_raise_if world (not (json_eq v expected)) message)
          (λ x q. (v, p, so_if_refuted (json_eq v expected) q)))
