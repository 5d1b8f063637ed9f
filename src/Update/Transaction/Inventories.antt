-- ===== src/Update/Transaction/Inventories.antt =====
-- What `inventory_eq` finds out (scripts/personal_update.py).
use hp_lj_1020_driver.Base.{
  ℕ, ◌≡◌, refl, ◌⊎◌, inl, inr, String, Bool, true, false, ◌&&◌, ◌||◌, Option, none, some, [], ◌∷◌,
  all, any, length, str_eq, eq_iff, Bool-cases, ◌==◌, arith,
}
use hp_lj_1020_driver.Update.Calls.{Entry, Inventory}
use hp_lj_1020_driver.Update.Transaction.{option_eq, entry_eq, inventory_eq}

-- Two entries say the same of a file.
abbrev pub SameEntry : Entry → Entry → Type 0
SameEntry a b =
    (a.name ≡ b.name)
    × (a.mode ≡ b.mode)
    × (a.uid ≡ b.uid)
    × (a.gid ≡ b.gid)
    × (a.sha256 ≡ b.sha256)

abbrev pub IsListed : Entry → Inventory → Type 0
IsListed a [] = ⊥
IsListed a (b ∷ bs) = SameEntry a b ⊎ IsListed a bs

abbrev pub AllListed : Inventory → Inventory → Type 0
AllListed [] bs = Unit
AllListed (a ∷ xs) bs = IsListed a bs × AllListed xs bs

-- As many entries, and each of the one is one of the other.
abbrev pub SameInventory : Inventory → Inventory → Type 0
SameInventory a b = (length a ≡ length b) × AllListed a b

and_true : (a b : Bool) → (a && b) ≡ true → (a ≡ true) × (b ≡ true)
and_true true b h = (refl, h)
and_true false b h = cc

or_right : (a b : Bool) → a ≡ false → (a || b) ≡ true → b ≡ true
or_right true b e h = cc
or_right false b e h = h

option_eq_lem : (a b : Option String) → option_eq a b ≡ true → a ≡ b
option_eq_lem none none h = refl
option_eq_lem none (some b) h = cc
option_eq_lem (some a) none h = cc
option_eq_lem (some a) (some b) h = rw ((eq_iff a b).0 h) refl

same_number : (a b : ℕ) → (a == b) ≡ true → a ≡ b
same_number a b h = ground arith

entry_eq_lem : (a b : Entry) → entry_eq a b ≡ true → SameEntry a b
entry_eq_lem a b h =
    let (rest, sum) = and_true _ (option_eq a.sha256 b.sha256) h in
    let (rest, gid) = and_true _ (a.gid == b.gid) rest in
    let (rest, uid) = and_true _ (a.uid == b.uid) rest in
    let (named, mode) = and_true (str_eq a.name b.name) (a.mode == b.mode) rest in
    (
      (eq_iff a.name b.name).0 named,
      same_number _ _ mode,
      same_number _ _ uid,
      same_number _ _ gid,
      option_eq_lem _ _ sum,
    )

any-IsListed : (a : Entry) (bs : Inventory) → any (entry_eq a) bs ≡ true → IsListed a bs
any-IsListed a [] h = cc
any-IsListed a (b ∷ bs) h = elim (Bool-cases (entry_eq a b)) [
  | inl same ↦ inl (entry_eq_lem a b same)
  | inr other ↦ inr (any-IsListed a bs (or_right _ _ other h))
]

all-AllListed : (xs bs : Inventory) → all (λ x. any (entry_eq x) bs) xs ≡ true → AllListed xs bs
all-AllListed [] bs h = tt
all-AllListed (a ∷ xs) bs h =
    let (first, rest) = and_true _ _ h in (any-IsListed a bs first, all-AllListed xs bs rest)

pub inventory_eq_lem : (a b : Inventory) → inventory_eq a b ≡ true → SameInventory a b
inventory_eq_lem a b h =
    let (sized, listed) = and_true _ _ h in (same_number _ _ sized, all-AllListed a b listed)
