-- ===== src/Update/Transaction/Custody/Quiet.antt =====
-- The parts of a transaction that leave the service and the journal alone
-- (scripts/personal_update.py): each may be used where its paths may be changed.
use hp_lj_1020_driver.Base.{
  ℕ, zero, suc, ◌≡◌, refl, String, Bool, true, false, List, [], ◌∷◌, Option, none, some,
  if◌then◌else◌,
}
use hp_lj_1020_driver.Base.Prog.{
  Outcome, ok, err, Holds, Holds->>=, Holds-mono, Then, ret, ◌>>=◌, ◌>>◌,
}
use hp_lj_1020_driver.Update.Calls.{
  Error, FilePath, root, child, beside, Listed, regular, directory, special, Reply, got, raised,
  written, failed, Work, answer, raise_if,
}
use hp_lj_1020_driver.Update.Transaction.{
  store, take_inventory, inventory, sync_copy, copy_verified, mark, snapshot_one, snapshot_all,
  remove_real, remove, replace, upgrade, migrate_from, migrate, restore_one, restore_all, if_exists,
}
use hp_lj_1020_driver.Update.Transaction.Custody.{Custody, Guards, Touches, custody}

-- No inventory has been read that a tree is to be held against.
abbrev pub calm : Custody → Custody
calm s = record s { asked = none }

-- Every call is allowed from `calm s` on, and the monitor ends where it began.
abbrev pub Quiet : {A : Type 0} → Work Error A → Custody → Type 0
Quiet m s = Holds custody m (calm s) (λ s' o. s' ≡ calm s)

pub Quiet-bind :
    {A B : Type 0} (m : Work Error A) (f : A → Work Error B) (s : Custody)
    → Quiet m s
    → ((a : A) → Quiet (f a) s)
    → Quiet (m >>= f) s
Quiet-bind {A} {B} m f s h k = Holds->>= custody m f (calm s) _ (Holds-mono custody m (calm s) go h)
  where
    go :
        (s' : Custody) (o : Outcome Error A)
        → s' ≡ calm s
        → Then custody f (λ s' (o : Outcome Error B). s' ≡ calm s) s' o
    go s' (ok a) e = rw e (k a)
    go s' (err x) e = e

take_inventory-Quiet : (xs : List Listed) (s : Custody) → Quiet (take_inventory xs) s
unfolding take_inventory
take_inventory-Quiet [] s = refl
take_inventory-Quiet (regular e ∷ xs) s =
    Quiet-bind (take_inventory xs) (λ es. ret (e ∷ es)) s (take_inventory-Quiet xs s) (λ es. refl)
take_inventory-Quiet (directory e ∷ xs) s =
    Quiet-bind (take_inventory xs) (λ es. ret (e ∷ es)) s (take_inventory-Quiet xs s) (λ es. refl)
take_inventory-Quiet (special name ∷ xs) s = refl

pub inventory-Quiet : (p : FilePath) (s : Custody) → Quiet (inventory p) s
unfolding inventory
inventory-Quiet p s =
    (tt, elim [ got listed ↦ λ _. take_inventory-Quiet listed s | raised e ↦ λ _. refl ])

pub raise_if-Quiet : (b : Bool) (m : String) (s : Custody) → Quiet (raise_if b m) s
raise_if-Quiet true m s = refl
raise_if-Quiet false m s = refl

raise_if-then :
    {A : Type 0} (b : Bool) (m : String) (k : Work Error A) (s : Custody)
    → Quiet k s
    → Quiet (raise_if b m >> k) s
raise_if-then true m k s h = refl
raise_if-then false m k s h = h

if-Quiet :
    {A : Type 0} (b : Bool) (m n : Work Error A) (s : Custody)
    → Quiet m s
    → Quiet n s
    → Quiet (if b then m else n) s
if-Quiet true m n s h k = h
if-Quiet false m n s h k = k

answer-Quiet : {A : Type 0} (s : Custody) (r : Reply A) → Quiet (answer r) s
answer-Quiet s (got a) = refl
answer-Quiet s (raised e) = refl

sync_copy-Quiet : (p : FilePath) (s : Custody) → Quiet (sync_copy p) s
unfolding sync_copy
sync_copy-Quiet p s =
    (tt, elim [ raised e ↦ λ _. refl | got _ ↦ λ _. (tt, λ r _. answer-Quiet s r) ])

pub copy_verified-Quiet :
    (from destination : FilePath) (s : Custody)
    → Touches s destination
    → Quiet (copy_verified from destination) s
unfolding copy_verified
copy_verified-Quiet from destination s may = (
  may,
  elim [
    | raised e ↦ λ _. refl
    | got _ ↦ λ _. Quiet-bind (inventory from) _ s (inventory-Quiet from s) (λ expected.
        Quiet-bind (inventory destination) _ s (inventory-Quiet destination s)
          (λ actual. raise_if-then _ _ (sync_copy destination) s (sync_copy-Quiet destination s)))
  ],
)

pub mark-Quiet : (name : String) (s : Custody) → Quiet (mark name) s
unfolding mark
mark-Quiet name s = (tt, λ r _. answer-Quiet s r)

pub if_exists-Quiet :
    (p : FilePath) (m n : Work Error (Unit {0})) (s : Custody)
    → Quiet m s
    → Quiet n s
    → Quiet (if_exists p m n) s
if_exists-Quiet p m n s h k =
    (tt, elim [ got b ↦ λ _. if-Quiet b m n s h k | raised e ↦ λ _. refl ])

snapshot_one-Quiet :
    (run name : String) (s : Custody)
    → Quiet (snapshot_one (child (child store run) "before") name) s
unfolding snapshot_one
snapshot_one-Quiet run name s =
    if_exists-Quiet (child root name) _ _ s
      (Quiet-bind (inventory (child root name)) _ s (inventory-Quiet _ s) (λ _.
        Quiet-bind (copy_verified (child root name) _) _ s
          (copy_verified-Quiet (child root name) _ s (λ h. cc)) (λ _. mark-Quiet _ s)))
      refl

pub snapshot_all-Quiet :
    (run : String) (names : List String) (s : Custody)
    → Quiet (snapshot_all (child (child store run) "before") names) s
unfolding snapshot_all
snapshot_all-Quiet run [] s = refl
snapshot_all-Quiet run (name ∷ names) s =
    Quiet-bind (snapshot_one _ name) _ s (snapshot_one-Quiet run name s)
      (λ _. snapshot_all-Quiet run names s)

remove_real-Quiet : (p : FilePath) (s : Custody) → Touches s p → Quiet (remove_real p) s
unfolding remove_real
remove_real-Quiet p s may = (
  tt,
  elim [
    | raised e ↦ λ _. refl
    | got true ↦ λ _. (may, λ r _. answer-Quiet s r)
    | got false ↦ λ _. if_exists-Quiet p _ _ s (may, λ r _. answer-Quiet s r) refl
  ],
)

pub remove-Quiet : (p : FilePath) (s : Custody) → Touches s p → Quiet (remove p) s
unfolding remove
remove-Quiet p s may = (
  tt,
  elim [
    | raised e ↦ λ _. refl
    | got link ↦ λ _. raise_if-then link _ (remove_real p) s (remove_real-Quiet p s may)
  ],
)

pub replace-Quiet :
    (from p : FilePath) (n name : String) (s : Custody)
    → Touches s (child p n)
    → Quiet (replace from (child p n) name) s
unfolding replace
replace-Quiet from p n name s may =
    let destination : FilePath = child p n in
    Quiet-bind (remove (beside destination ".replacement")) _ s (remove-Quiet _ s may) (λ _.
      Quiet-bind (copy_verified from (beside destination ".replacement")) _ s
        (copy_verified-Quiet from _ s may)
        (λ _. Quiet-bind (remove (beside destination ".displaced")) _ s (remove-Quiet _ s may) (λ _.
          Quiet-bind (if_exists destination _ _) _ s
            (if_exists-Quiet destination _ _ s
              ((may, may), elim [ raised e ↦ λ _. refl | got _ ↦ λ _. refl ]) refl)
            (λ _. Quiet-bind (mark _) _ s (mark-Quiet _ s) (λ _. (
              (may, may),
              elim [
                | raised e ↦ λ _. refl
                | got _ ↦ λ _. (
                  tt,
                  elim [
                    | raised e ↦ λ _. refl
                    | got _ ↦
                        λ _. Quiet-bind (mark _) _ s (mark-Quiet _ s) (λ _. remove-Quiet _ s may)
                  ],
                )
              ],
            ))))))

restore_one-Quiet :
    (from : FilePath) (name : String) (s : Custody) → Guards s → Quiet (restore_one from name) s
unfolding restore_one
restore_one-Quiet from name s g =
    Quiet-bind (if_exists (child from name) _ _) _ s
      (if_exists-Quiet (child from name) _ _ s (replace-Quiet _ root name name s (λ _. g))
        (remove-Quiet (child root name) s (λ _. g)))
      (λ _. mark-Quiet _ s)

pub restore_all-Quiet :
    (from : FilePath) (names : List String) (s : Custody)
    → Guards s
    → Quiet (restore_all from names) s
unfolding restore_all
restore_all-Quiet from [] s g = refl
restore_all-Quiet from (name ∷ names) s g =
    Quiet-bind (restore_one from name) _ s (restore_one-Quiet from name s g)
      (λ _. restore_all-Quiet from names s g)

upgrade-Quiet : (v : ℕ) (s : Custody) → Guards s → Quiet (upgrade v) s
unfolding upgrade
upgrade-Quiet zero s g = Quiet-bind (mark _) _ s (mark-Quiet _ s) (λ _. (
  (λ _. g),
  elim [
    | failed replaced e ↦ λ _. refl
    | written ↦ λ _. ((λ _. g), elim [ raised e ↦ λ _. refl | got _ ↦ λ _. mark-Quiet _ s ])
  ],
))
upgrade-Quiet (suc v) s g = refl

migrate_from-Quiet : (v : Option ℕ) (s : Custody) → Guards s → Quiet (migrate_from v) s
unfolding migrate_from
migrate_from-Quiet none s g = refl
migrate_from-Quiet (some v) s g =
    Quiet-bind (upgrade v) _ s (upgrade-Quiet v s g) (λ _. mark-Quiet _ s)

pub migrate-Quiet : (s : Custody) → Guards s → Quiet migrate s
unfolding migrate
migrate-Quiet s g = (
  tt,
  elim [
    | raised e ↦ λ _. refl
    | got false ↦ λ _. migrate_from-Quiet _ s g
    | got true ↦ λ _. (tt, elim [ raised e ↦ λ _. refl | got v ↦ λ _. migrate_from-Quiet _ s g ])
  ],
)
