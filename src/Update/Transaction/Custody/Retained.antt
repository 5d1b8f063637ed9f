-- ===== src/Update/Transaction/Custody/Retained.antt =====
-- The retained files under the custody monitor: `snapshot`, `verify` and `restore`, and the placing of
-- the plist (scripts/personal_update.py).
use hp_lj_1020_driver.Base.{
  ◌≡◌, refl, ◌⊎◌, inl, inr, String, true, false, Option, none, List, [], ◌∷◌, keep, not, str_eq,
  Bool, Bool-cases,
}
use hp_lj_1020_driver.Base.Prog.{Holds, ret, raise}
use hp_lj_1020_driver.Update.Calls.{
  Error, FilePath, plist, child, beside, Listed, regular, directory, special, Inventory, Journal,
  got, raised, written, failed,
}
use hp_lj_1020_driver.Update.Transaction.{
  store, take_inventory, inventory, copy_verified, mark, snapshot_all, snapshot, verify, remove,
  replace, restore_all, restore, if_exists, payload, data_names, inventory_eq,
}
use hp_lj_1020_driver.Update.Transaction.Inventories.{inventory_eq_lem}
use hp_lj_1020_driver.Update.Transaction.Custody.{
  Custody, Look, Guards, IsCovered, Agrees, inventory_of, custody,
}
use hp_lj_1020_driver.Update.Transaction.Custody.Quiet.{
  calm, inventory-Quiet, copy_verified-Quiet, mark-Quiet, snapshot_all-Quiet, remove-Quiet,
  restore_all-Quiet, if_exists-Quiet,
}
use hp_lj_1020_driver.Update.Transaction.Custody.Leads.{
  Ending, Leads, Ending-then, Leads-bind, Leads-Ending, Quiet-Leads,
}

-- The service is stopped, and this is what was listed, taken and placed since.
abbrev pub held : Option Journal → List Look → List FilePath → Bool → Custody
held j looks taken placed = record {
  stopped = true;
  journal = j;
  asked = none;
  looks = looks;
  taken = taken;
  placed = placed;
}

pub snapshot-Leads :
    (run : String) (j : Option Journal)
    → Leads
        (snapshot (child (child store run) "before"))
        (held j [] [] false)
        (held j [] (inventory_of (child (child store run) "before") ∷ []) false)
unfolding snapshot
snapshot-Leads run j =
    let s : Custody = held j [] [] false in
    (
      (λ h. cc),
      elim [
        | raised e ↦ λ _. tt
        | got _ ↦ λ _.
            Leads-bind (snapshot_all _ (payload ∷ data_names)) _ s s _
              (Quiet-Leads (snapshot_all _ _) s (snapshot_all-Quiet run (payload ∷ data_names) s))
              (λ _.
                Leads-bind (copy_verified plist _) _ s s _
                  (Quiet-Leads (copy_verified plist _) s (copy_verified-Quiet plist _ s (λ h. cc)))
                  (λ _. (
                    tt,
                    elim [
                      | raised e ↦ λ _. tt
                      | got _ ↦ λ _.
                          Leads-bind (inventory _) _ s s _
                            (Quiet-Leads (inventory _) s (inventory-Quiet _ s))
                            (λ found. (
                              (λ h. cc),
                              elim [
                                | failed replaced e ↦ λ _. tt
                                | written ↦
                                    λ _. (tt, elim [ raised e ↦ λ _. tt | got _ ↦ λ _. refl ])
                              ],
                            ))
                    ],
                  )))
      ],
    )

take_inventory-cases :
    (xs : List Listed)
    → ((found : Inventory) × (take_inventory xs ≡ ret found))
      ⊎ ((e : Error) × (take_inventory xs ≡ raise e))
unfolding take_inventory
take_inventory-cases [] = inl ([], refl)
take_inventory-cases (special name ∷ xs) = inr (_, refl)
take_inventory-cases (regular x ∷ xs) = elim (take_inventory-cases xs) [
  | inl (found, e) ↦ inl (x ∷ found, rw e refl)
  | inr (x', e) ↦ inr (x', rw e refl)
]
take_inventory-cases (directory x ∷ xs) = elim (take_inventory-cases xs) [
  | inl (found, e) ↦ inl (x ∷ found, rw e refl)
  | inr (x', e) ↦ inr (x', rw e refl)
]

pub verify-Verified :
    (p : FilePath) (s : Custody)
    → Holds custody (verify p) s (
        Ending (λ s' a.
          (look : Look) × Agrees p look × (s' ≡ record (calm s) { looks = look ∷ s.looks })))
unfolding verify inventory
verify-Verified p s = (
  tt,
  elim [
    | raised e ↦ λ _. tt
    | got expected ↦ λ _. (
      tt,
      elim [
        | raised e ↦ λ _. tt
        | got found ↦ λ _. elim (take_inventory-cases found) [
          | inr (x, bad) ↦ rw bad tt
          | inl (actual, e) ↦
              elim (Bool-cases
                (inventory_eq expected (keep (λ x. not (str_eq x.name "inventory.json")) actual))) [
                  | inr differs ↦ rw (e, differs) tt
                  | inl same ↦
                      rw (e, same) (_, (refl, refl, (actual, e, inventory_eq_lem _ _ same)), refl)
                ]
        ]
      ],
    )
  ],
)

pub replace_plist-Leads :
    (from : FilePath) (j : Option Journal) (looks : List Look) (taken : List FilePath)
    (placed : Bool)
    → Guards (held j looks taken placed)
    → Leads
        (replace from plist "com.bartekpapierski.hplj1020.service.plist")
        (held j looks taken placed)
        (held j looks taken true)
unfolding replace
replace_plist-Leads from j looks taken placed g =
    let s : Custody = held j looks taken placed in
    let t : Custody = held j looks taken true in
    Leads-bind (remove (beside plist ".replacement")) _ s s t
      (Quiet-Leads (remove _) s (remove-Quiet (beside plist ".replacement") s (λ _. g)))
      (λ _.
        Leads-bind (copy_verified from _) _ s s t
          (Quiet-Leads (copy_verified from _) s (copy_verified-Quiet from _ s (λ _. g)))
          (λ _.
            Leads-bind (remove (beside plist ".displaced")) _ s s t
              (Quiet-Leads (remove _) s (remove-Quiet (beside plist ".displaced") s (λ _. g)))
              (λ _.
                Leads-bind (if_exists plist _ _) _ s s t
                  (Quiet-Leads (if_exists plist _ _) s (
                    if_exists-Quiet plist _ _ s
                      (((λ _. g), (λ _. g)), elim [ raised e ↦ λ _. refl | got _ ↦ λ _. refl ])
                      refl))
                  (λ _. Leads-bind (mark _) _ s s t (Quiet-Leads (mark _) s (mark-Quiet _ s)) (λ _.
                    (
                      ((λ _. g), (λ _. g)),
                      elim [
                        | raised e ↦ λ _. tt
                        | got _ ↦ λ _. (
                          tt,
                          elim [
                            | raised e ↦ λ _. tt
                            | got _ ↦ λ _.
                                Leads-bind (mark _) _ t t t
                                  (Quiet-Leads (mark _) t (mark-Quiet _ t))
                                  (λ _.
                                    Quiet-Leads (remove (beside plist ".displaced")) t
                                      (remove-Quiet (beside plist ".displaced") t (λ _. g)))
                          ],
                        )
                      ],
                    ))))))

-- The state after a restoring.
abbrev pub Placed : Option Journal → List FilePath → Custody → Type 0
Placed j taken s = (looks : List Look) × (s ≡ held j looks taken true)

pub restore-Placed :
    (from : FilePath) (j : Option Journal) (looks : List Look) (taken : List FilePath)
    (placed : Bool)
    → ((look : Look) → Agrees from look → IsCovered j taken (look ∷ looks))
    → Holds custody (restore from) (held j looks taken placed) (Ending (λ s a. Placed j taken s))
unfolding restore mark
restore-Placed from j looks taken placed ready =
    Ending-then (verify from) _ (held j looks taken placed) _ _
      (verify-Verified from (held j looks taken placed))
      (λ s' a (look, agrees, e).
        let s : Custody = held j (look ∷ looks) taken placed in
        let g : Guards s = (refl, ready look agrees) in
        let t : Custody = held j (look ∷ looks) taken true in
        rw e (
          Leads-Ending (restore_all from (payload ∷ data_names)) _ s s _
            (Quiet-Leads (restore_all from _) s (restore_all-Quiet from (payload ∷ data_names) s g))
            (λ _.
              Leads-Ending (replace _ plist _) _ s t _
                (replace_plist-Leads _ j (look ∷ looks) taken placed g)
                (λ _. (tt, elim [ raised e ↦ λ _. tt | got _ ↦ λ _. (look ∷ looks, refl) ])))))
