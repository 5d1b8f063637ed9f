-- ===== src/Update/Transaction/Custody.antt =====
-- Who may touch the installed files, and when (scripts/personal_update.py): a monitor over the
-- calls of a transaction.
mod Quiet
pub mod Leads
mod Retained
pub mod Guarded
pub mod Execution
use hp_lj_1020_driver.Base.{
  ◌≡◌, ◌⊎◌, String, Bool, true, false, not, ◌||◌, Option, none, some, List, [], ◌∷◌, keep, str_eq,
  if◌then◌else◌,
}
use hp_lj_1020_driver.Base.Prog.{Monitor, ret}
use hp_lj_1020_driver.Update.Calls.{
  FilePath, root, plist, source, child, beside, parent, Phase, preparing, admission, stopping,
  backed_up, migrating, starting, committed, restoring, Journal, Call, stop, start, Inventory,
  Listed, inventory_doc, close_admission, read_inventory, list_tree, new_run_id, release, copy,
  durable_json, write_journal, has_journal, read_journal, remove_journal, rmtree, unlink, rename,
  mkdir, adopt_owner, protect_tree, got, raised, written, failed, Replies,
}
use hp_lj_1020_driver.Update.Transaction.{store, take_inventory}
use hp_lj_1020_driver.Update.Transaction.Inventories.{SameInventory}

-- What was read and then listed: the path of an inventory and what it says, the path of a tree and
-- what it has.
abbrev pub Look : Type 0
Look = FilePath × Inventory × FilePath × List Listed

-- `stopped`: the latest of `stop` and `start` was a `stop` that returned. `journal` is what the
-- journal's file holds. Since that `stop` and since the run got its name: `asked`, an inventory that was
-- read, while no tree has been listed after it; `looks`, the inventories with the trees listed next;
-- `taken`, the inventories that were written; `placed`, whether the plist was renamed into place.
pub record Custody : Type 0 where
  pub stopped : Bool
  pub journal : Option Journal
  pub asked : Option (FilePath × Inventory)
  pub looks : List Look
  pub taken : List FilePath
  pub placed : Bool

-- Where a run begins, and with the service in either state.
abbrev pub at : Bool → Option Journal → Custody
at stopped journal = record {
  stopped = stopped;
  journal = journal;
  asked = none;
  looks = [];
  taken = [];
  placed = false;
}

-- The installed payload, its data, the service's plist, and their fixed temporaries; the store of
-- transactions is not.
abbrev pub is_live : FilePath → Bool
is_live root = false
is_live plist = true
is_live source = false
is_live (parent p) = false
is_live (beside p suffix) = is_live p
is_live (child root name) = not (str_eq name "transactions")
is_live (child p name) = is_live p

abbrev pub Opens : Phase → Type 0
Opens committed = Unit
Opens admission = Unit
Opens _ = ⊥

abbrev pub Closes : Phase → Type 0
Closes admission = Unit
Closes _ = ⊥

abbrev pub IsOpen : Phase → Type 0
IsOpen committed = ⊥
IsOpen _ = Unit

-- The phases in which a run may end.
abbrev pub Ends : Phase → Type 0
Ends preparing = Unit
Ends admission = Unit
Ends committed = Unit
Ends _ = ⊥

abbrev pub OnJournal : (Phase → Type 0) → Option Journal → Type 0
OnJournal P none = ⊥
OnJournal P (some r) = P r.phase

-- What recovery restores of a run, and its inventory.
abbrev pub retained : Journal → FilePath
retained r = child (child store r.run_id) "before"

abbrev pub inventory_of : FilePath → FilePath
inventory_of p = child p "inventory.json"

-- The tree was listed after its inventory was read, and has just what that says but for the inventory itself.
abbrev pub Agrees : FilePath → Look → Type 0
Agrees p (asked, expected, listed, found) =
    (asked ≡ inventory_of p)
    × (listed ≡ p)
    × ((actual : Inventory) × (take_inventory found ≡ ret actual)
        × SameInventory expected (keep (λ e. not (str_eq e.name "inventory.json")) actual))

abbrev pub IsVerified : FilePath → List Look → Type 0
IsVerified p [] = ⊥
IsVerified p (look ∷ looks) = Agrees p look ⊎ IsVerified p looks

abbrev pub IsTaken : FilePath → List FilePath → Type 0
IsTaken p [] = ⊥
IsTaken p (q ∷ taken) = (q ≡ inventory_of p) ⊎ IsTaken p taken

-- In the phases `backed-up` and `migrating` the snapshot of the run was taken and verified, in
-- `restoring` it was verified, and in no other phase may files be changed.
abbrev pub IsReady : Phase → FilePath → List FilePath → List Look → Type 0
IsReady backed_up p taken looks = IsTaken p taken × IsVerified p looks
IsReady migrating p taken looks = IsTaken p taken × IsVerified p looks
IsReady restoring p taken looks = IsVerified p looks
IsReady _ p taken looks = ⊥

abbrev pub IsCovered : Option Journal → List FilePath → List Look → Type 0
IsCovered none taken looks = ⊥
IsCovered (some r) taken looks = IsReady r.phase (retained r) taken looks

abbrev pub Guards : Custody → Type 0
Guards s = (s.stopped ≡ true) × IsCovered s.journal s.taken s.looks

-- A live path is changed only while the service is stopped and the retained files are ready.
abbrev pub Touches : Custody → FilePath → Type 0
Touches s p = is_live p ≡ true → Guards s

-- The service starts again as it was, or with the plist put into place since it was stopped.
abbrev pub Starts : Bool → Phase → Type 0
Starts placed stopping = Unit
Starts placed starting = placed ≡ true
Starts placed restoring = placed ≡ true
Starts placed _ = ⊥

abbrev pub Allowed : Custody → Call → Type 0
Allowed s (copy from destination) = Touches s destination
Allowed s (rename from destination) = Touches s from × Touches s destination
Allowed s (rmtree p) = Touches s p
Allowed s (unlink p) = Touches s p
Allowed s (mkdir p) = Touches s p
Allowed s (adopt_owner p) = Touches s p
Allowed s (protect_tree p) = Touches s p
Allowed s (durable_json p document) = Touches s p
Allowed s close_admission = OnJournal Closes s.journal
Allowed s stop = OnJournal IsOpen s.journal
Allowed s start = (s.stopped ≡ true) × OnJournal (Starts s.placed) s.journal
Allowed s release = OnJournal Opens s.journal
Allowed s remove_journal = OnJournal Ends s.journal
Allowed s _ = Unit

abbrev pub Legal : Custody → (c : Call) → Replies c → Type 0
Legal s has_journal (got true) = (r : Journal) × (s.journal ≡ some r)
Legal s has_journal (got false) = s.journal ≡ none
Legal s read_journal (got r) = s.journal ≡ some r
Legal s _ _ = Unit

abbrev pub hear_tree : FilePath → List Listed → Option (FilePath × Inventory) → Custody → Custody
hear_tree p found none s = s
hear_tree p found (some (asked, expected)) s = record s {
  asked = none;
  looks = (asked, expected, p, found) ∷ s.looks;
}

abbrev pub is_plist : FilePath → Bool
is_plist plist = true
is_plist _ = false

abbrev pub Next : Custody → (c : Call) → Replies c → Custody
Next s stop (got _) = at true s.journal
Next s stop (raised e) = at false s.journal
Next s start r = at false s.journal
Next s new_run_id r = at s.stopped s.journal
Next s (write_journal r) written = record s { journal = some r }
Next s (write_journal r) (failed replaced e) = record s {
  journal = if replaced then some r else s.journal;
}
Next s remove_journal (got _) = record s { journal = none }
Next s (read_inventory p) (got expected) = record s { asked = some (p, expected) }
Next s (list_tree p) (got found) = hear_tree p found s.asked s
Next s (durable_json p (inventory_doc found)) written = record s { taken = p ∷ s.taken }
Next s (rename from destination) (got _) = record s { placed = is_plist destination || s.placed }
Next s _ _ = s

abbrev pub custody : Monitor Custody Call Replies
custody = record { allowed = Allowed; legal = Legal; next = Next }
