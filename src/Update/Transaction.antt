-- ===== src/Update/Transaction.antt =====
-- `Transaction` (scripts/personal_update.py): snapshots, replacement, migration and restoring.
pub mod Journal
mod Inventories
pub mod Custody
use hp_lj_1020_driver.Base.{
  ℕ, zero, suc, String, ◌<>◌, Bool, true, false, not, Option, none, some, List, [], ◌∷◌, ◌&&◌, all,
  any, keep, length, leb, ◌==◌, str_eq, if◌then◌else◌,
}
use hp_lj_1020_driver.Base.Prog.{ret, raise, call, ◌>>=◌, ◌>>◌}
use hp_lj_1020_driver.Update.Calls.{
  Error, install_error, FilePath, root, plist, child, beside, parent, Entry, Inventory, Listed,
  regular, directory, special, Version, whole, other, inventory_doc, version_doc, copy,
  backup_queue, durable_json, read_inventory, read_version, list_tree, exists, is_symlink, is_dir,
  rmtree, unlink, rename, mkdir, sync_tree, sync_directory, adopt_owner, checkpoint, Work, answer,
  answer_written, raise_if,
}

abbrev pub payload : String
payload = "HP-LJ-1020.app"

-- `DATA`
abbrev pub data_names : List String
data_names = "config" ∷ "state" ∷ "spool" ∷ "firmware" ∷ "cache" ∷ "home" ∷ []

abbrev pub store : FilePath
store = child root "transactions"

abbrev pub add_listed : Listed → Work Error Inventory → Work Error Inventory
add_listed (regular e) rest = rest >>= λ es. ret (e ∷ es)
add_listed (directory e) rest = rest >>= λ es. ret (e ∷ es)
add_listed (special name) rest = raise (install_error ("unsafe snapshot entry: " <> name))

pub take_inventory : List Listed → Work Error Inventory
take_inventory [] = ret []
take_inventory (x ∷ xs) = add_listed x (take_inventory xs)

pub inventory : FilePath → Work Error Inventory
inventory path = call (list_tree path) answer >>= take_inventory

abbrev pub option_eq : Option String → Option String → Bool
option_eq none none = true
option_eq none (some b) = false
option_eq (some a) none = false
option_eq (some a) (some b) = str_eq a b

abbrev pub entry_eq : Entry → Entry → Bool
entry_eq a b =
    str_eq a.name b.name
    && a.mode == b.mode
    && a.uid == b.uid
    && a.gid == b.gid
    && option_eq a.sha256 b.sha256

-- Equality of two inventories, which are dictionaries keyed by name.
abbrev pub inventory_eq : Inventory → Inventory → Bool
inventory_eq a b = length a == length b && all (λ x. any (entry_eq x) b) a

-- `copy`, once the inventories agree: the files are synced, then the directories.
pub sync_copy : FilePath → Work Error (Unit {0})
sync_copy destination = do
  call (sync_tree destination) answer
  call (sync_directory (parent destination)) answer

-- `Transaction.copy`
pub copy_verified : FilePath → FilePath → Work Error (Unit {0})
copy_verified from destination = do
  call (copy from destination) answer
  expected ← inventory from
  actual ← inventory destination
  raise_if (not (inventory_eq expected actual)) "copied payload/state differs from its source"
  sync_copy destination

pub mark : String → Work Error (Unit {0})
mark name = call (checkpoint name) answer

abbrev pub if_exists :
    FilePath → Work Error (Unit {0}) → Work Error (Unit {0}) → Work Error (Unit {0})
if_exists path yes_branch no_branch =
    call (exists path) answer >>= λ there. if there then yes_branch else no_branch

pub snapshot_one : FilePath → String → Work Error (Unit {0})
snapshot_one destination name =
    if_exists (child root name)
      (do
        inventory (child root name)
        copy_verified (child root name) (child destination name)
        mark ("snapshot-" <> name))
      (ret tt)

pub snapshot_all : FilePath → List String → Work Error (Unit {0})
snapshot_all destination [] = ret tt
snapshot_all destination (name ∷ names) =
    snapshot_one destination name >> snapshot_all destination names

pub snapshot : FilePath → Work Error (Unit {0})
snapshot destination = do
  call (mkdir destination) answer
  snapshot_all destination (payload ∷ data_names)
  copy_verified plist (child destination "service.plist")
  call (backup_queue destination) answer
  found ← inventory destination
  call (durable_json (child destination "inventory.json") (inventory_doc found)) answer_written
  call (sync_directory destination) answer

pub verify : FilePath → Work Error (Unit {0})
verify from = do
  expected ← call (read_inventory (child from "inventory.json")) answer
  actual ← inventory from
  raise_if (not (inventory_eq expected (keep (λ e. not (str_eq e.name "inventory.json")) actual)))
      "retained payload/state inventory mismatch; service must remain disabled"

-- `remove`, of what is no symbolic link
pub remove_real : FilePath → Work Error (Unit {0})
remove_real path = do
  dir ← call (is_dir path) answer
  elim dir [
    | true ↦ call (rmtree path) answer
    | false ↦ if_exists path (call (unlink path) answer) (ret tt)
  ]

pub remove : FilePath → Work Error (Unit {0})
remove path = do
  link ← call (is_symlink path) answer
  raise_if link "refusing symlink at transaction path"
  remove_real path

-- The name is `destination.name`, which the checkpoints carry.
pub replace : FilePath → FilePath → String → Work Error (Unit {0})
replace from destination name = do
  remove (beside destination ".replacement")
  copy_verified from (beside destination ".replacement")
  remove (beside destination ".displaced")
  if_exists destination (call (rename destination (beside destination ".displaced")) answer)
      (ret tt)
  mark ("replace-" <> name <> "-parked")
  call (rename (beside destination ".replacement") destination) answer
  call (sync_directory (parent destination)) answer
  mark ("replace-" <> name <> "-installed")
  remove (beside destination ".displaced")

abbrev pub schema : ℕ
schema = 1

abbrev pub version_path : FilePath
version_path = child (child root "config") "state-version.json"

abbrev pub current_version : Work Error Version
current_version = call (exists version_path) answer >>= λ there.
    if there then call (read_version version_path) answer else ret (whole 0)

abbrev pub accepted : Version → Option ℕ
accepted (whole v) = if leb v schema then some v else none
accepted other = none

-- v0 to v1 is metadata only.
pub upgrade : ℕ → Work Error (Unit {0})
upgrade zero = do
  mark "migration-0-1-before"
  call (durable_json version_path (version_doc 1)) answer_written
  call (adopt_owner version_path) answer
  mark "migration-0-1-after"
upgrade (suc version) = ret tt

pub migrate_from : Option ℕ → Work Error (Unit {0})
migrate_from none = raise (install_error "incompatible persistent state version")
migrate_from (some version) = upgrade version >> mark "migrated"

pub migrate : Work Error (Unit {0})
migrate = current_version >>= λ found. migrate_from (accepted found)

pub restore_one : FilePath → String → Work Error (Unit {0})
restore_one from name = do
  if_exists (child from name) (replace (child from name) (child root name) name)
      (remove (child root name))
  mark ("restore-" <> name)

pub restore_all : FilePath → List String → Work Error (Unit {0})
restore_all from [] = ret tt
restore_all from (name ∷ names) = restore_one from name >> restore_all from names

pub restore : FilePath → Work Error (Unit {0})
restore from = do
  verify from
  restore_all from (payload ∷ data_names)
  replace (child from "service.plist") plist "com.bartekpapierski.hplj1020.service.plist"
  mark "restore-plist"
