-- ===== src/Update/Calls.antt =====
-- The data of a transaction and the calls that it makes (scripts/personal_update.py): the runtime's
-- methods, file operations, and the checkpoint callback. Each call may raise.
use hp_lj_1020_driver.Base.{ℕ, String, Bool, true, false, Option, List}
use hp_lj_1020_driver.Base.Prog.{Prog, ret, raise, try_catch}

pub data Error : Type 0 where
  install_error : String → Error
  os_error : String → Error

-- `root` is `self.root`, `plist` is `self.plist`, `source` is the staged payload; `child p n` is
-- `p / n`, and `beside p s` is `p.with_name(p.name + s)`.
pub data FilePath : Type 0 where
  root plist source : FilePath
  child : FilePath → String → FilePath
  beside : FilePath → String → FilePath
  parent : FilePath → FilePath

pub data Phase : Type 0 where
  preparing admission stopping backed_up migrating starting healthy committed restoring : Phase

pub data Operation : Type 0 where
  update rollback : Operation

-- The journal: the dictionary `record` of `execute`, with the keys that are added on the way.
pub record Journal : Type 0 where
  pub run_id : String
  pub tag : String
  pub commit : String
  pub operation : Operation
  pub phase : Phase
  pub failed_phase : Option Phase
  pub recovery_outcome : Option String

-- One entry of an inventory: mode, owner, group, and the digest of a regular file.
pub record Entry : Type 0 where
  pub name : String
  pub mode : ℕ
  pub uid : ℕ
  pub gid : ℕ
  pub sha256 : Option String

abbrev pub Inventory : Type 0
Inventory = List Entry

-- What `lstat` shows of one path below a root, and what hashing it would give.
pub data Listed : Type 0 where
  regular : Entry → Listed
  directory : Entry → Listed
  special : String → Listed

-- The `version` of `state-version.json`.
pub data Version : Type 0 where
  whole : ℕ → Version
  other : Version

-- The documents that `durable_json` writes.
pub data Document : Type 0 where
  inventory_doc : Inventory → Document
  previous_doc : String → Document
  version_doc : ℕ → Document
  result_doc : Journal → String → Document

pub data Call : Type 0 where
  -- the methods of the runtime
  preflight close_admission stop start health release : Call
  copy : FilePath → FilePath → Call
  backup_queue : FilePath → Call
  validate : FilePath → Call
  -- documents
  durable_json : FilePath → Document → Call
  read_previous : Call
  read_inventory : FilePath → Call
  read_version : FilePath → Call
  -- the journal, `store / "pending.json"`: `durable_json`, `exists`, `read_text` and `unlink`
  write_journal : Journal → Call
  has_journal read_journal remove_journal : Call
  -- files
  list_tree : FilePath → Call
  exists is_symlink is_dir : FilePath → Call
  rmtree unlink : FilePath → Call
  rename : FilePath → FilePath → Call
  mkdir : FilePath → Call
  sync_tree sync_directory : FilePath → Call
  adopt_owner protect_tree : FilePath → Call
  -- the store's owner and mode, its lock, a new run's name, and the callback
  store_is_safe lock new_run_id : Call
  checkpoint : String → Call

pub data Reply (A : Type 0) : Type 0 where
  got : A → Reply A
  raised : Error → Reply A

-- `durable_json` may raise before or after it has replaced its target (`failed false`, `failed
-- true`); the code cannot tell which.
pub data Written : Type 0 where
  written : Written
  failed : Bool → Error → Written

abbrev pub Replies : Call → Type 0
Replies (durable_json path document) = Written
Replies (write_journal r) = Written
Replies has_journal = Reply Bool
Replies read_journal = Reply Journal
Replies read_previous = Reply String
Replies (read_inventory path) = Reply Inventory
Replies (read_version path) = Reply Version
Replies (list_tree path) = Reply (List Listed)
Replies (exists path) = Reply Bool
Replies (is_symlink path) = Reply Bool
Replies (is_dir path) = Reply Bool
Replies store_is_safe = Reply Bool
Replies new_run_id = Reply String
Replies _ = Reply (Unit {0})

abbrev pub Work : Type 0 → Type 0 → Type 0
Work E A = Prog Call Replies E A

abbrev pub answer : {A : Type 0} → Reply A → Work Error A
answer (got a) = ret a
answer (raised e) = raise e

abbrev pub answer_written : Written → Work Error (Unit {0})
answer_written written = ret tt
answer_written (failed replaced e) = raise e

abbrev pub raise_if : Bool → String → Work Error (Unit {0})
raise_if true message = raise (install_error message)
raise_if false message = ret tt

-- The outer handler of `execute` sees the exception and `record` as it is by then.
abbrev pub Failure : Type 0
Failure = Journal × Error

abbrev pub tag_with : {A : Type 0} → Journal → Error → Work Failure A
tag_with r e = raise (r, e)

abbrev pub during : {A : Type 0} → Journal → Work Error A → Work Failure A
during r m = try_catch m (tag_with r)
