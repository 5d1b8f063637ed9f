-- ===== src/Release/Calls.antt =====
-- What a release asks of its environment (scripts/personal_release.py): commands, file operations and
-- the functions of the other scripts. Paths are texts, and a file's bytes are a text of such codes.
use hp_lj_1020_driver.Base.{ℕ, String, Bool, true, false, Option, none, some, List}
use hp_lj_1020_driver.Base.Prog.{Outcome, ok, err, Prog, ret, raise, call, ◌>>=◌, ◌>>◌, try_catch}
use hp_lj_1020_driver.Base.Json.{Json, null, boolean, number, string, array, object, find, entries}

-- `value_error` is any `ValueError` but `ReleaseError`, and `other` any exception that `main` does not
-- catch.
pub data Error : Type 0 where
  release_error : String → Error
  command_failed install_error os_error value_error key_error type_error other : Error

-- One entry of `path.rglob("*")`, by its relative path.
pub data Kind : Type 0 where
  plain folder link special : Kind

abbrev pub Inventory : Type 0
Inventory = List (String × String)

pub data Call : Type 0 where
  -- a command in the checkout, and one with an input
  run : List String → Call
  run_with : String → List String → Call
  -- the bytes of a blob, and what `codesign -dv` writes to its error output
  blob : String → Call
  signature : String → Call
  -- reading
  exists is_file is_symlink is_writable any_writable : String → Call
  digest : String → Call
  read_json read_text read_bytes : String → Call
  list_tree : String → Call
  list_directory : String → Call
  is_within relative_to : String → String → Call
  resolve read_plist : String → Call
  read_archive : String → Call
  source_override : Call
  read_version : Call
  new_id now : Call
  -- writing: `write_json` creates a file and makes it read-only
  write_json : String → Json → Call
  write_text : String → String → Call
  make_directory : String → Call
  make_parents : String → Call
  copy_file copy_tree rename : String → String → Call
  set_mode : String → ℕ → Call
  -- `new_temporary` makes a directory in the one that is named, or in the system's
  new_temporary : Option String → Call
  remove_temporary : String → Call
  -- functions of other scripts
  stage_and_sign : Call
  build_manifest : String → String → String → Call
  check_artifacts : String → Call
  check_redacted : String → Call
  source_scopes : Call
  run_gate : List String → Call
  owned_installation wait_ready : Call
  print : String → Call
  lock : Call

abbrev pub Answer : Call → Type 0
Answer (run command) = String
Answer (run_with input command) = String
Answer (blob oid) = String
Answer (signature path) = String
Answer (exists path) = Bool
Answer (is_file path) = Bool
Answer (is_symlink path) = Bool
Answer (is_writable path) = Bool
Answer (any_writable path) = Bool
Answer (digest path) = String
Answer (read_json path) = Json
Answer (read_text path) = String
Answer (read_bytes path) = String
Answer (list_tree path) = List (String × Kind)
Answer (list_directory path) = List String
Answer (is_within path root) = Bool
Answer (relative_to path root) = String
Answer (resolve path) = String
Answer (read_plist path) = Json
Answer (read_archive path) = List (String × String)
Answer source_override = Option String
Answer read_version = String
Answer new_id = String
Answer now = String
Answer (new_temporary directory) = String
Answer (build_manifest commit version inputs) = Json
Answer source_scopes = Json
Answer (run_gate arguments) = ℕ
Answer owned_installation = Bool
Answer _ = Unit

pub data Reply (A : Type 0) : Type 0 where
  got : A → Reply A
  raised : Error → Reply A

abbrev pub Replies : Call → Type 0
Replies c = Reply (Answer c)

abbrev pub Work : Type 0 → Type 0
Work A = Prog Call Replies Error A

abbrev pub answer : {A : Type 0} → Reply A → Work A
answer (got a) = ret a
answer (raised e) = raise e

abbrev pub ask : (c : Call) → Work (Answer c)
ask c = call c answer

abbrev pub raise_if : Bool → String → Work (Unit {0})
raise_if true message = raise (release_error message)
raise_if false message = ret tt

abbrev pub found : Option Json → Work Json
found none = raise key_error
found (some value) = ret value

-- `value[key]`, for a text as the key
unfoldable pub index : Json → String → Work Json
index (object fields) key = found (find fields key)
index null key = raise type_error
index (boolean b) key = raise type_error
index (number x) key = raise type_error
index (string s) key = raise type_error
index (array xs) key = raise type_error

-- A value that is used as a text; any other raises something where the source uses it.
unfoldable pub as_text : Json → Work String
as_text (string s) = ret s
as_text null = raise type_error
as_text (boolean b) = raise type_error
as_text (number x) = raise type_error
as_text (array xs) = raise type_error
as_text (object fs) = raise type_error

-- `value.items()` and `value.values()`, of a dictionary
unfoldable pub items_of : Json → Work (List (String × Json))
items_of (object fields) = ret (entries fields)
items_of null = raise other
items_of (boolean b) = raise other
items_of (number x) = raise other
items_of (string s) = raise other
items_of (array xs) = raise other

-- The value of an awaited call, or what it raised, as a value
abbrev pub attempt : {A : Type 0} → Work A → Work (Outcome Error A)
attempt m = try_catch (m >>= λ a. ret (ok a)) (λ e. ret (err e))

abbrev pub settle : {A : Type 0} → Outcome Error A → Work A
settle (ok a) = ret a
settle (err e) = raise e

-- `with tempfile.TemporaryDirectory(dir=directory) as temporary:`
abbrev pub with_temporary : {A : Type 0} → Option String → (String → Work A) → Work A
with_temporary directory body = do
  temporary ← ask (new_temporary directory)
  outcome ← attempt (body temporary)
  ask (remove_temporary temporary)
  settle outcome
