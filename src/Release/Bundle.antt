-- ===== src/Release/Bundle.antt =====
-- The application and the sealed directory, by their inventories (scripts/personal_release.py):
-- `check_payload`, `verify_seal` and `verify_installed`.
use hp_lj_1020_driver.Base.{
  ℕ, String, ◌<>◌, ◌-◌, Bool, true, false, not, ◌&&◌, ◌||◌, leb, ◌==◌, Option, none, some, List, [],
  ◌∷◌, map, length, all, any, elem, is_empty, str_eq, starts_with, if◌then◌else◌,
}
use Prim.Native.String.{len, slice}
use hp_lj_1020_driver.Base.Text.{codes, split_lines, contains}
use hp_lj_1020_driver.Base.Prog.{ret, raise, ◌>>=◌, ◌>>◌}
use hp_lj_1020_driver.Base.Json.{Json, string}
use hp_lj_1020_driver.Schema.Reference.{split_slash}
use hp_lj_1020_driver.Release.Calls.{
  value_error, key_error, other, Inventory, run, signature, is_file, any_writable, digest,
  read_text, read_plist, list_tree, read_archive, check_artifacts, owned_installation, wait_ready,
  Work, ask, raise_if, index, as_text,
}
use hp_lj_1020_driver.Release.Files.{inventory, safe_file, private_check}
use hp_lj_1020_driver.Release.Records.{demand, nth}

-- `dict[name] = sum`, where a name that is there keeps its place
pub set_entry : Inventory → String → String → Inventory
set_entry [] name sum = (name, sum) ∷ []
set_entry ((n, old) ∷ es) name sum =
    let rest = set_entry es name sum in if str_eq n name then (name, sum) ∷ es else (n, old) ∷ rest

abbrev pub names : Inventory → List String
names = map (λ e. e.0)

-- `dict.pop(name)` leaves the other entries.
pub without : String → Inventory → Inventory
without name [] = []
without name ((n, sum) ∷ es) =
    let rest = without name es in if str_eq n name then es else (n, sum) ∷ rest

abbrev holds_entry : Inventory → String × String → Bool
holds_entry es (name, sum) = any (λ e. str_eq e.0 name && str_eq e.1 sum) es

-- `a == b`, for dictionaries of texts
pub same_inventory : Inventory → Inventory → Bool
same_inventory xs ys = length xs == length ys && all (holds_entry ys) xs

-- `s.split(sep, 1)`, where it has two parts
pub split_once : String → String → Option (String × String)
split_once sep String.[] = none
split_once sep (String.◌∷◌ c s) =
    let rest = split_once sep s in
    if starts_with (String.◌∷◌ c s) sep
    then some ("", slice (String.◌∷◌ c s) (len sep) (len (String.◌∷◌ c s)))
    else elim rest [ none ↦ none | some parts ↦ some (String.◌∷◌ c parts.0, parts.1) ]

-- `s.endswith(suffix)`
pub ends_with : String → String → Bool
ends_with s suffix =
    leb (len suffix) (len s) && str_eq (slice s (len s - len suffix) (len s)) suffix

-- `[^/]+\.dylib`, for the whole text
abbrev is_library_name : String → Bool
is_library_name s = not (elem_slash (codes s)) && leb 7 (length (codes s)) && ends_with s ".dylib"
  where
    elem_slash : List ℕ → Bool
    elem_slash = any (λ c. c == b'/')

abbrev is_payload_name : Inventory → String → Bool
is_payload_name expected name =
    elem name (names expected)
    || str_eq name "Contents/MacOS/hplj1020"
    || (starts_with name "Contents/Frameworks/"
        && is_library_name (slice name (len "Contents/Frameworks/") (len name)))
    || str_eq name "Contents/_CodeSignature/CodeResources"

abbrev last_part : List String → String
last_part [] = ""
last_part (part ∷ []) = part
last_part (part ∷ next ∷ parts) = last_part (next ∷ parts)

-- `path.name`
abbrev pub base_name : String → String
base_name path = last_part (split_slash path)

module _ (is_private has_secret : String → Bool) (template : String) where
  abbrev check_private : String → List String → Work (Unit {0})
  check_private app [] = ret tt
  check_private app (name ∷ listed) = ask (is_file (app <> "/" <> name)) >>= λ file.
      (if file
        then private_check is_private has_secret (app <> "/" <> name) (base_name name)
        else ret tt)
      >> check_private app listed

  unfoldable pub check_payload : String → String → Work (Unit {0})
  check_payload app version = do
    expected ← inventory template
    actual ← inventory app
    raise_if (not (all (is_payload_name expected) (names actual))) "unexpected app payload entry"
    ask (check_artifacts app)
    listed ← ask (list_tree app)
    check_private app (map (λ e. e.0) listed)
    info ← ask (read_plist (app <> "/Contents/Info.plist"))
    demand info "CFBundleShortVersionString" (string version) "app version mismatch"
    demand info "CFBundleVersion" (string version) "app version mismatch"
    ask (run ("/usr/bin/codesign" ∷ "--verify" ∷ "--deep" ∷ "--strict" ∷ app ∷ []))
    signed ← ask (signature app)
    raise_if (not (contains "Signature=adhoc" signed) || not (contains "runtime" signed))
        "release payload requires ad-hoc hardened-runtime signing"

-- What `SHA256SUMS` says, line by line
abbrev pub read_sums : List String → Inventory → Work Inventory
read_sums [] expected = ret expected
read_sums (line ∷ lines) expected = elim (split_once "  " line) [
  | none ↦ raise value_error
  | some (sum, name) ↦
      raise_if (elem name (names expected)) "duplicate seal entry"
      >> read_sums lines (set_entry expected name sum)
]

-- A `KeyError`, unless the key is there
abbrev pub need_key : Bool → Work (Unit {0})
need_key true = ret tt
need_key false = raise key_error

unfoldable pub verify_seal : String → Work (Unit {0})
verify_seal bundle = do
  actual ← inventory bundle
  writable ← ask (any_writable bundle)
  raise_if writable "sealed directory is writable"
  sums ← ask (read_text (bundle <> "/SHA256SUMS"))
  expected ← read_sums (split_lines sums) []
  need_key (elem "SHA256SUMS" (names actual))
  raise_if (not (same_inventory (without "SHA256SUMS" actual) expected)) "sealed inventory mismatch"

-- The members of the application in the sealed archive, by their paths in the application
abbrev payload_of : List (String × String) → Inventory → Inventory
payload_of [] expected = expected
payload_of ((name, sum) ∷ members) expected =
    let kept = payload_of members in
    if starts_with name "HP-LJ-1020.app/" && not (ends_with name "/")
    then kept (set_entry expected (slice name (len "HP-LJ-1020.app/") (len name)) sum)
    else kept expected

-- `records[i]["data"][key]`
unfoldable pub data_at : List Json → ℕ → String → Work Json
data_at records i key = elim (nth records i) [
  | none ↦ raise other
  | some entry ↦ index entry "data" >>= λ data_of. index data_of key
]

module _ (archive : String) where
  unfoldable pub sealed_bundle : List Json → Work String
  sealed_bundle records = do
    bundle ← data_at records 3 "bundle"
    relative ← as_text bundle
    safe_file archive relative

module _ (archive installed_app : String) where
  unfoldable pub verify_installed : List Json → Work String
  verify_installed records = do
    bundle ← sealed_bundle archive records
    verify_seal bundle
    members ← ask (read_archive (bundle <> "/HP-LJ-1020.app.zip"))
    let expected = payload_of members []
    actual ← (if is_empty expected then ret [] else inventory installed_app)
    raise_if (is_empty expected || not (same_inventory actual expected))
        "installed payload differs from sealed payload"
    owned ← ask owned_installation
    raise_if (not owned) "installation ownership verification failed"
    ask wait_ready
    ask (digest (bundle <> "/HP-LJ-1020.app.zip"))
