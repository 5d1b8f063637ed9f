-- ===== src/Install/Account.antt =====
-- The dedicated account and group of the service (scripts/personal_install.py).
use hp_lj_1020_driver.Base.{
  ℕ, zero, suc, ◌+◌, String, ◌<>◌, Bool, true, false, not, Option, none, some, List, [], ◌∷◌, leb,
  ◌&&◌, ◌||◌, str_eq, starts_with, if◌then◌else◌,
}
use hp_lj_1020_driver.Base.Text.{split_lines, contains, is_digits, to_number, decimal}
use hp_lj_1020_driver.Base.Prog.{ret, raise, ◌>>=◌, ◌>>◌}
use Prim.Native.String.{len, slice}
use hp_lj_1020_driver.Install.Host.{
  install_error, Completed, Work, raise_if, succeeded, try_run, admin, try_admin, service_user,
  service_real_name,
}

-- Whether the entry that is asked for is that of a user or of a group.
pub data Kind : Type 0 where
  user group : Kind

abbrev kind_name : Kind → String
kind_name user = "user"
kind_name group = "group"

abbrev record_in : Completed → Option String
record_in c = if succeeded c && contains "name:" c.stdout then some c.stdout else none

unfoldable pub account_record : Kind → Work (Option String)
account_record kind =
    try_run ("/usr/bin/dscacheutil" ∷ "-q" ∷ kind_name kind ∷ "-a" ∷ "name" ∷ service_user ∷ [])
    >>= λ c. ret (record_in c)

abbrev field_in : String → List String → String
field_in prefix [] = ""
field_in prefix (line ∷ lines) =
    if starts_with line prefix then slice line (len prefix) (len line) else field_in prefix lines

pub record_field : String → String → String
record_field text name = field_in (name <> ": ") (split_lines text)

abbrev in_range : String → Bool
in_range id = is_digits id && leb 450 (to_number id) && leb (to_number id) 499

pub user_record_matches : String → Bool
user_record_matches text =
    let uid = record_field text "uid" in
    str_eq (record_field text "name") service_user
    && in_range uid
    && str_eq (record_field text "gid") uid
    && str_eq (record_field text "dir") "/var/empty"
    && str_eq (record_field text "shell") "/usr/bin/false"
    && str_eq (record_field text "gecos") service_real_name

pub group_record_matches : String → Bool
group_record_matches text =
    str_eq (record_field text "name") service_user && in_range (record_field text "gid")

pub account_matches : String → String → Bool
account_matches user_text group_text =
    user_record_matches user_text
    && group_record_matches group_text
    && str_eq (record_field user_text "gid") (record_field group_text "gid")

abbrev pub groups_path : String
groups_path = "/Groups/" <> service_user

abbrev pub users_path : String
users_path = "/Users/" <> service_user

abbrev create_command : String → List String → List String
create_command path arguments = "/usr/bin/dscl" ∷ "." ∷ "-create" ∷ path ∷ arguments

-- A `for` loop of `host.admin(*mutation)`.
pub admin_all : List (List String) → Work (Unit {0})
admin_all [] = ret tt
admin_all (m ∷ ms) = admin m >> admin_all ms

pub create_group : String → Work (Unit {0})
create_group account_id = admin_all (
    create_command groups_path []
    ∷ create_command groups_path ("PrimaryGroupID" ∷ account_id ∷ [])
    ∷ create_command groups_path ("Password" ∷ "*" ∷ [])
    ∷ [])

pub create_user : String → Work (Unit {0})
create_user account_id = admin_all (
    create_command users_path []
    ∷ create_command users_path ("UniqueID" ∷ account_id ∷ [])
    ∷ create_command users_path ("PrimaryGroupID" ∷ account_id ∷ [])
    ∷ create_command users_path ("RealName" ∷ service_real_name ∷ [])
    ∷ create_command users_path ("NFSHomeDirectory" ∷ "/var/empty" ∷ [])
    ∷ create_command users_path ("UserShell" ∷ "/usr/bin/false" ∷ [])
    ∷ create_command users_path ("IsHidden" ∷ "1" ∷ [])
    ∷ create_command users_path ("Password" ∷ "*" ∷ [])
    ∷ [])

abbrev collision : String
collision = "refusing colliding account or group " <> service_user

abbrev refused : Bool → Option String → Option String → Bool
refused owned (some u) (some g) = not owned || not (account_matches u g)
refused owned (some u) none = not owned
refused owned none (some g) = not owned
refused owned none none = false

pub validate_account_state : Bool → Work (Unit {0})
validate_account_state product_owned = do
  u ← account_record user
  g ← account_record group
  raise_if (refused product_owned u g) collision

-- What `ensure_account` finds: nothing to do, one half to complete, or a fresh start after the
-- deletion of what is there.
pub data Need : Type 0 where
  nothing : Need
  user_for : String → Need
  group_for : String → Need
  fresh : Need

pub need : Option String → Option String → Need
need (some u) (some g) = if account_matches u g then nothing else fresh
need none (some g) = if group_record_matches g then user_for (record_field g "gid") else fresh
need (some u) none = if user_record_matches u then group_for (record_field u "gid") else fresh
need none none = fresh

abbrev is_some : Option String → Bool
is_some none = false
is_some (some s) = true

abbrev delete_if : Option String → String → Work (Unit {0})
delete_if none path = ret tt
delete_if (some s) path = try_admin ("/usr/bin/dscl" ∷ "." ∷ "-delete" ∷ path ∷ []) >> ret tt

-- The loop over the candidates `base + n - 1` down to `base`.
pub find_free : ℕ → ℕ → Work (Option String)
find_free base zero = ret none
find_free base (suc n) = do
  u ← try_run ("/usr/bin/dscacheutil" ∷ "-q" ∷ "user" ∷ "-a" ∷ "uid" ∷ decimal (base + n) ∷ [])
  g ← try_run ("/usr/bin/dscacheutil" ∷ "-q" ∷ "group" ∷ "-a" ∷ "gid" ∷ decimal (base + n) ∷ [])
  elim (not (contains "name:" u.stdout) && not (contains "name:" g.stdout)) [
    | true ↦ ret (some (decimal (base + n)))
    | false ↦ find_free base n
  ]

pub create_account : Option String → Work (Unit {0})
create_account none = raise (install_error "no free dedicated system UID/GID in 450...499")
create_account (some account_id) = create_group account_id >> create_user account_id

pub provide : Bool → Option String → Option String → Need → Work (Unit {0})
provide product_owned u g nothing = ret tt
provide product_owned u g (user_for gid) = create_user gid
provide product_owned u g (group_for gid) = create_group gid
provide product_owned u g fresh = do
  raise_if ((is_some u || is_some g) && not product_owned) collision
  delete_if u users_path
  delete_if g groups_path
  account_id ← find_free 450 50
  create_account account_id

pub ensure_account : Bool → Work (Unit {0})
ensure_account product_owned = do
  u ← account_record user
  g ← account_record group
  provide product_owned u g (need u g)
