-- ===== src/Install/Ownership.antt =====
-- What belongs to the product: paths, markers, the service's plist and the whole installation
-- (scripts/personal_install.py).
use hp_lj_1020_driver.Base.{
  String, ◌<>◌, Bool, true, false, not, Option, none, some, List, [], ◌∷◌, ◌++◌, ◌&&◌, ◌||◌, str_eq,
  keep, elem, is_empty, if◌then◌else◌,
}
use hp_lj_1020_driver.Base.Text.{strip, split_lines, or_text, join}
use hp_lj_1020_driver.Base.Prog.{ret, raise, call, try_catch, ◌>>=◌, ◌>>◌}
use hp_lj_1020_driver.Install.Host.{
  Error, install_error, os_error, Completed, Plist, parse_plist, Work, answer, raise_if, succeeded,
  admin, try_admin, Artifact, metadata, root_owned, private_directories, log_files,
  install_root_path, below_root, installed_app, state_root, log_root, service_plist, service_label,
  service_user, receipt,
}

pub check_owner : Artifact → Completed → Work Bool
check_owner artifact c =
    raise_if (not (str_eq (strip c.stdout) (metadata artifact))) (
      "refusing foreign installed path "
      <> artifact.path
      <> ": "
      <> or_text (strip c.stdout) "unknown ownership")
    >> ret true

pub validate_path_owner : Artifact → Work Bool
validate_path_owner artifact = do
  there ← try_admin ("/bin/test" ∷ "-e" ∷ artifact.path ∷ [])
  if succeeded there
      then (admin ("/usr/bin/stat" ∷ "-f" ∷ "%Su:%Sg:%Lp" ∷ artifact.path ∷ [])
          >>= check_owner artifact)
      else ret false

abbrev is_marker : Completed → Bool
is_marker c = succeeded c && str_eq (strip c.stdout) receipt

pub read_marker : String → Bool → Work Bool
read_marker path false = ret false
read_marker path true = do
  marker ← try_admin ("/bin/cat" ∷ path ∷ [])
  raise_if (not (is_marker marker)) ("refusing foreign product marker: " <> path)
  ret true

pub validate_product_marker : String → Work Bool
validate_product_marker path = validate_path_owner (root_owned "644" path) >>= read_marker path

-- `except InstallError: return False`
abbrev false_on_install_error : Error → Work Bool
false_on_install_error (install_error m) = ret false
false_on_install_error (os_error m) = raise (os_error m)

pub product_marker_matches : String → Work Bool
product_marker_matches path = try_catch (validate_product_marker path) false_on_install_error

abbrev entry_is : Plist → String → String → Bool
entry_is p key value = elim (p.entry key) [ none ↦ false | some v ↦ str_eq v value ]

abbrev first_is : String → Option (List String) → Bool
first_is s none = false
first_is s (some []) = false
first_is s (some (x ∷ xs)) = str_eq x s

abbrev expected_program : String
expected_program = installed_app <> "/Contents/Resources/hplj1020-service-supervisor"

pub plist_matches : Completed → Plist → Bool
plist_matches c p =
    succeeded c
    && entry_is p "Label" service_label
    && entry_is p "UserName" service_user
    && entry_is p "GroupName" service_user
    && entry_is p "WorkingDirectory" state_root
    && (entry_is p "StandardOutPath" "/dev/null"
        || entry_is p "StandardOutPath" (log_root <> "/daemon.stdout.log"))
    && (entry_is p "StandardErrorPath" "/dev/null"
        || entry_is p "StandardErrorPath" (log_root <> "/daemon.stderr.log"))
    && first_is expected_program p.arguments

pub service_plist_matches : Work Bool
service_plist_matches = do
  c ← try_admin ("/bin/cat" ∷ service_plist ∷ [])
  parsed ← call (parse_plist c.stdout) answer
  ret (elim parsed [ none ↦ false | some p ↦ plist_matches c p ])

pub has_product_ownership_evidence : Work Bool
has_product_ownership_evidence = do
  root_marker ← product_marker_matches (below_root ".product-id")
  app_marker ← elim root_marker [
    | true ↦ ret true
    | false ↦ product_marker_matches (installed_app <> "/Contents/Resources/product-id")
  ]
  elim app_marker [
    | true ↦ ret true
    | false ↦ do
      there ←
          try_catch (validate_path_owner (root_owned "644" service_plist)) false_on_install_error
      if there then service_plist_matches else ret false
  ]

abbrev allowed_paths : List String
allowed_paths =
    below_root ".product-id"
    ∷ below_root "HP-LJ-1020.app"
    ∷ below_root "cache"
    ∷ below_root "config"
    ∷ below_root "firmware"
    ∷ below_root "home"
    ∷ below_root "run"
    ∷ below_root "spool"
    ∷ below_root "state"
    ∷ below_root "transactions"
    ∷ []

abbrev unknown_paths : List String → List String
unknown_paths = keep (λ line. not (elem line allowed_paths))

-- The message lists the unknown paths in the order of the listing; the code sorts them.
pub check_listing : Bool → Work (Unit {0})
check_listing false = ret tt
check_listing true = do
  listing ←
      try_admin (
        "/usr/bin/find" ∷ install_root_path ∷ "-mindepth" ∷ "1" ∷ "-maxdepth" ∷ "1" ∷ "-print" ∷ [])
  raise_if (not (is_empty (unknown_paths (split_lines listing.stdout)))) (
      "refusing unrecognized installed paths: "
      <> join ", " (unknown_paths (split_lines listing.stdout)))

pub validate_owners : List Artifact → Work (Unit {0})
validate_owners [] = ret tt
validate_owners (a ∷ artifacts) = validate_path_owner a >> validate_owners artifacts

abbrev pub verify_signature : List String
verify_signature = "/usr/bin/codesign" ∷ "--verify" ∷ "--strict" ∷ "--deep" ∷ installed_app ∷ []

pub validate_app : Bool → Work Bool
validate_app false = ret false
validate_app true = do
  marked ← validate_product_marker (installed_app <> "/Contents/Resources/product-id")
  raise_if (not marked) ("refusing provider app without product marker: " <> installed_app)
  identity ← admin (
      "/usr/libexec/PlistBuddy"
      ∷ "-c"
      ∷ "Print :CFBundleIdentifier"
      ∷ (installed_app <> "/Contents/Info.plist")
      ∷ [])
  raise_if (not (str_eq (strip identity.stdout) receipt))
      ("refusing foreign provider app: " <> installed_app)
  admin verify_signature
  ret true

pub validate_service_plist : Bool → Work Bool
validate_service_plist false = ret false
validate_service_plist true = do
  matches ← service_plist_matches
  raise_if (not matches) ("refusing foreign LaunchDaemon plist: " <> service_plist)
  ret true

pub validate_existing_installation : Work Bool
validate_existing_installation = do
  validate_path_owner (root_owned "755" install_root_path) >>= check_listing
  marked ← validate_product_marker (below_root ".product-id")
  validate_owners (private_directories ++ log_files)
  app ← validate_path_owner (root_owned "755" installed_app) >>= validate_app
  plist ← validate_path_owner (root_owned "644" service_plist) >>= validate_service_plist
  ret (marked || app || plist)
