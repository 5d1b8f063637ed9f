-- ===== src/Install/Staging.antt =====
-- Staging and signing of the application (scripts/personal_install.py). `root` is the text of
-- `ROOT`, and paths are texts.
use hp_lj_1020_driver.Base.{
  String, ◌<>◌, Bool, true, false, not, ◌||◌, ◌&&◌, List, [], ◌∷◌, ◌++◌, any, keep, map, ◌==◌,
  starts_with, str_eq, if◌then◌else◌,
}
use hp_lj_1020_driver.Base.Text.{strip, split_lines}
use hp_lj_1020_driver.Base.Prog.{ret, ◌>>=◌, ◌>>◌}
use Prim.Native.Char.{code}
use hp_lj_1020_driver.Install.Host.{
  Work, raise_if, on_files, is_file, is_symlink, is_owned, resolve, read_version, remove_tree,
  make_directory, make_executable, copy_tree, copy_file, set_versions, run,
}

abbrev pub staged_app : String → String
staged_app root = root <> "/build/personal-install/HP-LJ-1020.app"

abbrev built_provider : String → String
built_provider root = root <> "/build/hplj1020"

abbrev app_template : String → String
app_template root = root <> "/packaging/HP-LJ-1020.app"

abbrev entitlements : String → String
entitlements root = root <> "/packaging/personal-use.entitlements.plist"

abbrev executable : String → String
executable root = staged_app root <> "/Contents/MacOS/hplj1020"

abbrev info_plist : String → String
info_plist root = staged_app root <> "/Contents/Info.plist"

abbrev frameworks : String → String
frameworks root = staged_app root <> "/Contents/Frameworks"

-- `s.split(" ", 1)[0]`
pub first_word : String → String
first_word String.[] = String.[]
first_word (String.◌∷◌ c s) =
    let rest = first_word s in if code c == b' ' then String.[] else String.◌∷◌ c rest

abbrev has_slash : String → Bool
has_slash String.[] = false
has_slash (String.◌∷◌ c s) = code c == b'/' || has_slash s

-- `Path(s).name`, for a path that does not end in a slash
pub name_of : String → String
name_of String.[] = String.[]
name_of (String.◌∷◌ c s) =
    let rest = name_of s in
    if has_slash s then rest else if code c == b'/' then s else String.◌∷◌ c s

abbrev drop_first : List String → List String
drop_first [] = []
drop_first (line ∷ lines) = lines

abbrev is_indented : String → Bool
is_indented line = starts_with line "\t" || starts_with line " "

pub linked_libraries : String → Work (List String)
linked_libraries binary = do
  output ← run ("/usr/bin/otool" ∷ "-L" ∷ binary ∷ [])
  ret (
      map (λ line. first_word (strip line))
        (keep is_indented (drop_first (split_lines output.stdout))))

-- One entry of `staged_by_name` and `source_by_name`, which have the same keys.
pub record Staged : Type 0 where
  pub name : String
  pub resolved : String

abbrev is_staged : String → List Staged → Bool
is_staged name = any (λ (s : Staged). str_eq s.name name)

abbrev destination : String → String → String
destination root name = frameworks root <> "/" <> name

abbrev in_homebrew : String → Bool
in_homebrew path = str_eq path "/opt/homebrew" || starts_with path "/opt/homebrew/"

pub copy_library : String → String → String → List Staged → Work (List Staged)
copy_library root name resolved staged = elim (is_staged name staged) [
  | true ↦ ret staged
  | false ↦ do
    on_files (copy_file resolved (destination root name))
    on_files (make_executable (destination root name))
    ret (staged ++ record { name = name; resolved = resolved } ∷ [])
]

-- The first loop of `bundle_non_system_libraries`.
pub copy_libraries : String → List String → List Staged → Work (List Staged)
copy_libraries root [] staged = ret staged
copy_libraries root (library ∷ libraries) staged = do
  resolved ← on_files (resolve library)
  there ← on_files (is_file resolved)
  raise_if (not there || not (in_homebrew resolved))
      ("refusing non-system library outside Homebrew: " <> library)
  more ← copy_library root (name_of library) resolved staged
  run (
      "/usr/bin/install_name_tool"
      ∷ "-change"
      ∷ library
      ∷ ("@executable_path/../Frameworks/" <> name_of library)
      ∷ executable root
      ∷ [])
  copy_libraries root libraries more

pub relink : String → List Staged → String → List String → Work (Unit {0})
relink root staged name [] = ret tt
relink root staged name (dependency ∷ dependencies) =
    elim (starts_with dependency "/opt/homebrew/"
      && is_staged (name_of dependency) staged
      && not (str_eq (name_of dependency) name)) [
        | false ↦ relink root staged name dependencies
        | true ↦ do
          run (
              "/usr/bin/install_name_tool"
              ∷ "-change"
              ∷ dependency
              ∷ ("@loader_path/" <> name_of dependency)
              ∷ destination root name
              ∷ [])
          relink root staged name dependencies
      ]

-- The second loop; `all_staged` is the whole dictionary.
pub relink_libraries : String → List Staged → List Staged → Work (Unit {0})
relink_libraries root all_staged [] = ret tt
relink_libraries root all_staged (s ∷ staged) = do
  run ("/usr/bin/install_name_tool" ∷ "-id" ∷ ("@rpath/" <> s.name) ∷ destination root s.name ∷ [])
  dependencies ← linked_libraries s.resolved
  relink root all_staged s.name dependencies
  relink_libraries root all_staged staged

pub bundle_non_system_libraries : String → Work (List String)
bundle_non_system_libraries root = do
  libraries ← linked_libraries (executable root)
  on_files (make_directory (frameworks root))
  staged ← copy_libraries root (keep (λ library. starts_with library "/opt/homebrew/") libraries) []
  relink_libraries root staged staged
  ret (map (λ (s : Staged). destination root s.name) staged)

abbrev sign : List String → List String
sign arguments =
    "/usr/bin/codesign" ∷ "--force" ∷ "--sign" ∷ "-" ∷ "--options" ∷ "runtime" ∷ "--timestamp=none"
    ∷ arguments

pub sign_libraries : List String → Work (Unit {0})
sign_libraries [] = ret tt
sign_libraries (library ∷ libraries) = run (sign (library ∷ [])) >> sign_libraries libraries

abbrev build_arguments : Bool → List String
build_arguments true = "--personal-release" ∷ []
build_arguments false = []

-- Before the staged copy is made: the build, and the checks of what it built.
pub build_provider : String → Bool → Work (Unit {0})
build_provider root personal_release = do
  run ((root <> "/scripts/build") ∷ build_arguments personal_release)
  there ← on_files (is_file (built_provider root))
  link ← on_files (is_symlink (built_provider root))
  raise_if (not there || link) ("validated provider is missing or unsafe: " <> built_provider root)
  owned ← on_files (is_owned (built_provider root))
  raise_if (not owned) "validated provider must be owned by the invoking user"

pub stage_and_sign : String → Bool → Work (Unit {0})
stage_and_sign root personal_release = do
  build_provider root personal_release
  on_files (remove_tree (staged_app root))
  on_files (copy_tree (app_template root) (staged_app root))
  version ← on_files (read_version root)
  on_files (set_versions (info_plist root) version)
  on_files (make_directory (staged_app root <> "/Contents/MacOS"))
  on_files (copy_file (built_provider root) (executable root))
  on_files (make_executable (executable root))
  run ("/usr/bin/plutil" ∷ "-lint" ∷ info_plist root ∷ [])
  libraries ← bundle_non_system_libraries root
  sign_libraries libraries
  run (sign ("--entitlements" ∷ entitlements root ∷ executable root ∷ []))
  run (sign ("--entitlements" ∷ entitlements root ∷ staged_app root ∷ []))
  run ("/usr/bin/codesign" ∷ "--verify" ∷ "--strict" ∷ "--deep" ∷ staged_app root ∷ [])
  ret tt
