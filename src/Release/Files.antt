-- ===== src/Release/Files.antt =====
-- The helpers on files (scripts/personal_release.py): `inventory`, `readonly`, `safe_file` and
-- `private_check`. The two regular expressions are parameters.
use hp_lj_1020_driver.Base.{
  ℕ, String, ◌<>◌, Bool, true, false, not, ◌&&◌, ◌||◌, List, [], ◌∷◌, elem, ltb, ◌==◌, starts_with,
  if◌then◌else◌,
}
use hp_lj_1020_driver.Base.Text.{codes}
use hp_lj_1020_driver.Base.Prog.{ret, raise, ◌>>=◌, ◌>>◌}
use hp_lj_1020_driver.Schema.Reference.{split_slash}
use hp_lj_1020_driver.Release.Calls.{
  release_error, Kind, plain, folder, link, special, Inventory, is_symlink, digest, read_bytes,
  list_tree, is_within, set_mode, Work, ask, raise_if,
}

abbrev codes_lt : List ℕ → List ℕ → Bool
codes_lt xs [] = false
codes_lt [] (y ∷ ys) = true
codes_lt (x ∷ xs) (y ∷ ys) = ltb x y || (x == y && codes_lt xs ys)

abbrev insert_entry : String × String → Inventory → Inventory
insert_entry e [] = e ∷ []
insert_entry e (f ∷ fs) =
    let rest = insert_entry e fs in
    if codes_lt (codes f.0) (codes e.0) then f ∷ rest else e ∷ f ∷ fs

-- `dict(sorted(entries.items()))`
pub sorted : Inventory → Inventory
sorted [] = []
sorted (e ∷ es) = insert_entry e (sorted es)

abbrev add_entry : String → String × Kind → Work Inventory → Work Inventory
add_entry path (name, plain) rest =
    ask (digest (path <> "/" <> name)) >>= λ sum. rest >>= λ es. ret ((name, sum) ∷ es)
add_entry path (name, folder) rest = rest
add_entry path (name, link) rest = raise (release_error "unsafe release entry")
add_entry path (name, special) rest = raise (release_error "unsafe release entry")

unfoldable pub take_inventory : String → List (String × Kind) → Work Inventory
take_inventory path [] = ret []
take_inventory path (entry ∷ listed) = add_entry path entry (take_inventory path listed)

unfoldable pub inventory : String → Work Inventory
inventory path = do
  listed ← ask (list_tree path)
  found ← take_inventory path listed
  ret (sorted found)

abbrev protect : String → String × Kind → Work (Unit {0})
protect path (name, link) = raise (release_error "symlinks are prohibited in release records")
protect path (name, folder) = ask (set_mode (path <> "/" <> name) 0o555)
protect path (name, plain) = ask (set_mode (path <> "/" <> name) 0o444)
protect path (name, special) = ask (set_mode (path <> "/" <> name) 0o444)

unfoldable pub protect_all : String → List (String × Kind) → Work (Unit {0})
protect_all path [] = ret tt
protect_all path (entry ∷ listed) = protect path entry >> protect_all path listed

-- The entries come in the reverse order of their names.
unfoldable pub readonly : String → Work (Unit {0})
readonly path = do listed ← ask (list_tree path); protect_all path listed; ask (set_mode path 0o555)

abbrev pub is_unsafe : String → Bool
is_unsafe relative = starts_with relative "/" || elem ".." (split_slash relative)

unfoldable pub safe_file : String → String → Work String
safe_file root relative = do
  raise_if (is_unsafe relative) "unsafe record path"
  linked ← ask (is_symlink (root <> "/" <> relative))
  raise_if linked "unsafe record path"
  within ← ask (is_within (root <> "/" <> relative) root)
  raise_if (not within) "record escapes its root"
  ret (root <> "/" <> relative)

-- `PRIVATE.search` on a name and `SECRET.search` on the content
module _ (is_private has_secret : String → Bool) where
  unfoldable pub private_check : String → String → Work (Unit {0})
  private_check path name = do
    raise_if (is_private name) "private content rejected"
    content ← ask (read_bytes path)
    raise_if (has_secret content) "private content rejected"
