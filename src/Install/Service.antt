-- ===== src/Install/Service.antt =====
-- The service's files and its queue (scripts/personal_install.py).
use hp_lj_1020_driver.Base.{
  String, ◌<>◌, Bool, not, List, [], ◌∷◌, ◌&&◌, keep, is_empty, starts_with, texts_eq,
  if◌then◌else◌,
}
use hp_lj_1020_driver.Base.Text.{split_lines}
use hp_lj_1020_driver.Base.Prog.{ret, ◌>>=◌, ◌>>◌}
use hp_lj_1020_driver.Install.Host.{
  Completed, Work, raise_if, succeeded, try_run, admin, try_admin, Artifact, private_directories,
  log_files, install_root_path, below_root, installed_app, service_plist, service_label, queue,
  queue_uri,
}
use hp_lj_1020_driver.Install.Ownership.{verify_signature}

pub install_directories : List Artifact → Work (Unit {0})
install_directories [] = ret tt
install_directories (a ∷ artifacts) =
    admin
      ("/usr/bin/install" ∷ "-d" ∷ "-o" ∷ a.owner ∷ "-g" ∷ a.group ∷ "-m" ∷ a.mode ∷ a.path ∷ [])
    >> install_directories artifacts

pub install_log : Artifact → Completed → Work (Unit {0})
install_log a there =
    if succeeded there
    then ret tt
    else (admin (
          "/usr/bin/install" ∷ "-o" ∷ a.owner ∷ "-g" ∷ a.group ∷ "-m" ∷ a.mode ∷ "/dev/null"
          ∷ a.path ∷ [])
        >> ret tt)

pub install_logs : List Artifact → Work (Unit {0})
install_logs [] = ret tt
install_logs (a ∷ artifacts) =
    (try_admin ("/bin/test" ∷ "-e" ∷ a.path ∷ []) >>= install_log a) >> install_logs artifacts

pub install_paths : Work (Unit {0})
install_paths = install_directories private_directories >> install_logs log_files

pub install_root : Work Completed
install_root = admin (
    "/usr/bin/install" ∷ "-d" ∷ "-o" ∷ "root" ∷ "-g" ∷ "wheel" ∷ "-m" ∷ "755" ∷ install_root_path
    ∷ [])

abbrev install_file : String → String → List String
install_file from destination =
    "/usr/bin/install" ∷ "-o" ∷ "root" ∷ "-g" ∷ "wheel" ∷ "-m" ∷ "644" ∷ from ∷ destination ∷ []

-- The argument is the text of `STAGED_APP`.
pub install_payload : String → Work Completed
install_payload staged_app = do
  admin ("/usr/bin/ditto" ∷ staged_app ∷ installed_app ∷ [])
  admin ("/usr/sbin/chown" ∷ "-R" ∷ "root:wheel" ∷ installed_app ∷ [])
  admin ("/bin/chmod" ∷ "-R" ∷ "go-w" ∷ installed_app ∷ [])
  admin verify_signature
  admin
      (install_file (installed_app <> "/Contents/Resources/product-id") (below_root ".product-id"))
  admin (
      install_file
        (installed_app <> "/Contents/Library/LaunchDaemons/" <> service_label <> ".plist")
        service_plist)
  admin ("/usr/bin/plutil" ∷ "-lint" ∷ service_plist ∷ [])

abbrev pub queue_prefix : String
queue_prefix = "device for " <> queue <> ": "

abbrev pub queue_lines : Completed → List String
queue_lines c = keep (λ line. starts_with line queue_prefix) (split_lines c.stdout)

abbrev first_line : List String → String
first_line [] = ""
first_line (x ∷ xs) = x

unfoldable pub check_queue : List String → Work Bool
check_queue matches =
    raise_if (not (is_empty matches) && not (texts_eq matches ((queue_prefix <> queue_uri) ∷ [])))
      ("refusing foreign queue collision for " <> queue <> ": " <> first_line matches)
    >> ret (not (is_empty matches))

unfoldable pub validate_queue_ownership : Work Bool
validate_queue_ownership =
    try_run ("/usr/bin/lpstat" ∷ "-v" ∷ []) >>= λ query. check_queue (queue_lines query)

pub reconcile_queue : Work Completed
reconcile_queue = do
  validate_queue_ownership
  admin (
      "/usr/sbin/lpadmin" ∷ "-p" ∷ queue ∷ "-v" ∷ queue_uri ∷ "-m" ∷ "everywhere" ∷ "-E" ∷ "-o"
      ∷ "printer-is-shared=false" ∷ "-o" ∷ "printer-error-policy=stop-printer" ∷ [])
