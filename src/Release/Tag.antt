-- ===== src/Release/Tag.antt =====
-- The immutable tag of a release (scripts/personal_release.py): `tag`.
mod Sealed
pub mod Steps
pub mod Once
use hp_lj_1020_driver.Base.{
  String, ◌<>◌, true, not, Option, none, some, List, [], ◌∷◌, str_eq, if◌then◌else◌,
}
use hp_lj_1020_driver.Base.Text.{is_nonempty, strip}
use hp_lj_1020_driver.Base.Prog.{ret, raise, ◌>>=◌, ◌>>◌}
use hp_lj_1020_driver.Base.Json.{Json, string}
use hp_lj_1020_driver.Base.Json.Order.{json_eq}
use hp_lj_1020_driver.Release.Calls.{
  other, run, run_with, digest, read_text, write_text, resolve, with_temporary, Work, ask, raise_if,
  index,
}
use hp_lj_1020_driver.Release.Records.{nth, shown, git}
use hp_lj_1020_driver.Release.Bundle.{split_once, sealed_bundle, verify_seal}

abbrev pub null_id : String
null_id = "0000000000000000000000000000000000000000"

-- `("-c", "gpg.format=ssh", "-c", …, "verify-tag", name)` as the arguments of git
abbrev pub verify_tag : String → String → List String
verify_tag signers name =
    "-c"
    ∷ "gpg.format=ssh"
    ∷ "-c"
    ∷ ("gpg.ssh.allowedSignersFile=" <> signers)
    ∷ "verify-tag"
    ∷ name
    ∷ []

-- `text.split("\n\n", 1)[1].split("-----BEGIN SSH SIGNATURE-----")[0]`
abbrev message_of : String → Option String
message_of text = elim (split_once "\n\n" text) [
  | none ↦ none
  | some parts ↦ elim (split_once "-----BEGIN SSH SIGNATURE-----" parts.1) [
    | none ↦ some parts.1
    | some (message, signature) ↦ some message
  ]
]

abbrev check_message : Option String → String → Work (Unit {0})
check_message none message = raise other
check_message (some written) message =
    raise_if (not (str_eq written message)) "conflicting immutable tag"

-- An existing tag has to be signed, and to say the commit and the message.
unfoldable pub check_existing : String → Json → String → String → Work (Unit {0})
check_existing signers commit tag message = do
  git (verify_tag signers tag)
  tagged ← git ("rev-parse" ∷ (tag <> "^{commit}") ∷ [])
  (if not (json_eq (string tagged) commit)
      then raise_if true "conflicting immutable tag"
      else git ("cat-file" ∷ "tag" ∷ tag ∷ []) >>= λ text. check_message (message_of text) message)

-- What follows the signing of a tag's unattached object.
unfoldable pub attach : String → String → String → String → Work (Unit {0})
attach signers tag content temporary = do
  signature ← ask (read_text (temporary <> "/tag.sig"))
  output ← ask (run_with (content <> signature) ("git" ∷ "mktag" ∷ []))
  git (verify_tag signers (strip output))
  git ("update-ref" ∷ ("refs/tags/" <> tag) ∷ strip output ∷ null_id ∷ [])
  ret tt

unfoldable pub sign_and_attach : String → String → String → String → String → Work (Unit {0})
sign_and_attach key signers tag content temporary = do
  ask (write_text (temporary <> "/tag") content)
  key_path ← ask (resolve key)
  ask (
      run (
        "ssh-keygen" ∷ "-Y" ∷ "sign" ∷ "-n" ∷ "git" ∷ "-f" ∷ key_path ∷ (temporary <> "/tag") ∷ []))
  attach signers tag content temporary

module _ (archive : String) (str : Json → String) where
  -- The content of the object, less the line of the tagger and the message
  abbrev object_head : Json → String → String
  object_head commit tag =
      "object " <> shown str commit <> "\ntype commit\ntag " <> tag <> "\ntagger "

  unfoldable pub create_tag : Json → String → String → String → String → Work (Unit {0})
  create_tag prepared key signers tag message = do
    commit ← index prepared "commit"
    tagger ← git ("var" ∷ "GIT_COMMITTER_IDENT" ∷ [])
    with_temporary none
        (sign_and_attach key signers tag (object_head commit tag <> tagger <> "\n\n" <> message))

  -- `tag`, once its name is known
  unfoldable pub tag_named : Json → List Json → String → String → String → Work (Unit {0})
  tag_named prepared records key allowed_signers tag = do
    bundle ← sealed_bundle archive records
    verify_seal bundle
    sum ← ask (digest (bundle <> "/SHA256SUMS"))
    signers ← ask (resolve allowed_signers)
    existing ← git ("tag" ∷ "--list" ∷ tag ∷ [])
    (if is_nonempty existing
        then (index prepared "commit" >>= λ commit.
            check_existing signers commit tag
              ("Personal release " <> tag <> "\nSHA256SUMS " <> sum <> "\n"))
        else create_tag prepared key signers tag
            ("Personal release " <> tag <> "\nSHA256SUMS " <> sum <> "\n"))

  unfoldable pub tag_release : List Json → String → String → Work (Unit {0})
  tag_release [] key allowed_signers = raise other
  tag_release (prepared ∷ later) key allowed_signers = do
    version ← index prepared "version"
    tag_named prepared (prepared ∷ later) key allowed_signers ("v" <> shown str version)
