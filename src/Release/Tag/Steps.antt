-- ===== src/Release/Tag/Steps.antt =====
-- The monitor of `tag`, and its steps under the monitor (scripts/personal_release.py).
use hp_lj_1020_driver.Base.{
  ◌≡◌, refl, sym, ap, String, ◌<>◌, Bool, true, false, not, ◌&&◌, ◌||◌, Option, none, some, List,
  [], ◌∷◌, elem, str_eq, texts_eq, Bool-cases, ◌⊎◌, inl, inr, if◌then◌else◌,
}
use mathlib.Core.Path.{subst}
use text.Mathlib.TextPositions.{compare_refl}
use hp_lj_1020_driver.Base.Text.{is_nonempty, strip}
use hp_lj_1020_driver.Base.Prog.{
  Outcome, ok, err, ret, raise, call, Monitor, Holds, Holds-mono, Holds->>=, Holds-then,
  Holds-try_catch, ◌>>=◌, ◌>>◌,
}
use hp_lj_1020_driver.Base.Json.{Json, null, boolean, number, string, array, object, find}
use hp_lj_1020_driver.Base.Json.Order.{json_eq}
use hp_lj_1020_driver.Release.Calls.{
  Error, Call, run, run_with, write_text, digest, read_text, resolve, new_temporary,
  remove_temporary, got, raised, Replies, with_temporary, attempt, Work, index, found,
}
use hp_lj_1020_driver.Release.World.{value_at}
use hp_lj_1020_driver.Release.Looks.{is_look, OnlyLooks, OnlyLooks-Holds}
use hp_lj_1020_driver.Release.Records.{git}
use hp_lj_1020_driver.Release.Tag.Sealed.{LooksFor}
use hp_lj_1020_driver.Release.Tag.{
  null_id, verify_tag, message_of, check_message, check_existing, attach, sign_and_attach,
}

-- Whether the latest listing showed no such tag, the names whose signature was verified, the latest
-- file that was written with its text, the file that was signed since, the latest object that was made
-- with its text, and whether the tag was attached.
pub record Known : Type 0 where
  pub absent : Bool
  pub verified : List String
  pub draft : Option (String × String)
  pub signed : Option String
  pub made : Option (String × String)
  pub attached : Bool

abbrev pub start : Known
start = record {
  absent = false;
  verified = [];
  draft = none;
  signed = none;
  made = none;
  attached = false;
}

-- What the environment is relied on for: the path of the checksums of the sealed bundle, the digest of
-- a file, which does not change meanwhile, and the signature that `ssh-keygen -Y sign` leaves for a
-- text.
pub record Trust : Type 0 where
  pub sums : String
  pub digest_of : String → String
  pub signature_of : String → String

abbrev pub is_query : List String → Bool
is_query (program ∷ command ∷ arguments) =
    (str_eq program "git" && elem command ("rev-parse" ∷ "cat-file" ∷ "var" ∷ []))
    || (str_eq program "ssh-keygen" && str_eq command "-Y")
is_query _ = false

abbrev pub is_named : Option String → Bool
is_named none = false
is_named (some name) = true

-- The file that a command signs
abbrev pub signed_path : List String → Option String
signed_path (program ∷ y ∷ sign ∷ n ∷ git_name ∷ f ∷ key ∷ path ∷ []) =
    if texts_eq (program ∷ y ∷ sign ∷ n ∷ git_name ∷ f ∷ [])
      ("ssh-keygen" ∷ "-Y" ∷ "sign" ∷ "-n" ∷ "git" ∷ "-f" ∷ [])
    then some path
    else none
signed_path _ = none

module _ (tag head signers : String) (trust : Trust) where
  -- The message of the tag, and the whole text that is signed
  abbrev pub message : String
  message = "Personal release " <> tag <> "\nSHA256SUMS " <> trust.digest_of trust.sums <> "\n"

  abbrev pub text_by : String → String
  text_by tagger = head <> (tagger <> "\n\n" <> message)

  -- The name in a verification against the allowed signers
  abbrev pub verified_by : List String → Option String
  verified_by (program ∷ c ∷ format ∷ d ∷ allowed ∷ command ∷ name ∷ []) =
      if texts_eq (program ∷ c ∷ format ∷ d ∷ allowed ∷ command ∷ name ∷ [])
        ("git" ∷ verify_tag signers name)
      then some name
      else none
  verified_by _ = none

  abbrev pub is_verification : List String → Bool
  is_verification command = is_named (verified_by command)

  abbrev pub is_listing : List String → Bool
  is_listing command = texts_eq command ("git" ∷ "tag" ∷ "--list" ∷ tag ∷ [])

  abbrev pub is_update : List String → Bool
  is_update (program ∷ command ∷ arguments) = str_eq program "git" && str_eq command "update-ref"
  is_update _ = false

  -- The one command that changes a ref: it creates the tag, which the latest listing did not show,
  -- on the latest object that was made, from the text of the release and the signature of that very
  -- text, and that was verified.
  abbrev pub Attaches : Known → List String → Type 0
  Attaches s command =
      (oid : String) × (command ≡ "git" ∷ "update-ref" ∷ ("refs/tags/" <> tag) ∷ oid ∷ null_id ∷ [])
      × (s.absent ≡ true)
      × (elem oid s.verified ≡ true)
      × (tagger : String) × (s.made
          ≡ some (text_by tagger <> trust.signature_of (text_by tagger), oid))

  abbrev pub Guarded : Known → Call → Type 0
  Guarded s (run command) =
      ((is_query command || is_listing command || is_verification command) ≡ true)
      ⊎ Attaches s command
  Guarded s (run_with input command) = texts_eq command ("git" ∷ "mktag" ∷ []) ≡ true
  Guarded s (write_text path text) = Unit
  Guarded s (resolve path) = Unit
  Guarded s (new_temporary directory) = Unit
  Guarded s (remove_temporary path) = Unit
  Guarded s _ = ⊥

  abbrev pub Step : Known → (c : Call) → Replies c → Known
  Step s (run command) (got output) =
      if is_listing command
      then record s { absent = not (is_nonempty (strip output)) }
      else elim (verified_by command) [
        | some name ↦ record s { verified = name ∷ s.verified }
        | none ↦ elim (signed_path command) [
          | some path ↦ record s { signed = some path }
          | none ↦ if is_update command then record s { attached = true } else s
        ]
      ]
  Step s (write_text path text) (got x) = record s { draft = some (path, text); signed = none }
  Step s (run_with input command) (got output) = record s { made = some (input, strip output) }
  Step s _ _ = s

  -- The path of the allowed signers and the digests do not change meanwhile, and next to a file that
  -- was signed stands the signature of its text.
  abbrev pub Truthful : String → Known → (c : Call) → Replies c → Type 0
  Truthful allowed_signers s (resolve path) (got resolved) =
      str_eq path allowed_signers ≡ true → resolved ≡ signers
  Truthful allowed_signers s (digest path) (got sum) = sum ≡ trust.digest_of path
  Truthful allowed_signers s (read_text path) (got signature) =
      (directory text : String)
      → s.draft ≡ some (directory <> "/tag", text)
      → s.signed ≡ some (directory <> "/tag")
      → path ≡ directory <> "/tag.sig"
      → signature ≡ trust.signature_of text
  Truthful allowed_signers s _ _ = Unit

  abbrev pub watch : String → Monitor Known Call Replies
  watch allowed_signers = record {
    allowed = λ s c. if is_look c then Unit else Guarded s c;
    legal = λ s c r. Truthful allowed_signers s c r;
    next = λ s c r. if is_look c then s else Step s c r;
  }

  -- A run that returns has attached the tag, or has verified the one that was there.
  abbrev pub Ends : Known → Outcome Error (Unit {0}) → Type 0
  Ends s (err e) = Unit
  Ends s (ok x) = (s.attached ≡ true) ⊎ (elem tag s.verified ≡ true)

  pub elem_first : (name : String) (names : List String) → elem name (name ∷ names) ≡ true
  elem_first name names = rw (compare_refl name) refl

  pub verified_lem : (name : String) → verified_by ("git" ∷ verify_tag signers name) ≡ some name
  verified_lem name =
      rw (compare_refl ("gpg.ssh.allowedSignersFile=" <> signers), compare_refl name) refl

  pub verification_lem : (name : String) → is_verification ("git" ∷ verify_tag signers name) ≡ true
  verification_lem name = ap is_named (verified_lem name)

  pub step_lem :
      (s : Known) (name output : String)
      → Step s (run ("git" ∷ verify_tag signers name)) (got output)
        ≡ record s { verified = name ∷ s.verified }
  step_lem s name output =
      rw (compare_refl ("gpg.ssh.allowedSignersFile=" <> signers), compare_refl name) refl

  module _ (allowed_signers : String) where
    -- A verification, and what follows it
    pub verify_step :
        (name : String) (k : String → Work (Unit {0})) (s : Known)
        → ((output : String)
            → Holds
                (watch allowed_signers)
                (k output)
                (record s { verified = name ∷ s.verified })
                Ends)
        → Holds (watch allowed_signers) (git (verify_tag signers name) >>= k) s Ends
    unfolding git
    verify_step name k s next = (
      inl (verification_lem name),
      elim [
        | raised e ↦ λ _. tt
        | got output ↦ λ _.
            subst (λ s'. Holds (watch allowed_signers) (k (strip output)) s' Ends)
              (sym (step_lem s name output)) (next (strip output))
      ],
    )

    pub update_step :
        (tagger signature output : String) (s : Known)
        → s.absent ≡ true
        → signature ≡ trust.signature_of (text_by tagger)
        → Holds
            (watch allowed_signers)
            (git ("update-ref" ∷ ("refs/tags/" <> tag) ∷ strip output ∷ null_id ∷ []) >> ret tt)
            (record s {
              made = some (text_by tagger <> signature, strip output);
              verified = strip output ∷ s.verified;
            })
            Ends
    unfolding git
    update_step tagger signature output s absent signs = (
      inr (strip output, refl, absent, elem_first (strip output) s.verified, tagger, rw signs refl),
      elim [ raised e ↦ λ _. tt | got done ↦ λ _. inl refl ],
    )

    pub attach_lem :
        (tagger temporary : String) (s : Known)
        → s.absent ≡ true
        → s.draft ≡ some (temporary <> "/tag", text_by tagger)
        → s.signed ≡ some (temporary <> "/tag")
        → Holds (watch allowed_signers) (attach signers tag (text_by tagger) temporary) s Ends
    unfolding attach
    attach_lem tagger temporary s absent drafted signs = (
      tt,
      elim [
        | raised e ↦ λ _. tt
        | got signature ↦ λ legal. (
          refl,
          elim [
            | raised e ↦ λ _. tt
            | got output ↦ λ _. verify_step (strip output) _ _ (λ checked.
                update_step tagger signature output s absent
                  (legal temporary (text_by tagger) drafted signs refl))
          ],
        )
      ],
    )

    -- A program that only looks, what is known of its result, and what follows it
    pub result_step :
        {A : Type 0} (m : Work A) (k : A → Work (Unit {0})) (s : Known) (P : A → Type 0)
        → LooksFor P m
        → ((a : A) → P a → Holds (watch allowed_signers) (k a) s Ends)
        → Holds (watch allowed_signers) (m >>= k) s Ends
    result_step (ret a) k s P h next = next a h
    result_step (raise e) k s P h next = tt
    result_step (call c f) k s P (l, h) next =
        (rw l tt, λ r legal. rw l (result_step (f r) k s P (h r) next))

    -- A program that only looks, and what follows it
    pub look_step :
        {A : Type 0} (m : Work A) (k : A → Work (Unit {0})) (s : Known)
        → OnlyLooks m
        → ((a : A) → Holds (watch allowed_signers) (k a) s Ends)
        → Holds (watch allowed_signers) (m >>= k) s Ends
    look_step m k s looks next =
        Holds-then (watch allowed_signers) m k s (λ s' o. s' ≡ s) Ends
          (OnlyLooks-Holds (watch allowed_signers) m s (λ s c l. (rw l tt, λ r. rw l refl)) looks)
          (λ s' a p. rw p (next a)) (λ s' e p. tt)

    pub index_step :
        (value : Json) (key : String) (k : Json → Work (Unit {0})) (s : Known)
        → ((v : Json) → value_at value key ≡ some v → Holds (watch allowed_signers) (k v) s Ends)
        → Holds (watch allowed_signers) (index value key >>= k) s Ends
    unfolding index
    index_step (object fields) key k s next = go (find fields key) next
      where
        go :
            (o : Option Json)
            → ((v : Json) → o ≡ some v → Holds (watch allowed_signers) (k v) s Ends)
            → Holds (watch allowed_signers) (found o >>= k) s Ends
        go none next = tt
        go (some v) next = next v refl
    index_step null key k s next = tt
    index_step (boolean b) key k s next = tt
    index_step (number x) key k s next = tt
    index_step (string t) key k s next = tt
    index_step (array xs) key k s next = tt

    pub Passes : Known → Outcome Error (Outcome Error (Unit {0})) → Type 0
    Passes s (ok o) = Ends s o
    Passes s (err e) = Unit

    pub attempt_lem :
        (m : Work (Unit {0})) (s : Known)
        → Holds (watch allowed_signers) m s Ends
        → Holds (watch allowed_signers) (attempt m) s Passes
    unfolding Passes
    attempt_lem m s h =
        Holds-try_catch (watch allowed_signers) (m >>= λ a. ret (ok a)) (λ e. ret (err e)) s Passes
          (Holds->>= (watch allowed_signers) m (λ a. ret (ok a)) s _
            (Holds-mono (watch allowed_signers) m s (λ s'. elim [ ok a ↦ λ p. p | err e ↦ λ p. tt ])
              h))

    pub temporary_lem :
        (directory : Option String) (body : String → Work (Unit {0})) (s : Known)
        → ((temporary : String) → Holds (watch allowed_signers) (body temporary) s Ends)
        → Holds (watch allowed_signers) (with_temporary directory body) s Ends
    unfolding Passes
    temporary_lem directory body s h = (
      tt,
      elim [
        | raised e ↦ λ _. tt
        | got temporary ↦ λ _.
            Holds-then (watch allowed_signers) (attempt (body temporary)) _ s Passes Ends
              (attempt_lem (body temporary) s (h temporary))
              (λ s'. elim [
                | ok x ↦ λ p. (tt, elim [ raised e ↦ λ _. tt | got y ↦ λ _. p ])
                | err e ↦ λ p. (tt, elim [ raised e ↦ λ _. tt | got y ↦ λ _. tt ])
              ])
              (λ s' e p. tt)
      ],
    )

    pub sign_lem :
        (key tagger temporary : String) (s : Known)
        → s.absent ≡ true
        → Holds
            (watch allowed_signers)
            (sign_and_attach key signers tag (text_by tagger) temporary)
            s
            Ends
    unfolding sign_and_attach
    sign_lem key tagger temporary s absent = (
      tt,
      elim [
        | raised e ↦ λ _. tt
        | got x ↦ λ _. (
          tt,
          elim [
            | raised e ↦ λ _. tt
            | got path ↦ λ _. (
              inl refl,
              elim [
                | raised e ↦ λ _. tt
                | got y ↦ λ _. attach_lem tagger temporary _ absent refl refl
              ],
            )
          ],
        )
      ],
    )

    pub message_lem :
        (written : Option String) (expected : String) (s : Known)
        → elem tag s.verified ≡ true
        → Holds (watch allowed_signers) (check_message written expected) s Ends
    message_lem none expected s h = tt
    message_lem (some text) expected s h = elim (Bool-cases (str_eq text expected)) [
      | inl e ↦ rw e (inr h)
      | inr e ↦ rw e tt
    ]

    pub existing_lem :
        (commit : Json) (expected : String) (s : Known)
        → Holds (watch allowed_signers) (check_existing signers commit tag expected) s Ends
    unfolding check_existing git
    existing_lem commit expected s = verify_step tag _ s (λ checked. (
      inl refl,
      elim [
        | raised e ↦ λ _. tt
        | got tagged ↦ λ _. elim (Bool-cases (json_eq (string (strip tagged)) commit)) [
          | inr e ↦ rw e tt
          | inl e ↦ rw e (
            inl refl,
            elim [
              | raised e ↦ λ _. tt
              | got text ↦
                  λ _. message_lem (message_of (strip text)) expected _ (elem_first tag s.verified)
            ],
          )
        ]
      ],
    ))

    pub listed_lem :
        (is_query ("git" ∷ "tag" ∷ "--list" ∷ tag ∷ [])
          || is_listing ("git" ∷ "tag" ∷ "--list" ∷ tag ∷ [])
          || is_verification ("git" ∷ "tag" ∷ "--list" ∷ tag ∷ []))
        ≡ true
    listed_lem = rw (compare_refl tag) refl

    pub listing_lem :
        (s : Known) (output : String)
        → Step s (run ("git" ∷ "tag" ∷ "--list" ∷ tag ∷ [])) (got output)
          ≡ record s { absent = not (is_nonempty (strip output)) }
    listing_lem s output = rw (compare_refl tag) refl

    -- The listing of the tag, and what follows it
    pub listing_step :
        (k : String → Work (Unit {0})) (s : Known)
        → ((output : String)
            → Holds
                (watch allowed_signers)
                (k output)
                (record s { absent = not (is_nonempty output) })
                Ends)
        → Holds (watch allowed_signers) (git ("tag" ∷ "--list" ∷ tag ∷ []) >>= k) s Ends
    unfolding git
    listing_step k s next = (
      inl listed_lem,
      elim [
        | raised e ↦ λ _. tt
        | got output ↦ λ _.
            subst (λ s'. Holds (watch allowed_signers) (k (strip output)) s' Ends)
              (sym (listing_lem s output)) (next (strip output))
      ],
    )
