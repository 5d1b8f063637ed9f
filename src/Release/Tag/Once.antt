-- ===== src/Release/Tag/Once.antt =====
-- When `tag` attaches an object to the tag of a release (scripts/personal_release.py).
use hp_lj_1020_driver.Base.{
  ◌≡◌, refl, ap, String, ◌<>◌, true, Option, none, some, List, [], ◌∷◌, Bool-cases, inl, inr,
}
use mathlib.Core.Path.{subst}
use text.Mathlib.TextPositions.{eq_refl}
use hp_lj_1020_driver.Base.Text.{is_nonempty, strip}
use hp_lj_1020_driver.Base.Prog.{Holds}
use hp_lj_1020_driver.Base.Json.{Json, null}
use hp_lj_1020_driver.Release.Calls.{got, raised}
use hp_lj_1020_driver.Release.World.{value_at}
use hp_lj_1020_driver.Release.Looks.{looks_verify_seal}
use hp_lj_1020_driver.Release.Records.{shown, git}
use hp_lj_1020_driver.Release.Bundle.{sealed_bundle, verify_seal}
use hp_lj_1020_driver.Release.Tag.{sign_and_attach, object_head, create_tag, tag_named, tag_release}
use hp_lj_1020_driver.Release.Tag.Sealed.{bundle_of, sealed_bundle_lem}
use hp_lj_1020_driver.Release.Tag.Steps.{
  Trust, message, start, watch, Ends, look_step, result_step, index_step, temporary_lem, sign_lem,
  existing_lem, listing_step, Known,
}

abbrev or_null : Option Json → Json
or_null none = null
or_null (some v) = v

abbrev first_record : List Json → Json
first_record [] = null
first_record (first ∷ later) = first

-- What is relied on, for the bundle of a chain of records
abbrev pub trust_of : String → (String → String) → (String → String) → List Json → Trust
trust_of archive digest_of signature_of records = record {
  sums = bundle_of archive records <> "/SHA256SUMS";
  digest_of = digest_of;
  signature_of = signature_of;
}

module _ (archive : String) (str : Json → String) where
  -- The tag of a release, and what the text of its object has to start with: the commit of the
  -- first record and the tag.
  abbrev pub tag_of : List Json → String
  tag_of records = "v" <> shown str (or_null (value_at (first_record records) "version"))

  abbrev pub head_of : List Json → String
  head_of records =
      object_head archive str (or_null (value_at (first_record records) "commit")) (tag_of records)

  create_lem :
      (first : Json) (later : List Json) (key signers : String) (trust : Trust)
      (allowed_signers : String) (s : Known)
      → s.absent ≡ true
      → Holds
          (watch (tag_of (first ∷ later)) (head_of (first ∷ later)) signers trust allowed_signers)
          (create_tag archive str first key signers
            (tag_of (first ∷ later))
            (message (tag_of (first ∷ later)) (head_of (first ∷ later)) signers trust))
          s
          (Ends (tag_of (first ∷ later)) (head_of (first ∷ later)) signers trust)
  unfolding create_tag git
  create_lem first later key signers trust allowed_signers s absent =
      let tag : String = tag_of (first ∷ later) in
      let head : String = head_of (first ∷ later) in
      index_step tag head signers trust allowed_signers first "commit" _ s (λ commit e. (
        inl refl,
        elim [
          | raised e ↦ λ _. tt
          | got tagger ↦ λ _.
              temporary_lem tag head signers trust allowed_signers none _ s (λ temporary.
                subst
                  (λ u.
                    Holds (watch tag head signers trust allowed_signers)
                      (sign_and_attach key signers tag
                        (object_head archive str u tag
                          <> strip tagger
                          <> "\n\n"
                          <> message tag head signers trust)
                        temporary)
                      s (Ends tag head signers trust))
                  (ap or_null e)
                  (sign_lem tag head signers trust allowed_signers key (strip tagger) temporary s
                    absent))
        ],
      ))

  named_lem :
      (first : Json) (later : List Json) (key signers : String)
      (digest_of signature_of : String → String) (allowed_signers : String)
      → Holds
          (watch
            (tag_of (first ∷ later))
            (head_of (first ∷ later))
            signers
            (trust_of archive digest_of signature_of (first ∷ later))
            allowed_signers)
          (tag_named archive str first (first ∷ later) key allowed_signers (tag_of (first ∷ later)))
          start
          (Ends
            (tag_of (first ∷ later))
            (head_of (first ∷ later))
            signers
            (trust_of archive digest_of signature_of (first ∷ later)))
  unfolding tag_named
  named_lem first later key signers digest_of signature_of allowed_signers =
      let trust : Trust = trust_of archive digest_of signature_of (first ∷ later) in
      let tag : String = tag_of (first ∷ later) in
      let head : String = head_of (first ∷ later) in
      result_step tag head signers trust allowed_signers (sealed_bundle archive (first ∷ later)) _
        start _ (sealed_bundle_lem archive (first ∷ later))
        (λ bundle here.
          look_step tag head signers trust allowed_signers (verify_seal bundle) _ start
            (looks_verify_seal bundle)
            (λ x. (
              tt,
              elim [
                | raised e ↦ λ _. tt
                | got sum ↦ λ summed. (
                  tt,
                  elim [
                    | raised e ↦ λ _. tt
                    | got resolved ↦ λ legal.
                        rw
                          (
                            legal (eq_refl allowed_signers),
                            summed,
                            ap (λ b. digest_of (b <> "/SHA256SUMS")) here,
                          )
                          (listing_step tag head signers trust allowed_signers _ start (λ existing.
                            elim (Bool-cases (is_nonempty existing)) [
                              | inl e ↦ rw e (
                                  index_step tag head signers trust allowed_signers first "commit" _
                                    _
                                    (λ commit found.
                                      existing_lem tag head signers trust allowed_signers commit _
                                        _))
                              | inr e ↦
                                  rw e (
                                    create_lem first later key signers trust allowed_signers _ refl)
                            ]))
                  ],
                )
              ],
            )))

  -- In every run of `tag`, whatever the commands reply and wherever it is cut off, provided that the
  -- path of the allowed signers resolves to one file, that no digest changes meanwhile, and that
  -- after `ssh-keygen -Y sign` the file beside the signed one holds the signature of its text: the
  -- only command that changes a ref creates the tag of the release, with the null object as its old
  -- value, after the latest listing showed no such tag, on an object that was verified against the
  -- allowed signers and that is the latest that was made, from the text that names the release's
  -- commit and tag, a tagger, and in its message the digest of the sealed bundle's checksums, followed
  -- by the signature of that whole text. A run that returns has either created the tag, or has
  -- verified the one that was there.
  pub tag_release_once :
      (records : List Json) (key signers : String) (digest_of signature_of : String → String)
      (allowed_signers : String)
      → Holds
          (watch
            (tag_of records)
            (head_of records)
            signers
            (trust_of archive digest_of signature_of records)
            allowed_signers)
          (tag_release archive str records key allowed_signers)
          start
          (Ends
            (tag_of records)
            (head_of records)
            signers
            (trust_of archive digest_of signature_of records))
  unfolding tag_release
  tag_release_once [] key signers digest_of signature_of allowed_signers = tt
  tag_release_once (first ∷ later) key signers digest_of signature_of allowed_signers =
      let tag : String = tag_of (first ∷ later) in
      let head : String = head_of (first ∷ later) in
      let trust : Trust = trust_of archive digest_of signature_of (first ∷ later) in
      index_step tag head signers trust allowed_signers first "version" _ start (λ version e.
        subst
          (λ u.
            Holds (watch tag head signers trust allowed_signers)
              (tag_named archive str first (first ∷ later) key allowed_signers ("v" <> shown str u))
              start (Ends tag head signers trust))
          (ap or_null e) (named_lem first later key signers digest_of signature_of allowed_signers))
