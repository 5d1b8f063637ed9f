-- ===== src/Release/Records/Chain.antt =====
-- What `records` gives is a chain of records (scripts/personal_release.py).
use hp_lj_1020_driver.Base.{
  ◌≡◌, refl, sym, ap, ◌∙◌, String, ◌<>◌, true, false, not, Option, none, some, List, [], ◌∷◌, All,
  is_empty, str_eq, Bool-cases, inl, inr,
}
use hp_lj_1020_driver.Base.Text.{is_hex, strip}
use hp_lj_1020_driver.Base.Prog.{ret}
use hp_lj_1020_driver.Base.Json.{Json, string, object}
use hp_lj_1020_driver.Base.Json.Order.{json_eq}
use hp_lj_1020_driver.Release.Calls.{
  run, exists, is_file, is_symlink, is_writable, digest, read_json, is_within, ask, raise_if, index,
  items_of,
}
use hp_lj_1020_driver.Release.Files.{is_unsafe, inventory, safe_file}
use hp_lj_1020_driver.Release.World.{
  World, value_at, members_of, Sees, sees_then, sees_ask, sees_raise_if, sees_index, sees_items,
  sees_mono,
}
use hp_lj_1020_driver.Release.Records.{
  stages, demand, text_or_null, fields_from, shown, git, run_directory, run_path, check_output,
  check_outputs, same_value, check_identity, check_prepared, check_tagged, check_special,
  stage_file, check_record, read_record, first_of, read_records, records,
}
use hp_lj_1020_driver.Release.Records.Contents.{
  so_if_refuted, broken, unsafe, differs, not_both, contents_of, inventory_lem, Says, demand_lem,
}

module _ (world : World) (archive : String) (str : Json → String) where
  -- An output in the archive: a file that nobody may write, with the recorded checksum
  abbrev pub Kept : String × Json → Type 0
  Kept (name, checksum) =
      (world (is_symlink (archive <> "/" <> name)) ≡ false)
      × (world (is_within (archive <> "/" <> name) archive) ≡ true)
      × (world (is_file (archive <> "/" <> name)) ≡ true)
      × (world (is_writable (archive <> "/" <> name)) ≡ false)
      × (json_eq (string (world (digest (archive <> "/" <> name)))) checksum ≡ true)

  abbrev IsSafe : String → String → Type 0
  IsSafe name path =
      (path ≡ archive <> "/" <> name)
      × (world (is_symlink (archive <> "/" <> name)) ≡ false)
      × (world (is_within (archive <> "/" <> name) archive) ≡ true)

  safe_file_lem : (name : String) → Sees world (safe_file archive name) (IsSafe name)
  unfolding safe_file
  safe_file_lem name =
      sees_then world {B = String} (raise_if (is_unsafe name) "unsafe record path") _ _
        (IsSafe name) (sees_raise_if world (is_unsafe name) "unsafe record path")
        (λ x safe.
          sees_then world {B = String} (ask (is_symlink (archive <> "/" <> name))) _ _ (IsSafe name)
            (sees_ask world (is_symlink (archive <> "/" <> name)) refl)
            (λ linked p.
              sees_then world {B = String} (raise_if linked "unsafe record path") _ _ (IsSafe name)
                (sees_raise_if world linked "unsafe record path")
                (λ x q.
                  sees_then world {B = String} (ask (is_within (archive <> "/" <> name) archive)) _
                    _ (IsSafe name)
                    (sees_ask world (is_within (archive <> "/" <> name) archive) refl)
                    (λ within r.
                      sees_then world {B = String} (raise_if (not within) "record escapes its root")
                        (λ x. ret (archive <> "/" <> name)) _ (IsSafe name)
                        (sees_raise_if world (not within) "record escapes its root")
                        (λ x t. (refl, sym p ∙ q, sym r ∙ so_if_refuted within t))))))

  abbrev bad_output : String
  bad_output = "stage output checksum or immutability mismatch"

  output_lem : (e : String × Json) → Sees world (check_output archive str e) (λ x. Kept e)
  unfolding check_output
  output_lem (name, checksum) =
      sees_then world (safe_file archive name) _ _ _ (safe_file_lem name)
        (λ file (at, unlinked, inside).
          sees_then world (ask (is_file file)) _ _ _ (sees_ask world (is_file file) refl)
            (λ there p.
              sees_then world (raise_if (not there) bad_output) _ _ _
                (sees_raise_if world (not there) bad_output)
                (λ x q.
                  sees_then world (ask (is_writable file)) _ _ _
                    (sees_ask world (is_writable file) refl)
                    (λ writable r.
                      sees_then world (raise_if writable bad_output) _ _ _
                        (sees_raise_if world writable bad_output)
                        (λ x t.
                          sees_then world (ask (digest file)) _ _ _
                            (sees_ask world (digest file) refl)
                            (λ sum u.
                              sees_mono world
                                (raise_if (not (json_eq (string sum) checksum)) bad_output) _ _
                                (sees_raise_if world (not (json_eq (string sum) checksum))
                                  bad_output)
                                (λ x v.
                                  let same = so_if_refuted (json_eq (string sum) checksum) v in
                                  let file_there = so_if_refuted there q in
                                  (unlinked, inside, cc, cc, cc))))))))

  outputs_lem :
      (es : List (String × Json)) → Sees world (check_outputs archive str es) (λ x. All Kept es)
  unfolding check_outputs
  outputs_lem [] = tt
  outputs_lem (e ∷ es) =
      sees_then world (check_output archive str e) _ _ _ (output_lem e)
        (λ x p. sees_mono world (check_outputs archive str es) _ _ (outputs_lem es) (λ x q. (p, q)))

  -- Two records say the same of a key.
  abbrev pub Agree : Json → Json → String → Type 0
  Agree entry first key =
      (a : Json) × (value_at entry key ≡ some a)
      × (b : Json) × (value_at first key ≡ some b)
      × (json_eq a b ≡ true)

  same_lem :
      (entry first : Json) (key : String)
      → Sees world (same_value archive str entry first key) (λ x. Agree entry first key)
  unfolding same_value
  same_lem entry first key =
      sees_then world (index entry key) _ _ _ (sees_index world entry key) (λ a p.
        sees_then world (index first key) _ _ _ (sees_index world first key) (λ b q.
          sees_mono world (raise_if (not (json_eq a b)) "stage identity mismatch") _ _
            (sees_raise_if world (not (json_eq a b)) "stage identity mismatch")
            (λ x r. (a, p, b, q, so_if_refuted (json_eq a b) r))))

  abbrev pub SameIdentity : Option Json → Json → Type 0
  SameIdentity none entry = Unit
  SameIdentity (some first) entry = Agree entry first "commit" × Agree entry first "version"

  identity_lem :
      (first : Option Json) (entry : Json)
      → Sees world (check_identity archive str first entry) (λ x. SameIdentity first entry)
  unfolding check_identity
  identity_lem none entry = tt
  identity_lem (some first) entry =
      sees_then world (same_value archive str entry first "commit") _ _ _
        (same_lem entry first "commit")
        (λ x p.
          sees_mono world (same_value archive str entry first "version") _ _
            (same_lem entry first "version") (λ x q. (p, q)))

  -- The outputs of the first stage are the inventory of its inputs.
  abbrev pub IsInventory : String → Json → Type 0
  IsInventory run_id entry =
      (outputs : Json) × (value_at entry "outputs" ≡ some outputs)
      × (json_eq
            (object (
              fields_from ("runs/" <> run_id <> "/inputs/")
                (contents_of world (run_directory archive run_id <> "/inputs"))))
            outputs
          ≡ true)

  prepared_lem :
      (run_id : String) (entry : Json)
      → Sees world (check_prepared archive str run_id entry) (λ x. IsInventory run_id entry)
  unfolding check_prepared
  prepared_lem run_id entry =
      sees_then world (inventory (run_directory archive run_id <> "/inputs")) _ _ _
        (inventory_lem world (run_directory archive run_id <> "/inputs"))
        (λ inputs p.
          sees_then world (index entry "outputs") _ _ _ (sees_index world entry "outputs")
            (λ outputs q.
              sees_mono world (raise_if (not (json_eq _ outputs)) "prepared inventory mismatch") _ _
                (sees_raise_if world (not (json_eq _ outputs)) "prepared inventory mismatch")
                (λ x r. (
                  outputs,
                  q,
                  ap
                        (λ es.
                          json_eq (object (fields_from ("runs/" <> run_id <> "/inputs/") es))
                            outputs)
                        (sym p)
                      ∙ so_if_refuted (json_eq _ outputs) r,
                ))))

  -- The tag still names the object that was recorded.
  abbrev pub IsTagged : Json → Type 0
  IsTagged entry =
      (data_of : Json) × (value_at entry "data" ≡ some data_of)
      × (tag : Json) × (value_at data_of "tag" ≡ some tag)
      × (recorded : Json) × (value_at data_of "tagObject" ≡ some recorded)
      × (json_eq
            (string
              (strip (world (run ("git" ∷ "rev-parse" ∷ ("refs/tags/" <> shown str tag) ∷ [])))))
            recorded
          ≡ true)

  git_lem :
      (arguments : List String)
      → Sees world
          (git ("rev-parse" ∷ arguments))
          (λ s. s ≡ strip (world (run ("git" ∷ "rev-parse" ∷ arguments))))
  unfolding git
  git_lem arguments =
      sees_then world (ask (run ("git" ∷ "rev-parse" ∷ arguments))) _ _ _
        (sees_ask world (run ("git" ∷ "rev-parse" ∷ arguments)) refl) (λ output p. ap strip p)

  tagged_lem : (entry : Json) → Sees world (check_tagged archive str entry) (λ x. IsTagged entry)
  unfolding check_tagged
  tagged_lem entry =
      sees_then world (index entry "data") _ _ _ (sees_index world entry "data") (λ data_of p.
        sees_then world (index data_of "tag") _ _ _ (sees_index world data_of "tag") (λ tag q.
          sees_then world (git ("rev-parse" ∷ ("refs/tags/" <> shown str tag) ∷ [])) _ _ _
            (git_lem (("refs/tags/" <> shown str tag) ∷ []))
            (λ oid r.
              sees_then world (index data_of "tagObject") _ _ _
                (sees_index world data_of "tagObject")
                (λ recorded t.
                  sees_mono world
                    (raise_if (not (json_eq (string oid) recorded)) "immutable tag changed") _ _
                    (sees_raise_if world (not (json_eq (string oid) recorded))
                      "immutable tag changed")
                    (λ x u. (
                      data_of,
                      p,
                      tag,
                      q,
                      recorded,
                      t,
                      ap (λ o. json_eq (string o) recorded) (sym r)
                          ∙ so_if_refuted (json_eq (string oid) recorded) u,
                    ))))))

  -- What `records` vouches for, of one record.
  abbrev pub Recorded : String → String → Option String → Option Json → Json → Type 0
  Recorded run_id stage previous first entry =
      Says world entry "stage" (string stage)
      × Says world entry "runId" (string run_id)
      × Says world entry "previousSha256" (text_or_null previous)
      × ((outputs : Json) × (value_at entry "outputs" ≡ some outputs)
          × All Kept (members_of outputs))
      × SameIdentity first entry
      × (stage ≡ "prepared" → IsInventory run_id entry)
      × (stage ≡ "tagged" → IsTagged entry)

  special_lem :
      (stage run_id : String) (entry : Json)
      → Sees world (check_special archive str stage run_id entry) (λ x.
        (stage ≡ "prepared" → IsInventory run_id entry) × (stage ≡ "tagged" → IsTagged entry))
  special_lem stage run_id entry = elim (Bool-cases (str_eq stage "prepared")) [
    | inl e ↦ rw e (
        sees_mono world (check_prepared archive str run_id entry) _ _ (prepared_lem run_id entry)
          (λ x p. (λ h. p, λ h. not_both stage e h)))
    | inr e ↦ elim (Bool-cases (str_eq stage "tagged")) [
      | inl t ↦
          rw (e, t)
            (sees_mono world (check_tagged archive str entry) _ _ (tagged_lem entry)
              (λ x p. (λ h. differs e h, λ h. p)))
      | inr t ↦ rw (e, t) (λ h. differs e h, λ h. differs t h)
    ]
  ]

  record_lem :
      (run_id stage : String) (previous : Option String) (first : Option Json) (entry : Json)
      → Sees world
          (check_record archive str run_id stage previous first entry)
          (λ x. Recorded run_id stage previous first entry)
  unfolding check_record
  record_lem run_id stage previous first entry =
      sees_then world (demand entry "stage" (string stage) broken) _ _ _
        (demand_lem world entry "stage" (string stage) broken)
        (λ x p.
          sees_then world (demand entry "runId" (string run_id) broken) _ _ _
            (demand_lem world entry "runId" (string run_id) broken)
            (λ x q.
              sees_then world (demand entry "previousSha256" (text_or_null previous) broken) _ _ _
                (demand_lem world entry "previousSha256" (text_or_null previous) broken)
                (λ x r.
                  sees_then world (index entry "outputs") _ _ _ (sees_index world entry "outputs")
                    (λ outputs o.
                      sees_then world (items_of outputs) _ _ _ (sees_items world outputs)
                        (λ listed l.
                          sees_then world (check_outputs archive str listed) _ _ _
                            (outputs_lem listed)
                            (λ x kept.
                              sees_then world (check_identity archive str first entry) _ _ _
                                (identity_lem first entry)
                                (λ x same.
                                  sees_mono world (check_special archive str stage run_id entry) _ _
                                    (special_lem stage run_id entry)
                                    (λ x special. (
                                      p,
                                      q,
                                      r,
                                      (outputs, o, rw l kept),
                                      same,
                                      special.0,
                                      special.1,
                                    )))))))))

  -- The file of a record: no link, and nobody may write it
  abbrev pub IsSound : String → Json → Type 0
  IsSound file entry =
      (world (is_symlink file) ≡ false)
      × (world (is_writable file) ≡ false)
      × (world (read_json file) ≡ entry)

  read_record_lem :
      (run_id stage : String)
      → Sees world
          (read_record archive str run_id stage)
          (IsSound (stage_file archive str run_id stage))
  unfolding read_record
  read_record_lem run_id stage =
      let file : String = stage_file archive str run_id stage in
      sees_then world (ask (is_symlink file)) _ _ _ (sees_ask world (is_symlink file) refl)
        (λ linked p.
          sees_then world (raise_if linked unsafe) _ _ _ (sees_raise_if world linked unsafe) (λ x q.
            sees_then world (ask (is_writable file)) _ _ _ (sees_ask world (is_writable file) refl)
              (λ writable r.
                sees_then world (raise_if writable unsafe) _ _ _
                  (sees_raise_if world writable unsafe)
                  (λ x t.
                    sees_mono world (ask (read_json file)) _ _
                      (sees_ask world (read_json file) refl)
                      (λ entry u. (sym p ∙ q, sym r ∙ t, sym u))))))

  -- The records of the given stages, as far as their files are there: each vouched for, and each
  -- with the digest of the file before it.
  abbrev pub IsChain : String → List String → Option String → Option Json → List Json → Type 0
  IsChain run_id [] previous first [] = Unit
  IsChain run_id [] previous first (entry ∷ later) = ⊥
  IsChain run_id (stage ∷ after) previous first [] =
      world (exists (stage_file archive str run_id stage)) ≡ false
  IsChain run_id (stage ∷ after) previous first (entry ∷ later) =
      (world (exists (stage_file archive str run_id stage)) ≡ true)
      × IsSound (stage_file archive str run_id stage) entry
      × Recorded run_id stage previous first entry
      × IsChain run_id after (some (world (digest (stage_file archive str run_id stage))))
          (some (first_of archive str first entry)) later

  read_records_lem :
      (run_id : String) (after : List String) (previous : Option String) (first : Option Json)
      → Sees world
          (read_records archive str run_id after previous first)
          (IsChain run_id after previous first)
  unfolding read_records
  read_records_lem run_id [] previous first = tt
  read_records_lem run_id (stage ∷ after) previous first =
      let file : String = stage_file archive str run_id stage in
      sees_then world (ask (exists file)) _ _ _ (sees_ask world (exists file) refl) (elim [
        | false ↦ λ p. sym p
        | true ↦ λ p.
            sees_then world (read_record archive str run_id stage) _ _ _
              (read_record_lem run_id stage)
              (λ entry sound.
                sees_then world (check_record archive str run_id stage previous first entry) _ _ _
                  (record_lem run_id stage previous first entry)
                  (λ x recorded.
                    sees_then world (ask (digest file)) _ _ _ (sees_ask world (digest file) refl)
                      (λ sum q.
                        sees_then world
                          (read_records archive str run_id after (some sum)
                            (some (first_of archive str first entry)))
                          _ _ (IsChain run_id (stage ∷ after) previous first)
                          (read_records_lem run_id after (some sum)
                            (some (first_of archive str first entry)))
                          (λ rest chain. (sym p, sound, recorded, rw (sym q) chain)))))
      ])

  run_path_lem :
      (run_id : String) → Sees world (run_path archive run_id) (λ x. is_hex 32 run_id ≡ true)
  unfolding run_path
  run_path_lem run_id =
      sees_then world (raise_if (not (is_hex 32 run_id)) "invalid run ID") _ _ _
        (sees_raise_if world (not (is_hex 32 run_id)) "invalid run ID")
        (λ x hex. so_if_refuted (is_hex 32 run_id) hex)

  -- In surroundings that do not change meanwhile, and whatever fails, `records` only reads. What it
  -- gives is the whole chain of a run with a hexadecimal identifier and no failure: there is at
  -- least one record; the records are those of the stages in order, up to the first that has no
  -- file; the file of each is no link and not writable; each names its stage, its run, and the
  -- digest of the file before it; its outputs are files in the archive that nobody may write, with
  -- the recorded checksums; it has the commit and the version of the first; the outputs of the
  -- first are the inventory of the inputs, and the recorded tag still names the recorded object.
  pub records-IsChain :
      (run_id : String)
      → Sees world (records archive str run_id) (λ found.
        (is_hex 32 run_id ≡ true)
        × IsChain run_id stages none none found
        × (is_empty found ≡ false)
        × (world (exists (run_directory archive run_id <> "/failed.json")) ≡ false))
  unfolding records
  records-IsChain run_id =
      sees_then world (run_path archive run_id) _ _ _ (run_path_lem run_id) (λ x hex.
        sees_then world (read_records archive str run_id stages none none) _ _ _
          (read_records_lem run_id stages none none)
          (λ found chain.
            sees_then world (raise_if (is_empty found) "run is not prepared") _ _ _
              (sees_raise_if world (is_empty found) "run is not prepared")
              (λ x some_there.
                sees_then world (ask (exists failed_file)) _ _ _
                  (sees_ask world (exists failed_file) refl)
                  (λ failed p.
                    sees_then world (raise_if failed "failed runs require a new run ID") _ _ _
                      (sees_raise_if world failed "failed runs require a new run ID")
                      (λ x q. (hex, chain, some_there, sym p ∙ q))))))
    where
      failed_file : String
      failed_file = run_directory archive run_id <> "/failed.json"
