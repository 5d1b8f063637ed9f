-- ===== src/Release/Looks.antt =====
-- Programs that only look at the archive (scripts/personal_release.py): what they are asked to do
-- changes nothing, whatever the replies.
use hp_lj_1020_driver.Base.{
  ◌≡◌, refl, ℕ, String, ◌<>◌, Bool, true, false, not, ◌≡◌, Option, none, some, List, [], ◌∷◌, elem,
  Option-cases, inl, inr,
}
use hp_lj_1020_driver.Base.Text.{split_lines}
use hp_lj_1020_driver.Base.Prog.{ret, raise, call, Monitor, Holds, ◌>>=◌}
use hp_lj_1020_driver.Base.Json.{Json, null, boolean, number, string, array, object, find}
use hp_lj_1020_driver.Release.Calls.{
  Kind, plain, folder, link, special, Inventory, Call, is_symlink, any_writable, digest, read_text,
  list_tree, is_within, got, raised, Replies, Work, ask, raise_if, index, as_text, found,
}
use hp_lj_1020_driver.Release.Files.{is_unsafe, take_inventory, inventory, safe_file}
use hp_lj_1020_driver.Release.Records.{nth}
use hp_lj_1020_driver.Release.Bundle.{
  names, split_once, set_entry, without, same_inventory, read_sums, need_key, verify_seal, data_at,
  sealed_bundle,
}

abbrev pub is_look : Call → Bool
is_look (is_symlink path) = true
is_look (any_writable path) = true
is_look (digest path) = true
is_look (read_text path) = true
is_look (list_tree path) = true
is_look (is_within path root) = true
is_look _ = false

abbrev pub OnlyLooks : {A : Type 0} → Work A → Type 0
OnlyLooks (ret a) = Unit
OnlyLooks (raise e) = Unit
OnlyLooks (call c k) = (is_look c ≡ true) × ((r : Replies c) → OnlyLooks (k r))

pub looks_then :
    {A B : Type 0} (m : Work A) (f : A → Work B)
    → OnlyLooks m
    → ((a : A) → OnlyLooks (f a))
    → OnlyLooks (m >>= f)
looks_then (ret a) f h next = next a
looks_then (raise e) f h next = tt
looks_then (call c k) f (l, h) next = (l, λ r. looks_then (k r) f (h r) next)

pub looks_ask : (c : Call) → is_look c ≡ true → OnlyLooks (ask c)
looks_ask c h = (h, elim [ got x ↦ tt | raised e ↦ tt ])

pub looks_raise_if : (b : Bool) (message : String) → OnlyLooks (raise_if b message)
looks_raise_if true message = tt
looks_raise_if false message = tt

-- Where the looks are allowed in every state and change none, such a program keeps the state.
pub OnlyLooks-Holds :
    {S A : Type 0} (M : Monitor S Call Replies) (m : Work A) (s : S)
    → ((s : S) (c : Call) → is_look c ≡ true → M.allowed s c × ((r : Replies c) → M.next s c r ≡ s))
    → OnlyLooks m
    → Holds M m s (λ s' o. s' ≡ s)
OnlyLooks-Holds M (ret a) s free h = refl
OnlyLooks-Holds M (raise e) s free h = refl
OnlyLooks-Holds M (call c k) s free (l, h) =
    ((free s c l).0, λ r legal. rw ((free s c l).1 r) (OnlyLooks-Holds M (k r) s free (h r)))

pub looks_index : (value : Json) (key : String) → OnlyLooks (index value key)
unfolding index
looks_index (object fields) key = go (find fields key)
  where
    go : (o : Option Json) → OnlyLooks (found o)
    go none = tt
    go (some v) = tt
looks_index null key = tt
looks_index (boolean b) key = tt
looks_index (number x) key = tt
looks_index (string s) key = tt
looks_index (array xs) key = tt

looks_as_text : (value : Json) → OnlyLooks (as_text value)
unfolding as_text
looks_as_text (object fields) = tt
looks_as_text null = tt
looks_as_text (boolean b) = tt
looks_as_text (number x) = tt
looks_as_text (string s) = tt
looks_as_text (array xs) = tt

looks_take :
    (path : String) (listed : List (String × Kind)) → OnlyLooks (take_inventory path listed)
unfolding take_inventory
looks_take path [] = tt
looks_take path ((name, plain) ∷ listed) =
    looks_then (ask (digest (path <> "/" <> name))) _
      (looks_ask (digest (path <> "/" <> name)) refl)
      (λ sum. looks_then (take_inventory path listed) _ (looks_take path listed) (λ es. tt))
looks_take path ((name, folder) ∷ listed) = looks_take path listed
looks_take path ((name, link) ∷ listed) = tt
looks_take path ((name, special) ∷ listed) = tt

pub looks_inventory : (path : String) → OnlyLooks (inventory path)
unfolding inventory
looks_inventory path =
    looks_then (ask (list_tree path)) _ (looks_ask (list_tree path) refl)
      (λ listed. looks_then (take_inventory path listed) _ (looks_take path listed) (λ es. tt))

looks_safe_file : (root relative : String) → OnlyLooks (safe_file root relative)
unfolding safe_file
looks_safe_file root relative =
    looks_then (raise_if (is_unsafe relative) "unsafe record path") _
      (looks_raise_if (is_unsafe relative) "unsafe record path")
      (λ x.
        looks_then (ask (is_symlink (root <> "/" <> relative))) _
          (looks_ask (is_symlink (root <> "/" <> relative)) refl)
          (λ linked.
            looks_then (raise_if linked "unsafe record path") _
              (looks_raise_if linked "unsafe record path")
              (λ x.
                looks_then (ask (is_within (root <> "/" <> relative) root)) _
                  (looks_ask (is_within (root <> "/" <> relative) root) refl)
                  (λ within.
                    looks_then (raise_if (not within) "record escapes its root") _
                      (looks_raise_if (not within) "record escapes its root") (λ x. tt)))))

looks_need : (b : Bool) → OnlyLooks (need_key b)
looks_need true = tt
looks_need false = tt

looks_sums : (lines : List String) (expected : Inventory) → OnlyLooks (read_sums lines expected)
looks_sums [] expected = tt
looks_sums (line ∷ lines) expected = elim (Option-cases (split_once "  " line)) [
  | inl e ↦ rw (e, OnlyLooks) tt
  | inr (parts, e) ↦
      rw (e, OnlyLooks)
        (looks_then (raise_if (elem parts.1 (names expected)) "duplicate seal entry") _
          (looks_raise_if (elem parts.1 (names expected)) "duplicate seal entry")
          (λ x. looks_sums lines (set_entry expected parts.1 parts.0)))
]

pub looks_verify_seal : (bundle : String) → OnlyLooks (verify_seal bundle)
unfolding verify_seal
looks_verify_seal bundle = looks_then (inventory bundle) _ (looks_inventory bundle) (λ actual.
    looks_then (ask (any_writable bundle)) _ (looks_ask (any_writable bundle) refl) (λ writable.
      looks_then (raise_if writable "sealed directory is writable") _
        (looks_raise_if writable "sealed directory is writable")
        (λ x.
          looks_then (ask (read_text (bundle <> "/SHA256SUMS"))) _
            (looks_ask (read_text (bundle <> "/SHA256SUMS")) refl)
            (λ sums.
              looks_then (read_sums (split_lines sums) []) _ (looks_sums (split_lines sums) [])
                (λ expected.
                  looks_then (need_key (elem "SHA256SUMS" (names actual))) _
                    (looks_need (elem "SHA256SUMS" (names actual)))
                    (λ x.
                      looks_raise_if (not (same_inventory (without "SHA256SUMS" actual) expected))
                        "sealed inventory mismatch"))))))

looks_data_at : (records : List Json) (i : ℕ) (key : String) → OnlyLooks (data_at records i key)
unfolding data_at
looks_data_at records i key = elim (Option-cases (nth records i)) [
  | inl e ↦ rw (e, OnlyLooks) tt
  | inr (entry, e) ↦
      rw (e, OnlyLooks)
        (looks_then (index entry "data") _ (looks_index entry "data")
          (λ data_of. looks_index data_of key))
]

pub looks_sealed_bundle :
    (archive : String) (records : List Json) → OnlyLooks (sealed_bundle archive records)
unfolding sealed_bundle
looks_sealed_bundle archive records =
    looks_then (data_at records 3 "bundle") _ (looks_data_at records 3 "bundle") (λ bundle.
      looks_then (as_text bundle) _ (looks_as_text bundle)
        (λ relative. looks_safe_file archive relative))
