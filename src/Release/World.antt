-- ===== src/Release/World.antt =====
-- Runs that only read, in surroundings that do not change meanwhile.
use hp_lj_1020_driver.Base.{
  ◌≡◌, refl, String, Bool, true, false, ◌&&◌, Option, none, some, List, [], ◌∷◌, str_eq,
}
use hp_lj_1020_driver.Base.Prog.{Outcome, ok, err, Monitor, Holds, Holds-mono, Holds-then, ◌>>=◌}
use hp_lj_1020_driver.Base.Json.{Json, null, boolean, number, string, array, object, find, entries}
use hp_lj_1020_driver.Release.Calls.{
  Error, Call, run, exists, is_file, is_symlink, is_writable, digest, read_json, list_tree,
  is_within, Answer, got, raised, Replies, Work, ask, raise_if, index, items_of, found,
}

abbrev is_revision_query : List String → Bool
is_revision_query (program ∷ command ∷ arguments) =
    str_eq program "git" && str_eq command "rev-parse"
is_revision_query _ = false

-- The calls that change nothing, of those that reading the records takes
abbrev pub is_reading : Call → Bool
is_reading (run command) = is_revision_query command
is_reading (exists path) = true
is_reading (is_file path) = true
is_reading (is_symlink path) = true
is_reading (is_writable path) = true
is_reading (digest path) = true
is_reading (read_json path) = true
is_reading (list_tree path) = true
is_reading (is_within path root) = true
is_reading _ = false

-- What every call would answer at one moment
abbrev pub World : Type 0
World = (c : Call) → Answer c

-- `value[key]`
abbrev pub value_at : Json → String → Option Json
value_at (object fields) key = find fields key
value_at _ key = none

-- The items of a dictionary
abbrev pub members_of : Json → List (String × Json)
members_of (object fields) = entries fields
members_of _ = []

module _ (world : World) where
  abbrev pub IsTrue : (c : Call) → Replies c → Type 0
  IsTrue c (got x) = x ≡ world c
  IsTrue c (raised e) = Unit

  -- A call may fail, but an answer is the world's.
  abbrev pub reading : Monitor (Unit {0}) Call Replies
  reading = record {
    allowed = λ s c. is_reading c ≡ true;
    legal = λ s c r. IsTrue c r;
    next = λ s c r. tt;
  }

  abbrev pub Gives : {A : Type 0} → (A → Type 0) → Unit {0} → Outcome Error A → Type 0
  Gives P s (ok a) = P a
  Gives P s (err e) = Unit

  -- A program that only reads, and that gives what `P` says, if anything.
  abbrev pub Sees : {A : Type 0} → Work A → (A → Type 0) → Type 0
  Sees m P = Holds reading m tt (Gives P)

  pub sees_then :
      {A B : Type 0} (m : Work A) (f : A → Work B) (P : A → Type 0) (Q : B → Type 0)
      → Sees m P
      → ((a : A) → P a → Sees (f a) Q)
      → Sees (m >>= f) Q
  sees_then m f P Q h next =
      Holds-then reading m f tt (Gives P) (Gives Q) h (λ s a p. next a p) (λ s e p. tt)

  pub sees_mono :
      {A : Type 0} (m : Work A) (P Q : A → Type 0) → Sees m P → ((a : A) → P a → Q a) → Sees m Q
  sees_mono m P Q h i =
      Holds-mono reading m tt {P = Gives P} {Q = Gives Q}
        (λ s. elim [ ok a ↦ λ p. i a p | err e ↦ λ p. tt ]) h

  pub sees_ask : (c : Call) → is_reading c ≡ true → Sees (ask c) (λ x. x ≡ world c)
  sees_ask c h = (h, elim [ got x ↦ λ p. p | raised e ↦ λ p. tt ])

  pub sees_raise_if : (b : Bool) (message : String) → Sees (raise_if b message) (λ x. b ≡ false)
  sees_raise_if true message = tt
  sees_raise_if false message = refl

  pub sees_index :
      (value : Json) (key : String) → Sees (index value key) (λ v. value_at value key ≡ some v)
  unfolding index
  sees_index (object fields) key = go (find fields key)
    where
      go : (o : Option Json) → Sees (found o) (λ v. o ≡ some v)
      go none = tt
      go (some v) = refl
  sees_index null key = tt
  sees_index (boolean b) key = tt
  sees_index (number x) key = tt
  sees_index (string s) key = tt
  sees_index (array xs) key = tt

  pub sees_items : (value : Json) → Sees (items_of value) (λ es. members_of value ≡ es)
  unfolding items_of
  sees_items (object fields) = refl
  sees_items null = tt
  sees_items (boolean b) = tt
  sees_items (number x) = tt
  sees_items (string s) = tt
  sees_items (array xs) = tt
