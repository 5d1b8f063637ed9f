-- ===== src/Update/Durable.antt =====
-- `durable_json` and `sync_directory` (scripts/personal_update.py), file operation by file operation.
use hp_lj_1020_driver.Base.{◌≡◌, String, List, [], ◌∷◌, ◌++◌}
use hp_lj_1020_driver.Base.Prog.{Prog, Outcome, ok, err, ret, raise, call, ◌>>◌, try_catch, Monitor}
use hp_lj_1020_driver.Update.Calls.{Error, Reply, got, raised}

-- The temporary file is opened, written to, flushed, synced and closed, and replaces the target; the
-- directory is opened, synced and closed.
pub data Call : Type 0 where
  open_temporary flush fsync close : Call
  write : String → Call
  replace : Call
  open_directory fsync_directory close_directory : Call

abbrev pub Replies : Call → Type 0
Replies c = Reply (Unit {0})

abbrev pub Work : Type 0 → Type 0
Work A = Prog Call Replies Error A

abbrev answer : Reply (Unit {0}) → Work (Unit {0})
answer (got a) = ret a
answer (raised e) = raise e

abbrev ask : Call → Work (Unit {0})
ask c = call c answer

-- `finally: operation`, around a body that returns nothing
abbrev finally : Work (Unit {0}) → Call → Work (Unit {0})
finally body c = try_catch body (λ e. ask c >> raise e) >> ask c

pub sync_directory : Work (Unit {0})
sync_directory = ask open_directory >> finally (ask fsync_directory) close_directory

-- The argument is the text that `json.dump` writes.
pub durable_json : String → Work (Unit {0})
unfolding sync_directory
durable_json text = do
  ask open_temporary
  finally (do ask (write text); ask (write "\n"); ask flush; ask fsync) close
  ask replace
  sync_directory

-- How far the new content has got, which is the texts written to the temporary file since it was
-- opened: not yet flushed, flushed, synced, in place of the old one, and in place for good. After
-- anything else the file may be torn.
pub data Progress : Type 0 where
  unsynced flushed synced : List String → Progress
  torn replaced durable : Progress

abbrev pub Next : Progress → (c : Call) → Replies c → Progress
Next s open_temporary (got _) = unsynced []
Next (unsynced texts) (write t) (got _) = unsynced (texts ++ (t ∷ []))
Next (unsynced texts) flush (got _) = flushed texts
Next (flushed texts) fsync (got _) = synced texts
Next (synced texts) close (got _) = synced texts
Next (synced texts) replace (got _) = replaced
Next replaced open_directory r = replaced
Next replaced fsync_directory (got _) = durable
Next durable close_directory r = durable
Next s _ _ = torn

module _ (text : String) where
  -- Nothing but the whole text and the newline, synced, may replace the target.
  abbrev pub Allowed : Progress → Call → Type 0
  Allowed s replace = s ≡ synced (text ∷ "\n" ∷ [])
  Allowed s _ = Unit

  abbrev pub progress : Monitor Progress Call Replies
  progress = record { allowed = Allowed; legal = λ s c r. Unit; next = Next }

abbrev pub Lasts : Progress → Outcome Error (Unit {0}) → Type 0
Lasts s (ok _) = s ≡ durable
Lasts s (err e) = Unit
