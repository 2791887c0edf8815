-- ===== src/Checkpoint/Saving.antt =====
-- `save_checkpoint` (quantflow/execution/state_store.py) step by step, as the calls of the file
-- system that it makes. The process may die after any step; `os.replace` is one step.
use intelligent_trading_syst.Checkpoint.Store.{absent, readable, File, Disk}

-- Where the method is: before the write, in it, after it, after the replacement, on its way out
-- with an exception, and at its two ends.
pub data Point : Type 0 where
  start writing written replaced failing returned raised : Point

pub record Saving (Content : Type 0) : Type 0 where
  pub point : Point
  pub disk : Disk Content

abbrev pub with_tmp : {C : Type 0} → File C → Disk C → Disk C
with_tmp file disk = record disk { tmp = file }

-- `os.replace(tmp, target)`
abbrev pub replace_target : {C : Type 0} → C → Disk C → Disk C
replace_target content disk = record { checkpoint = readable content; tmp = absent }

abbrev pub at : {C : Type 0} → Point → Disk C → Saving C
at point disk = record { point = point; disk = disk }

-- The steps of a save that writes `content`. The `finally` clause unlinks the temporary file, or
-- an error of that is suppressed.
pub data SaveStep {C : Type 0} (empty content : C) : Saving C → Saving C → Type 0 where
  mkdir_raises : (d : Disk C) → SaveStep empty content (at Point.start d) (at Point.raised d)
  opens :
      (d : Disk C)
      → SaveStep empty content (at Point.start d) (at Point.writing (with_tmp (readable empty) d))
  open_raises : (d : Disk C) → SaveStep empty content (at Point.start d) (at Point.failing d)
  writes_part :
      (part : C) (d : Disk C)
      → SaveStep empty content (at Point.writing d) (at Point.writing (with_tmp (readable part) d))
  write_raises : (d : Disk C) → SaveStep empty content (at Point.writing d) (at Point.failing d)
  writes_all :
      (d : Disk C)
      → SaveStep empty content
          (at Point.writing d)
          (at Point.written (with_tmp (readable content) d))
  replaces :
      (d : Disk C)
      → SaveStep empty content (at Point.written d) (at Point.replaced (replace_target content d))
  replace_raises : (d : Disk C) → SaveStep empty content (at Point.written d) (at Point.failing d)
  unlinks :
      (d : Disk C)
      → SaveStep empty content (at Point.failing d) (at Point.raised (with_tmp absent d))
  unlink_fails : (d : Disk C) → SaveStep empty content (at Point.failing d) (at Point.raised d)
  returns :
      (d : Disk C)
      → SaveStep empty content (at Point.replaced d) (at Point.returned (with_tmp absent d))

-- What a save may have done when it ends or the process dies.
pub data Reaches {C : Type 0} (empty content : C) : Saving C → Saving C → Type 0 where
  stays : (s : Saving C) → Reaches empty content s s
  steps :
      (s t u : Saving C)
      → SaveStep empty content s t
      → Reaches empty content t u
      → Reaches empty content s u
