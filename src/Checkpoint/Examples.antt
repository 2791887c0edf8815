-- ===== src/Checkpoint/Examples.antt =====
-- A checkpoint that is saved, one whose process dies in the write, and an instance of the theorem.
use intelligent_trading_syst.Base.{refl, Option, none, some, List, [], ◌∷◌, pos}
use intelligent_trading_syst.Registry.Json.{
  null, number, text, array, object, no_items, item, no_fields, field, Json,
}
use intelligent_trading_syst.Checkpoint.Sorting.{sort_keys}
use intelligent_trading_syst.Checkpoint.Store.{
  absent, readable, Disk, Codec, IsFaithful, SessionSnapshot, current_schema_version, as_dict,
  load_checkpoint,
}
use intelligent_trading_syst.Checkpoint.Saving.{
  Point, at, with_tmp, replace_target, Reaches, stays, steps, opens, writes_part, writes_all,
  replaces, returns,
}
use intelligent_trading_syst.Checkpoint.Atomic.{
  Event, saved, DiskRun, disk_ends, disk_saves, StoreRun, disk-StoreRun,
}

-- A codec whose files hold the sorted value, or nothing that can be read.
abbrev codec : Codec (Option Json)
codec = record {
  empty = none;
  dumps = λ v. some (sort_keys v);
  loads = λ content. content;
  loads_error = λ content. "Expecting value";
  read_error = "Permission denied";
  repr = λ v. "";
}

abbrev faithful : IsFaithful codec
faithful = record { reads = λ v. refl }

abbrev snapshot : SessionSnapshot
snapshot = record {
  saved_at_ms = number (pos 5);
  mode = text "paper";
  cash = number (pos 9);
  positions = array (item (object (field "symbol" (text "BTC/USDT") no_fields)) no_items);
  open_orders = array no_items;
  equity = number (pos 9);
  schema_version = current_schema_version;
}

abbrev content : Option Json
content = codec.dumps (as_dict snapshot)

abbrev empty_disk : Disk (Option Json)
empty_disk = record { checkpoint = absent; tmp = absent }

abbrev full_disk : Disk (Option Json)
full_disk = record { checkpoint = readable content; tmp = absent }

abbrev written_disk : Disk (Option Json)
written_disk = with_tmp (readable content) (with_tmp (readable none) empty_disk)

whole_save : Reaches none content (at Point.start empty_disk) (at Point.returned full_disk)
whole_save = steps _ _ _ (opens empty_disk) (
    steps _ _ _ (writes_all (with_tmp (readable none) empty_disk)) (
      steps _ _ _ (replaces written_disk)
        (steps _ _ _ (returns (replace_target content written_disk)) (stays _))))

-- Half of the text is in the temporary file when the process dies.
abbrev torn_disk : Disk (Option Json)
torn_disk = with_tmp (readable (some null)) (with_tmp (readable none) full_disk)

torn_save : Reaches none content (at Point.start full_disk) (at Point.writing torn_disk)
torn_save =
    steps _ _ _ (opens full_disk)
      (steps _ _ _ (writes_part (some null) (with_tmp (readable none) full_disk)) (stays _))

abbrev events : List Event
events = saved snapshot Point.returned ∷ saved snapshot Point.writing ∷ []

disk_run : DiskRun codec events empty_disk torn_disk
disk_run = disk_saves snapshot Point.returned _ empty_disk full_disk torn_disk refl whole_save (
    disk_saves snapshot Point.writing _ full_disk torn_disk torn_disk refl torn_save
      (disk_ends torn_disk))

disk-StoreRun_example :
    StoreRun events (load_checkpoint codec empty_disk) (load_checkpoint codec torn_disk)
disk-StoreRun_example = disk-StoreRun codec faithful events empty_disk torn_disk disk_run
