-- ===== src/Checkpoint/Store.antt =====
-- The snapshot of a session, the directory of its checkpoint, and `load_checkpoint`
-- (quantflow/execution/state_store.py). A snapshot that is loaded holds whatever values the file
-- has, since the dataclass does not test them.
use intelligent_trading_syst.Base.{
  ◌≡◌, Bool, false, Option, none, some, String, pos, abs, eqb, is_pos, str_append, if◌then◌else◌,
  ◌&&◌,
}
use intelligent_trading_syst.Registry.Json.{
  null, flag, number, text, array, object, no_items, no_fields, field, Json, Fields, one, get,
  get_or,
}
use intelligent_trading_syst.Checkpoint.Sorting.{sort_keys}

-- The `json` module over the bytes of a file: `dumps`, and `loads` with the text of the exception that it raises; and the
-- text of the exception of a file that cannot be read, and of `{version!r}`.
pub record Codec (Content : Type 0) : Type 0 where
  pub empty : Content
  pub dumps : Json → Content
  pub loads : Content → Option Json
  pub loads_error : Content → String
  pub read_error : String
  pub repr : Json → String

-- `dumps` with `sort_keys=True` writes what `loads` reads back, with its keys sorted.
pub record IsFaithful {Content : Type 0} (codec : Codec Content) : Type 0 where
  pub reads : (v : Json) → codec.loads (codec.dumps v) ≡ some (sort_keys v)

pub record SessionSnapshot : Type 0 where
  pub saved_at_ms : Json
  pub mode : Json
  pub cash : Json
  pub positions : Json
  pub open_orders : Json
  pub equity : Json
  pub schema_version : Json

abbrev pub current_schema_version : Json
current_schema_version = number (pos one)

-- `asdict`
unfoldable pub as_dict : SessionSnapshot → Json
as_dict s = object (
    field "saved_at_ms" s.saved_at_ms (
      field "mode" s.mode (
        field "cash" s.cash (
          field "positions" s.positions (
            field "open_orders" s.open_orders
              (field "equity" s.equity (field "schema_version" s.schema_version no_fields)))))))

-- `SessionSnapshot(**known)`, with the default of each field that is missing.
unfoldable pub from_known : Fields → SessionSnapshot
unfolding get_or
from_known d = record {
  saved_at_ms = get_or (number (pos 0)) "saved_at_ms" d;
  mode = get_or (text "") "mode" d;
  cash = get_or (number (pos 0)) "cash" d;
  positions = get_or (array no_items) "positions" d;
  open_orders = get_or (array no_items) "open_orders" d;
  equity = get_or (number (pos 0)) "equity" d;
  schema_version = get_or current_schema_version "schema_version" d;
}

pub data File (Content : Type 0) : Type 0 where
  absent unreadable : File Content
  readable : Content → File Content

-- The checkpoint of the directory and its temporary file.
pub record Disk (Content : Type 0) : Type 0 where
  pub checkpoint : File Content
  pub tmp : File Content

pub record StateStore : Type 0 where
  pub last_error : Option String

-- `version == CURRENT_SCHEMA_VERSION`, where `True` equals 1 too.
abbrev pub is_current : Json → Bool
is_current (number n) = is_pos n && eqb (abs n) one
is_current (flag b) = b
is_current _ = false

-- `type(data).__name__`
abbrev pub type_name : Json → String
type_name null = "NoneType"
type_name (flag b) = "bool"
type_name (number n) = "float"
type_name (text s) = "str"
type_name (array vs) = "list"
type_name (object d) = "dict"

abbrev pub failed : String → StateStore × Option SessionSnapshot
failed error = (record { last_error = some error }, none)

unfoldable pub restore : {C : Type 0} → Codec C → Json → StateStore × Option SessionSnapshot
unfolding from_known
restore codec (object d) =
    if is_current (get "schema_version" d)
    then (record { last_error = none }, some (from_known d))
    else failed (str_append "schema version mismatch: " (codec.repr (get "schema_version" d)))
restore codec v =
    failed (str_append "checkpoint root is " (str_append (type_name v) ", not an object"))

-- The `try` block after the text was read.
unfoldable pub load_content :
    {C : Type 0} → Codec C → C → Option Json → StateStore × Option SessionSnapshot
unfolding restore
load_content codec content none = failed (codec.loads_error content)
load_content codec content (some v) = restore codec v

unfoldable pub load_file : {C : Type 0} → Codec C → File C → StateStore × Option SessionSnapshot
unfolding load_content
load_file codec absent = (record { last_error = none }, none)
load_file codec unreadable = failed codec.read_error
load_file codec (readable content) = load_content codec content (codec.loads content)

unfoldable pub load_checkpoint :
    {C : Type 0} → Codec C → Disk C → StateStore × Option SessionSnapshot
unfolding load_file
load_checkpoint codec disk = load_file codec disk.checkpoint

-- `clear`, where the unlinking removes the file or raises.
unfoldable pub clear_checkpoint : {C : Type 0} → Bool → Disk C → Disk C
clear_checkpoint unlinked disk = if unlinked then record disk { checkpoint = absent } else disk
