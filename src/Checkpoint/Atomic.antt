-- ===== src/Checkpoint/Atomic.antt =====
-- A save is atomic for whoever loads: the abstract store, and that the directory implements it.
use mathlib.Core.Path.{subst}
use intelligent_trading_syst.Base.{
  ◌≡◌, refl, sym, ap, ◌∙◌, Bool, true, false, Option, none, some, List, [], ◌∷◌, ◌⊎◌, inl, inr,
  if◌then◌else◌,
}
use intelligent_trading_syst.Registry.Json.{Json, get, get_or, has_key}
use intelligent_trading_syst.Checkpoint.Sorting.{before, place, sort_keys}
use intelligent_trading_syst.Checkpoint.Store.{
  readable, File, Disk, Codec, IsFaithful, SessionSnapshot, current_schema_version, as_dict,
  from_known, StateStore, restore, load_content, load_file, load_checkpoint, clear_checkpoint,
}
use intelligent_trading_syst.Checkpoint.Saving.{
  Point, Saving, at, SaveStep, Reaches, stays, steps, mkdir_raises, opens, open_raises, writes_part,
  write_raises, writes_all, replaces, replace_raises, unlinks, unlink_fails, returns,
}

-- What a caller of `load_checkpoint` sees.
abbrev pub View : Type 0
View = StateStore × Option SessionSnapshot

abbrev pub fresh : View
fresh = (record { last_error = none }, none)

-- The snapshot with the keys of its values sorted, as JSON gives it back.
abbrev pub sorted : SessionSnapshot → SessionSnapshot
sorted s = record {
  saved_at_ms = sort_keys s.saved_at_ms;
  mode = sort_keys s.mode;
  cash = sort_keys s.cash;
  positions = sort_keys s.positions;
  open_orders = sort_keys s.open_orders;
  equity = sort_keys s.equity;
  schema_version = sort_keys s.schema_version;
}

abbrev pub holding : SessionSnapshot → View
holding s = (record { last_error = none }, some (sorted s))

-- The abstract save: it happens if it returns, it does not if it raises, and a process that dies
-- in it leaves one or the other.
abbrev pub SavedTo : Point → SessionSnapshot → View → View → Type 0
SavedTo Point.returned s v w = w ≡ holding s
SavedTo Point.raised s v w = w ≡ v
SavedTo _ s v w = (w ≡ v) ⊎ (w ≡ holding s)

-- A save that reached a point, or a call of `clear` with whether the file could be unlinked.
pub data Event : Type 0 where
  saved : SessionSnapshot → Point → Event
  cleared : Bool → Event

-- The abstract store, one event after the other.
pub data StoreRun : List Event → View → View → Type 0 where
  ends : (v : View) → StoreRun [] v v
  saves :
      (s : SessionSnapshot) (p : Point) (es : List Event) (u v w : View)
      → SavedTo p s u v
      → StoreRun es v w
      → StoreRun (saved s p ∷ es) u w
  clears :
      (unlinked : Bool) (es : List Event) (u w : View)
      → StoreRun es (if unlinked then fresh else u) w
      → StoreRun (cleared unlinked ∷ es) u w

-- The directory, one event after the other: each save is of the current version.
pub data DiskRun {C : Type 0} (codec : Codec C) : List Event → Disk C → Disk C → Type 0 where
  disk_ends : (d : Disk C) → DiskRun codec [] d d
  disk_saves :
      (s : SessionSnapshot) (p : Point) (es : List Event) (c d e : Disk C)
      → s.schema_version ≡ current_schema_version
      → Reaches codec.empty (codec.dumps (as_dict s)) (at Point.start c) (at p d)
      → DiskRun codec es d e
      → DiskRun codec (saved s p ∷ es) c e
  disk_clears :
      (unlinked : Bool) (es : List Event) (c e : Disk C)
      → DiskRun codec es (clear_checkpoint unlinked c) e
      → DiskRun codec (cleared unlinked ∷ es) c e

-- The checkpoint at each point of a save.
abbrev Kept : {C : Type 0} → File C → C → Saving C → Type 0
Kept old content s = elim s.point [
  | Point.replaced ↦ s.disk.checkpoint ≡ readable content
  | Point.returned ↦ s.disk.checkpoint ≡ readable content
  | _ ↦ s.disk.checkpoint ≡ old
]

step-Kept :
    {C : Type 0} (old : File C) (empty content : C) (s t : Saving C)
    → SaveStep empty content s t
    → Kept old content s
    → Kept old content t
step-Kept old empty content s t (mkdir_raises d) h = h
step-Kept old empty content s t (opens d) h = h
step-Kept old empty content s t (open_raises d) h = h
step-Kept old empty content s t (writes_part part d) h = h
step-Kept old empty content s t (write_raises d) h = h
step-Kept old empty content s t (writes_all d) h = h
step-Kept old empty content s t (replaces d) h = refl
step-Kept old empty content s t (replace_raises d) h = h
step-Kept old empty content s t (unlinks d) h = h
step-Kept old empty content s t (unlink_fails d) h = h
step-Kept old empty content s t (returns d) h = h

Reaches-Kept :
    {C : Type 0} (old : File C) (empty content : C) (s t : Saving C)
    → Reaches empty content s t
    → Kept old content s
    → Kept old content t
Reaches-Kept old empty content s t (stays _) h = h
Reaches-Kept old empty content s u (steps _ t _ step rest) h =
    Reaches-Kept old empty content t u rest (step-Kept old empty content s t step h)

restore-sorted :
    {C : Type 0} (codec : Codec C) (s : SessionSnapshot)
    → restore codec (sort_keys (as_dict (record s { schema_version = current_schema_version })))
      ≡ holding (record s { schema_version = current_schema_version })
unfolding restore from_known as_dict sort_keys place before get get_or has_key
restore-sorted codec s = refl

load-dumps :
    {C : Type 0} (codec : Codec C)
    → IsFaithful codec
    → (s : SessionSnapshot) → s.schema_version ≡ current_schema_version
    → load_file codec (readable (codec.dumps (as_dict s))) ≡ holding s
unfolding load_file load_content
load-dumps codec faithful s v =
    ap (load_content codec (codec.dumps (as_dict s))) (faithful.reads (as_dict s))
    ∙ subst
        (λ (version : Json).
          restore codec (sort_keys (as_dict (record s { schema_version = version })))
          ≡ holding (record s { schema_version = version }))
        (sym v) (restore-sorted codec s)

module _ {C : Type 0} (codec : Codec C) (faithful : IsFaithful codec) where
  Kept-SavedTo :
      (s : SessionSnapshot) (p : Point) (c d : Disk C)
      → s.schema_version ≡ current_schema_version
      → Kept c.checkpoint (codec.dumps (as_dict s)) (at p d)
      → SavedTo p s (load_checkpoint codec c) (load_checkpoint codec d)
  unfolding load_checkpoint
  Kept-SavedTo s Point.start c d v h = inl (ap (load_file codec) h)
  Kept-SavedTo s Point.writing c d v h = inl (ap (load_file codec) h)
  Kept-SavedTo s Point.written c d v h = inl (ap (load_file codec) h)
  Kept-SavedTo s Point.failing c d v h = inl (ap (load_file codec) h)
  Kept-SavedTo s Point.raised c d v h = ap (load_file codec) h
  Kept-SavedTo s Point.replaced c d v h =
      inr (ap (load_file codec) h ∙ load-dumps codec faithful s v)
  Kept-SavedTo s Point.returned c d v h = ap (load_file codec) h ∙ load-dumps codec faithful s v

  clear-load :
      (unlinked : Bool) (d : Disk C)
      → load_checkpoint codec (clear_checkpoint unlinked d)
        ≡ (if unlinked then fresh else load_checkpoint codec d)
  unfolding load_checkpoint load_file clear_checkpoint
  clear-load true d = refl
  clear-load false d = refl

  -- The directory implements the abstract store: whatever saves return, raise or die in, and
  -- whatever is cleared, what `load_checkpoint` gives before and after is a run of the abstract
  -- store over the same events. The saved snapshots are of the current schema version, and the
  -- JSON codec reads back what it writes, with sorted keys.
  pub disk-StoreRun :
      (es : List Event) (c d : Disk C)
      → DiskRun codec es c d
      → StoreRun es (load_checkpoint codec c) (load_checkpoint codec d)
  disk-StoreRun es c d (disk_ends _) = ends _
  disk-StoreRun es c e (disk_saves s p rest _ d _ v r later) =
      saves s p rest _ (load_checkpoint codec d) _
        (Kept-SavedTo s p c d v
          (Reaches-Kept c.checkpoint codec.empty (codec.dumps (as_dict s)) _ _ r refl))
        (disk-StoreRun rest d e later)
  disk-StoreRun es c e (disk_clears unlinked rest _ _ later) = clears unlinked rest _ _ (
      subst (λ (u : View). StoreRun rest u (load_checkpoint codec e)) (clear-load unlinked c)
        (disk-StoreRun rest (clear_checkpoint unlinked c) e later))
