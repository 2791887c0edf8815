-- ===== src/Checkpoint/Sorting.antt =====
-- `sort_keys=True` of `json.dumps`, as it orders the keys of a value and of all that it holds.
use Prim.Native.Char.{code}
use intelligent_trading_syst.Base.{
  ◌≡◌, refl, Bool, true, false, ◌&&◌, ◌||◌, String, ◌==◌, ltb, eqb, eq_iff, arith, if◌then◌else◌,
}
use intelligent_trading_syst.Registry.Json.{
  null, flag, number, text, array, object, no_items, item, no_fields, field, Json, Items, Fields,
  get,
}

-- `s < t` by code points.
unfoldable pub before : String → String → Bool
before s String.[] = false
before String.[] (String.◌∷◌ d t) = true
before (String.◌∷◌ c s) (String.◌∷◌ d t) =
    ltb (code c) (code d) || eqb (code c) (code d) && before s t

unfoldable pub place : String → Json → Fields → Fields
place k v no_fields = field k v no_fields
place k v (field j w d) =
    let rest = place k v d in
    if k == j then field k v d else if before k j then field k v (field j w d) else field j w rest

unfoldable mutual
  pub sort_keys : Json → Json
  sort_keys null = null
  sort_keys (flag b) = flag b
  sort_keys (number n) = number n
  sort_keys (text s) = text s
  sort_keys (array vs) = array (sort_items vs)
  sort_keys (object d) = object (sort_fields d)

  pub sort_items : Items → Items
  sort_items no_items = no_items
  sort_items (item v vs) = item (sort_keys v) (sort_items vs)

  pub sort_fields : Fields → Fields
  sort_fields no_fields = no_fields
  sort_fields (field k v d) = place k (sort_keys v) (sort_fields d)

get-place :
    (i k : String) (v : Json) (d : Fields) → get i (place k v d) ≡ (if k == i then v else get i d)
unfolding get place
get-place i k v no_fields = refl
get-place i k v (field j w d) =
    ground (arith, eq_iff k i, eq_iff k j, eq_iff j i, get-place i k v d)

pub get-sort_fields : (i : String) (d : Fields) → get i (sort_fields d) ≡ sort_keys (get i d)
unfolding get sort_fields
get-sort_fields i no_fields = refl
get-sort_fields i (field k v d) =
    ground (arith, get-place i k (sort_keys v) (sort_fields d), get-sort_fields i d)
