-- ===== src/Registry/Json.antt =====
-- The values of a report or a registry entry: what `json.loads` gives, and Python's `dict.get`,
-- `isinstance`, `float`, `int`, `str` and `str.lower` on them.
-- A number is a whole number of units of 1e-12.
use Prim.Native.Char.{Char, code}
use intelligent_trading_syst.Base.{
  ℕ, ◌≡◌, refl, Bool, true, false, not, Option, none, some, String, ◌==◌, ℤ, pos, div_ℤ, abs, eqb,
  eq_iff, arith, if◌then◌else◌,
}

mutual
  pub data Json : Type 0 where
    null : Json
    flag : Bool → Json
    number : ℤ → Json
    text : String → Json
    array : Items → Json
    object : Fields → Json

  pub data Items : Type 0 where
    no_items : Items
    item : Json → Items → Items

  pub data Fields : Type 0 where
    no_fields : Fields
    field : String → Json → Fields → Fields

-- What Python does with a text: `float(s)`, `int(s)`, and the microseconds of
-- `datetime.fromisoformat(s)`, where each may raise; and `str` of a value that is no text.
pub record Conversions : Type 0 where
  pub float_text : String → Option ℤ
  pub int_text : String → Option ℤ
  pub iso_text : String → Option ℤ
  pub repr : Json → String

-- 1.0
abbrev pub one : ℕ
one = 1000000000000

-- `d.get(k)`, which gives `None` for a missing key and for a key with the value `None`.
unfoldable pub get : String → Fields → Json
get k no_fields = null
get k (field j v d) = let rest = get k d in if j == k then v else rest

-- `k in d`
unfoldable pub has_key : String → Fields → Bool
has_key k no_fields = false
has_key k (field j v d) = let rest = has_key k d in if j == k then true else rest

-- `d[k] = v`
unfoldable pub set : String → Json → Fields → Fields
set k v no_fields = field k v no_fields
set k v (field j w d) = let rest = set k v d in if j == k then field k v d else field j w rest

pub get-set :
    (k j : String) (v : Json) (d : Fields) → get j (set k v d) ≡ (if k == j then v else get j d)
unfolding get set
get-set k j v no_fields = refl
get-set k j v (field i w d) = ground (arith, eq_iff k j, eq_iff i k, eq_iff i j, get-set k j v d)

-- `d.get(k, default)`
unfoldable pub get_or : Json → String → Fields → Json
unfolding get has_key
get_or default k d = if has_key k d then get k d else default

abbrev pub is_null : Json → Bool
is_null null = true
is_null _ = false

-- `isinstance(v, dict)`, with the dict, or the empty one.
abbrev pub fields_of : Json → Fields
fields_of (object d) = d
fields_of _ = no_fields

-- `isinstance(v, dict) and v`
abbrev pub is_full_dict : Json → Bool
is_full_dict (object (field k v d)) = true
is_full_dict _ = false

-- `isinstance(v, list) and v`
abbrev pub is_full_list : Json → Bool
is_full_list (array (item v vs)) = true
is_full_list _ = false

-- The truth value of a JSON value.
abbrev pub is_truthy : Json → Bool
is_truthy null = false
is_truthy (flag b) = b
is_truthy (number n) = not (eqb (abs n) 0)
is_truthy (text s) = not (s == "")
is_truthy (array no_items) = false
is_truthy (array (item v vs)) = true
is_truthy (object no_fields) = false
is_truthy (object (field k v d)) = true

-- `a or b`
abbrev pub or_else : Json → Json → Json
or_else a b = if is_truthy a then a else b

-- `float(v)`; `none` is the exception.
unfoldable pub to_float : Conversions → Json → Option ℤ
to_float c (flag b) = some (if b then pos one else pos 0)
to_float c (number n) = some n
to_float c (text s) = c.float_text s
to_float c _ = none

-- `int(v)`, as a whole number.
unfoldable pub to_int : Conversions → Json → Option ℤ
to_int c (flag b) = some (if b then pos 1 else pos 0)
to_int c (number n) = some (div_ℤ n one)
to_int c (text s) = c.int_text s
to_int c _ = none

-- `str(v)`
unfoldable pub to_text : Conversions → Json → String
to_text c (text s) = s
to_text c v = c.repr v

-- The character of `to` at the place where `from` has `c`, or else `c`.
unfoldable pub translate_char : String → String → Char → Char
translate_char String.[] to c = c
translate_char from String.[] c = c
translate_char (String.◌∷◌ a from) (String.◌∷◌ b to) c =
    let rest = translate_char from to c in if eqb (code a) (code c) then b else rest

unfoldable pub translate : String → String → String → String
unfolding translate_char
translate from to String.[] = String.[]
translate from to (String.◌∷◌ c s) = String.◌∷◌ (translate_char from to c) (translate from to s)

-- `str.lower` on the ASCII letters and the Kelvin sign, the capitals of the ASCII texts that the
-- gates compare with.
unfoldable pub lower : String → String
unfolding translate
lower s = translate "ABCDEFGHIJKLMNOPQRSTUVWXYZK" "abcdefghijklmnopqrstuvwxyzk" s
