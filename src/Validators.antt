-- ===== src/Validators.antt =====
-- Input validation (quantflow/common/validators.py): the symbol pattern and the quantity check.
-- `ValueError` is `none`.
use Prim.Native.Char.{Char, code}
use intelligent_trading_syst.Base.{
  ℕ, zero, suc, Bool, true, false, ◌&&◌, ◌||◌, Option, none, some, String, ℤ, is_pos, eqb, leb,
  str_append, if◌then◌else◌,
}

-- [A-Za-z0-9/_-]
unfoldable pub is_symbol_char : Char → Bool
is_symbol_char c =
    leb b'A' (code c) && leb (code c) b'Z'
    || leb b'a' (code c) && leb (code c) b'z'
    || leb b'0' (code c) && leb (code c) b'9'
    || eqb (code c) b'/'
    || eqb (code c) b'_'
    || eqb (code c) b'-'

-- What `$` accepts: the end of the text, or a final newline.
at_end : String → Bool
at_end String.[] = true
at_end (String.◌∷◌ c String.[]) = eqb (code c) 10
at_end _ = false

-- At most `n` more characters of the class, and then the end.
matches_up_to : ℕ → String → Bool
matches_up_to zero s = at_end s
matches_up_to (suc n) String.[] = true
matches_up_to (suc n) (String.◌∷◌ c s) =
    let rest = matches_up_to n s in if is_symbol_char c then rest else at_end (String.◌∷◌ c s)

-- SYMBOL_PATTERN, "^[A-Za-z0-9/_-]{1,20}$"
unfoldable pub is_valid_symbol : String → Bool
unfolding is_symbol_char at_end matches_up_to
is_valid_symbol String.[] = false
is_valid_symbol (String.◌∷◌ c s) = is_symbol_char c && matches_up_to 19 s

replace_slash : String → String
replace_slash String.[] = ""
replace_slash (String.◌∷◌ c s) =
    let rest = replace_slash s in
    if eqb (code c) b'/' then str_append "_" rest else String.◌∷◌ c rest

unfoldable pub validate_symbol : String → Option String
unfolding is_valid_symbol replace_slash
validate_symbol symbol = if is_valid_symbol symbol then some (replace_slash symbol) else none

-- Whole numbers are finite, so what is left of the check is the sign.
unfoldable pub validate_quantity : ℤ → Option ℤ
validate_quantity quantity = if is_pos quantity then some quantity else none
