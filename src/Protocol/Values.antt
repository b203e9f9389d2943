-- ===== src/Protocol/Values.antt =====
-- internal/protocol/loginbuffer.go, pool.go: values of any type, as JSON is decoded to, and what the code
-- reads from them. A number is an integer: the code cuts the fraction off wherever it reads one.
use yyb_go.Prelude.{
  ℕ, zero, suc, ◌+◌, ◌-◌, ◌^◌, Bool, true, false, List, [], ◌∷◌, ltb, if◌then◌else◌, Option, none,
  some,
}
use yyb_go.Prelude.Text.{Text, text_eq, ℤ, pos, negsuc}

mutual
  pub data Any : Type 0 where
    null : Any
    boolean : Bool → Any
    number : ℤ → Any
    text : Text → Any
    array : Items → Any
    object : Fields → Any

  pub data Items : Type 0 where
    nil : Items
    cons : Any → Items → Items

  -- A `map[string]any`; the nil map is read as the empty one.
  pub data Fields : Type 0 where
    empty : Fields
    field : Text → Any → Fields → Fields

-- `m[key]`, the nil interface where the key is missing.
unfoldable pub at_key : Fields → Text → Any
at_key empty key = null
at_key (field name value rest) key = if text_eq name key then value else at_key rest key

abbrev pub string_any : Any → Text
string_any (text s) = s
string_any null = []
string_any (boolean b) = []
string_any (number n) = []
string_any (array xs) = []
string_any (object m) = []

abbrev pub int64_from_any : Any → ℤ
int64_from_any (number n) = n
int64_from_any null = pos 0
int64_from_any (boolean b) = pos 0
int64_from_any (text s) = pos 0
int64_from_any (array xs) = pos 0
int64_from_any (object m) = pos 0

-- `v.(map[string]any)`
abbrev pub as_object : Any → Option Fields
as_object (object m) = some m
as_object null = none
as_object (boolean b) = none
as_object (number n) = none
as_object (text s) = none
as_object (array xs) = none

-- `v.([]any)`
abbrev pub as_array : Any → Option Items
as_array (array xs) = some xs
as_array null = none
as_array (boolean b) = none
as_array (number n) = none
as_array (text s) = none
as_array (object m) = none

-- `v.(string)`
abbrev pub as_text : Any → Option Text
as_text (text s) = some s
as_text null = none
as_text (boolean b) = none
as_text (number n) = none
as_text (array xs) = none
as_text (object m) = none

abbrev pub or_empty : Option Fields → Fields
or_empty none = empty
or_empty (some m) = m

unfoldable pub string_from_map : Fields → Text → Text
string_from_map m key = string_any (at_key m key)

unfoldable pub int64_from_map : Fields → Text → ℤ
int64_from_map m key = int64_from_any (at_key m key)

abbrev pub default_string : Text → Text → Text
default_string [] def = def
default_string (c ∷ s) def = c ∷ s

abbrev pub is_zero : ℤ → Bool
is_zero (pos zero) = true
is_zero (pos (suc n)) = false
is_zero (negsuc n) = false

abbrev pub default_int64 : ℤ → ℤ → ℤ
default_int64 v def = if is_zero v then def else v

abbrev pub strings : Items → List Text
strings nil = []
strings (cons (text s) xs) = s ∷ strings xs
strings (cons null xs) = strings xs
strings (cons (boolean b) xs) = strings xs
strings (cons (number n) xs) = strings xs
strings (cons (array ys) xs) = strings xs
strings (cons (object m) xs) = strings xs

-- The rest of stringSlicePath where the path has ended.
abbrev pub slice_of : Option Items → List Text
slice_of none = []
slice_of (some xs) = strings xs

unfoldable pub string_slice_path : Any → List Text → List Text
string_slice_path cur [] = slice_of (as_array cur)
string_slice_path cur (p ∷ path) = elim (as_object cur) [
  | none ↦ []
  | some m ↦ string_slice_path (at_key m p) path
]

-- `now + n` on int64s, where now is a time in seconds; a sum from 2 ^ 63 on wraps around.
unfoldable pub seconds_after : ℕ → ℤ → ℤ
seconds_after now (pos n) =
    if ltb (now + n) (2 ^ 63) then pos (now + n) else negsuc (2 ^ 64 - (now + n) - 1)
seconds_after now (negsuc n) = if ltb n now then pos (now - (n + 1)) else negsuc (n - now)
