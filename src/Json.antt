-- ===== src/Json.antt =====
-- The JSON values that the program reads from configurations, messages and answers, with what
-- Python does to them: `dict.get`, truth and `str`. Floats do not occur.
use Prim.Native.String.{◌++◌}
use kb_partners.Prelude.{
  ℤ, pos, negsuc, ◌+◌, Bool, true, false, not, String, ◌==◌, List, [], ◌∷◌, is_empty, eqb, str_int,
  if◌then◌else◌,
}

mutual
  pub data Json : Type 0 where
    null : Json
    boolean : Bool → Json
    number : ℤ → Json
    text : String → Json
    array : Items → Json
    object : Fields → Json

  pub data Items : Type 0 where
    nil : Items
    cons : Json → Items → Items

  pub data Fields : Type 0 where
    end : Fields
    field : String → Json → Fields → Fields

-- `d.get(key)`: null when the key is missing.
unfoldable pub get_field : String → Fields → Json
get_field key end = null
get_field key (field k v rest) = if k == key then v else get_field key rest

-- `data.get(key)` of a value that may be no object.
unfoldable pub get_key : String → Json → Json
unfolding get_field
get_key key (object fields) = get_field key fields
get_key key _ = null

-- `bool(v)`
unfoldable pub truthy : Json → Bool
truthy null = false
truthy (boolean b) = b
truthy (number (pos n)) = not (eqb n 0)
truthy (number (negsuc n)) = true
truthy (text s) = not (is_empty s)
truthy (array nil) = false
truthy (array (cons v rest)) = true
truthy (object end) = false
truthy (object (field k v rest)) = true

abbrev pub is_null : Json → Bool
is_null null = true
is_null _ = false

-- `a or b`
unfoldable pub or_value : Json → Json → Json
unfolding truthy
or_value a b = if truthy a then a else b

-- `str(v)`; Python's rendering of an array or an object is `repr`.
unfoldable pub str_json : (repr : Json → String) → Json → String
str_json repr null = "None"
str_json repr (boolean true) = "True"
str_json repr (boolean false) = "False"
str_json repr (number (pos n)) = str_int n
str_json repr (number (negsuc n)) = "-" ++ str_int (n + 1)
str_json repr (text s) = s
str_json repr v = repr v

-- `str(d.get(key, default))`: a null that is there prints as None.
unfoldable pub str_field : (repr : Json → String) → String → String → Fields → String
unfolding str_json
str_field repr key default end = default
str_field repr key default (field k v rest) =
    if k == key then str_json repr v else str_field repr key default rest

-- An object of texts.
unfoldable pub text_fields : List (String × String) → Fields
text_fields [] = end
text_fields ((k, v) ∷ rest) = field k (text v) (text_fields rest)
