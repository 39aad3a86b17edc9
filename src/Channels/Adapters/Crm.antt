-- ===== src/Channels/Adapters/Crm.antt =====
-- backend/src/api/channels/adapters/crm.py: what its three channels share.
use Prim.Native.String.{◌++◌}
use Prim.Native.Char.{code}
use kb_partners.Prelude.{◌&&◌, String, Option, none, some, is_empty, eqb, if◌then◌else◌}
use kb_partners.Json.{Json, get_key, str_json, truthy, is_null}
use kb_partners.Channels.{DeliveryPayload}

unfoldable pub lead_title : DeliveryPayload → String
lead_title p = "Заявка " ++ p.number ++ " [" ++ p.category ++ "]"

unfoldable pub lead_comment : DeliveryPayload → String
lead_comment p = p.summary

-- `s.rstrip("/")`
unfoldable pub strip_slashes : String → String
strip_slashes String.[] = ""
strip_slashes (String.◌∷◌ c s) =
    let rest = strip_slashes s in if eqb (code c) 47 && is_empty rest then "" else String.◌∷◌ c rest

-- `_bitrix_ref`: the answer is an object whose `result` is there.
unfoldable pub bitrix_ref : (repr : Json → String) → Option Json → Option String
unfolding get_key str_json
bitrix_ref repr none = none
bitrix_ref repr (some body) =
    let result = get_key "result" body in
    if is_null result then none else some (str_json repr result)

-- `_rehome_ref`: an `id` that counts as true.
unfoldable pub rehome_ref : (repr : Json → String) → Option Json → Option String
unfolding get_key str_json truthy
rehome_ref repr none = none
rehome_ref repr (some body) =
    let id = get_key "id" body in if truthy id then some (str_json repr id) else none
