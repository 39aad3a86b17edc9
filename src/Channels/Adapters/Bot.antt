-- ===== src/Channels/Adapters/Bot.antt =====
-- backend/src/api/channels/adapters/bot.py: a message of a bot, in Telegram or MAX.
use Prim.Native.String.{◌++◌}
use kb_partners.Prelude.{
  ◌||◌, not, String, Option, none, some, List, [], ◌∷◌, is_empty, if◌then◌else◌,
}
use kb_partners.Json.{
  Json, text, object, end, field, get_field, get_key, truthy, is_null, str_json, str_field,
}
use kb_partners.Channels.{
  ChannelConfig, DeliveryPayload, Delivery, answered, Health, unhealthy, HttpRequest, Wire,
}
use kb_partners.Channels.Adapters.{refused, delivery_of, health_of}

-- `"\n".join(line for line in lines if line)`
unfoldable pub join_lines : List String → String
join_lines [] = ""
join_lines (line ∷ rest) =
    let tail = join_lines rest in
    if is_empty line then tail else if is_empty tail then line else line ++ "\n" ++ tail

unfoldable pub format_message : DeliveryPayload → String
unfolding join_lines
format_message p =
    join_lines (("Новая заявка " ++ p.number) ∷ ("Категория: " ++ p.category) ∷ p.summary ∷ [])

-- `_message_ref`: `result.message_id` of the answer, unless it is null.
unfoldable pub message_ref : (repr : Json → String) → Option Json → Option String
unfolding get_key str_json
message_ref repr none = none
message_ref repr (some body) =
    let ref = get_key "message_id" (get_key "result" body) in
    if is_null ref then none else some (str_json repr ref)

abbrev pub token_of : Wire → ChannelConfig → String
unfolding str_field
token_of wire c = str_field wire.repr "bot_token" "" c.config

unfoldable pub send_message : (token : String) → (chat_id : Json) → DeliveryPayload → HttpRequest
unfolding format_message
send_message token chat_id p = record {
  verb = "POST";
  path = "/bot" ++ token ++ "/sendMessage";
  headers = [];
  body = some (object (field "chat_id" chat_id (field "text" (text (format_message p)) end)));
}

unfoldable pub deliver : Wire → DeliveryPayload → ChannelConfig → Delivery
unfolding send_message message_ref get_field truthy refused delivery_of
deliver wire p c =
    let token = token_of wire c in
    let chat_id = get_field "chat_id" c.config in
    if is_empty token || not (truthy chat_id)
    then answered (refused "missing_bot_config")
    else delivery_of (message_ref wire.repr) (wire.request (send_message token chat_id p))

unfoldable pub healthcheck : Wire → ChannelConfig → Option Health
unfolding health_of
healthcheck wire c =
    let token = token_of wire c in
    if is_empty token
    then some (record { status = unhealthy; detail = some "missing bot_token" })
    else health_of (
        wire.request
          (record { verb = "GET"; path = "/bot" ++ token ++ "/getMe"; headers = []; body = none }))
