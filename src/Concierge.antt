-- ===== src/Concierge.antt =====
-- backend/src/api/agent/callback.py: the status callback to the chat assistant.
use Prim.Native.String.{◌++◌ as append}
use kb_partners.Prelude.{String, ◌==◌, Option, none, some, List, [], ◌∷◌, is_empty, if◌then◌else◌}
use kb_partners.Auth.{Uuid, str_uuid}
use kb_partners.Config.{Env}
use kb_partners.Requests.Enums.{
  RequestStatus, dispatched, failed_dispatch, accepted, in_progress, done, accepted_by_user,
  dispute, paid, cancelled, rejected, value,
}
use kb_partners.Requests.Store.{Tables}
use kb_partners.Outbox.{enqueue}

abbrev pub concierge_callback_kind : String
concierge_callback_kind = "concierge_status"

-- A template of `_STATUS_TEXT` filled with the number.
abbrev around : String → String → String → String
around before number after = append before (append number after)

-- `_STATUS_TEXT.get(status)` with the number put in
unfoldable pub status_text : RequestStatus → String → Option String
status_text RequestStatus.assigned n = some (around "По заявке " n " назначен исполнитель.")
status_text dispatched n = some (around "Заявка " n " передана исполнителю.")
status_text failed_dispatch n =
    some (around "Заявку " n " не удалось передать исполнителю — подключаем оператора.")
status_text accepted n = some (around "Исполнитель принял заявку " n " в работу.")
status_text in_progress n = some (around "По заявке " n " начаты работы.")
status_text done n = some (around "Работы по заявке " n " завершены — подтвердите приёмку.")
status_text accepted_by_user n = some (around "Приёмка по заявке " n " подтверждена.")
status_text dispute n = some (around "По заявке " n " открыт спор.")
status_text paid n = some (around "Оплата по заявке " n " проведена.")
status_text cancelled n = some (around "Заявка " n " отменена.")
status_text rejected n = some (around "Заявка " n " отклонена.")
status_text _ n = none

-- `(source_ref or {}).get(key)`
unfoldable pub get_entry : String → List (String × String) → Option String
get_entry k [] = none
get_entry k ((j, v) ∷ rest) = if j == k then some v else get_entry k rest

unfoldable pub chat_session_of : Option (List (String × String)) → Option String
unfolding get_entry
chat_session_of none = none
chat_session_of (some source_ref) = get_entry "chat_session_id" source_ref

-- The last two gates: a session that is there and not empty, and a status that has a text.
unfoldable pub callback :
    Env
    → (request_id : Uuid) (number : String) → RequestStatus
    → (session_id text : Option String) → Tables
    → Tables
unfolding enqueue value
callback env request_id number status (some session_id) (some text) t =
    if is_empty session_id
    then t
    else enqueue env concierge_callback_kind
        (("session_id", some session_id)
          ∷ ("text", some text)
          ∷ ("ref", some number)
          ∷ ("status", some (value status))
          ∷ ("request_id", some (str_uuid request_id))
          ∷ [])
        t
callback env request_id number status _ _ t = t

unfoldable pub emit_concierge_status_update :
    Env
    → (request_id : Uuid) (number : String) → RequestStatus
    → (source_ref : Option (List (String × String))) → Tables
    → Tables
unfolding callback chat_session_of status_text
emit_concierge_status_update env request_id number status source_ref t =
    if is_empty env.concierge_api_base_url
    then t
    else callback env request_id number status (chat_session_of source_ref)
        (status_text status number) t
