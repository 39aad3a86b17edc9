-- ===== src/Notifications.antt =====
-- backend/src/api/notifications: who is told of a status (events.py), and the notifications that go
-- into the outbox (emitter.py).
use kb_partners.Prelude.{
  Bool, true, false, ◌&&◌, String, Option, none, some, List, [], ◌∷◌, is_empty, if◌then◌else◌,
}
use kb_partners.Auth.{Uuid, str_uuid}
use kb_partners.Config.{Env}
use kb_partners.Requests.Enums.{
  RequestStatus, new, needs_review, dispatched, failed_dispatch, accepted, in_progress, done,
  cancelled, value,
}
use kb_partners.Requests.Store.{Tables}
use kb_partners.Outbox.{enqueue}

pub data NotifyAudience : Type 0 where
  user partner operator : NotifyAudience

-- `NotifyAudience.value`
unfoldable pub audience_value : NotifyAudience → String
audience_value user = "user"
audience_value partner = "partner"
audience_value operator = "operator"

pub record Notification : Type 0 where
  pub audience : NotifyAudience
  pub summary : String

-- `_USER.get(status)`
unfoldable pub user_summary : RequestStatus → Option String
user_summary new = some "Заявка принята в работу"
user_summary RequestStatus.assigned = some "Партнёр назначен"
user_summary accepted = some "Партнёр принял заявку"
user_summary in_progress = some "Исполнитель приступил к работе"
user_summary done = some "Работа выполнена — подтвердите приёмку"
user_summary cancelled = some "Заявка отменена"
user_summary _ = none

-- `_PARTNER.get(status)`
unfoldable pub partner_summary : RequestStatus → Option String
partner_summary dispatched = some "Новая заявка вам назначена"
partner_summary cancelled = some "Заявка отменена"
partner_summary _ = none

-- `_OPERATOR.get(status)`
unfoldable pub operator_summary : RequestStatus → Option String
operator_summary needs_review = some "Заявка требует ревью оператора"
operator_summary failed_dispatch = some "Не удалось назначить партнёра — нужен оператор"
operator_summary _ = none

abbrev tell : NotifyAudience → Option String → List Notification → List Notification
tell audience none rest = rest
tell audience (some summary) rest = record { audience = audience; summary = summary } ∷ rest

unfoldable pub notifications_for : RequestStatus → List Notification
unfolding user_summary partner_summary operator_summary
notifications_for status =
    tell user (user_summary status)
      (tell partner (partner_summary status) (tell operator (operator_summary status) []))

abbrev pub notification_kind : String
notification_kind = "notification"

-- `not partner_id`
abbrev pub no_text : Option String → Bool
no_text none = true
no_text (some s) = is_empty s

abbrev pub is_partner_audience : NotifyAudience → Bool
is_partner_audience partner = true
is_partner_audience _ = false

-- The loop of `emit_notifications`.
unfoldable pub emit_each :
    Env
    → (request_id : Uuid) (number : String) → RequestStatus
    → (requester_id : String) → (partner_id : Option String) → List Notification
    → Tables
    → Tables
unfolding enqueue value audience_value
emit_each env request_id number status requester_id partner_id [] t = t
emit_each env request_id number status requester_id partner_id (n ∷ rest) t =
    emit_each env request_id number status requester_id partner_id rest (
      if is_partner_audience n.audience && no_text partner_id
      then t
      else enqueue env notification_kind
          (("audience", some (audience_value n.audience))
            ∷ ("request_id", some (str_uuid request_id))
            ∷ ("number", some number)
            ∷ ("status", some (value status))
            ∷ ("summary", some n.summary)
            ∷ ("requester_id", some requester_id)
            ∷ ("partner_id", partner_id)
            ∷ [])
          t)

unfoldable pub emit_notifications :
    Env
    → (request_id : Uuid) (number : String) → RequestStatus
    → (requester_id : String) → (partner_id : Option String) → Tables
    → Tables
unfolding emit_each notifications_for
emit_notifications env request_id number status requester_id partner_id t =
    if env.notifications_enabled
    then emit_each env request_id number status requester_id partner_id (notifications_for status) t
    else t

unfoldable pub emit_operator_escalation :
    Env
    → (request_id : Uuid) (number : String) → RequestStatus
    → (summary : String) → Tables
    → Tables
unfolding enqueue value audience_value
emit_operator_escalation env request_id number status summary t =
    if env.notifications_enabled
    then enqueue env notification_kind
        (("audience", some (audience_value operator))
          ∷ ("request_id", some (str_uuid request_id))
          ∷ ("number", some number)
          ∷ ("status", some (value status))
          ∷ ("summary", some summary)
          ∷ [])
        t
    else t
