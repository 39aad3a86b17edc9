-- ===== src/Deliveries.antt =====
-- backend/src/api/webhooks/drainer.py, agent/drainer.py and notifications/drainer.py: the workers
-- that deliver the webhooks, the callbacks and the notifications of the outbox.
pub mod Released
use kb_partners.Prelude.{
  ℕ, ◌+◌, ◌≡◌, refl, Bool, true, false, String, ◌==◌, Option, none, some, List, [], ◌∷◌, length,
  or_else, if◌then◌else◌, Result, ok, err,
}
use mathlib.Core.Option.{bind}
use mathlib.Core.Path.{subst}
use kb_partners.Errors.{internal}
use kb_partners.Auth.{Uuid}
use kb_partners.Config.{Env}
use kb_partners.Requests.Models.{OutboxMessage}
use kb_partners.Requests.Store.{Db}
use kb_partners.Requests.Lifecycle.Safe.{IsSound}
use kb_partners.Outbox.{mark_done, mark_failed_or_retry, retry_delay}
use kb_partners.Webhooks.{webhook_kind}
use kb_partners.Notifications.{NotifyAudience, user, partner, operator, notification_kind}
use kb_partners.Concierge.{concierge_callback_kind}
use kb_partners.Channels.Drain.{payload_text, set_message, claimed_db}
use kb_partners.Channels.Drain.Sound.{set_message-IsSound}

-- What the receiver makes of a message: an answer, 2xx or not, an ExternalServiceError with its
-- text, or another exception.
pub data Delivered : Type 0 where
  answered : (success : Bool) → Delivered
  unreachable : (error : String) → Delivered
  raised : Delivered

-- The body of the loop: the message after its delivery, unless an exception passes.
unfoldable pub delivered_message :
    Env → (refusal : String) → OutboxMessage → Delivered → Option OutboxMessage
unfolding mark_done mark_failed_or_retry retry_delay
delivered_message env refusal m (answered true) = some (mark_done env.now m)
delivered_message env refusal m (answered false) =
    some
      (mark_failed_or_retry refusal env.now env.outbox_max_attempts (env.now + retry_delay env m) m)
delivered_message env refusal m (unreachable error) =
    some
      (mark_failed_or_retry error env.now env.outbox_max_attempts (env.now + retry_delay env m) m)
delivered_message env refusal m raised = none

-- The loop; an exception ends it.
unfoldable pub deliver_each :
    Env → (refusal : String) → (OutboxMessage → Delivered) → List OutboxMessage → Db → Option Db
unfolding delivered_message set_message
deliver_each env refusal deliver [] db = some db
deliver_each env refusal deliver (m ∷ batch) db =
    elim (delivered_message env refusal m (deliver m)) [
      | none ↦ none
      | some m' ↦ deliver_each env refusal deliver batch (set_message m' db)
    ]

-- The messages of a kind that a worker claims, with the table after the claim.
unfoldable pub claimed_for : Env → (kind : String) → Db → List OutboxMessage × Db
unfolding claimed_db
claimed_for env kind db =
    claimed_db kind env.now env.outbox_batch_size env.outbox_visibility_timeout_seconds db

-- The commit, or without it the database as it was, the claim included.
abbrev pub end_batch : (processed : ℕ) → Option Db → (before : Db) → Result ℕ × Db
end_batch processed none before = (err internal, before)
end_batch processed (some after) before = (ok processed, after)

-- The part that the workers have in common.
unfoldable pub deliver_batch :
    Env → (kind refusal : String) → (OutboxMessage → Delivered) → Db → Result ℕ × Db
unfolding claimed_for deliver_each
deliver_batch env kind refusal deliver db =
    let claim = claimed_for env kind db in
    end_batch (length claim.0) (deliver_each env refusal deliver claim.0 claim.1) db

unfoldable pub drain_webhook_batch : Env → (OutboxMessage → Delivered) → Db → Result ℕ × Db
unfolding deliver_batch
drain_webhook_batch env = deliver_batch env webhook_kind "subscriber returned non-2xx"

unfoldable pub drain_concierge_callback_batch :
    Env → (OutboxMessage → Delivered) → Db → Result ℕ × Db
unfolding deliver_batch
drain_concierge_callback_batch env =
    deliver_batch env concierge_callback_kind "concierge returned non-2xx"

-- `NotificationNotice`
pub record NotificationNotice : Type 0 where
  pub request_id : Uuid
  pub number : String
  pub audience : NotifyAudience
  pub summary : String
  pub requester_id : Option String
  pub partner_id : Option String

-- `str(payload[key])`, where a missing key raises KeyError.
unfoldable pub payload_str : String → List (String × Option String) → Option String
payload_str key [] = none
payload_str key ((k, v) ∷ rest) = if k == key then some (or_else v "None") else payload_str key rest

-- `NotifyAudience(...)`, where another text raises ValueError.
unfoldable pub audience_of : String → Option NotifyAudience
audience_of s =
    if s == "user"
    then some user
    else if s == "partner"
    then some partner
    else if s == "operator"
    then some operator
    else none

abbrev notice_from :
    List (String × Option String)
    → (request_id : Option Uuid) (number : Option String) (audience : Option NotifyAudience)
      (summary : Option String)
    → Option NotificationNotice
notice_from payload (some request_id) (some number) (some audience) (some summary) = some (record {
  request_id = request_id;
  number = number;
  audience = audience;
  summary = summary;
  requester_id = payload_text "requester_id" payload;
  partner_id = payload_text "partner_id" payload;
})
notice_from payload _ _ _ _ = none

-- `_notice`; `uuid.UUID` is an argument.
unfoldable pub notice_of :
    (parse_uuid : String → Option Uuid) → List (String × Option String) → Option NotificationNotice
unfolding payload_str audience_of payload_text
notice_of parse_uuid payload =
    notice_from payload (bind (payload_str "request_id" payload) parse_uuid)
      (payload_str "number" payload) (bind (payload_str "audience" payload) audience_of)
      (payload_str "summary" payload)

-- How many channels took the notification makes no difference.
abbrev attempted : Delivered → Delivered
attempted (answered success) = answered true
attempted other = other

-- `_drain_one`, up to the mark; a payload that is no notice is closed.
unfoldable pub notified :
    (parse_uuid : String → Option Uuid)
    → (send : NotificationNotice → Delivered) → OutboxMessage
    → Delivered
unfolding notice_of
notified parse_uuid send m = elim (notice_of parse_uuid m.payload) [
  | none ↦ answered true
  | some notice ↦ attempted (send notice)
]

-- `send` is the contact's resolution and the fan-out over SMS, e-mail and push.
unfoldable pub drain_notification_batch :
    Env
    → (parse_uuid : String → Option Uuid) → (send : NotificationNotice → Delivered) → Db
    → Result ℕ × Db
unfolding deliver_batch notified
drain_notification_batch env parse_uuid send =
    deliver_batch env notification_kind "" (notified parse_uuid send)

end_batch-IsSound :
    (n : ℕ) (before : Db) (end : Option Db)
    → IsSound before
    → ((after : Db) → end ≡ some after → IsSound after)
    → IsSound (end_batch n end before).1
end_batch-IsSound n before none s t = s
end_batch-IsSound n before (some after) s t = t after refl

deliver_each-IsSound :
    (env : Env) (refusal : String) (deliver : OutboxMessage → Delivered)
    (batch : List OutboxMessage) (db after : Db)
    → IsSound db
    → deliver_each env refusal deliver batch db ≡ some after
    → IsSound after
unfolding deliver_each
deliver_each-IsSound env refusal deliver [] db after s e =
    let same : db ≡ after = cc in subst IsSound same s
deliver_each-IsSound env refusal deliver (m ∷ batch) db after s e =
    by_message (delivered_message env refusal m (deliver m))
      (λ m'.
        deliver_each-IsSound env refusal deliver batch (set_message m' db) after
          (set_message-IsSound m' db s))
      e
  where
    by_message :
        (d : Option OutboxMessage)
        → ((m' : OutboxMessage)
            → deliver_each env refusal deliver batch (set_message m' db) ≡ some after
            → IsSound after)
        → (elim d as (λ _. Option Db) [
          | none ↦ none
          | some m' ↦ deliver_each env refusal deliver batch (set_message m' db)
        ])
          ≡ some after
        → IsSound after
    by_message none next e = absurd (cc)
    by_message (some m') next e = next m' e

pub deliver_batch-IsSound :
    (env : Env) (kind refusal : String) (deliver : OutboxMessage → Delivered) (db : Db)
    → IsSound db
    → IsSound (deliver_batch env kind refusal deliver db).1
unfolding deliver_batch claimed_for claimed_db
deliver_batch-IsSound env kind refusal deliver db s =
    let claim = claimed_for env kind db in
    end_batch-IsSound (length claim.0) db (deliver_each env refusal deliver claim.0 claim.1) s
      (λ after e.
        deliver_each-IsSound env refusal deliver claim.0 claim.1 after
          (record { current = s.current; legal = s.legal }) e)

pub drain_webhook_batch-IsSound :
    (env : Env) (deliver : OutboxMessage → Delivered) (db : Db)
    → IsSound db
    → IsSound (drain_webhook_batch env deliver db).1
unfolding drain_webhook_batch
drain_webhook_batch-IsSound env deliver db s =
    deliver_batch-IsSound env webhook_kind "subscriber returned non-2xx" deliver db s

pub drain_concierge_callback_batch-IsSound :
    (env : Env) (deliver : OutboxMessage → Delivered) (db : Db)
    → IsSound db
    → IsSound (drain_concierge_callback_batch env deliver db).1
unfolding drain_concierge_callback_batch
drain_concierge_callback_batch-IsSound env deliver db s =
    deliver_batch-IsSound env concierge_callback_kind "concierge returned non-2xx" deliver db s

pub drain_notification_batch-IsSound :
    (env : Env) (parse_uuid : String → Option Uuid) (send : NotificationNotice → Delivered)
    (db : Db)
    → IsSound db
    → IsSound (drain_notification_batch env parse_uuid send db).1
unfolding drain_notification_batch
drain_notification_batch-IsSound env parse_uuid send db s =
    deliver_batch-IsSound env notification_kind "" (notified parse_uuid send) db s
