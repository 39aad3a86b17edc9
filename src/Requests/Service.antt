-- ===== src/Requests/Service.antt =====
-- `RequestService` of backend/src/api/requests/service.py: the card, transitions, cancellation,
-- rescheduling and messages. A handler is an operation on the row that `get_visible` loads.
pub mod Sound
pub mod Outcomes
pub mod Cancellation
use kb_partners.Prelude.{
  ℕ, suc, Bool, true, false, not, ◌&&◌, ◌||◌, String, ◌==◌, Option, none, some, List, [], ◌∷◌, leb,
  ltb, eqb, text_le, is_some, select, sort_by, if◌then◌else◌, Result, ok, err, Effect, pure,
  require, get, ◌>>=◌, ◌>>◌,
}
use kb_partners.Errors.{forbidden, unprocessable, conflict, not_found}
use kb_partners.Auth.{Principal, PrincipalKind, Uuid, str_uuid}
use kb_partners.Config.{Env}
use kb_partners.Webhooks.{emit_event}
use kb_partners.Requests.Enums.{
  RequestStatus, dispatched, accepted, in_progress, cancelled, is, is_in, AuthorType, HistoryAction,
  rescheduled, message_added, system, ai,
}
use kb_partners.Requests.Models.{ServiceRequest, RequestMessage, RequestEstimate}
use kb_partners.Requests.Store.{
  Db, Work, Tables, handle, set_request, set_tables, journal, add_message,
}
use kb_partners.Requests.Access.{
  get_visible, can_drive_lifecycle, can_cancel, can_reschedule, can_view_internal,
}
use kb_partners.Requests.Lifecycle.{apply_transition}
use kb_partners.Requests.Detail.{RequestDetail, build_detail}

abbrev pub reschedulable_statuses : List RequestStatus
reschedulable_statuses = RequestStatus.assigned ∷ dispatched ∷ accepted ∷ in_progress ∷ []

abbrev pub reschedule_notify_statuses : List RequestStatus
reschedule_notify_statuses = dispatched ∷ accepted ∷ in_progress ∷ []

-- `_AUTHOR_BY_KIND`
unfoldable pub author_by_kind : PrincipalKind → AuthorType
author_by_kind PrincipalKind.requester = AuthorType.requester
author_by_kind PrincipalKind.operator = AuthorType.operator
author_by_kind PrincipalKind.partner = AuthorType.partner
author_by_kind PrincipalKind.agent = ai
author_by_kind PrincipalKind.service = system

-- `RequestRepository.estimates_for`: newest first.
unfoldable pub estimates_for : Uuid → Tables → List RequestEstimate
estimates_for id t =
    sort_by (λ a b. leb b.created_at a.created_at) (select (λ e. e.request_id == id) t.estimates)

-- `detail = build_detail(principal, request)`, before the commit.
unfoldable pub detail_now : Env → Principal → Effect Work RequestDetail
detail_now env p = do w ← get; pure (build_detail env p w.request [])

unfoldable pub get_detail : Env → Principal → Uuid → Db → Result RequestDetail
get_detail env p request_id db = elim (get_visible p request_id db) [
  | none ↦ err not_found
  | some r ↦ ok (build_detail env p r (estimates_for request_id db.tables))
]

unfoldable pub transition_body : Env → Principal → RequestStatus → Effect Work RequestDetail
transition_body env p target = do
  require (can_drive_lifecycle p) forbidden
  apply_transition env p target
  detail_now env p

unfoldable pub transition : Env → Principal → Uuid → RequestStatus → Db → Result RequestDetail × Db
unfolding transition_body
transition env p request_id target db =
    handle (get_visible p request_id db) (transition_body env p target) db

-- `{**fields, key: value}`
unfoldable pub put_field : String → String → List (String × String) → List (String × String)
put_field k v [] = (k, v) ∷ []
put_field k v ((j, w) ∷ rest) = if j == k then (k, v) ∷ rest else (j, w) ∷ put_field k v rest

-- `custom_fields["cancellation"] = {"reason": reason}`: the entry holds the reason.
unfoldable pub note_field : String → String → ServiceRequest → ServiceRequest
unfolding put_field
note_field key reason r = record r { custom_fields = put_field key reason r.custom_fields }

unfoldable pub do_cancel : Env → Principal → (reason : String) → Effect Work Unit
do_cancel env p reason = do
  apply_transition env p cancelled
  set_request (note_field "cancellation" reason)

unfoldable pub cancel_body : Env → Principal → (reason : String) → Effect Work RequestDetail
unfolding do_cancel
cancel_body env p reason = do
  require (can_cancel p) forbidden
  w ← get
  if is w.request.status cancelled then pure tt else do_cancel env p reason
  detail_now env p

unfoldable pub cancel : Env → Principal → Uuid → (reason : String) → Db → Result RequestDetail × Db
unfolding cancel_body
cancel env p request_id reason db =
    handle (get_visible p request_id db) (cancel_body env p reason) db

-- A datetime of the body: without a zone it is taken for UTC.
pub data Moment : Type 0 where
  aware naive : ℕ → Moment

abbrev pub as_utc : Moment → ℕ
as_utc (aware t) = t
as_utc (naive t) = t

-- `request.scheduled_at == scheduled_at`
abbrev pub same_moment : Option ℕ → ℕ → Bool
same_moment none t = false
same_moment (some s) t = eqb s t

abbrev pub iso_of : Env → Option ℕ → Option String
iso_of env none = none
iso_of env (some t) = some (env.isoformat t)

-- The new date, its journal row, and the event for a partner that knows of the request.
unfoldable pub do_reschedule : Env → Principal → ℕ → Effect Work Unit
do_reschedule env p scheduled_at = do
  w ← get
  set_request (λ r. record r { scheduled_at = some scheduled_at })
  journal env p rescheduled (λ r. iso_of env w.request.scheduled_at)
      (λ r. some (env.isoformat scheduled_at))
  set_tables (λ r t.
      if is_in r.status reschedule_notify_statuses
      then emit_event env "request.rescheduled" r.id r.number r.status
          (some (env.isoformat scheduled_at)) t
      else t)

unfoldable pub reschedule_body : Env → Principal → Moment → Effect Work RequestDetail
unfolding do_reschedule
reschedule_body env p moment = do
  require (can_reschedule p) forbidden
  require (not (leb (as_utc moment) env.now)) unprocessable
  w ← get
  require (is_in w.request.status reschedulable_statuses) conflict
  if same_moment w.request.scheduled_at (as_utc moment)
      then pure tt
      else do_reschedule env p (as_utc moment)
  detail_now env p

unfoldable pub reschedule : Env → Principal → Uuid → Moment → Db → Result RequestDetail × Db
unfolding reschedule_body
reschedule env p request_id moment db =
    handle (get_visible p request_id db) (reschedule_body env p moment) db

pub record MessageCreate : Type 0 where
  pub text : String
  pub is_internal : Bool
  pub attachments : List (List (String × String))

-- The row of the message; its identifier is drawn by `flush`.
unfoldable pub new_message :
    Env → Principal → MessageCreate → ServiceRequest → Tables → RequestMessage
new_message env p body r t = record {
  id = env.uuid4 t.drawn;
  request_id = r.id;
  author_type = author_by_kind p.kind;
  author_id = some (str_uuid p.user_id);
  is_internal = body.is_internal;
  text = body.text;
  attachments = body.attachments;
  created_at = env.now;
}

unfoldable pub draw : Tables → Tables
draw t = record t { drawn = suc t.drawn }

unfoldable pub add_message_body : Env → Principal → MessageCreate → Effect Work RequestMessage
unfolding new_message draw
add_message_body env p body = do
  require (not (body.is_internal && not (can_view_internal p))) forbidden
  w ← get
  let message = new_message env p body w.request w.tables
  set_tables (λ r t. draw (add_message message t))
  journal env p message_added (λ r. none) (λ r. some (str_uuid message.id))
  pure message

-- `add_message`; the attachments of the answer are resolved elsewhere.
unfoldable pub post_message :
    Env → Principal → Uuid → MessageCreate → Db → Result RequestMessage × Db
unfolding add_message_body
post_message env p request_id body db =
    handle (get_visible p request_id db) (add_message_body env p body) db

-- `RequestRepository.list_messages`: in the order of their time, ties by identifier.
unfoldable pub visible_messages : Uuid → (include_internal : Bool) → Tables → List RequestMessage
visible_messages id include_internal t =
    sort_by message_le
      (select (λ m. m.request_id == id && (include_internal || not m.is_internal)) t.messages)
  where
    message_le : RequestMessage → RequestMessage → Bool
    message_le a b =
        ltb a.created_at b.created_at || (eqb a.created_at b.created_at && text_le a.id b.id)

unfoldable pub list_messages : Principal → Uuid → Db → Result (List RequestMessage)
unfolding visible_messages
list_messages p request_id db = elim (get_visible p request_id db) [
  | none ↦ err not_found
  | some r ↦ ok (visible_messages r.id (can_view_internal p) db.tables)
]
