-- ===== src/Requests/Intake.antt =====
-- `IntakeService` of backend/src/api/requests/service.py: a new request from the form, the chat or a
-- ticket, with an idempotency key. The masking of the text (pii_mask.py) is an argument, and so is
-- `racing`, what other sessions committed between the first look-up and the flush.
pub mod Laws
pub mod Drafts
use Prim.Native.String.{◌++◌}
use kb_partners.Prelude.{
  ℕ, suc, Bool, true, false, String, ◌==◌, Option, none, some, List, [], ◌∷◌, holds_text,
  find_first, padded8, is_empty, if◌then◌else◌, Result, ok, err,
}
use kb_partners.Errors.{bad_request}
use kb_partners.Auth.{
  Principal, PrincipalKind, requester, service, kind_is, Uuid, str_uuid, actor_of,
}
use kb_partners.Config.{Env}
use kb_partners.Requests.Enums.{
  ChannelIn, api, web_form, ai_chat, support_ticket, new, logged, created, value,
}
use kb_partners.Requests.Models.{ServiceRequest, RequestHistory}
use kb_partners.Requests.Store.{Db, Tables, add_history, add_request}
use kb_partners.Outbox.{enqueue}
use kb_partners.Webhooks.{emit_event}
use kb_partners.Notifications.{emit_notifications}

-- The keyword arguments of `_intake`.
pub record Draft : Type 0 where
  pub requester_id : String
  pub raw_input : String
  pub channel_in : ChannelIn
  pub source_ref : Option (List (String × String))
  pub booking_id : Option String
  pub premises_id : Option String
  pub idempotency_key : Option String

-- `get_by_idempotency_key`
unfoldable pub by_key : String → Db → Option ServiceRequest
by_key key db = find_first (λ r. holds_text r.idempotency_key key) db.requests

-- `next_number`, on the value that the sequence gives next.
unfoldable pub number_of : ℕ → String
number_of n = "RQ-" ++ padded8 n

unfoldable pub new_request : Env → (mask : String → String) → Draft → Tables → ServiceRequest
unfolding number_of
new_request env mask d t = record {
  id = env.uuid4 t.drawn;
  number = number_of (suc t.numbers);
  requester_id = d.requester_id;
  booking_id = d.booking_id;
  premises_id = d.premises_id;
  channel_in = d.channel_in;
  source_ref = d.source_ref;
  raw_input = d.raw_input;
  raw_input_masked = mask d.raw_input;
  category = none;
  product_code = none;
  classification = none;
  partner_id = none;
  match_trace = none;
  fallback_chain = none;
  delivery_channel = none;
  service_order_id = none;
  status = new;
  sla = none;
  amount_ref = none;
  escrow_ref = none;
  dispute_id = none;
  claim_ref = none;
  rating_ref = none;
  custom_fields = [];
  access_level = logged;
  idempotency_key = d.idempotency_key;
  created_at = env.now;
  updated_at = env.now;
  dispatched_at = none;
  accepted_at = none;
  done_at = none;
  accepted_by_user_at = none;
  paid_at = none;
  scheduled_at = none;
}

unfoldable pub created_row : Env → Principal → ServiceRequest → RequestHistory
created_row env p r = record {
  request_id = r.id;
  actor_id = actor_of p;
  action = created;
  from_value = none;
  to_value = some (value new);
  ts = env.now;
}

-- The messages of a new request, in the order of the calls.
unfoldable pub announce_new : Env → (automation_on_create : Bool) → ServiceRequest → Tables → Tables
announce_new env automation r t =
    let queued =
      if automation
      then enqueue env "automation_on_create" (("request_id", some (str_uuid r.id)) ∷ []) t
      else t in
    let evented = emit_event env "request.created" r.id r.number new none queued in
    emit_notifications env r.id r.number new r.requester_id none evented

-- The number and the identifier are taken.
unfoldable pub take_number : Tables → Tables
take_number t = record t { numbers = suc t.numbers; drawn = suc t.drawn }

-- The row, its journal entry and its messages, committed.
unfoldable pub create :
    Env → (String → String) → Bool → Principal → Draft → Db → (ServiceRequest × Bool) × Db
unfolding created_row announce_new take_number add_request
create env mask automation p d db =
    let r = new_request env mask d db.tables in
    let journaled = add_history (created_row env p r) (take_number db.tables) in
    (
      (r, true),
      record {
        requests = add_request r db.requests;
        tables = announce_new env automation r journaled;
      },
    )

-- The committed request with the same key, if there is a key.
unfoldable pub existing_for : Option String → Db → Option ServiceRequest
unfolding by_key
existing_for none db = none
existing_for (some key) db = by_key key db

-- An existing request is the answer, and the database is the one kept; else the fresh answer.
unfoldable pub answer :
    Option ServiceRequest
    → (kept : Db) → (fresh : (ServiceRequest × Bool) × Db) → (ServiceRequest × Bool) × Db
answer none kept fresh = fresh
answer (some existing) kept fresh = ((existing, false), kept)

-- The flush and what follows: the unique index refuses the row exactly when a committed one has its
-- key; then the handler rolls back, which gives back no number, and answers with that one.
unfoldable pub flush :
    Env → (String → String) → Bool → Principal → Draft → Db → (ServiceRequest × Bool) × Db
unfolding create existing_for answer
flush env mask automation p d db =
    answer (existing_for d.idempotency_key db) (record db { tables = take_number db.tables })
      (create env mask automation p d db)

-- `_intake`: the request, and whether it is new.
unfoldable pub intake :
    Env
    → (mask : String → String) → (automation_on_create : Bool) → Principal
    → Draft
    → (racing : Db → Db) → Db
    → (ServiceRequest × Bool) × Db
unfolding flush
intake env mask automation p d racing db =
    answer (existing_for d.idempotency_key db) db (flush env mask automation p d (racing db))
