-- ===== src/Examples.antt =====
-- Data for the tests: an environment, subjects, requests and databases.
pub mod Journal
pub mod Reading
pub mod Deadlines
pub mod Queues
pub mod Neighbours
pub mod Deliveries
use kb_partners.Prelude.{Bool, true, false, String, Option, none, some, List, [], ◌∷◌, str_int}
use Prim.Native.String.{◌++◌}
use kb_partners.Auth.{Principal, PrincipalKind, Uuid}
use kb_partners.Config.{Env, Settings}
use kb_partners.Sla.Calendar.{Zone}
use kb_partners.Requests.Enums.{RequestStatus, AuthorType, new, logged, cleaning, web_form, created}
use kb_partners.Requests.Models.{ServiceRequest, RequestHistory, RequestMessage}
use kb_partners.Requests.Store.{Db, Tables}

abbrev pub utc : Zone
utc = record { to_wall = λ t. t; to_utc = λ t. t }

abbrev pub settings : Settings
settings = record {
  webhook_url = "https://hook";
  notifications_enabled = true;
  concierge_api_base_url = "https://concierge";
  automation_time_based_enabled = true;
  retention_worker_enabled = true;
  raw_input_retention_days = 30;
  notify_smtp_host = "smtp";
  notify_email_from = "desk@rehome";
  telegram_api_base_url = "https://telegram";
  max_api_base_url = "https://max";
  sla_timezone = utc;
  sla_business_open_hour = 9;
  sla_business_close_hour = 18;
  sla_business_days = 0 ∷ 1 ∷ 2 ∷ 3 ∷ 4 ∷ [];
  sla_accept_hours = 7200000000;
  sla_perform_hours = 86400000000;
  sla_at_risk_fraction = 800000;
  outbox_batch_size = 10;
  outbox_max_attempts = 5;
  outbox_retry_base_seconds = 30;
  outbox_visibility_timeout_seconds = 300;
}

abbrev pub noon : Env
noon = record {
  settings = settings;
  now = 43200000000;
  uuid4 = λ n. "id-" ++ str_int n;
  isoformat = λ t. str_int t;
}

abbrev pub plain : PrincipalKind → Uuid → Principal
plain kind user = record {
  user_id = user;
  kind = kind;
  scopes = [];
  partner_id = none;
  on_behalf_of = none;
  acting_agent = none;
}

abbrev pub alice : Principal
alice = plain PrincipalKind.requester "alice"

abbrev pub olga : Principal
olga = plain PrincipalKind.operator "olga"

abbrev pub cleaners : Principal
cleaners = record (plain PrincipalKind.partner "petr") { partner_id = some "clean-co" }

abbrev pub request_at : RequestStatus → ServiceRequest
request_at status = record {
  id = "r1";
  number = "RQ-00000001";
  requester_id = "alice";
  booking_id = none;
  premises_id = none;
  channel_in = web_form;
  source_ref = none;
  raw_input = "call +7 900";
  raw_input_masked = "call [PHONE]";
  category = some cleaning;
  product_code = none;
  classification = none;
  partner_id = some "clean-co";
  match_trace = none;
  fallback_chain = some [];
  delivery_channel = none;
  service_order_id = none;
  status = status;
  sla = none;
  amount_ref = none;
  escrow_ref = none;
  dispute_id = none;
  claim_ref = none;
  rating_ref = none;
  custom_fields = [];
  access_level = logged;
  idempotency_key = some "key-1";
  created_at = 0;
  updated_at = 0;
  dispatched_at = none;
  accepted_at = none;
  done_at = none;
  accepted_by_user_at = none;
  paid_at = none;
  scheduled_at = none;
}

abbrev pub no_tables : Tables
no_tables = record {
  history = [];
  messages = [];
  estimates = [];
  attempts = [];
  outbox = [];
  events = [];
  metrics = [];
  drawn = 7;
  numbers = 1;
}

abbrev pub born_row : RequestHistory
born_row = record {
  request_id = "r1";
  actor_id = "alice";
  action = created;
  from_value = none;
  to_value = some "NEW";
  ts = 0;
}

abbrev pub note : Bool → String → RequestMessage
note internal text = record {
  id = "m-" ++ text;
  request_id = "r1";
  author_type = AuthorType.operator;
  author_id = some "olga";
  is_internal = internal;
  text = text;
  attachments = [];
  created_at = 1;
}

-- One new request, with an internal note and an open answer.
abbrev pub one_request : Db
one_request = record {
  requests = request_at new ∷ [];
  tables = record no_tables {
    history = born_row ∷ [];
    messages = note true "secret" ∷ note false "hello" ∷ [];
  };
}
