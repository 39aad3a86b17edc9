-- ===== src/Requests/Intake/Drafts.antt =====
-- The bodies of the three intake endpoints, and what they hand to `_intake`.
use kb_partners.Requests.Intake.{Draft, intake}
use Prim.Native.String.{◌++◌}
use kb_partners.Prelude.{
  String, Bool, Option, none, some, List, [], ◌∷◌, is_empty, if◌then◌else◌, Result, ok, err,
}
use kb_partners.Errors.{bad_request, forbidden}
use kb_partners.Auth.{Principal, requester, service, kind_is, Uuid, str_uuid}
use kb_partners.Config.{Env}
use kb_partners.Requests.Models.{ServiceRequest}
use kb_partners.Requests.Store.{Db}
use kb_partners.Requests.Enums.{api, web_form, ai_chat, support_ticket}

-- `_resolve_requester`
unfoldable pub resolve_requester : Principal → (provided : Option String) → Result String
resolve_requester p provided =
    if kind_is p.kind requester then ok (str_uuid p.user_id) else given provided
  where
    on_behalf : Option Uuid → Result String
    on_behalf (some u) = ok (str_uuid u)
    on_behalf none = if kind_is p.kind service then err bad_request else ok (str_uuid p.user_id)

    given : Option String → Result String
    given none = on_behalf p.on_behalf_of
    given (some s) = if is_empty s then on_behalf p.on_behalf_of else ok s

pub record RequestCreate : Type 0 where
  pub raw_input : String
  pub requester_id : Option String
  pub booking_id : Option String
  pub premises_id : Option String
  pub source_ref : Option (List (String × String))

-- What `create_from_form` hands to `_intake`.
unfoldable pub draft_from_form :
    Principal → RequestCreate → (idempotency_key : Option String) → Result Draft
unfolding resolve_requester
draft_from_form p body key = elim (resolve_requester p body.requester_id) [
  | err problem ↦ err problem
  | ok who ↦ ok (record {
    requester_id = who;
    raw_input = body.raw_input;
    channel_in = if kind_is p.kind service then api else web_form;
    source_ref = body.source_ref;
    booking_id = body.booking_id;
    premises_id = body.premises_id;
    idempotency_key = key;
  })
]

pub record FromChatCreate : Type 0 where
  pub chat_session_id : String
  pub requester_id : String
  pub raw_input : String
  -- The replies, as the text of their JSON.
  pub transcript : Option String
  pub booking_id : Option String
  pub premises_id : Option String

unfoldable pub draft_from_chat : FromChatCreate → Draft
draft_from_chat body = record {
  requester_id = body.requester_id;
  raw_input = body.raw_input;
  channel_in = ai_chat;
  source_ref = some (("chat_session_id", body.chat_session_id) ∷ transcript_entry body.transcript);
  booking_id = body.booking_id;
  premises_id = body.premises_id;
  idempotency_key = some ("chat:" ++ body.chat_session_id);
}
  where
    transcript_entry : Option String → List (String × String)
    transcript_entry none = []
    transcript_entry (some text) = ("transcript", text) ∷ []

pub record FromTicketCreate : Type 0 where
  pub ticket_id : String
  pub requester_id : String
  pub raw_input : String
  pub booking_id : Option String
  pub premises_id : Option String

unfoldable pub draft_from_ticket : FromTicketCreate → Draft
draft_from_ticket body = record {
  requester_id = body.requester_id;
  raw_input = body.raw_input;
  channel_in = support_ticket;
  source_ref = some (("ticket_id", body.ticket_id) ∷ []);
  booking_id = body.booking_id;
  premises_id = body.premises_id;
  idempotency_key = some ("ticket:" ++ body.ticket_id);
}

-- The endpoints that create a request, with their bodies.
pub data NewRequest : Type 0 where
  from_form : RequestCreate → (idempotency_key : Option String) → NewRequest
  from_chat : FromChatCreate → NewRequest
  from_ticket : FromTicketCreate → NewRequest

-- The chat and the tickets come from services only (`require_service_principal`).
unfoldable pub draft_of : Principal → NewRequest → Result Draft
unfolding draft_from_form draft_from_chat draft_from_ticket
draft_of p (from_form body key) = draft_from_form p body key
draft_of p (from_chat body) =
    if kind_is p.kind service then ok (draft_from_chat body) else err forbidden
draft_of p (from_ticket body) =
    if kind_is p.kind service then ok (draft_from_ticket body) else err forbidden

-- A new request, while no other session is at work: the answer, and the database.
unfoldable pub create_request :
    Env
    → (mask : String → String) → (automation_on_create : Bool) → Principal
    → NewRequest
    → Db
    → Result (ServiceRequest × Bool) × Db
unfolding draft_of intake
create_request env mask automation p body db = elim (draft_of p body) [
  | err problem ↦ (err problem, db)
  | ok d ↦ let end = intake env mask automation p d (λ kept. kept) db in (ok end.0, end.1)
]
