-- ===== src/Requests/Models.antt =====
-- backend/src/api/requests/models.py (the rows of a request), outbox/models.py (the outbox row) and
-- channels/models.py (the delivery attempt). A datetime is a number of microseconds; a JSONB
-- column is a record of the keys that the program puts there.
use kb_partners.Prelude.{ℕ, ℤ, Bool, String, Option, List}
use kb_partners.Auth.{Uuid}
use kb_partners.Json.{Fields}
use kb_partners.Requests.Enums.{
  ChannelIn, Category, RequestStatus, AccessLevel, AuthorType, HistoryAction, EstimateKind,
}

-- `classification` (section 6.1)
pub record Classification : Type 0 where
  pub confidence : ℕ
  pub model : String
  pub version : String
  pub method : String
  pub params : List (String × String)
  pub classified_at : ℕ

-- A candidate as `match_trace` lists it.
pub record TracedCandidate : Type 0 where
  pub id : String
  pub rating : Option ℕ
  pub service_areas : List String
  pub channels : List String

-- `match_trace`
pub data MatchTrace : Type 0 where
  manual : String → MatchTrace
  auto :
      (service_area : Option String) → List TracedCandidate → (matched_at : Option ℕ) → MatchTrace

-- An item of `paused_intervals`; one that does not parse is skipped by the reader.
pub data Pause : Type 0 where
  span : ℕ → ℕ → Pause
  malformed : Pause

-- `sla`
pub record Sla : Type 0 where
  pub accept_deadline : Option ℕ
  pub accept_started_at : Option ℕ
  pub perform_deadline : Option ℕ
  pub perform_started_at : Option ℕ
  pub paused_intervals : Option (List Pause)

pub record ServiceRequest : Type 0 where
  pub id : Uuid
  pub number : String
  pub requester_id : String
  pub booking_id : Option String
  pub premises_id : Option String
  pub channel_in : ChannelIn
  pub source_ref : Option (List (String × String))
  pub raw_input : String
  pub raw_input_masked : String
  pub category : Option Category
  pub product_code : Option String
  pub classification : Option Classification
  pub partner_id : Option String
  pub match_trace : Option MatchTrace
  pub fallback_chain : Option (List String)
  pub delivery_channel : Option String
  pub service_order_id : Option String
  pub status : RequestStatus
  pub sla : Option Sla
  pub amount_ref : Option String
  pub escrow_ref : Option String
  pub dispute_id : Option String
  pub claim_ref : Option String
  pub rating_ref : Option String
  pub custom_fields : List (String × String)
  pub access_level : AccessLevel
  pub idempotency_key : Option String
  pub created_at : ℕ
  -- As the row was loaded; the stamp that the mapper gives on an update is left out.
  pub updated_at : ℕ
  pub dispatched_at : Option ℕ
  pub accepted_at : Option ℕ
  pub done_at : Option ℕ
  pub accepted_by_user_at : Option ℕ
  pub paid_at : Option ℕ
  pub scheduled_at : Option ℕ

pub record RequestEstimate : Type 0 where
  pub request_id : Uuid
  pub kind : EstimateKind
  pub amount_rub : Option ℕ
  pub eta_text : Option String
  pub comment : Option String
  pub author_id : String
  pub created_at : ℕ

pub record RequestMessage : Type 0 where
  pub id : Uuid
  pub request_id : Uuid
  pub author_type : AuthorType
  pub author_id : Option String
  pub is_internal : Bool
  pub text : String
  pub attachments : List (List (String × String))
  pub created_at : ℕ

pub record RequestHistory : Type 0 where
  pub request_id : Uuid
  pub actor_id : Uuid
  pub action : HistoryAction
  pub from_value : Option String
  pub to_value : Option String
  pub ts : ℕ

pub data OutboxStatus : Type 0 where
  pending processing done failed : OutboxStatus

pub record OutboxMessage : Type 0 where
  pub id : Uuid
  pub kind : String
  pub payload : List (String × Option String)
  pub status : OutboxStatus
  pub attempts : ℕ
  pub available_at : ℕ
  pub last_error : Option String
  pub created_at : ℕ
  pub processed_at : Option ℕ

pub data ChannelType : Type 0 where
  api crm telegram max email mock : ChannelType

pub data DeliveryOutcome : Type 0 where
  sent delivered failed ack : DeliveryOutcome

pub record DispatchAttempt : Type 0 where
  pub request_id : Uuid
  pub channel_type : ChannelType
  pub attempt_no : ℕ
  pub status : DeliveryOutcome
  pub provider_response : Fields
  pub idempotency_key : String
  pub ts : ℕ

-- What `record_transition` observes: a count, and the duration of the stage that ends.
pub data Observation : Type 0 where
  transitioned : RequestStatus → Observation
  ttfd tta ttr : ℤ → Observation

-- The journal of accepted inbound messages.
pub record InboundEvent : Type 0 where
  pub channel_config_id : Uuid
  pub nonce : String
  pub request_id : Option Uuid
