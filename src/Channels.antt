-- ===== src/Channels.antt =====
-- backend/src/api/channels: delivery of requests to partners. Here: the rows of a channel
-- (models.py, enums.py) and what passes between the dispatcher and a channel (protocol.py).
pub mod Adapters
pub mod Resolver
pub mod Dispatch
pub mod Drain
pub mod Inbound
pub mod Mail
pub mod Configs
use kb_partners.Prelude.{ℕ, Bool, String, Option, List}
use kb_partners.Auth.{Uuid}
use kb_partners.Json.{Fields, Json}
use kb_partners.Requests.Models.{ChannelType, DeliveryOutcome}

pub data HealthStatus : Type 0 where
  healthy degraded unhealthy : HealthStatus

pub record PartnerChannelConfig : Type 0 where
  pub id : Uuid
  pub collaborator_id : String
  pub channel_type : ChannelType
  pub priority : ℕ
  pub config : Fields
  pub inbound_token : Option String
  pub is_active : Bool
  pub health : Option Fields

pub record ChannelConfig : Type 0 where
  pub collaborator_id : String
  pub channel_type : ChannelType
  pub priority : ℕ
  pub config : Fields
  pub inbound_token : Option String
  pub is_active : Bool

pub record DeliveryPayload : Type 0 where
  pub request_id : String
  pub number : String
  pub category : String
  pub summary : String
  pub params : List (String × String)
  pub idempotency_key : String
  pub attachments : List String
  pub premises_id : Option String
  pub booking_id : Option String

pub record DeliveryResult : Type 0 where
  pub outcome : DeliveryOutcome
  pub provider_response : Fields
  pub external_ref : Option String

pub record StatusUpdate : Type 0 where
  pub request_ref : String
  pub outcome : DeliveryOutcome
  pub raw : Fields

pub record Health : Type 0 where
  pub status : HealthStatus
  pub detail : Option String

-- `to_channel_config`
unfoldable pub to_channel_config : PartnerChannelConfig → ChannelConfig
to_channel_config row = record {
  collaborator_id = row.collaborator_id;
  channel_type = row.channel_type;
  priority = row.priority;
  config = row.config;
  inbound_token = row.inbound_token;
  is_active = row.is_active;
}

-- What an attempt to deliver comes to: an answer of the channel, `NotImplementedError`, or
-- another exception.
pub data Delivery : Type 0 where
  answered : DeliveryResult → Delivery
  not_implemented : Delivery
  crashed : Delivery

-- A request to a partner's system, and what comes of it: an answer, an `ExternalServiceError` of a
-- given class, or an exception of httpx that the resilient client lets pass.
pub record HttpRequest : Type 0 where
  pub verb : String
  pub path : String
  pub headers : List (String × String)
  pub body : Option Json

-- The body is there if it parses as JSON.
pub data HttpReply : Type 0 where
  replied : (status_code : ℕ) → (body : Option Json) → HttpReply
  external_error : (class_name : String) → HttpReply
  passed_error : HttpReply

-- What a channel needs from outside: the client, and Python's `repr` of nested values.
pub record Wire : Type 0 where
  pub request : HttpRequest → HttpReply
  pub repr : Json → String
