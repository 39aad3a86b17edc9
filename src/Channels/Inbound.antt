-- ===== src/Channels/Inbound.antt =====
-- backend/src/api/channels/inbound.py and `InboundRepository`: the signed answers of partners.
pub mod Accepted
pub mod Sound
use Prim.Native.String.{◌++◌}
use kb_partners.Prelude.{
  ℕ, ℤ, pos, negsuc, ◌+◌, ◌-◌, ◌*◌, Bool, true, false, ◌&&◌, ◌||◌, not, String, ◌==◌, Option, none,
  some, List, [], ◌∷◌, leb, is_some, is_empty, holds_text, or_else, find_first, select,
  if◌then◌else◌, Result, ok, err, Effect, pure, ◌>>=◌, ◌>>◌,
}
use kb_partners.Errors.{internal, not_found, unauthorized, unprocessable}
use kb_partners.Auth.{Principal, Uuid, system_principal, dispatch_actor_id}
use kb_partners.Config.{Env}
use kb_partners.Sla.Engine.{SlaPolicy}
use kb_partners.Requests.Enums.{AuthorType, EstimateKind}
use kb_partners.Requests.Models.{ServiceRequest, RequestEstimate, RequestMessage, InboundEvent}
use kb_partners.Requests.Store.{
  Db, Work, Tables, find_request, open_work, settle, set_tables, add_estimate, add_message,
  add_event,
}
use kb_partners.Requests.Service.{draw}
use kb_partners.Requests.Partner.{advance_partner_status, stripped}
use kb_partners.Channels.{PartnerChannelConfig}

pub record InboundEnvelope : Type 0 where
  pub request_ref : String
  pub status : Option String
  pub nonce : String
  pub message : Option String
  pub estimate_amount : Option ℕ
  pub estimate_note : Option String

-- What the intake takes from libraries: `int` on a text, HMAC-SHA256 in hexadecimal, the JSON
-- parser with pydantic's checks of the single fields, and `uuid.UUID`.
pub record Libraries : Type 0 where
  pub parse_int : String → Option ℤ
  pub hmac_sha256 : (secret message : String) → String
  pub read_envelope : String → Option InboundEnvelope
  pub parse_uuid : String → Option Uuid

-- `_TIMESTAMP_WINDOW`, in seconds
abbrev pub timestamp_window : ℕ
timestamp_window = 300

abbrev pub second : ℕ
second = 1_000_000

-- `abs(now - ts) <= window`, for a clock in microseconds
abbrev pub within : ℤ → ℕ → Bool
within (pos ts) now =
    leb now ((ts + timestamp_window) * second)
    && leb (ts * second) (now + timestamp_window * second)
within (negsuc n) now = leb (now + (n + 1) * second) (timestamp_window * second)

unfoldable pub is_fresh : Libraries → (timestamp : String) → (now : ℕ) → Bool
is_fresh lib timestamp now = elim (lib.parse_int timestamp) [
  | none ↦ false
  | some ts ↦ within ts now
]

unfoldable pub verify_signature : Libraries → (raw_body signature secret timestamp : String) → Bool
verify_signature lib raw_body signature secret timestamp =
    not (is_empty secret) && lib.hmac_sha256 secret (timestamp ++ "." ++ raw_body) == signature

-- `_not_empty` of the schema: a status or an estimate.
unfoldable pub has_content : InboundEnvelope → Bool
unfolding stripped
has_content e = is_some e.status || is_some e.estimate_amount || is_some (stripped e.estimate_note)

-- `_parse`: 422 unless the body is an envelope.
unfoldable pub parse_envelope : Libraries → String → Option InboundEnvelope
unfolding has_content
parse_envelope lib raw_body = elim (lib.read_envelope raw_body) [
  | none ↦ none
  | some e ↦ if has_content e then some e else none
]

-- `scalar_one_or_none`: several rows raise MultipleResultsFound.
abbrev pub one_or_none : List PartnerChannelConfig → Result (Option PartnerChannelConfig)
one_or_none [] = ok none
one_or_none (c ∷ []) = ok (some c)
one_or_none (c ∷ d ∷ rest) = err internal

-- `config_by_inbound_token`; nothing keeps two channels from sharing a token.
unfoldable pub config_by_inbound_token :
    String → List PartnerChannelConfig → Result (Option PartnerChannelConfig)
config_by_inbound_token token rows =
    one_or_none (select (λ c. holds_text c.inbound_token token) rows)

unfoldable pub is_seen : Uuid → (nonce : String) → List InboundEvent → Bool
is_seen config_id nonce [] = false
is_seen config_id nonce (e ∷ rest) =
    (e.channel_config_id == config_id && e.nonce == nonce) || is_seen config_id nonce rest

-- `_correlate`
unfoldable pub correlate : Libraries → (request_ref : String) → Db → Option ServiceRequest
unfolding find_request
correlate lib request_ref db = elim (lib.parse_uuid request_ref) [
  | none ↦ none
  | some id ↦ find_request id db
]

-- `_CHANNEL_PRINCIPAL`
abbrev pub channel_principal : Principal
channel_principal = system_principal dispatch_actor_id

unfoldable pub advance_if_named : Env → SlaPolicy → Option String → Effect Work Unit
unfolding advance_partner_status
advance_if_named env policy none = pure tt
advance_if_named env policy (some status) =
    advance_partner_status env channel_principal policy status

-- The estimate of a partner, kept beside the earlier ones.
unfoldable pub partner_estimate :
    Env → PartnerChannelConfig → InboundEnvelope → ServiceRequest → RequestEstimate
unfolding stripped
partner_estimate env config e r = record {
  request_id = r.id;
  kind = EstimateKind.final;
  amount_rub = e.estimate_amount;
  eta_text = stripped e.estimate_note;
  comment = none;
  author_id = config.collaborator_id;
  created_at = env.now;
}

unfoldable pub estimate_if_given :
    Env → PartnerChannelConfig → InboundEnvelope → ServiceRequest → Tables → Tables
unfolding stripped partner_estimate
estimate_if_given env config e r t =
    if is_some e.estimate_amount || is_some (stripped e.estimate_note)
    then add_estimate (partner_estimate env config e r) t
    else t

unfoldable pub message_if_given :
    Env → PartnerChannelConfig → Option String → ServiceRequest → Tables → Tables
unfolding draw
message_if_given env config none r t = t
message_if_given env config (some text) r t = draw (
    add_message
      (record {
        id = env.uuid4 t.drawn;
        request_id = r.id;
        author_type = AuthorType.partner;
        author_id = some config.collaborator_id;
        is_internal = false;
        text = text;
        attachments = [];
        created_at = env.now;
      })
      t)

unfoldable pub event_of : PartnerChannelConfig → InboundEnvelope → ServiceRequest → InboundEvent
event_of config e r = record {
  channel_config_id = config.id;
  nonce = e.nonce;
  request_id = some r.id;
}

-- What the message does to the request, in the order of the code.
unfoldable pub receive : Env → SlaPolicy → PartnerChannelConfig → InboundEnvelope → Effect Work Unit
unfolding advance_if_named estimate_if_given message_if_given
receive env policy config e = do
  advance_if_named env policy e.status
  set_tables (estimate_if_given env config e)
  set_tables (message_if_given env config e.message)

unfoldable pub take_in :
    Env → SlaPolicy → PartnerChannelConfig → InboundEnvelope → Effect Work String
unfolding receive event_of
take_in env policy config e = do
  receive env policy config e
  set_tables (λ r. add_event (event_of config e r))
  pure "ok"

-- The partner of the request is that of the channel.
unfoldable pub is_own : PartnerChannelConfig → ServiceRequest → Bool
is_own config r = holds_text r.partner_id config.collaborator_id

unfoldable pub take_in_for :
    Env
    → SlaPolicy
    → PartnerChannelConfig
    → InboundEnvelope
    → Option ServiceRequest
    → Db
    → Result String × Db
unfolding take_in is_own open_work settle
take_in_for env policy config e none db = (err not_found, db)
take_in_for env policy config e (some r) db =
    if is_own config r
    then settle (take_in env policy config e (open_work r db)) db
    else (err not_found, db)

-- Once the envelope is known: a nonce that was seen is a repetition.
unfoldable pub dedup :
    Env
    → SlaPolicy
    → Libraries
    → PartnerChannelConfig
    → Option InboundEnvelope
    → Db
    → Result String × Db
unfolding is_seen take_in_for correlate
dedup env policy lib config none db = (err unprocessable, db)
dedup env policy lib config (some e) db =
    if is_seen config.id e.nonce db.events
    then (ok "duplicate", db)
    else take_in_for env policy config e (correlate lib e.request_ref db) db

-- The message as it comes in.
pub record Inbound : Type 0 where
  pub token : String
  pub raw_body : String
  pub signature : String
  pub timestamp : String

-- Fresh, and signed with the secret of the channel.
unfoldable pub is_authentic : Env → Libraries → PartnerChannelConfig → Inbound → Bool
unfolding is_fresh verify_signature
is_authentic env lib config m =
    is_fresh lib m.timestamp env.now
    && verify_signature lib m.raw_body m.signature (or_else config.inbound_token "") m.timestamp

unfoldable pub handle_for :
    Env
    → SlaPolicy
    → Libraries
    → Inbound
    → Result (Option PartnerChannelConfig)
    → Db
    → Result String × Db
unfolding is_authentic dedup parse_envelope
handle_for env policy lib m (err problem) db = (err problem, db)
handle_for env policy lib m (ok none) db = (err not_found, db)
handle_for env policy lib m (ok (some config)) db =
    if is_authentic env lib config m
    then dedup env policy lib config (parse_envelope lib m.raw_body) db
    else (err unauthorized, db)

-- `InboundService.handle_api`: the answer's `status`.
unfoldable pub handle_api :
    Env → SlaPolicy → Libraries → List PartnerChannelConfig → Inbound → Db → Result String × Db
unfolding handle_for config_by_inbound_token
handle_api env policy lib configs m db =
    handle_for env policy lib m (config_by_inbound_token m.token configs) db
