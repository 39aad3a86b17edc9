-- ===== src/Channels/Dispatch.antt =====
-- backend/src/api/channels/dispatch.py and `DispatchRepository`: the delivery of a request, partner
-- after partner and channel after channel, until one of them takes it.
pub mod Tour
pub mod Walks
pub mod Numbers
pub mod First
pub mod Sound
pub mod Returns
use Prim.Native.String.{◌++◌}
use kb_partners.Prelude.{
  ℕ, ◌+◌, Bool, true, false, ◌&&◌, String, ◌==◌, Option, none, some, List, [], ◌∷◌, leb, length,
  select, sort_by, or_else, if◌then◌else◌, str_int, Result, ok, err, Effect, pure, raise, of_result,
  get, ◌>>=◌, ◌>>◌, map,
}
use kb_partners.Errors.{internal}
use kb_partners.Auth.{Uuid, Principal, system_principal, dispatch_actor_id, str_uuid}
use kb_partners.Config.{Env}
use kb_partners.Json.{text, end, field}
use kb_partners.Sla.Engine.{SlaPolicy, set_accept_deadline}
use kb_partners.Requests.Enums.{Category, category_value, failed_dispatch}
use kb_partners.Requests.Models.{
  ServiceRequest, Sla, Classification, ChannelType, api, crm, telegram, max, email, mock,
  DeliveryOutcome, sent, delivered, failed, ack, DispatchAttempt,
}
use kb_partners.Requests.Store.{Work, Tables, set_request, set_tables, add_attempt}
use kb_partners.Requests.Lifecycle.{apply_transition}
use kb_partners.Channels.{
  Delivery, answered, not_implemented, crashed, PartnerChannelConfig, DeliveryPayload,
  DeliveryResult,
}
use kb_partners.Channels.Resolver.{ChannelResolver}

abbrev pub dispatch_kind : String
dispatch_kind = "dispatch"

-- `_SUCCESS_OUTCOMES`
unfoldable pub is_success : DeliveryOutcome → Bool
is_success sent = true
is_success delivered = true
is_success ack = true
is_success failed = false

-- `_DISPATCH_PRINCIPAL`
abbrev pub dispatch_principal : Principal
dispatch_principal = system_principal dispatch_actor_id

-- `config.channel_type.value`
unfoldable pub channel_value : ChannelType → String
channel_value api = "API"
channel_value crm = "CRM"
channel_value telegram = "TELEGRAM"
channel_value max = "MAX"
channel_value email = "EMAIL"
channel_value mock = "MOCK"

-- `f"dispatch:{request.id}:{attempt_no}"`
unfoldable pub dispatch_key : Uuid → ℕ → String
unfolding str_int
dispatch_key id attempt_no = "dispatch:" ++ str_uuid id ++ ":" ++ str_int attempt_no

abbrev pub params_of : Option Classification → List (String × String)
params_of none = []
params_of (some c) = c.params

abbrev pub payload_in : ServiceRequest → ℕ → Category → DeliveryPayload
payload_in r attempt_no category = record {
  request_id = str_uuid r.id;
  number = r.number;
  category = category_value category;
  summary = r.raw_input_masked;
  params = params_of r.classification;
  idempotency_key = dispatch_key r.id attempt_no;
  attachments = [];
  premises_id = r.premises_id;
  booking_id = r.booking_id;
}

-- The assertion is that the request has a category.
unfoldable pub build_payload : ServiceRequest → ℕ → Result DeliveryPayload
unfolding dispatch_key
build_payload r attempt_no = elim r.category [
  | none ↦ err internal
  | some category ↦ ok (payload_in r attempt_no category)
]

-- The `except` clause.
unfoldable pub settle_delivery : Delivery → Result DeliveryResult
settle_delivery (answered result) = ok result
settle_delivery not_implemented = ok (record {
  outcome = failed;
  provider_response = field "error" (text "unsupported_channel") end;
  external_ref = none;
})
settle_delivery crashed = err internal

unfoldable pub attempt_delivery :
    ChannelResolver → ServiceRequest → PartnerChannelConfig → ℕ → Result DeliveryResult
unfolding build_payload settle_delivery
attempt_delivery resolver r config attempt_no = elim (build_payload r attempt_no) [
  | err p ↦ err p
  | ok payload ↦ settle_delivery (resolver config payload)
]

-- `DispatchRepository.active_channels_for`
unfoldable pub active_channels_for : String → List PartnerChannelConfig → List PartnerChannelConfig
active_channels_for collaborator rows =
    sort_by (λ a b. leb a.priority b.priority)
      (select (λ c. c.collaborator_id == collaborator && c.is_active) rows)

-- `DispatchRepository.count_attempts`
unfoldable pub count_attempts : Uuid → Tables → ℕ
count_attempts id t = length (select (λ a. a.request_id == id) t.attempts)

unfoldable pub attempt_row :
    Env → ServiceRequest → PartnerChannelConfig → ℕ → DeliveryResult → DispatchAttempt
unfolding dispatch_key
attempt_row env r config attempt_no result = record {
  request_id = r.id;
  channel_type = config.channel_type;
  attempt_no = attempt_no;
  status = result.outcome;
  provider_response = result.provider_response;
  idempotency_key = dispatch_key r.id attempt_no;
  ts = env.now;
}

-- `chosen_partner` and `chosen_channel`
pub record Chosen : Type 0 where
  pub partner : String
  pub channel : String

-- `attempt_no`, and the choice if there is one.
pub record Progress : Type 0 where
  pub attempt_no : ℕ
  pub chosen : Option Chosen

module _ (env : Env) (resolver : ChannelResolver) where
  -- The inner loop, over the channels of a partner.
  unfoldable pub try_channels :
      (partner : String) → List PartnerChannelConfig → ℕ → Effect Work Progress
  unfolding is_success channel_value attempt_delivery attempt_row
  try_channels partner [] n = pure (record { attempt_no = n; chosen = none })
  try_channels partner (config ∷ rest) n =
      let others = try_channels partner rest (n + 1) in
      do
        w ← get
        result ← of_result (attempt_delivery resolver w.request config (n + 1))
        set_tables (λ r t. add_attempt (attempt_row env r config (n + 1) result) t)
        if is_success result.outcome
            then pure (record {
              attempt_no = n + 1;
              chosen =
                  some (record { partner = partner; channel = channel_value config.channel_type });
            })
            else others

  -- The outer loop, over the partners: the chosen one, then the chain.
  unfoldable pub try_partners :
      List PartnerChannelConfig → List (Option String) → ℕ → Effect Work Progress
  unfolding try_channels active_channels_for
  try_partners configs [] n = pure (record { attempt_no = n; chosen = none })
  try_partners configs (none ∷ rest) n = try_partners configs rest n
  try_partners configs (some partner ∷ rest) n = do
    progress ← try_channels partner (active_channels_for partner configs) n
    elim progress.chosen [
      | none ↦ try_partners configs rest progress.attempt_no
      | some chosen ↦ pure progress
    ]

-- `sla["accept_started_at"] = ...`, on what the policy returns.
unfoldable pub put_accept_sla : Result Sla → ℕ → Effect Work Unit
put_accept_sla (err p) at = raise p
put_accept_sla (ok sla) at =
    set_request (λ r. record r { sla = some (record sla { accept_started_at = some at }) })

-- The assertion that the request was dispatched, then the deadline.
unfoldable pub accept_from : SlaPolicy → Option Sla → Option ℕ → Effect Work Unit
unfolding put_accept_sla
accept_from policy sla none = raise internal
accept_from policy sla (some at) = put_accept_sla (set_accept_deadline policy sla at) at

-- What follows the loops.
unfoldable pub conclude : Env → SlaPolicy → Option Chosen → Effect Work Bool
unfolding accept_from
conclude env policy none = do apply_transition env dispatch_principal failed_dispatch; pure false
conclude env policy (some chosen) = do
  set_request
      (λ r. record r { partner_id = some chosen.partner; delivery_channel = some chosen.channel })
  w ← get
  accept_from policy w.request.sla w.request.dispatched_at
  pure true

unfoldable pub execute_dispatch :
    Env → ChannelResolver → SlaPolicy → List PartnerChannelConfig → Effect Work Bool
unfolding count_attempts try_partners conclude
execute_dispatch env resolver policy configs = do
  w ← get
  progress ←
      try_partners env resolver configs
        (w.request.partner_id ∷ map some (or_else w.request.fallback_chain []))
        (count_attempts w.request.id w.tables)
  conclude env policy progress.chosen
