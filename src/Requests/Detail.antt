-- ===== src/Requests/Detail.antt =====
-- `build_detail` of backend/src/api/requests/service.py and the schemas of the card: what a subject
-- is shown of a request.
pub mod Masking
use kb_partners.Prelude.{
  ℕ, Bool, true, false, String, Option, none, some, List, [], ◌∷◌, map, or_else, sort_by, text_le,
  if◌then◌else◌,
}
use kb_partners.Auth.{Principal, Uuid}
use kb_partners.Config.{Env}
use kb_partners.Sla.Engine.{SlaView, sla_view, from_settings}
use kb_partners.Requests.Enums.{RequestStatus, ChannelIn, Category, EstimateKind, value}
use kb_partners.Requests.Fsm.{allowed_transitions}
use kb_partners.Requests.Models.{ServiceRequest, RequestEstimate, Classification, MatchTrace}
use kb_partners.Requests.Access.{can_see_raw_input, can_view_internal}

pub record EstimateRead : Type 0 where
  pub kind : EstimateKind
  pub amount_rub : Option ℕ
  pub eta_text : Option String
  pub comment : Option String
  pub created_at : ℕ

pub record RequestDetail : Type 0 where
  pub id : Uuid
  pub number : String
  pub requester_id : String
  pub channel_in : ChannelIn
  pub category : Option Category
  pub status : RequestStatus
  pub created_at : ℕ
  pub updated_at : ℕ
  pub partner_id : Option String
  pub product_code : Option String
  pub booking_id : Option String
  pub premises_id : Option String
  pub delivery_channel : Option String
  pub service_order_id : Option String
  pub amount_ref : Option String
  pub escrow_ref : Option String
  pub dispute_id : Option String
  pub claim_ref : Option String
  pub scheduled_at : Option ℕ
  pub estimates : List EstimateRead
  pub raw_input : String
  pub classification : Option Classification
  pub sla : Option SlaView
  pub match_trace : Option MatchTrace
  pub fallback_chain : Option (List String)
  pub allowed_transitions : List RequestStatus

-- `EstimateRead.model_validate`
unfoldable pub read_estimate : RequestEstimate → EstimateRead
read_estimate e = record {
  kind = e.kind;
  amount_rub = e.amount_rub;
  eta_text = e.eta_text;
  comment = e.comment;
  created_at = e.created_at;
}

-- `sorted(statuses, key=lambda s: s.value)`
unfoldable pub sorted_statuses : List RequestStatus → List RequestStatus
sorted_statuses = sort_by (λ a b. text_le (value a) (value b))

unfoldable pub build_detail :
    Env → Principal → ServiceRequest → (estimates : List RequestEstimate) → RequestDetail
build_detail env p r estimates =
    let raw = if can_see_raw_input p r then r.raw_input else r.raw_input_masked in
    let staff_view = can_view_internal p in
    record {
      id = r.id;
      number = r.number;
      requester_id = r.requester_id;
      channel_in = r.channel_in;
      category = r.category;
      status = r.status;
      created_at = r.created_at;
      updated_at = r.updated_at;
      partner_id = r.partner_id;
      product_code = r.product_code;
      booking_id = r.booking_id;
      premises_id = r.premises_id;
      delivery_channel = r.delivery_channel;
      service_order_id = r.service_order_id;
      amount_ref = r.amount_ref;
      escrow_ref = r.escrow_ref;
      dispute_id = r.dispute_id;
      claim_ref = r.claim_ref;
      scheduled_at = r.scheduled_at;
      estimates = map read_estimate estimates;
      raw_input = raw;
      classification = r.classification;
      sla = sla_view r.sla r.accepted_at r.done_at (from_settings env.settings) env.now;
      match_trace = if staff_view then r.match_trace else none;
      fallback_chain = if staff_view then r.fallback_chain else none;
      allowed_transitions = sorted_statuses (allowed_transitions r.status);
    }
