-- ===== src/Requests/Partner.antt =====
-- backend/src/api/requests/partner.py: the answers of a partner to its request, from the portal and
-- (through `advance_partner_status`) from the inbound channel.
pub mod Sound
use Prim.Native.Char.{code}
use Prim.Native.String
use kb_partners.Prelude.{
  ℕ, Bool, true, false, ◌&&◌, ◌||◌, String, Option, none, some, List, [], ◌∷◌, lower_is, is_empty,
  or_else, eqb, leb, if◌then◌else◌, ◌++◌, Result, ok, err, Effect, pure, raise, require, get, ◌>>=◌,
  ◌>>◌,
}
use kb_partners.Errors.{forbidden, unprocessable, internal}
use kb_partners.Auth.{Principal, Uuid, str_uuid, is_partner}
use kb_partners.Config.{Env}
use kb_partners.Sla.Engine.{SlaPolicy, set_perform_deadline}
use kb_partners.Requests.Enums.{
  RequestStatus, matching, accepted, in_progress, done, is, AuthorType, EstimateKind,
}
use kb_partners.Requests.Models.{ServiceRequest, RequestMessage, RequestEstimate, Sla}
use kb_partners.Requests.Store.{
  Db, Work, Tables, handle, set_request, set_tables, add_message, add_estimate, commit,
}
use kb_partners.Requests.Access.{get_visible}
use kb_partners.Requests.Lifecycle.{apply_transition}
use kb_partners.Requests.Detail.{RequestDetail, build_detail}
use kb_partners.Requests.Service.{detail_now, draw, estimates_for}
use kb_partners.Outbox.{enqueue}

-- `PARTNER_STATUS_TARGET.get(partner_status.lower())`
unfoldable pub partner_status_target : String → Option RequestStatus
partner_status_target s =
    if lower_is s "accepted"
    then some accepted
    else if lower_is s "rejected"
    then some matching
    else if lower_is s "in_progress"
    then some in_progress
    else if lower_is s "done"
    then some done
    else none

abbrev pub partner_fallback_kind : String
partner_fallback_kind = "partner_fallback"

-- `sla["perform_started_at"] = ...`, on what the policy returns.
unfoldable pub put_sla : Result Sla → ℕ → Effect Work Unit
put_sla (err p) at = raise p
put_sla (ok sla) at =
    set_request (λ r. record r { sla = some (record sla { perform_started_at = some at }) })

-- The assertion that the transition set `accepted_at`, then the deadline.
unfoldable pub perform_from : SlaPolicy → Option Sla → Option ℕ → Effect Work Unit
unfolding put_sla
perform_from policy sla none = raise internal
perform_from policy sla (some at) = put_sla (set_perform_deadline policy sla at) at

unfoldable pub start_performance : SlaPolicy → Effect Work Unit
unfolding perform_from
start_performance policy = do w ← get; perform_from policy w.request.sla w.request.accepted_at

-- What follows the transition.
unfoldable pub after_partner : Env → SlaPolicy → RequestStatus → Effect Work Unit
unfolding start_performance
after_partner env policy target =
    if is target accepted
    then start_performance policy
    else if is target matching && env.automation_time_based_enabled
    then set_tables (λ r. enqueue env partner_fallback_kind (("request_id", some r.id) ∷ []))
    else pure tt

unfoldable pub advance_to : Env → Principal → SlaPolicy → RequestStatus → Effect Work Unit
unfolding after_partner
advance_to env p policy target = do
  w ← get
  if is target w.request.status
      then pure tt
      else (apply_transition env p target >> after_partner env policy target)

-- An unknown status of a partner is 422.
unfoldable pub advance_known : Env → Principal → SlaPolicy → Option RequestStatus → Effect Work Unit
unfolding advance_to
advance_known env p policy none = raise unprocessable
advance_known env p policy (some target) = advance_to env p policy target

unfoldable pub advance_partner_status : Env → Principal → SlaPolicy → String → Effect Work Unit
unfolding partner_status_target advance_known
advance_partner_status env p policy partner_status =
    advance_known env p policy (partner_status_target partner_status)

-- The row of the partner's message.
unfoldable pub partner_message : Env → Principal → String → ServiceRequest → Tables → RequestMessage
partner_message env p text r t = record {
  id = env.uuid4 t.drawn;
  request_id = r.id;
  author_type = AuthorType.partner;
  author_id = p.partner_id;
  is_internal = false;
  text = text;
  attachments = [];
  created_at = env.now;
}

unfoldable pub say : Env → Principal → Option String → ServiceRequest → Tables → Tables
unfolding partner_message draw
say env p none r t = t
say env p (some text) r t = draw (add_message (partner_message env p text r t) t)

unfoldable pub respond_body :
    Env → Principal → SlaPolicy → String → Option String → Effect Work RequestDetail
unfolding advance_partner_status say
respond_body env p policy status message = do
  require (is_partner p) forbidden
  advance_partner_status env p policy status
  set_tables (say env p message)
  detail_now env p

unfoldable pub respond :
    Env
    → Principal
    → SlaPolicy
    → Uuid
    → (status : String) → (message : Option String) → Db
    → Result RequestDetail × Db
unfolding respond_body
respond env p policy request_id status message db =
    handle (get_visible p request_id db) (respond_body env p policy status message) db

pub record EstimateCreate : Type 0 where
  pub kind : EstimateKind
  pub amount_rub : Option ℕ
  pub eta_text : Option String
  pub comment : Option String

-- The characters that `str.strip` drops.
unfoldable pub is_space : ℕ → Bool
is_space c =
    (leb 9 c && leb c 13)
    || (leb 28 c && leb c 32)
    || eqb c 133
    || eqb c 160
    || eqb c 5760
    || (leb 8192 c && leb c 8202)
    || eqb c 8232
    || eqb c 8233
    || eqb c 8239
    || eqb c 8287
    || eqb c 12288

unfoldable pub strip_left : String → String
unfolding is_space
strip_left String.[] = ""
strip_left (String.◌∷◌ c s) = if is_space (code c) then strip_left s else String.◌∷◌ c s

unfoldable pub strip_right : String → String
unfolding is_space
strip_right String.[] = ""
strip_right (String.◌∷◌ c s) =
    let rest = strip_right s in if is_space (code c) && is_empty rest then "" else String.◌∷◌ c rest

-- `(text or "").strip() or None`
unfoldable pub stripped : Option String → Option String
unfolding strip_left strip_right
stripped text =
    let s = strip_right (strip_left (or_else text "")) in if is_empty s then none else some s

unfoldable pub new_estimate : Env → Principal → EstimateCreate → ServiceRequest → RequestEstimate
unfolding stripped
new_estimate env p body r = record {
  request_id = r.id;
  kind = body.kind;
  amount_rub = body.amount_rub;
  eta_text = stripped body.eta_text;
  comment = body.comment;
  author_id = or_else_text p.partner_id (str_uuid p.user_id);
  created_at = env.now;
}
  where
    -- `principal.partner_id or str(principal.user_id)`: an empty identifier counts as none.
    or_else_text : Option String → String → String
    or_else_text none d = d
    or_else_text (some s) d = if is_empty s then d else s

-- The estimates of the answer are read after the commit: they hold the new row.
unfoldable pub add_estimate_body : Env → Principal → EstimateCreate → Effect Work RequestDetail
unfolding new_estimate
add_estimate_body env p body = do
  require (is_partner p) forbidden
  set_tables (λ r. add_estimate (new_estimate env p body r))
  w ← get
  pure (build_detail env p w.request (estimates_for w.request.id w.tables))

-- `PartnerService.add_estimate`
unfoldable pub offer_estimate :
    Env → Principal → Uuid → EstimateCreate → Db → Result RequestDetail × Db
unfolding add_estimate_body
offer_estimate env p request_id body db =
    handle (get_visible p request_id db) (add_estimate_body env p body) db
