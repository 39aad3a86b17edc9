-- ===== src/Requests/Acceptance.antt =====
-- backend/src/api/requests/acceptance.py: acceptance by the user, disputes and settlement. What
-- rehome.one and kb-support answer is an argument.
use Prim.Native.String.{◌++◌}
use kb_partners.Prelude.{
  Bool, true, false, String, ◌==◌, ◌≡◌, refl, Option, none, some, if◌then◌else◌, Result, Effect,
  require, ◌>>◌,
}
use kb_partners.Errors.{forbidden}
use kb_partners.Auth.{Principal, Uuid, str_uuid}
use kb_partners.Config.{Env}
use kb_partners.Requests.Enums.{accepted_by_user, dispute, paid}
use kb_partners.Requests.Models.{ServiceRequest}
use kb_partners.Requests.Store.{Db, Work, handle, set_request, find_request}
use kb_partners.Requests.Access.{get_visible, is_visible, can_user_action}
use kb_partners.Requests.Lifecycle.{apply_transition}
use kb_partners.Requests.Lifecycle.Safe.{Safe, IsSound, handle-IsSound, safe_rules}
use kb_partners.Requests.Detail.{RequestDetail}
use kb_partners.Requests.Service.{detail_now, note_field}
use kb_partners.Requests.Service.Sound.{Safe-detail_now, note_field_keeps}

-- `SettlementRef`
pub record SettlementRef : Type 0 where
  pub amount_ref : Option String
  pub escrow_ref : Option String

-- The two services of the payment and of the claims, none on a failure, and whether they are in use.
pub record Contours : Type 0 where
  pub trigger_settlement :
      (request_id : String) (service_order_id : Option String) (idempotency_key : String)
      → Option SettlementRef
  pub create_compensation_claim :
      (request_id requester_id reason idempotency_key : String) → Option String
  pub enable_settlement : Bool
  pub enable_claims : Bool

-- A failure leaves the references alone.
unfoldable pub put_settlement : Option SettlementRef → ServiceRequest → ServiceRequest
put_settlement none r = r
put_settlement (some ref) r = record r { amount_ref = ref.amount_ref; escrow_ref = ref.escrow_ref }

unfoldable pub settled : Contours → ServiceRequest → ServiceRequest
unfolding put_settlement
settled c r =
    if c.enable_settlement
    then put_settlement
        (c.trigger_settlement (str_uuid r.id) r.service_order_id ("settle:" ++ str_uuid r.id)) r
    else r

unfoldable pub accept_body : Env → Principal → Contours → Effect Work RequestDetail
unfolding settled
accept_body env p c = do
  require (can_user_action p) forbidden
  apply_transition env p accepted_by_user
  set_request (settled c)
  detail_now env p

unfoldable pub accept : Env → Principal → Contours → Uuid → Db → Result RequestDetail × Db
unfolding accept_body
accept env p c request_id db = handle (get_visible p request_id db) (accept_body env p c) db

abbrev pub or_kept : Option String → Option String → Option String
or_kept none old = old
or_kept (some s) old = some s

-- The references of `SettlementConfirm`, where given.
unfoldable pub confirmed : SettlementRef → ServiceRequest → ServiceRequest
confirmed body r = record r {
  amount_ref = or_kept body.amount_ref r.amount_ref;
  escrow_ref = or_kept body.escrow_ref r.escrow_ref;
}

unfoldable pub confirm_settlement_body : Env → Principal → SettlementRef → Effect Work RequestDetail
unfolding confirmed
confirm_settlement_body env p body = do
  apply_transition env p paid
  set_request (confirmed body)
  detail_now env p

-- Loaded by its key alone: the caller is the payment service.
unfoldable pub confirm_settlement :
    Env → Principal → Uuid → SettlementRef → Db → Result RequestDetail × Db
unfolding confirm_settlement_body
confirm_settlement env p request_id body db =
    handle (find_request request_id db) (confirm_settlement_body env p body) db

unfoldable pub put_claim : Option String → ServiceRequest → ServiceRequest
put_claim none r = r
put_claim (some ref) r = record r { dispute_id = some ref; claim_ref = some ref }

unfoldable pub claimed_for : Contours → (reason : String) → ServiceRequest → ServiceRequest
unfolding put_claim
claimed_for c reason r =
    if c.enable_claims
    then put_claim
        (c.create_compensation_claim (str_uuid r.id) r.requester_id reason
          ("dispute:" ++ str_uuid r.id))
        r
    else r

unfoldable pub dispute_body :
    Env → Principal → Contours → (reason : String) → Effect Work RequestDetail
unfolding claimed_for
dispute_body env p c reason = do
  require (can_user_action p) forbidden
  apply_transition env p dispute
  set_request (note_field "dispute" reason)
  set_request (claimed_for c reason)
  detail_now env p

-- `AcceptanceService.dispute`
unfoldable pub open_dispute :
    Env → Principal → Contours → Uuid → (reason : String) → Db → Result RequestDetail × Db
unfolding dispute_body
open_dispute env p c request_id reason db =
    handle (get_visible p request_id db) (dispute_body env p c reason) db

settlement_keeps :
    (ref : Option SettlementRef) (r : ServiceRequest)
    → ((put_settlement ref r).id ≡ r.id) × ((put_settlement ref r).status ≡ r.status)
unfolding put_settlement
settlement_keeps none r = (refl, refl)
settlement_keeps (some ref) r = (refl, refl)

if_keeps :
    (b : Bool) (r s : ServiceRequest)
    → (s.id ≡ r.id) × (s.status ≡ r.status)
    → let t = if b then s else r in (t.id ≡ r.id) × (t.status ≡ r.status)
if_keeps true r s h = h
if_keeps false r s h = (refl, refl)

settled_keeps :
    (c : Contours) (r : ServiceRequest)
    → ((settled c r).id ≡ r.id) × ((settled c r).status ≡ r.status)
unfolding settled
settled_keeps c r = if_keeps c.enable_settlement r _ (settlement_keeps _ r)

confirmed_keeps :
    (body : SettlementRef) (r : ServiceRequest)
    → ((confirmed body r).id ≡ r.id) × ((confirmed body r).status ≡ r.status)
unfolding confirmed
confirmed_keeps body r = (refl, refl)

put_claim_keeps :
    (ref : Option String) (r : ServiceRequest)
    → ((put_claim ref r).id ≡ r.id) × ((put_claim ref r).status ≡ r.status)
unfolding put_claim
put_claim_keeps none r = (refl, refl)
put_claim_keeps (some ref) r = (refl, refl)

claimed_for_keeps :
    (c : Contours) (reason : String) (r : ServiceRequest)
    → ((claimed_for c reason r).id ≡ r.id) × ((claimed_for c reason r).status ≡ r.status)
unfolding claimed_for
claimed_for_keeps c reason r = if_keeps c.enable_claims r _ (put_claim_keeps _ r)

Safe-accept_body : (env : Env) (p : Principal) (c : Contours) → Safe (accept_body env p c)
unfolding accept_body
Safe-accept_body env p c = search (safe_rules, settled_keeps, Safe-detail_now) depth 16

Safe-confirm_settlement_body :
    (env : Env) (p : Principal) (body : SettlementRef) → Safe (confirm_settlement_body env p body)
unfolding confirm_settlement_body
Safe-confirm_settlement_body env p body =
    search (safe_rules, confirmed_keeps, Safe-detail_now) depth 16

Safe-dispute_body :
    (env : Env) (p : Principal) (c : Contours) (reason : String)
    → Safe (dispute_body env p c reason)
unfolding dispute_body
Safe-dispute_body env p c reason =
    search (safe_rules, note_field_keeps, claimed_for_keeps, Safe-detail_now) depth 16

pub accept-IsSound :
    (env : Env) (p : Principal) (c : Contours) (id : Uuid) (db : Db)
    → IsSound db
    → IsSound (accept env p c id db).1
unfolding accept get_visible
accept-IsSound env p c id db = handle-IsSound _ (is_visible p id) db (Safe-accept_body env p c)

pub confirm_settlement-IsSound :
    (env : Env) (p : Principal) (id : Uuid) (body : SettlementRef) (db : Db)
    → IsSound db
    → IsSound (confirm_settlement env p id body db).1
unfolding confirm_settlement find_request
confirm_settlement-IsSound env p id body db =
    handle-IsSound _ (λ r. r.id == id) db (Safe-confirm_settlement_body env p body)

pub open_dispute-IsSound :
    (env : Env) (p : Principal) (c : Contours) (id : Uuid) (reason : String) (db : Db)
    → IsSound db
    → IsSound (open_dispute env p c id reason db).1
unfolding open_dispute get_visible
open_dispute-IsSound env p c id reason db =
    handle-IsSound _ (is_visible p id) db (Safe-dispute_body env p c reason)
