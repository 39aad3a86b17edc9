-- ===== src/Requests/Partner/Sound.antt =====
-- The answers of a partner keep the database sound.
use kb_partners.Prelude.{ℕ, String, ◌≡◌, refl, Option, none, some, List, Result, ok, err}
use kb_partners.Auth.{Principal, Uuid}
use kb_partners.Config.{Env}
use kb_partners.Sla.Engine.{SlaPolicy}
use kb_partners.Requests.Enums.{RequestStatus}
use kb_partners.Requests.Models.{ServiceRequest, RequestEstimate, Sla}
use kb_partners.Requests.Store.{Db, Tables, add_message, add_estimate}
use kb_partners.Requests.Access.{get_visible, is_visible}
use kb_partners.Requests.Lifecycle.Safe.{
  Safe, IsSound, handle-IsSound, safe_rules, Safe-raise, Safe-set_request,
}
use kb_partners.Requests.Service.{draw}
use kb_partners.Requests.Service.Sound.{Safe-detail_now}
use kb_partners.Requests.Partner.{
  put_sla, perform_from, start_performance, after_partner, advance_to, advance_known,
  advance_partner_status, say, respond_body, respond, EstimateCreate, add_estimate_body,
  offer_estimate,
}
use kb_partners.Outbox.{enqueue}

pub enqueue_keeps :
    (env : Env) (kind : String) (payload : List (String × Option String)) (t : Tables)
    → (enqueue env kind payload t).history ≡ t.history
unfolding enqueue
enqueue_keeps env kind payload t = refl

sla_keeps :
    (sla : Sla) (at : ℕ) (r : ServiceRequest)
    → let s = record r { sla = some (record sla { perform_started_at = some at }) } in
      (s.id ≡ r.id) × (s.status ≡ r.status)
sla_keeps sla at r = (refl, refl)

Safe-put_sla : (sla : Result Sla) (at : ℕ) → Safe (put_sla sla at)
unfolding put_sla
Safe-put_sla (err p) at = Safe-raise p
Safe-put_sla (ok sla) at = Safe-set_request _ (sla_keeps sla at)

Safe-perform_from :
    (policy : SlaPolicy) (sla : Option Sla) (at : Option ℕ) → Safe (perform_from policy sla at)
unfolding perform_from
Safe-perform_from policy sla none = search safe_rules
Safe-perform_from policy sla (some at) = Safe-put_sla _ at

Safe-start_performance : (policy : SlaPolicy) → Safe (start_performance policy)
unfolding start_performance
Safe-start_performance policy = search (safe_rules, Safe-perform_from)

Safe-after_partner :
    (env : Env) (policy : SlaPolicy) (target : RequestStatus)
    → Safe (after_partner env policy target)
unfolding after_partner
Safe-after_partner env policy target =
    search (safe_rules, Safe-start_performance, enqueue_keeps) depth 12

Safe-advance_to :
    (env : Env) (p : Principal) (policy : SlaPolicy) (target : RequestStatus)
    → Safe (advance_to env p policy target)
unfolding advance_to
Safe-advance_to env p policy target = search (safe_rules, Safe-after_partner) depth 12

Safe-advance_known :
    (env : Env) (p : Principal) (policy : SlaPolicy) (target : Option RequestStatus)
    → Safe (advance_known env p policy target)
unfolding advance_known
Safe-advance_known env p policy none = search safe_rules
Safe-advance_known env p policy (some t) = Safe-advance_to env p policy t

pub Safe-advance_partner_status :
    (env : Env) (p : Principal) (policy : SlaPolicy) (status : String)
    → Safe (advance_partner_status env p policy status)
unfolding advance_partner_status
Safe-advance_partner_status env p policy status = Safe-advance_known env p policy _

say_keeps :
    (env : Env) (p : Principal) (message : Option String) (r : ServiceRequest) (t : Tables)
    → (say env p message r t).history ≡ t.history
unfolding say draw add_message
say_keeps env p none r t = refl
say_keeps env p (some text) r t = refl

Safe-respond_body :
    (env : Env) (p : Principal) (policy : SlaPolicy) (status : String) (message : Option String)
    → Safe (respond_body env p policy status message)
unfolding respond_body
Safe-respond_body env p policy status message =
    search (safe_rules, Safe-advance_partner_status, say_keeps, Safe-detail_now) depth 16

estimate_keeps : (e : RequestEstimate) (t : Tables) → (add_estimate e t).history ≡ t.history
unfolding add_estimate
estimate_keeps e t = refl

Safe-add_estimate_body :
    (env : Env) (p : Principal) (body : EstimateCreate) → Safe (add_estimate_body env p body)
unfolding add_estimate_body
Safe-add_estimate_body env p body = search (safe_rules, estimate_keeps) depth 16

pub respond-IsSound :
    (env : Env) (p : Principal) (policy : SlaPolicy) (id : Uuid) (status : String)
    (message : Option String) (db : Db)
    → IsSound db
    → IsSound (respond env p policy id status message db).1
unfolding respond get_visible
respond-IsSound env p policy id status message db =
    handle-IsSound _ (is_visible p id) db (Safe-respond_body env p policy status message)

pub offer_estimate-IsSound :
    (env : Env) (p : Principal) (id : Uuid) (body : EstimateCreate) (db : Db)
    → IsSound db
    → IsSound (offer_estimate env p id body db).1
unfolding offer_estimate get_visible
offer_estimate-IsSound env p id body db =
    handle-IsSound _ (is_visible p id) db (Safe-add_estimate_body env p body)
