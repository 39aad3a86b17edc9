-- ===== src/Channels/Dispatch/Returns.antt =====
-- The deliveries of a request return, when the channels raise nothing and deadlines can be computed.
use kb_partners.Prelude.{
  ℕ, ◌+◌, ◌≤◌, ◌<◌, ◌*◌, ◌≡◌, refl, String, Bool, true, false, Option, none, some, List, [], ◌∷◌,
  or_else, if◌then◌else◌, Result, ok, err, continue, arith,
}
use kb_partners.Errors.{internal}
use kb_partners.Config.{Env}
use kb_partners.Sla.Calendar.{day_in}
use kb_partners.Sla.Calendar.Horizon.{add_business_seconds-total, window}
use kb_partners.Sla.Calendar.Deadline.{HasHours}
use kb_partners.Sla.Engine.{SlaPolicy, set_accept_deadline}
use kb_partners.Requests.Enums.{RequestStatus, Category, dispatched, failed_dispatch}
use kb_partners.Requests.Models.{ServiceRequest, Sla}
use kb_partners.Requests.Fsm.{can_transition}
use kb_partners.Requests.Store.{Work}
use kb_partners.Requests.Lifecycle.{moved}
use kb_partners.Requests.Lifecycle.Leads.{
  Leads, Leads-pure, Leads-bind, Leads-set_request, Leads-get, Leads-apply_transition,
}
use kb_partners.Channels.{
  Delivery, answered, not_implemented, crashed, PartnerChannelConfig, DeliveryPayload,
  DeliveryResult,
}
use kb_partners.Channels.Resolver.{ChannelResolver}
use kb_partners.Channels.Dispatch.{
  is_success, attempt_row, build_payload, attempt_delivery, settle_delivery, payload_in, conclude,
  accept_from, put_accept_sla, execute_dispatch, Chosen, Progress,
}
use kb_partners.Channels.Dispatch.Tour.{Route, Walk, stopped, passed, walk, with_attempts}
use kb_partners.Channels.Dispatch.Walks.{tour, execute_dispatch-walk}

-- The deadlines can be computed: there is a working day, and the hours to accept are within what
-- the search for a deadline reaches.
pub record Computes (policy : SlaPolicy) : Type 0 where
  pub hours : HasHours policy.calendar
  pub day : ℕ
  pub weekday : day < 7
  pub working : day_in day policy.calendar.business_days ≡ true
  pub reach : policy.accept_hours ≤ 260 * window policy.calendar

-- No channel raises anything but `NotImplementedError`.
pub record IsReliable (resolver : ChannelResolver) (policy : SlaPolicy) : Type 0 where
  pub answers : (c : PartnerChannelConfig) (p : DeliveryPayload) → ¬ (resolver c p ≡ crashed)
  pub computes : Computes policy

-- A request on its way to a partner, with a chain of others behind.
pub record InFlight (behind : List String) (r : ServiceRequest) : Type 0 where
  pub status : r.status ≡ dispatched
  pub category : (c : Category) × (r.category ≡ some c)
  pub dispatched_at : (at : ℕ) × (r.dispatched_at ≡ some at)
  pub chain : or_else r.fallback_chain [] ≡ behind

set_accept_deadline-total :
    (policy : SlaPolicy) (sla : Option Sla) (at : ℕ)
    → Computes policy
    → (s : Sla) × (set_accept_deadline policy sla at ≡ ok s)
unfolding set_accept_deadline
set_accept_deadline-total policy sla at c =
    let (deadline, e) =
      add_business_seconds-total policy.calendar c.day at policy.accept_hours c.hours c.weekday
        c.working c.reach in
    rw e (_, refl)

Leads-put_accept_sla :
    (chain : List String) (sla : Sla) (at : ℕ) (w : Work)
    → InFlight chain w.request
    → Leads w (put_accept_sla (ok sla) at) (λ _. InFlight chain)
unfolding put_accept_sla
Leads-put_accept_sla chain sla at w f = Leads-set_request w _ (InFlight chain) (record {
  status = f.status;
  category = f.category;
  dispatched_at = f.dispatched_at;
  chain = f.chain;
})

Leads-accept_from :
    (policy : SlaPolicy) (chain : List String) (sla : Option Sla) (start : Option ℕ) (at : ℕ)
    (w : Work)
    → Computes policy
    → start ≡ some at
    → InFlight chain w.request
    → Leads w (accept_from policy sla start) (λ _. InFlight chain)
unfolding accept_from
Leads-accept_from policy chain sla none at w c e f = absurd (cc)
Leads-accept_from policy chain sla (some start) at w c e f =
    let (s, found) = set_accept_deadline-total policy sla start c in
    rw found (Leads-put_accept_sla chain s start w f)

-- The end of the deliveries: the request is still on its way, or its dispatch failed.
abbrev pub AfterDispatch : List String → Bool → ServiceRequest → Type 0
AfterDispatch chain true r = InFlight chain r
AfterDispatch chain false r = r.status ≡ failed_dispatch

moved-status : (env : Env) (r : ServiceRequest) (t : RequestStatus) → (moved env r t).status ≡ t
unfolding moved
moved-status env r t = ground arith

Leads-conclude :
    (env : Env) (policy : SlaPolicy) (chain : List String) (chosen : Option Chosen) (w : Work)
    → Computes policy
    → InFlight chain w.request
    → Leads w (conclude env policy chosen) (AfterDispatch chain)
unfolding conclude can_transition
Leads-conclude env policy chain none w c f =
    Leads-bind w _ _ (λ _ r. r.status ≡ failed_dispatch) (AfterDispatch chain)
      (Leads-apply_transition env _ failed_dispatch w (λ r. r.status ≡ failed_dispatch)
        (rw f.status refl) (moved-status env w.request failed_dispatch))
      (λ _ u h. Leads-pure u false (AfterDispatch chain) h)
Leads-conclude env policy chain (some chosen) w c f =
    Leads-bind w _ _ (λ _. InFlight chain) (AfterDispatch chain)
      (Leads-set_request w _ (InFlight chain) (record {
        status = f.status;
        category = f.category;
        dispatched_at = f.dispatched_at;
        chain = f.chain;
      }))
      (λ _ u h. Leads-get u _ (AfterDispatch chain) (
        Leads-bind u _ _ (λ _. InFlight chain) (AfterDispatch chain)
          (Leads-accept_from policy chain u.request.sla u.request.dispatched_at h.dispatched_at.0 u
            c h.dispatched_at.1 h)
          (λ _ v g. Leads-pure v true (AfterDispatch chain) g)))

-- The end of a walk along reliable routes.
abbrev Returns : Result Progress → Type 0
Returns end = (progress : Progress) × (end ≡ ok progress)

build_payload-returns :
    (r : ServiceRequest) (n : ℕ) (c : Category)
    → r.category ≡ some c
    → (p : DeliveryPayload) × (build_payload r n ≡ ok p)
unfolding build_payload
build_payload-returns r n c = by_category r.category
  where
    by_category :
        (known : Option Category)
        → known ≡ some c
        → (p : DeliveryPayload) × ((elim known as (λ _. Result DeliveryPayload) [
          | none ↦ err internal
          | some k ↦ ok (payload_in r n k)
        ])
            ≡ ok p)
    by_category none e = absurd (cc)
    by_category (some k) e = (_, refl)

settle_delivery-returns :
    (end : Delivery)
    → ¬ (end ≡ crashed)
    → (result : DeliveryResult) × (settle_delivery end ≡ ok result)
unfolding settle_delivery
settle_delivery-returns (answered result) safe = (result, refl)
settle_delivery-returns not_implemented safe = (_, refl)
settle_delivery-returns crashed safe = absurd (safe refl)

attempt_delivery-returns :
    (resolver : ChannelResolver) (r : ServiceRequest) (config : PartnerChannelConfig) (n : ℕ)
    (c : Category)
    → ((c : PartnerChannelConfig) (p : DeliveryPayload) → ¬ (resolver c p ≡ crashed))
    → r.category ≡ some c
    → (result : DeliveryResult) × (attempt_delivery resolver r config n ≡ ok result)
unfolding attempt_delivery
attempt_delivery-returns resolver r config n c reliable e =
    let (p, built) = build_payload-returns r n c e in
    rw (attempt_delivery, built) (settle_delivery-returns (resolver config p) (reliable config p))

walk-Returns :
    (env : Env) (resolver : ChannelResolver) (r : ServiceRequest) (c : Category)
    (routes : List Route) (n : ℕ)
    → ((c : PartnerChannelConfig) (p : DeliveryPayload) → ¬ (resolver c p ≡ crashed))
    → r.category ≡ some c
    → Returns (walk env resolver r routes n).end
unfolding walk
walk-Returns env resolver r c [] n reliable e = (_, refl)
walk-Returns env resolver r c (route ∷ rest) n reliable e =
    let (result, found) = attempt_delivery-returns resolver r route.config (n + 1) c reliable e in
    rw found (
      by_success (is_success result.outcome) result
        (walk-Returns env resolver r c rest (n + 1) reliable e))
  where
    by_success :
        (success : Bool) (result : DeliveryResult)
        → Returns (walk env resolver r rest (n + 1)).end
        → let row = attempt_row env r route.config (n + 1) result in
          Returns
            (if success
              then stopped route (n + 1) row
              else passed row (walk env resolver r rest (n + 1))).end
    by_success true result h = (_, refl)
    by_success false result h = h

onward-Leads :
    (env : Env) (policy : SlaPolicy) (chain : List String) (t : Walk) (w : Work)
    → Computes policy
    → Returns t.end
    → InFlight chain w.request
    → Leads w
        (λ w.
          continue t.end (λ progress. conclude env policy progress.chosen) (with_attempts t.rows w))
        (AfterDispatch chain)
unfolding with_attempts
onward-Leads env policy chain t w c (progress, e) f =
    let done = Leads-conclude env policy chain progress.chosen (with_attempts t.rows w) c f in
    rw e (record { result = done.result; returns = done.returns; holds = done.holds })

-- The deliveries of a request on its way return.
pub Leads-execute_dispatch :
    (env : Env) (resolver : ChannelResolver) (policy : SlaPolicy)
    (configs : List PartnerChannelConfig) (chain : List String) (w : Work)
    → IsReliable resolver policy
    → InFlight chain w.request
    → Leads w (execute_dispatch env resolver policy configs) (AfterDispatch chain)
unfolding tour
Leads-execute_dispatch env resolver policy configs chain w reliable f =
    let t = tour env resolver configs w in
    let (c, e) = f.category in
    let done =
      onward-Leads env policy chain t w reliable.computes
        (walk-Returns env resolver w.request c _ _ reliable.answers e) f in
    let same = execute_dispatch-walk env resolver policy configs w in
    record { result = done.result; returns = rw same done.returns; holds = rw same done.holds }
