-- ===== src/Channels/Dispatch/First.antt =====
-- Which route gets the request, and what becomes of it.
use kb_partners.Prelude.{
  ℕ, ◌+◌, Bool, true, false, ◌≡◌, refl, Option, none, some, List, [], ◌∷◌, is_some, if◌then◌else◌,
  Result, ok, err, Effect, continue, pure, get, modify, ◌>>=◌, ◌>>◌, ◌⊎◌, inl, inr,
}
use kb_partners.Config.{Env}
use kb_partners.Sla.Engine.{SlaPolicy, set_accept_deadline}
use kb_partners.Requests.Enums.{failed_dispatch}
use kb_partners.Requests.Models.{ServiceRequest, DispatchAttempt, Sla}
use kb_partners.Requests.Store.{Work, set_request}
use kb_partners.Requests.Lifecycle.Ends.{
  Ends, Keeps, Ends-first, Ends-set_request, Ends-apply_transition, Keeps-set_request, Keeps-raise,
  keeps_rules,
}
use kb_partners.Requests.Lifecycle.{apply_transition}
use kb_partners.Channels.{PartnerChannelConfig, DeliveryResult}
use kb_partners.Channels.Resolver.{ChannelResolver}
use kb_partners.Channels.Dispatch.{
  is_success, attempt_delivery, attempt_row, count_attempts, conclude, accept_from, put_accept_sla,
  execute_dispatch, dispatch_principal, Chosen, Progress,
}
use kb_partners.Channels.Dispatch.Tour.{
  Route, routes_of, choice, Walk, stopped, passed, step, walk, with_attempts,
}
use kb_partners.Channels.Dispatch.Walks.{tour, partners_of, execute_dispatch-walk}

module _ (resolver : ChannelResolver) (r : ServiceRequest) where
  -- The attempt with the number `n` on a route was answered, with success or not.
  abbrev pub Answers : Bool → Route → ℕ → Type 0
  Answers success route n =
      (result : DeliveryResult) × (attempt_delivery resolver r route.config n ≡ ok result)
      × (is_success result.outcome ≡ success)

  -- No route took the request, in attempts numbered after `n`.
  abbrev pub AllRefuse : ℕ → List Route → Type 0
  AllRefuse n [] = Unit
  AllRefuse n (route ∷ rest) = Answers false route (n + 1) × AllRefuse (n + 1) rest

  -- The first route that took the request is the chosen one.
  abbrev pub FirstTaker : ℕ → List Route → Chosen → Type 0
  FirstTaker n [] chosen = ⊥
  FirstTaker n (route ∷ rest) chosen =
      (Answers true route (n + 1) × (chosen ≡ choice route))
      ⊎ (Answers false route (n + 1) × FirstTaker (n + 1) rest chosen)

  abbrev EndOf : ℕ → List Route → Option Chosen → Type 0
  EndOf n routes none = AllRefuse n routes
  EndOf n routes (some chosen) = FirstTaker n routes chosen

  abbrev Ended : ℕ → List Route → Result Progress → Type 0
  Ended n routes (err p) = Unit
  Ended n routes (ok progress) = EndOf n routes progress.chosen

  refused_first :
      (route : Route) (n : ℕ) (routes : List Route) (end : Result Progress)
      → Answers false route (n + 1)
      → Ended (n + 1) routes end
      → Ended n (route ∷ routes) end
  refused_first route n routes (err p) refusal h = tt
  refused_first route n routes (ok progress) refusal h = by_choice progress.chosen h
    where
      by_choice :
          (chosen : Option Chosen) → EndOf (n + 1) routes chosen → EndOf n (route ∷ routes) chosen
      by_choice none h = (refusal, h)
      by_choice (some chosen) h = inr (refusal, h)

  module _ (env : Env) where
    step-Ended :
        (route : Route) (n : ℕ) (routes : List Route) (rest : Walk) (result : Result DeliveryResult)
        → attempt_delivery resolver r route.config (n + 1) ≡ result
        → Ended (n + 1) routes rest.end
        → Ended n (route ∷ routes) (step env resolver r route (n + 1) result rest).end
    step-Ended route n routes rest (err p) e h = tt
    step-Ended route n routes rest (ok result) e h = by_success (is_success result.outcome) refl
      where
        by_success :
            (success : Bool)
            → is_success result.outcome ≡ success
            → let row = attempt_row env r route.config (n + 1) result in
              Ended n
                (route ∷ routes)
                (if success then stopped route (n + 1) row else passed row rest).end
        by_success true s = inl ((result, e, s), refl)
        by_success false s = refused_first route n routes rest.end (result, e, s) h

    walk-Ended : (routes : List Route) (n : ℕ) → Ended n routes (walk env resolver r routes n).end
    unfolding walk
    walk-Ended [] n = tt
    walk-Ended (route ∷ rest) n =
        step-Ended route n rest (walk env resolver r rest (n + 1))
          (attempt_delivery resolver r route.config (n + 1)) refl (walk-Ended rest (n + 1))

-- The request is with the partner and the channel of the choice.
pub record IsPlaced (chosen : Chosen) (r : ServiceRequest) : Type 0 where
  pub partner_id : r.partner_id ≡ some chosen.partner
  pub delivery_channel : r.delivery_channel ≡ some chosen.channel

Keeps-accept_from :
    (chosen : Chosen) (policy : SlaPolicy) (sla : Option Sla) (at : Option ℕ)
    → Keeps (IsPlaced chosen) (accept_from policy sla at)
unfolding accept_from
Keeps-accept_from chosen policy sla none = Keeps-raise _
Keeps-accept_from chosen policy sla (some at) = put (set_accept_deadline policy sla at)
  where
    put : (end : Result Sla) → Keeps (IsPlaced chosen) (put_accept_sla end at)
    put (err p) = Keeps-raise p
    put (ok placed) =
        Keeps-set_request _
          (λ r h. record { partner_id = h.partner_id; delivery_channel = h.delivery_channel })

Ends-conclude :
    (env : Env) (policy : SlaPolicy) (chosen : Chosen)
    → Ends (IsPlaced chosen) (conclude env policy (some chosen))
unfolding conclude
Ends-conclude env policy chosen =
    Ends-first _ _ (Ends-set_request _ (λ r. record { partner_id = refl; delivery_channel = refl }))
      (λ _. search (keeps_rules, Keeps-accept_from) depth 12)

Ends-conclude_nothing :
    (env : Env) (policy : SlaPolicy)
    → Ends (λ r. r.status ≡ failed_dispatch) (conclude env policy none)
unfolding conclude
Ends-conclude_nothing env policy =
    Ends-first _ _ (Ends-apply_transition env dispatch_principal failed_dispatch)
      (λ _. search keeps_rules)

-- A sequence that ends in `pure b` returns nothing else.
returned :
    (m : Effect Work Unit) (b delivered : Bool) (w : Work)
    → ((m >> pure b) w).0 ≡ ok delivered
    → b ≡ delivered
unfolding ◌>>=◌ pure
returned m b delivered w h = onward (m w).0 (m w).1 h
  where
    onward :
        (end : Result Unit) (u : Work)
        → (continue end (λ _. pure b) u).0 ≡ ok delivered
        → b ≡ delivered
    onward (ok x) u e = cc
    onward (err p) u e = cc

conclude-value :
    (env : Env) (policy : SlaPolicy) (chosen : Option Chosen) (w : Work) (delivered : Bool)
    → (conclude env policy chosen w).0 ≡ ok delivered
    → is_some chosen ≡ delivered
unfolding conclude ◌>>=◌ set_request modify get
conclude-value env policy none w delivered h =
    returned (apply_transition env dispatch_principal failed_dispatch) false delivered w h
conclude-value env policy (some chosen) w delivered h =
    returned (accept_from policy w.request.sla w.request.dispatched_at) true delivered
      (record w {
        request = record w.request {
          partner_id = some chosen.partner;
          delivery_channel = some chosen.channel;
        };
      })
      h

-- What the answer of `execute_dispatch` says, of the request before and after.
abbrev pub IsAnswer :
    ChannelResolver → ServiceRequest → ℕ → List Route → Bool → ServiceRequest → Type 0
IsAnswer resolver r n routes true after =
    (chosen : Chosen) × FirstTaker resolver r n routes chosen × IsPlaced chosen after
IsAnswer resolver r n routes false after =
    AllRefuse resolver r n routes × (after.status ≡ failed_dispatch)

conclude-IsAnswer :
    (env : Env) (resolver : ChannelResolver) (policy : SlaPolicy) (r : ServiceRequest) (n : ℕ)
    (routes : List Route) (chosen : Option Chosen) (w : Work) (delivered : Bool)
    → EndOf resolver r n routes chosen
    → (conclude env policy chosen w).0 ≡ ok delivered
    → IsAnswer resolver r n routes delivered (conclude env policy chosen w).1.request
conclude-IsAnswer env resolver policy r n routes none w true e h =
    let impossible : false ≡ true = conclude-value env policy none w true h in cc
conclude-IsAnswer env resolver policy r n routes none w false e h =
    (e, (Ends-conclude_nothing env policy).at w false h)
conclude-IsAnswer env resolver policy r n routes (some chosen) w true e h =
    (chosen, e, (Ends-conclude env policy chosen).at w true h)
conclude-IsAnswer env resolver policy r n routes (some chosen) w false e h =
    let impossible : true ≡ false = conclude-value env policy (some chosen) w false h in cc

-- When `execute_dispatch` returns, then either it is true, and the request is with the partner and
-- the channel of the first route that took it, all routes before that having been tried and
-- refused; or it is false, every route was tried and refused, and the request is in
-- FAILED_DISPATCH. The routes are the active channels of the partner, then those of each partner
-- of the chain; the attempts on them are numbered on from those that the request had.
pub execute_dispatch-first :
    (env : Env) (resolver : ChannelResolver) (policy : SlaPolicy)
    (configs : List PartnerChannelConfig) (w : Work) (delivered : Bool)
    → (execute_dispatch env resolver policy configs w).0 ≡ ok delivered
    → IsAnswer resolver w.request
        (count_attempts w.request.id w.tables)
        (routes_of configs (partners_of w.request))
        delivered
        (execute_dispatch env resolver policy configs w).1.request
unfolding tour
execute_dispatch-first env resolver policy configs w delivered h =
    let n = count_attempts w.request.id w.tables in
    let routes = routes_of configs (partners_of w.request) in
    let t = tour env resolver configs w in
    rw (execute_dispatch-walk env resolver policy configs w) (
      onward n routes t.end t.rows (walk-Ended resolver w.request env routes n)
        (rw (execute_dispatch-walk env resolver policy configs w) at h))
  where
    onward :
        (n : ℕ) (routes : List Route) (end : Result Progress) (rows : List DispatchAttempt)
        → Ended resolver w.request n routes end
        → (continue end (λ progress. conclude env policy progress.chosen) (with_attempts rows w)).0
          ≡ ok delivered
        → IsAnswer resolver w.request n routes delivered
            (continue end
              (λ progress. conclude env policy progress.chosen)
              (with_attempts rows w)).1.request
    onward n routes (err p) rows e h = cc
    onward n routes (ok progress) rows e h =
        conclude-IsAnswer env resolver policy w.request n routes progress.chosen
          (with_attempts rows w) delivered e h
