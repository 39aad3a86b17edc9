-- ===== src/Channels/Dispatch/Walks.antt =====
-- The loops of `execute_dispatch` are the walk along the routes.
use mathlib.Core.List.{append-nil, append_assoc}
use kb_partners.Prelude.{
  or_else, ℕ, ◌+◌, Bool, true, false, ◌≡◌, refl, sym, ap, ◌∙◌, String, Option, none, some, List, [],
  ◌∷◌, ◌++◌, map, if◌then◌else◌, Result, ok, err, Effect, continue, pure, of_result, get, ◌>>=◌,
  ◌>>◌,
}
use kb_partners.Config.{Env}
use kb_partners.Requests.Models.{ServiceRequest, DispatchAttempt}
use kb_partners.Requests.Store.{Work, set_tables, add_attempt}
use kb_partners.Channels.{PartnerChannelConfig, DeliveryResult}
use kb_partners.Channels.Resolver.{ChannelResolver}
use kb_partners.Sla.Engine.{SlaPolicy}
use kb_partners.Channels.Dispatch.{
  count_attempts, conclude, execute_dispatch, is_success, attempt_delivery, attempt_row, Chosen,
  Progress, try_channels, try_partners, active_channels_for,
}
use kb_partners.Channels.Dispatch.Tour.{
  Route, routes_of, choice, Walk, stopped, passed, step, walk, with_attempts,
}

with_attempts-none : (w : Work) → with_attempts [] w ≡ w
unfolding with_attempts
with_attempts-none w = rw (append-nil w.tables.attempts) refl

with_attempts-append :
    (xs ys : List DispatchAttempt) (w : Work)
    → with_attempts ys (with_attempts xs w) ≡ with_attempts (xs ++ ys) w
unfolding with_attempts
with_attempts-append xs ys w = rw (append_assoc w.tables.attempts xs ys) refl

-- The unit of work after a walk, beside its end.
abbrev pub walked : Walk → Work → Result Progress × Work
walked t w = (t.end, with_attempts t.rows w)

module _ (env : Env) (resolver : ChannelResolver) where
  attempt_step :
      (route : Route) (n : ℕ) (w : Work) (others : Effect Work Progress) (rest : Walk)
      (result : DeliveryResult) (success : Bool)
      → ((u : Work) → u.request ≡ w.request → others u ≡ walked rest u)
      → let row = attempt_row env w.request route.config n result in
        let there : Progress = record { attempt_no = n; chosen = some (choice route) } in
        (if success then pure there else others) (with_attempts (row ∷ []) w)
        ≡ walked
            (if success
              then record { end = ok there; rows = row ∷ [] }
              else record { end = rest.end; rows = row ∷ rest.rows })
            w
  unfolding pure with_attempts
  attempt_step route n w others rest result true h = refl
  attempt_step route n w others rest result false h =
      let row = attempt_row env w.request route.config n result in
      h (with_attempts (row ∷ []) w) refl
      ∙ ap (λ u. (rest.end, u)) (with_attempts-append (row ∷ []) rest.rows w)

  -- One attempt of the inner loop.
  attempt-step :
      (route : Route) (n : ℕ) (w : Work) (others : Effect Work Progress) (rest : Walk)
      (result : Result DeliveryResult)
      → ((u : Work) → u.request ≡ w.request → others u ≡ walked rest u)
      → continue result
          (λ answer.
            set_tables (λ r t. add_attempt (attempt_row env r route.config n answer) t)
            >> (if is_success answer.outcome
                then pure (record { attempt_no = n; chosen = some (choice route) })
                else others))
          w
        ≡ walked (step env resolver w.request route n result rest) w
  unfolding ◌>>=◌ set_tables add_attempt with_attempts
  attempt-step route n w others rest (err p) h = ap (λ u. (err p, u)) (sym (with_attempts-none w))
  attempt-step route n w others rest (ok answer) h =
      attempt_step route n w others rest answer (is_success answer.outcome) h

  try_channels-walk :
      (partner : String) (configs : List PartnerChannelConfig) (n : ℕ) (w : Work)
      (r : ServiceRequest)
      → w.request ≡ r
      → try_channels env resolver partner configs n w
        ≡ walked
            (walk env resolver r (map (λ c. record { partner = partner; config = c }) configs) n)
            w
  unfolding try_channels walk ◌>>=◌ pure of_result get
  try_channels-walk partner [] n w r same =
      ap (λ u. (ok (record { attempt_no = n; chosen = none }), u)) (sym (with_attempts-none w))
  try_channels-walk partner (config ∷ rest) n w r same =
      let route : Route = record { partner = partner; config = config } in
      let others =
        walk env resolver r (map (λ c. record { partner = partner; config = c }) rest) (n + 1) in
      attempt-step route (n + 1) w (try_channels env resolver partner rest (n + 1)) others
        (attempt_delivery resolver w.request config (n + 1))
        (λ u e. try_channels-walk partner rest (n + 1) u r (e ∙ same))
      ∙ ap
          (λ q.
            walked
              (step env resolver q route (n + 1) (attempt_delivery resolver q config (n + 1))
                others)
              w)
          same

-- A walk that goes on with another, unless it ends with a choice or an exception.
abbrev follow_choice : Option Chosen → Progress → List DispatchAttempt → (ℕ → Walk) → Walk
follow_choice (some chosen) progress rows next = record { end = ok progress; rows = rows }
follow_choice none progress rows next =
    let rest = next progress.attempt_no in record { end = rest.end; rows = rows ++ rest.rows }

abbrev follow_end : Result Progress → List DispatchAttempt → (ℕ → Walk) → Walk
follow_end (err p) rows next = record { end = err p; rows = rows }
follow_end (ok progress) rows next = follow_choice progress.chosen progress rows next

abbrev follow : Walk → (ℕ → Walk) → Walk
follow t next = follow_end t.end t.rows next

passed-follow :
    (row : DispatchAttempt) (t : Walk) (next : ℕ → Walk)
    → passed row (follow t next) ≡ follow (passed row t) next
passed-follow row t next = by_end t.end
  where
    by_choice :
        (progress : Progress) (chosen : Option Chosen)
        → passed row (follow_choice chosen progress t.rows next)
          ≡ follow_choice chosen progress (row ∷ t.rows) next
    by_choice progress none = refl
    by_choice progress (some chosen) = refl

    by_end :
        (end : Result Progress)
        → passed row (follow_end end t.rows next) ≡ follow_end end (row ∷ t.rows) next
    by_end (err p) = refl
    by_end (ok progress) = by_choice progress progress.chosen

module _ (env : Env) (resolver : ChannelResolver) (r : ServiceRequest) where
  step-follow :
      (route : Route) (n : ℕ) (result : Result DeliveryResult) (t : Walk) (next : ℕ → Walk)
      → step env resolver r route n result (follow t next)
        ≡ follow (step env resolver r route n result t) next
  step-follow route n (err p) t next = refl
  step-follow route n (ok result) t next = by_success (is_success result.outcome)
    where
      row : DispatchAttempt
      row = attempt_row env r route.config n result

      by_success :
          (success : Bool)
          → (if success then stopped route n row else passed row (follow t next))
            ≡ follow (if success then stopped route n row else passed row t) next
      by_success true = refl
      by_success false = passed-follow row t next

  walk-append :
      (xs ys : List Route) (n : ℕ)
      → walk env resolver r (xs ++ ys) n
        ≡ follow (walk env resolver r xs n) (walk env resolver r ys)
  unfolding walk
  walk-append [] ys n = refl
  walk-append (x ∷ xs) ys n =
      let result = attempt_delivery resolver r x.config (n + 1) in
      ap (step env resolver r x (n + 1) result) (walk-append xs ys (n + 1))
      ∙ step-follow x (n + 1) result (walk env resolver r xs (n + 1)) (walk env resolver r ys)

-- What the outer loop does with the end of the inner one.
follow-walked :
    (t : Walk) (rest : ℕ → Effect Work Progress) (next : ℕ → Walk) (w : Work)
    → ((n : ℕ) (u : Work) → u.request ≡ w.request → rest n u ≡ walked (next n) u)
    → continue t.end
        (λ progress. elim progress.chosen [
          | none ↦ rest progress.attempt_no
          | some chosen ↦ pure progress
        ])
        (with_attempts t.rows w)
      ≡ walked (follow t next) w
unfolding pure with_attempts
follow-walked t rest next w h = by_end t.end
  where
    by_choice :
        (progress : Progress) (chosen : Option Chosen)
        → (elim chosen as (λ _. Effect Work Progress) [
          | none ↦ rest progress.attempt_no
          | some chosen ↦ pure progress
        ])
            (with_attempts t.rows w)
          ≡ walked (follow_choice chosen progress t.rows next) w
    by_choice progress (some chosen) = refl
    by_choice progress none =
        let there = next progress.attempt_no in
        h progress.attempt_no (with_attempts t.rows w) (kept t.rows)
        ∙ ap (λ u. (there.end, u)) (with_attempts-append t.rows there.rows w)
      where
        kept : (rows : List DispatchAttempt) → (with_attempts rows w).request ≡ w.request
        kept rows = refl

    by_end :
        (end : Result Progress)
        → continue end
            (λ progress. elim progress.chosen [
              | none ↦ rest progress.attempt_no
              | some chosen ↦ pure progress
            ])
            (with_attempts t.rows w)
          ≡ walked (follow_end end t.rows next) w
    by_end (err p) = refl
    by_end (ok progress) = by_choice progress progress.chosen

module _ (env : Env) (resolver : ChannelResolver) (configs : List PartnerChannelConfig) where
  -- The loops over the partners and their channels end, and add rows, as the walk does.
  pub try_partners-walk :
      (partners : List (Option String)) (n : ℕ) (w : Work) (r : ServiceRequest)
      → w.request ≡ r
      → try_partners env resolver configs partners n w
        ≡ walked (walk env resolver r (routes_of configs partners) n) w
  unfolding try_partners walk routes_of ◌>>=◌ pure
  try_partners-walk [] n w r same =
      ap (λ u. (ok (record { attempt_no = n; chosen = none }), u)) (sym (with_attempts-none w))
  try_partners-walk (none ∷ rest) n w r same = try_partners-walk rest n w r same
  try_partners-walk (some partner ∷ rest) n w r same =
      let here = active_channels_for partner configs in
      rw
        (
          try_channels-walk env resolver partner here n w r same,
          walk-append env resolver r (map (λ c. record { partner = partner; config = c }) here)
              (routes_of configs rest) n,
        )
        (follow-walked
          (walk env resolver r (map (λ c. record { partner = partner; config = c }) here) n)
          (try_partners env resolver configs rest) (walk env resolver r (routes_of configs rest)) w
          (λ m u e. try_partners-walk rest m u r (e ∙ same)))

-- The partners that `execute_dispatch` asks, in this order.
abbrev pub partners_of : ServiceRequest → List (Option String)
partners_of r = r.partner_id ∷ map some (or_else r.fallback_chain [])

-- The walk of `execute_dispatch` on a unit of work.
unfoldable pub tour : Env → ChannelResolver → List PartnerChannelConfig → Work → Walk
tour env resolver configs w =
    walk env resolver w.request (routes_of configs (partners_of w.request))
      (count_attempts w.request.id w.tables)

-- `execute_dispatch`, two nested loops that a success breaks off, is one walk along the routes,
-- which adds the rows of its attempts, and then what the end of the walk calls for.
pub execute_dispatch-walk :
    (env : Env) (resolver : ChannelResolver) (policy : SlaPolicy)
    (configs : List PartnerChannelConfig) (w : Work)
    → execute_dispatch env resolver policy configs w ≡ (
        let t = tour env resolver configs w in
        continue t.end (λ progress. conclude env policy progress.chosen) (with_attempts t.rows w))
unfolding execute_dispatch tour ◌>>=◌
execute_dispatch-walk env resolver policy configs w =
    rw
      (try_partners-walk env resolver configs (partners_of w.request)
        (count_attempts w.request.id w.tables) w w.request refl)
      refl
