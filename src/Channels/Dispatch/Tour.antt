-- ===== src/Channels/Dispatch/Tour.antt =====
-- The two loops of `execute_dispatch` as one walk along the routes (a partner and a channel of it).
use kb_partners.Prelude.{
  ℕ, ◌+◌, String, Option, none, some, List, [], ◌∷◌, ◌++◌, map, if◌then◌else◌, Result, ok, err,
}
use kb_partners.Config.{Env}
use kb_partners.Requests.Models.{ServiceRequest, DispatchAttempt}
use kb_partners.Requests.Store.{Work}
use kb_partners.Channels.{PartnerChannelConfig, DeliveryResult}
use kb_partners.Channels.Resolver.{ChannelResolver}
use kb_partners.Channels.Dispatch.{
  is_success, channel_value, attempt_delivery, attempt_row, Chosen, Progress, active_channels_for,
}

pub record Route : Type 0 where
  pub partner : String
  pub config : PartnerChannelConfig

-- The routes in the order in which they are tried.
unfoldable pub routes_of : List PartnerChannelConfig → List (Option String) → List Route
unfolding active_channels_for
routes_of configs [] = []
routes_of configs (none ∷ rest) = routes_of configs rest
routes_of configs (some partner ∷ rest) =
    map (λ c. record { partner = partner; config = c }) (active_channels_for partner configs)
    ++ routes_of configs rest

abbrev pub choice : Route → Chosen
choice route = record { partner = route.partner; channel = channel_value route.config.channel_type }

-- What a walk leaves: how it ends, and the rows of its attempts.
pub record Walk : Type 0 where
  pub end : Result Progress
  pub rows : List DispatchAttempt

-- The route took the request.
abbrev pub stopped : Route → ℕ → DispatchAttempt → Walk
stopped route n row = record {
  end = ok (record { attempt_no = n; chosen = some (choice route) });
  rows = row ∷ [];
}

-- The route did not; the rest of the walk follows.
abbrev pub passed : DispatchAttempt → Walk → Walk
passed row rest = record { end = rest.end; rows = row ∷ rest.rows }

module _ (env : Env) (resolver : ChannelResolver) (r : ServiceRequest) where
  -- The attempt on a route: the walk ends there with success or an exception, or goes on.
  abbrev pub step : Route → ℕ → Result DeliveryResult → Walk → Walk
  step route n (err p) rest = record { end = err p; rows = [] }
  step route n (ok result) rest =
      let row = attempt_row env r route.config n result in
      if is_success result.outcome then stopped route n row else passed row rest

  -- Along the routes to the first that takes the request, the attempts numbered from `n + 1`.
  unfoldable pub walk : List Route → ℕ → Walk
  unfolding attempt_delivery
  walk [] n = record { end = ok (record { attempt_no = n; chosen = none }); rows = [] }
  walk (route ∷ rest) n =
      let others = walk rest (n + 1) in
      step route (n + 1) (attempt_delivery resolver r route.config (n + 1)) others

-- The rows of a walk, added to the unit of work.
unfoldable pub with_attempts : List DispatchAttempt → Work → Work
with_attempts rows w = record w {
  tables = record w.tables { attempts = w.tables.attempts ++ rows };
}
