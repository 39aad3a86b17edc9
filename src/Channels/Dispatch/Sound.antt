-- ===== src/Channels/Dispatch/Sound.antt =====
-- `execute_dispatch` respects the journal.
use kb_partners.Prelude.{
  ℕ, ◌+◌, of_result, Effect, pure, raise, String, ◌≡◌, refl, Option, none, some, List, [], ◌∷◌,
  Result, ok, err,
}
use kb_partners.Config.{Env}
use kb_partners.Sla.Engine.{SlaPolicy}
use kb_partners.Requests.Models.{DispatchAttempt, Sla}
use kb_partners.Requests.Store.{Tables, Work, add_attempt}
use kb_partners.Requests.Lifecycle.Safe.{
  Safe, safe_rules, Safe-raise, Safe-bind, Safe-pure, Safe-set_request,
}
use kb_partners.Channels.{PartnerChannelConfig}
use kb_partners.Channels.Resolver.{ChannelResolver}
use kb_partners.Channels.Dispatch.{
  put_accept_sla, accept_from, conclude, try_channels, try_partners, execute_dispatch, Chosen,
  Progress,
}

attempt_keeps : (row : DispatchAttempt) (t : Tables) → (add_attempt row t).history ≡ t.history
unfolding add_attempt
attempt_keeps row t = refl

Safe-of_result : {A : Type 0} (end : Result A) → Safe (of_result end)
unfolding of_result pure raise
Safe-of_result (ok a) = Safe-pure a
Safe-of_result (err p) = Safe-raise p

Safe-put_accept_sla : (sla : Result Sla) (at : ℕ) → Safe (put_accept_sla sla at)
unfolding put_accept_sla
Safe-put_accept_sla (err p) at = Safe-raise p
Safe-put_accept_sla (ok sla) at = Safe-set_request _ (λ r. (refl, refl))

Safe-accept_from :
    (policy : SlaPolicy) (sla : Option Sla) (at : Option ℕ) → Safe (accept_from policy sla at)
unfolding accept_from
Safe-accept_from policy sla none = search safe_rules
Safe-accept_from policy sla (some at) = Safe-put_accept_sla _ at

Safe-conclude :
    (env : Env) (policy : SlaPolicy) (chosen : Option Chosen) → Safe (conclude env policy chosen)
unfolding conclude
Safe-conclude env policy none = search safe_rules depth 12
Safe-conclude env policy (some chosen) = search (safe_rules, Safe-accept_from) depth 12

-- A choice ends the loop, and otherwise it goes on.
Safe-or_on :
    (progress : Progress) (chosen : Option Chosen) (next : ℕ → Effect Work Progress)
    → ((n : ℕ) → Safe (next n))
    → Safe (elim chosen as (λ _. Effect Work Progress) [
      | none ↦ next progress.attempt_no
      | some chosen ↦ pure progress
    ])
Safe-or_on progress none next h = h progress.attempt_no
Safe-or_on progress (some chosen) next h = Safe-pure progress

module _ (env : Env) (resolver : ChannelResolver) where
  Safe-try_channels :
      (partner : String) (configs : List PartnerChannelConfig) (n : ℕ)
      → Safe (try_channels env resolver partner configs n)
  unfolding try_channels
  Safe-try_channels partner [] n = search safe_rules
  Safe-try_channels partner (config ∷ rest) n =
      let others = Safe-try_channels partner rest (n + 1) in
      search (safe_rules, Safe-of_result, attempt_keeps) depth 16

  Safe-try_partners :
      (configs : List PartnerChannelConfig) (partners : List (Option String)) (n : ℕ)
      → Safe (try_partners env resolver configs partners n)
  unfolding try_partners
  Safe-try_partners configs [] n = search safe_rules
  Safe-try_partners configs (none ∷ rest) n = Safe-try_partners configs rest n
  Safe-try_partners configs (some partner ∷ rest) n =
      Safe-bind _ _ (Safe-try_channels partner _ n) (λ progress.
        Safe-or_on progress progress.chosen (try_partners env resolver configs rest)
          (Safe-try_partners configs rest))

pub Safe-execute_dispatch :
    (env : Env) (resolver : ChannelResolver) (policy : SlaPolicy)
    (configs : List PartnerChannelConfig)
    → Safe (execute_dispatch env resolver policy configs)
unfolding execute_dispatch
Safe-execute_dispatch env resolver policy configs =
    search (safe_rules, Safe-try_partners, Safe-conclude) depth 12
