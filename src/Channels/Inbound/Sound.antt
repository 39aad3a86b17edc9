-- ===== src/Channels/Inbound/Sound.antt =====
-- Inbound messages keep the database sound.
use kb_partners.Prelude.{
  Bool, true, false, String, ◌==◌, ◌≡◌, refl, Option, none, some, List, if◌then◌else◌, Result, ok,
  err, find_first-All, arith,
}
use kb_partners.Errors.{not_found, unauthorized}
use kb_partners.Auth.{Uuid}
use kb_partners.Config.{Env}
use kb_partners.Sla.Engine.{SlaPolicy}
use kb_partners.Requests.Models.{ServiceRequest, InboundEvent}
use kb_partners.Requests.Store.{
  Db, Tables, find_request, open_work, settle, add_event, add_message, add_estimate,
}
use kb_partners.Requests.Lifecycle.Safe.{
  Safe, IsSound, Current, settle-IsSound, safe_rules, Safe-pure,
}
use kb_partners.Requests.Service.{draw}
use kb_partners.Requests.Partner.Sound.{Safe-advance_partner_status}
use kb_partners.Channels.{PartnerChannelConfig}
use kb_partners.Channels.Inbound.{
  Libraries, InboundEnvelope, Inbound, advance_if_named, estimate_if_given, message_if_given,
  receive, take_in, is_own, take_in_for, is_seen, dedup, correlate, is_authentic, parse_envelope,
  handle_for, handle_api, config_by_inbound_token,
}

Safe-advance_if_named :
    (env : Env) (policy : SlaPolicy) (status : Option String)
    → Safe (advance_if_named env policy status)
unfolding advance_if_named
Safe-advance_if_named env policy none = Safe-pure tt
Safe-advance_if_named env policy (some status) = Safe-advance_partner_status env _ policy status

estimate_keeps :
    (env : Env) (c : PartnerChannelConfig) (e : InboundEnvelope) (r : ServiceRequest) (t : Tables)
    → (estimate_if_given env c e r t).history ≡ t.history
unfolding estimate_if_given add_estimate
estimate_keeps env c e r t = ground arith

message_keeps :
    (env : Env) (c : PartnerChannelConfig) (text : Option String) (r : ServiceRequest) (t : Tables)
    → (message_if_given env c text r t).history ≡ t.history
unfolding message_if_given draw add_message
message_keeps env c none r t = refl
message_keeps env c (some text) r t = refl

pub event_keeps : (row : InboundEvent) (t : Tables) → (add_event row t).history ≡ t.history
unfolding add_event
event_keeps row t = refl

Safe-take_in :
    (env : Env) (policy : SlaPolicy) (c : PartnerChannelConfig) (e : InboundEnvelope)
    → Safe (take_in env policy c e)
unfolding take_in receive
Safe-take_in env policy c e =
    search (safe_rules, Safe-advance_if_named, estimate_keeps, message_keeps, event_keeps) depth 20

correlate-Current :
    (lib : Libraries) (ref : String) (db : Db) (r : ServiceRequest)
    → IsSound db
    → correlate lib ref db ≡ some r
    → Current db r
unfolding correlate find_request
correlate-Current lib ref db r s = by_id (lib.parse_uuid ref)
  where
    by_id :
        (id : Option Uuid)
        → (elim id as (λ _. Option ServiceRequest) [ none ↦ none | some i ↦ find_request i db ])
          ≡ some r
        → Current db r
    by_id none e = absurd (cc)
    by_id (some i) e = find_first-All (Current db) (λ x. x.id == i) db.requests r s.current e

module _ (env : Env) (policy : SlaPolicy) (lib : Libraries) where
  take_in_for-IsSound :
      (c : PartnerChannelConfig) (e : InboundEnvelope) (found : Option ServiceRequest) (db : Db)
      → IsSound db
      → ((r : ServiceRequest) → found ≡ some r → Current db r)
      → IsSound (take_in_for env policy c e found db).1
  unfolding take_in_for
  take_in_for-IsSound c e none db s now = s
  take_in_for-IsSound c e (some r) db s now = by_owner (is_own c r)
    where
      by_owner :
          (b : Bool)
          → IsSound
              (if b
                then settle (take_in env policy c e (open_work r db)) db
                else (err not_found, db)).1
      by_owner true =
          let end = take_in env policy c e (open_work r db) in
          settle-IsSound db r end.0 end.1 s (now r refl)
            ((Safe-take_in env policy c e).at (open_work r db))
      by_owner false = s

  dedup-IsSound :
      (c : PartnerChannelConfig) (e : Option InboundEnvelope) (db : Db)
      → IsSound db
      → IsSound (dedup env policy lib c e db).1
  unfolding dedup
  dedup-IsSound c none db s = s
  dedup-IsSound c (some e) db s = by_seen (is_seen c.id e.nonce db.events)
    where
      by_seen :
          (b : Bool)
          → IsSound
              (if b
                then (ok "duplicate", db)
                else take_in_for env policy c e (correlate lib e.request_ref db) db).1
      by_seen true = s
      by_seen false =
          take_in_for-IsSound c e (correlate lib e.request_ref db) db s
            (λ r found. correlate-Current lib e.request_ref db r s found)

  handle_for-IsSound :
      (m : Inbound) (c : Result (Option PartnerChannelConfig)) (db : Db)
      → IsSound db
      → IsSound (handle_for env policy lib m c db).1
  unfolding handle_for
  handle_for-IsSound m (err problem) db s = s
  handle_for-IsSound m (ok none) db s = s
  handle_for-IsSound m (ok (some c)) db s = by_signature (is_authentic env lib c m)
    where
      by_signature :
          (b : Bool)
          → IsSound
              (if b
                then dedup env policy lib c (parse_envelope lib m.raw_body) db
                else (err unauthorized, db)).1
      by_signature true = dedup-IsSound c (parse_envelope lib m.raw_body) db s
      by_signature false = s

  pub handle_api-IsSound :
      (configs : List PartnerChannelConfig) (m : Inbound) (db : Db)
      → IsSound db
      → IsSound (handle_api env policy lib configs m db).1
  unfolding handle_api
  handle_api-IsSound configs m db =
      handle_for-IsSound m (config_by_inbound_token m.token configs) db
