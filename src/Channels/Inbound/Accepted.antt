-- ===== src/Channels/Inbound/Accepted.antt =====
-- Which inbound messages change anything, and what a repetition does.
use kb_partners.Prelude.{
  Bool, true, false, String, ◌≡◌, refl, Option, none, some, List, [], ◌∷◌, ◌++◌, if◌then◌else◌,
  Result, ok, err, continue, pure, ◌>>=◌, ◌>>◌, ◌⊎◌, inl, inr, eq_iff, arith, Bool-cases,
}
use kb_partners.Errors.{Problem, not_found, unauthorized}
use kb_partners.Auth.{Uuid}
use kb_partners.Config.{Env}
use kb_partners.Sla.Engine.{SlaPolicy}
use kb_partners.Requests.Models.{ServiceRequest, InboundEvent}
use kb_partners.Requests.Store.{Db, Work, open_work, settle, commit, set_tables, add_event}
use kb_partners.Channels.{PartnerChannelConfig}
use kb_partners.Channels.Inbound.{
  Libraries, InboundEnvelope, Inbound, event_of, receive, take_in, is_own, take_in_for, is_seen,
  dedup, correlate, is_authentic, parse_envelope, handle_for, handle_api, config_by_inbound_token,
}

-- What makes a message count: exactly one channel has its token, the message is fresh and signed with the
-- secret of the channel, it is an envelope, its nonce is new on the channel, and the request that
-- it names is with the partner of the channel.
pub record Counts (env : Env) (lib : Libraries) (configs : List PartnerChannelConfig) (m : Inbound)
    (db : Db) : Type 0 where
  pub config : PartnerChannelConfig
  pub known : config_by_inbound_token m.token configs ≡ ok (some config)
  pub authentic : is_authentic env lib config m ≡ true
  pub envelope : InboundEnvelope
  pub parsed : parse_envelope lib m.raw_body ≡ some envelope
  pub fresh : is_seen config.id envelope.nonce db.events ≡ false
  pub request : ServiceRequest
  pub named : correlate lib envelope.request_ref db ≡ some request
  pub own : is_own config request ≡ true

-- The rows that a message could write.
pub record SameRows (db after : Db) : Type 0 where
  pub requests : after.requests ≡ db.requests
  pub history : after.history ≡ db.history
  pub messages : after.messages ≡ db.messages
  pub estimates : after.estimates ≡ db.estimates
  pub attempts : after.attempts ≡ db.attempts
  pub outbox : after.outbox ≡ db.outbox
  pub events : after.events ≡ db.events

pub SameRows-refl : (db : Db) → SameRows db db
SameRows-refl db = record {
  requests = refl;
  history = refl;
  messages = refl;
  estimates = refl;
  attempts = refl;
  outbox = refl;
  events = refl;
}

is_seen-append :
    (id : Uuid) (nonce : String) (rows : List InboundEvent) (e : InboundEvent)
    → e.channel_config_id ≡ id
    → e.nonce ≡ nonce
    → is_seen id nonce (rows ++ e ∷ []) ≡ true
unfolding is_seen
is_seen-append id nonce [] e same_id same_nonce =
    ground (arith, eq_iff e.channel_config_id id, eq_iff e.nonce nonce)
is_seen-append id nonce (x ∷ rows) e same_id same_nonce =
    ground (arith, is_seen-append id nonce rows e same_id same_nonce)

-- The message was taken in, or it wrote no row and was not answered so.
abbrev pub TakenOr : (Counted : Type 0) → (seen : Db → Bool) → Db → Result String × Db → Type 0
TakenOr Counted seen db (end, after) =
    (Counted × (end ≡ ok "ok") × (seen after ≡ true)) ⊎ (SameRows db after × ¬ (end ≡ ok "ok"))

refused :
    {Counted : Type 0} (seen : Db → Bool) (db : Db) (p : Problem)
    → TakenOr Counted seen db (err p, db)
refused seen db p = inr (SameRows-refl db, λ e. cc)

-- After the work on a request, the row of the message is the last that is written.
pub row_taken :
    {Counted : Type 0} (row : ServiceRequest → InboundEvent) (id : Uuid) (nonce : String)
    → ((r : ServiceRequest) → (row r).channel_config_id ≡ id)
    → ((r : ServiceRequest) → (row r).nonce ≡ nonce)
    → (db : Db) (end : Result (Unit {0})) (w : Work) → Counted
    → TakenOr Counted
        (λ after. is_seen id nonce after.events)
        db
        (settle (continue end (λ _. set_tables (λ r. add_event (row r)) >> pure "ok") w) db)
unfolding settle ◌>>=◌ set_tables add_event commit
row_taken row id nonce same_id same_nonce db (ok u) w counted = inl (
  counted,
  refl,
  is_seen-append id nonce w.tables.events (row w.request) (same_id w.request)
      (same_nonce w.request),
)
row_taken row id nonce same_id same_nonce db (err p) w counted = inr (
  record {
    requests = refl;
    history = refl;
    messages = refl;
    estimates = refl;
    attempts = refl;
    outbox = refl;
    events = refl;
  },
  λ x. cc,
)

module _ (env : Env) (policy : SlaPolicy) (lib : Libraries) where
  module _ (config : PartnerChannelConfig) (e : InboundEnvelope) (db : Db) where
    abbrev seen_in : Db → Bool
    seen_in after = is_seen config.id e.nonce after.events

    taken_for :
        {Counted : Type 0} (found : Option ServiceRequest)
        → ((r : ServiceRequest) → found ≡ some r → is_own config r ≡ true → Counted)
        → TakenOr Counted seen_in db (take_in_for env policy config e found db)
    unfolding take_in_for take_in ◌>>=◌ event_of
    taken_for none counted = refused seen_in db not_found
    taken_for {Counted} (some r) counted = by_owner (is_own config r) refl
      where
        by_owner :
            (b : Bool)
            → is_own config r ≡ b
            → TakenOr Counted seen_in db (
                if b
                then settle (take_in env policy config e (open_work r db)) db
                else (err not_found, db))
        by_owner true own =
            let end = receive env policy config e (open_work r db) in
            row_taken (event_of config e) config.id e.nonce (λ x. refl) (λ x. refl) db end.0 end.1
              (counted r refl own)
        by_owner false own = refused seen_in db not_found

-- The message counted, was answered "ok", and its nonce is now one that was seen.
pub record Taken (env : Env) (lib : Libraries) (configs : List PartnerChannelConfig) (m : Inbound)
    (db : Db) (end : Result String × Db) : Type 0 where
  pub counts : Counts env lib configs m db
  pub answered : end.0 ≡ ok "ok"
  pub seen : is_seen counts.config.id counts.envelope.nonce end.1.events ≡ true

abbrev pub Handled :
    Env → Libraries → List PartnerChannelConfig → Inbound → Db → Result String × Db → Type 0
Handled env lib configs m db end =
    Taken env lib configs m db end ⊎ (SameRows db end.1 × ¬ (end.0 ≡ ok "ok"))

module _ (env : Env) (policy : SlaPolicy) (lib : Libraries) (configs : List PartnerChannelConfig)
    (m : Inbound) (db : Db) where
  abbrev Owned : PartnerChannelConfig → InboundEnvelope → Type 0
  Owned config e =
      (r : ServiceRequest) × (correlate lib e.request_ref db ≡ some r) × (is_own config r ≡ true)

  outcome_of :
      (config : PartnerChannelConfig) (e : InboundEnvelope) (end : Result String × Db)
      → config_by_inbound_token m.token configs ≡ ok (some config)
      → is_authentic env lib config m ≡ true
      → parse_envelope lib m.raw_body ≡ some e
      → is_seen config.id e.nonce db.events ≡ false
      → TakenOr (Owned config e) (λ after. is_seen config.id e.nonce after.events) db end
      → Handled env lib configs m db end
  outcome_of config e end known authentic parsed fresh (inl ((r, named, own), answered, seen)) =
      inl (record {
        counts = record {
          config = config;
          known = known;
          authentic = authentic;
          envelope = e;
          parsed = parsed;
          fresh = fresh;
          request = r;
          named = named;
          own = own;
        };
        answered = answered;
        seen = seen;
      })
  outcome_of config e end known authentic parsed fresh (inr same) = inr same

  dedup-Handled :
      (config : PartnerChannelConfig) (found : Option InboundEnvelope)
      → config_by_inbound_token m.token configs ≡ ok (some config)
      → is_authentic env lib config m ≡ true
      → parse_envelope lib m.raw_body ≡ found
      → Handled env lib configs m db (dedup env policy lib config found db)
  unfolding dedup
  dedup-Handled config none known authentic parsed = inr (SameRows-refl db, λ e. cc)
  dedup-Handled config (some e) known authentic parsed =
      by_seen (is_seen config.id e.nonce db.events) refl
    where
      by_seen :
          (b : Bool)
          → is_seen config.id e.nonce db.events ≡ b
          → Handled env lib configs m db (
              if b
              then (ok "duplicate", db)
              else take_in_for env policy config e (correlate lib e.request_ref db) db)
      by_seen true h = inr (SameRows-refl db, λ x. cc)
      by_seen false fresh =
          let request = correlate lib e.request_ref db in
          outcome_of config e (take_in_for env policy config e request db) known authentic parsed
            fresh
            (taken_for env policy lib config e db {Counted = Owned config e} request
              (λ r named own. (r, named, own)))

  handle_for-Handled :
      (found : Result (Option PartnerChannelConfig))
      → config_by_inbound_token m.token configs ≡ found
      → Handled env lib configs m db (handle_for env policy lib m found db)
  unfolding handle_for
  handle_for-Handled (err problem) known = inr (SameRows-refl db, λ e. cc)
  handle_for-Handled (ok none) known = inr (SameRows-refl db, λ e. cc)
  handle_for-Handled (ok (some config)) known = by_signature (is_authentic env lib config m) refl
    where
      by_signature :
          (b : Bool)
          → is_authentic env lib config m ≡ b
          → Handled env lib configs m db (
              if b
              then dedup env policy lib config (parse_envelope lib m.raw_body) db
              else (err unauthorized, db))
      by_signature true authentic =
          dedup-Handled config (parse_envelope lib m.raw_body) known authentic refl
      by_signature false authentic = inr (SameRows-refl db, λ e. cc)

  -- A message writes rows only if exactly one channel has the token, the message is fresh and signed with its
  -- secret, the nonce is new on the channel, and the request is with the partner of the channel;
  -- then it is answered "ok" and the nonce counts as seen. In every other case no row of the
  -- requests, of the tables beside them or of the journal of messages changes.
  pub handle_api-Handled : Handled env lib configs m db (handle_api env policy lib configs m db)
  unfolding handle_api
  handle_api-Handled = handle_for-Handled (config_by_inbound_token m.token configs) refl

-- The same message again, under any signature and timestamp.
repeated :
    (env : Env) (policy : SlaPolicy) (lib : Libraries) (configs : List PartnerChannelConfig)
    (m : Inbound) (db : Db) (config : PartnerChannelConfig) (e : InboundEnvelope)
    → config_by_inbound_token m.token configs ≡ ok (some config)
    → parse_envelope lib m.raw_body ≡ some e
    → is_seen config.id e.nonce db.events ≡ true
    → (handle_api env policy lib configs m db ≡ (ok "duplicate", db))
      ⊎ (handle_api env policy lib configs m db ≡ (err unauthorized, db))
unfolding handle_api handle_for dedup
repeated env policy lib configs m db config e known parsed seen =
    elim (Bool-cases (is_authentic env lib config m)) [
      | inl authentic ↦ inl (rw (known, authentic, parsed, seen) refl)
      | inr forged ↦ inr (rw (known, forged) refl)
    ]

-- After a message was answered "ok", the same body on the same channel, whenever it comes and
-- however it is signed, is answered as a duplicate or refused, and changes nothing.
pub handle_api-replay :
    (env later : Env) (policy : SlaPolicy) (lib : Libraries) (configs : List PartnerChannelConfig)
    (m : Inbound) (signature timestamp : String) (db : Db)
    → (handle_api env policy lib configs m db).0 ≡ ok "ok"
    → let after = (handle_api env policy lib configs m db).1 in
      let again =
        handle_api later policy lib configs
          (record m { signature = signature; timestamp = timestamp })
          after in
      (again ≡ (ok "duplicate", after)) ⊎ (again ≡ (err unauthorized, after))
handle_api-replay env later policy lib configs m signature timestamp db answered =
    elim (handle_api-Handled env policy lib configs m db) [
      | inl taken ↦
          repeated later policy lib configs
            (record m { signature = signature; timestamp = timestamp }) _ taken.counts.config
            taken.counts.envelope taken.counts.known taken.counts.parsed taken.seen
      | inr other ↦ absurd (other.1 answered)
    ]
