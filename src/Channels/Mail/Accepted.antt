-- ===== src/Channels/Mail/Accepted.antt =====
-- Which letters change anything.
use kb_partners.Prelude.{
  eq_iff, Bool, true, false, String, ◌≡◌, refl, Option, none, some, List, if◌then◌else◌, Result, ok,
  ◌>>=◌, ◌⊎◌, inl, inr,
}
use kb_partners.Config.{Env}
use kb_partners.Json.{str_field}
use kb_partners.Sla.Engine.{SlaPolicy}
use kb_partners.Requests.Models.{ServiceRequest}
use kb_partners.Requests.Store.{Db, open_work, settle}
use kb_partners.Requests.Partner.{advance_partner_status}
use kb_partners.Channels.{PartnerChannelConfig}
use kb_partners.Channels.Inbound.{channel_principal, is_seen}
use kb_partners.Channels.Inbound.Accepted.{SameRows, SameRows-refl, row_taken}
use kb_partners.Channels.Mail.{
  ImapMessage, MailLibraries, parse_status, mail_text, request_by_number, email_config, is_from,
  Ignored, unparseable, no_request, spoof, ignored_text, Screened, ignore, admit, screen_sender,
  screen_request, screen_text, screen, mail_event, accept_mail, take_mail, handle_mail,
}

-- What lets a letter in: it names a request and a status, the request is with a partner, and the
-- address that the partner's e-mail channel holds (the empty text where it holds none) is that of
-- the sender (the empty text where parseaddr reads none), but for the case of letters.
pub record Admitted (lib : MailLibraries) (configs : List PartnerChannelConfig) (m : ImapMessage)
    (db : Db) (config : PartnerChannelConfig) (request : ServiceRequest) (status : String)
    : Type 0 where
  pub number : String
  pub numbered : lib.parse_number (mail_text m) ≡ some number
  pub told : parse_status lib (mail_text m) ≡ some status
  pub found : request_by_number number db ≡ some request
  pub partner : String
  pub placed : request.partner_id ≡ some partner
  pub channel : email_config partner configs ≡ some config
  pub sender :
      lib.lower (str_field lib.repr "email" "" config.config)
      ≡ lib.lower (lib.parse_address m.from_addr)

from_address :
    (lib : MailLibraries) (m : ImapMessage) (config : PartnerChannelConfig)
    → is_from lib config m ≡ true
    → lib.lower (str_field lib.repr "email" "" config.config)
      ≡ lib.lower (lib.parse_address m.from_addr)
unfolding is_from
from_address lib m config h =
    (eq_iff (lib.lower (str_field lib.repr "email" "" config.config))
        (lib.lower (lib.parse_address m.from_addr))).0
      h

module _ (lib : MailLibraries) (configs : List PartnerChannelConfig) (m : ImapMessage)
    (db : Db) where
  abbrev pub Fits : Screened → Type 0
  Fits (ignore why) = Unit
  Fits (admit config request status) = Admitted lib configs m db config request status

  module _ (number status : String) (numbered : lib.parse_number (mail_text m) ≡ some number)
      (told : parse_status lib (mail_text m) ≡ some status) where
    sender-Fits :
        (r : ServiceRequest) (partner : String) (c : Option PartnerChannelConfig)
        → request_by_number number db ≡ some r
        → r.partner_id ≡ some partner
        → email_config partner configs ≡ c
        → Fits (screen_sender lib m r status c)
    unfolding screen_sender
    sender-Fits r partner none found placed channel = tt
    sender-Fits r partner (some config) found placed channel = by_sender (is_from lib config m) refl
      where
        by_sender :
            (b : Bool)
            → is_from lib config m ≡ b
            → Fits (if b then admit config r status else ignore spoof)
        by_sender true sender = record {
          number = number;
          numbered = numbered;
          told = told;
          found = found;
          partner = partner;
          placed = placed;
          channel = channel;
          sender = from_address lib m config sender;
        }
        by_sender false other = tt

    request-Fits :
        (found : Option ServiceRequest)
        → request_by_number number db ≡ found
        → Fits (screen_request lib configs m status found)
    unfolding screen_request
    request-Fits none h = tt
    request-Fits (some r) h = by_partner r.partner_id refl
      where
        by_partner :
            (p : Option String)
            → r.partner_id ≡ p
            → Fits (elim p as (λ _. Screened) [
              | none ↦ ignore no_request
              | some partner ↦ screen_sender lib m r status (email_config partner configs)
            ])
        by_partner none placed = tt
        by_partner (some partner) placed = sender-Fits r partner _ h placed refl

  text-Fits :
      (number status : Option String)
      → lib.parse_number (mail_text m) ≡ number
      → parse_status lib (mail_text m) ≡ status
      → Fits (screen_text lib configs m db number status)
  unfolding screen_text
  text-Fits (some number) (some status) numbered told =
      request-Fits number status numbered told _ refl
  text-Fits (some number) none numbered told = tt
  text-Fits none status numbered told = tt

  pub screen-Fits : Fits (screen lib configs m db)
  unfolding screen
  screen-Fits = text-Fits _ _ refl refl

-- The letter was let in, its identifier was new on the channel, it was answered "ok", and its
-- identifier now counts as seen.
pub record MailTaken (lib : MailLibraries) (configs : List PartnerChannelConfig) (m : ImapMessage)
    (db : Db) (end : Result String × Db) : Type 0 where
  pub config : PartnerChannelConfig
  pub request : ServiceRequest
  pub status : String
  pub admitted : Admitted lib configs m db config request status
  pub fresh : is_seen config.id m.message_id db.events ≡ false
  pub answered : end.0 ≡ ok "ok"
  pub seen : is_seen config.id m.message_id end.1.events ≡ true

abbrev pub MailHandled :
    MailLibraries → List PartnerChannelConfig → ImapMessage → Db → Result String × Db → Type 0
MailHandled lib configs m db end =
    MailTaken lib configs m db end ⊎ (SameRows db end.1 × ¬ (end.0 ≡ ok "ok"))

ignored_other : (why : Ignored) → ¬ (ok (ignored_text why) ≡ ok "ok")
ignored_other unparseable e = cc
ignored_other no_request e = cc
ignored_other spoof e = cc

module _ (env : Env) (policy : SlaPolicy) (lib : MailLibraries)
    (configs : List PartnerChannelConfig) (m : ImapMessage) (db : Db) where
  accept-Handled :
      (config : PartnerChannelConfig) (r : ServiceRequest) (status : String)
      → Admitted lib configs m db config r status
      → is_seen config.id m.message_id db.events ≡ false
      → MailHandled lib configs m db
          (settle (accept_mail env policy config m status (open_work r db)) db)
  unfolding accept_mail ◌>>=◌ mail_event
  accept-Handled config r status admitted fresh =
      let end = advance_partner_status env channel_principal policy status (open_work r db) in
      elim (row_taken {Counted = Unit {0}} (mail_event config m) config.id m.message_id (λ x. refl)
        (λ x. refl) db end.0 end.1 tt) [
          | inl taken ↦ inl (record {
            config = config;
            request = r;
            status = status;
            admitted = admitted;
            fresh = fresh;
            answered = taken.1;
            seen = taken.2;
          })
          | inr other ↦ inr other
        ]

  take-Handled :
      (screened : Screened)
      → Fits lib configs m db screened
      → MailHandled lib configs m db (take_mail env policy m db screened)
  unfolding take_mail
  take-Handled (ignore why) fits = inr (SameRows-refl db, ignored_other why)
  take-Handled (admit config r status) fits =
      by_seen (is_seen config.id m.message_id db.events) refl
    where
      by_seen :
          (b : Bool)
          → is_seen config.id m.message_id db.events ≡ b
          → MailHandled lib configs m db (
              if b
              then (ok "duplicate", db)
              else settle (accept_mail env policy config m status (open_work r db)) db)
      by_seen true h = inr (SameRows-refl db, λ x. cc)
      by_seen false fresh = accept-Handled config r status fits fresh

  -- A letter writes rows only if it names a request and a status, the request is with a partner
  -- that has an e-mail channel, the address in this channel and that of the sender are the same but
  -- for the case of letters, and the identifier of the letter is new on the channel; then it is
  -- answered "ok" and the identifier counts as seen. A channel without an address and a sender that
  -- parseaddr cannot read both count as the empty text here, and so as the same. Every other letter
  -- changes none of the requests, their journal, messages, estimates, outbox and inbound events.
  pub handle_mail-Handled : MailHandled lib configs m db (handle_mail env policy lib configs m db)
  unfolding handle_mail
  handle_mail-Handled = take-Handled _ (screen-Fits lib configs m db)
