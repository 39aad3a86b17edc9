-- ===== src/Channels/Mail.antt =====
-- backend/src/api/channels/email_inbound.py and the poll of tasks/actors.py: the letters of partners.
pub mod Accepted
pub mod Sound
use Prim.Native.Char.{code}
use Prim.Native.String.{◌++◌}
use kb_partners.Prelude.{
  ℕ, ◌+◌, Bool, true, false, ◌&&◌, ◌||◌, String, ◌==◌, Option, none, some, List, [], ◌∷◌, eqb,
  find_first, if◌then◌else◌, Result, ok, err, Effect, pure, ◌>>=◌, ◌>>◌,
}
use kb_partners.Config.{Env}
use kb_partners.Json.{Json, str_field}
use kb_partners.Sla.Engine.{SlaPolicy}
use kb_partners.Requests.Models.{ServiceRequest, InboundEvent, ChannelType, email}
use kb_partners.Requests.Store.{Db, Work, open_work, settle, set_tables, add_event}
use kb_partners.Requests.Partner.{advance_partner_status}
use kb_partners.Channels.{PartnerChannelConfig}
use kb_partners.Channels.Inbound.{channel_principal, is_seen}

pub record ImapMessage : Type 0 where
  pub message_id : String
  pub from_addr : String
  pub subject : String
  pub body : String

-- What the letters take from libraries: the first match of `\bRQ-[A-Za-z0-9-]+\b`, `str.lower`,
-- the address that `parseaddr` finds, and the rendering of a value by `str`.
pub record MailLibraries : Type 0 where
  pub parse_number : String → Option String
  pub lower : String → String
  pub parse_address : String → String
  pub repr : Json → String

unfoldable pub starts_with : (keyword : String) → String → Bool
starts_with String.[] s = true
starts_with (String.◌∷◌ k keyword) String.[] = false
starts_with (String.◌∷◌ k keyword) (String.◌∷◌ c s) = eqb (code k) (code c) && starts_with keyword s

-- `keyword in s`
unfoldable pub is_in : (keyword : String) → String → Bool
unfolding starts_with
is_in keyword String.[] = starts_with keyword ""
is_in keyword (String.◌∷◌ c s) = starts_with keyword (String.◌∷◌ c s) || is_in keyword s

-- `_STATUS_KEYWORDS`
abbrev pub status_keywords : List (String × String)
status_keywords =
    ("отклон", "rejected")
    ∷ ("отказ", "rejected")
    ∷ ("reject", "rejected")
    ∷ ("выполн", "done")
    ∷ ("заверш", "done")
    ∷ ("готов", "done")
    ∷ ("done", "done")
    ∷ ("в работ", "in_progress")
    ∷ ("приступ", "in_progress")
    ∷ ("progress", "in_progress")
    ∷ ("приня", "accepted")
    ∷ ("принят", "accepted")
    ∷ ("accept", "accepted")
    ∷ []

unfoldable pub first_keyword : List (String × String) → (lowered : String) → Option String
unfolding is_in
first_keyword [] lowered = none
first_keyword ((keyword, status) ∷ rest) lowered =
    if is_in keyword lowered then some status else first_keyword rest lowered

unfoldable pub parse_status : MailLibraries → String → Option String
unfolding first_keyword
parse_status lib s = first_keyword status_keywords (lib.lower s)

unfoldable pub mail_text : ImapMessage → String
mail_text m = m.subject ++ "\n" ++ m.body

-- `_request_by_number`
unfoldable pub request_by_number : String → Db → Option ServiceRequest
request_by_number number db = find_first (λ r. r.number == number) db.requests

abbrev pub is_email : ChannelType → Bool
is_email email = true
is_email _ = false

-- `_email_config`: the first of the partner's e-mail channels, an inactive one too.
unfoldable pub email_config : String → List PartnerChannelConfig → Option PartnerChannelConfig
email_config partner = find_first (λ c. c.collaborator_id == partner && is_email c.channel_type)

-- The letter comes from the address of the channel.
unfoldable pub is_from : MailLibraries → PartnerChannelConfig → ImapMessage → Bool
unfolding str_field
is_from lib config m =
    lib.lower (str_field lib.repr "email" "" config.config)
    == lib.lower (lib.parse_address m.from_addr)

-- Why a letter is ignored.
pub data Ignored : Type 0 where
  unparseable no_request spoof : Ignored

abbrev pub ignored_text : Ignored → String
ignored_text unparseable = "ignored:unparseable"
ignored_text no_request = "ignored:no_request"
ignored_text spoof = "ignored:spoof"

-- What the checks of a letter come to.
pub data Screened : Type 0 where
  ignore : Ignored → Screened
  admit : PartnerChannelConfig → ServiceRequest → (status : String) → Screened

unfoldable pub screen_sender :
    MailLibraries
    → ImapMessage
    → ServiceRequest
    → (status : String) → Option PartnerChannelConfig
    → Screened
unfolding is_from
screen_sender lib m r status none = ignore spoof
screen_sender lib m r status (some config) =
    if is_from lib config m then admit config r status else ignore spoof

unfoldable pub screen_request :
    MailLibraries
    → List PartnerChannelConfig
    → ImapMessage
    → (status : String) → Option ServiceRequest
    → Screened
unfolding screen_sender email_config
screen_request lib configs m status none = ignore no_request
screen_request lib configs m status (some r) = elim r.partner_id [
  | none ↦ ignore no_request
  | some partner ↦ screen_sender lib m r status (email_config partner configs)
]

unfoldable pub screen_text :
    MailLibraries
    → List PartnerChannelConfig
    → ImapMessage
    → Db
    → (number status : Option String) → Screened
unfolding screen_request request_by_number
screen_text lib configs m db (some number) (some status) =
    screen_request lib configs m status (request_by_number number db)
screen_text lib configs m db _ _ = ignore unparseable

unfoldable pub screen : MailLibraries → List PartnerChannelConfig → ImapMessage → Db → Screened
unfolding screen_text parse_status mail_text
screen lib configs m db =
    screen_text lib configs m db (lib.parse_number (mail_text m)) (parse_status lib (mail_text m))

unfoldable pub mail_event : PartnerChannelConfig → ImapMessage → ServiceRequest → InboundEvent
mail_event config m r = record {
  channel_config_id = config.id;
  nonce = m.message_id;
  request_id = some r.id;
}

unfoldable pub accept_mail :
    Env → SlaPolicy → PartnerChannelConfig → ImapMessage → (status : String) → Effect Work String
unfolding advance_partner_status mail_event
accept_mail env policy config m status = do
  advance_partner_status env channel_principal policy status
  set_tables (λ r. add_event (mail_event config m r))
  pure "ok"

unfoldable pub take_mail : Env → SlaPolicy → ImapMessage → Db → Screened → Result String × Db
unfolding is_seen accept_mail settle open_work
take_mail env policy m db (ignore why) = (ok (ignored_text why), db)
take_mail env policy m db (admit config r status) =
    if is_seen config.id m.message_id db.events
    then (ok "duplicate", db)
    else settle (accept_mail env policy config m status (open_work r db)) db

-- `EmailInboundService.handle`
unfoldable pub handle_mail :
    Env
    → SlaPolicy
    → MailLibraries
    → List PartnerChannelConfig
    → ImapMessage
    → Db
    → Result String × Db
unfolding take_mail screen
handle_mail env policy lib configs m db = take_mail env policy m db (screen lib configs m db)

-- The letters after one, or its exception.
abbrev pub next_letter : Result String × Db → Result ℕ × Db → Result ℕ × Db
next_letter (err p, after) rest = (err p, after)
next_letter (ok outcome, after) (ok processed, end) = (ok (processed + 1), end)
next_letter (ok outcome, after) (err p, end) = (err p, end)

-- `_poll_email_inbound`: a session for each letter; an exception ends the poll.
unfoldable pub poll_email_inbound :
    Env
    → SlaPolicy
    → MailLibraries
    → List PartnerChannelConfig
    → List ImapMessage
    → Db
    → Result ℕ × Db
unfolding handle_mail
poll_email_inbound env policy lib configs [] db = (ok 0, db)
poll_email_inbound env policy lib configs (m ∷ letters) db =
    let first = handle_mail env policy lib configs m db in
    next_letter first (poll_email_inbound env policy lib configs letters first.1)
