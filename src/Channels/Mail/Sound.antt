-- ===== src/Channels/Mail/Sound.antt =====
-- Letters keep the database sound.
use kb_partners.Prelude.{
  Bool, true, false, String, ◌==◌, List, [], ◌∷◌, if◌then◌else◌, Result, ok, err, ℕ, find_first-All,
}
use kb_partners.Config.{Env}
use kb_partners.Sla.Engine.{SlaPolicy}
use kb_partners.Requests.Store.{Db, open_work, settle}
use kb_partners.Requests.Lifecycle.Safe.{Safe, IsSound, Current, settle-IsSound, safe_rules}
use kb_partners.Requests.Partner.Sound.{Safe-advance_partner_status}
use kb_partners.Channels.{PartnerChannelConfig}
use kb_partners.Channels.Inbound.{is_seen}
use kb_partners.Channels.Inbound.Sound.{event_keeps}
use kb_partners.Channels.Mail.{
  ImapMessage, MailLibraries, request_by_number, Screened, ignore, admit, accept_mail, take_mail,
  handle_mail, next_letter, poll_email_inbound,
}
use kb_partners.Channels.Mail.Accepted.{Fits, screen-Fits}

Safe-accept_mail :
    (env : Env) (policy : SlaPolicy) (c : PartnerChannelConfig) (m : ImapMessage) (status : String)
    → Safe (accept_mail env policy c m status)
unfolding accept_mail
Safe-accept_mail env policy c m status =
    search (safe_rules, Safe-advance_partner_status, event_keeps) depth 20

module _ (env : Env) (policy : SlaPolicy) (lib : MailLibraries)
    (configs : List PartnerChannelConfig) where
  take_mail-IsSound :
      (m : ImapMessage) (db : Db) (screened : Screened)
      → Fits lib configs m db screened
      → IsSound db
      → IsSound (take_mail env policy m db screened).1
  unfolding take_mail request_by_number
  take_mail-IsSound m db (ignore why) fits s = s
  take_mail-IsSound m db (admit c r status) fits s = by_seen (is_seen c.id m.message_id db.events)
    where
      now : Current db r
      now =
          find_first-All (Current db) (λ x. x.number == fits.number) db.requests r s.current
            fits.found

      by_seen :
          (b : Bool)
          → IsSound
              (if b
                then (ok "duplicate", db)
                else settle (accept_mail env policy c m status (open_work r db)) db).1
      by_seen true = s
      by_seen false =
          let end = accept_mail env policy c m status (open_work r db) in
          settle-IsSound db r end.0 end.1 s now
            ((Safe-accept_mail env policy c m status).at (open_work r db))

  handle_mail-IsSound :
      (m : ImapMessage) (db : Db) → IsSound db → IsSound (handle_mail env policy lib configs m db).1
  unfolding handle_mail
  handle_mail-IsSound m db s = take_mail-IsSound m db _ (screen-Fits lib configs m db) s

  next_letter-IsSound :
      (first : Result String × Db) (rest : Result ℕ × Db)
      → IsSound first.1
      → IsSound rest.1
      → IsSound (next_letter first rest).1
  next_letter-IsSound (err p, after) rest s t = s
  next_letter-IsSound (ok outcome, after) (ok n, end) s t = t
  next_letter-IsSound (ok outcome, after) (err p, end) s t = t

  pub poll_email_inbound-IsSound :
      (letters : List ImapMessage) (db : Db)
      → IsSound db
      → IsSound (poll_email_inbound env policy lib configs letters db).1
  unfolding poll_email_inbound
  poll_email_inbound-IsSound [] db s = s
  poll_email_inbound-IsSound (m ∷ letters) db s =
      let first = handle_mail-IsSound m db s in
      next_letter-IsSound _ _ first (poll_email_inbound-IsSound letters _ first)
