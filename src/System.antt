-- ===== src/System.antt =====
-- The service as a sequence of transactions: the creations of requests and the other requests over
-- HTTP that change one, the inbound messages and letters of partners and the runs of the workers, in
-- any order. Each is taken to end before the next begins. The administration of channels and of
-- push subscriptions touches none of these tables and is no step.
use kb_partners.Prelude.{String, Bool, Option, List, [], ◌∷◌}
use kb_partners.Errors.{Problem}
use kb_partners.Auth.{Principal, Uuid}
use kb_partners.Config.{Env}
use kb_partners.Sla.Engine.{SlaPolicy}
use kb_partners.Requests.Store.{Db}
use kb_partners.Requests.Lifecycle.Safe.{IsSound}
use kb_partners.Requests.Intake.Drafts.{NewRequest, create_request}
use kb_partners.Requests.Intake.Laws.{IsFresh, create_request-IsSound}
use kb_partners.Requests.Calls.{Call, run, run-IsSound}
use kb_partners.Channels.{PartnerChannelConfig}
use kb_partners.Channels.Drain.{DispatchDeps, dispatch, drain_dispatch_batch}
use kb_partners.Channels.Drain.Sound.{dispatch-IsSound, drain_dispatch_batch-IsSound}
use kb_partners.Channels.Inbound.{Inbound, Libraries, handle_api}
use kb_partners.Channels.Inbound.Sound.{handle_api-IsSound}
use kb_partners.Channels.Mail.{ImapMessage, MailLibraries, poll_email_inbound}
use kb_partners.Channels.Mail.Sound.{poll_email_inbound-IsSound}
use kb_partners.Automation.Timers.{scan_accept_timeouts, drain_partner_fallback_batch}
use kb_partners.Automation.Timers.Sound.{
  scan_accept_timeouts-IsSound, drain_partner_fallback_batch-IsSound,
}
use kb_partners.Automation.Pipeline.{AutomationDeps, drain_on_create_batch}
use kb_partners.Automation.Pipeline.Sound.{drain_on_create_batch-IsSound}
use kb_partners.Requests.Models.{OutboxMessage}
use kb_partners.Deliveries.{
  Delivered, NotificationNotice, drain_notification_batch, drain_notification_batch-IsSound,
  drain_webhook_batch, drain_webhook_batch-IsSound, drain_concierge_callback_batch,
  drain_concierge_callback_batch-IsSound,
}
use kb_partners.Retention.{anonymize_expired_raw_input, anonymize_expired_raw_input-IsSound}

-- A transaction, with what the world answers to it.
pub data Step : Type 0 where
  create : (mask : String → String) → (automation_on_create : Bool) → Principal → NewRequest → Step
  http : Call → Step
  order : Principal → DispatchDeps → Uuid → Step
  inbound : SlaPolicy → Libraries → List PartnerChannelConfig → Inbound → Step
  mail_poll : SlaPolicy → MailLibraries → List PartnerChannelConfig → List ImapMessage → Step
  dispatch_worker : (Problem → String) → DispatchDeps → Step
  fallback_worker : (Problem → String) → DispatchDeps → Step
  on_create_worker : (Problem → String) → AutomationDeps → Step
  webhook_worker : (OutboxMessage → Delivered) → Step
  callback_worker : (OutboxMessage → Delivered) → Step
  notification_worker :
      (parse_uuid : String → Option Uuid) → (send : NotificationNotice → Delivered) → Step
  deadline_scan : DispatchDeps → Step
  retention : Step

unfoldable pub take_step : Env → Step → Db → Db
take_step env (create mask automation p body) db = (create_request env mask automation p body db).1
take_step env (http call) db = run (call ∷ []) db
take_step env (order p d id) db = (dispatch env p d id db).1
take_step env (inbound policy lib configs m) db = (handle_api env policy lib configs m db).1
take_step env (mail_poll policy lib configs letters) db =
    (poll_email_inbound env policy lib configs letters db).1
take_step env (dispatch_worker error_text d) db = (drain_dispatch_batch env error_text d db).1
take_step env (fallback_worker error_text d) db =
    (drain_partner_fallback_batch env error_text d db).1
take_step env (on_create_worker error_text deps) db =
    (drain_on_create_batch env error_text deps db).1
take_step env (webhook_worker deliver) db = (drain_webhook_batch env deliver db).1
take_step env (callback_worker deliver) db = (drain_concierge_callback_batch env deliver db).1
take_step env (notification_worker parse_uuid send) db =
    (drain_notification_batch env parse_uuid send db).1
take_step env (deadline_scan d) db = (scan_accept_timeouts env d db).1
take_step env retention db = (anonymize_expired_raw_input env db).1

-- Each step with its own clock and identifiers.
unfoldable pub take_steps : List (Env × Step) → Db → Db
unfolding take_step
take_steps [] db = db
take_steps ((env, step) ∷ steps) db = take_steps steps (take_step env step db)

-- What a step asks of its environment: a creation draws an identifier that no request has.
abbrev pub DrawsFresh : Env → Step → Db → Type 0
DrawsFresh env (create mask automation p body) db = IsFresh env db
DrawsFresh env _ db = Unit

abbrev pub AllFresh : List (Env × Step) → Db → Type 0
AllFresh [] db = Unit
AllFresh ((env, step) ∷ steps) db = DrawsFresh env step db × AllFresh steps (take_step env step db)

take_step-IsSound :
    (env : Env) (step : Step) (db : Db)
    → DrawsFresh env step db
    → IsSound db
    → IsSound (take_step env step db)
unfolding take_step
take_step-IsSound env (create mask automation p body) db fresh s =
    create_request-IsSound env mask automation p body db fresh s
take_step-IsSound env (http call) db fresh s = run-IsSound (call ∷ []) db s
take_step-IsSound env (order p d id) db fresh s = dispatch-IsSound env p d id db s
take_step-IsSound env (inbound policy lib configs m) db fresh s =
    handle_api-IsSound env policy lib configs m db s
take_step-IsSound env (mail_poll policy lib configs letters) db fresh s =
    poll_email_inbound-IsSound env policy lib configs letters db s
take_step-IsSound env (dispatch_worker error_text d) db fresh s =
    drain_dispatch_batch-IsSound env error_text d db s
take_step-IsSound env (fallback_worker error_text d) db fresh s =
    drain_partner_fallback_batch-IsSound env error_text d db s
take_step-IsSound env (on_create_worker error_text deps) db fresh s =
    drain_on_create_batch-IsSound env error_text deps db s
take_step-IsSound env (webhook_worker deliver) db fresh s =
    drain_webhook_batch-IsSound env deliver db s
take_step-IsSound env (callback_worker deliver) db fresh s =
    drain_concierge_callback_batch-IsSound env deliver db s
take_step-IsSound env (notification_worker parse_uuid send) db fresh s =
    drain_notification_batch-IsSound env parse_uuid send db s
take_step-IsSound env (deadline_scan d) db fresh s = scan_accept_timeouts-IsSound env d db s
take_step-IsSound env retention db fresh s = anonymize_expired_raw_input-IsSound env db s

-- Through every sequence of creations of requests, calls of the other endpoints that change one,
-- inbound messages, letters and runs of the workers, whatever the channels and neighbours answer
-- and however each ends, the journal tells the status of every request, from its creation on, and
-- every change of status that it holds is allowed by the table of transitions, if this was so
-- before and each creation draws an identifier that no request has.
pub take_steps-IsSound :
    (steps : List (Env × Step)) (db : Db)
    → AllFresh steps db
    → IsSound db
    → IsSound (take_steps steps db)
unfolding take_steps
take_steps-IsSound [] db fresh s = s
take_steps-IsSound ((env, step) ∷ steps) db fresh s =
    take_steps-IsSound steps _ fresh.1 (take_step-IsSound env step db fresh.0 s)
