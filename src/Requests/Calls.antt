-- ===== src/Requests/Calls.antt =====
-- The requests over HTTP that change a request that is there or add rows to it, as one type, and
-- runs of them; the creation of requests and the order to dispatch, which takes two transactions,
-- are steps of System. Each
-- is a transaction: those that change the request hold its row until the commit, and the others
-- (messages and estimates) only add rows, so that they are taken to follow one another.
use kb_partners.Prelude.{ℕ, Bool, String, Option, List, [], ◌∷◌}
use kb_partners.Auth.{Principal, Uuid}
use kb_partners.Config.{Env}
use kb_partners.Sla.Engine.{from_settings}
use kb_partners.Requests.Enums.{RequestStatus}
use kb_partners.Requests.Store.{Db}
use kb_partners.Requests.Lifecycle.Safe.{IsSound}
use kb_partners.Requests.Service.{
  transition, cancel, reschedule, post_message, Moment, MessageCreate,
}
use kb_partners.Requests.Service.Sound.{
  transition-IsSound, cancel-IsSound, reschedule-IsSound, post_message-IsSound,
}
use kb_partners.Requests.Classify.{Outcome, classify, classify-IsSound}
use kb_partners.Requests.Assign.{Platform, AssignRequest, assign}
use kb_partners.Requests.Assign.Sound.{assign-IsSound}
use kb_partners.Requests.Acceptance.{
  Contours, SettlementRef, accept, confirm_settlement, open_dispute, accept-IsSound,
  confirm_settlement-IsSound, open_dispute-IsSound,
}
use kb_partners.Requests.Partner.{respond, offer_estimate, EstimateCreate}
use kb_partners.Requests.Partner.Sound.{respond-IsSound, offer_estimate-IsSound}

-- The endpoints, with what the neighbours answer to each.
pub data Endpoint : Type 0 where
  to_transition : RequestStatus → Endpoint
  to_cancel : (reason : String) → Endpoint
  to_reschedule : Moment → Endpoint
  to_message : MessageCreate → Endpoint
  to_classify : (threshold : ℕ) → (engine : String → Outcome) → Endpoint
  to_assign : Platform → (require_service_order : Bool) → AssignRequest → Endpoint
  to_accept : Contours → Endpoint
  to_settle : SettlementRef → Endpoint
  to_dispute : Contours → (reason : String) → Endpoint
  to_respond : (status : String) → (message : Option String) → Endpoint
  to_estimate : EstimateCreate → Endpoint

-- A call by a subject, in its environment, on a request.
pub record Call : Type 0 where
  pub env : Env
  pub principal : Principal
  pub request_id : Uuid
  pub endpoint : Endpoint

unfoldable pub serve : Env → Principal → Uuid → Endpoint → Db → Db
serve env p id (to_transition target) db = (transition env p id target db).1
serve env p id (to_cancel reason) db = (cancel env p id reason db).1
serve env p id (to_reschedule moment) db = (reschedule env p id moment db).1
serve env p id (to_message body) db = (post_message env p id body db).1
serve env p id (to_classify threshold engine) db = (classify env p threshold engine id db).1
serve env p id (to_assign platform required body) db = (assign env p platform required id body db).1
serve env p id (to_accept c) db = (accept env p c id db).1
serve env p id (to_settle body) db = (confirm_settlement env p id body db).1
serve env p id (to_dispute c reason) db = (open_dispute env p c id reason db).1
serve env p id (to_respond status message) db =
    (respond env p (from_settings env.settings) id status message db).1
serve env p id (to_estimate body) db = (offer_estimate env p id body db).1

unfoldable pub run : List Call → Db → Db
unfolding serve
run [] db = db
run (c ∷ calls) db = run calls (serve c.env c.principal c.request_id c.endpoint db)

serve-IsSound :
    (env : Env) (p : Principal) (id : Uuid) (e : Endpoint) (db : Db)
    → IsSound db
    → IsSound (serve env p id e db)
unfolding serve
serve-IsSound env p id (to_transition target) db = transition-IsSound env p id target db
serve-IsSound env p id (to_cancel reason) db = cancel-IsSound env p id reason db
serve-IsSound env p id (to_reschedule moment) db = reschedule-IsSound env p id moment db
serve-IsSound env p id (to_message body) db = post_message-IsSound env p id body db
serve-IsSound env p id (to_classify threshold engine) db =
    classify-IsSound env p threshold engine id db
serve-IsSound env p id (to_assign platform required body) db =
    assign-IsSound env p platform required id body db
serve-IsSound env p id (to_accept c) db = accept-IsSound env p c id db
serve-IsSound env p id (to_settle body) db = confirm_settlement-IsSound env p id body db
serve-IsSound env p id (to_dispute c reason) db = open_dispute-IsSound env p c id reason db
serve-IsSound env p id (to_respond status message) db =
    respond-IsSound env p (from_settings env.settings) id status message db
serve-IsSound env p id (to_estimate body) db = offer_estimate-IsSound env p id body db

pub run-IsSound : (calls : List Call) (db : Db) → IsSound db → IsSound (run calls db)
unfolding run
run-IsSound [] db s = s
run-IsSound (c ∷ calls) db s =
    run-IsSound calls _ (serve-IsSound c.env c.principal c.request_id c.endpoint db s)
