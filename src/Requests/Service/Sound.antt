-- ===== src/Requests/Service/Sound.antt =====
-- The handlers of `RequestService` keep the database sound.
use kb_partners.Prelude.{ℕ, Bool, true, false, String, ◌≡◌, refl, Option, if◌then◌else◌}
use kb_partners.Auth.{Principal, Uuid}
use kb_partners.Config.{Env}
use kb_partners.Webhooks.{emit_event}
use kb_partners.Requests.Enums.{RequestStatus}
use kb_partners.Requests.Models.{ServiceRequest, RequestMessage}
use kb_partners.Requests.Store.{Db, Tables, add_message}
use kb_partners.Requests.Access.{get_visible, is_visible}
use kb_partners.Requests.Lifecycle.Emits.{Emits-emit_event}
use kb_partners.Requests.Lifecycle.Safe.{Safe, IsSound, handle-IsSound, safe_rules}
use kb_partners.Requests.Service.{
  detail_now, transition_body, transition, note_field, do_cancel, cancel_body, cancel,
  do_reschedule, reschedule_body, reschedule, Moment, MessageCreate, add_message_body, post_message,
  draw,
}

pub Safe-detail_now : (env : Env) (p : Principal) → Safe (detail_now env p)
unfolding detail_now
Safe-detail_now env p = search safe_rules

Safe-transition_body :
    (env : Env) (p : Principal) (target : RequestStatus) → Safe (transition_body env p target)
unfolding transition_body
Safe-transition_body env p target = search (safe_rules, Safe-detail_now)

pub note_field_keeps :
    (key reason : String) (r : ServiceRequest)
    → ((note_field key reason r).id ≡ r.id) × ((note_field key reason r).status ≡ r.status)
unfolding note_field
note_field_keeps key reason r = (refl, refl)

Safe-do_cancel : (env : Env) (p : Principal) (reason : String) → Safe (do_cancel env p reason)
unfolding do_cancel
Safe-do_cancel env p reason = search (safe_rules, note_field_keeps)

Safe-cancel_body : (env : Env) (p : Principal) (reason : String) → Safe (cancel_body env p reason)
unfolding cancel_body
Safe-cancel_body env p reason = search (safe_rules, Safe-do_cancel, Safe-detail_now)

event_keeps :
    (env : Env) (b : Bool) (id number : String) (s : RequestStatus) (at : Option String)
    (t : Tables)
    → (if b then emit_event env "request.rescheduled" id number s at t else t).history ≡ t.history
event_keeps env true id number s at t = (Emits-emit_event env _ id number s at t).history
event_keeps env false id number s at t = refl

Safe-do_reschedule : (env : Env) (p : Principal) (at : ℕ) → Safe (do_reschedule env p at)
unfolding do_reschedule
Safe-do_reschedule env p at = search (safe_rules, event_keeps)

Safe-reschedule_body :
    (env : Env) (p : Principal) (moment : Moment) → Safe (reschedule_body env p moment)
unfolding reschedule_body
Safe-reschedule_body env p moment =
    search (safe_rules, Safe-do_reschedule, Safe-detail_now) depth 16

message_keeps : (m : RequestMessage) (t : Tables) → (draw (add_message m t)).history ≡ t.history
unfolding draw add_message
message_keeps m t = refl

Safe-add_message_body :
    (env : Env) (p : Principal) (body : MessageCreate) → Safe (add_message_body env p body)
unfolding add_message_body
Safe-add_message_body env p body = search (safe_rules, message_keeps)

pub transition-IsSound :
    (env : Env) (p : Principal) (id : Uuid) (target : RequestStatus) (db : Db)
    → IsSound db
    → IsSound (transition env p id target db).1
unfolding transition get_visible
transition-IsSound env p id target db =
    handle-IsSound _ (is_visible p id) db (Safe-transition_body env p target)

pub cancel-IsSound :
    (env : Env) (p : Principal) (id : Uuid) (reason : String) (db : Db)
    → IsSound db
    → IsSound (cancel env p id reason db).1
unfolding cancel get_visible
cancel-IsSound env p id reason db =
    handle-IsSound _ (is_visible p id) db (Safe-cancel_body env p reason)

pub reschedule-IsSound :
    (env : Env) (p : Principal) (id : Uuid) (moment : Moment) (db : Db)
    → IsSound db
    → IsSound (reschedule env p id moment db).1
unfolding reschedule get_visible
reschedule-IsSound env p id moment db =
    handle-IsSound _ (is_visible p id) db (Safe-reschedule_body env p moment)

pub post_message-IsSound :
    (env : Env) (p : Principal) (id : Uuid) (body : MessageCreate) (db : Db)
    → IsSound db
    → IsSound (post_message env p id body db).1
unfolding post_message get_visible
post_message-IsSound env p id body db =
    handle-IsSound _ (is_visible p id) db (Safe-add_message_body env p body)
