-- ===== src/Requests/Assign/Sound.antt =====
-- An assignment keeps the database sound.
use kb_partners.Prelude.{Bool, true, false, String, ◌≡◌, refl, Option, none, some}
use kb_partners.Auth.{Principal, Uuid}
use kb_partners.Config.{Env}
use kb_partners.Matching.{MatchResult}
use kb_partners.Requests.Enums.{Category}
use kb_partners.Requests.Models.{ServiceRequest}
use kb_partners.Requests.Store.{Db}
use kb_partners.Requests.Access.{get_visible, is_visible}
use kb_partners.Requests.Lifecycle.Safe.{Safe, IsSound, handle-IsSound, safe_rules}
use kb_partners.Requests.Service.Sound.{Safe-detail_now}
use kb_partners.Requests.Assign.{
  Platform, AssignRequest, put_manual, put_match, write_match, choose, link_order, order_for,
  orchestrate_service_order, route_to_assigned, assign_in, assign_body, assign,
}

manual_keeps :
    (partner : String) (r : ServiceRequest)
    → ((put_manual partner r).id ≡ r.id) × ((put_manual partner r).status ≡ r.status)
unfolding put_manual
manual_keeps partner r = (refl, refl)

match_keeps :
    (env : Env) (m : MatchResult) (r : ServiceRequest)
    → ((put_match env m r).id ≡ r.id) × ((put_match env m r).status ≡ r.status)
unfolding put_match
match_keeps env m r = (refl, refl)

order_keeps :
    (ref : String) (r : ServiceRequest)
    → let s = record r { service_order_id = some ref } in (s.id ≡ r.id) × (s.status ≡ r.status)
order_keeps ref r = (refl, refl)

Safe-write_match : (env : Env) (m : Option MatchResult) → Safe (write_match env m)
unfolding write_match
Safe-write_match env none = search safe_rules
Safe-write_match env (some m) = search (safe_rules, match_keeps)

Safe-choose :
    (env : Env) (platform : Platform) (c : Category) (partner area : Option String)
    → Safe (choose env platform c partner area)
unfolding choose
Safe-choose env platform c (some partner) area = search (safe_rules, manual_keeps)
Safe-choose env platform c none area = Safe-write_match env _

Safe-link_order : (ref : Option String) → Safe (link_order ref)
unfolding link_order
Safe-link_order none = search safe_rules
Safe-link_order (some ref) = search (safe_rules, order_keeps)

Safe-order_for :
    (platform : Platform) (r : ServiceRequest) (c : Category) (partner : Option String)
    → Safe (order_for platform r c partner)
unfolding order_for
Safe-order_for platform r c none = search safe_rules
Safe-order_for platform r c (some partner) = Safe-link_order _

Safe-orchestrate_service_order :
    (platform : Platform) (required : Bool) (c : Category)
    → Safe (orchestrate_service_order platform required c)
unfolding orchestrate_service_order
Safe-orchestrate_service_order platform false c = search safe_rules
Safe-orchestrate_service_order platform true c = search (safe_rules, Safe-order_for)

Safe-route_to_assigned : (env : Env) (p : Principal) → Safe (route_to_assigned env p)
unfolding route_to_assigned
Safe-route_to_assigned env p = search safe_rules depth 12

Safe-assign_in :
    (env : Env) (p : Principal) (platform : Platform) (required : Bool) (body : AssignRequest)
    (c : Option Category)
    → Safe (assign_in env p platform required body c)
unfolding assign_in
Safe-assign_in env p platform required body none = search safe_rules
Safe-assign_in env p platform required body (some c) =
    search
      (
        safe_rules, Safe-choose, Safe-orchestrate_service_order, Safe-route_to_assigned,
        Safe-detail_now,
      )
      depth 20

pub Safe-assign_body :
    (env : Env) (p : Principal) (platform : Platform) (required : Bool) (body : AssignRequest)
    → Safe (assign_body env p platform required body)
unfolding assign_body
Safe-assign_body env p platform required body = search (safe_rules, Safe-assign_in) depth 16

pub assign-IsSound :
    (env : Env) (p : Principal) (platform : Platform) (required : Bool) (id : Uuid)
    (body : AssignRequest) (db : Db)
    → IsSound db
    → IsSound (assign env p platform required id body db).1
unfolding assign get_visible
assign-IsSound env p platform required id body db =
    handle-IsSound _ (is_visible p id) db (Safe-assign_body env p platform required body)
