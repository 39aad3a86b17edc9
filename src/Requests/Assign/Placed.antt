-- ===== src/Requests/Assign/Placed.antt =====
-- How a successful assignment ends.
use kb_partners.Prelude.{
  Bool, true, false, ◌≡◌, refl, Option, none, some, is_some, arith, String, ok, if◌then◌else◌, ◌>>◌,
}
use kb_partners.Auth.{Principal}
use kb_partners.Config.{Env}
use kb_partners.Matching.{MatchResult}
use kb_partners.Requests.Enums.{RequestStatus, Category, HistoryAction}
use kb_partners.Requests.Models.{ServiceRequest}
use kb_partners.Requests.Store.{Work, journal}
use kb_partners.Requests.Detail.{RequestDetail}
use kb_partners.Requests.Lifecycle.{moved}
use kb_partners.Requests.Lifecycle.Ends.{
  Ends, Keeps, Ends-last, Ends-first, Ends-raise, Ends-set_request, Keeps-set_request,
  Ends-apply_transition, Keeps-bind, Keeps-journal, keeps_rules,
}
use kb_partners.Requests.Service.{detail_now}
use kb_partners.Requests.Assign.{
  Platform, AssignRequest, put_manual, put_match, write_match, choose, link_order, order_for,
  orchestrate_service_order, route_to_assigned, assign_in, assign_body,
}

-- A request with a partner, and with an order of kb-platform where one is required.
pub record Placed (required : Bool) (r : ServiceRequest) : Type 0 where
  pub status : r.status ≡ RequestStatus.assigned
  pub partner : is_some r.partner_id ≡ true
  pub order : required ≡ true → is_some r.service_order_id ≡ true

abbrev HasPartner : ServiceRequest → Type 0
HasPartner r = is_some r.partner_id ≡ true

abbrev HasOrder : Bool → ServiceRequest → Type 0
HasOrder required r = required ≡ true → is_some r.service_order_id ≡ true

moved-partner :
    (env : Env) (target : RequestStatus) (r : ServiceRequest)
    → HasPartner r
    → HasPartner (moved env r target)
unfolding moved
moved-partner env target r h = ground arith

moved-order :
    (env : Env) (required : Bool) (target : RequestStatus) (r : ServiceRequest)
    → HasOrder required r
    → HasOrder required (moved env r target)
unfolding moved
moved-order env required target r h q = ground (arith, h q)

Ends-write_match : (env : Env) (m : Option MatchResult) → Ends HasPartner (write_match env m)
unfolding write_match put_match
Ends-write_match env none = Ends-raise _
Ends-write_match env (some m) = Ends-set_request _ (λ r. refl)

Ends-choose :
    (env : Env) (platform : Platform) (c : Category) (partner area : Option String)
    → Ends HasPartner (choose env platform c partner area)
unfolding choose put_manual
Ends-choose env platform c (some partner) area = Ends-set_request _ (λ r. refl)
Ends-choose env platform c none area = Ends-write_match env _

Keeps-link_order : (ref : Option String) → Keeps HasPartner (link_order ref)
unfolding link_order
Keeps-link_order none = search keeps_rules
Keeps-link_order (some ref) = Keeps-set_request _ (λ r h. h)

Keeps-order_for :
    (platform : Platform) (r : ServiceRequest) (c : Category) (partner : Option String)
    → Keeps HasPartner (order_for platform r c partner)
unfolding order_for
Keeps-order_for platform r c none = search keeps_rules
Keeps-order_for platform r c (some partner) = Keeps-link_order _

Keeps-orchestrate_service_order :
    (platform : Platform) (required : Bool) (c : Category)
    → Keeps HasPartner (orchestrate_service_order platform required c)
unfolding orchestrate_service_order
Keeps-orchestrate_service_order platform false c = search keeps_rules
Keeps-orchestrate_service_order platform true c = search (keeps_rules, Keeps-order_for)

Ends-link_order :
    (required : Bool) (ref : Option String) → Ends (HasOrder required) (link_order ref)
unfolding link_order
Ends-link_order required none = Ends-raise _
Ends-link_order required (some ref) = Ends-set_request _ (λ r q. refl)

Ends-order_for :
    (required : Bool) (platform : Platform) (r : ServiceRequest) (c : Category)
    (partner : Option String)
    → Ends (HasOrder required) (order_for platform r c partner)
unfolding order_for
Ends-order_for required platform r c none = Ends-raise _
Ends-order_for required platform r c (some partner) = Ends-link_order required _

Ends-orchestrate_service_order :
    (platform : Platform) (required : Bool) (c : Category)
    → Ends (HasOrder required) (orchestrate_service_order platform required c)
unfolding orchestrate_service_order
Ends-orchestrate_service_order platform false c = record { at = λ w a e q. cc }
Ends-orchestrate_service_order platform true c =
    Ends-last _ _ (λ w. Ends-order_for true platform w.request c w.request.partner_id)

Keeps-route_to_assigned :
    (P : ServiceRequest → Type 0) (env : Env) (p : Principal)
    → ((target : RequestStatus) (r : ServiceRequest) → P r → P (moved env r target))
    → Keeps P (route_to_assigned env p)
unfolding route_to_assigned
Keeps-route_to_assigned P env p h = search keeps_rules depth 12

Ends-route_to_assigned :
    (env : Env) (p : Principal)
    → Ends (λ r. r.status ≡ RequestStatus.assigned) (route_to_assigned env p)
unfolding route_to_assigned
Ends-route_to_assigned env p =
    Ends-last _ _ (λ w. Ends-last _ _ (λ u. Ends-apply_transition env p RequestStatus.assigned))

pub Keeps-detail_now :
    (P : ServiceRequest → Type 0) (env : Env) (p : Principal) → Keeps P (detail_now env p)
unfolding detail_now
Keeps-detail_now P env p = search keeps_rules

module _ (env : Env) (p : Principal) (platform : Platform) (required : Bool)
    (body : AssignRequest) where
  Keeps-end :
      (P : ServiceRequest → Type 0)
      → ((target : RequestStatus) (r : ServiceRequest) → P r → P (moved env r target))
      → Keeps P (do
        route_to_assigned env p
        journal env p HistoryAction.assigned
            (λ r. some (if is_some body.partner_id then "manual" else "auto"))
            (λ r. r.partner_id)
        detail_now env p)
  Keeps-end P h = Keeps-bind _ _ (Keeps-route_to_assigned P env p h) (λ u.
      Keeps-bind _ _ (Keeps-journal env p HistoryAction.assigned _ _)
        (λ v. Keeps-detail_now P env p))

  assign_in-partner :
      (c : Option Category) → Ends HasPartner (assign_in env p platform required body c)
  unfolding assign_in
  assign_in-partner none = Ends-raise _
  assign_in-partner (some c) =
      Ends-first _ _ (Ends-choose env platform c body.partner_id body.service_area) (λ u.
        Keeps-bind _ _ (Keeps-orchestrate_service_order platform required c)
          (λ v. Keeps-end HasPartner (moved-partner env)))

  assign_in-order :
      (c : Option Category) → Ends (HasOrder required) (assign_in env p platform required body c)
  unfolding assign_in
  assign_in-order none = Ends-raise _
  assign_in-order (some c) = Ends-last _ _ (λ u.
      Ends-first _ _ (Ends-orchestrate_service_order platform required c)
        (λ v. Keeps-end (HasOrder required) (moved-order env required)))

  assign_in-status :
      (c : Option Category)
      → Ends (λ r. r.status ≡ RequestStatus.assigned) (assign_in env p platform required body c)
  unfolding assign_in
  assign_in-status none = Ends-raise _
  assign_in-status (some c) = Ends-last _ _ (λ u. Ends-last _ _ (λ v.
      Ends-first _ _ (Ends-route_to_assigned env p)
        (λ x. search (keeps_rules, Keeps-detail_now) depth 12)))

  assign_body-Ends :
      (P : ServiceRequest → Type 0)
      → ((c : Option Category) → Ends P (assign_in env p platform required body c))
      → Ends P (assign_body env p platform required body)
  unfolding assign_body
  assign_body-Ends P h =
      Ends-last _ _ (λ w. Ends-last _ _ (λ u. Ends-last _ _ (λ v. h w.request.category)))

-- An assignment that succeeds leaves the request in the status ASSIGNED, with a partner, and, where
-- an order of kb-platform is required, with such an order.
pub assign_body-Placed :
    (env : Env) (p : Principal) (platform : Platform) (required : Bool) (body : AssignRequest)
    (w : Work) (d : RequestDetail)
    → (assign_body env p platform required body w).0 ≡ ok d
    → Placed required (assign_body env p platform required body w).1.request
assign_body-Placed env p platform required body w d h = record {
  status =
      (assign_body-Ends env p platform required body _
          (assign_in-status env p platform required body)).at
        w d h;
  partner =
      (assign_body-Ends env p platform required body _
          (assign_in-partner env p platform required body)).at
        w d h;
  order =
      (assign_body-Ends env p platform required body _
          (assign_in-order env p platform required body)).at
        w d h;
}
