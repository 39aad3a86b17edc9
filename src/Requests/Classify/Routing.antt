-- ===== src/Requests/Classify/Routing.antt =====
-- How a successful classification ends.
use kb_partners.Prelude.{
  ℕ, Bool, true, false, not, ◌&&◌, String, ◌≡◌, inl, inr, ok, Effect, ◌>>◌, Bool-cases,
  if◌then◌else◌, arith, modify, pure,
}
use kb_partners.Auth.{Principal}
use kb_partners.Config.{Env}
use kb_partners.Requests.Enums.{RequestStatus, new, classifying, needs_review, is, is_in}
use kb_partners.Requests.Models.{ServiceRequest}
use kb_partners.Requests.Store.{Work, set_request}
use kb_partners.Requests.Detail.{RequestDetail}
use kb_partners.Requests.Lifecycle.{apply_transition}
use kb_partners.Requests.Lifecycle.Ends.{
  EndsFrom, EndsFrom-get, EndsFrom-bind, EndsFrom-first, EndsFrom-require, Ends-last,
  Ends-apply_transition, Keeps-bind, Keeps-journal,
}
use kb_partners.Requests.Assign.Placed.{Keeps-detail_now}
use kb_partners.Requests.Classify.{
  Outcome, classifiable_statuses, put_outcome, is_confident, route_status, classify_body,
}

-- Where a classification leaves the status.
pub data Routed (confident : Bool) : RequestStatus → Type 0 where
  sure : confident ≡ true → Routed confident RequestStatus.classified
  doubted : Routed confident needs_review

-- Before the last step of the routing.
data Named : RequestStatus → Type 0 where
  named : Named RequestStatus.classified
  reviewed : Named needs_review

module _ (env : Env) (p : Principal) (confident : Bool) where
  -- The last step of the routing, on the request as it then is.
  review : ServiceRequest → Effect Work Unit
  review r =
      if not confident && is r.status RequestStatus.classified
      then apply_transition env p needs_review
      else pure tt

  review-idle :
      (r : ServiceRequest) (v : Work)
      → (not confident && is r.status RequestStatus.classified) ≡ false
      → (review r v).1.request.status ≡ v.request.status
  unfolding review pure
  review-idle r v h = rw h

  review-moved :
      (r : ServiceRequest) (v : Work) (a : Unit)
      → (not confident && is r.status RequestStatus.classified) ≡ true
      → (review r v).0 ≡ ok a
      → (review r v).1.request.status ≡ needs_review
  unfolding review
  review-moved r v a h e =
      let moves : review r v ≡ apply_transition env p needs_review v = rw h in
      rw moves ((Ends-apply_transition env p needs_review).at v a (rw moves at e))

  review-Routed :
      (v : Work) (a : Unit)
      → Named v.request.status
      → (review v.request v).0 ≡ ok a
      → Routed confident (review v.request v).1.request.status
  review-Routed v a n e =
      elim (Bool-cases (not confident && is v.request.status RequestStatus.classified)) [
        | inl h ↦ rw (review-moved v.request v a h e) doubted
        | inr h ↦ rw (review-idle v.request v h) (settled n h)
      ]
    where
      settled :
          {s : RequestStatus}
          → Named s
          → (not confident && is s RequestStatus.classified) ≡ false
          → Routed confident s
      settled named h = sure (ground arith)
      settled reviewed h = doubted

  name : ServiceRequest → Effect Work Unit
  name r =
      if is r.status new
      then (apply_transition env p classifying >> apply_transition env p RequestStatus.classified)
      else pure tt

  name-moved :
      (r : ServiceRequest) (v : Work) (a : Unit)
      → is r.status new ≡ true
      → (name r v).0 ≡ ok a
      → (name r v).1.request.status ≡ RequestStatus.classified
  unfolding name
  name-moved r v a h e =
      let m =
        apply_transition env p classifying >> apply_transition env p RequestStatus.classified in
      let moves : name r v ≡ m v = rw h in
      rw moves (
        (Ends-last _ _ (λ u. Ends-apply_transition env p RequestStatus.classified)).at v a
          (rw moves at e))

  name-idle :
      (r : ServiceRequest) (v : Work)
      → is r.status new ≡ false
      → (name r v).1.request.status ≡ v.request.status
  unfolding name pure
  name-idle r v h = rw h

  name-Named :
      (v : Work) (a : Unit)
      → is_in v.request.status classifiable_statuses ≡ true
      → (name v.request v).0 ≡ ok a
      → Named (name v.request v).1.request.status
  name-Named v a c e = elim (Bool-cases (is v.request.status new)) [
    | inl h ↦ rw (name-moved v.request v a h e) named
    | inr h ↦ rw (name-idle v.request v h) (known v.request.status c h)
  ]
    where
      known :
          (s : RequestStatus) → is_in s classifiable_statuses ≡ true → is s new ≡ false → Named s
      known RequestStatus.classified c h = named
      known needs_review c h = reviewed
      known _ c h = cc

  route_status-Routed :
      (v : Work)
      → is_in v.request.status classifiable_statuses ≡ true
      → EndsFrom (λ r. Routed confident r.status) v (route_status env p confident)
  unfolding route_status name review
  route_status-Routed v c = EndsFrom-get v _ (
      EndsFrom-bind v _ _ (λ a e.
        EndsFrom-get (name v.request v).1 _
          (record { at = λ b h. review-Routed (name v.request v).1 b (name-Named v a c e) h })))

-- A classification that succeeds leaves the request in CLASSIFIED only if its outcome is confident,
-- and otherwise in NEEDS_REVIEW.
pub classify_body-Routed :
    (env : Env) (p : Principal) (threshold : ℕ) (engine : String → Outcome) (w : Work)
    (d : RequestDetail)
    → (classify_body env p threshold engine w).0 ≡ ok d
    → Routed
        (is_confident threshold (engine w.request.raw_input_masked))
        (classify_body env p threshold engine w).1.request.status
unfolding classify_body put_outcome set_request modify
classify_body-Routed env p threshold engine w d h =
    (EndsFrom-get w _ (
        EndsFrom-require w _ _ _ (λ driver. EndsFrom-require w _ _ _ (λ status.
          EndsFrom-bind w _ _ (λ a e.
            EndsFrom-first _ _ _ (route_status-Routed env p _ _ status) (λ b.
              Keeps-bind _ _ (Keeps-journal env p _ _ _) (λ c. Keeps-detail_now _ env p))))))).at
      d h
