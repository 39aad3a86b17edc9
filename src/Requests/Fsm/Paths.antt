-- ===== src/Requests/Fsm/Paths.antt =====
-- What the state machine implies for whole lives of a request.
use kb_partners.Prelude.{
  ℕ, suc, ◌+◌, ◌≤◌, ◌<◌, ◌≡◌, ◌≢◌, refl, sym, ◌⊎◌, inl, inr, Bool, true, false, arith,
}
use mathlib.Core.Path.{subst}
use kb_partners.Requests.Enums.{
  RequestStatus, new, dispatched, accepted, in_progress, done, accepted_by_user, dispute, paid,
  cancelled, rejected,
}
use kb_partners.Requests.Fsm.{can_transition}

-- A life: the transitions that were made, the last one outermost.
pub data Life (s : RequestStatus) : RequestStatus → Type 0 where
  born : Life s s
  step : {t u : RequestStatus} → Life s t → can_transition t u ≡ true → Life s u

-- The life passes through a status (its first and last ones included).
abbrev pub Visits : {s t : RequestStatus} → RequestStatus → Life s t → Type 0
Visits {s} m born = m ≡ s
Visits m (step {u} life e) = Visits m life ⊎ (m ≡ u)

Visits-last : {s t : RequestStatus} (life : Life s t) → Visits t life
Visits-last born = refl
Visits-last (step life e) = inr refl

-- If the last status can be entered from one status alone, a life that is not over at once passes
-- through whatever the lives that end in that status pass through.
via :
    {s t : RequestStatus} (k m : RequestStatus) (life : Life s t)
    → s ≢ t
    → ((u : RequestStatus) → can_transition u t ≡ true → u ≡ m)
    → ((before : Life s m) → Visits k before)
    → Visits k life
via k m born ne only rest = absurd (ne refl)
via {s} k m (step {t = u} life e) ne only rest =
    inl (subst (λ x. (l : Life s x) → Visits k l) (sym (only u e)) rest life)

-- The only way into each of the late statuses.
into_paid : (t : RequestStatus) → can_transition t paid ≡ true → t ≡ accepted_by_user
unfolding can_transition
into_paid t h = ground arith

into_approved : (t : RequestStatus) → can_transition t accepted_by_user ≡ true → t ≡ done
unfolding can_transition
into_approved t h = ground arith

into_done : (t : RequestStatus) → can_transition t done ≡ true → t ≡ in_progress
unfolding can_transition
into_done t h = ground arith

into_progress : (t : RequestStatus) → can_transition t in_progress ≡ true → t ≡ accepted
unfolding can_transition
into_progress t h = ground arith

into_accepted : (t : RequestStatus) → can_transition t accepted ≡ true → t ≡ dispatched
unfolding can_transition
into_accepted t h = ground arith

module _ (k : RequestStatus) where
  before_accepted : ((l : Life new dispatched) → Visits k l) → (l : Life new accepted) → Visits k l
  before_accepted f l = via k dispatched l (λ e. cc) into_accepted f

  before_progress : ((l : Life new accepted) → Visits k l) → (l : Life new in_progress) → Visits k l
  before_progress f l = via k accepted l (λ e. cc) into_progress f

  before_done : ((l : Life new in_progress) → Visits k l) → (l : Life new done) → Visits k l
  before_done f l = via k in_progress l (λ e. cc) into_done f

  before_approved :
      ((l : Life new done) → Visits k l) → (l : Life new accepted_by_user) → Visits k l
  before_approved f l = via k done l (λ e. cc) into_approved f

  before_paid : ((l : Life new accepted_by_user) → Visits k l) → (l : Life new paid) → Visits k l
  before_paid f l = via k accepted_by_user l (λ e. cc) into_paid f

-- A request is paid only after it was dispatched to a partner, accepted by the partner, worked on,
-- done, and approved by the user.
pub paid-Visits :
    (life : Life new paid)
    → Visits dispatched life
      × Visits accepted life
      × Visits in_progress life
      × Visits done life
      × Visits accepted_by_user life
paid-Visits life = (
  before_paid _
      (before_approved _ (before_done _ (before_progress _ (before_accepted _ Visits-last)))) life,
  before_paid _ (before_approved _ (before_done _ (before_progress _ Visits-last))) life,
  before_paid _ (before_approved _ (before_done _ Visits-last)) life,
  before_paid _ (before_approved _ Visits-last) life,
  before_paid _ Visits-last life,
)

-- How many transitions are left at most, once the partner has accepted.
abbrev pub is_work : RequestStatus → Bool
is_work accepted = true
is_work in_progress = true
is_work done = true
is_work accepted_by_user = true
is_work dispute = true
is_work paid = true
is_work cancelled = true
is_work rejected = true
is_work _ = false

abbrev remaining : RequestStatus → ℕ
remaining accepted = 5
remaining in_progress = 4
remaining done = 3
remaining accepted_by_user = 2
remaining dispute = 1
remaining _ = 0

abbrev pub transitions : {s t : RequestStatus} → Life s t → ℕ
transitions born = 0
transitions (step life e) = suc (transitions life)

work_step :
    (t u : RequestStatus)
    → is_work t ≡ true
    → can_transition t u ≡ true
    → (is_work u ≡ true) × (remaining u < remaining t)
unfolding can_transition
work_step t u w e = ground arith

work_bound :
    {s t : RequestStatus} (life : Life s t)
    → is_work s ≡ true
    → (is_work t ≡ true) × (transitions life + remaining t ≤ remaining s)
work_bound born w = (w, omega arith)
work_bound {s} (step {t = t} {u = u} life e) w =
    let ih : (is_work t ≡ true) × (transitions life + remaining t ≤ remaining s) =
      work_bound life w in
    let one = work_step t u ih.0 e in (one.0, omega (arith, ih.1, one.1))

remaining_cap : (s : RequestStatus) → remaining s ≤ 5
remaining_cap s = ground arith

-- Once a partner has accepted, no life leads back to matching or dispatch, and it ends after five
-- transitions at most.
pub accepted_work :
    (s t : RequestStatus) (life : Life s t)
    → is_work s ≡ true
    → (is_work t ≡ true) × (transitions life ≤ 5)
accepted_work s t life w = let b = work_bound life w in (b.0, omega (arith, b.1, remaining_cap s))
