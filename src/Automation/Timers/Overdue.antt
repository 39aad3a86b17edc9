-- ===== src/Automation/Timers/Overdue.antt =====
-- The query of the scan against the evaluation that confirms its rows.
use kb_partners.Prelude.{
  ℕ, ◌+◌, ◌≤◌, ◌≡◌, ◌⊎◌, inl, inr, refl, Bool, true, false, ◌&&◌, Option, none, some, List, [], ◌∷◌,
  ltb, length, take, take-all, select, insert_by, sort_by, length-sort_by, Bool-cases, arith,
}
use kb_partners.Sla.Engine.{SlaPolicy, breached, evaluate, accept, paused_seconds}
use kb_partners.Sla.Engine.States.{evaluate-breached}
use kb_partners.Requests.Enums.{dispatched, is}
use kb_partners.Requests.Models.{ServiceRequest, Sla}
use kb_partners.Automation.Timers.{accept_deadline_of, deadline_le, overdue, list_accept_overdue}

-- A row is in a list.
abbrev pub Holds : ServiceRequest → List ServiceRequest → Type 0
Holds r [] = ⊥
Holds r (x ∷ rows) = (r ≡ x) ⊎ Holds r rows

Holds-select :
    (test : ServiceRequest → Bool) (r : ServiceRequest) (rows : List ServiceRequest)
    → test r ≡ true
    → Holds r rows
    → Holds r (select test rows)
unfolding select
Holds-select test r [] h x = elim x [ ]
Holds-select test r (x ∷ rows) h (inl e) = let hit : test x ≡ true = rw e at h in rw hit (inl e)
Holds-select test r (x ∷ rows) h (inr later) = elim (Bool-cases (test x)) [
  | inl hit ↦ rw hit (inr (Holds-select test r rows h later))
  | inr miss ↦ rw miss (Holds-select test r rows h later)
]

Holds-insert_by :
    (le : ServiceRequest → ServiceRequest → Bool) (a r : ServiceRequest)
    (rows : List ServiceRequest)
    → (r ≡ a) ⊎ Holds r rows
    → Holds r (insert_by le a rows)
unfolding insert_by
Holds-insert_by le a r [] h = h
Holds-insert_by le a r (x ∷ rows) h = elim (Bool-cases (le a x)) [
  | inl before ↦ rw before h
  | inr after ↦ rw after (elim h [
    | inl e ↦ inr (Holds-insert_by le a r rows (inl e))
    | inr rest ↦ elim rest [
      | inl e ↦ inl e
      | inr later ↦ inr (Holds-insert_by le a r rows (inr later))
    ]
  ])
]

Holds-sort_by :
    (le : ServiceRequest → ServiceRequest → Bool) (r : ServiceRequest) (rows : List ServiceRequest)
    → Holds r rows
    → Holds r (sort_by le rows)
unfolding sort_by
Holds-sort_by le r [] x = elim x [ ]
Holds-sort_by le r (x ∷ rows) (inl e) = Holds-insert_by le x r (sort_by le rows) (inl e)
Holds-sort_by le r (x ∷ rows) (inr later) =
    Holds-insert_by le x r (sort_by le rows) (inr (Holds-sort_by le r rows later))

length-select :
    (test : ServiceRequest → Bool) (rows : List ServiceRequest)
    → length (select test rows) ≤ length rows
unfolding select
length-select test [] = omega arith
length-select test (x ∷ rows) = ground (arith, length-select test rows)

-- The WHERE clause.
is_candidate : ℕ → ServiceRequest → Bool
is_candidate now r = is r.status dispatched && overdue now (accept_deadline_of r.sla)

breached-past :
    (p : SlaPolicy) (sla : Option Sla) (now : ℕ)
    → evaluate p sla accept now ≡ breached
    → ¬ (accept_deadline_of sla ≡ some now)
    → overdue now (accept_deadline_of sla) ≡ true
unfolding evaluate
breached-past p none now late other = absurd (cc)
breached-past p (some s) now late other =
    let due = (evaluate-breached p s accept now).0 late in
    rw due.1 (past (Bool-cases (ltb due.0 now)) due.2 due.1)
  where
    past :
        {deadline : ℕ}
        → (ltb deadline now ≡ true) ⊎ (ltb deadline now ≡ false)
        → (deadline + paused_seconds s.paused_intervals ≤ now)
        → s.accept_deadline ≡ some deadline
        → ltb deadline now ≡ true
    past (inl h) late due = h
    past {deadline} (inr h) late due =
        let same : deadline ≡ now = ground arith in absurd (other (rw same at due))

candidate :
    (now : ℕ) (r : ServiceRequest)
    → r.status ≡ dispatched
    → overdue now (accept_deadline_of r.sla) ≡ true
    → is_candidate now r ≡ true
unfolding is_candidate
candidate now r flying past = rw (flying, past) refl

-- The query of the scan leaves out no request whose acceptance is breached, whatever the pauses,
-- but for one whose unmoved deadline is this very instant: as long as the dispatched requests with
-- a passed deadline fit into the batch, every other dispatched request that the policy evaluates as
-- breached is among the candidates.
pub list_accept_overdue_complete :
    (p : SlaPolicy) (now limit : ℕ) (rows : List ServiceRequest) (r : ServiceRequest)
    → length (list_accept_overdue now (length rows) rows) ≤ limit
    → Holds r rows
    → r.status ≡ dispatched
    → evaluate p r.sla accept now ≡ breached
    → ¬ (accept_deadline_of r.sla ≡ some now)
    → Holds r (list_accept_overdue now limit rows)
unfolding list_accept_overdue is_candidate
list_accept_overdue_complete p now limit rows r fits here flying late other =
    let chosen = select (is_candidate now) rows in
    let sorted =
      sort_by (λ a b. deadline_le (accept_deadline_of a.sla) (accept_deadline_of b.sla)) chosen in
    let size : length sorted ≤ length rows = rw (length-sort_by _ chosen) (length-select _ rows) in
    let all : take (length rows) sorted ≡ sorted = take-all (length rows) sorted size in
    let room : length sorted ≤ limit = rw all at fits in
    rw (take-all limit sorted room) (
      Holds-sort_by _ r chosen (
        Holds-select (is_candidate now) r rows
          (candidate now r flying (breached-past p r.sla now late other)) here))
