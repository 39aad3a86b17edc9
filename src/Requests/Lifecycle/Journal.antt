-- ===== src/Requests/Lifecycle/Journal.antt =====
-- The audit journal: the status that it tells, and what each step of a service does to it.
use mathlib.Core.List.{append-nil, append_assoc}
use text.Mathlib.TextPositions.{eq_refl}
use kb_partners.Prelude.{
  Bool, true, false, ◌&&◌, String, ◌==◌, ◌≡◌, ◌≢◌, refl, sym, ap, ◌∙◌, Option, none, some, List, [],
  ◌∷◌, ◌++◌, arith, if◌then◌else◌, All, All-append,
}
use kb_partners.Auth.{Principal, Uuid}
use kb_partners.Config.{Env}
use kb_partners.Requests.Enums.{RequestStatus, HistoryAction, status_changed, created, value}
use kb_partners.Requests.Fsm.{can_transition}
use kb_partners.Requests.Models.{RequestHistory}
use kb_partners.Requests.Store.{Work}
use kb_partners.Requests.Lifecycle.{transition_row, enter}
use kb_partners.Requests.Lifecycle.Audit.{enter-Transitioned}

-- The status that the journal gives to a request: what the last row of its creation or of a change
-- of its status says.
abbrev pub is_status_row : HistoryAction → Bool
is_status_row created = true
is_status_row status_changed = true
is_status_row _ = false

abbrev pub replay_row : Uuid → Option String → RequestHistory → Option String
replay_row id known row =
    if row.request_id == id && is_status_row row.action then row.to_value else known

unfoldable pub replay : Uuid → Option String → List RequestHistory → Option String
replay id known [] = known
replay id known (row ∷ rows) = replay id (replay_row id known row) rows

pub replay-append :
    (id : Uuid) (known : Option String) (rows : List RequestHistory) (row : RequestHistory)
    → replay id known (rows ++ row ∷ []) ≡ replay_row id (replay id known rows) row
unfolding replay
replay-append id known [] row = refl
replay-append id known (r ∷ rows) row = replay-append id (replay_row id known r) rows row

pub replay-append_rows :
    (id : Uuid) (known : Option String) (rows new : List RequestHistory)
    → replay id known (rows ++ new) ≡ replay id (replay id known rows) new
unfolding replay
replay-append_rows id known [] new = refl
replay-append_rows id known (r ∷ rows) new = replay-append_rows id (replay_row id known r) rows new

-- Rows about another request do not count.
pub replay_foreign :
    (id other : Uuid) (known : Option String) (rows : List RequestHistory)
    → (other == id) ≡ false
    → All (λ row. row.request_id ≡ other) rows
    → replay id known rows ≡ known
unfolding replay
replay_foreign id other known [] ne own = refl
replay_foreign id other known (row ∷ rows) ne own =
    let skip : replay_row id known row ≡ known = rw (own.0, ne) in
    rw skip (replay_foreign id other known rows ne own.1)

pub replay_row_quiet :
    (id : Uuid) (known : Option String) (row : RequestHistory)
    → is_status_row row.action ≡ false
    → replay_row id known row ≡ known
replay_row_quiet id known row h = ground arith

-- A row of a change of status is allowed by the table of transitions.
pub data IsLegal (row : RequestHistory) : Type 0 where
  edge :
      (s t : RequestStatus)
      → can_transition s t ≡ true
      → row.from_value ≡ some (value s)
      → row.to_value ≡ some (value t)
      → IsLegal row
  other : row.action ≢ status_changed → IsLegal row

-- What one step of a service did: it stays with its request, its new journal rows are about that
-- request and legal, and if the journal told the status before, it does so afterwards.
pub record Advances (w w' : Work) : Type 0 where
  pub id : w'.request.id ≡ w.request.id
  pub rows : List RequestHistory
  pub history : w'.history ≡ w.history ++ rows
  pub own : All (λ row. row.request_id ≡ w.request.id) rows
  pub legal : All IsLegal rows
  pub current :
      replay w.request.id none w.history ≡ some (value w.request.status)
      → replay w'.request.id none w'.history ≡ some (value w'.request.status)

pub enter-Advances :
    (env : Env) (p : Principal) (target : RequestStatus) (w : Work)
    → can_transition w.request.status target ≡ true
    → Advances w (enter env p target w)
unfolding transition_row
enter-Advances env p target w allowed =
    let t = enter-Transitioned env p target w in
    let row = transition_row env p w.request target in
    record {
      id = t.same.id;
      rows = row ∷ [];
      history = t.history;
      own = (refl, tt);
      legal = (edge w.request.status target allowed refl refl, tt);
      current = λ h.
          rw (t.same.id, t.history, t.status)
            (replay-append w.request.id none w.history row ∙ rw (eq_refl w.request.id));
    }

-- A step that leaves the journal and the status alone.
pub Advances-same :
    (w w' : Work)
    → w'.request.id ≡ w.request.id
    → w'.request.status ≡ w.request.status
    → w'.history ≡ w.history
    → Advances w w'
Advances-same w w' i s h = record {
  id = i;
  rows = [];
  history = h ∙ sym (append-nil w.history);
  own = tt;
  legal = tt;
  current = λ e. rw (i, s, h) e;
}

-- A step that leaves the status alone and adds a row of another kind.
pub Advances-note :
    (w w' : Work) (row : RequestHistory)
    → w'.request.id ≡ w.request.id
    → w'.request.status ≡ w.request.status
    → w'.history ≡ w.history ++ row ∷ []
    → row.request_id ≡ w.request.id
    → is_status_row row.action ≡ false
    → Advances w w'
Advances-note w w' row i s h own quiet = record {
  id = i;
  rows = row ∷ [];
  history = h;
  own = (own, tt);
  legal = (other (λ e. cc (ap is_status_row e)), tt);
  current = λ e.
      rw (i, s, h)
        (replay-append w.request.id none w.history row ∙ (replay_row_quiet _ _ row quiet ∙ e));
}

pub Advances-trans : {u v w : Work} → Advances u v → Advances v w → Advances u w
Advances-trans {u} {v} {w} a b = record {
  id = b.id ∙ a.id;
  rows = a.rows ++ b.rows;
  history = b.history ∙ rw a.history (append_assoc u.history a.rows b.rows);
  own = All-append _ a.rows b.rows a.own (rw a.id at b.own);
  legal = All-append IsLegal a.rows b.rows a.legal b.legal;
  current = λ e. b.current (a.current e);
}
