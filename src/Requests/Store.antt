-- ===== src/Requests/Store.antt =====
-- The tables of the service's own database, as a session sees them, and a unit of work on one
-- request: the row that the handler loaded (FOR UPDATE) and mutates, beside the tables to which it
-- adds rows. `session.add` appends a row; `commit` writes the request back.
use kb_partners.Prelude.{
  ℕ, ◌==◌, Option, none, some, List, [], ◌∷◌, ◌++◌, Result, ok, err, Effect, modify, String,
  find_first, update_where,
}
use kb_partners.Errors.{not_found}
use kb_partners.Auth.{Uuid, Principal, actor_of}
use kb_partners.Config.{Env}
use kb_partners.Requests.Enums.{HistoryAction}
use kb_partners.Requests.Models.{
  ServiceRequest, RequestEstimate, RequestMessage, RequestHistory, OutboxMessage, DispatchAttempt,
  Observation, InboundEvent,
}

pub record Tables : Type 0 where
  pub history : List RequestHistory
  pub messages : List RequestMessage
  pub estimates : List RequestEstimate
  pub attempts : List DispatchAttempt
  pub outbox : List OutboxMessage
  pub events : List InboundEvent
  -- The Prometheus counters and histograms, which no rollback takes back.
  pub metrics : List Observation
  -- How many identifiers were drawn from `uuid4`.
  pub drawn : ℕ
  -- The last value of `service_request_number_seq`, which no rollback takes back either.
  pub numbers : ℕ

pub record Db : Type 0 where
  pub requests : List ServiceRequest
  pub tables : Tables
  pub open tables use *

pub record Work : Type 0 where
  pub request : ServiceRequest
  pub tables : Tables
  pub open tables use *

-- `session.add` for each table.
unfoldable pub add_history : RequestHistory → Tables → Tables
add_history row t = record t { history = t.history ++ row ∷ [] }

unfoldable pub add_message : RequestMessage → Tables → Tables
add_message row t = record t { messages = t.messages ++ row ∷ [] }

unfoldable pub add_estimate : RequestEstimate → Tables → Tables
add_estimate row t = record t { estimates = t.estimates ++ row ∷ [] }

unfoldable pub add_attempt : DispatchAttempt → Tables → Tables
add_attempt row t = record t { attempts = t.attempts ++ row ∷ [] }

unfoldable pub add_event : InboundEvent → Tables → Tables
add_event row t = record t { events = t.events ++ row ∷ [] }

unfoldable pub observe : Observation → Tables → Tables
observe o t = record t { metrics = t.metrics ++ o ∷ [] }

-- The row with a given primary key.
unfoldable pub find_request : Uuid → Db → Option ServiceRequest
find_request request_id db = find_first (λ r. r.id == request_id) db.requests

-- `RequestRepository.add`
unfoldable pub add_request : ServiceRequest → List ServiceRequest → List ServiceRequest
add_request r rows = rows ++ r ∷ []

unfoldable pub open_work : ServiceRequest → Db → Work
open_work r db = record { request = r; tables = db.tables }

-- The session's changes reach the database.
unfoldable pub commit : Work → Db → Db
commit w db = record {
  requests = update_where (λ r. r.id == w.request.id) (λ _. w.request) db.requests;
  tables = w.tables;
}

-- The session is closed without a commit: the metrics and the drawn identifiers stay.
unfoldable pub rollback : Work → Db → Db
rollback w db = record db {
  tables = record db.tables {
    metrics = w.tables.metrics;
    drawn = w.tables.drawn;
    numbers = w.tables.numbers;
  };
}

unfoldable pub settle : {A : Type 0} → Result A × Work → Db → Result A × Db
unfolding commit rollback
settle (ok a, w) db = (ok a, commit w db)
settle (err p, w) db = (err p, rollback w db)

-- A handler of an HTTP request on the row that was loaded: a missing row is 404, success commits,
-- an error rolls back. This is for handlers that commit once, after the last step that may raise;
-- one that commits in between, as the order to dispatch, is a sequence of sessions.
unfoldable pub handle : {A : Type 0} → Option ServiceRequest → Effect Work A → Db → Result A × Db
unfolding open_work settle
handle none body db = (err not_found, db)
handle (some r) body db = settle (body (open_work r db)) db

-- Assignments to attributes of the loaded request.
unfoldable pub set_request : (ServiceRequest → ServiceRequest) → Effect Work Unit
set_request f = modify (λ w. record w { request = f w.request })

-- Rows and messages that a handler adds beside the request.
unfoldable pub set_tables : (ServiceRequest → Tables → Tables) → Effect Work Unit
set_tables f = modify (λ w. record w { tables = f w.request w.tables })

-- `session.add(RequestHistory(...))` for the loaded request.
unfoldable pub journal :
    Env
    → Principal
    → HistoryAction
    → (from_value to_value : ServiceRequest → Option String) → Effect Work Unit
journal env p action from_value to_value = set_tables (λ r. add_history (record {
  request_id = r.id;
  actor_id = actor_of p;
  action = action;
  from_value = from_value r;
  to_value = to_value r;
  ts = env.now;
}))
