-- ===== src/Channels/Drain.antt =====
-- `DispatchService` and the drains of backend/src/api/channels/dispatch.py: the order to dispatch
-- is committed with the transition, and carried out from the outbox.
pub mod Sound
use kb_partners.Prelude.{
  ℕ, ◌+◌, Bool, true, false, ◌&&◌, String, ◌==◌, Option, none, some, List, [], ◌∷◌, length,
  is_empty, is_some, find_first, update_where, if◌then◌else◌, Result, ok, err, Effect, pure,
  require, get, ◌>>=◌, ◌>>◌,
}
use kb_partners.Errors.{Problem, forbidden, conflict, internal}
use kb_partners.Auth.{Uuid, Principal}
use kb_partners.Config.{Env}
use kb_partners.Sla.Engine.{SlaPolicy}
use kb_partners.Requests.Enums.{RequestStatus, dispatched, is}
use kb_partners.Requests.Models.{ServiceRequest, OutboxMessage}
use kb_partners.Requests.Store.{Db, Work, find_request, open_work, commit, handle, set_tables}
use kb_partners.Requests.Access.{get_visible, can_drive_lifecycle}
use kb_partners.Requests.Lifecycle.{apply_transition}
use kb_partners.Requests.Detail.{RequestDetail, build_detail}
use kb_partners.Outbox.{enqueue, claim_batch, mark_done, mark_failed_or_retry, retry_delay}
use kb_partners.Channels.{PartnerChannelConfig}
use kb_partners.Channels.Resolver.{ChannelResolver}
use kb_partners.Channels.Dispatch.{dispatch_kind, execute_dispatch}

-- Returning or raising.
abbrev pub Done : Type 0
Done = Result (Unit {0})

-- `payload.get(key)` for the text of a key; an empty text counts as none.
unfoldable pub payload_text : String → List (String × Option String) → Option String
payload_text key [] = none
payload_text key ((k, v) ∷ rest) = if k == key then truth v else payload_text key rest
  where
    truth : Option String → Option String
    truth none = none
    truth (some s) = if is_empty s then none else some s

-- `_load_request`, for the identifier that the payload holds.
unfoldable pub loaded_for : OutboxMessage → Db → Option ServiceRequest
unfolding payload_text find_request
loaded_for m db = elim (payload_text "request_id" m.payload) [
  | none ↦ none
  | some id ↦ find_request id db
]

-- An assignment to a message of the outbox, which the session writes.
unfoldable pub set_message : OutboxMessage → Db → Db
set_message m db = record db {
  tables = record db.tables { outbox = update_where (λ row. row.id == m.id) (λ _. m) db.outbox };
}

-- The session goes on after a handled message: what it changed is flushed, also when it raised.
unfoldable pub flush_row : {A : Type 0} → Result A × Work → Db → Result A × Db
unfolding commit
flush_row (end, w) db = (end, commit w db)

-- Then the message is done, unless an exception passes it.
unfoldable pub then_done : {A : Type 0} → Env → OutboxMessage → Result A × Db → Done × Db
unfolding mark_done set_message
then_done env m (ok a, db) = (ok tt, set_message (mark_done env.now m) db)
then_done env m (err p, db) = (err p, db)

-- What a drain takes: the resolver, the policy of deadlines and the table of the channels.
pub record DispatchDeps : Type 0 where
  pub resolver : ChannelResolver
  pub policy : SlaPolicy
  pub configs : List PartnerChannelConfig

unfoldable pub drain_dispatch_message : Env → DispatchDeps → OutboxMessage → Db → Done × Db
unfolding loaded_for then_done flush_row open_work execute_dispatch
drain_dispatch_message env d m db = elim (loaded_for m db) [
  | none ↦ then_done env m (ok tt, db)
  | some r ↦
      then_done env m
        (flush_row (execute_dispatch env d.resolver d.policy d.configs (open_work r db)) db)
]

-- The `except` clause of the batches: the text of the exception, and the backoff.
unfoldable pub or_retry : Env → (error_text : Problem → String) → OutboxMessage → Done × Db → Db
unfolding mark_failed_or_retry retry_delay set_message
or_retry env error_text m (ok u, db) = db
or_retry env error_text m (err p, db) =
    set_message
      (mark_failed_or_retry (error_text p) env.now env.outbox_max_attempts
        (env.now + retry_delay env m) m)
      db

-- The loop over a claimed batch, for any way to drain a message.
unfoldable pub drain_each :
    Env
    → (error_text : Problem → String) → (OutboxMessage → Db → Done × Db)
    → List OutboxMessage
    → Db
    → Db
unfolding or_retry
drain_each env error_text drain [] db = db
drain_each env error_text drain (m ∷ batch) db =
    drain_each env error_text drain batch (or_retry env error_text m (drain m db))

-- A claim on the table of messages.
unfoldable pub claimed_db :
    (kind : String) (now limit visibility_timeout : ℕ) → Db → List OutboxMessage × Db
unfolding claim_batch
claimed_db kind now limit timeout db =
    let (batch, rows) = claim_batch kind now limit timeout db.outbox in
    (batch, record db { tables = record db.tables { outbox = rows } })

-- The default of `claim_batch`, 300 seconds.
abbrev pub default_visibility_timeout : ℕ
default_visibility_timeout = 300_000_000

-- A worker's batch: the number of messages, and the database after the commit.
unfoldable pub drain_batch :
    Env
    → (error_text : Problem → String) → (kind : String) → (visibility_timeout : ℕ)
    → (OutboxMessage → Db → Done × Db)
    → Db
    → ℕ × Db
unfolding claimed_db drain_each
drain_batch env error_text kind timeout drain db =
    let (batch, claimed) = claimed_db kind env.now env.outbox_batch_size timeout db in
    (length batch, drain_each env error_text drain batch claimed)

unfoldable pub drain_dispatch_batch : Env → (Problem → String) → DispatchDeps → Db → ℕ × Db
unfolding drain_batch drain_dispatch_message
drain_dispatch_batch env error_text d =
    drain_batch env error_text dispatch_kind default_visibility_timeout
      (drain_dispatch_message env d)

-- The first transaction of `dispatch`: the identifier of the message that it puts into the outbox.
unfoldable pub order_dispatch : Env → Principal → Effect Work Uuid
unfolding enqueue
order_dispatch env p = do
  require (can_drive_lifecycle p) forbidden
  w ← get
  require (is w.request.status RequestStatus.assigned) conflict
  require (is_some w.request.partner_id && is_some w.request.category) conflict
  apply_transition env p dispatched
  now ← get
  set_tables (λ r. enqueue env dispatch_kind (("request_id", some r.id) ∷ []))
  pure (env.uuid4 now.tables.drawn)

-- `find`, unless the message was processed.
abbrev pub unprocessed : Uuid → List OutboxMessage → Option OutboxMessage
unprocessed id rows = elim (find_first (λ m. m.id == id) rows) [
  | none ↦ none
  | some m ↦ if is_some m.processed_at then none else some m
]

-- The end of a session: the commit, or on an exception the loss of what it wrote since `db`.
unfoldable pub end_session : {A : Type 0} → Result A × Db → Db → Result A × Db
end_session (ok a, after) db = (ok a, after)
end_session (err p, after) db = (
  err p,
  record db {
    tables = record db.tables {
      metrics = after.metrics;
      drawn = after.drawn;
      numbers = after.numbers;
    };
  },
)

-- The message that the first transaction left, unless a worker was faster.
unfoldable pub drain_now : Env → DispatchDeps → Uuid → Db → Done × Db
unfolding find_first drain_dispatch_message
drain_now env d outbox_id db = elim (unprocessed outbox_id db.outbox) [
  | none ↦ (ok tt, db)
  | some m ↦ drain_dispatch_message env d m db
]

-- `DispatchService._drain`, in a session of its own.
unfoldable pub drain : Env → DispatchDeps → Uuid → Db → Done × Db
unfolding end_session drain_now
drain env d outbox_id db = end_session (drain_now env d outbox_id db) db

-- The answer is read again; the row cannot be gone.
unfoldable pub answer : Env → Principal → Uuid → Done × Db → Result RequestDetail × Db
answer env p request_id (err q, db) = (err q, db)
answer env p request_id (ok u, db) = elim (get_visible p request_id db) [
  | none ↦ (err internal, db)
  | some r ↦ (ok (build_detail env p r []), db)
]

unfoldable pub carry_out :
    Env → Principal → DispatchDeps → Uuid → Result Uuid × Db → Result RequestDetail × Db
unfolding drain answer
carry_out env p d request_id (err q, db) = (err q, db)
carry_out env p d request_id (ok outbox_id, db) = answer env p request_id (drain env d outbox_id db)

-- `DispatchService.dispatch`
unfoldable pub dispatch : Env → Principal → DispatchDeps → Uuid → Db → Result RequestDetail × Db
unfolding order_dispatch carry_out
dispatch env p d request_id db =
    carry_out env p d request_id (handle (get_visible p request_id db) (order_dispatch env p) db)
