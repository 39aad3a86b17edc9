-- ===== src/Channels/Drain/Sound.antt =====
-- Dispatching, at once or from the outbox, keeps the database sound.
use kb_partners.Prelude.{
  ℕ, String, ◌==◌, ◌≡◌, refl, Option, none, some, List, [], ◌∷◌, Result, ok, err, Effect,
  find_first-All,
}
use kb_partners.Errors.{Problem, internal}
use kb_partners.Auth.{Uuid, Principal}
use kb_partners.Config.{Env}
use kb_partners.Requests.Models.{ServiceRequest, OutboxMessage}
use kb_partners.Requests.Store.{Db, Work, find_request, open_work}
use kb_partners.Requests.Access.{get_visible, is_visible}
use kb_partners.Requests.Lifecycle.Safe.{
  Safe, IsSound, Current, commit-IsSound, handle-IsSound, safe_rules,
}
use kb_partners.Requests.Partner.Sound.{enqueue_keeps}
use kb_partners.Requests.Detail.{RequestDetail, build_detail}
use kb_partners.Channels.Dispatch.{execute_dispatch}
use kb_partners.Channels.Dispatch.Sound.{Safe-execute_dispatch}
use kb_partners.Channels.Drain.{
  Done, payload_text, loaded_for, set_message, flush_row, then_done, DispatchDeps,
  drain_dispatch_message, or_retry, drain_each, claimed_db, drain_batch, drain_dispatch_batch,
  order_dispatch, unprocessed, end_session, drain_now, drain, answer, carry_out, dispatch,
}

pub set_message-IsSound : (m : OutboxMessage) (db : Db) → IsSound db → IsSound (set_message m db)
unfolding set_message
set_message-IsSound m db s = record { current = s.current; legal = s.legal }

-- An operation on the row of a message, whether it returns or raises.
pub flush_row-IsSound :
    {A : Type 0} (body : Effect Work A) (r : ServiceRequest) (db : Db)
    → Safe body
    → IsSound db
    → Current db r
    → IsSound (flush_row (body (open_work r db)) db).1
unfolding flush_row
flush_row-IsSound body r db safe s now =
    commit-IsSound db r (body (open_work r db)).1 s now (safe.at (open_work r db))

pub then_done-IsSound :
    {A : Type 0} (env : Env) (m : OutboxMessage) (end : Result A) (db : Db)
    → IsSound db
    → IsSound (then_done env m (end, db)).1
unfolding then_done
then_done-IsSound env m (ok a) db s = set_message-IsSound _ db s
then_done-IsSound env m (err p) db s = s

-- The row for a message is one of the table.
pub loaded_for-Current :
    (m : OutboxMessage) (db : Db) (r : ServiceRequest)
    → IsSound db
    → loaded_for m db ≡ some r
    → Current db r
unfolding loaded_for find_request
loaded_for-Current m db r s found = by_id (payload_text "request_id" m.payload) found
  where
    by_id :
        (id : Option String)
        → (elim id as (λ _. Option ServiceRequest) [ none ↦ none | some i ↦ find_request i db ])
          ≡ some r
        → Current db r
    by_id none e = absurd (cc)
    by_id (some i) e = find_first-All (Current db) (λ x. x.id == i) db.requests r s.current e

drain_dispatch_message-IsSound :
    (env : Env) (d : DispatchDeps) (m : OutboxMessage) (db : Db)
    → IsSound db
    → IsSound (drain_dispatch_message env d m db).1
unfolding drain_dispatch_message
drain_dispatch_message-IsSound env d m db s = by_row (loaded_for m db) refl
  where
    by_row :
        (loaded : Option ServiceRequest)
        → loaded_for m db ≡ loaded
        → IsSound
            (elim loaded as (λ _. Done × Db) [
              | none ↦ then_done env m (ok tt, db)
              | some r ↦ then_done env m (
                  flush_row
                    (execute_dispatch env d.resolver d.policy d.configs (open_work r db))
                    db)
            ]).1
    by_row none e = then_done-IsSound env m (ok tt) db s
    by_row (some r) e = then_done-IsSound env m _ _ (
        flush_row-IsSound (execute_dispatch env d.resolver d.policy d.configs) r db
          (Safe-execute_dispatch env d.resolver d.policy d.configs) s
          (loaded_for-Current m db r s e))

or_retry-IsSound :
    (env : Env) (error_text : Problem → String) (m : OutboxMessage) (end : Done) (db : Db)
    → IsSound db
    → IsSound (or_retry env error_text m (end, db))
unfolding or_retry
or_retry-IsSound env error_text m (ok u) db s = s
or_retry-IsSound env error_text m (err p) db s = set_message-IsSound _ db s

-- A batch keeps the database sound, if the drain of each message does.
drain_each-IsSound :
    (env : Env) (error_text : Problem → String) (drain : OutboxMessage → Db → Done × Db)
    → ((m : OutboxMessage) (db : Db) → IsSound db → IsSound (drain m db).1)
    → (batch : List OutboxMessage) (db : Db) → IsSound db
    → IsSound (drain_each env error_text drain batch db)
unfolding drain_each
drain_each-IsSound env error_text drain keeps [] db s = s
drain_each-IsSound env error_text drain keeps (m ∷ batch) db s =
    drain_each-IsSound env error_text drain keeps batch _
      (or_retry-IsSound env error_text m (drain m db).0 (drain m db).1 (keeps m db s))

claimed_db-IsSound :
    (kind : String) (now limit timeout : ℕ) (db : Db)
    → IsSound db
    → IsSound (claimed_db kind now limit timeout db).1
unfolding claimed_db
claimed_db-IsSound kind now limit timeout db s = record { current = s.current; legal = s.legal }

pub drain_batch-IsSound :
    (env : Env) (error_text : Problem → String) (kind : String) (timeout : ℕ)
    (drain : OutboxMessage → Db → Done × Db)
    → ((m : OutboxMessage) (db : Db) → IsSound db → IsSound (drain m db).1)
    → (db : Db) → IsSound db
    → IsSound (drain_batch env error_text kind timeout drain db).1
unfolding drain_batch
drain_batch-IsSound env error_text kind timeout drain keeps db s =
    let claimed = claimed_db kind env.now env.outbox_batch_size timeout db in
    drain_each-IsSound env error_text drain keeps claimed.0 claimed.1
      (claimed_db-IsSound kind env.now env.outbox_batch_size timeout db s)

pub drain_dispatch_batch-IsSound :
    (env : Env) (error_text : Problem → String) (d : DispatchDeps) (db : Db)
    → IsSound db
    → IsSound (drain_dispatch_batch env error_text d db).1
unfolding drain_dispatch_batch
drain_dispatch_batch-IsSound env error_text d =
    drain_batch-IsSound env error_text _ _ (drain_dispatch_message env d)
      (drain_dispatch_message-IsSound env d)

pub Safe-order_dispatch : (env : Env) (p : Principal) → Safe (order_dispatch env p)
unfolding order_dispatch
Safe-order_dispatch env p = search (safe_rules, enqueue_keeps) depth 20

pub end_session-IsSound :
    {A : Type 0} (end : Result A) (after db : Db)
    → IsSound after
    → IsSound db
    → IsSound (end_session (end, after) db).1
unfolding end_session
end_session-IsSound (ok a) after db sa s = sa
end_session-IsSound (err p) after db sa s = record { current = s.current; legal = s.legal }

pub drain_now-IsSound :
    (env : Env) (d : DispatchDeps) (id : Uuid) (db : Db)
    → IsSound db
    → IsSound (drain_now env d id db).1
unfolding drain_now
drain_now-IsSound env d id db s = by_message (unprocessed id db.outbox)
  where
    by_message :
        (found : Option OutboxMessage)
        → IsSound
            (elim found as (λ _. Done × Db) [
              | none ↦ (ok tt, db)
              | some m ↦ drain_dispatch_message env d m db
            ]).1
    by_message none = s
    by_message (some m) = drain_dispatch_message-IsSound env d m db s

drain-IsSound :
    (env : Env) (d : DispatchDeps) (id : Uuid) (db : Db)
    → IsSound db
    → IsSound (drain env d id db).1
unfolding drain
drain-IsSound env d id db s =
    let end = drain_now env d id db in
    end_session-IsSound end.0 end.1 db (drain_now-IsSound env d id db s) s

pub answer_keeps :
    (env : Env) (p : Principal) (id : Uuid) (end : Done) (db : Db)
    → (answer env p id (end, db)).1 ≡ db
unfolding answer
answer_keeps env p id (err q) db = refl
answer_keeps env p id (ok u) db = by_row (get_visible p id db)
  where
    by_row :
        (seen : Option ServiceRequest)
        → (elim seen as (λ _. Result RequestDetail × Db) [
          | none ↦ (err internal, db)
          | some r ↦ (ok (build_detail env p r []), db)
        ]).1
          ≡ db
    by_row none = refl
    by_row (some r) = refl

carry_out-IsSound :
    (env : Env) (p : Principal) (d : DispatchDeps) (id : Uuid) (end : Result Uuid) (db : Db)
    → IsSound db
    → IsSound (carry_out env p d id (end, db)).1
unfolding carry_out
carry_out-IsSound env p d id (err q) db s = s
carry_out-IsSound env p d id (ok outbox_id) db s =
    let after = drain env d outbox_id db in
    rw (answer_keeps env p id after.0 after.1) (drain-IsSound env d outbox_id db s)

-- Dispatching keeps the database sound, whatever the deliveries come to.
pub dispatch-IsSound :
    (env : Env) (p : Principal) (d : DispatchDeps) (id : Uuid) (db : Db)
    → IsSound db
    → IsSound (dispatch env p d id db).1
unfolding dispatch get_visible
dispatch-IsSound env p d id db s =
    carry_out-IsSound env p d id _ _
      (handle-IsSound (order_dispatch env p) (is_visible p id) db (Safe-order_dispatch env p) s)
