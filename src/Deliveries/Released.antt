-- ===== src/Deliveries/Released.antt =====
-- What becomes of each message of a batch.
use kb_partners.Prelude.{
  ℕ, length, ◌+◌, ◌≤◌, ◌<◌, ◌≡◌, ◌⊎◌, inl, inr, refl, true, false, String, ◌==◌, Option, none, some,
  Result, ok, err, List, [], ◌∷◌, eq_iff, leb, All, All-update_where, Bool-cases, arith,
}
use mathlib.Core.Path.{subst}
use kb_partners.Errors.{internal}
use kb_partners.Config.{Env}
use kb_partners.Requests.Models.{OutboxMessage, pending, done, failed}
use kb_partners.Requests.Store.{Db}
use kb_partners.Outbox.{id_in, mark_done, mark_failed_or_retry, retry_delay}
use kb_partners.Webhooks.{webhook_kind}
use kb_partners.Channels.Drain.{set_message}
use kb_partners.Deliveries.{
  Delivered, answered, unreachable, raised, delivered_message, deliver_each, claimed_for, end_batch,
  deliver_batch, drain_webhook_batch,
}

-- A message that no worker holds any more: delivered, given up at the limit of attempts, or
-- waiting below the limit until its backoff is over.
abbrev pub Released : Env → OutboxMessage → Type 0
Released env m =
    (m.status ≡ done)
    ⊎ ((m.status ≡ failed) × (env.outbox_max_attempts ≤ m.attempts))
    ⊎ ((m.status ≡ pending)
        × (m.attempts < env.outbox_max_attempts)
        × (m.available_at ≡ env.now + retry_delay env m))

retried-Released :
    (env : Env) (error : String) (m : OutboxMessage)
    → let m' =
        mark_failed_or_retry error env.now env.outbox_max_attempts
          (env.now + retry_delay env m)
          m in
      Released env m' × (m'.id ≡ m.id)
unfolding mark_failed_or_retry retry_delay
retried-Released env error m = elim (Bool-cases (leb env.outbox_max_attempts m.attempts)) [
  | inl over ↦ (inr (inl (ground arith, ground arith)), ground arith)
  | inr under ↦ (inr (inr (ground arith, ground arith, ground arith)), ground arith)
]

mark_done-Released :
    (env : Env) (m : OutboxMessage)
    → Released env (mark_done env.now m) × ((mark_done env.now m).id ≡ m.id)
unfolding mark_done
mark_done-Released env m = (inl refl, refl)

-- Read along the message that is written.
left_by {κ} :
    (P : OutboxMessage → Type κ) (m m' : OutboxMessage) {x : OutboxMessage}
    → P x
    → some x ≡ some m'
    → P m'
left_by P m m' {x} h e = let same : x ≡ m' = cc in subst P same h

not_raised :
    (env : Env) (refusal : String) (m m' : OutboxMessage) (d : Delivered)
    → delivered_message env refusal m d ≡ some m'
    → ¬ (d ≡ raised)
unfolding delivered_message
not_raised env refusal m m' raised e h = cc e
not_raised env refusal m m' (answered b) e h = cc h
not_raised env refusal m m' (unreachable error) e h = cc h

delivered_message-Released :
    (env : Env) (refusal : String) (m m' : OutboxMessage) (d : Delivered)
    → delivered_message env refusal m d ≡ some m'
    → Released env m' × (m'.id ≡ m.id)
unfolding delivered_message
delivered_message-Released env refusal m m' (answered true) e =
    left_by (λ x. Released env x × (x.id ≡ m.id)) m m' (mark_done-Released env m) e
delivered_message-Released env refusal m m' (answered false) e =
    left_by (λ x. Released env x × (x.id ≡ m.id)) m m' (retried-Released env refusal m) e
delivered_message-Released env refusal m m' (unreachable error) e =
    left_by (λ x. Released env x × (x.id ≡ m.id)) m m' (retried-Released env error m) e
delivered_message-Released env refusal m m' raised e = absurd (cc)

delivered_message-none :
    (env : Env) (refusal : String) (m : OutboxMessage) (d : Delivered)
    → delivered_message env refusal m d ≡ none
    → d ≡ raised
unfolding delivered_message
delivered_message-none env refusal m (answered true) e = absurd (cc)
delivered_message-none env refusal m (answered false) e = absurd (cc)
delivered_message-none env refusal m (unreachable error) e = absurd (cc)
delivered_message-none env refusal m raised e = refl

-- While a batch is delivered: a row of the whole batch is still to come, or released.
abbrev InTurn : Env → (whole rest : List OutboxMessage) → OutboxMessage → Type 0
InTurn env whole rest r = id_in r.id whole ≡ true → (id_in r.id rest ≡ true) ⊎ Released env r

other_row :
    (r m : OutboxMessage) (id : String) (batch : List OutboxMessage)
    → id ≡ m.id
    → (r.id == id) ≡ false
    → id_in r.id (m ∷ batch) ≡ true
    → id_in r.id batch ≡ true
unfolding id_in
other_row r m id batch same apart h =
    let apart' : (r.id == m.id) ≡ false = rw same at apart in
    ground (arith, eq_iff m.id r.id, eq_iff r.id m.id)

-- The delivery of one of the messages ends in an exception that the worker does not handle.
abbrev pub Raises : (OutboxMessage → Delivered) → List OutboxMessage → Type 0
Raises deliver [] = ⊥
Raises deliver (m ∷ batch) = (deliver m ≡ raised) ⊎ Raises deliver batch

-- The loop raised, or it left every message of the batch released.
abbrev EachEnds :
    Env → (OutboxMessage → Delivered) → (whole batch : List OutboxMessage) → Option Db → Type 0
EachEnds env deliver whole batch none = Raises deliver batch
EachEnds env deliver whole batch (some after) =
    ¬ Raises deliver batch × All (InTurn env whole []) after.outbox

deliver_each-Ends :
    (env : Env) (refusal : String) (deliver : OutboxMessage → Delivered)
    (whole batch : List OutboxMessage) (db : Db)
    → All (InTurn env whole batch) db.outbox
    → EachEnds env deliver whole batch (deliver_each env refusal deliver batch db)
unfolding deliver_each set_message
deliver_each-Ends env refusal deliver whole [] db all = (λ h. h, all)
deliver_each-Ends env refusal deliver whole (m ∷ batch) db all =
    by_message (delivered_message env refusal m (deliver m)) refl
      (λ m' e. deliver_each-Ends env refusal deliver whole batch (set_message m' db) (set m' e))
  where
    set :
        (m' : OutboxMessage)
        → delivered_message env refusal m (deliver m) ≡ some m'
        → All (InTurn env whole batch) (set_message m' db).outbox
    set m' e =
        let end = delivered_message-Released env refusal m m' (deliver m) e in
        All-update_where (InTurn env whole (m ∷ batch)) (InTurn env whole batch)
          (λ row. row.id == m'.id) (λ _. m') db.outbox (λ r turn same h. inr end.0)
          (λ r turn apart h. elim (turn h) [
            | inl waits ↦ inl (other_row r m m'.id batch end.1 apart waits)
            | inr released ↦ inr released
          ])
          all

    quiet :
        (m' : OutboxMessage)
        → delivered_message env refusal m (deliver m) ≡ some m'
        → ¬ (deliver m ≡ raised)
    quiet m' e h = not_raised env refusal m m' (deliver m) e h

    by_rest :
        (end : Option Db)
        → ¬ (deliver m ≡ raised)
        → EachEnds env deliver whole batch end
        → EachEnds env deliver whole (m ∷ batch) end
    by_rest none q ends = inr ends
    by_rest (some after) q ends =
        (λ h. elim h [ inl now ↦ q now | inr later ↦ ends.0 later ], ends.1)

    by_message :
        (d : Option OutboxMessage)
        → delivered_message env refusal m (deliver m) ≡ d
        → ((m' : OutboxMessage)
            → delivered_message env refusal m (deliver m) ≡ some m'
            → EachEnds env deliver whole batch
                (deliver_each env refusal deliver batch (set_message m' db)))
        → EachEnds env deliver whole (m ∷ batch) (elim d as (λ _. Option Db) [
          | none ↦ none
          | some m' ↦ deliver_each env refusal deliver batch (set_message m' db)
        ])
    by_message none e next = inl (delivered_message-none env refusal m (deliver m) e)
    by_message (some m') e next =
        by_rest (deliver_each env refusal deliver batch (set_message m' db)) (quiet m' e)
          (next m' e)

first_turn : (env : Env) (batch rows : List OutboxMessage) → All (InTurn env batch batch) rows
first_turn env batch [] = tt
first_turn env batch (r ∷ rows) = (λ h. inl h, first_turn env batch rows)

last_turn-Released :
    (env : Env) (batch rows : List OutboxMessage)
    → All (InTurn env batch []) rows
    → All (λ r. id_in r.id batch ≡ true → Released env r) rows
unfolding id_in
last_turn-Released env batch [] all = tt
last_turn-Released env batch (r ∷ rows) all = (
  λ h. elim (all.0 h) [ inl e ↦ absurd (cc) | inr released ↦ released ],
  last_turn-Released env batch rows all.1,
)

-- How a run on a claimed batch ends: an exception passes and the database is as before the claim,
-- or the run counts the batch and every message of it is released.
abbrev pub BatchEnds :
    Env → (OutboxMessage → Delivered) → (batch : List OutboxMessage) → Db → Result ℕ × Db → Type 0
BatchEnds env deliver batch db (end, after) =
    (Raises deliver batch × (end ≡ err internal) × (after ≡ db))
    ⊎ (¬ Raises deliver batch
        × (end ≡ ok (length batch))
        × All (λ r. id_in r.id batch ≡ true → Released env r) after.outbox)

end_batch-Ends :
    (env : Env) (deliver : OutboxMessage → Delivered) (batch : List OutboxMessage) (db : Db)
    (end : Option Db)
    → EachEnds env deliver batch batch end
    → BatchEnds env deliver batch db (end_batch (length batch) end db)
end_batch-Ends env deliver batch db none ends = inl (ends, refl, refl)
end_batch-Ends env deliver batch db (some after) ends =
    inr (ends.0, refl, last_turn-Released env batch after.outbox ends.1)

-- A run of the worker for webhooks ends in one of two ways. Where the delivery of a claimed
-- message ends in an exception other than ExternalServiceError, the exception passes and the
-- database stays as it was before the claim. Otherwise the run answers with the size of its batch
-- and no message of the batch is held any more: each is done, or failed with its attempts used up,
-- or waits below the limit of attempts until the backoff of its attempts has passed.
pub drain_webhook_batch-Released :
    (env : Env) (deliver : OutboxMessage → Delivered) (db : Db)
    → BatchEnds env deliver
        (claimed_for env webhook_kind db).0
        db
        (drain_webhook_batch env deliver db)
unfolding drain_webhook_batch deliver_batch
drain_webhook_batch-Released env deliver db =
    let claim = claimed_for env webhook_kind db in
    let loop = deliver_each env "subscriber returned non-2xx" deliver claim.0 claim.1 in
    end_batch-Ends env deliver claim.0 db loop (
      deliver_each-Ends env "subscriber returned non-2xx" deliver claim.0 claim.0 claim.1
        (first_turn env claim.0 claim.1.outbox))
