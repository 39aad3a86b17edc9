-- ===== src/Examples/Queues.antt =====
-- Runs of the outbox on two messages.
use kb_partners.Prelude.{
  ℕ, ◌<◌, ◌≤◌, ◌≡◌, ◌↔◌, refl, String, false, none, List, [], ◌∷◌, All, arith, length,
}
use kb_partners.Requests.Models.{OutboxMessage, pending, failed}
use kb_partners.Outbox.{id_in, claimable_batch, claim_batch}
use kb_partners.Requests.Store.{Db}
use kb_partners.Webhooks.{webhook_kind}
use kb_partners.Deliveries.{unreachable, claimed_for, drain_webhook_batch}
use kb_partners.Deliveries.Released.{BatchEnds, drain_webhook_batch-Released}
use kb_partners.Examples.{noon, one_request}
use kb_partners.Outbox.Claims.{claim_batch-exclusive, failing, failing-gives_up}

abbrev message : String → OutboxMessage
message i = record {
  id = i;
  kind = "webhook";
  payload = [];
  status = pending;
  attempts = 0;
  available_at = 0;
  last_error = none;
  created_at = 0;
  processed_at = none;
}

abbrev queue : List OutboxMessage
queue = message "m1" ∷ message "m2" ∷ []

claim_batch-exclusive_example :
    let first = claim_batch "webhook" 5 1 300 queue in
    All (λ m. id_in m.id first.0 ≡ false) (claimable_batch "webhook" 200 10 first.1)
claim_batch-exclusive_example =
    claim_batch-exclusive "webhook" "webhook" 5 200 1 10 300 queue (omega arith)

abbrev two_times : List ℕ
two_times = 1 ∷ 2 ∷ []

failing-gives_up_example :
    ((length two_times < 2) ↔ ((failing "down" 2 30 two_times (message "m1")).status ≡ pending))
    × ((2 ≤ length two_times) ↔ ((failing "down" 2 30 two_times (message "m1")).status ≡ failed))
failing-gives_up_example =
    failing-gives_up "down" 2 30 two_times (message "m1") refl refl (omega arith)

abbrev queued : Db
queued = record one_request { tables = record one_request.tables { outbox = queue } }

drain_webhook_batch-Released_example :
    BatchEnds noon
      (λ m. unreachable "down")
      (claimed_for noon webhook_kind queued).0
      queued
      (drain_webhook_batch noon (λ m. unreachable "down") queued)
drain_webhook_batch-Released_example =
    drain_webhook_batch-Released noon (λ m. unreachable "down") queued
