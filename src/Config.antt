-- ===== src/Config.antt =====
-- backend/src/api/config.py: the settings that the modelled code reads. Durations are in
-- microseconds, fractions and confidences in millionths.
use kb_partners.Prelude.{ℕ, Bool, String, List}
use kb_partners.Sla.Calendar.{Zone}

pub record Settings : Type 0 where
  pub webhook_url : String
  pub notifications_enabled : Bool
  pub concierge_api_base_url : String
  pub automation_time_based_enabled : Bool
  pub retention_worker_enabled : Bool
  pub raw_input_retention_days : ℕ
  pub notify_smtp_host : String
  pub notify_email_from : String
  pub telegram_api_base_url : String
  pub max_api_base_url : String
  pub sla_timezone : Zone
  pub sla_business_open_hour : ℕ
  pub sla_business_close_hour : ℕ
  pub sla_business_days : List ℕ
  pub sla_accept_hours : ℕ
  pub sla_perform_hours : ℕ
  pub sla_at_risk_fraction : ℕ
  pub outbox_batch_size : ℕ
  pub outbox_max_attempts : ℕ
  pub outbox_retry_base_seconds : ℕ
  pub outbox_visibility_timeout_seconds : ℕ

-- What an operation takes from outside: the settings, the clock (`datetime.now(UTC)`, read once
-- for an operation, in microseconds) and the stream of fresh identifiers (`uuid.uuid4`),
-- and the text of an instant (`datetime.isoformat`).
pub record Env : Type 0 where
  pub settings : Settings
  pub open settings use *
  pub now : ℕ
  pub uuid4 : ℕ → String
  pub isoformat : ℕ → String
