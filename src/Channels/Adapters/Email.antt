-- ===== src/Channels/Adapters/Email.antt =====
-- backend/src/api/channels/adapters/email.py: a letter to the partner, over SMTP.
use Prim.Native.String.{◌++◌}
use kb_partners.Prelude.{◌||◌, String, none, some, is_empty, if◌then◌else◌}
use kb_partners.Config.{Settings}
use kb_partners.Json.{Json, text, end, field, str_field}
use kb_partners.Requests.Models.{sent}
use kb_partners.Channels.{
  ChannelConfig, DeliveryPayload, Delivery, answered, crashed, Health, healthy, unhealthy,
}
use kb_partners.Channels.Adapters.{refused}

pub record EmailMessage : Type 0 where
  pub from_address : String
  pub to_address : String
  pub subject : String
  pub content : String

-- Sending returns, or raises `SMTPException` or `OSError`, of a given class, or another exception.
pub data Sending : Type 0 where
  completed : Sending
  smtp_error : (class_name : String) → Sending
  broken : Sending

abbrev pub SmtpSender : Type 0
SmtpSender = EmailMessage → Sending

unfoldable pub build_message : DeliveryPayload → (to_address : String) → Settings → EmailMessage
build_message p to_address settings = record {
  from_address = settings.notify_email_from;
  to_address = to_address;
  subject = "Новая заявка " ++ p.number ++ " [" ++ p.category ++ "]";
  content =
      "Заявка: " ++ p.number ++ "\n" ++ "Категория: " ++ p.category ++ "\n" ++ "Описание: "
      ++ p.summary ++ "\n" ++ "Идемпотентность: " ++ p.idempotency_key;
}

unfoldable pub sent_or : Sending → Delivery
unfolding refused
sent_or (smtp_error class_name) = answered (refused class_name)
sent_or broken = crashed
sent_or completed = answered (record {
  outcome = sent;
  provider_response = field "status" (text "sent") end;
  external_ref = none;
})

unfoldable pub deliver :
    (repr : Json → String) → Settings → SmtpSender → DeliveryPayload → ChannelConfig → Delivery
unfolding build_message refused sent_or str_field
deliver repr settings sender p c =
    let to_address = str_field repr "email" "" c.config in
    if is_empty settings.notify_smtp_host
      || is_empty settings.notify_email_from
      || is_empty to_address
    then answered (refused "missing_email_config")
    else sent_or (sender (build_message p to_address settings))

unfoldable pub healthcheck : Settings → Health
healthcheck settings =
    if is_empty settings.notify_smtp_host || is_empty settings.notify_email_from
    then record { status = unhealthy; detail = some "smtp not configured" }
    else record { status = healthy; detail = none }
