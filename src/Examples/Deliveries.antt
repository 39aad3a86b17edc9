-- ===== src/Examples/Deliveries.antt =====
-- Runs of the dispatcher, the timers, the inbound channel and the list on one dispatched request.
use Prim.Native.String.{count}
use package.text.Mathlib.TextLemmas.{cons-append, nil-append, length-cons}
use kb_partners.Prelude.{
  zero, suc, ℕ, ◌≡◌, ◌⊎◌, refl, String, Bool, true, false, none, some, List, [], ◌∷◌, ◌==◌, ok, err,
  All, continue, arith, select, sort_by, insert_by, find_first, zeros, str_int, of_result, ◌>>=◌,
  if◌then◌else◌, pos,
}
use kb_partners.Errors.{unauthorized}
use kb_partners.Config.{Env}
use kb_partners.Sla.Engine.{SlaPolicy, from_settings, set_accept_deadline}
use kb_partners.Sla.Calendar.{
  add_business_seconds, search_day, finish, segment_start, has_segment, close_of,
}
use kb_partners.Requests.Partner.{stripped, strip_left, strip_right, is_space}
use kb_partners.Json.{end, field, text}
use kb_partners.Requests.Enums.{dispatched, failed_dispatch, classifying}
use kb_partners.Requests.Models.{ServiceRequest, email, sent, failed}
use kb_partners.Requests.Store.{
  Db, Work, add_attempt, set_request, set_tables, find_request, settle,
}
use kb_partners.Requests.Lifecycle.Safe.{IsSound}
use kb_partners.Requests.Lifecycle.Leads.{Leads}
use kb_partners.Requests.Calls.{to_transition}
use kb_partners.Requests.Intake.Drafts.{from_form}
use kb_partners.Requests.Pagination.{Codec, RequestListFilters, decode_cursor, encode_cursor}
use kb_partners.Requests.Pagination.Cursors.{IsFaithful, has_no_bar, decode_cursor-encode_cursor}
use kb_partners.Channels.{answered, PartnerChannelConfig, DeliveryResult}
use kb_partners.Channels.Resolver.{ChannelResolver}
use kb_partners.Channels.Dispatch.{
  count_attempts, conclude, execute_dispatch, try_partners, try_channels, active_channels_for,
  attempt_delivery, build_payload, settle_delivery, is_success, accept_from, put_accept_sla,
  attempt_row,
}
use kb_partners.Channels.Dispatch.Tour.{routes_of, with_attempts}
use kb_partners.Channels.Dispatch.Walks.{tour, partners_of, execute_dispatch-walk}
use kb_partners.Channels.Dispatch.First.{IsAnswer, execute_dispatch-first}
use kb_partners.Channels.Dispatch.Numbers.{Numbered, attempts_of, execute_dispatch-Numbered}
use kb_partners.Channels.Dispatch.Returns.{IsReliable}
use kb_partners.Channels.Drain
use kb_partners.Channels.Inbound.{
  Inbound, Libraries, handle_api, handle_for, is_authentic, is_fresh, verify_signature,
  config_by_inbound_token, dedup, parse_envelope, has_content, is_seen, take_in_for, correlate,
  is_own, take_in, receive, advance_if_named,
}
use kb_partners.Channels.Inbound.Accepted.{Handled, handle_api-Handled, handle_api-replay}
use kb_partners.Channels.Mail.{ImapMessage, MailLibraries, handle_mail}
use kb_partners.Channels.Mail.Accepted.{MailHandled, handle_mail-Handled}
use kb_partners.Automation.Timers.Chain.{Round, misses, misses-Failed}
use kb_partners.Retention.{is_expired, cutoff_of, anonymize_expired_raw_input}
use kb_partners.Retention.Erasure.{anonymize_expired_raw_input-wiped}
use kb_partners.System.{Step, create, http, deadline_scan, take_steps, take_steps-IsSound}
use kb_partners.Examples.{noon, settings, olga, alice, request_at, no_tables, one_request}
use kb_partners.Examples.Journal.{one_request-IsSound}
use kb_partners.Examples.Deadlines.{weekdays-HasHours}

abbrev policy : SlaPolicy
policy = from_settings settings

-- The channel of mail of the first partner, and that of the next one.
abbrev channel_of : String → PartnerChannelConfig
channel_of partner = record {
  id = partner;
  collaborator_id = partner;
  channel_type = email;
  priority = 1;
  config = end;
  inbound_token = some partner;
  is_active = true;
  health = none;
}

abbrev channels : List PartnerChannelConfig
channels = channel_of "clean-co" ∷ channel_of "shine" ∷ []

abbrev result_of : Bool → DeliveryResult
result_of success = record {
  outcome = if success then sent else failed;
  provider_response = end;
  external_ref = none;
}

-- The second partner takes every request.
abbrev shine_takes : ChannelResolver
shine_takes config payload = answered (result_of (config.collaborator_id == "shine"))

abbrev in_flight : ServiceRequest
in_flight = record (request_at dispatched) {
  fallback_chain = some ("shine" ∷ []);
  dispatched_at = some 43200000000;
}

abbrev flying : Db
flying = record { requests = in_flight ∷ []; tables = no_tables }

abbrev work : Work
work = record { request = in_flight; tables = no_tables }

execute_dispatch-walk_example : execute_dispatch noon shine_takes policy channels work ≡ (
    let t = tour noon shine_takes channels work in
    continue t.end (λ progress. conclude noon policy progress.chosen) (with_attempts t.rows work))
execute_dispatch-walk_example = execute_dispatch-walk noon shine_takes policy channels work

execute_dispatch-first_example :
    IsAnswer shine_takes in_flight
      (count_attempts "r1" no_tables)
      (routes_of channels (partners_of in_flight))
      true
      (execute_dispatch noon shine_takes policy channels work).1.request
unfolding execute_dispatch try_partners try_channels count_attempts select sort_by insert_by
    active_channels_for attempt_delivery build_payload settle_delivery is_success conclude
    accept_from put_accept_sla set_accept_deadline add_business_seconds search_day finish
    segment_start has_segment close_of attempt_row add_attempt set_request set_tables from_settings
    ◌>>=◌ of_result
execute_dispatch-first_example =
    execute_dispatch-first noon shine_takes policy channels work true refl

execute_dispatch-Numbered_example :
    Numbered 0
      (attempts_of "r1" (execute_dispatch noon shine_takes policy channels work).1.attempts)
unfolding select
execute_dispatch-Numbered_example =
    execute_dispatch-Numbered noon shine_takes policy channels work "r1" tt

abbrev delivery : Drain.DispatchDeps
delivery = record { resolver = shine_takes; policy = policy; configs = channels }

shine_takes-IsReliable : IsReliable shine_takes policy
unfolding from_settings
shine_takes-IsReliable = record {
  answers = λ config payload e. cc;
  computes = record {
    hours = weekdays-HasHours;
    day = 3;
    weekday = omega arith;
    working = refl;
    reach = omega arith;
  };
}

abbrev round : Round
round = record { env = noon; d = delivery }

misses-Failed_example : Leads work (misses (round ∷ round ∷ [])) (λ _ r. r.status ≡ failed_dispatch)
misses-Failed_example =
    misses-Failed (round ∷ round ∷ []) ("shine" ∷ []) work
      (shine_takes-IsReliable, (shine_takes-IsReliable, tt)) (omega arith)
      (record { status = refl; category = (_, refl); dispatched_at = (_, refl); chain = refl })

-- A toy of the libraries: the signature is the secret, and every body is the same answer.
abbrev libraries : Libraries
libraries = record {
  parse_int = λ s. some (pos 43200);
  hmac_sha256 = λ secret message. secret;
  read_envelope = λ body. some (record {
    request_ref = "r1";
    status = none;
    nonce = "n1";
    message = some "on the way";
    estimate_amount = some 900;
    estimate_note = none;
  });
  parse_uuid = λ s. some s;
}

abbrev hello : Inbound
hello = record { token = "clean-co"; raw_body = "{}"; signature = "clean-co"; timestamp = "43200" }

handle_api-Handled_example :
    Handled noon libraries channels hello flying
      (handle_api noon policy libraries channels hello flying)
handle_api-Handled_example = handle_api-Handled noon policy libraries channels hello flying

handle_api-replay_example :
    let after = (handle_api noon policy libraries channels hello flying).1 in
    let again =
      handle_api noon policy libraries channels
        (record hello { signature = "x"; timestamp = "1" })
        after in
    (again ≡ (ok "duplicate", after)) ⊎ (again ≡ (err unauthorized, after))
unfolding handle_api handle_for is_authentic is_fresh verify_signature config_by_inbound_token
    select find_first dedup parse_envelope has_content stripped strip_left strip_right is_space
    is_seen take_in_for correlate find_request is_own take_in receive advance_if_named settle ◌>>=◌
    set_tables
handle_api-replay_example =
    handle_api-replay noon noon policy libraries channels hello "x" "1" flying refl

-- A toy codec: an instant is as many zeros.
abbrev unary : Env
unary = record noon { isoformat = zeros }

abbrev codec : Codec
codec = record {
  b64encode = λ s. s;
  b64decode = λ s. some s;
  fromisoformat = λ s. some (count s);
  parse_uuid = λ s. some s;
}

count-zeros : (n : ℕ) → count (zeros n) ≡ n
unfolding zeros
count-zeros zero = refl
count-zeros (suc n) =
    rw
      (cons-append "0" "" (zeros n), nil-append (zeros n), length-cons "0" (zeros n), count-zeros n)
      refl

zeros-has_no_bar : (n : ℕ) → has_no_bar (zeros n) ≡ true
unfolding zeros has_no_bar
zeros-has_no_bar zero = refl
zeros-has_no_bar (suc n) =
    rw (cons-append "0" "" (zeros n), nil-append (zeros n)) (zeros-has_no_bar n)

codec-IsFaithful : IsFaithful unary codec
codec-IsFaithful = record {
  base64 = λ s. refl;
  instants = λ t. rw (count-zeros t) refl;
  bars = zeros-has_no_bar;
}

decode_cursor-encode_cursor_example :
    decode_cursor codec (encode_cursor unary codec 3 "r1")
    ≡ ok (record { created_at = 3; id = "r1" })
decode_cursor-encode_cursor_example =
    decode_cursor-encode_cursor unary codec 3 "r1" codec-IsFaithful refl

abbrev no_filters : RequestListFilters
no_filters = record {
  status = none;
  category = none;
  partner_id = none;
  created_from = none;
  created_to = none;
}

-- A new request comes in over the form, the operator classifies the old one, then the scan of the
-- deadlines runs.
abbrev steps : List (Env × Step)
steps =
    (
      noon,
      create (λ s. s) true alice
          (from_form
            (record {
              raw_input = "wash the windows";
              requester_id = none;
              booking_id = none;
              premises_id = none;
              source_ref = none;
            })
            none),
    )
    ∷ (
      noon,
      http (record {
        env = noon;
        principal = olga;
        request_id = "r1";
        endpoint = to_transition classifying;
      }),
    )
    ∷ (noon, deadline_scan delivery)
    ∷ []

take_steps-IsSound_example : IsSound (take_steps steps one_request)
unfolding str_int
take_steps-IsSound_example =
    take_steps-IsSound steps one_request (record { absent = (refl, tt) }, (tt, (tt, tt)))
      one_request-IsSound

-- More than thirty days later.
abbrev next_month : Env
next_month = record noon { now = 3000000000000 }

anonymize_expired_raw_input-wiped_example :
    All
      (λ r. is_expired (cutoff_of next_month) r ≡ false)
      (anonymize_expired_raw_input next_month flying).1.requests
unfolding select is_expired
anonymize_expired_raw_input-wiped_example =
    anonymize_expired_raw_input-wiped next_month flying refl (omega arith)

-- A toy of the libraries: every letter names the request, and addresses stand alone.
abbrev mail_libraries : MailLibraries
mail_libraries = record {
  parse_number = λ s. some (request_at dispatched).number;
  lower = λ s. s;
  parse_address = λ s. s;
  repr = λ v. "";
}

abbrev mail_channels : List PartnerChannelConfig
mail_channels =
    record (channel_of "clean-co") { config = field "email" (text "jobs@clean.co") end } ∷ []

abbrev letter : ImapMessage
letter = record {
  message_id = "m1";
  from_addr = "jobs@clean.co";
  subject = "Re: RQ-1";
  body = "accept";
}

handle_mail-Handled_example :
    MailHandled mail_libraries mail_channels letter flying
      (handle_mail noon policy mail_libraries mail_channels letter flying)
handle_mail-Handled_example =
    handle_mail-Handled noon policy mail_libraries mail_channels letter flying
