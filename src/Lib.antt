-- ===== src/Lib.antt =====
-- kb-partners, the service that takes requests for services, finds a partner for them and follows
-- them to the payment (backend/src/api). Modelled is its core: the request with its state machine,
-- who may see and do what, the handlers of the HTTP endpoints, the deadlines, the ranking of
-- partners, and the outbox through which everything is told to others.
--
-- The parts, and the files that model them, their sources as paths below backend/src/api:
--   Errors, Auth, Config         errors.py, auth/principal.py, scopes.py, system_actors.py, config.py
--   Sla, Sla/Calendar, Sla/Engine    sla/calendar.py, sla/engine.py
--   Matching                     matching/engine.py
--   Requests/Enums, Fsm, Models  requests/enums.py, fsm.py, models.py
--   Requests/Store               the tables and one unit of work (a SQLAlchemy session)
--   Requests/Access              requests/access.py, RequestRepository.get_visible
--   Requests/Lifecycle, Detail   apply_transition and build_detail of requests/service.py
--   Requests/Service             RequestService: transition, cancel, reschedule, messages, the card
--   Requests/Intake              IntakeService, with the idempotency key and the race for it
--   Requests/Classify, Assign    ClassificationService, AssignmentService
--   Requests/Acceptance, Partner requests/acceptance.py, partner.py
--   Requests/Calls               the endpoints that change a request by one transaction, and runs
--   Outbox                       outbox/repository.py
--   Webhooks, Notifications, Concierge    webhooks/emitter.py, notifications/events.py and
--                                emitter.py, agent/callback.py: what goes into the outbox
--   Requests/Pagination          requests/pagination.py, the list of RequestRepository and RequestService
--   Channels/Adapters            channels/adapters/*.py, one module per adapter
--   Channels/Resolver            channels/resolver.py
--   Channels/Dispatch, Drain     channels/dispatch.py, and the drain of the dispatch messages
--   Channels/Inbound             channels/inbound.py
--   Channels/Mail                channels/email_inbound.py, and its poll in tasks/actors.py
--   Channels/Configs             channels/service.py
--   Automation/Timers            automation/timers.py
--   Automation/Pipeline          automation/pipeline.py, automation/autonomy.py
--   Deliveries                   webhooks/drainer.py, agent/drainer.py, notifications/drainer.py
--   Retention                    retention/worker.py
--   System                       creations, endpoints, channels and workers interleaved in one database
--   Clients                      clients/circuit_breaker.py, retry.py and the request of base.py
--   Json                         the values of JSON that bodies, filters and configurations hold
--   Prelude                      shared helpers; Examples holds test data and runs on it
--
-- How they interact: an endpoint loads a row that its subject may see (get_visible), and runs on a
-- unit of work, the row with the tables beside it. A handler is an Effect: it changes the unit of
-- work and returns or raises a Problem. `handle` gives 404 without a row, commits a success and
-- rolls back an error; it serves the handlers that commit once, after all that may raise. apply_transition is the only step that changes a status; it writes the
-- journal and enqueues the webhook, the notifications and the callback in the same transaction.
-- DispatchService.dispatch commits DISPATCHED together with a message of the outbox; the drain hands
-- the request to execute_dispatch, which walks along the channels of the partners and writes an
-- attempt for each delivery. What a partner answers comes in through Inbound or Mail, where a nonce
-- is taken once. The timers move requests that wait too long to the next partner of the chain or to
-- FAILED_DISPATCH. A worker, unlike an endpoint, keeps what it changed before an exception that it
-- handles, and commits a batch at its end.
--
-- Conventions: an instant or a duration is a number of microseconds, a fraction or a confidence a
-- number of millionths, a UUID its text. A row that is loaded FOR UPDATE is held until the end of
-- the transaction, so that calls on requests follow one another. The clock, fresh identifiers and
-- the text of an instant come from Env; the rules of a time zone from Zone; kb-platform, rehome.one,
-- kb-support, the classifier's answer, the masking of texts, the partner's servers and the
-- signatures (HMAC) are arguments, as are the search of a request's number in a letter and parseaddr.
--
-- Bounds: search_day runs on fuel, the 1830 days of _MAX_DAYS in the source, after which the source
-- raises ValueError and the model answers none. decimal_rounds takes one round more than the
-- number, and a round drops a digit. retry_from counts down the attempts of the policy.
-- All other recursion is on lists and texts.
--
-- Not modelled: HTTP itself, pydantic's checks of bodies, logging and metrics, the attachments of
-- messages, the stamp that the mapper gives to updated_at on an update; the fan-out of a
-- notification, the cache of the clients, the classifier's rules, push (code of the service that
-- this library does not cover yet); adapters to other services, authentication by token, migrations
-- and the frontend (input and output, libraries, another language).
pub mod Prelude
pub mod Errors
pub mod Auth
pub mod Sla
pub mod Config
pub mod Matching
pub mod Requests
pub mod Outbox
pub mod Webhooks
pub mod Notifications
pub mod Concierge
pub mod Examples
pub mod Clients
pub mod Json
pub mod Channels
pub mod Automation
pub mod Retention
pub mod Deliveries
pub mod System
