-- ===== src/Lib.antt =====
-- RCS bulk messaging: messages go out over RCS, with SMS as the fallback, in campaigns, through a queue
-- and an external aggregator.
--
-- The parts and how they interact. A message is created for one recipient of a campaign, saved, and a job
-- queued for it: by the delivery service, or in bulk by the orchestrator. The dispatcher takes a job, and
-- the service loads the message, asks the aggregator whether RCS reaches the number, sends, and records
-- what came of it: a failure is retried, or replaced by an SMS child, and the statistics of the campaign
-- are recalculated. Delivery reports come back as webhooks through a second queue and are applied to the
-- message. An exception rolls the transaction back and gives the job back to the queue.
--
-- The files:
--   * Prelude and its children: Boolean tests, lists, text as lists of codes, exceptions as results,
--     dictionaries, JSON, and times with and without a zone.
--   * Phone: `_normalize_phone` of apps/core/domain/message.py and of apps/core/domain/audience.py.
--   * Message: `class Message` of apps/core/domain/message.py. Types has the enumerations and data
--     classes, Content `to_sms_text`, Lifecycle the state machine, Fallback the fallback decision and
--     `create_fallback_message`, Steps the calls as a step relation. Invariant, Progress and FallbackLaws
--     have the proofs.
--   * Campaign: `class Campaign` of apps/core/domain/campaign.py, in the same way.
--   * Audience: `class Contact` and `class Audience` of apps/core/domain/audience.py. Invariant and Distinct
--     have the proofs.
--   * Store: the tables of apps/adapters/db/models.py and the repositories over them. Rows is
--     message_repo.py, Stats its counting and the aggregation of `recalculate_stats`, Campaigns is
--     campaign_repo.py; Status and Unique say what saving does to the status column and to the key.
--   * Queue: publishing, of apps/core/ports/queue.py and apps/adapters/queue/rabbitmq.py; Consumer is `subscribe`.
--   * OptOut: apps/adapters/db/repositories/opt_out_repo.py.
--   * Consent: `class OptIn` of apps/core/domain/opt_in.py, and in History what its calls amount to.
--   * Template: `class Template` of apps/core/domain/template.py. Placeholders has `str.replace` and the search for
--     placeholders, Lifecycle the constructor and the approval states, Render the rendering; Invariant,
--     Approval, Replacing and Rendering have the proofs. Store is template_repo.py, and Routes
--     apps/api/routes/v1/templates.py: Loading is `get_template_or_404`, Handlers the routes, and Statuses and
--     Unloaded say what they come to.
--   * Delivery: apps/core/services/delivery_service.py. World has the state of a call and its monad, and
--     `transaction` for apps/adapters/db/unit_of_work.py; Send is `process_message_delivery`; Intake is
--     `send_message` and `send_message_batch`; Jobs has `handle_delivery_status_update` and the handlers of
--     apps/workers/dispatcher/message_dispatcher.py and apps/workers/events/webhook_processor.py. Handlers,
--     Outcome, Attempt and Saved say what a job leaves, Requests what it asks of the aggregator, Frame what
--     every job keeps; Guarantees, Redelivery, Events, Once and AtMostOnce put them together over any number of
--     deliveries; Branches, Codeless, Unreached and Reported follow single branches. SmsWorker is
--     apps/workers/fallback/sms_fallback_worker.py.
--   * Contacts: the contacts of apps/adapters/db/repositories/audience_repo.py; Streaming, Pages and Complete are
--     about `stream_contacts`.
--   * Service: apps/core/services/campaign_service.py. Events is the event store, event_repo.py, Calls the
--     methods; Laws says what they refuse, and Activation what an activation leaves.
--   * Orchestrator: apps/workers/orchestrator/campaign_orchestrator.py. Recipients is whom the messages go to, Job
--     the handler; Batches, Dispatch and Campaign say what a job leaves, Repeated what a second one does, and
--     Activated joins the service to it.
--   * Breaker: apps/core/resilience/redis_circuit_breaker.py, over the keys in Redis. Runs has the calls of several
--     workers, one after the other; Opening, Waiting, Closing and Moves say how the states follow one another.
--   * Rcssms: apps/adapters/aggregators/rcssms_adapter.py. Answers reads the answers and the delivery reports, Sending
--     is `send_rcs_message`; Unsuccessful is about its answers; Resent joins the delivery service to it, and
--     Repeated the queue.
--
-- The model. Identifiers are numbers, and `uuid4` and the clock are arguments: an instant is in seconds, and
-- the clock stands still during a call. Text is a list of code points. A method returns the changed object or
-- raises; a job works on a session of the loaded message and the world, and an exception keeps what was
-- changed before it, until the transaction rolls the tables back, which takes back neither what was published
-- nor what was sent. A commit succeeds, but for `committing`, of which Guarantees says what a commit that
-- raises leaves. A campaign or template that is saved over its row has been loaded from it in the same
-- session, with the very lists and dictionaries of the row, so that what is changed in them in place is not
-- written. The aggregator and the broker are the record `Env`, of any functions. A table is a list of rows.
-- All loops are over lists, but that of `stream_contacts`, which has one page more for fuel than the table has
-- rows: each page but the last has a row, and the theorem on it says that nothing is cut off. `subscribe` is
-- followed for a number of deliveries, since it need not end. The keys of the circuit breaker are changed by
-- one call after the other, and Redis may answer or not at each round trip.
--
-- What is not modelled: logging and metrics; the constraints of the tables but for the primary keys and the
-- uniqueness of contacts: a row is taken whatever the length of its number, and whether its campaign is there;
-- jobs that run at the same time, and workers that stop in the middle of one, so the theorems on many
-- deliveries are about one after the other; the dead-letter queue, the adapters but for sending and reading in
-- that of RCS, the rate limiter, the rows of the audiences and the HTTP interface, but for the templates; the
-- consent history of the table `opt_ins`, which is changed in place under the ORM.
pub mod Prelude
pub mod Phone
pub mod Message
pub mod Campaign
pub mod Store
pub mod Queue
pub mod OptOut
pub mod Consent
pub mod Template
pub mod Contacts
pub mod Breaker
pub mod Rcssms
pub mod Service
pub mod Orchestrator
pub mod Audience
pub mod Delivery
