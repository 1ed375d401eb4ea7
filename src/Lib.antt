-- ===== src/Lib.antt =====
-- Verification of the aegis agent platform, a multi-tenant platform that runs model-driven work under
-- leases, policies and budgets.
--
-- The parts and how they interact. A request belongs to a tenant. The policy evaluator and the
-- authorization service decide what the tenant may do. Work moves through a state machine, and whoever
-- executes it holds a fenced lease. The work repository writes each move to the ledger and to the work
-- table in one transaction of the database; an outbox carries messages to the queue, and an inbox keeps
-- a message from being received twice. A model call is routed to an admissible model of the catalog; the
-- ledger reserves its budget under the lease, records the attempts, and settles the reservation by a
-- charge or a release. Circuit breakers and token buckets guard each model. Workers take deliveries in a
-- fair order and wait between attempts.
--
-- Paths are from src/aegis_agent_platform.
--   Domain/Events   domain/events.py: event types and envelopes (`EventEnvelope`)
--   Domain/Work     domain/work.py: `next_status` and its table, leases; Lifecycle has histories,
--                   Request the requests and the events of transitions
--   Domain/Model    domain/model.py: requests, responses, usage, prices
--   Identity        identity/models.py, identity/authorization.py: `AuthorizationService.decide` is
--                   `decide`; Access has its theorems, Permits who is allowed what
--   Policy          policy/__init__.py: `PolicyEvaluator.evaluate` is `evaluate`; Outcome has its theorems
--   Gateway/Catalog gateway/catalog.py: `ModelRouter.route` is `route`; Routing has its
--                   theorems, Preference the order of the candidates
--   Gateway/Repository  gateway/repository.py: `InMemoryGatewayRepository`. The state is the record
--                   `Repository`; `completed` is `completed_response`, the other methods keep their
--                   names, in Operations and Settlement. Guards, Outcomes and Grants say when a call is
--                   carried out, Effects and Promises what it leaves, Budget and Totals what it adds to the
--                   totals, Reachable what holds after any calls, Duplicates what idempotency keys
--                   prevent
--   Gateway/Resilience  gateway/resilience.py: `CircuitBreaker` (Circuit), `TokenBucket` (Bucket),
--                   `ProviderControls`, `RetryPolicy`
--   Runtime/Backoff runtime/backoff.py: `ExponentialBackoff.delay`
--   Runtime/Scheduler   runtime/__init__.py: `FairTenantScheduler`, and the deliveries of
--                   queueing/__init__.py; Order is about `add`, Pop and Turns about `pop`
--   Storage         the database as the record `Database`, transactions, and UPDATE on one row;
--                   Triples and Runs say what a method leaves; Ledger is the appends and reads of
--                   `PostgresEventStore` in event_store/postgres.py (Writes: what they wrote, Races:
--                   who comes second), Outbox its outbox (Settled)
--   Runtime/Work    runtime/postgres.py: `PostgresWorkRepository`. Statements, Claims, Settle, Requeue,
--                   Reconcile and Expire have the operations, under their names. Agreement says when the
--                   status column agrees with the ledger; Edges, Shifts and Moves take the statements,
--                   Appends and Loads the transactions, Refinement, Endings, Failures and Reconciled
--                   the operations; Promises, Duties and Unstarted have the theorems
--   Runtime/Operations  runtime/operations.py: `WorkerOperations`, its calls
--                   (`approve_dead_letter_requeue` is `approve`, `requeue_dead_letter` is `requeue`,
--                   `cancel` is `cancel_work`)
--   Prelude         tests, lists, dictionaries, sorting and methods that raise
--
-- How the code is read. Names, identifiers and instants are natural numbers: names are numbered in the
-- order of their strings, 0 being the empty string; an instant counts microseconds. Amounts of money
-- are exact multiples of a small fraction of a dollar; the rounding of Decimal is left out, and so is
-- that of floats in the controls. Numbers that a constructor requires not to be negative are natural
-- numbers; other checks of a constructor are Booleans (`request_is_valid` and its like). What the
-- jitter of a delay gives is an integer. A method that changes its object and may raise maps a state to a result and a state, so that what was written
-- before a raise stays written. The asyncio lock of the ledger makes each of its methods one step. What
-- the ledger is given from outside is the record `Host`: the generator of identifiers, SHA-256 of
-- serialised JSON, and the first instant of a month. The router's parameter `catalog_key` is the number
-- of `provider/model`. No definition needs fuel: every loop runs over a list.
--
-- The database. A statement of SQL is a function on the tables, by their primary keys; a transaction is
-- one step, which the row locks of the code give it, and it is undone when it raises or when the database
-- reports a fault instead of the commit. Other sessions change the database before each transaction of a
-- call, in any way: a theorem says what it needs of them. Constraints other than primary keys and row
-- level security are such faults. A call of the repository draws the k-th value of `uuid_factory` and
-- reads the clock as functions that are given; the readings inside one statement are one. What Python's
-- library does to the values of a payload is the record `Python`.
--
-- Not modelled. The gateway service, projections, the worker supervisor, the in-memory queue and the
-- gateway ledger on Postgres are left for later, and so are the status pages of the work repository and
-- of its operations, and the theorem on its heartbeat; the adapters for Redis, HTTP and model
-- providers, the control plane, authentication and telemetry are input and output.
pub mod Prelude
pub mod Domain
pub mod Identity
pub mod Policy
pub mod Storage
pub mod Gateway
pub mod Runtime
