-- ===== src/Runtime/Work/Tests.antt =====
-- The work repository's theorems on one piece of work of one tenant.
use aegis_agent_platform.Prelude.{
  ℕ, ◌+◌, ◌≡◌, ◌≢◌, refl, true, ltb, none, some, List, [], ◌∷◌, ok, err, lookup, pair_eq, inl, inr,
  Bool-cases, arith,
}
use aegis_agent_platform.Domain.Events.{
  EventEnvelope, DomainEventType, work_requested, work_published, work_claimed, work_started,
  work_failed, work_dead_lettered,
}
use aegis_agent_platform.Domain.Work.{
  WorkStatus, published, claimed, running, dead_letter, WorkLease, worker_bug, next_status,
}
use aegis_agent_platform.Domain.Work.Lifecycle.{replay}
use aegis_agent_platform.Domain.Work.Request.{WorkRequest}
use aegis_agent_platform.Storage.{
  Database, Session, concurrency_error, fencing_error, WorkItem, LeaseRow, ApprovalRow, update_item,
  update_lease,
}
use aegis_agent_platform.Storage.Ledger.{append_in_transaction, append_then, check_fence}
use aegis_agent_platform.Runtime.Scheduler.{QueueDelivery}
use aegis_agent_platform.Runtime.Work.{Python}
use aegis_agent_platform.Runtime.Work.Statements.{
  complete_in_transaction, dead_letter_in_transaction, release_lease,
}
use aegis_agent_platform.Runtime.Work.Claims.{claim_projection, upsert_lease, transport_envelope}
use aegis_agent_platform.Runtime.Work.Requeue.{RequeueApproval, requeue_projection, check_approval}
use aegis_agent_platform.Runtime.Work.Agreement.{Agrees, history, is_same}
use aegis_agent_platform.Runtime.Work.Promises.{
  registering, failing, perform, settle_lease, perform-Agrees, AgreesStarted, settle-Agrees,
  claim_projection-fences,
}
use aegis_agent_platform.Runtime.Work.Duties.{requeue_projection-approved, requeue_projection-once}
use aegis_agent_platform.Runtime.Work.Unstarted.{dead_letter_claimed-disagrees}

abbrev python : Python
python = record {
  str_of = λ v. 1;
  int_of = λ v. some 1;
  instant_of = λ v. some 1;
  encoded_length = λ p. 100;
  same_json = λ p q. true;
}

abbrev alone : Session
alone = record {
  uuid_factory = λ k. 100 + k;
  clock_timestamp = λ k. 50 + k;
  others = λ i s. s;
  commit_fault = λ i s. none;
}

abbrev empty : Database
empty = record {
  event_stream_heads = [];
  events = [];
  outbox_messages = [];
  inbox_messages = [];
  work_items = [];
  work_leases = [];
  work_dead_letters = [];
  work_requeue_approvals = [];
}

abbrev request : WorkRequest
request = record {
  work_id = 9;
  tenant_id = 7;
  work_kind = 3;
  idempotency_key = 4;
  correlation_id = 5;
  requested_at = 1;
  payload = [];
  causation_id = none;
  max_attempts = 3;
  timeout_seconds = 60;
  schema_version = 1;
}

abbrev event : DomainEventType → ℕ → EventEnvelope
event kind n = record {
  event_id = n;
  tenant_id = 7;
  aggregate_id = 9;
  event_type = kind;
  schema_version = 1;
  occurred_at = n;
  payload = [];
  correlation_id = some 5;
  causation_id = none;
  aggregate_sequence = n;
  global_position = some n;
  idempotency_key = none;
  previous_aggregate_sequence = none;
}

abbrev item : WorkStatus → WorkItem
item status = record {
  work_kind = 3;
  idempotency_key = 4;
  status = status;
  requested_at = 1;
  available_at = 1;
  max_attempts = 3;
  timeout_seconds = 60;
  request_event_id = 1;
  correlation_id = some 5;
  causation_id = none;
  request_payload = [];
  attempt_count = 1;
  completed_at = none;
  cancel_requested_at = none;
  last_error_code = none;
}

abbrev lease : WorkLease
lease = record {
  work_id = 9;
  tenant_id = 7;
  token = 11;
  generation = 2;
  owner = 6;
  attempt = 2;
  acquired_at = 2;
  heartbeat_at = 2;
  expires_at = 90;
}

abbrev lease_row : LeaseRow
lease_row = record {
  lease_token = 11;
  generation = 2;
  owner = 6;
  acquired_at = 2;
  heartbeat_at = 2;
  expires_at = 90;
  released_at = none;
  release_reason = none;
}

abbrev database : List EventEnvelope → ℕ → WorkStatus → Database
database es head status = record empty {
  events = es;
  event_stream_heads = ((7, 9), head) ∷ [];
  work_items = ((7, 9), item status) ∷ [];
  work_leases = ((7, 9), lease_row) ∷ [];
}

abbrev claimed_events : List EventEnvelope
claimed_events = event work_requested 1 ∷ event work_published 2 ∷ event work_claimed 3 ∷ []

abbrev started_events : List EventEnvelope
started_events =
    event work_requested 1
    ∷ event work_published 2
    ∷ event work_claimed 3
    ∷ event work_started 4
    ∷ []

empty-Agrees : Agrees empty
unfolding history replay
empty-Agrees = record { at = λ t w. refl }

perform-Agrees_example : Agrees (perform python alone 7 (registering request 1 2) empty)
perform-Agrees_example =
    perform-Agrees python alone 7 (registering request 1 2) empty (λ i d h. h) empty-Agrees

same_key : (t w : ℕ) → is_same t w 7 9 ≡ true → (t ≡ 7) × (w ≡ 9)
same_key t w h = (ground (arith, h), ground (arith, h))

claimed-Agrees : Agrees (database claimed_events 3 claimed)
unfolding history replay next_status
claimed-Agrees = record {
  at = λ t w. elim (Bool-cases (is_same t w 7 9)) [
    | inl same ↦ let (e₁, e₂) = same_key t w same in rw (e₁, e₂) refl
    | inr other ↦ ground (arith, other)
  ];
}

running-AgreesStarted : AgreesStarted lease (database started_events 4 running)
unfolding history replay next_status
running-AgreesStarted = record {
  agrees = record {
    at = λ t w. elim (Bool-cases (is_same t w 7 9)) [
      | inl same ↦ let (e₁, e₂) = same_key t w same in rw (e₁, e₂) refl
      | inr other ↦ ground (arith, other)
    ];
  };
  started = refl;
}

abbrev delivery : QueueDelivery
delivery = record {
  stream_entry_id = 1;
  envelope = transport_envelope request 1 2;
  delivery_count = 1;
  idle_milliseconds = 0;
}

settle-Agrees_example : Agrees (
    settle_lease python alone 7 lease
      (failing delivery 60 worker_bug "lost" none)
      (database started_events 4 running))
settle-Agrees_example =
    settle-Agrees python alone 7 lease (failing delivery 60 worker_bug "lost" none)
      (database started_events 4 running) (λ i d h. h) running-AgreesStarted

abbrev next_lease : WorkLease
next_lease = record lease { token = 12; generation = 3 }

abbrev published_database : Database
published_database = database (event work_requested 1 ∷ event work_published 2 ∷ []) 2 published

abbrev reclaimed : Database
reclaimed = (claim_projection next_lease 5 40 60 61 published_database).1

reclaimed_lem : claim_projection next_lease 5 40 60 61 published_database ≡ (ok tt, reclaimed)
unfolding claim_projection update_item upsert_lease
reclaimed_lem = refl

claim_projection-fences_example :
    check_fence alone 1 7 9 11 2 70 reclaimed ≡ (err (fencing_error 2 0), reclaimed)
claim_projection-fences_example =
    claim_projection-fences alone 1 next_lease 5 40 60 61 published_database reclaimed 11 2 70
      reclaimed_lem (ground arith)

abbrev approval : RequeueApproval
approval = record { approval_id = 21; approved_by = 31; approved_at = 5; scope = "dlq:requeue" }

abbrev approval_row : ApprovalRow
approval_row = record {
  work_id = 9;
  approved_by = 31;
  approved_at = 5;
  expires_at = 80;
  consumed_at = none;
  consumed_by = none;
}

abbrev dead_database : Database
dead_database = record (database [] 0 dead_letter) {
  work_requeue_approvals = ((7, 21), approval_row) ∷ [];
}

abbrev requeued : Database
requeued = (requeue_projection 7 approval 9 32 60 61 62 dead_database).1

requeued_lem : requeue_projection 7 approval 9 32 60 61 62 dead_database ≡ (ok tt, requeued)
unfolding requeue_projection check_approval update_item
requeued_lem = refl

requeue_projection-approved_example :
    (row : ApprovalRow) × (lookup (7, 21) dead_database.work_requeue_approvals ≡ some row)
    × (row.work_id ≡ 9)
    × (row.approved_by ≢ 32)
    × (row.consumed_at ≡ none)
    × (ltb 61 row.expires_at ≡ true)
requeue_projection-approved_example =
    requeue_projection-approved 7 approval 9 32 60 61 62 dead_database requeued requeued_lem

requeue_projection-once_example :
    requeue_projection 7 approval 10 33 64 65 66 requeued ≡ (err (concurrency_error 1 0), requeued)
requeue_projection-once_example =
    requeue_projection-once 7 approval 9 10 32 33 60 64 61 65 62 66 dead_database requeued
      requeued_lem

abbrev failures : List EventEnvelope
failures = event work_failed 0 ∷ event work_dead_lettered 0 ∷ []

abbrev buried : Database
buried =
    (append_then failures 3 [] (dead_letter_in_transaction lease 60 "lost")
      (database claimed_events 3 claimed)).1

buried_lem :
    append_then failures 3 []
      (dead_letter_in_transaction lease 60 "lost")
      (database claimed_events 3 claimed)
    ≡ (ok 5, buried)
unfolding append_in_transaction dead_letter_in_transaction complete_in_transaction release_lease
    update_item update_lease
buried_lem = refl

dead_letter_claimed-disagrees_example : ¬ Agrees buried
dead_letter_claimed-disagrees_example =
    dead_letter_claimed-disagrees lease 60 "lost" failures 3 [] (database claimed_events 3 claimed)
      buried 5 claimed-Agrees refl ((refl, refl), ((refl, refl), tt)) refl buried_lem
