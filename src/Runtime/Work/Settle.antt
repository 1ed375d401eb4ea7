-- ===== src/Runtime/Work/Settle.antt =====
-- runtime/postgres.py: how work ends, is retried, and is cancelled.
use Prim.Native.String.{String}
use Prim.Native.String.{count}
use aegis_agent_platform.Prelude.{
  ℕ, suc, Bool, true, false, not, ◌||◌, ◌==◌, leb, ltb, if◌then◌else◌, Option, none, some, List, [],
  ◌∷◌, ◌>>=◌, ◌>>◌, pure, raise, gets, raise_if, lift, is_some, lookup, pair_eq,
}
use aegis_agent_platform.Domain.Events.{
  Name, Uuid, Instant, JsonValue, Payload, EventEnvelope, work_succeeded, work_failed,
  work_cancelled, work_cancel_requested, work_retry_scheduled, work_dead_lettered,
}
use aegis_agent_platform.Domain.Work.{
  WorkStatus, requested, published, claimed, running, retry_wait, succeeded, failed, dead_letter,
  WorkLease, is_terminal, FailureClass, retryable, permanent, timeout, worker_bug,
}
use aegis_agent_platform.Domain.Work.Request.{WorkRequest, WorkTransition}
use aegis_agent_platform.Storage.{
  Session, Query, value_error, concurrency_error, OutboxMessage, WorkItem, transaction, update_item,
}
use aegis_agent_platform.Storage.Ledger.{append_atomic, append_fenced, current_version}
use aegis_agent_platform.Runtime.Scheduler.{QueueDelivery}
use aegis_agent_platform.Runtime.Work.{
  Python, make_event, request_from_delivery, append_leased, load_request,
}
use aegis_agent_platform.Runtime.Work.Statements.{
  complete_in_transaction, release_in_transaction, cancel_in_transaction,
  dead_letter_in_transaction,
}
use aegis_agent_platform.Runtime.Work.Claims.{work_message}

-- `FailureClass.value`
abbrev pub failure_class_value : FailureClass → String
failure_class_value retryable = "retryable"
failure_class_value permanent = "permanent"
failure_class_value FailureClass.cancelled = "cancelled"
failure_class_value timeout = "timeout"
failure_class_value worker_bug = "worker_bug"

-- `failure_class in {RETRYABLE, TIMEOUT}`
abbrev pub may_repeat : FailureClass → Bool
may_repeat retryable = true
may_repeat timeout = true
may_repeat _ = false

-- `not error_code or len(error_code) > 128`
abbrev pub is_unbounded : String → Bool
is_unbounded code = count code == 0 || ltb 128 (count code)

-- The local variable `terminal` of `fail`.
abbrev pub is_final : FailureClass → Option Instant → WorkLease → WorkRequest → Bool
is_final class retry_at lease request =
    not (may_repeat class) || not (is_some retry_at) || leb request.max_attempts lease.attempt

abbrev pub failed_transition : Instant → FailureClass → String → WorkLease → WorkTransition
failed_transition at class code lease = record {
  event_type = work_failed;
  occurred_at = at;
  details =
      ("failure_class", JsonValue.text (failure_class_value class))
      ∷ ("error_code", JsonValue.text code)
      ∷ [];
  lease = some lease;
}

abbrev pub is_queued : WorkStatus → Bool
is_queued requested = true
is_queued published = true
is_queued retry_wait = true
is_queued _ = false

-- `status = %s`
abbrev pub same_status : WorkStatus → WorkStatus → Bool
same_status requested requested = true
same_status published published = true
same_status claimed claimed = true
same_status running running = true
same_status retry_wait retry_wait = true
same_status succeeded succeeded = true
same_status failed failed = true
same_status WorkStatus.cancelled WorkStatus.cancelled = true
same_status dead_letter dead_letter = true
same_status _ _ = false

-- `COALESCE(cancel_requested_at, at)`
abbrev pub coalesce : Option Instant → Instant → Option Instant
coalesce none at = some at
coalesce (some t) at = some t

-- `cancel_projection`, for the status that was read
unfoldable pub cancel_projection : WorkRequest → WorkStatus → Instant → Query (Unit {0})
cancel_projection r status at =
    update_item (r.tenant_id, r.work_id) (λ row. same_status row.status status)
      (λ row. record row {
        cancel_requested_at = coalesce row.cancel_requested_at at;
        status = if is_queued status then WorkStatus.cancelled else row.status;
        completed_at = if is_queued status then some at else row.completed_at;
      })
      (concurrency_error 1 0)

abbrev pub actor_details : Option Name → Payload
actor_details none = []
actor_details (some actor) = ("requested_by", JsonValue.name actor) ∷ []

module _ (python : Python) (session : Session) (context : Name) where
  unfoldable pub succeed : QueueDelivery → WorkLease → Instant → Name → Query (Unit {0})
  succeed delivery lease at result_reference = do
    request ← lift (request_from_delivery python delivery)
    version ←
        append_leased session 0 context (session.uuid_factory 0) request
          (record {
            event_type = work_succeeded;
            occurred_at = at;
            details = ("result_reference", JsonValue.name result_reference) ∷ [];
            lease = some lease;
          })
          lease (complete_in_transaction lease at succeeded "succeeded")
    pure tt

  unfoldable pub cancel : QueueDelivery → WorkLease → Instant → Query (Unit {0})
  cancel delivery lease at = do
    request ← lift (request_from_delivery python delivery)
    version ←
        append_leased session 0 context (session.uuid_factory 0) request
          (record {
            event_type = work_cancelled;
            occurred_at = at;
            details = [];
            lease = some lease;
          })
          lease (cancel_in_transaction lease at)
    pure tt

  -- The transaction of `fail` when the work is not tried again.
  abbrev pub write_dead_letter :
      WorkRequest → WorkLease → Instant → String → List EventEnvelope → Query Bool
  write_dead_letter request lease at code events = do
    version ← current_version session 0 context request.work_id
    version' ←
        append_fenced session 1 context events version lease.work_id lease.token lease.generation []
          (dead_letter_in_transaction lease at code)
    pure true

  abbrev pub fail_finally : WorkRequest → WorkLease → Instant → String → EventEnvelope → Query Bool
  fail_finally request lease at code failed_event = do
    second ←
        make_event
          (record {
            event_type = work_dead_lettered;
            occurred_at = at;
            details = ("reason_code", JsonValue.text code) ∷ [];
            lease = some lease;
          })
          request (session.uuid_factory 1) (some failed_event.event_id)
    write_dead_letter request lease at code (failed_event ∷ second ∷ [])

  abbrev pub retry_message : WorkRequest → Instant → EventEnvelope → OutboxMessage
  retry_message request retry_at second =
      work_message request (session.uuid_factory 2) second.event_id retry_at
        (("tenant_id", JsonValue.name request.tenant_id) ∷ [])

  -- The transaction of `fail` when the work is tried again at `retry_at`.
  abbrev pub write_retry :
      WorkRequest
      → WorkLease
      → Instant
      → Instant
      → List EventEnvelope
      → List OutboxMessage
      → Query Bool
  write_retry request lease at retry_at events messages = do
    version ← current_version session 0 context request.work_id
    version' ←
        append_fenced session 1 context events version lease.work_id lease.token lease.generation
          messages (release_in_transaction lease at "retry_scheduled" retry_at true)
    pure false

  abbrev pub fail_for_retry :
      WorkRequest → WorkLease → Instant → Instant → EventEnvelope → Query Bool
  fail_for_retry request lease at retry_at failed_event = do
    second ←
        make_event
          (record {
            event_type = work_retry_scheduled;
            occurred_at = at;
            details = ("retry_at", JsonValue.instant retry_at) ∷ [];
            lease = some lease;
          })
          request (session.uuid_factory 1) (some failed_event.event_id)
    write_retry request lease at retry_at (failed_event ∷ second ∷ [])
        (retry_message request retry_at second ∷ [])

  abbrev pub fail_as :
      Bool
      → WorkRequest
      → WorkLease
      → Instant
      → String
      → Option Instant
      → EventEnvelope
      → Query Bool
  fail_as final request lease at code none failed_event =
      fail_finally request lease at code failed_event
  fail_as final request lease at code (some retry_at) failed_event =
      if final
      then fail_finally request lease at code failed_event
      else fail_for_retry request lease at retry_at failed_event

  -- `fail`: true where the work became terminal
  unfoldable pub fail :
      QueueDelivery → WorkLease → Instant → FailureClass → String → Option Instant → Query Bool
  fail delivery lease at class code retry_at = do
    raise_if (is_unbounded code) (value_error "bounded error_code is required")
    request ← lift (request_from_delivery python delivery)
    failed_event ←
        make_event (failed_transition at class code lease) request (session.uuid_factory 0) none
    fail_as (is_final class retry_at lease request) request lease at code retry_at failed_event

  unfoldable pub release : WorkLease → Instant → String → Instant → Query (Unit {0})
  release lease at reason retry_at = do
    raise_if (is_unbounded reason) (value_error "bounded release reason is required")
    request ← load_request session 0 context lease.work_id
    version ←
        append_leased session 1 context (session.uuid_factory 0) request
          (record {
            event_type = work_retry_scheduled;
            occurred_at = at;
            details =
                ("retry_at", JsonValue.instant retry_at)
                ∷ ("reason_code", JsonValue.text reason)
                ∷ [];
            lease = some lease;
          })
          lease (release_in_transaction lease at reason retry_at false)
    pure tt

  abbrev pub cancelled_too : WorkRequest → Instant → EventEnvelope → Query (List EventEnvelope)
  cancelled_too request at asked = do
    done ←
        make_event
          (record { event_type = work_cancelled; occurred_at = at; details = []; lease = none })
          request (session.uuid_factory 1) (some asked.event_id)
    pure (asked ∷ done ∷ [])

  -- The events of `request_cancel`: work that is queued is cancelled at once.
  abbrev pub cancel_events :
      WorkRequest → WorkStatus → Instant → Option Name → Query (List EventEnvelope)
  cancel_events request status at actor = do
    asked ←
        make_event
          (record {
            event_type = work_cancel_requested;
            occurred_at = at;
            details = actor_details actor;
            lease = none;
          })
          request (session.uuid_factory 0) none
    if is_queued status then cancelled_too request at asked else pure (asked ∷ [])

  -- The append of `request_cancel`, for the status that was read.
  abbrev pub write_cancel :
      ℕ → WorkRequest → WorkStatus → Instant → List EventEnvelope → Query (Unit {0})
  write_cancel i request status at events = do
    version ← current_version session i context request.work_id
    version' ←
        append_atomic session (suc i) context events version (cancel_projection request status at)
          []
    pure tt

  abbrev pub cancel_from :
      ℕ → WorkRequest → Instant → Option Name → Option WorkItem → Query (Unit {0})
  cancel_from i request at actor none = raise (value_error "work request not found")
  cancel_from i request at actor (some row) = do
    raise_if (is_terminal row.status) (concurrency_error 1 0)
    events ← cancel_events request row.status at actor
    write_cancel i request row.status at events

  -- `request_cancel`, of which the first transaction is the i-th
  unfoldable pub request_cancel : ℕ → WorkRequest → Instant → Option Name → Query (Unit {0})
  request_cancel i request at actor = do
    row ←
        transaction session i (gets (λ s. lookup (request.tenant_id, request.work_id) s.work_items))
    cancel_from (suc i) request at actor row

  unfoldable pub cancel_by_id : Uuid → Instant → Name → Query (Unit {0})
  cancel_by_id work at actor = do
    raise_if (actor == 0) (value_error "actor_id is required")
    request ← load_request session 0 context work
    request_cancel 1 request at (some actor)

  -- `cancellation_requested`
  unfoldable pub cancellation_requested : Uuid → Query Bool
  cancellation_requested work = transaction session 0 (
      gets (λ s. elim (lookup (context, work) s.work_items) [
        | none ↦ false
        | some row ↦ is_some row.cancel_requested_at
      ]))

  -- `delivery_complete`
  unfoldable pub delivery_complete : Uuid → Query Bool
  delivery_complete work = transaction session 0 (
      gets (λ s. elim (lookup (context, work) s.work_items) [
        | none ↦ false
        | some row ↦ is_terminal row.status
      ]))
