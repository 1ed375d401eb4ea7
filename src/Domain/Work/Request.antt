-- ===== src/Domain/Work/Request.antt =====
-- domain/work.py: work requests, and the events that transitions of work append.
use aegis_agent_platform.Prelude.{
  ℕ, String, Bool, true, false, Option, none, some, [], ◌∷◌, Result, ok, err, not, ◌&&◌, ltb, leb,
  ◌==◌, if◌then◌else◌, update, string_eq,
}
use aegis_agent_platform.Domain.Events.{
  Name, Uuid, Instant, JsonValue, Payload, DomainEventType, EventEnvelope, work_requested,
  work_published, work_claimed, work_started, work_heartbeat, work_lease_expired, work_succeeded,
  work_failed, work_retry_scheduled, work_cancel_requested, work_cancelled, work_dead_lettered,
  work_reconciled,
}
use aegis_agent_platform.Domain.Work.{WorkLease}

pub record WorkRequest : Type 0 where
  pub work_id : Uuid
  pub tenant_id : Name
  pub work_kind : Name
  pub idempotency_key : Name
  pub correlation_id : Uuid
  pub requested_at : Instant
  pub payload : Payload
  pub causation_id : Option Uuid
  pub max_attempts : ℕ
  pub timeout_seconds : ℕ
  pub schema_version : ℕ

-- `WorkRequest.__post_init__`
unfoldable pub work_request_is_valid : WorkRequest → Bool
work_request_is_valid r =
    ltb 0 r.tenant_id
    && ltb 0 r.work_kind
    && ltb 0 r.idempotency_key
    && leb 1 r.max_attempts
    && leb r.max_attempts 100
    && leb 1 r.timeout_seconds
    && leb r.timeout_seconds 86400
    && leb 1 r.schema_version

pub record WorkTransition : Type 0 where
  pub event_type : DomainEventType
  pub occurred_at : Instant
  pub details : Payload
  pub lease : Option WorkLease

-- `str(self.event_type).startswith("work.")`
abbrev pub is_work_event : DomainEventType → Bool
is_work_event work_requested = true
is_work_event work_published = true
is_work_event work_claimed = true
is_work_event work_started = true
is_work_event work_heartbeat = true
is_work_event work_lease_expired = true
is_work_event work_succeeded = true
is_work_event work_failed = true
is_work_event work_retry_scheduled = true
is_work_event work_cancel_requested = true
is_work_event work_cancelled = true
is_work_event work_dead_lettered = true
is_work_event work_reconciled = true
is_work_event _ = false

-- `causation_id or request.causation_id`
abbrev pub or_else : Option Uuid → Option Uuid → Option Uuid
or_else none other = other
or_else (some x) other = some x

-- The entries that a lease adds to a payload.
abbrev pub lease_payload : Option WorkLease → Payload
lease_payload none = []
lease_payload (some lease) =
    ("lease_token", JsonValue.uuid lease.token)
    ∷ ("lease_generation", JsonValue.int lease.generation)
    ∷ ("attempt", JsonValue.int lease.attempt)
    ∷ []

-- The envelope at the end of `to_event`; it has no sequence and no position yet.
abbrev pub work_event : WorkTransition → WorkRequest → Uuid → Option Uuid → EventEnvelope
work_event t request event_id causation_id = record {
  event_id = event_id;
  tenant_id = request.tenant_id;
  aggregate_id = request.work_id;
  event_type = t.event_type;
  schema_version = 1;
  occurred_at = t.occurred_at;
  payload =
      update
        (update t.details (
          ("work_id", JsonValue.uuid request.work_id)
          ∷ ("work_kind", JsonValue.name request.work_kind)
          ∷ []))
        (lease_payload t.lease);
  correlation_id = some request.correlation_id;
  causation_id = or_else causation_id request.causation_id;
  aggregate_sequence = 0;
  global_position = none;
  idempotency_key =
      some
        (record { request_key = request.idempotency_key; kind = t.event_type; number = event_id });
  previous_aggregate_sequence = none;
}

abbrev pub is_lease_of : WorkRequest → Option WorkLease → Bool
is_lease_of request none = true
is_lease_of request (some lease) =
    lease.work_id == request.work_id && lease.tenant_id == request.tenant_id

-- `WorkTransition.to_event`, with the test of the transition's constructor in front; each raises a
-- ValueError, by its text.
unfoldable pub to_event :
    WorkTransition → WorkRequest → Uuid → Option Uuid → Result String EventEnvelope
to_event t request event_id causation_id =
    if not (is_work_event t.event_type)
    then err "work transition requires a work event type"
    else if is_lease_of request t.lease
    then ok (work_event t request event_id causation_id)
    else err "lease does not belong to work request"
