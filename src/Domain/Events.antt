-- ===== src/Domain/Events.antt =====
-- domain/events.py: the event names and the envelope of a committed event.
--
-- Strings that the code only compares and tests for emptiness (tenant ids, keys, model names) are
-- numbered, 0 for the empty one, and so are UUIDs; `str` of a UUID keeps its number. An instant is
-- a number of microseconds, so every datetime is timezone-aware.
use aegis_agent_platform.Prelude.{ℕ, String, Bool, Option, Dict}

abbrev pub Name : Type 0
Name = ℕ

abbrev pub Uuid : Type 0
Uuid = ℕ

abbrev pub Instant : Type 0
Instant = ℕ

-- Amounts of money and prices, in one fixed fraction of a dollar.
abbrev pub Amount : Type 0
Amount = ℕ

-- A JSON value that is written to a payload: `str(uuid)`, `str(decimal)`, `isoformat()` and strings that are
-- numbered have constructors of their own.
mutual
  pub data JsonValue : Type 0 where
    null : JsonValue
    bool : Bool → JsonValue
    int : ℕ → JsonValue
    text : String → JsonValue
    name : Name → JsonValue
    uuid : Uuid → JsonValue
    decimal : Amount → JsonValue
    instant : Instant → JsonValue
    array : JsonItems → JsonValue
    object : JsonFields → JsonValue

  pub data JsonItems : Type 0 where
    nil : JsonItems
    cons : JsonValue → JsonItems → JsonItems

  pub data JsonFields : Type 0 where
    end : JsonFields
    field : String → JsonValue → JsonFields → JsonFields

abbrev pub Payload : Type 0
Payload = Dict String JsonValue

pub data DomainEventType : Type 0 where
  investigation_requested run_started run_status_changed run_completed run_failed : DomainEventType
  artifact_recorded approval_requested approval_decided usage_recorded : DomainEventType
  side_effect_intent_recorded side_effect_completed side_effect_failed : DomainEventType
  outbox_dead_lettered tenant_registered : DomainEventType
  work_requested work_published work_claimed work_started work_heartbeat : DomainEventType
  work_lease_expired work_succeeded work_failed work_retry_scheduled : DomainEventType
  work_cancel_requested work_cancelled work_dead_lettered work_reconciled : DomainEventType
  model_call_requested model_call_started model_call_attempted : DomainEventType
  model_call_succeeded model_call_failed model_call_timed_out : DomainEventType
  model_call_rate_limited model_call_cancelled model_usage_recorded : DomainEventType
  model_route_decided model_fallback_selected model_budget_reserved : DomainEventType
  model_budget_released model_budget_charged : DomainEventType

-- `DomainEventType.value`.
unfoldable pub event_type_value : DomainEventType → String
event_type_value investigation_requested = "investigation.requested.v1"
event_type_value run_started = "run.started.v1"
event_type_value run_status_changed = "run.status_changed.v1"
event_type_value run_completed = "run.completed.v1"
event_type_value run_failed = "run.failed.v1"
event_type_value artifact_recorded = "artifact.recorded.v1"
event_type_value approval_requested = "approval.requested.v1"
event_type_value approval_decided = "approval.decided.v1"
event_type_value usage_recorded = "usage.recorded.v1"
event_type_value side_effect_intent_recorded = "effect.intent_recorded.v1"
event_type_value side_effect_completed = "effect.completed.v1"
event_type_value side_effect_failed = "effect.failed.v1"
event_type_value outbox_dead_lettered = "delivery.outbox_dead_lettered.v1"
event_type_value tenant_registered = "tenant.registered.v1"
event_type_value work_requested = "work.requested.v1"
event_type_value work_published = "work.published.v1"
event_type_value work_claimed = "work.claimed.v1"
event_type_value work_started = "work.started.v1"
event_type_value work_heartbeat = "work.heartbeat.v1"
event_type_value work_lease_expired = "work.lease_expired.v1"
event_type_value work_succeeded = "work.succeeded.v1"
event_type_value work_failed = "work.failed.v1"
event_type_value work_retry_scheduled = "work.retry_scheduled.v1"
event_type_value work_cancel_requested = "work.cancel_requested.v1"
event_type_value work_cancelled = "work.cancelled.v1"
event_type_value work_dead_lettered = "work.dead_lettered.v1"
event_type_value work_reconciled = "work.reconciled.v1"
event_type_value model_call_requested = "model.call_requested.v1"
event_type_value model_call_started = "model.call_started.v1"
event_type_value model_call_attempted = "model.call_attempted.v1"
event_type_value model_call_succeeded = "model.call_succeeded.v1"
event_type_value model_call_failed = "model.call_failed.v1"
event_type_value model_call_timed_out = "model.call_timed_out.v1"
event_type_value model_call_rate_limited = "model.call_rate_limited.v1"
event_type_value model_call_cancelled = "model.call_cancelled.v1"
event_type_value model_usage_recorded = "model.usage_recorded.v1"
event_type_value model_route_decided = "model.route_decided.v1"
event_type_value model_fallback_selected = "model.fallback_selected.v1"
event_type_value model_budget_reserved = "model.budget_reserved.v1"
event_type_value model_budget_released = "model.budget_released.v1"
event_type_value model_budget_charged = "model.budget_charged.v1"

-- The key `f"{request_key}:{event_type}:{number}"`, by its three parts.
pub record EventKey : Type 0 where
  pub request_key : Name
  pub kind : DomainEventType
  pub number : ℕ

-- The references and traces that no modelled code reads (`recorded_at`, `actor`,
-- `identity_reference`, `policy_reference`, `audit_reference`, `trace_context`, `metadata`) are
-- left out.
pub record EventEnvelope : Type 0 where
  pub event_id : Uuid
  pub tenant_id : Name
  pub aggregate_id : Uuid
  pub event_type : DomainEventType
  pub schema_version : ℕ
  pub occurred_at : Instant
  pub payload : Payload
  pub correlation_id : Option Uuid
  pub causation_id : Option Uuid
  pub aggregate_sequence : ℕ
  pub global_position : Option ℕ
  pub idempotency_key : Option EventKey
  pub previous_aggregate_sequence : Option ℕ
