-- ===== src/Domain/Work.antt =====
-- domain/work.py: the lifecycle of a unit of distributed work, and its leases.
pub mod Lifecycle
pub mod Request
mod Tests
use aegis_agent_platform.Prelude.{
  ℕ, String, ◌≡◌, Bool, true, false, Option, none, some, List, [], ◌∷◌, Result, ok, err,
  if◌then◌else◌, ltb, leb, ◌==◌, ◌&&◌, ◌||◌,
}
use aegis_agent_platform.Domain.Events.{
  Name, Uuid, Instant, DomainEventType, EventEnvelope, Payload, EventKey, JsonValue, work_requested,
  work_published, work_claimed, work_started, work_heartbeat, work_lease_expired, work_succeeded,
  work_failed, work_retry_scheduled, work_cancel_requested, work_cancelled, work_dead_lettered,
  work_reconciled,
}

pub data WorkStatus : Type 0 where
  requested published claimed running retry_wait : WorkStatus
  succeeded failed cancelled dead_letter : WorkStatus

pub data FailureClass : Type 0 where
  retryable permanent cancelled timeout worker_bug : FailureClass

-- `TERMINAL_WORK_STATUSES`
abbrev pub is_terminal : WorkStatus → Bool
is_terminal succeeded = true
is_terminal failed = true
is_terminal WorkStatus.cancelled = true
is_terminal dead_letter = true
is_terminal _ = false

-- The dictionary `transitions`, a missing key as `none`.
unfoldable pub transition : DomainEventType → Option WorkStatus → Option WorkStatus
transition work_requested none = some requested
transition work_published (some requested) = some published
transition work_published (some retry_wait) = some published
transition work_claimed (some published) = some claimed
transition work_claimed (some retry_wait) = some claimed
transition work_started (some claimed) = some running
transition work_lease_expired (some claimed) = some retry_wait
transition work_lease_expired (some running) = some retry_wait
transition work_succeeded (some running) = some succeeded
transition work_failed (some running) = some failed
transition work_retry_scheduled (some failed) = some retry_wait
transition work_dead_lettered (some failed) = some dead_letter
transition work_retry_scheduled (some running) = some retry_wait
transition work_retry_scheduled (some claimed) = some retry_wait
transition work_retry_scheduled (some dead_letter) = some retry_wait
transition work_cancelled (some requested) = some WorkStatus.cancelled
transition work_cancelled (some published) = some WorkStatus.cancelled
transition work_cancelled (some claimed) = some WorkStatus.cancelled
transition work_cancelled (some running) = some WorkStatus.cancelled
transition work_cancelled (some retry_wait) = some WorkStatus.cancelled
transition work_dead_lettered (some running) = some dead_letter
transition work_dead_lettered (some retry_wait) = some dead_letter
transition _ _ = none

-- The `ValueError` that an invalid edge raises, by its two parts.
pub record InvalidEdge : Type 0 where
  pub event_type : DomainEventType
  pub current : Option WorkStatus

-- `current in {WorkStatus.CLAIMED, WorkStatus.RUNNING}`
abbrev pub is_leased : Option WorkStatus → Bool
is_leased (some claimed) = true
is_leased (some running) = true
is_leased _ = false

-- `not (current is None or current in TERMINAL_WORK_STATUSES)`
abbrev pub is_open : Option WorkStatus → Bool
is_open none = false
is_open (some s) = elim (is_terminal s) [ true ↦ false | false ↦ true ]

unfoldable or_invalid :
    DomainEventType → Option WorkStatus → Option WorkStatus → Result InvalidEdge WorkStatus
or_invalid e current none = err (record { event_type = e; current = current })
or_invalid e current (some s) = ok s

-- The branches that keep the status.
unfoldable keep_if : Bool → DomainEventType → Option WorkStatus → Result InvalidEdge WorkStatus
keep_if true e current = or_invalid e current current
keep_if false e current = err (record { event_type = e; current = current })

unfoldable pub next_status : Option WorkStatus → DomainEventType → Result InvalidEdge WorkStatus
unfolding transition or_invalid keep_if
next_status current work_heartbeat = keep_if (is_leased current) work_heartbeat current
next_status current work_cancel_requested = keep_if (is_open current) work_cancel_requested current
next_status current work_reconciled = keep_if (is_open current) work_reconciled current
next_status current e = or_invalid e current (transition e current)

pub record WorkLease : Type 0 where
  pub work_id : Uuid
  pub tenant_id : Name
  pub token : Uuid
  pub generation : ℕ
  pub owner : Name
  pub attempt : ℕ
  pub acquired_at : Instant
  pub heartbeat_at : Instant
  pub expires_at : Instant

-- `WorkLease.__post_init__`: true where the constructor raises nothing.
unfoldable pub lease_is_valid : WorkLease → Bool
lease_is_valid l =
    ltb 0 l.tenant_id
    && ltb 0 l.owner
    && leb 1 l.generation
    && leb 1 l.attempt
    && ltb l.heartbeat_at l.expires_at
