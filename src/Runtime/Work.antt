-- ===== src/Runtime/Work.antt =====
-- runtime/postgres.py: `PostgresWorkRepository`, the work table and its leases beside the ledger.
-- This file has what its operations share: requests read from deliveries and rows, and the events
-- and statements of a transaction.
--
-- The i-th transaction of an operation is numbered from 0, and so are the identifiers it draws.
pub mod Statements
pub mod Claims
pub mod Settle
pub mod Requeue
pub mod Reconcile
pub mod Expire
pub mod Loads
pub mod Reconciled
pub mod Duties
pub mod Edges
pub mod Agreement
pub mod Moves
pub mod Appends
pub mod Refinement
pub mod Endings
pub mod Failures
pub mod Unstarted
pub mod Promises
mod Tests
pub mod Shifts
use Prim.Native.String.{String}
use aegis_agent_platform.Prelude.{
  ℕ, suc, Bool, true, false, not, ◌&&◌, ◌||◌, ◌==◌, ltb, leb, if◌then◌else◌, Option, none, some,
  List, [], ◌∷◌, Result, ok, err, ◌>>=◌, ◌>>◌, pure, raise, gets, raise_if, lift, lookup, Dict,
  string_eq, pair_eq,
}
use aegis_agent_platform.Domain.Events.{
  Name, Uuid, Instant, JsonValue, JsonFields, Payload, EventEnvelope,
}
use aegis_agent_platform.Domain.Work.{WorkLease}
use aegis_agent_platform.Domain.Work.Request.{
  WorkRequest, WorkTransition, work_request_is_valid, to_event,
}
use aegis_agent_platform.Storage.{
  Database, Session, Query, StorageFault, value_error, permanent_error, OutboxMessage, OutboxRow,
  WorkItem, leased, published, transaction,
}
use aegis_agent_platform.Storage.Ledger.{current_version, append_fenced}
use aegis_agent_platform.Runtime.Scheduler.{MessageEnvelope, QueueDelivery}

-- What Python's library does to the values of a payload: `str`, `int(str(...))` and
-- `datetime.fromisoformat(str(...))`, the two of which may raise; `len(json.dumps(...).encode())`;
-- and `==` on JSON objects.
pub record Python : Type 0 where
  pub str_of : JsonValue → Name
  pub int_of : JsonValue → Option ℕ
  pub instant_of : JsonValue → Option Instant
  pub encoded_length : Payload → ℕ
  pub same_json : Payload → Payload → Bool

-- The fields of an object, and the object of a payload.
abbrev pub fields_of : JsonFields → Payload
fields_of JsonFields.end = []
fields_of (JsonFields.field k v rest) = (k, v) ∷ fields_of rest

abbrev pub object_of : Payload → JsonFields
object_of [] = JsonFields.end
object_of ((k, v) ∷ rest) = JsonFields.field k v (object_of rest)

-- `payload.get("request_payload", {})`, if it is a mapping
abbrev pub request_payload_of : Option JsonValue → Option Payload
request_payload_of none = some []
request_payload_of (some (JsonValue.object fields)) = some (fields_of fields)
request_payload_of (some _) = none

abbrev pub bind_option : {A B : Type 0} → Option A → (A → Option B) → Option B
bind_option none f = none
bind_option (some a) f = f a

abbrev pub uuid_or_null : Option Uuid → JsonValue
uuid_or_null none = JsonValue.null
uuid_or_null (some u) = JsonValue.uuid u

-- `_request_payload`
unfoldable pub request_payload : WorkRequest → Payload
request_payload r =
    ("work_id", JsonValue.uuid r.work_id)
    ∷ ("work_kind", JsonValue.name r.work_kind)
    ∷ ("correlation_id", JsonValue.uuid r.correlation_id)
    ∷ ("causation_id", uuid_or_null r.causation_id)
    ∷ ("requested_at", JsonValue.instant r.requested_at)
    ∷ ("max_attempts", JsonValue.int r.max_attempts)
    ∷ ("timeout_seconds", JsonValue.int r.timeout_seconds)
    ∷ ("request_payload", JsonValue.object (object_of r.payload))
    ∷ ("idempotency_key", JsonValue.name r.idempotency_key)
    ∷ []

-- `_validate_request_context`
abbrev pub validate_request_context : Name → WorkRequest → Query (Unit {0})
validate_request_context context request =
    raise_if (not (context == request.tenant_id))
      (value_error "work request tenant does not match trusted context")

-- `WorkRequest(...)`, which tests its fields
abbrev pub checked_request : WorkRequest → Result StorageFault WorkRequest
checked_request r =
    if work_request_is_valid r then ok r else err (value_error "invalid work request")

-- `transition.to_event(...)`
unfoldable pub make_event : WorkTransition → WorkRequest → Uuid → Option Uuid → Query EventEnvelope
make_event t request event_id causation_id = lift (elim (to_event t request event_id causation_id) [
  | ok e ↦ ok e
  | err text ↦ err (value_error text)
])

-- `str(row->>'work_id') = work_id` in the join of a work row with its outbox row
abbrev pub names_work : Uuid → OutboxMessage → Bool
names_work work m = elim (lookup "work_id" m.payload) [
  | some (JsonValue.uuid u) ↦ u == work
  | _ ↦ false
]

abbrev pub was_sent : OutboxRow → Bool
was_sent row = elim row.status [ leased ↦ true | published ↦ true | _ ↦ false ]

abbrev pub same_uuid : Option Uuid → Option Uuid → Bool
same_uuid none none = true
same_uuid (some a) (some b) = a == b
same_uuid _ _ = false

-- The request of a work row; without a correlation there is none.
abbrev pub request_of_row : Name → Uuid → WorkItem → Option WorkRequest
request_of_row tenant work row = elim row.correlation_id [
  | none ↦ none
  | some correlation ↦ some (record {
    work_id = work;
    tenant_id = tenant;
    work_kind = row.work_kind;
    idempotency_key = row.idempotency_key;
    correlation_id = correlation;
    requested_at = row.requested_at;
    payload = row.request_payload;
    causation_id = row.causation_id;
    max_attempts = row.max_attempts;
    timeout_seconds = row.timeout_seconds;
    schema_version = 1;
  })
]

module _ (python : Python) where
  -- The request that a delivery's payload spells out, if it can be read.
  abbrev pub parsed_request : MessageEnvelope → Payload → Option WorkRequest
  parsed_request m payload = bind_option (lookup "work_kind" m.payload) (λ kind.
      bind_option (lookup "idempotency_key" m.payload) (λ key.
        bind_option (lookup "requested_at" m.payload) (λ requested.
          bind_option (python.instant_of requested) (λ at.
            bind_option (lookup "max_attempts" m.payload) (λ attempts.
              bind_option (python.int_of attempts) (λ max_attempts.
                bind_option (lookup "timeout_seconds" m.payload) (λ timeout.
                  bind_option (python.int_of timeout) (λ timeout_seconds. some (record {
                    work_id = m.work_id;
                    tenant_id = m.tenant_id;
                    work_kind = python.str_of kind;
                    idempotency_key = python.str_of key;
                    correlation_id = m.correlation_id;
                    requested_at = at;
                    payload = payload;
                    causation_id = m.causation_id;
                    max_attempts = max_attempts;
                    timeout_seconds = timeout_seconds;
                    schema_version = 1;
                  })))))))))

  abbrev pub valid_request : Option WorkRequest → Result StorageFault WorkRequest
  valid_request none = err (value_error "delivery has invalid work routing metadata")
  valid_request (some r) =
      if work_request_is_valid r
      then ok r
      else err (value_error "delivery has invalid work routing metadata")

  -- `_request_from_delivery`
  unfoldable pub request_from_delivery : QueueDelivery → Result StorageFault WorkRequest
  request_from_delivery delivery =
      elim (request_payload_of (lookup "request_payload" delivery.envelope.payload)) [
        | none ↦ err (value_error "request_payload must be a mapping")
        | some payload ↦ valid_request (parsed_request delivery.envelope payload)
      ]

  -- `_envelope_body` of queueing/redis_streams.py
  abbrev pub envelope_body : MessageEnvelope → Payload
  envelope_body m =
      ("schema_version", JsonValue.int m.schema_version)
      ∷ ("message_id", JsonValue.uuid m.message_id)
      ∷ ("tenant_id", JsonValue.name m.tenant_id)
      ∷ ("work_id", JsonValue.uuid m.work_id)
      ∷ ("event_id", uuid_or_null m.event_id)
      ∷ ("destination", JsonValue.name m.destination)
      ∷ ("correlation_id", JsonValue.uuid m.correlation_id)
      ∷ ("causation_id", uuid_or_null m.causation_id)
      ∷ ("occurred_at", JsonValue.instant m.occurred_at)
      ∷ ("payload", JsonValue.object (object_of m.payload))
      ∷ ("headers", JsonValue.object (object_of m.headers))
      ∷ []

  -- `validate_transport_size` of queueing/redis_streams.py, at most 256 KiB
  unfoldable pub validate_transport_size : MessageEnvelope → Query (Unit {0})
  validate_transport_size m =
      raise_if (ltb 262144 (python.encoded_length (envelope_body m)))
        (permanent_error "message envelope exceeds 256 KiB")

  -- `supplied == authoritative` of two requests
  abbrev pub same_request : WorkRequest → WorkRequest → Bool
  same_request a b =
      a.work_id == b.work_id
      && a.tenant_id == b.tenant_id
      && a.work_kind == b.work_kind
      && a.idempotency_key == b.idempotency_key
      && a.correlation_id == b.correlation_id
      && a.requested_at == b.requested_at
      && python.same_json a.payload b.payload
      && same_uuid a.causation_id b.causation_id
      && a.max_attempts == b.max_attempts
      && a.timeout_seconds == b.timeout_seconds
      && a.schema_version == b.schema_version

  -- `envelope_matches`
  abbrev pub envelope_matches : WorkRequest → WorkRequest → OutboxMessage → MessageEnvelope → Bool
  envelope_matches supplied authoritative row m =
      same_request supplied authoritative
      && row.destination == m.destination
      && same_uuid row.event_id m.event_id
      && python.same_json row.payload m.payload
      && python.same_json row.headers m.headers

  -- The SELECT of `_verify_delivery`: the work row joined with the outbox row of the message.
  abbrev pub joined_row : Name → MessageEnvelope → Database → Option (WorkItem × OutboxMessage)
  joined_row context m s = bind_option (lookup (context, m.work_id) s.work_items) (λ item.
      bind_option (lookup (context, m.message_id) s.outbox_messages) (λ row.
        if was_sent row && names_work m.work_id row.message
        then some (item, row.message)
        else none))

  -- `_verify_delivery` after its SELECT. A row without a correlation cannot equal a delivery.
  abbrev pub matched_request :
      Name
      → WorkRequest
      → MessageEnvelope
      → Option (WorkItem × OutboxMessage)
      → Result StorageFault WorkRequest
  matched_request context supplied m none =
      err (value_error "delivery has no authoritative published outbox row")
  matched_request context supplied m (some (item, row)) =
      elim (request_of_row context m.work_id item) [
        | none ↦ err (value_error "delivery does not match authoritative work")
        | some authoritative ↦
            if envelope_matches supplied authoritative row m
            then checked_request authoritative
            else err (value_error "delivery does not match authoritative work")
      ]

  module _ (session : Session) (i : ℕ) (context : Name) where
    unfoldable pub verify_delivery : QueueDelivery → Query WorkRequest
    verify_delivery delivery = do
      supplied ← lift (request_from_delivery delivery)
      validate_request_context context supplied
      row ← transaction session i (gets (joined_row context delivery.envelope))
      lift (matched_request context supplied delivery.envelope row)

module _ (session : Session) (i : ℕ) (context : Name) where
  abbrev pub loaded_request : Uuid → Option WorkItem → Result StorageFault WorkRequest
  loaded_request work none =
      err (value_error "work request not found or lacks correlation metadata")
  loaded_request work (some row) = elim (request_of_row context work row) [
    | none ↦ err (value_error "work request not found or lacks correlation metadata")
    | some request ↦ checked_request request
  ]

  -- `_load_request`
  unfoldable pub load_request : Uuid → Query WorkRequest
  load_request work = do
    row ← transaction session i (gets (λ s. lookup (context, work) s.work_items))
    lift (loaded_request work row)

  -- `_append_fenced`: the version is read in one transaction and the events appended in the next.
  unfoldable pub append_leased :
      Uuid → WorkRequest → WorkTransition → WorkLease → Query (Unit {0}) → Query ℕ
  append_leased event_id request t lease mutation = do
    version ← current_version session i context request.work_id
    event ← make_event t request event_id none
    append_fenced session (suc i) context (event ∷ []) version lease.work_id lease.token
        lease.generation [] mutation
