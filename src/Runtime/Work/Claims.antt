-- ===== src/Runtime/Work/Claims.antt =====
-- runtime/postgres.py: how work is registered, published, claimed, started and kept alive.
use aegis_agent_platform.Prelude.{
  ℕ, suc, ◌+◌, ◌-◌, Bool, true, not, ◌&&◌, ◌||◌, ◌==◌, leb, ltb, if◌then◌else◌, Option, none, some,
  [], ◌∷◌, ok, err, ◌>>=◌, ◌>>◌, pure, raise, gets, modify, raise_if, lift, is_some, lookup, insert,
  pair_eq, Dict, sum_by,
}
use aegis_agent_platform.Domain.Events.{
  Name, Uuid, Instant, JsonValue, Payload, EventEnvelope, work_requested, work_published,
  work_claimed, work_started, work_heartbeat,
}
use aegis_agent_platform.Domain.Work.{
  requested, published, claimed, running, WorkLease, lease_is_valid,
}
use aegis_agent_platform.Domain.Work.Request.{WorkRequest, WorkTransition}
use aegis_agent_platform.Storage.{
  Database, Session, Query, StorageFault, value_error, concurrency_error, fencing_error,
  claim_unavailable, permanent_error, is_concurrency_error, OutboxMessage, WorkItem, LeaseRow,
  transaction, update_item,
}
use aegis_agent_platform.Storage.Ledger.{append_atomic, append_from_inbox, current_version}
use aegis_agent_platform.Runtime.Scheduler.{MessageEnvelope, QueueDelivery}
use aegis_agent_platform.Runtime.Work.{
  Python, request_payload, validate_request_context, make_event, request_from_delivery,
  validate_transport_size, verify_delivery, append_leased, object_of,
}
use aegis_agent_platform.Runtime.Work.Statements.{
  is_executing, is_claimed, is_claimable, is_publishable, work_key,
}

-- The number of "aegis.work", and that of "redis-stream:aegis:work:v1".
abbrev pub work_destination : Name
work_destination = 1

abbrev pub inbox_source : Name
inbox_source = 2

-- `except (...): return a`
abbrev pub catch_if : {A : Type 0} → (StorageFault → Bool) → A → Query A → Query A
catch_if test a m s =
    let (r, s') = m s in
    elim r [ ok x ↦ (ok x, s') | err e ↦ ((if test e then ok a else err e), s') ]

-- `except (_ClaimUnavailableError, ConcurrencyError)`
abbrev pub is_lost_claim : StorageFault → Bool
is_lost_claim claim_unavailable = true
is_lost_claim e = is_concurrency_error e

-- `headers={"tenant_id": ..., "schema_version": 1}`
abbrev pub transport_headers : WorkRequest → Payload
transport_headers r =
    ("tenant_id", JsonValue.name r.tenant_id) ∷ ("schema_version", JsonValue.int 1) ∷ []

-- The envelope that `register` measures.
abbrev pub transport_envelope : WorkRequest → Uuid → Uuid → MessageEnvelope
transport_envelope r event_id message_id = record {
  message_id = message_id;
  tenant_id = r.tenant_id;
  work_id = r.work_id;
  event_id = some event_id;
  destination = work_destination;
  correlation_id = r.correlation_id;
  causation_id = r.causation_id;
  occurred_at = r.requested_at;
  payload = request_payload r;
  headers = transport_headers r;
  schema_version = 1;
}

abbrev pub work_message : WorkRequest → Uuid → Uuid → Instant → Payload → OutboxMessage
work_message r message_id event_id available_at headers = record {
  message_id = message_id;
  destination = work_destination;
  payload = request_payload r;
  headers = headers;
  available_at = available_at;
  max_attempts = r.max_attempts;
  event_id = some event_id;
}

abbrev pub new_item : WorkRequest → Uuid → WorkItem
new_item r event_id = record {
  work_kind = r.work_kind;
  idempotency_key = r.idempotency_key;
  status = requested;
  requested_at = r.requested_at;
  available_at = r.requested_at;
  max_attempts = r.max_attempts;
  timeout_seconds = r.timeout_seconds;
  request_event_id = event_id;
  correlation_id = some r.correlation_id;
  causation_id = r.causation_id;
  request_payload = r.payload;
  attempt_count = 0;
  completed_at = none;
  cancel_requested_at = none;
  last_error_code = none;
}

-- `insert_work`: a primary key that is taken is an error of the database.
unfoldable pub insert_work : WorkRequest → Uuid → Query (Unit {0})
insert_work r event_id s =
    if is_some (lookup (r.tenant_id, r.work_id) s.work_items)
    then raise (permanent_error "permanent PostgreSQL storage failure") s
    else modify
        (λ d. record d {
          work_items = insert (r.tenant_id, r.work_id) (new_item r event_id) d.work_items;
        })
        s

abbrev pub requested_transition : WorkRequest → WorkTransition
requested_transition r = record {
  event_type = work_requested;
  occurred_at = r.requested_at;
  details =
      ("max_attempts", JsonValue.int r.max_attempts)
      ∷ ("timeout_seconds", JsonValue.int r.timeout_seconds)
      ∷ ("idempotency_key", JsonValue.name r.idempotency_key)
      ∷ ("request_payload", JsonValue.object (object_of r.payload))
      ∷ [];
  lease = none;
}

-- `mark_projection` of `mark_published`
unfoldable pub mark_projection : WorkRequest → Query (Unit {0})
mark_projection r =
    update_item (r.tenant_id, r.work_id) (λ row. is_publishable row.status)
      (λ row. record row { status = published }) (concurrency_error 1 0)

-- The work of a tenant that is claimed or running.
abbrev pub count_active : Name → Dict (ℕ × ℕ) WorkItem → ℕ
count_active tenant items =
    sum_by (λ p. if p.0.0 == tenant && is_executing p.1.status then 1 else 0) items

abbrev pub new_lease_row : WorkLease → Instant → Instant → LeaseRow
new_lease_row lease at expiry = record {
  lease_token = lease.token;
  generation = lease.generation;
  owner = lease.owner;
  acquired_at = at;
  heartbeat_at = at;
  expires_at = expiry;
  released_at = none;
  release_reason = none;
}

-- The upsert of the lease: a row of another generation than the one before is left alone.
unfoldable pub upsert_lease : WorkLease → Instant → Instant → Query (Unit {0})
upsert_lease lease at expiry s =
    let put = modify (λ d. record d {
      work_leases = insert (work_key lease) (new_lease_row lease at expiry) d.work_leases;
    }) in
    elim (lookup (work_key lease) s.work_leases) [
      | none ↦ put s
      | some row ↦
          if row.generation == lease.generation - 1 then put s else raise claim_unavailable s
    ]

-- The UPDATE of `claim_projection`, and its two writes.
abbrev pub take_item : WorkLease → Instant → Query (Unit {0})
take_item lease now =
    update_item (work_key lease)
      (λ row.
        row.attempt_count == lease.attempt - 1
        && is_claimable row.status
        && leb row.available_at now
        && not (is_some row.cancel_requested_at))
      (λ row. record row { status = claimed; attempt_count = lease.attempt }) claim_unavailable

abbrev pub take_claim : WorkLease → ℕ → Instant → Instant → Query (Unit {0})
take_claim lease duration acquired_at now = do
  take_item lease now
  upsert_lease lease acquired_at (acquired_at + duration)

-- `claim_projection`, with the clock's two readings
unfoldable pub claim_projection : WorkLease → ℕ → ℕ → Instant → Instant → Query (Unit {0})
claim_projection lease limit duration acquired_at now = do
  active ← gets (λ s. count_active lease.tenant_id s.work_items)
  raise_if (leb limit active) claim_unavailable
  take_claim lease duration acquired_at now

-- What the SELECTs of `claim` find: the next attempt and generation.
abbrev pub next_claim : ℕ × ℕ → Database → Option (ℕ × ℕ)
next_claim key s = elim (lookup key s.work_items) [
  | none ↦ none
  | some row ↦
      if not (is_claimable row.status && not (is_some row.cancel_requested_at))
        || leb row.max_attempts row.attempt_count
      then none
      else some (
        suc row.attempt_count,
        elim (lookup key s.work_leases) [ none ↦ 1 | some l ↦ suc l.generation ],
      )
]

-- `mark_started`
unfoldable pub mark_started : WorkRequest → WorkLease → Query (Unit {0})
mark_started r lease =
    update_item (r.tenant_id, r.work_id) (λ row. is_claimed row.status)
      (λ row. record row { status = running }) (fencing_error lease.generation 0)

-- `renew_lease` of `heartbeat`
unfoldable pub renew_lease : WorkLease → ℕ → Instant → Query (Unit {0})
renew_lease lease extension now s = elim (lookup (work_key lease) s.work_leases) [
  | none ↦ raise (fencing_error lease.generation 0) s
  | some row ↦
      if row.lease_token == lease.token
        && row.generation == lease.generation
        && row.owner == lease.owner
        && not (is_some row.released_at)
        && ltb now row.expires_at
      then modify
          (λ d. record d {
            work_leases =
                insert (work_key lease)
                  (record row { heartbeat_at = now; expires_at = now + extension }) d.work_leases;
          })
          s
      else raise (fencing_error lease.generation 0) s
]

module _ (python : Python) (session : Session) (context : Name) where
  unfoldable pub register : WorkRequest → Uuid → Uuid → Query ℕ
  register request event_id message_id = do
    validate_request_context context request
    validate_transport_size python (transport_envelope request event_id message_id)
    event ← make_event (requested_transition request) request event_id request.causation_id
    append_atomic session 0 context (event ∷ []) 0 (insert_work request event_id) (
        work_message request message_id event_id request.requested_at (transport_headers request)
        ∷ [])

  unfoldable pub mark_published : QueueDelivery → Instant → Query (Unit {0})
  mark_published delivery at = do
    request ← verify_delivery python session 0 context delivery
    version ← current_version session 1 context request.work_id
    event ←
        make_event
          (record { event_type = work_published; occurred_at = at; details = []; lease = none })
          request (session.uuid_factory 0) delivery.envelope.event_id
    result ←
        append_from_inbox session 2 context inbox_source delivery.envelope.message_id (event ∷ [])
          version [] (mark_projection request)
    pure tt

  -- The lease that a claim asks for.
  abbrev pub asked_lease : WorkRequest → Name → Instant → Instant → ℕ × ℕ → WorkLease
  asked_lease request owner now expires_at (attempt, generation) = record {
    work_id = request.work_id;
    tenant_id = request.tenant_id;
    token = session.uuid_factory 0;
    generation = generation;
    owner = owner;
    attempt = attempt;
    acquired_at = now;
    heartbeat_at = now;
    expires_at = expires_at;
  }

  -- The append of a claim: `None` where another session was faster.
  abbrev pub write_claim : WorkLease → ℕ → ℕ → ℕ → EventEnvelope → Query (Option WorkLease)
  write_claim lease limit duration version event =
      let acquired_at = session.clock_timestamp 0 in
      catch_if is_lost_claim none (do
        version' ←
            append_atomic session 3 context (event ∷ []) version
              (claim_projection lease limit duration acquired_at (session.clock_timestamp 1)) []
        pure (
            some (record lease {
              acquired_at = acquired_at;
              heartbeat_at = acquired_at;
              expires_at = acquired_at + duration;
            })))

  -- The rest of `claim`, for the lease that it asks for.
  unfoldable pub claim_lease : WorkRequest → WorkLease → ℕ → ℕ → Instant → Query (Option WorkLease)
  claim_lease request lease limit duration now = do
    raise_if (not (lease_is_valid lease)) (value_error "invalid lease")
    version ← current_version session 2 context request.work_id
    event ←
        make_event
          (record {
            event_type = work_claimed;
            occurred_at = now;
            details = [];
            lease = some lease;
          })
          request (session.uuid_factory 1) none
    write_claim lease limit duration version event

  abbrev pub claim_next :
      WorkRequest → Name → Instant → Instant → ℕ → Option (ℕ × ℕ) → Query (Option WorkLease)
  claim_next request owner now expires_at limit none = pure none
  claim_next request owner now expires_at limit (some next) =
      claim_lease request (asked_lease request owner now expires_at next) limit (expires_at - now)
        now

  abbrev pub select_claim : WorkRequest → Name → Instant → Instant → ℕ → Query (Option WorkLease)
  select_claim request owner now expires_at limit = do
    next ← transaction session 1 (gets (next_claim (request.tenant_id, request.work_id)))
    claim_next request owner now expires_at limit next

  unfoldable pub claim : QueueDelivery → Name → Instant → Instant → ℕ → Query (Option WorkLease)
  claim delivery owner now expires_at limit = do
    raise_if (owner == 0 || leb expires_at now) (value_error "invalid work claim")
    raise_if (not (leb 5000000 (expires_at - now) && leb (expires_at - now) 3600000000))
        (value_error "lease duration must be between 5 and 3600 seconds")
    request ← verify_delivery python session 0 context delivery
    validate_request_context context request
    if limit == 0 then pure none else select_claim request owner now expires_at limit

  unfoldable pub start : QueueDelivery → WorkLease → Instant → Query (Unit {0})
  start delivery lease at = do
    request ← lift (request_from_delivery python delivery)
    version ←
        append_leased session 0 context (session.uuid_factory 0) request
          (record { event_type = work_started; occurred_at = at; details = []; lease = some lease })
          lease (mark_started request lease)
    pure tt

  unfoldable pub heartbeat : QueueDelivery → WorkLease → Instant → Instant → Query WorkLease
  heartbeat delivery lease at expires_at = do
    raise_if (leb expires_at at) (value_error "heartbeat expiry must be in the future")
    raise_if (not (leb 5000000 (expires_at - at) && leb (expires_at - at) 3600000000))
        (value_error "heartbeat extension must be between 5 and 3600 seconds")
    let renewed = record lease { heartbeat_at = at; expires_at = expires_at }
    raise_if (not (lease_is_valid renewed)) (value_error "invalid lease")
    request ← lift (request_from_delivery python delivery)
    version ←
        append_leased session 0 context (session.uuid_factory 0) request
          (record {
            event_type = work_heartbeat;
            occurred_at = at;
            details = [];
            lease = some renewed;
          })
          renewed (renew_lease lease (expires_at - at) (session.clock_timestamp 1))
    pure (record renewed {
      heartbeat_at = session.clock_timestamp 1;
      expires_at = session.clock_timestamp 1 + (expires_at - at);
    })
