-- ===== src/Runtime/Work/Expire.antt =====
-- runtime/postgres.py: the two loops of `reconcile_expired`.
use aegis_agent_platform.Prelude.{
  ℕ, suc, ◌+◌, ◌-◌, Bool, true, false, not, ◌&&◌, leb, if◌then◌else◌, Option, none, some, List, [],
  ◌∷◌, ◌>>=◌, ◌>>◌, pure, raise, gets, raise_if, is_some, lookup, pair_eq, length,
}
use aegis_agent_platform.Domain.Events.{
  Name, Uuid, Instant, JsonValue, Payload, EventEnvelope, DomainEventType, work_reconciled,
  work_lease_expired, work_cancelled, work_dead_lettered,
}
use aegis_agent_platform.Domain.Work.{WorkStatus, retry_wait, WorkLease, lease_is_valid}
use aegis_agent_platform.Domain.Work.Request.{WorkRequest, WorkTransition}
use aegis_agent_platform.Storage.{
  Database, Session, Query, value_error, concurrency_error, fencing_error, is_concurrency_error,
  transaction, update_item,
}
use aegis_agent_platform.Storage.Ledger.{append_atomic, current_version}
use aegis_agent_platform.Runtime.Work.{make_event, load_request, same_uuid}
use aegis_agent_platform.Runtime.Work.Statements.{
  work_key, is_executing, holds_lease, release_lease, dead_letter_expired_in_transaction,
}
use aegis_agent_platform.Runtime.Work.Claims.{catch_if}
use aegis_agent_platform.Runtime.Work.Reconcile.{
  Redrive, Expired, redrive_rows, expired_rows, redrive_projection,
}

-- The local variables of the second loop: whether the work is cancelled, and whether its attempts
-- are used up.
abbrev pub is_cancelled : Expired → Bool
is_cancelled row = is_some row.cancel_requested_at

abbrev pub is_exhausted : Expired → Bool
is_exhausted row = leb row.max_attempts row.lease.attempt

abbrev pub outcome_type : Bool → Bool → DomainEventType
outcome_type true exhausted = work_cancelled
outcome_type false true = work_dead_lettered
outcome_type false false = work_reconciled

abbrev pub outcome_details : Bool → Bool → Payload
outcome_details true exhausted = ("outcome", JsonValue.text "cancelled") ∷ []
outcome_details false true =
    ("outcome", JsonValue.text "dead_letter")
    ∷ ("reason_code", JsonValue.text "lease_expired_after_max_attempts")
    ∷ []
outcome_details false false = ("outcome", JsonValue.text "retry_wait") ∷ []

-- `SELECT ... cancel_requested_at IS NOT DISTINCT FROM ... FOR UPDATE`
unfoldable pub check_cancellation : ℕ × ℕ → Option Instant → Query (Unit {0})
check_cancellation key expected s = elim (lookup key s.work_items) [
  | none ↦ raise (concurrency_error 1 0) s
  | some row ↦
      if same_uuid row.cancel_requested_at expected
      then pure tt s
      else raise (concurrency_error 1 0) s
]

-- The two UPDATEs of `expire_projection`.
unfoldable pub expire_lease : WorkLease → Instant → Instant → Bool → Query (Unit {0})
expire_lease lease at now cancelled = do
  release_lease lease at "lease_expired" (λ row. holds_lease lease row && leb row.expires_at now)
  update_item (work_key lease) (λ row. is_executing row.status)
      (λ row. record row {
        status = if cancelled then WorkStatus.cancelled else retry_wait;
        available_at = at;
        completed_at = if cancelled then some at else none;
      })
      (fencing_error lease.generation 0)

abbrev pub settle_expired : Bool → Bool → WorkLease → Instant → Instant → Query (Unit {0})
settle_expired true exhausted lease at now = expire_lease lease at now true
settle_expired false true lease at now =
    dead_letter_expired_in_transaction lease at "lease_expired_after_max_attempts" now
settle_expired false false lease at now = expire_lease lease at now false

-- `expire_projection`, with the clock's reading
unfoldable pub expire_projection : Expired → Instant → Instant → Query (Unit {0})
expire_projection row at now = do
  check_cancellation (work_key row.lease) row.cancel_requested_at
  settle_expired (is_cancelled row) (is_exhausted row) row.lease at now

module _ (session : Session) (context : Name) (now : Instant) where
  -- `except (ConcurrencyError, FencingError): continue`
  abbrev pub write_reconciled : ℕ → Uuid → List EventEnvelope → Query (Unit {0}) → Query Bool
  write_reconciled i work events mutation = do
    version ← current_version session i context work
    catch_if is_concurrency_error false
        (do version' ← append_atomic session (suc i) context events version mutation []; pure true)

  abbrev pub redrive_transition : WorkTransition
  redrive_transition = record {
    event_type = work_reconciled;
    occurred_at = now;
    details = ("outcome", JsonValue.text "published_transport_redrive") ∷ [];
    lease = none;
  }

  -- One pass of the first loop, from its i-th transaction and its k-th identifier.
  unfoldable pub redrive : ℕ → ℕ → Redrive → Query Bool
  redrive i k row = do
    request ← load_request session i context row.work_id
    event ← make_event redrive_transition request (session.uuid_factory k) none
    write_reconciled (suc i) row.work_id (event ∷ []) (
        redrive_projection (context, row.message.message_id) row.work_id
          (session.clock_timestamp i))

  abbrev pub expired_transition : WorkLease → WorkTransition
  expired_transition lease = record {
    event_type = work_lease_expired;
    occurred_at = now;
    details = ("reason_code", JsonValue.text "heartbeat_timeout") ∷ [];
    lease = some lease;
  }

  abbrev pub outcome_transition : Expired → WorkTransition
  outcome_transition row = record {
    event_type = outcome_type (is_cancelled row) (is_exhausted row);
    occurred_at = now;
    details = outcome_details (is_cancelled row) (is_exhausted row);
    lease = some row.lease;
  }

  abbrev pub write_expired : ℕ → ℕ → Expired → WorkRequest → EventEnvelope → Query Bool
  write_expired i k row request expired = do
    outcome ←
        make_event (outcome_transition row) request (session.uuid_factory (suc k))
          (some expired.event_id)
    write_reconciled i row.lease.work_id (expired ∷ outcome ∷ [])
        (expire_projection row now (session.clock_timestamp i))

  -- One pass of the second loop.
  unfoldable pub expire : ℕ → ℕ → Expired → Query Bool
  expire i k row = do
    raise_if (not (lease_is_valid row.lease)) (value_error "invalid lease")
    request ← load_request session i context row.lease.work_id
    expired ← make_event (expired_transition row.lease) request (session.uuid_factory k) none
    write_expired (suc i) k row request expired

  abbrev pub add_reconciled : Uuid → Bool → List Uuid → List Uuid
  add_reconciled work true rest = work ∷ rest
  add_reconciled work false rest = rest

  unfoldable pub expire_all : ℕ → ℕ → List Expired → Query (List Uuid)
  expire_all i k [] = pure []
  expire_all i k (row ∷ rows) = do
    done ← expire i k row
    rest ← expire_all (3 + i) (2 + k) rows
    pure (add_reconciled row.lease.work_id done rest)

  unfoldable pub redrive_all : ℕ → ℕ → List Redrive → List Expired → Query (List Uuid)
  redrive_all i k [] expired = expire_all i k expired
  redrive_all i k (row ∷ rows) expired = do
    done ← redrive i k row
    rest ← redrive_all (3 + i) (suc k) rows expired
    pure (add_reconciled row.work_id done rest)

  -- The transaction that reads both pages.
  abbrev pub reconcile_pages : ℕ → Database → List Redrive × List Expired
  reconcile_pages limit s =
      let first = redrive_rows context (session.clock_timestamp 0) limit s in
      (first, expired_rows context now (limit - length first) s)

  unfoldable pub reconcile_expired : ℕ → Query (List Uuid)
  reconcile_expired limit = do
    raise_if (not (leb 1 limit && leb limit 1000))
        (value_error "reconciliation limit must be between 1 and 1000")
    pages ← transaction session 0 (gets (reconcile_pages limit))
    redrive_all 1 0 pages.0 pages.1
