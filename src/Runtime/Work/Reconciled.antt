-- ===== src/Runtime/Work/Reconciled.antt =====
-- `reconcile_expired` of runtime/postgres.py keeps the status column in agreement with the ledger.
use aegis_agent_platform.Prelude.{
  ℕ, suc, ◌+◌, ◌≡◌, refl, Bool, true, false, not, ◌&&◌, leb, if◌then◌else◌, Option, none, some,
  List, [], ◌∷◌, ok, gets, lookup, insert, pair_eq, inl, inr, Option-cases, Bool-cases, arith,
}
use Prim.Native.String.{String}
use aegis_agent_platform.Domain.Events.{
  Name, Uuid, Instant, EventEnvelope, work_reconciled, work_lease_expired, work_dead_lettered,
}
use aegis_agent_platform.Domain.Work.{WorkLease, lease_is_valid}
use aegis_agent_platform.Domain.Work.Request.{WorkRequest}
use aegis_agent_platform.Storage.{
  Database, Session, Query, value_error, is_concurrency_error, WorkItem, OutboxRow, transaction,
}
use aegis_agent_platform.Storage.Ledger.{current_version, head_of}
use aegis_agent_platform.Runtime.Work.Statements.{
  work_key, holds_lease, dead_letter_expired_in_transaction,
}
use aegis_agent_platform.Runtime.Work.Settle.{is_queued}
use aegis_agent_platform.Runtime.Work.Reconcile.{
  Redrive, Expired, redrive_projection, redrive_message, may_redrive, redriven,
}
use aegis_agent_platform.Runtime.Work.Expire.{
  is_cancelled, is_exhausted, outcome_type, check_cancellation, expire_lease, settle_expired,
  expire_projection, write_reconciled, redrive_transition, redrive, expired_transition,
  outcome_transition, write_expired, expire, expire_all, redrive_all, add_reconciled,
  reconcile_pages, reconcile_expired,
}
use aegis_agent_platform.Runtime.Work.Edges.{redrive_edge, expire_edge}
use aegis_agent_platform.Runtime.Work.Agreement.{status_of, Agrees, OfStream, types}
use aegis_agent_platform.Runtime.Work.Shifts.{
  Moves, any, Moves-then, Moves-after_still, Moves-still, update_item-Moves,
}
use aegis_agent_platform.Runtime.Work.Moves.{release_lease-Moves, put_dead_letter-Moves}
use aegis_agent_platform.Runtime.Work.Appends.{
  Steady, Ends-make_event, Ends-read, append_atomic-Ends,
}
use aegis_agent_platform.Runtime.Work.Refinement.{own_work, Ends-map, Ends-catch_if}
use aegis_agent_platform.Runtime.Work.Loads.{Ends-load_request}
use aegis_agent_platform.Storage.Triples.{Ends, Ends-bind, Ends-raise_if}

-- What a redrive writes that returns: the work was queued, and only an outbox row has changed.
record Redriven (key : ℕ × ℕ) (work : Uuid) (s s' : Database) : Type 0 where
  item : WorkItem
  found : lookup (key.0, work) s.work_items ≡ some item
  queued : is_queued item.status ≡ true
  same_events : s'.events ≡ s.events
  same_items : s'.work_items ≡ s.work_items

redrive_message-ok :
    (key : ℕ × ℕ) (work : Uuid) (now : Instant) (row : OutboxRow) (s s' : Database)
    → redrive_message key work now row s ≡ (ok tt, s')
    → (s'.events ≡ s.events) × (s'.work_items ≡ s.work_items)
redrive_message-ok key work now row s s' h =
    elim (Bool-cases (may_redrive key.0 key.1 work now row s)) [
      | inl may ↦
          let e : record s { outbox_messages = insert key (redriven now row) s.outbox_messages }
              ≡ s' =
            ground (arith, h, may) in
          (rw (← e) refl, rw (← e) refl)
      | inr not_now ↦ absurd (ground (arith, h, not_now))
    ]

redrive_projection-Redriven :
    (key : ℕ × ℕ) (work : Uuid) (now : Instant) (s s' : Database)
    → redrive_projection key work now s ≡ (ok tt, s')
    → Redriven key work s s'
unfolding redrive_projection
redrive_projection-Redriven key work now s s' h =
    elim (Option-cases (lookup (key.0, work) s.work_items)) [
      | inl missing ↦ absurd (ground (arith, h, missing))
      | inr (item, found) ↦ elim (Bool-cases (is_queued item.status)) [
        | inr other ↦ absurd (ground (arith, h, found, other))
        | inl queued ↦ elim (Option-cases (lookup key s.outbox_messages)) [
          | inl unsent ↦ absurd (ground (arith, h, found, queued, unsent))
          | inr (row, sent) ↦
              let same =
                redrive_message-ok key work now row s s'
                  (rw (redrive_projection, found, queued, sent) at h) in
              record {
                item = item;
                found = found;
                queued = queued;
                same_events = same.0;
                same_items = same.1;
              }
        ]
      ]
    ]

redrive_projection-Moves :
    (key : ℕ × ℕ) (work : Uuid) (now : Instant)
    → Moves key.0 work any (work_reconciled ∷ []) (redrive_projection key work now)
redrive_projection-Moves key work now = record {
  shifts = λ s s' f h.
      let r = redrive_projection-Redriven key work now s s' h in
      record {
        same_events = r.same_events;
        others = λ t w other. rw (status_of, r.same_items) refl;
        replays = rw (status_of, r.same_items, r.found) (redrive_edge r.item.status r.queued);
      };
}

expire_lease-Moves :
    (lease : WorkLease) (at now : Instant) (cancelled exhausted : Bool)
    → (if cancelled then false else exhausted) ≡ false
    → Moves lease.tenant_id lease.work_id any
        (work_lease_expired ∷ outcome_type cancelled exhausted ∷ [])
        (expire_lease lease at now cancelled)
unfolding expire_lease
expire_lease-Moves lease at now cancelled exhausted no_burial =
    Moves-after_still lease.tenant_id lease.work_id any
      (work_lease_expired ∷ outcome_type cancelled exhausted ∷ []) _ _
      (release_lease-Moves lease at "lease_expired"
        (λ row. holds_lease lease row && leb row.expires_at now))
      (update_item-Moves lease.tenant_id lease.work_id any
        (work_lease_expired ∷ outcome_type cancelled exhausted ∷ []) _ _ _
        (λ row h f. ground (arith, expire_edge row.status cancelled exhausted h, no_burial)))

bury_expired-Moves :
    (lease : WorkLease) (at now : Instant) (reason : String)
    → Moves lease.tenant_id lease.work_id any
        (work_lease_expired ∷ work_dead_lettered ∷ [])
        (dead_letter_expired_in_transaction lease at reason now)
unfolding dead_letter_expired_in_transaction
bury_expired-Moves lease at now reason =
    Moves-after_still lease.tenant_id lease.work_id any
      (work_lease_expired ∷ work_dead_lettered ∷ []) _ _
      (release_lease-Moves lease at "dead_letter"
        (λ row. holds_lease lease row && leb row.expires_at now))
      (Moves-then lease.tenant_id lease.work_id any (work_lease_expired ∷ work_dead_lettered ∷ [])
        [] _ _
        (update_item-Moves lease.tenant_id lease.work_id any
          (work_lease_expired ∷ work_dead_lettered ∷ []) _ _ _
          (λ row h f. expire_edge row.status false true h))
        (put_dead_letter-Moves lease at reason))

settle_expired-Moves :
    (cancelled exhausted : Bool) (lease : WorkLease) (at now : Instant)
    → Moves lease.tenant_id lease.work_id any
        (work_lease_expired ∷ outcome_type cancelled exhausted ∷ [])
        (settle_expired cancelled exhausted lease at now)
settle_expired-Moves true exhausted lease at now =
    expire_lease-Moves lease at now true exhausted refl
settle_expired-Moves false true lease at now =
    bury_expired-Moves lease at now "lease_expired_after_max_attempts"
settle_expired-Moves false false lease at now = expire_lease-Moves lease at now false false refl

check_cancellation-still :
    (key : ℕ × ℕ) (expected : Option Instant) (s : Database)
    → (check_cancellation key expected s).1 ≡ s
unfolding check_cancellation
check_cancellation-still key expected s = elim (Option-cases (lookup key s.work_items)) [
  | inl missing ↦ ground (arith, missing)
  | inr (row, found) ↦ ground (arith, found)
]

expire_projection-Moves :
    (row : Expired) (at now : Instant)
    → Moves row.lease.tenant_id row.lease.work_id any
        (work_lease_expired ∷ outcome_type (is_cancelled row) (is_exhausted row) ∷ [])
        (expire_projection row at now)
unfolding expire_projection
expire_projection-Moves row at now =
    Moves-after_still row.lease.tenant_id row.lease.work_id any _
      (check_cancellation (work_key row.lease) row.cancel_requested_at)
      (settle_expired (is_cancelled row) (is_exhausted row) row.lease at now)
      (Moves-still row.lease.tenant_id row.lease.work_id _
        (λ s. rw (check_cancellation-still (work_key row.lease) row.cancel_requested_at s) refl)
        (λ s t w.
          rw (check_cancellation-still (work_key row.lease) row.cancel_requested_at s) refl))
      (settle_expired-Moves (is_cancelled row) (is_exhausted row) row.lease at now)

module _ (session : Session) (context : Name) (now : Instant) (steady : Steady Agrees session) where
  write_reconciled-Ends :
      (i : ℕ) (head : Uuid) (t : Name) (work : Uuid) (es : List EventEnvelope)
      (m : Query (Unit {0}))
      → OfStream t work es
      → Moves t work any (types es) m
      → Ends Agrees Agrees (write_reconciled session context now i head es m)
  unfolding current_version
  write_reconciled-Ends i head t work es m stream moves =
      Ends-bind (λ s h. h) (current_version session i context head) _
        (Ends-read session i (head_of context head) steady)
        (λ version. Ends-catch_if is_concurrency_error false _ (
          Ends-map _ (λ _. true)
            (append_atomic-Ends Agrees (λ s h. h) session steady t work (suc i) context es version
              [] m stream moves)))

  redrive-Ends :
      (i k : ℕ) (row : Redrive) → Ends Agrees Agrees (redrive session context now i k row)
  unfolding redrive
  redrive-Ends i k row =
      let key : ℕ × ℕ = (context, row.message.message_id) in
      Ends-load_request (λ s h. h) session steady i context row.work_id _
        (λ r work tenant.
          Ends-make_event Agrees (λ s h. h) (redrive_transition session context now) r
            (session.uuid_factory k) none
            (λ e.
              write_reconciled session context now (suc i) row.work_id (e ∷ [])
                (redrive_projection key row.work_id (session.clock_timestamp i)))
            (λ own.
              write_reconciled-Ends (suc i) row.work_id context row.work_id _ _ ((tenant, work), tt)
                (redrive_projection-Moves key row.work_id (session.clock_timestamp i))))

  write_expired-Ends :
      (i k : ℕ) (row : Expired) (r : WorkRequest) (e : EventEnvelope)
      → OfStream r.tenant_id r.work_id (e ∷ [])
      → e.event_type ≡ work_lease_expired
      → Ends Agrees Agrees (write_expired session context now i k row r e)
  write_expired-Ends i k row r e stream kind =
      Ends-make_event Agrees (λ s h. h) (outcome_transition session context now row) r
        (session.uuid_factory (suc k)) (some e.event_id)
        (λ outcome.
          write_reconciled session context now i row.lease.work_id (e ∷ outcome ∷ [])
            (expire_projection row now (session.clock_timestamp i)))
        (λ own.
          write_reconciled-Ends i row.lease.work_id r.tenant_id r.work_id _ _
            (stream.0, ((refl, refl), tt))
            (rw kind (
              own_work r row.lease any _ _ own
                (expire_projection-Moves row now (session.clock_timestamp i)))))

  expire-Ends : (i k : ℕ) (row : Expired) → Ends Agrees Agrees (expire session context now i k row)
  unfolding expire
  expire-Ends i k row =
      Ends-raise_if (λ s h. h) (not (lease_is_valid row.lease)) (value_error "invalid lease") _
        (λ _.
          Ends-load_request (λ s h. h) session steady i context row.lease.work_id _
            (λ r work tenant.
              Ends-make_event Agrees (λ s h. h) (expired_transition session context now row.lease) r
                (session.uuid_factory k) none (write_expired session context now (suc i) k row r)
                (λ own. write_expired-Ends (suc i) k row r _ ((refl, refl), tt) refl)))

  expire_all-Ends :
      (i k : ℕ) (rows : List Expired) → Ends Agrees Agrees (expire_all session context now i k rows)
  unfolding expire_all
  expire_all-Ends i k [] = record { at = λ s h. h }
  expire_all-Ends i k (row ∷ rows) =
      Ends-bind (λ s h. h) (expire session context now i k row) _
        (record { at = (expire-Ends i k row).at })
        (λ done.
          Ends-map _ (add_reconciled session context now row.lease.work_id done)
            (expire_all-Ends (3 + i) (2 + k) rows))

  redrive_all-Ends :
      (i k : ℕ) (rows : List Redrive) (expired : List Expired)
      → Ends Agrees Agrees (redrive_all session context now i k rows expired)
  unfolding redrive_all
  redrive_all-Ends i k [] expired = expire_all-Ends i k expired
  redrive_all-Ends i k (row ∷ rows) expired =
      Ends-bind (λ s h. h) (redrive session context now i k row) _
        (record { at = (redrive-Ends i k row).at })
        (λ done.
          Ends-map _ (add_reconciled session context now row.work_id done)
            (redrive_all-Ends (3 + i) (suc k) rows expired))

  pub reconcile_expired-Ends :
      (limit : ℕ) → Ends Agrees Agrees (reconcile_expired session context now limit)
  unfolding reconcile_expired
  reconcile_expired-Ends limit =
      Ends-raise_if (λ s h. h) (not (leb 1 limit && leb limit 1000))
        (value_error "reconciliation limit must be between 1 and 1000") _
        (λ _.
          Ends-bind (λ s h. h)
            (transaction session 0 (gets (reconcile_pages session context now limit))) _
            (Ends-read session 0 (reconcile_pages session context now limit) steady)
            (λ pages. redrive_all-Ends 1 0 pages.0 pages.1))
