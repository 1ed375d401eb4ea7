-- ===== src/Runtime/Work/Requeue.antt =====
-- runtime/postgres.py: how dead-lettered work is approved and requeued; and the approval of
-- runtime/operations.py.
use Prim.Native.String.{String}
use aegis_agent_platform.Prelude.{
  ℕ, suc, Bool, false, not, ◌&&◌, ◌==◌, leb, ltb, if◌then◌else◌, none, some, [], ◌∷◌, ◌>>=◌, ◌>>◌,
  pure, raise, modify, raise_if, is_some, lookup, insert, pair_eq, string_eq,
}
use aegis_agent_platform.Domain.Events.{
  Name, Uuid, Instant, JsonValue, EventEnvelope, work_retry_scheduled,
}
use aegis_agent_platform.Domain.Work.{retry_wait}
use aegis_agent_platform.Domain.Work.Request.{WorkRequest, WorkTransition}
use aegis_agent_platform.Storage.{
  Database, Session, Query, value_error, concurrency_error, ApprovalRow, transaction, update_item,
}
use aegis_agent_platform.Storage.Ledger.{append_atomic, current_version}
use aegis_agent_platform.Runtime.Work.{make_event, load_request}
use aegis_agent_platform.Runtime.Work.Statements.{is_dead_letter}
use aegis_agent_platform.Runtime.Work.Claims.{work_message, transport_headers}

pub record RequeueApproval : Type 0 where
  pub approval_id : Uuid
  pub approved_by : Name
  pub approved_at : Instant
  pub scope : String

-- `RequeueApproval.__post_init__`
unfoldable pub approval_is_valid : RequeueApproval → Bool
approval_is_valid a = not (a.approved_by == 0) && string_eq.beq a.scope "dlq:requeue"

-- The row that the SELECT of `requeue_projection` asks for.
abbrev pub is_open_approval : RequeueApproval → Uuid → Name → Instant → ApprovalRow → Bool
is_open_approval approval work actor now row =
    row.work_id == work
    && row.approved_by == approval.approved_by
    && row.approved_at == approval.approved_at
    && not (is_some row.consumed_at)
    && ltb now row.expires_at
    && not (row.approved_by == actor)

unfoldable pub check_approval : Name → RequeueApproval → Uuid → Name → Instant → Query (Unit {0})
check_approval tenant approval work actor now s =
    elim (lookup (tenant, approval.approval_id) s.work_requeue_approvals) [
      | none ↦ raise (concurrency_error 1 0) s
      | some row ↦
          if is_open_approval approval work actor now row
          then pure tt s
          else raise (concurrency_error 1 0) s
    ]

-- `SET consumed_at = clock_timestamp(), consumed_by = %s`
abbrev pub consume : ℕ × ℕ → Name → Instant → Database → Database
consume key actor now s = elim (lookup key s.work_requeue_approvals) [
  | none ↦ s
  | some row ↦ record s {
    work_requeue_approvals =
        insert key (record row { consumed_at = some now; consumed_by = some actor })
          s.work_requeue_approvals;
  }
]

-- `SET requeue_count = requeue_count + 1, last_requeued_at = %s`
abbrev pub count_requeue : ℕ × ℕ → Instant → Database → Database
count_requeue key at s = elim (lookup key s.work_dead_letters) [
  | none ↦ s
  | some row ↦ record s {
    work_dead_letters =
        insert key
          (record row { requeue_count = suc row.requeue_count; last_requeued_at = some at })
          s.work_dead_letters;
  }
]

-- The UPDATE of `work_items` in `requeue_projection`.
abbrev pub requeue_item : Name → Uuid → Instant → Query (Unit {0})
requeue_item tenant work at =
    update_item (tenant, work) (λ row. is_dead_letter row.status)
      (λ row. record row {
        status = retry_wait;
        available_at = at;
        attempt_count = 0;
        completed_at = none;
        last_error_code = none;
        cancel_requested_at = none;
      })
      (concurrency_error 1 0)

abbrev pub close_approval :
    Name → RequeueApproval → Uuid → Name → Instant → Instant → Query (Unit {0})
close_approval tenant approval work actor at now = do
  modify (consume (tenant, approval.approval_id) actor now)
  modify (count_requeue (tenant, work) at)

-- `requeue_projection`, with the clock's two readings
unfoldable pub requeue_projection :
    Name → RequeueApproval → Uuid → Name → Instant → Instant → Instant → Query (Unit {0})
requeue_projection tenant approval work actor at now later = do
  check_approval tenant approval work actor now
  requeue_item tenant work at
  close_approval tenant approval work actor at later

abbrev pub requeue_transition : Instant → RequeueApproval → WorkTransition
requeue_transition at approval = record {
  event_type = work_retry_scheduled;
  occurred_at = at;
  details =
      ("retry_at", JsonValue.instant at)
      ∷ ("reason_code", JsonValue.text "approved_dlq_requeue")
      ∷ ("approval_id", JsonValue.uuid approval.approval_id)
      ∷ [];
  lease = none;
}

module _ (session : Session) (context : Name) where
  -- The append of `requeue_dead_letter`.
  abbrev pub write_requeue :
      WorkRequest → Uuid → Instant → RequeueApproval → Name → EventEnvelope → Query (Unit {0})
  write_requeue request work at approval actor event = do
    version ← current_version session 1 context work
    version' ←
        append_atomic session 2 context (event ∷ []) version
          (requeue_projection request.tenant_id approval work actor at (session.clock_timestamp 0)
            (session.clock_timestamp 1))
          (work_message request (session.uuid_factory 1) event.event_id at
              (transport_headers request)
            ∷ [])
    pure tt

  unfoldable pub requeue_dead_letter : Uuid → Instant → RequeueApproval → Name → Query (Unit {0})
  requeue_dead_letter work at approval actor = do
    request ← load_request session 0 context work
    event ← make_event (requeue_transition at approval) request (session.uuid_factory 0) none
    write_requeue request work at approval actor event

  abbrev pub new_approval : Uuid → RequeueApproval → Instant → ApprovalRow
  new_approval work approval expires_at = record {
    work_id = work;
    approved_by = approval.approved_by;
    approved_at = approval.approved_at;
    expires_at = expires_at;
    consumed_at = none;
    consumed_by = none;
  }

  -- `INSERT ... SELECT ... ON CONFLICT DO NOTHING`: true where it inserts a row.
  abbrev pub may_approve : Uuid → Uuid → Database → Bool
  may_approve work approval_id s =
      is_some (lookup (context, work) s.work_dead_letters)
      && elim (lookup (context, work) s.work_items) [
        | none ↦ false
        | some row ↦ is_dead_letter row.status
      ]
      && not (is_some (lookup (context, approval_id) s.work_requeue_approvals))

  abbrev pub insert_approval : Uuid → RequeueApproval → Instant → Query (Unit {0})
  insert_approval work approval expires_at s =
      if may_approve work approval.approval_id s
      then modify
          (λ d. record d {
            work_requeue_approvals =
                insert (context, approval.approval_id) (new_approval work approval expires_at)
                  d.work_requeue_approvals;
          })
          s
      else raise (concurrency_error 1 0) s

  unfoldable pub approve_dead_letter_requeue : Uuid → RequeueApproval → Instant → Query (Unit {0})
  approve_dead_letter_requeue work approval expires_at = do
    raise_if (leb expires_at approval.approved_at)
        (value_error "approval expiry must be after approval time")
    transaction session 0 (insert_approval work approval expires_at)
