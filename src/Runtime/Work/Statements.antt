-- ===== src/Runtime/Work/Statements.antt =====
-- runtime/postgres.py: the statements that settle a lease inside the transaction of an append.
use Prim.Native.String.{String}
use aegis_agent_platform.Prelude.{
  ℕ, Bool, true, false, not, ◌&&◌, ◌==◌, leb, if◌then◌else◌, Option, none, some, ◌>>◌, modify,
  is_some, lookup, insert, pair_eq,
}
use aegis_agent_platform.Domain.Events.{Instant}
use aegis_agent_platform.Domain.Work.{
  WorkStatus, requested, published, claimed, running, retry_wait, dead_letter, WorkLease,
}
use aegis_agent_platform.Storage.{
  Database, Query, fencing_error, LeaseRow, DeadLetter, update_item, update_lease,
}

abbrev pub work_key : WorkLease → ℕ × ℕ
work_key lease = (lease.tenant_id, lease.work_id)

-- `status IN ('claimed', 'running')`
abbrev pub is_executing : WorkStatus → Bool
is_executing claimed = true
is_executing running = true
is_executing _ = false

-- `status = 'claimed'`, and so on
abbrev pub is_claimed : WorkStatus → Bool
is_claimed claimed = true
is_claimed _ = false

abbrev pub is_running : WorkStatus → Bool
is_running running = true
is_running _ = false

abbrev pub is_dead_letter : WorkStatus → Bool
is_dead_letter dead_letter = true
is_dead_letter _ = false

-- `status IN ('published', 'retry_wait')`
abbrev pub is_claimable : WorkStatus → Bool
is_claimable published = true
is_claimable retry_wait = true
is_claimable _ = false

-- `status IN ('requested', 'retry_wait')`
abbrev pub is_publishable : WorkStatus → Bool
is_publishable requested = true
is_publishable retry_wait = true
is_publishable _ = false

-- The lease's own row, not released.
abbrev pub holds_lease : WorkLease → LeaseRow → Bool
holds_lease lease row =
    row.lease_token == lease.token
    && row.generation == lease.generation
    && not (is_some row.released_at)

-- `UPDATE work_leases SET released_at = ..., release_reason = ... WHERE ...`
unfoldable pub release_lease : WorkLease → Instant → String → (LeaseRow → Bool) → Query (Unit {0})
release_lease lease at reason test =
    update_lease (work_key lease) test
      (λ row. record row { released_at = some at; release_reason = some reason })
      (fencing_error lease.generation 0)

-- `_complete_in_transaction`
unfoldable pub complete_in_transaction :
    WorkLease → Instant → WorkStatus → String → Query (Unit {0})
complete_in_transaction lease at status reason = do
  release_lease lease at reason (holds_lease lease)
  update_item (work_key lease)
      (λ row. is_executing row.status && not (is_some row.cancel_requested_at))
      (λ row. record row { status = status; completed_at = some at })
      (fencing_error lease.generation 0)

-- `_release_in_transaction`
unfoldable pub release_in_transaction :
    WorkLease → Instant → String → Instant → Bool → Query (Unit {0})
release_in_transaction lease at reason retry_at running_only = do
  release_lease lease at reason (holds_lease lease)
  update_item (work_key lease)
      (λ row.
        (if running_only then is_running row.status else is_executing row.status)
        && not (is_some row.cancel_requested_at))
      (λ row. record row { status = retry_wait; available_at = retry_at })
      (fencing_error lease.generation 0)

-- `_cancel_in_transaction`
unfoldable pub cancel_in_transaction : WorkLease → Instant → Query (Unit {0})
cancel_in_transaction lease at = do
  release_lease lease at "cancelled" (holds_lease lease)
  update_item (work_key lease) (λ row. is_executing row.status && is_some row.cancel_requested_at)
      (λ row. record row { status = WorkStatus.cancelled; completed_at = some at })
      (fencing_error lease.generation 0)

-- `INSERT INTO work_dead_letters ... ON CONFLICT (tenant_id, work_id) DO UPDATE`
abbrev pub dead_letter_row : Option DeadLetter → Instant → String → ℕ → DeadLetter
dead_letter_row none at reason attempts = record {
  dead_lettered_at = at;
  reason_code = reason;
  attempts = attempts;
  requeue_count = 0;
  last_requeued_at = none;
}
dead_letter_row (some row) at reason attempts = record row {
  dead_lettered_at = at;
  reason_code = reason;
  attempts = attempts;
}

abbrev pub put_dead_letter : WorkLease → Instant → String → Database → Database
put_dead_letter lease at reason s = record s {
  work_dead_letters =
      insert (work_key lease)
        (dead_letter_row (lookup (work_key lease) s.work_dead_letters) at reason lease.attempt)
        s.work_dead_letters;
}

-- `UPDATE work_items SET last_error_code = ...`, which may update no row
abbrev pub put_error_code : ℕ × ℕ → String → Database → Database
put_error_code key reason s = elim (lookup key s.work_items) [
  | none ↦ s
  | some row ↦ record s {
    work_items = insert key (record row { last_error_code = some reason }) s.work_items;
  }
]

-- `_dead_letter_in_transaction`
unfoldable pub dead_letter_in_transaction : WorkLease → Instant → String → Query (Unit {0})
dead_letter_in_transaction lease at reason = do
  complete_in_transaction lease at dead_letter "dead_letter"
  modify (put_error_code (work_key lease) reason)
  modify (put_dead_letter lease at reason)

-- `_dead_letter_expired_in_transaction`, at the database's clock
unfoldable pub dead_letter_expired_in_transaction :
    WorkLease → Instant → String → Instant → Query (Unit {0})
dead_letter_expired_in_transaction lease at reason now = do
  release_lease lease at "dead_letter" (λ row. holds_lease lease row && leb row.expires_at now)
  update_item (work_key lease) (λ row. is_executing row.status)
      (λ row. record row {
        status = dead_letter;
        completed_at = some at;
        last_error_code = some reason;
      })
      (fencing_error lease.generation 0)
  modify (put_dead_letter lease at reason)
