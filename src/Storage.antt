-- ===== src/Storage.antt =====
-- The database that src/aegis_agent_platform/event_store/postgres.py and
-- src/aegis_agent_platform/runtime/postgres.py write: the tables of migrations/0002 and 0003 that
-- they use, by their primary keys, and transactions on them.
--
-- A call of a repository is given a `Session`: its values of `uuid_factory`, the readings of
-- `clock_timestamp()`, what other sessions commit before each of its transactions, and a fault that
-- the database may report instead of a commit (a lost connection, a violated constraint). A
-- transaction that raises, or that is not committed, leaves the database as it found it.
pub mod Ledger
pub mod Outbox
pub mod Runs
pub mod Triples
mod Tests
use Prim.Native.String.{String}
use aegis_agent_platform.Prelude.{
  ℕ, Bool, true, false, Option, none, some, List, Dict, Result, ok, err, Exec, lookup, insert,
  pair_eq, Eq, if◌then◌else◌, ◌==◌, ◌&&◌, ◌↔◌, ◌≡◌, arith,
}
use aegis_agent_platform.Domain.Events.{Name, Uuid, Instant, Payload, EventEnvelope}
use aegis_agent_platform.Domain.Work.{WorkStatus, WorkLease}

pub data OutboxStatus : Type 0 where
  pending leased published dead_letter : OutboxStatus

pub record OutboxMessage : Type 0 where
  pub message_id : Uuid
  pub destination : Name
  pub payload : Payload
  pub headers : Payload
  pub available_at : Instant
  pub max_attempts : ℕ
  pub event_id : Option Uuid

-- A row of `outbox_messages`; `message` holds the columns that are inserted.
pub record OutboxRow : Type 0 where
  pub message : OutboxMessage
  pub status : OutboxStatus
  pub attempt_count : ℕ
  pub lease_owner : Option Name
  pub lease_expires_at : Option Instant
  pub published_at : Option Instant
  pub last_error_code : Option String

-- A row of `work_items`.
pub record WorkItem : Type 0 where
  pub work_kind : Name
  pub idempotency_key : Name
  pub status : WorkStatus
  pub requested_at : Instant
  pub available_at : Instant
  pub max_attempts : ℕ
  pub timeout_seconds : ℕ
  pub request_event_id : Uuid
  pub correlation_id : Option Uuid
  pub causation_id : Option Uuid
  pub request_payload : Payload
  pub attempt_count : ℕ
  pub completed_at : Option Instant
  pub cancel_requested_at : Option Instant
  pub last_error_code : Option String

-- A row of `work_leases`.
pub record LeaseRow : Type 0 where
  pub lease_token : Uuid
  pub generation : ℕ
  pub owner : Name
  pub acquired_at : Instant
  pub heartbeat_at : Instant
  pub expires_at : Instant
  pub released_at : Option Instant
  pub release_reason : Option String

-- A row of `work_dead_letters`.
pub record DeadLetter : Type 0 where
  pub dead_lettered_at : Instant
  pub reason_code : String
  pub attempts : ℕ
  pub requeue_count : ℕ
  pub last_requeued_at : Option Instant

-- A row of `work_requeue_approvals`.
pub record ApprovalRow : Type 0 where
  pub work_id : Uuid
  pub approved_by : Name
  pub approved_at : Instant
  pub expires_at : Instant
  pub consumed_at : Option Instant
  pub consumed_by : Option Name

pub triple_beq_iff : (a b : (ℕ × ℕ) × ℕ) → ((pair_eq.beq a.0 b.0 && a.1 == b.1) ≡ true) ↔ (a ≡ b)
triple_beq_iff ((a, b), c) ((a', b'), c') = (λ h. ground arith, λ h. ground arith)

instance abbrev pub triple_eq : Eq ((ℕ × ℕ) × ℕ)
triple_eq = record { beq = λ a b. pair_eq.beq a.0 b.0 && a.1 == b.1; beq_iff = triple_beq_iff }

-- The keys start with the tenant; those of `inbox` are the tenant, the source and the message.
pub record Database : Type 0 where
  pub event_stream_heads : Dict (ℕ × ℕ) ℕ
  pub events : List EventEnvelope
  pub outbox_messages : Dict (ℕ × ℕ) OutboxRow
  pub inbox_messages : Dict ((ℕ × ℕ) × ℕ) (Option ℕ)
  pub work_items : Dict (ℕ × ℕ) WorkItem
  pub work_leases : Dict (ℕ × ℕ) LeaseRow
  pub work_dead_letters : Dict (ℕ × ℕ) DeadLetter
  pub work_requeue_approvals : Dict (ℕ × ℕ) ApprovalRow

-- The exceptions of event_store/__init__.py, `ValueError`, and `_ClaimUnavailableError` of
-- runtime/postgres.py.
pub data StorageFault : Type 0 where
  value_error permanent_error : String → StorageFault
  concurrency_error fencing_error replay_corruption : ℕ → ℕ → StorageFault
  claim_unavailable transient_error : StorageFault

-- `isinstance(error, ConcurrencyError)`: a FencingError is one.
abbrev pub is_concurrency_error : StorageFault → Bool
is_concurrency_error (concurrency_error _ _) = true
is_concurrency_error (fencing_error _ _) = true
is_concurrency_error _ = false

abbrev pub Query : Type 0 → Type 0
Query A = Exec StorageFault Database A

pub record Session : Type 0 where
  pub uuid_factory : ℕ → Uuid
  pub clock_timestamp : ℕ → Instant
  pub others : ℕ → Database → Database
  pub commit_fault : ℕ → Database → Option StorageFault

-- The end of a transaction that began at `s`.
abbrev pub commit :
    {A : Type 0} → Option StorageFault → Database → A → Database → Result StorageFault A × Database
commit none s a s' = (ok a, s')
commit (some e) s a s' = (err e, s)

-- What a transaction that began at `s` leaves.
abbrev pub finish :
    {A : Type 0}
    → Session
    → ℕ
    → Database
    → Result StorageFault A × Database
    → Result StorageFault A × Database
finish session i s (err e, s') = (err e, s)
finish session i s (ok a, s') = commit (session.commit_fault i s') s a s'

-- `async with _tenant_transaction(...)`: the i-th transaction of a call.
unfoldable pub transaction : {A : Type 0} → Session → ℕ → Query A → Query A
transaction session i m s = let s₀ = session.others i s in finish session i s₀ (m s₀)

-- `UPDATE ... WHERE <key> AND <test>`, and `fault` where no row was updated.
module _ {V : Type 0} where
  abbrev pub update_row :
      (Database → Dict (ℕ × ℕ) V)
      → (Dict (ℕ × ℕ) V → Database → Database)
      → ℕ × ℕ
      → (V → Bool)
      → (V → V)
      → StorageFault
      → Query (Unit {0})
  update_row table put key test change fault s = elim (lookup key (table s)) [
    | none ↦ (err fault, s)
    | some row ↦
        if test row then (ok tt, put (insert key (change row) (table s)) s) else (err fault, s)
  ]

unfoldable pub update_item :
    ℕ × ℕ → (WorkItem → Bool) → (WorkItem → WorkItem) → StorageFault → Query (Unit {0})
update_item = update_row (λ s. s.work_items) (λ d s. record s { work_items = d })

unfoldable pub update_lease :
    ℕ × ℕ → (LeaseRow → Bool) → (LeaseRow → LeaseRow) → StorageFault → Query (Unit {0})
update_lease = update_row (λ s. s.work_leases) (λ d s. record s { work_leases = d })

unfoldable pub update_outbox :
    ℕ × ℕ → (OutboxRow → Bool) → (OutboxRow → OutboxRow) → StorageFault → Query (Unit {0})
update_outbox = update_row (λ s. s.outbox_messages) (λ d s. record s { outbox_messages = d })
