-- ===== src/Runtime/Work/Reconcile.antt =====
-- runtime/postgres.py: `reconcile_expired`, which delivers queued work again and ends expired leases.
use aegis_agent_platform.Prelude.{
  ℕ, ◌+◌, Bool, true, false, not, ◌&&◌, ◌||◌, ◌==◌, leb, ltb, if◌then◌else◌, Option, none, some,
  List, [], ◌∷◌, ◌++◌, raise, modify, is_some, lookup, insert, pair_eq, Dict, sorted, any_by,
  limit_to,
}
use aegis_agent_platform.Domain.Events.{Name, Uuid, Instant}
use aegis_agent_platform.Domain.Work.{WorkLease}
use aegis_agent_platform.Storage.{
  Database, Query, concurrency_error, OutboxRow, pending, published, WorkItem, LeaseRow,
}
use aegis_agent_platform.Runtime.Work.{names_work}
use aegis_agent_platform.Runtime.Work.Settle.{is_queued}

abbrev pub is_published : OutboxRow → Bool
is_published row = elim row.status [ published ↦ true | _ ↦ false ]

-- A published message of a piece of work, by its publication and its identifier.
pub record Published : Type 0 where
  pub message_id : Uuid
  pub published_at : Option Instant

-- The order of `published_at, message_id`; NULL is last.
abbrev pub published_le : Published → Published → Bool
published_le a b = elim a.published_at [
  | none ↦ elim b.published_at [ none ↦ leb a.message_id b.message_id | some _ ↦ false ]
  | some p ↦ elim b.published_at [
    | none ↦ true
    | some q ↦ ltb p q || (p == q && leb a.message_id b.message_id)
  ]
]

abbrev pub published_of : Name → Uuid → Dict (ℕ × ℕ) OutboxRow → List Published
published_of tenant work [] = []
published_of tenant work ((key, row) ∷ rows) =
    let rest = published_of tenant work rows in
    if key.0 == tenant && names_work work row.message && is_published row
    then (record { message_id = key.1; published_at = row.published_at }) ∷ rest
    else rest

abbrev pub last_of : List Published → Option Published
last_of [] = none
last_of (x ∷ xs) = elim xs [ [] ↦ some x | y ∷ ys ↦ last_of xs ]

-- The subquery `latest`.
abbrev pub latest : Name → Uuid → Database → Option Published
latest tenant work s = last_of (sorted published_le (published_of tenant work s.outbox_messages))

abbrev pub is_unreleased : Option LeaseRow → Bool
is_unreleased none = false
is_unreleased (some row) = not (is_some row.released_at)

-- `published_at <= clock_timestamp() - interval '5 minutes'`
abbrev pub is_stale : Instant → Option Instant → Bool
is_stale now none = false
is_stale now (some p) = leb (p + 300000000) now

pub record Redrive : Type 0 where
  pub work_id : Uuid
  pub message : Published

-- The rows of the first SELECT.
abbrev pub redrive_of :
    Name → Uuid → WorkItem → Instant → Database → Option Published → List Redrive
redrive_of tenant work row now s none = []
redrive_of tenant work row now s (some m) =
    if is_queued row.status
      && not (is_unreleased (lookup (tenant, work) s.work_leases))
      && is_stale now m.published_at
    then (record { work_id = work; message = m }) ∷ []
    else []

abbrev pub redrives : Name → Instant → Database → Dict (ℕ × ℕ) WorkItem → List Redrive
redrives tenant now s [] = []
redrives tenant now s ((key, row) ∷ rows) =
    let rest = redrives tenant now s rows in
    if key.0 == tenant
    then redrive_of tenant key.1 row now s (latest tenant key.1 s) ++ rest
    else rest

abbrev pub redrive_rows : Name → Instant → ℕ → Database → List Redrive
redrive_rows tenant now limit s =
    limit_to limit
      (sorted (λ a b. published_le a.message b.message) (redrives tenant now s s.work_items))

pub record Expired : Type 0 where
  pub lease : WorkLease
  pub cancel_requested_at : Option Instant
  pub max_attempts : ℕ

abbrev pub expired_of : Name → Uuid → LeaseRow → Option WorkItem → List Expired
expired_of tenant work row none = []
expired_of tenant work row (some item) =
    (record {
      lease = record {
        work_id = work;
        tenant_id = tenant;
        token = row.lease_token;
        generation = row.generation;
        owner = row.owner;
        attempt = item.attempt_count;
        acquired_at = row.acquired_at;
        heartbeat_at = row.heartbeat_at;
        expires_at = row.expires_at;
      };
      cancel_requested_at = item.cancel_requested_at;
      max_attempts = item.max_attempts;
    })
    ∷ []

-- The rows of the second SELECT.
abbrev pub expirations : Name → Instant → Database → Dict (ℕ × ℕ) LeaseRow → List Expired
expirations tenant now s [] = []
expirations tenant now s ((key, row) ∷ rows) =
    let rest = expirations tenant now s rows in
    if key.0 == tenant && not (is_some row.released_at) && leb row.expires_at now
    then expired_of tenant key.1 row (lookup key s.work_items) ++ rest
    else rest

abbrev pub expired_le : Expired → Expired → Bool
expired_le a b =
    ltb a.lease.expires_at b.lease.expires_at
    || (a.lease.expires_at == b.lease.expires_at && leb a.lease.work_id b.lease.work_id)

abbrev pub expired_rows : Name → Instant → ℕ → Database → List Expired
expired_rows tenant now limit s =
    limit_to limit (sorted expired_le (expirations tenant now s s.work_leases))

-- The UPDATE of `redrive_projection`, whose tests are those of the SELECT at the time of the write.
abbrev pub is_newer : Published → Published → Bool
is_newer a b = elim a.published_at [
  | none ↦ false
  | some p ↦ elim b.published_at [
    | none ↦ false
    | some q ↦ ltb q p || (p == q && ltb b.message_id a.message_id)
  ]
]

abbrev pub may_redrive : Name → Uuid → Uuid → Instant → OutboxRow → Database → Bool
may_redrive tenant message_id work now row s =
    is_published row
    && is_stale now row.published_at
    && not (
        any_by
          (λ m. is_newer m (record { message_id = message_id; published_at = row.published_at }))
          (published_of tenant work s.outbox_messages))
    && not (is_unreleased (lookup (tenant, work) s.work_leases))

abbrev pub redriven : Instant → OutboxRow → OutboxRow
redriven now row = record row {
  message = record row.message { available_at = now };
  status = pending;
  attempt_count = 0;
  lease_owner = none;
  lease_expires_at = none;
  published_at = none;
  last_error_code = none;
}

abbrev pub redrive_message : ℕ × ℕ → Uuid → Instant → OutboxRow → Query (Unit {0})
redrive_message key work now row s =
    if may_redrive key.0 key.1 work now row s
    then modify
        (λ d. record d { outbox_messages = insert key (redriven now row) d.outbox_messages }) s
    else raise (concurrency_error 1 0) s

unfoldable pub redrive_projection : ℕ × ℕ → Uuid → Instant → Query (Unit {0})
redrive_projection key work now s = elim (lookup (key.0, work) s.work_items) [
  | none ↦ raise (concurrency_error 1 0) s
  | some item ↦
      if is_queued item.status
      then elim (lookup key s.outbox_messages) [
        | none ↦ raise (concurrency_error 1 0) s
        | some row ↦ redrive_message key work now row s
      ]
      else raise (concurrency_error 1 0) s
]
