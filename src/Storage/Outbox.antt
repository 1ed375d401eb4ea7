-- ===== src/Storage/Outbox.antt =====
-- event_store/postgres.py: the outbox of `PostgresEventStore`, which publishers lease and settle.
-- The readings of the clock in one statement are one instant.
pub mod Settled
use Prim.Native.String.{String}
use Prim.Native.String.{count}
use aegis_agent_platform.Prelude.{
  ℕ, zero, suc, ◌+◌, ◌-◌, Bool, true, false, not, ◌&&◌, ◌||◌, ◌==◌, leb, ltb, if◌then◌else◌, Option,
  none, some, List, [], ◌∷◌, Result, ok, err, ◌>>=◌, ◌>>◌, pure, gets, modify, raise_if, is_some,
  pair_eq, Dict, sorted, any_by, limit_to,
}
use aegis_agent_platform.Domain.Events.{Name, Uuid, Instant}
use aegis_agent_platform.Storage.{
  Database, Session, Query, StorageFault, value_error, concurrency_error, OutboxStatus, pending,
  leased, published, dead_letter, OutboxMessage, OutboxRow, transaction, update_outbox,
}

pub record ClaimedOutboxMessage : Type 0 where
  pub message : OutboxMessage
  pub attempt_count : ℕ
  pub lease_owner : Name
  pub lease_expires_at : Instant

abbrev pub is_leased_row : OutboxRow → Bool
is_leased_row row = elim row.status [ leased ↦ true | _ ↦ false ]

abbrev pub is_unsettled : OutboxStatus → Bool
is_unsettled pending = true
is_unsettled leased = true
is_unsettled _ = false

-- `lease_expires_at IS NULL OR lease_expires_at <= clock_timestamp()`
abbrev pub is_free : Instant → Option Instant → Bool
is_free now none = true
is_free now (some t) = leb t now

-- `destination = %s`, if one is given
abbrev pub is_for : Option Name → OutboxRow → Bool
is_for none row = true
is_for (some destination) row = row.message.destination == destination

-- The WHERE clause of `candidates`.
unfoldable pub is_candidate : Name → Option Name → Instant → ℕ × ℕ → OutboxRow → Bool
is_candidate tenant destination now key row =
    key.0 == tenant
    && is_for destination row
    && is_unsettled row.status
    && (ltb row.attempt_count row.message.max_attempts
        || (is_leased_row row && not (is_some row.last_error_code)))
    && leb row.message.available_at now
    && is_free now row.lease_expires_at

-- A candidate, by its key and the time of its order.
pub record Candidate : Type 0 where
  pub message_id : Uuid
  pub available_at : Instant

abbrev pub candidate_le : Candidate → Candidate → Bool
candidate_le a b =
    ltb a.available_at b.available_at
    || (a.available_at == b.available_at && leb a.message_id b.message_id)

abbrev pub candidates : Name → Option Name → Instant → Dict (ℕ × ℕ) OutboxRow → List Candidate
candidates tenant destination now [] = []
candidates tenant destination now ((key, row) ∷ rows) =
    let rest = candidates tenant destination now rows in
    if is_candidate tenant destination now key row
    then (record { message_id = key.1; available_at = row.message.available_at }) ∷ rest
    else rest

abbrev pub lease_row : Name → Instant → OutboxRow → OutboxRow
lease_row owner expires_at row = record row {
  status = leased;
  attempt_count = suc row.attempt_count;
  lease_owner = some owner;
  lease_expires_at = some expires_at;
  last_error_code = none;
}

abbrev pub is_picked : Name → List Candidate → ℕ × ℕ → Bool
is_picked tenant picked key = key.0 == tenant && any_by (λ c. c.message_id == key.1) picked

-- The UPDATE, and its RETURNING.
abbrev pub lease_rows :
    Name → List Candidate → Name → Instant → Dict (ℕ × ℕ) OutboxRow → Dict (ℕ × ℕ) OutboxRow
lease_rows tenant picked owner expires_at [] = []
lease_rows tenant picked owner expires_at ((key, row) ∷ rows) =
    (key, if is_picked tenant picked key then lease_row owner expires_at row else row)
    ∷ lease_rows tenant picked owner expires_at rows

abbrev pub claimed_rows :
    Name → List Candidate → Name → Instant → Dict (ℕ × ℕ) OutboxRow → List ClaimedOutboxMessage
claimed_rows tenant picked owner expires_at [] = []
claimed_rows tenant picked owner expires_at ((key, row) ∷ rows) =
    let rest = claimed_rows tenant picked owner expires_at rows in
    if is_picked tenant picked key
    then (record {
      message = row.message;
      attempt_count = suc row.attempt_count;
      lease_owner = owner;
      lease_expires_at = expires_at;
    })
      ∷ rest
    else rest

abbrev pub picked_of : Name → Option Name → Instant → ℕ → Database → List Candidate
picked_of tenant destination now limit s =
    limit_to limit (sorted candidate_le (candidates tenant destination now s.outbox_messages))

-- The row that a publisher's lease names: `lease_expires_at` is its fencing token.
abbrev pub same_instant : Option ℕ → ℕ → Bool
same_instant none t = false
same_instant (some u) t = u == t

unfoldable pub holds_outbox : Name → Instant → OutboxRow → Bool
holds_outbox owner expires_at row =
    is_leased_row row
    && same_instant row.lease_owner owner
    && same_instant row.lease_expires_at expires_at

abbrev pub freed : OutboxRow → OutboxRow
freed row = record row { lease_owner = none; lease_expires_at = none }

abbrev pub publish_row : Instant → OutboxRow → OutboxRow
publish_row at row = record (freed row) { status = published; published_at = some at }

abbrev pub fail_row : Instant → String → OutboxRow → OutboxRow
fail_row retry_at code row = record (freed row) {
  status = if leb row.message.max_attempts row.attempt_count then dead_letter else pending;
  message = record row.message { available_at = retry_at };
  last_error_code = some code;
}

abbrev pub bury_row : String → OutboxRow → OutboxRow
bury_row code row = record (freed row) { status = dead_letter; last_error_code = some code }

module _ (session : Session) (context : Name) where
  abbrev pub claim_rows : Option Name → Name → ℕ → ℕ → Query (List ClaimedOutboxMessage)
  claim_rows destination owner duration limit s =
      let now = session.clock_timestamp 0 in
      let picked = picked_of context destination now limit s in
      (
        ok (claimed_rows context picked owner (now + duration) s.outbox_messages),
        record s {
          outbox_messages = lease_rows context picked owner (now + duration) s.outbox_messages;
        },
      )

  unfoldable pub claim_outbox :
      Name → Instant → Instant → ℕ → Option Name → Query (List ClaimedOutboxMessage)
  claim_outbox owner expires_at now limit destination = do
    raise_if
        (owner == 0 || not (leb 1000000 (expires_at - now) && leb (expires_at - now) 3600000000))
        (value_error "valid lease owner and future expiry are required")
    raise_if (not (leb 1 limit && leb limit 100))
        (value_error "outbox claim limit must be between 1 and 100")
    transaction session 0 (claim_rows destination owner (expires_at - now) limit)

  -- `_update_outbox_state`
  abbrev pub update_outbox_state :
      Uuid → Name → Instant → (OutboxRow → OutboxRow) → Query (Unit {0})
  update_outbox_state message_id owner expires_at change = transaction session 0 (
      update_outbox (context, message_id) (holds_outbox owner expires_at) change
        (concurrency_error 1 0))

  unfoldable pub mark_outbox_published : Uuid → Name → Instant → Instant → Query (Unit {0})
  mark_outbox_published message_id owner expires_at published_at =
      update_outbox_state message_id owner expires_at (publish_row published_at)

  abbrev pub check_code : String → Query (Unit {0})
  check_code code =
      raise_if (count code == 0 || ltb 128 (count code))
        (value_error "bounded error_code is required")

  unfoldable pub mark_outbox_failed : Uuid → Name → Instant → Instant → String → Query (Unit {0})
  mark_outbox_failed message_id owner expires_at retry_at error_code = do
    check_code error_code
    update_outbox_state message_id owner expires_at (fail_row retry_at error_code)

  unfoldable pub mark_outbox_dead_lettered : Uuid → Name → Instant → String → Query (Unit {0})
  mark_outbox_dead_lettered message_id owner expires_at error_code = do
    check_code error_code
    update_outbox_state message_id owner expires_at (bury_row error_code)
