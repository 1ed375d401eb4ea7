-- ===== src/Storage/Ledger.antt =====
-- event_store/postgres.py: `PostgresEventStore`, its appends and its reads.
use Prim.Native.String.{String}
use aegis_agent_platform.Prelude.{
  ℕ, zero, suc, ◌+◌, max, Bool, true, false, not, ◌&&◌, ◌||◌, ◌==◌, ltb, leb, if◌then◌else◌, Option,
  none, some, List, [], ◌∷◌, ◌++◌, Result, ok, err, Exec, ◌>>=◌, ◌>>◌, pure, raise, gets, modify,
  raise_if, lift, lookup, insert, pair_eq, string_eq, any_by, filter_by, length, is_some, sorted,
  limit_to,
}
use aegis_agent_platform.Domain.Events.{Name, Uuid, Instant, JsonValue, Payload, EventEnvelope}
use aegis_agent_platform.Storage.{
  Database, Session, Query, StorageFault, value_error, permanent_error, concurrency_error,
  fencing_error, replay_corruption, OutboxMessage, OutboxRow, pending, LeaseRow, transaction,
  triple_eq,
}
pub mod Checks
pub mod Writes
pub mod Races

-- The tests of `_validate_append` on events after the first.
abbrev pub append_fault : Name → Uuid → List EventEnvelope → Option String
append_fault tenant aggregate events =
    if any_by (λ e. not (e.tenant_id == tenant)) events
    then some "event tenant does not match trusted tenant context"
    else if any_by (λ e. not (e.aggregate_id == aggregate)) events
    then some "an append batch must target one aggregate"
    else if any_by (λ e. not (e.aggregate_sequence == 0)) events
    then some "new events cannot preassign aggregate sequences"
    else if any_by (λ e. is_some e.global_position) events
    then some "new events cannot preassign global positions"
    else none

-- `_validate_append`; the context is its tenant.
unfoldable pub validate_append : Name → List EventEnvelope → Query (Unit {0})
validate_append context [] = raise (value_error "at least one event is required")
validate_append context (first ∷ rest) =
    elim (append_fault context first.aggregate_id (first ∷ rest)) [
      | none ↦ pure tt
      | some text ↦ raise (value_error text)
    ]

-- `current_version` of a stream, 0 without a head.
abbrev pub head_of : Name → Uuid → Database → ℕ
head_of tenant aggregate s = elim (lookup (tenant, aggregate) s.event_stream_heads) [
  | none ↦ 0
  | some version ↦ version
]

-- The rows that are inserted into `events` from a version on. The identity column counts the rows.
abbrev pub numbered : ℕ → ℕ → List EventEnvelope → List EventEnvelope
numbered version position [] = []
numbered version position (e ∷ es) =
    record e { aggregate_sequence = suc version; global_position = some (suc position) }
    ∷ numbered (suc version) (suc position) es

abbrev pub new_row : OutboxMessage → OutboxRow
new_row message = record {
  message = message;
  status = pending;
  attempt_count = 0;
  lease_owner = none;
  lease_expires_at = none;
  published_at = none;
  last_error_code = none;
}

-- The insertions into the outbox; a primary key that is taken is an error of the database.
abbrev pub put_messages : Name → List OutboxMessage → Query (Unit {0})
put_messages tenant [] s = (ok tt, s)
put_messages tenant (m ∷ ms) s =
    let rest = put_messages tenant ms (record s {
      outbox_messages = insert (tenant, m.message_id) (new_row m) s.outbox_messages;
    }) in
    if is_some (lookup (tenant, m.message_id) s.outbox_messages)
    then (err (permanent_error "permanent PostgreSQL storage failure"), s)
    else rest

-- The events and the head that `_append_in_transaction` writes.
abbrev pub write_events : EventEnvelope → List EventEnvelope → ℕ → Database → Database
write_events first events version s = record s {
  events = s.events ++ numbered version (length s.events) events;
  event_stream_heads =
      insert (first.tenant_id, first.aggregate_id) (version + length events) s.event_stream_heads;
}

-- `_append_in_transaction`; the row locks make a transaction one step.
unfoldable pub append_in_transaction : List EventEnvelope → ℕ → List OutboxMessage → Query ℕ
append_in_transaction [] expected outbox = raise (permanent_error "no events")
append_in_transaction (first ∷ rest) expected outbox = do
  actual ← gets (head_of first.tenant_id first.aggregate_id)
  raise_if (not (actual == expected)) (concurrency_error expected actual)
  modify (write_events first (first ∷ rest) expected)
  put_messages first.tenant_id outbox
  pure (expected + length (first ∷ rest))

-- The transaction of `append_atomic`.
abbrev pub append_then : List EventEnvelope → ℕ → List OutboxMessage → Query (Unit {0}) → Query ℕ
append_then events expected outbox mutation = do
  version ← append_in_transaction events expected outbox
  mutation
  pure version

module _ (session : Session) (i : ℕ) (context : Name) where
  unfoldable pub append_atomic :
      List EventEnvelope → ℕ → Query (Unit {0}) → List OutboxMessage → Query ℕ
  append_atomic events expected mutation outbox = do
    validate_append context events
    transaction session i (append_then events expected outbox mutation)

  -- `append`, which has no mutation
  unfoldable pub append : List EventEnvelope → ℕ → List OutboxMessage → Query ℕ
  append events expected outbox = do
    validate_append context events
    transaction session i (append_in_transaction events expected outbox)

  -- The inbox row of a message that was seen already.
  abbrev pub read_duplicate : Option ℕ → Query (ℕ × Bool)
  read_duplicate none = raise (permanent_error "duplicate inbox record has no committed result")
  read_duplicate (some version) = pure (version, true)

  abbrev pub put_inbox : (ℕ × ℕ) × ℕ → Option ℕ → Database → Database
  put_inbox key version s = record s { inbox_messages = insert key version s.inbox_messages }

  -- The writes for a message that was not seen.
  abbrev pub receive_new :
      (ℕ × ℕ) × ℕ
      → List EventEnvelope
      → ℕ
      → List OutboxMessage
      → Query (Unit {0})
      → Query (ℕ × Bool)
  receive_new key events expected outbox mutation = do
    modify (put_inbox key none)
    version ← append_in_transaction events expected outbox
    modify (put_inbox key (some version))
    mutation
    pure (version, false)

  abbrev pub receive_after :
      Option (Option ℕ)
      → (ℕ × ℕ) × ℕ
      → List EventEnvelope
      → ℕ
      → List OutboxMessage
      → Query (Unit {0})
      → Query (ℕ × Bool)
  receive_after (some row) key events expected outbox mutation = read_duplicate row
  receive_after none key events expected outbox mutation =
      receive_new key events expected outbox mutation

  -- The transaction of `append_from_inbox`; the result is the version and `duplicate`.
  abbrev pub receive :
      (ℕ × ℕ) × ℕ
      → List EventEnvelope
      → ℕ
      → List OutboxMessage
      → Query (Unit {0})
      → Query (ℕ × Bool)
  receive key events expected outbox mutation = do
    row ← gets (λ s. lookup key s.inbox_messages)
    receive_after row key events expected outbox mutation

  unfoldable pub append_from_inbox :
      Name
      → Name
      → List EventEnvelope
      → ℕ
      → List OutboxMessage
      → Query (Unit {0})
      → Query (ℕ × Bool)
  append_from_inbox source message_id events expected outbox mutation = do
    raise_if (source == 0 || message_id == 0)
        (value_error "inbox source and message_id are required")
    validate_append context events
    transaction session i (receive ((context, source), message_id) events expected outbox mutation)

  -- `payload.get("lease_token") == str(token)` and the same for the generation
  abbrev pub is_uuid : Option JsonValue → Uuid → Bool
  is_uuid (some (JsonValue.uuid u)) v = u == v
  is_uuid _ v = false

  abbrev pub is_int : Option JsonValue → ℕ → Bool
  is_int (some (JsonValue.int n)) m = n == m
  is_int _ m = false

  abbrev pub carries_lease : Uuid → ℕ → EventEnvelope → Bool
  carries_lease token generation e =
      is_uuid (lookup "lease_token" e.payload) token
      && is_int (lookup "lease_generation" e.payload) generation

  -- The row that the fence's SELECT returns.
  abbrev pub is_current : Uuid → ℕ → Instant → LeaseRow → Bool
  is_current token generation now row =
      row.lease_token == token
      && row.generation == generation
      && not (is_some row.released_at)
      && ltb now row.expires_at

  unfoldable pub check_fence : Uuid → Uuid → ℕ → Instant → Query (Unit {0})
  check_fence work token generation now s = elim (lookup (context, work) s.work_leases) [
    | none ↦ raise (fencing_error generation 0) s
    | some row ↦
        if is_current token generation now row
        then pure tt s
        else raise (fencing_error generation 0) s
  ]

  -- The tests of `append_fenced` on its arguments.
  abbrev pub validate_fence : List EventEnvelope → Uuid → Uuid → ℕ → Query (Unit {0})
  validate_fence events work token generation = do
    raise_if (ltb generation 1) (value_error "valid fence generation and timestamp are required")
    raise_if (any_by (λ e. not (e.aggregate_id == work)) events)
        (value_error "fenced events must belong to the leased work")
    raise_if (any_by (λ e. not (carries_lease token generation e)) events)
        (value_error "fenced event payload does not match lease")

  unfoldable pub append_fenced :
      List EventEnvelope → ℕ → Uuid → Uuid → ℕ → List OutboxMessage → Query (Unit {0}) → Query ℕ
  append_fenced events expected work token generation outbox mutation = do
    validate_append context events
    validate_fence events work token generation
    transaction session i (do
      check_fence work token generation (session.clock_timestamp 0)
      append_then events expected outbox mutation)

  -- `current_version`, and `_current_version` of the work repository
  unfoldable pub current_version : Uuid → Query ℕ
  current_version aggregate = transaction session i (gets (head_of context aggregate))

  -- `_validate_page_arguments`
  abbrev pub validate_page : ℕ → Query (Unit {0})
  validate_page limit =
      raise_if (not (leb 1 limit && leb limit 1000))
        (value_error "page limit must be between 1 and 1000")

  abbrev pub stream_rows : Uuid → ℕ → ℕ → List EventEnvelope → List EventEnvelope
  stream_rows aggregate after limit es = limit_to limit (
      sorted (λ e f. leb e.aggregate_sequence f.aggregate_sequence)
        (filter_by
          (λ e.
            e.tenant_id == context && e.aggregate_id == aggregate && ltb after e.aggregate_sequence)
          es))

  -- The check of each row that `read_stream` yields.
  abbrev pub check_stream : ℕ → List EventEnvelope → Result StorageFault (List EventEnvelope)
  check_stream expected [] = ok []
  check_stream expected (e ∷ es) =
      let rest = check_stream (suc expected) es in
      if e.aggregate_sequence == suc expected
      then elim rest [ ok xs ↦ ok (e ∷ xs) | err x ↦ err x ]
      else err (replay_corruption (suc expected) e.aggregate_sequence)

  -- `read_stream`, read to its end
  unfoldable pub read_stream : Uuid → ℕ → ℕ → Query (List EventEnvelope)
  read_stream aggregate after limit = do
    validate_page limit
    rows ← transaction session i (gets (λ s. stream_rows aggregate after limit s.events))
    lift (check_stream after rows)
