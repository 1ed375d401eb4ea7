-- ===== src/Storage/Tests.antt =====
-- The theorems on the ledger's tables, on one stream and one message of one tenant.
use aegis_agent_platform.Prelude.{
  ◌+◌, ◌<◌, ◌≡◌, refl, true, false, none, some, List, [], ◌∷◌, ok, err, pure, lookup, pair_eq,
  arith, All,
}
use aegis_agent_platform.Domain.Events.{JsonValue, EventEnvelope, work_started}
use aegis_agent_platform.Storage.{
  Database, Session, concurrency_error, OutboxMessage, OutboxRow, LeaseRow, leased, transaction,
  update_outbox, triple_eq,
}
use aegis_agent_platform.Storage.Ledger.{
  append_in_transaction, append_fenced, check_fence, validate_append, receive,
}
use aegis_agent_platform.Storage.Ledger.Races.{
  append_in_transaction-once, append_fenced-is_current, receive-once,
}
use aegis_agent_platform.Storage.Outbox.{
  is_candidate, is_picked, Candidate, lease_rows, picked_of, holds_outbox,
}
use aegis_agent_platform.Storage.Outbox.Settled.{
  lease_rows-exclusive, publishing, failing, settled_row, update_outbox-once,
}

abbrev alone : Session
alone = record {
  uuid_factory = λ k. 100 + k;
  clock_timestamp = λ k. 50 + k;
  others = λ i s. s;
  commit_fault = λ i s. none;
}

abbrev message : OutboxMessage
message = record {
  message_id = 2;
  destination = 1;
  payload = [];
  headers = [];
  available_at = 10;
  max_attempts = 3;
  event_id = none;
}

abbrev row : OutboxRow
row = record {
  message = message;
  status = leased;
  attempt_count = 1;
  lease_owner = some 6;
  lease_expires_at = some 40;
  published_at = none;
  last_error_code = none;
}

abbrev lease_row : LeaseRow
lease_row = record {
  lease_token = 11;
  generation = 2;
  owner = 6;
  acquired_at = 2;
  heartbeat_at = 2;
  expires_at = 90;
  released_at = none;
  release_reason = none;
}

abbrev database : Database
database = record {
  event_stream_heads = [];
  events = [];
  outbox_messages = ((7, 2), row) ∷ [];
  inbox_messages = [];
  work_items = [];
  work_leases = ((7, 9), lease_row) ∷ [];
  work_dead_letters = [];
  work_requeue_approvals = [];
}

abbrev event : EventEnvelope
event = record {
  event_id = 1;
  tenant_id = 7;
  aggregate_id = 9;
  event_type = work_started;
  schema_version = 1;
  occurred_at = 3;
  payload = ("lease_token", JsonValue.uuid 11) ∷ ("lease_generation", JsonValue.int 2) ∷ [];
  correlation_id = some 5;
  causation_id = none;
  aggregate_sequence = 0;
  global_position = none;
  idempotency_key = none;
  previous_aggregate_sequence = none;
}

abbrev appended : Database
appended = (append_in_transaction (event ∷ []) 0 [] database).1

appended_lem : append_in_transaction (event ∷ []) 0 [] database ≡ (ok 1, appended)
unfolding append_in_transaction
appended_lem = refl

append_in_transaction-once_example :
    append_in_transaction (event ∷ event ∷ []) 0 (message ∷ []) appended
    ≡ (err (concurrency_error 0 1), appended)
append_in_transaction-once_example =
    append_in_transaction-once event event [] (event ∷ []) 0 [] (message ∷ []) database appended 1
      appended_lem refl refl

abbrev fenced : Database
fenced = (append_fenced alone 0 7 (event ∷ []) 0 9 11 2 [] (pure tt) database).1

fenced_lem : append_fenced alone 0 7 (event ∷ []) 0 9 11 2 [] (pure tt) database ≡ (ok 1, fenced)
unfolding append_fenced validate_append check_fence transaction append_in_transaction
fenced_lem = refl

append_fenced-is_current_example :
    (r : LeaseRow) × (lookup (7, 9) database.work_leases ≡ some r)
    × (r.lease_token ≡ 11)
    × (r.generation ≡ 2)
    × (r.released_at ≡ none)
    × (50 < r.expires_at)
append_fenced-is_current_example =
    append_fenced-is_current alone 0 7 (event ∷ []) 0 9 11 2 [] (pure tt) database fenced 1
      fenced_lem

abbrev received : Database
received = (receive alone 0 7 ((7, 2), 3) (event ∷ []) 0 [] (pure tt) database).1

received_lem :
    receive alone 0 7 ((7, 2), 3) (event ∷ []) 0 [] (pure tt) database ≡ (ok (1, false), received)
unfolding append_in_transaction
received_lem = refl

receive-once_example :
    receive alone 0 7 ((7, 2), 3) (event ∷ event ∷ []) 1 [] (pure tt) received
    ≡ (ok (1, true), received)
receive-once_example =
    receive-once alone 0 7 ((7, 2), 3) (event ∷ []) (event ∷ event ∷ []) 0 1 [] [] (pure tt)
      (pure tt) database received 1 false (λ d. refl) received_lem

abbrev picked : List Candidate
picked = picked_of 7 none 60 5 database

lease_rows-exclusive_example :
    All
      (λ p. is_picked 7 picked p.0 ≡ true → is_candidate 7 none 80 p.0 p.1 ≡ false)
      (lease_rows 7 picked 8 90 database.outbox_messages)
lease_rows-exclusive_example =
    lease_rows-exclusive 7 7 none picked 8 90 80 database.outbox_messages (ground arith)

abbrev settled : Database
settled =
    (update_outbox (7, 2) (holds_outbox 6 40) (settled_row (publishing 30)) (concurrency_error 1 0)
      database).1

settled_lem :
    update_outbox
      (7, 2)
      (holds_outbox 6 40)
      (settled_row (publishing 30))
      (concurrency_error 1 0)
      database
    ≡ (ok tt, settled)
unfolding update_outbox holds_outbox
settled_lem = refl

update_outbox-once_example :
    update_outbox
      (7, 2)
      (holds_outbox 6 40)
      (settled_row (failing 35 "lost"))
      (concurrency_error 1 0)
      settled
    ≡ (err (concurrency_error 1 0), settled)
update_outbox-once_example =
    update_outbox-once (7, 2) 6 6 40 40 (publishing 30) (failing 35 "lost") database settled
      settled_lem
