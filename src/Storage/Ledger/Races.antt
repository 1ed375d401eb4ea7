-- ===== src/Storage/Ledger/Races.antt =====
-- event_store/postgres.py: what a session that comes second meets, and what a fence lets through.
use aegis_agent_platform.Prelude.{
  ℕ, ◌+◌, ◌<◌, ◌≡◌, not_some, refl, sym, ap, ◌∙◌, Bool, true, false, Option, none, some, List, ◌∷◌,
  ok, err, ◌>>◌, pure, modify, length, lookup, lookup-insert_self, pair_eq, inl, inr, Option-cases,
  arith,
}
use aegis_agent_platform.Domain.Events.{Name, Uuid, Instant, EventEnvelope}
use aegis_agent_platform.Storage.{
  Database, Session, Query, concurrency_error, OutboxMessage, LeaseRow, triple_eq, transaction,
}
use aegis_agent_platform.Storage.Runs.{bind-Ran, transaction-ran}
use aegis_agent_platform.Storage.Ledger.Checks.{validate_append-still, validate_fence-still}
use aegis_agent_platform.Storage.Ledger.Writes.{append-Wrote}
use aegis_agent_platform.Storage.Ledger.{
  append_in_transaction, append_then, head_of, receive, receive_after, put_inbox, check_fence,
  is_current, append_fenced, validate_append, validate_fence,
}

-- The head of a stream after an append to it.
append-head :
    (e : EventEnvelope) (es : List EventEnvelope) (expected : ℕ) (ms : List OutboxMessage)
    (s s' : Database) (n : ℕ)
    → append_in_transaction (e ∷ es) expected ms s ≡ (ok n, s')
    → head_of e.tenant_id e.aggregate_id s' ≡ n
append-head e es expected ms s s' n h =
    let wrote = append-Wrote e es expected ms s s' n h in
    ground (
      arith,
      wrote.version,
      wrote.rest.heads,
      lookup-insert_self (e.tenant_id, e.aggregate_id) (expected + length (e ∷ es))
          s.event_stream_heads,
    )

-- Of two appends to one stream that expect the same version, the one that comes second raises a
-- ConcurrencyError with the version that the first one returned, and writes nothing.
pub append_in_transaction-once :
    (e e' : EventEnvelope) (es es' : List EventEnvelope) (expected : ℕ)
    (ms ms' : List OutboxMessage) (s s' : Database) (n : ℕ)
    → append_in_transaction (e ∷ es) expected ms s ≡ (ok n, s')
    → e'.tenant_id ≡ e.tenant_id
    → e'.aggregate_id ≡ e.aggregate_id
    → append_in_transaction (e' ∷ es') expected ms' s' ≡ (err (concurrency_error expected n), s')
unfolding append_in_transaction
append_in_transaction-once e e' es es' expected ms ms' s s' n h t w =
    let head = append-head e es expected ms s s' n h in
    let grows = (append-Wrote e es expected ms s s' n h).version in
    rw (t, w, head) (ground (arith, grows))

check_fence-is_current :
    (session : Session) (i : ℕ) (context : Name) (work token : Uuid) (generation : ℕ)
    (now : Instant) (s : Database) {s' : Database}
    → check_fence session i context work token generation now s ≡ (ok tt, s')
    → (row : LeaseRow) × (lookup (context, work) s.work_leases ≡ some row)
      × (is_current session i context token generation now row ≡ true)
unfolding check_fence
check_fence-is_current session i context work token generation now s h =
    elim (Option-cases (lookup (context, work) s.work_leases)) [
      | inl missing ↦ absurd (ground (arith, h, missing))
      | inr (row, found) ↦ (row, found, ground (arith, h, found))
    ]

-- What a fenced append that returns found: the lease of the work in the database that its
-- transaction saw has the token and the generation of the call, is not released, and expires after
-- the reading of the clock.
pub append_fenced-is_current :
    (session : Session) (i : ℕ) (context : Name) (es : List EventEnvelope) (expected : ℕ)
    (work token : Uuid) (generation : ℕ) (ms : List OutboxMessage) (m : Query (Unit {0}))
    (s s' : Database) (n : ℕ)
    → append_fenced session i context es expected work token generation ms m s ≡ (ok n, s')
    → (row : LeaseRow) × (lookup (context, work) (session.others i s).work_leases ≡ some row)
      × (row.lease_token ≡ token)
      × (row.generation ≡ generation)
      × (row.released_at ≡ none)
      × (session.clock_timestamp 0 < row.expires_at)
unfolding append_fenced
append_fenced-is_current session i context es expected work token generation ms m s s' n h =
    let body =
      check_fence session i context work token generation (session.clock_timestamp 0)
      >> append_then es expected ms m in
    let first =
      bind-Ran (validate_append context es)
        (λ _.
          validate_fence session i context es work token generation >> transaction session i body)
        s h in
    let second =
      bind-Ran (validate_fence session i context es work token generation)
        (λ _. transaction session i body) first.middle first.second in
    let e₁ : first.middle ≡ s =
      sym (ap (λ x. x.1) first.first) ∙ validate_append-still context es s in
    let e₂ : second.middle ≡ first.middle =
      sym (ap (λ x. x.1) second.first)
      ∙ validate_fence-still session i context es work token generation first.middle in
    let ran = transaction-ran session i body s (rw (e₂ ∙ e₁) at second.second) in
    let fence =
      bind-Ran (check_fence session i context work token generation (session.clock_timestamp 0))
        (λ _. append_then es expected ms m) (session.others i s) ran in
    let (row, found, now) =
      check_fence-is_current session i context work token generation (session.clock_timestamp 0)
        (session.others i s) fence.first in
    (
      row,
      found,
      ground (arith, now),
      ground (arith, now),
      not_some row.released_at (ground (arith, now)),
      ground (arith, now),
    )

-- The inbox row after a message was received.
receive-row :
    (session : Session) (i : ℕ) (context : Name) (row : Option (Option ℕ)) (key : (ℕ × ℕ) × ℕ)
    (es : List EventEnvelope) (expected : ℕ) (ms : List OutboxMessage) (m : Query (Unit {0}))
    (s s' : Database) (n : ℕ) (seen : Bool)
    → ((d : Database) → (m d).1.inbox_messages ≡ d.inbox_messages)
    → lookup key s.inbox_messages ≡ row
    → receive_after session i context row key es expected ms m s ≡ (ok (n, seen), s')
    → lookup key s'.inbox_messages ≡ some (some n)
receive-row session i context (some none) key es expected ms m s s' n seen quiet found h =
    absurd (ground (arith, h))
receive-row session i context (some (some v)) key es expected ms m s s' n seen quiet found h =
    ground (arith, h, found)
receive-row session i context none key es expected ms m s s' n seen quiet found h =
    let s₀ = put_inbox session i context key none s in
    let rest : ℕ → Query (ℕ × Bool) = λ version.
      modify (put_inbox session i context key (some version)) >> (m >> pure (version, false)) in
    let first = bind-Ran (append_in_transaction es expected ms) rest s₀ h in
    let s₁ = put_inbox session i context key (some first.value) first.middle in
    let second = bind-Ran m (λ _. pure (first.value, false)) s₁ first.second in
    let version : first.value ≡ n = ground (arith, second.second) in
    let last : second.middle ≡ s' = ap (λ x. x.1) second.second in
    let kept : second.middle.inbox_messages ≡ s₁.inbox_messages =
      rw (← ap (λ x. x.1) second.first) (quiet s₁) in
    rw (← last, kept, ← version)
      (lookup-insert_self key (some first.value) first.middle.inbox_messages)

-- A message that was received is received once: a second delivery of it writes nothing and returns
-- the version of the first, whatever it would append. The mutation of the first leaves the inbox
-- alone.
pub receive-once :
    (session : Session) (i : ℕ) (context : Name) (key : (ℕ × ℕ) × ℕ) (es es' : List EventEnvelope)
    (expected expected' : ℕ) (ms ms' : List OutboxMessage) (m m' : Query (Unit {0}))
    (s s' : Database) (n : ℕ) (seen : Bool)
    → ((d : Database) → (m d).1.inbox_messages ≡ d.inbox_messages)
    → receive session i context key es expected ms m s ≡ (ok (n, seen), s')
    → receive session i context key es' expected' ms' m' s' ≡ (ok (n, true), s')
receive-once session i context key es es' expected expected' ms ms' m m' s s' n seen quiet h =
    rw
      (receive-row session i context (lookup key s.inbox_messages) key es expected ms m s s' n seen
        quiet refl h)
      refl
