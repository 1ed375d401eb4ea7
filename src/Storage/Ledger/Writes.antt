-- ===== src/Storage/Ledger/Writes.antt =====
-- event_store/postgres.py: what an append that returns has written.
use aegis_agent_platform.Prelude.{
  ℕ, ◌+◌, ◌≡◌, refl, ap, not, ◌==◌, List, [], ◌∷◌, ok, pure, length, is_some, lookup, insert,
  pair_eq, inl, inr, Bool-cases, arith,
}
use aegis_agent_platform.Domain.Events.{Name, EventEnvelope}
use aegis_agent_platform.Storage.{Database, OutboxMessage}
use aegis_agent_platform.Storage.Runs.{bind-Ran}
use aegis_agent_platform.Storage.Ledger.{
  append_in_transaction, head_of, write_events, put_messages, new_row,
}

-- The outbox is all that its insertions change.
pub record SameLedger (s s' : Database) : Type 0 where
  pub events : s'.events ≡ s.events
  pub heads : s'.event_stream_heads ≡ s.event_stream_heads
  pub items : s'.work_items ≡ s.work_items

put_messages-SameLedger :
    (tenant : Name) (ms : List OutboxMessage) (s s' : Database)
    → put_messages tenant ms s ≡ (ok tt, s')
    → SameLedger s s'
put_messages-SameLedger tenant [] s s' h =
    let e : s ≡ s' = ap (λ x. x.1) h in
    rw (← e) (record { events = refl; heads = refl; items = refl })
put_messages-SameLedger tenant (m ∷ ms) s s' h =
    elim (Bool-cases (is_some (lookup (tenant, m.message_id) s.outbox_messages))) [
      | inl taken ↦ absurd (ground (arith, h, taken))
      | inr free ↦
          let rest =
            put_messages-SameLedger tenant ms
              (record s {
                outbox_messages = insert (tenant, m.message_id) (new_row m) s.outbox_messages;
              })
              s' (rw free at h) in
          record { events = rest.events; heads = rest.heads; items = rest.items }
    ]

-- The version that an append returns, and the tables after it.
pub record Wrote (e : EventEnvelope) (es : List EventEnvelope) (expected n : ℕ) (s s' : Database)
    : Type 0 where
  pub version : n ≡ expected + length (e ∷ es)
  pub rest : SameLedger (write_events e (e ∷ es) expected s) s'

pub append-Wrote :
    (e : EventEnvelope) (es : List EventEnvelope) (expected : ℕ) (ms : List OutboxMessage)
    (s s' : Database) (n : ℕ)
    → append_in_transaction (e ∷ es) expected ms s ≡ (ok n, s')
    → Wrote e es expected n s s'
unfolding append_in_transaction
append-Wrote e es expected ms s s' n h =
    elim (Bool-cases (not (head_of e.tenant_id e.aggregate_id s == expected))) [
      | inl moved ↦ absurd (ground (arith, h, moved))
      | inr same ↦
          let ran =
            bind-Ran (put_messages e.tenant_id ms) (λ _. pure (expected + length (e ∷ es)))
              (write_events e (e ∷ es) expected s) (rw same at h) in
          let last : ran.middle ≡ s' = ap (λ x. x.1) ran.second in
          record {
            version = ground (arith, ran.second);
            rest = rw (← last) (
                put_messages-SameLedger e.tenant_id ms (write_events e (e ∷ es) expected s)
                  ran.middle ran.first);
          }
    ]
