-- ===== src/Runtime/Scheduler.antt =====
-- src/aegis_agent_platform/runtime/__init__.py: FairTenantScheduler, and the deliveries of
-- src/aegis_agent_platform/queueing/__init__.py that it orders.
use aegis_agent_platform.Prelude.{
  ℕ, Bool, true, false, ◌==◌, ltb, not, ◌||◌, if◌then◌else◌, Option, none, some, List, [], ◌∷◌,
  ◌++◌, Result, ok, err, Exec, nat_eq, Dict, lookup, insert, erase,
}
use aegis_agent_platform.Domain.Events.{Name, Uuid, Instant, Payload}
mod Keys
pub mod Order
pub mod Pop
pub mod Turns
mod Tests

pub record MessageEnvelope : Type 0 where
  pub message_id : Uuid
  pub tenant_id : Name
  pub work_id : Uuid
  pub event_id : Option Uuid
  pub destination : Name
  pub correlation_id : Uuid
  pub causation_id : Option Uuid
  pub occurred_at : Instant
  pub payload : Payload
  pub headers : Payload
  pub schema_version : ℕ

-- The tests of `__post_init__`; an instant has its time zone by type.
unfoldable pub envelope_is_valid : MessageEnvelope → Bool
envelope_is_valid m = not (m.tenant_id == 0 || m.destination == 0 || not (m.schema_version == 1))

pub record QueueDelivery : Type 0 where
  pub stream_entry_id : Name
  pub envelope : MessageEnvelope
  pub delivery_count : ℕ
  pub idle_milliseconds : ℕ

unfoldable pub delivery_is_valid : QueueDelivery → Bool
delivery_is_valid d = not (d.stream_entry_id == 0 || ltb d.delivery_count 1)

-- A deque is a list, its left end first.
pub record FairTenantScheduler : Type 0 where
  pub queues : Dict Name (List QueueDelivery)
  pub round_robin : List Name

abbrev pub empty_scheduler : FairTenantScheduler
empty_scheduler = record { queues = []; round_robin = [] }

-- What the dictionary's look-up and the deque's `popleft` raise.
pub data SchedulerFault : Type 0 where
  key_error index_error : SchedulerFault

abbrev pub tenant_of : QueueDelivery → Name
tenant_of d = d.envelope.tenant_id

-- The queue of a tenant, `[]` without one.
unfoldable pub pending : Name → FairTenantScheduler → List QueueDelivery
pending tenant s = elim (lookup tenant s.queues) [ none ↦ [] | some queue ↦ queue ]

-- One turn of the loop of `add`.
unfoldable pub add_delivery : QueueDelivery → FairTenantScheduler → FairTenantScheduler
unfolding pending
add_delivery delivery s =
    let tenant = tenant_of delivery in
    let queue = pending tenant s in
    record {
      queues = insert tenant (queue ++ delivery ∷ []) s.queues;
      round_robin = elim queue [ [] ↦ s.round_robin ++ tenant ∷ [] | x ∷ xs ↦ s.round_robin ];
    }

unfoldable pub add : List QueueDelivery → FairTenantScheduler → FairTenantScheduler
add [] s = s
add (delivery ∷ deliveries) s = add deliveries (add_delivery delivery s)

unfoldable pub pop : Exec SchedulerFault FairTenantScheduler (Option QueueDelivery)
pop s = elim s.round_robin [
  | [] ↦ (ok none, s)
  | tenant ∷ turns ↦ elim (lookup tenant s.queues) [
    | none ↦ (err key_error, record s { round_robin = turns })
    | some [] ↦ (err index_error, record s { round_robin = turns })
    | some (delivery ∷ []) ↦
        (ok (some delivery), record { queues = erase tenant s.queues; round_robin = turns })
    | some (delivery ∷ next ∷ rest) ↦ (
      ok (some delivery),
      record { queues = insert tenant (next ∷ rest) s.queues; round_robin = turns ++ tenant ∷ [] },
    )
  ]
]

-- `bool(scheduler)`
unfoldable pub is_waiting : FairTenantScheduler → Bool
is_waiting s = elim s.round_robin [ [] ↦ false | x ∷ xs ↦ true ]
