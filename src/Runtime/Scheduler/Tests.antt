-- ===== src/Runtime/Scheduler/Tests.antt =====
-- The scheduler's theorems on three deliveries of two tenants.
use aegis_agent_platform.Prelude.{
  ℕ, ◌≡◌, ◌⊎◌, ◌==◌, none, List, [], ◌∷◌, ◌++◌, ok, arith, filter_by,
}
use aegis_agent_platform.Domain.Events.{Name}
use aegis_agent_platform.Runtime.Scheduler.{
  QueueDelivery, FairTenantScheduler, tenant_of, pending, add, pop, empty_scheduler, add_delivery,
}
use aegis_agent_platform.Runtime.Scheduler.Order.{IsReady, empty-IsReady, add-IsReady, add-pending}
use aegis_agent_platform.Runtime.Scheduler.Pop.{Popped, pop_lem}
use aegis_agent_platform.Runtime.Scheduler.Turns.{served, served_in_turn}

abbrev delivery : ℕ → Name → QueueDelivery
delivery id tenant = record {
  stream_entry_id = id;
  envelope = record {
    message_id = id;
    tenant_id = tenant;
    work_id = id;
    event_id = none;
    destination = 1;
    correlation_id = 1;
    causation_id = none;
    occurred_at = 0;
    payload = [];
    headers = [];
    schema_version = 1;
  };
  delivery_count = 1;
  idle_milliseconds = 0;
}

abbrev deliveries : List QueueDelivery
deliveries = delivery 1 7 ∷ delivery 2 7 ∷ delivery 3 8 ∷ []

abbrev loaded : FairTenantScheduler
loaded = add deliveries empty_scheduler

loaded-IsReady : IsReady loaded
loaded-IsReady = add-IsReady deliveries empty_scheduler empty-IsReady

add-pending_example :
    pending 7 loaded ≡ pending 7 empty_scheduler ++ filter_by (λ d. 7 == tenant_of d) deliveries
add-pending_example = add-pending deliveries empty_scheduler 7

pop_lem_example :
    ((loaded.round_robin ≡ [])
      × (pop loaded ≡ (ok none, loaded))
      × ((tenant : Name) → pending tenant loaded ≡ []))
    ⊎ ((d : QueueDelivery) × (s' : FairTenantScheduler) × Popped loaded d s')
pop_lem_example = pop_lem loaded loaded-IsReady

served_in_turn_example : served 2 loaded ≡ 7 ∷ 8 ∷ []
unfolding add add_delivery pending
served_in_turn_example = served_in_turn 2 loaded loaded-IsReady (omega arith)
