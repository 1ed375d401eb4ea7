-- ===== src/Runtime/Scheduler/Order.antt =====
-- `add` of the scheduler in runtime/__init__.py keeps every delivery, in order within a tenant.
use mathlib.Core.List.{append-nil, append_assoc}
use aegis_agent_platform.Prelude.{
  ◌≡◌, ◌≢◌, refl, sym, ◌==◌, if◌then◌else◌, Option, none, some, List, [], ◌∷◌, ◌++◌, arith, nat_eq,
  lookup, contains, filter_by, is_some, lookup-insert, inl, inr, Bool-cases, All,
}
use aegis_agent_platform.Domain.Events.{Name}
use aegis_agent_platform.Runtime.Scheduler.{
  QueueDelivery, FairTenantScheduler, tenant_of, pending, add_delivery, add, empty_scheduler,
}
use aegis_agent_platform.Runtime.Scheduler.Keys.{
  Distinct, contains-append, Distinct-snoc, keys, Distinct-insert,
}

-- A tenant has its turn in the deque, once, exactly when it has a queue, and no queue is empty.
pub record IsReady (s : FairTenantScheduler) : Type 0 where
  pub has_turn : (tenant : Name) → contains tenant s.round_robin ≡ is_some (lookup tenant s.queues)
  pub not_empty : (tenant : Name) → lookup tenant s.queues ≢ some []
  pub one_turn : Distinct s.round_robin
  pub one_queue : Distinct (keys s.queues)
  pub own : (tenant : Name) → All (λ d. tenant_of d ≡ tenant) (pending tenant s)

pub empty-IsReady : IsReady empty_scheduler
unfolding Distinct pending
empty-IsReady = record {
  has_turn = λ tenant. refl;
  not_empty = λ tenant h. ground arith;
  one_turn = tt;
  one_queue = tt;
  own = λ tenant. tt;
}

snoc-ne_nil : {A : Type 0} (xs : List A) (x : A) → xs ++ x ∷ [] ≢ []
snoc-ne_nil [] x h = ground arith
snoc-ne_nil (y ∷ xs) x h = ground arith

turn-once :
    (d : QueueDelivery) (s : FairTenantScheduler)
    → IsReady s
    → (o : Option (List QueueDelivery)) → lookup (tenant_of d) s.queues ≡ o
    → Distinct (add_delivery d s).round_robin
unfolding add_delivery pending
turn-once d s h none e =
    rw (e, add_delivery, pending)
      (Distinct-snoc s.round_robin (tenant_of d) h.one_turn
        (ground (arith, h.has_turn (tenant_of d))))
turn-once d s h (some []) e = elim (h.not_empty (tenant_of d) e) [ ]
turn-once d s h (some (x ∷ xs)) e = rw (e, add_delivery, pending) h.one_turn

add_delivery-pending :
    (d : QueueDelivery) (s : FairTenantScheduler) (tenant : Name)
    → pending tenant (add_delivery d s)
      ≡ (if tenant == tenant_of d then pending tenant s ++ d ∷ [] else pending tenant s)
unfolding add_delivery pending
add_delivery-pending d s tenant =
    ground (arith, lookup-insert tenant (tenant_of d) (pending (tenant_of d) s ++ d ∷ []) s.queues)

All-snoc :
    {A : Type 0} (P : A → Type 0) (xs : List A) (x : A) → All P xs → P x → All P (xs ++ x ∷ [])
All-snoc P [] x h p = (p, tt)
All-snoc P (y ∷ xs) x (h, hs) p = (h, All-snoc P xs x hs p)

add_delivery-IsReady :
    (d : QueueDelivery) (s : FairTenantScheduler) → IsReady s → IsReady (add_delivery d s)
unfolding add_delivery pending
add_delivery-IsReady d s h = record {
  has_turn = λ tenant. ground (
    arith,
    h.has_turn tenant,
    h.has_turn (tenant_of d),
    h.not_empty (tenant_of d),
    contains-append tenant s.round_robin (tenant_of d ∷ []),
    lookup-insert tenant (tenant_of d) (pending (tenant_of d) s ++ d ∷ []) s.queues,
  );
  not_empty = λ tenant e. ground (
    arith,
    e,
    h.not_empty tenant,
    snoc-ne_nil (pending (tenant_of d) s) d,
    lookup-insert tenant (tenant_of d) (pending (tenant_of d) s ++ d ∷ []) s.queues,
  );
  one_turn = turn-once d s h (lookup (tenant_of d) s.queues) refl;
  one_queue =
      Distinct-insert (tenant_of d) (pending (tenant_of d) s ++ d ∷ []) s.queues h.one_queue;
  own = λ tenant. elim (Bool-cases (tenant == tenant_of d)) [
    | inl e ↦
        rw (add_delivery-pending d s tenant, e)
          (All-snoc (λ x. tenant_of x ≡ tenant) (pending tenant s) d (h.own tenant) (ground arith))
    | inr e ↦ rw (add_delivery-pending d s tenant, e) (h.own tenant)
  ];
}

-- `add` keeps the scheduler in order: a tenant has one turn exactly while it has a queue, and no
-- queue is empty.
pub add-IsReady :
    (ds : List QueueDelivery) (s : FairTenantScheduler) → IsReady s → IsReady (add ds s)
unfolding add
add-IsReady [] s h = h
add-IsReady (d ∷ ds) s h = add-IsReady ds (add_delivery d s) (add_delivery-IsReady d s h)

-- `add` puts behind each tenant's queue that tenant's deliveries, in their order.
pub add-pending :
    (ds : List QueueDelivery) (s : FairTenantScheduler) (tenant : Name)
    → pending tenant (add ds s) ≡ pending tenant s ++ filter_by (λ d. tenant == tenant_of d) ds
unfolding add
add-pending [] s tenant = sym (append-nil (pending tenant s))
add-pending (d ∷ ds) s tenant = ground (
  arith,
  add-pending ds (add_delivery d s) tenant,
  add_delivery-pending d s tenant,
  append_assoc (pending tenant s) (d ∷ []) (filter_by (λ d. tenant == tenant_of d) ds),
)
