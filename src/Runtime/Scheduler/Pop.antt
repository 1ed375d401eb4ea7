-- ===== src/Runtime/Scheduler/Pop.antt =====
-- What `pop` of the scheduler in runtime/__init__.py returns and leaves.
use mathlib.Core.List.{append-nil}
use aegis_agent_platform.Prelude.{
  subst, ◌≡◌, ◌≢◌, refl, sym, false, ◌==◌, if◌then◌else◌, Option, none, some, List, [], ◌∷◌, ◌++◌,
  ok, arith, nat_eq, lookup, insert, erase, contains, lookup-insert, lookup-erase_ne,
  lookup-erase_self, ==_iff, inl, inr, Bool-cases, ◌⊎◌, All,
}
use aegis_agent_platform.Domain.Events.{Name}
use aegis_agent_platform.Runtime.Scheduler.{
  QueueDelivery, FairTenantScheduler, tenant_of, pending, pop,
}
use aegis_agent_platform.Runtime.Scheduler.Keys.{
  Distinct, contains-append, Distinct-snoc, Distinct-insert, Distinct-erase,
}
use aegis_agent_platform.Runtime.Scheduler.Order.{IsReady}

-- A `pop` at `s` that returned `d` and left `s'`.
pub record Popped (s : FairTenantScheduler) (d : QueueDelivery) (s' : FairTenantScheduler)
    : Type 0 where
  pub returned : pop s ≡ (ok (some d), s')
  pub ready : IsReady s'
  -- `d` was the first of its tenant's queue; the other queues are as they were
  pub first :
      (tenant : Name)
      → pending tenant s
        ≡ (if tenant == tenant_of d then d ∷ pending tenant s' else pending tenant s')
  -- its tenant had the first turn, and goes behind those that wait
  pub turns :
      (waiting : List Name) × (behind : List Name) × (s.round_robin ≡ tenant_of d ∷ waiting)
      × (s'.round_robin ≡ waiting ++ behind)

module _ (s : FairTenantScheduler) (tenant : Name) (waiting : List Name) (d : QueueDelivery)
    (h : IsReady s) (e : s.round_robin ≡ tenant ∷ waiting) (rest : List QueueDelivery)
    (k : lookup tenant s.queues ≡ some (d ∷ rest)) where
  queue-own : (tenant_of d ≡ tenant) × All (λ x. tenant_of x ≡ tenant) rest
  unfolding pending
  queue-own =
      let q : pending tenant s ≡ d ∷ rest = ground (arith, k) in
      subst (All (λ x. tenant_of x ≡ tenant)) q (h.own tenant)

  turn-Distinct : (contains tenant waiting ≡ false) × Distinct waiting
  unfolding Distinct
  turn-Distinct = simp e at h.one_turn

  rest-own :
      (s' : FairTenantScheduler)
      → ((t : Name) → pending t s' ≡ (if t == tenant then rest else pending t s))
      → (t : Name) → All (λ x. tenant_of x ≡ t) (pending t s')
  rest-own s' moved t = elim (Bool-cases (t == tenant)) [
    | inl same ↦ rw (moved t, same, (==_iff t tenant).0 same) queue-own.1
    | inr other ↦ rw (moved t, other) (h.own t)
  ]

  rest-first :
      (s' : FairTenantScheduler)
      → ((t : Name) → pending t s' ≡ (if t == tenant then rest else pending t s))
      → (t : Name) → pending t s ≡ (if t == tenant_of d then d ∷ pending t s' else pending t s')
  unfolding pending
  rest-first s' moved t = ground (arith, queue-own.0, moved t)

  first-turn : s.round_robin ≡ tenant_of d ∷ waiting
  first-turn = rw (e, queue-own.0) refl

pop-next :
    (s : FairTenantScheduler) (tenant : Name) (waiting : List Name) (d : QueueDelivery)
    → IsReady s
    → s.round_robin ≡ tenant ∷ waiting
    → (next : QueueDelivery) (rest : List QueueDelivery)
    → lookup tenant s.queues ≡ some (d ∷ next ∷ rest)
    → Popped s d (record {
      queues = insert tenant (next ∷ rest) s.queues;
      round_robin = waiting ++ tenant ∷ [];
    })
unfolding pop pending
pop-next s tenant waiting d h e next rest k =
    let s' : FairTenantScheduler = record {
      queues = insert tenant (next ∷ rest) s.queues;
      round_robin = waiting ++ tenant ∷ [];
    } in
    let (new, once) = turn-Distinct s tenant waiting d h e (next ∷ rest) k in
    let moved : (t : Name) → pending t s' ≡ (if t == tenant then next ∷ rest else pending t s) =
      λ t. ground (arith, lookup-insert t tenant (next ∷ rest) s.queues) in
    record {
      returned = ground (arith, e, k);
      ready = record {
        has_turn = λ t. ground (
          arith,
          h.has_turn t,
          h.has_turn tenant,
          contains-append t waiting (tenant ∷ []),
          lookup-insert t tenant (next ∷ rest) s.queues,
        );
        not_empty =
            λ t z. ground (arith, z, h.not_empty t, lookup-insert t tenant (next ∷ rest) s.queues);
        one_turn = Distinct-snoc waiting tenant once new;
        one_queue = Distinct-insert tenant (next ∷ rest) s.queues h.one_queue;
        own = rest-own s tenant waiting d h e (next ∷ rest) k s' moved;
      };
      first = rest-first s tenant waiting d h e (next ∷ rest) k s' moved;
      turns = (waiting, tenant ∷ [], first-turn s tenant waiting d h e (next ∷ rest) k, refl);
    }

pop-last :
    (s : FairTenantScheduler) (tenant : Name) (waiting : List Name) (d : QueueDelivery)
    → IsReady s
    → s.round_robin ≡ tenant ∷ waiting
    → lookup tenant s.queues ≡ some (d ∷ [])
    → Popped s d (record { queues = erase tenant s.queues; round_robin = waiting })
unfolding pop pending
pop-last s tenant waiting d h e k =
    let s' : FairTenantScheduler = record {
      queues = erase tenant s.queues;
      round_robin = waiting;
    } in
    let (new, once) = turn-Distinct s tenant waiting d h e [] k in
    let gone = lookup-erase_self tenant s.queues in
    let moved : (t : Name) → pending t s' ≡ (if t == tenant then [] else pending t s) =
      λ t. ground (arith, gone, lookup-erase_ne t tenant s.queues) in
    record {
      returned = ground (arith, e, k);
      ready = record {
        has_turn = λ t. ground (arith, h.has_turn t, gone, lookup-erase_ne t tenant s.queues);
        not_empty =
            λ t z. ground (arith, z, h.not_empty t, gone, lookup-erase_ne t tenant s.queues);
        one_turn = once;
        one_queue = Distinct-erase tenant s.queues h.one_queue;
        own = rest-own s tenant waiting d h e [] k s' moved;
      };
      first = rest-first s tenant waiting d h e [] k s' moved;
      turns = (waiting, [], first-turn s tenant waiting d h e [] k, sym (append-nil waiting));
    }

has_queue :
    (s : FairTenantScheduler) (tenant : Name) (waiting : List Name)
    → IsReady s
    → s.round_robin ≡ tenant ∷ waiting
    → lookup tenant s.queues ≢ none
has_queue s tenant waiting h e k = ground (arith, k, e, h.has_turn tenant)

pop-at :
    (s : FairTenantScheduler) (tenant : Name) (waiting : List Name)
    → IsReady s
    → s.round_robin ≡ tenant ∷ waiting
    → (o : Option (List QueueDelivery)) → lookup tenant s.queues ≡ o
    → (d : QueueDelivery) × (s' : FairTenantScheduler) × Popped s d s'
pop-at s tenant waiting h e none k = elim (has_queue s tenant waiting h e k) [ ]
pop-at s tenant waiting h e (some []) k = elim (h.not_empty tenant k) [ ]
pop-at s tenant waiting h e (some (d ∷ [])) k = (d, _, pop-last s tenant waiting d h e k)
pop-at s tenant waiting h e (some (d ∷ next ∷ rest)) k =
    (d, _, pop-next s tenant waiting d h e next rest k)

pop-turn :
    (s : FairTenantScheduler)
    → IsReady s
    → (turns : List Name) → s.round_robin ≡ turns
    → ((s.round_robin ≡ []) × (pop s ≡ (ok none, s)) × ((tenant : Name) → pending tenant s ≡ []))
      ⊎ ((d : QueueDelivery) × (s' : FairTenantScheduler) × Popped s d s')
unfolding pop pending
pop-turn s h [] e = inl (e, ground (arith, e), λ tenant. ground (arith, e, h.has_turn tenant))
pop-turn s h (tenant ∷ waiting) e = inr (pop-at s tenant waiting h e (lookup tenant s.queues) refl)

-- In a scheduler that is in order `pop` never raises: without a waiting tenant it returns None and
-- no queue has a delivery, and else it returns the first delivery of the tenant whose turn it is.
pub pop_lem :
    (s : FairTenantScheduler)
    → IsReady s
    → ((s.round_robin ≡ []) × (pop s ≡ (ok none, s)) × ((tenant : Name) → pending tenant s ≡ []))
      ⊎ ((d : QueueDelivery) × (s' : FairTenantScheduler) × Popped s d s')
pop_lem s h = pop-turn s h s.round_robin refl
