-- ===== src/Runtime/Scheduler/Turns.antt =====
-- The order in which the scheduler of runtime/__init__.py serves the tenants that wait.
use aegis_agent_platform.Prelude.{
  ℕ, zero, suc, ◌≤◌, ◌≡◌, refl, ap, List, [], ◌∷◌, ◌++◌, length, length-append, ok, err, none, some,
  inl, inr, arith, ◌∙◌,
}
use aegis_agent_platform.Domain.Events.{Name}
use aegis_agent_platform.Runtime.Scheduler.{QueueDelivery, FairTenantScheduler, tenant_of, pop}
use aegis_agent_platform.Runtime.Scheduler.Order.{IsReady}
use aegis_agent_platform.Runtime.Scheduler.Pop.{Popped, pop_lem}

-- The tenants of the next `n` deliveries.
abbrev pub served : ℕ → FairTenantScheduler → List Name
served zero s = []
served (suc n) s = elim (pop s).0 [
  | ok (some d) ↦ tenant_of d ∷ served n (pop s).1
  | ok none ↦ []
  | err e ↦ []
]

abbrev pub first_n : ℕ → List Name → List Name
first_n zero xs = []
first_n (suc n) [] = []
first_n (suc n) (x ∷ xs) = x ∷ first_n n xs

first_n-append : (n : ℕ) (xs ys : List Name) → n ≤ length xs → first_n n (xs ++ ys) ≡ first_n n xs
first_n-append zero xs ys h = refl
first_n-append (suc n) [] ys h = ground arith
first_n-append (suc n) (x ∷ xs) ys h = ap (λ r. x ∷ r) (first_n-append n xs ys (omega (arith, h)))

served-Popped :
    (n : ℕ) (s : FairTenantScheduler) (d : QueueDelivery) (s' : FairTenantScheduler)
    → Popped s d s'
    → served (suc n) s ≡ tenant_of d ∷ served n s'
served-Popped n s d s' p = ground (arith, p.returned)

-- In a scheduler that is in order, the next pops, up to as many as tenants wait, serve the waiting
-- tenants in the order of their turns, each of them once.
pub served_in_turn :
    (n : ℕ) (s : FairTenantScheduler)
    → IsReady s
    → n ≤ length s.round_robin
    → served n s ≡ first_n n s.round_robin
served_in_turn zero s h bound = refl
served_in_turn (suc n) s h bound = elim (pop_lem s h) [
  | inl (empty, q, none_left) ↦ ground (arith, empty)
  | inr (d, s', p) ↦
      let (waiting, behind, now, later) = p.turns in
      let room : n ≤ length waiting = ground (arith, now) in
      let more : n ≤ length s'.round_robin = ground (arith, later, length-append waiting behind) in
      rw (served-Popped n s d s' p, now)
        (ap (λ r. tenant_of d ∷ r)
          (served_in_turn n s' p.ready more
            ∙ ap (first_n n) later
            ∙ first_n-append n waiting behind room))
]
