-- ===== src/Gateway/Repository/Guards.antt =====
-- The guards of the repository's operations, and what `completed` and `reserve` do behind them.
use aegis_agent_platform.Prelude.{
  ℕ, ◌<◌, ◌≡◌, true, false, none, some, List, arith, Option-cases, inl, inr, ◌+◌, ◌≤◌, ltb, ◌||◌,
  values, refl, Outcome, done, after_guard, after_raise_if, Outcome-map, ok, lookup, pair_eq,
  nat_eq, ◌==◌,
}
use aegis_agent_platform.Domain.Events.{Name, Uuid, Instant, Amount}
use aegis_agent_platform.Domain.Work.{WorkLease}
use aegis_agent_platform.Domain.Model.{ModelRequest}
use aegis_agent_platform.Policy.{QuotaLimits}
use aegis_agent_platform.Gateway.Catalog.{RouteDecision}
use aegis_agent_platform.Gateway.Repository.{
  Details, Host, BudgetReservation, Repository, request_key, lease_key, validate_request_context,
  require_fence, fence_fault, require_active, is_active, append,
}
use aegis_agent_platform.Gateway.Repository.Parts.{
  check_budget, run_tokens, run_cost, tenant_tokens, tenant_cost,
}
use aegis_agent_platform.Gateway.Repository.Digest.{request_content_digest}
use aegis_agent_platform.Gateway.Repository.Operations.{
  completed_response, reserve, require_new_key, stored_response, read_completed, write_reservation,
  new_reservation, enter_reservation, reserve_details,
}

-- The caller's lease is the current one of its work: same token and generation, not expired.
pub record HoldsLease (s : Repository) (lease : WorkLease) (at : Instant) : Type 0 where
  pub current : WorkLease
  pub found : lookup (lease_key lease) s.active_leases ≡ some current
  pub token : current.token ≡ lease.token
  pub generation : current.generation ≡ lease.generation
  pub alive : at < current.expires_at

-- Tenant context, request and lease agree, and the run is the leased work.
pub record SameScope (context : Name) (request : ModelRequest) (lease : WorkLease) : Type 0 where
  pub of_request : context ≡ request.tenant_id
  pub of_lease : context ≡ lease.tenant_id
  pub of_run : request.run_id ≡ lease.work_id

pub require_fence-HoldsLease :
    (lease : WorkLease) (at : Instant) (s : Repository)
    → (require_fence lease at s).0 ≡ ok tt
    → HoldsLease s lease at
unfolding require_fence fence_fault
require_fence-HoldsLease lease at s h =
    elim (Option-cases (lookup (lease_key lease) s.active_leases)) [
      | inl missing ↦ absurd (ground arith)
      | inr (c, found) ↦ record {
        current = c;
        found = found;
        token = ground arith;
        generation = ground arith;
        alive = ground arith;
      }
    ]

pub validate-SameScope :
    (context : Name) (request : ModelRequest) (lease : WorkLease) (s : Repository)
    → (validate_request_context context request lease s).0 ≡ ok tt
    → SameScope context request lease
unfolding validate_request_context
validate-SameScope context request lease s h = record {
  of_request = ground arith;
  of_lease = ground arith;
  of_run = ground arith;
}

-- The guards leave the state alone.
module _ (s : Repository) where
  pub validate_same :
      (context : Name) (request : ModelRequest) (lease : WorkLease)
      → (validate_request_context context request lease s).1 ≡ s
  unfolding validate_request_context
  validate_same context request lease = ground arith

  pub fence_same : (lease : WorkLease) (at : Instant) → (require_fence lease at s).1 ≡ s
  unfolding require_fence
  fence_same lease at = ground arith

  pub active_same : (r : BudgetReservation) → (require_active r s).1 ≡ s
  unfolding require_active
  active_same r = ground arith

  new_key_same : (key : ℕ × ℕ) (digest : Name) → (require_new_key key digest s).1 ≡ s
  unfolding require_new_key
  new_key_same key digest = ground arith

  budget_same :
      (q : QuotaLimits) (tenant run : ℕ) (start : Instant) (tokens : ℕ) (amount : Amount)
      → (check_budget q tenant run start tokens amount s).1 ≡ s
  unfolding check_budget
  budget_same q tenant run start tokens amount = ground arith

-- `reserve` finds the key unused.
pub record IsNewKey (s : Repository) (request : ModelRequest) : Type 0 where
  pub not_completed : lookup (request_key request) s.completed ≡ none
  pub not_inflight : lookup (request_key request) s.inflight ≡ none

require_new_key-IsNewKey :
    (s : Repository) (request : ModelRequest) (digest : Name)
    → (require_new_key (request_key request) digest s).0 ≡ ok tt
    → IsNewKey s request
unfolding require_new_key
require_new_key-IsNewKey s request digest h = record {
  not_completed = ground arith;
  not_inflight = ground arith;
}

-- The reservation fits all four budgets beside what is held and charged already.
pub record FitsBudget (s : Repository) (quotas : QuotaLimits) (tenant : Name) (run : Uuid)
    (start : Instant) (tokens : ℕ) (amount : Amount) : Type 0 where
  pub of_run_tokens : run_tokens tenant run (values s.reservations) + tokens ≤ quotas.max_run_tokens
  pub of_run_cost : run_cost tenant run (values s.reservations) + amount ≤ quotas.max_run_cost_usd
  pub of_tenant_tokens :
      tenant_tokens tenant start (values s.reservations) + tokens
      ≤ quotas.max_tenant_tokens_per_period
  pub of_tenant_cost :
      tenant_cost tenant start (values s.reservations) + amount
      ≤ quotas.max_tenant_cost_usd_per_period

check_budget-FitsBudget :
    (s : Repository) (quotas : QuotaLimits) (tenant : Name) (run : Uuid) (start : Instant)
    (tokens : ℕ) (amount : Amount)
    → (check_budget quotas tenant run start tokens amount s).0 ≡ ok tt
    → FitsBudget s quotas tenant run start tokens amount
unfolding check_budget
check_budget-FitsBudget s quotas tenant run start tokens amount h = record {
  of_run_tokens = ground arith;
  of_run_cost = ground arith;
  of_tenant_tokens = ground arith;
  of_tenant_cost = ground arith;
}

-- The reservation is stored and still holds its budget.
pub record IsHeld (s : Repository) (r : BudgetReservation) : Type 0 where
  pub stored : BudgetReservation
  pub found : lookup r.reservation_id s.reservations ≡ some stored
  pub holds : stored.active ≡ true

pub require_active-IsHeld :
    (r : BudgetReservation) (s : Repository) → (require_active r s).0 ≡ ok tt → IsHeld s r
unfolding require_active is_active
require_active-IsHeld r s h = elim (Option-cases (lookup r.reservation_id s.reservations)) [
  | inl missing ↦ absurd (ground (arith, h, missing))
  | inr (x, found) ↦ record { stored = x; found = found; holds = ground (arith, h, found) }
]

-- The state after `_append`.
abbrev pub appended :
    Host → ModelRequest → WorkLease → Instant → List Details → Repository → Repository
appended host request lease at details s = (append host request lease at details s).1

module _ (host : Host) (context : Name) (request : ModelRequest) (lease : WorkLease) (at : Instant)
    (s : Repository) where
  -- `completed` changes nothing, and answers only to the holder of the lease.
  pub completed_response-Outcome :
      Outcome
        (completed_response host context request lease at)
        s
        (SameScope context request lease × HoldsLease s lease at)
        (stored_response
          (lookup (context, request.idempotency_key) s.completed)
          (request_content_digest host request))
        s
  unfolding completed_response
  completed_response-Outcome =
      Outcome-map (λ h. (h.0, h.1.0))
        (after_guard (validate_request_context context request lease) _ s
          (validate_same s context request lease) (validate-SameScope context request lease s)
          (after_guard (require_fence lease at) (read_completed host context request) s
            (fence_same s lease at) (require_fence-HoldsLease lease at s) (done tt refl)))

  module _ (route : RouteDecision) (quotas : QuotaLimits) (tokens : ℕ) (amount : Amount)
      (version : Name) where
    abbrev pub granted : BudgetReservation
    granted = new_reservation host request lease tokens amount version at s

    -- `reserve` changes nothing, or the caller holds the lease, the key is new and the budgets
    -- allow the reservation, which is then stored with its three events.
    pub reserve-Outcome :
        Outcome
          (reserve host context request lease route quotas tokens amount version at)
          s
          (SameScope context request lease
            × ((ltb tokens 1 || version == 0) ≡ false)
            × HoldsLease s lease at
            × IsNewKey s request
            × FitsBudget s quotas request.tenant_id request.run_id
                (host.month_start at)
                tokens
                amount)
          granted
          (appended host request lease at
            (reserve_details host request lease route granted)
            (enter_reservation host request granted s))
    unfolding reserve append
    reserve-Outcome =
        Outcome-map (λ h. (h.0, h.1.0, h.1.1.0, h.1.1.1.0, h.1.1.1.1.0))
          (after_guard (validate_request_context context request lease) _ s
            (validate_same s context request lease) (validate-SameScope context request lease s)
            (after_raise_if (ltb tokens 1 || version == 0) _ _ s (
              after_guard (require_fence lease at) _ s (fence_same s lease at)
                (require_fence-HoldsLease lease at s)
                (after_guard
                  (require_new_key (request_key request) (request_content_digest host request)) _ s
                  (new_key_same s (request_key request) (request_content_digest host request))
                  (require_new_key-IsNewKey s request (request_content_digest host request))
                  (after_guard
                    (check_budget quotas request.tenant_id request.run_id (host.month_start at)
                      tokens amount)
                    (write_reservation host request lease route tokens amount version at) s
                    (budget_same s quotas request.tenant_id request.run_id (host.month_start at)
                      tokens amount)
                    (check_budget-FitsBudget s quotas request.tenant_id request.run_id
                      (host.month_start at) tokens amount)
                    (done tt refl))))))
