-- ===== src/Gateway/Repository/Reachable.antt =====
-- Sequences of calls of the repository, and the budgets that they keep.
use aegis_agent_platform.Prelude.{
  ℕ, ◌≤◌, ◌≡◌, refl, arith, ◌&&◌, ◌==◌, refused, done, values, insert, nat_eq, ap, Bool-cases, inl,
  inr,
}
use aegis_agent_platform.Domain.Events.{Name, Uuid, Instant, Amount}
use aegis_agent_platform.Domain.Work.{WorkLease}
use aegis_agent_platform.Domain.Model.{
  ModelRequest, ModelResponse, ModelGatewayError, PricingVersion,
}
use aegis_agent_platform.Policy.{QuotaLimits}
use aegis_agent_platform.Gateway.Catalog.{RouteDecision}
use aegis_agent_platform.Gateway.Repository.{Host, BudgetReservation, Repository, active, append}
use aegis_agent_platform.Gateway.Repository.Parts.{run_tokens, run_cost, tenant_tokens, tenant_cost}
use aegis_agent_platform.Gateway.Repository.Operations.{
  replace_lease, completed_response, reserve, record_attempt,
}
use aegis_agent_platform.Gateway.Repository.Settlement.{
  succeed, record_usage_failure, record_attempt_failure, fail,
}
use aegis_agent_platform.Gateway.Repository.Totals.{
  GrowsBy, GrowsBy-same, run_tokens-hold_ne, tenant_tokens-hold_ne,
}
use aegis_agent_platform.Gateway.Repository.Guards.{
  FitsBudget, granted, completed_response-Outcome, reserve-Outcome,
}
use aegis_agent_platform.Gateway.Repository.Outcomes.{WithinReservation}
use aegis_agent_platform.Gateway.Repository.Budget.{
  IsStored, reserve-GrowsBy, record_attempt-GrowsBy, record_attempt_failure-GrowsBy,
  succeed-GrowsBy, record_usage_failure-GrowsBy, fail-GrowsBy,
}

-- The totals of every run, and of every tenant in the period, are within the tenant's quotas.
pub record WithinQuotas (quotas : Name → QuotaLimits) (start : Instant) (s : Repository)
    : Type 0 where
  pub of_run :
      (tenant : Name) (run : Uuid)
      → (run_tokens tenant run (values s.reservations) ≤ (quotas tenant).max_run_tokens)
        × (run_cost tenant run (values s.reservations) ≤ (quotas tenant).max_run_cost_usd)
  pub of_tenant :
      (tenant : Name)
      → (tenant_tokens tenant start (values s.reservations)
          ≤ (quotas tenant).max_tenant_tokens_per_period)
        × (tenant_cost tenant start (values s.reservations)
            ≤ (quotas tenant).max_tenant_cost_usd_per_period)

-- One call, from `s` to `t`, returning or raising. Reservations are made under the quotas of their
-- tenant and in the period; a call that settles a reservation is given the stored one, and a use
-- that failed its validation stays within the reservation.
pub data Call (host : Host) (quotas : Name → QuotaLimits) (start : Instant) (s t : Repository)
    : Type 0 where
  read :
      (context : Name) (request : ModelRequest) (lease : WorkLease) (at : Instant)
      → t ≡ (completed_response host context request lease at s).1
      → Call host quotas start s t
  hold :
      (context : Name) (request : ModelRequest) (lease : WorkLease) (route : RouteDecision)
      (tokens : ℕ) (amount : Amount) (version : Name) (at : Instant)
      → host.month_start at ≡ start
      → t
        ≡ (reserve host context request lease route
            (quotas request.tenant_id)
            tokens
            amount
            version
            at
            s).1
      → Call host quotas start s t
  attempt :
      (context : Name) (request : ModelRequest) (lease : WorkLease) (r : BudgetReservation)
      (provider model : Name) (attempt fallback_index : ℕ) (at : Instant)
      → t
        ≡ (record_attempt host context request lease r provider model attempt fallback_index at s).1
      → Call host quotas start s t
  attempt_failure :
      (context : Name) (request : ModelRequest) (lease : WorkLease) (r : BudgetReservation)
      (error : ModelGatewayError) (provider model : Name) (attempt fallback_index : ℕ)
      (at : Instant)
      → t
        ≡ (record_attempt_failure host context request lease r error provider model attempt
            fallback_index at s).1
      → Call host quotas start s t
  success :
      (context : Name) (request : ModelRequest) (lease : WorkLease) (r : BudgetReservation)
      (response : ModelResponse) (pricing : PricingVersion) (at : Instant)
      → IsStored s r
      → t ≡ (succeed host context request lease r response pricing at s).1
      → Call host quotas start s t
  usage_failure :
      (context : Name) (request : ModelRequest) (lease : WorkLease) (r : BudgetReservation)
      (response : ModelResponse) (pricing : PricingVersion) (error : ModelGatewayError)
      (at : Instant)
      → IsStored s r
      → WithinReservation pricing response r
      → t ≡ (record_usage_failure host context request lease r response pricing error at s).1
      → Call host quotas start s t
  failure :
      (context : Name) (request : ModelRequest) (lease : WorkLease) (r : BudgetReservation)
      (error : ModelGatewayError) (at : Instant)
      → IsStored s r
      → t ≡ (fail host context request lease r error at s).1
      → Call host quotas start s t
  lease_change : (lease : WorkLease) → t ≡ replace_lease lease s → Call host quotas start s t

pub data Calls (host : Host) (quotas : Name → QuotaLimits) (start : Instant) (s : Repository)
    : Repository → Type 0 where
  here : Calls host quotas start s s
  next :
      {t u : Repository}
      → Calls host quotas start s t
      → Call host quotas start t u
      → Calls host quotas start s u

GrowsBy-narrow : {a b : ℕ} (s t : Repository) → GrowsBy a b s t → a ≡ 0 → b ≡ 0 → GrowsBy 0 0 s t
GrowsBy-narrow s t g e k = record {
  of_run_tokens = λ tenant run. omega (arith, g.of_run_tokens tenant run);
  of_run_cost = λ tenant run. omega (arith, g.of_run_cost tenant run);
  of_tenant_tokens = λ tenant start. omega (arith, g.of_tenant_tokens tenant start);
  of_tenant_cost = λ tenant start. omega (arith, g.of_tenant_cost tenant start);
}

module _ (quotas : Name → QuotaLimits) (start : Instant) where
  GrowsBy-WithinQuotas :
      (s t : Repository)
      → GrowsBy 0 0 s t
      → WithinQuotas quotas start s
      → WithinQuotas quotas start t
  GrowsBy-WithinQuotas s t g h = record {
    of_run = λ tenant run. (
      omega (arith, g.of_run_tokens tenant run, (h.of_run tenant run).0),
      omega (arith, g.of_run_cost tenant run, (h.of_run tenant run).1),
    );
    of_tenant = λ tenant. (
      omega (arith, g.of_tenant_tokens tenant start, (h.of_tenant tenant).0),
      omega (arith, g.of_tenant_cost tenant start, (h.of_tenant tenant).1),
    );
  }

  -- A new reservation that fits the budgets of its own run and tenant.
  module _ (v : BudgetReservation) (tokens : ℕ) (amount : Amount) (s s' : Repository)
      (written : s'.reservations ≡ insert v.reservation_id v s.reservations)
      (held : v.status ≡ active)
      (fits : FitsBudget s (quotas v.tenant_id) v.tenant_id v.run_id start tokens amount)
      (g : GrowsBy tokens amount s s') where
    same_run :
        (tenant : Name) (run : Uuid)
        → v.tenant_id ≡ tenant
        → v.run_id ≡ run
        → (run_tokens tenant run (values s'.reservations) ≤ (quotas tenant).max_run_tokens)
          × (run_cost tenant run (values s'.reservations) ≤ (quotas tenant).max_run_cost_usd)
    same_run tenant run e k =
        rw (← e, ← k)
          (
            omega (arith, g.of_run_tokens v.tenant_id v.run_id, fits.of_run_tokens),
            omega (arith, g.of_run_cost v.tenant_id v.run_id, fits.of_run_cost),
          )

    same_tenant :
        (tenant : Name)
        → v.tenant_id ≡ tenant
        → (tenant_tokens tenant start (values s'.reservations)
            ≤ (quotas tenant).max_tenant_tokens_per_period)
          × (tenant_cost tenant start (values s'.reservations)
              ≤ (quotas tenant).max_tenant_cost_usd_per_period)
    same_tenant tenant e = rw (← e) (
      omega (arith, g.of_tenant_tokens v.tenant_id start, fits.of_tenant_tokens),
      omega (arith, g.of_tenant_cost v.tenant_id start, fits.of_tenant_cost),
    )

    hold-WithinQuotas : WithinQuotas quotas start s → WithinQuotas quotas start s'
    hold-WithinQuotas h = record {
      of_run = λ tenant run. elim (Bool-cases (v.tenant_id == tenant && v.run_id == run)) [
        | inl same ↦ same_run tenant run (ground arith) (ground arith)
        | inr other ↦
            let (a, b) = run_tokens-hold_ne v tokens amount s s' written tenant run held other in
            (omega (arith, a, (h.of_run tenant run).0), omega (arith, b, (h.of_run tenant run).1))
      ];
      of_tenant = λ tenant. elim (Bool-cases (v.tenant_id == tenant)) [
        | inl same ↦ same_tenant tenant (ground arith)
        | inr other ↦
            let (a, b) =
              tenant_tokens-hold_ne v tokens amount s s' written tenant start held other in
            (omega (arith, a, (h.of_tenant tenant).0), omega (arith, b, (h.of_tenant tenant).1))
      ];
    }

  reserve-WithinQuotas :
      (host : Host) (context : Name) (request : ModelRequest) (lease : WorkLease)
      (route : RouteDecision) (tokens : ℕ) (amount : Amount) (version : Name) (at : Instant)
      (s : Repository)
      → host.month_start at ≡ start
      → WithinQuotas quotas start s
      → WithinQuotas quotas start
          (reserve host context request lease route
            (quotas request.tenant_id)
            tokens
            amount
            version
            at
            s).1
  unfolding append
  reserve-WithinQuotas host context request lease route tokens amount version at s month h =
      elim (reserve-Outcome host context request lease at s route (quotas request.tenant_id) tokens
        amount version) [
          | refused e q ↦ rw q h
          | done (scope, given, fenced, fresh, fits) q ↦
              hold-WithinQuotas
                (granted host context request lease at s route (quotas request.tenant_id) tokens
                  amount version)
                tokens amount s _ (ap (λ x. x.1.reservations) q) refl (rw month at fits)
                (reserve-GrowsBy host context request lease at s route (quotas request.tenant_id)
                  tokens amount version)
                h
        ]

-- A call keeps every total within the quotas.
Call-WithinQuotas :
    {host : Host} (quotas : Name → QuotaLimits) (start : Instant) {s t : Repository}
    → Call host quotas start s t
    → WithinQuotas quotas start s
    → WithinQuotas quotas start t
Call-WithinQuotas {host} quotas start {s} (read context request lease at e) h =
    rw e (elim (completed_response-Outcome host context request lease at s) [
      | refused x q ↦ rw q h
      | done pre q ↦ rw q h
    ])
Call-WithinQuotas {host} quotas start {s}
      (hold context request lease route tokens amount version at month e) h =
    rw e (
      reserve-WithinQuotas quotas start host context request lease route tokens amount version at s
        month h)
Call-WithinQuotas {host} quotas start {s} (attempt context request lease r provider model n i at e)
      h =
    rw e (
      GrowsBy-WithinQuotas quotas start s _
        (record_attempt-GrowsBy host context request lease at s r provider model n i) h)
Call-WithinQuotas {host} quotas start {s}
      (attempt_failure context request lease r error provider model n i at e) h =
    rw e (
      GrowsBy-WithinQuotas quotas start s _
        (record_attempt_failure-GrowsBy host context request lease at s r error provider model n i)
        h)
Call-WithinQuotas {host} quotas start {s}
      (success context request lease r response pricing at stored e) h =
    rw e (
      GrowsBy-WithinQuotas quotas start s _
        (succeed-GrowsBy host context request lease at s r stored response pricing) h)
Call-WithinQuotas {host} quotas start {s}
      (usage_failure context request lease r response pricing error at stored within e) h =
    rw e (
      GrowsBy-WithinQuotas quotas start s _
        (GrowsBy-narrow s _
          (record_usage_failure-GrowsBy host context request lease at s r stored response pricing
            error)
          (omega (arith, within.of_tokens)) (omega (arith, within.of_cost)))
        h)
Call-WithinQuotas {host} quotas start {s} (failure context request lease r error at stored e) h =
    rw e (
      GrowsBy-WithinQuotas quotas start s _
        (fail-GrowsBy host context request lease at s r stored error) h)
Call-WithinQuotas {host} quotas start {s} (lease_change lease e) h =
    rw e
      (unfold replace_lease in GrowsBy-WithinQuotas quotas start s _ (GrowsBy-same 0 0 s _ refl) h)

-- From a state within the quotas every sequence of calls leads to one, whatever is refused on the
-- way. Each tenant has its quotas, reservations are made in one billing period, a call that settles
-- a reservation is given the stored one, and a use that failed its validation is within it.
pub Calls-WithinQuotas :
    {host : Host} (quotas : Name → QuotaLimits) (start : Instant) {s t : Repository}
    → Calls host quotas start s t
    → WithinQuotas quotas start s
    → WithinQuotas quotas start t
Calls-WithinQuotas quotas start here h = h
Calls-WithinQuotas quotas start (next cs c) h =
    Call-WithinQuotas quotas start c (Calls-WithinQuotas quotas start cs h)
