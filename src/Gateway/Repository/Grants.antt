-- ===== src/Gateway/Repository/Grants.antt =====
-- When the guards of gateway/repository.py pass: a call that satisfies them is carried out.
use aegis_agent_platform.Prelude.{
  ℕ, ◌≡◌, refl, false, ltb, ◌==◌, ◌||◌, ok, arith, pair_eq, nat_eq, ◌>>◌, Returns, passed,
  passed_if, passed_lift,
}
use aegis_agent_platform.Domain.Events.{Name, Instant, Amount}
use aegis_agent_platform.Domain.Work.{WorkLease}
use aegis_agent_platform.Domain.Model.{
  ModelRequest, ModelResponse, ModelGatewayError, PricingVersion,
}
use aegis_agent_platform.Policy.{QuotaLimits}
use aegis_agent_platform.Gateway.Catalog.{RouteDecision}
use aegis_agent_platform.Gateway.Repository.{
  Host, BudgetReservation, Repository, append, require_fence, require_active, is_active,
  validate_request_context, fence_fault, request_key, usage_totals,
}
use aegis_agent_platform.Gateway.Repository.Digest.{request_content_digest}
use aegis_agent_platform.Gateway.Repository.Parts.{check_budget, actual_usage}
use aegis_agent_platform.Gateway.Repository.Operations.{reserve, require_new_key, write_reservation}
use aegis_agent_platform.Gateway.Repository.Settlement.{succeed, write_success, fail, write_failure}
use aegis_agent_platform.Gateway.Repository.Guards.{
  HoldsLease, SameScope, IsNewKey, FitsBudget, IsHeld, granted,
}
use aegis_agent_platform.Gateway.Repository.Outcomes.{WithinReservation}

module _ (s : Repository) where
  validate_passes :
      (context : Name) (request : ModelRequest) (lease : WorkLease)
      → SameScope context request lease
      → validate_request_context context request lease s ≡ (ok tt, s)
  unfolding validate_request_context
  validate_passes context request lease h = ground (arith, h.of_request, h.of_lease, h.of_run)

  fence_passes :
      (lease : WorkLease) (at : Instant)
      → HoldsLease s lease at
      → require_fence lease at s ≡ (ok tt, s)
  unfolding require_fence fence_fault
  fence_passes lease at h = ground (arith, h.found, h.token, h.generation, h.alive)

  active_passes : (r : BudgetReservation) → IsHeld s r → require_active r s ≡ (ok tt, s)
  unfolding require_active is_active
  active_passes r h = ground (arith, h.found, h.holds)

  key_passes :
      (request : ModelRequest) (digest : Name)
      → IsNewKey s request
      → require_new_key (request_key request) digest s ≡ (ok tt, s)
  unfolding require_new_key
  key_passes request digest h = ground (arith, h.not_completed, h.not_inflight)

  budget_passes :
      (q : QuotaLimits) (tenant run : ℕ) (start : Instant) (tokens : ℕ) (amount : Amount)
      → FitsBudget s q tenant run start tokens amount
      → check_budget q tenant run start tokens amount s ≡ (ok tt, s)
  unfolding check_budget
  budget_passes q tenant run start tokens amount h =
      ground (arith, h.of_run_tokens, h.of_run_cost, h.of_tenant_tokens, h.of_tenant_cost)

module _ (host : Host) (context : Name) (request : ModelRequest) (lease : WorkLease) (at : Instant)
    (s : Repository) where
  -- The holder of the lease gets a reservation of at least one token at a named price version,
  -- under a new key and in one scope, whenever all four budgets allow it.
  pub reserve-granted :
      (route : RouteDecision) (quotas : QuotaLimits) (tokens : ℕ) (amount : Amount) (version : Name)
      → SameScope context request lease
      → (ltb tokens 1 || version == 0) ≡ false
      → HoldsLease s lease at
      → IsNewKey s request
      → FitsBudget s quotas request.tenant_id request.run_id (host.month_start at) tokens amount
      → Returns
          (reserve host context request lease route quotas tokens amount version at)
          s
          (ok (granted host context request lease at s route quotas tokens amount version))
  unfolding reserve append
  reserve-granted route quotas tokens amount version scope given fenced fresh fits =
      passed (validate_request_context context request lease) _ s
        (validate_passes s context request lease scope)
        (passed_if (ltb tokens 1 || version == 0) _ _ s given (
          passed (require_fence lease at) _ s (fence_passes s lease at fenced) (
            passed (require_new_key (request_key request) (request_content_digest host request)) _ s
              (key_passes s request (request_content_digest host request) fresh)
              (passed
                (check_budget quotas request.tenant_id request.run_id (host.month_start at) tokens
                  amount)
                (write_reservation host request lease route tokens amount version at) s
                (budget_passes s quotas request.tenant_id request.run_id (host.month_start at)
                  tokens amount fits)
                (record { value = refl })))))

  -- In one scope the holder of the lease charges any use that stays within a held reservation.
  pub succeed_charged :
      (r : BudgetReservation) (response : ModelResponse) (pricing : PricingVersion)
      → SameScope context request lease
      → WithinReservation pricing response r
      → IsHeld s r
      → HoldsLease s lease at
      → Returns (succeed host context request lease r response pricing at) s (ok tt)
  unfolding succeed append
  succeed_charged r response pricing scope within held fenced =
      let usage : actual_usage pricing response r ≡ ok (usage_totals pricing response) =
        unfold actual_usage in ground (arith, within.of_tokens, within.of_cost) in
      passed (validate_request_context context request lease) _ s
        (validate_passes s context request lease scope)
        (passed_lift (actual_usage pricing response r) (usage_totals pricing response)
          (λ actual.
            require_active r
            >> (require_fence lease at
                >> write_success host request lease r response pricing actual at))
          s usage
          (passed (require_active r) _ s (active_passes s r held) (
            passed (require_fence lease at)
              (write_success host request lease r response pricing (usage_totals pricing response)
                at)
              s (fence_passes s lease at fenced) (record { value = refl }))))

  -- In one scope the holder of the lease can always release a held reservation.
  pub fail_released :
      (r : BudgetReservation) (error : ModelGatewayError)
      → SameScope context request lease
      → IsHeld s r
      → HoldsLease s lease at
      → Returns (fail host context request lease r error at) s (ok tt)
  unfolding fail append
  fail_released r error scope held fenced =
      passed (validate_request_context context request lease) _ s
        (validate_passes s context request lease scope)
        (passed (require_active r) _ s (active_passes s r held) (
          passed (require_fence lease at) (write_failure host request lease r error at) s
            (fence_passes s lease at fenced) (record { value = refl })))
