-- ===== src/Gateway/Repository/Budget.antt =====
-- No sequence of calls takes a run or a tenant past its budget.
use aegis_agent_platform.Prelude.{
  ℕ, ◌-◌, ◌≡◌, refl, true, some, arith, refused, done, lookup, nat_eq,
}
use aegis_agent_platform.Domain.Events.{Name, Instant, Amount}
use aegis_agent_platform.Domain.Work.{WorkLease}
use aegis_agent_platform.Domain.Model.{
  ModelRequest, ModelResponse, ModelGatewayError, PricingVersion,
}
use aegis_agent_platform.Policy.{QuotaLimits}
use aegis_agent_platform.Gateway.Catalog.{RouteDecision}
use aegis_agent_platform.Gateway.Repository.{
  Host, BudgetReservation, Repository, usage_totals, append,
}
use aegis_agent_platform.Gateway.Repository.Operations.{reserve, record_attempt}
use aegis_agent_platform.Gateway.Repository.Settlement.{
  succeed, record_usage_failure, record_attempt_failure, fail,
}
use aegis_agent_platform.Gateway.Repository.Totals.{
  GrowsBy, GrowsBy-same, GrowsBy-hold, GrowsBy-settle,
}
use aegis_agent_platform.Gateway.Repository.Guards.{IsHeld, granted, reserve-Outcome}
use aegis_agent_platform.Gateway.Repository.Outcomes.{
  record_attempt-Outcome, record_attempt_failure-Outcome, succeed-Outcome,
  record_usage_failure-Outcome, fail-Outcome,
}

-- The caller's copy of a reservation is the stored one.
abbrev pub IsStored : Repository → BudgetReservation → Type 0
IsStored s r = lookup r.reservation_id s.reservations ≡ some r

held_active : (s : Repository) (r : BudgetReservation) → IsStored s r → IsHeld s r → r.active ≡ true
held_active s r h k = ground (arith, h, k.found, k.holds)

module _ (host : Host) (context : Name) (request : ModelRequest) (lease : WorkLease) (at : Instant)
    (s : Repository) where
  -- `reserve` grows every total by the reserved tokens and cost at most.
  pub reserve-GrowsBy :
      (route : RouteDecision) (quotas : QuotaLimits) (tokens : ℕ) (amount : Amount) (version : Name)
      → GrowsBy tokens amount s
          (reserve host context request lease route quotas tokens amount version at s).1
  unfolding append
  reserve-GrowsBy route quotas tokens amount version =
      elim (reserve-Outcome host context request lease at s route quotas tokens amount version) [
        | refused e q ↦ rw q (GrowsBy-same tokens amount s s refl)
        | done pre q ↦ rw q (
            GrowsBy-hold
              (granted host context request lease at s route quotas tokens amount version) tokens
              amount s _ refl refl (omega arith) (omega arith))
      ]

  -- An attempt moves no total.
  pub record_attempt-GrowsBy :
      (r : BudgetReservation) (provider model : Name) (attempt fallback_index : ℕ)
      → GrowsBy 0 0 s
          (record_attempt host context request lease r provider model attempt fallback_index at s).1
  unfolding append
  record_attempt-GrowsBy r provider model attempt fallback_index =
      elim (record_attempt-Outcome host context request lease at s r provider model attempt
        fallback_index) [
          | refused e q ↦ rw q (GrowsBy-same 0 0 s s refl)
          | done pre q ↦ rw q (GrowsBy-same 0 0 s _ refl)
        ]

  pub record_attempt_failure-GrowsBy :
      (r : BudgetReservation) (error : ModelGatewayError) (provider model : Name)
      (attempt fallback_index : ℕ)
      → GrowsBy 0 0 s
          (record_attempt_failure host context request lease r error provider model attempt
            fallback_index at s).1
  unfolding append
  record_attempt_failure-GrowsBy r error provider model attempt fallback_index =
      elim (record_attempt_failure-Outcome host context request lease at s r error provider model
        attempt fallback_index) [
          | refused e q ↦ rw q (GrowsBy-same 0 0 s s refl)
          | done pre q ↦ rw q (GrowsBy-same 0 0 s _ refl)
        ]

  module _ (r : BudgetReservation) (stored : IsStored s r) where
    -- A success replaces the limits of the reservation by a charge that fits them.
    pub succeed-GrowsBy :
        (response : ModelResponse) (pricing : PricingVersion)
        → GrowsBy 0 0 s (succeed host context request lease r response pricing at s).1
    unfolding append
    succeed-GrowsBy response pricing =
        elim (succeed-Outcome host context request lease at s r response pricing) [
          | refused e q ↦ rw q (GrowsBy-same 0 0 s s refl)
          | done (scope, within, held, fenced) q ↦ rw q (
              GrowsBy-settle _ 0 0 s _ refl r stored (held_active s r stored held) refl refl refl
                (omega (arith, within.of_tokens)) (omega (arith, within.of_cost)))
        ]

    -- A failure after the use grows a total by what was used beyond the reservation.
    pub record_usage_failure-GrowsBy :
        (response : ModelResponse) (pricing : PricingVersion) (error : ModelGatewayError)
        → GrowsBy
            ((usage_totals pricing response).0 - r.token_limit)
            ((usage_totals pricing response).1 - r.cost_limit_usd)
            s
            (record_usage_failure host context request lease r response pricing error at s).1
    unfolding append
    record_usage_failure-GrowsBy response pricing error =
        elim (record_usage_failure-Outcome host context request lease at s r response pricing
          error) [
            | refused e q ↦ rw q (GrowsBy-same _ _ s s refl)
            | done (scope, held, fenced) q ↦ rw q (
                GrowsBy-settle _ _ _ s _ refl r stored (held_active s r stored held) refl refl refl
                  (omega arith) (omega arith))
          ]

    pub fail-GrowsBy :
        (error : ModelGatewayError) → GrowsBy 0 0 s (fail host context request lease r error at s).1
    unfolding append
    fail-GrowsBy error = elim (fail-Outcome host context request lease at s r error) [
      | refused e q ↦ rw q (GrowsBy-same 0 0 s s refl)
      | done (scope, held, fenced) q ↦ rw q (
          GrowsBy-settle _ 0 0 s _ refl r stored (held_active s r stored held) refl refl refl
            (omega arith) (omega arith))
    ]
