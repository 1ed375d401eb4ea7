-- ===== src/Gateway/Repository/Outcomes.antt =====
-- The operations on a reservation are refused as a whole, or go through behind their guards.
use aegis_agent_platform.Prelude.{
  ℕ, ◌≤◌, ◌≡◌, refl, false, [], ◌∷◌, ◌++◌, arith, Result, ok, ltb, ◌>>◌, Outcome, done, after_guard,
  after_raise_if, after_lift, Outcome-map,
}
use aegis_agent_platform.Domain.Events.{Name, Instant, Amount, JsonValue, model_call_succeeded}
use aegis_agent_platform.Domain.Work.{WorkLease}
use aegis_agent_platform.Domain.Model.{
  ModelRequest, ModelResponse, ModelGatewayError, PricingVersion,
}
use aegis_agent_platform.Gateway.Repository.{
  Host, BudgetReservation, charged, released, Repository, GatewayFault, validate_request_context,
  require_fence, require_active, append, usage_totals, failure_event_type,
}
use aegis_agent_platform.Gateway.Repository.Parts.{
  actual_usage, settle, store, drop_inflight, call_details, failure_details,
}
use aegis_agent_platform.Gateway.Repository.Operations.{record_attempt, attempt_details}
use aegis_agent_platform.Gateway.Repository.Settlement.{
  charge_details, success_details, remember, succeed, write_success, record_usage_failure,
  write_usage_failure, record_attempt_failure, attempt_failure_details, fail, write_failure,
  failure_events,
}
use aegis_agent_platform.Gateway.Repository.Guards.{
  HoldsLease, SameScope, IsHeld, validate_same, validate-SameScope, fence_same,
  require_fence-HoldsLease, active_same, require_active-IsHeld, appended,
}

-- The use that was reported stays within the reservation.
pub record WithinReservation (pricing : PricingVersion) (response : ModelResponse)
    (r : BudgetReservation) : Type 0 where
  pub of_tokens : (usage_totals pricing response).0 ≤ r.token_limit
  pub of_cost : (usage_totals pricing response).1 ≤ r.cost_limit_usd

actual_usage-eq :
    (pricing : PricingVersion) (response : ModelResponse) (r : BudgetReservation) (x : ℕ × Amount)
    → actual_usage pricing response r ≡ ok x
    → x ≡ usage_totals pricing response
unfolding actual_usage
actual_usage-eq pricing response r x h = ground arith

actual_usage-WithinReservation :
    (pricing : PricingVersion) (response : ModelResponse) (r : BudgetReservation)
    → actual_usage pricing response r ≡ ok (usage_totals pricing response)
    → WithinReservation pricing response r
unfolding actual_usage
actual_usage-WithinReservation pricing response r h = record {
  of_tokens = ground arith;
  of_cost = ground arith;
}

module _ (host : Host) (context : Name) (request : ModelRequest) (lease : WorkLease) (at : Instant)
    (s : Repository) (r : BudgetReservation) where
  -- `_require_active` and `_require_fence` in front of the writes.
  behind_lease :
      (k : Repository → Result GatewayFault (Unit {0}) × Repository) (s' : Repository)
      → k s ≡ (ok tt, s')
      → Outcome
          (require_active r >> (require_fence lease at >> k))
          s
          (IsHeld s r × (HoldsLease s lease at × Unit {0}))
          tt
          s'
  behind_lease k s' h =
      after_guard (require_active r) _ s (active_same s r) (require_active-IsHeld r s) (
        after_guard (require_fence lease at) k s (fence_same s lease at)
          (require_fence-HoldsLease lease at s) (done tt h))

  -- `_validate_request_context` in front of that.
  behind_scope :
      (m : Repository → Result GatewayFault (Unit {0}) × Repository) {P : Type 0} (s' : Repository)
      → Outcome m s P tt s'
      → Outcome
          (validate_request_context context request lease >> m)
          s
          (SameScope context request lease × P)
          tt
          s'
  behind_scope m s' o =
      after_guard (validate_request_context context request lease) m s
        (validate_same s context request lease) (validate-SameScope context request lease s) o

  -- An attempt is recorded for a live reservation by the holder of the lease.
  pub record_attempt-Outcome :
      (provider model : Name) (attempt fallback_index : ℕ)
      → Outcome
          (record_attempt host context request lease r provider model attempt fallback_index at)
          s
          (SameScope context request lease
            × (ltb attempt 1 ≡ false)
            × IsHeld s r
            × HoldsLease s lease at)
          tt
          (appended host request lease at
            (attempt_details r provider model attempt fallback_index)
            s)
  unfolding record_attempt append
  record_attempt-Outcome provider model attempt fallback_index =
      Outcome-map (λ h. (h.0, h.1.0, h.1.1.0, h.1.1.1.0))
        (behind_scope _ _ (
          after_raise_if (ltb attempt 1) _ _ s (
            behind_lease
              (append host request lease at
                (attempt_details r provider model attempt fallback_index))
              _ refl)))

  -- A failed attempt is recorded under the same guards.
  pub record_attempt_failure-Outcome :
      (error : ModelGatewayError) (provider model : Name) (attempt fallback_index : ℕ)
      → Outcome
          (record_attempt_failure host context request lease r error provider model attempt
            fallback_index at)
          s
          (SameScope context request lease × IsHeld s r × HoldsLease s lease at)
          tt
          (appended host request lease at
            (attempt_failure_details request r error provider model attempt fallback_index)
            s)
  unfolding record_attempt_failure append
  record_attempt_failure-Outcome error provider model attempt fallback_index =
      Outcome-map (λ h. (h.0, h.1.0, h.1.1.0))
        (behind_scope _ _ (
          behind_lease
            (append host request lease at
              (attempt_failure_details request r error provider model attempt fallback_index))
            _ refl))

  module _ (response : ModelResponse) (pricing : PricingVersion) where
    abbrev tokens : ℕ
    tokens = (usage_totals pricing response).0

    abbrev amount : Amount
    amount = (usage_totals pricing response).1

    -- `succeed` charges a use that fits the reservation, and remembers the response.
    pub succeed-Outcome :
        Outcome
          (succeed host context request lease r response pricing at)
          s
          (SameScope context request lease
            × WithinReservation pricing response r
            × IsHeld s r
            × HoldsLease s lease at)
          tt
          (appended host request lease at
            (charge_details r request response pricing tokens amount
              (
                model_call_succeeded,
                call_details r request response pricing ++ success_details response,
              )
              [])
            (drop_inflight request
              (remember host request response (store (settle charged tokens amount at r) s))))
    unfolding succeed append
    succeed-Outcome =
        Outcome-map
          (λ h. (h.0, actual_usage-WithinReservation pricing response r h.1.0, h.1.1.0, h.1.1.1.0))
          (behind_scope _ _ (
            after_lift (actual_usage pricing response r)
              (λ actual.
                require_active r
                >> (require_fence lease at
                    >> write_success host request lease r response pricing actual at))
              (usage_totals pricing response) s (actual_usage-eq pricing response r)
              (behind_lease
                (write_success host request lease r response pricing (usage_totals pricing response)
                  at)
                _ refl)))

    -- `record_usage_failure` charges what was used, also beyond the reservation.
    pub record_usage_failure-Outcome :
        (error : ModelGatewayError)
        → Outcome
            (record_usage_failure host context request lease r response pricing error at)
            s
            (SameScope context request lease × IsHeld s r × HoldsLease s lease at)
            tt
            (appended host request lease at
              (charge_details r request response pricing tokens amount
                (
                  failure_event_type error,
                  call_details r request response pricing ++ failure_details error,
                )
                (("reason", JsonValue.text "validation_failed_after_provider_response") ∷ []))
              (drop_inflight request (store (settle charged tokens amount at r) s)))
    unfolding record_usage_failure append
    record_usage_failure-Outcome error =
        Outcome-map (λ h. (h.0, h.1.0, h.1.1.0))
          (behind_scope _ _ (
            behind_lease
              (write_usage_failure host request lease r response pricing error
                (usage_totals pricing response) at)
              _ refl))

  -- `fail` releases the reservation.
  pub fail-Outcome :
      (error : ModelGatewayError)
      → Outcome
          (fail host context request lease r error at)
          s
          (SameScope context request lease × IsHeld s r × HoldsLease s lease at)
          tt
          (appended host request lease at
            (failure_events request r error)
            (drop_inflight request (store (settle released 0 0 at r) s)))
  unfolding fail append
  fail-Outcome error =
      Outcome-map (λ h. (h.0, h.1.0, h.1.1.0))
        (behind_scope _ _ (behind_lease (write_failure host request lease r error at) _ refl))
