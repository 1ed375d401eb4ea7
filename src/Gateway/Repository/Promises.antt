-- ===== src/Gateway/Repository/Promises.antt =====
-- gateway/repository.py: what `reserve`, `succeed`, `record_usage_failure` and `fail` promise their
-- callers.
use aegis_agent_platform.Prelude.{
  ℕ, ◌≡◌, refl, false, ltb, ◌==◌, ◌||◌, some, [], ◌∷◌, ◌++◌, lookup, lookup-insert_self,
  lookup-insert_ne, pair_eq, nat_eq, Ensures, Outcome-Ensures,
}
use aegis_agent_platform.Domain.Events.{
  Name, Instant, Amount, JsonValue, model_call_succeeded, model_usage_recorded,
  model_budget_charged, model_budget_released,
}
use aegis_agent_platform.Domain.Work.{WorkLease}
use aegis_agent_platform.Domain.Model.{
  ModelRequest, ModelResponse, ModelGatewayError, PricingVersion, billable_tokens, cost,
}
use aegis_agent_platform.Policy.{QuotaLimits}
use aegis_agent_platform.Gateway.Catalog.{RouteDecision}
use aegis_agent_platform.Gateway.Repository.{
  Host, BudgetReservation, charged, released, Repository, append, failure_event_type,
}
use aegis_agent_platform.Gateway.Repository.Digest.{request_content_digest}
use aegis_agent_platform.Gateway.Repository.Parts.{call_details, failure_details}
use aegis_agent_platform.Gateway.Repository.Operations.{reserve, reserve_details, enter_reservation}
use aegis_agent_platform.Gateway.Repository.Settlement.{
  succeed, record_usage_failure, fail, charge_details, success_details, failure_events,
}
use aegis_agent_platform.Gateway.Repository.Guards.{
  HoldsLease, SameScope, IsNewKey, FitsBudget, IsHeld, granted, reserve-Outcome,
}
use aegis_agent_platform.Gateway.Repository.Outcomes.{
  WithinReservation, succeed-Outcome, record_usage_failure-Outcome, fail-Outcome,
}
use aegis_agent_platform.Gateway.Repository.Effects.{Sets, Ends, Enters, appended-Adds, ended-Ends}

module _ (host : Host) (context : Name) (request : ModelRequest) (lease : WorkLease) (at : Instant)
    (s : Repository) where
  -- `reserve` raises and changes nothing, or the caller holds the lease in one scope, at least one
  -- token and a price version are asked for, the key is new and the budgets allow the reservation.
  -- The one that is returned has the next identifier, is active and uncharged for the request with
  -- its limits, is stored, and is in flight under the key; the three events follow in the stream of
  -- the work. Other reservations, other keys, the responses and the leases are as they were.
  pub reserve-Ensures :
      (route : RouteDecision) (quotas : QuotaLimits) (tokens : ℕ) (amount : Amount) (version : Name)
      → Ensures
          (reserve host context request lease route quotas tokens amount version at)
          s
          (λ r s'.
            SameScope context request lease
            × ((ltb tokens 1 || version == 0) ≡ false)
            × HoldsLease s lease at
            × IsNewKey s request
            × FitsBudget s quotas request.tenant_id request.run_id
                (host.month_start at)
                tokens
                amount
            × Enters
                (host.uuid_factory s.uuid_calls)
                (request_content_digest host request)
                request
                lease
                at
                tokens
                amount
                version
                r
                s
                s')
  unfolding append
  reserve-Ensures route quotas tokens amount version =
      let r = granted host context request lease at s route quotas tokens amount version in
      Outcome-Ensures _
        (λ (scope, given, fenced, fresh, fits). (
          scope,
          given,
          fenced,
          fresh,
          fits,
          record {
            of_id = refl;
            holds = (refl, refl);
            uncharged = (refl, refl, refl);
            of_owner = (refl, refl, refl);
            of_limits = (refl, refl, refl);
            of_times = (refl, refl);
            stored = record {
              here = lookup-insert_self r.reservation_id r s.reservations;
              elsewhere = λ k h. lookup-insert_ne k r.reservation_id r s.reservations h;
            };
            in_flight = record {
              here = lookup-insert_self _ _ s.inflight;
              elsewhere = λ k h. lookup-insert_ne k _ _ s.inflight h;
            };
            adds =
                appended-Adds host request lease at (reserve_details host request lease route r) s
                  (enter_reservation host request r s) refl;
            same_completed = refl;
            same_leases = refl;
          },
        ))
        (reserve-Outcome host context request lease at s route quotas tokens amount version)

  module _ (r : BudgetReservation) where
    -- `succeed` raises and changes nothing, or the caller holds the lease in one scope and the usage
    -- stays within a held reservation; the reservation is then closed and charged that usage, the
    -- key is not in flight, its entry of the responses is the response with the digest of the
    -- request, and four events are added. Other reservations and keys and the leases are as they
    -- were.
    pub succeed-Ensures :
        (response : ModelResponse) (pricing : PricingVersion)
        → Ensures (succeed host context request lease r response pricing at) s (λ _ s'.
          SameScope context request lease
          × WithinReservation pricing response r
          × IsHeld s r
          × HoldsLease s lease at
          × Ends request lease at r charged
              (billable_tokens response.usage)
              (cost pricing response.usage)
              (model_call_succeeded ∷ model_usage_recorded ∷ model_budget_charged
                ∷ model_budget_released ∷ [])
              s
              s'
          × Sets lookup
              (request.tenant_id, request.idempotency_key)
              (some (request_content_digest host request, response))
              s.completed
              s'.completed)
    unfolding append
    succeed-Ensures response pricing =
        Outcome-Ensures _
          (λ (scope, within, held, fenced). (
            scope,
            within,
            held,
            fenced,
            ended-Ends host request lease at r charged _ _
                (charge_details r request response pricing (billable_tokens response.usage)
                  (cost pricing response.usage)
                  (
                    model_call_succeeded,
                    call_details r request response pricing ++ success_details response,
                  )
                  [])
                s _ refl refl refl refl,
            record {
              here = lookup-insert_self _ _ s.completed;
              elsewhere = λ k h. lookup-insert_ne k _ _ s.completed h;
            },
          ))
          (succeed-Outcome host context request lease at s r response pricing)

    -- `record_usage_failure` raises and changes nothing, or the caller holds the lease in one scope
    -- and the reservation is held; it is then closed and charged the reported usage, the key is not
    -- in flight, and the event of the error and three more are added. Other reservations and keys,
    -- the responses and the leases are as they were.
    pub record_usage_failure-Ensures :
        (response : ModelResponse) (pricing : PricingVersion) (error : ModelGatewayError)
        → Ensures
            (record_usage_failure host context request lease r response pricing error at)
            s
            (λ _ s'.
              SameScope context request lease
              × IsHeld s r
              × HoldsLease s lease at
              × Ends request lease at r charged
                  (billable_tokens response.usage)
                  (cost pricing response.usage)
                  (failure_event_type error
                    ∷ model_usage_recorded
                    ∷ model_budget_charged
                    ∷ model_budget_released
                    ∷ [])
                  s
                  s'
              × (s'.completed ≡ s.completed))
    unfolding append
    record_usage_failure-Ensures response pricing error =
        Outcome-Ensures _
          (λ (scope, held, fenced). (
            scope,
            held,
            fenced,
            ended-Ends host request lease at r charged _ _
                (charge_details r request response pricing (billable_tokens response.usage)
                  (cost pricing response.usage)
                  (
                    failure_event_type error,
                    call_details r request response pricing ++ failure_details error,
                  )
                  (("reason", JsonValue.text "validation_failed_after_provider_response") ∷ []))
                s _ refl refl refl refl,
            refl,
          ))
          (record_usage_failure-Outcome host context request lease at s r response pricing error)

    -- `fail` raises and changes nothing, or the caller holds the lease in one scope and the
    -- reservation is held; it is then closed, released and charged nothing, the key is not in
    -- flight, and the event of the error and the release are added. Other reservations and keys,
    -- the responses and the leases are as they were.
    pub fail-Ensures :
        (error : ModelGatewayError)
        → Ensures (fail host context request lease r error at) s (λ _ s'.
          SameScope context request lease
          × IsHeld s r
          × HoldsLease s lease at
          × Ends request lease at r released 0 0
              (failure_event_type error ∷ model_budget_released ∷ [])
              s
              s'
          × (s'.completed ≡ s.completed))
    unfolding append
    fail-Ensures error =
        Outcome-Ensures _
          (λ (scope, held, fenced). (
            scope,
            held,
            fenced,
            ended-Ends host request lease at r released 0 0 (failure_events request r error) s _
                refl refl refl refl,
            refl,
          ))
          (fail-Outcome host context request lease at s r error)
