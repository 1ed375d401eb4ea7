-- ===== src/Gateway/Repository/Settlement.antt =====
-- gateway/repository.py: the operations of `InMemoryGatewayRepository` that end a call or an
-- attempt, and the usage summary.
use aegis_agent_platform.Prelude.{
  ℕ, ◌-◌, List, [], ◌∷◌, ◌++◌, ◌&&◌, ◌==◌, sum_by, filter_by, length, ◌>>=◌, ◌>>◌, lift, modify,
  insert, values, pair_eq,
}
use aegis_agent_platform.Domain.Events.{
  Name, Instant, Amount, JsonValue, Payload, model_call_succeeded, model_usage_recorded,
  model_budget_charged, model_budget_released,
}
use aegis_agent_platform.Domain.Work.{WorkLease}
use aegis_agent_platform.Domain.Model.{
  ModelRequest, ModelResponse, ModelGatewayError, PricingVersion, finish_reason_value,
  safety_outcome_value,
}
use aegis_agent_platform.Gateway.Repository.{
  Host, BudgetReservation, charged, released, Repository, Action, request_key,
  validate_request_context, require_fence, require_active, append, Details, failure_event_type,
  usage_totals, usage_payload,
}
use aegis_agent_platform.Gateway.Repository.Digest.{request_content_digest}
use aegis_agent_platform.Gateway.Repository.Parts.{
  is_charged, store, drop_inflight, or_null, settle, failure_details, call_details, actual_usage,
}

-- The events after a use was charged; `first` is the success or the failure, and `reason` goes into
-- the release. `max(limit - actual, 0)` is the subtraction of natural numbers.
abbrev pub charge_details :
    BudgetReservation
    → ModelRequest
    → ModelResponse
    → PricingVersion
    → ℕ
    → Amount
    → Details
    → Payload
    → List Details
charge_details reservation request response pricing tokens amount first reason =
    let details = call_details reservation request response pricing in
    first
    ∷ (
      model_usage_recorded,
      details ++ usage_payload response.usage ++ ("cost_usd", JsonValue.decimal amount) ∷ [],
    )
    ∷ (
      model_budget_charged,
      details ++ ("tokens", JsonValue.int tokens) ∷ ("cost_usd", JsonValue.decimal amount) ∷ [],
    )
    ∷ (
      model_budget_released,
      details
          ++ ("tokens_released", JsonValue.int (reservation.token_limit - tokens))
            ∷ ("cost_released_usd", JsonValue.decimal (reservation.cost_limit_usd - amount))
            ∷ reason,
    )
    ∷ []

-- The payload of `MODEL_CALL_SUCCEEDED` behind the details of the call.
abbrev pub success_details : ModelResponse → Payload
success_details response =
    ("finish_reason", JsonValue.text (finish_reason_value response.finish_reason))
    ∷ ("safety_outcome", JsonValue.text (safety_outcome_value response.safety.outcome))
    ∷ ("latency_ms", JsonValue.int response.latency_ms)
    ∷ ("provider_request_id", or_null response.provider_request_id)
    ∷ []

abbrev pub attempt_failure_details :
    ModelRequest → BudgetReservation → ModelGatewayError → Name → Name → ℕ → ℕ → List Details
attempt_failure_details request reservation error provider model attempt fallback_index =
    (
      failure_event_type error,
      ("reservation_id", JsonValue.uuid reservation.reservation_id)
          ∷ ("request_id", JsonValue.uuid request.request_id)
          ∷ ("provider", JsonValue.name provider)
          ∷ ("model", JsonValue.name model)
          ∷ ("attempt", JsonValue.int attempt)
          ∷ ("fallback_index", JsonValue.int fallback_index)
          ∷ failure_details error,
    )
    ∷ []

-- `details` of `fail`
abbrev pub fail_details : ModelRequest → BudgetReservation → ModelGatewayError → Payload
fail_details request reservation error =
    ("reservation_id", JsonValue.uuid reservation.reservation_id)
    ∷ ("request_id", JsonValue.uuid request.request_id)
    ∷ failure_details error

-- The events of `fail`.
abbrev pub failure_events : ModelRequest → BudgetReservation → ModelGatewayError → List Details
failure_events request reservation error =
    (failure_event_type error, fail_details request reservation error)
    ∷ (
      model_budget_released,
      fail_details request reservation error
          ++ ("tokens_released", JsonValue.int reservation.token_limit)
            ∷ ("cost_released_usd", JsonValue.decimal reservation.cost_limit_usd)
            ∷ ("reason", JsonValue.text "model_call_failed")
            ∷ [],
    )
    ∷ []

module _ (host : Host) where
  -- The write of `succeed` to `_completed`.
  abbrev pub remember : ModelRequest → ModelResponse → Repository → Repository
  remember request response s = record s {
    completed =
        insert (request_key request) (request_content_digest host request, response) s.completed;
  }

  -- The writes of `succeed`, behind its guards.
  abbrev pub write_success :
      ModelRequest
      → WorkLease
      → BudgetReservation
      → ModelResponse
      → PricingVersion
      → ℕ × Amount
      → Instant
      → Action (Unit {0})
  write_success request lease reservation response pricing actual at = do
    modify (store (settle charged actual.0 actual.1 at reservation))
    modify (remember request response)
    modify (drop_inflight request)
    append host request lease at (
        charge_details reservation request response pricing actual.0 actual.1
          (
            model_call_succeeded,
            call_details reservation request response pricing ++ success_details response,
          )
          [])

  unfoldable pub succeed :
      Name
      → ModelRequest
      → WorkLease
      → BudgetReservation
      → ModelResponse
      → PricingVersion
      → Instant
      → Action (Unit {0})
  succeed context request lease reservation response pricing at = do
    validate_request_context context request lease
    actual ← lift (actual_usage pricing response reservation)
    require_active reservation
    require_fence lease at
    write_success request lease reservation response pricing actual at

  -- The writes of `record_usage_failure`, behind its guards.
  abbrev pub write_usage_failure :
      ModelRequest
      → WorkLease
      → BudgetReservation
      → ModelResponse
      → PricingVersion
      → ModelGatewayError
      → ℕ × Amount
      → Instant
      → Action (Unit {0})
  write_usage_failure request lease reservation response pricing error actual at = do
    modify (store (settle charged actual.0 actual.1 at reservation))
    modify (drop_inflight request)
    append host request lease at (
        charge_details reservation request response pricing actual.0 actual.1
          (
            failure_event_type error,
            call_details reservation request response pricing ++ failure_details error,
          )
          (("reason", JsonValue.text "validation_failed_after_provider_response") ∷ []))

  unfoldable pub record_usage_failure :
      Name
      → ModelRequest
      → WorkLease
      → BudgetReservation
      → ModelResponse
      → PricingVersion
      → ModelGatewayError
      → Instant
      → Action (Unit {0})
  record_usage_failure context request lease reservation response pricing error at = do
    validate_request_context context request lease
    require_active reservation
    require_fence lease at
    write_usage_failure request lease reservation response pricing error
        (usage_totals pricing response) at

  unfoldable pub record_attempt_failure :
      Name
      → ModelRequest
      → WorkLease
      → BudgetReservation
      → ModelGatewayError
      → Name
      → Name
      → ℕ
      → ℕ
      → Instant
      → Action (Unit {0})
  record_attempt_failure context request lease reservation error provider model attempt
        fallback_index at =
      do
        validate_request_context context request lease
        require_active reservation
        require_fence lease at
        append host request lease at (
            attempt_failure_details request reservation error provider model attempt fallback_index)

  -- The writes of `fail`, behind its guards.
  abbrev pub write_failure :
      ModelRequest → WorkLease → BudgetReservation → ModelGatewayError → Instant → Action (Unit {0})
  write_failure request lease reservation error at = do
    modify (store (settle released 0 0 at reservation))
    modify (drop_inflight request)
    append host request lease at (failure_events request reservation error)

  unfoldable pub fail :
      Name
      → ModelRequest
      → WorkLease
      → BudgetReservation
      → ModelGatewayError
      → Instant
      → Action (Unit {0})
  fail context request lease reservation error at = do
    validate_request_context context request lease
    require_active reservation
    require_fence lease at
    write_failure request lease reservation error at

pub record UsageSummary : Type 0 where
  pub tokens : ℕ
  pub cost_usd : Amount
  pub calls : ℕ

-- `usage_summary`
unfoldable pub usage_summary : Name → Repository → UsageSummary
usage_summary tenant s =
    let items =
      filter_by (λ r. r.tenant_id == tenant && is_charged r.status) (values s.reservations) in
    record {
      tokens = sum_by (λ r. r.charged_tokens) items;
      cost_usd = sum_by (λ r. r.charged_cost_usd) items;
      calls = length items;
    }
