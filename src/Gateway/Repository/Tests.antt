-- ===== src/Gateway/Repository/Tests.antt =====
-- The ledger's theorems at concrete calls: a tenant 2, its run 5, a lease of the run and a state.
use aegis_agent_platform.Prelude.{
  ◌≡◌, refl, true, false, none, some, [], ◌∷◌, ok, err, arith, pair_eq, Outcome, Ensures, Returns,
  lookup, Result,
}
use aegis_agent_platform.Domain.Events.{
  model_call_succeeded, model_call_timed_out, model_usage_recorded, model_budget_charged,
  model_budget_released,
}
use aegis_agent_platform.Domain.Work.{WorkLease}
use aegis_agent_platform.Domain.Model.{
  ModelRequest, ModelResponse, ModelGatewayError, PricingVersion, ModelIdentity, MessageRole,
  text_part, FinishReason, SafetyOutcome, ModelErrorClass, billable_tokens, cost,
}
use aegis_agent_platform.Policy.{QuotaLimits}
use aegis_agent_platform.Gateway.Catalog.{RouteDecision, ModelCatalogEntry}
use aegis_agent_platform.Gateway.Repository.{
  Host, BudgetReservation, Repository, active, charged, released, failure_event_type, GatewayFault,
}
use aegis_agent_platform.Gateway.Repository.Operations.{reserve, completed_response}
use aegis_agent_platform.Gateway.Repository.Settlement.{succeed, fail, record_usage_failure}
use aegis_agent_platform.Gateway.Repository.Guards.{
  HoldsLease, SameScope, IsNewKey, FitsBudget, IsHeld, granted,
}
use aegis_agent_platform.Gateway.Repository.Outcomes.{WithinReservation}
use aegis_agent_platform.Gateway.Repository.Digest.{request_content_digest}
use aegis_agent_platform.Gateway.Repository.Effects.{Sets, Ends, Enters}
use aegis_agent_platform.Gateway.Repository.Promises.{
  reserve-Ensures, succeed-Ensures, record_usage_failure-Ensures, fail-Ensures,
}
use aegis_agent_platform.Gateway.Repository.Grants.{reserve-granted, succeed_charged, fail_released}
use aegis_agent_platform.Gateway.Repository.Reachable.{
  WithinQuotas, here, next, hold, Calls-WithinQuotas,
}
use aegis_agent_platform.Gateway.Repository.Duplicates.{
  completed_response-succeed, reserve-succeed, reserve-reserve,
}

abbrev host_1 : Host
host_1 = record { uuid_factory = λ i. i; sha256_json = λ _. 7; month_start = λ _. 0 }

abbrev lease_1 : WorkLease
lease_1 = record {
  work_id = 5;
  tenant_id = 2;
  token = 9;
  generation = 3;
  owner = 4;
  attempt = 1;
  acquired_at = 0;
  heartbeat_at = 10;
  expires_at = 1000;
}

abbrev request_1 : ModelRequest
request_1 = record {
  request_id = 11;
  tenant_id = 2;
  run_id = 5;
  messages = record { role = MessageRole.user; content = text_part 60 ∷ []; name = none } ∷ [];
  max_output_tokens = 40;
  prompt_token_estimate = 60;
  requested_model = none;
  tools = [];
  response_schema = none;
  temperature = 0;
  timeout = 30000000;
  idempotency_key = 8;
}

abbrev model_1 : ModelIdentity
model_1 = record { provider = 31; model = 32 }

abbrev pricing_1 : PricingVersion
pricing_1 = record {
  version = 1;
  effective_at = 0;
  input_per_million_usd = 2;
  output_per_million_usd = 5;
  cache_read_per_million_usd = 1;
  cache_write_per_million_usd = 1;
  reasoning_per_million_usd = 5;
}

abbrev entry_1 : ModelCatalogEntry
entry_1 = record {
  identity = model_1;
  capabilities = record {
    max_context_tokens = 1000;
    max_output_tokens = 100;
    supports_tools = false;
    supports_vision = false;
    supports_structured_output = false;
    supports_reasoning_tokens = false;
    supports_cache_tokens = false;
  };
  pricing = pricing_1;
  environments = [];
  data_residencies = [];
  provider_retains_data = false;
  cost_rank = 0;
  latency_rank = 0;
  fallback_models = [];
}

abbrev route_1 : RouteDecision
route_1 = record { selected = entry_1; candidates = entry_1 ∷ []; rationale = [] }

abbrev quotas_1 : QuotaLimits
quotas_1 = record {
  max_run_tokens = 200;
  max_run_cost_usd = 1000;
  max_tenant_tokens_per_period = 500;
  max_tenant_cost_usd_per_period = 2000;
  max_concurrent_runs = 2;
}

abbrev response_1 : ModelResponse
response_1 = record {
  request_id = 11;
  model = model_1;
  content = text_part 61 ∷ [];
  finish_reason = FinishReason.stop;
  safety = record { outcome = SafetyOutcome.allowed; reason_code = none };
  usage = record {
    input_tokens = 50;
    output_tokens = 20;
    cache_read_tokens = 0;
    cache_write_tokens = 0;
    reasoning_tokens = 0;
  };
  latency_ms = 5;
  provider_request_id = none;
  structured_output = none;
}

abbrev error_1 : ModelGatewayError
error_1 = record {
  error_class = ModelErrorClass.timeout;
  code = "timeout";
  retryable = true;
  retry_after = none;
  billing_ambiguous = true;
}

-- The lease is known and nothing is reserved.
abbrev vacant : Repository
vacant = record {
  active_leases = ((2, 5), lease_1) ∷ [];
  uuid_calls = 0;
  events = [];
  reservations = [];
  inflight = [];
  completed = [];
}

abbrev reservation_1 : BudgetReservation
reservation_1 = record {
  reservation_id = 20;
  tenant_id = 2;
  run_id = 5;
  request_id = 11;
  token_limit = 100;
  cost_limit_usd = 500;
  price_version = 1;
  active = true;
  status = active;
  charged_tokens = 0;
  charged_cost_usd = 0;
  created_at = some 50;
  expires_at = some 1000;
  reconciled_at = none;
}

-- The reservation holds its budget.
abbrev holding : Repository
holding = record vacant { reservations = (20, reservation_1) ∷ []; uuid_calls = 30 }

fence_1 : HoldsLease vacant lease_1 100
fence_1 = record {
  current = lease_1;
  found = refl;
  token = refl;
  generation = refl;
  alive = omega arith;
}

fence_2 : HoldsLease holding lease_1 100
fence_2 = record {
  current = lease_1;
  found = refl;
  token = refl;
  generation = refl;
  alive = omega arith;
}

scope_1 : SameScope 2 request_1 lease_1
scope_1 = record { of_request = refl; of_lease = refl; of_run = refl }

fits_1 : FitsBudget vacant quotas_1 2 5 0 100 500
fits_1 = record {
  of_run_tokens = omega arith;
  of_run_cost = omega arith;
  of_tenant_tokens = omega arith;
  of_tenant_cost = omega arith;
}

within_1 : WithinReservation pricing_1 response_1 reservation_1
unfolding billable_tokens cost
within_1 = record { of_tokens = omega arith; of_cost = omega arith }

IsHeld-1 : IsHeld holding reservation_1
IsHeld-1 = record { stored = reservation_1; found = refl; holds = refl }

vacant-WithinQuotas : WithinQuotas (λ _. quotas_1) 0 vacant
vacant-WithinQuotas = record {
  of_run = λ tenant run. (omega arith, omega arith);
  of_tenant = λ tenant. (omega arith, omega arith);
}

abbrev reserved : Result GatewayFault BudgetReservation × Repository
reserved = reserve host_1 2 request_1 lease_1 route_1 quotas_1 100 500 1 100 vacant

Calls-WithinQuotas_example : WithinQuotas (λ _. quotas_1) 0 reserved.1
Calls-WithinQuotas_example =
    Calls-WithinQuotas {host = host_1} (λ _. quotas_1) 0
      (next here (hold 2 request_1 lease_1 route_1 100 500 1 100 refl refl)) vacant-WithinQuotas

reserve-Ensures_example :
    Ensures (reserve host_1 2 request_1 lease_1 route_1 quotas_1 100 500 1 100) vacant (λ r s'.
      SameScope 2 request_1 lease_1
      × (false ≡ false)
      × HoldsLease vacant lease_1 100
      × IsNewKey vacant request_1
      × FitsBudget vacant quotas_1 2 5 0 100 500
      × Enters 0 7 request_1 lease_1 100 100 500 1 r vacant s')
unfolding request_content_digest
reserve-Ensures_example =
    reserve-Ensures host_1 2 request_1 lease_1 100 vacant route_1 quotas_1 100 500 1

reserve-granted_example :
    Returns
      (reserve host_1 2 request_1 lease_1 route_1 quotas_1 100 500 1 100)
      vacant
      (ok (granted host_1 2 request_1 lease_1 100 vacant route_1 quotas_1 100 500 1))
reserve-granted_example =
    reserve-granted host_1 2 request_1 lease_1 100 vacant route_1 quotas_1 100 500 1 scope_1 refl
      fence_1 (record { not_completed = refl; not_inflight = refl }) fits_1

succeed-Ensures_example :
    Ensures
      (succeed host_1 2 request_1 lease_1 reservation_1 response_1 pricing_1 100)
      holding
      (λ _ s'.
        SameScope 2 request_1 lease_1
        × WithinReservation pricing_1 response_1 reservation_1
        × IsHeld holding reservation_1
        × HoldsLease holding lease_1 100
        × Ends request_1 lease_1 100 reservation_1 charged 70 200
            (model_call_succeeded ∷ model_usage_recorded ∷ model_budget_charged
              ∷ model_budget_released ∷ [])
            holding
            s'
        × Sets lookup (2, 8) (some (7, response_1)) holding.completed s'.completed)
unfolding request_content_digest billable_tokens cost
succeed-Ensures_example =
    succeed-Ensures host_1 2 request_1 lease_1 100 holding reservation_1 response_1 pricing_1

succeed_charged_example :
    Returns
      (succeed host_1 2 request_1 lease_1 reservation_1 response_1 pricing_1 100)
      holding
      (ok tt)
succeed_charged_example =
    succeed_charged host_1 2 request_1 lease_1 100 holding reservation_1 response_1 pricing_1
      scope_1 within_1 IsHeld-1 fence_2

fail_released_example :
    Returns (fail host_1 2 request_1 lease_1 reservation_1 error_1 100) holding (ok tt)
fail_released_example =
    fail_released host_1 2 request_1 lease_1 100 holding reservation_1 error_1 scope_1 IsHeld-1
      fence_2

record_usage_failure-Ensures_example :
    Ensures
      (record_usage_failure host_1 2 request_1 lease_1 reservation_1 response_1 pricing_1 error_1
        100)
      holding
      (λ _ s'.
        SameScope 2 request_1 lease_1
        × IsHeld holding reservation_1
        × HoldsLease holding lease_1 100
        × Ends request_1 lease_1 100 reservation_1 charged 70 200
            (model_call_timed_out ∷ model_usage_recorded ∷ model_budget_charged
              ∷ model_budget_released ∷ [])
            holding
            s'
        × (s'.completed ≡ holding.completed))
unfolding failure_event_type billable_tokens cost
record_usage_failure-Ensures_example =
    record_usage_failure-Ensures host_1 2 request_1 lease_1 100 holding reservation_1 response_1
      pricing_1 error_1

fail-Ensures_example :
    Ensures (fail host_1 2 request_1 lease_1 reservation_1 error_1 100) holding (λ _ s'.
      SameScope 2 request_1 lease_1
      × IsHeld holding reservation_1
      × HoldsLease holding lease_1 100
      × Ends request_1 lease_1 100 reservation_1 released 0 0
          (model_call_timed_out ∷ model_budget_released ∷ [])
          holding
          s'
      × (s'.completed ≡ holding.completed))
unfolding failure_event_type
fail-Ensures_example = fail-Ensures host_1 2 request_1 lease_1 100 holding reservation_1 error_1

-- the holding state after the success
abbrev answered : Repository
answered = (succeed host_1 2 request_1 lease_1 reservation_1 response_1 pricing_1 100 holding).1

charged_1 :
    (succeed host_1 2 request_1 lease_1 reservation_1 response_1 pricing_1 100 holding).0 ≡ ok tt
charged_1 =
    (succeed_charged host_1 2 request_1 lease_1 100 holding reservation_1 response_1 pricing_1
      scope_1 within_1 IsHeld-1 fence_2).value

completed_response-succeed_example :
    Outcome
      (completed_response host_1 2 request_1 lease_1 200)
      answered
      (SameScope 2 request_1 lease_1 × HoldsLease answered lease_1 200)
      (some response_1)
      answered
completed_response-succeed_example =
    completed_response-succeed host_1 2 2 request_1 request_1 lease_1 lease_1 100 200 holding
      reservation_1 response_1 pricing_1 charged_1 (record { key = refl; content = refl })

reserve-succeed_example :
    (e : GatewayFault) × (reserve host_1 2 request_1 lease_1 route_1 quotas_1 1 0 1 200 answered
      ≡ (err e, answered))
reserve-succeed_example =
    reserve-succeed host_1 2 2 request_1 request_1 lease_1 lease_1 100 200 holding reservation_1
      response_1 pricing_1 charged_1 route_1 quotas_1 1 0 1 refl

granted_1 :
    reserved.0 ≡ ok (granted host_1 2 request_1 lease_1 100 vacant route_1 quotas_1 100 500 1)
granted_1 =
    (reserve-granted host_1 2 request_1 lease_1 100 vacant route_1 quotas_1 100 500 1 scope_1 refl
      fence_1 (record { not_completed = refl; not_inflight = refl }) fits_1).value

reserve-reserve_example :
    (e : GatewayFault) × (reserve host_1 2 request_1 lease_1 route_1 quotas_1 1 0 1 200 reserved.1
      ≡ (err e, reserved.1))
reserve-reserve_example =
    reserve-reserve host_1 2 2 request_1 request_1 lease_1 lease_1 100 200 vacant route_1 route_1
      quotas_1 quotas_1 100 1 500 0 1 1
      (granted host_1 2 request_1 lease_1 100 vacant route_1 quotas_1 100 500 1) granted_1 refl
