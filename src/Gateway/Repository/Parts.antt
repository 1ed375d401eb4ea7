-- ===== src/Gateway/Repository/Parts.antt =====
-- gateway/repository.py: the parts of the operations of `InMemoryGatewayRepository`: the totals that
-- `reserve` compares, the details of the events, and the updates of the state. Integers and amounts
-- are natural numbers, so the tests that one is negative are left out.
use aegis_agent_platform.Prelude.{
  ℕ, ◌+◌, String, Bool, true, false, Option, none, some, List, [], ◌∷◌, ◌&&◌, ltb, leb, ◌==◌,
  sum_by, filter_by, if◌then◌else◌, Result, ok, err, ◌>>◌, raise_if, insert, erase, values, nat_eq,
  pair_eq, string_eq,
}
use aegis_agent_platform.Domain.Events.{Name, Uuid, Instant, Amount, JsonValue, JsonItems, Payload}
use aegis_agent_platform.Domain.Model.{
  ModelRequest, ModelResponse, ModelGatewayError, provider_bug, PricingVersion, error_class_value,
}
use aegis_agent_platform.Policy.{QuotaLimits}
use aegis_agent_platform.Gateway.Repository.{
  BudgetReservation, ReservationStatus, charged, Repository, GatewayFault, budget_denied,
  model_error, Action, request_key, usage_totals,
}

abbrev pub is_charged : ReservationStatus → Bool
is_charged charged = true
is_charged _ = false

-- `item.reconciled_at is not None and item.reconciled_at >= start`
abbrev pub reconciled_since : Instant → Option Instant → Bool
reconciled_since start none = false
reconciled_since start (some t) = leb start t

-- The selections of `reserve`, `active`, `charged`, and `run_charged`.
abbrev pub holds : Name → BudgetReservation → Bool
holds tenant r = r.tenant_id == tenant && r.active

abbrev pub charged_since : Name → Instant → BudgetReservation → Bool
charged_since tenant start r =
    r.tenant_id == tenant && (is_charged r.status && reconciled_since start r.reconciled_at)

abbrev pub charged_for : Name → Uuid → BudgetReservation → Bool
charged_for tenant run r = r.tenant_id == tenant && (r.run_id == run && is_charged r.status)

abbrev pub tenant_tokens : Name → Instant → List BudgetReservation → ℕ
tenant_tokens tenant start rs =
    sum_by (λ r. r.token_limit) (filter_by (holds tenant) rs)
    + sum_by (λ r. r.charged_tokens) (filter_by (charged_since tenant start) rs)

abbrev pub tenant_cost : Name → Instant → List BudgetReservation → Amount
tenant_cost tenant start rs =
    sum_by (λ r. r.cost_limit_usd) (filter_by (holds tenant) rs)
    + sum_by (λ r. r.charged_cost_usd) (filter_by (charged_since tenant start) rs)

abbrev pub run_tokens : Name → Uuid → List BudgetReservation → ℕ
run_tokens tenant run rs =
    sum_by (λ r. r.token_limit) (filter_by (λ r. r.run_id == run) (filter_by (holds tenant) rs))
    + sum_by (λ r. r.charged_tokens) (filter_by (charged_for tenant run) rs)

abbrev pub run_cost : Name → Uuid → List BudgetReservation → Amount
run_cost tenant run rs =
    sum_by (λ r. r.cost_limit_usd) (filter_by (λ r. r.run_id == run) (filter_by (holds tenant) rs))
    + sum_by (λ r. r.charged_cost_usd) (filter_by (charged_for tenant run) rs)

-- The budget tests of `reserve`, in their order.
unfoldable pub check_budget : QuotaLimits → Name → Uuid → Instant → ℕ → Amount → Action (Unit {0})
check_budget quotas tenant run start token_limit cost_limit_usd s =
    let rs = values s.reservations in
    (raise_if (ltb quotas.max_run_tokens (run_tokens tenant run rs + token_limit))
          (budget_denied "run_token_budget_exceeded")
        >> raise_if (ltb quotas.max_run_cost_usd (run_cost tenant run rs + cost_limit_usd))
            (budget_denied "run_cost_budget_exceeded")
        >> raise_if
            (ltb quotas.max_tenant_tokens_per_period (tenant_tokens tenant start rs + token_limit))
            (budget_denied "tenant_token_budget_exceeded")
        >> raise_if
            (ltb quotas.max_tenant_cost_usd_per_period
              (tenant_cost tenant start rs + cost_limit_usd))
            (budget_denied "tenant_cost_budget_exceeded"))
      s

abbrev pub store : BudgetReservation → Repository → Repository
store r s = record s { reservations = insert r.reservation_id r s.reservations }

abbrev pub drop_inflight : ModelRequest → Repository → Repository
drop_inflight request s = record s { inflight = erase (request_key request) s.inflight }

abbrev pub texts : List String → JsonItems
texts [] = JsonItems.nil
texts (x ∷ xs) = JsonItems.cons (JsonValue.text x) (texts xs)

abbrev pub or_null : Option Name → JsonValue
or_null none = JsonValue.null
or_null (some n) = JsonValue.name n

-- `replace(reservation, active=False, status=..., ...)`, as the operations write it out.
abbrev pub settle : ReservationStatus → ℕ → Amount → Instant → BudgetReservation → BudgetReservation
settle status tokens amount at r = record r {
  active = false;
  status = status;
  charged_tokens = tokens;
  charged_cost_usd = amount;
  reconciled_at = some at;
}

abbrev pub failure_details : ModelGatewayError → Payload
failure_details error =
    ("error_class", JsonValue.text (error_class_value error.error_class))
    ∷ ("error_code", JsonValue.text error.code)
    ∷ ("retryable", JsonValue.bool error.retryable)
    ∷ ("billing_ambiguous", JsonValue.bool error.billing_ambiguous)
    ∷ []

unfoldable pub call_details :
    BudgetReservation → ModelRequest → ModelResponse → PricingVersion → Payload
call_details reservation request response pricing =
    ("reservation_id", JsonValue.uuid reservation.reservation_id)
    ∷ ("request_id", JsonValue.uuid request.request_id)
    ∷ ("provider", JsonValue.name response.model.provider)
    ∷ ("model", JsonValue.name response.model.model)
    ∷ ("price_version", JsonValue.name pricing.version)
    ∷ []

-- `_actual_usage`: a use beyond the reservation is an error of the provider.
unfoldable pub actual_usage :
    PricingVersion → ModelResponse → BudgetReservation → Result GatewayFault (ℕ × Amount)
actual_usage pricing response reservation =
    let (tokens, amount) = usage_totals pricing response in
    if ltb reservation.token_limit tokens
    then err (
        model_error (record {
          error_class = provider_bug;
          code = "usage_exceeded_token_reservation";
          retryable = false;
          retry_after = none;
          billing_ambiguous = true;
        }))
    else if ltb reservation.cost_limit_usd amount
    then err (
        model_error (record {
          error_class = provider_bug;
          code = "usage_exceeded_cost_reservation";
          retryable = false;
          retry_after = none;
          billing_ambiguous = true;
        }))
    else ok (tokens, amount)
