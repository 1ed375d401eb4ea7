-- ===== src/Gateway/Repository.antt =====
-- gateway/repository.py: the state of `InMemoryGatewayRepository` and the helpers of its operations.
-- A lock serialises the operations, so each is one step on the state.
pub mod Digest
pub mod Parts
pub mod Operations
pub mod Settlement
pub mod Totals
pub mod Guards
pub mod Outcomes
pub mod Effects
pub mod Promises
pub mod Grants
pub mod Budget
pub mod Reachable
pub mod Duplicates
mod Tests
use Prim.Native.String.{String}
use aegis_agent_platform.Prelude.{
  ℕ, suc, ◌+◌, ◌*◌, ◌≤◌, max, Bool, true, false, Option, none, some, List, [], ◌∷◌, ◌++◌, not, ◌&&◌,
  ◌||◌, ltb, leb, ◌==◌, sum_by, filter_by, if◌then◌else◌, Result, ok, err, Exec, ◌>>=◌, ◌>>◌, pure,
  raise_if, Dict, lookup, update, nat_eq, pair_eq, string_eq,
}
use aegis_agent_platform.Domain.Events.{
  Name, Uuid, Instant, Amount, JsonValue, Payload, DomainEventType, EventEnvelope,
  model_call_failed, model_call_timed_out, model_call_rate_limited, model_call_cancelled,
}
use aegis_agent_platform.Domain.Work.{WorkLease}
use aegis_agent_platform.Domain.Model.{
  ModelRequest, ModelResponse, ModelGatewayError, ModelErrorClass, TokenUsage, PricingVersion,
  billable_tokens, cost,
}

-- What the repository is given from outside: the i-th value of `uuid_factory`, the number of
-- `sha256(json.dumps(payload, sort_keys=True)).hexdigest()`, and the first instant of the month of
-- an instant, in UTC.
pub record Host : Type 0 where
  pub uuid_factory : ℕ → Uuid
  pub sha256_json : JsonValue → Name
  pub month_start : Instant → Instant

pub data ReservationStatus : Type 0 where
  active charged released : ReservationStatus

pub record BudgetReservation : Type 0 where
  pub reservation_id : Uuid
  pub tenant_id : Name
  pub run_id : Uuid
  pub request_id : Uuid
  pub token_limit : ℕ
  pub cost_limit_usd : Amount
  pub price_version : Name
  pub active : Bool
  pub status : ReservationStatus
  pub charged_tokens : ℕ
  pub charged_cost_usd : Amount
  pub created_at : Option Instant
  pub expires_at : Option Instant
  pub reconciled_at : Option Instant

-- `uuid_calls` counts the calls of `uuid_factory`. The keys of `inflight` and `completed` are the
-- tenant and the idempotency key of a request.
pub record Repository : Type 0 where
  pub active_leases : Dict (ℕ × ℕ) WorkLease
  pub uuid_calls : ℕ
  pub events : List EventEnvelope
  pub reservations : Dict ℕ BudgetReservation
  pub inflight : Dict (ℕ × ℕ) (Uuid × Name)
  pub completed : Dict (ℕ × ℕ) (Name × ModelResponse)

-- The exceptions, `ValueError` and `BudgetDeniedError` with their texts.
pub data GatewayFault : Type 0 where
  value_error : String → GatewayFault
  fencing_error : ℕ → ℕ → GatewayFault
  budget_denied : String → GatewayFault
  duplicate_in_progress : GatewayFault
  model_error : ModelGatewayError → GatewayFault

abbrev pub Action : Type 0 → Type 0
Action A = Exec GatewayFault Repository A

abbrev pub request_key : ModelRequest → ℕ × ℕ
request_key r = (r.tenant_id, r.idempotency_key)

abbrev pub lease_key : WorkLease → ℕ × ℕ
lease_key l = (l.tenant_id, l.work_id)

-- `_validate_request_context`; the context is its tenant.
unfoldable pub validate_request_context : Name → ModelRequest → WorkLease → Action (Unit {0})
validate_request_context context request lease = do
  raise_if (not (context == request.tenant_id) || not (context == lease.tenant_id))
      (value_error "gateway tenant context, request, and lease must match")
  raise_if (not (request.run_id == lease.work_id))
      (value_error "model run must be the fenced work aggregate")

-- The test of `_require_fence`: the generation of the lease that is current, if the test fails.
unfoldable pub fence_fault : Option WorkLease → WorkLease → Instant → Option ℕ
fence_fault none lease at = some 0
fence_fault (some current) lease at =
    if not (current.token == lease.token)
      || not (current.generation == lease.generation)
      || leb current.expires_at at
    then some current.generation
    else none

-- `_require_fence`
unfoldable pub require_fence : WorkLease → Instant → Action (Unit {0})
require_fence lease at s = elim (fence_fault (lookup (lease_key lease) s.active_leases) lease at) [
  | none ↦ (ok tt, s)
  | some generation ↦ (err (fencing_error lease.generation generation), s)
]

unfoldable pub is_active : Option BudgetReservation → Bool
is_active none = false
is_active (some r) = r.active

-- `_require_active`
unfoldable pub require_active : BudgetReservation → Action (Unit {0})
require_active reservation s = (
  if is_active (lookup reservation.reservation_id s.reservations)
      then ok tt
      else err (value_error "budget reservation is not active"),
  s,
)

-- The number of events of an aggregate.
abbrev pub count_events : Uuid → List EventEnvelope → ℕ
count_events aggregate events = sum_by (λ e. if e.aggregate_id == aggregate then 1 else 0) events

abbrev pub Details : Type 0
Details = DomainEventType × Payload

-- One event of `_append`.
abbrev pub envelope :
    Uuid → ModelRequest → WorkLease → Instant → ℕ → Option Uuid → Details → EventEnvelope
envelope event_id request lease at sequence causation (event_type, details) = record {
  event_id = event_id;
  tenant_id = request.tenant_id;
  aggregate_id = lease.work_id;
  event_type = event_type;
  schema_version = 1;
  occurred_at = at;
  payload = update details (
      ("work_id", JsonValue.uuid lease.work_id)
      ∷ ("run_id", JsonValue.uuid request.run_id)
      ∷ ("lease_token", JsonValue.uuid lease.token)
      ∷ ("lease_generation", JsonValue.int lease.generation)
      ∷ []);
  correlation_id = some request.run_id;
  causation_id = causation;
  aggregate_sequence = sequence;
  global_position = none;
  idempotency_key =
      some (record { request_key = request.idempotency_key; kind = event_type; number = sequence });
  previous_aggregate_sequence = none;
}

module _ (host : Host) where
  -- The events that the loop of `_append` makes, from the number of `uuid_factory` calls on.
  abbrev pub envelopes :
      ModelRequest → WorkLease → Instant → ℕ → ℕ → Option Uuid → List Details → List EventEnvelope
  envelopes request lease at calls sequence causation [] = []
  envelopes request lease at calls sequence causation (d ∷ ds) =
      let event_id = host.uuid_factory calls in
      envelope event_id request lease at (suc sequence) causation d
      ∷ envelopes request lease at (suc calls) (suc sequence) (some event_id) ds

  abbrev count_details : List Details → ℕ
  count_details [] = 0
  count_details (_ ∷ ds) = suc (count_details ds)

  -- `_append`; an instant is always timezone-aware.
  unfoldable pub append : ModelRequest → WorkLease → Instant → List Details → Action (Unit {0})
  append request lease at details s = (
    ok tt,
    record s {
      uuid_calls = s.uuid_calls + count_details details;
      events =
          s.events
          ++ envelopes request lease at s.uuid_calls (count_events lease.work_id s.events) none
              details;
    },
  )

-- `_failure_event_type`
unfoldable pub failure_event_type : ModelGatewayError → DomainEventType
failure_event_type error = elim error.error_class [
  | ModelErrorClass.timeout ↦ model_call_timed_out
  | ModelErrorClass.rate_limit ↦ model_call_rate_limited
  | ModelErrorClass.cancelled ↦ model_call_cancelled
  | _ ↦ model_call_failed
]

-- `_usage_totals`
abbrev pub usage_totals : PricingVersion → ModelResponse → ℕ × Amount
usage_totals pricing response = (billable_tokens response.usage, cost pricing response.usage)

-- `_usage_payload`
abbrev pub usage_payload : TokenUsage → Payload
usage_payload usage =
    ("input_tokens", JsonValue.int usage.input_tokens)
    ∷ ("output_tokens", JsonValue.int usage.output_tokens)
    ∷ ("cache_read_tokens", JsonValue.int usage.cache_read_tokens)
    ∷ ("cache_write_tokens", JsonValue.int usage.cache_write_tokens)
    ∷ ("reasoning_tokens", JsonValue.int usage.reasoning_tokens)
    ∷ []

-- `estimate_cost`: the highest rate for every token.
unfoldable pub estimate_cost : PricingVersion → ℕ → ℕ → Amount
estimate_cost p prompt_tokens max_output_tokens =
    (prompt_tokens + max_output_tokens)
    * max p.input_per_million_usd (
        max p.output_per_million_usd (
          max p.cache_read_per_million_usd
            (max p.cache_write_per_million_usd p.reasoning_per_million_usd)))
