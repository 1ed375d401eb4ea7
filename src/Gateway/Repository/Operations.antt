-- ===== src/Gateway/Repository/Operations.antt =====
-- gateway/repository.py: the operations of `InMemoryGatewayRepository`.
use aegis_agent_platform.Prelude.{
  ℕ, suc, err, true, Option, none, some, List, [], ◌∷◌, ◌++◌, not, ◌&&◌, ◌||◌, ltb, ◌==◌,
  if◌then◌else◌, is_some, length, ◌>>=◌, ◌>>◌, pure, raise_if, gets, modify, lookup, insert, nat_eq,
  pair_eq,
}
use aegis_agent_platform.Domain.Events.{
  Name, Instant, Amount, JsonValue, Payload, model_route_decided, model_call_requested,
  model_budget_reserved, model_call_started, model_call_attempted, model_fallback_selected,
}
use aegis_agent_platform.Domain.Work.{WorkLease}
use aegis_agent_platform.Domain.Model.{ModelRequest, ModelResponse, is_empty}
use aegis_agent_platform.Policy.{QuotaLimits}
use aegis_agent_platform.Gateway.Catalog.{RouteDecision}
use aegis_agent_platform.Gateway.Repository.{
  Host, BudgetReservation, active, Repository, value_error, duplicate_in_progress, Action,
  request_key, lease_key, validate_request_context, require_fence, require_active, append, Details,
}
use aegis_agent_platform.Gateway.Repository.Digest.{request_content_digest}
use aegis_agent_platform.Gateway.Repository.Parts.{check_budget, texts}

-- `replace_lease`
unfoldable pub replace_lease : WorkLease → Repository → Repository
replace_lease lease s = record s { active_leases = insert (lease_key lease) lease s.active_leases }

abbrev pub stored_response : Option (Name × ModelResponse) → Name → Option ModelResponse
stored_response none digest = none
stored_response (some (d, response)) digest = if d == digest then some response else none

-- `_completed` and `_inflight` in `reserve`: the key must be new.
unfoldable pub require_new_key : ℕ × ℕ → Name → Action (Unit {0})
require_new_key key digest s = elim (lookup key s.completed) [
  | some (d, _) ↦ (
    if d == digest
        then err (value_error "completed duplicate must be read before reservation")
        else err (value_error "idempotency key already belongs to another request"),
    s,
  )
  | none ↦ raise_if (is_some (lookup key s.inflight)) duplicate_in_progress s
]

abbrev pub base_details : ModelRequest → WorkLease → Payload
base_details request lease =
    ("work_id", JsonValue.uuid lease.work_id)
    ∷ ("lease_token", JsonValue.uuid lease.token)
    ∷ ("lease_generation", JsonValue.int lease.generation)
    ∷ ("request_id", JsonValue.uuid request.request_id)
    ∷ []

-- The events of `record_attempt`.
abbrev pub attempt_details : BudgetReservation → Name → Name → ℕ → ℕ → List Details
attempt_details reservation provider model attempt fallback_index =
    (if ltb 0 fallback_index && attempt == 1
      then (
        model_fallback_selected,
        ("provider", JsonValue.name provider)
            ∷ ("model", JsonValue.name model)
            ∷ ("fallback_index", JsonValue.int fallback_index)
            ∷ [],
      )
        ∷ []
      else [])
    ++ (
      (if attempt == 1 && fallback_index == 0 then model_call_started else model_call_attempted),
      ("provider", JsonValue.name provider)
          ∷ ("model", JsonValue.name model)
          ∷ ("attempt", JsonValue.int attempt)
          ∷ ("fallback_index", JsonValue.int fallback_index)
          ∷ ("reservation_id", JsonValue.uuid reservation.reservation_id)
          ∷ [],
    )
      ∷ []

module _ (host : Host) where
  -- The read of `completed`, behind its guards.
  abbrev pub read_completed : Name → ModelRequest → Action (Option ModelResponse)
  read_completed context request = do
    stored ← gets (λ s. lookup (context, request.idempotency_key) s.completed)
    pure (stored_response stored (request_content_digest host request))

  -- `completed`
  unfoldable pub completed_response :
      Name → ModelRequest → WorkLease → Instant → Action (Option ModelResponse)
  completed_response context request lease at = do
    validate_request_context context request lease
    require_fence lease at
    read_completed context request

  -- The reservation that `reserve` makes.
  abbrev pub new_reservation :
      ModelRequest → WorkLease → ℕ → Amount → Name → Instant → Repository → BudgetReservation
  new_reservation request lease token_limit cost_limit_usd price_version at s = record {
    reservation_id = host.uuid_factory s.uuid_calls;
    tenant_id = request.tenant_id;
    run_id = request.run_id;
    request_id = request.request_id;
    token_limit = token_limit;
    cost_limit_usd = cost_limit_usd;
    price_version = price_version;
    active = true;
    status = active;
    charged_tokens = 0;
    charged_cost_usd = 0;
    created_at = some at;
    expires_at = some lease.expires_at;
    reconciled_at = none;
  }

  -- The three events of `reserve`.
  abbrev pub reserve_details :
      ModelRequest → WorkLease → RouteDecision → BudgetReservation → List Details
  reserve_details request lease route reservation =
      (
        model_route_decided,
        base_details request lease
            ++ ("provider", JsonValue.name route.selected.identity.provider)
              ∷ ("model", JsonValue.name route.selected.identity.model)
              ∷ ("candidate_count", JsonValue.int (length route.candidates))
              ∷ ("rationale", JsonValue.array (texts route.rationale))
              ∷ [],
      )
      ∷ (
        model_call_requested,
        base_details request lease
            ++ ("provider", JsonValue.name route.selected.identity.provider)
              ∷ ("model", JsonValue.name route.selected.identity.model)
              ∷ ("message_count", JsonValue.int (length request.messages))
              ∷ ("content_digest", JsonValue.name (request_content_digest host request))
              ∷ ("max_output_tokens", JsonValue.int request.max_output_tokens)
              ∷ ("prompt_token_estimate", JsonValue.int request.prompt_token_estimate)
              ∷ ("has_tools", JsonValue.bool (not (is_empty request.tools)))
              ∷ ("has_structured_output", JsonValue.bool (is_some request.response_schema))
              ∷ ("persistence_policy", JsonValue.text "metadata_and_digest_only")
              ∷ [],
      )
      ∷ (
        model_budget_reserved,
        base_details request lease
            ++ ("reservation_id", JsonValue.uuid reservation.reservation_id)
              ∷ ("token_limit", JsonValue.int reservation.token_limit)
              ∷ ("cost_limit_usd", JsonValue.decimal reservation.cost_limit_usd)
              ∷ ("price_version", JsonValue.name reservation.price_version)
              ∷ [],
      )
      ∷ []

  -- The writes of `reserve` to the reservations and to `_inflight`.
  abbrev pub enter_reservation : ModelRequest → BudgetReservation → Repository → Repository
  enter_reservation request reservation s = record s {
    uuid_calls = suc s.uuid_calls;
    reservations = insert reservation.reservation_id reservation s.reservations;
    inflight =
        insert (request_key request)
          (reservation.reservation_id, request_content_digest host request) s.inflight;
  }

  -- The writes of `reserve`, behind its guards.
  abbrev pub write_reservation :
      ModelRequest
      → WorkLease
      → RouteDecision
      → ℕ
      → Amount
      → Name
      → Instant
      → Action BudgetReservation
  write_reservation request lease route token_limit cost_limit_usd price_version at = do
    reservation ← gets (new_reservation request lease token_limit cost_limit_usd price_version at)
    modify (enter_reservation request reservation)
    append host request lease at (reserve_details request lease route reservation)
    pure reservation

  unfoldable pub reserve :
      Name
      → ModelRequest
      → WorkLease
      → RouteDecision
      → QuotaLimits
      → ℕ
      → Amount
      → Name
      → Instant
      → Action BudgetReservation
  reserve context request lease route quotas token_limit cost_limit_usd price_version at = do
    validate_request_context context request lease
    raise_if (ltb token_limit 1 || price_version == 0)
        (value_error "reservation values and price version are required")
    require_fence lease at
    require_new_key (request_key request) (request_content_digest host request)
    check_budget quotas request.tenant_id request.run_id (host.month_start at) token_limit
        cost_limit_usd
    write_reservation request lease route token_limit cost_limit_usd price_version at

  unfoldable pub record_attempt :
      Name
      → ModelRequest
      → WorkLease
      → BudgetReservation
      → Name
      → Name
      → ℕ
      → ℕ
      → Instant
      → Action (Unit {0})
  record_attempt context request lease reservation provider model attempt fallback_index at = do
    validate_request_context context request lease
    raise_if (ltb attempt 1) (value_error "attempt and fallback index are invalid")
    require_active reservation
    require_fence lease at
    append host request lease at (attempt_details reservation provider model attempt fallback_index)
