-- ===== src/Gateway/Catalog/Tests.antt =====
-- The theorems on routing for a catalog of two models.
use mathlib.Core.List.{Mem, mem-cons_self}
use aegis_agent_platform.Prelude.{ℕ, ◌+◌, ◌*◌, ◌≡◌, refl, false, none, [], ◌∷◌, arith, ok, inr}
use aegis_agent_platform.Domain.Events.{Name}
use aegis_agent_platform.Domain.Model.{ModelRequest, ModelIdentity, MessageRole, text_part}
use aegis_agent_platform.Policy.{TenantPolicy, critical, high}
use aegis_agent_platform.Gateway.Catalog.{
  ModelCatalog, ModelCatalogEntry, RouteDecision, by_cost, route, route_requested, route_among,
  route_failures, policy_failures,
}
use aegis_agent_platform.Gateway.Catalog.Routing.{
  Admissible, IsRoute, route-IsRoute, route_complete,
}

abbrev key : ModelIdentity → Name
key m = m.provider * 100 + m.model

abbrev entry : ℕ → ℕ → ModelCatalogEntry
entry model rank = record {
  identity = record { provider = 31; model = model };
  capabilities = record {
    max_context_tokens = 1000;
    max_output_tokens = 100;
    supports_tools = false;
    supports_vision = false;
    supports_structured_output = false;
    supports_reasoning_tokens = false;
    supports_cache_tokens = false;
  };
  pricing = record {
    version = 1;
    effective_at = 0;
    input_per_million_usd = 2;
    output_per_million_usd = 5;
    cache_read_per_million_usd = 1;
    cache_write_per_million_usd = 1;
    reasoning_per_million_usd = 5;
  };
  environments = 60 ∷ [];
  data_residencies = 70 ∷ [];
  provider_retains_data = false;
  cost_rank = rank;
  latency_rank = 0;
  fallback_models = [];
}

abbrev catalog : ModelCatalog
catalog = ((entry 32 5).identity, entry 32 5) ∷ ((entry 33 4).identity, entry 33 4) ∷ []

abbrev policy_1 : TenantPolicy
policy_1 = record {
  tenant_id = 7;
  version = 1;
  allowed_models = 32 ∷ 33 ∷ [];
  allowed_tools = [];
  allowed_connectors = [];
  allowed_environments = 60 ∷ [];
  max_risk = critical;
  approval_from_risk = high;
  tools_requiring_approval = [];
  approver_roles = [];
  quotas = record {
    max_run_tokens = 200;
    max_run_cost_usd = 1000;
    max_tenant_tokens_per_period = 500;
    max_tenant_cost_usd_per_period = 2000;
    max_concurrent_runs = 2;
  };
  allowed_providers = 31 ∷ [];
  allowed_data_residencies = 70 ∷ [];
  allow_provider_retention = false;
}

abbrev request_1 : ModelRequest
request_1 = record {
  request_id = 11;
  tenant_id = 7;
  run_id = 5;
  messages = record { role = MessageRole.user; content = text_part 60 ∷ []; name = none } ∷ [];
  max_output_tokens = 40;
  prompt_token_estimate = 60;
  requested_model = none;
  tools = [];
  response_schema = none;
  temperature = 0;
  timeout = 30000000;
  idempotency_key = 8;
}

-- The cheaper model first.
abbrev decision : RouteDecision
decision = record {
  selected = entry 33 4;
  candidates = entry 33 4 ∷ entry 32 5 ∷ [];
  rationale = "tenant_policy_allowed" ∷ "capabilities_matched" ∷ "cost_preference" ∷ [];
}

route_example : route key request_1 policy_1 60 [] catalog by_cost ≡ ok decision
unfolding route route_requested route_among route_failures policy_failures
route_example = refl

route-IsRoute_example :
    (policy_1.tenant_id ≡ request_1.tenant_id)
    × IsRoute key request_1 policy_1 60 [] by_cost decision
route-IsRoute_example =
    route-IsRoute key request_1 policy_1 60 [] catalog by_cost decision route_example

admissible : Admissible key request_1 policy_1 60 [] (entry 32 5)
admissible = record {
  model = inr refl;
  provider = refl;
  deployed = refl;
  permitted = refl;
  residency = refl;
  retention = λ h. ground (arith, h);
  available = refl;
  context = omega arith;
  output = omega arith;
  tools = λ h. ground (arith, h);
  vision = λ h. ground (arith, h);
  structured = λ h. ground (arith, h);
}

route_complete_example :
    (d : RouteDecision) × (route key request_1 policy_1 60 [] catalog by_cost ≡ ok d)
    × Mem (entry 32 5) d.candidates
route_complete_example =
    route_complete key request_1 policy_1 60 [] catalog by_cost (entry 32 5) refl refl mem-cons_self
      admissible
