-- ===== src/Policy/Tests.antt =====
-- The theorems on policies for one tenant.
use aegis_agent_platform.Prelude.{◌≡◌, ◌≢◌, ◌↔◌, refl, false, some, [], ◌∷◌, arith, All, Dict}
use aegis_agent_platform.Domain.Events.{Name}
use aegis_agent_platform.Identity.{approver}
use aegis_agent_platform.Policy.{
  TenantPolicy, PolicyRequest, QuotaUsage, deny, high, critical, evaluate, load_policies,
  get_policy,
}
use aegis_agent_platform.Policy.Outcome.{Conforms, evaluate-Conforms, get_policy-load_policies}

abbrev policy_1 : TenantPolicy
policy_1 = record {
  tenant_id = 7;
  version = 1;
  allowed_models = 30 ∷ [];
  allowed_tools = 40 ∷ [];
  allowed_connectors = 50 ∷ [];
  allowed_environments = 60 ∷ [];
  max_risk = critical;
  approval_from_risk = high;
  tools_requiring_approval = [];
  approver_roles = approver ∷ [];
  quotas = record {
    max_run_tokens = 200;
    max_run_cost_usd = 1000;
    max_tenant_tokens_per_period = 500;
    max_tenant_cost_usd_per_period = 2000;
    max_concurrent_runs = 2;
  };
  allowed_providers = [];
  allowed_data_residencies = [];
  allow_provider_retention = false;
}

abbrev request_1 : PolicyRequest
request_1 = record {
  tenant_id = 7;
  model = 30;
  tool = 40;
  connector = 50;
  environment = 60;
  risk = high;
  estimated_tokens = 100;
  estimated_cost_usd = 10;
}

abbrev usage_1 : QuotaUsage
usage_1 = record { tenant_id = 7; tenant_tokens_used = 300; tenant_cost_usd = 20; active_runs = 1 }

conforms : Conforms 7 policy_1 request_1 usage_1
conforms = record {
  same_policy = refl;
  same_request = refl;
  same_usage = refl;
  model = refl;
  tool = refl;
  connector = refl;
  environment = refl;
  risk = omega arith;
  run_tokens = omega arith;
  run_cost = omega arith;
  tenant_tokens = omega arith;
  tenant_cost = omega arith;
  concurrency = omega arith;
}

evaluate-Conforms_example :
    ((evaluate 7 policy_1 request_1 usage_1).decision ≢ deny)
    ↔ Conforms 7 policy_1 request_1 usage_1
evaluate-Conforms_example = evaluate-Conforms 7 policy_1 request_1 usage_1

abbrev loaded : Dict Name TenantPolicy
loaded = (7, policy_1) ∷ (8, record policy_1 { tenant_id = 8 }) ∷ []

get_policy-load_policies_example :
    All
      (λ p. get_policy loaded p.tenant_id ≡ some p)
      (policy_1 ∷ record policy_1 { tenant_id = 8 } ∷ [])
    × ((t : Name) (p : TenantPolicy) → get_policy loaded t ≡ some p → p.tenant_id ≡ t)
unfolding load_policies
get_policy-load_policies_example =
    get_policy-load_policies (policy_1 ∷ record policy_1 { tenant_id = 8 } ∷ []) loaded refl
