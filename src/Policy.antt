-- ===== src/Policy.antt =====
-- policy/__init__.py: tenant policies, quotas and the pure policy evaluator. Amounts of money are
-- finite and not negative by type.
pub mod Outcome
mod Tests
use Prim.Native.String.{String}
use aegis_agent_platform.Prelude.{
  ℕ, ◌+◌, Bool, true, false, Option, none, some, List, [], ◌∷◌, ◌++◌, not, ◌&&◌, ◌||◌, ltb, leb,
  ◌==◌, any_by, filter_by, contains, if◌then◌else◌, Result, ok, err, Dict, lookup, insert, is_some,
  nat_eq,
}
use aegis_agent_platform.Domain.Events.{Name, Amount}
use aegis_agent_platform.Identity.{Role, same_role, sorted_roles}

pub data Decision : Type 0 where
  allow deny require_approval : Decision

pub data RiskLevel : Type 0 where
  low medium high critical : RiskLevel

-- The value of the `IntEnum`.
abbrev pub risk_value : RiskLevel → ℕ
risk_value low = 1
risk_value medium = 2
risk_value high = 3
risk_value critical = 4

pub record QuotaLimits : Type 0 where
  pub max_run_tokens : ℕ
  pub max_run_cost_usd : Amount
  pub max_tenant_tokens_per_period : ℕ
  pub max_tenant_cost_usd_per_period : Amount
  pub max_concurrent_runs : ℕ

pub record TenantPolicy : Type 0 where
  pub tenant_id : Name
  pub version : Name
  pub allowed_models : List Name
  pub allowed_tools : List Name
  pub allowed_connectors : List Name
  pub allowed_environments : List Name
  pub max_risk : RiskLevel
  pub approval_from_risk : RiskLevel
  pub tools_requiring_approval : List Name
  pub approver_roles : List Role
  pub quotas : QuotaLimits
  pub allowed_providers : List Name
  pub allowed_data_residencies : List Name
  pub allow_provider_retention : Bool

pub record PolicyRequest : Type 0 where
  pub tenant_id : Name
  pub model : Name
  pub tool : Name
  pub connector : Name
  pub environment : Name
  pub risk : RiskLevel
  pub estimated_tokens : ℕ
  pub estimated_cost_usd : Amount

-- `PolicyRequest.__post_init__`
unfoldable pub policy_request_is_valid : PolicyRequest → Bool
policy_request_is_valid r =
    ltb 0 r.model && ltb 0 r.tool && ltb 0 r.connector && ltb 0 r.environment

pub record QuotaUsage : Type 0 where
  pub tenant_id : Name
  pub tenant_tokens_used : ℕ
  pub tenant_cost_usd : Amount
  pub active_runs : ℕ

pub record PolicyDecision : Type 0 where
  pub decision : Decision
  pub reasons : List String
  pub policy_version : Name
  pub tenant_id : Name
  pub required_approver_roles : List Role

-- `if failed: reasons.append(reason)`
abbrev pub add_if : Bool → String → List String → List String
add_if true reason rest = reason ∷ rest
add_if false reason rest = rest

-- The reasons to deny, in the order in which `evaluate` appends them.
pub denials : TenantPolicy → PolicyRequest → QuotaUsage → List String
denials policy request usage =
    add_if (not (contains request.model policy.allowed_models)) "model_not_allowed" (
      add_if (not (contains request.tool policy.allowed_tools)) "tool_not_allowed" (
        add_if (not (contains request.connector policy.allowed_connectors)) "connector_not_allowed"
          (add_if (not (contains request.environment policy.allowed_environments))
            "environment_not_allowed"
            (add_if (ltb (risk_value policy.max_risk) (risk_value request.risk))
              "risk_threshold_exceeded"
              (add_if (ltb policy.quotas.max_run_tokens request.estimated_tokens)
                "run_token_limit_exceeded"
                (add_if (ltb policy.quotas.max_run_cost_usd request.estimated_cost_usd)
                  "run_cost_limit_exceeded"
                  (add_if
                    (ltb policy.quotas.max_tenant_tokens_per_period
                      (usage.tenant_tokens_used + request.estimated_tokens))
                    "tenant_token_limit_exceeded"
                    (add_if
                      (ltb policy.quotas.max_tenant_cost_usd_per_period
                        (usage.tenant_cost_usd + request.estimated_cost_usd))
                      "tenant_cost_limit_exceeded"
                      (add_if (leb policy.quotas.max_concurrent_runs usage.active_runs)
                        "tenant_concurrency_limit_exceeded" [])))))))))

unfoldable pub requires_approval : TenantPolicy → PolicyRequest → Bool
requires_approval policy request =
    leb (risk_value policy.approval_from_risk) (risk_value request.risk)
    || contains request.tool policy.tools_requiring_approval

-- `tuple(sorted(policy.approver_roles, key=value))`, for a set of roles.
abbrev pub sorted_by_value : List Role → List Role
sorted_by_value roles = filter_by (λ r. any_by (same_role r) roles) sorted_roles

abbrev pub decided : Decision → List String → TenantPolicy → List Role → PolicyDecision
decided decision reasons policy roles = record {
  decision = decision;
  reasons = reasons;
  policy_version = policy.version;
  tenant_id = policy.tenant_id;
  required_approver_roles = roles;
}

-- The end of `evaluate`, on the reasons that were found.
pub conclude : TenantPolicy → PolicyRequest → List String → PolicyDecision
conclude policy request (r ∷ rs) = decided deny (r ∷ rs) policy []
conclude policy request [] =
    if requires_approval policy request
    then decided require_approval ("approval_required" ∷ []) policy
        (sorted_by_value policy.approver_roles)
    else decided allow ("policy_allowed" ∷ []) policy []

-- `PolicyEvaluator.evaluate`; the context is its tenant.
pub evaluate : Name → TenantPolicy → PolicyRequest → QuotaUsage → PolicyDecision
evaluate context policy request usage =
    if not (policy.tenant_id == context)
      || not (request.tenant_id == context)
      || not (usage.tenant_id == context)
    then decided deny ("cross_tenant_policy" ∷ []) policy []
    else conclude policy request (denials policy request usage)

-- `InMemoryPolicyRepository.__init__`: the policies by tenant, or the `ValueError`.
unfoldable pub load_policies :
    List TenantPolicy → Dict Name TenantPolicy → Result String (Dict Name TenantPolicy)
load_policies [] loaded = ok loaded
load_policies (p ∷ ps) loaded =
    let rest = load_policies ps (insert p.tenant_id p loaded) in
    if is_some (lookup p.tenant_id loaded)
    then err "duplicate tenant policy is not allowed"
    else rest

-- `InMemoryPolicyRepository.get`
pub get_policy : Dict Name TenantPolicy → Name → Option TenantPolicy
get_policy policies context = lookup context policies
