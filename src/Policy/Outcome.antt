-- ===== src/Policy/Outcome.antt =====
-- What the policy evaluator decides, and what the policy repository hands out.
use aegis_agent_platform.Prelude.{
  String, ◌+◌, ◌≤◌, ◌<◌, ◌≡◌, ◌≢◌, ◌↔◌, refl, true, false, none, some, List, [], ◌∷◌, arith, not,
  ◌||◌, ◌==◌, contains, if◌then◌else◌, ok, Dict, lookup, insert, lookup-insert, nat_eq, Bool-cases,
  ==_iff, inl, inr, All, lookup-insert_self,
}
use aegis_agent_platform.Domain.Events.{Name}
use aegis_agent_platform.Policy.{
  allow, deny, require_approval, risk_value, TenantPolicy, PolicyRequest, QuotaUsage, decided,
  sorted_by_value, denials, requires_approval, conclude, evaluate, load_policies, get_policy,
}

-- What a request that is not denied satisfies.
pub record Conforms (context : Name) (policy : TenantPolicy) (request : PolicyRequest)
    (usage : QuotaUsage) : Type 0 where
  pub same_policy : policy.tenant_id ≡ context
  pub same_request : request.tenant_id ≡ context
  pub same_usage : usage.tenant_id ≡ context
  pub model : contains request.model policy.allowed_models ≡ true
  pub tool : contains request.tool policy.allowed_tools ≡ true
  pub connector : contains request.connector policy.allowed_connectors ≡ true
  pub environment : contains request.environment policy.allowed_environments ≡ true
  pub risk : risk_value request.risk ≤ risk_value policy.max_risk
  pub run_tokens : request.estimated_tokens ≤ policy.quotas.max_run_tokens
  pub run_cost : request.estimated_cost_usd ≤ policy.quotas.max_run_cost_usd
  pub tenant_tokens :
      usage.tenant_tokens_used + request.estimated_tokens
      ≤ policy.quotas.max_tenant_tokens_per_period
  pub tenant_cost :
      usage.tenant_cost_usd + request.estimated_cost_usd
      ≤ policy.quotas.max_tenant_cost_usd_per_period
  pub concurrency : usage.active_runs < policy.quotas.max_concurrent_runs

module _ (context : Name) (policy : TenantPolicy) (request : PolicyRequest)
    (usage : QuotaUsage) where
  denials-Conforms :
      policy.tenant_id ≡ context
      → request.tenant_id ≡ context
      → usage.tenant_id ≡ context
      → denials policy request usage ≡ []
      → Conforms context policy request usage
  unfolding denials
  denials-Conforms a b c h = ground arith

  Conforms-denials : Conforms context policy request usage → denials policy request usage ≡ []
  unfolding denials
  Conforms-denials h = ground arith

  conclude-ne-deny : (rs : List String) → (conclude policy request rs).decision ≢ deny → rs ≡ []
  unfolding conclude
  conclude-ne-deny [] h = refl
  conclude-ne-deny (r ∷ rs) h = absurd (h refl)

  evaluate_cases :
      (evaluate context policy request usage).decision ≢ deny
      → (policy.tenant_id ≡ context)
        × (request.tenant_id ≡ context)
        × (usage.tenant_id ≡ context)
        × ((conclude policy request (denials policy request usage)).decision ≢ deny)
  unfolding evaluate
  evaluate_cases h =
      elim (Bool-cases (
        not (policy.tenant_id == context)
        || not (request.tenant_id == context)
        || not (usage.tenant_id == context))) [
          | inl foreign ↦ absurd (h (rw foreign))
          | inr home ↦ (ground arith, ground arith, ground arith, rw home at h)
        ]

  -- Within its limits a request is allowed, or held for approval by the policy's approvers.
  pub evaluate_open :
      Conforms context policy request usage
      → evaluate context policy request usage ≡ (
          if requires_approval policy request
          then decided require_approval
              ("approval_required" ∷ [])
              policy
              (sorted_by_value policy.approver_roles)
          else decided allow ("policy_allowed" ∷ []) policy [])
  unfolding evaluate conclude
  evaluate_open h =
      let home : (not (policy.tenant_id == context)
            || not (request.tenant_id == context)
            || not (usage.tenant_id == context))
          ≡ false =
        ground (arith, h.same_policy, h.same_request, h.same_usage) in
      rw (home, Conforms-denials h)

  open-ne-deny :
      Conforms context policy request usage
      → (evaluate context policy request usage).decision ≢ deny
  open-ne-deny h e = ground (arith, evaluate_open h)

  -- A decision other than a denial is made exactly for the requests that conform: same tenant,
  -- every selector on its allowlist, risk, tokens, cost and concurrency within the limits.
  pub evaluate-Conforms :
      (evaluate context policy request usage).decision ≢ deny
      ↔ Conforms context policy request usage
  evaluate-Conforms = (
    λ h.
        let (a, b, c, d) = evaluate_cases h in
        denials-Conforms a b c (conclude-ne-deny (denials policy request usage) d),
    open-ne-deny,
  )

load_step :
    (q : TenantPolicy) (ps : List TenantPolicy) (loaded d : Dict Name TenantPolicy)
    → load_policies (q ∷ ps) loaded ≡ ok d
    → (lookup q.tenant_id loaded ≡ none) × (load_policies ps (insert q.tenant_id q loaded) ≡ ok d)
unfolding load_policies
load_step q ps loaded d h = (ground arith, ground arith)

-- A loaded policy stays, since a later one of the same tenant is refused.
load-keeps :
    (ps : List TenantPolicy) (loaded d : Dict Name TenantPolicy)
    → load_policies ps loaded ≡ ok d
    → (t : Name) (p : TenantPolicy) → lookup t loaded ≡ some p
    → lookup t d ≡ some p
unfolding load_policies
load-keeps [] loaded d h t p k = ground arith
load-keeps (q ∷ ps) loaded d h t p k =
    let (free, rest) = load_step q ps loaded d h in
    load-keeps ps (insert q.tenant_id q loaded) d rest t p
      (ground (arith, lookup-insert t q.tenant_id q loaded, ==_iff t q.tenant_id))

load-finds :
    (ps : List TenantPolicy) (loaded d : Dict Name TenantPolicy)
    → load_policies ps loaded ≡ ok d
    → All (λ p. get_policy d p.tenant_id ≡ some p) ps
unfolding get_policy
load-finds [] loaded d h = tt
load-finds (q ∷ ps) loaded d h =
    let (free, rest) = load_step q ps loaded d h in
    (
      load-keeps ps (insert q.tenant_id q loaded) d rest q.tenant_id q
          (lookup-insert_self q.tenant_id q loaded),
      load-finds ps (insert q.tenant_id q loaded) d rest,
    )

load-own :
    (ps : List TenantPolicy) (loaded d : Dict Name TenantPolicy)
    → load_policies ps loaded ≡ ok d
    → ((t : Name) (p : TenantPolicy) → lookup t loaded ≡ some p → p.tenant_id ≡ t)
    → (t : Name) (p : TenantPolicy) → lookup t d ≡ some p
    → p.tenant_id ≡ t
unfolding load_policies
load-own [] loaded d h own t p k = own t p (ground arith)
load-own (q ∷ ps) loaded d h own t p k =
    load-own ps (insert q.tenant_id q loaded) d (load_step q ps loaded d h).1
      (λ u r e. ground (arith, own u r, lookup-insert u q.tenant_id q loaded, ==_iff u q.tenant_id))
      t p k

-- A repository that loads hands every tenant its own policy: each policy that was given is found
-- under its tenant, and whatever is found under a tenant is a policy of that tenant.
pub get_policy-load_policies :
    (ps : List TenantPolicy) (d : Dict Name TenantPolicy)
    → load_policies ps [] ≡ ok d
    → All (λ p. get_policy d p.tenant_id ≡ some p) ps
      × ((t : Name) (p : TenantPolicy) → get_policy d t ≡ some p → p.tenant_id ≡ t)
unfolding get_policy
get_policy-load_policies ps d h = (load-finds ps [] d h, load-own ps [] d h (λ t p e. cc))
