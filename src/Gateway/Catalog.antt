-- ===== src/Gateway/Catalog.antt =====
-- gateway/catalog.py: the model catalog and tenant-aware routing.
--
-- `catalog_key` stands for the number of the string `f"{provider}/{model}"`, and names are numbered
-- in the order of their strings.
mod Preference
pub mod Routing
mod Tests
use Prim.Native.String.{String}
use aegis_agent_platform.Prelude.{
  ℕ, ◌+◌, Bool, true, false, Option, none, some, List, [], ◌∷◌, ◌++◌, not, ◌&&◌, ◌||◌, ltb, leb,
  ◌==◌, any_by, filter_by, contains, if◌then◌else◌, Result, ok, err, Dict, lookup, insert, values,
  length, is_some, sorted, Eq, string_eq, ◌≡◌, ◌↔◌, arith,
}
use aegis_agent_platform.Domain.Events.{Name}
use aegis_agent_platform.Domain.Model.{
  ModelCapabilities, ModelIdentity, ModelRequest, ModelMessage, ContentPart, image_part,
  PricingVersion, is_empty,
}
use aegis_agent_platform.Policy.{TenantPolicy, add_if}

pub data RoutePreference : Type 0 where
  by_cost by_latency : RoutePreference

abbrev pub same_model : ModelIdentity → ModelIdentity → Bool
same_model a b = a.provider == b.provider && a.model == b.model

pub same_model_iff : (a b : ModelIdentity) → (same_model a b ≡ true) ↔ (a ≡ b)
same_model_iff a b = (λ h. ground arith, λ h. ground arith)

instance abbrev pub identity_eq : Eq ModelIdentity
identity_eq = record { beq = same_model; beq_iff = same_model_iff }

pub record ModelCatalogEntry : Type 0 where
  pub identity : ModelIdentity
  pub capabilities : ModelCapabilities
  pub pricing : PricingVersion
  pub environments : List Name
  pub data_residencies : List Name
  pub provider_retains_data : Bool
  pub cost_rank : ℕ
  pub latency_rank : ℕ
  pub fallback_models : List ModelIdentity

pub data CatalogFault : Type 0 where
  duplicate_identity : CatalogFault
  unknown_model : ModelIdentity → CatalogFault
  route_denied : List String → CatalogFault

abbrev pub ModelCatalog : Type 0
ModelCatalog = Dict ModelIdentity ModelCatalogEntry

-- `{entry.identity: entry for entry in entries}`
abbrev by_identity : List ModelCatalogEntry → ModelCatalog → ModelCatalog
by_identity [] d = d
by_identity (e ∷ es) d = by_identity es (insert e.identity e d)

-- `ModelCatalog.__init__`
unfoldable pub catalog_of : List ModelCatalogEntry → Result CatalogFault ModelCatalog
catalog_of es =
    let d = by_identity es [] in if length d == length es then ok d else err duplicate_identity

-- `ModelCatalog.get`
unfoldable pub get_entry : ModelCatalog → ModelIdentity → Result CatalogFault ModelCatalogEntry
get_entry d m = elim (lookup m d) [ none ↦ err (unknown_model m) | some e ↦ ok e ]

pub record RouteDecision : Type 0 where
  pub selected : ModelCatalogEntry
  pub candidates : List ModelCatalogEntry
  pub rationale : List String

abbrev is_image : ContentPart → Bool
is_image (image_part _ _) = true
is_image _ = false

-- `_uses_vision`
abbrev pub uses_vision : ModelRequest → Bool
uses_vision r = any_by (λ m. any_by is_image m.content) r.messages

-- Lexicographic order on triples of which the last is an identity.
abbrev pub rank_le : ℕ → ℕ → ModelIdentity → ℕ → ℕ → ModelIdentity → Bool
rank_le a b m a' b' m' =
    ltb a a'
    || (a == a'
        && (ltb b b'
            || (b == b'
                && (ltb m.provider m'.provider
                    || (m.provider == m'.provider && leb m.model m'.model)))))

-- The order by the sort key of `route`.
abbrev pub key_le : RoutePreference → ModelCatalogEntry → ModelCatalogEntry → Bool
key_le by_cost e f =
    rank_le e.cost_rank e.latency_rank e.identity f.cost_rank f.latency_rank f.identity
key_le by_latency e f =
    rank_le e.latency_rank e.cost_rank e.identity f.latency_rank f.cost_rank f.identity

-- The names that `checks` can hold, in the order of their strings.
abbrev pub check_names : List String
check_names =
    "context_limit_exceeded" ∷ "environment_not_allowed" ∷ "model_not_allowed"
    ∷ "output_limit_exceeded" ∷ "provider_not_allowed" ∷ "provider_unavailable"
    ∷ "residency_not_allowed" ∷ "retention_not_allowed" ∷ "structured_output_unsupported"
    ∷ "tools_unsupported" ∷ "vision_unsupported" ∷ []

abbrev pub preference_reason : RoutePreference → String
preference_reason by_cost = "cost_preference"
preference_reason by_latency = "latency_preference"

module _ (catalog_key : ModelIdentity → Name) where
  -- `ModelCatalog.entries`
  abbrev pub entries : ModelCatalog → List ModelCatalogEntry
  entries d = sorted (λ e f. leb (catalog_key e.identity) (catalog_key f.identity)) (values d)

  -- `ModelRouter.policy_failures`
  pub policy_failures : ModelCatalogEntry → TenantPolicy → Name → List String
  policy_failures entry policy environment =
      add_if
        (not (
          contains (catalog_key entry.identity) policy.allowed_models
          || contains entry.identity.model policy.allowed_models))
        "model_not_allowed"
        (add_if (not (contains entry.identity.provider policy.allowed_providers))
          "provider_not_allowed"
          (add_if
            (not (contains environment entry.environments)
              || not (contains environment policy.allowed_environments))
            "environment_not_allowed"
            (add_if
              (not
                (any_by (λ r. contains r policy.allowed_data_residencies) entry.data_residencies))
              "residency_not_allowed"
              (add_if (entry.provider_retains_data && not policy.allow_provider_retention)
                "retention_not_allowed" []))))

  module _ (request : ModelRequest) (policy : TenantPolicy) (environment : Name)
      (unavailable : List ModelIdentity) where
    -- `failures` of one entry in `route`
    pub route_failures : ModelCatalogEntry → List String
    route_failures entry =
        policy_failures entry policy environment
        ++ add_if (any_by (same_model entry.identity) unavailable) "provider_unavailable" (
            add_if
              (ltb entry.capabilities.max_context_tokens
                (request.prompt_token_estimate + request.max_output_tokens))
              "context_limit_exceeded"
              (add_if (ltb entry.capabilities.max_output_tokens request.max_output_tokens)
                "output_limit_exceeded"
                (add_if (not (is_empty request.tools) && not entry.capabilities.supports_tools)
                  "tools_unsupported"
                  (add_if (uses_vision request && not entry.capabilities.supports_vision)
                    "vision_unsupported"
                    (add_if
                      (is_some request.response_schema
                        && not entry.capabilities.supports_structured_output)
                      "structured_output_unsupported" [])))))

    abbrev pub is_eligible : ModelCatalogEntry → Bool
    is_eligible entry = is_empty (route_failures entry)

    -- `tuple(sorted(denied)) or ("no_catalog_candidates",)`
    unfoldable pub denied_reasons : List ModelCatalogEntry → List String
    denied_reasons es =
        let found =
          filter_by (λ name. any_by (λ e. any_by (string_eq.beq name) (route_failures e)) es)
            check_names in
        if is_empty found then "no_catalog_candidates" ∷ [] else found

    -- The decision on the eligible entries in their order.
    abbrev pub choose :
        RoutePreference
        → List String
        → List ModelCatalogEntry
        → List ModelCatalogEntry
        → Result CatalogFault RouteDecision
    choose preference reasons es [] = err (route_denied (denied_reasons es))
    choose preference reasons es (c ∷ cs) = ok (record {
      selected = c;
      candidates = c ∷ cs;
      rationale =
          reasons
          ++ "tenant_policy_allowed" ∷ "capabilities_matched" ∷ preference_reason preference ∷ [];
    })

    pub route_among :
        RoutePreference → List String → List ModelCatalogEntry → Result CatalogFault RouteDecision
    route_among preference reasons es =
        choose preference reasons es (sorted (key_le preference) (filter_by is_eligible es))

    pub route_requested :
        RoutePreference → ModelCatalog → Option ModelIdentity → Result CatalogFault RouteDecision
    route_requested preference catalog none = route_among preference [] (entries catalog)
    route_requested preference catalog (some m) = elim (get_entry catalog m) [
      | ok e ↦ route_among preference ("explicit_model" ∷ []) (e ∷ [])
      | err x ↦ err x
    ]

    -- `ModelRouter.route`
    pub route : ModelCatalog → RoutePreference → Result CatalogFault RouteDecision
    route catalog preference =
        if policy.tenant_id == request.tenant_id
        then route_requested preference catalog request.requested_model
        else err (route_denied ("cross_tenant_policy" ∷ []))
