-- ===== src/Gateway/Catalog/Routing.antt =====
-- What a decision of `ModelRouter.route` guarantees.
use mathlib.Core.List.{Mem, not-mem-nil}
use mathlib.Core.List.Perm
use aegis_agent_platform.Prelude.{
  String, ◌+◌, ◌≤◌, ◌≡◌, ◌⊎◌, inl, inr, refl, Bool, true, false, Option, none, some, List, [], ◌∷◌,
  ◌++◌, arith, leb, any_by, filter_by, contains, ok, Result-cases, values, is_some, sorted, All,
  IsSorted, sorted-All, sorted-perm, sorted-IsSorted,
}
use aegis_agent_platform.Domain.Events.{Name}
use aegis_agent_platform.Domain.Model.{ModelIdentity, ModelRequest, is_empty}
use aegis_agent_platform.Policy.{TenantPolicy}
use aegis_agent_platform.Gateway.Catalog.{
  ModelCatalogEntry, ModelCatalog, RouteDecision, RoutePreference, same_model, uses_vision, key_le,
  entries, policy_failures, route_failures, is_eligible, choose, route_among, route_requested,
  preference_reason, route, get_entry,
}
use aegis_agent_platform.Gateway.Catalog.Preference.{
  key_le_total, key_le_trans, All-filter_by, All-map, mem-filter_by,
}

module _ (catalog_key : ModelIdentity → Name) (request : ModelRequest) (policy : TenantPolicy)
    (environment : Name) (unavailable : List ModelIdentity) where
  -- What tenant policy, capabilities and runtime health demand of a model that is called.
  pub record Admissible (entry : ModelCatalogEntry) : Type 0 where
    pub model :
        (contains (catalog_key entry.identity) policy.allowed_models ≡ true)
        ⊎ (contains entry.identity.model policy.allowed_models ≡ true)
    pub provider : contains entry.identity.provider policy.allowed_providers ≡ true
    pub deployed : contains environment entry.environments ≡ true
    pub permitted : contains environment policy.allowed_environments ≡ true
    pub residency :
        any_by (λ r. contains r policy.allowed_data_residencies) entry.data_residencies ≡ true
    pub retention : entry.provider_retains_data ≡ true → policy.allow_provider_retention ≡ true
    pub available : any_by (same_model entry.identity) unavailable ≡ false
    pub context :
        request.prompt_token_estimate + request.max_output_tokens
        ≤ entry.capabilities.max_context_tokens
    pub output : request.max_output_tokens ≤ entry.capabilities.max_output_tokens
    pub tools : is_empty request.tools ≡ false → entry.capabilities.supports_tools ≡ true
    pub vision : uses_vision request ≡ true → entry.capabilities.supports_vision ≡ true
    pub structured :
        is_some request.response_schema ≡ true
        → entry.capabilities.supports_structured_output ≡ true

  eligible : ModelCatalogEntry → Bool
  eligible = is_eligible catalog_key request policy environment unavailable

  eligible-Admissible : (e : ModelCatalogEntry) → eligible e ≡ true → Admissible e
  unfolding eligible route_failures policy_failures
  eligible-Admissible e h = record {
    model = ground arith;
    provider = ground arith;
    deployed = ground arith;
    permitted = ground arith;
    residency = ground arith;
    retention = ground arith;
    available = ground arith;
    context = ground arith;
    output = ground arith;
    tools = ground arith;
    vision = ground arith;
    structured = ground arith;
  }

  Admissible-eligible : (e : ModelCatalogEntry) → Admissible e → eligible e ≡ true
  unfolding eligible route_failures policy_failures
  Admissible-eligible e h = ground arith

  -- A decision made among some entries: they are admissible, the selected one is first, and the
  -- order is that of the preference.
  pub record IsRoute (preference : RoutePreference) (d : RouteDecision) : Type 0 where
    pub admissible : All Admissible d.candidates
    pub ordered : IsSorted (key_le preference) d.candidates
    pub first : (rest : List ModelCatalogEntry) × (d.candidates ≡ d.selected ∷ rest)

  ordered_eligible : RoutePreference → List ModelCatalogEntry → List ModelCatalogEntry
  ordered_eligible preference es = sorted (key_le preference) (filter_by eligible es)

  choose-IsRoute :
      (preference : RoutePreference) (reasons : List String) (es cs : List ModelCatalogEntry)
      {d : RouteDecision}
      → All Admissible cs
      → IsSorted (key_le preference) cs
      → choose catalog_key request policy environment unavailable preference reasons es cs ≡ ok d
      → IsRoute preference d × (d.candidates ≡ cs)
  choose-IsRoute preference reasons es [] a o h = cc
  choose-IsRoute preference reasons es (c ∷ cs) {d} a o h =
      let same : d.candidates ≡ c ∷ cs = ground arith in
      let head : d.selected ≡ c = ground arith in
      (record { admissible = rw same a; ordered = rw same o; first = (cs, rw head same) }, same)

  route_among-IsRoute :
      (preference : RoutePreference) (reasons : List String) (es : List ModelCatalogEntry)
      {d : RouteDecision}
      → route_among catalog_key request policy environment unavailable preference reasons es ≡ ok d
      → IsRoute preference d × (d.candidates ≡ ordered_eligible preference es)
  unfolding route_among ordered_eligible eligible
  route_among-IsRoute preference reasons es h =
      choose-IsRoute preference reasons es (ordered_eligible preference es)
        (sorted-All (key_le preference) Admissible (filter_by eligible es)
          (All-map eligible-Admissible (filter_by eligible es) (All-filter_by eligible es)))
        (sorted-IsSorted (key_le preference) (key_le_total preference) (key_le_trans preference)
          (filter_by eligible es))
        h

  route_requested-IsRoute :
      (catalog : ModelCatalog) (preference : RoutePreference) (m : Option ModelIdentity)
      {d : RouteDecision}
      → route_requested catalog_key request policy environment unavailable preference catalog m
        ≡ ok d
      → IsRoute preference d
  unfolding route_requested
  route_requested-IsRoute catalog preference none h =
      (route_among-IsRoute preference [] (entries catalog_key catalog) h).0
  route_requested-IsRoute catalog preference (some m) h =
      elim (Result-cases (get_entry catalog m)) [
        | inl (e, found) ↦
            (route_among-IsRoute preference ("explicit_model" ∷ []) (e ∷ []) (ground arith)).0
        | inr (x, missing) ↦ absurd (ground arith)
      ]

  choose_complete :
      (preference : RoutePreference) (reasons : List String) (es cs : List ModelCatalogEntry)
      (e : ModelCatalogEntry)
      → Mem e cs
      → (d : RouteDecision) × (choose catalog_key request policy environment unavailable preference
            reasons es cs
          ≡ ok d)
        × Mem e d.candidates
  choose_complete preference reasons es [] e m = absurd (not-mem-nil m)
  choose_complete preference reasons es (c ∷ cs) e m = (
    record {
      selected = c;
      candidates = c ∷ cs;
      rationale =
          reasons
          ++ "tenant_policy_allowed" ∷ "capabilities_matched" ∷ preference_reason preference ∷ [];
    },
    refl,
    m,
  )

  route_among_complete :
      (preference : RoutePreference) (reasons : List String) (es : List ModelCatalogEntry)
      (e : ModelCatalogEntry)
      → Mem e es
      → Admissible e
      → (d : RouteDecision) × (route_among catalog_key request policy environment unavailable
            preference reasons es
          ≡ ok d)
        × Mem e d.candidates
  unfolding route_among eligible
  route_among_complete preference reasons es e m a =
      choose_complete preference reasons es (sorted (key_le preference) (filter_by eligible es)) e (
        (Perm.mem_iff (sorted-perm (key_le preference) (filter_by eligible es))).1
          (mem-filter_by eligible e es (Admissible-eligible e a) m))

  -- A route exists only within the request's tenant. Every candidate is admissible under the
  -- policy, the capabilities and the health that were given; the candidates stand in the order of
  -- the preference, the selected model first.
  pub route-IsRoute :
      (catalog : ModelCatalog) (preference : RoutePreference) (d : RouteDecision)
      → route catalog_key request policy environment unavailable catalog preference ≡ ok d
      → (policy.tenant_id ≡ request.tenant_id) × IsRoute preference d
  unfolding route route_requested
  route-IsRoute catalog preference d h = (
    ground arith,
    route_requested-IsRoute catalog preference request.requested_model (ground arith),
  )

  -- For a request of the policy's tenant without a requested model, each admissible model of the
  -- catalog is a candidate of a route, so the request is denied only if there is none.
  pub route_complete :
      (catalog : ModelCatalog) (preference : RoutePreference) (e : ModelCatalogEntry)
      → request.requested_model ≡ none
      → policy.tenant_id ≡ request.tenant_id
      → Mem e (values catalog)
      → Admissible e
      → (d : RouteDecision) × (route catalog_key request policy environment unavailable catalog
            preference
          ≡ ok d)
        × Mem e d.candidates
  unfolding route route_requested
  route_complete catalog preference e no_model same m a =
      let (d, found, held) =
        route_among_complete preference [] (entries catalog_key catalog) e
          ((Perm.mem_iff (
              sorted-perm (λ x y. leb (catalog_key x.identity) (catalog_key y.identity))
                (values catalog))).1
            m)
          a in
      (d, rw (no_model, route_requested) (ground arith), held)
