-- ===== src/Gateway/Repository/Duplicates.antt =====
-- An idempotency key is charged at most once: what `completed` and `reserve` do after a call.
use aegis_agent_platform.Prelude.{
  ℕ, ◌≡◌, ap, sym, subst, none, some, arith, ok, err, Outcome, refused, done, lookup,
  lookup-insert_self, pair_eq, ==_refl,
}
use aegis_agent_platform.Domain.Events.{Name, Instant, Amount}
use aegis_agent_platform.Domain.Work.{WorkLease}
use aegis_agent_platform.Domain.Model.{ModelRequest, ModelResponse, PricingVersion}
use aegis_agent_platform.Policy.{QuotaLimits}
use aegis_agent_platform.Gateway.Catalog.{RouteDecision}
use aegis_agent_platform.Gateway.Repository.{
  Host, BudgetReservation, Repository, GatewayFault, request_key, append,
}
use aegis_agent_platform.Gateway.Repository.Digest.{content_payload, request_content_digest}
use aegis_agent_platform.Gateway.Repository.Operations.{
  completed_response, reserve, stored_response,
}
use aegis_agent_platform.Gateway.Repository.Settlement.{succeed}
use aegis_agent_platform.Gateway.Repository.Guards.{
  SameScope, HoldsLease, IsNewKey, completed_response-Outcome, reserve-Outcome,
}
use aegis_agent_platform.Gateway.Repository.Outcomes.{succeed-Outcome}

module _ (host : Host) (context : Name) (request : ModelRequest) (lease : WorkLease) (at : Instant)
    (s : Repository) where
  -- A used key stops `reserve`.
  reserve_used :
      (route : RouteDecision) (quotas : QuotaLimits) (tokens : ℕ) (amount : Amount) (version : Name)
      → (IsNewKey s request → ⊥)
      → (e : GatewayFault) × (reserve host context request lease route quotas tokens amount version
            at s
          ≡ (err e, s))
  reserve_used route quotas tokens amount version used =
      elim (reserve-Outcome host context request lease at s route quotas tokens amount version) [
        | refused e q ↦ (e, q)
        | done (scope, given, fenced, fresh, fits) q ↦ absurd (used fresh)
      ]

  remembered :
      (r : BudgetReservation) (response : ModelResponse) (pricing : PricingVersion)
      → (succeed host context request lease r response pricing at s).0 ≡ ok tt
      → lookup
          (request_key request)
          (succeed host context request lease r response pricing at s).1.completed
        ≡ some (request_content_digest host request, response)
  unfolding append
  remembered r response pricing h =
      elim (succeed-Outcome host context request lease at s r response pricing) [
        | refused e q ↦ absurd (cc (ap (λ x. x.0) q))
        | done pre q ↦ rw q (
            lookup-insert_self (request_key request) (request_content_digest host request, response)
              s.completed)
      ]

  inflight_after :
      (route : RouteDecision) (quotas : QuotaLimits) (tokens : ℕ) (amount : Amount) (version : Name)
      (r : BudgetReservation)
      → (reserve host context request lease route quotas tokens amount version at s).0 ≡ ok r
      → lookup
          (request_key request)
          (reserve host context request lease route quotas tokens amount version at s).1.inflight
        ≡ some (host.uuid_factory s.uuid_calls, request_content_digest host request)
  unfolding append
  inflight_after route quotas tokens amount version r h =
      elim (reserve-Outcome host context request lease at s route quotas tokens amount version) [
        | refused e q ↦ absurd (cc (ap (λ x. x.0) q))
        | done pre q ↦ rw q (
            lookup-insert_self (request_key request)
              (host.uuid_factory s.uuid_calls, request_content_digest host request) s.inflight)
      ]

stored_response_self :
    (digest : Name) (response : ModelResponse)
    → stored_response (some (digest, response)) digest ≡ some response
stored_response_self digest response = ground (arith, ==_refl digest)

-- `request'` retries `request`: the same tenant, key and content.
pub record Retries (request' request : ModelRequest) : Type 0 where
  pub key : request_key request' ≡ request_key request
  pub content : content_payload request' ≡ content_payload request

module _ (host : Host) (context context' : Name) (request request' : ModelRequest)
    (lease lease' : WorkLease) (at at' : Instant) (s : Repository) (r : BudgetReservation)
    (response : ModelResponse) (pricing : PricingVersion)
    (charged_once : (succeed host context request lease r response pricing at s).0 ≡ ok tt) where
  abbrev pub settled : Repository
  settled = (succeed host context request lease r response pricing at s).1

  retried :
      Retries request' request
      → SameScope context' request' lease'
      → stored_response
          (lookup (context', request'.idempotency_key) settled.completed)
          (request_content_digest host request')
        ≡ some response
  unfolding request_content_digest
  retried retry scope =
      let same : request_content_digest host request' ≡ request_content_digest host request =
        ap host.sha256_json retry.content in
      let found : lookup (context', request'.idempotency_key) settled.completed
          ≡ some (request_content_digest host request, response) =
        rw scope.of_request (
          subst
            (λ k. lookup k settled.completed ≡ some (request_content_digest host request, response))
            (sym retry.key)
            (remembered host context request lease at s r response pricing charged_once)) in
      rw (same, found) (stored_response_self (request_content_digest host request) response)

  -- After a success, the holder of a lease that asks again under the same key for the same content is answered with
  -- the stored response, and nothing else changes.
  pub completed_response-succeed :
      Retries request' request
      → Outcome
          (completed_response host context' request' lease' at')
          settled
          (SameScope context' request' lease' × HoldsLease settled lease' at')
          (some response)
          settled
  completed_response-succeed retry =
      elim (completed_response-Outcome host context' request' lease' at' settled) [
        | refused e q ↦ refused e q
        | done pre q ↦ done pre (rw (retried retry pre.0) at q)
      ]

  -- After a success a reservation under the same key is refused, whatever the content, the lease
  -- and the quotas, and the state stays as it was.
  pub reserve-succeed :
      (route : RouteDecision) (quotas : QuotaLimits) (tokens : ℕ) (amount : Amount) (version : Name)
      → request_key request' ≡ request_key request
      → (e : GatewayFault) × (reserve host context' request' lease' route quotas tokens amount
            version at' settled
          ≡ (err e, settled))
  reserve-succeed route quotas tokens amount version key =
      reserve_used host context' request' lease' at' settled route quotas tokens amount version
        (λ fresh.
          let gone : lookup (request_key request) settled.completed ≡ none =
            subst (λ k. lookup k settled.completed ≡ none) key fresh.not_completed in
          cc (gone, remembered host context request lease at s r response pricing charged_once))

-- After a reservation its key is refused a second one, whatever the content, the lease, the quotas
-- and the amounts of the second call; the state stays as it was.
pub reserve-reserve :
    (host : Host) (context context' : Name) (request request' : ModelRequest)
    (lease lease' : WorkLease) (at at' : Instant) (s : Repository) (route route' : RouteDecision)
    (quotas quotas' : QuotaLimits) (tokens tokens' : ℕ) (amount amount' : Amount)
    (version version' : Name) (r : BudgetReservation)
    → (reserve host context request lease route quotas tokens amount version at s).0 ≡ ok r
    → request_key request' ≡ request_key request
    → let s' = (reserve host context request lease route quotas tokens amount version at s).1 in
      (e : GatewayFault) × (reserve host context' request' lease' route' quotas' tokens' amount'
          version' at' s'
        ≡ (err e, s'))
reserve-reserve host context context' request request' lease lease' at at' s route route' quotas
      quotas' tokens tokens' amount amount' version version' r h key =
    let s' = (reserve host context request lease route quotas tokens amount version at s).1 in
    reserve_used host context' request' lease' at' s' route' quotas' tokens' amount' version'
      (λ fresh.
        let gone : lookup (request_key request) s'.inflight ≡ none =
          subst (λ k. lookup k s'.inflight ≡ none) key fresh.not_inflight in
        cc (
          gone,
          inflight_after host context request lease at s route quotas tokens amount version r h,
        ))
