-- ===== src/Gateway/Repository/Effects.antt =====
-- What the operations of gateway/repository.py leave behind, read from the fields of the state before
-- and after.
use aegis_agent_platform.Prelude.{
  ℕ, zero, suc, ◌≡◌, ◌≢◌, refl, ap₂, true, false, some, none, List, [], ◌∷◌, ◌++◌, map, length, All,
  Dict, lookup, insert, erase, lookup-insert_self, lookup-insert_ne, lookup-erase_self,
  lookup-erase_ne, pair_eq, nat_eq, Option,
}
use aegis_agent_platform.Domain.Events.{
  Name, Uuid, Instant, Amount, DomainEventType, EventEnvelope, model_route_decided,
  model_call_requested, model_budget_reserved,
}
use aegis_agent_platform.Domain.Work.{WorkLease}
use aegis_agent_platform.Domain.Model.{ModelRequest}
use aegis_agent_platform.Gateway.Repository.{
  Details, Host, BudgetReservation, ReservationStatus, active, Repository, append, envelopes,
  count_events,
}
use aegis_agent_platform.Gateway.Repository.Parts.{settle}
use aegis_agent_platform.Gateway.Repository.Guards.{appended}

-- The entry of `key` is `value`, or is gone, and every other entry is as it was.
pub record Sets {K V : Type 0} (find : K → Dict K V → Option V) (key : K) (value : Option V)
    (before after : Dict K V) : Type 0 where
  pub here : find key after ≡ value
  pub elsewhere : (k : K) → k ≢ key → find k after ≡ find k before

-- The numbers after `n`, as many as are asked for.
abbrev pub upward : ℕ → ℕ → List ℕ
upward n zero = []
upward n (suc k) = suc n ∷ upward (suc n) k

-- The events of the types are appended to the stream of the leased work, at the instant, with
-- the numbers that follow those of the stream.
pub record Adds (tenant : Name) (work : Uuid) (at : Instant) (types : List DomainEventType)
    (before after : List EventEnvelope) : Type 0 where
  pub added : List EventEnvelope
  pub appends : after ≡ before ++ added
  pub of_types : map (λ e. e.event_type) added ≡ types
  pub of_stream :
      All (λ e. (e.tenant_id ≡ tenant) × (e.aggregate_id ≡ work) × (e.occurred_at ≡ at)) added
  pub of_numbers :
      map (λ e. e.aggregate_sequence) added ≡ upward (count_events work before) (length added)

-- `r` holds nothing any more: it is charged the tokens and the amount, and is otherwise unchanged.
pub record IsClosed (r closed : BudgetReservation) (status : ReservationStatus) (tokens : ℕ)
    (amount : Amount) (at : Instant) : Type 0 where
  pub inactive : closed.active ≡ false
  pub of_status : closed.status ≡ status
  pub of_tokens : closed.charged_tokens ≡ tokens
  pub of_cost : closed.charged_cost_usd ≡ amount
  pub of_time : closed.reconciled_at ≡ some at
  pub same_owner :
      (closed.tenant_id ≡ r.tenant_id)
      × (closed.run_id ≡ r.run_id)
      × (closed.request_id ≡ r.request_id)
  pub same_limits :
      (closed.token_limit ≡ r.token_limit)
      × (closed.cost_limit_usd ≡ r.cost_limit_usd)
      × (closed.price_version ≡ r.price_version)

-- A call that ends leaves its reservation closed and its key not in flight, and adds events.
pub record Ends (request : ModelRequest) (lease : WorkLease) (at : Instant) (r : BudgetReservation)
    (status : ReservationStatus) (tokens : ℕ) (amount : Amount) (types : List DomainEventType)
    (s s' : Repository) : Type 0 where
  pub closed : BudgetReservation
  pub is_closed : IsClosed r closed status tokens amount at
  pub stored : Sets lookup r.reservation_id (some closed) s.reservations s'.reservations
  pub forgotten :
      Sets lookup (request.tenant_id, request.idempotency_key) none s.inflight s'.inflight
  pub adds : Adds request.tenant_id lease.work_id at types s.events s'.events
  pub same_leases : s'.active_leases ≡ s.active_leases

-- The reservation that `reserve` returns is active, stored, and in flight under the key.
pub record Enters (id : Uuid) (digest : Name) (request : ModelRequest) (lease : WorkLease)
    (at : Instant) (tokens : ℕ) (amount : Amount) (version : Name) (r : BudgetReservation)
    (s s' : Repository) : Type 0 where
  pub of_id : r.reservation_id ≡ id
  pub holds : (r.active ≡ true) × (r.status ≡ active)
  pub uncharged : (r.charged_tokens ≡ 0) × (r.charged_cost_usd ≡ 0) × (r.reconciled_at ≡ none)
  pub of_owner :
      (r.tenant_id ≡ request.tenant_id)
      × (r.run_id ≡ request.run_id)
      × (r.request_id ≡ request.request_id)
  pub of_limits :
      (r.token_limit ≡ tokens) × (r.cost_limit_usd ≡ amount) × (r.price_version ≡ version)
  pub of_times : (r.created_at ≡ some at) × (r.expires_at ≡ some lease.expires_at)
  pub stored : Sets lookup r.reservation_id (some r) s.reservations s'.reservations
  pub in_flight :
      Sets lookup
        (request.tenant_id, request.idempotency_key)
        (some (r.reservation_id, digest))
        s.inflight
        s'.inflight
  pub adds :
      Adds request.tenant_id lease.work_id at
        (model_route_decided ∷ model_call_requested ∷ model_budget_reserved ∷ [])
        s.events
        s'.events
  pub same_completed : s'.completed ≡ s.completed
  pub same_leases : s'.active_leases ≡ s.active_leases

module _ (host : Host) (request : ModelRequest) (lease : WorkLease) (at : Instant) where
  envelopes-types :
      (calls sequence : ℕ) (causation : Option Uuid) (details : List Details)
      → map (λ e. e.event_type) (envelopes host request lease at calls sequence causation details)
        ≡ map (λ d. d.0) details
  envelopes-types calls sequence causation [] = refl
  envelopes-types calls sequence causation (d ∷ ds) =
      ap₂ ◌∷◌ refl (envelopes-types (suc calls) (suc sequence) (some (host.uuid_factory calls)) ds)

  envelopes-stream :
      (calls sequence : ℕ) (causation : Option Uuid) (details : List Details)
      → All
          (λ e.
            (e.tenant_id ≡ request.tenant_id)
            × (e.aggregate_id ≡ lease.work_id)
            × (e.occurred_at ≡ at))
          (envelopes host request lease at calls sequence causation details)
  envelopes-stream calls sequence causation [] = tt
  envelopes-stream calls sequence causation (d ∷ ds) = (
    (refl, refl, refl),
    envelopes-stream (suc calls) (suc sequence) (some (host.uuid_factory calls)) ds,
  )

  envelopes-numbers :
      (calls sequence : ℕ) (causation : Option Uuid) (details : List Details)
      → let es = envelopes host request lease at calls sequence causation details in
        map (λ e. e.aggregate_sequence) es ≡ upward sequence (length es)
  envelopes-numbers calls sequence causation [] = refl
  envelopes-numbers calls sequence causation (d ∷ ds) =
      ap₂ ◌∷◌ refl
        (envelopes-numbers (suc calls) (suc sequence) (some (host.uuid_factory calls)) ds)

  pub appended-Adds :
      (details : List Details) (s t : Repository)
      → t.events ≡ s.events
      → Adds request.tenant_id lease.work_id at
          (map (λ d. d.0) details)
          s.events
          (appended host request lease at details t).events
  unfolding append
  appended-Adds details s t same = record {
    added =
        envelopes host request lease at t.uuid_calls (count_events lease.work_id t.events) none
          details;
    appends = rw same refl;
    of_types = envelopes-types _ _ _ details;
    of_stream = envelopes-stream _ _ _ details;
    of_numbers = rw (← same) (envelopes-numbers _ _ _ details);
  }

  -- The writes that the ending operations share, in front of their events.
  pub ended-Ends :
      (r : BudgetReservation) (status : ReservationStatus) (tokens : ℕ) (amount : Amount)
      (details : List Details) (s t : Repository)
      → t.reservations ≡ insert r.reservation_id (settle status tokens amount at r) s.reservations
      → t.inflight ≡ erase (request.tenant_id, request.idempotency_key) s.inflight
      → t.events ≡ s.events
      → t.active_leases ≡ s.active_leases
      → Ends request lease at r status tokens amount
          (map (λ d. d.0) details)
          s
          (appended host request lease at details t)
  unfolding append
  ended-Ends r status tokens amount details s t stored gone events leases =
      let key : ℕ × ℕ = (request.tenant_id, request.idempotency_key) in
      let closed = settle status tokens amount at r in
      record {
        closed = closed;
        is_closed = record {
          inactive = refl;
          of_status = refl;
          of_tokens = refl;
          of_cost = refl;
          of_time = refl;
          same_owner = (refl, refl, refl);
          same_limits = (refl, refl, refl);
        };
        stored = rw stored (record {
          here = lookup-insert_self r.reservation_id closed s.reservations;
          elsewhere = λ k h. lookup-insert_ne k r.reservation_id closed s.reservations h;
        });
        forgotten = rw gone (record {
          here = lookup-erase_self key s.inflight;
          elsewhere = λ k h. lookup-erase_ne k key s.inflight h;
        });
        adds = appended-Adds details s t events;
        same_leases = leases;
      }
