-- ===== src/Gateway/Resilience.antt =====
-- src/aegis_agent_platform/gateway/resilience.py: the circuit breaker, the token bucket and the
-- controls of each model.
-- An instant is a number of microseconds. A bucket counts in parts of a token, so small that the
-- refill of a microsecond is a whole number of parts.
use aegis_agent_platform.Prelude.{
  ℕ, suc, ◌+◌, ◌-◌, ◌*◌, min, Bool, true, false, ◌&&◌, not, ◌||◌, ◌==◌, ltb, leb, if◌then◌else◌,
  Option, none, some, List, [], ◌∷◌, Result, ok, err, Exec, ◌>>=◌, ◌>>◌, pure, raise, gets, modify,
  raise_if, lookup, insert, Dict,
}
use aegis_agent_platform.Domain.Events.{Instant}
use aegis_agent_platform.Domain.Model.{ModelIdentity, ModelGatewayError}
use aegis_agent_platform.Gateway.Catalog.{identity_eq}
pub mod Circuit
pub mod Bucket
mod Tests

pub data CircuitState : Type 0 where
  closed opened half_open : CircuitState

-- The exceptions of this file: `ValueError`, and the two messages of `CircuitOpenError`.
pub data ControlFault : Type 0 where
  value_error circuit_is_open probe_is_busy : ControlFault

pub record CircuitBreaker : Type 0 where
  pub failure_threshold : ℕ
  pub recovery : ℕ
  pub failures : ℕ
  pub opened_at : Option Instant
  pub half_open_inflight : Bool

-- The test of `__post_init__`, and the breaker that it lets through.
unfoldable pub circuit_breaker : ℕ → ℕ → Result ControlFault CircuitBreaker
circuit_breaker threshold recovery =
    if ltb threshold 1 || leb recovery 0
    then err value_error
    else ok (record {
      failure_threshold = threshold;
      recovery = recovery;
      failures = 0;
      opened_at = none;
      half_open_inflight = false;
    })

-- The property `state`, with the clock's reading.
unfoldable pub state : Instant → CircuitBreaker → CircuitState
state now s = elim s.opened_at [
  | none ↦ closed
  | some at ↦ if leb (at + s.recovery) now then half_open else opened
]

unfoldable pub acquire : Instant → Exec ControlFault CircuitBreaker (Unit {0})
unfolding state
acquire now s = elim (state now s) [
  | closed ↦ pure tt s
  | opened ↦ raise circuit_is_open s
  | half_open ↦
      if s.half_open_inflight
      then raise probe_is_busy s
      else modify (λ b. record b { half_open_inflight = true }) s
]

unfoldable pub succeed : CircuitBreaker → CircuitBreaker
succeed s = record s { failures = 0; opened_at = none; half_open_inflight = false }

unfoldable pub fail : Instant → CircuitBreaker → CircuitBreaker
fail now s =
    let counted = record s { half_open_inflight = false; failures = suc s.failures } in
    if leb s.failure_threshold (suc s.failures)
    then record counted { opened_at = some now }
    else counted

-- `abandon` and `release_probe`, which calls it
unfoldable pub abandon : CircuitBreaker → CircuitBreaker
abandon s = record s { half_open_inflight = false }

pub record TokenBucket : Type 0 where
  pub capacity : ℕ
  -- the parts that a microsecond adds
  pub refill : ℕ
  pub tokens : ℕ
  pub updated_at : Instant

-- `TokenBucket(capacity, refill, clock)`, at the clock's reading.
unfoldable pub token_bucket : ℕ → ℕ → Instant → Result ControlFault TokenBucket
token_bucket capacity refill now =
    if leb capacity 0 || leb refill 0
    then err value_error
    else ok (record { capacity = capacity; refill = refill; tokens = capacity; updated_at = now })

-- The refill: `max(0, now - updated_at)` is the difference of natural numbers.
abbrev pub refilled : Instant → TokenBucket → TokenBucket
refilled now s = record s {
  tokens = min s.capacity (s.tokens + (now - s.updated_at) * s.refill);
  updated_at = now;
}

unfoldable pub consume : ℕ → Instant → Exec ControlFault TokenBucket Bool
consume amount now s =
    if leb amount 0 || ltb s.capacity amount
    then raise value_error s
    else let t = refilled now s in
      if ltb t.tokens amount
      then (ok false, t)
      else (ok true, record t { tokens = t.tokens - amount })

-- Parts in a token: the rate of a minute is then a whole number of parts in a microsecond.
abbrev pub per_token : ℕ
per_token = 60000000

-- The semaphores belong to asyncio; of each the count it starts with is kept.
pub record ProviderControls : Type 0 where
  pub semaphores : Dict ModelIdentity ℕ
  pub request_buckets : Dict ModelIdentity TokenBucket
  pub token_buckets : Dict ModelIdentity TokenBucket
  pub circuits : Dict ModelIdentity CircuitBreaker

-- `{model: value for model in models}`, where every value is the same
abbrev pub for_each :
    {V : Type 0} → V → List ModelIdentity → Dict ModelIdentity V → Dict ModelIdentity V
for_each v [] d = d
for_each v (model ∷ models) d = for_each v models (insert model v d)

-- `ProviderControls(...)` with at least one model; the recovery is the default of 30 seconds.
unfoldable pub provider_controls :
    List ModelIdentity → ℕ → ℕ → ℕ → ℕ → Instant → Result ControlFault ProviderControls
unfolding token_bucket circuit_breaker
provider_controls models concurrency requests_per_minute tokens_per_minute threshold now =
    if ltb concurrency 1
    then err value_error
    else elim (token_bucket (requests_per_minute * per_token) requests_per_minute now) [
      | err e ↦ err e
      | ok requests ↦ elim (token_bucket (tokens_per_minute * per_token) tokens_per_minute now) [
        | err e ↦ err e
        | ok tokens ↦ elim (circuit_breaker threshold 30000000) [
          | err e ↦ err e
          | ok circuit ↦ ok (record {
            semaphores = for_each concurrency models [];
            request_buckets = for_each requests models [];
            token_buckets = for_each tokens models [];
            circuits = for_each circuit models [];
          })
        ]
      ]
    ]

-- `_known(values, model).consume(amount)`, and the dictionary it leaves
unfoldable pub consume_known :
    ModelIdentity → ℕ → Instant → Exec ControlFault (Dict ModelIdentity TokenBucket) Bool
unfolding consume
consume_known model amount now d = elim (lookup model d) [
  | none ↦ raise value_error d
  | some bucket ↦ let (r, bucket') = consume amount now bucket in (r, insert model bucket' d)
]

-- The token bucket is consulted only where the request bucket had room.
unfoldable pub admit : ModelIdentity → ℕ → Instant → Exec ControlFault ProviderControls Bool
unfolding consume_known
admit model tokens now s = elim (lookup model s.token_buckets) [
  | none ↦ raise value_error s
  | some bucket ↦
      if ltb bucket.capacity (tokens * per_token)
      then pure false s
      else let (r, requests) = consume_known model per_token now s.request_buckets in
        let s' = record s { request_buckets = requests } in
        elim r [
          | err e ↦ raise e s'
          | ok false ↦ pure false s'
          | ok true ↦
              let (r', buckets) = consume_known model (tokens * per_token) now s.token_buckets in
              (r', record s' { token_buckets = buckets })
        ]
]

-- `RetryPolicy`; its backoff is Runtime/Backoff.
pub record RetryPolicy : Type 0 where
  pub max_attempts : ℕ
  pub max_failovers : ℕ

unfoldable pub retry_policy : ℕ → ℕ → Result ControlFault RetryPolicy
retry_policy attempts failovers =
    if not (leb 1 attempts && leb attempts 10) || not (leb failovers 5)
    then err value_error
    else ok (record { max_attempts = attempts; max_failovers = failovers })

unfoldable pub may_retry : RetryPolicy → ModelGatewayError → ℕ → Bool
may_retry policy error attempt = error.retryable && ltb attempt policy.max_attempts
