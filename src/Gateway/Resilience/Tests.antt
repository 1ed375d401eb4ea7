-- ===== src/Gateway/Resilience/Tests.antt =====
-- The theorems on the controls at concrete instants.
use aegis_agent_platform.Prelude.{
  ◌≡◌, refl, ◌+◌, ◌*◌, ◌≤◌, false, none, some, [], ◌∷◌, ok, err, arith,
}
use aegis_agent_platform.Gateway.Resilience.{
  CircuitBreaker, TokenBucket, circuit_is_open, probe_is_busy, acquire, fail, succeed, abandon,
  state,
}
use aegis_agent_platform.Gateway.Resilience.Circuit.{acquire-fail, acquire-half_open, fail_all}
use aegis_agent_platform.Gateway.Resilience.Bucket.{consume-bounded, taken_all}

abbrev breaker : CircuitBreaker
breaker = record {
  failure_threshold = 3;
  recovery = 30;
  failures = 1;
  opened_at = none;
  half_open_inflight = false;
}

abbrev tripped : CircuitBreaker
tripped = record breaker { opened_at = some 10 }

abbrev bucket : TokenBucket
bucket = record { capacity = 100; refill = 2; tokens = 10; updated_at = 5 }

acquire-fail_example :
    acquire 40 (fail 20 (fail_all (10 ∷ 12 ∷ []) (succeed breaker)))
    ≡ (err circuit_is_open, fail 20 (fail_all (10 ∷ 12 ∷ []) (succeed breaker)))
acquire-fail_example = acquire-fail (10 ∷ 12 ∷ []) 20 40 breaker (omega arith) (omega arith)

acquire-half_open_example :
    ((acquire 50 tripped).0 ≡ ok tt)
    × (acquire 60 (acquire 50 tripped).1 ≡ (err probe_is_busy, (acquire 50 tripped).1))
    × ((acquire 60 (abandon (acquire 50 tripped).1)).0 ≡ ok tt)
    × ((acquire 60 (succeed (acquire 50 tripped).1)).0 ≡ ok tt)
unfolding state
acquire-half_open_example = acquire-half_open 50 60 tripped refl refl (omega arith)

consume-bounded_example : taken_all ((8, 6) ∷ (90, 7) ∷ (12, 20) ∷ []) bucket ≤ 10 + 25 * 2
consume-bounded_example =
    consume-bounded ((8, 6) ∷ (90, 7) ∷ (12, 20) ∷ []) bucket 30
      (omega arith, (omega arith, (omega arith, omega arith)))
