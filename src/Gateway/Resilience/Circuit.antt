-- ===== src/Gateway/Resilience/Circuit.antt =====
-- When the breaker of gateway/resilience.py lets a call through.
use aegis_agent_platform.Prelude.{
  ℕ, ◌+◌, ◌≤◌, ◌<◌, ◌≡◌, refl, false, List, [], ◌∷◌, length, ok, err, arith,
}
use aegis_agent_platform.Domain.Events.{Instant}
use aegis_agent_platform.Gateway.Resilience.{
  CircuitBreaker, circuit_is_open, probe_is_busy, half_open, state, acquire, fail, succeed, abandon,
}

-- The calls of `fail`, at the clock's readings, first to last.
abbrev pub fail_all : List Instant → CircuitBreaker → CircuitBreaker
unfolding fail
fail_all [] s = s
fail_all (now ∷ times) s = fail_all times (fail now s)

-- what holds of `s` after failures of which the last was at `last`, the others being counted
record Failing (start : CircuitBreaker) (n : ℕ) (s : CircuitBreaker) : Type 0 where
  counted : s.failures ≡ n + start.failures
  same_threshold : s.failure_threshold ≡ start.failure_threshold
  same_recovery : s.recovery ≡ start.recovery

fail_all-counts :
    (times : List Instant) (s : CircuitBreaker) → Failing s (length times) (fail_all times s)
unfolding fail
fail_all-counts [] s = record { counted = omega arith; same_threshold = refl; same_recovery = refl }
fail_all-counts (now ∷ times) s =
    let r = fail_all-counts times (fail now s) in
    record {
      counted = ground (arith, r.counted);
      same_threshold = ground (arith, r.same_threshold);
      same_recovery = ground (arith, r.same_recovery);
    }

-- Once the failures since the last success reach the threshold, a call is refused until the
-- recovery time has passed since the last of them; the breaker is left as it was.
pub acquire-fail :
    (times : List Instant) (last now : Instant) (s : CircuitBreaker)
    → s.failure_threshold ≤ length times + 1
    → now < last + s.recovery
    → acquire now (fail last (fail_all times (succeed s)))
      ≡ (err circuit_is_open, fail last (fail_all times (succeed s)))
unfolding acquire state fail succeed
acquire-fail times last now s enough early =
    let r = fail_all-counts times (succeed s) in
    ground (arith, r.counted, r.same_threshold, r.same_recovery)

-- A half-open breaker without a probe lets a call through as its probe. Then every other call is
-- refused, and leaves the breaker as it is; once the probe is abandoned the next call is let through,
-- and so is any call once it has succeeded.
pub acquire-half_open :
    (now later : Instant) (s : CircuitBreaker)
    → state now s ≡ half_open
    → s.half_open_inflight ≡ false
    → now ≤ later
    → let probed = (acquire now s).1 in
      ((acquire now s).0 ≡ ok tt)
      × (acquire later probed ≡ (err probe_is_busy, probed))
      × ((acquire later (abandon probed)).0 ≡ ok tt)
      × ((acquire later (succeed probed)).0 ≡ ok tt)
unfolding acquire state abandon succeed
acquire-half_open now later s half free after = ground arith
