-- ===== src/Runtime/Backoff.antt =====
-- src/aegis_agent_platform/runtime/backoff.py. A delay is a number of microseconds.
use aegis_agent_platform.Prelude.{
  ℕ, ℤ, pos, negsuc, ◌-◌, ◌*◌, ◌^◌, min, Bool, true, false, ◌||◌, ltb, leb, if◌then◌else◌, Result,
  ok, err,
}
pub mod Delays
mod Tests

pub data BackoffFault : Type 0 where
  bounds_invalid attempt_not_positive out_of_bounds_jitter : BackoffFault

-- `jitter` takes the attempt and the delay without jitter; what it gives may be negative.
pub record ExponentialBackoff : Type 0 where
  pub base : ℕ
  pub maximum : ℕ
  pub jitter : ℕ → ℕ → ℤ

unfoldable pub exponential_backoff : ℕ → ℕ → (ℕ → ℕ → ℤ) → Result BackoffFault ExponentialBackoff
exponential_backoff base maximum jitter =
    if leb base 0 || ltb maximum base
    then err bounds_invalid
    else ok (record { base = base; maximum = maximum; jitter = jitter })

-- The local variable `unjittered` of `delay`.
abbrev pub unjittered : ExponentialBackoff → ℕ → ℕ
unjittered b attempt = min b.maximum (b.base * 2 ^ min (attempt - 1) 30)

unfoldable pub delay : ExponentialBackoff → ℕ → Result BackoffFault ℕ
delay b attempt =
    if ltb attempt 1
    then err attempt_not_positive
    else elim (b.jitter attempt (unjittered b attempt)) [
      | negsuc _ ↦ err out_of_bounds_jitter
      | pos d ↦ if ltb b.maximum d then err out_of_bounds_jitter else ok d
    ]
