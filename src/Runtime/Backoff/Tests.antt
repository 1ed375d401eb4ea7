-- ===== src/Runtime/Backoff/Tests.antt =====
-- The theorems on delays, for a base of a second and a maximum of five minutes.
use aegis_agent_platform.Prelude.{ℕ, ◌/◌, pos, ◌≡◌, refl, ◌≤◌, ok, arith}
use aegis_agent_platform.Runtime.Backoff.{ExponentialBackoff, unjittered, delay}
use aegis_agent_platform.Runtime.Backoff.Delays.{delay_total, delay_grows}

abbrev backoff : ExponentialBackoff
backoff = record { base = 1000000; maximum = 300000000; jitter = λ attempt d. pos d }

-- a jitter that halves
abbrev halved : ExponentialBackoff
halved = record backoff { jitter = λ attempt d. pos (d / 2) }

delay_total_example :
    (d : ℕ) × (delay halved 3 ≡ ok d)
    × (halved.jitter 3 (unjittered halved 3) ≡ pos d)
    × (d ≤ unjittered halved 3)
    × (d ≤ 300000000)
delay_total_example = delay_total halved (λ attempt d. (d / 2, refl, omega arith)) 3 (omega arith)

delay_grows_example :
    (delay backoff 3 ≡ ok (unjittered backoff 3))
    × (delay backoff 20 ≡ ok (unjittered backoff 20))
    × (1000000 ≤ unjittered backoff 3)
    × (unjittered backoff 3 ≤ unjittered backoff 20)
    × (unjittered backoff 20 ≤ 300000000)
delay_grows_example =
    delay_grows backoff (λ attempt d. refl) (omega arith) 3 20 (omega arith) (omega arith)
