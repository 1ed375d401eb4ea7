-- ===== src/Runtime/Backoff/Delays.antt =====
-- The delays of runtime/backoff.py: their bounds and their growth.
use native.Mathlib.Nat.{pow-le-pow_right, mul-le-mul_left, one-le-pow}
use aegis_agent_platform.Prelude.{ℕ, pos, ◌-◌, ◌*◌, ◌^◌, ◌≤◌, ◌≡◌, min, ok, arith}
use aegis_agent_platform.Runtime.Backoff.{ExponentialBackoff, unjittered, delay}

-- With a jitter that never gives a negative delay and never lengthens one, every attempt from the
-- first on has a delay: the one that the jitter gives, which is at most the one without jitter and
-- at most the maximum.
pub delay_total :
    (b : ExponentialBackoff)
    → ((attempt d : ℕ) → (j : ℕ) × (b.jitter attempt d ≡ pos j) × (j ≤ d))
    → (attempt : ℕ) → 1 ≤ attempt
    → (d : ℕ) × (delay b attempt ≡ ok d)
      × (b.jitter attempt (unjittered b attempt) ≡ pos d)
      × (d ≤ unjittered b attempt)
      × (d ≤ b.maximum)
unfolding delay
delay_total b shortens attempt first =
    let (d, given, shorter) = shortens attempt (unjittered b attempt) in
    (d, ground arith, given, shorter, ground arith)

-- Without jitter every attempt has a delay; it is at least the base and at most the maximum, and
-- that of a later attempt is no shorter.
pub delay_grows :
    (b : ExponentialBackoff)
    → ((attempt d : ℕ) → b.jitter attempt d ≡ pos d)
    → b.base ≤ b.maximum
    → (attempt later : ℕ) → 1 ≤ attempt
    → attempt ≤ later
    → (delay b attempt ≡ ok (unjittered b attempt))
      × (delay b later ≡ ok (unjittered b later))
      × (b.base ≤ unjittered b attempt)
      × (unjittered b attempt ≤ unjittered b later)
      × (unjittered b later ≤ b.maximum)
unfolding delay
delay_grows b plain bounds attempt later first after =
    let power : 2 ^ min (attempt - 1) 30 ≤ 2 ^ min (later - 1) 30 =
      pow-le-pow_right (omega arith) (ground arith) in
    let product = mul-le-mul_left b.base power in
    let one : b.base * 1 ≤ b.base * 2 ^ min (attempt - 1) 30 =
      mul-le-mul_left b.base (one-le-pow (min (attempt - 1) 30) 2 (omega arith)) in
    ground
      (arith, product, one, plain attempt (unjittered b attempt), plain later (unjittered b later))
