-- ===== src/Gateway/Resilience/Bucket.antt =====
-- How much a token bucket of gateway/resilience.py gives out.
use native.Mathlib.Nat.{add-mul}
use aegis_agent_platform.Prelude.{
  ℕ, ◌+◌, ◌-◌, ◌*◌, ◌≤◌, ◌<◌, ◌≡◌, refl, ap, inl, inr, Bool-cases, leb, ltb, ◌||◌, Bool, true,
  false, List, [], ◌∷◌, Result, ok, err, arith,
}
use aegis_agent_platform.Domain.Events.{Instant}
use aegis_agent_platform.Gateway.Resilience.{
  TokenBucket, ControlFault, value_error, consume, refilled,
}

-- What a call took: the amount where it returned True.
abbrev taken : Result ControlFault Bool → ℕ → ℕ
taken (ok true) amount = amount
taken (ok false) amount = 0
taken (err e) amount = 0

-- What the calls took together; of each call the amount and the clock's reading.
abbrev pub taken_all : List (ℕ × Instant) → TokenBucket → ℕ
taken_all [] s = 0
taken_all ((amount, now) ∷ calls) s =
    let (r, s') = consume amount now s in taken r amount + taken_all calls s'

-- The readings do not go back, from `start` to `end`.
abbrev pub Rises : Instant → List (ℕ × Instant) → Instant → Type 0
Rises start [] end = start ≤ end
Rises start ((amount, now) ∷ calls) end = (start ≤ now) × Rises now calls end

Rises-le :
    (start : Instant) (calls : List (ℕ × Instant)) (end : Instant)
    → Rises start calls end
    → start ≤ end
Rises-le start [] end h = h
Rises-le start ((amount, now) ∷ calls) end (h, hs) = omega (arith, h, Rises-le now calls end hs)

Rises-earlier :
    (a b : Instant) (calls : List (ℕ × Instant)) (end : Instant)
    → a ≤ b
    → Rises b calls end
    → Rises a calls end
Rises-earlier a b [] end h k = omega (arith, h, k)
Rises-earlier a b ((amount, now) ∷ calls) end h (k, ks) = (omega (arith, h, k), ks)

split-elapsed : (a b c r : ℕ) → a ≤ b → b ≤ c → (b - a) * r + (c - b) * r ≡ (c - a) * r
split-elapsed a b c r h k = rw (← add-mul (b - a) (c - b) r) (ap (λ x. x * r) (omega (arith, h, k)))

-- A call keeps the rate, and either it raises and leaves the bucket, or it takes from the refill.
data Spends (amount : ℕ) (now : Instant) (s : TokenBucket) : Type 0 where
  raised : (e : ControlFault) → consume amount now s ≡ (err e, s) → Spends amount now s
  answered :
      (b : Bool) (t : TokenBucket)
      → consume amount now s ≡ (ok b, t)
      → t.updated_at ≡ now
      → t.refill ≡ s.refill
      → taken (ok b) amount + t.tokens ≤ s.tokens + (now - s.updated_at) * s.refill
      → Spends amount now s

consume-Spends : (amount : ℕ) (now : Instant) (s : TokenBucket) → Spends amount now s
unfolding consume
consume-Spends amount now s = elim (Bool-cases (leb amount 0 || ltb s.capacity amount)) [
  | inl bad ↦ raised value_error (ground arith)
  | inr good ↦ elim (Bool-cases (ltb (refilled now s).tokens amount)) [
    | inl short ↦ answered false (refilled now s) (ground arith) refl refl (ground arith)
    | inr enough ↦
        answered true (let r = refilled now s in record r { tokens = r.tokens - amount })
          (ground arith) refl refl (ground arith)
  ]
]

-- Whatever is asked for, and whichever calls are refused, the calls until `end` take together at
-- most what the bucket held and what its rate adds until then, if the clock never goes back.
pub consume-bounded :
    (calls : List (ℕ × Instant)) (s : TokenBucket) (end : Instant)
    → Rises s.updated_at calls end
    → taken_all calls s ≤ s.tokens + (end - s.updated_at) * s.refill
consume-bounded [] s end h = omega arith
consume-bounded ((amount, now) ∷ calls) s end (h, hs) = elim (consume-Spends amount now s) [
  | raised e q ↦
      rw q
        (omega (arith, consume-bounded calls s end (Rises-earlier s.updated_at now calls end h hs)))
  | answered b t q same rate spent ↦
      let left : (end - t.updated_at) * t.refill ≡ (end - now) * s.refill = rw (same, rate) refl in
      rw q (
        omega (
          arith,
          left,
          spent,
          consume-bounded calls t end (rw same hs),
          split-elapsed s.updated_at now end s.refill h (Rises-le now calls end hs),
        ))
]

-- A call that asks for something, and for no more than the capacity, is granted once the refill
-- since the last call covers it.
pub consume-waits :
    (amount : ℕ) (now : Instant) (s : TokenBucket)
    → 0 < amount
    → amount ≤ s.capacity
    → amount ≤ (now - s.updated_at) * s.refill
    → (consume amount now s).0 ≡ ok true
unfolding consume
consume-waits amount now s pos fits waited = ground arith
