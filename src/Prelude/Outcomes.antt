-- ===== src/Prelude/Outcomes.antt =====
-- Methods that test first and write last: a call is refused as a whole, or it is done.
use mathlib.Core.Path.{◌≡◌, refl}
use mathlib.Core.Bool.{Bool, true, false}
use native.Mathlib.Omega.{arith}
use aegis_agent_platform.Prelude.Methods.{Result, ok, err, Exec, ◌>>=◌, ◌>>◌, lift, raise_if}

-- `m` at `s` raises and leaves `s` as it was, or `Pre` holds and `m` returns `a` and leaves `s'`.
pub data Outcome {E S A : Type 0} (m : Exec E S A) (s : S) (Pre : Type 0) (a : A) (s' : S)
    : Type 0 where
  refused : (e : E) → m s ≡ (err e, s) → Outcome m s Pre a s'
  done : Pre → m s ≡ (ok a, s') → Outcome m s Pre a s'

module _ {E S A : Type 0} where
  guard-eq-ok :
      (g : Exec E S (Unit {0})) (k : Exec E S A) (s : S)
      → (g s).1 ≡ s
      → (g s).0 ≡ ok tt
      → (g >> k) s ≡ k s
  guard-eq-ok g k s same h = ground arith

  guard-eq-err :
      (g : Exec E S (Unit {0})) (k : Exec E S A) (s : S) (e : E)
      → (g s).1 ≡ s
      → (g s).0 ≡ err e
      → (g >> k) s ≡ (err e, s)
  guard-eq-err g k s e same h = ground arith

  after_ok :
      (g : Exec E S (Unit {0})) (k : Exec E S A) (s : S) {P Pre : Type 0} {a : A} {s' : S}
      → (g s).1 ≡ s
      → (g s).0 ≡ ok tt
      → P
      → Outcome k s Pre a s'
      → Outcome (g >> k) s (P × Pre) a s'
  after_ok g k s same h p (refused e q) = refused e (rw (guard-eq-ok g k s same h) q)
  after_ok g k s same h p (done pre q) = done (p, pre) (rw (guard-eq-ok g k s same h) q)

  after_result :
      (g : Exec E S (Unit {0})) (k : Exec E S A) (s : S) {P Pre : Type 0} {a : A} {s' : S}
      → (r : Result E (Unit {0})) → (g s).1 ≡ s
      → (g s).0 ≡ r
      → ((g s).0 ≡ ok tt → P)
      → Outcome k s Pre a s'
      → Outcome (g >> k) s (P × Pre) a s'
  after_result g k s (ok tt) same h p o = after_ok g k s same h (p h) o
  after_result g k s (err e) same h p o = refused e (guard-eq-err g k s e same h)

  -- A guard in front: it leaves the state alone, and where it passes `P` holds.
  pub after_guard :
      (g : Exec E S (Unit {0})) (k : Exec E S A) (s : S) {P Pre : Type 0} {a : A} {s' : S}
      → (g s).1 ≡ s
      → ((g s).0 ≡ ok tt → P)
      → Outcome k s Pre a s'
      → Outcome (g >> k) s (P × Pre) a s'
  after_guard g k s same p o = after_result g k s (g s).0 same refl p o

  -- A test in front.
  pub after_raise_if :
      (b : Bool) (e : E) (k : Exec E S A) (s : S) {Pre : Type 0} {a : A} {s' : S}
      → Outcome k s Pre a s'
      → Outcome (raise_if b e >> k) s ((b ≡ false) × Pre) a s'
  after_raise_if true e k s o = refused e refl
  after_raise_if false e k s (refused x q) = refused x q
  after_raise_if false e k s (done pre q) = done (refl, pre) q

module _ {E S A B : Type 0} where
  after_lift-at :
      (r : Result E B) (k : B → Exec E S A) (b : B) (s : S) {Pre : Type 0} {a : A} {s' : S}
      → r ≡ ok b
      → Outcome (k b) s Pre a s'
      → Outcome (lift r >>= k) s ((r ≡ ok b) × Pre) a s'
  after_lift-at r k b s h (refused e q) = refused e (rw h q)
  after_lift-at r k b s h (done pre q) = done (h, pre) (rw h q)

  -- A fallible computation in front, of which the value is known where it has one.
  pub after_lift :
      (r : Result E B) (k : B → Exec E S A) (b : B) (s : S) {Pre : Type 0} {a : A} {s' : S}
      → ((x : B) → r ≡ ok x → x ≡ b)
      → Outcome (k b) s Pre a s'
      → Outcome (lift r >>= k) s ((r ≡ ok b) × Pre) a s'
  after_lift (ok x) k b s h o = after_lift-at (ok x) k b s (cc (h x refl)) o
  after_lift (err e) k b s h o = refused e refl

module _ {E S A : Type 0} where
  -- The condition of a call that is done, said in other words.
  pub Outcome-map :
      {m : Exec E S A} {s : S} {P Q : Type 0} {a : A} {s' : S}
      → (P → Q)
      → Outcome m s P a s'
      → Outcome m s Q a s'
  Outcome-map f (refused e q) = refused e q
  Outcome-map f (done p q) = done (f p) q

-- `m` at `s` gives `r`.
pub record Returns {E S A : Type 0} (m : Exec E S A) (s : S) (r : Result E A) : Type 0 where
  pub value : (m s).0 ≡ r

module _ {E S A : Type 0} where
  -- A guard that passes in front of a result.
  pub passed :
      (g : Exec E S (Unit {0})) (k : Exec E S A) (s : S) {r : Result E A}
      → g s ≡ (ok tt, s)
      → Returns k s r
      → Returns (g >> k) s r
  passed g k s h q = record { value = ground (arith, h, q.value) }

  pub passed_if :
      (b : Bool) (e : E) (k : Exec E S A) (s : S) {r : Result E A}
      → b ≡ false
      → Returns k s r
      → Returns (raise_if b e >> k) s r
  passed_if b e k s h q = record { value = ground (arith, h, q.value) }

  pub passed_lift :
      {B : Type 0} (x : Result E B) (b : B) (k : B → Exec E S A) (s : S) {r : Result E A}
      → x ≡ ok b
      → Returns (k b) s r
      → Returns (lift x >>= k) s r
  passed_lift x b k s h q = record { value = ground (arith, h, q.value) }

-- `m` at `s` raises and leaves `s` as it was, or returns a value and a state of which `Post` holds.
pub data Ensures {E S A : Type 0} (m : Exec E S A) (s : S) (Post : A → S → Type 0) : Type 0 where
  raised : (e : E) → m s ≡ (err e, s) → Ensures m s Post
  returned : (a : A) (s' : S) → m s ≡ (ok a, s') → Post a s' → Ensures m s Post

module _ {E S A : Type 0} where
  pub Outcome-Ensures :
      {m : Exec E S A} {s : S} {Pre : Type 0} {a : A} {s' : S} (Post : A → S → Type 0)
      → (Pre → Post a s')
      → Outcome m s Pre a s'
      → Ensures m s Post
  Outcome-Ensures Post f (refused e q) = raised e q
  Outcome-Ensures {a} {s'} Post f (done pre q) = returned a s' q (f pre)
