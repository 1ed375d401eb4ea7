-- ===== src/Storage/Runs.antt =====
-- What is known of a sequence and of a transaction that return.
use aegis_agent_platform.Prelude.{ℕ, ◌≡◌, refl, Option, none, some, Result, ok, err, ◌>>=◌, arith}
use aegis_agent_platform.Storage.{
  Database, Session, Query, StorageFault, transaction, commit, finish,
}

-- The two halves of a sequence that returns.
pub record Ran {A B : Type 0} (m : Query A) (f : A → Query B) (b : B) (s s' : Database)
    : Type 0 where
  pub value : A
  pub middle : Database
  pub first : m s ≡ (ok value, middle)
  pub second : f value middle ≡ (ok b, s')

Ran-from :
    {A B : Type 0} (m : Query A) (f : A → Query B) (s : Database) {b : B} {s' : Database}
    (x : Result StorageFault A × Database)
    → m s ≡ x
    → elim x.0 [ ok a ↦ f a x.1 | err e ↦ (err e, x.1) ] ≡ (ok b, s')
    → Ran m f b s s'
Ran-from m f s (ok a, s₁) p h = record { value = a; middle = s₁; first = p; second = h }
Ran-from m f s (err e, s₁) p h = absurd (ground (arith, h))

pub bind-Ran :
    {A B : Type 0} (m : Query A) (f : A → Query B) (s : Database) {b : B} {s' : Database}
    → (m >>= f) s ≡ (ok b, s')
    → Ran m f b s s'
bind-Ran m f s h = Ran-from m f s (m s) refl h

committed :
    {A : Type 0} (fault : Option StorageFault) (s : Database) (b : A) (s₁ : Database) {a : A}
    {s' : Database}
    → commit fault s b s₁ ≡ (ok a, s')
    → ◌≡◌ {A = Result StorageFault A × Database} (ok b, s₁) (ok a, s')
committed none s b s₁ h = h
committed (some x) s b s₁ h = absurd (ground (arith, h))

finished :
    {A : Type 0} (session : Session) (i : ℕ) (s : Database) (x : Result StorageFault A × Database)
    {a : A} {s' : Database}
    → finish session i s x ≡ (ok a, s')
    → x ≡ (ok a, s')
finished session i s (err e, s₁) h = absurd (ground (arith, h))
finished session i s (ok b, s₁) h = committed (session.commit_fault i s₁) s b s₁ h

-- A transaction that returns has run its body to the end, on what other sessions left.
pub transaction-ran :
    {A : Type 0} (session : Session) (i : ℕ) (m : Query A) (s : Database) {a : A} {s' : Database}
    → transaction session i m s ≡ (ok a, s')
    → m (session.others i s) ≡ (ok a, s')
unfolding transaction
transaction-ran session i m s h = finished session i (session.others i s) (m (session.others i s)) h

raised_from :
    {A B : Type 0} (f : A → Query B) (s : Database) (x : Result StorageFault A × Database)
    {e : StorageFault} {s' : Database}
    → x ≡ (err e, s')
    → ((λ s. x) >>= f) s ≡ (err e, s')
raised_from f s (ok a, s₁) h = absurd (ground (arith, h))
raised_from f s (err e, s₁) h = ground (arith, h)

pub bind-raised :
    {A B : Type 0} (m : Query A) (f : A → Query B) (s : Database) {e : StorageFault} {s' : Database}
    → m s ≡ (err e, s')
    → (m >>= f) s ≡ (err e, s')
bind-raised m f s h = raised_from f s (m s) h
