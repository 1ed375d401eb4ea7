-- ===== src/Storage/Triples.antt =====
-- What a method on the database leaves, with a rule for each way to build a method.
use aegis_agent_platform.Prelude.{
  ◌≡◌, refl, Bool, true, false, Result, ok, err, ◌>>=◌, ◌>>◌, lift, raise_if,
}
use aegis_agent_platform.Storage.{Database, Query, StorageFault}

-- From a database with `P`, a method leaves one with `Q`, whether it returns or raises.
pub record Ends {A : Type 0} (P Q : Database → Type 0) (m : Query A) : Type 0 where
  pub at : (s : Database) → P s → Q (m s).1

module _ {P Q : Database → Type 0} (weaken : (s : Database) → P s → Q s) where
  pub Ends-same : {A : Type 0} (m : Query A) → ((s : Database) → (m s).1 ≡ s) → Ends P Q m
  Ends-same m same = record { at = λ s h. rw (same s) (weaken s h) }

  after :
      {A B : Type 0} (r : Result StorageFault A) (f : A → Query B) (s : Database)
      → ((a : A) → Ends P Q (f a))
      → P s
      → Q ((lift r >>= f) s).1
  after (ok a) f s e h = (e a).at s h
  after (err x) f s e h = weaken s h

  pub Ends-bind :
      {A B : Type 0} (m : Query A) (f : A → Query B)
      → Ends P P m
      → ((a : A) → Ends P Q (f a))
      → Ends P Q (m >>= f)
  Ends-bind m f k e = record { at = λ s h. after (m s).0 f (m s).1 e (k.at s h) }

  -- the rest may use that the lifted result is there
  pub Ends-bind_lift :
      {A B : Type 0} (r : Result StorageFault A) (f : A → Query B)
      → ((a : A) → r ≡ ok a → Ends P Q (f a))
      → Ends P Q (lift r >>= f)
  Ends-bind_lift (ok a) f e = record { at = λ s h. (e a refl).at s h }
  Ends-bind_lift (err x) f e = record { at = λ s h. weaken s h }

  pub Ends-raise_if :
      {A : Type 0} (b : Bool) (x : StorageFault) (m : Query A)
      → (b ≡ false → Ends P Q m)
      → Ends P Q (raise_if b x >> m)
  Ends-raise_if true x m e = record { at = λ s h. weaken s h }
  Ends-raise_if false x m e = record { at = λ s h. (e refl).at s h }
