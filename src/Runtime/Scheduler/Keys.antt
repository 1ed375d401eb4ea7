-- ===== src/Runtime/Scheduler/Keys.antt =====
-- Lists without a repeated name, and dictionaries in which a key occurs once.
use aegis_agent_platform.Prelude.{
  ℕ, ◌≡◌, refl, false, ◌==◌, ◌||◌, List, [], ◌∷◌, ◌++◌, arith, nat_eq, Dict, lookup, insert, erase,
  contains, is_some, inl, inr, Bool-cases,
}

unfoldable pub Distinct : List ℕ → Type 0
Distinct [] = Unit
Distinct (x ∷ xs) = (contains x xs ≡ false) × Distinct xs

pub contains-append :
    (x : ℕ) (xs ys : List ℕ) → contains x (xs ++ ys) ≡ (contains x xs || contains x ys)
contains-append x [] ys = refl
contains-append x (y ∷ xs) ys = ground (arith, contains-append x xs ys)

pub Distinct-snoc :
    (xs : List ℕ) (x : ℕ) → Distinct xs → contains x xs ≡ false → Distinct (xs ++ x ∷ [])
unfolding Distinct
Distinct-snoc [] x h new = (refl, tt)
Distinct-snoc (y ∷ xs) x (h, hs) new =
    (ground (arith, contains-append y xs (x ∷ [])), Distinct-snoc xs x hs (ground arith))

module _ {V : Type 0} where
  abbrev pub keys : Dict ℕ V → List ℕ
  keys [] = []
  keys ((k, v) ∷ d) = k ∷ keys d

  pub contains-keys : (k : ℕ) (d : Dict ℕ V) → contains k (keys d) ≡ is_some (lookup k d)
  contains-keys k [] = refl
  contains-keys k ((j, v) ∷ d) = ground (arith, contains-keys k d)

  contains-keys-insert :
      (j k : ℕ) (v : V) (d : Dict ℕ V)
      → contains j (keys (insert k v d)) ≡ (j == k || contains j (keys d))
  contains-keys-insert j k v [] = refl
  contains-keys-insert j k v ((i, w) ∷ d) = ground (arith, contains-keys-insert j k v d)

  contains-keys-erase :
      (j k : ℕ) (d : Dict ℕ V) → contains j (keys d) ≡ false → contains j (keys (erase k d)) ≡ false
  contains-keys-erase j k [] h = refl
  contains-keys-erase j k ((i, w) ∷ d) h = let r = contains-keys-erase j k d in ground arith

  pub Distinct-insert :
      (k : ℕ) (v : V) (d : Dict ℕ V) → Distinct (keys d) → Distinct (keys (insert k v d))
  unfolding Distinct
  Distinct-insert k v [] h = (refl, tt)
  Distinct-insert k v ((i, w) ∷ d) (h, hs) = elim (Bool-cases (k == i)) [
    | inl e ↦ rw e (h, hs)
    | inr e ↦ rw e (ground (arith, contains-keys-insert i k v d), Distinct-insert k v d hs)
  ]

  pub Distinct-erase : (k : ℕ) (d : Dict ℕ V) → Distinct (keys d) → Distinct (keys (erase k d))
  unfolding Distinct
  Distinct-erase k [] h = tt
  Distinct-erase k ((i, w) ∷ d) (h, hs) = elim (Bool-cases (k == i)) [
    | inl e ↦ rw e (Distinct-erase k d hs)
    | inr e ↦ rw e (contains-keys-erase i k d h, Distinct-erase k d hs)
  ]
