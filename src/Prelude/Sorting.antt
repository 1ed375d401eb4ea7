-- ===== src/Prelude/Sorting.antt =====
-- Python's `sorted` by a Boolean order, as insertion sort, which is stable too.
use mathlib.Core.Path.{◌≡◌}
use mathlib.Core.Bool.{Bool, true}
use mathlib.Core.List.{List, [], ◌∷◌, Perm}
use mathlib.Core.List.Perm
use native.Mathlib.Omega.{arith}
use aegis_agent_platform.Prelude.Tests.{if◌then◌else◌, Bool-cases}
use aegis_agent_platform.Prelude.Lists.{All}
use mathlib.Core.Logic.{inl, inr, ◌⊎◌}

module _ {ℓ} {A : Type ℓ} (le : A → A → Bool) where
  abbrev pub insert_sorted : A → List A → List A
  insert_sorted x [] = x ∷ []
  insert_sorted x (y ∷ ys) = if le x y then x ∷ y ∷ ys else y ∷ insert_sorted x ys

  abbrev pub sorted : List A → List A
  sorted [] = []
  sorted (x ∷ xs) = insert_sorted x (sorted xs)

  -- Each element stands before all the later ones.
  abbrev pub IsSorted : List A → Type ℓ
  IsSorted [] = Unit
  IsSorted (x ∷ xs) = All (λ y. le x y ≡ true) xs × IsSorted xs

  pub insert_sorted-perm : (x : A) (ys : List A) → Perm (insert_sorted x ys) (x ∷ ys)
  insert_sorted-perm x [] = Perm.refl (x ∷ [])
  insert_sorted-perm x (y ∷ ys) = elim (Bool-cases (le x y)) [
    | inl h ↦ rw h (Perm.refl (x ∷ y ∷ ys))
    | inr h ↦ rw h (Perm.trans (Perm.cons y (insert_sorted-perm x ys)) (Perm.swap x y ys))
  ]

  pub sorted-perm : (xs : List A) → Perm (sorted xs) xs
  sorted-perm [] = Perm.refl []
  sorted-perm (x ∷ xs) =
      Perm.trans (insert_sorted-perm x (sorted xs)) (Perm.cons x (sorted-perm xs))

  pub insert_sorted-All {κ} :
      (P : A → Type κ) (x : A) (ys : List A) → P x → All P ys → All P (insert_sorted x ys)
  insert_sorted-All P x [] p h = (p, tt)
  insert_sorted-All P x (y ∷ ys) p h = elim (Bool-cases (le x y)) [
    | inl e ↦ rw e (p, h)
    | inr e ↦ rw e (h.0, insert_sorted-All P x ys p h.1)
  ]

  pub sorted-All {κ} : (P : A → Type κ) (xs : List A) → All P xs → All P (sorted xs)
  sorted-All P [] h = tt
  sorted-All P (x ∷ xs) h = insert_sorted-All P x (sorted xs) h.0 (sorted-All P xs h.1)

  All-trans :
      ((a b c : A) → le a b ≡ true → le b c ≡ true → le a c ≡ true)
      → (x y : A) (ys : List A) → le x y ≡ true
      → All (λ z. le y z ≡ true) ys
      → All (λ z. le x z ≡ true) ys
  All-trans t x y [] h k = tt
  All-trans t x y (z ∷ zs) h k = (t x y z h k.0, All-trans t x y zs h k.1)

  insert_sorted-IsSorted :
      ((a b : A) → (le a b ≡ true) ⊎ (le b a ≡ true))
      → ((a b c : A) → le a b ≡ true → le b c ≡ true → le a c ≡ true)
      → (x : A) (ys : List A) → IsSorted ys
      → IsSorted (insert_sorted x ys)
  insert_sorted-IsSorted total t x [] h = (tt, tt)
  insert_sorted-IsSorted total t x (y ∷ ys) h = elim (Bool-cases (le x y)) [
    | inl e ↦ rw e ((e, All-trans t x y ys e h.0), h)
    | inr e ↦ rw e (
      insert_sorted-All (λ z. le y z ≡ true) x ys
          (elim (total x y) [ inl k ↦ absurd (ground arith) | inr k ↦ k ]) h.0,
      insert_sorted-IsSorted total t x ys h.1,
    )
  ]

  pub sorted-IsSorted :
      ((a b : A) → (le a b ≡ true) ⊎ (le b a ≡ true))
      → ((a b c : A) → le a b ≡ true → le b c ≡ true → le a c ≡ true)
      → (xs : List A) → IsSorted (sorted xs)
  sorted-IsSorted total t [] = tt
  sorted-IsSorted total t (x ∷ xs) =
      insert_sorted-IsSorted total t x (sorted xs) (sorted-IsSorted total t xs)
