-- ===== src/Gateway/Catalog/Preference.antt =====
-- The order of preference of gateway/catalog.py, and filters of lists.
use mathlib.Core.Logic.Or
use mathlib.Core.List.{Mem, Mem-prop, mem-cons, mem-cons_self, mem-cons_of_mem, not-mem-nil}
use aegis_agent_platform.Prelude.{
  ℕ, ◌≡◌, ◌⊎◌, inl, inr, Bool, true, List, [], ◌∷◌, arith, filter_by, Bool-cases, All,
}
use aegis_agent_platform.Domain.Model.{ModelIdentity}
use aegis_agent_platform.Gateway.Catalog.{
  ModelCatalogEntry, RoutePreference, by_cost, by_latency, rank_le, key_le,
}

-- The order of the sort key is total and transitive.
pub key_le_total :
    (p : RoutePreference) (a b : ModelCatalogEntry) → (key_le p a b ≡ true) ⊎ (key_le p b a ≡ true)
key_le_total by_cost a b = ground arith
key_le_total by_latency a b = ground arith

rank_le_trans :
    (a b c a' b' c' : ℕ) (m m' n : ModelIdentity)
    → rank_le a a' m b b' m' ≡ true
    → rank_le b b' m' c c' n ≡ true
    → rank_le a a' m c c' n ≡ true
rank_le_trans a b c a' b' c' m m' n h k = ground arith

pub key_le_trans :
    (p : RoutePreference) (a b c : ModelCatalogEntry)
    → key_le p a b ≡ true
    → key_le p b c ≡ true
    → key_le p a c ≡ true
key_le_trans by_cost a b c h k =
    rank_le_trans a.cost_rank b.cost_rank c.cost_rank a.latency_rank b.latency_rank c.latency_rank
      a.identity b.identity c.identity h k
key_le_trans by_latency a b c h k =
    rank_le_trans a.latency_rank b.latency_rank c.latency_rank a.cost_rank b.cost_rank c.cost_rank
      a.identity b.identity c.identity h k

pub All-filter_by {ℓ} :
    {A : Type ℓ} (p : A → Bool) (xs : List A) → All (λ x. p x ≡ true) (filter_by p xs)
All-filter_by p [] = tt
All-filter_by p (x ∷ xs) = elim (Bool-cases (p x)) [
  | inl h ↦ rw h (h, All-filter_by p xs)
  | inr h ↦ rw h (All-filter_by p xs)
]

pub All-map {ℓ κ ι} :
    {A : Type ℓ} {P : A → Type κ} {Q : A → Type ι}
    → ((x : A) → P x → Q x)
    → (xs : List A) → All P xs
    → All Q xs
All-map f [] h = tt
All-map f (x ∷ xs) h = (f x h.0, All-map f xs h.1)

pub mem-filter_by {ℓ} :
    {A : Type ℓ} (p : A → Bool) (a : A) (xs : List A)
    → p a ≡ true
    → Mem a xs
    → Mem a (filter_by p xs)
mem-filter_by p a [] h m = absurd (not-mem-nil m)
mem-filter_by p a (x ∷ xs) h m =
    Or.elim Mem-prop (mem-cons.0 m)
      (λ e. let k : p x ≡ true = rw (← e) h in rw k (rw e mem-cons_self))
      (λ m'. elim (Bool-cases (p x)) [
        | inl k ↦ rw k (mem-cons_of_mem x (mem-filter_by p a xs h m'))
        | inr k ↦ rw k (mem-filter_by p a xs h m')
      ])
