-- ===== src/Gateway/Repository/Totals.antt =====
-- The totals of `reserve` as sums of one weight for each reservation, and how a write moves them.
use aegis_agent_platform.Prelude.{
  ℕ, ◌+◌, ◌≤◌, ◌≡◌, refl, Bool, true, false, Option, none, some, List, [], ◌∷◌, arith, ◌&&◌, ◌==◌,
  sum_by, filter_by, if◌then◌else◌, Eq, Dict, lookup, insert, values, nat_eq, Bool-cases, inl, inr,
}
use aegis_agent_platform.Domain.Events.{Name, Uuid, Instant, Amount}
use aegis_agent_platform.Gateway.Repository.{BudgetReservation, active, Repository}
use aegis_agent_platform.Gateway.Repository.Parts.{
  holds, charged_since, charged_for, run_tokens, run_cost, tenant_tokens, tenant_cost,
}

abbrev pub weight_of {ℓ} : {A : Type ℓ} → (A → ℕ) → Option A → ℕ
weight_of w none = 0
weight_of w (some a) = w a

-- A write replaces the weight of the old value by that of the new one.
pub sum_by-insert {ℓ κ} :
    {K : Type ℓ} {V : Type κ} ⦃e : Eq K⦄ (w : V → ℕ) (k : K) (v : V) (d : Dict K V)
    → sum_by w (values (insert k v d)) + weight_of w (lookup k d) ≡ sum_by w (values d) + w v
sum_by-insert w k v [] = omega arith
sum_by-insert ⦃e⦄ w k v ((j, u) ∷ d) = elim (Bool-cases (e.beq k j)) [
  | inl same ↦ rw same (omega arith)
  | inr other ↦ rw other (omega (arith, sum_by-insert w k v d))
]

sum_by-filter_by {ℓ} :
    {A : Type ℓ} (f : A → ℕ) (p : A → Bool) (xs : List A)
    → sum_by f (filter_by p xs) ≡ sum_by (λ x. if p x then f x else 0) xs
sum_by-filter_by f p [] = refl
sum_by-filter_by f p (x ∷ xs) = ground (arith, sum_by-filter_by f p xs)

-- What a reservation adds to a total: its limit while it is held, its charge once it is charged.
abbrev pub run_weight :
    (BudgetReservation → ℕ) → (BudgetReservation → ℕ) → Name → Uuid → BudgetReservation → ℕ
run_weight limit charge tenant run r =
    (if holds tenant r && r.run_id == run then limit r else 0)
    + (if charged_for tenant run r then charge r else 0)

abbrev pub tenant_weight :
    (BudgetReservation → ℕ) → (BudgetReservation → ℕ) → Name → Instant → BudgetReservation → ℕ
tenant_weight limit charge tenant start r =
    (if holds tenant r then limit r else 0) + (if charged_since tenant start r then charge r else 0)

run_total :
    (limit charge : BudgetReservation → ℕ) (tenant : Name) (run : Uuid)
    (rs : List BudgetReservation)
    → sum_by limit (filter_by (λ r. r.run_id == run) (filter_by (holds tenant) rs))
        + sum_by charge (filter_by (charged_for tenant run) rs)
      ≡ sum_by (run_weight limit charge tenant run) rs
run_total limit charge tenant run [] = omega arith
run_total limit charge tenant run (r ∷ rs) = ground (arith, run_total limit charge tenant run rs)

tenant_total :
    (limit charge : BudgetReservation → ℕ) (tenant : Name) (start : Instant)
    (rs : List BudgetReservation)
    → sum_by limit (filter_by (holds tenant) rs)
        + sum_by charge (filter_by (charged_since tenant start) rs)
      ≡ sum_by (tenant_weight limit charge tenant start) rs
tenant_total limit charge tenant start [] = omega arith
tenant_total limit charge tenant start (r ∷ rs) =
    ground (arith, tenant_total limit charge tenant start rs)

-- From `s` to `s'` no total of any tenant, run or period grows by more than the two amounts.
pub record GrowsBy (tokens : ℕ) (amount : Amount) (s s' : Repository) : Type 0 where
  pub of_run_tokens :
      (tenant : Name) (run : Uuid)
      → run_tokens tenant run (values s'.reservations)
        ≤ run_tokens tenant run (values s.reservations) + tokens
  pub of_run_cost :
      (tenant : Name) (run : Uuid)
      → run_cost tenant run (values s'.reservations)
        ≤ run_cost tenant run (values s.reservations) + amount
  pub of_tenant_tokens :
      (tenant : Name) (start : Instant)
      → tenant_tokens tenant start (values s'.reservations)
        ≤ tenant_tokens tenant start (values s.reservations) + tokens
  pub of_tenant_cost :
      (tenant : Name) (start : Instant)
      → tenant_cost tenant start (values s'.reservations)
        ≤ tenant_cost tenant start (values s.reservations) + amount

-- The same reservations.
pub GrowsBy-same :
    (tokens : ℕ) (amount : Amount) (s s' : Repository)
    → s'.reservations ≡ s.reservations
    → GrowsBy tokens amount s s'
GrowsBy-same tokens amount s s' h = rw h (record {
  of_run_tokens = λ tenant run. omega arith;
  of_run_cost = λ tenant run. omega arith;
  of_tenant_tokens = λ tenant start. omega arith;
  of_tenant_cost = λ tenant start. omega arith;
})

module _ (limit charge : BudgetReservation → ℕ) (v : BudgetReservation) (extra : ℕ) (k : Uuid)
    (d : Dict ℕ BudgetReservation) where
  run_write :
      (tenant : Name) (run : Uuid)
      → run_weight limit charge tenant run v
        ≤ weight_of (run_weight limit charge tenant run) (lookup k d) + extra
      → sum_by limit
            (filter_by (λ r. r.run_id == run) (filter_by (holds tenant) (values (insert k v d))))
          + sum_by charge (filter_by (charged_for tenant run) (values (insert k v d)))
        ≤ sum_by limit (filter_by (λ r. r.run_id == run) (filter_by (holds tenant) (values d)))
          + sum_by charge (filter_by (charged_for tenant run) (values d))
          + extra
  run_write tenant run h = omega (
    arith,
    run_total limit charge tenant run (values (insert k v d)),
    run_total limit charge tenant run (values d),
    sum_by-insert (run_weight limit charge tenant run) k v d,
  )

  tenant_write :
      (tenant : Name) (start : Instant)
      → tenant_weight limit charge tenant start v
        ≤ weight_of (tenant_weight limit charge tenant start) (lookup k d) + extra
      → sum_by limit (filter_by (holds tenant) (values (insert k v d)))
          + sum_by charge (filter_by (charged_since tenant start) (values (insert k v d)))
        ≤ sum_by limit (filter_by (holds tenant) (values d))
          + sum_by charge (filter_by (charged_since tenant start) (values d))
          + extra
  tenant_write tenant start h = omega (
    arith,
    tenant_total limit charge tenant start (values (insert k v d)),
    tenant_total limit charge tenant start (values d),
    sum_by-insert (tenant_weight limit charge tenant start) k v d,
  )

-- A write of a reservation grows the totals by what its weight exceeds that of the old one.
module _ (v : BudgetReservation) (tokens : ℕ) (amount : Amount) (s s' : Repository)
    (written : s'.reservations ≡ insert v.reservation_id v s.reservations) where
  -- A held reservation adds at most its own limits.
  pub GrowsBy-hold :
      v.status ≡ active
      → v.token_limit ≤ tokens
      → v.cost_limit_usd ≤ amount
      → GrowsBy tokens amount s s'
  GrowsBy-hold st t a = rw written (record {
    of_run_tokens = λ tenant run.
        run_write (λ r. r.token_limit) (λ r. r.charged_tokens) v tokens v.reservation_id
          s.reservations tenant run (ground arith);
    of_run_cost = λ tenant run.
        run_write (λ r. r.cost_limit_usd) (λ r. r.charged_cost_usd) v amount v.reservation_id
          s.reservations tenant run (ground arith);
    of_tenant_tokens = λ tenant start.
        tenant_write (λ r. r.token_limit) (λ r. r.charged_tokens) v tokens v.reservation_id
          s.reservations tenant start (ground arith);
    of_tenant_cost = λ tenant start.
        tenant_write (λ r. r.cost_limit_usd) (λ r. r.charged_cost_usd) v amount v.reservation_id
          s.reservations tenant start (ground arith);
  })

  -- A settled reservation takes the place of its own limits.
  pub GrowsBy-settle :
      (r : BudgetReservation)
      → lookup v.reservation_id s.reservations ≡ some r
      → r.active ≡ true
      → v.active ≡ false
      → v.tenant_id ≡ r.tenant_id
      → v.run_id ≡ r.run_id
      → v.charged_tokens ≤ r.token_limit + tokens
      → v.charged_cost_usd ≤ r.cost_limit_usd + amount
      → GrowsBy tokens amount s s'
  GrowsBy-settle r found on off same_tenant same_run t a = rw written (record {
    of_run_tokens = λ tenant run.
        run_write (λ r. r.token_limit) (λ r. r.charged_tokens) v tokens v.reservation_id
          s.reservations tenant run (rw found (ground arith));
    of_run_cost = λ tenant run.
        run_write (λ r. r.cost_limit_usd) (λ r. r.charged_cost_usd) v amount v.reservation_id
          s.reservations tenant run (rw found (ground arith));
    of_tenant_tokens = λ tenant start.
        tenant_write (λ r. r.token_limit) (λ r. r.charged_tokens) v tokens v.reservation_id
          s.reservations tenant start (rw found (ground arith));
    of_tenant_cost = λ tenant start.
        tenant_write (λ r. r.cost_limit_usd) (λ r. r.charged_cost_usd) v amount v.reservation_id
          s.reservations tenant start (rw found (ground arith));
  })

  -- It adds nothing to the totals of another run or of another tenant.
  pub run_tokens-hold_ne :
      (tenant : Name) (run : Uuid)
      → v.status ≡ active
      → (v.tenant_id == tenant && v.run_id == run) ≡ false
      → (run_tokens tenant run (values s'.reservations)
          ≤ run_tokens tenant run (values s.reservations))
        × (run_cost tenant run (values s'.reservations)
            ≤ run_cost tenant run (values s.reservations))
  run_tokens-hold_ne tenant run st ne = rw written (
    omega (
      arith,
      run_write (λ r. r.token_limit) (λ r. r.charged_tokens) v 0 v.reservation_id s.reservations
          tenant run (ground arith),
    ),
    omega (
      arith,
      run_write (λ r. r.cost_limit_usd) (λ r. r.charged_cost_usd) v 0 v.reservation_id
          s.reservations tenant run (ground arith),
    ),
  )

  pub tenant_tokens-hold_ne :
      (tenant : Name) (start : Instant)
      → v.status ≡ active
      → (v.tenant_id == tenant) ≡ false
      → (tenant_tokens tenant start (values s'.reservations)
          ≤ tenant_tokens tenant start (values s.reservations))
        × (tenant_cost tenant start (values s'.reservations)
            ≤ tenant_cost tenant start (values s.reservations))
  tenant_tokens-hold_ne tenant start st ne = rw written (
    omega (
      arith,
      tenant_write (λ r. r.token_limit) (λ r. r.charged_tokens) v 0 v.reservation_id s.reservations
          tenant start (ground arith),
    ),
    omega (
      arith,
      tenant_write (λ r. r.cost_limit_usd) (λ r. r.charged_cost_usd) v 0 v.reservation_id
          s.reservations tenant start (ground arith),
    ),
  )
