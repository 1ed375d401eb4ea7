-- ===== src/Identity/Access.antt =====
-- Who is allowed what by `AuthorizationService.decide`.
use aegis_agent_platform.Prelude.{
  ◌≤◌, ◌≡◌, refl, ◌∙◌, Bool, true, false, List, [], ◌∷◌, arith, ◌&&◌, ◌||◌, ◌==◌, any_by, filter_by,
  All, ap,
}
use aegis_agent_platform.Domain.Events.{Name, Instant}
use aegis_agent_platform.Identity.{
  Role, viewer, investigator, approver, operator, tenant_admin, platform_admin, Permission,
  approval_decide, operation_propose, dlq_requeue, RoleBinding, Principal, PermissionName, known,
  other, grants, is_active, counts, same_role, sorted_roles, active_roles, decide,
}

module _ {ℓ} {A : Type ℓ} where
  any_by-filter_by :
      (f g : A → Bool) (xs : List A) → any_by g (filter_by f xs) ≡ any_by (λ x. f x && g x) xs
  any_by-filter_by f g [] = refl
  any_by-filter_by f g (x ∷ xs) = ground (arith, any_by-filter_by f g xs)

  any_by-or :
      (a b g : A → Bool) (xs : List A)
      → any_by (λ x. (a x || b x) && g x) xs
        ≡ any_by (λ x. a x && g x) xs || any_by (λ x. b x && g x) xs
  any_by-or a b g [] = refl
  any_by-or a b g (x ∷ xs) = ground (arith, any_by-or a b g xs)

  any_by-false : (xs : List A) → any_by (λ _. false) xs ≡ false
  any_by-false [] = refl
  any_by-false (x ∷ xs) = any_by-false xs

one_role :
    (c : Bool) (r : Role) (g : Role → Bool)
    → any_by (λ q. (c && same_role r q) && g q) sorted_roles ≡ c && g r
one_role false r g = refl
one_role true viewer g = ground arith
one_role true investigator g = ground arith
one_role true approver g = ground arith
one_role true operator g = ground arith
one_role true tenant_admin g = ground arith
one_role true platform_admin g = ground arith

module _ (g : Role → Bool) (tenant : Name) (at : Instant) where
  held : List RoleBinding → Role → Bool
  held bs r = any_by (λ b. counts tenant at b && same_role b.role r) bs

  any_held :
      (bs : List RoleBinding)
      → any_by (λ r. held bs r && g r) sorted_roles
        ≡ any_by (λ b. counts tenant at b && g b.role) bs
  unfolding held
  any_held [] = refl
  any_held (b ∷ bs) =
      any_by-or (λ r. counts tenant at b && same_role b.role r) (held bs) g sorted_roles
      ∙ ground (arith, one_role (counts tenant at b) b.role g, any_held bs)

  any_active :
      (bs : List RoleBinding)
      → any_by g (active_roles tenant at bs) ≡ any_by (λ b. counts tenant at b && g b.role) bs
  unfolding active_roles held
  any_active bs = any_by-filter_by (held bs) g sorted_roles ∙ any_held bs

-- A grant without the set of roles and its order.
unfoldable pub has_grant : Principal → Name → PermissionName → Instant → Bool
has_grant p tenant (known q) at =
    p.tenant_id == tenant && any_by (λ b. counts tenant at b && grants q b.role) p.role_bindings
has_grant p tenant (other name) at = false

pub decide-has_grant :
    (p : Principal) (tenant : Name) (q : PermissionName) (at : Instant)
    → (decide p tenant q at).allowed ≡ has_grant p tenant q at
unfolding decide has_grant
decide-has_grant p tenant (known q) at =
    ground (arith, any_active (grants q) tenant at p.role_bindings)
decide-has_grant p tenant (other name) at = ground arith

any_by_mono {ℓ} :
    {A : Type ℓ} (f g : A → Bool)
    → ((x : A) → f x ≡ true → g x ≡ true)
    → (xs : List A) → any_by f xs ≡ true
    → any_by g xs ≡ true
any_by_mono f g h [] e = cc
any_by_mono f g h (x ∷ xs) e = ground (arith, h x, any_by_mono f g h xs)

requeue_role : (r : Role) → grants dlq_requeue r ≡ true → same_role r tenant_admin ≡ true
unfolding grants
requeue_role viewer h = h
requeue_role investigator h = h
requeue_role approver h = h
requeue_role operator h = h
requeue_role tenant_admin h = refl
requeue_role platform_admin h = h

-- Only an active tenant administrator of the tenant may requeue dead letters.
pub decide-dlq_requeue :
    (p : Principal) (tenant : Name) (at : Instant)
    → (decide p tenant (known dlq_requeue) at).allowed ≡ true
    → (p.tenant_id ≡ tenant)
      × (any_by (λ b. counts tenant at b && same_role b.role tenant_admin) p.role_bindings ≡ true)
unfolding has_grant
decide-dlq_requeue p tenant at h =
    let e : has_grant p tenant (known dlq_requeue) at ≡ true = rw decide-has_grant at h in
    (
      ground arith,
      any_by_mono (λ b. counts tenant at b && grants dlq_requeue b.role) _
          (λ b k. ground (arith, requeue_role b.role)) p.role_bindings (ground arith),
    )

any_by-none {ℓ} :
    {A : Type ℓ} (f : A → Bool) (xs : List A) → ((x : A) → f x ≡ false) → any_by f xs ≡ false
any_by-none f [] h = refl
any_by-none f (x ∷ xs) h = ground (arith, h x, any_by-none f xs h)

duties : (r : Role) → grants approval_decide r && grants operation_propose r ≡ false
unfolding grants
duties viewer = refl
duties investigator = refl
duties approver = refl
duties operator = refl
duties tenant_admin = refl
duties platform_admin = refl

-- Every binding has the role.
abbrev pub HasOnly : Role → List RoleBinding → Type 0
HasOnly r bs = All (λ b. b.role ≡ r) bs

HasOnly-any :
    (r : Role) (q : Permission) (tenant : Name) (at : Instant) (bs : List RoleBinding)
    → HasOnly r bs
    → any_by (λ b. counts tenant at b && grants q b.role) bs ≡ true
    → grants q r ≡ true
HasOnly-any r q tenant at [] h e = cc
HasOnly-any r q tenant at (b ∷ bs) h e =
    rw (← h.0) (ground (arith, ap (grants q) h.0, HasOnly-any r q tenant at bs h.1))

-- No single role lets a principal both propose an operation and decide its approval, whatever the
-- tenants and the times of the two decisions.
pub decide_separates_duties :
    (p : Principal) (r : Role) (tenant tenant' : Name) (at at' : Instant)
    → HasOnly r p.role_bindings
    → (decide p tenant (known operation_propose) at).allowed ≡ true
    → (decide p tenant' (known approval_decide) at').allowed ≡ false
unfolding has_grant
decide_separates_duties p r tenant tenant' at at' h e =
    let e' : has_grant p tenant (known operation_propose) at ≡ true = rw decide-has_grant at e in
    rw decide-has_grant (
      ground (
        arith,
        duties r,
        HasOnly-any r operation_propose tenant at p.role_bindings h,
        HasOnly-any r approval_decide tenant' at' p.role_bindings h,
      ))

lapsed :
    (b : RoleBinding) (at at' : Instant)
    → b.assigned_at ≤ at
    → at ≤ at'
    → is_active b at' ≡ true
    → is_active b at ≡ true
unfolding is_active
lapsed b at at' h k e = ground arith

lapsed_any :
    (g : Role → Bool) (tenant : Name) (at at' : Instant) (bs : List RoleBinding)
    → at ≤ at'
    → All (λ b. b.assigned_at ≤ at) bs
    → any_by (λ b. counts tenant at' b && g b.role) bs ≡ true
    → any_by (λ b. counts tenant at b && g b.role) bs ≡ true
lapsed_any g tenant at at' [] h k e = e
lapsed_any g tenant at at' (b ∷ bs) h k e =
    ground (arith, lapsed b at at' k.0 h, lapsed_any g tenant at at' bs h k.1)

-- Time alone never grants: what is refused once all the bindings are assigned stays refused.
pub decide_lapses :
    (p : Principal) (tenant : Name) (q : PermissionName) (at at' : Instant)
    → at ≤ at'
    → All (λ b. b.assigned_at ≤ at) p.role_bindings
    → (decide p tenant q at).allowed ≡ false
    → (decide p tenant q at').allowed ≡ false
unfolding has_grant
decide_lapses p tenant (known q) at at' h k e =
    let e' : has_grant p tenant (known q) at ≡ false = rw decide-has_grant at e in
    rw decide-has_grant (ground (arith, lapsed_any (grants q) tenant at at' p.role_bindings h k))
decide_lapses p tenant (other name) at at' h k e = rw decide-has_grant refl
