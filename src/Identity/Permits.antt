-- ===== src/Identity/Permits.antt =====
-- identity/authorization.py: `decide` against an account of its own. Who may do what is written here by
-- permission, and the times of a binding as orders of instants.
use aegis_agent_platform.Prelude.{
  ◌≤◌, ◌<◌, ◌≡◌, ◌↔◌, ◌⊎◌, inl, inr, refl, Bool, true, false, Option, none, some, List, [], ◌∷◌,
  arith, ◌&&◌, any_by, Bool-cases,
}
use aegis_agent_platform.Domain.Events.{Name, Instant}
use aegis_agent_platform.Identity.{
  Role, viewer, investigator, approver, operator, tenant_admin, platform_admin, Permission,
  tenant_read, resource_read, investigation_create, approval_decide, operation_propose, policy_read,
  policy_manage, quota_manage, audit_read, identity_manage, role_binding_manage,
  secret_reference_manage, platform_tenant_create, platform_audit_read, queue_read, work_cancel,
  dlq_requeue, work_reconcile, model_read, model_diagnostic, RoleBinding, Principal, PermissionName,
  known, other, grants, is_active, counts, decide, permission_value,
}
use aegis_agent_platform.Identity.Access.{has_grant, decide-has_grant}

-- The roles that work inside a tenant.
abbrev of_tenant : Role → Bool
of_tenant platform_admin = false
of_tenant _ = true

-- The roles that operate its queues.
abbrev of_queues : Role → Bool
of_queues operator = true
of_queues tenant_admin = true
of_queues _ = false

abbrev of_administration : Role → Bool
of_administration tenant_admin = true
of_administration _ = false

abbrev of_platform : Role → Bool
of_platform platform_admin = true
of_platform _ = false

-- The roles that have a permission.
abbrev pub may : Permission → Role → Bool
may tenant_read r = true
may resource_read r = of_tenant r
may policy_read r = of_tenant r
may model_read r = of_tenant r
may investigation_create investigator = true
may investigation_create _ = false
may approval_decide approver = true
may approval_decide _ = false
may operation_propose operator = true
may operation_propose _ = false
may model_diagnostic investigator = true
may model_diagnostic r = of_queues r
may queue_read r = of_queues r
may work_cancel r = of_queues r
may policy_manage r = of_administration r
may quota_manage r = of_administration r
may audit_read r = of_administration r
may identity_manage r = of_administration r
may role_binding_manage r = of_administration r
may secret_reference_manage r = of_administration r
may dlq_requeue r = of_administration r
may work_reconcile platform_admin = true
may work_reconcile r = of_administration r
may platform_tenant_create r = of_platform r
may platform_audit_read r = of_platform r

-- An end that is given is still to come.
abbrev pub NotOver : Instant → Option Instant → Type 0
NotOver at none = Unit {0}
NotOver at (some end) = at < end

pub record InForce (b : RoleBinding) (at : Instant) : Type 0 where
  pub assigned : b.assigned_at ≤ at
  pub not_expired : NotOver at b.expires_at
  pub not_revoked : NotOver at b.revoked_at

abbrev pub AnyOf : {A : Type 0} → (A → Type 0) → List A → Type 0
AnyOf P [] = ⊥
AnyOf P (x ∷ xs) = P x ⊎ AnyOf P xs

-- The principal belongs to the tenant, and one of its bindings is of that tenant, in force, and of a
-- role that has the permission.
abbrev pub IsPermitted : Principal → Name → PermissionName → Instant → Type 0
IsPermitted p tenant (known q) at =
    (p.tenant_id ≡ tenant)
    × AnyOf (λ b. (b.tenant_id ≡ tenant) × InForce b at × (may q b.role ≡ true)) p.role_bindings
IsPermitted p tenant (other name) at = ⊥

every_role :
    (f g : Role → Bool)
    → f viewer ≡ g viewer
    → f investigator ≡ g investigator
    → f approver ≡ g approver
    → f operator ≡ g operator
    → f tenant_admin ≡ g tenant_admin
    → f platform_admin ≡ g platform_admin
    → (r : Role) → f r ≡ g r
every_role f g a b c d e h viewer = a
every_role f g a b c d e h investigator = b
every_role f g a b c d e h approver = c
every_role f g a b c d e h operator = d
every_role f g a b c d e h tenant_admin = e
every_role f g a b c d e h platform_admin = h

grants-may : (q : Permission) (r : Role) → grants q r ≡ may q r
unfolding grants permission_value
grants-may tenant_read =
    every_role (grants tenant_read) (may tenant_read) refl refl refl refl refl refl
grants-may resource_read =
    every_role (grants resource_read) (may resource_read) refl refl refl refl refl refl
grants-may investigation_create =
    every_role (grants investigation_create) (may investigation_create) refl refl refl refl refl
      refl
grants-may approval_decide =
    every_role (grants approval_decide) (may approval_decide) refl refl refl refl refl refl
grants-may operation_propose =
    every_role (grants operation_propose) (may operation_propose) refl refl refl refl refl refl
grants-may policy_read =
    every_role (grants policy_read) (may policy_read) refl refl refl refl refl refl
grants-may policy_manage =
    every_role (grants policy_manage) (may policy_manage) refl refl refl refl refl refl
grants-may quota_manage =
    every_role (grants quota_manage) (may quota_manage) refl refl refl refl refl refl
grants-may audit_read =
    every_role (grants audit_read) (may audit_read) refl refl refl refl refl refl
grants-may identity_manage =
    every_role (grants identity_manage) (may identity_manage) refl refl refl refl refl refl
grants-may role_binding_manage =
    every_role (grants role_binding_manage) (may role_binding_manage) refl refl refl refl refl refl
grants-may secret_reference_manage =
    every_role (grants secret_reference_manage) (may secret_reference_manage) refl refl refl refl
      refl refl
grants-may platform_tenant_create =
    every_role (grants platform_tenant_create) (may platform_tenant_create) refl refl refl refl refl
      refl
grants-may platform_audit_read =
    every_role (grants platform_audit_read) (may platform_audit_read) refl refl refl refl refl refl
grants-may queue_read =
    every_role (grants queue_read) (may queue_read) refl refl refl refl refl refl
grants-may work_cancel =
    every_role (grants work_cancel) (may work_cancel) refl refl refl refl refl refl
grants-may dlq_requeue =
    every_role (grants dlq_requeue) (may dlq_requeue) refl refl refl refl refl refl
grants-may work_reconcile =
    every_role (grants work_reconcile) (may work_reconcile) refl refl refl refl refl refl
grants-may model_read =
    every_role (grants model_read) (may model_read) refl refl refl refl refl refl
grants-may model_diagnostic =
    every_role (grants model_diagnostic) (may model_diagnostic) refl refl refl refl refl refl

is_active-InForce : (b : RoleBinding) (at : Instant) → (is_active b at ≡ true) ↔ InForce b at
unfolding is_active
is_active-InForce b at = (
  λ h. record { assigned = ground arith; not_expired = ground arith; not_revoked = ground arith },
  λ h. ground (arith, h.assigned, h.not_expired, h.not_revoked),
)

any_by-AnyOf :
    {A : Type 0} (f : A → Bool) (P : A → Type 0)
    → ((x : A) → (f x ≡ true) ↔ P x)
    → (xs : List A) → (any_by f xs ≡ true) ↔ AnyOf P xs
any_by-AnyOf f P h [] = (λ e. cc, λ e. absurd e)
any_by-AnyOf f P h (x ∷ xs) = (
  λ e. elim (Bool-cases (f x)) [
    | inl t ↦ inl ((h x).0 t)
    | inr n ↦ inr ((any_by-AnyOf f P h xs).0 (ground arith))
  ],
  λ e. elim e [
    | inl t ↦ ground (arith, (h x).1 t)
    | inr t ↦ ground (arith, (any_by-AnyOf f P h xs).1 t)
  ],
)

module _ (tenant : Name) (q : Permission) (at : Instant) where
  binding_iff :
      (b : RoleBinding)
      → ((counts tenant at b && grants q b.role) ≡ true)
        ↔ ((b.tenant_id ≡ tenant) × InForce b at × (may q b.role ≡ true))
  binding_iff b = (
    λ e. (
      ground arith,
      (is_active-InForce b at).0 (ground arith),
      ground (arith, grants-may q b.role),
    ),
    λ (own, valid, granted).
        ground (arith, own, (is_active-InForce b at).1 valid, granted, grants-may q b.role),
  )

-- `decide` allows exactly the known permissions of a principal of the same tenant for which some
-- binding of that tenant is assigned, neither expired nor revoked, and of a role that, by the list of
-- who may do what, has the permission.
pub decide-IsPermitted :
    (p : Principal) (tenant : Name) (q : PermissionName) (at : Instant)
    → ((decide p tenant q at).allowed ≡ true) ↔ IsPermitted p tenant q at
unfolding has_grant
decide-IsPermitted p tenant (known q) at =
    let same = decide-has_grant p tenant (known q) at in
    let some_binding = any_by-AnyOf _ _ (binding_iff tenant q at) p.role_bindings in
    (
      λ e. (ground (arith, same), some_binding.0 (ground (arith, same))),
      λ (own, t). ground (arith, same, own, some_binding.1 t),
    )
decide-IsPermitted p tenant (other name) at =
    (λ e. cc (decide-has_grant p tenant (other name) at), λ e. absurd e)
