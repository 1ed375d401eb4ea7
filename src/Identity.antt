-- ===== src/Identity.antt =====
-- identity/models.py and identity/authorization.py: principals, role bindings and the
-- deny-by-default authorization service. Tenant, user and service identifiers are numbered.
pub mod Access
pub mod Permits
mod Tests
use Prim.Native.String.{String}
use aegis_agent_platform.Prelude.{
  ℕ, Bool, true, false, Option, none, some, List, [], ◌∷◌, not, ◌&&◌, ◌||◌, ltb, leb, ◌==◌, any_by,
  filter_by, is_some, Eq, string_eq, if◌then◌else◌,
}
use aegis_agent_platform.Domain.Events.{Name, Instant}

pub data PrincipalKind : Type 0 where
  user service : PrincipalKind

pub data Role : Type 0 where
  viewer investigator approver operator tenant_admin platform_admin : Role

pub data Permission : Type 0 where
  tenant_read resource_read investigation_create approval_decide : Permission
  operation_propose policy_read policy_manage quota_manage audit_read : Permission
  identity_manage role_binding_manage secret_reference_manage : Permission
  platform_tenant_create platform_audit_read queue_read work_cancel : Permission
  dlq_requeue work_reconcile model_read model_diagnostic : Permission

-- `Role.value`
abbrev pub role_value : Role → String
role_value viewer = "viewer"
role_value investigator = "investigator"
role_value approver = "approver"
role_value operator = "operator"
role_value tenant_admin = "tenant_admin"
role_value platform_admin = "platform_admin"

-- `Permission.value`
unfoldable pub permission_value : Permission → String
permission_value tenant_read = "tenant:read"
permission_value resource_read = "resource:read"
permission_value investigation_create = "investigation:create"
permission_value approval_decide = "approval:decide"
permission_value operation_propose = "operation:propose"
permission_value policy_read = "policy:read"
permission_value policy_manage = "policy:manage"
permission_value quota_manage = "quota:manage"
permission_value audit_read = "audit:read"
permission_value identity_manage = "identity:manage"
permission_value role_binding_manage = "role_binding:manage"
permission_value secret_reference_manage = "secret_reference:manage"
permission_value platform_tenant_create = "platform:tenant:create"
permission_value platform_audit_read = "platform:audit:read"
permission_value queue_read = "queue:read"
permission_value work_cancel = "work:cancel"
permission_value dlq_requeue = "dlq:requeue"
permission_value work_reconcile = "work:reconcile"
permission_value model_read = "model:read"
permission_value model_diagnostic = "model:diagnostic"

-- The number that stands for "platform".
abbrev pub platform_tenant_id : Name
platform_tenant_id = 1

pub record RoleBinding : Type 0 where
  pub tenant_id : Name
  pub role : Role
  pub assigned_by : Name
  pub assigned_at : Instant
  pub expires_at : Option Instant
  pub revoked_at : Option Instant

-- `role is Role.PLATFORM_ADMIN`
abbrev is_platform_admin : Role → Bool
is_platform_admin platform_admin = true
is_platform_admin _ = false

-- `at < end`, where an end that is not given never comes.
abbrev pub before : Instant → Option Instant → Bool
before at none = true
before at (some t) = ltb at t

-- `RoleBinding.__post_init__`
unfoldable pub binding_is_valid : RoleBinding → Bool
binding_is_valid b =
    (not (is_platform_admin b.role) || b.tenant_id == platform_tenant_id)
    && before b.assigned_at b.expires_at

unfoldable pub is_active : RoleBinding → Instant → Bool
is_active b at = leb b.assigned_at at && before at b.expires_at && before at b.revoked_at

pub record Principal : Type 0 where
  pub subject : Name
  pub issuer : Name
  pub tenant_id : Name
  pub kind : PrincipalKind
  pub role_bindings : List RoleBinding
  pub user_id : Option Name
  pub service_identity : Option Name

abbrev identity_fits : PrincipalKind → Option Name → Option Name → Bool
identity_fits user (some _) none = true
identity_fits service none (some _) = true
identity_fits _ _ _ = false

-- `Principal.__post_init__`
unfoldable pub principal_is_valid : Principal → Bool
principal_is_valid p =
    ltb 0 p.subject
    && ltb 0 p.issuer
    && identity_fits p.kind p.user_id p.service_identity
    && not (any_by (λ b. not (b.tenant_id == p.tenant_id)) p.role_bindings)

-- `ROLE_PERMISSIONS`
abbrev role_permissions : Role → List Permission
role_permissions viewer = tenant_read ∷ resource_read ∷ policy_read ∷ model_read ∷ []
role_permissions investigator =
    tenant_read ∷ resource_read ∷ policy_read ∷ investigation_create ∷ model_read ∷ model_diagnostic
    ∷ []
role_permissions approver =
    tenant_read ∷ resource_read ∷ policy_read ∷ approval_decide ∷ model_read ∷ []
role_permissions operator =
    tenant_read ∷ resource_read ∷ policy_read ∷ operation_propose ∷ queue_read ∷ work_cancel
    ∷ model_read ∷ model_diagnostic ∷ []
role_permissions tenant_admin =
    tenant_read ∷ resource_read ∷ policy_read ∷ policy_manage ∷ quota_manage ∷ audit_read
    ∷ identity_manage ∷ role_binding_manage ∷ secret_reference_manage ∷ queue_read ∷ work_cancel
    ∷ dlq_requeue ∷ work_reconcile ∷ model_read ∷ model_diagnostic ∷ []
role_permissions platform_admin =
    tenant_read ∷ platform_tenant_create ∷ platform_audit_read ∷ work_reconcile ∷ []

-- `permission in ROLE_PERMISSIONS.get(role, frozenset())`; members of a `StrEnum` are equal if
-- their values are.
unfoldable pub grants : Permission → Role → Bool
unfolding permission_value
grants p r =
    any_by (λ q. string_eq.beq (permission_value p) (permission_value q)) (role_permissions r)

pub record AuthorizationDecision : Type 0 where
  pub allowed : Bool
  pub reason : String
  pub tenant_id : Name
  pub permission : String
  pub active_roles : List Role

-- `Permission | str`
pub data PermissionName : Type 0 where
  known : Permission → PermissionName
  other : String → PermissionName

-- The roles in the order of their values.
abbrev pub sorted_roles : List Role
sorted_roles = approver ∷ investigator ∷ operator ∷ platform_admin ∷ tenant_admin ∷ viewer ∷ []

abbrev pub same_role : Role → Role → Bool
same_role r q = string_eq.beq (role_value r) (role_value q)

-- A binding that the set comprehension of `decide` keeps.
abbrev pub counts : Name → Instant → RoleBinding → Bool
counts tenant at b = b.tenant_id == tenant && is_active b at

-- `sorted({binding.role ...}, key=value)`: a set in the order of the values is the roles in that
-- order that some binding has.
pub active_roles : Name → Instant → List RoleBinding → List Role
active_roles tenant at bindings =
    filter_by (λ r. any_by (λ b. counts tenant at b && same_role b.role r) bindings) sorted_roles

-- `AuthorizationService.decide`
unfoldable pub decide : Principal → Name → PermissionName → Instant → AuthorizationDecision
unfolding active_roles
decide principal tenant (other name) at =
    if principal.tenant_id == tenant
    then record {
      allowed = false;
      reason = "unknown_permission";
      tenant_id = tenant;
      permission = name;
      active_roles = [];
    }
    else record {
      allowed = false;
      reason = "cross_tenant_access_denied";
      tenant_id = tenant;
      permission = name;
      active_roles = [];
    }
decide principal tenant (known p) at =
    if principal.tenant_id == tenant
    then (let roles = active_roles tenant at principal.role_bindings in
        let granted = any_by (grants p) roles in
        record {
          allowed = granted;
          reason = if granted then "role_permission_granted" else "permission_not_granted";
          tenant_id = tenant;
          permission = permission_value p;
          active_roles = roles;
        })
    else record {
      allowed = false;
      reason = "cross_tenant_access_denied";
      tenant_id = tenant;
      permission = permission_value p;
      active_roles = [];
    }
