-- ===== src/Identity/Tests.antt =====
-- The theorems on authorization for one principal.
use aegis_agent_platform.Prelude.{◌≡◌, ◌↔◌, refl, true, false, none, some, [], ◌∷◌, arith}
use aegis_agent_platform.Identity.{
  Principal, PrincipalKind, RoleBinding, Role, operator, tenant_admin, approval_decide, dlq_requeue,
  known, decide, active_roles, grants, is_active, permission_value,
}
use aegis_agent_platform.Identity.Access.{decide_separates_duties, decide_lapses}
use aegis_agent_platform.Identity.Permits.{IsPermitted, decide-IsPermitted}

abbrev binding : Role → RoleBinding
binding role = record {
  tenant_id = 7;
  role = role;
  assigned_by = 3;
  assigned_at = 10;
  expires_at = some 100;
  revoked_at = none;
}

abbrev admin : Principal
admin = record {
  subject = 4;
  issuer = 5;
  tenant_id = 7;
  kind = PrincipalKind.user;
  role_bindings = binding tenant_admin ∷ [];
  user_id = some 4;
  service_identity = none;
}

abbrev proposer : Principal
proposer = record admin { role_bindings = binding operator ∷ binding operator ∷ [] }

decide-IsPermitted_example :
    ((decide admin 7 (known dlq_requeue) 50).allowed ≡ true)
    ↔ IsPermitted admin 7 (known dlq_requeue) 50
decide-IsPermitted_example = decide-IsPermitted admin 7 (known dlq_requeue) 50

decide_separates_duties_example : (decide proposer 7 (known approval_decide) 60).allowed ≡ false
unfolding decide active_roles grants is_active permission_value
decide_separates_duties_example =
    decide_separates_duties proposer operator 7 7 50 60 (refl, (refl, tt)) refl

decide_lapses_example : (decide proposer 7 (known dlq_requeue) 90).allowed ≡ false
unfolding decide active_roles grants is_active permission_value
decide_lapses_example =
    decide_lapses proposer 7 (known dlq_requeue) 50 90 (omega arith)
      (omega arith, (omega arith, tt)) refl
