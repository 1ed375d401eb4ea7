-- ===== src/Runtime/Operations.antt =====
-- runtime/operations.py: `WorkerOperations`, the calls of an operator on the work repository. The
-- repository is the one on Postgres.
mod Tests
use Prim.Native.String.{String}
use aegis_agent_platform.Prelude.{
  ℕ, ◌≡◌, ◌≢◌, refl, Bool, true, false, not, ◌&&◌, ◌||◌, ◌==◌, Option, none, some, List, [], ◌∷◌,
  Result, ok, err, Exec, ◌>>=◌, ◌>>◌, pure, raise_if, any_by, inl, inr, Bool-cases, arith,
}
use aegis_agent_platform.Domain.Events.{Name, Uuid, Instant}
use aegis_agent_platform.Identity.{
  Principal, Role, Permission, PermissionName, AuthorizationDecision, tenant_admin, platform_admin,
  work_cancel, dlq_requeue, work_reconcile, known, decide, same_role,
}
use aegis_agent_platform.Identity.Permits.{IsPermitted, decide-IsPermitted}
use aegis_agent_platform.Storage.{Database, Session, Query, StorageFault}
use aegis_agent_platform.Runtime.Work.Settle.{cancel_by_id}
use aegis_agent_platform.Runtime.Work.Requeue.{
  RequeueApproval, requeue_dead_letter, approve_dead_letter_requeue,
}
use aegis_agent_platform.Runtime.Work.Expire.{reconcile_expired}
use aegis_agent_platform.Runtime.Work.{Python}

-- `Principal.actor_id`; a principal has one of the two identities.
abbrev pub actor_id : Principal → Name
actor_id p = elim p.user_id [
  | some user ↦ user
  | none ↦ elim p.service_identity [ some service ↦ service | none ↦ 0 ]
]

-- `OperationDeniedError`, or what the repository raises.
pub data OperationFault : Type 0 where
  denied : String → OperationFault
  storage : StorageFault → OperationFault

abbrev pub Call : Type 0 → Type 0
Call A = Exec OperationFault Database A

abbrev pub lifted :
    {A : Type 0} → Result StorageFault A × Database → Result OperationFault A × Database
lifted (ok a, s) = (ok a, s)
lifted (err e, s) = (err (storage e), s)

-- `await self._repository...`
abbrev pub on_repository : {A : Type 0} → Query A → Call A
on_repository m s = lifted (m s)

-- `_require`
unfoldable pub require : Principal → Name → Permission → Instant → Call (Unit {0})
require principal tenant permission at =
    let decision = decide principal tenant (known permission) at in
    raise_if (not decision.allowed) (denied decision.reason)

abbrev pub is_admin : AuthorizationDecision → Bool
is_admin decision =
    any_by (λ r. same_role r tenant_admin || same_role r platform_admin) decision.active_roles

module _ (python : Python) (session : Session) (principal : Principal) (context : Name) where
  unfoldable pub cancel_work : Uuid → Instant → Call (Unit {0})
  cancel_work work at = do
    require principal context work_cancel at
    on_repository (cancel_by_id python session context work at (actor_id principal))

  unfoldable pub requeue : Uuid → RequeueApproval → Instant → Call (Unit {0})
  requeue work approval at = do
    require principal context dlq_requeue at
    raise_if (approval.approved_by == actor_id principal)
        (denied "requeue requires a different approving actor")
    on_repository (requeue_dead_letter session context work at approval (actor_id principal))

  abbrev pub approval_by : Uuid → Instant → RequeueApproval
  approval_by approval_id at = record {
    approval_id = approval_id;
    approved_by = actor_id principal;
    approved_at = at;
    scope = "dlq:requeue";
  }

  unfoldable pub approve : Uuid → Uuid → Instant → Instant → Call RequeueApproval
  approve work approval_id at expires_at = do
    require principal context dlq_requeue at
    on_repository
        (approve_dead_letter_requeue session context work (approval_by approval_id at) expires_at)
    pure (approval_by approval_id at)

  -- Telemetry leaves the database alone.
  unfoldable pub reconcile : Instant → ℕ → Call (List Uuid)
  reconcile at limit = do
    raise_if
        (let decision = decide principal context (known work_reconcile) at in
          not decision.allowed || not (is_admin decision))
        (denied "tenant admin or platform admin required")
    on_repository (reconcile_expired session context at limit)

-- A requeue that returns was made by a principal who is permitted it at the time and who is not the
-- actor of the approval.
pub requeue-authorized :
    (python : Python) (session : Session) (p : Principal) (context : Name) (work : Uuid)
    (approval : RequeueApproval) (at : Instant) (s s' : Database)
    → requeue python session p context work approval at s ≡ (ok tt, s')
    → IsPermitted p context (known dlq_requeue) at × (approval.approved_by ≢ actor_id p)
unfolding requeue require
requeue-authorized python session p context work approval at s s' h =
    elim (Bool-cases (decide p context (known dlq_requeue) at).allowed) [
      | inr refused ↦ absurd (ground (arith, h, refused))
      | inl allowed ↦ elim (Bool-cases (approval.approved_by == actor_id p)) [
        | inl own ↦ absurd (ground (arith, h, allowed, own))
        | inr distinct ↦ (
          (decide-IsPermitted p context (known dlq_requeue) at).0 allowed,
          ground (arith, distinct),
        )
      ]
    ]
