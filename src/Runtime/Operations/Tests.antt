-- ===== src/Runtime/Operations/Tests.antt =====
-- The theorem on requeues for an administrator who uses the approval of another actor.
use aegis_agent_platform.Prelude.{◌+◌, ◌≡◌, ◌≢◌, refl, true, none, some, [], ◌∷◌, ok}
use aegis_agent_platform.Identity.{
  Principal, PrincipalKind, tenant_admin, known, dlq_requeue, decide, grants, is_active,
}
use aegis_agent_platform.Identity.Permits.{IsPermitted}
use aegis_agent_platform.Domain.Work.{dead_letter}
use aegis_agent_platform.Domain.Work.Request.{to_event, work_request_is_valid}
use aegis_agent_platform.Storage.{Database, Session, transaction, update_item}
use aegis_agent_platform.Storage.Ledger.{
  append_atomic, validate_append, append_in_transaction, current_version,
}
use aegis_agent_platform.Runtime.Work.{Python, load_request, make_event}
use aegis_agent_platform.Runtime.Work.Requeue.{
  RequeueApproval, requeue_dead_letter, requeue_projection, check_approval,
}
use aegis_agent_platform.Runtime.Operations.{actor_id, require, requeue, requeue-authorized}

abbrev admin : Principal
admin = record {
  subject = 4;
  issuer = 5;
  tenant_id = 7;
  kind = PrincipalKind.user;
  role_bindings =
      (record {
        tenant_id = 7;
        role = tenant_admin;
        assigned_by = 3;
        assigned_at = 10;
        expires_at = some 100;
        revoked_at = none;
      })
      ∷ [];
  user_id = some 4;
  service_identity = none;
}

abbrev python : Python
python = record {
  str_of = λ v. 1;
  int_of = λ v. some 1;
  instant_of = λ v. some 1;
  encoded_length = λ p. 100;
  same_json = λ p q. true;
}

abbrev alone : Session
alone = record {
  uuid_factory = λ k. 100 + k;
  clock_timestamp = λ k. 50 + k;
  others = λ i s. s;
  commit_fault = λ i s. none;
}

abbrev approval : RequeueApproval
approval = record { approval_id = 21; approved_by = 31; approved_at = 5; scope = "dlq:requeue" }

abbrev database : Database
database = record {
  event_stream_heads = ((7, 9), 6) ∷ [];
  events = [];
  outbox_messages = [];
  inbox_messages = [];
  work_items =
      (
        (7, 9),
        record {
          work_kind = 3;
          idempotency_key = 4;
          status = dead_letter;
          requested_at = 1;
          available_at = 1;
          max_attempts = 3;
          timeout_seconds = 60;
          request_event_id = 1;
          correlation_id = some 5;
          causation_id = none;
          request_payload = [];
          attempt_count = 3;
          completed_at = some 40;
          cancel_requested_at = none;
          last_error_code = some "lost";
        },
      )
      ∷ [];
  work_leases = [];
  work_dead_letters = [];
  work_requeue_approvals =
      (
        (7, 21),
        record {
          work_id = 9;
          approved_by = 31;
          approved_at = 5;
          expires_at = 80;
          consumed_at = none;
          consumed_by = none;
        },
      )
      ∷ [];
}

abbrev requeued : Database
requeued = (requeue python alone admin 7 9 approval 45 database).1

requeued_lem : requeue python alone admin 7 9 approval 45 database ≡ (ok tt, requeued)
unfolding requeue require decide requeue_dead_letter load_request make_event to_event
    work_request_is_valid transaction current_version append_atomic validate_append
    append_in_transaction requeue_projection check_approval update_item is_active grants
requeued_lem = refl

requeue-authorized_example :
    IsPermitted admin 7 (known dlq_requeue) 45 × (approval.approved_by ≢ actor_id admin)
requeue-authorized_example =
    requeue-authorized python alone admin 7 9 approval 45 database requeued requeued_lem
