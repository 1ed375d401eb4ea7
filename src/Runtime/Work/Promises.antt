-- ===== src/Runtime/Work/Promises.antt =====
-- What the work repository of runtime/postgres.py promises: its status column implements the state
-- machine of domain/work.py over the ledger, and a claim fences the owners before it.
use Prim.Native.String.{String}
use aegis_agent_platform.Prelude.{
  ℕ, ◌+◌, ◌≡◌, ◌≢◌, true, Option, some, ok, err, lookup, lookup-insert_self, pair_eq, arith,
  Option-cases, inl, inr, Bool-cases, leb,
}
use aegis_agent_platform.Domain.Events.{Name, Uuid, Instant}
use aegis_agent_platform.Domain.Work.{WorkLease, FailureClass}
use aegis_agent_platform.Domain.Work.Request.{WorkRequest}
use aegis_agent_platform.Storage.{Database, Session, fencing_error}
use aegis_agent_platform.Storage.Ledger.{check_fence}
use aegis_agent_platform.Runtime.Scheduler.{QueueDelivery}
use aegis_agent_platform.Runtime.Work.{Python}
use aegis_agent_platform.Runtime.Work.Statements.{work_key}
use aegis_agent_platform.Runtime.Work.Claims.{
  register, mark_published, claim, start, claim_projection, count_active, take_claim, take_item,
  upsert_lease, new_lease_row,
}
use aegis_agent_platform.Runtime.Work.Settle.{
  succeed, cancel, fail, release, request_cancel, cancel_by_id,
}
use aegis_agent_platform.Runtime.Work.Requeue.{RequeueApproval, requeue_dead_letter}
use aegis_agent_platform.Runtime.Work.Duties.{requeue_dead_letter-Ends}
use aegis_agent_platform.Runtime.Work.Expire.{reconcile_expired}
use aegis_agent_platform.Runtime.Work.Reconciled.{reconcile_expired-Ends}
use aegis_agent_platform.Runtime.Work.Edges.{not_claimed}
use aegis_agent_platform.Runtime.Work.Agreement.{status_of, Agrees}
use aegis_agent_platform.Runtime.Work.Refinement.{
  register-Ends, mark_published-Ends, start-Ends, claim-Ends,
}
use aegis_agent_platform.Runtime.Work.Endings.{
  cancel-Ends, release-Ends, request_cancel-Ends, cancel_by_id-Ends,
}
use aegis_agent_platform.Runtime.Work.Failures.{succeed-Ends, fail-Ends}
use aegis_agent_platform.Storage.Runs.{bind-Ran}

-- The calls of the repository that append events, with their arguments.
pub data Operation : Type 0 where
  registering : WorkRequest → Uuid → Uuid → Operation
  publishing : QueueDelivery → Instant → Operation
  claiming : QueueDelivery → Name → Instant → Instant → ℕ → Operation
  starting cancelling : QueueDelivery → WorkLease → Instant → Operation
  releasing : WorkLease → Instant → String → Instant → Operation
  asking : WorkRequest → Instant → Option Name → Operation
  asking_by_id : Uuid → Instant → Name → Operation
  requeuing : Uuid → Instant → RequeueApproval → Name → Operation
  reconciling : Instant → ℕ → Operation

-- The calls that settle a lease by its outcome.
pub data Settlement : Type 0 where
  succeeding : QueueDelivery → Instant → Name → Settlement
  failing : QueueDelivery → Instant → FailureClass → String → Option Instant → Settlement

module _ (python : Python) (session : Session) (context : Name) where
  abbrev pub perform : Operation → Database → Database
  perform (registering r event_id message_id) s =
      (register python session context r event_id message_id s).1
  perform (publishing d at) s = (mark_published python session context d at s).1
  perform (claiming d owner now expires_at limit) s =
      (claim python session context d owner now expires_at limit s).1
  perform (starting d lease at) s = (start python session context d lease at s).1
  perform (cancelling d lease at) s = (cancel python session context d lease at s).1
  perform (releasing lease at reason retry_at) s =
      (release python session context lease at reason retry_at s).1
  perform (asking r at actor) s = (request_cancel python session context 0 r at actor s).1
  perform (asking_by_id work at actor) s = (cancel_by_id python session context work at actor s).1
  perform (requeuing work at approval actor) s =
      (requeue_dead_letter session context work at approval actor s).1
  perform (reconciling now limit) s = (reconcile_expired session context now limit s).1

  abbrev pub settle_lease : WorkLease → Settlement → Database → Database
  settle_lease lease (succeeding d at result_reference) s =
      (succeed python session context d lease at result_reference s).1
  settle_lease lease (failing d at class code retry_at) s =
      (fail python session context d lease at class code retry_at s).1

-- A call leaves the status column in agreement with the ledger, whatever it returns or raises, if
-- the column agreed before and what other sessions commit between its transactions keeps that.
pub perform-Agrees :
    (python : Python) (session : Session) (context : Name) (op : Operation) (s : Database)
    → ((i : ℕ) (d : Database) → Agrees d → Agrees (session.others i d))
    → Agrees s
    → Agrees (perform python session context op s)
perform-Agrees python session context (registering r event_id message_id) s steady h =
    (register-Ends Agrees (λ s h. h) python session steady context r event_id message_id).at s h
perform-Agrees python session context (publishing d at) s steady h =
    (mark_published-Ends Agrees (λ s h. h) python session steady context d at).at s h
perform-Agrees python session context (claiming d owner now expires_at limit) s steady h =
    (claim-Ends Agrees (λ s h. h) python session steady context d owner now expires_at limit).at s h
perform-Agrees python session context (starting d lease at) s steady h =
    (start-Ends Agrees (λ s h. h) python session steady context d lease at).at s h
perform-Agrees python session context (cancelling d lease at) s steady h =
    (cancel-Ends Agrees (λ s h. h) python session steady context d lease at).at s h
perform-Agrees python session context (releasing lease at reason retry_at) s steady h =
    (release-Ends Agrees (λ s h. h) python session steady context lease at reason retry_at).at s h
perform-Agrees python session context (asking r at actor) s steady h =
    (request_cancel-Ends Agrees (λ s h. h) python session steady context 0 r at actor).at s h
perform-Agrees python session context (asking_by_id work at actor) s steady h =
    (cancel_by_id-Ends Agrees (λ s h. h) python session steady context work at actor).at s h
perform-Agrees python session context (requeuing work at approval actor) s steady h =
    (requeue_dead_letter-Ends Agrees (λ s h. h) session steady context work at approval actor).at s
      h
perform-Agrees python session context (reconciling now limit) s steady h =
    (reconcile_expired-Ends session context now steady limit).at s h

-- The column agrees, and the work of a lease is not waiting to be started.
pub record AgreesStarted (lease : WorkLease) (s : Database) : Type 0 where
  pub agrees : Agrees s
  pub started : not_claimed (status_of lease.tenant_id lease.work_id s) ≡ true

-- `succeed` and `fail` leave the status column in agreement with the ledger, if it agreed before
-- and the work of the lease was not in the status claimed, and what other sessions commit keeps
-- both.
pub settle-Agrees :
    (python : Python) (session : Session) (context : Name) (lease : WorkLease) (op : Settlement)
    (s : Database)
    → ((i : ℕ) (d : Database) → AgreesStarted lease d → AgreesStarted lease (session.others i d))
    → AgreesStarted lease s
    → Agrees (settle_lease python session context lease op s)
settle-Agrees python session context lease (succeeding d at result_reference) s steady h =
    (succeed-Ends (AgreesStarted lease) (λ s h. h.agrees) python session steady context lease
        (λ s h. h.started) d at result_reference).at
      s h
settle-Agrees python session context lease (failing d at class code retry_at) s steady h =
    (fail-Ends (AgreesStarted lease) (λ s h. h.agrees) python session steady context lease
        (λ s h. h.started) d at class code retry_at).at
      s h

upsert_lease-row :
    (lease : WorkLease) (at expiry : Instant) (s s' : Database)
    → upsert_lease lease at expiry s ≡ (ok tt, s')
    → lookup (work_key lease) s'.work_leases ≡ some (new_lease_row lease at expiry)
unfolding upsert_lease
upsert_lease-row lease at expiry s s' h =
    elim (Option-cases (lookup (work_key lease) s.work_leases)) [
      | inl missing ↦ ground (
        arith,
        h,
        missing,
        lookup-insert_self (work_key lease) (new_lease_row lease at expiry) s.work_leases,
      )
      | inr (row, found) ↦ ground (
        arith,
        h,
        found,
        lookup-insert_self (work_key lease) (new_lease_row lease at expiry) s.work_leases,
      )
    ]

take_claim-row :
    (lease : WorkLease) (duration : ℕ) (at now : Instant) (s s' : Database)
    → take_claim lease duration at now s ≡ (ok tt, s')
    → lookup (work_key lease) s'.work_leases ≡ some (new_lease_row lease at (at + duration))
take_claim-row lease duration at now s s' h =
    let ran = bind-Ran (take_item lease now) (λ _. upsert_lease lease at (at + duration)) s h in
    upsert_lease-row lease at (at + duration) ran.middle s' ran.second

check_fence-other :
    (session : Session) (i : ℕ) (lease : WorkLease) (at expiry : Instant) (token : Uuid)
    (generation : ℕ) (now : Instant) (s : Database)
    → lookup (work_key lease) s.work_leases ≡ some (new_lease_row lease at expiry)
    → generation ≢ lease.generation
    → check_fence session i lease.tenant_id lease.work_id token generation now s
      ≡ (err (fencing_error generation 0), s)
unfolding check_fence
check_fence-other session i lease at expiry token generation now s h other =
    ground (arith, h, other)

-- After the writes of a claim have returned, the fence refuses every other generation of the
-- work's lease, with a FencingError and without a change, whatever its token and the time.
pub claim_projection-fences :
    (session : Session) (i : ℕ) (lease : WorkLease) (limit duration : ℕ) (at now : Instant)
    (s s' : Database) (token : Uuid) (generation : ℕ) (later : Instant)
    → claim_projection lease limit duration at now s ≡ (ok tt, s')
    → generation ≢ lease.generation
    → check_fence session i lease.tenant_id lease.work_id token generation later s'
      ≡ (err (fencing_error generation 0), s')
unfolding claim_projection
claim_projection-fences session i lease limit duration at now s s' token generation later h other =
    elim (Bool-cases (leb limit (count_active lease.tenant_id s.work_items))) [
      | inl full ↦ absurd (ground (arith, h, full))
      | inr free ↦
          let row = take_claim-row lease duration at now s s' (rw free at h) in
          check_fence-other session i lease at (at + duration) token generation later s' row other
    ]
