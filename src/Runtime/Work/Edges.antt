-- ===== src/Runtime/Work/Edges.antt =====
-- The tests on `status` in the statements of runtime/postgres.py, against the table of
-- domain/work.py.
use aegis_agent_platform.Prelude.{
  ◌≡◌, refl, Bool, true, false, not, if◌then◌else◌, Option, none, some, [], ◌∷◌, ok,
}
use aegis_agent_platform.Domain.Events.{
  work_requested, work_published, work_claimed, work_started, work_heartbeat, work_succeeded,
  work_failed, work_cancelled, work_cancel_requested, work_retry_scheduled, work_dead_lettered,
  work_reconciled, work_lease_expired,
}
use aegis_agent_platform.Runtime.Work.Expire.{outcome_type}
use aegis_agent_platform.Domain.Work.{
  WorkStatus, requested, published, claimed, running, retry_wait, succeeded, dead_letter,
  next_status, is_terminal, is_leased,
}
use aegis_agent_platform.Domain.Work.Lifecycle.{replay}
use aegis_agent_platform.Runtime.Work.Statements.{
  is_executing, is_claimed, is_running, is_dead_letter, is_claimable, is_publishable,
}
use aegis_agent_platform.Runtime.Work.Settle.{is_queued}

abbrev pub not_claimed : Option WorkStatus → Bool
not_claimed none = true
not_claimed (some s) = not (is_claimed s)

pub request_edge : replay none (work_requested ∷ []) ≡ ok (some requested)
unfolding replay next_status
request_edge = refl

pub publish_edge :
    (s : WorkStatus)
    → is_publishable s ≡ true
    → replay (some s) (work_published ∷ []) ≡ ok (some published)
unfolding replay next_status
publish_edge requested h = refl
publish_edge retry_wait h = refl
publish_edge _ h = cc

pub claim_edge :
    (s : WorkStatus)
    → is_claimable s ≡ true
    → replay (some s) (work_claimed ∷ []) ≡ ok (some claimed)
unfolding replay next_status
claim_edge published h = refl
claim_edge retry_wait h = refl
claim_edge _ h = cc

pub start_edge :
    (s : WorkStatus) → is_claimed s ≡ true → replay (some s) (work_started ∷ []) ≡ ok (some running)
unfolding replay next_status
start_edge claimed h = refl
start_edge _ h = cc

pub heartbeat_edge :
    (s : WorkStatus)
    → is_leased (some s) ≡ true
    → replay (some s) (work_heartbeat ∷ []) ≡ ok (some s)
unfolding replay next_status
heartbeat_edge claimed h = refl
heartbeat_edge running h = refl
heartbeat_edge _ h = cc

pub succeed_edge :
    (s : WorkStatus)
    → is_executing s ≡ true
    → not_claimed (some s) ≡ true
    → replay (some s) (work_succeeded ∷ []) ≡ ok (some succeeded)
unfolding replay next_status
succeed_edge running h k = refl
succeed_edge claimed h k = cc
succeed_edge _ h k = cc

pub dead_letter_edge :
    (s : WorkStatus)
    → is_executing s ≡ true
    → not_claimed (some s) ≡ true
    → replay (some s) (work_failed ∷ work_dead_lettered ∷ []) ≡ ok (some dead_letter)
unfolding replay next_status
dead_letter_edge running h k = refl
dead_letter_edge claimed h k = cc
dead_letter_edge _ h k = cc

pub cancel_edge :
    (s : WorkStatus)
    → is_executing s ≡ true
    → replay (some s) (work_cancelled ∷ []) ≡ ok (some WorkStatus.cancelled)
unfolding replay next_status
cancel_edge claimed h = refl
cancel_edge running h = refl
cancel_edge _ h = cc

pub retry_edge :
    (s : WorkStatus)
    → is_running s ≡ true
    → replay (some s) (work_failed ∷ work_retry_scheduled ∷ []) ≡ ok (some retry_wait)
unfolding replay next_status
retry_edge running h = refl
retry_edge _ h = cc

pub release_edge :
    (s : WorkStatus)
    → is_executing s ≡ true
    → replay (some s) (work_retry_scheduled ∷ []) ≡ ok (some retry_wait)
unfolding replay next_status
release_edge claimed h = refl
release_edge running h = refl
release_edge _ h = cc

pub requeue_edge :
    (s : WorkStatus)
    → is_dead_letter s ≡ true
    → replay (some s) (work_retry_scheduled ∷ []) ≡ ok (some retry_wait)
unfolding replay next_status
requeue_edge dead_letter h = refl
requeue_edge _ h = cc

pub redrive_edge :
    (s : WorkStatus) → is_queued s ≡ true → replay (some s) (work_reconciled ∷ []) ≡ ok (some s)
unfolding replay next_status
redrive_edge requested h = refl
redrive_edge published h = refl
redrive_edge retry_wait h = refl
redrive_edge _ h = cc

-- A lease that expired, by its outcome.
pub expire_edge :
    (s : WorkStatus) (is_cancelled is_exhausted : Bool)
    → is_executing s ≡ true
    → replay (some s) (work_lease_expired ∷ outcome_type is_cancelled is_exhausted ∷ [])
      ≡ ok (
          some (
            if is_cancelled
            then WorkStatus.cancelled
            else if is_exhausted
            then dead_letter
            else retry_wait))
unfolding replay next_status
expire_edge claimed true exhausted h = refl
expire_edge claimed false true h = refl
expire_edge claimed false false h = refl
expire_edge running true exhausted h = refl
expire_edge running false true h = refl
expire_edge running false false h = refl
expire_edge _ c e h = cc

-- A request to cancel ends work that is queued, and is a note on work that is executing.
pub ask_edge :
    (s : WorkStatus)
    → is_terminal s ≡ false
    → is_queued s ≡ true
    → replay (some s) (work_cancel_requested ∷ work_cancelled ∷ []) ≡ ok (some WorkStatus.cancelled)
unfolding replay next_status
ask_edge requested h k = refl
ask_edge published h k = refl
ask_edge retry_wait h k = refl
ask_edge _ h k = cc

pub note_edge :
    (s : WorkStatus)
    → is_terminal s ≡ false
    → replay (some s) (work_cancel_requested ∷ []) ≡ ok (some s)
unfolding replay next_status
note_edge requested h = refl
note_edge published h = refl
note_edge claimed h = refl
note_edge running h = refl
note_edge retry_wait h = refl
note_edge _ h = cc
