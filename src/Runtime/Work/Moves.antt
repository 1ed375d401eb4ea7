-- ===== src/Runtime/Work/Moves.antt =====
-- runtime/postgres.py: the statements of each operation move the status of the work as the events
-- of the operation say.
use Prim.Native.String.{String}
use aegis_agent_platform.Prelude.{
  ℕ, ◌+◌, ◌≡◌, refl, Bool, true, false, Option, none, some, List, [], ◌∷◌, ◌>>=◌, ◌>>◌, gets,
  modify, raise_if, lookup, lookup-insert, pair_eq, inl, inr, Option-cases, arith, leb, ok,
}
use aegis_agent_platform.Domain.Events.{
  Name, Uuid, Instant, DomainEventType, work_requested, work_published, work_claimed, work_started,
  work_heartbeat, work_succeeded, work_failed, work_cancelled, work_cancel_requested,
  work_retry_scheduled, work_dead_lettered,
}
use aegis_agent_platform.Domain.Work.{
  WorkStatus, requested, published, claimed, running, retry_wait, succeeded, failed, dead_letter,
  WorkLease, is_terminal, is_leased,
}
use aegis_agent_platform.Domain.Work.Lifecycle.{replay}
use aegis_agent_platform.Domain.Work.Request.{WorkRequest}
use aegis_agent_platform.Storage.{Database, Query, StorageFault, claim_unavailable, LeaseRow}
use aegis_agent_platform.Runtime.Work.Statements.{
  work_key, holds_lease, release_lease, complete_in_transaction, release_in_transaction,
  cancel_in_transaction, dead_letter_in_transaction, is_executing, put_error_code, put_dead_letter,
}
use aegis_agent_platform.Runtime.Work.Claims.{
  insert_work, take_claim, count_active, mark_projection, claim_projection, upsert_lease,
  mark_started, renew_lease, new_item,
}
use aegis_agent_platform.Runtime.Work.Settle.{cancel_projection, is_queued, same_status}
use aegis_agent_platform.Runtime.Work.Edges.{
  not_claimed, request_edge, publish_edge, claim_edge, start_edge, heartbeat_edge, succeed_edge,
  dead_letter_edge, cancel_edge, retry_edge, release_edge, ask_edge, note_edge,
}
use aegis_agent_platform.Runtime.Work.Agreement.{status_of}
use aegis_agent_platform.Runtime.Work.Shifts.{
  Moves, any, Moves-then, Moves-after_still, Moves-still, update_item-Moves, update_lease-Moves,
  Shifts-insert, Shifts-status,
}

pub release_lease-Moves :
    (lease : WorkLease) (at : Instant) (reason : String) (test : LeaseRow → Bool)
    → Moves lease.tenant_id lease.work_id any [] (release_lease lease at reason test)
unfolding release_lease
release_lease-Moves lease at reason test =
    update_lease-Moves (work_key lease) lease.tenant_id lease.work_id _ _ _

pub cancel_in_transaction-Moves :
    (lease : WorkLease) (at : Instant)
    → Moves lease.tenant_id lease.work_id any (work_cancelled ∷ []) (cancel_in_transaction lease at)
unfolding cancel_in_transaction
cancel_in_transaction-Moves lease at =
    Moves-after_still lease.tenant_id lease.work_id any (work_cancelled ∷ []) _ _
      (release_lease-Moves lease at "cancelled" (holds_lease lease))
      (update_item-Moves lease.tenant_id lease.work_id any (work_cancelled ∷ []) _ _ _
        (λ row h f. cancel_edge row.status (ground (arith, h))))

pub release_in_transaction-Moves :
    (lease : WorkLease) (at : Instant) (reason : String) (retry_at : Instant)
    → Moves lease.tenant_id lease.work_id any
        (work_retry_scheduled ∷ [])
        (release_in_transaction lease at reason retry_at false)
unfolding release_in_transaction
release_in_transaction-Moves lease at reason retry_at =
    Moves-after_still lease.tenant_id lease.work_id any (work_retry_scheduled ∷ []) _ _
      (release_lease-Moves lease at reason (holds_lease lease))
      (update_item-Moves lease.tenant_id lease.work_id any (work_retry_scheduled ∷ []) _ _ _
        (λ row h f. release_edge row.status (ground (arith, h))))

pub retry_in_transaction-Moves :
    (lease : WorkLease) (at : Instant) (reason : String) (retry_at : Instant)
    → Moves lease.tenant_id lease.work_id any
        (work_failed ∷ work_retry_scheduled ∷ [])
        (release_in_transaction lease at reason retry_at true)
unfolding release_in_transaction
retry_in_transaction-Moves lease at reason retry_at =
    Moves-after_still lease.tenant_id lease.work_id any (work_failed ∷ work_retry_scheduled ∷ []) _
      _ (release_lease-Moves lease at reason (holds_lease lease))
      (update_item-Moves lease.tenant_id lease.work_id any (work_failed ∷ work_retry_scheduled ∷ [])
        _ _ _ (λ row h f. retry_edge row.status (ground (arith, h))))

complete_in_transaction-Moves :
    (lease : WorkLease) (at : Instant) (status : WorkStatus) (reason : String)
    (es : List DomainEventType)
    → ((s : WorkStatus)
        → is_executing s ≡ true
        → not_claimed (some s) ≡ true
        → replay (some s) es ≡ ok (some status))
    → Moves lease.tenant_id lease.work_id not_claimed es
        (complete_in_transaction lease at status reason)
unfolding complete_in_transaction
complete_in_transaction-Moves lease at status reason es valid =
    Moves-after_still lease.tenant_id lease.work_id not_claimed es _ _
      (release_lease-Moves lease at reason (holds_lease lease))
      (update_item-Moves lease.tenant_id lease.work_id not_claimed es _ _ _
        (λ row h f. valid row.status (ground (arith, h)) f))

pub succeed_in_transaction-Moves :
    (lease : WorkLease) (at : Instant)
    → Moves lease.tenant_id lease.work_id not_claimed
        (work_succeeded ∷ [])
        (complete_in_transaction lease at succeeded "succeeded")
succeed_in_transaction-Moves lease at =
    complete_in_transaction-Moves lease at succeeded "succeeded" (work_succeeded ∷ []) succeed_edge

put_error_code-status :
    (t : Name) (w : Uuid) (reason : String) (s : Database) (t' : Name) (w' : Uuid)
    → status_of t' w' (put_error_code (t, w) reason s) ≡ status_of t' w' s
put_error_code-status t w reason s t' w' = elim (Option-cases (lookup (t, w) s.work_items)) [
  | inl missing ↦ ground (arith, missing)
  | inr (row, found) ↦ ground (
    arith,
    found,
    lookup-insert (t', w') (t, w) (record row { last_error_code = some reason }) s.work_items,
  )
]

pub put_error_code-events :
    (key : ℕ × ℕ) (reason : String) (s : Database) → (put_error_code key reason s).events ≡ s.events
put_error_code-events key reason s = elim (Option-cases (lookup key s.work_items)) [
  | inl missing ↦ ground (arith, missing)
  | inr (row, found) ↦ ground (arith, found)
]

pub put_dead_letter-Moves :
    (lease : WorkLease) (at : Instant) (reason : String)
    → Moves lease.tenant_id lease.work_id any [] (modify (put_dead_letter lease at reason))
put_dead_letter-Moves lease at reason =
    Moves-still lease.tenant_id lease.work_id (modify (put_dead_letter lease at reason)) (λ s. refl)
      (λ s t w. refl)

pub dead_letter_in_transaction-Moves :
    (lease : WorkLease) (at : Instant) (reason : String)
    → Moves lease.tenant_id lease.work_id not_claimed
        (work_failed ∷ work_dead_lettered ∷ [])
        (dead_letter_in_transaction lease at reason)
unfolding dead_letter_in_transaction
dead_letter_in_transaction-Moves lease at reason =
    Moves-then lease.tenant_id lease.work_id not_claimed (work_failed ∷ work_dead_lettered ∷ []) []
      (complete_in_transaction lease at dead_letter "dead_letter")
      (modify (put_error_code (work_key lease) reason) >> modify (put_dead_letter lease at reason))
      (complete_in_transaction-Moves lease at dead_letter "dead_letter" _ dead_letter_edge)
      (Moves-after_still lease.tenant_id lease.work_id any []
        (modify (put_error_code (work_key lease) reason)) (modify (put_dead_letter lease at reason))
        (Moves-still lease.tenant_id lease.work_id (modify (put_error_code (work_key lease) reason))
          (put_error_code-events (work_key lease) reason)
          (put_error_code-status lease.tenant_id lease.work_id reason))
        (put_dead_letter-Moves lease at reason))

pub insert_work-Moves :
    (r : WorkRequest) (event_id : Uuid)
    → Moves r.tenant_id r.work_id any (work_requested ∷ []) (insert_work r event_id)
unfolding insert_work
insert_work-Moves r event_id = record {
  shifts = λ s s' f h. elim (Option-cases (lookup (r.tenant_id, r.work_id) s.work_items)) [
    | inr (row, found) ↦ absurd (ground (arith, h, found))
    | inl missing ↦
        Shifts-insert r.tenant_id r.work_id (work_requested ∷ []) s s' (new_item r event_id)
          (ground (arith, h, missing)) (rw (missing, status_of) request_edge)
  ];
}

pub mark_projection-Moves :
    (r : WorkRequest) → Moves r.tenant_id r.work_id any (work_published ∷ []) (mark_projection r)
unfolding mark_projection
mark_projection-Moves r =
    update_item-Moves r.tenant_id r.work_id any (work_published ∷ []) _ _ _
      (λ row h f. publish_edge row.status h)

pub mark_started-Moves :
    (r : WorkRequest) (lease : WorkLease)
    → Moves r.tenant_id r.work_id any (work_started ∷ []) (mark_started r lease)
unfolding mark_started
mark_started-Moves r lease =
    update_item-Moves r.tenant_id r.work_id any (work_started ∷ []) _ _ _
      (λ row h f. start_edge row.status h)

same_status_eq : (a b : WorkStatus) → same_status a b ≡ true → a ≡ b
same_status_eq requested requested h = refl
same_status_eq published published h = refl
same_status_eq claimed claimed h = refl
same_status_eq running running h = refl
same_status_eq retry_wait retry_wait h = refl
same_status_eq succeeded succeeded h = refl
same_status_eq failed failed h = refl
same_status_eq WorkStatus.cancelled WorkStatus.cancelled h = refl
same_status_eq dead_letter dead_letter h = refl
same_status_eq _ _ h = cc

-- A test that raises, and reads the database.
Moves-if :
    (t : Name) (w : Uuid) (es : List DomainEventType) (b : Bool) (fault : StorageFault)
    (m : Query (Unit {0}))
    → Moves t w any es m
    → Moves t w any es (raise_if b fault >> m)
Moves-if t w es true fault m p = record { shifts = λ s s' f h. absurd (ground (arith, h)) }
Moves-if t w es false fault m p = p

Moves-gets :
    {A : Type 0} (t : Name) (w : Uuid) (es : List DomainEventType) (g : Database → A)
    (k : A → Query (Unit {0}))
    → ((a : A) → Moves t w any es (k a))
    → Moves t w any es (gets g >>= k)
Moves-gets t w es g k p = record { shifts = λ s s' f h. (p (g s)).shifts s s' f h }

upsert_lease-Moves :
    (lease : WorkLease) (at expiry : Instant)
    → Moves lease.tenant_id lease.work_id any [] (upsert_lease lease at expiry)
unfolding upsert_lease
upsert_lease-Moves lease at expiry =
    Moves-still lease.tenant_id lease.work_id (upsert_lease lease at expiry)
      (λ s. elim (Option-cases (lookup (work_key lease) s.work_leases)) [
        | inl missing ↦ ground (arith, missing)
        | inr (row, found) ↦ ground (arith, found)
      ])
      (λ s t w. elim (Option-cases (lookup (work_key lease) s.work_leases)) [
        | inl missing ↦ ground (arith, missing)
        | inr (row, found) ↦ ground (arith, found)
      ])

take_claim-Moves :
    (lease : WorkLease) (duration : ℕ) (at now : Instant)
    → Moves lease.tenant_id lease.work_id any (work_claimed ∷ []) (take_claim lease duration at now)
take_claim-Moves lease duration at now =
    Moves-then lease.tenant_id lease.work_id any (work_claimed ∷ []) [] _ _
      (update_item-Moves lease.tenant_id lease.work_id any (work_claimed ∷ []) _ _ _
        (λ row h f. claim_edge row.status (ground (arith, h))))
      (upsert_lease-Moves lease at (at + duration))

pub claim_projection-Moves :
    (lease : WorkLease) (limit duration : ℕ) (at now : Instant)
    → Moves lease.tenant_id lease.work_id any
        (work_claimed ∷ [])
        (claim_projection lease limit duration at now)
unfolding claim_projection
claim_projection-Moves lease limit duration at now =
    Moves-gets lease.tenant_id lease.work_id (work_claimed ∷ [])
      (λ s. count_active lease.tenant_id s.work_items)
      (λ active. raise_if (leb limit active) claim_unavailable >> take_claim lease duration at now)
      (λ active.
        Moves-if lease.tenant_id lease.work_id (work_claimed ∷ []) (leb limit active)
          claim_unavailable (take_claim lease duration at now)
          (take_claim-Moves lease duration at now))

pub cancel_projection-Moves :
    (r : WorkRequest) (status : WorkStatus) (at : Instant)
    → is_terminal status ≡ false
    → is_queued status ≡ true
    → Moves r.tenant_id r.work_id any
        (work_cancel_requested ∷ work_cancelled ∷ [])
        (cancel_projection r status at)
unfolding cancel_projection
cancel_projection-Moves r status at going queued =
    update_item-Moves r.tenant_id r.work_id any (work_cancel_requested ∷ work_cancelled ∷ []) _ _ _
      (λ row h f. rw (same_status_eq row.status status h, queued) (ask_edge status going queued))

pub note_projection-Moves :
    (r : WorkRequest) (status : WorkStatus) (at : Instant)
    → is_terminal status ≡ false
    → is_queued status ≡ false
    → Moves r.tenant_id r.work_id any (work_cancel_requested ∷ []) (cancel_projection r status at)
unfolding cancel_projection
note_projection-Moves r status at going executing =
    update_item-Moves r.tenant_id r.work_id any (work_cancel_requested ∷ []) _ _ _
      (λ row h f. rw (same_status_eq row.status status h, executing) (note_edge status going))

-- Events that are notes in every status that `from` admits.
Moves-note :
    (t : Name) (w : Uuid) (from : Option WorkStatus → Bool) (es : List DomainEventType)
    (m : Query (Unit {0}))
    → ((c : Option WorkStatus) → from c ≡ true → replay c es ≡ ok c)
    → Moves t w any [] m
    → Moves t w from es m
Moves-note t w from es m note still = record {
  shifts = λ s s' f h.
      let p = still.shifts s s' refl h in
      record {
        same_events = p.same_events;
        others = p.others;
        replays = rw (← Shifts-status t w s s' p) (note (status_of t w s) f);
      };
}

leased_note : (c : Option WorkStatus) → is_leased c ≡ true → replay c (work_heartbeat ∷ []) ≡ ok c
leased_note none h = cc
leased_note (some s) h = heartbeat_edge s h

pub renew_lease-Moves :
    (lease : WorkLease) (extension : ℕ) (now : Instant)
    → Moves lease.tenant_id lease.work_id is_leased
        (work_heartbeat ∷ [])
        (renew_lease lease extension now)
unfolding renew_lease
renew_lease-Moves lease extension now =
    Moves-note lease.tenant_id lease.work_id is_leased (work_heartbeat ∷ [])
      (renew_lease lease extension now) leased_note
      (Moves-still lease.tenant_id lease.work_id (renew_lease lease extension now)
        (λ s. elim (Option-cases (lookup (work_key lease) s.work_leases)) [
          | inl missing ↦ ground (arith, missing)
          | inr (row, found) ↦ ground (arith, found)
        ])
        (λ s t w. elim (Option-cases (lookup (work_key lease) s.work_leases)) [
          | inl missing ↦ ground (arith, missing)
          | inr (row, found) ↦ ground (arith, found)
        ]))
