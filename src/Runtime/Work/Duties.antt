-- ===== src/Runtime/Work/Duties.antt =====
-- runtime/postgres.py: an approval requeues work once, for another actor than the one who gave it.
use aegis_agent_platform.Prelude.{
  ℕ, ◌≡◌, ◌≢◌, refl, sym, ap, ◌∙◌, true, ltb, none, some, [], ◌∷◌, ok, err, ◌>>=◌, ◌>>◌, modify,
  lookup, lookup-insert_self, pair_eq, inl, inr, Option-cases, arith, not_some,
}
use aegis_agent_platform.Domain.Events.{Name, Uuid, Instant, EventEnvelope, work_retry_scheduled}
use aegis_agent_platform.Domain.Work.Request.{WorkRequest}
use aegis_agent_platform.Storage.{Database, Session, concurrency_error, ApprovalRow, update_item}
use aegis_agent_platform.Storage.Runs.{bind-Ran, bind-raised}
use aegis_agent_platform.Storage.Ledger.{current_version, head_of}
use aegis_agent_platform.Runtime.Work.{make_event}
use aegis_agent_platform.Runtime.Work.Requeue.{
  RequeueApproval, is_open_approval, check_approval, consume, count_requeue, requeue_item,
  close_approval, requeue_projection, requeue_transition, write_requeue, requeue_dead_letter,
}
use aegis_agent_platform.Runtime.Work.Edges.{requeue_edge}
use aegis_agent_platform.Runtime.Work.Agreement.{Agrees, OfStream}
use aegis_agent_platform.Runtime.Work.Shifts.{
  Moves, any, Moves-then, Moves-after_still, Moves-still, update_item-Moves,
}
use aegis_agent_platform.Runtime.Work.Appends.{
  Steady, Ends-make_event, Ends-read, append_atomic-Ends,
}
use aegis_agent_platform.Runtime.Work.Refinement.{Ends-map}
use aegis_agent_platform.Runtime.Work.Loads.{Ends-load_request}
use aegis_agent_platform.Storage.Triples.{Ends, Ends-bind}

-- What a check of an approval that returns has found.
check_approval-row :
    (tenant : Name) (approval : RequeueApproval) (work : Uuid) (actor : Name) (now : Instant)
    (s : Database) {s' : Database}
    → check_approval tenant approval work actor now s ≡ (ok tt, s')
    → (row : ApprovalRow) × (lookup (tenant, approval.approval_id) s.work_requeue_approvals
        ≡ some row)
      × (is_open_approval approval work actor now row ≡ true)
unfolding check_approval
check_approval-row tenant approval work actor now s h =
    elim (Option-cases (lookup (tenant, approval.approval_id) s.work_requeue_approvals)) [
      | inl missing ↦ absurd (ground (arith, h, missing))
      | inr (row, found) ↦ (row, found, ground (arith, h, found))
    ]

check_approval-still :
    (tenant : Name) (approval : RequeueApproval) (work : Uuid) (actor : Name) (now : Instant)
    (s : Database)
    → (check_approval tenant approval work actor now s).1 ≡ s
unfolding check_approval
check_approval-still tenant approval work actor now s =
    elim (Option-cases (lookup (tenant, approval.approval_id) s.work_requeue_approvals)) [
      | inl missing ↦ ground (arith, missing)
      | inr (row, found) ↦ ground (arith, found)
    ]

-- A requeue that returns had an approval of its work by another actor, not consumed and not
-- expired.
pub requeue_projection-approved :
    (tenant : Name) (approval : RequeueApproval) (work : Uuid) (actor : Name)
    (at now later : Instant) (s s' : Database)
    → requeue_projection tenant approval work actor at now later s ≡ (ok tt, s')
    → (row : ApprovalRow) × (lookup (tenant, approval.approval_id) s.work_requeue_approvals
        ≡ some row)
      × (row.work_id ≡ work)
      × (row.approved_by ≢ actor)
      × (row.consumed_at ≡ none)
      × (ltb now row.expires_at ≡ true)
unfolding requeue_projection
requeue_projection-approved tenant approval work actor at now later s s' h =
    let ran =
      bind-Ran (check_approval tenant approval work actor now)
        (λ _. requeue_item tenant work at >> close_approval tenant approval work actor at later) s
        h in
    let (row, found, fine) = check_approval-row tenant approval work actor now s ran.first in
    (
      row,
      found,
      ground (arith, fine),
      ground (arith, fine),
      not_some row.consumed_at (ground (arith, fine)),
      ground (arith, fine),
    )

requeue_item-approvals :
    (tenant : Name) (work : Uuid) (at : Instant) (s : Database)
    → (requeue_item tenant work at s).1.work_requeue_approvals ≡ s.work_requeue_approvals
unfolding update_item
requeue_item-approvals tenant work at s = elim (Option-cases (lookup (tenant, work) s.work_items)) [
  | inl missing ↦ ground (arith, missing)
  | inr (row, found) ↦ ground (arith, found)
]

count_requeue-approvals :
    (key : ℕ × ℕ) (at : Instant) (s : Database)
    → (count_requeue key at s).work_requeue_approvals ≡ s.work_requeue_approvals
count_requeue-approvals key at s = elim (Option-cases (lookup key s.work_dead_letters)) [
  | inl missing ↦ ground (arith, missing)
  | inr (row, found) ↦ ground (arith, found)
]

close_approval-row :
    (tenant : Name) (approval : RequeueApproval) (work : Uuid) (actor : Name) (at now : Instant)
    (s s' : Database) (row : ApprovalRow)
    → lookup (tenant, approval.approval_id) s.work_requeue_approvals ≡ some row
    → close_approval tenant approval work actor at now s ≡ (ok tt, s')
    → lookup (tenant, approval.approval_id) s'.work_requeue_approvals
      ≡ some (record row { consumed_at = some now; consumed_by = some actor })
close_approval-row tenant approval work actor at now s s' row found h =
    let key : ℕ × ℕ = (tenant, approval.approval_id) in
    let e : count_requeue (tenant, work) at (consume key actor now s) ≡ s' = ap (λ x. x.1) h in
    rw (← e, count_requeue-approvals (tenant, work) at (consume key actor now s))
      (ground (
        arith,
        found,
        lookup-insert_self key (record row { consumed_at = some now; consumed_by = some actor })
            s.work_requeue_approvals,
      ))

consumed_closed :
    (tenant : Name) (approval : RequeueApproval) (work : Uuid) (actor : Name) (now : Instant)
    (s : Database) (row : ApprovalRow) (t : Instant) (by : Name)
    → lookup (tenant, approval.approval_id) s.work_requeue_approvals
      ≡ some (record row { consumed_at = some t; consumed_by = some by })
    → check_approval tenant approval work actor now s ≡ (err (concurrency_error 1 0), s)
unfolding check_approval
consumed_closed tenant approval work actor now s row t by h = ground (arith, h)

-- An approval serves once: after a requeue with it returned, a requeue with the same approval
-- raises a ConcurrencyError and writes nothing, for any work, actor and time.
pub requeue_projection-once :
    (tenant : Name) (approval : RequeueApproval) (work work' : Uuid) (actor actor' : Name)
    (at at' now now' later later' : Instant) (s s' : Database)
    → requeue_projection tenant approval work actor at now later s ≡ (ok tt, s')
    → requeue_projection tenant approval work' actor' at' now' later' s'
      ≡ (err (concurrency_error 1 0), s')
unfolding requeue_projection
requeue_projection-once tenant approval work work' actor actor' at at' now now' later later' s s'
      h =
    let first =
      bind-Ran (check_approval tenant approval work actor now)
        (λ _. requeue_item tenant work at >> close_approval tenant approval work actor at later) s
        h in
    let second =
      bind-Ran (requeue_item tenant work at)
        (λ _. close_approval tenant approval work actor at later) first.middle first.second in
    let (row, found, fine) = check_approval-row tenant approval work actor now s first.first in
    let e₁ : first.middle ≡ s =
      sym (ap (λ x. x.1) first.first) ∙ check_approval-still tenant approval work actor now s in
    let e₂ : second.middle.work_requeue_approvals ≡ first.middle.work_requeue_approvals =
      rw (← ap (λ x. x.1) second.first) (requeue_item-approvals tenant work at first.middle) in
    let found' : lookup (tenant, approval.approval_id) second.middle.work_requeue_approvals
        ≡ some row =
      rw (e₂, e₁) found in
    bind-raised (check_approval tenant approval work' actor' now')
      (λ _. requeue_item tenant work' at' >> close_approval tenant approval work' actor' at' later')
      s'
      (consumed_closed tenant approval work' actor' now' s' row later actor (
        close_approval-row tenant approval work actor at later second.middle s' row found'
          second.second))

consume-Moves :
    (tenant : Name) (work : Uuid) (key : ℕ × ℕ) (actor : Name) (now : Instant)
    → Moves tenant work any [] (modify (consume key actor now))
consume-Moves tenant work key actor now =
    Moves-still tenant work (modify (consume key actor now))
      (λ s. elim (Option-cases (lookup key s.work_requeue_approvals)) [
        | inl missing ↦ ground (arith, missing)
        | inr (row, found) ↦ ground (arith, found)
      ])
      (λ s t w. elim (Option-cases (lookup key s.work_requeue_approvals)) [
        | inl missing ↦ ground (arith, missing)
        | inr (row, found) ↦ ground (arith, found)
      ])

count_requeue-Moves :
    (tenant : Name) (work : Uuid) (key : ℕ × ℕ) (at : Instant)
    → Moves tenant work any [] (modify (count_requeue key at))
count_requeue-Moves tenant work key at =
    Moves-still tenant work (modify (count_requeue key at))
      (λ s. elim (Option-cases (lookup key s.work_dead_letters)) [
        | inl missing ↦ ground (arith, missing)
        | inr (row, found) ↦ ground (arith, found)
      ])
      (λ s t w. elim (Option-cases (lookup key s.work_dead_letters)) [
        | inl missing ↦ ground (arith, missing)
        | inr (row, found) ↦ ground (arith, found)
      ])

requeue_projection-Moves :
    (tenant : Name) (approval : RequeueApproval) (work : Uuid) (actor : Name)
    (at now later : Instant)
    → Moves tenant work any
        (work_retry_scheduled ∷ [])
        (requeue_projection tenant approval work actor at now later)
unfolding requeue_projection
requeue_projection-Moves tenant approval work actor at now later =
    Moves-after_still tenant work any (work_retry_scheduled ∷ [])
      (check_approval tenant approval work actor now)
      (requeue_item tenant work at >> close_approval tenant approval work actor at later)
      (Moves-still tenant work (check_approval tenant approval work actor now)
        (λ s. rw (check_approval-still tenant approval work actor now s) refl)
        (λ s t w. rw (check_approval-still tenant approval work actor now s) refl))
      (Moves-then tenant work any (work_retry_scheduled ∷ []) [] (requeue_item tenant work at)
        (close_approval tenant approval work actor at later)
        (update_item-Moves tenant work any (work_retry_scheduled ∷ []) _ _ _
          (λ row h f. requeue_edge row.status h))
        (Moves-after_still tenant work any []
          (modify (consume (tenant, approval.approval_id) actor later))
          (modify (count_requeue (tenant, work) at))
          (consume-Moves tenant work (tenant, approval.approval_id) actor later)
          (count_requeue-Moves tenant work (tenant, work) at)))

module _ (P : Database → Type 0) (agrees : (s : Database) → P s → Agrees s) (session : Session)
    (steady : Steady P session) (context : Name) where
  write_requeue-Ends :
      (r : WorkRequest) (work : Uuid) (at : Instant) (approval : RequeueApproval) (actor : Name)
      (e : EventEnvelope)
      → r.work_id ≡ work
      → OfStream r.tenant_id r.work_id (e ∷ [])
      → e.event_type ≡ work_retry_scheduled
      → Ends P Agrees (write_requeue session context r work at approval actor e)
  unfolding current_version
  write_requeue-Ends r work at approval actor e same stream kind =
      Ends-bind agrees (current_version session 1 context work) _
        (Ends-read session 1 (head_of context work) steady)
        (λ version.
          Ends-map _ (λ _. tt)
            (append_atomic-Ends P agrees session steady r.tenant_id work 2 context (e ∷ []) version
              _ _ (rw same at stream)
              (rw kind (
                requeue_projection-Moves r.tenant_id approval work actor at
                  (session.clock_timestamp 0) (session.clock_timestamp 1)))))

  pub requeue_dead_letter-Ends :
      (work : Uuid) (at : Instant) (approval : RequeueApproval) (actor : Name)
      → Ends P Agrees (requeue_dead_letter session context work at approval actor)
  unfolding requeue_dead_letter
  requeue_dead_letter-Ends work at approval actor =
      Ends-load_request agrees session steady 0 context work
        (λ r.
          make_event (requeue_transition at approval) r (session.uuid_factory 0) none
          >>= write_requeue session context r work at approval actor)
        (λ r same tenant.
          Ends-make_event P agrees (requeue_transition at approval) r (session.uuid_factory 0) none
            (write_requeue session context r work at approval actor)
            (λ own. write_requeue-Ends r work at approval actor _ same ((refl, refl), tt) refl))
