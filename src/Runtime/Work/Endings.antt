-- ===== src/Runtime/Work/Endings.antt =====
-- The operations of runtime/postgres.py that end work, retry it or ask to cancel it keep the status
-- column in agreement with the ledger.
use Prim.Native.String.{String}
use aegis_agent_platform.Prelude.{
  ℕ, suc, ◌≡◌, refl, true, false, ◌==◌, if◌then◌else◌, Option, none, some, List, [], ◌∷◌, ◌>>=◌,
  pure, gets, lookup, pair_eq, inl, inr, Bool-cases,
}
use aegis_agent_platform.Domain.Events.{
  Name, Uuid, Instant, JsonValue, EventEnvelope, work_cancelled, work_cancel_requested,
  work_retry_scheduled,
}
use aegis_agent_platform.Domain.Work.{WorkStatus, WorkLease, is_terminal}
use aegis_agent_platform.Domain.Work.Request.{WorkRequest, WorkTransition}
use aegis_agent_platform.Storage.{
  Database, Session, WorkItem, value_error, concurrency_error, transaction,
}
use aegis_agent_platform.Storage.Ledger.{current_version, head_of}
use aegis_agent_platform.Runtime.Scheduler.{QueueDelivery}
use aegis_agent_platform.Runtime.Work.{
  Python, make_event, request_from_delivery, load_request, loaded_request,
}
use aegis_agent_platform.Runtime.Work.Statements.{release_in_transaction, cancel_in_transaction}
use aegis_agent_platform.Runtime.Work.Settle.{
  cancel, is_unbounded, release, request_cancel, cancel_from, cancel_events, write_cancel,
  cancelled_too, cancel_by_id, cancel_projection, actor_details, is_queued,
}
use aegis_agent_platform.Runtime.Work.Agreement.{Agrees, OfStream, types}
use aegis_agent_platform.Runtime.Work.Shifts.{any, Moves}
use aegis_agent_platform.Runtime.Work.Moves.{
  cancel_in_transaction-Moves, release_in_transaction-Moves, cancel_projection-Moves,
  note_projection-Moves,
}
use aegis_agent_platform.Runtime.Work.Appends.{
  Steady, Ends-make_event, Ends-read, append_atomic-Ends, append_leased-Ends,
}
use aegis_agent_platform.Runtime.Work.Refinement.{own_work, Ends-assoc, Ends-map}
use aegis_agent_platform.Storage.Triples.{Ends, Ends-same, Ends-bind, Ends-bind_lift, Ends-raise_if}
use aegis_agent_platform.Prelude.{lift}

pub load_request-Ends :
    {P : Database → Type 0} (session : Session) (i : ℕ) (context : Name) (work : Uuid)
    → Steady P session
    → Ends P P (load_request session i context work)
unfolding load_request
load_request-Ends session i context work steady =
    Ends-bind (λ s h. h) (transaction session i (gets (λ s. lookup (context, work) s.work_items))) _
      (Ends-read session i (λ s. lookup (context, work) s.work_items) steady)
      (λ row. Ends-same (λ s h. h) (lift (loaded_request session i context work row)) (λ s. refl))

module _ (P : Database → Type 0) (agrees : (s : Database) → P s → Agrees s) (python : Python)
    (session : Session) (steady : Steady P session) (context : Name) where
  pub cancel-Ends :
      (d : QueueDelivery) (lease : WorkLease) (at : Instant)
      → Ends P Agrees (cancel python session context d lease at)
  unfolding cancel
  cancel-Ends d lease at = Ends-bind_lift agrees (request_from_delivery python d) _ (λ r e.
      Ends-map _ (λ _. tt)
        (append_leased-Ends P agrees session steady any 0 context (session.uuid_factory 0) r
          (record {
            event_type = work_cancelled;
            occurred_at = at;
            details = [];
            lease = some lease;
          })
          lease (cancel_in_transaction lease at) (λ own s s' h f. refl)
          (λ own. own_work r lease any _ _ own (cancel_in_transaction-Moves lease at))))

  pub release-Ends :
      (lease : WorkLease) (at : Instant) (reason : String) (retry_at : Instant)
      → Ends P Agrees (release python session context lease at reason retry_at)
  unfolding release
  release-Ends lease at reason retry_at =
      Ends-raise_if agrees (is_unbounded reason) (value_error "bounded release reason is required")
        _
        (λ _.
          Ends-bind agrees (load_request session 0 context lease.work_id) _
            (load_request-Ends session 0 context lease.work_id steady)
            (λ r.
              Ends-map _ (λ _. tt)
                (append_leased-Ends P agrees session steady any 1 context (session.uuid_factory 0) r
                  (record {
                    event_type = work_retry_scheduled;
                    occurred_at = at;
                    details =
                        ("retry_at", JsonValue.instant retry_at)
                        ∷ ("reason_code", JsonValue.text reason)
                        ∷ [];
                    lease = some lease;
                  })
                  lease (release_in_transaction lease at reason retry_at false)
                  (λ own s s' h f. refl)
                  (λ own.
                    own_work r lease any _ _ own
                      (release_in_transaction-Moves lease at reason retry_at)))))

  write_cancel-Ends :
      (i : ℕ) (r : WorkRequest) (status : WorkStatus) (at : Instant) (es : List EventEnvelope)
      → OfStream r.tenant_id r.work_id es
      → Moves r.tenant_id r.work_id any (types es) (cancel_projection r status at)
      → Ends P Agrees (write_cancel python session context i r status at es)
  unfolding current_version
  write_cancel-Ends i r status at es stream moves =
      Ends-bind agrees (current_version session i context r.work_id) _
        (Ends-read session i (head_of context r.work_id) steady)
        (λ version.
          Ends-map _ (λ _. tt)
            (append_atomic-Ends P agrees session steady r.tenant_id r.work_id (suc i) context es
              version [] (cancel_projection r status at) stream moves))

  cancelled_too-Ends :
      (i : ℕ) (r : WorkRequest) (status : WorkStatus) (at : Instant) (asked : EventEnvelope)
      → OfStream r.tenant_id r.work_id (asked ∷ [])
      → asked.event_type ≡ work_cancel_requested
      → is_terminal status ≡ false
      → is_queued status ≡ true
      → Ends P Agrees (
          cancelled_too python session context r at asked
          >>= write_cancel python session context i r status at)
  cancelled_too-Ends i r status at asked stream kind going queued =
      let rest = write_cancel python session context i r status at in
      let t : WorkTransition = record {
        event_type = work_cancelled;
        occurred_at = at;
        details = [];
        lease = none;
      } in
      Ends-assoc (make_event t r (session.uuid_factory 1) (some asked.event_id))
        (λ done. pure (asked ∷ done ∷ [])) rest
        (Ends-make_event P agrees t r (session.uuid_factory 1) (some asked.event_id)
          (λ done. rest (asked ∷ done ∷ []))
          (λ own.
            write_cancel-Ends i r status at _ (stream.0, ((refl, refl), tt))
              (rw kind (cancel_projection-Moves r status at going queued))))

  cancel_from-Ends :
      (i : ℕ) (r : WorkRequest) (at : Instant) (actor : Option Name) (row : Option WorkItem)
      → Ends P Agrees (cancel_from python session context i r at actor row)
  cancel_from-Ends i r at actor none = Ends-same agrees _ (λ s. refl)
  cancel_from-Ends i r at actor (some row) =
      let rest = write_cancel python session context i r row.status at in
      let t : WorkTransition = record {
        event_type = work_cancel_requested;
        occurred_at = at;
        details = actor_details actor;
        lease = none;
      } in
      Ends-raise_if agrees (is_terminal row.status) (concurrency_error 1 0)
        (cancel_events python session context r row.status at actor >>= rest)
        (λ going.
          Ends-assoc (make_event t r (session.uuid_factory 0) none)
            (λ asked.
              if is_queued row.status
              then cancelled_too python session context r at asked
              else pure (asked ∷ []))
            rest
            (Ends-make_event P agrees t r (session.uuid_factory 0) none
              (λ asked.
                (if is_queued row.status
                  then cancelled_too python session context r at asked
                  else pure (asked ∷ []))
                >>= rest)
              (λ own. elim (Bool-cases (is_queued row.status)) [
                | inl queued ↦
                    rw queued
                      (cancelled_too-Ends i r row.status at _ ((refl, refl), tt) refl going queued)
                | inr executing ↦ rw executing (
                    write_cancel-Ends i r row.status at _ ((refl, refl), tt)
                      (note_projection-Moves r row.status at going executing))
              ])))

  pub request_cancel-Ends :
      (i : ℕ) (r : WorkRequest) (at : Instant) (actor : Option Name)
      → Ends P Agrees (request_cancel python session context i r at actor)
  unfolding request_cancel
  request_cancel-Ends i r at actor =
      Ends-bind agrees
        (transaction session i (gets (λ s. lookup (r.tenant_id, r.work_id) s.work_items))) _
        (Ends-read session i (λ s. lookup (r.tenant_id, r.work_id) s.work_items) steady)
        (λ row. cancel_from-Ends (suc i) r at actor row)

  pub cancel_by_id-Ends :
      (work : Uuid) (at : Instant) (actor : Name)
      → Ends P Agrees (cancel_by_id python session context work at actor)
  unfolding cancel_by_id
  cancel_by_id-Ends work at actor =
      Ends-raise_if agrees (actor == 0) (value_error "actor_id is required") _ (λ _.
        Ends-bind agrees (load_request session 0 context work) _
          (load_request-Ends session 0 context work steady)
          (λ r. request_cancel-Ends 1 r at (some actor)))
