-- ===== src/Runtime/Work/Failures.antt =====
-- The operations of runtime/postgres.py by which a lease ends its work, `succeed` and `fail`, keep the
-- status column in agreement with the ledger, if the work was started.
use Prim.Native.String.{String}
use aegis_agent_platform.Prelude.{
  ◌≡◌, refl, Bool, true, false, Option, none, some, List, [], ◌∷◌, pair_eq, arith,
}
use aegis_agent_platform.Domain.Events.{
  Name, Instant, JsonValue, EventEnvelope, work_succeeded, work_failed, work_retry_scheduled,
  work_dead_lettered,
}
use aegis_agent_platform.Domain.Work.{succeeded, WorkLease, FailureClass}
use aegis_agent_platform.Domain.Work.Request.{WorkRequest, is_lease_of}
use aegis_agent_platform.Storage.{Database, Session, OutboxMessage, value_error}
use aegis_agent_platform.Storage.Ledger.{current_version, head_of}
use aegis_agent_platform.Runtime.Scheduler.{QueueDelivery}
use aegis_agent_platform.Runtime.Work.{Python, request_from_delivery}
use aegis_agent_platform.Runtime.Work.Statements.{
  complete_in_transaction, release_in_transaction, dead_letter_in_transaction,
}
use aegis_agent_platform.Runtime.Work.Settle.{
  succeed, fail, fail_as, fail_finally, fail_for_retry, write_retry, retry_message,
  write_dead_letter, failed_transition, is_final, is_unbounded,
}
use aegis_agent_platform.Runtime.Work.Edges.{not_claimed}
use aegis_agent_platform.Runtime.Work.Agreement.{status_of, Agrees, OfStream, types}
use aegis_agent_platform.Runtime.Work.Shifts.{any}
use aegis_agent_platform.Runtime.Work.Moves.{
  succeed_in_transaction-Moves, retry_in_transaction-Moves, dead_letter_in_transaction-Moves,
}
use aegis_agent_platform.Runtime.Work.Appends.{
  Steady, Ends-make_event, Ends-read, append_fenced-Ends, append_leased-Ends,
}
use aegis_agent_platform.Runtime.Work.Refinement.{own_work, Ends-map}
use aegis_agent_platform.Storage.Triples.{Ends, Ends-bind, Ends-bind_lift, Ends-raise_if}

-- The failures and the successes of a lease.
module _ (P : Database → Type 0) (agrees : (s : Database) → P s → Agrees s) (python : Python)
    (session : Session) (steady : Steady P session) (context : Name) where
  write_retry-Ends :
      (r : WorkRequest) (lease : WorkLease) (at retry_at : Instant) (es : List EventEnvelope)
      (ms : List OutboxMessage)
      → OfStream r.tenant_id r.work_id es
      → types es ≡ work_failed ∷ work_retry_scheduled ∷ []
      → is_lease_of r (some lease) ≡ true
      → Ends P Agrees (write_retry python session context r lease at retry_at es ms)
  unfolding current_version
  write_retry-Ends r lease at retry_at es ms stream kinds own =
      let mutation = release_in_transaction lease at "retry_scheduled" retry_at true in
      Ends-bind agrees (current_version session 0 context r.work_id) _
        (Ends-read session 0 (head_of context r.work_id) steady)
        (λ version.
          Ends-map _ (λ _. false)
            (append_fenced-Ends P agrees session steady r.tenant_id r.work_id any 1 context es
              version lease.work_id lease.token lease.generation ms mutation (λ s s' h f. refl)
              stream
              (rw kinds (
                own_work r lease any _ mutation own
                  (retry_in_transaction-Moves lease at "retry_scheduled" retry_at)))))

  fail_for_retry-Ends :
      (r : WorkRequest) (lease : WorkLease) (at retry_at : Instant) (e : EventEnvelope)
      → OfStream r.tenant_id r.work_id (e ∷ [])
      → e.event_type ≡ work_failed
      → is_lease_of r (some lease) ≡ true
      → Ends P Agrees (fail_for_retry python session context r lease at retry_at e)
  fail_for_retry-Ends r lease at retry_at e stream kind own =
      Ends-make_event P agrees
        (record {
          event_type = work_retry_scheduled;
          occurred_at = at;
          details = ("retry_at", JsonValue.instant retry_at) ∷ [];
          lease = some lease;
        })
        r (session.uuid_factory 1) (some e.event_id)
        (λ second.
          write_retry python session context r lease at retry_at (e ∷ second ∷ [])
            (retry_message python session context r retry_at second ∷ []))
        (λ _.
          write_retry-Ends r lease at retry_at _ _ (stream.0, ((refl, refl), tt)) (rw kind refl)
            own)

  module _ (lease : WorkLease)
      (started : (s : Database)
        → P s
        → not_claimed (status_of lease.tenant_id lease.work_id s) ≡ true) where
    started_own :
        (r : WorkRequest)
        → is_lease_of r (some lease) ≡ true
        → (s : Database) → P s
        → not_claimed (status_of r.tenant_id r.work_id s) ≡ true
    started_own r own s h =
        let e₁ : r.tenant_id ≡ lease.tenant_id = ground (arith, own) in
        let e₂ : r.work_id ≡ lease.work_id = ground (arith, own) in rw (e₁, e₂) (started s h)

    pub succeed-Ends :
        (d : QueueDelivery) (at : Instant) (result_reference : Name)
        → Ends P Agrees (succeed python session context d lease at result_reference)
    unfolding succeed
    succeed-Ends d at result_reference =
        Ends-bind_lift agrees (request_from_delivery python d) _ (λ r e.
          Ends-map _ (λ _. tt)
            (append_leased-Ends P agrees session steady not_claimed 0 context
              (session.uuid_factory 0) r
              (record {
                event_type = work_succeeded;
                occurred_at = at;
                details = ("result_reference", JsonValue.name result_reference) ∷ [];
                lease = some lease;
              })
              lease (complete_in_transaction lease at succeeded "succeeded")
              (λ own s s' h f. started_own r own s h)
              (λ own.
                own_work r lease not_claimed _ _ own (succeed_in_transaction-Moves lease at))))

    write_dead_letter-Ends :
        (r : WorkRequest) (at : Instant) (code : String) (es : List EventEnvelope)
        → OfStream r.tenant_id r.work_id es
        → types es ≡ work_failed ∷ work_dead_lettered ∷ []
        → is_lease_of r (some lease) ≡ true
        → Ends P Agrees (write_dead_letter python session context r lease at code es)
    unfolding current_version
    write_dead_letter-Ends r at code es stream kinds own =
        Ends-bind agrees (current_version session 0 context r.work_id) _
          (Ends-read session 0 (head_of context r.work_id) steady)
          (λ version.
            Ends-map _ (λ _. true)
              (append_fenced-Ends P agrees session steady r.tenant_id r.work_id not_claimed 1
                context es version lease.work_id lease.token lease.generation []
                (dead_letter_in_transaction lease at code) (λ s s' h f. started_own r own s h)
                stream
                (rw kinds (
                  own_work r lease not_claimed _ _ own
                    (dead_letter_in_transaction-Moves lease at code)))))

    fail_finally-Ends :
        (r : WorkRequest) (at : Instant) (code : String) (e : EventEnvelope)
        → OfStream r.tenant_id r.work_id (e ∷ [])
        → e.event_type ≡ work_failed
        → is_lease_of r (some lease) ≡ true
        → Ends P Agrees (fail_finally python session context r lease at code e)
    fail_finally-Ends r at code e stream kind own =
        Ends-make_event P agrees
          (record {
            event_type = work_dead_lettered;
            occurred_at = at;
            details = ("reason_code", JsonValue.text code) ∷ [];
            lease = some lease;
          })
          r (session.uuid_factory 1) (some e.event_id)
          (λ second. write_dead_letter python session context r lease at code (e ∷ second ∷ []))
          (λ _.
            write_dead_letter-Ends r at code _ (stream.0, ((refl, refl), tt)) (rw kind refl) own)

    fail_as-Ends :
        (final : Bool) (r : WorkRequest) (at : Instant) (code : String) (retry_at : Option Instant)
        (e : EventEnvelope)
        → OfStream r.tenant_id r.work_id (e ∷ [])
        → e.event_type ≡ work_failed
        → is_lease_of r (some lease) ≡ true
        → Ends P Agrees (fail_as python session context final r lease at code retry_at e)
    fail_as-Ends final r at code none e stream kind own =
        fail_finally-Ends r at code e stream kind own
    fail_as-Ends true r at code (some retry_at) e stream kind own =
        fail_finally-Ends r at code e stream kind own
    fail_as-Ends false r at code (some retry_at) e stream kind own =
        fail_for_retry-Ends r lease at retry_at e stream kind own

    pub fail-Ends :
        (d : QueueDelivery) (at : Instant) (class : FailureClass) (code : String)
        (retry_at : Option Instant)
        → Ends P Agrees (fail python session context d lease at class code retry_at)
    unfolding fail
    fail-Ends d at class code retry_at =
        Ends-raise_if agrees (is_unbounded code) (value_error "bounded error_code is required") _
          (λ _. Ends-bind_lift agrees (request_from_delivery python d) _ (λ r e.
            Ends-make_event P agrees (failed_transition at class code lease) r
              (session.uuid_factory 0) none
              (fail_as python session context (is_final class retry_at lease r) r lease at code
                retry_at)
              (λ own.
                fail_as-Ends (is_final class retry_at lease r) r at code retry_at _
                  ((refl, refl), tt) refl own)))
