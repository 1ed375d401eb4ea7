-- ===== src/Runtime/Work/Refinement.antt =====
-- Every operation of the work repository of runtime/postgres.py leaves the status column in
-- agreement with the ledger and the state machine of domain/work.py.
use aegis_agent_platform.Prelude.{
  ℕ, ◌+◌, ◌-◌, ◌≡◌, refl, Bool, true, false, not, ◌&&◌, ◌||◌, ◌==◌, leb, if◌then◌else◌, Option,
  none, some, List, [], ◌∷◌, Result, ok, err, ◌>>=◌, ◌>>◌, pure, gets, raise_if, pair_eq, arith,
}
use aegis_agent_platform.Domain.Events.{
  Name, Uuid, Instant, DomainEventType, EventEnvelope, work_started, work_published, work_claimed,
}
use aegis_agent_platform.Domain.Work.{WorkStatus, WorkLease, lease_is_valid}
use aegis_agent_platform.Domain.Work.Request.{WorkRequest, is_lease_of}
use aegis_agent_platform.Storage.{Database, Session, Query, StorageFault, value_error, transaction}
use aegis_agent_platform.Storage.Ledger.{append_atomic, append_from_inbox, current_version, head_of}
use aegis_agent_platform.Runtime.Scheduler.{QueueDelivery}
use aegis_agent_platform.Runtime.Work.{
  Python, validate_request_context, validate_transport_size, verify_delivery, request_from_delivery,
  joined_row, matched_request,
}
use aegis_agent_platform.Runtime.Work.Claims.{
  register, mark_published, claim, start, transport_envelope, transport_headers, work_message,
  requested_transition, insert_work, mark_projection, mark_started, inbox_source, catch_if,
  is_lost_claim, write_claim, claim_lease, claim_next, select_claim, asked_lease, claim_projection,
  next_claim,
}
use aegis_agent_platform.Runtime.Work.Agreement.{Agrees, OfStream}
use aegis_agent_platform.Runtime.Work.Shifts.{Moves, any}
use aegis_agent_platform.Runtime.Work.Moves.{
  insert_work-Moves, mark_projection-Moves, mark_started-Moves, claim_projection-Moves,
}
use aegis_agent_platform.Runtime.Work.Appends.{
  Steady, Ends-make_event, Ends-read, append_atomic-Ends, append_from_inbox-Ends,
  append_leased-Ends,
}
use aegis_agent_platform.Storage.Triples.{Ends, Ends-same, Ends-bind, Ends-bind_lift, Ends-raise_if}
use aegis_agent_platform.Prelude.{lift}

-- A mutation of a lease's work is one of its request's work.
pub own_work :
    (r : WorkRequest) (lease : WorkLease) (from : Option WorkStatus → Bool)
    (es : List DomainEventType) (m : Query (Unit {0}))
    → is_lease_of r (some lease) ≡ true
    → Moves lease.tenant_id lease.work_id from es m
    → Moves r.tenant_id r.work_id from es m
own_work r lease from es m own moves =
    let e₁ : r.tenant_id ≡ lease.tenant_id = ground (arith, own) in
    let e₂ : r.work_id ≡ lease.work_id = ground (arith, own) in rw (e₁, e₂) moves

pub raise_if-still : (b : Bool) (x : StorageFault) (s : Database) → (raise_if b x s).1 ≡ s
raise_if-still true x s = refl
raise_if-still false x s = refl

mapped :
    {A B : Type 0} (Q : Database → Type 0) (x : Result StorageFault A × Database) (g : A → B)
    (s : Database)
    → Q x.1
    → Q (((λ s. x) >>= λ a. pure (g a)) s).1
mapped Q (ok a, s') g s h = h
mapped Q (err e, s') g s h = h

caught :
    {A : Type 0} (Q : Database → Type 0) (test : StorageFault → Bool) (a : A)
    (x : Result StorageFault A × Database) (s : Database)
    → Q x.1
    → Q (catch_if test a (λ s. x) s).1
caught Q test a (ok b, s') s h = h
caught Q test a (err e, s') s h = h

joined :
    {A B C : Type 0} (Q : Database → Type 0) (x : Result StorageFault A × Database)
    (g : A → Query B) (h : B → Query C) (s : Database)
    → Q (((λ s. x) >>= (λ a. g a >>= h)) s).1
    → Q ((((λ s. x) >>= g) >>= h) s).1
joined Q (ok a, s') g h s q = q
joined Q (err e, s') g h s q = q

module _ {P Q : Database → Type 0} where
  pub Ends-assoc :
      {A B C : Type 0} (m : Query A) (g : A → Query B) (h : B → Query C)
      → Ends P Q (m >>= λ a. g a >>= h)
      → Ends P Q ((m >>= g) >>= h)
  Ends-assoc m g h e = record { at = λ s p. joined Q (m s) g h s (e.at s p) }

  pub Ends-map :
      {A B : Type 0} (m : Query A) (g : A → B) → Ends P Q m → Ends P Q (m >>= λ a. pure (g a))
  Ends-map m g e = record { at = λ s h. mapped Q (m s) g s (e.at s h) }

  pub Ends-catch_if :
      {A : Type 0} (test : StorageFault → Bool) (a : A) (m : Query A)
      → Ends P Q m
      → Ends P Q (catch_if test a m)
  Ends-catch_if test a m e = record { at = λ s h. caught Q test a (m s) s (e.at s h) }

pub verify_delivery-Ends :
    {P : Database → Type 0} (python : Python) (session : Session) (i : ℕ) (context : Name)
    (d : QueueDelivery)
    → Steady P session
    → Ends P P (verify_delivery python session i context d)
unfolding verify_delivery
verify_delivery-Ends python session i context d steady =
    Ends-bind_lift (λ s h. h) (request_from_delivery python d) _
      (λ supplied e.
        Ends-bind (λ s h. h) (validate_request_context context supplied) _
          (Ends-same (λ s h. h) _ (raise_if-still _ _))
          (λ _.
            Ends-bind (λ s h. h)
              (transaction session i (gets (joined_row python context d.envelope))) _
              (Ends-read session i (joined_row python context d.envelope) steady)
              (λ row.
                Ends-same (λ s h. h) (lift (matched_request python context supplied d.envelope row))
                  (λ s. refl))))

module _ (P : Database → Type 0) (agrees : (s : Database) → P s → Agrees s) (python : Python)
    (session : Session) (steady : Steady P session) (context : Name) where
  pub register-Ends :
      (r : WorkRequest) (event_id message_id : Uuid)
      → Ends P Agrees (register python session context r event_id message_id)
  unfolding register validate_transport_size
  register-Ends r event_id message_id =
      Ends-bind agrees (validate_request_context context r) _
        (Ends-same (λ s h. h) _ (raise_if-still _ _))
        (λ _.
          Ends-bind agrees
            (validate_transport_size python (transport_envelope r event_id message_id)) _
            (Ends-same (λ s h. h) _ (raise_if-still _ _))
            (λ _.
              Ends-make_event P agrees (requested_transition r) r event_id r.causation_id
                (λ e.
                  append_atomic session 0 context (e ∷ []) 0 (insert_work r event_id)
                    (work_message r message_id event_id r.requested_at (transport_headers r) ∷ []))
                (λ own.
                  append_atomic-Ends P agrees session steady r.tenant_id r.work_id 0 context _ 0 _
                    (insert_work r event_id) ((refl, refl), tt) (insert_work-Moves r event_id))))

  pub mark_published-Ends :
      (d : QueueDelivery) (at : Instant)
      → Ends P Agrees (mark_published python session context d at)
  unfolding mark_published current_version
  mark_published-Ends d at =
      Ends-bind agrees (verify_delivery python session 0 context d) _
        (verify_delivery-Ends python session 0 context d steady)
        (λ r.
          Ends-bind agrees (current_version session 1 context r.work_id) _
            (Ends-read session 1 (head_of context r.work_id) steady)
            (λ version.
              Ends-make_event P agrees
                (record {
                  event_type = work_published;
                  occurred_at = at;
                  details = [];
                  lease = none;
                })
                r (session.uuid_factory 0) d.envelope.event_id
                (λ e.
                  append_from_inbox session 2 context inbox_source d.envelope.message_id (e ∷ [])
                    version [] (mark_projection r)
                  >> pure tt)
                (λ own.
                  Ends-map _ (λ _. tt)
                    (append_from_inbox-Ends P agrees session steady r.tenant_id r.work_id 2 context
                      inbox_source d.envelope.message_id _ version [] (mark_projection r)
                      ((refl, refl), tt) (mark_projection-Moves r)))))

  pub start-Ends :
      (d : QueueDelivery) (lease : WorkLease) (at : Instant)
      → Ends P Agrees (start python session context d lease at)
  unfolding start
  start-Ends d lease at = Ends-bind_lift agrees (request_from_delivery python d) _ (λ r e.
      Ends-map _ (λ _. tt)
        (append_leased-Ends P agrees session steady any 0 context (session.uuid_factory 0) r
          (record { event_type = work_started; occurred_at = at; details = []; lease = some lease })
          lease (mark_started r lease) (λ own s s' h f. refl) (λ own. mark_started-Moves r lease)))

  write_claim-Ends :
      (r : WorkRequest) (lease : WorkLease) (limit duration version : ℕ) (e : EventEnvelope)
      → OfStream r.tenant_id r.work_id (e ∷ [])
      → e.event_type ≡ work_claimed
      → is_lease_of r (some lease) ≡ true
      → Ends P Agrees (write_claim python session context lease limit duration version e)
  write_claim-Ends r lease limit duration version e stream kind own =
      let acquired_at = session.clock_timestamp 0 in
      let mutation =
        claim_projection lease limit duration acquired_at (session.clock_timestamp 1) in
      Ends-catch_if is_lost_claim none _ (
        Ends-map _
          (λ _. some (record lease {
            acquired_at = acquired_at;
            heartbeat_at = acquired_at;
            expires_at = acquired_at + duration;
          }))
          (append_atomic-Ends P agrees session steady r.tenant_id r.work_id 3 context (e ∷ [])
            version [] mutation stream
            (rw kind (
              own_work r lease any (work_claimed ∷ []) mutation own (
                claim_projection-Moves lease limit duration acquired_at
                  (session.clock_timestamp 1))))))

  claim_lease-Ends :
      (r : WorkRequest) (lease : WorkLease) (limit duration : ℕ) (now : Instant)
      → Ends P Agrees (claim_lease python session context r lease limit duration now)
  unfolding claim_lease current_version
  claim_lease-Ends r lease limit duration now =
      Ends-raise_if agrees (not (lease_is_valid lease)) (value_error "invalid lease") _ (λ _.
        Ends-bind agrees (current_version session 2 context r.work_id) _
          (Ends-read session 2 (head_of context r.work_id) steady)
          (λ version.
            Ends-make_event P agrees
              (record {
                event_type = work_claimed;
                occurred_at = now;
                details = [];
                lease = some lease;
              })
              r (session.uuid_factory 1) none
              (write_claim python session context lease limit duration version)
              (λ own.
                write_claim-Ends r lease limit duration version _ ((refl, refl), tt) refl own)))

  claim_next-Ends :
      (r : WorkRequest) (owner : Name) (now expires_at : Instant) (limit : ℕ)
      (next : Option (ℕ × ℕ))
      → Ends P Agrees (claim_next python session context r owner now expires_at limit next)
  claim_next-Ends r owner now expires_at limit none = Ends-same agrees _ (λ s. refl)
  claim_next-Ends r owner now expires_at limit (some next) =
      claim_lease-Ends r (asked_lease python session context r owner now expires_at next) limit
        (expires_at - now) now

  select_claim-Ends :
      (r : WorkRequest) (owner : Name) (now expires_at : Instant) (limit : ℕ)
      → Ends P Agrees (select_claim python session context r owner now expires_at limit)
  select_claim-Ends r owner now expires_at limit =
      Ends-bind agrees (transaction session 1 (gets (next_claim (r.tenant_id, r.work_id)))) _
        (Ends-read session 1 (next_claim (r.tenant_id, r.work_id)) steady)
        (λ next. claim_next-Ends r owner now expires_at limit next)

  unless :
      {A : Type 0} (b : Bool) (a : A) (m : Query A)
      → Ends P Agrees m
      → Ends P Agrees (if b then pure a else m)
  unless true a m e = Ends-same agrees _ (λ s. refl)
  unless false a m e = e

  pub claim-Ends :
      (d : QueueDelivery) (owner : Name) (now expires_at : Instant) (limit : ℕ)
      → Ends P Agrees (claim python session context d owner now expires_at limit)
  unfolding claim
  claim-Ends d owner now expires_at limit =
      Ends-raise_if agrees (owner == 0 || leb expires_at now) (value_error "invalid work claim") _
        (λ _.
          Ends-raise_if agrees
            (not (leb 5000000 (expires_at - now) && leb (expires_at - now) 3600000000))
            (value_error "lease duration must be between 5 and 3600 seconds") _
            (λ _.
              Ends-bind agrees (verify_delivery python session 0 context d) _
                (verify_delivery-Ends python session 0 context d steady)
                (λ r.
                  Ends-bind agrees (validate_request_context context r) _
                    (Ends-same (λ s h. h) _ (raise_if-still _ _))
                    (λ _.
                      unless (limit == 0) none _
                        (select_claim-Ends r owner now expires_at limit)))))
