-- ===== src/Runtime/Work/Appends.antt =====
-- runtime/postgres.py and event_store/postgres.py: transactions that append events of one work and
-- move its status, under what other sessions commit before each of them.
use aegis_agent_platform.Prelude.{
  ℕ, suc, ◌≡◌, refl, sym, ap, ◌∙◌, Bool, true, false, ◌==◌, Option, none, some, List, [], ◌∷◌,
  Result, ok, err, ◌>>=◌, ◌>>◌, pure, gets, modify, lookup, pair_eq, ◌||◌, inl, inr, Bool-cases,
}
use aegis_agent_platform.Domain.Events.{Name, Uuid, EventEnvelope}
use aegis_agent_platform.Domain.Work.{WorkStatus, WorkLease}
use aegis_agent_platform.Domain.Work.Request.{
  WorkRequest, WorkTransition, work_event, is_lease_of, is_work_event, to_event,
}
use aegis_agent_platform.Storage.{
  Database, Session, Query, StorageFault, OutboxMessage, triple_eq, value_error, transaction,
  commit, finish,
}
use aegis_agent_platform.Storage.Ledger.{
  append_in_transaction, append_then, validate_append, append_atomic, append_fenced, check_fence,
  validate_fence, current_version, append_from_inbox, receive, receive_after, head_of, put_inbox,
}
use aegis_agent_platform.Storage.Triples.{Ends, Ends-same, Ends-bind, Ends-raise_if}
use aegis_agent_platform.Storage.Runs.{bind-Ran}
use aegis_agent_platform.Storage.Ledger.Checks.{
  validate_append-still, check_fence-still, validate_fence-still, read_duplicate-still,
}
use aegis_agent_platform.Runtime.Work.{make_event, append_leased}
use aegis_agent_platform.Runtime.Work.Agreement.{
  status_of, Agrees, OfStream, types, append-Appended, Agrees-Shifts,
}
use aegis_agent_platform.Runtime.Work.Shifts.{Moves, any}

-- What other sessions commit keeps `P`.
abbrev pub Steady : (Database → Type 0) → Session → Type 0
Steady P session = (i : ℕ) (s : Database) → P s → P (session.others i s)

module _ {P Q : Database → Type 0} (weaken : (s : Database) → P s → Q s) where
  committed :
      {A : Type 0} (fault : Option StorageFault) (s : Database) (a : A) (s' : Database)
      → P s
      → Q s'
      → Q (commit fault s a s').1
  committed none s a s' h q = q
  committed (some x) s a s' h q = weaken s h

  ended :
      {A : Type 0} (session : Session) (i : ℕ) (m : Query A) (s : Database)
      (r : Result StorageFault A × Database)
      → m s ≡ r
      → P s
      → ((a : A) (s' : Database) → m s ≡ (ok a, s') → Q s')
      → Q (finish session i s r).1
  ended session i m s (err e, s') p h q = weaken s h
  ended session i m s (ok a, s') p h q = committed (session.commit_fault i s') s a s' h (q a s' p)

  -- A transaction whose body leaves `Q` when it returns.
  pub Ends-transaction :
      {A : Type 0} (session : Session) (i : ℕ) (m : Query A)
      → Steady P session
      → ((s : Database) (a : A) (s' : Database) → P s → m s ≡ (ok a, s') → Q s')
      → Ends P Q (transaction session i m)
  unfolding transaction
  Ends-transaction session i m steady body = record {
    at = λ s h.
        let s₀ = session.others i s in
        ended session i m s₀ (m s₀) refl (steady i s h) (λ a s' p. body s₀ a s' (steady i s h) p);
  }

-- A transaction that reads.
pub Ends-read :
    {A : Type 0} {P : Database → Type 0} (session : Session) (i : ℕ) (g : Database → A)
    → Steady P session
    → Ends P P (transaction session i (gets g))
Ends-read session i g steady = record {
  at =
      (Ends-transaction (λ s h. h) session i (gets g) steady
        (λ s a s' h e. rw (ap (λ x. x.1) e) at h)).at;
}

pub append_then-Agrees :
    (t : Name) (w : Uuid) (from : Option WorkStatus → Bool) (es : List EventEnvelope) (expected : ℕ)
    (ms : List OutboxMessage) (m : Query (Unit {0})) (s : Database) {v : ℕ} {s' : Database}
    → OfStream t w es
    → Moves t w from (types es) m
    → from (status_of t w s) ≡ true
    → Agrees s
    → append_then es expected ms m s ≡ (ok v, s')
    → Agrees s'
append_then-Agrees t w from es expected ms m s {s' = s'} stream moves f h e =
    let first = bind-Ran (append_in_transaction es expected ms) (λ v. m >> pure v) s e in
    let second = bind-Ran m (λ _. pure first.value) first.middle first.second in
    let a = append-Appended es expected ms s first.first in
    let last : second.middle ≡ s' = ap (λ x. x.1) second.second in
    let same : status_of t w s ≡ status_of t w first.middle = rw (status_of, a.items) refl in
    rw last at (
      Agrees-Shifts t w es s first.middle second.middle stream a
        (moves.shifts first.middle second.middle (rw same at f) second.first) h)

-- The transaction of `append_from_inbox`.
receive-Agrees :
    (session : Session) (i : ℕ) (context t : Name) (w : Uuid) (row : Option (Option ℕ))
    (key : (ℕ × ℕ) × ℕ) (es : List EventEnvelope) (expected : ℕ) (ms : List OutboxMessage)
    (m : Query (Unit {0})) (s : Database) {v : ℕ × Bool} {s' : Database}
    → OfStream t w es
    → Moves t w any (types es) m
    → Agrees s
    → receive_after session i context row key es expected ms m s ≡ (ok v, s')
    → Agrees s'
receive-Agrees session i context t w (some row) key es expected ms m s stream moves h e =
    rw (sym (ap (λ x. x.1) e) ∙ read_duplicate-still session i context row s) h
receive-Agrees session i context t w none key es expected ms m s {s' = s'} stream moves h e =
    let s₀ = put_inbox session i context key none s in
    let rest : ℕ → Query (ℕ × Bool) = λ version.
      modify (put_inbox session i context key (some version)) >> (m >> pure (version, false)) in
    let first = bind-Ran (append_in_transaction es expected ms) rest s₀ e in
    let a = append-Appended es expected ms s₀ first.first in
    let s₁ = put_inbox session i context key (some first.value) first.middle in
    let second = bind-Ran m (λ _. pure (first.value, false)) s₁ first.second in
    let last : second.middle ≡ s' = ap (λ x. x.1) second.second in
    rw last at (
      Agrees-Shifts t w es s s₁ second.middle stream
        (record { version = a.version; position = a.position; events = a.events; items = a.items })
        (moves.shifts s₁ second.middle refl second.first) h)

module _ (P : Database → Type 0) (agrees : (s : Database) → P s → Agrees s) where
  -- A transition that is made is one of its own request's lease.
  pub Ends-make_event :
      {A : Type 0} (t : WorkTransition) (r : WorkRequest) (event_id : Uuid)
      (causation_id : Option Uuid) (f : EventEnvelope → Query A)
      → (is_lease_of r t.lease ≡ true → Ends P Agrees (f (work_event t r event_id causation_id)))
      → Ends P Agrees (make_event t r event_id causation_id >>= f)
  unfolding make_event to_event
  Ends-make_event t r event_id causation_id f k = elim (Bool-cases (is_work_event t.event_type)) [
    | inr other ↦ rw other (record { at = λ s h. agrees s h })
    | inl work ↦ elim (Bool-cases (is_lease_of r t.lease)) [
      | inr other ↦ rw (work, other) (record { at = λ s h. agrees s h })
      | inl own ↦ rw (work, own) (record { at = λ s h. (k own).at s h })
    ]
  ]

  module _ (session : Session) (steady : Steady P session) (t : Name) (w : Uuid) where
    pub append_atomic-Ends :
        (i : ℕ) (context : Name) (es : List EventEnvelope) (expected : ℕ) (ms : List OutboxMessage)
        (m : Query (Unit {0}))
        → OfStream t w es
        → Moves t w any (types es) m
        → Ends P Agrees (append_atomic session i context es expected m ms)
    unfolding append_atomic
    append_atomic-Ends i context es expected ms m stream moves =
        Ends-bind agrees (validate_append context es) _
          (Ends-same (λ s h. h) (validate_append context es) (validate_append-still context es))
          (λ _.
            Ends-transaction agrees session i (append_then es expected ms m) steady (λ s v s' h e.
              append_then-Agrees t w any es expected ms m s stream moves refl (agrees s h) e))

  -- An append under a fence; what admits the mutation may follow from the fence.
  pub append_fenced-Ends :
      (session : Session) (steady : Steady P session) (t : Name) (w : Uuid)
      (from : Option WorkStatus → Bool) (i : ℕ) (context : Name) (es : List EventEnvelope)
      (expected : ℕ) (work token : Uuid) (generation : ℕ) (ms : List OutboxMessage)
      (m : Query (Unit {0}))
      → ((s s' : Database)
          → P s
          → check_fence session i context work token generation (session.clock_timestamp 0) s
            ≡ (ok tt, s')
          → from (status_of t w s) ≡ true)
      → OfStream t w es
      → Moves t w from (types es) m
      → Ends P Agrees (append_fenced session i context es expected work token generation ms m)
  unfolding append_fenced
  append_fenced-Ends session steady t w from i context es expected work token generation ms m
        started stream moves =
      let fence = check_fence session i context work token generation (session.clock_timestamp 0) in
      Ends-bind agrees (validate_append context es) _
        (Ends-same (λ s h. h) (validate_append context es) (validate_append-still context es))
        (λ _.
          Ends-bind agrees (validate_fence session i context es work token generation) _
            (Ends-same (λ s h. h) _
              (validate_fence-still session i context es work token generation))
            (λ _. Ends-transaction agrees session i _ steady (λ s v s' h e.
              let ran = bind-Ran fence (λ _. append_then es expected ms m) s e in
              let same : ran.middle ≡ s =
                sym (ap (λ x. x.1) ran.first)
                ∙ check_fence-still session i context work token generation
                    (session.clock_timestamp 0) s in
              append_then-Agrees t w from es expected ms m s stream moves
                (started s ran.middle h ran.first) (agrees s h) (rw same at ran.second))))

  -- An append behind the inbox: a message that was seen writes nothing.
  pub append_from_inbox-Ends :
      (session : Session) (steady : Steady P session) (t : Name) (w : Uuid) (i : ℕ)
      (context source message_id : Name) (es : List EventEnvelope) (expected : ℕ)
      (ms : List OutboxMessage) (m : Query (Unit {0}))
      → OfStream t w es
      → Moves t w any (types es) m
      → Ends P Agrees (append_from_inbox session i context source message_id es expected ms m)
  unfolding append_from_inbox
  append_from_inbox-Ends session steady t w i context source message_id es expected ms m stream
        moves =
      Ends-raise_if agrees (source == 0 || message_id == 0)
        (value_error "inbox source and message_id are required") _
        (λ _.
          Ends-bind agrees (validate_append context es) _
            (Ends-same (λ s h. h) (validate_append context es) (validate_append-still context es))
            (λ _.
              Ends-transaction agrees session i
                (receive session i context ((context, source), message_id) es expected ms m) steady
                (λ s v s' h e.
                  receive-Agrees session i context t w
                    (lookup ((context, source), message_id) s.inbox_messages)
                    ((context, source), message_id) es expected ms m s stream moves (agrees s h)
                    e)))

  -- `_append_fenced` of the work repository
  pub append_leased-Ends :
      (session : Session) (steady : Steady P session) (from : Option WorkStatus → Bool) (i : ℕ)
      (context : Name) (event_id : Uuid) (r : WorkRequest) (tr : WorkTransition) (lease : WorkLease)
      (m : Query (Unit {0}))
      → (is_lease_of r tr.lease ≡ true
          → (s s' : Database) → P s
          → check_fence session
              (suc i)
              context
              lease.work_id
              lease.token
              lease.generation
              (session.clock_timestamp 0)
              s
            ≡ (ok tt, s')
          → from (status_of r.tenant_id r.work_id s) ≡ true)
      → (is_lease_of r tr.lease ≡ true → Moves r.tenant_id r.work_id from (tr.event_type ∷ []) m)
      → Ends P Agrees (append_leased session i context event_id r tr lease m)
  unfolding append_leased current_version
  append_leased-Ends session steady from i context event_id r tr lease m started moves =
      Ends-bind agrees (current_version session i context r.work_id) _
        (Ends-read session i (head_of context r.work_id) steady)
        (λ version.
          Ends-make_event tr r event_id none
            (λ e.
              append_fenced session (suc i) context (e ∷ []) version lease.work_id lease.token
                lease.generation [] m)
            (λ own.
              append_fenced-Ends session steady r.tenant_id r.work_id from (suc i) context
                (work_event tr r event_id none ∷ []) version lease.work_id lease.token
                lease.generation [] m (started own) ((refl, refl), tt) (moves own)))
