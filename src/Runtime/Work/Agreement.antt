-- ===== src/Runtime/Work/Agreement.antt =====
-- The status column of the work table in runtime/postgres.py, against the history of the work in
-- the ledger and the state machine of domain/work.py.
use mathlib.Core.List.{append-nil}
use aegis_agent_platform.Prelude.{
  ℕ, suc, ◌≡◌, refl, ◌∙◌, Bool, true, false, ◌&&◌, ◌==◌, if◌then◌else◌, Option, none, some, List,
  [], ◌∷◌, ◌++◌, ok, lookup, pair_eq, length, inl, inr, Bool-cases, All, Result-cases, arith, map,
}
use aegis_agent_platform.Domain.Events.{Name, Uuid, DomainEventType, EventEnvelope}
use aegis_agent_platform.Domain.Work.{WorkStatus, next_status}
use aegis_agent_platform.Domain.Work.Lifecycle.{replay}
use aegis_agent_platform.Storage.{Database, OutboxMessage}
use aegis_agent_platform.Storage.Ledger.Writes.{append-Wrote}
use aegis_agent_platform.Storage.Ledger.{append_in_transaction, numbered}

abbrev pub of_stream : Name → Uuid → EventEnvelope → Bool
of_stream tenant work e = e.tenant_id == tenant && e.aggregate_id == work

-- The types of the events of a stream, in the order of the ledger.
unfoldable pub history : Name → Uuid → List EventEnvelope → List DomainEventType
history tenant work [] = []
history tenant work (e ∷ es) =
    let rest = history tenant work es in
    if of_stream tenant work e then e.event_type ∷ rest else rest

abbrev pub status_of : Name → Uuid → Database → Option WorkStatus
status_of tenant work s = elim (lookup (tenant, work) s.work_items) [
  | none ↦ none
  | some row ↦ some row.status
]

-- Every row has the status that the state machine gives for the history of its work; work without
-- a row has no history.
pub record Agrees (s : Database) : Type 0 where
  pub at :
      (tenant : Name) (work : Uuid)
      → replay none (history tenant work s.events) ≡ ok (status_of tenant work s)

abbrev pub is_same : Name → Uuid → Name → Uuid → Bool
is_same t w tenant work = t == tenant && w == work

-- A mutation of one work: its status moves as the events say, and no other status does.
pub record Shifts (tenant : Name) (work : Uuid) (es : List DomainEventType) (s s' : Database)
    : Type 0 where
  pub same_events : s'.events ≡ s.events
  pub others :
      (t : Name) (w : Uuid) → is_same t w tenant work ≡ false → status_of t w s' ≡ status_of t w s
  pub replays : replay (status_of tenant work s) es ≡ ok (status_of tenant work s')

pub history-append :
    (tenant : Name) (work : Uuid) (xs ys : List EventEnvelope)
    → history tenant work (xs ++ ys) ≡ history tenant work xs ++ history tenant work ys
unfolding history
history-append tenant work [] ys = refl
history-append tenant work (x ∷ xs) ys = ground (arith, history-append tenant work xs ys)

pub replay_extends :
    (c : Option WorkStatus) (es es' : List DomainEventType) {b : Option WorkStatus}
    → replay c es ≡ ok b
    → replay c (es ++ es') ≡ replay b es'
unfolding replay
replay_extends c [] es' h = ground arith
replay_extends c (e ∷ es) es' h = elim (Result-cases (next_status c e)) [
  | inl (s, p) ↦ rw (p, replay) (replay_extends (some s) es es' (rw (p, replay) at h))
  | inr (x, p) ↦ ground arith
]

-- All the events of a batch are of one stream.
abbrev pub OfStream : Name → Uuid → List EventEnvelope → Type 0
OfStream tenant work es = All (λ e. (e.tenant_id ≡ tenant) × (e.aggregate_id ≡ work)) es

abbrev pub types : List EventEnvelope → List DomainEventType
types es = map (λ e. e.event_type) es

pub history-numbered_same :
    (tenant : Name) (work : Uuid) (version position : ℕ) (es : List EventEnvelope)
    → OfStream tenant work es
    → history tenant work (numbered version position es) ≡ types es
unfolding history
history-numbered_same tenant work version position [] h = refl
history-numbered_same tenant work version position (e ∷ es) h =
    let rest = history-numbered_same tenant work (suc version) (suc position) es h.1 in
    ground (arith, h.0.0, h.0.1, rest)

history-numbered_other :
    (t : Name) (w : Uuid) (tenant : Name) (work : Uuid) (version position : ℕ)
    (es : List EventEnvelope)
    → OfStream tenant work es
    → is_same t w tenant work ≡ false
    → history t w (numbered version position es) ≡ []
unfolding history
history-numbered_other t w tenant work version position [] h k = refl
history-numbered_other t w tenant work version position (e ∷ es) h k =
    let rest = history-numbered_other t w tenant work (suc version) (suc position) es h.1 k in
    ground (arith, h.0.0, h.0.1, rest)

-- An append adds the numbered events and leaves the work table alone.
pub record Appended (es : List EventEnvelope) (s s' : Database) : Type 0 where
  pub version : ℕ
  pub position : ℕ
  pub events : s'.events ≡ s.events ++ numbered version position es
  pub items : s'.work_items ≡ s.work_items

pub append-Appended :
    (es : List EventEnvelope) (expected : ℕ) (ms : List OutboxMessage) (s : Database) {n : ℕ}
    {s' : Database}
    → append_in_transaction es expected ms s ≡ (ok n, s')
    → Appended es s s'
unfolding append_in_transaction
append-Appended [] expected ms s h = ground (arith, h)
append-Appended (first ∷ rest) expected ms s {n = n} {s' = s'} h =
    let wrote = append-Wrote first rest expected ms s s' n h in
    record {
      version = expected;
      position = length s.events;
      events = wrote.rest.events;
      items = wrote.rest.items;
    }

module _ (tenant : Name) (work : Uuid) (es : List EventEnvelope) (s s₁ s₂ : Database)
    (stream : OfStream tenant work es) (a : Appended es s s₁)
    (m : Shifts tenant work (types es) s₁ s₂) (h : Agrees s) where
  events-after : s₂.events ≡ s.events ++ numbered a.version a.position es
  events-after = m.same_events ∙ a.events

  status-before : (t : Name) (w : Uuid) → status_of t w s₁ ≡ status_of t w s
  status-before t w = rw a.items refl

  at_same : replay none (history tenant work s₂.events) ≡ ok (status_of tenant work s₂)
  at_same =
      rw
        (
          events-after,
          history-append tenant work s.events (numbered a.version a.position es),
          history-numbered_same tenant work a.version a.position es stream,
        )
        (replay_extends none (history tenant work s.events) (types es) (h.at tenant work)
          ∙ (rw (← status-before tenant work) m.replays))

  at_other :
      (t : Name) (w : Uuid)
      → is_same t w tenant work ≡ false
      → replay none (history t w s₂.events) ≡ ok (status_of t w s₂)
  at_other t w other =
      rw
        (
          events-after,
          history-append t w s.events (numbered a.version a.position es),
          history-numbered_other t w tenant work a.version a.position es stream other,
          append-nil (history t w s.events),
          m.others t w other,
          status-before t w,
        )
        (h.at t w)

  at_is_same :
      (t : Name) (w : Uuid)
      → is_same t w tenant work ≡ true
      → replay none (history t w s₂.events) ≡ ok (status_of t w s₂)
  at_is_same t w same =
      let e₁ : t ≡ tenant = ground (arith, same) in
      let e₂ : w ≡ work = ground (arith, same) in rw (e₁, e₂) at_same

  -- Events of one work, and a mutation that moves its status as they say.
  pub Agrees-Shifts : Agrees s₂
  Agrees-Shifts = record {
    at = λ t w. elim (Bool-cases (is_same t w tenant work)) [
      | inl same ↦ at_is_same t w same
      | inr other ↦ at_other t w other
    ];
  }
