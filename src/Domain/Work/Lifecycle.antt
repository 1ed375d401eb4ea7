-- ===== src/Domain/Work/Lifecycle.antt =====
-- What the work state machine of domain/work.py promises about a history of events.
use aegis_agent_platform.Prelude.{
  ℕ, ◌+◌, ◌≤◌, ◌≡◌, refl, inl, inr, Bool, true, false, Option, none, some, List, [], ◌∷◌, ◌++◌,
  arith, Result, ok, err, Result-cases, sum_by, if◌then◌else◌,
}
use aegis_agent_platform.Domain.Events.{
  DomainEventType, work_requested, work_claimed, work_started, work_heartbeat, work_succeeded,
  work_failed, work_cancel_requested, work_cancelled, work_reconciled,
}
use aegis_agent_platform.Domain.Work.{
  WorkStatus, requested, published, claimed, running, retry_wait, succeeded, failed, dead_letter,
  InvalidEdge, is_open, next_status,
}

-- The status after a history, or the first invalid edge.
unfoldable pub replay :
    Option WorkStatus → List DomainEventType → Result InvalidEdge (Option WorkStatus)
replay current [] = ok current
replay current (e ∷ es) = elim (next_status current e) [ ok s ↦ replay (some s) es | err x ↦ err x ]

-- The two statuses that no event leaves.
abbrev pub IsSettled : WorkStatus → Type 0
IsSettled succeeded = Unit
IsSettled WorkStatus.cancelled = Unit
IsSettled _ = ⊥

-- Every event is refused in a settled status.
pub next_status-IsSettled :
    (s : WorkStatus) (e : DomainEventType)
    → IsSettled s
    → next_status (some s) e ≡ err (record { event_type = e; current = some s })
unfolding next_status
next_status-IsSettled succeeded work_requested h = refl
next_status-IsSettled succeeded _ h = refl
next_status-IsSettled WorkStatus.cancelled work_requested h = refl
next_status-IsSettled WorkStatus.cancelled _ h = refl
next_status-IsSettled _ e h = elim h [ ]

-- The events that do not move the status.
abbrev pub is_note : DomainEventType → Bool
is_note work_heartbeat = true
is_note work_cancel_requested = true
is_note work_reconciled = true
is_note _ = false

pub next_status-is_note :
    (s : WorkStatus) (e : DomainEventType)
    → is_note e ≡ true
    → {t : WorkStatus} → next_status (some s) e ≡ ok t
    → t ≡ s
unfolding next_status
next_status-is_note s work_heartbeat h p = ground arith
next_status-is_note s work_cancel_requested h p = ground arith
next_status-is_note s work_reconciled h p = ground arith
next_status-is_note s _ h p = cc

pub next_status-moves :
    (s : WorkStatus) (e : DomainEventType) → next_status (some s) e ≡ ok s → is_note e ≡ true
unfolding next_status
next_status-moves s work_heartbeat p = refl
next_status-moves s work_cancel_requested p = refl
next_status-moves s work_reconciled p = refl
next_status-moves requested work_requested p = cc
next_status-moves requested _ p = cc
next_status-moves published _ p = cc
next_status-moves claimed _ p = cc
next_status-moves running _ p = cc
next_status-moves retry_wait _ p = cc
next_status-moves succeeded _ p = cc
next_status-moves failed _ p = cc
next_status-moves WorkStatus.cancelled _ p = cc
next_status-moves dead_letter _ p = cc

-- A history goes on through a status, and stops at the first invalid edge.
replay-append :
    (c : Option WorkStatus) (es es' : List DomainEventType) {d : Option WorkStatus}
    → replay c (es ++ es') ≡ ok d
    → (b : Option WorkStatus) × (replay c es ≡ ok b) × (replay b es' ≡ ok d)
unfolding replay
replay-append c [] es' h = (c, refl, h)
replay-append c (e ∷ es) es' h = elim (Result-cases (next_status c e)) [
  | inl (s, p) ↦ rw (p, replay) (replay-append (some s) es es' (rw (p, replay) at h))
  | inr (x, p) ↦ ground arith
]

settled_end :
    (es : List DomainEventType) (s : WorkStatus) {d : Option WorkStatus}
    → IsSettled s
    → replay (some s) es ≡ ok d
    → (es ≡ []) × (d ≡ some s)
unfolding replay
settled_end [] s settled h = (refl, cc)
settled_end (e ∷ es) s settled h = ground (arith, next_status-IsSettled s e settled)

-- An accepted history has nothing after an event that settled the work.
pub replay-IsSettled :
    (es es' : List DomainEventType) (s : WorkStatus) {d : Option WorkStatus}
    → IsSettled s
    → replay none es ≡ ok (some s)
    → replay none (es ++ es') ≡ ok d
    → (es' ≡ []) × (d ≡ some s)
replay-IsSettled es es' s settled h k =
    let (b, p, q) = replay-append none es es' k in
    let e : b ≡ some s = cc in settled_end es' s settled (rw e at q)

-- 1 for an event that claims, starts, or ends an execution.
abbrev pub claims : DomainEventType → ℕ
claims work_claimed = 1
claims _ = 0

abbrev pub starts : DomainEventType → ℕ
starts work_started = 1
starts _ = 0

abbrev pub outcomes : DomainEventType → ℕ
outcomes work_succeeded = 1
outcomes work_failed = 1
outcomes _ = 0

-- A claim that has not started yet, and a start that has not ended yet.
abbrev unstarted : Option WorkStatus → ℕ
unstarted (some claimed) = 1
unstarted _ = 0

abbrev unended : Option WorkStatus → ℕ
unended (some running) = 1
unended _ = 0

starts-step :
    (c : Option WorkStatus) (e : DomainEventType) {s : WorkStatus}
    → next_status c e ≡ ok s
    → starts e + unstarted (some s) ≤ claims e + unstarted c
unfolding next_status
starts-step c work_started h = ground arith
starts-step c _ h = ground arith

outcomes-step :
    (c : Option WorkStatus) (e : DomainEventType) {s : WorkStatus}
    → next_status c e ≡ ok s
    → outcomes e + unended (some s) ≤ starts e + unended c
unfolding next_status
outcomes-step c work_started h = ground arith
outcomes-step c _ h = ground arith

counts_from :
    (c : Option WorkStatus) (es : List DomainEventType) {d : Option WorkStatus}
    → replay c es ≡ ok d
    → (sum_by starts es + unstarted d ≤ sum_by claims es + unstarted c)
      × (sum_by outcomes es + unended d ≤ sum_by starts es + unended c)
unfolding replay
counts_from c [] h = ground arith
counts_from c (e ∷ es) h = elim (Result-cases (next_status c e)) [
  | inl (s, p) ↦
      let (i, j) = counts_from (some s) es (rw (p, replay) at h) in
      (omega (arith, starts-step c e p), omega (arith, outcomes-step c e p))
  | inr (x, p) ↦ ground arith
]

-- In an accepted history each start has a claim of its own, and each success or failure a start.
pub replay-counts :
    (es : List DomainEventType) {d : Option WorkStatus}
    → replay none es ≡ ok d
    → (sum_by starts es ≤ sum_by claims es) × (sum_by outcomes es ≤ sum_by starts es)
replay-counts es h = let (i, j) = counts_from none es h in (omega arith, omega arith)

-- Work is refused a cancellation exactly if it was never requested or is terminal.
pub next_status-cancel :
    (c : Option WorkStatus)
    → next_status c work_cancelled ≡ (
        if is_open c
        then ok WorkStatus.cancelled
        else err (record { event_type = work_cancelled; current = c }))
unfolding next_status
next_status-cancel c = ground arith
