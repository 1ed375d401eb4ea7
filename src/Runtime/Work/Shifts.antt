-- ===== src/Runtime/Work/Shifts.antt =====
-- runtime/postgres.py: the statements of each operation move the status of the work as the events
-- of the operation say.
use aegis_agent_platform.Prelude.{
  ℕ, ◌≡◌, refl, ap, ◌∙◌, Bool, true, if◌then◌else◌, Option, some, List, [], ◌++◌, ok, ◌>>◌, lookup,
  insert, lookup-insert, pair_eq, inl, inr, Bool-cases, arith, Option-cases,
}
use aegis_agent_platform.Domain.Events.{Name, Uuid, DomainEventType}
use aegis_agent_platform.Domain.Work.{WorkStatus}
use aegis_agent_platform.Domain.Work.Lifecycle.{replay}
use aegis_agent_platform.Storage.{
  Database, Query, StorageFault, WorkItem, LeaseRow, update_item, update_lease,
}
use aegis_agent_platform.Storage.Runs.{bind-Ran}
use aegis_agent_platform.Runtime.Work.Agreement.{status_of, Shifts, replay_extends, is_same}

Shifts-trans :
    (t : Name) (w : Uuid) (es es' : List DomainEventType) (s s₁ s₂ : Database)
    → Shifts t w es s s₁
    → Shifts t w es' s₁ s₂
    → Shifts t w (es ++ es') s s₂
Shifts-trans t w es es' s s₁ s₂ p q = record {
  same_events = q.same_events ∙ p.same_events;
  others = λ t' w' other. q.others t' w' other ∙ p.others t' w' other;
  replays = replay_extends (status_of t w s) es es' p.replays ∙ q.replays;
}

abbrev pub any : Option WorkStatus → Bool
any s = true

-- A mutation that returns has moved the status of one work as the events say, if that was one that
-- `from` admits.
pub record Moves (t : Name) (w : Uuid) (from : Option WorkStatus → Bool) (es : List DomainEventType)
    (m : Query (Unit {0})) : Type 0 where
  pub shifts :
      (s s' : Database) → from (status_of t w s) ≡ true → m s ≡ (ok tt, s') → Shifts t w es s s'

module _ (t : Name) (w : Uuid) where
  pub Moves-then :
      (from : Option WorkStatus → Bool) (es es' : List DomainEventType) (m n : Query (Unit {0}))
      → Moves t w from es m
      → Moves t w any es' n
      → Moves t w from (es ++ es') (m >> n)
  Moves-then from es es' m n p q = record {
    shifts = λ s s' f h.
        let r = bind-Ran m (λ _. n) s h in
        Shifts-trans t w es es' s r.middle s' (p.shifts s r.middle f r.first)
          (q.shifts r.middle s' refl r.second);
  }

  pub Shifts-status : (s s' : Database) → Shifts t w [] s s' → status_of t w s ≡ status_of t w s'
  unfolding replay
  Shifts-status s s' p = ground (arith, p.replays)

  pub Moves-after_still :
      (from : Option WorkStatus → Bool) (es : List DomainEventType) (m n : Query (Unit {0}))
      → Moves t w any [] m
      → Moves t w from es n
      → Moves t w from es (m >> n)
  Moves-after_still from es m n p q = record {
    shifts = λ s s' f h.
        let r = bind-Ran m (λ _. n) s h in
        let still = p.shifts s r.middle refl r.first in
        Shifts-trans t w [] es s r.middle s' still
          (q.shifts r.middle s' (rw (← Shifts-status s r.middle still) f) r.second);
  }

  -- A mutation that leaves the events and the statuses alone.
  pub Moves-still :
      (m : Query (Unit {0}))
      → ((s : Database) → (m s).1.events ≡ s.events)
      → ((s : Database) (t' : Name) (w' : Uuid) → status_of t' w' (m s).1 ≡ status_of t' w' s)
      → Moves t w any [] m
  unfolding replay
  Moves-still m events statuses = record {
    shifts = λ s s' f h.
        let e : (m s).1 ≡ s' = ap (λ x. x.1) h in
        record {
          same_events = rw (← e) (events s);
          others = λ t' w' other. rw (← e) (statuses s t' w');
          replays = rw (← e, statuses s t w) refl;
        };
  }

-- The statuses after a row is written.
pub status-insert :
    (t : Name) (w : Uuid) (t' : Name) (w' : Uuid) (row : WorkItem) (s : Database)
    → status_of t' w' (record s { work_items = insert (t, w) row s.work_items })
      ≡ (if is_same t' w' t w then some row.status else status_of t' w' s)
status-insert t w t' w' row s = ground (arith, lookup-insert (t', w') (t, w) row s.work_items)

pair_refl : (t : Name) (w : Uuid) → is_same t w t w ≡ true
pair_refl t w = ground arith

status_found :
    (t : Name) (w : Uuid) (s : Database) (row : WorkItem)
    → lookup (t, w) s.work_items ≡ some row
    → status_of t w s ≡ some row.status
status_found t w s row found = rw (status_of, found) refl

-- A row is written over one with a status, or where none is.
pub Shifts-insert :
    (t : Name) (w : Uuid) (es : List DomainEventType) (s s' : Database) (row : WorkItem)
    → record s { work_items = insert (t, w) row s.work_items } ≡ s'
    → replay (status_of t w s) es ≡ ok (some row.status)
    → Shifts t w es s s'
Shifts-insert t w es s s' row e valid = record {
  same_events = rw (← e) refl;
  others = λ t' w' other. rw (← e, status-insert t w t' w' row s, other) refl;
  replays = rw (← e, status-insert t w t w row s, pair_refl t w) valid;
}

-- A statement on one row of the work table.
pub update_item-Moves :
    (t : Name) (w : Uuid) (from : Option WorkStatus → Bool) (es : List DomainEventType)
    (test : WorkItem → Bool) (change : WorkItem → WorkItem) (fault : StorageFault)
    → ((row : WorkItem)
        → test row ≡ true
        → from (some row.status) ≡ true
        → replay (some row.status) es ≡ ok (some (change row).status))
    → Moves t w from es (update_item (t, w) test change fault)
unfolding update_item
update_item-Moves t w from es test change fault valid = record {
  shifts = λ s s' f h. elim (Option-cases (lookup (t, w) s.work_items)) [
    | inl missing ↦ absurd (ground (arith, h, missing))
    | inr (row, found) ↦ elim (Bool-cases (test row)) [
      | inr fails ↦ absurd (ground (arith, h, found, fails))
      | inl holds ↦ Shifts-insert t w es s s' (change row) (ground (arith, h, found, holds)) (
          rw (status_found t w s row found)
            (valid row holds (rw (status_found t w s row found) at f)))
    ]
  ];
}

-- A statement on one row of the leases.
pub update_lease-Moves :
    (key : ℕ × ℕ) (t : Name) (w : Uuid) (test : LeaseRow → Bool) (change : LeaseRow → LeaseRow)
    (fault : StorageFault)
    → Moves t w any [] (update_lease key test change fault)
unfolding update_lease
update_lease-Moves key t w test change fault =
    Moves-still t w _
      (λ s. elim (Option-cases (lookup key s.work_leases)) [
        | inl missing ↦ ground (arith, missing)
        | inr (row, found) ↦ ground (arith, found)
      ])
      (λ s t' w'. elim (Option-cases (lookup key s.work_leases)) [
        | inl missing ↦ ground (arith, missing)
        | inr (row, found) ↦ ground (arith, found)
      ])
