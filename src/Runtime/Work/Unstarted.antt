-- ===== src/Runtime/Work/Unstarted.antt =====
-- runtime/postgres.py: what `_dead_letter_in_transaction` does to work that is claimed and was not
-- started.
use Prim.Native.String.{String}
use aegis_agent_platform.Prelude.{
  ℕ, ◌≡◌, refl, ap, ◌∙◌, Bool, none, some, List, [], ◌∷◌, ◌++◌, ok, ◌>>◌, pure, modify, lookup,
  pair_eq, inl, inr, Option-cases, arith,
}
use aegis_agent_platform.Domain.Events.{Instant, EventEnvelope, work_failed, work_dead_lettered}
use aegis_agent_platform.Domain.Work.{WorkStatus, claimed, dead_letter, WorkLease, next_status}
use aegis_agent_platform.Domain.Work.Lifecycle.{replay}
use aegis_agent_platform.Storage.{
  Database, StorageFault, OutboxMessage, WorkItem, LeaseRow, update_item, update_lease,
}
use aegis_agent_platform.Storage.Runs.{bind-Ran}
use aegis_agent_platform.Storage.Ledger.{append_then, append_in_transaction, numbered}
use aegis_agent_platform.Runtime.Work.Statements.{
  work_key, holds_lease, release_lease, complete_in_transaction, dead_letter_in_transaction,
  put_error_code, put_dead_letter,
}
use aegis_agent_platform.Runtime.Work.Agreement.{
  status_of, history, Agrees, OfStream, types, append-Appended, history-append,
  history-numbered_same, replay_extends,
}
use aegis_agent_platform.Runtime.Work.Moves.{put_error_code-events}
use aegis_agent_platform.Storage.Triples.{Ends, Ends-bind}

abbrev SameEvents : List EventEnvelope → Database → Type 0
SameEvents es s = s.events ≡ es

update_item-events :
    (es : List EventEnvelope) (key : ℕ × ℕ) (test : WorkItem → Bool) (change : WorkItem → WorkItem)
    (fault : StorageFault)
    → Ends (SameEvents es) (SameEvents es) (update_item key test change fault)
unfolding update_item
update_item-events es key test change fault = record {
  at = λ s h. elim (Option-cases (lookup key s.work_items)) [
    | inl missing ↦ ground (arith, missing, h)
    | inr (row, found) ↦ ground (arith, found, h)
  ];
}

release_lease-events :
    (es : List EventEnvelope) (lease : WorkLease) (at : Instant) (reason : String)
    (test : LeaseRow → Bool)
    → Ends (SameEvents es) (SameEvents es) (release_lease lease at reason test)
unfolding release_lease update_lease
release_lease-events es lease at reason test = record {
  at = λ s h. elim (Option-cases (lookup (work_key lease) s.work_leases)) [
    | inl missing ↦ ground (arith, missing, h)
    | inr (row, found) ↦ ground (arith, found, h)
  ];
}

complete_in_transaction-events :
    (es : List EventEnvelope) (lease : WorkLease) (at : Instant) (status : WorkStatus)
    (reason : String)
    → Ends (SameEvents es) (SameEvents es) (complete_in_transaction lease at status reason)
unfolding complete_in_transaction
complete_in_transaction-events es lease at status reason =
    Ends-bind (λ s h. h) (release_lease lease at reason (holds_lease lease)) _
      (release_lease-events es lease at reason (holds_lease lease))
      (λ _. update_item-events es (work_key lease) _ _ _)

put_error_code-SameEvents :
    (es : List EventEnvelope) (key : ℕ × ℕ) (reason : String)
    → Ends (SameEvents es) (SameEvents es) (modify (put_error_code key reason))
put_error_code-SameEvents es key reason = record {
  at = λ s h. put_error_code-events key reason s ∙ h;
}

put_dead_letter-SameEvents :
    (es : List EventEnvelope) (lease : WorkLease) (at : Instant) (reason : String)
    → Ends (SameEvents es) (SameEvents es) (modify (put_dead_letter lease at reason))
put_dead_letter-SameEvents es lease at reason = record { at = λ s h. h }

dead_letter_in_transaction-events :
    (es : List EventEnvelope) (lease : WorkLease) (at : Instant) (reason : String)
    → Ends (SameEvents es) (SameEvents es) (dead_letter_in_transaction lease at reason)
unfolding dead_letter_in_transaction
dead_letter_in_transaction-events es lease at reason =
    Ends-bind (λ s h. h) (complete_in_transaction lease at dead_letter "dead_letter")
      (λ _.
        modify (put_error_code (work_key lease) reason) >> modify (put_dead_letter lease at reason))
      (complete_in_transaction-events es lease at dead_letter "dead_letter")
      (λ _.
        Ends-bind (λ s h. h) (modify (put_error_code (work_key lease) reason))
          (λ _. modify (put_dead_letter lease at reason))
          (put_error_code-SameEvents es (work_key lease) reason)
          (λ _. put_dead_letter-SameEvents es lease at reason))

-- A failure of claimed work that is recorded as final leaves the status column against the ledger:
-- the state machine has no WORK_FAILED after WORK_CLAIMED.
pub dead_letter_claimed-disagrees :
    (lease : WorkLease) (at : Instant) (reason : String) (es : List EventEnvelope) (expected : ℕ)
    (ms : List OutboxMessage) (s s' : Database) (n : ℕ)
    → Agrees s
    → status_of lease.tenant_id lease.work_id s ≡ some claimed
    → OfStream lease.tenant_id lease.work_id es
    → types es ≡ work_failed ∷ work_dead_lettered ∷ []
    → append_then es expected ms (dead_letter_in_transaction lease at reason) s ≡ (ok n, s')
    → ¬ Agrees s'
unfolding replay next_status
dead_letter_claimed-disagrees lease at reason es expected ms s s' n h status stream kinds e after =
    let m = dead_letter_in_transaction lease at reason in
    let t = lease.tenant_id in
    let w = lease.work_id in
    let first = bind-Ran (append_in_transaction es expected ms) (λ v. m >> pure v) s e in
    let second = bind-Ran m (λ _. pure first.value) first.middle first.second in
    let a = append-Appended es expected ms s first.first in
    let last : second.middle ≡ s' = ap (λ x. x.1) second.second in
    let same : second.middle.events ≡ first.middle.events = rw (← ap (λ x. x.1) second.first) (
      (dead_letter_in_transaction-events first.middle.events lease at reason).at first.middle
        refl) in
    let all : history t w s'.events
        ≡ history t w s.events ++ (work_failed ∷ work_dead_lettered ∷ []) =
      rw
        (
          ← last,
          same,
          a.events,
          history-append t w s.events (numbered a.version a.position es),
          history-numbered_same t w a.version a.position es stream,
          kinds,
        )
        refl in
    let before : replay none (history t w s.events) ≡ ok (some claimed) = h.at t w ∙ ap ok status in
    let stuck =
      replay_extends none (history t w s.events) (work_failed ∷ work_dead_lettered ∷ []) before in
    ground (arith, stuck, all, after.at t w)
