-- ===== src/Domain/Work/Tests.antt =====
-- The theorems on work at one history.
use aegis_agent_platform.Prelude.{◌≡◌, ◌≤◌, refl, none, some, List, [], ◌∷◌, ok, sum_by}
use aegis_agent_platform.Domain.Events.{
  DomainEventType, work_requested, work_published, work_claimed, work_started, work_lease_expired,
  work_succeeded,
}
use aegis_agent_platform.Domain.Work.{succeeded, next_status, transition}
use aegis_agent_platform.Domain.Work.Lifecycle.{
  replay, replay-IsSettled, replay-counts, claims, starts, outcomes,
}

-- A lease expires, and the second execution succeeds.
abbrev history : List DomainEventType
history =
    work_requested ∷ work_published ∷ work_claimed ∷ work_started ∷ work_lease_expired
    ∷ work_claimed ∷ work_started ∷ work_succeeded ∷ []

abbrev nothing : List DomainEventType
nothing = []

replay-history : replay none history ≡ ok (some succeeded)
unfolding replay next_status transition
replay-history = refl

replay-counts_example :
    (sum_by starts history ≤ sum_by claims history)
    × (sum_by outcomes history ≤ sum_by starts history)
replay-counts_example = replay-counts history replay-history

replay-IsSettled_example : (nothing ≡ []) × (some succeeded ≡ some succeeded)
replay-IsSettled_example =
    replay-IsSettled history nothing succeeded tt replay-history replay-history
