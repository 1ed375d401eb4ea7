-- ===== src/Storage/Outbox/Settled.antt =====
-- event_store/postgres.py: a publisher's lease of an outbox message excludes others, and settles the
-- message once.
use Prim.Native.String.{String}
use aegis_agent_platform.Prelude.{
  ℕ, ◌<◌, ◌≡◌, true, false, Option, List, [], ◌∷◌, ok, err, lookup, insert, lookup-insert_self,
  pair_eq, inl, inr, Option-cases, Bool-cases, arith, Dict, All,
}
use aegis_agent_platform.Domain.Events.{Name, Instant}
use aegis_agent_platform.Storage.{Database, concurrency_error, OutboxRow, update_outbox}
use aegis_agent_platform.Storage.Outbox.{
  is_candidate, Candidate, is_picked, lease_row, lease_rows, holds_outbox, publish_row, fail_row,
  bury_row,
}

leased_not_candidate :
    (tenant : Name) (destination : Option Name) (owner : Name) (expires_at later : Instant)
    (key : ℕ × ℕ) (row : OutboxRow)
    → later < expires_at
    → is_candidate tenant destination later key (lease_row owner expires_at row) ≡ false
unfolding is_candidate
leased_not_candidate tenant destination owner expires_at later key row h = ground (arith, h)

-- No message that a claim of the outbox picked is a candidate of another one before the lease
-- expires, whoever claims it and for which destination.
pub lease_rows-exclusive :
    (tenant other : Name) (destination : Option Name) (picked : List Candidate) (owner : Name)
    (expires_at later : Instant) (rows : Dict (ℕ × ℕ) OutboxRow)
    → later < expires_at
    → All
        (λ p.
          is_picked tenant picked p.0 ≡ true → is_candidate other destination later p.0 p.1 ≡ false)
        (lease_rows tenant picked owner expires_at rows)
lease_rows-exclusive tenant other destination picked owner expires_at later [] h = tt
lease_rows-exclusive tenant other destination picked owner expires_at later ((key, row) ∷ rows) h =
    (
      λ mine. rw mine (leased_not_candidate other destination owner expires_at later key row h),
      lease_rows-exclusive tenant other destination picked owner expires_at later rows h,
    )

-- The ways to settle a message.
pub data Outcome : Type 0 where
  publishing : Instant → Outcome
  failing : Instant → String → Outcome
  burying : String → Outcome

abbrev pub settled_row : Outcome → OutboxRow → OutboxRow
settled_row (publishing at) = publish_row at
settled_row (failing retry_at code) = fail_row retry_at code
settled_row (burying code) = bury_row code

settled_is_free :
    (o : Outcome) (owner : Name) (expires_at : Instant) (row : OutboxRow)
    → holds_outbox owner expires_at (settled_row o row) ≡ false
unfolding holds_outbox
settled_is_free (publishing at) owner expires_at row = ground arith
settled_is_free (failing retry_at code) owner expires_at row = ground arith
settled_is_free (burying code) owner expires_at row = ground arith

-- A message is settled once: after the statement of one outcome has returned, that of any outcome
-- raises a ConcurrencyError and writes nothing, for the same lease and for every other one.
pub update_outbox-once :
    (key : ℕ × ℕ) (owner owner' : Name) (expires_at expires_at' : Instant) (o o' : Outcome)
    (s s' : Database)
    → update_outbox key (holds_outbox owner expires_at) (settled_row o) (concurrency_error 1 0) s
      ≡ (ok tt, s')
    → update_outbox key
        (holds_outbox owner' expires_at')
        (settled_row o')
        (concurrency_error 1 0)
        s'
      ≡ (err (concurrency_error 1 0), s')
unfolding update_outbox
update_outbox-once key owner owner' expires_at expires_at' o o' s s' h =
    elim (Option-cases (lookup key s.outbox_messages)) [
      | inl missing ↦ absurd (ground (arith, h, missing))
      | inr (row, found) ↦ elim (Bool-cases (holds_outbox owner expires_at row)) [
        | inr other ↦ absurd (ground (arith, h, found, other))
        | inl mine ↦
            let e : record s { outbox_messages = insert key (settled_row o row) s.outbox_messages }
                ≡ s' =
              ground (arith, h, found, mine) in
            rw (← e) (
              ground (
                arith,
                lookup-insert_self key (settled_row o row) s.outbox_messages,
                settled_is_free o owner' expires_at' row,
              ))
      ]
    ]
