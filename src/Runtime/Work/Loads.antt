-- ===== src/Runtime/Work/Loads.antt =====
-- runtime/postgres.py: `_load_request` gives the request of the work that it is asked for.
use aegis_agent_platform.Prelude.{
  ℕ, ◌≡◌, ap, Option, none, some, ok, ◌>>=◌, gets, lift, lookup, pair_eq, inl, inr, Option-cases,
  Bool-cases, arith,
}
use aegis_agent_platform.Domain.Events.{Name, Uuid}
use aegis_agent_platform.Domain.Work.Request.{WorkRequest, work_request_is_valid}
use aegis_agent_platform.Storage.{Database, Session, Query, WorkItem, transaction}
use aegis_agent_platform.Runtime.Work.{load_request, loaded_request, checked_request}
use aegis_agent_platform.Runtime.Work.Appends.{Steady, Ends-read}
use aegis_agent_platform.Runtime.Work.Refinement.{Ends-assoc}
use aegis_agent_platform.Storage.Triples.{Ends, Ends-bind, Ends-bind_lift}

-- The request is one of the work and of the tenant.
pub record RequestOf (context : Name) (work : Uuid) (r : WorkRequest) : Type 0 where
  pub same_work : r.work_id ≡ work
  pub same_tenant : r.tenant_id ≡ context

checked_request-same : (r r' : WorkRequest) → checked_request r ≡ ok r' → r' ≡ r
checked_request-same r r' h = elim (Bool-cases (work_request_is_valid r)) [
  | inl valid ↦ ground (arith, h, valid)
  | inr invalid ↦ absurd (ground (arith, h, invalid))
]

loaded_request-RequestOf :
    (session : Session) (i : ℕ) (context : Name) (work : Uuid) (row : Option WorkItem)
    (r : WorkRequest)
    → loaded_request session i context work row ≡ ok r
    → RequestOf context work r
loaded_request-RequestOf session i context work none r h = absurd (ground (arith, h))
loaded_request-RequestOf session i context work (some row) r h =
    elim (Option-cases row.correlation_id) [
      | inl missing ↦ absurd (ground (arith, h, missing))
      | inr (correlation, found) ↦
          let same = checked_request-same _ r (rw found at h) in
          record { same_work = ap (λ x. x.work_id) same; same_tenant = ap (λ x. x.tenant_id) same }
    ]

pub Ends-load_request :
    {A : Type 0} {P Q : Database → Type 0} (weaken : (s : Database) → P s → Q s) (session : Session)
    (steady : Steady P session) (i : ℕ) (context : Name) (work : Uuid) (f : WorkRequest → Query A)
    → ((r : WorkRequest) → r.work_id ≡ work → r.tenant_id ≡ context → Ends P Q (f r))
    → Ends P Q (load_request session i context work >>= f)
unfolding load_request
Ends-load_request weaken session steady i context work f k =
    Ends-assoc (transaction session i (gets (λ s. lookup (context, work) s.work_items)))
      (λ row. lift (loaded_request session i context work row)) f
      (Ends-bind weaken (transaction session i (gets (λ s. lookup (context, work) s.work_items)))
        (λ row. lift (loaded_request session i context work row) >>= f)
        (Ends-read session i (λ s. lookup (context, work) s.work_items) steady)
        (λ row. Ends-bind_lift weaken (loaded_request session i context work row) f (λ r e.
          let loaded = loaded_request-RequestOf session i context work row r e in
          k r loaded.same_work loaded.same_tenant)))
