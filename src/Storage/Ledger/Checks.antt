-- ===== src/Storage/Ledger/Checks.antt =====
-- event_store/postgres.py: the tests of the appends write nothing.
use aegis_agent_platform.Prelude.{
  ℕ, ◌≡◌, refl, Option, none, some, List, [], ◌∷◌, lookup, pair_eq, inl, inr, Option-cases, arith,
}
use aegis_agent_platform.Domain.Events.{Name, Uuid, EventEnvelope}
use aegis_agent_platform.Storage.{Database, Session}
use aegis_agent_platform.Storage.Ledger.{
  append_fault, validate_append, check_fence, validate_fence, read_duplicate,
}

pub validate_append-still :
    (context : Name) (es : List EventEnvelope) (s : Database) → (validate_append context es s).1 ≡ s
unfolding validate_append
validate_append-still context [] s = refl
validate_append-still context (e ∷ es) s =
    elim (Option-cases (append_fault context e.aggregate_id (e ∷ es))) [
      | inl fine ↦ ground (arith, fine)
      | inr (text, bad) ↦ ground (arith, bad)
    ]

pub check_fence-still :
    (session : Session) (i : ℕ) (context : Name) (work token : Uuid) (generation now : ℕ)
    (s : Database)
    → (check_fence session i context work token generation now s).1 ≡ s
unfolding check_fence
check_fence-still session i context work token generation now s =
    elim (Option-cases (lookup (context, work) s.work_leases)) [
      | inl missing ↦ ground (arith, missing)
      | inr (row, found) ↦ ground (arith, found)
    ]

pub validate_fence-still :
    (session : Session) (i : ℕ) (context : Name) (es : List EventEnvelope) (work token : Uuid)
    (generation : ℕ) (s : Database)
    → (validate_fence session i context es work token generation s).1 ≡ s
validate_fence-still session i context es work token generation s = ground arith

pub read_duplicate-still :
    (session : Session) (i : ℕ) (context : Name) (row : Option ℕ) (s : Database)
    → (read_duplicate session i context row s).1 ≡ s
read_duplicate-still session i context none s = refl
read_duplicate-still session i context (some version) s = refl
