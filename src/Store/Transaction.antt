-- ===== src/Store/Transaction.antt =====
-- `transaction` of src/store.rs: what it leaves in the table, whichever of its steps fails.
use aperip_nomos.Prelude.{◌≡◌, ◌⊎◌, inl, inr, List, some, none, arith}
use aperip_nomos.Prelude.Result.{Result, Result-cases, ok}
use aperip_nomos.Text.{Text}
use aperip_nomos.Sql.Reading.{Row}
use aperip_nomos.Database.{Crates, CommandOutput, RnmdbLaws, begin_sql, commit_sql}
use aperip_nomos.Storage.{StorageError, execute}
use aperip_nomos.Store.Core.{transaction, or_rollback}

module _ (x : Crates) (laws : RnmdbLaws x.db) (s : x.db.Session) (statement : Text) where
  open x use {db}
  open laws use {table, pending}

  -- inside a transaction the statement turns the pending rows `t` into `after`
  abbrev pub Turns : List Row → List Row → Type 0
  Turns t after =
      (w : db.World)
      → pending w ≡ some t
      → (table (db.execute s statement w).1 ≡ table w)
        × ((o : CommandOutput)
            → (db.execute s statement w).0 ≡ ok o
            → pending (db.execute s statement w).1 ≡ some after)

  module _ (w : db.World) (after : List Row) (closed : pending w ≡ none)
      (turns : Turns (table w) after) where
    -- the outcomes of a transaction
    pub record Transacted (r : Result (StorageError db) (Unit {0}) × db.World) : Type 0 where
      pub done : r.0 ≡ ok tt → (table r.1 ≡ after) × (pending r.1 ≡ none)
      pub either : (table r.1 ≡ table w) ⊎ (table r.1 ≡ after)

    abbrev w₁ : db.World
    w₁ = (db.execute s begin_sql w).1

    abbrev w₂ : db.World
    w₂ = (db.execute s statement w₁).1

    abbrev w₃ : db.World
    w₃ = (db.execute s commit_sql w₂).1

    -- If no transaction is open and the statement turns the pending rows into `after`, then a
    -- transaction that succeeds has committed `after` and is closed, and one that fails leaves the
    -- table as it was or as `after`.
    pub transaction-Transacted : Transacted (transaction x s statement w)
    unfolding transaction or_rollback execute
    transaction-Transacted = elim (Result-cases (db.execute s begin_sql w).0) [
      | inr (e, failed) ↦ ground (arith, laws.begin s w closed)
      | inl (o, begun) ↦
          let kept = (laws.begin s w closed).0 in
          let opened = (laws.begin s w closed).1 o begun in
          let step = turns w₁ (opened) in
          elim (Result-cases (db.execute s statement w₁).0) [
            | inr (e, failed) ↦ ground (arith, laws.rollback s w₂)
            | inl (o', ran) ↦
                let waiting = step.1 o' ran in
                let end = laws.commit s w₂ after waiting in
                elim (Result-cases (db.execute s commit_sql w₂).0) [
                  | inr (e, failed) ↦ ground (arith, laws.rollback s w₃)
                  | inl (o'', committed) ↦ ground (arith, end.1 o'' committed)
                ]
          ]
    ]
