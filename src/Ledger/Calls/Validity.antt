-- ===== src/Ledger/Calls/Validity.antt =====
-- Every sequence of calls keeps the rows valid.
use linux_ai_native_system.Prelude.{
  ℕ, ◌≡◌, subst, Text, text_eq, text_beq, some, List, [], ◌∷◌, All, arith, lookup, assign,
  lookup-assign, DistinctKeys, assign-DistinctKeys, Option-cases, Bool-cases, inl, inr, Dict,
}
use linux_ai_native_system.Ledger.Contracts.{Task, Database, Result-cases}
use linux_ai_native_system.Ledger.Values.{Host}
use linux_ai_native_system.Ledger.Rows.Invariant.{IsValid, new_task-IsValid, recover-IsValid}
use linux_ai_native_system.Ledger.Rows.Steps.{RowStep-IsValid}
use linux_ai_native_system.Ledger.Startup.{is_abandoned, recover_row}
use linux_ai_native_system.Ledger.Startup.Passes.{
  recover_some, recover_none, recover-DistinctKeys, lookup-purge, lookup-purge_none,
  purge-DistinctKeys,
}
use linux_ai_native_system.Ledger.Calls.{Call, run_call, after, run, empty}
use linux_ai_native_system.Ledger.Calls.Effects.{
  Effect, touched, inserted, recovered, purged, IsEncoded, run_call-Effect,
}

-- Each row is valid, and no task has two rows.
pub record AllValid (tasks : Dict Text Task) : Type 0 where
  pub rows : (id : Text) (t : Task) → lookup id tasks ≡ some t → IsValid t
  pub keys : DistinctKeys tasks

pub assign-AllValid :
    (id : Text) (t : Task) (tasks : Dict Text Task)
    → AllValid tasks
    → IsValid t
    → AllValid (assign id t tasks)
assign-AllValid id t tasks v h = record {
  rows = λ j u e. elim (Bool-cases (text_beq id j)) [
    | inl same ↦ subst IsValid (ground (arith, lookup-assign id j t tasks)) h
    | inr other ↦ v.rows j u (ground (arith, lookup-assign id j t tasks))
  ];
  keys = assign-DistinctKeys id t tasks v.keys;
}

recover_row-IsValid : (now : ℕ) (t : Task) → IsValid t → IsValid (recover_row now t)
unfolding recover_row
recover_row-IsValid now t v = elim (Bool-cases (is_abandoned t)) [
  | inl yes' ↦ rw yes' (recover-IsValid now t v yes')
  | inr no' ↦ rw no' v
]

-- A step on one row, an insertion, a recovery and a purge keep the rows valid.
Effect-AllValid :
    (now : ℕ) (c : Call) (db db' : Database)
    → AllValid db.tasks
    → Effect now c db db'
    → AllValid db'.tasks
Effect-AllValid now c db db' v (touched id t t' l step s) =
    rw s (assign-AllValid id t' db.tasks v (RowStep-IsValid now t t' step (v.rows id t l)))
Effect-AllValid now c db db' v (inserted id activity total resumable l s) =
    rw s (assign-AllValid id _ db.tasks v (new_task-IsValid activity total resumable now))
Effect-AllValid now c db db' v (recovered s) = rw s (record {
  rows = λ id u e. elim (Option-cases (lookup id db.tasks)) [
    | inl absent ↦ ground (arith, recover_none now db id absent)
    | inr (t, l) ↦
        subst IsValid (ground (arith, recover_some now db id t l))
          (recover_row-IsValid now t (v.rows id t l))
  ];
  keys = recover-DistinctKeys now db v.keys;
})
Effect-AllValid now c db db' v (purged cutoff asked s) = rw s (record {
  rows = λ id u e. elim (Option-cases (lookup id db.tasks)) [
    | inl absent ↦ ground (arith, lookup-purge_none cutoff db v.keys id absent)
    | inr (t, l) ↦
        subst IsValid (ground (arith, lookup-purge cutoff db v.keys id t l)) (v.rows id t l)
  ];
  keys = purge-DistinctKeys cutoff db v.keys;
})

pub after-AllValid :
    (host : Host) (now : ℕ) (c : Call) (db : Database)
    → IsEncoded c
    → AllValid db.tasks
    → AllValid (after host now c db).tasks
after-AllValid host now c db e v = elim (Result-cases (run_call host now c db)) [
  | inl (db', h) ↦ rw h (Effect-AllValid now c db db' v (run_call-Effect host now c db db' e h))
  | inr (x, h) ↦ rw h v
]

-- Whatever transactions the calls of a ledger's clients make, in whatever order and at whatever
-- times, and whichever of them raise, no task gets two rows, and every row satisfies the invariant: its counts add up and stay within the
-- total, it is finished exactly when its state is terminal, requests stand only in the states that
-- take them, and an interrupted task has a checkpoint to resume from.
pub run-AllValid :
    (host : Host) (cs : List (ℕ × Call)) (db : Database)
    → All (λ c. IsEncoded c.1) cs
    → AllValid db.tasks
    → AllValid (run host cs db).tasks
unfolding run
run-AllValid host [] db e v = v
run-AllValid host ((now, c) ∷ cs) db e v =
    run-AllValid host cs (after host now c db) e.1 (after-AllValid host now c db e.0 v)

-- An empty ledger is valid.
pub empty-AllValid : AllValid (empty.tasks)
empty-AllValid = record { rows = λ id t h. cc; keys = tt }
