-- ===== src/Ledger/Calls.antt =====
-- The calls of the ledger's clients, one after another: each is one transaction. The method
-- `complete` has two, and other calls may come between them: it picks the final state by a row that
-- it reads first, and the call stands for its second transaction.
pub mod Effects
pub mod Validity
pub mod Finality
use linux_ai_native_system.Prelude.{ℕ, Bool, true, false, Text, Option, none, some, List, [], ◌∷◌}
use linux_ai_native_system.Ledger.Contracts.{
  ItemOutcome, Task, Database, Result, ok, raised, result_or, ◌>>=◌,
}
use linux_ai_native_system.Ledger.Values.{Host}
use linux_ai_native_system.Ledger.Tasks
use linux_ai_native_system.Ledger.Rows.{complete_target}
use linux_ai_native_system.Ledger.Startup

-- The methods that change the database, with their arguments; `complete` with the row that its
-- first transaction read, at whatever time.
pub data Call : Type 0 where
  create : Text → Text → Option ℕ → Bool → Call
  start awaiting_approval approval_received interrupt : Text → Call
  request_continue claim_continue request_cancel cancelled fail : Text → Call
  complete : Task → Text → Call
  record_item add_reference : Text → ItemOutcome → Text → Option Text → Text → Text → Call
  save_checkpoint : Text → Option Text → ℕ → Call
  recover_after_restart : Call
  purge_expired : ℕ → Call

-- A call at a reading of the clock.
unfoldable pub run_call : Host → ℕ → Call → Database → Result Database
run_call host now (create id activity total resumable) db =
    Tasks.create host id activity total resumable now db
run_call host now (start id) db = Tasks.start id now db
run_call host now (awaiting_approval id) db = Tasks.awaiting_approval id now db
run_call host now (approval_received id) db = Tasks.approval_received id now db
run_call host now (interrupt id) db = Tasks.interrupt id now db
run_call host now (request_continue id) db = Tasks.request_continue id now db
run_call host now (claim_continue id) db = Tasks.claim_continue id now db >>= λ r. ok r.1
run_call host now (request_cancel id) db = Tasks.request_cancel id now db
run_call host now (cancelled id) db = Tasks.cancelled id now db
run_call host now (complete read id) db = Tasks.complete_as (complete_target read) id now db
run_call host now (fail id) db = Tasks.fail id now db
run_call host now (record_item id outcome locator name kind ref) db =
    Tasks.record_item host id outcome locator name kind ref now db
run_call host now (add_reference id outcome locator name kind ref) db =
    Tasks.add_reference host id outcome locator name kind ref now db
run_call host now (save_checkpoint id encoded version) db =
    Tasks.save_checkpoint id encoded version now db
run_call host now recover_after_restart db = ok (Startup.recover_after_restart now db).0
run_call host now (purge_expired cutoff) db = ok (Startup.purge_expired cutoff db).0

-- A call that raises leaves the database as it was.
abbrev pub after : Host → ℕ → Call → Database → Database
after host now c db = result_or (run_call host now c db) db

unfoldable pub run : Host → List (ℕ × Call) → Database → Database
run host [] db = db
run host ((now, c) ∷ cs) db = run host cs (after host now c db)

abbrev pub empty : Database
empty = record { tasks = []; events = []; references = [] }
