-- ===== src/Lib.antt =====
-- Verification of the core of the AI-native Linux system: the services that decide what a request
-- may do, run it, hold what waits for the user, record what ran, and collect what changed on disk.
--
-- How the parts interact. The intent compiler makes a plan of an intent. A compiled plan waits in
-- the orchestrator's plan store until it is claimed, once. Each of its steps becomes an invocation
-- of a capability. The registry asks the permission gateway for a decision, and calls the
-- capability's handler only if the decision is allow and fewer handlers run than the policy admits.
-- A step that needs the user's approval leaves a session in the approval store, which is claimed,
-- once, with the answer. The task ledger records the states, items and references of each run, and
-- repairs them after a restart. Apart from these, the index scheduler keeps a queue of file events
-- for the indexer. The capabilities that modules provide come from the capability registry, which
-- works out from the manifests, the user's choices and the quarantines which modules are enabled,
-- and the module manager starts a module after those that it depends on.
--
-- The files, and the code that each one models:
--   Prelude                 lists, sets, dicts, texts and sorting as Python has them
--   Permission/Contracts    services/permission-gateway/src/ai_native_permissions/contracts.py
--   Permission/Identifiers, Policy, Scopes, Gateway
--                           gateway.py beside it: the identifier patterns, the checks of a policy,
--                           ScopeGrantStore, and PermissionGateway
--   Permission/Builtin      builtin.py beside it: every policy the system ships
--   Permission/Registry     registry.py beside it: CapabilityExecutionRegistry
--   Ledger                  services/task-ledger/src/ai_native_ledger: the three tables, each method of
--                           TaskLedger as a step on the rows of one task (Rows) and on the database
--                           (Tasks), the views, and the passes at start-up (Startup)
--   Orchestrator            services/execution-orchestrator/src/ai_native_orchestrator: approval.py and
--                           store.py (Expiring, Stores, Destinations), contracts.py (Contracts), and of
--                           orchestrator.py the checks of a plan (Plans), with the plan's type from
--                           services/intent-compiler/src/ai_native_intents/contracts.py, the
--                           exceptions (Errors), execute (World, Endings, Steps, Run), and
--                           respond_to_approval (Answers)
--   Intents                 services/intent-compiler/src/ai_native_intents: of catalog.py the lookup of
--                           operations (Catalog), of validation.py the check of an intent's graph
--                           (Graph), and planner.py (Planner)
--   Scheduler               services/index-scheduler/src/ai_native_scheduler/queue.py
--   Capabilities            services/capability-registry/src/ai_native_capabilities: the tables
--                           (Contracts), CapabilityRegistry.refresh_states (States) with its search
--                           for cycles (Cycles), and the other methods of registry.py (Registry)
--   Modules                 services/module-manager/src/ai_native_module_manager/manager.py: the start of
--                           a module
--   Storage                 services/storage-catalog/src/ai_native_storage/materialize.py: the approval of
--                           copies and their plans
--   Tests                   runs on concrete inputs
--
-- The names of the source are kept. A method that changes an object takes its state and returns the
-- new one; where the source raises, the result is a value that says so. A method that holds a lock,
-- or one SQL transaction, is one step, and theorems about several callers quantify over sequences
-- of steps. TaskLedger.complete has two transactions: among the calls of several clients
-- (Ledger/Calls) only the second is a step, with the row that the first had read.
--
-- Conventions. Times are ticks of a clock, natural numbers, and a clock's reading is an argument; a
-- comparison of a difference of times is written as one of sums. A Python string is the list of its
-- code points. A frozenset is a list that is read by membership and shown sorted. A dict is an
-- association list in insertion order. Fuel stands for the depth of a recursion or the number of
-- passes of a loop that runs over no list: the search for cycles has the number of modules and one,
-- and so has the loop that settles the states, and a theorem shows that neither runs out; for the
-- start of a module a theorem shows that some depth is enough.
--
-- Parameters stand for what the repository does not define: which characters are white space or
-- printable and how a Windows path splits (the record Host of Ledger/Values), what the UUID library
-- accepts, what a path is, the capability source, the handlers (any function, with a return value
-- or an exception), what the manifest at a path says, what a started worker answers, new
-- identifiers and the clock.
--
-- Not modelled: SQL schema set-up, file modes and the encoding of checkpoints as JSON in the
-- ledger; in the orchestrator the audit sink, the clean-up callbacks of modules, and the two
-- handlers that it registers itself, which enter as any handler; in the capability registry the
-- validation of manifests, so that a stored one is taken to validate again; in the module manager
-- the worker's environment and protocol, and the reaping of idle modules; in the intent compiler
-- the checks of arguments and the models that propose intents; the search service, the catalogue of
-- files and the copying itself, the modules, the desktop panel and the laboratory, which are
-- services of their own, most of them around SQL, processes or an external model.
pub mod Prelude
pub mod Permission
pub mod Ledger
pub mod Orchestrator
pub mod Intents
pub mod Scheduler
pub mod Capabilities
pub mod Modules
pub mod Storage
mod Tests
