-- ===== src/Tests/Runs.antt =====
-- A plan that searches and then tidies, with the user's approval, run by
-- services/execution-orchestrator, and the answer to its request.
use linux_ai_native_system.Prelude.{
  ◌+◌, ℕ, ◌≡◌, refl, Bool, true, false, [], ◌∷◌, ◌++◌, Text, text_eq, text_beq, codes, none, some,
  sorted, strip, strip_left, strip_right, nat_beq, arith,
}
use linux_ai_native_system.Permission.Contracts.{
  JsonValue, CapabilityPolicy, reversible_write, prepare, commit, internal, internal_context,
  is_allowed, rule_for, risk_value,
}
use linux_ai_native_system.Permission.Identifiers.{is_capability_id, is_step_id, is_canonical_uuid}
use linux_ai_native_system.Permission.Gateway.{
  Policies, evaluate, valid_invocation_identity, valid_arguments, source, policy,
}
use linux_ai_native_system.Permission.Registry.{Handler, Ended, begin, dispatch, release}
use linux_ai_native_system.Ledger.Values.{
  validate_uuid, validate_token, validate_label, validate_locator, locator_name,
}
use linux_ai_native_system.Ledger.Rows
use linux_ai_native_system.Ledger.Rows.{new_task, transition, finish, complete_target}
use linux_ai_native_system.Ledger.Tasks
use linux_ai_native_system.Ledger.Tasks.{on_task, task_row}
use linux_ai_native_system.Ledger.Calls.{empty}
use linux_ai_native_system.Orchestrator.Expiring.{purge, evict, put, take}
use linux_ai_native_system.Orchestrator.Expiring.Bounds.{IsValid}
use linux_ai_native_system.Orchestrator.Stores.{put_session, claim_session, valid_key}
use linux_ai_native_system.Orchestrator.Plans.{
  PlanStep, ExecutionPlan, ready, has_duplicates, from_keys, misses_result, policy_error,
  step_error, steps_error, validate,
}
use linux_ai_native_system.Orchestrator.Contracts.{
  OrchestrationState, StepState, SearchOutput, OperationOutput, ApprovalRequest, Output, search,
  operation, prepared, Payload, snapshot, commit_of, OrchestrationResult, ApprovalSession,
}
use linux_ai_native_system.Orchestrator.Errors.{Raised, timeout_error}
use linux_ai_native_system.Orchestrator.World
use linux_ai_native_system.Orchestrator.World.{
  World, Moment, finished, after_ledger, try_ledger, fail_each, invocation, ask,
}
use linux_ai_native_system.Orchestrator.World.Recording.{InLedger}
use linux_ai_native_system.Orchestrator.Endings.{Run, execution}
use linux_ai_native_system.Orchestrator.Steps.{
  trusted_value, ledger_search_results, record_found, found, executed, hold, prepared_step,
  start_step, run_step,
}
use linux_ai_native_system.Orchestrator.Run
use linux_ai_native_system.Orchestrator.Run.{ledger_start, run_steps}
use linux_ai_native_system.Orchestrator.Run.Promises.{
  Reports, execute_follows, execute_recorded, execute_waits,
}
use linux_ai_native_system.Orchestrator.Answers.{
  Response, record_copied, committed, commit_answer, confirm, respond_to_approval,
}
use linux_ai_native_system.Orchestrator.Answers.Replies.{Commits}
use linux_ai_native_system.Orchestrator.Answers.Promises.{respond-Commits, respond_recorded}
use linux_ai_native_system.Tests.Permission.{request, inspect_id, inspect, granted}
use linux_ai_native_system.Tests.Ledger.{host}

abbrev pub tidy_id : Text
tidy_id = codes "files.items.tidy"

-- A policy with a preparation and a commit, which needs the approval.
abbrev pub tidy : CapabilityPolicy
tidy = record {
  capability_id = tidy_id;
  risk = reversible_write;
  plan_approval_required = true;
  allowed_arguments = [];
  required_arguments = [];
  phases =
      record {
        phase = prepare;
        allowed_transports = internal ∷ [];
        required_scopes = [];
        approval_required = false;
      }
      ∷ record {
        phase = commit;
        allowed_transports = internal ∷ [];
        required_scopes = [];
        approval_required = true;
      }
      ∷ [];
  max_concurrency = 1;
  timeout_seconds = 10;
}

abbrev pub both_policies : Policies
both_policies = (inspect_id, inspect) ∷ (tidy_id, tidy) ∷ []

abbrev find_step : PlanStep
find_step = record {
  step_id = codes "step_find";
  operation_id = codes "find";
  capability = inspect_id;
  arguments = (codes "results_from", JsonValue.str (codes "disk")) ∷ [];
  depends_on = [];
  risk = inspect.risk;
  approval_required = false;
}

abbrev tidy_step : PlanStep
tidy_step = record {
  step_id = codes "step_tidy";
  operation_id = codes "tidy";
  capability = tidy_id;
  arguments = [];
  depends_on = codes "step_find" ∷ [];
  risk = reversible_write;
  approval_required = true;
}

abbrev pub plan : ExecutionPlan
plan = record {
  plan_id = request;
  intent_id = request;
  state = ready;
  steps = find_step ∷ tidy_step ∷ [];
  required_capabilities = inspect_id ∷ tidy_id ∷ [];
  missing_capabilities = [];
  approval_required = true;
  clarification_question = none;
  warnings = [];
}

abbrev files : SearchOutput
files = record {
  collection_id = codes "collection-1";
  result_count = 1;
  results = record { path = codes "/a.txt"; name = codes "a.txt" } ∷ [];
  warnings = [];
  mode = codes "metadata";
  criteria = codes "a";
  total_matches = some 1;
  total_is_exact = true;
  sort_by = codes "name_asc";
}

abbrev finder : Handler (Payload ℕ) (Output ℕ) Raised
finder inv = Ended.returned (search files)

abbrev asking : ApprovalRequest
asking = record {
  approval_request_id = codes "approval-1";
  plan_id = request;
  step_id = codes "step_tidy";
  action = codes "tidy";
  destination = codes "/home/u";
  item_count = 1;
  total_bytes = 10;
  item_names = codes "a.txt" ∷ [];
  expires_in_seconds = 300;
}

abbrev tidied : OperationOutput
tidied = record { action = codes "tidy"; item_count = 1; details = [] }

-- It prepares the operation 7, and commits.
abbrev tidier : Handler (Payload ℕ) (Output ℕ) Raised
tidier inv = elim inv.trusted_payload [
  | some (snapshot s) ↦
      Ended.returned (prepared (record { approval_request = asking; commit_payload = 7 }))
  | some (commit_of kept) ↦ Ended.returned (operation tidied)
  | none ↦ Ended.raised timeout_error
]

abbrev world : World ℕ
world = record {
  registry = record {
    handlers = (inspect_id, finder) ∷ (tidy_id, tidier) ∷ [];
    limits =
        (inspect_id, record { initial = 2; value = 2 })
        ∷ (tidy_id, record { initial = 1; value = 1 })
        ∷ [];
  };
  sessions = record { capacity = 2; ttl = 300; entries = [] };
  ledger = some empty;
  context = record { active_collection_id = none; last_destination = none };
}

abbrev space_test : ℕ → Bool
space_test c = nat_beq c 32

abbrev run : Run
run = record {
  host = host;
  is_space = space_test;
  policies = both_policies;
  transport = internal_context;
  run_id = request;
  plan = plan;
}

abbrev moment : ℕ → Moment
moment i = record {
  meanwhile = λ db. db;
  now = i;
  monotonic = i;
  stored_at = i + 1;
  reported = none;
  scopes = granted;
  request_id = request;
  reference_id = λ k. codes "reference-1";
}

abbrev waiting : OrchestrationResult ℕ
waiting = record {
  run_id = request;
  plan_id = request;
  state = OrchestrationState.awaiting_approval;
  steps =
      execution find_step StepState.completed (some (search files)) none
      ∷ execution tidy_step StepState.awaiting_approval none none
      ∷ [];
  pending_approval_step_ids = codes "step_tidy" ∷ [];
  active_collection_id = some (codes "collection-1");
  diagnostics = [];
  approval_request = some asking;
}

abbrev after_run : World ℕ
after_run = (Run.execute is_canonical_uuid run moment world).0

passes : validate is_canonical_uuid both_policies plan ≡ none
unfolding validate has_duplicates from_keys steps_error step_error policy_error misses_result policy
    risk_value rule_for text_beq is_canonical_uuid
passes = refl

runs : Run.execute is_canonical_uuid run moment world ≡ (after_run, finished waiting)
unfolding Run.execute validate has_duplicates from_keys steps_error step_error policy_error
    misses_result policy risk_value rule_for text_beq is_canonical_uuid ledger_start run_steps
    run_step start_step executed found record_found trusted_value strip strip_left strip_right
    ledger_search_results prepared_step hold after_ledger try_ledger fail_each invocation ask
    dispatch begin release evaluate valid_invocation_identity is_capability_id is_step_id source
    valid_arguments is_allowed sorted put_session put purge evict Tasks.create Tasks.start
    Tasks.record_item Tasks.raise_if_cancelled Tasks.awaiting_approval task_row on_task
    validate_uuid validate_token validate_label validate_locator locator_name new_task transition
    Rows.record_item
runs = refl

execute_follows_example :
    Reports is_canonical_uuid run moment world (Run.execute is_canonical_uuid run moment world)
execute_follows_example = execute_follows is_canonical_uuid run moment world passes

execute_recorded_example : InLedger request OrchestrationState.awaiting_approval after_run.ledger
execute_recorded_example =
    execute_recorded is_canonical_uuid run moment world after_run waiting runs

no_sessions-IsValid : IsValid world.sessions
no_sessions-IsValid = record { bounded = omega arith; keys = tt }

execute_waits_example :
    (s : ApprovalSession ℕ) × (some asking ≡ some s.request)
    × ((take 200 s.request.approval_request_id after_run.sessions).1 ≡ some s)
    × (s.run_id ≡ request)
    × (waiting.steps ≡ s.prior_steps ++ execution s.step StepState.awaiting_approval none none ∷ [])
execute_waits_example =
    execute_waits is_canonical_uuid run moment world after_run waiting 200 runs refl
      no_sessions-IsValid (omega arith) (omega arith)

abbrev response : Bool → Response
response confirmed = record {
  host = host;
  is_space = space_test;
  policies = both_policies;
  transport = internal_context;
  confirmed = confirmed;
}

abbrev tidied_result : OrchestrationResult ℕ
tidied_result = record {
  run_id = request;
  plan_id = request;
  state = OrchestrationState.completed;
  steps =
      execution find_step StepState.completed (some (search files)) none
      ∷ execution tidy_step StepState.completed (some (operation tidied)) none
      ∷ [];
  pending_approval_step_ids = [];
  active_collection_id = some (codes "collection-1");
  diagnostics = [];
  approval_request = none;
}

-- The answer to what a run has left waiting.
abbrev answer : Bool → World ℕ × World.Ended ℕ
answer confirmed =
    respond_to_approval (response confirmed) (moment 9) (codes "approval-1") after_run

answers : answer true ≡ ((answer true).0, finished tidied_result)
unfolding Run.execute validate has_duplicates from_keys steps_error step_error policy_error
    misses_result policy risk_value rule_for text_beq is_canonical_uuid ledger_start run_steps
    run_step start_step executed found record_found trusted_value strip strip_left strip_right
    ledger_search_results prepared_step hold after_ledger try_ledger fail_each invocation ask
    dispatch begin release evaluate valid_invocation_identity is_capability_id is_step_id source
    valid_arguments is_allowed sorted put_session put purge evict Tasks.create Tasks.start
    Tasks.record_item Tasks.raise_if_cancelled Tasks.awaiting_approval task_row on_task
    validate_uuid validate_token validate_label validate_locator locator_name new_task transition
    Rows.record_item respond_to_approval claim_session valid_key take confirm
    Tasks.approval_received commit_answer committed record_copied Tasks.complete Tasks.complete_as
    finish complete_target
answers = refl

respond-Commits_example :
    (s : ApprovalSession ℕ) × ((take 9 (codes "approval-1") after_run.sessions).1 ≡ some s)
    × Commits (response true) (moment 9) s after_run tidied_result
respond-Commits_example =
    respond-Commits (response true) (moment 9) (codes "approval-1") after_run (answer true).0
      tidied_result answers refl

respond_recorded_example : InLedger request OrchestrationState.completed (answer true).0.ledger
respond_recorded_example =
    respond_recorded (response true) (moment 9) (codes "approval-1") after_run (answer true).0
      tidied_result answers
