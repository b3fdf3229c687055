-- ===== src/Tests/Workflows.antt =====
-- Runs of the workflows on concrete input.
use lark_utils_exp.Prelude.{
  ℕ, suc, ◌+◌, ◌≤◌, ◌<◌, [], ◌∷◌, true, none, some, All, ok, err, length, ◌≡◌, ◌≢◌, refl, arith,
  ◌⊎◌,
}
use lark_utils_exp.Text.{text}
use lark_utils_exp.Json.{Value}
use lark_utils_exp.Error.{message}
use lark_utils_exp.WorkflowRun.Tables.{
  WorkflowRunRecord, blocked, empty_database, empty_object, seconds, workflow_lease_seconds,
}
use lark_utils_exp.WorkflowRun.Runs.{start_run, try_acquire_run_lease}
use lark_utils_exp.Workflow.Kinds.{night}
use lark_utils_exp.Workflow.Results.{WorkflowRunResult}
use lark_utils_exp.Workflow.Outcomes.{no_result}
use lark_utils_exp.Workflow.World.{World, fine, busy, failure, Environment, Attempted, call}
use lark_utils_exp.Workflow.Tasks.{Task, finished, lease_lost, with_run_heartbeat}
use lark_utils_exp.Workflow.Notices.{Messaging}
use lark_utils_exp.Workflow.Exclusive.{begin_exclusive_run, run_workflow_exclusive}
use lark_utils_exp.Workflow.Endings.{HasStatus, begin-holds, busy-blocks}
use lark_utils_exp.Workflow.Closing.{final_status, run-closes}
use lark_utils_exp.Workflow.Beats.{heartbeat-stops}
use lark_utils_exp.Workflow.Retry.{Timed, in_time, Report, run_activity_workflow_with_retry}
use lark_utils_exp.Workflow.Budget.{IsRetryable, sum, retry-budget}
use lark_utils_exp.Tests.Data.{host}
use lark_utils_exp.Tests.Ledger.{run_of, step_of}
use lark_utils_exp.Tests.Outcomes.{accounts, scope_of}

-- No call fails, each is a second after the one before, and the heartbeat is due at each poll.
abbrev pub environment : Environment
environment = record {
  fault = λ n. fine;
  pause = λ n. 1000000;
  database_error = message (text "pool closed");
  is_beat_due = λ w. true;
}

abbrev messaging : Messaging
messaging = record {
  sha1_hex = λ t. t;
  list_accounts = λ w. ok accounts;
  resolved_client = λ w project. ok tt;
  send = λ w notice. ok tt;
  beijing_timestamp = λ w. text "2026:01:01 00:00:00";
}

abbrev world : World
world = record { now = 0; calls = 0; db = empty_database; sent = [] }

-- Run 7 holds the lease, and is at its first step.
abbrev held_world : World
held_world = record world {
  db = record {
    runs = run_of 7 ∷ [];
    next_run = 8;
    steps = step_of 1 7 ∷ [];
    next_step = 2;
    lease = record { workflow_run_id = some 7; lease_until = 50000000 };
    guards = [];
  };
}

abbrev summary_of : WorkflowRunResult → Value
summary_of r = empty_object

abbrev operation : ℕ → Task WorkflowRunResult
operation id = finished (ok (no_result id night))

begin-holds_example :
    ((begin_exclusive_run host environment
        (text "night")
        none
        (text "api")
        none
        world).1.db.lease.workflow_run_id
      ≡ some 1)
    × ((begin_exclusive_run host environment
          (text "night")
          none
          (text "api")
          none
          world).1.db.lease.lease_until
        ≡ (begin_exclusive_run host environment (text "night") none (text "api") none world).1.now
          + seconds workflow_lease_seconds)
unfolding begin_exclusive_run call start_run try_acquire_run_lease
begin-holds_example =
    begin-holds host environment (text "night") none (text "api") none world 1 refl

abbrev refused : Attempted WorkflowRunResult × World
refused =
    run_workflow_exclusive host environment messaging summary_of night none (text "api") none
      operation held_world

busy-blocks_example :
    (refused.0 ≡ err busy)
    × (refused.1.sent ≡ [])
    × (run : WorkflowRunRecord) × (run.workflow_run_id ≡ 8)
    × (run.status ≡ blocked)
    × (run.error_code ≡ some (text "workflow_busy"))
    × (refused.1.db ≡ record held_world.db { runs = run ∷ held_world.db.runs; next_run = 9 })
busy-blocks_example =
    busy-blocks host environment messaging (λ n. refl) summary_of night none (text "api") none
      operation held_world (omega arith) (omega arith, tt) (omega arith, tt)

abbrev end : Attempted WorkflowRunResult × World
end =
    run_workflow_exclusive host environment messaging summary_of night none (text "api") none
      operation world

run-closes_example :
    HasStatus 1 (final_status end.0) end.1.db.runs × (end.1.db.lease.workflow_run_id ≢ some 1)
unfolding begin_exclusive_run call start_run try_acquire_run_lease run_workflow_exclusive
run-closes_example =
    run-closes host environment messaging (λ n. refl) summary_of night none (text "api") none
      operation world 1 refl tt

heartbeat-stops_example :
    ((with_run_heartbeat host environment 1 (operation 1) held_world).0
      ≡ err (failure (lease_lost host environment)))
    × ((with_run_heartbeat host environment 1 (operation 1) held_world).1.db ≡ held_world.db)
    × ((with_run_heartbeat host environment 1 (operation 1) held_world).1.sent ≡ [])
heartbeat-stops_example =
    heartbeat-stops host environment (λ n. refl) 1 (operation 1) held_world refl (λ e. cc)

-- Each attempt takes a second and fails; the error may be retried.
abbrev failing : ℕ → ℕ → World → Timed
failing attempt time w =
    in_time (record w { now = w.now + 1000000 }) (err (failure (message (text "timeout"))))

abbrev report : Report
report =
    run_activity_workflow_with_retry host environment failing (λ n. 0) 1 (scope_of 10) 3600 3 15
      world

retry-budget_example :
    (report.tried ≤ 3)
    × (length report.retried ≤ report.tried)
    × (report.tried ≤ suc (length report.retried))
    × All (IsRetryable host) report.retried
    × (length report.slept ≡ length report.retried)
    × All (λ delay. delay ≤ 300) report.slept
    × ((sum report.slept ≡ 0) ⊎ (sum report.slept < 3600))
retry-budget_example =
    retry-budget host environment failing (λ n. 0) 1 (scope_of 10) 3600 3 15 world
      (λ attempt time w. omega arith)
