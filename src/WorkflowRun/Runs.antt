-- ===== src/WorkflowRun/Runs.antt =====
-- The runs and the lease of src/workflow_run.rs. Each function is one transaction, at the time `now`.
use lark_utils_exp.Prelude.{
  ℕ, suc, ◌+◌, ◌∷◌, Bool, true, false, ◌&&◌, Option, none, some, any, leb, ◌==◌, if◌then◌else◌,
}
use lark_utils_exp.Text.{Text, text}
use lark_utils_exp.Json.{Value}
use lark_utils_exp.WorkflowRun.Sql.{update_where}
use lark_utils_exp.WorkflowRun.Tables.{
  Status, running, succeeded, partial_failed, failed, WorkflowRunRecord, WorkflowStepRecord,
  Database, seconds, workflow_lease_seconds, empty_object, truncate_error,
}

abbrev pub is_running : Status → Bool
is_running running = true
is_running _ = false

abbrev pub opt_eq : Option ℕ → ℕ → Bool
opt_eq none n = false
opt_eq (some m) n = m == n

abbrev pub has_run_id : ℕ → WorkflowRunRecord → Bool
has_run_id id r = r.workflow_run_id == id

abbrev pub is_running_step_of : ℕ → WorkflowStepRecord → Bool
is_running_step_of id s = (s.workflow_run_id == id) && is_running s.status

-- The step is closed as failed.
abbrev pub fail_step : ℕ → Option Text → WorkflowStepRecord → WorkflowStepRecord
fail_step now error s = record s { status = failed; finished_at = some now; error_message = error }

abbrev pub new_run : ℕ → ℕ → Text → Option ℕ → Text → Option Text → WorkflowRunRecord
new_run now id kind scope trigger request = record {
  workflow_run_id = id;
  workflow_kind = kind;
  scope_activity_period_id = scope;
  trigger_source = trigger;
  status = running;
  started_at = now;
  heartbeat_at = now;
  finished_at = none;
  summary = empty_object;
  error_code = none;
  error_message = none;
  request_id = request;
}

module _ (now : ℕ) where
  -- WorkflowRunRepository::start_run
  unfoldable pub start_run : Text → Option ℕ → Text → Option Text → Database → ℕ × Database
  start_run kind scope trigger request db = (
    db.next_run,
    record db {
      runs = new_run now db.next_run kind scope trigger request ∷ db.runs;
      next_run = suc db.next_run;
    },
  )

  -- WorkflowRunRepository::heartbeat_run: the lease is renewed even where the run has ended.
  unfoldable pub heartbeat_run : ℕ → Database → Bool × Database
  heartbeat_run id db =
      if opt_eq db.lease.workflow_run_id id
      then (
        any (λ r. has_run_id id r && is_running r.status) db.runs,
        record db {
          lease = record db.lease { lease_until = now + seconds workflow_lease_seconds };
          runs =
              update_where (λ r. has_run_id id r && is_running r.status)
                (λ r. record r { heartbeat_at = now }) db.runs;
        },
      )
      else (false, db)

  -- WorkflowRunRepository::try_acquire_run_lease
  unfoldable pub try_acquire_run_lease : ℕ → Database → Bool × Database
  try_acquire_run_lease id db =
      if leb db.lease.lease_until now
      then (
        true,
        record db {
          lease = record {
            workflow_run_id = some id;
            lease_until = now + seconds workflow_lease_seconds;
          };
        },
      )
      else (false, db)

  -- WorkflowRunRepository::release_run_lease
  unfoldable pub release_run_lease : ℕ → Database → Database
  release_run_lease id db =
      if opt_eq db.lease.workflow_run_id id
      then record db { lease = record { workflow_run_id = none; lease_until = now } }
      else db

  abbrev pub update_run : ℕ → (WorkflowRunRecord → WorkflowRunRecord) → Database → Database
  update_run id f db = record db { runs = update_where (has_run_id id) f db.runs }

  -- WorkflowRunRepository::finish_run_success
  unfoldable pub finish_run_success : ℕ → Value → Database → Database
  finish_run_success id summary db =
      update_run id
        (λ r. record r { status = succeeded; finished_at = some now; summary = summary }) db

  -- WorkflowRunRepository::finish_run_partial_failure
  unfoldable pub finish_run_partial_failure : ℕ → Value → Text → Database → Database
  unfolding truncate_error
  finish_run_partial_failure id summary error db =
      update_run id
        (λ r. record r {
          status = partial_failed;
          finished_at = some now;
          summary = summary;
          error_code = some (text "project_partial_failure");
          error_message = some (truncate_error error);
        })
        db

  -- WorkflowRunRepository::finish_run_all_projects_failed
  unfoldable pub finish_run_all_projects_failed : ℕ → Value → Text → Database → Database
  unfolding truncate_error
  finish_run_all_projects_failed id summary error db =
      update_run id
        (λ r. record r {
          status = failed;
          finished_at = some now;
          summary = summary;
          error_code = some (text "all_projects_failed");
          error_message = some (truncate_error error);
        })
        db

  -- WorkflowRunRepository::finish_run_failure
  unfoldable pub finish_run_failure : ℕ → Status → Text → Text → Database → Database
  unfolding truncate_error
  finish_run_failure id status code error db = record db {
    steps =
        update_where (is_running_step_of id) (fail_step now (some (truncate_error error))) db.steps;
    runs =
        update_where (has_run_id id)
          (λ r. record r {
            status = status;
            finished_at = some now;
            error_code = some code;
            error_message = some (truncate_error error);
          })
          db.runs;
  }
