-- ===== src/WorkflowRun/Operations.antt =====
-- The transactions of src/workflow_run.rs as data: what any number of processes do to the
-- database, one after another.
use lark_utils_exp.Prelude.{ℕ, List, [], ◌∷◌, Option}
use lark_utils_exp.Text.{Text}
use lark_utils_exp.Json.{Value}
use lark_utils_exp.WorkflowRun.Tables.{Status, failed, blocked, Database}
use lark_utils_exp.WorkflowRun.Runs.{
  start_run, heartbeat_run, try_acquire_run_lease, release_run_lease, finish_run_success,
  finish_run_partial_failure, finish_run_all_projects_failed, finish_run_failure,
}
use lark_utils_exp.WorkflowRun.Steps.{
  start_step, finish_step_success, finish_step_failure, fail_running_steps_for_activity,
}
use lark_utils_exp.WorkflowRun.Recovery.{reconcile_orphaned_runs_if_idle}
use lark_utils_exp.WorkflowRun.Notices.{
  claim_notification, mark_notification_sent, release_notification, clear_notification,
}

-- The status that `finish_run_failure` is called with.
pub data Failure : Type 0 where
  as_failed as_blocked : Failure

abbrev pub status_of : Failure → Status
status_of as_failed = failed
status_of as_blocked = blocked

pub data Operation : Type 0 where
  starts_run : Text → Option ℕ → Text → Option Text → Operation
  beats acquires releases : ℕ → Operation
  succeeds : ℕ → Value → Operation
  fails_partly fails_wholly : ℕ → Value → Text → Operation
  fails : ℕ → Failure → Text → Text → Operation
  starts_step : ℕ → Option ℕ → Text → Option Text → Operation
  step_succeeds : ℕ → Value → Operation
  step_fails : ℕ → Text → Operation
  steps_fail : ℕ → ℕ → Text → Operation
  recovers : ℕ → Operation
  claims : Text → Text → Text → ℕ → Operation
  marks unreserves clears : Text → Text → Operation

module _ (sha1_hex : Text → Text) where
  unfoldable pub perform_at : ℕ → Operation → Database → Database
  perform_at now (starts_run kind scope trigger request) db =
      (start_run now kind scope trigger request db).1
  perform_at now (beats id) db = (heartbeat_run now id db).1
  perform_at now (acquires id) db = (try_acquire_run_lease now id db).1
  perform_at now (releases id) db = release_run_lease now id db
  perform_at now (succeeds id summary) db = finish_run_success now id summary db
  perform_at now (fails_partly id summary e) db = finish_run_partial_failure now id summary e db
  perform_at now (fails_wholly id summary e) db = finish_run_all_projects_failed now id summary e db
  perform_at now (fails id status code e) db =
      finish_run_failure now id (status_of status) code e db
  perform_at now (starts_step run activity name key) db =
      (start_step now run activity name key db).1
  perform_at now (step_succeeds id summary) db = finish_step_success now id summary db
  perform_at now (step_fails id e) db = finish_step_failure now id e db
  perform_at now (steps_fail run activity e) db =
      (fail_running_steps_for_activity now run activity e db).1
  perform_at now (recovers age) db = (reconcile_orphaned_runs_if_idle now age db).1
  perform_at now (claims category scope payload cooldown) db =
      (claim_notification now sha1_hex category scope payload cooldown db).1
  perform_at now (marks category scope) db = mark_notification_sent now category scope db
  perform_at now (unreserves category scope) db = release_notification now category scope db
  perform_at now (clears category scope) db = clear_notification category scope db

  -- Operations at their times, one after another.
  unfoldable pub replay : List (ℕ × Operation) → Database → Database
  unfolding perform_at
  replay [] db = db
  replay ((now, o) ∷ more) db = replay more (perform_at now o db)
