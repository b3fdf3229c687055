-- ===== src/WorkflowRun/Steps.antt =====
-- The steps of a run (src/workflow_run.rs).
use lark_utils_exp.Prelude.{
  ℕ, suc, ◌∷◌, Bool, false, ◌&&◌, Option, none, some, any, List, [], ◌==◌, if◌then◌else◌, ok, err,
}
use lark_utils_exp.Text.{Text, text, text_eq}
use lark_utils_exp.Json.{Value}
use lark_utils_exp.Error.{message, Fallible}
use lark_utils_exp.WorkflowRun.Sql.{update_where, rows_affected}
use lark_utils_exp.WorkflowRun.Tables.{
  running, succeeded, WorkflowStepRecord, Database, empty_object, truncate_error,
}
use lark_utils_exp.WorkflowRun.Runs.{opt_eq, fail_step, is_running_step_of}

-- `UNIQUE (workflow_run_id, activity_period_id, step_name)`: a missing activity equals no other.
unfoldable pub same_step : ℕ → Option ℕ → Text → WorkflowStepRecord → Bool
same_step run none name s = false
same_step run (some a) name s =
    (s.workflow_run_id == run) && (opt_eq s.activity_period_id a && text_eq s.step_name name)

abbrev pub has_key : Option Text → WorkflowStepRecord → Bool
has_key none s = false
has_key (some k) s = elim s.idempotency_key [ none ↦ false | some j ↦ text_eq j k ]

abbrev pub find_step : (WorkflowStepRecord → Bool) → List WorkflowStepRecord → Option ℕ
find_step p [] = none
find_step p (s ∷ steps) = if p s then some s.workflow_step_id else find_step p steps

abbrev pub restart : ℕ → WorkflowStepRecord → WorkflowStepRecord
restart now s = record s {
  status = running;
  started_at = now;
  finished_at = none;
  summary = empty_object;
  error_message = none;
}

abbrev pub new_step : ℕ → ℕ → ℕ → Option ℕ → Text → Option Text → WorkflowStepRecord
new_step now id run activity name key = record {
  workflow_step_id = id;
  workflow_run_id = run;
  activity_period_id = activity;
  step_name = name;
  status = running;
  idempotency_key = key;
  started_at = now;
  finished_at = none;
  summary = empty_object;
  error_message = none;
}

abbrev pub has_step_id : ℕ → WorkflowStepRecord → Bool
has_step_id id s = s.workflow_step_id == id

module _ (now : ℕ) where
  -- WorkflowRunRepository::start_step; a key that another step has is an error of the database.
  unfoldable pub start_step : ℕ → Option ℕ → Text → Option Text → Database → Fallible ℕ × Database
  unfolding same_step
  start_step run activity name key db = elim (find_step (same_step run activity name) db.steps) [
    | some id ↦ (
      ok id,
      record db { steps = update_where (same_step run activity name) (restart now) db.steps },
    )
    | none ↦
        if any (has_key key) db.steps
        then (err (message (text "uq_workflow_step_idempotency_key")), db)
        else (
          ok db.next_step,
          record db {
            steps = new_step now db.next_step run activity name key ∷ db.steps;
            next_step = suc db.next_step;
          },
        )
  ]

  -- WorkflowRunRepository::finish_step_success
  unfoldable pub finish_step_success : ℕ → Value → Database → Database
  finish_step_success id summary db = record db {
    steps =
        update_where (has_step_id id)
          (λ s. record s { status = succeeded; finished_at = some now; summary = summary })
          db.steps;
  }

  -- WorkflowRunRepository::finish_step_failure
  unfoldable pub finish_step_failure : ℕ → Text → Database → Database
  unfolding truncate_error
  finish_step_failure id error db = record db {
    steps = update_where (has_step_id id) (fail_step now (some (truncate_error error))) db.steps;
  }

  abbrev pub is_running_step_for : ℕ → ℕ → WorkflowStepRecord → Bool
  is_running_step_for run activity s =
      is_running_step_of run s && opt_eq s.activity_period_id activity

  -- WorkflowRunRepository::fail_running_steps_for_activity
  unfoldable pub fail_running_steps_for_activity : ℕ → ℕ → Text → Database → ℕ × Database
  unfolding truncate_error
  fail_running_steps_for_activity run activity error db = (
    rows_affected (is_running_step_for run activity) db.steps,
    record db {
      steps =
          update_where (is_running_step_for run activity)
            (fail_step now (some (truncate_error error))) db.steps;
    },
  )
