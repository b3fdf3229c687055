-- ===== src/Workflow/Exclusive.antt =====
-- The runs of src/workflow.rs: one at a time, under the lease.
use lark_utils_exp.Prelude.{
  ℕ, List, ◌++◌, Bool, true, false, Option, none, some, ok, err, panic, unfinished, if◌then◌else◌,
  is_nil, map,
}
use lark_utils_exp.Text.{Text, text, join}
use lark_utils_exp.Text.Decimal.{decimal}
use lark_utils_exp.Json.{Value}
use lark_utils_exp.Host.{Host}
use lark_utils_exp.Error.{context}
use lark_utils_exp.Error.Display.{display}
use lark_utils_exp.WorkflowRun.Tables.{failed, blocked}
use lark_utils_exp.WorkflowRun.Runs.{
  start_run, try_acquire_run_lease, release_run_lease, finish_run_success,
  finish_run_partial_failure, finish_run_all_projects_failed, finish_run_failure,
}
use lark_utils_exp.Workflow.Kinds.{WorkflowKind, trigger_type}
use lark_utils_exp.Workflow.Results.{WorkflowRunResult, WorkflowActivityFailure}
use lark_utils_exp.Workflow.World.{
  World, RunError, busy, failure, Attempted, Environment, Action, pure, raise, attempt, call, total,
  silent, ◌>>=◌, ◌>>◌,
}
use lark_utils_exp.Workflow.Tasks.{Task, error_text, tracked_optional_step, with_run_heartbeat}
use lark_utils_exp.Workflow.Notices.{Messaging, send_workflow_error_notices}

-- One entry of `error_summary`
abbrev failure_text : WorkflowActivityFailure → Text
failure_text f =
    text "project_id="
    ++ (decimal f.project_id
        ++ (text " activity_period_id="
            ++ (decimal f.activity_period_id ++ (text ": " ++ f.error))))

unfoldable pub error_summary : List WorkflowActivityFailure → Text
unfolding join decimal
error_summary failures = join (text "；") (map failure_text failures)

-- `anyhow::Error::context` on the error of a run
abbrev pub in_run_context : Text → RunError → RunError
in_run_context c busy = busy
in_run_context c (failure e) = failure (context c e)

-- `Display` of an error: the outermost context
abbrev shown : Host → RunError → Text
shown h busy = text "已有写工作流正在运行，请稍后重试"
shown h (failure e) = display h e

module _ (h : Host) (env : Environment) where
  -- what follows the attempt to take the lease
  abbrev pub after_acquire : ℕ → Attempted Bool → Action ℕ
  after_acquire run_id (ok true) = pure run_id
  after_acquire run_id (ok false) =
      call env (
        silent env
          (λ now. finish_run_failure now run_id blocked (text "workflow_busy") (text "已有写工作流正在运行")))
      >> raise busy
  after_acquire run_id (err e) =
      attempt (
        call env (
          silent env (λ now.
            finish_run_failure now run_id failed (text "lock_failed")
              (text "获取跨实例工作流锁失败：" ++ shown h e))))
      >> raise (in_run_context (text "获取跨实例工作流锁失败") e)
  after_acquire run_id panic = λ w. (panic, w)
  after_acquire run_id unfinished = λ w. (unfinished, w)

  -- fn begin_exclusive_run
  unfoldable pub begin_exclusive_run : Text → Option ℕ → Text → Option Text → Action ℕ
  unfolding call start_run try_acquire_run_lease finish_run_failure display
  begin_exclusive_run kind scope trigger request =
      call env (total env (λ now. start_run now kind scope trigger request)) >>= λ run_id.
      attempt (call env (total env (λ now. try_acquire_run_lease now run_id)))
      >>= after_acquire run_id

  -- the calls that record the end of a run of activities; `to_summary` is the derived serialization
  abbrev pub record_outcome :
      (WorkflowRunResult → Value) → ℕ → Attempted WorkflowRunResult → Action (Unit {0})
  record_outcome to_summary run_id (ok r) =
      if is_nil r.failed_activities
      then call env (silent env (λ now. finish_run_success now run_id (to_summary r)))
      else if is_nil r.processed_activity_period_ids
      then call env (
          silent env (λ now.
            finish_run_all_projects_failed now run_id (to_summary r)
              (error_summary r.failed_activities)))
      else call env (
          silent env (λ now.
            finish_run_partial_failure now run_id (to_summary r)
              (error_summary r.failed_activities)))
  record_outcome to_summary run_id (err e) = call env (
      silent env
        (λ now. finish_run_failure now run_id failed (text "operation_failed") (error_text h e)))
  record_outcome to_summary run_id panic = λ w. (panic, w)
  record_outcome to_summary run_id unfinished = λ w. (unfinished, w)

  abbrev pub release : ℕ → Action (Unit {0})
  release run_id = call env (silent env (λ now. release_run_lease now run_id))

  -- fn finish_serializable_run
  unfoldable pub finish_serializable_run :
      {A : Type 0} → (A → Value) → ℕ → Attempted A → Action (Unit {0})
  unfolding call finish_run_success finish_run_failure
  finish_serializable_run to_summary run_id (ok a) =
      call env (silent env (λ now. finish_run_success now run_id (to_summary a)))
  finish_serializable_run to_summary run_id (err e) = call env (
      silent env
        (λ now. finish_run_failure now run_id failed (text "operation_failed") (error_text h e)))
  finish_serializable_run to_summary run_id panic = λ w. (panic, w)
  finish_serializable_run to_summary run_id unfinished = λ w. (unfinished, w)

  -- The body that five workflows of one step share.
  unfoldable pub run_step :
      {A : Type 0} → (A → Value) → Text → Text → Option ℕ → Text → Option Text → Task A → Action A
  unfolding begin_exclusive_run with_run_heartbeat tracked_optional_step finish_serializable_run
      release_run_lease
  run_step to_summary kind step scope trigger request operation =
      begin_exclusive_run kind scope trigger request >>= λ run_id.
      attempt (
        with_run_heartbeat h env run_id
          (tracked_optional_step h env to_summary run_id scope step operation))
      >>= λ result.
          finish_serializable_run to_summary run_id result >> (release run_id >> λ w. (result, w))

  module _ (m : Messaging) where
    abbrev pub notify : WorkflowKind → Attempted WorkflowRunResult → World → World
    notify kind (err e) w = send_workflow_error_notices h env m kind e w
    notify kind _ w = w

    -- what follows the operation of a run of activities
    abbrev pub conclude :
        (WorkflowRunResult → Value)
        → WorkflowKind
        → ℕ
        → Attempted WorkflowRunResult
        → Action WorkflowRunResult
    conclude to_summary kind run_id outcome =
        record_outcome to_summary run_id outcome
        >> (release run_id >> λ w. (outcome, notify kind outcome w))

    -- fn run_workflow_exclusive, given the operation of the run, `run_workflow_inner`
    unfoldable pub run_workflow_exclusive :
        (WorkflowRunResult → Value)
        → WorkflowKind
        → Option ℕ
        → Text
        → Option Text
        → (ℕ → Task WorkflowRunResult)
        → Action WorkflowRunResult
    unfolding begin_exclusive_run with_run_heartbeat finish_run_success finish_run_partial_failure
        finish_run_all_projects_failed finish_run_failure release_run_lease trigger_type
        send_workflow_error_notices error_summary call
    run_workflow_exclusive to_summary kind scope trigger request operation =
        begin_exclusive_run (trigger_type kind) scope trigger request >>= λ run_id.
        attempt (with_run_heartbeat h env run_id (operation run_id))
        >>= conclude to_summary kind run_id

    -- what a timer makes of the result
    abbrev pub skipped_if_busy : Attempted WorkflowRunResult → Attempted (Option WorkflowRunResult)
    skipped_if_busy (ok r) = ok (some r)
    skipped_if_busy (err busy) = ok none
    skipped_if_busy (err (failure e)) = err (failure e)
    skipped_if_busy panic = panic
    skipped_if_busy unfinished = unfinished

    -- XingtuWorkflowService::try_run_scheduled_workflow; `is_free` is `try_lock` on the write lock
    unfoldable pub try_run_scheduled_workflow :
        (WorkflowRunResult → Value)
        → Bool
        → WorkflowKind
        → (ℕ → Task WorkflowRunResult)
        → Action (Option WorkflowRunResult)
    unfolding run_workflow_exclusive
    try_run_scheduled_workflow to_summary is_free kind operation w =
        let (r, w') =
          run_workflow_exclusive to_summary kind none (text "scheduler") none operation w in
        if is_free then (skipped_if_busy r, w') else (ok none, w)
