-- ===== src/Workflow/Retry.antt =====
-- The attempts at one activity's workflow (src/workflow.rs).
use lark_utils_exp.Prelude.{
  ℕ, zero, suc, ◌+◌, ◌-◌, List, [], ◌∷◌, ◌++◌, Bool, ◌&&◌, ok, err, panic, unfinished,
  if◌then◌else◌, leb, ltb, ◌==◌,
}
use lark_utils_exp.Text.{Text, text}
use lark_utils_exp.Text.Decimal.{decimal}
use lark_utils_exp.Host.{Host}
use lark_utils_exp.Error.{message}
use lark_utils_exp.WorkflowRun.Tables.{seconds}
use lark_utils_exp.WorkflowRun.Steps.{fail_running_steps_for_activity}
use lark_utils_exp.Workflow.Settings.{retry_delay_for_attempt}
use lark_utils_exp.Workflow.Errors.{is_retryable_workflow_error}
use lark_utils_exp.Workflow.Results.{WorkflowActivityScope, ActivityWorkflowResult}
use lark_utils_exp.Workflow.World.{World, RunError, failure, Attempted, Environment, call, total}
use lark_utils_exp.Workflow.Tasks.{error_text}
use lark_utils_exp.Workflow.Exclusive.{in_run_context}

-- An attempt under a time limit ends with its result, or is cut off.
pub data Timed : Type 0 where
  in_time : World → Attempted ActivityWorkflowResult → Timed
  timed_out : World → Timed

-- How the attempts went: the result, how many there were, the errors after which there was another,
-- the delays before it in seconds, and the world at the end.
pub record Report : Type 0 where
  pub result : Attempted ActivityWorkflowResult
  pub tried : ℕ
  pub retried : List RunError
  pub slept : List ℕ
  pub world : World

-- One more attempt, whose error is retried after a delay.
abbrev pub again : RunError → ℕ → Report → Report
again e delay r = record r { tried = suc r.tried; retried = e ∷ r.retried; slept = delay ∷ r.slept }

abbrev pub last_attempt : World → Attempted ActivityWorkflowResult → Report
last_attempt w r = record { result = r; tried = 1; retried = []; slept = []; world = w }

module _ (h : Host) (env : Environment) (execute : ℕ → ℕ → World → Timed) (oversleep : ℕ → ℕ)
    (workflow_run_id : ℕ) (scope : WorkflowActivityScope)
    (timeout max_attempts retry_delay : ℕ) where
  abbrev period_text : Text
  period_text = text "活动期次 `" ++ (decimal scope.activity_period_id ++ text "` ")

  abbrev pub timeout_error : RunError
  timeout_error = failure (
      message (
        period_text
        ++ (text "account_id="
            ++ (scope.xingtu_account_id
                ++ (text " 执行超过 " ++ (decimal timeout ++ text " 秒，已取消并继续处理后续项目"))))))

  abbrev pub out_of_budget : RunError
  out_of_budget =
      failure (message (period_text ++ (text "已耗尽 " ++ (decimal timeout ++ text " 秒项目执行预算"))))

  abbrev pub no_time_left : RunError → RunError
  no_time_left e = in_run_context (period_text ++ text "已没有足够的项目执行预算用于自动重试") e

  abbrev pub given_up : ℕ → RunError → RunError
  given_up attempt e =
      in_run_context
        (period_text
          ++ (text "工作流执行失败（尝试 "
              ++ (decimal attempt ++ (text "/" ++ (decimal max_attempts ++ text "）")))))
        e

  -- The steps that an attempt was cut off in are failed; an error of this is only logged.
  abbrev pub cut_off : World → World
  cut_off w =
      (call env
        (total env (λ now.
          fail_running_steps_for_activity now workflow_run_id scope.activity_period_id
            (text "项目工作流执行超时，已取消当前步骤并释放并发槽")))
        w).1

  -- Whether the error of an attempt may be retried.
  abbrev pub is_retried : ℕ → RunError → Bool
  is_retried attempt e = ltb attempt max_attempts && is_retryable_workflow_error (error_text h e)

  -- The time until the deadline, which does not fall below zero.
  abbrev pub remaining : ℕ → World → ℕ
  remaining deadline w = deadline - w.now

  -- A world after a delay in seconds; the sleep may take longer.
  abbrev pub woken : ℕ → ℕ → World → World
  woken attempt delay w = record w { now = w.now + seconds delay + oversleep attempt }

  -- what a failed attempt leads to, given the rest of the attempts
  abbrev pub after_error : ℕ → ℕ → World → RunError → (World → Report) → Report
  after_error deadline attempt w e rest =
      let delay = retry_delay_for_attempt retry_delay attempt in
      if is_retried attempt e
      then (if leb (remaining deadline w) (seconds delay)
          then last_attempt w (err (no_time_left e))
          else again e delay (rest (woken attempt delay w)))
      else last_attempt w (err (given_up attempt e))

  abbrev pub after_attempt : ℕ → ℕ → Timed → (World → Report) → Report
  after_attempt deadline attempt (timed_out w) rest = last_attempt (cut_off w) (err timeout_error)
  after_attempt deadline attempt (in_time w (ok r)) rest = last_attempt w (ok r)
  after_attempt deadline attempt (in_time w (err e)) rest = after_error deadline attempt w e rest
  after_attempt deadline attempt (in_time w panic) rest = last_attempt w panic
  after_attempt deadline attempt (in_time w unfinished) rest = last_attempt w unfinished

  -- the attempts that are left, from a number on
  unfoldable pub attempts_from : ℕ → ℕ → ℕ → World → Report
  unfolding retry_delay_for_attempt is_retryable_workflow_error decimal call
      fail_running_steps_for_activity
  attempts_from deadline zero attempt w = record {
    result = err out_of_budget;
    tried = 0;
    retried = [];
    slept = [];
    world = w;
  }
  attempts_from deadline (suc left) attempt w =
      if remaining deadline w == 0
      then record { result = err out_of_budget; tried = 0; retried = []; slept = []; world = w }
      else after_attempt deadline attempt (execute attempt (remaining deadline w) w)
          (λ w'. attempts_from deadline left (suc attempt) w')

  -- fn run_activity_workflow_with_retry; `execute` is an attempt, by its number, its time and the world
  unfoldable pub run_activity_workflow_with_retry : World → Report
  unfolding attempts_from
  run_activity_workflow_with_retry w = attempts_from (w.now + seconds timeout) max_attempts 1 w
