-- ===== src/Workflow/Tasks.antt =====
-- The operation of a run, polled between heartbeats (src/workflow.rs).
use lark_utils_exp.Prelude.{
  ℕ, Bool, true, false, Option, none, ok, err, panic, unfinished, if◌then◌else◌,
}
use lark_utils_exp.Text.{Text, text}
use lark_utils_exp.Json.{Value}
use lark_utils_exp.Host.{Host}
use lark_utils_exp.Error.{Error, message, context}
use lark_utils_exp.WorkflowRun.Runs.{heartbeat_run}
use lark_utils_exp.WorkflowRun.Steps.{start_step, finish_step_success, finish_step_failure}
use lark_utils_exp.Workflow.Errors.{alternate}
use lark_utils_exp.Workflow.World.{
  World, RunError, busy, failure, Attempted, Environment, Action, proceed, call, total, silent,
}

-- A future: it has its result, or a poll takes it to its next wait and does something to the world.
pub data Task (A : Type 0) : Type 0 where
  finished : Attempted A → Task A
  polled : (World → World) → (World → Task A) → Task A

abbrev pub act : {A : Type 0} → Action A → Task A
act m = polled (λ w. (m w).1) (λ w. finished (m w).0)

-- The rest of a future, given the result of its first part.
abbrev pub after : {A B : Type 0} → Task A → (Attempted A → Task B) → Task B
after (finished r) f = f r
after (polled run next) f = polled run (λ w. after (next w) f)

abbrev pub on_ok : {A B : Type 0} → (A → Task B) → Attempted A → Task B
on_ok f (ok a) = f a
on_ok f (err e) = finished (err e)
on_ok f panic = finished panic
on_ok f unfinished = finished unfinished

-- `Display` of the error's chain, as steps and runs record it.
abbrev pub error_text : Host → RunError → Text
error_text h busy = text "已有写工作流正在运行，请稍后重试"
error_text h (failure e) = alternate h e

module _ (h : Host) (env : Environment) where
  -- the two calls that record the end of a step
  abbrev pub finish_step : {A : Type 0} → (A → Value) → ℕ → Attempted A → Action (Unit {0})
  finish_step to_summary step_id (ok a) =
      call env (silent env (λ now. finish_step_success now step_id (to_summary a)))
  finish_step to_summary step_id (err e) =
      call env (silent env (λ now. finish_step_failure now step_id (error_text h e)))
  finish_step to_summary step_id panic = λ w. (panic, w)
  finish_step to_summary step_id unfinished = λ w. (unfinished, w)

  -- fn tracked_optional_step; `to_summary` is the derived serialization
  unfoldable pub tracked_optional_step :
      {A : Type 0} → (A → Value) → ℕ → Option ℕ → Text → Task A → Task A
  unfolding call start_step finish_step_success finish_step_failure alternate
  tracked_optional_step to_summary run_id activity_period_id step_name operation =
      after (act (call env (λ now. start_step now run_id activity_period_id step_name none))) (
        on_ok (λ step_id. after operation (λ result.
          after (act (finish_step to_summary step_id result)) (on_ok (λ _. finished result)))))

  abbrev pub lease_lost : Error
  lease_lost = message (text "工作流运行租约或台账已失效，已停止当前工作流")

  -- what the loop makes of a heartbeat
  abbrev pub beat_result : Attempted Bool → Attempted (Unit {0})
  beat_result (ok true) = ok tt
  beat_result (ok false) = err (failure lease_lost)
  beat_result (err busy) = err busy
  beat_result (err (failure e)) = err (failure (context (text "续租工作流运行心跳失败，已停止当前工作流以避免跨实例重复执行") e))
  beat_result panic = panic
  beat_result unfinished = unfinished

  abbrev pub beat : ℕ → Action (Unit {0})
  beat run_id w =
      let (r, w') = call env (total env (λ now. heartbeat_run now run_id)) w in (beat_result r, w')

  -- The heartbeat, if its timer comes before the next poll.
  abbrev pub pulse : ℕ → Action (Unit {0})
  pulse run_id w = if env.is_beat_due w then beat run_id w else (ok tt, w)

  -- fn with_run_heartbeat
  unfoldable pub with_run_heartbeat : {A : Type 0} → ℕ → Task A → Action A
  unfolding call heartbeat_run
  with_run_heartbeat run_id (finished r) w =
      proceed (pulse run_id w).0 (λ _ w'. (r, w')) (pulse run_id w).1
  with_run_heartbeat run_id (polled run next) w =
      proceed (pulse run_id w).0 (λ _ w'. with_run_heartbeat run_id (next w') (run w'))
        (pulse run_id w).1
