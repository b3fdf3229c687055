-- ===== src/Workflow/Activity.antt =====
-- The steps of one activity's workflow (`run_activity_workflow` of src/workflow.rs).
use lark_utils_exp.Prelude.{
  ℕ, List, length, ◌++◌, Bool, false, ◌&&◌, Option, none, some, ok, err, panic, unfinished,
  if◌then◌else◌,
}
use lark_utils_exp.Text.{Text, text}
use lark_utils_exp.Text.Decimal.{decimal}
use lark_utils_exp.Json.{Value}
use lark_utils_exp.Host.{Host}
use lark_utils_exp.Activities.Config.{ActivitySyncConfig}
use lark_utils_exp.Workflow.Kinds.{WorkflowKind, is_daily_final, should_notify_audit}
use lark_utils_exp.Workflow.Results.{
  TraceRoundResult, PendingImportResult, AuditResultSyncResult, WorkflowActivityScope,
  ActivityWorkflowResult,
}
use lark_utils_exp.Workflow.World.{Environment}
use lark_utils_exp.Workflow.Tasks.{Task, finished, polled, after, on_ok, tracked_optional_step}
use lark_utils_exp.Workflow.Exclusive.{in_run_context}

-- The operations of the steps, which are other parts of the program, and the serialization of
-- their results.
pub record Parts : Type 0 where
  pub client_for_project : ℕ → Task (Unit {0})
  pub trace_once : WorkflowActivityScope → Bool → Task TraceRoundResult
  pub import_pending : WorkflowActivityScope → Task PendingImportResult
  pub list_sync_configs : WorkflowActivityScope → Task (List ActivitySyncConfig)
  pub sync_tables : WorkflowActivityScope → List ActivitySyncConfig → Task (Unit {0})
  pub sync_audit_results : WorkflowActivityScope → Task AuditResultSyncResult
  -- `run_audit_notice_from_db`: whether a notice was sent
  pub notify_audit : WorkflowActivityScope → Task Bool
  pub trace_value : TraceRoundResult → Value
  pub import_value : PendingImportResult → Value
  pub count_value : ℕ → Value
  pub audit_value : AuditResultSyncResult → Value
  pub notice_value : Bool → Value

-- `with_context` of a step's operation
abbrev pub task_context : {A : Type 0} → Text → Task A → Task A
task_context c (finished (ok a)) = finished (ok a)
task_context c (finished (err e)) = finished (err (in_run_context c e))
task_context c (finished panic) = finished panic
task_context c (finished unfinished) = finished unfinished
task_context c (polled run next) = polled run (λ w. task_context c (next w))

-- `.await?`
infixl 5 ◌then_with◌
abbrev pub ◌then_with◌ : {A B : Type 0} → Task A → (A → Task B) → Task B
◌then_with◌ t f = after t (on_ok f)

abbrev pub some_of : {A : Type 0} → Task A → Task (Option A)
some_of t = t then_with λ a. finished (ok (some a))

module _ (h : Host) (env : Environment) (parts : Parts) (run_id : ℕ) (kind : WorkflowKind)
    (jitter : Bool) where
  abbrev activity_text : WorkflowActivityScope → Text → Text
  activity_text scope what =
      text "活动期次 `"
      ++ (decimal scope.activity_period_id
          ++ (text "` account_id=" ++ (scope.xingtu_account_id ++ (text " " ++ what))))

  -- fn tracked_step, of an operation whose error names the activity
  abbrev pub tracked_step :
      {A : Type 0} → (A → Value) → WorkflowActivityScope → Text → Text → Task A → Task A
  tracked_step to_summary scope step_name what operation =
      tracked_optional_step h env to_summary run_id (some scope.activity_period_id) step_name
        (task_context (activity_text scope what) operation)

  -- the step of the audit results, in the last workflow of a day
  abbrev pub audit_result_step : WorkflowActivityScope → Task (Option AuditResultSyncResult)
  audit_result_step scope =
      if is_daily_final kind
      then some_of (
          tracked_step parts.audit_value scope (text "audit_result_sync") (text "从审核表同步结果失败")
            (parts.sync_audit_results scope))
      else finished (ok none)

  -- the step of the audit notice, in the first workflow of a day, for activities that have it
  abbrev pub audit_notice_step : WorkflowActivityScope → Task Bool
  audit_notice_step scope =
      if should_notify_audit kind && scope.audit_notice_enabled
      then tracked_step parts.notice_value scope (text "audit_notice") (text "发送审核通知失败")
          (parts.notify_audit scope)
      else finished (ok false)

  abbrev pub activity_result :
      WorkflowActivityScope
      → TraceRoundResult
      → PendingImportResult
      → ℕ
      → Option AuditResultSyncResult
      → Bool
      → ActivityWorkflowResult
  activity_result scope trace pending_import synced audit_result audit_notice_sent = record {
    activity_period_id = scope.activity_period_id;
    trace = trace;
    pending_import = pending_import;
    synced_activities = synced;
    audit_result_sync = audit_result;
    audit_notice_sent = audit_notice_sent;
  }

  -- the step of the tables
  abbrev pub table_sync_step : WorkflowActivityScope → Task ℕ
  table_sync_step scope =
      tracked_optional_step h env parts.count_value run_id (some scope.activity_period_id)
        (text "table_sync")
        (task_context (activity_text scope (text "读取同步配置失败")) (parts.list_sync_configs scope)
          then_with λ configs.
              task_context (activity_text scope (text "同步数据到飞书多维表失败"))
                (parts.sync_tables scope configs)
              then_with λ _. finished (ok (length configs)))

  -- the steps behind the sync of the tables
  abbrev pub audit_steps :
      WorkflowActivityScope
      → TraceRoundResult
      → PendingImportResult
      → ℕ
      → Task ActivityWorkflowResult
  audit_steps scope trace pending_import synced = audit_result_step scope then_with λ audit_result.
      audit_notice_step scope then_with λ audit_notice_sent.
      finished
        (ok (activity_result scope trace pending_import synced audit_result audit_notice_sent))

  abbrev pub client_step : WorkflowActivityScope → Task (Unit {0})
  client_step scope =
      task_context
        (activity_text scope (text "初始化项目 " ++ (decimal scope.project_id ++ text " 的飞书客户端失败")))
        (parts.client_for_project scope.project_id)

  abbrev pub trace_step : WorkflowActivityScope → Task TraceRoundResult
  trace_step scope =
      tracked_step parts.trace_value scope (text "xingtu_export") (text "拉取星图源数据链接失败")
        (parts.trace_once scope jitter)

  abbrev pub import_step : WorkflowActivityScope → Task PendingImportResult
  import_step scope =
      tracked_step parts.import_value scope (text "pending_import") (text "导入 pending 来源失败")
        (parts.import_pending scope)

  abbrev pub after_import :
      WorkflowActivityScope → TraceRoundResult → PendingImportResult → Task ActivityWorkflowResult
  after_import scope trace pending_import =
      table_sync_step scope then_with λ synced. audit_steps scope trace pending_import synced

  abbrev pub after_trace : WorkflowActivityScope → TraceRoundResult → Task ActivityWorkflowResult
  after_trace scope trace =
      import_step scope then_with λ pending_import. after_import scope trace pending_import

  -- fn run_activity_workflow
  unfoldable pub run_activity_workflow : WorkflowActivityScope → Task ActivityWorkflowResult
  unfolding tracked_optional_step is_daily_final should_notify_audit decimal
  run_activity_workflow scope = client_step scope then_with λ client.
      (trace_step scope then_with λ trace. after_trace scope trace)
