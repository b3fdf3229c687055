-- ===== src/Tests/Daily.antt =====
-- A run of an activity's workflow on concrete input.
use lark_utils_exp.Prelude.{[], ok, false}
use lark_utils_exp.Workflow.Kinds.{morning}
use lark_utils_exp.Workflow.Results.{no_trace, no_import, no_audit}
use lark_utils_exp.Workflow.Tasks.{finished}
use lark_utils_exp.Workflow.Activity.{Parts, run_activity_workflow}
use lark_utils_exp.Workflow.Daily.{AllResults, FitsKind, run_activity_workflow-FitsKind}
use lark_utils_exp.WorkflowRun.Tables.{empty_object}
use lark_utils_exp.Tests.Data.{host}
use lark_utils_exp.Tests.Outcomes.{scope_of}
use lark_utils_exp.Tests.Workflows.{environment}

-- Each operation is done at once.
abbrev parts : Parts
parts = record {
  client_for_project = λ project. finished (ok tt);
  trace_once = λ scope jitter. finished (ok no_trace);
  import_pending = λ scope. finished (ok no_import);
  list_sync_configs = λ scope. finished (ok []);
  sync_tables = λ scope configs. finished (ok tt);
  sync_audit_results = λ scope. finished (ok no_audit);
  notify_audit = λ scope. finished (ok false);
  trace_value = λ r. empty_object;
  import_value = λ r. empty_object;
  count_value = λ r. empty_object;
  audit_value = λ r. empty_object;
  notice_value = λ r. empty_object;
}

run_activity_workflow-FitsKind_example :
    AllResults
      (FitsKind host environment parts 1 morning false (scope_of 10))
      (run_activity_workflow host environment parts 1 morning false (scope_of 10))
run_activity_workflow-FitsKind_example =
    run_activity_workflow-FitsKind host environment parts 1 morning false (scope_of 10)
