-- ===== src/Workflow/Outcomes.antt =====
-- How src/workflow.rs adds up the outcomes of the activities.
use lark_utils_exp.Prelude.{
  ℕ, ◌+◌, List, [], ◌∷◌, ◌++◌, false, ◌||◌, none, some, length, if◌then◌else◌, ◌≡◌, sym, ◌∙◌, arith,
}
use mathlib.Core.List.{append_assoc, append-nil}
use lark_utils_exp.Host.{Host}
use lark_utils_exp.Error.{Error}
use lark_utils_exp.Workflow.Kinds.{WorkflowKind, is_daily_final}
use lark_utils_exp.Workflow.Errors.{bounded_workflow_error}
use lark_utils_exp.Workflow.Results.{
  WorkflowActivityScope, ActivityWorkflowResult, WorkflowActivityFailure, WorkflowRunResult,
  no_trace, no_import, no_audit, merge_trace_result, merge_pending_import_result, merge_audit,
}

-- What became of an activity: its result, or its error.
pub data Outcome : Type 0 where
  done : ActivityWorkflowResult → Outcome
  broken : Error → Outcome

abbrev pub no_result : ℕ → WorkflowKind → WorkflowRunResult
no_result workflow_run_id kind = record {
  workflow_run_id = workflow_run_id;
  workflow_kind = kind;
  processed_activity_period_ids = [];
  trace = no_trace;
  pending_import = no_import;
  synced_activities = 0;
  audit_result_sync = if is_daily_final kind then some no_audit else none;
  audit_notice_sent = false;
  failed_activities = [];
}

module _ (h : Host) where
  abbrev pub failure_of : WorkflowActivityScope → Error → WorkflowActivityFailure
  failure_of scope e = record {
    project_id = scope.project_id;
    activity_period_id = scope.activity_period_id;
    xingtu_account_id = scope.xingtu_account_id;
    error = bounded_workflow_error h e;
  }

  -- One round of the loop.
  abbrev pub add_outcome : WorkflowRunResult → WorkflowActivityScope → Outcome → WorkflowRunResult
  add_outcome total scope (done activity) = record total {
    processed_activity_period_ids =
        total.processed_activity_period_ids ++ (activity.activity_period_id ∷ []);
    trace = merge_trace_result total.trace activity.trace;
    pending_import = merge_pending_import_result total.pending_import activity.pending_import;
    synced_activities = total.synced_activities + activity.synced_activities;
    audit_notice_sent = total.audit_notice_sent || activity.audit_notice_sent;
    audit_result_sync = merge_audit total.audit_result_sync activity.audit_result_sync;
  }
  add_outcome total scope (broken e) = record total {
    failed_activities = total.failed_activities ++ (failure_of scope e ∷ []);
  }

  unfoldable pub add_outcomes :
      WorkflowRunResult → List (WorkflowActivityScope × Outcome) → WorkflowRunResult
  unfolding bounded_workflow_error
  add_outcomes total [] = total
  add_outcomes total ((scope, outcome) ∷ outcomes) =
      add_outcomes (add_outcome total scope outcome) outcomes

  -- fn aggregate_activity_outcomes
  unfoldable pub aggregate_activity_outcomes :
      ℕ → WorkflowKind → List (WorkflowActivityScope × Outcome) → WorkflowRunResult
  unfolding add_outcomes is_daily_final
  aggregate_activity_outcomes workflow_run_id kind outcomes =
      add_outcomes (no_result workflow_run_id kind) outcomes

  -- The periods of the activities that were done, the failures of those that were not, and what the
  -- done ones synchronised, each read off the outcomes.
  abbrev pub done_ids : List (WorkflowActivityScope × Outcome) → List ℕ
  done_ids [] = []
  done_ids ((scope, done activity) ∷ outcomes) = activity.activity_period_id ∷ done_ids outcomes
  done_ids ((scope, broken e) ∷ outcomes) = done_ids outcomes

  abbrev pub failures : List (WorkflowActivityScope × Outcome) → List WorkflowActivityFailure
  failures [] = []
  failures ((scope, done activity) ∷ outcomes) = failures outcomes
  failures ((scope, broken e) ∷ outcomes) = failure_of scope e ∷ failures outcomes

  abbrev pub synced : List (WorkflowActivityScope × Outcome) → ℕ
  synced [] = 0
  synced ((scope, done activity) ∷ outcomes) = activity.synced_activities + synced outcomes
  synced ((scope, broken e) ∷ outcomes) = synced outcomes

  add_outcomes-parts :
      (total : WorkflowRunResult) (outcomes : List (WorkflowActivityScope × Outcome))
      → let end = add_outcomes total outcomes in
        (end.processed_activity_period_ids
          ≡ total.processed_activity_period_ids ++ done_ids outcomes)
        × (end.failed_activities ≡ total.failed_activities ++ failures outcomes)
        × (end.synced_activities ≡ total.synced_activities + synced outcomes)
  unfolding add_outcomes
  add_outcomes-parts total [] = (
    sym (append-nil total.processed_activity_period_ids),
    sym (append-nil total.failed_activities),
    omega arith,
  )
  add_outcomes-parts total ((scope, done activity) ∷ outcomes) =
      let (ids, failed, count) =
        add_outcomes-parts (add_outcome total scope (done activity)) outcomes in
      (
        ids
            ∙ append_assoc total.processed_activity_period_ids (activity.activity_period_id ∷ [])
                (done_ids outcomes),
        failed,
        omega arith,
      )
  add_outcomes-parts total ((scope, broken e) ∷ outcomes) =
      let (ids, failed, count) = add_outcomes-parts (add_outcome total scope (broken e)) outcomes in
      (
        ids,
        failed ∙ append_assoc total.failed_activities (failure_of scope e ∷ []) (failures outcomes),
        count,
      )

  parts-length :
      (outcomes : List (WorkflowActivityScope × Outcome))
      → length (done_ids outcomes) + length (failures outcomes) ≡ length outcomes
  parts-length [] = omega arith
  parts-length ((scope, done activity) ∷ outcomes) = omega (arith, parts-length outcomes)
  parts-length ((scope, broken e) ∷ outcomes) = omega (arith, parts-length outcomes)

  -- No failure hides another activity's outcome: the result lists the period of every activity that
  -- was done and the failure of every other one, in their order, so that the two lists have as many
  -- entries together as there are activities, and it counts what the done ones synchronised.
  pub aggregate-keeps :
      (workflow_run_id : ℕ) (kind : WorkflowKind)
      (outcomes : List (WorkflowActivityScope × Outcome))
      → let r = aggregate_activity_outcomes workflow_run_id kind outcomes in
        (r.processed_activity_period_ids ≡ done_ids outcomes)
        × (r.failed_activities ≡ failures outcomes)
        × (r.synced_activities ≡ synced outcomes)
        × (length r.processed_activity_period_ids + length r.failed_activities ≡ length outcomes)
  unfolding aggregate_activity_outcomes
  aggregate-keeps workflow_run_id kind outcomes =
      let (ids, failed, count) = add_outcomes-parts (no_result workflow_run_id kind) outcomes in
      (ids, failed, omega arith, rw (ids, failed) (parts-length outcomes))
