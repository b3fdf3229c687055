-- ===== src/Tests/Outcomes.antt =====
-- Runs of the functions of the workflows on concrete input.
use lark_utils_exp.Prelude.{
  ℕ, ◌+◌, ◌≤◌, List, [], ◌∷◌, true, false, none, some, All, any, length, ◌≡◌,
}
use lark_utils_exp.Text.{Text, text}
use lark_utils_exp.Error.{message}
use lark_utils_exp.Workflow.Kinds.{night}
use lark_utils_exp.Workflow.Settings.{
  parse_workflow_project_timeout_seconds, parse_workflow_project_max_attempts,
  parse_workflow_project_retry_delay_seconds, workflow_project_concurrency, settings-range,
}
use lark_utils_exp.Workflow.Receivers.{
  XingtuProjectAccount, same_receiver, is_eligible, DistinctReceivers,
  select_workflow_error_notice_accounts, select-receivers,
}
use lark_utils_exp.Workflow.Results.{
  WorkflowActivityScope, ActivityWorkflowResult, no_trace, no_import,
}
use lark_utils_exp.Workflow.Outcomes.{
  Outcome, done, broken, aggregate_activity_outcomes, done_ids, failures, synced, aggregate-keeps,
}
use lark_utils_exp.Workflow.Completion.{swapped, finish_batch, finish_batch_reordered}
use lark_utils_exp.Tests.Data.{host}

settings-range_example :
    ((1 ≤ workflow_project_concurrency (some (text "0")))
      × (workflow_project_concurrency (some (text "0")) ≤ 16))
    × ((300 ≤ parse_workflow_project_timeout_seconds (some (text "1")))
        × (parse_workflow_project_timeout_seconds (some (text "1")) ≤ 21600))
    × ((1 ≤ parse_workflow_project_max_attempts (some (text "20")))
        × (parse_workflow_project_max_attempts (some (text "20")) ≤ 5))
    × ((1 ≤ parse_workflow_project_retry_delay_seconds (some (text "x")))
        × (parse_workflow_project_retry_delay_seconds (some (text "x")) ≤ 300))
settings-range_example =
    settings-range (some (text "0")) (some (text "1")) (some (text "20")) (some (text "x"))

abbrev account_of : Text → XingtuProjectAccount
account_of id = record {
  xingtu_account_id = id;
  project_id = 1;
  project_display_name = text "p";
  receive_id_type = text "chat_id";
  receive_id = text "shared";
  ops_ids = [];
  login_notice_card_template_id = text "template";
}

abbrev pub accounts : List XingtuProjectAccount
accounts = account_of (text "a") ∷ (account_of (text "b") ∷ [])

abbrev selected : List XingtuProjectAccount
selected = select_workflow_error_notice_accounts accounts (text "account_id=b")

select-receivers_example :
    All (λ a. is_eligible accounts (text "account_id=b") a ≡ true) selected
    × DistinctReceivers selected
    × All
        (λ a.
          is_eligible accounts (text "account_id=b") a ≡ true
          → any (same_receiver a) selected ≡ true)
        accounts
select-receivers_example = select-receivers accounts (text "account_id=b")

abbrev pub scope_of : ℕ → WorkflowActivityScope
scope_of id = record {
  project_id = 1;
  activity_period_id = id;
  xingtu_account_id = text "a";
  audit_notice_enabled = true;
}

abbrev activity_of : ℕ → ActivityWorkflowResult
activity_of id = record {
  activity_period_id = id;
  trace = no_trace;
  pending_import = no_import;
  synced_activities = 2;
  audit_result_sync = none;
  audit_notice_sent = false;
}

abbrev first_broken : List (WorkflowActivityScope × Outcome)
first_broken =
    (scope_of 10, broken (message (text "gone"))) ∷ ((scope_of 11, done (activity_of 11)) ∷ [])

abbrev first_done : List (WorkflowActivityScope × Outcome)
first_done =
    (scope_of 11, done (activity_of 11)) ∷ ((scope_of 10, broken (message (text "gone"))) ∷ [])

aggregate-keeps_example :
    ((aggregate_activity_outcomes host 1 night first_broken).processed_activity_period_ids
      ≡ done_ids host first_broken)
    × ((aggregate_activity_outcomes host 1 night first_broken).failed_activities
        ≡ failures host first_broken)
    × ((aggregate_activity_outcomes host 1 night first_broken).synced_activities
        ≡ synced host first_broken)
    × (length (aggregate_activity_outcomes host 1 night first_broken).processed_activity_period_ids
          + length (aggregate_activity_outcomes host 1 night first_broken).failed_activities
        ≡ length first_broken)
aggregate-keeps_example = aggregate-keeps host 1 night first_broken

finish_batch_reordered_example :
    finish_batch host 1 night first_broken ≡ finish_batch host 1 night first_done
finish_batch_reordered_example =
    finish_batch_reordered host 1 night first_broken first_done swapped (((λ e. cc, tt), (tt, tt)))
