-- ===== src/Workflow/Kinds.antt =====
-- `WorkflowKind` of src/workflow.rs.
use lark_utils_exp.Prelude.{Bool, true, false, if◌then◌else◌, ◌≡◌, refl, ◌++◌, ok, err}
use lark_utils_exp.Text.{Text, text, text_eq, trim}
use lark_utils_exp.Error.{Fallible, message}
use lark_utils_exp.Workflow.Errors.{to_ascii_lowercase}

pub data WorkflowKind : Type 0 where
  morning periodic night : WorkflowKind

-- WorkflowKind::trigger_type
unfoldable pub trigger_type : WorkflowKind → Text
trigger_type morning = text "morning"
trigger_type periodic = text "periodic"
trigger_type night = text "night"

-- WorkflowKind::should_notify_audit
unfoldable pub should_notify_audit : WorkflowKind → Bool
should_notify_audit morning = true
should_notify_audit _ = false

-- WorkflowKind::is_daily_final
unfoldable pub is_daily_final : WorkflowKind → Bool
is_daily_final night = true
is_daily_final _ = false

-- fn parse_workflow_kind
unfoldable pub parse_workflow_kind : Text → Fallible WorkflowKind
unfolding trim to_ascii_lowercase text_eq
parse_workflow_kind value =
    let other = to_ascii_lowercase (trim value) in
    if text_eq other (text "morning")
    then ok morning
    else if text_eq other (text "periodic")
    then ok periodic
    else if text_eq other (text "night")
    then ok night
    else err (message (text "未知工作流类型：" ++ other))

-- The name that a run is recorded under is read back as its kind.
pub parse_workflow_kind-trigger_type :
    (kind : WorkflowKind) → parse_workflow_kind (trigger_type kind) ≡ ok kind
unfolding parse_workflow_kind trigger_type lark_utils_exp.Text.is_whitespace
parse_workflow_kind-trigger_type morning = refl
parse_workflow_kind-trigger_type periodic = refl
parse_workflow_kind-trigger_type night = refl
