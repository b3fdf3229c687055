-- ===== src/WorkflowRun/Tables.antt =====
-- The tables that src/workflow_run.rs reads and writes. Ids are those of `BIGSERIAL` columns, times
-- are microseconds, and `-infinity` is 0. `updated_at`, which nothing reads, is left out.
use lark_utils_exp.Prelude.{ℕ, ◌*◌, List, [], Option, none, take}
use lark_utils_exp.Text.{Text}
use lark_utils_exp.Json.{Value, object, end}

pub data Status : Type 0 where
  running succeeded partial_failed failed blocked skipped : Status

pub record WorkflowRunRecord : Type 0 where
  pub workflow_run_id : ℕ
  pub workflow_kind : Text
  pub scope_activity_period_id : Option ℕ
  pub trigger_source : Text
  pub status : Status
  pub started_at : ℕ
  pub heartbeat_at : ℕ
  pub finished_at : Option ℕ
  pub summary : Value
  pub error_code : Option Text
  pub error_message : Option Text
  pub request_id : Option Text

pub record WorkflowStepRecord : Type 0 where
  pub workflow_step_id : ℕ
  pub workflow_run_id : ℕ
  pub activity_period_id : Option ℕ
  pub step_name : Text
  pub status : Status
  pub idempotency_key : Option Text
  pub started_at : ℕ
  pub finished_at : Option ℕ
  pub summary : Value
  pub error_message : Option Text

-- The one row of `workflow_execution_lease`.
pub record Lease : Type 0 where
  pub workflow_run_id : Option ℕ
  pub lease_until : ℕ

-- A row of `notification_delivery_guard`.
pub record Guard : Type 0 where
  pub category : Text
  pub scope_key : Text
  pub payload_hash : Text
  pub reserved_until : ℕ
  pub last_sent_at : Option ℕ

pub record Database : Type 0 where
  pub runs : List WorkflowRunRecord
  pub next_run : ℕ
  pub steps : List WorkflowStepRecord
  pub next_step : ℕ
  pub lease : Lease
  pub guards : List Guard

abbrev pub empty_database : Database
empty_database = record {
  runs = [];
  next_run = 1;
  steps = [];
  next_step = 1;
  lease = record { workflow_run_id = none; lease_until = 0 };
  guards = [];
}

-- `make_interval(secs => n)`
abbrev pub seconds : ℕ → ℕ
seconds n = n * 1000000

abbrev pub workflow_lease_seconds : ℕ
workflow_lease_seconds = 60

abbrev pub empty_object : Value
empty_object = object end

-- fn truncate_error
unfoldable pub truncate_error : Text → Text
truncate_error e = take 4000 e
