-- ===== src/WorkflowRun/Recovery.antt =====
-- The recovery of runs whose process is gone (src/workflow_run.rs).
use lark_utils_exp.Prelude.{
  ℕ, ◌+◌, Bool, not, ◌&&◌, Option, none, some, List, any, leb, ltb, ◌==◌, if◌then◌else◌,
}
use lark_utils_exp.Text.{Text, text}
use lark_utils_exp.WorkflowRun.Sql.{update_where, rows_affected}
use lark_utils_exp.WorkflowRun.Tables.{
  failed, WorkflowRunRecord, WorkflowStepRecord, Lease, Database, seconds,
}
use lark_utils_exp.WorkflowRun.Runs.{is_running, opt_eq, fail_step}

-- `COALESCE(message, default)`
abbrev coalesce : Option Text → Text → Option Text
coalesce none t = some t
coalesce (some s) t = some s

abbrev i32_max : ℕ
i32_max = 2147483647

-- `i32::try_from(duration.as_secs()).unwrap_or(i32::MAX)`
abbrev pub to_i32 : ℕ → ℕ
to_i32 n = if leb n i32_max then n else i32_max

module _ (now : ℕ) where
  -- `heartbeat_at < now() - make_interval(secs => age)`
  abbrev pub is_stale : ℕ → WorkflowRunRecord → Bool
  is_stale age r = is_running r.status && ltb (r.heartbeat_at + seconds age) now

  -- The lease of the run has not run out.
  abbrev pub holds_lease : Lease → ℕ → Bool
  holds_lease lease id = opt_eq lease.workflow_run_id id && ltb now lease.lease_until

  -- A lease that has run out is emptied.
  unfoldable pub expire_lease : Lease → Lease
  expire_lease lease =
      if leb lease.lease_until now
      then record { workflow_run_id = none; lease_until = now }
      else lease

  abbrev pub is_orphan : ℕ → Lease → WorkflowRunRecord → Bool
  is_orphan age lease r = is_stale age r && not (holds_lease lease r.workflow_run_id)

  abbrev pub is_orphan_step : ℕ → Lease → List WorkflowRunRecord → WorkflowStepRecord → Bool
  is_orphan_step age lease runs s =
      is_running s.status
      && any (λ r. is_orphan age lease r && (r.workflow_run_id == s.workflow_run_id)) runs

  abbrev pub fail_orphan : WorkflowRunRecord → WorkflowRunRecord
  fail_orphan r = record r {
    status = failed;
    finished_at = some now;
    error_code = some (text "stale_run");
    error_message = coalesce r.error_message (text "工作流进程失联，运行台账由孤儿恢复标记失败");
  }

  abbrev pub fail_orphan_step : WorkflowStepRecord → WorkflowStepRecord
  fail_orphan_step s = fail_step now (coalesce s.error_message (text "工作流进程失联，阶段台账由孤儿恢复标记失败")) s

  -- WorkflowRunRepository::reconcile_orphaned_runs_if_idle, given the age in seconds
  unfoldable pub reconcile_orphaned_runs_if_idle : ℕ → Database → ℕ × Database
  unfolding expire_lease
  reconcile_orphaned_runs_if_idle minimum_age db =
      let age = to_i32 minimum_age in
      let lease = expire_lease db.lease in
      if any (is_stale age) db.runs
      then (
        rows_affected (is_orphan age lease) db.runs,
        record db {
          lease = lease;
          steps = update_where (is_orphan_step age lease db.runs) fail_orphan_step db.steps;
          runs = update_where (is_orphan age lease) fail_orphan db.runs;
        },
      )
      else (0, db)
