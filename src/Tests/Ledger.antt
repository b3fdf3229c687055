-- ===== src/Tests/Ledger.antt =====
-- Runs of the tables of workflow runs on concrete input.
use lark_utils_exp.Prelude.{ℕ, List, [], ◌∷◌, true, false, none, some, ◌==◌, ◌≡◌, refl, arith, map}
use lark_utils_exp.Text.{Text, text, text_eq}
use lark_utils_exp.WorkflowRun.Sql.{rows_where, update_where}
use lark_utils_exp.WorkflowRun.Tables.{
  running, failed, WorkflowRunRecord, WorkflowStepRecord, Database, empty_database, empty_object,
}
use lark_utils_exp.WorkflowRun.Runs.{has_run_id, try_acquire_run_lease}
use lark_utils_exp.WorkflowRun.Recovery.{expire_lease, reconcile_orphaned_runs_if_idle}
use lark_utils_exp.WorkflowRun.Notices.{claim_notification, mark_notification_sent}
use lark_utils_exp.WorkflowRun.Operations.{
  Operation, starts_run, beats, acquires, recovers, claims, unreserves, clears, perform_at, replay,
}
use lark_utils_exp.WorkflowRun.Lease.{LeaseMove, perform_at-LeaseMove}
use lark_utils_exp.WorkflowRun.Exclusion.{lease-excludes, lease-recovers}
use lark_utils_exp.WorkflowRun.Invariant.{WellFormedRuns, WellFormedSteps}
use lark_utils_exp.WorkflowRun.Histories.{replay-WellFormed}
use lark_utils_exp.WorkflowRun.Orphans.{recovery-spares}
use lark_utils_exp.WorkflowRun.Claims.{claim-excludes}
use lark_utils_exp.WorkflowRun.Marks.{mark-cools}

abbrev digest : Text → Text
digest t = t

abbrev taken : Database
taken = (try_acquire_run_lease 0 1 empty_database).1

-- Another run starts, the holder beats, and a recovery comes by.
abbrev others : List (ℕ × Operation)
others =
    (1, starts_run (text "manual_sync") none (text "api") none)
    ∷ ((5, beats 1) ∷ ((9, recovers 0) ∷ []))

lease-excludes_example :
    ((replay digest others taken).lease.workflow_run_id ≡ some 1)
    × ((try_acquire_run_lease 10 2 (replay digest others taken)).0 ≡ false)
unfolding try_acquire_run_lease
lease-excludes_example =
    lease-excludes digest 0 1 2 10 others empty_database refl
      (omega arith, (omega arith, (omega arith, tt)))
      ((omega arith, λ e. cc), ((omega arith, λ e. cc), ((omega arith, λ e. cc), tt))) (omega arith)

lease-recovers_example :
    (try_acquire_run_lease 60000007 2 (replay digest ((7, acquires 1) ∷ []) empty_database)).0
    ≡ true
lease-recovers_example =
    lease-recovers digest ((7, acquires 1) ∷ []) 60000007 2 (omega arith, tt) (omega arith)

perform_at-LeaseMove_example :
    LeaseMove 7
      (acquires 1)
      empty_database.lease
      (perform_at digest 7 (acquires 1) empty_database).lease
perform_at-LeaseMove_example = perform_at-LeaseMove digest 7 (acquires 1) empty_database

replay-WellFormed_example :
    WellFormedRuns (replay digest others empty_database)
    × WellFormedSteps (replay digest others empty_database)
replay-WellFormed_example = replay-WellFormed digest others

abbrev pub run_of : ℕ → WorkflowRunRecord
run_of id = record {
  workflow_run_id = id;
  workflow_kind = text "night";
  scope_activity_period_id = none;
  trigger_source = text "scheduler";
  status = running;
  started_at = 0;
  heartbeat_at = 0;
  finished_at = none;
  summary = empty_object;
  error_code = none;
  error_message = none;
  request_id = none;
}

abbrev pub step_of : ℕ → ℕ → WorkflowStepRecord
step_of id run = record {
  workflow_step_id = id;
  workflow_run_id = run;
  activity_period_id = some 10;
  step_name = text "table_sync";
  status = running;
  idempotency_key = none;
  started_at = 0;
  finished_at = none;
  summary = empty_object;
  error_message = none;
}

-- Two runs without a heartbeat, of which the second holds the lease.
abbrev stale_pair : Database
stale_pair = record {
  runs = run_of 2 ∷ (run_of 1 ∷ []);
  next_run = 3;
  steps = step_of 2 2 ∷ (step_of 1 1 ∷ []);
  next_step = 3;
  lease = record { workflow_run_id = some 2; lease_until = 70000000 };
  guards = [];
}

abbrev recovered : Database
recovered = (reconcile_orphaned_runs_if_idle 60000000 30 stale_pair).1

recovery-spares_example :
    (recovered.lease ≡ stale_pair.lease)
    × (rows_where (has_run_id 2) recovered.runs ≡ rows_where (has_run_id 2) stale_pair.runs)
    × (rows_where (λ s. s.workflow_run_id == 2) recovered.steps
        ≡ rows_where (λ s. s.workflow_run_id == 2) stale_pair.steps)
recovery-spares_example = recovery-spares 60000000 30 2 stale_pair refl

abbrev claimed : Database
claimed =
    (claim_notification 0 digest (text "audit") (text "a") (text "three") 43200 empty_database).1

-- Another sender tries to claim the notice, and clears the notice of another scope.
abbrev in_between : List (ℕ × Operation)
in_between =
    (7, claims (text "audit") (text "a") (text "four") 0)
    ∷ ((9, clears (text "audit") (text "b")) ∷ [])

claim-excludes_example :
    (claim_notification 299999999 digest
      (text "audit")
      (text "a")
      (text "four")
      0
      (replay digest in_between claimed)).0
    ≡ false
unfolding claim_notification text_eq
claim-excludes_example =
    claim-excludes (text "audit") (text "a") digest 0 299999999 (text "three") (text "four") 43200 0
      in_between empty_database refl ((omega arith, refl), ((omega arith, refl), tt)) (omega arith)

-- The notice is released, and claimed again for the same payload.
abbrev afterwards : List (ℕ × Operation)
afterwards =
    (20, unreserves (text "audit") (text "a"))
    ∷ ((30, claims (text "audit") (text "a") (text "three") 0) ∷ [])

mark-cools_example :
    (claim_notification 1000000000 digest (text "audit") (text "a") (text "three") 43200 (
      replay digest afterwards
        (mark_notification_sent 15 (text "audit") (text "a") (replay digest in_between claimed)))).0
    ≡ false
unfolding claim_notification text_eq
mark-cools_example =
    mark-cools (text "audit") (text "a") digest 0 15 1000000000 (text "three") 43200 43200
      in_between afterwards empty_database refl ((omega arith, refl), ((omega arith, refl), tt))
      ((omega arith, refl), ((omega arith, refl), tt)) (omega arith)

-- The run that lost its process is closed, and the other one runs on.
recovered_statuses : map (λ r. r.status) recovered.runs ≡ running ∷ (failed ∷ [])
unfolding reconcile_orphaned_runs_if_idle expire_lease update_where
recovered_statuses = refl

recovered_step_statuses : map (λ s. s.status) recovered.steps ≡ running ∷ (failed ∷ [])
unfolding reconcile_orphaned_runs_if_idle expire_lease update_where
recovered_step_statuses = refl
