-- ===== src/Workflow/Closing.antt =====
-- How a run of activities of src/workflow.rs is closed.
use lark_utils_exp.Prelude.{
  ℕ, true, Option, some, ok, err, panic, unfinished, if◌then◌else◌, is_nil, ◌≡◌, ◌≢◌, refl,
  Bool-cases, inl, inr, subst, sym, ==_iff, ◌∙◌,
}
use lark_utils_exp.Text.{Text}
use lark_utils_exp.Json.{Value}
use lark_utils_exp.Host.{Host}
use lark_utils_exp.WorkflowRun.Tables.{Status, succeeded, partial_failed, failed, Database}
use lark_utils_exp.WorkflowRun.Runs.{
  opt_eq, release_run_lease, finish_run_success, finish_run_partial_failure,
  finish_run_all_projects_failed, finish_run_failure,
}
use lark_utils_exp.Workflow.Kinds.{WorkflowKind, trigger_type}
use lark_utils_exp.Workflow.Results.{WorkflowRunResult}
use lark_utils_exp.Workflow.World.{World, IsFine, Attempted, Environment, call}
use lark_utils_exp.Workflow.Tasks.{Task, with_run_heartbeat}
use lark_utils_exp.Workflow.Notices.{Messaging}
use lark_utils_exp.Workflow.Telling.{SameRuns, send_workflow_error_notices-SameRuns}
use lark_utils_exp.Workflow.Endings.{HasStatus, update_where-HasStatus}
use lark_utils_exp.Workflow.Exclusive.{
  begin_exclusive_run, record_outcome, release, notify, conclude, run_workflow_exclusive,
}

-- The code returned: it neither panicked nor ran out of fuel.
abbrev pub IsSettled : {A : Type 0} → Attempted A → Type 0
IsSettled (ok a) = Unit
IsSettled (err e) = Unit
IsSettled panic = ⊥
IsSettled unfinished = ⊥

-- The status that a run ends with, by what it returns.
abbrev pub final_status : Attempted WorkflowRunResult → Status
final_status (ok r) =
    if is_nil r.failed_activities
    then succeeded
    else if is_nil r.processed_activity_period_ids
    then failed
    else partial_failed
final_status _ = failed

opt_eq_refl : (n : ℕ) → opt_eq (some n) n ≡ true
opt_eq_refl n = (==_iff n n).1 refl

release_run_lease-frees :
    (now id : ℕ) (db : Database)
    → ((release_run_lease now id db).runs ≡ db.runs)
      × ((release_run_lease now id db).lease.workflow_run_id ≢ some id)
unfolding release_run_lease
release_run_lease-frees now id db = elim (Bool-cases (opt_eq db.lease.workflow_run_id id)) [
  | inl e ↦ rw e (refl, λ k. cc)
  | inr e ↦ rw e (refl, λ k. absurd (let q = rw (k, opt_eq_refl id) at e in cc))
]

module _ (h : Host) (env : Environment) (m : Messaging) (f : IsFine env)
    (to_summary : WorkflowRunResult → Value) where
  -- The end of a run is recorded with its status.
  record_outcome-HasStatus :
      (id : ℕ) (outcome : Attempted WorkflowRunResult) (w : World)
      → IsSettled outcome
      → ((record_outcome h env to_summary id outcome w).0 ≡ ok tt)
        × HasStatus id
            (final_status outcome)
            (record_outcome h env to_summary id outcome w).1.db.runs
  unfolding call finish_run_success finish_run_partial_failure finish_run_all_projects_failed
      finish_run_failure
  record_outcome-HasStatus id (ok r) w s = elim (Bool-cases (is_nil r.failed_activities)) [
    | inl e ↦ rw (e, f w.calls) (refl, update_where-HasStatus id succeeded _ w.db.runs (λ r. refl))
    | inr e ↦ elim (Bool-cases (is_nil r.processed_activity_period_ids)) [
      | inl k ↦
          rw (e, k, f w.calls) (refl, update_where-HasStatus id failed _ w.db.runs (λ r. refl))
      | inr k ↦
          rw (e, k, f w.calls)
            (refl, update_where-HasStatus id partial_failed _ w.db.runs (λ r. refl))
    ]
  ]
  record_outcome-HasStatus id (err e) w s =
      rw (f w.calls) (refl, update_where-HasStatus id failed _ w.db.runs (λ r. refl))
  record_outcome-HasStatus id panic w s = absurd s
  record_outcome-HasStatus id unfinished w s = absurd s

  abbrev IsFreed : ℕ → Database → Type 0
  IsFreed id db = db.lease.workflow_run_id ≢ some id

  release-frees :
      (id : ℕ) (w : World)
      → ((release h env id w).0 ≡ ok tt)
        × ((release h env id w).1.db.runs ≡ w.db.runs)
        × IsFreed id (release h env id w).1.db
  unfolding call
  release-frees id w =
      rw (f w.calls)
        (refl, (release_run_lease-frees _ id w.db).0, (release_run_lease-frees _ id w.db).1)

  notify-SameRuns :
      (kind : WorkflowKind) (outcome : Attempted WorkflowRunResult) (w : World)
      → SameRuns w.db (notify h env m kind outcome w).db
  notify-SameRuns kind (ok r) w = record { runs = refl; lease = refl }
  notify-SameRuns kind (err e) w = send_workflow_error_notices-SameRuns env h m kind e w
  notify-SameRuns kind panic w = record { runs = refl; lease = refl }
  notify-SameRuns kind unfinished w = record { runs = refl; lease = refl }

  conclude-closes :
      (kind : WorkflowKind) (id : ℕ) (outcome : Attempted WorkflowRunResult) (w : World)
      → IsSettled outcome
      → let r = conclude h env m to_summary kind id outcome w in
        (r.0 ≡ outcome) × HasStatus id (final_status outcome) r.1.db.runs × IsFreed id r.1.db
  conclude-closes kind id outcome w s =
      let (recorded, has) = record_outcome-HasStatus id outcome w s in
      let middle = (record_outcome h env to_summary id outcome w).1 in
      let (released, kept, freed) = release-frees id middle in
      let told = notify-SameRuns kind outcome (release h env id middle).1 in
      rw (recorded, released)
        (
          refl,
          subst (HasStatus id (final_status outcome)) (sym (told.runs ∙ kept)) has,
          subst (λ l. l.workflow_run_id ≢ some id) (sym told.lease) freed,
        )

  conclude-IsSettled :
      (kind : WorkflowKind) (id : ℕ) (outcome : Attempted WorkflowRunResult) (w : World)
      → IsSettled (conclude h env m to_summary kind id outcome w).0
      → IsSettled outcome
  conclude-IsSettled kind id (ok r) w s = tt
  conclude-IsSettled kind id (err e) w s = tt
  conclude-IsSettled kind id panic w s = s
  conclude-IsSettled kind id unfinished w s = s

  -- A run that began is closed when the workflow returns, whatever its operation did to the tables
  -- and however heartbeats came in between, where no call of the database fails: its rows
  -- have the status that fits the result, succeeded where no activity failed, partially failed where
  -- some failed and some were processed, failed where none was processed or the workflow returns an
  -- error, and the lease is not the run's.
  pub run-closes :
      (kind : WorkflowKind) (scope : Option ℕ) (trigger : Text) (request : Option Text)
      (operation : ℕ → Task WorkflowRunResult) (w : World) (id : ℕ)
      → (begin_exclusive_run h env (trigger_type kind) scope trigger request w).0 ≡ ok id
      → IsSettled
          (run_workflow_exclusive h env m to_summary kind scope trigger request operation w).0
      → let r = run_workflow_exclusive h env m to_summary kind scope trigger request operation w in
        HasStatus id (final_status r.0) r.1.db.runs × (r.1.db.lease.workflow_run_id ≢ some id)
  unfolding run_workflow_exclusive
  run-closes kind scope trigger request operation w id begun settled =
      let v = (begin_exclusive_run h env (trigger_type kind) scope trigger request w).1 in
      let outcome = (with_run_heartbeat h env id (operation id) v).0 in
      let w' = (with_run_heartbeat h env id (operation id) v).1 in
      let s = conclude-IsSettled kind id outcome w' (rw begun at settled) in
      let (same, has, freed) = conclude-closes kind id outcome w' s in rw (begun, same) (has, freed)
