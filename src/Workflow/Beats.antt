-- ===== src/Workflow/Beats.antt =====
-- What stops the operation of a run (`with_run_heartbeat` of src/workflow.rs).
use lark_utils_exp.Prelude.{ℕ, true, false, some, err, ◌≡◌, ◌≢◌, refl, Bool-cases, inl, inr}
use lark_utils_exp.Host.{Host}
use lark_utils_exp.WorkflowRun.Runs.{opt_eq, heartbeat_run}
use lark_utils_exp.WorkflowRun.Lease.{opt_eq-eq}
use lark_utils_exp.Workflow.World.{World, IsFine, Environment, failure, call}
use lark_utils_exp.Workflow.Tasks.{Task, finished, polled, lease_lost, with_run_heartbeat}

module _ (h : Host) (env : Environment) (f : IsFine env) where
  -- A run that has lost the lease stops at its next heartbeat: the operation is not polled again,
  -- whatever it has left to do, the run returns an error, and the database stays as it is. This is
  -- where the heartbeat's call does not fail.
  pub heartbeat-stops :
      {A : Type 0} (id : ℕ) (operation : Task A) (w : World)
      → env.is_beat_due w ≡ true
      → w.db.lease.workflow_run_id ≢ some id
      → let r = with_run_heartbeat h env id operation w in
        (r.0 ≡ err (failure (lease_lost h env))) × (r.1.db ≡ w.db) × (r.1.sent ≡ w.sent)
  unfolding with_run_heartbeat call heartbeat_run
  heartbeat-stops {A} id operation w due gone =
      elim (Bool-cases (opt_eq w.db.lease.workflow_run_id id)) [
        | inl e ↦ absurd (gone (opt_eq-eq w.db.lease.workflow_run_id id e))
        | inr e ↦ stopped operation e
      ]
    where
      stopped :
          (t : Task A)
          → opt_eq w.db.lease.workflow_run_id id ≡ false
          → let r = with_run_heartbeat h env id t w in
            (r.0 ≡ err (failure (lease_lost h env))) × (r.1.db ≡ w.db) × (r.1.sent ≡ w.sent)
      stopped (finished r) e = rw (due, f w.calls, e) (refl, refl, refl)
      stopped (polled run next) e = rw (due, f w.calls, e) (refl, refl, refl)
