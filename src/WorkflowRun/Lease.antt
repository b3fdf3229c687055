-- ===== src/WorkflowRun/Lease.antt =====
-- The lease of src/workflow_run.rs, whatever the processes do.
use lark_utils_exp.Prelude.{
  ℕ, ◌+◌, ◌≤◌, true, none, some, Option, leb, ◌≡◌, arith, Bool-cases, inl, inr, any, ==_iff, ap,
  Option-cases,
}
use lark_utils_exp.Text.{Text}
use lark_utils_exp.WorkflowRun.Tables.{Lease, Database, seconds, workflow_lease_seconds}
use lark_utils_exp.WorkflowRun.Runs.{
  opt_eq, start_run, heartbeat_run, try_acquire_run_lease, release_run_lease, finish_run_success,
  finish_run_partial_failure, finish_run_all_projects_failed, finish_run_failure,
}
use lark_utils_exp.WorkflowRun.Steps.{start_step, find_step, same_step, has_key}
use lark_utils_exp.WorkflowRun.Recovery.{
  expire_lease, is_stale, to_i32, reconcile_orphaned_runs_if_idle,
}
use lark_utils_exp.WorkflowRun.Notices.{find_guard, is_claimable, claim_notification}
use lark_utils_exp.WorkflowRun.Operations.{
  Operation, starts_run, beats, acquires, releases, succeeds, fails_partly, fails_wholly, fails,
  starts_step, step_succeeds, step_fails, steps_fail, recovers, claims, marks, unreserves, clears,
  perform_at,
}

-- What an operation does to the lease: it keeps, renews, takes or frees it.
pub data LeaseMove (now : ℕ) : Operation → Lease → Lease → Type 0 where
  kept : {o : Operation} {l : Lease} → LeaseMove now o l l
  renewed :
      {id : ℕ} {l : Lease}
      → l.workflow_run_id ≡ some id
      → LeaseMove now (beats id) l (record l { lease_until = now + seconds workflow_lease_seconds })
  taken :
      {id : ℕ} {l : Lease}
      → l.lease_until ≤ now
      → LeaseMove now
          (acquires id)
          l
          (record { workflow_run_id = some id; lease_until = now + seconds workflow_lease_seconds })
  freed :
      {id : ℕ} {l : Lease}
      → l.workflow_run_id ≡ some id
      → LeaseMove now (releases id) l (record { workflow_run_id = none; lease_until = now })
  expired :
      {age : ℕ} {l : Lease}
      → l.lease_until ≤ now
      → LeaseMove now (recovers age) l (record { workflow_run_id = none; lease_until = now })

pub opt_eq-eq : (o : Option ℕ) (n : ℕ) → opt_eq o n ≡ true → o ≡ some n
opt_eq-eq none n e = cc
opt_eq-eq (some m) n e = ap some ((==_iff m n).0 e)

module _ (sha1_hex : Text → Text) (now : ℕ) where
  recovers-LeaseMove :
      (age : ℕ) (db : Database)
      → LeaseMove now (recovers age) db.lease (reconcile_orphaned_runs_if_idle now age db).1.lease
  unfolding reconcile_orphaned_runs_if_idle expire_lease
  recovers-LeaseMove age db = elim (Bool-cases (any (is_stale now (to_i32 age)) db.runs)) [
    | inr e ↦ rw e kept
    | inl e ↦ elim (Bool-cases (leb db.lease.lease_until now)) [
      | inl f ↦ rw (e, f) (expired (ground arith))
      | inr f ↦ rw (e, f) kept
    ]
  ]

  starts_step-LeaseMove :
      (run : ℕ) (activity : Option ℕ) (name : Text) (key : Option Text) (db : Database)
      → LeaseMove now
          (starts_step run activity name key)
          db.lease
          (start_step now run activity name key db).1.lease
  unfolding start_step
  starts_step-LeaseMove run activity name key db =
      elim (Option-cases (find_step (same_step run activity name) db.steps)) [
        | inr (id, e) ↦ rw (e, start_step) kept
        | inl e ↦ elim (Bool-cases (any (has_key key) db.steps)) [
          | inl f ↦ rw (e, start_step, f) kept
          | inr f ↦ rw (e, start_step, f) kept
        ]
      ]

  claims-LeaseMove :
      (category scope payload : Text) (cooldown : ℕ) (db : Database)
      → LeaseMove now
          (claims category scope payload cooldown)
          db.lease
          (claim_notification now sha1_hex category scope payload cooldown db).1.lease
  unfolding claim_notification
  claims-LeaseMove category scope payload cooldown db =
      elim (Option-cases (find_guard category scope db.guards)) [
        | inl e ↦ rw (e, claim_notification) kept
        | inr (g, e) ↦ elim (Bool-cases (is_claimable now (sha1_hex payload) (to_i32 cooldown) g)) [
          | inl f ↦ rw (e, claim_notification, f) kept
          | inr f ↦ rw (e, claim_notification, f) kept
        ]
      ]

  -- Each operation moves the lease as the lease machine allows: it keeps it, or it is a heartbeat of
  -- the holder and renews it, or takes one that has run out, or is a release by the holder, or a
  -- recovery that empties one that has run out.
  pub perform_at-LeaseMove :
      (o : Operation) (db : Database)
      → LeaseMove now o db.lease (perform_at sha1_hex now o db).lease
  unfolding perform_at start_run heartbeat_run try_acquire_run_lease release_run_lease
      finish_run_success finish_run_partial_failure finish_run_all_projects_failed
      finish_run_failure lark_utils_exp.WorkflowRun.Steps.finish_step_success
      lark_utils_exp.WorkflowRun.Steps.finish_step_failure
      lark_utils_exp.WorkflowRun.Steps.fail_running_steps_for_activity
      lark_utils_exp.WorkflowRun.Notices.mark_notification_sent
      lark_utils_exp.WorkflowRun.Notices.release_notification
      lark_utils_exp.WorkflowRun.Notices.clear_notification
  perform_at-LeaseMove (beats id) db = elim (Bool-cases (opt_eq db.lease.workflow_run_id id)) [
    | inl e ↦ rw (e, perform_at) (renewed (opt_eq-eq db.lease.workflow_run_id id e))
    | inr e ↦ rw (e, perform_at) kept
  ]
  perform_at-LeaseMove (acquires id) db = elim (Bool-cases (leb db.lease.lease_until now)) [
    | inl e ↦ rw (e, perform_at) (taken (ground arith))
    | inr e ↦ rw (e, perform_at) kept
  ]
  perform_at-LeaseMove (releases id) db = elim (Bool-cases (opt_eq db.lease.workflow_run_id id)) [
    | inl e ↦ rw (e, perform_at) (freed (opt_eq-eq db.lease.workflow_run_id id e))
    | inr e ↦ rw (e, perform_at) kept
  ]
  perform_at-LeaseMove (recovers age) db = recovers-LeaseMove age db
  perform_at-LeaseMove (starts_step run activity name key) db =
      starts_step-LeaseMove run activity name key db
  perform_at-LeaseMove (claims category scope payload cooldown) db =
      claims-LeaseMove category scope payload cooldown db
  perform_at-LeaseMove (starts_run kind scope trigger request) db = kept
  perform_at-LeaseMove (succeeds id summary) db = kept
  perform_at-LeaseMove (fails_partly id summary e) db = kept
  perform_at-LeaseMove (fails_wholly id summary e) db = kept
  perform_at-LeaseMove (fails id status code e) db = kept
  perform_at-LeaseMove (step_succeeds id summary) db = kept
  perform_at-LeaseMove (step_fails id e) db = kept
  perform_at-LeaseMove (steps_fail run activity e) db = kept
  perform_at-LeaseMove (marks category scope) db = kept
  perform_at-LeaseMove (unreserves category scope) db = kept
  perform_at-LeaseMove (clears category scope) db = kept
