-- ===== src/WorkflowRun/Orphans.antt =====
-- The rows that `reconcile_orphaned_runs_if_idle` of src/workflow_run.rs changes.
use lark_utils_exp.Prelude.{
  ℕ, ◌<◌, List, [], ◌∷◌, true, false, ◌&&◌, some, any, leb, ◌==◌, ◌≡◌, refl, arith, Bool-cases, inl,
  inr, ==_iff,
}
use lark_utils_exp.WorkflowRun.Sql.{rows_where, rows_where-update_where}
use lark_utils_exp.WorkflowRun.Tables.{WorkflowRunRecord, Lease, Database}
use lark_utils_exp.WorkflowRun.Runs.{opt_eq, is_running, has_run_id}
use lark_utils_exp.WorkflowRun.Recovery.{
  to_i32, is_stale, holds_lease, expire_lease, is_orphan, is_orphan_step, fail_orphan,
  fail_orphan_step, reconcile_orphaned_runs_if_idle,
}
use lark_utils_exp.WorkflowRun.Lease.{opt_eq-eq}

module _ (now : ℕ) where
  holds-opt_eq :
      (l : Lease) (id : ℕ)
      → holds_lease now l id ≡ true
      → (l.workflow_run_id ≡ some id) × (now < l.lease_until)
  holds-opt_eq l id h = elim (Bool-cases (opt_eq l.workflow_run_id id)) [
    | inl e ↦ let q = rw e at h in (opt_eq-eq l.workflow_run_id id e, ground arith)
    | inr e ↦ absurd (let q = rw e at h in cc)
  ]

  expire_lease_held : (l : Lease) → now < l.lease_until → expire_lease now l ≡ l
  unfolding expire_lease
  expire_lease_held l lt = let q : leb l.lease_until now ≡ false = ground arith in rw q refl

  -- A run that holds the lease is no orphan.
  orphan_held :
      (age id : ℕ) (l : Lease) (r : WorkflowRunRecord)
      → holds_lease now l id ≡ true
      → has_run_id id r ≡ true
      → is_orphan now age l r ≡ false
  orphan_held age id l r h e =
      let same = (==_iff r.workflow_run_id id).0 e in
      elim (Bool-cases (is_stale now age r)) [ inl f ↦ rw (f, same, h) refl | inr f ↦ rw f refl ]

  orphan_steps_held :
      (age id : ℕ) (l : Lease) (runs : List WorkflowRunRecord)
      → holds_lease now l id ≡ true
      → any (λ r. is_orphan now age l r && (r.workflow_run_id == id)) runs ≡ false
  orphan_steps_held age id l [] h = refl
  orphan_steps_held age id l (r ∷ runs) h = elim (Bool-cases (r.workflow_run_id == id)) [
    | inl e ↦ rw (orphan_held age id l r h e) (orphan_steps_held age id l runs h)
    | inr e ↦ elim (Bool-cases (is_orphan now age l r)) [
      | inl f ↦ rw (f, e) (orphan_steps_held age id l runs h)
      | inr f ↦ rw f (orphan_steps_held age id l runs h)
    ]
  ]

  -- The recovery changes neither the lease nor a run that holds it before it runs out, nor any step
  -- of that run, however old the run's heartbeat is.
  pub recovery-spares :
      (age id : ℕ) (db : Database)
      → holds_lease now db.lease id ≡ true
      → let end = (reconcile_orphaned_runs_if_idle now age db).1 in
        (end.lease ≡ db.lease)
        × (rows_where (has_run_id id) end.runs ≡ rows_where (has_run_id id) db.runs)
        × (rows_where (λ s. s.workflow_run_id == id) end.steps
            ≡ rows_where (λ s. s.workflow_run_id == id) db.steps)
  unfolding reconcile_orphaned_runs_if_idle
  recovery-spares age id db h = elim (Bool-cases (any (is_stale now (to_i32 age)) db.runs)) [
    | inr e ↦ rw e (refl, refl, refl)
    | inl e ↦
        let same = expire_lease_held db.lease (holds-opt_eq db.lease id h).1 in
        rw (e, same)
          (
            refl,
            rows_where-update_where (has_run_id id) (is_orphan now (to_i32 age) db.lease)
                (fail_orphan now) (λ r. refl) (λ r f. orphan_held (to_i32 age) id db.lease r h f)
                db.runs,
            rows_where-update_where (λ s. s.workflow_run_id == id)
                (is_orphan_step now (to_i32 age) db.lease db.runs) (fail_orphan_step now)
                (λ s. refl)
                (λ s f.
                  let own = (==_iff s.workflow_run_id id).0 f in
                  elim (Bool-cases (is_running s.status)) [
                    | inl g ↦ rw (g, own) (orphan_steps_held (to_i32 age) id db.lease db.runs h)
                    | inr g ↦ rw g refl
                  ])
                db.steps,
          )
  ]
