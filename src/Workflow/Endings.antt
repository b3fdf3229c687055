-- ===== src/Workflow/Endings.antt =====
-- How a run of src/workflow.rs begins and ends, in the tables.
use lark_utils_exp.Prelude.{
  ℕ, suc, ◌+◌, ◌<◌, List, [], ◌∷◌, Bool, true, false, Option, some, ok, err, panic, unfinished, leb,
  ◌==◌, All, ◌≡◌, refl, arith, Bool-cases, inl, inr, ◌⊎◌, subst, sym,
}
use lark_utils_exp.Text.{Text, text}
use lark_utils_exp.Json.{Value}
use lark_utils_exp.Host.{Host}
use lark_utils_exp.WorkflowRun.Sql.{update_where, update_where-unmet, All-updated}
use lark_utils_exp.WorkflowRun.Tables.{
  Status, Database, blocked, seconds, workflow_lease_seconds, WorkflowRunRecord, WorkflowStepRecord,
  truncate_error,
}
use lark_utils_exp.WorkflowRun.Runs.{
  has_run_id, is_running_step_of, new_run, start_run, try_acquire_run_lease, finish_run_failure,
}
use lark_utils_exp.Workflow.Kinds.{WorkflowKind}
use lark_utils_exp.Workflow.Results.{WorkflowRunResult}
use lark_utils_exp.Workflow.World.{
  World, Fault, fine, refused, lost, IsFine, busy, Attempted, Environment, Action, call,
  time_of_call, total, proceed, raise, attempt, ◌>>=◌,
}
use lark_utils_exp.Workflow.Tasks.{Task}
use lark_utils_exp.Workflow.Notices.{Messaging}
use lark_utils_exp.Workflow.Exclusive.{begin_exclusive_run, after_acquire, run_workflow_exclusive}

Fault-cases : (f : Fault) → (f ≡ fine) ⊎ ((f ≡ refused) ⊎ (f ≡ lost))
Fault-cases fine = inl refl
Fault-cases refused = inr (inl refl)
Fault-cases lost = inr (inr refl)

module _ (h : Host) (env : Environment) where
  abbrev acquire : ℕ → Action Bool
  acquire id = call env (total env (λ now. try_acquire_run_lease now id))

  abbrev start : Text → Option ℕ → Text → Option Text → Action ℕ
  start kind scope trigger request =
      call env (total env (λ now. start_run now kind scope trigger request))

  abbrev IsHeld : ℕ → World → Type 0
  IsHeld id w =
      (w.db.lease.workflow_run_id ≡ some id)
      × (w.db.lease.lease_until ≡ w.now + seconds workflow_lease_seconds)

  -- A call for the lease that says it was taken took it.
  acquire-IsHeld : (id : ℕ) (w : World) → (acquire id w).0 ≡ ok true → IsHeld id (acquire id w).1
  unfolding call try_acquire_run_lease
  acquire-IsHeld id w won = elim (Fault-cases (env.fault w.calls)) [
    | inr (inl e) ↦ absurd (let q = rw e at won in cc)
    | inr (inr e) ↦ absurd (let q = rw e at won in cc)
    | inl e ↦ elim (Bool-cases (leb w.db.lease.lease_until (time_of_call env w))) [
      | inl f ↦ rw (e, f) (refl, refl)
      | inr f ↦ absurd (let q = rw (e, f) at won in cc)
    ]
  ]

  -- The run goes on only after a lease that was taken, and then at once.
  after_acquire-ok :
      (run id : ℕ) (r : Attempted Bool) (w : World)
      → (after_acquire h env run r w).0 ≡ ok id
      → (run ≡ id) × (r ≡ ok true) × ((after_acquire h env run r w).1 ≡ w)
  after_acquire-ok run id (ok true) w e = (cc, refl, refl)
  after_acquire-ok run id (ok false) w e = absurd (not_ok _ _ e)
    where
      not_ok :
          (r : Attempted (Unit {0})) (v : World)
          → (proceed r (λ _. raise {A = ℕ} busy) v).0 ≡ ok id
          → ⊥
      not_ok (ok u) v e = cc
      not_ok (err x) v e = cc
      not_ok panic v e = cc
      not_ok unfinished v e = cc
  after_acquire-ok run id (err x) w e = cc
  after_acquire-ok run id panic w e = cc
  after_acquire-ok run id unfinished w e = cc

  -- A run only begins under the lease: whatever calls fail, a run that has begun holds the lease, for
  -- a minute from the last call.
  pub begin-holds :
      (kind : Text) (scope : Option ℕ) (trigger : Text) (request : Option Text) (w : World) (id : ℕ)
      → (begin_exclusive_run h env kind scope trigger request w).0 ≡ ok id
      → let end = (begin_exclusive_run h env kind scope trigger request w).1 in
        (end.db.lease.workflow_run_id ≡ some id)
        × (end.db.lease.lease_until ≡ end.now + seconds workflow_lease_seconds)
  unfolding begin_exclusive_run
  begin-holds kind scope trigger request w id won =
      begun (start kind scope trigger request w).0 (start kind scope trigger request w).1 won
    where
      begun :
          (r : Attempted ℕ) (v : World)
          → (proceed r (λ run. attempt (acquire run) >>= after_acquire h env run) v).0 ≡ ok id
          → IsHeld id (proceed r (λ run. attempt (acquire run) >>= after_acquire h env run) v).1
      begun (err x) v e = cc
      begun panic v e = cc
      begun unfinished v e = cc
      begun (ok run) v e =
          let (own, taken, at_once) =
            after_acquire-ok run id (acquire run v).0 (acquire run v).1 e in
          subst (IsHeld id) (sym at_once)
            (subst (λ n. IsHeld n (acquire run v).1) own (acquire-IsHeld run v taken))

-- The rows of a run have a status.
abbrev pub HasStatus : ℕ → Status → List WorkflowRunRecord → Type 0
HasStatus id s runs = All (λ r. has_run_id id r ≡ true → r.status ≡ s) runs

-- An update of a run's rows sets their status.
pub update_where-HasStatus :
    (id : ℕ) (s : Status) (f : WorkflowRunRecord → WorkflowRunRecord)
    (runs : List WorkflowRunRecord)
    → ((r : WorkflowRunRecord) → (f r).status ≡ s)
    → HasStatus id s (update_where (has_run_id id) f runs)
update_where-HasStatus id s f runs set =
    All-updated (λ r. has_run_id id r ≡ true → r.status ≡ s) (has_run_id id) f (λ r e k. set r)
      (λ r e k. absurd (let q = rw e at k in cc)) runs

-- The rows of earlier runs are none of the next run's.
earlier-runs :
    (next : ℕ) (runs : List WorkflowRunRecord)
    → All (λ r. r.workflow_run_id < next) runs
    → All (λ r. has_run_id next r ≡ false) runs
earlier-runs next [] all = tt
earlier-runs next (r ∷ runs) (lt, all) = (ground arith, earlier-runs next runs all)

earlier-steps :
    (next : ℕ) (steps : List WorkflowStepRecord)
    → All (λ s. s.workflow_run_id < next) steps
    → All (λ s. is_running_step_of next s ≡ false) steps
earlier-steps next [] all = tt
earlier-steps next (s ∷ steps) (lt, all) =
    let q : (s.workflow_run_id == next) ≡ false = ground arith in
    (rw q refl, earlier-steps next steps all)

with_run :
    (run : WorkflowRunRecord) (runs : List WorkflowRunRecord) (steps : List WorkflowStepRecord)
    (db : Database)
    → runs ≡ db.runs
    → steps ≡ db.steps
    → ◌≡◌ {A = Database}
        (record db { runs = run ∷ runs; next_run = suc db.next_run; steps = steps })
        (record db { runs = run ∷ db.runs; next_run = suc db.next_run })
with_run run runs steps db r s = rw (r, s) refl

-- A run that starts and fails changes its own row only.
failed-run :
    (now later : ℕ) (kind : Text) (scope : Option ℕ) (trigger : Text) (request : Option Text)
    (status : Status) (code error : Text) (db : Database)
    → All (λ r. r.workflow_run_id < db.next_run) db.runs
    → All (λ s. s.workflow_run_id < db.next_run) db.steps
    → (run : WorkflowRunRecord) × (run.workflow_run_id ≡ db.next_run)
      × (run.status ≡ status)
      × (run.error_code ≡ some code)
      × (finish_run_failure later db.next_run status code error
            (start_run now kind scope trigger request db).1
          ≡ record db { runs = run ∷ db.runs; next_run = suc db.next_run })
unfolding start_run finish_run_failure update_where
failed-run now later kind scope trigger request status code error db runs steps =
    let same : (db.next_run == db.next_run) ≡ true = ground arith in
    let run : WorkflowRunRecord = record (new_run now db.next_run kind scope trigger request) {
      status = status;
      finished_at = some later;
      error_code = some code;
      error_message = some (truncate_error error);
    } in
    (
      run,
      refl,
      refl,
      refl,
      rw same (
          with_run run _ _ db
            (update_where-unmet (has_run_id db.next_run) _ db.runs
              (earlier-runs db.next_run db.runs runs))
            (update_where-unmet (is_running_step_of db.next_run) _ db.steps
              (earlier-steps db.next_run db.steps steps))),
    )

module _ (h : Host) (env : Environment) (m : Messaging) (f : IsFine env) where
  -- While another run holds the lease, where no call fails and the rows that are there belong to
  -- earlier runs, a workflow returns the error that says so and sends no notice, and all that changes
  -- in the database is one new row: the run with the next id, blocked, with the code `workflow_busy`.
  -- The other runs, the steps, the lease and the guards stay as they are.
  pub busy-blocks :
      (to_summary : WorkflowRunResult → Value) (kind : WorkflowKind) (scope : Option ℕ)
      (trigger : Text) (request : Option Text) (operation : ℕ → Task WorkflowRunResult) (w : World)
      → w.now + env.pause w.calls + env.pause (suc w.calls) < w.db.lease.lease_until
      → All (λ r. r.workflow_run_id < w.db.next_run) w.db.runs
      → All (λ s. s.workflow_run_id < w.db.next_run) w.db.steps
      → let r = run_workflow_exclusive h env m to_summary kind scope trigger request operation w in
        (r.0 ≡ err busy)
        × (r.1.sent ≡ w.sent)
        × (run : WorkflowRunRecord) × (run.workflow_run_id ≡ w.db.next_run)
        × (run.status ≡ blocked)
        × (run.error_code ≡ some (text "workflow_busy"))
        × (r.1.db ≡ record w.db { runs = run ∷ w.db.runs; next_run = suc w.db.next_run })
  unfolding run_workflow_exclusive begin_exclusive_run call start_run try_acquire_run_lease
      finish_run_failure
  busy-blocks to_summary kind scope trigger request operation w held runs steps =
      let q : leb w.db.lease.lease_until (w.now + env.pause w.calls + env.pause (suc w.calls))
          ≡ false =
        ground arith in
      rw (f w.calls, f (suc w.calls), q, f (suc (suc w.calls)))
        (let (run, own, ended, code, rest) =
            failed-run _ _ _ scope trigger request blocked _ (text "已有写工作流正在运行") w.db runs steps in
          (refl, refl, run, own, ended, code, rest))
