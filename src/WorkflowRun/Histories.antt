-- ===== src/WorkflowRun/Histories.antt =====
-- The tables of src/workflow_run.rs after any history of operations.
use lark_utils_exp.Prelude.{
  ℕ, List, [], ◌∷◌, ◌&&◌, some, Option, any, refl, arith, Bool-cases, Option-cases, inl, inr, leb,
}
use lark_utils_exp.Text.{Text}
use lark_utils_exp.WorkflowRun.Tables.{
  Status, WorkflowStepRecord, Database, empty_database, truncate_error,
}
use lark_utils_exp.WorkflowRun.Runs.{
  opt_eq, is_running, has_run_id, is_running_step_of, fail_step, start_run, heartbeat_run,
  try_acquire_run_lease, release_run_lease, finish_run_success, finish_run_partial_failure,
  finish_run_all_projects_failed, finish_run_failure,
}
use lark_utils_exp.WorkflowRun.Steps.{
  same_step, find_step, has_key, restart, has_step_id, is_running_step_for, start_step,
  finish_step_success, finish_step_failure, fail_running_steps_for_activity,
}
use lark_utils_exp.WorkflowRun.Recovery.{
  is_stale, to_i32, is_orphan, is_orphan_step, expire_lease, fail_orphan, fail_orphan_step,
  reconcile_orphaned_runs_if_idle,
}
use lark_utils_exp.WorkflowRun.Notices.{
  find_guard, is_claimable, claim_notification, mark_notification_sent, release_notification,
  clear_notification,
}
use lark_utils_exp.WorkflowRun.Operations.{
  Operation, starts_run, beats, acquires, releases, succeeds, fails_partly, fails_wholly, fails,
  as_failed, as_blocked, starts_step, step_succeeds, step_fails, steps_fail, recovers, claims,
  marks, unreserves, clears, perform_at, replay, status_of,
}
use lark_utils_exp.WorkflowRun.Invariant.{
  IsTimed, WellFormedRuns, WellFormedSteps, SameKey, update-runs, update-steps, find_step-none,
}

abbrev WellFormed : Database → Type 0
WellFormed db = WellFormedRuns db × WellFormedSteps db

-- The failures of `finish_run_failure` end a run.
status_of-IsTimed : (s : _) (now : ℕ) → IsTimed (status_of s) (some now)
status_of-IsTimed as_failed now = (now, refl)
status_of-IsTimed as_blocked now = (now, refl)

same_key : (s : WorkflowStepRecord) → SameKey s s
same_key s = (refl, refl, refl)

module _ (sha1_hex : Text → Text) (now : ℕ) where
  beats-WellFormed :
      (id : ℕ) (db : Database) → WellFormed db → WellFormed (heartbeat_run now id db).1
  unfolding heartbeat_run
  beats-WellFormed id db (r, s) = elim (Bool-cases (opt_eq db.lease.workflow_run_id id)) [
    | inr e ↦ rw e (r, s)
    | inl e ↦ rw e (
      update-runs db (λ r. has_run_id id r && is_running r.status)
          (λ r. record r { heartbeat_at = now }) (λ r. refl) (λ r q t. t) r,
      s,
    )
  ]

  acquires-WellFormed :
      (id : ℕ) (db : Database) → WellFormed db → WellFormed (try_acquire_run_lease now id db).1
  unfolding try_acquire_run_lease
  acquires-WellFormed id db w = elim (Bool-cases (leb db.lease.lease_until now)) [
    | inl e ↦ rw e w
    | inr e ↦ rw e w
  ]

  releases-WellFormed :
      (id : ℕ) (db : Database) → WellFormed db → WellFormed (release_run_lease now id db)
  unfolding release_run_lease
  releases-WellFormed id db w = elim (Bool-cases (opt_eq db.lease.workflow_run_id id)) [
    | inl e ↦ rw e w
    | inr e ↦ rw e w
  ]

  failure-WellFormed :
      (id : ℕ) (s : Status) (code error : Text) (db : Database)
      → ((t : ℕ) → IsTimed s (some t))
      → WellFormed db
      → WellFormed (finish_run_failure now id s code error db)
  unfolding finish_run_failure
  failure-WellFormed id s code error db ended (r, w) = (
    update-runs db (has_run_id id)
        (λ r. record r {
          status = s;
          finished_at = some now;
          error_code = some code;
          error_message = some (truncate_error error);
        })
        (λ r. refl) (λ r q t. ended now) r,
    update-steps db (is_running_step_of id) (fail_step now (some (truncate_error error)))
        (λ s. refl) same_key (λ s q t. (now, refl)) w,
  )

  starts_step-WellFormed :
      (run : ℕ) (activity : Option ℕ) (name : Text) (key : Option Text) (db : Database)
      → WellFormed db
      → WellFormed (start_step now run activity name key db).1
  unfolding start_step
  starts_step-WellFormed run activity name key db (r, (d, t, u)) =
      elim (Option-cases (find_step (same_step run activity name) db.steps)) [
        | inr (id, e) ↦
            rw (e, start_step)
              (
                r,
                update-steps db (same_step run activity name) (restart now) (λ s. refl) same_key
                    (λ s q t. refl) (d, t, u),
              )
        | inl e ↦ elim (Bool-cases (any (has_key key) db.steps)) [
          | inl f ↦ rw (e, start_step, f) (r, (d, t, u))
          | inr f ↦
              rw (e, start_step, f)
                (
                  r,
                  (
                    (omega arith, d),
                    (refl, t),
                    (find_step-none (same_step run activity name) db.steps e, u),
                  ),
                )
        ]
      ]

  recovers-WellFormed :
      (age : ℕ) (db : Database)
      → WellFormed db
      → WellFormed (reconcile_orphaned_runs_if_idle now age db).1
  unfolding reconcile_orphaned_runs_if_idle
  recovers-WellFormed age db (r, s) = elim (Bool-cases (any (is_stale now (to_i32 age)) db.runs)) [
    | inr e ↦ rw e (r, s)
    | inl e ↦ rw e (
      update-runs db (is_orphan now (to_i32 age) (expire_lease now db.lease)) (fail_orphan now)
          (λ r. refl) (λ r q t. (now, refl)) r,
      update-steps db (is_orphan_step now (to_i32 age) (expire_lease now db.lease) db.runs)
          (fail_orphan_step now) (λ s. refl) same_key (λ s q t. (now, refl)) s,
    )
  ]

  claims-WellFormed :
      (category scope payload : Text) (cooldown : ℕ) (db : Database)
      → WellFormed db
      → WellFormed (claim_notification now sha1_hex category scope payload cooldown db).1
  unfolding claim_notification
  claims-WellFormed category scope payload cooldown db w =
      elim (Option-cases (find_guard category scope db.guards)) [
        | inl e ↦ rw (e, claim_notification) w
        | inr (g, e) ↦ elim (Bool-cases (is_claimable now (sha1_hex payload) (to_i32 cooldown) g)) [
          | inl f ↦ rw (e, claim_notification, f) w
          | inr f ↦ rw (e, claim_notification, f) w
        ]
      ]

  perform_at-WellFormed :
      (o : Operation) (db : Database) → WellFormed db → WellFormed (perform_at sha1_hex now o db)
  unfolding perform_at start_run finish_run_success finish_run_partial_failure
      finish_run_all_projects_failed finish_step_success finish_step_failure
      fail_running_steps_for_activity mark_notification_sent release_notification clear_notification
  perform_at-WellFormed (starts_run kind scope trigger request) db ((d, t), s) =
      (((omega arith, d), (refl, t)), s)
  perform_at-WellFormed (beats id) db w = beats-WellFormed id db w
  perform_at-WellFormed (acquires id) db w = acquires-WellFormed id db w
  perform_at-WellFormed (releases id) db w = releases-WellFormed id db w
  perform_at-WellFormed (succeeds id summary) db (r, s) =
      (update-runs db (has_run_id id) _ (λ r. refl) (λ r q t. (now, refl)) r, s)
  perform_at-WellFormed (fails_partly id summary e) db (r, s) =
      (update-runs db (has_run_id id) _ (λ r. refl) (λ r q t. (now, refl)) r, s)
  perform_at-WellFormed (fails_wholly id summary e) db (r, s) =
      (update-runs db (has_run_id id) _ (λ r. refl) (λ r q t. (now, refl)) r, s)
  perform_at-WellFormed (fails id status code e) db w =
      failure-WellFormed id (status_of status) code e db (status_of-IsTimed status) w
  perform_at-WellFormed (starts_step run activity name key) db w =
      starts_step-WellFormed run activity name key db w
  perform_at-WellFormed (step_succeeds id summary) db (r, s) =
      (r, update-steps db (has_step_id id) _ (λ s. refl) same_key (λ s q t. (now, refl)) s)
  perform_at-WellFormed (step_fails id e) db (r, s) =
      (r, update-steps db (has_step_id id) _ (λ s. refl) same_key (λ s q t. (now, refl)) s)
  perform_at-WellFormed (steps_fail run activity e) db (r, s) = (
    r,
    update-steps db (is_running_step_for now run activity) _ (λ s. refl) same_key
        (λ s q t. (now, refl)) s,
  )
  perform_at-WellFormed (recovers age) db w = recovers-WellFormed age db w
  perform_at-WellFormed (claims category scope payload cooldown) db w =
      claims-WellFormed category scope payload cooldown db w
  perform_at-WellFormed (marks category scope) db w = w
  perform_at-WellFormed (unreserves category scope) db w = w
  perform_at-WellFormed (clears category scope) db w = w

module _ (sha1_hex : Text → Text) where
  replay_from :
      (ops : List (ℕ × Operation)) (db : Database)
      → WellFormed db
      → WellFormed (replay sha1_hex ops db)
  unfolding replay
  replay_from [] db w = w
  replay_from ((now, o) ∷ more) db w =
      replay_from more (perform_at sha1_hex now o db) (perform_at-WellFormed sha1_hex now o db w)

  -- After any operations on empty tables, at any times and by any processes, the ids of runs and of
  -- steps fall from the newest to the oldest and are below the next id, a run or step has a finishing
  -- time exactly when its status is not running, and no run has two steps of one activity and name.
  pub replay-WellFormed :
      (ops : List (ℕ × Operation)) → WellFormed (replay sha1_hex ops empty_database)
  replay-WellFormed ops = replay_from ops empty_database ((tt, tt), (tt, tt, tt))
