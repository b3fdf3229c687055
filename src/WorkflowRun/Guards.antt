-- ===== src/WorkflowRun/Guards.antt =====
-- What the operations of src/workflow_run.rs do to the guard of one category and scope.
use lark_utils_exp.Prelude.{
  ℕ, List, [], ◌∷◌, Bool, true, false, ◌&&◌, ◌≡◌, refl, arith, Bool-cases, Option-cases, inl, inr,
  leb, any, ◌⊎◌,
}
use lark_utils_exp.Text.{Text, text_eq}
use lark_utils_exp.Text.Order.{eq_of_text_eq, text_eq_iff}
use lark_utils_exp.WorkflowRun.Sql.{update_where}
use lark_utils_exp.WorkflowRun.Tables.{Guard, Database}
use lark_utils_exp.WorkflowRun.Runs.{
  start_run, heartbeat_run, try_acquire_run_lease, release_run_lease, finish_run_success,
  finish_run_partial_failure, finish_run_all_projects_failed, finish_run_failure, opt_eq,
}
use lark_utils_exp.WorkflowRun.Steps.{
  same_step, find_step, has_key, start_step, finish_step_success, finish_step_failure,
  fail_running_steps_for_activity,
}
use lark_utils_exp.WorkflowRun.Recovery.{reconcile_orphaned_runs_if_idle, to_i32, is_stale}
use lark_utils_exp.WorkflowRun.Notices.{
  is_guard, find_guard, delete_guard, is_claimable, reserve, claim_notification,
  mark_notification_sent, release_notification, clear_notification,
}
use lark_utils_exp.WorkflowRun.Operations.{
  Operation, starts_run, beats, acquires, releases, succeeds, fails_partly, fails_wholly, fails,
  starts_step, step_succeeds, step_fails, steps_fail, recovers, claims, marks, unreserves, clears,
  perform_at,
}

module _ (category scope : Text) where
  -- The same category and scope.
  abbrev pub is_key : Text → Text → Bool
  is_key c s = text_eq c category && text_eq s scope

  -- An operation on the guard of the category and scope.
  abbrev pub concerns : Operation → Bool
  concerns (claims c s payload cooldown) = is_key c s
  concerns (marks c s) = is_key c s
  concerns (unreserves c s) = is_key c s
  concerns (clears c s) = is_key c s
  concerns o = false

  -- What an operation on the guard is.
  pub data Concern : Operation → Type 0 where
    claiming : (payload : Text) (cooldown : ℕ) → Concern (claims category scope payload cooldown)
    marking : Concern (marks category scope)
    unreserving : Concern (unreserves category scope)
    clearing : Concern (clears category scope)

  key-eq : (c s : Text) → is_key c s ≡ true → (c ≡ category) × (s ≡ scope)
  key-eq c s e =
      let p : text_eq c category ≡ true = ground arith in
      let q : text_eq s scope ≡ true = ground arith in
      (eq_of_text_eq c category p, eq_of_text_eq s scope q)

  on_key :
      (o : Text → Text → Operation)
      → Concern (o category scope)
      → ((c s : Text) → concerns (o c s) ≡ is_key c s)
      → (c s : Text) → (concerns (o c s) ≡ false) ⊎ Concern (o c s)
  on_key o own same c s = elim (Bool-cases (is_key c s)) [
    | inr e ↦ inl (rw (same c s) e)
    | inl e ↦ let (p, q) = key-eq c s e in inr (rw (p, q) own)
  ]

  pub Concern-cases : (o : Operation) → (concerns o ≡ false) ⊎ Concern o
  Concern-cases (claims c s payload cooldown) =
      on_key (λ c s. claims c s payload cooldown) (claiming payload cooldown) (λ c s. refl) c s
  Concern-cases (marks c s) = on_key marks marking (λ c s. refl) c s
  Concern-cases (unreserves c s) = on_key unreserves unreserving (λ c s. refl) c s
  Concern-cases (clears c s) = on_key clears clearing (λ c s. refl) c s
  Concern-cases (starts_run kind activity trigger request) = inl refl
  Concern-cases (beats id) = inl refl
  Concern-cases (acquires id) = inl refl
  Concern-cases (releases id) = inl refl
  Concern-cases (succeeds id summary) = inl refl
  Concern-cases (fails_partly id summary e) = inl refl
  Concern-cases (fails_wholly id summary e) = inl refl
  Concern-cases (fails id status code e) = inl refl
  Concern-cases (starts_step run activity name key) = inl refl
  Concern-cases (step_succeeds id summary) = inl refl
  Concern-cases (step_fails id e) = inl refl
  Concern-cases (steps_fail run activity e) = inl refl
  Concern-cases (recovers age) = inl refl

  -- A guard has one key.
  other_key :
      (c s : Text) (g : Guard)
      → is_key c s ≡ false
      → is_guard c s g ≡ true
      → is_guard category scope g ≡ false
  other_key c s g = ground (
    arith,
    text_eq_iff g.category c,
    text_eq_iff g.scope_key s,
    text_eq_iff g.category category,
    text_eq_iff g.scope_key scope,
    text_eq_iff c category,
    text_eq_iff s scope,
  )

  pub find_guard-update_where_other :
      (c s : Text) (f : Guard → Guard) (guards : List Guard)
      → is_key c s ≡ false
      → ((g : Guard) → is_guard category scope (f g) ≡ is_guard category scope g)
      → find_guard category scope (update_where (is_guard c s) f guards)
        ≡ find_guard category scope guards
  unfolding find_guard update_where
  find_guard-update_where_other c s f [] other same = refl
  find_guard-update_where_other c s f (g ∷ guards) other same = elim (Bool-cases (is_guard c s g)) [
    | inl k ↦
        rw (k, same g, other_key c s g other k)
          (find_guard-update_where_other c s f guards other same)
    | inr k ↦ rw (k, find_guard-update_where_other c s f guards other same) refl
  ]

  find_guard-delete_guard_other :
      (c s : Text) (guards : List Guard)
      → is_key c s ≡ false
      → find_guard category scope (delete_guard c s guards) ≡ find_guard category scope guards
  unfolding find_guard
  find_guard-delete_guard_other c s [] other = refl
  find_guard-delete_guard_other c s (g ∷ guards) other = elim (Bool-cases (is_guard c s g)) [
    | inl k ↦ rw (k, other_key c s g other k) (find_guard-delete_guard_other c s guards other)
    | inr k ↦ rw (k, find_guard-delete_guard_other c s guards other) refl
  ]

  claim_other :
      (now : ℕ) (sha1_hex : Text → Text) (c s payload : Text) (cooldown : ℕ) (db : Database)
      → is_key c s ≡ false
      → find_guard category scope (claim_notification now sha1_hex c s payload cooldown db).1.guards
        ≡ find_guard category scope db.guards
  unfolding claim_notification find_guard
  claim_other now sha1_hex c s payload cooldown db other =
      elim (Option-cases (find_guard c s db.guards)) [
        | inl e ↦ rw (e, claim_notification, other) refl
        | inr (g, e) ↦ elim (Bool-cases (is_claimable now (sha1_hex payload) (to_i32 cooldown) g)) [
          | inl k ↦
              rw (e, claim_notification, k)
                (find_guard-update_where_other c s (reserve now (sha1_hex payload)) db.guards other
                  (λ h. refl))
          | inr k ↦ rw (e, claim_notification, k) refl
        ]
      ]

  module _ (sha1_hex : Text → Text) (now : ℕ) where
    -- An operation that does not concern a guard leaves it as it is.
    pub perform_at-find_guard :
        (o : Operation) (db : Database)
        → concerns o ≡ false
        → find_guard category scope (perform_at sha1_hex now o db).guards
          ≡ find_guard category scope db.guards
    unfolding perform_at start_run heartbeat_run try_acquire_run_lease release_run_lease
        finish_run_success finish_run_partial_failure finish_run_all_projects_failed
        finish_run_failure start_step finish_step_success finish_step_failure
        fail_running_steps_for_activity reconcile_orphaned_runs_if_idle mark_notification_sent
        release_notification clear_notification
    perform_at-find_guard (starts_run kind activity trigger request) db other = refl
    perform_at-find_guard (beats id) db other =
        elim (Bool-cases (opt_eq db.lease.workflow_run_id id)) [
          | inl e ↦ rw (e, perform_at) refl
          | inr e ↦ rw (e, perform_at) refl
        ]
    perform_at-find_guard (acquires id) db other =
        elim (Bool-cases (leb db.lease.lease_until now)) [
          | inl e ↦ rw (e, perform_at) refl
          | inr e ↦ rw (e, perform_at) refl
        ]
    perform_at-find_guard (releases id) db other =
        elim (Bool-cases (opt_eq db.lease.workflow_run_id id)) [
          | inl e ↦ rw (e, perform_at) refl
          | inr e ↦ rw (e, perform_at) refl
        ]
    perform_at-find_guard (succeeds id summary) db other = refl
    perform_at-find_guard (fails_partly id summary e) db other = refl
    perform_at-find_guard (fails_wholly id summary e) db other = refl
    perform_at-find_guard (fails id status code e) db other = refl
    perform_at-find_guard (starts_step run activity name key) db other =
        elim (Option-cases (find_step (same_step run activity name) db.steps)) [
          | inr (id, e) ↦ rw (e, perform_at, start_step) refl
          | inl e ↦ elim (Bool-cases (any (has_key key) db.steps)) [
            | inl f ↦ rw (e, perform_at, start_step, f) refl
            | inr f ↦ rw (e, perform_at, start_step, f) refl
          ]
        ]
    perform_at-find_guard (step_succeeds id summary) db other = refl
    perform_at-find_guard (step_fails id e) db other = refl
    perform_at-find_guard (steps_fail run activity e) db other = refl
    perform_at-find_guard (recovers age) db other =
        elim (Bool-cases (any (is_stale now (to_i32 age)) db.runs)) [
          | inr e ↦ rw (e, perform_at) refl
          | inl e ↦ rw (e, perform_at) refl
        ]
    perform_at-find_guard (claims c s payload cooldown) db other =
        claim_other now sha1_hex c s payload cooldown db other
    perform_at-find_guard (marks c s) db other =
        find_guard-update_where_other c s _ db.guards other (λ g. refl)
    perform_at-find_guard (unreserves c s) db other =
        find_guard-update_where_other c s _ db.guards other (λ g. refl)
    perform_at-find_guard (clears c s) db other = find_guard-delete_guard_other c s db.guards other
