-- ===== src/Workflow/Budget.antt =====
-- How long and how often src/workflow.rs tries an activity's workflow again.
use lark_utils_exp.Prelude.{
  ℕ, zero, suc, ◌+◌, ◌-◌, ◌≤◌, ◌<◌, List, [], ◌∷◌, Bool, true, false, ◌&&◌, ok, err, panic,
  unfinished, leb, ltb, ◌==◌, All, length, ◌≡◌, refl, arith, Bool-cases, inl, inr, ◌⊎◌,
}
use lark_utils_exp.Host.{Host}
use lark_utils_exp.WorkflowRun.Tables.{seconds}
use lark_utils_exp.Workflow.Settings.{retry_delay_for_attempt, retry_delay-le}
use lark_utils_exp.Workflow.Errors.{is_retryable_workflow_error}
use lark_utils_exp.Workflow.Results.{WorkflowActivityScope, ActivityWorkflowResult}
use lark_utils_exp.Workflow.World.{World, RunError, Attempted, Environment}
use lark_utils_exp.Workflow.Tasks.{error_text}
use lark_utils_exp.Workflow.Retry.{
  Timed, in_time, timed_out, Report, again, last_attempt, is_retried, remaining, after_error,
  after_attempt, attempts_from, run_activity_workflow_with_retry,
}

-- The delays together.
abbrev pub sum : List ℕ → ℕ
sum [] = 0
sum (n ∷ ns) = n + sum ns

-- Time does not go back in an attempt.
abbrev pub end_of : Timed → World
end_of (in_time w r) = w
end_of (timed_out w) = w

abbrev pub IsForward : (ℕ → ℕ → World → Timed) → Type 0
IsForward execute = (attempt time : ℕ) (w : World) → w.now ≤ (end_of (execute attempt time w)).now

abbrev pub IsRetryable : Host → RunError → Type 0
IsRetryable h e = is_retryable_workflow_error (error_text h e) ≡ true

-- What holds of the attempts that are left, at a time.
pub record Disciplined (h : Host) (deadline left now : ℕ) (r : Report) : Type 0 where
  pub few : r.tried ≤ left
  pub retryable : All (IsRetryable h) r.retried
  pub paced : length r.slept ≡ length r.retried
  pub bounded : All (λ delay. delay ≤ 300) r.slept
  pub fewer : length r.retried ≤ r.tried
  pub closely : r.tried ≤ suc (length r.retried)
  pub short : (sum r.slept ≡ 0) ⊎ (now + seconds (sum r.slept) < deadline)

last-Disciplined :
    (h : Host) (deadline left now : ℕ) (w : World) (x : Attempted ActivityWorkflowResult)
    → Disciplined h deadline (suc left) now (last_attempt w x)
last-Disciplined h deadline left now w x = record {
  few = omega arith;
  retryable = tt;
  paced = refl;
  bounded = tt;
  fewer = omega arith;
  closely = omega arith;
  short = inl refl;
}

-- A retry before the deadline, and the rest.
again-Disciplined :
    (h : Host) (deadline left now later delay pause : ℕ) (e : RunError) (r : Report)
    → now ≤ later
    → later + seconds delay < deadline
    → IsRetryable h e
    → delay ≤ 300
    → Disciplined h deadline left (later + seconds delay + pause) r
    → Disciplined h deadline (suc left) now (again e delay r)
again-Disciplined h deadline left now later delay pause e r forward soon retryable small d =
    record {
      few = omega (arith, d.few);
      retryable = (retryable, d.retryable);
      paced = omega (arith, d.paced);
      bounded = (small, d.bounded);
      fewer = omega (arith, d.fewer);
      closely = omega (arith, d.closely);
      short = inr (elim d.short [ inl none ↦ omega arith | inr some ↦ omega arith ]);
    }

and_second : (b c : Bool) → b && c ≡ true → c ≡ true
and_second true c e = e
and_second false c e = cc

module _ (h : Host) (env : Environment) (execute : ℕ → ℕ → World → Timed) (oversleep : ℕ → ℕ)
    (workflow_run_id : ℕ) (scope : WorkflowActivityScope)
    (timeout max_attempts retry_delay : ℕ) where
  abbrev from : ℕ → ℕ → ℕ → World → Report
  from deadline left attempt w =
      attempts_from h env execute oversleep workflow_run_id scope timeout max_attempts retry_delay
        deadline left attempt w

  after_error-Disciplined :
      (deadline left attempt now : ℕ) (w : World) (e : RunError) (rest : World → Report)
      → now ≤ w.now
      → ((v : World) → Disciplined h deadline left v.now (rest v))
      → Disciplined h deadline (suc left) now (
          after_error h env execute oversleep workflow_run_id scope timeout max_attempts retry_delay
            deadline attempt w e rest)
  after_error-Disciplined deadline left attempt now w e rest forward d =
      let delay = retry_delay_for_attempt retry_delay attempt in
      elim (Bool-cases (
        is_retried h env execute oversleep workflow_run_id scope timeout max_attempts retry_delay
          attempt e)) [
            | inr k ↦ rw k (last-Disciplined h deadline left now w _)
            | inl k ↦ elim (Bool-cases (leb (deadline - w.now) (seconds delay))) [
              | inl l ↦ rw (k, l) (last-Disciplined h deadline left now w _)
              | inr l ↦
                  rw (k, l)
                    (again-Disciplined h deadline left now w.now delay (oversleep attempt) e _
                      forward (ground arith) (and_second (ltb attempt max_attempts) _ k)
                      (retry_delay-le retry_delay attempt) (d _))
            ]
          ]

  attempts_from-Disciplined :
      IsForward execute
      → (deadline left attempt : ℕ) (w : World)
      → Disciplined h deadline left w.now (from deadline left attempt w)
  unfolding attempts_from
  attempts_from-Disciplined forward deadline zero attempt w = record {
    few = omega arith;
    retryable = tt;
    paced = refl;
    bounded = tt;
    fewer = omega arith;
    closely = omega arith;
    short = inl refl;
  }
  attempts_from-Disciplined forward deadline (suc left) attempt w =
      elim (Bool-cases (
        remaining h env execute oversleep workflow_run_id scope timeout max_attempts retry_delay
          deadline w
        == 0)) [
          | inl e ↦ rw e (record {
            few = omega arith;
            retryable = tt;
            paced = refl;
            bounded = tt;
            fewer = omega arith;
            closely = omega arith;
            short = inl refl;
          })
          | inr e ↦ rw e (
              attempted (attempts_from-Disciplined forward deadline left (suc attempt))
                (execute attempt (deadline - w.now) w) (forward attempt (deadline - w.now) w))
        ]
    where
      attempted :
          ((v : World) → Disciplined h deadline left v.now (from deadline left (suc attempt) v))
          → (t : Timed) → w.now ≤ (end_of t).now
          → Disciplined h deadline (suc left) w.now (
              after_attempt h env execute oversleep workflow_run_id scope timeout max_attempts
                retry_delay deadline attempt t
                (λ v. from deadline left (suc attempt) v))
      attempted rest (timed_out v) le = last-Disciplined h deadline left w.now _ _
      attempted rest (in_time v (ok r)) le = last-Disciplined h deadline left w.now _ _
      attempted rest (in_time v (err e)) le =
          after_error-Disciplined deadline left attempt w.now v e
            (λ v. from deadline left (suc attempt) v) le rest
      attempted rest (in_time v panic) le = last-Disciplined h deadline left w.now _ _
      attempted rest (in_time v unfinished) le = last-Disciplined h deadline left w.now _ _

  -- However the attempts end, if time does not go back in one: there are at most as many as is set,
  -- each attempt but the first follows an error that may be retried and one delay of at most five
  -- minutes, and all delays together, if there are any, are shorter than the time of the project.
  pub retry-budget :
      (w : World)
      → IsForward execute
      → let r =
          run_activity_workflow_with_retry h env execute oversleep workflow_run_id scope timeout
            max_attempts retry_delay w in
        (r.tried ≤ max_attempts)
        × (length r.retried ≤ r.tried)
        × (r.tried ≤ suc (length r.retried))
        × All (IsRetryable h) r.retried
        × (length r.slept ≡ length r.retried)
        × All (λ delay. delay ≤ 300) r.slept
        × ((sum r.slept ≡ 0) ⊎ (sum r.slept < timeout))
  unfolding run_activity_workflow_with_retry
  retry-budget w forward =
      let d = attempts_from-Disciplined forward (w.now + seconds timeout) max_attempts 1 w in
      (
        d.few,
        d.fewer,
        d.closely,
        d.retryable,
        d.paced,
        d.bounded,
        elim d.short [ inl none ↦ inl none | inr some ↦ inr (omega arith) ],
      )
