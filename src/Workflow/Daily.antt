-- ===== src/Workflow/Daily.antt =====
-- Which steps the workflows of a day have (src/workflow.rs).
use lark_utils_exp.Prelude.{
  ℕ, Bool, true, false, not, ◌&&◌, Option, none, some, ok, err, panic, unfinished, ◌≡◌, refl,
  Bool-cases, inl, inr,
}
use lark_utils_exp.Host.{Host}
use lark_utils_exp.Workflow.Kinds.{WorkflowKind, is_daily_final, should_notify_audit}
use lark_utils_exp.Workflow.Results.{
  TraceRoundResult, PendingImportResult, WorkflowActivityScope, ActivityWorkflowResult,
}
use lark_utils_exp.Workflow.World.{World, Environment}
use lark_utils_exp.Workflow.Tasks.{Task, finished, polled}
use lark_utils_exp.Workflow.Activity.{
  Parts, ◌then_with◌, audit_result_step, audit_notice_step, audit_steps, run_activity_workflow,
  some_of, client_step, trace_step, import_step, table_sync_step,
}

-- Every result that a task can return has a property, whatever happens between its polls.
abbrev pub AllResults : {A : Type 0} → (A → Type 0) → Task A → Type 0
AllResults P (finished (ok a)) = P a
AllResults P (finished (err e)) = Unit
AllResults P (finished panic) = Unit
AllResults P (finished unfinished) = Unit
AllResults P (polled run next) = (w : World) → AllResults P (next w)

-- A task followed by another, where the first one's results have a property.
pub AllResults-after :
    {A B : Type 0} (Q : A → Type 0) (P : B → Type 0) (t : Task A) (f : A → Task B)
    → AllResults Q t
    → ((a : A) → Q a → AllResults P (f a))
    → AllResults P (t then_with f)
AllResults-after Q P (finished (ok a)) f q k = k a q
AllResults-after Q P (finished (err e)) f q k = tt
AllResults-after Q P (finished panic) f q k = tt
AllResults-after Q P (finished unfinished) f q k = tt
AllResults-after Q P (polled run next) f q k = λ w. AllResults-after Q P (next w) f (q w) k

AllResults-all : {A : Type 0} (P : A → Type 0) → ((a : A) → P a) → (t : Task A) → AllResults P t
AllResults-all P k (finished (ok a)) = k a
AllResults-all P k (finished (err e)) = tt
AllResults-all P k (finished panic) = tt
AllResults-all P k (finished unfinished) = tt
AllResults-all P k (polled run next) = λ w. AllResults-all P k (next w)

-- The results of a task followed by another are the other's.
AllResults-then_with :
    {A B : Type 0} (P : B → Type 0) (t : Task A) (f : A → Task B)
    → ((a : A) → AllResults P (f a))
    → AllResults P (t then_with f)
AllResults-then_with P (finished (ok a)) f k = k a
AllResults-then_with P (finished (err e)) f k = tt
AllResults-then_with P (finished panic) f k = tt
AllResults-then_with P (finished unfinished) f k = tt
AllResults-then_with P (polled run next) f k = λ w. AllResults-then_with P (next w) f k

abbrev pub is_some : {A : Type 0} → Option A → Bool
is_some none = false
is_some (some a) = true

some_of-is_some : {A : Type 0} (t : Task A) → AllResults (λ o. is_some o ≡ true) (some_of t)
some_of-is_some (finished (ok a)) = refl
some_of-is_some (finished (err e)) = tt
some_of-is_some (finished panic) = tt
some_of-is_some (finished unfinished) = tt
some_of-is_some (polled run next) = λ w. some_of-is_some (next w)

module _ (h : Host) (env : Environment) (parts : Parts) (run_id : ℕ) (kind : WorkflowKind)
    (jitter : Bool) where
  -- The audit of a result that fits the kind of workflow.
  abbrev pub FitsKind : WorkflowActivityScope → ActivityWorkflowResult → Type 0
  FitsKind scope r =
      (r.activity_period_id ≡ scope.activity_period_id)
      × (is_some r.audit_result_sync ≡ is_daily_final kind)
      × (r.audit_notice_sent && not (should_notify_audit kind && scope.audit_notice_enabled)
          ≡ false)

  audit_result_step-is_some :
      (scope : WorkflowActivityScope)
      → AllResults
          (λ o. is_some o ≡ is_daily_final kind)
          (audit_result_step h env parts run_id kind jitter scope)
  audit_result_step-is_some scope = elim (Bool-cases (is_daily_final kind)) [
    | inr e ↦ rw e refl
    | inl e ↦ rw e (some_of-is_some _)
  ]

  and_false : (b : Bool) → b && false ≡ false
  and_false true = refl
  and_false false = refl

  audit_notice_step-kind :
      (scope : WorkflowActivityScope)
      → AllResults
          (λ b. b && not (should_notify_audit kind && scope.audit_notice_enabled) ≡ false)
          (audit_notice_step h env parts run_id kind jitter scope)
  audit_notice_step-kind scope =
      elim (Bool-cases (should_notify_audit kind && scope.audit_notice_enabled)) [
        | inr e ↦ rw e refl
        | inl e ↦ rw e (AllResults-all (λ b. b && false ≡ false) and_false _)
      ]

  audit_steps-FitsKind :
      (scope : WorkflowActivityScope) (trace : TraceRoundResult)
      (pending_import : PendingImportResult) (synced : ℕ)
      → AllResults
          (FitsKind scope)
          (audit_steps h env parts run_id kind jitter scope trace pending_import synced)
  audit_steps-FitsKind scope trace pending_import synced =
      AllResults-after (λ o. is_some o ≡ is_daily_final kind) (FitsKind scope)
        (audit_result_step h env parts run_id kind jitter scope) _ (audit_result_step-is_some scope)
        (λ audit_result e.
          AllResults-after
            (λ b. b && not (should_notify_audit kind && scope.audit_notice_enabled) ≡ false)
            (FitsKind scope) (audit_notice_step h env parts run_id kind jitter scope) _
            (audit_notice_step-kind scope) (λ sent f. (refl, e, f)))

  -- Whatever the parts do and whatever happens between their waits, a result of an activity's
  -- workflow names its activity, has the audit results exactly in the last workflow of a day, and
  -- reports a notice at most in the first one, for an activity with notices.
  pub run_activity_workflow-FitsKind :
      (scope : WorkflowActivityScope)
      → AllResults (FitsKind scope) (run_activity_workflow h env parts run_id kind jitter scope)
  unfolding run_activity_workflow
  run_activity_workflow-FitsKind scope =
      AllResults-then_with (FitsKind scope) (client_step h env parts run_id kind jitter scope) _
        (λ client.
          AllResults-then_with (FitsKind scope) (trace_step h env parts run_id kind jitter scope) _
            (λ trace.
              AllResults-then_with (FitsKind scope)
                (import_step h env parts run_id kind jitter scope) _
                (λ pending_import.
                  AllResults-then_with (FitsKind scope)
                    (table_sync_step h env parts run_id kind jitter scope) _
                    (λ synced. audit_steps-FitsKind scope trace pending_import synced))))
