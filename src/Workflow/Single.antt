-- ===== src/Workflow/Single.antt =====
-- The workflows of one step (src/workflow.rs).
use lark_utils_exp.Prelude.{
  ℕ, ◌+◌, ◌-◌, ◌≤◌, ℤ, pos, negsuc, List, [], ◌∷◌, Bool, true, false, leb, Option, ok, ◌==◌,
  if◌then◌else◌, ◌≡◌, arith, Bool-cases, inl, inr,
}
use lark_utils_exp.Text.{Text, text}
use lark_utils_exp.Json.{Value}
use lark_utils_exp.Host.{Host}
use lark_utils_exp.Workflow.Results.{
  PendingImportResult, AuditResultSyncResult, no_import, merge_pending_import_result,
}
use lark_utils_exp.Workflow.World.{Environment, Action}
use lark_utils_exp.Workflow.Tasks.{Task, finished}
use lark_utils_exp.Workflow.Exclusive.{run_step}
use lark_utils_exp.Workflow.Activity.{◌then_with◌}
use lark_utils_exp.Workflow.Daily.{AllResults, AllResults-after}

-- `limit.max(1)`
abbrev pub at_least_one : ℤ → ℕ
at_least_one (pos n) = if n == 0 then 1 else n
at_least_one (negsuc n) = 1

-- `saturating_sub` of a count, which is far from the least `i64`: the result may be negative.
abbrev pub minus : ℤ → ℕ → ℤ
minus (pos n) m = if leb m n then pos (n - m) else negsuc (m - n - 1)
minus (negsuc n) m = negsuc (n + m)

abbrev pub is_zero : ℤ → Bool
is_zero (pos n) = n == 0
is_zero (negsuc n) = false

-- The loop of `import_pending_sources` over the projects, with what is left of the limit; the import
-- of one project, by its client, is another part of the program.
unfoldable pub import_projects :
    (ℕ → ℤ → Task PendingImportResult) → ℤ → PendingImportResult → List ℕ → Task PendingImportResult
import_projects import remaining total [] = finished (ok total)
import_projects import remaining total (project_id ∷ project_ids) =
    if is_zero remaining
    then finished (ok total)
    else import project_id remaining then_with λ result.
        import_projects import (minus remaining result.discovered_sources)
          (merge_pending_import_result total result) project_ids

module _ (h : Host) (env : Environment) where
  -- XingtuWorkflowService::import_pending_sources
  unfoldable pub import_pending_sources :
      (PendingImportResult → Value)
      → Task (List ℕ)
      → (ℕ → ℤ → Task PendingImportResult)
      → ℤ
      → Option ℕ
      → Text
      → Option Text
      → Action PendingImportResult
  unfolding import_projects run_step
  import_pending_sources to_summary list_projects import limit scope trigger request =
      run_step h env to_summary (text "pending_import") (text "pending_import") scope trigger
        request
        (list_projects then_with λ project_ids.
          import_projects import (pos (at_least_one limit)) no_import project_ids)

  -- XingtuWorkflowService::run_audit_notice_only, given `run_audit_notice_from_db`
  unfoldable pub run_audit_notice_only :
      {A : Type 0} → (A → Value) → Task A → Option ℕ → Text → Option Text → Action A
  unfolding run_step
  run_audit_notice_only to_summary operation scope trigger request =
      run_step h env to_summary (text "audit_notice") (text "audit_notice") scope trigger request
        operation

  -- XingtuWorkflowService::sync_audit_results_only, given `sync_audit_results_from_db`
  unfoldable pub sync_audit_results_only :
      (AuditResultSyncResult → Value)
      → Task AuditResultSyncResult
      → Option ℕ
      → Text
      → Option Text
      → Action AuditResultSyncResult
  unfolding run_step
  sync_audit_results_only to_summary operation scope trigger request =
      run_step h env to_summary (text "audit_result_sync") (text "audit_result_sync") scope trigger
        request operation

  -- XingtuWorkflowService::sync_manual_registrations_only, given `sync_manual_registrations_inner`
  unfoldable pub sync_manual_registrations_only :
      {A : Type 0} → (A → Value) → Task A → Option ℕ → Text → Option Text → Action A
  unfolding run_step
  sync_manual_registrations_only to_summary operation scope trigger request =
      run_step h env to_summary (text "manual_sync") (text "manual_sync") scope trigger request
        operation

-- The sources that are found stay within the limit, if no project's import finds more than it is
-- asked for: this holds of every result, whatever happens between the waits.
pub import_projects-discovered :
    (import : ℕ → ℤ → Task PendingImportResult)
    → ((project_id most : ℕ)
        → AllResults (λ r. r.discovered_sources ≤ most) (import project_id (pos most)))
    → (limit remaining : ℕ) (total : PendingImportResult) (project_ids : List ℕ)
    → total.discovered_sources + remaining ≤ limit
    → AllResults
        (λ r. r.discovered_sources ≤ limit)
        (import_projects import (pos remaining) total project_ids)
unfolding import_projects
import_projects-discovered import asked limit remaining total [] within = omega arith
import_projects-discovered import asked limit remaining total (project_id ∷ project_ids) within =
    elim (Bool-cases (remaining == 0)) [
      | inl e ↦ rw e (let q : total.discovered_sources ≤ limit = omega arith in q)
      | inr e ↦ rw e (
          AllResults-after (λ r. r.discovered_sources ≤ remaining)
            (λ r. r.discovered_sources ≤ limit) (import project_id (pos remaining)) _
            (asked project_id remaining)
            (λ result few.
              let fits : leb result.discovered_sources remaining ≡ true = ground arith in
              rw fits (
                import_projects-discovered import asked limit
                  (remaining - result.discovered_sources) (merge_pending_import_result total result)
                  project_ids (omega arith))))
    ]
