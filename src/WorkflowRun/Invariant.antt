-- ===== src/WorkflowRun/Invariant.antt =====
-- What holds of the tables of workflow runs and steps, whatever the processes do.
use lark_utils_exp.Prelude.{
  ℕ, ◌<◌, List, [], ◌∷◌, Bool, true, false, none, some, All, Option, map, ◌≡◌, refl, sym, subst,
  Bool-cases, inl, inr,
}
use lark_utils_exp.Text.{Text}
use lark_utils_exp.WorkflowRun.Sql.{update_where, All-update_where, map-update_where}
use lark_utils_exp.WorkflowRun.Tables.{
  Status, running, WorkflowRunRecord, WorkflowStepRecord, Database,
}
use lark_utils_exp.WorkflowRun.Steps.{same_step, find_step}

-- The ids fall from the newest row to the oldest, below the next id.
abbrev pub Descending : ℕ → List ℕ → Type 0
Descending bound [] = Unit
Descending bound (id ∷ ids) = (id < bound) × Descending id ids

-- A row has a finishing time exactly when it no longer runs.
abbrev pub IsTimed : Status → Option ℕ → Type 0
IsTimed running finished = finished ≡ none
IsTimed _ finished = (t : ℕ) × (finished ≡ some t)

abbrev pub IsTimedRun : WorkflowRunRecord → Type 0
IsTimedRun r = IsTimed r.status r.finished_at

abbrev pub IsTimedStep : WorkflowStepRecord → Type 0
IsTimedStep s = IsTimed s.status s.finished_at

-- No two steps of one run have the same activity period and name.
abbrev pub UniqueSteps : List WorkflowStepRecord → Type 0
UniqueSteps [] = Unit
UniqueSteps (s ∷ steps) =
    All (λ t. same_step s.workflow_run_id s.activity_period_id s.step_name t ≡ false) steps
    × UniqueSteps steps

abbrev pub WellFormedRuns : Database → Type 0
WellFormedRuns db =
    Descending db.next_run (map (λ r. r.workflow_run_id) db.runs) × All IsTimedRun db.runs

abbrev pub WellFormedSteps : Database → Type 0
WellFormedSteps db =
    Descending db.next_step (map (λ s. s.workflow_step_id) db.steps)
    × All IsTimedStep db.steps
    × UniqueSteps db.steps

-- An update of runs that keeps the ids, and the times right.
pub update-runs :
    (db : Database) (p : WorkflowRunRecord → Bool) (f : WorkflowRunRecord → WorkflowRunRecord)
    → ((r : WorkflowRunRecord) → (f r).workflow_run_id ≡ r.workflow_run_id)
    → ((r : WorkflowRunRecord) → p r ≡ true → IsTimedRun r → IsTimedRun (f r))
    → WellFormedRuns db
    → WellFormedRuns (record db { runs = update_where p f db.runs })
update-runs db p f same timed (d, t) = (
  subst (Descending db.next_run) (sym (map-update_where (λ r. r.workflow_run_id) p f same db.runs))
      d,
  All-update_where IsTimedRun p f timed db.runs t,
)

-- The columns that make a step's key.
abbrev pub SameKey : WorkflowStepRecord → WorkflowStepRecord → Type 0
SameKey s t =
    (s.workflow_run_id ≡ t.workflow_run_id)
    × (s.activity_period_id ≡ t.activity_period_id)
    × (s.step_name ≡ t.step_name)

same_step-SameKey :
    (run : ℕ) (activity : Option ℕ) (name : Text) (s t : WorkflowStepRecord)
    → SameKey s t
    → same_step run activity name t ≡ false
    → same_step run activity name s ≡ false
unfolding same_step
same_step-SameKey run none name s t k e = refl
same_step-SameKey run (some a) name s t (i, j, k) e = rw (i, j, k) e

UniqueSteps-update_where :
    (p : WorkflowStepRecord → Bool) (f : WorkflowStepRecord → WorkflowStepRecord)
    → ((s : WorkflowStepRecord) → SameKey (f s) s)
    → (steps : List WorkflowStepRecord) → UniqueSteps steps
    → UniqueSteps (update_where p f steps)
unfolding update_where
UniqueSteps-update_where p f same [] u = tt
UniqueSteps-update_where p f same (s ∷ steps) (new, u) = elim (Bool-cases (p s)) [
  | inr e ↦ rw e (
    kept s.workflow_run_id s.activity_period_id s.step_name new,
    UniqueSteps-update_where p f same steps u,
  )
  | inl e ↦
      let (i, j, k) = same s in
      rw (e, i, j, k)
        (
          kept s.workflow_run_id s.activity_period_id s.step_name new,
          UniqueSteps-update_where p f same steps u,
        )
]
  where
    kept :
        (run : ℕ) (activity : Option ℕ) (name : Text)
        → All (λ t. same_step run activity name t ≡ false) steps
        → All (λ t. same_step run activity name t ≡ false) (update_where p f steps)
    kept run activity name =
        All-update_where (λ t. same_step run activity name t ≡ false) p f
          (λ t e h. same_step-SameKey run activity name (f t) t (same t) h) steps

pub find_step-none :
    (p : WorkflowStepRecord → Bool) (steps : List WorkflowStepRecord)
    → find_step p steps ≡ none
    → All (λ s. p s ≡ false) steps
find_step-none p [] e = tt
find_step-none p (s ∷ steps) e = elim (Bool-cases (p s)) [
  | inl t ↦ absurd (let q = rw t at e in cc)
  | inr f ↦ (f, find_step-none p steps (rw f at e))
]

-- An update of steps that keeps the ids and keys, and the times right.
pub update-steps :
    (db : Database) (p : WorkflowStepRecord → Bool) (f : WorkflowStepRecord → WorkflowStepRecord)
    → ((s : WorkflowStepRecord) → (f s).workflow_step_id ≡ s.workflow_step_id)
    → ((s : WorkflowStepRecord) → SameKey (f s) s)
    → ((s : WorkflowStepRecord) → p s ≡ true → IsTimedStep s → IsTimedStep (f s))
    → WellFormedSteps db
    → WellFormedSteps (record db { steps = update_where p f db.steps })
update-steps db p f same keys timed (d, t, u) = (
  subst (Descending db.next_step)
      (sym (map-update_where (λ s. s.workflow_step_id) p f same db.steps)) d,
  All-update_where IsTimedStep p f timed db.steps t,
  UniqueSteps-update_where p f keys db.steps u,
)
