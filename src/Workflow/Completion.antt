-- ===== src/Workflow/Completion.antt =====
-- The activities of src/workflow.rs run at once and end in any order; the outcomes are sorted.
use lark_utils_exp.Prelude.{
  ℕ, List, [], ◌∷◌, All, leb, if◌then◌else◌, ◌≡◌, ◌≢◌, refl, sym, ap, ◌∙◌, arith,
}
use lark_utils_exp.Host.{Host}
use lark_utils_exp.Workflow.Kinds.{WorkflowKind}
use lark_utils_exp.Workflow.Results.{WorkflowActivityScope, WorkflowRunResult}
use lark_utils_exp.Workflow.Outcomes.{Outcome, aggregate_activity_outcomes}

-- The same elements in another order.
pub data Reordered {A : Type 0} : List A → List A → Type 0 where
  same : {l : List A} → Reordered l l
  swapped : {a b : A} {l : List A} → Reordered (a ∷ (b ∷ l)) (b ∷ (a ∷ l))
  behind : {a : A} {l m : List A} → Reordered l m → Reordered (a ∷ l) (a ∷ m)
  again : {l m n : List A} → Reordered l m → Reordered m n → Reordered l n

module _ {A : Type 0} (key : A → ℕ) where
  -- The element, before the first whose key is no smaller.
  unfoldable pub insert_by_key : A → List A → List A
  insert_by_key a [] = a ∷ []
  insert_by_key a (b ∷ l) =
      let rest = insert_by_key a l in if leb (key a) (key b) then a ∷ (b ∷ l) else b ∷ rest

  -- `sort_by_key`: by the key, equal keys in their order
  unfoldable pub sort_by_key : List A → List A
  unfolding insert_by_key
  sort_by_key [] = []
  sort_by_key (a ∷ l) = insert_by_key a (sort_by_key l)

  -- No two elements have one key.
  abbrev pub DistinctKeys : List A → Type 0
  DistinctKeys [] = Unit
  DistinctKeys (a ∷ l) = All (λ b. key a ≢ key b) l × DistinctKeys l

  insert_comm :
      (a b : A) (l : List A)
      → key a ≢ key b
      → insert_by_key a (insert_by_key b l) ≡ insert_by_key b (insert_by_key a l)
  unfolding insert_by_key
  insert_comm a b [] ne = ground arith
  insert_comm a b (c ∷ l) ne = ground (arith, insert_comm a b l ne)

  Reordered-All : {l m : List A} (P : A → Type 0) → Reordered l m → All P l → All P m
  Reordered-All P same h = h
  Reordered-All P swapped (x, (y, h)) = (y, (x, h))
  Reordered-All P (behind d) (x, h) = (x, Reordered-All P d h)
  Reordered-All P (again d e) h = Reordered-All P e (Reordered-All P d h)

  Reordered-DistinctKeys : {l m : List A} → Reordered l m → DistinctKeys l → DistinctKeys m
  Reordered-DistinctKeys same h = h
  Reordered-DistinctKeys swapped ((ne, x), (y, h)) = ((λ e. ne (sym e), y), (x, h))
  Reordered-DistinctKeys (behind {a} d) (x, h) =
      (Reordered-All (λ c. key a ≢ key c) d x, Reordered-DistinctKeys d h)
  Reordered-DistinctKeys (again d e) h = Reordered-DistinctKeys e (Reordered-DistinctKeys d h)

  -- The sorted list does not depend on the order, if the keys differ.
  sort_by_key_reordered :
      {l m : List A} → Reordered l m → DistinctKeys l → sort_by_key l ≡ sort_by_key m
  unfolding sort_by_key
  sort_by_key_reordered same h = refl
  sort_by_key_reordered (swapped {a} {b} {l}) ((ne, x), (y, h)) = insert_comm a b (sort_by_key l) ne
  sort_by_key_reordered (behind {a} d) (x, h) = ap (insert_by_key a) (sort_by_key_reordered d h)
  sort_by_key_reordered (again d e) h =
      sort_by_key_reordered d h ∙ sort_by_key_reordered e (Reordered-DistinctKeys d h)

abbrev pub period_of : WorkflowActivityScope × Outcome → ℕ
period_of (scope, outcome) = scope.activity_period_id

-- The end of `run_workflow_inner`, given the outcomes in the order in which they came.
unfoldable pub finish_batch :
    Host → ℕ → WorkflowKind → List (WorkflowActivityScope × Outcome) → WorkflowRunResult
unfolding sort_by_key aggregate_activity_outcomes
finish_batch h workflow_run_id kind outcomes =
    aggregate_activity_outcomes h workflow_run_id kind (sort_by_key period_of outcomes)

-- The result of a workflow does not depend on the order in which its activities end, if each
-- activity period is in it once.
pub finish_batch_reordered :
    (h : Host) (workflow_run_id : ℕ) (kind : WorkflowKind)
    (first second : List (WorkflowActivityScope × Outcome))
    → Reordered first second
    → DistinctKeys period_of first
    → finish_batch h workflow_run_id kind first ≡ finish_batch h workflow_run_id kind second
unfolding finish_batch
finish_batch_reordered h workflow_run_id kind first second r distinct =
    ap (aggregate_activity_outcomes h workflow_run_id kind)
      (sort_by_key_reordered period_of r distinct)
