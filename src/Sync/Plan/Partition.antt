-- ===== src/Sync/Plan/Partition.antt =====
-- The plan of `build_upsert_plan` (src/pipeline/sync.rs), row by row.
use lark_utils_exp.Prelude.{
  List, [], ◌∷◌, Bool, true, false, map, none, some, Option-cases, inl, inr, ◌≡◌, ◌≢◌, refl, ap,
  subst,
}
use lark_utils_exp.Json.{Map, object, of_fields}
use lark_utils_exp.Host.{Host}
use lark_utils_exp.WorkflowRun.Sql.{rows_where}
use lark_utils_exp.Sync.Rules.{FieldValueRules}
use lark_utils_exp.Sync.Rows.{SourceRow, ExistingRecordIndexItem, Index, lookup}
use lark_utils_exp.Sync.Plan.{
  UpdateRecordItem, UpsertPlan, with_update, diff_fields, plan_row, build_upsert_plan,
}

abbrev pub is_missing : Index → SourceRow → Bool
is_missing index row = elim (lookup row.unique_key index) [ none ↦ true | some item ↦ false ]

missing-rows :
    (index : Index) (row : SourceRow) (rows : List SourceRow)
    → lookup row.unique_key index ≡ none
    → rows_where (is_missing index) (row ∷ rows) ≡ row ∷ rows_where (is_missing index) rows
unfolding rows_where
missing-rows index row rows e =
    let q : is_missing index row ≡ true = rw (e, is_missing) refl in rw q refl

found-rows :
    (index : Index) (row : SourceRow) (rows : List SourceRow) (item : ExistingRecordIndexItem)
    → lookup row.unique_key index ≡ some item
    → rows_where (is_missing index) (row ∷ rows) ≡ rows_where (is_missing index) rows
unfolding rows_where
found-rows index row rows item e =
    let q : is_missing index row ≡ false = rw (e, is_missing) refl in rw q refl

module _ (h : Host) (rules : FieldValueRules) (index : Index) where
  -- The updates that rows ask for, in their order: one for each row whose key has a record with a
  -- difference, by that difference, and none for any other row.
  pub data Updates : List SourceRow → List UpdateRecordItem → Type 0 where
    nothing : Updates [] []
    changed :
        {row : SourceRow} {rows : List SourceRow} {us : List UpdateRecordItem}
        (item : ExistingRecordIndexItem)
        → lookup row.unique_key index ≡ some item
        → diff_fields h rules item.fields row.fields ≢ []
        → Updates rows us
        → Updates (row ∷ rows) (
            record {
              record_id = item.record_id;
              fields = object (of_fields (diff_fields h rules item.fields row.fields));
            }
            ∷ us)
    passed :
        {row : SourceRow} {rows : List SourceRow} {us : List UpdateRecordItem}
        → ((item : ExistingRecordIndexItem)
            → lookup row.unique_key index ≡ some item
            → diff_fields h rules item.fields row.fields ≡ [])
        → Updates rows us
        → Updates (row ∷ rows) us

  -- The whole plan: the rows without a record are created, with all their fields and in their
  -- order, and the updates are those that the rows ask for.
  abbrev pub IsPlanOf : List SourceRow → UpsertPlan → Type 0
  IsPlanOf rows plan =
      (plan.need_create_records
        ≡ map (λ row. record { fields = object (of_fields row.fields) })
            (rows_where (is_missing index) rows))
      × Updates rows plan.need_update_records

  found_once :
      (row : SourceRow) (item other : ExistingRecordIndexItem)
      → lookup row.unique_key index ≡ some item
      → lookup row.unique_key index ≡ some other
      → other ≡ item
  found_once row item other e l = cc

  changed_by :
      (row : SourceRow) (rows : List SourceRow) (item : ExistingRecordIndexItem) (changes : Map)
      (us : List UpdateRecordItem)
      → lookup row.unique_key index ≡ some item
      → diff_fields h rules item.fields row.fields ≡ changes
      → changes ≢ []
      → Updates rows us
      → Updates
          (row ∷ rows)
          (record { record_id = item.record_id; fields = object (of_fields changes) } ∷ us)
  changed_by row rows item changes us e d some_change updates =
      subst
        (λ m.
          Updates (row ∷ rows)
            (record { record_id = item.record_id; fields = object (of_fields m) } ∷ us))
        d (changed item e (λ n. some_change (rw d at n)) updates)

  IsPlanOf-with_update :
      (row : SourceRow) (rows : List SourceRow) (item : ExistingRecordIndexItem) (changes : Map)
      (plan : UpsertPlan)
      → lookup row.unique_key index ≡ some item
      → diff_fields h rules item.fields row.fields ≡ changes
      → IsPlanOf rows plan
      → IsPlanOf (row ∷ rows) (with_update h rules item.record_id changes plan)
  IsPlanOf-with_update row rows item [] plan e d (creates, updates) = (
    rw (found-rows index row rows item e) creates,
    passed {row = row} (λ other l. rw (found_once row item other e l) d) updates,
  )
  IsPlanOf-with_update row rows item (c ∷ changes) plan e d (creates, updates) = (
    rw (found-rows index row rows item e) creates,
    changed_by row rows item (c ∷ changes) _ e d (λ n. cc) updates,
  )

  IsPlanOf-plan_row :
      (row : SourceRow) (rows : List SourceRow) (plan : UpsertPlan)
      → IsPlanOf rows plan
      → IsPlanOf (row ∷ rows) (plan_row h rules index row plan)
  unfolding plan_row
  IsPlanOf-plan_row row rows plan (creates, updates) =
      elim (Option-cases (lookup row.unique_key index)) [
        | inl e ↦
            rw (e, plan_row, missing-rows index row rows e)
              (
                ap (λ cs. record { fields = object (of_fields row.fields) } ∷ cs) creates,
                passed (λ item l. let q = rw e at l in cc) updates,
              )
        | inr (item, e) ↦
            rw (e, plan_row) (IsPlanOf-with_update row rows item _ plan e refl (creates, updates))
      ]

  rows-IsPlanOf : (rows : List SourceRow) → IsPlanOf rows (build_upsert_plan h rules rows index)
  unfolding build_upsert_plan rows_where
  rows-IsPlanOf [] = (refl, nothing)
  rows-IsPlanOf (row ∷ rows) =
      IsPlanOf-plan_row row rows (build_upsert_plan h rules rows index) (rows-IsPlanOf rows)

-- The plan is exactly this: its creations are the rows whose key has no record, each once, in their
-- order and with all their fields; its updates are the differences of the rows whose key has a
-- record that differs, each once and in their order, and a row without a difference has no update.
pub build_upsert_plan-IsPlanOf :
    (h : Host) (rules : FieldValueRules) (rows : List SourceRow) (index : Index)
    → IsPlanOf h rules index rows (build_upsert_plan h rules rows index)
build_upsert_plan-IsPlanOf h rules rows index = rows-IsPlanOf h rules index rows
