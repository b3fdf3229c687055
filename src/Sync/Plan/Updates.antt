-- ===== src/Sync/Plan/Updates.antt =====
-- The records that `build_upsert_plan` of src/pipeline/sync.rs updates.
use lark_utils_exp.Prelude.{
  List, [], ◌∷◌, false, some, Bool-cases, Option-cases, inl, inr, ◌≡◌, refl, arith, map,
}
use lark_utils_exp.Text.{Text, text_eq}
use lark_utils_exp.Text.Order.{text_eq_iff, text_eq_refl}
use lark_utils_exp.Json.{Map}
use lark_utils_exp.Host.{Host}
use lark_utils_exp.Sync.Rules.{FieldValueRules, contains}
use lark_utils_exp.Sync.Rows.{SourceRow, ExistingRecordIndexItem, Index, lookup}
use lark_utils_exp.Sync.Rows.Keys.{Distinct, keys}
use lark_utils_exp.Sync.Plan.{UpsertPlan, with_update, diff_fields, plan_row, build_upsert_plan}

abbrev pub update_ids : UpsertPlan → List Text
update_ids plan = map (λ u. u.record_id) plan.need_update_records

-- No two keys of the index lead to one record.
abbrev pub HasOwnRecords : Index → Type 0
HasOwnRecords index =
    (j k : Text) (a b : ExistingRecordIndexItem)
    → lookup j index ≡ some a
    → lookup k index ≡ some b
    → a.record_id ≡ b.record_id
    → j ≡ k

module _ (h : Host) (rules : FieldValueRules) (index : Index) where
  contains-with_update :
      (id k : Text) (changed : Map) (plan : UpsertPlan)
      → text_eq id k ≡ false
      → contains (update_ids plan) k ≡ false
      → contains (update_ids (with_update h rules id changed plan)) k ≡ false
  unfolding contains
  contains-with_update id k [] plan ne e = e
  contains-with_update id k (c ∷ changed) plan ne e = ground arith

  Distinct-with_update :
      (id : Text) (changed : Map) (plan : UpsertPlan)
      → contains (update_ids plan) id ≡ false
      → Distinct (update_ids plan)
      → Distinct (update_ids (with_update h rules id changed plan))
  Distinct-with_update id [] plan new d = d
  Distinct-with_update id (c ∷ changed) plan new d = (new, d)

  -- The record of a key that no row has is not in the plan.
  pub build_upsert_plan-spares :
      (rows : List SourceRow) (key : Text) (item : ExistingRecordIndexItem)
      → HasOwnRecords index
      → lookup key index ≡ some item
      → contains (keys rows) key ≡ false
      → contains (update_ids (build_upsert_plan h rules rows index)) item.record_id ≡ false
  unfolding build_upsert_plan plan_row contains
  build_upsert_plan-spares [] key item own l new = refl
  build_upsert_plan-spares (row ∷ rows) key item own l new =
      elim (Option-cases (lookup row.unique_key index)) [
        | inl e ↦ rw (e, plan_row) (build_upsert_plan-spares rows key item own l (ground arith))
        | inr (other, e) ↦ elim (Bool-cases (text_eq other.record_id item.record_id)) [
          | inl same ↦ absurd (
              ground (
                arith,
                own row.unique_key key other item e l ((text_eq_iff _ _).0 same),
                text_eq_refl key,
              ))
          | inr ne ↦
              rw (e, plan_row)
                (contains-with_update other.record_id item.record_id
                  (diff_fields h rules other.fields row.fields)
                  (build_upsert_plan h rules rows index) ne
                  (build_upsert_plan-spares rows key item own l (ground arith)))
        ]
      ]

  update_ids-Distinct :
      (rows : List SourceRow)
      → HasOwnRecords index
      → Distinct (keys rows)
      → Distinct (update_ids (build_upsert_plan h rules rows index))
  unfolding build_upsert_plan plan_row
  update_ids-Distinct [] own d = tt
  update_ids-Distinct (row ∷ rows) own (new, d) =
      elim (Option-cases (lookup row.unique_key index)) [
        | inl e ↦ rw (e, plan_row) (update_ids-Distinct rows own d)
        | inr (item, e) ↦
            rw (e, plan_row)
              (Distinct-with_update item.record_id (diff_fields h rules item.fields row.fields)
                (build_upsert_plan h rules rows index)
                (build_upsert_plan-spares rows row.unique_key item own e new)
                (update_ids-Distinct rows own d))
      ]

-- No record is updated twice in one plan, where the rows' keys are distinct and no two keys of the
-- index lead to one record.
pub build_upsert_plan-Distinct :
    (h : Host) (rules : FieldValueRules) (rows : List SourceRow) (index : Index)
    → HasOwnRecords index
    → Distinct (keys rows)
    → Distinct (update_ids (build_upsert_plan h rules rows index))
build_upsert_plan-Distinct h rules rows index own d = update_ids-Distinct h rules index rows own d
