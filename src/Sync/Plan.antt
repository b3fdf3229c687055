-- ===== src/Sync/Plan.antt =====
-- The upsert plan of the main table (src/pipeline/sync.rs).
pub mod Diff
pub mod Partition
pub mod Updates
pub mod Current
use lark_utils_exp.Prelude.{
  List, [], ◌∷◌, ◌++◌, Bool, true, false, not, Option, none, some, if◌then◌else◌, is_nil,
}
use lark_utils_exp.Text.{Text}
use lark_utils_exp.Json.{Value, string, object, Map, of_fields}
use lark_utils_exp.Json.Map.{insert}
use lark_utils_exp.Host.{Host}
use lark_utils_exp.Sync.Compare.{semantic_equal}
use lark_utils_exp.Sync.Rules.{FieldValueRules, contains, should_skip_field, to_bitable_write_value}
use lark_utils_exp.Sync.Rows.{
  SourceRow, ExistingRecordIndexItem, Index, lookup, find_field_value_by_name,
}

pub record CreateRecordItem : Type 0 where
  pub fields : Value

pub record UpdateRecordItem : Type 0 where
  pub record_id : Text
  pub fields : Value

pub record UpsertPlan : Type 0 where
  pub need_create_records : List CreateRecordItem
  pub need_update_records : List UpdateRecordItem

abbrev pub no_plan : UpsertPlan
no_plan = record { need_create_records = []; need_update_records = [] }

-- the loop of `collect_unique_keys`
unfoldable pub unique_keys_from : List Text → List SourceRow → List Text
unfolding contains
unique_keys_from seen [] = []
unique_keys_from seen (row ∷ rows) = elim (contains seen row.unique_key) [
  | true ↦ unique_keys_from seen rows
  | false ↦ row.unique_key ∷ unique_keys_from (row.unique_key ∷ seen) rows
]

-- fn collect_unique_keys
unfoldable pub collect_unique_keys : List SourceRow → List Text
unfolding unique_keys_from
collect_unique_keys rows = unique_keys_from [] rows

-- fn new_create_record
abbrev pub new_create_record : Map → CreateRecordItem
new_create_record m = record { fields = object (of_fields m) }

module _ (h : Host) (rules : FieldValueRules) where
  -- Whether the old fields hold a value of the same meaning under the field's name.
  unfoldable pub is_same_field : Map → Text → Value → Bool
  is_same_field old name new = elim (find_field_value_by_name h old name) [
    | none ↦ false
    | some value ↦ semantic_equal h value new
  ]

  unfoldable pub diff_from : Map → Map → Map → Map
  diff_from old changed [] = changed
  diff_from old changed ((name, new) ∷ more) =
      let keep = should_skip_field h rules name in
      let same = is_same_field old name new in
      diff_from old (if keep then changed else if same then changed else insert name new changed)
        more

  -- fn diff_fields
  unfoldable pub diff_fields : Map → Map → Map
  diff_fields old new = diff_from old [] new

  abbrev with_update : Text → Map → UpsertPlan → UpsertPlan
  with_update id [] plan = plan
  with_update id (c ∷ changed) plan = record plan {
    need_update_records =
        record { record_id = id; fields = object (of_fields (c ∷ changed)) }
        ∷ plan.need_update_records;
  }

  abbrev with_create : Map → UpsertPlan → UpsertPlan
  with_create m plan = record plan {
    need_create_records = new_create_record m ∷ plan.need_create_records;
  }

  -- What one source row adds to the plan of the rows behind it.
  unfoldable pub plan_row : Index → SourceRow → UpsertPlan → UpsertPlan
  plan_row index row plan = elim (lookup row.unique_key index) [
    | some existing ↦ with_update existing.record_id (diff_fields existing.fields row.fields) plan
    | none ↦ with_create row.fields plan
  ]

  -- fn build_upsert_plan
  unfoldable pub build_upsert_plan : List SourceRow → Index → UpsertPlan
  unfolding plan_row
  build_upsert_plan [] index = no_plan
  build_upsert_plan (row ∷ rows) index = plan_row index row (build_upsert_plan rows index)

  -- fn build_missing_key_create_records
  unfoldable pub build_missing_key_create_records : List Text → Index → Text → List CreateRecordItem
  build_missing_key_create_records [] index key_field = []
  build_missing_key_create_records (key ∷ keys) index key_field =
      let later = build_missing_key_create_records keys index key_field in
      elim (lookup key index) [
        | some existing ↦ later
        | none ↦
            new_create_record
              (insert key_field (to_bitable_write_value h rules key_field (string key)) [])
            ∷ later
      ]
