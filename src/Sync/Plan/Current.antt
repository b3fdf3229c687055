-- ===== src/Sync/Plan/Current.antt =====
-- The empty plans of `build_upsert_plan` (src/pipeline/sync.rs).
use lark_utils_exp.Prelude.{[], some, ◌≡◌}
use lark_utils_exp.Text.{Text}
use lark_utils_exp.Host.{Host}
use lark_utils_exp.Sync.Rules.{FieldValueRules}
use lark_utils_exp.Sync.Rows.{SourceRow, ExistingRecordIndexItem, Index, lookup}
use lark_utils_exp.Sync.Plan.{diff_fields}

module _ (h : Host) (rules : FieldValueRules) (index : Index) where
  -- What may stand in a plan without doing anything.
  abbrev pub IsCurrent : SourceRow → Type 0
  IsCurrent row =
      (item : ExistingRecordIndexItem) × (lookup row.unique_key index ≡ some item)
      × (diff_fields h rules item.fields row.fields ≡ [])
