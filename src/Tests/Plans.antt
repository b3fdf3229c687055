-- ===== src/Tests/Plans.antt =====
-- Runs of the merge, the upsert plan and the audit plan.
use lark_utils_exp.Prelude.{List, [], ◌∷◌, true, false, none, some, ok, All, ◌≡◌, refl, arith}
use lark_utils_exp.Text.{Text, text, text_eq}
use lark_utils_exp.Text.Order.{text_eq_iff}
use lark_utils_exp.Json.{string}
use lark_utils_exp.Json.Map.{get}
use lark_utils_exp.Sync.Rules.{no_rules, contains}
use lark_utils_exp.Sync.Rows.{ExistingRecordIndexItem, lookup}
use lark_utils_exp.Sync.Rows.Keys.{Distinct, keys}
use lark_utils_exp.Sync.Plan.{build_upsert_plan, diff_fields}
use lark_utils_exp.Sync.Plan.Diff.{merged, get-diff_fields}
use lark_utils_exp.Sync.Plan.Partition.{IsPlanOf, build_upsert_plan-IsPlanOf}
use lark_utils_exp.Sync.Plan.Updates.{HasOwnRecords, update_ids, build_upsert_plan-Distinct}
use lark_utils_exp.TableSync.{
  AuditSourceRow, manual_only, default_rule, merge_source_rows, build_audit_sync_records,
  is_spreadsheet_owned,
}
use lark_utils_exp.TableSync.Context.{TableSyncConfig, Context}
use lark_utils_exp.TableSync.Merge.{merge_source_rows-keeps, merge_source_rows-overrides}
use lark_utils_exp.TableSync.Merge.Found.{find_row, or_else}
use lark_utils_exp.TableSync.Audit.{
  IsApproval, IsCreation, IsAudited, build_audit_sync_records-IsApproval,
  build_audit_sync_records-IsAudited,
}
use lark_utils_exp.TableSync.Owned.{preserve_and_plan, manual_only-spares}
use lark_utils_exp.Tests.Data.{
  host, services, id, row, sheet_rows, manual_rows, a_item, index, config, context,
}

sheet_rows-Distinct : Distinct (keys sheet_rows)
unfolding contains text_eq
sheet_rows-Distinct = (refl, (refl, tt))

manual_rows-Distinct : Distinct (keys manual_rows)
unfolding contains text_eq
manual_rows-Distinct = (refl, (refl, tt))

-- Only one key is in the index.
index-HasOwnRecords : HasOwnRecords index
unfolding lookup
index-HasOwnRecords j k a b found found' same =
    ground (arith, text_eq_iff (text "a") j, text_eq_iff (text "a") k)

merge_source_rows-keeps_example :
    find_row (text "b") (merge_source_rows sheet_rows manual_rows false)
    ≡ or_else (find_row (text "b") sheet_rows) (find_row (text "b") manual_rows)
merge_source_rows-keeps_example =
    merge_source_rows-keeps sheet_rows manual_rows (text "b") sheet_rows-Distinct

merge_source_rows-overrides_example :
    find_row (text "b") (merge_source_rows sheet_rows manual_rows true)
    ≡ or_else (find_row (text "b") manual_rows) (find_row (text "b") sheet_rows)
merge_source_rows-overrides_example =
    merge_source_rows-overrides sheet_rows manual_rows (text "b") sheet_rows-Distinct
      manual_rows-Distinct

build_upsert_plan-IsPlanOf_example :
    IsPlanOf host no_rules index sheet_rows (build_upsert_plan host no_rules sheet_rows index)
build_upsert_plan-IsPlanOf_example = build_upsert_plan-IsPlanOf host no_rules sheet_rows index

build_upsert_plan-Distinct_example :
    Distinct (update_ids (build_upsert_plan host no_rules sheet_rows index))
build_upsert_plan-Distinct_example =
    build_upsert_plan-Distinct host no_rules sheet_rows index index-HasOwnRecords
      sheet_rows-Distinct

get-diff_fields_example :
    get id (diff_fields host no_rules a_item.fields (row (text "a") (text "x")).fields)
    ≡ merged host no_rules a_item.fields id (get id (row (text "a") (text "x")).fields) none
unfolding contains text_eq
get-diff_fields_example =
    get-diff_fields host no_rules a_item.fields (row (text "a") (text "x")).fields id
      (refl, (refl, tt))

abbrev manual_config : TableSyncConfig
manual_config = record config { source_mode = manual_only }

manual_only-spares_example :
    (end : Context) × (preserve_and_plan host services 9 manual_config no_rules
        (text "app")
        none
        context
        []
      ≡ (ok end, []))
    × (contains (update_ids end.upsert_plan) (text "rec1") ≡ false)
unfolding lookup text_eq is_spreadsheet_owned lark_utils_exp.Sync.Rows.find_field_value_by_name
    lark_utils_exp.Sync.Rows.same_field lark_utils_exp.Sync.Values.normalize_field_name
    lark_utils_exp.Text.replace lark_utils_exp.Text.contains_char lark_utils_exp.Text.trim
    lark_utils_exp.Text.trim_start lark_utils_exp.Text.trim_end lark_utils_exp.Text.is_whitespace
    lark_utils_exp.Sync.Values.value_to_plain_string lark_utils_exp.Text.clean_text
    lark_utils_exp.Text.split_whitespace lark_utils_exp.Text.split_first lark_utils_exp.Text.join
    lark_utils_exp.Json.Map.get
manual_only-spares_example =
    manual_only-spares host services 9 manual_config no_rules (text "app") none context []
      (text "a") a_item refl index-HasOwnRecords refl refl

abbrev audit_rows : List AuditSourceRow
audit_rows =
    record { unique_key = text "a"; data_source = some (text "手动登记") }
    ∷ (record { unique_key = text "b"; data_source = some (text "星图数据") } ∷ [])

build_audit_sync_records-IsApproval_example :
    All
      (IsApproval host id no_rules default_rule index audit_rows)
      (build_audit_sync_records host id no_rules default_rule audit_rows index).need_update_records
    × All
        (IsCreation host id no_rules default_rule index audit_rows)
        (build_audit_sync_records host id no_rules default_rule audit_rows
          index).need_create_records
build_audit_sync_records-IsApproval_example =
    build_audit_sync_records-IsApproval host id no_rules default_rule index audit_rows

build_audit_sync_records-IsAudited_example :
    All
      (IsAudited host id no_rules default_rule index
        (build_audit_sync_records host id no_rules default_rule audit_rows index))
      audit_rows
build_audit_sync_records-IsAudited_example =
    build_audit_sync_records-IsAudited host id no_rules default_rule index audit_rows
