-- ===== src/TableSync/Steps.antt =====
-- The steps of src/pipeline/table_sync.rs. The fields of `TableSyncContext` that no step assigns are
-- parameters.
use lark_utils_exp.Prelude.{
  ℕ, List, [], true, not, ◌&&◌, Option, none, some, is_nil, if◌then◌else◌, length,
}
use lark_utils_exp.Text.{Text, text}
use lark_utils_exp.Host.{Host}
use lark_utils_exp.Error.{unmatched_key, unmatched_audit_key, with_context}
use lark_utils_exp.Effects.{
  persist, Services, Io, pure, raise, lift, perform, in_context, ◌>>=◌, ◌>>◌,
}
use lark_utils_exp.Bitable.Actions.{
  read_existing_records_with_retry, read_optional_records_with_retry, batch_update_records,
  batch_create_records,
}
use lark_utils_exp.Sheets.Read.{read_first_sheet_rows}
use lark_utils_exp.Sync.Rules.{FieldValueRules}
use lark_utils_exp.Sync.Rows.{
  BitableRecord, Index, parse_bitable_records_as_source_rows, index_existing_records,
}
use lark_utils_exp.Sync.Plan.{no_plan, build_upsert_plan}
use lark_utils_exp.TableSync.{
  spreadsheet_and_manual, manual_only, attach_data_source, merge_source_rows,
  collect_audit_source_rows, parse_spreadsheet_source_rows, spreadsheet_owned_keys,
  build_audit_sync_records,
}
use lark_utils_exp.TableSync.Context.{
  TableSyncConfig, Context, retain_source_rows, retain_audit_rows,
}

-- `fuel` bounds the pages of a field list.
module _ (h : Host) (services : Services) (fuel : ℕ) (config : TableSyncConfig)
    (rules : FieldValueRules) (app_token : Text) (spreadsheet_token : Option Text) where
  -- ReadSourceSheetStep
  unfoldable pub read_source_sheet : Context → Io Context
  read_source_sheet ctx = elim spreadsheet_token [
    | none ↦ pure ctx
    | some token ↦
        in_context (text "读取 Sheet 数据失败") (read_first_sheet_rows services token) >>= λ rows.
        pure (record ctx { sheet_rows = rows })
  ]

  -- ReadManualRecordsStep
  unfoldable pub read_manual_records : Context → Io Context
  read_manual_records ctx = elim config.manual_table_id [
    | none ↦ pure ctx
    | some table ↦
        in_context (text "读取手动登记表记录失败")
          (read_optional_records_with_retry services h app_token table)
        >>= λ records. pure (record ctx { manual_records = records })
  ]

  -- BuildSourceRowsStep
  unfoldable pub build_source_rows : Context → Io Context
  build_source_rows ctx = do
    let rule = config.sync_rule
    spreadsheet_rows ← lift (
        parse_spreadsheet_source_rows h config.source_mode ctx.sheet_rows config.unique_key_field
          rules)
    manual_rows ← lift (
        with_context (text "解析手动登记表记录失败")
          (parse_bitable_records_as_source_rows h rules config.unique_key_field ctx.manual_records))
    let merged =
        merge_source_rows
          (attach_data_source spreadsheet_rows rule.data_source_field rule.spreadsheet_source_value)
          (attach_data_source manual_rows rule.data_source_field rule.manual_source_value)
          rule.manual_overrides_spreadsheet
    pure (record ctx {
      sheet_rows = [];
      manual_records = [];
      source_rows = merged;
      audit_source_rows = collect_audit_source_rows h merged rule.data_source_field;
    })

  -- The index of the records read; an empty index of records that are there is refused.
  abbrev indexed : Context → List BitableRecord → Index → Io Context
  indexed ctx records index =
      if not (is_nil records) && is_nil index
      then raise (unmatched_key (length records) config.unique_key_field)
      else pure (record ctx {
        existing_main_loaded = true;
        existing_records = records;
        existing_index = index;
      })

  -- fn load_existing_main_records
  unfoldable pub load_existing_main_records : Context → Io Context
  load_existing_main_records ctx = if ctx.existing_main_loaded then pure ctx else (do
    records ←
        in_context (text "读取多维表格已有记录失败")
          (read_existing_records_with_retry services app_token config.main_table_id)
    index ← lift (
        with_context (text "建立业务主表唯一键索引失败")
          (index_existing_records h config.unique_key_field records))
    indexed ctx records index)

  -- LoadExistingMainRecordsForManualOnlyStep
  unfoldable pub load_existing_for_manual_only : Context → Io Context
  unfolding load_existing_main_records
  load_existing_for_manual_only ctx = elim config.source_mode [
    | manual_only ↦ load_existing_main_records ctx
    | spreadsheet_and_manual ↦ pure ctx
  ]

  -- What PreserveExistingSpreadsheetRowsStep does to the context. With no such keys it would keep
  -- all rows, as the early return does.
  unfoldable pub preserved : Context → Context
  unfolding retain_source_rows retain_audit_rows
  preserved ctx =
      let owned = spreadsheet_owned_keys h config.sync_rule ctx.existing_index in
      if is_nil owned then ctx else record ctx {
        source_rows = retain_source_rows owned ctx.source_rows;
        audit_source_rows = retain_audit_rows owned ctx.audit_source_rows;
      }

  -- PreserveExistingSpreadsheetRowsStep
  unfoldable pub preserve_existing_spreadsheet_rows : Context → Io Context
  unfolding preserved
  preserve_existing_spreadsheet_rows ctx = elim config.source_mode [
    | manual_only ↦ pure (preserved ctx)
    | spreadsheet_and_manual ↦ pure ctx
  ]

  -- PersistMergedRecordsStep; the conversion of the rows belongs to the repository here.
  unfoldable pub persist_merged_records : Context → Io Context
  persist_merged_records ctx =
      if config.db_sync
      then (in_context (text "合并后数据写入业务数据库失败")
            (perform (persist ctx.source_rows) (λ log. services.store log ctx.source_rows))
          >> pure ctx)
      else pure ctx

  -- BuildMainUpsertPlanStep
  unfoldable pub build_main_upsert_plan : Context → Io Context
  build_main_upsert_plan ctx = pure (record ctx {
    source_rows = [];
    existing_index = [];
    upsert_plan = build_upsert_plan h rules ctx.source_rows ctx.existing_index;
  })

  -- ApplyMainUpsertPlanStep
  unfoldable pub apply_main_upsert_plan : Context → Io Context
  apply_main_upsert_plan ctx = do
    in_context (text "执行批量更新失败") (
        batch_update_records services fuel app_token config.main_table_id
          ctx.upsert_plan.need_update_records)
    in_context (text "执行批量创建失败") (
        batch_create_records services fuel app_token config.main_table_id
          ctx.upsert_plan.need_create_records)
    pure (record ctx { upsert_plan = no_plan })

  -- The part of SyncAuditTableStep behind its early returns.
  unfoldable pub sync_audit_rows : Text → Context → Io Context
  sync_audit_rows table ctx = do
    records ←
        in_context (text "读取 audit 表已有记录失败")
          (read_existing_records_with_retry services app_token table)
    index ← lift (
        with_context (text "建立 audit 表唯一键索引失败")
          (index_existing_records h config.unique_key_field records))
    if not (is_nil records) && is_nil index
        then raise (unmatched_audit_key (length records) config.unique_key_field)
        else (do
          let plan =
              build_audit_sync_records h config.unique_key_field rules config.sync_rule
                ctx.audit_source_rows index
          in_context (text "audit 表批量更新失败")
              (batch_update_records services fuel app_token table plan.need_update_records)
          in_context (text "audit 表批量创建失败")
              (batch_create_records services fuel app_token table plan.need_create_records)
          pure (record ctx { audit_source_rows = [] }))

  -- SyncAuditTableStep
  unfoldable pub sync_audit_table : Context → Io Context
  unfolding sync_audit_rows
  sync_audit_table ctx = elim config.audit_table_id [
    | none ↦ pure ctx
    | some table ↦ if is_nil ctx.audit_source_rows then pure ctx else sync_audit_rows table ctx
  ]
