-- ===== src/Audit/Sync.antt =====
-- `sync_audit_results_to_database` of src/pipeline/audit_result_sync.rs.
use lark_utils_exp.Prelude.{ℕ, List, [], ◌∷◌, ◌++◌, Option, length}
use lark_utils_exp.Text.{Text, text}
use lark_utils_exp.Host.{Host}
use lark_utils_exp.Sheets.Link.{get_spreadsheet_token}
use lark_utils_exp.Effects.{
  Services, Io, pure, lift, perform, in_context, update_audit_results, ◌>>=◌,
}
use lark_utils_exp.Bitable.Actions.{read_existing_records_with_retry}
use lark_utils_exp.Activities.Live.{live_unique_key_field}
use lark_utils_exp.Activities.Video.{video_unique_key_field}
use lark_utils_exp.Workflow.Results.{
  AuditResultSyncResult, no_audit, merge_audit_result_sync_result,
}
use lark_utils_exp.Audit.Reviews.{collect_reviewed_audit_results}

-- `XingtuContentType` of src/xingtu/activity_config.rs
pub data XingtuContentType : Type 0 where
  live video : XingtuContentType

-- XingtuContentType::as_db_value
abbrev pub as_db_value : XingtuContentType → Text
as_db_value live = text "live"
as_db_value video = text "video"

-- fn unique_key_field
abbrev pub unique_key_field_of : XingtuContentType → Text
unique_key_field_of live = live_unique_key_field
unique_key_field_of video = video_unique_key_field

pub record ActivityAuditResultSyncConfig : Type 0 where
  pub project_id : ℕ
  pub period : Text
  pub content_config_id : ℕ
  pub content_type : XingtuContentType
  pub bitable_url : Text
  pub audit_table_id : Text
  pub audit_result_field : Text

module _ (h : Host) (debug : Option Text → Text) (services : Services) where
  abbrev pub of_activity : Text → ActivityAuditResultSyncConfig → Text → Text
  of_activity before c behind =
      before
      ++ (text " `"
          ++ (c.period ++ (text " " ++ (as_db_value c.content_type ++ (text "` " ++ behind)))))

  -- one round of the loop: how many records were read and reviewed, and how many rows were updated
  unfoldable pub sync_table : ActivityAuditResultSyncConfig → Io AuditResultSyncResult
  unfolding get_spreadsheet_token read_existing_records_with_retry collect_reviewed_audit_results
  sync_table c = do
    app_token ←
        in_context (of_activity (text "解析活动") c (text "多维表格 app_token 失败"))
          (lift (get_spreadsheet_token h c.bitable_url))
    records ←
        in_context (of_activity (text "读取活动") c (text "审核表失败"))
          (read_existing_records_with_retry services app_token c.audit_table_id)
    updates ← in_context (of_activity (text "解析活动") c (text "审核结果失败")) (
        lift (
          collect_reviewed_audit_results h debug records (unique_key_field_of c.content_type)
            c.audit_result_field))
    updated ← in_context (of_activity (text "回写活动") c (text "审核结果失败")) (
        perform (update_audit_results c.content_config_id (as_db_value c.content_type) updates)
          (λ log.
            services.update_results log c.content_config_id (as_db_value c.content_type) updates))
    pure (record {
      tables_processed = 1;
      records_read = length records;
      reviewed_records = length updates;
      database_rows_updated = updated;
    })

  unfoldable pub sync_from :
      AuditResultSyncResult → List ActivityAuditResultSyncConfig → Io AuditResultSyncResult
  unfolding sync_table
  sync_from summary [] = pure summary
  sync_from summary (c ∷ configs) =
      sync_table c >>= λ one. sync_from (merge_audit_result_sync_result summary one) configs

  -- fn sync_audit_results_to_database
  unfoldable pub sync_audit_results_to_database :
      List ActivityAuditResultSyncConfig → Io AuditResultSyncResult
  unfolding sync_from
  sync_audit_results_to_database configs = sync_from no_audit configs
