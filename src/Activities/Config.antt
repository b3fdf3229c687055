-- ===== src/Activities/Config.antt =====
-- The configuration of activities (src/pipeline/activity.rs).
use lark_utils_exp.Prelude.{Bool, Option}
use lark_utils_exp.Text.{Text}
use lark_utils_exp.TableSync.{ActivityTableSyncSourceMode, ActivityTableSyncRuleConfig}

-- `db_sync` is a flag: whether a repository is configured.
pub record ActivityTableSyncConfig : Type 0 where
  pub bitable_url : Text
  pub spreadsheet_url : Text
  pub source_mode : ActivityTableSyncSourceMode
  pub manual_table_id : Option Text
  pub main_table_id : Text
  pub audit_table_id : Option Text
  pub sync_rule : ActivityTableSyncRuleConfig
  pub db_sync : Bool

pub record ActivitySyncConfig : Type 0 where
  pub period : Text
  pub live : Option ActivityTableSyncConfig
  pub video : Option ActivityTableSyncConfig
