-- ===== src/Tests/Audits.antt =====
-- Runs of the audits on concrete input.
use lark_utils_exp.Prelude.{pos, List, [], ◌∷◌, Option, none, some, All, map, ◌≡◌, refl}
use lark_utils_exp.Text.{Text, text}
use lark_utils_exp.Json.{Value, null, number, int, string, object, field, end}
use lark_utils_exp.Sync.Rows.{BitableRecord}
use lark_utils_exp.Effects.Quiet.{Quiet}
use lark_utils_exp.Audit.Merge.{skips, AgreesRound, Ascending}
use lark_utils_exp.Audit.Reviews.{
  AuditResultUpdate, same_update, conflicting, review_round, collect_reviewed_audit_results,
  collect_reviewed_audit_results-Agrees,
}
use lark_utils_exp.Audit.Notice.{is_pending_audit_record}
use lark_utils_exp.Audit.Pending.{review_round-pending}
use lark_utils_exp.Audit.Sync.{ActivityAuditResultSyncConfig, live, sync_audit_results_to_database}
use lark_utils_exp.Audit.Quiet.{sync_audit_results_to_database-Quiet}
use lark_utils_exp.Tests.Data.{host, services}

abbrev debug : Option Text → Text
debug none = text "None"
debug (some t) = t

abbrev record_of : Text → Value → BitableRecord
record_of id result = record {
  record_id = text "rec";
  fields = object (field (text "id") (string id) (field (text "result") result end));
}

abbrev records : List BitableRecord
records = record_of (text "b") (string (text "pass")) ∷ (record_of (text "a") null ∷ [])

abbrev reviewed : List AuditResultUpdate
reviewed =
    record {
      unique_key = text "b";
      audit_result = text "pass";
      label = none;
      audit_extra = object end;
    }
    ∷ []

collect_reviewed_audit_results-Agrees_example :
    All
      (AgreesRound (λ u. u.unique_key) same_update (conflicting host debug) reviewed)
      (map (review_round host debug (text "id") (text "result")) records)
    × Ascending (λ u. u.unique_key) same_update (conflicting host debug) reviewed
unfolding collect_reviewed_audit_results lark_utils_exp.Sync.Values.normalize_field_name
    lark_utils_exp.Sync.Rows.same_field lark_utils_exp.Sync.Rows.find_field_value_by_name
    lark_utils_exp.Text.text_eq lark_utils_exp.Text.trim lark_utils_exp.Text.clean_text
    lark_utils_exp.Text.is_whitespace
collect_reviewed_audit_results-Agrees_example =
    collect_reviewed_audit_results-Agrees host debug records (text "id") (text "result") reviewed
      refl

review_round-pending_example :
    review_round host debug (text "id") (text "result") (record_of (text "a") null) ≡ skips
unfolding is_pending_audit_record lark_utils_exp.Sync.Values.normalize_field_name
    lark_utils_exp.Sync.Rows.same_field lark_utils_exp.Sync.Rows.find_field_value_by_name
    lark_utils_exp.Text.text_eq lark_utils_exp.Text.trim lark_utils_exp.Text.clean_text
    lark_utils_exp.Text.is_whitespace
review_round-pending_example =
    review_round-pending host debug (text "id") (text "result") (record_of (text "a") null) refl

abbrev wrapped : Value
wrapped =
    object
      (field (text "type") (number (int (pos 1))) (field (text "value") (string (text "x")) end))

abbrev live_table : ActivityAuditResultSyncConfig
live_table = record {
  project_id = 1;
  period = text "p";
  content_config_id = 2;
  content_type = live;
  bitable_url = text "https://x/base/abc";
  audit_table_id = text "tbl";
  audit_result_field = text "result";
}

sync_audit_results_to_database-Quiet_example :
    Quiet (sync_audit_results_to_database host debug services (live_table ∷ []))
sync_audit_results_to_database-Quiet_example =
    sync_audit_results_to_database-Quiet host services debug (live_table ∷ [])
