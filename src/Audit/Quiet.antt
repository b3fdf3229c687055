-- ===== src/Audit/Quiet.antt =====
-- What the audits of src/pipeline write to the tables of the service.
use lark_utils_exp.Prelude.{List, [], ◌∷◌, Option, none, some}
use lark_utils_exp.Text.{Text}
use lark_utils_exp.Host.{Host}
use lark_utils_exp.Effects.{Services, in_context, ◌>>=◌}
use lark_utils_exp.Effects.Quiet.{Quiet, quiet_rules, Quiet-bind, Quiet-in_context, Quiet-pure}
use lark_utils_exp.Bitable.Fields.{read_existing-Quiet, read_optional-Quiet}
use lark_utils_exp.Workflow.Results.{
  AuditResultSyncResult, no_audit, merge_audit_result_sync_result,
}
use lark_utils_exp.Audit.Notice.{
  ActivityAuditTableConfig, ActivityAuditNoticeConfig, count_pending_for_table,
  count_pending_for_optional_table, build_pending_audit_info,
}
use lark_utils_exp.Audit.Sync.{
  ActivityAuditResultSyncConfig, sync_table, sync_from, sync_audit_results_to_database,
}

module _ (h : Host) (services : Services) where
  count_pending-Quiet :
      (c : ActivityAuditTableConfig) (field : Text)
      → Quiet (count_pending_for_table h services c field)
  unfolding count_pending_for_table
  count_pending-Quiet c field = search (quiet_rules, read_optional-Quiet)

  count_pending_for_optional_table-Quiet :
      (c : Option ActivityAuditTableConfig) (field : Text)
      → Quiet (count_pending_for_optional_table h services c field)
  unfolding count_pending_for_optional_table
  count_pending_for_optional_table-Quiet none field = search quiet_rules
  count_pending_for_optional_table-Quiet (some c) field = count_pending-Quiet c field

  -- The audit notice only reads: counting what waits writes to no table.
  pub build_pending_audit_info-Quiet :
      (activities : List ActivityAuditNoticeConfig) (field : Text)
      → Quiet (build_pending_audit_info h services activities field)
  unfolding build_pending_audit_info
  build_pending_audit_info-Quiet [] field = search quiet_rules
  build_pending_audit_info-Quiet (a ∷ activities) field =
      Quiet-bind _ _ (Quiet-in_context _ _ (count_pending_for_optional_table-Quiet a.live field))
        (λ live_nums.
          Quiet-bind _ _
            (Quiet-in_context _ _ (count_pending_for_optional_table-Quiet a.video field))
            (λ video_nums.
              Quiet-bind _ _ (build_pending_audit_info-Quiet activities field)
                (λ items. Quiet-pure _)))

  module _ (debug : Option Text → Text) where
    sync_table-Quiet : (c : ActivityAuditResultSyncConfig) → Quiet (sync_table h debug services c)
    unfolding sync_table ◌>>=◌ in_context
    sync_table-Quiet c = search (quiet_rules, read_existing-Quiet)

    sync_from-Quiet :
        (summary : AuditResultSyncResult) (configs : List ActivityAuditResultSyncConfig)
        → Quiet (sync_from h debug services summary configs)
    unfolding sync_from
    sync_from-Quiet summary [] = search quiet_rules
    sync_from-Quiet summary (c ∷ configs) =
        Quiet-bind _ _ (sync_table-Quiet c)
          (λ one. sync_from-Quiet (merge_audit_result_sync_result summary one) configs)

    -- The sync of audit results writes to the database alone, and to no table of the service, whether
    -- it succeeds or fails.
    pub sync_audit_results_to_database-Quiet :
        (configs : List ActivityAuditResultSyncConfig)
        → Quiet (sync_audit_results_to_database h debug services configs)
    unfolding sync_audit_results_to_database
    sync_audit_results_to_database-Quiet configs = sync_from-Quiet no_audit configs
