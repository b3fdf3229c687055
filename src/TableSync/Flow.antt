-- ===== src/TableSync/Flow.antt =====
-- The pipeline of src/pipeline/table_sync.rs: the order of its steps, and a run of it.
use lark_utils_exp.Prelude.{
  ℕ, List, [], ◌∷◌, ◌++◌, true, false, Option, none, some, ok, err, panic, unfinished,
}
use lark_utils_exp.Text.{Text, text}
use lark_utils_exp.Host.{Host}
use lark_utils_exp.Error.{Fallible, with_context}
use lark_utils_exp.Effects.{Services, Io, pure, lift, ◌>>=◌, ◌>>◌}
use lark_utils_exp.Sheets.Link.{get_spreadsheet_token}
use lark_utils_exp.Sync.Rules.{FieldValueRules}
use lark_utils_exp.Pipeline.{PipelineStep, Pipeline, run}
use lark_utils_exp.TableSync.{reads_spreadsheet}
use lark_utils_exp.TableSync.Context.{TableSyncConfig, Context, empty_context}
use lark_utils_exp.TableSync.Steps.{
  read_source_sheet, read_manual_records, build_source_rows, load_existing_main_records,
  load_existing_for_manual_only, preserve_existing_spreadsheet_rows, persist_merged_records,
  build_main_upsert_plan, apply_main_upsert_plan, sync_audit_table,
}

-- `fuel` bounds the pages of a field list.
module _ (h : Host) (services : Services) (fuel : ℕ) (config : TableSyncConfig)
    (rules : FieldValueRules) (app_token : Text) (spreadsheet_token : Option Text) where
  abbrev step : Text → (Context → Io Context) → PipelineStep Context
  step name f = record { name = name; run = f }

  -- fn build_table_sync_pipeline: the steps up to the database, those that prepare the plan, and
  -- those that write to the tables.
  abbrev pub reading_steps : List (PipelineStep Context)
  reading_steps =
      step (text "read_source_sheet")
        (read_source_sheet h services fuel config rules app_token spreadsheet_token)
      ∷ (step (text "read_manual_records")
            (read_manual_records h services fuel config rules app_token spreadsheet_token)
          ∷ (step (text "build_source_rows")
                (build_source_rows h services fuel config rules app_token spreadsheet_token)
              ∷ (step (text "load_existing_main_records_for_manual_only") (
                    load_existing_for_manual_only h services fuel config rules app_token
                      spreadsheet_token)
                  ∷ (step (text "preserve_existing_spreadsheet_rows") (
                        preserve_existing_spreadsheet_rows h services fuel config rules app_token
                          spreadsheet_token)
                      ∷ []))))

  abbrev pub persist_step : PipelineStep Context
  persist_step =
      step (text "persist_merged_records")
        (persist_merged_records h services fuel config rules app_token spreadsheet_token)

  abbrev pub planning_steps : List (PipelineStep Context)
  planning_steps =
      step (text "load_existing_main_records")
        (load_existing_main_records h services fuel config rules app_token spreadsheet_token)
      ∷ (step (text "build_main_upsert_plan")
            (build_main_upsert_plan h services fuel config rules app_token spreadsheet_token)
          ∷ [])

  abbrev pub writing_steps : List (PipelineStep Context)
  writing_steps =
      step (text "apply_main_upsert_plan")
        (apply_main_upsert_plan h services fuel config rules app_token spreadsheet_token)
      ∷ (step (text "sync_audit_table")
            (sync_audit_table h services fuel config rules app_token spreadsheet_token)
          ∷ [])

  unfoldable pub build_table_sync_pipeline : Pipeline Context
  build_table_sync_pipeline = record {
    name = config.pipeline_name;
    steps = reading_steps ++ (persist_step ∷ (planning_steps ++ writing_steps));
  }

-- TableSyncContext::new: the tokens
abbrev spreadsheet_token_of : Host → TableSyncConfig → Fallible (Option Text)
spreadsheet_token_of h config = elim (reads_spreadsheet config.source_mode) [
  | false ↦ ok none
  | true ↦
      elim (with_context (text "解析电子表格 spreadsheet_token 失败")
        (get_spreadsheet_token h config.spreadsheet_url)) [
          | ok token ↦ ok (some token)
          | err e ↦ err e
          | panic ↦ panic
          | unfinished ↦ unfinished
        ]
]

-- fn run_table_sync_pipeline
unfoldable pub run_table_sync_pipeline :
    Host → Services → ℕ → TableSyncConfig → FieldValueRules → Io (Unit {0})
run_table_sync_pipeline h services fuel config rules = do
  app_token ←
      lift (with_context (text "解析多维表格 app_token 失败") (get_spreadsheet_token h config.bitable_url))
  spreadsheet_token ← lift (spreadsheet_token_of h config)
  run (build_table_sync_pipeline h services fuel config rules app_token spreadsheet_token)
      empty_context
  pure tt
