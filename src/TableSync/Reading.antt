-- ===== src/TableSync/Reading.antt =====
-- The reading steps of src/pipeline/table_sync.rs as actions that write to no
-- table.
use lark_utils_exp.Prelude.{ℕ, Option, ◌≡◌, refl, ◌⊎◌, inl, inr, Option-cases}
use lark_utils_exp.Text.{Text}
use lark_utils_exp.Host.{Host}
use lark_utils_exp.Effects.{Services}
use lark_utils_exp.Effects.Quiet.{
  Quiet, Quiet-pure, Quiet-raise, Quiet-lift, Quiet-if, Quiet-bind, Quiet-in_context,
}
use lark_utils_exp.Bitable.Fields.{read_existing-Quiet, read_optional-Quiet}
use lark_utils_exp.Sheets.Read.{read_first_sheet_rows-Quiet}
use lark_utils_exp.Sync.Rules.{FieldValueRules}
use lark_utils_exp.Pipeline.Runs.{AllQuiet, nil, cons}
use lark_utils_exp.TableSync.{ActivityTableSyncSourceMode, spreadsheet_and_manual, manual_only}
use lark_utils_exp.TableSync.Context.{TableSyncConfig, Context}
use lark_utils_exp.TableSync.Flow.{reading_steps}
use lark_utils_exp.TableSync.Steps.{
  read_source_sheet, read_manual_records, build_source_rows, load_existing_main_records,
  load_existing_for_manual_only, preserve_existing_spreadsheet_rows,
}

mode-cases : (m : ActivityTableSyncSourceMode) → (m ≡ manual_only) ⊎ (m ≡ spreadsheet_and_manual)
mode-cases manual_only = inl refl
mode-cases spreadsheet_and_manual = inr refl

module _ (h : Host) (services : Services) (fuel : ℕ) (config : TableSyncConfig)
    (rules : FieldValueRules) (app_token : Text) (spreadsheet_token : Option Text) where
  read_source_sheet-Quiet :
      (ctx : Context)
      → Quiet (read_source_sheet h services fuel config rules app_token spreadsheet_token ctx)
  unfolding read_source_sheet
  read_source_sheet-Quiet ctx = elim (Option-cases spreadsheet_token) [
    | inl e ↦ rw e (Quiet-pure _)
    | inr (token, e) ↦ rw e (
        Quiet-bind _ _ (Quiet-in_context _ _ (read_first_sheet_rows-Quiet services token))
          (λ rows. Quiet-pure _))
  ]

  read_manual_records-Quiet :
      (ctx : Context)
      → Quiet (read_manual_records h services fuel config rules app_token spreadsheet_token ctx)
  unfolding read_manual_records
  read_manual_records-Quiet ctx = elim (Option-cases config.manual_table_id) [
    | inl e ↦ rw e (Quiet-pure _)
    | inr (table, e) ↦ rw e (
        Quiet-bind _ _ (Quiet-in_context _ _ (read_optional-Quiet services h app_token table))
          (λ rows. Quiet-pure _))
  ]

  build_source_rows-Quiet :
      (ctx : Context)
      → Quiet (build_source_rows h services fuel config rules app_token spreadsheet_token ctx)
  unfolding build_source_rows
  build_source_rows-Quiet ctx =
      Quiet-bind _ _ (Quiet-lift _) (λ a. Quiet-bind _ _ (Quiet-lift _) (λ b. Quiet-pure _))

  load_existing-Quiet :
      (ctx : Context)
      → Quiet
          (load_existing_main_records h services fuel config rules app_token spreadsheet_token ctx)
  unfolding load_existing_main_records
  load_existing-Quiet ctx = Quiet-if ctx.existing_main_loaded _ _ (Quiet-pure _) (
      Quiet-bind _ _ (Quiet-in_context _ _ (read_existing-Quiet services app_token _)) λ records.
        Quiet-bind _ _ (Quiet-lift _) λ index. Quiet-if _ _ _ (Quiet-raise _) (Quiet-pure _))

  load_for_manual-Quiet :
      (ctx : Context)
      → Quiet (
          load_existing_for_manual_only h services fuel config rules app_token spreadsheet_token
            ctx)
  unfolding load_existing_for_manual_only
  load_for_manual-Quiet ctx = elim (mode-cases config.source_mode) [
    | inl e ↦ rw e (load_existing-Quiet ctx)
    | inr e ↦ rw e (Quiet-pure ctx)
  ]

  preserve-Quiet :
      (ctx : Context)
      → Quiet (
          preserve_existing_spreadsheet_rows h services fuel config rules app_token
            spreadsheet_token ctx)
  unfolding preserve_existing_spreadsheet_rows
  preserve-Quiet ctx = elim (mode-cases config.source_mode) [
    | inl e ↦ rw e (Quiet-pure _)
    | inr e ↦ rw e (Quiet-pure ctx)
  ]

  pub reading_steps-AllQuiet :
      AllQuiet (reading_steps h services fuel config rules app_token spreadsheet_token)
  reading_steps-AllQuiet = cons read_source_sheet-Quiet (
      cons read_manual_records-Quiet
        (cons build_source_rows-Quiet (cons load_for_manual-Quiet (cons preserve-Quiet nil))))
