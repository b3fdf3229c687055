-- ===== src/Tests/Runs.antt =====
-- Runs of the reads, the batched writes, the pipelines and the activities.
use lark_utils_exp.Prelude.{
  false, arith, ℕ, ◌+◌, List, [], ◌∷◌, ◌++◌, none, ok, err, ◌≡◌, ◌↔◌, refl, length,
}
use lark_utils_exp.Text.{Text, text}
use lark_utils_exp.Error.{Error, message, Fallible, context}
use lark_utils_exp.Effects.{
  Log, batch_update, batch_create, field_list, sleep, raise, perform, attempt, in_context, ◌>>=◌,
}
use lark_utils_exp.Sync.Rules.{no_rules}
use lark_utils_exp.Sync.Plan.{UpdateRecordItem, CreateRecordItem}
use lark_utils_exp.Bitable.{BitableFieldPage}
use lark_utils_exp.Bitable.Actions.{field_page, read_bitable_field_names}
use lark_utils_exp.Bitable.Pages.{names_of, last, read_bitable_field_names-Listing}
use lark_utils_exp.Bitable.Actions.{
  batch_update_records, batch_create_records, read_existing_records_with_retry,
}
use lark_utils_exp.Bitable.Retry.{
  IsErr, Fails, after_failure, read_existing_records_with_retry-IsErr,
}
use lark_utils_exp.Bitable.Writes.{HasSent, batch_update_records-HasSent}
use lark_utils_exp.Pipeline.{PipelineStep, run}
use lark_utils_exp.TableSync.Context.{empty_context}
use lark_utils_exp.TableSync.Flow.{build_table_sync_pipeline, run_table_sync_pipeline}
use lark_utils_exp.TableSync.Safety.{IsStoredFirst, rest_of, run-IsStoredFirst}
use lark_utils_exp.Activities.{run_single_activity_sync, activity_failure, run_sync_data_step}
use lark_utils_exp.Activities.Order.{run_sync_data_step-err}
use lark_utils_exp.Tests.Data.{
  host, id, linkless, listed, services, fields_of, config, no_tables, one_table,
}

abbrev app : Text
app = text "app"

abbrev tbl : Text
tbl = text "tbl"

abbrev updates : List UpdateRecordItem
updates = record { record_id = text "rec1"; fields = fields_of (text "a") (text "x") } ∷ []

abbrev creations : List CreateRecordItem
creations = record { fields = fields_of (text "b") (text "y") } ∷ []

abbrev sent_updates : Log
sent_updates = batch_update app tbl updates ∷ (field_list app tbl none ∷ [])

abbrev sent_creations : Log
sent_creations = batch_create app tbl creations ∷ (field_list app tbl none ∷ [])

batch_update_records-HasSent_example : HasSent (batch_update app tbl) updates [] sent_updates
unfolding batch_update_records ◌>>=◌ in_context
    lark_utils_exp.Bitable.Actions.validate_bitable_write_fields
    lark_utils_exp.Bitable.collect_record_field_names lark_utils_exp.Text.text_compare attempt
    lark_utils_exp.Bitable.Actions.read_bitable_field_names lark_utils_exp.Bitable.chunks
batch_update_records-HasSent_example =
    batch_update_records-HasSent services 9 app tbl updates [] sent_updates refl

read_existing_records_with_retry-IsErr_example :
    IsErr (read_existing_records_with_retry services app tbl []).0 ↔ (
      Fails services app tbl []
      × Fails services app tbl (after_failure services app tbl 1 [])
      × Fails services app tbl
          (after_failure services app tbl 2 (after_failure services app tbl 1 [])))
read_existing_records_with_retry-IsErr_example =
    read_existing_records_with_retry-IsErr services app tbl []

abbrev counting : List (PipelineStep ℕ)
counting = record { name = text "count"; run = λ n. perform (sleep n) (λ log. ok (n + 1)) } ∷ []

abbrev failing : List (PipelineStep ℕ)
failing = record { name = text "fail"; run = λ n. raise (message (text "failed")) } ∷ []

run-IsStoredFirst_example :
    IsStoredFirst services
      (rest_of host services 9 config no_rules app none refl)
      []
      (run (build_table_sync_pipeline host services 9 config no_rules app none) empty_context [])
run-IsStoredFirst_example =
    run-IsStoredFirst host services 9 config no_rules app none refl empty_context []

abbrev error_of : Fallible (Unit {0}) → Error
error_of (err e) = e
error_of r = message []

abbrev link_error : Error
link_error = error_of (run_single_activity_sync linkless services 9 one_table []).0

run_sync_data_step-err_example :
    run_sync_data_step linkless services 9 ((no_tables ∷ []) ++ (one_table ∷ (no_tables ∷ []))) []
    ≡ (
      err (
          context
            (activity_failure linkless services 9 (length (no_tables ∷ [])) one_table)
            link_error),
      [],
    )
unfolding run_sync_data_step ◌>>=◌ in_context lark_utils_exp.Activities.Video.run_video_sync
    run_table_sync_pipeline lark_utils_exp.Sheets.Link.get_spreadsheet_token
run_sync_data_step-err_example =
    run_sync_data_step-err linkless services 9 (no_tables ∷ []) one_table (no_tables ∷ [])
      link_error [] [] [] refl refl

abbrev page : BitableFieldPage
page = record { field_names = id ∷ []; has_more = false; page_token = none }

read_bitable_field_names-Listing_example :
    read_bitable_field_names listed 1 app tbl []
    ≡ (ok (names_of [] (page ∷ [])), field_list app tbl none ∷ [])
unfolding field_page lark_utils_exp.Bitable.parse_bitable_field_page ◌>>=◌ in_context perform
    lark_utils_exp.Effects.lift lark_utils_exp.Json.Map.get lark_utils_exp.Text.text_eq
    lark_utils_exp.Text.trim lark_utils_exp.Text.trim_start lark_utils_exp.Text.trim_end
    lark_utils_exp.Text.is_whitespace
read_bitable_field_names-Listing_example =
    read_bitable_field_names-Listing listed app tbl 1 (page ∷ []) [] (field_list app tbl none ∷ [])
      (last {page = page} {token = none} {log = []} {end = field_list app tbl none ∷ []} refl refl)
      (omega arith)
