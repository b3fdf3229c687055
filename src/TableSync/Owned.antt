-- ===== src/TableSync/Owned.antt =====
-- The rows of the spreadsheet in a sync in `manual_only` mode (src/pipeline/table_sync.rs).
use lark_utils_exp.Prelude.{
  List, [], ◌∷◌, Bool, true, false, ◌&&◌, not, ℕ, Option, sym, is_nil, some, ◌≡◌, refl, arith,
  Bool-cases, inl, inr, ok,
}
use lark_utils_exp.Text.{Text}
use lark_utils_exp.Text.Order.{text_eq_iff}
use lark_utils_exp.Host.{Host}
use lark_utils_exp.Effects.{Services, Log, Io, pure, ◌>>=◌}
use lark_utils_exp.Sync.Rules.{FieldValueRules, contains}
use lark_utils_exp.Sync.Rows.{SourceRow, ExistingRecordIndexItem, Index, lookup}
use lark_utils_exp.Sync.Rows.Keys.{keys}
use lark_utils_exp.Sync.Plan.{build_upsert_plan}
use lark_utils_exp.Sync.Plan.Updates.{update_ids, HasOwnRecords, build_upsert_plan-spares}
use lark_utils_exp.TableSync.{
  ActivityTableSyncRuleConfig, manual_only, is_spreadsheet_owned, spreadsheet_owned_keys,
}
use lark_utils_exp.TableSync.Context.{TableSyncConfig, Context, retain_source_rows}
use lark_utils_exp.TableSync.Steps.{
  preserved, preserve_existing_spreadsheet_rows, build_main_upsert_plan,
}

contains-retain :
    (owned : List Text) (rows : List SourceRow) (key : Text)
    → contains (keys (retain_source_rows owned rows)) key
      ≡ contains (keys rows) key && not (contains owned key)
unfolding retain_source_rows contains
contains-retain owned [] key = refl
contains-retain owned (row ∷ rows) key =
    ground (arith, contains-retain owned rows key, text_eq_iff row.unique_key key)

retain-nil : (rows : List SourceRow) → retain_source_rows [] rows ≡ rows
unfolding retain_source_rows contains
retain-nil [] = refl
retain-nil (row ∷ rows) = rw (retain-nil rows) refl

owned-key :
    (h : Host) (rule : ActivityTableSyncRuleConfig) (index : Index) (key : Text)
    (item : ExistingRecordIndexItem)
    → lookup key index ≡ some item
    → is_spreadsheet_owned h rule item ≡ true
    → contains (spreadsheet_owned_keys h rule index) key ≡ true
unfolding lookup spreadsheet_owned_keys contains
owned-key h rule [] key item l o = cc
owned-key h rule ((k, other) ∷ index) key item l o =
    ground (arith, owned-key h rule index key item, text_eq_iff k key, text_eq_iff key k)

nil-eq : {A : Type 0} (xs : List A) → is_nil xs ≡ true → xs ≡ []
nil-eq [] e = refl
nil-eq (x ∷ xs) e = cc

and-true : (b : Bool) → b && true ≡ b
and-true true = refl
and-true false = refl

module _ (h : Host) (services : Services) (fuel : ℕ) (config : TableSyncConfig)
    (rules : FieldValueRules) (app_token : Text) (spreadsheet_token : Option Text) where
  -- In `manual_only` mode a key keeps its row exactly where the main table's record of the key is
  -- not the spreadsheet's.
  pub preserved-keys :
      (ctx : Context) (key : Text)
      → contains
          (keys
            (preserved h services fuel config rules app_token spreadsheet_token ctx).source_rows)
          key
        ≡ contains (keys ctx.source_rows) key
          && not (contains (spreadsheet_owned_keys h config.sync_rule ctx.existing_index) key)
  unfolding preserved contains
  preserved-keys ctx key =
      elim (Bool-cases (is_nil (spreadsheet_owned_keys h config.sync_rule ctx.existing_index))) [
        | inl e ↦ rw e (rw (nil-eq _ e) (sym (and-true _)))
        | inr e ↦ rw e (contains-retain _ ctx.source_rows key)
      ]

  spared :
      (ctx : Context) (key : Text) (item : ExistingRecordIndexItem)
      → HasOwnRecords ctx.existing_index
      → lookup key ctx.existing_index ≡ some item
      → is_spreadsheet_owned h config.sync_rule item ≡ true
      → contains
          (update_ids (
            build_upsert_plan h rules
              (preserved h services fuel config rules app_token spreadsheet_token ctx).source_rows
              ctx.existing_index))
          item.record_id
        ≡ false
  spared ctx key item own found owned =
      build_upsert_plan-spares h rules ctx.existing_index
        (preserved h services fuel config rules app_token spreadsheet_token ctx).source_rows key
        item own found
        (ground (
          arith,
          preserved-keys ctx key,
          owned-key h config.sync_rule ctx.existing_index key item found owned,
        ))

  preserved-index :
      (ctx : Context)
      → (preserved h services fuel config rules app_token spreadsheet_token ctx).existing_index
        ≡ ctx.existing_index
  unfolding preserved
  preserved-index ctx =
      elim (Bool-cases (is_nil (spreadsheet_owned_keys h config.sync_rule ctx.existing_index))) [
        | inl e ↦ rw e refl
        | inr e ↦ rw e refl
      ]

  abbrev pub preserve_and_plan : Context → Io Context
  preserve_and_plan ctx =
      preserve_existing_spreadsheet_rows h services fuel config rules app_token spreadsheet_token
        ctx
      >>= build_main_upsert_plan h services fuel config rules app_token spreadsheet_token

  -- In `manual_only` mode, where no two keys of the index lead to one record, the step that keeps
  -- the spreadsheet's rows and the step that makes the plan succeed without a call, and their plan
  -- updates no record that the spreadsheet owns.
  pub manual_only-spares :
      (ctx : Context) (log : Log) (key : Text) (item : ExistingRecordIndexItem)
      → config.source_mode ≡ manual_only
      → HasOwnRecords ctx.existing_index
      → lookup key ctx.existing_index ≡ some item
      → is_spreadsheet_owned h config.sync_rule item ≡ true
      → (end : Context) × (preserve_and_plan ctx log ≡ (ok end, log))
        × (contains (update_ids end.upsert_plan) item.record_id ≡ false)
  unfolding ◌>>=◌ pure preserve_existing_spreadsheet_rows build_main_upsert_plan
  manual_only-spares ctx log key item mode own found owned =
      rw (mode, preserve_existing_spreadsheet_rows)
        (_, refl, rw (preserved-index ctx) (spared ctx key item own found owned))
