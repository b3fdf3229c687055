-- ===== src/TableSync/Merge.antt =====
-- `merge_source_rows` of src/pipeline/table_sync.rs.
pub mod Places
pub mod Found
pub mod Keys
use mathlib.Core.List.{append-nil, append_assoc}
use lark_utils_exp.Prelude.{
  ℕ, zero, suc, ◌+◌, List, [], ◌∷◌, ◌++◌, Bool, true, false, ◌||◌, Option, none, some, map, length,
  set, if◌then◌else◌, ◌≡◌, refl, ap, sym, ◌∙◌, arith, Option-cases, Bool-cases, inl, inr, All,
  subst,
}
use lark_utils_exp.Text.{Text, text_eq}
use lark_utils_exp.Text.Order.{text_eq_iff, text_eq_refl}
use lark_utils_exp.Sync.Rules.{contains}
use lark_utils_exp.Sync.Rows.{SourceRow, lookup}
use lark_utils_exp.Sync.Rows.Keys.{Distinct, keys}
use lark_utils_exp.TableSync.{
  Merging, push_row, merge_spreadsheet, merge_manual_row, merge_manual, merge_source_rows,
}
use lark_utils_exp.TableSync.Merge.Places.{replace_row, add_row, add_rows, merge_source_rows-eq}
use lark_utils_exp.TableSync.Merge.Found.{
  find_row, or_else, find_row-add_rows_kept, find_row-add_rows_overridden,
}
use lark_utils_exp.TableSync.Merge.Keys.{new_keys, keys-add_rows, Distinct-add_rows}

-- Where manual rows do not override, a key of the merge stands for the spreadsheet's row if the
-- spreadsheet has one, and for the first manual row otherwise.
pub merge_source_rows-keeps :
    (spreadsheet manual : List SourceRow) (k : Text)
    → Distinct (keys spreadsheet)
    → find_row k (merge_source_rows spreadsheet manual false)
      ≡ or_else (find_row k spreadsheet) (find_row k manual)
merge_source_rows-keeps spreadsheet manual k d =
    rw (merge_source_rows-eq spreadsheet manual false d)
      (find_row-add_rows_kept k spreadsheet manual)

-- Where they do, it stands for the manual row if there is one, and for the spreadsheet's otherwise.
pub merge_source_rows-overrides :
    (spreadsheet manual : List SourceRow) (k : Text)
    → Distinct (keys spreadsheet)
    → Distinct (keys manual)
    → find_row k (merge_source_rows spreadsheet manual true)
      ≡ or_else (find_row k manual) (find_row k spreadsheet)
merge_source_rows-overrides spreadsheet manual k d d' =
    rw (merge_source_rows-eq spreadsheet manual true d)
      (find_row-add_rows_overridden k spreadsheet manual d')

-- In both modes the merged keys are distinct: those of the spreadsheet in their order, then those
-- that only manual rows have.
pub keys-merge_source_rows :
    (spreadsheet manual : List SourceRow) (overrides : Bool)
    → Distinct (keys spreadsheet)
    → Distinct (keys (merge_source_rows spreadsheet manual overrides))
      × (keys (merge_source_rows spreadsheet manual overrides)
          ≡ keys spreadsheet ++ new_keys (keys spreadsheet) (keys manual))
keys-merge_source_rows spreadsheet manual overrides d =
    rw (merge_source_rows-eq spreadsheet manual overrides d)
      (Distinct-add_rows overrides spreadsheet manual d, keys-add_rows overrides spreadsheet manual)
