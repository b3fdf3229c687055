-- ===== src/Sheets/Read.antt =====
-- src/pipeline/sheet.rs: all cells of a spreadsheet's first sheet.
use lark_utils_exp.Prelude.{List, [], ◌∷◌, ◌++◌, ok, err, ok_or, refl}
use lark_utils_exp.Text.{Text, text}
use lark_utils_exp.Json.{Value}
use lark_utils_exp.Error.{message, Fallible}
use lark_utils_exp.Effects.{
  list_sheets, read_range, SheetInfo, Services, Io, lift, perform, in_context, ◌>>=◌,
}
use lark_utils_exp.Effects.Quiet.{Quiet, Quiet-lift, Quiet-bind, Quiet-in_context, Quiet-perform}
use lark_utils_exp.Sheets.{build_a1_range}

abbrev first_sheet : List SheetInfo → Fallible SheetInfo
first_sheet [] = err (message (text "没有找到任何 sheet 信息"))
first_sheet (info ∷ infos) = ok info

module _ (services : Services) where
  -- fn read_first_sheet_rows
  unfoldable pub read_first_sheet_rows : Text → Io (List (List Value))
  read_first_sheet_rows token = do
    infos ←
        in_context (text "读取 sheet infos 失败")
          (perform (list_sheets token) (λ log. services.sheet_infos log token))
    info ← lift (first_sheet infos)
    a1 ← lift (build_a1_range info.row_count info.column_count)
    let value_range = info.sheet_id ++ (text "!" ++ a1)
    reply ←
        in_context (text "读取 sheet range 失败")
          (perform (read_range token value_range) (λ log. services.range log token value_range))
    lift (ok_or reply (message (text "读取 sheet range 成功，但响应 data 为空")))

  pub read_first_sheet_rows-Quiet : (token : Text) → Quiet (read_first_sheet_rows token)
  unfolding read_first_sheet_rows
  read_first_sheet_rows-Quiet token =
      Quiet-bind _ _ (Quiet-in_context _ _ (Quiet-perform _ _ refl)) λ infos.
        Quiet-bind _ _ (Quiet-lift _) λ info.
          Quiet-bind _ _ (Quiet-lift _) λ a1.
            Quiet-bind _ _ (Quiet-in_context _ _ (Quiet-perform _ _ refl)) λ reply. Quiet-lift _
