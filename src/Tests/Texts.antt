-- ===== src/Tests/Texts.antt =====
-- Runs of the texts, keys, comparisons, column names and links.
use lark_utils_exp.Prelude.{none, some, ok, panic, ◌≡◌, ◌↔◌, refl, arith, pos, negsuc}
use lark_utils_exp.Text.{Text, text}
use lark_utils_exp.Text.Decimal.{parse_i64, int_text, parse_i64-int_text}
use lark_utils_exp.Sheets.{column_number_to_name, column_value_from}
use lark_utils_exp.Sheets.Columns.{column_value-column_number_to_name}
use lark_utils_exp.Sheets.Link.{
  get_spreadsheet_token, HasShortPath, get_spreadsheet_token-panic_iff,
}
use lark_utils_exp.Tests.Data.{host}

decimal_tests :
    (int_text (negsuc 4199) ≡ text "-4200")
    × (parse_i64 (text "+007") ≡ some (pos 7))
    × (parse_i64 (text "9223372036854775808") ≡ none)
    × (parse_i64 (text "-9223372036854775808") ≡ some (negsuc 9223372036854775807))
    × (parse_i64 (text "-") ≡ none)
unfolding parse_i64 int_text
decimal_tests = (refl, refl, refl, refl, refl)

parse_i64-int_text_example : parse_i64 (int_text (negsuc 4199)) ≡ some (negsuc 4199)
parse_i64-int_text_example = parse_i64-int_text (negsuc 4199) (omega arith)

column_value-column_number_to_name_example :
    (name : Text) × (column_number_to_name (pos 28) ≡ ok name) × (column_value_from 0 name ≡ ok 28)
column_value-column_number_to_name_example =
    column_value-column_number_to_name 28 (omega arith) (omega arith)

get_spreadsheet_token-panic_iff_example :
    (get_spreadsheet_token host (text "https://f/sheets") ≡ panic)
    ↔ HasShortPath host (text "https://f/sheets")
get_spreadsheet_token-panic_iff_example =
    get_spreadsheet_token-panic_iff host (text "https://f/sheets")
