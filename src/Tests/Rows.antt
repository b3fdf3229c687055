-- ===== src/Tests/Rows.antt =====
-- Runs of the parsing of rows and records.
use lark_utils_exp.Prelude.{List, [], ◌∷◌, ok, ◌≡◌, ◌↔◌, refl}
use lark_utils_exp.Text.{Text, text, text_eq, clean_text}
use lark_utils_exp.Json.{Value, null, string}
use lark_utils_exp.Sync.Rules.{no_rules, contains}
use lark_utils_exp.Sync.Values.{
  value_to_key_string, value_to_plain_string, normalize_cell_value, normalize_field_name,
}
use lark_utils_exp.Sync.Rows.{
  ExistingRecordIndexItem, Index, lookup, parse_sheet_rows, sheet_rows_from,
  parse_bitable_records_as_source_rows,
}
use lark_utils_exp.Sync.Rows.Keys.{Distinct, keys}
use lark_utils_exp.Sync.Rows.Sheet.{IsSheet, parse_sheet_rows_iff}
use lark_utils_exp.Sync.Rows.Records.{rows_of, parse_bitable_records_iff}
use lark_utils_exp.Tests.Data.{host, id, a_record, row}

abbrev sheet : List (List Value)
sheet =
    (string (text "id") ∷ (string (text "name") ∷ []))
    ∷ ((string (text "a") ∷ (string (text "x") ∷ [])) ∷ ((null ∷ []) ∷ []))

parse_sheet_rows_test :
    parse_sheet_rows host no_rules id sheet ≡ ok (row (text "a") (text "x") ∷ [])
unfolding parse_sheet_rows sheet_rows_from lark_utils_exp.Sync.Rows.parse_headers
    lark_utils_exp.Sync.Rows.headers_from lark_utils_exp.Sync.Rows.is_empty_row
    lark_utils_exp.Text.trim lark_utils_exp.Text.is_whitespace lark_utils_exp.Sync.Rows.key_of
    lark_utils_exp.Sync.Rows.row_fields lark_utils_exp.Sync.Rules.should_skip_field
    lark_utils_exp.Sync.Rules.to_bitable_write_value normalize_cell_value clean_text
    lark_utils_exp.Json.Map.insert text_eq normalize_field_name value_to_key_string
    value_to_plain_string lookup lark_utils_exp.Text.text_compare lark_utils_exp.Json.Map.get
    lark_utils_exp.Sync.Rows.find_field_value_by_name lark_utils_exp.Sync.Rows.put_field contains
    lark_utils_exp.Sync.Rules.convert lark_utils_exp.Sync.Rules.value_kind
    lark_utils_exp.Sync.Rules.write_value lark_utils_exp.Text.contains_char lark_utils_exp.Text.join
    lark_utils_exp.Text.split_first lark_utils_exp.Text.split_whitespace
    lark_utils_exp.Text.trim_end lark_utils_exp.Text.trim_start lark_utils_exp.Text.replace
    lark_utils_exp.Sync.Rows.same_field
parse_sheet_rows_test = refl

parse_sheet_rows_iff_example :
    (parse_sheet_rows host no_rules id sheet ≡ ok (row (text "a") (text "x") ∷ []))
    ↔ IsSheet host no_rules id sheet (row (text "a") (text "x") ∷ [])
parse_sheet_rows_iff_example =
    parse_sheet_rows_iff host no_rules id sheet (row (text "a") (text "x") ∷ [])

abbrev twice : List (List Value)
twice = (string (text "a") ∷ []) ∷ ((string (text " a ") ∷ []) ∷ [])

parse_bitable_records_iff_example :
    (parse_bitable_records_as_source_rows host no_rules id (a_record ∷ [])
      ≡ ok (row (text "a") (text "old") ∷ []))
    ↔ (Distinct (keys (rows_of host no_rules id (a_record ∷ [])))
        × (rows_of host no_rules id (a_record ∷ []) ≡ row (text "a") (text "old") ∷ []))
parse_bitable_records_iff_example =
    parse_bitable_records_iff host no_rules id (a_record ∷ []) (row (text "a") (text "old") ∷ [])

abbrev one_entry : Index
one_entry =
    (text "a", record { record_id = text "rec1"; fields = (row (text "a") (text "old")).fields })
    ∷ []
