-- ===== src/Sync/Rows.antt =====
-- Sheet rows and table records as source rows, and the index of existing records
-- (src/pipeline/sync.rs).
pub mod Keys
pub mod Sheet
pub mod Index
pub mod Records
use lark_utils_exp.Prelude.{
  ℕ, zero, suc, ◌+◌, List, [], ◌∷◌, ◌++◌, Bool, true, false, not, ◌&&◌, ◌||◌, Option, none, some,
  if◌then◌else◌, ◌==◌, Result, ok, err, panic, ◌>>=◌, ◌>>◌, ok_or, get_elem?, is_nil, all, any,
}
use lark_utils_exp.Text.{Text, text, text_eq, trim, non_empty}
use lark_utils_exp.Json.{
  Value, null, string, Map, object, fields, of_fields, is_null, as_str, as_object,
}
use lark_utils_exp.Json.Map.{insert}
use lark_utils_exp.Host.{Host}
use lark_utils_exp.Error.{
  Error, message, bad_header, missing_key_field, missing_key, duplicate_row, duplicate_source,
  duplicate_target, Fallible, with_context,
}
use lark_utils_exp.Sync.Values.{value_to_key_string, normalize_field_name}
use lark_utils_exp.Sync.Rules.{FieldValueRules, should_skip_field, to_bitable_write_value}

pub record SourceRow : Type 0 where
  pub unique_key : Text
  pub fields : Map

pub record ExistingRecordIndexItem : Type 0 where
  pub record_id : Text
  pub fields : Map

-- A record of the bitable service, as far as it is read.
pub record BitableRecord : Type 0 where
  pub record_id : Text
  pub fields : Value

-- A `HashMap` with text keys; no code here depends on the order of its entries.
module _ {V : Type 0} where
  unfoldable pub lookup : Text → List (Text × V) → Option V
  lookup k [] = none
  lookup k ((j, v) ∷ m) = if text_eq j k then some v else lookup k m

-- the header of a column: a text that is not blank, trimmed
abbrev pub header_text : Value → Option Text
header_text v = elim (as_str v) [ none ↦ none | some s ↦ non_empty (trim s) ]

-- the loop of `parse_headers`, from column `n`
unfoldable pub headers_from : ℕ → List Value → Fallible (List Text)
headers_from n [] = ok []
headers_from n (v ∷ vs) = do
  header ← ok_or (header_text v) (bad_header n v)
  headers ← headers_from (suc n) vs
  ok (header ∷ headers)

-- fn parse_headers
unfoldable pub parse_headers : List Value → Fallible (List Text)
unfolding headers_from
parse_headers row = headers_from 1 row

abbrev is_blank : Value → Bool
is_blank null = true
is_blank (string s) = is_nil (trim s)
is_blank _ = false

-- fn is_empty_row
unfoldable pub is_empty_row : List Value → Bool
is_empty_row row = all is_blank row

module _ (h : Host) where
  -- equal after normalisation
  unfoldable pub same_field : Text → Text → Bool
  same_field name other = text_eq (normalize_field_name h name) (normalize_field_name h other)

  -- fn find_field_value_by_name
  unfoldable pub find_field_value_by_name : Map → Text → Option Value
  unfolding same_field
  find_field_value_by_name [] name = none
  find_field_value_by_name ((k, v) ∷ m) name =
      if same_field k name then some v else find_field_value_by_name m name

  -- The unique key of a row's fields.
  unfoldable pub key_of : Text → Map → Option Text
  unfolding find_field_value_by_name
  key_of key_field m = elim (find_field_value_by_name m key_field) [
    | none ↦ none
    | some v ↦ value_to_key_string h v
  ]

module _ (h : Host) (rules : FieldValueRules) where
  -- One field: dropped if it is to be skipped or nothing is to be written.
  unfoldable pub put_field : Text → Value → Map → Map
  put_field name raw m =
      let value = to_bitable_write_value h rules name raw in
      if should_skip_field h rules name then m else if is_null value then m else insert name value m

  abbrev cell : List Value → ℕ → Value
  cell row i = elim (get_elem? row i) [ none ↦ null | some v ↦ v ]

  -- the loop over the headers, from column index `i`
  unfoldable pub row_fields : List Value → ℕ → List Text → Map → Map
  unfolding put_field
  row_fields row i [] m = m
  row_fields row i (header ∷ headers) m =
      row_fields row (suc i) headers (put_field header (cell row i) m)

  -- the loop over the fields of a record
  unfoldable pub record_fields : Map → Map → Map
  unfolding put_field
  record_fields [] m = m
  record_fields ((name, raw) ∷ more) m = record_fields more (put_field name raw m)

module _ (h : Host) (rules : FieldValueRules) (key_field : Text) where
  -- The loop of `parse_sheet_rows`, from row number `n`; `seen` is `first_row_by_key`.
  unfoldable pub sheet_rows_from :
      List Text → ℕ → List (Text × ℕ) → List (List Value) → Fallible (List SourceRow)
  sheet_rows_from headers n seen [] = ok []
  sheet_rows_from headers n seen (row ∷ rows) = elim (is_empty_row row) [
    | true ↦ sheet_rows_from headers (suc n) seen rows
    | false ↦
        let m = row_fields h rules row 0 headers [] in
        elim (key_of h key_field m) [
          | none ↦ err (missing_key n key_field)
          | some key ↦ elim (lookup key seen) [
            | some first ↦ err (duplicate_row key_field key first n)
            | none ↦ sheet_rows_from headers (suc n) ((key, n) ∷ seen) rows >>= λ later.
                ok (record { unique_key = key; fields = m } ∷ later)
          ]
        ]
  ]

  -- fn parse_sheet_rows
  unfoldable pub parse_sheet_rows : List (List Value) → Fallible (List SourceRow)
  parse_sheet_rows [] = err (message (text "Sheet 为空，缺少表头"))
  parse_sheet_rows (header_row ∷ rows) = do
    headers ← with_context (text "解析表头失败") (parse_headers header_row)
    if any (λ header. same_field h header key_field) headers
        then sheet_rows_from headers 2 [] rows
        else err (missing_key_field key_field)

  -- The loop of `parse_bitable_records_as_source_rows`.
  unfoldable pub source_rows_from :
      List (Text × Text) → List BitableRecord → Fallible (List SourceRow)
  source_rows_from seen [] = ok []
  source_rows_from seen (r ∷ records) = elim (as_object r.fields) [
    | none ↦ source_rows_from seen records
    | some raw ↦
        let m = record_fields h rules raw [] in
        elim (key_of h key_field m) [
          | none ↦ source_rows_from seen records
          | some key ↦ elim (lookup key seen) [
            | some first ↦ err (duplicate_source key_field key first r.record_id)
            | none ↦ source_rows_from ((key, r.record_id) ∷ seen) records >>= λ later.
                ok (record { unique_key = key; fields = m } ∷ later)
          ]
        ]
  ]

  -- fn parse_bitable_records_as_source_rows
  unfoldable pub parse_bitable_records_as_source_rows :
      List BitableRecord → Fallible (List SourceRow)
  parse_bitable_records_as_source_rows records = source_rows_from [] records

abbrev pub Index : Type 0
Index = List (Text × ExistingRecordIndexItem)

module _ (h : Host) (key_field : Text) where
  abbrev pub indexed_key : BitableRecord → Option (Map × Text)
  indexed_key r = elim (as_object r.fields) [
    | none ↦ none
    | some m ↦ elim (key_of h key_field m) [ none ↦ none | some key ↦ some (m, key) ]
  ]

  -- The loop of `index_existing_records`.
  unfoldable pub index_from : Index → List BitableRecord → Fallible Index
  index_from index [] = ok index
  index_from index (r ∷ records) = elim (indexed_key r) [
    | none ↦ index_from index records
    | some (m, key) ↦ elim (lookup key index) [
      | some old ↦ err (duplicate_target key_field key old.record_id r.record_id)
      | none ↦ index_from ((key, record { record_id = r.record_id; fields = m }) ∷ index) records
    ]
  ]

  -- fn index_existing_records
  unfoldable pub index_existing_records : List BitableRecord → Fallible Index
  index_existing_records records = index_from [] records
