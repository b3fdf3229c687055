-- ===== src/Tests/Data.antt =====
-- A host, services and rows to run the model on.
use lark_utils_exp.Prelude.{List, [], ◌∷◌, true, false, none, some, ok, err}
use lark_utils_exp.Text.{Text, text}
use lark_utils_exp.Json.{Value, string, object, field, end, bool, array, cons, nil}
use lark_utils_exp.Host.{Host}
use lark_utils_exp.Error.{message}
use lark_utils_exp.Effects.{Services}
use lark_utils_exp.Sync.Rows.{SourceRow, BitableRecord, ExistingRecordIndexItem, Index}
use lark_utils_exp.TableSync.{default_rule, spreadsheet_and_manual}
use lark_utils_exp.TableSync.Context.{TableSyncConfig, Context, empty_context}
use lark_utils_exp.Activities.Config.{ActivityTableSyncConfig, ActivitySyncConfig}

-- A host that reads no float and no date, and for which every link has the one segment `sheets`.
abbrev pub host : Host
host = record {
  to_lowercase = λ t. t;
  parse_f64 = λ t. none;
  float_text = λ b. [];
  parse_naive = λ t format. none;
  shanghai_millis = λ dt. none;
  parse_url = λ t. some (record {
    scheme = text "https";
    path_segments = some (text "sheets" ∷ []);
    query_pairs = [];
  });
  value_text = λ v. [];
}

abbrev pub linkless : Host
linkless = record host { parse_url = λ t. none }

-- A host for which every link has two segments.
abbrev pub tokened : Host
tokened = record host {
  parse_url = λ t. some (record {
    scheme = text "https";
    path_segments = some (text "sheets" ∷ (text "abc" ∷ []));
    query_pairs = (text "sheet", text "s1") ∷ [];
  });
}

-- Services that find no records, accept all writes, and refuse everything else.
abbrev pub services : Services
services = record {
  search = λ log app table. ok [];
  write = λ log call. ok (record { code = 0; message = []; request_id = none; payload = none });
  list_fields = λ log call. err (message (text "no fields"));
  sheet_infos = λ log token. err (message (text "no sheet"));
  range = λ log token a1. err (message (text "no range"));
  store = λ log rows. err (message (text "no repository"));
  update_results = λ log config content updates. ok 1;
}

-- Services whose field list has one page, with the one field `id`.
abbrev pub listed : Services
listed = record services {
  list_fields = λ log call. ok (record {
    code = 0;
    message = [];
    request_id = none;
    payload = some (
        object (
          field (text "has_more") (bool false) (
            field (text "items")
              (array (cons (object (field (text "field_name") (string (text " id ")) end)) nil))
              end)));
  });
}

abbrev pub id : Text
id = text "id"

abbrev pub row : Text → Text → SourceRow
row key name = record {
  unique_key = key;
  fields = (id, string key) ∷ ((text "name", string name) ∷ []);
}

abbrev pub sheet_rows : List SourceRow
sheet_rows = row (text "a") (text "x") ∷ (row (text "b") (text "y") ∷ [])

abbrev pub manual_rows : List SourceRow
manual_rows = row (text "b") (text "z") ∷ (row (text "c") (text "w") ∷ [])

abbrev pub fields_of : Text → Text → Value
fields_of key name = object (field id (string key) (field (text "name") (string name) end))

abbrev pub a_record : BitableRecord
a_record = record { record_id = text "rec1"; fields = fields_of (text "a") (text "old") }

abbrev pub source_field : Text
source_field = default_rule.data_source_field

abbrev pub a_item : ExistingRecordIndexItem
a_item = record { record_id = text "rec1"; fields = (source_field, string (text "星图数据")) ∷ [] }

abbrev pub index : Index
index = (text "a", a_item) ∷ []

abbrev pub config : TableSyncConfig
config = record {
  pipeline_name = text "video_sync";
  bitable_url = text "https://f/base/x";
  spreadsheet_url = text "https://f/sheets/y";
  source_mode = spreadsheet_and_manual;
  manual_table_id = none;
  main_table_id = text "tbl";
  audit_table_id = none;
  unique_key_field = id;
  sync_rule = default_rule;
  db_sync = true;
}

abbrev pub context : Context
context = record empty_context { source_rows = sheet_rows; existing_index = index }

abbrev pub table : ActivityTableSyncConfig
table = record {
  bitable_url = text "https://f/base/x";
  spreadsheet_url = text "https://f/sheets/y";
  source_mode = spreadsheet_and_manual;
  manual_table_id = none;
  main_table_id = text "tbl";
  audit_table_id = none;
  sync_rule = default_rule;
  db_sync = true;
}

abbrev pub no_tables : ActivitySyncConfig
no_tables = record { period = text "1"; live = none; video = none }

abbrev pub one_table : ActivitySyncConfig
one_table = record { period = text "2"; live = none; video = some table }
