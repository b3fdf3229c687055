-- ===== src/Sync/Rules.antt =====
-- `FieldValueRules` (src/pipeline/sync.rs): how each field is converted before it is written.
use lark_utils_exp.Prelude.{
  List, [], ◌∷◌, ◌++◌, Bool, false, ◌||◌, Option, none, some, if◌then◌else◌, map,
}
use lark_utils_exp.Text.{Text, text, text_eq}
use lark_utils_exp.Json.{Value, null, string, object, of_fields}
use lark_utils_exp.Json.Map.{insert}
use lark_utils_exp.Host.{Host}
use lark_utils_exp.Sync.Values.{
  value_to_plain_string, normalize_cell_value, to_number_value, to_timestamp_millis_value,
  normalize_field_name,
}

-- `contains` of a set or a list of texts.
unfoldable pub contains : List Text → Text → Bool
contains [] k = false
contains (j ∷ js) k = text_eq j k || contains js k

pub data FieldValueKind : Type 0 where
  passthrough text_kind number_kind timestamp_millis url : FieldValueKind

pub record FieldValueRules : Type 0 where
  pub skip_fields : List Text
  pub text_fields : List Text
  pub number_fields : List Text
  pub timestamp_millis_fields : List Text
  pub url_fields : List Text

abbrev pub no_rules : FieldValueRules
no_rules = record {
  skip_fields = [];
  text_fields = [];
  number_fields = [];
  timestamp_millis_fields = [];
  url_fields = [];
}

module _ (h : Host) where
  -- fn normalize_field_names
  unfoldable pub normalize_field_names : List Text → List Text
  normalize_field_names = map (normalize_field_name h)

  unfoldable pub with_skip_fields : List Text → FieldValueRules → FieldValueRules
  unfolding normalize_field_names
  with_skip_fields names r = record r { skip_fields = r.skip_fields ++ normalize_field_names names }

  unfoldable pub with_text_fields : List Text → FieldValueRules → FieldValueRules
  unfolding normalize_field_names
  with_text_fields names r = record r { text_fields = r.text_fields ++ normalize_field_names names }

  unfoldable pub with_number_fields : List Text → FieldValueRules → FieldValueRules
  unfolding normalize_field_names
  with_number_fields names r = record r {
    number_fields = r.number_fields ++ normalize_field_names names;
  }

  unfoldable pub with_timestamp_millis_fields : List Text → FieldValueRules → FieldValueRules
  unfolding normalize_field_names
  with_timestamp_millis_fields names r = record r {
    timestamp_millis_fields = r.timestamp_millis_fields ++ normalize_field_names names;
  }

  unfoldable pub with_url_fields : List Text → FieldValueRules → FieldValueRules
  unfolding normalize_field_names
  with_url_fields names r = record r { url_fields = r.url_fields ++ normalize_field_names names }

  unfoldable pub should_skip_field : FieldValueRules → Text → Bool
  unfolding contains
  should_skip_field r name = contains r.skip_fields (normalize_field_name h name)

  unfoldable pub value_kind : FieldValueRules → Text → FieldValueKind
  unfolding contains
  value_kind r name =
      let normalized = normalize_field_name h name in
      if contains r.url_fields normalized
      then url
      else if contains r.timestamp_millis_fields normalized
      then timestamp_millis
      else if contains r.number_fields normalized
      then number_kind
      else if contains r.text_fields normalized
      then text_kind
      else passthrough

  -- json!({ "text": url, "link": url })
  abbrev pub link_object : Text → Value
  link_object s =
      object (of_fields (insert (text "link") (string s) (insert (text "text") (string s) [])))

  abbrev string_or_null : Option Text → Value
  string_or_null none = null
  string_or_null (some s) = string s

  abbrev link_or_null : Option Text → Value
  link_or_null none = null
  link_or_null (some s) = link_object s

  unfoldable pub convert : FieldValueKind → Value → Value
  convert passthrough v = v
  convert text_kind v = string_or_null (value_to_plain_string h v)
  convert number_kind v = to_number_value h v
  convert timestamp_millis v = to_timestamp_millis_value h v
  convert url v = link_or_null (value_to_plain_string h v)

  -- The match of `to_bitable_write_value`, behind its test for null.
  unfoldable pub write_value : FieldValueKind → Value → Value
  unfolding convert
  write_value kind null = null
  write_value kind v = convert kind v

  -- fn to_bitable_write_value
  unfoldable pub to_bitable_write_value : FieldValueRules → Text → Value → Value
  unfolding value_kind write_value
  to_bitable_write_value r name v = write_value (value_kind r name) (normalize_cell_value v)
