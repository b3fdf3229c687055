-- ===== src/Sync/Values.antt =====
-- Cell values as plain text, keys, numbers and timestamps (src/pipeline/sync.rs).
pub mod Keys
use lark_utils_exp.Prelude.{
  ℕ, ℤ, pos, List, [], ◌∷◌, ◌++◌, Bool, true, false, Option, none, some, if◌then◌else◌, is_nil,
}
use lark_utils_exp.Text.{Text, text, text_eq, trim, replace, clean_text, non_empty}
use lark_utils_exp.Text.Decimal.{parse_i64, int_text}
use lark_utils_exp.Json.{
  Number, int, float, Value, null, bool, number, string, array, object, Items, nil, cons, Fields,
  end, field, fields, is_finite_float,
}
use lark_utils_exp.Json.Map.{get_str}
use lark_utils_exp.Host.{Host}

-- The characters that `value_to_key_string` and `normalize_field_name` remove.
abbrev pub separators : List ℕ
separators = b'\r' ∷ b'\n' ∷ b' ' ∷ 0x3000 ∷ []

abbrev or_null : Option Value → Value
or_null none = null
or_null (some v) = v

-- fn normalize_cell_value
unfoldable pub normalize_cell_value : Value → Value
normalize_cell_value (string s) = elim (clean_text s) [ [] ↦ null | c ∷ t ↦ string (c ∷ t) ]
normalize_cell_value other = other

module _ (h : Host) where
  unfoldable pub number_text : Number → Text
  number_text (int z) = int_text z
  number_text (float b) = h.float_text b

  unfoldable mutual
    -- fn value_to_plain_string
    pub value_to_plain_string : Value → Option Text
    value_to_plain_string null = none
    value_to_plain_string (string s) = non_empty (clean_text s)
    value_to_plain_string (number n) = some (number_text n)
    value_to_plain_string (bool true) = some (text "true")
    value_to_plain_string (bool false) = some (text "false")
    value_to_plain_string (array vs) = non_empty (clean_text (plain_parts vs))
    value_to_plain_string (object fs) =
        let inner = plain_inner fs in
        elim (get_str (text "text") (fields fs)) [
          | some s ↦ some (clean_text s)
          | none ↦ elim (get_str (text "link") (fields fs)) [
            | some s ↦ some (clean_text s)
            | none ↦ elim (get_str (text "name") (fields fs)) [
              | some s ↦ some (clean_text s)
              | none ↦ inner
            ]
          ]
        ]

    -- the plain strings of an array's items, joined
    pub plain_parts : Items → Text
    plain_parts nil = []
    plain_parts (cons v vs) = elim (value_to_plain_string v) [
      | none ↦ plain_parts vs
      | some s ↦ s ++ plain_parts vs
    ]

    -- the plain string under the key `value`
    pub plain_inner : Fields → Option Text
    plain_inner end = none
    plain_inner (field k v fs) =
        let here = value_to_plain_string v in
        let later = plain_inner fs in if text_eq k (text "value") then here else later

  -- fn value_to_key_string
  unfoldable pub value_to_key_string : Value → Option Text
  value_to_key_string v = elim (value_to_plain_string v) [
    | none ↦ none
    | some s ↦ non_empty (replace separators [] (trim s))
  ]

  -- `Number::from_f64`
  abbrev from_f64 : ℕ → Option Value
  from_f64 b = if is_finite_float b then some (number (float b)) else none

  -- fn parse_string_to_number_value, behind its trim and its test for the empty text
  unfoldable pub number_of_text : Text → Option Value
  number_of_text [] = none
  number_of_text (c ∷ s) = elim (parse_i64 (c ∷ s)) [
    | some i ↦ some (number (int i))
    | none ↦ elim (h.parse_f64 (c ∷ s)) [ none ↦ none | some b ↦ from_f64 b ]
  ]

  -- fn parse_string_to_number_value
  unfoldable pub parse_string_to_number_value : Text → Option Value
  unfolding number_of_text
  parse_string_to_number_value s = number_of_text (replace (text ",") [] (trim s))

  -- fn to_number_value
  unfoldable pub to_number_value : Value → Value
  to_number_value (string s) =
      let t = replace (text ",") [] (trim s) in
      if is_nil t then null else or_null (parse_string_to_number_value t)
  to_number_value (bool true) = number (int (pos 1))
  to_number_value (bool false) = number (int (pos 0))
  to_number_value other = other

  -- `NaiveDateTime::parse_from_str` and the local time, if both succeed
  abbrev millis_of : Text → Text → Option ℤ
  millis_of s format = elim (h.parse_naive s format) [
    | none ↦ none
    | some dt ↦ h.shanghai_millis dt
  ]

  -- the three formats, in the order tried
  unfoldable pub parse_timestamp : Text → Option ℤ
  parse_timestamp s = elim (millis_of s (text "%Y-%m-%d %H:%M:%S")) [
    | some z ↦ some z
    | none ↦ elim (millis_of s (text "%Y/%m/%d %H:%M:%S")) [
      | some z ↦ some z
      | none ↦ millis_of (s ++ text " 00:00:00") (text "%Y-%m-%d %H:%M:%S")
    ]
  ]

  abbrev timestamp_of : Text → Value
  timestamp_of [] = null
  timestamp_of (c ∷ s) = elim (parse_i64 (c ∷ s)) [
    | some i ↦ number (int i)
    | none ↦ elim (parse_timestamp (c ∷ s)) [ some z ↦ number (int z) | none ↦ null ]
  ]

  -- fn to_timestamp_millis_value
  unfoldable pub to_timestamp_millis_value : Value → Value
  unfolding parse_timestamp
  to_timestamp_millis_value (string s) = timestamp_of (clean_text s)
  to_timestamp_millis_value other = other

  -- fn normalize_field_name
  unfoldable pub normalize_field_name : Text → Text
  normalize_field_name s = h.to_lowercase (replace separators [] (trim s))
