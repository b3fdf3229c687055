-- ===== src/Sync/Compare.antt =====
-- The comparison of an old field value with a new one (src/pipeline/sync.rs).
pub mod Laws
use lark_utils_exp.Prelude.{[], ◌∷◌, Bool, Option, none, some, if◌then◌else◌}
use lark_utils_exp.Text.{Text, text, text_eq, clean_text}
use lark_utils_exp.Json.{
  Value, null, bool, number, string, array, object, Fields, end, field, fields, value_eq,
}
use lark_utils_exp.Json.Map.{get_str}
use lark_utils_exp.Host.{Host}
use lark_utils_exp.Sync.Values.{plain_parts, parse_string_to_number_value}

module _ (h : Host) where
  abbrev number_or_string : Text → Value
  number_or_string s = elim (parse_string_to_number_value h s) [ some v ↦ v | none ↦ string s ]

  -- A cleaned text: empty as null, a number as a number, any other as it is.
  unfoldable pub normalize_text : Text → Value
  normalize_text [] = null
  normalize_text (c ∷ s) = number_or_string (c ∷ s)

  unfoldable mutual
    -- fn normalize_for_compare
    pub normalize_for_compare : Value → Value
    normalize_for_compare null = null
    normalize_for_compare (bool b) = bool b
    normalize_for_compare (number n) = number n
    normalize_for_compare (string s) = normalize_text (clean_text s)
    normalize_for_compare (array vs) = normalize_text (clean_text (plain_parts h vs))
    normalize_for_compare (object fs) =
        let inner = normalize_inner fs in
        elim (get_str (text "link") (fields fs)) [
          | some s ↦ string (clean_text s)
          | none ↦ elim (get_str (text "text") (fields fs)) [
            | some s ↦ string (clean_text s)
            | none ↦ elim inner [ some v ↦ v | none ↦ object fs ]
          ]
        ]

    -- the normal form of what stands under the key `value`
    pub normalize_inner : Fields → Option Value
    normalize_inner end = none
    normalize_inner (field k v fs) =
        let here = some (normalize_for_compare v) in
        let later = normalize_inner fs in if text_eq k (text "value") then here else later

  -- fn semantic_equal
  unfoldable pub semantic_equal : Value → Value → Bool
  semantic_equal old new = value_eq (normalize_for_compare old) (normalize_for_compare new)
