-- ===== src/Audit/Extra.antt =====
-- The extra fields of an audit table (src/pipeline/audit_result_sync.rs).
use lark_utils_exp.Prelude.{
  List, [], ◌∷◌, ◌++◌, Bool, true, false, ◌&&◌, Option, none, some, ok, ◌>>=◌, if◌then◌else◌,
  is_nil, map, all, ◌==◌, ◌≡◌, refl, Bool-cases, Option-cases, inl, inr,
}
use lark_utils_exp.Text.{Text, text, text_eq, trim}
use lark_utils_exp.Json.{
  Value, null, bool, number, string, array, object, Fields, end, field, Map, items, fields,
  of_fields, value_eq,
}
use lark_utils_exp.Json.Map.{get, get_str}
use lark_utils_exp.Error.{Error, message, Fallible}
use lark_utils_exp.Audit.Merge.{Round, skips, fails, enters, merge_rounds}

abbrev pub audit_extra_field_prefix : Text
audit_extra_field_prefix = text "【额外】"

abbrev is_string : Option Value → Bool
is_string (some (string s)) = true
is_string _ = false

abbrev is_number : Option Value → Bool
is_number (some (number n)) = true
is_number _ = false

abbrev is_present : Option Value → Bool
is_present none = false
is_present (some v) = true

-- The kind of a segment is `text`, or it is not a string.
abbrev is_text_kind : Option Value → Bool
is_text_kind (some (string s)) = text_eq s (text "text")
is_text_kind _ = true

-- fn is_feishu_text_segment, on the object's fields
unfoldable pub is_segment : Map → Bool
unfolding get text_eq
is_segment m = is_string (get (text "text") m) && is_text_kind (get (text "type") m)

-- fn is_feishu_text_segment
unfoldable pub is_feishu_text_segment : Value → Bool
unfolding is_segment
is_feishu_text_segment (object fs) = is_segment (fields fs)
is_feishu_text_segment _ = false

-- The texts of segments, one behind the other.
unfoldable pub segment_texts : List Value → Text
unfolding get
segment_texts [] = []
segment_texts (object fs ∷ vs) = elim (get_str (text "text") (fields fs)) [
  | none ↦ segment_texts vs
  | some s ↦ s ++ segment_texts vs
]
segment_texts (_ ∷ vs) = segment_texts vs

-- The wrapping `{ type, value }`, whose type is a number.
abbrev is_wrapped : Map → Bool
is_wrapped m = is_number (get (text "type") m) && is_present (get (text "value") m)

abbrev or_value : Option Text → Value → Value
or_value none v = v
or_value (some s) v = string s

-- fn normalize_audit_extra_value, and what it makes of the field `value` of an object
unfoldable mutual
  unfolding get text_eq is_feishu_text_segment is_segment segment_texts

  pub normalize_audit_extra_value : Value → Value
  normalize_audit_extra_value (object fs) =
      let inner = normalize_inner fs in
      if is_wrapped (fields fs)
      then inner
      else if is_segment (fields fs)
      then or_value (get_str (text "text") (fields fs)) (object fs)
      else object fs
  normalize_audit_extra_value (array vs) =
      if is_nil (items vs)
      then array vs
      else if all is_feishu_text_segment (items vs)
      then string (segment_texts (items vs))
      else array vs
  normalize_audit_extra_value null = null
  normalize_audit_extra_value (bool b) = bool b
  normalize_audit_extra_value (number n) = number n
  normalize_audit_extra_value (string s) = string s

  pub normalize_inner : Fields → Value
  normalize_inner end = null
  normalize_inner (field k v fs) =
      let here = normalize_audit_extra_value v in
      let later = normalize_inner fs in if text_eq k (text "value") then here else later

-- `str::strip_prefix`
unfoldable pub strip_prefix : Text → Text → Option Text
strip_prefix [] s = some s
strip_prefix (c ∷ p) [] = none
strip_prefix (c ∷ p) (d ∷ s) = let rest = strip_prefix p s in if c == d then rest else none

-- A field, and its round of the loop of `collect_audit_extra`.
abbrev extra_entry : Text → Value → Text → Round (Text × Value)
extra_entry field_name v [] =
    fails (message (text "字段名 `" ++ (field_name ++ text "` 缺少“【额外】”后的 JSON 键名")))
extra_entry field_name v (c ∷ s) = enters (c ∷ s, normalize_audit_extra_value v)

unfoldable pub extra_round : Text × Value → Round (Text × Value)
unfolding trim strip_prefix normalize_audit_extra_value
extra_round (name, v) = elim (strip_prefix audit_extra_field_prefix (trim name)) [
  | none ↦ skips
  | some extra_name ↦ extra_entry (trim name) v (trim extra_name)
]

abbrev pub entry_key : Text × Value → Text
entry_key (k, v) = k

abbrev pub same_value : Text × Value → Text × Value → Bool
same_value (j, v) (k, w) = value_eq v w

abbrev pub repeated_key : Text × Value → Text × Value → Error
repeated_key (j, v) (k, w) = message (text "字段名去掉“【额外】”前缀后产生重复键 `" ++ (k ++ text "`"))

-- fn collect_audit_extra
unfoldable pub collect_audit_extra : Map → Fallible Value
unfolding extra_round merge_rounds value_eq
collect_audit_extra fs = do
  audit_extra ← merge_rounds entry_key same_value repeated_key [] (map extra_round fs)
  ok (object (of_fields audit_extra))

-- The value of an extra field is stored without its transport, once and for all: normalising a
-- normalised value changes nothing.
mutual
  unfolding normalize_audit_extra_value

  pub normalize_audit_extra_value_idempotent :
      (v : Value)
      → normalize_audit_extra_value (normalize_audit_extra_value v) ≡ normalize_audit_extra_value v
  normalize_audit_extra_value_idempotent null = refl
  normalize_audit_extra_value_idempotent (bool b) = refl
  normalize_audit_extra_value_idempotent (number n) = refl
  normalize_audit_extra_value_idempotent (string s) = refl
  normalize_audit_extra_value_idempotent (array vs) = elim (Bool-cases (is_nil (items vs))) [
    | inl e ↦ rw (e, e) refl
    | inr e ↦ elim (Bool-cases (all is_feishu_text_segment (items vs))) [
      | inl f ↦ rw (e, f) refl
      | inr f ↦ rw (e, f, e, f) refl
    ]
  ]
  normalize_audit_extra_value_idempotent (object fs) = elim (Bool-cases (is_wrapped (fields fs))) [
    | inl e ↦ rw e (normalize_inner_idempotent fs)
    | inr e ↦ elim (Bool-cases (is_segment (fields fs))) [
      | inr f ↦ rw (e, f, e, f) refl
      | inl f ↦ elim (Option-cases (get_str (text "text") (fields fs))) [
        | inl g ↦ rw (e, f, g, e, f, g) refl
        | inr (s, g) ↦ rw (e, f, g) refl
      ]
    ]
  ]

  normalize_inner_idempotent :
      (fs : Fields) → normalize_audit_extra_value (normalize_inner fs) ≡ normalize_inner fs
  normalize_inner_idempotent end = refl
  normalize_inner_idempotent (field k v fs) = elim (Bool-cases (text_eq k (text "value"))) [
    | inl e ↦ rw e (normalize_audit_extra_value_idempotent v)
    | inr e ↦ rw e (normalize_inner_idempotent fs)
  ]
