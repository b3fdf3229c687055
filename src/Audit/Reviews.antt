-- ===== src/Audit/Reviews.antt =====
-- The reviewed records of an audit table (`collect_reviewed_audit_results` of
-- src/pipeline/audit_result_sync.rs).
use lark_utils_exp.Prelude.{
  List, [], ◌++◌, Bool, true, false, ◌&&◌, Option, none, some, ok, err, map, All, ◌≡◌, refl, ap,
  ◌∙◌,
}
use lark_utils_exp.Text.{Text, text, text_eq, trim, non_empty}
use lark_utils_exp.Text.Order.{text_eq_refl, text_eq_iff}
use lark_utils_exp.Json.{Value, Map, as_object, value_eq}
use lark_utils_exp.Json.Equality.{value_eq_refl, value_eq_trans}
use lark_utils_exp.Host.{Host}
use lark_utils_exp.Error.{Error, message, context, Fallible}
use lark_utils_exp.Sync.Values.{value_to_plain_string}
use lark_utils_exp.Sync.Rows.{BitableRecord, find_field_value_by_name}
use lark_utils_exp.Audit.Merge.{
  Round, skips, fails, enters, merge_rounds, AgreesRound, Ascending, merge_rounds-Agrees,
  merge_rounds-Ascending,
}
use lark_utils_exp.Audit.Extra.{collect_audit_extra}

-- `AuditResultUpdate` of src/xingtu/data_import.rs
pub record AuditResultUpdate : Type 0 where
  pub unique_key : Text
  pub audit_result : Text
  pub label : Option Text
  pub audit_extra : Value

abbrev audit_label_field : Text
audit_label_field = text "审核标签"

abbrev option_text_eq : Option Text → Option Text → Bool
option_text_eq none none = true
option_text_eq (some s) (some t) = text_eq s t
option_text_eq _ _ = false

-- `PartialEq for AuditResultUpdate`
unfoldable pub same_update : AuditResultUpdate → AuditResultUpdate → Bool
unfolding text_eq value_eq
same_update a b =
    text_eq a.unique_key b.unique_key
    && (text_eq a.audit_result b.audit_result
        && (option_text_eq a.label b.label && value_eq a.audit_extra b.audit_extra))

option_text_eq_refl : (o : Option Text) → option_text_eq o o ≡ true
option_text_eq_refl none = refl
option_text_eq_refl (some s) = text_eq_refl s

option_text_eq-eq : (o p : Option Text) → option_text_eq o p ≡ true → o ≡ p
option_text_eq-eq none none e = refl
option_text_eq-eq none (some t) e = cc
option_text_eq-eq (some s) none e = cc
option_text_eq-eq (some s) (some t) e = ap some ((text_eq_iff s t).0 e)

and_parts : (a b : Bool) → a && b ≡ true → (a ≡ true) × (b ≡ true)
and_parts true b e = (refl, e)
and_parts false b e = cc

same_update_refl : (u : AuditResultUpdate) → same_update u u ≡ true
unfolding same_update
same_update_refl u =
    rw (text_eq_refl u.unique_key, text_eq_refl u.audit_result, option_text_eq_refl u.label)
      (value_eq_refl u.audit_extra)

-- Equal updates have the same texts, and equal extra values.
same_update-parts :
    (u v : AuditResultUpdate)
    → same_update u v ≡ true
    → (u.unique_key ≡ v.unique_key)
      × (u.audit_result ≡ v.audit_result)
      × (u.label ≡ v.label)
      × (value_eq u.audit_extra v.audit_extra ≡ true)
unfolding same_update
same_update-parts u v e =
    let (k, e') = and_parts _ _ e in
    let (r, e'') = and_parts _ _ e' in
    let (l, x) = and_parts _ _ e'' in
    (
      (text_eq_iff u.unique_key v.unique_key).0 k,
      (text_eq_iff u.audit_result v.audit_result).0 r,
      option_text_eq-eq u.label v.label l,
      x,
    )

same_update_trans :
    (a b c : AuditResultUpdate)
    → same_update a b ≡ true
    → same_update b c ≡ true
    → same_update a c ≡ true
same_update_trans a b c e f =
    let (k, r, l, x) = same_update-parts a b e in
    let (k', r', l', y) = same_update-parts b c f in
    unfold same_update in
    rw
      (
        k ∙ k',
        r ∙ r',
        l ∙ l',
        text_eq_refl c.unique_key,
        text_eq_refl c.audit_result,
        option_text_eq_refl c.label,
      )
      (value_eq_trans a.audit_extra b.audit_extra c.audit_extra x y)

-- `Debug` of an optional label is a parameter.
module _ (h : Host) (debug : Option Text → Text) where
  -- A field's text, if there is any but white space.
  unfoldable pub filled : Map → Text → Option Text
  unfolding find_field_value_by_name value_to_plain_string trim
  filled m name = elim (find_field_value_by_name h m name) [
    | none ↦ none
    | some v ↦ elim (value_to_plain_string h v) [ none ↦ none | some s ↦ non_empty (trim s) ]
  ]

  abbrev pub with_extra : Text → Text → Option Text → Fallible Value → Round AuditResultUpdate
  with_extra unique_key audit_result label (ok audit_extra) = enters (record {
    unique_key = unique_key;
    audit_result = audit_result;
    label = label;
    audit_extra = audit_extra;
  })
  with_extra unique_key audit_result label (err e) =
      fails (context (text "审核表唯一键 `" ++ (unique_key ++ text "` 的额外审核字段不合法")) e)
  with_extra unique_key audit_result label _ = skips

  -- the round of the loop on a record's fields
  abbrev pub review : Text → Text → Option Map → Round AuditResultUpdate
  review key_field result_field none = skips
  review key_field result_field (some m) = elim (filled m key_field) [
    | none ↦ skips
    | some unique_key ↦ elim (filled m result_field) [
      | none ↦ skips
      | some audit_result ↦
          with_extra unique_key audit_result (filled m audit_label_field) (collect_audit_extra m)
    ]
  ]

  unfoldable pub review_round : Text → Text → BitableRecord → Round AuditResultUpdate
  unfolding filled collect_audit_extra
  review_round key_field result_field r = review key_field result_field (as_object r.fields)

  abbrev pub conflicting : AuditResultUpdate → AuditResultUpdate → Error
  conflicting previous update = message (
      text "审核表唯一键 `"
      ++ (update.unique_key
          ++ (text "` 存在冲突审核数据：result=`"
              ++ (previous.audit_result
                  ++ (text "` label=`"
                      ++ (debug previous.label
                          ++ (text "` 与 result=`"
                              ++ (update.audit_result
                                  ++ (text "` label=`"
                                      ++ (debug update.label ++ text "`；额外字段也必须一致"))))))))))

  -- fn collect_reviewed_audit_results
  unfoldable pub collect_reviewed_audit_results :
      List BitableRecord → Text → Text → Fallible (List AuditResultUpdate)
  unfolding review_round merge_rounds same_update
  collect_reviewed_audit_results records key_field result_field =
      merge_rounds (λ u. u.unique_key) same_update conflicting []
        (map (review_round key_field result_field) records)

  -- If the results are accepted, then no record had an error in its extra fields; each record that is
  -- reviewed, with a key and a result, is among the results under its key with equal data, so that no
  -- two records of one key differ; and the keys of the results ascend, so that each is there once.
  pub collect_reviewed_audit_results-Agrees :
      (records : List BitableRecord) (key_field result_field : Text) (out : List AuditResultUpdate)
      → collect_reviewed_audit_results records key_field result_field ≡ ok out
      → All
          (AgreesRound (λ u. u.unique_key) same_update conflicting out)
          (map (review_round key_field result_field) records)
        × Ascending (λ u. u.unique_key) same_update conflicting out
  unfolding collect_reviewed_audit_results
  collect_reviewed_audit_results-Agrees records key_field result_field out e = (
    merge_rounds-Agrees (λ u. u.unique_key) same_update conflicting same_update_refl
        same_update_trans (map (review_round key_field result_field) records) out e,
    merge_rounds-Ascending (λ u. u.unique_key) same_update conflicting
        (map (review_round key_field result_field) records) [] out tt e,
  )
