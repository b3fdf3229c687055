-- ===== src/Audit/Notice.antt =====
-- The records that wait for an audit, and the card about them (src/pipeline/audit_notice.rs).
use lark_utils_exp.Prelude.{
  ℕ, suc, List, [], ◌∷◌, ◌++◌, Bool, true, false, ◌&&◌, Option, none, some, ◌==◌, if◌then◌else◌,
}
use lark_utils_exp.Text.{Text, text, trim, replace}
use lark_utils_exp.Text.Decimal.{decimal}
use lark_utils_exp.Json.{Map, as_object}
use lark_utils_exp.Host.{Host}
use lark_utils_exp.Error.Display.{starts_with, contains_text}
use lark_utils_exp.Sync.Values.{value_to_plain_string}
use lark_utils_exp.Sync.Rows.{BitableRecord, find_field_value_by_name}
use lark_utils_exp.Sheets.Link.{get_spreadsheet_token}
use lark_utils_exp.Effects.{Services, Io, pure, lift, in_context, ◌>>=◌}
use lark_utils_exp.Bitable.Actions.{read_optional_records_with_retry}

pub record ActivityAuditTableConfig : Type 0 where
  pub bitable_url : Text
  pub audit_table_id : Text

pub record ActivityAuditNoticeConfig : Type 0 where
  pub period : Text
  pub audit_table_url : Text
  pub live : Option ActivityAuditTableConfig
  pub video : Option ActivityAuditTableConfig

pub record AuditInfoItem : Type 0 where
  pub period : Text
  pub video_nums : Text
  pub live_nums : Text
  pub audit_table_url : Text

-- `ends_with` of a character
unfoldable pub ends_with : ℕ → Text → Bool
ends_with c [] = false
ends_with c (d ∷ []) = d == c
ends_with c (d ∷ (e ∷ s)) = ends_with c (e ∷ s)

-- fn is_markdown_link
unfoldable pub is_markdown_link : Text → Bool
unfolding starts_with contains_text ends_with
is_markdown_link value =
    starts_with (text "[") value && (contains_text (text "](") value && ends_with b')' value)

-- fn escape_markdown_link_label
unfoldable pub escape_markdown_link_label : Text → Text
unfolding replace
escape_markdown_link_label value =
    replace (text "]") (text "\\]") (replace (text "[") (text "\\[") value)

-- fn markdown_link
unfoldable pub markdown_link : Text → Text → Text
unfolding trim is_markdown_link escape_markdown_link_label
markdown_link label url_or_markdown =
    let value = trim url_or_markdown in
    if is_markdown_link value
    then value
    else text "[" ++ (escape_markdown_link_label label ++ (text "](" ++ (value ++ text ")")))

-- fn build_audit_info_item
unfoldable pub build_audit_info_item : ActivityAuditNoticeConfig → ℕ → ℕ → AuditInfoItem
unfolding markdown_link decimal
build_audit_info_item activity video_nums live_nums = record {
  period = activity.period;
  video_nums = decimal video_nums;
  live_nums = decimal live_nums;
  audit_table_url = markdown_link activity.period activity.audit_table_url;
}

module _ (h : Host) where
  -- fn is_pending_audit_record, on the record's fields
  abbrev pub is_pending : Option Map → Text → Bool
  is_pending none audit_result_field = true
  is_pending (some m) audit_result_field = elim (find_field_value_by_name h m audit_result_field) [
    | none ↦ true
    | some v ↦ elim (value_to_plain_string h v) [ none ↦ true | some s ↦ false ]
  ]

  -- fn is_pending_audit_record
  unfoldable pub is_pending_audit_record : BitableRecord → Text → Bool
  unfolding find_field_value_by_name value_to_plain_string
  is_pending_audit_record r audit_result_field = is_pending (as_object r.fields) audit_result_field

  -- fn count_pending_audit_records
  unfoldable pub count_pending_audit_records : List BitableRecord → Text → ℕ
  unfolding is_pending_audit_record
  count_pending_audit_records [] audit_result_field = 0
  count_pending_audit_records (r ∷ records) audit_result_field =
      let rest = count_pending_audit_records records audit_result_field in
      if is_pending_audit_record r audit_result_field then suc rest else rest

  module _ (services : Services) where
    -- fn count_pending_for_table
    unfoldable pub count_pending_for_table : ActivityAuditTableConfig → Text → Io ℕ
    unfolding get_spreadsheet_token read_optional_records_with_retry count_pending_audit_records
    count_pending_for_table c audit_result_field = do
      app_token ←
          in_context (text "解析多维表格 app_token 失败") (lift (get_spreadsheet_token h c.bitable_url))
      records ←
          in_context (text "读取审核表记录失败")
            (read_optional_records_with_retry services h app_token c.audit_table_id)
      pure (count_pending_audit_records records audit_result_field)

    -- fn count_pending_for_optional_table
    unfoldable pub count_pending_for_optional_table : Option ActivityAuditTableConfig → Text → Io ℕ
    unfolding count_pending_for_table
    count_pending_for_optional_table none audit_result_field = pure 0
    count_pending_for_optional_table (some c) audit_result_field =
        count_pending_for_table c audit_result_field

    abbrev pub with_item :
        ActivityAuditNoticeConfig → ℕ → ℕ → List AuditInfoItem → List AuditInfoItem
    with_item activity video_nums live_nums items =
        if (live_nums == 0) && (video_nums == 0)
        then items
        else build_audit_info_item activity video_nums live_nums ∷ items

    -- fn build_pending_audit_info
    unfoldable pub build_pending_audit_info :
        List ActivityAuditNoticeConfig → Text → Io (List AuditInfoItem)
    unfolding count_pending_for_optional_table build_audit_info_item
    build_pending_audit_info [] audit_result_field = pure []
    build_pending_audit_info (activity ∷ activities) audit_result_field = do
      live_nums ←
          in_context (text "统计 `" ++ (activity.period ++ text "` 直播待审核数量失败"))
            (count_pending_for_optional_table activity.live audit_result_field)
      video_nums ←
          in_context (text "统计 `" ++ (activity.period ++ text "` 视频待审核数量失败"))
            (count_pending_for_optional_table activity.video audit_result_field)
      items ← build_pending_audit_info activities audit_result_field
      pure (with_item activity video_nums live_nums items)
