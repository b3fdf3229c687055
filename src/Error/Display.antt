-- ===== src/Error/Display.antt =====
-- `Display` of errors, and the causes that `anyhow::Error::chain` goes through.
use lark_utils_exp.Prelude.{
  List, Option, none, some, [], ◌∷◌, ◌++◌, Bool, true, false, ◌||◌, ◌==◌, ◌&&◌,
}
use lark_utils_exp.Text.{Text, text, join}
use lark_utils_exp.Text.Decimal.{decimal}
use lark_utils_exp.Host.{Host}
use lark_utils_exp.Error.{
  Error, message, bad_header, missing_key_field, missing_key, duplicate_row, duplicate_source,
  duplicate_target, unmatched_key, unmatched_audit_key, missing_fields, refused, context,
}

-- `str::starts_with` and `str::contains`
unfoldable pub starts_with : Text → Text → Bool
starts_with [] hay = true
starts_with (c ∷ needle) [] = false
starts_with (c ∷ needle) (d ∷ hay) = (c == d) && starts_with needle hay

unfoldable pub contains_text : Text → Text → Bool
unfolding starts_with
contains_text needle [] = starts_with needle []
contains_text needle (d ∷ hay) = starts_with needle (d ∷ hay) || contains_text needle hay

-- An operation's name is given with its `失败`.
abbrev id_text : Option Text → Text
id_text none = text "<none>"
id_text (some id) = id

module _ (h : Host) where
  unfoldable pub display : Error → Text
  unfolding join decimal
  display (message t) = t
  display (bad_header n v) = text "第 " ++ (decimal n ++ (text " 列表头非法：" ++ h.value_text v))
  display (missing_key_field f) = text "Sheet 表头中找不到唯一键字段：" ++ f
  display (missing_key n f) = text "第 " ++ (decimal n ++ (text " 行缺少唯一键字段 `" ++ (f ++ text "`")))
  display (duplicate_row f k m n) =
      text "Sheet 唯一键字段 `"
      ++ (f
          ++ (text "` 存在重复值 `"
              ++ (k ++ (text "`：第 " ++ (decimal m ++ (text " 行与第 " ++ (decimal n ++ text " 行")))))))
  display (duplicate_source f k a b) =
      text "多维表格来源唯一键字段 `"
      ++ (f
          ++ (text "` 存在重复值 `"
              ++ (k ++ (text "`：record_id `" ++ (a ++ (text "` 与 `" ++ (b ++ text "`")))))))
  display (duplicate_target f k a b) =
      text "目标表唯一键字段 `"
      ++ (f
          ++ (text "` 存在重复值 `"
              ++ (k ++ (text "`：record_id `" ++ (a ++ (text "` 与 `" ++ (b ++ text "`")))))))
  display (unmatched_key n f) =
      text "已有记录数量为 "
      ++ (decimal n ++ (text "，但唯一键 `" ++ (f ++ text "` 匹配数量为 0。这通常表示字段名不一致或字段值结构无法解析。已中止，避免误创建。")))
  display (unmatched_audit_key n f) =
      text "audit 表已有记录数量为 "
      ++ (decimal n
          ++ (text "，但唯一键 `" ++ (f ++ text "` 匹配数量为 0。这通常表示 audit 表字段名不一致或字段值结构无法解析。已中止，避免误创建。")))
  display (missing_fields table operation missing write known) =
      text "目标多维表缺少写入字段：table_id="
      ++ (table
          ++ (text " operation="
              ++ (operation
                  ++ (text " missing_fields=["
                      ++ (join (text ", ") missing
                          ++ (text "] write_fields=["
                              ++ (join (text ", ") write
                                  ++ (text "] table_fields=["
                                      ++ (join (text ", ") known ++ text "]")))))))))
  display (refused operation code msg id) =
      operation
      ++ (text "，飞书返回 code="
          ++ (decimal code ++ (text " msg=" ++ (msg ++ (text " request_id=" ++ id_text id)))))
  display (context c e) = c

  unfoldable pub chain : Error → List Text
  unfolding display
  chain (context c e) = c ∷ chain e
  chain e = display e ∷ []
