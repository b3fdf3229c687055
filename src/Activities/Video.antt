-- ===== src/Activities/Video.antt =====
-- src/pipeline/video.rs: the configuration and the field rules of the video sync.
use lark_utils_exp.Prelude.{ℕ, List, [], ◌∷◌}
use lark_utils_exp.Text.{Text, text}
use lark_utils_exp.Host.{Host}
use lark_utils_exp.Effects.{Services, Io}
use lark_utils_exp.Sync.Rules.{
  FieldValueRules, no_rules, with_skip_fields, with_text_fields, with_number_fields,
  with_timestamp_millis_fields, with_url_fields,
}
use lark_utils_exp.Activities.Config.{ActivityTableSyncConfig}
use lark_utils_exp.TableSync.Context.{TableSyncConfig}
use lark_utils_exp.TableSync.Flow.{run_table_sync_pipeline}

abbrev pub video_unique_key_field : Text
video_unique_key_field = text "视频/图文ID"

-- fn build_table_sync_config
abbrev pub build_table_sync_config : ActivityTableSyncConfig → TableSyncConfig
build_table_sync_config c = record {
  pipeline_name = text "video_sync";
  bitable_url = c.bitable_url;
  spreadsheet_url = c.spreadsheet_url;
  source_mode = c.source_mode;
  manual_table_id = c.manual_table_id;
  main_table_id = c.main_table_id;
  audit_table_id = c.audit_table_id;
  unique_key_field = video_unique_key_field;
  sync_rule = c.sync_rule;
  db_sync = c.db_sync;
}

abbrev pub skip_fields : List Text
skip_fields =
    text "修改人"
    ∷ (text "创建人"
        ∷ (text "创建时间"
            ∷ (text "最后更新时间"
                ∷ (text "更新时间"
                    ∷ (text "未添加稿件"
                        ∷ (text "record_id" ∷ (text "recordurl" ∷ (text "sharedurl" ∷ []))))))))

abbrev pub url_fields : List Text
url_fields = text "链接(视频链接有效期为1小时)" ∷ []

abbrev pub text_fields : List Text
text_fields =
    video_unique_key_field
    ∷ (text "作者uid"
        ∷ (text "作者名称"
            ∷ (text "标题"
                ∷ (text "相关性审核" ∷ (text "投稿机构ID" ∷ (text "投稿机构名称" ∷ (text "数据来源" ∷ [])))))))

abbrev pub number_fields : List Text
number_fields =
    text "播放量"
    ∷ (text "点赞量"
        ∷ (text "评论量"
            ∷ (text "分享量"
                ∷ (text "有效播放量"
                    ∷ (text "有效点赞量"
                        ∷ (text "组件点击数(延迟1天)"
                            ∷ (text "获奖等级"
                                ∷ (text "获奖金额"
                                    ∷ (text "Android激活数"
                                        ∷ (text "ios激活数"
                                            ∷ (text "预约成功次数(仅安卓)"
                                                ∷ (text "预约安装完成次数"
                                                    ∷ (text "涨粉数"
                                                        ∷ (text "点赞率"
                                                            ∷ (text "评论率" ∷ [])))))))))))))))

abbrev pub timestamp_millis_fields : List Text
timestamp_millis_fields = text "发布时间" ∷ []

-- fn video_field_rules
unfoldable pub video_field_rules : Host → FieldValueRules
video_field_rules h = with_timestamp_millis_fields h timestamp_millis_fields (
    with_number_fields h number_fields (
      with_text_fields h text_fields
        (with_url_fields h url_fields (with_skip_fields h skip_fields no_rules))))

-- fn run_video_sync
unfoldable pub run_video_sync : Host → Services → ℕ → ActivityTableSyncConfig → Io (Unit {0})
run_video_sync h services fuel c =
    run_table_sync_pipeline h services fuel (build_table_sync_config c) (video_field_rules h)
