-- ===== src/Workflow/ReceiveIds.antt =====
-- `parse_receive_id_type` of src/lark/im/mod.rs: how a message names its receiver.
use lark_utils_exp.Prelude.{◌++◌, ok, err, if◌then◌else◌}
use lark_utils_exp.Text.{Text, text, text_eq, trim}
use lark_utils_exp.Error.{Fallible, message}
use lark_utils_exp.Workflow.Errors.{to_ascii_lowercase}

pub data ReceiveIdType : Type 0 where
  open_id union_id user_id email chat_id : ReceiveIdType

-- fn parse_receive_id_type
unfoldable pub parse_receive_id_type : Text → Fallible ReceiveIdType
unfolding trim to_ascii_lowercase text_eq
parse_receive_id_type value =
    let other = to_ascii_lowercase (trim value) in
    if text_eq other (text "open_id")
    then ok open_id
    else if text_eq other (text "union_id")
    then ok union_id
    else if text_eq other (text "user_id")
    then ok user_id
    else if text_eq other (text "email")
    then ok email
    else if text_eq other (text "chat_id")
    then ok chat_id
    else err (
        message (
          text "不支持的 receive_id_type `"
          ++ (other ++ text "`，可选值：open_id / union_id / user_id / email / chat_id")))
