-- ===== src/Workflow/Notices.antt =====
-- The notices of errors that src/workflow.rs sends.
use lark_utils_exp.Prelude.{
  ℕ, List, [], ◌∷◌, ◌++◌, Bool, true, false, Option, none, some, ok, err, panic, unfinished,
  if◌then◌else◌, ◌*◌,
}
use lark_utils_exp.Text.{Text, text, text_eq, trim, non_empty, join}
use lark_utils_exp.Host.{Host}
use lark_utils_exp.Error.{Fallible}
use lark_utils_exp.Error.Display.{display, chain}
use lark_utils_exp.WorkflowRun.Notices.{
  claim_notification, mark_notification_sent, release_notification,
}
use lark_utils_exp.Workflow.Kinds.{WorkflowKind, trigger_type}
use lark_utils_exp.Workflow.Errors.{
  alternate, classify_workflow_error, login_invalid, xingtu_failed,
}
use lark_utils_exp.Workflow.Receivers.{
  XingtuProjectAccount, ops_ids_text, select_workflow_error_notice_accounts,
}
use lark_utils_exp.Workflow.ReceiveIds.{ReceiveIdType, parse_receive_id_type}
use lark_utils_exp.Workflow.World.{
  World, Notice, RunError, busy, failure, Environment, Action, Attempted, call, total, silent,
}
use lark_utils_exp.Workflow.Tasks.{error_text}

-- What the notices need from outside: the digest, the account table, the clients, the message
-- service, and the clock's text.
pub record Messaging : Type 0 where
  -- `sha1_hex`
  pub sha1_hex : Text → Text
  -- `account_repo.list_accounts`
  pub list_accounts : World → Fallible (List XingtuProjectAccount)
  -- `project_lark.resolved_client_for_project`
  pub resolved_client : World → ℕ → Fallible (Unit {0})
  -- `send_xingtu_login_notice`
  pub send : World → Notice → Fallible (Unit {0})
  -- `Utc::now().with_timezone(&Shanghai).format("%Y:%m:%d %H:%M:%S")`
  pub beijing_timestamp : World → Text

pub record NotificationGuard : Type 0 where
  pub category : Text
  pub scope : Text
  pub payload : Text
  pub cooldown : ℕ

-- fn login_invalid_error_detail, given the time's text
unfoldable pub login_invalid_error_detail : Text → Text → Option Text → Text
unfolding trim join
login_invalid_error_detail timestamp xingtu_account_id status_message =
    let reason : List Text = elim status_message [
      | none ↦ []
      | some m ↦ elim (non_empty (trim m)) [ none ↦ [] | some t ↦ (text "错误信息:" ++ t) ∷ [] ]
    ] in
    join (text "\n") (
      text "星图登陆态失效，请及时更新星图登陆态。"
      ∷ ((text "账号ID:" ++ xingtu_account_id) ∷ (reason ++ (timestamp ∷ []))))

abbrev introduction : Text → Text
introduction error_type =
    if text_eq error_type login_invalid
    then text "星图登陆态失效，请及时更新星图登陆态。"
    else if text_eq error_type xingtu_failed
    then text "星图数据拉取失败，请及时检查星图返回信息。"
    else text "自动化工作流执行失败，请及时检查。"

-- the last of an error's chain
abbrev pub last_of : Text → List Text → Text
last_of first [] = first
last_of first (t ∷ ts) = last_of t ts

abbrev pub root_cause : Host → RunError → Text
root_cause h busy = text "已有写工作流正在运行，请稍后重试"
root_cause h (failure e) = last_of (display h e) (chain h e)

-- fn workflow_error_detail, given the time's text
unfoldable pub workflow_error_detail : Host → Text → Text → WorkflowKind → Text → RunError → Text
unfolding text_eq trigger_type alternate join chain display
workflow_error_detail h timestamp xingtu_account_id kind error_type error =
    let cause = root_cause h error in
    let whole = error_text h error in
    let context = if text_eq whole cause then [] else (text "错误上下文:" ++ whole) ∷ [] in
    join (text "\n") (
      introduction error_type
      ∷ ((text "工作流:" ++ trigger_type kind)
          ∷ ((text "错误信息:" ++ cause)
              ∷ (context ++ ((text "账号ID:" ++ xingtu_account_id) ∷ (timestamp ∷ []))))))

module _ (h : Host) (env : Environment) (m : Messaging) where
  -- `.await` of a call whose error is only logged
  abbrev pub ignored : {A : Type 0} → Action A → World → World
  ignored action w = (action w).1

  -- The message service's reply, and the guard marked or released.
  abbrev pub delivered : NotificationGuard → Notice → Fallible (Unit {0}) → World → Bool × World
  delivered guard notice (ok u) w = (
    true,
    ignored (call env (silent env (λ now. mark_notification_sent now guard.category guard.scope)))
        (record w { sent = notice ∷ w.sent }),
  )
  delivered guard notice (err e) w = (
    false,
    ignored (call env (silent env (λ now. release_notification now guard.category guard.scope))) w,
  )
  delivered guard notice panic w = (false, w)
  delivered guard notice unfinished w = (false, w)

  -- The notice goes out by the project's client.
  abbrev pub sent_by : NotificationGuard → Notice → Fallible (Unit {0}) → World → Bool × World
  sent_by guard notice (ok u) w = delivered guard notice (m.send w notice) w
  sent_by guard notice _ w = (false, w)

  -- The notice is claimed, or it is not sent.
  abbrev pub sent_if_claimed :
      NotificationGuard → Notice → ℕ → Attempted Bool → World → Bool × World
  sent_if_claimed guard notice project_id (ok true) w =
      sent_by guard notice (m.resolved_client w project_id) w
  sent_if_claimed guard notice project_id _ w = (false, w)

  abbrev pub claim : NotificationGuard → Action Bool
  claim guard = call env (
      total env (λ now.
        claim_notification now m.sha1_hex guard.category guard.scope guard.payload guard.cooldown))

  abbrev pub notice_for : XingtuProjectAccount → ReceiveIdType → Text → Text → Notice
  notice_for account receive_id_type error_type error_detail = record {
    receive_id_type = receive_id_type;
    receive_id = account.receive_id;
    template_id = account.login_notice_card_template_id;
    ops_ids = ops_ids_text account.ops_ids;
    project_name = account.project_display_name;
    error_type = error_type;
    error_detail = error_detail;
  }

  -- The account's type of receiver is known, or nothing is done.
  abbrev pub sent_to :
      XingtuProjectAccount
      → Text
      → Text
      → NotificationGuard
      → Fallible ReceiveIdType
      → World
      → Bool × World
  sent_to account error_type error_detail guard (ok t) w =
      sent_if_claimed guard (notice_for account t error_type error_detail) account.project_id
        (claim guard w).0 (claim guard w).1
  sent_to account error_type error_detail guard _ w = (false, w)

  -- fn send_error_notice: whether a notice was sent
  unfoldable pub send_error_notice :
      XingtuProjectAccount → Text → Text → NotificationGuard → World → Bool × World
  unfolding call claim_notification mark_notification_sent release_notification ops_ids_text
      parse_receive_id_type
  send_error_notice account error_type error_detail guard w =
      sent_to account error_type error_detail guard (parse_receive_id_type account.receive_id_type)
        w

  -- fn send_login_invalid_notice
  unfoldable pub send_login_invalid_notice :
      XingtuProjectAccount → Option Text → World → Bool × World
  unfolding send_error_notice login_invalid_error_detail
  send_login_invalid_notice account status_message w =
      send_error_notice account login_invalid
        (login_invalid_error_detail (m.beijing_timestamp w) account.xingtu_account_id
          status_message)
        (record {
          category = text "login_invalid";
          scope = account.xingtu_account_id;
          payload = elim status_message [ none ↦ text "invalid" | some s ↦ s ];
          cooldown = 12 * 60 * 60;
        })
        w

  abbrev pub workflow_guard : XingtuProjectAccount → WorkflowKind → Text → NotificationGuard
  workflow_guard account kind error_type = record {
    category = text "workflow_error";
    scope = account.xingtu_account_id ++ (text ":" ++ trigger_type kind);
    payload = error_type;
    cooldown = 60 * 60;
  }

  -- One notice to each account.
  unfoldable pub send_to_accounts :
      WorkflowKind → Text → RunError → List XingtuProjectAccount → World → World
  unfolding send_error_notice workflow_error_detail trigger_type
  send_to_accounts kind error_type error [] w = w
  send_to_accounts kind error_type error (account ∷ accounts) w =
      let (was_sent, w') =
        send_error_notice account error_type
          (workflow_error_detail h (m.beijing_timestamp w) account.xingtu_account_id kind error_type
            error)
          (workflow_guard account kind error_type) w in
      send_to_accounts kind error_type error accounts w'

  abbrev pub told : WorkflowKind → RunError → Fallible (List XingtuProjectAccount) → World → World
  told kind error (ok accounts) w =
      send_to_accounts kind (classify_workflow_error (error_text h error)) error
        (select_workflow_error_notice_accounts accounts (error_text h error)) w
  told kind error _ w = w

  -- fn send_workflow_error_notices
  unfoldable pub send_workflow_error_notices : WorkflowKind → RunError → World → World
  unfolding send_to_accounts classify_workflow_error select_workflow_error_notice_accounts alternate
  send_workflow_error_notices kind error w = told kind error (m.list_accounts w) w
