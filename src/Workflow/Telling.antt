-- ===== src/Workflow/Telling.antt =====
-- What the notices of src/workflow.rs do to the tables of runs.
use lark_utils_exp.Prelude.{
  ℕ, List, [], ◌∷◌, Bool, true, false, ok, err, panic, unfinished, ◌≡◌, refl, ◌∙◌, Bool-cases,
  Option-cases, inl, inr,
}
use lark_utils_exp.Text.{Text}
use lark_utils_exp.Host.{Host}
use lark_utils_exp.Error.{Fallible}
use lark_utils_exp.WorkflowRun.Tables.{Database}
use lark_utils_exp.WorkflowRun.Recovery.{to_i32}
use lark_utils_exp.WorkflowRun.Notices.{
  find_guard, is_claimable, claim_notification, mark_notification_sent, release_notification,
}
use lark_utils_exp.Workflow.Kinds.{WorkflowKind}
use lark_utils_exp.Workflow.ReceiveIds.{ReceiveIdType, parse_receive_id_type}
use lark_utils_exp.Workflow.Receivers.{XingtuProjectAccount}
use lark_utils_exp.Workflow.World.{
  World, Notice, Fault, fine, refused, lost, faulted, RunError, Attempted, Environment, call, total,
  silent, time_of_call,
}
use lark_utils_exp.Workflow.Notices.{
  Messaging, NotificationGuard, delivered, sent_by, sent_if_claimed, claim, notice_for, sent_to,
  told, workflow_error_detail, workflow_guard, send_error_notice, send_to_accounts,
  send_workflow_error_notices,
}

-- The runs and the lease are the same.
pub record SameRuns (db db' : Database) : Type 0 where
  pub runs : db'.runs ≡ db.runs
  pub lease : db'.lease ≡ db.lease

SameRuns-trans : (a b c : Database) → SameRuns a b → SameRuns b c → SameRuns a c
SameRuns-trans a b c s t = record { runs = t.runs ∙ s.runs; lease = t.lease ∙ s.lease }

module _ (env : Environment) where
  -- A call that keeps the runs keeps them whether it fails or not.
  call-SameRuns :
      {A : Type 0} (op : ℕ → Database → Fallible A × Database) (w : World)
      → SameRuns w.db (op (time_of_call env w) w.db).1
      → SameRuns w.db (call env op w).1.db
  unfolding call
  call-SameRuns op w k = after_fault (env.fault w.calls)
    where
      after_fault :
          (x : Fault) → SameRuns w.db (faulted env x w (op (time_of_call env w) w.db)).1.db
      after_fault fine = k
      after_fault refused = record { runs = refl; lease = refl }
      after_fault lost = k

  claim-SameRuns :
      (now : ℕ) (sha1_hex : Text → Text) (category scope payload : Text) (cooldown : ℕ)
      (db : Database)
      → SameRuns db (claim_notification now sha1_hex category scope payload cooldown db).1
  unfolding claim_notification
  claim-SameRuns now sha1_hex category scope payload cooldown db =
      elim (Option-cases (find_guard category scope db.guards)) [
        | inl e ↦ rw (e, claim_notification) (record { runs = refl; lease = refl })
        | inr (g, e) ↦ elim (Bool-cases (is_claimable now (sha1_hex payload) (to_i32 cooldown) g)) [
          | inl f ↦ rw (e, claim_notification, f) (record { runs = refl; lease = refl })
          | inr f ↦ rw (e, claim_notification, f) (record { runs = refl; lease = refl })
        ]
      ]

  module _ (h : Host) (m : Messaging) where
    delivered-SameRuns :
        (guard : NotificationGuard) (notice : Notice) (r : Fallible (Unit {0})) (w : World)
        → SameRuns w.db (delivered h env m guard notice r w).1.db
    unfolding mark_notification_sent release_notification
    delivered-SameRuns guard notice (ok u) w =
        call-SameRuns (silent env (λ now. mark_notification_sent now guard.category guard.scope))
          (record w { sent = notice ∷ w.sent }) (record { runs = refl; lease = refl })
    delivered-SameRuns guard notice (err e) w =
        call-SameRuns (silent env (λ now. release_notification now guard.category guard.scope)) w
          (record { runs = refl; lease = refl })
    delivered-SameRuns guard notice panic w = record { runs = refl; lease = refl }
    delivered-SameRuns guard notice unfinished w = record { runs = refl; lease = refl }

    sent_by-SameRuns :
        (guard : NotificationGuard) (notice : Notice) (r : Fallible (Unit {0})) (w : World)
        → SameRuns w.db (sent_by h env m guard notice r w).1.db
    sent_by-SameRuns guard notice (ok u) w = delivered-SameRuns guard notice (m.send w notice) w
    sent_by-SameRuns guard notice (err e) w = record { runs = refl; lease = refl }
    sent_by-SameRuns guard notice panic w = record { runs = refl; lease = refl }
    sent_by-SameRuns guard notice unfinished w = record { runs = refl; lease = refl }

    sent_if_claimed-SameRuns :
        (guard : NotificationGuard) (notice : Notice) (project_id : ℕ) (r : Attempted Bool)
        (w : World)
        → SameRuns w.db (sent_if_claimed h env m guard notice project_id r w).1.db
    sent_if_claimed-SameRuns guard notice project_id (ok true) w =
        sent_by-SameRuns guard notice (m.resolved_client w project_id) w
    sent_if_claimed-SameRuns guard notice project_id (ok false) w = record {
      runs = refl;
      lease = refl;
    }
    sent_if_claimed-SameRuns guard notice project_id (err e) w = record {
      runs = refl;
      lease = refl;
    }
    sent_if_claimed-SameRuns guard notice project_id panic w = record { runs = refl; lease = refl }
    sent_if_claimed-SameRuns guard notice project_id unfinished w = record {
      runs = refl;
      lease = refl;
    }

    sent_to-SameRuns :
        (account : XingtuProjectAccount) (error_type error_detail : Text)
        (guard : NotificationGuard) (r : Fallible ReceiveIdType) (w : World)
        → SameRuns w.db (sent_to h env m account error_type error_detail guard r w).1.db
    sent_to-SameRuns account error_type error_detail guard (ok t) w =
        SameRuns-trans w.db (claim h env m guard w).1.db _
          (call-SameRuns
            (total env (λ now.
              claim_notification now m.sha1_hex guard.category guard.scope guard.payload
                guard.cooldown))
            w
            (claim-SameRuns (time_of_call env w) m.sha1_hex guard.category guard.scope guard.payload
              guard.cooldown w.db))
          (sent_if_claimed-SameRuns guard (notice_for h env m account t error_type error_detail)
            account.project_id (claim h env m guard w).0 (claim h env m guard w).1)
    sent_to-SameRuns account error_type error_detail guard (err e) w = record {
      runs = refl;
      lease = refl;
    }
    sent_to-SameRuns account error_type error_detail guard panic w = record {
      runs = refl;
      lease = refl;
    }
    sent_to-SameRuns account error_type error_detail guard unfinished w = record {
      runs = refl;
      lease = refl;
    }

    send_to_accounts-SameRuns :
        (kind : WorkflowKind) (error_type : Text) (error : RunError)
        (accounts : List XingtuProjectAccount) (w : World)
        → SameRuns w.db (send_to_accounts h env m kind error_type error accounts w).db
    unfolding send_to_accounts send_error_notice
    send_to_accounts-SameRuns kind error_type error [] w = record { runs = refl; lease = refl }
    send_to_accounts-SameRuns kind error_type error (account ∷ accounts) w =
        let detail =
          workflow_error_detail h (m.beijing_timestamp w) account.xingtu_account_id kind error_type
            error in
        let guard = workflow_guard h env m account kind error_type in
        let later = (send_error_notice h env m account error_type detail guard w).1 in
        SameRuns-trans w.db later.db
          (send_to_accounts h env m kind error_type error accounts later).db
          (sent_to-SameRuns account error_type detail guard
            (parse_receive_id_type account.receive_id_type) w)
          (send_to_accounts-SameRuns kind error_type error accounts later)

    told-SameRuns :
        (kind : WorkflowKind) (error : RunError) (r : Fallible (List XingtuProjectAccount))
        (w : World)
        → SameRuns w.db (told h env m kind error r w).db
    told-SameRuns kind error (ok accounts) w = send_to_accounts-SameRuns kind _ error _ w
    told-SameRuns kind error (err e) w = record { runs = refl; lease = refl }
    told-SameRuns kind error panic w = record { runs = refl; lease = refl }
    told-SameRuns kind error unfinished w = record { runs = refl; lease = refl }

    pub send_workflow_error_notices-SameRuns :
        (kind : WorkflowKind) (error : RunError) (w : World)
        → SameRuns w.db (send_workflow_error_notices h env m kind error w).db
    unfolding send_workflow_error_notices
    send_workflow_error_notices-SameRuns kind error w =
        told-SameRuns kind error (m.list_accounts w) w
