-- ===== src/WorkflowRun/Notices.antt =====
-- The guards against repeated notices (src/workflow_run.rs). `sha1_hex` is a parameter.
use lark_utils_exp.Prelude.{
  ℕ, ◌+◌, Bool, true, false, not, ◌&&◌, ◌||◌, Option, none, some, List, [], ◌∷◌, leb, if◌then◌else◌,
}
use lark_utils_exp.Text.{Text, text_eq}
use lark_utils_exp.WorkflowRun.Sql.{update_where}
use lark_utils_exp.WorkflowRun.Tables.{Guard, Database, seconds}
use lark_utils_exp.WorkflowRun.Recovery.{to_i32}

abbrev pub is_guard : Text → Text → Guard → Bool
is_guard category scope g = text_eq g.category category && text_eq g.scope_key scope

unfoldable pub find_guard : Text → Text → List Guard → Option Guard
find_guard category scope [] = none
find_guard category scope (g ∷ guards) =
    if is_guard category scope g then some g else find_guard category scope guards

abbrev pub delete_guard : Text → Text → List Guard → List Guard
delete_guard category scope [] = []
delete_guard category scope (g ∷ guards) =
    let rest = delete_guard category scope guards in
    if is_guard category scope g then rest else g ∷ rest

module _ (now : ℕ) where
  -- The time of the last notice is longer ago than the cooldown.
  abbrev pub is_cooled : ℕ → Option ℕ → Bool
  is_cooled cooldown none = true
  is_cooled cooldown (some t) = leb (t + seconds cooldown) now

  -- The `WHERE` of the upsert in `claim_notification`
  unfoldable pub is_claimable : Text → ℕ → Guard → Bool
  is_claimable hash cooldown g =
      leb g.reserved_until now
      && (not (text_eq g.payload_hash hash) || is_cooled cooldown g.last_sent_at)

  -- `now() + interval '5 minutes'`
  abbrev pub reservation_end : ℕ
  reservation_end = now + seconds 300

  abbrev pub reserve : Text → Guard → Guard
  reserve hash g = record g {
    last_sent_at = if text_eq g.payload_hash hash then g.last_sent_at else none;
    payload_hash = hash;
    reserved_until = reservation_end;
  }

  module _ (sha1_hex : Text → Text) where
    -- WorkflowRunRepository::claim_notification, given the cooldown in seconds
    unfoldable pub claim_notification : Text → Text → Text → ℕ → Database → Bool × Database
    unfolding find_guard is_claimable
    claim_notification category scope payload cooldown db =
        elim (find_guard category scope db.guards) [
          | none ↦ (
            true,
            record db {
              guards =
                  record {
                    category = category;
                    scope_key = scope;
                    payload_hash = sha1_hex payload;
                    reserved_until = reservation_end;
                    last_sent_at = none;
                  }
                  ∷ db.guards;
            },
          )
          | some g ↦
              if is_claimable (sha1_hex payload) (to_i32 cooldown) g
              then (
                true,
                record db {
                  guards =
                      update_where (is_guard category scope) (reserve (sha1_hex payload)) db.guards;
                },
              )
              else (false, db)
        ]

  -- WorkflowRunRepository::mark_notification_sent
  unfoldable pub mark_notification_sent : Text → Text → Database → Database
  mark_notification_sent category scope db = record db {
    guards =
        update_where (is_guard category scope)
          (λ g. record g { last_sent_at = some now; reserved_until = now }) db.guards;
  }

  -- WorkflowRunRepository::release_notification
  unfoldable pub release_notification : Text → Text → Database → Database
  release_notification category scope db = record db {
    guards =
        update_where (is_guard category scope) (λ g. record g { reserved_until = now }) db.guards;
  }

-- WorkflowRunRepository::clear_notification
unfoldable pub clear_notification : Text → Text → Database → Database
clear_notification category scope db = record db { guards = delete_guard category scope db.guards }
