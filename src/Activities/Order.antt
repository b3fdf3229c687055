-- ===== src/Activities/Order.antt =====
-- Runs over several activities (src/pipeline/workflow.rs).
use lark_utils_exp.Prelude.{
  ℕ, suc, ◌+◌, List, [], ◌∷◌, ◌++◌, true, Option, none, some, All, ok, err, ◌≡◌, ◌≢◌, refl, sym, ap,
  ◌∙◌, arith, length,
}
use lark_utils_exp.Text.{Text}
use lark_utils_exp.Error.{Error, context}
use lark_utils_exp.Host.{Host}
use lark_utils_exp.Effects.{Services, Log, Io, pure, in_context, ◌>>=◌}
use lark_utils_exp.Effects.Quiet.{Quiet, Quiet-pure, Quiet-bind, Quiet-in_context}
use lark_utils_exp.Effects.Success.{Ends, >>=-Ends, >>=-after}
use lark_utils_exp.Sync.Rows.{SourceRow}
use lark_utils_exp.TableSync.Safety.{run_table_sync_pipeline-Quiet}
use lark_utils_exp.Activities.Config.{ActivityTableSyncConfig, ActivitySyncConfig}
use lark_utils_exp.Activities.Video.{run_video_sync, video_field_rules}
use lark_utils_exp.Activities.Live.{run_live_sync, live_field_rules}
use lark_utils_exp.Activities.{
  optional_sync, run_single_activity_sync, activity_failure, run_activities_from,
  run_sync_data_step,
}

-- A repository is configured for the table, if there is a table.
abbrev pub IsStored : Option ActivityTableSyncConfig → Type 0
IsStored none = Unit
IsStored (some c) = c.db_sync ≡ true

module _ (h : Host) (services : Services) (fuel : ℕ) where
  optional-Quiet :
      (what : Text) (sync : ActivityTableSyncConfig → Io (Unit {0}))
      (c : Option ActivityTableSyncConfig)
      → ((c : ActivityTableSyncConfig) → c.db_sync ≡ true → Quiet (sync c))
      → IsStored c
      → Quiet (optional_sync h services fuel what sync c)
  optional-Quiet what sync none quiet db = Quiet-pure _
  optional-Quiet what sync (some c) quiet db = Quiet-in_context _ _ (quiet c db)

  module _ (refuses : (log : Log) (rows : List SourceRow) → services.store log rows ≢ ok tt) where
    video-Quiet :
        (c : ActivityTableSyncConfig) → c.db_sync ≡ true → Quiet (run_video_sync h services fuel c)
    unfolding run_video_sync
    video-Quiet c db =
        run_table_sync_pipeline-Quiet h services fuel _ (video_field_rules h) db refuses

    live-Quiet :
        (c : ActivityTableSyncConfig) → c.db_sync ≡ true → Quiet (run_live_sync h services fuel c)
    unfolding run_live_sync
    live-Quiet c db =
        run_table_sync_pipeline-Quiet h services fuel _ (live_field_rules h) db refuses

    activities-Quiet :
        (index : ℕ) (activities : List ActivitySyncConfig)
        → All (λ a. IsStored a.live × IsStored a.video) activities
        → Quiet (run_activities_from h services fuel index activities)
    unfolding run_activities_from run_single_activity_sync
    activities-Quiet index [] dbs = Quiet-pure _
    activities-Quiet index (a ∷ activities) ((live, video), dbs) =
        Quiet-bind _ _
          (Quiet-in_context _ _ (
            Quiet-bind _ _ (optional-Quiet _ _ a.live live-Quiet live)
              (λ _. optional-Quiet _ _ a.video video-Quiet video)))
          (λ _. activities-Quiet (suc index) activities dbs)

  -- Where every table has a repository configured and the repository accepts no rows, a run over
  -- any activities writes to no table.
  pub run_sync_data_step-Quiet :
      (activities : List ActivitySyncConfig)
      → All (λ a. IsStored a.live × IsStored a.video) activities
      → ((log : Log) (rows : List SourceRow) → services.store log rows ≢ ok tt)
      → Quiet (run_sync_data_step h services fuel activities)
  unfolding run_sync_data_step
  run_sync_data_step-Quiet activities dbs refuses = activities-Quiet refuses 0 activities dbs

  failed_activity :
      (index : ℕ) (before : List ActivitySyncConfig) (a : ActivitySyncConfig)
      (after : List ActivitySyncConfig) (e : Error) (log mid end : Log)
      → Ends (run_activities_from h services fuel index before) log tt mid
      → run_single_activity_sync h services fuel a mid ≡ (err e, end)
      → run_activities_from h services fuel index (before ++ (a ∷ after)) log
        ≡ (err (context (activity_failure h services fuel (index + length before) a) e), end)
  unfolding run_activities_from in_context ◌>>=◌ pure
  failed_activity index [] a after e log mid end first fails =
      let q : log ≡ mid = cc in let z : index + 0 ≡ index = omega arith in rw (q, fails, z) refl
  failed_activity index (b ∷ before) a after e log mid end first fails =
      let (u, m1, one, more) =
        >>=-Ends
          (in_context (activity_failure h services fuel index b)
            (run_single_activity_sync h services fuel b))
          (λ _. run_activities_from h services fuel (suc index) before) {log = log} {b = tt}
          {end = mid} first in
      let z : index + suc (length before) ≡ suc index + length before = omega arith in
      >>=-after
        (in_context (activity_failure h services fuel index b)
          (run_single_activity_sync h services fuel b))
        (λ _. run_activities_from h services fuel (suc index) (before ++ (a ∷ after))) one
      ∙ failed_activity (suc index) before a after e m1 mid end more fails
      ∙ ap (λ n. (err (context (activity_failure h services fuel n a) e), end)) (sym z)

  -- An activity that fails ends the run: where those before it succeed, the run ends where it did,
  -- with its error under the activity's name, whatever activities stand behind it.
  pub run_sync_data_step-err :
      (before : List ActivitySyncConfig) (a : ActivitySyncConfig) (after : List ActivitySyncConfig)
      (e : Error) (log mid end : Log)
      → Ends (run_sync_data_step h services fuel before) log tt mid
      → run_single_activity_sync h services fuel a mid ≡ (err e, end)
      → run_sync_data_step h services fuel (before ++ (a ∷ after)) log
        ≡ (err (context (activity_failure h services fuel (length before) a) e), end)
  unfolding run_sync_data_step
  run_sync_data_step-err before a after e log mid end first fails =
      let z : 0 + length before ≡ length before = omega arith in
      failed_activity 0 before a after e log mid end first fails
      ∙ ap (λ n. (err (context (activity_failure h services fuel n a) e), end)) z
