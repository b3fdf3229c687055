-- ===== src/Activities.antt =====
-- src/pipeline/workflow.rs: the activities are synchronised one after another, each its live
-- table before its video table.
pub mod Config
pub mod Video
pub mod Live
pub mod Order
use lark_utils_exp.Prelude.{
  ℕ, suc, ◌+◌, List, [], ◌∷◌, ◌++◌, Option, none, some, is_nil, if◌then◌else◌,
}
use lark_utils_exp.Text.{Text, text, trim}
use lark_utils_exp.Text.Decimal.{decimal}
use lark_utils_exp.Host.{Host}
use lark_utils_exp.Effects.{Services, Io, pure, in_context, ◌>>=◌, ◌>>◌}
use lark_utils_exp.Activities.Config.{ActivityTableSyncConfig, ActivitySyncConfig}
use lark_utils_exp.Activities.Video.{run_video_sync}
use lark_utils_exp.Activities.Live.{run_live_sync}

-- fn activity_display_name
unfoldable pub activity_display_name : ℕ → Text → Text
unfolding trim decimal
activity_display_name index period =
    if is_nil (trim period) then text "第 " ++ (decimal (index + 1) ++ text " 期活动") else trim period

module _ (h : Host) (services : Services) (fuel : ℕ) where
  -- A table that may not be configured.
  abbrev pub optional_sync :
      Text
      → (ActivityTableSyncConfig → Io (Unit {0}))
      → Option ActivityTableSyncConfig
      → Io (Unit {0})
  optional_sync what sync none = pure tt
  optional_sync what sync (some c) = in_context what (sync c)

  -- fn run_single_activity_sync
  unfoldable pub run_single_activity_sync : ActivitySyncConfig → Io (Unit {0})
  run_single_activity_sync a = do
    optional_sync (text "直播同步失败") (run_live_sync h services fuel) a.live
    optional_sync (text "视频同步失败") (run_video_sync h services fuel) a.video

  -- the error of an activity, by its place and period
  abbrev pub activity_failure : ℕ → ActivitySyncConfig → Text
  activity_failure index a = text "活动 `" ++ (activity_display_name index a.period ++ text "` 同步失败")

  -- the loop of `run_sync_data_step`
  unfoldable pub run_activities_from : ℕ → List ActivitySyncConfig → Io (Unit {0})
  unfolding run_single_activity_sync
  run_activities_from index [] = pure tt
  run_activities_from index (a ∷ activities) =
      in_context (activity_failure index a) (run_single_activity_sync a)
      >> run_activities_from (suc index) activities

  -- fn run_sync_data_step
  unfoldable pub run_sync_data_step : List ActivitySyncConfig → Io (Unit {0})
  unfolding run_activities_from
  run_sync_data_step activities = run_activities_from 0 activities
