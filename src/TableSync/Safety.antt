-- ===== src/TableSync/Safety.antt =====
-- The order of reads, the database and writes in src/pipeline/table_sync.rs.
use lark_utils_exp.Prelude.{
  ℕ, List, ◌∷◌, ◌++◌, true, Option, ok, err, panic, unfinished, ◌≡◌, ◌≢◌, refl, sym, subst, ◌⊎◌,
  inl, inr,
}
use lark_utils_exp.Text.{Text}
use lark_utils_exp.Host.{Host}
use lark_utils_exp.Error.{Fallible}
use lark_utils_exp.Effects.{persist, Services, Log, Io, continue, ◌>>=◌, in_context, perform, pure}
use lark_utils_exp.Effects.Quiet.{
  Reads, same, more, Reads-trans, Quiet, Quiet-pure, Quiet-lift, Quiet-bind,
}
use lark_utils_exp.Sync.Rules.{FieldValueRules}
use lark_utils_exp.Sync.Rows.{SourceRow}
use lark_utils_exp.Pipeline.{run_steps, run}
use lark_utils_exp.Pipeline.Runs.{run_steps-append, run_steps-Quiet}
use lark_utils_exp.TableSync.Context.{TableSyncConfig, Context, empty_context}
use lark_utils_exp.TableSync.Flow.{
  reading_steps, persist_step, planning_steps, writing_steps, build_table_sync_pipeline,
  run_table_sync_pipeline,
}
use lark_utils_exp.TableSync.Steps.{persist_merged_records}
use lark_utils_exp.TableSync.Reading.{reading_steps-AllQuiet}

-- A run with a repository configured: either it wrote to no table, or it has read, then stored the
-- rows, which the repository accepted, and all the rest is the run of the steps behind the storing.
abbrev pub IsStoredFirst : Services → (Context → Io Context) → Log → Fallible Context × Log → Type 0
IsStoredFirst services rest log outcome =
    Reads log outcome.1
    ⊎ ((ctx : Context) × (mid : Log) × Reads log mid
        × (services.store mid ctx.source_rows ≡ ok tt)
        × (outcome ≡ rest ctx (persist ctx.source_rows ∷ mid)))

module _ (h : Host) (services : Services) (fuel : ℕ) (config : TableSyncConfig)
    (rules : FieldValueRules) (app_token : Text) (spreadsheet_token : Option Text)
    (db : config.db_sync ≡ true) where
  after_store :
      (r : Fallible (Unit {0})) (ctx : Context) (log : Log) (c d : Text)
      (rest : Context → Io Context)
      → services.store log ctx.source_rows ≡ r
      → IsStoredFirst services rest log (
          (in_context c (in_context d (λ l. (r, persist ctx.source_rows ∷ l)) >>= λ _. pure ctx)
              >>= rest)
            log)
  unfolding in_context ◌>>=◌ pure
  after_store (ok tt) ctx log c d rest e = inr (ctx, log, same, e, refl)
  after_store (err x) ctx log c d rest e = inl (more refl same)
  after_store panic ctx log c d rest e = inl (more refl same)
  after_store unfinished ctx log c d rest e = inl (more refl same)

  persist-IsStoredFirst :
      (ctx : Context) (log : Log) (c : Text) (rest : Context → Io Context)
      → IsStoredFirst services rest log (
          (in_context c (
                persist_merged_records h services fuel config rules app_token spreadsheet_token ctx)
              >>= rest)
            log)
  unfolding persist_merged_records perform in_context ◌>>=◌
  persist-IsStoredFirst ctx log c rest =
      rw db (after_store (services.store log ctx.source_rows) ctx log c _ rest refl)

  abbrev pub rest_of : Context → Io Context
  rest_of = run_steps config.pipeline_name (
      planning_steps h services fuel config rules app_token spreadsheet_token
      ++ writing_steps h services fuel config rules app_token spreadsheet_token)

  IsStoredFirst-later :
      {log mid : Log} {outcome : Fallible Context × Log}
      → Reads log mid
      → IsStoredFirst services rest_of mid outcome
      → IsStoredFirst services rest_of log outcome
  IsStoredFirst-later r (inl s) = inl (Reads-trans r s)
  IsStoredFirst-later r (inr (ctx, mid, s, e, o)) = inr (ctx, mid, Reads-trans r s, e, o)

  continue-IsStoredFirst :
      (r : Fallible Context) (log mid : Log)
      → Reads log mid
      → IsStoredFirst services rest_of log (
          continue r
            (run_steps config.pipeline_name (
              persist_step h services fuel config rules app_token spreadsheet_token
              ∷ (planning_steps h services fuel config rules app_token spreadsheet_token
                  ++ writing_steps h services fuel config rules app_token spreadsheet_token)))
            mid)
  unfolding run_steps
  continue-IsStoredFirst (ok ctx) log mid r =
      IsStoredFirst-later r (persist-IsStoredFirst ctx mid _ rest_of)
  continue-IsStoredFirst (err e) log mid r = inl r
  continue-IsStoredFirst panic log mid r = inl r
  continue-IsStoredFirst unfinished log mid r = inl r

  -- With a repository configured, a run of the pipeline either writes to no table, or it reads,
  -- has the repository accept the rows, and then runs the planning and the writing steps.
  pub run-IsStoredFirst :
      (ctx : Context) (log : Log)
      → IsStoredFirst services rest_of log (
          run
            (build_table_sync_pipeline h services fuel config rules app_token spreadsheet_token)
            ctx
            log)
  unfolding run build_table_sync_pipeline ◌>>=◌
  run-IsStoredFirst ctx log =
      let steps = reading_steps h services fuel config rules app_token spreadsheet_token in
      let reads =
        run_steps-Quiet config.pipeline_name steps ctx
          (reading_steps-AllQuiet h services fuel config rules app_token spreadsheet_token) in
      subst (λ o. IsStoredFirst services rest_of log o)
        (sym (
          run_steps-append config.pipeline_name steps
            (persist_step h services fuel config rules app_token spreadsheet_token
              ∷ (planning_steps h services fuel config rules app_token spreadsheet_token
                  ++ writing_steps h services fuel config rules app_token spreadsheet_token))
            ctx log))
        (continue-IsStoredFirst (run_steps config.pipeline_name steps ctx log).0 log _
          (reads.at log))

  refused-Reads :
      (log : Log) (outcome : Fallible Context × Log)
      → ((l : Log) (rows : List SourceRow) → services.store l rows ≢ ok tt)
      → IsStoredFirst services rest_of log outcome
      → Reads log outcome.1
  refused-Reads log outcome refuses (inl r) = r
  refused-Reads log outcome refuses (inr (ctx, mid, r, stored, o)) =
      absurd (refuses mid ctx.source_rows stored)

-- With a repository configured that accepts no rows, a run writes to no table.
pub run_table_sync_pipeline-Quiet :
    (h : Host) (services : Services) (fuel : ℕ) (config : TableSyncConfig) (rules : FieldValueRules)
    → config.db_sync ≡ true
    → ((log : Log) (rows : List SourceRow) → services.store log rows ≢ ok tt)
    → Quiet (run_table_sync_pipeline h services fuel config rules)
unfolding run_table_sync_pipeline
run_table_sync_pipeline-Quiet h services fuel config rules db refuses =
    Quiet-bind _ _ (Quiet-lift _) λ app. Quiet-bind _ _ (Quiet-lift _) λ token.
      Quiet-bind _ _
        (record {
          at = λ log.
              refused-Reads h services fuel config rules app token db log _ refuses
                (run-IsStoredFirst h services fuel config rules app token db empty_context log);
        })
        λ ctx. Quiet-pure _
