-- ===== src/Pipeline.antt =====
-- src/pipeline/runner.rs: a pipeline runs its steps in order and stops at the first failure.
pub mod Runs
use lark_utils_exp.Prelude.{List, [], ◌∷◌, ◌++◌}
use lark_utils_exp.Text.{Text, text}
use lark_utils_exp.Effects.{Io, pure, in_context, ◌>>=◌}

-- A step changes the context that the steps share; the new context is its result.
pub record PipelineStep (Ctx : Type 0) : Type 0 where
  pub name : Text
  pub run : Ctx → Io Ctx

pub record Pipeline (Ctx : Type 0) : Type 0 where
  pub name : Text
  pub steps : List (PipelineStep Ctx)

-- Pipeline::new
abbrev pub new : {Ctx : Type 0} → Text → Pipeline Ctx
new name = record { name = name; steps = [] }

-- Pipeline::add_step
abbrev pub add_step : {Ctx : Type 0} → Pipeline Ctx → PipelineStep Ctx → Pipeline Ctx
add_step p s = record p { steps = p.steps ++ s ∷ [] }

abbrev failure : Text → Text → Text
failure pipeline step =
    text "pipeline `" ++ (pipeline ++ (text "` 的 step `" ++ (step ++ text "` 执行失败")))

unfoldable pub run_steps : {Ctx : Type 0} → Text → List (PipelineStep Ctx) → Ctx → Io Ctx
run_steps name [] ctx = pure ctx
run_steps name (s ∷ steps) ctx = do
  ctx' ← in_context (failure name s.name) (s.run ctx)
  run_steps name steps ctx'

-- Pipeline::run
unfoldable pub run : {Ctx : Type 0} → Pipeline Ctx → Ctx → Io Ctx
unfolding run_steps
run p ctx = run_steps p.name p.steps ctx
