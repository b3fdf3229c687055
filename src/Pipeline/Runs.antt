-- ===== src/Pipeline/Runs.antt =====
-- The steps of a pipeline, one list after another (src/pipeline/runner.rs).
use lark_utils_exp.Prelude.{◌≡◌, refl, sym, ◌∙◌, List, [], ◌∷◌, ◌++◌, ok, err, panic, unfinished}
use lark_utils_exp.Text.{Text}
use lark_utils_exp.Error.{Fallible}
use lark_utils_exp.Effects.{Log, Io, pure, in_context, continue, ◌>>=◌}
use lark_utils_exp.Effects.Quiet.{Quiet, Quiet-pure, Quiet-bind, Quiet-in_context}
use lark_utils_exp.Pipeline.{PipelineStep, failure, run_steps}

-- Every step writes to no table, whatever its context.
pub data AllQuiet {Ctx : Type 0} : List (PipelineStep Ctx) → Type 0 where
  nil : AllQuiet []
  cons :
      {s : PipelineStep Ctx} {steps : List (PipelineStep Ctx)}
      → ((ctx : Ctx) → Quiet (s.run ctx))
      → AllQuiet steps
      → AllQuiet (s ∷ steps)

module _ {Ctx : Type 0} where
  continue_assoc :
      (r : Fallible Ctx) (f g : Ctx → Io Ctx) (log : Log)
      → (let (r', log') = continue r f log in continue r' g log') ≡ continue r (λ a. f a >>= g) log
  unfolding ◌>>=◌
  continue_assoc (ok a) f g log = refl
  continue_assoc (err e) f g log = refl
  continue_assoc panic f g log = refl
  continue_assoc unfinished f g log = refl

  continue-ext :
      (r : Fallible Ctx) (f g : Ctx → Io Ctx) (log : Log)
      → ((a : Ctx) → f a log ≡ g a log)
      → continue r f log ≡ continue r g log
  continue-ext (ok a) f g log h = h a
  continue-ext (err e) f g log h = refl
  continue-ext panic f g log h = refl
  continue-ext unfinished f g log h = refl

  -- Running the steps of two lists is running those of the first and then, with the context and the
  -- calls that these leave, those of the second; a failure in the first list ends the run.
  pub run_steps-append :
      (name : Text) (steps more : List (PipelineStep Ctx)) (ctx : Ctx) (log : Log)
      → run_steps name (steps ++ more) ctx log
        ≡ (run_steps name steps ctx >>= run_steps name more) log
  unfolding run_steps ◌>>=◌ pure
  run_steps-append name [] more ctx log = refl
  run_steps-append name (s ∷ steps) more ctx log =
      continue-ext (in_context (failure name s.name) (s.run ctx) log).0 _ _ _
        (λ c. run_steps-append name steps more c _)
      ∙ sym (
          continue_assoc (in_context (failure name s.name) (s.run ctx) log).0 (run_steps name steps)
            (run_steps name more) _)

  pub run_steps-Quiet :
      (name : Text) (steps : List (PipelineStep Ctx)) (ctx : Ctx)
      → AllQuiet steps
      → Quiet (run_steps name steps ctx)
  unfolding run_steps
  run_steps-Quiet name [] ctx nil = Quiet-pure ctx
  run_steps-Quiet name (s ∷ steps) ctx (cons q qs) =
      Quiet-bind _ _ (Quiet-in_context _ _ (q ctx)) (λ c. run_steps-Quiet name steps c qs)
